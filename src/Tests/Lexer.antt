-- ===== src/Tests/Lexer.antt =====
-- The theorems about compiler/lex at a small machine: the NFA of the rule `a|b`.
use mathlib.Core.Option
use cgkits.Prelude.{
  length, ℕ, zero, suc, ◌≤◌, ◌<◌, ◌≡◌, ◌≢◌, ◌↔◌, ◌⊎◌, true, Option, none, some, List, [], ◌∷◌,
  arith,
}
use cgkits.Set.{SetS, set_new, add, member}
use cgkits.Lex.Nfa.{Edge, epsilon, char, NfaState, Nfa, state_at, IsNfa}
use cgkits.Lex.Terp.{e_closure, move}
use cgkits.Lex.Terp.Closure.{EpsilonReach, IsStates, IsStates-add}
use cgkits.Lex.Terp.Lowest.{Reports}
use cgkits.Lex.Terp.Result.{e_closure_iff, e_closure_accept}
use cgkits.Lex.Terp.Move.{CharEdge, holds, AreStates, new-IsStates, move_iff}
use cgkits.Lex.Dfa.{dfa_max, Row, Dfa, done, too_many, make_trans}
use cgkits.Lex.Dfa.Language.{table_run, Follows, make_trans_language}
use cgkits.Lex.Dfa.Texts.{AreChars}
use cgkits.Lex.Dfa.Distinct.{IsDistinct, IsFull}
use cgkits.Set.Cursor.{Cursor}
use cgkits.Lex.MinDfa.{Accept, string_of, generated, stopped, min_dfa}
use cgkits.Lex.MinDfa.FromNfa.{Decides, min_dfa_language}

abbrev no_cursor : Cursor
no_cursor = record { last = none; current = 0 }

abbrev state : Edge → Option ℕ → Option ℕ → NfaState
state e n n2 = record {
  edge = e;
  bitset = set_new;
  next = n;
  next2 = n2;
  accept = none;
  anchor = 0;
}

-- 0 goes to 1 and 2 on epsilon, 1 to 3 on `a`, 2 to 3 on `b`, and 3 accepts with action 17.
abbrev machine : Nfa
machine =
    state epsilon (some 1) (some 2)
    ∷ state (char b'a') (some 3) none
    ∷ state (char b'b') (some 3) none
    ∷ (record (state epsilon none none) { accept = some 17 })
    ∷ []

machine-next_in : (i j : ℕ) → (state_at machine i).next ≡ some j → j < 4
machine-next_in zero j e = ground arith
machine-next_in (suc zero) j e = ground arith
machine-next_in (suc (suc zero)) j e = ground arith
machine-next_in (suc (suc (suc zero))) j e = absurd (ground (arith, e))
machine-next_in (suc (suc (suc (suc i)))) j e = absurd (ground (arith, e))

machine-next2_in : (i j : ℕ) → (state_at machine i).next2 ≡ some j → j < 4
machine-next2_in zero j e = ground arith
machine-next2_in (suc zero) j e = absurd (ground (arith, e))
machine-next2_in (suc (suc zero)) j e = absurd (ground (arith, e))
machine-next2_in (suc (suc (suc zero))) j e = absurd (ground (arith, e))
machine-next2_in (suc (suc (suc (suc i)))) j e = absurd (ground (arith, e))

machine-IsNfa : IsNfa machine
machine-IsNfa = record {
  fits = omega arith;
  next_in = machine-next_in;
  next2_in = machine-next2_in;
}

abbrev first : SetS
first = add set_new 0

first-IsStates : IsStates machine first
first-IsStates = IsStates-add machine set_new 0 (new-IsStates machine) (omega arith)

e_closure_iff_example :
    ((e_closure machine first 0).stack ≡ [])
    × IsStates machine (e_closure machine first 0).set
    × ((x : ℕ) → (member (e_closure machine first 0).set x ≡ true) ↔ EpsilonReach machine first x)
e_closure_iff_example = e_closure_iff machine first 0 machine-IsNfa first-IsStates

e_closure_accept_example :
    (((e_closure machine first 0).accept ≡ none)
      × ((e_closure machine first 0).anchor ≡ 0)
      × ((x : ℕ) → EpsilonReach machine first x → (state_at machine x).accept ≡ none))
    ⊎ ((i : ℕ) × (EpsilonReach machine first i
          × Reports machine (e_closure machine first 0) i
          × ((x : ℕ) → EpsilonReach machine first x → (state_at machine x).accept ≢ none → i ≤ x)))
e_closure_accept_example = e_closure_accept machine first 0 machine-IsNfa first-IsStates

move_iff_example :
    AreStates machine (move machine first b'a')
    × ((i x : ℕ)
        → member first i ≡ true
        → CharEdge machine b'a' i x
        → holds (move machine first b'a') x ≡ true)
    × ((x : ℕ)
        → holds (move machine first b'a') x ≡ true
        → (i : ℕ) × (member first i ≡ true) × CharEdge machine b'a' i x)
move_iff_example = move_iff machine first b'a' machine-IsNfa first-IsStates

make_trans_language_example :
    ((make_trans machine 0 0 ≡ too_many) × IsFull machine 0)
    ⊎ ((d : Dfa) × ((make_trans machine 0 0 ≡ done d)
          × (length d.dstates ≤ dfa_max)
          × IsDistinct machine 0 d.dstates
          × ((w : List ℕ) → AreChars w → Follows machine 0 d w (table_run d.dtran w))))
make_trans_language_example = make_trans_language machine 0 0 machine-IsNfa (omega arith)

min_dfa_language_example :
    ((min_dfa machine 0 0 no_cursor ≡ stopped) × IsFull machine 0)
    ⊎ ((r : List Row × List Accept) × ((min_dfa machine 0 0 no_cursor ≡ generated r)
          × (length r.0 ≤ dfa_max)
          × ((w : List ℕ)
              → AreChars w
              → Decides machine 0 w (Option.map (string_of r.1) (table_run r.0 w)))))
min_dfa_language_example = min_dfa_language machine 0 0 no_cursor machine-IsNfa (omega arith)
