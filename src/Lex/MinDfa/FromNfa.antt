-- ===== src/Lex/MinDfa/FromNfa.antt =====
-- The table that `min_dfa` (compiler/lex/mindfa.c) makes of an NFA, by way of `dfa`
-- (compiler/lex/dfa.c).
use mathlib.Core.Option
use mathlib.Core.Path.{subst}
use cgkits.Prelude.{
  length, get_or, take, ℕ, zero, suc, ◌≤◌, ◌<◌, ◌≡◌, refl, sym, ap, ◌∙◌, ◌≢◌, ◌⊎◌, inl, inr, true,
  Option, none, some, List, [], ◌∷◌, map, arith,
}
use cgkits.Set.{SetS, member}
use cgkits.Lex.Nfa.{Nfa, state_at, IsNfa}
use cgkits.Lex.Dfa.{dfa_max, DfaState, dstate_at, Row, Dfa, rows, accept_states}
use cgkits.Lex.Dfa.Label.{Labels}
use cgkits.Lex.Dfa.Row.{IsNext, fails, goes}
use cgkits.Lex.Dfa.Rounds.{Inv}
use cgkits.Lex.Dfa.Texts.{Run, AreChars}
use cgkits.Lex.Dfa.Distinct.{Reached, IsDistinct, IsFull}
use cgkits.Lex.Dfa.Language.{table_run, Follows, table-Follows, make_trans-Inv}
use cgkits.Lex.MinDfa.{Accept, string_of, generated, stopped, min_dfa}
use cgkits.Lex.MinDfa.Language.{IsTable, minimize_language}
use cgkits.Set.Cursor.{Cursor}

-- What a lexer is to find on a text: no state of the NFA reads it; or some state does and none that
-- does accepts; or the lowest of the accepting states that read it has the action.
abbrev pub Decides : Nfa → ℕ → List ℕ → Option (Option ℕ) → Type 0
Decides nfa start w none = (x : ℕ) → ¬ Run nfa start w x
Decides nfa start w (some none) =
    ((x : ℕ) × Run nfa start w x) × ((x : ℕ) → Run nfa start w x → (state_at nfa x).accept ≡ none)
Decides nfa start w (some (some a)) =
    (i : ℕ) × (Run nfa start w i
      × ((state_at nfa i).accept ≡ some a)
      × ((x : ℕ) → Run nfa start w x → (state_at nfa x).accept ≢ none → i ≤ x))

get_or-take {ℓ} :
    {A : Type ℓ} (n i : ℕ) (xs : List A) (a : A) → i < n → get_or (take n xs) i a ≡ get_or xs i a
get_or-take zero i xs a l = absurd (omega arith)
get_or-take (suc n) i [] a l = refl
get_or-take (suc n) zero (x ∷ xs) a l = refl
get_or-take (suc n) (suc i) (x ∷ xs) a l = get_or-take n i xs a (omega arith)

string_of-accept_states :
    (ds : List DfaState) (i : ℕ)
    → i < length ds
    → string_of (map (λ (s : DfaState). (s.accept, s.anchor)) ds) i ≡ (dstate_at ds i).accept
string_of-accept_states [] i l = absurd (omega arith)
string_of-accept_states (d ∷ ds) zero l = refl
string_of-accept_states (d ∷ ds) (suc i) l = string_of-accept_states ds i (omega (arith, l))

IsNext-lt :
    (nfa : Nfa) (ds : List DfaState) (from : SetS) (c t : ℕ) {n : Option ℕ}
    → IsNext nfa ds from c n
    → n ≡ some t
    → t < length ds
IsNext-lt nfa ds from c t (fails h) e = absurd cc
IsNext-lt nfa ds from c t (goes {j} s h l m) e = let same : j ≡ t = ground arith in omega arith

module _ (nfa : Nfa) (start : ℕ) (g : IsNfa nfa) (h : start < length nfa) (d : Dfa)
    (v : Inv nfa start (length d.dstates) d) (k : IsDistinct nfa start d.dstates) where
  row_of : (i : ℕ) → i < length d.dstates → get_or (rows d) i [] ≡ get_or d.dtran i []
  unfolding rows
  row_of i l = get_or-take (length d.dstates) i d.dtran [] l

  rows-IsTable : IsTable (rows d) (length d.dstates)
  rows-IsTable x c t l u e =
      IsNext-lt nfa d.dstates (dstate_at d.dstates x).set c t (v.filled x c l u)
        (ap (λ row. get_or row c none) (sym (row_of x l)) ∙ e)

  table_run-rows : (w : List ℕ) → AreChars w → table_run (rows d) w ≡ table_run d.dtran w
  unfolding table_run
  table_run-rows [] a = refl
  table_run-rows (c ∷ w) a =
      onward (table_run (rows d) w) (table_run d.dtran w) (table_run-rows w a.1)
        (table-Follows nfa start g h d v w a.1)
    where
      step : List Row → Option ℕ → Option ℕ
      step t r = elim r [ none ↦ none | some i ↦ get_or (get_or t i []) c none ]

      onward :
          (r r' : Option ℕ) → r ≡ r' → Follows nfa start d w r' → step (rows d) r ≡ step d.dtran r'
      onward r none e f = rw e refl
      onward r (some i) e f = rw e (ap (λ row. get_or row c none) (row_of i f.0))

  -- What the states' labels say of the text.
  Follows-Decides :
      (w : List ℕ) (r : Option ℕ)
      → Follows nfa start d w r
      → Decides nfa start w (Option.map (string_of (accept_states d)) r)
  unfolding accept_states
  Follows-Decides w none f = f
  Follows-Decides w (some i) (l, same, labels) =
      rw (string_of-accept_states d.dstates i l)
        (labelled (dstate_at d.dstates i).accept refl labels)
    where
      s : SetS
      s = (dstate_at d.dstates i).set

      alive : (x : ℕ) × (member s x ≡ true)
      alive = unfold Reached in (k.reached i l).1.1

      labelled :
          (a : Option ℕ)
          → (dstate_at d.dstates i).accept ≡ a
          → Labels nfa (dstate_at d.dstates i)
          → Decides nfa start w (some a)
      labelled none e (inl q) = ((alive.0, (same alive.0).0 alive.1), λ x r. q.1 x ((same x).1 r))
      labelled none e (inr (j, q)) = absurd (q.3 e)
      labelled (some a) e (inl q) = absurd cc
      labelled (some a) e (inr (j, q)) =
          (j, ((same j).0 q.0, q.1 ∙ e, λ x r n. q.4 x ((same x).1 r) n))

-- From a state of a well-formed NFA, `min_dfa` ends. Either it stops the program, and then more
-- than `DFA_MAX` states are needed for the NFA: there are `DFA_MAX` sets of NFA states, each that of
-- the states after some text that the NFA can read and no two with the same members, and one such
-- set more, with the members of none of them. Or it makes a table of at most `DFA_MAX` rows that
-- decides every text of characters below `MAX_CHARS` as the NFA does: it fails where no state of
-- the NFA reads the text, and otherwise finds the action of the lowest accepting state that reads
-- the text, and no action where none of them accepts.
pub min_dfa_language :
    (nfa : Nfa) (start anchor : ℕ) (cursor : Cursor)
    → IsNfa nfa
    → start < length nfa
    → ((min_dfa nfa start anchor cursor ≡ stopped) × IsFull nfa start)
      ⊎ ((r : List Row × List Accept) × ((min_dfa nfa start anchor cursor ≡ generated r)
            × (length r.0 ≤ dfa_max)
            × ((w : List ℕ)
                → AreChars w
                → Decides nfa start w (Option.map (string_of r.1) (table_run r.0 w)))))
unfolding min_dfa
min_dfa_language nfa start anchor cursor g h = elim (make_trans-Inv nfa start anchor g h) [
  | inl full ↦ inl (rw (min_dfa, full.0) refl, full.1)
  | inr (d, p) ↦
      let (r, q) =
        minimize_language (rows d) (accept_states d) (length d.dstates) cursor p.1.some_states
          (rows-IsTable nfa start g h d p.1 p.2) in
      inr (
        r,
        (
          rw (min_dfa, p.0, q.0) refl,
          omega (arith, q.1, p.1.few),
          λ w a.
              subst (Decides nfa start w)
                (ap (Option.map (string_of (accept_states d)))
                    (sym (table_run-rows nfa start g h d p.1 p.2 w a))
                  ∙ sym (q.2 w a))
                (Follows-Decides nfa start g h d p.1 p.2 w (table_run d.dtran w)
                  (table-Follows nfa start g h d p.1 w a)),
        ),
      )
]
