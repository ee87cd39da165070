-- ===== src/Lex/Dfa/Language.antt =====
-- The DFA of compiler/lex/dfa.c recognises what the NFA does.
use cgkits.Prelude.{
  length, get_or, replicate, length-replicate, ℕ, zero, suc, ◌+◌, ◌≤◌, ◌<◌, ◌≡◌, refl, ◌↔◌, ◌⊎◌,
  inl, inr, true, false, Option, none, some, List, [], ◌∷◌, arith,
}
use cgkits.Set.{SetS, set_new, add, member}
use cgkits.Lex.Nfa.{Nfa, IsNfa}
use cgkits.Lex.Terp.Closure.{IsStates}
use cgkits.Lex.Terp.Result.{e_closure_iff}
use cgkits.Lex.Dfa.{
  dfa_max, max_chars, dstate_at, Row, Dfa, done, too_many, first_state, make_trans,
}
use cgkits.Lex.Dfa.Label.{Labels, IsGood, closed_state, closed_state-IsGood, AreGood}
use cgkits.Lex.Dfa.Row.{IsNext, fails, goes}
use cgkits.Lex.Dfa.Rounds.{Inv, trans_loop_lem}
use cgkits.Lex.Dfa.Texts.{
  Run, AreChars, start-IsStates, moved, moved_back, stuck, dead, first_follows,
}
use cgkits.Lex.Dfa.Full.{trans_loop-Full}
use cgkits.Lex.Dfa.Distinct.{IsDistinct, IsFull, first-IsDistinct}

-- The state that the table leads to; `none` is `F`.
unfoldable pub table_run : List Row → List ℕ → Option ℕ
table_run dtran [] = some 0
table_run dtran (c ∷ w) = elim (table_run dtran w) [
  | none ↦ none
  | some i ↦ get_or (get_or dtran i []) c none
]

-- The table fails on the text, and no state of the NFA reads it; or the table leads to a state
-- whose set is that of the states that read it, with the action and the anchor of the lowest
-- accepting one.
abbrev pub Follows : Nfa → ℕ → Dfa → List ℕ → Option ℕ → Type 0
Follows nfa start d w none = (x : ℕ) → ¬ Run nfa start w x
Follows nfa start d w (some i) =
    (i < length d.dstates)
    × ((x : ℕ) → (member (dstate_at d.dstates i).set x ≡ true) ↔ Run nfa start w x)
    × Labels nfa (dstate_at d.dstates i)

module _ (nfa : Nfa) (start : ℕ) (g : IsNfa nfa) (h : start < length nfa) where
  -- One character further, from a set of states `from`.
  next-Follows :
      (from : SetS)
      → IsStates nfa from
      → (w : List ℕ) → ((x : ℕ) → (member from x ≡ true) ↔ Run nfa start w x)
      → (c : ℕ) → (d : Dfa) (n : Option ℕ) → AreGood nfa d.dstates
      → IsNext nfa d.dstates from c n
      → Follows nfa start d (c ∷ w) n
  next-Follows from s w same c d none good (fails e) =
      λ x r. stuck nfa start g h from s w same c e r
  next-Follows from s w same c d (some j) good (goes t e l m) = (
    l,
    λ x. (
      λ a. moved nfa start g h from s w same c t e ((m x).0 a),
      λ r. (m x).1 (moved_back nfa start g h from s w same c t e r),
    ),
    (good j l).labels,
  )

  -- A machine in which every state has its row follows the NFA on every text.
  pub table-Follows :
      (d : Dfa)
      → Inv nfa start (length d.dstates) d
      → (w : List ℕ) → AreChars w
      → Follows nfa start d w (table_run d.dtran w)
  unfolding table_run
  table-Follows d v [] a = (
    v.some_states,
    λ x. (
      λ m. (first_follows nfa start g h x).0 ((v.begins x).0 m),
      λ r. (v.begins x).1 ((first_follows nfa start g h x).1 r),
    ),
    (v.good 0 v.some_states).labels,
  )
  table-Follows d v (c ∷ w) a = onward (table_run d.dtran w) (table-Follows d v w a.1)
    where
      onward :
          (n : Option ℕ)
          → Follows nfa start d w n
          → Follows nfa start d
              (c ∷ w)
              (elim n [ none ↦ none | some i ↦ get_or (get_or d.dtran i []) c none ])
      onward none f = λ x r. dead nfa start g h w c f r
      onward (some i) f =
          next-Follows (dstate_at d.dstates i).set (v.good i f.0).states w f.1 c d _ v.good
            (v.filled i c f.0 a.0)

  first-Inv :
      (anchor : ℕ)
      → Inv nfa start 0 (record {
        dstates = first_state nfa start ∷ [];
        dtran = replicate dfa_max (replicate max_chars (some 0));
        last_marked = 0;
      })
  unfolding first_state closed_state
  first-Inv anchor = record {
    good = λ i l. good_first i l;
    some_states = omega arith;
    few = omega arith;
    room = length-replicate dfa_max blank_row;
    worked = omega arith;
    last = omega arith;
    marked = λ i l. absurd (omega arith);
    unmarked = λ i l. unmarked_first i;
    filled = λ i c l u. absurd (omega arith);
    begins = λ x. (e_closure_iff nfa (add set_new start) 0 g (start-IsStates nfa start g h)).2 x;
  }
    where
      blank_row : Row
      blank_row = replicate max_chars (some 0)

      good_first : (i : ℕ) → i < 1 → IsGood nfa (dstate_at (first_state nfa start ∷ []) i)
      good_first zero l =
          let k = closed_state-IsGood nfa (add set_new start) 0 g (start-IsStates nfa start g h) in
          record { states = k.states; labels = k.labels }
      good_first (suc i) l = absurd (omega arith)

      unmarked_first : (i : ℕ) → (dstate_at (first_state nfa start ∷ []) i).mark ≡ false
      unmarked_first zero = refl
      unmarked_first (suc i) = refl

pub make_trans-Inv :
    (nfa : Nfa) (start anchor : ℕ)
    → IsNfa nfa
    → start < length nfa
    → ((make_trans nfa start anchor ≡ too_many) × IsFull nfa start)
      ⊎ ((d : Dfa) × ((make_trans nfa start anchor ≡ done d)
            × Inv nfa start (length d.dstates) d
            × IsDistinct nfa start d.dstates))
unfolding make_trans
make_trans-Inv nfa start anchor g h =
    let built =
      trans_loop-Full nfa start g h (dfa_max + 1) 0 _ anchor (first-Inv nfa start g h anchor)
        (first-IsDistinct nfa start g h) in
    elim (trans_loop_lem nfa start (dfa_max + 1) 0 _ anchor g (first-Inv nfa start g h anchor)
      (omega arith)) [
        | inl full ↦ inl (full, built.0 full)
        | inr (d, p) ↦ inr (d, (p.0, p.1, built.1 d p.0))
      ]

-- From a state of a well-formed NFA, `make_trans` ends. Either it stops the program, and then more
-- than `DFA_MAX` states are needed: there are `DFA_MAX` sets of NFA states, each that of the states
-- after some text that the NFA can read and no two with the same members, and one such set more,
-- with the members of none of them. Or it makes at most `DFA_MAX` states, each with the set after
-- some text that the NFA can read and no two with the same members, and a table that agrees with
-- the NFA on every text of characters below `MAX_CHARS`: where the table fails no state of the NFA
-- reads the text, and the state that it leads to holds exactly the NFA states that read the text,
-- with the action and the anchor of the lowest accepting one among them.
pub make_trans_language :
    (nfa : Nfa) (start anchor : ℕ)
    → IsNfa nfa
    → start < length nfa
    → ((make_trans nfa start anchor ≡ too_many) × IsFull nfa start)
      ⊎ ((d : Dfa) × ((make_trans nfa start anchor ≡ done d)
            × (length d.dstates ≤ dfa_max)
            × IsDistinct nfa start d.dstates
            × ((w : List ℕ) → AreChars w → Follows nfa start d w (table_run d.dtran w))))
make_trans_language nfa start anchor g h = elim (make_trans-Inv nfa start anchor g h) [
  | inl full ↦ inl full
  | inr (d, p) ↦ inr (d, (p.0, p.1.few, p.2, table-Follows nfa start g h d p.1))
]
