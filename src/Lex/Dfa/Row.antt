-- ===== src/Lex/Dfa/Row.antt =====
-- One row of the table of compiler/lex/dfa.c: the transitions of one state on every character.
use mathlib.Core.Path.{subst}
use cgkits.Prelude.{
  ltb, ◌==◌, Bool-cases, Option-cases, length, length-append, get_or, ℕ, zero, suc, ◌+◌, ◌-◌, ◌≤◌,
  ◌<◌, ◌≡◌, refl, ◌↔◌, inl, inr, true, false, Option, none, some, List, [], ◌∷◌, ◌++◌, arith,
}
use cgkits.Set.{SetS, member}
use cgkits.Lex.Nfa.{Nfa, IsNfa}
use cgkits.Lex.Terp.{Closing, e_closure, move}
use cgkits.Lex.Terp.Closure.{EpsilonReach, IsStates}
use cgkits.Lex.Terp.Result.{e_closure_iff}
use cgkits.Lex.Terp.Move.{AreStates, move_iff}
use cgkits.Lex.Dfa.{
  dfa_max, DfaState, dstate_at, Row, in_dstates, add_to_dstates, enter, Filling, next_state,
  fill_row,
}
use cgkits.Lex.Dfa.Label.{
  IsGood, closed_state, closed_state-IsGood, Extends, get_or-append_one, Extends-refl,
  Extends-trans, Extends-append, AreGood, in_dstates_lem,
}

-- `next` is right for the set `from` and the character `c`: `F` where `move` finds nothing, and
-- otherwise a state that holds the closure of what `move` finds.
pub data IsNext (nfa : Nfa) (ds : List DfaState) (from : SetS) (c : ℕ) : Option ℕ → Type 0 where
  fails : move nfa from c ≡ none → IsNext nfa ds from c none
  goes :
      {j : ℕ} (s : SetS)
      → move nfa from c ≡ some s
      → j < length ds
      → ((x : ℕ) → (member (dstate_at ds j).set x ≡ true) ↔ EpsilonReach nfa s x)
      → IsNext nfa ds from c (some j)

pub IsNext-Extends :
    (nfa : Nfa) (ds es : List DfaState) (from : SetS) (c : ℕ) {n : Option ℕ}
    → Extends ds es
    → IsNext nfa ds from c n
    → IsNext nfa es from c n
IsNext-Extends nfa ds es from c e (fails h) = fails h
IsNext-Extends nfa ds es from c e (goes {j} s h l m) =
    goes s h (omega (arith, e.longer)) (λ x. rw (e.same j l) (m x))

-- A good array with one more good state.
AreGood-append :
    (nfa : Nfa) (ds : List DfaState) (d : DfaState)
    → AreGood nfa ds
    → IsGood nfa d
    → AreGood nfa (ds ++ d ∷ [])
AreGood-append nfa ds d g h i l = elim (Bool-cases (ltb i (length ds))) [
  | inl e ↦ rw (get_or-append_one ds d i, e) (g i (ground arith))
  | inr e ↦
      let last : (i == length ds) ≡ true = ground (arith, length-append ds (d ∷ [])) in
      rw (get_or-append_one ds d i, e, last) h
]

enter_lem :
    (nfa : Nfa) (c : Closing) (ds : List DfaState) (j : ℕ) (es : List DfaState)
    → IsGood nfa (closed_state c)
    → AreGood nfa ds
    → enter c ds ≡ some (j, es)
    → Extends ds es
      × AreGood nfa es
      × (j < length es)
      × ((x : ℕ) → member (dstate_at es j).set x ≡ member c.set x)
unfolding enter add_to_dstates closed_state
enter_lem nfa c ds j es h g e = elim (Option-cases (in_dstates c.set ds 0)) [
  | inr (i, old) ↦
      let (k, p, q, same) = in_dstates_lem nfa c.set ds 0 i h.states g old in
      let found : i ≡ j = ground (arith, old, e) in
      let kept : ds ≡ es = ground (arith, old, e) in
      let at : k ≡ j = omega arith in rw (← kept, ← at) (Extends-refl ds, g, q, same)
  | inl new ↦ elim (Bool-cases (ltb (dfa_max - 1) (length ds))) [
    | inl full ↦ absurd (ground (arith, new, full, e))
    | inr room ↦
        let d : DfaState = record {
          mark = false;
          accept = c.accept;
          anchor = c.anchor;
          set = c.set;
        } in
        let last : length ds ≡ j = ground (arith, new, room, e) in
        let longer : ds ++ d ∷ [] ≡ es = ground (arith, new, room, e) in
        let here_now : (ltb (length ds) (length ds) ≡ false) × ((length ds == length ds) ≡ true) =
          ground arith in
        rw (← last, ← longer)
          (
            Extends-append ds d refl,
            AreGood-append nfa ds d g h,
            omega (arith, length-append ds (d ∷ [])),
            λ x. rw (get_or-append_one ds d (length ds), here_now.0, here_now.1),
          )
  ]
]

-- One character: the array only grows, and the next state is right.
pub next_state_lem :
    (nfa : Nfa) (from : SetS) (c : ℕ) (f f' : Filling) (n : Option ℕ)
    → IsNfa nfa
    → IsStates nfa from
    → AreGood nfa f.states
    → next_state nfa from c f ≡ some (n, f')
    → Extends f.states f'.states × AreGood nfa f'.states × IsNext nfa f'.states from c n
unfolding next_state
next_state_lem nfa from c f f' n w v g e = go (move nfa from c) refl
  where
    entered :
        (s : SetS)
        → move nfa from c ≡ some s
        → IsStates nfa s
        → (j : ℕ) (ds : List DfaState) → enter (e_closure nfa s f.anchor) f.states ≡ some (j, ds)
        → Extends f.states ds × AreGood nfa ds × IsNext nfa ds from c (some j)
    entered s h sv j ds q =
        let r = e_closure_iff nfa s f.anchor w sv in
        let l =
          enter_lem nfa (e_closure nfa s f.anchor) f.states j ds
            (closed_state-IsGood nfa s f.anchor w sv) g q in
        (l.0, l.1, goes s h l.2 (λ x. rw (l.3 x) (r.2 x)))

    go :
        (m : Option SetS)
        → move nfa from c ≡ m
        → Extends f.states f'.states × AreGood nfa f'.states × IsNext nfa f'.states from c n
    go none h =
        let stays : f ≡ f' = ground (arith, h, e) in
        let failed : none ≡ n = ground (arith, h, e) in
        rw (← stays, ← failed) (Extends-refl f.states, g, fails h)
    go (some s) h = elim (Option-cases (enter (e_closure nfa s f.anchor) f.states)) [
      | inl full ↦ absurd (ground (arith, h, full, e))
      | inr ((j, ds), q) ↦
          let grown : ds ≡ f'.states = ground (arith, h, q, e) in
          let went : some j ≡ n = ground (arith, h, q, e) in
          let sv : IsStates nfa s = (subst (AreStates nfa) h ((move_iff nfa from c w v).0)).0 in
          rw (← grown, ← went) (entered s h sv j ds q)
    ]

-- The entries of a row that begins with the character `k`.
abbrev pub RowFrom : Nfa → List DfaState → SetS → ℕ → Row → Type 0
RowFrom nfa ds from k row =
    (c j : ℕ) → k + j ≡ c → j < length row → IsNext nfa ds from c (get_or row j none)

-- The loop over the characters fills the row.
pub fill_row_lem :
    (nfa : Nfa) (from : SetS) (k : ℕ) (f : Filling) (row : Row) (row' : Row) (f' : Filling)
    → IsNfa nfa
    → IsStates nfa from
    → AreGood nfa f.states
    → RowFrom nfa f.states from k row
    → fill_row nfa from k f row ≡ some (row', f')
    → Extends f.states f'.states
      × AreGood nfa f'.states
      × RowFrom nfa f'.states from 0 row'
      × (length row' ≡ k + length row)
unfolding fill_row
fill_row_lem nfa from zero f row row' f' w v g r e =
    let same_row : row ≡ row' = ground arith in
    let same_f : f ≡ f' = ground arith in
    rw (← same_row, ← same_f) (Extends-refl f.states, g, r, omega arith)
fill_row_lem nfa from (suc k) f row row' f' w v g r e =
    elim (Option-cases (next_state nfa from k f)) [
      | inl full ↦ absurd (ground (arith, full, e))
      | inr ((n, f1), q) ↦
          let step = next_state_lem nfa from k f f1 n w v g q in
          let ih =
            fill_row_lem nfa from k f1 (n ∷ row) row' f' w v step.1 (wider f1 n step.0 step.2)
              (rw (q, fill_row) at e) in
          (Extends-trans f.states f1.states f'.states step.0 ih.0, ih.1, ih.2, omega (arith, ih.3))
    ]
  where
    wider :
        (f1 : Filling) (n : Option ℕ)
        → Extends f.states f1.states
        → IsNext nfa f1.states from k n
        → RowFrom nfa f1.states from k (n ∷ row)
    wider f1 n x h c zero p l = let same : k ≡ c = omega arith in rw (← same) h
    wider f1 n x h c (suc j) p l =
        IsNext-Extends nfa f.states f1.states from c x (r c j (omega arith) (omega arith))

-- `add_to_dstates` stops the program before there are more than `DFA_MAX` states.
enter-few :
    (c : Closing) (ds : List DfaState) (j : ℕ) (es : List DfaState)
    → length ds ≤ dfa_max
    → enter c ds ≡ some (j, es)
    → length es ≤ dfa_max
unfolding enter add_to_dstates
enter-few c ds j es h e = elim (Option-cases (in_dstates c.set ds 0)) [
  | inr (i, old) ↦ let kept : ds ≡ es = ground (arith, old, e) in rw (← kept) h
  | inl new ↦ elim (Bool-cases (ltb (dfa_max - 1) (length ds))) [
    | inl full ↦ absurd (ground (arith, new, full, e))
    | inr room ↦
        let d : DfaState = record {
          mark = false;
          accept = c.accept;
          anchor = c.anchor;
          set = c.set;
        } in
        let longer : ds ++ d ∷ [] ≡ es = ground (arith, new, room, e) in
        rw (← longer) (ground (arith, length-append ds (d ∷ []), room))
  ]
]

pub next_state-few :
    (nfa : Nfa) (from : SetS) (c : ℕ) (f f' : Filling) (n : Option ℕ)
    → length f.states ≤ dfa_max
    → next_state nfa from c f ≡ some (n, f')
    → length f'.states ≤ dfa_max
unfolding next_state
next_state-few nfa from c f f' n h e = go (move nfa from c) refl
  where
    go : (m : Option SetS) → move nfa from c ≡ m → length f'.states ≤ dfa_max
    go none p = let stays : f ≡ f' = ground (arith, p, e) in rw (← stays) h
    go (some s) p = elim (Option-cases (enter (e_closure nfa s f.anchor) f.states)) [
      | inl full ↦ absurd (ground (arith, p, full, e))
      | inr ((j, ds), q) ↦
          let grown : ds ≡ f'.states = ground (arith, p, q, e) in
          rw (← grown) (enter-few (e_closure nfa s f.anchor) f.states j ds h q)
    ]

pub fill_row-few :
    (nfa : Nfa) (from : SetS) (k : ℕ) (f : Filling) (row : Row) (row' : Row) (f' : Filling)
    → length f.states ≤ dfa_max
    → fill_row nfa from k f row ≡ some (row', f')
    → length f'.states ≤ dfa_max
unfolding fill_row
fill_row-few nfa from zero f row row' f' h e = let same : f ≡ f' = ground arith in rw (← same) h
fill_row-few nfa from (suc k) f row row' f' h e = elim (Option-cases (next_state nfa from k f)) [
  | inl full ↦ absurd (ground (arith, full, e))
  | inr ((n, f1), q) ↦
      fill_row-few nfa from k f1 (n ∷ row) row' f' (next_state-few nfa from k f f1 n h q)
        (rw (q, fill_row) at e)
]
