-- ===== src/Lex/Dfa/Distinct.antt =====
-- The states of the array `_dstates` of compiler/lex/dfa.c: no set stands in it twice, and each is
-- that of the states after some text.
use cgkits.Prelude.{
  ltb, Bool-cases, Option-cases, length, length-append, ℕ, zero, suc, ◌+◌, ◌-◌, ◌≤◌, ◌<◌, ◌≡◌, ◌∙◌,
  ◌↔◌, inl, inr, true, false, none, some, List, [], ◌∷◌, ◌++◌, arith,
}
use cgkits.Set.{SetS, set_new, add, member}
use cgkits.Set.Ops.{is_equiv}
use cgkits.Set.Ops.Compare.{set_compare_iff}
use cgkits.Lex.Nfa.{Nfa, IsNfa}
use cgkits.Lex.Terp.{Closing, e_closure, move}
use cgkits.Lex.Terp.Closure.{here, IsStates}
use cgkits.Lex.Terp.Result.{e_closure_iff}
use cgkits.Lex.Terp.Move.{AreStates}
use cgkits.Lex.Dfa.{
  dfa_max, max_chars, DfaState, dstate_at, in_dstates, add_to_dstates, enter, first_state,
}
use cgkits.Lex.Dfa.Label.{get_or-append_one, AreGood}
use cgkits.Lex.Dfa.Texts.{Run, begin, AreChars, start-IsStates, moved, moved_back, first_follows}

-- The set of no state of the array has the same members.
abbrev pub IsNew : List DfaState → SetS → Type 0
IsNew ds s = (i : ℕ) → i < length ds → ¬ ((x : ℕ) → member s x ≡ member (dstate_at ds i).set x)

module _ (nfa : Nfa) (start : ℕ) where
  -- The set is that of the states of the NFA after some text, which it can read.
  unfoldable pub Reached : SetS → Type 0
  Reached s =
      (w : List ℕ) × (AreChars w
        × ((x : ℕ) × (member s x ≡ true))
        × ((x : ℕ) → (member s x ≡ true) ↔ Run nfa start w x))

  -- The sets of the array are those after some texts, and no two of them have the same members.
  pub record IsDistinct (ds : List DfaState) : Type 0 where
    pub reached : (i : ℕ) → i < length ds → Reached (dstate_at ds i).set
    pub apart :
        (i j : ℕ)
        → i < j
        → j < length ds
        → ¬ ((x : ℕ) → member (dstate_at ds j).set x ≡ member (dstate_at ds i).set x)

  -- There are `DFA_MAX` states, and a text after which the NFA is in states that none of them holds.
  pub record IsFull : Type 0 where
    pub states : List DfaState
    pub size : length states ≡ dfa_max
    pub distinct : IsDistinct states
    pub further : SetS
    pub further_reached : Reached further
    pub further_new : IsNew states further

-- `in_dstates` finds nothing only when there is no state with the same set.
in_dstates-IsNew :
    (nfa : Nfa) (s : SetS) (ds : List DfaState) (i : ℕ)
    → IsStates nfa s
    → AreGood nfa ds
    → in_dstates s ds i ≡ none
    → IsNew ds s
unfolding in_dstates
in_dstates-IsNew nfa s [] i v g e = λ j l. absurd (omega arith)
in_dstates-IsNew nfa s (d ∷ ds) i v g e = elim (Bool-cases (is_equiv s d.set)) [
  | inl same ↦ absurd (ground (arith, e, same))
  | inr other ↦ new other (
      in_dstates-IsNew nfa s ds (i + 1) v (λ n k. g (suc n) (omega arith))
        (ground (arith, e, other)))
]
  where
    new : is_equiv s d.set ≡ false → IsNew ds s → IsNew (d ∷ ds) s
    new other rest zero l same =
        let equal = (set_compare_iff s d.set v.valid (g 0 (omega arith)).states.valid).1.1 same in
        cc
    new other rest (suc j) l same = rest j (omega (arith, l)) same

module _ (nfa : Nfa) (start : ℕ) (g : IsNfa nfa) (h : start < length nfa) where
  -- One more state, whose set is new.
  append-IsDistinct :
      (ds : List DfaState) (d : DfaState)
      → IsDistinct nfa start ds
      → Reached nfa start d.set
      → IsNew ds d.set
      → IsDistinct nfa start (ds ++ d ∷ [])
  append-IsDistinct ds d k r n = record {
    reached = λ i l. elim (Bool-cases (ltb i (length ds))) [
      | inl e ↦ rw (before i e) (k.reached i (ground arith))
      | inr e ↦ rw (last i (ground (arith, size))) r
    ];
    apart = λ i j p l. elim (Bool-cases (ltb j (length ds))) [
      | inl e ↦ rw (before j e, before i (ground arith)) (k.apart i j p (ground arith))
      | inr e ↦
          rw (last j (ground (arith, size)), before i (ground (arith, size)))
            (n i (ground (arith, size)))
    ];
  }
    where
      size : length (ds ++ d ∷ []) ≡ length ds + 1
      size = length-append ds (d ∷ [])

      before : (i : ℕ) → ltb i (length ds) ≡ true → dstate_at (ds ++ d ∷ []) i ≡ dstate_at ds i
      before i e = get_or-append_one ds d i ∙ ground (arith, e)

      last : (i : ℕ) → i ≡ length ds → dstate_at (ds ++ d ∷ []) i ≡ d
      last i e = get_or-append_one ds d i ∙ ground (arith, e)

  pub enter-IsDistinct :
      (c : Closing) (ds : List DfaState) (j : ℕ) (es : List DfaState)
      → IsStates nfa c.set
      → AreGood nfa ds
      → IsDistinct nfa start ds
      → Reached nfa start c.set
      → enter c ds ≡ some (j, es)
      → IsDistinct nfa start es
  unfolding enter add_to_dstates
  enter-IsDistinct c ds j es v a k r e = elim (Option-cases (in_dstates c.set ds 0)) [
    | inr (i, old) ↦ let kept : ds ≡ es = ground (arith, old, e) in rw (← kept) k
    | inl new ↦ elim (Bool-cases (ltb (dfa_max - 1) (length ds))) [
      | inl full ↦ absurd (ground (arith, new, full, e))
      | inr room ↦
          let d : DfaState = record {
            mark = false;
            accept = c.accept;
            anchor = c.anchor;
            set = c.set;
          } in
          let longer : ds ++ d ∷ [] ≡ es = ground (arith, new, room, e) in
          rw (← longer) (append-IsDistinct ds d k r (in_dstates-IsNew nfa c.set ds 0 v a new))
    ]
  ]

  pub enter-IsFull :
      (c : Closing) (ds : List DfaState)
      → IsStates nfa c.set
      → AreGood nfa ds
      → IsDistinct nfa start ds
      → length ds ≤ dfa_max
      → Reached nfa start c.set
      → enter c ds ≡ none
      → IsFull nfa start
  unfolding enter add_to_dstates
  enter-IsFull c ds v a k few r e = elim (Option-cases (in_dstates c.set ds 0)) [
    | inr (i, old) ↦ absurd (ground (arith, old, e))
    | inl new ↦ elim (Bool-cases (ltb (dfa_max - 1) (length ds))) [
      | inl full ↦ record {
        states = ds;
        size = ground (arith, full, few);
        distinct = k;
        further = c.set;
        further_reached = r;
        further_new = in_dstates-IsNew nfa c.set ds 0 v a new;
      }
      | inr room ↦ absurd (ground (arith, new, room, e))
    ]
  ]

  -- The closure of what `move` finds is the set after the text with one character more.
  pub moved-Reached :
      (from : SetS) (c anchor : ℕ) (t : SetS)
      → IsStates nfa from
      → c < max_chars
      → Reached nfa start from
      → move nfa from c ≡ some t
      → AreStates nfa (some t)
      → Reached nfa start (e_closure nfa t anchor).set
  unfolding Reached
  moved-Reached from c anchor t s l (w, (a, alive, same)) e (v, (y, m)) =
      let r = (e_closure_iff nfa t anchor g v).2 in
      (
        c ∷ w,
        (
          (l, a),
          (y, (r y).1 (here m)),
          λ x. (
            λ m. moved nfa start g h from s w same c t e ((r x).0 m),
            λ p. (r x).1 (moved_back nfa start g h from s w same c t e p),
          ),
        ),
      )

  -- The array that the loop begins with.
  pub first-IsDistinct : IsDistinct nfa start (first_state nfa start ∷ [])
  unfolding first_state Reached
  first-IsDistinct = record {
    reached = first_reached;
    apart = λ i j p l. absurd (omega (arith, l));
  }
    where
      closed : (x : ℕ) → (member (first_state nfa start).set x ≡ true) ↔ Run nfa start [] x
      closed x =
          let r = (e_closure_iff nfa (add set_new start) 0 g (start-IsStates nfa start g h)).2 x in
          let f = first_follows nfa start g h x in (λ m. f.0 (r.0 m), λ e. r.1 (f.1 e))

      first_reached :
          (i : ℕ) → i < 1 → Reached nfa start (dstate_at (first_state nfa start ∷ []) i).set
      first_reached zero l = ([], (tt, (start, (closed start).1 begin), closed))
      first_reached (suc i) l = absurd (omega arith)
