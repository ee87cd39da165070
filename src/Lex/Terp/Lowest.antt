-- ===== src/Lex/Terp/Lowest.antt =====
-- Which action `e_closure` of compiler/lex/terp.c reports: that of the lowest accepting state.
use cgkits.Prelude.{
  ltb, ◌==◌, Bool-cases, Option-cases, List-cases, ℕ, zero, suc, ◌≤◌, ◌<◌, ◌≡◌, refl, ◌≢◌, ◌⊎◌, inl,
  inr, true, false, Option, none, some, List, ◌∷◌, arith,
}
use cgkits.Set.{SetS, member}
use cgkits.Set.Range.{on}
use cgkits.Lex.Nfa.{Nfa, state_at, IsNfa}
use cgkits.Lex.Terp.{int_max, Closing, push_state, note_accept, close_state, close_loop}
use cgkits.Lex.Terp.Closure.{Holds, Grows}
use cgkits.Lex.Terp.Loop.{close_state-Grows, Inv, popped-Holds, close_state-Inv}

-- The results of a closure are those of state `i`.
abbrev pub Reports : Nfa → Closing → ℕ → Type 0
Reports nfa c i =
    ((state_at nfa i).accept ≡ c.accept) × ((state_at nfa i).anchor ≡ c.anchor) × (c.accept ≢ none)

module _ (nfa : Nfa) (from : SetS) (anchor : ℕ) (w : IsNfa nfa) where
  -- Of the states that were popped the results are those of the lowest accepting one. As long as
  -- there is none, the anchor is the caller's.
  pub record Lowest (c : Closing) : Type 0 where
    pub seen :
        (x : ℕ)
        → member c.set x ≡ true
        → on x c.stack ≡ false
        → (state_at nfa x).accept ≢ none
        → (c.accept_num ≤ x) × (c.accept ≢ none)
    pub chosen :
        ((c.accept ≡ none) × (c.accept_num ≡ int_max) × (c.anchor ≡ anchor))
        ⊎ ((member c.set c.accept_num ≡ true) × Reports nfa c c.accept_num)

  -- `push_state` leaves the results alone.
  push_state-results :
      (t : Option ℕ) (c : Closing)
      → ((push_state t c).accept_num ≡ c.accept_num)
        × ((push_state t c).accept ≡ c.accept)
        × ((push_state t c).anchor ≡ c.anchor)
  unfolding push_state
  push_state-results none c = (refl, refl, refl)
  push_state-results (some i) c = ground arith

  close_state-results :
      (i : ℕ) (c : Closing)
      → let d = close_state nfa i c in
        let b = note_accept (state_at nfa i) i c in
        (d.accept_num ≡ b.accept_num) × (d.accept ≡ b.accept) × (d.anchor ≡ b.anchor)
  unfolding close_state
  close_state-results i c = ground (
    arith,
    push_state-results (state_at nfa i).next (note_accept (state_at nfa i) i c),
    push_state-results (state_at nfa i).next2
        (push_state (state_at nfa i).next (note_accept (state_at nfa i) i c)),
  )

  -- What the results are after state `i` was noted.
  note_accept-results :
      (i : ℕ) (c : Closing)
      → i < int_max
      → ((c.accept ≡ none) × (c.accept_num ≡ int_max)) ⊎ (c.accept ≢ none)
      → let b = note_accept (state_at nfa i) i c in
        (b.accept_num ≤ c.accept_num)
        × ((state_at nfa i).accept ≢ none → (b.accept_num ≤ i) × (b.accept ≢ none))
        × (c.accept ≢ none → b.accept ≢ none)
        × (((b.accept_num ≡ i) × Reports nfa b i)
            ⊎ ((b.accept_num ≡ c.accept_num) × (b.accept ≡ c.accept) × (b.anchor ≡ c.anchor)))
  unfolding note_accept
  note_accept-results i c h k = elim (Option-cases (state_at nfa i).accept) [
    | inl e ↦ ground (arith, e)
    | inr (a, e) ↦ elim (Bool-cases (ltb i c.accept_num)) [
      | inl l ↦ ground (arith, e, l)
      | inr g ↦ ground (arith, e, g, k)
    ]
  ]

  close_state-Lowest :
      (c : Closing) (i : ℕ) (rest : List ℕ)
      → c.stack ≡ i ∷ rest
      → Inv nfa from c
      → Lowest c
      → Lowest (close_state nfa i (record c { stack = rest }))
  close_state-Lowest c i rest e v l = record {
    seen = λ x m o accepts. seen_after x m o accepts (Bool-cases (i == x));
    chosen = chosen_after;
  }
    where
      c' : Closing
      c' = record c { stack = rest }

      p : Holds nfa from c' × (member c.set i ≡ true)
      p = popped-Holds nfa from c i rest e v

      d : Closing
      d = close_state nfa i c'

      g : Grows nfa from c' d
      g = (close_state-Grows nfa from w i c' p.0 p.1).0

      b : Closing
      b = note_accept (state_at nfa i) i c'

      r : (d.accept_num ≡ b.accept_num) × (d.accept ≡ b.accept) × (d.anchor ≡ b.anchor)
      r = close_state-results i c'

      undecided : ((c.accept ≡ none) × (c.accept_num ≡ int_max)) ⊎ (c.accept ≢ none)
      undecided = elim l.chosen [ inl h ↦ inl (h.0, h.1) | inr h ↦ inr h.1.2 ]

      i_small : i < int_max
      i_small = omega (arith, v.holds.states.within i p.1, w.fits)

      n :
          (b.accept_num ≤ c.accept_num)
          × ((state_at nfa i).accept ≢ none → (b.accept_num ≤ i) × (b.accept ≢ none))
          × (c.accept ≢ none → b.accept ≢ none)
          × (((b.accept_num ≡ i) × Reports nfa b i)
              ⊎ ((b.accept_num ≡ c.accept_num) × (b.accept ≡ c.accept) × (b.anchor ≡ c.anchor)))
      n = note_accept-results i c' i_small undecided

      seen_after :
          (x : ℕ)
          → member d.set x ≡ true
          → on x d.stack ≡ false
          → (state_at nfa x).accept ≢ none
          → ((i == x) ≡ true) ⊎ ((i == x) ≡ false)
          → (d.accept_num ≤ x) × (d.accept ≢ none)
      seen_after x m o accepts (inl now) =
          let same : i ≡ x = ground arith in
          let q = n.1 (rw same accepts) in (omega (arith, r.0, q.0), rw (r.1) q.1)
      seen_after x m o accepts (inr before) =
          let q =
            l.seen x (g.fresh x m o) (rw e (unfold on in ground (arith, g.stays x, before, o)))
              accepts in
          (omega (arith, r.0, q.0, n.0), rw (r.1) (n.2 q.1))

      chosen_after :
          ((d.accept ≡ none) × (d.accept_num ≡ int_max) × (d.anchor ≡ anchor))
          ⊎ ((member d.set d.accept_num ≡ true) × Reports nfa d d.accept_num)
      chosen_after = elim n.3 [
        | inl now ↦ inr (rw (r.0, now.0) (g.keeps i p.1), rw (r.0, now.0, r.1, r.2) now.1)
        | inr before ↦ elim l.chosen [
          | inl h ↦ inl (
            ground (arith, r, before, h),
            ground (arith, r, before, h),
            ground (arith, r, before, h),
          )
          | inr h ↦ inr (
            rw (r.0, before.0) (g.keeps c.accept_num h.0),
            rw (r.0, before.0, r.1, before.1, r.2, before.2) h.1,
          )
        ]
      ]

  pub close_loop-Lowest :
      (fuel : ℕ) (c : Closing) → Inv nfa from c → Lowest c → Lowest (close_loop nfa fuel c)
  unfolding close_loop
  close_loop-Lowest zero c v l = l
  close_loop-Lowest (suc fuel) c v l = elim (List-cases c.stack) [
    | inl e ↦ rw (e, close_loop) l
    | inr (i, rest, e) ↦
        rw (e, close_loop)
          (close_loop-Lowest fuel _ (close_state-Inv nfa from w c i rest e v).0
            (close_state-Lowest c i rest e v l))
  ]
