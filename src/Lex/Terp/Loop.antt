-- ===== src/Lex/Terp/Loop.antt =====
-- The loop of `e_closure` in compiler/lex/terp.c.
use cgkits.Prelude.{
  ◌==◌, Bool-cases, length, List-cases, ℕ, zero, suc, ◌+◌, ◌≤◌, ◌≡◌, refl, ap, ◌∙◌, inl, inr, true,
  false, some, List, [], ◌∷◌, arith,
}
use cgkits.Set.{SetS, member}
use cgkits.Set.Range.{on}
use cgkits.Lex.Nfa.{NfaState, Nfa, state_at, is_epsilon, IsNfa}
use cgkits.Lex.Terp.{Closing, push_state, note_accept, close_state, close_loop}
use cgkits.Lex.Terp.Closure.{
  EpsilonEdge, there, missing, Holds, Grows, Grows-refl, Grows-trans, push_state-Grows,
}

note_accept-same :
    (p : NfaState) (i : ℕ) (c : Closing)
    → ((note_accept p i c).set ≡ c.set) × ((note_accept p i c).stack ≡ c.stack)
unfolding note_accept
note_accept-same p i c = ground arith

module _ (nfa : Nfa) (from : SetS) where
  -- `Holds` speaks of the set and the stack only.
  Holds-same :
      (b c : Closing) → c.set ≡ b.set → c.stack ≡ b.stack → Holds nfa from b → Holds nfa from c
  Holds-same b c e f h = record {
    states = rw e h.states;
    base = λ x m. rw e (h.base x m);
    sound = λ x m. h.sound x (rw e at m);
    stacked = λ x o. rw e (h.stacked x (rw f at o));
  }

  Grows-same :
      (a b c : Closing)
      → b.set ≡ a.set
      → b.stack ≡ a.stack
      → Grows nfa from b c
      → Grows nfa from a c
  Grows-same a b c e f g = record {
    holds = g.holds;
    keeps = λ x m. g.keeps x (rw e m);
    fresh = λ x m o. rw e at (g.fresh x m o);
    stays = λ x o. g.stays x (rw f o);
    work = g.work ∙ ground (arith, e, f);
  }

  module _ (w : IsNfa nfa) (i : ℕ) (c : Closing) (h : Holds nfa from c)
      (m : member c.set i ≡ true) where
    abbrev noted : Closing
    noted = note_accept (state_at nfa i) i c

    noted-Holds : Holds nfa from noted
    noted-Holds = let e = note_accept-same (state_at nfa i) i c in Holds-same c noted e.0 e.1 h

    -- One round: the set and the stack grow, and the targets of the popped state are in the set.
    pub close_state-Grows :
        Grows nfa from c (close_state nfa i c)
        × ((j : ℕ) → EpsilonEdge nfa i j → member (close_state nfa i c).set j ≡ true)
    unfolding close_state
    close_state-Grows = elim (Bool-cases (is_epsilon (state_at nfa i).edge)) [
      | inr e ↦ rw e (
        Grows-same c noted noted same.0 same.1 (Grows-refl nfa from noted noted-Holds),
        λ j edge. absurd (ground (arith, edge.0)),
      )
      | inl e ↦ rw e (
        Grows-same c noted second same.0 same.1
            (Grows-trans nfa from noted once second (first_step e).0 (second_step e).0),
        λ j edge. elim edge.1 [
          | inl n ↦ (second_step e).0.keeps j ((first_step e).1 j n)
          | inr n ↦ (second_step e).1 j n
        ],
      )
    ]
      where
        same : (noted.set ≡ c.set) × (noted.stack ≡ c.stack)
        same = note_accept-same (state_at nfa i) i c

        once : Closing
        once = push_state (state_at nfa i).next noted

        second : Closing
        second = push_state (state_at nfa i).next2 once

        first_step :
            is_epsilon (state_at nfa i).edge ≡ true
            → Grows nfa from noted once
              × ((j : ℕ) → (state_at nfa i).next ≡ some j → member once.set j ≡ true)
        first_step e =
            push_state-Grows nfa from (state_at nfa i).next noted noted-Holds
              (λ j n. (w.next_in i j n, there (h.sound i m) (e, inl n)))

        second_step :
            (e : is_epsilon (state_at nfa i).edge ≡ true)
            → Grows nfa from once second
              × ((j : ℕ) → (state_at nfa i).next2 ≡ some j → member second.set j ≡ true)
        second_step e =
            push_state-Grows nfa from (state_at nfa i).next2 once (first_step e).0.holds
              (λ j n. (w.next2_in i j n, there (h.sound i m) (e, inr n)))

  -- The invariant: states that are not on the stack have their targets in the set.
  pub record Inv (c : Closing) : Type 0 where
    pub holds : Holds nfa from c
    pub closed :
        (i j : ℕ)
        → member c.set i ≡ true
        → on i c.stack ≡ false
        → EpsilonEdge nfa i j
        → member c.set j ≡ true

  pub popped-Holds :
      (c : Closing) (i : ℕ) (rest : List ℕ)
      → c.stack ≡ i ∷ rest
      → Inv c
      → Holds nfa from (record c { stack = rest }) × (member c.set i ≡ true)
  unfolding on
  popped-Holds c i rest e v = (
    record {
      states = v.holds.states;
      base = v.holds.base;
      sound = v.holds.sound;
      stacked = λ x o. v.holds.stacked x (rw e (ground (arith, o)));
    },
    v.holds.stacked i (rw e (ground arith)),
  )

  pub close_state-Inv :
      (w : IsNfa nfa) (c : Closing) (i : ℕ) (rest : List ℕ)
      → c.stack ≡ i ∷ rest
      → Inv c
      → Inv (close_state nfa i (record c { stack = rest }))
        × (length (close_state nfa i (record c { stack = rest })).stack
              + missing nfa (close_state nfa i (record c { stack = rest })).set
              + 1
            ≡ length c.stack + missing nfa c.set)
  close_state-Inv w c i rest e v =
      let p = popped-Holds c i rest e v in
      let g = close_state-Grows w i (record c { stack = rest }) p.0 p.1 in
      (
        record {
          holds = g.0.holds;
          closed = λ x j m o edge.
              let old = g.0.fresh x m o in
              elim (Bool-cases (i == x)) [
                | inl here_now ↦ let same : i ≡ x = ground arith in g.1 j (rw same edge)
                | inr elsewhere ↦
                    g.0.keeps j (v.closed x j old (off x o elsewhere (g.0.stays x)) edge)
              ];
        },
        omega (arith, g.0.work, ap length e),
      )
    where
      off :
          (x : ℕ)
          → on x (close_state nfa i (record c { stack = rest })).stack ≡ false
          → (i == x) ≡ false
          → (on x rest ≡ true → on x (close_state nfa i (record c { stack = rest })).stack ≡ true)
          → on x c.stack ≡ false
      off x o ne stays = rw e (unfold on in ground (arith, stays))

  -- With enough rounds the stack runs empty, and every state of the set has its targets in it.
  pub close_loop-Inv :
      (w : IsNfa nfa) (fuel : ℕ) (c : Closing)
      → Inv c
      → length c.stack + missing nfa c.set ≤ fuel
      → Inv (close_loop nfa fuel c) × ((close_loop nfa fuel c).stack ≡ [])
  unfolding close_loop
  close_loop-Inv w zero c v h = (v, empty_stack c.stack (omega arith))
    where
      empty_stack : (xs : List ℕ) → length xs ≤ 0 → xs ≡ []
      empty_stack [] l = refl
      empty_stack (x ∷ xs) l = absurd (omega arith)
  close_loop-Inv w (suc fuel) c v h = elim (List-cases c.stack) [
    | inl e ↦ rw (e, close_loop) (v, e)
    | inr (i, rest, e) ↦
        let s = close_state-Inv w c i rest e v in
        rw (e, close_loop)
          (close_loop-Inv w fuel (close_state nfa i (record c { stack = rest })) s.0
            (omega (arith, s.1)))
  ]
