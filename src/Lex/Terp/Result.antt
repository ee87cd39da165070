-- ===== src/Lex/Terp/Result.antt =====
-- What a call of `e_closure` (compiler/lex/terp.c) returns.
use cgkits.Prelude.{
  Option-cases, length, ℕ, ◌+◌, ◌≤◌, ◌≡◌, refl, ap, ◌∙◌, ◌≢◌, ◌↔◌, ◌⊎◌, inl, inr, true, false, none,
  some, [], reverse, arith,
}
use cgkits.Set.{SetS, member}
use cgkits.Set.Member.{member-past}
use cgkits.Set.Count.{count_range}
use cgkits.Set.Cursor.Enumerate.{list_range, elements_lem}
use cgkits.Set.Range.{
  on, on-reverse, length-reverse, length-list_range, on-list_range, count_range-not,
  count_range-within,
}
use cgkits.Lex.Nfa.{Nfa, state_at, IsNfa}
use cgkits.Lex.Terp.{Closing, push_members, close_start, e_closure}
use cgkits.Lex.Terp.Closure.{EpsilonReach, here, there, IsStates, missing}
use cgkits.Lex.Terp.Loop.{Inv, close_loop-Inv}
use cgkits.Lex.Terp.Lowest.{Reports, Lowest, close_loop-Lowest}

module _ (nfa : Nfa) (input : SetS) (anchor : ℕ) (w : IsNfa nfa) (s : IsStates nfa input) where
  abbrev begin : Closing
  begin = close_start input anchor

  pushed : push_members input ≡ reverse (list_range 0 input.nbits (member input))
  unfolding push_members
  pushed = ap reverse (elements_lem input s.valid s.plain (record { last = none; current = 0 }) 0)

  on_pushed : (x : ℕ) → on x (push_members input) ≡ member input x
  on_pushed x =
      rw
        (
          pushed,
          on-reverse x (list_range 0 input.nbits (member input)),
          on-list_range input.nbits 0 x (member input),
        )
        (ground (arith, member-past input x))

  start-Inv : Inv nfa input begin
  unfolding close_start
  start-Inv = record {
    holds = record {
      states = s;
      base = λ x m. m;
      sound = λ x m. here m;
      stacked = λ x o. rw (← on_pushed x) o;
    };
    closed = λ i j m o edge. absurd (ground (arith, on_pushed i));
  }

  start-Lowest : Lowest nfa input anchor w begin
  unfolding close_start
  start-Lowest = record {
    seen = λ x m o accepts. absurd (ground (arith, on_pushed x));
    chosen = inl (refl, refl, refl);
  }

  -- There is one round for each state at most.
  start-work : length begin.stack + missing nfa begin.set ≤ length nfa
  unfolding close_start
  start-work =
      let size : length (push_members input) ≡ count_range 0 input.nbits (member input) =
        ap length pushed
        ∙ (length-reverse (list_range 0 input.nbits (member input))
            ∙ length-list_range input.nbits 0 (member input)) in
      omega (
        arith,
        size,
        count_range-within input.nbits (length nfa) 0 (member input)
            (λ x m. let h = s.within x m in omega arith),
        count_range-not (length nfa) 0 (member input),
      )

  finish : Inv nfa input (e_closure nfa input anchor) × ((e_closure nfa input anchor).stack ≡ [])
  unfolding e_closure
  finish = close_loop-Inv nfa input w (length nfa) begin start-Inv start-work

  reach_in : (x : ℕ) → EpsilonReach nfa input x → member (e_closure nfa input anchor).set x ≡ true
  reach_in x (here m) = finish.0.holds.base x m
  reach_in x (there {i} r edge) =
      finish.0.closed i x (reach_in i r) (rw finish.1 (unfold on in refl)) edge

  -- On states of a well-formed NFA, `e_closure` ends with its stack empty, and its result holds a
  -- state exactly when epsilon edges lead to that state from the set it was given. The result is a
  -- set of states again.
  pub e_closure_iff :
      ((e_closure nfa input anchor).stack ≡ [])
      × IsStates nfa (e_closure nfa input anchor).set
      × ((x : ℕ) → (member (e_closure nfa input anchor).set x ≡ true) ↔ EpsilonReach nfa input x)
  e_closure_iff = (finish.1, finish.0.holds.states, λ x. (finish.0.holds.sound x, reach_in x))

  -- On states of a well-formed NFA, the action and the anchor that `e_closure` reports are those of
  -- the lowest accepting state of its result: rules that stand earlier in the input take
  -- precedence. Where no state of the result accepts, it reports no action and the anchor that the
  -- caller gave.
  pub e_closure_accept :
      let c = e_closure nfa input anchor in
      ((c.accept ≡ none)
        × (c.anchor ≡ anchor)
        × ((x : ℕ) → EpsilonReach nfa input x → (state_at nfa x).accept ≡ none))
      ⊎ ((i : ℕ) × (EpsilonReach nfa input i
            × Reports nfa c i
            × ((x : ℕ) → EpsilonReach nfa input x → (state_at nfa x).accept ≢ none → i ≤ x)))
  e_closure_accept = elim low.chosen [
    | inl h ↦ inl (h.0, h.2, λ x r. silent x r h.0 (Option-cases (state_at nfa x).accept))
    | inr h ↦ inr (
      c.accept_num,
      (
        finish.0.holds.sound c.accept_num h.0,
        h.1,
        λ x r a. (low.seen x (reach_in x r) (cleared x) a).0,
      ),
    )
  ]
    where
      c : Closing
      c = e_closure nfa input anchor

      low : Lowest nfa input anchor w c
      low =
          unfold e_closure in
          close_loop-Lowest nfa input anchor w (length nfa) begin start-Inv start-Lowest

      cleared : (x : ℕ) → on x c.stack ≡ false
      cleared x = rw finish.1 (unfold on in refl)

      silent :
          (x : ℕ)
          → EpsilonReach nfa input x
          → c.accept ≡ none
          → ((state_at nfa x).accept ≡ none) ⊎ ((a : ℕ) × ((state_at nfa x).accept ≡ some a))
          → (state_at nfa x).accept ≡ none
      silent x r e (inl q) = q
      silent x r e (inr (a, q)) = absurd ((low.seen x (reach_in x r) (cleared x) (λ z. cc)).1 e)
