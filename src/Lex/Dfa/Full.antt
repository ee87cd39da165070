-- ===== src/Lex/Dfa/Full.antt =====
-- The loops of `make_trans` in compiler/lex/dfa.c keep the states apart, and the program stops only
-- when the array `_dstates` is full.
use mathlib.Core.Path.{subst}
use cgkits.Prelude.{
  ltb, Bool-cases, Option-cases, length, length-set, ℕ, zero, suc, ◌+◌, ◌≤◌, ◌<◌, ◌≡◌, refl, sym,
  ◌∙◌, inl, inr, Option, none, some, List, [], ◌∷◌, arith,
}
use cgkits.Set.{SetS}
use cgkits.Lex.Nfa.{Nfa, IsNfa}
use cgkits.Lex.Terp.{e_closure, move}
use cgkits.Lex.Terp.Closure.{IsStates}
use cgkits.Lex.Terp.Result.{e_closure_iff}
use cgkits.Lex.Terp.Move.{AreStates, move_iff}
use cgkits.Lex.Dfa.{
  dfa_max, max_chars, DfaState, dstate_at, Row, Dfa, get_unmarked, enter, Filling, next_state,
  fill_row, set_mark, done, too_many, trans_loop,
}
use cgkits.Lex.Dfa.Label.{AreGood}
use cgkits.Lex.Dfa.Row.{next_state_lem, next_state-few}
use cgkits.Lex.Dfa.Rounds.{
  Inv, marking-size, after, after-Inv, get_unmarked_lem, one_round, full_round, last_round,
}
use cgkits.Lex.Dfa.Distinct.{
  Reached, IsDistinct, IsFull, enter-IsDistinct, enter-IsFull, moved-Reached,
}
use cgkits.Lex.Dfa.Marked.{set-set_mark, set_mark-AreGood}

module _ (nfa : Nfa) (start : ℕ) (g : IsNfa nfa) (h : start < length nfa) where
  -- The loop over the characters, from a reached set.
  module _ (from : SetS) (s : IsStates nfa from) (r : Reached nfa start from) where
    next_state-Full :
        (c : ℕ) (f : Filling)
        → c < max_chars
        → AreGood nfa f.states
        → IsDistinct nfa start f.states
        → length f.states ≤ dfa_max
        → ((n : Option ℕ) (f' : Filling)
            → next_state nfa from c f ≡ some (n, f')
            → IsDistinct nfa start f'.states)
          × (next_state nfa from c f ≡ none → IsFull nfa start)
    unfolding next_state
    next_state-Full c f l a k few = go (move nfa from c) refl
      where
        go :
            (m : Option SetS)
            → move nfa from c ≡ m
            → ((n : Option ℕ) (f' : Filling)
                → next_state nfa from c f ≡ some (n, f')
                → IsDistinct nfa start f'.states)
              × (next_state nfa from c f ≡ none → IsFull nfa start)
        go none p = (
          λ n f' e. let stays : f ≡ f' = ground (arith, p, e) in rw (← stays) k,
          λ e. absurd (ground (arith, p, e)),
        )
        go (some t) p =
            let tv : AreStates nfa (some t) =
              subst (AreStates nfa) p ((move_iff nfa from c g s).0) in
            let closed = (e_closure_iff nfa t f.anchor g tv.0).1 in
            let reached = moved-Reached nfa start g h from c f.anchor t s l r p tv in
            elim (Option-cases (enter (e_closure nfa t f.anchor) f.states)) [
              | inl full ↦ (
                λ n f' e. absurd (ground (arith, p, full, e)),
                λ e.
                    enter-IsFull nfa start g h (e_closure nfa t f.anchor) f.states closed a k few
                      reached full,
              )
              | inr ((j, ds), q) ↦ (
                λ n f' e.
                    let grown : ds ≡ f'.states = ground (arith, p, q, e) in
                    rw (← grown) (
                      enter-IsDistinct nfa start g h (e_closure nfa t f.anchor) f.states j ds closed
                        a k reached q),
                λ e. absurd (ground (arith, p, q, e)),
              )
            ]

    pub fill_row-Full :
        (k : ℕ) (f : Filling) (row : Row)
        → k ≤ max_chars
        → AreGood nfa f.states
        → IsDistinct nfa start f.states
        → length f.states ≤ dfa_max
        → ((row' : Row) (f' : Filling)
            → fill_row nfa from k f row ≡ some (row', f')
            → IsDistinct nfa start f'.states)
          × (fill_row nfa from k f row ≡ none → IsFull nfa start)
    unfolding fill_row
    fill_row-Full zero f row l a d few =
        (λ row' f' e. let same : f ≡ f' = ground arith in rw (← same) d, λ e. absurd cc)
    fill_row-Full (suc k) f row l a d few =
        let step = next_state-Full k f (omega arith) a d few in
        elim (Option-cases (next_state nfa from k f)) [
          | inl full ↦ (λ row' f' e. absurd (ground (arith, full, e)), λ e. step.1 full)
          | inr ((n, f1), q) ↦
              let good = (next_state_lem nfa from k f f1 n g s a q).1 in
              let ih =
                fill_row-Full k f1 (n ∷ row) (omega arith) good (step.0 n f1 q)
                  (next_state-few nfa from k f f1 n few q) in
              (λ row' f' e. ih.0 row' f' (rw (q, fill_row) at e), λ e. ih.1 (rw (q, fill_row) at e))
        ]

  -- Marking a state changes no set.
  set_mark-IsDistinct :
      (ds : List DfaState) (k : ℕ)
      → k < length ds
      → IsDistinct nfa start ds
      → IsDistinct nfa start (set_mark ds k)
  set_mark-IsDistinct ds k l d =
      let size : length (set_mark ds k) ≡ length ds = length-set ds k _ in
      record {
        reached = λ i m. rw (set-set_mark ds k l i) (d.reached i (omega (arith, size)));
        apart = λ i j p m.
            rw (set-set_mark ds k l i, set-set_mark ds k l j) (d.apart i j p (omega (arith, size)));
      }

  -- The loop stops the program only when the array is full; where it returns, the states are
  -- distinct.
  pub trans_loop-Full :
      (fuel k : ℕ) (d : Dfa) (anchor : ℕ)
      → Inv nfa start k d
      → IsDistinct nfa start d.dstates
      → (trans_loop nfa fuel d anchor ≡ too_many → IsFull nfa start)
        × ((d' : Dfa) → trans_loop nfa fuel d anchor ≡ done d' → IsDistinct nfa start d'.dstates)
  unfolding trans_loop
  trans_loop-Full zero k d anchor v n = (λ e. absurd (ground arith), λ d' e. absurd (ground arith))
  trans_loop-Full (suc fuel) k d anchor v n = elim (Bool-cases (ltb k (length d.dstates))) [
    | inr f ↦
        let at : get_unmarked d ≡ (none, length d.dstates) =
          get_unmarked_lem nfa start k d v ∙ rw f in
        let ended = last_round nfa fuel d anchor _ at in
        (
          λ e. absurd (ground (arith, e, ended)),
          λ d' e. let same : d.dstates ≡ d'.dstates = ground (arith, e, ended) in rw (← same) n,
        )
    | inl f ↦
        let more : k < length d.dstates = ground arith in
        let at : get_unmarked d ≡ (some k, k) = get_unmarked_lem nfa start k d v ∙ rw f in
        let begun : Filling = record { states = set_mark d.dstates k; anchor = anchor } in
        let filled =
          fill_row-Full (dstate_at d.dstates k).set (v.good k more).states (n.reached k more)
            max_chars begun [] (omega arith) (set_mark-AreGood d.dstates k more nfa v.good)
            (set_mark-IsDistinct d.dstates k more n)
            (omega (arith, marking-size nfa start k d g v more, v.few)) in
        elim (Option-cases (fill_row nfa (dstate_at d.dstates k).set max_chars begun [])) [
          | inl full ↦ (
            λ e. filled.1 full,
            λ d' e. absurd (ground (arith, e, full_round nfa fuel d anchor k at full)),
          )
          | inr ((row, r), q) ↦
              let round = one_round nfa fuel d anchor k row r at q in
              let ih =
                trans_loop-Full fuel (k + 1) (after nfa start k d g v more anchor row r q) r.anchor
                  (after-Inv nfa start k d g v more anchor row r q) (filled.0 row r q) in
              (λ e. ih.0 (sym round ∙ e), λ d' e. ih.1 d' (sym round ∙ e))
        ]
  ]
