-- ===== src/Lex/Dfa/Rounds.antt =====
-- The loop of `make_trans` in compiler/lex/dfa.c.
use cgkits.Prelude.{
  ltb, ◌==◌, if◌then◌else◌, Bool-cases, Option-cases, length, set, length-set, get_or,
  get_or-set_self, get_or-set_ne, ℕ, zero, suc, ◌+◌, ◌-◌, ◌≤◌, ◌<◌, ◌≡◌, refl, ap, ◌∙◌, ◌↔◌, ◌⊎◌,
  inl, inr, true, false, Option, none, some, List, [], arith,
}
use cgkits.Set.{SetS, set_new, add, member}
use cgkits.Lex.Nfa.{Nfa, IsNfa}
use cgkits.Lex.Terp.Closure.{EpsilonReach}
use cgkits.Lex.Dfa.{
  dfa_max, max_chars, DfaState, dstate_at, Row, Dfa, get_unmarked, Filling, fill_row, set_mark,
  done, too_many, trans_loop,
}
use cgkits.Lex.Dfa.Label.{Extends, AreGood}
use cgkits.Lex.Dfa.Row.{IsNext, IsNext-Extends, RowFrom, fill_row_lem, fill_row-few}
use cgkits.Lex.Dfa.Marked.{
  unmarked_from_lem, marked_self, marked_other, set-set_mark, set_mark-AreGood, IsNext-sets,
}

-- The invariant of the loop, when `k` states have been worked on.
pub record Inv (nfa : Nfa) (sstate k : ℕ) (d : Dfa) : Type 0 where
  pub good : AreGood nfa d.dstates
  pub some_states : 0 < length d.dstates
  pub few : length d.dstates ≤ dfa_max
  pub room : length d.dtran ≡ dfa_max
  pub worked : k ≤ length d.dstates
  pub last : d.last_marked ≤ k
  pub marked : (i : ℕ) → i < k → (dstate_at d.dstates i).mark ≡ true
  pub unmarked : (i : ℕ) → k ≤ i → (dstate_at d.dstates i).mark ≡ false
  pub filled :
      (i c : ℕ)
      → i < k
      → c < max_chars
      → IsNext nfa d.dstates (dstate_at d.dstates i).set c (get_or (get_or d.dtran i []) c none)
  pub begins :
      (x : ℕ)
      → (member (dstate_at d.dstates 0).set x ≡ true) ↔ EpsilonReach nfa (add set_new sstate) x

module _ (nfa : Nfa) (sstate k : ℕ) (d : Dfa) (w : IsNfa nfa) (v : Inv nfa sstate k d)
    (more : k < length d.dstates) where
  abbrev marking : List DfaState
  marking = set_mark d.dstates k

  abbrev from : SetS
  from = (dstate_at d.dstates k).set

  pub marking-size : length marking ≡ length d.dstates
  marking-size = length-set d.dstates k _

  module _ (anchor : ℕ) (row : Row) (f : Filling)
      (e : fill_row nfa from max_chars (record { states = marking; anchor = anchor }) []
        ≡ some (row, f)) where
    abbrev pub after : Dfa
    after = record { dstates = f.states; dtran = set d.dtran k row; last_marked = k }

    filled_row :
        Extends marking f.states
        × AreGood nfa f.states
        × RowFrom nfa f.states from 0 row
        × (length row ≡ max_chars + 0)
    filled_row =
        fill_row_lem nfa from max_chars (record { states = marking; anchor = anchor }) [] row f w
          (v.good k more).states (set_mark-AreGood d.dstates k more nfa v.good)
          (λ c j p l. absurd (omega arith)) e

    kept_set :
        (i : ℕ) → i < length d.dstates → (dstate_at f.states i).set ≡ (dstate_at d.dstates i).set
    kept_set i l =
        ap (λ (s : DfaState). s.set) (filled_row.0.same i (omega (arith, marking-size)))
        ∙ set-set_mark d.dstates k more i

    kept_mark :
        (i : ℕ) → i < length d.dstates → (dstate_at f.states i).mark ≡ (dstate_at marking i).mark
    kept_mark i l =
        ap (λ (s : DfaState). s.mark) (filled_row.0.same i (omega (arith, marking-size)))

    filled_after :
        (i c : ℕ)
        → i < k + 1
        → c < max_chars
        → IsNext nfa f.states
            (dstate_at f.states i).set
            c
            (get_or (get_or (set d.dtran k row) i []) c none)
    filled_after i c l u = elim (Bool-cases (k == i)) [
      | inl e ↦
          let same : k ≡ i = ground arith in
          rw
            (
              ← same,
              kept_set k more,
              get_or-set_self d.dtran k row [] (omega (arith, v.room, v.few)),
            )
            (filled_row.2 c c (omega arith) (omega (arith, filled_row.3)))
      | inr e ↦
          let below : i < k = ground arith in
          rw (kept_set i (omega arith), get_or-set_ne d.dtran k i row [] (omega arith))
            (IsNext-Extends nfa marking f.states (dstate_at d.dstates i).set c filled_row.0 (
              IsNext-sets nfa d.dstates marking (dstate_at d.dstates i).set c marking-size
                (set-set_mark d.dstates k more) (v.filled i c below u)))
    ]

    pub after-Inv : Inv nfa sstate (k + 1) after
    after-Inv = record {
      good = filled_row.1;
      some_states = omega (arith, filled_row.0.longer, marking-size);
      few =
          fill_row-few nfa from max_chars (record { states = marking; anchor = anchor }) [] row f
            (omega (arith, marking-size, v.few)) e;
      room = length-set d.dtran k row ∙ v.room;
      worked = omega (arith, filled_row.0.longer, marking-size);
      last = omega arith;
      marked = λ i l. rw (kept_mark i (omega arith)) (elim (Bool-cases (k == i)) [
        | inl e ↦
            let same : k ≡ i = ground arith in
            rw (← same) (ap (λ (s : DfaState). s.mark) (marked_self d.dstates k more))
        | inr e ↦
            ap (λ (s : DfaState). s.mark) (marked_other d.dstates k more i (ground arith))
            ∙ v.marked i (ground arith)
      ]);
      unmarked = λ i l. elim (Bool-cases (ltb i (length d.dstates))) [
        | inl e ↦ rw (kept_mark i (ground arith)) (
            ap (λ (s : DfaState). s.mark) (marked_other d.dstates k more i (omega arith))
            ∙ v.unmarked i (omega arith))
        | inr e ↦ filled_row.0.unmarked i (ground (arith, marking-size))
      ];
      filled = filled_after;
      begins = λ x. rw (kept_set 0 v.some_states) (v.begins x);
    }

-- The search of one round.
pub get_unmarked_lem :
    (nfa : Nfa) (sstate k : ℕ) (d : Dfa)
    → Inv nfa sstate k d
    → get_unmarked d ≡ (if ltb k (length d.dstates) then (some k, k) else (none, length d.dstates))
unfolding get_unmarked
get_unmarked_lem nfa sstate k d v =
    unmarked_from_lem (length d.dstates - d.last_marked) d.dstates d.last_marked k
      (omega (arith, v.last, v.worked)) v.last v.worked v.marked v.unmarked

pub one_round :
    (nfa : Nfa) (fuel : ℕ) (d : Dfa) (anchor k : ℕ) (row : Row) (f : Filling)
    → get_unmarked d ≡ (some k, k)
    → fill_row nfa
        (dstate_at d.dstates k).set
        max_chars
        (record { states = set_mark d.dstates k; anchor = anchor })
        []
      ≡ some (row, f)
    → trans_loop nfa (suc fuel) d anchor
      ≡ trans_loop nfa fuel
          (record { dstates = f.states; dtran = set d.dtran k row; last_marked = k })
          f.anchor
unfolding trans_loop
one_round nfa fuel d anchor k row f e q =
    let found : (get_unmarked d).0 ≡ some k = ap (λ p. p.0) e in
    let last : (get_unmarked d).1 ≡ k = ap (λ p. p.1) e in rw (found, trans_loop, q) (rw last)

pub full_round :
    (nfa : Nfa) (fuel : ℕ) (d : Dfa) (anchor k : ℕ)
    → get_unmarked d ≡ (some k, k)
    → fill_row nfa
        (dstate_at d.dstates k).set
        max_chars
        (record { states = set_mark d.dstates k; anchor = anchor })
        []
      ≡ none
    → trans_loop nfa (suc fuel) d anchor ≡ too_many
unfolding trans_loop
full_round nfa fuel d anchor k e q =
    let found : (get_unmarked d).0 ≡ some k = ap (λ p. p.0) e in rw (found, trans_loop, q) refl

pub last_round :
    (nfa : Nfa) (fuel : ℕ) (d : Dfa) (anchor n : ℕ)
    → get_unmarked d ≡ (none, n)
    → trans_loop nfa (suc fuel) d anchor ≡ done (record d { last_marked = n })
unfolding trans_loop
last_round nfa fuel d anchor n e =
    let found : (get_unmarked d).0 ≡ none = ap (λ p. p.0) e in
    let last : (get_unmarked d).1 ≡ n = ap (λ p. p.1) e in rw (found, trans_loop) (rw last)

-- The loop ends: the program stops because there are too many states, or every state has its row.
pub trans_loop_lem :
    (nfa : Nfa) (sstate fuel k : ℕ) (d : Dfa) (anchor : ℕ)
    → IsNfa nfa
    → Inv nfa sstate k d
    → dfa_max < fuel + k
    → (trans_loop nfa fuel d anchor ≡ too_many)
      ⊎ ((d' : Dfa) × ((trans_loop nfa fuel d anchor ≡ done d')
            × Inv nfa sstate (length d'.dstates) d'))
unfolding trans_loop
trans_loop_lem nfa sstate zero k d anchor w v h = absurd (omega (arith, v.worked, v.few))
trans_loop_lem nfa sstate (suc fuel) k d anchor w v h =
    elim (Bool-cases (ltb k (length d.dstates))) [
      | inr e ↦
          let n : length d.dstates ≡ k = ground (arith, v.worked) in
          let at : get_unmarked d ≡ (none, length d.dstates) =
            get_unmarked_lem nfa sstate k d v ∙ rw e in
          inr (
            record d { last_marked = length d.dstates },
            (
              last_round nfa fuel d anchor _ at,
              record {
                good = v.good;
                some_states = v.some_states;
                few = v.few;
                room = v.room;
                worked = omega arith;
                last = omega arith;
                marked = λ i l. v.marked i (omega arith);
                unmarked = λ i l. v.unmarked i (omega arith);
                filled = λ i c l u. v.filled i c (omega arith) u;
                begins = v.begins;
              },
            ),
          )
      | inl e ↦
          let more : k < length d.dstates = ground arith in
          let at : get_unmarked d ≡ (some k, k) = get_unmarked_lem nfa sstate k d v ∙ rw e in
          elim (Option-cases (
            fill_row nfa (dstate_at d.dstates k).set max_chars
              (record { states = set_mark d.dstates k; anchor = anchor }) [])) [
                | inl full ↦ inl (rw (ap (λ (p : Option ℕ × ℕ). p.0) at, trans_loop, full))
                | inr ((row, f), q) ↦ rw (one_round nfa fuel d anchor k row f at q) (
                    trans_loop_lem nfa sstate fuel (k + 1)
                      (after nfa sstate k d w v more anchor row f q) f.anchor w
                      (after-Inv nfa sstate k d w v more anchor row f q) (omega arith))
              ]
    ]
