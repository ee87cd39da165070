-- ===== src/Lex/Dfa/Marked.antt =====
-- The marks of the states in compiler/lex/dfa.c: the search for an unmarked one, and what setting
-- a mark leaves as it was.
use cgkits.Prelude.{
  ltb, ◌==◌, if◌then◌else◌, Bool-cases, length, length-set, get_or-set_self, get_or-set_ne, ℕ, zero,
  suc, ◌+◌, ◌≤◌, ◌<◌, ◌≡◌, ap, ◌≢◌, inl, inr, true, false, Option, none, some, List, arith,
}
use cgkits.Set.{SetS}
use cgkits.Lex.Nfa.{Nfa}
use cgkits.Lex.Dfa.{DfaState, blank_dfa_state, dstate_at, unmarked_from, set_mark}
use cgkits.Lex.Dfa.Label.{AreGood}
use cgkits.Lex.Dfa.Row.{IsNext, fails, goes}

-- What the search for an unmarked state finds when the first `k` states are marked and no others.
pub unmarked_from_lem :
    (left : ℕ) (ds : List DfaState) (last k : ℕ)
    → last + left ≡ length ds
    → last ≤ k
    → k ≤ length ds
    → ((i : ℕ) → i < k → (dstate_at ds i).mark ≡ true)
    → ((i : ℕ) → k ≤ i → (dstate_at ds i).mark ≡ false)
    → unmarked_from left ds last ≡ (if ltb k (length ds) then (some k, k) else (none, length ds))
unfolding unmarked_from
unmarked_from_lem zero ds last k p q r m u = ground arith
unmarked_from_lem (suc left) ds last k p q r m u = elim (Bool-cases (ltb last k)) [
  | inl before ↦
      rw (m last (ground arith))
        (unmarked_from_lem left ds (last + 1) k (omega arith) (ground arith) r m u)
  | inr at ↦ let same : last ≡ k = ground arith in rw (same, u k (omega arith)) (ground arith)
]

-- Marking a state changes nothing else.
module _ (ds : List DfaState) (k : ℕ) (h : k < length ds) where
  pub marked_self : dstate_at (set_mark ds k) k ≡ record (dstate_at ds k) { mark = true }
  marked_self = get_or-set_self ds k _ blank_dfa_state h

  pub marked_other : (i : ℕ) → k ≢ i → dstate_at (set_mark ds k) i ≡ dstate_at ds i
  marked_other i ne = get_or-set_ne ds k i _ blank_dfa_state ne

  pub set-set_mark : (i : ℕ) → (dstate_at (set_mark ds k) i).set ≡ (dstate_at ds i).set
  set-set_mark i = elim (Bool-cases (k == i)) [
    | inl e ↦
        let same : k ≡ i = ground arith in rw (← same) (ap (λ (d : DfaState). d.set) marked_self)
    | inr e ↦ ap (λ (d : DfaState). d.set) (marked_other i (ground arith))
  ]

  pub set_mark-AreGood : (nfa : Nfa) → AreGood nfa ds → AreGood nfa (set_mark ds k)
  set_mark-AreGood nfa g i l = elim (Bool-cases (k == i)) [
    | inl e ↦
        let same : k ≡ i = ground arith in
        rw (← same, marked_self) (record { states = (g k h).states; labels = (g k h).labels })
    | inr e ↦ rw (marked_other i (ground arith)) (g i (omega (arith, length-set ds k _)))
  ]

-- `IsNext` looks at the sets of the states only.
pub IsNext-sets :
    (nfa : Nfa) (ds es : List DfaState) (from : SetS) (c : ℕ) {n : Option ℕ}
    → length es ≡ length ds
    → ((i : ℕ) → (dstate_at es i).set ≡ (dstate_at ds i).set)
    → IsNext nfa ds from c n
    → IsNext nfa es from c n
IsNext-sets nfa ds es from c e s (fails h) = fails h
IsNext-sets nfa ds es from c e s (goes {j} t h l m) = goes t h (omega arith) (λ x. rw (s j) (m x))
