-- ===== src/Set/Ops/Hash.antt =====
-- `set_hash` of compiler/lib/set.c.
use cgkits.Prelude.{
  ==_iff, length, get_or, ℕ, zero, suc, ◌+◌, ◌%◌, ◌^◌, ◌<◌, ◌≡◌, refl, sym, true, List, [], ◌∷◌,
  arith,
}
use cgkits.Set.{SetS, words}
use cgkits.Set.Valid.{IsValid}
use cgkits.Set.Ops.{is_equiv, sum_words, set_hash}
use cgkits.Set.Ops.Compare.{Agree, set_compare-words}

sum_zeros :
    (n total : ℕ) (ws : List ℕ)
    → total < 2 ^ 32
    → ((i : ℕ) → get_or ws i 0 ≡ 0)
    → sum_words n total ws ≡ total
unfolding sum_words
sum_zeros zero total ws h z = refl
sum_zeros (suc n) total [] h z = refl
sum_zeros (suc n) total (w ∷ ws) h z =
    let e : (total + w) % 2 ^ 32 ≡ total = omega (arith, z 0) in
    rw e (sum_zeros n total ws h (λ i. z (suc i)))

-- Words of zeros at the end add nothing.
sum-Agree :
    (n m total : ℕ) (ws vs : List ℕ)
    → length ws ≡ n
    → length vs ≡ m
    → total < 2 ^ 32
    → Agree ws vs
    → sum_words n total ws ≡ sum_words m total vs
unfolding sum_words
sum-Agree zero m total [] vs p q h g = sym (sum_zeros m total vs h (λ i. sym (g i)))
sum-Agree zero m total (w ∷ ws) vs p q h g = absurd (omega arith)
sum-Agree (suc n) m total [] vs p q h g = absurd (omega arith)
sum-Agree (suc n) zero total (w ∷ ws) [] p q h g = sum_zeros (suc n) total (w ∷ ws) h g
sum-Agree (suc n) zero total (w ∷ ws) (v ∷ vs) p q h g = absurd (omega arith)
sum-Agree (suc n) (suc m) total (w ∷ ws) [] p q h g = absurd (omega arith)
sum-Agree (suc n) (suc m) total (w ∷ ws) (v ∷ vs) p q h g =
    let same : w ≡ v = g 0 in
    rw same (
      sum-Agree n m ((total + v) % 2 ^ 32) ws vs (omega arith) (omega arith) (omega arith)
        (λ i. g (suc i)))

-- Valid sets that `set_compare` takes for equal have the same hash, whatever their sizes.
pub set_hash_of_equiv :
    (s t : SetS) → IsValid s → IsValid t → is_equiv s t ≡ true → set_hash s ≡ set_hash t
unfolding set_hash is_equiv
set_hash_of_equiv s t v w e =
    sum-Agree s.nwords t.nwords 0 (words s) (words t) v.sized w.sized (omega arith)
      ((set_compare-words s t v w).0 ((==_iff _ _).0 e))
