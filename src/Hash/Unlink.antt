-- ===== src/Hash/Unlink.antt =====
-- `hash_del_sym` of compiler/lib/hash.c on chains.
use mathlib.Core.Path.{subst}
use cgkits.Prelude.{
  ◌==◌, ==_iff, if-cases, ℕ, ◌≡◌, refl, ap, ◌∙◌, ◌≢◌, ◌⊎◌, inl, inr, Bool, true, false, Option,
  none, some, List, [], ◌∷◌, arith,
}
use cgkits.Hash.{Place, slot, next_of, HashTab, load, store, set_prev, unlink}
use cgkits.Hash.Chain.{
  elem, distinct, remove_one, IsChain, place_in, IsChain-frame, place_of, next-elem,
}

pub load-set_prev : (t : HashTab) (v : Option ℕ) (p q : Place) → load (set_prev t v p) q ≡ load t q
load-set_prev t none p q = refl
load-set_prev t (some b) p (slot i) = refl
load-set_prev t (some b) p (next_of a) = refl

pub prev-set_prev :
    (t : HashTab) (v : Option ℕ) (p : Place) (a : ℕ)
    → v ≢ some a
    → (set_prev t v p).prev a ≡ t.prev a
prev-set_prev t none p a h = refl
prev-set_prev t (some b) p a h =
    if-cases (λ q. q ≡ t.prev a) (b == a) _ _ (λ e. absurd (h (ap some ((==_iff b a).0 e))))
      (λ e. refl)

load-store_self : (t : HashTab) (p : Place) (v : Option ℕ) → load (store t p v) p ≡ v
load-store_self t (slot i) v = ground arith
load-store_self t (next_of a) v = ground arith

load-store_other :
    (t : HashTab) (p q : Place) (v : Option ℕ) → p ≢ q → load (store t p v) q ≡ load t q
load-store_other t (slot i) (slot j) v h =
    if-cases (λ r. r ≡ t.table j) (i == j) _ _ (λ e. absurd (h (ap slot ((==_iff i j).0 e))))
      (λ e. refl)
load-store_other t (slot i) (next_of b) v h = refl
load-store_other t (next_of a) (slot j) v h = refl
load-store_other t (next_of a) (next_of b) v h =
    if-cases (λ r. r ≡ t.next b) (a == b) _ _ (λ e. absurd (h (ap next_of ((==_iff a b).0 e))))
      (λ e. refl)

prev-store : (t : HashTab) (p : Place) (v : Option ℕ) (a : ℕ) → (store t p v).prev a ≡ t.prev a
prev-store t (slot i) v a = refl
prev-store t (next_of b) v a = refl

module _ (sym : ℕ) (t : HashTab) where
  load-unlink_self : load (unlink sym t) (t.prev sym) ≡ t.next sym
  unfolding unlink
  load-unlink_self =
      load-set_prev (store t (t.prev sym) (t.next sym)) (t.next sym) (t.prev sym) (t.prev sym)
      ∙ load-store_self t (t.prev sym) (t.next sym)

  pub load-unlink_other : (q : Place) → t.prev sym ≢ q → load (unlink sym t) q ≡ load t q
  unfolding unlink
  load-unlink_other q h =
      load-set_prev (store t (t.prev sym) (t.next sym)) (t.next sym) (t.prev sym) q
      ∙ load-store_other t (t.prev sym) q (t.next sym) h

  pub prev-unlink_other : (a : ℕ) → t.next sym ≢ some a → (unlink sym t).prev a ≡ t.prev a
  unfolding unlink
  prev-unlink_other a h =
      prev-set_prev (store t (t.prev sym) (t.next sym)) (t.next sym) (t.prev sym) a h
      ∙ prev-store t (t.prev sym) (t.next sym) a

  prev-unlink_next : (a : ℕ) → t.next sym ≡ some a → (unlink sym t).prev a ≡ t.prev sym
  unfolding unlink
  prev-unlink_next a e = rw e (ground arith)

  -- The rest of a chain behind the bucket that is taken out.
  behind-IsChain :
      (p : Place) (xs : List ℕ)
      → t.prev sym ≡ p
      → place_in p (sym ∷ xs) ≡ false
      → distinct (sym ∷ xs) ≡ true
      → IsChain t (next_of sym) xs
      → IsChain (unlink sym t) p xs
  behind-IsChain p [] e o d c = subst (λ q. load (unlink sym t) q ≡ none) e (load-unlink_self ∙ c)
  behind-IsChain p (y ∷ xs) e o d (l, b, c) = (
    subst (λ q. load (unlink sym t) q ≡ some y) e (load-unlink_self ∙ l),
    prev-unlink_next y l ∙ e,
    IsChain-frame t (unlink sym t) (next_of y) xs
        (load-unlink_other (next_of y) (away y (ground arith)))
        (λ a m. (
          load-unlink_other (next_of a) (away a (ground (arith, m))),
          prev-unlink_other a (λ q. absurd (twice a m (sym_path l ∙ q))),
        ))
        c,
  )
    where
      sym_path : {u v : Option ℕ} → u ≡ v → v ≡ u
      sym_path r = cc

      away : (a : ℕ) → elem a (sym ∷ y ∷ xs) ≡ true → t.prev sym ≢ next_of a
      away a m q = absurd (clash (rw (sym_place e q) at o) m)
        where
          sym_place : {u v w : Place} → u ≡ v → u ≡ w → v ≡ w
          sym_place r s = cc

          clash : {b : Bool} → b ≡ false → b ≡ true → ⊥
          clash r s = cc

      twice : (a : ℕ) → elem a xs ≡ true → some y ≡ some a → ⊥
      twice a m q =
          let same : y ≡ a = cc in
          let again : elem y xs ≡ true = rw (← same) at m in ground (arith, d, again)

  -- A chain without the bucket that is taken out of it.
  pub unlink-IsChain :
      (p : Place) (xs : List ℕ)
      → place_in p xs ≡ false
      → distinct xs ≡ true
      → IsChain t p xs
      → elem sym xs ≡ true
      → IsChain (unlink sym t) p (remove_one sym xs)
  unlink-IsChain p [] o d c m = absurd cc
  unlink-IsChain p (a ∷ xs) o d (l, b, c) m =
      if-cases (IsChain (unlink sym t) p) (sym == a) xs (a ∷ remove_one sym xs)
        (λ e.
          let same : a ≡ sym = ground (arith, e) in
          behind-IsChain p xs (rw same at b) (rw same at o) (rw same at d) (rw same at c))
        (λ e.
          let later : elem sym xs ≡ true = ground (arith, e, m) in
          (
            load-unlink_other p (elsewhere later (place_of t (next_of a) xs sym c later)) ∙ l,
            prev-unlink_other a (λ q. absurd (behind_a later q)) ∙ b,
            unlink-IsChain (next_of a) xs (ground (arith, d)) (ground (arith, d)) c later,
          ))
    where
      clash : {b : Bool} → b ≡ false → b ≡ true → ⊥
      clash r s = cc

      at_place : {u v w : Place} → u ≡ v → u ≡ w → v ≡ w
      at_place r s = cc

      elsewhere :
          elem sym xs ≡ true
          → (t.prev sym ≡ next_of a) ⊎ ((x : ℕ) × ((elem x xs ≡ true) × (t.prev sym ≡ next_of x)))
          → t.prev sym ≢ p
      elsewhere later (inl r) q = clash (rw (at_place q r) at o) (ground arith)
      elsewhere later (inr (x, r)) q = clash (rw (at_place q r.1) at o) (ground (arith, r.0))

      behind_a : elem sym xs ≡ true → t.next sym ≡ some a → ⊥
      behind_a later q =
          let again = next-elem t (next_of a) xs sym a c later q in ground (arith, d, again)

  -- The chains of the other buckets of the table.
  pub unlink-other :
      (i j : ℕ) (xs ys : List ℕ)
      → i ≢ j
      → ((a : ℕ) → elem a xs ≡ true → elem a ys ≡ false)
      → IsChain t (slot i) xs
      → elem sym xs ≡ true
      → IsChain t (slot j) ys
      → IsChain (unlink sym t) (slot j) ys
  unlink-other i j xs ys ne apart c m c' =
      IsChain-frame t (unlink sym t) (slot j) ys
        (load-unlink_other (slot j) (not_slot (place_of t (slot i) xs sym c m)))
        (λ a n. (
          load-unlink_other (next_of a) (not_next a n (place_of t (slot i) xs sym c m)),
          prev-unlink_other a (λ q. clash (apart a (next-elem t (slot i) xs sym a c m q)) n),
        ))
        c'
    where
      clash : {b : Bool} → b ≡ false → b ≡ true → ⊥
      clash r s = cc

      not_slot :
          (t.prev sym ≡ slot i) ⊎ ((x : ℕ) × ((elem x xs ≡ true) × (t.prev sym ≡ next_of x)))
          → t.prev sym ≢ slot j
      not_slot (inl r) q = ne cc
      not_slot (inr (x, r)) q = let e = r.1 in cc

      not_next :
          (a : ℕ)
          → elem a ys ≡ true
          → (t.prev sym ≡ slot i) ⊎ ((x : ℕ) × ((elem x xs ≡ true) × (t.prev sym ≡ next_of x)))
          → t.prev sym ≢ next_of a
      not_next a n (inl r) q = cc
      not_next a n (inr (x, r)) q =
          let e = r.1 in let same : x ≡ a = cc in clash (apart a (rw same at (r.0))) n
