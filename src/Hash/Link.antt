-- ===== src/Hash/Link.antt =====
-- `hash_add_sym` of compiler/lib/hash.c on chains.
use cgkits.Prelude.{
  ◌==◌, ==_iff, Bool-cases, if-cases, ℕ, ◌≡◌, refl, ◌∙◌, ◌≢◌, inl, inr, Bool, true, false, some,
  List, [], ◌∷◌, arith,
}
use cgkits.Hash.{Place, slot, next_of, HashTab, update, load, link}
use cgkits.Hash.Chain.{elem, distinct, IsChain, IsChain-frame}
use cgkits.Hash.Unlink.{load-set_prev, prev-set_prev}

module _ (i new : ℕ) (t : HashTab) where
  -- The state before the old first bucket is told its new place.
  entered : HashTab
  entered = record t {
    table = update t.table i (some new);
    prev = update t.prev new (slot i);
    next = update t.next new (t.table i);
  }

  load-link : (q : Place) → load (link i new t) q ≡ load entered q
  unfolding link entered
  load-link q = load-set_prev entered (t.table i) (next_of new) q

  prev-link : (a : ℕ) → t.table i ≢ some a → (link i new t).prev a ≡ entered.prev a
  unfolding link entered
  prev-link a h = prev-set_prev entered (t.table i) (next_of new) a h

  prev-link_first : (a : ℕ) → t.table i ≡ some a → (link i new t).prev a ≡ next_of new
  unfolding link
  prev-link_first a e = rw e (ground arith)

  -- Buckets that are neither new nor first keep their links.
  still :
      (a : ℕ)
      → (new == a) ≡ false
      → t.table i ≢ some a
      → ((link i new t).next a ≡ t.next a) × ((link i new t).prev a ≡ t.prev a)
  unfolding entered
  still a ne first = (
    load-link (next_of a) ∙ ground (arith, ne),
    prev-link a first
        ∙ if-cases (λ q. q ≡ t.prev a) (new == a) _ _ (λ e. absurd (clash ne e)) (λ e. refl),
  )
    where
      clash : {b : Bool} → b ≡ false → b ≡ true → ⊥
      clash r s = cc

  not_first : (xs : List ℕ) → IsChain t (slot i) xs → elem new xs ≡ false → t.table i ≢ some new
  not_first [] c m q = cc
  not_first (a ∷ xs) (l, b, c) m q = let same : a ≡ new = cc in ground (arith, m, same)

  -- The chain with the new bucket in front.
  pub link-IsChain :
      (xs : List ℕ)
      → distinct xs ≡ true
      → elem new xs ≡ false
      → IsChain t (slot i) xs
      → IsChain (link i new t) (slot i) (new ∷ xs)
  unfolding entered
  link-IsChain xs d m c = (
    load-link (slot i) ∙ ground arith,
    prev-link new (not_first xs c m)
        ∙ if-cases (λ q. q ≡ slot i) (new == new) _ _ (λ e. refl) (λ e. absurd (ground (arith, e))),
    old xs d m c,
  )
    where
      behind : load (link i new t) (next_of new) ≡ t.table i
      behind = load-link (next_of new) ∙ ground arith

      old :
          (xs : List ℕ)
          → distinct xs ≡ true
          → elem new xs ≡ false
          → IsChain t (slot i) xs
          → IsChain (link i new t) (next_of new) xs
      old [] d m c = behind ∙ c
      old (a ∷ xs) d m (l, b, c) = (
        behind ∙ l,
        prev-link_first a l,
        IsChain-frame t (link i new t) (next_of a) xs (load-link (next_of a) ∙ ground (arith, m))
            (λ x n. still x (ground (arith, m, n, apart x n)) (λ q. apart_first x n q)) c,
      )
        where
          apart : (x : ℕ) → elem x xs ≡ true → (new == x) ≡ false
          apart x n = elim (Bool-cases (new == x)) [
            | inl e ↦
                let same : x ≡ new = ground (arith, e) in absurd (ground (arith, m, (rw same at n)))
            | inr e ↦ e
          ]

          apart_first : (x : ℕ) → elem x xs ≡ true → t.table i ≡ some x → ⊥
          apart_first x n q = let same : x ≡ a = cc in ground (arith, d, (rw same at n))

  -- The other chains.
  pub link-other :
      (j : ℕ) (xs ys : List ℕ)
      → i ≢ j
      → ((a : ℕ) → elem a xs ≡ true → elem a ys ≡ false)
      → IsChain t (slot i) xs
      → elem new ys ≡ false
      → IsChain t (slot j) ys
      → IsChain (link i new t) (slot j) ys
  unfolding entered
  link-other j xs ys ne apart c m c' =
      IsChain-frame t (link i new t) (slot j) ys
        (load-link (slot j)
          ∙ if-cases (λ q. q ≡ t.table j) (i == j) _ _ (λ e. absurd (ne ((==_iff i j).0 e)))
              (λ e. refl))
        (λ a n. still a (not_new a n) (not_head xs c apart a n)) c'
    where
      not_new : (a : ℕ) → elem a ys ≡ true → (new == a) ≡ false
      not_new a n = elim (Bool-cases (new == a)) [
        | inl e ↦
            let same : a ≡ new = ground (arith, e) in absurd (ground (arith, m, (rw same at n)))
        | inr e ↦ e
      ]

      not_head :
          (xs : List ℕ)
          → IsChain t (slot i) xs
          → ((a : ℕ) → elem a xs ≡ true → elem a ys ≡ false)
          → (a : ℕ) → elem a ys ≡ true
          → t.table i ≢ some a
      not_head [] c apart a n q = cc
      not_head (x ∷ xs) (l, b, c) apart a n q =
          let same : x ≡ a = cc in ground (arith, n, apart a (ground (arith, same)))
