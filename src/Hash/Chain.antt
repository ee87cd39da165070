-- ===== src/Hash/Chain.antt =====
-- The chains of compiler/lib/hash.c as lists of buckets.
use cgkits.Prelude.{
  ◌==◌, if◌then◌else◌, ==_iff, Bool-cases, ℕ, ◌≡◌, sym, ◌∙◌, ◌⊎◌, inl, inr, Bool, true, false, not,
  ◌&&◌, ◌||◌, none, some, List, [], ◌∷◌, arith,
}
use cgkits.Hash.{Place, slot, next_of, HashTab, load}

abbrev pub elem : ℕ → List ℕ → Bool
elem a [] = false
elem a (b ∷ bs) = (a == b) || elem a bs

abbrev pub distinct : List ℕ → Bool
distinct [] = true
distinct (a ∷ xs) = not (elem a xs) && distinct xs

abbrev pub remove_one : ℕ → List ℕ → List ℕ
remove_one a [] = []
remove_one a (b ∷ bs) = if a == b then bs else b ∷ remove_one a bs

-- The chain whose first bucket is at place `p`: each bucket's `prev` points to where it is kept.
abbrev pub IsChain : HashTab → Place → List ℕ → Type 0
IsChain t p [] = load t p ≡ none
IsChain t p (a ∷ xs) = (load t p ≡ some a) × (t.prev a ≡ p) × IsChain t (next_of a) xs

-- The place is the `next` of a bucket of the list.
abbrev pub place_in : Place → List ℕ → Bool
place_in (slot i) xs = false
place_in (next_of b) xs = elem b xs

-- A chain none of whose links has been changed.
pub IsChain-frame :
    (t t' : HashTab) (p : Place) (xs : List ℕ)
    → load t' p ≡ load t p
    → ((a : ℕ) → elem a xs ≡ true → (t'.next a ≡ t.next a) × (t'.prev a ≡ t.prev a))
    → IsChain t p xs
    → IsChain t' p xs
IsChain-frame t t' p [] e h c = e ∙ c
IsChain-frame t t' p (a ∷ xs) e h (l, b, c) =
    let here = h a (ground arith) in
    (e ∙ l, here.1 ∙ b, IsChain-frame t t' (next_of a) xs here.0 (λ x m. h x (ground (arith, m))) c)

-- The place of a bucket of a chain is the first one or the `next` of a bucket of the chain.
pub place_of :
    (t : HashTab) (p : Place) (xs : List ℕ) (sym : ℕ)
    → IsChain t p xs
    → elem sym xs ≡ true
    → (t.prev sym ≡ p) ⊎ ((b : ℕ) × ((elem b xs ≡ true) × (t.prev sym ≡ next_of b)))
place_of t p [] sym c m = absurd cc
place_of t p (a ∷ xs) sym (l, b, c) m = elim (Bool-cases (sym == a)) [
  | inl e ↦ let same : sym ≡ a = (==_iff sym a).0 e in inl (rw same b)
  | inr e ↦ elim (place_of t (next_of a) xs sym c (ground (arith, e, m))) [
    | inl q ↦ inr (a, (ground arith, q))
    | inr (x, q) ↦ inr (x, (ground (arith, q.0), q.1))
  ]
]

-- The bucket behind one of a chain is in the chain, too.
pub next-elem :
    (t : HashTab) (p : Place) (xs : List ℕ) (sym y : ℕ)
    → IsChain t p xs
    → elem sym xs ≡ true
    → t.next sym ≡ some y
    → elem y xs ≡ true
next-elem t p [] sym y c m n = absurd cc
next-elem t p (a ∷ []) sym y (l, b, c) m n =
    let same : sym ≡ a = ground (arith, m) in absurd (clash c (rw same at n))
  where
    clash : t.next a ≡ none → t.next a ≡ some y → ⊥
    clash e e' = cc
next-elem t p (a ∷ a' ∷ xs) sym y (l, b, c) m n = elim (Bool-cases (sym == a)) [
  | inl e ↦
      let same : sym ≡ a = (==_iff sym a).0 e in
      let second : a' ≡ y = found c.0 (rw same at n) in ground (arith, second)
  | inr e ↦
      let later = next-elem t (next_of a) (a' ∷ xs) sym y c (ground (arith, e, m)) n in
      ground (arith, later)
]
  where
    found : t.next a ≡ some a' → t.next a ≡ some y → a' ≡ y
    found e e' = cc
