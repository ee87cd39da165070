-- ===== src/Set/Range.antt =====
-- Counting and listing the elements of a range that satisfy a test, for the enumeration of sets.
use mathlib.Core.List.{reverse-append}
use cgkits.Prelude.{
  ltb, leb, ◌==◌, Bool-cases, length, length-append, ℕ, zero, suc, ◌+◌, ◌≤◌, ◌<◌, ◌≡◌, refl, ap,
  ◌⊎◌, inl, inr, Bool, true, false, not, ◌&&◌, ◌||◌, List, [], ◌∷◌, ◌++◌, reverse, arith,
}
use cgkits.Set.Count.{count_range}
use cgkits.Set.Cursor.Enumerate.{list_range}

-- Whether a number stands in a list.
unfoldable pub on : ℕ → List ℕ → Bool
on x [] = false
on x (y ∷ ys) = y == x || on x ys

on-append : (x : ℕ) (xs ys : List ℕ) → on x (xs ++ ys) ≡ (on x xs || on x ys)
unfolding on
on-append x [] ys = refl
on-append x (y ∷ xs) ys = ground (arith, on-append x xs ys)

pub on-reverse : (x : ℕ) (xs : List ℕ) → on x (reverse xs) ≡ on x xs
unfolding on
on-reverse x [] = refl
on-reverse x (y ∷ xs) =
    rw (reverse-append (y ∷ []) xs, on-append x (reverse xs) (y ∷ []))
      (ground (arith, on-reverse x xs))

pub length-reverse : (xs : List ℕ) → length (reverse xs) ≡ length xs
length-reverse [] = refl
length-reverse (x ∷ xs) =
    rw (reverse-append (x ∷ []) xs, length-append (reverse xs) (x ∷ []))
      (omega (arith, length-reverse xs))

pub length-list_range : (n a : ℕ) (p : ℕ → Bool) → length (list_range a n p) ≡ count_range a n p
length-list_range zero a p = refl
length-list_range (suc n) a p = ground (arith, length-list_range n (a + 1) p)

pub on-list_range :
    (n a x : ℕ) (p : ℕ → Bool) → on x (list_range a n p) ≡ (leb a x && ltb x (a + n) && p x)
unfolding on
on-list_range zero a x p = ground arith
on-list_range (suc n) a x p = elim (Bool-cases (a == x)) [
  | inl e ↦
      let same : a ≡ x = ground arith in ground (arith, on-list_range n (a + 1) x p, ap p same)
  | inr e ↦ ground (arith, on-list_range n (a + 1) x p)
]

pub count_range-not :
    (n a : ℕ) (p : ℕ → Bool) → count_range a n p + count_range a n (λ x. not (p x)) ≡ n
count_range-not zero a p = refl
count_range-not (suc n) a p = ground (arith, count_range-not n (a + 1) p)

pub count_range-remove :
    (n a i : ℕ) (p q : ℕ → Bool)
    → a ≤ i
    → i < a + n
    → p i ≡ true
    → ((x : ℕ) → q x ≡ (not (i == x) && p x))
    → count_range a n q + 1 ≡ count_range a n p
count_range-remove zero a i p q l u h e = absurd (omega arith)
count_range-remove (suc n) a i p q l u h e = elim (Bool-cases (a == i)) [
  | inl here ↦ let same : a ≡ i = ground arith in ground (arith, e a, ap p same, rest (omega arith))
  | inr there ↦
      ground (arith, e a, count_range-remove n (a + 1) i p q (ground arith) (omega arith) h e)
]
  where
    beyond : (m b : ℕ) → i < b → count_range b m q ≡ count_range b m p
    beyond zero b k = refl
    beyond (suc m) b k = ground (arith, e b, beyond m (b + 1) (omega arith))

    rest : a ≡ i → count_range (a + 1) n q ≡ count_range (a + 1) n p
    rest same = beyond n (a + 1) (omega arith)

count_range-none :
    (n a : ℕ) (p : ℕ → Bool) → ((x : ℕ) → a ≤ x → p x ≡ false) → count_range a n p ≡ 0
count_range-none zero a p h = refl
count_range-none (suc n) a p h =
    ground (arith, h a (omega arith), count_range-none n (a + 1) p (λ x l. h x (omega arith)))

-- Where all that satisfies `p` is below `n`, a longer range counts no more.
pub count_range-within :
    (m n a : ℕ) (p : ℕ → Bool)
    → ((x : ℕ) → p x ≡ true → x < a + n)
    → count_range a m p ≤ count_range a n p
count_range-within zero n a p h = omega arith
count_range-within (suc m) zero a p h =
    omega (arith, count_range-none (suc m) a p (λ x l. past x l (Bool-cases (p x))))
  where
    past : (x : ℕ) → a ≤ x → (p x ≡ true) ⊎ (p x ≡ false) → p x ≡ false
    past x l (inl e) = absurd (omega (arith, h x e))
    past x l (inr e) = e
count_range-within (suc m) (suc n) a p h =
    ground (arith, count_range-within m n (a + 1) p (λ x e. omega (arith, h x e)))
