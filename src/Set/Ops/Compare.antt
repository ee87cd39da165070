-- ===== src/Set/Ops/Compare.antt =====
-- `set_compare` of compiler/lib/set.c and `SET_IS_EQUIV` of include/set.h.
use cgkits.Prelude.{
  ◌==◌, if◌then◌else◌, ==_iff, length, get_or, ℕ, zero, suc, ◌+◌, ◌-◌, ◌/◌, ◌%◌, ◌^◌, min, ◌≡◌,
  refl, sym, ap, ◌∙◌, ◌↔◌, ◌⊎◌, true, List, [], ◌∷◌, arith,
}
use cgkits.Bits.{bit}
use cgkits.Set.{SetS, words, member}
use cgkits.Set.Words.{word_bit, AreWords, get_or-past, eq_of_word_bits}
use cgkits.Set.Valid.{IsValid, has, member-eq-has}
use cgkits.Set.Ops.{compare_words, set_compare, is_equiv}
use cgkits.Set.Ops.Subset.{any_nonzero_lem}

-- Two arrays agree, the shorter one read as if it went on with zeros.
abbrev pub Agree : List ℕ → List ℕ → Type 0
Agree ws vs = (i : ℕ) → get_or ws i 0 ≡ get_or vs i 0

compare_rest :
    (m1 m2 : ℕ) (p1 p2 : List ℕ)
    → length p1 ≡ m1
    → length p2 ≡ m2
    → (m1 ≡ 0) ⊎ (m2 ≡ 0)
    → (compare_words 0 m1 m2 p1 p2 ≡ 0) ↔ Agree p1 p2
unfolding compare_words
compare_rest zero zero p1 p2 a b h =
    (λ e i. get_or-past p1 i (omega arith) ∙ sym (get_or-past p2 i (omega arith)), λ g. refl)
compare_rest zero (suc m2) p1 p2 a b h =
    let l = any_nonzero_lem (suc m2) p2 b in
    (
      λ e i. get_or-past p1 i (omega arith) ∙ sym (l.0 (ground arith) i),
      λ g. ground (arith, l.1 (λ i. sym (g i) ∙ get_or-past p1 i (omega arith))),
    )
compare_rest (suc m1) zero p1 p2 a b h =
    let l = any_nonzero_lem (suc m1) p1 a in
    (
      λ e i. l.0 (ground arith) i ∙ sym (get_or-past p2 i (omega arith)),
      λ g. ground (arith, l.1 (λ i. g i ∙ get_or-past p2 i (omega arith))),
    )
compare_rest (suc m1) (suc m2) p1 p2 a b h = absurd (omega arith)

compare_words_iff :
    (n m1 m2 : ℕ) (p1 p2 : List ℕ)
    → length p1 ≡ n + m1
    → length p2 ≡ n + m2
    → (m1 ≡ 0) ⊎ (m2 ≡ 0)
    → AreWords p1
    → AreWords p2
    → (compare_words n m1 m2 p1 p2 ≡ 0) ↔ Agree p1 p2
unfolding compare_words
compare_words_iff zero m1 m2 p1 p2 a b h x y =
    compare_rest m1 m2 p1 p2 (omega arith) (omega arith) h
compare_words_iff (suc n) m1 m2 [] p2 a b h x y = absurd (omega arith)
compare_words_iff (suc n) m1 m2 (w ∷ p1) [] a b h x y = absurd (omega arith)
compare_words_iff (suc n) m1 m2 (w ∷ p1) (v ∷ p2) a b h x y =
    let ih =
      compare_words_iff n m1 m2 p1 p2 (omega arith) (omega arith) h (λ i. x (suc i))
        (λ i. y (suc i)) in
    (λ e i. there ih.0 e i, λ g. ground (arith, g 0, ih.1 (λ i. g (suc i))))
  where
    there :
        (compare_words n m1 m2 p1 p2 ≡ 0 → Agree p1 p2)
        → (if w == v then compare_words n m1 m2 p1 p2 else (w + 2 ^ 32 - v) % 2 ^ 32) ≡ 0
        → Agree (w ∷ p1) (v ∷ p2)
    there ih e zero = ground (arith, x 0, y 0)
    there ih e (suc i) = ih (ground (arith, x 0, y 0)) i

pub set_compare-words :
    (s t : SetS) → IsValid s → IsValid t → (set_compare s t ≡ 0) ↔ Agree (words s) (words t)
unfolding set_compare
set_compare-words s t v w =
    compare_words_iff (min s.nwords t.nwords) (s.nwords - min s.nwords t.nwords)
      (t.nwords - min s.nwords t.nwords) (words s) (words t) (omega (arith, v.sized))
      (omega (arith, w.sized)) (omega arith) v.small w.small

-- Two valid sets have the same words exactly when they have the same members.
pub Agree-iff :
    (s t : SetS)
    → IsValid s
    → IsValid t
    → Agree (words s) (words t) ↔ ((x : ℕ) → member s x ≡ member t x)
Agree-iff s t v w = (
  λ g x.
      rw (member-eq-has s x v, member-eq-has t x w)
        (unfold has word_bit in ap (λ (u : ℕ). bit u (x % 32)) (g (x / 32))),
  λ all.
      eq_of_word_bits (words s) (words t) v.small w.small
        (λ x. unfold has in rw (member-eq-has s x v, member-eq-has t x w) at (all x)),
)

-- `set_compare` returns 0, and `SET_IS_EQUIV` holds, exactly when the two valid sets have the same
-- members, whatever their sizes.
pub set_compare_iff :
    (s t : SetS)
    → IsValid s
    → IsValid t
    → ((set_compare s t ≡ 0) ↔ ((x : ℕ) → member s x ≡ member t x))
      × ((is_equiv s t ≡ true) ↔ ((x : ℕ) → member s x ≡ member t x))
unfolding is_equiv
set_compare_iff s t v w =
    let c = set_compare-words s t v w in
    let a = Agree-iff s t v w in
    (
      (λ e. a.0 (c.0 e), λ all. c.1 (a.1 all)),
      (λ e. a.0 (c.0 ((==_iff _ _).0 e)), λ all. (==_iff _ _).1 (c.1 (a.1 all))),
    )

-- The answer 0 that the code gives for one set and itself is what the loops would give.
pub set_compare_self : (s : SetS) → IsValid s → set_compare s s ≡ 0
set_compare_self s v = (set_compare_iff s s v v).0.1 (λ x. refl)
