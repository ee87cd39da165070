-- ===== src/Set/Ops/Test.antt =====
-- `set_test` of compiler/lib/set.c.
use Prim.Native.Nat.{bit_and-bitwise}
use cgkits.Prelude.{
  ltb, leb, ◌==◌, if◌then◌else◌, Bool-cases, length, get_or, ℕ, zero, suc, ◌+◌, ◌-◌, ◌*◌, ◌/◌, ◌%◌,
  ◌<◌, max, ◌≡◌, refl, sym, ◌∙◌, ◌≢◌, ◌⊎◌, inl, inr, true, ◌||◌, List, [], ◌∷◌, arith,
}
use cgkits.Bits.{bit_and, bit, bit-zero, eq_of_bits, zero_iff_no_bit}
use cgkits.Set.Ops.{TestResult, equiv, disj, inter, test_words, set_test}
use cgkits.Set.Ops.Compare.{Agree, Agree-iff}
use cgkits.Set.{SetS, words, set_new, enlarge, add, member}
use cgkits.Set.Words.{word_bit, get_or-past, get_or-append_zeros, word_bit_at}
use cgkits.Set.Valid.{IsValid, has, enlarge-IsValid, nwords-enlarge}
use cgkits.Set.Member.{add-IsValid, has-add, member-add, set_new-IsValid, has-set_new}

-- Two words that `set_test` passes over: equal, or with no common bit.
abbrev pub Passes : ℕ → ℕ → Type 0
Passes a b = (a ≡ b) ⊎ (bit_and a b ≡ 0)

test_words_stop :
    (n : ℕ) (r : TestResult) (p1 p2 : List ℕ) (i : ℕ)
    → length p1 ≡ n
    → length p2 ≡ n
    → i < n
    → get_or p1 i 0 ≢ get_or p2 i 0
    → bit_and (get_or p1 i 0) (get_or p2 i 0) ≢ 0
    → test_words n r p1 p2 ≡ inter
unfolding test_words
test_words_stop zero r p1 p2 i a b h ne both = absurd (omega arith)
test_words_stop (suc n) r [] p2 i a b h ne both = absurd (omega arith)
test_words_stop (suc n) r (x ∷ p1) [] i a b h ne both = absurd (omega arith)
test_words_stop (suc n) r (x ∷ p1) (y ∷ p2) zero a b h ne both = ground (arith, ne, both)
test_words_stop (suc n) r (x ∷ p1) (y ∷ p2) (suc i) a b h ne both =
    let r' = if x == y then r else disj in
    ground (arith, test_words_stop n r' p1 p2 i (omega arith) (omega arith) (omega arith) ne both)

-- Equal words leave the result as it is.
test_words-Agree :
    (n : ℕ) (r : TestResult) (p1 p2 : List ℕ) → Agree p1 p2 → test_words n r p1 p2 ≡ r
unfolding test_words
test_words-Agree zero r p1 p2 g = refl
test_words-Agree (suc n) r [] p2 g = refl
test_words-Agree (suc n) r (x ∷ p1) [] g = refl
test_words-Agree (suc n) r (x ∷ p1) (y ∷ p2) g =
    ground (arith, g 0, test_words-Agree n r p1 p2 (λ i. g (suc i)))

-- Once two words differ the result is `disj` for good, as long as every later pair passes.
test_words_disj :
    (n : ℕ) (p1 p2 : List ℕ)
    → ((i : ℕ) → Passes (get_or p1 i 0) (get_or p2 i 0))
    → test_words n disj p1 p2 ≡ disj
unfolding test_words
test_words_disj zero p1 p2 h = refl
test_words_disj (suc n) [] p2 h = refl
test_words_disj (suc n) (x ∷ p1) [] h = refl
test_words_disj (suc n) (x ∷ p1) (y ∷ p2) h =
    ground (arith, h 0, test_words_disj n p1 p2 (λ i. h (suc i)))

test_words_differ :
    (n : ℕ) (r : TestResult) (p1 p2 : List ℕ) (i : ℕ)
    → length p1 ≡ n
    → length p2 ≡ n
    → i < n
    → ((j : ℕ) → Passes (get_or p1 j 0) (get_or p2 j 0))
    → get_or p1 i 0 ≢ get_or p2 i 0
    → test_words n r p1 p2 ≡ disj
unfolding test_words
test_words_differ zero r p1 p2 i a b l h ne = absurd (omega arith)
test_words_differ (suc n) r [] p2 i a b l h ne = absurd (omega arith)
test_words_differ (suc n) r (x ∷ p1) [] i a b l h ne = absurd (omega arith)
test_words_differ (suc n) r (x ∷ p1) (y ∷ p2) zero a b l h ne =
    ground (arith, h 0, ne, test_words_disj n p1 p2 (λ j. h (suc j)))
test_words_differ (suc n) r (x ∷ p1) (y ∷ p2) (suc i) a b l h ne =
    let r' = if x == y then r else disj in
    ground (
      arith,
      h 0,
      test_words_differ n r' p1 p2 i (omega arith) (omega arith) (omega arith) (λ j. h (suc j)) ne,
    )

-- The word `i` of a set; a set has words of zeros past its end.
abbrev pub word_at : SetS → ℕ → ℕ
word_at s i = get_or (words s) i 0

word_at-enlarge : (s : SetS) (n i : ℕ) → word_at (enlarge s n) i ≡ word_at s i
word_at-enlarge s n i = words_enlarge
  where
    words_enlarge : get_or (words (enlarge s n)) i 0 ≡ get_or (words s) i 0
    words_enlarge =
        unfold enlarge words in
        elim (Bool-cases (leb n s.nwords)) [
          | inl e ↦ rw e
          | inr e ↦ rw (e, get_or-append_zeros (words s) (n - s.nwords) i)
        ]

module _ (s t : SetS) (v : IsValid s) (w : IsValid t) where
  abbrev size : ℕ
  size = max s.nwords t.nwords

  abbrev s' : SetS
  s' = enlarge s size

  abbrev t' : SetS
  t' = enlarge t size

  same_size : (length (words s') ≡ size) × (length (words t') ≡ size)
  same_size = omega (
    arith,
    (enlarge-IsValid s size v).sized,
    (enlarge-IsValid t size w).sized,
    nwords-enlarge s size,
    nwords-enlarge t size,
  )

  below_size : (i : ℕ) → word_at s i ≢ word_at t i → i < size
  below_size i ne = elim (Bool-cases (ltb i size)) [
    | inl e ↦ ground arith
    | inr e ↦
        absurd
          (ground (arith, ne, get_or-past (words s) i, get_or-past (words t) i, v.sized, w.sized))
  ]

  differ_enlarged : (i : ℕ) → word_at s i ≢ word_at t i → word_at s' i ≢ word_at t' i
  differ_enlarged i ne = rw (word_at-enlarge s size i, word_at-enlarge t size i) ne

-- `set_test` compares two valid sets word by word. It answers `_SET_EQUIV` when the members are the
-- same; `_SET_INTER` when in some word the two sets differ and share an element; and `_SET_DISJ`
-- when some words differ but no differing word has a shared element. The sets it leaves behind are
-- valid.
pub set_test_cases :
    (s t : SetS)
    → IsValid s
    → IsValid t
    → (((x : ℕ) → member s x ≡ member t x) → (set_test s t).0 ≡ equiv)
      × ((i : ℕ)
          → word_at s i ≢ word_at t i
          → bit_and (word_at s i) (word_at t i) ≢ 0
          → (set_test s t).0 ≡ inter)
      × ((i : ℕ)
          → word_at s i ≢ word_at t i
          → ((j : ℕ) → Passes (word_at s j) (word_at t j))
          → (set_test s t).0 ≡ disj)
      × IsValid (set_test s t).1
      × IsValid (set_test s t).2
unfolding set_test
set_test_cases s t v w = (
  λ same. test_words-Agree (max s.nwords t.nwords) equiv _ _ (λ i. agree same i),
  λ i ne both.
      test_words_stop (size s t v w) equiv (words (s' s t v w)) (words (t' s t v w)) i
        (same_size s t v w).0 (same_size s t v w).1 (below_size s t v w i ne)
        (differ_enlarged s t v w i ne)
        (rw
          (word_at-enlarge s (max s.nwords t.nwords) i, word_at-enlarge t (max s.nwords t.nwords) i)
          both),
  λ i ne pass.
      test_words_differ (size s t v w) equiv (words (s' s t v w)) (words (t' s t v w)) i
        (same_size s t v w).0 (same_size s t v w).1 (below_size s t v w i ne)
        (λ j.
          rw
            (
              word_at-enlarge s (max s.nwords t.nwords) j,
              word_at-enlarge t (max s.nwords t.nwords) j,
            )
            (pass j))
        (differ_enlarged s t v w i ne),
  enlarge-IsValid s (max s.nwords t.nwords) v,
  enlarge-IsValid t (max s.nwords t.nwords) w,
)
  where
    agree :
        ((x : ℕ) → member s x ≡ member t x)
        → (i : ℕ)
        → word_at (enlarge s (max s.nwords t.nwords)) i
          ≡ word_at (enlarge t (max s.nwords t.nwords)) i
    agree same i =
        rw
          (word_at-enlarge s (max s.nwords t.nwords) i, word_at-enlarge t (max s.nwords t.nwords) i)
          ((Agree-iff s t v w).1 same i)

-- The word of a set by its members.
word_at_of_has :
    (s t : SetS) (i : ℕ)
    → IsValid s
    → IsValid t
    → ((k : ℕ) → k < 32 → has s (i * 32 + k) ≡ has t (i * 32 + k))
    → word_at s i ≡ word_at t i
unfolding has
word_at_of_has s t i v w h =
    eq_of_bits 32 _ _ (v.small i) (w.small i)
      λ k l. sym (word_bit_at (words s) i k l) ∙ h k l ∙ word_bit_at (words t) i k l

-- So two sets that share an element can be reported as disjoint: `{x}` and `{x, y}` are, whenever
-- `x` and `y` stand in different words, although `x` is in both.
pub set_test_shared :
    (x y : ℕ)
    → x / 32 ≢ y / 32
    → let s = add set_new x in
      let t = add (add set_new x) y in
      ((set_test s t).0 ≡ disj) × (member s x ≡ true) × (member t x ≡ true)
unfolding has word_bit
set_test_shared x y ne = (
  (set_test_cases s t v w).2 (y / 32) differ pass,
  rw (member-add set_new x x set_new-IsValid) (ground arith),
  rw (member-add s y x v, member-add set_new x x set_new-IsValid) (ground arith),
)
  where
    s : SetS
    s = add set_new x

    t : SetS
    t = add (add set_new x) y

    v : IsValid s
    v = add-IsValid set_new x set_new-IsValid

    w : IsValid t
    w = add-IsValid s y v

    has_s : (z : ℕ) → has s z ≡ (x == z)
    has_s z = ground (arith, has-add set_new x z set_new-IsValid, has-set_new z)

    has_t : (z : ℕ) → has t z ≡ (y == z || x == z)
    has_t z = ground (arith, has-add s y z v, has_s z)

    -- The word of `y` is 0 in `s`.
    blank : word_at s (y / 32) ≡ 0
    blank =
        zero_iff_no_bit 32 _ (v.small (y / 32))
          λ k l. ground (arith, word_bit_at (words s) (y / 32) k l, has_s (y / 32 * 32 + k), ne)

    differ : word_at s (y / 32) ≢ word_at t (y / 32)
    differ e =
        let z : word_at t (y / 32) ≡ 0 = sym e ∙ blank in
        let set_bit : bit (word_at t (y / 32)) (y % 32) ≡ true = ground (arith, has_t y) in
        ground (arith, bit-zero (y % 32))

    pass : (j : ℕ) → Passes (word_at s j) (word_at t j)
    pass j = elim (Bool-cases (j == y / 32)) [
      | inl e ↦
          let same : j ≡ y / 32 = ground arith in
          inr (rw (same, blank) (bit_and-bitwise 0 (word_at t (y / 32))))
      | inr e ↦
          inl (
            word_at_of_has s t j v w
              (λ k l. ground (arith, has_s (j * 32 + k), has_t (j * 32 + k))))
    ]
