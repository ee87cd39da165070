-- ===== src/Set/Ops/Subset.antt =====
-- `set_subset` of compiler/lib/set.c.
use cgkits.Prelude.{
  ltb, ◌==◌, if◌then◌else◌, Bool-cases, length, set, get_or, ℕ, zero, suc, ◌+◌, ◌-◌, ◌*◌, ◌/◌, ◌%◌,
  ◌≤◌, ◌<◌, ◌≡◌, refl, sym, ◌↔◌, ◌⊎◌, inl, inr, true, false, List, [], ◌∷◌, arith,
}
use cgkits.Bits.{bit_and, bit-bit_and, bit-zero, eq_of_bits, bit_and-lt, zero_iff_no_bit}
use cgkits.Set.{SetS, words, member}
use cgkits.Set.Words.{word_bit, AreWords, get_or-past, word_bit-past, word_bit_at}
use cgkits.Set.Valid.{IsValid, has, member-eq-has}
use cgkits.Set.Ops.{any_nonzero, subset_words, set_subset}

pub any_nonzero_lem :
    (n : ℕ) (ws : List ℕ)
    → length ws ≡ n
    → (any_nonzero n ws ≡ false) ↔ ((i : ℕ) → get_or ws i 0 ≡ 0)
unfolding any_nonzero
any_nonzero_lem zero [] h = (λ _ i. refl, λ _. refl)
any_nonzero_lem zero (w ∷ ws) h = absurd (omega arith)
any_nonzero_lem (suc n) [] h = absurd (omega arith)
any_nonzero_lem (suc n) (w ∷ ws) h =
    let ih = any_nonzero_lem n ws (omega arith) in
    (λ e. there ih e, λ all. ground (arith, all 0, ih.1 (λ i. all (suc i))))
  where
    there :
        ((any_nonzero n ws ≡ false) ↔ ((i : ℕ) → get_or ws i 0 ≡ 0))
        → (if w == 0 then any_nonzero n ws else true) ≡ false
        → (i : ℕ) → get_or (w ∷ ws) i 0 ≡ 0
    there ih e zero = ground arith
    there ih e (suc i) = ih.0 (ground arith) i

-- What the two loops answer, word by word.
subset_words_lem :
    (common bigger : ℕ) (sub set : List ℕ)
    → length sub ≡ common + bigger
    → common ≤ length set
    → (subset_words common bigger sub set ≡ true) ↔ (
        ((i : ℕ) → i < common → bit_and (get_or sub i 0) (get_or set i 0) ≡ get_or sub i 0)
        × ((i : ℕ) → common ≤ i → get_or sub i 0 ≡ 0))
unfolding subset_words
subset_words_lem zero bigger sub set p q =
    let rest = any_nonzero_lem bigger sub (omega arith) in
    (
      λ e. (λ i l. absurd (omega arith), λ i l. rest.0 (ground arith) i),
      λ h. ground (arith, rest.1 (λ i. h.1 i (omega arith))),
    )
subset_words_lem (suc common) bigger [] set p q = absurd (omega arith)
subset_words_lem (suc common) bigger (a ∷ sub) [] p q = absurd (omega arith)
subset_words_lem (suc common) bigger (a ∷ sub) (b ∷ set) p q =
    let ih = subset_words_lem common bigger sub set (omega arith) (omega arith) in
    (
      λ e. (first e (λ h. (ih.0 h).0), second e (λ h. (ih.0 h).1)),
      λ h. ground (
        arith,
        h.0 0 (omega arith),
        ih.1 (λ i l. h.0 (suc i) (omega arith), λ i l. h.1 (suc i) (omega arith)),
      ),
    )
  where
    test : Type 0
    test = (if bit_and a b == a then subset_words common bigger sub set else false) ≡ true

    first :
        test
        → (subset_words common bigger sub set ≡ true
            → (i : ℕ) → i < common
            → bit_and (get_or sub i 0) (get_or set i 0) ≡ get_or sub i 0)
        → (i : ℕ) → i < suc common
        → bit_and (get_or (a ∷ sub) i 0) (get_or (b ∷ set) i 0) ≡ get_or (a ∷ sub) i 0
    first e ih zero l = ground arith
    first e ih (suc i) l = ih (ground arith) i (omega arith)

    second :
        test
        → (subset_words common bigger sub set ≡ true → (i : ℕ) → common ≤ i → get_or sub i 0 ≡ 0)
        → (i : ℕ) → suc common ≤ i
        → get_or (a ∷ sub) i 0 ≡ 0
    second e ih zero l = absurd (omega arith)
    second e ih (suc i) l = ih (ground arith) i (omega arith)

-- The elements of one array are among those of the other.
abbrev Within : List ℕ → List ℕ → Type 0
Within sub set = (x : ℕ) → word_bit sub x ≡ true → word_bit set x ≡ true

Within-common :
    (sub set : List ℕ)
    → AreWords sub
    → Within sub set
    → (i : ℕ) → bit_and (get_or sub i 0) (get_or set i 0) ≡ get_or sub i 0
Within-common sub set a h i = eq_of_bits 32 _ _ (bit_and-lt 32 _ _ (a i)) (a i) λ k l. ground (
  arith,
  bit-bit_and (get_or sub i 0) (get_or set i 0) k,
  word_bit_at sub i k l,
  word_bit_at set i k l,
  h (i * 32 + k),
)

Within-rest :
    (sub set : List ℕ)
    → AreWords sub
    → Within sub set
    → (i : ℕ) → length set ≤ i
    → get_or sub i 0 ≡ 0
Within-rest sub set a h i l = zero_iff_no_bit 32 _ (a i) λ k m.
    ground
      (arith, word_bit_at sub i k m, h (i * 32 + k), word_bit-past set (i * 32 + k) (omega arith))

-- The converse: words that pass the tests of the loops hold no other bits.
Within-of_words :
    (common : ℕ) (sub set : List ℕ)
    → ((i : ℕ) → i < common → bit_and (get_or sub i 0) (get_or set i 0) ≡ get_or sub i 0)
    → ((i : ℕ) → common ≤ i → get_or sub i 0 ≡ 0)
    → Within sub set
unfolding word_bit
Within-of_words common sub set p q x m = elim (Bool-cases (ltb (x / 32) common)) [
  | inl e ↦ ground (
    arith,
    p (x / 32) (ground arith),
    bit-bit_and (get_or sub (x / 32) 0) (get_or set (x / 32) 0) (x % 32),
  )
  | inr e ↦ ground (arith, q (x / 32) (ground arith), bit-zero (x % 32))
]

module _ (common bigger : ℕ) (sub set : List ℕ) (p : length sub ≡ common + bigger)
    (q : common ≤ length set) (r : (bigger ≡ 0) ⊎ (common ≡ length set)) (a : AreWords sub) where
  subset_words_iff : (subset_words common bigger sub set ≡ true) ↔ Within sub set
  subset_words_iff =
      let l = subset_words_lem common bigger sub set p q in
      (
        λ e. Within-of_words common sub set (l.0 e).0 (l.0 e).1,
        λ w. l.1 (λ i _. Within-common sub set a w i, λ i h. past w i h),
      )
    where
      past : Within sub set → (i : ℕ) → common ≤ i → get_or sub i 0 ≡ 0
      past w i h = elim r [
        | inl none_left ↦ get_or-past sub i (omega arith)
        | inr all_of_set ↦ Within-rest sub set a w i (omega arith)
      ]

has_subset :
    (set cmpset : SetS)
    → IsValid set
    → IsValid cmpset
    → (set_subset set cmpset ≡ true) ↔ Within (words cmpset) (words set)
unfolding set_subset
has_subset set cmpset v w = elim (Bool-cases (ltb set.nwords cmpset.nwords)) [
  | inl e ↦ rw e (
      subset_words_iff set.nwords (cmpset.nwords - set.nwords) (words cmpset) (words set)
        (ground (arith, w.sized)) (omega (arith, v.sized)) (inr (sym v.sized)) w.small)
  | inr e ↦ rw e (
      subset_words_iff cmpset.nwords 0 (words cmpset) (words set) (omega (arith, w.sized))
        (ground (arith, v.sized)) (inl refl) w.small)
]

-- Of two valid sets `set_subset` answers 1 exactly when every member of `cmpset` is a member of
-- `set`, whichever of the two has more words.
pub set_subset_iff :
    (set cmpset : SetS)
    → IsValid set
    → IsValid cmpset
    → (set_subset set cmpset ≡ true) ↔ ((x : ℕ) → member cmpset x ≡ true → member set x ≡ true)
unfolding has word_bit
set_subset_iff set cmpset v w =
    let h = has_subset set cmpset v w in
    (
      λ e x m. rw (member-eq-has set x v) (h.0 e x (rw (member-eq-has cmpset x w) at m)),
      λ all. h.1 (λ x m. rw (member-eq-has set x v) at (all x (rw (member-eq-has cmpset x w) m))),
    )
