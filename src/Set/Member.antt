-- ===== src/Set/Member.antt =====
-- Single elements: `SET_ADD`, `SET_REMOVE`, `SET_MEMBER` and `SET_TEST` of include/set.h, and
-- `set_new`, `set_dup`, `set_add` and `set_truncate` of compiler/lib/set.c.
use cgkits.Prelude.{
  leb, ◌==◌, if◌then◌else◌, Bool-cases, length, set, length-set, get_or, replicate,
  length-replicate, ℕ, ◌-◌, ◌*◌, ◌/◌, ◌%◌, ◌^◌, ◌≤◌, ◌<◌, ◌≡◌, refl, sym, ap, ◌∙◌, ◌≢◌, ◌↔◌, ◌⊎◌,
  inl, inr, true, false, not, ◌&&◌, ◌||◌, List, arith,
}
use cgkits.Bits.{
  bit_and, bit_or, bit, bit-bit_or, bit-bit_and, bit-zero, bit-pow, bit-complement, bit_or-lt,
  bit_and-lt, two_pow-lt,
}
use cgkits.Set.{
  all_ones, SetS, words, store, set_new, set_dup, enlarge, round, or_bit, clear_bit, set_add, add,
  remove, member, test, complement, set_truncate,
}
use cgkits.Set.Words.{word_bit, AreWords, get_or-replicate, get_or-set, word_bit-past}
use cgkits.Set.Valid.{
  IsValid, has, store-IsStored, store-IsValid, member-eq-has, has-enlarge, enlarge-IsValid,
  nwords-enlarge, compl-enlarge,
}

-- Two elements are one when they stand at one place of one word.
same_place : (x y : ℕ) → ((y / 32 == x / 32) && (y % 32 == x % 32)) ≡ (y == x)
same_place x y = ground arith

-- A write of one word of the set, bit by bit.
module _ (s : SetS) (v : IsValid s) (y w : ℕ) (fits : y < s.nbits) (narrow : w < 2 ^ 32) where
  abbrev written : SetS
  written = store s (set (words s) (y / 32) w)

  in_range : y / 32 < length (words s)
  in_range = omega (arith, v.sized, v.bits)

  written-IsValid : IsValid written
  written-IsValid =
      store-IsValid s (set (words s) (y / 32) w) v (length-set (words s) (y / 32) w ∙ v.sized)
        (λ i. ground (arith, get_or-set (words s) (y / 32) i w in_range, v.small i))

  has-written : (x : ℕ) → has written x ≡ (if y / 32 == x / 32 then bit w (x % 32) else has s x)
  unfolding has word_bit
  has-written x =
      rw
        (
          (store-IsStored s (set (words s) (y / 32) w) v).at,
          get_or-set (words s) (y / 32) (x / 32) w in_range,
        )
        (ground arith)

module _ (s : SetS) (v : IsValid s) (y : ℕ) (fits : y < s.nbits) where
  abbrev old_word : ℕ
  old_word = get_or (words s) (y / 32) 0

  or_lt : bit_or old_word (2 ^ (y % 32)) < 2 ^ 32
  or_lt =
      bit_or-lt 32 old_word (2 ^ (y % 32)) (v.small (y / 32)) (two_pow-lt (y % 32) 32 (omega arith))

  pub or_bit-IsValid : IsValid (or_bit s y)
  unfolding or_bit
  or_bit-IsValid = written-IsValid s v y _ fits or_lt

  pub has-or_bit : (x : ℕ) → has (or_bit s y) x ≡ (y == x || has s x)
  unfolding or_bit
  has-or_bit x =
      has-written s v y _ fits or_lt x
      ∙ unfold has word_bit in
        ground (
          arith,
          bit-bit_or old_word (2 ^ (y % 32)) (x % 32),
          bit-pow (y % 32) (x % 32),
          same_place x y,
        )

  and_lt : bit_and old_word (all_ones - 2 ^ (y % 32)) < 2 ^ 32
  and_lt = bit_and-lt 32 old_word _ (v.small (y / 32))

  pub clear_bit-IsValid : IsValid (clear_bit s y)
  unfolding clear_bit
  clear_bit-IsValid = written-IsValid s v y _ fits and_lt

  pub has-clear_bit : (x : ℕ) → has (clear_bit s y) x ≡ (not (y == x) && has s x)
  unfolding clear_bit
  has-clear_bit x =
      has-written s v y _ fits and_lt x
      ∙ unfold has word_bit in
        ground (
          arith,
          bit-bit_and old_word (all_ones - 2 ^ (y % 32)) (x % 32),
          bit-complement 32 (2 ^ (y % 32)) (x % 32) (two_pow-lt (y % 32) 32 (omega arith)),
          bit-pow (y % 32) (x % 32),
          same_place x y,
        )

-- `set_add` leaves room for its element.
fits-enlarge : (s : SetS) (y : ℕ) → IsValid s → y < (enlarge s (round y)).nbits
fits-enlarge s y v =
    omega (arith, (enlarge-IsValid s (round y) v).bits, nwords-enlarge s (round y), round_above y)
  where
    round_above : (y : ℕ) → y < round y * 32
    round_above y = omega arith

pub set_add-IsValid : (s : SetS) (y : ℕ) → IsValid s → IsValid (set_add s y)
unfolding set_add
set_add-IsValid s y v =
    or_bit-IsValid (enlarge s (round y)) (enlarge-IsValid s (round y) v) y (fits-enlarge s y v)

pub has-set_add : (s : SetS) (y x : ℕ) → IsValid s → has (set_add s y) x ≡ (y == x || has s x)
unfolding set_add
has-set_add s y x v =
    rw (has-or_bit (enlarge s (round y)) (enlarge-IsValid s (round y) v) y (fits-enlarge s y v) x)
      (rw (has-enlarge s (round y) x))

pub add-IsValid : (s : SetS) (y : ℕ) → IsValid s → IsValid (add s y)
unfolding add
add-IsValid s y v = elim (Bool-cases (leb s.nbits y)) [
  | inl e ↦ rw e (set_add-IsValid s y v)
  | inr e ↦ rw e (or_bit-IsValid s v y (ground arith))
]

pub has-add : (s : SetS) (y x : ℕ) → IsValid s → has (add s y) x ≡ (y == x || has s x)
unfolding add
has-add s y x v = elim (Bool-cases (leb s.nbits y)) [
  | inl e ↦ rw e (has-set_add s y x v)
  | inr e ↦ rw e (has-or_bit s v y (ground arith) x)
]

-- After `SET_ADD` of `y` to a valid set the members are `y` and the members before, whether or not
-- the set had to be enlarged.
pub member-add : (s : SetS) (y x : ℕ) → IsValid s → member (add s y) x ≡ (y == x || member s x)
member-add s y x v =
    rw (member-eq-has (add s y) x (add-IsValid s y v), member-eq-has s x v) (has-add s y x v)

pub remove-IsValid : (s : SetS) (y : ℕ) → IsValid s → IsValid (remove s y)
unfolding remove
remove-IsValid s y v = elim (Bool-cases (leb s.nbits y)) [
  | inl e ↦ rw e v
  | inr e ↦ rw e (clear_bit-IsValid s v y (ground arith))
]

pub has-remove : (s : SetS) (y x : ℕ) → IsValid s → has (remove s y) x ≡ (not (y == x) && has s x)
unfolding remove
has-remove s y x v = elim (Bool-cases (leb s.nbits y)) [
  | inl e ↦ rw e (ground (arith, past, same x y))
  | inr e ↦ rw e (has-clear_bit s v y (ground arith) x)
]
  where
    past : s.nbits ≤ y → has s y ≡ false
    past h = unfold has in word_bit-past (words s) y (omega (arith, v.sized, v.bits))

    same : (x y : ℕ) → y ≡ x → has s x ≡ has s y
    same x y e = ap (has s) (sym e)

-- After `SET_REMOVE` of `y` from a valid set the members are the members before other than `y`.
pub member-remove :
    (s : SetS) (y x : ℕ) → IsValid s → member (remove s y) x ≡ (not (y == x) && member s x)
member-remove s y x v =
    rw (member-eq-has (remove s y) x (remove-IsValid s y v), member-eq-has s x v)
      (has-remove s y x v)

zeros-AreWords : (n : ℕ) → AreWords (replicate n 0)
zeros-AreWords n i = ground (arith, get_or-replicate n 0 i)

pub set_new-IsValid : IsValid set_new
unfolding set_new words
set_new-IsValid = record {
  sized = refl;
  bits = refl;
  wide = omega arith;
  inline = refl;
  small = zeros-AreWords 16;
}

pub has-set_new : (x : ℕ) → has set_new x ≡ false
unfolding set_new words has word_bit
has-set_new x = ground (arith, get_or-replicate 16 0 (x / 32), bit-zero (x % 32))

pub set_truncate-IsValid : (s : SetS) → IsValid (set_truncate s)
unfolding set_truncate words
set_truncate-IsValid s = record {
  sized = refl;
  bits = refl;
  wide = omega arith;
  inline = refl;
  small = zeros-AreWords 16;
}

has-set_truncate : (s : SetS) (x : ℕ) → has (set_truncate s) x ≡ false
unfolding set_truncate words has word_bit
has-set_truncate s x = ground (arith, get_or-replicate 16 0 (x / 32), bit-zero (x % 32))

-- After `set_truncate` there is no member.
pub member-set_truncate : (s : SetS) (x : ℕ) → member (set_truncate s) x ≡ false
member-set_truncate s x =
    rw (member-eq-has (set_truncate s) x (set_truncate-IsValid s)) (has-set_truncate s x)

words-set_dup : (s : SetS) → words (set_dup s) ≡ words s
unfolding set_dup words
words-set_dup s = ground arith

-- A copy of a valid set is valid, of the same size, and has the members of the original and the
-- original's `compl`, so that `SET_TEST` answers the same.
pub set_dup_lem :
    (s : SetS) (x : ℕ)
    → IsValid s
    → IsValid (set_dup s)
      × ((set_dup s).nbits ≡ s.nbits)
      × (member (set_dup s) x ≡ member s x)
      × ((set_dup s).compl ≡ s.compl)
      × (test (set_dup s) x ≡ test s x)
unfolding test
set_dup_lem s x v =
    (valid, unfold set_dup in refl, same, unfold set_dup in refl, rw same (unfold set_dup in refl))
  where
    inline : length (set_dup s).defmap ≡ 16
    inline = unfold set_dup in ground (arith, v.inline, length-replicate 16 (let z : ℕ = 0 in z))

    valid : IsValid (set_dup s)
    valid = record {
      sized = ap length (words-set_dup s) ∙ v.sized ∙ unfold set_dup in refl;
      bits = unfold set_dup in v.bits;
      wide = unfold set_dup in v.wide;
      inline = inline;
      small = rw words-set_dup v.small;
    }

    same : member (set_dup s) x ≡ member s x
    same =
        rw (member-eq-has (set_dup s) x valid, member-eq-has s x v)
          (unfold has in ap (λ ws. word_bit ws x) (words-set_dup s))

-- `SET_COMPLEMENT` turns every answer of `SET_TEST` over, and turns it back the second time, as
-- long as `compl` is 0 or `~0`, which `set_new` and `SET_COMPLEMENT` itself see to.
pub test-complement :
    (s : SetS) (x : ℕ)
    → (s.compl ≡ 0) ⊎ (s.compl ≡ all_ones)
    → (test (complement s) x ≡ not (test s x))
      × (((complement s).compl ≡ 0) ⊎ ((complement s).compl ≡ all_ones))
unfolding test complement member words
test-complement s x h = ground (arith, h)

compl-store : (s : SetS) (ws : List ℕ) → (store s ws).compl ≡ s.compl
unfolding store
compl-store s ws = ground arith

-- Adding and removing elements leave `compl` alone.
pub compl-add : (s : SetS) (y : ℕ) → (add s y).compl ≡ s.compl
unfolding add set_add or_bit
compl-add s y = elim (Bool-cases (leb s.nbits y)) [
  | inl e ↦ rw e (compl-store (enlarge s (round y)) _ ∙ compl-enlarge s (round y))
  | inr e ↦ rw e (compl-store s _)
]

pub compl-set_new : set_new.compl ≡ 0
unfolding set_new
compl-set_new = refl

pub member-set_new : (x : ℕ) → member set_new x ≡ false
member-set_new x = member-eq-has set_new x set_new-IsValid ∙ has-set_new x

-- There is nothing past the bits of a set.
pub member-past : (s : SetS) (x : ℕ) → s.nbits ≤ x → member s x ≡ false
unfolding member
member-past s x h = ground arith

pub complement-IsValid : (s : SetS) → IsValid s → IsValid (complement s)
unfolding complement words
complement-IsValid s v = record {
  sized = unfold words in v.sized;
  bits = v.bits;
  wide = v.wide;
  inline = v.inline;
  small = unfold words in v.small;
}

-- The complement of the empty set: `compl` is not 0, and its first word is.
pub complement-set_new :
    ((complement set_new).compl ≢ 0) × (get_or (words (complement set_new)) 0 0 ≡ 0)
unfolding complement set_new words
complement-set_new = (omega arith, refl)

-- `SET_TEST` in terms of the members and of `compl`.
pub test_iff :
    (s : SetS) (c : ℕ)
    → (test s c ≡ true)
      ↔ (((member s c ≡ true) × (s.compl ≡ 0)) ⊎ ((member s c ≡ false) × (s.compl ≢ 0)))
unfolding test
test_iff s c = (λ e. ground arith, λ r. ground arith)
