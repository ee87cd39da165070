-- ===== src/Set/Ops/Binary.antt =====
-- `set_op` of compiler/lib/set.c, element by element.
use cgkits.Prelude.{
  ltb, if◌then◌else◌, Bool-cases, length, get_or, ℕ, zero, suc, ◌+◌, ◌-◌, ◌/◌, ◌%◌, ◌^◌, ◌≤◌, ◌<◌,
  ◌≡◌, refl, ap, ◌∙◌, inl, inr, Bool, false, ◌&&◌, ◌||◌, List, [], ◌∷◌, arith,
}
use cgkits.Bits.{
  bit_and, bit_or, bit_xor, bit, differs, bit-bit_or, bit-bit_and, bit-bit_xor, bit-zero, bit_or-lt,
  bit_xor-lt, bit_and-lt,
}
use cgkits.Set.{SetS, words, enlarge, member}
use cgkits.Set.Words.{word_bit, AreWords, get_or-past}
use cgkits.Set.Valid.{
  IsValid, has, store-IsStored, store-IsValid, member-eq-has, has-enlarge, enlarge-IsValid,
  nwords-enlarge,
}
use cgkits.Set.Ops.{
  SetOp, union_op, intersect_op, difference_op, assign_op, other_op, combine, zero_rest, op_words,
  set_op,
}

-- The first loop, index by index.
get_or-combine :
    (f : ℕ → ℕ → ℕ) (n i : ℕ) (dp sp : List ℕ)
    → n ≤ length dp
    → n ≤ length sp
    → get_or (combine f n dp sp) i 0
      ≡ (if ltb i n then f (get_or dp i 0) (get_or sp i 0) else get_or dp i 0)
unfolding combine
get_or-combine f zero i dp sp p q = ground arith
get_or-combine f (suc n) i [] sp p q = absurd (omega arith)
get_or-combine f (suc n) i (d ∷ dp) [] p q = absurd (omega arith)
get_or-combine f (suc n) zero (d ∷ dp) (s ∷ sp) p q = ground arith
get_or-combine f (suc n) (suc i) (d ∷ dp) (s ∷ sp) p q =
    ground (arith, get_or-combine f n i dp sp (omega arith) (omega arith))

length-combine : (f : ℕ → ℕ → ℕ) (n : ℕ) (dp sp : List ℕ) → length (combine f n dp sp) ≡ length dp
unfolding combine
length-combine f zero dp sp = refl
length-combine f (suc n) [] sp = refl
length-combine f (suc n) (d ∷ dp) [] = refl
length-combine f (suc n) (d ∷ dp) (s ∷ sp) = ap suc (length-combine f n dp sp)

-- The second loop, index by index, where it runs to the end of the array.
get_or-zero_rest :
    (from bigger i : ℕ) (dp : List ℕ)
    → length dp ≤ from + bigger
    → get_or (zero_rest from bigger dp) i 0 ≡ (if ltb i from then get_or dp i 0 else 0)
unfolding zero_rest
get_or-zero_rest from bigger i [] h = ground arith
get_or-zero_rest (suc from) bigger zero (d ∷ dp) h = ground arith
get_or-zero_rest (suc from) bigger (suc i) (d ∷ dp) h =
    ground (arith, get_or-zero_rest from bigger i dp (omega arith))
get_or-zero_rest zero zero i (d ∷ dp) h = absurd (omega arith)
get_or-zero_rest zero (suc n) zero (d ∷ dp) h = ground arith
get_or-zero_rest zero (suc n) (suc i) (d ∷ dp) h =
    ground (arith, get_or-zero_rest zero n i dp (omega arith))

length-zero_rest : (from bigger : ℕ) (dp : List ℕ) → length (zero_rest from bigger dp) ≡ length dp
unfolding zero_rest
length-zero_rest from bigger [] = refl
length-zero_rest (suc from) bigger (d ∷ dp) = ap suc (length-zero_rest from bigger dp)
length-zero_rest zero zero (d ∷ dp) = refl
length-zero_rest zero (suc n) (d ∷ dp) = ap suc (length-zero_rest zero n dp)

-- What each opcode means for one element: `a` says whether the destination had it, `b` whether
-- the source has it.
abbrev pub op_meaning : SetOp → Bool → Bool → Bool
op_meaning union_op a b = a || b
op_meaning intersect_op a b = a && b
op_meaning difference_op a b = differs a b
op_meaning assign_op a b = b
op_meaning other_op a b = a

-- ... and for one word of each.
abbrev word_op : SetOp → ℕ → ℕ → ℕ
word_op union_op a b = bit_or a b
word_op intersect_op a b = bit_and a b
word_op difference_op a b = bit_xor a b
word_op assign_op a b = b
word_op other_op a b = a

bit-word_op : (op : SetOp) (a b k : ℕ) → bit (word_op op a b) k ≡ op_meaning op (bit a k) (bit b k)
bit-word_op union_op a b k = bit-bit_or a b k
bit-word_op intersect_op a b k = bit-bit_and a b k
bit-word_op difference_op a b k = bit-bit_xor a b k
bit-word_op assign_op a b k = refl
bit-word_op other_op a b k = refl

word_op-lt : (op : SetOp) (a b : ℕ) → a < 2 ^ 32 → b < 2 ^ 32 → word_op op a b < 2 ^ 32
word_op-lt union_op a b p q = bit_or-lt 32 a b p q
word_op-lt intersect_op a b p q = bit_and-lt 32 a b p
word_op-lt difference_op a b p q = bit_xor-lt 32 a b p q
word_op-lt assign_op a b p q = q
word_op-lt other_op a b p q = p

-- The destination is at least as long as the source: past the source's end the source counts as 0.
module _ (n bigger : ℕ) (dp sp : List ℕ) (p : length sp ≡ n) (q : length dp ≡ n + bigger) where
  get_or-op_words :
      (op : SetOp) (i : ℕ)
      → i < n
      → get_or (op_words op n bigger dp sp) i 0 ≡ word_op op (get_or dp i 0) (get_or sp i 0)
  unfolding op_words
  get_or-op_words union_op i h =
      ground (arith, get_or-combine bit_or n i dp sp (omega arith) (omega arith))
  get_or-op_words intersect_op i h = ground (
    arith,
    get_or-zero_rest n bigger i (combine bit_and n dp sp),
    length-combine bit_and n dp sp,
    get_or-combine bit_and n i dp sp (omega arith) (omega arith),
  )
  get_or-op_words difference_op i h =
      ground (arith, get_or-combine bit_xor n i dp sp (omega arith) (omega arith))
  get_or-op_words assign_op i h = ground (
    arith,
    get_or-zero_rest n bigger i (combine (λ d s. s) n dp sp),
    length-combine (λ d s. s) n dp sp,
    get_or-combine (λ d s. s) n i dp sp (omega arith) (omega arith),
  )
  get_or-op_words other_op i h = refl

  get_or-op_words_rest :
      (op : SetOp) (i k : ℕ)
      → n ≤ i
      → (bit (get_or (op_words op n bigger dp sp) i 0) k
          ≡ op_meaning op (bit (get_or dp i 0) k) false)
        × (get_or (op_words op n bigger dp sp) i 0 ≤ get_or dp i 0)
  unfolding op_words
  get_or-op_words_rest union_op i k h =
      ground (arith, get_or-combine bit_or n i dp sp (omega arith) (omega arith))
  get_or-op_words_rest intersect_op i k h = ground (
    arith,
    get_or-zero_rest n bigger i (combine bit_and n dp sp),
    length-combine bit_and n dp sp,
    bit-zero k,
  )
  get_or-op_words_rest difference_op i k h =
      ground (arith, get_or-combine bit_xor n i dp sp (omega arith) (omega arith))
  get_or-op_words_rest assign_op i k h = ground (
    arith,
    get_or-zero_rest n bigger i (combine (λ d s. s) n dp sp),
    length-combine (λ d s. s) n dp sp,
    bit-zero k,
  )
  get_or-op_words_rest other_op i k h = (refl, omega arith)

  bit-op_words :
      (op : SetOp) (i k : ℕ)
      → bit (get_or (op_words op n bigger dp sp) i 0) k
        ≡ op_meaning op (bit (get_or dp i 0) k) (bit (get_or sp i 0) k)
  bit-op_words op i k = elim (Bool-cases (ltb i n)) [
    | inl e ↦ rw (get_or-op_words op i (ground arith)) (bit-word_op op _ _ k)
    | inr e ↦
        let z : bit (get_or sp i 0) k ≡ false = rw (get_or-past sp i (ground arith)) (bit-zero k) in
        rw z ((get_or-op_words_rest op i k (ground arith)).0)
  ]

  op_words-AreWords :
      (op : SetOp) → AreWords dp → AreWords sp → AreWords (op_words op n bigger dp sp)
  op_words-AreWords op a b i = elim (Bool-cases (ltb i n)) [
    | inl e ↦ rw (get_or-op_words op i (ground arith)) (word_op-lt op _ _ (a i) (b i))
    | inr e ↦ omega (arith, (get_or-op_words_rest op i 0 (ground arith)).1, a i)
  ]

length-op_words :
    (op : SetOp) (n bigger : ℕ) (dp sp : List ℕ) → length (op_words op n bigger dp sp) ≡ length dp
unfolding op_words
length-op_words union_op n bigger dp sp = length-combine bit_or n dp sp
length-op_words intersect_op n bigger dp sp =
    length-zero_rest n bigger _ ∙ length-combine bit_and n dp sp
length-op_words difference_op n bigger dp sp = length-combine bit_xor n dp sp
length-op_words assign_op n bigger dp sp =
    length-zero_rest n bigger _ ∙ length-combine (λ d s. s) n dp sp
length-op_words other_op n bigger dp sp = refl

-- The destination after `enlarge`, which `set_op` begins with.
abbrev grown : SetS → SetS → SetS
grown dst src = if ltb dst.nwords src.nwords then enlarge dst src.nwords else dst

grown_lem :
    (dst src : SetS)
    → IsValid dst
    → IsValid (grown dst src)
      × (src.nwords ≤ (grown dst src).nwords)
      × ((x : ℕ) → has (grown dst src) x ≡ has dst x)
grown_lem dst src v = elim (Bool-cases (ltb dst.nwords src.nwords)) [
  | inl e ↦ rw e (
    enlarge-IsValid dst src.nwords v,
    omega (arith, nwords-enlarge dst src.nwords),
    λ x. has-enlarge dst src.nwords x,
  )
  | inr e ↦ rw e (v, ground arith, λ x. refl)
]

module _ (op : SetOp) (dst src : SetS) (v : IsValid dst) (w : IsValid src) where
  abbrev old : SetS
  old = grown dst src

  abbrev bigger : ℕ
  bigger = old.nwords - src.nwords

  old_size : length (words old) ≡ src.nwords + bigger
  old_size = omega (arith, (grown_lem dst src v).0.sized, (grown_lem dst src v).1)

  -- The destination stays a valid set.
  pub set_op-IsValid : IsValid (set_op op dst src)
  unfolding set_op
  set_op-IsValid =
      let g = (grown_lem dst src v).0 in
      store-IsValid old _ g (length-op_words op src.nwords bigger (words old) (words src) ∙ g.sized)
        (op_words-AreWords src.nwords bigger (words old) (words src) w.sized old_size op g.small
          w.small)

  has-set_op : (x : ℕ) → has (set_op op dst src) x ≡ op_meaning op (has dst x) (has src x)
  unfolding set_op
  has-set_op x = rw (← (grown_lem dst src v).2 x) (
      unfold has word_bit in
      rw
        ((store-IsStored old (op_words op src.nwords bigger (words old) (words src))
          (grown_lem dst src v).0).at)
        (bit-op_words src.nwords bigger (words old) (words src) w.sized old_size op (x / 32)
          (x % 32)))

-- After `set_op` on valid sets an element is in the destination as the opcode says: in either set
-- after a union, in both after an intersection, in exactly one after a difference, in the source
-- after an assignment; another opcode changes nothing. The destination is a valid set again.
pub member-set_op :
    (op : SetOp) (dst src : SetS) (x : ℕ)
    → IsValid dst
    → IsValid src
    → IsValid (set_op op dst src)
      × (member (set_op op dst src) x ≡ op_meaning op (member dst x) (member src x))
member-set_op op dst src x v w = (
  set_op-IsValid op dst src v w,
  rw
      (
        member-eq-has (set_op op dst src) x (set_op-IsValid op dst src v w),
        member-eq-has dst x v,
        member-eq-has src x w,
      )
      (has-set_op op dst src v w x),
)
