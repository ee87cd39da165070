-- ===== src/Set/Words.antt =====
-- Arrays of words, read bit by bit: bit `x` of the array is bit `x % 32` of the word `x / 32`.
use cgkits.Prelude.{ℕ, zero, suc, ◌+◌, ◌-◌, ◌*◌, ◌/◌, ◌%◌, ◌^◌, ◌≤◌, ◌<◌, Bool, false}
use cgkits.Prelude.{
  ◌≡◌, refl, sym, ◌∙◌, arith, List, [], ◌∷◌, ◌++◌, map, get_or, set, replicate, length,
}
use cgkits.Prelude.{ltb, ◌==◌, if◌then◌else◌}
use cgkits.Bits.{bit, bit-zero, eq_of_bits}

-- Bit `x` of an array of words; past the end there is none.
unfoldable pub word_bit : List ℕ → ℕ → Bool
word_bit ws x = bit (get_or ws (x / 32) 0) (x % 32)

-- Every word is an `unsigned`.
abbrev pub AreWords : List ℕ → Type 0
AreWords ws = (i : ℕ) → get_or ws i 0 < 2 ^ 32

pub get_or-past : (ws : List ℕ) (i : ℕ) → length ws ≤ i → get_or ws i 0 ≡ 0
get_or-past [] i h = refl
get_or-past (w ∷ ws) zero h = absurd (omega arith)
get_or-past (w ∷ ws) (suc i) h = get_or-past ws i (omega arith)

pub get_or-append :
    (ws vs : List ℕ) (i : ℕ)
    → get_or (ws ++ vs) i 0
      ≡ (if ltb i (length ws) then get_or ws i 0 else get_or vs (i - length ws) 0)
get_or-append [] vs i = ground arith
get_or-append (w ∷ ws) vs zero = ground arith
get_or-append (w ∷ ws) vs (suc i) = ground (arith, get_or-append ws vs i)

pub get_or-replicate : (n v i : ℕ) → get_or (replicate n v) i 0 ≡ (if ltb i n then v else 0)
get_or-replicate zero v i = ground arith
get_or-replicate (suc n) v zero = ground arith
get_or-replicate (suc n) v (suc i) = ground (arith, get_or-replicate n v i)

-- More words of zeros hold the same bits.
pub get_or-append_zeros : (ws : List ℕ) (n i : ℕ) → get_or (ws ++ replicate n 0) i 0 ≡ get_or ws i 0
get_or-append_zeros ws n i = ground (
  arith,
  get_or-append ws (replicate n 0) i,
  get_or-replicate n 0 (i - length ws),
  get_or-past ws i,
)

pub get_or-set :
    (ws : List ℕ) (i j v : ℕ)
    → i < length ws
    → get_or (set ws i v) j 0 ≡ (if i == j then v else get_or ws j 0)
get_or-set [] i j v h = absurd (omega arith)
get_or-set (w ∷ ws) zero zero v h = refl
get_or-set (w ∷ ws) zero (suc j) v h = ground arith
get_or-set (w ∷ ws) (suc i) zero v h = ground arith
get_or-set (w ∷ ws) (suc i) (suc j) v h = ground (arith, get_or-set ws i j v (omega arith))

pub get_or-map :
    (f : ℕ → ℕ) (ws : List ℕ) (i : ℕ)
    → get_or (map f ws) i 0 ≡ (if ltb i (length ws) then f (get_or ws i 0) else 0)
get_or-map f [] i = ground arith
get_or-map f (w ∷ ws) zero = ground arith
get_or-map f (w ∷ ws) (suc i) = ground (arith, get_or-map f ws i)

pub word_bit-past : (ws : List ℕ) (x : ℕ) → length ws * 32 ≤ x → word_bit ws x ≡ false
unfolding word_bit
word_bit-past ws x h = rw (get_or-past ws (x / 32) (omega arith)) (bit-zero (x % 32))

-- The bit of weight `k` in word `i` is bit `i * 32 + k`.
pub word_bit_at :
    (ws : List ℕ) (i k : ℕ) → k < 32 → word_bit ws (i * 32 + k) ≡ bit (get_or ws i 0) k
unfolding word_bit
word_bit_at ws i k h =
    let q : (i * 32 + k) / 32 ≡ i = omega arith in
    let r : (i * 32 + k) % 32 ≡ k = omega arith in rw (q, r)

-- Arrays of words with the same bits have the same words, the shorter one read as if it went on
-- with zeros.
pub eq_of_word_bits :
    (ws vs : List ℕ)
    → AreWords ws
    → AreWords vs
    → ((x : ℕ) → word_bit ws x ≡ word_bit vs x)
    → (i : ℕ) → get_or ws i 0 ≡ get_or vs i 0
eq_of_word_bits ws vs a b h i =
    eq_of_bits 32 (get_or ws i 0) (get_or vs i 0) (a i) (b i)
      (λ k l. sym (word_bit_at ws i k l) ∙ h (i * 32 + k) ∙ word_bit_at vs i k l)
