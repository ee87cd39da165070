-- ===== src/Bits.antt =====
-- The bits of a machine word, and what the C operators `|`, `&`, `^`, `~` and `<<` do to each of
-- them. A word is a number below `2 ^ 32`; `bit w k` is its bit of weight `2 ^ k`.
mod Step
pub mod Low
pub mod Shift
pub use Prim.Native.Nat.{bit_and, bit_or, bit_xor}
use Prim.Native.Nat.{bit_and-bitwise}
use native.Mathlib.Nat.{pow-suc, one-le-pow}
use cgkits.Prelude.{ℕ, zero, suc, ◌+◌, ◌-◌, ◌*◌, ◌/◌, ◌%◌, ◌^◌, ◌≤◌, ◌<◌, min, max, ◌==◌}
use cgkits.Prelude.{Bool, true, false, not, ◌&&◌, ◌||◌, ◌≡◌, refl, arith, ltb, ==_iff, ◌≢◌}
use cgkits.Prelude.{if◌then◌else◌, Bool-cases, inl, inr, ◌⊎◌}
use Step.{bit_or_digit, bit_and_digit, bit_xor_digit}

unfoldable pub bit : ℕ → ℕ → Bool
bit w zero = w % 2 == 1
bit w (suc k) = bit (w / 2) k

-- Exclusive or of two truth values.
abbrev pub differs : Bool → Bool → Bool
differs true b = not b
differs false b = b

-- The halves and the lowest digits of the results, in the form that the inductions below use.
or_half :
    (a b : ℕ) → (bit_or a b / 2 ≡ bit_or (a / 2) (b / 2)) × (bit_or a b % 2 ≡ max (a % 2) (b % 2))
or_half a b = omega (arith, bit_or_digit a b)

and_half :
    (a b : ℕ)
    → (bit_and a b / 2 ≡ bit_and (a / 2) (b / 2)) × (bit_and a b % 2 ≡ min (a % 2) (b % 2))
and_half a b = omega (arith, bit_and_digit a b)

xor_half :
    (a b : ℕ)
    → (bit_xor a b / 2 ≡ bit_xor (a / 2) (b / 2)) × (bit_xor a b % 2 ≡ (a % 2 + b % 2) % 2)
xor_half a b = omega (arith, bit_xor_digit a b)

pub bit-bit_or : (a b k : ℕ) → bit (bit_or a b) k ≡ (bit a k || bit b k)
unfolding bit
bit-bit_or a b zero = ground (arith, or_half a b)
bit-bit_or a b (suc k) = rw ((or_half a b).0) (bit-bit_or (a / 2) (b / 2) k)

pub bit-bit_and : (a b k : ℕ) → bit (bit_and a b) k ≡ (bit a k && bit b k)
unfolding bit
bit-bit_and a b zero = ground (arith, and_half a b)
bit-bit_and a b (suc k) = rw ((and_half a b).0) (bit-bit_and (a / 2) (b / 2) k)

pub bit-bit_xor : (a b k : ℕ) → bit (bit_xor a b) k ≡ differs (bit a k) (bit b k)
unfolding bit
bit-bit_xor a b zero = ground (arith, xor_half a b)
bit-bit_xor a b (suc k) = rw ((xor_half a b).0) (bit-bit_xor (a / 2) (b / 2) k)

pub bit-zero : (k : ℕ) → bit 0 k ≡ false
unfolding bit
bit-zero zero = refl
bit-zero (suc k) = bit-zero k

-- `1 << k` has the one bit `k`.
pub bit-pow : (k j : ℕ) → bit (2 ^ k) j ≡ (k == j)
unfolding bit
bit-pow zero zero = refl
bit-pow zero (suc j) = ground (arith, bit-zero j)
bit-pow (suc k) zero = ground (arith, pow-suc 2 k)
bit-pow (suc k) (suc j) =
    let half : 2 ^ suc k / 2 ≡ 2 ^ k = omega (arith, pow-suc 2 k) in
    rw half (ground (arith, bit-pow k j))

-- The complement of a word of `n` bits.
pub bit-complement : (n w k : ℕ) → w < 2 ^ n → bit (2 ^ n - 1 - w) k ≡ (ltb k n && not (bit w k))
unfolding bit
bit-complement zero w k h = ground (arith, bit-zero k)
bit-complement (suc n) w zero h = ground (arith, pow-suc 2 n)
bit-complement (suc n) w (suc k) h =
    let half : (2 ^ suc n - 1 - w) / 2 ≡ 2 ^ n - 1 - w / 2 = omega (arith, pow-suc 2 n) in
    rw half (ground (arith, bit-complement n (w / 2) k (omega (arith, pow-suc 2 n))))

pub bit-high : (n w k : ℕ) → w < 2 ^ n → n ≤ k → bit w k ≡ false
unfolding bit
bit-high zero w k h p = let e : w ≡ 0 = omega arith in rw e (bit-zero k)
bit-high (suc n) w zero h p = absurd (omega arith)
bit-high (suc n) w (suc k) h p = bit-high n (w / 2) k (omega (arith, pow-suc 2 n)) (omega arith)

-- Two words of `n` bits with the same bits are equal.
pub eq_of_bits : (n a b : ℕ) → a < 2 ^ n → b < 2 ^ n → ((k : ℕ) → k < n → bit a k ≡ bit b k) → a ≡ b
unfolding bit
eq_of_bits zero a b p q h = omega arith
eq_of_bits (suc n) a b p q h =
    let halves : a / 2 ≡ b / 2 =
      eq_of_bits n (a / 2) (b / 2) (omega (arith, pow-suc 2 n)) (omega (arith, pow-suc 2 n))
        (λ k l. h (suc k) (omega arith)) in
    ground (arith, h 0 (omega arith))

pub bit_or-lt : (n a b : ℕ) → a < 2 ^ n → b < 2 ^ n → bit_or a b < 2 ^ n
bit_or-lt zero a b p q =
    let e : a ≡ 0 = omega arith in let e' : b ≡ 0 = omega arith in rw (e, e') (omega arith)
bit_or-lt (suc n) a b p q = omega (
  arith,
  bit_or_digit a b,
  pow-suc 2 n,
  bit_or-lt n (a / 2) (b / 2) (omega (arith, pow-suc 2 n)) (omega (arith, pow-suc 2 n)),
)

pub bit_xor-lt : (n a b : ℕ) → a < 2 ^ n → b < 2 ^ n → bit_xor a b < 2 ^ n
bit_xor-lt zero a b p q =
    let e : a ≡ 0 = omega arith in let e' : b ≡ 0 = omega arith in rw (e, e') (omega arith)
bit_xor-lt (suc n) a b p q = omega (
  arith,
  bit_xor_digit a b,
  pow-suc 2 n,
  bit_xor-lt n (a / 2) (b / 2) (omega (arith, pow-suc 2 n)) (omega (arith, pow-suc 2 n)),
)

pub bit_and-lt : (n a b : ℕ) → a < 2 ^ n → bit_and a b < 2 ^ n
bit_and-lt zero a b p = let e : a ≡ 0 = omega arith in rw e (omega (arith, bit_and-bitwise 0 b))
bit_and-lt (suc n) a b p = omega (
  arith,
  bit_and_digit a b,
  pow-suc 2 n,
  bit_and-lt n (a / 2) (b / 2) (omega (arith, pow-suc 2 n)),
)

-- A word is 0 exactly when it has no bit.
pub zero_iff_no_bit : (n w : ℕ) → w < 2 ^ n → ((k : ℕ) → k < n → bit w k ≡ false) → w ≡ 0
zero_iff_no_bit n w h none_set =
    eq_of_bits n w 0 h (omega (arith, h)) (λ k l. rw (none_set k l, bit-zero k))

-- `w & (1 << k)` is not 0 exactly when bit `k` of `w` is set.
pub bit_and_mask : (n w k : ℕ) → w < 2 ^ n → (bit_and w (2 ^ k) == 0) ≡ not (bit w k)
bit_and_mask n w k h = elim (Bool-cases (bit w k)) [
  | inl set ↦ elim (Bool-cases (bit_and w (2 ^ k) == 0)) [
    | inl e ↦
        let z : bit_and w (2 ^ k) ≡ 0 = (==_iff _ _).0 e in
        absurd (ground (arith, bit-bit_and w (2 ^ k) k, bit-pow k k, bit-zero k))
    | inr e ↦ rw (e, set)
  ]
  | inr clear ↦
      let z : bit_and w (2 ^ k) ≡ 0 =
        zero_iff_no_bit n _ (bit_and-lt n w (2 ^ k) h)
          (λ j _. ground (arith, bit-bit_and w (2 ^ k) j, bit-pow k j)) in
      rw (z, clear)
]

pub two_pow-lt : (k n : ℕ) → k < n → 2 ^ k < 2 ^ n
two_pow-lt k zero h = absurd (omega arith)
two_pow-lt zero (suc n) h = omega (arith, pow-suc 2 n, one-le-pow n 2)
two_pow-lt (suc k) (suc n) h = omega (arith, pow-suc 2 k, pow-suc 2 n, two_pow-lt k n (omega arith))
