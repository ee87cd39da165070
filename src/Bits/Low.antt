-- ===== src/Bits/Low.antt =====
-- The C operators on words of which one is small: `|` with digits below the other's, and `&` with a
-- mask of low digits.
use Prim.Native.Nat.{bit_and, bit_or}
use cgkits.Prelude.{
  ◌==◌, ==_iff, Bool-cases, ℕ, zero, suc, ◌+◌, ◌*◌, ◌/◌, ◌%◌, ◌≤◌, ◌<◌, ◌≡◌, refl, inl, inr, arith,
}
use cgkits.Bits.Step.{bit_or_digit, bit_and_digit}

bit_or_zero : (n a : ℕ) → a ≤ n → bit_or a 0 ≡ a
bit_or_zero zero a l = let e : a ≡ 0 = omega (arith, l) in rw e refl
bit_or_zero (suc n) a l = elim (Bool-cases (a == 0)) [
  | inl e ↦ let z : a ≡ 0 = (==_iff a 0).0 e in rw z refl
  | inr e ↦
      let less : a / 2 ≤ n = ground (arith, e, l) in
      omega (arith, bit_or_digit a 0, bit_or_zero n (a / 2) less)
]

pub bit_and_zero : (n a : ℕ) → a ≤ n → bit_and a 0 ≡ 0
bit_and_zero zero a l = let e : a ≡ 0 = omega (arith, l) in rw e refl
bit_and_zero (suc n) a l = elim (Bool-cases (a == 0)) [
  | inl e ↦ let z : a ≡ 0 = (==_iff a 0).0 e in rw z refl
  | inr e ↦
      let less : a / 2 ≤ n = ground (arith, e, l) in
      omega (arith, bit_and_digit a 0, bit_and_zero n (a / 2) less)
]

bit_or_two : (v d : ℕ) → d < 2 → bit_or (v * 2) d ≡ v * 2 + d
bit_or_two v d l =
    let half : v * 2 / 2 ≡ v = omega arith in
    let none_left : d / 2 ≡ 0 = omega (arith, l) in
    let q : bit_or (v * 2 / 2) (d / 2) ≡ v = rw (half, none_left) (bit_or_zero v v (omega arith)) in
    omega (arith, bit_or_digit (v * 2) d, q, l)

-- One more digit on both sides.
bit_or_more : (v d : ℕ) → bit_or v (d / 2) ≡ v + d / 2 → bit_or (v * 2) d ≡ v * 2 + d
bit_or_more v d h =
    let half : v * 2 / 2 ≡ v = omega arith in
    let q : bit_or (v * 2 / 2) (d / 2) ≡ v + d / 2 = rw half h in
    omega (arith, bit_or_digit (v * 2) d, q)

bit_or_four : (v d : ℕ) → d < 4 → bit_or (v * 2 * 2) d ≡ v * 2 * 2 + d
bit_or_four v d l = bit_or_more (v * 2) d (bit_or_two v (d / 2) (omega (arith, l)))

bit_or_eight : (v d : ℕ) → d < 8 → bit_or (v * 2 * 2 * 2) d ≡ v * 2 * 2 * 2 + d
bit_or_eight v d l = bit_or_more (v * 2 * 2) d (bit_or_four v (d / 2) (omega (arith, l)))

pub bit_or_octal : (v d : ℕ) → d < 8 → bit_or (v * 8) d ≡ v * 8 + d
bit_or_octal v d l = let e : v * 2 * 2 * 2 ≡ v * 8 = omega arith in rw e at (bit_or_eight v d l)

pub bit_or_hex : (v d : ℕ) → d < 16 → bit_or (v * 16) d ≡ v * 16 + d
bit_or_hex v d l =
    let e : v * 2 * 2 * 2 * 2 ≡ v * 16 = omega arith in
    rw e at (bit_or_more (v * 2 * 2 * 2) d (bit_or_eight v (d / 2) (omega (arith, l))))

-- One more digit in the mask.
bit_and_more : (c m n : ℕ) → bit_and (c / 2) m ≡ n → bit_and c (m * 2 + 1) ≡ n * 2 + c % 2
bit_and_more c m n h =
    let half : (m * 2 + 1) / 2 ≡ m = omega arith in
    let q : bit_and (c / 2) ((m * 2 + 1) / 2) ≡ n = rw half h in
    omega (arith, bit_and_digit c (m * 2 + 1), q)

bit_and_three : (c : ℕ) → bit_and c 3 ≡ c % 4
bit_and_three c =
    let zero_left = bit_and_zero (c / 2 / 2) (c / 2 / 2) (omega arith) in
    let q = bit_and_more c 1 _ (bit_and_more (c / 2) 0 0 zero_left) in omega (arith, q)

pub bit_and_seven : (c : ℕ) → bit_and c 7 ≡ c % 8
bit_and_seven c = let q = bit_and_more c 3 _ (bit_and_three (c / 2)) in omega (arith, q)

pub bit_and_fifteen : (c : ℕ) → bit_and c 15 ≡ c % 16
bit_and_fifteen c = let q = bit_and_more c 7 _ (bit_and_seven (c / 2)) in omega (arith, q)

pub bit_and_byte : (c : ℕ) → bit_and c 255 ≡ c % 256
bit_and_byte c =
    let a = bit_and_more (c / 2 / 2 / 2) 15 _ (bit_and_fifteen (c / 2 / 2 / 2 / 2)) in
    let b = bit_and_more c 127 _ (bit_and_more (c / 2) 63 _ (bit_and_more (c / 2 / 2) 31 _ a)) in
    omega (arith, b)
