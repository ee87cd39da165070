-- ===== src/Bits/Shift.antt =====
-- The C operator `&` with a mask whose low bits are zero, and with any mask as a bound.
use Prim.Native.Nat.{bit_and}
use cgkits.Prelude.{
  leb, ◌==◌, leb→le, ==_iff, Bool-cases, ℕ, zero, suc, ◌+◌, ◌*◌, ◌/◌, ◌^◌, ◌≤◌, ◌<◌, ◌≡◌, refl, sym,
  ◌∙◌, inl, inr, arith,
}
use cgkits.Bits.Step.{bit_and_digit}
use cgkits.Bits.Low.{bit_and_zero, bit_and_fifteen}

pub double : ℕ → ℕ → ℕ
double zero b = b
double (suc k) b = double k b * 2

pub halve : ℕ → ℕ → ℕ
halve zero a = a
halve (suc k) a = halve k (a / 2)

bit_and-double : (k a b : ℕ) → bit_and a (double k b) ≡ double k (bit_and (halve k a) b)
unfolding double halve
bit_and-double zero a b = refl
bit_and-double (suc k) a b =
    let half : double k b * 2 / 2 ≡ double k b = omega arith in
    let q : bit_and (a / 2) (double k b * 2 / 2) ≡ double k (bit_and (halve k (a / 2)) b) =
      rw half (bit_and-double k (a / 2) b) in
    omega (arith, bit_and_digit a (double k b * 2), q)

double-zero : (k b : ℕ) → double k b ≡ 0 → b ≡ 0
unfolding double
double-zero zero b e = e
double-zero (suc k) b e = double-zero k b (omega (arith, e))

double_mono : (k a b : ℕ) → a ≤ b → double k a ≤ double k b
unfolding double
double_mono zero a b l = l
double_mono (suc k) a b l = omega (arith, double_mono k a b l)

-- The number lies between its high bits and the next ones.
double-halve : (k a : ℕ) → (double k (halve k a) ≤ a) × (a < double k (halve k a + 1))
unfolding double halve
double-halve zero a = (omega arith, omega arith)
double-halve (suc k) a =
    let ih = double-halve k (a / 2) in (omega (arith, ih.0), omega (arith, ih.1))

-- If none of the four high bits of a word is set, it is below 2 ^ 28.
pub high-zero : (a : ℕ) → a < 2 ^ 32 → bit_and a 4026531840 ≡ 0 → a < 2 ^ 28
unfolding double
high-zero a l e =
    let y : ℕ = halve 28 a in
    let and_zero : bit_and y 15 ≡ 0 =
      double-zero 28 (bit_and y 15) (sym (bit_and-double 28 a 15) ∙ e) in
    let small : y < 16 = elim (Bool-cases (leb 16 y)) [
      | inl f ↦
          let big : double 28 16 ≤ double 28 y = double_mono 28 16 y (leb→le 16 y f) in
          absurd (omega (arith, big, (double-halve 28 a).0, l))
      | inr f ↦ ground (arith, f)
    ] in
    let none_set : y ≡ 0 = omega (arith, small, and_zero, bit_and_fifteen y) in
    rw none_set at ((double-halve 28 a).1)

pub bit_and_le : (n a b : ℕ) → b ≤ n → bit_and a b ≤ b
bit_and_le zero a b l =
    let e : b ≡ 0 = omega (arith, l) in
    let q = bit_and_zero a a (omega arith) in rw e (omega (arith, q))
bit_and_le (suc n) a b l = elim (Bool-cases (b == 0)) [
  | inl e ↦
      let z : b ≡ 0 = (==_iff b 0).0 e in
      let q = bit_and_zero a a (omega arith) in rw z (omega (arith, q))
  | inr e ↦
      let less : b / 2 ≤ n = ground (arith, e, l) in
      omega (arith, bit_and_digit a b, bit_and_le n (a / 2) (b / 2) less)
]
