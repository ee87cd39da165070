-- ===== src/System/Numbers/Value.antt =====
-- `sys_stol` of compiler/lib/syslib.c reads the number that a text stands for.
use cgkits.Prelude.{
  ◌==◌, ℕ, ◌+◌, ◌-◌, ◌*◌, ◌%◌, ◌^◌, ◌<◌, ◌≡◌, refl, ap, ◌∙◌, Bool, true, false, List, [], ◌∷◌, ◌++◌,
  map, arith,
}
use cgkits.System.Escape.{isdigit}
use cgkits.System.Numbers.{
  isspace, skip_space, read_decimal, read_number, sys_stoul, negated, read_signed, sys_stol,
}

-- The number that digits stand for in a base, the first one being the highest.
unfoldable pub value : ℕ → ℕ → List ℕ → ℕ
value base num [] = num
value base num (d ∷ ds) = value base (num * base + d) ds

-- All digits are below the base.
abbrev pub AreDigits : ℕ → List ℕ → Type 0
AreDigits base [] = Unit {0}
AreDigits base (d ∷ ds) = (d < base) × AreDigits base ds

-- The text does not begin with a character that passes the test.
abbrev pub Stops : (ℕ → Bool) → List ℕ → Type 0
Stops digit [] = Unit {0}
Stops digit (c ∷ s) = digit c ≡ false

abbrev pub decimal_char : ℕ → ℕ
decimal_char d = 48 + d

value-mod10 :
    (n m : ℕ) (ds : List ℕ)
    → n % 2 ^ 64 ≡ m % 2 ^ 64
    → value 10 n ds % 2 ^ 64 ≡ value 10 m ds % 2 ^ 64
unfolding value
value-mod10 n m [] e = e
value-mod10 n m (d ∷ ds) e = value-mod10 (n * 10 + d) (m * 10 + d) ds (omega (arith, e))

read_decimal-value :
    (num : ℕ) (ds s : List ℕ)
    → num < 2 ^ 64
    → AreDigits 10 ds
    → Stops isdigit s
    → read_decimal num (map decimal_char ds ++ s) ≡ (value 10 num ds % 2 ^ 64, s)
unfolding read_decimal value
read_decimal-value num [] [] l a h = let q : num % 2 ^ 64 ≡ num = omega (arith, l) in rw q refl
read_decimal-value num [] (c ∷ s) l a h =
    let q : num % 2 ^ 64 ≡ num = omega (arith, l) in rw (q, h) refl
read_decimal-value num (d ∷ ds) s l (ld, a) h =
    let digit : isdigit (48 + d) ≡ true = ground (arith, ld) in
    let back : 48 + d - 48 ≡ d = omega arith in
    rw (digit, back)
      (read_decimal-value ((num * 10 + d) % 2 ^ 64) ds s (omega arith) a h
        ∙ ap (λ v. (v, s)) (value-mod10 ((num * 10 + d) % 2 ^ 64) (num * 10 + d) ds (omega arith)))

sys_stoul-value :
    (d : ℕ) (ds s : List ℕ)
    → 0 < d
    → AreDigits 10 (d ∷ ds)
    → Stops isdigit s
    → sys_stoul (map decimal_char (d ∷ ds) ++ s) ≡ (value 10 0 (d ∷ ds) % 2 ^ 64, s)
unfolding sys_stoul skip_space read_number
sys_stoul-value d ds s pos a h =
    let solid : isspace (48 + d) ≡ false = ground (arith, pos) in
    let not_zero : (48 + d == 48) ≡ false = ground (arith, pos) in
    rw (solid, not_zero) (read_decimal-value 0 (d ∷ ds) s (omega arith) a h)

-- From decimal digits, the first of which is not zero, `sys_stol` reads the number that they stand
-- for, cut to 64 bits, and with a minus sign before them its negative; it stops at the first
-- character that is not a digit.
pub sys_stol-value :
    (d : ℕ) (ds s : List ℕ)
    → 0 < d
    → AreDigits 10 (d ∷ ds)
    → Stops isdigit s
    → (sys_stol (map decimal_char (d ∷ ds) ++ s) ≡ (value 10 0 (d ∷ ds) % 2 ^ 64, s))
      × (sys_stol (45 ∷ map decimal_char (d ∷ ds) ++ s)
          ≡ ((2 ^ 64 - value 10 0 (d ∷ ds) % 2 ^ 64) % 2 ^ 64, s))
unfolding sys_stol skip_space read_signed
sys_stol-value d ds s pos a h =
    let solid : isspace (48 + d) ≡ false = ground (arith, pos) in
    let no_sign : (48 + d == 45) ≡ false = ground (arith, pos) in
    let number = sys_stoul-value d ds s pos a h in (rw (solid, no_sign) number, ap negated number)
