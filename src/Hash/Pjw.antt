-- ===== src/Hash/Pjw.antt =====
-- The range of the hash function `hash_pjw` of compiler/lib/hash.c.
use cgkits.Prelude.{◌==◌, ==_iff, if-cases, ℕ, ◌+◌, ◌*◌, ◌%◌, ◌^◌, ◌<◌, List, [], ◌∷◌, arith}
use cgkits.Bits.{bit_and}
use cgkits.Bits.Shift.{high-zero, bit_and_le}
use cgkits.Hash.{high_bits, low_bits, pjw_step, pjw_from, hash_pjw}

-- A round keeps the four high bits clear.
pjw_step-lt : (h c : ℕ) → h < 2 ^ 28 → pjw_step h c < 2 ^ 28
unfolding pjw_step
pjw_step-lt h c l =
    if-cases (λ r. r < 2 ^ 28) (bit_and ((h * 2 ^ 4 % 2 ^ 32 + c) % 2 ^ 32) high_bits == 0)
      ((h * 2 ^ 4 % 2 ^ 32 + c) % 2 ^ 32) _
      (λ e. high-zero ((h * 2 ^ 4 % 2 ^ 32 + c) % 2 ^ 32) (omega arith) ((==_iff _ _).0 e))
      (λ e. omega (arith, bit_and_le low_bits _ low_bits (omega arith)))

pjw_from-lt : (name : List ℕ) (h : ℕ) → h < 2 ^ 28 → pjw_from h name < 2 ^ 28
unfolding pjw_from
pjw_from-lt [] h l = l
pjw_from-lt (c ∷ name) h l = pjw_from-lt name (pjw_step h c) (pjw_step-lt h c l)

-- The hash value of any name is below 2 ^ 28.
pub hash_pjw-lt : (name : List ℕ) → hash_pjw name < 2 ^ 28
unfolding hash_pjw
hash_pjw-lt name = pjw_from-lt name 0 (omega arith)
