-- ===== src/System/Numbers.antt =====
-- `sys_stoul`, `sys_stol` and `sys_memiset` of compiler/lib/syslib.c. A string is the list of its
-- characters without the zero at its end; `unsigned long` has 64 bits, and a `long` is given as the
-- number of its bits.
pub mod Value
use cgkits.Prelude.{
  leb, ◌==◌, if◌then◌else◌, ℕ, zero, suc, ◌+◌, ◌-◌, ◌*◌, ◌%◌, ◌^◌, Bool, ◌&&◌, ◌||◌, List, [], ◌∷◌,
}
use cgkits.System.Escape.{isdigit, toupper, is_hexdigit, is_octdigit}

abbrev pub isspace : ℕ → Bool
isspace c = c == 32 || (leb 9 c && leb c 13)

pub skip_space : List ℕ → List ℕ
skip_space [] = []
skip_space (c ∷ s) = let rest = skip_space s in if isspace c then rest else c ∷ s

abbrev pub hex_value : ℕ → ℕ
hex_value c = if isdigit c then c - 48 else toupper c - 65 + 10

-- The three loops.
pub read_decimal : ℕ → List ℕ → ℕ × List ℕ
read_decimal num [] = (num, [])
read_decimal num (c ∷ s) =
    let rest = read_decimal ((num * 10 + (c - 48)) % 2 ^ 64) s in
    if isdigit c then rest else (num, c ∷ s)

pub read_sixteen : ℕ → List ℕ → ℕ × List ℕ
read_sixteen num [] = (num, [])
read_sixteen num (c ∷ s) =
    let rest = read_sixteen ((num * 16 + hex_value c) % 2 ^ 64) s in
    if is_hexdigit c then rest else (num, c ∷ s)

pub read_eight : ℕ → List ℕ → ℕ × List ℕ
read_eight num [] = (num, [])
read_eight num (c ∷ s) =
    let rest = read_eight ((num * 8 + c - 48) % 2 ^ 64) s in
    if is_octdigit c then rest else (num, c ∷ s)

-- What follows a zero.
pub after_zero : List ℕ → ℕ × List ℕ
unfolding read_sixteen read_eight
after_zero [] = read_eight 0 []
after_zero (c ∷ s) = if c == 88 || c == 120 then read_sixteen 0 s else read_eight 0 (c ∷ s)

-- `sys_stoul` behind the white space.
pub read_number : List ℕ → ℕ × List ℕ
unfolding read_decimal after_zero
read_number [] = read_decimal 0 []
read_number (c ∷ s) = if c == 48 then after_zero s else read_decimal 0 (c ∷ s)

pub sys_stoul : List ℕ → ℕ × List ℕ
unfolding skip_space read_number
sys_stoul s = read_number (skip_space s)

abbrev pub negated : ℕ × List ℕ → ℕ × List ℕ
negated (n, s) = ((2 ^ 64 - n) % 2 ^ 64, s)

-- `sys_stol` behind the white space.
pub read_signed : List ℕ → ℕ × List ℕ
unfolding sys_stoul
read_signed [] = sys_stoul []
read_signed (c ∷ s) = if c == 45 then negated (sys_stoul s) else sys_stoul (c ∷ s)

pub sys_stol : List ℕ → ℕ × List ℕ
unfolding skip_space read_signed
sys_stol s = read_signed (skip_space s)

-- `sys_memiset` on the array at `dst`.
pub sys_memiset : List ℕ → ℕ → ℕ → List ℕ
sys_memiset dst value zero = dst
sys_memiset [] value (suc count) = []
sys_memiset (x ∷ dst) value (suc count) = value ∷ sys_memiset dst value count
