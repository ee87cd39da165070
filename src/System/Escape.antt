-- ===== src/System/Escape.antt =====
-- Escape sequences in compiler/lib/syslib.c: `sys_bin_to_ascii` and `sys_esc`. A string is the list
-- of its characters, which are below 128, without the zero at its end. `toupper` and `isdigit` are
-- those of the C locale.
pub mod RoundTrip
pub mod Bounds
use cgkits.Prelude.{
  ltb, leb, ◌==◌, if◌then◌else◌, ℕ, ◌+◌, ◌-◌, ◌*◌, ◌/◌, ◌%◌, ◌^◌, Bool, not, ◌&&◌, ◌||◌, Option,
  none, some, List, [], ◌∷◌,
}
use cgkits.Bits.{bit_and, bit_or}

abbrev pub isdigit : ℕ → Bool
isdigit c = leb 48 c && leb c 57

abbrev pub toupper : ℕ → ℕ
toupper c = if leb 97 c && leb c 122 then c - 32 else c

abbrev pub is_hexdigit : ℕ → Bool
is_hexdigit c = isdigit c || (leb 97 c && leb c 102) || (leb 65 c && leb c 70)

abbrev pub is_octdigit : ℕ → Bool
is_octdigit c = leb 48 c && leb c 55

pub hex2bin : ℕ → ℕ
hex2bin c = if isdigit c then c - 48 else bit_and (toupper c - 65 + 10) 15

pub oct2bin : ℕ → ℕ
oct2bin c = bit_and (c - 48) 7

-- `printf` of a digit in hexadecimal.
abbrev pub hex_char : ℕ → ℕ
hex_char d = if ltb d 10 then 48 + d else 87 + d

-- "%03o" and "x%03x" of a number below 256.
abbrev pub octal_text : ℕ → List ℕ
octal_text c = (48 + c / 64) ∷ (48 + c / 8 % 8) ∷ (48 + c % 8) ∷ []

abbrev pub hex_text : ℕ → List ℕ
hex_text c = 120 ∷ 48 ∷ hex_char (c / 16) ∷ hex_char (c % 16) ∷ []

-- The `switch` on a character that is not printed as it is.
pub escape_text : ℕ → Bool → List ℕ
escape_text c use_hex =
    if c == 92
    then 92 ∷ []
    else if c == 39
    then 39 ∷ []
    else if c == 8
    then 98 ∷ []
    else if c == 12
    then 102 ∷ []
    else if c == 9
    then 116 ∷ []
    else if c == 13
    then 114 ∷ []
    else if c == 10
    then 110 ∷ []
    else if use_hex
    then hex_text c
    else octal_text c

-- The same after `c &= 0xff`.
pub byte_text : ℕ → Bool → List ℕ
unfolding escape_text
byte_text c use_hex =
    if leb 32 c && ltb c 127 && not (c == 39) && not (c == 92)
    then c ∷ []
    else 92 ∷ escape_text c use_hex

pub sys_bin_to_ascii : ℕ → Bool → List ℕ
unfolding byte_text
sys_bin_to_ascii c use_hex = byte_text (bit_and c 255) use_hex

-- One more digit, if there is one: the value so far and the string.
pub read_hex : ℕ × List ℕ → ℕ × List ℕ
unfolding hex2bin
read_hex (v, []) = (v, [])
read_hex (v, c ∷ s) = if is_hexdigit c then (bit_or (v * 16) (hex2bin c), s) else (v, c ∷ s)

pub read_oct : ℕ × List ℕ → ℕ × List ℕ
unfolding oct2bin
read_oct (v, []) = (v, [])
read_oct (v, c ∷ s) = if is_octdigit c then (bit_or (v * 8) (oct2bin c), s) else (v, c ∷ s)

abbrev pub after_digits : ℕ × List ℕ → ℕ × Option (List ℕ)
after_digits (v, s) = (v, some s)

-- `rval` is an `int`: the number of its 32 bits.
abbrev pub control : ℕ → ℕ
control c = (toupper c + 2 ^ 32 - 64) % 2 ^ 32

-- `case '^'`, with the string after the `^`.
pub read_control : List ℕ → ℕ × Option (List ℕ)
read_control [] = (control 0, none)
read_control (c ∷ s) = (control c, some s)

-- The `switch`, with the string after the backslash.
pub read_escape : List ℕ → ℕ × Option (List ℕ)
unfolding read_hex read_oct read_control
read_escape [] = (92, none)
read_escape (c ∷ s) =
    let u = toupper c in
    if u == 66
    then (8, some s)
    else if u == 70
    then (12, some s)
    else if u == 78
    then (10, some s)
    else if u == 82
    then (13, some s)
    else if u == 83
    then (32, some s)
    else if u == 84
    then (9, some s)
    else if u == 69
    then (27, some s)
    else if u == 94
    then read_control s
    else if u == 88
    then after_digits (read_hex (read_hex (read_hex (0, s))))
    else if is_octdigit c
    then after_digits (read_oct (read_oct (oct2bin c, s)))
    else (c, some s)

-- `sys_esc`: the character, and where the pointer stands afterwards; `none` is past the zero that
-- ends the string.
pub sys_esc : List ℕ → ℕ × Option (List ℕ)
unfolding read_escape
sys_esc [] = (0, none)
sys_esc (c ∷ s) = if c == 92 then read_escape s else (c, some s)
