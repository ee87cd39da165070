-- ===== src/System/Escape/RoundTrip.antt =====
-- `sys_esc` of compiler/lib/syslib.c reads what `sys_bin_to_ascii` writes.
use cgkits.Prelude.{
  ltb, leb, ◌==◌, if◌then◌else◌, ==_iff, Bool-cases, ℕ, zero, suc, ◌+◌, ◌-◌, ◌*◌, ◌/◌, ◌%◌, ◌<◌,
  ◌≡◌, refl, inl, inr, Bool, true, false, not, ◌&&◌, some, List, ◌∷◌, ◌++◌, arith,
}
use cgkits.System.Escape.{
  is_hexdigit, is_octdigit, hex2bin, oct2bin, hex_char, octal_text, hex_text, escape_text,
  byte_text, sys_bin_to_ascii, read_hex, read_oct, after_digits, read_escape, sys_esc,
}
use cgkits.Bits.Low.{bit_or_octal, bit_or_hex, bit_and_seven, bit_and_byte}

oct2bin-digit : (d : ℕ) → d < 8 → oct2bin (48 + d) ≡ d
unfolding oct2bin
oct2bin-digit d l = omega (arith, bit_and_seven (48 + d - 48))

read_oct-digit : (v d : ℕ) (s : List ℕ) → d < 8 → read_oct (v, (48 + d) ∷ s) ≡ (v * 8 + d, s)
unfolding read_oct
read_oct-digit v d s l =
    let is : is_octdigit (48 + d) ≡ true = ground (arith, l) in
    rw (is, oct2bin-digit d l, bit_or_octal v d l) refl

-- The last case of the `switch` on an octal digit.
read_escape-digit :
    (a : ℕ) (s : List ℕ)
    → a < 8
    → read_escape ((48 + a) ∷ s) ≡ after_digits (read_oct (read_oct (oct2bin (48 + a), s)))
unfolding read_escape
read_escape-digit zero s l = refl
read_escape-digit (suc zero) s l = refl
read_escape-digit (suc (suc zero)) s l = refl
read_escape-digit (suc (suc (suc zero))) s l = refl
read_escape-digit (suc (suc (suc (suc zero)))) s l = refl
read_escape-digit (suc (suc (suc (suc (suc zero))))) s l = refl
read_escape-digit (suc (suc (suc (suc (suc (suc zero)))))) s l = refl
read_escape-digit (suc (suc (suc (suc (suc (suc (suc zero))))))) s l = refl
read_escape-digit (suc (suc (suc (suc (suc (suc (suc (suc a)))))))) s l = absurd (omega arith)

read_escape-octal :
    (a b d : ℕ) (s : List ℕ)
    → a < 8
    → b < 8
    → d < 8
    → read_escape ((48 + a) ∷ (48 + b) ∷ (48 + d) ∷ s) ≡ ((a * 8 + b) * 8 + d, some s)
read_escape-octal a b d s la lb ld =
    rw
      (
        read_escape-digit a ((48 + b) ∷ (48 + d) ∷ s) la,
        oct2bin-digit a la,
        read_oct-digit a b ((48 + d) ∷ s) lb,
        read_oct-digit (a * 8 + b) d s ld,
      )
      refl

hex_char-digit : (d : ℕ) → d < 16 → (is_hexdigit (hex_char d) ≡ true) × (hex2bin (hex_char d) ≡ d)
unfolding hex2bin
hex_char-digit zero l = (refl, refl)
hex_char-digit (suc zero) l = (refl, refl)
hex_char-digit (suc (suc zero)) l = (refl, refl)
hex_char-digit (suc (suc (suc zero))) l = (refl, refl)
hex_char-digit (suc (suc (suc (suc zero)))) l = (refl, refl)
hex_char-digit (suc (suc (suc (suc (suc zero))))) l = (refl, refl)
hex_char-digit (suc (suc (suc (suc (suc (suc zero)))))) l = (refl, refl)
hex_char-digit (suc (suc (suc (suc (suc (suc (suc zero))))))) l = (refl, refl)
hex_char-digit (suc (suc (suc (suc (suc (suc (suc (suc zero)))))))) l = (refl, refl)
hex_char-digit (suc (suc (suc (suc (suc (suc (suc (suc (suc zero))))))))) l = (refl, refl)
hex_char-digit (suc (suc (suc (suc (suc (suc (suc (suc (suc (suc zero)))))))))) l = (refl, refl)
hex_char-digit (suc (suc (suc (suc (suc (suc (suc (suc (suc (suc (suc zero))))))))))) l =
    (refl, refl)
hex_char-digit (suc (suc (suc (suc (suc (suc (suc (suc (suc (suc (suc (suc zero)))))))))))) l =
    (refl, refl)
hex_char-digit (suc (suc (suc (suc (suc (suc (suc (suc (suc (suc (suc (suc (suc zero)))))))))))))
      l =
    (refl, refl)
hex_char-digit
      (suc (suc (suc (suc (suc (suc (suc (suc (suc (suc (suc (suc (suc (suc zero)))))))))))))) l =
    (refl, refl)
hex_char-digit
      (suc (suc (suc (suc (suc (suc (suc (suc (suc (suc (suc (suc (suc (suc (suc zero)))))))))))))))
      l =
    (refl, refl)
hex_char-digit
      (suc
        (suc (suc (suc (suc (suc (suc (suc (suc (suc (suc (suc (suc (suc (suc (suc d))))))))))))))))
      l =
    absurd (omega arith)

read_hex-digit : (v d : ℕ) (s : List ℕ) → d < 16 → read_hex (v, hex_char d ∷ s) ≡ (v * 16 + d, s)
unfolding read_hex
read_hex-digit v d s l = let q = hex_char-digit d l in rw (q.0, q.1, bit_or_hex v d l) refl

read_escape-hex :
    (a b : ℕ) (s : List ℕ)
    → a < 16
    → b < 16
    → read_escape (120 ∷ 48 ∷ hex_char a ∷ hex_char b ∷ s) ≡ (a * 16 + b, some s)
unfolding read_escape
read_escape-hex a b s la lb =
    let zeros : 0 * 16 + a ≡ a = omega arith in
    rw
      (
        read_hex-digit 0 0 (hex_char a ∷ hex_char b ∷ s) (omega arith),
        read_hex-digit 0 a (hex_char b ∷ s) la,
        zeros,
        read_hex-digit a b s lb,
      )
      refl

-- The character that the text stands for is read, and nothing behind the text.
abbrev Reads : ℕ → List ℕ → List ℕ → Type 0
Reads c text s = sys_esc (text ++ s) ≡ (c, some s)

number-Reads :
    (c : ℕ) (use_hex : Bool) (s : List ℕ)
    → c < 256
    → Reads c (92 ∷ (if use_hex then hex_text c else octal_text c)) s
unfolding sys_esc
number-Reads c true s l =
    let e : c / 16 * 16 + c % 16 ≡ c = omega arith in
    rw e at (read_escape-hex (c / 16) (c % 16) s (omega (arith, l)) (omega arith))
number-Reads c false s l =
    let e : (c / 64 * 8 + c / 8 % 8) * 8 + c % 8 ≡ c = omega arith in
    rw e at (
      read_escape-octal (c / 64) (c / 8 % 8) (c % 8) s (omega (arith, l)) (omega arith)
        (omega arith))

escape-Reads :
    (c : ℕ) (use_hex : Bool) (s : List ℕ) → c < 256 → Reads c (92 ∷ escape_text c use_hex) s
unfolding escape_text sys_esc read_escape
escape-Reads c use_hex s l = special 92 _ _ refl (
    special 39 _ _ refl (
      special 8 _ _ refl (
        special 12 _ _ refl (
          special 9 _ _ refl
            (special 13 _ _ refl (special 10 _ _ refl (number-Reads c use_hex s l)))))))
  where
    special :
        (k : ℕ) (text rest : List ℕ)
        → Reads k (92 ∷ text) s
        → Reads c (92 ∷ rest) s
        → Reads c (92 ∷ (if c == k then text else rest)) s
    special k text rest h h' = elim (Bool-cases (c == k)) [
      | inl e ↦ let same : c ≡ k = (==_iff c k).0 e in rw (e, same) h
      | inr e ↦ rw e h'
    ]

byte_text-Reads : (c : ℕ) (use_hex : Bool) (s : List ℕ) → c < 256 → Reads c (byte_text c use_hex) s
unfolding byte_text sys_esc
byte_text-Reads c use_hex s l =
    elim (Bool-cases (leb 32 c && ltb c 127 && not (c == 39) && not (c == 92))) [
      | inl e ↦ let plain : (c == 92) ≡ false = ground (arith, e) in rw (e, plain) refl
      | inr e ↦ rw e (escape-Reads c use_hex s l)
    ]

-- From the text that `sys_bin_to_ascii` makes of the lower eight bits of a number, in hexadecimal or
-- octal, `sys_esc` reads this number again and stops right behind the text, whatever follows.
pub sys_esc-sys_bin_to_ascii :
    (c : ℕ) (use_hex : Bool) (s : List ℕ)
    → sys_esc (sys_bin_to_ascii c use_hex ++ s) ≡ (c % 256, some s)
unfolding sys_bin_to_ascii
sys_esc-sys_bin_to_ascii c use_hex s =
    rw (bit_and_byte c) (byte_text-Reads (c % 256) use_hex s (omega arith))
