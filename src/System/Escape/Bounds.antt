-- ===== src/System/Escape/Bounds.antt =====
-- How far `sys_esc` of compiler/lib/syslib.c moves the pointer.
use cgkits.Prelude.{
  ◌==◌, if◌then◌else◌, ==_iff, Bool-cases, if-cases, length, ℕ, ◌+◌, ◌≤◌, ◌<◌, ◌≡◌, refl, ◌⊎◌, inl,
  inr, true, Option, none, some, List, [], ◌∷◌, arith,
}
use cgkits.System.Escape.{
  toupper, is_hexdigit, is_octdigit, oct2bin, read_hex, read_oct, after_digits, read_control,
  read_escape, sys_esc,
}

-- The strings in which the pointer is moved past the zero at the end: the empty one, a backslash
-- alone, and a backslash before a caret.
abbrev pub Overruns : List ℕ → Type 0
Overruns s = (s ≡ []) ⊎ ((s ≡ 92 ∷ []) ⊎ (s ≡ 92 ∷ 94 ∷ []))

-- Either that, or there is a shorter string left than `n` characters.
abbrev pub Leaves : Type 0 → ℕ → ℕ × Option (List ℕ) → Type 0
Leaves Past n r = ((r.1 ≡ none) × Past) ⊎ ((t : List ℕ) × ((r.1 ≡ some t) × (length t < n)))

length-read_hex : (r : ℕ × List ℕ) → length (read_hex r).1 ≤ length r.1
unfolding read_hex
length-read_hex (v, []) = omega arith
length-read_hex (v, c ∷ s) = elim (Bool-cases (is_hexdigit c)) [
  | inl e ↦ rw e (omega arith)
  | inr e ↦ rw e (omega arith)
]

length-read_oct : (r : ℕ × List ℕ) → length (read_oct r).1 ≤ length r.1
unfolding read_oct
length-read_oct (v, []) = omega arith
length-read_oct (v, c ∷ s) = elim (Bool-cases (is_octdigit c)) [
  | inl e ↦ rw e (omega arith)
  | inr e ↦ rw e (omega arith)
]

abbrev Lone : List ℕ → Type 0
Lone s = (s ≡ []) ⊎ (s ≡ 94 ∷ [])

read_control-Leaves :
    (c : ℕ) (s : List ℕ)
    → (toupper c == 94) ≡ true
    → Leaves (Lone (c ∷ s)) (length (c ∷ s) + 1) (read_control s)
unfolding read_control
read_control-Leaves c [] e =
    let caret : c ≡ 94 = ground (arith, e) in inl (refl, inr (rw caret refl))
read_control-Leaves c (d ∷ s) e = inr (s, (refl, omega arith))

read_escape-Leaves : (s : List ℕ) → Leaves (Lone s) (length s + 1) (read_escape s)
unfolding read_escape
read_escape-Leaves [] = inl (refl, inl refl)
read_escape-Leaves (c ∷ s) = simple 66 8 _ (
    simple 70 12 _ (
      simple 78 10 _ (
        simple 82 13 _ (
          simple 83 32 _ (
            simple 84 9 _ (
              simple 69 27 _ (
                if-cases Q (toupper c == 94) _ _ (read_control-Leaves c s) (λ e.
                  if-cases Q (toupper c == 88) _ _ (λ f. hex)
                    (λ f. if-cases Q (is_octdigit c) _ _ (λ g. octal) (λ g. stay c))))))))))
  where
    Q : ℕ × Option (List ℕ) → Type 0
    Q r = Leaves (Lone (c ∷ s)) (length (c ∷ s) + 1) r

    stay : (v : ℕ) → Q (v, some s)
    stay v = inr (s, (refl, omega arith))

    simple :
        (k v : ℕ) (r : ℕ × Option (List ℕ)) → Q r → Q (if toupper c == k then (v, some s) else r)
    simple k v r h = if-cases Q (toupper c == k) _ _ (λ e. stay v) (λ e. h)

    hex : Q (after_digits (read_hex (read_hex (read_hex (0, s)))))
    hex =
        let a = length-read_hex (0, s) in
        let b = length-read_hex (read_hex (0, s)) in
        let d = length-read_hex (read_hex (read_hex (0, s))) in
        inr (_, (refl, omega (arith, a, b, d)))

    octal : Q (after_digits (read_oct (read_oct (oct2bin c, s))))
    octal =
        let a = length-read_oct (oct2bin c, s) in
        let b = length-read_oct (read_oct (oct2bin c, s)) in inr (_, (refl, omega (arith, a, b)))

sys_esc_cases : (s : List ℕ) → Leaves (Overruns s) (length s) (sys_esc s)
unfolding sys_esc
sys_esc_cases [] = inl (refl, inl refl)
sys_esc_cases (c ∷ s) = elim (Bool-cases (c == 92)) [
  | inl e ↦
      let slash : c ≡ 92 = (==_iff c 92).0 e in
      rw e (elim (read_escape-Leaves s) [
        | inl (gone, lone) ↦ inl (gone, inr (longer slash lone))
        | inr (t, q) ↦ inr (t, (q.0, omega (arith, q.1)))
      ])
  | inr e ↦ rw e (inr (s, (refl, omega arith)))
]
  where
    longer : c ≡ 92 → Lone s → (c ∷ s ≡ 92 ∷ []) ⊎ (c ∷ s ≡ 92 ∷ 94 ∷ [])
    longer q (inl e) = inl (rw (q, e) refl)
    longer q (inr e) = inr (rw (q, e) refl)

sys_esc-Overruns : (s : List ℕ) → Overruns s → (sys_esc s).1 ≡ none
unfolding sys_esc read_escape read_control
sys_esc-Overruns s (inl e) = rw e refl
sys_esc-Overruns s (inr (inl e)) = rw e refl
sys_esc-Overruns s (inr (inr e)) = rw e refl

-- `sys_esc` moves the pointer past the end of the string if the string is empty, a backslash alone
-- or a backslash and a caret. In every other case it leaves a shorter string.
pub sys_esc-Leaves :
    (s : List ℕ) → Leaves (Overruns s) (length s) (sys_esc s) × (Overruns s → (sys_esc s).1 ≡ none)
sys_esc-Leaves s = (sys_esc_cases s, sys_esc-Overruns s)
