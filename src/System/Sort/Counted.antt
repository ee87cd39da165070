-- ===== src/System/Sort/Counted.antt =====
-- `sys_ssort` of compiler/lib/syslib.c only moves the elements.
use cgkits.Prelude.{
  leb, ◌==◌, if◌then◌else◌, if-cases, length, set, length-set, get_or-set_ne, ℕ, zero, suc, ◌+◌,
  ◌-◌, ◌/◌, ◌≤◌, ◌<◌, ◌≡◌, refl, ◌∙◌, ◌≢◌, Bool, List, [], ◌∷◌, arith,
}
use cgkits.System.Sort.{at, swap, sink, gap_pass, gap_loop}

-- How often a value occurs in a list.
abbrev pub one_if : ℕ → ℕ → ℕ
one_if a b = if a == b then 1 else 0

unfoldable pub count : ℕ → List ℕ → ℕ
count a [] = 0
count a (x ∷ xs) = one_if a x + count a xs

count-set :
    (a v i : ℕ) (xs : List ℕ)
    → i < length xs
    → count a (set xs i v) + one_if a (at xs i) ≡ count a xs + one_if a v
unfolding count
count-set a v i [] l = absurd (omega arith)
count-set a v zero (x ∷ xs) l = omega arith
count-set a v (suc i) (x ∷ xs) l = omega (arith, count-set a v i xs (omega (arith, l)))

count-swap :
    (a i j : ℕ) (xs : List ℕ)
    → i ≢ j
    → i < length xs
    → j < length xs
    → count a (swap xs i j) ≡ count a xs
count-swap a i j xs ne li lj =
    let first = count-set a (at xs j) i xs li in
    let size = length-set xs i (at xs j) in
    let second = count-set a (at xs i) j (set xs i (at xs j)) (omega (arith, lj, size)) in
    let other : at (set xs i (at xs j)) j ≡ at xs j = get_or-set_ne xs i j (at xs j) 0 ne in
    let second' : count a (swap xs i j) + one_if a (at xs j)
        ≡ count a (set xs i (at xs j)) + one_if a (at xs i) =
      rw other at second in
    omega (arith, first, second')

pub length-swap : (i j : ℕ) (xs : List ℕ) → length (swap xs i j) ≡ length xs
length-swap i j xs = length-set (set xs i (at xs j)) j (at xs i) ∙ length-set xs i (at xs j)

-- A list of the same length with the same elements.
abbrev pub Same : List ℕ → List ℕ → Type 0
Same xs ys = (length ys ≡ length xs) × ((a : ℕ) → count a ys ≡ count a xs)

Same-trans : (xs ys zs : List ℕ) → Same xs ys → Same ys zs → Same xs zs
Same-trans xs ys zs p q = (q.0 ∙ p.0, λ a. q.1 a ∙ p.1 a)

module _ (greater : ℕ → ℕ → Bool) where
  pub sink-Same :
      (gap fuel j : ℕ) (xs : List ℕ)
      → 0 < gap
      → j + gap < length xs
      → Same xs (sink greater gap fuel j xs)
  unfolding sink
  sink-Same gap zero j xs pos l = (refl, λ a. refl)
  sink-Same gap (suc fuel) j xs pos l =
      let ys = swap xs j (j + gap) in
      let swapped : Same xs ys = (
        length-swap j (j + gap) xs,
        λ a. count-swap a j (j + gap) xs (λ e. omega (arith, e, pos)) (omega (arith, l)) l,
      ) in
      if-cases (Same xs) (greater (at xs j) (at xs (j + gap))) _ _
        (λ e.
          if-cases (Same xs) (leb gap j) _ _
            (λ f.
              Same-trans xs ys _ swapped
                (sink-Same gap fuel (j - gap) ys pos (ground (arith, f, l, swapped.0))))
            (λ f. swapped))
        (λ e. (refl, λ a. refl))

  pub gap_pass-Same :
      (gap left i : ℕ) (xs : List ℕ)
      → 0 < gap
      → gap ≤ i
      → i + left ≤ length xs
      → Same xs (gap_pass greater gap left i xs)
  unfolding gap_pass
  gap_pass-Same gap zero i xs pos g l = (refl, λ a. refl)
  gap_pass-Same gap (suc left) i xs pos g l =
      let one = sink-Same gap (i + 1) (i - gap) xs pos (omega (arith, g, l)) in
      Same-trans xs (sink greater gap (i + 1) (i - gap) xs) _ one
        (gap_pass-Same gap left (i + 1) _ pos (omega (arith, g)) (omega (arith, l, one.0)))

  pub gap_loop-Same :
      (fuel gap : ℕ) (xs : List ℕ) → gap ≤ length xs → Same xs (gap_loop greater fuel gap xs)
  unfolding gap_loop
  gap_loop-Same zero gap xs l = (refl, λ a. refl)
  gap_loop-Same (suc fuel) gap xs l =
      if-cases (Same xs) (gap == 0) _ _ (λ e. (refl, λ a. refl))
        (λ e.
          let one =
            gap_pass-Same gap (length xs - gap) gap xs (ground (arith, e)) (omega arith)
              (omega (arith, l)) in
          Same-trans xs (gap_pass greater gap (length xs - gap) gap xs) _ one
            (gap_loop-Same fuel (gap / 3) _ (omega (arith, l, one.0))))
