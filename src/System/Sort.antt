-- ===== src/System/Sort.antt =====
-- `sys_ssort` of compiler/lib/syslib.c, a Shell sort of pointers. `greater a b` is whether the
-- comparison of `a` with `b` is positive.
pub mod Counted
pub mod Sorted
use cgkits.Prelude.{
  leb, ◌==◌, if◌then◌else◌, length, set, get_or, ℕ, zero, suc, ◌+◌, ◌-◌, ◌*◌, ◌/◌, Bool, List,
}

abbrev pub at : List ℕ → ℕ → ℕ
at xs i = get_or xs i 0

-- The exchange of `*p1` and `*p2`.
abbrev pub swap : List ℕ → ℕ → ℕ → List ℕ
swap xs i j = set (set xs i (at xs j)) j (at xs i)

-- `for(gap = 1; gap <= nel; gap = 3*gap + 1)`, with fuel. The gap is a number, so
-- this is the code's `int` for fewer than about `2 ^ 31 / 3` elements.
pub first_gap : ℕ → ℕ → ℕ → ℕ
first_gap zero gap nel = gap
first_gap (suc fuel) gap nel =
    let rest = first_gap fuel (3 * gap + 1) nel in if leb gap nel then rest else gap

module _ (greater : ℕ → ℕ → Bool) where
  -- The loop over `j`.
  pub sink : ℕ → ℕ → ℕ → List ℕ → List ℕ
  sink gap zero j xs = xs
  sink gap (suc fuel) j xs =
      let ys = swap xs j (j + gap) in
      let rest = sink gap fuel (j - gap) ys in
      if greater (at xs j) (at xs (j + gap)) then if leb gap j then rest else ys else xs

  -- The loop over `i`, with the number of rounds that are left.
  pub gap_pass : ℕ → ℕ → ℕ → List ℕ → List ℕ
  unfolding sink
  gap_pass gap zero i xs = xs
  gap_pass gap (suc left) i xs = gap_pass gap left (i + 1) (sink gap (i + 1) (i - gap) xs)

  -- The loop over the gaps, with fuel.
  pub gap_loop : ℕ → ℕ → List ℕ → List ℕ
  unfolding gap_pass
  gap_loop zero gap xs = xs
  gap_loop (suc fuel) gap xs =
      let rest = gap_loop fuel (gap / 3) (gap_pass gap (length xs - gap) gap xs) in
      if gap == 0 then xs else rest

  pub sys_ssort : List ℕ → List ℕ
  unfolding gap_loop first_gap
  sys_ssort xs =
      let gap = first_gap (length xs + 1) 1 (length xs) in gap_loop (gap + 1) (gap / 3) xs
