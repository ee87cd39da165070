-- ===== src/System/Pairs/Cells.antt =====
-- The number that `sys_pairs` of compiler/lib/syslib.c returns.
use mathlib.Core.Path.{ap₂}
use cgkits.Prelude.{
  ltb, ◌==◌, Bool-cases, length, ℕ, ◌+◌, ◌*◌, ◌≡◌, refl, inl, inr, Option, none, some, List, [],
  ◌∷◌, arith,
}
use cgkits.System.Pairs.{Cell, transitions, pairs_from, row_array, row_cells, num_cells, sys_pairs}

-- The cells of the arrays, counted as they stand there.
cells_of : Option (List Cell) → ℕ
cells_of none = 0
cells_of (some cells) = length cells

pub total_cells : List (Option (List Cell)) → ℕ
unfolding cells_of
total_cells [] = 0
total_cells (a ∷ arrays) = cells_of a + total_cells arrays

length-pairs_from : (row : List Cell) (j : ℕ) → length (pairs_from j row) ≡ 2 * transitions row
unfolding pairs_from transitions
length-pairs_from [] j = refl
length-pairs_from (none ∷ row) j = length-pairs_from row (j + 1)
length-pairs_from (some s ∷ row) j = omega (arith, length-pairs_from row (j + 1))

row_cells_lem :
    (threshold : ℕ) (row : List Cell) → row_cells threshold row ≡ cells_of (row_array threshold row)
unfolding row_cells cells_of row_array
row_cells_lem threshold row = elim (Bool-cases (transitions row == 0)) [
  | inl e ↦ rw e refl
  | inr e ↦ rw e (elim (Bool-cases (ltb threshold (transitions row))) [
    | inl f ↦ rw f (omega arith)
    | inr f ↦ rw f (omega (arith, length-pairs_from row 0))
  ])
]

-- `sys_pairs` returns the number of cells of the arrays that it writes.
pub sys_pairs-total_cells :
    (threshold : ℕ) (rows : List (List Cell))
    → (sys_pairs threshold rows).1 ≡ total_cells (sys_pairs threshold rows).0.arrays
unfolding sys_pairs num_cells total_cells
sys_pairs-total_cells threshold [] = refl
sys_pairs-total_cells threshold (row ∷ rows) =
    ap₂ (λ a b. a + b) (row_cells_lem threshold row) (sys_pairs-total_cells threshold rows)
