-- ===== src/System/Pairs.antt =====
-- `sys_pairs` of compiler/lib/syslib.c, which writes a compressed table, and the subroutine
-- `yy_next` that `sys_pnext` prints for it. What is written is given as the arrays and their cells,
-- without the layout of the text. A cell that is `none` holds -1, which stands for no transition;
-- the other entries of a table are not negative. The arrays are declared as `YY_TTYPE`, which is
-- `unsigned char` in the templates of the generated programs (libary/lex.m and libary/llama.m), so
-- what the subroutine reads from a cell is the low eight bits of what was written.
pub mod Lookup
pub mod Cells
use cgkits.Prelude.{
  ltb, ◌==◌, if◌then◌else◌, length, get_elem?, get_or, ℕ, zero, suc, ◌+◌, ◌*◌, ◌%◌, ◌^◌, Option,
  none, some, List, [], ◌∷◌, map,
}

abbrev pub Cell : Type 0
Cell = Option ℕ

-- A cell as the compiled array holds it, and `YYF`, which is -1 as a `YY_TTYPE`.
pub to_ttype : Cell → ℕ
to_ttype none = 255
to_ttype (some s) = s % 2 ^ 8

abbrev pub yyf : ℕ
yyf = 255

-- The loop that counts `ntransitions`.
unfoldable pub transitions : List Cell → ℕ
transitions [] = 0
transitions (none ∷ row) = transitions row
transitions (some s ∷ row) = suc (transitions row)

-- The character/next pairs of a row, from column `j` on.
pub pairs_from : ℕ → List Cell → List Cell
pairs_from j [] = []
pairs_from j (none ∷ row) = pairs_from (j + 1) row
pairs_from j (some s ∷ row) = some j ∷ some s ∷ pairs_from (j + 1) row

-- The array of one row; a row without transitions has none.
pub row_array : ℕ → List Cell → Option (List Cell)
unfolding transitions pairs_from
row_array threshold row =
    let ntransitions = transitions row in
    if ntransitions == 0
    then none
    else if ltb threshold ntransitions
    then some (some 0 ∷ row)
    else some (some ntransitions ∷ pairs_from 0 row)

-- What `num_cells` grows by in a row: one for the count, and one for each column of the array, or
-- two for each pair.
pub row_cells : ℕ → List Cell → ℕ
unfolding transitions
row_cells threshold row =
    let ntransitions = transitions row in
    if ntransitions == 0
    then 0
    else if ltb threshold ntransitions
    then 1 + length row
    else 1 + 2 * ntransitions

pub num_cells : ℕ → List (List Cell) → ℕ
unfolding row_cells
num_cells threshold [] = 0
num_cells threshold (row ∷ rows) = row_cells threshold row + num_cells threshold rows

-- The table of pointers: `none` is `NULL`, `some i` the name of array `i`. The last row has the name
-- in any case.
pub pointers_from : ℕ → List (List Cell) → List (Option ℕ)
unfolding transitions
pointers_from i [] = some i ∷ []
pointers_from i (row ∷ []) = some i ∷ []
pointers_from i (row ∷ row' ∷ rows) =
    (if transitions row == 0 then none else some i) ∷ pointers_from (i + 1) (row' ∷ rows)

-- The generated text: `arrays` has the array of each row that has one.
pub record Written : Type 0 where
  pub arrays : List (Option (List Cell))
  pub pointers : List (Option ℕ)

pub sys_pairs : ℕ → List (List Cell) → Written × ℕ
unfolding row_array pointers_from num_cells
sys_pairs threshold rows = (
  record { arrays = map (row_array threshold) rows; pointers = pointers_from 0 rows },
  num_cells threshold rows,
)

-- What a call of `yy_next` comes to: the value that it returns, or a read past the last pointer, the
-- name of an array that is not declared, or a read past the end of an array.
pub data Found : Type 0 where
  found : ℕ → Found
  no_pointer : Found
  undeclared : ℕ → Found
  outside : Found

-- The loop of `yy_next` over the pairs.
pub find_pair : ℕ → List Cell → ℕ → Found
unfolding to_ttype
find_pair zero cells c = found yyf
find_pair (suc i) [] c = outside
find_pair (suc i) (a ∷ []) c = outside
find_pair (suc i) (a ∷ b ∷ cells) c =
    let rest = find_pair i cells c in if c == to_ttype a then found (to_ttype b) else rest

-- `p[c]`.
pub index : List Cell → ℕ → Found
unfolding to_ttype
index cells c = elim (get_elem? cells c) [ none ↦ outside | some a ↦ found (to_ttype a) ]

-- `yy_next` on the array that `p` points to.
pub next_in : List Cell → ℕ → Found
unfolding find_pair index
next_in [] c = outside
next_in (a ∷ cells) c = let i = to_ttype a in if i == 0 then index cells c else find_pair i cells c

pub yy_next : Written → ℕ → ℕ → Found
unfolding next_in
yy_next table state c = elim (get_elem? table.pointers state) [
  | none ↦ no_pointer
  | some none ↦ found yyf
  | some (some i) ↦ elim (get_or table.arrays i none) [
    | none ↦ undeclared i
    | some cells ↦ next_in cells c
  ]
]
