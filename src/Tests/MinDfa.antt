-- ===== src/Tests/MinDfa.antt =====
-- The theorems about compiler/lex/mindfa.c at a concrete table.
use cgkits.Prelude.{
  ltb, length, get_or, replicate, ℕ, zero, suc, ◌≤◌, ◌<◌, ◌≡◌, refl, Bool, true, ◌&&◌, Option, none,
  some, List, [], ◌∷◌, arith,
}
use cgkits.Lex.Dfa.{Row, rows}
use cgkits.Lex.MinDfa.{
  Groups, Accept, string_of, init_groups, goto_at, split_group, refine, minimize,
}
use cgkits.Set.Cursor.{Cursor}
use cgkits.Lex.Dfa.Texts.{AreChars}
use cgkits.Lex.Dfa.Language.{table_run}
use cgkits.Lex.MinDfa.Language.{minimize_language}
use cgkits.Lex.MinDfa.Partition.{IsPartition, init_groups-IsPartition}
use cgkits.Lex.MinDfa.Group.{Refines}
use cgkits.Lex.MinDfa.Pass.{split_group_cases}
use cgkits.Lex.MinDfa.Refine.{IsStable, refine-IsStable}
use mathlib.Core.Option

abbrev two_moves : Option ℕ → Option ℕ → Row
two_moves a b = a ∷ b ∷ replicate 126 none

-- States 1 and 4 read the same texts, and so do 2 and 3.
abbrev five : List Row
five =
    two_moves (some 0) (some 0)
    ∷ two_moves (some 2) (some 0)
    ∷ two_moves (some 0) none
    ∷ two_moves (some 0) none
    ∷ two_moves (some 3) (some 0)
    ∷ []

abbrev same_action : List Accept
same_action = replicate 5 (some 7, 0)

abbrev fresh_cursor : Cursor
fresh_cursor = record { last = none; current = 0 }

abbrev row_below : ℕ → Row → Bool
row_below n [] = true
row_below n (none ∷ row) = row_below n row
row_below n (some t ∷ row) = ltb t n && row_below n row

abbrev rows_below : ℕ → List Row → Bool
rows_below n [] = true
rows_below n (row ∷ rows) = row_below n row && rows_below n rows

row_below-lt :
    (n : ℕ) (row : Row) (c t : ℕ) → row_below n row ≡ true → get_or row c none ≡ some t → t < n
row_below-lt n [] c t e q = absurd cc
row_below-lt n (none ∷ row) zero t e q = absurd cc
row_below-lt n (none ∷ row) (suc c) t e q = row_below-lt n row c t e q
row_below-lt n (some u ∷ row) zero t e q = ground (arith, e, q)
row_below-lt n (some u ∷ row) (suc c) t e q = row_below-lt n row c t (ground (arith, e)) q

rows_below-IsTable :
    (n x c t : ℕ) (rows : List Row) → rows_below n rows ≡ true → goto_at rows x c ≡ some t → t < n
rows_below-IsTable n x c t [] e q = absurd cc
rows_below-IsTable n zero c t (row ∷ rows) e q = row_below-lt n row c t (ground (arith, e)) q
rows_below-IsTable n (suc x) c t (row ∷ rows) e q =
    rows_below-IsTable n x c t rows (ground (arith, e)) q

abbrev no_groups : Groups
no_groups = record { groups = []; ingroup = λ i. 0; cursor = fresh_cursor }

refine-IsStable_example :
    (gs : Groups) × ((refine five 5 6 (init_groups same_action 5 no_groups) ≡ some gs)
      × IsStable five same_action 5 gs)
refine-IsStable_example =
    refine-IsStable five same_action 5 6 (init_groups same_action 5 no_groups)
      (init_groups-IsPartition same_action 5 no_groups refl) (omega arith)

split_group_cases_example :
    IsPartition same_action 5 (split_group five 0 (init_groups same_action 5 no_groups))
    × Refines five 5 0
        (init_groups same_action 5 no_groups)
        (split_group five 0 (init_groups same_action 5 no_groups))
split_group_cases_example =
    split_group_cases five same_action 5 (init_groups same_action 5 no_groups)
      (init_groups-IsPartition same_action 5 no_groups refl) 0 some_group
  where
    some_group : 0 < length (init_groups same_action 5 no_groups).groups
    some_group =
        let begun = init_groups-IsPartition same_action 5 no_groups refl in
        omega (arith, begun.within 0 (omega arith))

minimize_language_example :
    (r : List Row × List Accept) × ((minimize five same_action 5 fresh_cursor ≡ some r)
      × (length r.0 ≤ 5)
      × ((w : List ℕ)
          → AreChars w
          → Option.map (string_of r.1) (table_run r.0 w)
            ≡ Option.map (string_of same_action) (table_run five w)))
minimize_language_example =
    minimize_language five same_action 5 fresh_cursor (omega arith)
      (λ x c t l l' q. rows_below-IsTable 5 x c t five refl q)
