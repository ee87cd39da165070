-- ===== src/Tests/Sets.antt =====
-- The theorems about compiler/lib/set.c at concrete sets.
use cgkits.Prelude.{
  ltb, ◌==◌, ℕ, ◌+◌, ◌≡◌, ◌∙◌, ◌≢◌, ◌↔◌, ◌⊎◌, inl, true, not, ◌&&◌, ◌||◌, none, some, arith,
}
use cgkits.Bits.{bit_and}
use cgkits.Set.{all_ones, SetS, set_new, set_dup, add, remove, member, test, complement}
use cgkits.Set.Valid.{IsValid}
use cgkits.Set.Member.{
  add-IsValid, member-add, remove-IsValid, member-remove, set_new-IsValid, set_dup_lem,
  test-complement, compl-add, compl-set_new, member-set_new, complement-IsValid, complement-set_new,
}
use cgkits.Set.Ops.{
  difference_op, set_op, set_subset, set_compare, is_equiv, equiv, disj, inter, set_test, set_hash,
  set_invert,
}
use cgkits.Set.Ops.Binary.{op_meaning, member-set_op}
use cgkits.Set.Ops.Compare.{set_compare_iff}
use cgkits.Set.Ops.Subset.{set_subset_iff}
use cgkits.Set.Ops.Invert.{member-set_invert}
use cgkits.Set.Ops.Test.{Passes, word_at, set_test_cases, set_test_shared}
use cgkits.Set.Ops.Hash.{set_hash_of_equiv}
use cgkits.Set.Count.{set_num_ele, count_range, set_num_ele_lem}
use cgkits.Set.Cursor.{Cursor, reset, set_next_member, elements, set_print}
use cgkits.Set.Cursor.Enumerate.{
  list_range, elements_lem, items_or_empty, set_print_lem, set_next_member_complemented,
}

-- `{3}`, and `{3, 600}`, which is larger than the default size.
abbrev three : SetS
three = add set_new 3

abbrev large : SetS
large = add three 600

three-IsValid : IsValid three
three-IsValid = add-IsValid set_new 3 set_new-IsValid

large-IsValid : IsValid large
large-IsValid = add-IsValid three 600 three-IsValid

abbrev start : Cursor
start = record { last = none; current = 0 }

member-add_example : member large 3 ≡ (600 == 3 || member three 3)
member-add_example = member-add three 600 3 three-IsValid

member-remove_example : member (remove large 600) 600 ≡ (not (600 == 600) && member large 600)
member-remove_example = member-remove large 600 600 large-IsValid

member-set_op_example :
    IsValid (set_op difference_op three large)
    × (member (set_op difference_op three large) 600
        ≡ op_meaning difference_op (member three 600) (member large 600))
member-set_op_example = member-set_op difference_op three large 600 three-IsValid large-IsValid

set_compare_iff_example :
    ((set_compare three large ≡ 0) ↔ ((x : ℕ) → member three x ≡ member large x))
    × ((is_equiv three large ≡ true) ↔ ((x : ℕ) → member three x ≡ member large x))
set_compare_iff_example = set_compare_iff three large three-IsValid large-IsValid

set_subset_iff_example :
    (set_subset three large ≡ true) ↔ ((x : ℕ) → member large x ≡ true → member three x ≡ true)
set_subset_iff_example = set_subset_iff three large three-IsValid large-IsValid

set_num_ele_lem_example : set_num_ele large ≡ count_range 0 large.nbits (member large)
set_num_ele_lem_example = set_num_ele_lem large large-IsValid

large_plain : large.compl ≡ 0
large_plain = compl-add three 600 ∙ (compl-add set_new 3 ∙ compl-set_new)

elements_lem_example :
    elements (large.nbits + 1) (reset start) 7 large ≡ list_range 0 large.nbits (member large)
elements_lem_example = elements_lem large large-IsValid large_plain start 7

set_print_lem_example :
    set_print start 7 (some large) ≡ items_or_empty (list_range 0 large.nbits (member large))
set_print_lem_example = set_print_lem large start 7 large-IsValid large_plain

-- All elements but none: the complement of the empty set.
abbrev everything : SetS
everything = complement set_new

everything-IsValid : IsValid everything
everything-IsValid = complement-IsValid set_new set_new-IsValid

set_next_member_complemented_example :
    (test everything 5 ≡ true) × ((set_next_member (reset start) 7 everything).0 ≢ some 5)
set_next_member_complemented_example =
    set_next_member_complemented everything start 7 5 everything-IsValid complement-set_new.0
      complement-set_new.1 (omega arith)

set_test_cases_example :
    (((x : ℕ) → member three x ≡ member large x) → (set_test three large).0 ≡ equiv)
    × ((i : ℕ)
        → word_at three i ≢ word_at large i
        → bit_and (word_at three i) (word_at large i) ≢ 0
        → (set_test three large).0 ≡ inter)
    × ((i : ℕ)
        → word_at three i ≢ word_at large i
        → ((j : ℕ) → Passes (word_at three j) (word_at large j))
        → (set_test three large).0 ≡ disj)
    × IsValid (set_test three large).1
    × IsValid (set_test three large).2
set_test_cases_example = set_test_cases three large three-IsValid large-IsValid

set_test_shared_example :
    ((set_test (add set_new 3) (add (add set_new 3) 40)).0 ≡ disj)
    × (member (add set_new 3) 3 ≡ true)
    × (member (add (add set_new 3) 40) 3 ≡ true)
set_test_shared_example = set_test_shared 3 40 (omega arith)

-- The same members in sets of different sizes.
set_hash_of_equiv_example : set_hash three ≡ set_hash (remove large 600)
set_hash_of_equiv_example =
    set_hash_of_equiv three (remove large 600) three-IsValid
      (remove-IsValid large 600 large-IsValid)
      ((set_compare_iff three (remove large 600) three-IsValid
          (remove-IsValid large 600 large-IsValid)).1.1
        (λ x. ground (
          arith,
          member-remove large 600 x large-IsValid,
          member-add three 600 x three-IsValid,
          member-add set_new 3 x set_new-IsValid,
          member-set_new x,
        )))

member-set_invert_example :
    IsValid (set_invert three)
    × (member (set_invert three) 4 ≡ (ltb 4 three.nbits && not (member three 4)))
    × (member (set_invert (set_invert three)) 4 ≡ member three 4)
member-set_invert_example = member-set_invert three 4 three-IsValid

set_dup_lem_example :
    IsValid (set_dup large)
    × ((set_dup large).nbits ≡ large.nbits)
    × (member (set_dup large) 600 ≡ member large 600)
    × ((set_dup large).compl ≡ large.compl)
    × (test (set_dup large) 600 ≡ test large 600)
set_dup_lem_example = set_dup_lem large 600 large-IsValid

test-complement_example :
    (test (complement large) 3 ≡ not (test large 3))
    × (((complement large).compl ≡ 0) ⊎ ((complement large).compl ≡ all_ones))
test-complement_example = test-complement large 3 (inl large_plain)
