-- ===== src/Tests/Hash.antt =====
-- The theorems about compiler/lib/hash.c at a concrete table.
use cgkits.Prelude.{
  ◌==◌, if◌then◌else◌, length, ℕ, zero, suc, ◌%◌, ◌^◌, ◌<◌, ◌≡◌, refl, ◌≢◌, true, false, none, some,
  List, [], ◌∷◌, arith,
}
use cgkits.Hash.Pjw.{hash_pjw-lt}
use cgkits.Hash.{
  hash_pjw, slot, next_of, HashTab, update, hash_del_sym, hash_add_sym, hash_find_sym,
  hash_print_tab,
}
use cgkits.Hash.Chain.{elem, distinct, remove_one, IsChain}
use cgkits.Hash.Table.{IsTable, find_first, all_lists, refines_lists}

-- Two buckets; the symbols 4 and 6 are in the first one.
abbrev two_syms : HashTab
two_syms = record {
  max_size = 2;
  curr_num = 2;
  table = λ i. if i == 0 then some 4 else none;
  next = λ a. if a == 4 then some 6 else none;
  prev = λ a. if a == 4 then slot 0 else next_of 4;
}

abbrev two_lists : ℕ → List ℕ
two_lists zero = 4 ∷ 6 ∷ []
two_lists (suc i) = []

two_syms-IsTable : IsTable two_syms two_lists
two_syms-IsTable = record {
  chains = λ i l. chain i l;
  once = λ i l. one i;
  apart = λ i j a li lj ne m. other i j a ne m;
}
  where
    chain : (i : ℕ) → i < 2 → IsChain two_syms (slot i) (two_lists i)
    chain zero l = (refl, refl, (refl, refl, refl))
    chain (suc zero) l = refl
    chain (suc (suc i)) l = absurd (omega arith)

    one : (i : ℕ) → distinct (two_lists i) ≡ true
    one zero = refl
    one (suc i) = refl

    other : (i j a : ℕ) → i ≢ j → elem a (two_lists i) ≡ true → elem a (two_lists j) ≡ false
    other zero zero a ne m = absurd (ne refl)
    other zero (suc j) a ne m = refl
    other (suc i) j a ne m = absurd cc

two_lists-short : (j : ℕ) → j < 2 → length (two_lists j) < 3
two_lists-short zero l = omega arith
two_lists-short (suc j) l = omega arith

-- The hash value of a symbol is the symbol, and symbols are compared as numbers.
refines_lists_example :
    ((new : ℕ)
      → ((i : ℕ) → i < 2 → elem new (two_lists i) ≡ false)
      → IsTable
          (hash_add_sym (λ s. s) new two_syms)
          (update two_lists (new % 2) (new ∷ two_lists (new % 2))))
    × ((h old : ℕ)
        → h < 2
        → elem old (two_lists h) ≡ true
        → IsTable (hash_del_sym old two_syms) (update two_lists h (remove_one old (two_lists h))))
    × ((s : ℕ)
        → hash_find_sym (λ s. s) (λ a b. a == b) 3 two_syms s
          ≡ find_first (λ a b. a == b) s (two_lists (s % 2)))
    × (hash_print_tab 3 two_syms ≡ all_lists two_lists 0 2)
refines_lists_example =
    refines_lists two_syms two_lists (λ s. s) (λ a b. a == b) 3 two_syms-IsTable (omega arith)
      two_lists-short

hash_pjw-lt_example : hash_pjw (97 ∷ 98 ∷ []) < 2 ^ 28
hash_pjw-lt_example = hash_pjw-lt (97 ∷ 98 ∷ [])
