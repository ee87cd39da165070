-- ===== src/Parser/Grammar.antt =====
-- Symbols and productions: compiler/parser/parser.h. A pointer to a symbol is the symbol's value,
-- which `g_terms` leads back from; a symbol table is the list of its symbols in the order in which
-- `hash_print_tab` visits them. The sets of a symbol are kept apart from it, as a function of its
-- value.
use cgkits.Prelude.{leb, ◌==◌, if◌then◌else◌, ℕ, ◌+◌, Bool, ◌&&◌, List}
use cgkits.Set.{SetS, member}

-- `MINTERM`, `MAXTERM`, `MINNONTERM`, `MAXNONTERM` and `MINACT`.
abbrev pub min_term : ℕ
min_term = 1

abbrev pub max_term : ℕ
max_term = 254

abbrev pub min_nonterm : ℕ
min_nonterm = 256

abbrev pub max_nonterm : ℕ
max_nonterm = 511

abbrev pub min_act : ℕ
min_act = 512

-- `ISTERM`, `ISNONTERM` and `ISACT` of a symbol that is not NULL.
abbrev pub is_term : ℕ → Bool
is_term x = leb min_term x && leb x max_term

abbrev pub is_nonterm : ℕ → Bool
is_nonterm x = leb min_nonterm x && leb x max_nonterm

abbrev pub is_act : ℕ → Bool
is_act x = leb min_act x

-- The struct `prod_`: its right-hand side, whose length is `rhs_len`, and how many elements of it
-- are not actions.
pub record Production : Type 0 where
  pub rhs : List ℕ
  pub non_acts : ℕ

-- The struct `symbol_`: its value and its right-hand sides.
pub record Symbol : Type 0 where
  pub val : ℕ
  pub productions : List Production

-- `g_symtab`, and `g_currterm`, the value of the last terminal.
pub record Grammar : Type 0 where
  pub symtab : List Symbol
  pub currterm : ℕ

-- The field `first` (or `follow`) of each symbol.
abbrev pub Sets : Type 0
Sets = ℕ → SetS

-- `EPSILON`.
abbrev pub epsilon : Grammar → ℕ
epsilon g = g.currterm + 1

-- `NULLABLE`.
abbrev pub nullable : Grammar → Sets → ℕ → Bool
nullable g firsts x = is_nonterm x && member (firsts x) (epsilon g)

-- A write through the field of one symbol.
abbrev pub update : Sets → ℕ → SetS → Sets
update sets v s w = if v == w then s else sets w
