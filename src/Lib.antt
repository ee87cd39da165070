-- ===== src/Lib.antt =====
-- A verification library of cgkits, a kit of compiler generators in C.
--
-- The kit has a lexer generator (compiler/lex) and a parser generator (compiler/parser) over a
-- library of bit sets, hash tables and system functions (compiler/lib, include). The lexer
-- generator reads regular expressions, makes an NFA of them, turns the NFA into the table of a DFA
-- by the subset construction and prints the table. Sets of states are bit sets throughout. The
-- files here model the parts below, function by function; each function has the name that it has in
-- the source.
--
--   Prelude     the numbers, lists and Boolean tests that all files use
--   Bits        the operators &, | and ^ of `unsigned`
--   Set         compiler/lib/set.c and include/set.h: the struct SET_S and its operations
--   Set.Ops     the operations on whole sets: set_op, set_subset, set_compare, set_test, set_hash
--   Set.Count   set_num_ele with its table
--   Set.Cursor  set_next_member with its static variables, and set_print
--   Lex.Nfa     compiler/lex/nfa.h: the states of the NFA
--   Lex.Terp    compiler/lex/terp.c: e_closure and move
--   Lex.Dfa     compiler/lex/dfa.c: make_trans and the functions that it calls
--   Lex.MinDfa  compiler/lex/mindfa.c: init_groups, minimize, fix_dtran and min_dfa
--   Lex.Dodash  compiler/lex/nfa.c: dodash, which reads a character class
--   Parser.Grammar  compiler/parser/parser.h: symbols and productions
--   Parser.First    compiler/parser/first.c: first, first_closure and first_rhs
--   Parser.Select   compiler/parser/llselect.c: the select sets
--   Parser.Follow   compiler/parser/llfollow.c: follow with init and follow_closure
--   System.Escape  compiler/lib/syslib.c: sys_bin_to_ascii and sys_esc
--   System.Pairs   compiler/lib/syslib.c: sys_pairs, and yy_next as sys_pnext prints it
--   System.Sort    compiler/lib/syslib.c: sys_ssort
--   System.Numbers compiler/lib/syslib.c: sys_stoul, sys_stol and sys_memiset
--   System.Input   compiler/lib/input.c: the input buffer of generated lexers; System.Input.Read
--                  has the routines that read
--   Hash           compiler/lib/hash.c and include/hash.h: hash functions and hash tables
--   Tests       the theorems at concrete inputs
--
-- An `unsigned` is a natural number below 2 ^ 32, and a shift or a sum is cut to it where the
-- source can wrap; an `unsigned char` is cut to eight bits where an `int` is stored in it. Elements of sets and indices of states are nonnegative. A pointer to a state of
-- the NFA is its index, a NULL pointer is `none`. A function that changes a set in place returns
-- the set as it leaves it. The static variables of `set_next_member` and of dfa.c are records that
-- are passed along. `com_ferr`, which ends the process, is an outcome of its own.
--
-- `e_closure` runs one round per state of the NFA, since it pops a state at most once. `make_trans`
-- runs one round more than DFA_MAX, since a round marks a state. `elements`, the loop that calls
-- `set_next_member`, runs one round more than the set has bits. `first` and `follow` run 256 passes
-- for each symbol and one more, since a pass that is not the last adds one of 256 values to some
-- set. In mindfa.c the loop over a group has one round more than its set has bits, a pass over the
-- groups has a round for each state, and there is one pass more than states, since there are never
-- more groups than states and a pass that is not the last adds one.
-- `sys_ssort` runs a round for each number up to the first gap, which is more than there are gaps.
-- A walk along a chain of a hash table has fuel for the longest chain.
--
-- The function that reads from a file is a parameter of System.Input, with what is documented of it
-- as hypotheses of the theorems that need it.
--
-- Left out are allocation, which is taken to succeed, printing and debug output, the copy of
-- another project's garbage collector (gc), the generated files, and the parts that the library
-- does not reach: the rest of the construction of the NFA and of the system library, and of the
-- parser generator the reading of grammars, the tables and their output.
pub mod Prelude
pub mod Bits
pub mod Set
pub mod Lex
pub mod Parser
pub mod System
pub mod Hash
pub mod Tests
