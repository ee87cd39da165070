-- ===== src/Parser/Select.antt =====
-- compiler/parser/llselect.c: the sets that an LL(1) parser selects productions by.
pub mod Correct
use cgkits.Prelude.{if◌then◌else◌, ℕ, List, map}
use cgkits.Set.{SetS, set_new, remove}
use cgkits.Set.Ops.{union_op, set_op}
use cgkits.Parser.Grammar.{Production, Grammar, Sets, epsilon}
use cgkits.Parser.First.{first_rhs}

-- The body of the loop in `find_select_set`, for a production with the set `select`.
pub select_set : Grammar → Sets → SetS → List ℕ → SetS → SetS
select_set g firsts follow rhs select =
    let (vanishes, led) = first_rhs g firsts select rhs in
    remove (if vanishes then set_op union_op led follow else led) (epsilon g)

-- `find_select_set` on productions that were made with empty sets.
pub find_select_set : Grammar → Sets → SetS → List Production → List SetS
unfolding select_set
find_select_set g firsts follow ps = map (λ p. select_set g firsts follow p.rhs set_new) ps
