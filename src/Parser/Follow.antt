-- ===== src/Parser/Follow.antt =====
-- compiler/parser/llfollow.c: FOLLOW sets. `goal` is `g_goal_symbol`, by its value.
pub mod Init
pub mod Trails
pub mod Step
pub mod Passes
pub mod Rules
pub mod Correct
use cgkits.Prelude.{
  ◌==◌, if◌then◌else◌, ℕ, zero, suc, Bool, true, false, not, ◌||◌, Option, none, some, List, [],
  ◌∷◌,
}
use cgkits.Set.{SetS, add, remove}
use cgkits.Set.Ops.{union_op, set_op, set_subset}
use cgkits.Parser.Grammar.{
  is_term, is_nonterm, is_act, Production, Symbol, Grammar, Sets, epsilon, nullable, update,
}

-- `_EOI_`.
abbrev pub eoi : ℕ
eoi = 0

-- The loop over `y` in `init`: what the symbols after `*x` add to FOLLOW(x). It goes on past
-- actions and nullable nonterminals.
pub after_loop : Grammar → Sets → List ℕ → SetS → SetS
after_loop g firsts [] follow = follow
after_loop g firsts (y ∷ ys) follow =
    let grown =
      if is_act y
      then follow
      else if is_term y
      then add follow y
      else set_op union_op follow (firsts y) in
    let rest = after_loop g firsts ys grown in
    if is_act y || nullable g firsts y then rest else grown

-- The loop over `x` in `init`.
pub init_rhs : Grammar → Sets → List ℕ → Sets → Sets
unfolding after_loop
init_rhs g firsts [] follows = follows
init_rhs g firsts (x ∷ xs) follows =
    init_rhs g firsts xs
      (if is_nonterm x then update follows x (after_loop g firsts xs (follows x)) else follows)

pub init_productions : Grammar → Sets → List Production → Sets → Sets
unfolding init_rhs
init_productions g firsts [] follows = follows
init_productions g firsts (p ∷ ps) follows =
    init_productions g firsts ps (init_rhs g firsts p.rhs follows)

-- `init`.
pub init : Grammar → Sets → ℕ → Symbol → Sets → Sets
unfolding init_productions
init g firsts goal lhs follows =
    if not (is_nonterm lhs.val)
    then follows
    else init_productions g firsts lhs.productions
        (if lhs.val == goal then update follows goal (add (follows goal) eoi) else follows)

pub init_pass : Grammar → Sets → ℕ → List Symbol → Sets → Sets
unfolding init
init_pass g firsts goal [] follows = follows
init_pass g firsts goal (s ∷ ss) follows = init_pass g firsts goal ss (init g firsts goal s follows)

-- The FOLLOW sets and `_did_something`.
pub record Follows : Type 0 where
  pub follows : Sets
  pub did_something : Bool

-- The body of the loop over `x` in `follow_closure`, up to the test that may leave the loop.
pub close_symbol : ℕ → ℕ → Follows → Follows
close_symbol lhs x f =
    if is_act x || is_term x
    then f
    else if set_subset (f.follows x) (f.follows lhs)
    then f
    else record {
      follows = update f.follows x (set_op union_op (f.follows x) (f.follows lhs));
      did_something = true;
    }

-- The loop itself, which comes from the end of the right-hand side: whether it gets past the
-- symbols, and what it has changed by then.
pub close_rhs : Grammar → Sets → ℕ → List ℕ → Follows → Bool × Follows
unfolding close_symbol
close_rhs g firsts lhs [] f = (true, f)
close_rhs g firsts lhs (x ∷ xs) f =
    let behind = close_rhs g firsts lhs xs f in
    if behind.0 then (is_act x || nullable g firsts x, close_symbol lhs x behind.1) else behind

pub close_all : Grammar → Sets → ℕ → List Production → Follows → Follows
unfolding close_rhs
close_all g firsts lhs [] f = f
close_all g firsts lhs (p ∷ ps) f = close_all g firsts lhs ps (close_rhs g firsts lhs p.rhs f).1

-- `follow_closure`.
pub follow_closure : Grammar → Sets → Symbol → Follows → Follows
unfolding close_all
follow_closure g firsts lhs f =
    if is_act lhs.val || is_term lhs.val then f else close_all g firsts lhs.val lhs.productions f

pub follow_pass : Grammar → Sets → List Symbol → Follows → Follows
unfolding follow_closure
follow_pass g firsts [] f = f
follow_pass g firsts (s ∷ ss) f = follow_pass g firsts ss (follow_closure g firsts s f)

-- `do { ... } while(_did_something)`; `none` when the fuel runs out.
pub follow_loop : Grammar → Sets → ℕ → Follows → Option Sets
unfolding follow_pass
follow_loop g firsts zero f = none
follow_loop g firsts (suc fuel) f =
    let f' = follow_pass g firsts g.symtab (record f { did_something = false }) in
    let rest = follow_loop g firsts fuel f' in if f'.did_something then rest else some f'.follows

-- `remove_epsilon`, on one symbol and on all.
pub remove_epsilon : Grammar → Symbol → Sets → Sets
remove_epsilon g lhs follows =
    if is_nonterm lhs.val
    then update follows lhs.val (remove (follows lhs.val) (epsilon g))
    else follows

pub remove_pass : Grammar → List Symbol → Sets → Sets
unfolding remove_epsilon
remove_pass g [] follows = follows
remove_pass g (s ∷ ss) follows = remove_pass g ss (remove_epsilon g s follows)

-- `follow`.
pub follow : Grammar → Sets → ℕ → ℕ → Sets → Option Sets
unfolding init_pass follow_loop remove_pass
follow g firsts goal fuel follows =
    elim (follow_loop g firsts fuel
      (record { follows = init_pass g firsts goal g.symtab follows; did_something = false })) [
        | none ↦ none
        | some sets ↦ some (remove_pass g g.symtab sets)
      ]
