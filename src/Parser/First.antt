-- ===== src/Parser/First.antt =====
-- compiler/parser/first.c: FIRST sets.
pub mod Closure
pub mod Begins
pub mod Missing
pub mod Step
pub mod Invariant
pub mod Passes
pub mod Correct
use cgkits.Prelude.{
  ◌==◌, if◌then◌else◌, set, ℕ, zero, suc, Bool, true, false, not, ◌||◌, Option, none, some, List,
  [], ◌∷◌,
}
use cgkits.Set.{SetS, add}
use cgkits.Set.Ops.{union_op, assign_op, set_op, is_equiv}
use cgkits.Parser.Grammar.{
  is_term, is_nonterm, is_act, Production, Symbol, Grammar, Sets, epsilon, nullable, update,
}

-- The loop over a right-hand side in `first_closure`, which is that of `first_rhs` as well; whether
-- it came to the end, which is what `first_rhs` returns.
pub first_loop : Grammar → Sets → List ℕ → SetS → Bool × SetS
first_loop g firsts [] dest = (true, dest)
first_loop g firsts (y ∷ ys) dest =
    let added =
      if is_act y
      then dest
      else if is_term y
      then add dest y
      else set_op union_op dest (firsts y) in
    let rest = first_loop g firsts ys added in
    if is_act y || nullable g firsts y then rest else (false, added)

-- `first_rhs`.
pub first_rhs : Grammar → Sets → SetS → List ℕ → Bool × SetS
unfolding first_loop
first_rhs g firsts dest [] = (true, add dest (epsilon g))
first_rhs g firsts dest (y ∷ ys) = first_loop g firsts (y ∷ ys) dest

-- One round of the loop over the productions in `first_closure`.
pub close_production : Grammar → Sets → Production → SetS → SetS
unfolding first_loop
close_production g firsts p set =
    if p.non_acts == 0 then add set (epsilon g) else (first_loop g firsts p.rhs set).1

pub close_productions : Grammar → Sets → List Production → SetS → SetS
unfolding close_production
close_productions g firsts [] set = set
close_productions g firsts (p ∷ ps) set =
    close_productions g firsts ps (close_production g firsts p set)

-- What the passes change: the FIRST sets, the `static` set of `first_closure`, `_did_somthing`.
pub record Firsts : Type 0 where
  pub firsts : Sets
  pub scratch : SetS
  pub did_something : Bool

-- `first_closure`.
pub first_closure : Grammar → Symbol → Firsts → Firsts
unfolding close_productions
first_closure g lhs f =
    if not (is_nonterm lhs.val)
    then f
    else let set =
        close_productions g f.firsts lhs.productions
          (set_op assign_op f.scratch (f.firsts lhs.val)) in
      if is_equiv set (f.firsts lhs.val) then record f { scratch = set } else record {
        firsts = update f.firsts lhs.val (set_op assign_op (f.firsts lhs.val) set);
        scratch = set;
        did_something = true;
      }

-- `hash_print_tab(g_symtab, first_closure, NULL, 0)`.
pub first_pass : Grammar → List Symbol → Firsts → Firsts
unfolding first_closure
first_pass g [] f = f
first_pass g (s ∷ ss) f = first_pass g ss (first_closure g s f)

-- `do { ... } while(_did_somthing)`; `none` when the fuel runs out.
pub first : Grammar → ℕ → Firsts → Option Firsts
unfolding first_pass
first g zero f = none
first g (suc fuel) f =
    let f' = first_pass g g.symtab (record f { did_something = false }) in
    if f'.did_something then first g fuel f' else some f'
