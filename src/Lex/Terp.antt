-- ===== src/Lex/Terp.antt =====
-- compiler/lex/terp.c: the simulation of the NFA, by `e_closure` and `move`.
pub mod Closure
pub mod Loop
pub mod Lowest
pub mod Result
pub mod Move
use cgkits.Prelude.{
  ltb, ◌==◌, if◌then◌else◌, length, ℕ, zero, suc, ◌+◌, ◌-◌, ◌^◌, Bool, false, ◌&&◌, Option, none,
  some, List, [], ◌∷◌, reverse,
}
use cgkits.Set.{SetS, set_new, add, member, test}
use cgkits.Set.Cursor.{reset, elements}
use cgkits.Lex.Nfa.{epsilon, ccl, empty, char, NfaState, Nfa, state_at, is_epsilon}

-- `INT_MAX`.
abbrev pub int_max : ℕ
int_max = 2 ^ 31 - 1

-- The variables of the loop in `e_closure`: the set, which is grown in place, the stack with its
-- top first, `accept_num`, and the two results that the caller passed by address.
pub record Closing : Type 0 where
  pub set : SetS
  pub stack : List ℕ
  pub accept_num : ℕ
  pub accept : Option ℕ
  pub anchor : ℕ

-- `for(set_next_member(NULL); (i = set_next_member(input)) >= 0;) *++tos = i`: the members, the
-- last one on top.
pub push_members : SetS → List ℕ
push_members input =
    reverse (elements (input.nbits + 1) (reset (record { last = none; current = 0 })) 0 input)

-- `if(p->next)` and `if(p->next2)`: a new state goes into the set and on the stack.
pub push_state : Option ℕ → Closing → Closing
push_state none c = c
push_state (some i) c =
    if member c.set i then c else record c { set = add c.set i; stack = i ∷ c.stack }

-- An accepting state that is lower than those before takes their place.
pub note_accept : NfaState → ℕ → Closing → Closing
note_accept p i c = elim p.accept [
  | none ↦ c
  | some a ↦
      if ltb i c.accept_num
      then record c { accept_num = i; accept = some a; anchor = p.anchor }
      else c
]

-- The body of `while(INBOUNDS(stack, tos))`, after `i` was popped.
pub close_state : Nfa → ℕ → Closing → Closing
unfolding push_state note_accept
close_state nfa i c =
    let p = state_at nfa i in
    let noted = note_accept p i c in
    if is_epsilon p.edge then push_state p.next2 (push_state p.next noted) else noted

-- The loop, which ends when the stack is empty.
pub close_loop : Nfa → ℕ → Closing → Closing
close_loop nfa zero c = c
close_loop nfa (suc fuel) c = elim c.stack [
  | [] ↦ c
  | i ∷ rest ↦ close_loop nfa fuel (close_state nfa i (record c { stack = rest }))
]

pub close_start : SetS → ℕ → Closing
unfolding push_members
close_start input anchor = record {
  set = input;
  stack = push_members input;
  accept_num = int_max;
  accept = none;
  anchor = anchor;
}

-- `e_closure` of a set that is not NULL. `anchor` is what `*anchor` holds before the call, which
-- stays where no state accepts. Each state is popped once, so as many rounds as there are states
-- are enough.
pub e_closure : Nfa → SetS → ℕ → Closing
unfolding close_loop close_start
e_closure nfa input anchor = close_loop nfa (length nfa) (close_start input anchor)

-- `p->edge == c || (p->edge == CCL && SET_TEST(p->bitset, c))`.
pub edge_matches : NfaState → ℕ → Bool
edge_matches p c = elim p.edge [
  | epsilon ↦ false
  | ccl ↦ test p.bitset c
  | empty ↦ false
  | char a ↦ a == c
]

-- `if(!outset) outset = set_new(); SET_ADD(outset, p->next - _nfa)`. A NULL `next` has no index;
-- a state with a character or a class for its edge always has one.
pub add_target : Option ℕ → Option SetS → Option SetS
add_target none outset = outset
add_target (some j) none = some (add set_new j)
add_target (some j) (some s) = some (add s j)

-- `for(i = _nstates; --i >= 0;)`.
pub move_loop : Nfa → SetS → ℕ → ℕ → Option SetS → Option SetS
unfolding edge_matches add_target
move_loop nfa inp_set c zero outset = outset
move_loop nfa inp_set c (suc i) outset =
    let p = state_at nfa i in
    move_loop nfa inp_set c i
      (if member inp_set i && edge_matches p c then add_target p.next outset else outset)

-- `move`; `none` is NULL.
unfoldable pub move : Nfa → SetS → ℕ → Option SetS
unfolding move_loop
move nfa inp_set c = move_loop nfa inp_set c (length nfa) none
