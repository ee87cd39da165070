-- ===== src/Lex/Dfa.antt =====
-- compiler/lex/dfa.c: the subset construction. The array `_dstates` is the list of the states that
-- are in use, `_dtran` the table of `DFA_MAX` rows, `_last_marked` an index. What the program
-- prints on the way is left out.
pub mod Label
pub mod Row
pub mod Marked
pub mod Rounds
pub mod Texts
pub mod Distinct
pub mod Full
pub mod Language
use cgkits.Prelude.{
  ltb, if◌then◌else◌, length, set, get_or, take, replicate, ℕ, zero, suc, ◌+◌, ◌-◌, Bool, true,
  false, Option, none, some, List, [], ◌∷◌, ◌++◌, map,
}
use cgkits.Set.{SetS, set_new, add}
use cgkits.Set.Ops.{is_equiv}
use cgkits.Lex.Nfa.{Nfa}
use cgkits.Lex.Terp.{Closing, e_closure, move}

-- `DFA_MAX` and `MAX_CHARS`.
abbrev pub dfa_max : ℕ
dfa_max = 254

abbrev pub max_chars : ℕ
max_chars = 128

pub record DfaState : Type 0 where
  pub mark : Bool
  pub accept : Option ℕ
  pub anchor : ℕ
  pub set : SetS

abbrev pub blank_dfa_state : DfaState
blank_dfa_state = record { mark = false; accept = none; anchor = 0; set = set_new }

abbrev pub dstate_at : List DfaState → ℕ → DfaState
dstate_at ds i = get_or ds i blank_dfa_state

-- A row has the next state for each character; `none` is `F`.
abbrev pub Row : Type 0
Row = List (Option ℕ)

pub record Dfa : Type 0 where
  pub dstates : List DfaState
  pub dtran : List Row
  pub last_marked : ℕ

-- `get_unmarked`, with the states that are left from `_last_marked` on: the state, if there is one,
-- and `_last_marked` afterwards.
pub unmarked_from : ℕ → List DfaState → ℕ → Option ℕ × ℕ
unmarked_from zero ds last = (none, last)
unmarked_from (suc left) ds last =
    let rest = unmarked_from left ds (last + 1) in
    if (dstate_at ds last).mark then rest else (some last, last)

pub get_unmarked : Dfa → Option ℕ × ℕ
unfolding unmarked_from
get_unmarked d = unmarked_from (length d.dstates - d.last_marked) d.dstates d.last_marked

-- `in_dstates`, from index `i` on; `none` is -1.
pub in_dstates : SetS → List DfaState → ℕ → Option ℕ
in_dstates nfa_set [] i = none
in_dstates nfa_set (d ∷ ds) i =
    let rest = in_dstates nfa_set ds (i + 1) in if is_equiv nfa_set d.set then some i else rest

-- `add_to_dstates`; `none` stands for the end of the program by `com_ferr`.
pub add_to_dstates : SetS → Option ℕ → ℕ → List DfaState → Option (ℕ × List DfaState)
add_to_dstates nfa_set accept anchor ds =
    if ltb (dfa_max - 1) (length ds)
    then none
    else some (
      length ds,
      ds ++ record { mark = false; accept = accept; anchor = anchor; set = nfa_set } ∷ [],
    )

-- The three branches for a set that is not NULL, after its closure.
pub enter : Closing → List DfaState → Option (ℕ × List DfaState)
unfolding in_dstates add_to_dstates
enter c ds = elim (in_dstates c.set ds 0) [
  | some j ↦ some (j, ds)
  | none ↦ add_to_dstates c.set c.accept c.anchor ds
]

-- What the loop over the characters changes beside the row: the states, and the variable `anchor`,
-- which `e_closure` sets only where a state accepts.
pub record Filling : Type 0 where
  pub states : List DfaState
  pub anchor : ℕ

-- The body of `for(c = MAX_CHARS; --c >= 0;)`: the next state, or `none` for `F`.
pub next_state : Nfa → SetS → ℕ → Filling → Option (Option ℕ × Filling)
unfolding enter
next_state nfa from c f = elim (move nfa from c) [
  | none ↦ some (none, f)
  | some moved ↦
      let closed = e_closure nfa moved f.anchor in
      elim (enter closed f.states) [
        | none ↦ none
        | some (j, ds) ↦ some (some j, record { states = ds; anchor = closed.anchor })
      ]
]

-- The row of one state, from the last character to the first.
pub fill_row : Nfa → SetS → ℕ → Filling → Row → Option (Row × Filling)
unfolding next_state
fill_row nfa from zero f row = some (row, f)
fill_row nfa from (suc c) f row = elim (next_state nfa from c f) [
  | none ↦ none
  | some (next, f') ↦ fill_row nfa from c f' (next ∷ row)
]

-- `current->mark = 1`.
abbrev pub set_mark : List DfaState → ℕ → List DfaState
set_mark ds i = set ds i (record (dstate_at ds i) { mark = true })

pub data Outcome : Type 0 where
  done : Dfa → Outcome
  too_many out_of_fuel : Outcome

-- `while(current = get_unmarked())`; `anchor` is the variable of `make_trans`.
pub trans_loop : Nfa → ℕ → Dfa → ℕ → Outcome
unfolding get_unmarked fill_row
trans_loop nfa zero d anchor = out_of_fuel
trans_loop nfa (suc fuel) d anchor =
    let (current, last) = get_unmarked d in
    elim current [
      | none ↦ done (record d { last_marked = last })
      | some i ↦
          elim (fill_row nfa (dstate_at d.dstates i).set max_chars
            (record { states = set_mark d.dstates i; anchor = anchor }) []) [
              | none ↦ too_many
              | some (row, f) ↦
                  trans_loop nfa fuel
                    (record { dstates = f.states; dtran = set d.dtran i row; last_marked = last })
                    f.anchor
            ]
    ]

-- The state that `make_trans` begins with: the closure of the start state, in an array that the
-- allocator cleared.
pub first_state : Nfa → ℕ → DfaState
first_state nfa sstate =
    let c = e_closure nfa (add set_new sstate) 0 in
    record { mark = false; accept = c.accept; anchor = c.anchor; set = c.set }

-- `make_trans`. `anchor` is the variable's value before anything is stored in it. Every round marks
-- a state, so one round more than there can be states is enough.
pub make_trans : Nfa → ℕ → ℕ → Outcome
unfolding trans_loop first_state
make_trans nfa sstate anchor =
    trans_loop nfa (dfa_max + 1)
      (record {
        dstates = first_state nfa sstate ∷ [];
        dtran = replicate dfa_max (replicate max_chars (some 0));
        last_marked = 0;
      })
      anchor

-- What `dfa` returns of a machine: the rows in use, and the action and anchor of each state.
unfoldable pub rows : Dfa → List Row
rows d = take (length d.dstates) d.dtran

unfoldable pub accept_states : Dfa → List (Option ℕ × ℕ)
accept_states d = map (λ (s : DfaState). (s.accept, s.anchor)) d.dstates
