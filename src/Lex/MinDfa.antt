-- ===== src/Lex/MinDfa.antt =====
-- compiler/lex/mindfa.c: the minimisation of the DFA. `_groups` is the list of the sets in use, so
-- `_ngroups` is its length; `_ingroup` is a function of the state. The table and the accepting
-- strings are those that `dfa` returns. A set's address, which `set_next_member` compares, is its
-- index in `_groups`. What the program prints is left out.
pub mod Partition
pub mod Split
pub mod Group
pub mod Pass
pub mod Refine
pub mod Language
pub mod FromNfa
use cgkits.Prelude.{
  ltb, leb, ◌==◌, if◌then◌else◌, length, set, get_or, ℕ, zero, suc, ◌+◌, Bool, true, false, not,
  ◌&&◌, Option, none, some, List, [], ◌∷◌, ◌++◌,
}
use cgkits.Set.{SetS, set_new, add, remove}
use cgkits.Set.Count.{set_num_ele}
use cgkits.Set.Cursor.{Cursor, reset, set_next_member}
use cgkits.Lex.Nfa.{Nfa}
use cgkits.Lex.Dfa.{max_chars, Row, rows, accept_states, done, too_many, out_of_fuel, make_trans}

pub record Groups : Type 0 where
  pub groups : List SetS
  pub ingroup : ℕ → ℕ
  pub cursor : Cursor

abbrev pub blank_set : SetS
blank_set = record { nwords = 0; compl = 0; nbits = 0; heap = none; defmap = [] }

abbrev pub group_at : List SetS → ℕ → SetS
group_at gs k = get_or gs k blank_set

-- An `ACCEPT`: its string, of which the address matters, and its anchor.
abbrev pub Accept : Type 0
Accept = Option ℕ × ℕ

abbrev pub string_of : List Accept → ℕ → Option ℕ
string_of accept i = (get_or accept i (none, 0)).0

abbrev pub same_string : Option ℕ → Option ℕ → Bool
same_string none none = true
same_string none (some b) = false
same_string (some a) none = false
same_string (some a) (some b) = a == b

-- `for(j = i; --j >= 0;)`: the last state before `j` with the string of `i`.
pub match_before : List Accept → ℕ → ℕ → Option ℕ
match_before accept i zero = none
match_before accept i (suc j) =
    let rest = match_before accept i j in
    if same_string (string_of accept i) (string_of accept j) then some j else rest

abbrev pub assign : (ℕ → ℕ) → ℕ → ℕ → ℕ → ℕ
assign f x v y = if x == y then v else f y

-- The body of the outer loop of `init_groups`.
pub place : List Accept → ℕ → Groups → Groups
unfolding match_before
place accept i gs = elim (match_before accept i i) [
  | some j ↦
      let k = gs.ingroup j in
      record gs {
        groups = set gs.groups k (add (group_at gs.groups k) i);
        ingroup = assign gs.ingroup i k;
      }
  | none ↦ record gs {
    groups = gs.groups ++ add set_new i ∷ [];
    ingroup = assign gs.ingroup i (length gs.groups);
  }
]

-- `init_groups` on the states below `nstates`.
pub init_groups : List Accept → ℕ → Groups → Groups
unfolding place
init_groups accept zero gs = gs
init_groups accept (suc n) gs = place accept n (init_groups accept n gs)

-- `dtran[s][c]`.
abbrev pub goto_at : List Row → ℕ → ℕ → Option ℕ
goto_at dtran s c = get_or (get_or dtran s []) c none

-- The condition in `minimize` that tells two next states apart.
abbrev pub apart : (ℕ → ℕ) → Option ℕ → Option ℕ → Bool
apart ingroup none none = false
apart ingroup none (some b) = true
apart ingroup (some a) none = true
apart ingroup (some a) (some b) = not (a == b) && not (ingroup a == ingroup b)

-- `for(c = MAX_CHARS; --c >= 0;)`: whether some character splits `next` from `first`.
pub splits : List Row → (ℕ → ℕ) → ℕ → ℕ → ℕ → Bool
splits dtran ingroup first next zero = false
splits dtran ingroup first next (suc c) =
    let rest = splits dtran ingroup first next c in
    if apart ingroup (goto_at dtran first c) (goto_at dtran next c) then true else rest

-- The variables of the loop over a group.
pub record Splitting : Type 0 where
  pub current : SetS
  pub new : SetS
  pub ingroup : ℕ → ℕ
  pub cursor : Cursor

pub split_one : List Row → ℕ → ℕ → ℕ → Splitting → Splitting
unfolding splits
split_one dtran ngroups first next st =
    if splits dtran st.ingroup first next max_chars
    then record st {
      current = remove st.current next;
      new = add st.new next;
      ingroup = assign st.ingroup next ngroups;
    }
    else st

-- `while((next = set_next_member(*current)) >= 0)`; each round goes on to a later element.
pub split_loop : List Row → ℕ → ℕ → ℕ → ℕ → Splitting → Splitting
unfolding split_one
split_loop dtran id ngroups first zero st = st
split_loop dtran id ngroups first (suc fuel) st =
    let (found, cursor) = set_next_member st.cursor id st.current in
    let moved = record st { cursor = cursor } in
    elim found [
      | none ↦ moved
      | some next ↦
          split_loop dtran id ngroups first fuel (split_one dtran ngroups first next moved)
    ]

-- The body of `for(current = &_groups[0]; ...)` on the group `k`. A group of more than one element
-- has a first one.
pub split_group : List Row → ℕ → Groups → Groups
unfolding split_loop
split_group dtran k gs =
    let current = group_at gs.groups k in
    if leb (set_num_ele current) 1
    then gs
    else let (found, cursor) = set_next_member (reset gs.cursor) k current in
      elim found [
        | none ↦ record gs { cursor = cursor }
        | some first ↦
            let st = split_loop dtran k (length gs.groups) first (current.nbits + 1) (record {
              current = current;
              new = set_new;
              ingroup = gs.ingroup;
              cursor = cursor;
            }) in
            let kept = set gs.groups k st.current in
            record {
              groups = if set_num_ele st.new == 0 then kept else kept ++ st.new ∷ [];
              ingroup = st.ingroup;
              cursor = st.cursor;
            }
      ]

-- The loop over the groups, which new groups make longer.
pub group_pass : List Row → ℕ → ℕ → Groups → Groups
unfolding split_group
group_pass dtran k zero gs = gs
group_pass dtran k (suc fuel) gs =
    let rest = group_pass dtran (k + 1) fuel (split_group dtran k gs) in
    if ltb k (length gs.groups) then rest else gs

-- `do { ... } while(old_numgroups != _ngroups)`; `none` when the fuel runs out. There are never
-- more groups than states.
pub refine : List Row → ℕ → ℕ → Groups → Option Groups
unfolding group_pass
refine dtran nstates zero gs = none
refine dtran nstates (suc fuel) gs =
    let gs' = group_pass dtran 0 nstates gs in
    let rest = refine dtran nstates fuel gs' in
    if length gs'.groups == length gs.groups then some gs' else rest

-- The loop of `fix_dtran` over the groups: the new rows and the new accepting strings. The rows are
-- read at `MAX_CHARS` characters.
pub fixed_row : (ℕ → ℕ) → Row → ℕ → Row
fixed_row ingroup row zero = []
fixed_row ingroup row (suc c) =
    fixed_row ingroup row c
    ++ elim (get_or row c none) [ none ↦ none | some t ↦ some (ingroup t) ] ∷ []

pub fix_loop : List Row → List Accept → (ℕ → ℕ) → ℕ → List SetS → Cursor → List Row × List Accept
unfolding fixed_row
fix_loop dtran accept ingroup k [] cursor = ([], [])
fix_loop dtran accept ingroup k (g ∷ gs) cursor =
    let (found, cursor') = set_next_member cursor k g in
    let state : ℕ = elim found [ none ↦ 0 | some s ↦ s ] in
    let (rows, accepts) = fix_loop dtran accept ingroup (k + 1) gs cursor' in
    (
      fixed_row ingroup (get_or dtran state []) max_chars ∷ rows,
      get_or accept state (none, 0) ∷ accepts,
    )

pub fix_dtran : List Row → List Accept → Groups → List Row × List Accept
unfolding fix_loop
fix_dtran dtran accept gs = fix_loop dtran accept gs.ingroup 0 gs.groups (reset gs.cursor)

-- `min_dfa` from `dfa` on: the arrays cleared, `init_groups`, `minimize` and `fix_dtran`.
pub minimize : List Row → List Accept → ℕ → Cursor → Option (List Row × List Accept)
unfolding init_groups refine fix_dtran
minimize dtran accept nstates cursor =
    let begin : Groups = record { groups = []; ingroup = λ i. 0; cursor = cursor } in
    elim (refine dtran nstates (nstates + 1) (init_groups accept nstates begin)) [
      | none ↦ none
      | some gs ↦ some (fix_dtran dtran accept gs)
    ]

-- What `min_dfa` comes to: the table and the accepting strings, the end of the program by
-- `com_ferr`, or no fuel left.
pub data Generated : Type 0 where
  generated : List Row × List Accept → Generated
  stopped unfinished : Generated

-- `min_dfa` with `dfa`, for the NFA that `nfa` returns.
pub min_dfa : Nfa → ℕ → ℕ → Cursor → Generated
unfolding minimize
min_dfa nfa start anchor cursor = elim (make_trans nfa start anchor) [
  | too_many ↦ stopped
  | out_of_fuel ↦ unfinished
  | done d ↦ elim (minimize (rows d) (accept_states d) (length d.dstates) cursor) [
    | none ↦ unfinished
    | some r ↦ generated r
  ]
]
