-- ===== src/Lex/Nfa.antt =====
-- The machine of compiler/lex/nfa.h: the struct `NFA` and the array of states that
-- compiler/lex/terp.c reads.
use cgkits.Prelude.{
  length, get_or, ℕ, ◌≤◌, ◌<◌, ◌≡◌, Bool, true, false, Option, none, some, List, [],
}
use cgkits.Set.{SetS}

-- `edge`: a character, or one of `EPSILON`, `CCL` and `EMPTY`.
pub data Edge : Type 0 where
  epsilon ccl empty : Edge
  char : ℕ → Edge

-- A pointer to a state is its index in the array. An accepting state points at its action string,
-- of which only the address matters here.
pub record NfaState : Type 0 where
  pub edge : Edge
  pub bitset : SetS
  pub next : Option ℕ
  pub next2 : Option ℕ
  pub accept : Option ℕ
  pub anchor : ℕ

-- `NFA_MAX`.
abbrev pub nfa_max : ℕ
nfa_max = 768

abbrev pub blank_state : NfaState
blank_state = record {
  edge = empty;
  bitset = record { nwords = 0; compl = 0; nbits = 0; heap = none; defmap = [] };
  next = none;
  next2 = none;
  accept = none;
  anchor = 0;
}

abbrev pub Nfa : Type 0
Nfa = List NfaState

-- `_nfa[i]`.
abbrev pub state_at : Nfa → ℕ → NfaState
state_at nfa i = get_or nfa i blank_state

abbrev pub is_epsilon : Edge → Bool
is_epsilon epsilon = true
is_epsilon _ = false

-- `next` and `next2` point into the array, which has at most `NFA_MAX` states.
pub record IsNfa (nfa : Nfa) : Type 0 where
  pub fits : length nfa ≤ nfa_max
  pub next_in : (i j : ℕ) → (state_at nfa i).next ≡ some j → j < length nfa
  pub next2_in : (i j : ℕ) → (state_at nfa i).next2 ≡ some j → j < length nfa
