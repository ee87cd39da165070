-- ===== src/Lex/Terp/Closure.antt =====
-- What `e_closure` of compiler/lex/terp.c computes: the set of states that epsilon edges lead to,
-- by a loop that ends with its stack empty and never holds more than the number of states on it.
use cgkits.Prelude.{
  ◌==◌, Bool-cases, length, ℕ, ◌+◌, ◌<◌, ◌≡◌, refl, ◌∙◌, ◌⊎◌, inl, inr, true, false, not, Option,
  none, some, arith,
}
use cgkits.Set.{SetS, add, member}
use cgkits.Set.Valid.{IsValid}
use cgkits.Set.Member.{add-IsValid, member-add, compl-add}
use cgkits.Set.Count.{count_range}
use cgkits.Set.Range.{on, count_range-remove}
use cgkits.Lex.Nfa.{Nfa, state_at, is_epsilon}
use cgkits.Lex.Terp.{Closing, push_state}

-- An epsilon edge from `i` to `j`.
abbrev pub EpsilonEdge : Nfa → ℕ → ℕ → Type 0
EpsilonEdge nfa i j =
    (is_epsilon (state_at nfa i).edge ≡ true)
    × (((state_at nfa i).next ≡ some j) ⊎ ((state_at nfa i).next2 ≡ some j))

-- The states that epsilon edges lead to from those of a set.
pub data EpsilonReach (nfa : Nfa) (from : SetS) : ℕ → Type 0 where
  here : {i : ℕ} → member from i ≡ true → EpsilonReach nfa from i
  there : {i j : ℕ} → EpsilonReach nfa from i → EpsilonEdge nfa i j → EpsilonReach nfa from j

-- The states of a set are indices of the array, and the set is not complemented.
pub record IsStates (nfa : Nfa) (s : SetS) : Type 0 where
  pub valid : IsValid s
  pub plain : s.compl ≡ 0
  pub within : (x : ℕ) → member s x ≡ true → x < length nfa

pub IsStates-add :
    (nfa : Nfa) (s : SetS) (y : ℕ) → IsStates nfa s → y < length nfa → IsStates nfa (add s y)
IsStates-add nfa s y v h = record {
  valid = add-IsValid s y v.valid;
  plain = compl-add s y ∙ v.plain;
  within = λ x m. ground (arith, member-add s y x v.valid, v.within x, h);
}

-- The states that are not yet in the set.
abbrev pub missing : Nfa → SetS → ℕ
missing nfa s = count_range 0 (length nfa) (λ x. not (member s x))

missing-add :
    (nfa : Nfa) (s : SetS) (y : ℕ)
    → IsValid s
    → y < length nfa
    → member s y ≡ false
    → missing nfa (add s y) + 1 ≡ missing nfa s
missing-add nfa s y v h e =
    count_range-remove (length nfa) 0 y (λ x. not (member s x)) (λ x. not (member (add s y) x))
      (omega arith) (omega arith) (ground arith) (λ x. ground (arith, member-add s y x v))

-- The part of the loop's invariant that says which states the set and the stack hold.
pub record Holds (nfa : Nfa) (from : SetS) (c : Closing) : Type 0 where
  pub states : IsStates nfa c.set
  pub base : (x : ℕ) → member from x ≡ true → member c.set x ≡ true
  pub sound : (x : ℕ) → member c.set x ≡ true → EpsilonReach nfa from x
  pub stacked : (x : ℕ) → on x c.stack ≡ true → member c.set x ≡ true

-- What one round does to the set and the stack: both only grow, and what is new in the set is new
-- on the stack.
pub record Grows (nfa : Nfa) (from : SetS) (b c : Closing) : Type 0 where
  pub holds : Holds nfa from c
  pub keeps : (x : ℕ) → member b.set x ≡ true → member c.set x ≡ true
  pub fresh : (x : ℕ) → member c.set x ≡ true → on x c.stack ≡ false → member b.set x ≡ true
  pub stays : (x : ℕ) → on x b.stack ≡ true → on x c.stack ≡ true
  pub work : length c.stack + missing nfa c.set ≡ length b.stack + missing nfa b.set

module _ (nfa : Nfa) (from : SetS) where
  pub Grows-refl : (c : Closing) → Holds nfa from c → Grows nfa from c c
  Grows-refl c h = record {
    holds = h;
    keeps = λ x m. m;
    fresh = λ x m o. m;
    stays = λ x o. o;
    work = refl;
  }

  pub Grows-trans : (a b c : Closing) → Grows nfa from a b → Grows nfa from b c → Grows nfa from a c
  Grows-trans a b c g h = record {
    holds = h.holds;
    keeps = λ x m. h.keeps x (g.keeps x m);
    fresh = λ x m o. g.fresh x (h.fresh x m o) (off x o (Bool-cases (on x b.stack)));
    stays = λ x o. h.stays x (g.stays x o);
    work = h.work ∙ g.work;
  }
    where
      off :
          (x : ℕ)
          → on x c.stack ≡ false
          → (on x b.stack ≡ true) ⊎ (on x b.stack ≡ false)
          → on x b.stack ≡ false
      off x o (inl e) = ground (arith, h.stays x e)
      off x o (inr e) = e

  -- Pushing the target of an edge.
  pub push_state-Grows :
      (target : Option ℕ) (c : Closing)
      → Holds nfa from c
      → ((j : ℕ) → target ≡ some j → (j < length nfa) × EpsilonReach nfa from j)
      → Grows nfa from c (push_state target c)
        × ((j : ℕ) → target ≡ some j → member (push_state target c).set j ≡ true)
  unfolding push_state
  push_state-Grows none c h t = (Grows-refl c h, λ j e. cc)
  push_state-Grows (some i) c h t = elim (Bool-cases (member c.set i)) [
    | inl old ↦ rw old (Grows-refl c h, λ j e. ground arith)
    | inr new ↦ rw new (
      record {
        holds = record {
          states = IsStates-add nfa c.set i h.states (t i refl).0;
          base = λ x m. ground (arith, member-add c.set i x h.states.valid, h.base x m);
          sound = λ x m. reached x m (Bool-cases (i == x));
          stacked =
              λ x o. unfold on in ground (arith, member-add c.set i x h.states.valid, h.stacked x);
        };
        keeps = λ x m. ground (arith, member-add c.set i x h.states.valid, m);
        fresh = λ x m o. unfold on in ground (arith, member-add c.set i x h.states.valid);
        stays = λ x o. unfold on in ground (arith, o);
        work = omega (arith, missing-add nfa c.set i h.states.valid (t i refl).0 new);
      },
      λ j e. ground (arith, member-add c.set i j h.states.valid),
    )
  ]
    where
      reached :
          (x : ℕ)
          → member (add c.set i) x ≡ true
          → ((i == x) ≡ true) ⊎ ((i == x) ≡ false)
          → EpsilonReach nfa from x
      reached x m (inl e) = let same : i ≡ x = ground arith in rw (← same) (t i refl).1
      reached x m (inr e) = h.sound x (ground (arith, member-add c.set i x h.states.valid))
