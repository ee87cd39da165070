-- ===== src/Lex/Dfa/Label.antt =====
-- The states of the DFA of compiler/lex/dfa.c, one at a time: what a good one is, and what adding
-- one to the array keeps.
use cgkits.Prelude.{
  ltb, ◌==◌, if◌then◌else◌, Bool-cases, length, set, length-append, ℕ, zero, suc, ◌+◌, ◌≤◌, ◌<◌,
  ◌≡◌, refl, sym, ◌∙◌, ◌≢◌, ◌⊎◌, inl, inr, true, false, none, some, List, [], ◌∷◌, ◌++◌, arith,
}
use cgkits.Set.{SetS, member}
use cgkits.Set.Ops.{is_equiv}
use cgkits.Set.Ops.Compare.{set_compare_iff}
use cgkits.Lex.Nfa.{Nfa, state_at, IsNfa}
use cgkits.Lex.Terp.{Closing, e_closure}
use cgkits.Lex.Terp.Closure.{IsStates}
use cgkits.Lex.Terp.Result.{e_closure_iff, e_closure_accept}
use cgkits.Lex.Dfa.{DfaState, blank_dfa_state, dstate_at, in_dstates}

-- `accept` and `anchor` are those of the lowest accepting state of the set.
abbrev pub Labels : Nfa → DfaState → Type 0
Labels nfa d =
    ((d.accept ≡ none) × ((x : ℕ) → member d.set x ≡ true → (state_at nfa x).accept ≡ none))
    ⊎ ((i : ℕ) × ((member d.set i ≡ true)
          × ((state_at nfa i).accept ≡ d.accept)
          × ((state_at nfa i).anchor ≡ d.anchor)
          × (d.accept ≢ none)
          × ((x : ℕ) → member d.set x ≡ true → (state_at nfa x).accept ≢ none → i ≤ x)))

pub record IsGood (nfa : Nfa) (d : DfaState) : Type 0 where
  pub states : IsStates nfa d.set
  pub labels : Labels nfa d

-- The closure of a set of states makes a good state.
unfoldable pub closed_state : Closing → DfaState
closed_state c = record { mark = false; accept = c.accept; anchor = c.anchor; set = c.set }

pub closed_state-IsGood :
    (nfa : Nfa) (s : SetS) (anchor : ℕ)
    → IsNfa nfa
    → IsStates nfa s
    → IsGood nfa (closed_state (e_closure nfa s anchor))
unfolding closed_state
closed_state-IsGood nfa s anchor w v =
    let r = e_closure_iff nfa s anchor w v in
    record {
      states = r.1;
      labels = elim (e_closure_accept nfa s anchor w v) [
        | inl h ↦ inl (h.0, λ x m. h.2 x ((r.2 x).0 m))
        | inr (i, h) ↦ inr (i, ((r.2 i).1 h.0, h.1.0, h.1.1, h.1.2, λ x m a. h.2 x ((r.2 x).0 m) a))
      ];
    }

-- One array of states goes on where the other ends.
pub record Extends (ds es : List DfaState) : Type 0 where
  pub longer : length ds ≤ length es
  pub same : (i : ℕ) → i < length ds → dstate_at es i ≡ dstate_at ds i
  pub unmarked : (i : ℕ) → length ds ≤ i → (dstate_at es i).mark ≡ false

pub get_or-append_one :
    (ds : List DfaState) (d : DfaState) (i : ℕ)
    → dstate_at (ds ++ d ∷ []) i ≡ (
        if ltb i (length ds) then dstate_at ds i else if i == length ds then d else blank_dfa_state)
get_or-append_one [] d zero = refl
get_or-append_one [] d (suc i) = ground arith
get_or-append_one (e ∷ ds) d zero = ground arith
get_or-append_one (e ∷ ds) d (suc i) = ground (arith, get_or-append_one ds d i)

pub get_or-beyond : (ds : List DfaState) (i : ℕ) → length ds ≤ i → dstate_at ds i ≡ blank_dfa_state
get_or-beyond [] i h = refl
get_or-beyond (d ∷ ds) zero h = absurd (omega arith)
get_or-beyond (d ∷ ds) (suc i) h = get_or-beyond ds i (omega arith)

pub Extends-refl : (ds : List DfaState) → Extends ds ds
Extends-refl ds = record {
  longer = omega arith;
  same = λ i h. refl;
  unmarked = λ i h. rw (get_or-beyond ds i h);
}

pub Extends-trans : (ds es fs : List DfaState) → Extends ds es → Extends es fs → Extends ds fs
Extends-trans ds es fs e f = record {
  longer = omega (arith, e.longer, f.longer);
  same = λ i h. f.same i (omega (arith, e.longer)) ∙ e.same i h;
  unmarked = λ i h. elim (Bool-cases (ltb i (length es))) [
    | inl l ↦ rw (f.same i (ground arith)) (e.unmarked i h)
    | inr l ↦ f.unmarked i (ground arith)
  ];
}

pub Extends-append :
    (ds : List DfaState) (d : DfaState) → d.mark ≡ false → Extends ds (ds ++ d ∷ [])
Extends-append ds d u = record {
  longer = omega (arith, length-append ds (d ∷ []));
  same = λ i h. get_or-append_one ds d i ∙ ground arith;
  unmarked = λ i h. rw (get_or-append_one ds d i) (elim (Bool-cases (i == length ds)) [
    | inl e ↦ ground (arith, e, u)
    | inr e ↦ ground (arith, e)
  ]);
}

abbrev pub AreGood : Nfa → List DfaState → Type 0
AreGood nfa ds = (i : ℕ) → i < length ds → IsGood nfa (dstate_at ds i)

-- `in_dstates` finds a state with the same set, or there is none.
pub in_dstates_lem :
    (nfa : Nfa) (set : SetS) (ds : List DfaState) (i j : ℕ)
    → IsStates nfa set
    → AreGood nfa ds
    → in_dstates set ds i ≡ some j
    → (k : ℕ) × (j ≡ i + k)
      × (k < length ds)
      × ((x : ℕ) → member (dstate_at ds k).set x ≡ member set x)
unfolding in_dstates
in_dstates_lem nfa set [] i j v g e = cc
in_dstates_lem nfa set (d ∷ ds) i j v g e = elim (Bool-cases (is_equiv set d.set)) [
  | inl same ↦ (
    0,
    ground arith,
    omega arith,
    λ x. sym ((set_compare_iff set d.set v.valid (g 0 (omega arith)).states.valid).1.0 same x),
  )
  | inr other ↦
      let (k, p, q, h) =
        in_dstates_lem nfa set ds (i + 1) j v (λ n l. g (suc n) (omega arith)) (ground arith) in
      (suc k, omega arith, omega arith, h)
]
