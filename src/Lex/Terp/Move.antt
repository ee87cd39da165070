-- ===== src/Lex/Terp/Move.antt =====
-- What `move` of compiler/lex/terp.c computes.
use cgkits.Prelude.{
  ◌==◌, ==_iff, ◌≢◌, ◌↔◌, if◌then◌else◌, Bool-cases, length, ℕ, zero, suc, ◌<◌, ◌≡◌, refl, ap, ◌∙◌,
  ◌⊎◌, inl, inr, Bool, true, false, ◌&&◌, ◌||◌, Option, none, some, arith,
}
use cgkits.Set.{SetS, set_new, member, test}
use cgkits.Set.Member.{member-add, set_new-IsValid, compl-set_new, member-set_new, test_iff}
use cgkits.Lex.Nfa.{epsilon, ccl, empty, char, Edge, NfaState, Nfa, state_at, IsNfa}
use cgkits.Lex.Terp.{edge_matches, add_target, move_loop, move}
use cgkits.Lex.Terp.Closure.{IsStates, IsStates-add}

-- A label that reads the character `c`: that character, or a class that holds it, or a class under
-- a `^` (its set is complemented) that does not.
abbrev pub Reads : Edge → SetS → ℕ → Type 0
Reads epsilon bitset c = ⊥
Reads ccl bitset c =
    ((member bitset c ≡ true) × (bitset.compl ≡ 0))
    ⊎ ((member bitset c ≡ false) × (bitset.compl ≢ 0))
Reads empty bitset c = ⊥
Reads (char a) bitset c = a ≡ c

-- An edge from `i` to `j` on the character `c`.
abbrev pub CharEdge : Nfa → ℕ → ℕ → ℕ → Type 0
CharEdge nfa c i j =
    Reads (state_at nfa i).edge (state_at nfa i).bitset c × ((state_at nfa i).next ≡ some j)

edge_test : Edge → SetS → ℕ → Bool
edge_test e bitset c = elim e [
  | epsilon ↦ false
  | ccl ↦ test bitset c
  | empty ↦ false
  | char a ↦ a == c
]

edge_test_iff :
    (e : Edge) (bitset : SetS) (c : ℕ) → (edge_test e bitset c ≡ true) ↔ Reads e bitset c
unfolding edge_test
edge_test_iff epsilon bitset c = (λ e. absurd cc, λ r. absurd r)
edge_test_iff ccl bitset c = test_iff bitset c
edge_test_iff empty bitset c = (λ e. absurd cc, λ r. absurd r)
edge_test_iff (char a) bitset c = ==_iff a c

edge_matches_iff : (p : NfaState) (c : ℕ) → (edge_matches p c ≡ true) ↔ Reads p.edge p.bitset c
unfolding edge_matches edge_test
edge_matches_iff p c = edge_test_iff p.edge p.bitset c

-- The edge, as the code tests for it.
abbrev TestedEdge : Nfa → ℕ → ℕ → ℕ → Type 0
TestedEdge nfa c i j = (edge_matches (state_at nfa i) c ≡ true) × ((state_at nfa i).next ≡ some j)

-- The members of a set that may be NULL.
abbrev pub holds : Option SetS → ℕ → Bool
holds none x = false
holds (some s) x = member s x

-- A set that may be NULL holds states, and is not empty unless it is NULL.
abbrev pub AreStates : Nfa → Option SetS → Type 0
AreStates nfa none = Unit {0}
AreStates nfa (some s) = IsStates nfa s × ((x : ℕ) × (member s x ≡ true))

pub new-IsStates : (nfa : Nfa) → IsStates nfa set_new
new-IsStates nfa = record {
  valid = set_new-IsValid;
  plain = compl-set_new;
  within = λ x m. absurd (ground (arith, member-set_new x));
}

add_target_lem :
    (nfa : Nfa) (j : ℕ) (outset : Option SetS)
    → j < length nfa
    → AreStates nfa outset
    → AreStates nfa (add_target (some j) outset)
      × ((x : ℕ) → holds (add_target (some j) outset) x ≡ (j == x || holds outset x))
unfolding add_target
add_target_lem nfa j none h a = (
  (
    IsStates-add nfa set_new j (new-IsStates nfa) h,
    (j, rw (member-add set_new j j set_new-IsValid) (ground arith)),
  ),
  λ x. ground (arith, member-add set_new j x set_new-IsValid, member-set_new x),
)
add_target_lem nfa j (some s) h a = (
  (IsStates-add nfa s j a.0 h, (j, rw (member-add s j j a.0.valid) (ground arith))),
  λ x. member-add s j x a.0.valid,
)

-- What one round adds: the target of state `i`, if `i` is in the set and its edge matches.
abbrev AddsFrom : Nfa → SetS → ℕ → ℕ → Option SetS → Option SetS → Type 0
AddsFrom nfa inp c i before result =
    AreStates nfa result
    × ((x : ℕ) → holds before x ≡ true → holds result x ≡ true)
    × ((x : ℕ) → member inp i ≡ true → TestedEdge nfa c i x → holds result x ≡ true)
    × ((x : ℕ)
        → holds result x ≡ true
        → (holds before x ≡ true) ⊎ ((member inp i ≡ true) × TestedEdge nfa c i x))

module _ (nfa : Nfa) (inp : SetS) (c : ℕ) (w : IsNfa nfa) where
  abbrev round : ℕ → Option SetS → Option SetS
  round i out =
      if member inp i && edge_matches (state_at nfa i) c
      then add_target (state_at nfa i).next out
      else out

  round_lem :
      (i : ℕ) (out : Option SetS) → AreStates nfa out → AddsFrom nfa inp c i out (round i out)
  round_lem i out a = elim (Bool-cases (member inp i && edge_matches (state_at nfa i) c)) [
    | inr e ↦ rw e (a, λ x m. m, λ x m edge. absurd (ground (arith, m, edge.0)), λ x m. inl m)
    | inl e ↦ rw e (targeted (state_at nfa i).next refl e)
  ]
    where
      from_target :
          (x j : ℕ)
          → (state_at nfa i).next ≡ some j
          → (member inp i && edge_matches (state_at nfa i) c) ≡ true
          → (j == x || holds out x) ≡ true
          → ((j == x) ≡ true) ⊎ ((j == x) ≡ false)
          → (holds out x ≡ true) ⊎ ((member inp i ≡ true) × TestedEdge nfa c i x)
      from_target x j n e m (inl q) =
          let same : j ≡ x = ground arith in
          inr (ground (arith, e), (ground (arith, e), n ∙ ap some same))
      from_target x j n e m (inr q) = inl (ground (arith, m, q))

      targeted :
          (t : Option ℕ)
          → (state_at nfa i).next ≡ t
          → (member inp i && edge_matches (state_at nfa i) c) ≡ true
          → AddsFrom nfa inp c i out (add_target t out)
      targeted none n e =
          unfold add_target in
          (a, λ x m. m, λ x m edge. absurd (ground (arith, n, edge.1)), λ x m. inl m)
      targeted (some j) n e =
          let t = add_target_lem nfa j out (w.next_in i j n) a in
          (
            t.0,
            λ x m. ground (arith, t.1 x, m),
            λ x m edge. let same : j ≡ x = ground (arith, n, edge.1) in ground (arith, t.1 x),
            λ x m. from_target x j n e (rw (t.1 x) at m) (Bool-cases (j == x)),
          )

  -- The states below `k` and what was in the set before.
  Found : ℕ → Option SetS → Option SetS → Type 0
  Found k before result =
      AreStates nfa result
      × ((x : ℕ) → holds before x ≡ true → holds result x ≡ true)
      × ((i x : ℕ) → i < k → member inp i ≡ true → TestedEdge nfa c i x → holds result x ≡ true)
      × ((x : ℕ)
          → holds result x ≡ true
          → (holds before x ≡ true) ⊎ ((i : ℕ) × (member inp i ≡ true) × TestedEdge nfa c i x))

  move_loop_lem :
      (k : ℕ) (before : Option SetS)
      → AreStates nfa before
      → Found k before (move_loop nfa inp c k before)
  unfolding move_loop Found
  move_loop_lem zero before a = (a, λ x m. m, λ i x l m edge. absurd (omega arith), λ x m. inl m)
  move_loop_lem (suc k) before a =
      let r = round_lem k before a in
      let ih = move_loop_lem k (round k before) r.0 in
      (
        ih.0,
        λ x m. ih.1 x (r.1 x m),
        λ i x l m edge. elim (Bool-cases (i == k)) [
          | inl e ↦
              let same : i ≡ k = ground arith in ih.1 x (r.2 x (rw same at m) (rw same at edge))
          | inr e ↦ ih.2 i x (ground arith) m edge
        ],
        λ x m. elim (ih.3 x m) [
          | inr f ↦ inr f
          | inl g ↦ elim (r.3 x g) [ inl b ↦ inl b | inr f ↦ inr (k, f.0, f.1) ]
        ],
      )

-- On states of a well-formed NFA, `move` finds a state exactly when some member of the set has an
-- edge to it on the character, by a character or a character class. It returns NULL when there is no such state, and otherwise a set of states.
pub move_iff :
    (nfa : Nfa) (inp : SetS) (c : ℕ)
    → IsNfa nfa
    → IsStates nfa inp
    → AreStates nfa (move nfa inp c)
      × ((i x : ℕ) → member inp i ≡ true → CharEdge nfa c i x → holds (move nfa inp c) x ≡ true)
      × ((x : ℕ)
          → holds (move nfa inp c) x ≡ true
          → (i : ℕ) × (member inp i ≡ true) × CharEdge nfa c i x)
unfolding move
move_iff nfa inp c w s =
    let f = move_loop_lem nfa inp c w (length nfa) none tt in
    (
      unfold Found in f.0,
      λ i x m edge.
          unfold Found in
          f.2 i x (s.within i m) m ((edge_matches_iff (state_at nfa i) c).1 edge.0, edge.1),
      λ x m.
          unfold Found in
          elim (f.3 x m) [
            | inl e ↦ cc
            | inr (i, m', edge) ↦ (i, m', ((edge_matches_iff (state_at nfa i) c).0 edge.0, edge.1))
          ],
    )
