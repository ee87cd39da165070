-- ===== src/Lex/Dfa/Texts.antt =====
-- The states that an NFA is in after a text, and how `move` and `e_closure` of
-- compiler/lex/terp.c, which `make_trans` of compiler/lex/dfa.c calls, go from a text to the next.
use cgkits.Prelude.{length, ℕ, ◌<◌, ◌≡◌, refl, ◌∙◌, ◌↔◌, true, none, some, List, [], ◌∷◌, arith}
use cgkits.Set.{SetS, set_new, add, member}
use cgkits.Set.Member.{
  add-IsValid, member-add, set_new-IsValid, compl-add, compl-set_new, member-set_new,
}
use cgkits.Lex.Nfa.{Nfa, IsNfa}
use cgkits.Lex.Terp.{move}
use cgkits.Lex.Terp.Closure.{EpsilonEdge, EpsilonReach, here, there, IsStates}
use cgkits.Lex.Terp.Move.{CharEdge, holds, move_iff}
use cgkits.Lex.Dfa.{max_chars}

-- The states that the NFA can be in after a text, from the state `start`. The text is given with
-- its last character first.
pub data Run (nfa : Nfa) (start : ℕ) : List ℕ → ℕ → Type 0 where
  begin : Run nfa start [] start
  skip : {w : List ℕ} {i j : ℕ} → Run nfa start w i → EpsilonEdge nfa i j → Run nfa start w j
  read : {w : List ℕ} {c i j : ℕ} → Run nfa start w i → CharEdge nfa c i j → Run nfa start (c ∷ w) j

-- The characters of a text are those of the table.
abbrev pub AreChars : List ℕ → Type 0
AreChars [] = Unit {0}
AreChars (c ∷ w) = (c < max_chars) × AreChars w

module _ (nfa : Nfa) (start : ℕ) (g : IsNfa nfa) (h : start < length nfa) where
  start_set : (x : ℕ) → (member (add set_new start) x ≡ true) ↔ (start ≡ x)
  start_set x = (
    λ m. ground (arith, member-add set_new start x set_new-IsValid, member-set_new x),
    λ e. ground (arith, member-add set_new start x set_new-IsValid, member-set_new x),
  )

  pub start-IsStates : IsStates nfa (add set_new start)
  start-IsStates = record {
    valid = add-IsValid set_new start set_new-IsValid;
    plain = compl-add set_new start ∙ compl-set_new;
    within = λ x m. let e = (start_set x).0 m in omega arith;
  }

  from_closure : {x : ℕ} → EpsilonReach nfa (add set_new start) x → Run nfa start [] x
  from_closure (here {i} m) = let e = (start_set i).0 m in rw (← e) begin
  from_closure (there r e) = skip (from_closure r) e

  -- One character further, from a set of states `from`.
  module _ (from : SetS) (s : IsStates nfa from) (w : List ℕ)
      (same : (x : ℕ) → (member from x ≡ true) ↔ Run nfa start w x) (c : ℕ) where
    pub moved :
        (t : SetS) {x : ℕ}
        → move nfa from c ≡ some t
        → EpsilonReach nfa t x
        → Run nfa start (c ∷ w) x
    moved t e (here {i} m) = let (j, (n, edge)) = source in read ((same j).0 n) edge
      where
        source : (j : ℕ) × ((member from j ≡ true) × CharEdge nfa c j i)
        source = let (j, n, edge) = (move_iff nfa from c g s).2 i (rw e m) in (j, (n, edge))
    moved t e (there r edge) = skip (moved t e r) edge

    pub moved_back :
        (t : SetS) {x : ℕ}
        → move nfa from c ≡ some t
        → Run nfa start (c ∷ w) x
        → EpsilonReach nfa t x
    moved_back t e (skip r edge) = there (moved_back t e r) edge
    moved_back t e (read {i} {j} r edge) =
        here (rw e at ((move_iff nfa from c g s).1 i j ((same i).1 r) edge))

    pub stuck : {x : ℕ} → move nfa from c ≡ none → Run nfa start (c ∷ w) x → ⊥
    stuck e (skip r edge) = stuck e r
    stuck e (read {i} {j} r edge) =
        let found : holds none j ≡ true =
          rw e at ((move_iff nfa from c g s).1 i j ((same i).1 r) edge) in
        cc

  -- A state of which no text leads further fails on every longer text.
  pub dead :
      (w : List ℕ) (c : ℕ) → ((x : ℕ) → ¬ Run nfa start w x) → {x : ℕ} → Run nfa start (c ∷ w) x → ⊥
  dead w c none_yet (skip r edge) = dead w c none_yet r
  dead w c none_yet (read {i} r edge) = none_yet i r

  pub first_follows : (x : ℕ) → EpsilonReach nfa (add set_new start) x ↔ Run nfa start [] x
  first_follows x = (from_closure, back)
    where
      back : {y : ℕ} → Run nfa start [] y → EpsilonReach nfa (add set_new start) y
      back begin = here ((start_set start).1 refl)
      back (skip r e) = there (back r) e
