-- ===== src/Parser/First/Step.antt =====
-- One call of `first_closure` on a symbol: it finds the sets closed under the symbol's productions,
-- or it adds what the productions ask for.
use cgkits.Prelude.{
  ◌==◌, Bool-cases, ℕ, ◌≡◌, refl, ◌∙◌, ◌↔◌, ◌⊎◌, inl, inr, Bool, true, false, ◌||◌, arith,
}
use cgkits.Set.{SetS, member}
use cgkits.Set.Valid.{IsValid}
use cgkits.Set.Ops.{assign_op, set_op, is_equiv}
use cgkits.Set.Ops.Compare.{set_compare_iff}
use cgkits.Parser.Grammar.{is_nonterm, Symbol, Grammar, Sets, update}
use cgkits.Parser.First.{close_productions, Firsts, first_closure}
use cgkits.Parser.First.Closure.{
  any_produces, AreValid, assign-IsValid, member-assign, close_productions-IsValid,
  member-close_productions,
}

-- The sets that `first_closure` works on are valid.
pub record IsSound (f : Firsts) : Type 0 where
  pub valid : AreValid f.firsts
  pub scratch_valid : IsValid f.scratch

-- What the set of `lhs` should be.
unfoldable pub closed_at : Grammar → Sets → Symbol → ℕ → Bool
closed_at g firsts lhs x = member (firsts lhs.val) x || any_produces g firsts lhs.productions x

-- Nothing is left to add for `lhs`.
abbrev pub IsClosed : Grammar → Sets → Symbol → Type 0
IsClosed g firsts lhs =
    is_nonterm lhs.val ≡ true
    → (x : ℕ) → any_produces g firsts lhs.productions x ≡ true
    → member (firsts lhs.val) x ≡ true

-- Nothing changed, since nothing is missing.
pub record Idle (g : Grammar) (s : Symbol) (f f' : Firsts) : Type 0 where
  pub same : f'.firsts ≡ f.firsts
  pub flag : f'.did_something ≡ f.did_something
  pub closed : IsClosed g f.firsts s

-- The set of the symbol grew to what it should be, and was not that before.
pub record Grown (g : Grammar) (s : Symbol) (f f' : Firsts) : Type 0 where
  pub flag : f'.did_something ≡ true
  pub nonterm : is_nonterm s.val ≡ true
  pub others : (v x : ℕ) → (s.val == v) ≡ false → member (f'.firsts v) x ≡ member (f.firsts v) x
  pub here : (x : ℕ) → member (f'.firsts s.val) x ≡ closed_at g f.firsts s x
  pub more : ((x : ℕ) → closed_at g f.firsts s x ≡ member (f.firsts s.val) x) → ⊥

module _ (g : Grammar) (s : Symbol) (f : Firsts) (a : IsSound f) where
  private_set : SetS
  private_set =
      close_productions g f.firsts s.productions (set_op assign_op f.scratch (f.firsts s.val))

  private_set-IsValid : IsValid private_set
  unfolding private_set
  private_set-IsValid =
      close_productions-IsValid g f.firsts a.valid s.productions _
        (assign-IsValid f.scratch (f.firsts s.val) a.scratch_valid (a.valid s.val))

  member-private_set : (x : ℕ) → member private_set x ≡ closed_at g f.firsts s x
  unfolding private_set closed_at
  member-private_set x = ground (
    arith,
    member-close_productions g f.firsts a.valid s.productions
        (set_op assign_op f.scratch (f.firsts s.val)) x
        (assign-IsValid f.scratch (f.firsts s.val) a.scratch_valid (a.valid s.val)),
    member-assign f.scratch (f.firsts s.val) x a.scratch_valid (a.valid s.val),
  )

  same_sets :
      (is_equiv private_set (f.firsts s.val) ≡ true)
      ↔ ((x : ℕ) → member private_set x ≡ member (f.firsts s.val) x)
  same_sets = (set_compare_iff private_set (f.firsts s.val) private_set-IsValid (a.valid s.val)).1

  abbrev left : Firsts
  left = record f { scratch = private_set }

  abbrev grown : Firsts
  grown = record {
    firsts = update f.firsts s.val (set_op assign_op (f.firsts s.val) private_set);
    scratch = private_set;
    did_something = true;
  }

  left-Idle : is_equiv private_set (f.firsts s.val) ≡ true → Idle g s f left
  unfolding closed_at
  left-Idle q = record {
    same = refl;
    flag = refl;
    closed = λ n x p. ground (arith, same_sets.0 q x, member-private_set x);
  }

  grown-IsSound : IsSound grown
  grown-IsSound =
      let w = assign-IsValid (f.firsts s.val) private_set (a.valid s.val) private_set-IsValid in
      record {
        valid = λ v. elim (Bool-cases (s.val == v)) [ inl e ↦ rw e w | inr e ↦ rw e (a.valid v) ];
        scratch_valid = private_set-IsValid;
      }

  grown-Grown :
      is_nonterm s.val ≡ true → is_equiv private_set (f.firsts s.val) ≡ false → Grown g s f grown
  grown-Grown n q = record {
    flag = refl;
    nonterm = n;
    others = λ v x e. rw e refl;
    here = λ x.
        let e : (s.val == s.val) ≡ true = ground arith in
        rw e (
          member-assign (f.firsts s.val) private_set x (a.valid s.val) private_set-IsValid
          ∙ member-private_set x);
    more = λ all. let e = same_sets.1 (λ x. member-private_set x ∙ all x) in ground (arith, e, q);
  }

  pub first_closure_cases :
      IsSound (first_closure g s f)
      × (Idle g s f (first_closure g s f) ⊎ Grown g s f (first_closure g s f))
  unfolding first_closure private_set
  first_closure_cases = elim (Bool-cases (is_nonterm s.val)) [
    | inr e ↦
        rw e (
          a,
          inl (record { same = refl; flag = refl; closed = λ n. absurd (ground (arith, e, n)) }),
        )
    | inl e ↦ elim (Bool-cases (is_equiv private_set (f.firsts s.val))) [
      | inl q ↦
          rw (e, q)
            ((record { valid = a.valid; scratch_valid = private_set-IsValid }, inl (left-Idle q)))
      | inr q ↦ rw (e, q) ((grown-IsSound, inr (grown-Grown e q)))
    ]
  ]
