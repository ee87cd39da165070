-- ===== src/Parser/First/Passes.antt =====
-- The passes of `first` over the symbol table.
use mathlib.Core.List.{Memᴰ}
use mathlib.Core.List.Memᴰ
use cgkits.Prelude.{
  ◌==◌, ==_iff, Bool-cases, ℕ, zero, suc, ◌<◌, ◌≡◌, refl, sym, ◌∙◌, ◌⊎◌, inl, inr, Bool, true,
  false, ◌||◌, some, List, [], ◌∷◌, arith,
}
use cgkits.Set.{member}
use cgkits.Parser.Grammar.{Symbol, Grammar}
use cgkits.Parser.First.{Firsts, first_closure, first_pass, first}
use cgkits.Parser.First.Step.{closed_at, IsClosed, Idle, Grown, first_closure_cases}
use cgkits.Parser.First.Missing.{missing, missing-grows}
use cgkits.Parser.First.Invariant.{IsFirst, first_closure-IsFirst}

-- What a part of a pass did: nothing, because nothing was missing at its symbols; or it set
-- `_did_somthing` and made the sets larger.
pub record Quiet (g : Grammar) (ss : List Symbol) (f f' : Firsts) : Type 0 where
  pub same : f'.firsts ≡ f.firsts
  pub flag : f'.did_something ≡ f.did_something
  pub closed : (s : Symbol) → Memᴰ s ss → IsClosed g f.firsts s

pub record Progress (g : Grammar) (f f' : Firsts) : Type 0 where
  pub flag : f'.did_something ≡ true
  pub less : missing g f'.firsts < missing g f.firsts

Grown-grows :
    (g : Grammar) (s : Symbol) (f f' : Firsts)
    → Grown g s f f'
    → (v x : ℕ) → member (f.firsts v) x ≡ true
    → member (f'.firsts v) x ≡ true
unfolding closed_at
Grown-grows g s f f' b v x m = elim (Bool-cases (s.val == v)) [
  | inr e ↦ b.others v x e ∙ m
  | inl e ↦
      let same : s.val ≡ v = (==_iff s.val v).0 e in
      rw (sym same) (b.here x ∙ left {a = member (f.firsts s.val) x} _ (rw same m))
]
  where
    left : {a : Bool} (c : Bool) → a ≡ true → (a || c) ≡ true
    left {a = true} c e = refl
    left {a = false} c e = absurd cc

Grown-Progress :
    (g : Grammar) (s : Symbol) (f f' : Firsts)
    → Memᴰ s g.symtab
    → IsFirst g f'
    → Grown g s f f'
    → Progress g f f'
Grown-Progress g s f f' i v b = record {
  flag = b.flag;
  less =
      missing-grows g f.firsts f'.firsts s i (Grown-grows g s f f' b) (v.small s.val)
        (λ all. b.more (λ x. sym (b.here x) ∙ all x));
}

module _ (g : Grammar) (bound : g.currterm < 255) where
  -- A quiet step before a quiet rest, and so on.
  chain :
      (s : Symbol) (ss : List Symbol) (f m l : Firsts)
      → Idle g s f m ⊎ Progress g f m
      → Quiet g ss m l ⊎ Progress g m l
      → Quiet g (s ∷ ss) f l ⊎ Progress g f l
  chain s ss f m l (inl a) (inl b) = inl (record {
    same = b.same ∙ a.same;
    flag = b.flag ∙ a.flag;
    closed = λ t i. here t (Memᴰ.cases_cons i);
  })
    where
      here : (t : Symbol) → (t ≡ s) ⊎ Memᴰ t ss → IsClosed g f.firsts t
      here t (inl e) = rw e a.closed
      here t (inr i) = rw (sym a.same) (b.closed t i)
  chain s ss f m l (inl a) (inr q) = inr (record { flag = q.flag; less = rw (sym a.same) q.less })
  chain s ss f m l (inr p) (inl b) =
      inr (record { flag = b.flag ∙ p.flag; less = rw b.same p.less })
  chain s ss f m l (inr p) (inr q) =
      inr (record { flag = q.flag; less = omega (arith, p.less, q.less) })

  pub first_pass_cases :
      (ss : List Symbol) (f : Firsts)
      → ((s : Symbol) → Memᴰ s ss → Memᴰ s g.symtab)
      → IsFirst g f
      → IsFirst g (first_pass g ss f)
        × (Quiet g ss f (first_pass g ss f) ⊎ Progress g f (first_pass g ss f))
  unfolding first_pass
  first_pass_cases [] f all v =
      (v, inl (record { same = refl; flag = refl; closed = λ s i. elim i [ ] }))
  first_pass_cases (s ∷ ss) f all v =
      let i = all s (Memᴰ.head refl) in
      let m = first_closure g s f in
      let w = first_closure-IsFirst g s f bound i v in
      let rest = first_pass_cases ss m (λ t j. all t (Memᴰ.tail j)) w in
      let step = (first_closure_cases g s f v.sound).1 in
      (
        rest.0,
        chain s ss f m (first_pass g ss m)
            (elim step [ inl a ↦ inl a | inr b ↦ inr (Grown-Progress g s f m i w b) ]) rest.1,
      )

  -- The loop ends, with sets that are closed under all productions.
  pub first_ends :
      (fuel : ℕ) (f : Firsts)
      → IsFirst g f
      → missing g f.firsts < fuel
      → (f' : Firsts) × ((first g fuel f ≡ some f')
          × IsFirst g f'
          × ((s : Symbol) → Memᴰ s g.symtab → IsClosed g f'.firsts s))
  unfolding first
  first_ends zero f v l = absurd (omega arith)
  first_ends (suc fuel) f v l =
      let start : Firsts = record f { did_something = false } in
      let w : IsFirst g start = record {
        sound = record { valid = v.sound.valid; scratch_valid = v.sound.scratch_valid };
        small = v.small;
        derived = v.derived;
        only_nonterms = v.only_nonterms;
      } in
      let c = first_pass_cases g.symtab start (λ s i. i) w in
      let end = first_pass g g.symtab start in
      elim c.1 [
        | inl q ↦ rw q.flag ((end, (refl, c.0, λ s i. rw q.same (q.closed s i))))
        | inr p ↦ rw p.flag (first_ends fuel end c.0 (omega (arith, p.less)))
      ]
