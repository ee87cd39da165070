-- ===== src/Parser/First/Invariant.antt =====
-- The invariant of the passes of `first`.
use mathlib.Core.List.{Memᴰ}
use cgkits.Prelude.{
  ◌==◌, ==_iff, Bool-cases, ℕ, ◌<◌, ◌≡◌, refl, sym, ◌∙◌, ◌⊎◌, inl, inr, Bool, true, false, ◌&&◌,
  ◌||◌, List, [], ◌∷◌, arith,
}
use cgkits.Set.{member}
use cgkits.Parser.Grammar.{is_term, is_nonterm, is_act, Production, Symbol, Grammar, Sets, epsilon}
use cgkits.Parser.First.{Firsts, first_closure}
use cgkits.Parser.First.Closure.{leads, produces, any_produces}
use cgkits.Parser.First.Step.{IsSound, closed_at, Idle, Grown, first_closure_cases}
use cgkits.Parser.First.Begins.{
  Begins, past_act, at_term, at_empty, at_first, past_null, Begins-append,
}

-- The sets are valid, hold values of tokens, and hold only what the rules put there.
pub record IsFirst (g : Grammar) (f : Firsts) : Type 0 where
  pub sound : IsSound f
  pub small : (v x : ℕ) → member (f.firsts v) x ≡ true → x < 256
  pub derived : (v x : ℕ) → is_nonterm v ≡ true → member (f.firsts v) x ≡ true → Begins g (v ∷ []) x
  pub only_nonterms : (v x : ℕ) → is_nonterm v ≡ false → member (f.firsts v) x ≡ false

module _ (g : Grammar) (bound : g.currterm < 255) (firsts : Sets)
    (small : (v x : ℕ) → member (firsts v) x ≡ true → x < 256)
    (derived : (v x : ℕ) → is_nonterm v ≡ true → member (firsts v) x ≡ true → Begins g (v ∷ []) x)
    (only_nonterms : (v x : ℕ) → is_nonterm v ≡ false → member (firsts v) x ≡ false) where
  leads-small : (ys : List ℕ) (x : ℕ) → leads g firsts ys x ≡ true → x < 256
  unfolding leads
  leads-small (y ∷ ys) x e = ground (arith, leads-small ys x, small y x, e)
  leads-small [] x e = absurd cc

  any_produces-small : (ps : List Production) (x : ℕ) → any_produces g firsts ps x ≡ true → x < 256
  unfolding any_produces produces
  any_produces-small [] x e = absurd cc
  any_produces-small (p ∷ ps) x e = ground (arith, leads-small p.rhs x, any_produces-small ps x, e)

  -- What the sets so far lead to, the rules do.
  pub leads-Begins : (ys : List ℕ) (x : ℕ) → leads g firsts ys x ≡ true → Begins g ys x
  unfolding leads
  leads-Begins [] x e = absurd cc
  leads-Begins (y ∷ ys) x e = elim (Bool-cases (is_act y)) [
    | inl a ↦ past_act a (leads-Begins ys x (rw a at e))
    | inr a ↦ elim (Bool-cases (is_term y)) [
      | inl t ↦ let same : y ≡ x = ground (arith, (rw (a, t) at e)) in rw (sym same) (at_term t)
      | inr t ↦ elim (Bool-cases (member (firsts y) x)) [
        | inl m ↦ Begins-append g (y ∷ []) ys x (derived y x (nonterm y x m) m)
        | inr m ↦
            let both = and_parts (rw (a, t, m) at e) in
            let parts = and_parts both.0 in
            past_null parts.0 (derived y (epsilon g) parts.0 parts.1) (leads-Begins ys x both.1)
      ]
    ]
  ]
    where
      nonterm : (v x : ℕ) → member (firsts v) x ≡ true → is_nonterm v ≡ true
      nonterm v x m = elim (Bool-cases (is_nonterm v)) [
        | inl n ↦ n
        | inr n ↦ absurd (ground (arith, only_nonterms v x n, m))
      ]

      and_parts : {a b : Bool} → (a && b) ≡ true → (a ≡ true) × (b ≡ true)
      and_parts {a = true} e = (refl, e)
      and_parts {a = false} e = absurd cc

  any_produces-Begins :
      (s : Symbol) (ps : List Production) (x : ℕ)
      → Memᴰ s g.symtab
      → is_nonterm s.val ≡ true
      → ((p : Production) → Memᴰ p ps → Memᴰ p s.productions)
      → any_produces g firsts ps x ≡ true
      → Begins g (s.val ∷ []) x
  unfolding any_produces produces
  any_produces-Begins s [] x i n all e = absurd cc
  any_produces-Begins s (p ∷ ps) x i n all e = elim (Bool-cases (produces g firsts p x)) [
    | inr q ↦ any_produces-Begins s ps x i n (λ p' m. all p' (Memᴰ.tail m)) (rw q at e)
    | inl q ↦ elim (Bool-cases (p.non_acts == 0)) [
      | inl z ↦
          let same : epsilon g ≡ x = ground (arith, (rw z at q)) in
          rw (sym same) (at_empty s p i n (all p (Memᴰ.head refl)) (ground (arith, z)))
      | inr z ↦
          at_first s p i n (all p (Memᴰ.head refl)) (λ e. ground (arith, e, z))
            (leads-Begins p.rhs x (rw z at q))
    ]
  ]

module _ (g : Grammar) (s : Symbol) (f f' : Firsts) (bound : g.currterm < 255) (v : IsFirst g f)
    (sound : IsSound f') where
  Idle-IsFirst : Idle g s f f' → IsFirst g f'
  Idle-IsFirst b = record {
    sound = sound;
    small = rw b.same v.small;
    derived = rw b.same v.derived;
    only_nonterms = rw b.same v.only_nonterms;
  }

  -- What is new at the symbol comes from one of its productions.
  here_cases :
      (x : ℕ)
      → closed_at g f.firsts s x ≡ true
      → (member (f.firsts s.val) x ≡ true) ⊎ (any_produces g f.firsts s.productions x ≡ true)
  unfolding closed_at
  here_cases x e = or_cases e
    where
      or_cases : {a b : Bool} → (a || b) ≡ true → (a ≡ true) ⊎ (b ≡ true)
      or_cases {a = true} e = inl refl
      or_cases {a = false} e = inr e

  module _ (b : Grown g s f f') (i : Memᴰ s g.symtab) where
    at_here :
        (v' x : ℕ)
        → (s.val == v') ≡ true
        → member (f'.firsts v') x ≡ true
        → closed_at g f.firsts s x ≡ true
    at_here v' x e m = let same : s.val ≡ v' = (==_iff s.val v').0 e in sym (b.here x) ∙ (rw same m)

    Grown-small : (v' x : ℕ) → member (f'.firsts v') x ≡ true → x < 256
    Grown-small v' x m = elim (Bool-cases (s.val == v')) [
      | inr e ↦ v.small v' x (sym (b.others v' x e) ∙ m)
      | inl e ↦ elim (here_cases x (at_here v' x e m)) [
        | inl old ↦ v.small s.val x old
        | inr new ↦
            any_produces-small g bound f.firsts v.small v.derived v.only_nonterms s.productions x
              new
      ]
    ]

    Grown-derived :
        (v' x : ℕ) → is_nonterm v' ≡ true → member (f'.firsts v') x ≡ true → Begins g (v' ∷ []) x
    Grown-derived v' x n m = elim (Bool-cases (s.val == v')) [
      | inr e ↦ v.derived v' x n (sym (b.others v' x e) ∙ m)
      | inl e ↦
          let same : s.val ≡ v' = (==_iff s.val v').0 e in
          elim (here_cases x (at_here v' x e m)) [
            | inl old ↦ v.derived v' x n (rw (sym same) old)
            | inr new ↦ rw (sym same) (
                any_produces-Begins g bound f.firsts v.small v.derived v.only_nonterms s
                  s.productions x i b.nonterm (λ p m. m) new)
          ]
    ]

    Grown-IsFirst : IsFirst g f'
    Grown-IsFirst = record {
      sound = sound;
      small = Grown-small;
      derived = Grown-derived;
      only_nonterms = λ v' x n. elim (Bool-cases (s.val == v')) [
        | inr e ↦ b.others v' x e ∙ v.only_nonterms v' x n
        | inl e ↦
            let same : s.val ≡ v' = (==_iff s.val v').0 e in
            absurd (differ (sym b.nonterm ∙ (rw same n)))
      ];
    }
      where
        differ : true ≡ false → ⊥
        differ e = cc

-- One call of `first_closure` keeps the invariant.
pub first_closure-IsFirst :
    (g : Grammar) (s : Symbol) (f : Firsts)
    → g.currterm < 255
    → Memᴰ s g.symtab
    → IsFirst g f
    → IsFirst g (first_closure g s f)
first_closure-IsFirst g s f bound i v =
    let both = first_closure_cases g s f v.sound in
    elim both.1 [
      | inl b ↦ Idle-IsFirst g s f (first_closure g s f) bound v both.0 b
      | inr b ↦ Grown-IsFirst g s f (first_closure g s f) bound v both.0 b i
    ]
