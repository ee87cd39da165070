-- ===== src/Parser/Follow/Rules.antt =====
-- The tests that `init` and `follow_closure` make, as the rules state them.
use mathlib.Core.List.{Memᴰ}
use mathlib.Core.List.Memᴰ
use mathlib.Core.Path.{subst}
use cgkits.Prelude.{
  ◌==◌, ==_iff, ℕ, ◌≡◌, refl, sym, ap, ◌↔◌, ◌⊎◌, inl, inr, Bool, true, false, ◌&&◌, ◌||◌, List, [],
  ◌∷◌, ◌++◌, arith,
}
use cgkits.Parser.Grammar.{is_nonterm, Production, Symbol, Grammar, Sets}
use cgkits.Parser.First.Closure.{leads, all_vanish}
use cgkits.Parser.First.Begins.{Begins}
use cgkits.Parser.Follow.{eoi}
use cgkits.Parser.Follow.Init.{adds, any_adds, symbol_adds, all_adds}
use cgkits.Parser.Follow.Trails.{Splits, Trails, at_end, after}
use cgkits.Parser.Follow.Step.{is_plain}
use cgkits.Parser.Follow.Passes.{RhsLink, link_here, link_later, SymbolLink}

or_cases : {a b : Bool} → (a || b) ≡ true → (a ≡ true) ⊎ (b ≡ true)
or_cases {a = true} e = inl refl
or_cases {a = false} e = inr e

and_parts : {a b : Bool} → (a && b) ≡ true → (a ≡ true) × (b ≡ true)
and_parts {a = true} e = (refl, e)
and_parts {a = false} e = absurd cc

or_left : {a : Bool} (b : Bool) → a ≡ true → (a || b) ≡ true
or_left {a = true} b e = refl
or_left {a = false} b e = absurd cc

or_right : (a : Bool) {b : Bool} → b ≡ true → (a || b) ≡ true
or_right true e = refl
or_right false e = e

-- A right-hand side that adds `x` to FOLLOW(v), cut at `v`.
adds_split :
    (g : Grammar) (firsts : Sets) (rhs : List ℕ) (v x : ℕ)
    → adds g firsts rhs v x ≡ true
    → (pre : List ℕ) × ((post : List ℕ) × ((rhs ≡ pre ++ v ∷ post)
          × (is_nonterm v ≡ true)
          × (leads g firsts post x ≡ true)))
unfolding adds
adds_split g firsts [] v x e = absurd cc
adds_split g firsts (y ∷ ys) v x e = elim (or_cases e) [
  | inl h ↦
      let n = and_parts h in
      let named : is_nonterm y ≡ true = n.0 in
      let s = and_parts n.1 in
      let same : y ≡ v = (==_iff y v).0 s.0 in
      ([], (ys, (ap (λ w. w ∷ ys) same, rw same at named, s.1)))
  | inr l ↦
      let (pre, r) = adds_split g firsts ys v x l in
      (y ∷ pre, (r.0, (ap (λ w. y ∷ w) r.1.0, r.1.1, r.1.2)))
]

split-adds :
    (g : Grammar) (firsts : Sets) (pre post : List ℕ) (v x : ℕ)
    → is_nonterm v ≡ true
    → leads g firsts post x ≡ true
    → adds g firsts (pre ++ v ∷ post) v x ≡ true
unfolding adds
split-adds g firsts [] post v x n l =
    let e : (v == v) ≡ true = (==_iff v v).1 refl in
    let here : (is_nonterm v && (v == v && leads g firsts post x)) ≡ true = rw (n, e) l in
    or_left _ here
split-adds g firsts (y ∷ pre) post v x n l = or_right _ (split-adds g firsts pre post v x n l)

any_adds-Memᴰ :
    (g : Grammar) (firsts : Sets) (ps : List Production) (p : Production) (v x : ℕ)
    → Memᴰ p ps
    → adds g firsts p.rhs v x ≡ true
    → any_adds g firsts ps v x ≡ true
unfolding any_adds
any_adds-Memᴰ g firsts [] p v x i e = elim i [ ]
any_adds-Memᴰ g firsts (q ∷ ps) p v x i e = elim (Memᴰ.cases_cons i) [
  | inl s ↦ or_left _ (subst (λ r. adds g firsts r.rhs v x ≡ true) s e)
  | inr j ↦ or_right _ (any_adds-Memᴰ g firsts ps p v x j e)
]

any_adds-cases :
    (g : Grammar) (firsts : Sets) (ps : List Production) (v x : ℕ)
    → any_adds g firsts ps v x ≡ true
    → (p : Production) × (Memᴰ p ps × (adds g firsts p.rhs v x ≡ true))
unfolding any_adds
any_adds-cases g firsts [] v x e = absurd cc
any_adds-cases g firsts (p ∷ ps) v x e = elim (or_cases e) [
  | inl h ↦ (p, (Memᴰ.head refl, h))
  | inr l ↦ let (q, c) = any_adds-cases g firsts ps v x l in (q, (Memᴰ.tail c.0, c.1))
]

all_adds-Memᴰ :
    (g : Grammar) (firsts : Sets) (goal : ℕ) (ss : List Symbol) (s : Symbol) (v x : ℕ)
    → Memᴰ s ss
    → symbol_adds g firsts goal s v x ≡ true
    → all_adds g firsts goal ss v x ≡ true
unfolding all_adds
all_adds-Memᴰ g firsts goal [] s v x i e = elim i [ ]
all_adds-Memᴰ g firsts goal (t ∷ ss) s v x i e = elim (Memᴰ.cases_cons i) [
  | inl q ↦ or_left _ (subst (λ r. symbol_adds g firsts goal r v x ≡ true) q e)
  | inr j ↦ or_right _ (all_adds-Memᴰ g firsts goal ss s v x j e)
]

all_adds-cases :
    (g : Grammar) (firsts : Sets) (goal : ℕ) (ss : List Symbol) (v x : ℕ)
    → all_adds g firsts goal ss v x ≡ true
    → (s : Symbol) × (Memᴰ s ss × (symbol_adds g firsts goal s v x ≡ true))
unfolding all_adds
all_adds-cases g firsts goal [] v x e = absurd cc
all_adds-cases g firsts goal (s ∷ ss) v x e = elim (or_cases e) [
  | inl h ↦ (s, (Memᴰ.head refl, h))
  | inr l ↦ let (q, c) = all_adds-cases g firsts goal ss v x l in (q, (Memᴰ.tail c.0, c.1))
]

module _ (g : Grammar) (firsts : Sets) (goal : ℕ)
    (right : (ys : List ℕ) (x : ℕ) → (leads g firsts ys x ≡ true) ↔ Begins g ys x) where
  -- What `init` adds follows by the first two rules.
  pub all_adds-Trails : (v x : ℕ) → all_adds g firsts goal g.symtab v x ≡ true → Trails g goal v x
  unfolding symbol_adds
  all_adds-Trails v x e =
      let (s, c) = all_adds-cases g firsts goal g.symtab v x e in
      let n = and_parts c.1 in
      let nonterm : is_nonterm s.val ≡ true = n.0 in
      elim (or_cases n.1) [
        | inl h ↦
            let a = and_parts h in
            let b = and_parts a.1 in
            let is_goal : s.val ≡ goal = (==_iff s.val goal).0 a.0 in
            rw (sym ((==_iff goal v).0 b.0), sym ((==_iff eoi x).0 b.1))
              (at_end s c.0 is_goal (rw is_goal at nonterm))
        | inr h ↦
            let (p, d) = any_adds-cases g firsts s.productions v x h in
            let (pre, r) = adds_split g firsts p.rhs v x d.1 in
            let k = r.1 in
            after
              (record {
                s = s;
                p = p;
                pre = pre;
                in_table = c.0;
                is_lhs = refl;
                nonterm = n.0;
                of_lhs = d.0;
                split = k.0;
              })
              k.1 ((right r.0 x).0 k.2)
      ]

  pub Splits-adds :
      (lhs v x : ℕ) (post : List ℕ)
      → Splits g lhs v post
      → is_nonterm v ≡ true
      → Begins g post x
      → all_adds g firsts goal g.symtab v x ≡ true
  unfolding symbol_adds
  Splits-adds lhs v x post c n b =
      let nonterm : is_nonterm c.s.val ≡ true = rw c.is_lhs c.nonterm in
      let one : adds g firsts c.p.rhs v x ≡ true =
        rw c.split (split-adds g firsts c.pre post v x n ((right post x).1 b)) in
      let some_add = any_adds-Memᴰ g firsts c.s.productions c.p v x c.of_lhs one in
      all_adds-Memᴰ g firsts goal g.symtab c.s v x c.in_table (rw nonterm (or_right _ some_add))

  pub goal-adds :
      (t : Symbol)
      → Memᴰ t g.symtab
      → t.val ≡ goal
      → is_nonterm goal ≡ true
      → all_adds g firsts goal g.symtab goal eoi ≡ true
  unfolding symbol_adds
  goal-adds t i e n =
      let nonterm : is_nonterm t.val ≡ true = rw e n in
      let at_goal : (t.val == goal) ≡ true = (==_iff t.val goal).1 e in
      let same : (goal == goal) ≡ true = (==_iff goal goal).1 refl in
      all_adds-Memᴰ g firsts goal g.symtab t goal eoi i (rw (nonterm, at_goal, same) refl)

link_split :
    (g : Grammar) (firsts : Sets) (pre post : List ℕ) (v : ℕ)
    → is_plain v ≡ true
    → all_vanish g firsts post ≡ true
    → RhsLink g firsts (pre ++ v ∷ post) v
link_split g firsts [] post v n e = link_here n e
link_split g firsts (y ∷ pre) post v n e = link_later (link_split g firsts pre post v n e)

pub nonterm-plain : (v : ℕ) → is_nonterm v ≡ true → is_plain v ≡ true
nonterm-plain v n = ground (arith, n)

pub Splits-SymbolLink :
    (g : Grammar) (firsts : Sets) (lhs v : ℕ) (post : List ℕ) (c : Splits g lhs v post)
    → is_nonterm v ≡ true
    → all_vanish g firsts post ≡ true
    → SymbolLink g firsts c.s lhs v
Splits-SymbolLink g firsts lhs v post c n e =
    let plain : is_plain lhs ≡ true = nonterm-plain lhs c.nonterm in
    (
      c.is_lhs,
      rw c.is_lhs plain,
      (c.p, (c.of_lhs, rw c.split (link_split g firsts c.pre post v (nonterm-plain v n) e))),
    )
