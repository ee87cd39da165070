-- ===== src/Parser/Select/Correct.antt =====
-- What the select sets hold.
use cgkits.Prelude.{
  ◌==◌, ==_iff, Bool-cases, length, ℕ, ◌*◌, ◌<◌, ◌≡◌, refl, sym, ◌≢◌, ◌↔◌, ◌⊎◌, inl, inr, Bool,
  true, false, not, ◌&&◌, ◌||◌, some, List, [], ◌∷◌, arith,
}
use cgkits.Set.{SetS, set_new, member}
use cgkits.Set.Valid.{IsValid}
use cgkits.Set.Member.{member-remove, set_new-IsValid, member-set_new}
use cgkits.Set.Ops.{union_op, set_op}
use cgkits.Parser.Grammar.{is_nonterm, is_act, Grammar, Sets, epsilon}
use cgkits.Parser.First.{first_rhs, Firsts, first}
use cgkits.Parser.First.Closure.{
  leads, all_vanish, AreValid, union-IsValid, member-union, first_rhs_lem,
}
use cgkits.Parser.First.Begins.{Begins}
use cgkits.Parser.First.Correct.{fresh, first_holds}
use cgkits.Parser.Select.{select_set}

member-select_set :
    (g : Grammar) (firsts : Sets) (follow : SetS) (rhs : List ℕ) (x : ℕ)
    → AreValid firsts
    → IsValid follow
    → member (select_set g firsts follow rhs set_new) x ≡ (
        not (epsilon g == x)
        && (leads g firsts rhs x || (all_vanish g firsts rhs && member follow x)))
unfolding select_set
member-select_set g firsts follow rhs x valid v =
    let r = first_rhs_lem g firsts valid rhs set_new x set_new-IsValid in
    let led = (first_rhs g firsts set_new rhs).1 in
    let u = union-IsValid led follow r.0 v in
    elim (Bool-cases (epsilon g == x)) [
      | inl e ↦ ground (
        arith,
        member-remove led (epsilon g) x r.0,
        member-remove (set_op union_op led follow) (epsilon g) x u,
        e,
      )
      | inr e ↦
          let n : x ≢ epsilon g = λ q. ground (arith, q, e) in
          ground (
            arith,
            r.1,
            r.2 n,
            member-remove led (epsilon g) x r.0,
            member-remove (set_op union_op led follow) (epsilon g) x u,
            member-union led follow x r.0 v,
            member-set_new x,
            e,
          )
    ]

-- A string that may vanish: actions, and nonterminals that begin with EPSILON.
pub data Vanishes (g : Grammar) : List ℕ → Type 0 where
  nothing : Vanishes g []
  act : {y : ℕ} {ys : List ℕ} → is_act y ≡ true → Vanishes g ys → Vanishes g (y ∷ ys)
  null :
      {y : ℕ} {ys : List ℕ}
      → is_nonterm y ≡ true
      → Begins g (y ∷ []) (epsilon g)
      → Vanishes g ys
      → Vanishes g (y ∷ ys)

module _ (g : Grammar) (firsts : Sets)
    (right : (v x : ℕ)
      → is_nonterm v ≡ true
      → (member (firsts v) x ≡ true) ↔ Begins g (v ∷ []) x) where
  pub all_vanish-Vanishes : (ys : List ℕ) → all_vanish g firsts ys ≡ true → Vanishes g ys
  unfolding all_vanish
  all_vanish-Vanishes [] e = nothing
  all_vanish-Vanishes (y ∷ ys) e = elim (Bool-cases (is_act y)) [
    | inl a ↦ act a (all_vanish-Vanishes ys (ground (arith, e)))
    | inr a ↦
        let n : is_nonterm y ≡ true = ground (arith, a, e) in
        null n ((right y (epsilon g) n).0 (ground (arith, a, e)))
          (all_vanish-Vanishes ys (ground (arith, e)))
  ]

  pub Vanishes-all : (ys : List ℕ) → Vanishes g ys → all_vanish g firsts ys ≡ true
  unfolding all_vanish
  Vanishes-all _ nothing = refl
  Vanishes-all _ (act a v) = ground (arith, a, Vanishes-all _ v)
  Vanishes-all _ (null {y} n b v) = ground (arith, n, (right y (epsilon g) n).1 b, Vanishes-all _ v)

no_path : false ≡ true → ⊥
no_path e = cc

-- The test for a member, by what its parts stand for.
selected_iff :
    {a b c m : Bool} {x y : ℕ} {B C : Type 0}
    → (a ≡ true) ↔ (y ≡ x)
    → (b ≡ true) ↔ B
    → (c ≡ true) ↔ C
    → ((not a && (b || (c && m))) ≡ true) ↔ ((x ≢ y) × (B ⊎ (C × (m ≡ true))))
selected_iff {a = true} p q r = (λ e. absurd cc, λ h. absurd (h.0 (sym (p.0 refl))))
selected_iff {a = false} {b = true} p q r =
    (λ e. ((λ s. absurd (no_path (p.1 (sym s)))), inl (q.0 refl)), λ h. refl)
selected_iff {a = false} {b = false} {c = true} p q r = (
  λ e. ((λ s. absurd (no_path (p.1 (sym s)))), inr (r.0 refl, e)),
  λ h. elim h.1 [ inl b ↦ absurd (no_path (q.1 b)) | inr k ↦ k.1 ],
)
selected_iff {a = false} {b = false} {c = false} p q r =
    (λ e. absurd cc, λ h. elim h.1 [ inl b ↦ absurd (no_path (q.1 b)) | inr k ↦ r.1 k.0 ])

-- With at most 254 terminals and fuel for more than 256 passes for each symbol, `first` ends, and
-- then the select set of a production holds, EPSILON apart, what its right-hand side begins with,
-- and the FOLLOW set of its left-hand side if the right-hand side may vanish.
pub select_iff :
    (g : Grammar) (fuel : ℕ) (rhs : List ℕ) (follow : SetS)
    → g.currterm < 255
    → length g.symtab * 256 < fuel
    → IsValid follow
    → (f : Firsts) × ((first g fuel fresh ≡ some f)
        × ((x : ℕ)
            → (member (select_set g f.firsts follow rhs set_new) x ≡ true)
              ↔ ((x ≢ epsilon g) × (Begins g rhs x ⊎ (Vanishes g rhs × (member follow x ≡ true))))))
select_iff g fuel rhs follow bound enough v =
    let (f, e) = first_holds g fuel bound enough in
    (
      f,
      (
        e.ends,
        λ x. rw (member-select_set g f.firsts follow rhs x e.valid v) (
            selected_iff (==_iff (epsilon g) x) (e.leads_iff rhs x)
              (all_vanish-Vanishes g f.firsts e.right rhs, Vanishes-all g f.firsts e.right rhs)),
      ),
    )
