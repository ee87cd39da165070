-- ===== src/Parser/First/Correct.antt =====
-- The FIRST sets of compiler/parser/first.c are those of the rules.
use mathlib.Core.List.{Memᴰ}
use cgkits.Prelude.{
  length, ℕ, ◌*◌, ◌<◌, ◌≡◌, refl, ◌≢◌, ◌↔◌, true, false, some, List, [], ◌∷◌, arith,
}
use cgkits.Set.{set_new, member}
use cgkits.Set.Member.{set_new-IsValid, member-set_new}
use cgkits.Parser.Grammar.{
  is_term, is_nonterm, Production, Symbol, Grammar, Sets, epsilon, nullable,
}
use cgkits.Parser.First.{Firsts, first}
use cgkits.Parser.First.Closure.{leads, produces, any_produces, AreValid}
use cgkits.Parser.First.Step.{IsClosed}
use cgkits.Parser.First.Begins.{Begins, past_act, at_term, at_empty, at_first, past_null}
use cgkits.Parser.First.Missing.{missing-bound}
use cgkits.Parser.First.Invariant.{IsFirst, leads-Begins}
use cgkits.Parser.First.Passes.{first_ends}

any_produces-Memᴰ :
    (g : Grammar) (firsts : Sets) (p : Production) (ps : List Production) (x : ℕ)
    → Memᴰ p ps
    → produces g firsts p x ≡ true
    → any_produces g firsts ps x ≡ true
unfolding any_produces
any_produces-Memᴰ g firsts p [] x i e = elim i [ ]
any_produces-Memᴰ g firsts p (q ∷ ps) x (Memᴰ.head same) e = ground (arith, (rw same at e))
any_produces-Memᴰ g firsts p (q ∷ ps) x (Memᴰ.tail i) e =
    ground (arith, any_produces-Memᴰ g firsts p ps x i e)

module _ (g : Grammar) (firsts : Sets)
    (closed : (s : Symbol) → Memᴰ s g.symtab → IsClosed g firsts s) where
  -- Sets that are closed hold all that the rules ask for.
  pub leads_complete : (ys : List ℕ) (x : ℕ) → Begins g ys x → leads g firsts ys x ≡ true
  unfolding leads produces
  leads_complete _ x (past_act {y} {ys} a b) = rw a (leads_complete _ x b)
  leads_complete _ x (at_term t) = ground (arith, t)
  leads_complete _ x (at_empty s p i n j e) =
      let made = any_produces-Memᴰ g firsts p s.productions x j (ground (arith, e)) in
      ground (arith, n, closed s i n x made)
  leads_complete _ x (at_first s p i n j e b) =
      let made =
        any_produces-Memᴰ g firsts p s.productions x j
          (ground (arith, e, leads_complete p.rhs x b)) in
      ground (arith, n, closed s i n x made)
  leads_complete _ x (past_null n e b) =
      ground (arith, n, leads_complete _ (epsilon g) e, leads_complete _ x b)

-- The start of `first`: every symbol was made with an empty set.
abbrev pub fresh : Firsts
fresh = record { firsts = λ v. set_new; scratch = set_new; did_something = false }

pub fresh-IsFirst : (g : Grammar) → IsFirst g fresh
fresh-IsFirst g = record {
  sound = record { valid = λ v. set_new-IsValid; scratch_valid = set_new-IsValid };
  small = λ v x m. absurd (ground (arith, member-set_new x, m));
  derived = λ v x n m. absurd (ground (arith, member-set_new x, m));
  only_nonterms = λ v x n. member-set_new x;
}

member-leads :
    (g : Grammar) (firsts : Sets) (v x : ℕ)
    → is_nonterm v ≡ true
    → leads g firsts (v ∷ []) x ≡ true
    → member (firsts v) x ≡ true
unfolding leads
member-leads g firsts v x n e = ground (arith, n, e)

-- What holds of the result of `first`.
pub record HasFirst (g : Grammar) (fuel : ℕ) (f : Firsts) : Type 0 where
  pub ends : first g fuel fresh ≡ some f
  pub valid : AreValid f.firsts
  pub right : (v x : ℕ) → is_nonterm v ≡ true → (member (f.firsts v) x ≡ true) ↔ Begins g (v ∷ []) x
  pub leads_iff : (ys : List ℕ) (x : ℕ) → (leads g f.firsts ys x ≡ true) ↔ Begins g ys x

pub first_holds :
    (g : Grammar) (fuel : ℕ)
    → g.currterm < 255
    → length g.symtab * 256 < fuel
    → (f : Firsts) × HasFirst g fuel f
first_holds g fuel bound enough =
    let (f, e) =
      first_ends g bound fuel fresh (fresh-IsFirst g)
        (omega (arith, missing-bound g fresh.firsts, enough)) in
    let v = e.1 in
    let complete = leads_complete g f.firsts e.2 in
    (
      f,
      record {
        ends = e.0;
        valid = v.sound.valid;
        right = λ n x nonterm.
            (v.derived n x nonterm, λ b. member-leads g f.firsts n x nonterm (complete _ x b));
        leads_iff = λ ys x.
            (leads-Begins g bound f.firsts v.small v.derived v.only_nonterms ys x, complete ys x);
      },
    )

-- With at most 254 terminals, and fuel for more than 256 passes for each symbol, `first` ends, and
-- then FIRST of a nonterminal holds exactly what the rules say that it begins with.
pub first_iff :
    (g : Grammar) (fuel : ℕ)
    → g.currterm < 255
    → length g.symtab * 256 < fuel
    → (f : Firsts) × ((first g fuel fresh ≡ some f)
        × ((v x : ℕ) → is_nonterm v ≡ true → (member (f.firsts v) x ≡ true) ↔ Begins g (v ∷ []) x))
first_iff g fuel bound enough =
    let (f, e) = first_holds g fuel bound enough in (f, (e.ends, e.right))

-- FIRST keeps the EPSILON of a nullable nonterminal also where a terminal follows it: if, under the
-- conditions for `first` to end, a nonterminal `s` has the right-hand side `y c` and `y` an empty
-- one, then `s` is taken for nullable, although this right-hand side never vanishes.
pub first_overnullable :
    (g : Grammar) (fuel c : ℕ) (s y : Symbol) (p q : Production)
    → g.currterm < 255
    → length g.symtab * 256 < fuel
    → Memᴰ s g.symtab
    → is_nonterm s.val ≡ true
    → Memᴰ p s.productions
    → p.non_acts ≢ 0
    → p.rhs ≡ y.val ∷ c ∷ []
    → is_term c ≡ true
    → Memᴰ y g.symtab
    → is_nonterm y.val ≡ true
    → Memᴰ q y.productions
    → q.non_acts ≡ 0
    → (f : Firsts) × ((first g fuel fresh ≡ some f) × (nullable g f.firsts s.val ≡ true))
first_overnullable g fuel c s y p q bound enough i n j some_rhs e t i' n' j' none_rhs =
    let (f, h) = first_holds g fuel bound enough in
    let empty = at_empty {ys = c ∷ []} y q i' n' j' none_rhs in
    let b : Begins g p.rhs (epsilon g) = rw e empty in
    (f, (h.ends, rw (n, (h.right s.val (epsilon g) n).1 (at_first s p i n j some_rhs b)) refl))
