-- ===== src/Tests/Parser.antt =====
-- The theorems about compiler/parser at concrete grammars.
use mathlib.Core.List.{Memᴰ}
use mathlib.Core.List.Memᴰ
use mathlib.Core.Path.{subst}
use cgkits.Prelude.{ℕ, ◌≡◌, refl, sym, ◌≢◌, ◌↔◌, ◌⊎◌, inl, inr, true, false, some, [], ◌∷◌, arith}
use cgkits.Set.{set_new, add, member}
use cgkits.Set.Member.{add-IsValid, set_new-IsValid}
use cgkits.Parser.Grammar.{
  is_term, is_nonterm, Production, Symbol, Grammar, Sets, epsilon, nullable,
}
use cgkits.Parser.First.{Firsts, first}
use cgkits.Parser.First.Begins.{Begins}
use cgkits.Parser.First.Correct.{fresh, first_iff, first_overnullable}
use cgkits.Parser.Select.{select_set}
use cgkits.Parser.Select.Correct.{Vanishes, select_iff}
use cgkits.Parser.Follow.{follow}
use cgkits.Parser.Follow.Trails.{IsGrammar, Trails}
use cgkits.Parser.Follow.Correct.{follow_iff}

-- The nonterminal 256 has the right-hand side `257 2`, the nonterminal 257 the right-hand sides `1`
-- and the empty one.
abbrev long_rhs : Production
long_rhs = record { rhs = 257 ∷ 2 ∷ []; non_acts = 2 }

abbrev empty_rhs : Production
empty_rhs = record { rhs = []; non_acts = 0 }

abbrev outer : Symbol
outer = record { val = 256; productions = long_rhs ∷ [] }

abbrev inner : Symbol
inner = record { val = 257; productions = record { rhs = 1 ∷ []; non_acts = 1 } ∷ empty_rhs ∷ [] }

abbrev two_symbols : Grammar
two_symbols = record { symtab = outer ∷ inner ∷ []; currterm = 2 }

first_iff_example :
    (f : Firsts) × ((first two_symbols 513 fresh ≡ some f)
      × ((v x : ℕ)
          → is_nonterm v ≡ true
          → (member (f.firsts v) x ≡ true) ↔ Begins two_symbols (v ∷ []) x))
first_iff_example = first_iff two_symbols 513 (omega arith) (omega arith)

first_overnullable_example :
    (f : Firsts) × ((first two_symbols 513 fresh ≡ some f)
      × (nullable two_symbols f.firsts 256 ≡ true))
first_overnullable_example =
    first_overnullable two_symbols 513 2 outer inner long_rhs empty_rhs (omega arith) (omega arith)
      (Memᴰ.head refl) refl (Memᴰ.head refl) (λ e. ground (arith, e)) refl refl
      (Memᴰ.tail (Memᴰ.head refl)) refl (Memᴰ.tail (Memᴰ.head refl)) refl

select_iff_example :
    (f : Firsts) × ((first two_symbols 513 fresh ≡ some f)
      × ((x : ℕ)
          → (member (select_set two_symbols f.firsts (add set_new 0) (257 ∷ []) set_new) x ≡ true)
            ↔ ((x ≢ epsilon two_symbols)
                × (Begins two_symbols (257 ∷ []) x
                    ⊎ (Vanishes two_symbols (257 ∷ []) × (member (add set_new 0) x ≡ true))))))
select_iff_example =
    select_iff two_symbols 513 (257 ∷ []) (add set_new 0) (omega arith) (omega arith)
      (add-IsValid set_new 0 set_new-IsValid)

-- A nonterminal in a right-hand side of `two_symbols` can only be 257.
InTable : ℕ → Type 0
InTable v = (t : Symbol) × (Memᴰ t two_symbols.symtab × (t.val ≡ v) × (is_nonterm v ≡ true))

in_long : (v : ℕ) → Memᴰ v (257 ∷ 2 ∷ []) → is_term v ≡ false → InTable v
unfolding InTable
in_long v i no_term = elim (Memᴰ.cases_cons i) [
  | inl e ↦ (inner, (Memᴰ.tail (Memᴰ.head refl), sym e, rw e refl))
  | inr j ↦
      let e : v ≡ 2 = Memᴰ.eq_of_singleton j in
      let h : is_term 2 ≡ false = subst (λ w. is_term w ≡ false) e no_term in
      absurd (ground (arith, h))
]

in_short : (v : ℕ) → Memᴰ v (1 ∷ []) → is_term v ≡ false → InTable v
in_short v i no_term =
    let e : v ≡ 1 = Memᴰ.eq_of_singleton i in
    let h : is_term 1 ≡ false = subst (λ w. is_term w ≡ false) e no_term in
    absurd (ground (arith, h))

two_symbols-rhs :
    (s : Symbol) (p : Production) (v : ℕ)
    → Memᴰ s two_symbols.symtab
    → Memᴰ p s.productions
    → Memᴰ v p.rhs
    → is_term v ≡ false
    → InTable v
two_symbols-rhs s p v i j k no_term = elim (Memᴰ.cases_cons i) [
  | inl e ↦
      let own : p ≡ long_rhs =
        Memᴰ.eq_of_singleton (subst (λ (r : Symbol). Memᴰ p r.productions) e j) in
      in_long v (subst (λ (r : Production). Memᴰ v r.rhs) own k) no_term
  | inr i' ↦
      let e : s ≡ inner = Memᴰ.eq_of_singleton i' in
      elim (Memᴰ.cases_cons (subst (λ (r : Symbol). Memᴰ p r.productions) e j)) [
        | inl own ↦ in_short v (subst (λ (r : Production). Memᴰ v r.rhs) own k) no_term
        | inr j' ↦
            absurd
              (Memᴰ.not-nil (subst (λ (r : Production). Memᴰ v r.rhs) (Memᴰ.eq_of_singleton j') k))
      ]
]

two_symbols-lhs : (s : Symbol) → Memᴰ s two_symbols.symtab → is_nonterm s.val ≡ true
two_symbols-lhs s i = elim (Memᴰ.cases_cons i) [
  | inl e ↦ rw e refl
  | inr j ↦ rw (Memᴰ.eq_of_singleton j) refl
]

two_symbols-IsGrammar : IsGrammar two_symbols
unfolding InTable
two_symbols-IsGrammar = record {
  rhs_in = λ s p v i j k no_act no_term. two_symbols-rhs s p v i j k no_term;
  lhs_in = λ s i no_act no_term. two_symbols-lhs s i;
}

follow_iff_example :
    (f : Firsts) × ((first two_symbols 513 fresh ≡ some f)
      × ((sets : Sets) × ((follow two_symbols f.firsts 256 513 (λ v. set_new) ≡ some sets)
            × ((s : Symbol) (x : ℕ)
                → Memᴰ s two_symbols.symtab
                → is_nonterm s.val ≡ true
                → (member (sets s.val) x ≡ true)
                  ↔ ((x ≢ epsilon two_symbols) × Trails two_symbols 256 s.val x)))))
follow_iff_example =
    follow_iff two_symbols 256 513 513 two_symbols-IsGrammar (omega arith) (omega arith)
      (omega arith)
