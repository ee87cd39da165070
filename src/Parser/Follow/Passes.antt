-- ===== src/Parser/Follow/Passes.antt =====
-- The passes of `follow` over the symbol table.
use mathlib.Core.List.{Memᴰ}
use mathlib.Core.List.Memᴰ
use mathlib.Core.Path.{subst}
use cgkits.Prelude.{
  Bool-cases, ℕ, zero, suc, ◌<◌, ◌≡◌, refl, sym, ap, ◌∙◌, ◌⊎◌, inl, inr, true, false, not, ◌||◌,
  some, List, [], ◌∷◌, arith,
}
use cgkits.Set.{member}
use cgkits.Parser.Grammar.{is_term, is_act, Production, Symbol, Grammar, Sets}
use cgkits.Parser.First.Closure.{all_vanish}
use cgkits.Parser.First.Missing.{missing}
use cgkits.Parser.Follow.{
  Follows, close_symbol, close_rhs, close_all, follow_closure, follow_pass, follow_loop,
}
use cgkits.Parser.Follow.Step.{
  is_plain, Keeps, Step, then-Step, fewer_names, no-Step, MayTake, close_symbol_cases,
}

-- Where FOLLOW(v) must be in FOLLOW(y), by a right-hand side, by some, and by the symbols of a
-- list.
pub data RhsLink (g : Grammar) (firsts : Sets) : List ℕ → ℕ → Type 0 where
  link_here :
      {x : ℕ} {xs : List ℕ}
      → is_plain x ≡ true
      → all_vanish g firsts xs ≡ true
      → RhsLink g firsts (x ∷ xs) x
  link_later : {x y : ℕ} {xs : List ℕ} → RhsLink g firsts xs y → RhsLink g firsts (x ∷ xs) y

abbrev pub SymbolLink : Grammar → Sets → Symbol → ℕ → ℕ → Type 0
SymbolLink g firsts s v y =
    (s.val ≡ v)
    × (is_plain s.val ≡ true)
    × ((p : Production) × (Memᴰ p s.productions × RhsLink g firsts p.rhs y))

link_cases :
    {g : Grammar} {firsts : Sets} {x : ℕ} {xs : List ℕ} {y : ℕ}
    → RhsLink g firsts (x ∷ xs) y
    → RhsLink g firsts xs y ⊎ ((is_plain x ≡ true) × (x ≡ y) × (all_vanish g firsts xs ≡ true))
link_cases (link_here plain v) = inr (plain, refl, v)
link_cases (link_later l) = inl l

module _ (g : Grammar) (firsts : Sets) (P : ℕ → ℕ → Type 0) where
  -- The symbols of a right-hand side may take over FOLLOW(lhs) where the rest may vanish.
  abbrev pub MayAll : ℕ → List ℕ → Type 0
  MayAll lhs [] = Unit {0}
  MayAll lhs (x ∷ xs) = (all_vanish g firsts xs ≡ true → MayTake g P lhs x) × MayAll lhs xs

  close_rhs-flag :
      (lhs : ℕ) (xs : List ℕ) (f : Follows)
      → (close_rhs g firsts lhs xs f).0 ≡ all_vanish g firsts xs
  unfolding close_rhs all_vanish
  close_rhs-flag lhs [] f = refl
  close_rhs-flag lhs (x ∷ xs) f = ground (arith, close_rhs-flag lhs xs f)

  close_rhs_cases :
      (lhs : ℕ) (xs : List ℕ) (f : Follows)
      → Keeps P f
      → MayAll lhs xs
      → Keeps P (close_rhs g firsts lhs xs f).1
        × Step g (λ v y. (lhs ≡ v) × RhsLink g firsts xs y) f (close_rhs g firsts lhs xs f).1
  unfolding close_rhs
  close_rhs_cases lhs [] f k may = (k, no-Step g _ f (λ v y l. elim l.1 [ ]))
  close_rhs_cases lhs (x ∷ xs) f k may =
      let behind = close_rhs g firsts lhs xs f in
      let ih = close_rhs_cases lhs xs f k may.1 in
      let flag = close_rhs-flag lhs xs f in
      elim (Bool-cases (all_vanish g firsts xs)) [
        | inl e ↦
            let here = close_symbol_cases g P lhs x behind.1 ih.0 (may.0 e) in
            rw (flag ∙ e) (
              here.0,
              then-Step g _ _ _ f behind.1 (close_symbol lhs x behind.1) (names e) ih.1 here.1,
            )
        | inr e ↦ rw (flag ∙ e) (ih.0, fewer_names g _ _ f behind.1 (fewer e) ih.1)
      ]
    where
      no_path : false ≡ true → ⊥
      no_path e = cc

      names :
          all_vanish g firsts xs ≡ true
          → (v y : ℕ) → (lhs ≡ v) × RhsLink g firsts (x ∷ xs) y
          → ((lhs ≡ v) × RhsLink g firsts xs y) ⊎ ((lhs ≡ v) × (is_plain x ≡ true) × (x ≡ y))
      names e v y l = elim (link_cases l.1) [
        | inl later ↦ inl (l.0, later)
        | inr h ↦ inr (l.0, h.0, h.1)
      ]

      fewer :
          all_vanish g firsts xs ≡ false
          → (v y : ℕ) → (lhs ≡ v) × RhsLink g firsts (x ∷ xs) y
          → (lhs ≡ v) × RhsLink g firsts xs y
      fewer e v y l = elim (link_cases l.1) [
        | inl later ↦ (l.0, later)
        | inr h ↦ absurd (no_path (sym e ∙ h.2))
      ]

  close_all_cases :
      (lhs : ℕ) (ps : List Production) (f : Follows)
      → Keeps P f
      → ((p : Production) → Memᴰ p ps → MayAll lhs p.rhs)
      → Keeps P (close_all g firsts lhs ps f)
        × Step g
            (λ v y. (lhs ≡ v) × ((p : Production) × (Memᴰ p ps × RhsLink g firsts p.rhs y)))
            f
            (close_all g firsts lhs ps f)
  unfolding close_all
  close_all_cases lhs [] f k may = (k, no-Step g _ f (λ v y l. Memᴰ.not-nil l.1.1.0))
  close_all_cases lhs (p ∷ ps) f k may =
      let m = (close_rhs g firsts lhs p.rhs f).1 in
      let one = close_rhs_cases lhs p.rhs f k (may p (Memᴰ.head refl)) in
      let rest = close_all_cases lhs ps m one.0 (λ q i. may q (Memᴰ.tail i)) in
      (
        rest.0,
        then-Step g _ _ _ f m (close_all g firsts lhs ps m)
            (λ v y l. elim (Memᴰ.cases_cons l.1.1.0) [
              | inl e ↦ inl (l.0, subst (λ q. RhsLink g firsts q.rhs y) e l.1.1.1)
              | inr i ↦ inr (l.0, (l.1.0, (i, l.1.1.1)))
            ])
            one.1 rest.1,
      )

  -- The symbols of the table may take over FOLLOW sets as their productions say.
  abbrev pub TableMay : Type 0
  TableMay =
      (s : Symbol) (p : Production)
      → Memᴰ s g.symtab
      → is_plain s.val ≡ true
      → Memᴰ p s.productions
      → MayAll s.val p.rhs

  follow_closure_cases :
      (s : Symbol) (f : Follows)
      → Keeps P f
      → Memᴰ s g.symtab
      → TableMay
      → Keeps P (follow_closure g firsts s f)
        × Step g (SymbolLink g firsts s) f (follow_closure g firsts s f)
  unfolding follow_closure
  follow_closure_cases s f k i may = elim (Bool-cases (is_act s.val || is_term s.val)) [
    | inl e ↦ rw e (k, no-Step g _ f (λ v y l. no_path (sym (ap not e) ∙ l.1)))
    | inr e ↦
        let plain : is_plain s.val ≡ true = ap not e in
        let all = close_all_cases s.val s.productions f k (λ p j. may s p i plain j) in
        rw e (
          all.0,
          fewer_names g _ _ f (close_all g firsts s.val s.productions f) (λ v y l. (l.0, l.2))
              all.1,
        )
  ]
    where
      no_path : false ≡ true → ⊥
      no_path e = cc

  follow_pass_cases :
      (ss : List Symbol) (f : Follows)
      → Keeps P f
      → ((s : Symbol) → Memᴰ s ss → Memᴰ s g.symtab)
      → TableMay
      → Keeps P (follow_pass g firsts ss f)
        × Step g
            (λ v y. (s : Symbol) × (Memᴰ s ss × SymbolLink g firsts s v y))
            f
            (follow_pass g firsts ss f)
  unfolding follow_pass
  follow_pass_cases [] f k all may = (k, no-Step g _ f (λ v y l. Memᴰ.not-nil l.1.0))
  follow_pass_cases (s ∷ ss) f k all may =
      let m = follow_closure g firsts s f in
      let one = follow_closure_cases s f k (all s (Memᴰ.head refl)) may in
      let rest = follow_pass_cases ss m one.0 (λ t i. all t (Memᴰ.tail i)) may in
      (
        rest.0,
        then-Step g _ _ _ f m (follow_pass g firsts ss m)
            (λ v y l. elim (Memᴰ.cases_cons l.1.0) [
              | inl e ↦ inl (subst (λ t. SymbolLink g firsts t v y) e l.1.1)
              | inr i ↦ inr (l.0, (i, l.1.1))
            ])
            one.1 rest.1,
      )

  -- The loop ends, with sets in which nothing is missing.
  pub follow_loop_ends :
      (fuel : ℕ) (f : Follows)
      → Keeps P f
      → TableMay
      → missing g f.follows < fuel
      → (sets : Sets) × ((follow_loop g firsts fuel f ≡ some sets)
          × Keeps P (record { follows = sets; did_something = false })
          × ((s : Symbol) (v y x : ℕ)
              → Memᴰ s g.symtab
              → SymbolLink g firsts s v y
              → member (sets v) x ≡ true
              → member (sets y) x ≡ true)
          × ((v x : ℕ) → member (f.follows v) x ≡ true → member (sets v) x ≡ true))
  unfolding follow_loop
  follow_loop_ends zero f k may l = absurd (omega arith)
  follow_loop_ends (suc fuel) f k may l =
      let start : Follows = record f { did_something = false } in
      let ks : Keeps P start = record { valid = k.valid; small = k.small; derived = k.derived } in
      let c = follow_pass_cases g.symtab start ks (λ s i. i) may in
      let end = follow_pass g firsts g.symtab start in
      let ke = c.0 in
      elim c.1 [
        | inl q ↦ rw q.flag (
            (
              end.follows,
              (
                refl,
                record { valid = ke.valid; small = ke.small; derived = ke.derived },
                λ s v y x i link m. (rw (sym q.same) at q.closed) v y x (s, (i, link)) m,
                λ v x m. (rw q.same m),
              ),
            ))
        | inr p ↦
            let (sets, rest) = follow_loop_ends fuel end ke may (omega (arith, p.less, l)) in
            rw p.flag ((sets, (rest.0, rest.1, rest.2, λ v x m. rest.3 v x (p.grows v x m))))
      ]
