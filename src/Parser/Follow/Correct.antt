-- ===== src/Parser/Follow/Correct.antt =====
-- The FOLLOW sets of compiler/parser/llfollow.c are those of the rules.
use mathlib.Core.List.{Memᴰ}
use mathlib.Core.List.Memᴰ
use mathlib.Core.List.{append_assoc}
use cgkits.Prelude.{
  ◌==◌, ==_iff, Bool-cases, length, ℕ, ◌*◌, ◌<◌, ◌≡◌, refl, sym, ap, ◌∙◌, ◌≢◌, ◌↔◌, inl, inr, Bool,
  true, false, not, ◌&&◌, ◌||◌, Option, none, some, List, [], ◌∷◌, ◌++◌, arith,
}
use cgkits.Set.{set_new, member}
use cgkits.Set.Valid.{has}
use cgkits.Set.Member.{remove-IsValid, member-remove, set_new-IsValid, member-set_new}
use cgkits.Parser.Grammar.{is_term, is_nonterm, is_act, Production, Symbol, Grammar, Sets, epsilon}
use cgkits.Parser.First.{Firsts, first}
use cgkits.Parser.First.Closure.{leads, AreValid}
use cgkits.Parser.First.Begins.{Begins, past_act, at_term, at_empty, at_first, past_null}
use cgkits.Parser.First.Missing.{missing-bound}
use cgkits.Parser.First.Correct.{fresh, first_holds}
use cgkits.Parser.Select.Correct.{all_vanish-Vanishes, Vanishes-all}
use cgkits.Parser.Follow.{eoi, init_pass, Follows, remove_epsilon, remove_pass, follow}
use cgkits.Parser.Follow.Init.{all_adds, init_pass-Holds}
use cgkits.Parser.Follow.Trails.{IsGrammar, Trails, at_end, after, up}
use cgkits.Parser.Follow.Step.{is_plain, Keeps}
use cgkits.Parser.Follow.Passes.{SymbolLink, MayAll, follow_loop_ends}
use cgkits.Parser.Follow.Rules.{all_adds-Trails, Splits-adds, goal-adds, Splits-SymbolLink}

-- What begins a string, and what follows a nonterminal, is the value of a token.
Begins-small : (g : Grammar) (ys : List ℕ) (x : ℕ) → g.currterm < 255 → Begins g ys x → x < 256
Begins-small g _ x bound (past_act a b) = Begins-small g _ x bound b
Begins-small g _ x bound (at_term t) = ground (arith, t)
Begins-small g _ x bound (at_empty s p i n j e) = omega arith
Begins-small g _ x bound (at_first s p i n j e b) = Begins-small g _ x bound b
Begins-small g _ x bound (past_null n e b) = Begins-small g _ x bound b

Trails-small : (g : Grammar) (goal v x : ℕ) → g.currterm < 255 → Trails g goal v x → x < 256
Trails-small g goal v x bound (at_end t i e n) = omega arith
Trails-small g goal v x bound (after c n b) = Begins-small g _ x bound b
Trails-small g goal v x bound (up c n e t) = Trails-small g goal _ x bound t

module _ (g : Grammar) (ig : IsGrammar g) (goal : ℕ) (firsts : Sets) (valid : AreValid firsts)
    (right : (v x : ℕ)
      → is_nonterm v ≡ true
      → (member (firsts v) x ≡ true) ↔ Begins g (v ∷ []) x) where
  -- The end of a right-hand side, from what stands before it.
  may_all :
      (s : Symbol) (p : Production) (pre xs : List ℕ)
      → Memᴰ s g.symtab
      → is_plain s.val ≡ true
      → Memᴰ p s.productions
      → p.rhs ≡ pre ++ xs
      → MayAll g firsts (Trails g goal) s.val xs
  may_all s p pre [] i plain j e = tt
  may_all s p pre (x ∷ xs) i plain j e = (
    λ v plain_x.
        let inside : Memᴰ x p.rhs = rw e (Memᴰ.append_right pre (Memᴰ.head refl)) in
        let t = ig.rhs_in s p x i j inside (not_act x plain_x) (not_term x plain_x) in
        (
          (t.0, (t.1.0, t.1.1)),
          λ z trail.
              up
                (record {
                  s = s;
                  p = p;
                  pre = pre;
                  in_table = i;
                  is_lhs = refl;
                  nonterm = ig.lhs_in s i (not_act s.val plain) (not_term s.val plain);
                  of_lhs = j;
                  split = e;
                })
                t.1.2 (all_vanish-Vanishes g firsts right xs v) trail,
        ),
    may_all s p (pre ++ x ∷ []) xs i plain j (e ∙ sym (append_assoc pre (x ∷ []) xs)),
  )
    where
      not_act : (y : ℕ) → is_plain y ≡ true → is_act y ≡ false
      not_act y h = ground (arith, h)

      not_term : (y : ℕ) → is_plain y ≡ true → is_term y ≡ false
      not_term y h = ground (arith, h)

-- Whether `remove_epsilon` on the symbols reaches the set of `v`.
removes : List Symbol → ℕ → Bool
removes [] v = false
removes (s ∷ ss) v = (is_nonterm s.val && s.val == v) || removes ss v

removes-Memᴰ :
    (ss : List Symbol) (s : Symbol) → Memᴰ s ss → is_nonterm s.val ≡ true → removes ss s.val ≡ true
unfolding removes
removes-Memᴰ [] s i n = elim i [ ]
removes-Memᴰ (t ∷ ss) s (Memᴰ.head e) n =
    let same : s.val ≡ t.val = ap (λ (r : Symbol). r.val) e in ground (arith, same, n)
removes-Memᴰ (t ∷ ss) s (Memᴰ.tail i) n = ground (arith, removes-Memᴰ ss s i n)

remove_epsilon_lem :
    (g : Grammar) (s : Symbol) (f : Sets)
    → AreValid f
    → AreValid (remove_epsilon g s f)
      × ((v x : ℕ)
          → member (remove_epsilon g s f v) x
            ≡ (member (f v) x && not ((is_nonterm s.val && s.val == v) && epsilon g == x)))
unfolding remove_epsilon
remove_epsilon_lem g s f a = (
  λ v.
      let w = remove-IsValid (f s.val) (epsilon g) (a s.val) in
      elim (Bool-cases (is_nonterm s.val)) [
        | inr n ↦ rw n (a v)
        | inl n ↦ elim (Bool-cases (s.val == v)) [ inl e ↦ rw (n, e) w | inr e ↦ rw (n, e) (a v) ]
      ],
  λ v x. elim (Bool-cases (is_nonterm s.val)) [
    | inr n ↦ rw n (kept (member (f v) x))
    | inl n ↦ elim (Bool-cases (s.val == v)) [
      | inr e ↦ rw (n, e) (kept (member (f v) x))
      | inl e ↦
          let same : s.val ≡ v = (==_iff s.val v).0 e in
          rw (n, e)
            (member-remove (f s.val) (epsilon g) x (a s.val)
              ∙ swap (not (epsilon g == x)) (member (f s.val) x)
              ∙ rw same refl)
    ]
  ],
)
  where
    kept : (b : Bool) → b ≡ (b && true)
    kept true = refl
    kept false = refl

    swap : (b c : Bool) → (b && c) ≡ (c && b)
    swap b c = ground arith

member-remove_pass :
    (g : Grammar) (ss : List Symbol) (f : Sets) (v x : ℕ)
    → AreValid f
    → member (remove_pass g ss f v) x ≡ (member (f v) x && not (removes ss v && epsilon g == x))
unfolding remove_pass removes
member-remove_pass g [] f v x a = ground arith
member-remove_pass g (s ∷ ss) f v x a =
    let one = remove_epsilon_lem g s f a in
    member-remove_pass g ss (remove_epsilon g s f) v x one.0
    ∙ ap (λ b. b && not (removes ss v && epsilon g == x)) (one.1 v x)
    ∙ joined (member (f v) x) (is_nonterm s.val && s.val == v) (removes ss v) (epsilon g == x)
  where
    joined : (m r q e : Bool) → ((m && not (r && e)) && not (q && e)) ≡ (m && not ((r || q) && e))
    joined false r q e = refl
    joined true true q false = ground arith
    joined true true q true = refl
    joined true false q e = refl

module _ (g : Grammar) (ig : IsGrammar g) (goal : ℕ) (bound : g.currterm < 255) (firsts : Sets)
    (valid : AreValid firsts)
    (right : (v x : ℕ) → is_nonterm v ≡ true → (member (firsts v) x ≡ true) ↔ Begins g (v ∷ []) x)
    (leads_right : (ys : List ℕ) (x : ℕ) → (leads g firsts ys x ≡ true) ↔ Begins g ys x) where
  start : Follows
  start = record {
    follows = init_pass g firsts goal g.symtab (λ v. set_new);
    did_something = false;
  }

  start_holds :
      AreValid start.follows
      × ((v x : ℕ) → member (start.follows v) x ≡ all_adds g firsts goal g.symtab v x)
  unfolding start
  start_holds =
      let h = init_pass-Holds g firsts valid goal g.symtab (λ v. set_new) (λ v. set_new-IsValid) in
      (h.0, λ v x. h.1 v x ∙ ap (λ b. b || all_adds g firsts goal g.symtab v x) (member-set_new x))

  start-Keeps : Keeps (Trails g goal) start
  start-Keeps =
      let derived : (v x : ℕ) → member (start.follows v) x ≡ true → Trails g goal v x =
        λ v x m. all_adds-Trails g firsts goal leads_right v x (sym (start_holds.1 v x) ∙ m) in
      record {
        valid = start_holds.0;
        small = λ v x m. Trails-small g goal v x bound (derived v x m);
        derived = derived;
      }

  -- Sets that have what `init` adds, and in which nothing is missing, hold all that the rules ask.
  trails_complete :
      (sets : Sets)
      → ((s : Symbol) (v y x : ℕ)
          → Memᴰ s g.symtab
          → SymbolLink g firsts s v y
          → member (sets v) x ≡ true
          → member (sets y) x ≡ true)
      → ((v x : ℕ) → all_adds g firsts goal g.symtab v x ≡ true → member (sets v) x ≡ true)
      → (v x : ℕ) → Trails g goal v x
      → member (sets v) x ≡ true
  trails_complete sets closed has v x (at_end t i e n) =
      has goal eoi (goal-adds g firsts goal leads_right t i e n)
  trails_complete sets closed has v x (after c n b) =
      has v x (Splits-adds g firsts goal leads_right _ v x _ c n b)
  trails_complete sets closed has v x (up c n e t) =
      closed c.s _ v x c.in_table
        (Splits-SymbolLink g firsts _ v _ c n (Vanishes-all g firsts right _ e))
        (trails_complete sets closed has _ x t)

-- In a grammar whose right-hand sides have nonterminals of the symbol table only, with at most 254
-- terminals and fuel for more than 256 passes for each symbol, `first` and then `follow` end, and
-- FOLLOW of a nonterminal of the table holds, EPSILON apart, exactly what the rules say may follow
-- it.
pub follow_iff :
    (g : Grammar) (goal first_fuel fuel : ℕ)
    → IsGrammar g
    → g.currterm < 255
    → length g.symtab * 256 < first_fuel
    → length g.symtab * 256 < fuel
    → (f : Firsts) × ((first g first_fuel fresh ≡ some f)
        × ((sets : Sets) × ((follow g f.firsts goal fuel (λ v. set_new) ≡ some sets)
              × ((s : Symbol) (x : ℕ)
                  → Memᴰ s g.symtab
                  → is_nonterm s.val ≡ true
                  → (member (sets s.val) x ≡ true) ↔ ((x ≢ epsilon g) × Trails g goal s.val x)))))
unfolding follow start
follow_iff g goal first_fuel fuel ig bound enough_first enough =
    let (f, h) = first_holds g first_fuel bound enough_first in
    let begin = start g ig goal bound f.firsts h.valid h.right h.leads_iff in
    let holds = start_holds g ig goal bound f.firsts h.valid h.right h.leads_iff in
    let k = start-Keeps g ig goal bound f.firsts h.valid h.right h.leads_iff in
    let (sets, e) =
      follow_loop_ends g f.firsts (Trails g goal) fuel begin k
        (λ s p i plain j. may_all g ig goal f.firsts h.valid h.right s p [] p.rhs i plain j refl)
        (omega (arith, missing-bound g begin.follows, enough)) in
    let complete =
      trails_complete g ig goal bound f.firsts h.valid h.right h.leads_iff sets e.2
        (λ v x a. e.3 v x (holds.1 v x ∙ a)) in
    (
      f,
      (
        h.ends,
        (
          remove_pass g g.symtab sets,
          (
            ap
                (λ (o : Option Sets). elim o [
                  | none ↦ none
                  | some r ↦ some (remove_pass g g.symtab r)
                ])
                e.0,
            λ s x i n.
                rw
                  (
                    member-remove_pass g g.symtab sets s.val x e.1.valid,
                    removes-Memᴰ g.symtab s i n,
                  )
                  (kept_iff (==_iff (epsilon g) x) (e.1.derived s.val x) (complete s.val x)),
          ),
        ),
      ),
    )
  where
    kept_iff :
        {m b : Bool} {x y : ℕ} {T : Type 0}
        → (b ≡ true) ↔ (y ≡ x)
        → (m ≡ true → T)
        → (T → m ≡ true)
        → ((m && not b) ≡ true) ↔ ((x ≢ y) × T)
    kept_iff {b = true} p a c =
        (λ e. absurd (ground (arith, e)), λ h. absurd (h.0 (sym (p.0 refl))))
    kept_iff {m = true} {b = false} p a c =
        (λ e. ((λ q. absurd (ground (arith, p.1 (sym q)))), a refl), λ h. refl)
    kept_iff {m = false} {b = false} p a c = (λ e. absurd cc, λ h. c h.1)
