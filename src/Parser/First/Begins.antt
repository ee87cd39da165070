-- ===== src/Parser/First/Begins.antt =====
-- What FIRST sets should hold, by the rules in the comment of `first_closure`.
use mathlib.Core.List.{Memᴰ}
use cgkits.Prelude.{ℕ, ◌≡◌, ◌≢◌, true, List, [], ◌∷◌, ◌++◌}
use cgkits.Parser.Grammar.{is_term, is_nonterm, is_act, Production, Symbol, Grammar, epsilon}

-- `Begins g ys x`: `x` is among the FIRST symbols of the string `ys`. A terminal begins itself, a
-- nonterminal has what the right-hand sides of its productions begin with, and EPSILON for an
-- empty right-hand side; actions and nullable nonterminals are passed over. As in the rules, all
-- of FIRST(y) goes into FIRST(lhs), the EPSILON of a nullable `y` included.
pub data Begins (g : Grammar) : List ℕ → ℕ → Type 0 where
  past_act : {y x : ℕ} {ys : List ℕ} → is_act y ≡ true → Begins g ys x → Begins g (y ∷ ys) x
  at_term : {y : ℕ} {ys : List ℕ} → is_term y ≡ true → Begins g (y ∷ ys) y
  at_empty :
      {ys : List ℕ} (s : Symbol) (p : Production)
      → Memᴰ s g.symtab
      → is_nonterm s.val ≡ true
      → Memᴰ p s.productions
      → p.non_acts ≡ 0
      → Begins g (s.val ∷ ys) (epsilon g)
  at_first :
      {x : ℕ} {ys : List ℕ} (s : Symbol) (p : Production)
      → Memᴰ s g.symtab
      → is_nonterm s.val ≡ true
      → Memᴰ p s.productions
      → p.non_acts ≢ 0
      → Begins g p.rhs x
      → Begins g (s.val ∷ ys) x
  past_null :
      {y x : ℕ} {ys : List ℕ}
      → is_nonterm y ≡ true
      → Begins g (y ∷ []) (epsilon g)
      → Begins g ys x
      → Begins g (y ∷ ys) x

-- What a string begins with, a longer one begins with.
pub Begins-append : (g : Grammar) (ys zs : List ℕ) (x : ℕ) → Begins g ys x → Begins g (ys ++ zs) x
Begins-append g _ zs x (past_act a b) = past_act a (Begins-append g _ zs x b)
Begins-append g _ zs x (at_term t) = at_term t
Begins-append g _ zs x (at_empty s p i n j e) = at_empty s p i n j e
Begins-append g _ zs x (at_first s p i n j e b) = at_first s p i n j e b
Begins-append g _ zs x (past_null n e b) = past_null n e (Begins-append g _ zs x b)
