-- ===== src/Parser/Follow/Trails.antt =====
-- What FOLLOW sets should hold, by the rules in the comments of `init` and `follow_closure`.
use mathlib.Core.List.{Memᴰ}
use cgkits.Prelude.{ℕ, ◌≡◌, true, false, List, ◌∷◌, ◌++◌}
use cgkits.Parser.Grammar.{is_term, is_nonterm, is_act, Production, Symbol, Grammar}
use cgkits.Parser.First.Begins.{Begins}
use cgkits.Parser.Select.Correct.{Vanishes}
use cgkits.Parser.Follow.{eoi}

-- A symbol of a right-hand side that is neither an action nor a terminal is a nonterminal of the
-- symbol table, and so is a symbol that has productions.
pub record IsGrammar (g : Grammar) : Type 0 where
  pub rhs_in :
      (s : Symbol) (p : Production) (v : ℕ)
      → Memᴰ s g.symtab
      → Memᴰ p s.productions
      → Memᴰ v p.rhs
      → is_act v ≡ false
      → is_term v ≡ false
      → (t : Symbol) × (Memᴰ t g.symtab × (t.val ≡ v) × (is_nonterm v ≡ true))
  pub lhs_in :
      (s : Symbol)
      → Memᴰ s g.symtab
      → is_act s.val ≡ false
      → is_term s.val ≡ false
      → is_nonterm s.val ≡ true

-- A production of a nonterminal `lhs`, with `v` in it and `post` after that.
pub record Splits (g : Grammar) (lhs v : ℕ) (post : List ℕ) : Type 0 where
  pub s : Symbol
  pub p : Production
  pub pre : List ℕ
  pub in_table : Memᴰ s g.symtab
  pub is_lhs : s.val ≡ lhs
  pub nonterm : is_nonterm lhs ≡ true
  pub of_lhs : Memᴰ p s.productions
  pub split : p.rhs ≡ pre ++ v ∷ post

-- `Trails g goal v x`: `x` may follow the nonterminal `v`. The end of input follows the goal
-- symbol, what a string begins with follows the nonterminal before it, and what follows the
-- left-hand side follows a nonterminal of the right-hand side after which everything may vanish.
pub data Trails (g : Grammar) (goal : ℕ) : ℕ → ℕ → Type 0 where
  at_end :
      (t : Symbol)
      → Memᴰ t g.symtab
      → t.val ≡ goal
      → is_nonterm goal ≡ true
      → Trails g goal goal eoi
  after :
      {lhs v x : ℕ} {post : List ℕ}
      → Splits g lhs v post
      → is_nonterm v ≡ true
      → Begins g post x
      → Trails g goal v x
  up :
      {lhs v x : ℕ} {post : List ℕ}
      → Splits g lhs v post
      → is_nonterm v ≡ true
      → Vanishes g post
      → Trails g goal lhs x
      → Trails g goal v x
