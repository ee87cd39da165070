-- ===== src/Lex/Dodash.antt =====
-- `dodash` of compiler/lex/nfa.c, which reads a character class into a set. The tokens that
-- `advance` returns, the current one first, are a list, at whose end there are only `EOS`.
pub mod Items
use cgkits.Prelude.{set, ℕ, zero, suc, ◌+◌, ◌-◌, max, Option, none, some, List, [], ◌∷◌}
use cgkits.Set.{SetS, add}

-- The tokens that `dodash` tells apart; `other` has its `_lexeme`.
pub data Token : Type 0 where
  dash : Token
  ccl_end : Token
  eos : Token
  other : ℕ → Token

abbrev pub lexeme_of : Token → ℕ
lexeme_of dash = 45
lexeme_of ccl_end = 93
lexeme_of eos = 0
lexeme_of (other c) = c

-- `for(; first <= _lexeme; ++first) SET_ADD(set, first)`, with the number of rounds.
pub add_range : ℕ → ℕ → SetS → SetS
add_range first zero set = set
add_range first (suc n) set = add_range (first + 1) n (add set first)

-- The loop: the set and the tokens from the current one on. As long as `first` is `none`, it has no
-- value, and the result is `none` where it is read all the same. Behind a dash, the loop goes on
-- behind the next token, be it the end of the class.
pub dodash_loop : Option ℕ → List Token → SetS → Option (SetS × List Token)
unfolding add_range
dodash_loop first [] set = some (set, [])
dodash_loop first (eos ∷ ts) set = some (set, eos ∷ ts)
dodash_loop first (ccl_end ∷ ts) set = some (set, ccl_end ∷ ts)
dodash_loop first (other c ∷ ts) set = dodash_loop (some c) ts (add set c)
dodash_loop none (dash ∷ []) set = none
dodash_loop (some f) (dash ∷ []) set = some (add_range f (1 - f) set, [])
dodash_loop first (dash ∷ ccl_end ∷ ts) set = dodash_loop first ts (add set 45)
dodash_loop none (dash ∷ t ∷ ts) set = none
dodash_loop (some f) (dash ∷ t ∷ ts) set =
    dodash_loop (some (max f (lexeme_of t + 1))) ts (add_range f (lexeme_of t + 1 - f) set)

pub dodash : List Token → SetS → Option (SetS × List Token)
unfolding dodash_loop
dodash [] set = dodash_loop none [] set
dodash (dash ∷ ts) set = dodash_loop none ts (add set 45)
dodash (eos ∷ ts) set = dodash_loop none (eos ∷ ts) set
dodash (ccl_end ∷ ts) set = dodash_loop none (ccl_end ∷ ts) set
dodash (other c ∷ ts) set = dodash_loop none (other c ∷ ts) set
