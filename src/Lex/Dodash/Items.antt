-- ===== src/Lex/Dodash/Items.antt =====
-- What `dodash` of compiler/lex/nfa.c makes of a class of characters and ranges.
use cgkits.Prelude.{leb, ◌==◌, set, ℕ, ◌≡◌, Bool, false, ◌&&◌, ◌||◌, Option, some, List, [], ◌∷◌}
use cgkits.Set.{SetS, member}
use cgkits.Set.Valid.{IsValid}
use cgkits.Lex.Dodash.{Token, dash, other}

-- The parts of a class.
pub data Item : Type 0 where
  single : ℕ → Item
  range : ℕ → ℕ → Item

-- How they are written.
abbrev pub tokens : List Item → List Token
tokens [] = []
tokens (single c ∷ items) = other c ∷ tokens items
tokens (range a b ∷ items) = other a ∷ dash ∷ other b ∷ tokens items

-- The characters that they stand for. The first one of a range belongs to it in any case.
abbrev pub stands_for : Item → ℕ → Bool
stands_for (single c) x = x == c
stands_for (range a b) x = (x == a) || (leb a x && leb x b)

abbrev pub any_for : List Item → ℕ → Bool
any_for [] x = false
any_for (item ∷ items) x = stands_for item x || any_for items x

-- The result: the set with the characters of the class, and the tokens that are left.
abbrev pub Reads : List Item → List Token → SetS → Option (SetS × List Token) → Type 0
Reads items rest set r =
    (s : SetS) × ((r ≡ some (s, rest))
      × IsValid s
      × ((x : ℕ) → member s x ≡ (member set x || any_for items x)))
