-- ===== src/Set/Cursor.antt =====
-- `set_next_member` and `set_print` of compiler/lib/set.c. The two `static` variables of
-- `set_next_member` are a `Cursor`: `last` is `lastSet`, as the address of a set or NULL, and
-- `current` is `current_member`. The caller's set comes with its address.
pub mod Enumerate
pub mod Next
use cgkits.Prelude.{
  ltb, ◌==◌, if◌then◌else◌, ℕ, zero, suc, ◌+◌, ◌-◌, Bool, false, ◌&&◌, Option, none, some, List, [],
  ◌∷◌, ◌++◌, map,
}
use cgkits.Set.{bits_in_word, SetS, words, test}

pub record Cursor : Type 0 where
  pub last : Option ℕ
  pub current : ℕ

-- `set_next_member(NULL)`.
unfoldable pub reset : Cursor → Cursor
reset c = record c { last = none }

-- `for(map = set->map; *map == 0 && current_member < set->nbits; ++map) current_member += 32`. On
-- a set of zeros the loop reads one word past the end; whatever stands there, it stops, since
-- `current_member` is `nbits` by then.
pub skip_words : ℕ → ℕ → List ℕ → ℕ
skip_words nbits current [] = current
skip_words nbits current (w ∷ ws) =
    let next = skip_words nbits (current + bits_in_word) ws in
    if w == 0 && ltb current nbits then next else current

-- `while(current_member++ < set->nbits)`, with the rounds that are left; the test that fails
-- counts up once more.
pub scan : ℕ → SetS → ℕ → Option ℕ × ℕ
unfolding test
scan zero s current = (none, current + 1)
scan (suc rounds) s current =
    let next = scan rounds s (current + 1) in
    if test s current then (some current, current + 1) else next

abbrev pub is_last : Option ℕ → ℕ → Bool
is_last none id = false
is_last (some j) id = j == id

-- Where the search starts: at the next element, or, in another set than the last, at the first
-- word that is not 0.
pub start_of : Cursor → ℕ → SetS → ℕ
unfolding skip_words words
start_of c id s = if is_last c.last id then c.current else skip_words s.nbits 0 (words s)

-- The element, or `none` for -1, and the cursor afterwards.
pub set_next_member : Cursor → ℕ → SetS → Option ℕ × Cursor
unfolding scan start_of
set_next_member c id s =
    let start = start_of c id s in
    let (found, current) = scan (s.nbits - start) s start in
    (found, record { last = some id; current = current })

-- `while((i = set_next_member(set)) >= 0)`: the elements that the calls return, at most `fuel`.
pub elements : ℕ → Cursor → ℕ → SetS → List ℕ
unfolding set_next_member
elements zero c id s = []
elements (suc fuel) c id s =
    let (found, c') = set_next_member c id s in
    elim found [ none ↦ [] | some x ↦ x ∷ elements fuel c' id s ]

-- The calls that `set_print` makes of the function it is given.
pub data Printed : Type 0 where
  null_set empty_set : Printed
  item : ℕ → Printed

abbrev pub or_empty : List ℕ → List Printed
or_empty [] = empty_set ∷ []
or_empty (x ∷ xs) = []

-- `set_print`: `is_empty` is still 1 after the loop when no element came, and for a NULL set.
-- The calls are the result; the call of `set_next_member` after the loop, which clears the static
-- cursor again, is left out.
pub set_print : Cursor → ℕ → Option SetS → List Printed
unfolding elements reset
set_print c id none = null_set ∷ empty_set ∷ []
set_print c id (some s) =
    let xs = elements (s.nbits + 1) (reset c) id s in map item xs ++ or_empty xs
