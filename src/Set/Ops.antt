-- ===== src/Set/Ops.antt =====
-- The operations of compiler/lib/set.c on whole sets: `set_op` with the opcodes of include/set.h,
-- `set_subset`, `set_compare`, `set_test`, `set_hash`, `set_invert` and `set_num_ele`. Each loop
-- over the words is a recursion on its counter; where a pointer walks beside the counter, the rest
-- of the array that it points at is an argument.
pub mod Binary
pub mod Compare
pub mod Subset
pub mod Invert
pub mod Test
pub mod Hash
use cgkits.Prelude.{
  ℕ, zero, suc, ◌+◌, ◌-◌, ◌*◌, ◌/◌, ◌%◌, ◌^◌, Bool, true, false, not, if◌then◌else◌,
}
use cgkits.Prelude.{Option, none, some, List, [], ◌∷◌, map, leb, ltb, ◌==◌, get_or, min, max, ◌&&◌}
use cgkits.Bits.{bit_and, bit_or, bit_xor}
use cgkits.Set.{SetS, words, store, enlarge, all_ones}

-- The opcodes; `other_op` is every value that the `switch` sends to its default.
pub data SetOp : Type 0 where
  union_op intersect_op difference_op assign_op other_op : SetOp

-- `while(--ssize >= 0) *dp++ OP= *sp++`.
pub combine : (ℕ → ℕ → ℕ) → ℕ → List ℕ → List ℕ → List ℕ
combine f zero dp sp = dp
combine f (suc n) [] sp = []
combine f (suc n) (d ∷ dp) [] = d ∷ dp
combine f (suc n) (d ∷ dp) (s ∷ sp) = f d s ∷ combine f n dp sp

-- `while(--bigger >= 0) *dp++ = 0` with `dp` at the word `from`.
pub zero_rest : ℕ → ℕ → List ℕ → List ℕ
zero_rest from bigger [] = []
zero_rest (suc from) bigger (d ∷ dp) = d ∷ zero_rest from bigger dp
zero_rest zero zero (d ∷ dp) = d ∷ dp
zero_rest zero (suc n) (d ∷ dp) = 0 ∷ zero_rest zero n dp

-- The `switch` of `set_op` on the words of the two sets.
pub op_words : SetOp → ℕ → ℕ → List ℕ → List ℕ → List ℕ
unfolding combine zero_rest
op_words union_op ssize bigger dp sp = combine bit_or ssize dp sp
op_words intersect_op ssize bigger dp sp = zero_rest ssize bigger (combine bit_and ssize dp sp)
op_words difference_op ssize bigger dp sp = combine bit_xor ssize dp sp
op_words assign_op ssize bigger dp sp = zero_rest ssize bigger (combine (λ d s. s) ssize dp sp)
op_words other_op ssize bigger dp sp = dp

unfoldable pub set_op : SetOp → SetS → SetS → SetS
unfolding op_words enlarge words store
set_op op dst src =
    let d = if ltb dst.nwords src.nwords then enlarge dst src.nwords else dst in
    store d (op_words op src.nwords (d.nwords - src.nwords) (words d) (words src))

-- `while(--bigger >= 0) if(*p++) return ...`: whether some of the next `n` words is not 0.
pub any_nonzero : ℕ → List ℕ → Bool
any_nonzero zero ws = false
any_nonzero (suc n) [] = false
any_nonzero (suc n) (w ∷ ws) = let rest = any_nonzero n ws in if w == 0 then rest else true

-- The two loops of `set_subset`: over the common words, then over the rest of the subset.
pub subset_words : ℕ → ℕ → List ℕ → List ℕ → Bool
unfolding any_nonzero
subset_words zero bigger subsetp setp = not (any_nonzero bigger subsetp)
subset_words (suc common) bigger [] setp = true
subset_words (suc common) bigger (a ∷ subsetp) [] = true
subset_words (suc common) bigger (a ∷ subsetp) (b ∷ setp) =
    let rest = subset_words common bigger subsetp setp in if bit_and a b == a then rest else false

-- Whether `cmpset` is a subset of `set`.
unfoldable pub set_subset : SetS → SetS → Bool
unfolding subset_words words
set_subset set cmpset =
    if ltb set.nwords cmpset.nwords
    then subset_words set.nwords (cmpset.nwords - set.nwords) (words cmpset) (words set)
    else subset_words cmpset.nwords 0 (words cmpset) (words set)

-- `-1` as an `int`, by its bit pattern; the difference of two words is cut to an `int` likewise.
abbrev pub minus_one : ℕ
minus_one = all_ones

-- The loops of `set_compare`: the common words, then the longer set's rest. `more1` and `more2`
-- are what the sets have past the `n` common words; at most one of them is above 0.
pub compare_words : ℕ → ℕ → ℕ → List ℕ → List ℕ → ℕ
unfolding any_nonzero
compare_words zero more1 more2 p1 p2 =
    if ltb 0 more1
    then (if any_nonzero more1 p1 then 1 else 0)
    else if ltb 0 more2
    then (if any_nonzero more2 p2 then minus_one else 0)
    else 0
compare_words (suc n) more1 more2 [] p2 = 0
compare_words (suc n) more1 more2 (a ∷ p1) [] = 0
compare_words (suc n) more1 more2 (a ∷ p1) (b ∷ p2) =
    let rest = compare_words n more1 more2 p1 p2 in
    if a == b then rest else (a + 2 ^ 32 - b) % 2 ^ 32

-- `set_compare` of two sets that exist, as the bit pattern of its `int`. (The code's answer 0 for a
-- pointer compared with itself, before it looks at the words, is the branch left out.)
unfoldable pub set_compare : SetS → SetS → ℕ
unfolding compare_words words
set_compare set1 set2 =
    let i = min set1.nwords set2.nwords in
    compare_words i (set1.nwords - i) (set2.nwords - i) (words set1) (words set2)

-- `SET_IS_EQUIV`.
unfoldable pub is_equiv : SetS → SetS → Bool
unfolding set_compare
is_equiv set1 set2 = set_compare set1 set2 == 0

-- What `set_test` returns: `_SET_EQUIV`, `_SET_DISJ`, `_SET_INTER`.
pub data TestResult : Type 0 where
  equiv disj inter : TestResult

pub test_words : ℕ → TestResult → List ℕ → List ℕ → TestResult
test_words zero rval p1 p2 = rval
test_words (suc n) rval [] p2 = rval
test_words (suc n) rval (a ∷ p1) [] = rval
test_words (suc n) rval (a ∷ p1) (b ∷ p2) =
    let rest = test_words n (if a == b then rval else disj) p1 p2 in
    if a == b then rest else if bit_and a b == 0 then rest else inter

-- `set_test` enlarges both sets to one size; the result comes with the sets as it leaves them.
unfoldable pub set_test : SetS → SetS → TestResult × SetS × SetS
unfolding test_words enlarge words
set_test set1 set2 =
    let i = max set1.nwords set2.nwords in
    let t1 = enlarge set1 i in
    let t2 = enlarge set2 i in (test_words i equiv (words t1) (words t2), t1, t2)

-- `unsigned total`, wrapping around.
pub sum_words : ℕ → ℕ → List ℕ → ℕ
sum_words zero total ws = total
sum_words (suc n) total [] = total
sum_words (suc n) total (w ∷ ws) = sum_words n ((total + w) % 2 ^ 32) ws

unfoldable pub set_hash : SetS → ℕ
unfolding sum_words words
set_hash s = sum_words s.nwords 0 (words s)

unfoldable pub set_invert : SetS → SetS
unfolding store words
set_invert s = store s (map (λ w. all_ones - w) (words s))
