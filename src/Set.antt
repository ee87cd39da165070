-- ===== src/Set.antt =====
-- Bit sets: compiler/lib/set.c and the macros of include/set.h.
--
-- A `SetS` is the struct `SET_S`. The pointer `map` either points at `defmap` (`heap` is `none`)
-- or at an array that `enlarge` or `set_dup` allocated (`heap` is `some`); `words` is what it
-- points at and `store` is a write through it. The words are `unsigned`, numbers below `2 ^ 32`.
-- An element is a nonnegative `int`. The allocations are taken to succeed (the code ends the
-- process where they do not), and the early return on a NULL set has no counterpart, since a
-- `SetS` is a set that exists.
mod Words
pub mod Valid
pub mod Member
pub mod Frame
pub mod Ops
pub mod Count
pub mod Few
pub mod Range
pub mod Cursor
use cgkits.Prelude.{
  ℕ, zero, suc, ◌+◌, ◌-◌, ◌*◌, ◌/◌, ◌%◌, ◌^◌, Bool, true, false, not, if◌then◌else◌,
}
use cgkits.Prelude.{Option, none, some, List, ◌++◌, map, leb, ◌==◌, get_or, set, replicate}
use cgkits.Bits.{bit_and, bit_or}

-- `_BITS_IN_WORD`, `_DEFWORDS` and `_DEFBITS`.
abbrev pub bits_in_word : ℕ
bits_in_word = 32

abbrev pub def_words : ℕ
def_words = 16

abbrev pub def_bits : ℕ
def_bits = 512

-- The largest `unsigned`, `~0`.
abbrev pub all_ones : ℕ
all_ones = 2 ^ 32 - 1

pub record SetS : Type 0 where
  pub nwords : ℕ
  pub compl : ℕ
  pub nbits : ℕ
  pub heap : Option (List ℕ)
  pub defmap : List ℕ

-- What `map` points at.
abbrev target : Option (List ℕ) → List ℕ → List ℕ
target none inline = inline
target (some ws) inline = ws

pub words : SetS → List ℕ
words s = target s.heap s.defmap

abbrev retarget : Option (List ℕ) → SetS → List ℕ → SetS
retarget none s ws = record s { defmap = ws }
retarget (some _) s ws = record s { heap = some ws }

-- A write through `map`.
pub store : SetS → List ℕ → SetS
store s ws = retarget s.heap s ws

pub set_new : SetS
set_new = record {
  nwords = def_words;
  compl = 0;
  nbits = def_bits;
  heap = none;
  defmap = replicate def_words 0;
}

abbrev dup_defmap : Option (List ℕ) → List ℕ → List ℕ
dup_defmap none inline = inline
dup_defmap (some _) inline = replicate def_words 0

-- The copy has the words of the original in an array of its own; a copy whose words are on the
-- heap has a `defmap` of zeros.
pub set_dup : SetS → SetS
set_dup s = record {
  nwords = s.nwords;
  compl = s.compl;
  nbits = s.nbits;
  heap = s.heap;
  defmap = dup_defmap s.heap s.defmap;
}

-- `enlarge`: a new array of `need` words, the old ones first.
pub enlarge : SetS → ℕ → SetS
unfolding words
enlarge s need = if leb need s.nwords then s else record s {
  nwords = need;
  nbits = need * bits_in_word;
  heap = some (words s ++ replicate (need - s.nwords) 0);
}

-- `_DIV_WSIZE` and `_MOD_WSIZE`, `x >> 5` and `x & 0x1f`.
abbrev pub div_wsize : ℕ → ℕ
div_wsize x = x / 32

abbrev pub mod_wsize : ℕ → ℕ
mod_wsize x = x % 32

-- `_ROUND`: the words that hold `x`, rounded up to a multiple of 16.
abbrev pub round : ℕ → ℕ
round x = (div_wsize x + 16) / 16 * 16

-- The word that `x` stands in.
abbrev pub word_of : SetS → ℕ → ℕ
word_of s x = get_or (words s) (div_wsize x) 0

-- `_SET_GBIT(s, x, |=)`.
pub or_bit : SetS → ℕ → SetS
unfolding words store
or_bit s x = store s (set (words s) (div_wsize x) (bit_or (word_of s x) (2 ^ mod_wsize x)))

-- `_SET_GBIT(s, x, &= ~)`.
pub clear_bit : SetS → ℕ → SetS
unfolding words store
clear_bit s x =
    store s (set (words s) (div_wsize x) (bit_and (word_of s x) (all_ones - 2 ^ mod_wsize x)))

pub set_add : SetS → ℕ → SetS
unfolding enlarge or_bit
set_add s x = or_bit (enlarge s (round x)) x

-- `SET_ADD`.
pub add : SetS → ℕ → SetS
unfolding set_add or_bit
add s x = if leb s.nbits x then set_add s x else or_bit s x

-- `SET_REMOVE`.
pub remove : SetS → ℕ → SetS
unfolding clear_bit
remove s x = if leb s.nbits x then s else clear_bit s x

-- `SET_MEMBER`, as the truth of its value.
pub member : SetS → ℕ → Bool
unfolding words
member s x = if leb s.nbits x then false else not (bit_and (word_of s x) (2 ^ mod_wsize x) == 0)

-- `SET_TEST`, as the truth of its value: `!compl` or `compl`.
pub test : SetS → ℕ → Bool
unfolding member
test s x = if member s x then s.compl == 0 else not (s.compl == 0)

-- `SET_COMPLEMENT`: `~` on the field `compl`.
pub complement : SetS → SetS
complement s = record s { compl = all_ones - s.compl }

-- `SET_CLEAR` and `SET_FILL`.
pub clear : SetS → SetS
unfolding words store
clear s = store s (replicate s.nwords 0)

pub fill : SetS → SetS
unfolding words store
fill s = store s (replicate s.nwords all_ones)

pub set_truncate : SetS → SetS
set_truncate s = record s {
  heap = none;
  nwords = def_words;
  nbits = def_bits;
  defmap = replicate def_words 0;
}
