-- ===== src/Set/Valid.antt =====
-- The invariant that the operations of set.c keep: `nwords` counts the words, `nbits` their bits,
-- every word is an `unsigned`, and `defmap` has its 16 words.
use cgkits.Prelude.{ℕ, ◌-◌, ◌*◌, ◌/◌, ◌%◌, ◌≤◌, Bool, max}
use cgkits.Prelude.{◌≡◌, refl, sym, ap, ◌∙◌, arith, List, get_or, replicate, length}
use cgkits.Prelude.{leb, Bool-cases, inl, inr}
use cgkits.Prelude.{length-append, length-replicate}
use cgkits.Bits.{bit_and_mask}
use cgkits.Set.{SetS, words, store, enlarge, member}
use cgkits.Set.Words.{word_bit, AreWords, get_or-append_zeros, word_bit-past}

pub record IsValid (s : SetS) : Type 0 where
  pub sized : length (words s) ≡ s.nwords
  pub bits : s.nbits ≡ s.nwords * 32
  pub wide : 16 ≤ s.nwords
  pub inline : length s.defmap ≡ 16
  pub small : AreWords (words s)

-- What the set holds, `compl` aside: bit `x` of the words.
unfoldable pub has : SetS → ℕ → Bool
has s x = word_bit (words s) x

-- What `store` leaves as it was.
pub record IsStored (s t : SetS) (ws : List ℕ) : Type 0 where
  pub at : words t ≡ ws
  pub nwords : t.nwords ≡ s.nwords
  pub nbits : t.nbits ≡ s.nbits
  pub compl : t.compl ≡ s.compl
  pub inline : length ws ≡ s.nwords → length t.defmap ≡ 16

pub store-IsStored : (s : SetS) (ws : List ℕ) → IsValid s → IsStored s (store s ws) ws
unfolding words store
store-IsStored s ws v = record {
  at = ground arith;
  nwords = ground arith;
  nbits = ground arith;
  compl = ground arith;
  inline = λ n. ground arith;
}

pub store-IsValid :
    (s : SetS) (ws : List ℕ) → IsValid s → length ws ≡ s.nwords → AreWords ws → IsValid (store s ws)
store-IsValid s ws v n small =
    let k = store-IsStored s ws v in
    record {
      sized = ap length k.at ∙ n ∙ sym k.nwords;
      bits = k.nbits ∙ v.bits ∙ ap (λ (t : ℕ). t * 32) (sym k.nwords);
      wide = rw k.nwords v.wide;
      inline = k.inline n;
      small = rw k.at small;
    }

-- Under the invariant `SET_MEMBER` reads the bit.
pub member-eq-has : (s : SetS) (x : ℕ) → IsValid s → member s x ≡ has s x
unfolding member has word_bit
member-eq-has s x v = ground (
  arith,
  bit_and_mask 32 (get_or (words s) (x / 32) 0) (x % 32) (v.small (x / 32)),
  word_bit-past (words s) x,
)

-- Enlarging keeps the elements.
pub has-enlarge : (s : SetS) (need x : ℕ) → has (enlarge s need) x ≡ has s x
unfolding enlarge has word_bit words
has-enlarge s need x = elim (Bool-cases (leb need s.nwords)) [
  | inl e ↦ rw e
  | inr e ↦ rw (e, get_or-append_zeros (words s) (need - s.nwords) (x / 32))
]

pub enlarge-IsValid : (s : SetS) (need : ℕ) → IsValid s → IsValid (enlarge s need)
unfolding enlarge
enlarge-IsValid s need v = elim (Bool-cases (leb need s.nwords)) [
  | inl e ↦ rw e v
  | inr e ↦ rw e (record {
    sized =
        unfold words in
        ground (
          arith,
          v.sized,
          length-append (words s) (replicate (need - s.nwords) 0),
          length-replicate (need - s.nwords) (let z : ℕ = 0 in z),
        );
    bits = refl;
    wide = ground (arith, v.wide);
    inline = v.inline;
    small = unfold words in λ i. rw (get_or-append_zeros (words s) (need - s.nwords) i) (v.small i);
  })
]

pub nwords-enlarge : (s : SetS) (need : ℕ) → (enlarge s need).nwords ≡ max s.nwords need
unfolding enlarge
nwords-enlarge s need = ground arith

pub compl-enlarge : (s : SetS) (need : ℕ) → (enlarge s need).compl ≡ s.compl
unfolding enlarge
compl-enlarge s need = ground arith
