-- ===== src/Set/Ops/Invert.antt =====
-- `set_invert` of compiler/lib/set.c, and `SET_CLEAR` and `SET_FILL` of include/set.h.
use cgkits.Prelude.{
  ltb, get_or, length-map, ℕ, ◌-◌, ◌/◌, ◌%◌, ◌≤◌, ◌≡◌, ◌∙◌, false, not, ◌&&◌, List, map, arith,
}
use cgkits.Bits.{bit-zero, bit-complement}
use cgkits.Set.{all_ones, SetS, words, member}
use cgkits.Set.Words.{word_bit, AreWords, get_or-map, word_bit-past}
use cgkits.Set.Valid.{IsValid, has, store-IsStored, store-IsValid, member-eq-has}
use cgkits.Set.Ops.{set_invert}

invert_small : (ws : List ℕ) → AreWords ws → AreWords (map (λ w. all_ones - w) ws)
invert_small ws a i = ground (arith, get_or-map (λ w. all_ones - w) ws i)

pub set_invert-IsValid : (s : SetS) → IsValid s → IsValid (set_invert s)
unfolding set_invert
set_invert-IsValid s v =
    store-IsValid s (map (λ w. all_ones - w) (words s)) v
      (length-map (words s) (λ w. all_ones - w) ∙ v.sized) (invert_small (words s) v.small)

has-set_invert :
    (s : SetS) (x : ℕ) → IsValid s → has (set_invert s) x ≡ (ltb x s.nbits && not (has s x))
unfolding set_invert has word_bit
has-set_invert s x v = rw ((store-IsStored s (map (λ w. all_ones - w) (words s)) v).at) (
    ground (
      arith,
      get_or-map (λ w. all_ones - w) (words s) (x / 32),
      bit-complement 32 (get_or (words s) (x / 32) 0) (x % 32) (v.small (x / 32)),
      bit-zero (x % 32),
      v.sized,
      v.bits,
    ))

-- `set_invert` of a valid set takes the complement within the `nbits` elements that the set has
-- room for, and doing it twice brings the members back.
pub member-set_invert :
    (s : SetS) (x : ℕ)
    → IsValid s
    → IsValid (set_invert s)
      × (member (set_invert s) x ≡ (ltb x s.nbits && not (member s x)))
      × (member (set_invert (set_invert s)) x ≡ member s x)
member-set_invert s x v = (w, once, twice)
  where
    w : IsValid (set_invert s)
    w = set_invert-IsValid s v

    once : member (set_invert s) x ≡ (ltb x s.nbits && not (member s x))
    once = rw (member-eq-has (set_invert s) x w, member-eq-has s x v) (has-set_invert s x v)

    kept : (set_invert s).nbits ≡ s.nbits
    kept = unfold set_invert in (store-IsStored s (map (λ u. all_ones - u) (words s)) v).nbits

    past : s.nbits ≤ x → has s x ≡ false
    past h = unfold has in word_bit-past (words s) x (omega (arith, v.sized, v.bits))

    twice : member (set_invert (set_invert s)) x ≡ member s x
    twice =
        rw
          (
            member-eq-has (set_invert (set_invert s)) x (set_invert-IsValid (set_invert s) w),
            member-eq-has s x v,
          )
          (ground (
            arith,
            has-set_invert (set_invert s) x w,
            has-set_invert s x v,
            kept,
            v.bits,
            v.sized,
            past,
          ))
