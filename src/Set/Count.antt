-- ===== src/Set/Count.antt =====
-- `set_num_ele` of compiler/lib/set.c: the number of members, by a table of the bits in each byte.
use cgkits.Prelude.{
  ◌==◌, if◌then◌else◌, ==_iff, length, get_or, ℕ, zero, suc, ◌+◌, ◌-◌, ◌*◌, ◌/◌, ◌%◌, ◌^◌, ◌<◌, ◌≡◌,
  refl, sym, ap, ◌∙◌, Bool, true, ◌&&◌, List, [], ◌∷◌, arith,
}
use cgkits.Bits.{bit}
use cgkits.Set.{SetS, words, member}
use cgkits.Set.Words.{word_bit, AreWords, word_bit_at}
use cgkits.Set.Valid.{IsValid, has, member-eq-has}

-- `nbits`, the table as it stands in the source.
abbrev byte_table : List ℕ
byte_table =
    0 ∷ 1 ∷ 1 ∷ 2 ∷ 1 ∷ 2 ∷ 2 ∷ 3 ∷ 1 ∷ 2 ∷ 2 ∷ 3 ∷ 2 ∷ 3 ∷ 3 ∷ 4 ∷ 1 ∷ 2 ∷ 2 ∷ 3 ∷ 2 ∷ 3 ∷ 3 ∷ 4
    ∷ 2 ∷ 3 ∷ 3 ∷ 4 ∷ 3 ∷ 4 ∷ 4 ∷ 5 ∷ 1 ∷ 2 ∷ 2 ∷ 3 ∷ 2 ∷ 3 ∷ 3 ∷ 4 ∷ 2 ∷ 3 ∷ 3 ∷ 4 ∷ 3 ∷ 4 ∷ 4 ∷ 5
    ∷ 2 ∷ 3 ∷ 3 ∷ 4 ∷ 3 ∷ 4 ∷ 4 ∷ 5 ∷ 3 ∷ 4 ∷ 4 ∷ 5 ∷ 4 ∷ 5 ∷ 5 ∷ 6 ∷ 1 ∷ 2 ∷ 2 ∷ 3 ∷ 2 ∷ 3 ∷ 3 ∷ 4
    ∷ 2 ∷ 3 ∷ 3 ∷ 4 ∷ 3 ∷ 4 ∷ 4 ∷ 5 ∷ 2 ∷ 3 ∷ 3 ∷ 4 ∷ 3 ∷ 4 ∷ 4 ∷ 5 ∷ 3 ∷ 4 ∷ 4 ∷ 5 ∷ 4 ∷ 5 ∷ 5 ∷ 6
    ∷ 2 ∷ 3 ∷ 3 ∷ 4 ∷ 3 ∷ 4 ∷ 4 ∷ 5 ∷ 3 ∷ 4 ∷ 4 ∷ 5 ∷ 4 ∷ 5 ∷ 5 ∷ 6 ∷ 3 ∷ 4 ∷ 4 ∷ 5 ∷ 4 ∷ 5 ∷ 5 ∷ 6
    ∷ 4 ∷ 5 ∷ 5 ∷ 6 ∷ 5 ∷ 6 ∷ 6 ∷ 7 ∷ 1 ∷ 2 ∷ 2 ∷ 3 ∷ 2 ∷ 3 ∷ 3 ∷ 4 ∷ 2 ∷ 3 ∷ 3 ∷ 4 ∷ 3 ∷ 4 ∷ 4 ∷ 5
    ∷ 2 ∷ 3 ∷ 3 ∷ 4 ∷ 3 ∷ 4 ∷ 4 ∷ 5 ∷ 3 ∷ 4 ∷ 4 ∷ 5 ∷ 4 ∷ 5 ∷ 5 ∷ 6 ∷ 2 ∷ 3 ∷ 3 ∷ 4 ∷ 3 ∷ 4 ∷ 4 ∷ 5
    ∷ 3 ∷ 4 ∷ 4 ∷ 5 ∷ 4 ∷ 5 ∷ 5 ∷ 6 ∷ 3 ∷ 4 ∷ 4 ∷ 5 ∷ 4 ∷ 5 ∷ 5 ∷ 6 ∷ 4 ∷ 5 ∷ 5 ∷ 6 ∷ 5 ∷ 6 ∷ 6 ∷ 7
    ∷ 2 ∷ 3 ∷ 3 ∷ 4 ∷ 3 ∷ 4 ∷ 4 ∷ 5 ∷ 3 ∷ 4 ∷ 4 ∷ 5 ∷ 4 ∷ 5 ∷ 5 ∷ 6 ∷ 3 ∷ 4 ∷ 4 ∷ 5 ∷ 4 ∷ 5 ∷ 5 ∷ 6
    ∷ 4 ∷ 5 ∷ 5 ∷ 6 ∷ 5 ∷ 6 ∷ 6 ∷ 7 ∷ 3 ∷ 4 ∷ 4 ∷ 5 ∷ 4 ∷ 5 ∷ 5 ∷ 6 ∷ 4 ∷ 5 ∷ 5 ∷ 6 ∷ 5 ∷ 6 ∷ 6 ∷ 7
    ∷ 4 ∷ 5 ∷ 5 ∷ 6 ∷ 5 ∷ 6 ∷ 6 ∷ 7 ∷ 5 ∷ 6 ∷ 6 ∷ 7 ∷ 6 ∷ 7 ∷ 7 ∷ 8 ∷ []

-- The four bytes of each word, in the order of a little-endian machine.
pub bytes : List ℕ → List ℕ
bytes [] = []
bytes (w ∷ ws) = (w % 256) ∷ (w / 256 % 256) ∷ (w / 65536 % 256) ∷ (w / 16777216 % 256) ∷ bytes ws

-- `for(i = ...; --i >= 0;) count += nbits[*p++]`.
pub count_bytes : ℕ → ℕ → List ℕ → ℕ
count_bytes zero count p = count
count_bytes (suc i) count [] = count
count_bytes (suc i) count (b ∷ p) = count_bytes i (count + get_or byte_table b 0) p

-- The count stays below the `unsigned` `nbits`, so it does not wrap.
pub set_num_ele : SetS → ℕ
unfolding count_bytes bytes words
set_num_ele s = count_bytes (s.nwords * 4) 0 (bytes (words s))

-- How many of `a, a + 1, ..., a + n - 1` satisfy `p`.
abbrev pub count_range : ℕ → ℕ → (ℕ → Bool) → ℕ
count_range a zero p = 0
count_range a (suc n) p = (if p a then 1 else 0) + count_range (a + 1) n p

count_range-add :
    (n m a : ℕ) (p : ℕ → Bool)
    → count_range a (n + m) p ≡ count_range a n p + count_range (a + n) m p
count_range-add zero m a p =
    let e : 0 + m ≡ m = omega arith in let e' : a + 0 ≡ a = omega arith in rw (e, e') (omega arith)
count_range-add (suc n) m a p =
    let e : suc n + m ≡ suc (n + m) = omega arith in
    let e' : a + suc n ≡ a + 1 + n = omega arith in
    rw (e, e') (omega (arith, count_range-add n m (a + 1) p))

-- The bits of a number among its lowest `n`.
pop : ℕ → ℕ → ℕ
pop zero w = 0
pop (suc n) w = w % 2 + pop n (w / 2)

all_below : ℕ → (ℕ → Bool) → Bool
all_below zero p = true
all_below (suc n) p = p n && all_below n p

all_below_sound : (n x : ℕ) (p : ℕ → Bool) → all_below n p ≡ true → x < n → p x ≡ true
unfolding all_below
all_below_sound zero x p h l = absurd (omega arith)
all_below_sound (suc n) x p h l = ground (arith, all_below_sound n x p)

-- Every entry of the table is right.
byte_table_checked : all_below 256 (λ b. get_or byte_table b 0 == pop 8 b) ≡ true
unfolding all_below pop
byte_table_checked = refl

byte_table_lem : (b : ℕ) → b < 256 → get_or byte_table b 0 ≡ pop 8 b
byte_table_lem b h = (==_iff _ _).0 (all_below_sound 256 b _ byte_table_checked h)

-- The lowest byte first.
pop_byte :
    (n w : ℕ)
    → pop (suc (suc (suc (suc (suc (suc (suc (suc n)))))))) w ≡ pop 8 (w % 256) + pop n (w / 256)
unfolding pop
pop_byte n w =
    let e : w / 2 / 2 / 2 / 2 / 2 / 2 / 2 / 2 ≡ w / 256 = omega arith in rw e (omega arith)

pop_bytes :
    (w : ℕ)
    → w < 2 ^ 32
    → pop 8 (w % 256) + pop 8 (w / 256 % 256) + pop 8 (w / 65536 % 256) + pop 8 (w / 16777216 % 256)
      ≡ pop 32 w
pop_bytes w h =
    let a : w / 256 / 256 ≡ w / 65536 = omega arith in
    let b : w / 256 / 256 / 256 ≡ w / 16777216 = omega arith in
    let z : pop 0 (w / 16777216 / 256) ≡ 0 = unfold pop in refl in
    ground (
      arith,
      pop_byte 24 w,
      pop_byte 16 (w / 256),
      pop_byte 8 (w / 65536),
      pop_byte 0 (w / 16777216),
      ap (pop 16) a,
    )

sum_pop : List ℕ → ℕ
sum_pop [] = 0
sum_pop (w ∷ ws) = pop 32 w + sum_pop ws

count_bytes_lem :
    (ws : List ℕ) (n count : ℕ)
    → length ws ≡ n
    → AreWords ws
    → count_bytes (n * 4) count (bytes ws) ≡ count + sum_pop ws
unfolding count_bytes bytes sum_pop
count_bytes_lem [] n count h a = let e : n ≡ 0 = omega arith in rw e (omega arith)
count_bytes_lem (w ∷ ws) n count h a =
    let e : n * 4 ≡ suc (suc (suc (suc ((n - 1) * 4)))) = omega arith in
    rw e (
      omega (
        arith,
        count_bytes_lem ws (n - 1) _ (omega arith) (λ i. a (suc i)),
        pop_bytes w (a 0),
        byte_table_lem (w % 256) (omega arith),
        byte_table_lem (w / 256 % 256) (omega arith),
        byte_table_lem (w / 65536 % 256) (omega arith),
        byte_table_lem (w / 16777216 % 256) (omega arith),
      ))

count_range-pop :
    (n a w : ℕ) (p : ℕ → Bool)
    → ((k : ℕ) → k < n → p (a + k) ≡ bit w k)
    → count_range a n p ≡ pop n w
unfolding pop bit
count_range-pop zero a w p h = refl
count_range-pop (suc n) a w p h =
    let first : p a ≡ bit w 0 = let z : a + 0 ≡ a = omega arith in rw z at (h 0 (omega arith)) in
    ground (
      arith,
      unfold_zero w,
      count_range-pop n (a + 1) (w / 2) p
          (λ k l. let z : a + suc k ≡ a + 1 + k = omega arith in rw z at (h (suc k) (omega arith))),
    )
  where
    unfold_zero : (w : ℕ) → bit w 0 ≡ (w % 2 == 1)
    unfold_zero w = refl

count_range-sum_pop :
    (ws : List ℕ) (i : ℕ) (p : ℕ → Bool)
    → ((j k : ℕ) → k < 32 → p ((i + j) * 32 + k) ≡ bit (get_or ws j 0) k)
    → count_range (i * 32) (length ws * 32) p ≡ sum_pop ws
unfolding sum_pop
count_range-sum_pop [] i p h = refl
count_range-sum_pop (w ∷ ws) i p h =
    let e : suc (length ws) * 32 ≡ 32 + length ws * 32 = omega arith in
    let e' : i * 32 + 32 ≡ (i + 1) * 32 = omega arith in
    rw (e, count_range-add 32 (length ws * 32) (i * 32) p, e')
      (omega (
        arith,
        count_range-pop 32 (i * 32) w p
            (λ k l. let z : i + 0 ≡ i = omega arith in rw z at (h 0 k l)),
        count_range-sum_pop ws (i + 1) p
            (λ j k l. let z : i + suc j ≡ i + 1 + j = omega arith in rw z at (h (suc j) k l)),
      ))

count_range-ext :
    (n a : ℕ) (p q : ℕ → Bool) → ((x : ℕ) → p x ≡ q x) → count_range a n p ≡ count_range a n q
count_range-ext zero a p q h = refl
count_range-ext (suc n) a p q h = ground (arith, h a, count_range-ext n (a + 1) p q h)

-- `set_num_ele` of a valid set is the number of elements below `nbits` that `SET_MEMBER` finds, so
-- the look-up table of bit counts has all of its 256 entries right.
pub set_num_ele_lem : (s : SetS) → IsValid s → set_num_ele s ≡ count_range 0 s.nbits (member s)
unfolding set_num_ele
set_num_ele_lem s v =
    count_bytes_lem (words s) s.nwords 0 v.sized v.small
    ∙ (omega (arith, by_words) ∙ count_range-ext s.nbits 0 (word_bit (words s)) (member s) reads)
  where
    reads : (x : ℕ) → word_bit (words s) x ≡ member s x
    reads x = sym (member-eq-has s x v ∙ unfold has in refl)

    size : length (words s) * 32 ≡ s.nbits
    size = omega (arith, v.sized, v.bits)

    by_words : count_range 0 s.nbits (word_bit (words s)) ≡ sum_pop (words s)
    by_words = rw (← size) (
        count_range-sum_pop (words s) 0 (word_bit (words s))
          (λ j k l. let z : 0 + j ≡ j = omega arith in rw z (word_bit_at (words s) j k l)))
