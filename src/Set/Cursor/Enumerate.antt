-- ===== src/Set/Cursor/Enumerate.antt =====
-- What `set_next_member` and `set_print` of compiler/lib/set.c go through, and in which order.
use mathlib.Core.List.{append-nil}
use cgkits.Prelude.{
  ltb, ◌==◌, if◌then◌else◌, Bool-cases, length, get_or, ℕ, zero, suc, ◌+◌, ◌-◌, ◌*◌, ◌/◌, ◌%◌, ◌≤◌,
  ◌<◌, ◌≡◌, refl, sym, ap, ◌∙◌, ◌≢◌, ◌⊎◌, inl, inr, Bool, true, false, ◌&&◌, Option, none, some,
  List, [], ◌∷◌, ◌++◌, map, arith,
}
use cgkits.Bits.{bit, bit-zero}
use cgkits.Set.{SetS, words, member, test}
use cgkits.Set.Words.{word_bit, word_bit_at}
use cgkits.Set.Valid.{IsValid, has, member-eq-has}
use cgkits.Set.Cursor.{
  Cursor, reset, skip_words, scan, start_of, set_next_member, elements, Printed, empty_set, item,
  or_empty, set_print,
}
use cgkits.Set.Ops.Test.{word_at}

-- Those of `a, a + 1, ..., a + n - 1` that satisfy `p`, in increasing order.
abbrev pub list_range : ℕ → ℕ → (ℕ → Bool) → List ℕ
list_range a zero p = []
list_range a (suc n) p = if p a then a ∷ list_range (a + 1) n p else list_range (a + 1) n p

list_range-ext :
    (n a : ℕ) (p q : ℕ → Bool) → ((x : ℕ) → p x ≡ q x) → list_range a n p ≡ list_range a n q
list_range-ext zero a p q h = refl
list_range-ext (suc n) a p q h = ground (arith, h a, list_range-ext n (a + 1) p q h)

-- A stretch in which nothing satisfies `p` can be left out.
list_range-skip :
    (n m a : ℕ) (p : ℕ → Bool)
    → ((x : ℕ) → a ≤ x → x < a + n → p x ≡ false)
    → list_range a (n + m) p ≡ list_range (a + n) m p
list_range-skip zero m a p h =
    let e : 0 + m ≡ m = omega arith in let e' : a + 0 ≡ a = omega arith in rw (e, e')
list_range-skip (suc n) m a p h =
    let e : suc n + m ≡ suc (n + m) = omega arith in
    let e' : a + suc n ≡ a + 1 + n = omega arith in
    let first : p a ≡ false = h a (omega arith) (omega arith) in
    rw (e, e', first) (list_range-skip n m (a + 1) p (λ x l u. h x (omega arith) (omega arith)))

-- What one search finds: nothing, or the first element with the rest still to come.
data Found (s : SetS) (rounds current : ℕ) : Option ℕ × ℕ → Type 0 where
  nothing : {c : ℕ} → list_range current rounds (test s) ≡ [] → Found s rounds current (none, c)
  first :
      {x c left : ℕ}
      → list_range current rounds (test s) ≡ x ∷ list_range c left (test s)
      → c + left ≡ current + rounds
      → left < rounds
      → Found s rounds current (some x, c)

scan-Found : (rounds : ℕ) (s : SetS) (current : ℕ) → Found s rounds current (scan rounds s current)
unfolding scan
scan-Found zero s current = nothing refl
scan-Found (suc rounds) s current = elim (Bool-cases (test s current)) [
  | inl e ↦ rw e (first {left = rounds} (rw e) (omega arith) (omega arith))
  | inr e ↦ rw e (later (scan rounds s (current + 1)) (scan-Found rounds s (current + 1)) e)
]
  where
    later :
        (r : Option ℕ × ℕ)
        → Found s rounds (current + 1) r
        → test s current ≡ false
        → Found s (suc rounds) current r
    later (none, c) (nothing h) e = nothing (rw e h)
    later (some x, c) (first {left} h q l) e =
        first {left = left} (rw e h) (omega arith) (omega arith)

-- The cursor within the set at `id`.
abbrev pub inside : ℕ → ℕ → Cursor
inside id current = record { last = some id; current = current }

after : ℕ → ℕ → SetS → Option ℕ × ℕ → List ℕ
after fuel id s (none, c) = []
after fuel id s (some x, c) = x ∷ elements fuel (inside id c) id s

elements-suc :
    (fuel id : ℕ) (c : Cursor) (s : SetS)
    → elements (suc fuel) c id s
      ≡ after fuel id s (scan (s.nbits - start_of c id s) s (start_of c id s))
unfolding elements set_next_member after
elements-suc fuel id c s =
    elim (scan_cases (scan (s.nbits - start_of c id s) s (start_of c id s))) [
      | inl (n, e) ↦ ground arith
      | inr (x, n, e) ↦ ground arith
    ]
  where
    scan_cases :
        (r : Option ℕ × ℕ) → ((n : ℕ) × (r ≡ (none, n))) ⊎ ((x : ℕ) × (n : ℕ) × (r ≡ (some x, n)))
    scan_cases (none, n) = inl (n, refl)
    scan_cases (some x, n) = inr (x, n, refl)

pub start_of-inside : (id current : ℕ) (s : SetS) → start_of (inside id current) id s ≡ current
unfolding start_of
start_of-inside id current s = ground arith

start_of-reset :
    (id : ℕ) (c : Cursor) (s : SetS) → start_of (reset c) id s ≡ skip_words s.nbits 0 (words s)
unfolding start_of reset
start_of-reset id c s = refl

elements-inside :
    (fuel rounds current id : ℕ) (s : SetS)
    → rounds < fuel
    → s.nbits - current ≡ rounds
    → elements fuel (inside id current) id s ≡ list_range current rounds (test s)
elements-inside zero rounds current id s h e = absurd (omega arith)
elements-inside (suc fuel) rounds current id s h e =
    rw (elements-suc fuel id (inside id current) s, start_of-inside id current s, e)
      (found (scan rounds s current) (scan-Found rounds s current)
        (λ c left p q. elements-inside fuel left c id s (omega arith) (omega arith)))
  where
    found :
        (r : Option ℕ × ℕ)
        → Found s rounds current r
        → ((c left : ℕ)
            → c + left ≡ current + rounds
            → left < rounds
            → elements fuel (inside id c) id s ≡ list_range c left (test s))
        → after fuel id s r ≡ list_range current rounds (test s)
    found (none, c) (nothing p) ih = unfold after in sym p
    found (some x, c) (first {left} p q l) ih = unfold after in rw (p, ih c left q l)

skip_words_lem :
    (ws : List ℕ) (nbits a : ℕ) (p : ℕ → Bool)
    → ((j k : ℕ) → k < 32 → p (a + j * 32 + k) ≡ bit (get_or ws j 0) k)
    → (a ≤ skip_words nbits a ws)
      × (skip_words nbits a ws ≤ a + length ws * 32)
      × ((x : ℕ) → a ≤ x → x < skip_words nbits a ws → p x ≡ false)
unfolding skip_words
skip_words_lem [] nbits a p h = (omega arith, omega arith, λ x l u. absurd (omega arith))
skip_words_lem (w ∷ ws) nbits a p h =
    let ih = skip_words_lem ws nbits (a + 32) p shift in
    elim (Bool-cases (w == 0 && ltb a nbits)) [
      | inr e ↦ rw e (omega arith, omega arith, λ x l u. absurd (omega arith))
      | inl e ↦ rw e (
        omega (arith, ih.0),
        omega (arith, ih.1),
        λ x l u. elim (Bool-cases (ltb x (a + 32))) [
          | inl near ↦ within x l (ground arith) (ground arith)
          | inr far ↦ ih.2 x (ground arith) u
        ],
      )
    ]
  where
    shift : (j k : ℕ) → k < 32 → p (a + 32 + j * 32 + k) ≡ bit (get_or ws j 0) k
    shift j k l =
        let e : a + suc j * 32 + k ≡ a + 32 + j * 32 + k = omega arith in rw e at (h (suc j) k l)

    within : (x : ℕ) → a ≤ x → x < a + 32 → w ≡ 0 → p x ≡ false
    within x l u z =
        let e : a + 0 * 32 + (x - a) ≡ x = omega arith in
        rw (e, z, bit-zero (x - a)) at (h 0 (x - a) (omega arith))

module _ (s : SetS) (v : IsValid s) (plain : s.compl ≡ 0) where
  abbrev pub start : ℕ
  start = skip_words s.nbits 0 (words s)

  pub test_plain : (x : ℕ) → test s x ≡ member s x
  test_plain x = unfold test in ground (arith, plain)

  pub start_lem : (start ≤ s.nbits) × ((x : ℕ) → x < start → test s x ≡ false)
  start_lem =
      let l = skip_words_lem (words s) s.nbits 0 (word_bit (words s)) (λ j k h.
        let e : 0 + j * 32 + k ≡ j * 32 + k = omega arith in rw e (word_bit_at (words s) j k h)) in
      (
        omega (arith, l.1, v.sized, v.bits),
        λ x h. rw (test_plain x, member-eq-has s x v) (unfold has in l.2 x (omega arith) h),
      )

  -- From a reset cursor the calls of `set_next_member` return the members of a valid set that is
  -- not complemented, all of them, each once and in increasing order, and then -1.
  pub elements_lem :
      (c : Cursor) (id : ℕ)
      → elements (s.nbits + 1) (reset c) id s ≡ list_range 0 s.nbits (member s)
  elements_lem c id =
      let f : s.nbits + 1 ≡ suc s.nbits = omega arith in
      rw (f, elements-suc s.nbits id (reset c) s, start_of-reset id c s)
        (begin
          ∙ (elements-inside (suc s.nbits) (s.nbits - start) start id s (omega arith) refl
              ∙ (sym skipped ∙ list_range-ext s.nbits 0 (test s) (member s) test_plain)))
    where
      begin :
          after s.nbits id s (scan (s.nbits - start) s start)
          ≡ elements (suc s.nbits) (inside id start) id s
      begin = rw (elements-suc s.nbits id (inside id start) s, start_of-inside id start s)

      skipped : list_range 0 s.nbits (test s) ≡ list_range start (s.nbits - start) (test s)
      skipped =
          let e : start + (s.nbits - start) ≡ s.nbits = omega (arith, start_lem.0) in
          let z : 0 + start ≡ start = omega arith in
          rw (e, z) at
            (list_range-skip start (s.nbits - start) 0 (test s)
              (λ x l u. start_lem.1 x (omega arith)))

-- What `set_print` prints of these elements.
abbrev pub items_or_empty : List ℕ → List Printed
items_or_empty [] = empty_set ∷ []
items_or_empty (x ∷ xs) = item x ∷ map item xs

-- `set_print` of a valid set that is not complemented prints its members in increasing order, and
-- `empty` if there is none.
pub set_print_lem :
    (s : SetS) (c : Cursor) (id : ℕ)
    → IsValid s
    → s.compl ≡ 0
    → set_print c id (some s) ≡ items_or_empty (list_range 0 s.nbits (member s))
unfolding set_print
set_print_lem s c id v plain =
    rw (elements_lem s v plain c id) (shape (list_range 0 s.nbits (member s)))
  where
    shape : (xs : List ℕ) → map item xs ++ or_empty xs ≡ items_or_empty xs
    shape [] = refl
    shape (x ∷ xs) = ap (λ ys. item x ∷ ys) (append-nil (map item xs))

list_range-head : (n a x : ℕ) (xs : List ℕ) (p : ℕ → Bool) → list_range a n p ≡ x ∷ xs → a ≤ x
list_range-head zero a x xs p e = cc
list_range-head (suc n) a x xs p e = elim (Bool-cases (p a)) [
  | inl h ↦ ground arith
  | inr h ↦ omega (arith, list_range-head n (a + 1) x xs p (ground arith))
]

skip_first :
    (ws : List ℕ) (nbits : ℕ)
    → get_or ws 0 0 ≡ 0
    → 0 < length ws
    → 0 < nbits
    → 32 ≤ skip_words nbits 0 ws
unfolding skip_words
skip_first [] nbits z l h = absurd (omega arith)
skip_first (w ∷ ws) nbits z l h =
    ground
      (arith, skip_words_lem ws nbits 32 (λ x. bit (get_or ws ((x - 32) / 32) 0) (x % 32)) reads)
  where
    reads :
        (j k : ℕ)
        → k < 32
        → bit (get_or ws ((32 + j * 32 + k - 32) / 32) 0) ((32 + j * 32 + k) % 32)
          ≡ bit (get_or ws j 0) k
    reads j k m =
        let e : (32 + j * 32 + k - 32) / 32 ≡ j = omega arith in
        let e' : (32 + j * 32 + k) % 32 ≡ k = omega arith in rw (e, e')

-- In a valid set that is complemented and whose first word is 0, `SET_TEST` finds every element of
-- that word, but from a reset cursor `set_next_member` passes over the word and returns none of
-- them.
pub set_next_member_complemented :
    (s : SetS) (c : Cursor) (id x : ℕ)
    → IsValid s
    → s.compl ≢ 0
    → word_at s 0 ≡ 0
    → x < 32
    → (test s x ≡ true) × ((set_next_member (reset c) id s).0 ≢ some x)
unfolding set_next_member
set_next_member_complemented s c id x v compl z h = (
  unfold test in ground (arith, absent),
  λ e. passed_over (scan rounds s begin) (scan-Found rounds s begin) e,
)
  where
    begin : ℕ
    begin = start_of (reset c) id s

    rounds : ℕ
    rounds = s.nbits - begin

    absent : member s x ≡ false
    absent =
        let e : x / 32 ≡ 0 = omega arith in
        rw (member-eq-has s x v) (unfold has word_bit in rw (e, z) (bit-zero (x % 32)))

    begin_late : 32 ≤ begin
    begin_late = rw (start_of-reset id c s) (
        skip_first (words s) s.nbits z (omega (arith, v.sized, v.wide))
          (omega (arith, v.bits, v.wide)))

    passed_over : (r : Option ℕ × ℕ) → Found s rounds begin r → r.0 ≡ some x → ⊥
    passed_over (none, n) (nothing p) e = cc
    passed_over (some y, n) (first {left} p q l) e =
        let same : y ≡ x = ground arith in
        absurd (omega (arith, begin_late, list_range-head rounds begin y _ (test s) p))
