-- ===== src/System/Sort/Sorted.antt =====
-- `sys_ssort` of compiler/lib/syslib.c sorts: its last pass has gap 1.
use mathlib.Core.Path.{subst}
use cgkits.Prelude.{
  leb, ◌==◌, ==_iff, Bool-cases, if-cases, length, set, length-set, get_or-set_self, get_or-set_ne,
  ℕ, zero, suc, ◌+◌, ◌-◌, ◌*◌, ◌/◌, ◌≤◌, ◌<◌, ◌≡◌, refl, sym, ◌∙◌, ◌≢◌, ◌⊎◌, inl, inr, Bool, true,
  false, List, arith,
}
use cgkits.System.Sort.{at, swap, first_gap, sink, gap_pass, gap_loop, sys_ssort}
use cgkits.System.Sort.Counted.{length-swap, Same, sink-Same, gap_pass-Same, gap_loop-Same}

-- The gaps 0, 1, 4, 13 and so on.
data IsGap : ℕ → Type 0 where
  no_gap : IsGap 0
  next_gap : {g : ℕ} → IsGap g → IsGap (3 * g + 1)

first_gap_lem :
    (fuel gap nel : ℕ)
    → IsGap gap
    → 0 < gap
    → nel < gap + fuel
    → gap / 3 ≤ nel
    → IsGap (first_gap fuel gap nel)
      × (nel < first_gap fuel gap nel)
      × (first_gap fuel gap nel / 3 ≤ nel)
unfolding first_gap
first_gap_lem zero gap nel g pos l s = (g, omega (arith, l), s)
first_gap_lem (suc fuel) gap nel g pos l s =
    if-cases (λ r. IsGap r × (nel < r) × (r / 3 ≤ nel)) (leb gap nel) _ _
      (λ e.
        first_gap_lem fuel (3 * gap + 1) nel (next_gap g) (omega arith) (omega (arith, l))
          (ground (arith, e)))
      (λ e. (g, ground (arith, e), s))

-- The elements after an exchange.
at-swap_first : (xs : List ℕ) (i j : ℕ) → i < j → j < length xs → at (swap xs i j) i ≡ at xs j
at-swap_first xs i j l lj =
    get_or-set_ne (set xs i (at xs j)) j i (at xs i) 0 (λ e. omega (arith, e, l))
    ∙ get_or-set_self xs i (at xs j) 0 (omega (arith, l, lj))

at-swap_second : (xs : List ℕ) (i j : ℕ) → i < j → j < length xs → at (swap xs i j) j ≡ at xs i
at-swap_second xs i j l lj =
    get_or-set_self (set xs i (at xs j)) j (at xs i) 0
      (omega (arith, lj, length-set xs i (at xs j)))

at-swap_other : (xs : List ℕ) (i j k : ℕ) → i ≢ k → j ≢ k → at (swap xs i j) k ≡ at xs k
at-swap_other xs i j k ni nj =
    get_or-set_ne (set xs i (at xs j)) j k (at xs i) 0 nj ∙ get_or-set_ne xs i k (at xs j) 0 ni

-- The first `n` elements are in order.
abbrev pub IsSorted : (ℕ → ℕ → Bool) → ℕ → List ℕ → Type 0
IsSorted greater n xs = (k l : ℕ) → k < l → l < n → greater (at xs k) (at xs l) ≡ false

module _ (greater : ℕ → ℕ → Bool)
    (trans : (a b c : ℕ) → greater a b ≡ false → greater b c ≡ false → greater a c ≡ false)
    (asym : (a b : ℕ) → greater a b ≡ true → greater b a ≡ false) where
  -- They are in order but for the one at `p`, which is not greater than those behind it.
  record IsSinking (n p : ℕ) (xs : List ℕ) : Type 0 where
    others : (k l : ℕ) → k < l → l < n → k ≢ p → l ≢ p → greater (at xs k) (at xs l) ≡ false
    behind : (l : ℕ) → p < l → l < n → greater (at xs p) (at xs l) ≡ false

  -- An element that is not smaller than the one before it is in its place.
  settled-IsSorted :
      (n j : ℕ) (xs : List ℕ)
      → IsSinking n (j + 1) xs
      → greater (at xs j) (at xs (j + 1)) ≡ false
      → IsSorted greater n xs
  settled-IsSorted n j xs s e k l kl ln = elim (Bool-cases (k == j + 1)) [
    | inl a ↦
        let same : k ≡ j + 1 = (==_iff k (j + 1)).0 a in
        rw same (s.behind l (omega (arith, kl, same)) ln)
    | inr a ↦ elim (Bool-cases (l == j + 1)) [
      | inl b ↦
          let same : l ≡ j + 1 = (==_iff l (j + 1)).0 b in
          rw same
            (before (ground (arith, kl, same)) (omega (arith, same, ln)) (Bool-cases (k == j)))
      | inr b ↦ s.others k l kl ln (λ q. ground (arith, q, a)) (λ q. ground (arith, q, b))
    ]
  ]
    where
      before :
          k ≤ j
          → j + 1 < n
          → ((k == j) ≡ true) ⊎ ((k == j) ≡ false)
          → greater (at xs k) (at xs (j + 1)) ≡ false
      before le jn (inl q) = let same : k ≡ j = (==_iff k j).0 q in rw same e
      before le jn (inr q) =
          trans (at xs k) (at xs j) (at xs (j + 1))
            (s.others k j (ground (arith, le, q)) (omega (arith, jn)) (λ f. omega (arith, f, le))
              (λ f. omega (arith, f)))
            e

  -- A smaller element goes one place forward.
  swapped-IsSinking :
      (n j : ℕ) (xs : List ℕ)
      → j + 1 < n
      → n ≤ length xs
      → IsSinking n (j + 1) xs
      → greater (at xs j) (at xs (j + 1)) ≡ true
      → IsSinking n j (swap xs j (j + 1))
  swapped-IsSinking n j xs l ln s e = record {
    others = λ k m km mn nk nm. others k m km mn nk nm;
    behind = λ m jm mn. behind m jm mn;
  }
    where
      first : at (swap xs j (j + 1)) j ≡ at xs (j + 1)
      first = at-swap_first xs j (j + 1) (omega arith) (omega (arith, l, ln))

      second : at (swap xs j (j + 1)) (j + 1) ≡ at xs j
      second = at-swap_second xs j (j + 1) (omega arith) (omega (arith, l, ln))

      other : (k : ℕ) → k ≢ j → k ≢ j + 1 → at (swap xs j (j + 1)) k ≡ at xs k
      other k a b = at-swap_other xs j (j + 1) k (λ q. a (sym q)) (λ q. b (sym q))

      behind :
          (m : ℕ)
          → j < m
          → m < n
          → greater (at (swap xs j (j + 1)) j) (at (swap xs j (j + 1)) m) ≡ false
      behind m jm mn = elim (Bool-cases (m == j + 1)) [
        | inl q ↦
            let same : m ≡ j + 1 = (==_iff m (j + 1)).0 q in
            rw (same, first, second) (asym (at xs j) (at xs (j + 1)) e)
        | inr q ↦
            rw (first, other m (λ r. omega (arith, r, jm)) (λ r. ground (arith, r, q)))
              (s.behind m (ground (arith, q, jm)) mn)
      ]

      others :
          (k m : ℕ)
          → k < m
          → m < n
          → k ≢ j
          → m ≢ j
          → greater (at (swap xs j (j + 1)) k) (at (swap xs j (j + 1)) m) ≡ false
      others k m km mn nk nm = elim (Bool-cases (k == j + 1)) [
        | inl q ↦
            let same : k ≡ j + 1 = (==_iff k (j + 1)).0 q in
            rw (same, second, other m nm (λ r. omega (arith, r, km, same)))
              (s.others j m (omega (arith, km, same)) mn (λ r. omega (arith, r))
                (λ r. omega (arith, r, km, same)))
        | inr q ↦ elim (Bool-cases (m == j + 1)) [
          | inl r ↦
              let same : m ≡ j + 1 = (==_iff m (j + 1)).0 r in
              let less : k < j = not_equal k j (omega (arith, km, same)) nk in
              rw (same, second, other k nk (λ f. ground (arith, f, q)))
                (s.others k j less (omega (arith, l)) (λ f. ground (arith, f, q))
                  (λ f. omega (arith, f)))
          | inr r ↦
              rw (other k nk (λ f. ground (arith, f, q)), other m nm (λ f. ground (arith, f, r)))
                (s.others k m km mn (λ f. ground (arith, f, q)) (λ f. ground (arith, f, r)))
        ]
      ]
        where
          not_equal : (a b : ℕ) → a < b + 1 → a ≢ b → a < b
          not_equal a b l ne = elim (Bool-cases (a == b)) [
            | inl e ↦ absurd (ne ((==_iff a b).0 e))
            | inr e ↦ ground (arith, e, l)
          ]

  -- The loop over `j` with gap 1.
  sink-IsSorted :
      (fuel n j : ℕ) (xs : List ℕ)
      → j < fuel
      → j + 1 < n
      → n ≤ length xs
      → IsSinking n (j + 1) xs
      → IsSorted greater n (sink greater 1 fuel j xs)
  unfolding sink
  sink-IsSorted zero n j xs f l ln s = absurd (omega arith)
  sink-IsSorted (suc fuel) n j xs f l ln s =
      let ys = swap xs j (j + 1) in
      if-cases (IsSorted greater n) (greater (at xs j) (at xs (j + 1))) _ _
        (λ e.
          let moved = swapped-IsSinking n j xs l ln s e in
          if-cases (IsSorted greater n) (leb 1 j) _ _
            (λ a.
              let again : j - 1 + 1 ≡ j = ground (arith, a) in
              sink-IsSorted fuel n (j - 1) ys (ground (arith, a, f)) (ground (arith, a, l))
                (omega (arith, ln, length-swap j (j + 1) xs)) (rw again moved))
            (λ a. let zero_j : j ≡ 0 = ground (arith, a) in at_front n j ys moved zero_j))
        (λ e. settled-IsSorted n j xs s e)
    where
      at_front : (n j : ℕ) (ys : List ℕ) → IsSinking n j ys → j ≡ 0 → IsSorted greater n ys
      at_front n j ys s z k m km mn = elim (Bool-cases (k == j)) [
        | inl q ↦
            let same : k ≡ j = (==_iff k j).0 q in rw same (s.behind m (omega (arith, km, same)) mn)
        | inr q ↦ s.others k m km mn (λ r. ground (arith, r, q)) (λ r. omega (arith, r, km, z))
      ]

  gap_pass-IsSorted :
      (left i : ℕ) (xs : List ℕ)
      → 0 < i
      → i + left ≡ length xs
      → IsSorted greater i xs
      → IsSorted greater (length xs) (gap_pass greater 1 left i xs)
  unfolding gap_pass
  gap_pass-IsSorted zero i xs pos l s = λ k m km ml. s k m km (omega (arith, ml, l))
  gap_pass-IsSorted (suc left) i xs pos l s =
      let ys = sink greater 1 (i + 1) (i - 1) xs in
      let same = sink-Same greater 1 (i + 1) (i - 1) xs (omega arith) (omega (arith, l, pos)) in
      let again : i - 1 + 1 ≡ i = omega (arith, pos) in
      let start : IsSinking (i + 1) (i - 1 + 1) xs = record {
        others =
            λ k m km mn nk nm. s k m km (not_last m (omega (arith, mn)) (λ e. nm (e ∙ sym again)));
        behind = λ m im mn. absurd (omega (arith, im, mn, again));
      } in
      let sorted : IsSorted greater (i + 1) ys =
        sink-IsSorted (i + 1) (i + 1) (i - 1) xs (omega arith) (omega (arith, pos))
          (omega (arith, l)) start in
      subst (λ n. IsSorted greater n (gap_pass greater 1 left (i + 1) ys)) same.0
        (gap_pass-IsSorted left (i + 1) ys (omega arith) (omega (arith, l, same.0)) sorted)
    where
      not_last : (m : ℕ) → m < i + 1 → m ≢ i → m < i
      not_last m l ne = elim (Bool-cases (m == i)) [
        | inl e ↦ absurd (ne ((==_iff m i).0 e))
        | inr e ↦ ground (arith, e, l)
      ]

  gap_loop-zero : (fuel : ℕ) (xs : List ℕ) → gap_loop greater fuel 0 xs ≡ xs
  unfolding gap_loop
  gap_loop-zero zero xs = refl
  gap_loop-zero (suc fuel) xs = refl

  gap_loop-suc :
      (fuel g : ℕ) (xs : List ℕ)
      → gap_loop greater (suc fuel) (3 * g + 1) xs
        ≡ gap_loop greater fuel g
            (gap_pass greater (3 * g + 1) (length xs - (3 * g + 1)) (3 * g + 1) xs)
  unfolding gap_loop
  gap_loop-suc fuel g xs =
      let third : (3 * g + 1) / 3 ≡ g = omega arith in
      let some_gap : (3 * g + 1 == 0) ≡ false = ground arith in rw (some_gap, third) refl

  gap_loop-IsSorted :
      (fuel gap : ℕ) (xs : List ℕ)
      → IsGap gap
      → 0 < gap
      → gap < fuel
      → gap ≤ length xs
      → IsSorted greater (length xs) (gap_loop greater fuel gap xs)
  gap_loop-IsSorted zero gap xs g pos l s = absurd (omega (arith, l))
  gap_loop-IsSorted (suc fuel) gap xs no_gap pos l s = absurd (omega (arith, pos))
  gap_loop-IsSorted (suc fuel) gap xs (next_gap {g} k) pos l s =
      let zs = gap_pass greater (3 * g + 1) (length xs - (3 * g + 1)) (3 * g + 1) xs in
      let same : Same xs zs =
        gap_pass-Same greater (3 * g + 1) (length xs - (3 * g + 1)) (3 * g + 1) xs pos (omega arith)
          (omega (arith, s)) in
      subst (IsSorted greater (length xs)) (sym (gap_loop-suc fuel g xs))
        (elim (Bool-cases (g == 0)) [
          | inl e ↦
              let z : g ≡ 0 = (==_iff g 0).0 e in
              rw (z, gap_loop-zero fuel (gap_pass greater 1 (length xs - 1) 1 xs))
                (gap_pass-IsSorted (length xs - 1) 1 xs (omega arith) (omega (arith, s))
                  (λ a b ab b1. absurd (omega (arith, ab, b1))))
          | inr e ↦
              subst (λ n. IsSorted greater n (gap_loop greater fuel g zs)) same.0
                (gap_loop-IsSorted fuel g zs k (ground (arith, e)) (omega (arith, l))
                  (omega (arith, s, same.0)))
        ])

  -- Under a comparison that is transitive and, where it is positive, not positive the other way
  -- round, `sys_ssort` sorts: the result has the same length and each value as often as before, and
  -- no element is greater than one behind it.
  pub sys_ssort-IsSorted :
      (xs : List ℕ)
      → Same xs (sys_ssort greater xs) × IsSorted greater (length xs) (sys_ssort greater xs)
  unfolding sys_ssort
  sys_ssort-IsSorted xs =
      let gap = first_gap (length xs + 1) 1 (length xs) in
      let g =
        first_gap_lem (length xs + 1) 1 (length xs) one (omega arith) (omega arith) (omega arith) in
      (
        gap_loop-Same greater (gap + 1) (gap / 3) xs g.2,
        elim (Bool-cases (length xs == 0)) [
          | inl e ↦ λ k l kl ln. absurd (ground (arith, e, ln))
          | inr e ↦
              let (q, pos) = third gap g.0 (ground (arith, e, g.1)) in
              gap_loop-IsSorted (gap + 1) (gap / 3) xs q pos (omega arith) g.2
        ],
      )
    where
      one : IsGap 1
      one = next_gap no_gap

      third : (gap : ℕ) → IsGap gap → 1 < gap → IsGap (gap / 3) × (0 < gap / 3)
      third gap no_gap l = absurd (omega (arith, l))
      third gap (next_gap {g} k) l =
          let q : (3 * g + 1) / 3 ≡ g = omega arith in rw q (k, omega (arith, l))
