-- ===== src/Set/Few.antt =====
-- What the number of elements that `set_num_ele` returns says of the members.
use cgkits.Prelude.{
  ltb, leb, ◌==◌, if◌then◌else◌, ltb→lt, leb→le, ==_iff, Bool-cases, ℕ, zero, suc, ◌+◌, ◌≤◌, ◌<◌,
  ◌≡◌, refl, sym, ◌⊎◌, inl, inr, Bool, true, false, arith,
}
use cgkits.Set.{SetS, member}
use cgkits.Set.Valid.{IsValid}
use cgkits.Set.Member.{member-past}
use cgkits.Set.Count.{set_num_ele, count_range, set_num_ele_lem}

count_range-pos :
    (n a x : ℕ) (p : ℕ → Bool) → a ≤ x → x < a + n → p x ≡ true → 1 ≤ count_range a n p
count_range-pos zero a x p l u e = absurd (omega arith)
count_range-pos (suc n) a x p l u e = elim (Bool-cases (p a)) [
  | inl h ↦ rw h (omega arith)
  | inr h ↦ elim (Bool-cases (a == x)) [
    | inl q ↦ let same : a ≡ x = (==_iff a x).0 q in absurd (clash h (rw (sym same) at e))
    | inr q ↦
        let ih = count_range-pos n (a + 1) x p (ground (arith, q, l)) (omega arith) e in
        rw h (omega (arith, ih))
  ]
]
  where
    clash : {b : Bool} → b ≡ false → b ≡ true → ⊥
    clash e e' = cc

-- Where at most one number satisfies `p`, two that do are the same.
count_range_unique :
    (n a x y : ℕ) (p : ℕ → Bool)
    → count_range a n p ≤ 1
    → a ≤ x
    → x < y
    → y < a + n
    → p x ≡ true
    → p y ≡ true
    → ⊥
count_range_unique zero a x y p c l s u e f = omega arith
count_range_unique (suc n) a x y p c l s u e f = elim (Bool-cases (a == x)) [
  | inl q ↦
      let same : a ≡ x = (==_iff a x).0 q in
      let e' : p a ≡ true = rw same e in
      let rest = count_range-pos n (a + 1) y p (omega (arith, same)) (omega arith) f in
      omega (arith, (rw e' at c), rest)
  | inr q ↦
      count_range_unique n (a + 1) x y p (fewer (p a) c) (ground (arith, q, l)) s (omega arith) e f
]
  where
    fewer :
        (b : Bool)
        → (if b then 1 else 0) + count_range (a + 1) n p ≤ 1
        → count_range (a + 1) n p ≤ 1
    fewer true h = omega (arith, h)
    fewer false h = omega (arith, h)

-- Either nothing satisfies `p`, or there is a number that does.
count_range-some :
    (n a : ℕ) (p : ℕ → Bool)
    → (count_range a n p ≡ 0) ⊎ ((x : ℕ) × ((a ≤ x) × (x < a + n) × (p x ≡ true)))
count_range-some zero a p = inl refl
count_range-some (suc n) a p = elim (Bool-cases (p a)) [
  | inl e ↦ inr (a, (omega arith, omega arith, e))
  | inr e ↦ elim (count_range-some n (a + 1) p) [
    | inl h ↦ inl (rw e (omega (arith, h)))
    | inr (x, h) ↦ inr (x, (omega (arith, h.0), omega (arith, h.1), h.2))
  ]
]

-- A set of at most one element.
pub few_unique :
    (s : SetS) (x y : ℕ)
    → IsValid s
    → leb (set_num_ele s) 1 ≡ true
    → member s x ≡ true
    → member s y ≡ true
    → x ≡ y
few_unique s x y v few mx my =
    let le : count_range 0 s.nbits (member s) ≤ 1 =
      rw (sym (set_num_ele_lem s v)) (leb→le (set_num_ele s) 1 few) in
    let ux = inside x mx in
    let uy = inside y my in
    elim (Bool-cases (ltb x y)) [
      | inl e ↦ absurd (
          count_range_unique s.nbits 0 x y (member s) le (omega arith) (ltb→lt x y e)
            (omega (arith, uy)) mx my)
      | inr e ↦ elim (Bool-cases (ltb y x)) [
        | inl f ↦ absurd (
            count_range_unique s.nbits 0 y x (member s) le (omega arith) (ltb→lt y x f)
              (omega (arith, ux)) my mx)
        | inr f ↦ ground (arith, e, f)
      ]
    ]
  where
    inside : (z : ℕ) → member s z ≡ true → z < s.nbits
    inside z m = elim (Bool-cases (ltb z s.nbits)) [
      | inl e ↦ ltb→lt z s.nbits e
      | inr e ↦ absurd (ground (arith, member-past s z (ground (arith, e)), m))
    ]

-- `SET_IS_EMPTY`.
pub empty_cases :
    (s : SetS)
    → IsValid s
    → (((set_num_ele s == 0) ≡ true) × ((x : ℕ) → member s x ≡ false))
      ⊎ (((set_num_ele s == 0) ≡ false) × ((x : ℕ) × (member s x ≡ true)))
empty_cases s v = elim (count_range-some s.nbits 0 (member s)) [
  | inl e ↦ inl (rw (set_num_ele_lem s v, e) refl, λ x. out x (Bool-cases (member s x)) e)
  | inr (x, h) ↦
      let pos = count_range-pos s.nbits 0 x (member s) h.0 h.1 h.2 in
      inr (rw (set_num_ele_lem s v) (ground (arith, pos)), (x, h.2))
]
  where
    out :
        (x : ℕ)
        → (member s x ≡ true) ⊎ (member s x ≡ false)
        → count_range 0 s.nbits (member s) ≡ 0
        → member s x ≡ false
    out x (inr e) z = e
    out x (inl e) z = elim (Bool-cases (ltb x s.nbits)) [
      | inl l ↦
          let pos = count_range-pos s.nbits 0 x (member s) (omega arith) (ground (arith, l)) e in
          absurd (omega (arith, pos, z))
      | inr l ↦ member-past s x (ground (arith, l))
    ]
