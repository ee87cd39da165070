-- ===== src/Parser/First/Missing.antt =====
-- How much the FIRST sets can still grow.
use mathlib.Core.List.{Memᴰ}
use mathlib.Core.Path.{subst}
use cgkits.Prelude.{
  ltb, ◌==◌, ltb→lt, Bool-cases, length, ℕ, zero, suc, ◌+◌, ◌*◌, ◌≤◌, ◌<◌, ◌≡◌, refl, sym, inl, inr,
  Bool, true, false, not, List, [], ◌∷◌, arith,
}
use cgkits.Set.{member}
use cgkits.Set.Count.{count_range}
use cgkits.Parser.Grammar.{Symbol, Grammar, Sets}

pub count_range-le :
    (n a : ℕ) (p q : ℕ → Bool)
    → ((x : ℕ) → q x ≡ true → p x ≡ true)
    → count_range a n q ≤ count_range a n p
count_range-le zero a p q h = omega arith
count_range-le (suc n) a p q h = ground (arith, h a, count_range-le n (a + 1) p q h)

pub count_range-same :
    (n a : ℕ) (p q : ℕ → Bool)
    → ((x : ℕ) → q x ≡ true → p x ≡ true)
    → count_range a n p ≤ count_range a n q
    → (x : ℕ) → a ≤ x
    → x < a + n
    → p x ≡ q x
count_range-same zero a p q h le x l u = absurd (omega arith)
count_range-same (suc n) a p q h le x l u =
    let smaller = count_range-le n (a + 1) p q h in
    elim (Bool-cases (a == x)) [
      | inl e ↦
          let same : a ≡ x = ground (arith, e) in rw (sym same) (ground (arith, h a, le, smaller))
      | inr e ↦
          count_range-same n (a + 1) p q h (ground (arith, h a, le, smaller)) x
            (ground (arith, e, l)) (omega arith)
    ]

neither : (a b : Bool) → (a ≡ true → b ≡ true) → (b ≡ true → ⊥) → b ≡ a
neither false false h k = refl
neither false true h k = absurd (k refl)
neither true false h k = h refl
neither true true h k = refl

not-inj : (a b : Bool) → not a ≡ not b → a ≡ b
not-inj false false e = refl
not-inj false true e = sym e
not-inj true false e = sym e
not-inj true true e = refl

not_mono : (a b : Bool) → (a ≡ true → b ≡ true) → not b ≡ true → not a ≡ true
not_mono false b h e = refl
not_mono true false h e = h refl
not_mono true true h e = e

-- A predicate that only grows, and differs from what it was, is false less often.
count_range-lt :
    (n : ℕ) (old new : ℕ → Bool)
    → ((x : ℕ) → old x ≡ true → new x ≡ true)
    → ((x : ℕ) → new x ≡ true → x < n)
    → (((x : ℕ) → new x ≡ old x) → ⊥)
    → count_range 0 n (λ x. not (new x)) < count_range 0 n (λ x. not (old x))
count_range-lt n old new grows small differ =
    elim (Bool-cases
      (ltb (count_range 0 n (λ x. not (new x))) (count_range 0 n (λ x. not (old x))))) [
        | inl e ↦ ltb→lt _ _ e
        | inr e ↦ absurd (
            differ (λ x. elim (Bool-cases (ltb x n)) [
              | inr u ↦ outside x (not_below x u)
              | inl u ↦ sym (
                  not-inj _ _ (
                    count_range-same n 0 _ _ (λ y. not_mono _ _ (grows y)) (no_less e) x
                      (omega arith) (below x u)))
            ]))
      ]
  where
    not_below : (x : ℕ) → ltb x n ≡ false → n ≤ x
    not_below x u = ground (arith, u)

    below : (x : ℕ) → ltb x n ≡ true → x < 0 + n
    below x u = let l = ltb→lt x n u in omega arith

    no_less : {a b : ℕ} → ltb a b ≡ false → b ≤ a
    no_less e = ground (arith, e)

    outside : (x : ℕ) → n ≤ x → new x ≡ old x
    outside x l = neither _ _ (grows x) (λ e. let u = small x e in omega arith)

-- The sum of a number over the symbols of a list.
pub total : List Symbol → (ℕ → ℕ) → ℕ
total [] h = 0
total (s ∷ ss) h = h s.val + total ss h

pub total-le : (ss : List Symbol) (h k : ℕ → ℕ) → ((v : ℕ) → h v ≤ k v) → total ss h ≤ total ss k
unfolding total
total-le [] h k le = omega arith
total-le (s ∷ ss) h k le = omega (arith, le s.val, total-le ss h k le)

pub total-lt :
    (ss : List Symbol) (h k : ℕ → ℕ) (s : Symbol)
    → ((v : ℕ) → h v ≤ k v)
    → Memᴰ s ss
    → h s.val < k s.val
    → total ss h < total ss k
unfolding total
total-lt [] h k s le m lt = elim m [ ]
total-lt (t ∷ ss) h k s le (Memᴰ.head e) lt =
    let here : h t.val < k t.val = subst (λ r. h r.val < k r.val) e lt in
    omega (arith, here, total-le ss h k le)
total-lt (t ∷ ss) h k s le (Memᴰ.tail m) lt = omega (arith, le t.val, total-lt ss h k s le m lt)

-- The values below 256 that are not in the set of a symbol, over all symbols.
pub absent : Sets → ℕ → ℕ
absent sets v = count_range 0 256 (λ x. not (member (sets v) x))

pub missing : Grammar → Sets → ℕ
unfolding total absent
missing g sets = total g.symtab (absent sets)

-- Sets that only grow, and differ from what they were at a symbol of the table, have less missing.
pub missing-grows :
    (g : Grammar) (old new : Sets) (s : Symbol)
    → Memᴰ s g.symtab
    → ((v x : ℕ) → member (old v) x ≡ true → member (new v) x ≡ true)
    → ((x : ℕ) → member (new s.val) x ≡ true → x < 256)
    → (((x : ℕ) → member (new s.val) x ≡ member (old s.val) x) → ⊥)
    → missing g new < missing g old
unfolding missing absent
missing-grows g old new s i grows small differ =
    total-lt g.symtab (absent new) (absent old) s
      (λ v. count_range-le 256 0 _ _ (λ x. not_mono _ _ (grows v x))) i
      (count_range-lt 256 (member (old s.val)) (member (new s.val)) (grows s.val) small differ)

count_range-bound : (n a : ℕ) (p : ℕ → Bool) → count_range a n p ≤ n
count_range-bound zero a p = omega arith
count_range-bound (suc n) a p = ground (arith, count_range-bound n (a + 1) p)

-- At most 256 values are missing at each symbol.
total-bound : (ss : List Symbol) (h : ℕ → ℕ) → ((v : ℕ) → h v ≤ 256) → total ss h ≤ length ss * 256
unfolding total
total-bound [] h le = omega arith
total-bound (s ∷ ss) h le = omega (arith, le s.val, total-bound ss h le)

pub missing-bound : (g : Grammar) (sets : Sets) → missing g sets ≤ length g.symtab * 256
unfolding missing absent
missing-bound g sets =
    total-bound g.symtab (absent sets) (λ v. count_range-bound 256 0 (λ x. not (member (sets v) x)))
