-- ===== src/Hash/Table.antt =====
-- The tables of compiler/lib/hash.c as lists of symbols, one for each bucket of the table.
use mathlib.Core.Path.{subst, ap₂}
use cgkits.Prelude.{
  ◌==◌, if◌then◌else◌, ==_iff, Bool-cases, if-cases, length, ℕ, zero, suc, ◌+◌, ◌-◌, ◌%◌, ◌^◌, ◌≤◌,
  ◌<◌, ◌≡◌, refl, sym, ap, ◌∙◌, ◌≢◌, ◌⊎◌, inl, inr, Bool, true, false, Option, none, some, List, [],
  ◌∷◌, ◌++◌, arith,
}
use cgkits.Hash.{
  Place, slot, next_of, HashTab, hash_make_tab, update, load, store, set_prev, unlink, hash_del_sym,
  link, find_loop, home, hash_add_sym, hash_find_sym, chain_from, print_from, hash_print_tab,
}
use cgkits.Hash.Chain.{elem, distinct, remove_one, IsChain, IsChain-frame}
use cgkits.Hash.Unlink.{unlink-IsChain, unlink-other}
use cgkits.Hash.Link.{link-IsChain, link-other}

elem-remove_one : (s a : ℕ) (xs : List ℕ) → elem a xs ≡ false → elem a (remove_one s xs) ≡ false
elem-remove_one s a [] e = refl
elem-remove_one s a (x ∷ xs) e =
    if-cases (λ ys. elem a ys ≡ false) (s == x) _ (x ∷ remove_one s xs) (λ f. ground (arith, e))
      (λ f. ground (arith, e, elem-remove_one s a xs (ground (arith, e))))

distinct-remove_one : (s : ℕ) (xs : List ℕ) → distinct xs ≡ true → distinct (remove_one s xs) ≡ true
distinct-remove_one s [] e = refl
distinct-remove_one s (x ∷ xs) e =
    if-cases (λ ys. distinct ys ≡ true) (s == x) _ (x ∷ remove_one s xs) (λ f. ground (arith, e))
      (λ f.
        let out = elem-remove_one s x xs (ground (arith, e)) in
        let rest = distinct-remove_one s xs (ground (arith, e)) in ground (arith, out, rest))

-- The chains of the table are the lists, and no symbol stands in two places.
pub record IsTable (t : HashTab) (lists : ℕ → List ℕ) : Type 0 where
  pub chains : (i : ℕ) → i < t.max_size → IsChain t (slot i) (lists i)
  pub once : (i : ℕ) → i < t.max_size → distinct (lists i) ≡ true
  pub apart :
      (i j a : ℕ)
      → i < t.max_size
      → j < t.max_size
      → i ≢ j
      → elem a (lists i) ≡ true
      → elem a (lists j) ≡ false

-- The size and the count do not matter to a chain.
counted-IsChain :
    (t : HashTab) (n : ℕ) (p : Place) (xs : List ℕ)
    → IsChain t p xs
    → IsChain (record t { curr_num = n }) p xs
counted-IsChain t n (slot i) xs c =
    IsChain-frame t (record t { curr_num = n }) (slot i) xs refl (λ a m. (refl, refl)) c
counted-IsChain t n (next_of b) xs c =
    IsChain-frame t (record t { curr_num = n }) (next_of b) xs refl (λ a m. (refl, refl)) c

max_size-set_prev :
    (v : Option ℕ) (t : HashTab) (p : Place) → (set_prev t v p).max_size ≡ t.max_size
max_size-set_prev none t p = refl
max_size-set_prev (some b) t p = refl

max_size-link : (h new : ℕ) (t : HashTab) → (link h new t).max_size ≡ t.max_size
unfolding link
max_size-link h new t = max_size-set_prev (t.table h) _ (next_of new)

max_size-unlink : (old : ℕ) (t : HashTab) → (unlink old t).max_size ≡ t.max_size
unfolding unlink
max_size-unlink old t =
    max_size-set_prev (t.next old) (store t (t.prev old) (t.next old)) (t.prev old)
    ∙ by_place (t.prev old)
  where
    by_place : (p : Place) → (store t p (t.next old)).max_size ≡ t.max_size
    by_place (slot i) = refl
    by_place (next_of a) = refl

-- A changed list is the new one at its own index and the old one elsewhere.
update_cases :
    (lists : ℕ → List ℕ) (h : ℕ) (ys : List ℕ) (i : ℕ)
    → ((h ≡ i) × (update lists h ys i ≡ ys)) ⊎ ((h ≢ i) × (update lists h ys i ≡ lists i))
update_cases lists h ys i = elim (Bool-cases (h == i)) [
  | inl e ↦ inl ((==_iff h i).0 e, rw e refl)
  | inr e ↦ inr (λ q. ground (arith, q, e), rw e refl)
]

module _ (t : HashTab) (lists : ℕ → List ℕ) (g : IsTable t lists) where
  -- The list of one bucket is changed, the others are not.
  changed-IsTable :
      (t' : HashTab) (h : ℕ) (ys : List ℕ)
      → t'.max_size ≡ t.max_size
      → IsChain t' (slot h) ys
      → distinct ys ≡ true
      → ((j : ℕ) → j < t.max_size → h ≢ j → IsChain t' (slot j) (lists j))
      → ((a j : ℕ) → j < t.max_size → h ≢ j → elem a (lists j) ≡ true → elem a ys ≡ false)
      → IsTable t' (update lists h ys)
  changed-IsTable t' h ys size c d others away = record {
    chains = λ i li. elim (update_cases lists h ys i) [
      | inl (e, q) ↦ rw q (subst (λ k. IsChain t' (slot k) ys) e c)
      | inr (e, q) ↦ rw q (others i (omega (arith, li, size)) e)
    ];
    once = λ i li. elim (update_cases lists h ys i) [
      | inl (e, q) ↦ rw q d
      | inr (e, q) ↦ rw q (g.once i (omega (arith, li, size)))
    ];
    apart = λ i j a li lj ne m. two i j a (omega (arith, li, size)) (omega (arith, lj, size)) ne m;
  }
    where
      against : (a j : ℕ) → j < t.max_size → h ≢ j → elem a ys ≡ true → elem a (lists j) ≡ false
      against a j lj ne m = elim (Bool-cases (elem a (lists j))) [
        | inl e ↦ absurd (ground (arith, m, away a j lj ne e))
        | inr e ↦ e
      ]

      two :
          (i j a : ℕ)
          → i < t.max_size
          → j < t.max_size
          → i ≢ j
          → elem a (update lists h ys i) ≡ true
          → elem a (update lists h ys j) ≡ false
      two i j a li lj ne m = elim (update_cases lists h ys i) [
        | inl (e, q) ↦ elim (update_cases lists h ys j) [
          | inl (e', q') ↦ absurd (ne (sym e ∙ e'))
          | inr (e', q') ↦ rw q' (against a j lj e' (rw q at m))
        ]
        | inr (e, q) ↦ elim (update_cases lists h ys j) [
          | inl (e', q') ↦ rw q' (away a i li e (rw q at m))
          | inr (e', q') ↦ rw q' (g.apart i j a li lj ne (rw q at m))
        ]
      ]

  pub hash_add_sym-IsTable :
      (fp_hash : ℕ → ℕ) (new : ℕ)
      → 0 < t.max_size
      → ((i : ℕ) → i < t.max_size → elem new (lists i) ≡ false)
      → IsTable
          (hash_add_sym fp_hash new t)
          (update lists (home fp_hash t new) (new ∷ lists (home fp_hash t new)))
  unfolding hash_add_sym
  hash_add_sym-IsTable fp_hash new pos out =
      changed-IsTable _ h (new ∷ lists h) (max_size-link h new t)
        (counted-IsChain (link h new t) count (slot h) (new ∷ lists h)
          (link-IsChain h new t (lists h) (g.once h l) (out h l) (g.chains h l)))
        (ground (arith, out h l, g.once h l))
        (λ j lj ne. counted-IsChain (link h new t) count (slot j) (lists j) (
          link-other h new t j (lists h) (lists j) ne (λ a. g.apart h j a l lj ne) (g.chains h l)
            (out j lj) (g.chains j lj)))
        (λ a j lj ne m.
          let old = g.apart j h a lj l (λ e. ne (sym e)) m in
          let fresh = out j lj in
          elim (Bool-cases (a == new)) [
            | inl e ↦
                let same : a ≡ new = (==_iff a new).0 e in
                absurd (ground (arith, fresh, (rw same at m)))
            | inr e ↦ ground (arith, e, old)
          ])
    where
      h : ℕ
      h = home fp_hash t new

      l : h < t.max_size
      l = omega (arith, pos)

      count : ℕ
      count = ((link h new t).curr_num + 1) % 2 ^ 32

  pub hash_del_sym-IsTable :
      (h old : ℕ)
      → h < t.max_size
      → elem old (lists h) ≡ true
      → IsTable (hash_del_sym old t) (update lists h (remove_one old (lists h)))
  unfolding hash_del_sym
  hash_del_sym-IsTable h old l m =
      changed-IsTable _ h (remove_one old (lists h)) (max_size-unlink old less)
        (unlink-IsChain old less (slot h) (lists h) refl (g.once h l) (chain h l) m)
        (distinct-remove_one old (lists h) (g.once h l))
        (λ j lj ne.
          unlink-other old less h j (lists h) (lists j) ne (λ a. g.apart h j a l lj ne) (chain h l)
            m (chain j lj))
        (λ a j lj ne n. elem-remove_one old a (lists h) (g.apart j h a lj l (λ e. ne (sym e)) n))
    where
      less : HashTab
      less = record t { curr_num = (t.curr_num + 2 ^ 32 - 1) % 2 ^ 32 }

      chain : (j : ℕ) → j < t.max_size → IsChain less (slot j) (lists j)
      chain j lj =
          counted-IsChain t ((t.curr_num + 2 ^ 32 - 1) % 2 ^ 32) (slot j) (lists j) (g.chains j lj)

-- The first symbol of a list that the comparison takes for the one looked for.
pub find_first : (ℕ → ℕ → Bool) → ℕ → List ℕ → Option ℕ
find_first same s [] = none
find_first same s (x ∷ xs) = let rest = find_first same s xs in if same s x then some x else rest

find_loop-chain :
    (same : ℕ → ℕ → Bool) (t : HashTab) (s : ℕ) (p : Place) (xs : List ℕ) (fuel : ℕ)
    → IsChain t p xs
    → length xs < fuel
    → find_loop same fuel t s (load t p) ≡ find_first same s xs
unfolding find_loop find_first
find_loop-chain same t s p [] zero c l = absurd (omega arith)
find_loop-chain same t s p [] (suc fuel) c l = rw c refl
find_loop-chain same t s p (x ∷ xs) zero c l = absurd (omega arith)
find_loop-chain same t s p (x ∷ xs) (suc fuel) (e, b, c) l = rw e (
    ap (λ r. if same s x then some x else r)
      (find_loop-chain same t s (next_of x) xs fuel c (omega (arith, l))))

chain_from-chain :
    (t : HashTab) (p : Place) (xs : List ℕ) (fuel : ℕ)
    → IsChain t p xs
    → length xs < fuel
    → chain_from fuel t (load t p) ≡ xs
unfolding chain_from
chain_from-chain t p [] zero c l = absurd (omega arith)
chain_from-chain t p [] (suc fuel) c l = rw c refl
chain_from-chain t p (x ∷ xs) zero c l = absurd (omega arith)
chain_from-chain t p (x ∷ xs) (suc fuel) (e, b, c) l =
    rw e (ap (λ r. x ∷ r) (chain_from-chain t (next_of x) xs fuel c (omega (arith, l))))

-- The lists one after another.
pub all_lists : (ℕ → List ℕ) → ℕ → ℕ → List ℕ
all_lists lists i zero = []
all_lists lists i (suc n) = lists i ++ all_lists lists (i + 1) n

print_from-lists :
    (t : HashTab) (lists : ℕ → List ℕ) (fuel i n : ℕ)
    → IsTable t lists
    → i + n ≤ t.max_size
    → ((j : ℕ) → j < t.max_size → length (lists j) < fuel)
    → print_from fuel t i n ≡ all_lists lists i n
unfolding print_from all_lists
print_from-lists t lists fuel i zero g l short = refl
print_from-lists t lists fuel i (suc n) g l short =
    let here : i < t.max_size = omega (arith, l) in
    ap₂ (λ a b. a ++ b)
      (chain_from-chain t (slot i) (lists i) fuel (g.chains i here) (short i here))
      (print_from-lists t lists fuel (i + 1) n g (omega (arith, l)) short)

-- On a table of at least one bucket whose chains are the given lists, linked both ways, with each
-- symbol in one place only: `hash_add_sym` puts a symbol that is not in the table before the list of
-- its bucket and `hash_del_sym` takes one that is there out of its list, and both leave such a
-- table, all other lists unchanged; with enough fuel for the longest list, `hash_find_sym` returns
-- the first symbol of the list of the bucket that compares equal, or none, and `hash_print_tab`
-- prints the lists of all buckets in their order.
pub refines_lists :
    (t : HashTab) (lists : ℕ → List ℕ) (fp_hash : ℕ → ℕ) (same : ℕ → ℕ → Bool) (fuel : ℕ)
    → IsTable t lists
    → 0 < t.max_size
    → ((j : ℕ) → j < t.max_size → length (lists j) < fuel)
    → ((new : ℕ)
        → ((i : ℕ) → i < t.max_size → elem new (lists i) ≡ false)
        → IsTable
            (hash_add_sym fp_hash new t)
            (update lists (home fp_hash t new) (new ∷ lists (home fp_hash t new))))
      × ((h old : ℕ)
          → h < t.max_size
          → elem old (lists h) ≡ true
          → IsTable (hash_del_sym old t) (update lists h (remove_one old (lists h))))
      × ((s : ℕ)
          → hash_find_sym fp_hash same fuel t s ≡ find_first same s (lists (home fp_hash t s)))
      × (hash_print_tab fuel t ≡ all_lists lists 0 t.max_size)
unfolding hash_find_sym hash_print_tab
refines_lists t lists fp_hash same fuel g pos short = (
  λ new out. hash_add_sym-IsTable t lists g fp_hash new pos out,
  λ h old l m. hash_del_sym-IsTable t lists g h old l m,
  λ s.
      let l : home fp_hash t s < t.max_size = omega (arith, pos) in
      find_loop-chain same t s (slot (home fp_hash t s)) (lists (home fp_hash t s)) fuel
        (g.chains (home fp_hash t s) l) (short (home fp_hash t s) l),
  print_from-lists t lists fuel 0 t.max_size g (omega arith) short,
)

-- A new table.
pub hash_make_tab-IsTable :
    (max_sym : ℕ) (next : ℕ → Option ℕ) (prev : ℕ → Place)
    → IsTable (hash_make_tab max_sym next prev) (λ i. [])
      × (0 < (hash_make_tab max_sym next prev).max_size)
unfolding hash_make_tab
hash_make_tab-IsTable max_sym next prev = (
  record { chains = λ i l. refl; once = λ i l. refl; apart = λ i j a li lj ne m. refl },
  ground arith,
)
