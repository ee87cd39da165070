-- ===== src/System/Pairs/Lookup.antt =====
-- The subroutine `yy_next` finds in the table that `sys_pairs` of compiler/lib/syslib.c writes what
-- the table had before it was compressed.
use mathlib.Core.Path.{subst}
use cgkits.Prelude.{
  ltb, ◌==◌, if◌then◌else◌, Bool-cases, length, get_elem?, get_or, ℕ, zero, suc, ◌+◌, ◌-◌, ◌%◌, ◌^◌,
  ◌≤◌, ◌<◌, ◌≡◌, refl, sym, ap, ◌∙◌, ◌≢◌, ◌⊎◌, inl, inr, true, false, Option, none, some, List, [],
  ◌∷◌, map, arith,
}
use cgkits.System.Pairs.{
  Cell, to_ttype, yyf, transitions, pairs_from, row_array, pointers_from, sys_pairs, found,
  undeclared, find_pair, index, next_in, yy_next,
}

-- A row without transitions has -1 in every column.
get_or-no_transitions : (row : List Cell) (c : ℕ) → transitions row ≡ 0 → get_or row c none ≡ none
unfolding transitions
get_or-no_transitions [] c e = refl
get_or-no_transitions (none ∷ row) zero e = refl
get_or-no_transitions (none ∷ row) (suc c) e = get_or-no_transitions row c e
get_or-no_transitions (some s ∷ row) c e = absurd (omega (arith, e))

-- The search through the pairs of the columns from `j` on, for a column before them and for one of
-- them. The columns are bytes, so that the compiled array has them as they were written.
find_pair-before :
    (row : List Cell) (j c : ℕ)
    → c < j
    → j + length row ≤ 2 ^ 8
    → find_pair (transitions row) (pairs_from j row) c ≡ found yyf
unfolding find_pair pairs_from transitions to_ttype
find_pair-before [] j c l n = refl
find_pair-before (none ∷ row) j c l n =
    find_pair-before row (j + 1) c (omega arith) (omega (arith, n))
find_pair-before (some s ∷ row) j c l n =
    let other : (c == j % 2 ^ 8) ≡ false = ground (arith, n) in
    rw other (find_pair-before row (j + 1) c (omega arith) (omega (arith, n)))

find_pair-pairs_from :
    (row : List Cell) (j c : ℕ)
    → j ≤ c
    → j + length row ≤ 2 ^ 8
    → find_pair (transitions row) (pairs_from j row) c ≡ found (to_ttype (get_or row (c - j) none))
unfolding find_pair pairs_from transitions to_ttype
find_pair-pairs_from [] j c l n = refl
find_pair-pairs_from (a ∷ row) j c l n = elim (Bool-cases (c == j)) [
  | inl e ↦ let here : c - j ≡ 0 = ground (arith, e) in rw here (at_first a e)
  | inr e ↦
      let there : c - j ≡ suc (c - (j + 1)) = ground (arith, e) in
      rw there
        (past a e (find_pair-pairs_from row (j + 1) c (ground (arith, e)) (omega (arith, n))))
]
  where
    same : j % 2 ^ 8 ≡ j
    same = omega (arith, n)

    at_first :
        (a : Cell)
        → (c == j) ≡ true
        → find_pair (transitions (a ∷ row)) (pairs_from j (a ∷ row)) c ≡ found (to_ttype a)
    at_first none e = find_pair-before row (j + 1) c (ground (arith, e)) (omega (arith, n))
    at_first (some s) e = rw (same, e) refl

    past :
        (a : Cell)
        → (c == j) ≡ false
        → find_pair (transitions row) (pairs_from (j + 1) row) c
          ≡ found (to_ttype (get_or row (c - (j + 1)) none))
        → find_pair (transitions (a ∷ row)) (pairs_from j (a ∷ row)) c
          ≡ found (to_ttype (get_or row (c - (j + 1)) none))
    past none e h = h
    past (some s) e h = rw (same, e) h

index-get_or :
    (row : List Cell) (c : ℕ) → c < length row → index row c ≡ found (to_ttype (get_or row c none))
unfolding index
index-get_or [] c l = absurd (omega arith)
index-get_or (a ∷ row) zero l = refl
index-get_or (a ∷ row) (suc c) l = index-get_or row c (omega (arith, l))

-- A lookup in the array of a row.
row_array-next_in :
    (threshold : ℕ) (row : List Cell) (c : ℕ)
    → threshold < 2 ^ 8
    → length row ≤ 2 ^ 8
    → c < length row
    → ((transitions row == 0) ≡ true)
      ⊎ ((cells : List Cell) × ((row_array threshold row ≡ some cells)
            × ((transitions row == 0) ≡ false)
            × (next_in cells c ≡ found (to_ttype (get_or row c none)))))
unfolding row_array next_in to_ttype
row_array-next_in threshold row c t n l = elim (Bool-cases (transitions row == 0)) [
  | inl e ↦ inl e
  | inr e ↦ rw e (elim (Bool-cases (ltb threshold (transitions row))) [
    | inl f ↦ rw f (inr (some 0 ∷ row, (refl, refl, index-get_or row c l)))
    | inr f ↦
        let byte : transitions row % 2 ^ 8 ≡ transitions row = ground (arith, f, t) in
        rw f (
          inr (
            some (transitions row) ∷ pairs_from 0 row,
            (
              refl,
              refl,
              rw (byte, e)
                  (rw first at (find_pair-pairs_from row 0 c (omega arith) (omega (arith, n)))),
            ),
          ))
  ])
]
  where
    first : c - 0 ≡ c
    first = omega arith

-- The pointer of a row and the array of a row.
named : List (List Cell) → ℕ → ℕ → Option ℕ
named rows i k = if transitions (get_or rows k []) == 0 then none else some (i + k)

pointers_from-early :
    (rows : List (List Cell)) (i k : ℕ)
    → k + 1 < length rows
    → get_elem? (pointers_from i rows) k ≡ some (named rows i k)
unfolding pointers_from named
pointers_from-early [] i k l = absurd (omega arith)
pointers_from-early (row ∷ []) i k l = absurd (omega (arith, l))
pointers_from-early (row ∷ row' ∷ rows) i zero l =
    let first : i + 0 ≡ i = omega arith in rw first refl
pointers_from-early (row ∷ row' ∷ rows) i (suc k) l =
    let later : i + 1 + k ≡ i + suc k = omega arith in
    subst
      (λ m.
        get_elem? (pointers_from (i + 1) (row' ∷ rows)) k
        ≡ some (if transitions (get_or (row' ∷ rows) k []) == 0 then none else some m))
      later (pointers_from-early (row' ∷ rows) (i + 1) k (omega (arith, l)))

pointers_from-last :
    (rows : List (List Cell)) (i k : ℕ)
    → k + 1 ≡ length rows
    → get_elem? (pointers_from i rows) k ≡ some (some (i + k))
unfolding pointers_from
pointers_from-last [] i k e = absurd (omega (arith, e))
pointers_from-last (row ∷ []) i zero e = let first : i + 0 ≡ i = omega arith in rw first refl
pointers_from-last (row ∷ []) i (suc k) e = absurd (omega (arith, e))
pointers_from-last (row ∷ row' ∷ rows) i zero e = absurd (omega (arith, e))
pointers_from-last (row ∷ row' ∷ rows) i (suc k) e =
    let later : i + 1 + k ≡ i + suc k = omega arith in
    rw later at (pointers_from-last (row' ∷ rows) (i + 1) k (omega (arith, e)))

get_or-arrays :
    (threshold : ℕ) (rows : List (List Cell)) (k : ℕ)
    → k < length rows
    → get_or (map (row_array threshold) rows) k none ≡ row_array threshold (get_or rows k [])
get_or-arrays threshold [] k l = absurd (omega arith)
get_or-arrays threshold (row ∷ rows) zero l = refl
get_or-arrays threshold (row ∷ rows) (suc k) l = get_or-arrays threshold rows k (omega (arith, l))

yy_next-to_ttype :
    (threshold : ℕ) (rows : List (List Cell)) (s c : ℕ)
    → threshold < 2 ^ 8
    → length (get_or rows s []) ≤ 2 ^ 8
    → (s + 1 < length rows) ⊎ ((s + 1 ≡ length rows) × (0 < transitions (get_or rows s [])))
    → c < length (get_or rows s [])
    → yy_next (sys_pairs threshold rows).0 s c ≡ found (to_ttype (get_or (get_or rows s []) c none))
unfolding yy_next sys_pairs named to_ttype
yy_next-to_ttype threshold rows s c t n place l =
    elim (row_array-next_in threshold (get_or rows s []) c t n l) [
      | inl e ↦ elim place [
        | inl early ↦
            let gone : transitions (get_or rows s []) ≡ 0 = ground (arith, e) in
            rw
              (
                yy_next,
                pointers_from-early rows 0 s early,
                e,
                get_or-no_transitions (get_or rows s []) c gone,
              )
              refl
        | inr last ↦ absurd (ground (arith, e, last.1))
      ]
      | inr (cells, q) ↦
          let plain : 0 + s ≡ s = omega arith in
          let pointer : get_elem? (pointers_from 0 rows) s ≡ some (some s) = elim place [
            | inl early ↦ rw (q.1, plain) at (pointers_from-early rows 0 s early)
            | inr last ↦ rw plain at (pointers_from-last rows 0 s last.0)
          ] in
          let there : s < length rows = elim place [
            | inl early ↦ omega (arith, early)
            | inr last ↦ omega (arith, last.0)
          ] in
          rw (yy_next, pointer, get_or-arrays threshold rows s there, q.0) (q.2)
    ]

-- In the table that `sys_pairs` writes for `rows` of at most 256 columns, with a threshold below
-- 256, `yy_next` finds for a state and a character within the row of the state the low eight bits
-- of what that row has for the character, and `YYF`, 255, where the row has -1, in the array with
-- its zero in front as well as in pairs. For the last state this needs a row that has some
-- transition. So an entry below 255 comes back as it was and differs from `YYF`.
pub yy_next-sys_pairs :
    (threshold : ℕ) (rows : List (List Cell)) (s c : ℕ)
    → threshold < 2 ^ 8
    → length (get_or rows s []) ≤ 2 ^ 8
    → (s + 1 < length rows) ⊎ ((s + 1 ≡ length rows) × (0 < transitions (get_or rows s [])))
    → c < length (get_or rows s [])
    → let read = yy_next (sys_pairs threshold rows).0 s c in
      let entry = get_or (get_or rows s []) c none in
      (entry ≡ none → read ≡ found yyf)
      × ((v : ℕ) → entry ≡ some v → read ≡ found (v % 2 ^ 8))
      × ((v : ℕ) → entry ≡ some v → v < yyf → (read ≡ found v) × (read ≢ found yyf))
unfolding to_ttype
yy_next-sys_pairs threshold rows s c t n place l =
    let entry : Cell = get_or (get_or rows s []) c none in
    let looked = yy_next-to_ttype threshold rows s c t n place l in
    (
      λ e. looked ∙ ap (λ a. found (to_ttype a)) e,
      λ v e. looked ∙ ap (λ a. found (to_ttype a)) e,
      λ v e k.
          let byte : v % 2 ^ 8 ≡ v = omega arith in
          let plain : yy_next (sys_pairs threshold rows).0 s c ≡ found v =
            looked ∙ ap (λ a. found (to_ttype a)) e ∙ ap found byte in
          (plain, λ f. different (sym plain ∙ f) k),
    )
  where
    different : {v : ℕ} → found v ≡ found yyf → v < yyf → ⊥
    different e k = ground arith

-- If the last row has no transition, its pointer names the array of the row all the same, an array
-- that `sys_pairs` does not declare.
pub yy_next-last_empty :
    (threshold : ℕ) (rows : List (List Cell)) (s c : ℕ)
    → s + 1 ≡ length rows
    → transitions (get_or rows s []) ≡ 0
    → yy_next (sys_pairs threshold rows).0 s c ≡ undeclared s
unfolding yy_next sys_pairs row_array
yy_next-last_empty threshold rows s c last e =
    let gone : (transitions (get_or rows s []) == 0) ≡ true = ground (arith, e) in
    let plain : 0 + s ≡ s = omega arith in
    rw
      (
        yy_next,
        pointers_from-last rows 0 s last,
        plain,
        get_or-arrays threshold rows s (omega (arith, last)),
        gone,
      )
      (ap undeclared plain)
