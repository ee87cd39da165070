-- ===== src/Lex/MinDfa/Partition.antt =====
-- The invariant of the groups in compiler/lex/mindfa.c, and that `init_groups` sets it up.
use cgkits.Prelude.{
  ltb, ◌==◌, ltb→lt, ==_iff, Bool-cases, length, set, length-append, length-set, get_or-set_self,
  get_or-set_ne, get_or-append_left, get_or-append_last, ℕ, zero, suc, ◌+◌, ◌<◌, ◌≡◌, refl, sym, ap,
  ◌∙◌, ◌⊎◌, inl, inr, true, false, ◌&&◌, Option, none, some, List, [], ◌∷◌, ◌++◌, arith,
}
use cgkits.Set.{SetS, set_new, add, member}
use cgkits.Set.Valid.{IsValid}
use cgkits.Set.Member.{
  add-IsValid, member-add, set_new-IsValid, compl-add, compl-set_new, member-set_new,
}
use cgkits.Lex.MinDfa.{
  Groups, blank_set, group_at, Accept, string_of, same_string, match_before, assign, place,
  init_groups,
}

-- One group: a set of the states below `n` that `ingroup` sends to `k`.
pub record IsGroup (n k : ℕ) (ingroup : ℕ → ℕ) (g : SetS) : Type 0 where
  pub valid : IsValid g
  pub plain : g.compl ≡ 0
  pub exact : (x : ℕ) → member g x ≡ (ltb x n && ingroup x == k)

-- The groups divide the states below `n`, `_ingroup` is the inverse, no group is empty, the states
-- of one group have one accepting string, and state 0 is in group 0.
pub record IsPartition (accept : List Accept) (n : ℕ) (gs : Groups) : Type 0 where
  pub group : (k : ℕ) → k < length gs.groups → IsGroup n k gs.ingroup (group_at gs.groups k)
  pub within : (x : ℕ) → x < n → gs.ingroup x < length gs.groups
  pub inhabited : (k : ℕ) → k < length gs.groups → (x : ℕ) × ((x < n) × (gs.ingroup x ≡ k))
  pub labels :
      (x y : ℕ)
      → x < n
      → y < n
      → gs.ingroup x ≡ gs.ingroup y
      → string_of accept x ≡ string_of accept y
  pub start : 0 < n → gs.ingroup 0 ≡ 0

same_string-eq : (a b : Option ℕ) → same_string a b ≡ true → a ≡ b
same_string-eq none none e = refl
same_string-eq none (some b) e = absurd cc
same_string-eq (some a) none e = absurd cc
same_string-eq (some a) (some b) e = ap some ((==_iff a b).0 e)

-- `match_before` finds an earlier state with the string, or none.
match_before_cases :
    (accept : List Accept) (i j : ℕ)
    → (match_before accept i j ≡ none)
      ⊎ ((m : ℕ) × ((match_before accept i j ≡ some m)
            × (m < j)
            × (string_of accept i ≡ string_of accept m)))
unfolding match_before
match_before_cases accept i zero = inl refl
match_before_cases accept i (suc j) =
    elim (Bool-cases (same_string (string_of accept i) (string_of accept j))) [
      | inl e ↦ rw e (inr (j, (refl, omega arith, same_string-eq _ _ e)))
      | inr e ↦ rw e (elim (match_before_cases accept i j) [
        | inl h ↦ inl h
        | inr (m, h) ↦ inr (m, (h.0, omega (arith, h.1), h.2))
      ])
    ]

-- A group after a state is added to it, and the groups that the state is not added to.
added-IsGroup :
    (n k : ℕ) (ingroup : ℕ → ℕ) (g : SetS)
    → IsGroup n k ingroup g
    → IsGroup (n + 1) k (assign ingroup n k) (add g n)
added-IsGroup n k ingroup g h = record {
  valid = add-IsValid g n h.valid;
  plain = compl-add g n ∙ h.plain;
  exact = λ x. ground (arith, member-add g n x h.valid, h.exact x);
}

other-IsGroup :
    (n k k' : ℕ) (ingroup : ℕ → ℕ) (g : SetS)
    → (k == k') ≡ false
    → IsGroup n k' ingroup g
    → IsGroup (n + 1) k' (assign ingroup n k) g
other-IsGroup n k k' ingroup g e h = record {
  valid = h.valid;
  plain = h.plain;
  exact = λ x. ground (arith, h.exact x, e);
}

new-IsGroup :
    (n k : ℕ) (ingroup : ℕ → ℕ)
    → ((x : ℕ) → x < n → ingroup x < k)
    → IsGroup (n + 1) k (assign ingroup n k) (add set_new n)
new-IsGroup n k ingroup w = record {
  valid = add-IsValid set_new n set_new-IsValid;
  plain = compl-add set_new n ∙ compl-set_new;
  exact = λ x. ground (arith, member-add set_new n x set_new-IsValid, member-set_new x, w x);
}

module _ (accept : List Accept) (n : ℕ) (gs : Groups) (h : IsPartition accept n gs) where
  abbrev size : ℕ
  size = length gs.groups

  -- The state `n` joins the group `k` of an earlier state `j` that has its string.
  module _ (j : ℕ) (l : j < n) (same : string_of accept n ≡ string_of accept j) where
    abbrev k : ℕ
    k = gs.ingroup j

    joined : Groups
    joined = record gs {
      groups = set gs.groups k (add (group_at gs.groups k) n);
      ingroup = assign gs.ingroup n k;
    }

    joined-IsGroup :
        (k' : ℕ) → k' < size → IsGroup (n + 1) k' joined.ingroup (group_at joined.groups k')
    unfolding joined
    joined-IsGroup k' l' = elim (Bool-cases (k == k')) [
      | inl e ↦
          let q : k ≡ k' = (==_iff k k').0 e in
          rw
            (
              sym q,
              get_or-set_self gs.groups k (add (group_at gs.groups k) n) blank_set (h.within j l),
            )
            (added-IsGroup n k gs.ingroup (group_at gs.groups k) (h.group k (h.within j l)))
      | inr e ↦
          rw
            (get_or-set_ne gs.groups k k' (add (group_at gs.groups k) n) blank_set
              (λ q. ground (arith, q, e)))
            (other-IsGroup n k k' gs.ingroup (group_at gs.groups k') e (h.group k' l'))
    ]

    joined-labels :
        (x y : ℕ)
        → x < n + 1
        → y < n + 1
        → joined.ingroup x ≡ joined.ingroup y
        → string_of accept x ≡ string_of accept y
    unfolding joined
    joined-labels x y lx ly e = elim (Bool-cases (n == x)) [
      | inl a ↦
          let x_is : n ≡ x = (==_iff n x).0 a in
          elim (Bool-cases (n == y)) [
            | inl b ↦ let y_is : n ≡ y = (==_iff n y).0 b in ap (string_of accept) (sym x_is ∙ y_is)
            | inr b ↦ rw (sym x_is) (same ∙ h.labels j y l (ground (arith, b, ly)) (rw (a, b) at e))
          ]
      | inr a ↦ elim (Bool-cases (n == y)) [
        | inl b ↦
            let y_is : n ≡ y = (==_iff n y).0 b in
            rw (sym y_is) (h.labels x j (ground (arith, a, lx)) l (rw (a, b) at e) ∙ sym same)
        | inr b ↦ h.labels x y (ground (arith, a, lx)) (ground (arith, b, ly)) (rw (a, b) at e)
      ]
    ]

    joined-IsPartition : IsPartition accept (n + 1) joined
    unfolding joined
    joined-IsPartition = record {
      group = λ k' l'.
          joined-IsGroup k' (rw (length-set gs.groups k (add (group_at gs.groups k) n)) at l');
      within = λ x lx.
          rw (length-set gs.groups k (add (group_at gs.groups k) n))
            (ground (arith, h.within x, h.within j l, lx));
      inhabited = λ k' l'.
          let (x, i) =
            h.inhabited k' (rw (length-set gs.groups k (add (group_at gs.groups k) n)) at l') in
          (x, (omega (arith, i.0), ground (arith, i.0, i.1)));
      labels = joined-labels;
      start = λ pos. ground (arith, h.start, l);
    }

  -- The state `n` begins a group of its own.
  opened : Groups
  opened = record gs {
    groups = gs.groups ++ add set_new n ∷ [];
    ingroup = assign gs.ingroup n size;
  }

  length-opened : length opened.groups ≡ size + 1
  unfolding opened
  length-opened = length-append gs.groups (add set_new n ∷ [])

  opened-IsGroup :
      (k' : ℕ) → k' < size + 1 → IsGroup (n + 1) k' opened.ingroup (group_at opened.groups k')
  unfolding opened
  opened-IsGroup k' l' = elim (Bool-cases (size == k')) [
    | inl e ↦
        let q : size ≡ k' = (==_iff size k').0 e in
        rw (sym q, get_or-append_last gs.groups (add set_new n) blank_set)
          (new-IsGroup n size gs.ingroup h.within)
    | inr e ↦
        let small : k' < size = ground (arith, e, l') in
        rw (get_or-append_left gs.groups (add set_new n ∷ []) k' blank_set small)
          (other-IsGroup n size k' gs.ingroup (group_at gs.groups k') e (h.group k' small))
  ]

  opened-labels :
      (x y : ℕ)
      → x < n + 1
      → y < n + 1
      → opened.ingroup x ≡ opened.ingroup y
      → string_of accept x ≡ string_of accept y
  unfolding opened
  opened-labels x y lx ly e = elim (Bool-cases (n == x)) [
    | inl a ↦
        let x_is : n ≡ x = (==_iff n x).0 a in
        elim (Bool-cases (n == y)) [
          | inl b ↦ let y_is : n ≡ y = (==_iff n y).0 b in ap (string_of accept) (sym x_is ∙ y_is)
          | inr b ↦
              let q : size ≡ gs.ingroup y = rw (a, b) at e in
              absurd (omega (arith, q, h.within y (ground (arith, b, ly))))
        ]
    | inr a ↦ elim (Bool-cases (n == y)) [
      | inl b ↦
          let q : gs.ingroup x ≡ size = rw (a, b) at e in
          absurd (omega (arith, q, h.within x (ground (arith, a, lx))))
      | inr b ↦ h.labels x y (ground (arith, a, lx)) (ground (arith, b, ly)) (rw (a, b) at e)
    ]
  ]

  opened-IsPartition : IsPartition accept (n + 1) opened
  opened-IsPartition = record {
    group = λ k' l'. opened-IsGroup k' (rw length-opened at l');
    within = λ x lx. rw length-opened (unfold opened in ground (arith, h.within x, lx));
    inhabited = λ k' l'. opened_inhabited k' (rw length-opened at l');
    labels = opened-labels;
    start = λ pos. opened_start;
  }
    where
      opened_inhabited :
          (k' : ℕ) → k' < size + 1 → (x : ℕ) × ((x < n + 1) × (opened.ingroup x ≡ k'))
      opened_inhabited k' l' = elim (Bool-cases (size == k')) [
        | inl e ↦ (n, unfold opened in (omega arith, ground (arith, e)))
        | inr e ↦
            let (x, i) = h.inhabited k' (ground (arith, e, l')) in
            (x, unfold opened in (omega (arith, i.0), ground (arith, i.0, i.1)))
      ]

      opened_start : opened.ingroup 0 ≡ 0
      opened_start =
          unfold opened in
          elim (Bool-cases (ltb 0 n)) [
            | inl e ↦ let pos = ltb→lt 0 n e in ground (arith, h.start pos, pos)
            | inr e ↦ elim (Bool-cases (ltb 0 size)) [
              | inl f ↦
                  let (x, i) = h.inhabited 0 (ltb→lt 0 size f) in absurd (ground (arith, i.0, e))
              | inr f ↦ ground (arith, e, f)
            ]
          ]

-- One round of `init_groups`, and all of it.
place-IsPartition :
    (accept : List Accept) (n : ℕ) (gs : Groups)
    → IsPartition accept n gs
    → IsPartition accept (n + 1) (place accept n gs)
unfolding place joined opened
place-IsPartition accept n gs h = elim (match_before_cases accept n n) [
  | inl e ↦ rw (place, e) (opened-IsPartition accept n gs h)
  | inr (j, e) ↦ rw (place, e.0) (joined-IsPartition accept n gs h j e.1 e.2)
]

pub init_groups-IsPartition :
    (accept : List Accept) (n : ℕ) (gs : Groups)
    → gs.groups ≡ []
    → IsPartition accept n (init_groups accept n gs)
unfolding init_groups
init_groups-IsPartition accept zero gs e = record {
  group = λ k l. absurd (none_there k l);
  within = λ x l. absurd (omega arith);
  inhabited = λ k l. absurd (none_there k l);
  labels = λ x y l. absurd (omega arith);
  start = λ l. absurd (omega arith);
}
  where
    none_there : (k : ℕ) → k < length gs.groups → ⊥
    none_there k l = omega (arith, (rw e at l))
init_groups-IsPartition accept (suc n) gs e =
    let q : n + 1 ≡ suc n = omega arith in
    rw q at
      (place-IsPartition accept n (init_groups accept n gs) (init_groups-IsPartition accept n gs e))
