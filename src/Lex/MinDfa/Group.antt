-- ===== src/Lex/MinDfa/Group.antt =====
-- What `minimize` in compiler/lex/mindfa.c does to one group.
use mathlib.Core.Path.{subst}
use cgkits.Prelude.{
  ltb, leb, ◌==◌, ltb→lt, ==_iff, Bool-cases, length, set, length-append, length-set,
  get_or-set_self, get_or-set_ne, get_or-append_left, get_or-append_last, ℕ, ◌+◌, ◌≤◌, ◌<◌, ◌≡◌,
  sym, ap, ◌∙◌, ◌⊎◌, inl, inr, Bool, true, false, ◌&&◌, List, [], ◌∷◌, ◌++◌, arith,
}
use cgkits.Set.{SetS, member}
use cgkits.Set.Count.{set_num_ele}
use cgkits.Set.Few.{few_unique}
use cgkits.Lex.Dfa.{max_chars, Row}
use cgkits.Lex.MinDfa.{Groups, blank_set, group_at, Accept, string_of, goto_at, Splitting}
use cgkits.Lex.MinDfa.Partition.{IsGroup, IsPartition}
use cgkits.Lex.MinDfa.Split.{moves, splits-moves, IsSplit, IsDone}

-- The states of group `k` go to the same groups on every character.
abbrev pub Agrees : List Row → ℕ → (ℕ → ℕ) → ℕ → Type 0
Agrees dtran n ingroup k =
    (x y c : ℕ)
    → x < n
    → y < n
    → ingroup x ≡ k
    → ingroup y ≡ k
    → c < max_chars
    → moves ingroup (goto_at dtran x c) ≡ moves ingroup (goto_at dtran y c)

-- Groups only get more; if there are not more of them, nothing has changed and group `k` agrees.
pub record Refines (dtran : List Row) (n k : ℕ) (gs gs' : Groups) : Type 0 where
  pub grows : length gs.groups ≤ length gs'.groups
  pub still :
      length gs'.groups ≡ length gs.groups
      → ((x : ℕ) → gs'.ingroup x ≡ gs.ingroup x) × Agrees dtran n gs.ingroup k

module _ (dtran : List Row) (accept : List Accept) (n : ℕ) (gs : Groups)
    (h : IsPartition accept n gs) (k : ℕ) (l : k < length gs.groups) where
  abbrev ng : ℕ
  ng = length gs.groups

  abbrev here : SetS
  here = group_at gs.groups k

  pub in_here : (x : ℕ) → x < n → gs.ingroup x ≡ k → member here x ≡ true
  in_here x lx e = ground (arith, (h.group k l).exact x, lx, e)

  from_here : (x : ℕ) → member here x ≡ true → (x < n) × (gs.ingroup x ≡ k)
  from_here x m =
      (ground (arith, (h.group k l).exact x, m), ground (arith, (h.group k l).exact x, m))

  -- A group of one state agrees.
  pub single-Agrees : leb (set_num_ele here) 1 ≡ true → Agrees dtran n gs.ingroup k
  single-Agrees few x y c lx ly ex ey lc =
      let same = few_unique here x y (h.group k l).valid few (in_here x lx ex) (in_here y ly ey) in
      ap (λ z. moves gs.ingroup (goto_at dtran z c)) same

  module _ (first : ℕ) (in_first : member here first ≡ true)
      (least : (y : ℕ) → y < first → member here y ≡ false) (st : Splitting)
      (done : IsDone dtran k ng first here.nbits gs.ingroup (member here) st) where
    abbrev s : IsSplit dtran k ng first here.nbits gs.ingroup (member here) done.0 st
    s = done.1.0

    -- Everything in the group has been looked at, if nothing was moved.
    pub quiet-Agrees : ((x : ℕ) → member st.new x ≡ false) → Agrees dtran n gs.ingroup k
    quiet-Agrees empty x y c lx ly ex ey lc = sym (to_first x lx ex) ∙ to_first y ly ey
      where
        to_first :
            (z : ℕ)
            → z < n
            → gs.ingroup z ≡ k
            → moves gs.ingroup (goto_at dtran first c) ≡ moves gs.ingroup (goto_at dtran z c)
        to_first z lz ez =
            splits-moves dtran gs.ingroup first z max_chars c
              (s.idle empty z (in_here z lz ez) passed) lc
          where
            passed : z < done.0
            passed = elim (Bool-cases (ltb z done.0)) [
              | inl e ↦ ltb→lt z done.0 e
              | inr e ↦ absurd (
                  ground
                    (arith, s.parts z, in_here z lz ez, empty z, done.1.1 z (ground (arith, e))))
            ]

    abbrev kept : List SetS
    kept = set gs.groups k st.current

    pub ingroup_old : ((x : ℕ) → member st.new x ≡ false) → (x : ℕ) → st.ingroup x ≡ gs.ingroup x
    ingroup_old empty x = ground (arith, s.groups x, empty x)

    -- Nothing was moved.
    unfoldable pub unmoved : Groups
    unmoved = record { groups = kept; ingroup = st.ingroup; cursor = st.cursor }

    pub unmoved-IsPartition : ((x : ℕ) → member st.new x ≡ false) → IsPartition accept n unmoved
    unfolding unmoved
    unmoved-IsPartition empty = record {
      group = λ k' l'. unmoved_group k' (rw (length-set gs.groups k st.current) at l');
      within = λ x lx. rw (length-set gs.groups k st.current, ingroup_old empty x) (h.within x lx);
      inhabited = λ k' l'.
          let (x, i) = h.inhabited k' (rw (length-set gs.groups k st.current) at l') in
          (x, (i.0, ingroup_old empty x ∙ i.1));
      labels =
          λ x y lx ly e. h.labels x y lx ly (sym (ingroup_old empty x) ∙ (e ∙ ingroup_old empty y));
      start = λ pos. ingroup_old empty 0 ∙ h.start pos;
    }
      where
        unmoved_group : (k' : ℕ) → k' < ng → IsGroup n k' st.ingroup (group_at kept k')
        unmoved_group k' l' = elim (Bool-cases (k == k')) [
          | inl e ↦
              let q : k ≡ k' = (==_iff k k').0 e in
              rw (sym q, get_or-set_self gs.groups k st.current blank_set l)
                (record {
                  valid = s.current_valid;
                  plain = s.current_plain;
                  exact = λ x.
                      rw (ingroup_old empty x)
                        (ground (arith, s.parts x, empty x, (h.group k l).exact x));
                })
          | inr e ↦
              rw (get_or-set_ne gs.groups k k' st.current blank_set (λ q. ground (arith, q, e)))
                (record {
                  valid = (h.group k' l').valid;
                  plain = (h.group k' l').plain;
                  exact = λ x. rw (ingroup_old empty x) ((h.group k' l').exact x);
                })
        ]

    -- Some states were moved.
    unfoldable pub moved : Groups
    moved = record { groups = kept ++ st.new ∷ []; ingroup = st.ingroup; cursor = st.cursor }

    pub length-moved : length moved.groups ≡ ng + 1
    unfolding moved
    length-moved =
        length-append kept (st.new ∷ []) ∙ ap (λ m. m + 1) (length-set gs.groups k st.current)

    -- A moved state was in the group.
    moved_from : (x : ℕ) → member st.new x ≡ true → (x < n) × (gs.ingroup x ≡ k)
    moved_from x m = from_here x (ground (arith, s.parts x, m))

    old_ingroup : (x : ℕ) → member st.new x ≡ false → st.ingroup x ≡ gs.ingroup x
    old_ingroup x e = ground (arith, s.groups x, e)

    new_ingroup : (x : ℕ) → member st.new x ≡ true → st.ingroup x ≡ ng
    new_ingroup x e = ground (arith, s.groups x, e)

    moved-IsGroup : (k' : ℕ) → k' < ng + 1 → IsGroup n k' st.ingroup (group_at moved.groups k')
    unfolding moved
    moved-IsGroup k' l' = elim (Bool-cases (ng == k')) [
      | inl e ↦
          let q : ng ≡ k' = (==_iff ng k').0 e in
          rw (sym q) (
            subst (IsGroup n ng st.ingroup) (sym at_last)
              (record { valid = s.new_valid; plain = s.new_plain; exact = new_exact }))
      | inr e ↦
          let small : k' < ng = ground (arith, e, l') in
          rw
            (get_or-append_left kept (st.new ∷ []) k' blank_set
              (rw (length-set gs.groups k st.current) small))
            (old_group k' small (Bool-cases (k == k')))
    ]
      where
        at_last : group_at (kept ++ st.new ∷ []) ng ≡ st.new
        at_last =
            let e : length kept ≡ ng = length-set gs.groups k st.current in
            rw e at (get_or-append_last kept st.new blank_set)

        new_exact : (x : ℕ) → member st.new x ≡ (ltb x n && st.ingroup x == ng)
        new_exact x = elim (Bool-cases (member st.new x)) [
          | inl m ↦ rw m (ground (arith, moved_from x m, new_ingroup x m))
          | inr m ↦ rw m (ground (arith, old_ingroup x m, h.within x))
        ]

        kept_exact : (x : ℕ) → member st.current x ≡ (ltb x n && st.ingroup x == k)
        kept_exact x = elim (Bool-cases (member st.new x)) [
          | inl m ↦ rw (s.disjoint x m) (ground (arith, new_ingroup x m, l))
          | inr m ↦ ground (arith, s.parts x, m, (h.group k l).exact x, old_ingroup x m)
        ]

        old_exact :
            (k' x : ℕ)
            → k' < ng
            → (k == k') ≡ false
            → member (group_at gs.groups k') x ≡ (ltb x n && st.ingroup x == k')
        old_exact k' x small e = elim (Bool-cases (member st.new x)) [
          | inl m ↦
              ground (arith, (h.group k' small).exact x, moved_from x m, new_ingroup x m, e, small)
          | inr m ↦ ground (arith, (h.group k' small).exact x, old_ingroup x m)
        ]

        old_group :
            (k' : ℕ)
            → k' < ng
            → ((k == k') ≡ true) ⊎ ((k == k') ≡ false)
            → IsGroup n k' st.ingroup (group_at kept k')
        old_group k' small (inl e) =
            let q : k ≡ k' = (==_iff k k').0 e in
            rw (sym q, get_or-set_self gs.groups k st.current blank_set l)
              (record { valid = s.current_valid; plain = s.current_plain; exact = kept_exact })
        old_group k' small (inr e) =
            rw (get_or-set_ne gs.groups k k' st.current blank_set (λ q. ground (arith, q, e)))
              (record {
                valid = (h.group k' small).valid;
                plain = (h.group k' small).plain;
                exact = λ x. old_exact k' x small e;
              })

    moved_labels :
        (x y : ℕ)
        → x < n
        → y < n
        → st.ingroup x ≡ st.ingroup y
        → string_of accept x ≡ string_of accept y
    moved_labels x y lx ly e = elim (Bool-cases (member st.new x)) [
      | inl a ↦ elim (Bool-cases (member st.new y)) [
        | inl b ↦ h.labels x y lx ly ((moved_from x a).1 ∙ sym (moved_from y b).1)
        | inr b ↦ absurd (omega (arith, e, new_ingroup x a, old_ingroup y b, h.within y ly))
      ]
      | inr a ↦ elim (Bool-cases (member st.new y)) [
        | inl b ↦ absurd (omega (arith, e, new_ingroup y b, old_ingroup x a, h.within x lx))
        | inr b ↦ h.labels x y lx ly (sym (old_ingroup x a) ∙ (e ∙ old_ingroup y b))
      ]
    ]

    -- The first state stays, and so does state 0, which is first in its group.
    first_stays : st.ingroup first ≡ k
    first_stays = old_ingroup first s.kept_first ∙ (from_here first in_first).1

    moved_start : 0 < n → st.ingroup 0 ≡ 0
    moved_start pos = elim (Bool-cases (member st.new 0)) [
      | inr e ↦ old_ingroup 0 e ∙ h.start pos
      | inl e ↦ elim (Bool-cases (first == 0)) [
        | inl z ↦
            let same : first ≡ 0 = (==_iff first 0).0 z in
            absurd (clash (rw same at s.kept_first) e)
        | inr z ↦ absurd (clash (least 0 (ground (arith, z))) (in_here 0 pos (moved_from 0 e).1))
      ]
    ]
      where
        clash : {b : Bool} → b ≡ false → b ≡ true → ⊥
        clash e e' = cc

    pub moved-IsPartition : (x : ℕ) × (member st.new x ≡ true) → IsPartition accept n moved
    moved-IsPartition (x, m) = record {
      group = λ k' l'. unfold moved in moved-IsGroup k' (rw length-moved at l');
      within = λ y ly. rw length-moved (unfold moved in inside y ly (Bool-cases (member st.new y)));
      inhabited = λ k' l'. some_state k' (rw length-moved at l');
      labels = unfold moved in moved_labels;
      start = unfold moved in moved_start;
    }
      where
        inside :
            (y : ℕ)
            → y < n
            → (member st.new y ≡ true) ⊎ (member st.new y ≡ false)
            → st.ingroup y < ng + 1
        inside y ly (inl e) = omega (arith, new_ingroup y e)
        inside y ly (inr e) = omega (arith, old_ingroup y e, h.within y ly)

        some_state : (k' : ℕ) → k' < ng + 1 → (y : ℕ) × ((y < n) × (moved.ingroup y ≡ k'))
        some_state k' l' =
            unfold moved in
            elim (Bool-cases (ng == k')) [
              | inl e ↦ (x, ((moved_from x m).0, new_ingroup x m ∙ (==_iff ng k').0 e))
              | inr e ↦ elim (Bool-cases (k == k')) [
                | inl f ↦ (first, ((from_here first in_first).0, first_stays ∙ (==_iff k k').0 f))
                | inr f ↦
                    let (y, i) = h.inhabited k' (ground (arith, e, l')) in
                    (y, (i.0, stays y i.1 f (Bool-cases (member st.new y)) ∙ i.1))
              ]
            ]
          where
            stays :
                (y : ℕ)
                → gs.ingroup y ≡ k'
                → (k == k') ≡ false
                → (member st.new y ≡ true) ⊎ (member st.new y ≡ false)
                → st.ingroup y ≡ gs.ingroup y
            stays y q f (inr e) = old_ingroup y e
            stays y q f (inl e) = absurd (ground (arith, moved_from y e, q, f))
