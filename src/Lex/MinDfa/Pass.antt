-- ===== src/Lex/MinDfa/Pass.antt =====
-- The passes of `minimize` in compiler/lex/mindfa.c over the groups.
use mathlib.Core.Path.{subst}
use cgkits.Prelude.{
  leb, ◌==◌, if◌then◌else◌, ==_iff, Bool-cases, length, set, length-set, ℕ, ◌+◌, ◌<◌, ◌≡◌, refl,
  sym, inl, inr, false, Option, none, some, List, [], ◌∷◌, ◌++◌, arith,
}
use cgkits.Set.{SetS, set_new, member}
use cgkits.Set.Member.{set_new-IsValid, compl-set_new, member-set_new}
use cgkits.Set.Count.{set_num_ele}
use cgkits.Set.Few.{empty_cases}
use cgkits.Set.Cursor.{Cursor, reset, set_next_member}
use cgkits.Set.Cursor.Enumerate.{inside}
use cgkits.Set.Cursor.Next.{Nexts, next_other}
use cgkits.Lex.Dfa.{max_chars, Row}
use cgkits.Lex.MinDfa.{Groups, group_at, Accept, Splitting, split_loop, split_group}
use cgkits.Lex.MinDfa.Partition.{IsPartition}
use cgkits.Lex.MinDfa.Split.{splits_self, IsSplit, split_loop-IsDone}
use cgkits.Lex.MinDfa.Group.{
  Refines, in_here, single-Agrees, quiet-Agrees, ingroup_old, unmoved, unmoved-IsPartition, moved,
  length-moved, moved-IsPartition,
}

module _ (dtran : List Row) (accept : List Accept) (n : ℕ) (gs : Groups)
    (h : IsPartition accept n gs) (k : ℕ) (l : k < length gs.groups) where
  abbrev cur : SetS
  cur = group_at gs.groups k

  -- The loop starts behind the first element.
  begin_at : ℕ → Splitting
  begin_at first = record {
    current = cur;
    new = set_new;
    ingroup = gs.ingroup;
    cursor = inside k (first + 1);
  }

  begin-IsSplit :
      (first : ℕ)
      → ((y : ℕ) → y < first → member cur y ≡ false)
      → IsSplit dtran k
          (length gs.groups)
          first
          cur.nbits
          gs.ingroup
          (member cur)
          (first + 1)
          (begin_at first)
  unfolding begin_at
  begin-IsSplit first least = record {
    current_valid = (h.group k l).valid;
    current_plain = (h.group k l).plain;
    new_valid = set_new-IsValid;
    new_plain = compl-set_new;
    size = refl;
    parts = λ x. ground (arith, member-set_new x);
    disjoint = λ x m. absurd (ground (arith, member-set_new x, m));
    kept_first = member-set_new first;
    groups = λ x. ground (arith, member-set_new x);
    idle = λ empty x s u. elim (Bool-cases (x == first)) [
      | inl e ↦
          let same : x ≡ first = (==_iff x first).0 e in
          rw same (splits_self dtran gs.ingroup first max_chars)
      | inr e ↦ absurd (ground (arith, least x (ground (arith, e, u)), s))
    ];
  }

  -- What is done with the first element and the cursor.
  after_first : Option ℕ × Cursor → Groups
  after_first r = elim r.0 [
    | none ↦ record gs { cursor = r.1 }
    | some first ↦
        let st =
          split_loop dtran k (length gs.groups) first (cur.nbits + 1)
            (record { current = cur; new = set_new; ingroup = gs.ingroup; cursor = r.1 }) in
        let kept = set gs.groups k st.current in
        record {
          groups = if set_num_ele st.new == 0 then kept else kept ++ st.new ∷ [];
          ingroup = st.ingroup;
          cursor = st.cursor;
        }
  ]

  split_group-after : split_group dtran k gs ≡ (
      if leb (set_num_ele cur) 1 then gs else after_first (set_next_member (reset gs.cursor) k cur))
  unfolding split_group after_first
  split_group-after = refl

  abbrev Goal : Groups → Type 0
  Goal gs' = IsPartition accept n gs' × Refines dtran n k gs gs'

  after_first-Goal : (r : Option ℕ × Cursor) → Nexts cur k 0 r → Goal (after_first r)
  unfolding after_first
  after_first-Goal r (inr e) =
      let (x, i) = h.inhabited k l in
      absurd (ground (arith, e.1 x, in_here dtran accept n gs h k l x i.0 i.1))
  after_first-Goal r (inl (first, e)) =
      subst (λ q. Goal (after_first q)) (sym e.0)
        (unfold begin_at unmoved moved in
          let least = λ (y : ℕ) (u : y < first). e.4 y (omega arith) u in
          let st = split_loop dtran k (length gs.groups) first (cur.nbits + 1) (begin_at first) in
          let done =
            split_loop-IsDone dtran k (length gs.groups) first cur.nbits gs.ingroup (member cur)
              (cur.nbits + 1) (first + 1) (begin_at first) refl (begin-IsSplit first least)
              (omega arith) in
          elim (empty_cases st.new done.1.0.new_valid) [
            | inl q ↦ rw q.0 (
              unmoved-IsPartition dtran accept n gs h k l first e.2 least st done q.1,
              record {
                grows = omega (arith, length-set gs.groups k st.current);
                still = λ same. (
                  ingroup_old dtran accept n gs h k l first e.2 least st done q.1,
                  quiet-Agrees dtran accept n gs h k l first e.2 least st done q.1,
                );
              },
            )
            | inr q ↦
                let longer = length-moved dtran accept n gs h k l first e.2 least st done in
                rw q.0 (
                  moved-IsPartition dtran accept n gs h k l first e.2 least st done q.1,
                  record {
                    grows = omega (arith, longer);
                    still = λ same. absurd (omega (arith, same, longer));
                  },
                )
          ])

  -- Let the groups divide the states below `n`: the sets are valid and not empty, `_ingroup` is
  -- their inverse, state 0 is in group 0, and the states of one group have one accepting string.
  -- After a round of the loop over the groups this is still so. There are at least as many groups
  -- as before, and if there are not more, `_ingroup` is unchanged and the states of group `k` go to
  -- the same groups on every character.
  pub split_group_cases :
      IsPartition accept n (split_group dtran k gs) × Refines dtran n k gs (split_group dtran k gs)
  unfolding reset
  split_group_cases = rw split_group-after (elim (Bool-cases (leb (set_num_ele cur) 1)) [
    | inl e ↦ rw e (
      h,
      record {
        grows = omega arith;
        still = λ same. (λ x. refl, single-Agrees dtran accept n gs h k l e);
      },
    )
    | inr e ↦ rw e (
        after_first-Goal (set_next_member (reset gs.cursor) k cur)
          (next_other cur (h.group k l).valid (h.group k l).plain k (reset gs.cursor) refl))
  ])
