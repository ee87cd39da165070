-- ===== src/Lex/MinDfa/Refine.antt =====
-- The loops of `minimize` in compiler/lex/mindfa.c: a pass over all groups, and the passes up to the
-- one that changes nothing.
use mathlib.Core.Path.{subst, fun_ext}
use cgkits.Prelude.{
  ltb, ◌==◌, if◌then◌else◌, ltb→lt, ==_iff, Bool-cases, length, ℕ, zero, suc, ◌+◌, ◌-◌, ◌≤◌, ◌<◌,
  ◌≡◌, refl, sym, ◌∙◌, inl, inr, some, List, arith,
}
use cgkits.Lex.Dfa.{Row}
use cgkits.Lex.MinDfa.{Groups, Accept, split_group, group_pass, refine}
use cgkits.Lex.MinDfa.Partition.{IsPartition}
use cgkits.Lex.MinDfa.Group.{Agrees, Refines}
use cgkits.Lex.MinDfa.Pass.{split_group_cases}

-- Numbers that reach all those below `m` from those below `n` leave no room for a larger `m`.
reached-small : (n m : ℕ) (f : ℕ → ℕ) → ((k : ℕ) → k < m → (x : ℕ) × ((x < n) × (f x ≡ k))) → m ≤ n
reached-small zero zero f h = omega arith
reached-small zero (suc m) f h = let (x, i) = h 0 (omega arith) in omega (arith, i.0)
reached-small (suc n) zero f h = omega arith
reached-small (suc n) (suc m) f h =
    let small : m ≤ n = reached-small n m g reach in omega (arith, small)
  where
    -- What `m` was is sent to the value of `n`.
    g : ℕ → ℕ
    g x = if f x == m then f n else f x

    reach : (k : ℕ) → k < m → (x : ℕ) × ((x < n) × (g x ≡ k))
    reach k l = elim (Bool-cases (f n == k)) [
      | inl e ↦
          let (x, i) = h m (omega arith) in
          let before : x < n = elim (Bool-cases (x == n)) [
            | inl q ↦
                let same : x ≡ n = (==_iff x n).0 q in
                absurd (ground (arith, (rw same at i.1), e, l))
            | inr q ↦ ground (arith, q, i.0)
          ] in
          (x, (before, ground (arith, i.1, e)))
      | inr e ↦
          let (x, i) = h k (omega (arith, l)) in
          let before : x < n = elim (Bool-cases (x == n)) [
            | inl q ↦
                let same : x ≡ n = (==_iff x n).0 q in absurd (ground (arith, (rw same at i.1), e))
            | inr q ↦ ground (arith, q, i.0)
          ] in
          (x, (before, ground (arith, i.1, e, l)))
    ]

-- There are no more groups than states.
pub partition-small :
    (accept : List Accept) (n : ℕ) (gs : Groups) → IsPartition accept n gs → length gs.groups ≤ n
partition-small accept n gs h = reached-small n (length gs.groups) gs.ingroup h.inhabited

-- What a pass over the groups from `k` on does.
pub record Passes (dtran : List Row) (n k : ℕ) (gs gs' : Groups) : Type 0 where
  pub grows : length gs.groups ≤ length gs'.groups
  pub still :
      length gs'.groups ≡ length gs.groups
      → ((x : ℕ) → gs'.ingroup x ≡ gs.ingroup x)
        × ((j : ℕ) → k ≤ j → j < length gs.groups → Agrees dtran n gs.ingroup j)

module _ (dtran : List Row) (accept : List Accept) (n : ℕ) where
  one-Passes :
      (k : ℕ) (gs gs' gs'' : Groups)
      → Refines dtran n k gs gs'
      → Passes dtran n (k + 1) gs' gs''
      → Passes dtran n k gs gs''
  one-Passes k gs gs' gs'' r p = record {
    grows = omega (arith, r.grows, p.grows);
    still = λ same.
        let same' : length gs'.groups ≡ length gs.groups = omega (arith, same, r.grows, p.grows) in
        let same'' : length gs''.groups ≡ length gs'.groups = omega (arith, same, same') in
        let old = (r.still same').0 in
        (
          λ x. (p.still same'').0 x ∙ old x,
          λ j l l'. elim (Bool-cases (j == k)) [
            | inl e ↦ let q : j ≡ k = (==_iff j k).0 e in rw q ((r.still same').1)
            | inr e ↦
                subst (λ f. Agrees dtran n f j) (fun_ext old)
                  ((p.still same'').1 j (ground (arith, e, l)) (omega (arith, l', same')))
          ],
        );
  }

  pub group_pass_cases :
      (fuel k : ℕ) (gs : Groups)
      → IsPartition accept n gs
      → n ≤ k + fuel
      → IsPartition accept n (group_pass dtran k fuel gs)
        × Passes dtran n k gs (group_pass dtran k fuel gs)
  unfolding group_pass
  group_pass_cases zero k gs h l = (
    h,
    record {
      grows = omega arith;
      still = λ same.
          (λ x. refl, λ j a b. absurd (omega (arith, a, b, l, partition-small accept n gs h)));
    },
  )
  group_pass_cases (suc fuel) k gs h l = elim (Bool-cases (ltb k (length gs.groups))) [
    | inl e ↦
        let one = split_group_cases dtran accept n gs h k (ltb→lt k (length gs.groups) e) in
        let more =
          group_pass_cases fuel (k + 1) (split_group dtran k gs) one.0 (omega (arith, l)) in
        rw e (more.0, one-Passes k gs (split_group dtran k gs) _ one.1 more.1)
    | inr e ↦ rw e (
      h,
      record {
        grows = omega arith;
        still = λ same. (λ x. refl, λ j a b. absurd (ground (arith, a, b, e)));
      },
    )
  ]

  -- What `minimize` ends with: groups whose states agree on every character.
  pub record IsStable (gs : Groups) : Type 0 where
    pub partition : IsPartition accept n gs
    pub agrees : (k : ℕ) → k < length gs.groups → Agrees dtran n gs.ingroup k

  -- On groups that divide the states below `n`, with fuel for a round for each group that can still
  -- be added, the rounds of `minimize` end. They end with groups that divide the states, and the
  -- states of each group go to the same groups on every character.
  pub refine-IsStable :
      (fuel : ℕ) (gs : Groups)
      → IsPartition accept n gs
      → n - length gs.groups < fuel
      → (gs' : Groups) × ((refine dtran n fuel gs ≡ some gs') × IsStable gs')
  unfolding refine
  refine-IsStable zero gs h l = absurd (omega arith)
  refine-IsStable (suc fuel) gs h l =
      let gs' = group_pass dtran 0 n gs in
      let pass = group_pass_cases n 0 gs h (omega arith) in
      elim (Bool-cases (length gs'.groups == length gs.groups)) [
        | inl e ↦
            let same : length gs'.groups ≡ length gs.groups = (==_iff _ _).0 e in
            let st = pass.1.still same in
            rw e (
              gs',
              (
                refl,
                record {
                  partition = pass.0;
                  agrees = λ k lk.
                      subst (λ f. Agrees dtran n f k) (sym (fun_ext st.0))
                        (st.1 k (omega arith) (omega (arith, lk, same)));
                },
              ),
            )
        | inr e ↦
            let small = partition-small accept n gs' pass.0 in
            let longer : length gs.groups < length gs'.groups = ground (arith, e, pass.1.grows) in
            rw e (refine-IsStable fuel gs' pass.0 (omega (arith, l, small, longer)))
      ]
