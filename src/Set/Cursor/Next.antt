-- ===== src/Set/Cursor/Next.antt =====
-- One call of `set_next_member`, for callers that change the set between the calls.
use cgkits.Prelude.{
  ltb, leb, ◌==◌, ltb→lt, leb→le, ==_iff, Bool-cases, ℕ, zero, suc, ◌+◌, ◌-◌, ◌≤◌, ◌<◌, ◌≡◌, refl,
  sym, ap, ◌∙◌, ◌⊎◌, inl, inr, true, false, Option, none, some, arith,
}
use cgkits.Set.{SetS, member, test}
use cgkits.Set.Valid.{IsValid}
use cgkits.Set.Member.{member-past}
use cgkits.Set.Cursor.{Cursor, scan, is_last, start_of, set_next_member}
use cgkits.Set.Cursor.Enumerate.{inside, start_of-inside, start, test_plain, start_lem}

-- From `from` on the call finds the least member and leaves the cursor past it, or finds none.
abbrev pub Nexts : SetS → ℕ → ℕ → Option ℕ × Cursor → Type 0
Nexts s id from r =
    ((x : ℕ) × ((r ≡ (some x, inside id (x + 1)))
        × (from ≤ x)
        × (member s x ≡ true)
        × (x < s.nbits)
        × ((y : ℕ) → from ≤ y → y < x → member s y ≡ false)))
    ⊎ ((r.0 ≡ none) × ((y : ℕ) → from ≤ y → member s y ≡ false))

-- The same for the loop of the search, with its counter.
Scans : SetS → ℕ → ℕ → Option ℕ × ℕ → Type 0
Scans s from top r =
    ((x : ℕ) × ((r ≡ (some x, x + 1))
        × (from ≤ x)
        × (test s x ≡ true)
        × (x < top)
        × ((y : ℕ) → from ≤ y → y < x → test s y ≡ false)))
    ⊎ ((r.0 ≡ none) × ((y : ℕ) → from ≤ y → y < top → test s y ≡ false))

scan-Scans : (rounds : ℕ) (s : SetS) (from : ℕ) → Scans s from (from + rounds) (scan rounds s from)
unfolding scan Scans
scan-Scans zero s from = inr (refl, λ y l u. absurd (omega arith))
scan-Scans (suc rounds) s from =
    let ih = scan-Scans rounds s (from + 1) in
    elim (Bool-cases (test s from)) [
      | inl e ↦
          rw e (inl (from, (refl, omega arith, e, omega arith, λ y l u. absurd (omega arith))))
      | inr e ↦ rw e (later e ih)
    ]
  where
    first_too :
        test s from ≡ false
        → (top : ℕ) → ((y : ℕ) → from + 1 ≤ y → y < top → test s y ≡ false)
        → (y : ℕ) → from ≤ y
        → y < top
        → test s y ≡ false
    first_too e top h y l u = elim (Bool-cases (y == from)) [
      | inl q ↦ let same : y ≡ from = (==_iff y from).0 q in rw same e
      | inr q ↦ h y (ground (arith, q, l)) u
    ]

    later :
        test s from ≡ false
        → Scans s (from + 1) (from + 1 + rounds) (scan rounds s (from + 1))
        → Scans s from (from + suc rounds) (scan rounds s (from + 1))
    later e (inl (x, r)) =
        inl (x, (r.0, omega (arith, r.1), r.2, omega (arith, r.3), first_too e x r.4))
    later e (inr r) = inr (r.0, λ y l u. first_too e (from + 1 + rounds) r.1 y l (omega arith))

module _ (s : SetS) (v : IsValid s) (plain : s.compl ≡ 0) where
  found_from :
      (id from : ℕ) (r : Option ℕ × ℕ)
      → from ≤ s.nbits
      → Scans s from (from + (s.nbits - from)) r
      → Nexts s id from (r.0, inside id r.1)
  unfolding Scans
  found_from id from r l (inl (x, q)) = inl (
    x,
    (
      ap (λ (t : Option ℕ × ℕ). (t.0, inside id t.1)) q.0,
      q.1,
      sym (test_plain s v plain x) ∙ q.2,
      omega (arith, q.3),
      λ y h u. sym (test_plain s v plain y) ∙ q.4 y h u,
    ),
  )
  found_from id from r l (inr q) = inr (
    q.0,
    λ y h. elim (Bool-cases (ltb y s.nbits)) [
      | inl e ↦ let u = ltb→lt y s.nbits e in sym (test_plain s v plain y) ∙ q.1 y h (omega arith)
      | inr e ↦ member-past s y (ground (arith, e))
    ],
  )

  past_end :
      (id from : ℕ) (r : Option ℕ × ℕ)
      → s.nbits ≤ from
      → Scans s from (from + (s.nbits - from)) r
      → Nexts s id from (r.0, inside id r.1)
  unfolding Scans
  past_end id from r l (inl (x, q)) = absurd (omega (arith, q.1, q.3))
  past_end id from r l (inr q) = inr (q.0, λ y h. member-past s y (omega arith))

  pub next_inside : (id from : ℕ) → Nexts s id from (set_next_member (inside id from) id s)
  unfolding set_next_member
  next_inside id from =
      let c = scan-Scans (s.nbits - from) s from in
      rw (start_of-inside id from s) (elim (Bool-cases (leb from s.nbits)) [
        | inl e ↦ found_from id from (scan (s.nbits - from) s from) (leb→le from s.nbits e) c
        | inr e ↦ past_end id from (scan (s.nbits - from) s from) (ground (arith, e)) c
      ])

  -- In another set than the last one the search begins anew.
  pub next_other :
      (id : ℕ) (c : Cursor) → is_last c.last id ≡ false → Nexts s id 0 (set_next_member c id s)
  unfolding set_next_member start_of
  next_other id c other =
      let l = start_lem s v plain in
      let h =
        found_from id (start s v plain) (scan (s.nbits - start s v plain) s (start s v plain)) l.0
          (scan-Scans (s.nbits - start s v plain) s (start s v plain)) in
      rw other (from_start h)
    where
      below : (y : ℕ) → y < start s v plain → member s y ≡ false
      below y u = sym (test_plain s v plain y) ∙ (start_lem s v plain).1 y u

      from_start : {r : Option ℕ × Cursor} → Nexts s id (start s v plain) r → Nexts s id 0 r
      from_start (inl (x, q)) = inl (
        x,
        (
          q.0,
          omega arith,
          q.2,
          q.3,
          λ y h u. elim (Bool-cases (ltb y (start s v plain))) [
            | inl e ↦ below y (ltb→lt y _ e)
            | inr e ↦ q.4 y (ground (arith, e)) u
          ],
        ),
      )
      from_start (inr q) = inr (
        q.0,
        λ y h. elim (Bool-cases (ltb y (start s v plain))) [
          | inl e ↦ below y (ltb→lt y _ e)
          | inr e ↦ q.1 y (ground (arith, e))
        ],
      )
