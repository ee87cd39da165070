-- ===== src/Lex/MinDfa/Split.antt =====
-- One group of `minimize` in compiler/lex/mindfa.c: the loop that moves states to a new group.
use mathlib.Core.Path.{subst}
use cgkits.Prelude.{
  ltb, ◌==◌, if◌then◌else◌, ltb→lt, ==_iff, Bool-cases, ℕ, zero, suc, ◌+◌, ◌-◌, ◌≤◌, ◌<◌, ◌≡◌, refl,
  sym, ◌∙◌, inl, inr, Bool, true, false, not, ◌&&◌, ◌||◌, Option, none, some, List, arith,
}
use cgkits.Set.{add, remove, member}
use cgkits.Set.Valid.{IsValid}
use cgkits.Set.Member.{add-IsValid, member-add, remove-IsValid, member-remove, compl-add}
use cgkits.Set.Frame.{frame-remove}
use cgkits.Set.Cursor.{Cursor, set_next_member}
use cgkits.Set.Cursor.Enumerate.{inside}
use cgkits.Set.Cursor.Next.{Nexts, next_inside}
use cgkits.Lex.Dfa.{max_chars, Row}
use cgkits.Lex.MinDfa.{assign, goto_at, apart, splits, Splitting, split_one, split_loop}

-- The group of the next state, which the refined groups must agree on.
unfoldable pub moves : (ℕ → ℕ) → Option ℕ → Option ℕ
moves ingroup none = none
moves ingroup (some t) = some (ingroup t)

apart-moves :
    (ingroup : ℕ → ℕ) (a b : Option ℕ)
    → apart ingroup a b ≡ false
    → moves ingroup a ≡ moves ingroup b
unfolding moves
apart-moves ingroup none none e = refl
apart-moves ingroup none (some b) e = absurd cc
apart-moves ingroup (some a) none e = absurd cc
apart-moves ingroup (some a) (some b) e = ground (arith, e)

apart-ext : (p q : ℕ → ℕ) → ((x : ℕ) → p x ≡ q x) → (a b : Option ℕ) → apart p a b ≡ apart q a b
apart-ext p q h none none = refl
apart-ext p q h none (some b) = refl
apart-ext p q h (some a) none = refl
apart-ext p q h (some a) (some b) = ground (arith, h a, h b)

apart_self : (ingroup : ℕ → ℕ) (a : Option ℕ) → apart ingroup a a ≡ false
apart_self ingroup none = refl
apart_self ingroup (some a) = ground arith

pub splits-ext :
    (dtran : List Row) (p q : ℕ → ℕ) (first next n : ℕ)
    → ((x : ℕ) → p x ≡ q x)
    → splits dtran p first next n ≡ splits dtran q first next n
unfolding splits
splits-ext dtran p q first next zero h = refl
splits-ext dtran p q first next (suc c) h = ground (
  arith,
  apart-ext p q h (goto_at dtran first c) (goto_at dtran next c),
  splits-ext dtran p q first next c h,
)

pub splits_self :
    (dtran : List Row) (p : ℕ → ℕ) (first n : ℕ) → splits dtran p first first n ≡ false
unfolding splits
splits_self dtran p first zero = refl
splits_self dtran p first (suc c) =
    ground (arith, apart_self p (goto_at dtran first c), splits_self dtran p first c)

-- A state that is not split from `first` goes to the same groups on all characters.
pub splits-moves :
    (dtran : List Row) (p : ℕ → ℕ) (first next n c : ℕ)
    → splits dtran p first next n ≡ false
    → c < n
    → moves p (goto_at dtran first c) ≡ moves p (goto_at dtran next c)
unfolding splits
splits-moves dtran p first next zero c e l = absurd (omega arith)
splits-moves dtran p first next (suc n) c e l =
    elim (Bool-cases (apart p (goto_at dtran first n) (goto_at dtran next n))) [
      | inl a ↦ absurd (no_path (sym (rw a at e)))
      | inr a ↦ elim (Bool-cases (c == n)) [
        | inl q ↦ let same : c ≡ n = (==_iff c n).0 q in rw same (apart-moves p _ _ a)
        | inr q ↦ splits-moves dtran p first next n c (rw a at e) (ground (arith, q, l))
      ]
    ]
  where
    no_path : false ≡ true → ⊥
    no_path e = cc

module _ (dtran : List Row) (id ng first nbits : ℕ) (old : ℕ → ℕ) (S : ℕ → Bool) where
  -- The loop when it has come to the element `p`: the states of the group are in the one set or
  -- the other, those in the new set are in the new group, and as long as there are none, no state
  -- so far differs from `first`.
  pub record IsSplit (p : ℕ) (st : Splitting) : Type 0 where
    pub current_valid : IsValid st.current
    pub current_plain : st.current.compl ≡ 0
    pub new_valid : IsValid st.new
    pub new_plain : st.new.compl ≡ 0
    pub size : st.current.nbits ≡ nbits
    pub parts : (x : ℕ) → S x ≡ (member st.current x || member st.new x)
    pub disjoint : (x : ℕ) → member st.new x ≡ true → member st.current x ≡ false
    pub kept_first : member st.new first ≡ false
    pub groups : (x : ℕ) → st.ingroup x ≡ (if member st.new x then ng else old x)
    pub idle :
        ((x : ℕ) → member st.new x ≡ false)
        → (x : ℕ) → S x ≡ true
        → x < p
        → splits dtran old first x max_chars ≡ false

  -- The element `x` is the next one of the set.
  module _ (p x : ℕ) (st : Splitting) (h : IsSplit p st) (in_set : member st.current x ≡ true)
      (gap : (y : ℕ) → p ≤ y → y < x → member st.current y ≡ false) where
    taken : Splitting
    taken = record st {
      current = remove st.current x;
      new = add st.new x;
      ingroup = assign st.ingroup x ng;
    }

    member-taken :
        (y : ℕ)
        → (member taken.current y ≡ (not (x == y) && member st.current y))
          × (member taken.new y ≡ (x == y || member st.new y))
    unfolding taken
    member-taken y =
        (member-remove st.current x y h.current_valid, member-add st.new x y h.new_valid)

    taken-IsSplit : splits dtran st.ingroup first x max_chars ≡ true → IsSplit (x + 1) taken
    taken-IsSplit differ = record {
      current_valid = unfold taken in remove-IsValid st.current x h.current_valid;
      current_plain = unfold taken in ((frame-remove st.current x).1 ∙ h.current_plain);
      new_valid = unfold taken in add-IsValid st.new x h.new_valid;
      new_plain = unfold taken in (compl-add st.new x ∙ h.new_plain);
      size = unfold taken in ((frame-remove st.current x).0 ∙ h.size);
      parts = λ y. ground (arith, member-taken y, h.parts y, in_set);
      disjoint = λ y m. ground (arith, member-taken y, h.disjoint y, m);
      kept_first = ground (arith, member-taken first, h.kept_first, differs);
      groups = λ y. unfold taken in ground (arith, member-taken y, h.groups y);
      idle = λ empty. absurd (ground (arith, member-taken x, empty x));
    }
      where
        differs : (x == first) ≡ false
        differs = elim (Bool-cases (x == first)) [
          | inr e ↦ e
          | inl e ↦
              let same : x ≡ first = (==_iff x first).0 e in
              absurd (clash (splits_self dtran st.ingroup first max_chars) (rw same at differ))
        ]
          where
            clash : {b : Bool} → b ≡ false → b ≡ true → ⊥
            clash e e' = cc

    passed-IsSplit : splits dtran st.ingroup first x max_chars ≡ false → IsSplit (x + 1) st
    passed-IsSplit alike = record {
      current_valid = h.current_valid;
      current_plain = h.current_plain;
      new_valid = h.new_valid;
      new_plain = h.new_plain;
      size = h.size;
      parts = h.parts;
      disjoint = h.disjoint;
      kept_first = h.kept_first;
      groups = h.groups;
      idle = λ empty y s l. elim (Bool-cases (y == x)) [
        | inl e ↦
            let same : y ≡ x = (==_iff y x).0 e in
            rw same (splits-ext dtran old st.ingroup first x max_chars (unchanged empty) ∙ alike)
        | inr e ↦ elim (Bool-cases (ltb y p)) [
          | inl b ↦ h.idle empty y s (ltb→lt y p b)
          | inr b ↦ absurd (
              ground
                (arith, h.parts y, empty y, s, gap y (ground (arith, b)) (ground (arith, e, l))))
        ]
      ];
    }
      where
        unchanged : ((y : ℕ) → member st.new y ≡ false) → (y : ℕ) → old y ≡ st.ingroup y
        unchanged empty y = ground (arith, h.groups y, empty y)

    one-IsSplit : IsSplit (x + 1) (split_one dtran ng first x st)
    unfolding split_one taken
    one-IsSplit = elim (Bool-cases (splits dtran st.ingroup first x max_chars)) [
      | inl e ↦ rw e (taken-IsSplit e)
      | inr e ↦ rw e (passed-IsSplit e)
    ]

  cursor-IsSplit :
      (p : ℕ) (st : Splitting) (c : Cursor) → IsSplit p st → IsSplit p (record st { cursor = c })
  cursor-IsSplit p st c h = record {
    current_valid = h.current_valid;
    current_plain = h.current_plain;
    new_valid = h.new_valid;
    new_plain = h.new_plain;
    size = h.size;
    parts = h.parts;
    disjoint = h.disjoint;
    kept_first = h.kept_first;
    groups = h.groups;
    idle = h.idle;
  }

  cursor-split_one : (x : ℕ) (st : Splitting) → (split_one dtran ng first x st).cursor ≡ st.cursor
  unfolding split_one
  cursor-split_one x st = elim (Bool-cases (splits dtran st.ingroup first x max_chars)) [
    | inl e ↦ rw e refl
    | inr e ↦ rw e refl
  ]

  -- What a round does with the result of `set_next_member`.
  next_round : ℕ → Splitting → Option ℕ × Cursor → Splitting
  next_round fuel st r = elim r.0 [
    | none ↦ record st { cursor = r.1 }
    | some next ↦
        split_loop dtran id ng first fuel
          (split_one dtran ng first next (record st { cursor = r.1 }))
  ]

  split_loop-suc :
      (fuel : ℕ) (st : Splitting)
      → split_loop dtran id ng first (suc fuel) st
        ≡ next_round fuel st (set_next_member st.cursor id st.current)
  unfolding split_loop next_round
  split_loop-suc fuel st = refl

  -- The invariant at an element past which nothing of the set is left.
  abbrev pub IsDone : Splitting → Type 0
  IsDone st = (q : ℕ) × (IsSplit q st × ((y : ℕ) → q ≤ y → member st.current y ≡ false))

  -- The loop goes through the whole group.
  pub split_loop-IsDone :
      (fuel p : ℕ) (st : Splitting)
      → st.cursor ≡ inside id p
      → IsSplit p st
      → nbits - p < fuel
      → IsDone (split_loop dtran id ng first fuel st)
  unfolding next_round
  split_loop-IsDone zero p st here h l = absurd (omega arith)
  split_loop-IsDone (suc fuel) p st here h l =
      rw (split_loop-suc fuel st, here)
        (round (set_next_member (inside id p) id st.current)
          (next_inside st.current h.current_valid h.current_plain id p) (split_loop-IsDone fuel))
    where
      round :
          (r : Option ℕ × Cursor)
          → Nexts st.current id p r
          → ((p' : ℕ) (st' : Splitting)
              → st'.cursor ≡ inside id p'
              → IsSplit p' st'
              → nbits - p' < fuel
              → IsDone (split_loop dtran id ng first fuel st'))
          → IsDone (next_round fuel st r)
      round r (inr e) ih = rw e.0 (p, (cursor-IsSplit p st r.1 h, e.1))
      round r (inl (x, e)) ih =
          let m = record st { cursor = inside id (x + 1) } in
          subst (λ s. IsDone (next_round fuel st s)) (sym e.0)
            (ih (x + 1) (split_one dtran ng first x m) (cursor-split_one x m)
              (one-IsSplit p x m (cursor-IsSplit p st (inside id (x + 1)) h) e.2 e.4)
              (omega (arith, l, e.1, e.3, h.size)))
