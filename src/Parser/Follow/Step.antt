-- ===== src/Parser/Follow/Step.antt =====
-- One symbol of a right-hand side in `follow_closure`, and the right-hand sides of one symbol.
use mathlib.Core.List.{Memᴰ}
use mathlib.Core.Path.{subst}
use cgkits.Prelude.{
  ◌==◌, ==_iff, Bool-cases, ℕ, ◌<◌, ◌≡◌, refl, sym, ap, ◌∙◌, ◌⊎◌, inl, inr, Bool, true, false, not,
  ◌&&◌, ◌||◌, List, [], ◌∷◌, arith,
}
use cgkits.Set.{SetS, member}
use cgkits.Set.Valid.{IsValid}
use cgkits.Set.Ops.{union_op, set_op, set_subset}
use cgkits.Set.Ops.Subset.{set_subset_iff}
use cgkits.Parser.Grammar.{is_term, is_act, Symbol, Grammar, Sets, update}
use cgkits.Parser.First.Closure.{all_vanish, AreValid, union-IsValid, member-union}
use cgkits.Parser.First.Missing.{missing, missing-grows}
use cgkits.Parser.Follow.{Follows, close_symbol}

abbrev pub is_plain : ℕ → Bool
is_plain x = not (is_act x || is_term x)

-- The nonterminals of a right-hand side after which everything may vanish.
unfoldable pub links : Grammar → Sets → List ℕ → ℕ → Bool
links g firsts [] y = false
links g firsts (x ∷ xs) y =
    (is_plain x && (x == y && all_vanish g firsts xs)) || links g firsts xs y

-- The sets are valid, hold values of tokens, and hold only what `P` allows.
pub record Keeps (P : ℕ → ℕ → Type 0) (f : Follows) : Type 0 where
  pub valid : AreValid f.follows
  pub small : (v x : ℕ) → member (f.follows v) x ≡ true → x < 256
  pub derived : (v x : ℕ) → member (f.follows v) x ≡ true → P v x

-- Nothing changed, since FOLLOW(y) holds FOLLOW(v) already wherever `L v y`.
pub record Still (L : ℕ → ℕ → Type 0) (f f' : Follows) : Type 0 where
  pub same : f'.follows ≡ f.follows
  pub flag : f'.did_something ≡ f.did_something
  pub closed : (v y x : ℕ) → L v y → member (f.follows v) x ≡ true → member (f.follows y) x ≡ true

pub record Moved (g : Grammar) (f f' : Follows) : Type 0 where
  pub flag : f'.did_something ≡ true
  pub less : missing g f'.follows < missing g f.follows
  pub grows : (v x : ℕ) → member (f.follows v) x ≡ true → member (f'.follows v) x ≡ true

-- Steps in sequence.
abbrev pub Step : Grammar → (ℕ → ℕ → Type 0) → Follows → Follows → Type 0
Step g L f f' = Still L f f' ⊎ Moved g f f'

pub then-Step :
    (g : Grammar) (L M N : ℕ → ℕ → Type 0) (f m l : Follows)
    → ((v y : ℕ) → N v y → L v y ⊎ M v y)
    → Step g L f m
    → Step g M m l
    → Step g N f l
then-Step g L M N f m l names (inl a) (inl b) = inl (record {
  same = b.same ∙ a.same;
  flag = b.flag ∙ a.flag;
  closed = λ v y x n i. elim (names v y n) [
    | inl j ↦ a.closed v y x j i
    | inr j ↦ (rw a.same at b.closed) v y x j i
  ];
})
then-Step g L M N f m l names (inl a) (inr q) =
    inr (record { flag = q.flag; less = rw (sym a.same) q.less; grows = rw (sym a.same) q.grows })
then-Step g L M N f m l names (inr p) (inl b) =
    inr (record { flag = b.flag ∙ p.flag; less = rw b.same p.less; grows = rw b.same p.grows })
then-Step g L M N f m l names (inr p) (inr q) = inr (record {
  flag = q.flag;
  less = omega (arith, p.less, q.less);
  grows = λ v x i. q.grows v x (p.grows v x i);
})

-- A step that was for the pairs of `L` is one for those of `N`, which are among them.
pub fewer_names :
    (g : Grammar) (L N : ℕ → ℕ → Type 0) (f m : Follows)
    → ((v y : ℕ) → N v y → L v y)
    → Step g L f m
    → Step g N f m
fewer_names g L N f m names (inl a) =
    inl (record { same = a.same; flag = a.flag; closed = λ v y x n. a.closed v y x (names v y n) })
fewer_names g L N f m names (inr p) = inr p

pub no-Step :
    (g : Grammar) (L : ℕ → ℕ → Type 0) (f : Follows) → ((v y : ℕ) → L v y → ⊥) → Step g L f f
no-Step g L f never =
    inl (record { same = refl; flag = refl; closed = λ v y x i. absurd (never v y i) })

module _ (g : Grammar) (P : ℕ → ℕ → Type 0) (lhs : ℕ) where
  -- The symbol `x` may take over FOLLOW(lhs), and is in the table.
  abbrev pub MayTake : ℕ → Type 0
  MayTake x =
      is_plain x ≡ true
      → ((t : Symbol) × (Memᴰ t g.symtab × (t.val ≡ x))) × ((z : ℕ) → P lhs z → P x z)

  module _ (x : ℕ) (f : Follows) (k : Keeps P f) (may : MayTake x) (plain : is_plain x ≡ true) where
    taken : Follows
    taken = record {
      follows = update f.follows x (set_op union_op (f.follows x) (f.follows lhs));
      did_something = true;
    }

    joined-IsValid : IsValid (set_op union_op (f.follows x) (f.follows lhs))
    joined-IsValid = union-IsValid (f.follows x) (f.follows lhs) (k.valid x) (k.valid lhs)

    joined_cases :
        (z : ℕ)
        → member (set_op union_op (f.follows x) (f.follows lhs)) z ≡ true
        → (member (f.follows x) z ≡ true) ⊎ (member (f.follows lhs) z ≡ true)
    joined_cases z m =
        or_cases (sym (member-union (f.follows x) (f.follows lhs) z (k.valid x) (k.valid lhs)) ∙ m)
      where
        or_cases : {a b : Bool} → (a || b) ≡ true → (a ≡ true) ⊎ (b ≡ true)
        or_cases {a = true} e = inl refl
        or_cases {a = false} e = inr e

    -- What holds of the union and of all other sets holds of the sets afterwards.
    taken_all :
        (Q : ℕ → SetS → Type 0)
        → Q x (set_op union_op (f.follows x) (f.follows lhs))
        → ((v : ℕ) → Q v (f.follows v))
        → (v : ℕ) → Q v (taken.follows v)
    unfolding taken
    taken_all Q q all v = elim (Bool-cases (x == v)) [
      | inr e ↦ rw e (all v)
      | inl e ↦
          let same : x ≡ v = (==_iff x v).0 e in
          rw e (subst (λ w. Q w (set_op union_op (f.follows x) (f.follows lhs))) same q)
    ]

    taken-Keeps : Keeps P taken
    taken-Keeps = record {
      valid = taken_all (λ v s. IsValid s) joined-IsValid k.valid;
      small =
          taken_all (λ v s. (z : ℕ) → member s z ≡ true → z < 256)
            (λ z m. elim (joined_cases z m) [ inl a ↦ k.small x z a | inr a ↦ k.small lhs z a ])
            k.small;
      derived =
          taken_all (λ v s. (z : ℕ) → member s z ≡ true → P v z)
            (λ z m. elim (joined_cases z m) [
              | inl a ↦ k.derived x z a
              | inr a ↦ (may plain).1 z (k.derived lhs z a)
            ])
            k.derived;
    }

    taken_grows : (v z : ℕ) → member (f.follows v) z ≡ true → member (taken.follows v) z ≡ true
    taken_grows =
        taken_all (λ v s. (z : ℕ) → member (f.follows v) z ≡ true → member s z ≡ true)
          (λ z m.
            member-union (f.follows x) (f.follows lhs) z (k.valid x) (k.valid lhs) ∙ or_left _ m)
          (λ v z m. m)
      where
        or_left : {a : Bool} (b : Bool) → a ≡ true → (a || b) ≡ true
        or_left {a = true} b e = refl
        or_left {a = false} b e = absurd cc

    -- If the set of `x` stayed as it was, FOLLOW(lhs) would have been in it.
    taken_differs :
        set_subset (f.follows x) (f.follows lhs) ≡ false
        → ((z : ℕ) → member (taken.follows x) z ≡ member (f.follows x) z)
        → ⊥
    unfolding taken
    taken_differs not_yet all = no_path (
        sym not_yet
        ∙ (set_subset_iff (f.follows x) (f.follows lhs) (k.valid x) (k.valid lhs)).1
            (λ z m. sym (all z) ∙ here z (or_right (member (f.follows x) z) m)))
      where
        no_path : false ≡ true → ⊥
        no_path e = cc

        or_right : (a : Bool) {b : Bool} → b ≡ true → (a || b) ≡ true
        or_right true e = refl
        or_right false e = e

        here :
            (z : ℕ)
            → (member (f.follows x) z || member (f.follows lhs) z) ≡ true
            → member (taken.follows x) z ≡ true
        here z m =
            let e : (x == x) ≡ true = (==_iff x x).1 refl in
            rw e (member-union (f.follows x) (f.follows lhs) z (k.valid x) (k.valid lhs) ∙ m)

    taken-Moved : set_subset (f.follows x) (f.follows lhs) ≡ false → Moved g f taken
    taken-Moved not_yet =
        let table = (may plain).0 in
        let t = table.0 in
        let same : t.val ≡ x = table.1.1 in
        record {
          flag = unfold taken in refl;
          grows = taken_grows;
          less =
              missing-grows g f.follows taken.follows t table.1.0 taken_grows
                (taken-Keeps.small t.val) (λ all. taken_differs not_yet (rw same at all));
        }

  pub close_symbol_cases :
      (x : ℕ) (f : Follows)
      → Keeps P f
      → MayTake x
      → Keeps P (close_symbol lhs x f)
        × Step g (λ v y. (lhs ≡ v) × (is_plain x ≡ true) × (x ≡ y)) f (close_symbol lhs x f)
  unfolding close_symbol taken
  close_symbol_cases x f k may = elim (Bool-cases (is_act x || is_term x)) [
    | inl e ↦
        rw e
          (k, inl (record { same = refl; flag = refl; closed = λ v y z l m. absurd (no_path l.1) }))
    | inr e ↦ elim (Bool-cases (set_subset (f.follows x) (f.follows lhs))) [
      | inl q ↦
          rw (e, q)
            (
              k,
              inl (record {
                same = refl;
                flag = refl;
                closed = λ v y z l m. rw (sym l.2) (
                    (set_subset_iff (f.follows x) (f.follows lhs) (k.valid x) (k.valid lhs)).0 q z
                      (rw l.0 m));
              }),
            )
      | inr q ↦
          let plain : is_plain x ≡ true = ap not e in
          rw (e, q) (taken-Keeps x f k may plain, inr (taken-Moved x f k may plain q))
    ]
  ]
    where
      no_path : false ≡ true → ⊥
      no_path e = cc
