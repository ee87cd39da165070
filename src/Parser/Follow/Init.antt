-- ===== src/Parser/Follow/Init.antt =====
-- What `init` of compiler/parser/llfollow.c puts into the FOLLOW sets.
use cgkits.Prelude.{
  ◌==◌, ==_iff, Bool-cases, ℕ, ◌≡◌, sym, ap, ◌∙◌, inl, inr, Bool, false, ◌&&◌, ◌||◌, List, [], ◌∷◌,
  arith,
}
use cgkits.Set.{SetS, add, member}
use cgkits.Set.Valid.{IsValid}
use cgkits.Set.Member.{add-IsValid, member-add}
use cgkits.Set.Ops.{union_op, set_op}
use cgkits.Parser.Grammar.{
  is_term, is_nonterm, is_act, Production, Symbol, Grammar, Sets, nullable, update,
}
use cgkits.Parser.First.Closure.{leads, AreValid, union-IsValid, member-union}
use cgkits.Parser.Follow.{eoi, after_loop, init_rhs, init_productions, init, init_pass}

-- What `init` adds to FOLLOW(v), for a right-hand side, for some of them, and for the symbols.
unfoldable pub adds : Grammar → Sets → List ℕ → ℕ → ℕ → Bool
adds g firsts [] v x = false
adds g firsts (y ∷ ys) v x =
    (is_nonterm y && (y == v && leads g firsts ys x)) || adds g firsts ys v x

unfoldable pub any_adds : Grammar → Sets → List Production → ℕ → ℕ → Bool
any_adds g firsts [] v x = false
any_adds g firsts (p ∷ ps) v x = adds g firsts p.rhs v x || any_adds g firsts ps v x

unfoldable pub symbol_adds : Grammar → Sets → ℕ → Symbol → ℕ → ℕ → Bool
symbol_adds g firsts goal s v x =
    is_nonterm s.val
    && ((s.val == goal && (goal == v && eoi == x)) || any_adds g firsts s.productions v x)

unfoldable pub all_adds : Grammar → Sets → ℕ → List Symbol → ℕ → ℕ → Bool
all_adds g firsts goal [] v x = false
all_adds g firsts goal (s ∷ ss) v x =
    symbol_adds g firsts goal s v x || all_adds g firsts goal ss v x

module _ (g : Grammar) (firsts : Sets) (valid : AreValid firsts) where
  after_loop-IsValid : (ys : List ℕ) (s : SetS) → IsValid s → IsValid (after_loop g firsts ys s)
  unfolding after_loop
  after_loop-IsValid [] s v = v
  after_loop-IsValid (y ∷ ys) s v =
      let t = add-IsValid s y v in
      let u = union-IsValid s (firsts y) v (valid y) in
      let w = after_loop-IsValid ys s v in
      let w_t = after_loop-IsValid ys (add s y) t in
      let w_u = after_loop-IsValid ys (set_op union_op s (firsts y)) u in
      elim (Bool-cases (is_act y)) [
        | inl a ↦ rw a w
        | inr a ↦ elim (Bool-cases (is_term y)) [
          | inl e ↦ elim (Bool-cases (nullable g firsts y)) [
            | inl n ↦ rw (a, e, n) w_t
            | inr n ↦ rw (a, e, n) t
          ]
          | inr e ↦ elim (Bool-cases (nullable g firsts y)) [
            | inl n ↦ rw (a, e, n) w_u
            | inr n ↦ rw (a, e, n) u
          ]
        ]
      ]

  member-after_loop :
      (ys : List ℕ) (s : SetS) (x : ℕ)
      → IsValid s
      → member (after_loop g firsts ys s) x ≡ (member s x || leads g firsts ys x)
  unfolding after_loop leads
  member-after_loop [] s x v = ground arith
  member-after_loop (y ∷ ys) s x v =
      let t = add-IsValid s y v in
      let u = union-IsValid s (firsts y) v (valid y) in
      ground (
        arith,
        member-after_loop ys s x v,
        member-after_loop ys (add s y) x t,
        member-after_loop ys (set_op union_op s (firsts y)) x u,
        member-add s y x v,
        member-union s (firsts y) x v (valid y),
      )

  -- Valid sets that hold, beside what was there, what a test says.
  abbrev pub Holds : Sets → (ℕ → ℕ → Bool) → Sets → Type 0
  Holds before added result =
      AreValid result × ((v x : ℕ) → member (result v) x ≡ (member (before v) x || added v x))

  then_holds :
      (f h k : Sets) (p q : ℕ → ℕ → Bool)
      → Holds f p h
      → Holds h q k
      → Holds f (λ v x. p v x || q v x) k
  then_holds f h k p q a b = (
    b.0,
    λ v x. b.1 v x ∙ (ap (λ m. m || q v x) (a.1 v x) ∙ assoc (member (f v) x) (p v x) (q v x)),
  )
    where
      assoc : (a b c : Bool) → ((a || b) || c) ≡ (a || (b || c))
      assoc a b c = ground arith

  update-Holds :
      (f : Sets) (y : ℕ) (s : SetS) (p : ℕ → Bool)
      → AreValid f
      → IsValid s
      → ((x : ℕ) → member s x ≡ (member (f y) x || p x))
      → Holds f (λ v x. y == v && p x) (update f y s)
  update-Holds f y s p a w h = (
    λ v. elim (Bool-cases (y == v)) [ inl e ↦ rw e w | inr e ↦ rw e (a v) ],
    λ v x. elim (Bool-cases (y == v)) [
      | inl e ↦ let same : y ≡ v = (==_iff y v).0 e in rw (e) (rw (sym same) (h x))
      | inr e ↦ rw e (ground arith)
    ],
  )

  same_added :
      (f r : Sets) (p q : ℕ → ℕ → Bool) → ((v x : ℕ) → p v x ≡ q v x) → Holds f p r → Holds f q r
  same_added f r p q e h = (h.0, λ v x. h.1 v x ∙ ap (λ b. member (f v) x || b) (e v x))

  nothing_added : (f : Sets) → AreValid f → Holds f (λ v x. false) f
  nothing_added f a = (a, λ v x. ground arith)

  init_rhs-Holds :
      (rhs : List ℕ) (f : Sets) → AreValid f → Holds f (adds g firsts rhs) (init_rhs g firsts rhs f)
  unfolding init_rhs adds
  init_rhs-Holds [] f a = nothing_added f a
  init_rhs-Holds (y ∷ ys) f a = elim (Bool-cases (is_nonterm y)) [
    | inl n ↦
        let h = update f y (after_loop g firsts ys (f y)) in
        let first_part =
          update-Holds f y (after_loop g firsts ys (f y)) (leads g firsts ys) a
            (after_loop-IsValid ys (f y) (a y)) (λ x. member-after_loop ys (f y) x (a y)) in
        let rest = init_rhs-Holds ys h first_part.0 in
        rw n (
          then_holds f h (init_rhs g firsts ys h) (λ v x. y == v && leads g firsts ys x)
            (adds g firsts ys) first_part rest)
    | inr n ↦ rw n (init_rhs-Holds ys f a)
  ]

  init_productions-Holds :
      (ps : List Production) (f : Sets)
      → AreValid f
      → Holds f (any_adds g firsts ps) (init_productions g firsts ps f)
  unfolding init_productions any_adds
  init_productions-Holds [] f a = nothing_added f a
  init_productions-Holds (p ∷ ps) f a =
      let one = init_rhs-Holds p.rhs f a in
      let h = init_rhs g firsts p.rhs f in
      then_holds f h (init_productions g firsts ps h) (adds g firsts p.rhs) (any_adds g firsts ps)
        one (init_productions-Holds ps h one.0)

  init-Holds :
      (goal : ℕ) (s : Symbol) (f : Sets)
      → AreValid f
      → Holds f (symbol_adds g firsts goal s) (init g firsts goal s f)
  unfolding init symbol_adds
  init-Holds goal s f a = elim (Bool-cases (is_nonterm s.val)) [
    | inr n ↦ rw n (nothing_added f a)
    | inl n ↦ elim (Bool-cases (s.val == goal)) [
      | inr e ↦ rw (n, e) (init_productions-Holds s.productions f a)
      | inl e ↦
          let h = update f goal (add (f goal) eoi) in
          let one =
            update-Holds f goal (add (f goal) eoi) (λ x. eoi == x) a
              (add-IsValid (f goal) eoi (a goal)) (λ x. marked x) in
          rw (n, e)
            (then_holds f h (init_productions g firsts s.productions h)
              (λ v x. goal == v && eoi == x) (any_adds g firsts s.productions) one
              (init_productions-Holds s.productions h one.0))
    ]
  ]
    where
      marked : (x : ℕ) → member (add (f goal) eoi) x ≡ (member (f goal) x || eoi == x)
      marked x = member-add (f goal) eoi x (a goal) ∙ swap (eoi == x) (member (f goal) x)
        where
          swap : (b c : Bool) → (b || c) ≡ (c || b)
          swap b c = ground arith

  pub init_pass-Holds :
      (goal : ℕ) (ss : List Symbol) (f : Sets)
      → AreValid f
      → Holds f (all_adds g firsts goal ss) (init_pass g firsts goal ss f)
  unfolding init_pass all_adds
  init_pass-Holds goal [] f a = nothing_added f a
  init_pass-Holds goal (s ∷ ss) f a =
      let one = init-Holds goal s f a in
      let h = init g firsts goal s f in
      then_holds f h (init_pass g firsts goal ss h) (symbol_adds g firsts goal s)
        (all_adds g firsts goal ss) one (init_pass-Holds goal ss h one.0)
