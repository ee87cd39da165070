-- ===== src/Parser/First/Closure.antt =====
-- What one call of `first_closure` adds.
use cgkits.Prelude.{
  ◌==◌, if◌then◌else◌, Bool-cases, set, ℕ, ◌≡◌, refl, ◌≢◌, inl, inr, Bool, true, false, ◌&&◌, ◌||◌,
  List, [], ◌∷◌, arith,
}
use cgkits.Set.{SetS, add, member}
use cgkits.Set.Valid.{IsValid}
use cgkits.Set.Member.{add-IsValid, member-add}
use cgkits.Set.Ops.{union_op, assign_op, set_op}
use cgkits.Set.Ops.Binary.{member-set_op}
use cgkits.Parser.Grammar.{is_term, is_act, Production, Grammar, Sets, epsilon, nullable}
use cgkits.Parser.First.{first_loop, first_rhs, close_production, close_productions}

-- Whether the FIRST sets so far put `x` into those of a string that begins with `ys`.
unfoldable pub leads : Grammar → Sets → List ℕ → ℕ → Bool
leads g firsts [] x = false
leads g firsts (y ∷ ys) x =
    let rest = leads g firsts ys x in
    if is_act y
    then rest
    else if is_term y
    then y == x
    else (member (firsts y) x || (nullable g firsts y && rest))

unfoldable pub produces : Grammar → Sets → Production → ℕ → Bool
unfolding leads
produces g firsts p x = if p.non_acts == 0 then epsilon g == x else leads g firsts p.rhs x

unfoldable pub any_produces : Grammar → Sets → List Production → ℕ → Bool
unfolding produces
any_produces g firsts [] x = false
any_produces g firsts (p ∷ ps) x = produces g firsts p x || any_produces g firsts ps x

-- Whether a string consists of actions and nullable nonterminals.
unfoldable pub all_vanish : Grammar → Sets → List ℕ → Bool
all_vanish g firsts [] = true
all_vanish g firsts (y ∷ ys) = (is_act y || nullable g firsts y) && all_vanish g firsts ys

-- Every set of a map is valid.
abbrev pub AreValid : Sets → Type 0
AreValid sets = (v : ℕ) → IsValid (sets v)

pub union-IsValid : (d s : SetS) → IsValid d → IsValid s → IsValid (set_op union_op d s)
union-IsValid d s v w = (member-set_op union_op d s 0 v w).0

pub member-union :
    (d s : SetS) (x : ℕ)
    → IsValid d
    → IsValid s
    → member (set_op union_op d s) x ≡ (member d x || member s x)
member-union d s x v w = (member-set_op union_op d s x v w).1

pub assign-IsValid : (d s : SetS) → IsValid d → IsValid s → IsValid (set_op assign_op d s)
assign-IsValid d s v w = (member-set_op assign_op d s 0 v w).0

pub member-assign :
    (d s : SetS) (x : ℕ) → IsValid d → IsValid s → member (set_op assign_op d s) x ≡ member s x
member-assign d s x v w = (member-set_op assign_op d s x v w).1

module _ (g : Grammar) (firsts : Sets) (valid : AreValid firsts) where
  first_loop-IsValid :
      (ys : List ℕ) (dest : SetS) → IsValid dest → IsValid (first_loop g firsts ys dest).1
  unfolding first_loop
  first_loop-IsValid [] dest v = v
  first_loop-IsValid (y ∷ ys) dest v =
      let t = add-IsValid dest y v in
      let u = union-IsValid dest (firsts y) v (valid y) in
      let kept = first_loop-IsValid ys dest v in
      let grown_t = first_loop-IsValid ys (add dest y) t in
      let grown_u = first_loop-IsValid ys (set_op union_op dest (firsts y)) u in
      elim (Bool-cases (is_act y)) [
        | inl a ↦ rw a kept
        | inr a ↦ elim (Bool-cases (is_term y)) [
          | inl e ↦ elim (Bool-cases (nullable g firsts y)) [
            | inl n ↦ rw (a, e, n) grown_t
            | inr n ↦ rw (a, e, n) t
          ]
          | inr e ↦ elim (Bool-cases (nullable g firsts y)) [
            | inl n ↦ rw (a, e, n) grown_u
            | inr n ↦ rw (a, e, n) u
          ]
        ]
      ]

  pub member-first_loop :
      (ys : List ℕ) (dest : SetS) (x : ℕ)
      → IsValid dest
      → member (first_loop g firsts ys dest).1 x ≡ (member dest x || leads g firsts ys x)
  unfolding first_loop leads
  member-first_loop [] dest x v = ground arith
  member-first_loop (y ∷ ys) dest x v =
      let t = add-IsValid dest y v in
      let u = union-IsValid dest (firsts y) v (valid y) in
      ground (
        arith,
        member-first_loop ys dest x v,
        member-first_loop ys (add dest y) x t,
        member-first_loop ys (set_op union_op dest (firsts y)) x u,
        member-add dest y x v,
        member-union dest (firsts y) x v (valid y),
      )

  first_loop-flag :
      (ys : List ℕ) (dest : SetS) → (first_loop g firsts ys dest).0 ≡ all_vanish g firsts ys
  unfolding first_loop all_vanish
  first_loop-flag [] dest = refl
  first_loop-flag (y ∷ ys) dest = ground (
    arith,
    first_loop-flag ys dest,
    first_loop-flag ys (add dest y),
    first_loop-flag ys (set_op union_op dest (firsts y)),
  )

  -- `first_rhs` fills in what the string leads to, EPSILON for an empty one, and says whether all
  -- of it may vanish.
  pub first_rhs_lem :
      (ys : List ℕ) (dest : SetS) (x : ℕ)
      → IsValid dest
      → IsValid (first_rhs g firsts dest ys).1
        × ((first_rhs g firsts dest ys).0 ≡ all_vanish g firsts ys)
        × (x ≢ epsilon g
            → member (first_rhs g firsts dest ys).1 x ≡ (member dest x || leads g firsts ys x))
  unfolding first_rhs all_vanish leads
  first_rhs_lem [] dest x v = (
    add-IsValid dest (epsilon g) v,
    refl,
    λ n. ground (arith, member-add dest (epsilon g) x v, n),
  )
  first_rhs_lem (y ∷ ys) dest x v = (
    first_loop-IsValid (y ∷ ys) dest v,
    first_loop-flag (y ∷ ys) dest,
    λ n. member-first_loop (y ∷ ys) dest x v,
  )

  close_production-IsValid :
      (p : Production) (set : SetS) → IsValid set → IsValid (close_production g firsts p set)
  unfolding close_production
  close_production-IsValid p set v =
      let t = add-IsValid set (epsilon g) v in
      let u = first_loop-IsValid p.rhs set v in
      elim (Bool-cases (p.non_acts == 0)) [ inl e ↦ rw e t | inr e ↦ rw e u ]

  member-close_production :
      (p : Production) (set : SetS) (x : ℕ)
      → IsValid set
      → member (close_production g firsts p set) x ≡ (member set x || produces g firsts p x)
  unfolding close_production produces
  member-close_production p set x v =
      ground (arith, member-first_loop p.rhs set x v, member-add set (epsilon g) x v)

  pub close_productions-IsValid :
      (ps : List Production) (set : SetS)
      → IsValid set
      → IsValid (close_productions g firsts ps set)
  unfolding close_productions
  close_productions-IsValid [] set v = v
  close_productions-IsValid (p ∷ ps) set v =
      close_productions-IsValid ps (close_production g firsts p set)
        (close_production-IsValid p set v)

  pub member-close_productions :
      (ps : List Production) (set : SetS) (x : ℕ)
      → IsValid set
      → member (close_productions g firsts ps set) x ≡ (member set x || any_produces g firsts ps x)
  unfolding close_productions any_produces
  member-close_productions [] set x v = ground arith
  member-close_productions (p ∷ ps) set x v = ground (
    arith,
    member-close_production p set x v,
    member-close_productions ps (close_production g firsts p set) x
        (close_production-IsValid p set v),
  )
