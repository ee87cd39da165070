-- ===== src/Lex/MinDfa/Language.antt =====
-- The DFA that compiler/lex/mindfa.c makes does on every text what the given one does.
use mathlib.Core.Path.{subst}
use mathlib.Core.Option
use cgkits.Prelude.{
  ◌==◌, ==_iff, Bool-cases, length, length-append, get_or, get_or-append_left, get_or-append_last,
  ℕ, zero, suc, ◌+◌, ◌≤◌, ◌<◌, ◌≡◌, refl, sym, ap, ◌∙◌, inl, inr, true, false, Option, none, some,
  List, [], ◌∷◌, ◌++◌, arith,
}
use cgkits.Set.{SetS, member}
use cgkits.Set.Valid.{IsValid}
use cgkits.Set.Cursor.{Cursor, reset, is_last, set_next_member}
use cgkits.Set.Cursor.Enumerate.{inside}
use cgkits.Set.Cursor.Next.{Nexts, next_other}
use cgkits.Lex.Dfa.{max_chars, Row}
use cgkits.Lex.Dfa.Texts.{AreChars}
use cgkits.Lex.Dfa.Language.{table_run}
use cgkits.Lex.MinDfa.{
  Groups, group_at, Accept, string_of, init_groups, goto_at, fixed_row, fix_loop, fix_dtran,
  minimize,
}
use cgkits.Lex.MinDfa.Partition.{IsPartition, init_groups-IsPartition}
use cgkits.Lex.MinDfa.Split.{moves}
use cgkits.Lex.MinDfa.Refine.{partition-small, IsStable, refine-IsStable}

-- A new row has the groups of the old row's states.
length-fixed_row : (p : ℕ → ℕ) (row : Row) (n : ℕ) → length (fixed_row p row n) ≡ n
unfolding fixed_row
length-fixed_row p row zero = refl
length-fixed_row p row (suc n) =
    let ih = length-fixed_row p row n in omega (arith, length-append (fixed_row p row n) _, ih)

moves-elim : (p : ℕ → ℕ) (a : Option ℕ) → elim a [ none ↦ none | some t ↦ some (p t) ] ≡ moves p a
unfolding moves
moves-elim p none = refl
moves-elim p (some t) = refl

get_or-fixed_row :
    (p : ℕ → ℕ) (row : Row) (n c : ℕ)
    → c < n
    → get_or (fixed_row p row n) c none ≡ moves p (get_or row c none)
unfolding fixed_row
get_or-fixed_row p row zero c l = absurd (omega arith)
get_or-fixed_row p row (suc n) c l =
    let len = length-fixed_row p row n in
    elim (Bool-cases (c == n)) [
      | inl e ↦
          let same : n ≡ c = sym ((==_iff c n).0 e) in
          let new : Option ℕ = elim (get_or row n none) [ none ↦ none | some t ↦ some (p t) ] in
          let last : get_or (fixed_row p row n ++ new ∷ []) n none ≡ new =
            subst (λ m. get_or (fixed_row p row n ++ new ∷ []) m none ≡ new) len
              (get_or-append_last (fixed_row p row n) new none) in
          subst (λ m. get_or (fixed_row p row n ++ new ∷ []) m none ≡ moves p (get_or row m none))
            same (last ∙ moves-elim p (get_or row n none))
      | inr e ↦
          let small : c < n = ground (arith, e, l) in
          get_or-append_left (fixed_row p row n) _ c none (rw len small)
          ∙ get_or-fixed_row p row n c small
    ]

-- A group whose first element can be found.
abbrev IsFull : SetS → Type 0
IsFull g = IsValid g × (g.compl ≡ 0) × ((x : ℕ) × (member g x ≡ true))

module _ (dtran : List Row) (accept : List Accept) (p : ℕ → ℕ) where
  -- The new row `i` and its string are those of some state of group `i`.
  pub record IsPick (gs : List SetS) (i : ℕ) (r : List Row × List Accept) : Type 0 where
    pub state : ℕ
    pub in_group : member (group_at gs i) state ≡ true
    pub row : get_or r.0 i [] ≡ fixed_row p (get_or dtran state []) max_chars
    pub label : get_or r.1 i (none, 0) ≡ get_or accept state (none, 0)

  abbrev ArePicks : List SetS → List Row × List Accept → Type 0
  ArePicks gs r = (length r.0 ≡ length gs) × ((i : ℕ) → i < length gs → IsPick gs i r)

  -- What a round does with the result of `set_next_member`.
  next_round : ℕ → List SetS → Option ℕ × Cursor → List Row × List Accept
  next_round k gs r =
      let state : ℕ = elim r.0 [ none ↦ 0 | some s ↦ s ] in
      let rest = fix_loop dtran accept p (k + 1) gs r.1 in
      (
        fixed_row p (get_or dtran state []) max_chars ∷ rest.0,
        get_or accept state (none, 0) ∷ rest.1,
      )

  fix_loop-cons :
      (k : ℕ) (g : SetS) (gs : List SetS) (c : Cursor)
      → fix_loop dtran accept p k (g ∷ gs) c ≡ next_round k gs (set_next_member c k g)
  unfolding fix_loop next_round
  fix_loop-cons k g gs c = refl

  -- One group more in front.
  next_round-ArePicks :
      (k : ℕ) (g : SetS) (gs : List SetS) (x : ℕ) (c : Cursor)
      → member g x ≡ true
      → ArePicks gs (fix_loop dtran accept p (k + 1) gs c)
      → ArePicks (g ∷ gs) (next_round k gs (some x, c))
  unfolding next_round
  next_round-ArePicks k g gs x c m (len, rest) = (ap suc len, picks)
    where
      picks : (i : ℕ) → i < length (g ∷ gs) → IsPick (g ∷ gs) i (next_round k gs (some x, c))
      picks zero l = record { state = x; in_group = m; row = refl; label = refl }
      picks (suc i) l =
          let r = rest i (omega (arith, l)) in
          record { state = r.state; in_group = r.in_group; row = r.row; label = r.label }

  fix_loop-ArePicks :
      (gs : List SetS) (k : ℕ) (c : Cursor)
      → is_last c.last k ≡ false
      → ((i : ℕ) → i < length gs → IsFull (group_at gs i))
      → ArePicks gs (fix_loop dtran accept p k gs c)
  unfolding fix_loop next_round
  fix_loop-ArePicks [] k c other full = (refl, λ i l. absurd (omega arith))
  fix_loop-ArePicks (g ∷ gs) k c other full = rw (fix_loop-cons k g gs c) (
      round (set_next_member c k g) (next_other g g_full.0 g_full.1 k c other) (λ c' other'.
        fix_loop-ArePicks gs (k + 1) c' other' (λ i l. full (suc i) (omega (arith, l)))))
    where
      g_full : IsFull g
      g_full = full 0 (omega arith)

      round :
          (r : Option ℕ × Cursor)
          → Nexts g k 0 r
          → ((c' : Cursor)
              → is_last c'.last (k + 1) ≡ false
              → ArePicks gs (fix_loop dtran accept p (k + 1) gs c'))
          → ArePicks (g ∷ gs) (next_round k gs r)
      round r (inr e) ih = let (x, m) = g_full.2 in absurd (ground (arith, e.1 x, m))
      round r (inl (x, e)) ih =
          subst (λ q. ArePicks (g ∷ gs) (next_round k gs q)) (sym e.0)
            (next_round-ArePicks k g gs x (inside k (x + 1)) e.2
              (ih (inside k (x + 1)) (ground arith)))

-- The next states of the states below `n` are below `n`.
abbrev pub IsTable : List Row → ℕ → Type 0
IsTable dtran n = (x c t : ℕ) → x < n → c < max_chars → goto_at dtran x c ≡ some t → t < n

-- `p` of the state, and whether it is below `n`.
abbrev Below : ℕ → Option ℕ → Type 0
Below n none = Unit {0}
Below n (some x) = x < n

moves-Below : (n : ℕ) (a : Option ℕ) → ((t : ℕ) → a ≡ some t → t < n) → Below n a
moves-Below n none h = tt
moves-Below n (some t) h = h t refl

module _ (dtran : List Row) (accept : List Accept) (n : ℕ) (gs : Groups)
    (stable : IsStable dtran accept n gs) (pos : 0 < n) (table : IsTable dtran n) where
  abbrev result : List Row × List Accept
  result = fix_dtran dtran accept gs

  h : IsPartition accept n gs
  h = stable.partition

  picks : ArePicks dtran accept gs.ingroup gs.groups result
  unfolding fix_dtran reset
  picks = fix_loop-ArePicks dtran accept gs.ingroup gs.groups 0 (reset gs.cursor) refl full
    where
      full : (i : ℕ) → i < length gs.groups → IsFull (group_at gs.groups i)
      full i l =
          let (x, e) = h.inhabited i l in
          (
            (h.group i l).valid,
            (h.group i l).plain,
            (x, ground (arith, (h.group i l).exact x, e.0, e.1)),
          )

  -- The state that stands for the group of `x`.
  stands :
      (x : ℕ)
      → x < n
      → (s : ℕ) × ((s < n)
          × (gs.ingroup s ≡ gs.ingroup x)
          × (get_or result.0 (gs.ingroup x) [] ≡ fixed_row gs.ingroup (get_or dtran s []) max_chars)
          × (get_or result.1 (gs.ingroup x) (none, 0) ≡ get_or accept s (none, 0)))
  stands x l =
      let pick = picks.1 (gs.ingroup x) (h.within x l) in
      let exact = (h.group (gs.ingroup x) (h.within x l)).exact pick.state in
      (
        pick.state,
        (
          ground (arith, exact, pick.in_group),
          ground (arith, exact, pick.in_group),
          pick.row,
          pick.label,
        ),
      )

  -- After the same text the new table is in the group of the old one's state.
  run-moves :
      (w : List ℕ)
      → AreChars w
      → (table_run result.0 w ≡ moves gs.ingroup (table_run dtran w)) × Below n (table_run dtran w)
  unfolding table_run moves
  run-moves [] a = (ap some (sym (h.start pos)), pos)
  run-moves (c ∷ w) a = onward (table_run result.0 w) (table_run dtran w) (run-moves w a.1)
    where
      step : List Row → Option ℕ → Option ℕ
      step t r = elim r [ none ↦ none | some i ↦ get_or (get_or t i []) c none ]

      onward :
          (r r' : Option ℕ)
          → (r ≡ moves gs.ingroup r') × Below n r'
          → (step result.0 r ≡ moves gs.ingroup (step dtran r')) × Below n (step dtran r')
      onward r none (e, b) = rw e (refl, tt)
      onward r (some x) (e, b) =
          let (s, q) = stands x b in
          let same = stable.agrees (gs.ingroup x) (h.within x b) s x c q.0 b q.1 refl a.0 in
          rw e (
            ap (λ row. get_or row c none) q.2
                ∙ (get_or-fixed_row gs.ingroup (get_or dtran s []) max_chars c a.0 ∙ same),
            moves-Below n (goto_at dtran x c) (λ t. table x c t b a.0),
          )

  -- The strings of the new states are those of the old ones.
  string_of-result :
      (r : Option ℕ)
      → Below n r
      → Option.map (string_of result.1) (moves gs.ingroup r) ≡ Option.map (string_of accept) r
  unfolding moves
  string_of-result none b = refl
  string_of-result (some x) b =
      let (s, q) = stands x b in ap some (ap (λ (t : Accept). t.0) q.3 ∙ h.labels s x q.0 b q.1)

-- On a table of `n` states, the first one included, whose next states are among them, `minimize`
-- ends. The new table has at most `n` rows, and after every text that the old table accepts, rejects
-- or fails on, the new one accepts with the same string, rejects or fails, too.
pub minimize_language :
    (dtran : List Row) (accept : List Accept) (n : ℕ) (cursor : Cursor)
    → 0 < n
    → IsTable dtran n
    → (r : List Row × List Accept) × ((minimize dtran accept n cursor ≡ some r)
        × (length r.0 ≤ n)
        × ((w : List ℕ)
            → AreChars w
            → Option.map (string_of r.1) (table_run r.0 w)
              ≡ Option.map (string_of accept) (table_run dtran w)))
unfolding minimize
minimize_language dtran accept n cursor pos table =
    let begin : Groups = record { groups = []; ingroup = λ i. 0; cursor = cursor } in
    let first = init_groups-IsPartition accept n begin refl in
    let (gs, q) =
      refine-IsStable dtran accept n (n + 1) (init_groups accept n begin) first (omega arith) in
    (
      fix_dtran dtran accept gs,
      (
        rw (minimize, q.0) refl,
        omega (
          arith,
          partition-small accept n gs q.1.partition,
          (picks dtran accept n gs q.1 pos table).0,
        ),
        λ w a.
            let run = run-moves dtran accept n gs q.1 pos table w a in
            rw run.0 (string_of-result dtran accept n gs q.1 pos table (table_run dtran w) run.1),
      ),
    )
