-- ===== src/Tests/System.antt =====
-- The theorems about compiler/lib/syslib.c and compiler/lib/input.c at concrete inputs.
use mathlib.Core.Path.{subst}
use cgkits.Prelude.{
  ltb, length, get_or, take, drop, length-take, ℕ, ◌+◌, ◌-◌, ◌%◌, ◌^◌, ◌≤◌, ◌<◌, ◌≡◌, refl, ap, ◌≢◌,
  inr, true, false, Option, none, some, List, [], ◌∷◌, ◌++◌, map, arith,
}
use cgkits.System.Pairs.{Cell, yyf, transitions, sys_pairs, found, undeclared, yy_next}
use cgkits.System.Pairs.Lookup.{yy_next-sys_pairs, yy_next-last_empty}
use cgkits.System.Escape.{sys_bin_to_ascii, sys_esc}
use cgkits.System.Escape.RoundTrip.{sys_esc-sys_bin_to_ascii}
use cgkits.System.Escape.Bounds.{Overruns, Leaves, sys_esc-Leaves}
use cgkits.System.Input.{buf_size, Input, aborted, ii_unput}
use cgkits.System.Input.Invariant.{IsInput}
use cgkits.System.Input.Flush.{IsRead}
use cgkits.System.Input.Text.{unread}
use cgkits.System.Input.Calls.{
  mark_start, advance, flush, input, calls, AreStarted, calls-AreStarted,
}
use cgkits.System.Input.Errors.{ii_advance-empty_read, ii_unput-unread}
use cgkits.System.Sort.{sys_ssort}
use cgkits.System.Sort.Counted.{Same}
use cgkits.System.Sort.Sorted.{IsSorted, sys_ssort-IsSorted}
use cgkits.System.Numbers.{sys_stol}
use cgkits.System.Numbers.Value.{value, decimal_char, sys_stol-value}
use cgkits.System.Input.Read.{ii_advance}

-- A row that stays an array with threshold 1, one without transitions, and one that becomes pairs.
abbrev three_rows : List (List Cell)
three_rows =
    (some 1 ∷ none ∷ some 2 ∷ []) ∷ (none ∷ none ∷ none ∷ []) ∷ (none ∷ some 300 ∷ none ∷ []) ∷ []

yy_next-sys_pairs_example :
    let read = yy_next (sys_pairs 1 three_rows).0 2 1 in
    let entry = get_or (get_or three_rows 2 []) 1 none in
    (entry ≡ none → read ≡ found yyf)
    × ((v : ℕ) → entry ≡ some v → read ≡ found (v % 2 ^ 8))
    × ((v : ℕ) → entry ≡ some v → v < yyf → (read ≡ found v) × (read ≢ found yyf))
unfolding transitions
yy_next-sys_pairs_example =
    yy_next-sys_pairs 1 three_rows 2 1 (omega arith) (omega arith) (inr (refl, omega arith))
      (omega arith)

-- The states of the expression "a": nothing follows the second one.
abbrev dead_end : List (List Cell)
dead_end = (some 1 ∷ none ∷ []) ∷ (none ∷ none ∷ []) ∷ []

yy_next-last_empty_example : yy_next (sys_pairs 4 dead_end).0 1 0 ≡ undeclared 1
unfolding transitions
yy_next-last_empty_example = yy_next-last_empty 4 dead_end 1 0 refl refl

sys_esc-sys_bin_to_ascii_example :
    sys_esc (sys_bin_to_ascii 27 false ++ 55 ∷ []) ≡ (27, some (55 ∷ []))
sys_esc-sys_bin_to_ascii_example = sys_esc-sys_bin_to_ascii 27 false (55 ∷ [])

sys_esc-Leaves_example :
    Leaves (Overruns (92 ∷ 94 ∷ [])) 2 (sys_esc (92 ∷ 94 ∷ []))
    × (Overruns (92 ∷ 94 ∷ []) → (sys_esc (92 ∷ 94 ∷ [])).1 ≡ none)
sys_esc-Leaves_example = sys_esc-Leaves (92 ∷ 94 ∷ [])

-- A file as the list of its characters.
abbrev read_list : List ℕ → ℕ → Option (List ℕ) × List ℕ
read_list f n = (some (take n f), drop n f)

-- The two results of a read of it.
chars-read_list :
    (f f' : List ℕ) (n : ℕ) (chars : List ℕ)
    → read_list f n ≡ (some chars, f')
    → (take n f ≡ chars) × (drop n f ≡ f')
chars-read_list f f' n chars e = (first (take n f) chars (ap (λ p. p.0) e), ap (λ p. p.1) e)
  where
    first : (a b : List ℕ) → some a ≡ some b → a ≡ b
    first a b e = cc

read_list-IsRead : IsRead read_list
read_list-IsRead f f' n chars e =
    let q = chars-read_list f f' n chars e in
    subst (λ xs. length xs ≤ n) q.0 (omega (arith, length-take n f))

-- The buffer after the newline of the first call.
abbrev begun : List ℕ → Input (List ℕ)
begun file = record {
  start_buf = λ p. 10;
  end_buf = buf_size;
  next = buf_size - 1;
  smark = buf_size - 1;
  emark = buf_size - 1;
  pmark = none;
  plineno = 0;
  plength = 0;
  input_file = file;
  lineno = 0;
  mline = 0;
  termchar = 0;
  eof_read = false;
  been_called = true;
}

begun-IsInput : (file : List ℕ) → IsInput (begun file)
begun-IsInput file = record {
  start_end = omega arith;
  end_next = omega arith;
  next_text = omega arith;
  text_buffer = omega arith;
  prev_start = λ p e. absurd cc;
  fresh = λ e. refl;
}

-- A file without characters.
abbrev read_nothing : List ℕ → ℕ → Option (List ℕ) × List ℕ
read_nothing f n = (some [], f)

ii_advance-empty_read_example : (ii_advance read_nothing (begun [])).0 ≡ aborted
ii_advance-empty_read_example =
    ii_advance-empty_read read_nothing (begun []) (begun-IsInput []) refl refl (omega arith)
      (omega arith) (λ n. refl)

-- Within the text "abcd", three characters into the lexeme.
abbrev within : Input (List ℕ)
within = record (begun []) { start_buf = λ p. 97 + p; smark = 0; emark = 2; next = 3; end_buf = 4 }

within-IsInput : IsInput within
within-IsInput = record {
  start_end = omega arith;
  end_next = omega arith;
  next_text = omega arith;
  text_buffer = omega arith;
  prev_start = λ p e. absurd cc;
  fresh = λ e. absurd cc;
}

ii_unput-unread_example :
    (within.smark + 1 < within.next → unread (ii_unput 120 within) ≡ 120 % 2 ^ 8 ∷ unread within)
    × (within.smark + 1 ≡ within.next → unread (ii_unput 120 within) ≡ 99 ∷ unread within)
ii_unput-unread_example = ii_unput-unread 120 within within-IsInput refl

calls-AreStarted_example : AreStarted read_list (
    calls read_list
      (advance ∷ mark_start ∷ advance ∷ input ∷ flush false ∷ [])
      (begun (97 ∷ 98 ∷ [])))
calls-AreStarted_example =
    calls-AreStarted read_list (mark_start ∷ advance ∷ input ∷ flush false ∷ [])
      (begun (97 ∷ 98 ∷ [])) read_list-IsRead (begun-IsInput (97 ∷ 98 ∷ []))

-- The order of numbers as a comparison.
trans_lt : (a b c : ℕ) → ltb b a ≡ false → ltb c b ≡ false → ltb c a ≡ false
trans_lt a b c h h' = ground (arith, h, h')

asym_lt : (a b : ℕ) → ltb b a ≡ true → ltb a b ≡ false
asym_lt a b h = ground (arith, h)

sys_ssort-IsSorted_example :
    Same (3 ∷ 1 ∷ 2 ∷ []) (sys_ssort (λ a b. ltb b a) (3 ∷ 1 ∷ 2 ∷ []))
    × IsSorted (λ a b. ltb b a) 3 (sys_ssort (λ a b. ltb b a) (3 ∷ 1 ∷ 2 ∷ []))
sys_ssort-IsSorted_example =
    sys_ssort-IsSorted (λ a b. ltb b a) (λ a b c. trans_lt a b c) (λ a b. asym_lt a b)
      (3 ∷ 1 ∷ 2 ∷ [])

sys_stol-value_example :
    (sys_stol (map decimal_char (4 ∷ 2 ∷ []) ++ 59 ∷ []) ≡ (42, 59 ∷ []))
    × (sys_stol (45 ∷ map decimal_char (4 ∷ 2 ∷ []) ++ 59 ∷ []) ≡ (2 ^ 64 - 42, 59 ∷ []))
unfolding value
sys_stol-value_example =
    sys_stol-value 4 (2 ∷ []) (59 ∷ []) (omega arith) (omega arith, (omega arith, tt)) refl
