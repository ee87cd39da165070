-- ===== src/System/Input.antt =====
-- compiler/lib/input.c: the input buffer of the generated lexers. A pointer into `_start_buf` is
-- its distance from the start, so `_END` is `buf_size`; `pmark` is `none` for `NULL`. The functions
-- that `ii_io` sets belong to the system: `read` is what `_fp_read` does with an open file, `none`
-- is -1. The counters of lines are 32-bit numbers. Debug output is left out.
pub mod Read
pub mod Invariant
pub mod Flush
pub mod Text
pub mod Calls
pub mod Errors
use cgkits.Prelude.{
  ltb, leb, ◌==◌, if◌then◌else◌, length, get_or, ℕ, zero, suc, ◌+◌, ◌-◌, ◌*◌, ◌%◌, ◌^◌, min, Bool,
  false, not, ◌&&◌, ◌||◌, Option, none, some, List,
}

-- `_MAX_LOOKAHEAD`, `_MAX_LEXEME_LEN` and `_BUFSIZE`.
abbrev pub max_lookahead : ℕ
max_lookahead = 16

abbrev pub max_lexeme_len : ℕ
max_lexeme_len = 1024

abbrev pub buf_size : ℕ
buf_size = max_lexeme_len * 3 + 2 * max_lookahead

pub record Input (F : Type 0) : Type 0 where
  pub start_buf : ℕ → ℕ
  pub end_buf : ℕ
  pub next : ℕ
  pub smark : ℕ
  pub emark : ℕ
  pub pmark : Option ℕ
  pub plineno : ℕ
  pub plength : ℕ
  pub input_file : F
  pub lineno : ℕ
  pub mline : ℕ
  pub termchar : ℕ
  pub eof_read : Bool
  pub been_called : Bool

-- `++` and `--` on an `int`.
abbrev pub increment : ℕ → ℕ
increment n = (n + 1) % 2 ^ 32

abbrev pub decrement : ℕ → ℕ
decrement n = (n + 2 ^ 32 - 1) % 2 ^ 32

-- What `ii_flush` returns: 1, 0, -1, or not at all, because `com_ferr` ends the program.
pub data Flushed : Type 0 where
  ready : Flushed
  at_end : Flushed
  too_full : Flushed
  stopped : Flushed

-- The result of `ii_advance`: a character, 0, -1, or none.
pub data Advanced : Type 0 where
  char_read : ℕ → Advanced
  no_chars : Advanced
  no_room : Advanced
  aborted : Advanced

abbrev pub write : (ℕ → ℕ) → ℕ → ℕ → ℕ → ℕ
write buf p c q = if p == q then c else buf q

-- `memmove` to the start of the buffer.
abbrev pub move_down : (ℕ → ℕ) → ℕ → ℕ → ℕ → ℕ
move_down buf left copy_amt q = if ltb q copy_amt then buf (left + q) else buf q

-- The characters that were read, from `starting_at` on.
abbrev pub fill : (ℕ → ℕ) → ℕ → List ℕ → ℕ → ℕ
fill buf starting_at got q =
    if leb starting_at q && ltb q (starting_at + length got)
    then get_or got (q - starting_at) 0
    else buf q

module _ {F : Type 0} where
  -- `ii_newfile` with the file that was opened.
  pub ii_newfile : Option F → Input F → Input F
  ii_newfile none st = st
  ii_newfile (some file) st = record st {
    input_file = file;
    eof_read = false;
    next = buf_size;
    smark = buf_size;
    pmark = none;
    emark = buf_size;
    end_buf = buf_size;
    lineno = 1;
    mline = 1;
  }

  pub ii_length : Input F → ℕ
  ii_length st = st.emark - st.smark

  unfoldable pub ii_mark_start : Input F → Input F
  ii_mark_start st = record st { mline = st.lineno; emark = st.next; smark = st.next }

  unfoldable pub ii_mark_end : Input F → Input F
  ii_mark_end st = record st { mline = st.lineno; emark = st.next }

  pub ii_move_start : Input F → Input F
  ii_move_start st = if leb st.emark st.smark then st else record st { smark = st.smark + 1 }

  pub ii_move_back : Input F → Input F
  ii_move_back st = record st { lineno = st.mline; next = st.emark }

  unfoldable pub ii_mark_prev : Input F → Input F
  ii_mark_prev st = record st {
    plineno = st.lineno;
    plength = st.emark - st.smark;
    pmark = some st.smark;
  }

  -- `_NO_MORE_CHARS()`.
  abbrev pub no_more_chars : Input F → Bool
  no_more_chars st = st.eof_read && leb st.end_buf st.next

  -- `_pmark ? min(_smark, _pmark) : _smark`.
  abbrev pub left_edge : Input F → ℕ
  left_edge st = elim st.pmark [ none ↦ st.smark | some p ↦ min st.smark p ]

  -- The end of `ii_flush`: the marks move with the text.
  abbrev pub shift_marks : ℕ → Input F → Input F
  shift_marks shift_amt st = record st {
    pmark = elim st.pmark [ none ↦ none | some p ↦ some (p - shift_amt) ];
    smark = st.smark - shift_amt;
    emark = st.emark - shift_amt;
    next = st.next - shift_amt;
  }

  -- One round of the loop of `ii_pushback`, and the loop.
  unfoldable pub step_back : Input F → Input F
  step_back st =
      let p = st.next - 1 in
      let c = st.start_buf p in
      record st { next = p; lineno = if c == 10 || c == 0 then decrement st.lineno else st.lineno }

  pub pushback_loop : ℕ → Input F → Input F
  unfolding step_back
  pushback_loop zero st = st
  pushback_loop (suc n) st =
      let rest = pushback_loop n (step_back st) in if ltb st.smark st.next then rest else st

  pub ii_pushback : ℕ → Input F → Bool × Input F
  unfolding pushback_loop
  ii_pushback n st =
      let back = pushback_loop n st in
      let st' =
        if ltb back.next back.emark
        then record back { emark = back.next; mline = back.lineno }
        else back in
      (ltb st'.smark st'.next, st')

  unfoldable pub ii_term : Input F → Input F
  ii_term st = record st {
    termchar = st.start_buf st.next;
    start_buf = write st.start_buf st.next 0;
  }

  unfoldable pub ii_unterm : Input F → Input F
  ii_unterm st =
      if st.termchar == 0
      then st
      else record st { start_buf = write st.start_buf st.next st.termchar; termchar = 0 }

  -- `if(ii_pushback(1)) *_next = c;`, where the `int` becomes a `uchar`. `c` is the number that the
  -- bits of the `int` stand for.
  pub unput_char : ℕ → Input F → Input F
  unfolding ii_pushback
  unput_char c st =
      let (room, st') = ii_pushback 1 st in
      if room then record st' { start_buf = write st'.start_buf st'.next (c % 2 ^ 8) } else st'

  pub ii_unput : ℕ → Input F → Input F
  unfolding unput_char
  ii_unput c st =
      if st.termchar == 0 then unput_char c st else ii_term (unput_char c (ii_unterm st))

  -- `ii_look` for a positive `n`: `none` is `EOF`.
  pub ii_look : ℕ → Input F → Option ℕ
  ii_look n st =
      if ltb (st.end_buf - st.next) n
      then if st.eof_read then none else some 0
      else some (st.start_buf (st.next + n - 1))

  pub ii_lookahead : ℕ → Input F → Option ℕ
  unfolding ii_look
  ii_lookahead n st = if n == 1 && not (st.termchar == 0) then some st.termchar else ii_look n st
