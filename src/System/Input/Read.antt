-- ===== src/System/Input/Read.antt =====
-- The routines of compiler/lib/input.c that read from the file: `ii_fillbuf`, `ii_flush`,
-- `ii_advance`, `ii_input` and `ii_flushbuf`.
use cgkits.Prelude.{
  ltb, leb, ◌==◌, if◌then◌else◌, length, ℕ, zero, suc, ◌+◌, ◌-◌, ◌*◌, ◌/◌, Bool, true, false, not,
  ◌||◌, Option, none, some, List,
}
use cgkits.System.Input.{
  max_lookahead, max_lexeme_len, buf_size, Input, increment, decrement, Flushed, ready, at_end,
  too_full, stopped, Advanced, char_read, no_chars, no_room, aborted, write, move_down, fill,
  ii_mark_start, ii_mark_end, ii_mark_prev, no_more_chars, left_edge, shift_marks, ii_term,
  ii_unterm,
}

module _ {F : Type 0} where
  -- `ii_fillbuf` after the call of `read`.
  abbrev pub after_read : ℕ → ℕ → Input F → Option (List ℕ) × F → Option ℕ × Input F
  after_read starting_at need st (none, file) = (none, record st { input_file = file })
  after_read starting_at need st (some chars, file) = (
    some (length chars),
    record st {
      input_file = file;
      start_buf = fill st.start_buf starting_at chars;
      end_buf = starting_at + length chars;
      eof_read = if ltb (length chars) need then true else st.eof_read;
    },
  )

  -- `ii_flush` after the call of `ii_fillbuf`, which stops the program if it returns 0.
  abbrev pub after_fill : ℕ → Option ℕ × Input F → Flushed × Input F
  after_fill left (none, st) = (stopped, st)
  after_fill left (some zero, st) = (stopped, st)
  after_fill left (some (suc n), st) = (ready, shift_marks left st)

  -- The newline that the first call of `ii_advance` puts into the empty buffer.
  unfoldable pub push_newline : Input F → Input F
  push_newline st = if st.been_called then st else record st {
    next = buf_size - 1;
    smark = buf_size - 1;
    emark = buf_size - 1;
    pmark = none;
    start_buf = write st.start_buf (buf_size - 1) 10;
    lineno = decrement st.lineno;
    mline = decrement st.mline;
    been_called = true;
  }

  -- `return (*_next++)`, with the count of lines.
  abbrev pub take_char : Input F → ℕ × Input F
  take_char st =
      let c = st.start_buf st.next in
      (
        c,
        record st {
          next = st.next + 1;
          lineno = if c == 10 then increment st.lineno else st.lineno;
        },
      )

  abbrev pub after_flush : Flushed × Input F → Advanced × Input F
  after_flush (too_full, st) = (no_room, st)
  after_flush (stopped, st) = (aborted, st)
  after_flush (at_end, st) = let (c, st') = take_char st in (char_read c, st')
  after_flush (ready, st) = let (c, st') = take_char st in (char_read c, st')

  module _ (read : F → ℕ → Option (List ℕ) × F) where
    -- `ii_fillbuf`: the number of characters; `none` if the program ends.
    unfoldable pub ii_fillbuf : ℕ → Input F → Option ℕ × Input F
    ii_fillbuf starting_at st =
        let need = (buf_size - starting_at) / max_lexeme_len * max_lexeme_len in
        if leb (buf_size + max_lexeme_len) starting_at
        then (none, st)
        else if need == 0
        then (some 0, st)
        else after_read starting_at need st (read st.input_file need)

    -- The part of `ii_flush` that moves the text from `left` on.
    unfoldable pub refill : ℕ → Input F → Flushed × Input F
    unfolding ii_fillbuf
    refill left st =
        let copy_amt = st.end_buf - left in
        after_fill left
          (ii_fillbuf copy_amt (record st { start_buf = move_down st.start_buf left copy_amt }))

    unfoldable pub ii_flush : Bool → Input F → Flushed × Input F
    unfolding refill
    ii_flush force st =
        let left = left_edge st in
        let marked = ii_mark_prev (ii_mark_start st) in
        if no_more_chars st
        then (at_end, st)
        else if st.eof_read
        then (ready, st)
        else if not (leb st.end_buf (st.next + max_lookahead) || force)
        then (ready, st)
        else if not (ltb left max_lexeme_len)
        then refill left st
        else if force
        then refill st.next marked
        else (too_full, st)

    -- `ii_advance` after that.
    unfoldable pub advance_from : Input F → Advanced × Input F
    unfolding ii_flush
    advance_from st =
        if no_more_chars st
        then (no_chars, st)
        else if st.eof_read
        then after_flush (ready, st)
        else after_flush (ii_flush false st)

    unfoldable pub ii_advance : Input F → Advanced × Input F
    unfolding advance_from push_newline
    ii_advance st = advance_from (push_newline st)

    -- `ii_input`; the text is terminated again if it was before.
    unfoldable pub ii_input : Input F → Advanced × Input F
    unfolding ii_advance
    ii_input st =
        let (r, plain) = ii_advance st in
        let (r', untermed) = ii_advance (ii_unterm st) in
        if st.termchar == 0 then (r, ii_mark_end plain) else (r', ii_term (ii_mark_end untermed))

    unfoldable pub ii_flushbuf : Input F → Flushed × Input F
    unfolding ii_flush
    ii_flushbuf st = ii_flush true (if st.termchar == 0 then st else ii_unterm st)
