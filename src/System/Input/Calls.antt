-- ===== src/System/Input/Calls.antt =====
-- Sequences of calls of the routines of compiler/lib/input.c.
use cgkits.Prelude.{
  ◌==◌, if-cases, ℕ, ◌≤◌, ◌<◌, ◌≡◌, sym, ◌∙◌, ◌⊎◌, inl, inr, Bool, true, false, Option, none, some,
  List, [], ◌∷◌, arith,
}
use cgkits.System.Input.{
  Input, Flushed, ready, at_end, too_full, stopped, Advanced, char_read, no_chars, no_room, aborted,
  ii_newfile, ii_mark_start, ii_mark_end, ii_move_start, ii_move_back, ii_mark_prev, no_more_chars,
  left_edge, ii_pushback, ii_term, ii_unterm, ii_unput,
}
use cgkits.System.Input.Invariant.{
  IsInput, ii_newfile-IsInput, ii_mark_start-IsInput, ii_mark_end-IsInput, ii_move_start-IsInput,
  ii_move_back-IsInput, ii_mark_prev-IsInput, ii_term-IsInput, ii_unterm-IsInput,
  ii_pushback-IsInput, ii_unput-IsInput, push_newline-IsInput, ii_newfile-called,
  ii_move_start-called, ii_move_back-called, ii_pushback-called, ii_unterm-called, ii_unput-called,
}
use cgkits.System.Input.Flush.{
  IsRead, Refills, refilled-IsInput, left_edge-smark, Flushes, ii_flush-Flushes, ii_flush-IsInput,
}
use cgkits.System.Input.Read.{
  push_newline, take_char, after_flush, ii_flush, advance_from, ii_advance, ii_input, ii_flushbuf,
}
use mathlib.Core.Path.{subst}

-- One call of a lexer; a file that `ii_newfile` opened is an argument.
pub data Call (F : Type 0) : Type 0 where
  newfile : Option F → Call F
  mark_start : Call F
  mark_end : Call F
  move_start : Call F
  move_back : Call F
  mark_prev : Call F
  advance : Call F
  flush : Bool → Call F
  pushback : ℕ → Call F
  term : Call F
  unterm : Call F
  input : Call F
  unput : ℕ → Call F
  flushbuf : Call F

module _ {F : Type 0} (read : F → ℕ → Option (List ℕ) × F) where
  -- `none` if the program is stopped.
  abbrev flushed : Flushed × Input F → Option (Input F)
  flushed (stopped, st) = none
  flushed (ready, st) = some st
  flushed (at_end, st) = some st
  flushed (too_full, st) = some st

  abbrev advanced : Advanced × Input F → Option (Input F)
  advanced (aborted, st) = none
  advanced (char_read c, st) = some st
  advanced (no_chars, st) = some st
  advanced (no_room, st) = some st

  pub call : Call F → Input F → Option (Input F)
  call (newfile f) st = some (ii_newfile f st)
  call mark_start st = some (ii_mark_start st)
  call mark_end st = some (ii_mark_end st)
  call move_start st = some (ii_move_start st)
  call move_back st = some (ii_move_back st)
  call mark_prev st = some (ii_mark_prev st)
  call advance st = advanced (ii_advance read st)
  call (flush force) st = flushed (ii_flush read force st)
  call (pushback n) st = some (ii_pushback n st).1
  call term st = some (ii_term st)
  call unterm st = some (ii_unterm st)
  call input st = advanced (ii_input read st)
  call (unput c) st = some (ii_unput c st)
  call flushbuf st = flushed (ii_flushbuf read st)

  -- The calls in their order, up to the one that stops the program.
  pub calls : List (Call F) → Input F → Option (Input F)
  unfolding call
  calls [] st = some st
  calls (c ∷ cs) st = elim (call c st) [ none ↦ none | some st' ↦ calls cs st' ]

  -- What holds after the first `ii_advance`.
  abbrev pub IsStarted : Input F → Type 0
  IsStarted st = IsInput st × (st.been_called ≡ true)

  -- The same for what a call leaves, if it does not stop the program.
  abbrev pub AreStarted : Option (Input F) → Type 0
  AreStarted none = Unit {0}
  AreStarted (some st) = IsStarted st

  module _ (ok : IsRead read) where
    flush-AreStarted :
        (force : Bool) (st : Input F) → IsStarted st → AreStarted (flushed (ii_flush read force st))
    flush-AreStarted force st h =
        onward (ii_flush read force st) (ii_flush-IsInput read ok force st h.0 h.1)
      where
        onward : (r : Flushed × Input F) → (r.0 ≡ stopped) ⊎ IsStarted r.1 → AreStarted (flushed r)
        onward (stopped, st) h = tt
        onward (ready, st) (inr h) = h
        onward (at_end, st) (inr h) = h
        onward (too_full, st) (inr h) = h
        onward (ready, st) (inl e) = absurd cc
        onward (at_end, st) (inl e) = absurd cc
        onward (too_full, st) (inl e) = absurd cc

    -- A character that is taken is within the text.
    take_char-IsStarted :
        (st : Input F) → IsStarted st → st.next < st.end_buf → IsStarted (take_char st).1
    take_char-IsStarted st (h, called) l = (
      record {
        start_end = h.start_end;
        end_next = omega (arith, h.end_next);
        next_text = omega (arith, l);
        text_buffer = h.text_buffer;
        prev_start = h.prev_start;
        fresh = h.fresh;
      },
      called,
    )

    refilled-taken :
        (left : ℕ) (st : Input F) (r : Flushed × Input F)
        → IsStarted st
        → left ≤ st.smark
        → Refills read left st r
        → AreStarted (advanced (after_flush r))
    refilled-taken left st (f, s) h l (inl (e, q)) =
        subst (λ f. AreStarted (advanced (after_flush (f, s)))) (sym e) tt
    refilled-taken left st r (h, called) l (inr (st', (e, f))) =
        let more : st'.next < st'.end_buf =
          omega (arith, f.next, f.end_buf, f.some_chars, l, h.start_end, h.end_next, h.next_text) in
        subst (λ r. AreStarted (advanced (after_flush r))) (sym e)
          (take_char-IsStarted st'
            (refilled-IsInput read left st st' ok h l called f, f.been_called ∙ called) more)

    flushed-taken :
        (st : Input F) (r : Flushed × Input F)
        → IsStarted st
        → no_more_chars st ≡ false
        → Flushes read false st r
        → AreStarted (advanced (after_flush r))
    flushed-taken st r h more (inl (e, f)) = absurd (clash more f)
      where
        clash : {b : Bool} → b ≡ false → b ≡ true → ⊥
        clash e e' = cc
    flushed-taken st r h more (inr (inl (e, l))) =
        subst (λ r. AreStarted (advanced (after_flush r))) (sym e) (take_char-IsStarted st h l)
    flushed-taken st r h more (inr (inr (inl (e, f, g)))) =
        subst (λ r. AreStarted (advanced (after_flush r))) (sym e) h
    flushed-taken st r h more (inr (inr (inr (inl (far, f))))) =
        refilled-taken (left_edge st) st r h (left_edge-smark read st) f
    flushed-taken st r h more (inr (inr (inr (inr (e, f, g))))) = absurd cc

    advance_from-AreStarted :
        (st : Input F) → IsStarted st → AreStarted (advanced (advance_from read st))
    unfolding advance_from
    advance_from-AreStarted st h =
        if-cases (λ r. AreStarted (advanced r)) (no_more_chars st) _ _ (λ e. h)
          (λ e.
            if-cases (λ r. AreStarted (advanced r)) st.eof_read _ _
              (λ f. take_char-IsStarted st h (ground (arith, e, f)))
              (λ f.
                flushed-taken st (ii_flush read false st) h e (ii_flush-Flushes read false st h.0)))

    -- The first call as well.
    pub ii_advance-AreStarted :
        (st : Input F) → IsInput st → AreStarted (advanced (ii_advance read st))
    unfolding ii_advance
    ii_advance-AreStarted st h =
        advance_from-AreStarted (push_newline st) (push_newline-IsInput st h)

    -- A routine that is called on the state behind `ii_advance`.
    behind :
        (g : Input F → Input F)
        → ((st : Input F) → IsStarted st → IsStarted (g st))
        → (r : Advanced × Input F) → AreStarted (advanced r)
        → AreStarted (advanced (r.0, g r.1))
    behind g k (char_read c, st) h = k st h
    behind g k (no_chars, st) h = k st h
    behind g k (no_room, st) h = k st h
    behind g k (aborted, st) h = tt

    mark_end-IsStarted : (st : Input F) → IsStarted st → IsStarted (ii_mark_end st)
    mark_end-IsStarted st h = (ii_mark_end-IsInput st h.0, unfold ii_mark_end in h.1)

    term-IsStarted : (st : Input F) → IsStarted st → IsStarted (ii_term st)
    term-IsStarted st h = (ii_term-IsInput st h.0, unfold ii_term in h.1)

    unterm-IsStarted : (st : Input F) → IsStarted st → IsStarted (ii_unterm st)
    unterm-IsStarted st h = (ii_unterm-IsInput st h.0, ii_unterm-called st ∙ h.1)

    input-AreStarted : (st : Input F) → IsStarted st → AreStarted (advanced (ii_input read st))
    unfolding ii_input
    input-AreStarted st h =
        if-cases (λ r. AreStarted (advanced r)) (st.termchar == 0) _ _
          (λ e.
            behind ii_mark_end mark_end-IsStarted (ii_advance read st)
              (ii_advance-AreStarted st h.0))
          (λ e.
            behind (λ s. ii_term (ii_mark_end s))
              (λ s k. term-IsStarted (ii_mark_end s) (mark_end-IsStarted s k))
              (ii_advance read (ii_unterm st))
              (ii_advance-AreStarted (ii_unterm st) (ii_unterm-IsInput st h.0)))

    flushbuf-AreStarted : (st : Input F) → IsStarted st → AreStarted (flushed (ii_flushbuf read st))
    unfolding ii_flushbuf
    flushbuf-AreStarted st h =
        if-cases (λ s. AreStarted (flushed (ii_flush read true s))) (st.termchar == 0) _ _
          (λ e. flush-AreStarted true st h)
          (λ e. flush-AreStarted true (ii_unterm st) (unterm-IsStarted st h))

    call-AreStarted : (c : Call F) (st : Input F) → IsStarted st → AreStarted (call c st)
    unfolding call
    call-AreStarted (newfile f) st h = (ii_newfile-IsInput f st h.0, ii_newfile-called f st ∙ h.1)
    call-AreStarted mark_start st h = (ii_mark_start-IsInput st h.0, unfold ii_mark_start in h.1)
    call-AreStarted mark_end st h = mark_end-IsStarted st h
    call-AreStarted move_start st h = (ii_move_start-IsInput st h.0, ii_move_start-called st ∙ h.1)
    call-AreStarted move_back st h = (ii_move_back-IsInput st h.0, ii_move_back-called st ∙ h.1)
    call-AreStarted mark_prev st h = (ii_mark_prev-IsInput st h.0, unfold ii_mark_prev in h.1)
    call-AreStarted advance st h = ii_advance-AreStarted st h.0
    call-AreStarted (flush force) st h = flush-AreStarted force st h
    call-AreStarted (pushback n) st h =
        (ii_pushback-IsInput n st h.0, ii_pushback-called n st h.0 ∙ h.1)
    call-AreStarted term st h = term-IsStarted st h
    call-AreStarted unterm st h = unterm-IsStarted st h
    call-AreStarted input st h = input-AreStarted st h
    call-AreStarted (unput c) st h = (ii_unput-IsInput c st h.0, ii_unput-called c st h.0 ∙ h.1)
    call-AreStarted flushbuf st h = flushbuf-AreStarted st h

    and_then :
        (cs : List (Call F)) (o : Option (Input F))
        → AreStarted o
        → ((st : Input F) → IsStarted st → AreStarted (calls cs st))
        → AreStarted (elim o [ none ↦ none | some st ↦ calls cs st ])
    and_then cs none h ih = tt
    and_then cs (some st) h ih = ih st h

    rest-AreStarted : (cs : List (Call F)) (st : Input F) → IsStarted st → AreStarted (calls cs st)
    unfolding calls
    rest-AreStarted [] st h = h
    rest-AreStarted (c ∷ cs) st h =
        and_then cs (call c st) (call-AreStarted c st h) (rest-AreStarted cs)

  -- From a state whose pointers are in order, such as the one at the start or after `ii_newfile`,
  -- let `ii_advance` be called first and any calls of the routines follow, with a `read` that returns
  -- at most as many characters as it is asked for. Unless a call stops the program, the pointers are
  -- in order after all of them: the marks stand before the next character, this stands in the text
  -- or right behind it, and the text ends within the buffer.
  pub calls-AreStarted :
      (cs : List (Call F)) (st : Input F)
      → IsRead read
      → IsInput st
      → AreStarted (calls (advance ∷ cs) st)
  unfolding calls call
  calls-AreStarted cs st ok h =
      and_then ok cs (call advance st) (ii_advance-AreStarted ok st h) (rest-AreStarted ok cs)
