-- ===== src/System/Input/Invariant.antt =====
-- The invariant of the buffer of compiler/lib/input.c: the order of the pointers into it.
use cgkits.Prelude.{
  ltb, leb, ◌==◌, Bool-cases, if-cases, ℕ, zero, suc, ◌+◌, ◌-◌, ◌%◌, ◌^◌, ◌≤◌, max, ◌≡◌, refl, sym,
  ◌∙◌, inl, inr, true, false, Option, none, some, arith,
}
use cgkits.System.Input.{
  buf_size, Input, write, ii_newfile, ii_mark_start, ii_mark_end, ii_move_start, ii_move_back,
  ii_mark_prev, step_back, pushback_loop, ii_pushback, ii_term, ii_unterm, unput_char, ii_unput,
}
use cgkits.System.Input.Read.{push_newline}

module _ {F : Type 0} where
  -- The marks stand before the next character, which is in the buffer or right behind the text,
  -- and as long as `ii_advance` has not been called, the text ends with the buffer.
  pub record IsInput (st : Input F) : Type 0 where
    pub start_end : st.smark ≤ st.emark
    pub end_next : st.emark ≤ st.next
    pub next_text : st.next ≤ st.end_buf
    pub text_buffer : st.end_buf ≤ buf_size
    pub prev_start : (p : ℕ) → st.pmark ≡ some p → p ≤ st.smark
    pub fresh : st.been_called ≡ false → st.end_buf ≡ buf_size

  pub ii_newfile-IsInput : (f : Option F) (st : Input F) → IsInput st → IsInput (ii_newfile f st)
  unfolding ii_newfile
  ii_newfile-IsInput none st h = h
  ii_newfile-IsInput (some file) st h = record {
    start_end = omega arith;
    end_next = omega arith;
    next_text = omega arith;
    text_buffer = omega arith;
    prev_start = λ p e. absurd cc;
    fresh = λ e. refl;
  }

  -- A call that leaves the text and `_pmark` as they are.
  same_text :
      (st st' : Input F)
      → IsInput st
      → st'.end_buf ≡ st.end_buf
      → st'.pmark ≡ st.pmark
      → st'.been_called ≡ st.been_called
      → st.smark ≤ st'.smark
      → st'.smark ≤ st'.emark
      → st'.emark ≤ st'.next
      → st'.next ≤ st'.end_buf
      → IsInput st'
  same_text st st' h e p b s se en nt = record {
    start_end = se;
    end_next = en;
    next_text = nt;
    text_buffer = omega (arith, e, h.text_buffer);
    prev_start = λ q g. omega (arith, s, h.prev_start q (sym p ∙ g));
    fresh = λ f. e ∙ h.fresh (sym b ∙ f);
  }

  pub ii_mark_start-IsInput : (st : Input F) → IsInput st → IsInput (ii_mark_start st)
  unfolding ii_mark_start
  ii_mark_start-IsInput st h =
      same_text st (ii_mark_start st) h refl refl refl (omega (arith, h.start_end, h.end_next))
        (omega arith) (omega arith) h.next_text

  pub ii_mark_end-IsInput : (st : Input F) → IsInput st → IsInput (ii_mark_end st)
  unfolding ii_mark_end
  ii_mark_end-IsInput st h =
      same_text st (ii_mark_end st) h refl refl refl (omega arith)
        (omega (arith, h.start_end, h.end_next)) (omega arith) h.next_text

  pub ii_move_start-IsInput : (st : Input F) → IsInput st → IsInput (ii_move_start st)
  unfolding ii_move_start
  ii_move_start-IsInput st h = elim (Bool-cases (leb st.emark st.smark)) [
    | inl e ↦ rw e h
    | inr e ↦ rw e (
        same_text st (record st { smark = st.smark + 1 }) h refl refl refl (omega arith)
          (ground (arith, e)) h.end_next h.next_text)
  ]

  pub ii_move_back-IsInput : (st : Input F) → IsInput st → IsInput (ii_move_back st)
  unfolding ii_move_back
  ii_move_back-IsInput st h =
      same_text st (ii_move_back st) h refl refl refl (omega arith) h.start_end (omega arith)
        (omega (arith, h.end_next, h.next_text))

  pub ii_mark_prev-IsInput : (st : Input F) → IsInput st → IsInput (ii_mark_prev st)
  unfolding ii_mark_prev
  ii_mark_prev-IsInput st h = record {
    start_end = h.start_end;
    end_next = h.end_next;
    next_text = h.next_text;
    text_buffer = h.text_buffer;
    prev_start = λ p e. ground (arith, e);
    fresh = h.fresh;
  }

  pub ii_term-IsInput : (st : Input F) → IsInput st → IsInput (ii_term st)
  unfolding ii_term
  ii_term-IsInput st h =
      same_text st (ii_term st) h refl refl refl (omega arith) h.start_end h.end_next h.next_text

  pub ii_unterm-IsInput : (st : Input F) → IsInput st → IsInput (ii_unterm st)
  unfolding ii_unterm
  ii_unterm-IsInput st h = elim (Bool-cases (st.termchar == 0)) [
    | inl e ↦ rw e h
    | inr e ↦ rw e (
        same_text st
          (record st { start_buf = write st.start_buf st.next st.termchar; termchar = 0 }) h refl
          refl refl (omega arith) h.start_end h.end_next h.next_text)
  ]

  -- The loop of `ii_pushback` goes back at most `n` characters and not past the start of the
  -- lexeme, and changes only the line number besides.
  pub record IsBack (st back : Input F) (n : ℕ) : Type 0 where
    pub end_buf : back.end_buf ≡ st.end_buf
    pub smark : back.smark ≡ st.smark
    pub emark : back.emark ≡ st.emark
    pub pmark : back.pmark ≡ st.pmark
    pub been_called : back.been_called ≡ st.been_called
    pub start_buf : back.start_buf ≡ st.start_buf
    pub next : back.next ≡ max st.smark (st.next - n)

  pub pushback_loop-IsBack :
      (n : ℕ) (st : Input F) → st.smark ≤ st.next → IsBack st (pushback_loop n st) n
  unfolding pushback_loop
  pushback_loop-IsBack zero st l = record {
    end_buf = refl;
    smark = refl;
    emark = refl;
    pmark = refl;
    been_called = refl;
    start_buf = refl;
    next = omega (arith, l);
  }
  pushback_loop-IsBack (suc n) st l = elim (Bool-cases (ltb st.smark st.next)) [
    | inl e ↦
        let ih = pushback_loop-IsBack n (step_back st) (unfold step_back in ground (arith, e)) in
        rw e (
          unfold step_back in
          record {
            end_buf = ih.end_buf;
            smark = ih.smark;
            emark = ih.emark;
            pmark = ih.pmark;
            been_called = ih.been_called;
            start_buf = ih.start_buf;
            next = ground (arith, e, ih.next);
          })
    | inr e ↦ rw e (record {
      end_buf = refl;
      smark = refl;
      emark = refl;
      pmark = refl;
      been_called = refl;
      start_buf = refl;
      next = ground (arith, l, e);
    })
  ]

  pub ii_pushback-IsInput : (n : ℕ) (st : Input F) → IsInput st → IsInput (ii_pushback n st).1
  unfolding ii_pushback
  ii_pushback-IsInput n st h =
      let back = pushback_loop n st in
      let b = pushback_loop-IsBack n st (omega (arith, h.start_end, h.end_next)) in
      let after : back.next ≤ back.end_buf =
        omega (arith, b.next, b.end_buf, h.next_text, h.start_end, h.end_next) in
      elim (Bool-cases (ltb back.next back.emark)) [
        | inl e ↦ rw e (
            same_text st (record back { emark = back.next; mline = back.lineno }) h b.end_buf
              b.pmark b.been_called (omega (arith, b.smark)) (omega (arith, b.smark, b.next))
              (omega arith) after)
        | inr e ↦ rw e (
            same_text st back h b.end_buf b.pmark b.been_called (omega (arith, b.smark))
              (omega (arith, b.smark, b.emark, h.start_end)) (ground (arith, e)) after)
      ]

  pub unput_char-IsInput : (c : ℕ) (st : Input F) → IsInput st → IsInput (unput_char c st)
  unfolding unput_char
  unput_char-IsInput c st h =
      let st' = (ii_pushback 1 st).1 in
      let h' = ii_pushback-IsInput 1 st h in
      elim (Bool-cases ((ii_pushback 1 st).0)) [
        | inl e ↦ rw e (
            same_text st' (record st' { start_buf = write st'.start_buf st'.next (c % 2 ^ 8) }) h'
              refl refl refl (omega arith) h'.start_end h'.end_next h'.next_text)
        | inr e ↦ rw e h'
      ]

  pub ii_unput-IsInput : (c : ℕ) (st : Input F) → IsInput st → IsInput (ii_unput c st)
  unfolding ii_unput
  ii_unput-IsInput c st h = elim (Bool-cases (st.termchar == 0)) [
    | inl e ↦ rw e (unput_char-IsInput c st h)
    | inr e ↦ rw e (
        ii_term-IsInput (unput_char c (ii_unterm st))
          (unput_char-IsInput c (ii_unterm st) (ii_unterm-IsInput st h)))
  ]

  -- The buffer has room for the newline.
  pub push_newline-IsInput :
      (st : Input F)
      → IsInput st
      → IsInput (push_newline st) × ((push_newline st).been_called ≡ true)
  unfolding push_newline
  push_newline-IsInput st h =
      if-cases (λ st'. IsInput st' × (st'.been_called ≡ true)) st.been_called _ _ (λ e. (h, e))
        (λ e.
          let text = h.fresh e in
          (
            record {
              start_end = omega arith;
              end_next = omega arith;
              next_text = omega (arith, text);
              text_buffer = h.text_buffer;
              prev_start = λ p q. absurd cc;
              fresh = λ q. text;
            },
            refl,
          ))

  -- `ii_advance` having been called stays known.
  pub ii_newfile-called :
      (f : Option F) (st : Input F) → (ii_newfile f st).been_called ≡ st.been_called
  unfolding ii_newfile
  ii_newfile-called none st = refl
  ii_newfile-called (some f) st = refl

  pub ii_move_start-called : (st : Input F) → (ii_move_start st).been_called ≡ st.been_called
  unfolding ii_move_start
  ii_move_start-called st =
      if-cases (λ (s : Input F). s.been_called ≡ st.been_called) (leb st.emark st.smark) _ _
        (λ e. refl) (λ e. refl)

  pub ii_move_back-called : (st : Input F) → (ii_move_back st).been_called ≡ st.been_called
  unfolding ii_move_back
  ii_move_back-called st = refl

  pub ii_pushback-called :
      (n : ℕ) (st : Input F) → IsInput st → (ii_pushback n st).1.been_called ≡ st.been_called
  unfolding ii_pushback
  ii_pushback-called n st h =
      let b = pushback_loop-IsBack n st (omega (arith, h.start_end, h.end_next)) in
      if-cases (λ (s : Input F). s.been_called ≡ st.been_called)
        (ltb (pushback_loop n st).next (pushback_loop n st).emark) _ _ (λ e. b.been_called)
        (λ e. b.been_called)

  ii_term-called : (st : Input F) → (ii_term st).been_called ≡ st.been_called
  unfolding ii_term
  ii_term-called st = refl

  pub ii_unterm-called : (st : Input F) → (ii_unterm st).been_called ≡ st.been_called
  unfolding ii_unterm
  ii_unterm-called st =
      if-cases (λ (s : Input F). s.been_called ≡ st.been_called) (st.termchar == 0) _ _ (λ e. refl)
        (λ e. refl)

  unput_char-called :
      (c : ℕ) (st : Input F) → IsInput st → (unput_char c st).been_called ≡ st.been_called
  unfolding unput_char
  unput_char-called c st h =
      if-cases (λ (s : Input F). s.been_called ≡ st.been_called) (ii_pushback 1 st).0 _ _
        (λ e. ii_pushback-called 1 st h) (λ e. ii_pushback-called 1 st h)

  pub ii_unput-called :
      (c : ℕ) (st : Input F) → IsInput st → (ii_unput c st).been_called ≡ st.been_called
  unfolding ii_unput
  ii_unput-called c st h =
      if-cases (λ (s : Input F). s.been_called ≡ st.been_called) (st.termchar == 0) _ _
        (λ e. unput_char-called c st h)
        (λ e.
          ii_term-called (unput_char c (ii_unterm st))
          ∙ (unput_char-called c (ii_unterm st) (ii_unterm-IsInput st h) ∙ ii_unterm-called st))

  -- After the first call there is no newline to be put there.
  pub push_newline-called : (st : Input F) → st.been_called ≡ true → push_newline st ≡ st
  unfolding push_newline
  push_newline-called st called = rw called refl
