-- ===== src/System/Input/Flush.antt =====
-- `ii_flush` of compiler/lib/input.c, for a `read` that returns at most as many characters as it is
-- asked for.
use cgkits.Prelude.{
  ltb, leb, ◌==◌, ==_iff, Bool-cases, if-cases, length, get_or, ℕ, ◌+◌, ◌-◌, ◌*◌, ◌/◌, ◌≤◌, ◌<◌,
  min, ◌≡◌, refl, sym, ap, ◌∙◌, ◌⊎◌, inl, inr, Bool, true, false, not, ◌||◌, Option, none, some,
  List, [], ◌∷◌, arith,
}
use cgkits.System.Input.{
  max_lookahead, max_lexeme_len, buf_size, Input, Flushed, ready, at_end, too_full, stopped,
  move_down, fill, ii_mark_start, ii_mark_prev, no_more_chars, left_edge,
}
use cgkits.System.Input.Invariant.{IsInput, ii_mark_start-IsInput, ii_mark_prev-IsInput}
use cgkits.System.Input.Read.{after_read, after_fill, ii_fillbuf, refill, ii_flush}

shifted_pmark :
    (m : Option ℕ) (left p : ℕ)
    → elim m [ none ↦ none | some q ↦ some (q - left) ] ≡ some p
    → (q : ℕ) × ((m ≡ some q) × (p ≡ q - left))
shifted_pmark none left p e = absurd cc
shifted_pmark (some q) left p e = (q, (refl, ground (arith, e)))

filled_at :
    (buf : ℕ → ℕ) (left n : ℕ) (chars : List ℕ) (q : ℕ)
    → q < length chars
    → fill (move_down buf left n) n chars (n + q) ≡ get_or chars q 0
filled_at buf left n chars q l =
    let low : leb n (n + q) ≡ true = ground arith in
    let high : ltb (n + q) (n + length chars) ≡ true = ground (arith, l) in
    let back : n + q - n ≡ q = omega arith in rw (low, high, back) refl

-- What is documented of `read`.
abbrev pub IsRead : {F : Type 0} → (F → ℕ → Option (List ℕ) × F) → Type 0
IsRead {F} read =
    (f f' : F) (n : ℕ) (chars : List ℕ) → read f n ≡ (some chars, f') → length chars ≤ n

module _ {F : Type 0} (read : F → ℕ → Option (List ℕ) × F) where
  -- The state `st'` after the text from `left` on has been moved to the start of the buffer and
  -- `chars` have been read behind it.
  pub record IsRefilled (left : ℕ) (st st' : Input F) : Type 0 where
    pub chars : List ℕ
    pub need : ℕ
    pub got : read st.input_file need ≡ (some chars, st'.input_file)
    pub some_chars : 0 < length chars
    pub fits : st.end_buf - left + need ≤ buf_size
    pub end_buf : st'.end_buf ≡ st.end_buf - left + length chars
    pub smark : st'.smark ≡ st.smark - left
    pub emark : st'.emark ≡ st.emark - left
    pub next : st'.next ≡ st.next - left
    pub pmark : (p : ℕ) → st'.pmark ≡ some p → (q : ℕ) × ((st.pmark ≡ some q) × (p ≡ q - left))
    pub been_called : st'.been_called ≡ st.been_called
    pub lineno : st'.lineno ≡ st.lineno
    pub termchar : st'.termchar ≡ st.termchar
    pub moved : (q : ℕ) → q < st.end_buf - left → st'.start_buf q ≡ st.start_buf (left + q)
    pub filled :
        (q : ℕ) → q < length chars → st'.start_buf (st.end_buf - left + q) ≡ get_or chars q 0

  -- How many characters `ii_fillbuf` asks for when the text from `left` on is kept.
  abbrev pub asked : ℕ → Input F → ℕ
  asked left st = (buf_size - (st.end_buf - left)) / max_lexeme_len * max_lexeme_len

  -- The program is stopped: there is no room for a read, it fails, or it returns no characters.
  abbrev pub Stops : ℕ → Input F → Type 0
  Stops left st =
      (asked left st ≡ 0)
      ⊎ (((read st.input_file (asked left st)).0 ≡ none)
          ⊎ ((read st.input_file (asked left st)).0 ≡ some []))

  -- What `refill` does.
  abbrev pub Refills : ℕ → Input F → Flushed × Input F → Type 0
  Refills left st r =
      ((r.0 ≡ stopped) × Stops left st)
      ⊎ ((st' : Input F) × ((r ≡ (ready, st')) × IsRefilled left st st'))

  module _ (left : ℕ) (st : Input F) (h : IsInput st) where
    abbrev below : Input F
    below = record st { start_buf = move_down st.start_buf left (st.end_buf - left) }

    read_cases :
        (r : Option (List ℕ) × F)
        → read st.input_file (asked left st) ≡ r
        → Refills left st (after_fill left (after_read (st.end_buf - left) (asked left st) below r))
    read_cases (none, file) e = inl (refl, inr (inl (ap (λ p. p.0) e)))
    read_cases (some [], file) e = inl (refl, inr (inr (ap (λ p. p.0) e)))
    read_cases (some (c ∷ chars), file) e = inr (
      _,
      (
        refl,
        record {
          chars = c ∷ chars;
          need = asked left st;
          got = e;
          some_chars = omega arith;
          fits = omega (arith, h.text_buffer);
          end_buf = refl;
          smark = refl;
          emark = refl;
          next = refl;
          pmark = λ p g. shifted_pmark st.pmark left p g;
          been_called = refl;
          lineno = refl;
          termchar = refl;
          moved = λ q lq. ground (arith, lq);
          filled = λ q lq. filled_at st.start_buf left (st.end_buf - left) (c ∷ chars) q lq;
        },
      ),
    )

    pub refill-Refills : Refills left st (refill read left st)
    unfolding refill ii_fillbuf
    refill-Refills = elim (Bool-cases (leb (buf_size + max_lexeme_len) (st.end_buf - left))) [
      | inl e ↦ absurd (ground (arith, e, h.text_buffer))
      | inr e ↦ rw e (elim (Bool-cases (asked left st == 0)) [
        | inl f ↦ rw f (inl (refl, inl ((==_iff _ _).0 f)))
        | inr f ↦ rw f (read_cases (read st.input_file (asked left st)) refl)
      ])
    ]

  -- The pointers keep their order.
  pub refilled-IsInput :
      (left : ℕ) (st st' : Input F)
      → IsRead read
      → IsInput st
      → left ≤ st.smark
      → st.been_called ≡ true
      → IsRefilled left st st'
      → IsInput st'
  refilled-IsInput left st st' ok h l called r = record {
    start_end = omega (arith, r.smark, r.emark, h.start_end);
    end_next = omega (arith, r.emark, r.next, h.end_next);
    next_text = omega (arith, r.next, r.end_buf, h.next_text);
    text_buffer =
        omega (arith, r.end_buf, r.fits, ok st.input_file st'.input_file r.need r.chars r.got);
    prev_start = λ p e. let (q, g) = r.pmark p e in omega (arith, g.1, r.smark, h.prev_start q g.0);
    fresh = λ e. absurd (clash (sym (r.been_called ∙ called) ∙ e));
  }
    where
      clash : true ≡ false → ⊥
      clash e = cc

  -- The state from which `ii_flush` moves text: as it is, or with the marks set anew.
  abbrev pub marked : Input F → Input F
  marked st = ii_mark_prev (ii_mark_start st)

  pub marked-IsInput : (st : Input F) → IsInput st → IsInput (marked st)
  marked-IsInput st h = ii_mark_prev-IsInput (ii_mark_start st) (ii_mark_start-IsInput st h)

  pub left_edge-smark : (st : Input F) → left_edge st ≤ st.smark
  left_edge-smark st = edge st.pmark
    where
      edge : (m : Option ℕ) → elim m [ none ↦ st.smark | some p ↦ min st.smark p ] ≤ st.smark
      edge none = omega arith
      edge (some p) = omega arith

  -- What `ii_flush` does.
  abbrev pub Flushes : Bool → Input F → Flushed × Input F → Type 0
  Flushes force st r =
      ((r ≡ (at_end, st)) × (no_more_chars st ≡ true))
      ⊎ ((r ≡ (ready, st)) × (st.next < st.end_buf))
      ⊎ ((r ≡ (too_full, st)) × (force ≡ false) × (left_edge st < max_lexeme_len))
      ⊎ ((max_lexeme_len ≤ left_edge st) × Refills (left_edge st) st r)
      ⊎ ((force ≡ true) × (left_edge st < max_lexeme_len) × Refills st.next (marked st) r)

  pub ii_flush-Flushes :
      (force : Bool) (st : Input F) → IsInput st → Flushes force st (ii_flush read force st)
  unfolding ii_flush
  ii_flush-Flushes force st h =
      if-cases (Flushes force st) (no_more_chars st) _ _ (λ e. inl (refl, e))
        (λ e.
          if-cases (Flushes force st) st.eof_read _ _ (λ f. inr (inl (refl, ground (arith, e, f))))
            (λ f.
              if-cases (Flushes force st) (not (leb st.end_buf (st.next + max_lookahead) || force))
                _ _ (λ g. inr (inl (refl, ground (arith, g))))
                (λ g.
                  if-cases (Flushes force st) (not (ltb (left_edge st) max_lexeme_len)) _ _
                    (λ k.
                      inr (inr (inr (inl (ground (arith, k), refill-Refills (left_edge st) st h)))))
                    (λ k.
                      if-cases (Flushes force st) force _ _
                        (λ m. inr (
                          inr (
                            inr (
                              inr (
                                m,
                                ground (arith, k),
                                refill-Refills st.next (marked st) (marked-IsInput st h),
                              )))))
                        (λ m. inr (inr (inl (refl, m, ground (arith, k)))))))))

  module _ (ok : IsRead read) (force : Bool) (st : Input F) (h : IsInput st)
      (called : st.been_called ≡ true) where
    -- A flush that does not stop the program.
    abbrev Kept : Flushed × Input F → Type 0
    Kept r = IsInput r.1 × (r.1.been_called ≡ true)

    kept-Refills :
        (left : ℕ) (base : Input F) (r : Flushed × Input F)
        → IsInput base
        → base.been_called ≡ true
        → left ≤ base.smark
        → Refills left base r
        → (r.0 ≡ stopped) ⊎ Kept r
    kept-Refills left base r b c l (inl (e, s)) = inl e
    kept-Refills left base r b c l (inr (st', (e, f))) =
        inr (rw e (refilled-IsInput left base st' ok b l c f, f.been_called ∙ c))

    kept : (r : Flushed × Input F) → Flushes force st r → (r.0 ≡ stopped) ⊎ Kept r
    unfolding ii_mark_start ii_mark_prev
    kept r (inl (e, f)) = inr (rw e (h, called))
    kept r (inr (inl (e, f))) = inr (rw e (h, called))
    kept r (inr (inr (inl (e, f, g)))) = inr (rw e (h, called))
    kept r (inr (inr (inr (inl (e, f))))) =
        kept-Refills (left_edge st) st r h called (left_edge-smark st) f
    kept r (inr (inr (inr (inr (e, l, f))))) =
        kept-Refills st.next (marked st) r (marked-IsInput st h) called (omega arith) f

    pub ii_flush-IsInput :
        ((ii_flush read force st).0 ≡ stopped)
        ⊎ (IsInput (ii_flush read force st).1 × ((ii_flush read force st).1.been_called ≡ true))
    ii_flush-IsInput = kept (ii_flush read force st) (ii_flush-Flushes force st h)
