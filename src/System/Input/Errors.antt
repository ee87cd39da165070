-- ===== src/System/Input/Errors.antt =====
-- Two cases that compiler/lib/input.c does not handle: `read` at the end of the file, and
-- `ii_unput` at the start of a lexeme.
use mathlib.Core.Path.{subst, ap₂}
use cgkits.Prelude.{
  ltb, leb, ◌==◌, if-cases, length, ℕ, suc, ◌+◌, ◌-◌, ◌%◌, ◌^◌, ◌≤◌, ◌<◌, ◌≡◌, refl, sym, ap, ◌∙◌,
  inl, inr, Bool, true, false, not, ◌||◌, Option, some, List, [], ◌∷◌, arith,
}
use cgkits.System.Input.{
  max_lookahead, max_lexeme_len, Input, Flushed, ready, at_end, too_full, stopped, Advanced,
  aborted, write, no_more_chars, left_edge, pushback_loop, ii_pushback, unput_char, ii_unput,
}
use cgkits.System.Input.Invariant.{IsInput, pushback_loop-IsBack, push_newline-called}
use cgkits.System.Input.Flush.{refill-Refills}
use cgkits.System.Input.Text.{slice, slice-ext, unread}
use cgkits.System.Input.Read.{after_flush, refill, ii_flush, advance_from, ii_advance}

module _ {F : Type 0} (read : F → ℕ → Option (List ℕ) × F) where
  refill-empty :
      (left : ℕ) (st : Input F)
      → IsInput st
      → ((n : ℕ) → (read st.input_file n).0 ≡ some [])
      → (refill read left st).0 ≡ stopped
  refill-empty left st h empty = elim (refill-Refills read left st h) [
    | inl (e, s) ↦ e
    | inr (st', (e, f)) ↦
        absurd (some_chars-nonempty f.chars (sym (empty f.need) ∙ ap (λ p. p.0) f.got) f.some_chars)
  ]
    where
      some_chars-nonempty : (chars : List ℕ) → some [] ≡ some chars → 0 < length chars → ⊥
      some_chars-nonempty [] e l = omega arith
      some_chars-nonempty (c ∷ chars) e l = cc

  stopped-after_flush : (r : Flushed × Input F) → r.0 ≡ stopped → (after_flush r).0 ≡ aborted
  stopped-after_flush (stopped, st) e = refl
  stopped-after_flush (ready, st) e = absurd cc
  stopped-after_flush (at_end, st) e = absurd cc
  stopped-after_flush (too_full, st) e = absurd cc

  -- After the first call, when the end of the file is not known yet and the next character is
  -- within `MAX_LOOKAHEAD` of the end of the text, with room for the lexemes that are kept: if the
  -- file has no more characters, so that `read` returns 0, `ii_advance` does not return the
  -- characters that are still in the buffer nor 0, but stops the program with an error.
  pub ii_advance-empty_read :
      (st : Input F)
      → IsInput st
      → st.been_called ≡ true
      → st.eof_read ≡ false
      → st.end_buf ≤ st.next + max_lookahead
      → max_lexeme_len ≤ left_edge st
      → ((n : ℕ) → (read st.input_file n).0 ≡ some [])
      → (ii_advance read st).0 ≡ aborted
  unfolding ii_advance advance_from ii_flush
  ii_advance-empty_read st h called more near far empty =
      subst (λ s. (advance_from read s).0 ≡ aborted) (sym (push_newline-called st called))
        (if-cases P (no_more_chars st) _ _ (λ e. absurd (ground (arith, e, more)))
          (λ e.
            if-cases P st.eof_read _ _ (λ f. absurd (ground (arith, f, more)))
              (λ f. stopped-after_flush (ii_flush read false st) (
                if-cases Q (no_more_chars st) _ _ (λ g. absurd (ground (arith, g, more)))
                  (λ g.
                    if-cases Q st.eof_read _ _ (λ g. absurd (ground (arith, g, more)))
                      (λ g.
                        if-cases Q (not (leb st.end_buf (st.next + max_lookahead) || false)) _ _
                          (λ k. absurd (ground (arith, k, near)))
                          (λ k.
                            if-cases Q (not (ltb (left_edge st) max_lexeme_len)) _ _
                              (λ m. refill-empty (left_edge st) st h empty)
                              (λ m. absurd (ground (arith, m, far))))))))))
    where
      P : Advanced × Input F → Type 0
      P r = r.0 ≡ aborted

      Q : Flushed × Input F → Type 0
      Q r = r.0 ≡ stopped

module _ {F : Type 0} where
  -- One character back in a lexeme.
  record IsBackOne (st : Input F) (r : Bool × Input F) : Type 0 where
    room : r.0 ≡ ltb st.smark (st.next - 1)
    next : r.1.next ≡ st.next - 1
    end_buf : r.1.end_buf ≡ st.end_buf
    start_buf : r.1.start_buf ≡ st.start_buf

  ii_pushback-IsBackOne :
      (st : Input F) → IsInput st → st.smark < st.next → IsBackOne st (ii_pushback 1 st)
  unfolding ii_pushback
  ii_pushback-IsBackOne st h l =
      let b = pushback_loop-IsBack 1 st (omega (arith, l)) in
      let back : (pushback_loop 1 st).next ≡ st.next - 1 = omega (arith, b.next, l) in
      if-cases (λ (s : Input F). IsBackOne st (ltb s.smark s.next, s))
        (ltb (pushback_loop 1 st).next (pushback_loop 1 st).emark) _ _
        (λ e. record {
          room = ap₂ ltb b.smark back;
          next = back;
          end_buf = b.end_buf;
          start_buf = b.start_buf;
        })
        (λ e. record {
          room = ap₂ ltb b.smark back;
          next = back;
          end_buf = b.end_buf;
          start_buf = b.start_buf;
        })

  -- The unread text when the next character is one further back and has been overwritten.
  slice-written :
      (st : Input F) (buf : ℕ → ℕ) (c : ℕ)
      → 0 < st.next
      → st.next ≤ st.end_buf
      → buf (st.next - 1) ≡ c
      → ((q : ℕ) → st.next ≤ q → buf q ≡ st.start_buf q)
      → slice buf (st.next - 1) (st.end_buf - (st.next - 1)) ≡ c ∷ unread st
  unfolding slice
  slice-written st buf c pos l e same =
      let size : st.end_buf - (st.next - 1) ≡ suc (st.end_buf - st.next) = omega (arith, pos, l) in
      let again : st.next - 1 + 1 ≡ st.next = omega (arith, pos) in
      rw (size, e, again)
        (ap (λ s. c ∷ s)
          (slice-ext buf st.start_buf st.next st.next (st.end_buf - st.next)
            (λ q k. same (st.next + q) (omega arith))))

  unput_char-unread :
      (c : ℕ) (st : Input F)
      → IsInput st
      → (st.smark + 1 < st.next → unread (unput_char c st) ≡ c % 2 ^ 8 ∷ unread st)
        × (st.smark + 1 ≡ st.next
            → unread (unput_char c st) ≡ st.start_buf (st.next - 1) ∷ unread st)
  unfolding unput_char
  unput_char-unread c st h = (
    λ l.
        let back : Input F = (ii_pushback 1 st).1 in
        let written : Input F = record back {
          start_buf = write back.start_buf back.next (c % 2 ^ 8);
        } in
        let b = ii_pushback-IsBackOne st h (omega (arith, l)) in
        if-cases (λ s. unread s ≡ c % 2 ^ 8 ∷ unread st) (ii_pushback 1 st).0 written back
          (λ e.
            rw (b.next, b.end_buf, b.start_buf)
              (slice-written st (write st.start_buf (st.next - 1) (c % 2 ^ 8)) (c % 2 ^ 8)
                (omega (arith, l)) h.next_text (ground arith) (λ q k. ground (arith, l, k))))
          (λ e. absurd (clash (b.room ∙ ground (arith, l)) e)),
    λ l.
        let back : Input F = (ii_pushback 1 st).1 in
        let written : Input F = record back {
          start_buf = write back.start_buf back.next (c % 2 ^ 8);
        } in
        let b = ii_pushback-IsBackOne st h (omega (arith, l)) in
        if-cases (λ s. unread s ≡ st.start_buf (st.next - 1) ∷ unread st) (ii_pushback 1 st).0
          written back (λ e. absurd (clash e (b.room ∙ ground (arith, l))))
          (λ e.
            rw (b.next, b.end_buf, b.start_buf)
              (slice-written st st.start_buf (st.start_buf (st.next - 1)) (omega (arith, l))
                h.next_text refl (λ q k. refl))),
  )
    where
      clash : {b : Bool} → b ≡ true → b ≡ false → ⊥
      clash e e' = cc

  -- `ii_unput` where no text is terminated.
  ii_unput-plain : (c : ℕ) (st : Input F) → st.termchar ≡ 0 → ii_unput c st ≡ unput_char c st
  unfolding ii_unput
  ii_unput-plain c st e =
      if-cases (λ s. s ≡ unput_char c st) (st.termchar == 0) _ _ (λ f. refl)
        (λ f. absurd (ground (arith, e, f)))

  -- When no terminated text is in use, `ii_unput` puts the low eight bits of its argument before the
  -- unread text if the lexeme has at least two characters up to there. If it has just one, the
  -- character that was read comes back whatever character was to be put there.
  pub ii_unput-unread :
      (c : ℕ) (st : Input F)
      → IsInput st
      → st.termchar ≡ 0
      → (st.smark + 1 < st.next → unread (ii_unput c st) ≡ c % 2 ^ 8 ∷ unread st)
        × (st.smark + 1 ≡ st.next → unread (ii_unput c st) ≡ st.start_buf (st.next - 1) ∷ unread st)
  ii_unput-unread c st h e =
      subst
        (λ s.
          (st.smark + 1 < st.next → unread s ≡ c % 2 ^ 8 ∷ unread st)
          × (st.smark + 1 ≡ st.next → unread s ≡ st.start_buf (st.next - 1) ∷ unread st))
        (sym (ii_unput-plain c st e)) (unput_char-unread c st h)
