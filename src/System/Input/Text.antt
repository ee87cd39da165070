-- ===== src/System/Input/Text.antt =====
-- The characters that `ii_advance` of compiler/lib/input.c returns are those of the file, and the
-- current lexeme stays in the buffer.
use cgkits.Prelude.{
  length, get_or, ℕ, zero, suc, ◌+◌, ◌-◌, ◌≤◌, ◌<◌, ◌≡◌, refl, sym, ap, ◌∙◌, ◌⊎◌, true, Option,
  none, some, List, [], ◌∷◌, ◌++◌, arith,
}
use cgkits.System.Input.{
  max_lexeme_len, Input, Advanced, char_read, no_chars, no_room, aborted, left_edge,
}
use cgkits.System.Input.Invariant.{IsInput}
use cgkits.System.Input.Flush.{IsRefilled}
use mathlib.Core.Path.{subst, ap₂}

-- `n` characters of the buffer from `p` on.
unfoldable pub slice : (ℕ → ℕ) → ℕ → ℕ → List ℕ
slice buf p zero = []
slice buf p (suc n) = buf p ∷ slice buf (p + 1) n

pub slice-ext :
    (buf buf' : ℕ → ℕ) (p p' n : ℕ)
    → ((q : ℕ) → q < n → buf (p + q) ≡ buf' (p' + q))
    → slice buf p n ≡ slice buf' p' n
unfolding slice
slice-ext buf buf' p p' zero h = refl
slice-ext buf buf' p p' (suc n) h =
    ap₂ (λ a b. a ∷ b) (first (h 0 (omega arith)))
      (slice-ext buf buf' (p + 1) (p' + 1) n (λ q l. later q (h (suc q) (omega (arith, l)))))
  where
    first : buf (p + 0) ≡ buf' (p' + 0) → buf p ≡ buf' p'
    first e = let a : p + 0 ≡ p = omega arith in let b : p' + 0 ≡ p' = omega arith in rw (a, b) at e

    later : (q : ℕ) → buf (p + suc q) ≡ buf' (p' + suc q) → buf (p + 1 + q) ≡ buf' (p' + 1 + q)
    later q e =
        let a : p + suc q ≡ p + 1 + q = omega arith in
        let b : p' + suc q ≡ p' + 1 + q = omega arith in rw (a, b) at e

slice-append :
    (buf : ℕ → ℕ) (p m n : ℕ) → slice buf p (m + n) ≡ slice buf p m ++ slice buf (p + m) n
unfolding slice
slice-append buf p zero n =
    let a : p + 0 ≡ p = omega arith in let b : 0 + n ≡ n = omega arith in rw (a, b) refl
slice-append buf p (suc m) n =
    let a : p + suc m ≡ p + 1 + m = omega arith in
    let b : suc m + n ≡ suc (m + n) = omega arith in
    rw (a, b) (ap (λ s. buf p ∷ s) (slice-append buf (p + 1) m n))

slice-list :
    (buf : ℕ → ℕ) (p : ℕ) (xs : List ℕ)
    → ((q : ℕ) → q < length xs → buf (p + q) ≡ get_or xs q 0)
    → slice buf p (length xs) ≡ xs
unfolding slice
slice-list buf p [] h = refl
slice-list buf p (x ∷ xs) h =
    ap₂ (λ a b. a ∷ b) (first (h 0 (omega arith)))
      (slice-list buf (p + 1) xs (λ q l. later q (h (suc q) (omega (arith, l)))))
  where
    first : buf (p + 0) ≡ x → buf p ≡ x
    first e = let a : p + 0 ≡ p = omega arith in rw a at e

    later : (q : ℕ) → buf (p + suc q) ≡ get_or xs q 0 → buf (p + 1 + q) ≡ get_or xs q 0
    later q e = let a : p + suc q ≡ p + 1 + q = omega arith in rw a at e

module _ {F : Type 0} where
  -- The characters that are in the buffer and not yet read, and the current lexeme.
  abbrev pub unread : Input F → List ℕ
  unread st = slice st.start_buf st.next (st.end_buf - st.next)

  abbrev pub lexeme : Input F → List ℕ
  lexeme st = slice st.start_buf st.smark (st.emark - st.smark)

  module _ (read : F → ℕ → Option (List ℕ) × F) (left : ℕ) (st st' : Input F) (h : IsInput st)
      (l : left ≤ st.smark) (r : IsRefilled read left st st') where
    kept_slice :
        (p n : ℕ)
        → left ≤ p
        → p + n ≤ st.end_buf
        → slice st'.start_buf (p - left) n ≡ slice st.start_buf p n
    kept_slice p n lp ln = slice-ext st'.start_buf st.start_buf (p - left) p n (λ q lq.
        subst (λ m. st'.start_buf (p - left + q) ≡ st.start_buf m) (there q)
          (r.moved (p - left + q) (omega (arith, lp, ln, lq))))
      where
        there : (q : ℕ) → left + (p - left + q) ≡ p + q
        there q = omega (arith, lp)

    pub refilled-lexeme : lexeme st' ≡ lexeme st
    refilled-lexeme =
        let size : st'.emark - st'.smark ≡ st.emark - st.smark =
          omega (arith, r.smark, r.emark, l, h.start_end) in
        rw (size, r.smark)
          (kept_slice st.smark (st.emark - st.smark) l
            (omega (arith, h.start_end, h.end_next, h.next_text)))

    pub refilled-unread : unread st' ≡ unread st ++ r.chars
    refilled-unread =
        let size : st'.end_buf - st'.next ≡ (st.end_buf - st.next) + length r.chars =
          omega (arith, r.next, r.end_buf, l, h.start_end, h.end_next, h.next_text) in
        let behind : st.next - left + (st.end_buf - st.next) ≡ st.end_buf - left =
          omega (arith, l, h.start_end, h.end_next, h.next_text) in
        let old =
          kept_slice st.next (st.end_buf - st.next) (omega (arith, l, h.start_end, h.end_next))
            (omega (arith, h.next_text)) in
        let new = slice-list st'.start_buf (st.end_buf - left) r.chars r.filled in
        rw (size, r.next)
          (slice-append st'.start_buf (st.next - left) (st.end_buf - st.next) (length r.chars)
            ∙ ap₂ (λ a b. a ++ b) old
                (subst (λ m. slice st'.start_buf m (length r.chars) ≡ r.chars) (sym behind) new))

  -- `read` returns the characters of the file in their order: `rest` is what is left of it.
  abbrev pub IsStream : (F → ℕ → Option (List ℕ) × F) → (F → List ℕ) → Type 0
  IsStream read rest =
      (f f' : F) (n : ℕ) (chars : List ℕ) → read f n ≡ (some chars, f') → rest f ≡ chars ++ rest f'

  -- A character is the first of the unread text and the rest of the file, and the lexeme is still in
  -- the buffer; without a character, the text is at its end, or the lexeme takes up too much of the
  -- buffer; the program is stopped where `read` fails or returns nothing.
  abbrev pub Advances :
      (F → ℕ → Option (List ℕ) × F) → (F → List ℕ) → Input F → Advanced × Input F → Type 0
  Advances read rest st (char_read c, st') =
      (unread st ++ rest st.input_file ≡ c ∷ unread st' ++ rest st'.input_file)
      × (lexeme st' ≡ lexeme st)
  Advances read rest st (no_chars, st') = (st' ≡ st) × (unread st ≡ []) × (st.eof_read ≡ true)
  Advances read rest st (no_room, st') = (st' ≡ st) × (left_edge st < max_lexeme_len)
  Advances read rest st (aborted, st') =
      (n : ℕ) × ((0 < n)
        × (((read st.input_file n).0 ≡ none) ⊎ ((read st.input_file n).0 ≡ some [])))
