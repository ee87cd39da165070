-- ===== src/Set/Frame.antt =====
-- What the operations on one element leave alone.
use cgkits.Prelude.{leb, Bool-cases, Option-cases, ℕ, ◌≡◌, refl, inl, inr}
use cgkits.Set.{SetS, store, clear_bit, remove}

-- Neither `nbits` nor `compl` changes when an element is removed.
pub frame-remove :
    (s : SetS) (y : ℕ) → ((remove s y).nbits ≡ s.nbits) × ((remove s y).compl ≡ s.compl)
unfolding remove clear_bit store
frame-remove s y = elim (Bool-cases (leb s.nbits y)) [
  | inl e ↦ rw e (refl, refl)
  | inr e ↦ elim (Option-cases s.heap) [
    | inl h ↦ rw (e, h) (refl, refl)
    | inr (ws, h) ↦ rw (e, h) (refl, refl)
  ]
]
