-- ===== src/Hash.antt =====
-- compiler/lib/hash.c and include/hash.h: hash tables whose chains of buckets are linked both ways.
-- A bucket, and the symbol behind it, is a number; the fields of all buckets are functions of it. A
-- pointer to a pointer to a bucket is the place that it points to. `fp_hash` and `fp_cmp` are
-- parameters; a comparison is true where it returns 0. `hash_free_tab` and `hash_free_sym` only
-- call the allocator.
pub mod Chain
pub mod Unlink
pub mod Link
pub mod Table
pub mod Pjw
use cgkits.Prelude.{
  ◌==◌, if◌then◌else◌, ℕ, zero, suc, ◌+◌, ◌-◌, ◌*◌, ◌/◌, ◌%◌, ◌^◌, sym, Bool, Option, none, some,
  List, [], ◌∷◌, ◌++◌,
}
use cgkits.Bits.{bit_and, bit_xor}

-- `hash_add`: the sum of the characters.
pub hash_add_from : ℕ → List ℕ → ℕ
hash_add_from h [] = h
hash_add_from h (c ∷ name) = hash_add_from ((h + c) % 2 ^ 32) name

pub hash_add : List ℕ → ℕ
unfolding hash_add_from
hash_add name = hash_add_from 0 name

-- `_HIGH_BITS` and its complement.
abbrev pub high_bits : ℕ
high_bits = 4026531840

abbrev pub low_bits : ℕ
low_bits = 268435455

-- One round of `hash_pjw`.
unfoldable pub pjw_step : ℕ → ℕ → ℕ
pjw_step h c =
    let h' = (h * 2 ^ 4 % 2 ^ 32 + c) % 2 ^ 32 in
    let g = bit_and h' high_bits in
    if g == 0 then h' else bit_and (bit_xor h' (g / 2 ^ 24)) low_bits

pub pjw_from : ℕ → List ℕ → ℕ
unfolding pjw_step
pjw_from h [] = h
pjw_from h (c ∷ name) = pjw_from (pjw_step h c) name

pub hash_pjw : List ℕ → ℕ
unfolding pjw_from
hash_pjw name = pjw_from 0 name

-- Where a pointer to a bucket is kept: in the table, or in the `next` of a bucket.
pub data Place : Type 0 where
  slot : ℕ → Place
  next_of : ℕ → Place

pub record HashTab : Type 0 where
  pub max_size : ℕ
  pub curr_num : ℕ
  pub table : ℕ → Option ℕ
  pub next : ℕ → Option ℕ
  pub prev : ℕ → Place

-- `hash_make_tab`; the allocator clears the memory. The buckets stay as they are.
pub hash_make_tab : ℕ → (ℕ → Option ℕ) → (ℕ → Place) → HashTab
hash_make_tab max_sym next prev = record {
  max_size = if max_sym == 0 then 1024 else max_sym;
  curr_num = 0;
  table = λ i. none;
  next = next;
  prev = prev;
}

abbrev pub update : {A : Type 0} → (ℕ → A) → ℕ → A → ℕ → A
update f a v b = if a == b then v else f b

-- `*p` and `*p = v`.
abbrev pub load : HashTab → Place → Option ℕ
load t (slot i) = t.table i
load t (next_of a) = t.next a

abbrev pub store : HashTab → Place → Option ℕ → HashTab
store t (slot i) v = record t { table = update t.table i v }
store t (next_of a) v = record t { next = update t.next a v }

-- `if(b) b->prev = p`.
abbrev pub set_prev : HashTab → Option ℕ → Place → HashTab
set_prev t none p = t
set_prev t (some b) p = record t { prev = update t.prev b p }

-- `hash_del_sym`, but for the count.
unfoldable pub unlink : ℕ → HashTab → HashTab
unlink sym t = set_prev (store t (t.prev sym) (t.next sym)) (t.next sym) (t.prev sym)

pub hash_del_sym : ℕ → HashTab → HashTab
unfolding unlink
hash_del_sym sym t = unlink sym (record t { curr_num = (t.curr_num + 2 ^ 32 - 1) % 2 ^ 32 })

-- `hash_add_sym`, but for the count.
unfoldable pub link : ℕ → ℕ → HashTab → HashTab
link i sym t =
    set_prev
      (record t {
        table = update t.table i (some sym);
        prev = update t.prev sym (slot i);
        next = update t.next sym (t.table i);
      })
      (t.table i) (next_of sym)

module _ (same : ℕ → ℕ → Bool) where
  -- The loop of `hash_find_sym`; the fuel bounds the length of the chain.
  pub find_loop : ℕ → HashTab → ℕ → Option ℕ → Option ℕ
  find_loop zero t sym p = none
  find_loop (suc fuel) t sym none = none
  find_loop (suc fuel) t sym (some b) =
      let rest = find_loop fuel t sym (t.next b) in if same sym b then some b else rest

  -- The loop of `hash_next_sym`, which compares each bucket with the one behind it.
  pub hash_next_sym : ℕ → HashTab → ℕ → Option ℕ
  hash_next_sym zero t last = none
  hash_next_sym (suc fuel) t last = elim (t.next last) [
    | none ↦ none
    | some b ↦ let rest = hash_next_sym fuel t b in if same last b then some b else rest
  ]

module _ (fp_hash : ℕ → ℕ) where
  -- The bucket of a symbol.
  abbrev pub home : HashTab → ℕ → ℕ
  home t sym = fp_hash sym % t.max_size

  pub hash_add_sym : ℕ → HashTab → HashTab
  unfolding link
  hash_add_sym sym t =
      let linked = link (home t sym) sym t in
      record linked { curr_num = (linked.curr_num + 1) % 2 ^ 32 }

  pub hash_find_sym : (ℕ → ℕ → Bool) → ℕ → HashTab → ℕ → Option ℕ
  unfolding find_loop
  hash_find_sym same fuel t sym = find_loop same fuel t sym (t.table (home t sym))

-- `hash_print_tab` without sorting: the symbols in the order in which they are printed.
pub chain_from : ℕ → HashTab → Option ℕ → List ℕ
chain_from zero t p = []
chain_from (suc fuel) t none = []
chain_from (suc fuel) t (some b) = b ∷ chain_from fuel t (t.next b)

pub print_from : ℕ → HashTab → ℕ → ℕ → List ℕ
unfolding chain_from
print_from fuel t i zero = []
print_from fuel t i (suc size) = chain_from fuel t (t.table i) ++ print_from fuel t (i + 1) size

pub hash_print_tab : ℕ → HashTab → List ℕ
unfolding print_from
hash_print_tab fuel t = print_from fuel t 0 t.max_size
