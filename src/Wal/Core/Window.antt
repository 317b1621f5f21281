-- ===== src/Wal/Core/Window.antt =====
-- core.cpp: what it means that the log stands for a history of payloads, and the storing of one more.
use ll_exp.Prelude.{
  ℕ, ◌+◌, ◌*◌, ◌%◌, ◌^◌, ◌≤◌, ◌<◌, ◌≡◌, ◌≢◌, refl, sym, ap, ◌∙◌, arith, true, List, [], ◌∷◌, ◌++◌,
  ◌⊎◌, inl, inr, ◌==◌, if◌then◌else◌, length, get_or, length-append, get_or-append_left,
  get_or-append_last, mod_apart, Bool-cases,
}
use native.Mathlib.Nat.{mod-add-mod, mod-eq_of_lt, mod-lt}
use native.Mathlib.Decide.{dec_lt}
use ll_exp.Wal.Bytes.{copy_to, span_at, length-copy_to, span_at-copy_to, span_at-copy_to_apart}
use ll_exp.Wal.Core.{WalCore, u64_mod, next_slot, block_at, store_record}

-- The log `w` stands for the payloads `history`, oldest first: the head is their number, and each
-- of those from the tail on stands in the slot that its position gives.
pub record Models (w : WalCore) (history : List (List ℕ)) : Type 0 where
  pub running : w.is_open ≡ true
  pub head : w.head ≡ length history
  pub ordered : w.tail ≤ w.head
  pub bounded : w.head ≤ w.tail + w.slots
  pub room : 0 < w.slots
  pub small : w.slots < 2 ^ 32
  pub same_slots : w.slots ≡ w.config.capacity
  pub same_size : w.block_size ≡ w.config.payload_size
  pub turn : w.head_slot ≡ w.head % w.slots
  pub wide : w.block_size ≤ w.stride
  pub memory : w.slots * w.stride ≤ length w.memory
  pub numbered : w.head + w.config.first_sequence ≤ u64_mod
  pub first : 0 < w.config.first_sequence
  pub word : w.config.first_sequence < u64_mod
  pub contents : (p : ℕ) → w.tail ≤ p → p < w.head → block_at w (p % w.slots) ≡ get_or history p []

self_mod : (c : ℕ) → 0 < c → c % c ≡ 0
self_mod c pos = grind arith

mod_next : (h c : ℕ) → 0 < c → (if h % c + 1 == c then 0 else h % c + 1) ≡ (h + 1) % c
mod_next h c pos =
    let step : (h % c + 1) % c ≡ (h + 1) % c = mod-add-mod h c 1 in
    let full_turn : (h % c + 1 == c) ≡ true → h % c + 1 ≡ c = λ e. ground arith in
    elim (Bool-cases (h % c + 1 == c)) [
      | inl wrap ↦ rw wrap (sym (sym step ∙ ap (λ k. k % c) (full_turn wrap) ∙ self_mod c pos))
      | inr within ↦ rw within (rw (← step) (sym (mod-eq_of_lt (ground arith))))
    ]

block_below : (i j stride : ℕ) → i < j → i * stride + stride ≤ j * stride
block_below i j stride lt = grind arith

-- Blocks of different slots do not meet, and each lies within the memory.
blocks_apart :
    (i j stride size : ℕ)
    → i ≢ j
    → size ≤ stride
    → (i * stride + size ≤ j * stride) ⊎ (j * stride + size ≤ i * stride)
blocks_apart i j stride size ne le = elim (dec_lt i j) [
  | yes lt ↦ inl (omega (arith, block_below i j stride lt))
  | no ge ↦ inr (omega (arith, block_below j i stride (omega arith)))
]

block_within :
    (i slots stride size total : ℕ)
    → i < slots
    → size ≤ stride
    → slots * stride ≤ total
    → i * stride + size ≤ total
block_within i slots stride size total lt le fits = grind arith

-- The log as `try_publish` leaves it, when there is room.
module _ (w : WalCore) (history : List (List ℕ)) (v : Models w history) (payload : List ℕ)
    (exact : length payload ≡ w.config.payload_size) (vacant : w.head < w.tail + w.slots)
    (fresh : w.head + w.config.first_sequence < u64_mod) where
  head_small : (w.head + 1) % u64_mod ≡ w.head + 1
  head_small = omega (arith, v.first)

  block_length : length payload ≡ w.block_size
  block_length = exact ∙ sym v.same_size

  -- The new record is read back from its slot.
  newest_block : block_at (store_record w payload) w.head_slot ≡ payload
  unfolding block_at store_record
  newest_block =
      let slot : w.head_slot < w.slots = rw v.turn (mod-lt w.head v.room) in
      let fits =
        block_within w.head_slot w.slots w.stride w.block_size (length w.memory) slot v.wide
          v.memory in
      ap
        (λ n.
          span_at (copy_to w.memory (w.head_slot * w.stride) payload) (w.head_slot * w.stride) n)
        (sym block_length)
      ∙ span_at-copy_to w.memory (w.head_slot * w.stride) payload (rw block_length fits)

  -- Every other slot keeps its block.
  other_block :
      (slot : ℕ) → slot ≢ w.head_slot → block_at (store_record w payload) slot ≡ block_at w slot
  unfolding block_at store_record
  other_block slot ne =
      let apart = blocks_apart slot w.head_slot w.stride w.block_size ne v.wide in
      span_at-copy_to_apart w.memory (w.head_slot * w.stride) payload (slot * w.stride) w.block_size
        (rw block_length apart)

  store_record-contents :
      (p : ℕ)
      → w.tail ≤ p
      → p < w.head + 1
      → block_at (store_record w payload) (p % w.slots) ≡ get_or (history ++ payload ∷ []) p []
  store_record-contents p low high = elim (dec_lt p w.head) [
    | yes lt ↦
        let ne : p % w.slots ≢ w.head_slot =
          λ e. mod_apart p w.head w.slots lt (omega arith) (e ∙ v.turn) in
        other_block (p % w.slots) ne
        ∙ v.contents p low lt
        ∙ sym (get_or-append_left history (payload ∷ []) p [] (omega (arith, v.head)))
    | no ge ↦
        let now : p ≡ length history = omega (arith, v.head) in
        ap (λ k. block_at (store_record w payload) k)
          (ap (λ k. k % w.slots) (now ∙ sym v.head) ∙ sym v.turn)
        ∙ newest_block
        ∙ sym (
            ap (λ k. get_or (history ++ payload ∷ []) k []) now
            ∙ get_or-append_last history payload [])
  ]

  pub store_record-Models : Models (store_record w payload) (history ++ payload ∷ [])
  unfolding store_record next_slot
  store_record-Models = record {
    running = v.running;
    head = rw (head_small, length-append) (omega (arith, v.head));
    ordered = rw head_small (omega (arith, v.ordered));
    bounded = rw head_small (omega arith);
    room = v.room;
    small = v.small;
    same_slots = v.same_slots;
    same_size = v.same_size;
    turn =
        ap (λ k. if k + 1 == w.slots then 0 else k + 1) v.turn
        ∙ mod_next w.head w.slots v.room
        ∙ sym (ap (λ k. k % w.slots) head_small);
    wide = v.wide;
    memory = rw length-copy_to v.memory;
    numbered = rw head_small (omega arith);
    first = v.first;
    word = v.word;
    contents = λ p low high. store_record-contents p low (rw head_small at high);
  }

pub store_record-tail : (w : WalCore) (payload : List ℕ) → (store_record w payload).tail ≡ w.tail
unfolding store_record
store_record-tail w payload = refl
