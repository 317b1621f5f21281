-- ===== src/Wal/Core.antt =====
-- exchange/wal/src/core.cpp: the bounded in-memory log. Each call is one step; the model has no
-- interleaving inside a call (one producer, one reclaimer, and viewers that only read).
pub mod Window
pub mod Publish
pub mod View
pub mod Setup
use ll_exp.Prelude.{
  ℕ, ◌+◌, ◌-◌, ◌*◌, ◌/◌, ◌%◌, ◌^◌, ltb, ◌==◌, if◌then◌else◌, Bool, true, false, not, ◌&&◌, ◌||◌,
  Option, none, some, List, [], ◌∷◌, length, replicate, bit_and,
}
use ll_exp.Wal.Types.{
  ViewStatus, RecordView, AccessResult, OpenStatus, PublishStatus, PublishResult, ReclaimStatus,
  WalRuntimeConfig, empty_record,
}
use ll_exp.Wal.Bytes.{copy_to, span_at}

abbrev pub u64_mod : ℕ
u64_mod = 2 ^ 64

-- `size_t` arithmetic that reports overflow by `none`.
unfoldable pub checked_add : ℕ → ℕ → Option ℕ
checked_add left right = if ltb (u64_mod - 1 - right) left then none else some (left + right)

unfoldable pub checked_mul : ℕ → ℕ → Option ℕ
checked_mul left right =
    if not (left == 0) && ltb ((u64_mod - 1) / left) right then none else some (left * right)

unfoldable pub checked_align_up : ℕ → ℕ → Option ℕ
checked_align_up value alignment = elim (checked_add value (alignment - 1)) [
  | none ↦ none
  | some biased ↦ some (biased / alignment * alignment)
]

-- `stride` and `size`, where neither overflows.
unfoldable pub storage_layout : WalRuntimeConfig → Option (ℕ × ℕ)
storage_layout c = elim (checked_align_up c.payload_size c.alignment) [
  | none ↦ none
  | some stride ↦ elim (checked_mul stride c.capacity) [
    | none ↦ none
    | some size ↦ some (stride, size)
  ]
]

-- `alignof(void*)` is 8. `alignment - 1` runs on an alignment of 8 or more.
unfoldable pub valid_runtime_config : WalRuntimeConfig → Bool
valid_runtime_config c =
    if c.payload_size == 0
      || c.capacity == 0
      || ltb c.alignment 8
      || c.first_sequence == 0
      || not (bit_and c.alignment (c.alignment - 1) == 0)
    then false
    else elim (storage_layout c) [ none ↦ false | some _ ↦ true ]

-- `WalCore` with its `Storage`; `memory` is what `data_` points to.
pub record WalCore : Type 0 where
  pub tail : ℕ
  pub head : ℕ
  pub head_slot : ℕ
  pub memory : List ℕ
  pub stride : ℕ
  pub block_size : ℕ
  pub slots : ℕ
  pub config : WalRuntimeConfig
  pub sequence_exhausted : Bool
  pub is_open : Bool

-- `open`, after the checks; `allocated` tells whether `operator new` gave the memory.
unfoldable pub initialize :
    WalRuntimeConfig → Bool → Option (ℕ × ℕ) → WalCore → OpenStatus × WalCore
initialize c allocated none w = (OpenStatus.invalid_config, w)
initialize c false (some (stride, size)) w =
    (OpenStatus.allocation_failed, record w { memory = [] })
initialize c true (some (stride, size)) w = (
  OpenStatus.ok,
  record {
    tail = 0;
    head = 0;
    head_slot = 0;
    memory = replicate size 0;
    stride = stride;
    block_size = c.payload_size;
    slots = c.capacity;
    config = c;
    sequence_exhausted = false;
    is_open = true;
  },
)

-- `WalCore::open`
unfoldable pub open_core : WalRuntimeConfig → Bool → WalCore → OpenStatus × WalCore
open_core c allocated w =
    if w.is_open
    then (OpenStatus.already_open, w)
    else if not (valid_runtime_config c)
    then (OpenStatus.invalid_config, w)
    else initialize c allocated (storage_layout c) w

unfoldable pub next_slot : WalCore → ℕ → ℕ
next_slot w slot = if slot + 1 == w.slots then 0 else slot + 1

-- `block_at_slot`, read.
unfoldable pub block_at : WalCore → ℕ → List ℕ
block_at w slot = span_at w.memory (slot * w.stride) w.block_size

abbrev pub refused : PublishStatus → PublishResult
refused status = record { status = status; sequence = 0 }

-- The copy and the advance of the head.
unfoldable pub store_record : WalCore → List ℕ → WalCore
store_record w payload = record w {
  memory = copy_to w.memory (w.head_slot * w.stride) payload;
  head_slot = next_slot w w.head_slot;
  head = (w.head + 1) % u64_mod;
}

-- `try_publish`, once the log is open, the size fits and the flag is clear.
unfoldable pub publish_checked : WalCore → List ℕ → PublishResult × WalCore
publish_checked w payload =
    if (w.head + u64_mod - w.tail) % u64_mod == w.config.capacity
    then (refused PublishStatus.full, w)
    else if ltb (u64_mod - 1 - w.config.first_sequence) w.head
    then (refused PublishStatus.sequence_exhausted, record w { sequence_exhausted = true })
    else (
      record { status = PublishStatus.ok; sequence = (w.config.first_sequence + w.head) % u64_mod },
      store_record w payload,
    )

unfoldable pub try_publish : WalCore → List ℕ → PublishResult × WalCore
try_publish w payload =
    if not w.is_open
    then (refused PublishStatus.closed, w)
    else if not (length payload == w.config.payload_size)
    then (refused PublishStatus.invalid_payload_size, w)
    else if w.sequence_exhausted
    then (refused PublishStatus.sequence_exhausted, w)
    else publish_checked w payload

abbrev pub no_access : ViewStatus → AccessResult
no_access status = record { status = status; record_view = empty_record }

unfoldable pub try_view : WalCore → ℕ → AccessResult
try_view w position =
    if not w.is_open
    then no_access ViewStatus.closed
    else if ltb position w.tail
    then no_access ViewStatus.reclaimed
    else if not (ltb position w.head)
    then no_access ViewStatus.unpublished
    else record {
      status = ViewStatus.ok;
      record_view = record {
        position = position;
        sequence = (w.config.first_sequence + position) % u64_mod;
        payload = block_at w (position % w.config.capacity % 2 ^ 32);
      };
    }

unfoldable pub reclaim : WalCore → ℕ → ReclaimStatus × WalCore
reclaim w end =
    if not w.is_open
    then (ReclaimStatus.closed, w)
    else if ltb end w.tail || ltb w.head end
    then (ReclaimStatus.invalid_position, w)
    else (ReclaimStatus.ok, record w { tail = end })

unfoldable pub close : WalCore → WalCore
close w = record w { is_open = false; memory = []; stride = 0; block_size = 0; slots = 0 }
