-- ===== src/Tests/Logs.antt =====
-- Runs of the in-memory log, and the theorems at concrete inputs.
use ll_exp.Prelude.{ℕ, ◌≡◌, ◌<◌, ◌≤◌, refl, arith, ◌⊎◌, List, [], ◌∷◌, true, false, ◌+◌, some}
use ll_exp.Wal.Types.{WalRuntimeConfig, OpenStatus, PublishStatus, ReclaimStatus, ViewStatus}
use ll_exp.Wal.Bytes.{copy_to, span_at}
use ll_exp.Wal.Core.{
  WalCore, checked_add, checked_mul, checked_align_up, storage_layout, valid_runtime_config,
  initialize, open_core, next_slot, block_at, store_record, publish_checked, try_publish, no_access,
  try_view, reclaim, close,
}
use ll_exp.Wal.Core.Window.{Models}
use ll_exp.Wal.Core.Publish.{Published, try_publish-Published, Models-of_ok}
use ll_exp.Wal.Core.View.{try_view-history, reclaim-Models}
use ll_exp.Wal.Core.Setup.{IsLayout, storage_layout-IsLayout, open_core-Models}

-- Unfolds the whole log.
unfoldable log_program : ℕ
unfolding checked_add checked_mul checked_align_up storage_layout valid_runtime_config initialize
    open_core next_slot block_at store_record publish_checked try_publish try_view reclaim close
    copy_to span_at
log_program = 0

abbrev two_records : WalRuntimeConfig
two_records = record { payload_size = 4; capacity = 2; alignment = 8; first_sequence = 1 }

abbrev closed_log : WalCore
closed_log = record {
  tail = 0;
  head = 0;
  head_slot = 0;
  memory = [];
  stride = 0;
  block_size = 0;
  slots = 0;
  config = two_records;
  sequence_exhausted = false;
  is_open = false;
}

layout_of_two : storage_layout two_records ≡ some (8, 16)
unfolding log_program
layout_of_two = refl

storage_layout_example : IsLayout two_records 8 16
storage_layout_example = storage_layout-IsLayout two_records (omega arith) layout_of_two

opens : (open_core two_records true closed_log).0 ≡ OpenStatus.ok
unfolding log_program
opens = refl

open_core_example : Models (open_core two_records true closed_log).1 []
open_core_example = open_core-Models two_records true closed_log (omega arith) (omega arith) opens

unfoldable opened : WalCore
opened = (open_core two_records true closed_log).1

opened-Models : Models opened []
unfolding opened
opened-Models = open_core-Models two_records true closed_log (omega arith) (omega arith) opens

abbrev first_payload : List ℕ
first_payload = 1 ∷ 2 ∷ 3 ∷ 4 ∷ []

try_publish_example : Published opened [] first_payload (try_publish opened first_payload)
try_publish_example = try_publish-Published opened [] first_payload opened-Models

unfoldable one_record : WalCore
one_record = (try_publish opened first_payload).1

is_accepted : (try_publish opened first_payload).0.status ≡ PublishStatus.ok
unfolding log_program opened
is_accepted = refl

one_record-Models : Models one_record (first_payload ∷ [])
unfolding one_record
one_record-Models =
    Models-of_ok opened [] first_payload (try_publish opened first_payload)
      (try_publish-Published opened [] first_payload opened-Models) is_accepted

-- The payload at position 0 is there, and position 1 is not published.
first_is_visible : (try_view one_record 0).record_view.payload ≡ first_payload
unfolding log_program opened one_record
first_is_visible = refl

try_view_example :
    ((0 < one_record.tail) × (try_view one_record 0 ≡ no_access ViewStatus.reclaimed))
    ⊎ ((1 ≤ 0) × (try_view one_record 0 ≡ no_access ViewStatus.unpublished))
    ⊎ ((one_record.tail ≤ 0)
        × (0 < 1)
        × (try_view one_record 0 ≡ record {
          status = ViewStatus.ok;
          record_view = record {
            position = 0;
            sequence = one_record.config.first_sequence + 0;
            payload = first_payload;
          };
        }))
try_view_example = try_view-history one_record (first_payload ∷ []) 0 one_record-Models

reclaim_example :
    ((one_record.tail ≤ 1)
      × (1 ≤ 1)
      × ((reclaim one_record 1).0 ≡ ReclaimStatus.ok)
      × Models (reclaim one_record 1).1 (first_payload ∷ [])
      × ((reclaim one_record 1).1.tail ≡ 1))
    ⊎ (((1 < one_record.tail) ⊎ (1 < 1))
        × (reclaim one_record 1 ≡ (ReclaimStatus.invalid_position, one_record)))
reclaim_example = reclaim-Models one_record (first_payload ∷ []) 1 one_record-Models
