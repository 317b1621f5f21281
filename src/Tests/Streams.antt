-- ===== src/Tests/Streams.antt =====
-- The log with its persistence at concrete inputs.
use ll_exp.Prelude.{Bool, ltb, ℕ, ◌≡◌, ◌+◌, refl, arith, List, [], ◌∷◌, true, false, some, none}
use ll_exp.Bytes.{write_from, write_u16, write_u32, write_u64}
use ll_exp.Wal.Types.{OpenStatus, ViewStatus, RecordView}
use ll_exp.Wal.Core.{
  checked_add, checked_mul, checked_align_up, storage_layout, valid_runtime_config, initialize,
  open_core,
}
use ll_exp.Wal.Format.{
  WalConfig, generic_stream, serialize_file_header, records_offset, aligned_record_size,
  valid_stream_kind, storage_fits, valid_config,
}
use ll_exp.Wal.Disk.{
  PhysicalWalAdapter, after_write, write_bytes, write_zeros, file_header_padding_size,
  answer_is_done, sync, close, sync_parent_directory, write_header, after_header, after_create,
  create,
}
use ll_exp.Wal.Slider.{Slider, Stage, PublishDecision, acquire_available, process_available}
use ll_exp.Wal.Slider.Progress.{Followed, process_available-Followed}
use ll_exp.Wal.Persistence.{open_persistence}
use ll_exp.Wal.Composition.{Wal, open_wal}
use ll_exp.Wal.Composition.Order.{IsOrdered, open_wal-IsOrdered}
use ll_exp.Wal.Composition.Runs.{Call, Advanced, EachDurable, make_calls, make_calls-Advanced}

-- Unfolds the opening of a log.
unfoldable open_program : ℕ
unfolding write_from write_u16 write_u32 write_u64 checked_add checked_mul checked_align_up
    storage_layout valid_runtime_config initialize open_core serialize_file_header records_offset
    aligned_record_size valid_stream_kind storage_fits valid_config after_write write_bytes
    write_zeros file_header_padding_size answer_is_done sync close sync_parent_directory
    write_header after_header after_create create open_persistence open_wal
open_program = 0

abbrev small_stream : WalConfig
small_stream = record {
  payload_size = 4;
  capacity = 2;
  alignment = 8;
  payload_schema_version = 0;
  stream_kind = generic_stream;
  stream_id = 0;
  epoch_id = 0;
  first_sequence = 1;
  manifest_id = 0;
}

abbrev new_adapter : PhysicalWalAdapter
new_adapter = record { is_open = false; config = small_stream; content = []; answers = [] }

abbrev closed_wal : Wal
closed_wal = record {
  core = record {
    tail = 0;
    head = 0;
    head_slot = 0;
    memory = [];
    stride = 0;
    block_size = 0;
    slots = 0;
    config = record { payload_size = 0; capacity = 0; alignment = 64; first_sequence = 1 };
    sequence_exhausted = false;
    is_open = false;
  };
  slider = record { current = 0; own = 0; state = record { physical_wal = none; failed = false } };
  config = small_stream;
  is_open = false;
}

unfoldable opened_wal : Wal
opened_wal = (open_wal true (some new_adapter) false small_stream closed_wal).1

stream_opens : (open_wal true (some new_adapter) false small_stream closed_wal).0 ≡ OpenStatus.ok
unfolding open_program
stream_opens = refl

opened_wal-IsOrdered : IsOrdered opened_wal
unfolding opened_wal
opened_wal-IsOrdered =
    open_wal-IsOrdered true (some new_adapter) false small_stream closed_wal stream_opens

opened_wal_head : opened_wal.core.head ≡ 0
unfolding open_program opened_wal
opened_wal_head = refl

abbrev stream_calls : List Call
stream_calls =
    Call.publish (1 ∷ 2 ∷ 3 ∷ 4 ∷ []) ∷ Call.advance 8 ∷ Call.consume 4 ∷ Call.close_it ∷ []

wal_calls_example :
    Advanced opened_wal 4 (make_calls stream_calls opened_wal) × EachDurable stream_calls opened_wal
wal_calls_example =
    make_calls-Advanced stream_calls opened_wal opened_wal-IsOrdered
      (omega (arith, opened_wal_head))

abbrev count_record : RecordView → ℕ → Bool × ℕ
count_record view count = (ltb count 2, count + 1)

-- A module that counts, and fails at its third record.
abbrev counting : Stage ℕ
counting = record {
  try_view = λ position. record {
    status = ViewStatus.ok;
    record_view = record { position = position; sequence = position; payload = [] };
  };
  process = count_record;
  after_process = λ end count. (PublishDecision.publish, count);
  after_range = λ begin end count. (PublishDecision.hold, count);
}

abbrev at_start : Slider ℕ
at_start = record { current = 5; own = 5; state = 0 }

process_available_example :
    Followed 9 0 at_start (process_available counting acquire_available 9 at_start)
process_available_example =
    process_available-Followed counting acquire_available 9 at_start (omega arith) (omega arith)
