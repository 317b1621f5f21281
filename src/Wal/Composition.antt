-- ===== src/Wal/Composition.antt =====
-- exchange/wal/src/wal.cpp: `Wal`, the log with its persistence and its consumer. Each call is one step.
pub mod Durable
pub mod Order
pub mod Runs
pub mod Synced
use ll_exp.Prelude.{
  ℕ, ◌+◌, ◌%◌, ◌^◌, ◌==◌, if◌then◌else◌, Bool, true, false, not, ◌&&◌, ◌||◌, Option, none, some,
  List, [], length,
}
use ll_exp.Wal.Types.{
  OpenStatus, ViewStatus, RecordView, AccessResult, PublishStatus, PublishResult, WalRuntimeConfig,
}
use ll_exp.Wal.Core.{WalCore, u64_mod, open_core, try_publish, try_view, reclaim, no_access, close}
use ll_exp.Wal.Format.{WalConfig, valid_config}
use ll_exp.Wal.Disk.{PhysicalWalAdapter}
use ll_exp.Wal.Slider.{SliderStatus, SliderResult, Slider, acquire_bounded, process_available}
use ll_exp.Wal.Persistence.{
  PersistenceModule, open_persistence, close_persistence, persistence_stage,
}

pub data DurabilityStatus : Type 0 where
  ok sequence_exhausted io_error closed : DurabilityStatus

pub record DurabilityResult : Type 0 where
  pub status : DurabilityStatus
  pub durable_frontier : ℕ
  pub records : ℕ

pub data ConsumeStatus : Type 0 where
  ok empty invalid_payload_size closed : ConsumeStatus

pub record ConsumeResult : Type 0 where
  pub status : ConsumeStatus
  pub sequence : ℕ

pub data CloseStatus : Type 0 where
  ok pending_consumption pending_durability sequence_exhausted io_error already_closed : CloseStatus

pub record WalSnapshot : Type 0 where
  pub tail : ℕ
  pub durable : ℕ
  pub head : ℕ

-- `slider.own` is `durable_progress_`, and `slider.state` is `persistence_`.
pub record Wal : Type 0 where
  pub core : WalCore
  pub slider : Slider PersistenceModule
  pub config : WalConfig
  pub is_open : Bool

abbrev pub runtime_config : WalConfig → WalRuntimeConfig
runtime_config c = record {
  payload_size = c.payload_size;
  capacity = c.capacity;
  alignment = c.alignment;
  first_sequence = c.first_sequence;
}

abbrev pub after_persistence_open :
    WalConfig → WalCore → Wal → OpenStatus × PersistenceModule → OpenStatus × Wal
after_persistence_open c core w (OpenStatus.ok, p) = (
  OpenStatus.ok,
  record {
    core = core;
    slider = record { current = 0; own = 0; state = p };
    config = c;
    is_open = true;
  },
)
after_persistence_open c core w (status, p) =
    (status, record w { core = close core; slider = record (w.slider) { state = p } })

abbrev pub after_core_open :
    Option PhysicalWalAdapter → Bool → WalConfig → Wal → OpenStatus × WalCore → OpenStatus × Wal
after_core_open adapter exists c w (OpenStatus.ok, core) =
    after_persistence_open c core w (open_persistence adapter exists c w.slider.state)
after_core_open adapter exists c w (status, core) = (status, record w { core = core })

-- `allocated` is about the core's memory; the rest as for `open_persistence`.
unfoldable pub open_wal :
    Bool → Option PhysicalWalAdapter → Bool → WalConfig → Wal → OpenStatus × Wal
open_wal allocated adapter exists c w =
    if w.is_open
    then (OpenStatus.already_open, w)
    else if not (valid_config c)
    then (OpenStatus.invalid_config, w)
    else after_core_open adapter exists c w (open_core (runtime_config c) allocated w.core)

abbrev pub refused_publish : PublishStatus → Wal → PublishResult × Wal
refused_publish status w = (record { status = status; sequence = 0 }, w)

unfoldable pub publish_payload : List ℕ → Wal → PublishResult × Wal
publish_payload payload w =
    if not w.is_open
    then refused_publish PublishStatus.closed w
    else if not (length payload == w.config.payload_size)
    then refused_publish PublishStatus.invalid_payload_size w
    else if w.core.sequence_exhausted
    then refused_publish PublishStatus.sequence_exhausted w
    else if w.slider.state.failed
    then refused_publish PublishStatus.io_error w
    else ((try_publish w.core payload).0, record w { core = (try_publish w.core payload).1 })

abbrev pub is_ok : SliderStatus → Bool
is_ok SliderStatus.processed = true
is_ok SliderStatus.empty = true
is_ok _ = false

abbrev pub after_slider : Wal → SliderResult × Slider PersistenceModule → DurabilityResult × Wal
after_slider w (r, slider) = (
  if not (is_ok r.status)
      then record {
        status = DurabilityStatus.io_error;
        durable_frontier = w.slider.own;
        records = 0;
      }
      else record {
        status = DurabilityStatus.ok;
        durable_frontier = slider.own;
        records = r.processed_count % 2 ^ 32;
      },
  record w { slider = slider },
)

unfoldable pub advance_durable : ℕ → Wal → DurabilityResult × Wal
advance_durable batch_size w =
    if not w.is_open
    then (
      record { status = DurabilityStatus.closed; durable_frontier = w.slider.own; records = 0 },
      w,
    )
    else if w.slider.state.failed
    then (
      record { status = DurabilityStatus.io_error; durable_frontier = w.slider.own; records = 0 },
      w,
    )
    else after_slider w (
        process_available (persistence_stage w.core) (acquire_bounded batch_size) w.core.head
          w.slider)

abbrev pub refused_consume : ConsumeStatus → Wal → ConsumeResult × Option (List ℕ) × Wal
refused_consume status w = (record { status = status; sequence = 0 }, none, w)

unfoldable pub consume_view : RecordView → ViewStatus → Wal → ConsumeResult × Option (List ℕ) × Wal
consume_view view ViewStatus.ok w = (
  record { status = ConsumeStatus.ok; sequence = view.sequence },
  some view.payload,
  record w { core = (reclaim w.core ((w.core.tail + 1) % u64_mod)).1 },
)
consume_view view status w = refused_consume ConsumeStatus.empty w

-- `size` is that of the caller's buffer, which takes the payload.
unfoldable pub consume_payload : ℕ → Wal → ConsumeResult × Option (List ℕ) × Wal
consume_payload size w =
    if not w.is_open
    then refused_consume ConsumeStatus.closed w
    else if not (size == w.config.payload_size)
    then refused_consume ConsumeStatus.invalid_payload_size w
    else if w.core.tail == w.slider.own
    then refused_consume ConsumeStatus.empty w
    else consume_view (try_view w.core w.core.tail).record_view (try_view w.core w.core.tail).status
        w

unfoldable pub view_record : ℕ → Wal → AccessResult
view_record position w =
    if not w.is_open then no_access ViewStatus.closed else try_view w.core position

-- `close`, once nothing is pending.
unfoldable pub close_all : Wal → CloseStatus × Wal
close_all w =
    let closed = close_persistence w.slider.state in
    (
      if not closed.0 || w.slider.state.failed
          then CloseStatus.io_error
          else if w.core.sequence_exhausted
          then CloseStatus.sequence_exhausted
          else CloseStatus.ok,
      record w {
        is_open = false;
        core = close w.core;
        slider = record (w.slider) { state = closed.1 };
      },
    )

unfoldable pub close_wal : Wal → CloseStatus × Wal
close_wal w =
    if not w.is_open
    then (CloseStatus.already_closed, w)
    else if not (w.core.tail == w.slider.own)
    then (CloseStatus.pending_consumption, w)
    else if not w.slider.state.failed && not (w.slider.own == w.core.head)
    then (CloseStatus.pending_durability, w)
    else close_all w

unfoldable pub snapshot : Wal → WalSnapshot
snapshot w = record { tail = w.core.tail; durable = w.slider.own; head = w.core.head }
