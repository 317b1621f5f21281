-- ===== src/Wal/Persistence.antt =====
-- exchange/wal/src/persistence.cpp and include/fexma/wal/persistence_slider.hpp: the module that writes
-- the records of the log to the physical log, and the slider that drives it.
pub mod Outcomes
use ll_exp.Prelude.{ℕ, ◌==◌, if◌then◌else◌, Bool, true, false, not, ◌||◌, Option, none, some}
use ll_exp.Wal.Types.{OpenStatus, RecordView}
use ll_exp.Wal.Core.{WalCore, try_view}
use ll_exp.Wal.Format.{WalConfig, valid_config}
use ll_exp.Wal.Disk.{PhysicalWalAdapter, append_record, sync, close, create}
use ll_exp.Wal.Slider.{PublishDecision, Stage}

-- `physical_wal` is `none` where the pointer is null.
pub record PersistenceModule : Type 0 where
  pub physical_wal : Option PhysicalWalAdapter
  pub failed : Bool

abbrev pub has_open_wal : Option PhysicalWalAdapter → Bool
has_open_wal none = false
has_open_wal (some a) = a.is_open

abbrev pub after_create :
    PersistenceModule → OpenStatus × PhysicalWalAdapter → OpenStatus × PersistenceModule
after_create p (OpenStatus.ok, a) =
    (OpenStatus.ok, record { physical_wal = some a; failed = false })
after_create p (status, a) = (status, record p { physical_wal = none })

-- `adapter` is the new adapter, `none` where there is no memory for it; `exists` tells whether a
-- failed creation found the file there.
unfoldable pub open_persistence :
    Option PhysicalWalAdapter
    → Bool
    → WalConfig
    → PersistenceModule
    → OpenStatus × PersistenceModule
open_persistence adapter exists c p =
    let adapter_config : WalConfig = record c { capacity = 1 } in
    if has_open_wal p.physical_wal
    then (OpenStatus.already_open, p)
    else if not (valid_config adapter_config)
    then (OpenStatus.invalid_config, p)
    else elim adapter [
      | none ↦ (OpenStatus.allocation_failed, record p { physical_wal = none })
      | some a ↦ after_create p (create exists adapter_config a)
    ]

-- The answer of a call of the adapter; a failure stays.
abbrev pub after_call : PersistenceModule → Bool × PhysicalWalAdapter → Bool × PersistenceModule
after_call p (true, a) = (true, record p { physical_wal = some a })
after_call p (false, a) = (false, record { physical_wal = some a; failed = true })

abbrev pub with_open_wal :
    (PhysicalWalAdapter → Bool × PhysicalWalAdapter) → PersistenceModule → Bool × PersistenceModule
with_open_wal call p = elim p.physical_wal [
  | none ↦ (false, record p { failed = true })
  | some a ↦
      if not a.is_open || p.failed
      then (false, record p { failed = true })
      else after_call p (call a)
]

unfoldable pub append : RecordView → PersistenceModule → Bool × PersistenceModule
append view p = with_open_wal (append_record view.sequence view.payload) p

unfoldable pub process : RecordView → PersistenceModule → Bool × PersistenceModule
unfolding append
process view p = append view p

unfoldable pub sync_persistence : PersistenceModule → Bool × PersistenceModule
sync_persistence p = with_open_wal sync p

unfoldable pub close_persistence : PersistenceModule → Bool × PersistenceModule
close_persistence p = elim p.physical_wal [
  | none ↦ (true, p)
  | some a ↦ ((close a).0, record p { physical_wal = none })
]

-- `PersistenceBatchPublish`
unfoldable pub after_process : ℕ → PersistenceModule → PublishDecision × PersistenceModule
after_process end p = (PublishDecision.hold, p)

abbrev pub after_sync : Bool × PersistenceModule → PublishDecision × PersistenceModule
after_sync (true, p) = (PublishDecision.publish, p)
after_sync (false, p) = (PublishDecision.failed, p)

unfoldable pub after_range : ℕ → ℕ → PersistenceModule → PublishDecision × PersistenceModule
after_range begin end p =
    if begin == end then (PublishDecision.hold, p) else after_sync (sync_persistence p)

-- `PersistenceSlider` over a log.
abbrev pub persistence_stage : WalCore → Stage PersistenceModule
persistence_stage w = record {
  try_view = try_view w;
  process = process;
  after_process = after_process;
  after_range = after_range;
}
