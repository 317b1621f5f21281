-- ===== src/Wal/Types.antt =====
-- exchange/wal/include/fexma/wal/{types,core}.hpp: configurations, views and statuses.
use ll_exp.Prelude.{ℕ, List, []}

pub data ViewStatus : Type 0 where
  ok closed reclaimed unpublished : ViewStatus

pub record RecordView : Type 0 where
  pub position : ℕ
  pub sequence : ℕ
  pub payload : List ℕ

pub record AccessResult : Type 0 where
  pub status : ViewStatus
  pub record_view : RecordView

pub data OpenStatus : Type 0 where
  ok invalid_config allocation_failed io_error file_already_exists already_open : OpenStatus

pub data PublishStatus : Type 0 where
  ok full invalid_payload_size sequence_exhausted io_error closed : PublishStatus

pub record PublishResult : Type 0 where
  pub status : PublishStatus
  pub sequence : ℕ

pub data ReclaimStatus : Type 0 where
  ok closed invalid_position : ReclaimStatus

pub record WalRuntimeConfig : Type 0 where
  pub payload_size : ℕ
  pub capacity : ℕ
  pub alignment : ℕ
  pub first_sequence : ℕ

-- `RecordView{}`
abbrev pub empty_record : RecordView
empty_record = record { position = 0; sequence = 0; payload = [] }
