-- ===== src/Matcher/Types.antt =====
-- exchange/matcher/include/fexma/matcher/types.hpp: commands, events, envelopes and statuses. The
-- tagged unions `Command` and `Event` are data types; their `type` member is the constructor.
use ll_exp.Prelude.{ℕ, Bool, List}
use ll_exp.Book.Types.{Side, OrderBookConfig, OrderView}
use ll_exp.Book.OrderBook.{OrderBook}

pub record NewLimitOrder : Type 0 where
  pub id : ℕ
  pub owner_id : ℕ
  pub side : Side
  pub price : ℕ
  pub quantity : ℕ

pub record LoadSnapshotCommand : Type 0 where
  pub save_snapshot_command_sequence : ℕ
  pub snapshot_epoch_id : ℕ

pub data Command : Type 0 where
  none : Command
  new_limit : NewLimitOrder → Command
  save_snapshot : Command
  load_snapshot : LoadSnapshotCommand → Command
  shutdown : Command
  start_replay : Command
  stop_replay : Command

pub record CommandWalPayload : Type 0 where
  pub client_id : ℕ
  pub message : Command

pub record CommandEnvelope : Type 0 where
  pub command_sequence : ℕ
  pub payload : CommandWalPayload

pub data ReplayMode : Type 0 where
  live replay restoring : ReplayMode

-- `book` is the pointer's target at the time of the call.
pub record MatcherSnapshotView : Type 0 where
  pub save_snapshot_command_sequence : ℕ
  pub last_order_id : ℕ
  pub next_event_sequence : ℕ
  pub book_config : OrderBookConfig
  pub book : OrderBook

pub record MatcherSnapshotImage : Type 0 where
  pub save_snapshot_command_sequence : ℕ
  pub epoch_id : ℕ
  pub last_order_id : ℕ
  pub next_event_sequence : ℕ
  pub book_config : OrderBookConfig
  pub orders : List OrderView

pub data SnapshotOperationStatus : Type 0 where
  ok unavailable invalid capacity_exceeded fatal : SnapshotOperationStatus

pub data CommandReadResult : Type 0 where
  ok : CommandEnvelope → CommandReadResult
  empty : CommandReadResult
  fatal : CommandReadResult

pub data PublishStatus : Type 0 where
  ok fatal : PublishStatus

pub data RunStatus : Type 0 where
  stopped fatal : RunStatus

pub data FatalReason : Type 0 where
  none command_reader_fatal event_writer_fatal command_produced_no_event : FatalReason
  non_monotonic_order_id book_erase_failed_after_execution : FatalReason
  book_update_failed_after_execution book_insert_failed_after_execution : FatalReason
  snapshot_capture_failed snapshot_load_unavailable snapshot_load_invalid : FatalReason

pub record RunResult : Type 0 where
  pub status : RunStatus
  pub fatal_reason : FatalReason

pub data ProcessStatus : Type 0 where
  continue stop fatal : ProcessStatus

pub record ProcessResult : Type 0 where
  pub status : ProcessStatus
  pub fatal_reason : FatalReason

pub data RejectReason : Type 0 where
  none invalid_quantity book_insert_failed unknown_command : RejectReason

pub record TradeEvent : Type 0 where
  pub taker_order_id : ℕ
  pub maker_order_id : ℕ
  pub taker_owner_id : ℕ
  pub maker_owner_id : ℕ
  pub price : ℕ
  pub quantity : ℕ

pub record OrderRestedEvent : Type 0 where
  pub id : ℕ
  pub owner_id : ℕ
  pub side : Side
  pub price : ℕ
  pub remaining : ℕ

pub record MatcherFatalEvent : Type 0 where
  pub reason : FatalReason
  pub offending_order_id : ℕ
  pub last_order_id : ℕ

pub data Event : Type 0 where
  none : Event
  order_accepted : ℕ → Event
  order_rejected : ℕ → RejectReason → Event
  trade : TradeEvent → Event
  order_rested : OrderRestedEvent → Event
  order_done : ℕ → Event
  save_snapshot : Event
  load_snapshot : LoadSnapshotCommand → Event
  shutdown : Event
  matcher_fatal : MatcherFatalEvent → Event
  start_replay : Event
  stop_replay : Event

pub record EventWalPayload : Type 0 where
  pub client_id : ℕ
  pub caused_by_command_sequence : ℕ
  pub index_in_command : ℕ
  pub is_last_for_command : Bool
  pub message : Event

pub record EventEnvelope : Type 0 where
  pub event_sequence : ℕ
  pub payload : EventWalPayload
