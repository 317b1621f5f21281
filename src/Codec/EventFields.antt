-- ===== src/Codec/EventFields.antt =====
-- codec.cpp: the fields of an event, and the bytes of its enumerations.
use ll_exp.Prelude.{
  ℕ, ◌^◌, ◌<◌, ◌≡◌, refl, ◌==◌, ltb, Bool, true, false, not, some, List, replicate,
}
use ll_exp.Book.Types.{Side}
use ll_exp.Matcher.Types.{
  Event, EventWalPayload, LoadSnapshotCommand, TradeEvent, OrderRestedEvent, MatcherFatalEvent,
  RejectReason, FatalReason,
}
use ll_exp.Codec.{side_byte, side_of, valid_side}
use ll_exp.Codec.Events.{
  reject_byte, reject_reason_of, fatal_byte, fatal_reason_of, flag_byte,
  encode_event_wal_payload_v2,
}

-- The events of the second version, with fields of the types' widths.
pub data FitsEvent : Event → Type 0 where
  order_accepted : {id : ℕ} → id < 2 ^ 64 → FitsEvent (Event.order_accepted id)
  order_rejected : {id : ℕ} {r : RejectReason} → id < 2 ^ 64 → FitsEvent (Event.order_rejected id r)
  trade :
      {t : TradeEvent}
      → t.taker_order_id < 2 ^ 64
      → t.maker_order_id < 2 ^ 64
      → t.taker_owner_id < 2 ^ 64
      → t.maker_owner_id < 2 ^ 64
      → t.price < 2 ^ 32
      → t.quantity < 2 ^ 32
      → FitsEvent (Event.trade t)
  order_rested :
      {o : OrderRestedEvent}
      → o.id < 2 ^ 64
      → o.owner_id < 2 ^ 64
      → o.price < 2 ^ 32
      → o.remaining < 2 ^ 32
      → FitsEvent (Event.order_rested o)
  order_done : {id : ℕ} → id < 2 ^ 64 → FitsEvent (Event.order_done id)
  save_snapshot : FitsEvent Event.save_snapshot
  load_snapshot :
      {l : LoadSnapshotCommand}
      → l.save_snapshot_command_sequence < 2 ^ 64
      → l.snapshot_epoch_id < 2 ^ 64
      → FitsEvent (Event.load_snapshot l)
  shutdown : FitsEvent Event.shutdown
  matcher_fatal :
      {f : MatcherFatalEvent}
      → f.offending_order_id < 2 ^ 64
      → f.last_order_id < 2 ^ 64
      → FitsEvent (Event.matcher_fatal f)
  start_replay : FitsEvent Event.start_replay
  stop_replay : FitsEvent Event.stop_replay

-- The bytes of a payload in a buffer of the right size.
abbrev pub event_bytes : EventWalPayload → List ℕ
event_bytes p = (encode_event_wal_payload_v2 p (replicate 64 0)).1

pub side_back :
    (side : Side) → (valid_side (side_byte side) ≡ true) × (side_of (side_byte side) ≡ side)
side_back Side.bid = (refl, refl)
side_back Side.ask = (refl, refl)

pub reject_back : (r : RejectReason) → reject_reason_of (reject_byte r) ≡ some r
reject_back RejectReason.none = refl
reject_back RejectReason.invalid_quantity = refl
reject_back RejectReason.book_insert_failed = refl
reject_back RejectReason.unknown_command = refl

pub fatal_back : (r : FatalReason) → fatal_reason_of (fatal_byte r) ≡ some r
fatal_back FatalReason.none = refl
fatal_back FatalReason.command_reader_fatal = refl
fatal_back FatalReason.event_writer_fatal = refl
fatal_back FatalReason.command_produced_no_event = refl
fatal_back FatalReason.non_monotonic_order_id = refl
fatal_back FatalReason.book_erase_failed_after_execution = refl
fatal_back FatalReason.book_update_failed_after_execution = refl
fatal_back FatalReason.book_insert_failed_after_execution = refl
fatal_back FatalReason.snapshot_capture_failed = refl
fatal_back FatalReason.snapshot_load_unavailable = refl
fatal_back FatalReason.snapshot_load_invalid = refl

pub flag_back : (b : Bool) → not (flag_byte b == 0) ≡ b
flag_back true = refl
flag_back false = refl

pub flag_valid : (b : Bool) → ltb 1 (flag_byte b) ≡ false
flag_valid true = refl
flag_valid false = refl
