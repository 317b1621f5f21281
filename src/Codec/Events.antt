-- ===== src/Codec/Events.antt =====
-- codec.cpp: the codecs of an event's payload, in both versions of the schema.
use ll_exp.Prelude.{
  ℕ, ltb, ◌==◌, if◌then◌else◌, Bool, true, false, not, ◌&&◌, Option, none, some, List, length,
  get_or, set, replicate,
}
use ll_exp.Bytes.{write_u32, write_u64, read_u32, read_u64}
use ll_exp.Matcher.Types.{Event, EventWalPayload, RejectReason, FatalReason}
use ll_exp.Codec.{
  PayloadCodecStatus, Parsed, event_wal_payload_size, side_byte, side_of, valid_side, after_parsed,
}

abbrev pub event_type : Event → ℕ
event_type Event.none = 0
event_type (Event.order_accepted id) = 1
event_type (Event.order_rejected id reason) = 2
event_type (Event.trade t) = 3
event_type (Event.order_rested o) = 4
event_type (Event.order_done id) = 5
event_type Event.save_snapshot = 6
event_type (Event.load_snapshot command) = 7
event_type Event.shutdown = 8
event_type (Event.matcher_fatal f) = 9
event_type Event.start_replay = 10
event_type Event.stop_replay = 11

abbrev pub reject_byte : RejectReason → ℕ
reject_byte RejectReason.none = 0
reject_byte RejectReason.invalid_quantity = 1
reject_byte RejectReason.book_insert_failed = 2
reject_byte RejectReason.unknown_command = 3

-- `valid_reject_reason` with the cast of a valid byte.
abbrev pub reject_reason_of : ℕ → Option RejectReason
reject_reason_of value =
    if value == 0
    then some RejectReason.none
    else if value == 1
    then some RejectReason.invalid_quantity
    else if value == 2
    then some RejectReason.book_insert_failed
    else if value == 3
    then some RejectReason.unknown_command
    else none

abbrev pub fatal_byte : FatalReason → ℕ
fatal_byte FatalReason.none = 0
fatal_byte FatalReason.command_reader_fatal = 1
fatal_byte FatalReason.event_writer_fatal = 2
fatal_byte FatalReason.command_produced_no_event = 3
fatal_byte FatalReason.non_monotonic_order_id = 4
fatal_byte FatalReason.book_erase_failed_after_execution = 5
fatal_byte FatalReason.book_update_failed_after_execution = 6
fatal_byte FatalReason.book_insert_failed_after_execution = 7
fatal_byte FatalReason.snapshot_capture_failed = 8
fatal_byte FatalReason.snapshot_load_unavailable = 9
fatal_byte FatalReason.snapshot_load_invalid = 10

-- `valid_fatal_reason` with the cast of a valid byte.
abbrev pub fatal_reason_of : ℕ → Option FatalReason
fatal_reason_of value =
    if value == 0
    then some FatalReason.none
    else if value == 1
    then some FatalReason.command_reader_fatal
    else if value == 2
    then some FatalReason.event_writer_fatal
    else if value == 3
    then some FatalReason.command_produced_no_event
    else if value == 4
    then some FatalReason.non_monotonic_order_id
    else if value == 5
    then some FatalReason.book_erase_failed_after_execution
    else if value == 6
    then some FatalReason.book_update_failed_after_execution
    else if value == 7
    then some FatalReason.book_insert_failed_after_execution
    else if value == 8
    then some FatalReason.snapshot_capture_failed
    else if value == 9
    then some FatalReason.snapshot_load_unavailable
    else if value == 10
    then some FatalReason.snapshot_load_invalid
    else none

abbrev pub flag_byte : Bool → ℕ
flag_byte true = 1
flag_byte false = 0

abbrev pub event_prefix : EventWalPayload → List ℕ → List ℕ
event_prefix payload bytes =
    let b₁ = write_u64 (replicate (length bytes) 0) 0 payload.client_id in
    let b₂ = write_u64 b₁ 8 payload.caused_by_command_sequence in
    let b₃ = write_u32 b₂ 16 payload.index_in_command in
    let b₄ = set b₃ 20 (flag_byte payload.is_last_for_command) in
    set b₄ 21 (event_type payload.message)

-- The switch of `encode_event_wal_payload_v1`.
unfoldable pub encode_event : Event → List ℕ → PayloadCodecStatus × List ℕ
encode_event (Event.order_accepted id) bytes = (PayloadCodecStatus.ok, write_u64 bytes 24 id)
encode_event (Event.order_rejected id reason) bytes =
    (PayloadCodecStatus.ok, set (write_u64 bytes 24 id) 32 (reject_byte reason))
encode_event (Event.trade t) bytes =
    let b₁ = write_u64 bytes 24 t.taker_order_id in
    let b₂ = write_u64 b₁ 32 t.maker_order_id in
    let b₃ = write_u64 b₂ 40 t.taker_owner_id in
    let b₄ = write_u64 b₃ 48 t.maker_owner_id in
    let b₅ = write_u32 b₄ 56 t.price in (PayloadCodecStatus.ok, write_u32 b₅ 60 t.quantity)
encode_event (Event.order_rested o) bytes =
    let b₁ = write_u64 bytes 24 o.id in
    let b₂ = write_u64 b₁ 32 o.owner_id in
    let b₃ = set b₂ 40 (side_byte o.side) in
    let b₄ = write_u32 b₃ 44 o.price in (PayloadCodecStatus.ok, write_u32 b₄ 48 o.remaining)
encode_event (Event.order_done id) bytes = (PayloadCodecStatus.ok, write_u64 bytes 24 id)
encode_event Event.save_snapshot bytes = (PayloadCodecStatus.ok, bytes)
encode_event (Event.load_snapshot command) bytes =
    let b₁ = write_u64 bytes 24 command.save_snapshot_command_sequence in
    (PayloadCodecStatus.ok, write_u64 b₁ 32 command.snapshot_epoch_id)
encode_event Event.shutdown bytes = (PayloadCodecStatus.ok, bytes)
encode_event (Event.matcher_fatal f) bytes =
    let b₁ = set bytes 24 (fatal_byte f.reason) in
    let b₂ = write_u64 b₁ 32 f.offending_order_id in
    (PayloadCodecStatus.ok, write_u64 b₂ 40 f.last_order_id)
encode_event _ bytes = (PayloadCodecStatus.invalid_type, bytes)

unfoldable pub encode_event_wal_payload_v1 : EventWalPayload → List ℕ → PayloadCodecStatus × List ℕ
unfolding encode_event
encode_event_wal_payload_v1 payload bytes =
    if not (length bytes == event_wal_payload_size)
    then (PayloadCodecStatus.invalid_size, bytes)
    else encode_event payload.message (event_prefix payload bytes)

abbrev pub event_byte : List ℕ → ℕ
event_byte bytes = get_or bytes 21 0

abbrev pub final_flag : List ℕ → ℕ
final_flag bytes = get_or bytes 20 0

-- The switch of `decode_event_wal_payload_v1`.
unfoldable pub parse_event : List ℕ → Parsed Event
parse_event bytes =
    if event_byte bytes == 1
    then Parsed.parsed (Event.order_accepted (read_u64 bytes 24))
    else if event_byte bytes == 2
    then elim (reject_reason_of (get_or bytes 32 0)) [
      | none ↦ Parsed.refused PayloadCodecStatus.invalid_field
      | some reason ↦ Parsed.parsed (Event.order_rejected (read_u64 bytes 24) reason)
    ]
    else if event_byte bytes == 3
    then Parsed.parsed (
        Event.trade (record {
          taker_order_id = read_u64 bytes 24;
          maker_order_id = read_u64 bytes 32;
          taker_owner_id = read_u64 bytes 40;
          maker_owner_id = read_u64 bytes 48;
          price = read_u32 bytes 56;
          quantity = read_u32 bytes 60;
        }))
    else if event_byte bytes == 4
    then if not (valid_side (get_or bytes 40 0))
      then Parsed.refused PayloadCodecStatus.invalid_field
      else Parsed.parsed (
          Event.order_rested (record {
            id = read_u64 bytes 24;
            owner_id = read_u64 bytes 32;
            side = side_of (get_or bytes 40 0);
            price = read_u32 bytes 44;
            remaining = read_u32 bytes 48;
          }))
    else if event_byte bytes == 5
    then Parsed.parsed (Event.order_done (read_u64 bytes 24))
    else if event_byte bytes == 6
    then Parsed.parsed Event.save_snapshot
    else if event_byte bytes == 7
    then Parsed.parsed (
        Event.load_snapshot (record {
          save_snapshot_command_sequence = read_u64 bytes 24;
          snapshot_epoch_id = read_u64 bytes 32;
        }))
    else if event_byte bytes == 8
    then Parsed.parsed Event.shutdown
    else if event_byte bytes == 9
    then elim (fatal_reason_of (get_or bytes 24 0)) [
      | none ↦ Parsed.refused PayloadCodecStatus.invalid_field
      | some reason ↦ Parsed.parsed (
          Event.matcher_fatal (record {
            reason = reason;
            offending_order_id = read_u64 bytes 32;
            last_order_id = read_u64 bytes 40;
          }))
    ]
    else Parsed.refused PayloadCodecStatus.invalid_type

abbrev pub event_with : List ℕ → Event → EventWalPayload
event_with bytes message = record {
  client_id = read_u64 bytes 0;
  caused_by_command_sequence = read_u64 bytes 8;
  index_in_command = read_u32 bytes 16;
  is_last_for_command = not (final_flag bytes == 0);
  message = message;
}

unfoldable pub decode_event_wal_payload_v1 : List ℕ → PayloadCodecStatus × Option EventWalPayload
decode_event_wal_payload_v1 bytes =
    if not (length bytes == event_wal_payload_size)
    then (PayloadCodecStatus.invalid_size, none)
    else if ltb 1 (final_flag bytes)
    then (PayloadCodecStatus.invalid_field, none)
    else after_parsed bytes (event_with bytes)
        (λ p. encode_event_wal_payload_v1 p (replicate event_wal_payload_size 0))
        (parse_event bytes)

abbrev pub is_replay_event : Event → Bool
is_replay_event Event.start_replay = true
is_replay_event Event.stop_replay = true
is_replay_event _ = false

unfoldable pub encode_event_wal_payload_v2 : EventWalPayload → List ℕ → PayloadCodecStatus × List ℕ
encode_event_wal_payload_v2 payload bytes =
    if not (length bytes == event_wal_payload_size)
    then (PayloadCodecStatus.invalid_size, bytes)
    else if not (is_replay_event payload.message)
    then encode_event_wal_payload_v1 payload bytes
    else (PayloadCodecStatus.ok, event_prefix payload bytes)

unfoldable pub decode_event_wal_payload_v2 : List ℕ → PayloadCodecStatus × Option EventWalPayload
decode_event_wal_payload_v2 bytes =
    if not (length bytes == event_wal_payload_size)
    then (PayloadCodecStatus.invalid_size, none)
    else if ltb 1 (final_flag bytes)
    then (PayloadCodecStatus.invalid_field, none)
    else if not (event_byte bytes == 10) && not (event_byte bytes == 11)
    then decode_event_wal_payload_v1 bytes
    else after_parsed bytes (event_with bytes)
        (λ p. encode_event_wal_payload_v2 p (replicate event_wal_payload_size 0))
        (Parsed.parsed (if event_byte bytes == 10 then Event.start_replay else Event.stop_replay))
