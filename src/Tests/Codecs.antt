-- ===== src/Tests/Codecs.antt =====
-- The codecs of both payloads at concrete inputs.
use ll_exp.Prelude.{ℕ, ◌≡◌, refl, arith, List, ◌∷◌, true, some, replicate}
use ll_exp.Bytes.{write_from, write_u32, write_u64, read_from, read_u32, read_u64}
use ll_exp.Book.Types.{Side}
use ll_exp.Matcher.Types.{
  Command, NewLimitOrder, CommandWalPayload, Event, EventWalPayload, FatalReason,
}
use ll_exp.Codec.{PayloadCodecStatus, bytes_equal}
use ll_exp.Codec.Commands.{
  encode_command, encode_command_wal_payload_v1, parse_command, decode_command_wal_payload_v1,
  encode_command_wal_payload_v2, decode_command_wal_payload_v2,
}
use ll_exp.Codec.Events.{
  encode_event, encode_event_wal_payload_v1, parse_event, decode_event_wal_payload_v1,
  encode_event_wal_payload_v2, decode_event_wal_payload_v2,
}
use ll_exp.Codec.CommandTrips.{new_limit, decode_command-encode_command}
use ll_exp.Codec.CommandCanon.{encode_command-decode_command}
use ll_exp.Codec.EventFields.{matcher_fatal}
use ll_exp.Codec.EventTrips.{decode_event-encode_event}
use ll_exp.Codec.EventCanon.{encode_event-decode_event}

-- Unfolds the codecs.
unfoldable codec_program : ℕ
unfolding write_from write_u32 write_u64 read_from read_u32 read_u64 bytes_equal encode_command
    encode_command_wal_payload_v1 parse_command decode_command_wal_payload_v1
    encode_command_wal_payload_v2 decode_command_wal_payload_v2 encode_event
    encode_event_wal_payload_v1 parse_event decode_event_wal_payload_v1 encode_event_wal_payload_v2
    decode_event_wal_payload_v2
codec_program = 0

abbrev an_order : NewLimitOrder
an_order = record { id = 300; owner_id = 2; side = Side.ask; price = 70000; quantity = 10 }

abbrev order_payload : CommandWalPayload
order_payload = record { client_id = 7; message = Command.new_limit an_order }

decode_command_example :
    decode_command_wal_payload_v2 (encode_command_wal_payload_v2 order_payload (replicate 48 255)).1
    ≡ (PayloadCodecStatus.ok, some order_payload)
decode_command_example =
    decode_command-encode_command 7 (omega arith) (Command.new_limit an_order) (replicate 48 255)
      (new_limit (omega arith) (omega arith) (omega arith) (omega arith)) refl

abbrev marker_bytes : List ℕ
marker_bytes = 7 ∷ 0 ∷ 0 ∷ 0 ∷ 0 ∷ 0 ∷ 0 ∷ 0 ∷ 5 ∷ replicate 39 0

abbrev marker_payload : CommandWalPayload
marker_payload = record { client_id = 7; message = Command.start_replay }

marker_decodes :
    decode_command_wal_payload_v2 marker_bytes ≡ (PayloadCodecStatus.ok, some marker_payload)
unfolding codec_program
marker_decodes = refl

encode_command_example :
    encode_command_wal_payload_v2 marker_payload (replicate 48 0)
    ≡ (PayloadCodecStatus.ok, marker_bytes)
encode_command_example = encode_command-decode_command marker_bytes marker_payload marker_decodes

-- A byte that no field reads is not zero.
stray_byte :
    (decode_command_wal_payload_v2 (7 ∷ 0 ∷ 0 ∷ 0 ∷ 0 ∷ 0 ∷ 0 ∷ 0 ∷ 5 ∷ 1 ∷ replicate 38 0)).0
    ≡ PayloadCodecStatus.non_canonical_bytes
unfolding codec_program
stray_byte = refl

abbrev fatal_message : Event
fatal_message =
    Event.matcher_fatal (record {
      reason = FatalReason.event_writer_fatal;
      offending_order_id = 5;
      last_order_id = 4;
    })

abbrev fatal_payload : EventWalPayload
fatal_payload = record {
  client_id = 1;
  caused_by_command_sequence = 2;
  index_in_command = 3;
  is_last_for_command = true;
  message = fatal_message;
}

decode_event_example :
    decode_event_wal_payload_v2 (encode_event_wal_payload_v2 fatal_payload (replicate 64 9)).1
    ≡ (PayloadCodecStatus.ok, some fatal_payload)
decode_event_example =
    decode_event-encode_event 1 2 3 true fatal_message (replicate 64 9)
      (matcher_fatal (omega arith) (omega arith)) (omega arith) (omega arith) (omega arith) refl

abbrev fatal_bytes : List ℕ
fatal_bytes = (encode_event_wal_payload_v2 fatal_payload (replicate 64 0)).1

encode_event_example :
    encode_event_wal_payload_v2 fatal_payload (replicate 64 0)
    ≡ (PayloadCodecStatus.ok, fatal_bytes)
encode_event_example = encode_event-decode_event fatal_bytes fatal_payload (
    decode_event-encode_event 1 2 3 true fatal_message (replicate 64 0)
      (matcher_fatal (omega arith) (omega arith)) (omega arith) (omega arith) (omega arith) refl)
