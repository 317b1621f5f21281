-- ===== src/Codec/Commands.antt =====
-- codec.cpp: the codecs of a command's payload, in both versions of the schema.
use ll_exp.Prelude.{
  ℕ, ◌==◌, if◌then◌else◌, Bool, true, false, not, ◌&&◌, Option, none, List, length, get_or, set,
  replicate,
}
use ll_exp.Bytes.{write_u32, write_u64, read_u32, read_u64}
use ll_exp.Matcher.Types.{Command, CommandWalPayload}
use ll_exp.Codec.{
  PayloadCodecStatus, Parsed, command_wal_payload_size, side_byte, side_of, valid_side,
  after_parsed,
}

abbrev pub command_type : Command → ℕ
command_type Command.none = 0
command_type (Command.new_limit order) = 1
command_type Command.save_snapshot = 2
command_type (Command.load_snapshot command) = 3
command_type Command.shutdown = 4
command_type Command.start_replay = 5
command_type Command.stop_replay = 6

abbrev pub command_prefix : CommandWalPayload → List ℕ → List ℕ
command_prefix payload bytes =
    set (write_u64 (replicate (length bytes) 0) 0 payload.client_id) 8
      (command_type payload.message)

-- The switch of `encode_command_wal_payload_v1`.
unfoldable pub encode_command : Command → List ℕ → PayloadCodecStatus × List ℕ
encode_command (Command.new_limit order) bytes =
    let b₁ = write_u64 bytes 16 order.id in
    let b₂ = write_u64 b₁ 24 order.owner_id in
    let b₃ = set b₂ 32 (side_byte order.side) in
    let b₄ = write_u32 b₃ 36 order.price in (PayloadCodecStatus.ok, write_u32 b₄ 40 order.quantity)
encode_command Command.save_snapshot bytes = (PayloadCodecStatus.ok, bytes)
encode_command (Command.load_snapshot command) bytes =
    let b₁ = write_u64 bytes 16 command.save_snapshot_command_sequence in
    (PayloadCodecStatus.ok, write_u64 b₁ 24 command.snapshot_epoch_id)
encode_command Command.shutdown bytes = (PayloadCodecStatus.ok, bytes)
encode_command _ bytes = (PayloadCodecStatus.invalid_type, bytes)

unfoldable pub encode_command_wal_payload_v1 :
    CommandWalPayload → List ℕ → PayloadCodecStatus × List ℕ
unfolding encode_command
encode_command_wal_payload_v1 payload bytes =
    if not (length bytes == command_wal_payload_size)
    then (PayloadCodecStatus.invalid_size, bytes)
    else encode_command payload.message (command_prefix payload bytes)

abbrev pub command_byte : List ℕ → ℕ
command_byte bytes = get_or bytes 8 0

-- The switch of `decode_command_wal_payload_v1`.
unfoldable pub parse_command : List ℕ → Parsed Command
parse_command bytes =
    if command_byte bytes == 1
    then if not (valid_side (get_or bytes 32 0))
      then Parsed.refused PayloadCodecStatus.invalid_field
      else Parsed.parsed (
          Command.new_limit (record {
            id = read_u64 bytes 16;
            owner_id = read_u64 bytes 24;
            side = side_of (get_or bytes 32 0);
            price = read_u32 bytes 36;
            quantity = read_u32 bytes 40;
          }))
    else if command_byte bytes == 2
    then Parsed.parsed Command.save_snapshot
    else if command_byte bytes == 3
    then Parsed.parsed (
        Command.load_snapshot (record {
          save_snapshot_command_sequence = read_u64 bytes 16;
          snapshot_epoch_id = read_u64 bytes 24;
        }))
    else if command_byte bytes == 4
    then Parsed.parsed Command.shutdown
    else Parsed.refused PayloadCodecStatus.invalid_type

abbrev pub command_with : List ℕ → Command → CommandWalPayload
command_with bytes message = record { client_id = read_u64 bytes 0; message = message }

unfoldable pub decode_command_wal_payload_v1 :
    List ℕ → PayloadCodecStatus × Option CommandWalPayload
decode_command_wal_payload_v1 bytes =
    if not (length bytes == command_wal_payload_size)
    then (PayloadCodecStatus.invalid_size, none)
    else after_parsed bytes (command_with bytes)
        (λ p. encode_command_wal_payload_v1 p (replicate command_wal_payload_size 0))
        (parse_command bytes)

abbrev pub is_replay_command : Command → Bool
is_replay_command Command.start_replay = true
is_replay_command Command.stop_replay = true
is_replay_command _ = false

unfoldable pub encode_command_wal_payload_v2 :
    CommandWalPayload → List ℕ → PayloadCodecStatus × List ℕ
encode_command_wal_payload_v2 payload bytes =
    if not (length bytes == command_wal_payload_size)
    then (PayloadCodecStatus.invalid_size, bytes)
    else if not (is_replay_command payload.message)
    then encode_command_wal_payload_v1 payload bytes
    else (PayloadCodecStatus.ok, command_prefix payload bytes)

unfoldable pub decode_command_wal_payload_v2 :
    List ℕ → PayloadCodecStatus × Option CommandWalPayload
decode_command_wal_payload_v2 bytes =
    if not (length bytes == command_wal_payload_size)
    then (PayloadCodecStatus.invalid_size, none)
    else if not (command_byte bytes == 5) && not (command_byte bytes == 6)
    then decode_command_wal_payload_v1 bytes
    else after_parsed bytes (command_with bytes)
        (λ p. encode_command_wal_payload_v2 p (replicate command_wal_payload_size 0))
        (Parsed.parsed
          (if command_byte bytes == 5 then Command.start_replay else Command.stop_replay))
