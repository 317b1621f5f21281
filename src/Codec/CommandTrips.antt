-- ===== src/Codec/CommandTrips.antt =====
-- codec.cpp: a command that is encoded comes back.
use ll_exp.Prelude.{
  ℕ, ◌^◌, ◌<◌, ◌≡◌, refl, ap, ◌∙◌, ◌==◌, if◌then◌else◌, true, false, not, ◌&&◌, Bool-cases, inl,
  inr, some, List, length, replicate, eq→==,
}
use ll_exp.Bytes.{write_u32, write_u64, read_u32, read_u64, joined, joined_back_32, joined_back_64}
use ll_exp.Book.Types.{Side}
use ll_exp.Matcher.Types.{Command, NewLimitOrder, LoadSnapshotCommand, CommandWalPayload}
use ll_exp.Codec.{PayloadCodecStatus, Parsed, side_byte, side_of, valid_side}
use ll_exp.Codec.Canonical.{bytes_equal_refl}
use ll_exp.Codec.Commands.{
  command_type, encode_command, encode_command_wal_payload_v1, command_byte, parse_command,
  command_with, decode_command_wal_payload_v1, is_replay_command, encode_command_wal_payload_v2,
  decode_command_wal_payload_v2,
}

-- The commands of the second version, with fields of the types' widths.
pub data FitsCommand : Command → Type 0 where
  new_limit :
      {o : NewLimitOrder}
      → o.id < 2 ^ 64
      → o.owner_id < 2 ^ 64
      → o.price < 2 ^ 32
      → o.quantity < 2 ^ 32
      → FitsCommand (Command.new_limit o)
  save_snapshot : FitsCommand Command.save_snapshot
  load_snapshot :
      {l : LoadSnapshotCommand}
      → l.save_snapshot_command_sequence < 2 ^ 64
      → l.snapshot_epoch_id < 2 ^ 64
      → FitsCommand (Command.load_snapshot l)
  shutdown : FitsCommand Command.shutdown
  start_replay : FitsCommand Command.start_replay
  stop_replay : FitsCommand Command.stop_replay

-- The bytes of a payload in a buffer of the right size.
abbrev command_bytes : CommandWalPayload → List ℕ
command_bytes p = (encode_command_wal_payload_v2 p (replicate 48 0)).1

side_back : (side : Side) → (valid_side (side_byte side) ≡ true) × (side_of (side_byte side) ≡ side)
side_back Side.bid = (refl, refl)
side_back Side.ask = (refl, refl)

module _ (client : ℕ) (narrow : client < 2 ^ 64) where
  client_back :
      (m : Command)
      → FitsCommand m
      → read_u64 (command_bytes (record { client_id = client; message = m })) 0 ≡ client
  unfolding encode_command_wal_payload_v2 encode_command_wal_payload_v1 encode_command write_u32
      write_u64 read_u64 joined
  client_back _ (new_limit a b c d) = joined_back_64 client narrow
  client_back _ save_snapshot = joined_back_64 client narrow
  client_back _ (load_snapshot a b) = joined_back_64 client narrow
  client_back _ shutdown = joined_back_64 client narrow
  client_back _ start_replay = joined_back_64 client narrow
  client_back _ stop_replay = joined_back_64 client narrow

  command_back :
      (m : Command)
      → FitsCommand m
      → is_replay_command m ≡ false
      → parse_command (command_bytes (record { client_id = client; message = m })) ≡ Parsed.parsed m
  unfolding encode_command_wal_payload_v2 encode_command_wal_payload_v1 encode_command write_u32
      write_u64 read_u64 read_u32 joined parse_command
  command_back _ (new_limit {o} a b c d) live = simp (side_back o.side).0 (λ i. Parsed.parsed (
      Command.new_limit (record {
        id = joined_back_64 o.id a i;
        owner_id = joined_back_64 o.owner_id b i;
        side = (side_back o.side).1 i;
        price = joined_back_32 o.price c i;
        quantity = joined_back_32 o.quantity d i;
      })))
  command_back _ save_snapshot live = refl
  command_back _ (load_snapshot {l} a b) live = λ i. Parsed.parsed (
      Command.load_snapshot (record {
        save_snapshot_command_sequence = joined_back_64 l.save_snapshot_command_sequence a i;
        snapshot_epoch_id = joined_back_64 l.snapshot_epoch_id b i;
      }))
  command_back _ shutdown live = refl
  command_back _ start_replay live = cc
  command_back _ stop_replay live = cc

-- The steps of the decoders on bytes that are the encoding of what is parsed.
module _ (bytes : List ℕ) (p : CommandWalPayload) (sized : length bytes ≡ 48)
    (client : read_u64 bytes 0 ≡ p.client_id) where
  with_back : command_with bytes p.message ≡ p
  with_back = λ i. record { client_id = client i; message = p.message }

  decode_v1_back :
      parse_command bytes ≡ Parsed.parsed p.message
      → encode_command_wal_payload_v1 p (replicate 48 0) ≡ (PayloadCodecStatus.ok, bytes)
      → decode_command_wal_payload_v1 bytes ≡ (PayloadCodecStatus.ok, some p)
  unfolding decode_command_wal_payload_v1
  decode_v1_back found encoded =
      simp (eq→== _ _ sized, found, with_back, encoded, bytes_equal_refl bytes)

  decode_v2_back :
      (command_byte bytes == 5) ≡ false
      → (command_byte bytes == 6) ≡ false
      → decode_command_wal_payload_v2 bytes ≡ decode_command_wal_payload_v1 bytes
  unfolding decode_command_wal_payload_v2
  decode_v2_back no_start no_stop = simp (eq→== _ _ sized, no_start, no_stop)

  decode_marker_back :
      (not (command_byte bytes == 5) && not (command_byte bytes == 6)) ≡ false
      → (if command_byte bytes == 5 then Command.start_replay else Command.stop_replay) ≡ p.message
      → encode_command_wal_payload_v2 p (replicate 48 0) ≡ (PayloadCodecStatus.ok, bytes)
      → decode_command_wal_payload_v2 bytes ≡ (PayloadCodecStatus.ok, some p)
  unfolding decode_command_wal_payload_v2
  decode_marker_back marker message encoded =
      simp (eq→== _ _ sized, marker, message, with_back, encoded, bytes_equal_refl bytes)

module _ (client : ℕ) (narrow : client < 2 ^ 64) where
  abbrev payload_of : Command → CommandWalPayload
  payload_of m = record { client_id = client; message = m }

  length-command_bytes : (m : Command) → FitsCommand m → length (command_bytes (payload_of m)) ≡ 48
  unfolding encode_command_wal_payload_v2 encode_command_wal_payload_v1 encode_command write_u32
      write_u64
  length-command_bytes _ (new_limit a b c d) = refl
  length-command_bytes _ save_snapshot = refl
  length-command_bytes _ (load_snapshot a b) = refl
  length-command_bytes _ shutdown = refl
  length-command_bytes _ start_replay = refl
  length-command_bytes _ stop_replay = refl

  type_back :
      (m : Command) → FitsCommand m → command_byte (command_bytes (payload_of m)) ≡ command_type m
  unfolding encode_command_wal_payload_v2 encode_command_wal_payload_v1 encode_command write_u32
      write_u64
  type_back _ (new_limit a b c d) = refl
  type_back _ save_snapshot = refl
  type_back _ (load_snapshot a b) = refl
  type_back _ shutdown = refl
  type_back _ start_replay = refl
  type_back _ stop_replay = refl

  -- Both versions agree where the command is no replay marker.
  encode_v1_same :
      (m : Command)
      → FitsCommand m
      → is_replay_command m ≡ false
      → encode_command_wal_payload_v1 (payload_of m) (replicate 48 0)
        ≡ (PayloadCodecStatus.ok, command_bytes (payload_of m))
  unfolding encode_command_wal_payload_v2 encode_command_wal_payload_v1 encode_command
  encode_v1_same _ (new_limit a b c d) live = refl
  encode_v1_same _ save_snapshot live = refl
  encode_v1_same _ (load_snapshot a b) live = refl
  encode_v1_same _ shutdown live = refl
  encode_v1_same _ start_replay live = cc
  encode_v1_same _ stop_replay live = cc

  live_type :
      (m : Command)
      → FitsCommand m
      → is_replay_command m ≡ false
      → ((command_type m == 5) ≡ false) × ((command_type m == 6) ≡ false)
  live_type _ (new_limit a b c d) live = (refl, refl)
  live_type _ save_snapshot live = (refl, refl)
  live_type _ (load_snapshot a b) live = (refl, refl)
  live_type _ shutdown live = (refl, refl)
  live_type _ start_replay live = cc
  live_type _ stop_replay live = cc

  live_trip :
      (m : Command)
      → FitsCommand m
      → is_replay_command m ≡ false
      → decode_command_wal_payload_v2 (command_bytes (payload_of m))
        ≡ (PayloadCodecStatus.ok, some (payload_of m))
  live_trip m fits live =
      let sized = length-command_bytes m fits in
      let back = client_back client narrow m fits in
      let byte = type_back m fits in
      decode_v2_back (command_bytes (payload_of m)) (payload_of m) sized back
        (ap (λ t. t == 5) byte ∙ (live_type m fits live).0)
        (ap (λ t. t == 6) byte ∙ (live_type m fits live).1)
      ∙ decode_v1_back (command_bytes (payload_of m)) (payload_of m) sized back
          (command_back client narrow m fits live) (encode_v1_same m fits live)

  marker_trip :
      (m : Command)
      → FitsCommand m
      → is_replay_command m ≡ true
      → decode_command_wal_payload_v2 (command_bytes (payload_of m))
        ≡ (PayloadCodecStatus.ok, some (payload_of m))
  unfolding encode_command_wal_payload_v2 write_u64
  marker_trip _ start_replay marker =
      decode_marker_back (command_bytes (payload_of Command.start_replay))
        (payload_of Command.start_replay) refl (client_back client narrow _ start_replay) refl refl
        refl
  marker_trip _ stop_replay marker =
      decode_marker_back (command_bytes (payload_of Command.stop_replay))
        (payload_of Command.stop_replay) refl (client_back client narrow _ stop_replay) refl refl
        refl
  marker_trip _ _ marker = cc

  -- What the buffer held does not matter.
  buffer_filled :
      (m : Command) (buffer : List ℕ)
      → length buffer ≡ 48
      → (encode_command_wal_payload_v2 (payload_of m) buffer).1 ≡ command_bytes (payload_of m)
  unfolding encode_command_wal_payload_v2 encode_command_wal_payload_v1
  buffer_filled m buffer sized = rw sized refl

  -- For a client number of 64 bits, a command of the second version with fields of their widths,
  -- and a buffer of 48 bytes of any content, decoding the encoded payload returns `Ok` with the
  -- payload.
  pub decode_command-encode_command :
      (m : Command) (buffer : List ℕ)
      → FitsCommand m
      → length buffer ≡ 48
      → decode_command_wal_payload_v2 (encode_command_wal_payload_v2 (payload_of m) buffer).1
        ≡ (PayloadCodecStatus.ok, some (payload_of m))
  decode_command-encode_command m buffer fits sized =
      rw (buffer_filled m buffer sized) (elim (Bool-cases (is_replay_command m)) [
        | inl marker ↦ marker_trip m fits marker
        | inr live ↦ live_trip m fits live
      ])
