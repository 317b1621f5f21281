-- ===== src/Codec/EventTrips.antt =====
-- codec.cpp: an event that is encoded comes back.
use ll_exp.Prelude.{
  ℕ, ◌^◌, ◌<◌, ◌≡◌, refl, sym, ap, ◌∙◌, ◌==◌, ltb, if◌then◌else◌, Bool, true, false, not, ◌&&◌,
  Bool-cases, inl, inr, some, List, length, replicate, eq→==, take, drop, ◌++◌,
}
use ll_exp.Bytes.{write_u32, write_u64, read_u32, read_u64, joined, joined_back_32, joined_back_64}
use ll_exp.Matcher.Types.{Event, EventWalPayload}
use ll_exp.Codec.{PayloadCodecStatus, Parsed}
use ll_exp.Codec.Canonical.{bytes_equal_refl}
use ll_exp.Codec.Events.{
  event_type, flag_byte, event_prefix, encode_event, encode_event_wal_payload_v1, event_byte,
  final_flag, parse_event, event_with, decode_event_wal_payload_v1, is_replay_event,
  encode_event_wal_payload_v2, decode_event_wal_payload_v2,
}
use ll_exp.Codec.EventFields.{
  FitsEvent, order_accepted, order_rejected, trade, order_rested, order_done, save_snapshot,
  load_snapshot, shutdown, matcher_fatal, start_replay, stop_replay, event_bytes, side_back,
  reject_back, fatal_back, flag_back, flag_valid,
}

module _ (client sequence index : ℕ) (last : Bool) where
  abbrev payload_of : Event → EventWalPayload
  payload_of m = record {
    client_id = client;
    caused_by_command_sequence = sequence;
    index_in_command = index;
    is_last_for_command = last;
    message = m;
  }

  -- The part in front of the message.
  abbrev front_bytes : Event → List ℕ
  front_bytes m = take 24 (event_prefix (payload_of m) (replicate 64 0))

  front_first :
      (m : Event)
      → FitsEvent m
      → event_bytes (payload_of m) ≡ front_bytes m ++ drop 24 (event_bytes (payload_of m))
  unfolding encode_event_wal_payload_v2 encode_event_wal_payload_v1 encode_event write_u32 write_u64
  front_first _ (order_accepted a) = refl
  front_first _ (order_rejected a) = refl
  front_first _ (trade a b c d e f) = refl
  front_first _ (order_rested a b c d) = refl
  front_first _ (order_done a) = refl
  front_first _ save_snapshot = refl
  front_first _ (load_snapshot a b) = refl
  front_first _ shutdown = refl
  front_first _ (matcher_fatal a b) = refl
  front_first _ start_replay = refl
  front_first _ stop_replay = refl

  length-event_bytes : (m : Event) → FitsEvent m → length (event_bytes (payload_of m)) ≡ 64
  unfolding encode_event_wal_payload_v2 encode_event_wal_payload_v1 encode_event write_u32 write_u64
  length-event_bytes _ (order_accepted a) = refl
  length-event_bytes _ (order_rejected a) = refl
  length-event_bytes _ (trade a b c d e f) = refl
  length-event_bytes _ (order_rested a b c d) = refl
  length-event_bytes _ (order_done a) = refl
  length-event_bytes _ save_snapshot = refl
  length-event_bytes _ (load_snapshot a b) = refl
  length-event_bytes _ shutdown = refl
  length-event_bytes _ (matcher_fatal a b) = refl
  length-event_bytes _ start_replay = refl
  length-event_bytes _ stop_replay = refl

  -- What the decoders read of it, whatever follows.
  record FrontPart (m : Event) (bytes : List ℕ) : Type 0 where
    kind : event_byte bytes ≡ event_type m
    flag : final_flag bytes ≡ flag_byte last
    whole : (n : Event) → event_with bytes n ≡ payload_of n

  front_back :
      (m : Event) (rest : List ℕ)
      → client < 2 ^ 64
      → sequence < 2 ^ 64
      → index < 2 ^ 32
      → FrontPart m (front_bytes m ++ rest)
  unfolding write_u32 write_u64 read_u32 read_u64 joined
  front_back m rest c q x = record {
    kind = refl;
    flag = refl;
    whole = λ n i. record {
      client_id = joined_back_64 client c i;
      caused_by_command_sequence = joined_back_64 sequence q i;
      index_in_command = joined_back_32 index x i;
      is_last_for_command = flag_back last i;
      message = n;
    };
  }

  event_back :
      (m : Event)
      → FitsEvent m
      → is_replay_event m ≡ false
      → parse_event (event_bytes (payload_of m)) ≡ Parsed.parsed m
  unfolding encode_event_wal_payload_v2 encode_event_wal_payload_v1 encode_event write_u32 write_u64
      read_u64 read_u32 joined parse_event
  event_back _ (order_accepted {id} a) live =
      λ i. Parsed.parsed (Event.order_accepted (joined_back_64 id a i))
  event_back _ (order_rejected {id} {r} a) live =
      simp (reject_back r) (λ i. Parsed.parsed (Event.order_rejected (joined_back_64 id a i) r))
  event_back _ (trade {t} a b c d e f) live = λ i. Parsed.parsed (
      Event.trade (record {
        taker_order_id = joined_back_64 t.taker_order_id a i;
        maker_order_id = joined_back_64 t.maker_order_id b i;
        taker_owner_id = joined_back_64 t.taker_owner_id c i;
        maker_owner_id = joined_back_64 t.maker_owner_id d i;
        price = joined_back_32 t.price e i;
        quantity = joined_back_32 t.quantity f i;
      }))
  event_back _ (order_rested {o} a b c d) live = simp (side_back o.side).0 (λ i. Parsed.parsed (
      Event.order_rested (record {
        id = joined_back_64 o.id a i;
        owner_id = joined_back_64 o.owner_id b i;
        side = (side_back o.side).1 i;
        price = joined_back_32 o.price c i;
        remaining = joined_back_32 o.remaining d i;
      })))
  event_back _ (order_done {id} a) live =
      λ i. Parsed.parsed (Event.order_done (joined_back_64 id a i))
  event_back _ save_snapshot live = refl
  event_back _ (load_snapshot {l} a b) live = λ i. Parsed.parsed (
      Event.load_snapshot (record {
        save_snapshot_command_sequence = joined_back_64 l.save_snapshot_command_sequence a i;
        snapshot_epoch_id = joined_back_64 l.snapshot_epoch_id b i;
      }))
  event_back _ shutdown live = refl
  event_back _ (matcher_fatal {f} a b) live = simp (fatal_back f.reason) (λ i. Parsed.parsed (
      Event.matcher_fatal (record {
        reason = f.reason;
        offending_order_id = joined_back_64 f.offending_order_id a i;
        last_order_id = joined_back_64 f.last_order_id b i;
      })))
  event_back _ start_replay live = cc
  event_back _ stop_replay live = cc

  front_of_bytes :
      (m : Event)
      → FitsEvent m
      → client < 2 ^ 64
      → sequence < 2 ^ 64
      → index < 2 ^ 32
      → FrontPart m (event_bytes (payload_of m))
  front_of_bytes m fits c q x = rw (front_first m fits) (front_back m _ c q x)

  -- Both versions agree where the event is no replay marker.
  encode_v1_same :
      (m : Event)
      → is_replay_event m ≡ false
      → encode_event_wal_payload_v2 (payload_of m) (replicate 64 0)
        ≡ encode_event_wal_payload_v1 (payload_of m) (replicate 64 0)
  unfolding encode_event_wal_payload_v2
  encode_v1_same m live = simp live

  encoded_ok :
      (m : Event)
      → FitsEvent m
      → encode_event_wal_payload_v2 (payload_of m) (replicate 64 0)
        ≡ (PayloadCodecStatus.ok, event_bytes (payload_of m))
  unfolding encode_event_wal_payload_v2 encode_event_wal_payload_v1 encode_event
  encoded_ok _ (order_accepted a) = refl
  encoded_ok _ (order_rejected a) = refl
  encoded_ok _ (trade a b c d e f) = refl
  encoded_ok _ (order_rested a b c d) = refl
  encoded_ok _ (order_done a) = refl
  encoded_ok _ save_snapshot = refl
  encoded_ok _ (load_snapshot a b) = refl
  encoded_ok _ shutdown = refl
  encoded_ok _ (matcher_fatal a b) = refl
  encoded_ok _ start_replay = refl
  encoded_ok _ stop_replay = refl

  live_kind : (m : Event) → is_replay_event m ≡ false → (event_type m == 10) ≡ false
  live_kind Event.none live = refl
  live_kind (Event.order_accepted id) live = refl
  live_kind (Event.order_rejected id r) live = refl
  live_kind (Event.trade t) live = refl
  live_kind (Event.order_rested o) live = refl
  live_kind (Event.order_done id) live = refl
  live_kind Event.save_snapshot live = refl
  live_kind (Event.load_snapshot l) live = refl
  live_kind Event.shutdown live = refl
  live_kind (Event.matcher_fatal f) live = refl
  live_kind Event.start_replay live = cc
  live_kind Event.stop_replay live = refl

  live_other : (m : Event) → is_replay_event m ≡ false → (event_type m == 11) ≡ false
  live_other Event.none live = refl
  live_other (Event.order_accepted id) live = refl
  live_other (Event.order_rejected id r) live = refl
  live_other (Event.trade t) live = refl
  live_other (Event.order_rested o) live = refl
  live_other (Event.order_done id) live = refl
  live_other Event.save_snapshot live = refl
  live_other (Event.load_snapshot l) live = refl
  live_other Event.shutdown live = refl
  live_other (Event.matcher_fatal f) live = refl
  live_other Event.start_replay live = refl
  live_other Event.stop_replay live = cc

  -- The decoders on bytes with that front.
  module _ (m : Event) (bytes : List ℕ) (front : FrontPart m bytes)
      (sized : length bytes ≡ 64) where
    flag_fits : ltb 1 (final_flag bytes) ≡ false
    flag_fits = ap (λ n. ltb 1 n) front.flag ∙ flag_valid last

    decode_v1_back :
        parse_event bytes ≡ Parsed.parsed m
        → encode_event_wal_payload_v1 (payload_of m) (replicate 64 0)
          ≡ (PayloadCodecStatus.ok, bytes)
        → decode_event_wal_payload_v1 bytes ≡ (PayloadCodecStatus.ok, some (payload_of m))
    unfolding decode_event_wal_payload_v1
    decode_v1_back found encoded =
        simp (eq→== _ _ sized, flag_fits, found, front.whole m, encoded, bytes_equal_refl bytes)

    decode_v2_back :
        is_replay_event m ≡ false
        → decode_event_wal_payload_v2 bytes ≡ decode_event_wal_payload_v1 bytes
    unfolding decode_event_wal_payload_v2
    decode_v2_back live =
        let first : (event_byte bytes == 10) ≡ false =
          ap (λ n. n == 10) front.kind ∙ live_kind m live in
        let second : (event_byte bytes == 11) ≡ false =
          ap (λ n. n == 11) front.kind ∙ live_other m live in
        simp (eq→== _ _ sized, flag_fits, first, second)

    decode_marker_back :
        (not (event_byte bytes == 10) && not (event_byte bytes == 11)) ≡ false
        → (if event_byte bytes == 10 then Event.start_replay else Event.stop_replay) ≡ m
        → encode_event_wal_payload_v2 (payload_of m) (replicate 64 0)
          ≡ (PayloadCodecStatus.ok, bytes)
        → decode_event_wal_payload_v2 bytes ≡ (PayloadCodecStatus.ok, some (payload_of m))
    unfolding decode_event_wal_payload_v2
    decode_marker_back marker message encoded = simp (
      eq→== _ _ sized,
      flag_fits,
      marker,
      message,
      front.whole m,
      encoded,
      bytes_equal_refl bytes,
    )

  buffer_filled :
      (m : Event) (buffer : List ℕ)
      → length buffer ≡ 64
      → (encode_event_wal_payload_v2 (payload_of m) buffer).1 ≡ event_bytes (payload_of m)
  unfolding encode_event_wal_payload_v2 encode_event_wal_payload_v1
  buffer_filled m buffer sized = rw sized refl

  marker_trip :
      (m : Event)
      → FitsEvent m
      → is_replay_event m ≡ true
      → client < 2 ^ 64
      → sequence < 2 ^ 64
      → index < 2 ^ 32
      → decode_event_wal_payload_v2 (event_bytes (payload_of m))
        ≡ (PayloadCodecStatus.ok, some (payload_of m))
  unfolding encode_event_wal_payload_v2 write_u32 write_u64
  marker_trip _ start_replay marker c q x =
      decode_marker_back Event.start_replay (event_bytes (payload_of Event.start_replay))
        (front_of_bytes _ start_replay c q x) refl refl refl refl
  marker_trip _ stop_replay marker c q x =
      decode_marker_back Event.stop_replay (event_bytes (payload_of Event.stop_replay))
        (front_of_bytes _ stop_replay c q x) refl refl refl refl
  marker_trip _ _ marker c q x = cc

  -- For an event of the second version with fields of their widths, a client and a command number
  -- of 64 bits, an index of 32 bits and a buffer of 64 bytes of any content, decoding the encoded
  -- payload returns `Ok` with the payload.
  pub decode_event-encode_event :
      (m : Event) (buffer : List ℕ)
      → FitsEvent m
      → client < 2 ^ 64
      → sequence < 2 ^ 64
      → index < 2 ^ 32
      → length buffer ≡ 64
      → decode_event_wal_payload_v2 (encode_event_wal_payload_v2 (payload_of m) buffer).1
        ≡ (PayloadCodecStatus.ok, some (payload_of m))
  decode_event-encode_event m buffer fits c q x sized =
      let front = front_of_bytes m fits c q x in
      let bytes = event_bytes (payload_of m) in
      rw (buffer_filled m buffer sized) (elim (Bool-cases (is_replay_event m)) [
        | inl marker ↦ marker_trip m fits marker c q x
        | inr live ↦
            decode_v2_back m bytes front (length-event_bytes m fits) live
            ∙ decode_v1_back m bytes front (length-event_bytes m fits) (event_back m fits live)
                (sym (encode_v1_same m live) ∙ encoded_ok m fits)
      ])
