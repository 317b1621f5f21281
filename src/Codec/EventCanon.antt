-- ===== src/Codec/EventCanon.antt =====
-- codec.cpp: only canonical bytes are decoded to an event.
use ll_exp.Prelude.{
  ℕ, ◌≡◌, refl, ap, ◌==◌, ltb, if◌then◌else◌, true, not, ◌&&◌, Bool-cases, inl, inr, none, some,
  List, length, replicate,
}
use ll_exp.Matcher.Types.{Event, EventWalPayload}
use ll_exp.Codec.{PayloadCodecStatus, Parsed}
use ll_exp.Codec.Canonical.{after_parsed-canonical, if_fits, if_branches}
use ll_exp.Codec.Events.{
  encode_event, encode_event_wal_payload_v1, event_byte, final_flag, parse_event, event_with,
  decode_event_wal_payload_v1, is_replay_event, encode_event_wal_payload_v2,
  decode_event_wal_payload_v2,
}

v1_no_marker :
    (p : EventWalPayload) (m : Event)
    → is_replay_event m ≡ true
    → (encode_event_wal_payload_v1 (record p { message = m }) (replicate 64 0)).0
      ≡ PayloadCodecStatus.invalid_type
unfolding encode_event_wal_payload_v1 encode_event
v1_no_marker p Event.start_replay marker = refl
v1_no_marker p Event.stop_replay marker = refl
v1_no_marker p _ marker = cc

v1_is_v2 :
    (p : EventWalPayload) (bytes : List ℕ)
    → encode_event_wal_payload_v1 p (replicate 64 0) ≡ (PayloadCodecStatus.ok, bytes)
    → encode_event_wal_payload_v2 p (replicate 64 0) ≡ (PayloadCodecStatus.ok, bytes)
unfolding encode_event_wal_payload_v2
v1_is_v2 p bytes e = elim (Bool-cases (is_replay_event p.message)) [
  | inr live ↦ simp live e
  | inl marker ↦
      let refused = v1_no_marker p p.message marker in let accepted = ap (λ r. r.0) e in cc
]

v1_canonical :
    (bytes : List ℕ) (p : EventWalPayload)
    → decode_event_wal_payload_v1 bytes ≡ (PayloadCodecStatus.ok, some p)
    → encode_event_wal_payload_v1 p (replicate 64 0) ≡ (PayloadCodecStatus.ok, bytes)
unfolding decode_event_wal_payload_v1
v1_canonical bytes p e =
    let sized =
      if_fits (not (length bytes == 64)) (PayloadCodecStatus.invalid_size, none) _ p refl e in
    let flagged =
      if_fits (ltb 1 (final_flag bytes)) (PayloadCodecStatus.invalid_field, none) _ p refl
        sized.1 in
    after_parsed-canonical bytes (event_with bytes)
      (λ q. encode_event_wal_payload_v1 q (replicate 64 0)) (parse_event bytes) p flagged.1

-- Where `decode_event_wal_payload_v2` accepts bytes, these are exactly what
-- `encode_event_wal_payload_v2` makes of the result, so that no event has two encodings.
pub encode_event-decode_event :
    (bytes : List ℕ) (p : EventWalPayload)
    → decode_event_wal_payload_v2 bytes ≡ (PayloadCodecStatus.ok, some p)
    → encode_event_wal_payload_v2 p (replicate 64 0) ≡ (PayloadCodecStatus.ok, bytes)
unfolding decode_event_wal_payload_v2
encode_event-decode_event bytes p e =
    let sized =
      if_fits (not (length bytes == 64)) (PayloadCodecStatus.invalid_size, none) _ p refl e in
    let flagged =
      if_fits (ltb 1 (final_flag bytes)) (PayloadCodecStatus.invalid_field, none) _ p refl
        sized.1 in
    elim (if_branches (not (event_byte bytes == 10) && not (event_byte bytes == 11))
      (decode_event_wal_payload_v1 bytes) _ _ flagged.1) [
        | inl (live, found) ↦ v1_is_v2 p bytes (v1_canonical bytes p found)
        | inr (marker, found) ↦
            after_parsed-canonical bytes (event_with bytes)
              (λ q. encode_event_wal_payload_v2 q (replicate 64 0))
              (Parsed.parsed
                (if event_byte bytes == 10 then Event.start_replay else Event.stop_replay))
              p found
      ]
