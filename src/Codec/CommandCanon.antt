-- ===== src/Codec/CommandCanon.antt =====
-- codec.cpp: only canonical bytes are decoded to a command.
use ll_exp.Prelude.{
  ℕ, ◌≡◌, refl, ap, ◌==◌, if◌then◌else◌, true, not, ◌&&◌, Bool-cases, inl, inr, none, some, List,
  length, replicate,
}
use ll_exp.Matcher.Types.{Command, CommandWalPayload}
use ll_exp.Codec.{PayloadCodecStatus, Parsed}
use ll_exp.Codec.Canonical.{after_parsed-canonical, if_fits, if_branches}
use ll_exp.Codec.Commands.{
  encode_command, encode_command_wal_payload_v1, command_byte, parse_command, command_with,
  decode_command_wal_payload_v1, is_replay_command, encode_command_wal_payload_v2,
  decode_command_wal_payload_v2,
}

v1_canonical :
    (bytes : List ℕ) (p : CommandWalPayload)
    → decode_command_wal_payload_v1 bytes ≡ (PayloadCodecStatus.ok, some p)
    → encode_command_wal_payload_v1 p (replicate 48 0) ≡ (PayloadCodecStatus.ok, bytes)
unfolding decode_command_wal_payload_v1
v1_canonical bytes p e =
    after_parsed-canonical bytes (command_with bytes)
      (λ q. encode_command_wal_payload_v1 q (replicate 48 0)) (parse_command bytes) p
      (if_fits (not (length bytes == 48)) (PayloadCodecStatus.invalid_size, none) _ p refl e).1

-- The first version encodes no replay marker.
v1_no_marker :
    (client : ℕ) (m : Command)
    → is_replay_command m ≡ true
    → (encode_command_wal_payload_v1
        (record { client_id = client; message = m })
        (replicate 48 0)).0
      ≡ PayloadCodecStatus.invalid_type
unfolding encode_command_wal_payload_v1 encode_command
v1_no_marker client Command.start_replay marker = refl
v1_no_marker client Command.stop_replay marker = refl
v1_no_marker client _ marker = cc

v1_is_v2 :
    (p : CommandWalPayload) (bytes : List ℕ)
    → encode_command_wal_payload_v1 p (replicate 48 0) ≡ (PayloadCodecStatus.ok, bytes)
    → encode_command_wal_payload_v2 p (replicate 48 0) ≡ (PayloadCodecStatus.ok, bytes)
unfolding encode_command_wal_payload_v2
v1_is_v2 p bytes e = elim (Bool-cases (is_replay_command p.message)) [
  | inr live ↦ simp live e
  | inl marker ↦
      let refused = v1_no_marker p.client_id p.message marker in
      let accepted = ap (λ r. r.0) e in cc
]

-- Where `decode_command_wal_payload_v2` accepts bytes, these are exactly what
-- `encode_command_wal_payload_v2` makes of the result, so that no command has two encodings.
pub encode_command-decode_command :
    (bytes : List ℕ) (p : CommandWalPayload)
    → decode_command_wal_payload_v2 bytes ≡ (PayloadCodecStatus.ok, some p)
    → encode_command_wal_payload_v2 p (replicate 48 0) ≡ (PayloadCodecStatus.ok, bytes)
unfolding decode_command_wal_payload_v2
encode_command-decode_command bytes p e =
    let fits =
      if_fits (not (length bytes == 48)) (PayloadCodecStatus.invalid_size, none) _ p refl e in
    elim (if_branches (not (command_byte bytes == 5) && not (command_byte bytes == 6))
      (decode_command_wal_payload_v1 bytes) _ _ fits.1) [
        | inl (live, found) ↦ v1_is_v2 p bytes (v1_canonical bytes p found)
        | inr (marker, found) ↦
            after_parsed-canonical bytes (command_with bytes)
              (λ q. encode_command_wal_payload_v2 q (replicate 48 0))
              (Parsed.parsed
                (if command_byte bytes == 5 then Command.start_replay else Command.stop_replay))
              p found
      ]
