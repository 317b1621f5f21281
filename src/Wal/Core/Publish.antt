-- ===== src/Wal/Core/Publish.antt =====
-- core.cpp: `try_publish` on a log that stands for a history.
use ll_exp.Prelude.{
  ℕ, ◌+◌, ◌-◌, ◌%◌, ◌<◌, ◌≡◌, ◌≢◌, refl, arith, true, List, [], ◌∷◌, ◌++◌, ◌⊎◌, inl, inr, ltb, ◌==◌,
  length, Bool-cases,
}
use ll_exp.Wal.Types.{PublishStatus, PublishResult}
use ll_exp.Wal.Core.{WalCore, u64_mod, block_at, refused, publish_checked, try_publish}
use ll_exp.Wal.Core.Window.{Models, store_record-Models, store_record-tail}

-- Setting the exhausted flag changes no record.
flagged :
    (w : WalCore) (history : List (List ℕ))
    → Models w history
    → Models (record w { sequence_exhausted = true }) history
flagged w history v = record {
  running = v.running;
  head = v.head;
  ordered = v.ordered;
  bounded = v.bounded;
  room = v.room;
  small = v.small;
  same_slots = v.same_slots;
  same_size = v.same_size;
  turn = v.turn;
  wide = v.wide;
  memory = v.memory;
  numbered = v.numbered;
  first = v.first;
  word = v.word;
  contents = λ p low high. unfold block_at in v.contents p low high;
}

-- The outcomes of `try_publish` on a log that stands for `history`.
pub data Published (w : WalCore) (history : List (List ℕ)) (payload : List ℕ)
    : PublishResult × WalCore → Type 0 where
  accepted :
      {w' : WalCore} {sequence : ℕ}
      → length payload ≡ w.config.payload_size
      → w.head < w.tail + w.slots
      → sequence ≡ w.config.first_sequence + length history
      → Models w' (history ++ payload ∷ [])
      → w'.tail ≡ w.tail
      → Published w history payload (record { status = PublishStatus.ok; sequence = sequence }, w')
  wrong_size :
      length payload ≢ w.config.payload_size
      → Published w history payload (refused PublishStatus.invalid_payload_size, w)
  no_room : w.head ≡ w.tail + w.slots → Published w history payload (refused PublishStatus.full, w)
  exhausted :
      {w' : WalCore}
      → (w.sequence_exhausted ≡ true) ⊎ (w.head + w.config.first_sequence ≡ u64_mod)
      → w'.sequence_exhausted ≡ true
      → Models w' history
      → Published w history payload (refused PublishStatus.sequence_exhausted, w')

-- An `Ok` means that the payload was appended.
pub Models-of_ok :
    (w : WalCore) (history : List (List ℕ)) (payload : List ℕ) (r : PublishResult × WalCore)
    → Published w history payload r
    → r.0.status ≡ PublishStatus.ok
    → Models r.1 (history ++ payload ∷ [])
Models-of_ok w history payload _ (accepted size space number models tail) e = models
Models-of_ok w history payload _ (wrong_size size) e = absurd cc
Models-of_ok w history payload _ (no_room full) e = absurd cc
Models-of_ok w history payload _ (exhausted why flag models) e = absurd cc

publish_open :
    (w : WalCore) (history : List (List ℕ)) (payload : List ℕ)
    → Models w history
    → length payload ≡ w.config.payload_size
    → (w.head + u64_mod - w.tail) % u64_mod ≡ w.head - w.tail
    → Published w history payload (publish_checked w payload)
unfolding publish_checked
publish_open w history payload v exact difference =
    elim (Bool-cases ((w.head + u64_mod - w.tail) % u64_mod == w.config.capacity)) [
      | inl full ↦ rw full (no_room (ground (arith, v.same_slots, v.ordered)))
      | inr vacant ↦
          let space : w.head < w.tail + w.slots =
            ground (arith, v.same_slots, v.ordered, v.bounded) in
          rw vacant (elim (Bool-cases (ltb (u64_mod - 1 - w.config.first_sequence) w.head)) [
            | inl last ↦ rw last (
                exhausted (inr (ground (arith, v.numbered, v.first, v.word))) refl
                  (flagged w history v))
            | inr more ↦
                let fresh : w.head + w.config.first_sequence < u64_mod =
                  ground (arith, v.numbered, v.first, v.word) in
                rw more (
                  accepted exact space (omega (arith, v.head))
                    (store_record-Models w history v payload exact space fresh)
                    (store_record-tail w payload))
          ])
    ]

-- On a log that stands for a history of payloads, `try_publish` has one of four outcomes: it
-- accepts a payload of the right size where the window has room, returns the first sequence
-- number plus the length of the history, and the new log stands for the history with the payload
-- at its end, under the same tail; it refuses a payload of another size and changes nothing; it
-- refuses on a full window and changes nothing; or the sequence numbers are used up, the flag is
-- set, and the history stays.
pub try_publish-Published :
    (w : WalCore) (history : List (List ℕ)) (payload : List ℕ)
    → Models w history
    → Published w history payload (try_publish w payload)
unfolding try_publish
try_publish-Published w history payload v =
    let difference : (w.head + u64_mod - w.tail) % u64_mod ≡ w.head - w.tail =
      omega (arith, v.ordered, v.bounded, v.small, v.numbered) in
    simp v.running (elim (Bool-cases (length payload == w.config.payload_size)) [
      | inr wrong ↦ rw wrong (wrong_size (ground arith))
      | inl exact ↦ rw exact (elim (Bool-cases w.sequence_exhausted) [
        | inl over ↦ simp over (exhausted (inl over) over v)
        | inr going ↦ simp going (publish_open w history payload v (ground arith) difference)
      ])
    ])
