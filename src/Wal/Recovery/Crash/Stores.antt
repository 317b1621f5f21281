-- ===== src/Wal/Recovery/Crash/Stores.antt =====
-- physical_wal_file.cpp and recovery.cpp together: an append that may fail, then a recovery.
use ll_exp.Prelude.{
  ℕ, ◌+◌, ◌<◌, ◌≡◌, sym, ap, ◌∙◌, arith, Bool, true, false, List, [], ◌∷◌, ◌++◌, length, take,
  length-append,
}
use mathlib.Core.List.{append_assoc, append-nil}
use ll_exp.Wal.Format.{WalConfig}
use ll_exp.Wal.Disk.{PhysicalWalAdapter, append_record}
use ll_exp.Wal.Disk.Append.{
  record_bytes, Wrote, whole, cut, Appended, written, not_open, wrong_size, append_record-Appended,
}
use ll_exp.Wal.Reader.Records.{aligned_covers}
use ll_exp.Wal.Reader.Scans.{log_bytes, length-record_bytes}
use ll_exp.Wal.Reader.Opens.{file_bytes}
use ll_exp.Wal.Recovery.{recover_incomplete_tail}
use ll_exp.Wal.Recovery.Crash.{
  crashed_file, whole_file, sound_system, Fits, Repaired, recover_incomplete_tail-Repaired,
}

-- One more payload at the end.
log_bytes-append :
    (c : WalConfig) (sequence : ℕ) (payloads : List (List ℕ)) (next : List ℕ)
    → log_bytes c sequence (payloads ++ next ∷ [])
      ≡ log_bytes c sequence payloads ++ record_bytes c (sequence + length payloads) next
log_bytes-append c sequence [] next =
    let here : sequence + 0 ≡ sequence = omega arith in
    rw here (append-nil (record_bytes c sequence next))
log_bytes-append c sequence (p ∷ payloads) next =
    let here : sequence + length (p ∷ payloads) ≡ sequence + 1 + length payloads = omega arith in
    rw (here, log_bytes-append c (sequence + 1) payloads next)
      (sym (
        append_assoc (record_bytes c sequence p) (log_bytes c (sequence + 1) payloads)
          (record_bytes c (sequence + 1 + length payloads) next)))

Wrote-config :
    (c d : WalConfig) (sequence : ℕ) (next : List ℕ) (a : PhysicalWalAdapter)
    (r : Bool × PhysicalWalAdapter)
    → d ≡ c
    → Wrote (record_bytes d sequence next) a r
    → Wrote (record_bytes c sequence next) a r
Wrote-config c d sequence next a r e w = rw (sym e) w

-- The append has stored the record, or it has failed and the record is gone.
pub data Survives (c : WalConfig) (payloads : List (List ℕ)) (next : List ℕ) (rounds : ℕ)
    : Bool × PhysicalWalAdapter → Type 0 where
  stored :
      {a' : PhysicalWalAdapter}
      → Repaired c
          (payloads ++ next ∷ [])
          0
          (recover_incomplete_tail rounds sound_system c a'.content)
      → Survives c payloads next rounds (true, a')
  lost :
      {a' : PhysicalWalAdapter} (n : ℕ)
      → Repaired c payloads n (recover_incomplete_tail rounds sound_system c a'.content)
      → Survives c payloads next rounds (false, a')

module _ (c : WalConfig) (payloads : List (List ℕ)) (next : List ℕ) (f : Fits c payloads next)
    (later : Fits c (payloads ++ next ∷ []) next) (rounds : ℕ)
    (enough : length payloads + 1 < rounds) (a : PhysicalWalAdapter) (same_config : a.config ≡ c)
    (content : a.content ≡ whole_file c payloads) where
  grown_whole :
      a.content ++ record_bytes c (c.first_sequence + length payloads) next
      ≡ crashed_file c (payloads ++ next ∷ []) next 0
  grown_whole =
      let end = record_bytes c (c.first_sequence + length payloads) next in
      rw (content, append_assoc (file_bytes c) (log_bytes c c.first_sequence payloads) end)
        (ap (λ xs. file_bytes c ++ xs)
          (sym (append-nil _ ∙ log_bytes-append c c.first_sequence payloads next)))

  grown_part :
      (n : ℕ)
      → a.content ++ take n (record_bytes c (c.first_sequence + length payloads) next)
        ≡ crashed_file c payloads next n
  grown_part n = rw content (
      append_assoc (file_bytes c) (log_bytes c c.first_sequence payloads)
        (take n (record_bytes c (c.first_sequence + length payloads) next)))

  bytes-Survives :
      (r : Bool × PhysicalWalAdapter)
      → Wrote (record_bytes c (c.first_sequence + length payloads) next) a r
      → Survives c payloads next rounds r
  bytes-Survives _ (whole grown) = stored (
      rw (grown.content ∙ grown_whole) (
        recover_incomplete_tail-Repaired c (payloads ++ next ∷ []) next later rounds
          (omega (arith, enough, length-append payloads (next ∷ []))) 0
          (omega (
            arith,
            length-record_bytes c (c.first_sequence + length (payloads ++ next ∷ [])) next f.widths
                f.same,
            aligned_covers c f.widths,
          ))))
  bytes-Survives _ (cut n short grown) = lost n (
      rw (grown.content ∙ grown_part n)
        (recover_incomplete_tail-Repaired c payloads next f rounds (omega (arith, enough)) n short))

  outcome-Survives :
      (r : Bool × PhysicalWalAdapter)
      → a.is_open ≡ true
      → Appended (c.first_sequence + length payloads) next a r
      → Survives c payloads next rounds r
  outcome-Survives r running (written open_now fits bytes) =
      bytes-Survives r (Wrote-config c a.config _ next a r same_config bytes)
  outcome-Survives _ running (not_open closed) = cc
  outcome-Survives _ running (wrong_size other) =
      absurd (other (sym f.same ∙ ap (λ d. d.payload_size) (sym same_config)))

  -- On an open log whose file holds the records of some payloads after a valid header, with
  -- everything in the widths of its fields and below 2^63 bytes, `append_record` of the next
  -- payload either succeeds, and then a recovery on a system that refuses nothing finds the file
  -- clean with one record more; or it fails, whatever was written, and then that recovery leaves
  -- exactly the file with the old records. The recovery returns a result for any number of rounds
  -- above the number of records.
  pub append_record-Survives :
      a.is_open ≡ true
      → Survives c payloads next rounds (append_record (c.first_sequence + length payloads) next a)
  append_record-Survives running =
      outcome-Survives _ running
        (append_record-Appended (c.first_sequence + length payloads) next a)
