-- ===== src/Wal/Recovery/Crash.antt =====
-- recovery.cpp: the recovery of a file whose last record may have been written in part.
pub mod Stores
use ll_exp.Prelude.{
  ℕ, zero, suc, ◌+◌, ◌-◌, ◌%◌, ◌^◌, ◌≤◌, ◌<◌, ◌≡◌, ◌≢◌, refl, sym, ap, ◌∙◌, arith, ◌==◌, ltb, leb,
  if◌then◌else◌, Bool, true, false, not, ◌&&◌, ◌||◌, Option, some, none, List, [], ◌∷◌, ◌++◌, ◌⊎◌,
  inl, inr, length, take, length-append, eq→==, ne→==, ==_refl, ge→ltb, lt→ltb, take-append,
  length-take,
}
use native.Mathlib.Decide.{ℕ_discrete}
use mathlib.Core.List.{append_assoc, append-nil}
use ll_exp.Wal.Core.{u64_mod}
use ll_exp.Wal.Format.{WalConfig, records_offset}
use ll_exp.Wal.Disk.Append.{record_bytes}
use ll_exp.Wal.Reader.{WalReadError, ScanStatus, ScanResult, valid_reader_config}
use ll_exp.Wal.Reader.Scan.{scan_wal, after_open, scan_loop, failed_scan}
use ll_exp.Wal.Reader.Records.{FitsConfig, quiet, reader_at}
use ll_exp.Wal.Reader.Scans.{
  log_bytes, Sized, Scanned, last_sequence_after, length-record_bytes, scan_loop-Scanned,
}
use ll_exp.Wal.Reader.Opens.{file_bytes, length-file_bytes, open_reader-file_bytes}
use ll_exp.Wal.Recovery.{
  RecoveryStatus, RecoveryResult, Scanning, System, result_from_scan, truncate_and_sync, scan_file,
  agree, after_rescan, after_truncate, repair_tail, after_scan, recover_incomplete_tail,
}

-- The payloads' records, and the first `n` bytes of that of `next`.
abbrev pub crashed_file : WalConfig → List (List ℕ) → List ℕ → ℕ → List ℕ
crashed_file c payloads next n =
    file_bytes c
    ++ (log_bytes c c.first_sequence payloads
        ++ take n (record_bytes c (c.first_sequence + length payloads) next))

abbrev pub whole_file : WalConfig → List (List ℕ) → List ℕ
whole_file c payloads = file_bytes c ++ log_bytes c c.first_sequence payloads

-- A system that refuses nothing.
abbrev pub sound_scan : Scanning
sound_scan = record { opens = true; faults = []; allocated = true }

abbrev pub sound_system : System
sound_system = record {
  first_scan = sound_scan;
  second_scan = sound_scan;
  sized = true;
  resized = true;
  sized_again = true;
  opened = true;
  truncated = true;
  synced = true;
  closed = true;
}

-- The configuration is valid, the payloads have its size, and nothing overflows.
pub record Fits (c : WalConfig) (payloads : List (List ℕ)) (next : List ℕ) : Type 0 where
  pub widths : FitsConfig c
  pub valid : valid_reader_config c ≡ true
  pub sized : Sized c payloads
  pub same : c.payload_size ≡ length next
  pub sequences : c.first_sequence + length payloads < u64_mod
  pub bytes : records_offset c + length (log_bytes c c.first_sequence payloads) < 2 ^ 63

abbrev pub fresh_scan : WalConfig → ScanResult
fresh_scan c = failed_scan ScanStatus.clean WalReadError.no_error (records_offset c)

module _ (c : WalConfig) (payloads : List (List ℕ)) (next : List ℕ) (f : Fits c payloads next)
    (rounds : ℕ) (enough : length payloads < rounds) where
  -- On a system that opens the file, refuses no read and has memory for a payload, for a file
  -- with a valid header, the records of some payloads and the first `n` bytes of one more record,
  -- in the widths of its fields, the scan returns within one round more than there are records:
  -- it counts the whole records, with the last sequence number and the offset after them, and
  -- tells whether bytes follow.
  pub scan_file-Scanned :
      (n : ℕ)
      → n < length (record_bytes c (c.first_sequence + length payloads) next)
      → Scanned c c.first_sequence
          (fresh_scan c)
          payloads
          n
          (scan_file rounds sound_scan c (crashed_file c payloads next n))
  unfolding scan_file scan_wal after_open
  scan_file-Scanned n short =
      rw
        (open_reader-file_bytes c f.widths f.valid (
          log_bytes c c.first_sequence payloads
          ++ take n (record_bytes c (c.first_sequence + length payloads) next)))
        (scan_loop-Scanned c f.widths payloads rounds c.first_sequence (records_offset c) n
          (fresh_scan c) next f.sized f.same enough f.sequences (omega (arith, f.sequences))
          (omega (arith, f.bytes)) refl refl short)

-- The recovery leaves the file with its whole records; it takes `n` bytes away.
pub record Repaired (c : WalConfig) (payloads : List (List ℕ)) (n : ℕ)
    (out : Option RecoveryResult × List ℕ) : Type 0 where
  pub got : RecoveryResult
  pub returned : out.0 ≡ some got
  pub content : out.1 ≡ whole_file c payloads
  pub records : got.records ≡ length payloads
  pub removed_bytes : got.removed_bytes ≡ n
  pub status :
      ((n ≡ 0) × (got.status ≡ RecoveryStatus.clean))
      ⊎ ((0 < n) × (got.status ≡ RecoveryStatus.recovered))

length-whole_file :
    (c : WalConfig) (payloads : List (List ℕ)) (next : List ℕ)
    → Fits c payloads next
    → length (whole_file c payloads)
      ≡ records_offset c + length (log_bytes c c.first_sequence payloads)
length-whole_file c payloads next f =
    length-append (file_bytes c) (log_bytes c c.first_sequence payloads)
    ∙ ap (λ k. k + length (log_bytes c c.first_sequence payloads))
        (length-file_bytes c f.widths f.valid)

crashed_file-none :
    (c : WalConfig) (payloads : List (List ℕ)) (next : List ℕ)
    → crashed_file c payloads next 0 ≡ whole_file c payloads
crashed_file-none c payloads next =
    ap (λ xs. file_bytes c ++ xs) (append-nil (log_bytes c c.first_sequence payloads))

-- Nothing is missing: the first scan is clean.
clean-Repaired :
    (c : WalConfig) (payloads : List (List ℕ)) (rounds : ℕ) (before : ScanResult) (content : List ℕ)
    → before.status ≡ ScanStatus.clean
    → before.records ≡ length payloads
    → content ≡ whole_file c payloads
    → Repaired c payloads 0 (after_scan rounds sound_system c content before before.status)
unfolding after_scan result_from_scan
clean-Repaired c payloads rounds before content clean records same = rw clean (record {
  got = result_from_scan RecoveryStatus.clean before (length content) (length content);
  returned = refl;
  content = same;
  records = records;
  removed_bytes = ground arith;
  status = inl (refl, refl);
})

agree-true :
    (before after : ScanResult) (size : ℕ)
    → after.status ≡ ScanStatus.clean
    → size ≡ before.last_valid_offset
    → after.last_valid_offset ≡ before.last_valid_offset
    → after.records ≡ before.records
    → after.last_sequence ≡ before.last_sequence
    → agree before after size ≡ true
unfolding agree
agree-true before after size clean at offset records last =
    simp (clean, eq→== _ _ at, eq→== _ _ offset, eq→== _ _ records, eq→== _ _ last)

clean_where_whole :
    (n : ℕ) {status : ScanStatus}
    → ((n ≡ 0) × (status ≡ ScanStatus.clean)) ⊎ ((0 < n) × (status ≡ ScanStatus.incomplete_tail))
    → n ≡ 0
    → status ≡ ScanStatus.clean
clean_where_whole n (inl (e, clean)) z = clean
clean_where_whole n (inr (pos, torn)) z = absurd (omega arith)

-- The steps of a recovery that truncates.
module _ (rounds : ℕ) (c : WalConfig) (before : ScanResult) where
  after_torn :
      (content : List ℕ)
      → before.status ≡ ScanStatus.incomplete_tail
      → after_scan rounds sound_system c content before before.status
        ≡ repair_tail rounds sound_system c before content
  unfolding after_scan
  after_torn content torn = ap (after_scan rounds sound_system c content before) torn

  repair_truncates :
      (content : List ℕ)
      → before.last_valid_offset ≤ length content
      → repair_tail rounds sound_system c before content
        ≡ after_truncate rounds sound_system c before
            (length content)
            (truncate_and_sync sound_system before.last_valid_offset content)
  unfolding repair_tail
  repair_truncates content below = simp (ge→ltb (length content) before.last_valid_offset below)

  rescan_agrees :
      (after : ScanResult) (original_size : ℕ) (content : List ℕ)
      → scan_file rounds sound_scan c content ≡ some after
      → agree before after (length content) ≡ true
      → after_truncate rounds sound_system c before original_size (true, content) ≡ (
        some
            (record (result_from_scan RecoveryStatus.recovered after original_size
              (length content)) { error = before.error }),
        content,
      )
  unfolding after_truncate after_rescan
  rescan_agrees after original_size content found same = simp (found, same)

module _ (c : WalConfig) (payloads : List (List ℕ)) (next : List ℕ) (f : Fits c payloads next)
    (rounds : ℕ) (enough : length payloads < rounds) (n : ℕ)
    (short : n < length (record_bytes c (c.first_sequence + length payloads) next)) where
  rescan :
      Scanned c c.first_sequence
        (fresh_scan c)
        payloads
        0
        (scan_file rounds sound_scan c (whole_file c payloads))
  rescan =
      rw (sym (crashed_file-none c payloads next))
        (scan_file-Scanned c payloads next f rounds enough 0 (omega (arith, short)))

  cut_back :
      take (length (whole_file c payloads)) (crashed_file c payloads next n) ≡ whole_file c payloads
  cut_back =
      rw
        (sym (
          append_assoc (file_bytes c) (log_bytes c c.first_sequence payloads)
            (take n (record_bytes c (c.first_sequence + length payloads) next))))
        (take-append (whole_file c payloads) _ (length (whole_file c payloads)) refl)

  crashed_length : length (crashed_file c payloads next n) ≡ length (whole_file c payloads) + n
  crashed_length =
      rw
        (sym (
          append_assoc (file_bytes c) (log_bytes c c.first_sequence payloads)
            (take n (record_bytes c (c.first_sequence + length payloads) next))))
        (length-append (whole_file c payloads) _
          ∙ ap (λ k. length (whole_file c payloads) + k)
              (length-take (record_bytes c (c.first_sequence + length payloads) next) n
                (omega (arith, short))))

  truncates :
      (size : ℕ)
      → size ≡ length (whole_file c payloads)
      → truncate_and_sync sound_system size (crashed_file c payloads next n)
        ≡ (true, whole_file c payloads)
  unfolding truncate_and_sync
  truncates size same = rw same (
      simp (
        ge→ltb (2 ^ 63 - 1) (length (whole_file c payloads))
            (omega (arith, length-whole_file c payloads next f, f.bytes)),
        cut_back,
      ))

  agreed :
      (before : ScanResult)
      → before.records ≡ length payloads
      → before.last_sequence ≡ last_sequence_after 0 c.first_sequence payloads
      → before.last_valid_offset ≡ length (whole_file c payloads)
      → agree before rescan.got (length (whole_file c payloads)) ≡ true
  agreed before records last offset =
      let again = rescan in
      let kept : again.got.last_valid_offset ≡ before.last_valid_offset =
        omega (arith, again.last_valid_offset, offset, length-whole_file c payloads next f) in
      agree-true before again.got (length (whole_file c payloads))
        (clean_where_whole 0 again.status refl) (sym offset) kept
        (omega (arith, again.records, records)) (again.last_sequence ∙ sym last)

  torn_outcome :
      (before : ScanResult)
      → before.status ≡ ScanStatus.incomplete_tail
      → before.records ≡ length payloads
      → before.last_sequence ≡ last_sequence_after 0 c.first_sequence payloads
      → before.last_valid_offset ≡ length (whole_file c payloads)
      → after_scan rounds sound_system c (crashed_file c payloads next n) before before.status ≡ (
        some
            (record (result_from_scan RecoveryStatus.recovered rescan.got
              (length (crashed_file c payloads next n))
              (length (whole_file c payloads))) { error = before.error }),
        whole_file c payloads,
      )
  torn_outcome before torn records last offset =
      after_torn rounds c before (crashed_file c payloads next n) torn
      ∙ repair_truncates rounds c before (crashed_file c payloads next n)
          (omega (arith, crashed_length, offset))
      ∙ ap (after_truncate rounds sound_system c before (length (crashed_file c payloads next n)))
          (truncates before.last_valid_offset offset)
      ∙ rescan_agrees rounds c before rescan.got (length (crashed_file c payloads next n))
          (whole_file c payloads) rescan.returned (agreed before records last offset)

  -- Some bytes of a record are there: they are cut off, and the second scan is clean.
  torn-Repaired :
      (before : ScanResult)
      → 0 < n
      → before.status ≡ ScanStatus.incomplete_tail
      → before.records ≡ length payloads
      → before.last_sequence ≡ last_sequence_after 0 c.first_sequence payloads
      → before.last_valid_offset ≡ length (whole_file c payloads)
      → Repaired c payloads n
          (after_scan rounds sound_system c (crashed_file c payloads next n) before before.status)
  unfolding result_from_scan
  torn-Repaired before some_bytes torn records last offset =
      rw (torn_outcome before torn records last offset) (record {
        got =
            record (result_from_scan RecoveryStatus.recovered rescan.got
              (length (crashed_file c payloads next n)) (length (whole_file c payloads))) {
                error = before.error;
              };
        returned = refl;
        content = refl;
        records = omega (arith, rescan.records);
        removed_bytes = ground (arith, crashed_length);
        status = inr (some_bytes, refl);
      })

  -- For a file with a valid header, the records of some payloads and the first `n` bytes of one
  -- more record, in the widths of its fields, `recover_incomplete_tail` on a system that refuses
  -- nothing returns a result that counts the whole records and `n` removed bytes, reports it as
  -- clean where `n` is 0 and as recovered otherwise, and leaves the file with its whole records.
  pub recover_incomplete_tail-Repaired :
      Repaired c payloads n
        (recover_incomplete_tail rounds sound_system c (crashed_file c payloads next n))
  unfolding recover_incomplete_tail
  recover_incomplete_tail-Repaired =
      let s = scan_file-Scanned c payloads next f rounds enough n short in
      let records : s.got.records ≡ length payloads = omega (arith, s.records) in
      let offset : s.got.last_valid_offset ≡ length (whole_file c payloads) =
        omega (arith, s.last_valid_offset, length-whole_file c payloads next f) in
      rw s.returned (elim s.status [
        | inl (nothing_left, clean) ↦ rw nothing_left (
            clean-Repaired c payloads rounds s.got (crashed_file c payloads next 0) clean records
              (crashed_file-none c payloads next))
        | inr (some_bytes, torn) ↦
            torn-Repaired s.got some_bytes torn records s.last_sequence offset
      ])
