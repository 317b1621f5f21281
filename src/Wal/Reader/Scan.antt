-- ===== src/Wal/Reader/Scan.antt =====
-- reader.cpp: `scan_wal`.
use ll_exp.Prelude.{ℕ, zero, suc, ◌+◌, ◌%◌, if◌then◌else◌, Bool, not, Option, none, some, List}
use ll_exp.Wal.Core.{u64_mod}
use ll_exp.Wal.Format.{WalConfig}
use ll_exp.Wal.Reader.{
  WalReadError, ReaderOpenStatus, ReadStatus, ReadResult, ScanStatus, ScanResult,
  PhysicalWalReaderAdapter, WalReader, scan_status_for, closed_reader,
}
use ll_exp.Wal.Reader.Open.{open_reader}
use ll_exp.Wal.Reader.Next.{read_next}

-- A round of the scan's loop, before the next; `next` gives the rest of the scan.
abbrev pub after_read :
    (ScanResult → WalReader → Option ScanResult)
    → ScanResult
    → ReadResult × List ℕ × WalReader
    → Option ScanResult
after_read next result (got, payload, r) = elim got.status [
  | ReadStatus.got_record ↦
      next
        (record result {
          records = (result.records + 1) % u64_mod;
          last_sequence = got.sequence;
          last_valid_offset = r.next_offset;
        })
        r
  | ReadStatus.end_of_log ↦ some result
  | _ ↦ some (record result { status = scan_status_for got.error; error = got.error })
]

-- The loop over the rounds left; `none` where they are used up.
unfoldable pub scan_loop : ℕ → ScanResult → WalReader → Option ScanResult
scan_loop zero result r = none
scan_loop (suc rounds) result r =
    after_read (scan_loop rounds) result (read_next r.config.payload_size r)

abbrev pub failed_scan : ScanStatus → WalReadError → ℕ → ScanResult
failed_scan status error offset = record {
  status = status;
  error = error;
  records = 0;
  last_sequence = 0;
  last_valid_offset = offset;
}

abbrev pub failed_open : ReaderOpenStatus → WalReadError → ScanResult
failed_open ReaderOpenStatus.invalid_config error = failed_scan ScanStatus.invalid_config error 0
failed_open status WalReadError.io_error = failed_scan ScanStatus.io_error WalReadError.io_error 0
failed_open status error = failed_scan ScanStatus.corrupted error 0

-- `scan_wal` after `open`.
unfoldable pub after_open :
    ℕ → Bool → (ReaderOpenStatus × WalReadError) × WalReader → Option ScanResult
after_open rounds allocated ((ReaderOpenStatus.ok, error), r) =
    if not allocated
    then some (failed_scan ScanStatus.io_error WalReadError.io_error r.next_offset)
    else scan_loop rounds (failed_scan ScanStatus.clean WalReadError.no_error r.next_offset) r
after_open rounds allocated ((status, error), r) = some (failed_open status error)

-- `allocated` tells whether there is memory for a payload, `rounds` bounds the loop.
unfoldable pub scan_wal : ℕ → Bool → Option PhysicalWalReaderAdapter → WalConfig → Option ScanResult
scan_wal rounds allocated file expected =
    after_open rounds allocated (open_reader file expected closed_reader)
