-- ===== src/Wal/Recovery.antt =====
-- exchange/wal/src/recovery.cpp: `recover_incomplete_tail`. The file is its bytes; the answers of the
-- system to the calls on it are parameters.
pub mod Crash
use ll_exp.Prelude.{
  ℕ, ◌+◌, ◌-◌, ◌%◌, ◌^◌, ltb, leb, ◌==◌, if◌then◌else◌, Bool, true, false, not, ◌&&◌, ◌||◌, Option,
  none, some, List, length, take,
}
use ll_exp.Wal.Format.{WalConfig}
use ll_exp.Wal.Reader.{WalReadError, ScanStatus, ScanResult, PhysicalWalReaderAdapter}
use ll_exp.Wal.Reader.Scan.{scan_wal}

pub data RecoveryStatus : Type 0 where
  clean recovered refused invalid_config io_error : RecoveryStatus

pub record RecoveryResult : Type 0 where
  pub status : RecoveryStatus
  pub error : WalReadError
  pub records : ℕ
  pub last_sequence : ℕ
  pub last_valid_offset : ℕ
  pub original_size : ℕ
  pub recovered_size : ℕ
  pub removed_bytes : ℕ

-- What the system answers in one run: for each scan whether it opens the file, with the faults of
-- its reads and whether there is memory for a payload; whether the calls that ask for the size and
-- the calls on the file that `truncate_and_sync` makes succeed.
pub record Scanning : Type 0 where
  pub opens : Bool
  pub faults : List Bool
  pub allocated : Bool

pub record System : Type 0 where
  pub first_scan : Scanning
  pub second_scan : Scanning
  pub sized : Bool
  pub resized : Bool
  pub sized_again : Bool
  pub opened : Bool
  pub truncated : Bool
  pub synced : Bool
  pub closed : Bool

unfoldable pub result_from_scan : RecoveryStatus → ScanResult → ℕ → ℕ → RecoveryResult
result_from_scan status scan original_size recovered_size = record {
  status = status;
  error = scan.error;
  records = scan.records;
  last_sequence = scan.last_sequence;
  last_valid_offset = scan.last_valid_offset;
  original_size = original_size;
  recovered_size = recovered_size;
  removed_bytes = if leb recovered_size original_size then original_size - recovered_size else 0;
}

-- `truncate_and_sync`; `ftruncate` to a larger size would add zeros, and never runs here.
unfoldable pub truncate_and_sync : System → ℕ → List ℕ → Bool × List ℕ
truncate_and_sync y size content =
    if ltb (2 ^ 63 - 1) size || not y.opened
    then (false, content)
    else if not y.truncated
    then (false, content)
    else (y.synced && y.closed, take size content)

unfoldable pub scan_file : ℕ → Scanning → WalConfig → List ℕ → Option ScanResult
scan_file rounds y c content =
    scan_wal rounds y.allocated
      (if y.opens then some (record { rest = content; faults = y.faults }) else none) c

abbrev pub no_recovery : RecoveryResult
no_recovery = record {
  status = RecoveryStatus.io_error;
  error = WalReadError.io_error;
  records = 0;
  last_sequence = 0;
  last_valid_offset = 0;
  original_size = 0;
  recovered_size = 0;
  removed_bytes = 0;
}

abbrev pub is_clean : ScanStatus → Bool
is_clean ScanStatus.clean = true
is_clean _ = false

-- The scan after the truncation is to find what the first one found.
unfoldable pub agree : ScanResult → ScanResult → ℕ → Bool
agree before after recovered_size =
    is_clean after.status
    && recovered_size == before.last_valid_offset
    && after.last_valid_offset == before.last_valid_offset
    && after.records == before.records
    && after.last_sequence == before.last_sequence

unfoldable pub after_rescan : ScanResult → ℕ → ℕ → ScanResult → RecoveryResult
after_rescan before original_size recovered_size after =
    if not (agree before after recovered_size)
    then result_from_scan RecoveryStatus.io_error after original_size recovered_size
    else record (result_from_scan RecoveryStatus.recovered after original_size recovered_size) {
      error = before.error;
    }

-- `recover_incomplete_tail`, from the answer of `truncate_and_sync` on.
unfoldable pub after_truncate :
    ℕ → System → WalConfig → ScanResult → ℕ → Bool × List ℕ → Option RecoveryResult × List ℕ
after_truncate rounds y c before original_size (false, content) = (
  some (
      result_from_scan RecoveryStatus.io_error before original_size
        (if y.resized then length content else original_size)),
  content,
)
after_truncate rounds y c before original_size (true, content) =
    if not y.sized_again
    then (
      some (result_from_scan RecoveryStatus.io_error before original_size before.last_valid_offset),
      content,
    )
    else elim (scan_file rounds y.second_scan c content) [
      | none ↦ (none, content)
      | some after ↦ (some (after_rescan before original_size (length content) after), content)
    ]

-- A result that leaves the file as it is.
abbrev pub untouched : RecoveryStatus → ScanResult → List ℕ → Option RecoveryResult × List ℕ
untouched status before content =
    (some (result_from_scan status before (length content) (length content)), content)

unfoldable pub repair_tail :
    ℕ → System → WalConfig → ScanResult → List ℕ → Option RecoveryResult × List ℕ
repair_tail rounds y c before content =
    if ltb (length content) before.last_valid_offset
    then untouched RecoveryStatus.io_error before content
    else after_truncate rounds y c before (length content)
        (truncate_and_sync y before.last_valid_offset content)

-- The switch on the first scan's status, which stands last.
unfoldable pub after_scan :
    ℕ → System → WalConfig → List ℕ → ScanResult → ScanStatus → Option RecoveryResult × List ℕ
after_scan rounds y c content before ScanStatus.clean =
    untouched RecoveryStatus.clean before content
after_scan rounds y c content before ScanStatus.invalid_config =
    untouched RecoveryStatus.invalid_config before content
after_scan rounds y c content before ScanStatus.corrupted =
    untouched RecoveryStatus.refused before content
after_scan rounds y c content before ScanStatus.io_error =
    untouched RecoveryStatus.io_error before content
after_scan rounds y c content before ScanStatus.incomplete_tail =
    repair_tail rounds y c before content

-- The result, with the bytes that the file holds in the end; `none` where `rounds` is too small.
unfoldable pub recover_incomplete_tail :
    ℕ → System → WalConfig → List ℕ → Option RecoveryResult × List ℕ
recover_incomplete_tail rounds y c content =
    if not y.sized
    then (some no_recovery, content)
    else elim (scan_file rounds y.first_scan c content) [
      | none ↦ (none, content)
      | some before ↦ after_scan rounds y c content before before.status
    ]
