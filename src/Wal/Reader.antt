-- ===== src/Wal/Reader.antt =====
-- exchange/wal/src/reader.cpp, with the reads of src/physical_wal_file.cpp: the types of the
-- validated reader, the reads of the file, and the checks of the headers.
pub mod Open
pub mod Next
pub mod Scan
pub mod Records
pub mod Written
pub mod Torn
pub mod Scans
pub mod Opens
use ll_exp.Prelude.{
  ℕ, zero, suc, ◌+◌, ◌-◌, ◌%◌, ◌^◌, min, ltb, leb, ◌==◌, if◌then◌else◌, Bool, true, false, not,
  ◌&&◌, ◌||◌, Option, none, some, List, [], ◌∷◌, length, take, drop,
}
use ll_exp.Wal.Core.{u64_mod}
use ll_exp.Wal.Format.{
  WalConfig, FileHeader, RecordHeader, file_magic, record_magic, format_version,
  physical_file_header_size, physical_record_header_size, crc32_bytes, deserialize_file_header,
  deserialize_record_header, file_header_crc32, record_header_crc32, aligned_record_size,
  records_offset, valid_stream_kind, valid_config,
}

pub data PhysicalReadStatus : Type 0 where
  complete end_of_file incomplete io_error : PhysicalReadStatus

pub data WalReadError : Type 0 where
  no_error io_error incomplete_file_header invalid_file_magic : WalReadError
  unsupported_format_version invalid_file_header_size invalid_file_header_crc : WalReadError
  invalid_stream_kind unsupported_flags identity_mismatch : WalReadError
  invalid_physical_layout incomplete_record_header invalid_record_magic : WalReadError
  invalid_record_header_size invalid_record_header_crc unexpected_sequence : WalReadError
  incomplete_payload invalid_payload_crc incomplete_padding non_zero_padding : WalReadError

pub data ReaderOpenStatus : Type 0 where
  ok invalid_config failed already_open : ReaderOpenStatus

pub data ReadStatus : Type 0 where
  got_record end_of_log invalid_payload_size failed closed : ReadStatus

pub record ReadResult : Type 0 where
  pub status : ReadStatus
  pub error : WalReadError
  pub sequence : ℕ

pub data ScanStatus : Type 0 where
  clean incomplete_tail corrupted invalid_config io_error : ScanStatus

pub record ScanResult : Type 0 where
  pub status : ScanStatus
  pub error : WalReadError
  pub records : ℕ
  pub last_sequence : ℕ
  pub last_valid_offset : ℕ

-- An open file: the bytes that are still to read, and for each coming read whether the operating
-- system refuses it. Where `faults` is used up, every read succeeds.
pub record PhysicalWalReaderAdapter : Type 0 where
  pub rest : List ℕ
  pub faults : List Bool

pub record WalReader : Type 0 where
  pub physical_reader : PhysicalWalReaderAdapter
  pub config : WalConfig
  pub next_sequence : ℕ
  pub next_offset : ℕ
  pub failure : WalReadError
  pub sequence_exhausted : Bool
  pub is_open : Bool

abbrev pub next_fault : List Bool → Bool
next_fault [] = false
next_fault (f ∷ faults) = f

abbrev pub later_faults : List Bool → List Bool
later_faults [] = []
later_faults (f ∷ faults) = faults

-- `read` of an open file, with the bytes it stores.
unfoldable pub read :
    ℕ → PhysicalWalReaderAdapter → PhysicalReadStatus × List ℕ × PhysicalWalReaderAdapter
read size file =
    let later : PhysicalWalReaderAdapter = record file { faults = later_faults file.faults } in
    if size == 0
    then (PhysicalReadStatus.complete, [], file)
    else if next_fault file.faults
    then (PhysicalReadStatus.io_error, [], later)
    else if leb size (length file.rest)
    then (
      PhysicalReadStatus.complete,
      take size file.rest,
      record later { rest = drop size file.rest },
    )
    else if length file.rest == 0
    then (PhysicalReadStatus.end_of_file, [], later)
    else (PhysicalReadStatus.incomplete, file.rest, record later { rest = [] })

abbrev pub is_none : WalReadError → Bool
is_none WalReadError.no_error = true
is_none _ = false

unfoldable pub same_persisted_config : FileHeader → WalConfig → Bool
same_persisted_config h c =
    h.stream_kind == c.stream_kind
    && h.payload_size == c.payload_size
    && h.payload_schema_version == c.payload_schema_version
    && h.alignment == c.alignment
    && h.stream_id == c.stream_id
    && h.epoch_id == c.epoch_id
    && h.first_sequence == c.first_sequence
    && h.manifest_id == c.manifest_id

unfoldable pub valid_reader_config : WalConfig → Bool
valid_reader_config c = valid_config (record c { capacity = 1 })

unfoldable pub all_zero : List ℕ → Bool
all_zero [] = true
all_zero (b ∷ bytes) = b == 0 && all_zero bytes

abbrev pub after_chunk :
    (PhysicalWalReaderAdapter → WalReadError × PhysicalWalReaderAdapter)
    → WalReadError
    → PhysicalReadStatus × List ℕ × PhysicalWalReaderAdapter
    → WalReadError × PhysicalWalReaderAdapter
after_chunk next error (PhysicalReadStatus.io_error, bytes, file) = (WalReadError.io_error, file)
after_chunk next error (PhysicalReadStatus.end_of_file, bytes, file) = (error, file)
after_chunk next error (PhysicalReadStatus.incomplete, bytes, file) = (error, file)
after_chunk next error (PhysicalReadStatus.complete, bytes, file) =
    if not (all_zero bytes) then (WalReadError.non_zero_padding, file) else next file

-- The loop over chunks of 4096 bytes, over the rounds left.
unfoldable pub read_zero_padding :
    ℕ → ℕ → WalReadError → PhysicalWalReaderAdapter → WalReadError × PhysicalWalReaderAdapter
read_zero_padding zero size error file = (WalReadError.no_error, file)
read_zero_padding (suc rounds) size error file =
    let chunk = min size 4096 in
    let rest =
      after_chunk (read_zero_padding rounds (size - chunk) error) error (read chunk file) in
    if size == 0 then (WalReadError.no_error, file) else rest

unfoldable pub scan_status_for : WalReadError → ScanStatus
scan_status_for WalReadError.incomplete_record_header = ScanStatus.incomplete_tail
scan_status_for WalReadError.incomplete_payload = ScanStatus.incomplete_tail
scan_status_for WalReadError.incomplete_padding = ScanStatus.incomplete_tail
scan_status_for WalReadError.io_error = ScanStatus.io_error
scan_status_for _ = ScanStatus.corrupted

-- The configuration that a file header describes.
abbrev pub config_of : FileHeader → WalConfig
config_of h = record {
  payload_size = h.payload_size;
  capacity = 1;
  alignment = h.alignment;
  payload_schema_version = h.payload_schema_version;
  stream_kind = h.stream_kind;
  stream_id = h.stream_id;
  epoch_id = h.epoch_id;
  first_sequence = h.first_sequence;
  manifest_id = h.manifest_id;
}

-- The checks of `open` on the header.
unfoldable pub file_header_error : FileHeader → WalConfig → WalReadError
file_header_error h expected =
    if not (h.magic == file_magic)
    then WalReadError.invalid_file_magic
    else if not (h.version == format_version)
    then WalReadError.unsupported_format_version
    else if not (h.header_size == physical_file_header_size)
    then WalReadError.invalid_file_header_size
    else if not (file_header_crc32 h == h.header_crc32)
    then WalReadError.invalid_file_header_crc
    else if not (valid_stream_kind h.stream_kind)
    then WalReadError.invalid_stream_kind
    else if not (h.flags == 0)
    then WalReadError.unsupported_flags
    else if not (valid_config (config_of h))
        || not (h.records_offset == records_offset (config_of h))
    then WalReadError.invalid_physical_layout
    else if not (same_persisted_config h expected)
    then WalReadError.identity_mismatch
    else WalReadError.no_error

-- The checks of `read_next` on a record's header.
unfoldable pub record_header_error : RecordHeader → ℕ → WalReadError
record_header_error h next_sequence =
    if not (h.magic == record_magic)
    then WalReadError.invalid_record_magic
    else if not (h.version == format_version)
    then WalReadError.unsupported_format_version
    else if not (h.header_size == physical_record_header_size)
    then WalReadError.invalid_record_header_size
    else if not (record_header_crc32 h == h.header_crc32)
    then WalReadError.invalid_record_header_crc
    else if not (h.sequence == next_sequence)
    then WalReadError.unexpected_sequence
    else WalReadError.no_error

abbrev pub closed_reader : WalReader
closed_reader = record {
  physical_reader = record { rest = []; faults = [] };
  config = record {
    payload_size = 0;
    capacity = 0;
    alignment = 64;
    payload_schema_version = 0;
    stream_kind = 0;
    stream_id = 0;
    epoch_id = 0;
    first_sequence = 1;
    manifest_id = 0;
  };
  next_sequence = 0;
  next_offset = 0;
  failure = WalReadError.no_error;
  sequence_exhausted = false;
  is_open = false;
}

-- `close`, without the system's answer, which the reader only passes on.
unfoldable pub close : WalReader → WalReader
close r = closed_reader
