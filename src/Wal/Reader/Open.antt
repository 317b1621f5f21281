-- ===== src/Wal/Reader/Open.antt =====
-- reader.cpp: `WalReader::open`.
use ll_exp.Prelude.{
  ℕ, ◌+◌, ◌-◌, ◌%◌, ◌^◌, if◌then◌else◌, true, false, not, Option, none, some, List,
}
use ll_exp.Wal.Format.{WalConfig, FileHeader, physical_file_header_size, deserialize_file_header}
use ll_exp.Wal.Reader.{
  PhysicalReadStatus, WalReadError, ReaderOpenStatus, PhysicalWalReaderAdapter, WalReader, read,
  is_none, valid_reader_config, read_zero_padding, file_header_error, close,
}

abbrev pub open_failed : WalReadError → WalReader → (ReaderOpenStatus × WalReadError) × WalReader
open_failed error r = ((ReaderOpenStatus.failed, error), close r)

-- `open`, from the answer of the reads of the padding on.
unfoldable pub after_padding :
    FileHeader
    → WalConfig
    → WalReader
    → WalReadError × PhysicalWalReaderAdapter
    → (ReaderOpenStatus × WalReadError) × WalReader
after_padding h expected r (WalReadError.no_error, file) = (
  (ReaderOpenStatus.ok, WalReadError.no_error),
  record {
    physical_reader = file;
    config = expected;
    next_sequence = expected.first_sequence;
    next_offset = h.records_offset;
    failure = WalReadError.no_error;
    sequence_exhausted = false;
    is_open = true;
  },
)
after_padding h expected r (WalReadError.non_zero_padding, file) =
    open_failed WalReadError.invalid_physical_layout r
after_padding h expected r (error, file) = open_failed error r

-- `open`, from the header's checks on.
unfoldable pub after_header :
    FileHeader
    → WalConfig
    → WalReader
    → PhysicalWalReaderAdapter
    → (ReaderOpenStatus × WalReadError) × WalReader
after_header h expected r file =
    let padding = (h.records_offset + 2 ^ 32 - physical_file_header_size) % 2 ^ 32 in
    if not (is_none (file_header_error h expected))
    then open_failed (file_header_error h expected) r
    else after_padding h expected r
        (read_zero_padding padding padding WalReadError.incomplete_file_header file)

-- The header's bytes are 64, so that `deserialize_file_header` fills the header.
unfoldable pub after_file_header :
    WalConfig
    → WalReader
    → PhysicalReadStatus × List ℕ × PhysicalWalReaderAdapter
    → (ReaderOpenStatus × WalReadError) × WalReader
after_file_header expected r (PhysicalReadStatus.io_error, bytes, file) =
    open_failed WalReadError.io_error r
after_file_header expected r (PhysicalReadStatus.complete, bytes, file) =
    elim (deserialize_file_header bytes) [
      | none ↦ open_failed WalReadError.invalid_file_magic r
      | some h ↦ after_header h expected r file
    ]
after_file_header expected r (status, bytes, file) =
    open_failed WalReadError.incomplete_file_header r

-- `file` is what the system's `open` gave, `none` where it failed.
unfoldable pub open_reader :
    Option PhysicalWalReaderAdapter
    → WalConfig
    → WalReader
    → (ReaderOpenStatus × WalReadError) × WalReader
open_reader file expected r =
    if r.is_open
    then ((ReaderOpenStatus.already_open, WalReadError.no_error), r)
    else if not (valid_reader_config expected)
    then ((ReaderOpenStatus.invalid_config, WalReadError.no_error), r)
    else elim file [
      | none ↦ ((ReaderOpenStatus.failed, WalReadError.io_error), r)
      | some f ↦ after_file_header expected r (read physical_file_header_size f)
    ]
