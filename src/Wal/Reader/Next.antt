-- ===== src/Wal/Reader/Next.antt =====
-- reader.cpp: `WalReader::read_next`.
use ll_exp.Prelude.{ℕ, ◌+◌, ◌-◌, ◌%◌, ◌==◌, if◌then◌else◌, true, not, none, some, List, []}
use ll_exp.Wal.Core.{u64_mod}
use ll_exp.Wal.Format.{
  WalConfig, RecordHeader, physical_record_header_size, crc32_bytes, deserialize_record_header,
  aligned_record_size,
}
use ll_exp.Wal.Reader.{
  PhysicalReadStatus, WalReadError, ReadStatus, ReadResult, PhysicalWalReaderAdapter, WalReader,
  read, is_none, read_zero_padding, record_header_error,
}

-- A result of `read_next` with the payload it has read.
abbrev pub no_read : ReadStatus → WalReadError → WalReader → ReadResult × List ℕ × WalReader
no_read status error r = (record { status = status; error = error; sequence = 0 }, [], r)

-- `fail`, with the result that goes with it.
abbrev pub read_failed :
    WalReadError → PhysicalWalReaderAdapter → WalReader → ReadResult × List ℕ × WalReader
read_failed error file r =
    no_read ReadStatus.failed error (record r { physical_reader = file; failure = error })

-- The end of `read_next`, from the answer of the reads of the padding on.
unfoldable pub after_record :
    List ℕ → WalReader → WalReadError × PhysicalWalReaderAdapter → ReadResult × List ℕ × WalReader
after_record payload r (WalReadError.no_error, file) = (
  record {
    status = ReadStatus.got_record;
    error = WalReadError.no_error;
    sequence = r.next_sequence;
  },
  payload,
  record r {
    physical_reader = file;
    next_sequence = if r.next_sequence == u64_mod - 1 then r.next_sequence else r.next_sequence + 1;
    sequence_exhausted = if r.next_sequence == u64_mod - 1 then true else r.sequence_exhausted;
    next_offset = (r.next_offset + aligned_record_size r.config) % u64_mod;
  },
)
after_record payload r (error, file) = read_failed error file r

unfoldable pub record_padding : WalConfig → ℕ
record_padding c =
    (aligned_record_size c + u64_mod - physical_record_header_size + u64_mod - c.payload_size)
    % u64_mod

unfoldable pub after_payload :
    RecordHeader
    → WalReader
    → PhysicalReadStatus × List ℕ × PhysicalWalReaderAdapter
    → ReadResult × List ℕ × WalReader
after_payload h r (PhysicalReadStatus.io_error, payload, file) =
    read_failed WalReadError.io_error file r
after_payload h r (PhysicalReadStatus.complete, payload, file) =
    if not (crc32_bytes payload == h.payload_crc32)
    then read_failed WalReadError.invalid_payload_crc file r
    else after_record payload r (
        read_zero_padding (record_padding r.config) (record_padding r.config)
          WalReadError.incomplete_padding file)
after_payload h r (status, payload, file) = read_failed WalReadError.incomplete_payload file r

unfoldable pub after_record_header :
    RecordHeader → WalReader → PhysicalWalReaderAdapter → ReadResult × List ℕ × WalReader
after_record_header h r file =
    if not (is_none (record_header_error h r.next_sequence))
    then read_failed (record_header_error h r.next_sequence) file r
    else after_payload h r (read r.config.payload_size file)

-- `read_next`, from the answer of the read of the header on; its bytes are 24.
unfoldable pub after_header_bytes :
    WalReader
    → PhysicalReadStatus × List ℕ × PhysicalWalReaderAdapter
    → ReadResult × List ℕ × WalReader
after_header_bytes r (PhysicalReadStatus.end_of_file, bytes, file) =
    no_read ReadStatus.end_of_log WalReadError.no_error (record r { physical_reader = file })
after_header_bytes r (PhysicalReadStatus.io_error, bytes, file) =
    read_failed WalReadError.io_error file r
after_header_bytes r (PhysicalReadStatus.incomplete, bytes, file) =
    read_failed WalReadError.incomplete_record_header file r
after_header_bytes r (PhysicalReadStatus.complete, bytes, file) =
    if r.sequence_exhausted
    then read_failed WalReadError.unexpected_sequence file r
    else elim (deserialize_record_header bytes) [
      | none ↦ read_failed WalReadError.invalid_record_magic file r
      | some h ↦ after_record_header h r file
    ]

-- `size` is that of the caller's buffer.
unfoldable pub read_next : ℕ → WalReader → ReadResult × List ℕ × WalReader
read_next size r =
    if not r.is_open
    then no_read ReadStatus.closed WalReadError.no_error r
    else if not (is_none r.failure)
    then no_read ReadStatus.failed r.failure r
    else if not (size == r.config.payload_size)
    then no_read ReadStatus.invalid_payload_size WalReadError.no_error r
    else after_header_bytes r (read physical_record_header_size r.physical_reader)
