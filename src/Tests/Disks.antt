-- ===== src/Tests/Disks.antt =====
-- The physical log, its scan and its recovery at concrete inputs.
use ll_exp.Prelude.{ℕ, ◌≡◌, ◌+◌, ◌%◌, ◌^◌, ◌++◌, refl, arith, List, [], ◌∷◌, true, length, some}
use ll_exp.Bytes.{write_u16, write_u32, write_u64}
use ll_exp.Wal.Core.{checked_add, checked_mul, checked_align_up}
use ll_exp.Wal.Format.{
  WalConfig, generic_stream, serialize_record_header, aligned_record_size, records_offset,
  valid_stream_kind, storage_fits, valid_config,
}
use ll_exp.Wal.Disk.{PhysicalWalAdapter, Answer, padding_size, append_record}
use ll_exp.Wal.Disk.Append.{Appended, append_record-Appended, record_bytes}
use ll_exp.Wal.Reader.{
  valid_reader_config, ReadStatus, WalReadError, closed_reader, ReaderOpenStatus,
}
use ll_exp.Wal.Reader.Open.{open_reader}
use ll_exp.Wal.Reader.Next.{read_next}
use ll_exp.Wal.Reader.Records.{FitsConfig, reader_at, quiet}
use ll_exp.Wal.Reader.Written.{read_next-record_bytes}
use ll_exp.Wal.Reader.Scans.{nothing, another, Scanned, log_bytes}
use ll_exp.Wal.Reader.Opens.{file_bytes, open_reader-file_bytes}
use ll_exp.Wal.Recovery.{recover_incomplete_tail, scan_file}
use ll_exp.Wal.Recovery.Crash.{
  crashed_file, whole_file, sound_scan, sound_system, Fits, fresh_scan, Repaired, scan_file-Scanned,
  recover_incomplete_tail-Repaired,
}
use ll_exp.Wal.Recovery.Crash.Stores.{Survives, append_record-Survives}

-- Unfolds the sizes of a file.
unfoldable sizes_program : ℕ
unfolding write_u16 write_u32 write_u64 checked_add checked_mul checked_align_up
    serialize_record_header aligned_record_size records_offset valid_stream_kind storage_fits
    valid_config padding_size valid_reader_config
sizes_program = 0

abbrev four_bytes : WalConfig
four_bytes = record {
  payload_size = 4;
  capacity = 2;
  alignment = 8;
  payload_schema_version = 0;
  stream_kind = generic_stream;
  stream_id = 0;
  epoch_id = 0;
  first_sequence = 1;
  manifest_id = 0;
}

four_bytes-FitsConfig : FitsConfig four_bytes
four_bytes-FitsConfig = record {
  some_payload = omega arith;
  payload_size = omega arith;
  some_alignment = omega arith;
  alignment = omega arith;
  payload_schema_version = omega arith;
  stream_kind = omega arith;
  stream_id = omega arith;
  epoch_id = omega arith;
  first_sequence = omega arith;
  manifest_id = omega arith;
}

four_bytes_valid : valid_reader_config four_bytes ≡ true
unfolding sizes_program
four_bytes_valid = refl

abbrev payload_one : List ℕ
payload_one = 1 ∷ 2 ∷ 3 ∷ 4 ∷ []

abbrev payload_two : List ℕ
payload_two = 9 ∷ 8 ∷ 7 ∷ 6 ∷ []

offset_of_four : records_offset four_bytes ≡ 64
unfolding sizes_program
offset_of_four = refl

size_of_one : length (log_bytes four_bytes 1 (payload_one ∷ [])) ≡ 32
unfolding sizes_program
size_of_one = refl

size_of_two : length (log_bytes four_bytes 1 (payload_one ∷ payload_two ∷ [])) ≡ 64
unfolding sizes_program
size_of_two = refl

size_of_record : (s : ℕ) → length (record_bytes four_bytes s payload_two) ≡ 32
unfolding sizes_program
size_of_record s = refl

one_payload-Fits : Fits four_bytes (payload_one ∷ []) payload_two
one_payload-Fits = record {
  widths = four_bytes-FitsConfig;
  valid = four_bytes_valid;
  sized = another refl nothing;
  same = refl;
  sequences = omega arith;
  bytes = omega (arith, offset_of_four, size_of_one);
}

two_payloads-Fits : Fits four_bytes (payload_one ∷ payload_two ∷ []) payload_two
two_payloads-Fits = record {
  widths = four_bytes-FitsConfig;
  valid = four_bytes_valid;
  sized = another refl (another refl nothing);
  same = refl;
  sequences = omega arith;
  bytes = omega (arith, offset_of_four, size_of_two);
}

recover_example : Repaired four_bytes (payload_one ∷ []) 27 (
    recover_incomplete_tail 5 sound_system four_bytes
      (crashed_file four_bytes (payload_one ∷ []) payload_two 27))
recover_example =
    recover_incomplete_tail-Repaired four_bytes (payload_one ∷ []) payload_two one_payload-Fits 5
      (omega arith) 27 (omega (arith, size_of_record 2))

scan_example :
    Scanned four_bytes 1
      (fresh_scan four_bytes)
      (payload_one ∷ [])
      3
      (scan_file 5 sound_scan four_bytes (crashed_file four_bytes (payload_one ∷ []) payload_two 3))
scan_example =
    scan_file-Scanned four_bytes (payload_one ∷ []) payload_two one_payload-Fits 5 (omega arith) 3
      (omega (arith, size_of_record 2))

-- The payload's write fails after two bytes.
abbrev failing_log : PhysicalWalAdapter
failing_log = record {
  is_open = true;
  config = four_bytes;
  content = whole_file four_bytes (payload_one ∷ []);
  answers = Answer.done ∷ Answer.failed 2 ∷ [];
}

crash_example :
    Survives four_bytes (payload_one ∷ []) payload_two 5 (append_record 2 payload_two failing_log)
crash_example =
    append_record-Survives four_bytes (payload_one ∷ []) payload_two one_payload-Fits
      two_payloads-Fits 5 (omega arith) failing_log refl refl refl

append_record_example : Appended 2 payload_two failing_log (append_record 2 payload_two failing_log)
append_record_example = append_record-Appended 2 payload_two failing_log

read_next_example :
    read_next 4 (reader_at four_bytes 1 64 (record_bytes four_bytes 1 payload_two ++ (5 ∷ []))) ≡ (
      record { status = ReadStatus.got_record; error = WalReadError.no_error; sequence = 1 },
      payload_two,
      reader_at four_bytes 2 ((64 + aligned_record_size four_bytes) % (2 ^ 64)) (5 ∷ []),
    )
read_next_example =
    read_next-record_bytes four_bytes 1 64 payload_two (omega arith) refl (5 ∷ [])
      four_bytes-FitsConfig (omega arith)

open_reader_example :
    open_reader (some (quiet (file_bytes four_bytes ++ payload_one))) four_bytes closed_reader ≡ (
      (ReaderOpenStatus.ok, WalReadError.no_error),
      reader_at four_bytes 1 (records_offset four_bytes) payload_one,
    )
open_reader_example =
    open_reader-file_bytes four_bytes four_bytes-FitsConfig four_bytes_valid payload_one
