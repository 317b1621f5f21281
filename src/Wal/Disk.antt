-- ===== src/Wal/Disk.antt =====
-- exchange/wal/src/physical_wal_file.cpp: `PhysicalWalAdapter`, which writes the physical log, without
-- the failures that tests inject. The operating system's answers to the calls come as a list.
pub mod Append
use ll_exp.Prelude.{
  ℕ, zero, suc, ◌+◌, ◌-◌, ◌%◌, ◌^◌, min, ltb, ◌==◌, if◌then◌else◌, Bool, true, false, not, ◌||◌,
  List, [], ◌∷◌, ◌++◌, length, replicate, take, drop,
}
use ll_exp.Wal.Types.{OpenStatus}
use ll_exp.Wal.Format.{
  WalConfig, FileHeader, RecordHeader, file_magic, record_magic, format_version,
  physical_file_header_size, physical_record_header_size, crc32_bytes, serialize_file_header,
  serialize_record_header, file_header_crc32, record_header_crc32, aligned_record_size,
  records_offset,
}

-- How a call of the operating system ends; a failed write may have written some bytes, not all.
pub data Answer : Type 0 where
  done : Answer
  failed : ℕ → Answer

-- `config` is what `create` was given, `content` the bytes of the file. Where the answers are
-- used up, every call succeeds.
pub record PhysicalWalAdapter : Type 0 where
  pub is_open : Bool
  pub config : WalConfig
  pub content : List ℕ
  pub answers : List Answer

abbrev pub first_answer : List Answer → Answer
first_answer [] = Answer.done
first_answer (a ∷ answers) = a

abbrev pub later_answers : List Answer → List Answer
later_answers [] = []
later_answers (a ∷ answers) = answers

unfoldable pub after_write : List ℕ → Answer → PhysicalWalAdapter → Bool × PhysicalWalAdapter
after_write bytes Answer.done a = (true, record a { content = a.content ++ bytes })
after_write bytes (Answer.failed n) a =
    (false, record a { content = a.content ++ take (min n (length bytes - 1)) bytes })

-- `write_bytes`: its loop ends with all bytes written or with a call that fails.
unfoldable pub write_bytes : List ℕ → PhysicalWalAdapter → Bool × PhysicalWalAdapter
write_bytes [] a = (true, a)
write_bytes (b ∷ bytes) a =
    after_write (b ∷ bytes) (first_answer a.answers)
      (record a { answers = later_answers a.answers })

abbrev pub and_then :
    (PhysicalWalAdapter → Bool × PhysicalWalAdapter)
    → Bool × PhysicalWalAdapter
    → Bool × PhysicalWalAdapter
and_then next (true, a) = next a
and_then next (false, a) = (false, a)

abbrev pub chunk_size : ℕ → ℕ → ℕ
chunk_size limit remaining = min remaining limit

-- The loop that writes zeros in chunks of `default_alignment`, over the rounds left.
unfoldable pub write_zeros : ℕ → ℕ → PhysicalWalAdapter → Bool × PhysicalWalAdapter
write_zeros zero remaining a = (true, a)
write_zeros (suc rounds) remaining a =
    let chunk = chunk_size 64 remaining in
    let rest =
      and_then (write_zeros rounds (remaining - chunk)) (write_bytes (replicate chunk 0) a) in
    if remaining == 0 then (true, a) else rest

unfoldable pub padding_size : WalConfig → ℕ
padding_size c =
    (aligned_record_size c + 2 ^ 64 - (physical_record_header_size + c.payload_size) % 2 ^ 32)
    % 2 ^ 64
    % 2 ^ 32

unfoldable pub file_header_padding_size : WalConfig → ℕ
file_header_padding_size c = (records_offset c + 2 ^ 32 - physical_file_header_size) % 2 ^ 32

-- The header that `append_record` writes.
unfoldable pub record_header : ℕ → List ℕ → RecordHeader
record_header sequence payload =
    let header : RecordHeader = record {
      magic = record_magic;
      version = format_version;
      header_size = physical_record_header_size;
      sequence = sequence;
      payload_crc32 = crc32_bytes payload;
      header_crc32 = 0;
    } in
    record header { header_crc32 = record_header_crc32 header }

-- The writes of `append_record`.
unfoldable pub write_record : ℕ → List ℕ → PhysicalWalAdapter → Bool × PhysicalWalAdapter
write_record sequence payload a =
    and_then (write_zeros (padding_size a.config) (padding_size a.config)) (
      and_then (write_bytes payload)
        (write_bytes (serialize_record_header (record_header sequence payload)) a))

unfoldable pub append_record : ℕ → List ℕ → PhysicalWalAdapter → Bool × PhysicalWalAdapter
append_record sequence payload a =
    if not a.is_open || not (length payload == a.config.payload_size)
    then (false, a)
    else write_record sequence payload a

unfoldable pub answer_is_done : Answer → Bool
answer_is_done Answer.done = true
answer_is_done (Answer.failed n) = false

unfoldable pub sync : PhysicalWalAdapter → Bool × PhysicalWalAdapter
unfolding answer_is_done
sync a =
    if not a.is_open
    then (false, a)
    else (answer_is_done (first_answer a.answers), record a { answers = later_answers a.answers })

unfoldable pub close : PhysicalWalAdapter → Bool × PhysicalWalAdapter
unfolding answer_is_done
close a = if not a.is_open then (true, a) else (
  answer_is_done (first_answer a.answers),
  record a { is_open = false; answers = later_answers a.answers },
)

-- The header that `create` writes.
unfoldable pub file_header : WalConfig → FileHeader
file_header c =
    let header : FileHeader = record {
      magic = file_magic;
      version = format_version;
      header_size = physical_file_header_size;
      stream_kind = c.stream_kind;
      flags = 0;
      payload_size = c.payload_size;
      payload_schema_version = c.payload_schema_version;
      alignment = c.alignment;
      records_offset = records_offset c;
      stream_id = c.stream_id;
      epoch_id = c.epoch_id;
      first_sequence = c.first_sequence;
      manifest_id = c.manifest_id;
      header_crc32 = 0;
    } in
    record header { header_crc32 = file_header_crc32 header }

-- `sync_parent_directory`, whose open, sync and close are one answer.
unfoldable pub sync_parent_directory : PhysicalWalAdapter → Bool × PhysicalWalAdapter
unfolding answer_is_done
sync_parent_directory a =
    (answer_is_done (first_answer a.answers), record a { answers = later_answers a.answers })

-- The writes and syncs of `create`.
unfoldable pub write_header : WalConfig → PhysicalWalAdapter → Bool × PhysicalWalAdapter
write_header c a = and_then sync_parent_directory (
    and_then sync (
      and_then (write_zeros (file_header_padding_size c) (file_header_padding_size c))
        (write_bytes (serialize_file_header (file_header c)) a)))

unfoldable pub after_header : Bool × PhysicalWalAdapter → OpenStatus × PhysicalWalAdapter
after_header (true, a) = (OpenStatus.ok, a)
after_header (false, a) = (OpenStatus.io_error, (close a).1)

-- The file as `open` with `O_EXCL` leaves it.
unfoldable pub after_create :
    Bool → Answer → WalConfig → PhysicalWalAdapter → OpenStatus × PhysicalWalAdapter
after_create exists (Answer.failed n) c a =
    (if exists then OpenStatus.file_already_exists else OpenStatus.io_error, a)
after_create exists Answer.done c a =
    after_header (write_header c (record a { is_open = true; config = c; content = [] }))

-- `exists` tells whether a failed `open` found the file there.
unfoldable pub create : Bool → WalConfig → PhysicalWalAdapter → OpenStatus × PhysicalWalAdapter
create exists c a =
    if a.is_open
    then (OpenStatus.io_error, a)
    else after_create exists (first_answer a.answers) c
        (record a { answers = later_answers a.answers })
