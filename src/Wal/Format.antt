-- ===== src/Wal/Format.antt =====
-- exchange/wal/include/fexma/wal/format.hpp, with the functions of src/physical_wal_file.cpp and
-- src/config.cpp that it declares: the headers of the physical log, their bytes and checksums.
pub mod Headers
pub mod FileHeaders
use ll_exp.Prelude.{
  ℕ, zero, suc, ◌+◌, ◌-◌, ◌*◌, ◌/◌, ◌%◌, ◌^◌, ltb, leb, ◌==◌, if◌then◌else◌, Bool, true, false, not,
  ◌&&◌, ◌||◌, Option, none, some, List, [], ◌∷◌, length, get_or, set, replicate, bit_and, bit_xor,
}
use ll_exp.Bytes.{write_u16, write_u32, write_u64, read_u16, read_u32, read_u64}
use ll_exp.Wal.Core.{u64_mod, checked_add, checked_mul, checked_align_up}

abbrev pub file_magic : ℕ
file_magic = 0x57414c46

abbrev pub record_magic : ℕ
record_magic = 0x57414c52

abbrev pub format_version : ℕ
format_version = 3

abbrev pub physical_file_header_size : ℕ
physical_file_header_size = 64

abbrev pub physical_record_header_size : ℕ
physical_record_header_size = 24

-- The enumerators of `StreamKind`; a header may hold any 16-bit value.
abbrev pub generic_stream : ℕ
generic_stream = 0

abbrev pub command_stream : ℕ
command_stream = 1

abbrev pub event_stream : ℕ
event_stream = 2

pub record WalConfig : Type 0 where
  pub payload_size : ℕ
  pub capacity : ℕ
  pub alignment : ℕ
  pub payload_schema_version : ℕ
  pub stream_kind : ℕ
  pub stream_id : ℕ
  pub epoch_id : ℕ
  pub first_sequence : ℕ
  pub manifest_id : ℕ

pub record FileHeader : Type 0 where
  pub magic : ℕ
  pub version : ℕ
  pub header_size : ℕ
  pub stream_kind : ℕ
  pub flags : ℕ
  pub payload_size : ℕ
  pub payload_schema_version : ℕ
  pub alignment : ℕ
  pub records_offset : ℕ
  pub stream_id : ℕ
  pub epoch_id : ℕ
  pub first_sequence : ℕ
  pub manifest_id : ℕ
  pub header_crc32 : ℕ

pub record RecordHeader : Type 0 where
  pub magic : ℕ
  pub version : ℕ
  pub header_size : ℕ
  pub sequence : ℕ
  pub payload_crc32 : ℕ
  pub header_crc32 : ℕ

-- The loop over the bits of a byte.
unfoldable pub crc_bits : ℕ → ℕ → ℕ
crc_bits zero crc = crc
crc_bits (suc left) crc = crc_bits left (bit_xor (crc / 2) (if crc % 2 == 1 then 0xedb88320 else 0))

unfoldable pub crc_from : ℕ → List ℕ → ℕ
unfolding crc_bits
crc_from crc [] = crc
crc_from crc (b ∷ bytes) = crc_from (crc_bits 8 (bit_xor crc b)) bytes

-- `~crc` is the complement to `2 ^ 32 - 1`.
unfoldable pub crc32_bytes : List ℕ → ℕ
unfolding crc_from
crc32_bytes bytes = 2 ^ 32 - 1 - crc_from (2 ^ 32 - 1) bytes

unfoldable pub serialize_file_header : FileHeader → List ℕ
serialize_file_header h =
    let b₀ = write_u32 (replicate physical_file_header_size 0) 0 h.magic in
    let b₁ = write_u16 b₀ 4 h.version in
    let b₂ = write_u16 b₁ 6 h.header_size in
    let b₃ = write_u16 b₂ 8 h.stream_kind in
    let b₄ = write_u16 b₃ 10 h.flags in
    let b₅ = write_u32 b₄ 12 h.payload_size in
    let b₆ = write_u32 b₅ 16 h.payload_schema_version in
    let b₇ = write_u32 b₆ 20 h.alignment in
    let b₈ = write_u32 b₇ 24 h.records_offset in
    let b₉ = write_u64 b₈ 28 h.stream_id in
    let b₁₀ = write_u64 b₉ 36 h.epoch_id in
    let b₁₁ = write_u64 b₁₀ 44 h.first_sequence in
    let b₁₂ = write_u64 b₁₁ 52 h.manifest_id in write_u32 b₁₂ 60 h.header_crc32

unfoldable pub serialize_record_header : RecordHeader → List ℕ
serialize_record_header h =
    let b₀ = write_u32 (replicate physical_record_header_size 0) 0 h.magic in
    let b₁ = write_u16 b₀ 4 h.version in
    let b₂ = write_u16 b₁ 6 h.header_size in
    let b₃ = write_u64 b₂ 8 h.sequence in
    let b₄ = write_u32 b₃ 16 h.payload_crc32 in write_u32 b₄ 20 h.header_crc32

unfoldable pub deserialize_file_header : List ℕ → Option FileHeader
deserialize_file_header bytes =
    if not (length bytes == physical_file_header_size)
    then none
    else some (record {
      magic = read_u32 bytes 0;
      version = read_u16 bytes 4;
      header_size = read_u16 bytes 6;
      stream_kind = read_u16 bytes 8;
      flags = read_u16 bytes 10;
      payload_size = read_u32 bytes 12;
      payload_schema_version = read_u32 bytes 16;
      alignment = read_u32 bytes 20;
      records_offset = read_u32 bytes 24;
      stream_id = read_u64 bytes 28;
      epoch_id = read_u64 bytes 36;
      first_sequence = read_u64 bytes 44;
      manifest_id = read_u64 bytes 52;
      header_crc32 = read_u32 bytes 60;
    })

unfoldable pub deserialize_record_header : List ℕ → Option RecordHeader
deserialize_record_header bytes =
    if not (length bytes == physical_record_header_size)
    then none
    else some (record {
      magic = read_u32 bytes 0;
      version = read_u16 bytes 4;
      header_size = read_u16 bytes 6;
      sequence = read_u64 bytes 8;
      payload_crc32 = read_u32 bytes 16;
      header_crc32 = read_u32 bytes 20;
    })

unfoldable pub file_header_crc32 : FileHeader → ℕ
file_header_crc32 h = crc32_bytes (serialize_file_header (record h { header_crc32 = 0 }))

unfoldable pub record_header_crc32 : RecordHeader → ℕ
record_header_crc32 h = crc32_bytes (serialize_record_header (record h { header_crc32 = 0 }))

unfoldable pub aligned_record_size : WalConfig → ℕ
aligned_record_size c = elim (checked_add physical_record_header_size c.payload_size) [
  | none ↦ 0
  | some raw_size ↦ elim (checked_align_up raw_size c.alignment) [ none ↦ 0 | some stride ↦ stride ]
]

unfoldable pub records_offset : WalConfig → ℕ
records_offset c = elim (checked_align_up physical_file_header_size c.alignment) [
  | none ↦ 0
  | some offset ↦ if ltb (2 ^ 32 - 1) offset then 0 else offset
]

unfoldable pub valid_stream_kind : ℕ → Bool
valid_stream_kind kind = kind == generic_stream || kind == command_stream || kind == event_stream

-- The layout that `WalCore` would use for the configuration.
unfoldable pub storage_fits : WalConfig → Bool
storage_fits c = elim (checked_align_up c.payload_size c.alignment) [
  | none ↦ false
  | some stride ↦ elim (checked_mul stride c.capacity) [ none ↦ false | some _ ↦ true ]
]

unfoldable pub valid_config : WalConfig → Bool
valid_config c =
    if c.payload_size == 0
      || c.capacity == 0
      || ltb c.alignment 8
      || c.first_sequence == 0
      || not (valid_stream_kind c.stream_kind)
    then false
    else if not (c.stream_kind == generic_stream)
        && (c.stream_id == 0 || c.epoch_id == 0 || c.manifest_id == 0)
    then false
    else if not (bit_and c.alignment (c.alignment - 1) == 0)
    then false
    else if not (storage_fits c)
    then false
    else not (records_offset c == 0) && not (aligned_record_size c == 0)
