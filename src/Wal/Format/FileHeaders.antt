-- ===== src/Wal/Format/FileHeaders.antt =====
-- physical_wal_file.cpp: a file header comes back from its bytes.
use ll_exp.Prelude.{◌^◌, ◌<◌, ◌≡◌, refl, some, length}
use ll_exp.Bytes.{
  write_u16, write_u32, write_u64, read_u16, read_u32, read_u64, joined, joined_back_16,
  joined_back_32, joined_back_64,
}
use ll_exp.Wal.Format.{FileHeader, serialize_file_header, deserialize_file_header}

-- Each field of the header fits its width.
pub record FitsFile (h : FileHeader) : Type 0 where
  pub magic : h.magic < 2 ^ 32
  pub version : h.version < 2 ^ 16
  pub header_size : h.header_size < 2 ^ 16
  pub stream_kind : h.stream_kind < 2 ^ 16
  pub flags : h.flags < 2 ^ 16
  pub payload_size : h.payload_size < 2 ^ 32
  pub payload_schema_version : h.payload_schema_version < 2 ^ 32
  pub alignment : h.alignment < 2 ^ 32
  pub records_offset : h.records_offset < 2 ^ 32
  pub stream_id : h.stream_id < 2 ^ 64
  pub epoch_id : h.epoch_id < 2 ^ 64
  pub first_sequence : h.first_sequence < 2 ^ 64
  pub manifest_id : h.manifest_id < 2 ^ 64
  pub header_crc32 : h.header_crc32 < 2 ^ 32

pub length-serialize_file_header : (h : FileHeader) → length (serialize_file_header h) ≡ 64
unfolding serialize_file_header write_u16 write_u32 write_u64
length-serialize_file_header h = refl

module _ (h : FileHeader) (f : FitsFile h) where
  magic_back : read_u32 (serialize_file_header h) 0 ≡ h.magic
  unfolding serialize_file_header write_u16 write_u32 write_u64 read_u32 joined
  magic_back = joined_back_32 h.magic f.magic

  version_back : read_u16 (serialize_file_header h) 4 ≡ h.version
  unfolding serialize_file_header write_u16 write_u32 write_u64 read_u16
  version_back = joined_back_16 h.version f.version

  header_size_back : read_u16 (serialize_file_header h) 6 ≡ h.header_size
  unfolding serialize_file_header write_u16 write_u32 write_u64 read_u16
  header_size_back = joined_back_16 h.header_size f.header_size

  stream_kind_back : read_u16 (serialize_file_header h) 8 ≡ h.stream_kind
  unfolding serialize_file_header write_u16 write_u32 write_u64 read_u16
  stream_kind_back = joined_back_16 h.stream_kind f.stream_kind

  flags_back : read_u16 (serialize_file_header h) 10 ≡ h.flags
  unfolding serialize_file_header write_u16 write_u32 write_u64 read_u16
  flags_back = joined_back_16 h.flags f.flags

  payload_size_back : read_u32 (serialize_file_header h) 12 ≡ h.payload_size
  unfolding serialize_file_header write_u16 write_u32 write_u64 read_u32 joined
  payload_size_back = joined_back_32 h.payload_size f.payload_size

  payload_schema_version_back : read_u32 (serialize_file_header h) 16 ≡ h.payload_schema_version
  unfolding serialize_file_header write_u16 write_u32 write_u64 read_u32 joined
  payload_schema_version_back = joined_back_32 h.payload_schema_version f.payload_schema_version

  alignment_back : read_u32 (serialize_file_header h) 20 ≡ h.alignment
  unfolding serialize_file_header write_u16 write_u32 write_u64 read_u32 joined
  alignment_back = joined_back_32 h.alignment f.alignment

  records_offset_back : read_u32 (serialize_file_header h) 24 ≡ h.records_offset
  unfolding serialize_file_header write_u16 write_u32 write_u64 read_u32 joined
  records_offset_back = joined_back_32 h.records_offset f.records_offset

  stream_id_back : read_u64 (serialize_file_header h) 28 ≡ h.stream_id
  unfolding serialize_file_header write_u16 write_u32 write_u64 read_u64 joined
  stream_id_back = joined_back_64 h.stream_id f.stream_id

  epoch_id_back : read_u64 (serialize_file_header h) 36 ≡ h.epoch_id
  unfolding serialize_file_header write_u16 write_u32 write_u64 read_u64 joined
  epoch_id_back = joined_back_64 h.epoch_id f.epoch_id

  first_sequence_back : read_u64 (serialize_file_header h) 44 ≡ h.first_sequence
  unfolding serialize_file_header write_u16 write_u32 write_u64 read_u64 joined
  first_sequence_back = joined_back_64 h.first_sequence f.first_sequence

  manifest_id_back : read_u64 (serialize_file_header h) 52 ≡ h.manifest_id
  unfolding serialize_file_header write_u16 write_u32 write_u64 read_u64 joined
  manifest_id_back = joined_back_64 h.manifest_id f.manifest_id

  header_crc32_back : read_u32 (serialize_file_header h) 60 ≡ h.header_crc32
  unfolding serialize_file_header write_u16 write_u32 write_u64 read_u32 joined
  header_crc32_back = joined_back_32 h.header_crc32 f.header_crc32

  -- A file header with fields of their widths comes back from its 64 bytes.
  pub deserialize_file_header-serialize_file_header :
      deserialize_file_header (serialize_file_header h) ≡ some h
  unfolding deserialize_file_header
  deserialize_file_header-serialize_file_header = simp (
    length-serialize_file_header h,
    magic_back,
    version_back,
    header_size_back,
    stream_kind_back,
    flags_back,
    payload_size_back,
    payload_schema_version_back,
    alignment_back,
    records_offset_back,
    stream_id_back,
    epoch_id_back,
    first_sequence_back,
    manifest_id_back,
    header_crc32_back,
  )
