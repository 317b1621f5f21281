-- ===== src/Wal/Format/Headers.antt =====
-- physical_wal_file.cpp: a header comes back from its bytes.
use ll_exp.Prelude.{◌^◌, ◌<◌, ◌≡◌, refl, some, length}
use ll_exp.Bytes.{
  write_u16, write_u32, write_u64, read_u16, read_u32, read_u64, joined, joined_back_16,
  joined_back_32, joined_back_64,
}
use ll_exp.Wal.Format.{RecordHeader, serialize_record_header, deserialize_record_header}

-- Each field of the header fits its width.
pub record FitsRecord (h : RecordHeader) : Type 0 where
  pub magic : h.magic < 2 ^ 32
  pub version : h.version < 2 ^ 16
  pub header_size : h.header_size < 2 ^ 16
  pub sequence : h.sequence < 2 ^ 64
  pub payload_crc32 : h.payload_crc32 < 2 ^ 32
  pub header_crc32 : h.header_crc32 < 2 ^ 32

pub length-serialize_record_header : (h : RecordHeader) → length (serialize_record_header h) ≡ 24
unfolding serialize_record_header write_u16 write_u32 write_u64
length-serialize_record_header h = refl

module _ (h : RecordHeader) (f : FitsRecord h) where
  magic_back : read_u32 (serialize_record_header h) 0 ≡ h.magic
  unfolding serialize_record_header write_u16 write_u32 write_u64 read_u32 joined
  magic_back = joined_back_32 h.magic f.magic

  version_back : read_u16 (serialize_record_header h) 4 ≡ h.version
  unfolding serialize_record_header write_u16 write_u32 write_u64 read_u16
  version_back = joined_back_16 h.version f.version

  header_size_back : read_u16 (serialize_record_header h) 6 ≡ h.header_size
  unfolding serialize_record_header write_u16 write_u32 write_u64 read_u16
  header_size_back = joined_back_16 h.header_size f.header_size

  sequence_back : read_u64 (serialize_record_header h) 8 ≡ h.sequence
  unfolding serialize_record_header write_u16 write_u32 write_u64 read_u64 joined
  sequence_back = joined_back_64 h.sequence f.sequence

  payload_crc32_back : read_u32 (serialize_record_header h) 16 ≡ h.payload_crc32
  unfolding serialize_record_header write_u16 write_u32 write_u64 read_u32 joined
  payload_crc32_back = joined_back_32 h.payload_crc32 f.payload_crc32

  header_crc32_back : read_u32 (serialize_record_header h) 20 ≡ h.header_crc32
  unfolding serialize_record_header write_u16 write_u32 write_u64 read_u32 joined
  header_crc32_back = joined_back_32 h.header_crc32 f.header_crc32

  -- A record header with fields of their widths comes back from its 24 bytes.
  pub deserialize_record_header-serialize_record_header :
      deserialize_record_header (serialize_record_header h) ≡ some h
  unfolding deserialize_record_header
  deserialize_record_header-serialize_record_header = simp (
    length-serialize_record_header h,
    magic_back,
    version_back,
    header_size_back,
    sequence_back,
    payload_crc32_back,
    header_crc32_back,
  )
