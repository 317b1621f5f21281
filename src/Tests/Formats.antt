-- ===== src/Tests/Formats.antt =====
-- The headers of the physical log at concrete inputs.
use ll_exp.Prelude.{◌≡◌, arith, some}
use ll_exp.Wal.Format.{
  FileHeader, RecordHeader, serialize_file_header, serialize_record_header, deserialize_file_header,
  deserialize_record_header,
}
use ll_exp.Wal.Format.Headers.{FitsRecord, deserialize_record_header-serialize_record_header}
use ll_exp.Wal.Format.FileHeaders.{FitsFile, deserialize_file_header-serialize_file_header}

abbrev a_record_header : RecordHeader
a_record_header = record {
  magic = 0x57414c52;
  version = 3;
  header_size = 24;
  sequence = 300;
  payload_crc32 = 70000;
  header_crc32 = 5;
}

a_record_header-FitsRecord : FitsRecord a_record_header
a_record_header-FitsRecord = record {
  magic = omega arith;
  version = omega arith;
  header_size = omega arith;
  sequence = omega arith;
  payload_crc32 = omega arith;
  header_crc32 = omega arith;
}

record_header_example :
    deserialize_record_header (serialize_record_header a_record_header) ≡ some a_record_header
record_header_example =
    deserialize_record_header-serialize_record_header a_record_header a_record_header-FitsRecord

abbrev a_file_header : FileHeader
a_file_header = record {
  magic = 0x57414c46;
  version = 3;
  header_size = 64;
  stream_kind = 1;
  flags = 0;
  payload_size = 56;
  payload_schema_version = 1;
  alignment = 64;
  records_offset = 64;
  stream_id = 11;
  epoch_id = 2;
  first_sequence = 1;
  manifest_id = 4;
  header_crc32 = 99;
}

a_file_header-FitsFile : FitsFile a_file_header
a_file_header-FitsFile = record {
  magic = omega arith;
  version = omega arith;
  header_size = omega arith;
  stream_kind = omega arith;
  flags = omega arith;
  payload_size = omega arith;
  payload_schema_version = omega arith;
  alignment = omega arith;
  records_offset = omega arith;
  stream_id = omega arith;
  epoch_id = omega arith;
  first_sequence = omega arith;
  manifest_id = omega arith;
  header_crc32 = omega arith;
}

file_header_example :
    deserialize_file_header (serialize_file_header a_file_header) ≡ some a_file_header
file_header_example =
    deserialize_file_header-serialize_file_header a_file_header a_file_header-FitsFile
