-- ===== src/Wal/Reader/Opens.antt =====
-- reader.cpp: `open` on the bytes that `create` has written.
use ll_exp.Prelude.{
  ℕ, ◌+◌, ◌-◌, ◌*◌, ◌/◌, ◌%◌, ◌^◌, ◌≤◌, ◌<◌, ◌≡◌, ◌≢◌, refl, sym, ap, ◌∙◌, arith, true, some, List,
  ◌++◌, length, replicate, ==_refl, length-append, length-replicate, eq→==,
}
use mathlib.Core.List.{append_assoc}
use ll_exp.Wal.Core.{checked_add, checked_align_up}
use ll_exp.Wal.Format.{
  WalConfig, file_magic, format_version, physical_file_header_size, serialize_file_header,
  file_header_crc32, records_offset, valid_config, valid_stream_kind,
}
use ll_exp.Wal.Format.FileHeaders.{
  FitsFile, length-serialize_file_header, deserialize_file_header-serialize_file_header,
}
use ll_exp.Wal.Disk.{file_header, file_header_padding_size}
use ll_exp.Wal.Reader.{
  WalReadError, ReaderOpenStatus, PhysicalReadStatus, WalReader, read, config_of, file_header_error,
  same_persisted_config, valid_reader_config, closed_reader,
}
use ll_exp.Wal.Reader.Open.{open_reader, after_file_header, after_header, after_padding}
use ll_exp.Wal.Reader.Records.{
  quiet, reader_at, read-whole, read_zero_padding-whole, FitsConfig, crc32_below,
}

-- What `create` leaves in a file.
abbrev pub file_bytes : WalConfig → List ℕ
file_bytes c = serialize_file_header (file_header c) ++ replicate (file_header_padding_size c) 0

records_offset_below : (c : WalConfig) → records_offset c < 2 ^ 32
unfolding records_offset
records_offset_below c = ground arith

up_covers : (v a : ℕ) → 0 < a → v ≤ (v + (a - 1)) / a * a
up_covers v a pos = grind arith

valid-offset : (d : WalConfig) → valid_config d ≡ true → records_offset d ≢ 0
unfolding valid_config
valid-offset d valid e = ground (arith, valid, e)

module _ (c : WalConfig) (f : FitsConfig c) (valid : valid_reader_config c ≡ true) where
  file_header-FitsFile : FitsFile (file_header c)
  unfolding file_header file_header_crc32
  file_header-FitsFile = record {
    magic = omega arith;
    version = omega arith;
    header_size = omega arith;
    stream_kind = f.stream_kind;
    flags = omega arith;
    payload_size = f.payload_size;
    payload_schema_version = f.payload_schema_version;
    alignment = f.alignment;
    records_offset = records_offset_below c;
    stream_id = f.stream_id;
    epoch_id = f.epoch_id;
    first_sequence = f.first_sequence;
    manifest_id = f.manifest_id;
    header_crc32 = crc32_below _;
  }

  kind_known : valid_stream_kind c.stream_kind ≡ true
  unfolding valid_reader_config valid_config
  kind_known = ground (arith, valid)

  offset_given : records_offset c ≢ 0
  unfolding valid_reader_config records_offset
  offset_given = valid-offset (record c { capacity = 1 }) valid

  offset_covers : 64 ≤ records_offset c
  unfolding records_offset checked_align_up checked_add
  offset_covers = ground (arith, offset_given, up_covers 64 c.alignment f.some_alignment)

  header_padding : file_header_padding_size c ≡ records_offset c - 64
  unfolding file_header_padding_size
  header_padding = omega (arith, offset_covers, records_offset_below c)

  pub length-file_bytes : length (file_bytes c) ≡ records_offset c
  length-file_bytes = omega (
    arith,
    length-append (serialize_file_header (file_header c))
        (replicate (file_header_padding_size c) 0),
    length-serialize_file_header (file_header c),
    length-replicate {A = ℕ} (file_header_padding_size c) 0,
    header_padding,
    offset_covers,
  )

  same_config : same_persisted_config (file_header c) c ≡ true
  unfolding same_persisted_config file_header
  same_config = simp (
    ==_refl c.stream_kind,
    ==_refl c.payload_size,
    ==_refl c.payload_schema_version,
    ==_refl c.alignment,
    ==_refl c.stream_id,
    ==_refl c.epoch_id,
    ==_refl c.first_sequence,
    ==_refl c.manifest_id,
  )

  magic_given : (file_header c).magic ≡ file_magic
  unfolding file_header
  magic_given = refl

  version_given : (file_header c).version ≡ format_version
  unfolding file_header
  version_given = refl

  size_given : (file_header c).header_size ≡ physical_file_header_size
  unfolding file_header
  size_given = refl

  flags_given : (file_header c).flags ≡ 0
  unfolding file_header
  flags_given = refl

  kind_given : valid_stream_kind (file_header c).stream_kind ≡ true
  unfolding file_header
  kind_given = kind_known

  checksum_given : file_header_crc32 (file_header c) ≡ (file_header c).header_crc32
  unfolding file_header file_header_crc32
  checksum_given = refl

  described : valid_config (config_of (file_header c)) ≡ true
  unfolding file_header valid_reader_config
  described = valid

  same_offset : (file_header c).records_offset ≡ records_offset (config_of (file_header c))
  unfolding file_header records_offset
  same_offset = refl

  header_accepted : file_header_error (file_header c) c ≡ WalReadError.no_error
  unfolding file_header_error
  header_accepted = simp (
    magic_given,
    version_given,
    size_given,
    eq→== _ _ checksum_given,
    kind_given,
    flags_given,
    described,
    eq→== _ _ same_offset,
    same_config,
  )

  offset_stored : (file_header c).records_offset ≡ records_offset c
  unfolding file_header
  offset_stored = refl

  padding_read :
      (more : List ℕ)
      → after_header
          (file_header c)
          c
          closed_reader
          (quiet (replicate (file_header_padding_size c) 0 ++ more))
        ≡ (
          (ReaderOpenStatus.ok, WalReadError.no_error),
          reader_at c c.first_sequence (file_header c).records_offset more,
        )
  unfolding after_header after_padding
  padding_read more =
      let size : ((file_header c).records_offset + 2 ^ 32 - 64) % 2 ^ 32
          ≡ file_header_padding_size c =
        omega (arith, header_padding, offset_covers, records_offset_below c, offset_stored) in
      simp (
        header_accepted,
        size,
        read_zero_padding-whole (file_header_padding_size c) (file_header_padding_size c)
            WalReadError.incomplete_file_header more (omega arith),
      )

  abbrev opened_at : List ℕ → ℕ → (ReaderOpenStatus × WalReadError) × WalReader
  opened_at more offset =
      ((ReaderOpenStatus.ok, WalReadError.no_error), reader_at c c.first_sequence offset more)

  open_starts :
      (rest : List ℕ)
      → open_reader (some (quiet rest)) c closed_reader
        ≡ after_file_header c closed_reader (read 64 (quiet rest))
  unfolding open_reader
  open_starts rest = simp valid

  header_taken :
      (rest : List ℕ)
      → after_file_header c closed_reader
          (PhysicalReadStatus.complete, serialize_file_header (file_header c), quiet rest)
        ≡ after_header (file_header c) c closed_reader (quiet rest)
  unfolding after_file_header
  header_taken rest =
      rw
        (
          after_file_header,
          deserialize_file_header-serialize_file_header (file_header c) file_header-FitsFile,
        )
        refl

  -- For a valid configuration with fields of their widths and a system that refuses no read, a
  -- closed reader opens a file that starts with what `create` writes for it, and stands after the
  -- header at the first sequence number.
  pub open_reader-file_bytes :
      (more : List ℕ)
      → open_reader (some (quiet (file_bytes c ++ more))) c closed_reader ≡ (
        (ReaderOpenStatus.ok, WalReadError.no_error),
        reader_at c c.first_sequence (records_offset c) more,
      )
  open_reader-file_bytes more =
      let header = serialize_file_header (file_header c) in
      let zeros : List ℕ = replicate (file_header_padding_size c) 0 in
      rw (append_assoc header zeros more) (
        open_starts (header ++ (zeros ++ more))
        ∙ ap (after_file_header c closed_reader) (
            read-whole 64 header (zeros ++ more)
              (sym (length-serialize_file_header (file_header c))))
        ∙ header_taken (zeros ++ more)
        ∙ padding_read more
        ∙ ap (opened_at more) offset_stored)
