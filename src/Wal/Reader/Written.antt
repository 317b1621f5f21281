-- ===== src/Wal/Reader/Written.antt =====
-- reader.cpp: `read_next` on the bytes of a record, all of them or the first of them.
use ll_exp.Prelude.{
  ℕ, ◌+◌, ◌-◌, ◌%◌, ◌<◌, ◌≡◌, sym, ap, ◌∙◌, arith, List, ◌++◌, length, replicate, ne→==, ==_refl,
}
use mathlib.Core.List.{append_assoc}
use ll_exp.Wal.Core.{u64_mod}
use ll_exp.Wal.Format.{WalConfig, serialize_record_header, crc32_bytes, aligned_record_size}
use ll_exp.Wal.Format.Headers.{length-serialize_record_header}
use ll_exp.Wal.Disk.{padding_size, record_header}
use ll_exp.Wal.Disk.Append.{record_bytes}
use ll_exp.Wal.Reader.{PhysicalReadStatus, WalReadError, ReadStatus, read, read_zero_padding}
use ll_exp.Wal.Reader.Next.{
  read_next, after_header_bytes, after_record_header, after_payload, after_record, record_padding,
}
use ll_exp.Wal.Reader.Records.{
  quiet, reader_at, read-whole, read_zero_padding-whole, FitsConfig, record_padding-exact,
  header_back, header_sound, payload_sum,
}

-- `read_next` on an open reader starts with the read of a header.
pub read_next-starts :
    (c : WalConfig) (sequence offset : ℕ) (rest : List ℕ)
    → read_next c.payload_size (reader_at c sequence offset rest)
      ≡ after_header_bytes (reader_at c sequence offset rest) (read 24 (quiet rest))
unfolding read_next
read_next-starts c sequence offset rest = simp (==_refl c.payload_size)

module _ (c : WalConfig) (sequence offset : ℕ) (payload : List ℕ) (fits : sequence < u64_mod)
    (same : c.payload_size ≡ length payload) where
  abbrev pub header_bytes : List ℕ
  header_bytes = serialize_record_header (record_header sequence payload)

  -- `before` is what the reader's file held when the call began.
  header_passes :
      (before more : List ℕ)
      → after_header_bytes
          (reader_at c sequence offset before)
          (PhysicalReadStatus.complete, header_bytes, quiet more)
        ≡ after_payload
            (record_header sequence payload)
            (reader_at c sequence offset before)
            (read c.payload_size (quiet more))
  unfolding after_header_bytes after_record_header
  header_passes before more =
      simp (header_back sequence payload fits, header_sound sequence payload fits)

  payload_passes :
      (before more : List ℕ)
      → after_payload
          (record_header sequence payload)
          (reader_at c sequence offset before)
          (PhysicalReadStatus.complete, payload, quiet more)
        ≡ after_record payload (reader_at c sequence offset before) (
            read_zero_padding
              (record_padding c)
              (record_padding c)
              WalReadError.incomplete_padding
              (quiet more))
  unfolding after_payload
  payload_passes before more =
      simp (payload_sum sequence payload fits, ==_refl (crc32_bytes payload))

  pub header_read :
      (more : List ℕ)
      → read_next c.payload_size (reader_at c sequence offset (header_bytes ++ more))
        ≡ after_payload
            (record_header sequence payload)
            (reader_at c sequence offset (header_bytes ++ more))
            (read c.payload_size (quiet more))
  header_read more =
      read_next-starts c sequence offset (header_bytes ++ more)
      ∙ ap (after_header_bytes (reader_at c sequence offset (header_bytes ++ more)))
          (read-whole 24 header_bytes more (sym (length-serialize_record_header _)))
      ∙ header_passes (header_bytes ++ more) more

  pub payload_read :
      (more : List ℕ)
      → read_next c.payload_size (reader_at c sequence offset (header_bytes ++ (payload ++ more)))
        ≡ after_record payload (reader_at c sequence offset (header_bytes ++ (payload ++ more))) (
            read_zero_padding
              (record_padding c)
              (record_padding c)
              WalReadError.incomplete_padding
              (quiet more))
  payload_read more =
      header_read (payload ++ more)
      ∙ ap
          (after_payload (record_header sequence payload)
            (reader_at c sequence offset (header_bytes ++ (payload ++ more))))
          (read-whole c.payload_size payload more same)
      ∙ payload_passes (header_bytes ++ (payload ++ more)) more

  record_kept :
      (before more : List ℕ)
      → sequence + 1 < u64_mod
      → after_record payload
          (reader_at c sequence offset before)
          (WalReadError.no_error, quiet more)
        ≡ (
          record {
            status = ReadStatus.got_record;
            error = WalReadError.no_error;
            sequence = sequence;
          },
          payload,
          reader_at c (sequence + 1) ((offset + aligned_record_size c) % u64_mod) more,
        )
  unfolding after_record
  record_kept before more later = simp (ne→== sequence (u64_mod - 1) (λ e. absurd (omega arith)))

  -- An open reader with no earlier failure, whose reads the system does not refuse, that stands
  -- at the bytes of a record with the sequence number it expects, not the largest, and fields of
  -- their widths, returns the record's payload and sequence number and stands after it, at the
  -- next sequence number and offset.
  pub read_next-record_bytes :
      (more : List ℕ)
      → FitsConfig c
      → sequence + 1 < u64_mod
      → read_next c.payload_size
          (reader_at c sequence offset (record_bytes c sequence payload ++ more))
        ≡ (
          record {
            status = ReadStatus.got_record;
            error = WalReadError.no_error;
            sequence = sequence;
          },
          payload,
          reader_at c (sequence + 1) ((offset + aligned_record_size c) % u64_mod) more,
        )
  read_next-record_bytes more f later =
      rw (append_assoc (header_bytes ++ payload) (replicate (padding_size c) 0) more) (
        rw (append_assoc header_bytes payload (replicate (padding_size c) 0 ++ more)) (
          payload_read (replicate (padding_size c) 0 ++ more)
          ∙ ap (after_record payload (reader_at c sequence offset _)) (
              rw (record_padding-exact c f) (
                read_zero_padding-whole (padding_size c) (padding_size c)
                  WalReadError.incomplete_padding more (omega arith)))
          ∙ record_kept _ more later))
