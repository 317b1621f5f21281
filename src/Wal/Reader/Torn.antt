-- ===== src/Wal/Reader/Torn.antt =====
-- reader.cpp: `read_next` on a record of which only the first bytes reached the file.
use ll_exp.Prelude.{
  ℕ, ◌-◌, ◌<◌, ◌≡◌, refl, sym, ap, ◌∙◌, arith, List, [], ◌++◌, length, replicate, take,
  length-append, length-replicate, length-take, take-append_left, take-append_right, take-replicate,
}
use native.Mathlib.Decide.{ℕ_discrete, dec_lt}
use mathlib.Core.List.{append_assoc}
use ll_exp.Wal.Core.{u64_mod}
use ll_exp.Wal.Format.{WalConfig}
use ll_exp.Wal.Format.Headers.{length-serialize_record_header}
use ll_exp.Wal.Disk.{padding_size}
use ll_exp.Wal.Disk.Append.{record_bytes}
use ll_exp.Wal.Reader.{WalReadError, ReadStatus, ReadResult, WalReader, scan_status_for, ScanStatus}
use ll_exp.Wal.Reader.Next.{read_next, after_header_bytes, after_payload, after_record}
use ll_exp.Wal.Reader.Records.{
  reader_at, read-none, read-short, read_zero_padding-short, FitsConfig, record_padding-exact,
}
use ll_exp.Wal.Reader.Written.{read_next-starts, header_bytes, header_read, payload_read}

-- A read that fails in a way that the scan reports as an incomplete tail.
pub data TornRead : ReadResult × List ℕ × WalReader → Type 0 where
  torn :
      {r : WalReader} (error : WalReadError)
      → scan_status_for error ≡ ScanStatus.incomplete_tail
      → TornRead (record { status = ReadStatus.failed; error = error; sequence = 0 }, [], r)

-- At the end of the file there is no record.
pub read_next-end :
    (c : WalConfig) (sequence offset : ℕ)
    → read_next c.payload_size (reader_at c sequence offset []) ≡ (
      record { status = ReadStatus.end_of_log; error = WalReadError.no_error; sequence = 0 },
      [],
      reader_at c sequence offset [],
    )
unfolding after_header_bytes
read_next-end c sequence offset =
    read_next-starts c sequence offset []
    ∙ ap (after_header_bytes (reader_at c sequence offset [])) (read-none 24 (omega arith))

module _ (c : WalConfig) (sequence offset : ℕ) (payload : List ℕ) (fits : sequence < u64_mod)
    (same : c.payload_size ≡ length payload) (f : FitsConfig c) where
  torn_header :
      (xs : List ℕ)
      → 0 < length xs
      → length xs < 24
      → TornRead (read_next c.payload_size (reader_at c sequence offset xs))
  unfolding after_header_bytes scan_status_for
  torn_header xs some_bytes short =
      rw (read_next-starts c sequence offset xs)
        (rw (read-short 24 xs some_bytes short) (torn WalReadError.incomplete_record_header refl))

  torn_payload :
      (m : ℕ)
      → m < length payload
      → TornRead (
          read_next c.payload_size (
            reader_at c sequence offset
              (header_bytes c sequence offset payload fits same ++ take m payload)))
  unfolding after_payload scan_status_for
  torn_payload m short =
      rw (header_read c sequence offset payload fits same (take m payload)) (elim (ℕ_discrete m 0) [
        | yes e ↦
            rw (e, read-none c.payload_size f.some_payload)
              (torn WalReadError.incomplete_payload refl)
        | no ne ↦
            let cut : length (take m payload) ≡ m = length-take payload m (omega arith) in
            rw
              (read-short c.payload_size (take m payload) (omega (arith, cut)) (omega (arith, cut)))
              (torn WalReadError.incomplete_payload refl)
      ])

  torn_padding :
      (m : ℕ)
      → m < padding_size c
      → TornRead (
          read_next c.payload_size (
            reader_at c sequence offset
              (header_bytes c sequence offset payload fits same ++ (payload ++ replicate m 0))))
  unfolding after_record scan_status_for
  torn_padding m short =
      rw
        (payload_read c sequence offset payload fits same (replicate m 0), record_padding-exact c f)
        (rw
          (read_zero_padding-short (padding_size c) (padding_size c) m
            WalReadError.incomplete_padding (omega arith) short)
          (torn WalReadError.incomplete_padding refl))

  torn_after_header :
      (m : ℕ)
      → m < length (payload ++ replicate (padding_size c) 0)
      → TornRead (
          read_next c.payload_size (
            reader_at c sequence offset (
              header_bytes c sequence offset payload fits same
              ++ take m (payload ++ replicate (padding_size c) 0))))
  torn_after_header m short = elim (dec_lt m (length payload)) [
    | yes early ↦
        rw (take-append_left payload (replicate (padding_size c) 0) m (omega arith))
          (torn_payload m early)
    | no late ↦
        let k = m - length payload in
        let within : k < padding_size c = omega (
          arith,
          length-append payload (replicate (padding_size c) 0),
          length-replicate {A = ℕ} (padding_size c) 0,
        ) in
        rw
          (
            take-append_right payload (replicate (padding_size c) 0) m k (omega arith),
            take-replicate {A = ℕ} (padding_size c) k 0 (omega arith),
          )
          (torn_padding k within)
  ]

  pub read_next-torn :
      (n : ℕ)
      → 0 < n
      → n < length (record_bytes c sequence payload)
      → TornRead (
          read_next c.payload_size
            (reader_at c sequence offset (take n (record_bytes c sequence payload))))
  read_next-torn n some_bytes short =
      let header = header_bytes c sequence offset payload fits same in
      let rest = payload ++ replicate (padding_size c) 0 in
      let sized : length header ≡ 24 = length-serialize_record_header _ in
      let whole : n < length (header ++ rest) =
        rw (sym (append_assoc header payload (replicate (padding_size c) 0))) short in
      rw (append_assoc header payload (replicate (padding_size c) 0)) (elim (dec_lt n 24) [
        | yes early ↦ rw (take-append_left header rest n (omega (arith, sized))) (
            torn_header (take n header) (omega (arith, length-take header n (omega (arith, sized))))
              (omega (arith, length-take header n (omega (arith, sized)))))
        | no late ↦
            rw (take-append_right header rest n (n - 24) (omega (arith, sized)))
              (torn_after_header (n - 24) (omega (arith, sized, length-append header rest, whole)))
      ])
