-- ===== src/Wal/Reader/Records.antt =====
-- reader.cpp: reading back what `append_record` has written, whole or in part.
use ll_exp.Prelude.{
  ℕ, zero, suc, ◌+◌, ◌-◌, ◌*◌, ◌/◌, ◌^◌, ◌≤◌, ◌<◌, ◌≡◌, refl, sym, arith, min, leb, true, false,
  some, List, [], ◌∷◌, ◌++◌, length, replicate, ne→==, ==_refl, length-append, length-replicate,
  take-append, drop-append, replicate-sum,
}
use native.Mathlib.Decide.{ℕ_discrete, dec_lt}
use mathlib.Core.List.{append_assoc}
use ll_exp.Wal.Core.{u64_mod, checked_add, checked_align_up}
use ll_exp.Wal.Format.{
  WalConfig, crc32_bytes, serialize_record_header, deserialize_record_header, record_header_crc32,
  aligned_record_size,
}
use ll_exp.Wal.Format.Headers.{FitsRecord, deserialize_record_header-serialize_record_header}
use ll_exp.Wal.Disk.{padding_size, record_header}
use ll_exp.Wal.Reader.{
  PhysicalReadStatus, WalReadError, PhysicalWalReaderAdapter, WalReader, read, read_zero_padding,
  record_header_error, all_zero,
}
use ll_exp.Wal.Reader.Next.{record_padding}

-- A file whose reads all succeed.
abbrev pub quiet : List ℕ → PhysicalWalReaderAdapter
quiet rest = record { rest = rest; faults = [] }

leb-true : (a b : ℕ) → a ≤ b → leb a b ≡ true
leb-true a b h = ground arith

leb-false : (a b : ℕ) → b < a → leb a b ≡ false
leb-false a b h = ground arith

pub read-whole :
    (size : ℕ) (xs ys : List ℕ)
    → size ≡ length xs
    → read size (quiet (xs ++ ys)) ≡ (PhysicalReadStatus.complete, xs, quiet ys)
unfolding read
read-whole size [] ys e = rw e refl
read-whole size (x ∷ xs) ys e = simp (
  ne→== size 0 (λ z. absurd (omega arith)),
  leb-true size (length (x ∷ xs ++ ys)) (omega (arith, length-append (x ∷ xs) ys)),
  take-append (x ∷ xs) ys size e,
  drop-append (x ∷ xs) ys size e,
)

pub read-none :
    (size : ℕ) → 0 < size → read size (quiet []) ≡ (PhysicalReadStatus.end_of_file, [], quiet [])
unfolding read
read-none size pos = simp (ne→== size 0 (λ z. absurd (omega arith)), leb-false size 0 pos)

pub read-short :
    (size : ℕ) (xs : List ℕ)
    → 0 < length xs
    → length xs < size
    → read size (quiet xs) ≡ (PhysicalReadStatus.incomplete, xs, quiet [])
unfolding read
read-short size xs some_bytes short = simp (
  ne→== size 0 (λ z. absurd (omega arith)),
  leb-false size (length xs) short,
  ne→== (length xs) 0 (λ z. absurd (omega arith)),
)

all_zero-replicate : (n : ℕ) → all_zero (replicate n 0) ≡ true
unfolding all_zero
all_zero-replicate zero = refl
all_zero-replicate (suc n) = all_zero-replicate n

pub read_zero_padding-whole :
    (rounds size : ℕ) (error : WalReadError) (ys : List ℕ)
    → size ≤ rounds
    → read_zero_padding rounds size error (quiet (replicate size 0 ++ ys))
      ≡ (WalReadError.no_error, quiet ys)
unfolding read_zero_padding
read_zero_padding-whole zero zero error ys h = refl
read_zero_padding-whole zero (suc size) error ys h = absurd (omega arith)
read_zero_padding-whole (suc rounds) size error ys h = elim (ℕ_discrete size 0) [
  | yes e ↦ rw e refl
  | no ne ↦
      let chunk = min size 4096 in
      simp (
        ne→== size 0 ne,
        replicate-sum {A = ℕ} size chunk (size - chunk) 0 (omega arith),
        append_assoc,
        read-whole chunk (replicate chunk 0) (replicate (size - chunk) 0 ++ ys)
            (sym (length-replicate chunk 0)),
        all_zero-replicate chunk,
        read_zero_padding-whole rounds (size - chunk) error ys (omega arith),
      )
]

pub read_zero_padding-short :
    (rounds size n : ℕ) (error : WalReadError)
    → size ≤ rounds
    → n < size
    → read_zero_padding rounds size error (quiet (replicate n 0)) ≡ (error, quiet [])
unfolding read_zero_padding
read_zero_padding-short zero size n error h short = absurd (omega arith)
read_zero_padding-short (suc rounds) size n error h short = elim (ℕ_discrete n 0) [
  | yes e ↦
      rw e
        (simp (ne→== size 0 (λ z. absurd (omega arith)), read-none (min size 4096) (omega arith)))
  | no ne ↦ elim (dec_lt n (min size 4096)) [
    | yes part ↦ simp (
      ne→== size 0 (λ z. absurd (omega arith)),
      read-short (min size 4096) (replicate n 0) (rw (length-replicate {A = ℕ} n 0) (omega arith))
          (rw (length-replicate {A = ℕ} n 0) part),
    )
    | no full ↦
        let chunk = min size 4096 in
        simp (
          ne→== size 0 (λ z. absurd (omega arith)),
          replicate-sum {A = ℕ} n chunk (n - chunk) 0 (omega arith),
          read-whole chunk (replicate chunk 0) (replicate (n - chunk) 0)
              (sym (length-replicate chunk 0)),
          all_zero-replicate chunk,
          read_zero_padding-short rounds (size - chunk) (n - chunk) error (omega arith)
              (omega arith),
        )
  ]
]

-- The widths of a configuration's fields; the numbers of the layout are then exact.
pub record FitsConfig (c : WalConfig) : Type 0 where
  pub some_payload : 0 < c.payload_size
  pub payload_size : c.payload_size < 2 ^ 32
  pub some_alignment : 0 < c.alignment
  pub alignment : c.alignment < 2 ^ 32
  pub payload_schema_version : c.payload_schema_version < 2 ^ 32
  pub stream_kind : c.stream_kind < 2 ^ 16
  pub stream_id : c.stream_id < 2 ^ 64
  pub epoch_id : c.epoch_id < 2 ^ 64
  pub first_sequence : c.first_sequence < 2 ^ 64
  pub manifest_id : c.manifest_id < 2 ^ 64

module _ (c : WalConfig) (f : FitsConfig c) where
  up_exact : (v a : ℕ) → 0 < a → v ≤ (v + (a - 1)) / a * a
  up_exact v a pos = grind arith

  up_tight : (v a : ℕ) → (v + (a - 1)) / a * a ≤ v + (a - 1)
  up_tight v a = grind arith

  aligned_exact :
      aligned_record_size c ≡ (24 + c.payload_size + (c.alignment - 1)) / c.alignment * c.alignment
  unfolding aligned_record_size checked_add checked_align_up
  aligned_exact = ground (arith, f.payload_size, f.alignment)

  pub aligned_covers : 24 + c.payload_size ≤ aligned_record_size c
  aligned_covers = rw aligned_exact (up_exact (24 + c.payload_size) c.alignment f.some_alignment)

  pub aligned_below : aligned_record_size c < 24 + c.payload_size + c.alignment
  aligned_below =
      omega (arith, aligned_exact, up_tight (24 + c.payload_size) c.alignment, f.some_alignment)

  pub padding-exact : padding_size c ≡ aligned_record_size c - (24 + c.payload_size)
  unfolding padding_size
  padding-exact = omega (arith, aligned_covers, aligned_below, f.payload_size, f.alignment)

  pub record_padding-exact : record_padding c ≡ padding_size c
  unfolding record_padding padding_size
  record_padding-exact = omega (arith, aligned_covers, aligned_below, f.payload_size, f.alignment)

-- An open reader that has found no fault.
abbrev pub reader_at : WalConfig → ℕ → ℕ → List ℕ → WalReader
reader_at c sequence offset rest = record {
  physical_reader = quiet rest;
  config = c;
  next_sequence = sequence;
  next_offset = offset;
  failure = WalReadError.no_error;
  sequence_exhausted = false;
  is_open = true;
}

pub crc32_below : (bytes : List ℕ) → crc32_bytes bytes < 2 ^ 32
unfolding crc32_bytes
crc32_below bytes = omega arith

module _ (sequence : ℕ) (payload : List ℕ) (fits : sequence < u64_mod) where
  record_header-FitsRecord : FitsRecord (record_header sequence payload)
  unfolding record_header record_header_crc32
  record_header-FitsRecord = record {
    magic = omega arith;
    version = omega arith;
    header_size = omega arith;
    sequence = fits;
    payload_crc32 = crc32_below payload;
    header_crc32 = crc32_below _;
  }

  pub header_back :
      deserialize_record_header (serialize_record_header (record_header sequence payload))
      ≡ some (record_header sequence payload)
  header_back =
      deserialize_record_header-serialize_record_header (record_header sequence payload)
        record_header-FitsRecord

  pub header_sound :
      record_header_error (record_header sequence payload) sequence ≡ WalReadError.no_error
  unfolding record_header_error record_header record_header_crc32
  header_sound = simp (==_refl (crc32_bytes _), ==_refl sequence)

  pub payload_sum : (record_header sequence payload).payload_crc32 ≡ crc32_bytes payload
  unfolding record_header
  payload_sum = refl
