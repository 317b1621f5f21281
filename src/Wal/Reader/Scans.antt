-- ===== src/Wal/Reader/Scans.antt =====
-- reader.cpp: the loop of `scan_wal` on written records and a torn one after them.
use ll_exp.Prelude.{
  ℕ, zero, suc, ◌+◌, ◌%◌, ◌<◌, ◌≡◌, refl, sym, arith, Option, some, List, [], ◌∷◌, ◌++◌, ◌⊎◌, inl,
  inr, length, replicate, take, length-append, length-replicate,
}
use native.Mathlib.Nat.{mod-eq_of_lt}
use mathlib.Core.List.{append_assoc}
use ll_exp.Wal.Core.{u64_mod}
use ll_exp.Wal.Format.{WalConfig, serialize_record_header, aligned_record_size}
use ll_exp.Wal.Format.Headers.{length-serialize_record_header}
use ll_exp.Wal.Disk.{padding_size, record_header}
use ll_exp.Wal.Disk.Append.{record_bytes}
use ll_exp.Wal.Reader.{ReadResult, WalReader, scan_status_for, ScanStatus, ScanResult}
use ll_exp.Wal.Reader.Scan.{scan_loop, after_read}
use ll_exp.Wal.Reader.Records.{reader_at, FitsConfig, padding-exact, aligned_covers}
use ll_exp.Wal.Reader.Written.{read_next-record_bytes}
use ll_exp.Wal.Reader.Torn.{TornRead, torn, read_next-end, read_next-torn}

-- The records of payloads from a sequence number on.
abbrev pub log_bytes : WalConfig → ℕ → List (List ℕ) → List ℕ
log_bytes c sequence [] = []
log_bytes c sequence (p ∷ payloads) =
    record_bytes c sequence p ++ log_bytes c (sequence + 1) payloads

pub data Sized (c : WalConfig) : List (List ℕ) → Type 0 where
  nothing : Sized c []
  another :
      {p : List ℕ} {payloads : List (List ℕ)}
      → c.payload_size ≡ length p
      → Sized c payloads
      → Sized c (p ∷ payloads)

-- The last sequence number after the payloads; `start` where there are none.
abbrev pub last_sequence_after : ℕ → ℕ → List (List ℕ) → ℕ
last_sequence_after start sequence [] = start
last_sequence_after start sequence (p ∷ payloads) =
    last_sequence_after sequence (sequence + 1) payloads

-- A scan that started with `base` has passed the payloads and stopped at a tail of `n` bytes.
pub record Scanned (c : WalConfig) (sequence : ℕ) (base : ScanResult) (payloads : List (List ℕ))
    (n : ℕ) (found : Option ScanResult) : Type 0 where
  pub got : ScanResult
  pub returned : found ≡ some got
  pub records : got.records ≡ base.records + length payloads
  pub last_sequence : got.last_sequence ≡ last_sequence_after base.last_sequence sequence payloads
  pub last_valid_offset :
      got.last_valid_offset ≡ base.last_valid_offset + length (log_bytes c sequence payloads)
  pub status :
      ((n ≡ 0) × (got.status ≡ ScanStatus.clean))
      ⊎ ((0 < n) × (got.status ≡ ScanStatus.incomplete_tail))

pub length-record_bytes :
    (c : WalConfig) (sequence : ℕ) (payload : List ℕ)
    → FitsConfig c
    → c.payload_size ≡ length payload
    → length (record_bytes c sequence payload) ≡ aligned_record_size c
length-record_bytes c sequence payload f same =
    let header = serialize_record_header (record_header sequence payload) in
    omega (
      arith,
      length-append (header ++ payload) (replicate (padding_size c) 0),
      length-append header payload,
      length-serialize_record_header (record_header sequence payload),
      length-replicate {A = ℕ} (padding_size c) 0,
      padding-exact c f,
      aligned_covers c f,
      same,
    )

scan-stopped :
    (c : WalConfig) (sequence : ℕ) (base : ScanResult) (n rounds : ℕ)
    (r : ReadResult × List ℕ × WalReader)
    → 0 < n
    → TornRead r
    → Scanned c sequence base [] n (after_read (scan_loop rounds) base r)
scan-stopped c sequence base n rounds _ some_bytes (torn error tail) = record {
  got = record base { status = scan_status_for error; error = error };
  returned = refl;
  records = omega arith;
  last_sequence = refl;
  last_valid_offset = omega arith;
  status = inr (some_bytes, tail);
}

module _ (c : WalConfig) (f : FitsConfig c) where
  scan-tail :
      (rounds sequence offset n : ℕ) (base : ScanResult) (next : List ℕ)
      → sequence < u64_mod
      → c.payload_size ≡ length next
      → n < length (record_bytes c sequence next)
      → base.status ≡ ScanStatus.clean
      → Scanned c sequence base [] n (
          scan_loop
            (suc rounds)
            base
            (reader_at c sequence offset (take n (record_bytes c sequence next))))
  unfolding scan_loop
  scan-tail rounds sequence offset zero base next fits same short clean =
      rw (read_next-end c sequence offset) (record {
        got = base;
        returned = refl;
        records = omega arith;
        last_sequence = refl;
        last_valid_offset = omega arith;
        status = inl (refl, clean);
      })
  scan-tail rounds sequence offset (suc n) base next fits same short clean =
      scan-stopped c sequence base (suc n) rounds _ (omega arith)
        (read_next-torn c sequence offset next fits same f (suc n) (omega arith) short)

  -- One record more in front.
  scan-counted :
      (sequence n : ℕ) (base : ScanResult) (p : List ℕ) (payloads : List (List ℕ))
      (found : Option ScanResult)
      → c.payload_size ≡ length p
      → base.records + 1 < u64_mod
      → (offset : ℕ) → offset ≡ base.last_valid_offset + aligned_record_size c
      → Scanned c
          (sequence + 1)
          (record base {
            records = (base.records + 1) % u64_mod;
            last_sequence = sequence;
            last_valid_offset = offset;
          })
          payloads
          n
          found
      → Scanned c sequence base (p ∷ payloads) n found
  scan-counted sequence n base p payloads found same small offset at s = record {
    got = s.got;
    returned = s.returned;
    records = omega (arith, s.records, mod-eq_of_lt small);
    last_sequence = s.last_sequence;
    last_valid_offset = omega (
      arith,
      s.last_valid_offset,
      at,
      length-append (record_bytes c sequence p) (log_bytes c (sequence + 1) payloads),
      length-record_bytes c sequence p f same,
    );
    status = s.status;
  }

  pub scan_loop-Scanned :
      (payloads : List (List ℕ)) (rounds sequence offset n : ℕ) (base : ScanResult) (next : List ℕ)
      → Sized c payloads
      → c.payload_size ≡ length next
      → length payloads < rounds
      → sequence + length payloads < u64_mod
      → base.records + length payloads < u64_mod
      → offset + length (log_bytes c sequence payloads) < u64_mod
      → base.last_valid_offset ≡ offset
      → base.status ≡ ScanStatus.clean
      → n < length (record_bytes c (sequence + length payloads) next)
      → Scanned c sequence base payloads n (
          scan_loop rounds base (
            reader_at c sequence offset (
              log_bytes c sequence payloads
              ++ take n (record_bytes c (sequence + length payloads) next))))
  unfolding scan_loop
  scan_loop-Scanned payloads zero sequence offset n base next sized same long fits room bytes at
        clean short =
      absurd (omega arith)
  scan_loop-Scanned [] (suc rounds) sequence offset n base next sized same long fits room bytes at
        clean short =
      let here : sequence + 0 ≡ sequence = omega arith in
      rw here (
        scan-tail rounds sequence offset n base next (omega (arith, fits)) same
          (rw (sym here) short) clean)
  scan_loop-Scanned (p ∷ payloads) (suc rounds) sequence offset n base next (another this sized)
        same long fits room bytes at clean short =
      let later = log_bytes c (sequence + 1) payloads in
      let stride = length-record_bytes c sequence p f this in
      let bounded : offset + aligned_record_size c + length later < u64_mod =
        omega (arith, bytes, stride, length-append (record_bytes c sequence p) later) in
      let wrapped : (offset + aligned_record_size c) % u64_mod ≡ offset + aligned_record_size c =
        mod-eq_of_lt (omega arith) in
      let here : sequence + length (p ∷ payloads) ≡ sequence + 1 + length payloads = omega arith in
      let counted : (base.records + 1) % u64_mod ≡ base.records + 1 =
        mod-eq_of_lt (omega (arith, room)) in
      rw here (
        rw
          (append_assoc (record_bytes c sequence p) later
            (take n (record_bytes c (sequence + 1 + length payloads) next)))
          (rw
            (read_next-record_bytes c sequence offset p (omega (arith, fits)) this
              (later ++ take n (record_bytes c (sequence + 1 + length payloads) next)) f
              (omega (arith, fits)))
            (scan-counted sequence n base p payloads _ this (omega (arith, room))
              ((offset + aligned_record_size c) % u64_mod) (omega (arith, wrapped, at))
              (scan_loop-Scanned payloads rounds (sequence + 1)
                ((offset + aligned_record_size c) % u64_mod) n _ next sized same (omega arith)
                (omega (arith, fits)) (omega (arith, counted, room))
                (omega (arith, wrapped, bounded)) refl clean (rw (sym here) short)))))
