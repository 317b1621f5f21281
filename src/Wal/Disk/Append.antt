-- ===== src/Wal/Disk/Append.antt =====
-- physical_wal_file.cpp: what `append_record` leaves in the file, also where a write fails.
use ll_exp.Prelude.{
  Bool-cases, inl, inr, ℕ, zero, suc, ◌+◌, ◌-◌, ◌≤◌, ◌<◌, ◌≡◌, ◌≢◌, refl, sym, ◌∙◌, arith, min,
  Bool, true, false, List, [], ◌∷◌, ◌++◌, length, replicate, take, length-append, eq→==, ne→==,
  take-append_left, take-append_right, replicate-sum,
}
use native.Mathlib.Decide.{ℕ_discrete}
use mathlib.Core.List.{append_assoc, append-nil}
use ll_exp.Wal.Format.{WalConfig, serialize_record_header}
use ll_exp.Wal.Disk.{
  Answer, PhysicalWalAdapter, first_answer, later_answers, after_write, write_bytes, and_then,
  chunk_size, write_zeros, padding_size, record_header, write_record, append_record,
}

-- The file has grown by the bytes.
pub record Grown (bytes : List ℕ) (a a' : PhysicalWalAdapter) : Type 0 where
  pub content : a'.content ≡ a.content ++ bytes
  pub is_open : a'.is_open ≡ a.is_open
  pub config : a'.config ≡ a.config

-- All bytes, or some of them where a write has failed.
pub data Wrote (bytes : List ℕ) (a : PhysicalWalAdapter) : Bool × PhysicalWalAdapter → Type 0 where
  whole : {a' : PhysicalWalAdapter} → Grown bytes a a' → Wrote bytes a (true, a')
  cut :
      {a' : PhysicalWalAdapter} (n : ℕ)
      → n < length bytes
      → Grown (take n bytes) a a'
      → Wrote bytes a (false, a')

after_write-Wrote :
    (b : ℕ) (bytes : List ℕ) (answer : Answer) (a : PhysicalWalAdapter) (answers : List Answer)
    → Wrote (b ∷ bytes) a (after_write (b ∷ bytes) answer (record a { answers = answers }))
unfolding after_write
after_write-Wrote b bytes Answer.done a answers =
    whole (record { content = refl; is_open = refl; config = refl })
after_write-Wrote b bytes (Answer.failed n) a answers =
    cut (min n (length (b ∷ bytes) - 1)) (omega arith)
      (record { content = refl; is_open = refl; config = refl })

write_bytes-Wrote : (bytes : List ℕ) (a : PhysicalWalAdapter) → Wrote bytes a (write_bytes bytes a)
unfolding write_bytes
write_bytes-Wrote [] a =
    whole (record { content = sym (append-nil a.content); is_open = refl; config = refl })
write_bytes-Wrote (b ∷ bytes) a =
    after_write-Wrote b bytes (first_answer a.answers) a (later_answers a.answers)

Grown-append :
    (xs ys : List ℕ) (a a' a'' : PhysicalWalAdapter)
    → Grown xs a a'
    → Grown ys a' a''
    → Grown (xs ++ ys) a a''
Grown-append xs ys a a' a'' first next = record {
  content = next.content ∙ simp (first.content, append_assoc);
  is_open = next.is_open ∙ first.is_open;
  config = next.config ∙ first.config;
}

module _ (xs ys : List ℕ) (a : PhysicalWalAdapter) where
  after_whole :
      (a' : PhysicalWalAdapter) (r : Bool × PhysicalWalAdapter)
      → Grown xs a a'
      → Wrote ys a' r
      → Wrote (xs ++ ys) a r
  after_whole a' _ first (whole next) = whole (Grown-append xs ys a a' _ first next)
  after_whole a' _ first (cut n short next) =
      cut (length xs + n) (omega (arith, length-append xs ys)) (
        rw (take-append_right xs ys (length xs + n) n refl)
          (Grown-append xs (take n ys) a a' _ first next))

  -- One write after the other.
  and_then-Wrote :
      (r : Bool × PhysicalWalAdapter) (next : PhysicalWalAdapter → Bool × PhysicalWalAdapter)
      → Wrote xs a r
      → ((a' : PhysicalWalAdapter) → Grown xs a a' → Wrote ys a' (next a'))
      → Wrote (xs ++ ys) a (and_then next r)
  and_then-Wrote _ next (whole first) follow = after_whole _ _ first (follow _ first)
  and_then-Wrote _ next (cut n short first) follow =
      cut n (omega (arith, length-append xs ys)) (rw (take-append_left xs ys n (omega arith)) first)

-- The loop writes its zeros in as many rounds as there are zeros, or fewer.
write_zeros-Wrote :
    (rounds remaining : ℕ) (a : PhysicalWalAdapter)
    → remaining ≤ rounds
    → Wrote (replicate remaining 0) a (write_zeros rounds remaining a)
unfolding write_zeros
write_zeros-Wrote zero zero a h =
    whole (record { content = sym (append-nil a.content); is_open = refl; config = refl })
write_zeros-Wrote zero (suc remaining) a h = absurd (omega arith)
write_zeros-Wrote (suc rounds) remaining a h = elim (ℕ_discrete remaining 0) [
  | yes e ↦
      rw e (whole (record { content = sym (append-nil a.content); is_open = refl; config = refl }))
  | no ne ↦
      let chunk = chunk_size 64 remaining in
      rw (ne→== _ _ ne, replicate-sum {A = ℕ} remaining chunk (remaining - chunk) 0 (omega arith))
        (and_then-Wrote (replicate chunk 0) (replicate (remaining - chunk) 0) a
          (write_bytes (replicate chunk 0) a) (write_zeros rounds (remaining - chunk))
          (write_bytes-Wrote (replicate chunk 0) a)
          (λ a' first. write_zeros-Wrote rounds (remaining - chunk) a' (omega arith)))
]

-- A record of the file: its header, the payload and the padding.
abbrev pub record_bytes : WalConfig → ℕ → List ℕ → List ℕ
record_bytes c sequence payload =
    (serialize_record_header (record_header sequence payload) ++ payload)
    ++ replicate (padding_size c) 0

write_record-Wrote :
    (sequence : ℕ) (payload : List ℕ) (a : PhysicalWalAdapter)
    → Wrote (record_bytes a.config sequence payload) a (write_record sequence payload a)
unfolding write_record
write_record-Wrote sequence payload a =
    let header = serialize_record_header (record_header sequence payload) in
    and_then-Wrote (header ++ payload) (replicate (padding_size a.config) 0) a _
      (write_zeros (padding_size a.config) (padding_size a.config))
      (and_then-Wrote header payload a _ (write_bytes payload) (write_bytes-Wrote header a)
        (λ a' first. write_bytes-Wrote payload a'))
      (λ a' first.
        write_zeros-Wrote (padding_size a.config) (padding_size a.config) a' (omega arith))

-- The outcomes of `append_record`.
pub data Appended (sequence : ℕ) (payload : List ℕ) (a : PhysicalWalAdapter)
    : Bool × PhysicalWalAdapter → Type 0 where
  written :
      {r : Bool × PhysicalWalAdapter}
      → a.is_open ≡ true
      → length payload ≡ a.config.payload_size
      → Wrote (record_bytes a.config sequence payload) a r
      → Appended sequence payload a r
  not_open : a.is_open ≡ false → Appended sequence payload a (false, a)
  wrong_size : length payload ≢ a.config.payload_size → Appended sequence payload a (false, a)

module _ (sequence : ℕ) (payload : List ℕ) (a : PhysicalWalAdapter) where
  append_closed : a.is_open ≡ false → append_record sequence payload a ≡ (false, a)
  unfolding append_record
  append_closed closed = simp closed

  append_misfit :
      a.is_open ≡ true
      → length payload ≢ a.config.payload_size
      → append_record sequence payload a ≡ (false, a)
  unfolding append_record
  append_misfit running other = simp (running, ne→== _ _ other)

  append_fitting :
      a.is_open ≡ true
      → length payload ≡ a.config.payload_size
      → append_record sequence payload a ≡ write_record sequence payload a
  unfolding append_record
  append_fitting running same = simp (running, eq→== _ _ same)

  -- `append_record` refuses a closed log and a payload of another size and changes nothing;
  -- otherwise the file grows by the record's header, payload and padding where it succeeds, and
  -- by a proper prefix of these where it fails.
  pub append_record-Appended : Appended sequence payload a (append_record sequence payload a)
  append_record-Appended = elim (Bool-cases a.is_open) [
    | inr closed ↦ rw (append_closed closed) (not_open closed)
    | inl running ↦ elim (ℕ_discrete (length payload) a.config.payload_size) [
      | yes same ↦
          rw (append_fitting running same)
            (written running same (write_record-Wrote sequence payload a))
      | no other ↦ rw (append_misfit running other) (wrong_size other)
    ]
  ]
