-- ===== src/Book/Scan.antt =====
-- price_segment.hpp: the bit scans that find the best level of a segment.
use ll_exp.Prelude.{
  ℕ, zero, suc, ◌-◌, ◌*◌, ◌/◌, ◌%◌, ◌^◌, ◌≤◌, ◌<◌, ◌≡◌, ◌≢◌, arith, ◌==◌, Bool-cases, inl, inr,
}
use native.Mathlib.Nat.{pow-suc}
use ll_exp.Book.Types.{PriceSegment, countr_zero, countl_zero, best_ask_offset, best_bid_offset}

abbrev pub bit_at : ℕ → ℕ → ℕ
bit_at word i = word / 2 ^ i % 2

-- The lowest set bit of a word.
pub record IsLowest (word i : ℕ) : Type 0 where
  pub present : bit_at word i ≡ 1
  pub lower : (j : ℕ) → j < i → bit_at word j ≡ 0

-- The highest set bit of a word.
pub record IsHighest (word i : ℕ) : Type 0 where
  pub present : 2 ^ i ≤ word
  pub higher : word < 2 ^ suc i

halved : (word i : ℕ) → word / 2 ^ suc i ≡ word / 2 / 2 ^ i
halved word i = rw (pow-suc 2 i) (grind arith)

lower_bits :
    (word i : ℕ) → word % 2 ≡ 0 → IsLowest (word / 2) i → (j : ℕ) → j < suc i → bit_at word j ≡ 0
lower_bits word i even v zero h = omega (arith, even)
lower_bits word i even v (suc j) h = rw (halved word j) (v.lower j (omega arith))

-- A word without its lowest digit, which is 0.
doubled-IsLowest : (word i : ℕ) → word % 2 ≡ 0 → IsLowest (word / 2) i → IsLowest word (suc i)
doubled-IsLowest word i even v = record {
  present = rw (halved word i) v.present;
  lower = lower_bits word i even v;
}

pub countr_zero-IsLowest :
    (n word : ℕ)
    → 0 < word
    → word < 2 ^ n
    → (countr_zero n word < n) × IsLowest word (countr_zero n word)
unfolding countr_zero
countr_zero-IsLowest zero word some_bit fits = absurd (omega arith)
countr_zero-IsLowest (suc n) word some_bit fits = elim (Bool-cases (word % 2 == 1)) [
  | inl odd ↦
      rw odd (omega arith, record { present = ground arith; lower = λ j h. absurd (omega arith) })
  | inr even ↦
      let bit : word % 2 ≡ 0 = ground arith in
      let width : 2 ^ suc n ≡ 2 ^ n * 2 = pow-suc 2 n in
      let rest = countr_zero-IsLowest n (word / 2) (omega arith) (omega arith) in
      rw even (omega (arith, rest), doubled-IsLowest word (countr_zero n (word / 2)) bit rest.1)
]

quotient_one : (word power : ℕ) → word / power % 2 ≡ 1 → power ≤ word
quotient_one word power h = grind arith

quotient_zero : (word power : ℕ) → word < power * 2 → word / power % 2 ≢ 1 → word < power
quotient_zero word power fits h = grind arith

IsHighest-same : (word i j : ℕ) → i ≡ j → IsHighest word i → IsHighest word j
IsHighest-same word i j e v = rw (← e) v

countl_zero-IsHighest :
    (n word : ℕ)
    → 0 < word
    → word < 2 ^ n
    → (countl_zero n word < n) × IsHighest word (n - 1 - countl_zero n word)
unfolding countl_zero
countl_zero-IsHighest zero word some_bit fits = absurd (omega arith)
countl_zero-IsHighest (suc n) word some_bit fits =
    let width : 2 ^ suc n ≡ 2 ^ n * 2 = pow-suc 2 n in
    elim (Bool-cases (word / 2 ^ n % 2 == 1)) [
      | inl top ↦ rw top (
        omega arith,
        IsHighest-same word n (suc n - 1 - 0) (omega arith)
            (record { present = quotient_one word (2 ^ n) (ground arith); higher = fits }),
      )
      | inr low ↦
          let below : word < 2 ^ n = quotient_zero word (2 ^ n) (omega arith) (ground arith) in
          let rest = countl_zero-IsHighest n word some_bit below in
          rw low (
            omega (arith, rest.0),
            IsHighest-same word (n - 1 - countl_zero n word) (suc n - 1 - suc (countl_zero n word))
                (omega arith) rest.1,
          )
    ]

-- For a segment with a level that is occupied and a mask of 64 bits, `best_ask_offset` is below
-- 64, its bit of the mask is set, and no lower bit is.
pub best_ask_offset-IsLowest :
    (s : PriceSegment)
    → 0 < s.active_mask
    → s.active_mask < 2 ^ 64
    → (best_ask_offset s < 64) × IsLowest s.active_mask (best_ask_offset s)
unfolding best_ask_offset
best_ask_offset-IsLowest s = countr_zero-IsLowest 64 s.active_mask

-- For a segment with a level that is occupied and a mask of 64 bits, `best_bid_offset` is below
-- 64, and the mask lies between the power of two of that offset and the next one, so that the
-- offset is that of its highest set bit.
pub best_bid_offset-IsHighest :
    (s : PriceSegment)
    → 0 < s.active_mask
    → s.active_mask < 2 ^ 64
    → (best_bid_offset s < 64) × IsHighest s.active_mask (best_bid_offset s)
unfolding best_bid_offset
best_bid_offset-IsHighest s some_bit fits =
    let done = countl_zero-IsHighest 64 s.active_mask some_bit fits in
    (
      omega arith,
      IsHighest-same s.active_mask (64 - 1 - countl_zero 64 s.active_mask) _ (omega arith) done.1,
    )
