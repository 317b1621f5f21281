-- ===== src/Book/SideBook/Prices.antt =====
-- side_book.hpp: prices as pairs of a segment and an offset.
use ll_exp.Prelude.{
  ℕ, ◌+◌, ◌-◌, ◌/◌, ◌%◌, ◌≤◌, ◌<◌, ◌≡◌, arith, true, length, length-replicate, bit_and-ones, ge→ltb,
  refl,
}
use ll_exp.Book.Types.{Side, u32_mod}
use ll_exp.Book.SideBook.{
  make_side, segment_count_for, contains_price, local_segment, price_offset, price_from_local,
  empty_segment,
}

-- A price that the side contains has a segment of the array and an offset in it, and comes back
-- from the two.
pub record IsPlaced (side : Side) (min_price max_price price : ℕ) : Type 0 where
  pub segment :
      local_segment (make_side side min_price max_price) price
      < length (make_side side min_price max_price).segments
  pub offset : price_offset price < 64
  pub back :
      price_from_local
        (make_side side min_price max_price)
        (local_segment (make_side side min_price max_price) price)
        (price_offset price)
      ≡ price

price_offset_lem : (price : ℕ) → price_offset price ≡ price % 64
unfolding price_offset
price_offset_lem price = bit_and-ones 6 price

contained :
    (side : Side) (min_price max_price price : ℕ)
    → contains_price (make_side side min_price max_price) price ≡ true
    → (min_price ≤ price) × (price ≤ max_price)
unfolding contains_price make_side
contained side min_price max_price price h = ground arith

local_segment_lem :
    (side : Side) (min_price max_price price : ℕ)
    → min_price ≤ price
    → price < u32_mod
    → local_segment (make_side side min_price max_price) price ≡ price / 64 - min_price / 64
unfolding local_segment make_side
local_segment_lem side min_price max_price price low small = omega arith

segments_of :
    (side : Side) (min_price max_price : ℕ)
    → min_price ≤ max_price
    → length (make_side side min_price max_price).segments ≡ max_price / 64 - min_price / 64 + 1
unfolding make_side segment_count_for empty_segment
segments_of side min_price max_price le =
    rw (ge→ltb max_price min_price le) (rw length-replicate refl)

price_from_local_lem :
    (side : Side) (min_price max_price price : ℕ)
    → min_price ≤ price
    → price < u32_mod
    → price_from_local
        (make_side side min_price max_price)
        (price / 64 - min_price / 64)
        (price % 64)
      ≡ price
unfolding price_from_local make_side
price_from_local_lem side min_price max_price price low small = omega arith

-- For a largest price of 32 bits, a price that a fresh side contains has a local segment within
-- the side's array and an offset below 64, and `price_from_local` gives the price back from the
-- two.
pub contains_price-IsPlaced :
    (side : Side) (min_price max_price price : ℕ)
    → max_price < u32_mod
    → contains_price (make_side side min_price max_price) price ≡ true
    → IsPlaced side min_price max_price price
contains_price-IsPlaced side min_price max_price price word h =
    let within = contained side min_price max_price price h in
    let place = local_segment_lem side min_price max_price price within.0 (omega (arith, within)) in
    let part = price_offset_lem price in
    record {
      segment =
          omega
            (arith, place, within, segments_of side min_price max_price (omega (arith, within)));
      offset = omega (arith, part);
      back =
          rw (place, part)
            (price_from_local_lem side min_price max_price price within.0 (omega (arith, within)));
    }
