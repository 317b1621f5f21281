-- ===== src/Book/Types.antt =====
-- exchange/order_book/include/fexma/order_book/{types,price_level,price_segment}.hpp: scalar types,
-- statuses, the level and the segment. Identifiers, prices and quantities are numbers; arithmetic
-- on them writes its wrap-around out where it stands.
use ll_exp.Prelude.{ℕ, zero, suc, ◌-◌, ◌/◌, ◌%◌, ◌^◌, ◌==◌, if◌then◌else◌, Bool, List}

abbrev pub u32_mod : ℕ
u32_mod = 2 ^ 32

abbrev pub u64_mod : ℕ
u64_mod = 2 ^ 64

pub data Side : Type 0 where
  bid ask : Side

-- `std::numeric_limits<std::uint32_t>::max()`
abbrev pub invalid_order_index : ℕ
invalid_order_index = 2 ^ 32 - 1

abbrev pub prices_per_segment : ℕ
prices_per_segment = 64

pub record OrderBookConfig : Type 0 where
  pub min_price_tick : ℕ
  pub max_price_tick : ℕ
  pub max_orders : ℕ

pub record RestingOrderData : Type 0 where
  pub id : ℕ
  pub owner_id : ℕ
  pub side : Side
  pub price : ℕ
  pub quantity : ℕ

pub record OrderView : Type 0 where
  pub id : ℕ
  pub owner_id : ℕ
  pub side : Side
  pub price : ℕ
  pub remaining : ℕ

pub data InsertStatus : Type 0 where
  ok duplicate_order_id capacity_exhausted price_out_of_range invalid_quantity : InsertStatus

pub data SetRemainingStatus : Type 0 where
  ok not_found invalid_quantity : SetRemainingStatus

pub data EraseStatus : Type 0 where
  ok not_found : EraseStatus

pub data SnapshotStatus : Type 0 where
  ok capacity_exceeded : SnapshotStatus

pub data RestoreStatus : Type 0 where
  ok duplicate_order_id capacity_exceeded price_out_of_range invalid_quantity : RestoreStatus

pub record SetRemainingResult : Type 0 where
  pub status : SetRemainingStatus
  pub previous_remaining : ℕ

pub record EraseResult : Type 0 where
  pub status : EraseStatus
  pub removed : OrderView

pub record SnapshotResult : Type 0 where
  pub status : SnapshotStatus
  pub copied : ℕ

pub record RestoreResult : Type 0 where
  pub status : RestoreStatus
  pub restored : ℕ

-- `OrderView{}`
abbrev pub empty_view : OrderView
empty_view = record { id = 0; owner_id = 0; side = Side.bid; price = 0; remaining = 0 }

pub record PriceLevel : Type 0 where
  pub head : ℕ
  pub tail : ℕ
  pub total_quantity : ℕ
  pub order_count : ℕ

-- `PriceLevel{}`
abbrev pub empty_level : PriceLevel
empty_level = record {
  head = invalid_order_index;
  tail = invalid_order_index;
  total_quantity = 0;
  order_count = 0;
}

-- `active_mask` is a 64-bit word.
pub record PriceSegment : Type 0 where
  pub levels : List PriceLevel
  pub active_mask : ℕ

abbrev pub segment_empty : PriceSegment → Bool
segment_empty s = s.active_mask == 0

-- `std::countr_zero` of a word of `n` bits: `n` at 0.
unfoldable pub countr_zero : ℕ → ℕ → ℕ
countr_zero zero x = 0
countr_zero (suc n) x = let rest = suc (countr_zero n (x / 2)) in if x % 2 == 1 then 0 else rest

-- `std::countl_zero` of a word of `n` bits: `n` at 0.
unfoldable pub countl_zero : ℕ → ℕ → ℕ
countl_zero zero x = 0
countl_zero (suc n) x = let rest = suc (countl_zero n x) in if x / 2 ^ n % 2 == 1 then 0 else rest

-- `active_mask != 0` is the caller's.
unfoldable pub best_ask_offset : PriceSegment → ℕ
unfolding countr_zero
best_ask_offset s = countr_zero 64 s.active_mask

unfoldable pub best_bid_offset : PriceSegment → ℕ
unfolding countl_zero
best_bid_offset s = 63 - countl_zero 64 s.active_mask
