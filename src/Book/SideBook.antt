-- ===== src/Book/SideBook.antt =====
-- exchange/order_book/include/fexma/order_book/side_book.hpp: one side's price levels. The template
-- parameter `BookSide` is the field `book_side`. A write through the references `order`,
-- `price_segment` and `level` becomes an update of the pool or of the segment array.
pub mod Prices
pub mod BestAsk
pub mod Totals
use ll_exp.Prelude.{
  ℕ, zero, suc, ◌+◌, ◌-◌, ◌*◌, ◌/◌, ◌%◌, ◌^◌, ltb, leb, ◌==◌, if◌then◌else◌, Bool, ◌&&◌, ◌||◌,
  Option, none, some, List, [], ◌∷◌, length, get_or, set, replicate, bit_and, bit_or,
}
use ll_exp.Book.Types.{
  Side, invalid_order_index, prices_per_segment, u32_mod, u64_mod, PriceLevel, empty_level,
  PriceSegment, segment_empty, countr_zero, countl_zero, best_ask_offset, best_bid_offset,
}
use ll_exp.Book.Pool.{Order, OrderPool, get_unchecked, write_order}

-- `segment_count_` and `segment_occupancy_word_count_` are the lengths of the two arrays.
pub record SideBook : Type 0 where
  pub book_side : Side
  pub min_price_tick : ℕ
  pub max_price_tick : ℕ
  pub base_segment : ℕ
  pub segments : List PriceSegment
  pub segment_occupancy : List ℕ
  pub best_segment : ℕ
  pub order_count : ℕ
  pub total_quantity : ℕ

-- `static_cast<std::size_t>(-1)`
abbrev pub invalid_segment : ℕ
invalid_segment = 2 ^ 64 - 1

-- `PriceSegment{}`
unfoldable pub empty_segment : PriceSegment
empty_segment = record { levels = replicate prices_per_segment empty_level; active_mask = 0 }

unfoldable pub segment_count_for : ℕ → ℕ → ℕ
segment_count_for min_price max_price =
    if ltb max_price min_price then 0 else max_price / 64 - min_price / 64 + 1

abbrev pub word_count_for : ℕ → ℕ
word_count_for bit_count = (bit_count + 63) / 64

unfoldable pub clear : SideBook → SideBook
unfolding empty_segment
clear b = record b {
  best_segment = invalid_segment;
  order_count = 0;
  total_quantity = 0;
  segments = replicate (length b.segments) empty_segment;
  segment_occupancy = replicate (length b.segment_occupancy) 0;
}

unfoldable pub make_side : Side → ℕ → ℕ → SideBook
unfolding segment_count_for empty_segment
make_side side min_price max_price =
    let count = segment_count_for min_price max_price in
    record {
      book_side = side;
      min_price_tick = min_price;
      max_price_tick = max_price;
      base_segment = min_price / 64;
      segments = replicate count empty_segment;
      segment_occupancy = replicate (word_count_for count) 0;
      best_segment = invalid_segment;
      order_count = 0;
      total_quantity = 0;
    }

unfoldable pub contains_price : SideBook → ℕ → Bool
contains_price b price = leb b.min_price_tick price && leb price b.max_price_tick

-- `(price >> 6) - base_segment_` over `std::size_t`
unfoldable pub local_segment : SideBook → ℕ → ℕ
local_segment b price = (price / 64 + u64_mod - b.base_segment) % u64_mod

-- `price & 63`
unfoldable pub price_offset : ℕ → ℕ
price_offset price = bit_and price 63

unfoldable pub price_from_local : SideBook → ℕ → ℕ → ℕ
price_from_local b segment offset = ((b.base_segment + segment) * 64 + offset) % u32_mod

abbrev pub segment_at : SideBook → ℕ → PriceSegment
segment_at b i = get_or b.segments i empty_segment

abbrev pub level_at : PriceSegment → ℕ → PriceLevel
level_at s offset = get_or s.levels offset empty_level

abbrev pub set_level : PriceSegment → ℕ → PriceLevel → PriceSegment
set_level s offset l = record s { levels = set s.levels offset l }

-- `word |= 1 << (segment & 63)` and `word &= ~(1 << (segment & 63))`
unfoldable pub set_segment_occupied : SideBook → ℕ → SideBook
set_segment_occupied b segment = record b {
  segment_occupancy =
      set b.segment_occupancy (segment / 64)
        (bit_or (get_or b.segment_occupancy (segment / 64) 0) (2 ^ (segment % 64)));
}

abbrev pub clear_bit : ℕ → ℕ → ℕ
clear_bit word i = bit_and word (u64_mod - 1 - 2 ^ i)

unfoldable pub clear_segment_occupied : SideBook → ℕ → SideBook
clear_segment_occupied b segment = record b {
  segment_occupancy =
      set b.segment_occupancy (segment / 64)
        (clear_bit (get_or b.segment_occupancy (segment / 64) 0) (segment % 64));
}

-- The two scans over the words of the bitmap, forwards and backwards.
unfoldable pub first_occupied_from : List ℕ → ℕ → ℕ
unfolding countr_zero
first_occupied_from [] word_index = invalid_segment
first_occupied_from (w ∷ ws) word_index =
    let rest = first_occupied_from ws (word_index + 1) in
    if w == 0 then rest else word_index * 64 + countr_zero 64 w

unfoldable pub last_occupied_below : List ℕ → ℕ → ℕ
unfolding countl_zero
last_occupied_below words zero = invalid_segment
last_occupied_below words (suc i) =
    let rest = last_occupied_below words i in
    let word = get_or words i 0 in if word == 0 then rest else i * 64 + 63 - countl_zero 64 word

unfoldable pub recompute_best : SideBook → SideBook
unfolding first_occupied_from last_occupied_below
recompute_best b = record b {
  best_segment = elim b.book_side [
    | Side.ask ↦ first_occupied_from b.segment_occupancy 0
    | Side.bid ↦ last_occupied_below b.segment_occupancy (length b.segment_occupancy)
  ];
}

unfoldable pub update_best_after_insert : SideBook → ℕ → SideBook
update_best_after_insert b segment =
    let better = b.best_segment == invalid_segment || (elim b.book_side [
      | Side.ask ↦ ltb segment b.best_segment
      | Side.bid ↦ ltb b.best_segment segment
    ]) in
    if better then record b { best_segment = segment } else b

-- `append`: the pool's share of the work, the link from the old tail included.
unfoldable pub link_last : OrderPool → ℕ → PriceLevel → OrderPool
link_last pool slot level =
    let order = get_unchecked pool slot in
    let pool' =
      write_order pool slot (record order { prev = level.tail; next = invalid_order_index }) in
    if level.tail == invalid_order_index
    then pool'
    else write_order pool' level.tail (record (get_unchecked pool' level.tail) { next = slot })

unfoldable pub grown_level : PriceLevel → ℕ → ℕ → PriceLevel
grown_level level slot remaining = record {
  head = if level.tail == invalid_order_index then slot else level.head;
  tail = slot;
  total_quantity = (level.total_quantity + remaining) % u64_mod;
  order_count = (level.order_count + 1) % u32_mod;
}

unfoldable pub append : SideBook → OrderPool → ℕ → SideBook × OrderPool
unfolding local_segment price_offset set_segment_occupied update_best_after_insert link_last
    grown_level empty_segment
append b pool slot =
    let order = get_unchecked pool slot in
    let segment = local_segment b order.price in
    let offset = price_offset order.price in
    let s = segment_at b segment in
    let level = level_at s offset in
    let mask =
      if level.tail == invalid_order_index
      then bit_or s.active_mask (2 ^ offset)
      else s.active_mask in
    let s' : PriceSegment = record {
      levels = set s.levels offset (grown_level level slot order.remaining);
      active_mask = mask;
    } in
    let b' = if segment_empty s then set_segment_occupied b segment else b in
    let b'' : SideBook = record b' {
      segments = set b'.segments segment s';
      order_count = (b'.order_count + 1) % u32_mod;
      total_quantity = (b'.total_quantity + order.remaining) % u64_mod;
    } in
    (update_best_after_insert b'' segment, link_last pool slot level)

-- `remove`: the neighbours' links, then the order's own.
unfoldable pub unlink : OrderPool → ℕ → OrderPool
unlink pool slot =
    let order = get_unchecked pool slot in
    let pool' =
      if order.prev == invalid_order_index
      then pool
      else write_order pool order.prev
          (record (get_unchecked pool order.prev) { next = order.next }) in
    let pool'' =
      if order.next == invalid_order_index
      then pool'
      else write_order pool' order.next
          (record (get_unchecked pool' order.next) { prev = order.prev }) in
    write_order pool'' slot (record (get_unchecked pool'' slot) {
      prev = invalid_order_index;
      next = invalid_order_index;
    })

unfoldable pub shrunk_level : PriceLevel → Order → PriceLevel
shrunk_level level order = record {
  head = if order.prev == invalid_order_index then order.next else level.head;
  tail = if order.next == invalid_order_index then order.prev else level.tail;
  total_quantity = (level.total_quantity + u64_mod - order.remaining) % u64_mod;
  order_count = (level.order_count + u32_mod - 1) % u32_mod;
}

unfoldable pub remove : SideBook → OrderPool → ℕ → SideBook × OrderPool
unfolding local_segment price_offset clear_segment_occupied recompute_best unlink shrunk_level
    empty_segment
remove b pool slot =
    let order = get_unchecked pool slot in
    let segment = local_segment b order.price in
    let offset = price_offset order.price in
    let s = segment_at b segment in
    let level = shrunk_level (level_at s offset) order in
    let emptied = level.order_count == 0 in
    let s' : PriceSegment = record {
      levels = set s.levels offset level;
      active_mask = if emptied then clear_bit s.active_mask offset else s.active_mask;
    } in
    let b' = record b {
      segments = set b.segments segment s';
      order_count = (b.order_count + u32_mod - 1) % u32_mod;
      total_quantity = (b.total_quantity + u64_mod - order.remaining) % u64_mod;
    } in
    let b'' =
      if emptied && segment_empty s'
      then if segment == b.best_segment
        then recompute_best (clear_segment_occupied b' segment)
        else clear_segment_occupied b' segment
      else b' in
    (b'', unlink pool slot)

-- Both branches of `set_remaining` on one aggregate.
unfoldable pub adjust : ℕ → ℕ → ℕ → ℕ
adjust total old new =
    if leb old new
    then (total + (new - old)) % u64_mod
    else (total + u64_mod - (old - new)) % u64_mod

unfoldable pub set_remaining : SideBook → OrderPool → ℕ → ℕ → SideBook × OrderPool
unfolding local_segment price_offset adjust empty_segment
set_remaining b pool slot new_remaining =
    let order = get_unchecked pool slot in
    let segment = local_segment b order.price in
    let offset = price_offset order.price in
    let s = segment_at b segment in
    let level = level_at s offset in
    let level' = record level {
      total_quantity = adjust level.total_quantity order.remaining new_remaining;
    } in
    (
      record b {
        segments = set b.segments segment (set_level s offset level');
        total_quantity = adjust b.total_quantity order.remaining new_remaining;
      },
      write_order pool slot (record order { remaining = new_remaining }),
    )

unfoldable pub best_offset : SideBook → ℕ
unfolding best_ask_offset best_bid_offset empty_segment
best_offset b = elim b.book_side [
  | Side.ask ↦ best_ask_offset (segment_at b b.best_segment)
  | Side.bid ↦ best_bid_offset (segment_at b b.best_segment)
]

-- `none` is the null pointer.
unfoldable pub best_level : SideBook → Option PriceLevel
unfolding best_offset
best_level b =
    if b.best_segment == invalid_segment
    then none
    else some (level_at (segment_at b b.best_segment) (best_offset b))

unfoldable pub best_order : SideBook → ℕ
unfolding best_level
best_order b = elim (best_level b) [ none ↦ invalid_order_index | some level ↦ level.head ]

unfoldable pub best_price : SideBook → ℕ
unfolding best_offset price_from_local
best_price b =
    if b.best_segment == invalid_segment
    then 0
    else price_from_local b b.best_segment (best_offset b)
