-- ===== src/Book/Pool.antt =====
-- exchange/order_book/include/fexma/order_book/detail/order_pool.hpp: the fixed array of orders and
-- its freelist, in the Release build (asserts off, no poisoning of free slots).
pub mod Freelist
pub mod Setup
use ll_exp.Prelude.{
  ℕ, ◌+◌, ◌-◌, ◌%◌, ◌^◌, ltb, ◌==◌, if◌then◌else◌, Bool, true, false, ◌&&◌, Option, none, some,
  List, [], ◌∷◌, get_or, set, replicate,
}
use ll_exp.Book.Types.{Side, invalid_order_index, u32_mod}

pub record Order : Type 0 where
  pub id : ℕ
  pub owner_id : ℕ
  pub price : ℕ
  pub remaining : ℕ
  pub prev : ℕ
  pub next : ℕ
  pub side : Side
  pub in_use : Bool

-- What a read outside the array is given in the model; the code makes no such read.
abbrev pub no_order : Order
no_order = record {
  id = 0;
  owner_id = 0;
  price = 0;
  remaining = 0;
  prev = 0;
  next = 0;
  side = Side.bid;
  in_use = false;
}

pub record OrderPool : Type 0 where
  pub orders : List Order
  pub capacity : ℕ
  pub free_head : ℕ
  pub free_count : ℕ

-- `order_index_max - 1`, as both types have 32 bits.
abbrev pub max_capacity : ℕ
max_capacity = 2 ^ 32 - 2

-- The loop over the slots. `slot + 1` stays below 2 ^ 32 by the bound on the capacity.
unfoldable pub initialize_slots : ℕ → ℕ → List Order → List Order
initialize_slots capacity slot [] = []
initialize_slots capacity slot (o ∷ os) =
    record o {
      next = if slot + 1 == capacity then invalid_order_index else slot + 1;
      in_use = false;
    }
    ∷ initialize_slots capacity (slot + 1) os

unfoldable pub initialize_freelist : OrderPool → OrderPool
unfolding initialize_slots
initialize_freelist p = record p {
  free_head = if p.capacity == 0 then invalid_order_index else 0;
  free_count = p.capacity;
  orders = initialize_slots p.capacity 0 p.orders;
}

-- The constructor: `none` is the thrown `std::invalid_argument`. `memory` is the array
-- of `capacity` orders as `make_unique_for_overwrite` leaves it, before the loop writes to it.
unfoldable pub make_pool : List Order → ℕ → Option OrderPool
make_pool memory capacity =
    if ltb max_capacity capacity
    then none
    else some (
        initialize_freelist (record {
          orders = memory;
          capacity = capacity;
          free_head = invalid_order_index;
          free_count = 0;
        }))

unfoldable pub clear : OrderPool → OrderPool
clear p = initialize_freelist p

-- `get_unchecked` for reading, and the write through the reference that it returns.
abbrev pub get_unchecked : OrderPool → ℕ → Order
get_unchecked p slot = get_or p.orders slot no_order

abbrev pub write_order : OrderPool → ℕ → Order → OrderPool
write_order p slot o = record p { orders = set p.orders slot o }

unfoldable pub contains : OrderPool → ℕ → Bool
contains p slot = ltb slot p.capacity && (get_unchecked p slot).in_use

unfoldable pub acquire : OrderPool → ℕ × OrderPool
acquire p = if p.free_head == invalid_order_index then (invalid_order_index, p) else (
  p.free_head,
  record p {
    orders = set p.orders p.free_head (record (get_unchecked p p.free_head) { in_use = true });
    free_head = (get_unchecked p p.free_head).next;
    free_count = (p.free_count + u32_mod - 1) % u32_mod;
  },
)

unfoldable pub emplace : OrderPool → ℕ → ℕ → ℕ → ℕ → Side → ℕ × OrderPool
unfolding acquire
emplace p id owner_id price remaining side =
    let (slot, p') = acquire p in
    if slot == invalid_order_index then (invalid_order_index, p') else (
      slot,
      write_order p' slot (record (get_unchecked p' slot) {
        id = id;
        owner_id = owner_id;
        price = price;
        remaining = remaining;
        prev = invalid_order_index;
        next = invalid_order_index;
        side = side;
      }),
    )

unfoldable pub release : OrderPool → ℕ → OrderPool
unfolding contains
release p slot =
    if contains p slot
    then record p {
      orders =
          set p.orders slot (record (get_unchecked p slot) { in_use = false; next = p.free_head });
      free_head = slot;
      free_count = (p.free_count + 1) % u32_mod;
    }
    else p
