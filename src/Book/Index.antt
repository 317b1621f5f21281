-- ===== src/Book/Index.antt =====
-- exchange/order_book/include/fexma/order_book/order_id_index.hpp: open addressing with linear
-- probes and backward-shift repair. The order book passes no probe statistics, so the counters
-- that `stats` collects are left out. `std::size_t` has 64 bits.
pub mod Count
use ll_exp.Prelude.{
  ℕ, zero, suc, ◌+◌, ◌-◌, ◌*◌, ◌/◌, ◌%◌, ◌^◌, ltb, ◌==◌, if◌then◌else◌, Bool, true, false, not,
  ◌&&◌, List, [], ◌∷◌, get_or, set, replicate, bit_and, bit_xor,
}
use ll_exp.Book.Types.{invalid_order_index, u64_mod}

pub data IndexInsertStatus : Type 0 where
  ok duplicate full : IndexInsertStatus

-- `State::Occupied` is `true`.
pub record Bucket : Type 0 where
  pub id : ℕ
  pub slot : ℕ
  pub occupied : Bool

-- `Bucket{}`
abbrev pub empty_bucket : Bucket
empty_bucket = record { id = 0; slot = invalid_order_index; occupied = false }

pub record OrderIdIndex : Type 0 where
  pub bucket_count : ℕ
  pub buckets : List Bucket
  pub size : ℕ

-- `while (count < required) count <<= 1`; a capacity below 2 ^ 32 takes at most 34 rounds.
unfoldable pub double_until : ℕ → ℕ → ℕ → ℕ
double_until zero required count = count
double_until (suc fuel) required count =
    let rest = double_until fuel required (count * 2 % u64_mod) in
    if ltb count required then rest else count

unfoldable pub bucket_count_for : ℕ → ℕ
unfolding double_until
bucket_count_for capacity = double_until 34 (if capacity == 0 then 1 else capacity * 2 + 1) 1

unfoldable pub make_index : ℕ → OrderIdIndex
unfolding bucket_count_for
make_index capacity = record {
  bucket_count = bucket_count_for capacity;
  buckets = replicate (bucket_count_for capacity) empty_bucket;
  size = 0;
}

unfoldable pub clear : OrderIdIndex → OrderIdIndex
clear x = record x { size = 0; buckets = replicate x.bucket_count empty_bucket }

unfoldable pub hash : ℕ → ℕ
hash id =
    let a = bit_xor id (id / 2 ^ 33) in
    let b = a * 0xff51afd7ed558ccd % u64_mod in
    let c = bit_xor b (b / 2 ^ 33) in
    let d = c * 0xc4ceb9fe1a85ec53 % u64_mod in bit_xor d (d / 2 ^ 33)

-- The mask is `bucket_count_ - 1`.
abbrev pub home : OrderIdIndex → ℕ → ℕ
home x id = bit_and (hash id) (x.bucket_count - 1)

abbrev pub bucket_at : OrderIdIndex → ℕ → Bucket
bucket_at x pos = get_or x.buckets pos empty_bucket

-- The loop of `find`, over the probes left.
unfoldable pub find_from : ℕ → OrderIdIndex → ℕ → ℕ → ℕ
find_from zero x id pos = invalid_order_index
find_from (suc probes) x id pos =
    let rest = find_from probes x id (bit_and (pos + 1) (x.bucket_count - 1)) in
    let bucket = bucket_at x pos in
    if not bucket.occupied
    then invalid_order_index
    else if bucket.id == id
    then bucket.slot
    else rest

unfoldable pub find : OrderIdIndex → ℕ → ℕ
unfolding find_from
find x id =
    if x.bucket_count == 0 then invalid_order_index else find_from x.bucket_count x id (home x id)

unfoldable pub insert_from : ℕ → OrderIdIndex → ℕ → ℕ → ℕ → IndexInsertStatus × OrderIdIndex
insert_from zero x id slot pos = (IndexInsertStatus.full, x)
insert_from (suc probes) x id slot pos =
    let rest = insert_from probes x id slot (bit_and (pos + 1) (x.bucket_count - 1)) in
    if (bucket_at x pos).occupied
    then if (bucket_at x pos).id == id then (IndexInsertStatus.duplicate, x) else rest
    else (
      IndexInsertStatus.ok,
      record x {
        buckets = set x.buckets pos (record { id = id; slot = slot; occupied = true });
        size = (x.size + 1) % u64_mod;
      },
    )

unfoldable pub insert : OrderIdIndex → ℕ → ℕ → IndexInsertStatus × OrderIdIndex
unfolding insert_from
insert x id slot =
    if x.bucket_count == 0
    then (IndexInsertStatus.full, x)
    else insert_from x.bucket_count x id slot (home x id)

-- `(a - b) & mask` over `std::size_t`
abbrev pub distance : OrderIdIndex → ℕ → ℕ → ℕ
distance x a b = bit_and ((a + u64_mod - b) % u64_mod) (x.bucket_count - 1)

-- The repair loop of `erase_at`, over the rounds that `repair_scan + 1 < bucket_count_` leaves.
-- The candidate moves into the hole if the hole is nearer to its home.
unfoldable pub repair : ℕ → OrderIdIndex → ℕ → ℕ → OrderIdIndex
repair zero x hole candidate = x
repair (suc rounds) x hole candidate =
    let c = bucket_at x candidate in
    let next = bit_and (candidate + 1) (x.bucket_count - 1) in
    let moved = record x { buckets = set (set x.buckets hole c) candidate empty_bucket } in
    let shift = repair rounds moved candidate next in
    let keep = repair rounds x hole next in
    if c.occupied
    then if ltb (distance x hole (home x c.id)) (distance x candidate (home x c.id))
      then shift
      else keep
    else x

unfoldable pub erase_at : OrderIdIndex → ℕ → OrderIdIndex
unfolding repair
erase_at x erased =
    repair (x.bucket_count - 1) (record x { buckets = set x.buckets erased empty_bucket }) erased
      (bit_and (erased + 1) (x.bucket_count - 1))

unfoldable pub erase_from : ℕ → OrderIdIndex → ℕ → ℕ → ℕ × OrderIdIndex
unfolding erase_at
erase_from zero x id pos = (invalid_order_index, x)
erase_from (suc probes) x id pos =
    let rest = erase_from probes x id (bit_and (pos + 1) (x.bucket_count - 1)) in
    let bucket = bucket_at x pos in
    if not bucket.occupied
    then (invalid_order_index, x)
    else if bucket.id == id
    then (bucket.slot, erase_at (record x { size = (x.size + u64_mod - 1) % u64_mod }) pos)
    else rest

unfoldable pub erase_and_get : OrderIdIndex → ℕ → ℕ × OrderIdIndex
unfolding erase_from
erase_and_get x id =
    if x.bucket_count == 0
    then (invalid_order_index, x)
    else erase_from x.bucket_count x id (home x id)
