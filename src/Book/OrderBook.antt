-- ===== src/Book/OrderBook.antt =====
-- exchange/order_book/src/order_book.cpp: the facade over the pool, the index and the two sides.
pub mod Counted
pub mod Inserts
pub mod Restores
use ll_exp.Prelude.{
  ℕ, zero, suc, ◌+◌, ◌-◌, ◌%◌, ltb, leb, ◌==◌, if◌then◌else◌, Bool, true, false, not, ◌&&◌, Option,
  none, some, List, [], ◌∷◌, ◌++◌, length,
}
use ll_exp.Book.Types.{
  Side, invalid_order_index, u32_mod, OrderBookConfig, RestingOrderData, OrderView, InsertStatus,
  SetRemainingStatus, SetRemainingResult, EraseStatus, EraseResult, SnapshotStatus, SnapshotResult,
  RestoreStatus, RestoreResult, empty_view, PriceLevel, PriceSegment,
}
use ll_exp.Book.Pool
use ll_exp.Book.Pool.{Order, OrderPool, get_unchecked}
use ll_exp.Book.Index
use ll_exp.Book.Index.{OrderIdIndex, IndexInsertStatus}
use ll_exp.Book.SideBook
use ll_exp.Book.SideBook.{SideBook}

pub record OrderBook : Type 0 where
  pub config : OrderBookConfig
  pub pool : OrderPool
  pub index : OrderIdIndex
  pub bids : SideBook
  pub asks : SideBook

-- The constructor, over the pool's uninitialised memory; `none` is what the pool's constructor
-- throws.
unfoldable pub make_book : List Order → OrderBookConfig → Option OrderBook
unfolding Pool.make_pool Index.make_index SideBook.make_side
make_book memory config = elim (Pool.make_pool memory config.max_orders) [
  | none ↦ none
  | some pool ↦ some (record {
    config = config;
    pool = pool;
    index = Index.make_index config.max_orders;
    bids = SideBook.make_side Side.bid config.min_price_tick config.max_price_tick;
    asks = SideBook.make_side Side.ask config.min_price_tick config.max_price_tick;
  })
]

unfoldable pub price_in_range : OrderBook → ℕ → Bool
price_in_range b price = leb b.config.min_price_tick price && leb price b.config.max_price_tick

-- `bids_.append` or `asks_.append`
unfoldable pub append_to : Side → OrderBook → ℕ → OrderBook
append_to Side.bid b slot =
    let (side, pool) = SideBook.append b.bids b.pool slot in record b { bids = side; pool = pool }
append_to Side.ask b slot =
    let (side, pool) = SideBook.append b.asks b.pool slot in record b { asks = side; pool = pool }

unfoldable pub status_of_index : IndexInsertStatus → InsertStatus
status_of_index IndexInsertStatus.duplicate = InsertStatus.duplicate_order_id
status_of_index IndexInsertStatus.full = InsertStatus.capacity_exhausted
status_of_index IndexInsertStatus.ok = InsertStatus.ok

-- `insert`, from the index's answer on: a failure gives the acquired slot back.
unfoldable pub after_index :
    IndexInsertStatus → OrderBook → RestingOrderData → ℕ → InsertStatus × OrderBook
after_index IndexInsertStatus.ok b order slot = (InsertStatus.ok, append_to order.side b slot)
after_index IndexInsertStatus.duplicate b order slot =
    (InsertStatus.duplicate_order_id, record b { pool = Pool.release b.pool slot })
after_index IndexInsertStatus.full b order slot =
    (InsertStatus.capacity_exhausted, record b { pool = Pool.release b.pool slot })

unfoldable pub insert_slot : OrderBook → RestingOrderData → ℕ → InsertStatus × OrderBook
insert_slot b order slot =
    let (status, index) = Index.insert b.index order.id slot in
    after_index status (record b { index = index }) order slot

unfoldable pub insert : OrderBook → RestingOrderData → InsertStatus × OrderBook
insert b order =
    if order.quantity == 0
    then (InsertStatus.invalid_quantity, b)
    else if not (price_in_range b order.price)
    then (InsertStatus.price_out_of_range, b)
    else let (slot, pool) =
        Pool.emplace b.pool order.id order.owner_id order.price order.quantity order.side in
      if slot == invalid_order_index
      then (
        if Index.find b.index order.id == invalid_order_index
            then InsertStatus.capacity_exhausted
            else InsertStatus.duplicate_order_id,
        record b { pool = pool },
      )
      else insert_slot (record b { pool = pool }) order slot

unfoldable pub view_for : OrderPool → ℕ → OrderView
view_for pool slot =
    let order = get_unchecked pool slot in
    record {
      id = order.id;
      owner_id = order.owner_id;
      side = order.side;
      price = order.price;
      remaining = order.remaining;
    }

unfoldable pub side_of : Side → OrderBook → SideBook
side_of Side.bid b = b.bids
side_of Side.ask b = b.asks

unfoldable pub best : OrderBook → Side → Option OrderView
unfolding view_for side_of
best b side =
    let slot = SideBook.best_order (side_of side b) in
    if slot == invalid_order_index then none else some (view_for b.pool slot)

unfoldable pub remove_from : Side → OrderBook → ℕ → OrderBook
remove_from Side.bid b slot =
    let (side, pool) = SideBook.remove b.bids b.pool slot in record b { bids = side; pool = pool }
remove_from Side.ask b slot =
    let (side, pool) = SideBook.remove b.asks b.pool slot in record b { asks = side; pool = pool }

unfoldable pub remove_active_order : OrderBook → ℕ → OrderView × OrderBook
unfolding view_for remove_from
remove_active_order b slot =
    let b' = remove_from (get_unchecked b.pool slot).side b slot in
    (view_for b.pool slot, record b' { pool = Pool.release b'.pool slot })

unfoldable pub erase : OrderBook → ℕ → EraseResult × OrderBook
unfolding remove_active_order
erase b id =
    let (slot, index) = Index.erase_and_get b.index id in
    if slot == invalid_order_index
    then (
      record { status = EraseStatus.not_found; removed = empty_view },
      record b { index = index },
    )
    else let (removed, b') = remove_active_order (record b { index = index }) slot in
      (record { status = EraseStatus.ok; removed = removed }, b')

unfoldable pub set_remaining_in : Side → OrderBook → ℕ → ℕ → OrderBook
set_remaining_in Side.bid b slot n =
    let (side, pool) = SideBook.set_remaining b.bids b.pool slot n in
    record b { bids = side; pool = pool }
set_remaining_in Side.ask b slot n =
    let (side, pool) = SideBook.set_remaining b.asks b.pool slot n in
    record b { asks = side; pool = pool }

unfoldable pub set_remaining : OrderBook → ℕ → ℕ → SetRemainingResult × OrderBook
unfolding set_remaining_in
set_remaining b id new_remaining =
    if new_remaining == 0
    then (record { status = SetRemainingStatus.invalid_quantity; previous_remaining = 0 }, b)
    else let slot = Index.find b.index id in
      if slot == invalid_order_index
      then (record { status = SetRemainingStatus.not_found; previous_remaining = 0 }, b)
      else let order = get_unchecked b.pool slot in
        (
          record { status = SetRemainingStatus.ok; previous_remaining = order.remaining },
          set_remaining_in order.side b slot new_remaining,
        )

unfoldable pub clear : OrderBook → OrderBook
clear b = record b {
  pool = Pool.clear b.pool;
  index = Index.clear b.index;
  bids = SideBook.clear b.bids;
  asks = SideBook.clear b.asks;
}

unfoldable pub active_order_count : OrderBook → ℕ
active_order_count b = (b.bids.order_count + b.asks.order_count) % u32_mod

unfoldable pub order_count : OrderBook → ℕ
order_count b = active_order_count b

-- The walk along one level. `room` is what `orders.size() - copied` leaves, so that the walk ends
-- on any links; the list is what the walk writes, and `false` is the early return.
unfoldable pub snapshot_level : ℕ → OrderPool → ℕ → Bool × List OrderView
unfolding view_for
snapshot_level zero pool current = (current == invalid_order_index, [])
snapshot_level (suc room) pool current =
    let (done, rest) = snapshot_level room pool (get_unchecked pool current).next in
    if current == invalid_order_index then (true, []) else (done, view_for pool current ∷ rest)

unfoldable pub snapshot_levels : ℕ → OrderPool → List PriceLevel → Bool × List OrderView
unfolding snapshot_level
snapshot_levels size pool [] = (true, [])
snapshot_levels size pool (l ∷ ls) =
    let (done, views) = snapshot_level size pool l.head in
    let (done', rest) = snapshot_levels (size - length views) pool ls in
    if done then (done', views ++ rest) else (false, views)

unfoldable pub snapshot_segments : ℕ → OrderPool → List PriceSegment → Bool × List OrderView
unfolding snapshot_levels
snapshot_segments size pool [] = (true, [])
snapshot_segments size pool (s ∷ ss) =
    let (done, views) = snapshot_levels size pool s.levels in
    let (done', rest) = snapshot_segments (size - length views) pool ss in
    if done then (done', views ++ rest) else (false, views)

abbrev snapshot_result : Bool → List OrderView → SnapshotResult × List OrderView
snapshot_result done views = (
  record {
    status = if done then SnapshotStatus.ok else SnapshotStatus.capacity_exceeded;
    copied = length views;
  },
  views,
)

-- `size` is `orders.size()`; the list is the prefix of the span that is written.
unfoldable pub snapshot_into : OrderBook → ℕ → SnapshotResult × List OrderView
unfolding active_order_count snapshot_segments
snapshot_into b size =
    if ltb size (active_order_count b)
    then (record { status = SnapshotStatus.capacity_exceeded; copied = 0 }, [])
    else let (done, bids) = snapshot_segments size b.pool b.bids.segments in
      let (done', asks) = snapshot_segments (size - length bids) b.pool b.asks.segments in
      if done then snapshot_result done' (bids ++ asks) else snapshot_result false bids

abbrev pub resting_of_view : OrderView → RestingOrderData
resting_of_view v = record {
  id = v.id;
  owner_id = v.owner_id;
  side = v.side;
  price = v.price;
  quantity = v.remaining;
}

unfoldable pub restore_status : InsertStatus → RestoreStatus
restore_status InsertStatus.ok = RestoreStatus.ok
restore_status InsertStatus.duplicate_order_id = RestoreStatus.duplicate_order_id
restore_status InsertStatus.capacity_exhausted = RestoreStatus.capacity_exceeded
restore_status InsertStatus.price_out_of_range = RestoreStatus.price_out_of_range
restore_status InsertStatus.invalid_quantity = RestoreStatus.invalid_quantity

-- The loop of `restore`; `restored` counts at most `max_orders` orders.
unfoldable pub after_insert :
    (OrderBook → RestoreResult × OrderBook)
    → ℕ
    → InsertStatus × OrderBook
    → RestoreResult × OrderBook
after_insert again restored (InsertStatus.ok, b) = again b
after_insert again restored (failed, b) =
    (record { status = restore_status failed; restored = restored }, b)

unfoldable pub restore_from : List OrderView → ℕ → OrderBook → RestoreResult × OrderBook
restore_from [] restored b = (record { status = RestoreStatus.ok; restored = restored }, b)
restore_from (v ∷ vs) restored b =
    after_insert (restore_from vs (restored + 1)) restored (insert b (resting_of_view v))

unfoldable pub restore : OrderBook → List OrderView → RestoreResult × OrderBook
restore b orders =
    if ltb b.config.max_orders (length orders)
    then (record { status = RestoreStatus.capacity_exceeded; restored = 0 }, b)
    else restore_from orders 0 (clear b)
