-- ===== src/Tests/Books.antt =====
-- Runs of the order book: four slots, prices 100 to 200.
use ll_exp.Prelude.{ℕ, ◌≡◌, refl, none, some, [], replicate}
use ll_exp.Book.Types.{
  Side, OrderBookConfig, RestingOrderData, best_ask_offset, best_bid_offset, countr_zero,
  countl_zero,
}
use ll_exp.Book.Pool.{Order, OrderPool, no_order, emplace}
use ll_exp.Book.Index.{find}
use ll_exp.Book.SideBook.{SideBook}
use ll_exp.Book.SideBook
use ll_exp.Book.Pool
use ll_exp.Book.Index
use ll_exp.Book.OrderBook
use ll_exp.Book.OrderBook.{OrderBook}

abbrev pub config : OrderBookConfig
config = record { min_price_tick = 100; max_price_tick = 200; max_orders = 4 }

-- Unfolds the whole order book.
unfoldable pub program : ℕ
unfolding Pool.initialize_slots Pool.initialize_freelist Pool.make_pool Pool.clear Pool.contains
    Pool.acquire Pool.emplace Pool.release Index.double_until Index.bucket_count_for
    Index.make_index Index.clear Index.hash Index.find_from Index.find Index.insert_from
    Index.insert Index.repair Index.erase_at Index.erase_from Index.erase_and_get
    SideBook.segment_count_for SideBook.empty_segment SideBook.clear SideBook.make_side
    SideBook.contains_price SideBook.local_segment SideBook.price_offset SideBook.price_from_local
    SideBook.set_segment_occupied SideBook.clear_segment_occupied SideBook.first_occupied_from
    SideBook.last_occupied_below SideBook.recompute_best SideBook.update_best_after_insert
    SideBook.link_last SideBook.grown_level SideBook.append SideBook.unlink SideBook.shrunk_level
    SideBook.remove SideBook.adjust SideBook.set_remaining SideBook.best_offset SideBook.best_level
    SideBook.best_order SideBook.best_price countr_zero countl_zero best_ask_offset best_bid_offset
    OrderBook.make_book OrderBook.price_in_range OrderBook.append_to OrderBook.status_of_index
    OrderBook.after_index OrderBook.insert_slot OrderBook.insert OrderBook.view_for
    OrderBook.side_of OrderBook.best OrderBook.remove_from OrderBook.remove_active_order
    OrderBook.erase OrderBook.set_remaining_in OrderBook.set_remaining OrderBook.clear
    OrderBook.snapshot_level OrderBook.snapshot_levels OrderBook.snapshot_segments
    OrderBook.snapshot_into OrderBook.restore_status OrderBook.after_insert OrderBook.restore_from
    OrderBook.restore
program = 0

unfoldable pub empty_book : OrderBook
empty_book = elim (OrderBook.make_book (replicate config.max_orders no_order) config) [
  | some b ↦ b
  | none ↦ record {
    config = config;
    pool = record { orders = []; capacity = 0; free_head = 0; free_count = 0 };
    index = Index.make_index 0;
    bids = SideBook.make_side Side.bid 0 0;
    asks = SideBook.make_side Side.ask 0 0;
  }
]

abbrev pub bid_of : ℕ → ℕ → ℕ → RestingOrderData
bid_of id price quantity = record {
  id = id;
  owner_id = 7;
  side = Side.bid;
  price = price;
  quantity = quantity;
}

unfoldable pub three_bids : OrderBook
unfolding empty_book
three_bids =
    (OrderBook.insert
      (OrderBook.insert (OrderBook.insert empty_book (bid_of 1 150 10)).1 (bid_of 2 190 20)).1
      (bid_of 3 190 30)).1

best_is_first_at_190 :
    OrderBook.best three_bids Side.bid
    ≡ some (record { id = 2; owner_id = 7; side = Side.bid; price = 190; remaining = 20 })
unfolding program three_bids
best_is_first_at_190 = refl

after_erase :
    OrderBook.best (OrderBook.erase (OrderBook.erase three_bids 2).1 3).1 Side.bid
    ≡ some (record { id = 1; owner_id = 7; side = Side.bid; price = 150; remaining = 10 })
unfolding program three_bids
after_erase = refl

-- The snapshot of a book restores to a book with the same snapshot.
restored_again :
    OrderBook.snapshot_into
      (OrderBook.restore three_bids (OrderBook.snapshot_into three_bids 4).1).1
      4
    ≡ OrderBook.snapshot_into three_bids 4
unfolding program three_bids
restored_again = refl
