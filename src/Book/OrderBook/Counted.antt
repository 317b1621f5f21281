-- ===== src/Book/OrderBook/Counted.antt =====
-- order_book.cpp: what the operations of the facade do to the size of the index and to the number of
-- orders in the sides.
use ll_exp.Prelude.{
  ℕ, ◌+◌, ◌%◌, ◌≡◌, ◌≢◌, ◌⊎◌, if_both, refl, ap, arith, not, ◌==◌, inl, inr, Bool-cases,
}
use ll_exp.Book.Types.{
  Side, u32_mod, invalid_order_index, RestingOrderData, InsertStatus, EraseStatus,
}
use ll_exp.Book.Pool
use ll_exp.Book.Pool.{OrderPool, get_unchecked}
use ll_exp.Book.Index
use ll_exp.Book.Index.{OrderIdIndex, IndexInsertStatus}
use ll_exp.Book.Index.Count
use ll_exp.Book.Index.Count.{IsCounted, Inserted}
use ll_exp.Book.SideBook.Totals.{append-Gained}
use ll_exp.Book.OrderBook.{
  OrderBook, append_to, remove_from, set_remaining_in, remove_active_order, insert_slot,
  active_order_count, price_in_range, insert, erase, set_remaining, after_index,
}

append_to-index : (side : Side) (b : OrderBook) (slot : ℕ) → (append_to side b slot).index ≡ b.index
unfolding append_to
append_to-index Side.bid b slot = refl
append_to-index Side.ask b slot = refl

remove_from-index :
    (side : Side) (b : OrderBook) (slot : ℕ) → (remove_from side b slot).index ≡ b.index
unfolding remove_from
remove_from-index Side.bid b slot = refl
remove_from-index Side.ask b slot = refl

set_remaining_in-index :
    (side : Side) (b : OrderBook) (slot n : ℕ) → (set_remaining_in side b slot n).index ≡ b.index
unfolding set_remaining_in
set_remaining_in-index Side.bid b slot n = refl
set_remaining_in-index Side.ask b slot n = refl

remove_active_order-index :
    (b : OrderBook) (slot : ℕ) → (remove_active_order b slot).1.index ≡ b.index
unfolding remove_active_order
remove_active_order-index b slot = remove_from-index (get_unchecked b.pool slot).side b slot

-- `erase` keeps the index counted, and takes one entry out of it where it reports `Ok`.
pub record Shrinks (b : OrderBook) (status : EraseStatus) (b' : OrderBook) : Type 0 where
  pub valid : IsCounted b'.index
  pub smaller : status ≡ EraseStatus.ok → b'.index.size + 1 ≡ b.index.size

-- On a book whose index is counted, `erase` keeps it counted, and where it returns `Ok` the index
-- has one entry less.
pub erase-Shrinks :
    (b : OrderBook) (id : ℕ) → IsCounted b.index → Shrinks b (erase b id).0.status (erase b id).1
unfolding erase
erase-Shrinks b id v =
    let r = Index.erase_and_get b.index id in
    let done = Count.erase_and_get-Erased b.index id v in
    elim (Bool-cases (r.0 == invalid_order_index)) [
      | inl lost ↦ rw lost (record { valid = done.valid; smaller = λ e. cc })
      | inr found ↦
          let same = remove_active_order-index (record b { index = r.1 }) r.0 in
          rw found (record {
            valid = rw same done.valid;
            smaller = λ _. rw same (elim done.outcome [
              | inl e ↦ absurd (ground (arith, ap (λ (p : ℕ × OrderIdIndex). p.0) e))
              | inr less ↦ less
            ]);
          })
    ]

pub set_remaining-index : (b : OrderBook) (id n : ℕ) → (set_remaining b id n).1.index ≡ b.index
unfolding set_remaining
set_remaining-index b id n =
    let slot = Index.find b.index id in
    elim (Bool-cases (n == 0)) [
      | inl bad ↦ rw bad
      | inr good ↦ rw good (elim (Bool-cases (slot == invalid_order_index)) [
        | inl lost ↦ rw lost
        | inr found ↦ rw found (set_remaining_in-index (get_unchecked b.pool slot).side b slot n)
      ])
    ]

-- Both outcomes of an insertion: with `Ok` the index and the two sides together have one order
-- more, and with any other status as many as before.
pub record Tallied (b : OrderBook) (r : InsertStatus × OrderBook) : Type 0 where
  pub valid : IsCounted r.1.index
  pub outcome :
      ((r.0 ≡ InsertStatus.ok)
        × (r.1.index.size ≡ b.index.size + 1)
        × (active_order_count r.1 ≡ (active_order_count b + 1) % u32_mod))
      ⊎ ((r.0 ≢ InsertStatus.ok)
          × (r.1.index.size ≡ b.index.size)
          × (active_order_count r.1 ≡ active_order_count b))

append_to-Tallied :
    (side : Side) (b : OrderBook) (slot : ℕ) (x : OrderIdIndex)
    → IsCounted b.index
    → b.index.size ≡ x.size + 1
    → Tallied (record b { index = x }) (InsertStatus.ok, append_to side b slot)
unfolding append_to active_order_count
append_to-Tallied Side.bid b slot x v more = record {
  valid = v;
  outcome = inl (refl, more, omega (arith, (append-Gained b.bids b.pool slot).orders));
}
append_to-Tallied Side.ask b slot x v more = record {
  valid = v;
  outcome = inl (refl, more, omega (arith, (append-Gained b.asks b.pool slot).orders));
}

after_index-Tallied :
    (b : OrderBook) (order : RestingOrderData) (slot : ℕ) (r : IndexInsertStatus × OrderIdIndex)
    → Inserted b.index r
    → Tallied b (after_index r.0 (record b { index = r.1 }) order slot)
unfolding after_index active_order_count
after_index-Tallied b order slot (IndexInsertStatus.ok, x) h = elim h.outcome [
  | inl (_, more) ↦ append_to-Tallied order.side (record b { index = x }) slot b.index h.valid more
  | inr (other, _) ↦ absurd (other refl)
]
after_index-Tallied b order slot (IndexInsertStatus.duplicate, x) h = elim h.outcome [
  | inl (e, _) ↦ cc
  | inr (_, same) ↦ record {
    valid = h.valid;
    outcome = inr (λ e. cc, ap (λ (y : OrderIdIndex). y.size) same, refl);
  }
]
after_index-Tallied b order slot (IndexInsertStatus.full, x) h = elim h.outcome [
  | inl (e, _) ↦ cc
  | inr (_, same) ↦ record {
    valid = h.valid;
    outcome = inr (λ e. cc, ap (λ (y : OrderIdIndex). y.size) same, refl);
  }
]

refused-Tallied :
    (b : OrderBook) (pool : OrderPool) (status : InsertStatus)
    → IsCounted b.index
    → status ≢ InsertStatus.ok
    → Tallied b (status, record b { pool = pool })
unfolding active_order_count
refused-Tallied b pool status v other = record { valid = v; outcome = inr (other, refl, refl) }

-- The tally does not depend on the pool.
pool-Tallied :
    (b : OrderBook) (pool : OrderPool) (r : InsertStatus × OrderBook)
    → Tallied (record b { pool = pool }) r
    → Tallied b r
unfolding active_order_count
pool-Tallied b pool r t = record { valid = t.valid; outcome = t.outcome }

pub insert-Tallied :
    (b : OrderBook) (order : RestingOrderData) → IsCounted b.index → Tallied b (insert b order)
unfolding insert insert_slot
insert-Tallied b order v =
    let r = Pool.emplace b.pool order.id order.owner_id order.price order.quantity order.side in
    if_both (Tallied b) (order.quantity == 0)
      (refused-Tallied b b.pool InsertStatus.invalid_quantity v (λ e. cc))
      (if_both (Tallied b) (not (price_in_range b order.price))
        (refused-Tallied b b.pool InsertStatus.price_out_of_range v (λ e. cc))
        (if_both (Tallied b) (r.0 == invalid_order_index)
          (refused-Tallied b r.1 _ v (
            if_both (λ (s : InsertStatus). s ≢ InsertStatus.ok)
              (Index.find b.index order.id == invalid_order_index) (λ e. cc) (λ e. cc)))
          (pool-Tallied b r.1 _ (
            after_index-Tallied (record b { pool = r.1 }) order r.0
              (Index.insert b.index order.id r.0) (Count.insert-Inserted b.index order.id r.0 v)))))

pub insert-IsCounted :
    (b : OrderBook) (order : RestingOrderData)
    → IsCounted b.index
    → IsCounted (insert b order).1.index
insert-IsCounted b order v = (insert-Tallied b order v).valid
