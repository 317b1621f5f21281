-- ===== src/Book/OrderBook/Inserts.antt =====
-- order_book.cpp: `insert` across the pool, the index and the sides, with its rollback.
use ll_exp.Prelude.{
  ℕ, zero, suc, ◌+◌, ◌<◌, ◌≡◌, ◌≢◌, refl, sym, ◌∙◌, ap, arith, not, ◌==◌, true, false, List, [],
  ◌∷◌, length, inl, inr, if_cases, if_both, if◌then◌else◌, ne→==,
}
use ll_exp.Book.Types.{Side, invalid_order_index, RestingOrderData, InsertStatus}
use ll_exp.Book.Pool
use ll_exp.Book.Pool.{Order, no_order, OrderPool, get_unchecked}
use ll_exp.Book.Pool.Freelist.{
  at, IsFreelist, Emplaced, emplace-Emplaced, Released, release-Released, stored_order, acquire-nil,
}
use ll_exp.Book.SideBook.Totals.{Gained, append-Gained}
use ll_exp.Book.Index
use ll_exp.Book.Index.{OrderIdIndex, IndexInsertStatus}
use ll_exp.Book.Index.Count
use ll_exp.Book.Index.Count.{IsCounted, Inserted}
use ll_exp.Book.OrderBook.{
  OrderBook, append_to, side_of, insert_slot, price_in_range, insert, after_index,
}

abbrev pub opposite : Side → Side
opposite Side.bid = Side.ask
opposite Side.ask = Side.bid

-- Why an order is refused, where the order itself is the reason.
abbrev pub Reason : OrderBook → RestingOrderData → InsertStatus → Type 0
Reason b order InsertStatus.invalid_quantity = order.quantity ≡ 0
Reason b order InsertStatus.price_out_of_range = price_in_range b order.price ≡ false
Reason b order status = status ≢ InsertStatus.ok

-- The outcome of `insert` on a book whose freelist is `free`.
pub data Entered (b : OrderBook) (free : List ℕ) (order : RestingOrderData)
    : InsertStatus × OrderBook → Type 0 where
  placed :
      {b' : OrderBook} (slot : ℕ) (rest : List ℕ)
      → free ≡ slot ∷ rest
      → order.quantity ≢ 0
      → price_in_range b order.price ≡ true
      → b'.index.size ≡ b.index.size + 1
      → Gained (side_of order.side b) order.quantity (side_of order.side b')
      → side_of (opposite order.side) b' ≡ side_of (opposite order.side) b
      → Entered b free order (InsertStatus.ok, b')
  refused :
      {status : InsertStatus} {b' : OrderBook}
      → Reason b order status
      → b'.index ≡ b.index
      → b'.bids ≡ b.bids
      → b'.asks ≡ b.asks
      → IsFreelist b'.pool free
      → ((j : ℕ) → (at b.pool.orders j).in_use ≡ true → at b'.pool.orders j ≡ at b.pool.orders j)
      → Entered b free order (status, b')

in_use_inside : (os : List Order) (i : ℕ) → (at os i).in_use ≡ true → i < length os
in_use_inside [] i h = cc
in_use_inside (o ∷ os) zero h = omega arith
in_use_inside (o ∷ os) (suc i) h = omega (arith, in_use_inside os i h)

-- Appending grows the one side and leaves the other.
append_to-sides :
    (side : Side) (b : OrderBook) (slot : ℕ)
    → Gained
        (side_of side b)
        (get_unchecked b.pool slot).remaining
        (side_of side (append_to side b slot))
      × (side_of (opposite side) (append_to side b slot) ≡ side_of (opposite side) b)
      × ((append_to side b slot).index ≡ b.index)
unfolding append_to side_of
append_to-sides Side.bid b slot = (append-Gained b.bids b.pool slot, refl, refl)
append_to-sides Side.ask b slot = (append-Gained b.asks b.pool slot, refl, refl)

side_of-cong :
    (side : Side) (b b' : OrderBook)
    → b.bids ≡ b'.bids
    → b.asks ≡ b'.asks
    → side_of side b ≡ side_of side b'
unfolding side_of
side_of-cong Side.bid b b' bids asks = bids
side_of-cong Side.ask b b' bids asks = asks

module _ (b : OrderBook) (order : RestingOrderData) (s : ℕ) (rest : List ℕ) (r : ℕ × OrderPool)
    (f : IsFreelist b.pool (s ∷ rest))
    (e : Emplaced b.pool s rest
      (stored_order order.id order.owner_id order.price order.quantity order.side)
      r)
    (some_quantity : order.quantity ≢ 0) (within : price_in_range b order.price ≡ true) where
  back : Released r.1 s rest (Pool.release r.1 s)
  unfolding Pool.contains
  back =
      let live : (at r.1.orders s).in_use ≡ true = ap (λ (o : Order). o.in_use) e.stored in
      let inside = in_use_inside r.1.orders s live in
      release-Released r.1 s rest e.freelist (ground (arith, inside, live, e.freelist.sized))

  -- The rollback leaves the orders that the book held.
  kept :
      (j : ℕ)
      → (at b.pool.orders j).in_use ≡ true
      → at (Pool.release r.1 s).orders j ≡ at b.pool.orders j
  kept j live =
      let apart : s ≢ j = λ same.
        let idle : (at b.pool.orders j).in_use ≡ false =
          ap (λ k. (at b.pool.orders k).in_use) (sym same) ∙ f.path.2 in
        cc in
      back.others j apart ∙ e.others j apart

  append_to-Entered :
      (x : OrderIdIndex)
      → x.size ≡ b.index.size + 1
      → Entered b
          (s ∷ rest)
          order
          (InsertStatus.ok, append_to order.side (record b { pool = r.1; index = x }) s)
  append_to-Entered x more =
      let book : OrderBook = record b { pool = r.1; index = x } in
      let sides = append_to-sides order.side book s in
      let amount : (get_unchecked r.1 s).remaining ≡ order.quantity =
        ap (λ (o : Order). o.remaining) e.stored in
      let here : side_of order.side book ≡ side_of order.side b =
        side_of-cong order.side book b refl refl in
      let there : side_of (opposite order.side) book ≡ side_of (opposite order.side) b =
        side_of-cong (opposite order.side) book b refl refl in
      placed s rest refl some_quantity within (ap (λ (y : OrderIdIndex). y.size) sides.2 ∙ more)
        (rw (sym here, sym amount) sides.0) (sides.1 ∙ there)

  after_index-Entered :
      (x : IndexInsertStatus × OrderIdIndex)
      → Inserted b.index x
      → Entered b (s ∷ rest) order (after_index x.0 (record b { pool = r.1; index = x.1 }) order s)
  unfolding after_index
  after_index-Entered (IndexInsertStatus.ok, x) h = elim h.outcome [
    | inl (_, more) ↦ append_to-Entered x more
    | inr (other, _) ↦ absurd (other refl)
  ]
  after_index-Entered (IndexInsertStatus.duplicate, x) h = elim h.outcome [
    | inl (wrong, _) ↦ cc
    | inr (_, same) ↦ refused (λ wrong. cc) same refl refl back.freelist kept
  ]
  after_index-Entered (IndexInsertStatus.full, x) h = elim h.outcome [
    | inl (wrong, _) ↦ cc
    | inr (_, same) ↦ refused (λ wrong. cc) same refl refl back.freelist kept
  ]

module _ (b : OrderBook) (order : RestingOrderData) (some_quantity : order.quantity ≢ 0)
    (within : price_in_range b order.price ≡ true) (v : IsCounted b.index) where
  -- `insert`, once the order is fit.
  fit_order : ℕ × OrderPool → InsertStatus × OrderBook
  fit_order r =
      if r.0 == invalid_order_index
      then (
        if Index.find b.index order.id == invalid_order_index
            then InsertStatus.capacity_exhausted
            else InsertStatus.duplicate_order_id,
        record b { pool = r.1 },
      )
      else insert_slot (record b { pool = r.1 }) order r.0

  taken_slot :
      (s : ℕ) (rest : List ℕ)
      → IsFreelist b.pool (s ∷ rest)
      → (r : ℕ × OrderPool)
      → Emplaced b.pool s rest
          (stored_order order.id order.owner_id order.price order.quantity order.side)
          r
      → Entered b (s ∷ rest) order (fit_order r)
  unfolding fit_order insert_slot
  taken_slot s rest f (k, pool) e =
      let real : (s == invalid_order_index) ≡ false =
        ne→== s invalid_order_index (omega (arith, f.path.1, f.sized, f.small)) in
      rw (e.slot, real)
        (after_index-Entered b order s rest (k, pool) f e some_quantity within
          (Index.insert b.index order.id s) (Count.insert-Inserted b.index order.id s v))

  pool_answer : ℕ × OrderPool
  pool_answer = Pool.emplace b.pool order.id order.owner_id order.price order.quantity order.side

  emplace-nil : IsFreelist b.pool [] → pool_answer ≡ (invalid_order_index, b.pool)
  unfolding pool_answer Pool.emplace
  emplace-nil f = rw (acquire-nil b.pool f) refl

  fit_order-Entered :
      (free : List ℕ) → IsFreelist b.pool free → Entered b free order (fit_order pool_answer)
  unfolding fit_order
  fit_order-Entered [] f = rw (emplace-nil f) (
      if_both (λ (status : InsertStatus). Entered b [] order (status, record b { pool = b.pool }))
        (Index.find b.index order.id == invalid_order_index)
        (refused (λ wrong. cc) refl refl refl f (λ j live. refl))
        (refused (λ wrong. cc) refl refl refl f (λ j live. refl)))
  fit_order-Entered (s ∷ rest) f = taken_slot s rest f pool_answer (
      unfold pool_answer in
      emplace-Emplaced b.pool s rest f order.id order.owner_id order.price order.quantity
        order.side)

-- On a book whose index is counted and whose freelist is `free`, `insert` returns `Ok` only where
-- `free` has a slot, the quantity is not 0 and the price is in range: the index then has one
-- entry more, the order's side one order more (modulo 2^32) of the order's quantity (modulo
-- 2^64), and the other side is as before. With any other status the index and both sides are as
-- before, the freelist is `free` again, every slot in use holds what it held, and the status is
-- `invalid_quantity` only for the quantity 0 and `price_out_of_range` only for a price out of
-- range.
pub insert-Entered :
    (b : OrderBook) (free : List ℕ) (order : RestingOrderData)
    → IsFreelist b.pool free
    → IsCounted b.index
    → Entered b free order (insert b order)
unfolding insert fit_order pool_answer
insert-Entered b free order f v =
    if_cases (Entered b free order) (order.quantity == 0)
      (λ nothing. refused (ground (arith, nothing)) refl refl refl f (λ j live. refl))
      (λ something.
        if_cases (Entered b free order) (not (price_in_range b order.price))
          (λ outside. refused (ground (arith, outside)) refl refl refl f (λ j live. refl))
          (λ within.
            fit_order-Entered b order (λ e. absurd (ground (arith, something, e)))
              (ground (arith, within)) v free f))
