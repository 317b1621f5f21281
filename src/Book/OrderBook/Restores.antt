-- ===== src/Book/OrderBook/Restores.antt =====
-- order_book.cpp: `restore` fills a cleared book, and reports how far it got.
use ll_exp.Prelude.{
  ℕ, ◌+◌, ◌%◌, ◌≤◌, ◌<◌, ◌≡◌, ◌≢◌, refl, ◌∙◌, arith, ltb, List, [], ◌∷◌, length, ◌⊎◌, inl, inr,
  if_cases, ltb→lt,
}
use ll_exp.Book.Types.{u32_mod, InsertStatus, OrderView, RestoreStatus, RestoreResult}
use ll_exp.Book.SideBook
use ll_exp.Book.Index.Count
use ll_exp.Book.Index.Count.{IsCounted}
use ll_exp.Book.OrderBook.{
  OrderBook, insert, clear, after_insert, restore_from, restore, resting_of_view, restore_status,
  active_order_count,
}
use ll_exp.Book.OrderBook.Counted.{Tallied, insert-Tallied}

-- The book holds as many orders as were restored, in its index and in its sides.
record Holds (n : ℕ) (b : OrderBook) : Type 0 where
  valid : IsCounted b.index
  entries : b.index.size ≡ n
  active : active_order_count b ≡ n % u32_mod

-- The outcome of `restore` for `views`.
pub data Restored (b : OrderBook) (views : List OrderView)
    : RestoreResult × OrderBook → Type 0 where
  too_many :
      b.config.max_orders < length views
      → Restored b views (record { status = RestoreStatus.capacity_exceeded; restored = 0 }, b)
  filled :
      {r : RestoreResult × OrderBook}
      → length views ≤ b.config.max_orders
      → IsCounted r.1.index
      → r.1.index.size ≡ r.0.restored
      → active_order_count r.1 ≡ r.0.restored % u32_mod
      → ((r.0.status ≡ RestoreStatus.ok) × (r.0.restored ≡ length views))
        ⊎ ((r.0.status ≢ RestoreStatus.ok) × (r.0.restored < length views))
      → Restored b views r

-- What the loop leaves, `total` being the number of all views.
record Stopped (total : ℕ) (r : RestoreResult × OrderBook) : Type 0 where
  holds : Holds r.0.restored r.1
  outcome :
      ((r.0.status ≡ RestoreStatus.ok) × (r.0.restored ≡ total))
      ⊎ ((r.0.status ≢ RestoreStatus.ok) × (r.0.restored < total))

module _ (total restored : ℕ) (b : OrderBook) (h : Holds restored b) where
  failed-Stopped :
      (status : InsertStatus) (b' : OrderBook)
      → Tallied b (status, b')
      → status ≢ InsertStatus.ok
      → restore_status status ≢ RestoreStatus.ok
      → restored < total
      → Stopped total (record { status = restore_status status; restored = restored }, b')
  failed-Stopped status b' t other reported early = record {
    holds = elim t.outcome [
      | inl (e, _, _) ↦ absurd (other e)
      | inr (_, size, active) ↦ record {
        valid = t.valid;
        entries = size ∙ h.entries;
        active = active ∙ h.active;
      }
    ];
    outcome = inr (reported, early);
  }

  after_insert-Stopped :
      (again : OrderBook → RestoreResult × OrderBook) (r : InsertStatus × OrderBook)
      → ((b' : OrderBook) → Holds (restored + 1) b' → Stopped total (again b'))
      → Tallied b r
      → restored < total
      → Stopped total (after_insert again restored r)
  unfolding after_insert restore_status
  after_insert-Stopped again (InsertStatus.ok, b') next t early = next b' (elim t.outcome [
    | inr (other, _, _) ↦ absurd (other refl)
    | inl (_, size, active) ↦ record {
      valid = t.valid;
      entries = omega (arith, size, h.entries);
      active = omega (arith, active, h.active);
    }
  ])
  after_insert-Stopped again (InsertStatus.duplicate_order_id, b') next t early =
      failed-Stopped InsertStatus.duplicate_order_id b' t (λ e. cc) (λ e. cc) early
  after_insert-Stopped again (InsertStatus.capacity_exhausted, b') next t early =
      failed-Stopped InsertStatus.capacity_exhausted b' t (λ e. cc) (λ e. cc) early
  after_insert-Stopped again (InsertStatus.price_out_of_range, b') next t early =
      failed-Stopped InsertStatus.price_out_of_range b' t (λ e. cc) (λ e. cc) early
  after_insert-Stopped again (InsertStatus.invalid_quantity, b') next t early =
      failed-Stopped InsertStatus.invalid_quantity b' t (λ e. cc) (λ e. cc) early

restore_from-Stopped :
    (views : List OrderView) (total restored : ℕ) (b : OrderBook)
    → restored + length views ≡ total
    → Holds restored b
    → Stopped total (restore_from views restored b)
unfolding restore_from
restore_from-Stopped [] total restored b e h = record {
  holds = h;
  outcome = inl (refl, omega (arith, e));
}
restore_from-Stopped (x ∷ views) total restored b e h =
    after_insert-Stopped total restored b h (restore_from views (restored + 1))
      (insert b (resting_of_view x))
      (λ b' h'. restore_from-Stopped views total (restored + 1) b' (omega (arith, e)) h')
      (insert-Tallied b (resting_of_view x) h.valid) (omega (arith, e))

clear-Holds : (b : OrderBook) → IsCounted b.index → Holds 0 (clear b)
unfolding clear SideBook.clear active_order_count
clear-Holds b v =
    let empty = Count.clear-IsCounted b.index v.small in
    record { valid = empty.0; entries = empty.1; active = refl }

pub restore-Restored :
    (b : OrderBook) (views : List OrderView)
    → IsCounted b.index
    → Restored b views (restore b views)
unfolding restore
restore-Restored b views v =
    if_cases (Restored b views) (ltb b.config.max_orders (length views))
      (λ many. too_many (ltb→lt _ _ many))
      (λ few.
        let s =
          restore_from-Stopped views (length views) 0 (clear b) (omega arith) (clear-Holds b v) in
        filled (ground (arith, few)) s.holds.valid s.holds.entries s.holds.active s.outcome)

pub restore-IsCounted :
    (b : OrderBook) (views : List OrderView)
    → IsCounted b.index
    → IsCounted (restore b views).1.index
restore-IsCounted b views v = go (restore b views) (restore-Restored b views v)
  where
    go : (r : RestoreResult × OrderBook) → Restored b views r → IsCounted r.1.index
    go _ (too_many many) = v
    go r (filled few valid size active outcome) = valid
