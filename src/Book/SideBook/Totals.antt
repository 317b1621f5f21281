-- ===== src/Book/SideBook/Totals.antt =====
-- side_book.hpp: the totals of a side after `append`.
use ll_exp.Prelude.{ℕ, Bool, true, false, if◌then◌else◌, ◌+◌, ◌%◌, ◌≡◌, refl, ◌∙◌, ap, arith}
use ll_exp.Book.Types.{u32_mod, u64_mod, segment_empty}
use ll_exp.Book.Pool.{OrderPool, get_unchecked}
use ll_exp.Book.SideBook.{
  SideBook, append, segment_at, local_segment, set_segment_occupied, update_best_after_insert,
}

-- The side has one order more, of the quantity.
pub record Gained (s : SideBook) (added : ℕ) (s' : SideBook) : Type 0 where
  pub orders : s'.order_count ≡ (s.order_count + 1) % u32_mod
  pub quantity : s'.total_quantity ≡ (s.total_quantity + added) % u64_mod

best_totals :
    (s : SideBook) (segment : ℕ)
    → ((update_best_after_insert s segment).order_count ≡ s.order_count)
      × ((update_best_after_insert s segment).total_quantity ≡ s.total_quantity)
unfolding update_best_after_insert
best_totals s segment = ground arith

occupied_totals :
    (taken : Bool) (s : SideBook) (segment : ℕ)
    → ((if taken then set_segment_occupied s segment else s).order_count ≡ s.order_count)
      × ((if taken then set_segment_occupied s segment else s).total_quantity ≡ s.total_quantity)
unfolding set_segment_occupied
occupied_totals true s segment = (refl, refl)
occupied_totals false s segment = (refl, refl)

-- `append` adds an order of the quantity that the slot holds to the totals of the side.
pub append-Gained :
    (s : SideBook) (pool : OrderPool) (slot : ℕ)
    → Gained s (get_unchecked pool slot).remaining (append s pool slot).0
unfolding append
append-Gained s pool slot =
    let segment = local_segment s (get_unchecked pool slot).price in
    let fresh = occupied_totals (segment_empty (segment_at s segment)) s segment in
    let best = best_totals _ segment in
    record {
      orders = best.0 ∙ ap (λ n. (n + 1) % u32_mod) fresh.0;
      quantity = best.1 ∙ ap (λ n. (n + (get_unchecked pool slot).remaining) % u64_mod) fresh.1;
    }
