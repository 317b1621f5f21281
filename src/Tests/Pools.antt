-- ===== src/Tests/Pools.antt =====
-- Runs of the order pool and of the order id index, and the theorems at concrete inputs.
use ll_exp.Prelude.{◌≡◌, ◌<◌, ◌≤◌, refl, arith, ◌⊎◌, List, [], ◌∷◌, true, some, none}
use ll_exp.Book.Types.{Side}
use ll_exp.Book.Pool.{
  Order, no_order, OrderPool, max_capacity, initialize_freelist, make_pool, emplace, release,
  contains,
}
use ll_exp.Book.Pool.Freelist.{
  IsFreelist, Emplaced, emplace-Emplaced, Released, release-Released, stored_order,
}
use ll_exp.Book.Pool.Setup.{slots_from, initialize_freelist-IsFreelist, make_pool-IsFreelist}
use ll_exp.Book.Index.{OrderIdIndex, make_index, erase_and_get, insert}
use ll_exp.Book.Index
use ll_exp.Book.Index.Count.{
  IsCounted, Erased, Inserted, erase_and_get-Erased, insert-Inserted, clear-IsCounted,
}
use ll_exp.Tests.Books.{program}

abbrev raw_pool : OrderPool
raw_pool = record {
  orders = no_order ∷ no_order ∷ no_order ∷ [];
  capacity = 3;
  free_head = 0;
  free_count = 0;
}

unfoldable three_slots : OrderPool
three_slots = initialize_freelist raw_pool

three_slots-IsFreelist : IsFreelist three_slots (0 ∷ 1 ∷ 2 ∷ [])
unfolding three_slots
three_slots-IsFreelist = initialize_freelist-IsFreelist raw_pool refl (omega arith)

emplace_example :
    Emplaced three_slots 0
      (1 ∷ 2 ∷ [])
      (stored_order 5 7 150 10 Side.bid)
      (emplace three_slots 5 7 150 10 Side.bid)
emplace_example =
    emplace-Emplaced three_slots 0 (1 ∷ 2 ∷ []) three_slots-IsFreelist 5 7 150 10 Side.bid

unfoldable one_taken : OrderPool
one_taken = (emplace three_slots 5 7 150 10 Side.bid).1

one_taken-IsFreelist : IsFreelist one_taken (1 ∷ 2 ∷ [])
unfolding one_taken
one_taken-IsFreelist =
    (emplace-Emplaced three_slots 0 (1 ∷ 2 ∷ []) three_slots-IsFreelist 5 7 150 10
      Side.bid).freelist

slot_in_use : contains one_taken 0 ≡ true
unfolding program three_slots one_taken
slot_in_use = refl

release_example : Released one_taken 0 (1 ∷ 2 ∷ []) (release one_taken 0)
release_example = release-Released one_taken 0 (1 ∷ 2 ∷ []) one_taken-IsFreelist slot_in_use

-- Three slots of different content.
abbrev raw_memory : List Order
raw_memory =
    no_order
    ∷ stored_order 7 8 9 10 Side.ask
    ∷ record no_order { next = 2; prev = 1; in_use = true }
    ∷ []

make_pool_example :
    ((3 ≤ max_capacity)
      × (p : OrderPool) × (make_pool raw_memory 3 ≡ some p)
      × (p.capacity ≡ 3)
      × IsFreelist p (slots_from 0 3))
    ⊎ ((max_capacity < 3) × (make_pool raw_memory 3 ≡ none))
make_pool_example = make_pool-IsFreelist raw_memory 3 refl

unfoldable small_index : OrderIdIndex
small_index = Index.clear (make_index 4)

small_index-IsCounted : IsCounted small_index
unfolding program small_index
small_index-IsCounted = (clear-IsCounted (make_index 4) (omega arith)).0

insert_example : Inserted small_index (insert small_index 9 2)
insert_example = insert-Inserted small_index 9 2 small_index-IsCounted

unfoldable one_entry : OrderIdIndex
one_entry = (insert small_index 9 2).1

one_entry-IsCounted : IsCounted one_entry
unfolding one_entry
one_entry-IsCounted = (insert-Inserted small_index 9 2 small_index-IsCounted).valid

erase_index_example : Erased one_entry (erase_and_get one_entry 9)
erase_index_example = erase_and_get-Erased one_entry 9 one_entry-IsCounted

entry_is_erased : (erase_and_get one_entry 9).0 ≡ 2
unfolding program small_index one_entry
entry_is_erased = refl
