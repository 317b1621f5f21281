-- ===== src/Book/Pool/Setup.antt =====
-- The order pool as its constructor and `clear` leave it (detail/order_pool.hpp).
use ll_exp.Prelude.{
  ℕ, zero, suc, ◌+◌, ◌≤◌, ◌<◌, ◌≡◌, refl, ap, ◌∙◌, arith, false, none, some, List, [], ◌∷◌, ltb,
  length, eq→==, ne→==, ◌==◌, if◌then◌else◌, Bool-cases, inl, inr, ltb→lt, ◌⊎◌,
}
use ll_exp.Book.Types.{invalid_order_index}
use ll_exp.Book.Pool.{
  Order, OrderPool, max_capacity, initialize_slots, initialize_freelist, make_pool,
}
use ll_exp.Book.Pool.Freelist.{at, FreePath, Absent, Distinct, used, IsFreelist}

-- `n` slots from `i` on.
abbrev pub slots_from : ℕ → ℕ → List ℕ
slots_from i zero = []
slots_from i (suc n) = i ∷ slots_from (suc i) n

length-slots_from : (i n : ℕ) → length (slots_from i n) ≡ n
length-slots_from i zero = refl
length-slots_from i (suc n) = ap suc (length-slots_from (suc i) n)

slots_from-Absent : (s i n : ℕ) → s < i → Absent s (slots_from i n)
slots_from-Absent s i zero h = tt
slots_from-Absent s i (suc n) h =
    (λ e. absurd (omega arith), slots_from-Absent s (suc i) n (omega arith))

slots_from-Distinct : (i n : ℕ) → Distinct (slots_from i n)
slots_from-Distinct i zero = tt
slots_from-Distinct i (suc n) =
    (slots_from-Absent i (suc i) n (omega arith), slots_from-Distinct (suc i) n)

length-initialize_slots : (c k : ℕ) (os : List Order) → length (initialize_slots c k os) ≡ length os
unfolding initialize_slots
length-initialize_slots c k [] = refl
length-initialize_slots c k (o ∷ os) = ap suc (length-initialize_slots c (k + 1) os)

used-initialize_slots : (c k : ℕ) (os : List Order) → used (initialize_slots c k os) ≡ 0
unfolding initialize_slots used
used-initialize_slots c k [] = refl
used-initialize_slots c k (o ∷ os) = omega (arith, used-initialize_slots c (k + 1) os)

link_after : ℕ → ℕ → ℕ
link_after c i = if i + 1 == c then invalid_order_index else i + 1

initialize_slots-at :
    (c k : ℕ) (os : List Order) (i : ℕ)
    → i < length os
    → ((at (initialize_slots c k os) i).in_use ≡ false)
      × ((at (initialize_slots c k os) i).next ≡ link_after c (k + i))
unfolding initialize_slots link_after
initialize_slots-at c k [] i h = absurd (omega arith)
initialize_slots-at c k (o ∷ os) zero h = (refl, ground arith)
initialize_slots-at c k (o ∷ os) (suc i) h =
    let rest = initialize_slots-at c (k + 1) os i (omega arith) in
    (rest.0, rest.1 ∙ ap (link_after c) (omega arith))

initialize_slots-FreePath :
    (c : ℕ) (os : List Order) (n i : ℕ)
    → length os ≡ c
    → i + n ≡ c
    → FreePath
        (initialize_slots c 0 os)
        (if c == i then invalid_order_index else i)
        (slots_from i n)
unfolding link_after
initialize_slots-FreePath c os zero i len e = rw (eq→== c i (omega arith))
initialize_slots-FreePath c os (suc n) i len e =
    let here = initialize_slots-at c 0 os i (omega arith) in
    let step : (at (initialize_slots c 0 os) i).next
        ≡ (if c == suc i then invalid_order_index else suc i) =
      ground (arith, here.1) in
    (
      rw (ne→== c i (omega arith)),
      rw length-initialize_slots (omega arith),
      here.0,
      rw step (initialize_slots-FreePath c os n (suc i) len (omega arith)),
    )

-- The freelist of a fresh or cleared pool holds every slot in order, and no slot is in use.
pub initialize_freelist-IsFreelist :
    (p : OrderPool)
    → length p.orders ≡ p.capacity
    → p.capacity ≤ max_capacity
    → IsFreelist (initialize_freelist p) (slots_from 0 p.capacity)
unfolding initialize_freelist
initialize_freelist-IsFreelist p len small = record {
  path = initialize_slots-FreePath p.capacity p.orders p.capacity 0 len (omega arith);
  distinct = slots_from-Distinct 0 p.capacity;
  counted = omega (arith, length-slots_from 0 p.capacity);
  shared =
      omega (arith, used-initialize_slots p.capacity 0 p.orders, length-slots_from 0 p.capacity);
  sized = rw length-initialize_slots len;
  small = small;
}

-- For uninitialised memory of `capacity` orders of any content, the pool's constructor succeeds
-- exactly up to the largest capacity, and then gives a pool of that capacity whose freelist holds
-- every slot in order; above it the constructor throws.
pub make_pool-IsFreelist :
    (memory : List Order) (capacity : ℕ)
    → length memory ≡ capacity
    → ((capacity ≤ max_capacity)
        × (p : OrderPool) × (make_pool memory capacity ≡ some p)
        × (p.capacity ≡ capacity)
        × IsFreelist p (slots_from 0 capacity))
      ⊎ ((max_capacity < capacity) × (make_pool memory capacity ≡ none))
unfolding make_pool
make_pool-IsFreelist memory capacity sized = elim (Bool-cases (ltb max_capacity capacity)) [
  | inl above ↦ inr (ltb→lt _ _ above, rw above)
  | inr within ↦
      let raw : OrderPool = record {
        orders = memory;
        capacity = capacity;
        free_head = invalid_order_index;
        free_count = 0;
      } in
      inl (
        ground arith,
        initialize_freelist raw,
        rw within,
        unfold initialize_freelist in refl,
        initialize_freelist-IsFreelist raw sized (ground arith),
      )
]
