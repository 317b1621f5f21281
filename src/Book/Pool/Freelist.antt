-- ===== src/Book/Pool/Freelist.antt =====
-- The freelist of the order pool (detail/order_pool.hpp): which slots it holds, in which order.
use ll_exp.Prelude.{
  ◌-◌, ◌%◌, ◌^◌, ℕ, zero, suc, ◌+◌, ◌≤◌, ◌<◌, ◌≡◌, ◌≢◌, refl, ap, arith, Bool, true, false, List,
  [], ◌∷◌, length, get_or, set, length-set, get_or-set_self, get_or-set_ne, set-set, ne→==, eq→==,
  ◌==◌,
}
use ll_exp.Book.Types.{Side, invalid_order_index}
use ll_exp.Book.Pool.{Order, no_order, OrderPool, max_capacity, contains, acquire, emplace, release}

abbrev pub at : List Order → ℕ → Order
at os i = get_or os i no_order

-- From `h` the links run through the free slots of the list, in its order, to the sentinel.
abbrev pub FreePath : List Order → ℕ → List ℕ → Type 0
FreePath os h [] = h ≡ invalid_order_index
FreePath os h (s ∷ free) =
    (h ≡ s) × (s < length os) × ((at os s).in_use ≡ false) × FreePath os (at os s).next free

abbrev pub Absent : ℕ → List ℕ → Type 0
Absent s [] = Unit {0}
Absent s (x ∷ xs) = (s ≢ x) × Absent s xs

abbrev pub Distinct : List ℕ → Type 0
Distinct [] = Unit {0}
Distinct (x ∷ xs) = Absent x xs × Distinct xs

abbrev pub one_if : Bool → ℕ
one_if true = 1
one_if false = 0

unfoldable pub used : List Order → ℕ
used [] = 0
used (o ∷ os) = one_if o.in_use + used os

-- The freelist of `p` holds exactly the slots of `free`, once each, and every slot of the array
-- that it does not hold is in use.
pub record IsFreelist (p : OrderPool) (free : List ℕ) : Type 0 where
  pub path : FreePath p.orders p.free_head free
  pub distinct : Distinct free
  pub counted : p.free_count ≡ length free
  pub shared : used p.orders + length free ≡ p.capacity
  pub sized : length p.orders ≡ p.capacity
  pub small : p.capacity ≤ max_capacity

pub used-set :
    (os : List Order) (i : ℕ) (o : Order)
    → i < length os
    → used (set os i o) + one_if (at os i).in_use ≡ used os + one_if o.in_use
unfolding used
used-set [] i o h = absurd (omega arith)
used-set (x ∷ os) zero o h = omega arith
used-set (x ∷ os) (suc i) o h = omega (arith, used-set os i o (omega arith))

FreePath-set :
    (os : List Order) (s : ℕ) (o : Order) (h : ℕ) (free : List ℕ)
    → Absent s free
    → FreePath os h free
    → FreePath (set os s o) h free
FreePath-set os s o h [] a p = p
FreePath-set os s o h (x ∷ free) a (e, lt, idle, rest) =
    let same : at (set os s o) x ≡ at os x = get_or-set_ne os s x o no_order a.0 in
    (e, rw length-set lt, rw same idle, rw same (FreePath-set os s o (at os x).next free a.1 rest))

Absent-of_in_use :
    (os : List Order) (s h : ℕ) (free : List ℕ)
    → (at os s).in_use ≡ true
    → FreePath os h free
    → Absent s free
Absent-of_in_use os s h [] u p = tt
Absent-of_in_use os s h (x ∷ free) u (e, lt, idle, rest) =
    (λ same. cc, Absent-of_in_use os s (at os x).next free u rest)

pub acquire-nil : (p : OrderPool) → IsFreelist p [] → acquire p ≡ (invalid_order_index, p)
unfolding acquire
acquire-nil p v = rw (eq→== p.free_head invalid_order_index v.path)

taken : Order → Order
taken o = record o { in_use = true }

acquired : OrderPool → ℕ → List ℕ → OrderPool
unfolding taken
acquired p s free = record p {
  orders = set p.orders s (taken (at p.orders s));
  free_head = (at p.orders s).next;
  free_count = length free;
}

acquire-cons :
    (p : OrderPool) (s : ℕ) (free : List ℕ)
    → IsFreelist p (s ∷ free)
    → acquire p ≡ (s, acquired p s free)
unfolding acquire acquired
acquire-cons p s free v =
    let head : p.free_head ≡ s = v.path.0 in
    let real : (s == invalid_order_index) ≡ false = ne→== s invalid_order_index (omega arith) in
    let count : (p.free_count + 2 ^ 32 - 1) % 2 ^ 32 ≡ length free = omega arith in
    simp (head, real, count)

-- What `emplace` stores.
abbrev pub stored_order : ℕ → ℕ → ℕ → ℕ → Side → Order
stored_order id owner_id price remaining side = record {
  id = id;
  owner_id = owner_id;
  price = price;
  remaining = remaining;
  prev = invalid_order_index;
  next = invalid_order_index;
  side = side;
  in_use = true;
}

pub record Emplaced (p : OrderPool) (s : ℕ) (free : List ℕ) (o : Order) (r : ℕ × OrderPool)
    : Type 0 where
  pub slot : r.0 ≡ s
  pub freelist : IsFreelist r.1 free
  pub stored : at r.1.orders s ≡ o
  pub others : (j : ℕ) → s ≢ j → at r.1.orders j ≡ at p.orders j

module _ (p : OrderPool) (s : ℕ) (free : List ℕ) (v : IsFreelist p (s ∷ free)) where
  emplaced : Order → OrderPool
  unfolding acquired
  emplaced o = record (acquired p s free) { orders = set p.orders s o }

  emplaced-IsFreelist : (o : Order) → o.in_use ≡ true → IsFreelist (emplaced o) free
  unfolding emplaced acquired used
  emplaced-IsFreelist o live = record {
    path = FreePath-set p.orders s o (at p.orders s).next free v.distinct.0 v.path.3;
    distinct = v.distinct.1;
    counted = refl;
    shared =
        omega (arith, used-set p.orders s o v.path.1, ap one_if v.path.2, ap one_if live, v.shared);
    sized = rw length-set v.sized;
    small = v.small;
  }

  emplace-eq :
      (id owner_id price remaining : ℕ) (side : Side)
      → emplace p id owner_id price remaining side
        ≡ (s, emplaced (stored_order id owner_id price remaining side))
  unfolding emplace emplaced acquired
  emplace-eq id owner_id price remaining side =
      let real : (s == invalid_order_index) ≡ false = ne→== s invalid_order_index (omega arith) in
      rw (acquire-cons p s free v, real)
        (rw (set-set, get_or-set_self p.orders s (taken (at p.orders s)) no_order v.path.1))

  -- On a pool whose freelist is `s` and then `free`, `emplace` returns the slot `s`, the freelist
  -- becomes `free`, the slot holds the order as given with both links at the sentinel and in use,
  -- and every other slot is as before.
  pub emplace-Emplaced :
      (id owner_id price remaining : ℕ) (side : Side)
      → Emplaced p s free
          (stored_order id owner_id price remaining side)
          (emplace p id owner_id price remaining side)
  unfolding emplaced
  emplace-Emplaced id owner_id price remaining side = rw emplace-eq (record {
    slot = refl;
    freelist = emplaced-IsFreelist _ refl;
    stored = get_or-set_self p.orders s _ no_order v.path.1;
    others = λ j ne. get_or-set_ne p.orders s j _ no_order ne;
  })

-- The slot `s`, which was in use, stands at the head of the freelist. Of what it holds only the
-- mark and the link to the next free slot have changed, and every other slot is as before.
pub record Released (p : OrderPool) (s : ℕ) (free : List ℕ) (q : OrderPool) : Type 0 where
  pub freelist : IsFreelist q (s ∷ free)
  pub payload : at q.orders s ≡ record (at p.orders s) { in_use = false; next = p.free_head }
  pub others : (j : ℕ) → s ≢ j → at q.orders j ≡ at p.orders j

freed : OrderPool → ℕ → Order
freed p s = record (at p.orders s) { in_use = false; next = p.free_head }

-- Releasing a slot that is in use puts it at the head of the freelist, marks it free, links it to
-- the old head, keeps the rest of what it holds (id, owner, price, remaining quantity, the link
-- to the previous order, side), and leaves every other slot as it was.
pub release-Released :
    (p : OrderPool) (s : ℕ) (free : List ℕ)
    → IsFreelist p free
    → contains p s ≡ true
    → Released p s free (release p s)
unfolding release contains freed
release-Released p s free v c =
    let inside : s < p.capacity = ground arith in
    let live : (at p.orders s).in_use ≡ true = ground arith in
    let there : s < length p.orders = omega (arith, v.sized) in
    let apart = Absent-of_in_use p.orders s p.free_head free live v.path in
    let now : at (set p.orders s (freed p s)) s ≡ freed p s =
      get_or-set_self p.orders s (freed p s) no_order there in
    let share = used-set p.orders s (freed p s) there in
    rw c (record {
      freelist = record {
        path = (
          refl,
          rw length-set there,
          ap (λ (o : Order). o.in_use) now,
          rw now (FreePath-set p.orders s (freed p s) p.free_head free apart v.path),
        );
        distinct = (apart, v.distinct);
        counted = omega (arith, share, ap one_if live, v.shared, v.counted, v.small);
        shared = omega (arith, share, ap one_if live, v.shared);
        sized = rw length-set v.sized;
        small = v.small;
      };
      payload = now;
      others = λ j ne. get_or-set_ne p.orders s j _ no_order ne;
    })

-- A slot that is out of range or already free is left alone.
pub release_ignored : (p : OrderPool) (s : ℕ) → contains p s ≡ false → release p s ≡ p
unfolding release
release_ignored p s c = rw c
