-- ===== src/Book/Index/Count.antt =====
-- order_id_index.hpp: `size_` counts the occupied buckets, through insertion, erasure and the
-- backward shift.
use ll_exp.Prelude.{
  ℕ, zero, suc, ◌+◌, ◌-◌, ◌%◌, ◌≤◌, ◌<◌, ◌≡◌, ◌≢◌, refl, sym, ap, ◌∙◌, arith, Bool, true, false,
  List, [], ◌∷◌, ltb, ◌==◌, length, get_or, set, replicate, length-set, length-replicate,
  get_or-set_self, get_or-set_ne, Bool-cases, inl, inr, bit_and, bit_and-le, ◌⊎◌,
}
use ll_exp.Book.Types.{invalid_order_index, u64_mod}
use ll_exp.Book.Index.{
  IndexInsertStatus, Bucket, empty_bucket, OrderIdIndex, bucket_at, clear, home, hash, distance,
  repair, erase_at, erase_from, erase_and_get, insert_from, insert,
}

abbrev pub one_if : Bool → ℕ
one_if true = 1
one_if false = 0

unfoldable pub occupied : List Bucket → ℕ
occupied [] = 0
occupied (b ∷ bs) = one_if b.occupied + occupied bs

-- `size_` is the number of occupied buckets, and the array has the length that the mask assumes.
pub record IsCounted (x : OrderIdIndex) : Type 0 where
  pub counted : x.size ≡ occupied x.buckets
  pub sized : length x.buckets ≡ x.bucket_count
  pub small : x.bucket_count < u64_mod

occupied-set :
    (bs : List Bucket) (i : ℕ) (b : Bucket)
    → i < length bs
    → occupied (set bs i b) + one_if (get_or bs i empty_bucket).occupied
      ≡ occupied bs + one_if b.occupied
unfolding occupied
occupied-set [] i b h = absurd (omega arith)
occupied-set (x ∷ bs) zero b h = omega arith
occupied-set (x ∷ bs) (suc i) b h = omega (arith, occupied-set bs i b (omega arith))

one_if-le : (b : Bool) → one_if b ≤ 1
one_if-le true = omega arith
one_if-le false = omega arith

occupied-le-length : (bs : List Bucket) → occupied bs ≤ length bs
unfolding occupied
occupied-le-length [] = omega arith
occupied-le-length (b ∷ bs) = omega (arith, one_if-le b.occupied, occupied-le-length bs)

inside_of_occupied :
    (bs : List Bucket) (i : ℕ) → (get_or bs i empty_bucket).occupied ≡ true → i < length bs
inside_of_occupied [] i h = cc
inside_of_occupied (b ∷ bs) zero h = omega arith
inside_of_occupied (b ∷ bs) (suc i) h = omega (arith, inside_of_occupied bs i h)

-- One move of the backward shift keeps the number of occupied buckets.
occupied_shift :
    (bs : List Bucket) (hole candidate : ℕ)
    → hole < length bs
    → (get_or bs hole empty_bucket).occupied ≡ false
    → (get_or bs candidate empty_bucket).occupied ≡ true
    → occupied (set (set bs hole (get_or bs candidate empty_bucket)) candidate empty_bucket)
      ≡ occupied bs
occupied_shift bs hole candidate h free full =
    let c = get_or bs candidate empty_bucket in
    let there : candidate < length (set bs hole c) =
      rw length-set (inside_of_occupied bs candidate full) in
    let apart : hole ≢ candidate = λ e. cc in
    let same : get_or (set bs hole c) candidate empty_bucket ≡ c =
      get_or-set_ne bs hole candidate c empty_bucket apart in
    omega (
      arith,
      occupied-set bs hole c h,
      occupied-set (set bs hole c) candidate empty_bucket there,
      ap (λ (b : Bucket). one_if b.occupied) same,
      ap one_if free,
      ap one_if full,
    )

-- What the repair loop leaves as it was.
record Repaired (x y : OrderIdIndex) : Type 0 where
  kept : occupied y.buckets ≡ occupied x.buckets
  long : length y.buckets ≡ length x.buckets
  size : y.size ≡ x.size
  count : y.bucket_count ≡ x.bucket_count

repair-Repaired :
    (rounds : ℕ) (x : OrderIdIndex) (hole candidate : ℕ)
    → hole < length x.buckets
    → (bucket_at x hole).occupied ≡ false
    → Repaired x (repair rounds x hole candidate)
unfolding repair
repair-Repaired zero x hole candidate h free = record {
  kept = refl;
  long = refl;
  size = refl;
  count = refl;
}
repair-Repaired (suc rounds) x hole candidate h free =
    let c = bucket_at x candidate in
    let next = bit_and (candidate + 1) (x.bucket_count - 1) in
    let moved : OrderIdIndex = record x {
      buckets = set (set x.buckets hole c) candidate empty_bucket;
    } in
    elim (Bool-cases c.occupied) [
      | inr stop ↦ rw stop (record { kept = refl; long = refl; size = refl; count = refl })
      | inl full ↦
          let there : candidate < length x.buckets = inside_of_occupied x.buckets candidate full in
          rw full
            (elim (Bool-cases
              (ltb (distance x hole (home x c.id)) (distance x candidate (home x c.id)))) [
                | inr far ↦ rw far (repair-Repaired rounds x hole next h free)
                | inl near ↦
                    let rest =
                      repair-Repaired rounds moved candidate next
                        (rw (length-set, length-set) there)
                        (ap (λ (b : Bucket). b.occupied)
                          (get_or-set_self (set x.buckets hole c) candidate empty_bucket
                            empty_bucket (rw length-set there))) in
                    rw near (record {
                      kept = rest.kept ∙ occupied_shift x.buckets hole candidate h free full;
                      long =
                          rest.long
                          ∙ length-set _ candidate empty_bucket
                          ∙ length-set x.buckets hole c;
                      size = rest.size;
                      count = rest.count;
                    })
              ])
    ]

erase_at-IsCounted :
    (x : OrderIdIndex) (pos : ℕ)
    → IsCounted x
    → (bucket_at x pos).occupied ≡ true
    → IsCounted (erase_at (record x { size = (x.size + u64_mod - 1) % u64_mod }) pos)
      × ((erase_at (record x { size = (x.size + u64_mod - 1) % u64_mod }) pos).size + 1 ≡ x.size)
unfolding erase_at
erase_at-IsCounted x pos v full =
    let there = inside_of_occupied x.buckets pos full in
    let start : OrderIdIndex = record x {
      size = (x.size + u64_mod - 1) % u64_mod;
      buckets = set x.buckets pos empty_bucket;
    } in
    let done =
      repair-Repaired (x.bucket_count - 1) start pos (bit_and (pos + 1) (x.bucket_count - 1))
        (rw length-set there)
        (ap (λ (b : Bucket). b.occupied)
          (get_or-set_self x.buckets pos empty_bucket empty_bucket there)) in
    let fewer = occupied-set x.buckets pos empty_bucket there in
    let one = ap one_if full in
    let least = occupied-le-length x.buckets in
    (
      record {
        counted =
            omega (arith, done.size, done.kept, fewer, one, v.counted, v.sized, v.small, least);
        sized = done.long ∙ length-set x.buckets pos empty_bucket ∙ v.sized ∙ sym done.count;
        small = rw done.count v.small;
      },
      omega (arith, done.size, fewer, one, v.counted, v.sized, v.small, least),
    )

-- The outcome of an erasure: the size falls by one exactly where an entry goes.
pub record Erased (x : OrderIdIndex) (r : ℕ × OrderIdIndex) : Type 0 where
  pub valid : IsCounted r.1
  pub outcome : (r ≡ (invalid_order_index, x)) ⊎ (r.1.size + 1 ≡ x.size)

erase_from-Erased :
    (probes : ℕ) (x : OrderIdIndex) (id pos : ℕ)
    → IsCounted x
    → Erased x (erase_from probes x id pos)
unfolding erase_from
erase_from-Erased zero x id pos v = record { valid = v; outcome = inl refl }
erase_from-Erased (suc probes) x id pos v = elim (Bool-cases (bucket_at x pos).occupied) [
  | inr stop ↦ rw stop (record { valid = v; outcome = inl refl })
  | inl full ↦ rw full (elim (Bool-cases ((bucket_at x pos).id == id)) [
    | inl hit ↦
        let done = erase_at-IsCounted x pos v full in
        rw hit (record { valid = done.0; outcome = inr done.1 })
    | inr miss ↦ rw miss (erase_from-Erased probes x id (bit_and (pos + 1) (x.bucket_count - 1)) v)
  ])
]

-- On an index whose size counts its occupied buckets, `erase_and_get` with its backward shift
-- keeps that count; it returns the sentinel and changes nothing, or the size falls by one.
pub erase_and_get-Erased : (x : OrderIdIndex) (id : ℕ) → IsCounted x → Erased x (erase_and_get x id)
unfolding erase_and_get
erase_and_get-Erased x id v = elim (Bool-cases (x.bucket_count == 0)) [
  | inl none ↦ rw none (record { valid = v; outcome = inl refl })
  | inr some ↦ rw some (erase_from-Erased x.bucket_count x id (home x id) v)
]

-- The outcome of an insertion.
pub record Inserted (x : OrderIdIndex) (r : IndexInsertStatus × OrderIdIndex) : Type 0 where
  pub valid : IsCounted r.1
  pub outcome :
      ((r.0 ≡ IndexInsertStatus.ok) × (r.1.size ≡ x.size + 1))
      ⊎ ((r.0 ≢ IndexInsertStatus.ok) × (r.1 ≡ x))

insert_from-Inserted :
    (probes : ℕ) (x : OrderIdIndex) (id slot pos : ℕ)
    → IsCounted x
    → pos < x.bucket_count
    → Inserted x (insert_from probes x id slot pos)
unfolding insert_from
insert_from-Inserted zero x id slot pos v h = record { valid = v; outcome = inr (λ e. cc, refl) }
insert_from-Inserted (suc probes) x id slot pos v h = elim (Bool-cases (bucket_at x pos).occupied) [
  | inl full ↦ rw full (elim (Bool-cases ((bucket_at x pos).id == id)) [
    | inl hit ↦ rw hit (record { valid = v; outcome = inr (λ e. cc, refl) })
    | inr miss ↦ rw miss (
        insert_from-Inserted probes x id slot (bit_and (pos + 1) (x.bucket_count - 1)) v
          (omega (arith, bit_and-le (pos + 1) (x.bucket_count - 1))))
  ])
  | inr free ↦
      let b : Bucket = record { id = id; slot = slot; occupied = true } in
      let there : pos < length x.buckets = rw v.sized h in
      let more = occupied-set x.buckets pos b there in
      let most = occupied-le-length (set x.buckets pos b) in
      let long = length-set x.buckets pos b in
      rw free (record {
        valid = record {
          counted = omega (arith, more, ap one_if free, most, long, v.counted, v.sized, v.small);
          sized = long ∙ v.sized;
          small = v.small;
        };
        outcome =
            inl
              (refl, omega (arith, more, ap one_if free, most, long, v.counted, v.sized, v.small));
      })
]

-- On an index whose size counts its occupied buckets, `insert` keeps that count: the size grows
-- by one with the status `Ok`, and with any other status nothing changes.
pub insert-Inserted : (x : OrderIdIndex) (id slot : ℕ) → IsCounted x → Inserted x (insert x id slot)
unfolding insert
insert-Inserted x id slot v = elim (Bool-cases (x.bucket_count == 0)) [
  | inl none ↦ rw none (record { valid = v; outcome = inr (λ e. cc, refl) })
  | inr some ↦ rw some (
      insert_from-Inserted x.bucket_count x id slot (home x id) v
        (ground (arith, bit_and-le (hash id) (x.bucket_count - 1))))
]

occupied-replicate : (n : ℕ) → occupied (replicate n empty_bucket) ≡ 0
unfolding occupied
occupied-replicate zero = refl
occupied-replicate (suc n) = omega (arith, occupied-replicate n)

-- A cleared index is empty.
pub clear-IsCounted :
    (x : OrderIdIndex) → x.bucket_count < u64_mod → IsCounted (clear x) × ((clear x).size ≡ 0)
unfolding clear
clear-IsCounted x small = (
  record {
    counted = sym (occupied-replicate x.bucket_count);
    sized = length-replicate x.bucket_count empty_bucket;
    small = small;
  },
  refl,
)
