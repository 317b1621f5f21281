-- ===== src/Wal/Core/Setup.antt =====
-- core.cpp: `open`. A log that opens is empty, and its blocks do not overlap.
use ll_exp.Prelude.{
  ℕ, ◌+◌, ◌-◌, ◌*◌, ◌/◌, ◌^◌, ◌≤◌, ◌<◌, ◌≡◌, refl, sym, arith, Bool, true, false, Option, none,
  some, [], inl, inr, length-replicate, Bool-cases, Option-cases,
}
use native.Mathlib.Nat.{mod-eq_of_lt}
use ll_exp.Wal.Types.{OpenStatus, WalRuntimeConfig}
use ll_exp.Wal.Core.{
  WalCore, u64_mod, checked_add, checked_mul, checked_align_up, storage_layout,
  valid_runtime_config, initialize, open_core,
}
use ll_exp.Wal.Core.Window.{Models}

align_covers :
    (value alignment : ℕ)
    → 0 < alignment
    → value ≤ (value + (alignment - 1)) / alignment * alignment
align_covers value alignment pos = grind arith

-- A layout has strides that hold a payload, and exactly room for the capacity.
pub record IsLayout (c : WalRuntimeConfig) (stride size : ℕ) : Type 0 where
  pub wide : c.payload_size ≤ stride
  pub total : size ≡ stride * c.capacity
  pub addressable : size < u64_mod

div_bound : (l r m : ℕ) → 0 < l → r ≤ m / l → l * r ≤ m
div_bound l r m pos h = grind arith

product_fits : (l r : ℕ) → 0 < l → r ≤ (u64_mod - 1) / l → l * r < u64_mod
product_fits l r pos h = grind (arith, div_bound l r (u64_mod - 1) pos h)

-- The overflow test of `checked_mul` is exact: what it returns is the product, and it fits.
checked_mul-some : (l r s : ℕ) → checked_mul l r ≡ some s → (s ≡ l * r) × (s < u64_mod)
unfolding checked_mul
checked_mul-some l r s e = ground (arith, product_fits l r)

checked_align_up-some :
    (value alignment stride : ℕ)
    → 0 < alignment
    → checked_align_up value alignment ≡ some stride
    → value ≤ stride
unfolding checked_align_up checked_add
checked_align_up-some value alignment stride pos e = ground (arith, align_covers value alignment)

-- For a positive alignment, where the checked arithmetic gives a stride and a size, the stride
-- holds a payload, the size is the stride times the capacity, and it fits 64 bits.
pub storage_layout-IsLayout :
    (c : WalRuntimeConfig) {stride size : ℕ}
    → 0 < c.alignment
    → storage_layout c ≡ some (stride, size)
    → IsLayout c stride size
unfolding storage_layout
storage_layout-IsLayout c {stride} {size} pos e =
    elim (Option-cases (checked_align_up c.payload_size c.alignment)) [
      | inl none_fits ↦ absurd (ground (arith, none_fits))
      | inr (st, fits) ↦ elim (Option-cases (checked_mul st c.capacity)) [
        | inl too_big ↦ absurd (ground (arith, fits, too_big))
        | inr (sz, product) ↦
            let same : (stride ≡ st) × (size ≡ sz) = ground (arith, fits, product) in
            let done = checked_mul-some st c.capacity sz product in
            record {
              wide = ground (arith, checked_align_up-some c.payload_size c.alignment st, same);
              total = rw (same.0, same.1) done.0;
              addressable = rw same.1 done.1;
            }
      ]
    ]

valid_parts :
    (c : WalRuntimeConfig)
    → valid_runtime_config c ≡ true
    → (0 < c.capacity) × (0 < c.alignment) × (0 < c.first_sequence)
unfolding valid_runtime_config
valid_parts c h = ground arith

initialize-Models :
    (c : WalRuntimeConfig) (allocated : Bool) (layout : Option (ℕ × ℕ)) (w : WalCore)
    → storage_layout c ≡ layout
    → valid_runtime_config c ≡ true
    → c.capacity < 2 ^ 32
    → c.first_sequence < u64_mod
    → (initialize c allocated layout w).0 ≡ OpenStatus.ok
    → Models (initialize c allocated layout w).1 []
unfolding initialize
initialize-Models c allocated none w e valid small word h = cc
initialize-Models c false (some (stride, size)) w e valid small word h = cc
initialize-Models c true (some (stride, size)) w e valid small word h =
    let parts = valid_parts c valid in
    let layout = storage_layout-IsLayout c parts.1 e in
    record {
      running = refl;
      head = refl;
      ordered = omega arith;
      bounded = omega arith;
      room = parts.0;
      small = small;
      same_slots = refl;
      same_size = refl;
      turn = sym (mod-eq_of_lt parts.0);
      wide = layout.wide;
      memory = rw length-replicate (omega (arith, layout.total));
      numbered = omega arith;
      first = parts.2;
      word = word;
      contents = λ p low high. absurd (omega arith);
    }

-- For a capacity of 32 bits and a first sequence number of 64 bits, an `open` that returns `Ok`
-- gives a log that stands for the empty history.
pub open_core-Models :
    (c : WalRuntimeConfig) (allocated : Bool) (w : WalCore)
    → c.capacity < 2 ^ 32
    → c.first_sequence < u64_mod
    → (open_core c allocated w).0 ≡ OpenStatus.ok
    → Models (open_core c allocated w).1 []
unfolding open_core
open_core-Models c allocated w small word = elim (Bool-cases w.is_open) [
  | inl busy ↦ simp busy (λ h. cc)
  | inr idle ↦ simp idle (elim (Bool-cases (valid_runtime_config c)) [
    | inr bad ↦ rw bad (λ h. cc)
    | inl good ↦
        rw good (λ h. initialize-Models c allocated (storage_layout c) w refl good small word h)
  ])
]
