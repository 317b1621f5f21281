-- ===== src/Bytes.antt =====
-- Little-endian fields of a byte buffer, as exchange/matcher/src/codec.cpp and
-- exchange/wal/src/physical_wal_file.cpp write and read them. A byte is a number below 256.
use ll_exp.Prelude.{
  ℕ, zero, suc, ◌+◌, ◌*◌, ◌/◌, ◌%◌, ◌^◌, ◌<◌, ◌≡◌, arith, List, ◌∙◌, get_or, set, bit_or,
  bit_or-disjoint,
}
use native.Mathlib.Nat.{mod-eq_of_lt, mod-lt}

-- The byte number `index` of a value.
abbrev pub byte_of : ℕ → ℕ → ℕ
byte_of value index = value / 2 ^ (index * 8) % 256

-- The loop that writes the bytes of a value, over the bytes left.
unfoldable pub write_from : ℕ → ℕ → List ℕ → ℕ → ℕ → List ℕ
write_from zero index bytes offset value = bytes
write_from (suc left) index bytes offset value =
    write_from left (index + 1) (set bytes (offset + index) (byte_of value index)) offset value

-- The loop that reads them. A byte shifted by at most 56 bits fits its word.
unfoldable pub read_from : ℕ → ℕ → List ℕ → ℕ → ℕ → ℕ
read_from zero index bytes offset value = value
read_from (suc left) index bytes offset value =
    read_from left (index + 1) bytes offset
      (bit_or value (get_or bytes (offset + index) 0 * 2 ^ (index * 8)))

unfoldable pub write_u32 : List ℕ → ℕ → ℕ → List ℕ
unfolding write_from
write_u32 bytes offset value = write_from 4 0 bytes offset value

unfoldable pub write_u64 : List ℕ → ℕ → ℕ → List ℕ
unfolding write_from
write_u64 bytes offset value = write_from 8 0 bytes offset value

unfoldable pub read_u32 : List ℕ → ℕ → ℕ
unfolding read_from
read_u32 bytes offset = read_from 4 0 bytes offset 0

unfoldable pub read_u64 : List ℕ → ℕ → ℕ
unfolding read_from
read_u64 bytes offset = read_from 8 0 bytes offset 0

-- The two bytes of `put_u16_le` and `get_u16_le`.
unfoldable pub write_u16 : List ℕ → ℕ → ℕ → List ℕ
write_u16 bytes offset value =
    set (set bytes offset (byte_of value 0)) (offset + 1) (byte_of value 1)

unfoldable pub read_u16 : List ℕ → ℕ → ℕ
read_u16 bytes offset = bit_or (get_or bytes offset 0) (get_or bytes (offset + 1) 0 * 2 ^ 8)

-- The value that the first `n` bytes of `value` join to.
unfoldable pub joined : ℕ → ℕ → ℕ
joined zero value = 0
joined (suc n) value = bit_or (joined n value) (byte_of value n * 2 ^ (n * 8))

join_step :
    (k v x : ℕ)
    → x ≡ v % 2 ^ k
    → 0 < 2 ^ k
    → bit_or x (v / 2 ^ k % 256 * 2 ^ k) ≡ v % 2 ^ k + v / 2 ^ k % 256 * 2 ^ k
join_step k v x e pos =
    let low : x < 2 ^ k = omega (arith, e, mod-lt v pos) in
    bit_or-disjoint k x (v / 2 ^ k % 256) low ∙ omega (arith, e)

joined-u16 : (v : ℕ) → joined 2 v ≡ v % 2 ^ 16
unfolding joined
joined-u16 v =
    let e₀ : bit_or 0 (v / 2 ^ 0 % 256 * 2 ^ 0) ≡ v % 2 ^ 8 =
      omega (arith, join_step 0 v 0 (omega arith) (omega arith)) in
    omega (arith, join_step 8 v _ e₀ (omega arith))

joined-u32 : (v : ℕ) → joined 4 v ≡ v % 2 ^ 32
unfolding joined
joined-u32 v =
    let e₂ = joined-u16 v in
    let e₃ : joined 3 v ≡ v % 2 ^ 24 = omega (arith, join_step 16 v _ e₂ (omega arith)) in
    omega (arith, join_step 24 v _ e₃ (omega arith))

joined-u64 : (v : ℕ) → joined 8 v ≡ v % 2 ^ 64
unfolding joined
joined-u64 v =
    let e₄ = joined-u32 v in
    let e₅ : joined 5 v ≡ v % 2 ^ 40 = omega (arith, join_step 32 v _ e₄ (omega arith)) in
    let e₆ : joined 6 v ≡ v % 2 ^ 48 = omega (arith, join_step 40 v _ e₅ (omega arith)) in
    let e₇ : joined 7 v ≡ v % 2 ^ 56 = omega (arith, join_step 48 v _ e₆ (omega arith)) in
    omega (arith, join_step 56 v _ e₇ (omega arith))

-- A value in range comes back from its bytes.
pub joined_back_16 : (v : ℕ) → v < 2 ^ 16 → bit_or (byte_of v 0) (byte_of v 1 * 2 ^ 8) ≡ v
joined_back_16 v h = omega (arith, join_step 8 v (byte_of v 0) (omega arith) (omega arith))

pub joined_back_32 : (v : ℕ) → v < 2 ^ 32 → joined 4 v ≡ v
joined_back_32 v h = joined-u32 v ∙ mod-eq_of_lt h

pub joined_back_64 : (v : ℕ) → v < 2 ^ 64 → joined 8 v ≡ v
joined_back_64 v h = joined-u64 v ∙ mod-eq_of_lt h
