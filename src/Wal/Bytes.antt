-- ===== src/Wal/Bytes.antt =====
-- Ranges of bytes in one block of memory, as exchange/wal/src/core.cpp copies and views them.
use ll_exp.Prelude.{
  ℕ, zero, suc, ◌+◌, ◌≤◌, ◌<◌, ◌≡◌, refl, ◌∙◌, arith, List, [], ◌∷◌, ◌⊎◌, inl, inr, length, get_or,
  set, length-set, get_or-set_self, get_or-set_ne,
}

-- `std::memcpy(memory + offset, bytes.data(), bytes.size())`
unfoldable pub copy_to : List ℕ → ℕ → List ℕ → List ℕ
copy_to memory offset [] = memory
copy_to memory offset (b ∷ bytes) = copy_to (set memory offset b) (offset + 1) bytes

-- The span of `count` bytes from `offset` on.
unfoldable pub span_at : List ℕ → ℕ → ℕ → List ℕ
span_at memory offset zero = []
span_at memory offset (suc count) = get_or memory offset 0 ∷ span_at memory (offset + 1) count

pub length-copy_to :
    (memory : List ℕ) (offset : ℕ) (bytes : List ℕ)
    → length (copy_to memory offset bytes) ≡ length memory
unfolding copy_to
length-copy_to memory offset [] = refl
length-copy_to memory offset (b ∷ bytes) =
    length-copy_to (set memory offset b) (offset + 1) bytes ∙ length-set memory offset b

copy_to-before :
    (memory : List ℕ) (offset : ℕ) (bytes : List ℕ) (i : ℕ)
    → i < offset
    → get_or (copy_to memory offset bytes) i 0 ≡ get_or memory i 0
unfolding copy_to
copy_to-before memory offset [] i h = refl
copy_to-before memory offset (b ∷ bytes) i h =
    copy_to-before (set memory offset b) (offset + 1) bytes i (omega arith)
    ∙ get_or-set_ne memory offset i b 0 (omega arith)

copy_to-after :
    (memory : List ℕ) (offset : ℕ) (bytes : List ℕ) (i : ℕ)
    → offset + length bytes ≤ i
    → get_or (copy_to memory offset bytes) i 0 ≡ get_or memory i 0
unfolding copy_to
copy_to-after memory offset [] i h = refl
copy_to-after memory offset (b ∷ bytes) i h =
    copy_to-after (set memory offset b) (offset + 1) bytes i (omega arith)
    ∙ get_or-set_ne memory offset i b 0 (omega arith)

-- A copy that fits is read back.
pub span_at-copy_to :
    (memory : List ℕ) (offset : ℕ) (bytes : List ℕ)
    → offset + length bytes ≤ length memory
    → span_at (copy_to memory offset bytes) offset (length bytes) ≡ bytes
unfolding span_at copy_to
span_at-copy_to memory offset [] h = refl
span_at-copy_to memory offset (b ∷ bytes) h =
    let m = set memory offset b in
    let first : get_or (copy_to m (offset + 1) bytes) offset 0 ≡ b =
      copy_to-before m (offset + 1) bytes offset (omega arith)
      ∙ get_or-set_self memory offset b 0 (omega arith) in
    rw (first, span_at-copy_to m (offset + 1) bytes (rw length-set (omega arith)))

copy_to_elsewhere :
    (memory : List ℕ) (offset : ℕ) (bytes : List ℕ) (i : ℕ)
    → (i < offset) ⊎ (offset + length bytes ≤ i)
    → get_or (copy_to memory offset bytes) i 0 ≡ get_or memory i 0
copy_to_elsewhere memory offset bytes i (inl before) = copy_to-before memory offset bytes i before
copy_to_elsewhere memory offset bytes i (inr after) = copy_to-after memory offset bytes i after

-- A copy leaves a span alone that it does not meet.
pub span_at-copy_to_apart :
    (memory : List ℕ) (offset : ℕ) (bytes : List ℕ) (start count : ℕ)
    → (start + count ≤ offset) ⊎ (offset + length bytes ≤ start)
    → span_at (copy_to memory offset bytes) start count ≡ span_at memory start count
unfolding span_at
span_at-copy_to_apart memory offset bytes start zero h = refl
span_at-copy_to_apart memory offset bytes start (suc count) h = rw (
  span_at-copy_to_apart memory offset bytes (start + 1) count
      (elim h [ inl before ↦ inl (omega arith) | inr after ↦ inr (omega arith) ]),
  copy_to_elsewhere memory offset bytes start
      (elim h [ inl before ↦ inl (omega arith) | inr after ↦ inr after ]),
)
