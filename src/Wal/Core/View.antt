-- ===== src/Wal/Core/View.antt =====
-- core.cpp: `try_view` and `reclaim` on a log that stands for a history.
use ll_exp.Prelude.{
  ℕ, ◌+◌, ◌%◌, ◌^◌, ◌≤◌, ◌<◌, ◌≡◌, sym, ap, ◌∙◌, arith, true, List, [], ◌⊎◌, inl, inr, length,
  get_or, lt→ltb, ge→ltb,
}
use native.Mathlib.Nat.{mod-eq_of_lt, mod-lt}
use native.Mathlib.Decide.{dec_lt}
use ll_exp.Wal.Types.{ViewStatus, AccessResult, ReclaimStatus}
use ll_exp.Wal.Core.{WalCore, u64_mod, block_at, no_access, try_view, reclaim}
use ll_exp.Wal.Core.Window.{Models}

-- Moving the tail within the window changes no record.
retired :
    (w : WalCore) (history : List (List ℕ)) (end : ℕ)
    → Models w history
    → w.tail ≤ end
    → end ≤ w.head
    → Models (record w { tail = end }) history
retired w history end v low high = record {
  running = v.running;
  head = v.head;
  ordered = high;
  bounded = omega (arith, v.bounded);
  room = v.room;
  small = v.small;
  same_slots = v.same_slots;
  same_size = v.same_size;
  turn = v.turn;
  wide = v.wide;
  memory = v.memory;
  numbered = v.numbered;
  first = v.first;
  word = v.word;
  contents = λ p from below. unfold block_at in v.contents p (omega arith) below;
}

-- The view of a retained position.
view_window :
    (w : WalCore) (history : List (List ℕ)) (p : ℕ)
    → Models w history
    → w.tail ≤ p
    → p < w.head
    → ◌≡◌ {A = AccessResult}
        (record {
          status = ViewStatus.ok;
          record_view = record {
            position = p;
            sequence = (w.config.first_sequence + p) % u64_mod;
            payload = block_at w (p % w.config.capacity % 2 ^ 32);
          };
        })
        (record {
          status = ViewStatus.ok;
          record_view = record {
            position = p;
            sequence = w.config.first_sequence + p;
            payload = get_or history p [];
          };
        })
view_window w history p v low high =
    let number : (w.config.first_sequence + p) % u64_mod ≡ w.config.first_sequence + p =
      omega (arith, v.numbered) in
    let inside : p % w.slots < w.slots = mod-lt p v.room in
    let slot : p % w.config.capacity % 2 ^ 32 ≡ p % w.slots =
      ap (λ c. p % c % 2 ^ 32) (sym v.same_slots) ∙ mod-eq_of_lt (omega (arith, v.small)) in
    rw (number, slot, v.contents p low high)

-- On a log that stands for a history, `try_view` of a position reports it as reclaimed exactly
-- below the tail, as unpublished exactly from the history's length on, and between them shows the
-- payload that was published there, with the position and its sequence number.
pub try_view-history :
    (w : WalCore) (history : List (List ℕ)) (p : ℕ)
    → Models w history
    → ((p < w.tail) × (try_view w p ≡ no_access ViewStatus.reclaimed))
      ⊎ ((length history ≤ p) × (try_view w p ≡ no_access ViewStatus.unpublished))
      ⊎ ((w.tail ≤ p)
          × (p < length history)
          × (try_view w p ≡ record {
            status = ViewStatus.ok;
            record_view = record {
              position = p;
              sequence = w.config.first_sequence + p;
              payload = get_or history p [];
            };
          }))
unfolding try_view
try_view-history w history p v = simp v.running (elim (dec_lt p w.tail) [
  | yes gone ↦ inl (gone, rw (lt→ltb p w.tail gone))
  | no kept ↦ rw (ge→ltb p w.tail (omega arith)) (elim (dec_lt p w.head) [
    | no above ↦ inr (inl (omega (arith, v.head), rw (ge→ltb p w.head (omega arith))))
    | yes here ↦ inr (
        inr (
          omega arith,
          omega (arith, v.head),
          rw (lt→ltb p w.head here) (view_window w history p v (omega arith) here),
        ))
  ])
])

reclaim_within :
    (w : WalCore) (end : ℕ)
    → w.is_open ≡ true
    → w.tail ≤ end
    → end ≤ w.head
    → reclaim w end ≡ (ReclaimStatus.ok, record w { tail = end })
unfolding reclaim
reclaim_within w end running low high =
    simp (running, ge→ltb end w.tail low, ge→ltb w.head end high)

-- On a log that stands for a history, `reclaim` of an end between the tail and the history's
-- length moves the tail there and keeps the history; any other end is refused as an invalid
-- position and changes nothing.
pub reclaim-Models :
    (w : WalCore) (history : List (List ℕ)) (end : ℕ)
    → Models w history
    → ((w.tail ≤ end)
        × (end ≤ length history)
        × ((reclaim w end).0 ≡ ReclaimStatus.ok)
        × Models (reclaim w end).1 history
        × ((reclaim w end).1.tail ≡ end))
      ⊎ (((end < w.tail) ⊎ (length history < end))
          × (reclaim w end ≡ (ReclaimStatus.invalid_position, w)))
unfolding reclaim
reclaim-Models w history end v = elim (dec_lt end w.tail) [
  | yes low ↦ inr (inl low, simp (v.running, lt→ltb end w.tail low))
  | no reached ↦ elim (dec_lt w.head end) [
    | yes high ↦ inr (
      inr (omega (arith, v.head)),
      simp (v.running, ge→ltb end w.tail (omega arith), lt→ltb w.head end high),
    )
    | no within ↦
        let moved = reclaim_within w end v.running (omega arith) (omega arith) in
        inl (
          omega arith,
          omega (arith, v.head),
          rw moved,
          rw moved (retired w history end v (omega arith) (omega arith)),
          rw moved,
        )
  ]
]
