-- ===== src/Wal/Composition/Runs.antt =====
-- wal.cpp: sequences of calls of a log, its frontiers and its durable progress through them.
use ll_exp.Prelude.{
  ℕ, ◌+◌, ◌%◌, ◌≤◌, ◌<◌, arith, ◌==◌, not, ◌&&◌, ◌||◌, Option, List, [], ◌∷◌, length, if_cases,
  if_both, ltb,
}
use ll_exp.Wal.Types.{ViewStatus, RecordView, ReclaimStatus}
use ll_exp.Wal.Core.{WalCore, u64_mod, try_publish, reclaim, close}
use ll_exp.Wal.Slider.{acquire_bounded, process_available}
use ll_exp.Wal.Slider.Progress.{process_available-Followed}
use ll_exp.Wal.Persistence.{persistence_stage}
use ll_exp.Wal.Composition.{
  Wal, ConsumeResult, publish_payload, advance_durable, consume_view, consume_payload, close_all,
  close_wal,
}
use ll_exp.Wal.Composition.Durable.{
  Durable, publish_payload-Durable, advance_durable-Durable, consume_payload-Durable,
  close_wal-Durable,
}
use ll_exp.Wal.Composition.Order.{IsOrdered, publish-Grows, core-IsOrdered}

-- After a call the frontiers are in order, and the head has moved by `n` at most.
pub record Advanced (w : Wal) (n : ℕ) (w' : Wal) : Type 0 where
  pub ordered : IsOrdered w'
  pub head_forward : w.core.head ≤ w'.core.head
  pub durable_forward : w.slider.own ≤ w'.slider.own
  pub bounded : w'.core.head ≤ w.core.head + n

Advanced-self : (w : Wal) → IsOrdered w → Advanced w 1 w
Advanced-self w v = record {
  ordered = v;
  head_forward = omega arith;
  durable_forward = omega arith;
  bounded = omega arith;
}

module _ (w : Wal) (v : IsOrdered w) where
  abbrev AfterCall : {R : Type 0} → R × Wal → Type 0
  AfterCall (r, w') = Advanced w 1 w'

  publish_payload-Advanced :
      (payload : List ℕ) → w.core.head + 1 < u64_mod → Advanced w 1 (publish_payload payload w).1
  unfolding publish_payload
  publish_payload-Advanced payload small =
      let stays = Advanced-self w v in
      let core = publish-Grows w.core payload small in
      let grown : Advanced w 1 (record w { core = (try_publish w.core payload).1 }) = record {
        ordered = core-IsOrdered w _ v core;
        head_forward = core.forward;
        durable_forward = omega arith;
        bounded = core.step;
      } in
      if_both AfterCall (not w.is_open) stays (
        if_both AfterCall (not (length payload == w.config.payload_size)) stays (
          if_both AfterCall w.core.sequence_exhausted stays
            (if_both AfterCall w.slider.state.failed stays grown)))

  advance_durable-Advanced : (batch_size : ℕ) → Advanced w 1 (advance_durable batch_size w).1
  unfolding advance_durable
  advance_durable-Advanced batch_size =
      let stays = Advanced-self w v in
      let f =
        process_available-Followed (persistence_stage w.core) (acquire_bounded batch_size)
          w.core.head w.slider v.durable v.processed in
      let moved : Advanced w 1 (record w {
        slider =
            (process_available (persistence_stage w.core) (acquire_bounded batch_size) w.core.head
              w.slider).1;
      }) =
        record {
          ordered = record {
            consumed = omega (arith, v.consumed, f.own_forward);
            durable = f.own_behind;
            processed = f.bounded;
          };
          head_forward = omega arith;
          durable_forward = f.own_forward;
          bounded = omega arith;
        } in
      if_both AfterCall (not w.is_open) stays (if_both AfterCall w.slider.state.failed stays moved)

  reclaimed :
      (end : ℕ)
      → w.core.tail ≤ end
      → end ≤ w.slider.own
      → Advanced w 1 (record w { core = (reclaim w.core end).1 })
  unfolding reclaim
  reclaimed end low high =
      let stays = Advanced-self w v in
      if_both (λ (r : ReclaimStatus × WalCore). Advanced w 1 (record w { core = r.1 }))
        (not w.core.is_open) stays
        (if_both (λ (r : ReclaimStatus × WalCore). Advanced w 1 (record w { core = r.1 }))
          (ltb end w.core.tail || ltb w.core.head end) stays
          (record {
            ordered = record { consumed = high; durable = v.durable; processed = v.processed };
            head_forward = omega arith;
            durable_forward = omega arith;
            bounded = omega arith;
          }))

  consume_view-Advanced :
      (view : RecordView) (status : ViewStatus)
      → w.core.tail < w.slider.own
      → w.slider.own < u64_mod
      → Advanced w 1 (consume_view view status w).2
  unfolding consume_view
  consume_view-Advanced view ViewStatus.ok some_durable small =
      reclaimed ((w.core.tail + 1) % u64_mod) (omega arith) (omega arith)
  consume_view-Advanced view ViewStatus.closed some_durable small = Advanced-self w v
  consume_view-Advanced view ViewStatus.reclaimed some_durable small = Advanced-self w v
  consume_view-Advanced view ViewStatus.unpublished some_durable small = Advanced-self w v

  consume_payload-Advanced :
      (size : ℕ) → w.slider.own < u64_mod → Advanced w 1 (consume_payload size w).2
  unfolding consume_payload
  consume_payload-Advanced size small =
      let stays = Advanced-self w v in
      if_both (λ (r : ConsumeResult × Option (List ℕ) × Wal). Advanced w 1 r.2) (not w.is_open)
        stays
        (if_both (λ (r : ConsumeResult × Option (List ℕ) × Wal). Advanced w 1 r.2)
          (not (size == w.config.payload_size)) stays
          (if_cases (λ (r : ConsumeResult × Option (List ℕ) × Wal). Advanced w 1 r.2)
            (w.core.tail == w.slider.own) (λ same. stays)
            (λ other. consume_view-Advanced _ _ (ground (arith, other, v.consumed)) small)))

  close_wal-Advanced : Advanced w 1 (close_wal w).1
  unfolding close_wal close_all close
  close_wal-Advanced =
      let stays = Advanced-self w v in
      if_both AfterCall (not w.is_open) stays (
        if_both AfterCall (not (w.core.tail == w.slider.own)) stays (
          if_both AfterCall (not w.slider.state.failed && not (w.slider.own == w.core.head)) stays
            (record {
              ordered = record {
                consumed = v.consumed;
                durable = v.durable;
                processed = v.processed;
              };
              head_forward = omega arith;
              durable_forward = omega arith;
              bounded = omega arith;
            })))

-- The calls of an open log that change it.
pub data Call : Type 0 where
  publish : List ℕ → Call
  advance : ℕ → Call
  consume : ℕ → Call
  close_it : Call

unfoldable pub make_call : Call → Wal → Wal
make_call (Call.publish payload) w = (publish_payload payload w).1
make_call (Call.advance batch_size) w = (advance_durable batch_size w).1
make_call (Call.consume size) w = (consume_payload size w).2
make_call Call.close_it w = (close_wal w).1

unfoldable pub make_calls : List Call → Wal → Wal
make_calls [] w = w
make_calls (c ∷ calls) w = make_calls calls (make_call c w)

make_call-Advanced :
    (c : Call) (w : Wal) → IsOrdered w → w.core.head + 1 < u64_mod → Advanced w 1 (make_call c w)
unfolding make_call
make_call-Advanced (Call.publish payload) w v small = publish_payload-Advanced w v payload small
make_call-Advanced (Call.advance batch_size) w v small = advance_durable-Advanced w v batch_size
make_call-Advanced (Call.consume size) w v small =
    consume_payload-Advanced w v size (omega (arith, v.durable, v.processed))
make_call-Advanced Call.close_it w v small = close_wal-Advanced w v

make_calls-ordered :
    (calls : List Call) (w : Wal)
    → IsOrdered w
    → w.core.head + length calls < u64_mod
    → Advanced w (length calls) (make_calls calls w)
unfolding make_calls
make_calls-ordered [] w v small = record {
  ordered = v;
  head_forward = omega arith;
  durable_forward = omega arith;
  bounded = omega arith;
}
make_calls-ordered (c ∷ calls) w v small =
    let first = make_call-Advanced c w v (omega (arith, small)) in
    let later =
      make_calls-ordered calls (make_call c w) first.ordered
        (omega (arith, small, first.bounded)) in
    record {
      ordered = later.ordered;
      head_forward = omega (arith, first.head_forward, later.head_forward);
      durable_forward = omega (arith, first.durable_forward, later.durable_forward);
      bounded = omega (arith, first.bounded, later.bounded);
    }

make_call-Durable : (c : Call) (w : Wal) → Durable w (make_call c w)
unfolding make_call
make_call-Durable (Call.publish payload) w = publish_payload-Durable w payload
make_call-Durable (Call.advance batch_size) w = advance_durable-Durable w batch_size
make_call-Durable (Call.consume size) w = consume_payload-Durable w size
make_call-Durable Call.close_it w = close_wal-Durable w

-- Every call of the run is `Durable`.
abbrev pub EachDurable : List Call → Wal → Type 0
EachDurable [] w = Unit {0}
EachDurable (c ∷ calls) w = Durable w (make_call c w) × EachDurable calls (make_call c w)

make_calls-EachDurable : (calls : List Call) (w : Wal) → EachDurable calls w
make_calls-EachDurable [] w = tt
make_calls-EachDurable (c ∷ calls) w =
    (make_call-Durable c w, make_calls-EachDurable calls (make_call c w))

-- On a log whose frontiers are in order (tail, durable progress, the slider's position, head),
-- any sequence of the calls that publish, advance the durable progress, consume and close, where
-- the head stays below 2^64, keeps them in order, whatever the system answers to the persistence:
-- the tail is not ahead of the durable progress, nor that ahead of the head, and head and durable
-- progress never go back. In each call of the sequence the durable progress stays, or the file
-- that is open has grown by exactly the bytes of the records that the log shows from the old
-- durable progress to the new one, and the system has then answered the synchronization of the
-- file with success.
pub make_calls-Advanced :
    (calls : List Call) (w : Wal)
    → IsOrdered w
    → w.core.head + length calls < u64_mod
    → Advanced w (length calls) (make_calls calls w) × EachDurable calls w
make_calls-Advanced calls w v small =
    (make_calls-ordered calls w v small, make_calls-EachDurable calls w)
