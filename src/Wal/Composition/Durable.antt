-- ===== src/Wal/Composition/Durable.antt =====
-- wal.cpp: the durable progress of a log through each of its calls.
use ll_exp.Prelude.{ℕ, ◌≡◌, refl, not, ◌&&◌, ◌==◌, List, length, Option, ◌⊎◌, inl, if_both}
use ll_exp.Wal.Types.{ViewStatus, RecordView}
use ll_exp.Wal.Slider.{acquire_bounded}
use ll_exp.Wal.Composition.{
  Wal, ConsumeResult, publish_payload, advance_durable, consume_view, consume_payload, close_all,
  close_wal,
}
use ll_exp.Wal.Composition.Synced.{Flushed, slider-Progressed}

-- From `w` to `w'` the durable progress stays, or everything up to the new one is in the file and
-- was synchronized.
abbrev pub Durable : Wal → Wal → Type 0
Durable w w' =
    (w'.slider.own ≡ w.slider.own)
    ⊎ Flushed w.core w.slider.own w.slider.state w'.slider.own w'.slider.state

module _ (w : Wal) where
  abbrev DurableAfter : {R : Type 0} → R × Wal → Type 0
  DurableAfter r = Durable w r.1

  pub publish_payload-Durable : (payload : List ℕ) → Durable w (publish_payload payload w).1
  unfolding publish_payload
  publish_payload-Durable payload = if_both DurableAfter (not w.is_open) (inl refl) (
      if_both DurableAfter (not (length payload == w.config.payload_size)) (inl refl) (
        if_both DurableAfter w.core.sequence_exhausted (inl refl)
          (if_both DurableAfter w.slider.state.failed (inl refl) (inl refl))))

  pub advance_durable-Durable : (batch_size : ℕ) → Durable w (advance_durable batch_size w).1
  unfolding advance_durable
  advance_durable-Durable batch_size = if_both DurableAfter (not w.is_open) (inl refl) (
      if_both DurableAfter w.slider.state.failed (inl refl)
        (slider-Progressed w.core (acquire_bounded batch_size) w.core.head w.slider))

  consume_view-Durable :
      (view : RecordView) (status : ViewStatus) → Durable w (consume_view view status w).2
  unfolding consume_view
  consume_view-Durable view ViewStatus.ok = inl refl
  consume_view-Durable view ViewStatus.closed = inl refl
  consume_view-Durable view ViewStatus.reclaimed = inl refl
  consume_view-Durable view ViewStatus.unpublished = inl refl

  abbrev DurableRead : ConsumeResult × Option (List ℕ) × Wal → Type 0
  DurableRead r = Durable w r.2

  pub consume_payload-Durable : (size : ℕ) → Durable w (consume_payload size w).2
  unfolding consume_payload
  consume_payload-Durable size = if_both DurableRead (not w.is_open) (inl refl) (
      if_both DurableRead (not (size == w.config.payload_size)) (inl refl)
        (if_both DurableRead (w.core.tail == w.slider.own) (inl refl) (consume_view-Durable _ _)))

  pub close_wal-Durable : Durable w (close_wal w).1
  unfolding close_wal close_all
  close_wal-Durable = if_both DurableAfter (not w.is_open) (inl refl) (
      if_both DurableAfter (not (w.core.tail == w.slider.own)) (inl refl) (
        if_both DurableAfter (not w.slider.state.failed && not (w.slider.own == w.core.head))
          (inl refl) (inl refl)))
