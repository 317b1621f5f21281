-- ===== src/Wal/Slider.antt =====
-- exchange/wal/include/fexma/wal/slider.hpp: a module that follows the log. The source of views, the
-- module and the two policies are template parameters of the code and arguments here. The progress of
-- the slider and the upstream's are read and written in one step each.
pub mod Progress
use ll_exp.Prelude.{
  ℕ, zero, suc, ◌+◌, ◌-◌, ◌%◌, ◌^◌, ltb, ◌==◌, if◌then◌else◌, Bool, true, false, not, ◌||◌,
}
use ll_exp.Wal.Types.{ViewStatus, RecordView, AccessResult}
use ll_exp.Wal.Core.{u64_mod}

pub record PositionRange : Type 0 where
  pub begin : ℕ
  pub end : ℕ

pub data PublishDecision : Type 0 where
  hold publish failed : PublishDecision

pub data SliderStatus : Type 0 where
  processed empty upstream_regression progress_mismatch invalid_range : SliderStatus
  view_unavailable module_failed publish_failed : SliderStatus

pub record SliderResult : Type 0 where
  pub status : SliderStatus
  pub current : ℕ
  pub processed_count : ℕ
  pub view_status : ViewStatus

-- `Progress::Writer::publish` of an end, with the answer and the new value.
unfoldable pub publish_progress : ℕ → ℕ → Bool × ℕ
publish_progress end value = if ltb end value then (false, value) else (true, end)

-- `AvailableRangeAcquire` and `BoundedRangeAcquire`
unfoldable pub acquire_available : ℕ → ℕ → PositionRange
acquire_available current available_end = record { begin = current; end = available_end }

unfoldable pub acquire_bounded : ℕ → ℕ → ℕ → PositionRange
acquire_bounded maximum_count current available_end =
    if not (ltb current available_end) then record { begin = current; end = current } else record {
      begin = current;
      end =
          current
          + (if ltb (available_end - current) maximum_count
              then available_end - current
              else maximum_count);
    }

-- What a module and a publish policy do; `M` is their common state.
pub record Stage (M : Type 0) : Type 0 where
  pub try_view : ℕ → AccessResult
  pub process : RecordView → M → Bool × M
  pub after_process : ℕ → M → PublishDecision × M
  pub after_range : ℕ → ℕ → M → PublishDecision × M

-- `own` is the slider's progress, which others read.
pub record Slider (M : Type 0) : Type 0 where
  pub current : ℕ
  pub own : ℕ
  pub state : M

module _ {M : Type 0} (stage : Stage M) where
  -- `apply_publish_decision`, with the state that the policy left.
  unfoldable pub apply_publish_decision : PublishDecision × M → Slider M → Bool × Slider M
  apply_publish_decision (PublishDecision.failed, m) s = (false, record s { state = m })
  apply_publish_decision (PublishDecision.hold, m) s = (true, record s { state = m })
  apply_publish_decision (PublishDecision.publish, m) s =
      let published = publish_progress s.current s.own in
      (published.0, record s { state = m; own = published.1 })

  abbrev pub stopped : SliderStatus → ℕ → Slider M → SliderResult × Slider M
  stopped status count s = (
    record {
      status = status;
      current = s.current;
      processed_count = count;
      view_status = ViewStatus.ok;
    },
    s,
  )

  -- The end of `process_available`.
  abbrev pub after_last : ℕ → Bool × Slider M → SliderResult × Slider M
  after_last count (true, s) = stopped SliderStatus.processed count s
  after_last count (false, s) = stopped SliderStatus.publish_failed count s

  -- A round of the loop after the policy's decision; `next` is the rest of the loop.
  abbrev pub after_decision :
      (ℕ → Slider M → SliderResult × Slider M) → ℕ → Bool × Slider M → SliderResult × Slider M
  after_decision next count (true, s) = next count s
  after_decision next count (false, s) = stopped SliderStatus.publish_failed count s

  -- A round of the loop after the module's answer.
  unfoldable pub after_module :
      (ℕ → Slider M → SliderResult × Slider M) → ℕ → Slider M → Bool × M → SliderResult × Slider M
  after_module next count s (false, m) =
      stopped SliderStatus.module_failed count (record s { state = m })
  after_module next count s (true, m) = after_decision next (count + 1) (
      apply_publish_decision (stage.after_process (s.current + 1) m)
        (record s { current = s.current + 1; state = m }))

  -- A round of the loop after the view, whose status stands last.
  unfoldable pub after_view :
      (ℕ → Slider M → SliderResult × Slider M)
      → ℕ
      → Slider M
      → RecordView
      → ViewStatus
      → SliderResult × Slider M
  after_view next count s view ViewStatus.ok =
      after_module next count s (stage.process view s.state)
  after_view next count s view status = (
    record {
      status = SliderStatus.view_unavailable;
      current = s.current;
      processed_count = count;
      view_status = status;
    },
    s,
  )

  -- The loop, over the positions left; `first` is where it began. Its positions are below the
  -- upstream's, so that none of its additions wraps.
  unfoldable pub process_loop : ℕ → ℕ → ℕ → Slider M → SliderResult × Slider M
  process_loop zero first count s =
      after_last count (apply_publish_decision (stage.after_range first s.current s.state) s)
  process_loop (suc left) first count s =
      after_view (process_loop left first) count s (stage.try_view s.current).record_view
        (stage.try_view s.current).status

  -- From the range that the acquire policy gave on.
  unfoldable pub after_acquire : ℕ → Slider M → PositionRange → SliderResult × Slider M
  after_acquire available_end s range =
      if not (range.begin == s.current) || ltb range.end range.begin || ltb available_end range.end
      then stopped SliderStatus.invalid_range 0 s
      else if range.begin == range.end
      then stopped SliderStatus.empty 0 s
      else process_loop (range.end - s.current) s.current 0 s

  -- `available_end` is the upstream's progress.
  unfoldable pub process_available :
      (ℕ → ℕ → PositionRange) → ℕ → Slider M → SliderResult × Slider M
  process_available acquire available_end s =
      if not (s.own == s.current)
      then stopped SliderStatus.progress_mismatch 0 s
      else if ltb available_end s.current
      then stopped SliderStatus.upstream_regression 0 s
      else after_acquire available_end s (acquire s.current available_end)
