-- ===== src/Wal/Slider/Progress.antt =====
-- slider.hpp: how far a slider gets, and what others see of it.
use ll_exp.Prelude.{
  ℕ, zero, suc, ◌+◌, ◌-◌, ◌≤◌, ◌≡◌, refl, ◌∙◌, arith, ltb, ◌==◌, Bool, true, false, not, ◌||◌,
  if_cases, ge→ltb,
}
use ll_exp.Wal.Types.{ViewStatus, RecordView}
use ll_exp.Wal.Slider.{
  PositionRange, PublishDecision, SliderStatus, SliderResult, publish_progress, Stage, Slider,
  apply_publish_decision, stopped, after_last, after_decision, after_module, after_view,
  process_loop, after_acquire, process_available,
}

-- From `s` with `count` processed, a run has stopped at `limit` or before. The progress that others
-- read has not gone back and is not ahead of what was processed.
pub record Followed {M : Type 0} (limit count : ℕ) (s : Slider M) (out : SliderResult × Slider M)
    : Type 0 where
  pub forward : s.current ≤ out.1.current
  pub bounded : out.1.current ≤ limit
  pub counted : out.1.current + count ≡ s.current + out.0.processed_count
  pub reported : out.0.current ≡ out.1.current
  pub own_forward : s.own ≤ out.1.own
  pub own_behind : out.1.own ≤ out.1.current

-- A publish decision leaves the position.
record Applied {M : Type 0} (s : Slider M) (out : Bool × Slider M) : Type 0 where
  current : out.1.current ≡ s.current
  own_forward : s.own ≤ out.1.own
  own_behind : out.1.own ≤ s.current

module _ {M : Type 0} (stage : Stage M) where
  apply-Applied :
      (d : PublishDecision) (m : M) (s : Slider M)
      → s.own ≤ s.current
      → Applied s (apply_publish_decision stage (d, m) s)
  unfolding apply_publish_decision publish_progress
  apply-Applied PublishDecision.failed m s behind = record {
    current = refl;
    own_forward = omega arith;
    own_behind = behind;
  }
  apply-Applied PublishDecision.hold m s behind = record {
    current = refl;
    own_forward = omega arith;
    own_behind = behind;
  }
  apply-Applied PublishDecision.publish m s behind =
      simp (ge→ltb s.current s.own behind)
        (record { current = refl; own_forward = behind; own_behind = omega arith })

  stopped-Followed :
      (status : SliderStatus) (limit count : ℕ) (s : Slider M)
      → s.own ≤ s.current
      → s.current ≤ limit
      → Followed limit count s (stopped stage status count s)
  stopped-Followed status limit count s behind below = record {
    forward = omega arith;
    bounded = below;
    counted = omega arith;
    reported = refl;
    own_forward = omega arith;
    own_behind = behind;
  }

  last-Followed :
      (limit count : ℕ) (s : Slider M) (r : Bool × Slider M)
      → Applied s r
      → s.current ≤ limit
      → Followed limit count s (after_last stage count r)
  last-Followed limit count s (true, s') a below = record {
    forward = omega (arith, a.current);
    bounded = omega (arith, a.current);
    counted = omega (arith, a.current);
    reported = refl;
    own_forward = a.own_forward;
    own_behind = omega (arith, a.current, a.own_behind);
  }
  last-Followed limit count s (false, s') a below = record {
    forward = omega (arith, a.current);
    bounded = omega (arith, a.current);
    counted = omega (arith, a.current);
    reported = refl;
    own_forward = a.own_forward;
    own_behind = omega (arith, a.current, a.own_behind);
  }

  -- A position was processed, and the rest has followed.
  step-Followed :
      (limit count : ℕ) (s s' : Slider M) (out : SliderResult × Slider M)
      → s'.current ≡ s.current + 1
      → s.own ≤ s'.own
      → Followed limit (count + 1) s' out
      → Followed limit count s out
  step-Followed limit count s s' out next own f = record {
    forward = omega (arith, f.forward);
    bounded = f.bounded;
    counted = omega (arith, f.counted);
    reported = f.reported;
    own_forward = omega (arith, f.own_forward);
    own_behind = f.own_behind;
  }

  module _ (next : ℕ → Slider M → SliderResult × Slider M) (limit count : ℕ) (s : Slider M)
      (room : s.current + 1 ≤ limit) (behind : s.own ≤ s.current)
      (rest : (s' : Slider M)
        → s'.current ≡ s.current + 1
        → s'.own ≤ s'.current
        → Followed limit (count + 1) s' (next (count + 1) s')) where
    decided-Followed :
        (moved : Slider M) (r : Bool × Slider M)
        → moved.current ≡ s.current + 1
        → moved.own ≡ s.own
        → Applied moved r
        → Followed limit count s (after_decision stage next (count + 1) r)
    decided-Followed moved (true, s') step own a =
        step-Followed limit count s s' (next (count + 1) s') (a.current ∙ step)
          (omega (arith, a.own_forward, own))
          (rest s' (a.current ∙ step) (omega (arith, a.current, a.own_behind)))
    decided-Followed moved (false, s') step own a =
        step-Followed limit count s s' _ (a.current ∙ step) (omega (arith, a.own_forward, own)) (
          stopped-Followed SliderStatus.publish_failed limit (count + 1) s'
            (omega (arith, a.current, a.own_behind)) (omega (arith, a.current, step)))

    module-Followed : (r : Bool × M) → Followed limit count s (after_module stage next count s r)
    unfolding after_module
    module-Followed (true, m) =
        let moved : Slider M = record s { current = s.current + 1; state = m } in
        decided-Followed moved _ refl refl (
          apply-Applied (stage.after_process (s.current + 1) m).0
            (stage.after_process (s.current + 1) m).1 moved (omega arith))
    module-Followed (false, m) = record {
      forward = omega arith;
      bounded = omega arith;
      counted = omega arith;
      reported = refl;
      own_forward = omega arith;
      own_behind = behind;
    }

    unseen :
        {status : ViewStatus}
        → Followed limit count s (
          record {
            status = SliderStatus.view_unavailable;
            current = s.current;
            processed_count = count;
            view_status = status;
          },
          s,
        )
    unseen = record {
      forward = omega arith;
      bounded = omega arith;
      counted = omega arith;
      reported = refl;
      own_forward = omega arith;
      own_behind = behind;
    }

    view-Followed :
        (view : RecordView) (status : ViewStatus)
        → Followed limit count s (after_view stage next count s view status)
    unfolding after_view
    view-Followed view ViewStatus.ok = module-Followed (stage.process view s.state)
    view-Followed view ViewStatus.closed = unseen
    view-Followed view ViewStatus.reclaimed = unseen
    view-Followed view ViewStatus.unpublished = unseen

  loop-Followed :
      (left limit first count : ℕ) (s : Slider M)
      → s.own ≤ s.current
      → s.current + left ≤ limit
      → Followed limit count s (process_loop stage left first count s)
  unfolding process_loop
  loop-Followed zero limit first count s behind below =
      last-Followed limit count s _
        (apply-Applied (stage.after_range first s.current s.state).0
          (stage.after_range first s.current s.state).1 s behind)
        (omega arith)
  loop-Followed (suc left) limit first count s behind below =
      view-Followed (process_loop stage left first) limit count s (omega arith) behind
        (λ s' step own. loop-Followed left limit first (count + 1) s' own (omega arith))
        (stage.try_view s.current).record_view (stage.try_view s.current).status

  range-Followed :
      (range : PositionRange) (available_end : ℕ) (s : Slider M)
      → s.own ≤ s.current
      → s.current ≤ available_end
      → Followed available_end 0 s (after_acquire stage available_end s range)
  unfolding after_acquire
  range-Followed range available_end s behind below =
      if_cases (Followed available_end 0 s)
        (not (range.begin == s.current) || ltb range.end range.begin || ltb available_end range.end)
        (λ bad. stopped-Followed SliderStatus.invalid_range available_end 0 s behind below)
        (λ good.
          if_cases (Followed available_end 0 s) (range.begin == range.end)
            (λ none_left. stopped-Followed SliderStatus.empty available_end 0 s behind below)
            (λ some_left.
              loop-Followed (range.end - s.current) available_end s.current 0 s behind
                (ground (arith, good))))

  -- For any source of views, module and policies, and a slider whose progress is not ahead of its
  -- position and whose position is not ahead of the upstream, `process_available` leaves the
  -- position between the old one and the upstream's, has moved it by exactly the count it
  -- reports, and leaves the progress between the old progress and the position.
  pub process_available-Followed :
      (acquire : ℕ → ℕ → PositionRange) (available_end : ℕ) (s : Slider M)
      → s.own ≤ s.current
      → s.current ≤ available_end
      → Followed available_end 0 s (process_available stage acquire available_end s)
  unfolding process_available
  process_available-Followed acquire available_end s behind below =
      if_cases (Followed available_end 0 s) (not (s.own == s.current))
        (λ mismatch. stopped-Followed SliderStatus.progress_mismatch available_end 0 s behind below)
        (λ same.
          if_cases (Followed available_end 0 s) (ltb available_end s.current)
            (λ regressed.
              stopped-Followed SliderStatus.upstream_regression available_end 0 s behind below)
            (λ ahead.
              range-Followed (acquire s.current available_end) available_end s behind below))
