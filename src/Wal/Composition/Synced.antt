-- ===== src/Wal/Composition/Synced.antt =====
-- persistence.cpp and persistence_slider.hpp: what stands in the physical log when the durable progress
-- moves.
use ll_exp.Prelude.{
  ℕ, zero, suc, ◌+◌, ◌-◌, ◌≤◌, ◌<◌, ◌≡◌, refl, sym, ap, ◌∙◌, arith, Bool, true, false, not, ◌||◌,
  some, List, [], ◌++◌, ◌⊎◌, inl, inr, Bool-cases, if_cases, ltb, ◌==◌,
}
use mathlib.Core.List.{append_assoc, append-nil}
use mathlib.Core.Path.{subst}
use ll_exp.Wal.Types.{ViewStatus}
use ll_exp.Wal.Core.{WalCore, try_view}
use ll_exp.Wal.Format.{WalConfig}
use ll_exp.Wal.Disk.{Answer, PhysicalWalAdapter, first_answer, later_answers}
use ll_exp.Wal.Disk.Append.{record_bytes}
use ll_exp.Wal.Slider.{
  PublishDecision, SliderResult, Slider, PositionRange, apply_publish_decision, publish_progress,
  after_last, after_module, after_view, process_loop, after_acquire, process_available,
}
use ll_exp.Wal.Persistence.Outcomes.{
  Stored, AppendOutcome, process-outcome, SyncOutcome, sync-outcome,
}
use ll_exp.Wal.Persistence.{
  PersistenceModule, process, sync_persistence, after_process, after_sync, after_range,
  persistence_stage,
}

-- The bytes of the records at the `n` positions from `begin` on.
unfoldable pub records_of : WalCore → WalConfig → ℕ → ℕ → List ℕ
records_of core c begin zero = []
records_of core c begin (suc n) =
    let view = (try_view core begin).record_view in
    record_bytes c view.sequence view.payload ++ records_of core c (begin + 1) n

-- From the persistence `p` to `p'`, the file has got the records of the positions from `begin` to
-- `end`, each of them a record that the log shows, and then the system has answered the
-- synchronization of the file (`synced` is the adapter before it) with success.
pub record Flushed (core : WalCore) (begin : ℕ) (p : PersistenceModule) (end : ℕ)
    (p' : PersistenceModule) : Type 0 where
  pub count : ℕ
  pub reached : begin + count ≡ end
  pub shown : (k : ℕ) → begin ≤ k → k < end → (try_view core k).status ≡ ViewStatus.ok
  pub before : PhysicalWalAdapter
  pub opened : p.physical_wal ≡ some before
  pub synced : PhysicalWalAdapter
  pub content : synced.content ≡ before.content ++ records_of core before.config begin count
  pub answer : first_answer synced.answers ≡ Answer.done
  pub left : p' ≡ record {
    physical_wal = some (record synced { answers = later_answers synced.answers });
    failed = false;
  }

-- The progress stays, or it moves to the end of what was flushed.
abbrev pub Progressed : WalCore → Slider PersistenceModule → Slider PersistenceModule → Type 0
Progressed core s s' = (s'.own ≡ s.own) ⊎ Flushed core s.current s.state s'.own s'.state

module _ (core : WalCore) where
  -- The end of the loop: the progress moves only when the file was synchronized.
  flush-Progressed :
      (s : Slider PersistenceModule) (r : Bool × PersistenceModule)
      → SyncOutcome s.state r
      → Progressed core s (apply_publish_decision (persistence_stage core) (after_sync r) s).1
  unfolding apply_publish_decision publish_progress
  flush-Progressed s (true, q) settled =
      if_cases (λ (r : Bool × ℕ). Progressed core s (record s { state = q; own = r.1 }))
        (ltb s.current s.own) (λ back. inl refl)
        (λ ahead. inr (record {
          count = 0;
          reached = omega arith;
          shown = λ k low high. absurd (omega arith);
          before = settled.before;
          opened = settled.opened;
          synced = settled.before;
          content = unfold records_of in sym (append-nil settled.before.content);
          answer = settled.answer;
          left = settled.left;
        }))
  flush-Progressed s (false, q) settled = inl refl

  last-Progressed :
      (first : ℕ) (s : Slider PersistenceModule)
      → Progressed core s
          (apply_publish_decision
            (persistence_stage core)
            (after_range first s.current s.state)
            s).1
  unfolding after_range apply_publish_decision
  last-Progressed first s =
      if_cases
        (λ (d : PublishDecision × PersistenceModule).
          Progressed core s (apply_publish_decision (persistence_stage core) d s).1)
        (first == s.current) (λ same. inl refl)
        (λ moved. flush-Progressed s (sync_persistence s.state) (sync-outcome s.state))

  more_content :
      (begin end : ℕ) (p q p' : PersistenceModule)
      (stored : Stored (try_view core begin).record_view p q)
      (f : Flushed core (begin + 1) q end p')
      → f.synced.content
        ≡ stored.before.content ++ records_of core stored.before.config begin (suc f.count)
  unfolding records_of
  more_content begin end p q p' stored f =
      let opened : some f.before ≡ some stored.after =
        sym f.opened ∙ ap (λ (m : PersistenceModule). m.physical_wal) stored.left in
      let same : f.before ≡ stored.after = cc in
      f.content ∙ simp (same, stored.grown.content, stored.grown.config, append_assoc)

  -- A record more before what was flushed.
  one_more :
      (begin end : ℕ) (p q p' : PersistenceModule)
      → (try_view core begin).status ≡ ViewStatus.ok
      → Stored (try_view core begin).record_view p q
      → Flushed core (begin + 1) q end p'
      → Flushed core begin p end p'
  unfolding records_of
  one_more begin end p q p' seen stored f = record {
    count = suc f.count;
    reached = omega (arith, f.reached);
    shown = λ k low high. elim (Bool-cases (k == begin)) [
      | inl same ↦ ap (λ (n : ℕ). (try_view core n).status) (ground (arith, same)) ∙ seen
      | inr other ↦ f.shown k (ground (arith, other)) high
    ];
    before = stored.before;
    opened = stored.opened;
    synced = f.synced;
    content = more_content begin end p q p' stored f;
    answer = f.answer;
    left = f.left;
  }

  module _ (next : ℕ → Slider PersistenceModule → SliderResult × Slider PersistenceModule)
      (rest : (count : ℕ) (s : Slider PersistenceModule) → Progressed core s (next count s).1)
      (count : ℕ) (s : Slider PersistenceModule) where
    -- Where the progress is behind the position, a position more keeps the outcome.
    module-Progressed :
        (r : Bool × PersistenceModule)
        → (try_view core s.current).status ≡ ViewStatus.ok
        → AppendOutcome (try_view core s.current).record_view s.state r
        → Progressed core s (after_module (persistence_stage core) next count s r).1
    unfolding after_module after_process apply_publish_decision
    module-Progressed (false, q) seen stored = inl refl
    module-Progressed (true, q) seen stored =
        let moved : Slider PersistenceModule = record s { current = s.current + 1; state = q } in
        elim (rest (count + 1) moved) [
          | inl same ↦ inl same
          | inr f ↦ inr (one_more s.current _ s.state q _ seen stored f)
        ]

    view-Progressed :
        (status : ViewStatus)
        → (try_view core s.current).status ≡ status
        → Progressed core s
            (after_view
              (persistence_stage core)
              next
              count
              s
              (try_view core s.current).record_view
              status).1
    unfolding after_view
    view-Progressed ViewStatus.ok seen =
        module-Progressed (process (try_view core s.current).record_view s.state) seen
          (process-outcome (try_view core s.current).record_view s.state)
    view-Progressed ViewStatus.closed seen = inl refl
    view-Progressed ViewStatus.reclaimed seen = inl refl
    view-Progressed ViewStatus.unpublished seen = inl refl

  after_last-slider :
      (count : ℕ) (r : Bool × Slider PersistenceModule)
      → (after_last (persistence_stage core) count r).1 ≡ r.1
  after_last-slider count (true, s) = refl
  after_last-slider count (false, s) = refl

  loop-Progressed :
      (left first count : ℕ) (s : Slider PersistenceModule)
      → Progressed core s (process_loop (persistence_stage core) left first count s).1
  unfolding process_loop
  loop-Progressed zero first count s =
      rw
        (after_last-slider count
          (apply_publish_decision (persistence_stage core) (after_range first s.current s.state) s))
        (last-Progressed first s)
  loop-Progressed (suc left) first count s =
      view-Progressed (process_loop (persistence_stage core) left first)
        (λ count s. loop-Progressed left first count s) count s (try_view core s.current).status
        refl

  -- As `Progressed`, from the progress itself.
  abbrev Moved : Slider PersistenceModule → SliderResult × Slider PersistenceModule → Type 0
  Moved s r = (r.1.own ≡ s.own) ⊎ Flushed core s.own s.state r.1.own r.1.state

  from_position :
      (s : Slider PersistenceModule) (r : SliderResult × Slider PersistenceModule)
      → s.own ≡ s.current
      → Progressed core s r.1
      → Moved s r
  from_position s r same h =
      subst (λ k. (r.1.own ≡ s.own) ⊎ Flushed core k s.state r.1.own r.1.state) (sym same) h

  -- A run of the persistence's slider over the log: the progress stays, or it was equal to the
  -- position and moves to the end of what was flushed.
  pub slider-Progressed :
      (acquire : ℕ → ℕ → PositionRange) (available_end : ℕ) (s : Slider PersistenceModule)
      → ((process_available (persistence_stage core) acquire available_end s).1.own ≡ s.own)
        ⊎ Flushed core s.own s.state
            (process_available (persistence_stage core) acquire available_end s).1.own
            (process_available (persistence_stage core) acquire available_end s).1.state
  unfolding process_available after_acquire
  slider-Progressed acquire available_end s =
      if_cases (Moved s) (not (s.own == s.current)) (λ mismatch. inl refl)
        (λ same.
          if_cases (Moved s) (ltb available_end s.current) (λ regressed. inl refl)
            (λ ahead.
              let range = acquire s.current available_end in
              if_cases (Moved s)
                (not (range.begin == s.current)
                  || ltb range.end range.begin
                  || ltb available_end range.end)
                (λ bad. inl refl)
                (λ good.
                  if_cases (Moved s) (range.begin == range.end) (λ empty. inl refl)
                    (λ more.
                      from_position s
                        (process_loop (persistence_stage core) (range.end - s.current) s.current 0
                          s)
                        (ground (arith, same))
                        (loop-Progressed (range.end - s.current) s.current 0 s)))))
