-- ===== src/Pipeline/Steps.antt =====
-- command_pipeline.cpp: the equations of the later stages on an open pipeline, branch by branch.
use ll_exp.Prelude.{
  ℕ, ◌+◌, ◌-◌, ◌%◌, ◌≤◌, ◌<◌, ◌≡◌, ◌≢◌, arith, true, false, lt→ltb, ge→ltb, eq→==, ne→==, some,
  none,
}
use native.Mathlib.Nat.{mod-eq_of_lt}
use ll_exp.Book.Types.{u64_mod}
use ll_exp.Pipeline.{
  CommandPipeline, CommandPipelineStatus, RiskResult, ReserveResult, is_pending, slot_at,
  write_slot, refused, done, publish_durable, publish_risk, publish_reserve, try_consume,
}

module _ (p : CommandPipeline) (running : p.is_open ≡ true) where
  pub durable_failed :
      (count : ℕ)
      → p.persistence_failed ≡ true
      → publish_durable count p ≡ (refused CommandPipelineStatus.persistence_failed, p)
  unfolding publish_durable
  durable_failed count broken = simp (running, broken)

  pub durable_zero :
      p.persistence_failed ≡ false
      → publish_durable 0 p ≡ (refused CommandPipelineStatus.invalid_count, p)
  unfolding publish_durable
  durable_zero sound = simp (running, sound)

  pub durable_excess :
      (count : ℕ)
      → p.persistence_failed ≡ false
      → 0 < count
      → (p.head + u64_mod - p.durable) % u64_mod < count
      → publish_durable count p ≡ (refused CommandPipelineStatus.invalid_count, p)
  unfolding publish_durable
  durable_excess count sound some_count excess =
      simp (running, sound, ne→== count 0 (omega arith), lt→ltb _ _ excess)

  pub durable_step :
      (count : ℕ)
      → p.persistence_failed ≡ false
      → 0 < count
      → count ≤ (p.head + u64_mod - p.durable) % u64_mod
      → p.durable + count < u64_mod
      → publish_durable count p ≡ (
        done (slot_at p (p.durable + count - 1)).command.command_sequence (p.durable + count),
        record p { durable = p.durable + count },
      )
  unfolding publish_durable
  durable_step count sound some_count enough small =
      let last : (p.durable + count + u64_mod - 1) % u64_mod ≡ p.durable + count - 1 =
        omega arith in
      simp
        (running, sound, ne→== count 0 (omega arith), ge→ltb _ _ enough, mod-eq_of_lt small, last)

  pub risk_undecided :
      (r : RiskResult)
      → is_pending r.decision ≡ true
      → publish_risk r p ≡ (refused CommandPipelineStatus.invalid_decision, p)
  unfolding publish_risk
  risk_undecided r open_decision = simp (running, open_decision)

  pub risk_idle :
      (r : RiskResult)
      → is_pending r.decision ≡ false
      → p.risk_checked ≡ p.durable
      → publish_risk r p ≡ (refused CommandPipelineStatus.empty, p)
  unfolding publish_risk
  risk_idle r final same = simp (running, final, eq→== p.risk_checked p.durable same)

  pub risk_step :
      (r : RiskResult)
      → is_pending r.decision ≡ false
      → p.risk_checked ≢ p.durable
      → p.risk_checked + 1 < u64_mod
      → publish_risk r p ≡ (
        done (slot_at p p.risk_checked).command.command_sequence (p.risk_checked + 1),
        record p {
          slots = write_slot p p.risk_checked (record (slot_at p p.risk_checked) { risk = r });
          risk_checked = p.risk_checked + 1;
        },
      )
  unfolding publish_risk
  risk_step r final ne small =
      simp (running, final, ne→== p.risk_checked p.durable ne, mod-eq_of_lt small)

  pub reserve_undecided :
      (r : ReserveResult)
      → is_pending r.decision ≡ true
      → publish_reserve r p ≡ (refused CommandPipelineStatus.invalid_decision, p)
  unfolding publish_reserve
  reserve_undecided r open_decision = simp (running, open_decision)

  pub reserve_idle :
      (r : ReserveResult)
      → is_pending r.decision ≡ false
      → p.reserve_checked ≡ p.risk_checked
      → publish_reserve r p ≡ (refused CommandPipelineStatus.empty, p)
  unfolding publish_reserve
  reserve_idle r final same = simp (running, final, eq→== p.reserve_checked p.risk_checked same)

  pub reserve_step :
      (r : ReserveResult)
      → is_pending r.decision ≡ false
      → p.reserve_checked ≢ p.risk_checked
      → p.reserve_checked + 1 < u64_mod
      → publish_reserve r p ≡ (
        done (slot_at p p.reserve_checked).command.command_sequence (p.reserve_checked + 1),
        record p {
          slots =
              write_slot p p.reserve_checked (record (slot_at p p.reserve_checked) { reserve = r });
          reserve_checked = p.reserve_checked + 1;
        },
      )
  unfolding publish_reserve
  reserve_step r final ne small =
      simp (running, final, ne→== p.reserve_checked p.risk_checked ne, mod-eq_of_lt small)

  pub consume_idle :
      p.tail ≡ p.reserve_checked → try_consume p ≡ (refused CommandPipelineStatus.empty, none, p)
  unfolding try_consume
  consume_idle same = simp (running, eq→== p.tail p.reserve_checked same)

  pub consume_step :
      p.tail ≢ p.reserve_checked
      → p.tail + 1 < u64_mod
      → try_consume p ≡ (
        done (slot_at p p.tail).command.command_sequence (p.tail + 1),
        some (slot_at p p.tail),
        record p { tail = p.tail + 1 },
      )
  unfolding try_consume
  consume_step ne small = simp (running, ne→== p.tail p.reserve_checked ne, mod-eq_of_lt small)
