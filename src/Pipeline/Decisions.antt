-- ===== src/Pipeline/Decisions.antt =====
-- command_pipeline.cpp: the stages behind the producer, on a pipeline that stands for three
-- sequences: persistence, risk, reserve and the consumer.
use ll_exp.Prelude.{
  ℕ, ◌+◌, ◌-◌, ◌%◌, ◌≤◌, ◌<◌, ◌≡◌, refl, sym, ap, ◌∙◌, arith, true, false, [], ◌∷◌, ◌++◌, ◌⊎◌, inl,
  inr, Bool-cases, length, get_or, length-set, length-append, get_or-append_last, get_or-append_ne,
  Option, some, none,
}
use native.Mathlib.Decide.{ℕ_discrete, dec_lt}
use ll_exp.Book.Types.{u64_mod}
use ll_exp.Pipeline.{
  CommandPipeline, CommandPipelineResult, CommandPipelineStatus, CommandRingSlot, RiskResult,
  ReserveResult, empty_command, empty_risk, empty_reserve, is_pending, slot_at, write_slot, refused,
  done, publish_durable, publish_risk, publish_reserve, try_consume,
}
use ll_exp.Pipeline.Queue.{History, Models, expected, written_contents}
use ll_exp.Pipeline.Publish.{with_risk, with_reserve, expected-with_risk, expected-with_reserve}
use ll_exp.Pipeline.Steps.{
  durable_failed, durable_zero, durable_excess, durable_step, risk_undecided, risk_idle, risk_step,
  reserve_undecided, reserve_idle, reserve_step, consume_idle, consume_step,
}

-- The outcomes of `publish_durable`.
pub data Persisted (p : CommandPipeline) (h : History) (count : ℕ)
    : CommandPipelineResult × CommandPipeline → Type 0 where
  advanced :
      p.persistence_failed ≡ false
      → 0 < count
      → p.durable + count ≤ p.head
      → Models (record p { durable = p.durable + count }) h
      → Persisted p h count (
        done
            (get_or h.commands (p.durable + count - 1) empty_command).command_sequence
            (p.durable + count),
        record p { durable = p.durable + count },
      )
  bad_count :
      (count ≡ 0) ⊎ (p.head < p.durable + count)
      → Persisted p h count (refused CommandPipelineStatus.invalid_count, p)
  failed :
      p.persistence_failed ≡ true
      → Persisted p h count (refused CommandPipelineStatus.persistence_failed, p)

-- The outcomes of `publish_risk`.
pub data Risked (p : CommandPipeline) (h : History) (r : RiskResult)
    : CommandPipelineResult × CommandPipeline → Type 0 where
  decided :
      {p' : CommandPipeline}
      → p.risk_checked < p.durable
      → is_pending r.decision ≡ false
      → Models p' (with_risk h r)
      → Risked p h r (
        done (get_or h.commands p.risk_checked empty_command).command_sequence (p.risk_checked + 1),
        p',
      )
  undecided :
      is_pending r.decision ≡ true
      → Risked p h r (refused CommandPipelineStatus.invalid_decision, p)
  idle : p.risk_checked ≡ p.durable → Risked p h r (refused CommandPipelineStatus.empty, p)

-- The outcomes of `publish_reserve`.
pub data Reserved (p : CommandPipeline) (h : History) (r : ReserveResult)
    : CommandPipelineResult × CommandPipeline → Type 0 where
  decided :
      {p' : CommandPipeline}
      → p.reserve_checked < p.risk_checked
      → is_pending r.decision ≡ false
      → Models p' (with_reserve h r)
      → Reserved p h r (
        done
            (get_or h.commands p.reserve_checked empty_command).command_sequence
            (p.reserve_checked + 1),
        p',
      )
  undecided :
      is_pending r.decision ≡ true
      → Reserved p h r (refused CommandPipelineStatus.invalid_decision, p)
  idle :
      p.reserve_checked ≡ p.risk_checked → Reserved p h r (refused CommandPipelineStatus.empty, p)

-- The outcomes of `try_consume`.
pub data Consumed (p : CommandPipeline) (h : History)
    : CommandPipelineResult × Option CommandRingSlot × CommandPipeline → Type 0 where
  taken :
      p.tail < p.reserve_checked
      → is_pending (expected h p.tail).risk.decision ≡ false
      → is_pending (expected h p.tail).reserve.decision ≡ false
      → Models (record p { tail = p.tail + 1 }) h
      → Consumed p h (
        done (expected h p.tail).command.command_sequence (p.tail + 1),
        some (expected h p.tail),
        record p { tail = p.tail + 1 },
      )
  idle : p.tail ≡ p.reserve_checked → Consumed p h (refused CommandPipelineStatus.empty, none, p)

risks_final-with_risk :
    (h : History) (r : RiskResult)
    → is_pending r.decision ≡ false
    → ((i : ℕ) → i < length h.risks → is_pending (get_or h.risks i empty_risk).decision ≡ false)
    → (i : ℕ) → i < length (with_risk h r).risks
    → is_pending (get_or (with_risk h r).risks i empty_risk).decision ≡ false
risks_final-with_risk h r final old i below = elim (ℕ_discrete i (length h.risks)) [
  | yes same ↦ rw (same, get_or-append_last h.risks r empty_risk) final
  | no other ↦
      rw (get_or-append_ne h.risks r empty_risk i other)
        (old i (omega (arith, length-append h.risks (r ∷ []), below)))
]

reserves_final-with_reserve :
    (h : History) (r : ReserveResult)
    → is_pending r.decision ≡ false
    → ((i : ℕ)
        → i < length h.reserves
        → is_pending (get_or h.reserves i empty_reserve).decision ≡ false)
    → (i : ℕ) → i < length (with_reserve h r).reserves
    → is_pending (get_or (with_reserve h r).reserves i empty_reserve).decision ≡ false
reserves_final-with_reserve h r final old i below = elim (ℕ_discrete i (length h.reserves)) [
  | yes same ↦ rw (same, get_or-append_last h.reserves r empty_reserve) final
  | no other ↦
      rw (get_or-append_ne h.reserves r empty_reserve i other)
        (old i (omega (arith, length-append h.reserves (r ∷ []), below)))
]

module _ (p : CommandPipeline) (h : History) (v : Models p h) where
  -- The durable frontier moves within what was published.
  durable-Models : (d : ℕ) → p.durable ≤ d → d ≤ p.head → Models (record p { durable = d }) h
  durable-Models d low high = record {
    running = v.running;
    published = v.published;
    risk_decided = v.risk_decided;
    reserve_decided = v.reserve_decided;
    consumed_in_order = v.consumed_in_order;
    reserved_in_order = v.reserved_in_order;
    risked_in_order = omega (arith, v.risked_in_order);
    durable_in_order = high;
    bounded = v.bounded;
    room = v.room;
    sized = v.sized;
    narrow = v.narrow;
    small = v.small;
    risks_final = v.risks_final;
    reserves_final = v.reserves_final;
    contents = v.contents;
  }

  tail-Models : p.tail < p.reserve_checked → Models (record p { tail = p.tail + 1 }) h
  tail-Models waiting = record {
    running = v.running;
    published = v.published;
    risk_decided = v.risk_decided;
    reserve_decided = v.reserve_decided;
    consumed_in_order = omega arith;
    reserved_in_order = v.reserved_in_order;
    risked_in_order = v.risked_in_order;
    durable_in_order = v.durable_in_order;
    bounded = omega (arith, v.bounded);
    room = v.room;
    sized = v.sized;
    narrow = v.narrow;
    small = v.small;
    risks_final = v.risks_final;
    reserves_final = v.reserves_final;
    contents = λ i from below. v.contents i (omega arith) below;
  }

  sequence_at :
      (i : ℕ)
      → p.tail ≤ i
      → i < p.head
      → (slot_at p i).command.command_sequence
        ≡ (get_or h.commands i empty_command).command_sequence
  sequence_at i from below = ap (λ slot. slot.command.command_sequence) (v.contents i from below)

  risk_written :
      (r : RiskResult)
      → p.risk_checked < p.durable
      → ◌≡◌ {A = CommandRingSlot}
          (record (slot_at p p.risk_checked) { risk = r })
          (expected (with_risk h r) p.risk_checked)
  risk_written r waiting =
      let old =
        v.contents p.risk_checked (omega (arith, v.consumed_in_order, v.reserved_in_order))
          (omega (arith, v.durable_in_order)) in
      let last : get_or (h.risks ++ r ∷ []) p.risk_checked empty_risk ≡ r =
        rw v.risk_decided (get_or-append_last h.risks r empty_risk) in
      rw (old, last) refl

  reserve_written :
      (r : ReserveResult)
      → p.reserve_checked < p.risk_checked
      → ◌≡◌ {A = CommandRingSlot}
          (record (slot_at p p.reserve_checked) { reserve = r })
          (expected (with_reserve h r) p.reserve_checked)
  reserve_written r waiting =
      let old =
        v.contents p.reserve_checked v.consumed_in_order
          (omega (arith, v.risked_in_order, v.durable_in_order)) in
      let last : get_or (h.reserves ++ r ∷ []) p.reserve_checked empty_reserve ≡ r =
        rw v.reserve_decided (get_or-append_last h.reserves r empty_reserve) in
      rw (old, last) refl

  risk-Models :
      (r : RiskResult)
      → is_pending r.decision ≡ false
      → p.risk_checked < p.durable
      → Models
          (record p {
            slots = write_slot p p.risk_checked (record (slot_at p p.risk_checked) { risk = r });
            risk_checked = p.risk_checked + 1;
          })
          (with_risk h r)
  risk-Models r final waiting = record {
    running = v.running;
    published = v.published;
    risk_decided = rw length-append (omega (arith, v.risk_decided));
    reserve_decided = v.reserve_decided;
    consumed_in_order = v.consumed_in_order;
    reserved_in_order = omega (arith, v.reserved_in_order);
    risked_in_order = omega arith;
    durable_in_order = v.durable_in_order;
    bounded = v.bounded;
    room = v.room;
    sized = rw length-set v.sized;
    narrow = v.narrow;
    small = v.small;
    risks_final = risks_final-with_risk h r final v.risks_final;
    reserves_final = v.reserves_final;
    contents =
        written_contents p h v p.risk_checked _
          (omega (arith, v.consumed_in_order, v.reserved_in_order))
          (omega (arith, v.durable_in_order, v.bounded)) (with_risk h r) p.head v.bounded
          (risk_written r waiting)
          (λ i other from below.
            (below, expected-with_risk h r i (λ e. other (e ∙ sym v.risk_decided))));
  }

  reserve-Models :
      (r : ReserveResult)
      → is_pending r.decision ≡ false
      → p.reserve_checked < p.risk_checked
      → Models
          (record p {
            slots =
                write_slot p p.reserve_checked
                  (record (slot_at p p.reserve_checked) { reserve = r });
            reserve_checked = p.reserve_checked + 1;
          })
          (with_reserve h r)
  reserve-Models r final waiting = record {
    running = v.running;
    published = v.published;
    risk_decided = v.risk_decided;
    reserve_decided = rw length-append (omega (arith, v.reserve_decided));
    consumed_in_order = omega (arith, v.consumed_in_order);
    reserved_in_order = omega arith;
    risked_in_order = v.risked_in_order;
    durable_in_order = v.durable_in_order;
    bounded = v.bounded;
    room = v.room;
    sized = rw length-set v.sized;
    narrow = v.narrow;
    small = v.small;
    risks_final = v.risks_final;
    reserves_final = reserves_final-with_reserve h r final v.reserves_final;
    contents =
        written_contents p h v p.reserve_checked _ v.consumed_in_order
          (omega (arith, v.risked_in_order, v.durable_in_order, v.bounded)) (with_reserve h r)
          p.head v.bounded (reserve_written r waiting)
          (λ i other from below.
            (below, expected-with_reserve h r i (λ e. other (e ∙ sym v.reserve_decided))));
  }

  -- On a pipeline that stands for a history, `publish_durable` is refused after a failed
  -- persistence, and for a count of 0 or beyond the head, and changes nothing; otherwise the
  -- durable frontier moves by the count under the same history.
  pub publish_durable-Persisted : (count : ℕ) → Persisted p h count (publish_durable count p)
  publish_durable-Persisted count =
      let difference : (p.head + u64_mod - p.durable) % u64_mod ≡ p.head - p.durable =
        omega (arith, v.durable_in_order, v.small) in
      elim (Bool-cases p.persistence_failed) [
        | inl broken ↦ rw (durable_failed p v.running count broken) (failed broken)
        | inr sound ↦ elim (ℕ_discrete count 0) [
          | yes none_given ↦
              rw none_given (rw (durable_zero p v.running sound) (bad_count (inl refl)))
          | no some_given ↦ elim (dec_lt (p.head - p.durable) count) [
            | yes excess ↦
                rw (durable_excess p v.running count sound (omega arith) (omega arith))
                  (bad_count (inr (omega (arith, v.durable_in_order))))
            | no within ↦
                rw
                  (
                    durable_step p v.running count sound (omega arith) (omega arith)
                        (omega (arith, v.small, v.durable_in_order)),
                    sequence_at (p.durable + count - 1)
                        (omega (arith, v.consumed_in_order, v.reserved_in_order, v.risked_in_order))
                        (omega (arith, v.durable_in_order)),
                  )
                  (advanced sound (omega arith) (omega (arith, v.durable_in_order)) (
                    durable-Models (p.durable + count) (omega arith)
                      (omega (arith, v.durable_in_order))))
          ]
        ]
      ]

  -- On a pipeline that stands for a history, `publish_risk` refuses a pending decision and a
  -- pipeline with no durable command left, and changes nothing; otherwise the decision becomes
  -- the next of the risk decisions.
  pub publish_risk-Risked : (r : RiskResult) → Risked p h r (publish_risk r p)
  publish_risk-Risked r = elim (Bool-cases (is_pending r.decision)) [
    | inl unset ↦ rw (risk_undecided p v.running r unset) (undecided unset)
    | inr final ↦ elim (ℕ_discrete p.risk_checked p.durable) [
      | yes same ↦ rw (risk_idle p v.running r final same) (idle same)
      | no other ↦
          let waiting : p.risk_checked < p.durable = omega (arith, v.risked_in_order) in
          rw
            (
              risk_step p v.running r final other (omega (arith, v.durable_in_order, v.small)),
              sequence_at p.risk_checked (omega (arith, v.consumed_in_order, v.reserved_in_order))
                  (omega (arith, v.durable_in_order)),
            )
            (decided waiting final (risk-Models r final waiting))
    ]
  ]

  -- On a pipeline that stands for a history, `publish_reserve` refuses a pending decision and a
  -- pipeline with no risk decision left, and changes nothing; otherwise the decision becomes the
  -- next of the reserve decisions.
  pub publish_reserve-Reserved : (r : ReserveResult) → Reserved p h r (publish_reserve r p)
  publish_reserve-Reserved r = elim (Bool-cases (is_pending r.decision)) [
    | inl unset ↦ rw (reserve_undecided p v.running r unset) (undecided unset)
    | inr final ↦ elim (ℕ_discrete p.reserve_checked p.risk_checked) [
      | yes same ↦ rw (reserve_idle p v.running r final same) (idle same)
      | no other ↦
          let waiting : p.reserve_checked < p.risk_checked = omega (arith, v.reserved_in_order) in
          rw
            (
              reserve_step p v.running r final other
                  (omega (arith, v.risked_in_order, v.durable_in_order, v.small)),
              sequence_at p.reserve_checked v.consumed_in_order
                  (omega (arith, v.risked_in_order, v.durable_in_order)),
            )
            (decided waiting final (reserve-Models r final waiting))
    ]
  ]

  -- On a pipeline that stands for a history, `try_consume` is refused as empty exactly where the
  -- tail has reached the reserve frontier, and changes nothing; otherwise it returns the command
  -- at the tail with its risk and reserve decisions, none of which is pending, and the tail moves
  -- on by one under the same history.
  pub try_consume-Consumed : Consumed p h (try_consume p)
  try_consume-Consumed = elim (ℕ_discrete p.tail p.reserve_checked) [
    | yes same ↦ rw (consume_idle p v.running same) (idle same)
    | no other ↦
        let waiting : p.tail < p.reserve_checked = omega (arith, v.consumed_in_order) in
        let published : p.tail < p.head =
          omega (arith, v.reserved_in_order, v.risked_in_order, v.durable_in_order) in
        rw
          (
            consume_step p v.running other (omega (arith, v.small)),
            v.contents p.tail (omega arith) published,
          )
          (taken waiting (v.risks_final p.tail (omega (arith, v.reserved_in_order, v.risk_decided)))
            (v.reserves_final p.tail (omega (arith, v.reserve_decided))) (tail-Models waiting))
  ]
