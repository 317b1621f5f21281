-- ===== src/Pipeline/Publish.antt =====
-- command_pipeline.cpp: publishing a command into a pipeline that stands for three sequences.
use ll_exp.Prelude.{
  ℕ, ◌+◌, ◌-◌, ◌%◌, ◌<◌, ◌≡◌, ◌≢◌, refl, sym, ◌∙◌, arith, true, false, [], ◌∷◌, ◌++◌, inl, inr,
  Bool-cases, length, get_or, length-set, length-append, get_or-append_last, get_or-append_ne,
  get_or-beyond, eq→==, ne→==,
}
use native.Mathlib.Nat.{mod-eq_of_lt}
use native.Mathlib.Decide.{ℕ_discrete}
use ll_exp.Book.Types.{u64_mod}
use ll_exp.Matcher.Types.{CommandEnvelope}
use ll_exp.Pipeline.{
  CommandPipeline, CommandPipelineResult, CommandPipelineStatus, CommandRingSlot, RiskResult,
  ReserveResult, empty_command, empty_risk, empty_reserve, write_slot, refused, done,
  try_publish_envelope,
}
use ll_exp.Pipeline.Queue.{History, Models, expected, written_contents}

-- The sequences with one more entry.
abbrev pub with_command : History → CommandEnvelope → History
with_command h c = record h { commands = h.commands ++ c ∷ [] }

abbrev pub with_risk : History → RiskResult → History
with_risk h r = record h { risks = h.risks ++ r ∷ [] }

abbrev pub with_reserve : History → ReserveResult → History
with_reserve h r = record h { reserves = h.reserves ++ r ∷ [] }

-- The outcomes of `try_publish_envelope`.
pub data Enqueued (p : CommandPipeline) (h : History) (command : CommandEnvelope)
    : CommandPipelineResult × CommandPipeline → Type 0 where
  accepted :
      {p' : CommandPipeline}
      → p.persistence_failed ≡ false
      → p.head < p.tail + p.config.capacity
      → Models p' (with_command h command)
      → Enqueued p h command (done command.command_sequence (p.head + 1), p')
  no_room :
      p.head ≡ p.tail + p.config.capacity
      → Enqueued p h command (refused CommandPipelineStatus.full, p)
  failed :
      p.persistence_failed ≡ true
      → Enqueued p h command (refused CommandPipelineStatus.persistence_failed, p)

pub expected-parts :
    (h h' : History) (i : ℕ)
    → get_or h.commands i empty_command ≡ get_or h'.commands i empty_command
    → get_or h.risks i empty_risk ≡ get_or h'.risks i empty_risk
    → get_or h.reserves i empty_reserve ≡ get_or h'.reserves i empty_reserve
    → expected h i ≡ expected h' i
expected-parts h h' i c r s = cc

-- What an operation that adds one entry leaves as it is.
expected-with_command :
    (h : History) (c : CommandEnvelope) (i : ℕ)
    → i ≢ length h.commands
    → expected h i ≡ expected (with_command h c) i
expected-with_command h c i ne =
    expected-parts h (with_command h c) i (sym (get_or-append_ne h.commands c empty_command i ne))
      refl refl

pub expected-with_risk :
    (h : History) (r : RiskResult) (i : ℕ)
    → i ≢ length h.risks
    → expected h i ≡ expected (with_risk h r) i
expected-with_risk h r i ne =
    expected-parts h (with_risk h r) i refl (sym (get_or-append_ne h.risks r empty_risk i ne)) refl

pub expected-with_reserve :
    (h : History) (r : ReserveResult) (i : ℕ)
    → i ≢ length h.reserves
    → expected h i ≡ expected (with_reserve h r) i
expected-with_reserve h r i ne =
    expected-parts h (with_reserve h r) i refl refl
      (sym (get_or-append_ne h.reserves r empty_reserve i ne))

-- The equations of the calls on the branches that an open pipeline takes.
module _ (p : CommandPipeline) (command : CommandEnvelope) (running : p.is_open ≡ true) where
  publish_failed :
      p.persistence_failed ≡ true
      → try_publish_envelope command p ≡ (refused CommandPipelineStatus.persistence_failed, p)
  unfolding try_publish_envelope
  publish_failed broken = simp (running, broken)

  publish_full :
      p.persistence_failed ≡ false
      → (p.head + u64_mod - p.tail) % u64_mod ≡ p.config.capacity
      → try_publish_envelope command p ≡ (refused CommandPipelineStatus.full, p)
  unfolding try_publish_envelope
  publish_full sound full = simp (running, sound, eq→== _ _ full)

  publish_step :
      p.persistence_failed ≡ false
      → (p.head + u64_mod - p.tail) % u64_mod ≢ p.config.capacity
      → p.head + 1 < u64_mod
      → try_publish_envelope command p ≡ (
        done command.command_sequence (p.head + 1),
        record p {
          slots =
              write_slot p p.head
                (record { command = command; risk = empty_risk; reserve = empty_reserve });
          head = p.head + 1;
        },
      )
  unfolding try_publish_envelope
  publish_step sound vacant next = simp (running, sound, ne→== _ _ vacant, mod-eq_of_lt next)

module _ (p : CommandPipeline) (h : History) (v : Models p h) where
  -- A command that was just published has no decision.
  new_command :
      (command : CommandEnvelope)
      → ◌≡◌ {A = CommandRingSlot}
          (record { command = command; risk = empty_risk; reserve = empty_reserve })
          (expected (with_command h command) p.head)
  new_command command =
      rw
        (
          v.published,
          get_or-append_last h.commands command empty_command,
          get_or-beyond h.risks (length h.commands) empty_risk
              (omega (arith, v.published, v.risk_decided, v.risked_in_order, v.durable_in_order)),
          get_or-beyond h.reserves (length h.commands) empty_reserve (
              omega (
                arith, v.published, v.reserve_decided, v.reserved_in_order, v.risked_in_order,
                v.durable_in_order,
              )),
        )
        refl

  difference : (p.head + u64_mod - p.tail) % u64_mod ≡ p.head - p.tail
  difference = omega (
    arith, v.consumed_in_order, v.reserved_in_order, v.risked_in_order, v.durable_in_order, v.small,
  )

  enqueued-Models :
      (command : CommandEnvelope)
      → p.head < p.tail + p.config.capacity
      → p.head + 1 < u64_mod
      → Models
          (record p {
            slots =
                write_slot p p.head
                  (record { command = command; risk = empty_risk; reserve = empty_reserve });
            head = p.head + 1;
          })
          (with_command h command)
  enqueued-Models command vacant next = record {
    running = v.running;
    published = rw length-append (omega (arith, v.published));
    risk_decided = v.risk_decided;
    reserve_decided = v.reserve_decided;
    consumed_in_order = v.consumed_in_order;
    reserved_in_order = v.reserved_in_order;
    risked_in_order = v.risked_in_order;
    durable_in_order = omega (arith, v.durable_in_order);
    bounded = omega (arith, vacant);
    room = v.room;
    sized = rw length-set v.sized;
    narrow = v.narrow;
    small = next;
    risks_final = v.risks_final;
    reserves_final = v.reserves_final;
    contents =
        written_contents p h v p.head _ (omega arith) vacant (with_command h command) (p.head + 1)
          (omega arith) (new_command command)
          (λ i other from below.
            (omega arith, expected-with_command h command i (λ e. other (e ∙ sym v.published))));
  }

  pub try_publish_envelope-Enqueued :
      (command : CommandEnvelope)
      → p.head + 1 < u64_mod
      → Enqueued p h command (try_publish_envelope command p)
  try_publish_envelope-Enqueued command next = elim (Bool-cases p.persistence_failed) [
    | inl broken ↦ rw (publish_failed p command v.running broken) (failed broken)
    | inr sound ↦ elim (ℕ_discrete (p.head - p.tail) p.config.capacity) [
      | yes full ↦
          rw (publish_full p command v.running sound (difference ∙ full))
            (no_room (omega (arith, v.room)))
      | no vacant ↦
          let space : p.head < p.tail + p.config.capacity = omega (arith, v.bounded) in
          rw (publish_step p command v.running sound (λ e. vacant (sym difference ∙ e)) next)
            (accepted sound space (enqueued-Models command space next))
    ]
  ]
