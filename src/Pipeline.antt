-- ===== src/Pipeline.antt =====
-- exchange/matcher/src/command_pipeline.cpp: the ring of commands with its five frontiers. Each call
-- is one step. An output parameter is an `Option` beside the result: `none` where the call leaves
-- it alone.
pub mod Queue
pub mod Publish
pub mod Live
pub mod Runs
pub mod Steps
pub mod Decisions
use ll_exp.Prelude.{
  ℕ, ◌+◌, ◌-◌, ◌%◌, ◌^◌, ltb, ◌==◌, if◌then◌else◌, Bool, true, false, not, ◌||◌, Option, none, some,
  List, [], get_or, set, replicate,
}
use ll_exp.Book.Types.{u64_mod}
use ll_exp.Matcher.Types.{Command, CommandWalPayload, CommandEnvelope}

pub data CheckDecision : Type 0 where
  pending accepted rejected skipped : CheckDecision

pub record RiskResult : Type 0 where
  pub decision : CheckDecision
  pub reason_code : ℕ

pub record ReserveResult : Type 0 where
  pub decision : CheckDecision
  pub reason_code : ℕ

pub record CommandRingSlot : Type 0 where
  pub command : CommandEnvelope
  pub risk : RiskResult
  pub reserve : ReserveResult

pub record CommandPipelineConfig : Type 0 where
  pub capacity : ℕ
  pub first_sequence : ℕ

pub data CommandPipelineStatus : Type 0 where
  ok empty full invalid_config allocation_failed invalid_count : CommandPipelineStatus
  invalid_decision sequence_exhausted invalid_sequence : CommandPipelineStatus
  persistence_failed closed already_open : CommandPipelineStatus

pub record CommandPipelineResult : Type 0 where
  pub status : CommandPipelineStatus
  pub sequence : ℕ
  pub frontier : ℕ

pub record CommandPipelineSnapshot : Type 0 where
  pub tail : ℕ
  pub reserve_checked : ℕ
  pub risk_checked : ℕ
  pub durable : ℕ
  pub head : ℕ
  pub persistence_failed : Bool

-- The members, with those of the control block.
pub record CommandPipeline : Type 0 where
  pub slots : List CommandRingSlot
  pub tail : ℕ
  pub reserve_checked : ℕ
  pub risk_checked : ℕ
  pub durable : ℕ
  pub head : ℕ
  pub persistence_failed : Bool
  pub config : CommandPipelineConfig
  pub next_live_sequence : ℕ
  pub sequence_exhausted : Bool
  pub is_open : Bool

-- `CommandEnvelope{}`, `RiskResult{}`, `ReserveResult{}` and `CommandRingSlot{}`
abbrev pub empty_command : CommandEnvelope
empty_command = record {
  command_sequence = 0;
  payload = record { client_id = 0; message = Command.none };
}

abbrev pub empty_risk : RiskResult
empty_risk = record { decision = CheckDecision.pending; reason_code = 0 }

abbrev pub empty_reserve : ReserveResult
empty_reserve = record { decision = CheckDecision.pending; reason_code = 0 }

abbrev pub empty_slot : CommandRingSlot
empty_slot = record { command = empty_command; risk = empty_risk; reserve = empty_reserve }

-- A result with a status alone.
abbrev pub refused : CommandPipelineStatus → CommandPipelineResult
refused status = record { status = status; sequence = 0; frontier = 0 }

abbrev pub done : ℕ → ℕ → CommandPipelineResult
done sequence frontier = record {
  status = CommandPipelineStatus.ok;
  sequence = sequence;
  frontier = frontier;
}

abbrev pub is_pending : CheckDecision → Bool
is_pending CheckDecision.pending = true
is_pending CheckDecision.accepted = false
is_pending CheckDecision.rejected = false
is_pending CheckDecision.skipped = false

-- `open`; `allocated` tells whether `make_unique` gave the memory.
unfoldable pub open_pipeline :
    CommandPipelineConfig → Bool → CommandPipeline → CommandPipelineStatus × CommandPipeline
open_pipeline c allocated p =
    if p.is_open
    then (CommandPipelineStatus.already_open, p)
    else if c.capacity == 0 || c.first_sequence == 0
    then (CommandPipelineStatus.invalid_config, p)
    else if not allocated
    then (CommandPipelineStatus.allocation_failed, p)
    else (
      CommandPipelineStatus.ok,
      record {
        slots = replicate c.capacity empty_slot;
        tail = 0;
        reserve_checked = 0;
        risk_checked = 0;
        durable = 0;
        head = 0;
        persistence_failed = false;
        config = c;
        next_live_sequence = c.first_sequence;
        sequence_exhausted = false;
        is_open = true;
      },
    )

abbrev pub slot_at : CommandPipeline → ℕ → CommandRingSlot
slot_at p position = get_or p.slots (position % p.config.capacity) empty_slot

-- A write through `slot_at`.
abbrev pub write_slot : CommandPipeline → ℕ → CommandRingSlot → List CommandRingSlot
write_slot p position slot = set p.slots (position % p.config.capacity) slot

unfoldable pub try_publish_envelope :
    CommandEnvelope → CommandPipeline → CommandPipelineResult × CommandPipeline
try_publish_envelope command p =
    if not p.is_open
    then (refused CommandPipelineStatus.closed, p)
    else if p.persistence_failed
    then (refused CommandPipelineStatus.persistence_failed, p)
    else if (p.head + u64_mod - p.tail) % u64_mod == p.config.capacity
    then (refused CommandPipelineStatus.full, p)
    else (
      done command.command_sequence ((p.head + 1) % u64_mod),
      record p {
        slots =
            write_slot p p.head
              (record { command = command; risk = empty_risk; reserve = empty_reserve });
        head = (p.head + 1) % u64_mod;
      },
    )

-- `try_publish`, from the answer of `try_publish_envelope` on.
unfoldable pub after_envelope :
    ℕ → CommandPipelineResult × CommandPipeline → CommandPipelineResult × CommandPipeline
after_envelope sequence (r, p) = elim r.status [
  | CommandPipelineStatus.ok ↦ (
    r,
    if sequence == u64_mod - 1
        then record p { sequence_exhausted = true }
        else record p { next_live_sequence = sequence + 1 },
  )
  | _ ↦ (r, p)
]

unfoldable pub try_publish :
    CommandWalPayload → CommandPipeline → CommandPipelineResult × CommandPipeline
try_publish payload p =
    if not p.is_open
    then (refused CommandPipelineStatus.closed, p)
    else if p.persistence_failed
    then (refused CommandPipelineStatus.persistence_failed, p)
    else if p.sequence_exhausted
    then (refused CommandPipelineStatus.sequence_exhausted, p)
    else after_envelope p.next_live_sequence (
        try_publish_envelope (record { command_sequence = p.next_live_sequence; payload = payload })
          p)

unfoldable pub try_replay :
    CommandEnvelope → CommandPipeline → CommandPipelineResult × CommandPipeline
try_replay command p =
    if not p.is_open
    then (refused CommandPipelineStatus.closed, p)
    else if p.persistence_failed
    then (refused CommandPipelineStatus.persistence_failed, p)
    else if command.command_sequence == 0
    then (refused CommandPipelineStatus.invalid_sequence, p)
    else try_publish_envelope command p

unfoldable pub restore_live_sequence : ℕ → CommandPipeline → CommandPipelineStatus × CommandPipeline
restore_live_sequence next_sequence p =
    if not p.is_open
    then (CommandPipelineStatus.closed, p)
    else if next_sequence == 0
    then (CommandPipelineStatus.invalid_sequence, p)
    else (
      CommandPipelineStatus.ok,
      record p { next_live_sequence = next_sequence; sequence_exhausted = false },
    )

unfoldable pub copy_pending_for_persistence :
    ℕ → CommandPipeline → CommandPipelineResult × Option CommandEnvelope
copy_pending_for_persistence batch_offset p =
    let position = (p.durable + batch_offset) % u64_mod in
    if not p.is_open
    then (refused CommandPipelineStatus.closed, none)
    else if p.persistence_failed
    then (refused CommandPipelineStatus.persistence_failed, none)
    else if ltb position p.durable || not (ltb position p.head)
    then (refused CommandPipelineStatus.empty, none)
    else (
      done (slot_at p position).command.command_sequence position,
      some (slot_at p position).command,
    )

unfoldable pub publish_durable : ℕ → CommandPipeline → CommandPipelineResult × CommandPipeline
publish_durable count p =
    if not p.is_open
    then (refused CommandPipelineStatus.closed, p)
    else if p.persistence_failed
    then (refused CommandPipelineStatus.persistence_failed, p)
    else if count == 0
    then (refused CommandPipelineStatus.invalid_count, p)
    else if ltb ((p.head + u64_mod - p.durable) % u64_mod) count
    then (refused CommandPipelineStatus.invalid_count, p)
    else (
      done
          (slot_at p
            (((p.durable + count) % u64_mod + u64_mod - 1) % u64_mod)).command.command_sequence
          ((p.durable + count) % u64_mod),
      record p { durable = (p.durable + count) % u64_mod },
    )

unfoldable pub fail_persistence : CommandPipeline → CommandPipeline
fail_persistence p = if not p.is_open then p else record p { persistence_failed = true }

unfoldable pub try_read_for_risk : CommandPipeline → CommandPipelineResult × Option CommandEnvelope
try_read_for_risk p =
    if not p.is_open
    then (refused CommandPipelineStatus.closed, none)
    else if p.risk_checked == p.durable
    then (refused CommandPipelineStatus.empty, none)
    else (
      done (slot_at p p.risk_checked).command.command_sequence p.risk_checked,
      some (slot_at p p.risk_checked).command,
    )

unfoldable pub publish_risk : RiskResult → CommandPipeline → CommandPipelineResult × CommandPipeline
publish_risk result p =
    if not p.is_open
    then (refused CommandPipelineStatus.closed, p)
    else if is_pending result.decision
    then (refused CommandPipelineStatus.invalid_decision, p)
    else if p.risk_checked == p.durable
    then (refused CommandPipelineStatus.empty, p)
    else (
      done (slot_at p p.risk_checked).command.command_sequence ((p.risk_checked + 1) % u64_mod),
      record p {
        slots = write_slot p p.risk_checked (record (slot_at p p.risk_checked) { risk = result });
        risk_checked = (p.risk_checked + 1) % u64_mod;
      },
    )

unfoldable pub try_read_for_reserve :
    CommandPipeline → CommandPipelineResult × Option (CommandEnvelope × RiskResult)
try_read_for_reserve p =
    if not p.is_open
    then (refused CommandPipelineStatus.closed, none)
    else if p.reserve_checked == p.risk_checked
    then (refused CommandPipelineStatus.empty, none)
    else (
      done (slot_at p p.reserve_checked).command.command_sequence p.reserve_checked,
      some ((slot_at p p.reserve_checked).command, (slot_at p p.reserve_checked).risk),
    )

unfoldable pub publish_reserve :
    ReserveResult → CommandPipeline → CommandPipelineResult × CommandPipeline
publish_reserve result p =
    if not p.is_open
    then (refused CommandPipelineStatus.closed, p)
    else if is_pending result.decision
    then (refused CommandPipelineStatus.invalid_decision, p)
    else if p.reserve_checked == p.risk_checked
    then (refused CommandPipelineStatus.empty, p)
    else (
      done (slot_at p p.reserve_checked).command.command_sequence
          ((p.reserve_checked + 1) % u64_mod),
      record p {
        slots =
            write_slot p p.reserve_checked
              (record (slot_at p p.reserve_checked) { reserve = result });
        reserve_checked = (p.reserve_checked + 1) % u64_mod;
      },
    )

unfoldable pub try_consume :
    CommandPipeline → CommandPipelineResult × Option CommandRingSlot × CommandPipeline
try_consume p =
    if not p.is_open
    then (refused CommandPipelineStatus.closed, none, p)
    else if p.tail == p.reserve_checked
    then (refused CommandPipelineStatus.empty, none, p)
    else (
      done (slot_at p p.tail).command.command_sequence ((p.tail + 1) % u64_mod),
      some (slot_at p p.tail),
      record p { tail = (p.tail + 1) % u64_mod },
    )

unfoldable pub snapshot : CommandPipeline → CommandPipelineSnapshot
snapshot p =
    if not p.is_open
    then record {
      tail = 0;
      reserve_checked = 0;
      risk_checked = 0;
      durable = 0;
      head = 0;
      persistence_failed = false;
    }
    else record {
      tail = p.tail;
      reserve_checked = p.reserve_checked;
      risk_checked = p.risk_checked;
      durable = p.durable;
      head = p.head;
      persistence_failed = p.persistence_failed;
    }
