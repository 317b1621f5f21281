-- ===== src/Tests/Pipelines.antt =====
-- Runs of the command pipeline, and its theorems at concrete inputs.
use ll_exp.Prelude.{ℕ, ◌≡◌, refl, arith, List, [], ◌∷◌, true, false}
use ll_exp.Matcher.Types.{Command, CommandWalPayload, CommandEnvelope}
use ll_exp.Pipeline.{
  CommandPipeline, CommandPipelineConfig, CommandPipelineStatus, CheckDecision, RiskResult,
  ReserveResult, open_pipeline, try_publish_envelope, after_envelope, try_publish, try_replay,
  publish_durable, publish_risk, publish_reserve, try_consume,
}
use ll_exp.Pipeline.Queue.{History, Models}
use ll_exp.Pipeline.Publish.{Enqueued, try_publish_envelope-Enqueued}
use ll_exp.Pipeline.Live.{
  LivePublished, no_history, open_pipeline-Models, try_publish-LivePublished,
}
use ll_exp.Pipeline.Decisions.{
  Persisted, Risked, Reserved, Consumed, publish_durable-Persisted, publish_risk-Risked,
  publish_reserve-Reserved, try_consume-Consumed,
}
use ll_exp.Pipeline.Runs.{Call, make_call, make_calls, Kept, make_calls-Kept}

-- Unfolds the whole pipeline.
unfoldable pipeline_program : ℕ
unfolding open_pipeline try_publish_envelope after_envelope try_publish try_replay publish_durable
    publish_risk publish_reserve try_consume make_calls make_call
pipeline_program = 0

abbrev two_slots : CommandPipelineConfig
two_slots = record { capacity = 2; first_sequence = 1 }

abbrev closed_pipeline : CommandPipeline
closed_pipeline = record {
  slots = [];
  tail = 0;
  reserve_checked = 0;
  risk_checked = 0;
  durable = 0;
  head = 0;
  persistence_failed = false;
  config = two_slots;
  next_live_sequence = 1;
  sequence_exhausted = false;
  is_open = false;
}

pipeline_opens : (open_pipeline two_slots true closed_pipeline).0 ≡ CommandPipelineStatus.ok
unfolding pipeline_program
pipeline_opens = refl

open_pipeline_example : Models (open_pipeline two_slots true closed_pipeline).1 no_history
open_pipeline_example =
    open_pipeline-Models two_slots true closed_pipeline (omega arith) pipeline_opens

unfoldable opened_pipeline : CommandPipeline
opened_pipeline = (open_pipeline two_slots true closed_pipeline).1

opened_pipeline-Models : Models opened_pipeline no_history
unfolding opened_pipeline
opened_pipeline-Models =
    open_pipeline-Models two_slots true closed_pipeline (omega arith) pipeline_opens

abbrev stop_request : CommandWalPayload
stop_request = record { client_id = 7; message = Command.shutdown }

abbrev risk_accepted : RiskResult
risk_accepted = record { decision = CheckDecision.accepted; reason_code = 0 }

abbrev reserve_skipped : ReserveResult
reserve_skipped = record { decision = CheckDecision.skipped; reason_code = 3 }

-- Two commands are published and the first goes through all stages.
abbrev stage_calls : List Call
stage_calls =
    Call.publish stop_request
    ∷ Call.publish stop_request
    ∷ Call.durable 1
    ∷ Call.risk risk_accepted
    ∷ Call.reserve reserve_skipped
    ∷ []

opened_head : opened_pipeline.head ≡ 0
unfolding pipeline_program opened_pipeline
opened_head = refl

make_calls_example : Kept opened_pipeline no_history 5 (make_calls stage_calls opened_pipeline)
make_calls_example =
    make_calls-Kept stage_calls opened_pipeline no_history opened_pipeline-Models
      (omega (arith, opened_head))

unfoldable staged_pipeline : CommandPipeline
staged_pipeline = make_calls stage_calls opened_pipeline

unfoldable staged_kept : Kept opened_pipeline no_history 5 staged_pipeline
unfolding staged_pipeline
staged_kept =
    make_calls-Kept stage_calls opened_pipeline no_history opened_pipeline-Models
      (omega (arith, opened_head))

abbrev staged_history : History
staged_history = staged_kept.history

staged_head : staged_pipeline.head ≡ 2
unfolding pipeline_program opened_pipeline staged_pipeline
staged_head = refl

staged_consumes : (try_consume staged_pipeline).0.status ≡ CommandPipelineStatus.ok
unfolding pipeline_program opened_pipeline staged_pipeline
staged_consumes = refl

try_consume_example : Consumed staged_pipeline staged_history (try_consume staged_pipeline)
try_consume_example = try_consume-Consumed staged_pipeline staged_history staged_kept.models

try_publish_live_example :
    LivePublished opened_pipeline no_history stop_request (try_publish stop_request opened_pipeline)
try_publish_live_example =
    try_publish-LivePublished opened_pipeline no_history stop_request opened_pipeline-Models
      (omega (arith, opened_head))

publish_durable_example :
    Persisted staged_pipeline staged_history 1 (publish_durable 1 staged_pipeline)
publish_durable_example =
    publish_durable-Persisted staged_pipeline staged_history staged_kept.models 1

publish_risk_example :
    Risked staged_pipeline staged_history risk_accepted (publish_risk risk_accepted staged_pipeline)
publish_risk_example =
    publish_risk-Risked staged_pipeline staged_history staged_kept.models risk_accepted

publish_reserve_example :
    Reserved staged_pipeline staged_history reserve_skipped
      (publish_reserve reserve_skipped staged_pipeline)
publish_reserve_example =
    publish_reserve-Reserved staged_pipeline staged_history staged_kept.models reserve_skipped

abbrev replayed_command : CommandEnvelope
replayed_command = record { command_sequence = 9; payload = stop_request }

try_publish_envelope_example :
    Enqueued opened_pipeline no_history replayed_command
      (try_publish_envelope replayed_command opened_pipeline)
try_publish_envelope_example =
    try_publish_envelope-Enqueued opened_pipeline no_history opened_pipeline-Models replayed_command
      (omega (arith, opened_head))
