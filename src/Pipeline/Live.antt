-- ===== src/Pipeline/Live.antt =====
-- command_pipeline.cpp: `open`, and `try_publish` with the live sequence numbers.
use ll_exp.Prelude.{
  ℕ, ◌+◌, ◌-◌, ◌^◌, ◌<◌, ◌≡◌, ◌≢◌, refl, arith, Bool, true, false, ◌||◌, [], ◌⊎◌, inl, inr,
  Bool-cases, ◌==◌, length-replicate, eq→==, ne→==,
}
use native.Mathlib.Decide.{ℕ_discrete}
use ll_exp.Book.Types.{u64_mod}
use ll_exp.Matcher.Types.{CommandEnvelope, CommandWalPayload}
use ll_exp.Pipeline.{
  CommandPipeline, CommandPipelineResult, CommandPipelineStatus, CommandPipelineConfig, empty_slot,
  refused, done, open_pipeline, after_envelope, try_publish_envelope, try_publish,
}
use ll_exp.Pipeline.Queue.{History, Models}
use ll_exp.Pipeline.Publish.{Enqueued, with_command, try_publish_envelope-Enqueued}

abbrev pub no_history : History
no_history = record { commands = []; risks = []; reserves = [] }

-- For a capacity of 32 bits, an `open` that returns `Ok` gives a pipeline that stands for the
-- empty history.
pub open_pipeline-Models :
    (c : CommandPipelineConfig) (allocated : Bool) (p : CommandPipeline)
    → c.capacity < 2 ^ 32
    → (open_pipeline c allocated p).0 ≡ CommandPipelineStatus.ok
    → Models (open_pipeline c allocated p).1 no_history
unfolding open_pipeline
open_pipeline-Models c allocated p narrow = elim (Bool-cases p.is_open) [
  | inl busy ↦ simp busy (λ h. cc)
  | inr idle ↦ simp idle (elim (Bool-cases (c.capacity == 0 || c.first_sequence == 0)) [
    | inl bad ↦ rw bad (λ h. cc)
    | inr good ↦ rw good (elim (Bool-cases allocated) [
      | inr short ↦ rw short (λ h. cc)
      | inl given ↦ rw given (λ h. record {
        running = refl;
        published = refl;
        risk_decided = refl;
        reserve_decided = refl;
        consumed_in_order = omega arith;
        reserved_in_order = omega arith;
        risked_in_order = omega arith;
        durable_in_order = omega arith;
        bounded = omega arith;
        room = ground arith;
        sized = length-replicate c.capacity empty_slot;
        narrow = narrow;
        small = omega arith;
        risks_final = λ i below. absurd (omega arith);
        reserves_final = λ i below. absurd (omega arith);
        contents = λ i from below. absurd (omega arith);
      })
    ])
  ])
]

-- The producer's own members and the failure flag are no part of what the pipeline stands for.
pub relabelled :
    (p : CommandPipeline) (h : History) (n : ℕ) (exhausted broken : Bool)
    → Models p h
    → Models
        (record p {
          next_live_sequence = n;
          sequence_exhausted = exhausted;
          persistence_failed = broken;
        })
        h
relabelled p h n exhausted broken v = record {
  running = v.running;
  published = v.published;
  risk_decided = v.risk_decided;
  reserve_decided = v.reserve_decided;
  consumed_in_order = v.consumed_in_order;
  reserved_in_order = v.reserved_in_order;
  risked_in_order = v.risked_in_order;
  durable_in_order = v.durable_in_order;
  bounded = v.bounded;
  room = v.room;
  sized = v.sized;
  narrow = v.narrow;
  small = v.small;
  risks_final = v.risks_final;
  reserves_final = v.reserves_final;
  contents = v.contents;
}

-- The next live number after `n` was given out.
abbrev pub Numbered : ℕ → CommandPipeline → Type 0
Numbered n p' =
    ((n ≢ u64_mod - 1) × (p'.next_live_sequence ≡ n + 1))
    ⊎ ((n ≡ u64_mod - 1) × (p'.sequence_exhausted ≡ true))

abbrev pub live_command : CommandPipeline → CommandWalPayload → CommandEnvelope
live_command p payload = record { command_sequence = p.next_live_sequence; payload = payload }

-- The outcomes of `try_publish`.
pub data LivePublished (p : CommandPipeline) (h : History) (payload : CommandWalPayload)
    : CommandPipelineResult × CommandPipeline → Type 0 where
  accepted :
      {p' : CommandPipeline}
      → p.persistence_failed ≡ false
      → p.sequence_exhausted ≡ false
      → p.head < p.tail + p.config.capacity
      → Models p' (with_command h (live_command p payload))
      → Numbered p.next_live_sequence p'
      → LivePublished p h payload (done p.next_live_sequence (p.head + 1), p')
  no_room :
      p.head ≡ p.tail + p.config.capacity
      → LivePublished p h payload (refused CommandPipelineStatus.full, p)
  failed :
      p.persistence_failed ≡ true
      → LivePublished p h payload (refused CommandPipelineStatus.persistence_failed, p)
  exhausted :
      p.sequence_exhausted ≡ true
      → LivePublished p h payload (refused CommandPipelineStatus.sequence_exhausted, p)

module _ (p : CommandPipeline) (h : History) (payload : CommandWalPayload) where
  numbered-LivePublished :
      (p' : CommandPipeline)
      → p.persistence_failed ≡ false
      → p.sequence_exhausted ≡ false
      → p.head < p.tail + p.config.capacity
      → Models p' (with_command h (live_command p payload))
      → LivePublished p h payload
          (after_envelope p.next_live_sequence (done p.next_live_sequence (p.head + 1), p'))
  unfolding after_envelope
  numbered-LivePublished p' sound more vacant v =
      elim (ℕ_discrete p.next_live_sequence (u64_mod - 1)) [
        | yes last ↦ rw (eq→== p.next_live_sequence (u64_mod - 1) last) (
            accepted sound more vacant
              (relabelled p' _ p'.next_live_sequence true p'.persistence_failed v)
              (inr (last, refl)))
        | no inner ↦ rw (ne→== p.next_live_sequence (u64_mod - 1) inner) (
            accepted sound more vacant
              (relabelled p' _ (p.next_live_sequence + 1) p'.sequence_exhausted
                p'.persistence_failed v)
              (inl (inner, refl)))
      ]

  after_envelope-LivePublished :
      (r : CommandPipelineResult × CommandPipeline)
      → p.sequence_exhausted ≡ false
      → Enqueued p h (live_command p payload) r
      → LivePublished p h payload (after_envelope p.next_live_sequence r)
  unfolding after_envelope
  after_envelope-LivePublished _ more (Enqueued.accepted {p'} sound vacant v) =
      numbered-LivePublished p' sound more vacant v
  after_envelope-LivePublished _ more (Enqueued.no_room full) = no_room full
  after_envelope-LivePublished _ more (Enqueued.failed broken) = failed broken

  publish_exhausted :
      p.is_open ≡ true
      → p.persistence_failed ≡ false
      → p.sequence_exhausted ≡ true
      → try_publish payload p ≡ (refused CommandPipelineStatus.sequence_exhausted, p)
  unfolding try_publish
  publish_exhausted running sound last = simp (running, sound, last)

  publish_broken :
      p.is_open ≡ true
      → p.persistence_failed ≡ true
      → try_publish payload p ≡ (refused CommandPipelineStatus.persistence_failed, p)
  unfolding try_publish
  publish_broken running broken = simp (running, broken)

  publish_live :
      p.is_open ≡ true
      → p.persistence_failed ≡ false
      → p.sequence_exhausted ≡ false
      → try_publish payload p
        ≡ after_envelope p.next_live_sequence (try_publish_envelope (live_command p payload) p)
  unfolding try_publish
  publish_live running sound more = simp (running, sound, more)

  -- On a pipeline that stands for a history, with the head plus one below 2^64, `try_publish`
  -- reports a failed persistence, used up sequence numbers or a full ring and changes nothing; or
  -- it accepts the payload under the next live sequence number, the history grows by that
  -- command, and the next live number is one more, or the numbers are used up.
  pub try_publish-LivePublished :
      Models p h → p.head + 1 < u64_mod → LivePublished p h payload (try_publish payload p)
  try_publish-LivePublished v next = elim (Bool-cases p.persistence_failed) [
    | inl broken ↦ rw (publish_broken v.running broken) (failed broken)
    | inr sound ↦ elim (Bool-cases p.sequence_exhausted) [
      | inl last ↦ rw (publish_exhausted v.running sound last) (exhausted last)
      | inr more ↦ rw (publish_live v.running sound more) (
          after_envelope-LivePublished _ more
            (try_publish_envelope-Enqueued p h v (live_command p payload) next))
    ]
  ]
