-- ===== src/Pipeline/Runs.antt =====
-- command_pipeline.cpp: any sequence of calls of the producer and the stages, in any order.
use ll_exp.Prelude.{
  ℕ, ◌+◌, ◌≤◌, ◌<◌, ◌≡◌, refl, sym, arith, true, false, List, [], ◌∷◌, ◌++◌, inl, inr, Bool-cases,
  ◌==◌, length, Option, length-append,
}
use mathlib.Core.List.{append_assoc, append-nil}
use ll_exp.Book.Types.{u64_mod}
use ll_exp.Matcher.Types.{CommandEnvelope, CommandWalPayload}
use ll_exp.Pipeline.{
  CommandPipeline, CommandPipelineResult, CommandPipelineStatus, CommandRingSlot, RiskResult,
  ReserveResult, try_publish, try_replay, try_publish_envelope, restore_live_sequence,
  publish_durable, fail_persistence, publish_risk, publish_reserve, try_consume,
}
use ll_exp.Pipeline.Queue.{History, Models}
use ll_exp.Pipeline.Publish.{
  Enqueued, with_command, with_risk, with_reserve, try_publish_envelope-Enqueued,
}
use ll_exp.Pipeline.Live.{LivePublished, relabelled, try_publish-LivePublished}
use ll_exp.Pipeline.Decisions.{
  Persisted, Risked, Reserved, Consumed, publish_durable-Persisted, publish_risk-Risked,
  publish_reserve-Reserved, try_consume-Consumed,
}

-- The calls that change a pipeline.
pub data Call : Type 0 where
  publish : CommandWalPayload → Call
  replay : CommandEnvelope → Call
  restore : ℕ → Call
  durable : ℕ → Call
  fail : Call
  risk : RiskResult → Call
  reserve : ReserveResult → Call
  consume : Call

unfoldable pub make_call : Call → CommandPipeline → CommandPipeline
make_call (Call.publish payload) p = (try_publish payload p).1
make_call (Call.replay command) p = (try_replay command p).1
make_call (Call.restore n) p = (restore_live_sequence n p).1
make_call (Call.durable count) p = (publish_durable count p).1
make_call Call.fail p = fail_persistence p
make_call (Call.risk r) p = (publish_risk r p).1
make_call (Call.reserve r) p = (publish_reserve r p).1
make_call Call.consume p = (try_consume p).2

unfoldable pub make_calls : List Call → CommandPipeline → CommandPipeline
make_calls [] p = p
make_calls (c ∷ calls) p = make_calls calls (make_call c p)

-- `h'` is `h` with entries added at the ends.
pub record Extends (h h' : History) : Type 0 where
  pub new_commands : List CommandEnvelope
  pub new_risks : List RiskResult
  pub new_reserves : List ReserveResult
  pub commands : h'.commands ≡ h.commands ++ new_commands
  pub risks : h'.risks ≡ h.risks ++ new_risks
  pub reserves : h'.reserves ≡ h.reserves ++ new_reserves

-- What a call keeps: the histories grow at their ends, by one command at most.
pub record Kept (p : CommandPipeline) (h : History) (steps : ℕ) (p' : CommandPipeline)
    : Type 0 where
  pub history : History
  pub models : Models p' history
  pub extends : Extends h history
  pub grows : p'.head ≤ p.head + steps

Extends-self : (h : History) → Extends h h
Extends-self h = record {
  new_commands = [];
  new_risks = [];
  new_reserves = [];
  commands = sym (append-nil h.commands);
  risks = sym (append-nil h.risks);
  reserves = sym (append-nil h.reserves);
}

Extends-trans : (h h' h'' : History) → Extends h h' → Extends h' h'' → Extends h h''
Extends-trans h h' h'' e f = record {
  new_commands = e.new_commands ++ f.new_commands;
  new_risks = e.new_risks ++ f.new_risks;
  new_reserves = e.new_reserves ++ f.new_reserves;
  commands = simp (f.commands, e.commands, append_assoc);
  risks = simp (f.risks, e.risks, append_assoc);
  reserves = simp (f.reserves, e.reserves, append_assoc);
}

restore_refused :
    (p : CommandPipeline) (n : ℕ)
    → p.is_open ≡ true
    → (n == 0) ≡ true
    → restore_live_sequence n p ≡ (CommandPipelineStatus.invalid_sequence, p)
unfolding restore_live_sequence
restore_refused p n running bad = simp (running, bad)

restore_step :
    (p : CommandPipeline) (n : ℕ)
    → p.is_open ≡ true
    → (n == 0) ≡ false
    → restore_live_sequence n p
      ≡ (CommandPipelineStatus.ok, record p { next_live_sequence = n; sequence_exhausted = false })
unfolding restore_live_sequence
restore_step p n running good = simp (running, good)

fail_step :
    (p : CommandPipeline)
    → p.is_open ≡ true
    → fail_persistence p ≡ record p { persistence_failed = true }
unfolding fail_persistence
fail_step p running = simp running

unchanged : (p : CommandPipeline) (h : History) → Models p h → Kept p h 1 p
unchanged p h v = record { history = h; models = v; extends = Extends-self h; grows = omega arith }

-- A call that leaves the history alone.
same_history :
    (p : CommandPipeline) (h : History) (p' : CommandPipeline)
    → Models p h
    → Models p' h
    → Kept p h 1 p'
same_history p h p' v v' = record {
  history = h;
  models = v';
  extends = Extends-self h;
  grows = omega (arith, v.published, v'.published);
}

module _ (p : CommandPipeline) (h : History) (v : Models p h) where
  commanded :
      (command : CommandEnvelope) (p' : CommandPipeline)
      → Models p' (with_command h command)
      → Kept p h 1 p'
  commanded command p' v' = record {
    history = with_command h command;
    models = v';
    extends = record {
      new_commands = command ∷ [];
      new_risks = [];
      new_reserves = [];
      commands = refl;
      risks = sym (append-nil h.risks);
      reserves = sym (append-nil h.reserves);
    };
    grows = omega (arith, v.published, v'.published, length-append h.commands (command ∷ []));
  }

  risked : (r : RiskResult) (p' : CommandPipeline) → Models p' (with_risk h r) → Kept p h 1 p'
  risked r p' v' = record {
    history = with_risk h r;
    models = v';
    extends = record {
      new_commands = [];
      new_risks = r ∷ [];
      new_reserves = [];
      commands = sym (append-nil h.commands);
      risks = refl;
      reserves = sym (append-nil h.reserves);
    };
    grows = omega (arith, v.published, v'.published);
  }

  reserved :
      (r : ReserveResult) (p' : CommandPipeline) → Models p' (with_reserve h r) → Kept p h 1 p'
  reserved r p' v' = record {
    history = with_reserve h r;
    models = v';
    extends = record {
      new_commands = [];
      new_risks = [];
      new_reserves = r ∷ [];
      commands = sym (append-nil h.commands);
      risks = sym (append-nil h.risks);
      reserves = refl;
    };
    grows = omega (arith, v.published, v'.published);
  }

  LivePublished-Kept :
      (payload : CommandWalPayload) (r : CommandPipelineResult × CommandPipeline)
      → LivePublished p h payload r
      → Kept p h 1 r.1
  LivePublished-Kept payload _ (LivePublished.accepted {p'} sound more vacant v' numbered) =
      commanded _ p' v'
  LivePublished-Kept payload _ (LivePublished.no_room full) = unchanged p h v
  LivePublished-Kept payload _ (LivePublished.failed broken) = unchanged p h v
  LivePublished-Kept payload _ (LivePublished.exhausted last) = unchanged p h v

  Enqueued-Kept :
      (command : CommandEnvelope) (r : CommandPipelineResult × CommandPipeline)
      → Enqueued p h command r
      → Kept p h 1 r.1
  Enqueued-Kept command _ (Enqueued.accepted {p'} sound vacant v') = commanded command p' v'
  Enqueued-Kept command _ (Enqueued.no_room full) = unchanged p h v
  Enqueued-Kept command _ (Enqueued.failed broken) = unchanged p h v

  Persisted-Kept :
      (count : ℕ) (r : CommandPipelineResult × CommandPipeline)
      → Persisted p h count r
      → Kept p h 1 r.1
  Persisted-Kept count _ (Persisted.advanced sound some_count within v') = same_history p h _ v v'
  Persisted-Kept count _ (Persisted.bad_count why) = unchanged p h v
  Persisted-Kept count _ (Persisted.failed broken) = unchanged p h v

  Risked-Kept :
      (d : RiskResult) (r : CommandPipelineResult × CommandPipeline)
      → Risked p h d r
      → Kept p h 1 r.1
  Risked-Kept d _ (Risked.decided {p'} waiting final v') = risked d p' v'
  Risked-Kept d _ (Risked.undecided unset) = unchanged p h v
  Risked-Kept d _ (Risked.idle same) = unchanged p h v

  Reserved-Kept :
      (d : ReserveResult) (r : CommandPipelineResult × CommandPipeline)
      → Reserved p h d r
      → Kept p h 1 r.1
  Reserved-Kept d _ (Reserved.decided {p'} waiting final v') = reserved d p' v'
  Reserved-Kept d _ (Reserved.undecided unset) = unchanged p h v
  Reserved-Kept d _ (Reserved.idle same) = unchanged p h v

  Consumed-Kept :
      (r : CommandPipelineResult × Option CommandRingSlot × CommandPipeline)
      → Consumed p h r
      → Kept p h 1 r.2
  Consumed-Kept _ (Consumed.taken waiting risk_final reserve_final v') = same_history p h _ v v'
  Consumed-Kept _ (Consumed.idle same) = unchanged p h v

  try_replay-Kept :
      (command : CommandEnvelope) → p.head + 1 < u64_mod → Kept p h 1 (try_replay command p).1
  unfolding try_replay
  try_replay-Kept command next = simp v.running (elim (Bool-cases p.persistence_failed) [
    | inl broken ↦ simp broken (unchanged p h v)
    | inr sound ↦ simp sound (elim (Bool-cases (command.command_sequence == 0)) [
      | inl bad ↦ rw bad (unchanged p h v)
      | inr good ↦ rw good (
          Enqueued-Kept command (try_publish_envelope command p)
            (try_publish_envelope-Enqueued p h v command next))
    ])
  ])

  restore_live_sequence-Kept : (n : ℕ) → Kept p h 1 (restore_live_sequence n p).1
  restore_live_sequence-Kept n = elim (Bool-cases (n == 0)) [
    | inl bad ↦ rw (restore_refused p n v.running bad) (unchanged p h v)
    | inr good ↦
        rw (restore_step p n v.running good)
          (same_history p h _ v (relabelled p h n false p.persistence_failed v))
  ]

  fail_persistence-Kept : Kept p h 1 (fail_persistence p)
  fail_persistence-Kept =
      rw (fail_step p v.running)
        (same_history p h _ v (relabelled p h p.next_live_sequence p.sequence_exhausted true v))

  make_call-Kept : (c : Call) → p.head + 1 < u64_mod → Kept p h 1 (make_call c p)
  unfolding make_call
  make_call-Kept (Call.publish payload) next =
      LivePublished-Kept payload (try_publish payload p)
        (try_publish-LivePublished p h payload v next)
  make_call-Kept (Call.replay command) next = try_replay-Kept command next
  make_call-Kept (Call.restore n) next = restore_live_sequence-Kept n
  make_call-Kept (Call.durable count) next =
      Persisted-Kept count (publish_durable count p) (publish_durable-Persisted p h v count)
  make_call-Kept Call.fail next = fail_persistence-Kept
  make_call-Kept (Call.risk r) next = Risked-Kept r (publish_risk r p) (publish_risk-Risked p h v r)
  make_call-Kept (Call.reserve r) next =
      Reserved-Kept r (publish_reserve r p) (publish_reserve-Reserved p h v r)
  make_call-Kept Call.consume next = Consumed-Kept (try_consume p) (try_consume-Consumed p h v)

-- On a pipeline that stands for a history of commands, risk decisions and reserve decisions, any
-- sequence of calls whose length keeps the head below 2^64 leads to a pipeline that stands for a
-- history which extends the old one at the ends only, and the head has grown by at most the
-- number of calls.
pub make_calls-Kept :
    (calls : List Call) (p : CommandPipeline) (h : History)
    → Models p h
    → p.head + length calls < u64_mod
    → Kept p h (length calls) (make_calls calls p)
unfolding make_calls make_call
make_calls-Kept [] p h v small = record {
  history = h;
  models = v;
  extends = Extends-self h;
  grows = omega arith;
}
make_calls-Kept (c ∷ calls) p h v small =
    let first = make_call-Kept p h v c (omega arith) in
    let rest =
      make_calls-Kept calls (make_call c p) first.history first.models
        (omega (arith, first.grows)) in
    record {
      history = rest.history;
      models = rest.models;
      extends = Extends-trans h first.history rest.history first.extends rest.extends;
      grows = omega (arith, first.grows, rest.grows);
    }
