-- ===== src/Matcher/Protocol.antt =====
-- matcher.hpp: `process` as a whole: that it ends, and what it publishes for a command.
use ll_exp.Prelude.{
  ◌≡◌, ◌<◌, refl, ◌∙◌, arith, Bool, true, false, not, ◌&&◌, some, List, ◌⊎◌, inl, inr, Bool-cases,
}
use ll_exp.Book.Types.{u64_mod}
use ll_exp.Book.Index.Count.{IsCounted}
use ll_exp.Matcher.Types.{
  Command, CommandEnvelope, Event, EventEnvelope, FatalReason, ProcessResult, ProcessStatus,
}
use ll_exp.Matcher.State.{Env, Matcher, State, make_batch, transition_to_fatal_state, add, finish}
use ll_exp.Matcher.Batch.{
  IsLogging, Origin, Complete, Refused, IsBroken, Ongoing, Added, add-Added, Finished,
  finish-Finished,
}
use ll_exp.Matcher.Flow.{Flow, next, exit, out_of_fuel, Ensures, Ensures-bind, Ensures-both}
use ll_exp.Matcher.Process.{emit, after_add, fatal_event, apply_deferred_replay_transition}
use ll_exp.Matcher.Run.{
  dispatch, check_no_event, after_finish, finish_batch, process_batch, start, conclude, process,
}
use ll_exp.Matcher.Handlers.{IsInvariant, add-book, finish-book}
use ll_exp.Matcher.Dispatch.{dispatch-Handled}

module _ (env : Env) (accepted : env.Writer → List EventEnvelope)
    (logging : IsLogging env accepted) where
  module _ (o : Origin) (base : List EventEnvelope) where
    abbrev Live : State env → Type 0
    Live s = Ongoing env accepted o base s × IsCounted s.matcher.book.index

    abbrev Left : State env → Type 0
    Left s =
        (Ongoing env accepted o base s ⊎ IsBroken env accepted o base s)
        × IsCounted s.matcher.book.index

    -- An event is pending, or the writer failed.
    abbrev Ready : State env → Type 0
    Ready s =
        ((Ongoing env accepted o base s × (s.batch.has_pending ≡ true))
          ⊎ IsBroken env accepted o base s)
        × IsCounted s.matcher.book.index

    -- The log holds a whole batch more, or the writer failed.
    abbrev Whole : State env → Type 0
    Whole s =
        (Complete o base (accepted s.matcher.event_writer) ⊎ IsBroken env accepted o base s)
        × IsCounted s.matcher.book.index

    after_add-Ready :
        (event : Event) (r : Bool × State env)
        → Added env accepted o base logging event r
        → IsCounted r.1.matcher.book.index
        → Ensures
            (λ _ s. Live s × (s.batch.has_pending ≡ true))
            (λ _ s. IsBroken env accepted o base s × IsCounted s.matcher.book.index)
            (after_add env r)
    unfolding after_add
    after_add-Ready event (true, s) a c = ((a.0, c), a.1)
    after_add-Ready event (false, s) a c = (a, c)

    emit-Ready :
        (event : Event) (s : State env)
        → Live s
        → Ensures
            (λ _ s'. Live s' × (s'.batch.has_pending ≡ true))
            (λ _ s'. IsBroken env accepted o base s' × IsCounted s'.matcher.book.index)
            (emit env event s)
    unfolding emit
    emit-Ready event s (v, c) =
        after_add-Ready event (add env event s) (add-Added env accepted o base logging event s v)
          (rw (add-book env event s) c)

    -- A change of the matcher that leaves the writer and the numbering alone.
    with_matcher :
        (s : State env) (m : Matcher env.Writer env.Store)
        → Ongoing env accepted o base s
        → m.event_writer ≡ s.matcher.event_writer
        → m.next_event_sequence ≡ s.matcher.next_event_sequence
        → Ongoing env accepted o base (record s { matcher = m })
    with_matcher s m (n, v) w q = (
      n,
      record {
        client = v.client;
        command = v.command;
        failed = v.failed;
        emitted = rw w v.emitted;
        sequence = q ∙ v.sequence;
        position = v.position;
      },
    )

    halted :
        (s : State env) (reason : FatalReason)
        → Live s
        → Live (record s { matcher = transition_to_fatal_state reason s.matcher })
    unfolding transition_to_fatal_state
    halted s reason (v, c) = (with_matcher s _ v refl refl, c)

    abbrev Failed : State env → Type 0
    Failed s = IsBroken env accepted o base s × IsCounted s.matcher.book.index

    invariant : IsInvariant env Live Failed Left
    invariant = record {
      counted = λ s p. p.1;
      emits = λ event s p.
          Ensures-both (λ _ s'. Live s' × (s'.batch.has_pending ≡ true))
            (λ _ s'. IsBroken env accepted o base s' × IsCounted s'.matcher.book.index)
            (λ _ s'. Live s') (λ _ s'. Failed s') (emit env event s) (emit-Ready event s p)
            (λ _ s' h. h.0) (λ _ s' h. h);
      fails = λ s h. (inr h.0, h.1);
      moves = λ s m p w n c. (with_matcher s m p.0 w n, c);
      halts = λ s reason p. (inl (halted s reason p).0, (halted s reason p).1);
    }

    -- A batch with nothing pending gets the event of a command that produced none.
    add_missing-Ready :
        (processed : ProcessResult) (s : State env)
        → Live s
        → s.batch.has_pending ≡ false
        → Ensures (λ _. Ready) (λ _. Failed) (check_no_event env processed s)
    unfolding check_no_event transition_to_fatal_state
    add_missing-Ready processed s p idle =
        let reason = FatalReason.command_produced_no_event in
        let event = fatal_event env reason 0 s in
        simp ((p.0).1.failed, idle)
          (Ensures-bind (λ _ s'. Live s' × (s'.batch.has_pending ≡ true)) (λ _. Failed) (λ _. Ready)
            _ (emit env event s) (emit-Ready event s p)
            (λ _ s' h. (inl (with_matcher s' _ h.0.0 refl refl, h.1), h.0.1)))

    skip_check :
        (processed : ProcessResult) (s : State env)
        → (not s.batch.failed && not s.batch.has_pending) ≡ false
        → check_no_event env processed s ≡ (next processed, s)
    unfolding check_no_event
    skip_check processed s e = rw e

    check_no_event-Ready :
        (processed : ProcessResult) (s : State env)
        → Left s
        → Ensures (λ _. Ready) (λ _. Failed) (check_no_event env processed s)
    check_no_event-Ready processed s (inr broken, c) =
        rw (skip_check processed s (ground (arith, broken.failed))) (inr broken, c)
    check_no_event-Ready processed s (inl v, c) = elim (Bool-cases s.batch.has_pending) [
      | inr idle ↦ add_missing-Ready processed s (v, c) idle
      | inl busy ↦ rw (skip_check processed s (ground (arith, busy))) (inl (v, busy), c)
    ]

    after_finish-Whole :
        (processed : ProcessResult) (r : Bool × State env)
        → Finished env accepted o base logging r
        → IsCounted r.1.matcher.book.index
        → Ensures (λ _. Whole) (λ _. Whole) (after_finish env processed r)
    unfolding after_finish
    after_finish-Whole processed (true, s) f c = (inl f, c)
    after_finish-Whole processed (false, s) f c = (inr f, c)

    finish_batch-Whole :
        (processed : ProcessResult) (s : State env)
        → Ready s
        → Ensures (λ _. Whole) (λ _. Whole) (finish_batch env processed s)
    unfolding finish_batch
    finish_batch-Whole processed s (inr broken, c) = simp broken.failed (inr broken, c)
    finish_batch-Whole processed s (inl (v, busy), c) = simp v.1.failed (
        after_finish-Whole processed (finish env s)
          (finish-Finished env accepted o base logging s v busy) (rw (finish-book env s) c))

    process_batch-Whole :
        (command : Command) (s : State env)
        → Live s
        → Ensures (λ _. Whole) (λ _. Whole) (process_batch env command s)
    unfolding process_batch
    process_batch-Whole command s p =
        let whole_of_ready : (s' : State env) → Failed s' → Whole s' = λ s' h. (inr h.0, h.1) in
        Ensures-bind (λ _. Ready) (λ _. Whole) (λ _. Whole) (finish_batch env) _
          (Ensures-bind (λ _. Left) (λ _. Whole) (λ _. Ready) (check_no_event env)
            (dispatch env command s)
            (Ensures-both (λ _ s'. Live s' ⊎ Left s') (λ _ s'. Failed s') (λ _. Left) (λ _. Whole)
              (dispatch env command s) (dispatch-Handled env Live Failed Left invariant command s p)
              (λ _ s' h. elim h [ inl live ↦ (inl live.0, live.1) | inr left ↦ left ])
              (λ _ s' h. whole_of_ready s' h))
            (λ processed s' h.
              Ensures-both (λ _. Ready) (λ _. Failed) (λ _. Ready) (λ _. Whole)
                (check_no_event env processed s') (check_no_event-Ready processed s' h)
                (λ _ s'' r. r) (λ _ s'' f. whole_of_ready s'' f)))
          (λ processed s' h. finish_batch-Whole processed s' h)

  -- The deferred transition changes the numbering and the replay mode only.
  deferred-kept :
      {W S : Type 0} (m : Matcher W S)
      → ((apply_deferred_replay_transition m).event_writer ≡ m.event_writer)
        × ((apply_deferred_replay_transition m).fatal ≡ m.fatal)
        × ((apply_deferred_replay_transition m).fatal_reason ≡ m.fatal_reason)
  unfolding apply_deferred_replay_transition
  deferred-kept m = ground arith

  deferred-book :
      {W S : Type 0} (m : Matcher W S) → (apply_deferred_replay_transition m).book ≡ m.book
  unfolding apply_deferred_replay_transition
  deferred-book m = ground arith

  abbrev pub origin_of : CommandEnvelope → Matcher env.Writer env.Store → Origin
  origin_of envelope m = record {
    client = envelope.payload.client_id;
    command = envelope.command_sequence;
    first = m.next_event_sequence;
  }

  -- The outcome of `process` for a command: it returns, the index stays counted, and the log has a
  -- whole batch more, or the writer failed and the matcher is in its fatal state.
  pub record Processed (envelope : CommandEnvelope) (m : Matcher env.Writer env.Store)
      (m' : Matcher env.Writer env.Store) : Type 0 where
    pub counted : IsCounted m'.book.index
    pub batch :
        Complete (origin_of envelope m) (accepted m.event_writer) (accepted m'.event_writer)
        ⊎ ((m'.fatal ≡ true)
            × (m'.fatal_reason ≡ FatalReason.event_writer_fatal)
            × Refused env accepted (origin_of envelope m) (accepted m.event_writer) m'.event_writer)

  conclude-Processed :
      (envelope : CommandEnvelope) (m : Matcher env.Writer env.Store)
      (r : Flow ProcessResult × State env)
      → Ensures
          (λ _. Whole (origin_of envelope m) (accepted m.event_writer))
          (λ _. Whole (origin_of envelope m) (accepted m.event_writer))
          r
      → (result : ProcessResult) × (m' : Matcher env.Writer env.Store) × (conclude env r
          ≡ some (result, m'))
        × Processed envelope m m'
  conclude-Processed envelope m (next result, s) h =
      let kept = deferred-kept s.matcher in
      (
        result,
        apply_deferred_replay_transition s.matcher,
        refl,
        record {
          counted = rw (deferred-book s.matcher) h.1;
          batch = elim h.0 [
            | inl whole ↦ inl (rw kept.0 whole)
            | inr broken ↦
                inr (kept.1 ∙ broken.fatal, kept.2 ∙ broken.reason, rw kept.0 broken.refused)
          ];
        },
      )
  conclude-Processed envelope m (exit result, s) h = (
    result,
    s.matcher,
    refl,
    record {
      counted = h.1;
      batch = elim h.0 [
        | inl whole ↦ inl whole
        | inr broken ↦ inr (broken.fatal, broken.reason, broken.refused)
      ];
    },
  )
  conclude-Processed envelope m (out_of_fuel, s) h = absurd h

  fresh-Live :
      (envelope : CommandEnvelope) (m : Matcher env.Writer env.Store)
      → m.next_event_sequence < u64_mod
      → IsCounted m.book.index
      → Live (origin_of envelope m) (accepted m.event_writer) (start env envelope m)
  unfolding make_batch
  fresh-Live envelope m small counted = (
    (
      0,
      record {
        client = refl;
        command = refl;
        failed = refl;
        emitted = refl;
        sequence = omega arith;
        position = inr (refl, refl, refl);
      },
    ),
    counted,
  )

  -- For an event writer that logs what it accepts, a matcher that is not fatal, whose next event
  -- sequence number fits 64 bits and whose index is counted, `process` returns a result for every
  -- command (its fuel is enough). After it the index is counted, and either the log has grown by
  -- exactly one whole batch of the command (consecutive sequence numbers modulo 2^64, indices
  -- from 0 modulo 2^32, the command's client and number, the last event and no other flagged as
  -- last), or the matcher is fatal with the reason `event_writer_fatal` and the writer is what a
  -- call of its `publish` left that returned `Fatal`, for the event number `n` of the command,
  -- when the log had grown by just the `n` events before it.
  pub process-Processed :
      (envelope : CommandEnvelope) (m : Matcher env.Writer env.Store)
      → m.fatal ≡ false
      → m.next_event_sequence < u64_mod
      → IsCounted m.book.index
      → (result : ProcessResult) × (m' : Matcher env.Writer env.Store) × (process env envelope m
          ≡ some (result, m'))
        × Processed envelope m m'
  unfolding process
  process-Processed envelope m alive small counted =
      let done =
        conclude-Processed envelope m
          (process_batch env envelope.payload.message (start env envelope m))
          (process_batch-Whole (origin_of envelope m) (accepted m.event_writer)
            envelope.payload.message (start env envelope m)
            (fresh-Live envelope m small counted)) in
      (done.0, done.1, simp alive done.2, done.3)

  -- A matcher in its fatal state processes nothing.
  pub process_fatal :
      (envelope : CommandEnvelope) (m : Matcher env.Writer env.Store)
      → m.fatal ≡ true
      → process env envelope m
        ≡ some (record { status = ProcessStatus.fatal; fatal_reason = m.fatal_reason }, m)
  unfolding process
  process_fatal envelope m dead = simp dead
