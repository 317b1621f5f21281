-- ===== src/Matcher/Batch.antt =====
-- matcher.hpp, the contract of `CommandEventBatch`: what the events of one command look like in the
-- writer's log, through every handler.
use ll_exp.Prelude.{
  ℕ, zero, suc, ◌+◌, ◌%◌, ◌≡◌, refl, ap, arith, Bool, true, false, List, [], ◌∷◌, ◌⊎◌, inl, inr,
}
use mathlib.Core.Path.{subst}
use ll_exp.Book.Types.{u32_mod, u64_mod}
use ll_exp.Matcher.Types.{Event, EventEnvelope, FatalReason, PublishStatus}
use ll_exp.Matcher.State.{
  Env, State, envelope_of, after_publish, after_pending, enqueue_if, publish_event, publish_pending,
  enqueue, add, finish, transition_to_fatal_state,
}

-- What is relied on of an `EventWriter`: an event for which it returns `Ok` is the next one of its
-- log, newest first. Nothing is said of an event for which it returns `Fatal`.
pub record IsLogging (env : Env) (accepted : env.Writer → List EventEnvelope) : Type 0 where
  pub logs :
      (w : env.Writer) (e : EventEnvelope) (w' : env.Writer)
      → env.publish w e ≡ (PublishStatus.ok, w')
      → accepted w' ≡ e ∷ accepted w

-- A command's identity: its client, its sequence number, and the first event sequence number.
pub record Origin : Type 0 where
  pub client : ℕ
  pub command : ℕ
  pub first : ℕ

-- `e` is the event number `n` of the command.
pub record IsPart (o : Origin) (n : ℕ) (final : Bool) (e : EventEnvelope) : Type 0 where
  pub sequence : e.event_sequence ≡ (o.first + n) % u64_mod
  pub client : e.payload.client_id ≡ o.client
  pub command : e.payload.caused_by_command_sequence ≡ o.command
  pub index : e.payload.index_in_command ≡ n % u32_mod
  pub is_last : e.payload.is_last_for_command ≡ final

-- The log is `n` events of the command, none of them the last, on top of `base`.
abbrev pub Emitted : Origin → List EventEnvelope → ℕ → List EventEnvelope → Type 0
Emitted o base zero log = log ≡ base
Emitted o base (suc n) [] = ⊥
Emitted o base (suc n) (e ∷ log) = IsPart o n false e × Emitted o base n log

-- The log is a whole batch of the command on top of `base`: the newest event is the last one.
abbrev pub Complete : Origin → List EventEnvelope → List EventEnvelope → Type 0
Complete o base [] = ⊥
Complete o base (e ∷ log) = (n : ℕ) × IsPart o n true e × Emitted o base n log

module _ (env : Env) (accepted : env.Writer → List EventEnvelope) (o : Origin)
    (base : List EventEnvelope) where
  -- The writer accepted `n` events of the command, and returned `Fatal` for the event number `n`.
  -- `after` is the writer as that call left it.
  pub record Refused (after : env.Writer) : Type 0 where
    pub n : ℕ
    pub final : Bool
    pub event : EventEnvelope
    pub before : env.Writer
    pub part : IsPart o n final event
    pub emitted : Emitted o base n (accepted before)
    pub answer : env.publish before event ≡ (PublishStatus.fatal, after)

  pub record IsBroken (s : State env) : Type 0 where
    pub failed : s.batch.failed ≡ true
    pub fatal : s.matcher.fatal ≡ true
    pub reason : s.matcher.fatal_reason ≡ FatalReason.event_writer_fatal
    pub refused : Refused s.matcher.event_writer

  -- `n` events are out; where one is pending it is the number `n`.
  pub record InBatch (n : ℕ) (s : State env) : Type 0 where
    pub client : s.batch.client_id ≡ o.client
    pub command : s.batch.command_sequence ≡ o.command
    pub failed : s.batch.failed ≡ false
    pub emitted : Emitted o base n (accepted s.matcher.event_writer)
    pub sequence : s.matcher.next_event_sequence ≡ (o.first + n) % u64_mod
    pub position :
        ((s.batch.has_pending ≡ true)
          × (s.batch.pending_index ≡ n % u32_mod)
          × (s.batch.next_index ≡ (n + 1) % u32_mod))
        ⊎ ((s.batch.has_pending ≡ false) × (s.batch.next_index ≡ 0) × (n ≡ 0))

  abbrev pub Ongoing : State env → Type 0
  Ongoing s = (n : ℕ) × InBatch n s

  module _ (logging : IsLogging env accepted) where
    published : State env → env.Writer → State env
    published s w = record {
      matcher = record (s.matcher) {
        event_writer = w;
        next_event_sequence = (s.matcher.next_event_sequence + 1) % u64_mod;
      };
      batch = record (s.batch) { has_pending = false };
    }

    broken_by : State env → env.Writer → State env
    unfolding transition_to_fatal_state
    broken_by s w = record {
      matcher =
          transition_to_fatal_state FatalReason.event_writer_fatal
            (record (s.matcher) { event_writer = w });
      batch = record (s.batch) { failed = true };
    }

    IsPart-of_batch :
        (n : ℕ) (is_last : Bool) (s : State env)
        → InBatch n s
        → s.batch.has_pending ≡ true
        → IsPart o n is_last (envelope_of env is_last s)
    unfolding envelope_of
    IsPart-of_batch n is_last s v h = record {
      sequence = v.sequence;
      client = v.client;
      command = v.command;
      index = elim v.position [ inl p ↦ p.1 | inr p ↦ cc ];
      is_last = refl;
    }

    -- Both outcomes of a publication.
    publish_pending-cases :
        (n : ℕ) (is_last : Bool) (s : State env)
        → InBatch n s
        → s.batch.has_pending ≡ true
        → ((w : env.Writer) × (publish_pending env is_last s ≡ (true, published s w))
            × (accepted w ≡ envelope_of env is_last s ∷ accepted s.matcher.event_writer))
          ⊎ ((s' : State env) × (publish_pending env is_last s ≡ (false, s')) × IsBroken s')
    unfolding publish_pending publish_event after_pending after_publish published broken_by
    publish_pending-cases n is_last s v h =
        go (env.publish s.matcher.event_writer (envelope_of env is_last s)) refl
      where
        go :
            (r : PublishStatus × env.Writer)
            → env.publish s.matcher.event_writer (envelope_of env is_last s) ≡ r
            → ((w : env.Writer) × (publish_pending env is_last s ≡ (true, published s w))
                × (accepted w ≡ envelope_of env is_last s ∷ accepted s.matcher.event_writer))
              ⊎ ((s' : State env) × (publish_pending env is_last s ≡ (false, s')) × IsBroken s')
        go (PublishStatus.ok, w) e = inl (
          w,
          ap (λ r. after_pending env s (after_publish env s.matcher r)) e,
          logging.logs s.matcher.event_writer (envelope_of env is_last s) w e,
        )
        go (PublishStatus.fatal, w) e = inr (
          broken_by s w,
          ap (λ r. after_pending env s (after_publish env s.matcher r)) e,
          record {
            failed = refl;
            fatal = refl;
            reason = refl;
            refused = record {
              n = n;
              final = is_last;
              event = envelope_of env is_last s;
              before = s.matcher.event_writer;
              part = IsPart-of_batch n is_last s v h;
              emitted = v.emitted;
              answer = e;
            };
          },
        )

    -- `add` queues the event and publishes the one before, or reports the writer's failure.
    abbrev pub Added : Event → Bool × State env → Type 0
    Added event (true, s) = Ongoing s × (s.batch.has_pending ≡ true) × (s.batch.pending ≡ event)
    Added event (false, s) = IsBroken s

    enqueue-first :
        (event : Event) (s : State env)
        → InBatch 0 s
        → s.batch.next_index ≡ 0
        → Added event (true, enqueue env event s)
    unfolding enqueue
    enqueue-first event s v first = (
      (
        0,
        record {
          client = v.client;
          command = v.command;
          failed = v.failed;
          emitted = v.emitted;
          sequence = v.sequence;
          position = inl (refl, omega arith, omega arith);
        },
      ),
      refl,
      refl,
    )

    enqueue-next :
        (event : Event) (n : ℕ) (s : State env) (w : env.Writer)
        → InBatch n s
        → s.batch.has_pending ≡ true
        → s.batch.next_index ≡ (n + 1) % u32_mod
        → accepted w ≡ envelope_of env false s ∷ accepted s.matcher.event_writer
        → Added event (true, enqueue env event (published s w))
    unfolding enqueue published
    enqueue-next event n s w v h next logged = (
      (
        suc n,
        record {
          client = v.client;
          command = v.command;
          failed = v.failed;
          emitted = rw logged (IsPart-of_batch n false s v h, v.emitted);
          sequence = omega (arith, v.sequence);
          position = inl (refl, omega arith, omega arith);
        },
      ),
      refl,
      refl,
    )

    pub add-Added : (event : Event) (s : State env) → Ongoing s → Added event (add env event s)
    unfolding add enqueue_if
    add-Added event s (n, v) = elim v.position [
      | inr (h, next, e) ↦ simp h (enqueue-first event s (subst (λ k. InBatch k s) e v) next)
      | inl (h, index, next) ↦ simp h (elim (publish_pending-cases n false s v h) [
        | inr (s', e, broken) ↦ rw e broken
        | inl (w, e, logged) ↦ rw e (enqueue-next event n s w v h next logged)
      ])
    ]

    -- `finish` publishes the pending event as the last one.
    abbrev pub Finished : Bool × State env → Type 0
    Finished (true, s) = Complete o base (accepted s.matcher.event_writer)
    Finished (false, s) = IsBroken s

    pub finish-Finished :
        (s : State env) → Ongoing s → s.batch.has_pending ≡ true → Finished (finish env s)
    unfolding finish published
    finish-Finished s (n, v) h = simp h (elim (publish_pending-cases n true s v h) [
      | inr (s', e, broken) ↦ rw e broken
      | inl (w, e, logged) ↦ rw (e, logged) (n, IsPart-of_batch n true s v h, v.emitted)
    ])
