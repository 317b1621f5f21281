-- ===== src/Matcher/State.antt =====
-- exchange/matcher/include/fexma/matcher/matcher.hpp: the matcher's state, the batch that collects
-- the events of one command, and the publication of events.
use ll_exp.Prelude.{ℕ, ◌+◌, ◌%◌, if◌then◌else◌, Bool, true, false, Option, none}
use ll_exp.Book.Types.{OrderBookConfig, u32_mod, u64_mod}
use ll_exp.Book.OrderBook.{OrderBook}
use ll_exp.Matcher.Types.{
  Event, EventEnvelope, FatalReason, LoadSnapshotCommand, MatcherSnapshotImage, MatcherSnapshotView,
  PublishStatus, ReplayMode, SnapshotOperationStatus, CommandReadResult,
}

-- The template parameters `CommandReader`, `EventWriter` and `SnapshotStore`: each call may change
-- the state of the object that it is made on.
pub record Env : Type 1 where
  pub Reader : Type 0
  pub Writer : Type 0
  pub Store : Type 0
  pub read_next : Reader → CommandReadResult × Reader
  pub publish : Writer → EventEnvelope → PublishStatus × Writer
  pub capture : Store → MatcherSnapshotView → SnapshotOperationStatus × Store
  pub load : Store → LoadSnapshotCommand → SnapshotOperationStatus × MatcherSnapshotImage × Store

pub record Matcher (Writer Store : Type 0) : Type 0 where
  pub event_writer : Writer
  pub snapshot_store : Store
  pub book_config : OrderBookConfig
  pub book : OrderBook
  pub last_order_id : ℕ
  pub next_event_sequence : ℕ
  pub live_resume_event_sequence : ℕ
  pub deferred_event_sequence : ℕ
  pub replay_mode : ReplayMode
  pub deferred_mode : Option ReplayMode
  pub deferred_start_replay : Bool
  pub running : Bool
  pub fatal : Bool
  pub fatal_reason : FatalReason

-- `CommandEventBatch`, less its reference to the matcher.
pub record CommandEventBatch : Type 0 where
  pub client_id : ℕ
  pub command_sequence : ℕ
  pub pending : Event
  pub pending_index : ℕ
  pub next_index : ℕ
  pub has_pending : Bool
  pub failed : Bool

unfoldable pub make_batch : ℕ → ℕ → CommandEventBatch
make_batch client_id command_sequence = record {
  client_id = client_id;
  command_sequence = command_sequence;
  pending = Event.none;
  pending_index = 0;
  next_index = 0;
  has_pending = false;
  failed = false;
}

-- What a handler works on: the matcher and the batch of the command at hand.
pub record Machine (Writer Store : Type 0) : Type 0 where
  pub matcher : Matcher Writer Store
  pub batch : CommandEventBatch

unfoldable pub transition_to_fatal_state : {W S : Type 0} → FatalReason → Matcher W S → Matcher W S
transition_to_fatal_state reason m = record m {
  fatal = true;
  running = false;
  fatal_reason = reason;
}

module _ (env : Env) where
  abbrev pub State : Type 0
  State = Machine env.Writer env.Store

  -- `publish_event`, from the writer's answer on.
  unfoldable pub after_publish :
      Matcher env.Writer env.Store
      → PublishStatus × env.Writer
      → Bool × Matcher env.Writer env.Store
  after_publish m (PublishStatus.ok, writer) = (
    true,
    record m { event_writer = writer; next_event_sequence = (m.next_event_sequence + 1) % u64_mod },
  )
  after_publish m (PublishStatus.fatal, writer) = (
    false,
    transition_to_fatal_state FatalReason.event_writer_fatal (record m { event_writer = writer }),
  )

  unfoldable pub publish_event :
      EventEnvelope → Matcher env.Writer env.Store → Bool × Matcher env.Writer env.Store
  publish_event envelope m = after_publish m (env.publish m.event_writer envelope)

  unfoldable pub envelope_of : Bool → State → EventEnvelope
  envelope_of is_last s = record {
    event_sequence = s.matcher.next_event_sequence;
    payload = record {
      client_id = s.batch.client_id;
      caused_by_command_sequence = s.batch.command_sequence;
      index_in_command = s.batch.pending_index;
      is_last_for_command = is_last;
      message = s.batch.pending;
    };
  }

  unfoldable pub after_pending : State → Bool × Matcher env.Writer env.Store → Bool × State
  after_pending s (true, m) =
      (true, record { matcher = m; batch = record (s.batch) { has_pending = false } })
  after_pending s (false, m) =
      (false, record { matcher = m; batch = record (s.batch) { failed = true } })

  unfoldable pub publish_pending : Bool → State → Bool × State
  publish_pending is_last s = after_pending s (publish_event (envelope_of is_last s) s.matcher)

  unfoldable pub enqueue : Event → State → State
  enqueue event s = record s {
    batch = record (s.batch) {
      pending = event;
      pending_index = s.batch.next_index;
      next_index = (s.batch.next_index + 1) % u32_mod;
      has_pending = true;
    };
  }

  unfoldable pub enqueue_if : Event → Bool × State → Bool × State
  enqueue_if event (true, s) = (true, enqueue event s)
  enqueue_if event (false, s) = (false, s)

  unfoldable pub add : Event → State → Bool × State
  add event s =
      if s.batch.has_pending
      then enqueue_if event (publish_pending false s)
      else (true, enqueue event s)

  unfoldable pub finish : State → Bool × State
  finish s = if s.batch.has_pending then publish_pending true s else (false, s)

-- The constructor, with the book that its own constructor builds.
unfoldable pub make_matcher : {W S : Type 0} → W → S → OrderBookConfig → OrderBook → ℕ → Matcher W S
make_matcher event_writer snapshot_store config book first_event_sequence = record {
  event_writer = event_writer;
  snapshot_store = snapshot_store;
  book_config = config;
  book = book;
  last_order_id = 0;
  next_event_sequence = first_event_sequence;
  live_resume_event_sequence = 0;
  deferred_event_sequence = 0;
  replay_mode = ReplayMode.live;
  deferred_mode = none;
  deferred_start_replay = false;
  running = true;
  fatal = false;
  fatal_reason = FatalReason.none;
}
