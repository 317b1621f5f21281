-- ===== src/Matcher/Run.antt =====
-- exchange/matcher/include/fexma/matcher/matcher.hpp: the snapshot handlers, `process` and `run`.
use ll_exp.Prelude.{
  ℕ, zero, suc, ◌+◌, ◌%◌, ◌==◌, if◌then◌else◌, Bool, true, false, not, ◌&&◌, Option, none, some,
}
use ll_exp.Book.Types.{RestoreStatus, u64_mod}
use ll_exp.Book.OrderBook
use ll_exp.Matcher.Types.{
  Command, CommandEnvelope, CommandReadResult, Event, FatalReason, LoadSnapshotCommand,
  MatcherSnapshotImage, MatcherSnapshotView, ProcessResult, ProcessStatus, RejectReason, ReplayMode,
  RunResult, RunStatus, SnapshotOperationStatus,
}
use ll_exp.Matcher.State.{
  Env, Machine, Matcher, make_batch, State, transition_to_fatal_state, finish,
}
use ll_exp.Matcher.Flow.{Flow, next, exit, out_of_fuel, ◌>>=◌, ◌>>◌}
use ll_exp.Matcher.Process.{
  Handler, emit, enter_fatal_process, fatal_event, fatal_result, result_of, continue_process,
  with_book, same_config, restored_matcher, apply_deferred_replay_transition, process_new_limit,
}

-- `if (replay_mode_ == ReplayMode::Live) deferred_start_replay_ = true;`
unfoldable pub mark_start_replay : {W S : Type 0} → Matcher W S → Matcher W S
mark_start_replay m = elim m.replay_mode [
  | ReplayMode.live ↦ record m { deferred_start_replay = true }
  | _ ↦ m
]

-- `if (replay_mode_ == ReplayMode::Replay) deferred_mode_ = ReplayMode::Restoring;`
unfoldable pub mark_stop_replay : {W S : Type 0} → Matcher W S → Matcher W S
mark_stop_replay m = elim m.replay_mode [
  | ReplayMode.replay ↦ record m { deferred_mode = some ReplayMode.restoring }
  | _ ↦ m
]

module _ (env : Env) where
  abbrev pub snapshot_view : Machine env.Writer env.Store → MatcherSnapshotView
  snapshot_view s = record {
    save_snapshot_command_sequence = s.batch.command_sequence;
    last_order_id = s.matcher.last_order_id;
    next_event_sequence = (s.matcher.next_event_sequence + 1) % u64_mod;
    book_config = s.matcher.book_config;
    book = s.matcher.book;
  }

  unfoldable pub after_capture : SnapshotOperationStatus → Handler env ProcessResult
  after_capture SnapshotOperationStatus.ok = emit env Event.save_snapshot >> continue_process env
  after_capture _ = enter_fatal_process env FatalReason.snapshot_capture_failed 0

  abbrev pub with_store : State env → env.Store → State env
  with_store s store = record s { matcher = record (s.matcher) { snapshot_store = store } }

  -- The batch's command sequence is the one that `process` passes.
  unfoldable pub process_save_snapshot : Handler env ProcessResult
  process_save_snapshot s =
      let (status, store) = env.capture s.matcher.snapshot_store (snapshot_view s) in
      after_capture status (with_store s store)

  abbrev pub load_failure : SnapshotOperationStatus → FatalReason
  load_failure SnapshotOperationStatus.unavailable = FatalReason.snapshot_load_unavailable
  load_failure _ = FatalReason.snapshot_load_invalid

  unfoldable pub image_fits : LoadSnapshotCommand → MatcherSnapshotImage → State env → Bool
  image_fits command image s =
      same_config image.book_config s.matcher.book_config
      && image.save_snapshot_command_sequence == command.save_snapshot_command_sequence
      && image.epoch_id == command.snapshot_epoch_id

  unfoldable pub after_restore :
      RestoreStatus → LoadSnapshotCommand → MatcherSnapshotImage → Handler env ProcessResult
  after_restore RestoreStatus.ok command image s =
      (emit env (Event.load_snapshot command) >> continue_process env)
        (record s { matcher = restored_matcher image s.matcher })
  after_restore _ command image s = enter_fatal_process env FatalReason.snapshot_load_invalid 0 s

  -- From the check of the image on.
  unfoldable pub restore_image :
      LoadSnapshotCommand → MatcherSnapshotImage → Handler env ProcessResult
  restore_image command image s =
      let (restored, b) = OrderBook.restore s.matcher.book image.orders in
      if image_fits command image s
      then after_restore restored.status command image (with_book s b)
      else enter_fatal_process env FatalReason.snapshot_load_invalid 0 s

  unfoldable pub after_load :
      SnapshotOperationStatus
      → LoadSnapshotCommand
      → MatcherSnapshotImage
      → Handler env ProcessResult
  after_load SnapshotOperationStatus.ok command image = restore_image command image
  after_load failed command image = enter_fatal_process env (load_failure failed) 0

  unfoldable pub process_load_snapshot : LoadSnapshotCommand → Handler env ProcessResult
  process_load_snapshot command s =
      let (status, image, store) = env.load s.matcher.snapshot_store command in
      after_load status command image (with_store s store)

  -- A change of the matcher after the event of the command is queued.
  abbrev pub update_matcher :
      ProcessStatus
      → (Matcher env.Writer env.Store → Matcher env.Writer env.Store)
      → Handler env ProcessResult
  update_matcher status f s = (next (result_of status), record s { matcher = f s.matcher })

  unfoldable pub process_start_replay : Handler env ProcessResult
  process_start_replay =
      emit env Event.start_replay >> update_matcher ProcessStatus.continue mark_start_replay

  unfoldable pub process_stop_replay : Handler env ProcessResult
  process_stop_replay =
      emit env Event.stop_replay >> update_matcher ProcessStatus.continue mark_stop_replay

  unfoldable pub process_shutdown : Handler env ProcessResult
  process_shutdown =
      emit env Event.shutdown
      >> update_matcher ProcessStatus.stop (λ m. record m { running = false })

  unfoldable pub process_unknown : Handler env ProcessResult
  process_unknown =
      emit env (Event.order_rejected 0 RejectReason.unknown_command) >> continue_process env

  -- `processed = handler(...)`: a handler's early return is its result too.
  abbrev pub settle : Flow ProcessResult × State env → Flow ProcessResult × State env
  settle (exit r, s) = (next r, s)
  settle (next r, s) = (next r, s)
  settle (out_of_fuel, s) = (out_of_fuel, s)

  -- The `switch` of `process`. Where the handler stands in the `switch` itself, its early return is
  -- that of `process`.
  unfoldable pub dispatch : Command → Handler env ProcessResult
  dispatch Command.none = process_unknown
  dispatch (Command.new_limit order) = λ s. settle (process_new_limit env order s)
  dispatch Command.save_snapshot = λ s. settle (process_save_snapshot s)
  dispatch (Command.load_snapshot command) = λ s. settle (process_load_snapshot command s)
  dispatch Command.shutdown = process_shutdown
  dispatch Command.start_replay = process_start_replay
  dispatch Command.stop_replay = process_stop_replay

  -- `if (!events.failed() && events.empty())`: a command that produced no event is fatal.
  unfoldable pub check_no_event : ProcessResult → Handler env ProcessResult
  check_no_event processed s =
      let reason = FatalReason.command_produced_no_event in
      if not s.batch.failed && not s.batch.has_pending
      then (emit env (fatal_event env reason 0 s) >> (λ s'. (
        next (record { status = ProcessStatus.fatal; fatal_reason = reason }),
        record s' { matcher = transition_to_fatal_state reason s'.matcher },
      )))
          s
      else (next processed, s)

  unfoldable pub after_finish : ProcessResult → Bool × State env → Flow ProcessResult × State env
  after_finish processed (true, s) = (next processed, s)
  after_finish processed (false, s) = (exit (fatal_result s), s)

  -- `if (!events.failed() && !events.finish())`
  unfoldable pub finish_batch : ProcessResult → Handler env ProcessResult
  finish_batch processed s =
      if s.batch.failed then (next processed, s) else after_finish processed (finish env s)

  unfoldable pub process_batch : Command → Handler env ProcessResult
  process_batch command = dispatch command >>= check_no_event >>= finish_batch

  -- What `process` returns from its batch; an early return leaves the deferred transition out.
  -- `none` stands for a matching loop whose fuel ran out.
  abbrev pub conclude :
      Flow ProcessResult × State env → Option (ProcessResult × Matcher env.Writer env.Store)
  conclude (next r, s) = some (r, apply_deferred_replay_transition s.matcher)
  conclude (exit r, s) = some (r, s.matcher)
  conclude (out_of_fuel, s) = none

  abbrev pub start : CommandEnvelope → Matcher env.Writer env.Store → State env
  start envelope m = record {
    matcher = m;
    batch = make_batch envelope.payload.client_id envelope.command_sequence;
  }

  unfoldable pub process :
      CommandEnvelope
      → Matcher env.Writer env.Store
      → Option (ProcessResult × Matcher env.Writer env.Store)
  process envelope m =
      if m.fatal
      then some (record { status = ProcessStatus.fatal; fatal_reason = m.fatal_reason }, m)
      else conclude (process_batch envelope.payload.message (start envelope m))

  -- `run`, over the number of reads allowed; `none` when that is used up.
  abbrev pub Running : Type 0
  Running = RunResult × Matcher env.Writer env.Store × env.Reader

  unfoldable pub after_process :
      (Matcher env.Writer env.Store → Option Running)
      → env.Reader
      → ProcessResult × Matcher env.Writer env.Store
      → Option Running
  after_process again reader (r, m) = elim r.status [
    | ProcessStatus.continue ↦ again m
    | ProcessStatus.stop ↦
        some (record { status = RunStatus.stopped; fatal_reason = FatalReason.none }, m, reader)
    | ProcessStatus.fatal ↦
        some (record { status = RunStatus.fatal; fatal_reason = r.fatal_reason }, m, reader)
  ]

  unfoldable pub run_loop : ℕ → Matcher env.Writer env.Store → env.Reader → Option Running
  run_loop zero m reader = none
  run_loop (suc fuel) m reader =
      let (read, reader') = env.read_next reader in
      let round : Option Running = elim read [
        | CommandReadResult.empty ↦ run_loop fuel m reader'
        | CommandReadResult.fatal ↦ some (
          record { status = RunStatus.fatal; fatal_reason = FatalReason.command_reader_fatal },
          transition_to_fatal_state FatalReason.command_reader_fatal m,
          reader',
        )
        | CommandReadResult.ok envelope ↦ elim (process envelope m) [
          | none ↦ none
          | some done ↦ after_process (λ m'. run_loop fuel m' reader') reader' done
        ]
      ] in
      if m.running
      then round
      else some (record { status = RunStatus.stopped; fatal_reason = FatalReason.none }, m, reader)

  unfoldable pub run : ℕ → Matcher env.Writer env.Store → env.Reader → Option Running
  run fuel m reader =
      if m.fatal
      then some (record { status = RunStatus.fatal; fatal_reason = m.fatal_reason }, m, reader)
      else run_loop fuel m reader
