-- ===== src/Matcher/Dispatch.antt =====
-- matcher.hpp: every handler keeps what an `IsInvariant` asks for.
use ll_exp.Prelude.{ℕ, ◌≡◌, refl, arith, ◌==◌, leb, ◌⊎◌, inl, inr, Bool-cases}
use ll_exp.Book.Types.{InsertStatus, RestoreStatus}
use ll_exp.Book.OrderBook.Counted.{insert-IsCounted}
use ll_exp.Book.OrderBook.Restores.{restore-IsCounted}
use ll_exp.Matcher.Types.{Event, FatalReason, NewLimitOrder, ProcessResult, ProcessStatus}
use ll_exp.Matcher.State.{Env, Matcher, State}
use ll_exp.Matcher.Flow.{Flow, next, exit, out_of_fuel, Ensures, Ensures-bind, Ensures-imp, ◌>>◌}
use ll_exp.Matcher.Process.{
  Handler, emit, enter_fatal_process, match_loop, after_insert, rest_remaining, fill_or_rest,
  loop_fuel, match_incoming, process_accepted, process_new_limit, continue_process,
}
use ll_exp.Matcher.Types.{
  Command, LoadSnapshotCommand, MatcherSnapshotImage, SnapshotOperationStatus,
}
use ll_exp.Matcher.Process.{restored_matcher}
use ll_exp.Matcher.Run.{
  after_capture, process_save_snapshot, after_restore, image_fits, restore_image, after_load,
  process_load_snapshot, mark_start_replay, mark_stop_replay, update_matcher, process_start_replay,
  process_stop_replay, process_shutdown, process_unknown, settle, dispatch,
}
use ll_exp.Matcher.Handlers.{
  IsInvariant, Keeps, Keeps-bind, emit-Keeps, emit_continue-Keeps, enter_fatal_process-Keeps,
  with_book-P,
}
use ll_exp.Matcher.Loop.{match_loop-Keeps}

restored-kept :
    {W S : Type 0} (image : MatcherSnapshotImage) (m : Matcher W S)
    → ((restored_matcher image m).event_writer ≡ m.event_writer)
      × ((restored_matcher image m).next_event_sequence ≡ m.next_event_sequence)
unfolding restored_matcher
restored-kept image m = ground arith

restored-book :
    {W S : Type 0} (image : MatcherSnapshotImage) (m : Matcher W S)
    → (restored_matcher image m).book ≡ m.book
unfolding restored_matcher
restored-book image m = ground arith

-- Setting the flags of the deferred transition.
marks-kept :
    {W S : Type 0} (m : Matcher W S)
    → ((mark_start_replay m).event_writer ≡ m.event_writer)
      × ((mark_start_replay m).next_event_sequence ≡ m.next_event_sequence)
      × ((mark_stop_replay m).event_writer ≡ m.event_writer)
      × ((mark_stop_replay m).next_event_sequence ≡ m.next_event_sequence)
unfolding mark_start_replay mark_stop_replay
marks-kept m = ground arith

marks-book :
    {W S : Type 0} (m : Matcher W S)
    → ((mark_start_replay m).book ≡ m.book) × ((mark_stop_replay m).book ≡ m.book)
unfolding mark_start_replay mark_stop_replay
marks-book m = ground arith

module _ (env : Env) (P F Q : State env → Type 0) (inv : IsInvariant env P F Q) where
  abbrev K : {A : Type 0} → Handler env A → Type 0
  K h = Keeps env P F Q inv h

  fatal-K :
      (reason : FatalReason) (offending : ℕ)
      → K (enter_fatal_process env {A = ProcessResult} reason offending)
  fatal-K = enter_fatal_process-Keeps env P F Q inv ProcessResult

  event-K : (event : Event) → K (emit env event >> continue_process env)
  event-K = emit_continue-Keeps env P F Q inv

  after_insert-K :
      (status : InsertStatus) (incoming : NewLimitOrder) (remaining : ℕ)
      → K (after_insert env status incoming remaining)
  unfolding after_insert
  after_insert-K InsertStatus.ok incoming remaining s p = event-K _ s p
  after_insert-K _ incoming remaining s p = elim (Bool-cases (remaining == incoming.quantity)) [
    | inl whole ↦ rw whole (event-K _ s p)
    | inr part ↦ rw part (fatal-K _ incoming.id s p)
  ]

  rest_remaining-K :
      (incoming : NewLimitOrder) (remaining : ℕ) → K (rest_remaining env incoming remaining)
  unfolding rest_remaining
  rest_remaining-K incoming remaining s p =
      after_insert-K _ incoming remaining _
        (with_book-P env P F Q inv s _ p (insert-IsCounted s.matcher.book _ (inv.counted s p)))

  fill_or_rest-K :
      (incoming : NewLimitOrder) (remaining : ℕ) → K (fill_or_rest env incoming remaining)
  unfolding fill_or_rest
  fill_or_rest-K incoming remaining s p = elim (Bool-cases (remaining == 0)) [
    | inl filled ↦ rw filled (event-K _ s p)
    | inr left ↦ rw left (rest_remaining-K incoming remaining s p)
  ]

  match_incoming-K : (incoming : NewLimitOrder) → K (match_incoming env incoming)
  unfolding match_incoming
  match_incoming-K incoming s p =
      Ensures-bind (λ _ s'. P s') (λ _ s'. Q s') (λ _ s'. P s') (fill_or_rest env incoming)
        (match_loop env (loop_fuel env s) incoming incoming.quantity s)
        (match_loop-Keeps env P F Q inv (loop_fuel env s) incoming incoming.quantity s p
          (omega arith) (inr (omega arith)))
        (λ remaining s' q. fill_or_rest-K incoming remaining s' q)

  process_accepted-K : (incoming : NewLimitOrder) → K (process_accepted env incoming)
  unfolding process_accepted
  process_accepted-K incoming s p = elim (Bool-cases (incoming.quantity == 0)) [
    | inl bad ↦ rw bad (event-K _ s p)
    | inr good ↦ rw good (
        Keeps-bind env P F Q inv (emit env (Event.order_accepted incoming.id))
          (λ _. match_incoming env incoming) (emit-Keeps env P F Q inv _)
          (λ _. match_incoming-K incoming) s p)
  ]

  process_new_limit-K : (incoming : NewLimitOrder) → K (process_new_limit env incoming)
  unfolding process_new_limit
  process_new_limit-K incoming s p = elim (Bool-cases (leb incoming.id s.matcher.last_order_id)) [
    | inl old ↦ rw old (fatal-K _ incoming.id s p)
    | inr new ↦ rw new (process_accepted-K incoming _ (inv.moves s _ p refl refl (inv.counted s p)))
  ]

  after_capture-K : (status : SnapshotOperationStatus) → K (after_capture env status)
  unfolding after_capture
  after_capture-K SnapshotOperationStatus.ok = event-K _
  after_capture-K _ = fatal-K _ 0

  process_save_snapshot-K : K (process_save_snapshot env)
  unfolding process_save_snapshot
  process_save_snapshot-K s p = after_capture-K _ _ (inv.moves s _ p refl refl (inv.counted s p))

  after_restore-K :
      (status : RestoreStatus) (command : LoadSnapshotCommand) (image : MatcherSnapshotImage)
      → K (after_restore env status command image)
  unfolding after_restore
  after_restore-K RestoreStatus.ok command image s p = event-K _ _ (
      inv.moves s (restored_matcher image s.matcher) p (restored-kept image s.matcher).0
        (restored-kept image s.matcher).1 (rw (restored-book image s.matcher) (inv.counted s p)))
  after_restore-K _ command image s p = fatal-K _ 0 s p

  restore_image-K :
      (command : LoadSnapshotCommand) (image : MatcherSnapshotImage)
      → K (restore_image env command image)
  unfolding restore_image
  restore_image-K command image s p = elim (Bool-cases (image_fits env command image s)) [
    | inl fits ↦ rw fits (
        after_restore-K _ command image _
          (with_book-P env P F Q inv s _ p (restore-IsCounted s.matcher.book _ (inv.counted s p))))
    | inr other ↦ rw other (fatal-K _ 0 s p)
  ]

  after_load-K :
      (status : SnapshotOperationStatus) (command : LoadSnapshotCommand)
      (image : MatcherSnapshotImage)
      → K (after_load env status command image)
  unfolding after_load
  after_load-K SnapshotOperationStatus.ok command image = restore_image-K command image
  after_load-K _ command image = fatal-K _ 0

  process_load_snapshot-K : (command : LoadSnapshotCommand) → K (process_load_snapshot env command)
  unfolding process_load_snapshot
  process_load_snapshot-K command s p =
      after_load-K _ command _ _ (inv.moves s _ p refl refl (inv.counted s p))

  -- Of a handler in the `switch` itself only the writer's failure makes `process` return.
  abbrev S : {A : Type 0} → Handler env A → Type 0
  S h = (s : State env) → P s → Ensures (λ _ s'. P s') (λ _ s'. F s') (h s)

  update-S :
      (event : Event) (status : ProcessStatus)
      (f : Matcher env.Writer env.Store → Matcher env.Writer env.Store)
      → ((s : State env) → P s → P (record s { matcher = f s.matcher }))
      → S (emit env event >> update_matcher env status f)
  update-S event status f h s p =
      Ensures-bind (λ _ s'. P s') (λ _ s'. F s') (λ _ s'. P s') (λ _. update_matcher env status f)
        (emit env event s) (inv.emits event s p) (λ _ s' q. h s' q)

  process_start_replay-S : S (process_start_replay env)
  unfolding process_start_replay
  process_start_replay-S = update-S _ _ mark_start_replay λ s p.
      inv.moves s _ p (marks-kept s.matcher).0 (marks-kept s.matcher).1
        (rw (marks-book s.matcher).0 (inv.counted s p))

  process_stop_replay-S : S (process_stop_replay env)
  unfolding process_stop_replay
  process_stop_replay-S = update-S _ _ mark_stop_replay λ s p.
      inv.moves s _ p (marks-kept s.matcher).2 (marks-kept s.matcher).3
        (rw (marks-book s.matcher).1 (inv.counted s p))

  process_shutdown-S : S (process_shutdown env)
  unfolding process_shutdown
  process_shutdown-S = update-S _ _ _ λ s p. inv.moves s _ p refl refl (inv.counted s p)

  process_unknown-S : S (process_unknown env)
  unfolding process_unknown
  process_unknown-S s p =
      Ensures-bind (λ _ s'. P s') (λ _ s'. F s') (λ _ s'. P s') (λ _. continue_process env)
        (emit env _ s) (inv.emits _ s p) (λ _ s' q. q)

  -- Once the `switch` is through, `P` holds, or `Q` where a handler returned early.
  abbrev pub Handled : Flow ProcessResult × State env → Type 0
  Handled r = Ensures (λ _ s'. P s' ⊎ Q s') (λ _ s'. F s') r

  settle-Handled :
      (r : Flow ProcessResult × State env)
      → Ensures (λ _ s'. P s') (λ _ s'. Q s') r
      → Handled (settle env r)
  settle-Handled (next a, s) h = inl h
  settle-Handled (exit p, s) h = inr h
  settle-Handled (out_of_fuel, s) h = h

  in_switch :
      (r : Flow ProcessResult × State env) → Ensures (λ _ s'. P s') (λ _ s'. F s') r → Handled r
  in_switch r h =
      Ensures-imp (λ _ s'. P s') (λ _ s'. F s') (λ _ s'. P s' ⊎ Q s') r h (λ _ s' p. inl p)

  pub dispatch-Handled :
      (command : Command) (s : State env) → P s → Handled (dispatch env command s)
  unfolding dispatch
  dispatch-Handled Command.none s p = in_switch _ (process_unknown-S s p)
  dispatch-Handled (Command.new_limit o) s p = settle-Handled _ (process_new_limit-K o s p)
  dispatch-Handled Command.save_snapshot s p = settle-Handled _ (process_save_snapshot-K s p)
  dispatch-Handled (Command.load_snapshot c) s p = settle-Handled _ (process_load_snapshot-K c s p)
  dispatch-Handled Command.shutdown s p = in_switch _ (process_shutdown-S s p)
  dispatch-Handled Command.start_replay s p = in_switch _ (process_start_replay-S s p)
  dispatch-Handled Command.stop_replay s p = in_switch _ (process_stop_replay-S s p)
