-- ===== src/Matcher/Process.antt =====
-- exchange/matcher/include/fexma/matcher/matcher.hpp: `process` and its handlers.
use ll_exp.Prelude.{
  ℕ, zero, suc, ◌+◌, ◌-◌, min, leb, ◌==◌, if◌then◌else◌, Bool, true, false, ◌&&◌, Option, none,
  some,
}
use ll_exp.Book.Types.{
  Side, OrderBookConfig, OrderView, InsertStatus, EraseStatus, SetRemainingStatus,
}
use ll_exp.Book.OrderBook
use ll_exp.Book.OrderBook.{OrderBook}
use ll_exp.Matcher.Types.{
  Event, FatalReason, MatcherSnapshotImage, NewLimitOrder, ProcessResult, ProcessStatus,
  RejectReason, ReplayMode,
}
use ll_exp.Matcher.State.{Env, Machine, Matcher, State, transition_to_fatal_state, add}
use ll_exp.Matcher.Flow.{Flow, next, exit, out_of_fuel, Exec, ◌>>=◌, ◌>>◌}

unfoldable pub opposite_side : Side → Side
opposite_side Side.bid = Side.ask
opposite_side Side.ask = Side.bid

unfoldable pub crosses : Side → ℕ → ℕ → Bool
crosses Side.bid incoming resting = leb resting incoming
crosses Side.ask incoming resting = leb incoming resting

unfoldable pub same_config : OrderBookConfig → OrderBookConfig → Bool
same_config a b =
    a.min_price_tick == b.min_price_tick
    && a.max_price_tick == b.max_price_tick
    && a.max_orders == b.max_orders

abbrev pub fatal_result : {W S : Type 0} → Machine W S → ProcessResult
fatal_result s = record { status = ProcessStatus.fatal; fatal_reason = s.matcher.fatal_reason }

abbrev pub result_of : ProcessStatus → ProcessResult
result_of status = record { status = status; fatal_reason = FatalReason.none }

abbrev pub with_book : {W S : Type 0} → Machine W S → OrderBook → Machine W S
with_book s b = record s { matcher = record (s.matcher) { book = b } }

unfoldable pub restored_matcher : {W S : Type 0} → MatcherSnapshotImage → Matcher W S → Matcher W S
restored_matcher image m = elim m.replay_mode [
  | ReplayMode.live ↦ record m { last_order_id = image.last_order_id }
  | ReplayMode.replay ↦ record m {
    last_order_id = image.last_order_id;
    deferred_event_sequence = image.next_event_sequence;
  }
  | ReplayMode.restoring ↦ record m {
    last_order_id = image.last_order_id;
    deferred_event_sequence = m.live_resume_event_sequence;
    deferred_mode = some ReplayMode.live;
  }
]

unfoldable pub apply_deferred_replay_transition : {W S : Type 0} → Matcher W S → Matcher W S
apply_deferred_replay_transition m =
    let m₁ =
      if m.deferred_start_replay
      then record m {
        live_resume_event_sequence = m.next_event_sequence;
        replay_mode = ReplayMode.replay;
        deferred_start_replay = false;
      }
      else m in
    let m₂ = if m₁.deferred_event_sequence == 0 then m₁ else record m₁ {
      next_event_sequence = m₁.deferred_event_sequence;
      deferred_event_sequence = 0;
    } in
    elim m₂.deferred_mode [
      | none ↦ m₂
      | some mode ↦ record m₂ { replay_mode = mode; deferred_mode = none }
    ]

module _ (env : Env) where
  abbrev pub Handler : Type 0 → Type 0
  Handler A = Exec env.Writer env.Store A

  -- `return {ProcessStatus::Continue};`
  abbrev pub continue_process : Handler ProcessResult
  continue_process s = (next (result_of ProcessStatus.continue), s)

  unfoldable pub after_add : Bool × State env → Flow (Unit {0}) × State env
  after_add (true, s) = (next tt, s)
  after_add (false, s) = (exit (fatal_result s), s)

  -- `if (!events.add(event)) return {ProcessStatus::Fatal, fatal_reason_};`
  unfoldable pub emit : Event → Handler (Unit {0})
  emit event s = after_add (add env event s)

  abbrev pub fatal_event : FatalReason → ℕ → State env → Event
  fatal_event reason offending s = Event.matcher_fatal (record {
    reason = reason;
    offending_order_id = offending;
    last_order_id = s.matcher.last_order_id;
  })

  -- `transition_to_fatal_state(reason); return {ProcessStatus::Fatal, fatal_reason_};`
  unfoldable pub give_up : {A : Type 0} → FatalReason → Handler A
  give_up reason s =
      let s' : State env = record s { matcher = transition_to_fatal_state reason s.matcher } in
      (exit (record { status = ProcessStatus.fatal; fatal_reason = reason }), s')

  -- `return enter_fatal_process(reason, offending, last_order_id_, events);` No caller passes
  -- `EventWriterFatal`, so the event is always added.
  unfoldable pub enter_fatal_process : {A : Type 0} → FatalReason → ℕ → Handler A
  enter_fatal_process reason offending s =
      (emit (fatal_event reason offending s) >> give_up reason) s

  unfoldable pub after_erase : EraseStatus → NewLimitOrder → OrderView → Handler (Unit {0})
  after_erase EraseStatus.ok incoming resting = emit (Event.order_done resting.id)
  after_erase EraseStatus.not_found incoming resting =
      enter_fatal_process FatalReason.book_erase_failed_after_execution incoming.id

  unfoldable pub erase_filled : NewLimitOrder → OrderView → Handler (Unit {0})
  erase_filled incoming resting s =
      let (erased, b) = OrderBook.erase s.matcher.book resting.id in
      after_erase erased.status incoming resting (with_book s b)

  unfoldable pub after_set_remaining : SetRemainingStatus → NewLimitOrder → Handler (Unit {0})
  after_set_remaining SetRemainingStatus.ok incoming s = (next tt, s)
  after_set_remaining _ incoming s =
      enter_fatal_process FatalReason.book_update_failed_after_execution incoming.id s

  unfoldable pub reduce_resting : NewLimitOrder → OrderView → ℕ → Handler (Unit {0})
  reduce_resting incoming resting left s =
      let (changed, b) = OrderBook.set_remaining s.matcher.book resting.id left in
      after_set_remaining changed.status incoming (with_book s b)

  unfoldable pub trade_of : NewLimitOrder → OrderView → ℕ → Event
  trade_of incoming resting executed = Event.trade (record {
    taker_order_id = incoming.id;
    maker_order_id = resting.id;
    taker_owner_id = incoming.owner_id;
    maker_owner_id = resting.owner_id;
    price = resting.price;
    quantity = executed;
  })

  -- The book's share of one trade that leaves `left` of the resting order.
  unfoldable pub settle_resting : NewLimitOrder → OrderView → ℕ → Handler (Unit {0})
  settle_resting incoming resting left =
      if left == 0 then erase_filled incoming resting else reduce_resting incoming resting left

  -- One trade against the best resting order; the value is the new `remaining`.
  unfoldable pub match_once : NewLimitOrder → ℕ → OrderView → Handler ℕ
  match_once incoming remaining resting =
      let executed = min remaining resting.remaining in
      do
        emit (trade_of incoming resting executed)
        settle_resting incoming resting (resting.remaining - executed)
        (λ s. (next (remaining - executed), s))

  unfoldable pub match_round : (ℕ → Handler ℕ) → NewLimitOrder → ℕ → Option OrderView → Handler ℕ
  match_round again incoming remaining none s = (next remaining, s)
  match_round again incoming remaining (some resting) s =
      if crosses incoming.side incoming.price resting.price
      then (match_once incoming remaining resting >>= again) s
      else (next remaining, s)

  -- `while (remaining != 0)`, over the rounds allowed; the value is `remaining` at the end.
  unfoldable pub match_loop : ℕ → NewLimitOrder → ℕ → Handler ℕ
  match_loop zero incoming remaining s = (out_of_fuel, s)
  match_loop (suc fuel) incoming remaining s =
      let opposite = opposite_side incoming.side in
      let round =
        match_round (match_loop fuel incoming) incoming remaining
          (OrderBook.best s.matcher.book opposite) s in
      if remaining == 0 then (next remaining, s) else round

  abbrev pub rested_event : NewLimitOrder → ℕ → Event
  rested_event incoming remaining = Event.order_rested (record {
    id = incoming.id;
    owner_id = incoming.owner_id;
    side = incoming.side;
    price = incoming.price;
    remaining = remaining;
  })

  unfoldable pub after_insert : InsertStatus → NewLimitOrder → ℕ → Handler ProcessResult
  after_insert InsertStatus.ok incoming remaining =
      emit (rested_event incoming remaining) >> continue_process
  after_insert _ incoming remaining =
      if remaining == incoming.quantity
      then (emit (Event.order_rejected incoming.id RejectReason.book_insert_failed)
          >> continue_process)
      else enter_fatal_process FatalReason.book_insert_failed_after_execution incoming.id

  unfoldable pub rest_remaining : NewLimitOrder → ℕ → Handler ProcessResult
  rest_remaining incoming remaining s =
      let (status, b) = OrderBook.insert s.matcher.book (record {
        id = incoming.id;
        owner_id = incoming.owner_id;
        side = incoming.side;
        price = incoming.price;
        quantity = remaining;
      }) in
      after_insert status incoming remaining (with_book s b)

  -- What follows the loop.
  unfoldable pub fill_or_rest : NewLimitOrder → ℕ → Handler ProcessResult
  fill_or_rest incoming remaining =
      if remaining == 0
      then (emit (Event.order_done incoming.id) >> continue_process)
      else rest_remaining incoming remaining

  -- Enough rounds: each but the last two takes an entry out of the index.
  abbrev pub loop_fuel : State env → ℕ
  loop_fuel s = s.matcher.book.index.size + 2

  unfoldable pub match_incoming : NewLimitOrder → Handler ProcessResult
  match_incoming incoming s =
      (match_loop (loop_fuel s) incoming incoming.quantity >>= fill_or_rest incoming) s

  unfoldable pub process_accepted : NewLimitOrder → Handler ProcessResult
  process_accepted incoming =
      if incoming.quantity == 0
      then (emit (Event.order_rejected incoming.id RejectReason.invalid_quantity)
          >> continue_process)
      else (emit (Event.order_accepted incoming.id) >> match_incoming incoming)

  unfoldable pub process_new_limit : NewLimitOrder → Handler ProcessResult
  process_new_limit incoming s =
      if leb incoming.id s.matcher.last_order_id
      then enter_fatal_process FatalReason.non_monotonic_order_id incoming.id s
      else process_accepted incoming
          (record s { matcher = record (s.matcher) { last_order_id = incoming.id } })
