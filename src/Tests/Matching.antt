-- ===== src/Tests/Matching.antt =====
-- Runs of the matcher over an event log in memory, and the theorems at concrete inputs.
use ll_exp.Prelude.{ℕ, ◌≡◌, refl, arith, List, [], ◌∷◌, some}
use ll_exp.Book.Types.{Side, OrderView}
use ll_exp.Book.OrderBook
use ll_exp.Book.OrderBook.{OrderBook}
use ll_exp.Book.Index.Count.{IsCounted, occupied}
use ll_exp.Book.OrderBook.Counted.{Shrinks, erase-Shrinks, insert-IsCounted}
use ll_exp.Book.OrderBook.Inserts.{Entered, insert-Entered}
use ll_exp.Book.Pool.Freelist.{IsFreelist, used}
use ll_exp.Matcher.Types.{
  Command, CommandEnvelope, CommandReadResult, EventEnvelope, ProcessResult, PublishStatus,
  SnapshotOperationStatus,
}
use ll_exp.Matcher.State.{Env, Matcher, make_matcher}
use ll_exp.Matcher.Batch.{IsLogging}
use ll_exp.Matcher.Run.{process}
use ll_exp.Matcher.Protocol.{Processed, process-Processed}
use ll_exp.Tests.Books.{program, config, empty_book, bid_of, three_bids}

empty_book-IsCounted : IsCounted empty_book.index
unfolding program empty_book occupied
empty_book-IsCounted = record { counted = refl; sized = refl; small = omega arith }

empty_book-IsFreelist : IsFreelist empty_book.pool (0 ∷ 1 ∷ 2 ∷ 3 ∷ [])
unfolding program empty_book used
empty_book-IsFreelist = record {
  path = (
    refl,
    omega arith,
    refl,
    (refl, omega arith, refl, (refl, omega arith, refl, (refl, omega arith, refl, refl))),
  );
  distinct = (
    (λ e. absurd (omega arith), (λ e. absurd (omega arith), (λ e. absurd (omega arith), tt))),
    (
      (λ e. absurd (omega arith), (λ e. absurd (omega arith), tt)),
      ((λ e. absurd (omega arith), tt), (tt, tt)),
    ),
  );
  counted = refl;
  shared = refl;
  sized = refl;
  small = omega arith;
}

insert_book_example :
    Entered empty_book
      (0 ∷ 1 ∷ 2 ∷ 3 ∷ [])
      (bid_of 1 150 10)
      (OrderBook.insert empty_book (bid_of 1 150 10))
insert_book_example =
    insert-Entered empty_book (0 ∷ 1 ∷ 2 ∷ 3 ∷ []) (bid_of 1 150 10) empty_book-IsFreelist
      empty_book-IsCounted

three_bids-IsCounted : IsCounted three_bids.index
unfolding three_bids
three_bids-IsCounted =
    let one = insert-IsCounted empty_book (bid_of 1 150 10) empty_book-IsCounted in
    let two =
      insert-IsCounted (OrderBook.insert empty_book (bid_of 1 150 10)).1 (bid_of 2 190 20) one in
    insert-IsCounted
      (OrderBook.insert (OrderBook.insert empty_book (bid_of 1 150 10)).1 (bid_of 2 190 20)).1
      (bid_of 3 190 30) two

erase_book_example :
    Shrinks three_bids (OrderBook.erase three_bids 2).0.status (OrderBook.erase three_bids 2).1
erase_book_example = erase-Shrinks three_bids 2 three_bids-IsCounted

abbrev one_view : List OrderView
one_view = record { id = 4; owner_id = 1; side = Side.ask; price = 120; remaining = 5 } ∷ []

-- A reader that is always empty, a writer that keeps every event, and no snapshots.
abbrev in_memory : Env
in_memory = record {
  Reader = ℕ;
  Writer = List EventEnvelope;
  Store = ℕ;
  read_next = λ r. (CommandReadResult.empty, r);
  publish = λ w e. (PublishStatus.ok, e ∷ w);
  capture = λ s view. (SnapshotOperationStatus.ok, s);
  load = λ s c. (
    SnapshotOperationStatus.unavailable,
    record {
      save_snapshot_command_sequence = 0;
      epoch_id = 0;
      last_order_id = 0;
      next_event_sequence = 0;
      book_config = config;
      orders = [];
    },
    s,
  );
}

in_memory-IsLogging : IsLogging in_memory (λ w. w)
in_memory-IsLogging = record { logs = λ w e w' h. cc }

unfoldable fresh_matcher : Matcher (List EventEnvelope) ℕ
unfolding make_matcher
fresh_matcher = record (make_matcher [] 0 config three_bids 1) { last_order_id = 3 }

-- An ask that takes the whole level at 190.
abbrev sell_all : CommandEnvelope
sell_all = record {
  command_sequence = 8;
  payload = record {
    client_id = 5;
    message =
        Command.new_limit
          (record { id = 4; owner_id = 5; side = Side.ask; price = 190; quantity = 50 });
  };
}

process_example :
    (result : ProcessResult) × (m' : Matcher (List EventEnvelope) ℕ) × (process in_memory sell_all
        fresh_matcher
      ≡ some (result, m'))
    × Processed in_memory (λ w. w) in_memory-IsLogging sell_all fresh_matcher m'
unfolding fresh_matcher
process_example =
    process-Processed in_memory (λ w. w) in_memory-IsLogging sell_all fresh_matcher refl
      (omega arith) three_bids-IsCounted
