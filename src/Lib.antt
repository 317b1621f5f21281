-- ===== src/Lib.antt =====
-- A model of the exchange core: the order book, the matcher on top of it, the pipeline that brings it
-- commands, the in-memory write-ahead log that carries its commands and events, and the physical log
-- behind it with its reader and its recovery.
--
-- The parts and the code they stand for:
-- - Book: exchange/order_book. `Book.Types` has the types of include/fexma/order_book/types.hpp,
--   price_level.hpp and price_segment.hpp, and `Book.Scan` is about the bit scans of a segment;
--   `Book.Pool` is detail/order_pool.hpp, an array of orders
--   with an intrusive freelist; `Book.Index` is order_id_index.hpp, linear probing with a backward
--   shift on erasure; `Book.SideBook` is side_book.hpp, the price levels of one side; and
--   `Book.OrderBook` is src/order_book.cpp, which composes the three. `Book.Pool.Freelist`,
--   `Book.Pool.Setup`, `Book.Index.Count`, `Book.SideBook.Prices`, `BestAsk` and `Totals` are about
--   these parts, and `Book.OrderBook.Counted`, `Inserts` and `Restores` about the whole.
-- - Matcher: exchange/matcher. `Matcher.Types` has the types of include/fexma/matcher/types.hpp;
--   `Matcher.State`, `Matcher.Process` and `Matcher.Run` are include/fexma/matcher/matcher.hpp: the
--   batch that collects a command's events, the handler of a new limit order, and the other handlers
--   with `process` and `run`. `Matcher.Flow` is their control flow, `Matcher.Batch` the contract of a
--   batch, `Matcher.Handlers`, `Matcher.Dispatch` and `Matcher.Loop` carry it through the handlers,
--   and `Matcher.Protocol` through `process`.
-- - Wal: exchange/wal. `Wal.Core` is src/core.cpp; `Wal.Bytes` has its copies of byte ranges,
--   `Wal.Core.Setup` is about opening a log, `Wal.Core.Window` about the history that a log stands
--   for, and `Wal.Core.Publish` and `Wal.Core.View` about its use. `Wal.Format` has the headers and
--   checksums of format.hpp and src/config.cpp, `Wal.Disk` the writes of src/physical_wal_file.cpp,
--   `Wal.Slider` is include/fexma/wal/slider.hpp, `Wal.Persistence` src/persistence.cpp and
--   persistence_slider.hpp, and `Wal.Composition` src/wal.cpp, with `Wal.Slider.Progress`,
--   `Wal.Composition.Order` and `Wal.Composition.Runs` about how far they get, and
--   `Wal.Persistence.Outcomes`, `Wal.Composition.Synced` and `Durable` about what is then in the file.
--   `Wal.Reader` with `Open`, `Next` and `Scan` src/reader.cpp, and `Wal.Recovery` src/recovery.cpp.
--   `Wal.Disk.Append`, `Wal.Reader.Records`, `Written`, `Torn`, `Scans` and `Opens`, and
--   `Wal.Recovery.Crash` with `Stores` follow a record from its append to a recovery.
-- - Pipeline: exchange/matcher/src/command_pipeline.cpp, the ring of commands with its five frontiers.
--   `Pipeline.Queue` is the history that a pipeline stands for, `Pipeline.Publish`, `Pipeline.Live` and
--   `Pipeline.Decisions` are about its calls, over the equations of `Pipeline.Steps`, and
--   `Pipeline.Runs` is about sequences of calls.
-- - Codec: exchange/matcher/src/codec.cpp, the payloads of commands (`Codec.Commands`) and events
--   (`Codec.Events`) as bytes; `Codec.CommandTrips` and `Codec.EventTrips` decode what was encoded,
--   `Codec.CommandCanon` and `Codec.EventCanon` encode what was decoded. `Bytes` has the little-endian
--   fields that the codec and the physical log share.
--
-- A function keeps its name from the code. Where a function branches on the result of another, the
-- code after that call is a function of its own (`after_erase`, `after_insert`, `after_publish`).
-- A call that changes an object returns the object with its result. Numbers are natural numbers and
-- the wrap-around of a machine word is written out. An array read out of range gives a default value
-- and a write out of range changes nothing.
--
-- The matcher's reader, writer and snapshot store are template parameters of the code and the record
-- `Env` of the model. Of the writer `Matcher.Batch.IsLogging` is assumed: an event for which it
-- returns `Ok` is the next of its log.
--
-- A file is the list of its bytes. The answers of the operating system are data of the model: a list of
-- answers for the calls of a writer, a list of faults for the reads of a reader, and a record of
-- Booleans for a recovery. Theorems on a recovery take the answers without a fault; those on an append
-- take any.
--
-- Loops over a container recur on it. The matching loop has as many rounds as the index has entries
-- and two more: a round takes an entry out of the index or fills the incoming order, and one more
-- round ends the loop. A probe loop has one round for each bucket, as in the code. `run` waits for
-- commands without end, so its model takes the number of reads. The scan of a physical log takes its
-- rounds likewise, one for each record and one for the end; the loops over a padding have a round for
-- each byte of it, which is more than they use.
--
-- Not modelled: the memory orders of the frontiers of the log and the pipeline (each call is one step),
-- the probe statistics of the index, the debug-only poisoning of free slots, the checks
-- `validate_freelist` and `validate_invariants`, the failures that tests inject, the branches of
-- physical_wal_file.cpp for Windows, exchange/matcher/src/replay.cpp, exchange/snapshot_demo and utilities.
pub mod Prelude
pub mod Bytes
pub mod Codec
pub mod Book
pub mod Matcher
pub mod Wal
pub mod Pipeline
mod Tests
