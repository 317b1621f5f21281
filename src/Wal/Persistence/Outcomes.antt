-- ===== src/Wal/Persistence/Outcomes.antt =====
-- persistence.cpp: what a successful call of the persistence did to the file.
use ll_exp.Prelude.{◌≡◌, refl, arith, Bool, true, false, not, ◌||◌, some, none, Option, if_cases}
use ll_exp.Wal.Types.{RecordView}
use ll_exp.Wal.Disk.{
  Answer, PhysicalWalAdapter, first_answer, later_answers, append_record, sync, answer_is_done,
}
use ll_exp.Wal.Disk.Append.{
  Grown, Wrote, whole, cut, Appended, written, not_open, wrong_size, record_bytes,
  append_record-Appended,
}
use ll_exp.Wal.Persistence.{PersistenceModule, append, process, sync_persistence, after_call}

-- A record was appended to the open file.
pub record Stored (view : RecordView) (p q : PersistenceModule) : Type 0 where
  pub before : PhysicalWalAdapter
  pub opened : p.physical_wal ≡ some before
  pub after : PhysicalWalAdapter
  pub grown : Grown (record_bytes before.config view.sequence view.payload) before after
  pub left : q ≡ record p { physical_wal = some after }

abbrev pub AppendOutcome : RecordView → PersistenceModule → Bool × PersistenceModule → Type 0
AppendOutcome view p (true, q) = Stored view p q
AppendOutcome view p (false, q) = Unit {0}

outcome_of_write :
    (view : RecordView) (p : PersistenceModule) (a : PhysicalWalAdapter)
    (r : Bool × PhysicalWalAdapter)
    → p.physical_wal ≡ some a
    → Wrote (record_bytes a.config view.sequence view.payload) a r
    → AppendOutcome view p (after_call p r)
outcome_of_write view p a _ e (whole {a' = a'} g) = record {
  before = a;
  opened = e;
  after = a';
  grown = g;
  left = refl;
}
outcome_of_write view p a _ e (cut n short g) = tt

outcome_of_append :
    (view : RecordView) (p : PersistenceModule) (a : PhysicalWalAdapter)
    (r : Bool × PhysicalWalAdapter)
    → p.physical_wal ≡ some a
    → Appended view.sequence view.payload a r
    → AppendOutcome view p (after_call p r)
outcome_of_append view p a r e (written running same wrote) = outcome_of_write view p a r e wrote
outcome_of_append view p a _ e (not_open closed) = tt
outcome_of_append view p a _ e (wrong_size other) = tt

-- `process` fails, or it has appended the record.
pub process-outcome :
    (view : RecordView) (p : PersistenceModule) → AppendOutcome view p (process view p)
unfolding process append
process-outcome view p = go p.physical_wal p.failed
  where
    go :
        (wal : Option PhysicalWalAdapter) (failed : Bool)
        → AppendOutcome view
            (record { physical_wal = wal; failed = failed })
            (process view (record { physical_wal = wal; failed = failed }))
    go none failed = tt
    go (some a) failed =
        let q : PersistenceModule = record { physical_wal = some a; failed = failed } in
        if_cases (AppendOutcome view q) (not a.is_open || failed) (λ bad. tt)
          (λ good.
            outcome_of_append view q a (append_record view.sequence view.payload a) refl
              (append_record-Appended view.sequence view.payload a))

-- The file was synchronized.
pub record Settled (p q : PersistenceModule) : Type 0 where
  pub before : PhysicalWalAdapter
  pub opened : p.physical_wal ≡ some before
  pub answer : first_answer before.answers ≡ Answer.done
  pub left : q ≡ record {
    physical_wal = some (record before { answers = later_answers before.answers });
    failed = false;
  }

abbrev pub SyncOutcome : PersistenceModule → Bool × PersistenceModule → Type 0
SyncOutcome p (true, q) = Settled p q
SyncOutcome p (false, q) = Unit {0}

outcome_of_sync :
    (p : PersistenceModule) (a : PhysicalWalAdapter) (answer : Answer)
    → p.physical_wal ≡ some a
    → p.failed ≡ false
    → first_answer a.answers ≡ answer
    → SyncOutcome p
        (after_call p (answer_is_done answer, record a { answers = later_answers a.answers }))
unfolding answer_is_done
outcome_of_sync p a Answer.done e alive given = record {
  before = a;
  opened = e;
  answer = given;
  left = λ i. record {
    physical_wal = some (record a { answers = later_answers a.answers });
    failed = alive i;
  };
}
outcome_of_sync p a (Answer.failed n) e alive given = tt

pub sync-outcome : (p : PersistenceModule) → SyncOutcome p (sync_persistence p)
unfolding sync_persistence sync
sync-outcome p = go p.physical_wal p.failed
  where
    go :
        (wal : Option PhysicalWalAdapter) (failed : Bool)
        → SyncOutcome
            (record { physical_wal = wal; failed = failed })
            (sync_persistence (record { physical_wal = wal; failed = failed }))
    go none failed = tt
    go (some a) failed =
        let q : PersistenceModule = record { physical_wal = some a; failed = failed } in
        if_cases (SyncOutcome q) (not a.is_open || failed) (λ bad. tt)
          (λ good.
            let alive : failed ≡ false = ground (arith, good) in
            if_cases (λ (r : Bool × PhysicalWalAdapter). SyncOutcome q (after_call q r))
              (not a.is_open) (λ closed. tt)
              (λ running. outcome_of_sync q a (first_answer a.answers) refl alive refl))
