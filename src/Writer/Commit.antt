-- ===== src/Writer/Commit.antt =====
-- A transaction of the writer, its retry, and the loop over the batches
-- (webapp/backend/sources/writer.py; the event rows of webapp/backend/sources/runstore.py).
use jobhunt.Prelude.{
  ℕ, zero, suc, ◌+◌, max, Bool, true, false, Option, none, some, ◌⊎◌, inl, inr, Str, List, [], ◌∷◌,
  ◌++◌, length, if◌then◌else◌, eq_str,
}
use jobhunt.Store.Rows.{put}
use jobhunt.Runs.Profile.{find}

-- An sqlite3.OperationalError that says locked or busy, or any other exception.
pub data Fault : Type 0 where
  busy fatal : Fault

pub record RunEvent : Type 0 where
  pub run_uid : Str
  pub event_type : Str

-- A row of `run_events`.
pub record EventRow : Type 0 where
  pub run_uid : Str
  pub sequence : ℕ
  pub event_type : Str

-- 0 for a run without events, else the maximum and one.
unfoldable pub next_event_sequence : List EventRow → Str → ℕ
next_event_sequence [] run_uid = 0
next_event_sequence (r ∷ rows) run_uid =
    let rest = next_event_sequence rows run_uid in
    if eq_str r.run_uid run_uid then max (r.sequence + 1) rest else rest

abbrev pub Sequences : Type 0
Sequences = List (Str × ℕ)

unfoldable pub or_next : ℕ → Option ℕ → ℕ
or_next n none = n
or_next n (some m) = m

-- The counter of a run, read from the rows when the writer has none.
unfoldable pub allocate : List EventRow → Sequences → Str → ℕ
unfolding or_next next_event_sequence find
allocate rows sequences run_uid =
    or_next (next_event_sequence rows run_uid) (find run_uid sequences)

-- The numbering of an operation's events: the rows to append, and the counters.
unfoldable pub number_events : List EventRow → Sequences → List RunEvent → List EventRow × Sequences
unfolding allocate
number_events rows sequences [] = ([], sequences)
number_events rows sequences (e ∷ events) =
    let n = allocate rows sequences e.run_uid in
    let rest = number_events rows (put e.run_uid (n + 1) sequences) events in
    (record { run_uid = e.run_uid; sequence = n; event_type = e.event_type } ∷ rest.0, rest.1)

-- The database: `state` is every table but `run_events`.
pub record Database (S : Type 0) : Type 0 where
  pub state : S
  pub events : List EventRow

-- How a transaction ends: committed, or rolled back, with the counters as it left them.
pub data Ended (S : Type 0) : Type 0 where
  committed : Database S → Sequences → Ended S
  rolled_back : Fault → Sequences → Ended S

pub record Writer (S : Type 0) : Type 0 where
  pub database : Database S
  pub sequences : Sequences
  pub failure : Bool
  pub busy_retries : ℕ
  pub transactions : ℕ
  pub committed_ops : ℕ
  pub dropped : ℕ

-- `apply` is an operation's `apply` at a try of a transaction, with the events that it leaves;
-- `begins` and `commits` are the faults of BEGIN and COMMIT.
module _ {S Op : Type 0} (apply : ℕ → Op → S → Fault ⊎ (S × List RunEvent))
    (begins commits : ℕ → List Op → Option Fault) where
  unfoldable pub closing : Option Fault → S → List EventRow → Sequences → Ended S
  closing (some f) s rows sequences = rolled_back f sequences
  closing none s rows sequences = committed (record { state = s; events = rows }) sequences

  -- What follows an `apply`: an exception ends the transaction.
  unfoldable pub or_roll_back :
      Sequences → (S × List RunEvent → Ended S) → Fault ⊎ (S × List RunEvent) → Ended S
  or_roll_back sequences go_on (inl f) = rolled_back f sequences
  or_roll_back sequences go_on (inr r) = go_on r

  -- The operations that are left, given the new rows so far; the rows on file are read only.
  unfoldable pub apply_ops :
      ℕ → List Op → List Op → List EventRow → S → List EventRow → Sequences → Ended S
  unfolding number_events closing or_roll_back
  apply_ops try batch [] filed s rows sequences =
      closing (commits try batch) s (filed ++ rows) sequences
  apply_ops try batch (op ∷ ops) filed s rows sequences =
      or_roll_back sequences
        (λ r.
          let numbered = number_events filed sequences r.1 in
          apply_ops try batch ops filed r.0 (rows ++ numbered.0) numbered.1)
        (apply try op s)

  unfoldable pub started : Option Fault → ℕ → List Op → Database S → Sequences → Ended S
  unfolding apply_ops
  started (some f) try batch db sequences = rolled_back f sequences
  started none try batch db sequences = apply_ops try batch batch db.events db.state [] sequences

  unfoldable pub commit_once : ℕ → List Op → Database S → Sequences → Ended S
  unfolding started
  commit_once try batch db sequences = started (begins try batch) try batch db sequences

  -- `_commit_locked`, then what the loop does with its result; a fault restores the counters.
  unfoldable pub settle_commit : ℕ → ℕ → List Op → Writer S → Ended S → Writer S
  unfolding commit_once
  settle_commit tries n batch w (committed db sequences) = record w {
    database = db;
    sequences = sequences;
    transactions = w.transactions + 1;
    committed_ops = w.committed_ops + length batch;
  }
  settle_commit tries n batch w (rolled_back fatal dirty) = record w { failure = true }
  settle_commit zero n batch w (rolled_back busy dirty) = record w {
    failure = true;
    busy_retries = w.busy_retries + 1;
  }
  settle_commit (suc tries) n batch w (rolled_back busy dirty) =
      settle_commit tries (n + 1) batch (record w { busy_retries = w.busy_retries + 1 })
        (commit_once (n + 1) batch w.database w.sequences)

  -- One round of the loop, given whether the writer has failed; then every operation is dropped.
  unfoldable pub write_or_drop : Bool → Writer S → List Op → Writer S
  unfolding settle_commit
  write_or_drop true w batch = record w { dropped = w.dropped + length batch }
  write_or_drop false w batch =
      settle_commit 1 0 batch w (commit_once 0 batch w.database w.sequences)

  unfoldable pub write_batch : Writer S → List Op → Writer S
  unfolding write_or_drop
  write_batch w batch = write_or_drop w.failure w batch

  unfoldable pub write_batches : Writer S → List (List Op) → Writer S
  unfolding write_batch
  write_batches w [] = w
  write_batches w (batch ∷ batches) = write_batches (write_batch w batch) batches
