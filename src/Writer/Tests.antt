-- ===== src/Writer/Tests.antt =====
-- A small writer, and the theorems at it.
use jobhunt.Prelude.{
  ℕ, zero, suc, ◌+◌, ◌≡◌, refl, true, false, Option, none, some, ◌⊎◌, inr, codes, List, [], ◌∷◌,
}
use jobhunt.Writer.Commit.{Fault, RunEvent, Writer, write_batch, write_batches}
use jobhunt.Writer.Counters.{numbered_from}
use jobhunt.Writer.Sequences.{events_numbered}
use jobhunt.Writer.Ledger.{Atomic, write_batch-Atomic}

-- An operation adds a number and emits one event.
abbrev add : ℕ → ℕ → ℕ → Fault ⊎ (ℕ × List RunEvent)
add try n s = inr (s + n, record { run_uid = codes "run"; event_type = codes "added" } ∷ [])

-- The database is busy at the first COMMIT of every batch.
abbrev busy_first : ℕ → List ℕ → Option Fault
busy_first zero batch = some Fault.busy
busy_first (suc try) batch = none

abbrev never : ℕ → List ℕ → Option Fault
never try batch = none

abbrev opened : Writer ℕ
opened = record {
  database = record { state = 0; events = [] };
  sequences = [];
  failure = false;
  busy_retries = 0;
  transactions = 0;
  committed_ops = 0;
  dropped = 0;
}

abbrev batches : List (List ℕ)
batches = (1 ∷ 2 ∷ []) ∷ (3 ∷ []) ∷ []

events_numbered_example :
    numbered_from
      (codes "run")
      0
      (write_batches add never busy_first opened batches).database.events
    ≡ true
events_numbered_example =
    events_numbered add never busy_first (codes "run") opened batches refl refl

write_batch-Atomic_example :
    Atomic add never busy_first
      (1 ∷ 2 ∷ [])
      opened
      (write_batch add never busy_first opened (1 ∷ 2 ∷ []))
write_batch-Atomic_example = write_batch-Atomic add never busy_first opened (1 ∷ 2 ∷ [])
