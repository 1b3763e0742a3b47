-- ===== src/Writer/Ledger.antt =====
-- What a failed transaction leaves, what a committed one leaves, and what the counts of the writer
-- say (webapp/backend/sources/writer.py).
use jobhunt.Prelude.{
  ℕ, zero, suc, ◌+◌, ◌≡◌, refl, Bool, true, false, Option, none, some, ◌⊎◌, inl, inr, List, [], ◌∷◌,
  ◌++◌, length,
}
use jobhunt.Writer.Commit.{
  Fault, RunEvent, EventRow, Sequences, number_events, Database, Ended, Writer, closing,
  or_roll_back, apply_ops, started, commit_once, settle_commit, write_or_drop, write_batch,
}

module _ {S Op : Type 0} (apply : ℕ → Op → S → Fault ⊎ (S × List RunEvent))
    (begins commits : ℕ → List Op → Option Fault) where
  -- Every operation applied, each to what the one before it left; the database has the last state
  -- and, behind the rows on file, the numbered events of all of them.
  abbrev pub Whole :
      ℕ → List Op → List EventRow → S → List EventRow → Sequences → Database S → Sequences → Type 0
  Whole try [] filed s rows sequences db counters =
      (db.state ≡ s) × (db.events ≡ filed ++ rows) × (counters ≡ sequences)
  Whole try (op ∷ ops) filed s rows sequences db counters =
      (r : S × List RunEvent) × (apply try op s ≡ inr r)
      × Whole try ops filed r.0 (rows ++ (number_events filed sequences r.1).0)
          (number_events filed sequences r.1).1 db counters

  abbrev pub WholeEnd :
      ℕ → List Op → List EventRow → S → List EventRow → Sequences → Ended S → Type 0
  WholeEnd try ops filed s rows sequences (Ended.committed db counters) =
      Whole try ops filed s rows sequences db counters
  WholeEnd try ops filed s rows sequences (Ended.rolled_back f dirty) = Unit

  closing-WholeEnd :
      (try : ℕ) (o : Option Fault) (filed : List EventRow) (s : S) (rows : List EventRow)
      (sequences : Sequences)
      → WholeEnd try [] filed s rows sequences
          (closing apply begins commits o s (filed ++ rows) sequences)
  unfolding closing
  closing-WholeEnd try none filed s rows sequences = (refl, refl, refl)
  closing-WholeEnd try (some f) filed s rows sequences = tt

  found-WholeEnd :
      (try : ℕ) (op : Op) (ops : List Op) (filed : List EventRow) (s : S) (rows : List EventRow)
      (sequences : Sequences) (r : S × List RunEvent) (x : Ended S)
      → apply try op s ≡ inr r
      → WholeEnd try ops filed r.0
          (rows ++ (number_events filed sequences r.1).0)
          (number_events filed sequences r.1).1
          x
      → WholeEnd try (op ∷ ops) filed s rows sequences x
  found-WholeEnd try op ops filed s rows sequences r (Ended.committed db counters) e h = (r, e, h)
  found-WholeEnd try op ops filed s rows sequences r (Ended.rolled_back f dirty) e h = tt

  -- What follows an operation is whole when the rest is.
  or_roll_back-WholeEnd :
      (try : ℕ) (op : Op) (ops : List Op) (filed : List EventRow) (s : S) (rows : List EventRow)
      (sequences : Sequences) (go_on : S × List RunEvent → Ended S)
      (x : Fault ⊎ (S × List RunEvent))
      → apply try op s ≡ x
      → ((r : S × List RunEvent)
          → WholeEnd try ops filed r.0
              (rows ++ (number_events filed sequences r.1).0)
              (number_events filed sequences r.1).1
              (go_on r))
      → WholeEnd try
          (op ∷ ops)
          filed
          s
          rows
          sequences
          (or_roll_back apply begins commits sequences go_on x)
  unfolding or_roll_back
  or_roll_back-WholeEnd try op ops filed s rows sequences go_on (inl f) e h = tt
  or_roll_back-WholeEnd try op ops filed s rows sequences go_on (inr r) e h =
      found-WholeEnd try op ops filed s rows sequences r (go_on r) e (h r)

  apply_ops-WholeEnd :
      (try : ℕ) (batch ops : List Op) (filed : List EventRow) (s : S) (rows : List EventRow)
      (sequences : Sequences)
      → WholeEnd try ops filed s rows sequences
          (apply_ops apply begins commits try batch ops filed s rows sequences)
  unfolding apply_ops
  apply_ops-WholeEnd try batch [] filed s rows sequences =
      closing-WholeEnd try (commits try batch) filed s rows sequences
  apply_ops-WholeEnd try batch (op ∷ ops) filed s rows sequences =
      or_roll_back-WholeEnd try op ops filed s rows sequences _ (apply try op s) refl (λ r.
        apply_ops-WholeEnd try batch ops filed r.0 (rows ++ (number_events filed sequences r.1).0)
          (number_events filed sequences r.1).1)

  started-WholeEnd :
      (try : ℕ) (o : Option Fault) (batch : List Op) (db : Database S) (sequences : Sequences)
      → WholeEnd try batch db.events db.state [] sequences
          (started apply begins commits o try batch db sequences)
  unfolding started
  started-WholeEnd try (some f) batch db sequences = tt
  started-WholeEnd try none batch db sequences =
      apply_ops-WholeEnd try batch batch db.events db.state [] sequences

  commit_once-WholeEnd :
      (try : ℕ) (batch : List Op) (db : Database S) (sequences : Sequences)
      → WholeEnd try batch db.events db.state [] sequences
          (commit_once apply begins commits try batch db sequences)
  unfolding commit_once
  commit_once-WholeEnd try batch db sequences =
      started-WholeEnd try (begins try batch) batch db sequences

  -- A batch is committed whole, by one try, and counted, or nothing of it is.
  abbrev pub Atomic : List Op → Writer S → Writer S → Type 0
  Atomic batch w v =
      (v.failure ≡ false)
        × ((try : ℕ) × Whole try batch w.database.events w.database.state [] w.sequences v.database
              v.sequences)
        × (v.committed_ops ≡ w.committed_ops + length batch)
        × (v.transactions ≡ w.transactions + 1)
      ⊎ (v.failure ≡ true)
        × (v.database ≡ w.database)
        × (v.sequences ≡ w.sequences)
        × (v.committed_ops ≡ w.committed_ops)
        × (v.transactions ≡ w.transactions)

  settle_commit-Atomic :
      (tries n : ℕ) (batch : List Op) (w : Writer S) (r : Ended S)
      → w.failure ≡ false
      → WholeEnd n batch w.database.events w.database.state [] w.sequences r
      → Atomic batch w (settle_commit apply begins commits tries n batch w r)
  unfolding settle_commit
  settle_commit-Atomic tries n batch w (Ended.committed db sequences) h k =
      inl (h, (n, k), refl, refl)
  settle_commit-Atomic tries n batch w (Ended.rolled_back Fault.fatal dirty) h k =
      inr (refl, refl, refl, refl, refl)
  settle_commit-Atomic zero n batch w (Ended.rolled_back Fault.busy dirty) h k =
      inr (refl, refl, refl, refl, refl)
  settle_commit-Atomic (suc tries) n batch w (Ended.rolled_back Fault.busy dirty) h k =
      settle_commit-Atomic tries (n + 1) batch (record w { busy_retries = w.busy_retries + 1 })
        (commit_once apply begins commits (n + 1) batch w.database w.sequences) h
        (commit_once-WholeEnd (n + 1) batch w.database w.sequences)

  write_or_drop-Atomic :
      (b : Bool) (w : Writer S) (batch : List Op)
      → w.failure ≡ b
      → Atomic batch w (write_or_drop apply begins commits b w batch)
  unfolding write_or_drop
  write_or_drop-Atomic true w batch e = inr (e, refl, refl, refl, refl)
  write_or_drop-Atomic false w batch e =
      settle_commit-Atomic 1 0 batch w
        (commit_once apply begins commits 0 batch w.database w.sequences) e
        (commit_once-WholeEnd 0 batch w.database w.sequences)

  -- Writing a batch either leaves the writer without a failure, the batch counted and the database
  -- with every operation of it applied in order, by one try, and the numbered events of all behind
  -- the rows on file; or it leaves the writer failed with the database, the counters of the events
  -- and the counts of what was committed as they were.
  pub write_batch-Atomic :
      (w : Writer S) (batch : List Op) → Atomic batch w (write_batch apply begins commits w batch)
  unfolding write_batch
  write_batch-Atomic w batch = write_or_drop-Atomic w.failure w batch refl
