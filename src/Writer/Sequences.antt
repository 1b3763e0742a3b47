-- ===== src/Writer/Sequences.antt =====
-- The numbers of the events of a run (webapp/backend/sources/writer.py).
use jobhunt.Prelude.{
  ℕ, zero, suc, ◌+◌, ◌≡◌, refl, Bool, true, false, Option, none, some, ◌⊎◌, inl, inr, Str, List, [],
  ◌∷◌, ◌++◌,
}
use jobhunt.Runs.Profile.{find}
use jobhunt.Writer.Commit.{
  Fault, RunEvent, EventRow, number_events, Database, Ended, Writer, closing, apply_ops,
  or_roll_back, started, commit_once, settle_commit, write_or_drop, write_batch, write_batches,
  Sequences,
}
use jobhunt.Writer.Counters.{
  numbered_from, count_of, counter_ok, Numbered, number_events-Numbered, filed_away,
}

module _ {S Op : Type 0} (apply : ℕ → Op → S → Fault ⊎ (S × List RunEvent))
    (begins commits : ℕ → List Op → Option Fault) where
  -- A transaction that commits leaves numbered rows.
  abbrev Sound : Str → Ended S → Type 0
  Sound u (Ended.committed db sequences) = Numbered u db.events [] sequences
  Sound u (Ended.rolled_back f sequences) = Unit

  Sound-or_roll_back :
      (u : Str) (sequences : Sequences) (go_on : S × List RunEvent → Ended S)
      (r : Fault ⊎ (S × List RunEvent))
      → ((x : S × List RunEvent) → Sound u (go_on x))
      → Sound u (or_roll_back apply begins commits sequences go_on r)
  unfolding or_roll_back
  Sound-or_roll_back u sequences go_on (inl f) h = tt
  Sound-or_roll_back u sequences go_on (inr x) h = h x

  Sound-closing :
      (u : Str) (f : Option Fault) (s : S) (filed rows : List EventRow) (sequences : Sequences)
      → Numbered u filed rows sequences
      → Sound u (closing apply begins commits f s (filed ++ rows) sequences)
  unfolding closing
  Sound-closing u (some f) s filed rows sequences h = tt
  Sound-closing u none s filed rows sequences h = filed_away u filed rows sequences h

  apply_ops-Sound :
      (u : Str) (try : ℕ) (batch ops : List Op) (filed : List EventRow) (s : S)
      (rows : List EventRow) (sequences : Sequences)
      → Numbered u filed rows sequences
      → Sound u (apply_ops apply begins commits try batch ops filed s rows sequences)
  unfolding apply_ops
  apply_ops-Sound u try batch [] filed s rows sequences h =
      Sound-closing u (commits try batch) s filed rows sequences h
  apply_ops-Sound u try batch (op ∷ ops) filed s rows sequences h =
      Sound-or_roll_back u sequences _ (apply try op s) (λ x.
        apply_ops-Sound u try batch ops filed x.0 (rows ++ (number_events filed sequences x.1).0)
          (number_events filed sequences x.1).1
          (number_events-Numbered u filed rows sequences x.1 h))

  started-Sound :
      (u : Str) (f : Option Fault) (try : ℕ) (batch : List Op) (db : Database S)
      (sequences : Sequences)
      → Numbered u db.events [] sequences
      → Sound u (started apply begins commits f try batch db sequences)
  unfolding started
  started-Sound u (some f) try batch db sequences h = tt
  started-Sound u none try batch db sequences h =
      apply_ops-Sound u try batch batch db.events db.state [] sequences h

  -- The rows on file and the counters agree between two transactions.
  abbrev pub Settled : Str → Writer S → Type 0
  Settled u w = Numbered u w.database.events [] w.sequences

  settle_commit-Settled :
      (u : Str) (tries n : ℕ) (batch : List Op) (w : Writer S) (r : Ended S)
      → Settled u w
      → Sound u r
      → Settled u (settle_commit apply begins commits tries n batch w r)
  unfolding settle_commit commit_once
  settle_commit-Settled u tries n batch w (Ended.committed db sequences) h k = k
  settle_commit-Settled u tries n batch w (Ended.rolled_back Fault.fatal dirty) h k = h
  settle_commit-Settled u zero n batch w (Ended.rolled_back Fault.busy dirty) h k = h
  settle_commit-Settled u (suc tries) n batch w (Ended.rolled_back Fault.busy dirty) h k =
      settle_commit-Settled u tries (n + 1) batch (record w { busy_retries = w.busy_retries + 1 })
        (commit_once apply begins commits (n + 1) batch w.database w.sequences) h
        (started-Sound u (begins (n + 1) batch) (n + 1) batch w.database w.sequences h)

  write_or_drop-Settled :
      (u : Str) (b : Bool) (w : Writer S) (batch : List Op)
      → Settled u w
      → Settled u (write_or_drop apply begins commits b w batch)
  unfolding write_or_drop commit_once
  write_or_drop-Settled u true w batch h = h
  write_or_drop-Settled u false w batch h =
      settle_commit-Settled u 1 0 batch w
        (commit_once apply begins commits 0 batch w.database w.sequences) h
        (started-Sound u (begins 0 batch) 0 batch w.database w.sequences h)

  write_batch-Settled :
      (u : Str) (w : Writer S) (batch : List Op)
      → Settled u w
      → Settled u (write_batch apply begins commits w batch)
  unfolding write_batch
  write_batch-Settled u w batch h = write_or_drop-Settled u w.failure w batch h

  write_batches-Settled :
      (u : Str) (w : Writer S) (batches : List (List Op))
      → Settled u w
      → Settled u (write_batches apply begins commits w batches)
  unfolding write_batches
  write_batches-Settled u w [] h = h
  write_batches-Settled u w (batch ∷ batches) h =
      write_batches-Settled u (write_batch apply begins commits w batch) batches
        (write_batch-Settled u w batch h)

  -- From a writer without counters on numbered rows, whatever batches are written and whichever
  -- of their transactions fail, are retried or are dropped, the events of every run are numbered
  -- 0, 1, 2, ... in the order of their rows, without a hole or a repetition.
  pub events_numbered :
      (u : Str) (w : Writer S) (batches : List (List Op))
      → w.sequences ≡ []
      → numbered_from u 0 w.database.events ≡ true
      → numbered_from u 0 (write_batches apply begins commits w batches).database.events ≡ true
  unfolding find
  events_numbered u w batches empty h = (write_batches-Settled u w batches (h, refl, fresh)).0
    where
      fresh : counter_ok (count_of u w.database.events + 0) 0 (find u w.sequences) ≡ true
      fresh = rw empty refl
