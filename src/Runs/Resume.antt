-- ===== src/Runs/Resume.antt =====
-- The attempts of the scheduler as inserts into the store (webapp/backend/sources/scheduler.py,
-- webapp/backend/sources/runstore.py).
use jobhunt.Prelude.{
  ℕ, ◌+◌, ◌<◌, ◌≡◌, sym, ap, ◌∙◌, subst, add-zero, arith, true, false, Option, none, some, Str,
  List, [], ◌∷◌, ◌++◌, map, append_assoc, append-nil, any, any-append, AllFrom, eq_str,
}
use jobhunt.Store.Rows.{SourceRun, fetch}
use jobhunt.Store.Attempts.{NewAttempt, create_source_run, new_row, same_key, same_id}
use jobhunt.Store.Queries.{max_attempt_by_source, get_or_zero}
use jobhunt.Store.Numbering.{above_max}
use jobhunt.Runs.Loop.{AttemptOutcome, SchedulerConfig, Outside, attempt_loop}
use jobhunt.Runs.Retries.{Given, attempt_loop-IsBounded}

-- The insert that an attempt submits: `ids` is what `new_uid` gives to each number.
abbrev pub request : NewAttempt → (ℕ → Str) → AttemptOutcome → NewAttempt
request base ids o = record base { source_run_id = ids o.attempt; attempt = o.attempt }

-- The inserts one after another; `none` is the first IntegrityError.
then_create :
    (List SourceRun → Option (List SourceRun)) → Option (List SourceRun) → Option (List SourceRun)
then_create rest none = none
then_create rest (some rows) = rest rows

unfoldable pub create_all : List NewAttempt → List SourceRun → Option (List SourceRun)
unfolding then_create
create_all [] rows = some rows
create_all (a ∷ as') rows = then_create (create_all as') (create_source_run a rows)

module _ (base : NewAttempt) (ids : ℕ → Str)
    (unique : (i j : ℕ) → eq_str (ids i) (ids j) ≡ true → i ≡ j) where
  -- No row has a number or an id that is still to come.
  abbrev Ahead : ℕ → List SourceRun → Type 0
  Ahead last rows =
      (n : ℕ)
      → last < n
      → (any (same_key base.run_uid base.source fetch n) rows ≡ false)
        × (any (same_id (ids n)) rows ≡ false)

  Ahead-insert :
      (last : ℕ) (rows : List SourceRun) (o : AttemptOutcome)
      → o.attempt ≡ last + 1
      → Ahead last rows
      → Ahead (last + 1) (rows ++ new_row (request base ids o) ∷ [])
  unfolding same_key same_id
  Ahead-insert last rows o e h n m =
      let new = new_row (request base ids o) in
      let earlier = h n (omega (arith, m)) in
      (
        ground (
          arith,
          any-append (same_key base.run_uid base.source fetch n) rows (new ∷ []),
          earlier.0,
        ),
        ground (arith, any-append (same_id (ids n)) rows (new ∷ []), earlier.1, unique o.attempt n),
      )

  created :
      (last : ℕ) (rows : List SourceRun) (o : AttemptOutcome)
      → o.attempt ≡ last + 1
      → Ahead last rows
      → create_source_run (request base ids o) rows
        ≡ some (rows ++ new_row (request base ids o) ∷ [])
  unfolding create_source_run
  created last rows o e h =
      let free = h o.attempt (omega (arith, e)) in ground (arith, free.0, free.1)

  create_all-Ahead :
      (last : ℕ) (rows : List SourceRun) (os : List AttemptOutcome)
      → AllFrom (λ i o. o.attempt ≡ i + 1) last os
      → Ahead last rows
      → create_all (map (request base ids) os) rows
        ≡ some (rows ++ map (λ o. new_row (request base ids o)) os)
  unfolding create_all then_create
  create_all-Ahead last rows [] es h = ap some (sym (append-nil rows))
  create_all-Ahead last rows (o ∷ os) es h =
      let new = new_row (request base ids o) in
      rw (created last rows o es.0 h) (
        create_all-Ahead (last + 1) (rows ++ new ∷ []) os es.1 (Ahead-insert last rows o es.0 h)
        ∙ ap some (append_assoc rows (new ∷ []) (map (λ o. new_row (request base ids o)) os)))

  -- Numbers counted from the maximum, as positions.
  from_offset :
      (cfg : SchedulerConfig) (w : Outside) (checkpoint : Option Str) (offset deadline budget i : ℕ)
      (os : List AttemptOutcome)
      → AllFrom (Given cfg w checkpoint offset deadline budget) i os
      → AllFrom (λ j o. o.attempt ≡ j + 1) (offset + i) os
  from_offset cfg w checkpoint offset deadline budget i [] gs = tt
  from_offset cfg w checkpoint offset deadline budget i (o ∷ os) gs = (
    gs.0.0,
    subst (λ k. AllFrom (λ j o. o.attempt ≡ j + 1) k os) (omega arith)
        (from_offset cfg w checkpoint offset deadline budget (i + 1) os gs.1),
  )

  -- The attempts that the loop makes for a target, numbered from the store's maximum for it, are
  -- all inserted, one after another and in order, when `new_uid` gives a new id each time.
  pub attempts_inserted :
      (cfg : SchedulerConfig) (w : Outside) (checkpoint : Option Str) (deadline budget : ℕ)
      (rows : List SourceRun)
      → ((n : ℕ) → any (same_id (ids n)) rows ≡ false)
      → let os =
          attempt_loop cfg w checkpoint
            (get_or_zero base.source (max_attempt_by_source rows base.run_uid))
            deadline
            budget in
        create_all (map (request base ids) os) rows
        ≡ some (rows ++ map (λ o. new_row (request base ids o)) os)
  unfolding max_attempt_by_source
  attempts_inserted cfg w checkpoint deadline budget rows fresh =
      let offset = get_or_zero base.source (max_attempt_by_source rows base.run_uid) in
      let os = attempt_loop cfg w checkpoint offset deadline budget in
      create_all-Ahead offset rows os
        (subst (λ k. AllFrom (λ j o. o.attempt ≡ j + 1) k os) (add-zero offset)
          (from_offset cfg w checkpoint offset deadline budget 0 os
            (attempt_loop-IsBounded cfg w checkpoint offset deadline budget).1))
        (λ n m. (above_max base.run_uid base.source n rows m, fresh n))
