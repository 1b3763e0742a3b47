-- ===== src/Store/Numbering.antt =====
-- The numbers of a resumed target's attempts (webapp/backend/sources/runstore.py,
-- webapp/backend/sources/scheduler.py).
use jobhunt.Prelude.{
  ℕ, ◌+◌, ◌<◌, max, ◌≡◌, refl, false, Str, List, [], ◌∷◌, ◌++◌, arith, any, keep, eq_str, eq_str→≡,
  eq_str_refl, eq_str_comm, if◌then◌else◌, some,
}
use jobhunt.Store.Rows.{SourceRun, fetch, eq_step}
use jobhunt.Store.Attempts.{NewAttempt, create_source_run, same_key, same_id, new_row}
use jobhunt.Store.Queries.{raise_max, group_max, get_or_zero, is_attempt_of, max_attempt_by_source}

get_or_zero-raise_max :
    (k source : Str) (n : ℕ) (m : List (Str × ℕ))
    → get_or_zero k (raise_max source n m)
      ≡ (if eq_str k source then max (get_or_zero k m) n else get_or_zero k m)
unfolding get_or_zero raise_max
get_or_zero-raise_max k source n [] = ground arith
get_or_zero-raise_max k source n ((s, v) ∷ m) = ground (
  arith,
  get_or_zero-raise_max k source n m,
  eq_str→≡ k s,
  eq_str→≡ source s,
  eq_str→≡ k source,
  eq_str_refl s,
)

-- No attempt of the run has a number above the recorded maximum.
pub above_max :
    (run_uid source : Str) (n : ℕ) (rows : List SourceRun)
    → get_or_zero source (group_max (keep (is_attempt_of run_uid) rows)) < n
    → any (same_key run_uid source fetch n) rows ≡ false
unfolding group_max is_attempt_of same_key eq_step
above_max run_uid source n [] h = refl
above_max run_uid source n (r ∷ rows) h = ground (
  arith,
  above_max run_uid source n rows,
  get_or_zero-raise_max source r.source r.attempt (group_max (keep (is_attempt_of run_uid) rows)),
  eq_str_comm r.source source,
)

-- The attempts that a resume adds are numbered past every earlier one, so with fresh ids the
-- inserts succeed.
pub resume_numbers_free :
    (rows : List SourceRun) (a : NewAttempt) (index : ℕ)
    → a.attempt ≡ get_or_zero a.source (max_attempt_by_source rows a.run_uid) + index + 1
    → any (same_id a.source_run_id) rows ≡ false
    → create_source_run a rows ≡ some (rows ++ new_row a ∷ [])
unfolding create_source_run max_attempt_by_source
resume_numbers_free rows a index number fresh =
    ground (arith, above_max a.run_uid a.source a.attempt rows)
