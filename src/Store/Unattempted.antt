-- ===== src/Store/Unattempted.antt =====
-- Rows of targets that never attempted a fetch (webapp/backend/sources/runstore.py,
-- `record_unattempted_source_run`).
use jobhunt.Prelude.{
  ◌≡◌, ap, ◌∙◌, Bool, false, Str, List, [], ◌∷◌, ◌++◌, arith, keep, keep-append, append-nil, some,
  ◌⊎◌, inl, inr, map, sort_by, int_order, neg, ℤ,
}
use jobhunt.Store.Rows.{SourceRun, PipelineRun}
use jobhunt.Store.Attempts.{Unattempted, record_unattempted_source_run, unattempted_row}
use jobhunt.Store.Queries.{
  is_attempt_of, is_success_of, has_checkpoint_of, successful_source_scopes, max_attempt_by_source,
  latest_checkpoint_json, resume_plan, first_checkpoint, scope_of, by_source, group_max, plan_of,
}

-- A recorded row is the same rows, or one more row that is no fetch attempt.
recorded :
    (u : Unattempted) (rows rows' : List SourceRun) (inserted : Bool)
    → record_unattempted_source_run u rows ≡ some (rows', inserted)
    → (rows' ≡ rows) ⊎ (rows' ≡ rows ++ unattempted_row u ∷ [])
unfolding record_unattempted_source_run
recorded u rows rows' inserted h = ground arith

keep_recorded :
    (p : SourceRun → Bool) (u : Unattempted) (rows rows' : List SourceRun)
    → p (unattempted_row u) ≡ false
    → (rows' ≡ rows) ⊎ (rows' ≡ rows ++ unattempted_row u ∷ [])
    → keep p rows' ≡ keep p rows
keep_recorded p u rows rows' out (inl e) = ap (keep p) e
keep_recorded p u rows rows' out (inr e) =
    ap (keep p) e ∙ keep-append p rows (unattempted_row u ∷ []) ∙ rw out (append-nil (keep p rows))

module _ (u : Unattempted) (rows rows' : List SourceRun) (inserted : Bool)
    (done : record_unattempted_source_run u rows ≡ some (rows', inserted)) where
  no_attempt : (run_uid : Str) → is_attempt_of run_uid (unattempted_row u) ≡ false
  unfolding is_attempt_of
  no_attempt run_uid = ground arith

  same_attempts :
      (run_uid : Str) → keep (is_attempt_of run_uid) rows' ≡ keep (is_attempt_of run_uid) rows
  same_attempts run_uid =
      keep_recorded (is_attempt_of run_uid) u rows rows' (no_attempt run_uid)
        (recorded u rows rows' inserted done)

  -- It licenses no absence, takes no attempt number, offers no checkpoint, and changes nothing of
  -- what a resume would do, of this run or another.
  pub unattempted_unseen :
      (run_uid source : Str) (runs : List PipelineRun)
      → (successful_source_scopes rows' run_uid ≡ successful_source_scopes rows run_uid)
        × (max_attempt_by_source rows' run_uid ≡ max_attempt_by_source rows run_uid)
        × (latest_checkpoint_json rows' run_uid source ≡ latest_checkpoint_json rows run_uid source)
        × (resume_plan rows' runs run_uid ≡ resume_plan rows runs run_uid)
  unfolding successful_source_scopes max_attempt_by_source latest_checkpoint_json resume_plan
  unattempted_unseen run_uid source runs = (
    ap (λ l. map scope_of (by_source l)) same_successes,
    ap group_max (same_attempts run_uid),
    ap (λ l. first_checkpoint (sort_by int_order (λ r. neg (ℤ.pos r.attempt)) l)) same_checkpoints,
    ap (plan_of runs run_uid) (same_attempts run_uid),
  )
    where
      same_successes : keep (is_success_of run_uid) rows' ≡ keep (is_success_of run_uid) rows
      same_successes =
          keep_recorded (is_success_of run_uid) u rows rows' (ground (arith, no_attempt run_uid))
            (recorded u rows rows' inserted done)

      same_checkpoints :
          keep (has_checkpoint_of run_uid source) rows'
          ≡ keep (has_checkpoint_of run_uid source) rows
      same_checkpoints =
          keep_recorded (has_checkpoint_of run_uid source) u rows rows'
            (ground (arith, no_attempt run_uid)) (recorded u rows rows' inserted done)
