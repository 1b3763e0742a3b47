-- ===== src/Runs/Report.antt =====
-- What a run's result says of its plan (webapp/backend/sources/scheduler.py).
use jobhunt.Prelude.{
  ℕ, ◌+◌, ◌≡◌, refl, ◌∙◌, arith, Bool, not, ◌&&◌, Str, List, [], ◌∷◌, ◌++◌, if◌then◌else◌, eq_str,
  any, map, keep, length, count_if, count_if-append, count_if-sort_by, sort_by, list_order,
  nat_order,
}
use jobhunt.Runs.Target.{SourceTarget, Planned}
use jobhunt.Runs.Loop.{AttemptOutcome, TargetStatus}
use jobhunt.Runs.Execute.{
  Preflight, TargetResult, unstarted, not_started, launched_nothing, launch_one, launch, Gathered,
  results_of, is_raised, target_result, is_cancelled_run, settled_status, final_status,
  licenses_presence, submits_presence, execute, run_report, is_success_status, is_failure_status,
  is_cancelled_status, is_skipped_status,
}

abbrev keyed : Str → TargetResult → Bool
keyed u r = eq_str u r.source_run_key

module _ (resume : Bool) (pre : Preflight) (flag : ℕ → Bool) where
  -- Every target of the plan is a result or a task.
  launch-count :
      (u : Str) (n : ℕ) (plan : List Planned)
      → count_if (keyed u) (launch resume pre flag n plan).results
          + count_if (λ t. eq_str u t.source_run_key) (launch resume pre flag n plan).tasks
        ≡ count_if (λ p. eq_str u p.1.source_run_key) plan
  unfolding launch launch_one launched_nothing unstarted not_started
  launch-count u n [] = refl
  launch-count u n (p ∷ plan) = ground (arith, launch-count u (n + 1) plan)

  -- Each cancelled target that never started has its row.
  -- The targets for which an unattempted row is written are exactly those that the loop over the
  -- plan reports as cancelled, in the same order.
  pub launch-unattempted :
      (n : ℕ) (plan : List Planned)
      → map (λ t. t.source_run_key) (launch resume pre flag n plan).unattempted
        ≡ map
            (λ r. r.source_run_key)
            (keep (λ r. is_cancelled_status r.status) (launch resume pre flag n plan).results)
  unfolding launch launch_one launched_nothing unstarted not_started is_cancelled_status
  launch-unattempted n [] = refl
  launch-unattempted n (p ∷ plan) = ground (arith, launch-unattempted (n + 1) plan)

-- How each task of a run ends when the scheduler's own code raises nothing.
abbrev pub settles :
    (SourceTarget → Bool) → (SourceTarget → List AttemptOutcome) → SourceTarget → Gathered
settles interrupted outcomes t = Gathered.returned (target_result t (interrupted t) (outcomes t))

module _ (interrupted : SourceTarget → Bool) (outcomes : SourceTarget → List AttemptOutcome) where
  results_of-count :
      (u : Str) (ts : List SourceTarget)
      → count_if (keyed u) (results_of (map (settles interrupted outcomes) ts))
        ≡ count_if (λ t. eq_str u t.source_run_key) ts
  unfolding results_of target_result
  results_of-count u [] = refl
  results_of-count u (t ∷ ts) = omega (arith, results_of-count u ts)

  -- When every started target gives its result, the result of the run has each key exactly as
  -- often as the plan, whatever the resume, the dueness, the cancel flag and the writer do.
  pub execute_accounts :
      (resume : Bool) (pre : Preflight) (flag : ℕ → Bool) (cancel_at_end writer_failed : Bool)
      (plan : List Planned) (u : Str)
      → count_if
          (λ r. eq_str u r.source_run_key)
          (execute resume pre flag
            (settles interrupted outcomes)
            cancel_at_end
            writer_failed
            plan).targets
        ≡ count_if (λ p. eq_str u p.1.source_run_key) plan
  unfolding execute
  execute_accounts resume pre flag cancel_at_end writer_failed plan u =
      let l = launch resume pre flag 0 plan in
      let ended = results_of (map (settles interrupted outcomes) l.tasks) in
      count_if-sort_by (list_order nat_order) (λ r. r.source_key) (keyed u)
        (sort_by (list_order nat_order) (λ r. r.instance_key) (l.results ++ ended))
      ∙ count_if-sort_by (list_order nat_order) (λ r. r.instance_key) (keyed u) (l.results ++ ended)
      ∙ count_if-append (keyed u) l.results ended
      ∙ omega (arith, results_of-count u l.tasks, launch-count resume pre flag u 0 plan)

one_status :
    (s : TargetStatus)
    → (if is_success_status s then 1 else 0)
        + (if is_failure_status s then 1 else 0)
        + (if is_cancelled_status s then 1 else 0)
        + (if is_skipped_status s then 1 else 0)
      ≡ 1
unfolding is_success_status is_failure_status is_cancelled_status is_skipped_status
one_status TargetStatus.succeeded = refl
one_status TargetStatus.failed = refl
one_status TargetStatus.timeout = refl
one_status TargetStatus.cancelled = refl
one_status TargetStatus.skipped = refl

-- The four counts of a report add up to the number of results: each result is in one of them.
pub run_report-sum :
    (plan : List Planned) (results : List TargetResult)
    → (run_report plan results).succeeded
        + (run_report plan results).failed
        + (run_report plan results).cancelled
        + (run_report plan results).skipped
      ≡ length results
unfolding run_report
run_report-sum plan [] = refl
run_report-sum plan (r ∷ results) = omega (arith, one_status r.status, run_report-sum plan results)

-- The presence pass is submitted exactly when the run was not cancelled, the writer holds no
-- failure and no task raised.
pub execute-presence :
    (resume : Bool) (pre : Preflight) (flag : ℕ → Bool) (gather : SourceTarget → Gathered)
    (cancel_at_end writer_failed : Bool) (plan : List Planned)
    → (execute resume pre flag gather cancel_at_end writer_failed plan).presence ≡ (
        not cancel_at_end
        && (not writer_failed
            && not (any is_raised (map gather (launch resume pre flag 0 plan).tasks))))
unfolding execute submits_presence licenses_presence final_status is_cancelled_run settled_status
execute-presence resume pre flag gather cancel_at_end writer_failed plan = ground arith
