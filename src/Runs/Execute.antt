-- ===== src/Runs/Execute.antt =====
-- The targets of a run and the run's outcome (webapp/backend/sources/scheduler.py).
use jobhunt.Prelude.{
  ℕ, ◌+◌, Bool, true, false, not, ◌&&◌, Option, none, some, is_some, Str, List, [], ◌∷◌, ◌++◌,
  if◌then◌else◌, mem, any, all, map, sort_by, list_order, nat_order, count_if, length,
}
use jobhunt.Runs.Target.{SourceTarget, Planned}
use jobhunt.Runs.Profile.{SkippedTarget, find}
use jobhunt.Runs.Loop.{AttemptOutcome, TargetStatus, target_status, last_of}

pub data SkippedReason : Type 0 where
  already_succeeded not_due cancelled_before_start cancelled_before_attempt : SkippedReason

-- The counts that come from the committed records are left out.
pub record TargetResult : Type 0 where
  pub source_run_key : Str
  pub source_key : Str
  pub instance_key : Str
  pub label : Str
  pub status : TargetStatus
  pub fetched : ℕ
  pub skipped_reason : Option SkippedReason

-- _Preflight, as far as the loop over the plan reads it.
pub record Preflight : Type 0 where
  pub completed : List Str
  pub not_due : List (Str × SkippedTarget)

-- A result that the scheduler writes without starting the target.
unfoldable pub unstarted : SourceTarget → TargetStatus → SkippedReason → TargetResult
unstarted t status reason = record {
  source_run_key = t.source_run_key;
  source_key = t.source_key;
  instance_key = t.instance_key;
  label = t.label;
  status = status;
  fetched = 0;
  skipped_reason = some reason;
}

unfoldable pub not_started : SourceTarget → TargetResult
unfolding unstarted
not_started t = unstarted t TargetStatus.cancelled cancelled_before_start

-- What the loop over the plan leaves: results, the tasks it created, and the targets that get an
-- unattempted row.
pub record Launch : Type 0 where
  pub results : List TargetResult
  pub tasks : List SourceTarget
  pub unattempted : List SourceTarget

unfoldable pub launched_nothing : Launch
launched_nothing = record { results = []; tasks = []; unattempted = [] }

module _ (resume : Bool) (pre : Preflight) where
  -- `cancelled` is the flag as the loop reads it for the target.
  unfoldable pub launch_one : Bool → SourceTarget → Launch → Launch
  unfolding unstarted not_started find
  launch_one cancelled t rest =
      if resume && mem t.source_run_key pre.completed
      then record rest {
        results = unstarted t TargetStatus.skipped already_succeeded ∷ rest.results;
      }
      else if is_some (find t.source_run_key pre.not_due)
      then record rest { results = unstarted t TargetStatus.skipped not_due ∷ rest.results }
      else if cancelled
      then record rest {
        results = not_started t ∷ rest.results;
        unattempted = t ∷ rest.unattempted;
      }
      else record rest { tasks = t ∷ rest.tasks }

  -- `flag` is the cancel flag at each position of the plan.
  unfoldable pub launch : (ℕ → Bool) → ℕ → List Planned → Launch
  unfolding launch_one launched_nothing
  launch flag n [] = launched_nothing
  launch flag n (p ∷ plan) = launch_one (flag n) p.1 (launch flag (n + 1) plan)

fetched_of : Option AttemptOutcome → ℕ
fetched_of none = 0
fetched_of (some o) = o.fetched

reason_of : List AttemptOutcome → Option SkippedReason
reason_of [] = some cancelled_before_attempt
reason_of (o ∷ os) = none

-- The result of a started target, whose loop ended by itself or by a cancel.
unfoldable pub target_result : SourceTarget → Bool → List AttemptOutcome → TargetResult
unfolding target_status last_of fetched_of reason_of
target_result t interrupted outcomes = record {
  source_run_key = t.source_run_key;
  source_key = t.source_key;
  instance_key = t.instance_key;
  label = t.label;
  status = if interrupted then TargetStatus.cancelled else target_status outcomes;
  fetched = fetched_of (last_of outcomes);
  skipped_reason = if interrupted then reason_of outcomes else none;
}

-- What `asyncio.gather` gives for a task.
pub data Gathered : Type 0 where
  returned : TargetResult → Gathered
  cancelled_task raised : Gathered

unfoldable pub results_of : List Gathered → List TargetResult
results_of [] = []
results_of (returned r ∷ items) = r ∷ results_of items
results_of (cancelled_task ∷ items) = results_of items
results_of (raised ∷ items) = results_of items

unfoldable pub is_raised : Gathered → Bool
is_raised raised = true
is_raised _ = false

pub data RunOutcome : Type 0 where
  succeeded partial failed cancelled : RunOutcome

unfoldable pub is_fine : TargetStatus → Bool
is_fine TargetStatus.succeeded = true
is_fine TargetStatus.skipped = true
is_fine _ = false

-- The run's status after the targets settled.
unfoldable pub settled_status : Bool → List Gathered → List TargetResult → RunOutcome
unfolding is_raised is_fine
settled_status cancelled_flag items results =
    if cancelled_flag
    then cancelled
    else if any is_raised items
    then failed
    else if all (λ r. is_fine r.status) results
    then succeeded
    else partial

unfoldable pub is_cancelled_run : RunOutcome → Bool
is_cancelled_run cancelled = true
is_cancelled_run _ = false

-- `writer.failure is not None and run_status != "cancelled"`.
unfoldable pub final_status : Bool → RunOutcome → RunOutcome
unfolding is_cancelled_run
final_status writer_failed status =
    if writer_failed && not (is_cancelled_run status) then failed else status

-- PRESENCE_PASS_RUN_STATUSES.
unfoldable pub licenses_presence : RunOutcome → Bool
licenses_presence succeeded = true
licenses_presence partial = true
licenses_presence failed = false
licenses_presence cancelled = false

-- Whether the presence pass is submitted.
unfoldable pub submits_presence : Bool → RunOutcome → Bool
unfolding licenses_presence
submits_presence writer_failed status = licenses_presence status && not writer_failed

pub record RunResult : Type 0 where
  pub status : RunOutcome
  pub targets : List TargetResult
  pub unattempted : List SourceTarget
  pub presence : Bool

-- A run: `gather` says how each task ends, `cancel_at_end` is the flag when they all have, and
-- `writer_failed` whether the writer holds a failure after its drain.
unfoldable pub execute :
    Bool
    → Preflight
    → (ℕ → Bool)
    → (SourceTarget → Gathered)
    → Bool
    → Bool
    → List Planned
    → RunResult
unfolding launch settled_status final_status submits_presence results_of
execute resume pre flag gather cancel_at_end writer_failed plan =
    let l = launch resume pre flag 0 plan in
    let items = map gather l.tasks in
    let results = l.results ++ results_of items in
    let status = final_status writer_failed (settled_status cancel_at_end items results) in
    record {
      status = status;
      targets =
          sort_by (list_order nat_order) (λ r. r.source_key)
            (sort_by (list_order nat_order) (λ r. r.instance_key) results);
      unattempted = l.unattempted;
      presence = submits_presence writer_failed status;
    }

-- The counts of _run_report.
pub record Report : Type 0 where
  pub targets : ℕ
  pub succeeded : ℕ
  pub failed : ℕ
  pub cancelled : ℕ
  pub skipped : ℕ

unfoldable pub is_success_status : TargetStatus → Bool
is_success_status TargetStatus.succeeded = true
is_success_status _ = false

unfoldable pub is_failure_status : TargetStatus → Bool
is_failure_status TargetStatus.failed = true
is_failure_status TargetStatus.timeout = true
is_failure_status _ = false

unfoldable pub is_cancelled_status : TargetStatus → Bool
is_cancelled_status TargetStatus.cancelled = true
is_cancelled_status _ = false

unfoldable pub is_skipped_status : TargetStatus → Bool
is_skipped_status TargetStatus.skipped = true
is_skipped_status _ = false

unfoldable pub run_report : List Planned → List TargetResult → Report
unfolding is_success_status is_failure_status is_cancelled_status is_skipped_status
run_report plan results = record {
  targets = length plan;
  succeeded = count_if (λ r. is_success_status r.status) results;
  failed = count_if (λ r. is_failure_status r.status) results;
  cancelled = count_if (λ r. is_cancelled_status r.status) results;
  skipped = count_if (λ r. is_skipped_status r.status) results;
}
