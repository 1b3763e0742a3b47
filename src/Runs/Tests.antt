-- ===== src/Runs/Tests.antt =====
-- Small runs of the scheduler, and the theorems at them.
use jobhunt.Prelude.{
  ◌+◌, ◌≤◌, ◌⊎◌, all, ℕ, zero, suc, ◌≤◌, ◌≡◌, arith, true, false, ◌++◌, not, ◌&&◌, any, Option,
  none, some, Str, codes, eq_str, List, [], ◌∷◌, map, length, count_if, AllFrom, if◌then◌else◌,
  sort_by, insert_by, le_list, refl,
}
use jobhunt.Store.Rows.{SourceRun, PipelineRun, Status, RunStatus, Scope, is_fetch, is_succeeded}
use jobhunt.Store.Attempts.{NewAttempt, new_row, same_id}
use jobhunt.Store.Queries.{
  get_or_zero, max_attempt_by_source, is_attempt_of, has_succeeded, resume_plan, plan_of, described,
  find_run, sources_of,
}
use jobhunt.Store.Recovery.{is_run_interrupted}
use jobhunt.Runs.Resume.{request, create_all, attempts_inserted}
use jobhunt.Runs.Target.{SourceDescriptor, SourceTarget, Planned}
use jobhunt.Runs.Profile.{filter_due}
use jobhunt.Runs.Dueness.{Split, filter_due-Split}
use jobhunt.Runs.Loop.{
  AttemptOutcome, SchedulerConfig, Outside, Ending, Disposition, attempt_loop, run_attempt,
}
use jobhunt.Runs.Retries.{retried, Given, attempt_loop-IsBounded}
use jobhunt.Runs.Execute.{Preflight, TargetResult, execute, launch, is_raised}
use jobhunt.Runs.Report.{settles, execute_accounts, execute-presence}
use jobhunt.Runs.Preflight.{completed_of, or_fail, completed_if}
use jobhunt.Runs.Pacing.{Call, send_all}
use jobhunt.Runs.Spacing.{spaced, send_all-spaced}
use jobhunt.Runs.Gates.{Held, Phase, Limits, Gates, Step, Steps, begun, is_released}
use jobhunt.Runs.Holding.{IsWithin, gates-IsWithin}
use jobhunt.Runs.Progress.{Advance, steps_left, gates_terminate}

abbrev target : Str → Str → SourceTarget
target key source = record {
  source_run_key = key;
  source_key = source;
  instance_key = key;
  label = key;
  host = some (codes "boards.example");
  inventory_scope = Scope.complete;
  deadline_seconds = none;
}

abbrev descriptor : SourceDescriptor
descriptor = record {
  refresh_interval_seconds = 3600;
  default_deadline_seconds = 60;
  max_concurrent_targets = none;
  per_host_concurrency = 2;
  min_request_interval_seconds = 1;
  has_transport = true;
}

abbrev plan : List Planned
plan =
    (descriptor, target (codes "acme") (codes "greenhouse"))
    ∷ (descriptor, target (codes "beta") (codes "lever"))
    ∷ (descriptor, target (codes "core") (codes "greenhouse"))
    ∷ []

-- A clock on which one stamp is known.
abbrev instant_of : Str → Option ℕ
instant_of s = if eq_str s (codes "noon") then some 43200 else none

abbrev successes : List (Str × Option Str)
successes = (codes "acme", some (codes "noon")) ∷ (codes "beta", none) ∷ []

filter_due-Split_example :
    Split instant_of 44000 successes plan (filter_due instant_of 44000 plan successes)
filter_due-Split_example = filter_due-Split instant_of 44000 successes plan

-- A first attempt that meets a transient error, and a second one that succeeds.
abbrev blip : ℕ → ℕ → Ending
blip zero deadline = Ending.source_error Disposition.transient
blip (suc index) deadline = Ending.exhausted

abbrev outside : Outside
outside = record {
  started = 100;
  before = λ index. 105;
  after = λ index. 104;
  backoff = λ index. 1;
  ends = blip;
  fetched = λ index. 3;
}

abbrev config : SchedulerConfig
config = record { max_attempts = 2; attempt_budget_multiplier = 2 }

attempt_loop-IsBounded_example :
    (length (attempt_loop config outside none 4 60 120) ≤ 2)
    × AllFrom (Given config outside none 4 60 120) 0 (attempt_loop config outside none 4 60 120)
    × (retried (attempt_loop config outside none 4 60 120) ≡ true)
attempt_loop-IsBounded_example = attempt_loop-IsBounded config outside none 4 60 120

abbrev preflight : Preflight
preflight = record { completed = codes "beta" ∷ []; not_due = [] }

abbrev outcomes : SourceTarget → List AttemptOutcome
outcomes t = run_attempt 1 60 none Ending.exhausted 7 ∷ []

execute_accounts_example :
    count_if
      (λ r. eq_str (codes "beta") r.source_run_key)
      (execute true preflight (λ n. false) (settles (λ t. false) outcomes) false false plan).targets
    ≡ count_if (λ p. eq_str (codes "beta") p.1.source_run_key) plan
execute_accounts_example =
    execute_accounts (λ t. false) outcomes true preflight (λ n. false) false false plan
      (codes "beta")

abbrev results : List TargetResult
results =
    (execute true preflight (λ n. true) (settles (λ t. false) outcomes) true false plan).targets

execute-presence_example :
    (execute true preflight (λ n. false) (settles (λ t. false) outcomes) false false plan).presence
    ≡ (not false
        && (not false
            && not (
                any is_raised (
                  map
                    (settles (λ t. false) outcomes)
                    (launch true preflight (λ n. false) 0 plan).tasks))))
execute-presence_example =
    execute-presence true preflight (λ n. false) (settles (λ t. false) outcomes) false false plan

abbrev call : Str → ℕ → Call
call host now = record { host = host; now = now }

abbrev calls : List Call
calls = call (codes "a") 5 ∷ call (codes "b") 5 ∷ call (codes "a") 6 ∷ call (codes "a") 20 ∷ []

send_all-spaced_example : spaced 3 (send_all 3 [] calls) ≡ true
send_all-spaced_example = send_all-spaced 3 [] calls (omega arith)

abbrev ids : ℕ → Str
ids n = n ∷ []

unique : (i j : ℕ) → eq_str (ids i) (ids j) ≡ true → i ≡ j
unfolding eq_str
unique i j h = ground (arith, h)

abbrev base : NewAttempt
base = record {
  source_run_id = [];
  run_uid = codes "run";
  source = codes "acme";
  attempt = 1;
  deadline_at = none;
  requested_at = none;
  started_at = none;
  inventory_scope = some Scope.complete;
  metadata = none;
}

-- An interrupted run that left one attempt.
abbrev left_over : List SourceRun
left_over = new_row (record base { source_run_id = codes "old" }) ∷ []

left_over-ids : (n : ℕ) → any (same_id (ids n)) left_over ≡ false
unfolding same_id eq_str
left_over-ids n = ground arith

attempts_inserted_example :
    create_all
      (map (request base ids) (
        attempt_loop config outside none
          (get_or_zero (codes "acme") (max_attempt_by_source left_over (codes "run")))
          60
          120))
      left_over
    ≡ some (
        left_over
        ++ map
            (λ o. new_row (request base ids o))
            (attempt_loop config outside none
              (get_or_zero (codes "acme") (max_attempt_by_source left_over (codes "run")))
              60
              120))
attempts_inserted_example =
    attempts_inserted base ids unique config outside none 60 120 left_over left_over-ids

abbrev interrupted_run : PipelineRun
interrupted_run = record {
  run_uid = codes "run";
  kind = codes "daily";
  status = RunStatus.interrupted;
  requested_at = codes "12:00";
  started_at = none;
  finished_at = none;
  kept_count = none;
  new_count = none;
  error_json = none;
}

abbrev done_and_open : List SourceRun
done_and_open =
    record (new_row (record base { source_run_id = codes "s1" })) { status = Status.succeeded }
    ∷ new_row (record base { source_run_id = codes "s2"; source = codes "beta" })
    ∷ []

completed_acme :
    completed_of true done_and_open (interrupted_run ∷ []) (codes "run") ≡ some (codes "acme" ∷ [])
unfolding completed_of or_fail completed_if resume_plan plan_of described find_run sources_of
    has_succeeded is_attempt_of is_fetch is_succeeded is_run_interrupted sort_by insert_by eq_str
    le_list
completed_acme = refl

abbrev gate_limits : Limits
gate_limits = record { global = 2; per_source = λ s. some 1; per_host = λ h. none }

abbrev held : Str → Held
held source = record { source_key = source; host = codes "h" }

-- The first of two targets passes the global gate.
one_passed : Steps gate_limits (begun (held (codes "a") ∷ held (codes "b") ∷ [])) (0 + 1) (record {
  tasks = (held (codes "a"), Phase.admitted) ∷ (held (codes "b"), Phase.waiting) ∷ [];
  inflight = 0;
  peak = 0;
})
one_passed =
    Steps.next Steps.stay
      (Step.pass_global [] ((held (codes "b"), Phase.waiting) ∷ []) (held (codes "a")) 0 0 refl)

gates-IsWithin_example : IsWithin gate_limits (record {
  tasks = (held (codes "a"), Phase.admitted) ∷ (held (codes "b"), Phase.waiting) ∷ [];
  inflight = 0;
  peak = 0;
})
gates-IsWithin_example =
    gates-IsWithin gate_limits (held (codes "a") ∷ held (codes "b") ∷ []) (0 + 1) _ one_passed

gates_terminate_example :
    ((n : ℕ) (h : Gates)
      → Steps gate_limits (begun (held (codes "a") ∷ [])) n h
      → n + steps_left h.tasks ≤ 4)
    × ((all is_released (begun (held (codes "a") ∷ [])).tasks ≡ true)
        ⊎ Advance gate_limits (begun (held (codes "a") ∷ [])))
gates_terminate_example =
    gates_terminate gate_limits (omega arith) (λ s. omega arith) (λ h. tt)
      (begun (held (codes "a") ∷ []))
