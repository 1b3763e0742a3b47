-- ===== src/Runs/Preflight.antt =====
-- What a run learns from the store before its first target (webapp/backend/sources/scheduler.py).
-- The checkpoints are left out.
use jobhunt.Prelude.{ℕ, Bool, true, false, Option, none, some, Str, List, [], ◌∷◌, if◌then◌else◌}
use jobhunt.Store.Rows.{SourceRun, PipelineRun, put}
use jobhunt.Store.Queries.{ResumePlan, resume_plan}
use jobhunt.Runs.Target.{Planned}
use jobhunt.Runs.Profile.{RunKind, profile_for, filter_due, SkippedTarget}
use jobhunt.Runs.Execute.{Preflight}

-- `{s.source_run_key: s for s in skipped}`, onto a dict.
unfoldable pub by_key : List SkippedTarget → List (Str × SkippedTarget) → List (Str × SkippedTarget)
by_key [] m = m
by_key (s ∷ skipped) m = by_key skipped (put s.source_run_key s m)

-- The targets that are not due, for a kind that filters.
unfoldable pub not_due_of :
    (Str → Option ℕ)
    → ℕ
    → RunKind
    → List Planned
    → List (Str × Option Str)
    → List (Str × SkippedTarget)
unfolding by_key profile_for filter_due
not_due_of instant_of now kind plan last_success =
    if (profile_for kind).dueness_filtered
    then by_key (filter_due instant_of now plan last_success).1 []
    else []

-- The sources that a resume skips; `none` is the LookupError of an unknown run and the ValueError of
-- one that is not interrupted.
unfoldable pub completed_if : ResumePlan → Option (List Str)
completed_if s = if s.resumable then some s.completed_sources else none

unfoldable pub or_fail : Option ResumePlan → Option (List Str)
unfolding completed_if
or_fail none = none
or_fail (some s) = completed_if s

unfoldable pub completed_of : Bool → List SourceRun → List PipelineRun → Str → Option (List Str)
unfolding or_fail resume_plan
completed_of false rows runs run_uid = some []
completed_of true rows runs run_uid = or_fail (resume_plan rows runs run_uid)

with_not_due : List (Str × SkippedTarget) → Option (List Str) → Option Preflight
with_not_due not_due none = none
with_not_due not_due (some completed) = some (record { completed = completed; not_due = not_due })

unfoldable pub preflight :
    (Str → Option ℕ)
    → ℕ
    → RunKind
    → Bool
    → List SourceRun
    → List PipelineRun
    → Str
    → List Planned
    → List (Str × Option Str)
    → Option Preflight
unfolding with_not_due not_due_of completed_of
preflight instant_of now kind resume rows runs run_uid plan last_success =
    with_not_due (not_due_of instant_of now kind plan last_success)
      (completed_of resume rows runs run_uid)
