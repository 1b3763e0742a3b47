-- ===== src/Store/Queries.antt =====
-- What the evidence of a run licenses, and what a resume would do
-- (webapp/backend/sources/runstore.py).
use jobhunt.Prelude.{
  ℕ, max, Bool, not, ◌&&◌, Option, none, some, Str, List, [], ◌∷◌, any, keep, map, eq_str,
  if◌then◌else◌, mem, sort_by, list_order, nat_order, int_order, is_some, ℤ, neg,
}
use jobhunt.Store.Rows.{SourceRun, PipelineRun, RunStatus, Scope, is_succeeded, is_fetch, put}
use jobhunt.Store.Recovery.{is_run_interrupted}

-- The fetch attempts of one run.
unfoldable pub is_attempt_of : Str → SourceRun → Bool
unfolding is_fetch
is_attempt_of run_uid r = eq_str r.run_uid run_uid && is_fetch r.step

-- `ORDER BY source, attempt`, as two stable sorts.
unfoldable pub by_source : List SourceRun → List SourceRun
by_source rows =
    sort_by (list_order nat_order) (λ r. r.source) (sort_by nat_order (λ r. r.attempt) rows)

pub record SourceScope : Type 0 where
  pub source : Str
  pub source_run_id : Str
  pub inventory_scope : Option Scope
  pub finished_at : Option Str
  pub accepted_count : Option ℕ

abbrev pub scope_of : SourceRun → SourceScope
scope_of r = record {
  source = r.source;
  source_run_id = r.source_run_id;
  inventory_scope = r.inventory_scope;
  finished_at = r.finished_at;
  accepted_count = r.accepted_count;
}

unfoldable pub is_success_of : Str → SourceRun → Bool
unfolding is_attempt_of is_succeeded
is_success_of run_uid r = is_attempt_of run_uid r && is_succeeded r.status

unfoldable pub successful_source_scopes : List SourceRun → Str → List SourceScope
unfolding is_success_of by_source
successful_source_scopes rows run_uid = map scope_of (by_source (keep (is_success_of run_uid) rows))

-- `SELECT source, MAX(attempt) ... GROUP BY source`, as a dict.
unfoldable pub raise_max : Str → ℕ → List (Str × ℕ) → List (Str × ℕ)
raise_max source n [] = (source, n) ∷ []
raise_max source n ((s, m) ∷ rest) =
    if eq_str source s then (s, max m n) ∷ rest else (s, m) ∷ raise_max source n rest

unfoldable pub group_max : List SourceRun → List (Str × ℕ)
unfolding raise_max
group_max [] = []
group_max (r ∷ rs) = raise_max r.source r.attempt (group_max rs)

unfoldable pub max_attempt_by_source : List SourceRun → Str → List (Str × ℕ)
unfolding group_max is_attempt_of
max_attempt_by_source rows run_uid = group_max (keep (is_attempt_of run_uid) rows)

-- `attempts.get(source, 0)`.
unfoldable pub get_or_zero : Str → List (Str × ℕ) → ℕ
get_or_zero source [] = 0
get_or_zero source ((s, m) ∷ rest) = if eq_str source s then m else get_or_zero source rest

-- `ORDER BY attempt DESC LIMIT 1`, over the rows that carry a checkpoint.
unfoldable pub has_checkpoint_of : Str → Str → SourceRun → Bool
unfolding is_attempt_of
has_checkpoint_of run_uid source r =
    is_attempt_of run_uid r && (eq_str r.source source && is_some r.checkpoint_json)

abbrev pub first_checkpoint : List SourceRun → Option Str
first_checkpoint [] = none
first_checkpoint (r ∷ rs) = r.checkpoint_json

unfoldable pub latest_checkpoint_json : List SourceRun → Str → Str → Option Str
unfolding has_checkpoint_of
latest_checkpoint_json rows run_uid source =
    first_checkpoint (
      sort_by int_order (λ r. neg (ℤ.pos r.attempt)) (keep (has_checkpoint_of run_uid source) rows))

-- The sources of the rows, each once.
unfoldable pub sources_of : List SourceRun → List Str
sources_of [] = []
sources_of (r ∷ rs) =
    let rest = sources_of rs in if mem r.source rest then rest else r.source ∷ rest

pub record ResumePlan : Type 0 where
  pub status : RunStatus
  pub resumable : Bool
  pub completed_sources : List Str
  pub pending_sources : List Str
  pub checkpoints : List (Str × Str)
  pub max_attempt : List (Str × ℕ)

unfoldable pub find_run : Str → List PipelineRun → Option PipelineRun
find_run run_uid [] = none
find_run run_uid (r ∷ rs) = if eq_str r.run_uid run_uid then some r else find_run run_uid rs

-- `MAX(status='succeeded')` of one source's attempts.
unfoldable pub has_succeeded : List SourceRun → Str → Bool
unfolding is_succeeded
has_succeeded attempts source = any (λ r. eq_str r.source source && is_succeeded r.status) attempts

collect_checkpoints : List SourceRun → List (Str × Str) → List (Str × Str)
collect_checkpoints [] found = found
collect_checkpoints (r ∷ rs) found =
    collect_checkpoints rs (elim r.checkpoint_json [ none ↦ found | some c ↦ put r.source c found ])

-- What resuming a run would do, given the run's fetch attempts and its row, if there is one.
unfoldable pub described : List SourceRun → Option PipelineRun → Option ResumePlan
unfolding collect_checkpoints has_succeeded sources_of by_source group_max
described attempts none = none
described attempts (some run) =
    let sources = sort_by (list_order nat_order) (λ s. s) (sources_of attempts) in
    some (record {
      status = run.status;
      resumable = is_run_interrupted run.status;
      completed_sources = keep (has_succeeded attempts) sources;
      pending_sources = keep (λ s. not (has_succeeded attempts s)) sources;
      checkpoints = collect_checkpoints (by_source attempts) [];
      max_attempt = group_max attempts;
    })

-- `none` is the LookupError of an unknown run.
unfoldable pub plan_of : List PipelineRun → Str → List SourceRun → Option ResumePlan
unfolding find_run described
plan_of runs run_uid attempts = described attempts (find_run run_uid runs)

unfoldable pub resume_plan : List SourceRun → List PipelineRun → Str → Option ResumePlan
unfolding plan_of is_attempt_of
resume_plan rows runs run_uid = plan_of runs run_uid (keep (is_attempt_of run_uid) rows)
