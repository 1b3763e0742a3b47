-- ===== src/Store/Recovery.antt =====
-- Restart: the recovery of orphans, and a run's own row (webapp/backend/sources/runstore.py).
use jobhunt.Prelude.{
  ℕ, Bool, true, false, not, ◌&&◌, Option, some, Str, List, [], any, keep, map, eq_str, or_else,
  mem, codes,
}
use jobhunt.Store.Rows.{
  SourceRun, PipelineRun, Status, RunStatus, is_running, coalesce, update, put,
}

unfoldable pub is_run_running : RunStatus → Bool
is_run_running RunStatus.running = true
is_run_running _ = false

unfoldable pub is_run_interrupted : RunStatus → Bool
is_run_interrupted RunStatus.interrupted = true
is_run_interrupted _ = false

-- The texts of the recovery note, as metadata and as an error.
pub record Note : Type 0 where
  pub interrupted : Str
  pub error : Str

pub record RecoveryReport : Type 0 where
  pub run_uids : List Str
  pub source_run_ids : List Str

unfoldable pub is_orphan : List Str → SourceRun → Bool
unfolding is_running
is_orphan excluded r = is_running r.status && not (mem r.run_uid excluded)

unfoldable pub is_orphan_run : List Str → PipelineRun → Bool
unfolding is_run_running
is_orphan_run excluded r = is_run_running r.status && not (mem r.run_uid excluded)

unfoldable pub interrupt : Note → SourceRun → SourceRun
interrupt note r = record r {
  status = Status.interrupted;
  metadata_json = some (put (codes "interrupted") note.interrupted (or_else r.metadata_json []));
}

unfoldable pub interrupt_run : Note → PipelineRun → PipelineRun
interrupt_run note r = record r {
  status = RunStatus.interrupted;
  error_json = coalesce r.error_json (some note.error);
}

-- Each row is updated by its primary key, so the two loops are two updates.
unfoldable pub recover_orphans :
    Note
    → List Str
    → List SourceRun
    → List PipelineRun
    → List SourceRun × List PipelineRun × RecoveryReport
recover_orphans note excluded rows runs = (
  update (is_orphan excluded) (interrupt note) rows,
  update (is_orphan_run excluded) (interrupt_run note) runs,
  record {
    run_uids = map (λ r. r.run_uid) (keep (is_orphan_run excluded) runs);
    source_run_ids = map (λ r. r.source_run_id) (keep (is_orphan excluded) rows);
  },
)

unfoldable pub reopen_pipeline_run : Str → List PipelineRun → List PipelineRun × Bool
unfolding is_run_interrupted
reopen_pipeline_run run_uid runs =
    let reopens = λ (r : PipelineRun). eq_str r.run_uid run_uid && is_run_interrupted r.status in
    (update reopens (λ r. record r { status = RunStatus.running }) runs, any reopens runs)

unfoldable pub finish_pipeline_run :
    Str → RunStatus → Str → Option ℕ → Option ℕ → Option Str → List PipelineRun → List PipelineRun
finish_pipeline_run run_uid status finished_at kept_count new_count error runs =
    update (λ r. eq_str r.run_uid run_uid)
      (λ r. record r {
        status = status;
        finished_at = some finished_at;
        kept_count = kept_count;
        new_count = new_count;
        error_json = error;
      })
      runs
