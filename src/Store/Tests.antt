-- ===== src/Store/Tests.antt =====
-- Small tables, and the theorems at them.
use jobhunt.Prelude.{
  ℕ, ◌≡◌, refl, true, none, some, Str, codes, eq_str, List, [], ◌∷◌, ◌++◌, map, keep,
}
use jobhunt.Store.Rows.{SourceRun, PipelineRun, Status, RunStatus, Scope}
use jobhunt.Store.Attempts.{
  NewAttempt, Unattempted, Settlement, new_row, record_unattempted_source_run, unattempted_row,
  same_id, same_key,
}
use jobhunt.Store.Recovery.{Note, recover_orphans, is_orphan, is_orphan_run}
use jobhunt.Store.History.{Op, apply_all, Kept, history-Kept}
use jobhunt.Store.Reconcile.{recovery_settles}
use jobhunt.Store.Presence.{Posting, Alias, AliasKind, Evidence, apply_run_presence}
use jobhunt.Store.Pass.{settle, apply_run_presence-map}
use jobhunt.Store.Absence.{Each, Outcome, apply_run_presence-Outcome}

abbrev attempt_of : Str → ℕ → NewAttempt
attempt_of id n = record {
  source_run_id = id;
  run_uid = codes "run";
  source = codes "acme";
  attempt = n;
  deadline_at = some (codes "12:10");
  requested_at = some (codes "12:00");
  started_at = some (codes "12:00");
  inventory_scope = some Scope.complete;
  metadata = none;
}

abbrev settlement : Settlement
settlement = record {
  status = Status.succeeded;
  finished_at = codes "12:05";
  fetched_count = some 7;
  accepted_count = none;
  changed_count = none;
  checkpoint_json = none;
  error = none;
  metadata = none;
}

abbrev first : SourceRun
first = record (new_row (attempt_of (codes "s1") 1)) { status = Status.succeeded }

abbrev second : SourceRun
second = new_row (attempt_of (codes "s2") 2)

abbrev rows : List SourceRun
rows = first ∷ second ∷ []

abbrev note : Note
note = record { interrupted = codes "12:30"; error = codes "restart" }

abbrev ops : List Op
ops =
    Op.progress (codes "s2") 3 2 1 (some (codes "cursor"))
    ∷ Op.finish (codes "s1") settlement
    ∷ Op.recover note []
    ∷ []

history-Kept_example : Kept first 0 (apply_all ops rows)
history-Kept_example = history-Kept ops rows 0 first refl

abbrev skipped : Unattempted
skipped = record {
  source_run_id = codes "u1";
  run_uid = codes "run";
  source = codes "beta";
  status = Status.cancelled;
  requested_at = some (codes "12:00");
  finished_at = some (codes "12:01");
  inventory_scope = some Scope.complete;
  error = none;
  metadata = none;
}

recorded :
    record_unattempted_source_run skipped rows ≡ some (rows ++ unattempted_row skipped ∷ [], true)
unfolding record_unattempted_source_run same_key same_id eq_str
recorded = refl

abbrev runs : List PipelineRun
runs =
    record {
      run_uid = codes "run";
      kind = codes "daily";
      status = RunStatus.running;
      requested_at = codes "12:00";
      started_at = some (codes "12:00");
      finished_at = none;
      kept_count = none;
      new_count = none;
      error_json = none;
    }
    ∷ []

recovery_settles_example :
    (keep (is_orphan []) (recover_orphans note [] rows runs).0 ≡ [])
    × (keep (is_orphan_run []) (recover_orphans note [] rows runs).1 ≡ [])
    × (recover_orphans note []
          (recover_orphans note [] rows runs).0
          (recover_orphans note [] rows runs).1
        ≡ (
          (recover_orphans note [] rows runs).0,
          (recover_orphans note [] rows runs).1,
          record { run_uids = []; source_run_ids = [] },
        ))
recovery_settles_example = recovery_settles note [] rows runs

abbrev posting : Str → Posting
posting id = record {
  posting_id = id;
  last_seen_at = none;
  last_seen_run_uid = none;
  absent_since = none;
  absent_run_uid = none;
  absent_source_run_id = none;
  returned_at = none;
}

abbrev owned_by_acme : Str → Alias
owned_by_acme id = record {
  posting_id = id;
  alias_kind = AliasKind.source_req;
  namespace = codes "acme";
  valid_to = none;
}

-- Both postings are the board's; the run saw the first.
abbrev evidence : Evidence
evidence = record {
  source_runs = rows;
  aliases = owned_by_acme (codes "p") ∷ owned_by_acme (codes "q") ∷ [];
  run_postings =
      record {
        run_uid = codes "run";
        posting_id = codes "p";
        source_run_id = codes "s1";
        present = true;
        recorded_at = codes "12:03";
      }
      ∷ [];
}

abbrev postings : List Posting
postings = posting (codes "p") ∷ posting (codes "q") ∷ []

apply_run_presence-map_example :
    (apply_run_presence evidence (codes "run") (codes "12:09") postings).0
    ≡ map (settle evidence (codes "run") (codes "12:09")) postings
apply_run_presence-map_example =
    apply_run_presence-map evidence (codes "run") (codes "12:09") postings

apply_run_presence-Outcome_example :
    Each
      (Outcome evidence (codes "run") (codes "12:09"))
      postings
      (apply_run_presence evidence (codes "run") (codes "12:09") postings).0
apply_run_presence-Outcome_example =
    apply_run_presence-Outcome evidence (codes "run") (codes "12:09") postings
