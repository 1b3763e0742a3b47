-- ===== src/Store/Attempts.antt =====
-- The life of an attempt row (webapp/backend/sources/runstore.py).
use jobhunt.Prelude.{
  ℕ, ◌+◌, Bool, true, false, ◌&&◌, ◌||◌, Option, none, some, Str, List, [], ◌∷◌, ◌++◌, any,
  count_if, eq_str, if◌then◌else◌, or_else, ltb, ◌==◌,
}
use jobhunt.Store.Rows.{
  SourceRun, Status, running, Step, fetch, unattempted, Scope, Metadata, is_running, eq_step,
  coalesce, update, put,
}

pub record NewAttempt : Type 0 where
  pub source_run_id : Str
  pub run_uid : Str
  pub source : Str
  pub attempt : ℕ
  pub deadline_at : Option Str
  pub requested_at : Option Str
  pub started_at : Option Str
  pub inventory_scope : Option Scope
  pub metadata : Option Metadata

-- UNIQUE (run_uid, source, step, attempt).
unfoldable pub same_key : Str → Str → Step → ℕ → SourceRun → Bool
same_key run_uid source step attempt r =
    eq_str r.run_uid run_uid
    && (eq_str r.source source && (eq_step r.step step && r.attempt == attempt))

unfoldable pub same_id : Str → SourceRun → Bool
same_id source_run_id r = eq_str r.source_run_id source_run_id

abbrev pub new_row : NewAttempt → SourceRun
new_row a = record {
  source_run_id = a.source_run_id;
  run_uid = a.run_uid;
  source = a.source;
  step = fetch;
  attempt = a.attempt;
  status = running;
  deadline_at = a.deadline_at;
  requested_at = a.requested_at;
  started_at = a.started_at;
  finished_at = none;
  inventory_scope = a.inventory_scope;
  item_count = none;
  fetched_count = none;
  accepted_count = none;
  changed_count = none;
  checkpoint_json = none;
  error_json = none;
  metadata_json = a.metadata;
}

-- `none` is the IntegrityError of a taken id, a taken key, or an attempt below 1.
unfoldable pub create_source_run : NewAttempt → List SourceRun → Option (List SourceRun)
create_source_run a rows =
    if any (same_id a.source_run_id) rows
      || (any (same_key a.run_uid a.source fetch a.attempt) rows || a.attempt == 0)
    then none
    else some (rows ++ new_row a ∷ [])

pub record Unattempted : Type 0 where
  pub source_run_id : Str
  pub run_uid : Str
  pub source : Str
  pub status : Status
  pub requested_at : Option Str
  pub finished_at : Option Str
  pub inventory_scope : Option Scope
  pub error : Option Str
  pub metadata : Option Metadata

abbrev pub unattempted_row : Unattempted → SourceRun
unattempted_row u = record {
  source_run_id = u.source_run_id;
  run_uid = u.run_uid;
  source = u.source;
  step = unattempted;
  attempt = 1;
  status = u.status;
  deadline_at = none;
  requested_at = u.requested_at;
  started_at = none;
  finished_at = u.finished_at;
  inventory_scope = u.inventory_scope;
  item_count = none;
  fetched_count = none;
  accepted_count = none;
  changed_count = none;
  checkpoint_json = none;
  error_json = u.error;
  metadata_json = u.metadata;
}

-- A row of the same key makes the insert do nothing; a taken id is still an IntegrityError.
unfoldable pub record_unattempted_source_run :
    Unattempted → List SourceRun → Option (List SourceRun × Bool)
record_unattempted_source_run u rows =
    if any (same_key u.run_uid u.source unattempted 1) rows
    then some (rows, false)
    else if any (same_id u.source_run_id) rows
    then none
    else some (rows ++ unattempted_row u ∷ [], true)

-- `WHERE source_run_id=? AND status='running'`.
unfoldable pub is_open : Str → SourceRun → Bool
unfolding same_id is_running
is_open source_run_id r = same_id source_run_id r && is_running r.status

-- An assignment reads the row as it was, so `item_count` adds the delta to the old count too.
unfoldable pub progressed : ℕ → ℕ → ℕ → Option Str → SourceRun → SourceRun
progressed fetched_count accepted_delta changed_delta checkpoint_json r = record r {
  fetched_count = some fetched_count;
  accepted_count = some (or_else r.accepted_count 0 + accepted_delta);
  item_count = some (or_else r.accepted_count 0 + accepted_delta);
  changed_count = some (or_else r.changed_count 0 + changed_delta);
  checkpoint_json = coalesce checkpoint_json r.checkpoint_json;
}

unfoldable pub update_source_run_progress :
    Str → ℕ → ℕ → ℕ → Option Str → List SourceRun → List SourceRun
update_source_run_progress source_run_id fetched_count accepted_delta changed_delta checkpoint
      rows =
    update (is_open source_run_id)
      (progressed fetched_count accepted_delta changed_delta checkpoint) rows

pub record Settlement : Type 0 where
  pub status : Status
  pub finished_at : Str
  pub fetched_count : Option ℕ
  pub accepted_count : Option ℕ
  pub changed_count : Option ℕ
  pub checkpoint_json : Option Str
  pub error : Option Str
  pub metadata : Option Metadata

abbrev put_all : Metadata → Metadata → Metadata
put_all existing [] = existing
put_all existing ((k, v) ∷ m) = put_all (put k v existing) m

stored_metadata : Str → List SourceRun → Metadata
stored_metadata source_run_id [] = []
stored_metadata source_run_id (r ∷ rs) =
    if eq_str r.source_run_id source_run_id
    then or_else r.metadata_json []
    else stored_metadata source_run_id rs

unfoldable pub merged_metadata : List SourceRun → Str → Option Metadata → Option Metadata
unfolding stored_metadata
merged_metadata rows source_run_id none = none
merged_metadata rows source_run_id (some m) = some (put_all (stored_metadata source_run_id rows) m)

unfoldable pub settled : Settlement → Option Metadata → SourceRun → SourceRun
settled s merged r = record r {
  status = s.status;
  finished_at = some s.finished_at;
  fetched_count = some (or_else (coalesce s.fetched_count r.fetched_count) 0);
  accepted_count = some (or_else (coalesce s.accepted_count r.accepted_count) 0);
  item_count =
      some (or_else (coalesce s.accepted_count (coalesce r.item_count r.accepted_count)) 0);
  changed_count = coalesce s.changed_count r.changed_count;
  checkpoint_json = coalesce s.checkpoint_json r.checkpoint_json;
  error_json = s.error;
  metadata_json = coalesce merged r.metadata_json;
}

-- The flag says whether a row was still open.
unfoldable pub finish_source_run : Str → Settlement → List SourceRun → List SourceRun × Bool
finish_source_run source_run_id s rows =
    let merged = merged_metadata rows source_run_id s.metadata in
    (
      update (is_open source_run_id) (settled s merged) rows,
      ltb 0 (count_if (is_open source_run_id) rows),
    )
