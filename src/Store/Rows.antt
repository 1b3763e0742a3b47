-- ===== src/Store/Rows.antt =====
-- The rows of the run store (webapp/backend/sources/runstore.py, and the tables of
-- webapp/backend/migrations.py). A status, a step and a scope are the texts that the code writes.
use jobhunt.Prelude.{
  ℕ, Bool, true, false, Option, none, some, Str, List, [], ◌∷◌, eq_str, if◌then◌else◌,
}

pub data Status : Type 0 where
  running succeeded failed timeout cancelled interrupted skipped : Status

unfoldable pub is_running : Status → Bool
is_running running = true
is_running _ = false

unfoldable pub is_succeeded : Status → Bool
is_succeeded succeeded = true
is_succeeded _ = false

-- TERMINAL_SOURCE_RUN_STATUSES.
unfoldable pub is_terminal : Status → Bool
is_terminal running = false
is_terminal _ = true

-- SOURCE_RUN_STEP and UNATTEMPTED_SOURCE_RUN_STEP.
pub data Step : Type 0 where
  fetch unattempted : Step

unfoldable pub is_fetch : Step → Bool
is_fetch fetch = true
is_fetch unattempted = false

unfoldable pub eq_step : Step → Step → Bool
eq_step fetch fetch = true
eq_step unattempted unattempted = true
eq_step _ _ = false

pub data Scope : Type 0 where
  complete partial : Scope

unfoldable pub is_complete : Option Scope → Bool
is_complete (some complete) = true
is_complete _ = false

-- A JSON object, its values kept as text.
abbrev pub Metadata : Type 0
Metadata = List (Str × Str)

-- One row of `source_runs`.
pub record SourceRun : Type 0 where
  pub source_run_id : Str
  pub run_uid : Str
  pub source : Str
  pub step : Step
  pub attempt : ℕ
  pub status : Status
  pub deadline_at : Option Str
  pub requested_at : Option Str
  pub started_at : Option Str
  pub finished_at : Option Str
  pub inventory_scope : Option Scope
  pub item_count : Option ℕ
  pub fetched_count : Option ℕ
  pub accepted_count : Option ℕ
  pub changed_count : Option ℕ
  pub checkpoint_json : Option Str
  pub error_json : Option Str
  pub metadata_json : Option Metadata

pub data RunStatus : Type 0 where
  running succeeded partial failed cancelled interrupted : RunStatus

-- One row of `pipeline_runs`; the columns that no modelled function reads are left out.
pub record PipelineRun : Type 0 where
  pub run_uid : Str
  pub kind : Str
  pub status : RunStatus
  pub requested_at : Str
  pub started_at : Option Str
  pub finished_at : Option Str
  pub kept_count : Option ℕ
  pub new_count : Option ℕ
  pub error_json : Option Str

-- `COALESCE(a, b)`.
abbrev pub coalesce {ℓ} : {A : Type ℓ} → Option A → Option A → Option A
coalesce none b = b
coalesce (some a) b = some a

-- `UPDATE ... WHERE`, on every row that the test selects.
abbrev pub update {ℓ} : {A : Type ℓ} → (A → Bool) → (A → A) → List A → List A
update p f [] = []
update p f (r ∷ rs) = (if p r then f r else r) ∷ update p f rs

-- `dict.update` with one pair.
abbrev pub put {ℓ} : {V : Type ℓ} → Str → V → List (Str × V) → List (Str × V)
put k v [] = (k, v) ∷ []
put k v ((j, w) ∷ m) = if eq_str k j then (k, v) ∷ m else (j, w) ∷ put k v m
