-- ===== src/Runs/Target.antt =====
-- What the scheduler reads of a planned target (webapp/backend/sources/contract.py). Durations are
-- whole ticks of the clock; the texts that only name a target are kept as they are.
use jobhunt.Prelude.{Bool, ℕ, Option, none, some, Str, if◌then◌else◌, ◌==◌}
use jobhunt.Store.Rows.{Scope}

-- The part of SourceDescriptor that schedules.
pub record SourceDescriptor : Type 0 where
  pub refresh_interval_seconds : ℕ
  pub default_deadline_seconds : ℕ
  pub max_concurrent_targets : Option ℕ
  pub per_host_concurrency : ℕ
  pub min_request_interval_seconds : ℕ
  -- False for TransportKind.NONE.
  pub has_transport : Bool

pub record SourceTarget : Type 0 where
  pub source_run_key : Str
  pub source_key : Str
  pub instance_key : Str
  pub label : Str
  pub host : Option Str
  pub inventory_scope : Scope
  pub deadline_seconds : Option ℕ

-- `target.deadline_seconds or self.default_deadline_seconds`: a zero counts as missing.
unfoldable pub deadline_for : SourceDescriptor → SourceTarget → ℕ
deadline_for d t = elim t.deadline_seconds [
  | none ↦ d.default_deadline_seconds
  | some n ↦ if n == 0 then d.default_deadline_seconds else n
]

-- A plan: the descriptor of the adapter, and the target.
abbrev pub Planned : Type 0
Planned = SourceDescriptor × SourceTarget
