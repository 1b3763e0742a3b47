-- ===== src/Queue/Freshness.antt =====
-- The age of a posting and its bucket (webapp/backend/ranking.py).
use mathlib.Core.List.{reverse}
use jobhunt.Prelude.{ℕ, ◌-◌, Option, none, some, Str, [], ◌∷◌, if◌then◌else◌, leb, take, is_empty}
use jobhunt.Queue.Job.{JobLight, QueuePolicy, Python, is_space}

pub data Bucket : Type 0 where
  fresh aging unknown stale : Bucket

pub data Basis : Type 0 where
  posted first_seen : Basis

pub record Freshness : Type 0 where
  pub bucket : Bucket
  pub age_days : Option ℕ
  pub basis : Option Basis

abbrev pub bucket_rank : Bucket → ℕ
bucket_rank fresh = 0
bucket_rank aging = 1
bucket_rank unknown = 1
bucket_rank stale = 2

abbrev pub lstrip : Str → Str
lstrip [] = []
lstrip (c ∷ s) = if is_space c then lstrip s else c ∷ s

unfoldable pub strip : Str → Str
strip s = reverse (lstrip (reverse (lstrip s)))

abbrev pub bucket_of : QueuePolicy → ℕ → Bucket
bucket_of policy age =
    if leb age policy.fresh_days then fresh else if leb age policy.stale_days then aging else stale

-- `today` and the parsed date are ordinals, so the truncated `-` is `max(0, (today - parsed).days)`.
abbrev pub dated : Basis → ℕ → QueuePolicy → ℕ → Freshness
dated basis today policy parsed =
    let age = today - parsed in
    record { bucket = bucket_of policy age; age_days = some age; basis = some basis }

module _ (py : Python) where
  -- `date.fromisoformat(value.strip()[:10])`; no value and the empty one are no date.
  unfoldable pub parse_date : Option Str → Option ℕ
  parse_date none = none
  parse_date (some s) = if is_empty s then none else py.date_of (take 10 (strip s))

  unfoldable pub freshness_of : JobLight → ℕ → QueuePolicy → Freshness
  freshness_of job today policy = elim (parse_date job.posted) [
    | some parsed ↦ dated posted today policy parsed
    | none ↦ elim (parse_date job.first_seen) [
      | some parsed ↦ dated first_seen today policy parsed
      | none ↦ record { bucket = unknown; age_days = none; basis = none }
    ]
  ]
