-- ===== src/Runs/Limits.antt =====
-- The ceilings of a run's hosts, from its whole plan (webapp/backend/sources/scheduler.py).
use jobhunt.Prelude.{
  ℕ, max, min, Option, none, some, Str, List, [], ◌∷◌, ◌++◌, codes, if◌then◌else◌, text_or,
}
use jobhunt.Store.Rows.{put}
use jobhunt.Runs.Target.{SourceDescriptor, SourceTarget, Planned}
use jobhunt.Runs.Profile.{find}

-- `target.host or f"source:{target.source_key}"`.
unfoldable pub host_key : SourceTarget → Str
host_key t = text_or t.host (codes "source:" ++ t.source_key)

-- `dict.get` with a default.
unfoldable pub get_or : ℕ → Option ℕ → ℕ
get_or n none = n
get_or n (some m) = m

unfoldable pub limit_of : SourceDescriptor → ℕ
limit_of d = max 1 d.per_host_concurrency

-- `host_limits` of `_build_gates`, from the limits so far.
unfoldable pub host_limits : List (Str × ℕ) → List Planned → List (Str × ℕ)
unfolding host_key get_or limit_of find
host_limits limits [] = limits
host_limits limits (p ∷ plan) =
    let host = host_key p.1 in
    let limit = limit_of p.0 in
    host_limits (put host (min (get_or limit (find host limits)) limit) limits) plan

-- `intervals` of `_build_transports`, which passes over the sources without a transport.
unfoldable pub host_intervals : List (Str × ℕ) → List Planned → List (Str × ℕ)
unfolding host_key get_or find
host_intervals intervals [] = intervals
host_intervals intervals (p ∷ plan) =
    let host = host_key p.1 in
    let interval = max (get_or 0 (find host intervals)) p.0.min_request_interval_seconds in
    host_intervals (if p.0.has_transport then put host interval intervals else intervals) plan
