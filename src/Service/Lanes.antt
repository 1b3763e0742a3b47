-- ===== src/Service/Lanes.antt =====
-- No two active runs share a lane (webapp/backend/runservice.py).
use jobhunt.Prelude.{
  ◌≡◌, refl, ◌≤◌, ◌+◌, arith, Bool, true, false, not, Option, none, some, Str, List, [], ◌∷◌, any,
  count_if, is_some, eq_str, if◌then◌else◌, Bool-cases, ◌⊎◌, inl, inr,
}
use jobhunt.Runs.Profile.{RunKind, find}
use jobhunt.Store.Rows.{put}
use jobhunt.Service.Supervise.{ActiveRun, new_run, Signal, cancel, is_settled, advance}
use jobhunt.Service.Kind.{kind-advance}
use jobhunt.Service.Settles.{settled-advance}
use jobhunt.Service.Active.{
  ServiceError, canonical_schema_unavailable, run_conflict, unknown_run, is_live, Lane, direct_lane,
  aggregators_lane, exclusion_group, eq_lane, Active, holds_lane, group_conflicts, check_conflicts,
  begin, start_run, retry_source, resolve_retry_target, parse_kind, cancel_run, start_parsed,
  retry_resolved, deliver, accepted, Request, starts, retries, cancels, signals, serve, serve_all,
}

abbrev HasLanes : Active → Type 0
HasLanes active = (g : Lane) → count_if (holds_lane g) active ≤ 1

count_if-any :
    (g : Lane) (m : Active) → any (holds_lane g) m ≡ false → count_if (holds_lane g) m ≡ 0
count_if-any g [] h = refl
count_if-any g (e ∷ m) h = ground (arith, count_if-any g m)

count_if-put :
    (g : Lane) (uid : Str) (r : ActiveRun) (m : Active)
    → count_if (holds_lane g) (put uid r m)
      ≤ (if holds_lane g (uid, r) then 1 else 0) + count_if (holds_lane g) m
count_if-put g uid r [] = omega arith
count_if-put g uid r ((j, w) ∷ m) = elim (Bool-cases (eq_str uid j)) [
  | inl e ↦ rw e (omega arith)
  | inr e ↦ rw e (omega (arith, count_if-put g uid r m))
]

bit-le : (b : Bool) → (if b then 1 else 0) ≤ 1
bit-le true = omega arith
bit-le false = omega arith

-- A lane that is free, or that the run is not in, still has one run at most.
put-one :
    (g : Lane) (uid : Str) (r : ActiveRun) (m : Active)
    → any (holds_lane g) m ≡ false
    → count_if (holds_lane g) (put uid r m) ≤ 1
put-one g uid r m h =
    omega (arith, count_if-put g uid r m, count_if-any g m h, bit-le (holds_lane g (uid, r)))

put-other :
    (g : Lane) (uid : Str) (r : ActiveRun) (m : Active)
    → eq_lane (exclusion_group r.kind) g ≡ false
    → count_if (holds_lane g) m ≤ 1
    → count_if (holds_lane g) (put uid r m) ≤ 1
put-other g uid r m e h = ground (arith, count_if-put g uid r m, e, h)

-- A run that starts takes a free lane, and holds no other.
put-HasLanes :
    (o : Option Lane) (uid : Str) (r : ActiveRun) (m : Active)
    → exclusion_group r.kind ≡ o
    → group_conflicts o m ≡ false
    → HasLanes m
    → HasLanes (put uid r m)
unfolding group_conflicts eq_lane
put-HasLanes none uid r m e f h g = absurd (cc f)
put-HasLanes (some direct_lane) uid r m e f h direct_lane = put-one direct_lane uid r m f
put-HasLanes (some aggregators_lane) uid r m e f h aggregators_lane =
    put-one aggregators_lane uid r m f
put-HasLanes (some direct_lane) uid r m e f h aggregators_lane =
    put-other aggregators_lane uid r m (rw e refl) (h aggregators_lane)
put-HasLanes (some aggregators_lane) uid r m e f h direct_lane =
    put-other direct_lane uid r m (rw e refl) (h direct_lane)

begin-HasLanes :
    (legacy : Bool) (uid : Str) (k : RunKind) (m : Active)
    → HasLanes m
    → HasLanes (accepted m (begin legacy uid k m))
unfolding begin accepted check_conflicts
begin-HasLanes true uid k m h = h
begin-HasLanes false uid k m h = elim (Bool-cases (group_conflicts (exclusion_group k) m)) [
  | inl e ↦ rw e h
  | inr e ↦ rw e (put-HasLanes (exclusion_group k) uid (new_run k) m refl e h)
]

-- A signal moves no run into a lane.
advance-holds_lane :
    (g : Lane) (uid : Str) (s : Signal) (r : ActiveRun)
    → (if holds_lane g (uid, advance s r) then 1 else 0) ≤ (if holds_lane g (uid, r) then 1 else 0)
advance-holds_lane g uid s r = elim (Bool-cases (is_settled r.phase)) [
  | inl e ↦ rw (settled-advance s r e, e) (omega arith)
  | inr e ↦ rw (kind-advance s r, e) (ground arith)
]

count_if-deliver :
    (g : Lane) (uid : Str) (s : Signal) (m : Active)
    → count_if (holds_lane g) (deliver uid s m) ≤ count_if (holds_lane g) m
unfolding deliver
count_if-deliver g uid s [] = omega arith
count_if-deliver g uid s ((j, r) ∷ m) = elim (Bool-cases (eq_str uid j)) [
  | inl e ↦ rw e (elim (Bool-cases (is_settled (advance s r).phase)) [
    | inl f ↦ rw f (omega arith)
    | inr f ↦ rw f (ground (arith, advance-holds_lane g j s r, f))
  ])
  | inr e ↦ rw e (omega (arith, count_if-deliver g uid s m))
]

deliver-HasLanes : (uid : Str) (s : Signal) (m : Active) → HasLanes m → HasLanes (deliver uid s m)
deliver-HasLanes uid s m h g = omega (arith, h g, count_if-deliver g uid s m)

if-HasLanes :
    (c : Bool) (m : Active) (x y : ServiceError ⊎ Active)
    → HasLanes (accepted m x)
    → HasLanes (accepted m y)
    → HasLanes (accepted m (if c then x else y))
if-HasLanes true m x y h k = h
if-HasLanes false m x y h k = k

-- Only a live run is touched by a cancel request.
cancelled-HasLanes :
    (live schema known : Bool) (uid : Str) (m : Active)
    → HasLanes m
    → HasLanes (
        accepted m (
          if live
          then inr (deliver uid cancel m)
          else if not schema
          then inl canonical_schema_unavailable
          else if known
          then inl run_conflict
          else inl unknown_run))
unfolding accepted
cancelled-HasLanes true schema known uid m h = deliver-HasLanes uid cancel m h
cancelled-HasLanes false false known uid m h = h
cancelled-HasLanes false true true uid m h = h
cancelled-HasLanes false true false uid m h = h

start_parsed-HasLanes :
    (schema legacy : Bool) (uid : Str) (kind : ServiceError ⊎ RunKind) (m : Active)
    → HasLanes m
    → HasLanes (accepted m (start_parsed schema legacy uid kind m))
unfolding start_parsed accepted
start_parsed-HasLanes schema legacy uid (inl e) m h = h
start_parsed-HasLanes true legacy uid (inr k) m h = begin-HasLanes legacy uid k m h
start_parsed-HasLanes false legacy uid (inr k) m h = h

retry_resolved-HasLanes :
    (legacy : Bool) (uid : Str) (o : Option RunKind) (m : Active)
    → HasLanes m
    → HasLanes (accepted m (retry_resolved legacy uid o m))
unfolding retry_resolved accepted
retry_resolved-HasLanes legacy uid none m h = h
retry_resolved-HasLanes legacy uid (some k) m h = begin-HasLanes legacy uid k m h

serve-HasLanes : (q : Request) (m : Active) → HasLanes m → HasLanes (serve q m)
unfolding serve start_run retry_source cancel_run accepted
serve-HasLanes (starts schema legacy uid kind) m h =
    start_parsed-HasLanes schema legacy uid (parse_kind kind) m h
serve-HasLanes (retries schema legacy plan uid source) m h =
    if-HasLanes schema m (retry_resolved legacy uid (resolve_retry_target plan source) m)
      (inl canonical_schema_unavailable)
      (retry_resolved-HasLanes legacy uid (resolve_retry_target plan source) m h) h
serve-HasLanes (cancels schema uid row) m h =
    cancelled-HasLanes (is_live (find uid m)) schema (is_some row) uid m h
serve-HasLanes (signals uid s) m h = deliver-HasLanes uid s m h

serve_all-HasLanes : (qs : List Request) (m : Active) → HasLanes m → HasLanes (serve_all qs m)
unfolding serve_all
serve_all-HasLanes [] m h = h
serve_all-HasLanes (q ∷ qs) m h = serve_all-HasLanes qs (serve q m) (serve-HasLanes q m h)

-- Whatever requests come, in whatever order, and whatever the supervisors do, a lane has one active
-- run at most.
pub serve_all-lanes : (qs : List Request) (g : Lane) → count_if (holds_lane g) (serve_all qs []) ≤ 1
serve_all-lanes qs = serve_all-HasLanes qs [] (λ g. omega arith)
