-- ===== src/Service/Active.antt =====
-- The runs that a process executes, and the requests on them (webapp/backend/runservice.py).
use jobhunt.Prelude.{
  Bool, true, false, not, ◌&&◌, ◌||◌, Option, none, some, Str, codes, List, [], ◌∷◌, any, mem,
  eq_str, if◌then◌else◌, is_some, ◌⊎◌, inl, inr,
}
use jobhunt.Runs.Profile.{RunKind, daily, full_direct, aggregators, llm_review, manual_import, find}
use jobhunt.Store.Rows.{RunStatus, put}
use jobhunt.Service.Supervise.{ActiveRun, new_run, Signal, cancel, is_settled, advance}

pub data ServiceError : Type 0 where
  unknown_run_kind unsupported_run_kind run_conflict canonical_schema_unavailable : ServiceError
  unknown_run unknown_source : ServiceError

-- The values of _EXCLUSION_GROUPS, which has no entry for the deferred kinds.
pub data Lane : Type 0 where
  direct_lane aggregators_lane : Lane

unfoldable pub exclusion_group : RunKind → Option Lane
exclusion_group daily = some direct_lane
exclusion_group full_direct = some direct_lane
exclusion_group aggregators = some aggregators_lane
exclusion_group llm_review = none
exclusion_group manual_import = none

unfoldable pub eq_lane : Option Lane → Lane → Bool
eq_lane (some direct_lane) direct_lane = true
eq_lane (some aggregators_lane) aggregators_lane = true
eq_lane _ _ = false

-- `_active`. A run that settles leaves it in the same step.
abbrev pub Active : Type 0
Active = List (Str × ActiveRun)

abbrev pub holds_lane : Lane → Str × ActiveRun → Bool
holds_lane g (uid, r) = not (is_settled r.phase) && eq_lane (exclusion_group r.kind) g

-- A kind without a group would raise a KeyError, so it starts nothing either; it does not get here.
unfoldable pub group_conflicts : Option Lane → Active → Bool
group_conflicts none active = true
group_conflicts (some g) active = any (holds_lane g) active

unfoldable pub check_conflicts : Bool → RunKind → Active → Bool
check_conflicts legacy_running k active =
    legacy_running || group_conflicts (exclusion_group k) active

abbrev pub deferred_kinds : List Str
deferred_kinds = codes "llm-review" ∷ codes "manual-import" ∷ []

-- What is not a string is `none`. Of the values of RunKind, the deferred ones are refused before.
unfoldable pub parse_kind : Option Str → ServiceError ⊎ RunKind
parse_kind none = inl unknown_run_kind
parse_kind (some kind) =
    if mem kind deferred_kinds
    then inl unsupported_run_kind
    else if eq_str kind (codes "daily")
    then inr daily
    else if eq_str kind (codes "full-direct")
    then inr full_direct
    else if eq_str kind (codes "aggregators")
    then inr aggregators
    else inl unknown_run_kind

-- What the database answers to the schema gate, and the legacy runner to its test, come with a
-- request; so does the id that the scheduler gives to the run.
unfoldable pub begin : Bool → Str → RunKind → Active → ServiceError ⊎ Active
begin legacy_running uid k active =
    if check_conflicts legacy_running k active
    then inl run_conflict
    else inr (put uid (new_run k) active)

unfoldable pub start_parsed :
    Bool → Bool → Str → ServiceError ⊎ RunKind → Active → ServiceError ⊎ Active
start_parsed schema legacy_running uid (inl e) active = inl e
start_parsed schema legacy_running uid (inr k) active =
    if schema then begin legacy_running uid k active else inl canonical_schema_unavailable

unfoldable pub start_run : Bool → Bool → Str → Option Str → Active → ServiceError ⊎ Active
unfolding start_parsed
start_run schema legacy_running uid kind active =
    start_parsed schema legacy_running uid (parse_kind kind) active

-- The first candidate kind whose plan has the source; a plan is given by its `source_run_key`s.
unfoldable pub resolve_retry_target : (RunKind → List Str) → Str → Option RunKind
resolve_retry_target plan source =
    if mem source (plan full_direct)
    then some full_direct
    else if mem source (plan aggregators)
    then some aggregators
    else none

unfoldable pub retry_resolved : Bool → Str → Option RunKind → Active → ServiceError ⊎ Active
retry_resolved legacy_running uid none active = inl unknown_source
retry_resolved legacy_running uid (some k) active = begin legacy_running uid k active

unfoldable pub retry_source :
    Bool → Bool → (RunKind → List Str) → Str → Str → Active → ServiceError ⊎ Active
unfolding retry_resolved
retry_source schema legacy_running plan uid source active =
    if schema
    then retry_resolved legacy_running uid (resolve_retry_target plan source) active
    else inl canonical_schema_unavailable

-- A run takes a signal, and leaves when that settles it.
unfoldable pub deliver : Str → Signal → Active → Active
deliver uid s [] = []
deliver uid s ((j, r) ∷ m) =
    let rest = deliver uid s m in
    if eq_str uid j
    then (if is_settled (advance s r).phase then m else (j, advance s r) ∷ m)
    else (j, r) ∷ rest

unfoldable pub is_live : Option ActiveRun → Bool
is_live none = false
is_live (some r) = not (is_settled r.phase)

-- The last argument but one is the status of the run's row, if there is one.
unfoldable pub cancel_run : Bool → Str → Option RunStatus → Active → ServiceError ⊎ Active
cancel_run schema uid row active =
    if is_live (find uid active)
    then inr (deliver uid cancel active)
    else if not schema
    then inl canonical_schema_unavailable
    else if is_some row
    then inl run_conflict
    else inl unknown_run

-- What happens to the service: the requests, with what they meet, and the signals of a supervisor.
pub data Request : Type 0 where
  starts : Bool → Bool → Str → Option Str → Request
  retries : Bool → Bool → (RunKind → List Str) → Str → Str → Request
  cancels : Bool → Str → Option RunStatus → Request
  signals : Str → Signal → Request

-- A refusal changes nothing.
unfoldable pub accepted : Active → ServiceError ⊎ Active → Active
accepted active (inl e) = active
accepted active (inr next) = next

unfoldable pub serve : Request → Active → Active
serve (starts schema legacy uid kind) active =
    accepted active (start_run schema legacy uid kind active)
serve (retries schema legacy plan uid source) active =
    accepted active (retry_source schema legacy plan uid source active)
serve (cancels schema uid row) active = accepted active (cancel_run schema uid row active)
serve (signals uid s) active = deliver uid s active

unfoldable pub serve_all : List Request → Active → Active
serve_all [] active = active
serve_all (q ∷ qs) active = serve_all qs (serve q active)
