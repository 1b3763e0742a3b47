-- ===== src/Service/Tests.antt =====
-- Runs of the service at concrete inputs (webapp/backend/runservice.py).
use jobhunt.Prelude.{
  ◌≡◌, ◌≤◌, refl, arith, Bool, true, false, none, some, Str, codes, List, [], ◌∷◌, ◌++◌, eq_str,
  count_if, map,
}
use jobhunt.Runs.Profile.{daily, aggregators}
use jobhunt.Store.Rows.{RunStatus.cancelled, RunStatus.succeeded}
use jobhunt.Service.Supervise.{
  stage_ok, of_fetch, Phase, fetching, skipping, announcing_enrichment, enriching,
  finishing_enrichment, stopping_enrichment, announcing_scoring, scoring, finishing_scoring,
  settling, settled, Reply, returned, task_returned, task_stopped, appended, score_returned,
  ActiveRun, run_settled, is_staged, licences, licensed, is_failed, outcome_of, new_run, resume,
  Signal, cancel, reply, is_settled, deliver_cancel, advance, advance_all,
}
use jobhunt.Service.Active.{
  direct_lane, exclusion_group, eq_lane, holds_lane, group_conflicts, check_conflicts, parse_kind,
  begin, start_parsed, start_run, accepted, Request, starts, serve, serve_all,
}
use jobhunt.Service.Honoured.{is_undecided, advance_all-cancel}
use jobhunt.Service.Told.{Part, stages_finished, advance_all-success}
use jobhunt.Service.Settles.{replies, advance_all-settled}
use jobhunt.Service.Lanes.{serve_all-lanes}

-- Everything goes well; the task of the enrichment ends as it is given.
abbrev pub answer : Bool → (p : Phase) → Reply p
answer b fetching = succeeded
answer b (skipping fs) = returned true
answer b (announcing_enrichment fs) = returned true
answer true (enriching fs) = task_returned
answer false (enriching fs) = task_stopped
answer b (finishing_enrichment fs c) = appended true
answer b (stopping_enrichment fs) = returned true
answer b (announcing_scoring fs e) = returned true
answer b (scoring fs e) = score_returned
answer b (finishing_scoring fs e s) = returned true
answer b (settling o) = returned true
answer b (settled o) = tt

abbrev pub two : List Signal
two = reply (answer true) ∷ reply (answer true) ∷ []

abbrev pub seven : List Signal
seven = two ++ two ++ two ++ (reply (answer true) ∷ [])

abbrev pub eight : List Signal
eight = reply (answer true) ∷ seven

abbrev pub stops : List Signal
stops = reply (answer false) ∷ reply (answer true) ∷ reply (answer true) ∷ reply (answer true) ∷ []

-- While it enriches.
abbrev pub midway : ActiveRun
midway = record {
  kind = daily;
  cancel_requested = false;
  phase = enriching succeeded;
  stages = none;
  events = [];
}

advance_all-cancel_example : of_fetch cancelled ≡ of_fetch cancelled
unfolding is_undecided advance_all advance deliver_cancel is_settled resume outcome_of is_failed
advance_all-cancel_example = advance_all-cancel midway stops (of_fetch cancelled) refl refl

advance_all-success_example :
    ((advance_all eight (new_run daily)).stages ≡ some (stage_ok, stage_ok))
    × Part
        (advance_all eight (new_run daily)).events
        (run_settled (of_fetch succeeded) ∷ stages_finished)
unfolding is_staged licences licensed advance_all advance resume outcome_of is_failed
advance_all-success_example = advance_all-success daily eight succeeded refl refl refl

-- All five are on file.
successful_events :
    (advance_all eight (new_run daily)).events ≡ run_settled (of_fetch succeeded) ∷ stages_finished
unfolding is_staged licences licensed advance_all advance resume outcome_of is_failed
successful_events = refl

advance_all-settled_example :
    is_settled (advance_all (eight ++ two ++ two) (new_run aggregators)).phase ≡ true
unfolding replies
advance_all-settled_example =
    advance_all-settled (new_run aggregators) (eight ++ two ++ two) (omega arith)

-- A cancel that is accepted while the settled event is written leaves a success.
late_cancel :
    (advance_all
      (reply (answer true) ∷ [])
      (advance cancel (advance_all seven (new_run daily)))).phase
    ≡ settled (some (of_fetch succeeded))
unfolding is_staged licences licensed advance_all advance deliver_cancel is_settled resume
    outcome_of is_failed
late_cancel = refl

-- A cancel that is accepted while the start of the enrichment is written lets the stage run.
early_cancel :
    (advance_all two
      (advance cancel (advance_all (reply (answer true) ∷ []) (new_run daily)))).phase
    ≡ finishing_enrichment succeeded true
unfolding is_staged licences licensed advance_all advance deliver_cancel is_settled resume
early_cancel = refl

abbrev pub nightly_requests : List Request
nightly_requests =
    starts true false (codes "a") (some (codes "daily"))
    ∷ starts true false (codes "b") (some (codes "full-direct"))
    ∷ starts true false (codes "c") (some (codes "aggregators"))
    ∷ []

serve_all-lanes_example : count_if (holds_lane direct_lane) (serve_all nightly_requests []) ≤ 1
serve_all-lanes_example = serve_all-lanes nightly_requests direct_lane

-- The second is refused.
nightly_active :
    map (λ (e : Str × ActiveRun). e.0) (serve_all nightly_requests []) ≡ codes "a" ∷ codes "c" ∷ []
unfolding serve_all serve start_run start_parsed parse_kind begin check_conflicts group_conflicts
    exclusion_group eq_lane accepted is_settled eq_str
nightly_active = refl
