-- ===== src/Service/Supervise.antt =====
-- The supervisor of one run, from its fetch to its settlement (`_supervise` and the stages of
-- webapp/backend/runservice.py). A phase is the `await` at which the supervisor stands; between two
-- of them nothing else of the process runs.
use jobhunt.Prelude.{
  Bool, true, false, not, ◌&&◌, ◌||◌, Option, none, some, List, [], ◌∷◌, if◌then◌else◌,
}
use jobhunt.Runs.Profile.{RunKind, daily, full_direct, aggregators, llm_review, manual_import}
use jobhunt.Store.Rows.{RunStatus, RunStatus.cancelled, RunStatus.succeeded, RunStatus.partial}

pub data StageStatus : Type 0 where
  stage_ok stage_failed stage_cancelled : StageStatus

pub data Outcome : Type 0 where
  of_fetch : RunStatus → Outcome
  degraded : Outcome

-- SERVICE_EVENT_TYPES; the settled event with the outcome of its payload.
pub data ServiceEvent : Type 0 where
  enrichment_started enrichment_finished enrichment_failed enrichment_cancelled : ServiceEvent
  scoring_started scoring_finished scoring_failed scoring_cancelled : ServiceEvent
  stages_skipped : ServiceEvent
  run_settled : Outcome → ServiceEvent

-- What is awaited, with the status of the fetch and of the stages that are over. An end without an
-- outcome is one whose settled event was not appended.
pub data Phase : Type 0 where
  fetching : Phase
  skipping : RunStatus → Phase
  announcing_enrichment : RunStatus → Phase
  enriching : RunStatus → Phase
  finishing_enrichment : RunStatus → Bool → Phase
  stopping_enrichment : RunStatus → Phase
  announcing_scoring : RunStatus → StageStatus → Phase
  scoring : RunStatus → StageStatus → Phase
  finishing_scoring : RunStatus → StageStatus → StageStatus → Phase
  settling : Outcome → Phase
  settled : Option Outcome → Phase

-- `_append_event` returns, with the event on file or not (a run without a row, an error of SQLite), or
-- it raises.
pub data Append : Type 0 where
  returned : Bool → Append
  raised : Append

-- The task of the stage returns its report, fails, or is cancelled.
pub data TaskEnd : Type 0 where
  task_returned task_raised task_stopped : TaskEnd

-- The thread of an append outlives the task that waits for it, so it may commit all the same.
pub data TaskAppend : Type 0 where
  appended : Bool → TaskAppend
  append_raised : TaskAppend
  append_stopped : Bool → TaskAppend

-- The pass returns or raises, or it ends at a check of the flag: stopped there if the flag is set.
pub data ScoreEnd : Type 0 where
  score_returned score_raised score_checked : ScoreEnd

-- What a phase awaits. The result of a fetch that raises is `failed`.
abbrev pub Reply : Phase → Type 0
Reply fetching = RunStatus
Reply (enriching fs) = TaskEnd
Reply (finishing_enrichment fs b) = TaskAppend
Reply (scoring fs e) = ScoreEnd
Reply (skipping fs) = Append
Reply (announcing_enrichment fs) = Append
Reply (stopping_enrichment fs) = Append
Reply (announcing_scoring fs e) = Append
Reply (finishing_scoring fs e s) = Append
Reply (settling o) = Append
Reply (settled o) = Unit

pub record ActiveRun : Type 0 where
  pub kind : RunKind
  pub cancel_requested : Bool
  pub phase : Phase
  pub stages : Option (StageStatus × StageStatus)
  pub events : List ServiceEvent

-- STAGED_KINDS.
unfoldable pub is_staged : RunKind → Bool
is_staged daily = true
is_staged full_direct = true
is_staged aggregators = false
is_staged llm_review = false
is_staged manual_import = false

-- STAGE_RUN_STATUSES.
unfoldable pub licences : RunStatus → Bool
licences succeeded = true
licences partial = true
licences _ = false

unfoldable pub licensed : RunKind → RunStatus → Bool → Bool
licensed k fs cancel = is_staged k && (licences fs && not cancel)

is_cancelled : RunStatus → Bool
is_cancelled cancelled = true
is_cancelled _ = false

unfoldable pub is_failed : StageStatus → Bool
is_failed stage_failed = true
is_failed _ = false

unfoldable pub outcome_of : Bool → RunStatus → Bool → Outcome
unfolding is_cancelled
outcome_of cancel fs failures =
    if cancel || is_cancelled fs
    then of_fetch cancelled
    else if failures
    then degraded
    else of_fetch fs

abbrev pub new_run : RunKind → ActiveRun
new_run k = record {
  kind = k;
  cancel_requested = false;
  phase = fetching;
  stages = none;
  events = [];
}

abbrev pub at : Phase → ActiveRun → ActiveRun
at p r = record r { phase = p }

-- The newest event first, if it is on file.
abbrev pub log : Bool → ServiceEvent → ActiveRun → ActiveRun
log filed e r = record r { events = if filed then e ∷ r.events else r.events }

-- Both stages were skipped, or these are their ends.
abbrev pub failures : Option (StageStatus × StageStatus) → Bool
failures none = false
failures (some (e, s)) = is_failed e || is_failed s

abbrev pub decide : RunStatus → Option (StageStatus × StageStatus) → ActiveRun → ActiveRun
decide fs stages r = record r {
  stages = stages;
  phase = settling (outcome_of r.cancel_requested fs (failures stages));
}

abbrev pub after_enrichment : RunStatus → StageStatus → ActiveRun → ActiveRun
after_enrichment fs e r =
    at
      (if r.cancel_requested
        then finishing_scoring fs e stage_cancelled
        else announcing_scoring fs e)
      r

abbrev pub enrichment_event : Bool → ServiceEvent
enrichment_event true = enrichment_finished
enrichment_event false = enrichment_failed

abbrev pub enrichment_status : Bool → StageStatus
enrichment_status true = stage_ok
enrichment_status false = stage_failed

abbrev pub scoring_event : StageStatus → ServiceEvent
scoring_event stage_ok = scoring_finished
scoring_event stage_failed = scoring_failed
scoring_event stage_cancelled = scoring_cancelled

-- The exception that escapes the stages is reported, and the run leaves the service.
abbrev pub dropped : ActiveRun → ActiveRun
dropped r = at (settled none) r

-- A cancellation that no one asked for is the supervisor's own, and goes on.
abbrev pub stopped : RunStatus → ActiveRun → ActiveRun
stopped fs r = at (if r.cancel_requested then stopping_enrichment fs else settled none) r

unfoldable pub resume : (p : Phase) → Reply p → ActiveRun → ActiveRun
resume fetching fs r =
    at (if licensed r.kind fs r.cancel_requested then announcing_enrichment fs else skipping fs) r
resume (skipping fs) (returned w) r = decide fs none (log w stages_skipped r)
resume (skipping fs) raised r = dropped r
resume (announcing_enrichment fs) (returned w) r = at (enriching fs) (log w enrichment_started r)
resume (announcing_enrichment fs) raised r = dropped r
resume (enriching fs) task_returned r = at (finishing_enrichment fs true) r
resume (enriching fs) task_raised r = at (finishing_enrichment fs false) r
resume (enriching fs) task_stopped r = stopped fs r
resume (finishing_enrichment fs b) (appended w) r =
    after_enrichment fs (enrichment_status b) (log w (enrichment_event b) r)
resume (finishing_enrichment fs true) append_raised r = at (finishing_enrichment fs false) r
resume (finishing_enrichment fs false) append_raised r = dropped r
resume (finishing_enrichment fs b) (append_stopped w) r = stopped fs (log w (enrichment_event b) r)
resume (stopping_enrichment fs) (returned w) r =
    after_enrichment fs stage_cancelled (log w enrichment_cancelled r)
resume (stopping_enrichment fs) raised r = dropped r
resume (announcing_scoring fs e) (returned w) r = at (scoring fs e) (log w scoring_started r)
resume (announcing_scoring fs e) raised r = dropped r
resume (scoring fs e) score_returned r = at (finishing_scoring fs e stage_ok) r
resume (scoring fs e) score_raised r = at (finishing_scoring fs e stage_failed) r
resume (scoring fs e) score_checked r =
    at (finishing_scoring fs e (if r.cancel_requested then stage_cancelled else stage_ok)) r
resume (finishing_scoring fs e s) (returned w) r =
    decide fs (some (e, s)) (log w (scoring_event s) r)
resume (finishing_scoring fs e stage_ok) raised r = at (finishing_scoring fs e stage_failed) r
resume (finishing_scoring fs e stage_failed) raised r = dropped r
resume (finishing_scoring fs e stage_cancelled) raised r = dropped r
resume (settling o) (returned w) r = at (settled (some o)) (log w (run_settled o) r)
resume (settling o) raised r = dropped r
resume (settled o) _ r = r

-- What reaches a supervisor: a cancel request, the reply to what it awaits, whatever that is, or
-- its end by its own cancellation or by an exception that the stages do not catch.
pub data Signal : Type 0 where
  cancel : Signal
  reply : ((p : Phase) → Reply p) → Signal
  kill : Signal

-- `record.settled`.
unfoldable pub is_settled : Phase → Bool
is_settled (settled o) = true
is_settled _ = false

-- `_deliver_cancel`; what it stops is seen in a later reply. A settled run is out of its reach.
unfoldable pub deliver_cancel : ActiveRun → ActiveRun
deliver_cancel r = if is_settled r.phase then r else record r { cancel_requested = true }

unfoldable pub advance : Signal → ActiveRun → ActiveRun
advance cancel r = deliver_cancel r
advance (reply f) r = resume r.phase (f r.phase) r
advance kill r = if is_settled r.phase then r else dropped r

unfoldable pub advance_all : List Signal → ActiveRun → ActiveRun
advance_all [] r = r
advance_all (s ∷ ss) r = advance_all ss (advance s r)
