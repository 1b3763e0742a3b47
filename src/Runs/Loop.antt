-- ===== src/Runs/Loop.antt =====
-- One target of a run: its attempts, and the retries between them
-- (webapp/backend/sources/scheduler.py). Durations are whole ticks of the clock.
use jobhunt.Prelude.{
  ℕ, zero, suc, ◌+◌, ◌-◌, ◌*◌, min, Bool, true, false, not, ◌&&◌, Option, none, some, Str, List, [],
  ◌∷◌, if◌then◌else◌, leb, ◌==◌,
}
use jobhunt.Runs.Target.{SourceDescriptor, SourceTarget, deadline_for}

pub data Disposition : Type 0 where
  success transient permanent : Disposition

-- The statuses of a TargetResult, which an attempt has too.
pub data TargetStatus : Type 0 where
  succeeded failed timeout cancelled skipped : TargetStatus

unfoldable pub is_transient : Disposition → Bool
is_transient transient = true
is_transient _ = false

-- `outcome.status in ("succeeded", "cancelled")`.
unfoldable pub is_settled : TargetStatus → Bool
is_settled succeeded = true
is_settled cancelled = true
is_settled _ = false

unfoldable pub is_timeout : TargetStatus → Bool
is_timeout timeout = true
is_timeout _ = false

-- How the stream of an attempt ends: at its end, at the deadline, by a cancel, by an error of the
-- writer, by a classified error of the adapter, or by any other exception.
pub data Ending : Type 0 where
  exhausted deadline_exceeded cancel writer_error crash : Ending
  source_error : Disposition → Ending

unfoldable pub status_of : Ending → TargetStatus
status_of exhausted = succeeded
status_of deadline_exceeded = timeout
status_of cancel = cancelled
status_of writer_error = failed
status_of crash = failed
status_of (source_error d) = failed

unfoldable pub disposition_of : Ending → Disposition
disposition_of exhausted = success
disposition_of deadline_exceeded = transient
disposition_of cancel = permanent
disposition_of writer_error = permanent
disposition_of crash = permanent
disposition_of (source_error d) = d

-- What an attempt is given, and what comes of it.
pub record AttemptOutcome : Type 0 where
  pub attempt : ℕ
  pub deadline_seconds : ℕ
  pub checkpoint : Option Str
  pub status : TargetStatus
  pub disposition : Disposition
  pub fetched : ℕ

-- The knobs of SchedulerConfig that the loop reads.
pub record SchedulerConfig : Type 0 where
  pub max_attempts : ℕ
  pub attempt_budget_multiplier : ℕ

-- What the loop learns from outside, at each index: the clock before an attempt and after it, the
-- jittered delay, and how the stream ends, given the number and the deadline of the attempt.
pub record Outside : Type 0 where
  pub started : ℕ
  pub before : ℕ → ℕ
  pub after : ℕ → ℕ
  pub backoff : ℕ → ℕ
  pub ends : ℕ → ℕ → Ending
  pub fetched : ℕ → ℕ

-- The settling of an attempt: the outcome that its ending gives.
unfoldable pub run_attempt : ℕ → ℕ → Option Str → Ending → ℕ → AttemptOutcome
unfolding status_of disposition_of
run_attempt attempt deadline_seconds checkpoint ending fetched = record {
  attempt = attempt;
  deadline_seconds = deadline_seconds;
  checkpoint = checkpoint;
  status = status_of ending;
  disposition = disposition_of ending;
  fetched = fetched;
}

module _ (cfg : SchedulerConfig) (w : Outside) (checkpoint : Option Str)
    (attempt_offset deadline budget : ℕ) where
  unfoldable pub budget_end : ℕ
  budget_end = w.started + budget

  -- `attempt_deadline`, 0 where the source has a number that is not positive.
  unfoldable pub attempt_deadline : ℕ → ℕ
  unfolding budget_end
  attempt_deadline index =
      if index == 0 then deadline else min deadline (budget_end - w.before index)

  -- Whether the loop sleeps and goes on, after the outcome at an index: the five tests that break.
  unfoldable pub goes_on : ℕ → AttemptOutcome → Bool
  unfolding budget_end is_transient is_settled is_timeout
  goes_on index o =
      not (is_settled o.status)
      && (is_transient o.disposition
          && (not (is_timeout o.status)
              && (not (leb cfg.max_attempts (index + 1))
                  && not (leb budget_end (w.after index + w.backoff index)))))

  unfoldable pub outcome_at : ℕ → AttemptOutcome
  unfolding run_attempt attempt_deadline
  outcome_at index =
      run_attempt (attempt_offset + index + 1) (attempt_deadline index)
        (if index == 0 then checkpoint else none) (w.ends index (attempt_deadline index))
        (w.fetched index)

  -- The rest of `for index in range(max_attempts)`, from an index, for a number of rounds.
  unfoldable pub attempts_from : ℕ → ℕ → List AttemptOutcome
  unfolding attempt_deadline outcome_at goes_on
  attempts_from zero index = []
  attempts_from (suc rounds) index =
      let rest = attempts_from rounds (index + 1) in
      if attempt_deadline index == 0
      then []
      else outcome_at index ∷ (if goes_on index (outcome_at index) then rest else [])

  unfoldable pub attempt_loop : List AttemptOutcome
  unfolding attempts_from
  attempt_loop = attempts_from cfg.max_attempts 0

unfoldable pub last_of : List AttemptOutcome → Option AttemptOutcome
last_of [] = none
last_of (o ∷ []) = some o
last_of (o ∷ p ∷ os) = last_of (p ∷ os)

unfoldable pub status_or_failed : Option AttemptOutcome → TargetStatus
status_or_failed none = failed
status_or_failed (some o) = o.status

unfoldable pub outcomes_of :
    SchedulerConfig
    → SourceDescriptor
    → SourceTarget
    → Option Str
    → ℕ
    → Outside
    → List AttemptOutcome
unfolding deadline_for attempt_loop
outcomes_of cfg d t checkpoint attempt_offset w =
    attempt_loop cfg w checkpoint attempt_offset (deadline_for d t)
      (deadline_for d t * cfg.attempt_budget_multiplier)

-- The status of the target's result, when the loop ends by itself.
unfoldable pub target_status : List AttemptOutcome → TargetStatus
unfolding last_of status_or_failed
target_status outcomes = status_or_failed (last_of outcomes)
