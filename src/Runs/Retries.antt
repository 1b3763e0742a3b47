-- ===== src/Runs/Retries.antt =====
-- How often a target is tried, and on what (webapp/backend/sources/scheduler.py).
use jobhunt.Prelude.{
  ℕ, zero, suc, ◌+◌, ◌≤◌, ◌<◌, ◌≡◌, refl, sym, arith, Bool, true, false, not, ◌&&◌, Option, none,
  Str, List, [], ◌∷◌, if◌then◌else◌, ◌==◌, Bool-cases, inl, inr, AllFrom, length, any,
}
use jobhunt.Runs.Loop.{
  AttemptOutcome, SchedulerConfig, Outside, TargetStatus, is_settled, is_timeout, is_transient,
  attempt_deadline, goes_on, outcome_at, run_attempt, attempts_from, attempt_loop, target_status,
  last_of, status_or_failed,
}

unfoldable pub is_success : TargetStatus → Bool
is_success TargetStatus.succeeded = true
is_success _ = false

-- An outcome that another attempt may follow.
abbrev pub retryable : AttemptOutcome → Bool
retryable o = not (is_settled o.status) && (is_transient o.disposition && not (is_timeout o.status))

-- Every outcome but the last one is retryable.
abbrev pub retried : List AttemptOutcome → Bool
retried [] = true
retried (o ∷ []) = true
retried (o ∷ p ∷ os) = retryable o && retried (p ∷ os)

module _ (cfg : SchedulerConfig) (w : Outside) (checkpoint : Option Str)
    (attempt_offset deadline budget : ℕ) where
  -- What the attempt at an index is given.
  abbrev pub Given : ℕ → AttemptOutcome → Type 0
  Given i o =
      (o.attempt ≡ attempt_offset + i + 1)
      × (o.checkpoint ≡ (if i == 0 then checkpoint else none))
      × (0 < o.deadline_seconds)
      × (o.deadline_seconds ≤ deadline)

  Given-outcome_at :
      (i : ℕ)
      → (attempt_deadline cfg w checkpoint attempt_offset deadline budget i == 0) ≡ false
      → Given i (outcome_at cfg w checkpoint attempt_offset deadline budget i)
  unfolding outcome_at run_attempt attempt_deadline
  Given-outcome_at i h = (refl, refl, ground arith, ground arith)

  attempts_from-Given :
      (rounds i : ℕ)
      → AllFrom Given i (attempts_from cfg w checkpoint attempt_offset deadline budget rounds i)
  unfolding attempts_from
  attempts_from-Given zero i = tt
  attempts_from-Given (suc rounds) i =
      elim (Bool-cases (attempt_deadline cfg w checkpoint attempt_offset deadline budget i == 0)) [
        | inl e ↦ rw e tt
        | inr e ↦
            elim (Bool-cases (
              goes_on cfg w checkpoint attempt_offset deadline budget i
                (outcome_at cfg w checkpoint attempt_offset deadline budget i))) [
                  | inl g ↦ rw (e, g) (Given-outcome_at i e, attempts_from-Given rounds (i + 1))
                  | inr g ↦ rw (e, g) (Given-outcome_at i e, tt)
                ]
      ]

  length-attempts_from :
      (rounds i : ℕ)
      → length (attempts_from cfg w checkpoint attempt_offset deadline budget rounds i) ≤ rounds
  unfolding attempts_from
  length-attempts_from zero i = omega arith
  length-attempts_from (suc rounds) i = ground (arith, length-attempts_from rounds (i + 1))

  retryable_of_goes_on :
      (i : ℕ) (o : AttemptOutcome)
      → goes_on cfg w checkpoint attempt_offset deadline budget i o ≡ true
      → retryable o ≡ true
  unfolding goes_on
  retryable_of_goes_on i o h = ground arith

  retried-cons :
      (o : AttemptOutcome) (os : List AttemptOutcome)
      → retryable o ≡ true
      → retried os ≡ true
      → retried (o ∷ os) ≡ true
  retried-cons o [] h hs = refl
  retried-cons o (p ∷ os) h hs = rw (h, hs) refl

  attempts_from-retried :
      (rounds i : ℕ)
      → retried (attempts_from cfg w checkpoint attempt_offset deadline budget rounds i) ≡ true
  unfolding attempts_from
  attempts_from-retried zero i = refl
  attempts_from-retried (suc rounds) i =
      elim (Bool-cases (attempt_deadline cfg w checkpoint attempt_offset deadline budget i == 0)) [
        | inl e ↦ rw e refl
        | inr e ↦
            elim (Bool-cases (
              goes_on cfg w checkpoint attempt_offset deadline budget i
                (outcome_at cfg w checkpoint attempt_offset deadline budget i))) [
                  | inl g ↦
                      rw (e, g)
                        (retried-cons (outcome_at cfg w checkpoint attempt_offset deadline budget i)
                          _
                          (retryable_of_goes_on i
                            (outcome_at cfg w checkpoint attempt_offset deadline budget i) g)
                          (attempts_from-retried rounds (i + 1)))
                  | inr g ↦ rw (e, g) refl
                ]
      ]

  -- A target gets at most `max_attempts` attempts; they are numbered from the offset without a
  -- hole, only the first has the checkpoint, each has a deadline that is positive and at most the
  -- target's; and every attempt but the last ended in a transient error that is no timeout.
  pub attempt_loop-IsBounded :
      (length (attempt_loop cfg w checkpoint attempt_offset deadline budget) ≤ cfg.max_attempts)
      × AllFrom Given 0 (attempt_loop cfg w checkpoint attempt_offset deadline budget)
      × (retried (attempt_loop cfg w checkpoint attempt_offset deadline budget) ≡ true)
  unfolding attempt_loop
  attempt_loop-IsBounded = (
    length-attempts_from cfg.max_attempts 0,
    attempts_from-Given cfg.max_attempts 0,
    attempts_from-retried cfg.max_attempts 0,
  )

  -- With an attempt allowed and a positive deadline, at least one attempt is made.
  pub attempt_loop_starts :
      0 < cfg.max_attempts
      → 0 < deadline
      → 0 < length (attempt_loop cfg w checkpoint attempt_offset deadline budget)
  unfolding attempt_loop
  attempt_loop_starts h d = starts cfg.max_attempts h
    where
      starts :
          (rounds : ℕ)
          → 0 < rounds
          → 0 < length (attempts_from cfg w checkpoint attempt_offset deadline budget rounds 0)
      starts zero r = ground (arith, r)
      starts (suc rounds) r = ground (arith, d)

unsuccessful :
    (s : TargetStatus) (b : Bool) → (not (is_settled s) && b) ≡ true → is_success s ≡ false
unfolding is_success is_settled
unsuccessful TargetStatus.succeeded b h = sym h
unsuccessful TargetStatus.failed b h = refl
unsuccessful TargetStatus.timeout b h = refl
unsuccessful TargetStatus.cancelled b h = refl
unsuccessful TargetStatus.skipped b h = refl

any_success :
    (os : List AttemptOutcome)
    → retried os ≡ true
    → any (λ o. is_success o.status) os ≡ is_success (target_status os)
unfolding target_status last_of status_or_failed is_success
any_success [] r = refl
any_success (o ∷ []) r = ground arith
any_success (o ∷ p ∷ os) r = ground (
  arith,
  any_success (p ∷ os) (ground arith),
  unsuccessful o.status (is_transient o.disposition && not (is_timeout o.status)) (ground arith),
)

-- The status of a target whose loop ends by itself is a success exactly when one of its attempts
-- succeeded.
pub target_status-attempt_loop :
    (cfg : SchedulerConfig) (w : Outside) (checkpoint : Option Str)
    (attempt_offset deadline budget : ℕ)
    → is_success (target_status (attempt_loop cfg w checkpoint attempt_offset deadline budget))
      ≡ any
          (λ o. is_success o.status)
          (attempt_loop cfg w checkpoint attempt_offset deadline budget)
target_status-attempt_loop cfg w checkpoint attempt_offset deadline budget = sym (
    any_success (attempt_loop cfg w checkpoint attempt_offset deadline budget)
      (attempt_loop-IsBounded cfg w checkpoint attempt_offset deadline budget).2)
