-- ===== src/Runs/Skips.antt =====
-- What a resume skips (webapp/backend/sources/scheduler.py).
use jobhunt.Prelude.{
  ◌≡◌, refl, sym, ap, ◌∙◌, arith, Bool, true, Option, none, some, Str, List, [], ◌∷◌, keep, mem,
  eq_str, eq_str→≡, Bool-cases, inl, inr, some-injective, sort_by, list_order, nat_order,
}
use jobhunt.Store.Rows.{SourceRun, PipelineRun}
use jobhunt.Store.Recovery.{is_run_interrupted}
use jobhunt.Store.Queries.{
  resume_plan, plan_of, described, sources_of, has_succeeded, is_attempt_of, find_run,
}
use jobhunt.Runs.Preflight.{completed_of, or_fail, completed_if}

-- A kept name passes the test.
mem-keep : (p : Str → Bool) (u : Str) (xs : List Str) → mem u (keep p xs) ≡ true → p u ≡ true
mem-keep p u [] h = ground (arith, h)
mem-keep p u (x ∷ xs) h = elim (Bool-cases (p x)) [
  | inl e ↦ elim (Bool-cases (eq_str u x)) [
    | inl s ↦ ap p (eq_str→≡ u x s) ∙ e
    | inr d ↦ mem-keep p u xs (ground (arith, h))
  ]
  | inr e ↦ mem-keep p u xs (ground (arith, h))
]

described_completed :
    (attempts : List SourceRun) (run : Option PipelineRun) (completed : List Str) (u : Str)
    → or_fail (described attempts run) ≡ some completed
    → mem u completed ≡ true
    → has_succeeded attempts u ≡ true
unfolding or_fail completed_if described
described_completed attempts none completed u h m = ground (arith, h)
described_completed attempts (some run) completed u h m =
    elim (Bool-cases (is_run_interrupted run.status)) [
      | inl e ↦
          mem-keep (has_succeeded attempts) u _
            (ap (mem u) (some-injective _ _ (sym (picked e) ∙ h)) ∙ m)
      | inr e ↦ ground (arith, h, e)
    ]
  where
    picked :
        is_run_interrupted run.status ≡ true
        → or_fail (described attempts (some run))
          ≡ some (
              keep
                (has_succeeded attempts)
                (sort_by (list_order nat_order) (λ s. s) (sources_of attempts)))
    picked e = rw e refl

-- A target that a resume skips as completed has a succeeded fetch attempt in that very run.
pub completed_succeeded :
    (rows : List SourceRun) (runs : List PipelineRun) (run_uid : Str) (completed : List Str)
    (u : Str)
    → completed_of true rows runs run_uid ≡ some completed
    → mem u completed ≡ true
    → has_succeeded (keep (is_attempt_of run_uid) rows) u ≡ true
unfolding completed_of resume_plan plan_of
completed_succeeded rows runs run_uid completed u h m =
    described_completed (keep (is_attempt_of run_uid) rows) (find_run run_uid runs) completed u h m
