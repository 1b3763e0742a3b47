-- ===== src/Store/Reconcile.antt =====
-- What the recovery of orphans leaves behind (webapp/backend/sources/runstore.py,
-- `recover_orphans`).
use mathlib.Core.Option
use jobhunt.Prelude.{
  ℕ, ◌≡◌, refl, ap, Bool, false, Str, List, [], ◌∷◌, keep, Bool-cases, inl, inr, if◌then◌else◌,
  get_elem?, zero, suc, some,
}
use jobhunt.Store.Rows.{SourceRun, PipelineRun, update}
use jobhunt.Store.Recovery.{
  Note, recover_orphans, is_orphan, is_orphan_run, interrupt, interrupt_run,
}

module _ {ℓ} {A : Type ℓ} (p : A → Bool) (f : A → A) where
  get_elem?-update :
      (xs : List A) (i : ℕ) (x : A)
      → get_elem? xs i ≡ some x
      → get_elem? (update p f xs) i ≡ some (if p x then f x else x)
  get_elem?-update [] i x at = cc
  get_elem?-update (y ∷ ys) zero x at = ap (λ o. Option.map (λ a. if p a then f a else a) o) at
  get_elem?-update (y ∷ ys) (suc i) x at = get_elem?-update ys i x at

-- An update whose rows no longer meet its test finds nothing the second time.
module _ {ℓ} {A : Type ℓ} (p : A → Bool) (f : A → A) (cured : (a : A) → p (f a) ≡ false) where
  update_clears : (xs : List A) → keep p (update p f xs) ≡ []
  update_clears [] = refl
  update_clears (x ∷ xs) = elim (Bool-cases (p x)) [
    | inl e ↦ rw (e, cured x) (update_clears xs)
    | inr e ↦ rw (e, e) (update_clears xs)
  ]

  update_idem : (xs : List A) → update p f (update p f xs) ≡ update p f xs
  update_idem [] = refl
  update_idem (x ∷ xs) = elim (Bool-cases (p x)) [
    | inl e ↦ rw (e, cured x) (ap (◌∷◌ (f x)) (update_idem xs))
    | inr e ↦ rw (e, e) (ap (◌∷◌ x) (update_idem xs))
  ]

module _ (note : Note) (excluded : List Str) (rows : List SourceRun) (runs : List PipelineRun) where
  interrupt_cured : (r : SourceRun) → is_orphan excluded (interrupt note r) ≡ false
  unfolding is_orphan interrupt
  interrupt_cured r = refl

  interrupt_run_cured : (r : PipelineRun) → is_orphan_run excluded (interrupt_run note r) ≡ false
  unfolding is_orphan_run interrupt_run
  interrupt_run_cured r = refl

  -- After a recovery no attempt and no run outside the excluded ones is running, and a second
  -- recovery changes nothing and reports nothing.
  pub recovery_settles :
      let (rows', runs', report) = recover_orphans note excluded rows runs in
      (keep (is_orphan excluded) rows' ≡ [])
      × (keep (is_orphan_run excluded) runs' ≡ [])
      × (recover_orphans note excluded rows' runs'
          ≡ (rows', runs', record { run_uids = []; source_run_ids = [] }))
  unfolding recover_orphans
  recovery_settles = (
    attempts,
    attempts_runs,
    rw (attempts, attempts_runs)
        (λ i. (
          update_idem (is_orphan excluded) (interrupt note) interrupt_cured rows i,
          update_idem (is_orphan_run excluded) (interrupt_run note) interrupt_run_cured runs i,
          record { run_uids = []; source_run_ids = [] },
        )),
  )
    where
      attempts : keep (is_orphan excluded) (update (is_orphan excluded) (interrupt note) rows) ≡ []
      attempts = update_clears (is_orphan excluded) (interrupt note) interrupt_cured rows

      attempts_runs :
          keep (is_orphan_run excluded) (update (is_orphan_run excluded) (interrupt_run note) runs)
          ≡ []
      attempts_runs =
          update_clears (is_orphan_run excluded) (interrupt_run note) interrupt_run_cured runs

  -- A recovery leaves every attempt that is not running, or whose run is excluded, as it was, and
  -- of an orphan it changes the status and the metadata alone: no finish time is made up.
  pub recovery_keeps :
      (i : ℕ) (r : SourceRun)
      → get_elem? rows i ≡ some r
      → get_elem? (recover_orphans note excluded rows runs).0 i
        ≡ some (if is_orphan excluded r then interrupt note r else r)
  unfolding recover_orphans
  recovery_keeps i r at = get_elem?-update (is_orphan excluded) (interrupt note) rows i r at
