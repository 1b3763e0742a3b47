-- ===== src/Runs/Dueness.antt =====
-- What the dueness filter skips, and what it never skips (webapp/backend/sources/run_profiles.py).
use jobhunt.Prelude.{
  ℕ, ◌<◌, ◌≡◌, refl, ap, arith, Bool, not, Option, none, some, Str, List, [], ◌∷◌, is_some, keep,
  map, All, Bool-cases, inl, inr, leb,
}
use jobhunt.Runs.Target.{Planned}
use jobhunt.Runs.Profile.{
  SkippedTarget, age_seconds, fresh_age, filter_due, last_success, skipped_of, fresh_within,
  sort_out,
}

module _ (instant_of : Str → Option ℕ) (now : ℕ) (m : List (Str × Option Str)) where
  abbrev pub is_fresh : Planned → Bool
  is_fresh p = is_some (fresh_age instant_of now m p)

  -- A skip rests on a recorded success that is younger than the interval of the source.
  abbrev pub Evident : SkippedTarget → Type 0
  Evident s =
      (last_success s.source_run_key m ≡ s.last_success_at)
      × (age_seconds instant_of now s.last_success_at ≡ some s.age_seconds)
      × (s.age_seconds < s.refresh_interval_seconds)

  -- The split of a plan.
  abbrev pub Split : List Planned → List Planned × List SkippedTarget → Type 0
  Split plan out =
      (out.0 ≡ keep (λ p. not (is_fresh p)) plan)
      × (map (λ s. s.source_run_key) out.1 ≡ map (λ p. p.1.source_run_key) (keep is_fresh plan))
      × All Evident out.1

  fresh_within-some :
      (interval age : ℕ) (r : Option ℕ)
      → fresh_within interval r ≡ some age
      → (r ≡ some age) × (age < interval)
  unfolding fresh_within
  fresh_within-some interval age none h = ground (arith, h)
  fresh_within-some interval age (some n) h = elim (Bool-cases (leb interval n)) [
    | inl old ↦ ground (arith, h)
    | inr young ↦ (ground (arith, h), ground (arith, h))
  ]

  skip-Evident :
      (p : Planned) (age : ℕ)
      → fresh_age instant_of now m p ≡ some age
      → Evident (skipped_of instant_of now m p age)
  unfolding fresh_age skipped_of
  skip-Evident p age h = (
    refl,
    (fresh_within-some p.0.refresh_interval_seconds age
        (age_seconds instant_of now (last_success p.1.source_run_key m)) h).0,
    (fresh_within-some p.0.refresh_interval_seconds age
        (age_seconds instant_of now (last_success p.1.source_run_key m)) h).1,
  )

  Split-one :
      (p : Planned) (plan : List Planned) (r : Option ℕ)
      → fresh_age instant_of now m p ≡ r
      → Split plan (filter_due instant_of now plan m)
      → Split (p ∷ plan) (sort_out instant_of now m p r (filter_due instant_of now plan m))
  unfolding sort_out skipped_of
  Split-one p plan none e h = (rw e (ap (◌∷◌ p) h.0), rw e h.1, h.2)
  Split-one p plan (some age) e h =
      (rw e h.0, rw e (ap (◌∷◌ p.1.source_run_key) h.1), (skip-Evident p age e, h.2))

  -- The due part is the targets of the plan that are not fresh and the skipped keys are those of
  -- the fresh ones, each in the plan's order; and every skip shows the stamp recorded for its key,
  -- the age of that stamp, and an age below the interval of the source.
  pub filter_due-Split : (plan : List Planned) → Split plan (filter_due instant_of now plan m)
  unfolding filter_due
  filter_due-Split [] = (refl, refl, tt)
  filter_due-Split (p ∷ plan) =
      Split-one p plan (fresh_age instant_of now m p) refl (filter_due-Split plan)
