-- ===== src/Runs/Profile.antt =====
-- The profile of a run kind, and the split of a plan into due and fresh targets
-- (webapp/backend/sources/run_profiles.py).
use jobhunt.Prelude.{
  ℕ, ◌-◌, Bool, true, false, Option, none, some, Str, List, [], ◌∷◌, is_empty, if◌then◌else◌, leb,
  eq_str,
}
use jobhunt.Runs.Target.{Planned}

pub data RunKind : Type 0 where
  daily full_direct aggregators llm_review manual_import : RunKind

pub data Priority : Type 0 where
  normal low : Priority

pub record RunProfile : Type 0 where
  pub kind : RunKind
  pub dueness_filtered : Bool
  pub target_budget_seconds : Option ℕ
  pub priority : Priority

-- RUN_PROFILES, as a function of the kind.
unfoldable pub profile_for : RunKind → RunProfile
profile_for daily = record {
  kind = daily;
  dueness_filtered = true;
  target_budget_seconds = some 60;
  priority = normal;
}
profile_for full_direct = record {
  kind = full_direct;
  dueness_filtered = false;
  target_budget_seconds = some 300;
  priority = normal;
}
profile_for aggregators = record {
  kind = aggregators;
  dueness_filtered = false;
  target_budget_seconds = none;
  priority = normal;
}
profile_for llm_review = record {
  kind = llm_review;
  dueness_filtered = false;
  target_budget_seconds = none;
  priority = low;
}
profile_for manual_import = record {
  kind = manual_import;
  dueness_filtered = false;
  target_budget_seconds = none;
  priority = normal;
}

pub record SkippedTarget : Type 0 where
  pub source_run_key : Str
  pub source_key : Str
  pub instance_key : Str
  pub label : Str
  pub last_success_at : Option Str
  pub age_seconds : ℕ
  pub refresh_interval_seconds : ℕ

-- `dict.get`.
unfoldable pub find {ℓ} : {V : Type ℓ} → Str → List (Str × V) → Option V
find k [] = none
find k ((j, v) ∷ m) = if eq_str k j then some v else find k m

-- `last_success_at.get(key)`, where the stored value may itself be None.
flatten : Option (Option Str) → Option Str
flatten none = none
flatten (some s) = s

unfoldable pub last_success : Str → List (Str × Option Str) → Option Str
unfolding flatten find
last_success key m = flatten (find key m)

-- `age is None or age >= interval`, as the age of a target that is fresh.
unfoldable pub fresh_within : ℕ → Option ℕ → Option ℕ
fresh_within interval none = none
fresh_within interval (some age) = if leb interval age then none else some age

-- `instant_of` is `datetime.fromisoformat`, with a missing time zone read as that of `now`, in
-- seconds of the clock: `none` where it raises.
module _ (instant_of : Str → Option ℕ) (now : ℕ) where
  since : Option ℕ → Option ℕ
  since none = none
  since (some t) = some (now - t)

  unfoldable pub age_seconds : Option Str → Option ℕ
  unfolding since
  age_seconds none = none
  age_seconds (some stamp) = if is_empty stamp then none else since (instant_of stamp)

  unfoldable pub fresh_age : List (Str × Option Str) → Planned → Option ℕ
  unfolding age_seconds last_success fresh_within
  fresh_age m p =
      fresh_within p.0.refresh_interval_seconds (age_seconds (last_success p.1.source_run_key m))

  unfoldable pub skipped_of : List (Str × Option Str) → Planned → ℕ → SkippedTarget
  unfolding last_success
  skipped_of m p age = record {
    source_run_key = p.1.source_run_key;
    source_key = p.1.source_key;
    instance_key = p.1.instance_key;
    label = p.1.label;
    last_success_at = last_success p.1.source_run_key m;
    age_seconds = age;
    refresh_interval_seconds = p.0.refresh_interval_seconds;
  }

  unfoldable pub sort_out :
      List (Str × Option Str)
      → Planned
      → Option ℕ
      → List Planned × List SkippedTarget
      → List Planned × List SkippedTarget
  unfolding skipped_of
  sort_out m p none rest = (p ∷ rest.0, rest.1)
  sort_out m p (some age) rest = (rest.0, skipped_of m p age ∷ rest.1)

  unfoldable pub filter_due :
      List Planned → List (Str × Option Str) → List Planned × List SkippedTarget
  unfolding sort_out fresh_age
  filter_due [] m = ([], [])
  filter_due (p ∷ plan) m = sort_out m p (fresh_age m p) (filter_due plan m)
