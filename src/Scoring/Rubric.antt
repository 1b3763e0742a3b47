-- ===== src/Scoring/Rubric.antt =====
-- The scorer and its replay (rubric.py).
use jobhunt.Prelude.{
  ℕ, ℤ, pos, ltb_ℤ, min_ℤ, max_ℤ, Bool, true, false, not, ◌&&◌, ◌||◌, Option, none, some, Str,
  codes, List, [], ◌∷◌, ◌++◌, any, take, mem, if◌then◌else◌, is_some,
}
use Prim.Native.String.{String}
use jobhunt.Runs.Profile.{find}
use jobhunt.Scoring.Vector.{Value, num, text, Vector, blocker, raw_score, cap_features}
use jobhunt.Scoring.Profile.{Profile}
use jobhunt.Scoring.Texts.{Readers, contains, found, named_in, split_at, is_clause_end, join}
use jobhunt.Scoring.Reading.{Row, Reading, reading_of, priced_row, holds_clearance, function_weight}
use jobhunt.Scoring.Rules.{
  Tally, LevelRule, too_senior, ii_stretch, design_lead, stretch, no_level, level_rule, at_least,
  older_than, begin, score_level, score_years, score_preferred, score_domain, score_target,
  score_place, cap_staff, score_age, note_recovered, score_pay, score_employment, note_description,
  score_degree,
}

-- The tier with the row as the scorer leaves it.
pub record ScoreResult : Type 0 where
  pub tier : ℤ
  pub why : Str
  pub flags : List Str
  pub features : Vector

pub record Refusal : Type 0 where
  pub reason : Str
  pub mark : Str
  pub code : Str

abbrev refuse : String → String → String → Refusal
refuse reason mark code = record { reason = codes reason; mark = codes mark; code = codes code }

unfoldable pub blocked : Refusal → ScoreResult
blocked b = record {
  tier = pos 0;
  why = b.reason;
  flags = b.mark ∷ [];
  features = (blocker, text b.code) ∷ [];
}

-- The tier under the caps, with the caps that were recorded and their flags.
pub record Capped : Type 0 where
  pub tier : ℤ
  pub marks : List Str
  pub caps : Vector

unfoldable pub force : Str → Str → ℤ → Capped → Capped
force key mark limit c = record {
  tier = limit;
  marks = c.marks ++ mark ∷ [];
  caps = c.caps ++ (key, num limit) ∷ [];
}

abbrev pub unless_lower : Bool → Str → Str → ℤ → Capped → Capped
unless_lower test key mark limit c =
    if test && ltb_ℤ limit c.tier then force key mark limit c else c

unfoldable pub clamp : ℤ → ℤ
clamp score = max_ℤ (pos 1) (min_ℤ (pos 5) score)

is_lead : LevelRule → Bool
is_lead too_senior = false
is_lead ii_stretch = false
is_lead design_lead = true
is_lead stretch = false
is_lead no_level = false

abbrev pub is_in_scope : List Str → Option Str → Bool
is_in_scope scope none = false
is_in_scope scope (some f) = mem f scope

module _ (pf : Profile) (re : Readers) where
  years_reason : Option ℕ → Str
  years_reason none = []
  years_reason (some y) = codes "requires " ++ (re.str_of_nat y ++ codes "+ years")

  -- The first refusal in the order of the code. Those on the level and the family stand among the
  -- rules there; what the rules before them added is discarded.
  unfoldable pub refusal : Reading → Option Refusal
  unfolding level_rule contains split_at is_lead years_reason
  refusal x =
      if found pf.location.non_us_patterns x.location
      then some (refuse "non-US location" "blocker" "non_us_location")
      else if not (x.bay_area || x.is_remote)
      then some (refuse "not Bay Area or US-remote" "off-target-loc" "off_target_location")
      else if any (holds_clearance re pf) (split_at is_clause_end x.description)
      then some (refuse "requires active clearance" "blocker" "active_clearance")
      else if named_in x.description pf.exclusions.disqualifying_skills
          || found pf.exclusions.title_exclude x.title
      then some (refuse "specialist/level blocker" "blocker" "specialist_skill_or_title")
      else if pf.exclusions.people_management_pattern.search (pf.exclusions.ic_manager_sub x.title)
      then some (refuse "people-management role" "blocker" "people_management")
      else if at_least pf.experience.blocker_years_min x.required_years
      then some (record {
        reason = years_reason x.required_years;
        mark = codes "blocker";
        code = codes "years_required_too_high";
      })
      else if is_lead (level_rule pf x)
      then some (refuse "senior design/verification role" "blocker" "senior_design_verification")
      else if not (is_some x.family)
      then some (refuse "no role-family match" "skip" "no_role_family_match")
      else if not (is_in_scope pf.families.in_scope x.family)
      then some (refuse "off-focus role (tpm/solutions/account-mgmt)" "skip" "off_focus_role")
      else none

  unfoldable pub tally : Reading → Tally
  tally x =
      let fit =
        score_domain pf re x
          (score_preferred pf re x (score_years pf re x (score_level pf re x (begin pf re x)))) in
      let placed = cap_staff pf re x (score_place pf re x (score_target pf re x fit)) in
      let paid = score_pay pf re x (note_recovered pf re x (score_age pf re x placed)) in
      score_degree pf re x (note_description pf re x (score_employment pf re x paid))

  unfoldable pub cap_stale : Reading → Capped → Capped
  unfolding force
  cap_stale x c =
      let limit = pf.tier_rules.stale_cap_tier in
      if older_than pf.tier_rules.stale_cap_days x.age
      then record (force (codes "cap_stale") (codes "stale-90d+") limit c) {
        tier = min_ℤ c.tier limit;
      }
      else unless_lower (not (is_some x.age) && x.is_aggregator) (codes "cap_undated_aggregator")
          (codes "undated-aggregator") pf.tier_rules.undated_aggregator_cap_tier c

  unfoldable pub cap_func : Reading → Capped → Capped
  unfolding force function_weight
  cap_func x c =
      unless_lower (ltb_ℤ (function_weight pf.families x.family) pf.tier_rules.func_cap_min_func)
        (codes "cap_func") (codes "func-cap") pf.tier_rules.func_cap_tier c

  unfoldable pub cap_no_desc : Reading → Capped → Capped
  unfolding force
  cap_no_desc x c =
      unless_lower (not x.has_desc) (codes "cap_no_desc") (codes "needs-desc")
        pf.tier_rules.no_desc_cap_tier c

  unfoldable pub capped : Reading → ℤ → Capped
  capped x tier =
      cap_stale x (cap_no_desc x (cap_func x (record { tier = tier; marks = []; caps = [] })))

  unfoldable pub scored : Reading → ScoreResult
  unfolding clamp join
  scored x =
      let a = tally x in
      let c = capped x (clamp a.score) in
      record {
        tier = c.tier;
        why = join (codes "; ") (take 6 a.why);
        flags = a.flags ++ c.marks;
        features = a.features ++ (raw_score, num a.score) ∷ c.caps;
      }

  unfoldable pub decided : Reading → Option Refusal → ScoreResult
  unfolding blocked
  decided x none = scored x
  decided x (some b) = blocked b

  unfoldable pub score_reading : Reading → ScoreResult
  unfolding decided
  score_reading x = decided x (refusal x)

  priced : Reading → Option Refusal → Row → Row
  unfolding priced_row
  priced x none r = priced_row re x.from_desc x.pay r
  priced x (some b) r = r

  -- With the row as the scorer leaves it: a refusal comes before any salary is written back.
  unfoldable pub score_row_core : Row → Str → Option Bool → ScoreResult × Row
  unfolding priced
  score_row_core r desc is_aggregator =
      let x = reading_of re pf r desc is_aggregator in (score_reading x, priced x (refusal x) r)

-- `features[key]` of a number; a blocked vector has no other.
abbrev pub number_in : Option Value → Option ℤ
number_in none = none
number_in (some (num x)) = some x
number_in (some (text c)) = none

abbrev pub min_with : ℤ → Option ℤ → ℤ
min_with tier none = tier
min_with tier (some limit) = min_ℤ tier limit

unfoldable pub apply_caps : List Str → Vector → ℤ → ℤ
unfolding find
apply_caps [] v tier = tier
apply_caps (key ∷ ks) v tier = apply_caps ks v (min_with tier (number_in (find key v)))

unfoldable pub replay : Vector → Option ℤ → Option ℤ
replay v none = none
replay v (some raw) = some (apply_caps cap_features v (clamp raw))

-- None stands for the KeyError of a vector without a raw score.
unfoldable pub reconstruct_tier : Vector → Option ℤ
unfolding find
reconstruct_tier v =
    if is_some (find blocker v) then some (pos 0) else replay v (number_in (find raw_score v))
