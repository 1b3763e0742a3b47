-- ===== src/Scoring/Tests.antt =====
-- Runs of the scorer on one posting (rubric.py, webapp/backend/sources/scoring.py).
use Prim.Native.String.{String}
use jobhunt.Prelude.{
  ◌+ℤ◌, ◌-ℤ◌, ℤ, pos, negsuc, ◌≡◌, refl, true, false, none, some, Str, codes, List, [], ◌∷◌, ◌++◌,
  mem, eq_str, if◌then◌else◌,
}
use jobhunt.Runs.Profile.{find}
use jobhunt.Contract.Text.{Platform, starts_with}
use jobhunt.Scoring.Vector.{
  contributions, total_of, raw_score, required_hireability, required_score_row,
  required_present_score_row,
}
use jobhunt.Scoring.Profile.{Pattern, Profile}
use jobhunt.Scoring.Texts.{
  Readers, contains, join, larger, posting_age_days, salary_from_desc, split_at, years_required,
}
use jobhunt.Scoring.Reading.{
  function_weight, pay_band, top_weight, Row, Reading, written, reading_of,
}
use jobhunt.Queue.Freshness.{strip}
use jobhunt.Queue.Job.{is_space}
use jobhunt.Scoring.Rules.{
  score_degree, flag, note_description, score_employment, score_pay, say, note_recovered, score_age,
  cap_staff, score_place, score_target, score_domain, score_preferred, score_years, begin, by_level,
  credit, level_rule, score_level, weighted,
}
use jobhunt.Scoring.Rubric.{scored, score_row_core, clamp, tally, number_in, reconstruct_tier}
use jobhunt.Scoring.Validate.{validate_features, stored, score_one}
use jobhunt.Scoring.Persist.{WorkRow, Batch}
use jobhunt.Scoring.Replay.{reconstruct_tier-score_row_core}
use jobhunt.Scoring.Limits.{lowest, limits, scored-lowest, scored-audited}
use jobhunt.Scoring.Accepted.{score_one-stored}
use jobhunt.Scoring.Written.{Written}

abbrev pub word : String → Pattern
word s = record { pattern_text = codes s; search = contains (codes s) }

abbrev pub weight : Str → ℤ
weight k = if mem k (codes "stretch_level" ∷ codes "stale_30d" ∷ []) then negsuc 0 else pos 1

abbrev pub profile : Profile
profile = record {
  location = record { non_us_patterns = word "london" ∷ []; bay_area_cities = word "fremont" ∷ [] };
  families = record {
    keywords = (codes "support", codes "support" ∷ []) ∷ (codes "tpm", codes "program" ∷ []) ∷ [];
    in_scope = codes "support" ∷ [];
    first_weight = (codes "support", pos 3);
    other_weights = (codes "tpm", pos 2) ∷ [];
  };
  domain = record { tier2_patterns = word "network" ∷ []; tier1_patterns = word "cloud" ∷ [] };
  skills = record { his_skills = word "linux" ∷ []; exact_stack_patterns = word "okta" ∷ [] };
  employer_patterns = word "acme" ∷ [];
  high_competition_patterns = word "meta" ∷ [];
  employers = record { staffing_agencies = codes "agency" ∷ []; c2c_keywords = codes "c2c" ∷ [] };
  exclusions = record {
    disqualifying_skills = codes "fpga" ∷ [];
    title_exclude = word "intern" ∷ [];
    clearance_required_pattern = word "clearance";
    clearance_condition_pattern = word "active";
    clearance_exception_pattern = word "obtain";
    people_management_pattern = word "manager";
    ic_manager_sub = λ t. t;
    degree_required_pattern = word "degree";
    degree_equivalent_exception = codes "or equivalent";
  };
  level = record {
    hireability_staff_principal_pattern = word "staff";
    hireability_senior_pattern = word "senior";
    hireability_junior_pattern = word "junior";
    score_senior_pattern = word "senior";
    staff_cap_pattern = word "staff";
    tpm_ii_pattern = word " ii";
    validation_design_keywords = codes "design" ∷ [];
    support_bigtech_companies = codes "meta" ∷ [];
  };
  comp = record {
    hireability_high_bar = pos 200;
    hireability_near_level = pos 90;
    band_low = pos 100;
    band_high = pos 150;
    low_comp_threshold = pos 80;
  };
  experience = record {
    hireability_bonus_years_max = pos 3;
    hireability_penalty_years_min = pos 7;
    blocker_years_min = pos 10;
    score_penalty_years_low = pos 6;
    score_penalty_years_high = pos 9;
    score_bonus_years_max = pos 3;
    score_pref_penalty_years_min = pos 8;
  };
  tier_rules = record {
    staff_cap_tier = pos 2;
    func_cap_min_func = pos 3;
    func_cap_tier = pos 4;
    no_desc_cap_tier = pos 3;
    stale_penalty_days = pos 30;
    stale_cap_days = pos 90;
    stale_cap_tier = pos 3;
    undated_aggregator_cap_tier = pos 3;
  };
  hireability_weight = weight;
  score_row_weight = weight;
}

abbrev pub readers : Readers
readers = record {
  lower = λ s. s;
  str_of_nat = λ n. n ∷ [];
  ca_marker = contains (codes ", ca");
  remote_words = contains (codes "remote");
  without_boilerplate = λ s. s;
  is_on_company = λ s. false;
  is_on_experience = λ s. true;
  is_on_preference = contains (codes "prefer");
  year_numbers = λ s. [];
  days_ago = λ s. none;
  iso_date = λ s. some s;
  ordinal = λ s. some 100;
  today = 140;
  money_windows = λ s. [];
  parse_salary = λ s. none;
  float_of = λ s. some 120;
  int_of = λ s. some 120;
  grouped = λ n. n ∷ [];
}

abbrev posting : Row
posting = record {
  title = codes "network support engineer";
  company = codes "acme";
  location = codes "fremont, ca";
  salary = [];
  salary_min = written (codes "120");
  salary_max = written (codes "120");
  posted = codes "2026-07-01";
  remote = codes "false";
  source = codes "greenhouse:acme";
  flags = [];
}

abbrev text : Str
text = codes "linux support; degree"

abbrev seen : Reading
seen = reading_of readers profile posting text none

-- Function 3, domain 1, target 1, age -1, pay 1 and degree 1 make 6, which the scale cuts to 5.
raw_total : (tally profile readers seen).score ≡ pos 6
unfolding tally reading_of contains eq_str score_degree flag ◌+ℤ◌ ◌-ℤ◌ note_description
    score_employment score_pay say note_recovered score_age strip is_space cap_staff score_place
    score_target score_domain score_preferred score_years starts_with find function_weight pay_band
    top_weight begin by_level credit level_rule score_level weighted join larger posting_age_days
    salary_from_desc split_at years_required
raw_total = refl

reconstruct_tier-score_row_core_example :
    reconstruct_tier (score_row_core profile readers posting text none).0.features
    ≡ some (score_row_core profile readers posting text none).0.tier
reconstruct_tier-score_row_core_example =
    reconstruct_tier-score_row_core profile readers posting text none

scored-lowest_example :
    (scored profile readers seen).tier
    ≡ lowest (clamp (tally profile readers seen).score) (limits profile seen)
scored-lowest_example = scored-lowest profile readers seen

scored-audited_example :
    number_in (find raw_score (scored profile readers seen).features)
    ≡ some (total_of contributions (scored profile readers seen).features)
scored-audited_example = scored-audited profile readers seen

score_one-stored_example :
    (validate_features
        (score_one profile readers posting text false).0.features
        required_score_row
        required_present_score_row
      ≡ stored (score_one profile readers posting text false).0.features)
    × (validate_features
          (score_one profile readers posting text false).1.features
          required_hireability
          []
        ≡ stored (score_one profile readers posting text false).1.features)
score_one-stored_example = score_one-stored profile readers posting text false

abbrev item : WorkRow
item = record {
  posting_id = codes "p1";
  posting_version_id = codes "v1";
  version_hash = codes "h1";
  namespace = codes "greenhouse:acme";
  is_aggregator = false;
  row = posting;
  description = some text;
  description_identity = codes "d1";
}

abbrev nightly : Batch
nightly = record {
  parents = record {
    posting_ids = item.posting_id ∷ [];
    posting_version_ids = item.posting_version_id ∷ [];
    profile_version_ids = codes "profile" ∷ [];
    source_run_ids = [];
  };
  profile_version_id = codes "profile";
  scorer = record {
    rubric_version = codes "v3";
    source_digest = codes "s";
    composition_digest = codes "c";
    scorer_hash = codes "scorer";
  };
  source_run_id = none;
  at = codes "2026-08-01";
}

pair_text : List (Str × Str) → Str
pair_text [] = []
pair_text ((k, v) ∷ m) = k ++ (v ++ pair_text m)

join_parts : List Str → Str
join_parts [] = []
join_parts (s ∷ ss) = s ++ join_parts ss

abbrev platform : Platform
platform = record {
  nfkc = λ s. s;
  lower = λ s. s;
  digit_of = λ n. none;
  urlsplit = λ s. record { scheme = []; hostname = none; port = none; path = s; query = [] };
  parse_qsl = λ s. [];
  urlencode = pair_text;
  urlunsplit = λ scheme host path query. path;
  str_of_nat = λ n. n ∷ [];
  sha256 = λ s. s;
  sha256_json = pair_text;
  uuid5 = λ ns parts. join_parts parts;
  new_uid = λ n. n ∷ [];
}
