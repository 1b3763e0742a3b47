-- ===== src/Scoring/Profile.antt =====
-- The candidate profile as the scorer reads it (candidate_profile.py). A compiled pattern is the
-- function that says whether it is found in a text.
use jobhunt.Prelude.{ℤ, Bool, Str, List}

pub record Pattern : Type 0 where
  pub pattern_text : Str
  pub search : Str → Bool

pub record LocationProfile : Type 0 where
  pub non_us_patterns : List Pattern
  pub bay_area_cities : List Pattern

-- The loader refuses an empty table of weights, so its first entry stands apart.
pub record FamiliesProfile : Type 0 where
  pub keywords : List (Str × List Str)
  pub in_scope : List Str
  pub first_weight : Str × ℤ
  pub other_weights : List (Str × ℤ)

pub record DomainProfile : Type 0 where
  pub tier2_patterns : List Pattern
  pub tier1_patterns : List Pattern

pub record SkillsProfile : Type 0 where
  pub his_skills : List Pattern
  pub exact_stack_patterns : List Pattern

pub record EmployersProfile : Type 0 where
  pub staffing_agencies : List Str
  pub c2c_keywords : List Str

-- Of the pattern of IC managers the scorer only uses its substitution by a space.
pub record ExclusionsProfile : Type 0 where
  pub disqualifying_skills : List Str
  pub title_exclude : List Pattern
  pub clearance_required_pattern : Pattern
  pub clearance_condition_pattern : Pattern
  pub clearance_exception_pattern : Pattern
  pub people_management_pattern : Pattern
  pub ic_manager_sub : Str → Str
  pub degree_required_pattern : Pattern
  pub degree_equivalent_exception : Str

pub record LevelProfile : Type 0 where
  pub hireability_staff_principal_pattern : Pattern
  pub hireability_senior_pattern : Pattern
  pub hireability_junior_pattern : Pattern
  pub score_senior_pattern : Pattern
  pub staff_cap_pattern : Pattern
  pub tpm_ii_pattern : Pattern
  pub validation_design_keywords : List Str
  pub support_bigtech_companies : List Str

pub record CompProfile : Type 0 where
  pub hireability_high_bar : ℤ
  pub hireability_near_level : ℤ
  pub band_low : ℤ
  pub band_high : ℤ
  pub low_comp_threshold : ℤ

pub record ExperienceProfile : Type 0 where
  pub hireability_bonus_years_max : ℤ
  pub hireability_penalty_years_min : ℤ
  pub blocker_years_min : ℤ
  pub score_penalty_years_low : ℤ
  pub score_penalty_years_high : ℤ
  pub score_bonus_years_max : ℤ
  pub score_pref_penalty_years_min : ℤ

pub record TierRulesProfile : Type 0 where
  pub staff_cap_tier : ℤ
  pub func_cap_min_func : ℤ
  pub func_cap_tier : ℤ
  pub no_desc_cap_tier : ℤ
  pub stale_penalty_days : ℤ
  pub stale_cap_days : ℤ
  pub stale_cap_tier : ℤ
  pub undated_aggregator_cap_tier : ℤ

-- The weights are tables by name; the loader demands every name that the scorer reads.
pub record Profile : Type 0 where
  pub location : LocationProfile
  pub families : FamiliesProfile
  pub domain : DomainProfile
  pub skills : SkillsProfile
  pub employer_patterns : List Pattern
  pub high_competition_patterns : List Pattern
  pub employers : EmployersProfile
  pub exclusions : ExclusionsProfile
  pub level : LevelProfile
  pub comp : CompProfile
  pub experience : ExperienceProfile
  pub tier_rules : TierRulesProfile
  pub hireability_weight : Str → ℤ
  pub score_row_weight : Str → ℤ
