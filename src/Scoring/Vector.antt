-- ===== src/Scoring/Vector.antt =====
-- The stored feature vectors and their contract (candidate_profile.py).
use jobhunt.Prelude.{ℤ, pos, ◌+ℤ◌, Str, codes, List, [], ◌∷◌, ◌++◌, mem, if◌then◌else◌}

-- A stored value is a number, or the code of a blocker.
pub data Value : Type 0 where
  num : ℤ → Value
  text : Str → Value

-- A dict in the order of its assignments; the scorer assigns no key twice.
abbrev pub Vector : Type 0
Vector = List (Str × Value)

abbrev pub score_row_weights : List Str
score_row_weights =
    codes "tpm_senior"
    ∷ codes "tpm_ii_stretch"
    ∷ codes "stretch_level"
    ∷ codes "years_penalty"
    ∷ codes "years_bonus"
    ∷ codes "years_pref_penalty"
    ∷ codes "domain_tier2"
    ∷ codes "domain_tier1"
    ∷ codes "target_co"
    ∷ codes "stale_30d"
    ∷ codes "comp_in_band"
    ∷ codes "low_comp"
    ∷ codes "c2c"
    ∷ codes "staffing_w2"
    ∷ codes "degree_gated"
    ∷ []

abbrev pub contributions : List Str
contributions = codes "function_match" ∷ codes "staff_cap_delta" ∷ score_row_weights

abbrev pub cap_features : List Str
cap_features =
    codes "cap_func" ∷ codes "cap_no_desc" ∷ codes "cap_stale" ∷ codes "cap_undated_aggregator" ∷ []

abbrev pub raw_score : Str
raw_score = codes "raw_score"

abbrev pub blocker : Str
blocker = codes "blocker"

abbrev pub required_score_row : List Str
required_score_row = blocker ∷ raw_score ∷ cap_features ++ contributions

abbrev pub required_present_score_row : List Str
required_present_score_row = codes "function_match" ∷ raw_score ∷ []

abbrev pub blocked_score_row : List Str
blocked_score_row = blocker ∷ []

abbrev pub required_hireability : List Str
required_hireability =
    codes "staff_principal"
    ∷ codes "senior"
    ∷ codes "junior"
    ∷ codes "years_low"
    ∷ codes "years_high"
    ∷ codes "high_competition"
    ∷ codes "staffing_w2"
    ∷ codes "skills_strong"
    ∷ codes "skills_moderate"
    ∷ codes "skills_thin"
    ∷ codes "exact_stack"
    ∷ codes "comp_high_bar"
    ∷ codes "comp_near_level"
    ∷ codes "degree_gated"
    ∷ []

abbrev pub blocker_codes : List Str
blocker_codes =
    codes "non_us_location"
    ∷ codes "off_target_location"
    ∷ codes "active_clearance"
    ∷ codes "specialist_skill_or_title"
    ∷ codes "people_management"
    ∷ codes "years_required_too_high"
    ∷ codes "senior_design_verification"
    ∷ codes "no_role_family_match"
    ∷ codes "off_focus_role"
    ∷ []

-- The sum of the numbers under the given keys.
unfoldable pub total_of : List Str → Vector → ℤ
total_of ks [] = pos 0
total_of ks ((k, num x) ∷ v) = let rest = total_of ks v in if mem k ks then x +ℤ rest else rest
total_of ks ((k, text c) ∷ v) = total_of ks v
