-- ===== src/Scoring/Rules.antt =====
-- The named rules of the scorer: each adds its weight to the total and records it under its name
-- (rubric.py).
use jobhunt.Prelude.{
  ℕ, ℤ, pos, leb_ℤ, ltb_ℤ, min_ℤ, ◌+ℤ◌, ◌-ℤ◌, Bool, true, false, not, ◌&&◌, ◌||◌, Option, none,
  some, Str, codes, List, [], ◌∷◌, ◌++◌, map, take, keep, ◌==◌, if◌then◌else◌, is_some,
}
use jobhunt.Scoring.Vector.{num, Vector}
use jobhunt.Scoring.Profile.{Profile, Pattern}
use jobhunt.Scoring.Texts.{Readers, contains, found, named_in, join}
use jobhunt.Scoring.Reading.{Reading, is_family, Band, function_weight, top_weight}

-- The running values of the scorer.
pub record Tally : Type 0 where
  pub score : ℤ
  pub why : List Str
  pub flags : List Str
  pub features : Vector

unfoldable pub credit : Str → ℤ → Tally → Tally
credit key w a = record a { score = a.score +ℤ w; features = a.features ++ (key, num w) ∷ [] }

unfoldable pub flag : Str → Tally → Tally
flag f a = record a { flags = a.flags ++ f ∷ [] }

unfoldable pub say : Str → Tally → Tally
say y a = record a { why = a.why ++ y ∷ [] }

pub data LevelRule : Type 0 where
  too_senior ii_stretch design_lead stretch no_level : LevelRule

unfoldable pub level_rule : Profile → Reading → LevelRule
unfolding contains
level_rule pf x =
    let senior = pf.level.score_senior_pattern.search x.title in
    if is_family (codes "tpm") x.family && senior
    then too_senior
    else if is_family (codes "tpm") x.family && pf.level.tpm_ii_pattern.search x.title
    then ii_stretch
    else if is_family (codes "validation") x.family
        && (senior && named_in x.title pf.level.validation_design_keywords)
    then design_lead
    else if senior
        && (is_family (codes "validation") x.family || is_family (codes "techops") x.family)
    then stretch
    else if senior
        && (is_family (codes "support") x.family
            && named_in x.company pf.level.support_bigtech_companies)
    then stretch
    else no_level

abbrev pub at_least : ℤ → Option ℕ → Bool
at_least b none = false
at_least b (some y) = leb_ℤ b (pos y)

abbrev pub at_most : ℤ → Option ℕ → Bool
at_most b none = false
at_most b (some y) = leb_ℤ (pos y) b

-- `age is not None and age > days`.
abbrev pub older_than : ℤ → Option ℤ → Bool
older_than days none = false
older_than days (some a) = ltb_ℤ days a

without_boundary : Str → Str
without_boundary [] = []
without_boundary (c ∷ []) = c ∷ []
without_boundary (c ∷ d ∷ s) =
    let dropped = without_boundary s in
    let kept = c ∷ without_boundary (d ∷ s) in if c == 92 && d == 98 then dropped else kept

-- The text of a pattern less its word boundaries and backslashes.
plain : Pattern → Str
unfolding without_boundary
plain p = keep (λ c. not (c == 92)) (without_boundary p.pattern_text)

domain_text : ℕ → List Pattern → Str
unfolding plain join
domain_text n hits = codes "domain: " ++ join (codes ",") (map plain (take n hits))

module _ (pf : Profile) (re : Readers) where
  unfoldable pub weighted : Str → Tally → Tally
  unfolding credit
  weighted key a = credit key (pf.score_row_weight key) a

  years_text : Str → Option ℕ → Str → Str
  years_text before none after = before ++ after
  years_text before (some y) after = before ++ (re.str_of_nat y ++ after)

  unfoldable pub begin : Reading → Tally
  unfolding credit function_weight top_weight
  begin x =
      let func = function_weight pf.families x.family in
      let a =
        credit (codes "function_match") func
          (record { score = pos 0; why = []; flags = []; features = [] }) in
      if leb_ℤ func (top_weight pf.families) && leb_ℤ (top_weight pf.families) func
      then say (codes "core function match") a
      else a

  unfoldable pub by_level : LevelRule → Tally → Tally
  unfolding weighted
  by_level too_senior a = flag (codes "too-senior") (weighted (codes "tpm_senior") a)
  by_level ii_stretch a = flag (codes "tpm-ii-stretch") (weighted (codes "tpm_ii_stretch") a)
  by_level design_lead a = a
  by_level stretch a = flag (codes "stretch-level") (weighted (codes "stretch_level") a)
  by_level no_level a = a

  unfoldable pub score_level : Reading → Tally → Tally
  unfolding by_level level_rule
  score_level x a = by_level (level_rule pf x) a

  unfoldable pub score_years : Reading → Tally → Tally
  unfolding weighted years_text
  score_years x a =
      let e = pf.experience in
      if at_least e.score_penalty_years_low x.required_years
        && at_most e.score_penalty_years_high x.required_years
      then flag (years_text [] x.required_years (codes "yrs-required"))
          (weighted (codes "years_penalty") a)
      else if at_most e.score_bonus_years_max x.required_years
      then say (years_text (codes "asks ") x.required_years (codes "yrs"))
          (weighted (codes "years_bonus") a)
      else a

  unfoldable pub score_preferred : Reading → Tally → Tally
  unfolding weighted years_text
  score_preferred x a =
      if at_least pf.experience.score_pref_penalty_years_min x.preferred_years
      then flag (years_text [] x.preferred_years (codes "yrs-preferred"))
          (weighted (codes "years_pref_penalty") a)
      else a

  -- The patterns that are found in the description, or in the title.
  hits : List Pattern → Reading → List Pattern
  hits ps x =
      keep (λ (p : Pattern). p.search (re.without_boilerplate x.description) || p.search x.title) ps

  abbrev pub is_nil : List Pattern → Bool
  is_nil [] = true
  is_nil (p ∷ ps) = false

  unfoldable pub score_domain : Reading → Tally → Tally
  unfolding weighted hits domain_text
  score_domain x a =
      let hits2 = hits pf.domain.tier2_patterns x in
      let hits1 = hits pf.domain.tier1_patterns x in
      if not (is_nil hits2)
      then weighted (codes "domain_tier2") (say (domain_text 3 hits2) a)
      else if not (is_nil hits1)
      then weighted (codes "domain_tier1") (say (domain_text 2 hits1) a)
      else a

  unfoldable pub score_target : Reading → Tally → Tally
  unfolding weighted
  score_target x a =
      if found pf.employer_patterns x.company && is_some x.family
      then say (codes "named-target employer")
          (flag (codes "target-co") (weighted (codes "target_co") a))
      else a

  unfoldable pub score_place : Reading → Tally → Tally
  score_place x a = say (if x.bay_area then codes "Bay Area" else codes "US-remote") a

  -- The cap on staff titles is recorded as the change that it made to the total.
  unfoldable pub cap_staff : Reading → Tally → Tally
  unfolding credit
  cap_staff x a =
      let capped = min_ℤ a.score pf.tier_rules.staff_cap_tier in
      if pf.level.staff_cap_pattern.search x.title
      then flag (codes "level-out") (record a {
        score = capped;
        features = a.features ++ (codes "staff_cap_delta", num (capped -ℤ a.score)) ∷ [];
      })
      else a

  unfoldable pub score_age : Reading → Tally → Tally
  unfolding weighted
  score_age x a =
      if older_than pf.tier_rules.stale_penalty_days x.age
      then flag (codes "30d+") (weighted (codes "stale_30d") a)
      else a

  unfoldable pub note_recovered : Reading → Tally → Tally
  note_recovered x a = if x.from_desc then flag (codes "salary-from-desc") a else a

  abbrev pub in_band : Band → Bool
  in_band (none, hi) = false
  in_band (some lo, none) = false
  in_band (some lo, some hi) = leb_ℤ (pos lo) pf.comp.band_high && leb_ℤ pf.comp.band_low (pos hi)

  abbrev pub is_low : Option ℕ → Bool
  is_low none = false
  is_low (some hi) = ltb_ℤ (pos hi) pf.comp.low_comp_threshold

  unfoldable pub score_pay : Reading → Tally → Tally
  unfolding weighted
  score_pay x a =
      if in_band x.pay
      then weighted (codes "comp_in_band") (say (codes "comp in band") a)
      else if is_low x.pay.1
      then flag (codes "low-comp") (weighted (codes "low_comp") a)
      else a

  unfoldable pub score_employment : Reading → Tally → Tally
  unfolding weighted contains
  score_employment x a =
      if named_in x.description pf.employers.c2c_keywords
      then flag (codes "C2C") (weighted (codes "c2c") a)
      else if named_in x.company pf.employers.staffing_agencies
      then flag (codes "Staffing/W2") (weighted (codes "staffing_w2") a)
      else a

  unfoldable pub note_description : Reading → Tally → Tally
  note_description x a = if x.has_desc then a else flag (codes "desc-unavailable") a

  unfoldable pub score_degree : Reading → Tally → Tally
  unfolding weighted contains
  score_degree x a =
      if pf.exclusions.degree_required_pattern.search x.description
        && not (contains pf.exclusions.degree_equivalent_exception x.description)
      then flag (codes "degree-gated") (weighted (codes "degree_gated") a)
      else a
