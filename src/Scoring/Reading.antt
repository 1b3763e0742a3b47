-- ===== src/Scoring/Reading.antt =====
-- What the scorer reads of one posting before it decides anything, and the early refusals
-- (rubric.py).
use jobhunt.Prelude.{
  ℕ, ℤ, pos, max_ℤ, Bool, false, not, ◌&&◌, ◌||◌, Option, none, some, Str, codes, List, [], ◌∷◌,
  ◌++◌, any, keep, take, ◌==◌, eq_str, if◌then◌else◌, is_empty, or_else, is_some,
}
use jobhunt.Queue.Freshness.{strip}
use jobhunt.Contract.Text.{starts_with}
use jobhunt.Runs.Profile.{find}
use jobhunt.Scoring.Profile.{Profile, FamiliesProfile}
use jobhunt.Scoring.Texts.{
  Readers, contains, found, named_in, years_required, posting_age_days, salary_from_desc,
}

-- A salary field holds the source's text, or the number that the scorer wrote back.
pub data Amount : Type 0 where
  written : Str → Amount
  exact : ℕ → Amount

pub record Row : Type 0 where
  pub title : Str
  pub company : Str
  pub location : Str
  pub salary : Str
  pub salary_min : Amount
  pub salary_max : Amount
  pub posted : Str
  pub remote : Str
  pub source : Str
  pub flags : Str

abbrev pub Band : Type 0
Band = Option ℕ × Option ℕ

-- The local values of the scorer.
pub record Reading : Type 0 where
  pub title : Str
  pub company : Str
  pub location : Str
  pub has_desc : Bool
  pub description : Str
  pub family : Option Str
  pub bay_area : Bool
  pub is_remote : Bool
  pub required_years : Option ℕ
  pub preferred_years : Option ℕ
  pub age : Option ℤ
  pub pay : Band
  pub from_desc : Bool
  pub is_aggregator : Bool

-- A number is false when it is 0.
abbrev pub nonzero : ℕ → Option ℕ
nonzero n = if n == 0 then none else some n

abbrev pub truthy : Option ℕ → Option ℕ
truthy none = none
truthy (some n) = nonzero n

abbrev pub is_family : Str → Option Str → Bool
is_family f none = false
is_family f (some g) = eq_str f g

family_in : List (Str × List Str) → Str → Option Str
family_in [] t = none
family_in ((f, ks) ∷ m) t = let rest = family_in m t in if named_in t ks then some f else rest

abbrev pub or_other : Option Str → Option Str → Option Str
or_other none b = b
or_other (some a) b = some a

unfoldable pub function_weight : FamiliesProfile → Option Str → ℤ
unfolding find
function_weight f none = pos 1
function_weight f (some fam) = or_else (find fam (f.first_weight ∷ f.other_weights)) (pos 1)

top_from : ℤ → List (Str × ℤ) → ℤ
top_from top [] = top
top_from top ((f, w) ∷ ws) = top_from (max_ℤ top w) ws

unfoldable pub top_weight : FamiliesProfile → ℤ
unfolding top_from
top_weight f = top_from f.first_weight.1 f.other_weights

-- AGG_SOURCES, for the rows that do not say whether their source is an aggregator.
abbrev pub aggregator_sources : List Str
aggregator_sources = codes "jobspy-" ∷ codes "mcp-" ∷ codes "builtin" ∷ codes "yc-jobs" ∷ []

module _ (re : Readers) where
  -- `float(x or 0)`.
  amount : Amount → Option ℕ
  amount (exact n) = some n
  amount (written s) = if is_empty s then some 0 else re.float_of s

  fields_band : Option ℕ → Option ℕ → Band
  fields_band (some lo) (some hi) = (nonzero lo, nonzero hi)
  fields_band none hi = (none, none)
  fields_band (some lo) none = (none, none)

  parsed_band : Option (ℕ × ℕ) → Band
  parsed_band none = (none, none)
  parsed_band (some (lo, hi)) = (nonzero lo, nonzero hi)

  -- The band of the posting's own fields.
  posted_band : Row → Band
  unfolding amount fields_band parsed_band
  posted_band r =
      let parsed = parsed_band (re.parse_salary r.salary) in
      if is_some parsed.0 then parsed else fields_band (amount r.salary_min) (amount r.salary_max)

  -- With whether it was recovered from the description.
  unfoldable pub pay_band : Row → Str → Band × Bool
  unfolding posted_band parsed_band salary_from_desc
  pay_band r desc =
      let own = posted_band r in
      let recovered = parsed_band (salary_from_desc re desc) in
      if not (is_some own.0) && not (is_empty desc)
      then (recovered, is_some recovered.0)
      else (own, false)

  recovered_row : Bool → ℕ → ℕ → Row → Row
  recovered_row from_desc lo hi r =
      if from_desc
      then record r {
        salary =
            codes "$"
            ++ (re.grouped lo ++ (codes "-$" ++ (re.grouped hi ++ codes " (from description)")));
      }
      else r

  -- What the scorer writes back to the row. A recovered band has both ends.
  unfoldable pub priced_row : Bool → Band → Row → Row
  unfolding recovered_row
  priced_row from_desc (none, hi) r = r
  priced_row from_desc (some lo, hi) r = record (recovered_row from_desc lo (or_else hi lo) r) {
    salary_min = exact lo;
    salary_max = exact (or_else hi lo);
  }

  abbrev pub clean : Str → Str
  clean desc = keep (λ c. not (c == 92)) (re.lower desc)

  aggregator_of : Option Bool → Str → Bool
  unfolding starts_with
  aggregator_of none source = any (λ (a : Str). starts_with a source) aggregator_sources
  aggregator_of (some b) source = b

  unfoldable pub reading_of : Profile → Row → Str → Option Bool → Reading
  unfolding family_in contains years_required posting_age_days pay_band aggregator_of
  reading_of pf r desc is_aggregator =
      let t = re.lower r.title in
      let d = clean desc in
      let loc = re.lower r.location in
      let (pay, from_desc) = pay_band r desc in
      let (required, preferred) = years_required re d in
      record {
        title = t;
        company = re.lower r.company;
        location = loc;
        has_desc = not (is_empty desc);
        description = d;
        family =
            or_other (family_in pf.families.keywords t)
              (family_in pf.families.keywords (take 1500 d));
        bay_area =
            found pf.location.bay_area_cities loc
            && (re.ca_marker loc || contains (codes "bay area") loc);
        is_remote = eq_str (re.lower (strip r.remote)) (codes "true") || re.remote_words loc;
        required_years = truthy required;
        preferred_years = truthy preferred;
        age = posting_age_days re r.posted;
        pay = pay;
        from_desc = from_desc;
        is_aggregator = aggregator_of is_aggregator r.source;
      }

  abbrev pub holds_clearance : Profile → Str → Bool
  holds_clearance pf sent =
      pf.exclusions.clearance_required_pattern.search sent
      && (pf.exclusions.clearance_condition_pattern.search sent
          && not (pf.exclusions.clearance_exception_pattern.search sent))
