-- ===== src/Scoring/Odds.antt =====
-- The odds of a posting, apart from its tier (rubric.py).
use jobhunt.Prelude.{
  ℕ, ℤ, pos, leb_ℤ, ltb_ℤ, ◌+ℤ◌, Bool, ◌&&◌, ◌||◌, Option, none, some, Str, codes, List, [], ◌∷◌,
  ◌++◌, all, count_if, length, take, ltb, leb, if◌then◌else◌, is_some, is_empty, or_else,
}
use jobhunt.Runs.Profile.{find}
use jobhunt.Scoring.Vector.{num, Vector}
use jobhunt.Scoring.Profile.{Profile, Pattern}
use jobhunt.Scoring.Texts.{Readers, contains, found, join, years_required}
use jobhunt.Scoring.Reading.{Row, Amount, written, exact, clean, truthy}
use jobhunt.Scoring.Rules.{at_least, at_most}

pub data MatchLabel : Type 0 where
  level_stretch strong_match weak_match unscored moderate_match : MatchLabel

pub data CompetitionLabel : Type 0 where
  high_competition lower_bar standard : CompetitionLabel

-- The label is the pair of the other two.
pub record OddsResult : Type 0 where
  pub match_label : MatchLabel
  pub competition_label : CompetitionLabel
  pub score : ℤ
  pub why : Str
  pub features : Vector

pub record Odds : Type 0 where
  pub score : ℤ
  pub why : List Str
  pub features : Vector

-- The local values of the odds.
pub record OddsReading : Type 0 where
  pub title : Str
  pub company : Str
  pub description : Str
  pub flags : Str
  pub required_years : Option ℕ
  pub salary_max : ℕ

-- Each weighted rule of the odds gives its reason too.
unfoldable pub weigh : Str → ℤ → Str → Odds → Odds
weigh key w reason o = record {
  score = o.score +ℤ w;
  why = o.why ++ reason ∷ [];
  features = o.features ++ (key, num w) ∷ [];
}

unfoldable pub says : Str → Odds → Odds
says reason o = record o { why = o.why ++ reason ∷ [] }

abbrev pub has_key : Str → Vector → Bool
has_key key v = is_some (find key v)

module _ (re : Readers) where
  -- `int(x or 0)`, 0 where it raises.
  int_amount : Amount → ℕ
  int_amount (exact n) = n
  int_amount (written s) = if is_empty s then 0 else or_else (re.int_of s) 0

  unfoldable pub odds_reading : Row → Str → OddsReading
  unfolding int_amount years_required
  odds_reading r desc = record {
    title = re.lower r.title;
    company = re.lower r.company;
    description = clean re desc;
    flags = r.flags;
    required_years = truthy (years_required re desc).0;
    salary_max = int_amount r.salary_max;
  }

  asks : Option ℕ → Str
  asks none = []
  asks (some y) = codes "asks " ++ (re.str_of_nat y ++ codes "yrs")

  module _ (pf : Profile) where
    unfoldable pub weighs : Str → Str → Odds → Odds
    unfolding weigh
    weighs key reason o = weigh key (pf.hireability_weight key) reason o

    unfoldable pub odds_level : OddsReading → Odds → Odds
    unfolding weighs
    odds_level x o =
        if pf.level.hireability_staff_principal_pattern.search x.title
        then weighs (codes "staff_principal") (codes "staff/principal level") o
        else if pf.level.hireability_senior_pattern.search x.title
        then weighs (codes "senior") (codes "senior level") o
        else if pf.level.hireability_junior_pattern.search x.title
        then weighs (codes "junior") (codes "junior/associate level") o
        else o

    unfoldable pub odds_years : OddsReading → Odds → Odds
    unfolding weighs asks
    odds_years x o =
        if at_most pf.experience.hireability_bonus_years_max x.required_years
        then weighs (codes "years_low") (asks x.required_years) o
        else if at_least pf.experience.hireability_penalty_years_min x.required_years
        then weighs (codes "years_high") (asks x.required_years) o
        else o

    unfoldable pub odds_pool : OddsReading → Odds → Odds
    unfolding weighs
    odds_pool x o =
        if found pf.high_competition_patterns x.company
        then weighs (codes "high_competition") (codes "high-competition employer") o
        else o

    unfoldable pub odds_staffing : OddsReading → Odds → Odds
    unfolding weighs contains
    odds_staffing x o =
        if contains (codes "Staffing/W2") x.flags
        then weighs (codes "staffing_w2") (codes "staffing/vendor (lower bar)") o
        else o

    abbrev pub skill_hits : OddsReading → ℕ
    skill_hits x = count_if (λ (p : Pattern). p.search x.description) pf.skills.his_skills

    abbrev pub is_long : OddsReading → Bool
    is_long x = ltb 400 (length x.description)

    hits_text : OddsReading → Str
    hits_text x = re.str_of_nat (skill_hits x) ++ codes " skills match"

    unfoldable pub odds_skills : OddsReading → Odds → Odds
    unfolding weighs hits_text
    odds_skills x o =
        if leb 6 (skill_hits x)
        then weighs (codes "skills_strong") (hits_text x) o
        else if leb 3 (skill_hits x)
        then weighs (codes "skills_moderate") (hits_text x) o
        else if leb (skill_hits x) 1
        then weighs (codes "skills_thin") (codes "thin skills match") o
        else o

    unfoldable pub odds_stack : OddsReading → Odds → Odds
    unfolding weighs
    odds_stack x o =
        if all (λ (p : Pattern). p.search x.description) pf.skills.exact_stack_patterns
        then weighs (codes "exact_stack") (codes "his exact stack") o
        else o

    -- Skills are only scored on a substantial text.
    unfoldable pub odds_overlap : OddsReading → Odds → Odds
    odds_overlap x o =
        if is_long x
        then odds_stack x (odds_skills x o)
        else if is_empty x.description
        then o
        else says (codes "short JD (skills unscored)") o

    unfoldable pub odds_pay : OddsReading → Odds → Odds
    unfolding weighs
    odds_pay x o =
        if leb_ℤ pf.comp.hireability_high_bar (pos x.salary_max)
        then weighs (codes "comp_high_bar") (codes "comp implies higher bar") o
        else if ltb 0 x.salary_max && ltb_ℤ (pos x.salary_max) pf.comp.hireability_near_level
        then weighs (codes "comp_near_level") (codes "comp near his level") o
        else o

    unfoldable pub odds_degree : OddsReading → Odds → Odds
    unfolding weighs contains
    odds_degree x o =
        if contains (codes "degree-gated") x.flags
        then weighs (codes "degree_gated") (codes "hard degree gate") o
        else o

    unfoldable pub odds : OddsReading → Odds
    odds x =
        let begun : Odds = record { score = pos 0; why = []; features = [] } in
        let bar = odds_staffing x (odds_pool x (odds_years x (odds_level x begun))) in
        odds_degree x (odds_pay x (odds_overlap x bar))

    unfoldable pub match_label_of : OddsReading → Vector → MatchLabel
    unfolding find
    match_label_of x v =
        if has_key (codes "staff_principal") v
        then level_stretch
        else if has_key (codes "skills_strong") v || has_key (codes "exact_stack") v
        then strong_match
        else if has_key (codes "skills_thin") v
        then weak_match
        else if leb (length x.description) 400
        then unscored
        else moderate_match

    unfoldable pub competition_label_of : Vector → CompetitionLabel
    unfolding find
    competition_label_of v =
        if has_key (codes "high_competition") v
          || (has_key (codes "comp_high_bar") v || has_key (codes "degree_gated") v)
        then high_competition
        else if has_key (codes "staffing_w2") v
        then lower_bar
        else standard

    unfoldable pub hireability_core : Row → Str → OddsResult
    unfolding join
    hireability_core r desc =
        let x = odds_reading r desc in
        let o = odds x in
        record {
          match_label = match_label_of x o.features;
          competition_label = competition_label_of o.features;
          score = o.score;
          why = join (codes "; ") (take 4 o.why);
          features = o.features;
        }
