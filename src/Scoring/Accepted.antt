-- ===== src/Scoring/Accepted.antt =====
-- Whatever the scorer records may be stored (rubric.py, webapp/backend/sources/scoring.py).
use jobhunt.Prelude.{
  ℤ, pos, ◌≡◌, refl, sym, subst, Bool, true, false, ◌&&◌, ◌||◌, if◌then◌else◌, Option, none, some,
  is_some, is_empty, Str, codes, List, [], ◌∷◌, ◌++◌, All, All-append, all, mem, eq_str, eq_str→≡,
  Bool-cases, Option-cases, inl, inr,
}
use jobhunt.Runs.Profile.{find}
use jobhunt.Scoring.Vector.{
  Value, num, text, Vector, contributions, cap_features, raw_score, blocker, total_of,
  required_score_row, required_present_score_row, required_hireability, blocker_codes,
}
use jobhunt.Scoring.Profile.{Profile}
use jobhunt.Scoring.Texts.{Readers}
use jobhunt.Scoring.Reading.{Row, Reading, reading_of}
use jobhunt.Scoring.Rubric.{Refusal, blocked, tally, scored, score_reading, refusal, score_row_core}
use jobhunt.Scoring.Odds.{
  Odds, OddsReading, odds_reading, weigh, weighs, says, odds_level, odds_years, odds_pool,
  odds_staffing, odds_skills, odds_stack, odds_overlap, odds_pay, odds_degree, odds,
  hireability_core,
}
use jobhunt.Scoring.Validate.{stored, is_num, keys_in, validate_features, score_one}
use jobhunt.Scoring.Balance.{Entry, Named, snoc-Named, tally-Named, tally-started, find-kept}
use jobhunt.Scoring.Replay.{capped-Replays, find-append, find-none}

record Recorded (o : Odds) : Type 0 where
  recorded : Named required_hireability o.score o.features

nothing-Recorded : Recorded (record { score = pos 0; why = []; features = [] })
unfolding total_of
nothing-Recorded = record { recorded = (refl, tt) }

if-Recorded : (b : Bool) {o o' : Odds} → Recorded o → Recorded o' → Recorded (if b then o else o')
if-Recorded true h k = h
if-Recorded false h k = k

says-Recorded : (reason : Str) {o : Odds} → Recorded o → Recorded (says reason o)
unfolding says
says-Recorded reason h = record { recorded = h.recorded }

module _ (re : Readers) (pf : Profile) where
  weighs-Recorded :
      (key reason : Str) {o : Odds}
      → mem key required_hireability ≡ true
      → Recorded o
      → Recorded (weighs re pf key reason o)
  unfolding weighs weigh
  weighs-Recorded key reason {o} e h = record {
    recorded =
        snoc-Named required_hireability o.features key o.score (pf.hireability_weight key) e
          h.recorded;
  }

  ruleset records = (if-Recorded, weighs-Recorded)

  module _ (x : OddsReading) where
    odds_level-Recorded : {o : Odds} → Recorded o → Recorded (odds_level re pf x o)
    unfolding odds_level eq_str
    odds_level-Recorded h = search records

    odds_years-Recorded : {o : Odds} → Recorded o → Recorded (odds_years re pf x o)
    unfolding odds_years eq_str
    odds_years-Recorded h = search records

    odds_pool-Recorded : {o : Odds} → Recorded o → Recorded (odds_pool re pf x o)
    unfolding odds_pool eq_str
    odds_pool-Recorded h = search records

    odds_staffing-Recorded : {o : Odds} → Recorded o → Recorded (odds_staffing re pf x o)
    unfolding odds_staffing eq_str
    odds_staffing-Recorded h = search records

    odds_skills-Recorded : {o : Odds} → Recorded o → Recorded (odds_skills re pf x o)
    unfolding odds_skills eq_str
    odds_skills-Recorded h = search records

    odds_stack-Recorded : {o : Odds} → Recorded o → Recorded (odds_stack re pf x o)
    unfolding odds_stack eq_str
    odds_stack-Recorded h = search records

    odds_pay-Recorded : {o : Odds} → Recorded o → Recorded (odds_pay re pf x o)
    unfolding odds_pay eq_str
    odds_pay-Recorded h = search records

    odds_degree-Recorded : {o : Odds} → Recorded o → Recorded (odds_degree re pf x o)
    unfolding odds_degree eq_str
    odds_degree-Recorded h = search records

    odds_overlap-Recorded : {o : Odds} → Recorded o → Recorded (odds_overlap re pf x o)
    unfolding odds_overlap
    odds_overlap-Recorded h =
        search (records, says-Recorded, odds_stack-Recorded, odds_skills-Recorded)

    -- The odds are the sum of what was recorded, all of it under the names of the contract.
    odds-Recorded : Recorded (odds re pf x)
    unfolding odds
    odds-Recorded = odds_degree-Recorded (
        odds_pay-Recorded (
          odds_overlap-Recorded (
            odds_staffing-Recorded
              (odds_pool-Recorded (odds_years-Recorded (odds_level-Recorded nothing-Recorded))))))

both : (a b : Bool) → (a && b) ≡ true → (a ≡ true) × (b ≡ true)
both true b h = (refl, h)
both false b h = cc

mem-subset :
    (ks ls : List Str) (j : Str)
    → all (λ (k : Str). mem k ls) ks ≡ true
    → mem j ks ≡ true
    → mem j ls ≡ true
mem-subset [] ls j h m = cc
mem-subset (k ∷ ks) ls j h m =
    let (first, rest) = both (mem k ls) _ h in
    elim (Bool-cases (eq_str j k)) [
      | inl e ↦ subst (λ i. mem i ls ≡ true) (sym (eq_str→≡ j k e)) first
      | inr e ↦ mem-subset ks ls j rest (subst (λ b. (b || mem j ks) ≡ true) e m)
    ]

Entry-subset :
    (ks ls : List Str) (v : Vector)
    → all (λ (k : Str). mem k ls) ks ≡ true
    → All (Entry ks) v
    → All (Entry ls) v
Entry-subset ks ls [] h a = tt
Entry-subset ks ls ((j, x) ∷ v) h ((m, n), a) =
    ((mem-subset ks ls j h m, n), Entry-subset ks ls v h a)

keys_in-Entry : (ks : List Str) (v : Vector) → All (Entry ks) v → keys_in ks v ≡ true
keys_in-Entry ks [] a = refl
keys_in-Entry ks ((j, x) ∷ v) ((m, n), a) = rw m (keys_in-Entry ks v a)

numbers-Entry :
    (ks : List Str) (v : Vector) → All (Entry ks) v → all (λ (e : Str × Value). is_num e.1) v ≡ true
numbers-Entry ks [] a = refl
numbers-Entry ks ((j, num x) ∷ v) ((m, n), a) = numbers-Entry ks v a
numbers-Entry ks ((j, text c) ∷ v) ((m, n), a) = cc

-- A vector of numbers under allowed names, none of them that of a blocker, may be stored when what
-- has to be present is.
validate_features-Entry :
    (names required present : List Str) (v : Vector)
    → mem blocker names ≡ false
    → all (λ (k : Str). mem k required) names ≡ true
    → All (Entry names) v
    → all (λ (k : Str). is_some (find k v)) present ≡ true
    → validate_features v required present ≡ stored v
unfolding validate_features
validate_features-Entry names required present v b h a p =
    rw
      (
        keys_in-Entry required v (Entry-subset names required v h a),
        find-none names blocker v b a,
        p,
        numbers-Entry names v a,
      )
      refl

-- Whatever the posting, its odds are the sum of the features recorded for them, and these may be
-- stored.
pub hireability_core-stored :
    (pf : Profile) (re : Readers) (r : Row) (desc : Str)
    → (total_of required_hireability (hireability_core re pf r desc).features
        ≡ (hireability_core re pf r desc).score)
      × (validate_features (hireability_core re pf r desc).features required_hireability []
          ≡ stored (hireability_core re pf r desc).features)
unfolding hireability_core eq_str
hireability_core-stored pf re r desc =
    let (t, a) = Recorded.recorded (odds-Recorded re pf (odds_reading re r desc)) in
    (t, validate_features-Entry required_hireability required_hireability [] _ refl refl a refl)

abbrev code_known : Option Refusal → Bool
code_known none = true
code_known (some b) = mem b.code blocker_codes

abbrev score_row_names : List Str
score_row_names = raw_score ∷ cap_features ++ contributions

score_row_entries :
    (v : Vector) (s : ℤ) (caps : Vector)
    → All (Entry contributions) v
    → is_some (find (codes "function_match") v) ≡ true
    → All (Entry cap_features) caps
    → validate_features
        (v ++ (raw_score, num s) ∷ caps)
        required_score_row
        required_present_score_row
      ≡ stored (v ++ (raw_score, num s) ∷ caps)
unfolding eq_str find
score_row_entries v s caps a f b =
    let w = (raw_score, num s) ∷ caps in
    validate_features-Entry score_row_names required_score_row required_present_score_row (v ++ w)
      refl refl
      (All-append (Entry score_row_names) v w (Entry-subset contributions score_row_names v refl a)
        ((refl, refl), Entry-subset cap_features score_row_names caps refl b))
      (rw (find-kept (codes "function_match") v w f, find-append contributions raw_score v w refl a)
        refl)

record Coded (o : Option Refusal) : Type 0 where
  coded : code_known o ≡ true

if-Coded : (b : Bool) {o o' : Option Refusal} → Coded o → Coded o' → Coded (if b then o else o')
if-Coded true h k = h
if-Coded false h k = k

some-Coded : {b : Refusal} → mem b.code blocker_codes ≡ true → Coded (some b)
some-Coded h = record { coded = h }

none-Coded : Coded none
none-Coded = record { coded = refl }

code_not_empty : (c : Str) → mem c blocker_codes ≡ true → is_empty c ≡ false
unfolding eq_str
code_not_empty [] h = cc
code_not_empty (d ∷ c) h = refl

blocked-stored :
    (b : Refusal)
    → mem b.code blocker_codes ≡ true
    → validate_features (blocked b).features required_score_row required_present_score_row
      ≡ stored (blocked b).features
unfolding blocked validate_features eq_str
blocked-stored b h = rw (code_not_empty b.code h) refl

module _ (pf : Profile) (re : Readers) (x : Reading) where
  -- Every refusal names one of the known codes.
  refusal-Coded : Coded (refusal pf re x)
  unfolding refusal eq_str
  refusal-Coded = search (if-Coded, some-Coded, none-Coded) depth 24

  scored-stored :
      validate_features (scored pf re x).features required_score_row required_present_score_row
      ≡ stored (scored pf re x).features
  unfolding scored
  scored-stored =
      score_row_entries (tally pf re x).features _ _ (tally-Named pf re x).1 (tally-started pf re x)
        (capped-Replays pf re x _).entries

  decided-stored :
      validate_features
        (score_reading pf re x).features
        required_score_row
        required_present_score_row
      ≡ stored (score_reading pf re x).features
  unfolding score_reading
  decided-stored = elim (Option-cases (refusal pf re x)) [
    | inl e ↦ rw e scored-stored
    | inr (b, e) ↦ rw e (blocked-stored b (subst (λ o. code_known o ≡ true) e refusal-Coded.coded))
  ]

-- Both vectors that the two passes record for one posting may be stored, whatever the posting, its
-- description and the profile.
pub score_one-stored :
    (pf : Profile) (re : Readers) (row : Row) (desc : Str) (is_aggregator : Bool)
    → (validate_features
          (score_one pf re row desc is_aggregator).0.features
          required_score_row
          required_present_score_row
        ≡ stored (score_one pf re row desc is_aggregator).0.features)
      × (validate_features
            (score_one pf re row desc is_aggregator).1.features
            required_hireability
            []
          ≡ stored (score_one pf re row desc is_aggregator).1.features)
unfolding score_one score_row_core
score_one-stored pf re row desc is_aggregator = (
  decided-stored pf re (reading_of re pf row desc (some is_aggregator)),
  (hireability_core-stored pf re _ desc).1,
)
