-- ===== src/Scoring/Validate.antt =====
-- What may be stored of a vector, and both passes over one posting
-- (webapp/backend/sources/scoring.py).
use jobhunt.Prelude.{
  Bool, true, false, not, Option, none, some, Str, codes, List, all, mem, if◌then◌else◌, is_some,
  is_empty,
}
use jobhunt.Runs.Profile.{find}
use jobhunt.Scoring.Vector.{Value, num, text, Vector, blocker, blocked_score_row}
use jobhunt.Scoring.Profile.{Profile}
use jobhunt.Scoring.Texts.{Readers, join}
use jobhunt.Scoring.Reading.{Row}
use jobhunt.Scoring.Rubric.{ScoreResult, score_row_core}
use jobhunt.Scoring.Odds.{OddsResult, hireability_core}

pub data FeatureError : Type 0 where
  unknown_keys blocked_with_more bad_code missing_keys not_a_number : FeatureError

pub data Checked : Type 0 where
  stored : Vector → Checked
  refused : FeatureError → Checked

abbrev pub keys_in : List Str → Vector → Bool
keys_in ks v = all (λ (e : Str × Value). mem e.0 ks) v

abbrev pub is_num : Value → Bool
is_num (num x) = true
is_num (text c) = false

-- A non-empty text.
abbrev pub is_code : Option Value → Bool
is_code none = false
is_code (some (num x)) = false
is_code (some (text c)) = not (is_empty c)

-- A number of the model is finite.
unfoldable pub validate_features : Vector → List Str → List Str → Checked
unfolding find
validate_features v required required_present =
    if not (keys_in required v)
    then refused unknown_keys
    else if is_some (find blocker v)
    then (if not (keys_in blocked_score_row v)
        then refused blocked_with_more
        else if is_code (find blocker v)
        then stored v
        else refused bad_code)
    else if not (all (λ (k : Str). is_some (find k v)) required_present)
    then refused missing_keys
    else if all (λ (e : Str × Value). is_num e.1) v
    then stored v
    else refused not_a_number

-- Both passes over one row: the odds see the flags and the salary that the first one left on it.
unfoldable pub score_one : Profile → Readers → Row → Str → Bool → ScoreResult × OddsResult
unfolding join
score_one pf re row description is_aggregator =
    let (result, left) = score_row_core pf re row description (some is_aggregator) in
    (
      result,
      hireability_core re pf (record left { flags = join (codes ", ") result.flags }) description,
    )
