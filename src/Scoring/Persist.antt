-- ===== src/Scoring/Persist.antt =====
-- The stored scores: what a pass reuses, inserts, revives and supersedes
-- (webapp/backend/sources/scoring.py).
use jobhunt.Prelude.{
  ℕ, ℤ, ◌+◌, Bool, true, false, not, ◌&&◌, ◌||◌, Option, none, some, Str, codes, List, [], ◌∷◌,
  ◌++◌, map, any, all, mem, eq_str, if◌then◌else◌, is_some, length, count_if, text_or, ◌⊎◌, inl,
  inr,
}
use jobhunt.Runs.Profile.{find}
use jobhunt.Store.Rows.{update, put}
use jobhunt.Contract.Text.{Platform}
use jobhunt.Scoring.Vector.{
  Vector, blocker, required_score_row, required_present_score_row, required_hireability,
}
use jobhunt.Scoring.Profile.{Profile}
use jobhunt.Scoring.Texts.{Readers}
use jobhunt.Scoring.Reading.{Row}
use jobhunt.Scoring.Rubric.{ScoreResult}
use jobhunt.Scoring.Odds.{OddsResult, MatchLabel, CompetitionLabel}
use jobhunt.Scoring.Validate.{FeatureError, Checked, stored, refused, validate_features, score_one}

pub record WorkRow : Type 0 where
  pub posting_id : Str
  pub posting_version_id : Str
  pub version_hash : Str
  pub namespace : Str
  pub is_aggregator : Bool
  pub row : Row
  pub description : Option Str
  pub description_identity : Str

pub record ScorerIdentity : Type 0 where
  pub rubric_version : Str
  pub source_digest : Str
  pub composition_digest : Str
  pub scorer_hash : Str

-- What rationale_json holds.
pub record Rationale : Type 0 where
  pub why : Str
  pub flags : List Str
  pub odds_why : Str
  pub scorer : ScorerIdentity
  pub namespace : Str
  pub is_aggregator : Bool
  pub has_description : Bool

-- One row of `score_versions`; the JSON texts are what they hold.
pub record ScoreVersion : Type 0 where
  pub score_version_id : Str
  pub posting_id : Str
  pub posting_version_id : Str
  pub profile_version_id : Str
  pub source_run_id : Option Str
  pub score_hash : Str
  pub scorer_hash : Str
  pub input_hash : Str
  pub tier : ℤ
  pub odds : MatchLabel × CompetitionLabel
  pub odds_score : ℤ
  pub rationale : Rationale
  pub features : Vector
  pub odds_features : Vector
  pub created_at : Str
  pub superseded_at : Option Str
  pub superseded_by : Option Str

pub record ScoreOutcome : Type 0 where
  pub scored : ℕ
  pub reused : ℕ
  pub superseded : ℕ
  pub blocked : ℕ
  pub recurrent : ℕ
  pub score_version_ids : List Str

-- A write that raises leaves the transaction to be rolled back.
pub data Persisted : Type 0 where
  saved : ScoreOutcome → List ScoreVersion → Persisted
  feature_error : FeatureError → Persisted
  integrity_error : Persisted

-- The ids that the foreign keys of `score_versions` may name.
pub record Parents : Type 0 where
  pub posting_ids : List Str
  pub posting_version_ids : List Str
  pub profile_version_ids : List Str
  pub source_run_ids : List Str

-- The arguments that a batch shares, and the rows that its inserts refer to.
pub record Batch : Type 0 where
  pub parents : Parents
  pub profile_version_id : Str
  pub scorer : ScorerIdentity
  pub source_run_id : Option Str
  pub at : Str

abbrev pub is_current : ScoreVersion → Bool
is_current r = not (is_some r.superseded_at)

abbrev pub same_key : ScoreVersion → ScoreVersion → Bool
same_key r s =
    eq_str r.posting_version_id s.posting_version_id
    && eq_str r.profile_version_id s.profile_version_id

-- The primary key, the unique key of migration 9 and the index on current scores.
abbrev pub clashes : ScoreVersion → ScoreVersion → Bool
clashes r s =
    eq_str r.score_version_id s.score_version_id
    || (same_key r s
        && (eq_str r.score_hash s.score_hash
            || (eq_str r.scorer_hash s.scorer_hash && (is_current r && is_current s))))

unfoldable pub is_unique : List ScoreVersion → Bool
is_unique [] = true
is_unique (r ∷ rs) = not (any (clashes r) rs) && is_unique rs

unfoldable pub is_null_or_in : List Str → Option Str → Bool
is_null_or_in ids none = true
is_null_or_in ids (some id) = mem id ids

-- What a row refers to is on file; of a new row `superseded_by` is NULL.
unfoldable pub refers : Parents → ScoreVersion → Bool
refers p r =
    mem r.posting_id p.posting_ids
    && (mem r.posting_version_id p.posting_version_ids
        && (mem r.profile_version_id p.profile_version_ids
            && is_null_or_in p.source_run_ids r.source_run_id))

module _ (py : Platform) where
  -- A truth value of the JSON text is written as its word.
  unfoldable pub input_digest : WorkRow → Str
  input_digest i = py.sha256_json (
      (codes "version_hash", i.version_hash)
      ∷ (codes "description", i.description_identity)
      ∷ (codes "is_aggregator", (if i.is_aggregator then codes "true" else codes "false"))
      ∷ [])

  unfoldable pub score_hash : Str → Str → Str
  score_hash input scorer = py.sha256_json ((codes "input", input) ∷ (codes "scorer", scorer) ∷ [])

  unfoldable pub score_version_id : Str → Str → Str → Str
  score_version_id version profile digest =
      py.uuid5 (codes "https://jobhunt.local/canonical/score-version")
        (version ∷ profile ∷ digest ∷ [])

-- The current row of a version under this profile and scorer: there is at most one.
unfoldable pub current_score : Batch → Str → List ScoreVersion → Option (Str × Str)
current_score b version [] = none
current_score b version (r ∷ rs) =
    let rest = current_score b version rs in
    if eq_str version r.posting_version_id
      && (eq_str b.profile_version_id r.profile_version_id
          && (eq_str b.scorer.scorer_hash r.scorer_hash && is_current r))
    then some (r.score_version_id, r.input_hash)
    else rest

-- `superseded_at` of the row with this id, if it is on file.
unfoldable pub supersession_state : Str → List ScoreVersion → Option (Option Str)
supersession_state id [] = none
supersession_state id (r ∷ rs) =
    let rest = supersession_state id rs in
    if eq_str id r.score_version_id then some r.superseded_at else rest

pub record Planned : Type 0 where
  pub item : WorkRow
  pub digest : Str
  pub row_id : Str

-- The items of a batch by what happens to them.
pub record Sorted : Type 0 where
  pub reused : ℕ
  pub fresh : List Planned
  pub reverted : List Planned

abbrev pub matches : Option (Str × Str) → Str → Bool
matches none digest = false
matches (some (id, input)) digest = eq_str input digest

module _ (py : Platform) (b : Batch) (table : List ScoreVersion) where
  unfoldable pub planned : WorkRow → Planned
  planned i =
      let digest = score_hash py (input_digest py i) b.scorer.scorer_hash in
      record {
        item = i;
        digest = digest;
        row_id = score_version_id py i.posting_version_id b.profile_version_id digest;
      }

  -- Absent: insert. Superseded: revive. Current, though its input hash differs: leave it.
  unfoldable pub place : Planned → Option (Option Str) → Sorted → Sorted
  place p none s = record s { fresh = p ∷ s.fresh }
  place p (some none) s = record s { reused = s.reused + 1 }
  place p (some (some at)) s = record s { reverted = p ∷ s.reverted }

  unfoldable pub sort_items : List WorkRow → Sorted
  unfolding place planned
  sort_items [] = record { reused = 0; fresh = []; reverted = [] }
  sort_items (i ∷ is) =
      let s = sort_items is in
      if matches (current_score b i.posting_version_id table) (input_digest py i)
      then record s { reused = s.reused + 1 }
      else place (planned i) (supersession_state (planned i).row_id table) s

-- The rows that are replaced, by version (a version has one current row).
unfoldable pub replaced : Batch → List ScoreVersion → List Planned → List (Str × Str)
replaced b table [] = []
replaced b table (p ∷ ps) =
    let version = p.item.posting_version_id in
    let rest = replaced b table ps in
    elim (current_score b version table) [ none ↦ rest | some (id, input) ↦ put version id rest ]

unfoldable pub new_by_version : List Planned → List (Str × Str)
new_by_version [] = []
new_by_version (p ∷ ps) =
    let rest = new_by_version ps in
    let version = p.item.posting_version_id in
    if is_some (find version rest) then rest else (version, p.row_id) ∷ rest

module _ (pf : Profile) (re : Readers) (b : Batch) where
  unfoldable pub version_of : Planned → ScoreResult × OddsResult → Str → ScoreVersion
  version_of p (result, odds) input = record {
    score_version_id = p.row_id;
    posting_id = p.item.posting_id;
    posting_version_id = p.item.posting_version_id;
    profile_version_id = b.profile_version_id;
    source_run_id = b.source_run_id;
    score_hash = p.digest;
    scorer_hash = b.scorer.scorer_hash;
    input_hash = input;
    tier = result.tier;
    odds = (odds.match_label, odds.competition_label);
    odds_score = odds.score;
    rationale = record {
      why = result.why;
      flags = result.flags;
      odds_why = odds.why;
      scorer = b.scorer;
      namespace = p.item.namespace;
      is_aggregator = p.item.is_aggregator;
      has_description = is_some p.item.description;
    };
    features = result.features;
    odds_features = odds.features;
    created_at = b.at;
    superseded_at = none;
    superseded_by = none;
  }

  -- The two vectors are checked in turn, before a row is made.
  insert_after : Checked → Checked → ScoreVersion → FeatureError ⊎ ScoreVersion
  insert_after (refused e) odds v = inl e
  insert_after (stored f) (refused e) v = inl e
  insert_after (stored f) (stored g) v = inr v

  unfoldable pub score_item : Platform → Planned → FeatureError ⊎ ScoreVersion
  unfolding version_of insert_after
  score_item py p =
      let (result, odds) =
        score_one pf re p.item.row (text_or p.item.description []) p.item.is_aggregator in
      insert_after (validate_features result.features required_score_row required_present_score_row)
        (validate_features odds.features required_hireability [])
        (version_of p (result, odds) (input_digest py p.item))

  before :
      FeatureError ⊎ ScoreVersion
      → FeatureError ⊎ List ScoreVersion
      → FeatureError ⊎ List ScoreVersion
  before (inl e) rest = inl e
  before (inr v) (inl e) = inl e
  before (inr v) (inr vs) = inr (v ∷ vs)

  unfoldable pub inserts : Platform → List Planned → FeatureError ⊎ List ScoreVersion
  unfolding before
  inserts py [] = inr []
  inserts py (p ∷ ps) = before (score_item py p) (inserts py ps)

-- The five statements. The ids of an `IN` list are tested by membership.
abbrev pub mark : (ScoreVersion → ScoreVersion) → List Str → List ScoreVersion → List ScoreVersion
mark f ids table = update (λ (r : ScoreVersion). mem r.score_version_id ids) f table

abbrev pub superseded : Str → ScoreVersion → ScoreVersion
superseded at r = record r { superseded_at = some at; superseded_by = none }

abbrev pub revived : ScoreVersion → ScoreVersion
revived r = record r { superseded_at = none; superseded_by = none }

unfoldable pub link : List (Str × Str) → List (Str × Str) → List ScoreVersion → List ScoreVersion
link landed [] table = table
link landed ((version, old) ∷ m) table =
    link landed m (
      mark (λ (r : ScoreVersion). record r { superseded_by = find version landed }) (old ∷ [])
        table)

abbrev pub row_ids : List Planned → List Str
row_ids ps = map (λ (p : Planned). p.row_id) ps

abbrev pub olds : List (Str × Str) → List Str
olds m = map (λ (e : Str × Str). e.1) m

abbrev pub is_blocked : ScoreVersion → Bool
is_blocked v = is_some (find blocker v.features)

-- The truth of a list.
abbrev pub is_filled {ℓ} : {A : Type ℓ} → List A → Bool
is_filled [] = false
is_filled (x ∷ xs) = true

-- A statement with no rows is not executed, so it cannot raise.
abbrev pub holds_after : Bool → List ScoreVersion → Bool
holds_after changed table = not changed || is_unique table

abbrev pub inserted :
    Batch → List (Str × Str) → List ScoreVersion → List ScoreVersion → List ScoreVersion
inserted b old rows table = mark (superseded b.at) (olds old) table ++ rows

abbrev pub made_current :
    Batch → Sorted → List (Str × Str) → List ScoreVersion → List ScoreVersion → List ScoreVersion
made_current b s old rows table = mark revived (row_ids s.reverted) (inserted b old rows table)

-- The last statement names rows that have just landed, so its reference holds.
abbrev pub keys_hold :
    Batch → Sorted → List (Str × Str) → List ScoreVersion → List ScoreVersion → Bool
keys_hold b s old rows table =
    (holds_after (is_filled rows) (inserted b old rows table) && all (refers b.parents) rows)
    && holds_after (is_filled s.reverted) (made_current b s old rows table)

unfoldable pub write_rows :
    Batch → Sorted → List (Str × Str) → List ScoreVersion → List ScoreVersion → Persisted
unfolding link
write_rows b s old rows table =
    let landing = s.fresh ++ s.reverted in
    if keys_hold b s old rows table
    then saved
        (record {
          scored = length rows;
          reused = s.reused;
          superseded = length old;
          blocked = count_if is_blocked rows;
          recurrent = length s.reverted;
          score_version_ids = row_ids landing;
        })
        (link (new_by_version landing) old (made_current b s old rows table))
    else integrity_error

unfoldable pub finish :
    Batch → Sorted → List ScoreVersion → FeatureError ⊎ List ScoreVersion → Persisted
finish b s table (inl e) = feature_error e
finish b s table (inr rows) = write_rows b s (replaced b table (s.fresh ++ s.reverted)) rows table

unfoldable pub persist_scores :
    Platform → Profile → Readers → Batch → List WorkRow → List ScoreVersion → Persisted
persist_scores py pf re b items table =
    let s = sort_items py b table items in finish b s table (inserts pf re b py s.fresh)
