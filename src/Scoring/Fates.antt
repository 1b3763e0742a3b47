-- ===== src/Scoring/Fates.antt =====
-- What a scoring pass does with each item and with each row on file, told of the item and the row
-- alone (webapp/backend/sources/scoring.py).
use jobhunt.Prelude.{
  ◌+◌, ◌≡◌, refl, ap, is_some, arith, Bool, true, false, not, ◌&&◌, ◌||◌, if◌then◌else◌, Option,
  none, some, Str, List, [], ◌∷◌, ◌++◌, map, keep, eq_str, count_if, Bool-cases, inl, inr,
}
use jobhunt.Contract.Text.{Platform}
use jobhunt.Scoring.Persist.{
  WorkRow, ScoreVersion, Batch, Planned, Sorted, planned, place, sort_items, matches, current_score,
  supersession_state, input_digest,
}

abbrev pub first : (ScoreVersion → Bool) → List ScoreVersion → Option ScoreVersion
first p [] = none
first p (r ∷ rs) = if p r then some r else first p rs

-- The row is the current score of a version for the profile and the scorer of the batch.
abbrev pub stands_for : Batch → Str → ScoreVersion → Bool
stands_for b version r =
    eq_str version r.posting_version_id
    && (eq_str b.profile_version_id r.profile_version_id
        && (eq_str b.scorer.scorer_hash r.scorer_hash && not (is_some r.superseded_at)))

abbrev pub id_and_input : Option ScoreVersion → Option (Str × Str)
id_and_input none = none
id_and_input (some r) = some (r.score_version_id, r.input_hash)

abbrev pub time_left : Option ScoreVersion → Option (Option Str)
time_left none = none
time_left (some r) = some r.superseded_at

pub current_score-first :
    (b : Batch) (version : Str) (table : List ScoreVersion)
    → current_score b version table ≡ id_and_input (first (stands_for b version) table)
unfolding current_score
current_score-first b version [] = refl
current_score-first b version (r ∷ rs) = elim (Bool-cases (stands_for b version r)) [
  | inl e ↦ rw e refl
  | inr e ↦ rw e (current_score-first b version rs)
]

supersession_state-first :
    (id : Str) (table : List ScoreVersion)
    → supersession_state id table ≡ time_left (first (λ r. eq_str id r.score_version_id) table)
unfolding supersession_state
supersession_state-first id [] = refl
supersession_state-first id (r ∷ rs) = elim (Bool-cases (eq_str id r.score_version_id)) [
  | inl e ↦ rw e refl
  | inr e ↦ rw e (supersession_state-first id rs)
]

module _ (py : Platform) (b : Batch) (table : List ScoreVersion) where
  abbrev is_absent : Option (Option Str) → Bool
  is_absent none = true
  is_absent (some o) = false

  abbrev is_retired : Option (Option Str) → Bool
  is_retired none = false
  is_retired (some none) = false
  is_retired (some (some at)) = true

  -- The current score of the item's version was made of another input, or there is none.
  abbrev pub is_stale : WorkRow → Bool
  is_stale i =
      not (
        matches (id_and_input (first (stands_for b i.posting_version_id) table))
          (input_digest py i))

  abbrev pub row_state : WorkRow → Option (Option Str)
  row_state i =
      time_left (first (λ r. eq_str (planned py b table i).row_id r.score_version_id) table)

  -- Its row is not on file.
  abbrev pub is_inserted : WorkRow → Bool
  is_inserted i = is_stale i && is_absent (row_state i)

  -- Its row is on file, superseded.
  abbrev pub is_revived : WorkRow → Bool
  is_revived i = is_stale i && is_retired (row_state i)

  abbrev pub is_reused : WorkRow → Bool
  is_reused i = not (is_inserted i || is_revived i)

  -- The items that have a new current row, in the order in which their rows land.
  abbrev pub landing : List WorkRow → List Planned
  landing items =
      map (planned py b table) (keep is_inserted items)
      ++ map (planned py b table) (keep is_revived items)

  abbrev Sorts : List WorkRow → Sorted → Type 0
  Sorts items s =
      (s.reused ≡ count_if is_reused items)
      × (s.fresh ≡ map (planned py b table) (keep is_inserted items))
      × (s.reverted ≡ map (planned py b table) (keep is_revived items))

  place-Sorts :
      (i : WorkRow) (items : List WorkRow) (s : Sorted) (o : Option (Option Str))
      → is_stale i ≡ true
      → row_state i ≡ o
      → Sorts items s
      → Sorts (i ∷ items) (place py b table (planned py b table i) o s)
  unfolding place
  place-Sorts i items s none e f (n, r, v) = rw (e, f) (omega (arith, n), rw r refl, v)
  place-Sorts i items s (some none) e f (n, r, v) = rw (e, f) (omega (arith, n), r, v)
  place-Sorts i items s (some (some at)) e f (n, r, v) = rw (e, f) (omega (arith, n), r, rw v refl)

  sorted-Sorts :
      (c : Bool) (i : WorkRow) (items : List WorkRow) (s : Sorted)
      → matches (id_and_input (first (stands_for b i.posting_version_id) table)) (input_digest py i)
        ≡ c
      → Sorts items s
      → Sorts (i ∷ items) (
          if c
          then record s { reused = s.reused + 1 }
          else place py b table (planned py b table i) (row_state i) s)
  sorted-Sorts true i items s e (n, r, v) = rw e (omega (arith, n), r, v)
  sorted-Sorts false i items s e h = place-Sorts i items s (row_state i) (ap not e) refl h

  pub sort_items-Sorts : (items : List WorkRow) → Sorts items (sort_items py b table items)
  unfolding sort_items
  sort_items-Sorts [] = (refl, refl, refl)
  sort_items-Sorts (i ∷ is) =
      rw
        (
          current_score-first b i.posting_version_id table,
          supersession_state-first (planned py b table i).row_id table,
        )
        (sorted-Sorts _ i is (sort_items py b table is) refl (sort_items-Sorts is))
