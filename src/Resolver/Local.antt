-- ===== src/Resolver/Local.antt =====
-- The index of a run's direct inventory, and local resolution against it
-- (webapp/backend/sources/resolver.py).
use jobhunt.Prelude.{
  Bool, not, ◌&&◌, ◌||◌, Option, none, some, Str, List, [], ◌∷◌, ◌++◌, keep, eq_str, if◌then◌else◌,
  is_empty, is_some, length, ltb, or_else,
}
use jobhunt.Runs.Profile.{find}
use jobhunt.Contract.Text.{Platform}
use jobhunt.Resolver.Names.{
  company_key, normalized_title, title_jaccard, is_close, locations_compatible,
}

pub record Observation : Type 0 where
  pub posting_id : Str
  pub namespace : Str
  pub company : Str
  pub title : Str
  pub location : Str

-- DirectIndex.by_company.
abbrev pub DirectIndex : Type 0
DirectIndex = List (Str × List Observation)

-- `grouped.setdefault(key, []).append(observation)`.
unfoldable pub append_at : Str → Observation → DirectIndex → DirectIndex
append_at k o [] = (k, o ∷ []) ∷ []
append_at k o ((j, os) ∷ m) =
    if eq_str k j then (j, os ++ o ∷ []) ∷ m else (j, os) ∷ append_at k o m

-- What resolution decided about one posting.
pub record ResolutionOutcome : Type 0 where
  pub subject_posting_id : Str
  pub matched : Option Observation
  pub candidates : List Observation

unfoldable pub is_ambiguous : ResolutionOutcome → Bool
is_ambiguous o = not (is_some o.matched) && ltb 1 (length o.candidates)

-- The subject of a resolution.
pub record Subject : Type 0 where
  pub posting_id : Str
  pub company : Option Str
  pub title : Option Str
  pub location : Option Str

-- Set when there is exactly one.
abbrev pub only {ℓ} : {A : Type ℓ} → List A → Option A
only [] = none
only (x ∷ []) = some x
only (x ∷ y ∷ xs) = none

module _ (pf : Platform) where
  unfoldable pub indexed : List Observation → DirectIndex → DirectIndex
  indexed [] m = m
  indexed (o ∷ os) m =
      let key = company_key pf (some o.company) in
      indexed os (if is_empty key then m else append_at key o m)

  unfoldable pub build_direct_index : List Observation → DirectIndex
  build_direct_index observations = indexed observations []

  unfoldable pub candidates : DirectIndex → Option Str → List Observation
  candidates index company = or_else (find (company_key pf company) index) []

  -- The conditions on a candidate of the subject's company.
  unfoldable pub survives : Subject → Observation → Bool
  survives s c =
      not (eq_str c.posting_id s.posting_id)
      && ((eq_str (normalized_title pf (some c.title)) (normalized_title pf s.title)
            || is_close (title_jaccard pf s.title (some c.title)))
          && locations_compatible pf s.location (some c.location))

  unfoldable pub resolve_local : Subject → DirectIndex → ResolutionOutcome
  resolve_local s index =
      let survivors = keep (survives s) (candidates index s.company) in
      record { subject_posting_id = s.posting_id; matched = only survivors; candidates = survivors }
