-- ===== src/Graph/Tests.antt =====
-- Runs of the version graph's decisions (webapp/backend/sources/graph.py).
use jobhunt.Prelude.{◌≡◌, refl, Str, List, [], ◌∷◌, some, eq_str, le_list}
use jobhunt.Records.Tables.{State}
use jobhunt.Runs.Profile.{find}
use jobhunt.Graph.Canonical.{
  PassIdentity, full, scorer_changed, decide_mode, SourceCategory, direct, manual, category_rank,
  registry_category, setdefault, merge_state, merge_all, least, select_canonical_version,
}
use jobhunt.Graph.Merged.{first_mention, Speaks, select_canonical_version-Speaks}

abbrev registry : List (Str × SourceCategory)
registry = ((97 ∷ []), direct) ∷ ((98 ∷ []), manual) ∷ []

-- "a:1", a direct board; "c:1", of no adapter.
abbrev board : Str
board = 97 ∷ 58 ∷ 49 ∷ []

abbrev mirror : Str
mirror = 99 ∷ 58 ∷ 49 ∷ []

abbrev own : State
own = (mirror, (7 ∷ [])) ∷ []

abbrev redirected : State
redirected = (board, (8 ∷ [])) ∷ (mirror, (9 ∷ [])) ∷ []

abbrev current : PassIdentity
current = record { profile_version_id = 1 ∷ []; scorer_hash = 2 ∷ [] }

abbrev older : PassIdentity
older = record { profile_version_id = 1 ∷ []; scorer_hash = 3 ∷ [] }

changed : decide_mode current (some older) ≡ record { mode = full; reasons = scorer_changed ∷ [] }
unfolding decide_mode eq_str
changed = refl

selected :
    select_canonical_version (registry_category registry) (own ∷ redirected ∷ [])
    ≡ some (board, 8 ∷ [])
unfolding select_canonical_version registry_category merge_all merge_state setdefault eq_str find
    least le_list category_rank
selected = refl

mirror_first : first_mention mirror (own ∷ redirected ∷ []) ≡ some (7 ∷ [])
unfolding find eq_str
mirror_first = refl

select_canonical_version-Speaks_example :
    Speaks
      (registry_category registry)
      (select_canonical_version (registry_category registry) (own ∷ redirected ∷ []))
      (λ n. first_mention n (own ∷ redirected ∷ []))
      mirror
select_canonical_version-Speaks_example =
    select_canonical_version-Speaks (registry_category registry) (own ∷ redirected ∷ []) mirror
      (7 ∷ []) mirror_first
