-- ===== src/Graph/Canonical.antt =====
-- The mode of a pass and the version that speaks for a posting (webapp/backend/sources/graph.py).
use jobhunt.Prelude.{
  ℕ, ◌-◌, Bool, Option, none, some, Str, List, [], ◌∷◌, ◌++◌, eq_str, if◌then◌else◌, le_list,
  list_order, nat_order, is_empty, ◌==◌,
}
use jobhunt.Runs.Profile.{find}
use jobhunt.Records.Tables.{State}

pub record PassIdentity : Type 0 where
  pub profile_version_id : Str
  pub scorer_hash : Str

pub data PassMode : Type 0 where
  full incremental : PassMode

pub data Reason : Type 0 where
  no_baseline_pass profile_changed scorer_changed : Reason

pub record PassDecision : Type 0 where
  pub mode : PassMode
  pub reasons : List Reason

decision_of : List Reason → PassDecision
decision_of [] = record { mode = incremental; reasons = [] }
decision_of (r ∷ rs) = record { mode = full; reasons = r ∷ rs }

-- Of the baseline's row only the identity is read.
unfoldable pub decide_mode : PassIdentity → Option PassIdentity → PassDecision
unfolding decision_of
decide_mode current none = record { mode = full; reasons = no_baseline_pass ∷ [] }
decide_mode current (some baseline) = decision_of (
    (if eq_str baseline.profile_version_id current.profile_version_id
      then []
      else profile_changed ∷ [])
    ++ (if eq_str baseline.scorer_hash current.scorer_hash then [] else scorer_changed ∷ []))

pub data SourceCategory : Type 0 where
  direct startup_board manual aggregator : SourceCategory

-- CATEGORY_RANK.
unfoldable pub category_rank : SourceCategory → ℕ
category_rank direct = 3
category_rank startup_board = 3
category_rank manual = 2
category_rank aggregator = 1

-- `namespace.split(":", 1)[0]`.
source_key : Str → Str
source_key [] = []
source_key (c ∷ s) = let rest = source_key s in if c == 58 then [] else c ∷ rest

or_aggregator : Option SourceCategory → SourceCategory
or_aggregator none = aggregator
or_aggregator (some c) = c

-- The registry, as the categories of its descriptors.
unfoldable pub registry_category : List (Str × SourceCategory) → Str → SourceCategory
unfolding source_key or_aggregator
registry_category registry namespace =
    let key = source_key namespace in
    if is_empty key then aggregator else or_aggregator (find key registry)

-- `merged.setdefault`.
unfoldable pub setdefault : Str → Str → State → State
setdefault k v [] = (k, v) ∷ []
setdefault k v ((j, w) ∷ m) = if eq_str k j then (j, w) ∷ m else (j, w) ∷ setdefault k v m

unfoldable pub merge_state : State → State → State
merge_state m [] = m
merge_state m ((k, v) ∷ s) = merge_state (setdefault k v m) s

unfoldable pub merge_all : State → List State → State
merge_all m [] = m
merge_all m (s ∷ ss) = merge_all (merge_state m s) ss

module _ (category_of : Str → SourceCategory) where
  -- `(-rank, namespace)`; no rank is above 3.
  abbrev pub key : Str → List Str
  key namespace = ((3 - category_rank (category_of namespace)) ∷ []) ∷ namespace ∷ []

  abbrev pub is_before : Str → Str → Bool
  is_before a b = le_list (list_order nat_order) (key a) (key b)

  -- `min`, which keeps the first of equal keys.
  unfoldable pub least : Str → State → Str
  least n [] = n
  least n ((u, v) ∷ m) = least (if is_before n u then n else u) m

  unfoldable pub with_version : Str → Option Str → Option (Str × Str)
  with_version n none = none
  with_version n (some v) = some (n, v)

  unfoldable pub select_from : State → Option (Str × Str)
  unfolding with_version
  select_from [] = none
  select_from ((n, v) ∷ m) = with_version (least n m) (find (least n m) ((n, v) ∷ m))

  unfoldable pub select_canonical_version : List State → Option (Str × Str)
  unfolding select_from
  select_canonical_version state_maps = select_from (merge_all [] state_maps)
