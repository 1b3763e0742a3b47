-- ===== src/Scoring/Marks.antt =====
-- When a stored score stops being current, and what it then names (webapp/backend/sources/scoring.py).
use jobhunt.Prelude.{
  ◌≡◌, refl, sym, ap, ◌∙◌, arith, Bool, true, false, ◌&&◌, ◌||◌, if◌then◌else◌, Option, none, some,
  Str, List, [], ◌∷◌, ◌++◌, map, any, all, append-nil, mem, Bool-cases, inl, inr,
}
use jobhunt.Runs.Profile.{find}
use jobhunt.Store.Rows.{update}
use jobhunt.Scoring.Persist.{
  ScoreVersion, Batch, Sorted, Planned, is_unique, clashes, mark, superseded, revived, link,
  inserted, made_current, is_filled, keys_hold, refers,
}

-- `superseded_by` of a row after the pairs of a version and its replaced row, given what it was.
unfoldable pub successor : (Str → Option Str) → List (Str × Str) → Str → Option Str → Option Str
successor landed [] id by = by
successor landed ((version, old) ∷ m) id by =
    successor landed m id (if mem id (old ∷ []) then landed version else by)

abbrev pub marks : ScoreVersion → Option Str × Option Str
marks r = (r.superseded_at, r.superseded_by)

map-link_one :
    (g : ScoreVersion → Option Str → Option Str × Option Str) (old : Str) (by : Option Str)
    (table : List ScoreVersion)
    → ((r : ScoreVersion) (x y : Option Str) → g (record r { superseded_by = x }) y ≡ g r y)
    → map
        (λ r. g r r.superseded_by)
        (mark (λ (r : ScoreVersion). record r { superseded_by = by }) (old ∷ []) table)
      ≡ map (λ r. g r (if mem r.score_version_id (old ∷ []) then by else r.superseded_by)) table
map-link_one g old by [] h = refl
map-link_one g old by (r ∷ rs) h = elim (Bool-cases (mem r.score_version_id (old ∷ []))) [
  | inl e ↦ rw (e, h r by by, map-link_one g old by rs h) refl
  | inr e ↦ rw (e, map-link_one g old by rs h) refl
]

-- The last statement, where `landed` reads a version in the dict of the rows that land.
pub map-link :
    (dict : List (Str × Str)) (landed : Str → Option Str)
    → ((version : Str) → find version dict ≡ landed version)
    → (m : List (Str × Str)) (table : List ScoreVersion)
    → map marks (link dict m table)
      ≡ map (λ r. (r.superseded_at, successor landed m r.score_version_id r.superseded_by)) table
unfolding link successor
map-link dict landed h [] table = refl
map-link dict landed h ((version, old) ∷ m) table =
    map-link dict landed h m _
    ∙ map-link_one (λ r y. (r.superseded_at, successor landed m r.score_version_id y)) old
        (find version dict) table (λ r x y. refl)
    ∙ ap
        (λ o.
          map
            (λ r. (
              r.superseded_at,
              successor landed m r.score_version_id
                  (if mem r.score_version_id (old ∷ []) then o else r.superseded_by),
            ))
            table)
        (h version)

-- The marks of a row on file before the last statement: a revived row has none.
abbrev pub cleared : Bool → Bool → Str → ScoreVersion → Option Str × Option Str
cleared revives retires at r =
    if revives then (none, none) else if retires then (some at, none) else marks r

pub map-current :
    (g : Str → Option Str × Option Str → Option Str × Option Str) (at : Str) (ids old : List Str)
    (table : List ScoreVersion)
    → map (λ r. g r.score_version_id (marks r)) (mark revived ids (mark (superseded at) old table))
      ≡ map
          (λ r.
            g r.score_version_id
              (cleared (mem r.score_version_id ids) (mem r.score_version_id old) at r))
          table
map-current g at ids old [] = refl
map-current g at ids old (r ∷ rs) = elim (Bool-cases (mem r.score_version_id old)) [
  | inl e ↦ elim (Bool-cases (mem r.score_version_id ids)) [
    | inl f ↦ rw (e, f, map-current g at ids old rs) refl
    | inr f ↦ rw (e, f, map-current g at ids old rs) refl
  ]
  | inr e ↦ elim (Bool-cases (mem r.score_version_id ids)) [
    | inl f ↦ rw (e, f, map-current g at ids old rs) refl
    | inr f ↦ rw (e, f, map-current g at ids old rs) refl
  ]
]

pub update-append :
    (p : ScoreVersion → Bool) (f : ScoreVersion → ScoreVersion) (xs ys : List ScoreVersion)
    → update p f (xs ++ ys) ≡ update p f xs ++ update p f ys
update-append p f [] ys = refl
update-append p f (x ∷ xs) ys = ap (λ l. (if p x then f x else x) ∷ l) (update-append p f xs ys)

-- A row less what its keys do not read.
abbrev unlinked : ScoreVersion → ScoreVersion
unlinked r = record r { superseded_by = none }

any-unlinked :
    (r : ScoreVersion) (table : List ScoreVersion)
    → any (clashes (unlinked r)) (map unlinked table) ≡ any (clashes r) table
any-unlinked r [] = refl
any-unlinked r (x ∷ xs) = ap (λ b. clashes r x || b) (any-unlinked r xs)

unique-unlinked : (table : List ScoreVersion) → is_unique (map unlinked table) ≡ is_unique table
unfolding is_unique
unique-unlinked [] = refl
unique-unlinked (r ∷ rs) = rw (any-unlinked r rs, unique-unlinked rs) refl

unlinked-update :
    (p : ScoreVersion → Bool) (by : Option Str) (table : List ScoreVersion)
    → map unlinked (update p (λ (r : ScoreVersion). record r { superseded_by = by }) table)
      ≡ map unlinked table
unlinked-update p by [] = refl
unlinked-update p by (r ∷ rs) = elim (Bool-cases (p r)) [
  | inl e ↦ rw (e, unlinked-update p by rs) refl
  | inr e ↦ rw (e, unlinked-update p by rs) refl
]

unlinked-link :
    (landed m : List (Str × Str)) (table : List ScoreVersion)
    → map unlinked (link landed m table) ≡ map unlinked table
unfolding link
unlinked-link landed [] table = refl
unlinked-link landed ((version, old) ∷ m) table =
    unlinked-link landed m _ ∙ unlinked-update _ _ table

pub unique-link :
    (landed m : List (Str × Str)) (table : List ScoreVersion)
    → is_unique (link landed m table) ≡ is_unique table
unique-link landed m table =
    sym (unique-unlinked (link landed m table))
    ∙ ap is_unique (unlinked-link landed m table)
    ∙ unique-unlinked table

mark-nothing :
    (f : ScoreVersion → ScoreVersion) (table : List ScoreVersion) → mark f [] table ≡ table
mark-nothing f [] = refl
mark-nothing f (r ∷ rs) = ap (λ l. r ∷ l) (mark-nothing f rs)

and-first : (a b c : Bool) → (a && b) && c ≡ true → a ≡ true
and-first a b c h = ground arith

and-last : (a b : Bool) → a && b ≡ true → b ≡ true
and-last a b h = ground arith

-- A table that has its keys keeps them, when the keys hold after each statement that is executed.
pub unique-made_current :
    (b : Batch) (n : _) (reverted : List Planned) (old : List (Str × Str))
    (rows table : List ScoreVersion) (fresh : List Planned)
    → (is_filled rows ≡ false → is_filled reverted ≡ false → old ≡ [])
    → keys_hold b (record { reused = n; fresh = fresh; reverted = reverted }) old rows table ≡ true
    → is_unique table ≡ true
    → is_unique
        (made_current b (record { reused = n; fresh = fresh; reverted = reverted }) old rows table)
      ≡ true
unique-made_current b n [] old [] table fresh h k u =
    rw
      (
        h refl refl,
        mark-nothing revived (mark (superseded b.at) [] table ++ []),
        append-nil (mark (superseded b.at) [] table),
        mark-nothing (superseded b.at) table,
      )
      u
unique-made_current b n [] old (r ∷ rs) table fresh h k u =
    rw (mark-nothing revived (inserted b old (r ∷ rs) table)) (and-first _ _ _ k)
unique-made_current b n (q ∷ qs) old rows table fresh h k u = and-last _ _ k

-- A refusal is that of one of the statements: a key of what it leaves, or a reference of a new row.
pub broken-keys :
    (b : Batch) (s : Sorted) (old : List (Str × Str)) (rows table : List ScoreVersion)
    → keys_hold b s old rows table ≡ false
    → is_unique (inserted b old rows table)
        && (is_unique (made_current b s old rows table) && all (refers b.parents) rows)
      ≡ false
broken-keys b s old rows table h = ground arith
