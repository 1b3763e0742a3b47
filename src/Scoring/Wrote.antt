-- ===== src/Scoring/Wrote.antt =====
-- What the statements of a scoring pass write, given the sorted items
-- (webapp/backend/sources/scoring.py).
use jobhunt.Prelude.{
  ◌≡◌, refl, ap, ap₂, ◌∙◌, arith, Bool, true, false, ◌&&◌, if◌then◌else◌, Option, none, some, Str,
  List, [], ◌∷◌, ◌++◌, map, all, mem, length, count_if, All, Bool-cases, inl, inr, text_or,
}
use jobhunt.Store.Rows.{update}
use jobhunt.Contract.Text.{Platform}
use jobhunt.Scoring.Profile.{Profile}
use jobhunt.Scoring.Texts.{Readers}
use jobhunt.Scoring.Rubric.{ScoreResult, reconstruct_tier}
use jobhunt.Scoring.Odds.{OddsResult}
use jobhunt.Scoring.Validate.{score_one}
use jobhunt.Scoring.Accepted.{score_one-stored}
use jobhunt.Scoring.Replay.{reconstruct_tier-score_row_core}
use jobhunt.Scoring.Persist.{
  WorkRow, ScoreVersion, ScoreOutcome, Persisted, saved, feature_error, integrity_error, Batch,
  Planned, Sorted, planned, input_digest, new_by_version, version_of, score_item, inserts, mark,
  superseded, revived, link, olds, row_ids, is_unique, refers, is_blocked, is_filled, inserted,
  made_current, keys_hold, write_rows,
}
use jobhunt.Scoring.Replaced.{last_landed, find-new_by_version}
use jobhunt.Scoring.Marks.{
  successor, marks, cleared, map-link, map-current, update-append, unique-link, unique-made_current,
  broken-keys,
}

-- A stored score less the two columns that tell whether it is still the current one.
abbrev pub content : ScoreVersion → ScoreVersion
content r = record r { superseded_at = none; superseded_by = none }

abbrev pub IsReplayed : ScoreVersion → Type 0
IsReplayed r = reconstruct_tier r.features ≡ some r.tier

map-update :
    (p : ScoreVersion → Bool) (f : ScoreVersion → ScoreVersion) (table : List ScoreVersion)
    → ((r : ScoreVersion) → content (f r) ≡ content r)
    → map content (update p f table) ≡ map content table
map-update p f [] h = refl
map-update p f (r ∷ rs) h = elim (Bool-cases (p r)) [
  | inl e ↦ rw (e, h r, map-update p f rs h) refl
  | inr e ↦ rw (e, map-update p f rs h) refl
]

content-link :
    (landed m : List (Str × Str)) (table : List ScoreVersion)
    → map content (link landed m table) ≡ map content table
unfolding link
content-link landed [] table = refl
content-link landed ((version, old) ∷ m) table =
    content-link landed m _ ∙ map-update _ _ table (λ r. refl)

map-append : (xs ys : List ScoreVersion) → map content (xs ++ ys) ≡ map content xs ++ map content ys
map-append [] ys = refl
map-append (x ∷ xs) ys = ap (λ l. content x ∷ l) (map-append xs ys)

-- What the last statement makes of the marks of a row.
abbrev pub linked :
    (Str → Option Str) → List (Str × Str) → Str → Option Str × Option Str → Option Str × Option Str
linked landed old id (x, y) = (x, successor landed old id y)

module _ (py : Platform) (pf : Profile) (re : Readers) (b : Batch) where
  abbrev pub scored_item : Planned → ScoreResult × OddsResult
  scored_item p = score_one pf re p.item.row (text_or p.item.description []) p.item.is_aggregator

  abbrev pub row_of : Planned → ScoreVersion
  row_of p = version_of pf re b p (scored_item p) (input_digest py p.item)

  score_item-row_of : (p : Planned) → score_item pf re b py p ≡ inr (row_of p)
  unfolding score_item
  score_item-row_of p =
      let (f, g) =
        score_one-stored pf re p.item.row (text_or p.item.description []) p.item.is_aggregator in
      rw (f, g) refl

  -- Scoring never refuses what it has computed.
  pub inserts-row_of : (ps : List Planned) → inserts pf re b py ps ≡ inr (map row_of ps)
  unfolding inserts
  inserts-row_of [] = refl
  inserts-row_of (p ∷ ps) = rw (score_item-row_of p, inserts-row_of ps) refl

  row_of-IsReplayed : (p : Planned) → IsReplayed (row_of p)
  unfolding version_of score_one
  row_of-IsReplayed p =
      reconstruct_tier-score_row_core pf re p.item.row (text_or p.item.description [])
        (some p.item.is_aggregator)

  pub rows-replay : (ps : List Planned) → All IsReplayed (map row_of ps)
  rows-replay [] = tt
  rows-replay (p ∷ ps) = (row_of-IsReplayed p, rows-replay ps)

  pub rows-content : (ps : List Planned) → map content (map row_of ps) ≡ map row_of ps
  unfolding version_of
  rows-content [] = refl
  rows-content (p ∷ ps) = ap (λ l. row_of p ∷ l) (rows-content ps)

  length-rows : (ps : List Planned) → length (map row_of ps) ≡ length ps
  length-rows [] = refl
  length-rows (p ∷ ps) = omega (arith, length-rows ps)

  pub length-planned :
      (table : List ScoreVersion) (is : List WorkRow)
      → length (map row_of (map (planned py b table) is)) ≡ length is
  length-planned table [] = refl
  length-planned table (i ∷ is) = omega (arith, length-planned table is)

  -- A new row is current.
  rows-marks :
      (landed : Str → Option Str) (old : List (Str × Str)) (ids : List Str) (ps : List Planned)
      → map (λ r. linked landed old r.score_version_id (marks r)) (mark revived ids (map row_of ps))
        ≡ map (λ r. linked landed old r.score_version_id (none, none)) (map row_of ps)
  unfolding version_of
  rows-marks landed old ids [] = refl
  rows-marks landed old ids (p ∷ ps) = elim (Bool-cases (mem p.row_id ids)) [
    | inl e ↦ rw (e, rows-marks landed old ids ps) refl
    | inr e ↦ rw (e, rows-marks landed old ids ps) refl
  ]

  map-append_of :
      (g : ScoreVersion → Option Str × Option Str) (xs ys : List ScoreVersion)
      → map g (xs ++ ys) ≡ map g xs ++ map g ys
  map-append_of g [] ys = refl
  map-append_of g (x ∷ xs) ys = ap (λ l. g x ∷ l) (map-append_of g xs ys)

  -- What the statements wrote, when no constraint stopped them.
  abbrev pub Wrote : Sorted → List (Str × Str) → List ScoreVersion → Persisted → Type 0
  Wrote s old table (saved o after) =
      (o.scored ≡ length (map row_of s.fresh))
      × (o.reused ≡ s.reused)
      × (o.recurrent ≡ length s.reverted)
      × (o.superseded ≡ length old)
      × (o.blocked ≡ count_if is_blocked (map row_of s.fresh))
      × (o.score_version_ids ≡ row_ids (s.fresh ++ s.reverted))
      × (map content after ≡ map content table ++ map content (map row_of s.fresh))
      × (map marks after
          ≡ map
              (λ r. linked (last_landed (s.fresh ++ s.reverted)) old r.score_version_id (
                cleared (mem r.score_version_id (row_ids s.reverted))
                  (mem r.score_version_id (olds old)) b.at r))
              table
            ++ map
                (λ r.
                  linked (last_landed (s.fresh ++ s.reverted)) old r.score_version_id (none, none))
                (map row_of s.fresh))
      × (is_unique table ≡ true → is_unique after ≡ true)
  Wrote s old table (feature_error e) = ⊥
  Wrote s old table integrity_error =
      is_unique (inserted b old (map row_of s.fresh) table)
        && (is_unique (made_current b s old (map row_of s.fresh) table)
            && all (refers b.parents) (map row_of s.fresh))
      ≡ false

  if-Wrote :
      (keys : Bool) (s : Sorted) (old : List (Str × Str)) (table : List ScoreVersion)
      (o : ScoreOutcome) (after : List ScoreVersion)
      → keys_hold b s old (map row_of s.fresh) table ≡ keys
      → (keys ≡ true → Wrote s old table (saved o after))
      → Wrote s old table (if keys then saved o after else integrity_error)
  if-Wrote true s old table o after e h = h refl
  if-Wrote false s old table o after e h = broken-keys b s old (map row_of s.fresh) table e

  pub write_rows-Wrote :
      (s : Sorted) (old : List (Str × Str)) (table : List ScoreVersion)
      → (is_filled (map row_of s.fresh) ≡ false → is_filled s.reverted ≡ false → old ≡ [])
      → Wrote s old table (write_rows b s old (map row_of s.fresh) table)
  unfolding write_rows
  write_rows-Wrote s old table h =
      let rows = map row_of s.fresh in
      let dict = new_by_version (s.fresh ++ s.reverted) in
      let landed = last_landed (s.fresh ++ s.reverted) in
      let retired = mark (superseded b.at) (olds old) table in
      if-Wrote _ s old table _ _ refl (λ k. (
        refl,
        refl,
        refl,
        refl,
        refl,
        refl,
        content-link dict old _
            ∙ map-update _ revived _ (λ r. refl)
            ∙ map-append retired rows
            ∙ ap (λ l. l ++ map content rows) (map-update _ (superseded b.at) table (λ r. refl)),
        map-link dict landed (find-new_by_version (s.fresh ++ s.reverted)) old _
            ∙ ap (map (λ r. linked landed old r.score_version_id (marks r)))
                (update-append _ revived retired rows)
            ∙ map-append_of _ (mark revived (row_ids s.reverted) retired) _
            ∙ ap₂ (λ x y. x ++ y)
                (map-current (linked landed old) b.at (row_ids s.reverted) (olds old) table)
                (rows-marks landed old (row_ids s.reverted) s.fresh),
        λ u.
            unique-link dict old _
            ∙ unique-made_current b s.reused s.reverted old rows table s.fresh h k u,
      ))
