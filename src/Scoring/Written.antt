-- ===== src/Scoring/Written.antt =====
-- What a pass of scoring leaves in the table (webapp/backend/sources/scoring.py).
use jobhunt.Prelude.{
  ◌≡◌, true, false, ◌&&◌, Option, none, Str, List, ◌++◌, map, any, all, keep, mem, length, count_if,
  All,
}
use jobhunt.Contract.Text.{Platform}
use jobhunt.Scoring.Profile.{Profile}
use jobhunt.Scoring.Texts.{Readers}
use jobhunt.Scoring.Persist.{
  WorkRow, ScoreVersion, Persisted, saved, feature_error, integrity_error, Batch, Sorted, planned,
  replaced, mark, superseded, revived, olds, row_ids, is_unique, refers, is_blocked,
}
use jobhunt.Scoring.Fates.{is_inserted, is_revived, is_reused, landing}
use jobhunt.Scoring.Replaced.{replaces, last_landed}
use jobhunt.Scoring.Marks.{marks, cleared}
use jobhunt.Scoring.Wrote.{content, IsReplayed, linked, row_of, Wrote}

module _ (py : Platform) (pf : Profile) (re : Readers) (b : Batch) where
  -- The row of an inserted item.
  abbrev pub new_rows : List WorkRow → List ScoreVersion → List ScoreVersion
  new_rows items table =
      map (row_of py pf re b) (map (planned py b table) (keep (is_inserted py b table) items))

  abbrev pub revived_ids : List WorkRow → List ScoreVersion → List Str
  revived_ids items table = row_ids (map (planned py b table) (keep (is_revived py b table) items))

  -- What the last statement makes of the marks of a row: a replaced row names the one that landed.
  abbrev pub renamed :
      List WorkRow → List ScoreVersion → Str → Option Str × Option Str → Option Str × Option Str
  renamed items table =
      linked (last_landed (landing py b table items)) (replaced b table (landing py b table items))

  -- The marks of a row on file: none if its item has come back, the time of the pass if an item
  -- with another row lands on its version, else what they were.
  abbrev pub settled_marks :
      List WorkRow → List ScoreVersion → ScoreVersion → Option Str × Option Str
  settled_marks items table r = renamed items table r.score_version_id (
      cleared (mem r.score_version_id (revived_ids items table))
        (any (replaces b table r.score_version_id) (landing py b table items)) b.at r)

  abbrev pub new_marks : List WorkRow → List ScoreVersion → ScoreVersion → Option Str × Option Str
  new_marks items table r = renamed items table r.score_version_id (none, none)

  -- The counts are those of the items that are inserted, revived and left, of the replaced rows and
  -- of the new rows with a blocker; the earlier rows have
  -- the content they had, and the rows of the inserted items are behind them; each new row replays
  -- its tier; the marks are as told of each row alone; and unique keys stay unique. A refusal has a
  -- broken key or a missing reference.
  abbrev pub Written : List WorkRow → List ScoreVersion → Persisted → Type 0
  Written items table (saved o after) =
      (o.scored ≡ count_if (is_inserted py b table) items)
      × (o.recurrent ≡ count_if (is_revived py b table) items)
      × (o.reused ≡ count_if (is_reused py b table) items)
      × (o.superseded ≡ length (replaced b table (landing py b table items)))
      × (o.blocked ≡ count_if is_blocked (new_rows items table))
      × (o.score_version_ids ≡ row_ids (landing py b table items))
      × (map content after ≡ map content table ++ new_rows items table)
      × All IsReplayed (new_rows items table)
      × (map marks after
          ≡ map (settled_marks items table) table
            ++ map (new_marks items table) (new_rows items table))
      × (is_unique table ≡ true → is_unique after ≡ true)
  Written items table (feature_error e) = ⊥
  Written items table integrity_error =
      is_unique (
          mark (superseded b.at) (olds (replaced b table (landing py b table items))) table
          ++ new_rows items table)
        && (is_unique (
              mark revived (revived_ids items table) (
                mark (superseded b.at) (olds (replaced b table (landing py b table items))) table
                ++ new_rows items table))
            && all (refers b.parents) (new_rows items table))
      ≡ false

  abbrev fated : List WorkRow → List ScoreVersion → Sorted
  fated items table = record {
    reused = count_if (is_reused py b table) items;
    fresh = map (planned py b table) (keep (is_inserted py b table) items);
    reverted = map (planned py b table) (keep (is_revived py b table) items);
  }
