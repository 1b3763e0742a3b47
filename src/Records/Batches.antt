-- ===== src/Records/Batches.antt =====
-- What a written batch leaves behind: `write_records` as a whole
-- (webapp/backend/sources/runstore.py).
use jobhunt.Prelude.{◌≡◌, refl, subst, true, Option, none, some, Str, List, [], ◌∷◌, any, All}
use jobhunt.Contract.Text.{Platform}
use jobhunt.Contract.Posting.{IdentityClaim, NormalizedPosting, identity_claims}
use jobhunt.Records.Tables.{AliasRow, Tables, active_alias, is_member, is_alias_of}
use jobhunt.Records.Identity.{
  Delivery, Identified, Pass, attached_to, identify, identify_all, cons_some, with_alias,
}
use jobhunt.Records.Content.{Runs, write_records, start, finished, content_of}
use jobhunt.Records.Growth.{Extends, identify_all-Grown, first_where-Extends}
use jobhunt.Records.Decides.{Settled, Decided, AllSome, identify_all-Settled}
use jobhunt.Records.Replay.{posting_ids, All-cons_some_inv}
use jobhunt.Records.Deliveries.{Present, deliver_all-versions, deliver_all-Present}

module _ (pf : Platform) (runs : Runs) (d : Delivery) where
  -- After a batch is written, every row of the postings, the aliases, the conflict evidence and the
  -- versions stands where it stood, unchanged; further rows stand only after them.
  pub write_records_appends :
      (records : List NormalizedPosting) (t : Tables)
      → Extends t.postings (write_records pf runs d records t).0.postings
        × Extends t.aliases (write_records pf runs d records t).0.aliases
        × Extends t.evidence (write_records pf runs d records t).0.evidence
        × Extends t.versions (write_records pf runs d records t).0.versions
  unfolding write_records content_of start finished
  write_records_appends records t =
      let grown = identify_all-Grown pf d records (start t) in
      (
        grown.0,
        grown.1,
        grown.2,
        deliver_all-versions pf runs d (identify_all pf d records (start t)).1 _,
      )

  -- A claim whose active alias named a posting names that posting after any batch is written: a
  -- batch re-points no alias, whatever its records claim.
  pub write_records_repoints_nothing :
      (records : List NormalizedPosting) (t : Tables) (c : IdentityClaim) (a : AliasRow)
      → active_alias t.aliases c ≡ some a
      → active_alias (write_records pf runs d records t).0.aliases c ≡ some a
  unfolding active_alias
  write_records_repoints_nothing records t c a h =
      first_where-Extends (is_alias_of c) t.aliases _ a (write_records_appends records t).1 h

-- The record of a claim is in the run: its first claim names a posting, and the posting is a member.
abbrev pub InRun : Str → Tables → List IdentityClaim → Type 0
InRun run_uid t [] = Unit
InRun run_uid t (c ∷ cs) =
    (a : AliasRow) × (active_alias t.aliases c ≡ some a)
    × (any (is_member run_uid a.posting_id) t.members ≡ true)

All-cons_some_ids :
    (P : Str → Type 0) (o : Option (NormalizedPosting × Identified))
    (xs : List (NormalizedPosting × Identified))
    → All P (posting_ids (cons_some o xs))
    → All P (posting_ids (cons_some o [])) × All P (posting_ids xs)
All-cons_some_ids P none xs hs = (tt, hs)
All-cons_some_ids P (some x) xs hs = ((hs.0, tt), hs.1)

module _ (pf : Platform) (d : Delivery) where
  one-InRun :
      (t : Tables) (r : NormalizedPosting) (cs : List IdentityClaim) (s : Pass)
      → identity_claims pf r ≡ cs
      → AllSome (Settled pf t.aliases) (identify pf d r cs s).1
      → Present d.run_uid t.members (posting_ids (cons_some (identify pf d r cs s).1 []))
      → InRun d.run_uid t cs
  unfolding identify attached_to with_alias
  one-InRun t r [] s q h k = tt
  one-InRun t r (c ∷ cs) s q h k =
      let (a, e, p) = (subst (Decided t.aliases _) q h).0 in (a, e, rw p k.0)

  identify_all-InRun :
      (t : Tables) (rs : List NormalizedPosting) (s : Pass)
      → All (Settled pf t.aliases) (identify_all pf d rs s).1
      → Present d.run_uid t.members (posting_ids (identify_all pf d rs s).1)
      → All (λ r. InRun d.run_uid t (identity_claims pf r)) rs
  unfolding identify_all
  identify_all-InRun t [] s h k = tt
  identify_all-InRun t (r ∷ rs) s h k =
      let one = identify pf d r (identity_claims pf r) s in
      let rest = identify_all pf d rs one.0 in
      let parts = All-cons_some_inv _ one.1 rest.1 h in
      let seen = All-cons_some_ids _ one.1 rest.1 k in
      (
        one-InRun t r (identity_claims pf r) s refl parts.0 seen.0,
        identify_all-InRun t rs one.0 parts.1 seen.1,
      )

module _ (pf : Platform) (runs : Runs) (d : Delivery) where
  -- After a batch is written, each of its records that makes an identity claim is in the run: its
  -- first claim has an active alias, and the posting of that alias has a membership row in the run.
  pub write_records-InRun :
      (records : List NormalizedPosting) (t : Tables)
      → All
          (λ r. InRun d.run_uid (write_records pf runs d records t).0 (identity_claims pf r))
          records
  unfolding write_records content_of start finished
  write_records-InRun records t =
      identify_all-InRun pf d (write_records pf runs d records t).0 records (start t)
        (identify_all-Settled pf d records (start t))
        (deliver_all-Present pf runs d (identify_all pf d records (start t)).1 _)
