-- ===== src/Records/Counts.antt =====
-- The counts of a written batch: `write_records` and its outcome
-- (webapp/backend/sources/runstore.py).
use jobhunt.Prelude.{
  ◌+◌, ◌≡◌, refl, arith, Option, none, some, List, [], ◌∷◌, any, if◌then◌else◌, Bool-cases, inl,
  inr, length, length-append,
}
use jobhunt.Contract.Text.{Platform}
use jobhunt.Contract.Posting.{IdentityClaim, NormalizedPosting, identity_claims}
use jobhunt.Records.Tables.{PostingRow, AliasRow, Tables, is_posting}
use jobhunt.Records.Identity.{
  Delivery, Identified, Pass, posting_id_for_claim, resolve, resolving, first_hit, attached_to,
  identify, identify_all, cons_some,
}
use jobhunt.Records.Content.{Runs, write_records, start, finished, content_of, RecordOutcome}
use jobhunt.Records.Deliveries.{deliver_all-counts, deliver_all-accepted}

module _ (pf : Platform) (d : Delivery) where
  resolve-created :
      (c : IdentityClaim) (o : Option AliasRow) (postings : List PostingRow)
      → length (resolve pf d c o postings).1
        ≡ length postings + (if (resolve pf d c o postings).0.first_seen_in_run then 1 else 0)
  unfolding resolve
  resolve-created c (some a) postings = omega arith
  resolve-created c none postings =
      elim (Bool-cases (any (is_posting (posting_id_for_claim pf c)) postings)) [
        | inl e ↦ rw e (omega arith)
        | inr e ↦ rw e (length-append postings _)
      ]

  -- A record is resolved or skipped, and the created count is the growth of the postings.
  identify-counts :
      (r : NormalizedPosting) (cs : List IdentityClaim) (s : Pass)
      → (length (cons_some (identify pf d r cs s).1 []) + (identify pf d r cs s).0.skipped
          ≡ s.skipped + 1)
        × ((identify pf d r cs s).0.created + length s.postings
            ≡ s.created + length (identify pf d r cs s).0.postings)
  unfolding identify attached_to
  identify-counts r [] s = (omega arith, refl)
  identify-counts r (c ∷ cs) s = (
    omega arith,
    grind (arith, resolve-created c (first_hit s.aliases (resolving (c ∷ cs))) s.postings),
  )

  length-cons_some :
      (o : Option (NormalizedPosting × Identified)) (xs : List (NormalizedPosting × Identified))
      → length (cons_some o xs) ≡ length (cons_some o []) + length xs
  length-cons_some none xs = omega arith
  length-cons_some (some x) xs = omega arith

  identify_all-counts :
      (rs : List NormalizedPosting) (s : Pass)
      → (length (identify_all pf d rs s).1 + (identify_all pf d rs s).0.skipped
          ≡ s.skipped + length rs)
        × ((identify_all pf d rs s).0.created + length s.postings
            ≡ s.created + length (identify_all pf d rs s).0.postings)
  unfolding identify_all
  identify_all-counts [] s = (omega arith, refl)
  identify_all-counts (r ∷ rs) s =
      let one = identify pf d r (identity_claims pf r) s in
      grind (
        arith,
        identify-counts r (identity_claims pf r) s,
        identify_all-counts rs one.0,
        length-cons_some one.1 (identify_all pf d rs one.0).1,
      )

-- The counts of a written batch.
abbrev pub IsAccounted : List NormalizedPosting → Tables → Tables × RecordOutcome → Type 0
IsAccounted records before (after, out) =
    (out.received ≡ length records)
    × (out.accepted + out.duplicates + out.skipped ≡ out.received)
    × (out.accepted + length before.members ≡ length after.members)
    × (out.created + length before.postings ≡ length after.postings)

module _ (pf : Platform) (runs : Runs) (d : Delivery) where
  -- Writing a batch of any records to any tables receives each of them, and puts each of them in
  -- one of the counts accepted, duplicates and skipped; the accepted ones are the membership rows
  -- that the batch added, and the created ones the postings that it added.
  pub write_records_accounts :
      (records : List NormalizedPosting) (t : Tables)
      → IsAccounted records t (write_records pf runs d records t)
  unfolding write_records content_of start finished
  write_records_accounts records t =
      let one = identify_all pf d records (start t) in
      let n = identify_all-counts pf d records (start t) in
      (
        refl,
        omega (arith, n.0, deliver_all-counts pf runs d one.1 _),
        omega (arith, deliver_all-accepted pf runs d one.1 _),
        omega (arith, n.1),
      )
