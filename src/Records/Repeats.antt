-- ===== src/Records/Repeats.antt =====
-- A batch that is written twice in a run
-- (webapp/backend/sources/runstore.py).
use jobhunt.Prelude.{◌≡◌, sym, subst, arith, List, length}
use jobhunt.Contract.Text.{Platform}
use jobhunt.Contract.Posting.{NormalizedPosting}
use jobhunt.Records.Tables.{Tables}
use jobhunt.Records.Identity.{Delivery, identify_all}
use jobhunt.Records.Content.{Runs, write_records, start, finished, content_of}
use jobhunt.Records.Decides.{identify_all-Settled}
use jobhunt.Records.Replay.{posting_ids, identify_all-again}
use jobhunt.Records.Deliveries.{
  Present, deliver_all-Present, deliver_all-accepted, deliver_all-again,
}

-- A batch is written for `d`, then again for `e`, a delivery of the same run: a replayed page, or a
-- later attempt.
module _ (pf : Platform) (runs : Runs) (d e : Delivery) where
  -- When a batch of any records is written for an attempt and then again for any attempt of the
  -- same run, the second writing accepts nothing, creates nothing, and leaves the postings and the
  -- aliases as they are, and as many membership rows as there were.
  pub replay_adds_nothing :
      (records : List NormalizedPosting) (t : Tables)
      → e.run_uid ≡ d.run_uid
      → ((write_records pf runs e records (write_records pf runs d records t).0).1.accepted ≡ 0)
        × ((write_records pf runs e records (write_records pf runs d records t).0).1.created ≡ 0)
        × ((write_records pf runs e records (write_records pf runs d records t).0).0.postings
            ≡ (write_records pf runs d records t).0.postings)
        × ((write_records pf runs e records (write_records pf runs d records t).0).0.aliases
            ≡ (write_records pf runs d records t).0.aliases)
        × (length (write_records pf runs e records (write_records pf runs d records t).0).0.members
            ≡ length (write_records pf runs d records t).0.members)
  unfolding write_records content_of start finished
  replay_adds_nothing records t same =
      let once = write_records pf runs d records t in
      let one = identify_all pf d records (start t) in
      let (kept, ids) =
        identify_all-again pf d e records (start t) (start once.0)
          (identify_all-Settled pf d records (start t)) in
      let two = identify_all pf e records (start once.0) in
      let present =
        subst (λ u. Present u once.0.members (posting_ids two.1)) (sym same)
          (subst (Present d.run_uid once.0.members) (sym ids)
            (deliver_all-Present pf runs d one.1 _)) in
      let none_accepted = deliver_all-again pf runs e two.1 _ present in
      (
        none_accepted,
        kept.2,
        kept.1,
        kept.0,
        omega (arith, deliver_all-accepted pf runs e two.1 _, none_accepted),
      )
