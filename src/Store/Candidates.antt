-- ===== src/Store/Candidates.antt =====
-- The candidates of the marking, as its documentation names them
-- (webapp/backend/sources/runstore.py, `mark_absent_for_scope`).
use jobhunt.Prelude.{◌≡◌, refl, arith, Bool, false, not, ◌&&◌, Str, List, [], ◌∷◌, is_some}
use jobhunt.Store.Presence.{
  Posting, Membership, Evidence, is_owned, is_delivered, is_seen, observes, is_lost,
}

-- Owned by the source, minus delivered by the attempt, minus observed by anything in the run.
abbrev pub is_candidate : Evidence → Str → Str → Str → Posting → Bool
is_candidate e run_uid source source_run_id p =
    not (is_some p.absent_since)
    && (is_owned e.aliases source p.posting_id
        && (not (is_delivered e.run_postings run_uid source_run_id p.posting_id)
            && not (is_seen e.run_postings run_uid p.posting_id)))

-- A delivery by an attempt of the run is an observation in the run.
unseen_undelivered :
    (members : List Membership) (run_uid source_run_id posting_id : Str)
    → is_seen members run_uid posting_id ≡ false
    → is_delivered members run_uid source_run_id posting_id ≡ false
unfolding is_seen is_delivered observes
unseen_undelivered [] run_uid source_run_id posting_id h = refl
unseen_undelivered (m ∷ members) run_uid source_run_id posting_id h =
    ground (arith, h, unseen_undelivered members run_uid source_run_id posting_id)

-- The WHERE clause of the marking leaves the attempt's own deliveries out of its test, and still
-- selects exactly the documented candidates, whichever attempt is named.
pub is_lost-candidate :
    (e : Evidence) (run_uid source source_run_id : Str) (p : Posting)
    → is_lost e run_uid source p ≡ is_candidate e run_uid source source_run_id p
unfolding is_lost
is_lost-candidate e run_uid source source_run_id p =
    ground (arith, unseen_undelivered e.run_postings run_uid source_run_id p.posting_id)
