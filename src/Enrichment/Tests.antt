-- ===== src/Enrichment/Tests.antt =====
-- Runs of a pass over two postings (webapp/backend/sources/enrichment.py).
use jobhunt.Prelude.{
  ◌≡◌, refl, Bool, true, false, none, some, Str, codes, List, [], ◌∷◌, Option, ◌++◌,
}
use jobhunt.Queue.Freshness.{strip}
use jobhunt.Queue.Job.{is_space}
use jobhunt.Contract.Text.{starts_with}
use jobhunt.Scoring.Texts.{contains}
use jobhunt.Scoring.Tests.{profile, readers}
use jobhunt.Enrichment.Prefilter.{IsDomestic, probed}
use jobhunt.Enrichment.Pass.{
  CheapRow, FetchStatus, available, enrich_run, Accounted, enrich_run-Accounted, enrich_run-raises,
}

abbrev at : Bool → CheapRow
at remote = record {
  posting_version_id = codes "v1";
  posting = record {
    title = codes "support engineer";
    company = codes "acme";
    location = codes "austin, tx";
    remote = remote;
  };
  url = some (codes "acme/1");
}

abbrev fetched : Str → FetchStatus
fetched u = available

abbrev never : Str → Bool
never id = false

abbrev remote_ids : List (Str × Option CheapRow)
remote_ids = (codes "p1", some (at true)) ∷ (codes "p2", none) ∷ []

austin : IsDomestic readers profile (at false).posting
unfolding strip is_space contains starts_with
austin = record { on_site = refl; placed = refl; not_abroad = refl }

enrich_run-Accounted_example :
    Accounted (enrich_run readers (probed profile) fetched never [] remote_ids)
enrich_run-Accounted_example =
    enrich_run-Accounted readers fetched never [] (probed profile) remote_ids

enrich_run-raises_example :
    enrich_run readers
      (probed profile)
      fetched
      never
      []
      (remote_ids ++ (codes "p3", some (at false)) ∷ [])
    ≡ none
enrich_run-raises_example =
    enrich_run-raises readers fetched never [] profile remote_ids [] (codes "p3") (at false) austin
