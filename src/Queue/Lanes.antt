-- ===== src/Queue/Lanes.antt =====
-- The counts of a queue, the gate that bins every job, and the keys of the two lanes
-- (webapp/backend/ranking.py, `build_queue`).
use mathlib.Core.Logic.{ite}
use jobhunt.Prelude.{
  ℕ, ◌+◌, if◌then◌else◌, Bool, Option, none, some, Str, List, [], ◌∷◌, ◌++◌, map, ℤ, neg, keep,
  leb_ℤ, sort_by, list_order, int_order,
}
use jobhunt.Queue.Job.{JobLight, QueuePolicy, Python}
use jobhunt.Queue.Freshness.{Freshness, Bucket, bucket_rank, freshness_of}
use jobhunt.Queue.Eligibility.{
  Reason, Reason-discrete, Detail, stale_posting, parse_odds, match_rank, competition_rank,
  odds_rank, ineligibility,
}

-- `counts[reason] = counts.get(reason, 0) + 1`, in the dict's insertion order.
abbrev pub Counts : Type 0
Counts = List (Reason × ℕ)

unfoldable pub count : Reason → Counts → Counts
count r [] = (r, 1) ∷ []
count r ((q, n) ∷ cs) = ite (Reason-discrete q r) ((q, n + 1) ∷ cs) ((q, n) ∷ count r cs)

-- `sum(counts.values())`.
unfoldable pub total : Counts → ℕ
total [] = 0
total ((q, n) ∷ cs) = n + total cs

abbrev pub Item : Type 0
Item = JobLight × Freshness

pub record Exclusion : Type 0 where
  pub url_b64 : Str
  pub title : Option Str
  pub company : Option Str
  pub reason : Reason
  pub detail : Option Detail

abbrev pub excluded_row : JobLight → Reason → Option Detail → Exclusion
excluded_row job reason detail = record {
  url_b64 = job.url_b64;
  title = job.title;
  company = job.company;
  reason = reason;
  detail = detail;
}

pub record Gate : Type 0 where
  pub eligible : List Item
  pub counts : Counts
  pub detailed : List Exclusion

abbrev pub is_stale : Bucket → Bool
is_stale Bucket.stale = Bool.true
is_stale _ = Bool.false

-- One round of the eligibility and freshness loop.
unfoldable pub admit : Python → QueuePolicy → Str → ℕ → JobLight → Gate → Gate
admit py policy today_iso today job g = elim (ineligibility job today_iso policy) [
  | some (reason, detail) ↦ record g { counts = count reason g.counts }
  | none ↦
      let fresh = freshness_of py job today policy in
      if is_stale fresh.bucket
      then record g {
        counts = count stale_posting g.counts;
        detailed =
            g.detailed
            ++ excluded_row job stale_posting (some (Detail.age fresh.age_days fresh.basis)) ∷ [];
      }
      else record g { eligible = g.eligible ++ (job, fresh) ∷ [] }
]

unfoldable pub admit_all : Python → QueuePolicy → Str → ℕ → List JobLight → Gate → Gate
admit_all py policy today_iso today [] g = g
admit_all py policy today_iso today (job ∷ jobs) g =
    admit_all py policy today_iso today jobs (admit py policy today_iso today job g)

-- A tuple key is the list of its numbers, the code points of the url last: the numbers before
-- the url are as many in every key of a lane, so both compare the same way.
abbrev pub Key : Type 0
Key = List ℤ

abbrev score_keys : Option ℤ → Key → Key
score_keys none rest = ℤ.pos 1 ∷ ℤ.pos 0 ∷ rest
score_keys (some score) rest = ℤ.pos 0 ∷ neg score ∷ rest

unfoldable pub bank_key : Item → Key
bank_key (job, fresh) =
    let (m, c) = parse_odds job.odds in
    ℤ.pos (competition_rank c)
    ∷ ℤ.pos (match_rank m)
    ∷ ℤ.pos (bucket_rank fresh.bucket)
    ∷ score_keys job.odds_score (neg job.tier ∷ map ℤ.pos job.url_b64)

unfoldable pub aim_key : Item → Key
aim_key (job, fresh) =
    let (m, c) = parse_odds job.odds in
    neg job.tier
    ∷ ℤ.pos (odds_rank m c)
    ∷ ℤ.pos (bucket_rank fresh.bucket)
    ∷ score_keys job.odds_score (map ℤ.pos job.url_b64)

unfoldable pub bank_lane : List Item → List Item
bank_lane = sort_by (list_order int_order) bank_key

unfoldable pub is_aim : Item → Bool
is_aim (job, fresh) = leb_ℤ (ℤ.pos 4) job.tier

unfoldable pub aim_lane : List Item → List Item
unfolding is_aim
aim_lane eligible = sort_by (list_order int_order) aim_key (keep is_aim eligible)
