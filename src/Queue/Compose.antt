-- ===== src/Queue/Compose.antt =====
-- The interleaving of the two lanes, and `build_queue` (webapp/backend/ranking.py).
use mathlib.Core.Option.{Option}
use jobhunt.Prelude.{
  ℕ, ◌+◌, Bool, true, false, ◌&&◌, none, some, Str, List, [], ◌∷◌, ◌++◌, if◌then◌else◌, leb, ltb,
  length, mem, eq_str, list_order, nat_order, sort_by, ℤ,
}
use jobhunt.Queue.Job.{JobLight, QueuePolicy, Python, effective_uncertain_cap}
use jobhunt.Queue.Freshness.{Freshness}
use jobhunt.Queue.Eligibility.{
  Reason, Flag, Detail, company_cap, uncertainty_cap, beyond_cap, parse_odds, uncertainty_flags,
  company_key, reason_text,
}
use jobhunt.Queue.Lanes.{
  Counts, count, Item, Exclusion, excluded_row, Gate, admit_all, bank_lane, aim_lane,
}

pub data Lane : Type 0 where
  bank aim : Lane

pub record Evidence : Type 0 where
  pub match_band : Option Str
  pub competition_band : Option Str
  pub odds_score : Option ℤ
  pub tier : ℤ
  pub freshness : Freshness
  pub uncertainty : List Flag
  pub why : Option Str

pub record QueueEntry : Type 0 where
  pub job : JobLight
  pub rank : ℕ
  pub lane : Lane
  pub lane_rank : ℕ
  pub evidence : Evidence

pub record QueueResult : Type 0 where
  pub entries : List QueueEntry
  pub excluded : List Exclusion
  pub excluded_counts : Counts
  pub considered : ℕ

-- The variables that `try_push` closes over.
pub record Composer : Type 0 where
  pub entries : List QueueEntry
  pub decided : List Str
  pub company_counts : List (Str × ℕ)
  pub uncertain_used : ℕ
  pub counts : Counts
  pub detailed : List Exclusion

unfoldable pub held : Str → List (Str × ℕ) → ℕ
held k [] = 0
held k ((j, n) ∷ m) = if eq_str k j then n else held k m

unfoldable pub hold : Str → List (Str × ℕ) → List (Str × ℕ)
hold k [] = (k, 1) ∷ []
hold k ((j, n) ∷ m) = if eq_str k j then (j, n + 1) ∷ m else (j, n) ∷ hold k m

-- `job.odds_why or job.why`.
abbrev why_of : Option Str → Option Str → Option Str
why_of none why = why
why_of (some []) why = why
why_of (some (c ∷ s)) why = some (c ∷ s)

unfoldable pub evidence_of : Item → Evidence
evidence_of (job, fresh) =
    let (m, c) = parse_odds job.odds in
    record {
      match_band = m;
      competition_band = c;
      odds_score = job.odds_score;
      tier = job.tier;
      freshness = fresh;
      uncertainty = uncertainty_flags job;
      why = why_of job.odds_why job.why;
    }

abbrev pub is_flagged : JobLight → Bool
is_flagged job = elim (uncertainty_flags job) [ [] ↦ false | _ ∷ _ ↦ true ]

abbrev pub drop_item : JobLight → Reason → Detail → Composer → Composer
drop_item job reason detail s = record s {
  decided = job.url_b64 ∷ s.decided;
  counts = count reason s.counts;
  detailed = s.detailed ++ excluded_row job reason (some detail) ∷ [];
}

abbrev pub entry_of : Lane → ℕ → Item → Composer → QueueEntry
entry_of lane lane_rank item s = record {
  job = item.0;
  rank = length s.entries + 1;
  lane = lane;
  lane_rank = lane_rank;
  evidence = evidence_of item;
}

abbrev pub push_item : Python → Lane → ℕ → Item → Composer → Composer
push_item py lane lane_rank item s = record s {
  decided = item.0.url_b64 ∷ s.decided;
  company_counts = hold (company_key py item.0) s.company_counts;
  uncertain_used = if is_flagged item.0 then s.uncertain_used + 1 else s.uncertain_used;
  entries = s.entries ++ entry_of lane lane_rank item s ∷ [];
}

module _ (py : Python) (policy : QueuePolicy) (cap : ℕ) where
  unfoldable pub try_push : Lane → ℕ → Item → Composer → Composer
  try_push lane lane_rank (job, fresh) s =
      if mem job.url_b64 s.decided
      then s
      else if leb policy.company_cap (held (company_key py job) s.company_counts)
      then drop_item job company_cap (Detail.slots policy.company_cap) s
      else if is_flagged job && leb (effective_uncertain_cap policy cap) s.uncertain_used
      then drop_item job uncertainty_cap (Detail.flags (uncertainty_flags job)) s
      else push_item py lane lane_rank (job, fresh) s

  -- `len(entries) >= cap`.
  abbrev pub is_full : Composer → Bool
  is_full s = leb cap (length s.entries)

  -- The rounds from round `i` on; a full queue ends the loop before and between the pushes.
  unfoldable pub interleave : ℕ → List Item → List Item → Composer → Composer
  interleave i [] [] s = s
  interleave i (b ∷ bs) [] s =
      let rest = interleave (i + 1) bs [] (try_push bank i b s) in if is_full s then s else rest
  interleave i [] (a ∷ as') s =
      let rest = interleave (i + 1) [] as' (try_push aim i a s) in if is_full s then s else rest
  interleave i (b ∷ bs) (a ∷ as') s =
      let t = try_push bank i b s in
      let rest = interleave (i + 1) bs as' (try_push aim i a t) in
      if is_full s then s else if is_full t then t else rest

-- Every eligible job that no push decided, the first `cap` of them with a row.
unfoldable pub overflow :
    ℕ → List Str → ℕ → List Item → Counts → List Exclusion → Counts × List Exclusion
overflow cap decided n [] counts detailed = (counts, detailed)
overflow cap decided n ((job, fresh) ∷ items) counts detailed =
    let skipped = overflow cap decided n items counts detailed in
    let row = excluded_row job beyond_cap (some Detail.next_up) in
    let counted =
      overflow cap decided (if ltb n cap then n + 1 else n) items (count beyond_cap counts)
        (if ltb n cap then detailed ++ row ∷ [] else detailed) in
    if mem job.url_b64 decided then skipped else counted

abbrev pub empty_gate : Gate
empty_gate = record { eligible = []; counts = []; detailed = [] }

abbrev pub start : Gate → Composer
start g = record {
  entries = [];
  decided = [];
  company_counts = [];
  uncertain_used = 0;
  counts = g.counts;
  detailed = g.detailed;
}

abbrev pub url_of : JobLight → Str
url_of job = job.url_b64

unfoldable pub gate_of : Python → QueuePolicy → Str → ℕ → List JobLight → Gate
gate_of py policy today_iso today jobs =
    admit_all py policy today_iso today (sort_by (list_order nat_order) url_of jobs) empty_gate

unfoldable pub compose : Python → QueuePolicy → ℕ → Gate → Composer
compose py policy cap g =
    interleave py policy cap 0 (bank_lane g.eligible) (aim_lane g.eligible) (start g)

unfoldable pub finish : Python → QueuePolicy → ℕ → ℕ → Gate → QueueResult
finish py policy cap considered g =
    let s = compose py policy cap g in
    let (counts, detailed) = overflow cap s.decided 0 (bank_lane g.eligible) s.counts s.detailed in
    record {
      entries = s.entries;
      excluded = detailed;
      excluded_counts = sort_by (list_order nat_order) (λ rc. reason_text rc.0) counts;
      considered = considered;
    }

-- `none` is the ValueError of a `today` that is no ISO date.
unfoldable pub build_queue : Python → QueuePolicy → ℕ → Str → List JobLight → Option QueueResult
build_queue py policy cap today_iso jobs = elim (py.date_of today_iso) [
  | none ↦ none
  | some today ↦ some (finish py policy cap (length jobs) (gate_of py policy today_iso today jobs))
]
