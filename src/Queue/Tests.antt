-- ===== src/Queue/Tests.antt =====
-- Small queues, and the theorems at them.
use mathlib.Core.List.{Permᴰ}
use jobhunt.Prelude.{
  ℕ, if◌then◌else◌, ◌≡◌, refl, Bool, true, false, Option, some, none, Str, codes, eq_str, List, [],
  ◌∷◌, map, ℤ, length, All, ◌≤◌, ◌+◌, sort_by, insert_by, le_list,
}
use jobhunt.Queue.Job.{JobLight, Python, default_policy, effective_uncertain_cap, is_space}
use jobhunt.Queue.Freshness.{freshness_of, parse_date, strip}
use jobhunt.Queue.Eligibility.{
  ineligibility, parse_odds, match_rank, competition_rank, odds_rank, is_snoozed, uncertainty_flags,
  company_key, reason_text, Reason-discrete,
}
use jobhunt.Queue.Lanes.{
  count, total, admit, admit_all, bank_lane, aim_lane, bank_key, aim_key, is_aim,
}
use jobhunt.Queue.Compose.{
  QueueResult, build_queue, gate_of, finish, compose, interleave, try_push, held, hold, evidence_of,
  overflow,
}
use jobhunt.Queue.Accounting.{accounts}
use jobhunt.Queue.Caps.{slots_of, flagged, company_cap_bound, size_bounds}
use jobhunt.Queue.Justify.{Shown, InLane, banks, aims, entries_justified}
use jobhunt.Queue.Invariance.{build_queue-permᴰ}

-- The dates of the tests, as days of a year.
abbrev day_of : Str → Option ℕ
day_of s =
    if eq_str s (codes "2026-03-01")
    then some 60
    else if eq_str s (codes "2026-02-20")
    then some 51
    else if eq_str s (codes "2025-12-01")
    then some 0
    else none

abbrev plain : Python
plain = record { casefold = λ s. s; date_of = day_of }

abbrev job : Str → Str → ℕ → Bool → Str → JobLight
job url company tier described posted = record {
  url_b64 = url;
  tier = ℤ.pos tier;
  odds = some (codes "Strong match / Lower bar");
  odds_score = some (ℤ.pos 70);
  odds_why = none;
  title = some url;
  company = some company;
  posted = some posted;
  first_seen = none;
  why = none;
  has_desc = described;
  state = none;
}

abbrev recent : Str
recent = codes "2026-02-20"

abbrev ja : JobLight
ja = job (codes "a") (codes "Acme") 4 true recent

abbrev jb : JobLight
jb = job (codes "b") (codes "Acme") 3 false recent

abbrev jc : JobLight
jc = job (codes "c") (codes "Acme") 5 true recent

abbrev jd : JobLight
jd = job (codes "d") (codes "Bolt") 3 true (codes "2025-12-01")

abbrev je : JobLight
je = job (codes "e") (codes "Bolt") 2 true recent

abbrev jobs : List JobLight
jobs = jd ∷ jb ∷ ja ∷ je ∷ jc ∷ []

abbrev today_iso : Str
today_iso = codes "2026-03-01"

-- The queue with all that it calls.
unfoldable run : List JobLight → Option QueueResult
unfolding build_queue gate_of finish compose interleave try_push admit_all admit ineligibility
    freshness_of parse_date strip parse_odds match_rank competition_rank odds_rank is_snoozed
    uncertainty_flags company_key reason_text count bank_lane aim_lane bank_key aim_key held hold
    evidence_of overflow effective_uncertain_cap sort_by insert_by le_list eq_str Reason-discrete
    total is_aim
run jobs = build_queue plain default_policy 10 today_iso jobs

abbrev the : Option QueueResult → QueueResult
the none = record { entries = []; excluded = []; excluded_counts = []; considered = 0 }
the (some q) = q

result : QueueResult
result = the (build_queue plain default_policy 10 today_iso jobs)

built : build_queue plain default_policy 10 today_iso jobs ≡ some result
unfolding run result
built = refl

-- The board's third posting meets the company's cap, and the old one is stale.
run_example : map (λ e. e.job.url_b64) result.entries ≡ codes "c" ∷ codes "a" ∷ []
unfolding run result is_space
run_example = refl

accounts_example :
    (q : QueueResult) × (build_queue plain default_policy 10 today_iso jobs ≡ some q)
    × (q.considered ≡ 5)
    × (length q.entries + total q.excluded_counts ≡ q.considered)
unfolding run
accounts_example = accounts plain default_policy 10 today_iso 60 jobs refl refl

company_cap_bound_example : slots_of plain (codes "Acme") result.entries ≤ 2
company_cap_bound_example =
    company_cap_bound plain default_policy 10 today_iso jobs result built (codes "Acme")

size_bounds_example :
    (length result.entries ≤ 10)
    × (flagged result.entries ≤ effective_uncertain_cap default_policy 10)
size_bounds_example = size_bounds plain default_policy 10 today_iso jobs result built

entries_justified_example :
    (today : ℕ) × (day_of today_iso ≡ some today)
    × All
        (Shown plain default_policy 10
          (InLane plain default_policy today_iso today jobs)
          (banks plain default_policy today_iso today jobs)
          (aims plain default_policy today_iso today jobs))
        result.entries
entries_justified_example = entries_justified plain default_policy 10 today_iso jobs result built

abbrev reordered : List JobLight
reordered = jb ∷ jd ∷ ja ∷ je ∷ jc ∷ []

swapped : Permᴰ jobs reordered
swapped = Permᴰ.swap {a = jd} {b = jb} {l = ja ∷ je ∷ jc ∷ []} refl refl

build_queue-permᴰ_example :
    build_queue plain default_policy 10 today_iso jobs
    ≡ build_queue plain default_policy 10 today_iso reordered
unfolding run
build_queue-permᴰ_example =
    build_queue-permᴰ plain default_policy 10 today_iso {xs = jobs} {ys = reordered} swapped refl
