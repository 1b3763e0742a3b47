-- ===== src/Queue/Eligibility.antt =====
-- The odds bands, the reasons for an exclusion and the eligibility checks
-- (webapp/backend/ranking.py). A detail that formats a value is kept as that value.
use jobhunt.Prelude.{
  ℕ, ◌+◌, ◌*◌, Bool, false, not, ◌&&◌, Option, none, some, Str, codes, eq_str, List, [], ◌∷◌, ◌++◌,
  if◌then◌else◌, is_empty, is_some, le_list, nat_order, ℤ, leb_ℤ, or_else, ◌==◌,
}
use jobhunt.Queue.Job.{JobLight, QueuePolicy, Python}
use jobhunt.Queue.Freshness.{Basis, strip}

-- The halves around the first " / ".
split_odds : Str → Option (Str × Str)
split_odds (a ∷ b ∷ c ∷ s) =
    let rest = split_odds (b ∷ c ∷ s) in
    if a == 32 && (b == 47 && c == 32)
    then some ([], s)
    else elim rest [ none ↦ none | some (left, right) ↦ some (a ∷ left, right) ]
split_odds _ = none

unfoldable pub parse_odds : Option Str → Option Str × Option Str
unfolding split_odds
parse_odds none = (none, none)
parse_odds (some odds) = elim (split_odds odds) [
  | none ↦ (none, none)
  | some (left, right) ↦ (some left, some right)
]

abbrev strong_match : Str
strong_match = codes "Strong match"

abbrev moderate_match : Str
moderate_match = codes "Moderate match"

abbrev weak_match : Str
weak_match = codes "Weak match"

abbrev level_stretch : Str
level_stretch = codes "Level stretch"

abbrev lower_bar : Str
lower_bar = codes "Lower bar"

abbrev standard : Str
standard = codes "Standard"

abbrev high_competition : Str
high_competition = codes "High competition"

unfoldable pub match_rank : Option Str → ℕ
match_rank none = 5
match_rank (some m) =
    if eq_str m strong_match
    then 0
    else if eq_str m moderate_match
    then 1
    else if eq_str m weak_match
    then 2
    else if eq_str m level_stretch
    then 3
    else 5

unfoldable pub competition_rank : Option Str → ℕ
competition_rank none = 3
competition_rank (some c) =
    if eq_str c lower_bar
    then 0
    else if eq_str c standard
    then 1
    else if eq_str c high_competition
    then 2
    else 3

unfoldable pub odds_rank : Option Str → Option Str → ℕ
odds_rank (some m) (some c) = match_rank (some m) * 10 + competition_rank (some c)
odds_rank _ _ = 1000

pub data Reason : Type 0 where
  not_new hidden snoozed tier_below_cutoff stale_posting company_cap uncertainty_cap : Reason
  beyond_cap : Reason

unfoldable pub Reason-discrete : Discrete Reason
Reason-discrete = hlevel

unfoldable pub reason_text : Reason → Str
reason_text not_new = codes "not-new"
reason_text hidden = codes "hidden"
reason_text snoozed = codes "snoozed"
reason_text tier_below_cutoff = codes "tier-below-cutoff"
reason_text stale_posting = codes "stale-posting"
reason_text company_cap = codes "company-cap"
reason_text uncertainty_cap = codes "uncertainty-cap"
reason_text beyond_cap = codes "beyond-cap"

pub data Flag : Type 0 where
  unscored no_description : Flag

pub data Detail : Type 0 where
  status until : Str → Detail
  tier : ℤ → Detail
  age : Option ℕ → Option Basis → Detail
  slots : ℕ → Detail
  flags : List Flag → Detail
  next_up : Detail

abbrev new_status : Str
new_status = codes "New"

-- `s.snoozed_until and s.snoozed_until > today_iso`.
unfoldable pub is_snoozed : Option Str → Str → Bool
is_snoozed none today_iso = false
is_snoozed (some date) today_iso = not (is_empty date) && not (le_list nat_order date today_iso)

abbrev tier_check : JobLight → QueuePolicy → Option (Reason × Option Detail)
tier_check job policy =
    if leb_ℤ policy.min_tier job.tier then none else some (tier_below_cutoff, some (tier job.tier))

unfoldable pub ineligibility : JobLight → Str → QueuePolicy → Option (Reason × Option Detail)
ineligibility job today_iso policy = elim job.state [
  | none ↦ tier_check job policy
  | some s ↦
      if not (eq_str s.status new_status)
      then some (not_new, some (status s.status))
      else if s.hidden
      then some (hidden, none)
      else if is_snoozed s.snoozed_until today_iso
      then some (snoozed, some (until (or_else s.snoozed_until [])))
      else tier_check job policy
]

unfoldable pub uncertainty_flags : JobLight → List Flag
uncertainty_flags job =
    let (m, c) = parse_odds job.odds in
    let described : List Flag = if job.has_desc then [] else no_description ∷ [] in
    if is_some m && (is_some c && is_some job.odds_score) then described else unscored ∷ described

-- A job with no company name is a company of its own.
unfoldable pub company_key : Python → JobLight → Str
company_key py job =
    let name = py.casefold (strip (or_else job.company [])) in
    if is_empty name then 0 ∷ codes "url:" ++ job.url_b64 else name
