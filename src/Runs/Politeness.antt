-- ===== src/Runs/Politeness.antt =====
-- The politer descriptor behind a host wins (webapp/backend/sources/scheduler.py).
use jobhunt.Prelude.{
  ℕ, max, min, ◌≤◌, ◌≡◌, refl, sym, ap, ◌∙◌, arith, Bool, true, false, not, ◌||◌, Option, none,
  some, Str, List, [], ◌∷◌, if◌then◌else◌, leb, eq_str, eq_str_refl, eq_str→≡, Bool-cases, inl, inr,
  All,
}
use jobhunt.Store.Rows.{put}
use jobhunt.Runs.Target.{SourceDescriptor, Planned}
use jobhunt.Runs.Profile.{find}
use jobhunt.Runs.Lookup.{find-put}
use jobhunt.Runs.Limits.{host_key, get_or, limit_of, host_limits, host_intervals}

-- A recorded number with an upper bound, with a lower bound, and a number that is not 0 if there is one.
abbrev pub at_most : ℕ → Option ℕ → Bool
at_most high none = false
at_most high (some n) = leb n high

abbrev pub at_least : ℕ → Option ℕ → Bool
at_least low none = false
at_least low (some n) = leb low n

abbrev pub is_positive : Option ℕ → Bool
is_positive none = true
is_positive (some n) = leb 1 n

-- Writing a number at one key keeps a test of every key that the number keeps at its own.
put_keeps :
    (test : Option ℕ → Bool) (f : Option ℕ → ℕ)
    → ((c : Option ℕ) → test c ≡ true → test (some (f c)) ≡ true)
    → (host k : Str) (m : List (Str × ℕ)) → test (find host m) ≡ true
    → test (find host (put k (f (find k m)) m)) ≡ true
put_keeps test f step host k m h = elim (Bool-cases (eq_str host k)) [
  | inl e ↦
      rw (find-put host k (f (find k m)) m, e)
        (step (find k m) (ap (λ j. test (find j m)) (sym (eq_str→≡ host k e)) ∙ h))
  | inr e ↦ rw (find-put host k (f (find k m)) m, e) h
]

abbrev lowered : ℕ → Option ℕ → ℕ
lowered limit c = min (get_or limit c) limit

abbrev raised : ℕ → Option ℕ → ℕ
raised interval c = max (get_or 0 c) interval

lowered-at_most :
    (high limit : ℕ) (c : Option ℕ)
    → at_most high c ≡ true
    → at_most high (some (lowered limit c)) ≡ true
unfolding get_or
lowered-at_most high limit (some n) h = ground (arith, h)
lowered-at_most high limit none h = ground (arith, h)

lowered-is_positive :
    (limit : ℕ)
    → 1 ≤ limit
    → (c : Option ℕ) → is_positive c ≡ true
    → is_positive (some (lowered limit c)) ≡ true
unfolding get_or
lowered-is_positive limit l none h = ground (arith, l)
lowered-is_positive limit l (some n) h = ground (arith, l, h)

raised-at_least :
    (low interval : ℕ) (c : Option ℕ)
    → at_least low c ≡ true
    → at_least low (some (raised interval c)) ≡ true
unfolding get_or
raised-at_least low interval none h = ground (arith, h)
raised-at_least low interval (some n) h = ground (arith, h)

host_limits-keeps :
    (test : Option ℕ → Bool)
    → ((d : SourceDescriptor) (c : Option ℕ)
        → test c ≡ true
        → test (some (lowered (limit_of d) c)) ≡ true)
    → (host : Str) (limits : List (Str × ℕ)) (plan : List Planned) → test (find host limits) ≡ true
    → test (find host (host_limits limits plan)) ≡ true
unfolding host_limits
host_limits-keeps test step host limits [] h = h
host_limits-keeps test step host limits (p ∷ plan) h =
    host_limits-keeps test step host
      (put (host_key p.1) (lowered (limit_of p.0) (find (host_key p.1) limits)) limits) plan
      (put_keeps test (lowered (limit_of p.0)) (step p.0) host (host_key p.1) limits h)

written_at_most :
    (k : Str) (limit : ℕ) (m : List (Str × ℕ))
    → at_most limit (find k (put k (lowered limit (find k m)) m)) ≡ true
written_at_most k limit m =
    rw (find-put k k (lowered limit (find k m)) m, eq_str_refl k) (ground arith)

-- The limit of a target's host is one that the descriptor allows.
host_limits-at_most :
    (limits : List (Str × ℕ)) (plan : List Planned)
    → All (λ p. at_most (limit_of p.0) (find (host_key p.1) (host_limits limits plan)) ≡ true) plan
unfolding host_limits
host_limits-at_most limits [] = tt
host_limits-at_most limits (p ∷ plan) =
    let next = put (host_key p.1) (lowered (limit_of p.0) (find (host_key p.1) limits)) limits in
    (
      host_limits-keeps (at_most (limit_of p.0)) (λ d. lowered-at_most (limit_of p.0) (limit_of d))
          (host_key p.1) next plan (written_at_most (host_key p.1) (limit_of p.0) limits),
      host_limits-at_most next plan,
    )

limit_of-positive : (d : SourceDescriptor) → 1 ≤ limit_of d
unfolding limit_of
limit_of-positive d = omega arith

-- From the whole plan, every target's host gets a limit that its own descriptor allows, so the
-- politest descriptor behind a host decides, and no host gets a limit of 0.
pub host_limits_polite :
    (plan : List Planned) (host : Str)
    → All (λ p. at_most (limit_of p.0) (find (host_key p.1) (host_limits [] plan)) ≡ true) plan
      × (is_positive (find host (host_limits [] plan)) ≡ true)
unfolding find
host_limits_polite plan host = (
  host_limits-at_most [] plan,
  host_limits-keeps is_positive (λ d. lowered-is_positive (limit_of d) (limit_of-positive d)) host
      [] plan refl,
)

intervals_keep :
    (low : ℕ) (host : Str) (intervals : List (Str × ℕ)) (plan : List Planned)
    → at_least low (find host intervals) ≡ true
    → at_least low (find host (host_intervals intervals plan)) ≡ true
unfolding host_intervals
intervals_keep low host intervals [] h = h
intervals_keep low host intervals (p ∷ plan) h =
    let interval = p.0.min_request_interval_seconds in
    intervals_keep low host
      (if p.0.has_transport
        then put (host_key p.1) (raised interval (find (host_key p.1) intervals)) intervals
        else intervals)
      plan
      (elim (Bool-cases p.0.has_transport) [
        | inl e ↦ rw e (
            put_keeps (at_least low) (raised interval) (raised-at_least low interval) host
              (host_key p.1) intervals h)
        | inr e ↦ rw e h
      ])

written_at_least :
    (k : Str) (interval : ℕ) (m : List (Str × ℕ))
    → at_least interval (find k (put k (raised interval (find k m)) m)) ≡ true
written_at_least k interval m =
    rw (find-put k k (raised interval (find k m)) m, eq_str_refl k) (ground arith)

-- Behind every host the longest interval wins: that of each target with a transport is at most the
-- one of its host.
pub host_intervals_polite :
    (intervals : List (Str × ℕ)) (plan : List Planned)
    → All
        (λ p.
          (not p.0.has_transport
            || at_least p.0.min_request_interval_seconds
                (find (host_key p.1) (host_intervals intervals plan)))
          ≡ true)
        plan
unfolding host_intervals
host_intervals_polite intervals [] = tt
host_intervals_polite intervals (p ∷ plan) =
    let interval = p.0.min_request_interval_seconds in
    let next = put (host_key p.1) (raised interval (find (host_key p.1) intervals)) intervals in
    (
      elim (Bool-cases p.0.has_transport) [
        | inl e ↦ rw e (
            intervals_keep interval (host_key p.1) next plan
              (written_at_least (host_key p.1) interval intervals))
        | inr e ↦ rw e refl
      ],
      host_intervals_polite (if p.0.has_transport then next else intervals) plan,
    )
