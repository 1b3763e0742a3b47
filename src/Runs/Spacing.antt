-- ===== src/Runs/Spacing.antt =====
-- The distance between the requests to one host (webapp/backend/sources/transport.py).
use jobhunt.Prelude.{
  ℕ, ◌+◌, ◌≤◌, ◌<◌, ◌≡◌, refl, ap, ◌∙◌, arith, max, Bool, true, false, ◌&&◌, Str, List, [], ◌∷◌,
  if◌then◌else◌, leb, eq_str, eq_str_refl, eq_str_comm, eq_str→≡, Bool-cases, inl, inr, all,
}
use jobhunt.Store.Rows.{put}
use jobhunt.Runs.Profile.{find}
use jobhunt.Runs.Pacing.{Call, Sent, next_slot, next_or_zero, reserve, send_all}

another : (host other k : Str) → eq_str other k ≡ false → host ≡ k → eq_str host other ≡ false
another host other k e p = eq_str_comm host other ∙ ap (eq_str other) p ∙ e

next_slot-put :
    (host other : Str) (n : ℕ) (m : List (Str × ℕ))
    → next_slot host (put other n m) ≡ (if eq_str host other then n else next_slot host m)
unfolding next_slot find next_or_zero
next_slot-put host other n [] = ground arith
next_slot-put host other n ((k, v) ∷ m) = elim (Bool-cases (eq_str other k)) [
  | inl e ↦ rw e (ground (arith, ap (eq_str host) (eq_str→≡ other k e)))
  | inr e ↦ elim (Bool-cases (eq_str host k)) [
    | inl f ↦ rw (e, f, another host other k e (eq_str→≡ host k f)) refl
    | inr f ↦ rw (e, f) (next_slot-put host other n m)
  ]
]

-- The requests to a host are no earlier than a bound.
abbrev pub not_before : Str → ℕ → List Sent → Bool
not_before host n sent = all (λ s. if eq_str host s.host then leb n s.at else true) sent

-- Two requests to one host are apart by the interval, the later call after the earlier.
abbrev pub spaced : ℕ → List Sent → Bool
spaced interval [] = true
spaced interval (s ∷ sent) = not_before s.host (s.at + interval) sent && spaced interval sent

reserve-next_slot :
    (interval : ℕ) (host : Str) (m : List (Str × ℕ)) (c : Call)
    → 0 < interval
    → next_slot host (reserve interval m c).0
      ≡ (if eq_str host c.host then (reserve interval m c).1.at + interval else next_slot host m)
unfolding reserve
reserve-next_slot interval host m c i =
    ground (arith, next_slot-put host c.host (max c.now (next_slot c.host m) + interval) m)

reserve-at :
    (interval : ℕ) (host : Str) (m : List (Str × ℕ)) (c : Call)
    → 0 < interval
    → eq_str host c.host ≡ true
    → next_slot host m ≤ (reserve interval m c).1.at
unfolding reserve
reserve-at interval host m c i e = ground (arith, ap (λ h. next_slot h m) (eq_str→≡ host c.host e))

reserve-host :
    (interval : ℕ) (m : List (Str × ℕ)) (c : Call) → (reserve interval m c).1.host ≡ c.host
unfolding reserve
reserve-host interval m c = ground arith

reserve-now : (interval : ℕ) (m : List (Str × ℕ)) (c : Call) → c.now ≤ (reserve interval m c).1.at
unfolding reserve
reserve-now interval m c = ground arith

send_all-not_before :
    (interval : ℕ) (host : Str) (n : ℕ) (m : List (Str × ℕ)) (calls : List Call)
    → 0 < interval
    → n ≤ next_slot host m
    → not_before host n (send_all interval m calls) ≡ true
unfolding send_all
send_all-not_before interval host n m [] i h = refl
send_all-not_before interval host n m (c ∷ calls) i h = ground (
  arith,
  ap (eq_str host) (reserve-host interval m c),
  reserve-next_slot interval host m c i,
  reserve-at interval host m c i,
  send_all-not_before interval host n (reserve interval m c).0 calls i,
)

-- A request goes out no earlier than its call.
abbrev pub in_time : List Call → List Sent → Bool
in_time [] [] = true
in_time [] (s ∷ sent) = false
in_time (c ∷ calls) [] = false
in_time (c ∷ calls) (s ∷ sent) = eq_str c.host s.host && (leb c.now s.at && in_time calls sent)

-- Every call is sent, in order and to its host, and no earlier than it arrived.
pub send_all-in_time :
    (interval : ℕ) (m : List (Str × ℕ)) (calls : List Call)
    → in_time calls (send_all interval m calls) ≡ true
unfolding send_all
send_all-in_time interval m [] = refl
send_all-in_time interval m (c ∷ calls) = ground (
  arith,
  ap (eq_str c.host) (reserve-host interval m c),
  eq_str_refl c.host,
  reserve-now interval m c,
  send_all-in_time interval (reserve interval m c).0 calls,
)

-- With a positive interval, from any state and whatever the calls' hosts and times, a request
-- goes out at least the interval after every earlier request to the same host.
pub send_all-spaced :
    (interval : ℕ) (m : List (Str × ℕ)) (calls : List Call)
    → 0 < interval
    → spaced interval (send_all interval m calls) ≡ true
unfolding send_all
send_all-spaced interval m [] i = refl
send_all-spaced interval m (c ∷ calls) i =
    let host = (reserve interval m c).1.host in
    ground (
      arith,
      send_all-not_before interval host ((reserve interval m c).1.at + interval)
          (reserve interval m c).0 calls i,
      reserve-next_slot interval host m c i,
      ap (eq_str host) (reserve-host interval m c),
      eq_str_refl host,
      send_all-spaced interval (reserve interval m c).0 calls i,
    )
