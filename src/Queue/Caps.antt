-- ===== src/Queue/Caps.antt =====
-- What the caps bound, and the entries' ranks (webapp/backend/ranking.py).
use jobhunt.Prelude.{
  ℕ, ◌+◌, ◌≤◌, ◌≡◌, false, Str, List, [], ◌∷◌, ◌++◌, some, arith, length, length-append, count_if,
  count_if-append, eq_str, eq_str_refl, eq_str→≡, AllFrom, AllFrom-trivial, if◌then◌else◌,
}
use jobhunt.Queue.Job.{JobLight, QueuePolicy, Python, effective_uncertain_cap}
use jobhunt.Queue.Lanes.{Item, Gate, bank_lane, aim_lane}
use jobhunt.Queue.Eligibility.{company_key}
use jobhunt.Queue.Compose.{
  Composer, Lane, QueueEntry, QueueResult, try_push, is_full, is_flagged, compose, finish, gate_of,
  build_queue, start, held, hold,
}
use jobhunt.Queue.Loop.{interleave_inv}
use jobhunt.Queue.Accounting.{build_queue_inv}

held-hold :
    (k j : Str) (m : List (Str × ℕ)) → held k (hold j m) ≡ held k m + (if eq_str k j then 1 else 0)
unfolding held hold
held-hold k j [] = ground arith
held-hold k j ((i, n) ∷ m) =
    ground (arith, held-hold k j m, eq_str→≡ k i, eq_str→≡ j i, eq_str→≡ k j, eq_str_refl i)

-- The entries of one company.
abbrev pub slots_of : Python → Str → List QueueEntry → ℕ
slots_of py k = count_if (λ e. eq_str k (company_key py e.job))

-- The entries that carry a flag.
abbrev pub flagged : List QueueEntry → ℕ
flagged = count_if (λ e. is_flagged e.job)

-- The entries are ranked from the given position on.
abbrev pub IsRanked : ℕ → List QueueEntry → Type 0
IsRanked n = AllFrom (λ i e. e.rank ≡ i + 1) n

IsRanked-snoc :
    (n : ℕ) (es : List QueueEntry) (e : QueueEntry)
    → IsRanked n es
    → e.rank ≡ n + length es + 1
    → IsRanked n (es ++ e ∷ [])
IsRanked-snoc n [] e hs h = (omega (arith, h), tt)
IsRanked-snoc n (x ∷ es) e hs h = (hs.0, IsRanked-snoc (n + 1) es e hs.1 (omega (arith, h)))

module _ (py : Python) (policy : QueuePolicy) (cap : ℕ) where
  record Bounded (k : Str) (s : Composer) : Type 0 where
    counted : held k s.company_counts ≡ slots_of py k s.entries
    few : slots_of py k s.entries ≤ policy.company_cap
    used : s.uncertain_used ≡ flagged s.entries
    uncertain : flagged s.entries ≤ effective_uncertain_cap policy cap
    capped : length s.entries ≤ cap

  try_push-Bounded :
      (k : Str) (lane : Lane) (i : ℕ) (item : Item) (s : Composer)
      → is_full py policy cap s ≡ false
      → Bounded k s
      → Bounded k (try_push py policy cap lane i item s)
  unfolding try_push
  try_push-Bounded k lane i item s room h = grind (
    arith,
    held-hold k (company_key py item.0) s.company_counts,
    eq_str→≡ k (company_key py item.0),
    count_if-append,
    length-append,
  )

  try_push-IsRanked :
      (lane : Lane) (i : ℕ) (item : Item) (s : Composer)
      → IsRanked 0 s.entries
      → IsRanked 0 (try_push py policy cap lane i item s).entries
  unfolding try_push
  try_push-IsRanked lane i item s h = grind (arith, IsRanked-snoc)

  module _ (g : Gate) where
    compose-Bounded : (k : Str) → Bounded k (compose py policy cap g)
    unfolding compose held
    compose-Bounded k =
        interleave_inv py policy cap (Bounded k) (λ lane i item. Unit {0})
          (λ lane i item s _ room h. try_push-Bounded k lane i item s room h) 0
          (bank_lane g.eligible) (aim_lane g.eligible) (start g) (AllFrom-trivial 0 _)
          (AllFrom-trivial 0 _) (omega arith)

    compose-IsRanked : IsRanked 0 (compose py policy cap g).entries
    unfolding compose
    compose-IsRanked =
        interleave_inv py policy cap (λ s. IsRanked 0 s.entries) (λ lane i item. Unit {0})
          (λ lane i item s _ room h. try_push-IsRanked lane i item s h) 0 (bank_lane g.eligible)
          (aim_lane g.eligible) (start g) (AllFrom-trivial 0 _) (AllFrom-trivial 0 _) tt

  module _ (iso : Str) (jobs : List JobLight) (q : QueueResult)
      (built : build_queue py policy cap iso jobs ≡ some q) where
    -- No company holds more than `company_cap` entries.
    pub company_cap_bound : (k : Str) → slots_of py k q.entries ≤ policy.company_cap
    unfolding finish
    company_cap_bound k =
        let (today, _, same) = build_queue_inv py policy cap iso jobs q built in
        rw (← same) (compose-Bounded (gate_of py policy iso today jobs) k).few

    -- The queue holds at most `cap` entries, of them at most the uncertainty cap with a flag.
    pub size_bounds :
        (length q.entries ≤ cap) × (flagged q.entries ≤ effective_uncertain_cap policy cap)
    unfolding finish
    size_bounds =
        let (today, _, same) = build_queue_inv py policy cap iso jobs q built in
        let h : Bounded [] (compose py policy cap (gate_of py policy iso today jobs)) =
          compose-Bounded (gate_of py policy iso today jobs) [] in
        rw (← same) (h.capped, h.uncertain)

    -- The entries are ranked 1, 2, and so on.
    pub entries-IsRanked : IsRanked 0 q.entries
    unfolding finish
    entries-IsRanked =
        let (today, _, same) = build_queue_inv py policy cap iso jobs q built in
        rw (← same) (compose-IsRanked (gate_of py policy iso today jobs))
