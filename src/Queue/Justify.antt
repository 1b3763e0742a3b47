-- ===== src/Queue/Justify.antt =====
-- Where an entry comes from: an eligible job of the input, at its place in its lane, once
-- (webapp/backend/ranking.py).
use jobhunt.Prelude.{
  All-mem, ℕ, ◌≡◌, refl, Bool, true, false, ◌||◌, Str, List, [], ◌∷◌, ◌++◌, map, some, none, arith,
  eq_str, eq_str_comm, Bool-cases, Option-cases, inl, inr, All, All-append, AllFrom-join,
  AllFrom-get_elem?, mem, distinct, keep, get_elem?, sort_by, All-sort_by, list_order, nat_order,
  int_order, AllFrom-trivial,
}
use jobhunt.Queue.Job.{JobLight, QueuePolicy, Python}
use jobhunt.Queue.Freshness.{freshness_of}
use jobhunt.Queue.Eligibility.{ineligibility}
use jobhunt.Queue.Lanes.{is_stale, Item, bank_lane, aim_lane, bank_key, aim_key, is_aim}
use jobhunt.Queue.Compose.{
  Composer, Lane, bank, aim, QueueEntry, QueueResult, try_push, compose, finish, gate_of,
  build_queue, start, evidence_of, entry_of, url_of, empty_gate,
}
use jobhunt.Queue.Loop.{interleave_inv, try_push_cases}
use jobhunt.Queue.Admitted.{admitted, eligible-admit_all}
use jobhunt.Queue.Accounting.{build_queue_inv}

abbrev pub entry_url : QueueEntry → Str
entry_url e = e.job.url_b64

mem-snoc :
    (u : Str) (es : List QueueEntry) (e : QueueEntry)
    → mem u (map entry_url (es ++ e ∷ [])) ≡ (mem u (map entry_url es) || eq_str u (entry_url e))
mem-snoc u [] e = ground arith
mem-snoc u (x ∷ es) e = ground (arith, mem-snoc u es e)

distinct-snoc :
    (es : List QueueEntry) (e : QueueEntry)
    → distinct (map entry_url es) ≡ true
    → mem (entry_url e) (map entry_url es) ≡ false
    → distinct (map entry_url (es ++ e ∷ [])) ≡ true
distinct-snoc [] e d m = refl
distinct-snoc (x ∷ es) e d m = ground (
  arith,
  distinct-snoc es e,
  mem-snoc (entry_url x) es e,
  eq_str_comm (entry_url x) (entry_url e),
)

abbrev pub lane_of : Lane → List Item → List Item → List Item
lane_of bank banks aims = banks
lane_of aim banks aims = aims

module _ (py : Python) (policy : QueuePolicy) (cap : ℕ) where
  pub record Once (s : Composer) : Type 0 where
    pub once : distinct (map entry_url s.entries) ≡ true
    pub noted : (u : Str) → mem u s.decided ≡ false → mem u (map entry_url s.entries) ≡ false

  try_push-Once :
      (lane : Lane) (i : ℕ) (item : Item) (s : Composer)
      → Once s
      → Once (try_push py policy cap lane i item s)
  unfolding try_push
  try_push-Once lane i item s h =
      try_push_cases py policy cap Once lane i item s h
        (λ r d new. record { once = h.once; noted = λ u m. h.noted u (ground (arith, m)) })
        (λ new. record {
          once = distinct-snoc s.entries _ h.once (h.noted item.0.url_b64 new);
          noted =
              λ u m. ground (arith, m, mem-snoc u s.entries (entry_of lane i item s), h.noted u);
        })

  -- An entry shows a lane's item at the entry's lane rank.
  module _ (P : Lane → Item → Type 0) (banks aims : List Item) where
    abbrev pub Shows : QueueEntry → Item → Type 0
    Shows e item =
        (e.job ≡ item.0)
        × (e.evidence ≡ evidence_of item)
        × (get_elem? (lane_of e.lane banks aims) e.lane_rank ≡ some item)
        × P e.lane item

    abbrev pub Shown : QueueEntry → Type 0
    Shown e = (item : Item) × Shows e item

    try_push-Shows :
        (lane : Lane) (i : ℕ) (item : Item) (s : Composer)
        → get_elem? (lane_of lane banks aims) i ≡ some item
        → P lane item
        → All Shown s.entries
        → All Shown (try_push py policy cap lane i item s).entries
    unfolding try_push
    try_push-Shows lane i item s at p h =
        try_push_cases py policy cap (λ t. All Shown t.entries) lane i item s h (λ r d new. h)
          (λ new. All-append Shown s.entries _ h ((item, (refl, refl, at, p)), tt))

module _ (py : Python) (policy : QueuePolicy) (iso : Str) (today : ℕ) (ys : List JobLight) where
  -- An eligible job of `ys` with its freshness, which is not stale.
  abbrev pub IsFine : Item → Type 0
  IsFine item =
      (ineligibility item.0 iso policy ≡ none)
      × (item.1 ≡ freshness_of py item.0 today policy)
      × (is_stale item.1.bucket ≡ false)
      × (mem item.0.url_b64 (map url_of ys) ≡ true)

  admitted-IsFine :
      (jobs : List JobLight)
      → All (λ j. mem j.url_b64 (map url_of ys) ≡ true) jobs
      → All IsFine (admitted py policy iso today jobs)
  unfolding admitted
  admitted-IsFine [] hs = tt
  admitted-IsFine (job ∷ jobs) hs = elim (Option-cases (ineligibility job iso policy)) [
    | inr (failure, e) ↦ rw (e, admitted) (admitted-IsFine jobs hs.1)
    | inl fit ↦ elim (Bool-cases (is_stale (freshness_of py job today policy).bucket)) [
      | inl old ↦ rw (fit, old, admitted) (admitted-IsFine jobs hs.1)
      | inr recent ↦
          rw (fit, recent, admitted) ((fit, refl, recent, hs.0), admitted-IsFine jobs hs.1)
    ]
  ]

  -- In its lane, an item is fine, and one of the aim lane has tier 4 or more.
  abbrev pub InLane : Lane → Item → Type 0
  InLane bank item = IsFine item
  InLane aim item = IsFine item × (is_aim item ≡ true)

All-keep {κ} :
    (P : Item → Type κ) (p : Item → Bool) (items : List Item)
    → All P items
    → All (λ item. P item × (p item ≡ true)) (keep p items)
All-keep P p [] hs = tt
All-keep P p (x ∷ xs) hs = elim (Bool-cases (p x)) [
  | inl e ↦ rw e ((hs.0, e), All-keep P p xs hs.1)
  | inr e ↦ rw e (All-keep P p xs hs.1)
]

module _ (py : Python) (policy : QueuePolicy) (iso : Str) (today : ℕ) (jobs : List JobLight) where
  -- The two lanes of the jobs that the gate admits.
  abbrev pub banks : List Item
  banks = bank_lane (gate_of py policy iso today jobs).eligible

  abbrev pub aims : List Item
  aims = aim_lane (gate_of py policy iso today jobs).eligible

  eligible-IsFine :
      All (IsFine py policy iso today jobs) (gate_of py policy iso today jobs).eligible
  unfolding gate_of
  eligible-IsFine =
      let sorted : List JobLight = sort_by (list_order nat_order) url_of jobs in
      rw (eligible-admit_all py policy iso today sorted empty_gate) (
        admitted-IsFine py policy iso today jobs sorted
          (All-sort_by (list_order nat_order) url_of _ jobs (All-mem url_of jobs jobs (λ u m. m))))

  banks-InLane : All (InLane py policy iso today jobs bank) banks
  unfolding bank_lane
  banks-InLane = All-sort_by (list_order int_order) bank_key _ _ eligible-IsFine

  aims-InLane : All (InLane py policy iso today jobs aim) aims
  unfolding aim_lane
  aims-InLane = All-sort_by (list_order int_order) aim_key _ _ (All-keep _ is_aim _ eligible-IsFine)

  compose-Shown :
      (cap : ℕ)
      → All
          (Shown py policy cap (InLane py policy iso today jobs) banks aims)
          (compose py policy cap (gate_of py policy iso today jobs)).entries
  unfolding compose
  compose-Shown cap =
      interleave_inv py policy cap (λ s. All Shows s.entries)
        (λ lane i item. (get_elem? (lane_of lane banks aims) i ≡ some item) × In lane item)
        (λ lane i item s h room hs.
          try_push-Shows py policy cap In banks aims lane i item s h.0 h.1 hs)
        0 banks aims (start (gate_of py policy iso today jobs))
        (AllFrom-join _ (In bank) 0 banks (AllFrom-get_elem? banks) banks-InLane)
        (AllFrom-join _ (In aim) 0 aims (AllFrom-get_elem? aims) aims-InLane) tt
    where
      In : Lane → Item → Type 0
      In = InLane py policy iso today jobs

      Shows : QueueEntry → Type 0
      Shows = Shown py policy cap In banks aims

  compose-Once :
      (cap : ℕ) → Once py policy cap (compose py policy cap (gate_of py policy iso today jobs))
  unfolding compose
  compose-Once cap =
      interleave_inv py policy cap (Once py policy cap) (λ lane i item. Unit {0})
        (λ lane i item s _ room h. try_push-Once py policy cap lane i item s h) 0 banks aims
        (start (gate_of py policy iso today jobs)) (AllFrom-trivial 0 _) (AllFrom-trivial 0 _)
        (record { once = refl; noted = λ u m. refl })

module _ (py : Python) (policy : QueuePolicy) (cap : ℕ) (iso : Str) (jobs : List JobLight)
    (q : QueueResult) (built : build_queue py policy cap iso jobs ≡ some q) where
  -- Every entry shows, with its evidence, the item at its lane rank in its lane; that item is a
  -- job of the input that passes every eligibility check and is not stale by its freshness of
  -- today, and in the aim lane its tier is 4 or more.
  pub entries_justified :
      (today : ℕ) × (py.date_of iso ≡ some today)
      × All
          (Shown py policy cap
            (InLane py policy iso today jobs)
            (banks py policy iso today jobs)
            (aims py policy iso today jobs))
          q.entries
  unfolding finish
  entries_justified =
      let (today, dated, same) = build_queue_inv py policy cap iso jobs q built in
      (today, dated, rw (← same) (compose-Shown py policy iso today jobs cap))

  -- No url stands in two entries, also where the input repeats it.
  pub entries_once : distinct (map entry_url q.entries) ≡ true
  unfolding finish
  entries_once =
      let (today, dated, same) = build_queue_inv py policy cap iso jobs q built in
      rw (← same) (compose-Once py policy iso today jobs cap).once
