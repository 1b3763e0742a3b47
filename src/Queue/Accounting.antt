-- ===== src/Queue/Accounting.antt =====
-- Every job is queued, or counted under exactly one reason (webapp/backend/ranking.py).
use jobhunt.Prelude.{
  All-mem, ℕ, ◌+◌, ◌≡◌, refl, sym, ap, ◌∙◌, Bool, true, Str, List, [], ◌∷◌, map, some, arith,
  length, length-append, mem, distinct, Option-cases, zero-add, inl, inr, AllFrom-of_All, sort_by,
  list_order, nat_order, int_order, length-sort_by, mem-sort_by, distinct-sort_by, keep,
}
use jobhunt.Queue.Job.{JobLight, QueuePolicy, Python}
use jobhunt.Queue.Lanes.{
  total, Item, Gate, admit, admit_all, bank_lane, aim_lane, is_aim, bank_key, aim_key,
}
use jobhunt.Queue.Compose.{
  Composer, Lane, QueueResult, try_push, overflow, compose, finish, gate_of, build_queue, start,
  url_of, empty_gate,
}
use jobhunt.Queue.Loop.{interleave_inv}
use jobhunt.Queue.Counts.{
  name, left, left-decide, left-none, total-count, overflow-total, total-sort_by,
}
use jobhunt.Queue.Admitted.{eligible-admit_all, distinct-admitted}

admit-total :
    (py : Python) (policy : QueuePolicy) (iso : Str) (today : ℕ) (job : JobLight) (g : Gate)
    → length (admit py policy iso today job g).eligible
        + total (admit py policy iso today job g).counts
      ≡ length g.eligible + total g.counts + 1
unfolding admit
admit-total py policy iso today job g = grind (arith, total-count, length-append)

admit_all-total :
    (py : Python) (policy : QueuePolicy) (iso : Str) (today : ℕ) (jobs : List JobLight) (g : Gate)
    → let g' = admit_all py policy iso today jobs g in
      length g'.eligible + total g'.counts ≡ length g.eligible + total g.counts + length jobs
unfolding admit_all
admit_all-total py policy iso today [] g = omega arith
admit_all-total py policy iso today (job ∷ jobs) g = omega (
  arith,
  admit-total py policy iso today job g,
  admit_all-total py policy iso today jobs (admit py policy iso today job g),
)

-- What a push leaves undecided, it does not lose.
abbrev balance : List Item → Composer → ℕ
balance items s = length s.entries + total s.counts + left s.decided items

try_push-balance :
    (py : Python) (policy : QueuePolicy) (cap : ℕ) (items : List Item) (lane : Lane) (i : ℕ)
    (item : Item) (s : Composer)
    → mem (name item) (map name items) ≡ true
    → distinct (map name items) ≡ true
    → balance items (try_push py policy cap lane i item s) ≡ balance items s
unfolding try_push
try_push-balance py policy cap items lane i item s m d =
    grind (arith, left-decide (name item) s.decided items m d, total-count, length-append)

mem-keep :
    (p : Item → Bool) (u : Str) (items : List Item)
    → mem u (map name (keep p items)) ≡ true
    → mem u (map name items) ≡ true
mem-keep p u [] m = m
mem-keep p u (x ∷ xs) m = ground (arith, mem-keep p u xs)

mem-bank-of-aim :
    (u : Str) (eligible : List Item)
    → mem u (map name (aim_lane eligible)) ≡ true
    → mem u (map name (bank_lane eligible)) ≡ true
unfolding aim_lane bank_lane
mem-bank-of-aim u eligible m =
    mem-sort_by (list_order int_order) bank_key name u eligible
    ∙ mem-keep is_aim u eligible
        (sym (mem-sort_by (list_order int_order) aim_key name u (keep is_aim eligible)) ∙ m)

compose-balance :
    (py : Python) (policy : QueuePolicy) (cap : ℕ) (g : Gate)
    → distinct (map name g.eligible) ≡ true
    → balance (bank_lane g.eligible) (compose py policy cap g) ≡ length g.eligible + total g.counts
unfolding compose bank_lane
compose-balance py policy cap g d =
    interleave_inv py policy cap (λ s. balance items s ≡ length g.eligible + total g.counts)
      (λ lane i item. InBank item)
      (λ lane i item s m room h. try_push-balance py policy cap items lane i item s m d' ∙ h) 0
      items (aim_lane g.eligible) (start g)
      (AllFrom-of_All InBank 0 items (All-mem name items items (λ u m. m)))
      (AllFrom-of_All InBank 0 (aim_lane g.eligible)
        (All-mem name (aim_lane g.eligible) items (λ u m. mem-bank-of-aim u g.eligible m)))
      (omega (arith, left-none items, same))
  where
    items : List Item
    items = bank_lane g.eligible

    InBank : Item → Type 0
    InBank item = mem (name item) (map name items) ≡ true

    d' : distinct (map name items) ≡ true
    d' = distinct-sort_by (list_order int_order) bank_key name g.eligible ∙ d

    same : length items ≡ length g.eligible
    same = length-sort_by (list_order int_order) bank_key g.eligible

-- A queue was built on a `today` that is a date.
pub build_queue_inv :
    (py : Python) (policy : QueuePolicy) (cap : ℕ) (iso : Str) (jobs : List JobLight)
    (q : QueueResult)
    → build_queue py policy cap iso jobs ≡ some q
    → (today : ℕ) × (py.date_of iso ≡ some today)
      × (finish py policy cap (length jobs) (gate_of py policy iso today jobs) ≡ q)
unfolding build_queue
build_queue_inv py policy cap iso jobs q e = elim (Option-cases (py.date_of iso)) [
  | inl bad ↦ absurd (ground (arith, bad))
  | inr (today, good) ↦ (today, good, ground (arith, good))
]

build_queue_of_date :
    (py : Python) (policy : QueuePolicy) (cap : ℕ) (iso : Str) (today : ℕ) (jobs : List JobLight)
    → py.date_of iso ≡ some today
    → build_queue py policy cap iso jobs
      ≡ some (finish py policy cap (length jobs) (gate_of py policy iso today jobs))
unfolding build_queue
build_queue_of_date py policy cap iso today jobs dated = rw (dated, build_queue)

finish-balance :
    (py : Python) (policy : QueuePolicy) (cap n : ℕ) (g : Gate)
    → distinct (map name g.eligible) ≡ true
    → length (finish py policy cap n g).entries + total (finish py policy cap n g).excluded_counts
      ≡ length g.eligible + total g.counts
unfolding finish
finish-balance py policy cap n g d =
    let s : Composer = compose py policy cap g in
    let items : List Item = bank_lane g.eligible in
    omega (
      arith,
      total-sort_by (overflow cap s.decided 0 items s.counts s.detailed).0,
      overflow-total cap s.decided 0 items s.counts s.detailed,
      compose-balance py policy cap g d,
    )

gate-total :
    (py : Python) (policy : QueuePolicy) (iso : Str) (today : ℕ) (jobs : List JobLight)
    → let g = gate_of py policy iso today jobs in length g.eligible + total g.counts ≡ length jobs
unfolding gate_of total
gate-total py policy iso today jobs =
    admit_all-total py policy iso today (sort_by (list_order nat_order) url_of jobs) empty_gate
    ∙ rw zero-add (length-sort_by (list_order nat_order) url_of jobs)

gate-distinct :
    (py : Python) (policy : QueuePolicy) (iso : Str) (today : ℕ) (jobs : List JobLight)
    → distinct (map url_of jobs) ≡ true
    → distinct (map name (gate_of py policy iso today jobs).eligible) ≡ true
unfolding gate_of
gate-distinct py policy iso today jobs d =
    let sorted : List JobLight = sort_by (list_order nat_order) url_of jobs in
    ap (λ l. distinct (map name l)) (eligible-admit_all py policy iso today sorted empty_gate)
    ∙ distinct-admitted py policy iso today sorted
        (distinct-sort_by (list_order nat_order) url_of url_of jobs ∙ d)

-- With a `today` that is a date the queue is built, and each job of distinct urls is either one
-- entry of the queue or counted under one reason.
pub accounts :
    (py : Python) (policy : QueuePolicy) (cap : ℕ) (iso : Str) (today : ℕ) (jobs : List JobLight)
    → py.date_of iso ≡ some today
    → distinct (map url_of jobs) ≡ true
    → (q : QueueResult) × (build_queue py policy cap iso jobs ≡ some q)
      × (q.considered ≡ length jobs)
      × (length q.entries + total q.excluded_counts ≡ q.considered)
unfolding finish
accounts py policy cap iso today jobs dated d =
    let g : Gate = gate_of py policy iso today jobs in
    (
      finish py policy cap (length jobs) g,
      build_queue_of_date py policy cap iso today jobs dated,
      refl,
      finish-balance py policy cap (length jobs) g (gate-distinct py policy iso today jobs d)
          ∙ gate-total py policy iso today jobs,
    )
