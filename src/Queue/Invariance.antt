-- ===== src/Queue/Invariance.antt =====
-- The queue does not depend on the order of its input (webapp/backend/ranking.py).
use mathlib.Core.List.{Permᴰ}
use jobhunt.Prelude.{
  ℕ, ◌≡◌, ap₂, true, Str, List, map, Option, some, none, distinct, sort_by-permᴰ, length-permᴰ,
  list_order, nat_order,
}
use jobhunt.Queue.Job.{JobLight, QueuePolicy, Python}
use jobhunt.Queue.Compose.{QueueResult, build_queue, gate_of, finish, url_of, empty_gate}
use jobhunt.Queue.Lanes.{admit_all}

-- The queue of the jobs in sorted order.
build_sorted : Python → QueuePolicy → ℕ → Str → ℕ → List JobLight → Option QueueResult
build_sorted py policy cap iso n sorted = elim (py.date_of iso) [
  | none ↦ none
  | some today ↦ some (finish py policy cap n (admit_all py policy iso today sorted empty_gate))
]

-- Two orders of the same jobs, of distinct urls, give the same result in every part.
pub build_queue-permᴰ :
    (py : Python) (policy : QueuePolicy) (cap : ℕ) (iso : Str) {xs ys : List JobLight}
    → Permᴰ xs ys
    → distinct (map url_of xs) ≡ true
    → build_queue py policy cap iso xs ≡ build_queue py policy cap iso ys
unfolding build_queue gate_of build_sorted
build_queue-permᴰ py policy cap iso p d =
    ap₂ (build_sorted py policy cap iso) (length-permᴰ p)
      (sort_by-permᴰ url_of (list_order nat_order) p d)
