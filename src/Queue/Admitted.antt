-- ===== src/Queue/Admitted.antt =====
-- What the gate admits, as a plain recursion on the jobs (webapp/backend/ranking.py).
use jobhunt.Prelude.{
  Option, if◌then◌else◌, ℕ, ◌≡◌, refl, sym, ◌∙◌, true, false, Str, List, [], ◌∷◌, ◌++◌, map, some,
  arith, mem, distinct, none, append_assoc, append-nil,
}
use jobhunt.Queue.Job.{JobLight, QueuePolicy, Python}
use jobhunt.Queue.Lanes.{is_stale, Item, Gate, admit, admit_all}
use jobhunt.Queue.Eligibility.{Reason, Detail, ineligibility}
use jobhunt.Queue.Freshness.{Freshness, freshness_of}
use jobhunt.Queue.Compose.{url_of}
use jobhunt.Queue.Counts.{name}

abbrev pub admit_item :
    Option (Reason × Option Detail) → JobLight → Freshness → List Item → List Item
admit_item (some _) job fresh rest = rest
admit_item none job fresh rest = if is_stale fresh.bucket then rest else (job, fresh) ∷ rest

-- The jobs that the gate lets through, in order, with their freshness.
unfoldable pub admitted : Python → QueuePolicy → Str → ℕ → List JobLight → List Item
admitted py policy iso today [] = []
admitted py policy iso today (job ∷ jobs) =
    admit_item (ineligibility job iso policy) job (freshness_of py job today policy)
      (admitted py policy iso today jobs)

eligible-admit :
    (py : Python) (policy : QueuePolicy) (iso : Str) (today : ℕ) (job : JobLight) (g : Gate)
    (rest : List Item)
    → (admit py policy iso today job g).eligible ++ rest
      ≡ g.eligible
        ++ admit_item (ineligibility job iso policy) job (freshness_of py job today policy) rest
unfolding admit
eligible-admit py policy iso today job g rest =
    ground (arith, append_assoc g.eligible ((job, freshness_of py job today policy) ∷ []) rest)

pub eligible-admit_all :
    (py : Python) (policy : QueuePolicy) (iso : Str) (today : ℕ) (jobs : List JobLight) (g : Gate)
    → (admit_all py policy iso today jobs g).eligible
      ≡ g.eligible ++ admitted py policy iso today jobs
unfolding admit_all admitted
eligible-admit_all py policy iso today [] g = sym (append-nil g.eligible)
eligible-admit_all py policy iso today (job ∷ jobs) g =
    eligible-admit_all py policy iso today jobs (admit py policy iso today job g)
    ∙ eligible-admit py policy iso today job g (admitted py policy iso today jobs)

pub mem-admitted :
    (py : Python) (policy : QueuePolicy) (iso : Str) (today : ℕ) (u : Str) (jobs : List JobLight)
    → mem u (map url_of jobs) ≡ false
    → mem u (map name (admitted py policy iso today jobs)) ≡ false
unfolding admitted
mem-admitted py policy iso today u [] m = refl
mem-admitted py policy iso today u (job ∷ jobs) m =
    ground (arith, mem-admitted py policy iso today u jobs)

pub distinct-admitted :
    (py : Python) (policy : QueuePolicy) (iso : Str) (today : ℕ) (jobs : List JobLight)
    → distinct (map url_of jobs) ≡ true
    → distinct (map name (admitted py policy iso today jobs)) ≡ true
unfolding admitted
distinct-admitted py policy iso today [] d = refl
distinct-admitted py policy iso today (job ∷ jobs) d = ground (
  arith,
  mem-admitted py policy iso today job.url_b64 jobs,
  distinct-admitted py policy iso today jobs,
)
