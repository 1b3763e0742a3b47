-- ===== src/Enrichment/Pass.antt =====
-- One pass over the postings of a run and what its report adds up to
-- (webapp/backend/sources/enrichment.py).
use jobhunt.Prelude.{
  ℕ, ◌+◌, ◌≡◌, refl, arith, Bool, true, false, Option, none, some, Str, codes, List, [], ◌∷◌, ◌++◌,
  suc, length, count_if, mem, if◌then◌else◌, Bool-cases, inl, inr,
}
use jobhunt.Scoring.Profile.{Profile}
use jobhunt.Scoring.Texts.{Readers}
use jobhunt.Enrichment.Prefilter.{
  CheapPosting, Category, Reason, Decided, decided, attribute_error, ProbedProfile, probed,
  prefilter_posting, IsDomestic, prefilter_posting-raises,
}

-- One row that the run's dirty ids are joined to.
pub record CheapRow : Type 0 where
  pub posting_version_id : Str
  pub posting : CheapPosting
  pub url : Option Str

pub record WorkItem : Type 0 where
  pub posting_id : Str
  pub posting_version_id : Option Str
  pub url : Option Str

-- The worklist, and the reason of each posting that was skipped.
pub record Worklist : Type 0 where
  pub skipped : List (Category × Reason)
  pub items : List WorkItem

pub data Selected : Type 0 where
  selected : Worklist → Selected
  raised : Str → Selected

unresolved : Str → WorkItem
unresolved id = record { posting_id = id; posting_version_id = none; url = none }

abbrev add_item : WorkItem → Selected → Selected
add_item i (raised name) = raised name
add_item i (selected w) = selected (record w { items = i ∷ w.items })

-- A raise at one posting ends the loop, whatever comes after it.
unfoldable pub sort_posting : Decided → WorkItem → Selected → Selected
sort_posting (attribute_error name) i rest = raised name
sort_posting (decided none) i rest = add_item i rest
sort_posting (decided (some c)) i (raised name) = raised name
sort_posting (decided (some c)) i (selected w) = selected (record w { skipped = c ∷ w.skipped })

-- The dirty ids with their rows; an id without one is kept, and cannot be fetched.
unfoldable pub worklist : Readers → ProbedProfile → List (Str × Option CheapRow) → Selected
unfolding sort_posting unresolved
worklist re pf [] = selected (record { skipped = []; items = [] })
worklist re pf ((id, none) ∷ ids) = add_item (unresolved id) (worklist re pf ids)
worklist re pf ((id, some r) ∷ ids) =
    sort_posting (prefilter_posting re pf r.posting)
      (record { posting_id = id; posting_version_id = some r.posting_version_id; url = r.url })
      (worklist re pf ids)

abbrev pub is_described : List Str → WorkItem → Bool
is_described usable i = elim i.posting_version_id [ none ↦ false | some v ↦ mem v usable ]

unfoldable pub to_fetch : List Str → List WorkItem → List WorkItem
to_fetch usable [] = []
to_fetch usable (i ∷ is) =
    let rest = to_fetch usable is in if is_described usable i then rest else i ∷ rest

pub data FetchStatus : Type 0 where
  available empty unavailable : FetchStatus

abbrev pub is_available : FetchStatus → Bool
is_available available = true
is_available _ = false

abbrev pub is_blank : FetchStatus → Bool
is_blank empty = true
is_blank _ = false

abbrev pub is_failed : FetchStatus → Bool
is_failed unavailable = true
is_failed _ = false

pub record EnrichmentReport : Type 0 where
  pub considered : ℕ
  pub already_described : ℕ
  pub skipped_total : ℕ
  pub fetched : ℕ
  pub available : ℕ
  pub empty : ℕ
  pub failed : ℕ
  pub rows_written : ℕ

-- `run_one`: a fetch after the deadline or without a URL is not attempted. The status of an attempt
-- is what the transport gives for the URL.
unfoldable pub run_one : (Str → FetchStatus) → (Str → Bool) → WorkItem → FetchStatus
run_one fetch late i =
    if late i.posting_id then unavailable else elim i.url [ none ↦ unavailable | some u ↦ fetch u ]

unfoldable pub statuses : (Str → FetchStatus) → (Str → Bool) → List WorkItem → List FetchStatus
unfolding run_one
statuses fetch late [] = []
statuses fetch late (i ∷ is) = run_one fetch late i ∷ statuses fetch late is

unfoldable pub report_of :
    (Str → FetchStatus) → (Str → Bool) → List Str → ℕ → Selected → Option EnrichmentReport
report_of fetch late usable considered (raised name) = none
report_of fetch late usable considered (selected w) =
    let chosen = to_fetch usable w.items in
    let done = statuses fetch late chosen in
    some (record {
      considered = considered;
      already_described = count_if (is_described usable) w.items;
      skipped_total = length w.skipped;
      fetched = length chosen;
      available = count_if is_available done;
      empty = count_if is_blank done;
      failed = count_if is_failed done;
      rows_written = length done;
    })

-- None is the AttributeError that leaves the pass.
unfoldable pub enrich_run :
    Readers
    → ProbedProfile
    → (Str → FetchStatus)
    → (Str → Bool)
    → List Str
    → List (Str × Option CheapRow)
    → Option EnrichmentReport
enrich_run re pf fetch late usable ids =
    report_of fetch late usable (length ids) (worklist re pf ids)

-- The sums that the report promises, when the pass returns one.
abbrev pub Accounted : Option EnrichmentReport → Type 0
Accounted none = Unit
Accounted (some r) =
    (r.considered ≡ r.already_described + r.skipped_total + r.fetched)
    × (r.fetched ≡ r.available + r.empty + r.failed)
    × (r.rows_written ≡ r.fetched)

abbrev Counted : ℕ → Selected → Type 0
Counted n (raised name) = Unit
Counted n (selected w) = n ≡ length w.skipped + length w.items

add_item-Counted :
    (n : ℕ) (i : WorkItem) (s : Selected) → Counted n s → Counted (suc n) (add_item i s)
add_item-Counted n i (raised name) h = tt
add_item-Counted n i (selected w) h = omega arith

sort_posting-Counted :
    (n : ℕ) (d : Decided) (i : WorkItem) (s : Selected)
    → Counted n s
    → Counted (suc n) (sort_posting d i s)
unfolding sort_posting
sort_posting-Counted n (attribute_error name) i s h = tt
sort_posting-Counted n (decided none) i s h = add_item-Counted n i s h
sort_posting-Counted n (decided (some c)) i (raised name) h = tt
sort_posting-Counted n (decided (some c)) i (selected w) h = omega arith

worklist-Counted :
    (re : Readers) (pf : ProbedProfile) (ids : List (Str × Option CheapRow))
    → Counted (length ids) (worklist re pf ids)
unfolding worklist
worklist-Counted re pf [] = refl
worklist-Counted re pf ((id, none) ∷ ids) =
    add_item-Counted (length ids) _ (worklist re pf ids) (worklist-Counted re pf ids)
worklist-Counted re pf ((id, some r) ∷ ids) =
    sort_posting-Counted (length ids) (prefilter_posting re pf r.posting) _ (worklist re pf ids)
      (worklist-Counted re pf ids)

length-to_fetch :
    (usable : List Str) (items : List WorkItem)
    → length items ≡ count_if (is_described usable) items + length (to_fetch usable items)
unfolding to_fetch
length-to_fetch usable [] = refl
length-to_fetch usable (i ∷ is) = elim (Bool-cases (is_described usable i)) [
  | inl e ↦ rw e (omega (arith, length-to_fetch usable is))
  | inr e ↦ rw e (omega (arith, length-to_fetch usable is))
]

length-statuses :
    (fetch : Str → FetchStatus) (late : Str → Bool) (items : List WorkItem)
    → length (statuses fetch late items) ≡ length items
unfolding statuses
length-statuses fetch late [] = refl
length-statuses fetch late (i ∷ is) = omega (arith, length-statuses fetch late is)

count_statuses :
    (done : List FetchStatus)
    → length done ≡ count_if is_available done + count_if is_blank done + count_if is_failed done
count_statuses [] = refl
count_statuses (available ∷ done) = omega (arith, count_statuses done)
count_statuses (empty ∷ done) = omega (arith, count_statuses done)
count_statuses (unavailable ∷ done) = omega (arith, count_statuses done)

add_item-raised :
    (i : WorkItem) (s : Selected)
    → (name : Str) × (s ≡ raised name)
    → (name : Str) × (add_item i s ≡ raised name)
add_item-raised i s (name, e) = (name, rw e refl)

sort_posting-raised :
    (d : Decided) (i : WorkItem) (s : Selected)
    → (name : Str) × (s ≡ raised name)
    → (name : Str) × (sort_posting d i s ≡ raised name)
unfolding sort_posting
sort_posting-raised (attribute_error other) i s (name, e) = (other, refl)
sort_posting-raised (decided none) i s (name, e) = (name, rw e refl)
sort_posting-raised (decided (some c)) i s (name, e) = (name, rw (e, sort_posting) refl)

worklist_raises :
    (re : Readers) (pf : Profile) (earlier later : List (Str × Option CheapRow)) (id : Str)
    (r : CheapRow)
    → IsDomestic re pf r.posting
    → (name : Str) × (worklist re (probed pf) (earlier ++ (id, some r) ∷ later) ≡ raised name)
unfolding worklist
worklist_raises re pf [] later id r h =
    (codes "dc_pattern", rw (prefilter_posting-raises re pf r.posting h) refl)
worklist_raises re pf ((other, none) ∷ earlier) later id r h =
    add_item-raised _ _ (worklist_raises re pf earlier later id r h)
worklist_raises re pf ((other, some s) ∷ earlier) later id r h =
    sort_posting-raised (prefilter_posting re (probed pf) s.posting) _ _
      (worklist_raises re pf earlier later id r h)

module _ (re : Readers) (fetch : Str → FetchStatus) (late : Str → Bool) (usable : List Str) where
  report_of-Accounted :
      (ids : List (Str × Option CheapRow)) (s : Selected)
      → Counted (length ids) s
      → Accounted (report_of fetch late usable (length ids) s)
  unfolding report_of
  report_of-Accounted ids (raised name) h = tt
  report_of-Accounted ids (selected w) h =
      let chosen = to_fetch usable w.items in
      let split = length-to_fetch usable w.items in
      let kept = length-statuses fetch late chosen in
      let counted = count_statuses (statuses fetch late chosen) in
      (omega (arith, h, split), omega (arith, kept, counted), kept)

  -- Every posting considered is already described, skipped or fetched; every fetch is available,
  -- empty or failed; and one row is written for each.
  pub enrich_run-Accounted :
      (pf : ProbedProfile) (ids : List (Str × Option CheapRow))
      → Accounted (enrich_run re pf fetch late usable ids)
  unfolding enrich_run
  enrich_run-Accounted pf ids =
      report_of-Accounted ids (worklist re pf ids) (worklist-Counted re pf ids)

  -- With the profile that the run service compiles, a pass over ids among which one is an on-site
  -- posting of the United States raises before anything is fetched.
  pub enrich_run-raises :
      (pf : Profile) (earlier later : List (Str × Option CheapRow)) (id : Str) (r : CheapRow)
      → IsDomestic re pf r.posting
      → enrich_run re (probed pf) fetch late usable (earlier ++ (id, some r) ∷ later) ≡ none
  unfolding enrich_run report_of
  enrich_run-raises pf earlier later id r h =
      let (name, e) = worklist_raises re pf earlier later id r h in rw e refl
