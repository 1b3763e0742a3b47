-- ===== src/Service/Told.antt =====
-- What the events of a run tell when its outcome is a success (webapp/backend/runservice.py).
use jobhunt.Prelude.{
  arith, ◌≡◌, refl, sym, ◌∙◌, subst, ap, Bool, true, false, ◌||◌, Option, none, some, List, [], ◌∷◌,
  if◌then◌else◌, Bool-cases, ◌⊎◌, inl, inr,
}
use jobhunt.Runs.Profile.{RunKind}
use jobhunt.Store.Rows.{RunStatus, RunStatus.cancelled}
use jobhunt.Service.Supervise.{
  StageStatus, stage_ok, stage_failed, stage_cancelled, Outcome, of_fetch, degraded, ServiceEvent,
  enrichment_started, enrichment_finished, enrichment_failed, enrichment_cancelled, scoring_started,
  scoring_finished, run_settled, Phase, fetching, skipping, announcing_enrichment, enriching,
  finishing_enrichment, stopping_enrichment, announcing_scoring, scoring, finishing_scoring,
  settling, settled, Reply, returned, raised, task_returned, task_raised, task_stopped, appended,
  append_raised, append_stopped, score_returned, score_raised, score_checked, ActiveRun, is_staged,
  licences, licensed, is_failed, outcome_of, resume, Signal, cancel, reply, kill, is_settled,
  deliver_cancel, advance, advance_all, new_run, at, log, scoring_event, enrichment_event,
  stages_skipped,
}
use jobhunt.Service.Kind.{kind-advance_all}

-- Some of the events of a list, in its order.
abbrev pub Part : List ServiceEvent → List ServiceEvent → Type 0
Part [] l = Unit
Part (e ∷ es) [] = ⊥
Part (e ∷ es) (f ∷ fs) = ((e ≡ f) × Part es fs) ⊎ Part (e ∷ es) fs

-- The events of both stages, the newest first.
abbrev pub stages_finished : List ServiceEvent
stages_finished = scoring_finished ∷ scoring_started ∷ enrichment_finished ∷ enrichment_started ∷ []

module _ (cancel_requested : Bool) (events : List ServiceEvent) where
  abbrev Enriched : StageStatus → Type 0
  Enriched stage_ok = Part events (enrichment_finished ∷ enrichment_started ∷ [])
  Enriched stage_failed = Unit
  Enriched stage_cancelled = cancel_requested ≡ true

  abbrev Scoring : StageStatus → Type 0
  Scoring stage_ok = Part events (scoring_started ∷ enrichment_finished ∷ enrichment_started ∷ [])
  Scoring stage_failed = Unit
  Scoring stage_cancelled = cancel_requested ≡ true

  abbrev Scored : StageStatus → StageStatus → Type 0
  Scored e stage_ok = Scoring e
  Scored e stage_failed = Unit
  Scored e stage_cancelled = cancel_requested ≡ true

module _ (k : RunKind) (stages : Option (StageStatus × StageStatus))
    (events : List ServiceEvent) where
  abbrev Told : Outcome → List ServiceEvent → Type 0
  Told (of_fetch fs) l =
      is_staged k ≡ true → licences fs ≡ true → (stages ≡ some (stage_ok, stage_ok)) × Part events l
  Told degraded l = Unit

-- What the events of a run are at each `await`, where the run may still succeed.
abbrev Trail : Phase → ActiveRun → Type 0
Trail fetching r = r.events ≡ []
Trail (skipping fs) r = licensed r.kind fs r.cancel_requested ≡ false
Trail (announcing_enrichment fs) r = r.events ≡ []
Trail (enriching fs) r = Part r.events (enrichment_started ∷ [])
Trail (finishing_enrichment fs b) r = Part r.events (enrichment_started ∷ [])
Trail (stopping_enrichment fs) r = r.cancel_requested ≡ true
Trail (announcing_scoring fs e) r = Enriched r.cancel_requested r.events e
Trail (scoring fs e) r = Scoring r.cancel_requested r.events e
Trail (finishing_scoring fs e s) r = Scored r.cancel_requested r.events e s
Trail (settling o) r = Told r.kind r.stages r.events o stages_finished
Trail (settled none) r = Unit
Trail (settled (some o)) r = Told r.kind r.stages r.events o (run_settled o ∷ stages_finished)

abbrev IsTold : ActiveRun → Type 0
IsTold r = Trail r.phase r

Part-later : (es l : List ServiceEvent) (e : ServiceEvent) → Part es l → Part es (e ∷ l)
Part-later [] l e h = tt
Part-later (x ∷ es) l e h = inr h

log-Part :
    (w : Bool) (e : ServiceEvent) (l events : List ServiceEvent)
    → Part events l
    → Part (if w then e ∷ events else events) (e ∷ l)
log-Part true e l events h = inl (refl, h)
log-Part false e l events h = Part-later events l e h

empty-Part : (events l : List ServiceEvent) → events ≡ [] → Part events l
empty-Part events l h = rw h tt

outcome_of-Told :
    (c : Bool) (fs : RunStatus) (b : Bool) (l : List ServiceEvent) (r : ActiveRun)
    → (c ≡ false
        → b ≡ false
        → is_staged r.kind ≡ true
        → licences fs ≡ true
        → (r.stages ≡ some (stage_ok, stage_ok)) × Part r.events l)
    → Told r.kind r.stages r.events (outcome_of c fs b) l
unfolding outcome_of licences
outcome_of-Told true fs b l r h = λ s f. absurd (cc f)
outcome_of-Told false cancelled b l r h = λ s f. absurd (cc f)
outcome_of-Told false _ true l r h = tt
outcome_of-Told false _ false l r h = λ s f. h refl refl s f

after_enrichment-IsTold :
    (c : Bool) (fs : RunStatus) (e : StageStatus) (r : ActiveRun)
    → r.cancel_requested ≡ c
    → Enriched r.cancel_requested r.events e
    → IsTold (at (if c then finishing_scoring fs e stage_cancelled else announcing_scoring fs e) r)
after_enrichment-IsTold true fs e r h t = h
after_enrichment-IsTold false fs e r h t = t

stopped-IsTold :
    (c : Bool) (fs : RunStatus) (r : ActiveRun)
    → r.cancel_requested ≡ c
    → IsTold (at (if c then stopping_enrichment fs else settled none) r)
stopped-IsTold true fs r h = h
stopped-IsTold false fs r h = tt

checked-IsTold :
    (c : Bool) (e : StageStatus) (r : ActiveRun)
    → r.cancel_requested ≡ c
    → Scoring r.cancel_requested r.events e
    → Scored r.cancel_requested r.events e (if c then stage_cancelled else stage_ok)
checked-IsTold true e r h t = h
checked-IsTold false e r h t = t

fetched-IsTold :
    (b : Bool) (fs : RunStatus) (r : ActiveRun)
    → licensed r.kind fs r.cancel_requested ≡ b
    → r.events ≡ []
    → IsTold (at (if b then announcing_enrichment fs else skipping fs) r)
fetched-IsTold true fs r h t = t
fetched-IsTold false fs r h t = h

abbrev ends : StageStatus → StageStatus → Option (StageStatus × StageStatus)
ends e s = some (e, s)

-- A run that is not cancelled and whose stages did not fail has the events of both.
Scored-Part :
    (w : Bool) (e s : StageStatus) (r : ActiveRun)
    → Scored r.cancel_requested r.events e s
    → r.cancel_requested ≡ false
    → is_failed e || is_failed s ≡ false
    → (ends e s ≡ ends stage_ok stage_ok) × Part (log w (scoring_event s) r).events stages_finished
unfolding is_failed
Scored-Part w stage_ok stage_ok r t c f = (refl, log-Part w _ _ r.events t)
Scored-Part w stage_cancelled stage_ok r t c f = absurd (cc (t, c))
Scored-Part w e stage_cancelled r t c f = absurd (cc (t, c))
Scored-Part w stage_failed stage_ok r t c f = absurd (cc f)
Scored-Part w stage_ok stage_failed r t c f = absurd (cc f)
Scored-Part w stage_failed stage_failed r t c f = absurd (cc f)
Scored-Part w stage_cancelled stage_failed r t c f = absurd (cc f)

not_licensed :
    (k : RunKind) (fs : RunStatus) (c : Bool)
    → licensed k fs c ≡ false
    → c ≡ false
    → is_staged k ≡ true
    → licences fs ≡ true
    → ⊥
unfolding licensed
not_licensed k fs c n h s l = cc (rw (s, l, h) at n)

Scoring-log :
    (w : Bool) (e : StageStatus) (r : ActiveRun)
    → Enriched r.cancel_requested r.events e
    → Scoring r.cancel_requested (log w scoring_started r).events e
Scoring-log w stage_ok r t = log-Part w _ _ r.events t
Scoring-log w stage_failed r t = tt
Scoring-log w stage_cancelled r t = t

Told-log :
    (w : Bool) (o : Outcome) (r : ActiveRun)
    → Told r.kind r.stages r.events o stages_finished
    → Told r.kind r.stages (log w (run_settled o) r).events o (run_settled o ∷ stages_finished)
Told-log w (of_fetch fs) r t = λ s l. ((t s l).0, log-Part w _ _ r.events (t s l).1)
Told-log w degraded r t = tt

resume-IsTold :
    (p : Phase) (x : Reply p) (r : ActiveRun) → r.phase ≡ p → Trail p r → IsTold (resume p x r)
unfolding resume
resume-IsTold fetching fs r h t = fetched-IsTold _ fs r refl t
resume-IsTold (skipping fs) (returned w) r h t =
    outcome_of-Told r.cancel_requested fs false stages_finished
      (record (log w stages_skipped r) { stages = none })
      (λ c b s l. absurd (not_licensed r.kind fs r.cancel_requested t c s l))
resume-IsTold (skipping fs) raised r h t = tt
resume-IsTold (announcing_enrichment fs) (returned w) r h t =
    log-Part w _ [] r.events (empty-Part r.events [] t)
resume-IsTold (announcing_enrichment fs) raised r h t = tt
resume-IsTold (enriching fs) task_returned r h t = t
resume-IsTold (enriching fs) task_raised r h t = t
resume-IsTold (enriching fs) task_stopped r h t = stopped-IsTold _ fs r refl
resume-IsTold (finishing_enrichment fs true) (appended w) r h t =
    after_enrichment-IsTold _ fs stage_ok (log w enrichment_finished r) refl
      (log-Part w _ _ r.events t)
resume-IsTold (finishing_enrichment fs false) (appended w) r h t =
    after_enrichment-IsTold _ fs stage_failed (log w enrichment_failed r) refl tt
resume-IsTold (finishing_enrichment fs true) append_raised r h t = t
resume-IsTold (finishing_enrichment fs false) append_raised r h t = tt
resume-IsTold (finishing_enrichment fs b) (append_stopped w) r h t =
    stopped-IsTold _ fs (log w (enrichment_event b) r) refl
resume-IsTold (stopping_enrichment fs) (returned w) r h t =
    after_enrichment-IsTold _ fs stage_cancelled (log w enrichment_cancelled r) refl t
resume-IsTold (stopping_enrichment fs) raised r h t = tt
resume-IsTold (announcing_scoring fs e) (returned w) r h t = Scoring-log w e r t
resume-IsTold (announcing_scoring fs e) raised r h t = tt
resume-IsTold (scoring fs e) score_returned r h t = t
resume-IsTold (scoring fs e) score_raised r h t = tt
resume-IsTold (scoring fs e) score_checked r h t = checked-IsTold _ e r refl t
resume-IsTold (finishing_scoring fs e s) (returned w) r h t =
    outcome_of-Told r.cancel_requested fs _ stages_finished
      (record (log w (scoring_event s) r) { stages = some (e, s) })
      (λ c b k l. Scored-Part w e s r t c b)
resume-IsTold (finishing_scoring fs e stage_ok) raised r h t = tt
resume-IsTold (finishing_scoring fs e stage_failed) raised r h t = tt
resume-IsTold (finishing_scoring fs e stage_cancelled) raised r h t = tt
resume-IsTold (settling o) (returned w) r h t = Told-log w o r t
resume-IsTold (settling o) raised r h t = tt
resume-IsTold (settled o) x r h t = subst (λ p. Trail p r) (sym h) t

still-not_licensed :
    (k : RunKind) (fs : RunStatus) (c : Bool) → licensed k fs c ≡ false → licensed k fs true ≡ false
unfolding licensed
still-not_licensed k fs c h = ground arith

-- A cancel request unsays nothing.
cancel-Trail :
    (p : Phase) (r : ActiveRun) → Trail p r → Trail p (record r { cancel_requested = true })
cancel-Trail (skipping fs) r t = still-not_licensed r.kind fs r.cancel_requested t
cancel-Trail (stopping_enrichment fs) r t = refl
cancel-Trail (announcing_scoring fs stage_cancelled) r t = refl
cancel-Trail (scoring fs stage_cancelled) r t = refl
cancel-Trail (finishing_scoring fs e stage_cancelled) r t = refl
cancel-Trail (finishing_scoring fs stage_cancelled stage_ok) r t = refl
cancel-Trail (settling (of_fetch fs)) r t = t
cancel-Trail (settled (some (of_fetch fs))) r t = t
cancel-Trail _ r t = t

advance-IsTold : (s : Signal) (r : ActiveRun) → IsTold r → IsTold (advance s r)
unfolding advance deliver_cancel
advance-IsTold cancel r h = elim (Bool-cases (is_settled r.phase)) [
  | inl e ↦ rw e h
  | inr e ↦ rw e (cancel-Trail r.phase r h)
]
advance-IsTold (reply f) r h = resume-IsTold r.phase (f r.phase) r refl h
advance-IsTold kill r h = elim (Bool-cases (is_settled r.phase)) [
  | inl e ↦ rw e h
  | inr e ↦ rw e tt
]

advance_all-IsTold : (ss : List Signal) (r : ActiveRun) → IsTold r → IsTold (advance_all ss r)
unfolding advance_all
advance_all-IsTold [] r h = h
advance_all-IsTold (s ∷ ss) r h = advance_all-IsTold ss (advance s r) (advance-IsTold s r h)

-- A run of a staged kind that settles with the status of a fetch that licences its stages had both
-- of them end well, and of its events none but their starts and successes are on file before its
-- settlement, in their order.
pub advance_all-success :
    (k : RunKind) (ss : List Signal) (fs : RunStatus)
    → is_staged k ≡ true
    → licences fs ≡ true
    → (advance_all ss (new_run k)).phase ≡ settled (some (of_fetch fs))
    → ((advance_all ss (new_run k)).stages ≡ some (stage_ok, stage_ok))
      × Part (advance_all ss (new_run k)).events (run_settled (of_fetch fs) ∷ stages_finished)
advance_all-success k ss fs s l e =
    subst (λ p. Trail p (advance_all ss (new_run k))) e (advance_all-IsTold ss (new_run k) refl)
      (ap is_staged (kind-advance_all ss (new_run k)) ∙ s) l
