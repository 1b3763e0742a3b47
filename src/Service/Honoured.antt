-- ===== src/Service/Honoured.antt =====
-- What becomes of a run whose cancel was accepted (webapp/backend/runservice.py).
use jobhunt.Prelude.{
  ◌≡◌, refl, sym, subst, Bool, true, false, none, some, List, [], ◌∷◌, if◌then◌else◌, Bool-cases,
  inl, inr,
}
use jobhunt.Store.Rows.{RunStatus, RunStatus.cancelled}
use jobhunt.Service.Supervise.{
  stage_ok, stage_failed, stage_cancelled, Outcome, of_fetch, Phase, fetching, skipping,
  announcing_enrichment, enriching, finishing_enrichment, stopping_enrichment, announcing_scoring,
  scoring, finishing_scoring, settling, settled, Reply, returned, raised, task_returned,
  task_raised, task_stopped, appended, append_raised, append_stopped, score_returned, score_raised,
  score_checked, ActiveRun, outcome_of, resume, Signal, cancel, reply, kill, is_settled,
  deliver_cancel, advance, advance_all,
}

-- The outcome of the run, where it has one, is that of a cancelled run.
abbrev pub Yields : Phase → Type 0
Yields (settling o) = o ≡ of_fetch cancelled
Yields (settled (some o)) = o ≡ of_fetch cancelled
Yields (settled none) = Unit
Yields fetching = Unit
Yields (skipping fs) = Unit
Yields (announcing_enrichment fs) = Unit
Yields (enriching fs) = Unit
Yields (finishing_enrichment fs b) = Unit
Yields (stopping_enrichment fs) = Unit
Yields (announcing_scoring fs e) = Unit
Yields (scoring fs e) = Unit
Yields (finishing_scoring fs e s) = Unit

abbrev IsBound : ActiveRun → Type 0
IsBound r = (r.cancel_requested ≡ true) × Yields r.phase

licensed-Yields :
    (b : Bool) (fs : RunStatus) → Yields (if b then announcing_enrichment fs else skipping fs)
licensed-Yields true fs = tt
licensed-Yields false fs = tt

resume-IsBound :
    (p : Phase) (x : Reply p) (r : ActiveRun)
    → r.cancel_requested ≡ true
    → r.phase ≡ p
    → Yields p
    → IsBound (resume p x r)
unfolding resume outcome_of
resume-IsBound fetching fs r h e y = (h, licensed-Yields _ fs)
resume-IsBound (skipping fs) (returned w) r h e y = (h, rw h refl)
resume-IsBound (skipping fs) raised r h e y = (h, tt)
resume-IsBound (announcing_enrichment fs) (returned w) r h e y = (h, tt)
resume-IsBound (announcing_enrichment fs) raised r h e y = (h, tt)
resume-IsBound (enriching fs) task_returned r h e y = (h, tt)
resume-IsBound (enriching fs) task_raised r h e y = (h, tt)
resume-IsBound (enriching fs) task_stopped r h e y = (h, rw h tt)
resume-IsBound (finishing_enrichment fs b) (appended w) r h e y = (h, rw h tt)
resume-IsBound (finishing_enrichment fs true) append_raised r h e y = (h, tt)
resume-IsBound (finishing_enrichment fs false) append_raised r h e y = (h, tt)
resume-IsBound (finishing_enrichment fs b) (append_stopped c) r h e y = (h, rw h tt)
resume-IsBound (stopping_enrichment fs) (returned w) r h e y = (h, rw h tt)
resume-IsBound (stopping_enrichment fs) raised r h e y = (h, tt)
resume-IsBound (announcing_scoring fs e) (returned w) r h k y = (h, tt)
resume-IsBound (announcing_scoring fs e) raised r h k y = (h, tt)
resume-IsBound (scoring fs e) score_returned r h k y = (h, tt)
resume-IsBound (scoring fs e) score_raised r h k y = (h, tt)
resume-IsBound (scoring fs e) score_checked r h k y = (h, tt)
resume-IsBound (finishing_scoring fs e s) (returned w) r h k y = (h, rw h refl)
resume-IsBound (finishing_scoring fs e stage_ok) raised r h k y = (h, tt)
resume-IsBound (finishing_scoring fs e stage_failed) raised r h k y = (h, tt)
resume-IsBound (finishing_scoring fs e stage_cancelled) raised r h k y = (h, tt)
resume-IsBound (settling o) (returned w) r h k y = (h, y)
resume-IsBound (settling o) raised r h k y = (h, tt)
resume-IsBound (settled o) x r h k y = (h, subst Yields (sym k) y)

advance-IsBound : (s : Signal) (r : ActiveRun) → IsBound r → IsBound (advance s r)
unfolding advance deliver_cancel
advance-IsBound cancel r h = elim (Bool-cases (is_settled r.phase)) [
  | inl e ↦ rw e h
  | inr e ↦ rw e (refl, h.1)
]
advance-IsBound (reply f) r h = resume-IsBound r.phase (f r.phase) r h.0 refl h.1
advance-IsBound kill r h = elim (Bool-cases (is_settled r.phase)) [
  | inl e ↦ rw e h
  | inr e ↦ rw e (h.0, tt)
]

advance_all-IsBound : (ss : List Signal) (r : ActiveRun) → IsBound r → IsBound (advance_all ss r)
unfolding advance_all
advance_all-IsBound [] r h = h
advance_all-IsBound (s ∷ ss) r h = advance_all-IsBound ss (advance s r) (advance-IsBound s r h)

-- Whether the outcome of the run is still open.
unfoldable pub is_undecided : Phase → Bool
is_undecided (settling o) = false
is_undecided (settled o) = false
is_undecided _ = true

undecided-Yields : (p : Phase) → is_undecided p ≡ true → (is_settled p ≡ false) × Yields p
unfolding is_undecided is_settled
undecided-Yields fetching h = (refl, tt)
undecided-Yields (skipping fs) h = (refl, tt)
undecided-Yields (announcing_enrichment fs) h = (refl, tt)
undecided-Yields (enriching fs) h = (refl, tt)
undecided-Yields (finishing_enrichment fs b) h = (refl, tt)
undecided-Yields (stopping_enrichment fs) h = (refl, tt)
undecided-Yields (announcing_scoring fs e) h = (refl, tt)
undecided-Yields (scoring fs e) h = (refl, tt)
undecided-Yields (finishing_scoring fs e s) h = (refl, tt)
undecided-Yields (settling o) h = cc
undecided-Yields (settled o) h = cc

cancel-IsBound : (r : ActiveRun) → is_undecided r.phase ≡ true → IsBound (advance cancel r)
unfolding advance deliver_cancel
cancel-IsBound r h = let (f, y) = undecided-Yields r.phase h in rw f (refl, y)

outcome-Yields :
    (p : Phase) (o : Outcome) → Yields p → p ≡ settled (some o) → o ≡ of_fetch cancelled
outcome-Yields p o y e = subst Yields e y

-- A run whose cancel is accepted before its outcome is decided has no other outcome than that of a
-- cancelled run, whatever is awaited before and after.
pub advance_all-cancel :
    (r : ActiveRun) (after : List Signal) (o : Outcome)
    → is_undecided r.phase ≡ true
    → (advance_all after (advance cancel r)).phase ≡ settled (some o)
    → o ≡ of_fetch cancelled
advance_all-cancel r after o h e =
    outcome-Yields _ o (advance_all-IsBound after _ (cancel-IsBound r h)).1 e
