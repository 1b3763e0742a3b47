-- ===== src/Service/Kind.antt =====
-- The kind of a run stays what it was (webapp/backend/runservice.py).
use jobhunt.Prelude.{◌≡◌, refl, ◌∙◌, true, false, List, [], ◌∷◌, Bool-cases, inl, inr}
use jobhunt.Service.Supervise.{
  stage_ok, stage_failed, stage_cancelled, Phase, fetching, skipping, announcing_enrichment,
  enriching, finishing_enrichment, stopping_enrichment, announcing_scoring, scoring,
  finishing_scoring, settling, settled, Reply, returned, raised, task_returned, task_raised,
  task_stopped, appended, append_raised, append_stopped, score_returned, score_raised,
  score_checked, ActiveRun, resume, Signal, cancel, reply, kill, is_settled, deliver_cancel,
  advance, advance_all,
}

kind-resume : (p : Phase) (x : Reply p) (r : ActiveRun) → (resume p x r).kind ≡ r.kind
unfolding resume
kind-resume fetching x r = refl
kind-resume (skipping fs) (returned w) r = refl
kind-resume (skipping fs) raised r = refl
kind-resume (announcing_enrichment fs) (returned w) r = refl
kind-resume (announcing_enrichment fs) raised r = refl
kind-resume (enriching fs) task_returned r = refl
kind-resume (enriching fs) task_raised r = refl
kind-resume (enriching fs) task_stopped r = refl
kind-resume (finishing_enrichment fs b) (appended w) r = refl
kind-resume (finishing_enrichment fs true) append_raised r = refl
kind-resume (finishing_enrichment fs false) append_raised r = refl
kind-resume (finishing_enrichment fs b) (append_stopped w) r = refl
kind-resume (stopping_enrichment fs) (returned w) r = refl
kind-resume (stopping_enrichment fs) raised r = refl
kind-resume (announcing_scoring fs e) (returned w) r = refl
kind-resume (announcing_scoring fs e) raised r = refl
kind-resume (scoring fs e) score_returned r = refl
kind-resume (scoring fs e) score_raised r = refl
kind-resume (scoring fs e) score_checked r = refl
kind-resume (finishing_scoring fs e s) (returned w) r = refl
kind-resume (finishing_scoring fs e stage_ok) raised r = refl
kind-resume (finishing_scoring fs e stage_failed) raised r = refl
kind-resume (finishing_scoring fs e stage_cancelled) raised r = refl
kind-resume (settling o) (returned w) r = refl
kind-resume (settling o) raised r = refl
kind-resume (settled o) x r = refl

pub kind-advance : (s : Signal) (r : ActiveRun) → (advance s r).kind ≡ r.kind
unfolding advance deliver_cancel
kind-advance cancel r = elim (Bool-cases (is_settled r.phase)) [
  | inl e ↦ rw e refl
  | inr e ↦ rw e refl
]
kind-advance (reply f) r = kind-resume r.phase (f r.phase) r
kind-advance kill r = elim (Bool-cases (is_settled r.phase)) [
  | inl e ↦ rw e refl
  | inr e ↦ rw e refl
]

pub kind-advance_all : (ss : List Signal) (r : ActiveRun) → (advance_all ss r).kind ≡ r.kind
unfolding advance_all
kind-advance_all [] r = refl
kind-advance_all (s ∷ ss) r = kind-advance_all ss (advance s r) ∙ kind-advance s r
