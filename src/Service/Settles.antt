-- ===== src/Service/Settles.antt =====
-- How many replies a run takes to settle (webapp/backend/runservice.py).
use jobhunt.Prelude.{
  ℕ, ◌+◌, ◌-◌, ◌≤◌, ◌≡◌, refl, arith, Bool, true, false, none, List, [], ◌∷◌, if◌then◌else◌,
  Bool-cases, inl, inr,
}
use jobhunt.Service.Supervise.{
  stage_ok, stage_failed, stage_cancelled, Phase, fetching, skipping, announcing_enrichment,
  enriching, finishing_enrichment, stopping_enrichment, announcing_scoring, scoring,
  finishing_scoring, settling, settled, Reply, returned, raised, task_returned, task_raised,
  task_stopped, appended, append_raised, append_stopped, score_returned, score_raised,
  score_checked, ActiveRun, resume, Signal, cancel, reply, kill, is_settled, deliver_cancel,
  advance, advance_all,
}

-- The replies that are still awaited, at most.
unfoldable pub remaining : Phase → ℕ
remaining fetching = 11
remaining (announcing_enrichment fs) = 10
remaining (enriching fs) = 9
remaining (finishing_enrichment fs true) = 8
remaining (finishing_enrichment fs false) = 7
remaining (stopping_enrichment fs) = 6
remaining (announcing_scoring fs e) = 5
remaining (scoring fs e) = 4
remaining (finishing_scoring fs e stage_ok) = 3
remaining (finishing_scoring fs e stage_failed) = 2
remaining (finishing_scoring fs e stage_cancelled) = 2
remaining (skipping fs) = 2
remaining (settling o) = 1
remaining (settled o) = 0

-- The replies among the signals.
unfoldable pub replies : List Signal → ℕ
replies [] = 0
replies (reply f ∷ ss) = 1 + replies ss
replies (cancel ∷ ss) = replies ss
replies (kill ∷ ss) = replies ss

if-remaining :
    (b : Bool) (p q : Phase) (n : ℕ)
    → remaining p + 1 ≤ n
    → remaining q + 1 ≤ n
    → remaining (if b then p else q) + 1 ≤ n
if-remaining true p q n h k = h
if-remaining false p q n h k = k

-- A reply always moves a run that is not settled.
remaining-resume :
    (p : Phase) (x : Reply p) (r : ActiveRun)
    → is_settled p ≡ false
    → remaining (resume p x r).phase + 1 ≤ remaining p
unfolding resume remaining is_settled
remaining-resume fetching fs r h = ground arith
remaining-resume (skipping fs) (returned w) r h = omega arith
remaining-resume (skipping fs) raised r h = omega arith
remaining-resume (announcing_enrichment fs) (returned w) r h = omega arith
remaining-resume (announcing_enrichment fs) raised r h = omega arith
remaining-resume (enriching fs) task_returned r h = omega arith
remaining-resume (enriching fs) task_raised r h = omega arith
remaining-resume (enriching fs) task_stopped r h = ground arith
remaining-resume (finishing_enrichment fs true) (appended w) r h = ground arith
remaining-resume (finishing_enrichment fs false) (appended w) r h = ground arith
remaining-resume (finishing_enrichment fs true) append_raised r h = omega arith
remaining-resume (finishing_enrichment fs false) append_raised r h = omega arith
remaining-resume (finishing_enrichment fs true) (append_stopped c) r h = ground arith
remaining-resume (finishing_enrichment fs false) (append_stopped c) r h = ground arith
remaining-resume (stopping_enrichment fs) (returned w) r h = ground arith
remaining-resume (stopping_enrichment fs) raised r h = omega arith
remaining-resume (announcing_scoring fs e) (returned w) r h = omega arith
remaining-resume (announcing_scoring fs e) raised r h = omega arith
remaining-resume (scoring fs e) score_returned r h = omega arith
remaining-resume (scoring fs e) score_raised r h = omega arith
remaining-resume (scoring fs e) score_checked r h = ground arith
remaining-resume (finishing_scoring fs e stage_ok) (returned w) r h = omega arith
remaining-resume (finishing_scoring fs e stage_failed) (returned w) r h = omega arith
remaining-resume (finishing_scoring fs e stage_cancelled) (returned w) r h = omega arith
remaining-resume (finishing_scoring fs e stage_ok) raised r h = omega arith
remaining-resume (finishing_scoring fs e stage_failed) raised r h = omega arith
remaining-resume (finishing_scoring fs e stage_cancelled) raised r h = omega arith
remaining-resume (settling o) (returned w) r h = omega arith
remaining-resume (settling o) raised r h = omega arith
remaining-resume (settled o) x r h = cc

settled-remaining : (p : Phase) → is_settled p ≡ true → remaining p ≡ 0
unfolding remaining is_settled
settled-remaining (settled o) h = refl
settled-remaining _ h = cc

remaining-settled : (p : Phase) → remaining p ≡ 0 → is_settled p ≡ true
unfolding remaining is_settled
remaining-settled (settled o) h = refl
remaining-settled (finishing_enrichment fs true) h = absurd (omega arith)
remaining-settled (finishing_enrichment fs false) h = absurd (omega arith)
remaining-settled (finishing_scoring fs e stage_ok) h = absurd (omega arith)
remaining-settled (finishing_scoring fs e stage_failed) h = absurd (omega arith)
remaining-settled (finishing_scoring fs e stage_cancelled) h = absurd (omega arith)
remaining-settled _ h = absurd (omega arith)

settled-resume : (p : Phase) (x : Reply p) (r : ActiveRun) → is_settled p ≡ true → resume p x r ≡ r
unfolding resume is_settled
settled-resume (settled o) x r h = refl
settled-resume _ x r h = cc

pub settled-advance : (s : Signal) (r : ActiveRun) → is_settled r.phase ≡ true → advance s r ≡ r
unfolding advance deliver_cancel
settled-advance cancel r h = rw h refl
settled-advance (reply f) r h = settled-resume r.phase (f r.phase) r h
settled-advance kill r h = rw h refl

remaining-max : (p : Phase) → remaining p ≤ 11
unfolding remaining
remaining-max (finishing_enrichment fs true) = omega arith
remaining-max (finishing_enrichment fs false) = omega arith
remaining-max (finishing_scoring fs e stage_ok) = omega arith
remaining-max (finishing_scoring fs e stage_failed) = omega arith
remaining-max (finishing_scoring fs e stage_cancelled) = omega arith
remaining-max _ = omega arith

remaining-reply :
    (c : Bool) (p : Phase) (x : Reply p) (r : ActiveRun)
    → is_settled p ≡ c
    → r.phase ≡ p
    → remaining (resume p x r).phase ≤ remaining p - 1
remaining-reply true p x r h e =
    rw (settled-resume p x r h, e) (omega (arith, settled-remaining p h))
remaining-reply false p x r h e = omega (arith, remaining-resume p x r h)

remaining_settled : remaining (settled none) ≡ 0
unfolding remaining
remaining_settled = refl

remaining-advance :
    (s : Signal) (r : ActiveRun)
    → remaining (advance s r).phase ≤ remaining r.phase - replies (s ∷ [])
unfolding advance deliver_cancel replies
remaining-advance cancel r = elim (Bool-cases (is_settled r.phase)) [
  | inl e ↦ rw e (omega arith)
  | inr e ↦ rw e (omega arith)
]
remaining-advance (reply f) r = remaining-reply _ r.phase (f r.phase) r refl refl
remaining-advance kill r = elim (Bool-cases (is_settled r.phase)) [
  | inl e ↦ rw e (omega arith)
  | inr e ↦ rw e (omega (arith, remaining_settled))
]

replies-cons : (s : Signal) (ss : List Signal) → replies (s ∷ ss) ≡ replies (s ∷ []) + replies ss
unfolding replies
replies-cons (reply f) ss = omega arith
replies-cons cancel ss = omega arith
replies-cons kill ss = omega arith

remaining-advance_all :
    (ss : List Signal) (r : ActiveRun)
    → remaining (advance_all ss r).phase ≤ remaining r.phase - replies ss
unfolding advance_all replies
remaining-advance_all [] r = omega arith
remaining-advance_all (s ∷ ss) r =
    omega (arith, remaining-advance s r, remaining-advance_all ss (advance s r), replies-cons s ss)

-- A run settles with the eleventh reply at the latest, whatever the replies are and whatever else
-- happens.
pub advance_all-settled :
    (r : ActiveRun) (ss : List Signal)
    → 11 ≤ replies ss
    → is_settled (advance_all ss r).phase ≡ true
advance_all-settled r ss h =
    remaining-settled _ (omega (arith, h, remaining-advance_all ss r, remaining-max r.phase))
