-- ===== src/Runs/Holding.antt =====
-- The gates keep their ceilings (webapp/backend/sources/scheduler.py).
use jobhunt.Prelude.{
  ℕ, ◌+◌, ◌≤◌, ◌≡◌, refl, sym, subst, ◌∙◌, arith, Bool, true, false, Option, none, some, Str, List,
  [], ◌∷◌, ◌++◌, count_if, count_if-append, eq_str, eq_str→≡, ltb→lt, if◌then◌else◌, Bool-cases,
  inl, inr,
}
use jobhunt.Runs.Gates.{
  Held, Phase, Task, Limits, Gates, Step, Steps, in_global, in_source, in_host, is_holding,
  has_room, inflight_without, begun,
}

-- A count is within a ceiling.
abbrev pub Within : Option ℕ → ℕ → Type 0
Within none used = Unit
Within (some n) used = used ≤ n

-- No gate is over its ceiling, the counter counts the running targets, and so does the peak.
pub record IsWithin (lim : Limits) (g : Gates) : Type 0 where
  pub global : count_if in_global g.tasks ≤ lim.global
  pub source : (s : Str) → Within (lim.per_source s) (count_if (in_source s) g.tasks)
  pub host : (h : Str) → Within (lim.per_host h) (count_if (in_host h) g.tasks)
  pub counted : g.inflight ≡ count_if is_holding g.tasks
  pub peak : g.peak ≤ lim.global

split-count :
    (q : Task → Bool) (before after : List Task) (t : Task)
    → count_if q (before ++ t ∷ after)
      ≡ count_if q before + ((if q t then 1 else 0) + count_if q after)
split-count q before after t = count_if-append q before (t ∷ after)

holding_in_global : (ts : List Task) → count_if is_holding ts ≤ count_if in_global ts
holding_in_global [] = omega arith
holding_in_global ((k, Phase.waiting) ∷ ts) = omega (arith, holding_in_global ts)
holding_in_global ((k, Phase.admitted) ∷ ts) = omega (arith, holding_in_global ts)
holding_in_global ((k, Phase.sourced) ∷ ts) = omega (arith, holding_in_global ts)
holding_in_global ((k, Phase.holding) ∷ ts) = omega (arith, holding_in_global ts)
holding_in_global ((k, Phase.released) ∷ ts) = omega (arith, holding_in_global ts)

Within-mono : (o : Option ℕ) (m n : ℕ) → m ≤ n → Within o n → Within o m
Within-mono none m n h k = tt
Within-mono (some c) m n h k = omega (arith, h, k)

Within-room : (o : Option ℕ) (m n : ℕ) → m ≤ n + 1 → has_room o n ≡ true → Within o m
Within-room none m n h k = tt
Within-room (some c) m n h k = omega (arith, h, ltb→lt n c k)

module _ (q : Task → Bool) (before after : List Task) (t u : Task) where
  count_same : q u ≡ q t → count_if q (before ++ u ∷ after) ≡ count_if q (before ++ t ∷ after)
  count_same e = rw (split-count q before after u, split-count q before after t, e) refl

  count_less :
      (q u ≡ true → q t ≡ true)
      → count_if q (before ++ u ∷ after) ≤ count_if q (before ++ t ∷ after)
  count_less e =
      rw (split-count q before after u, split-count q before after t)
        (elim (Bool-cases (q u)) [ inl f ↦ rw (f, e f) (omega arith) | inr f ↦ rw f (omega arith) ])

  count_one_more : count_if q (before ++ u ∷ after) ≤ count_if q (before ++ t ∷ after) + 1
  count_one_more =
      rw (split-count q before after u, split-count q before after t)
        (elim (Bool-cases (q u)) [ inl f ↦ rw f (omega arith) | inr f ↦ rw f (omega arith) ])

any_of : (b : Bool) → false ≡ true → b ≡ true
any_of b h = cc

-- The counter after a target has left.
left_counted :
    (before after : List Task) (k : Held) (p : Phase) (n : ℕ)
    → n ≡ count_if is_holding (before ++ (k, p) ∷ after)
    → inflight_without p n ≡ count_if is_holding (before ++ (k, Phase.released) ∷ after)
left_counted before after k Phase.waiting n h = h ∙ count_same is_holding before after _ _ refl
left_counted before after k Phase.admitted n h = h ∙ count_same is_holding before after _ _ refl
left_counted before after k Phase.sourced n h = h ∙ count_same is_holding before after _ _ refl
left_counted before after k Phase.released n h = h
left_counted before after k Phase.holding n h = omega (
  arith,
  h,
  split-count is_holding before after (k, Phase.holding),
  split-count is_holding before after (k, Phase.released),
)

module _ (lim : Limits) (before after : List Task) (k : Held) where
  -- A target that got its source's gate.
  source_taken :
      (s : Str)
      → has_room
          (lim.per_source k.source_key)
          (count_if (in_source k.source_key) (before ++ (k, Phase.admitted) ∷ after))
        ≡ true
      → Within (lim.per_source s) (count_if (in_source s) (before ++ (k, Phase.admitted) ∷ after))
      → Within (lim.per_source s) (count_if (in_source s) (before ++ (k, Phase.sourced) ∷ after))
  source_taken s room w = elim (Bool-cases (eq_str k.source_key s)) [
    | inl e ↦
        Within-room (lim.per_source s) _
          (count_if (in_source s) (before ++ (k, Phase.admitted) ∷ after))
          (count_one_more (in_source s) before after (k, Phase.admitted) (k, Phase.sourced))
          (subst
            (λ s'.
              has_room (lim.per_source s')
                (count_if (in_source s') (before ++ (k, Phase.admitted) ∷ after))
              ≡ true)
            (eq_str→≡ k.source_key s e) room)
    | inr e ↦
        Within-mono (lim.per_source s) _ _
          (count_less (in_source s) before after (k, Phase.admitted) (k, Phase.sourced)
            (λ h. sym e ∙ h))
          w
  ]

  -- A target that got its host's gate.
  host_taken :
      (h : Str)
      → has_room
          (lim.per_host k.host)
          (count_if (in_host k.host) (before ++ (k, Phase.sourced) ∷ after))
        ≡ true
      → Within (lim.per_host h) (count_if (in_host h) (before ++ (k, Phase.sourced) ∷ after))
      → Within (lim.per_host h) (count_if (in_host h) (before ++ (k, Phase.holding) ∷ after))
  host_taken h room w = elim (Bool-cases (eq_str k.host h)) [
    | inl e ↦
        Within-room (lim.per_host h) _ (count_if (in_host h) (before ++ (k, Phase.sourced) ∷ after))
          (count_one_more (in_host h) before after (k, Phase.sourced) (k, Phase.holding))
          (subst
            (λ h'.
              has_room (lim.per_host h')
                (count_if (in_host h') (before ++ (k, Phase.sourced) ∷ after))
              ≡ true)
            (eq_str→≡ k.host h e) room)
    | inr e ↦
        Within-mono (lim.per_host h) _ _
          (count_less (in_host h) before after (k, Phase.sourced) (k, Phase.holding)
            (λ f. sym e ∙ f))
          w
  ]

pub Step-IsWithin : {lim : Limits} {g h : Gates} → Step lim g h → IsWithin lim g → IsWithin lim h
Step-IsWithin {lim = lim} (Step.pass_global before after k n peak room) w =
    let t : Task = (k, Phase.waiting) in
    let u : Task = (k, Phase.admitted) in
    record {
      global = omega (
        arith,
        count_one_more in_global before after t u,
        ltb→lt (count_if in_global (before ++ t ∷ after)) lim.global room,
      );
      source = λ s.
          Within-mono (lim.per_source s) _ _ (count_less (in_source s) before after t u (λ h. h))
            (w.source s);
      host = λ s.
          Within-mono (lim.per_host s) _ _ (count_less (in_host s) before after t u (λ h. h))
            (w.host s);
      counted = w.counted ∙ sym (count_same is_holding before after t u refl);
      peak = w.peak;
    }
Step-IsWithin {lim = lim} (Step.pass_source before after k n peak room) w =
    let t : Task = (k, Phase.admitted) in
    let u : Task = (k, Phase.sourced) in
    record {
      global = omega (arith, count_less in_global before after t u (λ h. h), w.global);
      source = λ s. source_taken lim before after k s room (w.source s);
      host = λ s.
          Within-mono (lim.per_host s) _ _ (count_less (in_host s) before after t u (λ h. h))
            (w.host s);
      counted = w.counted ∙ sym (count_same is_holding before after t u refl);
      peak = w.peak;
    }
Step-IsWithin {lim = lim} (Step.pass_host before after k n peak room) w =
    let t : Task = (k, Phase.sourced) in
    let u : Task = (k, Phase.holding) in
    let total : count_if in_global (before ++ u ∷ after) ≤ lim.global =
      omega (arith, count_less in_global before after t u (λ h. h), w.global) in
    let counted : n + 1 ≡ count_if is_holding (before ++ u ∷ after) = omega (
      arith,
      w.counted,
      split-count is_holding before after t,
      split-count is_holding before after u,
    ) in
    record {
      global = total;
      source = λ s.
          Within-mono (lim.per_source s) _ _ (count_less (in_source s) before after t u (λ h. h))
            (w.source s);
      host = λ s. host_taken lim before after k s room (w.host s);
      counted = counted;
      peak = omega (arith, w.peak, counted, total, holding_in_global (before ++ u ∷ after));
    }
Step-IsWithin {lim = lim} (Step.leave before after k p n peak live) w =
    let t : Task = (k, p) in
    let u : Task = (k, Phase.released) in
    record {
      global =
          omega (arith, count_less in_global before after t u (any_of (in_global t)), w.global);
      source = λ s.
          Within-mono (lim.per_source s) _ _
            (count_less (in_source s) before after t u (any_of (in_source s t))) (w.source s);
      host = λ s.
          Within-mono (lim.per_host s) _ _
            (count_less (in_host s) before after t u (any_of (in_host s t))) (w.host s);
      counted = left_counted before after k p n w.counted;
      peak = w.peak;
    }

pub Steps-IsWithin :
    {lim : Limits} {g h : Gates} {n : ℕ} → Steps lim g n h → IsWithin lim g → IsWithin lim h
Steps-IsWithin Steps.stay w = w
Steps-IsWithin (Steps.next ss s) w = Step-IsWithin s (Steps-IsWithin ss w)

waiting_holds_none :
    (q : Task → Bool) (ks : List Held)
    → ((k : Held) → q (k, Phase.waiting) ≡ false)
    → count_if q (begun ks).tasks ≡ 0
waiting_holds_none q [] h = refl
waiting_holds_none q (k ∷ ks) h = rw (h k) (omega (arith, waiting_holds_none q ks h))

Within-zero : (o : Option ℕ) (n : ℕ) → n ≡ 0 → Within o n
Within-zero none n h = tt
Within-zero (some c) n h = omega (arith, h)

-- Whatever the order in which the targets of a run pass the gates and leave them, at their end or
-- by an exception, no gate is over its ceiling, the in-flight counter counts the running targets,
-- and its peak is at most the ceiling of the global gate.
pub gates-IsWithin :
    (lim : Limits) (ks : List Held) (n : ℕ) (g : Gates) → Steps lim (begun ks) n g → IsWithin lim g
gates-IsWithin lim ks n g ss = Steps-IsWithin ss (record {
  global = omega (arith, waiting_holds_none in_global ks (λ k. refl));
  source = λ s. Within-zero (lim.per_source s) _ (waiting_holds_none (in_source s) ks (λ k. refl));
  host = λ s. Within-zero (lim.per_host s) _ (waiting_holds_none (in_host s) ks (λ k. refl));
  counted = sym (waiting_holds_none is_holding ks (λ k. refl));
  peak = omega arith;
})
