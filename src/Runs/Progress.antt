-- ===== src/Runs/Progress.antt =====
-- The gates cannot deadlock, and every run of them ends (webapp/backend/sources/scheduler.py).
use jobhunt.Prelude.{
  ℕ, ◌+◌, ◌≤◌, ◌≡◌, refl, sym, ap, subst, ◌∙◌, arith, Bool, true, false, ◌⊎◌, Option, none, some,
  Str, List, [], ◌∷◌, ◌++◌, all, count_if, Bool-cases, inl, inr,
}
use jobhunt.Runs.Gates.{
  Held, Phase, Task, Limits, Gates, Step, Steps, in_global, in_source, in_host, is_holding,
  is_released, has_room, is_regular,
}
use jobhunt.Runs.Phases.{
  is_sourced, is_admitted, is_waiting, host_counts, source_counts, global_counts, at_holding,
  at_sourced, at_admitted, at_waiting, all_out,
}

-- How many steps a target has before it at most.
abbrev rank : Phase → ℕ
rank Phase.waiting = 4
rank Phase.admitted = 3
rank Phase.sourced = 2
rank Phase.holding = 1
rank Phase.released = 0

abbrev pub steps_left : List Task → ℕ
steps_left [] = 0
steps_left ((k, p) ∷ ts) = rank p + steps_left ts

steps_left-append : (xs ys : List Task) → steps_left (xs ++ ys) ≡ steps_left xs + steps_left ys
steps_left-append [] ys = omega arith
steps_left-append ((k, p) ∷ xs) ys = omega (arith, steps_left-append xs ys)

live_rank : (k : Held) (p : Phase) → is_released (k, p) ≡ false → 1 ≤ rank p
live_rank k Phase.waiting h = omega arith
live_rank k Phase.admitted h = omega arith
live_rank k Phase.sourced h = omega arith
live_rank k Phase.holding h = omega arith
live_rank k Phase.released h = cc

replaced :
    (before after : List Task) (k : Held) (p q : Phase)
    → rank q + 1 ≤ rank p
    → steps_left (before ++ (k, q) ∷ after) + 1 ≤ steps_left (before ++ (k, p) ∷ after)
replaced before after k p q h =
    omega (
      arith,
      h,
      steps_left-append before ((k, p) ∷ after),
      steps_left-append before ((k, q) ∷ after),
    )

Step-steps_left :
    {lim : Limits} {g h : Gates} → Step lim g h → steps_left h.tasks + 1 ≤ steps_left g.tasks
Step-steps_left (Step.pass_global before after k n peak room) =
    replaced before after k Phase.waiting Phase.admitted (omega arith)
Step-steps_left (Step.pass_source before after k n peak room) =
    replaced before after k Phase.admitted Phase.sourced (omega arith)
Step-steps_left (Step.pass_host before after k n peak room) =
    replaced before after k Phase.sourced Phase.holding (omega arith)
Step-steps_left (Step.leave before after k p n peak live) =
    replaced before after k p Phase.released (omega (arith, live_rank k p live))

-- A run of the gates has at most as many steps as its targets have before them, four for each that
-- waits.
pub Steps-steps_left :
    {lim : Limits} {g h : Gates} {n : ℕ}
    → Steps lim g n h
    → n + steps_left h.tasks ≤ steps_left g.tasks
Steps-steps_left Steps.stay = omega arith
Steps-steps_left (Steps.next ss s) = omega (arith, Step-steps_left s, Steps-steps_left ss)

-- A gate lets somebody in when nobody holds it.
abbrev pub Lets : Option ℕ → Type 0
Lets none = Unit
Lets (some n) = 1 ≤ n

has_room_empty : (o : Option ℕ) (n : ℕ) → Lets o → n ≡ 0 → has_room o n ≡ true
has_room_empty none n h e = refl
has_room_empty (some c) n h e = ground (arith, h, e)

-- A target that satisfies the test, with its place.
abbrev Found : (Task → Bool) → List Task → Type 0
Found q ts =
    (before : List Task) × (t : Task) × (after : List Task) × (ts ≡ before ++ t ∷ after)
    × (q t ≡ true)

find_place : (q : Task → Bool) (ts : List Task) → Found q ts ⊎ (count_if q ts ≡ 0)
find_place q [] = inr refl
find_place q (t ∷ ts) = elim (Bool-cases (q t)) [
  | inl e ↦ inl ([], t, ts, refl, e)
  | inr e ↦ elim (find_place q ts) [
    | inl (before, u, after, p, f) ↦ inl (t ∷ before, u, after, ap (◌∷◌ t) p, f)
    | inr z ↦ inr (rw e (omega (arith, z)))
  ]
]

-- A regular step from the state.
abbrev pub Advance : Limits → Gates → Type 0
Advance lim g = (h : Gates) × (s : Step lim g h) × (is_regular s ≡ true)

module _ (lim : Limits) (global_lets : 1 ≤ lim.global)
    (source_lets : (s : Str) → Lets (lim.per_source s))
    (host_lets : (h : Str) → Lets (lim.per_host h)) where
  end_holding : (g : Gates) → Found is_holding g.tasks → Advance lim g
  end_holding g (before, (k, p), after, e, f) =
      let place = e ∙ ap (λ q. before ++ (k, q) ∷ after) (at_holding k p f) in
      subst (λ ts. Advance lim (record { tasks = ts; inflight = g.inflight; peak = g.peak }))
        (sym place) (_, Step.leave before after k Phase.holding g.inflight g.peak refl, refl)

  host_passed :
      (g : Gates) → Found is_sourced g.tasks → count_if is_holding g.tasks ≡ 0 → Advance lim g
  host_passed g (before, (k, p), after, e, f) z =
      let place = e ∙ ap (λ q. before ++ (k, q) ∷ after) (at_sourced k p f) in
      subst (λ ts. Advance lim (record { tasks = ts; inflight = g.inflight; peak = g.peak }))
        (sym place)
        (
          _,
          Step.pass_host before after k g.inflight g.peak (
              has_room_empty (lim.per_host k.host) _ (host_lets k.host) (
                ap (count_if (in_host k.host)) (sym place)
                ∙ omega (arith, z, host_counts k.host g.tasks))),
          refl,
        )

  source_passed :
      (g : Gates)
      → Found is_admitted g.tasks
      → count_if is_holding g.tasks ≡ 0
      → count_if is_sourced g.tasks ≡ 0
      → Advance lim g
  source_passed g (before, (k, p), after, e, f) z y =
      let place = e ∙ ap (λ q. before ++ (k, q) ∷ after) (at_admitted k p f) in
      subst (λ ts. Advance lim (record { tasks = ts; inflight = g.inflight; peak = g.peak }))
        (sym place)
        (
          _,
          Step.pass_source before after k g.inflight g.peak (
              has_room_empty (lim.per_source k.source_key) _ (source_lets k.source_key) (
                ap (count_if (in_source k.source_key)) (sym place)
                ∙ omega (arith, z, y, source_counts k.source_key g.tasks))),
          refl,
        )

  global_passed :
      (g : Gates)
      → Found is_waiting g.tasks
      → count_if is_holding g.tasks ≡ 0
      → count_if is_sourced g.tasks ≡ 0
      → count_if is_admitted g.tasks ≡ 0
      → Advance lim g
  global_passed g (before, (k, p), after, e, f) z y x =
      let place = e ∙ ap (λ q. before ++ (k, q) ∷ after) (at_waiting k p f) in
      subst (λ ts. Advance lim (record { tasks = ts; inflight = g.inflight; peak = g.peak }))
        (sym place)
        (
          _,
          Step.pass_global before after k g.inflight g.peak (
              has_room_empty (some lim.global) _ global_lets (
                ap (count_if in_global) (sym place)
                ∙ omega (arith, z, y, x, global_counts g.tasks))),
          refl,
        )

  -- With every ceiling at least 1, the gates neither deadlock nor run forever: from any state every
  -- run has at most as many steps as its targets have before them, and unless all targets are out
  -- there is a further step that is no exception.
  pub gates_terminate :
      (g : Gates)
      → ((n : ℕ) (h : Gates) → Steps lim g n h → n + steps_left h.tasks ≤ steps_left g.tasks)
        × ((all is_released g.tasks ≡ true) ⊎ Advance lim g)
  gates_terminate g = (
    λ n h ss. Steps-steps_left ss,
    elim (find_place is_holding g.tasks) [
      | inl f ↦ inr (end_holding g f)
      | inr z ↦ elim (find_place is_sourced g.tasks) [
        | inl f ↦ inr (host_passed g f z)
        | inr y ↦ elim (find_place is_admitted g.tasks) [
          | inl f ↦ inr (source_passed g f z y)
          | inr x ↦ elim (find_place is_waiting g.tasks) [
            | inl f ↦ inr (global_passed g f z y x)
            | inr w ↦ inl (all_out g.tasks z y x w)
          ]
        ]
      ]
    ],
  )
