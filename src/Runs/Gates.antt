-- ===== src/Runs/Gates.antt =====
-- The three gates that a target holds while it runs, `_hold` of
-- webapp/backend/sources/scheduler.py, as a step relation on the targets of a run.
use jobhunt.Prelude.{
  ℕ, ◌+◌, ◌-◌, ◌≡◌, max, Bool, true, false, Option, none, some, Str, List, [], ◌∷◌, ◌++◌, count_if,
  eq_str, ltb,
}

-- What the gates read of a target.
pub record Held : Type 0 where
  pub source_key : Str
  pub host : Str

-- Waiting for the global gate, for the source's, for the host's; running; out of the block.
pub data Phase : Type 0 where
  waiting admitted sourced holding released : Phase

abbrev pub Task : Type 0
Task = Held × Phase

-- The semaphores' ceilings; a source or a host without a gate has none.
pub record Limits : Type 0 where
  pub global : ℕ
  pub per_source : Str → Option ℕ
  pub per_host : Str → Option ℕ

abbrev pub in_global : Task → Bool
in_global (k, waiting) = false
in_global (k, released) = false
in_global (k, _) = true

abbrev pub in_source : Str → Task → Bool
in_source s (k, sourced) = eq_str k.source_key s
in_source s (k, holding) = eq_str k.source_key s
in_source s (k, _) = false

abbrev pub in_host : Str → Task → Bool
in_host h (k, holding) = eq_str k.host h
in_host h (k, _) = false

abbrev pub is_holding : Task → Bool
is_holding (k, holding) = true
is_holding (k, _) = false

abbrev pub is_released : Task → Bool
is_released (k, released) = true
is_released (k, _) = false

-- A semaphore with a ceiling has room below it.
abbrev pub has_room : Option ℕ → ℕ → Bool
has_room none used = true
has_room (some n) used = ltb used n

-- `gates.inflight` and `gates.peak`, with the targets.
pub record Gates : Type 0 where
  pub tasks : List Task
  pub inflight : ℕ
  pub peak : ℕ

-- Leaving the block, at its end or by an exception at any await, releases what was acquired.
abbrev pub inflight_without : Phase → ℕ → ℕ
inflight_without holding n = n - 1
inflight_without _ n = n

pub data Step (lim : Limits) : Gates → Gates → Type 0 where
  pass_global :
      (before after : List Task) (k : Held) (n peak : ℕ)
      → ltb (count_if in_global (before ++ (k, waiting) ∷ after)) lim.global ≡ true
      → Step lim
          (record { tasks = before ++ (k, waiting) ∷ after; inflight = n; peak = peak })
          (record { tasks = before ++ (k, admitted) ∷ after; inflight = n; peak = peak })
  pass_source :
      (before after : List Task) (k : Held) (n peak : ℕ)
      → has_room
          (lim.per_source k.source_key)
          (count_if (in_source k.source_key) (before ++ (k, admitted) ∷ after))
        ≡ true
      → Step lim
          (record { tasks = before ++ (k, admitted) ∷ after; inflight = n; peak = peak })
          (record { tasks = before ++ (k, sourced) ∷ after; inflight = n; peak = peak })
  pass_host :
      (before after : List Task) (k : Held) (n peak : ℕ)
      → has_room (lim.per_host k.host) (count_if (in_host k.host) (before ++ (k, sourced) ∷ after))
        ≡ true
      → Step lim
          (record { tasks = before ++ (k, sourced) ∷ after; inflight = n; peak = peak })
          (record {
            tasks = before ++ (k, holding) ∷ after;
            inflight = n + 1;
            peak = max peak (n + 1);
          })
  leave :
      (before after : List Task) (k : Held) (p : Phase) (n peak : ℕ)
      → is_released (k, p) ≡ false
      → Step lim
          (record { tasks = before ++ (k, p) ∷ after; inflight = n; peak = peak })
          (record {
            tasks = before ++ (k, released) ∷ after;
            inflight = inflight_without p n;
            peak = peak;
          })

-- The gates reached from a state by some number of steps.
pub data Steps (lim : Limits) (g : Gates) : ℕ → Gates → Type 0 where
  stay : Steps lim g 0 g
  next : {n : ℕ} {h i : Gates} → Steps lim g n h → Step lim h i → Steps lim g (n + 1) i

-- Not the exception of a target that waits: a gate that is passed, or the end of a running target.
abbrev pub is_regular : {lim : Limits} {g h : Gates} → Step lim g h → Bool
is_regular (Step.pass_global before after k n peak room) = true
is_regular (Step.pass_source before after k n peak room) = true
is_regular (Step.pass_host before after k n peak room) = true
is_regular (Step.leave before after k p n peak live) = is_holding (k, p)

abbrev all_waiting : List Held → List Task
all_waiting [] = []
all_waiting (k ∷ ks) = (k, waiting) ∷ all_waiting ks

-- The targets are created together, before any of them has a gate.
abbrev pub begun : List Held → Gates
begun ks = record { tasks = all_waiting ks; inflight = 0; peak = 0 }
