-- ===== src/Runs/Phases.antt =====
-- Who is in which gate, by the phases of the targets (webapp/backend/sources/scheduler.py).
use jobhunt.Prelude.{
  ◌+◌, ◌≤◌, ◌≡◌, refl, arith, Bool, true, false, Str, List, [], ◌∷◌, all, count_if, if◌then◌else◌,
}
use jobhunt.Runs.Gates.{Held, Phase, Task, in_global, in_source, in_host, is_holding, is_released}

abbrev pub is_sourced : Task → Bool
is_sourced (k, Phase.sourced) = true
is_sourced (k, _) = false

abbrev pub is_admitted : Task → Bool
is_admitted (k, Phase.admitted) = true
is_admitted (k, _) = false

abbrev pub is_waiting : Task → Bool
is_waiting (k, Phase.waiting) = true
is_waiting (k, _) = false

host_counts_one :
    (h : Str) (k : Held) (p : Phase)
    → (if (in_host h) (k, p) then 1 else 0) ≤ (if is_holding (k, p) then 1 else 0)
host_counts_one h k Phase.waiting = omega arith
host_counts_one h k Phase.admitted = omega arith
host_counts_one h k Phase.sourced = omega arith
host_counts_one h k Phase.holding = ground arith
host_counts_one h k Phase.released = omega arith

pub host_counts : (h : Str) (ts : List Task) → count_if (in_host h) ts ≤ count_if is_holding ts
host_counts h [] = omega arith
host_counts h ((k, p) ∷ ts) = omega (arith, host_counts_one h k p, host_counts h ts)

source_counts_one :
    (s : Str) (k : Held) (p : Phase)
    → (if (in_source s) (k, p) then 1 else 0)
      ≤ (if is_holding (k, p) then 1 else 0) + (if is_sourced (k, p) then 1 else 0)
source_counts_one s k Phase.waiting = omega arith
source_counts_one s k Phase.admitted = omega arith
source_counts_one s k Phase.sourced = ground arith
source_counts_one s k Phase.holding = ground arith
source_counts_one s k Phase.released = omega arith

pub source_counts :
    (s : Str) (ts : List Task)
    → count_if (in_source s) ts ≤ count_if is_holding ts + count_if is_sourced ts
source_counts s [] = omega arith
source_counts s ((k, p) ∷ ts) = omega (arith, source_counts_one s k p, source_counts s ts)

global_counts_one :
    (k : Held) (p : Phase)
    → (if in_global (k, p) then 1 else 0)
      ≤ (if is_holding (k, p) then 1 else 0)
        + (if is_sourced (k, p) then 1 else 0)
        + (if is_admitted (k, p) then 1 else 0)
global_counts_one k Phase.waiting = omega arith
global_counts_one k Phase.admitted = omega arith
global_counts_one k Phase.sourced = omega arith
global_counts_one k Phase.holding = omega arith
global_counts_one k Phase.released = omega arith

pub global_counts :
    (ts : List Task)
    → count_if in_global ts
      ≤ count_if is_holding ts + count_if is_sourced ts + count_if is_admitted ts
global_counts [] = omega arith
global_counts ((k, p) ∷ ts) = omega (arith, global_counts_one k p, global_counts ts)

-- The places of a target by its phase.
pub at_holding : (k : Held) (p : Phase) → is_holding (k, p) ≡ true → p ≡ Phase.holding
at_holding k Phase.waiting h = cc
at_holding k Phase.admitted h = cc
at_holding k Phase.sourced h = cc
at_holding k Phase.holding h = refl
at_holding k Phase.released h = cc

pub at_sourced : (k : Held) (p : Phase) → is_sourced (k, p) ≡ true → p ≡ Phase.sourced
at_sourced k Phase.waiting h = cc
at_sourced k Phase.admitted h = cc
at_sourced k Phase.sourced h = refl
at_sourced k Phase.holding h = cc
at_sourced k Phase.released h = cc

pub at_admitted : (k : Held) (p : Phase) → is_admitted (k, p) ≡ true → p ≡ Phase.admitted
at_admitted k Phase.waiting h = cc
at_admitted k Phase.admitted h = refl
at_admitted k Phase.sourced h = cc
at_admitted k Phase.holding h = cc
at_admitted k Phase.released h = cc

pub at_waiting : (k : Held) (p : Phase) → is_waiting (k, p) ≡ true → p ≡ Phase.waiting
at_waiting k Phase.waiting h = refl
at_waiting k Phase.admitted h = cc
at_waiting k Phase.sourced h = cc
at_waiting k Phase.holding h = cc
at_waiting k Phase.released h = cc

-- Nobody in any phase but the last.
pub all_out :
    (ts : List Task)
    → count_if is_holding ts ≡ 0
    → count_if is_sourced ts ≡ 0
    → count_if is_admitted ts ≡ 0
    → count_if is_waiting ts ≡ 0
    → all is_released ts ≡ true
all_out [] a b c d = refl
all_out ((k, Phase.waiting) ∷ ts) a b c d = ground (arith, d)
all_out ((k, Phase.admitted) ∷ ts) a b c d = ground (arith, c)
all_out ((k, Phase.sourced) ∷ ts) a b c d = ground (arith, b)
all_out ((k, Phase.holding) ∷ ts) a b c d = ground (arith, a)
all_out ((k, Phase.released) ∷ ts) a b c d =
    all_out ts (omega (arith, a)) (omega (arith, b)) (omega (arith, c)) (omega (arith, d))
