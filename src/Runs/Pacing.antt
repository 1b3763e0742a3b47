-- ===== src/Runs/Pacing.antt =====
-- The pacing of the requests to a host (webapp/backend/sources/transport.py). The clock counts
-- whole ticks.
use jobhunt.Prelude.{ℕ, ◌+◌, max, Option, none, some, Str, List, [], ◌∷◌, if◌then◌else◌, ◌==◌}
use jobhunt.Store.Rows.{put}
use jobhunt.Runs.Profile.{find}

-- A call of `send`, at its arrival on the clock.
pub record Call : Type 0 where
  pub host : Str
  pub now : ℕ

pub record Sent : Type 0 where
  pub host : Str
  pub at : ℕ

unfoldable pub next_or_zero : Option ℕ → ℕ
next_or_zero none = 0
next_or_zero (some n) = n

-- `self._next_at.get(host, 0.0)`.
unfoldable pub next_slot : Str → List (Str × ℕ) → ℕ
unfolding next_or_zero find
next_slot host next_at = next_or_zero (find host next_at)

-- The claim of `_reserve`: the instant at which the request goes out, and the next state.
unfoldable pub reserve : ℕ → List (Str × ℕ) → Call → List (Str × ℕ) × Sent
unfolding next_slot
reserve interval next_at c =
    let at = max c.now (next_slot c.host next_at) in
    if interval == 0
    then (next_at, record { host = c.host; at = c.now })
    else (put c.host (at + interval) next_at, record { host = c.host; at = at })

unfoldable pub send_all : ℕ → List (Str × ℕ) → List Call → List Sent
unfolding reserve
send_all interval next_at [] = []
send_all interval next_at (c ∷ calls) =
    let step = reserve interval next_at c in step.1 ∷ send_all interval step.0 calls
