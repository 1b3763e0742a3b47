-- ===== src/Queue/Job.antt =====
-- The rows that the queue reads (webapp/backend/models.py) and its policy
-- (webapp/backend/ranking.py). Fields that the queue neither reads nor returns are left out.
use jobhunt.Prelude.{ℕ, ◌/◌, max, Bool, Option, none, some, Str, ℤ, leb, ◌||◌, ◌&&◌, ◌==◌}

pub record JobState : Type 0 where
  pub status : Str
  pub hidden : Bool
  pub snoozed_until : Option Str

pub record JobLight : Type 0 where
  pub url_b64 : Str
  pub tier : ℤ
  pub odds : Option Str
  pub odds_score : Option ℤ
  pub odds_why : Option Str
  pub title : Option Str
  pub company : Option Str
  pub posted : Option Str
  pub first_seen : Option Str
  pub why : Option Str
  pub has_desc : Bool
  pub state : Option JobState

-- The caps and the day counts are counts, so they are natural numbers here.
pub record QueuePolicy : Type 0 where
  pub min_tier : ℤ
  pub company_cap : ℕ
  pub fresh_days : ℕ
  pub stale_days : ℕ
  pub uncertain_cap : Option ℕ

unfoldable pub effective_uncertain_cap : QueuePolicy → ℕ → ℕ
effective_uncertain_cap policy cap = elim policy.uncertain_cap [
  | none ↦ max 1 (cap / 5)
  | some n ↦ n
]

abbrev pub default_policy : QueuePolicy
default_policy = record {
  min_tier = ℤ.pos 3;
  company_cap = 2;
  fresh_days = 14;
  stale_days = 45;
  uncertain_cap = none;
}

-- What the queue takes from Python's tables: `str.casefold`, and `date.fromisoformat` with
-- `toordinal` (`none` is its ValueError).
pub record Python : Type 0 where
  pub casefold : Str → Str
  pub date_of : Str → Option ℕ

-- `str.isspace` of one code point, which is what `strip` drops.
unfoldable pub is_space : ℕ → Bool
is_space c =
    (leb 9 c && leb c 13)
    || ((leb 28 c && leb c 32)
        || (c == 133
            || (c == 160
                || (c == 5760
                    || ((leb 8192 c && leb c 8202)
                        || (c == 8232
                            || (c == 8233 || (c == 8239 || (c == 8287 || c == 12288)))))))))
