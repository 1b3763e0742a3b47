-- ===== src/Scoring/Texts.antt =====
-- What the scorer reads from texts (rubric.py): required years, the age of a posting, a salary.
use jobhunt.Prelude.{
  ℕ, ℤ, pos, sub_ℕ, Bool, not, ◌&&◌, ◌||◌, Option, none, some, Str, codes, List, [], ◌∷◌, ◌++◌, any,
  ◌==◌, ltb, leb, if◌then◌else◌, is_empty,
}
use jobhunt.Queue.Freshness.{strip}
use jobhunt.Contract.Text.{starts_with}
use jobhunt.Scoring.Profile.{Pattern}

-- What Python provides: its texts, dates and floats, and its `re` at the literal expressions of the
-- module. Amounts of money are whole numbers; `scraper.parse_salary` computes with floats, and its
-- result, two whole numbers or none, enters here too.
pub record Readers : Type 0 where
  pub lower : Str → Str
  pub str_of_nat : ℕ → Str
  -- `re.search` for the marks of California and of remote work.
  pub ca_marker : Str → Bool
  pub remote_words : Str → Bool
  -- `re.sub` of the equal opportunity boilerplate.
  pub without_boilerplate : Str → Str
  -- The three tests of a sentence on years, and the years that it names.
  pub is_on_company : Str → Bool
  pub is_on_experience : Str → Bool
  pub is_on_preference : Str → Bool
  pub year_numbers : Str → List ℕ
  -- The number of "days ago", and the first ISO date; `date.fromisoformat` as an ordinal.
  pub days_ago : Str → Option ℕ
  pub iso_date : Str → Option Str
  pub ordinal : Str → Option ℕ
  pub today : ℕ
  -- The texts of 90 characters at each currency mark, "401(k)" taken out.
  pub money_windows : Str → List Str
  pub parse_salary : Str → Option (ℕ × ℕ)
  -- `float` and `int` of a text, none where they raise ValueError.
  pub float_of : Str → Option ℕ
  pub int_of : Str → Option ℕ
  -- A number with its thousands grouped.
  pub grouped : ℕ → Str

-- `k in t`.
unfoldable pub contains : Str → Str → Bool
unfolding starts_with
contains k [] = is_empty k
contains k (c ∷ t) = starts_with k (c ∷ t) || contains k t

abbrev pub found : List Pattern → Str → Bool
found ps t = any (λ (p : Pattern). p.search t) ps

abbrev pub named_in : Str → List Str → Bool
named_in t ks = any (λ (k : Str). contains k t) ks

-- `re.split` at single characters.
add_char : ℕ → List Str → List Str
add_char c [] = (c ∷ []) ∷ []
add_char c (s ∷ ss) = (c ∷ s) ∷ ss

unfoldable pub split_at : (ℕ → Bool) → Str → List Str
unfolding add_char
split_at p [] = [] ∷ []
split_at p (c ∷ t) = let rest = split_at p t in if p c then [] ∷ rest else add_char c rest

abbrev pub is_clause_end : ℕ → Bool
is_clause_end c = c == 46 || c == 59 || c == 10

-- The bullet is U+2022.
abbrev pub is_sentence_end : ℕ → Bool
is_sentence_end c = is_clause_end c || c == 8226

-- `", ".join`.
unfoldable pub join : Str → List Str → Str
join sep [] = []
join sep (s ∷ []) = s
join sep (s ∷ t ∷ ts) = s ++ (sep ++ join sep (t ∷ ts))

-- `max(ys) if ys else None`.
unfoldable pub larger : Option ℕ → ℕ → Option ℕ
larger none y = some y
larger (some x) y = if ltb x y then some y else some x

abbrev pub Years : Type 0
Years = Option ℕ × Option ℕ

module _ (re : Readers) where
  count_year : Bool → Years → ℕ → Years
  unfolding larger
  count_year preferred (req, pref) y =
      if ltb 20 y
      then (req, pref)
      else if preferred
      then (req, larger pref y)
      else (larger req y, pref)

  count_years : Bool → Years → List ℕ → Years
  unfolding count_year
  count_years preferred acc [] = acc
  count_years preferred acc (y ∷ ys) = count_years preferred (count_year preferred acc y) ys

  count_sentences : Years → List Str → Years
  unfolding count_years
  count_sentences acc [] = acc
  count_sentences acc (s ∷ ss) =
      count_sentences
        (if re.is_on_company s || not (re.is_on_experience s)
          then acc
          else count_years (re.is_on_preference s) acc (re.year_numbers s))
        ss

  unfoldable pub years_required : Str → Years
  unfolding count_sentences split_at
  years_required d = count_sentences (none, none) (split_at is_sentence_end (re.lower d))

  -- The difference of a date to today is negative for a date to come.
  age_of : Option ℕ → Option ℤ
  age_of none = none
  age_of (some d) = some (sub_ℕ re.today d)

  dated : Option Str → Option ℤ
  unfolding age_of
  dated none = none
  dated (some m) = age_of (re.ordinal m)

  days_or_dated : Str → Option ℕ → Option ℤ
  unfolding dated
  days_or_dated p none = dated (re.iso_date p)
  days_or_dated p (some n) = some (pos n)

  unfoldable pub posting_age_days : Str → Option ℤ
  unfolding days_or_dated contains
  posting_age_days posted =
      let p = re.lower (strip posted) in
      if is_empty p
      then none
      else if contains (codes "today") p
          || contains (codes "yesterday") p
          || contains (codes "just posted") p
      then some (pos 0)
      else days_or_dated p (re.days_ago p)

  -- A band that counts: both ends read, in order, and no hourly figure.
  band : Option (ℕ × ℕ) → Option (ℕ × ℕ)
  band none = none
  band (some (lo, hi)) =
      if ltb 0 lo && ltb 0 hi && leb lo hi && leb 30000 lo then some (lo, hi) else none

  first_band : List Str → Option (ℕ × ℕ)
  unfolding band
  first_band [] = none
  first_band (w ∷ ws) =
      let rest = first_band ws in elim (band (re.parse_salary w)) [ none ↦ rest | some b ↦ some b ]

  unfoldable pub salary_from_desc : Str → Option (ℕ × ℕ)
  unfolding first_band
  salary_from_desc d = first_band (re.money_windows d)
