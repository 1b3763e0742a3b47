-- ===== src/Contract/Dates.antt =====
-- A normalized date is a date that normalizes to itself (webapp/backend/sources/contract.py).
use jobhunt.Prelude.{
  ℕ, ◌+◌, ◌*◌, ◌/◌, ◌%◌, ◌<◌, ◌≡◌, refl, sym, ap, ◌∙◌, arith, Bool, true, false, not, ◌&&◌, Option,
  none, some, Str, [], ◌∷◌, ◌++◌, ◌==◌, all, if◌then◌else◌, Bool-cases, inl, inr, some-injective,
  subst, Option-cases,
}
use jobhunt.Queue.Job.{is_space}
use jobhunt.Queue.Freshness.{strip, lstrip}
use jobhunt.Contract.Text.{
  Platform, pad2, pad4, date_text, is_calendar, two, join4, date_of, iso_date, normalize_date,
}
use jobhunt.Contract.Spaces.{rstrip, strip-rstrip}

solid : Str → Bool
solid s = all (λ c. not (is_space c)) s

rstrip_nil : rstrip [] ≡ []
unfolding rstrip
rstrip_nil = refl

rstrip-cons : (c : ℕ) (s : Str) → is_space c ≡ false → rstrip (c ∷ s) ≡ c ∷ rstrip s
unfolding rstrip
rstrip-cons c s e = rw e refl

solid-strip : (s : Str) → solid s ≡ true → strip s ≡ s
unfolding solid
solid-strip s h = strip-rstrip s ∙ ap rstrip (solid-lstrip s h) ∙ solid-rstrip s h
  where
    solid-lstrip : (s : Str) → all (λ c. not (is_space c)) s ≡ true → lstrip s ≡ s
    solid-lstrip [] h = refl
    solid-lstrip (c ∷ s) h = elim (Bool-cases (is_space c)) [
      | inl e ↦ ground (arith, e, h)
      | inr e ↦ rw e refl
    ]

    solid-rstrip : (s : Str) → all (λ c. not (is_space c)) s ≡ true → rstrip s ≡ s
    solid-rstrip [] h = rw rstrip_nil refl
    solid-rstrip (c ∷ s) h = elim (Bool-cases (is_space c)) [
      | inl e ↦ ground (arith, e, h)
      | inr e ↦ rw (rstrip-cons c s e) (ap (◌∷◌ c) (solid-rstrip s (ground (arith, e, h))))
    ]

digit-solid : (k : ℕ) → k < 10 → is_space (48 + k) ≡ false
unfolding is_space
digit-solid k h = ground arith

dash_solid : is_space 45 ≡ false
unfolding is_space
dash_solid = refl

four_digits :
    (y : ℕ)
    → y < 10000
    → (y / 100 / 10 % 10 * 10 + y / 100 % 10) * 100 + (y % 100 / 10 % 10 * 10 + y % 100 % 10) ≡ y
four_digits y h = omega arith

two_digits : (m : ℕ) → m < 100 → m / 10 % 10 * 10 + m % 10 ≡ m
two_digits m h = omega arith

calendar_bounds : (y m d : ℕ) → is_calendar y m d ≡ true → (y < 10000) × (m < 100) × (d < 100)
unfolding is_calendar
calendar_bounds y m d h = ground arith

solid_date :
    (a b c e f g i j : ℕ)
    → a < 10
    → b < 10
    → c < 10
    → e < 10
    → f < 10
    → g < 10
    → i < 10
    → j < 10
    → solid (
        (48 + a)
        ∷ (48 + b)
        ∷ (48 + c)
        ∷ (48 + e)
        ∷ 45
        ∷ (48 + f)
        ∷ (48 + g)
        ∷ 45
        ∷ (48 + i)
        ∷ (48 + j)
        ∷ [])
      ≡ true
unfolding solid
solid_date a b c e f g i j ha hb hc he hf hg hi hj =
    rw
      (
        digit-solid a ha,
        digit-solid b hb,
        digit-solid c hc,
        digit-solid e he,
        digit-solid f hf,
        digit-solid g hg,
        digit-solid i hi,
        digit-solid j hj,
        dash_solid,
      )
      refl

date_text-inside :
    (y m d : ℕ)
    → is_calendar y m d ≡ true
    → date_text y m d ≡ some (pad4 y ++ 45 ∷ (pad2 m ++ 45 ∷ pad2 d))
unfolding date_text
date_text-inside y m d e = rw e refl

date_text-outside : (y m d : ℕ) → is_calendar y m d ≡ false → date_text y m d ≡ none
unfolding date_text
date_text-outside y m d e = rw e refl

if_some : (b : Bool) (o : Option Str) (s : Str) → (if b then o else none) ≡ some s → o ≡ some s
if_some true o s h = h
if_some false o s h = cc

-- `\d` and `int` read the ASCII digits.
module _ (pf : Platform) (decimal : (k : ℕ) → k < 10 → pf.digit_of (48 + k) ≡ some k) where
  iso_date-date_text :
      (y m d : ℕ)
      → is_calendar y m d ≡ true
      → iso_date pf (pad4 y ++ 45 ∷ (pad2 m ++ 45 ∷ pad2 d)) ≡ date_text y m d
  unfolding iso_date pad4 pad2 two join4 date_of
  iso_date-date_text y m d h =
      rw
        (
          decimal (y / 100 / 10 % 10) (omega arith),
          decimal (y / 100 % 10) (omega arith),
          decimal (y % 100 / 10 % 10) (omega arith),
          decimal (y % 100 % 10) (omega arith),
          decimal (m / 10 % 10) (omega arith),
          decimal (m % 10) (omega arith),
          decimal (d / 10 % 10) (omega arith),
          decimal (d % 10) (omega arith),
        )
        (rw
          (
            four_digits y (calendar_bounds y m d h).0,
            two_digits m (calendar_bounds y m d h).1,
            two_digits d (calendar_bounds y m d h).2,
          )
          refl)

  date_text-strip :
      (y m d : ℕ)
      → strip (pad4 y ++ 45 ∷ (pad2 m ++ 45 ∷ pad2 d)) ≡ pad4 y ++ 45 ∷ (pad2 m ++ 45 ∷ pad2 d)
  unfolding pad4 pad2
  date_text-strip y m d = solid-strip _ (
      solid_date _ _ _ _ _ _ _ _ (omega arith) (omega arith) (omega arith) (omega arith)
        (omega arith) (omega arith) (omega arith) (omega arith))

  date_text-again :
      (y m d : ℕ) (s : Str) → date_text y m d ≡ some s → normalize_date pf (some s) ≡ some s
  unfolding normalize_date
  date_text-again y m d s h = elim (Bool-cases (is_calendar y m d)) [
    | inl e ↦
        subst (λ t. iso_date pf (strip t) ≡ some t)
          (some-injective _ _ (sym (date_text-inside y m d e) ∙ h))
          (ap (iso_date pf) (date_text-strip y m d)
            ∙ iso_date-date_text y m d e
            ∙ date_text-inside y m d e)
    | inr e ↦ ground (arith, date_text-outside y m d e, h)
  ]

  date_of-again :
      (y m d : Option ℕ) (s : Str) → date_of y m d ≡ some s → normalize_date pf (some s) ≡ some s
  unfolding date_of
  date_of-again (some y) (some m) (some d) s h = date_text-again y m d s h
  date_of-again (some y) (some m) none s h = cc
  date_of-again (some y) none d s h = cc
  date_of-again none m d s h = cc

  iso_date-again : (t s : Str) → iso_date pf t ≡ some s → normalize_date pf (some s) ≡ some s
  unfolding iso_date
  iso_date-again (a ∷ b ∷ c ∷ d ∷ e ∷ f ∷ g ∷ h ∷ i ∷ j ∷ t) s q =
      date_of-again
        (join4 (two (pf.digit_of a) (pf.digit_of b)) (two (pf.digit_of c) (pf.digit_of d)))
        (two (pf.digit_of f) (pf.digit_of g)) (two (pf.digit_of i) (pf.digit_of j)) s
        (if_some ((e == 45) && (h == 45)) _ s q)
  iso_date-again _ s q = cc

  -- A date that normalization returned is its own normal form.
  pub normalize_date_idem :
      (o : Option Str) → normalize_date pf (normalize_date pf o) ≡ normalize_date pf o
  unfolding normalize_date
  normalize_date_idem none = refl
  normalize_date_idem (some t) = elim (Option-cases (iso_date pf (strip t))) [
    | inl e ↦ rw e refl
    | inr (s, e) ↦ rw e (iso_date-again (strip t) s e)
  ]
