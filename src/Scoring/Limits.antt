-- ===== src/Scoring/Limits.antt =====
-- The tier as a minimum, and the audit of a stored total (rubric.py).
use jobhunt.Prelude.{
  ℤ, pos, ltb_ℤ, min_ℤ, ◌≡◌, refl, sym, ap, ◌∙◌, subst, Bool, true, false, not, ◌&&◌, ◌||◌,
  if◌then◌else◌, Option, none, some, is_some, Str, List, [], ◌∷◌, ◌++◌, All, mem, eq_str, eq_str→≡,
  Bool-cases, inl, inr,
}
use jobhunt.Runs.Profile.{find}
use jobhunt.Scoring.Vector.{num, text, Vector, contributions, cap_features, raw_score, total_of}
use jobhunt.Scoring.Profile.{Profile}
use jobhunt.Scoring.Texts.{Readers}
use jobhunt.Scoring.Reading.{Reading, function_weight}
use jobhunt.Scoring.Rules.{older_than}
use jobhunt.Scoring.Rubric.{
  Capped, force, unless_lower, clamp, tally, cap_func, cap_no_desc, cap_stale, capped, scored,
  number_in,
}
use jobhunt.Scoring.Balance.{Entry, Named, tally-Named}
use jobhunt.Scoring.Replay.{find-append, capped-Replays}

abbrev pub lowest : ℤ → List ℤ → ℤ
lowest t [] = t
lowest t (l ∷ ls) = lowest (min_ℤ t l) ls

abbrev pub when : Bool → ℤ → List ℤ
when b l = if b then l ∷ [] else []

-- The limits that the rules of the tier put on a posting.
abbrev pub limits : Profile → Reading → List ℤ
limits pf x =
    let rules = pf.tier_rules in
    let stale = older_than rules.stale_cap_days x.age in
    when (ltb_ℤ (function_weight pf.families x.family) rules.func_cap_min_func) rules.func_cap_tier
    ++ (when (not x.has_desc) rules.no_desc_cap_tier
        ++ (when stale rules.stale_cap_tier
            ++ when (not (is_some x.age) && x.is_aggregator) rules.undated_aggregator_cap_tier))

lowered :
    (b : Bool) (key mark : Str) (limit : ℤ) (c : Capped)
    → (unless_lower b key mark limit c).tier ≡ lowest c.tier (when b limit)
unfolding force
lowered true key mark limit c = elim (Bool-cases (ltb_ℤ limit c.tier)) [
  | inl e ↦ rw e refl
  | inr e ↦ rw e refl
]
lowered false key mark limit c = refl

lowest-append : (t : ℤ) (ks ls : List ℤ) → lowest t (ks ++ ls) ≡ lowest (lowest t ks) ls
lowest-append t [] ls = refl
lowest-append t (k ∷ ks) ls = lowest-append (min_ℤ t k) ks ls

-- A dated posting is not undated.
older_than-is_some : (days : ℤ) (age : Option ℤ) → older_than days age ≡ true → is_some age ≡ true
older_than-is_some days none h = cc
older_than-is_some days (some a) h = refl

foreign :
    (ks ls : List Str) (j : Str)
    → All (λ k. mem k ls ≡ false) ks
    → mem j ks ≡ true
    → mem j ls ≡ false
foreign [] ls j h m = cc
foreign (k ∷ ks) ls j (h, hs) m = elim (Bool-cases (eq_str j k)) [
  | inl e ↦ subst (λ i. mem i ls ≡ false) (sym (eq_str→≡ j k e)) h
  | inr e ↦ foreign ks ls j hs (subst (λ b. (b || mem j ks) ≡ true) e m)
]

-- Entries under other names add nothing.
total_of-foreign :
    (ks ls : List Str) (v : Vector)
    → All (λ k. mem k ls ≡ false) ks
    → All (Entry ks) v
    → total_of ls v ≡ pos 0
unfolding total_of
total_of-foreign ks ls [] h a = refl
total_of-foreign ks ls ((j, num y) ∷ v) h ((m, n), a) =
    rw (foreign ks ls j h m) (total_of-foreign ks ls v h a)
total_of-foreign ks ls ((j, text c) ∷ v) h ((m, n), a) = cc

total_of-append :
    (ls : List Str) (v w : Vector) → total_of ls w ≡ pos 0 → total_of ls (v ++ w) ≡ total_of ls v
unfolding total_of
total_of-append ls [] w h = h
total_of-append ls ((j, num y) ∷ v) w h = rw (total_of-append ls v w h) refl
total_of-append ls ((j, text c) ∷ v) w h = total_of-append ls v w h

audited :
    (v : Vector) (s : ℤ) (caps : Vector)
    → Named contributions s v
    → All (Entry cap_features) caps
    → number_in (find raw_score (v ++ (raw_score, num s) ∷ caps))
      ≡ some (total_of contributions (v ++ (raw_score, num s) ∷ caps))
unfolding find eq_str total_of
audited v s caps (t, a) b =
    ap number_in (find-append contributions raw_score v _ refl a)
    ∙ ap some (
        sym t
        ∙ sym (
            total_of-append contributions v ((raw_score, num s) ∷ caps) (
              total_of-foreign cap_features contributions caps (refl, (refl, (refl, (refl, tt))))
                b)))

module _ (pf : Profile) (re : Readers) (x : Reading) where
  abbrev age_limit : List ℤ
  age_limit =
      when (older_than pf.tier_rules.stale_cap_days x.age) pf.tier_rules.stale_cap_tier
      ++ when (not (is_some x.age) && x.is_aggregator) pf.tier_rules.undated_aggregator_cap_tier

  stale_lowered : (c : Capped) → (cap_stale pf re x c).tier ≡ lowest c.tier age_limit
  unfolding cap_stale
  stale_lowered c = elim (Bool-cases (older_than pf.tier_rules.stale_cap_days x.age)) [
    | inl e ↦ rw (e, older_than-is_some _ _ e) refl
    | inr e ↦ rw e (lowered _ _ _ _ c)
  ]

  abbrev func_limit : List ℤ
  func_limit =
      when (ltb_ℤ (function_weight pf.families x.family) pf.tier_rules.func_cap_min_func)
        pf.tier_rules.func_cap_tier

  abbrev desc_limit : List ℤ
  desc_limit = when (not x.has_desc) pf.tier_rules.no_desc_cap_tier

  func_lowered : (c : Capped) → (cap_func pf re x c).tier ≡ lowest c.tier func_limit
  unfolding cap_func
  func_lowered c = lowered _ _ _ _ c

  desc_lowered : (c : Capped) → (cap_no_desc pf re x c).tier ≡ lowest c.tier desc_limit
  unfolding cap_no_desc
  desc_lowered c = lowered _ _ _ _ c

  capped-lowest : (t : ℤ) → (capped pf re x t).tier ≡ lowest t (limits pf x)
  unfolding capped
  capped-lowest t =
      let begun : Capped = record { tier = t; marks = []; caps = [] } in
      let func = cap_func pf re x begun in
      stale_lowered (cap_no_desc pf re x func)
      ∙ ap (λ u. lowest u age_limit)
          (desc_lowered func ∙ ap (λ u. lowest u desc_limit) (func_lowered begun))
      ∙ sym (
          lowest-append t func_limit (desc_limit ++ age_limit)
          ∙ lowest-append (lowest t func_limit) desc_limit age_limit)

  -- The tier of a scored posting is the clamped total, lowered to the least of the limits that its
  -- family, its missing description, its age or its undated aggregator put on it.
  pub scored-lowest : (scored pf re x).tier ≡ lowest (clamp (tally pf re x).score) (limits pf x)
  unfolding scored
  scored-lowest = capped-lowest (clamp (tally pf re x).score)

-- The stored total of a scored posting is the sum of the stored contributions.
pub scored-audited :
    (pf : Profile) (re : Readers) (x : Reading)
    → number_in (find raw_score (scored pf re x).features)
      ≡ some (total_of contributions (scored pf re x).features)
unfolding scored
scored-audited pf re x =
    audited (tally pf re x).features _ _ (tally-Named pf re x) (capped-Replays pf re x _).entries
