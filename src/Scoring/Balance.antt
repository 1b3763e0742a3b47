-- ===== src/Scoring/Balance.antt =====
-- Every rule records what it adds to the total, under a name of the contract (rubric.py).
use jobhunt.Prelude.{
  ℤ, pos, ◌+ℤ◌, ◌-ℤ◌, +ℤ_assoc, +ℤ_comm, +ℤ-zero, +ℤ-sub, min_ℤ, ◌≡◌, refl, sym, ap, ◌∙◌, subst,
  Bool, true, false, if◌then◌else◌, Str, codes, List, [], ◌∷◌, ◌++◌, All, All-append, mem, eq_str,
  Bool-cases, inl, inr, some, is_some,
}
use jobhunt.Runs.Profile.{find}
use jobhunt.Scoring.Vector.{Value, num, text, Vector, contributions, total_of}
use jobhunt.Scoring.Profile.{Profile}
use jobhunt.Scoring.Texts.{Readers}
use jobhunt.Scoring.Reading.{Reading}
use jobhunt.Scoring.Rules.{
  Tally, LevelRule, too_senior, ii_stretch, design_lead, stretch, no_level, level_rule, by_level,
  credit, flag, say, weighted, begin, score_level, score_years, score_preferred, score_domain,
  score_target, score_place, cap_staff, score_age, note_recovered, score_pay, score_employment,
  note_description, score_degree,
}
use jobhunt.Scoring.Rubric.{tally}

abbrev pub is_number : Value → Bool
is_number (num x) = true
is_number (text c) = false

-- A number under one of the given keys.
abbrev pub Entry : List Str → Str × Value → Type 0
Entry ks e = (mem e.0 ks ≡ true) × (is_number e.1 ≡ true)

abbrev pub Named : List Str → ℤ → Vector → Type 0
Named ks total v = (total_of ks v ≡ total) × All (Entry ks) v

total_of-snoc :
    (ks : List Str) (v : Vector) (k : Str) (x : ℤ)
    → mem k ks ≡ true
    → total_of ks (v ++ (k, num x) ∷ []) ≡ total_of ks v +ℤ x
unfolding total_of
total_of-snoc ks [] k x h = rw h (+ℤ-zero x ∙ sym (+ℤ_comm (pos 0) x ∙ +ℤ-zero x))
total_of-snoc ks ((j, num y) ∷ v) k x h = elim (Bool-cases (mem j ks)) [
  | inl e ↦ rw e (ap (λ t. y +ℤ t) (total_of-snoc ks v k x h) ∙ sym (+ℤ_assoc y (total_of ks v) x))
  | inr e ↦ rw e (total_of-snoc ks v k x h)
]
total_of-snoc ks ((j, text c) ∷ v) k x h = total_of-snoc ks v k x h

pub snoc-Named :
    (ks : List Str) (v : Vector) (k : Str) (s x : ℤ)
    → mem k ks ≡ true
    → Named ks s v
    → Named ks (s +ℤ x) (v ++ (k, num x) ∷ [])
snoc-Named ks v k s x h (t, a) =
    (total_of-snoc ks v k x h ∙ ap (λ t. t +ℤ x) t, All-append (Entry ks) v _ a ((h, refl), tt))

record Balanced (a : Tally) : Type 0 where
  totalled : Named contributions a.score a.features
  started : is_some (find (codes "function_match") a.features) ≡ true

start-Balanced :
    (func : ℤ)
    → Balanced (
        credit
          (codes "function_match")
          func
          (record { score = pos 0; why = []; flags = []; features = [] }))
unfolding credit find eq_str total_of
start-Balanced func = record {
  totalled = snoc-Named contributions [] (codes "function_match") (pos 0) func refl (refl, tt);
  started = refl;
}

pub find-kept :
    (k : Str) (v w : Vector) → is_some (find k v) ≡ true → is_some (find k (v ++ w)) ≡ true
unfolding find
find-kept k [] w h = cc
find-kept k ((j, x) ∷ v) w h = elim (Bool-cases (eq_str k j)) [
  | inl e ↦ rw e refl
  | inr e ↦
      rw e (find-kept k v w (subst (λ b. is_some (if b then some x else find k v) ≡ true) e h))
]

if-Balanced : (b : Bool) {a a' : Tally} → Balanced a → Balanced a' → Balanced (if b then a else a')
if-Balanced true h k = h
if-Balanced false h k = k

flag-Balanced : (f : Str) {a : Tally} → Balanced a → Balanced (flag f a)
unfolding flag
flag-Balanced f h = record { totalled = h.totalled; started = h.started }

say-Balanced : (y : Str) {a : Tally} → Balanced a → Balanced (say y a)
unfolding say
say-Balanced y h = record { totalled = h.totalled; started = h.started }

credit-Balanced :
    (key : Str) (w : ℤ) {a : Tally}
    → mem key contributions ≡ true
    → Balanced a
    → Balanced (credit key w a)
unfolding credit
credit-Balanced key w {a} e h = record {
  totalled = snoc-Named contributions a.features key a.score w e h.totalled;
  started = find-kept (codes "function_match") a.features _ h.started;
}

module _ (pf : Profile) (re : Readers) where
  weighted-Balanced :
      (key : Str) {a : Tally}
      → mem key contributions ≡ true
      → Balanced a
      → Balanced (weighted pf re key a)
  unfolding weighted
  weighted-Balanced key e h = credit-Balanced key (pf.score_row_weight key) e h

  ruleset balances = (if-Balanced, flag-Balanced, say-Balanced, weighted-Balanced)

  by_level-Balanced : (l : LevelRule) {a : Tally} → Balanced a → Balanced (by_level pf re l a)
  unfolding by_level eq_str
  by_level-Balanced too_senior h = search balances
  by_level-Balanced ii_stretch h = search balances
  by_level-Balanced design_lead h = h
  by_level-Balanced stretch h = search balances
  by_level-Balanced no_level h = h

  module _ (x : Reading) where
    score_level-Balanced : {a : Tally} → Balanced a → Balanced (score_level pf re x a)
    unfolding score_level
    score_level-Balanced h = by_level-Balanced (level_rule pf x) h

    score_years-Balanced : {a : Tally} → Balanced a → Balanced (score_years pf re x a)
    unfolding score_years eq_str
    score_years-Balanced h = search balances

    score_preferred-Balanced : {a : Tally} → Balanced a → Balanced (score_preferred pf re x a)
    unfolding score_preferred eq_str
    score_preferred-Balanced h = search balances

    score_domain-Balanced : {a : Tally} → Balanced a → Balanced (score_domain pf re x a)
    unfolding score_domain eq_str
    score_domain-Balanced h = search balances

    score_target-Balanced : {a : Tally} → Balanced a → Balanced (score_target pf re x a)
    unfolding score_target eq_str
    score_target-Balanced h = search balances

    score_place-Balanced : {a : Tally} → Balanced a → Balanced (score_place pf re x a)
    unfolding score_place eq_str
    score_place-Balanced h = search balances

    score_age-Balanced : {a : Tally} → Balanced a → Balanced (score_age pf re x a)
    unfolding score_age eq_str
    score_age-Balanced h = search balances

    score_pay-Balanced : {a : Tally} → Balanced a → Balanced (score_pay pf re x a)
    unfolding score_pay eq_str
    score_pay-Balanced h = search balances

    score_employment-Balanced : {a : Tally} → Balanced a → Balanced (score_employment pf re x a)
    unfolding score_employment eq_str
    score_employment-Balanced h = search balances

    score_degree-Balanced : {a : Tally} → Balanced a → Balanced (score_degree pf re x a)
    unfolding score_degree eq_str
    score_degree-Balanced h = search balances

    note_recovered-Balanced : {a : Tally} → Balanced a → Balanced (note_recovered pf re x a)
    unfolding note_recovered
    note_recovered-Balanced h = search balances

    note_description-Balanced : {a : Tally} → Balanced a → Balanced (note_description pf re x a)
    unfolding note_description
    note_description-Balanced h = search balances

    -- The cap on staff titles adds the difference to the capped total.
    cap_staff-Balanced : {a : Tally} → Balanced a → Balanced (cap_staff pf re x a)
    unfolding cap_staff eq_str
    cap_staff-Balanced {a} h =
        let limit = pf.tier_rules.staff_cap_tier in
        let capped = min_ℤ a.score limit in
        let key = codes "staff_cap_delta" in
        let entered =
          snoc-Named contributions a.features key a.score (capped -ℤ a.score) refl h.totalled in
        if-Balanced (pf.level.staff_cap_pattern.search x.title)
          (flag-Balanced _ (record {
            totalled = (entered.0 ∙ +ℤ-sub a.score capped, entered.1);
            started = find-kept (codes "function_match") a.features _ h.started;
          }))
          h

    begin-Balanced : Balanced (begin pf re x)
    unfolding begin eq_str
    begin-Balanced = search (balances, start-Balanced)

    tally-Balanced : Balanced (tally pf re x)
    unfolding tally
    tally-Balanced = score_degree-Balanced (
        note_description-Balanced (
          score_employment-Balanced (
            score_pay-Balanced (
              note_recovered-Balanced (
                score_age-Balanced (
                  cap_staff-Balanced (
                    score_place-Balanced (
                      score_target-Balanced (
                        score_domain-Balanced (
                          score_preferred-Balanced
                            (score_years-Balanced (score_level-Balanced begin-Balanced))))))))))))

    -- The total is the sum of what was recorded under the contract's names, and nothing else was
    -- recorded so far.
    pub tally-Named : Named contributions (tally pf re x).score (tally pf re x).features
    tally-Named = tally-Balanced.totalled

    -- The starting value is always recorded.
    pub tally-started : is_some (find (codes "function_match") (tally pf re x).features) ≡ true
    tally-started = tally-Balanced.started
