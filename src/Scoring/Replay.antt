-- ===== src/Scoring/Replay.antt =====
-- The tier that the scorer gives is the one that its feature vector replays (rubric.py).
use jobhunt.Prelude.{
  ℤ, pos, ltb_ℤ, min_ℤ, ◌≡◌, refl, sym, ap, ◌∙◌, subst, arith, Bool, true, false, ◌&&◌, ◌||◌,
  if◌then◌else◌, Option, none, some, Str, codes, List, [], ◌∷◌, ◌++◌, All, mem, eq_str, eq_str_refl,
  eq_str_comm, eq_str→≡, append-nil, All-append, Bool-cases, Option-cases, inl, inr,
}
use jobhunt.Runs.Profile.{find}
use jobhunt.Scoring.Vector.{Value, num, Vector, contributions, cap_features, raw_score, blocker}
use jobhunt.Scoring.Profile.{Profile}
use jobhunt.Scoring.Texts.{Readers}
use jobhunt.Scoring.Reading.{Row, Reading, reading_of}
use jobhunt.Scoring.Rules.{older_than}
use jobhunt.Scoring.Rubric.{
  Refusal, blocked, replay, Capped, force, unless_lower, clamp, tally, cap_func, cap_no_desc,
  cap_stale, capped, scored, score_reading, refusal, score_row_core, number_in, min_with,
  apply_caps, reconstruct_tier,
}
use jobhunt.Scoring.Balance.{Entry, tally-Named}

found_first : (k : Str) {x : Value} → find k ((k, x) ∷ []) ≡ some x
unfolding find
found_first k = rw (eq_str_refl k) refl

-- A key that is none of the names is not found before the rest.
pub find-append :
    (ks : List Str) (k : Str) (v w : Vector)
    → mem k ks ≡ false
    → All (Entry ks) v
    → find k (v ++ w) ≡ find k w
unfolding find
find-append ks k [] w h a = refl
find-append ks k ((j, x) ∷ v) w h ((m, n), a) = elim (Bool-cases (eq_str k j)) [
  | inl e ↦ cc (h, subst (λ i. mem i ks ≡ true) (sym (eq_str→≡ k j e)) m)
  | inr e ↦ rw e (find-append ks k v w h a)
]

find-snoc :
    (j k : Str) (v : Vector) (x : Value) → eq_str j k ≡ false → find j (v ++ (k, x) ∷ []) ≡ find j v
unfolding find
find-snoc j k [] x h = rw h refl
find-snoc j k ((i, y) ∷ v) x h = ap (λ o. if eq_str j i then some y else o) (find-snoc j k v x h)

apply_caps-snoc :
    (ks : List Str) (k : Str) (v : Vector) (x : Value) (t : ℤ)
    → mem k ks ≡ false
    → apply_caps ks (v ++ (k, x) ∷ []) t ≡ apply_caps ks v t
unfolding apply_caps
apply_caps-snoc [] k v x t h = refl
apply_caps-snoc (j ∷ ks) k v x t h = elim (Bool-cases (eq_str k j)) [
  | inl e ↦ cc (h, ap (λ b. b || mem k ks) e)
  | inr e ↦ rw (find-snoc j k v x (eq_str_comm j k ∙ e)) (
      apply_caps-snoc ks k v x (min_with t (number_in (find j v)))
        (subst (λ b. (b || mem k ks) ≡ false) e h))
]

apply_caps-last :
    (ks : List Str) (k : Str) (v : Vector) (t : ℤ)
    → apply_caps (ks ++ k ∷ []) v t ≡ min_with (apply_caps ks v t) (number_in (find k v))
unfolding apply_caps
apply_caps-last [] k v t = refl
apply_caps-last (j ∷ ks) k v t = apply_caps-last ks k v (min_with t (number_in (find j v)))

mem-append : (j : Str) (ks ls : List Str) → mem j ks ≡ true → mem j (ks ++ ls) ≡ true
mem-append j [] ls h = cc
mem-append j (k ∷ ks) ls h = ground (arith, h, mem-append j ks ls)

Entry-append : (ks ls : List Str) (v : Vector) → All (Entry ks) v → All (Entry (ks ++ ls)) v
Entry-append ks ls [] a = tt
Entry-append ks ls ((j, x) ∷ v) ((m, n), a) = ((mem-append j ks ls m, n), Entry-append ks ls v a)

last-mem : (ks : List Str) (k : Str) → mem k (ks ++ k ∷ []) ≡ true
last-mem [] k = rw (eq_str_refl k) refl
last-mem (j ∷ ks) k = ground (arith, last-mem ks k)

-- The caps of the names so far, applied to the first tier, give the present one.
pub record Replays (ks : List Str) (t : ℤ) (c : Capped) : Type 0 where
  pub replayed : apply_caps ks c.caps t ≡ c.tier
  pub entries : All (Entry ks) c.caps

apply_caps-behind :
    (names ks : List Str) (v w : Vector) (t : ℤ)
    → All (λ k. mem k names ≡ false) ks
    → All (Entry names) v
    → apply_caps ks (v ++ w) t ≡ apply_caps ks w t
unfolding apply_caps
apply_caps-behind names [] v w t h a = refl
apply_caps-behind names (k ∷ ks) v w t (h, hs) a =
    rw (find-append names k v w h a) (apply_caps-behind names ks v w _ hs a)

pub find-none :
    (ks : List Str) (k : Str) (v : Vector) → mem k ks ≡ false → All (Entry ks) v → find k v ≡ none
unfolding find
find-none ks k v h a = ap (find k) (sym (append-nil v)) ∙ find-append ks k v [] h a

-- A vector of contributions, the raw score and the caps is replayed by applying the caps to the
-- clamped score.
replay-entries :
    (v : Vector) (s : ℤ) (caps : Vector) (t : ℤ)
    → All (Entry contributions) v
    → All (Entry cap_features) caps
    → apply_caps cap_features caps (clamp s) ≡ t
    → reconstruct_tier (v ++ (raw_score, num s) ∷ caps) ≡ some t
unfolding reconstruct_tier replay eq_str
replay-entries v s caps t a b h =
    let w = (raw_score, num s) ∷ caps in
    rw
      (
        find-append contributions blocker v w refl a,
        find-append contributions raw_score v w refl a,
        find-none cap_features blocker caps refl b,
      )
      (ap some (
        apply_caps-behind contributions cap_features v w (clamp s)
          (refl, (refl, (refl, (refl, tt)))) a
        ∙ apply_caps-behind (raw_score ∷ []) cap_features ((raw_score, num s) ∷ []) caps (clamp s)
            (refl, (refl, (refl, (refl, tt)))) ((refl, refl), tt)
        ∙ h))

replay_blocked : (b : Refusal) → reconstruct_tier (blocked b).features ≡ some (blocked b).tier
unfolding reconstruct_tier blocked find eq_str
replay_blocked b = refl

-- A cap that fires is below the tier, so it is their minimum.
and_right : (a b : Bool) → (a && b) ≡ true → b ≡ true
and_right true b h = h
and_right false b h = cc

module _ (k mark : Str) (limit t : ℤ) (ks : List Str) (new : mem k ks ≡ false) where
  skip-Replays : (c : Capped) → Replays ks t c → Replays (ks ++ k ∷ []) t c
  unfolding find
  skip-Replays c r = record {
    replayed =
        apply_caps-last ks k c.caps t
        ∙ ap (λ o. min_with (apply_caps ks c.caps t) (number_in o))
            (find-none ks k c.caps new r.entries)
        ∙ r.replayed;
    entries = Entry-append ks _ c.caps r.entries;
  }

  force-Replays :
      (c : Capped)
      → Replays ks t c
      → Replays (ks ++ k ∷ []) t (record (force k mark limit c) { tier = min_ℤ c.tier limit })
  unfolding force
  force-Replays c r = record {
    replayed =
        apply_caps-last ks k (c.caps ++ (k, num limit) ∷ []) t
        ∙ ap (λ o. min_with (apply_caps ks (c.caps ++ (k, num limit) ∷ []) t) (number_in o))
            (find-append ks k c.caps _ new r.entries ∙ found_first k)
        ∙ ap (λ u. min_ℤ u limit) (apply_caps-snoc ks k c.caps (num limit) t new ∙ r.replayed);
    entries =
        All-append (Entry (ks ++ k ∷ [])) c.caps _ (Entry-append ks _ c.caps r.entries)
          ((last-mem ks k, refl), tt);
  }

  lower-Replays :
      (b : Bool) (c : Capped)
      → Replays ks t c
      → Replays (ks ++ k ∷ []) t (unless_lower b k mark limit c)
  unfolding force
  lower-Replays b c r = elim (Bool-cases (b && ltb_ℤ limit c.tier)) [
    | inl e ↦ rw e (
        subst (λ u. Replays (ks ++ k ∷ []) t (record (force k mark limit c) { tier = u }))
          (ap (λ b. if b then limit else c.tier) (and_right b (ltb_ℤ limit c.tier) e))
          (force-Replays c r))
    | inr e ↦ rw e (skip-Replays c r)
  ]

module _ (pf : Profile) (re : Readers) (x : Reading) where
  cap_stale-Replays :
      (t : ℤ) (c : Capped)
      → Replays (codes "cap_func" ∷ codes "cap_no_desc" ∷ []) t c
      → Replays cap_features t (cap_stale pf re x c)
  unfolding cap_stale eq_str
  cap_stale-Replays t c r = elim (Bool-cases (older_than pf.tier_rules.stale_cap_days x.age)) [
    | inl e ↦ rw e (skip-Replays _ [] (pos 0) t _ refl _ (force-Replays _ _ _ t _ refl c r))
    | inr e ↦ rw e (lower-Replays _ _ _ t _ refl _ _ (skip-Replays _ [] (pos 0) t _ refl c r))
  ]

  cap_func-Replays :
      (t : ℤ) (c : Capped) → Replays [] t c → Replays (codes "cap_func" ∷ []) t (cap_func pf re x c)
  unfolding cap_func
  cap_func-Replays t c r = lower-Replays _ _ _ t [] refl _ c r

  cap_no_desc-Replays :
      (t : ℤ) (c : Capped)
      → Replays (codes "cap_func" ∷ []) t c
      → Replays (codes "cap_func" ∷ codes "cap_no_desc" ∷ []) t (cap_no_desc pf re x c)
  unfolding cap_no_desc eq_str
  cap_no_desc-Replays t c r = lower-Replays _ _ _ t (codes "cap_func" ∷ []) refl _ c r

  pub capped-Replays : (t : ℤ) → Replays cap_features t (capped pf re x t)
  unfolding capped apply_caps
  capped-Replays t =
      cap_stale-Replays t _
        (cap_no_desc-Replays t _ (cap_func-Replays t _ (record { replayed = refl; entries = tt })))

  reconstruct_tier-scored : reconstruct_tier (scored pf re x).features ≡ some (scored pf re x).tier
  unfolding scored reconstruct_tier replay
  reconstruct_tier-scored =
      let a = tally pf re x in
      let c = capped pf re x (clamp a.score) in
      let named = (tally-Named pf re x).1 in
      let r = capped-Replays (clamp a.score) in
      replay-entries a.features a.score c.caps c.tier named r.entries r.replayed

  reconstruct_tier-score_reading :
      reconstruct_tier (score_reading pf re x).features ≡ some (score_reading pf re x).tier
  unfolding score_reading
  reconstruct_tier-score_reading = elim (Option-cases (refusal pf re x)) [
    | inl e ↦ rw e reconstruct_tier-scored
    | inr (b, e) ↦ rw e (replay_blocked b)
  ]

-- Whatever the posting, the description and the profile, the tier that the scorer returns is the one
-- that its feature vector alone replays.
pub reconstruct_tier-score_row_core :
    (pf : Profile) (re : Readers) (r : Row) (desc : Str) (is_aggregator : Option Bool)
    → reconstruct_tier (score_row_core pf re r desc is_aggregator).0.features
      ≡ some (score_row_core pf re r desc is_aggregator).0.tier
unfolding score_row_core
reconstruct_tier-score_row_core pf re r desc is_aggregator =
    reconstruct_tier-score_reading pf re (reading_of re pf r desc is_aggregator)
