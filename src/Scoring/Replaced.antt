-- ===== src/Scoring/Replaced.antt =====
-- The rows that a scoring pass replaces, and the rows that land in their place
-- (webapp/backend/sources/scoring.py).
use jobhunt.Prelude.{
  ◌≡◌, refl, sym, ap, ap₂, is_some, subst, some-injective, eq_str→≡, eq_str_refl, ◌∙◌, arith, Bool,
  true, false, ◌||◌, if◌then◌else◌, Option, none, some, Str, List, [], ◌∷◌, any, mem, eq_str,
  Bool-cases, inl, inr,
}
use jobhunt.Runs.Profile.{find}
use jobhunt.Store.Rows.{put}
use jobhunt.Scoring.Persist.{
  ScoreVersion, Batch, Planned, current_score, replaced, new_by_version, olds,
}
use jobhunt.Scoring.Fates.{first, stands_for, id_and_input, current_score-first}

-- Whether a current score is the row of an id.
abbrev pub is_row : Str → Option (Str × Str) → Bool
is_row id none = false
is_row id (some (old, input)) = eq_str id old

module _ (b : Batch) (table : List ScoreVersion) where
  abbrev pub replaces : Str → Planned → Bool
  replaces id p = is_row id (id_and_input (first (stands_for b p.item.posting_version_id) table))

  -- The pairs of a dict are what the current scores say.
  abbrev Agrees : List (Str × Str) → Type 0
  Agrees [] = Unit
  Agrees ((version, old) ∷ m) =
      ((input : Str) × (current_score b version table ≡ some (old, input))) × Agrees m

  put-Agrees :
      (version old input : Str) (m : List (Str × Str))
      → current_score b version table ≡ some (old, input)
      → Agrees m
      → Agrees (put version old m)
  put-Agrees version old input [] e h = ((input, e), tt)
  put-Agrees version old input ((j, w) ∷ m) e h = elim (Bool-cases (eq_str version j)) [
    | inl k ↦ rw k ((input, e), h.1)
    | inr k ↦ rw k (h.0, put-Agrees version old input m e h.1)
  ]

  -- A pair that takes the place of another has its value.
  same_value :
      (version old input j w : Str)
      → eq_str version j ≡ true
      → current_score b version table ≡ some (old, input)
      → ((i : Str) × (current_score b j table ≡ some (w, i)))
      → w ≡ old
  same_value version old input j w k e (i, f) =
      let g : some (w, i) ≡ some (old, input) =
        sym f ∙ subst (λ v. current_score b v table ≡ some (old, input)) (eq_str→≡ version j k) e in
      ap (λ x. x.0) (some-injective _ _ g)

  mem-put :
      (id version old input : Str) (m : List (Str × Str))
      → current_score b version table ≡ some (old, input)
      → Agrees m
      → mem id (olds (put version old m)) ≡ eq_str id old || mem id (olds m)
  mem-put id version old input [] e h = refl
  mem-put id version old input ((j, w) ∷ m) e h = elim (Bool-cases (eq_str version j)) [
    | inl k ↦ rw (k, same_value version old input j w k e h.0) (ground arith)
    | inr k ↦ rw (k, mem-put id version old input m e h.1) (ground arith)
  ]

  -- One more item, by its current score.
  step-Agrees :
      (p : Planned) (o : Option (Str × Str)) (m : List (Str × Str))
      → current_score b p.item.posting_version_id table ≡ o
      → Agrees m
      → Agrees (elim o [ none ↦ m | some (id, input) ↦ put p.item.posting_version_id id m ])
  step-Agrees p none m e h = h
  step-Agrees p (some (old, input)) m e h = put-Agrees p.item.posting_version_id old input m e h

  replaced-Agrees : (ps : List Planned) → Agrees (replaced b table ps)
  unfolding replaced
  replaced-Agrees [] = tt
  replaced-Agrees (p ∷ ps) = step-Agrees p _ (replaced b table ps) refl (replaced-Agrees ps)

  mem-step :
      (id : Str) (p : Planned) (o : Option (Str × Str)) (m : List (Str × Str))
      → current_score b p.item.posting_version_id table ≡ o
      → Agrees m
      → mem id
          (olds (elim o [ none ↦ m | some (old, input) ↦ put p.item.posting_version_id old m ]))
        ≡ is_row id o || mem id (olds m)
  mem-step id p none m e h = refl
  mem-step id p (some (old, input)) m e h = mem-put id p.item.posting_version_id old input m e h

  -- The rows that are replaced are the current scores of the versions of the items that land.
  pub mem-replaced :
      (id : Str) (ps : List Planned) → mem id (olds (replaced b table ps)) ≡ any (replaces id) ps
  unfolding replaced
  mem-replaced id [] = refl
  mem-replaced id (p ∷ ps) =
      mem-step id p _ (replaced b table ps) refl (replaced-Agrees ps)
      ∙ ap₂ (λ o x. is_row id o || x) (current_score-first b p.item.posting_version_id table)
          (mem-replaced id ps)

abbrev pub or_row : Option Str → Bool → Str → Option Str
or_row none is_here id = if is_here then some id else none
or_row (some later) is_here id = some later

-- The row that lands last on a version.
abbrev pub last_landed : List Planned → Str → Option Str
last_landed [] version = none
last_landed (p ∷ ps) version =
    or_row (last_landed ps version) (eq_str version p.item.posting_version_id) p.row_id

find-same :
    (k id : Str) (rest : List (Str × Str)) (o : Option Str)
    → find k rest ≡ o
    → find k (if is_some (find k rest) then rest else (k, id) ∷ rest) ≡ or_row o true id
unfolding find
find-same k id rest none h = rw h (rw (eq_str_refl k) refl)
find-same k id rest (some old) h = rw h h

find-other :
    (c : Bool) (version k id : Str) (rest : List (Str × Str)) (o : Option Str)
    → eq_str version k ≡ false
    → find version rest ≡ o
    → find version (if c then rest else (k, id) ∷ rest) ≡ or_row o false id
unfolding find
find-other true version k id rest none e h = h
find-other true version k id rest (some old) e h = h
find-other false version k id rest none e h = rw e h
find-other false version k id rest (some old) e h = rw e h

-- The dict of the rows that land, read at a version.
pub find-new_by_version :
    (ps : List Planned) (version : Str) → find version (new_by_version ps) ≡ last_landed ps version
unfolding new_by_version find
find-new_by_version [] version = refl
find-new_by_version (p ∷ ps) version =
    let k = p.item.posting_version_id in
    elim (Bool-cases (eq_str version k)) [
      | inl e ↦ rw e (
          subst
            (λ v.
              find version (
                if is_some (find v (new_by_version ps))
                then new_by_version ps
                else (v, p.row_id) ∷ new_by_version ps)
              ≡ or_row (last_landed ps version) true p.row_id)
            (eq_str→≡ version k e)
            (find-same version p.row_id (new_by_version ps) _ (find-new_by_version ps version)))
      | inr e ↦
          rw e (
            find-other _ version k p.row_id (new_by_version ps) _ e
              (find-new_by_version ps version))
    ]
