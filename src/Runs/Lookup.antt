-- ===== src/Runs/Lookup.antt =====
-- Reading an association list after a write, the dict of the scheduler and of the writer
-- (webapp/backend/sources/scheduler.py, webapp/backend/sources/writer.py).
use jobhunt.Prelude.{
  ◌≡◌, refl, ap, ◌∙◌, arith, false, some, Str, List, [], ◌∷◌, if◌then◌else◌, eq_str, eq_str_comm,
  eq_str→≡, Bool-cases, inl, inr,
}
use jobhunt.Store.Rows.{put}
use jobhunt.Runs.Profile.{find}

another : (u k j : Str) → eq_str k j ≡ false → u ≡ j → eq_str u k ≡ false
another u k j e p = eq_str_comm u k ∙ ap (eq_str k) p ∙ e

-- `d[k] = v`, then `d.get(u)`.
pub find-put {ℓ} :
    {V : Type ℓ} (u k : Str) (v : V) (m : List (Str × V))
    → find u (put k v m) ≡ (if eq_str u k then some v else find u m)
unfolding find
find-put u k v [] = refl
find-put u k v ((j, w) ∷ m) = elim (Bool-cases (eq_str k j)) [
  | inl e ↦ rw e (ground (arith, ap (eq_str u) (eq_str→≡ k j e)))
  | inr e ↦ elim (Bool-cases (eq_str u j)) [
    | inl f ↦ rw (e, f, another u k j e (eq_str→≡ u j f)) refl
    | inr f ↦ rw (e, f) (find-put u k v m)
  ]
]
