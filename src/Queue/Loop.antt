-- ===== src/Queue/Loop.antt =====
-- The invariant rule of the interleaving loop.
use jobhunt.Prelude.{
  ℕ, ◌+◌, ◌≡◌, false, List, [], ◌∷◌, AllFrom, mem, ◌&&◌, leb, Bool-cases, inl, inr,
}
use jobhunt.Queue.Job.{QueuePolicy, Python, effective_uncertain_cap}
use jobhunt.Queue.Eligibility.{Reason, Detail, company_cap, uncertainty_cap, company_key}
use jobhunt.Queue.Lanes.{Item}
use jobhunt.Queue.Compose.{
  Composer, Lane, bank, aim, try_push, drop_item, push_item, held, is_flagged, interleave, is_full,
}

module _ {ℓ κ} (py : Python) (policy : QueuePolicy) (cap : ℕ) (P : Composer → Type ℓ)
    (Q : Lane → ℕ → Item → Type κ)
    (step : (lane : Lane) (i : ℕ) (item : Item) (s : Composer)
      → Q lane i item
      → is_full py policy cap s ≡ false
      → P s
      → P (try_push py policy cap lane i item s)) where
  -- What each push into a queue with room keeps, the loop keeps.
  pub interleave_inv :
      (i : ℕ) (bs as' : List Item) (s : Composer)
      → AllFrom (Q bank) i bs
      → AllFrom (Q aim) i as'
      → P s
      → P (interleave py policy cap i bs as' s)
  unfolding interleave
  interleave_inv i [] [] s hb ha h = h
  interleave_inv i (b ∷ bs) [] s hb ha h = elim (Bool-cases (is_full py policy cap s)) [
    | inl full ↦ rw full h
    | inr room ↦ rw room (interleave_inv (i + 1) bs [] _ hb.1 ha (step bank i b s hb.0 room h))
  ]
  interleave_inv i [] (a ∷ as') s hb ha h = elim (Bool-cases (is_full py policy cap s)) [
    | inl full ↦ rw full h
    | inr room ↦ rw room (interleave_inv (i + 1) [] as' _ hb ha.1 (step aim i a s ha.0 room h))
  ]
  interleave_inv i (b ∷ bs) (a ∷ as') s hb ha h =
      let t : Composer = try_push py policy cap bank i b s in
      elim (Bool-cases (is_full py policy cap s)) [
        | inl full ↦ rw full h
        | inr room ↦
            let ht : P t = step bank i b s hb.0 room h in
            elim (Bool-cases (is_full py policy cap t)) [
              | inl full ↦ rw (room, full) ht
              | inr more ↦
                  rw (room, more)
                    (interleave_inv (i + 1) bs as' _ hb.1 ha.1 (step aim i a t ha.0 more ht))
            ]
      ]

-- A push returns at once, or decides an undecided job by an exclusion or an entry.
pub try_push_cases {ℓ} :
    (py : Python) (policy : QueuePolicy) (cap : ℕ) (P : Composer → Type ℓ) (lane : Lane) (i : ℕ)
    (item : Item) (s : Composer)
    → P s
    → ((r : Reason) (d : Detail)
        → mem item.0.url_b64 s.decided ≡ false
        → P (drop_item item.0 r d s))
    → (mem item.0.url_b64 s.decided ≡ false → P (push_item py lane i item s))
    → P (try_push py policy cap lane i item s)
unfolding try_push
try_push_cases py policy cap P lane i item s skip drop push =
    elim (Bool-cases (mem item.0.url_b64 s.decided)) [
      | inl known ↦ rw known skip
      | inr new ↦
          elim (Bool-cases
            (leb policy.company_cap (held (company_key py item.0) s.company_counts))) [
              | inl full ↦ rw (new, full) (drop company_cap _ new)
              | inr room ↦
                  elim (Bool-cases (
                    is_flagged item.0
                    && leb (effective_uncertain_cap policy cap) s.uncertain_used)) [
                      | inl over ↦ rw (new, room, over) (drop uncertainty_cap _ new)
                      | inr under ↦ rw (new, room, under) (push new)
                    ]
            ]
    ]
