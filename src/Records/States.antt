-- ===== src/Records/States.antt =====
-- Content states: a record moves the entry of its own namespace only
-- (webapp/backend/sources/runstore.py).
use jobhunt.Prelude.{
  ◌≡◌, refl, sym, ap, ◌∙◌, arith, true, false, any, ◌&&◌, Option, none, some, Str, List, [], eq_str,
  eq_str→≡, if◌then◌else◌, Bool-cases, inl, inr, or_else,
}
use jobhunt.Store.Rows.{put}
use jobhunt.Runs.Profile.{find}
use jobhunt.Runs.Lookup.{find-put}
use jobhunt.Contract.Text.{Platform}
use jobhunt.Contract.Posting.{NormalizedPosting, namespace_of}
use jobhunt.Records.Tables.{State, is_member}
use jobhunt.Records.Identity.{Delivery, Identified}
use jobhunt.Records.Content.{
  Runs, Content, deliver, is_current, moved_state, version_of, state_after, linked, record_member,
}

current_find :
    (state : State) (n v u : Str) (o : Option Str)
    → find n state ≡ o
    → is_current o v ≡ true
    → find u state ≡ (if eq_str u n then some v else find u state)
unfolding is_current
current_find state n v u none q e = cc
current_find state n v u (some w) q e = elim (Bool-cases (eq_str u n)) [
  | inl f ↦ rw f (ap (λ k. find k state) (eq_str→≡ u n f) ∙ q ∙ ap some (eq_str→≡ w v e))
  | inr f ↦ rw f refl
]

-- `state.get` after a record of namespace `n`.
find-moved_state :
    (state : State) (n v u : Str)
    → find u (moved_state state n v) ≡ (if eq_str u n then some v else find u state)
unfolding moved_state
find-moved_state state n v u = elim (Bool-cases (is_current (find n state) v)) [
  | inl e ↦ rw e (current_find state n v u (find n state) refl e)
  | inr e ↦ rw e (find-put u n v state)
]

-- What the batch holds as the entry of a namespace in the state of a posting.
abbrev pub entry : Content → Str → Str → Option Str
entry s posting_id namespace = find namespace (or_else (find posting_id s.states) [])

pick :
    (p q n u v : Str) (states : List (Str × State))
    → find u (
        or_else
          (if eq_str p q
            then some (moved_state (or_else (find q states) []) n v)
            else find p states)
          [])
      ≡ (if eq_str p q && eq_str u n then some v else find u (or_else (find p states) []))
pick p q n u v states = elim (Bool-cases (eq_str p q)) [
  | inl e ↦ rw e (
      find-moved_state (or_else (find q states) []) n v u
      ∙ ap (λ k. if eq_str u n then some v else find u (or_else (find k states) []))
          (sym (eq_str→≡ p q e)))
  | inr e ↦ rw e refl
]

joined : (p a b : Str) → eq_str p a ≡ true → eq_str p b ≡ true → eq_str a b ≡ true
joined p a b e f = ap (λ k. eq_str k b) (sym (eq_str→≡ p a e)) ∙ f

-- Two keys that differ are not both met.
apart {ℓ} :
    {A : Type ℓ} (p u a b n m : Str) (v w o : A)
    → (eq_str a b && eq_str n m) ≡ false
    → (if eq_str p b && eq_str u m then w else if eq_str p a && eq_str u n then v else o)
      ≡ (if eq_str p a && eq_str u n then v else if eq_str p b && eq_str u m then w else o)
apart p u a b n m v w o h = elim (Bool-cases (eq_str p b && eq_str u m)) [
  | inl e ↦ elim (Bool-cases (eq_str p a && eq_str u n)) [
    | inl f ↦ ground (arith, joined p a b, joined u n m, e, f, h)
    | inr f ↦ rw (e, f) refl
  ]
  | inr e ↦ rw e refl
]

module _ (pf : Platform) (runs : Runs) (d : Delivery) where
  deliver-states :
      (r : NormalizedPosting) (i : Identified) (s : Content)
      → (deliver pf runs d (r, i) s).states
        ≡ put i.posting_id (state_after pf runs d r i s) s.states
  unfolding deliver record_member linked
  deliver-states r i s =
      elim (Bool-cases (any (is_member d.run_uid i.posting_id) (linked pf runs d r i s).members)) [
        | inl e ↦ rw e refl
        | inr e ↦ rw e refl
      ]

  -- After a record is delivered, the entry of its own namespace in the state of its own posting is
  -- its version, and every other entry of every posting is what it was.
  pub deliver-entry :
      (x : NormalizedPosting × Identified) (s : Content) (posting_id namespace : Str)
      → entry (deliver pf runs d x s) posting_id namespace ≡ (
          if eq_str posting_id x.1.posting_id && eq_str namespace (namespace_of x.0)
          then some (version_of pf runs d x.0 x.1)
          else entry s posting_id namespace)
  unfolding state_after
  deliver-entry (r, i) s p u =
      ap (λ m. find u (or_else (find p m) [])) (deliver-states r i s)
      ∙ ap (λ o. find u (or_else o []))
          (find-put p i.posting_id (state_after pf runs d r i s) s.states)
      ∙ pick p i.posting_id (namespace_of r) u (version_of pf runs d r i) s.states

  -- Two records of different postings or of different namespaces leave the same content states in
  -- whichever order they are delivered.
  pub deliver-order :
      (x y : NormalizedPosting × Identified) (s : Content) (posting_id namespace : Str)
      → (eq_str x.1.posting_id y.1.posting_id && eq_str (namespace_of x.0) (namespace_of y.0))
        ≡ false
      → entry (deliver pf runs d y (deliver pf runs d x s)) posting_id namespace
        ≡ entry (deliver pf runs d x (deliver pf runs d y s)) posting_id namespace
  deliver-order x y s p u h =
      rw
        (
          deliver-entry y (deliver pf runs d x s) p u,
          deliver-entry x s p u,
          deliver-entry x (deliver pf runs d y s) p u,
          deliver-entry y s p u,
        )
        (apart p u x.1.posting_id y.1.posting_id (namespace_of x.0) (namespace_of y.0) _ _ _ h)
