-- ===== src/Store/Pass.antt =====
-- The presence pass, one posting at a time (webapp/backend/sources/runstore.py).
use jobhunt.Prelude.{
  ◌≡◌, refl, ap, ap₂, ◌∙◌, sym, Bool, true, Str, List, [], ◌∷◌, map, arith, if◌then◌else◌,
  Bool-cases, inl, inr, is_some,
}
use jobhunt.Store.Rows.{update}
use jobhunt.Store.Queries.{SourceScope}
use jobhunt.Store.Presence.{
  Posting, Evidence, is_seen, refreshed, is_lost, marked, mark_all, refresh_presence,
  licensed_scopes, apply_run_presence,
}

update-map {ℓ} :
    {A : Type ℓ} (p : A → Bool) (f : A → A) (xs : List A)
    → update p f xs ≡ map (λ x. if p x then f x else x) xs
update-map p f [] = refl
update-map p f (x ∷ xs) = ap (◌∷◌ (if p x then f x else x)) (update-map p f xs)

pub map-map {ℓ} :
    {A : Type ℓ} (f g h : A → A)
    → ((x : A) → g (f x) ≡ h x)
    → (xs : List A) → map g (map f xs) ≡ map h xs
map-map f g h e [] = refl
map-map f g h e (x ∷ xs) = ap₂ ◌∷◌ (e x) (map-map f g h e xs)

module _ (e : Evidence) (run_uid at : Str) where
  -- The first licensing source that owns a posting marks it, unless it is seen or absent.
  unfoldable pub mark_first : List SourceScope → Posting → Posting
  mark_first [] p = p
  mark_first (s ∷ scopes) p =
      if is_lost e run_uid s.source p
      then marked run_uid s.source_run_id at p
      else mark_first scopes p

  -- What a pass makes of one posting.
  unfoldable pub settle : Posting → Posting
  unfolding mark_first
  settle p =
      if is_seen e.run_postings run_uid p.posting_id
      then refreshed e.run_postings run_uid at p
      else mark_first (licensed_scopes e run_uid) p

  pub mark_first-absent :
      (scopes : List SourceScope) (p : Posting)
      → is_some p.absent_since ≡ true
      → mark_first scopes p ≡ p
  unfolding mark_first is_lost
  mark_first-absent [] p h = refl
  mark_first-absent (s ∷ scopes) p h = ground (arith, mark_first-absent scopes p h)

  mark_first-seen :
      (scopes : List SourceScope) (p : Posting)
      → is_seen e.run_postings run_uid p.posting_id ≡ true
      → mark_first scopes p ≡ p
  unfolding mark_first is_lost
  mark_first-seen [] p h = refl
  mark_first-seen (s ∷ scopes) p h = ground (arith, mark_first-seen scopes p h)

  abbrev mark_one : SourceScope → Posting → Posting
  mark_one s p = if is_lost e run_uid s.source p then marked run_uid s.source_run_id at p else p

  mark_first-mark_one :
      (s : SourceScope) (scopes : List SourceScope) (p : Posting)
      → mark_first scopes (mark_one s p) ≡ mark_first (s ∷ scopes) p
  unfolding mark_first marked
  mark_first-mark_one s scopes p =
      ground (arith, mark_first-absent scopes (marked run_uid s.source_run_id at p))

  mark_nothing : (postings : List Posting) → map (mark_first []) postings ≡ postings
  unfolding mark_first
  mark_nothing [] = refl
  mark_nothing (p ∷ postings) = ap (◌∷◌ p) (mark_nothing postings)

  posting_id-mark_first :
      (scopes : List SourceScope) (p : Posting) → (mark_first scopes p).posting_id ≡ p.posting_id
  unfolding mark_first marked
  posting_id-mark_first [] p = refl
  posting_id-mark_first (s ∷ scopes) p = ground (arith, posting_id-mark_first scopes p)

  mark_all-map :
      (scopes : List SourceScope) (postings : List Posting)
      → (mark_all e run_uid at scopes postings).0 ≡ map (mark_first scopes) postings
  unfolding mark_all
  mark_all-map [] postings = sym (mark_nothing postings)
  mark_all-map (s ∷ scopes) postings =
      mark_all-map scopes
        (update (is_lost e run_uid s.source) (marked run_uid s.source_run_id at) postings)
      ∙ ap (map (mark_first scopes)) (update-map _ (marked run_uid s.source_run_id at) postings)
      ∙ map-map (mark_one s) (mark_first scopes) (mark_first (s ∷ scopes))
          (mark_first-mark_one s scopes) postings

  abbrev refresh_one : Posting → Posting
  refresh_one p =
      if is_seen e.run_postings run_uid p.posting_id
      then refreshed e.run_postings run_uid at p
      else p

  settle_refreshed :
      (p : Posting) → mark_first (licensed_scopes e run_uid) (refresh_one p) ≡ settle p
  unfolding settle refreshed
  settle_refreshed p =
      ground
        (arith, mark_first-seen (licensed_scopes e run_uid) (refreshed e.run_postings run_uid at p))

  settle_marked : (p : Posting) → refresh_one (mark_first (licensed_scopes e run_uid) p) ≡ settle p
  unfolding settle
  settle_marked p = elim (Bool-cases (is_seen e.run_postings run_uid p.posting_id)) [
    | inl seen ↦ rw (mark_first-seen (licensed_scopes e run_uid) p seen) (rw seen)
    | inr unseen ↦ rw (posting_id-mark_first (licensed_scopes e run_uid) p, unseen)
  ]

  -- The refresh and the sweep over the licensed sources together settle each posting by itself,
  -- by its first licensed owner.
  pub apply_run_presence-map :
      (postings : List Posting) → (apply_run_presence e run_uid at postings).0 ≡ map settle postings
  unfolding apply_run_presence
  apply_run_presence-map postings =
      mark_all-map (licensed_scopes e run_uid)
        (refresh_presence e.run_postings run_uid at postings).0
      ∙ ap (map (mark_first (licensed_scopes e run_uid))) (
          update-map (λ p. is_seen e.run_postings run_uid p.posting_id)
            (refreshed e.run_postings run_uid at) postings)
      ∙ map-map refresh_one (mark_first (licensed_scopes e run_uid)) settle settle_refreshed
          postings

  -- The order of the two passes does not matter: marking before refreshing gives the same postings.
  pub mark_then_refresh :
      (postings : List Posting)
      → (refresh_presence e.run_postings run_uid at
          (mark_all e run_uid at (licensed_scopes e run_uid) postings).0).0
        ≡ (apply_run_presence e run_uid at postings).0
  unfolding refresh_presence
  mark_then_refresh postings =
      update-map (λ p. is_seen e.run_postings run_uid p.posting_id)
        (refreshed e.run_postings run_uid at)
        (mark_all e run_uid at (licensed_scopes e run_uid) postings).0
      ∙ ap (map refresh_one) (mark_all-map (licensed_scopes e run_uid) postings)
      ∙ map-map (mark_first (licensed_scopes e run_uid)) refresh_one settle settle_marked postings
      ∙ sym (apply_run_presence-map postings)
