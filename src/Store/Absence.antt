-- ===== src/Store/Absence.antt =====
-- Which postings a settled run retires, and which never (webapp/backend/sources/runstore.py).
use jobhunt.Prelude.{
  ◌≡◌, refl, ap, ◌∙◌, sym, subst, Bool, true, false, not, ◌&&◌, ◌||◌, ◌⊎◌, Str, List, [], ◌∷◌, map,
  arith, any, keep, All, All-any, All-sort_by, Bool-cases, inl, inr, is_some, eq_str, eq_str_refl,
  list_order, nat_order,
}
use jobhunt.Store.Rows.{SourceRun, is_complete, put}
use jobhunt.Store.Queries.{
  SourceScope, scope_of, is_success_of, successful_source_scopes, by_source,
}
use jobhunt.Store.Presence.{
  Posting, Evidence, is_seen, is_owned, refreshed, is_lost, marked, license, licensed_scopes,
  apply_run_presence,
}
use jobhunt.Store.Pass.{mark_first, mark_first-absent, settle, map-map, apply_run_presence-map}

-- A succeeded fetch attempt of the run that declared the complete inventory of the source.
abbrev pub is_license : Str → Str → Str → SourceRun → Bool
is_license run_uid source source_run_id r =
    is_success_of run_uid r
    && (is_complete r.inventory_scope
        && (eq_str r.source source && eq_str r.source_run_id source_run_id))

abbrev pub Licensed : List SourceRun → Str → SourceScope → Type 0
Licensed rows run_uid s = any (is_license run_uid s.source s.source_run_id) rows ≡ true

All-put :
    (P : SourceScope → Type 0) (k : Str) (s : SourceScope) (m : List (Str × SourceScope))
    → P s
    → All P (map (λ ks. ks.1) m)
    → All P (map (λ ks. ks.1) (put k s m))
All-put P k s [] h hs = (h, tt)
All-put P k s ((j, w) ∷ m) h hs = elim (Bool-cases (eq_str k j)) [
  | inl e ↦ rw e (h, hs.1)
  | inr e ↦ rw e (hs.0, All-put P k s m h hs.1)
]

license-All :
    (P : SourceScope → Type 0) (scopes : List SourceScope) (m : List (Str × SourceScope))
    → All (λ s. is_complete s.inventory_scope ≡ true → P s) scopes
    → All P (map (λ ks. ks.1) m)
    → All P (map (λ ks. ks.1) (license scopes m))
unfolding license
license-All P [] m hs ms = ms
license-All P (s ∷ scopes) m hs ms = elim (Bool-cases (is_complete s.inventory_scope)) [
  | inl e ↦ rw e (license-All P scopes (put s.source s m) hs.1 (All-put P s.source s m (hs.0 e) ms))
  | inr e ↦ rw e (license-All P scopes m hs.1 ms)
]

All-of_map :
    (P : SourceScope → Type 0) (rs : List SourceRun)
    → All (λ r. P (scope_of r)) rs
    → All P (map scope_of rs)
All-of_map P [] hs = tt
All-of_map P (r ∷ rs) hs = (hs.0, All-of_map P rs hs.1)

module _ (rows : List SourceRun) (run_uid : Str) where
  abbrev Witnessed : SourceRun → Type 0
  Witnessed r = (q : SourceRun → Bool) → q r ≡ true → any q rows ≡ true

  abbrev Grants : SourceRun → Type 0
  Grants r = is_complete r.inventory_scope ≡ true → Licensed rows run_uid (scope_of r)

  granted : (xs : List SourceRun) → All Witnessed xs → All Grants (keep (is_success_of run_uid) xs)
  granted [] hs = tt
  granted (r ∷ xs) hs = elim (Bool-cases (is_success_of run_uid r)) [
    | inl e ↦ rw e (
      λ c.
          hs.0 (is_license run_uid r.source r.source_run_id)
            (rw (e, c, eq_str_refl r.source, eq_str_refl r.source_run_id)),
      granted xs hs.1,
    )
    | inr e ↦ rw e (granted xs hs.1)
  ]

  scopes_granted :
      All
        (λ s. is_complete s.inventory_scope ≡ true → Licensed rows run_uid s)
        (successful_source_scopes rows run_uid)
  unfolding successful_source_scopes by_source
  scopes_granted =
      All-of_map (λ s. is_complete s.inventory_scope ≡ true → Licensed rows run_uid s) _
        (All-sort_by (list_order nat_order) (λ r. r.source) Grants _
          (All-sort_by nat_order (λ r. r.attempt) Grants _
            (granted rows (All-any rows rows (λ q h. h)))))

pub licensed_scopes-Licensed :
    (e : Evidence) (run_uid : Str)
    → All (Licensed e.source_runs run_uid) (licensed_scopes e run_uid)
unfolding licensed_scopes
licensed_scopes-Licensed e run_uid =
    license-All (Licensed e.source_runs run_uid) (successful_source_scopes e.source_runs run_uid) []
      (scopes_granted e.source_runs run_uid) tt

-- Two lists of the same length, related place by place.
abbrev pub Each : (Posting → Posting → Type 0) → List Posting → List Posting → Type 0
Each P [] [] = Unit
Each P [] (q ∷ qs) = ⊥
Each P (p ∷ ps) [] = ⊥
Each P (p ∷ ps) (q ∷ qs) = P p q × Each P ps qs

Each-map :
    (P : Posting → Posting → Type 0) (f : Posting → Posting)
    → ((p : Posting) → P p (f p))
    → (ps : List Posting) → Each P ps (map f ps)
Each-map P f h [] = tt
Each-map P f h (p ∷ ps) = (h p, Each-map P f h ps)

module _ (e : Evidence) (run_uid at : Str) where
  -- The run observed the posting.
  abbrev pub Observed : Posting → Posting → Type 0
  Observed p q =
      (is_seen e.run_postings run_uid p.posting_id ≡ true)
      × (q ≡ refreshed e.run_postings run_uid at p)

  -- It did not, and the posting was absent already, or no licensing source owns it.
  abbrev pub Unowned : List SourceScope → Posting → Posting → Type 0
  Unowned scopes p q =
      (is_seen e.run_postings run_uid p.posting_id ≡ false)
      × ((is_some p.absent_since
            || not (any (λ s. is_owned e.aliases s.source p.posting_id) scopes))
          ≡ true)
      × (q ≡ p)

  -- It did not, and a source that owns the posting has a licensing attempt.
  abbrev pub Retired : Posting → Posting → Type 0
  Retired p q =
      (is_seen e.run_postings run_uid p.posting_id ≡ false)
      × (is_some p.absent_since ≡ false)
      × ((s : SourceScope) × Licensed e.source_runs run_uid s
          × (is_owned e.aliases s.source p.posting_id ≡ true)
          × (q ≡ marked run_uid s.source_run_id at p))

  abbrev pub Outcome : Posting → Posting → Type 0
  Outcome p q = Observed p q ⊎ Unowned (licensed_scopes e run_uid) p q ⊎ Retired p q

  mark_first-outcome :
      (scopes : List SourceScope) (p : Posting)
      → All (Licensed e.source_runs run_uid) scopes
      → is_seen e.run_postings run_uid p.posting_id ≡ false
      → is_some p.absent_since ≡ false
      → Unowned scopes p (mark_first e run_uid at scopes p)
        ⊎ Retired p (mark_first e run_uid at scopes p)
  unfolding mark_first is_lost
  mark_first-outcome [] p ls u h = inl (u, ground arith, refl)
  mark_first-outcome (s ∷ scopes) p ls u h =
      elim (Bool-cases (is_owned e.aliases s.source p.posting_id)) [
        | inl o ↦ inr (u, h, (s, ls.0, o, rw (h, o, u) refl))
        | inr o ↦ elim (mark_first-outcome scopes p ls.1 u h) [
          | inl w ↦ inl (u, rw o w.1, rw (h, o) w.2)
          | inr r ↦ inr (u, h, (r.2.0, r.2.1, r.2.2, rw (h, o) r.2.3))
        ]
      ]

  settle-Outcome : (p : Posting) → Outcome p (settle e run_uid at p)
  unfolding settle
  settle-Outcome p = elim (Bool-cases (is_seen e.run_postings run_uid p.posting_id)) [
    | inl seen ↦ inl (seen, rw seen refl)
    | inr unseen ↦ elim (Bool-cases (is_some p.absent_since)) [
      | inl a ↦ inr (
          inl (
            unseen,
            rw a refl,
            rw unseen (mark_first-absent e run_uid at (licensed_scopes e run_uid) p a),
          ))
      | inr a ↦ inr (
          subst (λ q. Unowned (licensed_scopes e run_uid) p q ⊎ Retired p q) (rw unseen refl)
            (mark_first-outcome (licensed_scopes e run_uid) p (licensed_scopes-Licensed e run_uid)
              unseen a))
    ]
  ]

  -- The pass does one of three things to each posting, in place: one that the run observed is
  -- refreshed; one that was absent already, or that no licensed source owns, stays as it is; and
  -- one that was present, is unobserved, and is owned by a source with a succeeded fetch attempt
  -- of this run that declared the complete inventory, is marked absent and names that attempt.
  pub apply_run_presence-Outcome :
      (postings : List Posting) → Each Outcome postings (apply_run_presence e run_uid at postings).0
  apply_run_presence-Outcome postings =
      subst (Each Outcome postings) (sym (apply_run_presence-map e run_uid at postings))
        (Each-map Outcome (settle e run_uid at) settle-Outcome postings)

  settle-refreshed :
      (p : Posting)
      → is_seen e.run_postings run_uid p.posting_id ≡ true
      → settle e run_uid at (refreshed e.run_postings run_uid at p)
        ≡ refreshed e.run_postings run_uid at p
  unfolding settle refreshed
  settle-refreshed p h = rw h refl

  settle-marked :
      (p : Posting) (s : SourceScope)
      → is_seen e.run_postings run_uid p.posting_id ≡ false
      → settle e run_uid at (marked run_uid s.source_run_id at p)
        ≡ marked run_uid s.source_run_id at p
  unfolding settle marked
  settle-marked p s h = rw h (
      mark_first-absent e run_uid at (licensed_scopes e run_uid)
        (marked run_uid s.source_run_id at p) refl)

  settle_idem :
      (p : Posting)
      → Outcome p (settle e run_uid at p)
      → settle e run_uid at (settle e run_uid at p) ≡ settle e run_uid at p
  settle_idem p (inl o) = rw o.1 (settle-refreshed p o.0)
  settle_idem p (inr (inl o)) = ap (settle e run_uid at) o.2
  settle_idem p (inr (inr o)) = rw o.2.3 (settle-marked p o.2.0 o.0)

  -- A second pass over the same evidence changes no posting.
  pub apply_run_presence_idem :
      (postings : List Posting)
      → (apply_run_presence e run_uid at (apply_run_presence e run_uid at postings).0).0
        ≡ (apply_run_presence e run_uid at postings).0
  apply_run_presence_idem postings =
      apply_run_presence-map e run_uid at (apply_run_presence e run_uid at postings).0
      ∙ ap (map (settle e run_uid at)) (apply_run_presence-map e run_uid at postings)
      ∙ map-map (settle e run_uid at) (settle e run_uid at) (settle e run_uid at)
          (λ p. settle_idem p (settle-Outcome p)) postings
      ∙ sym (apply_run_presence-map e run_uid at postings)
