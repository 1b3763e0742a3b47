-- ===== src/Resolver/Merging.antt =====
-- What the resolution of aggregators leaves behind, and a second one
-- (webapp/backend/sources/resolver.py).
use jobhunt.Prelude.{
  ◌≡◌, refl, ap, subst, Str, ◌∙◌, Bool, true, false, ◌||◌, Option, none, some, List, [], ◌∷◌, any,
  eq_str, eq_str_refl, if◌then◌else◌, Bool-cases, inl, inr, any-append,
}
use jobhunt.Contract.Text.{Platform}
use jobhunt.Records.Tables.{AliasRow, insert_or_ignore}
use jobhunt.Records.Growth.{Extends, Extends-refl, Extends-trans, insert_or_ignore-Extends}
use jobhunt.Resolver.Local.{
  Observation, DirectIndex, Subject, ResolutionOutcome, resolve_local, is_ambiguous,
}
use jobhunt.Resolver.Redirects.{
  Redirect, Invalidation, Merges, Report, Pass, is_from, is_evidence, is_invalidation,
  record_redirect, evidence, evidence_id, invalidation_id, emit_invalidation,
  has_direct_rank0_alias, write_match, write_matched, write_outcome, resolve_one, resolve_all,
  resolve_aggregators,
}

module _ {ℓ} {A : Type ℓ} (p : A → Bool) (x : A) where
  inserted-any : (xs : List A) → p x ≡ true → any p (insert_or_ignore p x xs) ≡ true
  inserted-any xs h = elim (Bool-cases (any p xs)) [
    | inl e ↦ rw (e, e) refl
    | inr e ↦ rw e (any-append p xs (x ∷ []) ∙ rw (e, h) refl)
  ]

  -- Where a row was inserted once, none with its key is inserted again, however the table has grown.
  insert-again :
      (y : A) (xs ys : List A)
      → p x ≡ true
      → Extends (insert_or_ignore p x xs) ys
      → (any p ys ≡ true) × (insert_or_ignore p y ys ≡ ys)
  insert-again y xs ys h (zs, e) =
      let known =
        ap (any p) e
        ∙ any-append p (insert_or_ignore p x xs) zs
        ∙ ap (λ b. b || any p zs) (inserted-any xs h) in
      (known, rw known refl)

record_redirect-Extends : (r : Redirect) (rs : List Redirect) → Extends rs (record_redirect r rs)
unfolding record_redirect
record_redirect-Extends r rs = elim (Bool-cases (eq_str r.from_posting_id r.to_posting_id)) [
  | inl e ↦ rw e (Extends-refl rs)
  | inr e ↦ rw e (insert_or_ignore-Extends (is_from r.from_posting_id) r rs)
]

record_redirect-again :
    (r : Redirect) (at : Str) (rs qs : List Redirect)
    → Extends (record_redirect r rs) qs
    → record_redirect (record r { created_at = at }) qs ≡ qs
unfolding record_redirect is_from
record_redirect-again r at rs qs h = elim (Bool-cases (eq_str r.from_posting_id r.to_posting_id)) [
  | inl e ↦ rw e refl
  | inr e ↦
      rw e
        (insert-again (is_from r.from_posting_id) r (record r { created_at = at }) rs qs
          (eq_str_refl r.from_posting_id)
          (subst
            (λ b. Extends (if b then rs else insert_or_ignore (is_from r.from_posting_id) r rs) qs)
            e h)).1
]

-- What the tables of a pass have grown to.
abbrev pub Grown : Merges → Merges → Type 0
Grown t u =
    Extends t.redirects u.redirects
    × Extends t.evidence u.evidence
    × Extends t.invalidations u.invalidations

Grown-refl : (t : Merges) → Grown t t
Grown-refl t = (Extends-refl t.redirects, Extends-refl t.evidence, Extends-refl t.invalidations)

Grown-trans : (t u v : Merges) → Grown t u → Grown u v → Grown t v
Grown-trans t u v h k = (
  Extends-trans t.redirects _ _ h.0 k.0,
  Extends-trans t.evidence _ _ h.1 k.1,
  Extends-trans t.invalidations _ _ h.2 k.2,
)

-- What a step over known ground does: it writes no redirect and no evidence, and in the same run it
-- writes nothing and queues nothing.
abbrev pub Same : Type 0 → Merges × Report → Merges × Report → Type 0
Same same_run d e =
    (e.0.redirects ≡ d.0.redirects)
    × (e.0.evidence ≡ d.0.evidence)
    × (same_run → (e.0.invalidations ≡ d.0.invalidations) × (e.1.invalidated ≡ d.1.invalidated))

module _ (pf : Platform) (pass : Pass) where
  write_match-Grown :
      (s : Subject) (c : Observation) (d : Merges × Report)
      → Grown d.0 (write_match pf pass s c d).0
  unfolding write_match evidence emit_invalidation
  write_match-Grown s c (t, out) = (
    record_redirect-Extends _ t.redirects,
    insert_or_ignore-Extends _ _ t.evidence,
    insert_or_ignore-Extends _ _ t.invalidations,
  )

  write_matched-Grown :
      (s : Subject) (m : Option Observation) (d : Merges × Report)
      → Grown d.0 (write_matched pf pass s m d).0
  unfolding write_matched
  write_matched-Grown s none d = Grown-refl d.0
  write_matched-Grown s (some c) d = write_match-Grown s c d

  write_outcome-Grown :
      (s : Subject) (b : Bool) (o : ResolutionOutcome) (d : Merges × Report)
      → Grown d.0 (write_outcome pf pass s b o d).0
  unfolding write_outcome evidence
  write_outcome-Grown s true o (t, out) = (
    Extends-refl t.redirects,
    insert_or_ignore-Extends _ _ t.evidence,
    Extends-refl t.invalidations,
  )
  write_outcome-Grown s false o (t, out) = write_matched-Grown s o.matched (t, out)

  resolve_one-Grown :
      (aliases : List AliasRow) (index : DirectIndex) (s : Subject) (d : Merges × Report)
      → Grown d.0 (resolve_one pf pass aliases index s d).0
  unfolding resolve_one
  resolve_one-Grown aliases index s d =
      elim (Bool-cases (has_direct_rank0_alias pf pass aliases s.posting_id)) [
        | inl e ↦ rw e (Grown-refl d.0)
        | inr e ↦ rw e (
            write_outcome-Grown s (is_ambiguous (resolve_local pf s index))
              (resolve_local pf s index) d)
      ]

  resolve_all-Grown :
      (aliases : List AliasRow) (index : DirectIndex) (ss : List Subject) (d : Merges × Report)
      → Grown d.0 (resolve_all pf pass aliases index ss d).0
  unfolding resolve_all
  resolve_all-Grown aliases index [] d = Grown-refl d.0
  resolve_all-Grown aliases index (s ∷ ss) d =
      let next = resolve_one pf pass aliases index s d in
      Grown-trans d.0 next.0 _ (resolve_one-Grown aliases index s d)
        (resolve_all-Grown aliases index ss next)

-- What a pass reports before its first subject.
abbrev pub nothing_yet : Report
nothing_yet = record { matched = []; ambiguous = 0; invalidated = [] }

-- A second pass over the same postings, in a run and at a time of its own.
module _ (pf : Platform) (pass : Pass) (run_uid at : Str) where
  abbrev pub later : Pass
  later = record pass { run_uid = run_uid; at = at }

  abbrev pub SameAgain : Merges × Report → Merges × Report → Type 0
  SameAgain = Same (run_uid ≡ pass.run_uid)

  -- What the run has queued, it does not queue again.
  emit-again :
      (posting_id reason : Str) (rows queued : List Invalidation)
      → run_uid ≡ pass.run_uid
      → Extends (emit_invalidation pf pass posting_id reason rows).0 queued
      → emit_invalidation pf later posting_id reason queued ≡ (queued, false)
  unfolding emit_invalidation invalidation_id is_invalidation
  emit-again posting_id reason rows queued e h =
      let id = invalidation_id pf pass posting_id reason in
      let row : Invalidation = record {
        invalidation_id = id;
        posting_id = posting_id;
        reason = reason;
        created_run_uid = pass.run_uid;
      } in
      let q = insert-again (is_invalidation id) row row rows queued (eq_str_refl id) h in
      rw (e, q.0) refl

  write_match-again :
      (s : Subject) (c : Observation) (d e : Merges × Report)
      → Grown (write_match pf pass s c d).0 e.0
      → SameAgain e (write_match pf later s c e)
  unfolding write_match evidence evidence_id is_evidence
  write_match-again s c (t, out) (u, out') h = (
    record_redirect-again _ at t.redirects u.redirects h.0,
    (insert-again (is_evidence _) _ _ t.evidence u.evidence (eq_str_refl _) h.1).1,
    λ e. rw (emit-again c.posting_id _ t.invalidations u.invalidations e h.2) (refl, refl),
  )

  write_matched-again :
      (s : Subject) (m : Option Observation) (d e : Merges × Report)
      → Grown (write_matched pf pass s m d).0 e.0
      → SameAgain e (write_matched pf later s m e)
  unfolding write_matched
  write_matched-again s none d e h = (refl, refl, λ k. (refl, refl))
  write_matched-again s (some c) d e h = write_match-again s c d e h

  write_outcome-again :
      (s : Subject) (b : Bool) (o : ResolutionOutcome) (d e : Merges × Report)
      → Grown (write_outcome pf pass s b o d).0 e.0
      → SameAgain e (write_outcome pf later s b o e)
  unfolding write_outcome evidence evidence_id is_evidence
  write_outcome-again s true o (t, out) (u, out') h = (
    refl,
    (insert-again (is_evidence _) _ _ t.evidence u.evidence (eq_str_refl _) h.1).1,
    λ k. (refl, refl),
  )
  write_outcome-again s false o (t, out) (u, out') h =
      write_matched-again s o.matched (t, out) (u, out') h

  resolve_one-again :
      (aliases : List AliasRow) (index : DirectIndex) (s : Subject) (d e : Merges × Report)
      → Grown (resolve_one pf pass aliases index s d).0 e.0
      → SameAgain e (resolve_one pf later aliases index s e)
  unfolding resolve_one has_direct_rank0_alias
  resolve_one-again aliases index s d e h =
      elim (Bool-cases (has_direct_rank0_alias pf pass aliases s.posting_id)) [
        | inl k ↦ rw k (refl, refl, λ q. (refl, refl))
        | inr k ↦
            let o = resolve_local pf s index in
            rw k (
              write_outcome-again s (is_ambiguous o) o d e (
                subst
                  (λ b. Grown (if b then d else write_outcome pf pass s (is_ambiguous o) o d).0 e.0)
                  k h))
      ]

  resolve_all-again :
      (aliases : List AliasRow) (index : DirectIndex) (ss : List Subject) (d e : Merges × Report)
      → Grown (resolve_all pf pass aliases index ss d).0 e.0
      → SameAgain e (resolve_all pf later aliases index ss e)
  unfolding resolve_all
  resolve_all-again aliases index [] d e h = (refl, refl, λ k. (refl, refl))
  resolve_all-again aliases index (s ∷ ss) d e h =
      let next = resolve_one pf pass aliases index s d in
      let after = resolve_one pf later aliases index s e in
      let one =
        resolve_one-again aliases index s d e
          (Grown-trans next.0 _ e.0 (resolve_all-Grown pf pass aliases index ss next) h) in
      let rest =
        resolve_all-again aliases index ss next after
          (Grown-trans _ e.0 after.0 h (resolve_one-Grown pf later aliases index s e)) in
      (
        rest.0 ∙ one.0,
        rest.1 ∙ one.1,
        λ k. ((rest.2 k).0 ∙ (one.2 k).0, (rest.2 k).1 ∙ (one.2 k).1),
      )

  -- Resolving the same subjects against the same observations a second time, whatever the run and
  -- the time, writes no redirect and no evidence; in the same run it queues no invalidation either,
  -- and reports no posting as invalidated. Every row that stood before the first time stands
  -- unchanged after it.
  pub resolve_aggregators_idem :
      (aliases : List AliasRow) (index : DirectIndex) (ss : List Subject) (t : Merges)
      → SameAgain
          ((resolve_aggregators pf pass aliases index ss t).0, nothing_yet)
          (resolve_aggregators pf later aliases index ss
            (resolve_aggregators pf pass aliases index ss t).0)
        × Grown t (resolve_aggregators pf pass aliases index ss t).0
  unfolding resolve_aggregators
  resolve_aggregators_idem aliases index ss t =
      let once = resolve_all pf pass aliases index ss (t, nothing_yet) in
      (
        resolve_all-again aliases index ss (t, nothing_yet) (once.0, nothing_yet)
            (Grown-refl once.0),
        resolve_all-Grown pf pass aliases index ss (t, nothing_yet),
      )
