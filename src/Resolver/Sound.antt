-- ===== src/Resolver/Sound.antt =====
-- The redirects stay a function without fixed points (webapp/backend/sources/resolver.py).
use jobhunt.Prelude.{
  ◌≤◌, ◌≡◌, refl, sym, ap, ◌∙◌, arith, Bool, true, false, not, Option, none, some, Str, List, [],
  ◌∷◌, ◌++◌, any, all, count_if, count_if-append, eq_str, eq_str→≡, Bool-cases, inl, inr,
}
use jobhunt.Contract.Text.{Platform}
use jobhunt.Records.Tables.{AliasRow}
use jobhunt.Resolver.Local.{
  Observation, DirectIndex, Subject, ResolutionOutcome, resolve_local, is_ambiguous,
}
use jobhunt.Resolver.Redirects.{
  Redirect, Merges, Report, Pass, is_from, record_redirect, has_direct_rank0_alias, write_match,
  write_matched, write_outcome, resolve_one, resolve_all, resolve_aggregators,
}

abbrev pub leaves : Redirect → Bool
leaves r = not (eq_str r.from_posting_id r.to_posting_id)

-- At most one redirect from a posting, and none to itself.
abbrev pub IsFunctional : Str → List Redirect → Type 0
IsFunctional u rs = (count_if (is_from u) rs ≤ 1) × (all leaves rs ≡ true)

none-count {ℓ} : {A : Type ℓ} (q : A → Bool) (xs : List A) → any q xs ≡ false → count_if q xs ≡ 0
none-count q [] e = refl
none-count q (x ∷ xs) e = ground (arith, none-count q xs)

all-snoc {ℓ} :
    {A : Type ℓ} (q : A → Bool) (xs : List A) (x : A)
    → all q xs ≡ true
    → q x ≡ true
    → all q (xs ++ x ∷ []) ≡ true
all-snoc q [] x h k = rw k refl
all-snoc q (y ∷ xs) x h k = ground (arith, all-snoc q xs x)

record_redirect-count :
    (u : Str) (r : Redirect) (rs : List Redirect)
    → count_if (is_from u) rs ≤ 1
    → any (is_from r.from_posting_id) rs ≡ false
    → count_if (is_from u) (rs ++ r ∷ []) ≤ 1
unfolding is_from
record_redirect-count u r rs h f =
    rw (count_if-append (is_from u) rs (r ∷ [])) (elim (Bool-cases (eq_str r.from_posting_id u)) [
      | inl e ↦
          rw
            (
              e,
              ap (λ k. count_if (is_from k) rs) (sym (eq_str→≡ r.from_posting_id u e))
                  ∙ none-count (is_from r.from_posting_id) rs f,
            )
            (omega arith)
      | inr e ↦ rw e (omega (arith, h))
    ])

record_redirect-IsFunctional :
    (u : Str) (r : Redirect) (rs : List Redirect)
    → IsFunctional u rs
    → IsFunctional u (record_redirect r rs)
unfolding record_redirect
record_redirect-IsFunctional u r rs h =
    elim (Bool-cases (eq_str r.from_posting_id r.to_posting_id)) [
      | inl e ↦ rw e h
      | inr e ↦ rw e (elim (Bool-cases (any (is_from r.from_posting_id) rs)) [
        | inl f ↦ rw f h
        | inr f ↦ rw f (record_redirect-count u r rs h.0 f, all-snoc leaves rs r h.1 (ap not e))
      ])
    ]

module _ (pf : Platform) (pass : Pass) (u : Str) where
  write_matched-IsFunctional :
      (s : Subject) (m : Option Observation) (d : Merges × Report)
      → IsFunctional u d.0.redirects
      → IsFunctional u (write_matched pf pass s m d).0.redirects
  unfolding write_matched write_match
  write_matched-IsFunctional s none d h = h
  write_matched-IsFunctional s (some c) (t, out) h = record_redirect-IsFunctional u _ t.redirects h

  write_outcome-IsFunctional :
      (s : Subject) (b : Bool) (o : ResolutionOutcome) (d : Merges × Report)
      → IsFunctional u d.0.redirects
      → IsFunctional u (write_outcome pf pass s b o d).0.redirects
  unfolding write_outcome
  write_outcome-IsFunctional s true o (t, out) h = h
  write_outcome-IsFunctional s false o (t, out) h =
      write_matched-IsFunctional s o.matched (t, out) h

  resolve_all-IsFunctional :
      (aliases : List AliasRow) (index : DirectIndex) (ss : List Subject) (d : Merges × Report)
      → IsFunctional u d.0.redirects
      → IsFunctional u (resolve_all pf pass aliases index ss d).0.redirects
  unfolding resolve_all resolve_one
  resolve_all-IsFunctional aliases index [] d h = h
  resolve_all-IsFunctional aliases index (s ∷ ss) d h =
      resolve_all-IsFunctional aliases index ss (resolve_one pf pass aliases index s d)
        (elim (Bool-cases (has_direct_rank0_alias pf pass aliases s.posting_id)) [
          | inl e ↦ rw e h
          | inr e ↦ rw e (
              write_outcome-IsFunctional s (is_ambiguous (resolve_local pf s index))
                (resolve_local pf s index) d h)
        ])

  -- When each posting redirects at most once and none to itself, this holds after the aggregator
  -- postings of a run are resolved, whatever they match.
  pub resolve_aggregators-IsFunctional :
      (aliases : List AliasRow) (index : DirectIndex) (ss : List Subject) (t : Merges)
      → IsFunctional u t.redirects
      → IsFunctional u (resolve_aggregators pf pass aliases index ss t).0.redirects
  unfolding resolve_aggregators
  resolve_aggregators-IsFunctional aliases index ss t h =
      resolve_all-IsFunctional aliases index ss _ h
