-- ===== src/Records/Growth.antt =====
-- The first pass only adds rows, and never points an alias elsewhere
-- (webapp/backend/sources/runstore.py).
use jobhunt.Prelude.{
  ◌≡◌, refl, sym, ap, ◌∙◌, arith, Bool, true, Option, none, some, Str, List, [], ◌∷◌, ◌++◌, any,
  eq_str, append-nil, append_assoc, Bool-cases, inl, inr,
}
use jobhunt.Contract.Text.{Platform}
use jobhunt.Contract.Posting.{IdentityClaim, NormalizedPosting, identity_claims}
use jobhunt.Records.Tables.{PostingRow, AliasRow, active_alias, insert_or_ignore, first_where}
use jobhunt.Records.Identity.{
  Delivery, Pass, Attached, resolve, resolving, first_hit, record_conflict, attach, attach_one,
  attached_to, identify, identify_all,
}

-- The second list is the first and further rows after it.
abbrev pub Extends {ℓ} : {A : Type ℓ} → List A → List A → Type ℓ
Extends {A} xs ys = (zs : List A) × (ys ≡ xs ++ zs)

module _ {ℓ} {A : Type ℓ} where
  pub Extends-refl : (xs : List A) → Extends xs xs
  Extends-refl xs = ([], sym (append-nil xs))

  pub Extends-trans : (xs ys zs : List A) → Extends xs ys → Extends ys zs → Extends xs zs
  Extends-trans xs ys zs (us, p) (vs, q) =
      (us ++ vs, q ∙ ap (λ l. l ++ vs) p ∙ append_assoc xs us vs)

  pub insert_or_ignore-Extends :
      (p : A → Bool) (x : A) (xs : List A) → Extends xs (insert_or_ignore p x xs)
  insert_or_ignore-Extends p x xs = elim (Bool-cases (any p xs)) [
    | inl e ↦ rw e (Extends-refl xs)
    | inr e ↦ rw e (x ∷ [], refl)
  ]

  pub first_where-append :
      (p : A → Bool) (xs ys : List A) (x : A)
      → first_where p xs ≡ some x
      → first_where p (xs ++ ys) ≡ some x
  first_where-append p [] ys x h = cc
  first_where-append p (y ∷ xs) ys x h = ground (arith, first_where-append p xs ys x)

  pub first_where-Extends :
      (p : A → Bool) (xs ys : List A) (x : A)
      → Extends xs ys
      → first_where p xs ≡ some x
      → first_where p ys ≡ some x
  first_where-Extends p xs ys x (zs, e) h = ap (first_where p) e ∙ first_where-append p xs zs x h

  pub first_where-snoc :
      (p : A → Bool) (xs : List A) (x : A)
      → first_where p xs ≡ none
      → p x ≡ true
      → first_where p (xs ++ x ∷ []) ≡ some x
  first_where-snoc p [] x h e = rw e refl
  first_where-snoc p (y ∷ xs) x h e = ground (arith, first_where-snoc p xs x)

-- What a pass has grown to.
abbrev pub Grown : Pass → Pass → Type 0
Grown s s' =
    Extends s.postings s'.postings × Extends s.aliases s'.aliases × Extends s.evidence s'.evidence

module _ (pf : Platform) (d : Delivery) where
  attach_one-Extends :
      (r : NormalizedPosting) (posting_id : Str) (c : IdentityClaim) (o : Option AliasRow)
      (s : Attached)
      → Extends s.aliases (attach_one pf d r posting_id c o s).aliases
        × Extends s.evidence (attach_one pf d r posting_id c o s).evidence
  unfolding attach_one record_conflict
  attach_one-Extends r posting_id c none s = ((_, refl), Extends-refl s.evidence)
  attach_one-Extends r posting_id c (some a) s =
      elim (Bool-cases (eq_str a.posting_id posting_id)) [
        | inl e ↦ rw e (Extends-refl s.aliases, Extends-refl s.evidence)
        | inr e ↦ rw e (Extends-refl s.aliases, insert_or_ignore-Extends _ _ s.evidence)
      ]

  pub attach-Extends :
      (r : NormalizedPosting) (posting_id : Str) (cs : List IdentityClaim) (s : Attached)
      → Extends s.aliases (attach pf d r posting_id cs s).aliases
        × Extends s.evidence (attach pf d r posting_id cs s).evidence
  unfolding attach
  attach-Extends r posting_id [] s = (Extends-refl s.aliases, Extends-refl s.evidence)
  attach-Extends r posting_id (c ∷ cs) s =
      let one = attach_one-Extends r posting_id c (active_alias s.aliases c) s in
      let rest =
        attach-Extends r posting_id cs
          (attach_one pf d r posting_id c (active_alias s.aliases c) s) in
      (Extends-trans _ _ _ one.0 rest.0, Extends-trans _ _ _ one.1 rest.1)

  resolve-Extends :
      (c : IdentityClaim) (o : Option AliasRow) (postings : List PostingRow)
      → Extends postings (resolve pf d c o postings).1
  unfolding resolve
  resolve-Extends c none postings = insert_or_ignore-Extends _ _ postings
  resolve-Extends c (some a) postings = Extends-refl postings

  identify-Grown :
      (r : NormalizedPosting) (cs : List IdentityClaim) (s : Pass)
      → Grown s (identify pf d r cs s).0
  unfolding identify attached_to
  identify-Grown r [] s = (Extends-refl s.postings, Extends-refl s.aliases, Extends-refl s.evidence)
  identify-Grown r (c ∷ cs) s =
      let at = attach-Extends r _ (c ∷ cs) _ in
      (resolve-Extends c (first_hit s.aliases (resolving (c ∷ cs))) s.postings, at.0, at.1)

  pub identify_all-Grown :
      (rs : List NormalizedPosting) (s : Pass) → Grown s (identify_all pf d rs s).0
  unfolding identify_all
  identify_all-Grown [] s =
      (Extends-refl s.postings, Extends-refl s.aliases, Extends-refl s.evidence)
  identify_all-Grown (r ∷ rs) s =
      let one = identify-Grown r (identity_claims pf r) s in
      let rest = identify_all-Grown rs (identify pf d r (identity_claims pf r) s).0 in
      (
        Extends-trans _ _ _ one.0 rest.0,
        Extends-trans _ _ _ one.1 rest.1,
        Extends-trans _ _ _ one.2 rest.2,
      )
