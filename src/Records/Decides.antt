-- ===== src/Records/Decides.antt =====
-- After a record is identified, its first claim decides its posting and every claim has an active
-- alias (webapp/backend/sources/runstore.py).
use jobhunt.Prelude.{
  ◌≡◌, refl, sym, ap, true, Option, none, some, Str, List, [], ◌∷◌, eq_str, Bool-cases, ◌==◌, inl,
  inr, some-injective, eq_str_refl, All, All-map,
}
use jobhunt.Store.Presence.{AliasKind}
use jobhunt.Contract.Text.{Platform}
use jobhunt.Contract.Posting.{IdentityClaim, NormalizedPosting, identity_claims}
use jobhunt.Records.Tables.{PostingRow, AliasRow, active_alias, is_alias_of, eq_kind}
use jobhunt.Records.Identity.{
  Delivery, Identified, Pass, Attached, resolve, resolving, first_hit, attach, attach_one,
  attached_to, identify, identify_all, cons_some, with_alias, insert_alias,
}
use jobhunt.Records.Growth.{
  Extends, first_where-snoc, first_where-Extends, attach-Extends, identify_all-Grown,
}

-- The claim has an active alias, and it is this posting's.
abbrev pub Names : List AliasRow → Str → IdentityClaim → Type 0
Names aliases posting_id c =
    (a : AliasRow) × (active_alias aliases c ≡ some a) × (a.posting_id ≡ posting_id)

-- The claim has an active alias.
abbrev pub Known : List AliasRow → IdentityClaim → Type 0
Known aliases c = (a : AliasRow) × (active_alias aliases c ≡ some a)

pub Names-Extends :
    (xs ys : List AliasRow) (posting_id : Str) (c : IdentityClaim)
    → Extends xs ys
    → Names xs posting_id c
    → Names ys posting_id c
unfolding active_alias
Names-Extends xs ys posting_id c e (a, f, p) = (a, first_where-Extends _ xs ys a e f, p)

pub Known-Extends :
    (xs ys : List AliasRow) → Extends xs ys → (c : IdentityClaim) → Known xs c → Known ys c
unfolding active_alias
Known-Extends xs ys e c (a, f) = (a, first_where-Extends _ xs ys a e f)

eq_kind_refl : (k : AliasKind) → eq_kind k k ≡ true
unfolding eq_kind
eq_kind_refl AliasKind.source_req = refl
eq_kind_refl AliasKind.url = refl

-- The posting that a resolution chooses is the one that the first claim's alias names, when it has
-- one.
pub resolve-first :
    (pf : Platform) (d : Delivery) (c : IdentityClaim) (cs : List IdentityClaim)
    (aliases : List AliasRow) (postings : List PostingRow) (a : AliasRow)
    → active_alias aliases c ≡ some a
    → first_hit aliases (resolving (c ∷ cs)) ≡ some a
unfolding first_hit resolving
resolve-first pf d c cs aliases postings a e = elim (Bool-cases (c.rank == 0)) [
  | inl f ↦ rw (f, e) refl
  | inr f ↦ rw (f, e) refl
]

-- The first claim names the posting, and every claim has an active alias.
abbrev pub Decided : List AliasRow → Str → List IdentityClaim → Type 0
Decided aliases posting_id [] = Unit
Decided aliases posting_id (c ∷ cs) = Names aliases posting_id c × All (Known aliases) (c ∷ cs)

Decided-Extends :
    (xs ys : List AliasRow) (posting_id : Str) (cs : List IdentityClaim)
    → Extends xs ys
    → Decided xs posting_id cs
    → Decided ys posting_id cs
Decided-Extends xs ys posting_id [] e h = tt
Decided-Extends xs ys posting_id (c ∷ cs) e (n, k) =
    (Names-Extends xs ys posting_id c e n, All-map _ _ (Known-Extends xs ys e) (c ∷ cs) k)

-- A predicate on what an option holds.
abbrev pub AllSome {ℓ κ} : {A : Type ℓ} → (A → Type κ) → Option A → Type κ
AllSome P none = Unit
AllSome P (some x) = P x

AllSome-map {ℓ κ} :
    {A : Type ℓ} (P Q : A → Type κ)
    → ((x : A) → P x → Q x)
    → (o : Option A) → AllSome P o
    → AllSome Q o
AllSome-map P Q f none h = tt
AllSome-map P Q f (some x) h = f x h

All-cons_some {ℓ κ} :
    {A : Type ℓ} (P : A → Type κ) (o : Option A) (xs : List A)
    → AllSome P o
    → All P xs
    → All P (cons_some o xs)
All-cons_some P none xs h hs = hs
All-cons_some P (some x) xs h hs = (h, hs)

-- What the first pass returns for a record is settled by these aliases.
abbrev pub Settled : Platform → List AliasRow → NormalizedPosting × Identified → Type 0
Settled pf aliases x = Decided aliases x.1.posting_id (identity_claims pf x.0)

module _ (pf : Platform) (d : Delivery) where
  is_alias_of-insert_alias :
      (c : IdentityClaim) (posting_id : Str) (aliases : List AliasRow)
      → is_alias_of c (insert_alias pf d c posting_id aliases) ≡ true
  unfolding is_alias_of insert_alias
  is_alias_of-insert_alias c posting_id aliases =
      rw (eq_kind_refl c.kind, eq_str_refl c.namespace, eq_str_refl c.value) refl

  -- After its own step a claim has an active alias.
  attach_one-Known :
      (r : NormalizedPosting) (posting_id : Str) (c : IdentityClaim) (s : Attached)
      (o : Option AliasRow)
      → active_alias s.aliases c ≡ o
      → Known (attach_one pf d r posting_id c o s).aliases c
  unfolding attach_one active_alias
  attach_one-Known r posting_id c s none e =
      (_, first_where-snoc _ s.aliases _ e (is_alias_of-insert_alias c posting_id s.aliases))
  attach_one-Known r posting_id c s (some a) e =
      elim (Bool-cases (eq_str a.posting_id posting_id)) [
        | inl f ↦ rw f (a, e)
        | inr f ↦ rw f (a, e)
      ]

  pub attach-Known :
      (r : NormalizedPosting) (posting_id : Str) (cs : List IdentityClaim) (s : Attached)
      → All (Known (attach pf d r posting_id cs s).aliases) cs
  unfolding attach
  attach-Known r posting_id [] s = tt
  attach-Known r posting_id (c ∷ cs) s =
      let next = attach_one pf d r posting_id c (active_alias s.aliases c) s in
      (
        Known-Extends next.aliases _ (attach-Extends pf d r posting_id cs next).0 c
            (attach_one-Known r posting_id c s (active_alias s.aliases c) refl),
        attach-Known r posting_id cs next,
      )

  -- The first claim names the posting, when what it already named was that posting.
  attach_one-Names :
      (r : NormalizedPosting) (posting_id : Str) (c : IdentityClaim) (s : Attached)
      (o : Option AliasRow)
      → active_alias s.aliases c ≡ o
      → ((a : AliasRow) → o ≡ some a → a.posting_id ≡ posting_id)
      → Names (attach_one pf d r posting_id c o s).aliases posting_id c
  unfolding attach_one active_alias insert_alias
  attach_one-Names r posting_id c s none e h = (
    insert_alias pf d c posting_id s.aliases,
    first_where-snoc _ s.aliases _ e (is_alias_of-insert_alias c posting_id s.aliases),
    refl,
  )
  attach_one-Names r posting_id c s (some a) e h =
      elim (Bool-cases (eq_str a.posting_id posting_id)) [
        | inl f ↦ rw f (a, e, h a refl)
        | inr f ↦ rw f (a, e, h a refl)
      ]

  resolve-posting :
      (c : IdentityClaim) (o : Option AliasRow) (postings : List PostingRow) (a : AliasRow)
      → o ≡ some a
      → a.posting_id ≡ (resolve pf d c o postings).0.posting_id
  unfolding resolve
  resolve-posting c none postings a e = cc
  resolve-posting c (some b) postings a e = ap (λ x. x.posting_id) (sym (some-injective b a e))

  identify-Names :
      (r : NormalizedPosting) (c : IdentityClaim) (cs : List IdentityClaim) (s : Pass)
      → Names
          (identify pf d r (c ∷ cs) s).0.aliases
          (resolve pf d c (first_hit s.aliases (resolving (c ∷ cs))) s.postings).0.posting_id
          c
  unfolding identify attached_to attach
  identify-Names r c cs s =
      let found = resolve pf d c (first_hit s.aliases (resolving (c ∷ cs))) s.postings in
      let begun : Attached = record {
        aliases = s.aliases;
        evidence = s.evidence;
        conflicts = s.conflicts;
      } in
      let next = attach_one pf d r found.0.posting_id c (active_alias s.aliases c) begun in
      Names-Extends next.aliases _ _ c (attach-Extends pf d r found.0.posting_id cs next).0 (
        attach_one-Names r found.0.posting_id c begun (active_alias s.aliases c) refl (λ a e.
          resolve-posting c _ s.postings a (resolve-first pf d c cs s.aliases s.postings a e)))

  -- The claim list is passed, so that the cases of it are clauses.
  identify-Settled :
      (r : NormalizedPosting) (cs : List IdentityClaim) (s : Pass)
      → identity_claims pf r ≡ cs
      → AllSome (Settled pf (identify pf d r cs s).0.aliases) (identify pf d r cs s).1
  unfolding identify attached_to with_alias
  identify-Settled r [] s e = tt
  identify-Settled r (c ∷ cs) s e = rw e (identify-Names r c cs s, attach-Known r _ (c ∷ cs) _)

  -- Every record that the first pass resolved is decided by the aliases that it leaves.
  pub identify_all-Settled :
      (rs : List NormalizedPosting) (s : Pass)
      → All (Settled pf (identify_all pf d rs s).0.aliases) (identify_all pf d rs s).1
  unfolding identify_all
  identify_all-Settled [] s = tt
  identify_all-Settled (r ∷ rs) s =
      let one = identify pf d r (identity_claims pf r) s in
      All-cons_some _ one.1 _
        (AllSome-map _ _
          (λ x h. Decided-Extends one.0.aliases _ _ _ (identify_all-Grown pf d rs one.0).1 h) one.1
          (identify-Settled r (identity_claims pf r) s refl))
        (identify_all-Settled rs one.0)
