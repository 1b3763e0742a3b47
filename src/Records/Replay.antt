-- ===== src/Records/Replay.antt =====
-- A batch that is delivered again finds everything in place
-- (webapp/backend/sources/runstore.py).
use jobhunt.Prelude.{
  ◌≡◌, refl, sym, ap, subst, ap₂, ◌∙◌, Option, none, some, Str, List, [], ◌∷◌, ◌++◌, eq_str,
  Bool-cases, map, inl, inr, All, add-zero,
}
use jobhunt.Contract.Text.{Platform}
use jobhunt.Contract.Posting.{IdentityClaim, NormalizedPosting, identity_claims}
use jobhunt.Records.Tables.{AliasRow, active_alias}
use jobhunt.Records.Identity.{
  Delivery, Identified, Pass, Attached, resolve, attach, attach_one, attached_to, identify,
  identify_all, cons_some, with_alias,
}
use jobhunt.Records.Decides.{Names, Known, Decided, Settled, AllSome, resolve-first}

-- The postings that a pass resolved its records to.
abbrev pub posting_ids : List (NormalizedPosting × Identified) → List Str
posting_ids xs = map (λ x. x.1.posting_id) xs

pub All-cons_some_inv {ℓ κ} :
    {A : Type ℓ} (P : A → Type κ) (o : Option A) (xs : List A)
    → All P (cons_some o xs)
    → AllSome P o × All P xs
All-cons_some_inv P none xs hs = (tt, hs)
All-cons_some_inv P (some x) xs hs = hs

-- What a pass leaves alone on records that are decided already.
abbrev pub Unmoved : Pass → Pass → Type 0
Unmoved s s' = (s'.aliases ≡ s.aliases) × (s'.postings ≡ s.postings) × (s'.created ≡ s.created)

module _ (pf : Platform) (d : Delivery) where
  attach_one-aliases :
      (r : NormalizedPosting) (posting_id : Str) (c : IdentityClaim) (s : Attached)
      (o : Option AliasRow) (a : AliasRow)
      → o ≡ some a
      → (attach_one pf d r posting_id c o s).aliases ≡ s.aliases
  unfolding attach_one
  attach_one-aliases r posting_id c s none a e = cc
  attach_one-aliases r posting_id c s (some b) a e =
      elim (Bool-cases (eq_str b.posting_id posting_id)) [ inl f ↦ rw f refl | inr f ↦ rw f refl ]

  attach-aliases :
      (r : NormalizedPosting) (posting_id : Str) (cs : List IdentityClaim) (s : Attached)
      → All (Known s.aliases) cs
      → (attach pf d r posting_id cs s).aliases ≡ s.aliases
  unfolding attach
  attach-aliases r posting_id [] s hs = refl
  attach-aliases r posting_id (c ∷ cs) s ((a, e), hs) =
      let next = attach_one pf d r posting_id c (active_alias s.aliases c) s in
      let same = attach_one-aliases r posting_id c s (active_alias s.aliases c) a e in
      attach-aliases r posting_id cs next (subst (λ l. All (Known l) cs) (sym same) hs) ∙ same

  identify-again :
      (r : NormalizedPosting) (c : IdentityClaim) (cs : List IdentityClaim) (s : Pass)
      (posting_id : Str)
      → Names s.aliases posting_id c
      → All (Known s.aliases) (c ∷ cs)
      → Unmoved s (identify pf d r (c ∷ cs) s).0
        × (posting_ids (cons_some (identify pf d r (c ∷ cs) s).1 []) ≡ posting_id ∷ [])
  unfolding identify attached_to resolve with_alias
  identify-again r c cs s posting_id (a, e, p) known =
      rw (resolve-first pf d c cs s.aliases s.postings a e) (
        (attach-aliases r a.posting_id (c ∷ cs) _ known, refl, add-zero s.created),
        ap (λ u. u ∷ []) p,
      )

-- A pass `d` resolved the records; a pass `e` resolves them again.
module _ (pf : Platform) (d e : Delivery) where
  again-one :
      (r : NormalizedPosting) (cs : List IdentityClaim) (s t : Pass)
      → identity_claims pf r ≡ cs
      → AllSome (Settled pf t.aliases) (identify pf d r cs s).1
      → Unmoved t (identify pf e r cs t).0
        × (posting_ids (cons_some (identify pf e r cs t).1 [])
            ≡ posting_ids (cons_some (identify pf d r cs s).1 []))
  unfolding identify attached_to with_alias
  again-one r [] s t q h = ((refl, refl, refl), refl)
  again-one r (c ∷ cs) s t q h =
      let known = subst (Decided t.aliases _) q h in identify-again pf e r c cs t _ known.0 known.1

  cons_some-ids :
      (o : Option (NormalizedPosting × Identified)) (xs : List (NormalizedPosting × Identified))
      → posting_ids (cons_some o xs) ≡ posting_ids (cons_some o []) ++ posting_ids xs
  cons_some-ids none xs = refl
  cons_some-ids (some x) xs = refl

  pub identify_all-again :
      (rs : List NormalizedPosting) (s t : Pass)
      → All (Settled pf t.aliases) (identify_all pf d rs s).1
      → Unmoved t (identify_all pf e rs t).0
        × (posting_ids (identify_all pf e rs t).1 ≡ posting_ids (identify_all pf d rs s).1)
  unfolding identify_all
  identify_all-again [] s t h = ((refl, refl, refl), refl)
  identify_all-again (r ∷ rs) s t h =
      let cs = identity_claims pf r in
      let one = identify pf d r cs s in
      let two = identify pf e r cs t in
      let parts = All-cons_some_inv _ one.1 (identify_all pf d rs one.0).1 h in
      let (same, ids) = again-one r cs s t refl parts.0 in
      let rest =
        identify_all-again rs one.0 two.0
          (subst (λ l. All (Settled pf l) (identify_all pf d rs one.0).1) (sym same.0) parts.1) in
      (
        (rest.0.0 ∙ same.0, rest.0.1 ∙ same.1, rest.0.2 ∙ same.2),
        cons_some-ids two.1 _ ∙ ap₂ (λ a b. a ++ b) ids rest.1 ∙ sym (cons_some-ids one.1 _),
      )
