-- ===== src/Records/Unique.antt =====
-- At most one active alias for each claim: the partial unique index of `posting_aliases` never
-- refuses a batch (webapp/backend/sources/runstore.py, webapp/backend/migrations.py).
use jobhunt.Prelude.{
  ◌≤◌, ◌≡◌, refl, sym, arith, Bool, true, Option, none, some, Str, List, [], ◌∷◌, eq_str, eq_str→≡,
  Bool-cases, inl, inr, count_if, count_if-append,
}
use jobhunt.Store.Presence.{AliasKind}
use jobhunt.Contract.Text.{Platform}
use jobhunt.Contract.Posting.{IdentityClaim, NormalizedPosting, identity_claims}
use jobhunt.Records.Tables.{
  AliasRow, Tables, active_alias, is_alias_of, is_member, first_where, eq_kind,
}
use jobhunt.Records.Deliveries.{deliver_all_unique}
use jobhunt.Records.Identity.{
  Delivery, Pass, Attached, attach, attach_one, insert_alias, attached_to, identify, identify_all,
}
use jobhunt.Records.Content.{Runs, write_records, start, finished, content_of}

eq_kind→≡ : (k l : AliasKind) → eq_kind k l ≡ true → k ≡ l
unfolding eq_kind
eq_kind→≡ AliasKind.source_req AliasKind.source_req h = refl
eq_kind→≡ AliasKind.source_req AliasKind.url h = cc
eq_kind→≡ AliasKind.url AliasKind.source_req h = cc
eq_kind→≡ AliasKind.url AliasKind.url h = refl

missing-count {ℓ} :
    {A : Type ℓ} (q : A → Bool) (xs : List A) → first_where q xs ≡ none → count_if q xs ≡ 0
missing-count q [] e = refl
missing-count q (x ∷ xs) e = ground (arith, missing-count q xs)

module _ (pf : Platform) (d : Delivery) where
  inserted-same :
      (c k : IdentityClaim) (posting_id : Str) (aliases : List AliasRow)
      → is_alias_of c (insert_alias pf d k posting_id aliases) ≡ true
      → is_alias_of c ≡ is_alias_of k
  unfolding is_alias_of insert_alias
  inserted-same c k posting_id aliases h = elim (Bool-cases (eq_kind k.kind c.kind)) [
    | inl e ↦ elim (Bool-cases (eq_str k.namespace c.namespace)) [
      | inl f ↦ elim (Bool-cases (eq_str k.value c.value)) [
        | inl g ↦
            rw
              (
                sym (eq_kind→≡ k.kind c.kind e),
                sym (eq_str→≡ k.namespace c.namespace f),
                sym (eq_str→≡ k.value c.value g),
              )
              refl
        | inr g ↦ ground (arith, h)
      ]
      | inr f ↦ ground (arith, h)
    ]
    | inr e ↦ ground (arith, h)
  ]

  attach_one_unique :
      (r : NormalizedPosting) (posting_id : Str) (k : IdentityClaim) (s : Attached)
      (o : Option AliasRow) (c : IdentityClaim)
      → active_alias s.aliases k ≡ o
      → count_if (is_alias_of c) s.aliases ≤ 1
      → count_if (is_alias_of c) (attach_one pf d r posting_id k o s).aliases ≤ 1
  unfolding attach_one active_alias
  attach_one_unique r posting_id k s none c e h =
      let row = insert_alias pf d k posting_id s.aliases in
      rw (count_if-append (is_alias_of c) s.aliases (row ∷ []))
        (elim (Bool-cases (is_alias_of c row)) [
          | inl f ↦
              rw
                (
                  f,
                  inserted-same c k posting_id s.aliases f,
                  missing-count (is_alias_of k) s.aliases e,
                )
                (omega arith)
          | inr f ↦ rw f (omega (arith, h))
        ])
  attach_one_unique r posting_id k s (some a) c e h =
      elim (Bool-cases (eq_str a.posting_id posting_id)) [ inl f ↦ rw f h | inr f ↦ rw f h ]

  attach_unique :
      (r : NormalizedPosting) (posting_id : Str) (ks : List IdentityClaim) (s : Attached)
      (c : IdentityClaim)
      → count_if (is_alias_of c) s.aliases ≤ 1
      → count_if (is_alias_of c) (attach pf d r posting_id ks s).aliases ≤ 1
  unfolding attach
  attach_unique r posting_id [] s c h = h
  attach_unique r posting_id (k ∷ ks) s c h =
      attach_unique r posting_id ks (attach_one pf d r posting_id k (active_alias s.aliases k) s) c
        (attach_one_unique r posting_id k s (active_alias s.aliases k) c refl h)

  identify_unique :
      (r : NormalizedPosting) (ks : List IdentityClaim) (s : Pass) (c : IdentityClaim)
      → count_if (is_alias_of c) s.aliases ≤ 1
      → count_if (is_alias_of c) (identify pf d r ks s).0.aliases ≤ 1
  unfolding identify attached_to
  identify_unique r [] s c h = h
  identify_unique r (k ∷ ks) s c h = attach_unique r _ (k ∷ ks) _ c h

  identify_all_unique :
      (rs : List NormalizedPosting) (s : Pass) (c : IdentityClaim)
      → count_if (is_alias_of c) s.aliases ≤ 1
      → count_if (is_alias_of c) (identify_all pf d rs s).0.aliases ≤ 1
  unfolding identify_all
  identify_all_unique [] s c h = h
  identify_all_unique (r ∷ rs) s c h =
      identify_all_unique rs (identify pf d r (identity_claims pf r) s).0 c
        (identify_unique r (identity_claims pf r) s c h)

module _ (pf : Platform) (runs : Runs) (d : Delivery) where
  -- The keys of two tables stay unique. When at most one membership row belongs to a run and a
  -- posting, and at most one active alias has the kind, the namespace and the value of a claim, then
  -- both hold after a batch of any records is written.
  pub write_records_unique :
      (records : List NormalizedPosting) (t : Tables) (run_uid posting_id : Str) (c : IdentityClaim)
      → count_if (is_member run_uid posting_id) t.members ≤ 1
      → count_if (is_alias_of c) t.aliases ≤ 1
      → (count_if (is_member run_uid posting_id) (write_records pf runs d records t).0.members ≤ 1)
        × (count_if (is_alias_of c) (write_records pf runs d records t).0.aliases ≤ 1)
  unfolding write_records content_of start finished
  write_records_unique records t run_uid posting_id c h k = (
    deliver_all_unique pf runs d (identify_all pf d records (start t)).1 _ run_uid posting_id h,
    identify_all_unique pf d records (start t) c k,
  )
