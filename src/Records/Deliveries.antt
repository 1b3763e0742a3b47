-- ===== src/Records/Deliveries.antt =====
-- The second pass over a whole batch (webapp/backend/sources/runstore.py).
use jobhunt.Prelude.{
  ℕ, ◌+◌, ◌≤◌, ◌≡◌, refl, sym, ap, subst, ◌∙◌, arith, true, ◌&&◌, ◌||◌, Str, List, [], ◌∷◌, any,
  eq_str, eq_str_refl, Bool-cases, inl, inr, All, All-map, length, count_if,
}
use jobhunt.Contract.Text.{Platform}
use jobhunt.Contract.Posting.{NormalizedPosting, namespace_of}
use jobhunt.Records.Tables.{MemberRow, is_member}
use jobhunt.Records.Identity.{Delivery, Identified}
use jobhunt.Records.Content.{
  Runs, Content, deliver, deliver_all, linked, link_if_moved, link_source_version, is_current,
  state_before, version_of, record_member,
}
use jobhunt.Runs.Profile.{find}
use jobhunt.Records.Growth.{Extends, Extends-refl, Extends-trans, insert_or_ignore-Extends}
use jobhunt.Records.Replay.{posting_ids}
use jobhunt.Records.Members.{
  Recorded, record_member-Recorded, record_member-any, record_member_unique,
}

-- Every one of these postings has its row in the run.
abbrev pub Present : Str → List MemberRow → List Str → Type 0
Present run_uid ms ids = All (λ p. any (is_member run_uid p) ms ≡ true) ids

module _ (pf : Platform) (runs : Runs) (d : Delivery) where
  linked-same :
      (r : NormalizedPosting) (i : Identified) (s : Content)
      → ((linked pf runs d r i s).members ≡ s.members)
        × ((linked pf runs d r i s).accepted ≡ s.accepted)
        × ((linked pf runs d r i s).duplicates ≡ s.duplicates)
        × Extends s.versions (linked pf runs d r i s).versions
  unfolding linked link_if_moved link_source_version
  linked-same r i s =
      elim (Bool-cases (
        is_current (find (namespace_of r) (state_before pf runs d i s))
          (version_of pf runs d r i))) [
            | inl e ↦ rw e (refl, refl, refl, Extends-refl s.versions)
            | inr e ↦ rw e (refl, refl, refl, insert_or_ignore-Extends _ _ s.versions)
          ]

  deliver-any :
      (x : NormalizedPosting × Identified) (s : Content) (u p : Str)
      → any (is_member u p) (deliver pf runs d x s).members
        ≡ (any (is_member u p) s.members || (eq_str d.run_uid u && eq_str x.1.posting_id p))
  unfolding deliver
  deliver-any (r, i) s u p =
      record_member-any pf runs d i _ _ _ (linked pf runs d r i s) u p
      ∙ ap (λ ms. any (is_member u p) ms || (eq_str d.run_uid u && eq_str i.posting_id p))
          (linked-same r i s).0

  deliver_unique :
      (x : NormalizedPosting × Identified) (s : Content) (u p : Str)
      → count_if (is_member u p) s.members ≤ 1
      → count_if (is_member u p) (deliver pf runs d x s).members ≤ 1
  unfolding deliver
  deliver_unique (r, i) s u p h =
      record_member_unique pf runs d i _ _ _ (linked pf runs d r i s) u p
        (subst (λ ms. count_if (is_member u p) ms ≤ 1) (sym (linked-same r i s).0) h)

  deliver-Recorded :
      (x : NormalizedPosting × Identified) (s : Content)
      → Recorded pf runs d x.1.posting_id s.members s.accepted s.duplicates (deliver pf runs d x s)
  unfolding deliver
  deliver-Recorded (r, i) s =
      let R : List MemberRow → ℕ → ℕ → Type 0 =
        λ ms a n. Recorded pf runs d i.posting_id ms a n (deliver pf runs d (r, i) s) in
      let l = linked pf runs d r i s in
      let (p, q, n, e) = linked-same r i s in
      subst (λ ms. R ms s.accepted s.duplicates) p
        (subst (λ a. R l.members a s.duplicates) q
          (subst (λ k. R l.members l.accepted k) n (record_member-Recorded pf runs d i _ _ _ l)))

  deliver-versions :
      (x : NormalizedPosting × Identified) (s : Content)
      → Extends s.versions (deliver pf runs d x s).versions
  unfolding deliver record_member
  deliver-versions (r, i) s =
      elim (Bool-cases (any (is_member d.run_uid i.posting_id) (linked pf runs d r i s).members)) [
        | inl e ↦ rw e (linked-same r i s).3
        | inr e ↦ rw e (linked-same r i s).3
      ]

  pub deliver_all-versions :
      (xs : List (NormalizedPosting × Identified)) (s : Content)
      → Extends s.versions (deliver_all pf runs d xs s).versions
  unfolding deliver_all
  deliver_all-versions [] s = Extends-refl s.versions
  deliver_all-versions (x ∷ xs) s =
      Extends-trans _ _ _ (deliver-versions x s) (deliver_all-versions xs (deliver pf runs d x s))

  -- A membership row stays in the table.
  deliver_all-keeps :
      (xs : List (NormalizedPosting × Identified)) (s : Content) (u p : Str)
      → any (is_member u p) s.members ≡ true
      → any (is_member u p) (deliver_all pf runs d xs s).members ≡ true
  unfolding deliver_all
  deliver_all-keeps [] s u p h = h
  deliver_all-keeps (x ∷ xs) s u p h =
      deliver_all-keeps xs (deliver pf runs d x s) u p (rw (deliver-any x s u p, h) refl)

  pub deliver_all-Present :
      (xs : List (NormalizedPosting × Identified)) (s : Content)
      → Present d.run_uid (deliver_all pf runs d xs s).members (posting_ids xs)
  unfolding deliver_all
  deliver_all-Present [] s = tt
  deliver_all-Present (x ∷ xs) s = (
    deliver_all-keeps xs (deliver pf runs d x s) d.run_uid x.1.posting_id (
        rw
          (
            deliver-any x s d.run_uid x.1.posting_id,
            eq_str_refl d.run_uid,
            eq_str_refl x.1.posting_id,
          )
          (ground arith)),
    deliver_all-Present xs (deliver pf runs d x s),
  )

  pub deliver_all-counts :
      (xs : List (NormalizedPosting × Identified)) (s : Content)
      → (deliver_all pf runs d xs s).accepted + (deliver_all pf runs d xs s).duplicates
        ≡ s.accepted + s.duplicates + length xs
  unfolding deliver_all
  deliver_all-counts [] s = omega arith
  deliver_all-counts (x ∷ xs) s =
      grind (arith, deliver_all-counts xs (deliver pf runs d x s), deliver-Recorded x s)

  -- What was accepted is what the table has grown by.
  pub deliver_all-accepted :
      (xs : List (NormalizedPosting × Identified)) (s : Content)
      → (deliver_all pf runs d xs s).accepted + length s.members
        ≡ s.accepted + length (deliver_all pf runs d xs s).members
  unfolding deliver_all
  deliver_all-accepted [] s = refl
  deliver_all-accepted (x ∷ xs) s =
      grind (arith, deliver_all-accepted xs (deliver pf runs d x s), deliver-Recorded x s)

  pub deliver_all_unique :
      (xs : List (NormalizedPosting × Identified)) (s : Content) (u p : Str)
      → count_if (is_member u p) s.members ≤ 1
      → count_if (is_member u p) (deliver_all pf runs d xs s).members ≤ 1
  unfolding deliver_all
  deliver_all_unique [] s u p h = h
  deliver_all_unique (x ∷ xs) s u p h =
      deliver_all_unique xs (deliver pf runs d x s) u p (deliver_unique x s u p h)

  Present-deliver :
      (x : NormalizedPosting × Identified) (s : Content) (ids : List Str)
      → Present d.run_uid s.members ids
      → Present d.run_uid (deliver pf runs d x s).members ids
  Present-deliver x s ids hs =
      All-map (λ p. any (is_member d.run_uid p) s.members ≡ true)
        (λ p. any (is_member d.run_uid p) (deliver pf runs d x s).members ≡ true)
        (λ p h. rw (deliver-any x s d.run_uid p, h) refl) ids hs

  -- A batch whose postings all have their rows adds none.
  pub deliver_all-again :
      (xs : List (NormalizedPosting × Identified)) (s : Content)
      → Present d.run_uid s.members (posting_ids xs)
      → (deliver_all pf runs d xs s).accepted ≡ s.accepted
  unfolding deliver_all
  deliver_all-again [] s h = refl
  deliver_all-again (x ∷ xs) s (h, hs) = grind (
    arith,
    deliver_all-again xs (deliver pf runs d x s) (Present-deliver x s (posting_ids xs) hs),
    deliver-Recorded x s,
  )
