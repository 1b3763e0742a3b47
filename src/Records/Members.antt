-- ===== src/Records/Members.antt =====
-- The membership rows of a run: one for each posting, and a row for every record
-- (webapp/backend/sources/runstore.py).
use jobhunt.Prelude.{
  ℕ, suc, ◌+◌, ◌≤◌, ◌≡◌, refl, sym, ap, ap₂, eq_str→≡, ◌∙◌, arith, Bool, true, false, ◌&&◌, ◌||◌,
  Option, none, some, Str, List, [], ◌∷◌, any, eq_str, Bool-cases, inl, inr, ◌⊎◌, length, count_if,
  count_if-append, length-append, any-append, eq_str_refl,
}
use jobhunt.Store.Rows.{update}
use jobhunt.Contract.Text.{Platform}
use jobhunt.Records.Tables.{MemberRow, State, is_member}
use jobhunt.Records.Identity.{Delivery, Identified}
use jobhunt.Records.Content.{
  Runs, Content, redeliver, record_member, reattribute_membership, is_moved, attributed, described,
  member_row, source_of_attempt,
}

-- An update that keeps what a test reads keeps what the test counts.
module _ {ℓ} {A : Type ℓ} (p q : A → Bool) (f : A → A) (keeps : (x : A) → p (f x) ≡ p x) where
  pub count_if-update : (xs : List A) → count_if p (update q f xs) ≡ count_if p xs
  count_if-update [] = refl
  count_if-update (x ∷ xs) = ground (arith, count_if-update xs, keeps x)

  pub any-update : (xs : List A) → any p (update q f xs) ≡ any p xs
  any-update [] = refl
  any-update (x ∷ xs) = ground (arith, any-update xs, keeps x)

pub length-update {ℓ} :
    {A : Type ℓ} (q : A → Bool) (f : A → A) (xs : List A) → length (update q f xs) ≡ length xs
length-update q f [] = refl
length-update q f (x ∷ xs) = ap suc (length-update q f xs)

absorbed : (b c : Bool) → (c ≡ true → b ≡ true) → b ≡ (b || c)
absorbed true c h = refl
absorbed false true h = h refl
absorbed false false h = refl

-- Two keys that compare as equal select the same rows.
same_members : (u p a b : Str) → (eq_str a u && eq_str b p) ≡ true → is_member u p ≡ is_member a b
same_members u p a b h = elim (Bool-cases (eq_str a u)) [
  | inl e ↦ elim (Bool-cases (eq_str b p)) [
    | inl f ↦ ap₂ is_member (sym (eq_str→≡ a u e)) (sym (eq_str→≡ b p f))
    | inr f ↦ ground (arith, h)
  ]
  | inr e ↦ ground (arith, h)
]

any-key :
    (u p a b : Str) (ms : List MemberRow)
    → (eq_str a u && eq_str b p) ≡ true
    → any (is_member a b) ms ≡ true
    → any (is_member u p) ms ≡ true
any-key u p a b ms h e = ap (λ q. any q ms) (same_members u p a b h) ∙ e

none-count {ℓ} : {A : Type ℓ} (q : A → Bool) (xs : List A) → any q xs ≡ false → count_if q xs ≡ 0
none-count q [] e = refl
none-count q (x ∷ xs) e = ground (arith, none-count q xs)

count-key :
    (u p a b : Str) (ms : List MemberRow)
    → (eq_str a u && eq_str b p) ≡ true
    → any (is_member a b) ms ≡ false
    → count_if (is_member u p) ms ≡ 0
count-key u p a b ms h e =
    ap (λ q. count_if q ms) (same_members u p a b h) ∙ none-count (is_member a b) ms e

module _ (pf : Platform) (runs : Runs) (d : Delivery) where
  reattribute-count :
      (u p posting_id : Str) (o : Option Str) (ms : List MemberRow)
      → (count_if (is_member u p) (reattribute_membership runs.source_runs d posting_id o ms)
          ≡ count_if (is_member u p) ms)
        × (any (is_member u p) (reattribute_membership runs.source_runs d posting_id o ms)
            ≡ any (is_member u p) ms)
        × (length (reattribute_membership runs.source_runs d posting_id o ms) ≡ length ms)
  unfolding reattribute_membership is_member attributed
  reattribute-count u p posting_id none ms = (refl, refl, refl)
  reattribute-count u p posting_id (some source) ms =
      let q = is_moved runs.source_runs d posting_id source in
      (
        count_if-update (is_member u p) q (attributed d) (λ x. refl) ms,
        any-update (is_member u p) q (attributed d) (λ x. refl) ms,
        length-update q (attributed d) ms,
      )

  redeliver-count :
      (u p : Str) (i : Identified) (version_id hash : Str) (state : State) (ms : List MemberRow)
      → (count_if (is_member u p) (redeliver pf runs d i version_id hash state ms)
          ≡ count_if (is_member u p) ms)
        × (any (is_member u p) (redeliver pf runs d i version_id hash state ms)
            ≡ any (is_member u p) ms)
        × (length (redeliver pf runs d i version_id hash state ms) ≡ length ms)
  unfolding redeliver described is_member
  redeliver-count u p i version_id hash state ms =
      let o = source_of_attempt runs.source_runs d.source_run_id in
      let from = reattribute-count u p i.posting_id o ms in
      let moved = reattribute_membership runs.source_runs d i.posting_id o ms in
      let q = is_member d.run_uid i.posting_id in
      let f = described pf runs d version_id hash state in
      (
        count_if-update (is_member u p) q f (λ x. refl) moved ∙ from.0,
        any-update (is_member u p) q f (λ x. refl) moved ∙ from.1,
        length-update q f moved ∙ from.2,
      )

  is_member-own :
      (i : Identified) (version_id hash : Str) (state : State)
      → is_member d.run_uid i.posting_id (member_row pf runs d i version_id hash state) ≡ true
  unfolding is_member member_row
  is_member-own i version_id hash state = rw (eq_str_refl d.run_uid, eq_str_refl i.posting_id) refl

  -- What a delivery does to the counts, by whether the posting's row stood in the run.
  abbrev pub Recorded : Str → List MemberRow → ℕ → ℕ → Content → Type 0
  Recorded posting_id members accepted duplicates s =
      ((any (is_member d.run_uid posting_id) members ≡ true)
        × (s.accepted ≡ accepted)
        × (s.duplicates ≡ duplicates + 1)
        × (length s.members ≡ length members))
      ⊎ ((any (is_member d.run_uid posting_id) members ≡ false)
          × (s.accepted ≡ accepted + 1)
          × (s.duplicates ≡ duplicates)
          × (length s.members ≡ length members + 1))

  pub record_member-Recorded :
      (i : Identified) (version_id hash : Str) (state : State) (s : Content)
      → Recorded i.posting_id s.members s.accepted s.duplicates
          (record_member pf runs d i version_id hash state s)
  unfolding record_member
  record_member-Recorded i version_id hash state s =
      elim (Bool-cases (any (is_member d.run_uid i.posting_id) s.members)) [
        | inl e ↦ rw e (
            inl (
              refl,
              refl,
              refl,
              (redeliver-count d.run_uid i.posting_id i version_id hash state s.members).2,
            ))
        | inr e ↦ rw e (inr (refl, refl, refl, length-append s.members _))
      ]

  pub record_member-any :
      (i : Identified) (version_id hash : Str) (state : State) (s : Content) (u p : Str)
      → any (is_member u p) (record_member pf runs d i version_id hash state s).members
        ≡ (any (is_member u p) s.members || (eq_str d.run_uid u && eq_str i.posting_id p))
  unfolding record_member member_row is_member
  record_member-any i version_id hash state s u p =
      elim (Bool-cases (any (is_member d.run_uid i.posting_id) s.members)) [
        | inl e ↦ rw e (
            (redeliver-count u p i version_id hash state s.members).1
            ∙ absorbed _ _ (λ h. any-key u p d.run_uid i.posting_id s.members h e))
        | inr e ↦ rw e (any-append (is_member u p) s.members _ ∙ ground arith)
      ]

  pub record_member_unique :
      (i : Identified) (version_id hash : Str) (state : State) (s : Content) (u p : Str)
      → count_if (is_member u p) s.members ≤ 1
      → count_if (is_member u p) (record_member pf runs d i version_id hash state s).members ≤ 1
  unfolding record_member member_row is_member
  record_member_unique i version_id hash state s u p h =
      elim (Bool-cases (any (is_member d.run_uid i.posting_id) s.members)) [
        | inl e ↦ rw e (rw (redeliver-count u p i version_id hash state s.members).0 h)
        | inr e ↦ rw e (
            rw
              (count_if-append (is_member u p) s.members
                (member_row pf runs d i version_id hash state ∷ []))
              (elim (Bool-cases (eq_str d.run_uid u && eq_str i.posting_id p)) [
                | inl f ↦ rw (f, count-key u p d.run_uid i.posting_id s.members f e) (omega arith)
                | inr f ↦ rw f (ground arith)
              ]))
      ]
