-- ===== src/Resolver/Index.antt =====
-- Resolving by the index is resolving by a search of all observations
-- (webapp/backend/sources/resolver.py).
use jobhunt.Prelude.{
  ◌≡◌, refl, sym, ap, ◌∙◌, Bool, true, false, not, ◌&&◌, some, Str, List, [], ◌∷◌, ◌++◌, keep,
  eq_str, eq_str_comm, eq_str→≡, if◌then◌else◌, is_empty, Bool-cases, inl, inr, or_else,
  append_assoc, append-nil,
}
use jobhunt.Runs.Profile.{find}
use jobhunt.Contract.Text.{Platform}
use jobhunt.Resolver.Names.{company_key}
use jobhunt.Resolver.Local.{
  Observation, DirectIndex, Subject, append_at, indexed, build_direct_index, candidates, survives,
  resolve_local, only,
}

-- The list of a key after an append.
listed : Str → DirectIndex → List Observation
listed k m = or_else (find k m) []

listed-append_at :
    (u k : Str) (o : Observation) (m : DirectIndex)
    → listed u (append_at k o m) ≡ (if eq_str u k then listed u m ++ o ∷ [] else listed u m)
unfolding listed append_at find
listed-append_at u k o [] = elim (Bool-cases (eq_str u k)) [ inl e ↦ rw e refl | inr e ↦ rw e refl ]
listed-append_at u k o ((j, os) ∷ m) = elim (Bool-cases (eq_str k j)) [
  | inl e ↦ elim (Bool-cases (eq_str u j)) [
    | inl f ↦ rw (e, f, ap (eq_str u) (eq_str→≡ k j e), f) refl
    | inr f ↦ rw (e, f, ap (eq_str u) (eq_str→≡ k j e), f) refl
  ]
  | inr e ↦ elim (Bool-cases (eq_str u j)) [
    | inl f ↦ rw (e, f, eq_str_comm u k ∙ ap (eq_str k) (eq_str→≡ u j f) ∙ e) refl
    | inr f ↦ rw (e, f) (listed-append_at u k o m)
  ]
]

another_key : (u k : Str) → is_empty u ≡ false → is_empty k ≡ true → eq_str u k ≡ false
unfolding eq_str
another_key [] k h e = cc
another_key (c ∷ u) [] h e = refl
another_key (c ∷ u) (d ∷ k) h e = cc

empty_key : (k : Str) → is_empty k ≡ false → eq_str [] k ≡ false
unfolding eq_str
empty_key [] e = cc
empty_key (c ∷ k) e = refl

keep_none {ℓ} : {A : Type ℓ} (xs : List A) → keep (λ x. false) xs ≡ []
keep_none [] = refl
keep_none (x ∷ xs) = keep_none xs

-- One filter after another.
keep-keep {ℓ} :
    {A : Type ℓ} (p q : A → Bool) (xs : List A) → keep p (keep q xs) ≡ keep (λ x. q x && p x) xs
keep-keep p q [] = refl
keep-keep p q (x ∷ xs) = elim (Bool-cases (q x)) [
  | inl e ↦ elim (Bool-cases (p x)) [
    | inl f ↦ rw (e, f) (ap (◌∷◌ x) (keep-keep p q xs))
    | inr f ↦ rw (e, f) (keep-keep p q xs)
  ]
  | inr e ↦ rw e (keep-keep p q xs)
]

module _ (pf : Platform) where
  is_of : Str → Observation → Bool
  is_of u o = eq_str u (company_key pf (some o.company))

  -- An index lists, under a key that is not empty, the observations of that key in order.
  listed-indexed :
      (u : Str) (os : List Observation) (m : DirectIndex)
      → is_empty u ≡ false
      → listed u (indexed pf os m) ≡ listed u m ++ keep (is_of u) os
  unfolding indexed is_of
  listed-indexed u [] m h = sym (append-nil (listed u m))
  listed-indexed u (o ∷ os) m h =
      let key = company_key pf (some o.company) in
      let rest = keep (is_of u) os in
      elim (Bool-cases (is_empty key)) [
        | inl e ↦ rw (e, another_key u key h e) (listed-indexed u os m h)
        | inr e ↦ elim (Bool-cases (eq_str u key)) [
          | inl f ↦
              rw (e, f)
                (listed-indexed u os (append_at key o m) h
                  ∙ ap (λ l. l ++ rest)
                      (listed-append_at u key o m
                        ∙ ap (λ b. if b then listed u m ++ o ∷ [] else listed u m) f)
                  ∙ append_assoc (listed u m) (o ∷ []) rest)
          | inr f ↦
              rw (e, f)
                (listed-indexed u os (append_at key o m) h
                  ∙ ap (λ l. l ++ rest)
                      (listed-append_at u key o m
                        ∙ ap (λ b. if b then listed u m ++ o ∷ [] else listed u m) f))
        ]
      ]

  -- No observation is listed under the empty key.
  listed_empty :
      (os : List Observation) (m : DirectIndex)
      → listed [] m ≡ []
      → listed [] (indexed pf os m) ≡ []
  unfolding indexed
  listed_empty [] m h = h
  listed_empty (o ∷ os) m h =
      let key = company_key pf (some o.company) in
      elim (Bool-cases (is_empty key)) [
        | inl e ↦ rw e (listed_empty os m h)
        | inr e ↦ rw e (
            listed_empty os (append_at key o m) (
              listed-append_at [] key o m
              ∙ ap (λ b. if b then listed [] m ++ o ∷ [] else listed [] m) (empty_key key e)
              ∙ h))
      ]

  -- The documented conditions, on any observation of the run.
  abbrev pub is_match : Subject → Observation → Bool
  is_match s o =
      (not (is_empty (company_key pf s.company))
        && eq_str (company_key pf s.company) (company_key pf (some o.company)))
      && survives pf s o

  candidates-keep :
      (u : Str) (os : List Observation)
      → listed u (indexed pf os []) ≡ keep (λ o. not (is_empty u) && is_of u o) os
  unfolding listed find
  candidates-keep [] os = listed_empty os [] refl ∙ sym (keep_none os)
  candidates-keep (c ∷ u) os = listed-indexed (c ∷ u) os [] refl

  -- Resolving a subject through the index of any observations gives as its candidates, in order, the
  -- observations that meet every documented condition: the subject's company key, which is not empty,
  -- another posting, an equal or close title, and a location that does not contradict. It is matched
  -- exactly when there is one of them.
  pub resolve_local-search :
      (s : Subject) (os : List Observation)
      → resolve_local pf s (build_direct_index pf os) ≡ record {
        subject_posting_id = s.posting_id;
        matched = only (keep (is_match s) os);
        candidates = keep (is_match s) os;
      }
  unfolding resolve_local build_direct_index candidates listed is_of
  resolve_local-search s os =
      ap (λ l. record { subject_posting_id = s.posting_id; matched = only l; candidates = l })
        (ap (keep (survives pf s)) (candidates-keep (company_key pf s.company) os)
          ∙ keep-keep (survives pf s) _ os)
