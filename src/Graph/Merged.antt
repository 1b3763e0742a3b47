-- ===== src/Graph/Merged.antt =====
-- The canonical version is the best of what the state maps mention
-- (webapp/backend/sources/graph.py).
use jobhunt.Prelude.{
  ◌≡◌, refl, sym, ap, ◌∙◌, arith, Bool, true, false, Option, none, some, Str, List, [], ◌∷◌, eq_str,
  eq_str_refl, eq_str→≡, if◌then◌else◌, list_order, nat_order, le_list_total, le_list_trans,
  Bool-cases, inl, inr, is_some, subst,
}
use jobhunt.Store.Rows.{coalesce}
use jobhunt.Runs.Profile.{find}
use jobhunt.Records.Tables.{State}
use jobhunt.Graph.Canonical.{
  SourceCategory, setdefault, merge_state, merge_all, key, is_before, least, with_version,
  select_from, select_canonical_version,
}

-- The version that the first map to mention a namespace gives it.
abbrev pub first_mention : Str → List State → Option Str
first_mention n [] = none
first_mention n (s ∷ ss) = coalesce (find n s) (first_mention n ss)

coalesce_assoc : (a b c : Option Str) → coalesce (coalesce a b) c ≡ coalesce a (coalesce b c)
coalesce_assoc none b c = refl
coalesce_assoc (some a) b c = refl

coalesce-none : (a : Option Str) → coalesce a none ≡ a
coalesce-none none = refl
coalesce-none (some a) = refl

find-setdefault :
    (u k v : Str) (m : State)
    → find u (setdefault k v m) ≡ coalesce (find u m) (if eq_str u k then some v else none)
unfolding find setdefault
find-setdefault u k v [] = refl
find-setdefault u k v ((j, w) ∷ m) = elim (Bool-cases (eq_str k j)) [
  | inl e ↦ elim (Bool-cases (eq_str u j)) [
    | inl f ↦ rw (e, f) refl
    | inr f ↦ rw (e, f, ap (eq_str u) (eq_str→≡ k j e) ∙ f) (sym (coalesce-none (find u m)))
  ]
  | inr e ↦ elim (Bool-cases (eq_str u j)) [
    | inl f ↦ rw (e, f) refl
    | inr f ↦ rw (e, f) (find-setdefault u k v m)
  ]
]

find-merge_state :
    (u : Str) (m s : State) → find u (merge_state m s) ≡ coalesce (find u m) (find u s)
unfolding find merge_state
find-merge_state u m [] = sym (coalesce-none (find u m))
find-merge_state u m ((k, v) ∷ s) =
    find-merge_state u (setdefault k v m) s
    ∙ ap (λ o. coalesce o (find u s)) (find-setdefault u k v m)
    ∙ coalesce_assoc (find u m) (if eq_str u k then some v else none) (find u s)
    ∙ ap (coalesce (find u m)) (mentioned (eq_str u k) v (find u s))
  where
    mentioned :
        (b : Bool) (v : Str) (o : Option Str)
        → coalesce (if b then some v else none) o ≡ (if b then some v else o)
    mentioned true v o = refl
    mentioned false v o = refl

find-merge_all :
    (u : Str) (m : State) (ss : List State)
    → find u (merge_all m ss) ≡ coalesce (find u m) (first_mention u ss)
unfolding merge_all
find-merge_all u m [] = sym (coalesce-none (find u m))
find-merge_all u m (s ∷ ss) =
    find-merge_all u (merge_state m s) ss
    ∙ ap (λ o. coalesce o (first_mention u ss)) (find-merge_state u m s)
    ∙ coalesce_assoc (find u m) (find u s) (first_mention u ss)

found_in_all : (u : Str) (ss : List State) → find u (merge_all [] ss) ≡ first_mention u ss
unfolding find
found_in_all u ss = find-merge_all u [] ss

found_version : (o : Option Str) → is_some o ≡ true → (v : Str) × (o ≡ some v)
found_version none h = cc
found_version (some v) h = (v, refl)

found_first : (n v : Str) → is_some (find n ((n, v) ∷ [])) ≡ true
unfolding find
found_first n v = rw (eq_str_refl n) refl

module _ (category_of : Str → SourceCategory) where
  is_before_refl : (n : Str) → is_before category_of n n ≡ true
  is_before_refl n =
      elim (le_list_total (list_order nat_order) (key category_of n) (key category_of n)) [
        | inl h ↦ h
        | inr h ↦ h
      ]

  is_before_trans :
      (a b c : Str)
      → is_before category_of a b ≡ true
      → is_before category_of b c ≡ true
      → is_before category_of a c ≡ true
  is_before_trans a b c h k =
      le_list_trans (list_order nat_order) (key category_of a) (key category_of b)
        (key category_of c) h k

  -- The smaller of two is before both.
  smaller :
      (n k : Str)
      → (is_before category_of (if is_before category_of n k then n else k) n ≡ true)
        × (is_before category_of (if is_before category_of n k then n else k) k ≡ true)
  smaller n k = elim (Bool-cases (is_before category_of n k)) [
    | inl e ↦ rw e (is_before_refl n, e)
    | inr e ↦ rw e (
      elim (le_list_total (list_order nat_order) (key category_of n) (key category_of k)) [
        | inl h ↦ ground (arith, e, h)
        | inr h ↦ h
      ],
      is_before_refl k,
    )
  ]

  -- The least namespace is before the one that it starts from, and before every other of the map.
  least-is_before : (n : Str) (m : State) → is_before category_of (least category_of n m) n ≡ true
  unfolding least
  least-is_before n [] = is_before_refl n
  least-is_before n ((k, v) ∷ m) =
      is_before_trans _ _ n (least-is_before (if is_before category_of n k then n else k) m)
        (smaller n k).0

  least-is_before_all :
      (n : Str) (m : State) (u w : Str)
      → find u m ≡ some w
      → is_before category_of (least category_of n m) u ≡ true
  unfolding least find
  least-is_before_all n [] u w h = cc
  least-is_before_all n ((k, v) ∷ m) u w h =
      let next = if is_before category_of n k then n else k in
      elim (Bool-cases (eq_str u k)) [
        | inl e ↦
            subst (λ j. is_before category_of (least category_of next m) j ≡ true)
              (sym (eq_str→≡ u k e))
              (is_before_trans _ next k (least-is_before next m) (smaller n k).1)
        | inr e ↦
            least-is_before_all next m u w
              (subst (λ b. (if b then some v else find u m) ≡ some w) e h)
      ]

  chosen_of_two :
      (n v k x : Str) (m : State) (b : Bool)
      → is_some (find (least category_of n m) ((n, v) ∷ m)) ≡ true
      → is_some (find (least category_of k m) ((k, x) ∷ m)) ≡ true
      → is_some (find (least category_of (if b then n else k) m) ((n, v) ∷ (k, x) ∷ m)) ≡ true
  unfolding find
  chosen_of_two n v k x m true h g = skipped (least category_of n m) n k v x m h
    where
      skipped :
          (l n k v x : Str) (m : State)
          → is_some (if eq_str l n then some v else find l m) ≡ true
          → is_some (if eq_str l n then some v else if eq_str l k then some x else find l m) ≡ true
      skipped l n k v x m h = ground (arith, h)
  chosen_of_two n v k x m false h g = added (least category_of k m) n k v x m g
    where
      added :
          (l n k v x : Str) (m : State)
          → is_some (if eq_str l k then some x else find l m) ≡ true
          → is_some (if eq_str l n then some v else if eq_str l k then some x else find l m) ≡ true
      added l n k v x m h = ground (arith, h)

  -- The least namespace is one of those that it was chosen from.
  least-found : (n v : Str) (m : State) → is_some (find (least category_of n m) ((n, v) ∷ m)) ≡ true
  unfolding least
  least-found n v [] = found_first n v
  least-found n v ((k, x) ∷ m) =
      chosen_of_two n v k x m (is_before category_of n k) (least-found n v m) (least-found k x m)

  -- A version that speaks, and speaks before this namespace.
  abbrev pub Speaks : Option (Str × Str) → (Str → Option Str) → Str → Type 0
  Speaks chosen version u =
      (n : Str) × (v : Str) × (chosen ≡ some (n, v))
      × (version n ≡ some v)
      × (is_before category_of n u ≡ true)

  first_or_later :
      (k x : Str) (m : State) (u w : Str)
      → find u ((k, x) ∷ m) ≡ some w
      → is_before category_of (least category_of k m) u ≡ true
  unfolding find
  first_or_later k x m u w h = elim (Bool-cases (eq_str u k)) [
    | inl e ↦
        subst (λ j. is_before category_of (least category_of k m) j ≡ true) (sym (eq_str→≡ u k e))
          (least-is_before k m)
    | inr e ↦
        least-is_before_all k m u w (subst (λ b. (if b then some x else find u m) ≡ some w) e h)
  ]

  not_empty : (u w : Str) → find u [] ≡ some w → Speaks none (λ n. find n []) u
  unfolding find
  not_empty u w h = (u, w, cc, cc, cc)

  select_from-Speaks :
      (m : State) (u w : Str)
      → find u m ≡ some w
      → Speaks (select_from category_of m) (λ n. find n m) u
  unfolding select_from with_version
  select_from-Speaks [] u w h = not_empty u w h
  select_from-Speaks ((k, x) ∷ m) u w h =
      let l = least category_of k m in
      let (v, e) = found_version (find l ((k, x) ∷ m)) (least-found k x m) in
      (l, v, ap (with_version category_of l) e, e, first_or_later k x m u w h)

  -- Whenever some state map mentions a namespace, a canonical version is selected: it is the one
  -- that the first map to mention its namespace names there, and its namespace is not after the
  -- given one by category rank, ties broken by the text.
  pub select_canonical_version-Speaks :
      (state_maps : List State) (u w : Str)
      → first_mention u state_maps ≡ some w
      → Speaks (select_canonical_version category_of state_maps) (λ n. first_mention n state_maps) u
  unfolding select_canonical_version
  select_canonical_version-Speaks state_maps u w h =
      let (n, v, c, f, b) =
        select_from-Speaks (merge_all [] state_maps) u w (found_in_all u state_maps ∙ h) in
      (n, v, c, sym (found_in_all n state_maps) ∙ f, b)
