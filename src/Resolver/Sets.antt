-- ===== src/Resolver/Sets.antt =====
-- The counts of two token sets do not depend on which is first
-- (webapp/backend/sources/resolver.py).
use jobhunt.Prelude.{
  ℕ, ◌+◌, ◌≡◌, refl, sym, ap, ap₂, ◌∙◌, arith, Bool, true, false, not, ◌||◌, Option, Str, List, [],
  ◌∷◌, keep, count_if, mem, distinct, length, length-append, eq_str, eq_str_comm, eq_str→≡,
  if◌then◌else◌, Bool-cases, inl, inr, zero-add, ◌==◌,
}
use jobhunt.Contract.Text.{Platform}
use jobhunt.Resolver.Names.{
  to_set, intersection, union, jaccard, do_not_contradict, title_jaccard, title_tokens,
  location_tokens, locations_compatible, is_nil,
}

-- The number of pairs of equal texts of two lists.
pairs : List Str → List Str → ℕ
pairs [] b = 0
pairs (w ∷ a) b = count_if (eq_str w) b + pairs a b

pairs_nil : (a : List Str) → pairs a [] ≡ 0
unfolding pairs
pairs_nil [] = refl
pairs_nil (w ∷ a) = omega (arith, pairs_nil a)

pairs-cons :
    (a : List Str) (v : Str) (b : List Str) → pairs a (v ∷ b) ≡ count_if (eq_str v) a + pairs a b
unfolding pairs
pairs-cons [] v b = omega arith
pairs-cons (w ∷ a) v b = rw (eq_str_comm w v) (omega (arith, pairs-cons a v b))

pairs_comm : (a b : List Str) → pairs a b ≡ pairs b a
unfolding pairs
pairs_comm [] b = sym (pairs_nil b)
pairs_comm (w ∷ a) b = ap (λ n. count_if (eq_str w) b + n) (pairs_comm a b) ∙ sym (pairs-cons b w a)

unseen-count : (w : Str) (b : List Str) → mem w b ≡ false → count_if (eq_str w) b ≡ 0
unseen-count w [] h = refl
unseen-count w (v ∷ b) h = ground (arith, unseen-count w b)

-- A list without repetitions holds a text once or not at all.
count-mem :
    (w : Str) (b : List Str)
    → distinct b ≡ true
    → count_if (eq_str w) b ≡ (if mem w b then 1 else 0)
count-mem w [] h = refl
count-mem w (v ∷ b) h = elim (Bool-cases (eq_str w v)) [
  | inl e ↦
      rw e
        (omega (arith, unseen-count w b (ap (λ u. mem u b) (eq_str→≡ w v e) ∙ ground (arith, h))))
  | inr e ↦ rw e (zero-add _ ∙ count-mem w b (ground (arith, h)))
]

intersection-pairs : (a b : List Str) → distinct b ≡ true → length (intersection a b) ≡ pairs a b
unfolding intersection pairs
intersection-pairs [] b h = refl
intersection-pairs (w ∷ a) b h = elim (Bool-cases (mem w b)) [
  | inl e ↦ rw (e, count-mem w b h, e) (omega (arith, intersection-pairs a b h))
  | inr e ↦ rw (e, count-mem w b h, e) (omega (arith, intersection-pairs a b h))
]

keep-split :
    (p : Str → Bool) (xs : List Str)
    → length (keep p xs) + length (keep (λ x. not (p x)) xs) ≡ length xs
keep-split p [] = omega arith
keep-split p (x ∷ xs) = ground (arith, keep-split p xs)

to_set-distinct : (ws : List Str) → distinct (to_set ws) ≡ true
unfolding to_set
to_set-distinct [] = refl
to_set-distinct (w ∷ ws) = elim (Bool-cases (mem w (to_set ws))) [
  | inl e ↦ rw e (to_set-distinct ws)
  | inr e ↦ rw (e, e) (to_set-distinct ws)
]

is_nil-length : (ws : List Str) → is_nil ws ≡ (length ws == 0)
unfolding is_nil
is_nil-length [] = refl
is_nil-length (w ∷ ws) = ground arith

or_comm : (b c : Bool) → (b || c) ≡ (c || b)
or_comm b c = ground arith

module _ (a b : List Str) (ha : distinct a ≡ true) (hb : distinct b ≡ true) where
  intersection_comm : length (intersection a b) ≡ length (intersection b a)
  intersection_comm = intersection-pairs a b hb ∙ pairs_comm a b ∙ sym (intersection-pairs b a ha)

  union_comm : length (union a b) ≡ length (union b a)
  unfolding union intersection
  union_comm = omega (
    arith,
    intersection_comm,
    length-append a (keep (λ w. not (mem w a)) b),
    length-append b (keep (λ w. not (mem w b)) a),
    keep-split (λ w. mem w a) b,
    keep-split (λ w. mem w b) a,
  )

  jaccard_comm : jaccard a b ≡ jaccard b a
  unfolding jaccard
  jaccard_comm =
      rw (intersection_comm, union_comm)
        (ap (λ c. if c then (0, 1) else (length (intersection b a), length (union b a)))
          (or_comm (is_nil a) (is_nil b)))

  do_not_contradict_comm : do_not_contradict a b ≡ do_not_contradict b a
  unfolding do_not_contradict
  do_not_contradict_comm =
      ap₂ (λ c e. c || not e) (or_comm (is_nil a) (is_nil b))
        (is_nil-length (intersection a b)
          ∙ ap (λ n. n == 0) intersection_comm
          ∙ sym (is_nil-length (intersection b a)))

module _ (pf : Platform) where
  -- The title similarity of two texts and the compatibility of two locations are the same whichever
  -- of the two comes first.
  pub similarity_comm :
      (left right : Option Str)
      → (title_jaccard pf left right ≡ title_jaccard pf right left)
        × (locations_compatible pf left right ≡ locations_compatible pf right left)
  unfolding title_jaccard title_tokens locations_compatible location_tokens
  similarity_comm left right = (
    jaccard_comm _ _ (to_set-distinct _) (to_set-distinct _),
    do_not_contradict_comm _ _ (to_set-distinct _) (to_set-distinct _),
  )
