-- ===== src/Prelude/Lists.antt =====
-- Lists measured by native numbers, filtered and searched by Boolean tests.
use Prim.Native.Nat.{ℕ, zero, suc, ◌+◌, ◌≤◌}
use mathlib.Core.Path.{◌≡◌, refl, ap, subst₂}
use mathlib.Core.Logic.{inl, inr}
use mathlib.Core.Bool.{Bool, true, false, ◌&&◌, ◌||◌}
use mathlib.Core.List.{List, [], ◌∷◌, ◌++◌, append_assoc}
use mathlib.Core.Option.{Option, none, some}
use native.Mathlib.Omega.{arith}
use jobhunt.Prelude.Tests.{if◌then◌else◌, Bool-cases}

module _ {ℓ} {A : Type ℓ} where
  abbrev pub length : List A → ℕ
  length [] = 0
  length (x ∷ xs) = suc (length xs)

  abbrev pub take : ℕ → List A → List A
  take zero xs = []
  take (suc n) [] = []
  take (suc n) (x ∷ xs) = x ∷ take n xs

  abbrev pub get_elem? : List A → ℕ → Option A
  get_elem? [] i = none
  get_elem? (x ∷ xs) zero = some x
  get_elem? (x ∷ xs) (suc i) = get_elem? xs i

  -- `[x for x in xs if p x]`, `any` and `all`.
  abbrev pub keep : (A → Bool) → List A → List A
  keep p [] = []
  keep p (x ∷ xs) = if p x then x ∷ keep p xs else keep p xs

  abbrev pub any : (A → Bool) → List A → Bool
  any p [] = false
  any p (x ∷ xs) = p x || any p xs

  abbrev pub all : (A → Bool) → List A → Bool
  all p [] = true
  all p (x ∷ xs) = p x && all p xs

  abbrev pub count_if : (A → Bool) → List A → ℕ
  count_if p [] = 0
  count_if p (x ∷ xs) = (if p x then 1 else 0) + count_if p xs

  -- A predicate on every element, as a tuple that the tactics read.
  abbrev pub All {κ} : (A → Type κ) → List A → Type κ
  All P [] = Unit
  All P (x ∷ xs) = P x × All P xs

module _ {ℓ} {A : Type ℓ} where
  pub length-append : (xs ys : List A) → length (xs ++ ys) ≡ length xs + length ys
  length-append [] ys = omega arith
  length-append (x ∷ xs) ys = omega (arith, length-append xs ys)

  pub length-keep : (p : A → Bool) (xs : List A) → length (keep p xs) ≡ count_if p xs
  length-keep p [] = refl
  length-keep p (x ∷ xs) = ground (arith, length-keep p xs)

  pub count_if-append :
      (p : A → Bool) (xs ys : List A) → count_if p (xs ++ ys) ≡ count_if p xs + count_if p ys
  count_if-append p [] ys = omega arith
  count_if-append p (x ∷ xs) ys = ground (arith, count_if-append p xs ys)

  pub count_if-le : (p : A → Bool) (xs : List A) → count_if p xs ≤ length xs
  count_if-le p [] = omega arith
  count_if-le p (x ∷ xs) = ground (arith, count_if-le p xs)

  pub All-append {κ} : (P : A → Type κ) (xs ys : List A) → All P xs → All P ys → All P (xs ++ ys)
  All-append P [] ys hs ks = ks
  All-append P (x ∷ xs) ys hs ks = (hs.0, All-append P xs ys hs.1 ks)

  pub All-map {κ λ'} :
      (P : A → Type κ) (Q : A → Type λ') (f : (a : A) → P a → Q a) (xs : List A)
      → All P xs
      → All Q xs
  All-map P Q f [] hs = tt
  All-map P Q f (x ∷ xs) hs = (f x hs.0, All-map P Q f xs hs.1)

-- A predicate on every element and its position, counted from a start.
module _ {ℓ κ} {A : Type ℓ} where
  abbrev pub AllFrom : (ℕ → A → Type κ) → ℕ → List A → Type κ
  AllFrom P n [] = Unit
  AllFrom P n (x ∷ xs) = P n x × AllFrom P (n + 1) xs

  pub AllFrom-of_All : (P : A → Type κ) (n : ℕ) (xs : List A) → All P xs → AllFrom (λ i x. P x) n xs
  AllFrom-of_All P n [] hs = tt
  AllFrom-of_All P n (x ∷ xs) hs = (hs.0, AllFrom-of_All P (n + 1) xs hs.1)

  pub AllFrom-trivial : (n : ℕ) (xs : List A) → AllFrom (λ i x. Unit {κ}) n xs
  AllFrom-trivial n [] = tt
  AllFrom-trivial n (x ∷ xs) = (tt, AllFrom-trivial (n + 1) xs)

  pub AllFrom-join :
      (P : ℕ → A → Type κ) (Q : A → Type κ) (n : ℕ) (xs : List A)
      → AllFrom P n xs
      → All Q xs
      → AllFrom (λ i x. P i x × Q x) n xs
  AllFrom-join P Q n [] hs ks = tt
  AllFrom-join P Q n (x ∷ xs) hs ks = ((hs.0, ks.0), AllFrom-join P Q (n + 1) xs hs.1 ks.1)

module _ {ℓ} {A : Type ℓ} where
  get_elem?-skip :
      (ys : List A) (x : A) (xs : List A) → get_elem? (ys ++ x ∷ xs) (length ys) ≡ some x
  get_elem?-skip [] x xs = refl
  get_elem?-skip (y ∷ ys) x xs = get_elem?-skip ys x xs

  AllFrom-get_elem?_after :
      (ys xs : List A) → AllFrom (λ i x. get_elem? (ys ++ xs) i ≡ some x) (length ys) xs
  AllFrom-get_elem?_after ys [] = tt
  AllFrom-get_elem?_after ys (x ∷ xs) = (
    get_elem?-skip ys x xs,
    subst₂ (λ zs n. AllFrom (λ i x'. get_elem? zs i ≡ some x') n xs) (append_assoc ys (x ∷ []) xs)
        (length-append ys (x ∷ [])) (AllFrom-get_elem?_after (ys ++ x ∷ []) xs),
  )

  -- Every element stands at its position.
  pub AllFrom-get_elem? : (xs : List A) → AllFrom (λ i x. get_elem? xs i ≡ some x) 0 xs
  AllFrom-get_elem? xs = AllFrom-get_elem?_after [] xs

module _ {ℓ} {A : Type ℓ} where
  pub keep-append : (p : A → Bool) (xs ys : List A) → keep p (xs ++ ys) ≡ keep p xs ++ keep p ys
  keep-append p [] ys = refl
  keep-append p (x ∷ xs) ys = elim (Bool-cases (p x)) [
    | inl e ↦ rw e (ap (◌∷◌ x) (keep-append p xs ys))
    | inr e ↦ rw e (keep-append p xs ys)
  ]

  pub any-append : (p : A → Bool) (xs ys : List A) → any p (xs ++ ys) ≡ (any p xs || any p ys)
  any-append p [] ys = refl
  any-append p (x ∷ xs) ys = ground (arith, any-append p xs ys)

-- Each element of a list satisfies what it witnesses of the list.
pub All-any {ℓ} :
    {A : Type ℓ} (xs ys : List A)
    → ((q : A → Bool) → any q xs ≡ true → any q ys ≡ true)
    → All (λ x. (q : A → Bool) → q x ≡ true → any q ys ≡ true) xs
All-any [] ys f = tt
All-any (x ∷ xs) ys f =
    (λ q h. f q (ground (arith, h)), All-any xs ys (λ q h. f q (ground (arith, h))))
