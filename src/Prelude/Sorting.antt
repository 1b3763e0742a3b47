-- ===== src/Prelude/Sorting.antt =====
-- `sorted(xs, key=...)`: a stable sort by a key, and what it keeps.
use mathlib.Core.Path.{◌≡◌, refl, ap, ap₂, ◌∙◌, sym}
use mathlib.Core.Bool.{Bool, true, false, ◌&&◌, ◌||◌}
use mathlib.Core.List.{List, [], ◌∷◌, map, Permᴰ}
use Prim.Native.Nat.{suc}
use mathlib.Core.Logic.{inl, inr}
use native.Mathlib.Omega.{arith}
use jobhunt.Prelude.Tests.{if◌then◌else◌, Bool-cases}
use jobhunt.Prelude.Lists.{length, All, count_if}
use jobhunt.Prelude.Text.{Str, eq_str, eq_str_comm, eq_str_refl, mem, distinct}
use jobhunt.Prelude.Order.{Order}

module _ {ℓ κ} {A : Type ℓ} {K : Type κ} (o : Order K) (key : A → K) where
  -- Before the first element whose key is not smaller, so equal keys keep their order.
  unfoldable pub insert_by : A → List A → List A
  insert_by x [] = x ∷ []
  insert_by x (y ∷ ys) = if o.le (key x) (key y) then x ∷ y ∷ ys else y ∷ insert_by x ys

  unfoldable pub sort_by : List A → List A
  unfolding insert_by
  sort_by [] = []
  sort_by (x ∷ xs) = insert_by x (sort_by xs)

  pub length-insert_by : (x : A) (xs : List A) → length (insert_by x xs) ≡ length (x ∷ xs)
  unfolding insert_by
  length-insert_by x [] = refl
  length-insert_by x (y ∷ ys) = ground (arith, length-insert_by x ys)

  pub count_if-insert_by :
      (p : A → Bool) (x : A) (xs : List A) → count_if p (insert_by x xs) ≡ count_if p (x ∷ xs)
  unfolding insert_by
  count_if-insert_by p x [] = refl
  count_if-insert_by p x (y ∷ ys) = ground (arith, count_if-insert_by p x ys)

  pub All-insert_by {λ'} :
      (P : A → Type λ') (x : A) (xs : List A) → P x → All P xs → All P (insert_by x xs)
  unfolding insert_by
  All-insert_by P x [] h hs = (h, tt)
  All-insert_by P x (y ∷ ys) h hs = elim (Bool-cases (o.le (key x) (key y))) [
    | inl e ↦ rw e (h, hs)
    | inr e ↦ rw e (hs.0, All-insert_by P x ys h hs.1)
  ]

  pub mem-insert_by :
      (name : A → Str) (u : Str) (x : A) (xs : List A)
      → mem u (map name (insert_by x xs)) ≡ (eq_str u (name x) || mem u (map name xs))
  unfolding insert_by
  mem-insert_by name u x [] = refl
  mem-insert_by name u x (y ∷ ys) = ground (arith, mem-insert_by name u x ys)

  pub distinct-insert_by :
      (name : A → Str) (x : A) (xs : List A)
      → distinct (map name (insert_by x xs)) ≡ distinct (name x ∷ map name xs)
  unfolding insert_by
  distinct-insert_by name x [] = refl
  distinct-insert_by name x (y ∷ ys) = ground (
    arith,
    distinct-insert_by name x ys,
    mem-insert_by name (name y) x ys,
    eq_str_comm (name x) (name y),
  )

  pub length-sort_by : (xs : List A) → length (sort_by xs) ≡ length xs
  unfolding sort_by
  length-sort_by [] = refl
  length-sort_by (x ∷ xs) = length-insert_by x (sort_by xs) ∙ ap suc (length-sort_by xs)

  pub count_if-sort_by : (p : A → Bool) (xs : List A) → count_if p (sort_by xs) ≡ count_if p xs
  unfolding sort_by
  count_if-sort_by p [] = refl
  count_if-sort_by p (x ∷ xs) =
      omega (arith, count_if-insert_by p x (sort_by xs), count_if-sort_by p xs)

  pub All-sort_by {λ'} : (P : A → Type λ') (xs : List A) → All P xs → All P (sort_by xs)
  unfolding sort_by
  All-sort_by P [] hs = tt
  All-sort_by P (x ∷ xs) hs = All-insert_by P x (sort_by xs) hs.0 (All-sort_by P xs hs.1)

  pub mem-sort_by :
      (name : A → Str) (u : Str) (xs : List A) → mem u (map name (sort_by xs)) ≡ mem u (map name xs)
  unfolding sort_by
  mem-sort_by name u [] = refl
  mem-sort_by name u (x ∷ xs) = cc (mem-insert_by name u x (sort_by xs), mem-sort_by name u xs)

  pub distinct-sort_by :
      (name : A → Str) (xs : List A) → distinct (map name (sort_by xs)) ≡ distinct (map name xs)
  unfolding sort_by
  distinct-sort_by name [] = refl
  distinct-sort_by name (x ∷ xs) = ground (
    arith,
    distinct-insert_by name x (sort_by xs),
    distinct-sort_by name xs,
    mem-sort_by name (name x) xs,
  )

  -- Insertions of different keys commute, so the result does not depend on the input's order.
  insert_by_comm :
      (x y : A) (zs : List A)
      → ((o.le (key x) (key y) && o.le (key y) (key x)) ≡ false)
      → insert_by x (insert_by y zs) ≡ insert_by y (insert_by x zs)
  unfolding insert_by
  insert_by_comm x y [] h = ground (arith, o.total (key x) (key y))
  insert_by_comm x y (z ∷ zs) h = ground (
    arith,
    o.total (key x) (key y),
    o.trans (key x) (key y) (key z),
    o.trans (key y) (key x) (key z),
    insert_by_comm x y zs h,
  )

apart : (o : Order Str) (s t : Str) → eq_str s t ≡ false → ((o.le s t && o.le t s) ≡ false)
apart o s t h = elim (Bool-cases (o.le s t && o.le t s)) [
  | inl both ↦ absurd (ne (o.antisym s t (ground arith) (ground arith)))
  | inr no_cycle ↦ no_cycle
]
  where
    ne : s ≡ t → ⊥
    ne e = cc (eq_str_refl s, ap (eq_str s) e)

module _ {ℓ} {A : Type ℓ} (name : A → Str) where
  mem-permᴰ : {xs ys : List A} (u : Str) → Permᴰ xs ys → mem u (map name xs) ≡ mem u (map name ys)
  mem-permᴰ u Permᴰ.nil = refl
  mem-permᴰ u (Permᴰ.cons e p) = cc (mem-permᴰ u p, ap name e)
  mem-permᴰ u (Permᴰ.swap e f) = ground (arith, ap name e, ap name f)
  mem-permᴰ u (Permᴰ.trans p q) = mem-permᴰ u p ∙ mem-permᴰ u q

  distinct-permᴰ : {xs ys : List A} → Permᴰ xs ys → distinct (map name xs) ≡ distinct (map name ys)
  distinct-permᴰ Permᴰ.nil = refl
  distinct-permᴰ (Permᴰ.cons {a = x} e p) = cc (mem-permᴰ (name x) p, distinct-permᴰ p, ap name e)
  distinct-permᴰ (Permᴰ.swap {a = x} {b = y} e f) =
      ground (arith, ap name e, ap name f, eq_str_comm (name x) (name y))
  distinct-permᴰ (Permᴰ.trans p q) = distinct-permᴰ p ∙ distinct-permᴰ q

  -- With distinct names as keys, `sorted` does not see the order of its input.
  pub sort_by-permᴰ :
      (o : Order Str) {xs ys : List A}
      → Permᴰ xs ys
      → distinct (map name xs) ≡ true
      → sort_by o name xs ≡ sort_by o name ys
  unfolding sort_by
  sort_by-permᴰ o Permᴰ.nil d = refl
  sort_by-permᴰ o (Permᴰ.cons {a = x} {l₁ = xs} e p) d =
      ap₂ (insert_by o name) e (sort_by-permᴰ o p (ground arith))
  sort_by-permᴰ o (Permᴰ.swap {a = x} {b = y} {l = l} e f) d =
      insert_by_comm o name x y (sort_by o name l) (apart o (name x) (name y) (ground arith))
      ∙ ap₂ (λ v w. insert_by o name v (insert_by o name w (sort_by o name l))) f e
  sort_by-permᴰ o (Permᴰ.trans p q) d =
      sort_by-permᴰ o p d ∙ sort_by-permᴰ o q (sym (distinct-permᴰ p) ∙ d)

pub length-permᴰ {ℓ} : {A : Type ℓ} {xs ys : List A} → Permᴰ xs ys → length xs ≡ length ys
length-permᴰ Permᴰ.nil = refl
length-permᴰ (Permᴰ.cons e p) = ap suc (length-permᴰ p)
length-permᴰ (Permᴰ.swap e f) = refl
length-permᴰ (Permᴰ.trans p q) = length-permᴰ p ∙ length-permᴰ q

-- The names of a part of `ys` are names of `ys`.
pub All-mem {ℓ} :
    {A : Type ℓ} (name : A → Str) (xs ys : List A)
    → ((u : Str) → mem u (map name xs) ≡ true → mem u (map name ys) ≡ true)
    → All (λ x. mem (name x) (map name ys) ≡ true) xs
All-mem name [] ys f = tt
All-mem name (x ∷ xs) ys f = (
  f (name x) (ground (arith, eq_str_refl (name x))),
  All-mem name xs ys (λ u m. f u (ground (arith, m))),
)
