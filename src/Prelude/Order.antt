-- ===== src/Prelude/Order.antt =====
-- Total orders by a Boolean test, and the stable sort that `sorted(key=...)` is.
use Prim.Native.Nat.{ℕ}
use mathlib.Core.Path.{◌≡◌, refl}
use mathlib.Core.Logic.{◌⊎◌, inl, inr}
use mathlib.Core.Bool.{Bool, true, false, not, ◌&&◌, ◌||◌}
use mathlib.Core.List.{List, [], ◌∷◌}
use native.Mathlib.Omega.{arith}
use jobhunt.Prelude.Tests.{leb}

pub record Order {ℓ} (A : Type ℓ) : Type ℓ where
  pub le : A → A → Bool
  pub total : (a b : A) → (le a b ≡ true) ⊎ (le b a ≡ true)
  pub trans : (a b c : A) → le a b ≡ true → le b c ≡ true → le a c ≡ true
  pub antisym : (a b : A) → le a b ≡ true → le b a ≡ true → a ≡ b

pub nat_total : (a b : ℕ) → (leb a b ≡ true) ⊎ (leb b a ≡ true)
nat_total a b = ground arith

pub nat_trans : (a b c : ℕ) → leb a b ≡ true → leb b c ≡ true → leb a c ≡ true
nat_trans a b c h k = ground arith

pub nat_antisym : (a b : ℕ) → leb a b ≡ true → leb b a ≡ true → a ≡ b
nat_antisym a b h k = ground arith

abbrev pub nat_order : Order ℕ
nat_order = record { le = leb; total = nat_total; trans = nat_trans; antisym = nat_antisym }

-- Lexicographic comparison, of texts and of tuples of equal length.
module _ {ℓ} {A : Type ℓ} (o : Order A) where
  open o use {le}

  unfoldable pub le_list : List A → List A → Bool
  le_list [] ys = true
  le_list (x ∷ xs) [] = false
  le_list (x ∷ xs) (y ∷ ys) = le x y && (not (le y x) || le_list xs ys)

  pub le_list_total : (xs ys : List A) → (le_list xs ys ≡ true) ⊎ (le_list ys xs ≡ true)
  unfolding le_list
  le_list_total [] ys = inl refl
  le_list_total (x ∷ xs) [] = inr refl
  le_list_total (x ∷ xs) (y ∷ ys) = ground (arith, o.total x y, le_list_total xs ys)

  pub le_list_trans :
      (xs ys zs : List A) → le_list xs ys ≡ true → le_list ys zs ≡ true → le_list xs zs ≡ true
  unfolding le_list
  le_list_trans [] ys zs h k = refl
  le_list_trans (x ∷ xs) [] zs h k = cc
  le_list_trans (x ∷ xs) (y ∷ ys) [] h k = cc
  le_list_trans (x ∷ xs) (y ∷ ys) (z ∷ zs) h k =
      ground (arith, o.trans x y z, o.trans y z x, o.trans z x y, le_list_trans xs ys zs)

  pub le_list_antisym : (xs ys : List A) → le_list xs ys ≡ true → le_list ys xs ≡ true → xs ≡ ys
  unfolding le_list
  le_list_antisym [] [] h k = refl
  le_list_antisym [] (y ∷ ys) h k = cc
  le_list_antisym (x ∷ xs) [] h k = cc
  le_list_antisym (x ∷ xs) (y ∷ ys) h k = ground (arith, o.antisym x y, le_list_antisym xs ys)

  abbrev pub list_order : Order (List A)
  list_order = record {
    le = le_list;
    total = le_list_total;
    trans = le_list_trans;
    antisym = le_list_antisym;
  }
