-- ===== src/Prelude/Int.antt =====
-- Integers over the native numbers, with Python's order; `negsuc n` is -(n + 1).
use Prim.Native.Nat.{ℕ, zero, suc, ◌+◌, ◌-◌}
use mathlib.Core.Path.{◌≡◌, refl, ap}
use mathlib.Core.Logic.{◌⊎◌, inl, inr}
use mathlib.Core.Bool.{Bool, true, false, not}
use native.Mathlib.Omega.{arith}
use jobhunt.Prelude.Tests.{leb, if◌then◌else◌}
use jobhunt.Prelude.Order.{Order, nat_order}

pub data ℤ : Type 0 where
  pos : ℕ → ℤ
  negsuc : ℕ → ℤ

abbrev pub leb_ℤ : ℤ → ℤ → Bool
leb_ℤ (pos a) (pos b) = leb a b
leb_ℤ (pos a) (negsuc b) = false
leb_ℤ (negsuc a) (pos b) = true
leb_ℤ (negsuc a) (negsuc b) = leb b a

abbrev pub neg : ℤ → ℤ
neg (pos zero) = pos zero
neg (pos (suc n)) = negsuc n
neg (negsuc n) = pos (suc n)

pub int_total : (a b : ℤ) → (leb_ℤ a b ≡ true) ⊎ (leb_ℤ b a ≡ true)
int_total (pos a) (pos b) = nat_order.total a b
int_total (pos a) (negsuc b) = inr refl
int_total (negsuc a) (pos b) = inl refl
int_total (negsuc a) (negsuc b) = nat_order.total b a

pub int_trans : (a b c : ℤ) → leb_ℤ a b ≡ true → leb_ℤ b c ≡ true → leb_ℤ a c ≡ true
int_trans (pos a) (pos b) (pos c) h k = nat_order.trans a b c h k
int_trans (pos a) (pos b) (negsuc c) h k = cc
int_trans (pos a) (negsuc b) c h k = cc
int_trans (negsuc a) (pos b) (pos c) h k = refl
int_trans (negsuc a) (pos b) (negsuc c) h k = cc
int_trans (negsuc a) (negsuc b) (pos c) h k = refl
int_trans (negsuc a) (negsuc b) (negsuc c) h k = nat_order.trans c b a k h

pub int_antisym : (a b : ℤ) → leb_ℤ a b ≡ true → leb_ℤ b a ≡ true → a ≡ b
int_antisym (pos a) (pos b) h k = ap pos (nat_order.antisym a b h k)
int_antisym (pos a) (negsuc b) h k = cc
int_antisym (negsuc a) (pos b) h k = cc
int_antisym (negsuc a) (negsuc b) h k = ap negsuc (nat_order.antisym a b k h)

abbrev pub int_order : Order ℤ
int_order = record { le = leb_ℤ; total = int_total; trans = int_trans; antisym = int_antisym }

abbrev pub ltb_ℤ : ℤ → ℤ → Bool
ltb_ℤ a b = not (leb_ℤ b a)

-- Python's `min` and `max`, which return the first of equal arguments.
abbrev pub min_ℤ : ℤ → ℤ → ℤ
min_ℤ a b = if ltb_ℤ b a then b else a

abbrev pub max_ℤ : ℤ → ℤ → ℤ
max_ℤ a b = if ltb_ℤ a b then b else a

abbrev pub pos_part : ℤ → ℕ
pos_part (pos n) = n
pos_part (negsuc n) = 0

abbrev pub neg_part : ℤ → ℕ
neg_part (pos n) = 0
neg_part (negsuc n) = suc n

-- a - b, as an integer.
abbrev pub sub_ℕ : ℕ → ℕ → ℤ
sub_ℕ a b = if leb b a then pos (a - b) else negsuc (b - a - 1)

infixl 65 ◌+ℤ◌ ◌-ℤ◌
unfoldable pub ◌+ℤ◌ : ℤ → ℤ → ℤ
a +ℤ b = sub_ℕ (pos_part a + pos_part b) (neg_part a + neg_part b)

unfoldable pub ◌-ℤ◌ : ℤ → ℤ → ℤ
a -ℤ b = sub_ℕ (pos_part a + neg_part b) (neg_part a + pos_part b)

pub +ℤ_assoc : (a b c : ℤ) → a +ℤ b +ℤ c ≡ a +ℤ (b +ℤ c)
unfolding ◌+ℤ◌
+ℤ_assoc a b c = ground arith

pub +ℤ_comm : (a b : ℤ) → a +ℤ b ≡ b +ℤ a
unfolding ◌+ℤ◌
+ℤ_comm a b = ground arith

pub +ℤ-zero : (a : ℤ) → a +ℤ pos 0 ≡ a
unfolding ◌+ℤ◌
+ℤ-zero a = ground arith

pub +ℤ-sub : (a b : ℤ) → a +ℤ (b -ℤ a) ≡ b
unfolding ◌+ℤ◌ ◌-ℤ◌
+ℤ-sub a b = ground arith
