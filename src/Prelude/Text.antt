-- ===== src/Prelude/Text.antt =====
-- A Python `str` as the sequence of its code points, which is what its comparison reads.
use Prim.Native.Nat.{ℕ}
use Prim.Native.Char.{code}
use Prim.Native.String.{String}
use mathlib.Core.Path.{◌≡◌, refl}
use mathlib.Core.Bool.{Bool, true, false, not, ◌&&◌, ◌||◌}
use mathlib.Core.List.{List, [], ◌∷◌}
use mathlib.Core.Option.{Option, none, some}
use native.Mathlib.Omega.{arith}
use jobhunt.Prelude.Tests.{◌==◌}

abbrev pub Str : Type 0
Str = List ℕ

abbrev pub codes : String → Str
codes String.[] = []
codes (String.◌∷◌ c s) = code c ∷ codes s

unfoldable pub eq_str : Str → Str → Bool
eq_str [] [] = true
eq_str [] (b ∷ t) = false
eq_str (a ∷ s) [] = false
eq_str (a ∷ s) (b ∷ t) = a == b && eq_str s t

pub eq_str_refl : (s : Str) → eq_str s s ≡ true
unfolding eq_str
eq_str_refl [] = refl
eq_str_refl (a ∷ s) = ground (arith, eq_str_refl s)

pub eq_str→≡ : (s t : Str) → eq_str s t ≡ true → s ≡ t
unfolding eq_str
eq_str→≡ [] [] h = refl
eq_str→≡ [] (b ∷ t) h = cc
eq_str→≡ (a ∷ s) [] h = cc
eq_str→≡ (a ∷ s) (b ∷ t) h = ground (arith, eq_str→≡ s t)

pub eq_str_comm : (s t : Str) → eq_str s t ≡ eq_str t s
unfolding eq_str
eq_str_comm [] [] = refl
eq_str_comm [] (b ∷ t) = refl
eq_str_comm (a ∷ s) [] = refl
eq_str_comm (a ∷ s) (b ∷ t) = ground (arith, eq_str_comm s t)

-- `u in set`, for a set of texts, and the absence of repetitions.
abbrev pub mem : Str → List Str → Bool
mem u [] = false
mem u (v ∷ vs) = eq_str u v || mem u vs

abbrev pub distinct : List Str → Bool
distinct [] = true
distinct (v ∷ vs) = not (mem v vs) && distinct vs

-- The truth of a text, and `s or ""` for an optional one.
abbrev pub is_empty : Str → Bool
is_empty [] = true
is_empty (c ∷ s) = false

abbrev pub text_or : Option Str → Str → Str
text_or none d = d
text_or (some []) d = d
text_or (some (c ∷ s)) d = c ∷ s
