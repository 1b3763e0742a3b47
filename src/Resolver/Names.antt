-- ===== src/Resolver/Names.antt =====
-- The pure normalizers of a company, a title and a location
-- (webapp/backend/sources/resolver.py).
use jobhunt.Prelude.{
  ℕ, ◌*◌, Bool, true, false, not, ◌&&◌, ◌||◌, Option, Str, codes, List, [], ◌∷◌, ◌++◌, mem, keep,
  length, leb, if◌then◌else◌, or_else,
}
use jobhunt.Contract.Text.{Platform}

-- `[a-z0-9]`.
is_token : ℕ → Bool
is_token c = (leb 48 c && leb c 57) || (leb 97 c && leb c 122)

flush : Str → List Str → List Str
flush [] ws = ws
flush (c ∷ w) ws = (c ∷ w) ∷ ws

-- The token that the text begins with, and the later ones.
words : Str → Str × List Str
unfolding is_token flush
words [] = ([], [])
words (c ∷ s) =
    let rest = words s in if is_token c then (c ∷ rest.0, rest.1) else ([], flush rest.0 rest.1)

-- `" ".join`.
join_words : List Str → Str
join_words [] = []
join_words (w ∷ []) = w
join_words (w ∷ v ∷ ws) = w ++ 32 ∷ join_words (v ∷ ws)

-- `frozenset`, without repetitions.
unfoldable pub to_set : List Str → List Str
to_set [] = []
to_set (w ∷ ws) = let rest = to_set ws in if mem w rest then rest else w ∷ rest

unfoldable pub intersection : List Str → List Str → List Str
intersection a b = keep (λ w. mem w b) a

unfoldable pub union : List Str → List Str → List Str
union a b = a ++ keep (λ w. not (mem w a)) b

unfoldable pub is_nil : List Str → Bool
is_nil [] = true
is_nil (w ∷ ws) = false

-- _COMPANY_NOISE.
abbrev company_noise : List Str
company_noise =
    codes "inc"
    ∷ codes "incorporated"
    ∷ codes "llc"
    ∷ codes "llp"
    ∷ codes "ltd"
    ∷ codes "limited"
    ∷ codes "corp"
    ∷ codes "corporation"
    ∷ codes "co"
    ∷ codes "company"
    ∷ codes "plc"
    ∷ codes "gmbh"
    ∷ codes "ag"
    ∷ codes "sa"
    ∷ codes "nv"
    ∷ codes "bv"
    ∷ codes "oy"
    ∷ codes "ab"
    ∷ codes "as"
    ∷ codes "pty"
    ∷ codes "group"
    ∷ codes "holdings"
    ∷ codes "holding"
    ∷ codes "the"
    ∷ []

-- |A ∩ B| over |A ∪ B|, as its two counts; 0 over 1 when either is empty.
unfoldable pub jaccard : List Str → List Str → ℕ × ℕ
unfolding is_nil
jaccard a b =
    if is_nil a || is_nil b then (0, 1) else (length (intersection a b), length (union a b))

-- `>= MIN_TITLE_JACCARD`, which is 3/4 and exact in binary.
unfoldable pub is_close : ℕ × ℕ → Bool
is_close (n, d) = leb (3 * d) (4 * n)

unfoldable pub do_not_contradict : List Str → List Str → Bool
unfolding is_nil
do_not_contradict a b = (is_nil a || is_nil b) || not (is_nil (intersection a b))

module _ (pf : Platform) where
  unfoldable pub tokens : Option Str → List Str
  unfolding words flush
  tokens value = let found = words (pf.lower (pf.nfkc (or_else value []))) in flush found.0 found.1

  unfoldable pub company_key : Option Str → Str
  unfolding join_words
  company_key name = join_words (keep (λ t. not (mem t company_noise)) (tokens name))

  unfoldable pub normalized_title : Option Str → Str
  unfolding join_words
  normalized_title title = join_words (tokens title)

  unfoldable pub title_tokens : Option Str → List Str
  title_tokens title = to_set (tokens title)

  unfoldable pub title_jaccard : Option Str → Option Str → ℕ × ℕ
  title_jaccard left right = jaccard (title_tokens left) (title_tokens right)

  -- MIN_LOCATION_TOKEN is 3.
  unfoldable pub location_tokens : Option Str → List Str
  location_tokens location = to_set (keep (λ t. leb 3 (length t)) (tokens location))

  unfoldable pub locations_compatible : Option Str → Option Str → Bool
  locations_compatible left right = do_not_contradict (location_tokens left) (location_tokens right)
