-- ===== src/Contract/Text.antt =====
-- The normalization primitives of a record (webapp/backend/sources/contract.py). What they take
-- from Python's own libraries is the record Platform.
use jobhunt.Prelude.{
  ℕ, ◌+◌, ◌*◌, ◌/◌, ◌%◌, Bool, true, false, not, ◌&&◌, ◌||◌, Option, none, some, Str, codes, List,
  [], ◌∷◌, ◌++◌, ◌==◌, leb, if◌then◌else◌, is_empty, eq_str, mem, or_else, keep, text_or,
  list_order, nat_order, sort_by,
}
use jobhunt.Queue.Job.{is_space}
use jobhunt.Queue.Freshness.{strip}

-- `urllib.parse.urlsplit`, as far as a URL key reads it.
pub record Parts : Type 0 where
  pub scheme : Str
  pub hostname : Option Str
  pub port : Option ℕ
  pub path : Str
  pub query : Str

-- The standard library: Unicode and URL functions, hashing, and the drawing of ids.
pub record Platform : Type 0 where
  -- `unicodedata.normalize("NFKC", _)` and `str.lower`.
  pub nfkc : Str → Str
  pub lower : Str → Str
  -- The value of a character that `\d` matches, which is what `int` reads.
  pub digit_of : ℕ → Option ℕ
  pub urlsplit : Str → Parts
  pub parse_qsl : Str → List (Str × Str)
  pub urlencode : List (Str × Str) → Str
  pub urlunsplit : Str → Str → Str → Str → Str
  pub str_of_nat : ℕ → Str
  -- The hexadecimal SHA-256 of a text and of the JSON text of a list of pairs.
  pub sha256 : Str → Str
  pub sha256_json : List (Str × Str) → Str
  -- `uuid.uuid5` in a namespace, of the JSON text of a list.
  pub uuid5 : Str → List Str → Str
  -- The uuid4 that is drawn when so many rows stand in the table.
  pub new_uid : ℕ → Str

-- A run of white space becomes one space: the rest begins with a space when the run goes on.
unfoldable pub join_space : Str → Str
join_space [] = 32 ∷ []
join_space (d ∷ s) = if d == 32 then d ∷ s else 32 ∷ d ∷ s

unfoldable pub squash : Str → Str
unfolding join_space
squash [] = []
squash (c ∷ s) = let rest = squash s in if is_space c then join_space rest else c ∷ rest

unfoldable pub collapse_whitespace : Str → Str
unfolding squash
collapse_whitespace s = strip (squash s)

-- `f"{n:04d}"` and `f"{n:02d}"` of a number that has no more digits.
unfoldable pub pad2 : ℕ → Str
pad2 n = (48 + n / 10 % 10) ∷ (48 + n % 10) ∷ []

unfoldable pub pad4 : ℕ → Str
unfolding pad2
pad4 n = pad2 (n / 100) ++ pad2 (n % 100)

unfoldable pub is_calendar : ℕ → ℕ → ℕ → Bool
is_calendar y m d = (leb 1970 y && leb y 2100) && ((leb 1 m && leb m 12) && (leb 1 d && leb d 31))

-- The date of the three numbers, when they are in range.
unfoldable pub date_text : ℕ → ℕ → ℕ → Option Str
unfolding is_calendar pad4 pad2
date_text y m d = if is_calendar y m d then some (pad4 y ++ 45 ∷ (pad2 m ++ 45 ∷ pad2 d)) else none

unfoldable pub two : Option ℕ → Option ℕ → Option ℕ
two (some a) (some b) = some (a * 10 + b)
two (some a) none = none
two none b = none

unfoldable pub join4 : Option ℕ → Option ℕ → Option ℕ
join4 (some a) (some b) = some (a * 100 + b)
join4 (some a) none = none
join4 none b = none

unfoldable pub date_of : Option ℕ → Option ℕ → Option ℕ → Option Str
unfolding date_text
date_of (some y) (some m) (some d) = date_text y m d
date_of (some y) (some m) none = none
date_of (some y) none d = none
date_of none m d = none

unfoldable pub starts_with : Str → Str → Bool
starts_with [] s = true
starts_with (c ∷ p) [] = false
starts_with (c ∷ p) (d ∷ s) = c == d && starts_with p s

-- `path.rstrip("/")`.
rstrip_slash : Str → Str
rstrip_slash [] = []
rstrip_slash (c ∷ s) =
    let rest = rstrip_slash s in if c == 47 && is_empty rest then [] else c ∷ rest

sort_pairs : List (Str × Str) → List (Str × Str)
sort_pairs qs = sort_by (list_order (list_order nat_order)) (λ q. q.0 ∷ q.1 ∷ []) qs

is_default_port : Str → ℕ → Bool
is_default_port scheme port =
    (eq_str scheme (codes "http") && port == 80) || (eq_str scheme (codes "https") && port == 443)

-- TRACKING_PARAMS and _TRACKING_PREFIXES.
is_tracking : Str → Bool
unfolding starts_with
is_tracking k =
    mem k (
      codes "gclid"
      ∷ codes "fbclid"
      ∷ codes "mc_cid"
      ∷ codes "mc_eid"
      ∷ codes "gh_src"
      ∷ codes "igshid"
      ∷ codes "_ga"
      ∷ codes "_gl"
      ∷ codes "trk"
      ∷ codes "trackingid"
      ∷ codes "ref_src"
      ∷ [])
    || starts_with (codes "utm_") k

module _ (pf : Platform) where
  -- A port that is missing, zero or the default of the scheme is left out.
  with_port : Str → Str → Option ℕ → Str
  unfolding is_default_port
  with_port host scheme none = host
  with_port host scheme (some n) =
      if not (n == 0) && not (is_default_port scheme n) then host ++ 58 ∷ pf.str_of_nat n else host

  unfoldable pub normalize_text : Option Str → Str
  unfolding collapse_whitespace
  normalize_text none = []
  normalize_text (some s) = if is_empty s then [] else collapse_whitespace (pf.nfkc s)

  -- _ISO_DATE_RE: four digits, a dash, two digits, a dash, two digits, and anything.
  unfoldable pub iso_date : Str → Option Str
  unfolding two join4 date_of
  iso_date (a ∷ b ∷ c ∷ d ∷ e ∷ f ∷ g ∷ h ∷ i ∷ j ∷ s) =
      if (e == 45) && (h == 45)
      then date_of
          (join4 (two (pf.digit_of a) (pf.digit_of b)) (two (pf.digit_of c) (pf.digit_of d)))
          (two (pf.digit_of f) (pf.digit_of g)) (two (pf.digit_of i) (pf.digit_of j))
      else none
  iso_date _ = none

  unfoldable pub normalize_date : Option Str → Option Str
  unfolding iso_date
  normalize_date none = none
  normalize_date (some s) = iso_date (strip s)

  host_of : Parts → Str
  unfolding with_port
  host_of p = with_port (pf.lower (or_else p.hostname [])) p.scheme p.port

  url_of : Str → Parts → Str
  unfolding host_of is_tracking sort_pairs rstrip_slash
  url_of raw p =
      if not (eq_str p.scheme (codes "http") || eq_str p.scheme (codes "https"))
      then raw
      else pf.urlunsplit (pf.lower p.scheme) (host_of p)
          (text_or (some (rstrip_slash p.path)) (47 ∷ []))
          (pf.urlencode
            (sort_pairs (keep (λ q. not (is_tracking (pf.lower q.0))) (pf.parse_qsl p.query))))

  unfoldable pub normalize_url : Str → Str
  unfolding url_of
  normalize_url url =
      if is_empty (strip url) then [] else url_of (strip url) (pf.urlsplit (strip url))
