-- ===== src/Contract/Tests.antt =====
-- A record and a checkpoint, and the theorems at them.
use jobhunt.Prelude.{
  ℕ, ◌+◌, ◌-◌, ◌<◌, ◌≡◌, refl, true, none, some, Option, Str, codes, List, [], ◌∷◌, ◌++◌, arith,
  leb, ◌&&◌, if◌then◌else◌, ℤ,
}
use jobhunt.Contract.Text.{Platform, collapse_whitespace, normalize_text, squash, join_space}
use jobhunt.Queue.Job.{is_space}
use jobhunt.Queue.Freshness.{strip}
use jobhunt.Contract.Posting.{NormalizedPosting, Constructed, construct, normalized, checked}
use jobhunt.Contract.Wire.{to_json_dict, from_json_dict}
use jobhunt.Contract.Roundtrip.{from_json_dict-to_json_dict}
use jobhunt.Contract.Checkpoint.{Checkpoint}

abbrev pair_text : List (Str × Str) → Str
pair_text [] = []
pair_text ((k, v) ∷ m) = k ++ 61 ∷ (v ++ 44 ∷ pair_text m)

abbrev digit : ℕ → Option ℕ
digit c = if leb 48 c && leb c 57 then some (c - 48) else none

-- A platform of ASCII texts.
abbrev platform : Platform
platform = record {
  nfkc = λ s. s;
  lower = λ s. s;
  digit_of = digit;
  urlsplit = λ s. record { scheme = []; hostname = none; port = none; path = s; query = [] };
  parse_qsl = λ s. [];
  urlencode = pair_text;
  urlunsplit = λ scheme host path query. path;
  str_of_nat = λ n. n ∷ [];
  sha256 = λ s. s;
  sha256_json = pair_text;
  uuid5 = λ ns parts. ns;
  new_uid = λ n. n ∷ [];
}

decimal : (k : ℕ) → k < 10 → platform.digit_of (48 + k) ≡ some k
decimal k h = ground arith

collapsed :
    (s : Str)
    → platform.nfkc (collapse_whitespace (platform.nfkc s)) ≡ collapse_whitespace (platform.nfkc s)
collapsed s = refl

abbrev raw : NormalizedPosting
raw = record {
  source_key = codes "gh";
  title = codes " Support  Engineer ";
  company = codes "Acme";
  url = codes "acme/1";
  instance_key = codes "acme";
  location = [];
  req_id = some (codes "1");
  posted_date = some (codes "2026-01-02T10");
  posted_raw = [];
  salary_text = [];
  remote = true;
  description = none;
  alt_urls = codes "a" ∷ codes "a" ∷ [];
  extra = [];
}

abbrev made : NormalizedPosting
made = normalized platform raw

constructed : construct platform raw ≡ Constructed.posting made
unfolding construct checked normalized normalize_text collapse_whitespace squash join_space strip
    is_space
constructed = refl

from_json_dict-to_json_dict_example :
    from_json_dict platform (to_json_dict made) ≡ some (Constructed.posting made)
from_json_dict-to_json_dict_example =
    from_json_dict-to_json_dict platform decimal collapsed raw made constructed

abbrev checkpoint : Checkpoint
checkpoint = record {
  source_key = codes "gh";
  instance_key = codes "acme";
  cursor = (codes "page", codes "3") ∷ [];
  config_fingerprint = codes "f";
  emitted = ℤ.pos 40;
  version = ℤ.pos 1;
}
