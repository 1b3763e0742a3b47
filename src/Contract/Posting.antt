-- ===== src/Contract/Posting.antt =====
-- The record of one posting and its identity claims (webapp/backend/sources/contract.py).
use jobhunt.Prelude.{
  ℕ, Bool, Option, none, some, Str, codes, List, [], ◌∷◌, ◌++◌, map, keep, not, if◌then◌else◌,
  is_empty, or_else, mem,
}
use jobhunt.Queue.Freshness.{strip}
use jobhunt.Store.Rows.{Metadata}
use jobhunt.Store.Presence.{AliasKind}
use jobhunt.Contract.Text.{
  Platform, collapse_whitespace, normalize_text, normalize_date, normalize_url,
}

pub record IdentityClaim : Type 0 where
  pub kind : AliasKind
  pub namespace : Str
  pub value : Str
  pub rank : ℕ
  pub url : Option Str
  pub req_id : Option Str

-- `extra` is a JSON object, its values kept as text.
pub record NormalizedPosting : Type 0 where
  pub source_key : Str
  pub title : Str
  pub company : Str
  pub url : Str
  pub instance_key : Str
  pub location : Str
  pub req_id : Option Str
  pub posted_date : Option Str
  pub posted_raw : Str
  pub salary_text : Str
  pub remote : Bool
  pub description : Option Str
  pub alt_urls : List Str
  pub extra : Metadata

-- The PayloadError of a missing field.
pub data PayloadError : Type 0 where
  no_source_key no_title no_url : PayloadError

pub data Constructed : Type 0 where
  posting : NormalizedPosting → Constructed
  error : PayloadError → Constructed

-- `tuple(dict.fromkeys(texts))`: the first occurrence of each, in order.
unfoldable pub unique_from : List Str → List Str → List Str
unique_from seen [] = []
unique_from seen (u ∷ us) =
    let rest = unique_from (if mem u seen then seen else u ∷ seen) us in
    if mem u seen then rest else u ∷ rest

-- `s or None`.
unfoldable pub or_none : Str → Option Str
or_none [] = none
or_none (c ∷ s) = some (c ∷ s)

unfoldable pub trimmed_urls : List Str → List Str
unfolding unique_from
trimmed_urls us = unique_from [] (keep (λ u. not (is_empty u)) (map strip us))

unfoldable pub checked : NormalizedPosting → Constructed
checked p =
    if is_empty p.source_key
    then Constructed.error PayloadError.no_source_key
    else if is_empty p.title
    then Constructed.error PayloadError.no_title
    else if is_empty p.url
    then Constructed.error PayloadError.no_url
    else Constructed.posting p

unfoldable pub namespace_of : NormalizedPosting → Str
namespace_of p =
    if is_empty p.instance_key then p.source_key else p.source_key ++ 58 ∷ p.instance_key

req_claims : Str → Str → Option Str → List IdentityClaim
unfolding or_none
req_claims namespace key none = []
req_claims namespace key (some r) =
    if is_empty r
    then []
    else record {
      kind = AliasKind.source_req;
      namespace = namespace;
      value = r;
      rank = 0;
      url = or_none key;
      req_id = some r;
    }
      ∷ []

url_claims : Option Str → Str → List IdentityClaim
url_claims req [] = []
url_claims req (c ∷ key) =
    record {
      kind = AliasKind.url;
      namespace = codes "url";
      value = c ∷ key;
      rank = 1;
      url = some (c ∷ key);
      req_id = req;
    }
    ∷ []

module _ (pf : Platform) where
  -- `__post_init__`, before its checks.
  unfoldable pub normalized : NormalizedPosting → NormalizedPosting
  unfolding or_none
  normalized p = record {
    source_key = strip p.source_key;
    title = normalize_text pf (some p.title);
    company = normalize_text pf (some p.company);
    url = strip p.url;
    instance_key = strip p.instance_key;
    location = normalize_text pf (some p.location);
    req_id = or_none (strip (or_else p.req_id []));
    posted_date = normalize_date pf p.posted_date;
    posted_raw = collapse_whitespace p.posted_raw;
    salary_text = normalize_text pf (some p.salary_text);
    remote = p.remote;
    description = p.description;
    alt_urls = trimmed_urls p.alt_urls;
    extra = p.extra;
  }

  unfoldable pub construct : NormalizedPosting → Constructed
  unfolding checked
  construct p = checked (normalized p)

  unfoldable pub url_key : NormalizedPosting → Str
  url_key p = normalize_url pf p.url

  digest_of : Option Str → Str
  digest_of none = []
  digest_of (some s) = if is_empty s then [] else pf.sha256 (collapse_whitespace s)

  -- CANONICAL_HASH_FIELDS, in their order.
  unfoldable pub canonical_fields : NormalizedPosting → List (Str × Str)
  unfolding namespace_of url_key digest_of
  canonical_fields p =
      (codes "source_key", p.source_key)
      ∷ (codes "namespace", namespace_of p)
      ∷ (codes "req_id", or_else p.req_id [])
      ∷ (codes "url_key", url_key p)
      ∷ (codes "title", p.title)
      ∷ (codes "company", p.company)
      ∷ (codes "location", p.location)
      ∷ (codes "posted_date", or_else p.posted_date [])
      ∷ (codes "salary", p.salary_text)
      ∷ (codes "remote", if p.remote then codes "1" else codes "0")
      ∷ (codes "description_digest", digest_of p.description)
      ∷ []

  unfoldable pub content_hash : NormalizedPosting → Str
  unfolding canonical_fields
  content_hash p = codes "sha256:" ++ pf.sha256_json (canonical_fields p)

  unfoldable pub identity_claims : NormalizedPosting → List IdentityClaim
  unfolding namespace_of url_key req_claims url_claims
  identity_claims p =
      req_claims (namespace_of p) (url_key p) p.req_id ++ url_claims p.req_id (url_key p)
