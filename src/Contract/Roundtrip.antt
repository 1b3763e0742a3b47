-- ===== src/Contract/Roundtrip.antt =====
-- What is written as JSON is read back (webapp/backend/sources/contract.py).
use jobhunt.Prelude.{ℕ, ◌+◌, ◌<◌, ◌≡◌, refl, ap, Option, none, some, Str, List, [], ◌∷◌, eq_str}
use jobhunt.Store.Rows.{Metadata}
use jobhunt.Runs.Profile.{find}
use jobhunt.Contract.Text.{Platform, collapse_whitespace}
use jobhunt.Contract.Posting.{NormalizedPosting, Constructed, construct}
use jobhunt.Contract.Normal.{construct_idem}
use jobhunt.Contract.Wire.{
  Json, to_json_dict, from_json_dict, fields_of, text_field, texts_field, object_field,
  optional_field, bool_field, as_text, as_texts, as_object, as_optional, as_bool, truthy_of,
  is_truthy, is_nil, optional_json,
}

pub text_back : (s : Str) → as_text (truthy_of (some (Json.text s))) ≡ some s
unfolding as_text truthy_of is_truthy
text_back [] = refl
text_back (c ∷ s) = refl

texts_back : (us : List Str) → as_texts (truthy_of (some (Json.texts us))) ≡ some us
unfolding as_texts truthy_of is_truthy is_nil
texts_back [] = refl
texts_back (u ∷ us) = refl

pub object_back : (m : Metadata) → as_object (truthy_of (some (Json.object m))) ≡ some m
unfolding as_object truthy_of is_truthy is_nil
object_back [] = refl
object_back (q ∷ m) = refl

optional_back : (o : Option Str) → as_optional (some (optional_json o)) ≡ some o
unfolding as_optional optional_json
optional_back none = refl
optional_back (some s) = refl

fields_of-to_json_dict : (p : NormalizedPosting) → fields_of (to_json_dict p) ≡ some p
unfolding fields_of to_json_dict text_field texts_field object_field optional_field bool_field find
    eq_str as_bool is_truthy
fields_of-to_json_dict p =
    rw
      (
        text_back p.source_key,
        text_back p.instance_key,
        text_back p.title,
        text_back p.company,
        text_back p.url,
        text_back p.location,
        optional_back p.req_id,
        optional_back p.posted_date,
        text_back p.posted_raw,
        text_back p.salary_text,
        optional_back p.description,
        texts_back p.alt_urls,
        object_back p.extra,
      )
      refl

module _ (pf : Platform) (decimal : (k : ℕ) → k < 10 → pf.digit_of (48 + k) ≡ some k)
    (collapsed : (s : Str)
      → pf.nfkc (collapse_whitespace (pf.nfkc s)) ≡ collapse_whitespace (pf.nfkc s)) where
  -- A record that the constructor made is read back from its JSON form as itself, on a platform
  -- whose `\d` reads the ASCII digits and where a text in NFKC stays in NFKC when its white space is
  -- collapsed.
  pub from_json_dict-to_json_dict :
      (p q : NormalizedPosting)
      → construct pf p ≡ Constructed.posting q
      → from_json_dict pf (to_json_dict q) ≡ some (Constructed.posting q)
  unfolding from_json_dict
  from_json_dict-to_json_dict p q h =
      rw (fields_of-to_json_dict q) (ap some (construct_idem pf decimal collapsed p q h))
