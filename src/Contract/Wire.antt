-- ===== src/Contract/Wire.antt =====
-- The JSON forms of a record and of a checkpoint (webapp/backend/sources/contract.py). A nested
-- object keeps its values as text.
use jobhunt.Prelude.{
  Bool, true, false, not, Option, none, some, Str, codes, List, [], ◌∷◌, if◌then◌else◌, is_empty, ℤ,
  zero, suc, ◌>>=◌,
}
use jobhunt.Store.Rows.{Metadata}
use jobhunt.Runs.Profile.{find}
use jobhunt.Contract.Text.{Platform}
use jobhunt.Contract.Posting.{NormalizedPosting, Constructed, construct}

pub data Json : Type 0 where
  null : Json
  boolean : Bool → Json
  number : ℤ → Json
  text : Str → Json
  texts : List Str → Json
  object : Metadata → Json

abbrev pub Payload : Type 0
Payload = List (Str × Json)

unfoldable pub is_nil {ℓ} : {A : Type ℓ} → List A → Bool
is_nil [] = true
is_nil (x ∷ xs) = false

unfoldable pub is_truthy : Json → Bool
unfolding is_nil
is_truthy Json.null = false
is_truthy (Json.boolean b) = b
is_truthy (Json.number (ℤ.pos zero)) = false
is_truthy (Json.number (ℤ.pos (suc n))) = true
is_truthy (Json.number (ℤ.negsuc n)) = true
is_truthy (Json.text s) = not (is_empty s)
is_truthy (Json.texts us) = not (is_nil us)
is_truthy (Json.object m) = not (is_nil m)

-- `payload.get(k) or ...`.
unfoldable pub truthy_of : Option Json → Option Json
unfolding is_truthy
truthy_of none = none
truthy_of (some v) = if is_truthy v then some v else none

-- The readers of a field. Their `none` is a value of another type, which the reader refuses where
-- Python goes on until something uses it.
unfoldable pub as_text : Option Json → Option Str
as_text none = some []
as_text (some (Json.text s)) = some s
as_text (some _) = none

unfoldable pub as_texts : Option Json → Option (List Str)
as_texts none = some []
as_texts (some (Json.texts us)) = some us
as_texts (some _) = none

unfoldable pub as_object : Option Json → Option Metadata
as_object none = some []
as_object (some (Json.object m)) = some m
as_object (some _) = none

-- A field that is handed on as it is.
unfoldable pub as_optional : Option Json → Option (Option Str)
as_optional none = some none
as_optional (some Json.null) = some none
as_optional (some (Json.text s)) = some (some s)
as_optional (some _) = none

unfoldable pub as_bool : Option Json → Bool
unfolding is_truthy
as_bool none = false
as_bool (some v) = is_truthy v

unfoldable pub text_field : Payload → Str → Option Str
unfolding as_text truthy_of
text_field payload k = as_text (truthy_of (find k payload))

unfoldable pub texts_field : Payload → Str → Option (List Str)
unfolding as_texts truthy_of
texts_field payload k = as_texts (truthy_of (find k payload))

unfoldable pub object_field : Payload → Str → Option Metadata
unfolding as_object truthy_of
object_field payload k = as_object (truthy_of (find k payload))

unfoldable pub optional_field : Payload → Str → Option (Option Str)
unfolding as_optional
optional_field payload k = as_optional (find k payload)

unfoldable pub bool_field : Payload → Str → Bool
unfolding as_bool
bool_field payload k = as_bool (find k payload)

-- `None` in JSON.
unfoldable pub optional_json : Option Str → Json
optional_json none = Json.null
optional_json (some s) = Json.text s

unfoldable pub to_json_dict : NormalizedPosting → Payload
unfolding optional_json
to_json_dict p =
    (codes "source_key", Json.text p.source_key)
    ∷ (codes "instance_key", Json.text p.instance_key)
    ∷ (codes "title", Json.text p.title)
    ∷ (codes "company", Json.text p.company)
    ∷ (codes "url", Json.text p.url)
    ∷ (codes "location", Json.text p.location)
    ∷ (codes "req_id", optional_json p.req_id)
    ∷ (codes "posted_date", optional_json p.posted_date)
    ∷ (codes "posted_raw", Json.text p.posted_raw)
    ∷ (codes "salary_text", Json.text p.salary_text)
    ∷ (codes "remote", Json.boolean p.remote)
    ∷ (codes "description", optional_json p.description)
    ∷ (codes "alt_urls", Json.texts p.alt_urls)
    ∷ (codes "extra", Json.object p.extra)
    ∷ []

-- The fields that the constructor is called with.
unfoldable pub fields_of : Payload → Option NormalizedPosting
fields_of payload = do
  source_key ← text_field payload (codes "source_key")
  instance_key ← text_field payload (codes "instance_key")
  title ← text_field payload (codes "title")
  company ← text_field payload (codes "company")
  url ← text_field payload (codes "url")
  location ← text_field payload (codes "location")
  req_id ← optional_field payload (codes "req_id")
  posted_date ← optional_field payload (codes "posted_date")
  posted_raw ← text_field payload (codes "posted_raw")
  salary_text ← text_field payload (codes "salary_text")
  description ← optional_field payload (codes "description")
  alt_urls ← texts_field payload (codes "alt_urls")
  extra ← object_field payload (codes "extra")
  some (record {
    source_key = source_key;
    title = title;
    company = company;
    url = url;
    instance_key = instance_key;
    location = location;
    req_id = req_id;
    posted_date = posted_date;
    posted_raw = posted_raw;
    salary_text = salary_text;
    remote = bool_field payload (codes "remote");
    description = description;
    alt_urls = alt_urls;
    extra = extra;
  })

module _ (pf : Platform) where
  -- `none` is a value of the wrong type; the error of the constructor is its own.
  unfoldable pub from_json_dict : Payload → Option Constructed
  unfolding fields_of
  from_json_dict payload = do p ← fields_of payload; some (construct pf p)
