-- ===== src/Contract/Checkpoint.antt =====
-- The checkpoint of a target and its JSON form (webapp/backend/sources/contract.py).
use jobhunt.Prelude.{
  Bool, ◌&&◌, Option, none, some, Str, codes, [], ◌∷◌, if◌then◌else◌, is_empty, ℤ, leb_ℤ, ◌>>=◌,
}
use jobhunt.Queue.Freshness.{strip}
use jobhunt.Store.Rows.{Metadata}
use jobhunt.Runs.Profile.{find}
use jobhunt.Contract.Wire.{Json, Payload, text_field, object_field, truthy_of}

-- Checkpoint, whose `emitted` may be below zero only before its check.
pub record Checkpoint : Type 0 where
  pub source_key : Str
  pub instance_key : Str
  pub cursor : Metadata
  pub config_fingerprint : Str
  pub emitted : ℤ
  pub version : ℤ

-- `__post_init__`: `none` is its ValueError.
unfoldable pub new_checkpoint : Checkpoint → Option Checkpoint
new_checkpoint c = if leb_ℤ (ℤ.pos 0) c.emitted then some c else none

unfoldable pub to_json_dict : Checkpoint → Payload
to_json_dict c =
    (codes "version", Json.number c.version)
    ∷ (codes "source_key", Json.text c.source_key)
    ∷ (codes "instance_key", Json.text c.instance_key)
    ∷ (codes "cursor", Json.object c.cursor)
    ∷ (codes "config_fingerprint", Json.text c.config_fingerprint)
    ∷ (codes "emitted", Json.number c.emitted)
    ∷ []

abbrev pub current_version : ℤ
current_version = ℤ.pos 1

unfoldable pub eq_ℤ : ℤ → ℤ → Bool
eq_ℤ a b = leb_ℤ a b && leb_ℤ b a

-- `int_of` is `int` of a text, `none` its ValueError, and `loads` is `json.loads`, `none` its ValueError.
module _ (int_of : Str → Option ℤ) where
  unfoldable pub as_int : Option Json → Option ℤ
  as_int none = some (ℤ.pos 0)
  as_int (some Json.null) = none
  as_int (some (Json.boolean b)) = some (if b then ℤ.pos 1 else ℤ.pos 0)
  as_int (some (Json.number n)) = some n
  as_int (some (Json.text s)) = int_of s
  as_int (some (Json.texts us)) = none
  as_int (some (Json.object m)) = none

  -- `int(payload.get(k) or 0)`.
  unfoldable pub int_field : Payload → Str → Option ℤ
  unfolding as_int truthy_of
  int_field payload k = as_int (truthy_of (find k payload))

  unfoldable pub checkpoint_fields : ℤ → Payload → Option Checkpoint
  unfolding int_field
  checkpoint_fields version payload = do
    source_key ← text_field payload (codes "source_key")
    instance_key ← text_field payload (codes "instance_key")
    cursor ← object_field payload (codes "cursor")
    config_fingerprint ← text_field payload (codes "config_fingerprint")
    emitted ← int_field payload (codes "emitted")
    new_checkpoint (record {
      source_key = source_key;
      instance_key = instance_key;
      cursor = cursor;
      config_fingerprint = config_fingerprint;
      emitted = emitted;
      version = version;
    })

  unfoldable pub from_json_dict : Payload → Option Checkpoint
  unfolding checkpoint_fields eq_ℤ
  from_json_dict payload = do
    version ← int_field payload (codes "version")
    if eq_ℤ version current_version then checkpoint_fields version payload else none

module _ (int_of : Str → Option ℤ) (loads : Str → Option Payload) where
  -- `from_json`: no text, or a blank one, is no checkpoint.
  unfoldable pub from_json : Option Str → Option (Option Checkpoint)
  from_json none = some none
  from_json (some blob) =
      if is_empty (strip blob)
      then some none
      else do payload ← loads blob; c ← from_json_dict int_of payload; some (some c)
