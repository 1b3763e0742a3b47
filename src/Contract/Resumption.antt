-- ===== src/Contract/Resumption.antt =====
-- A checkpoint that is written is read back, or refused for its version
-- (webapp/backend/sources/contract.py).
use jobhunt.Prelude.{
  ◌≡◌, refl, Bool, true, false, Option, none, some, Str, codes, eq_str, if◌then◌else◌, ℤ, zero, suc,
}
use jobhunt.Runs.Profile.{find}
use jobhunt.Contract.Wire.{Json, text_field, object_field, truthy_of, is_truthy}
use jobhunt.Contract.Roundtrip.{text_back, object_back}
use jobhunt.Contract.Checkpoint.{
  Checkpoint, new_checkpoint, to_json_dict, from_json_dict, checkpoint_fields, int_field, as_int,
  eq_ℤ, current_version,
}

-- `int_of` is `int` of a text.
module _ (int_of : Str → Option ℤ) where
  pub int_back : (n : ℤ) → as_int int_of (truthy_of (some (Json.number n))) ≡ some n
  unfolding as_int truthy_of is_truthy
  int_back (ℤ.pos zero) = refl
  int_back (ℤ.pos (suc n)) = refl
  int_back (ℤ.negsuc n) = refl

  version_back :
      (c : Checkpoint) → int_field int_of (to_json_dict c) (codes "version") ≡ some c.version
  unfolding int_field to_json_dict find eq_str
  version_back c = int_back c.version

  checkpoint_fields_back :
      (c : Checkpoint) → checkpoint_fields int_of c.version (to_json_dict c) ≡ new_checkpoint c
  unfolding checkpoint_fields to_json_dict text_field object_field int_field find eq_str
  checkpoint_fields_back c =
      rw
        (
          text_back c.source_key,
          text_back c.instance_key,
          object_back c.cursor,
          text_back c.config_fingerprint,
          int_back c.emitted,
        )
        refl

  -- Any checkpoint's JSON object is read back as the checkpoint when it has the current version and
  -- its constructor accepts it, and is refused otherwise.
  pub from_json_dict_back :
      (c : Checkpoint)
      → from_json_dict int_of (to_json_dict c)
        ≡ (if eq_ℤ c.version current_version then new_checkpoint c else none)
  unfolding from_json_dict
  from_json_dict_back c = rw (version_back c) (gated c (eq_ℤ c.version current_version))
    where
      gated :
          (c : Checkpoint) (b : Bool)
          → (if b then checkpoint_fields int_of c.version (to_json_dict c) else none)
            ≡ (if b then new_checkpoint c else none)
      gated c true = checkpoint_fields_back c
      gated c false = refl
