-- ===== src/Tests/Bodies.antt =====
-- Concrete bodies of requests: what is removed from them, and what their hash does not see.
use token_flux.Base.{true, false, Option, none, some, [], ◌≡◌, refl, if◌then◌else◌}
use token_flux.Bytes.{Text, codes, text_eq}
use token_flux.Json.{
  Value, number, text, Fields, end, field, Codec, find_field, set_field, delete_field, has_field,
}
use token_flux.Body.{
  ChannelSettings, Hashing, sanitize_fields, compute_cache_hash, strip_if, stripped,
}
use token_flux.Body.Sanitized.{removed, sanitize_fields-removes}
use token_flux.Body.CacheHash.{compute_cache_hash-ignores}

abbrev plain_codec : Codec
plain_codec = record { Body = Fields; decode = λ b. some b; encode = λ b. b }

abbrev raw_text : Option Value → Text
raw_text (some (text s)) = s
raw_text (some (number n)) = n
raw_text v = []

abbrev plain_hashing : Hashing
plain_hashing = record {
  key_json = λ k. k;
  raw = raw_text;
  sort_strings = λ ks. ks;
  sha256_hex = λ s. s;
}

abbrev strict_settings : ChannelSettings
strict_settings = record {
  pass_through_body_enabled = false;
  system_prompt = [];
  system_prompt_override = false;
  allow_service_tier = false;
  allow_inference_geo = false;
  allow_speed = true;
  disable_store = true;
  allow_safety_identifier = false;
}

abbrev cold_body : Fields
cold_body = field (codes "model") (text (codes "m")) (
    field (codes "temperature") (number (codes "0")) (
      field (codes "service_tier") (text (codes "flex"))
        (field (codes "speed") (text (codes "fast")) end)))

abbrev hot_body : Fields
hot_body = set_field (codes "temperature") (number (codes "1")) cold_body

sanitize_fields-removes_example :
    (gs : Fields) × (some (sanitize_fields plain_codec cold_body strict_settings) ≡ some gs)
    × ((k : Text)
        → find_field k gs ≡ (if removed strict_settings k then none else find_field k cold_body))
sanitize_fields-removes_example =
    sanitize_fields-removes plain_codec cold_body strict_settings cold_body (λ gs. refl) refl refl

speed_stays :
    sanitize_fields plain_codec cold_body strict_settings
    ≡ delete_field (codes "service_tier") cold_body
unfolding delete_field sanitize_fields text_eq stripped strip_if has_field
speed_stays = refl

compute_cache_hash-ignores_example :
    compute_cache_hash plain_codec plain_hashing (λ b. []) hot_body (codes "m")
    ≡ compute_cache_hash plain_codec plain_hashing (λ b. []) cold_body (codes "m")
unfolding token_flux.Bytes.member text_eq
compute_cache_hash-ignores_example =
    compute_cache_hash-ignores plain_codec plain_hashing (λ b. []) cold_body hot_body (codes "m")
      (codes "temperature") (number (codes "1")) cold_body refl refl refl
