-- ===== src/Body.antt =====
-- The bodies of requests before they are sent upstream: server/internal/relay/helper/sanitize.go,
-- server/internal/relay/common/cache_hash.go, and in Body/Prompt server/internal/relay/helper/system_prompt.go.
-- The JSON and hash libraries are parameters.
pub mod Prompt
pub mod Sanitized
pub mod CacheHash
use token_flux.Base.{
  Bool, true, false, not, ◌&&◌, Option, none, some, List, [], ◌∷◌, ◌++◌, if◌then◌else◌,
}
use token_flux.Bytes.{Text, codes, text_eq}
use token_flux.Json.{Value, Fields, end, field, Codec, has_field, find_field, delete_field}

-- The fields of `common.ChannelSettings` that the code below reads.
pub record ChannelSettings : Type 0 where
  pub pass_through_body_enabled : Bool
  pub system_prompt : Text
  pub system_prompt_override : Bool
  pub allow_service_tier : Bool
  pub allow_inference_geo : Bool
  pub allow_speed : Bool
  pub disable_store : Bool
  pub allow_safety_identifier : Bool

-- One of the tests of `SanitizeFields`: `data` and `changed` after it.
unfoldable pub strip_if : Bool → Text → Fields × Bool → Fields × Bool
strip_if refused name (fs, changed) =
    if refused && has_field name fs then (delete_field name fs, true) else (fs, changed)

unfoldable pub stripped : ChannelSettings → Fields → Fields × Bool
stripped s fs = strip_if (not s.allow_safety_identifier) (codes "safety_identifier") (
    strip_if s.disable_store (codes "store") (
      strip_if (not s.allow_speed) (codes "speed") (
        strip_if (not s.allow_inference_geo) (codes "inference_geo")
          (strip_if (not s.allow_service_tier) (codes "service_tier") (fs, false)))))

-- The keys that `range excludeCacheFields` meets: all of them, whatever they are mapped to.
abbrev pub exclude_cache_fields : List Text
exclude_cache_fields =
    codes "stream"
    ∷ codes "seed"
    ∷ codes "user"
    ∷ codes "request_id"
    ∷ codes "top_logprobs"
    ∷ codes "logprobs"
    ∷ codes "n"
    ∷ codes "frequency_penalty"
    ∷ codes "presence_penalty"
    ∷ codes "temperature"
    ∷ codes "max_tokens"
    ∷ codes "max_completion_tokens"
    ∷ []

unfoldable pub delete_fields : List Text → Fields → Fields
delete_fields [] fs = fs
delete_fields (k ∷ ks) fs = delete_fields ks (delete_field k fs)

unfoldable pub keys_of : Fields → List Text
keys_of end = []
keys_of (field k v fs) = k ∷ keys_of fs

-- What `ComputeCacheHash` takes from elsewhere: the bytes of a body, `json.Marshal` of a key, the raw text of
-- a value (of nothing for a key that is not there), `sort.Strings`, and SHA-256 in hexadecimal.
pub record Hashing : Type 0 where
  pub key_json : Text → Text
  pub raw : Option Value → Text
  pub sort_strings : List Text → List Text
  pub sha256_hex : Text → Text

unfoldable pub joined : Hashing → Fields → Text → List Text → Text
joined h fs buf [] = buf
joined h fs buf (k ∷ ks) =
    let comma = if text_eq buf [] then [] else codes "," in
    joined h fs (buf ++ comma ++ h.key_json k ++ codes ":" ++ h.raw (find_field k fs)) ks

-- `ComputeCacheHash` after the fields are removed, and after the body is decoded.
unfoldable pub hash_kept : Hashing → Text → Fields → Text
hash_kept h model_name kept =
    h.sha256_hex (model_name ++ joined h kept [] (h.sort_strings (keys_of kept)))

unfoldable pub hash_fields : Hashing → Fields → Text → Text
hash_fields h fs model_name = hash_kept h model_name (delete_fields exclude_cache_fields fs)

module _ (C : Codec) where
  abbrev pub rewritten : C.Body → Fields × Bool → C.Body
  rewritten body (fs, changed) = if changed then C.encode fs else body

  -- `SanitizeFields`
  unfoldable pub sanitize_fields : C.Body → ChannelSettings → C.Body
  sanitize_fields body s =
      if s.pass_through_body_enabled
      then body
      else elim (C.decode body) [ none ↦ body | some fs ↦ rewritten body (stripped s fs) ]

  -- `StripStreamField`
  unfoldable pub strip_stream_field : C.Body → C.Body
  strip_stream_field body = elim (C.decode body) [
    | none ↦ body
    | some fs ↦
        if has_field (codes "stream") fs then C.encode (delete_field (codes "stream") fs) else body
  ]

  -- `ComputeCacheHash`
  unfoldable pub compute_cache_hash : Hashing → (C.Body → Text) → C.Body → Text → Text
  compute_cache_hash h bytes body model_name = elim (C.decode body) [
    | none ↦ h.sha256_hex (model_name ++ bytes body)
    | some fs ↦ hash_fields h fs model_name
  ]
