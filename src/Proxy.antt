-- ===== src/Proxy.antt =====
-- server/internal/logic/llm/openai.go and the parts of runtime.go that do not write: what a proxied request asks
-- for, which key serves it, where its channel is, and what the answer used. The rest of runtime.go is
-- in Proxy/Run.
pub mod Request
pub mod Run
pub mod Prepared
pub mod Free
pub mod Conserving
use token_flux.Base.{
  ℕ, ℤ, pos, ◌+ℤ◌, ◌-ℤ◌, int64, ltb_ℤ, leb_ℤ, eq_ℤ, leb, length, Bool, true, false, not, ◌&&◌, ◌||◌,
  String, Option, none, some, List, [], ◌∷◌, keep, get_elem?, if◌then◌else◌,
}
use token_flux.Bytes.{Text, codes, text_eq, take}
use token_flux.Json.{Value, text, object, null, Fields, end, field, find_field, set_field}
use token_flux.Body.Prompt.{as_text}
use token_flux.Quota.{is_spent}

-- `extractRequestedModel` on the decoded body: a string that is not empty.
abbrev pub nonempty_text : Option Text → Option Text
nonempty_text none = none
nonempty_text (some s) = if text_eq s [] then none else some s

unfoldable pub extract_requested_model : Fields → Option Text
extract_requested_model m = elim (find_field (codes "model") m) [
  | none ↦ none
  | some raw ↦ nonempty_text (as_text raw)
]

-- `replaceRequestModel` on the decoded body.
unfoldable pub replace_request_model : Fields → Text → Fields
replace_request_model m upstream_model = set_field (codes "model") (text upstream_model) m

-- The numbers that `normalizeOpenAIUsage` finds in a body, 0 where there is none.
pub record ReportedUsage : Type 0 where
  pub prompt_tokens : ℤ
  pub completion_tokens : ℤ
  pub total_tokens : ℤ
  pub prompt_cache_hit_tokens : ℤ
  pub prompt_cache_miss_tokens : ℤ
  pub cached_tokens : ℤ

pub record NormalizedUsage : Type 0 where
  pub input_tokens : ℤ
  pub cache_hit_tokens : ℤ
  pub cache_miss_tokens : ℤ
  pub output_tokens : ℤ
  pub total_tokens : ℤ

-- The switch: the cached tokens and the others.
unfoldable pub cache_split : ReportedUsage → ℤ × ℤ
cache_split r =
    if ltb_ℤ (pos 0) r.prompt_cache_hit_tokens || ltb_ℤ (pos 0) r.prompt_cache_miss_tokens
    then (r.prompt_cache_hit_tokens, r.prompt_cache_miss_tokens)
    else if ltb_ℤ (pos 0) r.cached_tokens
    then (
      r.cached_tokens,
      let misses = int64 (r.prompt_tokens -ℤ r.cached_tokens) in
          if ltb_ℤ misses (pos 0) then pos 0 else misses,
    )
    else (pos 0, r.prompt_tokens)

-- `normalizeOpenAIUsage`
unfoldable pub normalize_openai_usage : ReportedUsage → NormalizedUsage
normalize_openai_usage r = record {
  input_tokens = r.prompt_tokens;
  cache_hit_tokens = (cache_split r).0;
  cache_miss_tokens = (cache_split r).1;
  output_tokens = r.completion_tokens;
  total_tokens =
      if eq_ℤ r.total_tokens (pos 0)
      then int64 (r.prompt_tokens +ℤ r.completion_tokens)
      else r.total_tokens;
}

unfoldable pub http2err_code : ℤ → String
http2err_code status =
    if eq_ℤ status (pos 401) || eq_ℤ status (pos 403)
    then "upstream_auth"
    else if eq_ℤ status (pos 404)
    then "upstream_not_found"
    else if eq_ℤ status (pos 429)
    then "upstream_rate_limit"
    else if leb_ℤ (pos 500) status
    then "upstream_5xx"
    else if leb_ℤ (pos 400) status
    then "upstream_4xx"
    else "upstream_error"

unfoldable pub truncate : Text → ℕ → Text
truncate s n = if leb (length s) n then s else take n s

-- The `base_url` of a protocol's entry, if it decodes and is not empty. The key is spelled as in the source.
unfoldable pub inner_base_url : Value → Option Text
inner_base_url (object fs) = elim (find_field (codes "base_url") fs) [
  | none ↦ none
  | some v ↦ nonempty_text (as_text v)
]
inner_base_url v = none

abbrev pub supported_protocols : List Text
supported_protocols =
    codes "openai-compatible"
    ∷ codes "anthropic-compatible"
    ∷ codes "gemini-compatible"
    ∷ codes "azure-openai"
    ∷ []

abbrev pub or_else : Option Text → Option Text → Option Text
or_else none o = o
or_else (some s) o = some s

unfoldable pub protocol_url : Fields → List Text → Option Text
protocol_url obj [] = none
protocol_url obj (proto ∷ protos) =
    or_else (elim (find_field proto obj) [ none ↦ none | some raw ↦ inner_base_url raw ])
      (protocol_url obj protos)

abbrev pub top_level_url : Fields → Option Text
top_level_url obj = elim (find_field (codes "base_url") obj) [
  | none ↦ none
  | some raw ↦ nonempty_text (as_text raw)
]

-- The entry that the loop meets first.
abbrev pub first_url : Fields → Option Text
first_url end = none
first_url (field k v fs) = inner_base_url v

-- `extractBaseURL` on the decoded text.
unfoldable pub extract_base_url : Fields → Option Text
extract_base_url obj =
    or_else (protocol_url obj supported_protocols) (or_else (top_level_url obj) (first_url obj))

-- A row of the join of `loadCandidates`.
pub record KeyRow : Type 0 where
  pub key_model_id : ℕ
  pub model_key_id : ℕ
  pub channel_id : ℕ
  pub provider_user_id : ℕ
  pub upstream_model_name : Text
  pub key_encrypted : Text
  pub protocols_json : Text
  pub provider_share_bps : ℤ
  pub km_quota_used : ℤ
  pub km_quota_limit : ℤ
  pub mk_quota_used : ℤ
  pub mk_quota_limit : ℤ

-- The filter of `loadCandidates`.
unfoldable pub load_candidates : List KeyRow → List KeyRow
load_candidates rows =
    keep
      (λ r.
        not (is_spent r.mk_quota_used r.mk_quota_limit)
        && not (is_spent r.km_quota_used r.km_quota_limit))
      rows

-- The end of `pickRandomKeyModel`: `rand n` is `rand.Intn(n)`.
unfoldable pub pick_one : (ℕ → ℕ) → List KeyRow → Option KeyRow
pick_one rand rows = get_elem? rows (rand (length rows))
