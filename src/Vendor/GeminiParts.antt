-- ===== src/Vendor/GeminiParts.antt =====
-- server/internal/relay/channel/openai/gemini_response.go: an answer of OpenAI's chat that is no stream as one of
-- Gemini's, and the errors. What is built of relay/dto/gemini.go; JSON is a parameter.
use token_flux.Base.{
  ℕ, ℤ, pos, ◌||◌, String, Option, none, some, List, [], ◌∷◌, ◌++◌, map, str_eq, if◌then◌else◌,
}
use token_flux.Bytes.{Text}
use token_flux.Cost.{TokenDetails}
use token_flux.Json.{Value, null, object, end}
use token_flux.ReasonMap.{openai_finish_reason_to_gemini}
use token_flux.Vendor.Chat.{
  ToolCall, Message, Choice, ChatCompletionResponse, is_nil, text_or_empty, text_of,
}

-- `GeminiPart`, as it is built here: a thought, a text, or a call with its identifier, name and arguments.
pub data GeminiPart : Type 0 where
  thought spoken : Text → GeminiPart
  function_call : Text → Text → Value → GeminiPart

pub record GeminiCandidate : Type 0 where
  pub index : ℤ
  pub parts : List GeminiPart
  pub finish_reason : String

pub record GeminiUsage : Type 0 where
  pub prompt_token_count : ℤ
  pub candidates_token_count : ℤ
  pub total_token_count : ℤ
  pub cached_content_token_count : ℤ
  pub thoughts_token_count : ℤ

pub record GeminiResponse : Type 0 where
  pub candidates : List GeminiCandidate
  pub usage_metadata : Option GeminiUsage

abbrev pub unless_nil : (Text → GeminiPart) → Text → List GeminiPart
unless_nil part [] = []
unless_nil part (c ∷ t) = part (c ∷ t) ∷ []

abbrev pub or_object : Option Value → Value
or_object none = object end
or_object (some v) = v

abbrev pub or_empty_part : List GeminiPart → List GeminiPart
or_empty_part [] = spoken [] ∷ []
or_empty_part (p ∷ ps) = p ∷ ps

abbrev cached : Option TokenDetails → ℤ
cached none = pos 0
cached (some d) = d.cached_tokens

abbrev reasoned : Option TokenDetails → ℤ
reasoned none = pos 0
reasoned (some d) = d.reasoning_tokens

abbrev pub gemini_usage : ℤ → ℤ → ℤ → Option TokenDetails → Option TokenDetails → GeminiUsage
gemini_usage prompt completion total hits thoughts = record {
  prompt_token_count = prompt;
  candidates_token_count = completion;
  total_token_count = total;
  cached_content_token_count = cached hits;
  thoughts_token_count = reasoned thoughts;
}

module _ (parse : Text → Option Value) where
  -- A call in a message, and one in a part of a stream, where arguments that are empty stay nil.
  abbrev pub whole_call : ToolCall → GeminiPart
  whole_call c = function_call c.id c.function.name (or_object (parse c.function.arguments))

  abbrev pub delta_call : ToolCall → GeminiPart
  delta_call c =
      function_call c.id c.function.name
        (if is_nil c.function.arguments then null else or_object (parse c.function.arguments))

  abbrev pub parts_with : (ToolCall → GeminiPart) → Message → List GeminiPart
  parts_with call m =
      unless_nil thought (text_or_empty m.reasoning_content)
      ++ (unless_nil spoken (text_or_empty (text_of m.content)) ++ map call m.tool_calls)

  -- `buildGeminiPartsFromMessage`
  unfoldable pub build_gemini_parts_from_message : Message → List GeminiPart
  build_gemini_parts_from_message m = or_empty_part (parts_with whole_call m)

  -- `buildGeminiPartsFromDelta`
  unfoldable pub build_gemini_parts_from_delta : Message → List GeminiPart
  build_gemini_parts_from_delta m = parts_with delta_call m

  -- `openAIToGeminiResponse`
  unfoldable pub openai_to_gemini_response : ChatCompletionResponse → List Choice → GeminiResponse
  unfolding build_gemini_parts_from_message
  openai_to_gemini_response r [] = record { candidates = []; usage_metadata = none }
  openai_to_gemini_response r (c ∷ cs) = record {
    candidates =
        record {
          index = c.index;
          parts = build_gemini_parts_from_message c.message;
          finish_reason = openai_finish_reason_to_gemini c.finish_reason;
        }
        ∷ [];
    usage_metadata = some (
        gemini_usage r.usage.prompt_tokens r.usage.completion_tokens r.usage.total_tokens
          r.usage.prompt_tokens_details r.usage.completion_tokens_details);
  }

-- `openAIErrorTypeToHTTPStatus`
unfoldable pub openai_error_type_to_http_status : String → ℕ → ℕ
openai_error_type_to_http_status kind default =
    if str_eq kind "authentication_error"
    then 401
    else if str_eq kind "permission_error"
    then 403
    else if str_eq kind "invalid_request_error"
    then 400
    else if str_eq kind "rate_limit_error"
    then 429
    else if str_eq kind "server_error" || str_eq kind "internal_error"
    then 500
    else if str_eq kind "timeout_error"
    then 504
    else default

-- `openAIErrorTypeToGeminiStatus`
unfoldable pub openai_error_type_to_gemini_status : String → String
openai_error_type_to_gemini_status kind =
    if str_eq kind "authentication_error"
    then "UNAUTHENTICATED"
    else if str_eq kind "permission_error"
    then "PERMISSION_DENIED"
    else if str_eq kind "invalid_request_error"
    then "INVALID_ARGUMENT"
    else if str_eq kind "rate_limit_error"
    then "RESOURCE_EXHAUSTED"
    else if str_eq kind "timeout_error"
    then "DEADLINE_EXCEEDED"
    else "INTERNAL"
