-- ===== src/ReasonMap.antt =====
-- server/internal/relay/common/reasonmap.go: the reasons for which a model stopped, as OpenAI, Claude
-- and Gemini name them, and the translations.
pub mod Consistent
use token_flux.Base.{Bool, true, false, String, List, [], ◌∷◌, str_eq, if◌then◌else◌, ◌||◌}

unfoldable pub one_of : String → List String → Bool
one_of r [] = false
one_of r (x ∷ xs) = if str_eq r x then true else one_of r xs

abbrev pub gemini_filtered : List String
gemini_filtered =
    "SAFETY" ∷ "RECITATION" ∷ "OTHER" ∷ "BLOCKLIST" ∷ "PROHIBITED" ∷ "SPII" ∷ "LANGUAGE"
    ∷ "IMAGE_SAFETY" ∷ "IMAGE_PROHIBITED_CONTENT" ∷ "IMAGE_OTHER" ∷ "NO_IMAGE" ∷ "IMAGE_RECITATION"
    ∷ []

abbrev pub gemini_tool_failures : List String
gemini_tool_failures =
    "MALFORMED_FUNCTION_CALL" ∷ "UNEXPECTED_TOOL_CALL" ∷ "TOO_MANY_TOOL_CALLS" ∷ []

abbrev pub claude_turn_ends : List String
claude_turn_ends = "end_turn" ∷ "stop_sequence" ∷ "pause_turn" ∷ []

unfoldable pub openai_finish_reason_to_claude : String → String
openai_finish_reason_to_claude r =
    if str_eq r "stop"
    then "end_turn"
    else if str_eq r "length"
    then "max_tokens"
    else if str_eq r "tool_calls"
    then "tool_use"
    else if str_eq r "content_filter"
    then "refusal"
    else if str_eq r ""
    then "end_turn"
    else r

unfoldable pub claude_stop_reason_to_openai : String → String
claude_stop_reason_to_openai r =
    if one_of r claude_turn_ends
    then "stop"
    else if str_eq r "max_tokens"
    then "length"
    else if str_eq r "tool_use"
    then "tool_calls"
    else if str_eq r "refusal"
    then "content_filter"
    else r

unfoldable pub gemini_finish_reason_to_openai : String → String
gemini_finish_reason_to_openai r =
    if one_of r ("STOP" ∷ "FINISH_REASON_UNSPECIFIED" ∷ [])
    then "stop"
    else if str_eq r "MAX_TOKENS"
    then "length"
    else if one_of r gemini_filtered
    then "content_filter"
    else if one_of r gemini_tool_failures
    then "tool_calls"
    else if str_eq r "TOOL_CALLS"
    then "tool_calls"
    else if one_of r ("MISSING_THOUGHT_SIGNATURE" ∷ "MALFORMED_RESPONSE" ∷ [])
    then "stop"
    else r

unfoldable pub openai_finish_reason_to_gemini : String → String
openai_finish_reason_to_gemini r =
    if str_eq r "stop"
    then "STOP"
    else if str_eq r "length"
    then "MAX_TOKENS"
    else if str_eq r "content_filter"
    then "SAFETY"
    else if str_eq r "tool_calls"
    then "STOP"
    else r

unfoldable pub claude_stop_reason_to_gemini : String → String
claude_stop_reason_to_gemini r =
    if one_of r claude_turn_ends
    then "STOP"
    else if str_eq r "max_tokens"
    then "MAX_TOKENS"
    else if str_eq r "tool_use"
    then "STOP"
    else if str_eq r "refusal"
    then "SAFETY"
    else r

unfoldable pub gemini_finish_reason_to_claude : String → String
gemini_finish_reason_to_claude r =
    if one_of r (
      "STOP" ∷ "FINISH_REASON_UNSPECIFIED" ∷ "MISSING_THOUGHT_SIGNATURE" ∷ "MALFORMED_RESPONSE"
      ∷ [])
    then "end_turn"
    else if str_eq r "MAX_TOKENS"
    then "max_tokens"
    else if one_of r gemini_filtered
    then "refusal"
    else if one_of r gemini_tool_failures
    then "tool_use"
    else r
