-- ===== src/Vendor/Answer.antt =====
-- Answers that are no stream: `claudeToOpenAIResponse` of server/internal/relay/channel/claude/response.go and
-- `openAIToClaudeResponse` of server/internal/relay/channel/openai/claude_response.go.
use token_flux.Base.{
  ℕ, pos, ◌+ℤ◌, int64, String, Option, none, some, List, [], ◌∷◌, ◌++◌, str_eq, map, if◌then◌else◌,
}
use token_flux.Bytes.{Text, codes}
use token_flux.Cost.{TokenDetails}
use token_flux.Json.{Value, null, text, object, end}
use token_flux.ReasonMap.{claude_stop_reason_to_openai, openai_finish_reason_to_claude}
use token_flux.Vendor.Chat.{
  ToolCall, UsageWithDetails, Choice, ChatCompletionResponse, RelayInfo, text_or_empty, text_of,
}
use token_flux.Vendor.Claude.{
  ClaudeContentBlock, text_block, thinking_block, tool_use_block, ClaudeUsage,
}
use token_flux.Vendor.ChatStream.{no_claude_usage}
use token_flux.Vendor.Parts.{join_lines}

-- An answer that is no stream, with the fields that are read.
pub record ClaudeAnswer : Type 0 where
  pub id : Text
  pub model : Text
  pub stop_reason : String
  pub content : List ClaudeContentBlock
  pub usage : Option ClaudeUsage

abbrev block_text : ClaudeContentBlock → List Text
block_text b = if str_eq b.kind "text" then elim b.text [ none ↦ [] | some t ↦ t ∷ [] ] else []

abbrev block_thinking : ClaudeContentBlock → List Text
block_thinking b =
    if str_eq b.kind "thinking" then elim b.thinking [ none ↦ [] | some t ↦ t ∷ [] ] else []

abbrev block_calls : (Value → Text) → ClaudeContentBlock → List ToolCall
block_calls marshal b =
    if str_eq b.kind "tool_use"
    then record {
      index = pos 0;
      id = b.id;
      kind = "function";
      function = record { name = b.name; arguments = marshal b.input };
    }
      ∷ []
    else []

unfoldable pub gathered {ℓ} :
    {A : Type ℓ} → (ClaudeContentBlock → List A) → List ClaudeContentBlock → List A
gathered f [] = []
gathered f (b ∷ bs) = f b ++ gathered f bs

-- `joinTextPartsResponse`
abbrev pub joined_value : List Text → Value
joined_value [] = null
joined_value (t ∷ ts) = text (join_lines (t ∷ ts))

unfoldable pub concatenated : List Text → Text
concatenated [] = []
concatenated (t ∷ ts) = t ++ concatenated ts

abbrev thoughts : List Text → Option Text
thoughts [] = none
thoughts (t ∷ ts) = some (concatenated (t ∷ ts))

abbrev answer_usage : Option ClaudeUsage → UsageWithDetails
answer_usage none = record {
  prompt_tokens = pos 0;
  completion_tokens = pos 0;
  total_tokens = pos 0;
  prompt_tokens_details = none;
  completion_tokens_details = none;
}
answer_usage (some u) = record {
  prompt_tokens = u.input_tokens;
  completion_tokens = u.output_tokens;
  total_tokens = int64 (u.input_tokens +ℤ u.output_tokens);
  prompt_tokens_details = none;
  completion_tokens_details = none;
}

-- `claudeToOpenAIResponse`
unfoldable pub claude_to_openai_response :
    (Value → Text) → RelayInfo → ℕ → ClaudeAnswer → ChatCompletionResponse
unfolding gathered concatenated join_lines
claude_to_openai_response marshal info now a = record {
  id = a.id;
  model = if info.is_model_mapped then info.origin_model_name else a.model;
  created = now;
  choices =
      record {
        index = pos 0;
        message = record {
          role = "assistant";
          content = joined_value (gathered block_text a.content);
          reasoning_content = thoughts (gathered block_thinking a.content);
          tool_calls = gathered (block_calls marshal) a.content;
          tool_call_id = [];
        };
        finish_reason = claude_stop_reason_to_openai a.stop_reason;
      }
      ∷ [];
  usage = answer_usage a.usage;
}

-- What `openAIToClaudeResponse` returns, the fields that it sets.
pub record ClaudeReply : Type 0 where
  pub id : Text
  pub content : List ClaudeContentBlock
  pub stop_reason : String
  pub model : Text
  pub usage : ClaudeUsage

abbrev parsed : (Text → Option Value) → ToolCall → ClaudeContentBlock
parsed parse c =
    tool_use_block c.id c.function.name
      (elim (parse c.function.arguments) [ none ↦ object end | some v ↦ v ])

abbrev unless_blank : (Text → ClaudeContentBlock) → Text → List ClaudeContentBlock
unless_blank block [] = []
unless_blank block (c ∷ t) = block (c ∷ t) ∷ []

abbrev reply_blocks : (Text → Option Value) → List Choice → List ClaudeContentBlock
reply_blocks parse [] = []
reply_blocks parse (c ∷ cs) =
    unless_blank thinking_block (text_or_empty c.message.reasoning_content)
    ++ (unless_blank text_block (text_or_empty (text_of c.message.content))
        ++ map (parsed parse) c.message.tool_calls)

abbrev or_empty_block : List ClaudeContentBlock → List ClaudeContentBlock
or_empty_block [] = text_block [] ∷ []
or_empty_block (b ∷ bs) = b ∷ bs

abbrev reply_reason : List Choice → String
reply_reason [] = "end_turn"
reply_reason (c ∷ cs) = openai_finish_reason_to_claude c.finish_reason

abbrev pub reply_of :
    (Text → Option Value) → RelayInfo → ChatCompletionResponse → TokenDetails → ClaudeReply
reply_of parse info r details = record {
  id = codes "msg_" ++ info.request_id;
  content = or_empty_block (reply_blocks parse r.choices);
  stop_reason = reply_reason r.choices;
  model = if info.is_model_mapped then info.origin_model_name else r.model;
  usage = record no_claude_usage {
    input_tokens = r.usage.prompt_tokens;
    output_tokens = r.usage.completion_tokens;
    cache_read_input_tokens = details.cached_tokens;
  };
}

-- `openAIToClaudeResponse`: none for the panic of reading the details of a usage that has none.
unfoldable pub openai_to_claude_response :
    (Text → Option Value) → RelayInfo → ChatCompletionResponse → Option ClaudeReply
openai_to_claude_response parse info r = elim r.usage.prompt_tokens_details [
  | none ↦ none
  | some details ↦ some (reply_of parse info r details)
]
