-- ===== src/Vendor/ToOpenai.antt =====
-- `ConvertClaudeToOpenAI` of server/internal/relay/channel/openai/converter.go: a request for Claude becomes a
-- request for OpenAI's chat.
pub mod Roundtrip
pub mod Results
use token_flux.Base.{
  ℕ, ℤ, pos, signed, leb_ℤ, Bool, true, false, not, ◌&&◌, ◌||◌, String, Option, none, some, List,
  [], ◌∷◌, ◌++◌, map, str_eq, if◌then◌else◌,
}
use token_flux.Bytes.{Text, codes, text_eq}
use token_flux.Json.{
  Value, null, boolean, text, array, object, Items, nil, cons, Fields, end, field, member_of,
  find_field,
}
use token_flux.Vendor.Chat.{
  FunctionCall, ToolCall, Message, FunctionDef, Tool, ChatRequest, RelayInfo, is_nil, text_or_empty,
  text_of,
}
use token_flux.Vendor.Claude.{ClaudeThinking, ClaudeTool}
use token_flux.Vendor.Parts.{join_lines, is_text, with_text, fields_of, text_parts}
use token_flux.Vendor.OpenaiParts.{
  bare_message, field_text, extract_claude_system_text, part_fields, parts_value, content_of_parts,
  flush, image_url, image_parts, text_parts_of, add_parts, effort_of_budget, effort_of,
  function_named, claude_tool_choice, openai_tool, texts_value, system_messages, InboundMessage,
  InboundRequest, Writing, ContentPart, Gathered, text_part, image_part,
}

module _ (W : Writing) where
  -- The content of a tool's result: a text, or an object as JSON; anything else is dropped.
  unfoldable pub result_text : Value → Text
  result_text (Value.text t) = t
  result_text (Value.object fs) = W.marshal (object fs)
  result_text (Value.array xs) = []
  result_text (Value.null) = []
  result_text (Value.boolean b) = []
  result_text (Value.number n) = []

  abbrev pub tool_message : Fields → Message
  tool_message fs =
      record (bare_message "tool" (text (result_text (member_of fs (codes "content"))))) {
        tool_call_id = field_text fs "tool_use_id";
      }

  abbrev pub add_result : Fields → Gathered → Gathered
  add_result fs g = record {
    parts = [];
    results = g.results ++ (flush g.parts ++ tool_message fs ∷ []);
  }

  abbrev pub add_block : Option Fields → Gathered → Gathered
  add_block none g = g
  add_block (some fs) g =
      let kind = member_of fs (codes "type") in
      if is_text kind "text"
      then add_parts (text_parts_of (text_of (member_of fs (codes "text")))) g
      else if is_text kind "tool_result"
      then add_result fs g
      else if is_text kind "image"
      then add_parts (image_parts (fields_of (member_of fs (codes "source")))) g
      else g

  unfoldable pub gather : Items → Gathered → Gathered
  unfolding result_text flush member_of
  gather nil g = g
  gather (cons v vs) g = gather vs (add_block (fields_of v) g)

  abbrev pub or_blank : List Message → List Message
  or_blank [] = bare_message "user" (text []) ∷ []
  or_blank (m ∷ ms) = m ∷ ms

  -- `convertClaudeUserMessage`
  unfoldable pub convert_claude_user_message : Value → List Message
  unfolding gather flush
  convert_claude_user_message (Value.array xs) =
      let g = gather xs (record { parts = []; results = [] }) in
      or_blank (g.results ++ flush g.parts)
  convert_claude_user_message (Value.text t) = bare_message "user" (text t) ∷ []
  convert_claude_user_message (Value.null) = bare_message "user" (text (W.of_value null)) ∷ []
  convert_claude_user_message (Value.boolean b) =
      bare_message "user" (text (W.of_value (boolean b))) ∷ []
  convert_claude_user_message (Value.number n) =
      bare_message "user" (text (W.of_value (Value.number n))) ∷ []
  convert_claude_user_message (Value.object fs) =
      bare_message "user" (text (W.of_value (object fs))) ∷ []

  abbrev pub thinking_part : Option Fields → Option Text
  thinking_part none = none
  thinking_part (some fs) =
      if is_text (member_of fs (codes "type")) "thinking" && not (is_nil (field_text fs "thinking"))
      then some (field_text fs "thinking")
      else none

  unfoldable pub thinking_parts : Items → List Text
  unfolding member_of
  thinking_parts nil = []
  thinking_parts (cons v vs) = with_text (thinking_part (fields_of v)) (thinking_parts vs)

  abbrev pub arguments_of : Option Value → Text
  arguments_of none = codes "{}"
  arguments_of (some v) = W.marshal v

  abbrev pub tool_calls_of : Option Fields → List ToolCall
  tool_calls_of none = []
  tool_calls_of (some fs) =
      if is_text (member_of fs (codes "type")) "tool_use"
      then record {
        index = pos 0;
        id = field_text fs "id";
        kind = "function";
        function = record {
          name = field_text fs "name";
          arguments = arguments_of (find_field (codes "input") fs);
        };
      }
        ∷ []
      else []

  unfoldable pub assistant_calls : Items → List ToolCall
  unfolding member_of find_field
  assistant_calls nil = []
  assistant_calls (cons v vs) = tool_calls_of (fields_of v) ++ assistant_calls vs

  abbrev pub joined_or_none : List Text → Option Text
  joined_or_none [] = none
  joined_or_none (t ∷ ts) = some (join_lines (t ∷ ts))

  -- `convertClaudeAssistantMessage`
  unfoldable pub convert_claude_assistant_message : Value → Message
  unfolding join_lines text_parts thinking_parts assistant_calls
  convert_claude_assistant_message (Value.array xs) =
      record (bare_message "assistant" (text (join_lines (text_parts xs)))) {
        reasoning_content = joined_or_none (thinking_parts xs);
        tool_calls = assistant_calls xs;
      }
  convert_claude_assistant_message (Value.text t) = bare_message "assistant" (text t)
  convert_claude_assistant_message (Value.null) = bare_message "assistant" (text (W.of_value null))
  convert_claude_assistant_message (Value.boolean b) =
      bare_message "assistant" (text (W.of_value (boolean b)))
  convert_claude_assistant_message (Value.number n) =
      bare_message "assistant" (text (W.of_value (Value.number n)))
  convert_claude_assistant_message (Value.object fs) =
      bare_message "assistant" (text (W.of_value (object fs)))

  unfoldable pub convert_claude_messages : List InboundMessage → List Message
  unfolding convert_claude_user_message convert_claude_assistant_message
  convert_claude_messages [] = []
  convert_claude_messages (m ∷ ms) =
      let rest = convert_claude_messages ms in
      if str_eq m.role "user"
      then convert_claude_user_message m.content ++ rest
      else if str_eq m.role "assistant"
      then convert_claude_assistant_message m.content ∷ rest
      else rest

  abbrev pub int_or : Option ℕ → ℤ
  int_or none = pos 4096
  int_or (some n) = signed n

  abbrev pub stop_value : List Text → Value
  stop_value [] = null
  stop_value (t ∷ ts) = array (texts_value (t ∷ ts))

  -- `ConvertClaudeToOpenAI`, from the decoded request to the one that is encoded.
  unfoldable pub convert_claude_to_openai : RelayInfo → InboundRequest → ChatRequest
  unfolding claude_tool_choice extract_claude_system_text texts_value convert_claude_messages
  convert_claude_to_openai info r = record {
    model = info.upstream_model_name;
    messages =
        system_messages (extract_claude_system_text r.system) ++ convert_claude_messages r.messages;
    max_tokens = some (int_or r.max_tokens);
    max_completion_tokens = none;
    temperature = r.temperature;
    top_p = r.top_p;
    top_k = none;
    stop = stop_value r.stop_sequences;
    stream = r.stream;
    tools = map openai_tool r.tools;
    tool_choice = claude_tool_choice r.tool_choice;
    parallel_tool_calls = none;
    reasoning_effort = effort_of r.thinking;
  }
