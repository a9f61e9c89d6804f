-- ===== src/Vendor/ToClaude.antt =====
-- server/internal/relay/channel/claude/converter.go: a request for OpenAI's chat becomes a request for Claude.
pub mod Turns
pub mod Printed
use token_flux.Base.{
  ℕ, suc, ℤ, pos, residue, ltb, Bool, true, false, not, ◌&&◌, ◌||◌, String, Option, none, some,
  List, [], ◌∷◌, ◌++◌, map, str_eq, if◌then◌else◌,
}
use token_flux.Bytes.{Text, codes}
use token_flux.Json.{
  Value, null, boolean, text, array, object, Items, nil, cons, end, field, member_of,
}
use token_flux.Vendor.Chat.{
  ToolCall, Message, Tool, ChatRequest, RelayInfo, is_nil, text_or_empty, text_of,
}
use token_flux.Vendor.Claude.{
  ClaudeContentBlock, bare_block, text_block, thinking_block, tool_use_block, ClaudeThinking,
  ClaudeTool,
}
use token_flux.Vendor.Parts.{
  Content, plain, pointer, blocks, join_lines, is_text, with_text, fields_of, text_parts,
  user_blocks, blank, alone, content_of_blocks, or_empty_text,
}
use token_flux.Vendor.Options.{
  limit_for, limit_of, thinking_of, stops_of, stop_texts, convert_tools, convert_tool_choice,
}

pub record ClaudeMessage : Type 0 where
  pub role : String
  pub content : Content

pub record ClaudeRequest : Type 0 where
  pub model : Text
  pub system : Option Content
  pub messages : List ClaudeMessage
  pub max_tokens : ℕ
  pub stop_sequences : List Text
  pub stream : Option Bool
  pub temperature : Option Text
  pub top_p : Option Text
  pub top_k : Option ℤ
  pub thinking : Option ClaudeThinking
  pub tools : List ClaudeTool
  pub tool_choice : Value

-- What the Go library does: `fmt.Sprintf("%v", v)` of decoded JSON, `json.Unmarshal`, and how a number is written in
-- base 16; and the address at which the runtime has put a text that is pointed to.
pub record Printing : Type 0 where
  pub of_value : Value → Text
  pub hex : ℕ → Text
  pub address : Text → ℕ
  pub parse : Text → Option Value

-- The variables of the loop over the messages.
pub record Turning : Type 0 where
  pub messages : List ClaudeMessage
  pub system_blocks : List ClaudeContentBlock
  pub last_role : String

abbrev pub add_system : Text → Turning → Turning
add_system s t =
    if is_nil s then t else record t { system_blocks = t.system_blocks ++ text_block s ∷ [] }

abbrev pub tool_result : Text → Text → ClaudeContentBlock
tool_result id t = record (bare_block "tool_result") { tool_use_id = id; content = text t }

-- A request must begin with a message of the user.
abbrev pub begin_with_user : List ClaudeMessage → List ClaudeMessage
begin_with_user [] = []
begin_with_user (m ∷ ms) =
    if not (str_eq m.role "user")
    then record { role = "user"; content = plain (codes " ") } ∷ m ∷ ms
    else m ∷ ms

abbrev pub system_of : List ClaudeContentBlock → Option Content
system_of [] = none
system_of (b ∷ []) = some (pointer (text_or_empty b.text))
system_of (b ∷ c ∷ bs) = some (blocks (b ∷ c ∷ bs))

abbrev pub no_turns : Turning
no_turns = record { messages = []; system_blocks = []; last_role = "" }

module _ (P : Printing) where
  -- `fmt.Sprintf("%v", p)` of a pointer to a text: 0x and the address.
  abbrev pub printed_pointer : Text → Text
  printed_pointer t = codes "0x" ++ P.hex (P.address t)

  -- `o2cExtractTextContent`
  unfoldable pub extract_text_content : Value → Text
  unfolding text_parts join_lines
  extract_text_content (Value.text t) = t
  extract_text_content (Value.array xs) = join_lines (text_parts xs)
  extract_text_content (Value.null) = P.of_value null
  extract_text_content (Value.boolean b) = P.of_value (boolean b)
  extract_text_content (Value.number n) = P.of_value (Value.number n)
  extract_text_content (Value.object fs) = P.of_value (object fs)

  -- `o2cConvertUserMessage`
  unfoldable pub convert_user_message : Value → Content
  unfolding user_blocks content_of_blocks
  convert_user_message (Value.text []) = blank
  convert_user_message (Value.text (c ∷ t)) = plain (c ∷ t)
  convert_user_message (Value.array xs) = content_of_blocks (user_blocks xs)
  convert_user_message (Value.null) = plain (P.of_value null)
  convert_user_message (Value.boolean b) = plain (P.of_value (boolean b))
  convert_user_message (Value.number n) = plain (P.of_value (Value.number n))
  convert_user_message (Value.object fs) = plain (P.of_value (object fs))

  abbrev parsed_or_empty : Option Value → Value
  parsed_or_empty none = object end
  parsed_or_empty (some v) = v

  unfoldable pub tool_use_of : ToolCall → ClaudeContentBlock
  tool_use_of c =
      tool_use_block c.id c.function.name (parsed_or_empty (P.parse c.function.arguments))

  abbrev pub unless_empty : (Text → ClaudeContentBlock) → Text → List ClaudeContentBlock
  unless_empty block [] = []
  unless_empty block (c ∷ t) = block (c ∷ t) ∷ []

  -- `o2cConvertAssistantMessage`
  unfoldable pub convert_assistant_message : Message → Content
  unfolding extract_text_content tool_use_of content_of_blocks
  convert_assistant_message m = content_of_blocks (
      unless_empty thinking_block (text_or_empty m.reasoning_content)
      ++ (unless_empty text_block (extract_text_content m.content) ++ map tool_use_of m.tool_calls))

  -- `o2cContentToBlocks`: a pointer falls into the default case.
  unfoldable pub content_to_blocks : Content → List ClaudeContentBlock
  content_to_blocks (plain []) = []
  content_to_blocks (plain (c ∷ t)) = text_block (c ∷ t) ∷ []
  content_to_blocks (pointer t) = text_block (printed_pointer t) ∷ []
  content_to_blocks (blocks bs) = bs

  abbrev merged_blocks : List ClaudeContentBlock → Content
  merged_blocks [] = blocks []
  merged_blocks (b ∷ []) = alone b
  merged_blocks (b ∷ c ∷ bs) = blocks (b ∷ c ∷ bs)

  -- `o2cMergeContents`
  unfoldable pub merge_contents : Content → Content → Content
  unfolding content_to_blocks
  merge_contents old new = merged_blocks (content_to_blocks old ++ content_to_blocks new)

  -- `lastMsg.Content = o2cMergeContents(lastMsg.Content, …)`
  unfoldable pub merge_last : Content → List ClaudeMessage → List ClaudeMessage
  unfolding merge_contents
  merge_last new [] = []
  merge_last new (m ∷ []) = record m { content = merge_contents m.content new } ∷ []
  merge_last new (m ∷ n ∷ ms) = m ∷ merge_last new (n ∷ ms)

  abbrev pub add_turn : String → Content → Turning → Turning
  add_turn role c t = record t {
    messages =
        if str_eq t.last_role role && not (is_nil t.messages)
        then merge_last c t.messages
        else t.messages ++ record { role = role; content = c } ∷ [];
    last_role = role;
  }

  unfoldable pub add_message : Message → Turning → Turning
  unfolding convert_user_message convert_assistant_message merge_last
  add_message m t =
      let content = or_empty_text m.content in
      if str_eq m.role "system" || str_eq m.role "developer"
      then add_system (extract_text_content content) t
      else if str_eq m.role "user"
      then add_turn "user" (convert_user_message content) t
      else if str_eq m.role "assistant"
      then add_turn "assistant" (convert_assistant_message m) t
      else if str_eq m.role "tool"
      then add_turn "user" (blocks (tool_result m.tool_call_id (extract_text_content content) ∷ []))
          t
      else t

  unfoldable pub add_messages : List Message → Turning → Turning
  unfolding add_message
  add_messages [] t = t
  add_messages (m ∷ ms) t = add_messages ms (add_message m t)

  abbrev pub turns : List Message → Turning
  turns ms = add_messages ms no_turns

  -- `ConvertOpenAIToClaude`, from the decoded request to the one that is encoded.
  unfoldable pub convert_openai_to_claude : RelayInfo → ChatRequest → ClaudeRequest
  unfolding add_messages convert_tools convert_tool_choice stop_texts
  convert_openai_to_claude info r =
      let t = turns r.messages in
      record {
        model = info.upstream_model_name;
        system = system_of t.system_blocks;
        messages = begin_with_user t.messages;
        max_tokens = limit_for r.reasoning_effort (limit_of r.max_tokens r.max_completion_tokens);
        stop_sequences = stops_of r.stop;
        stream = r.stream;
        temperature = r.temperature;
        top_p = r.top_p;
        top_k = r.top_k;
        thinking = thinking_of r.reasoning_effort;
        tools = convert_tools r.tools;
        tool_choice = convert_tool_choice r.tool_choice r.parallel_tool_calls;
      }
