-- ===== src/Vendor/OpenaiParts.antt =====
-- server/internal/relay/channel/openai/converter.go: a request for Claude as it is decoded, and the parts, choices and
-- efforts of the request for OpenAI's chat. The content of a message is the JSON that is written for it.
use token_flux.Base.{
  ℕ, ℤ, pos, leb_ℤ, Bool, not, ◌&&◌, String, Option, none, some, List, [], ◌∷◌, ◌++◌, str_eq,
  if◌then◌else◌,
}
use token_flux.Bytes.{Text, codes}
use token_flux.Json.{
  Value, null, boolean, text, array, object, Items, nil, cons, Fields, end, field, member_of,
}
use token_flux.Vendor.Chat.{Message, Tool, is_nil, text_or_empty, text_of}
use token_flux.Vendor.Claude.{ClaudeThinking, ClaudeTool}
use token_flux.Vendor.Parts.{join_lines, is_text, text_parts}

-- `ClaudeRequest` and its messages, as they are decoded.
pub record InboundMessage : Type 0 where
  pub role : String
  pub content : Value

pub record InboundRequest : Type 0 where
  pub system : Value
  pub messages : List InboundMessage
  pub max_tokens : Option ℕ
  pub stop_sequences : List Text
  pub stream : Option Bool
  pub temperature : Option Text
  pub top_p : Option Text
  pub thinking : Option ClaudeThinking
  pub tools : List ClaudeTool
  pub tool_choice : Value

-- `json.Marshal` and `fmt.Sprintf("%v", v)` of decoded JSON.
pub record Writing : Type 0 where
  pub marshal : Value → Text
  pub of_value : Value → Text

abbrev pub bare_message : String → Value → Message
bare_message role content = record {
  role = role;
  content = content;
  reasoning_content = none;
  tool_calls = [];
  tool_call_id = [];
}

abbrev pub field_text : Fields → String → Text
field_text fs name = text_or_empty (text_of (member_of fs (codes name)))

-- `extractClaudeSystemText`
unfoldable pub extract_claude_system_text : Value → Text
unfolding join_lines text_parts
extract_claude_system_text (Value.text t) = t
extract_claude_system_text (Value.array xs) = join_lines (text_parts xs)
extract_claude_system_text (Value.null) = []
extract_claude_system_text (Value.boolean b) = []
extract_claude_system_text (Value.number n) = []
extract_claude_system_text (Value.object fs) = []

pub data ContentPart : Type 0 where
  text_part image_part : Text → ContentPart

-- What JSON writes for a part; an empty text is left out.
abbrev pub part_fields : ContentPart → Fields
part_fields (text_part []) = field (codes "type") (text (codes "text")) end
part_fields (text_part (c ∷ t)) =
    field (codes "type") (text (codes "text")) (field (codes "text") (text (c ∷ t)) end)
part_fields (image_part url) = field (codes "type") (text (codes "image_url")) (
    field (codes "image_url")
      (object (field (codes "url") (text url) (field (codes "detail") (text (codes "auto")) end)))
      end)

unfoldable pub parts_value : List ContentPart → Items
parts_value [] = nil
parts_value (p ∷ ps) = cons (object (part_fields p)) (parts_value ps)

-- A single text stands alone.
unfoldable pub content_of_parts : List ContentPart → Value
unfolding parts_value
content_of_parts (text_part t ∷ []) = text t
content_of_parts ps = array (parts_value ps)

unfoldable pub flush : List ContentPart → List Message
unfolding content_of_parts
flush [] = []
flush (p ∷ ps) = bare_message "user" (content_of_parts (p ∷ ps)) ∷ []

-- The address of an image.
abbrev pub image_url : Fields → Option Text
image_url source =
    if not (is_nil (field_text source "data")) && not (is_nil (field_text source "media_type"))
    then some (
        codes "data:"
        ++ (field_text source "media_type" ++ (codes ";base64," ++ field_text source "data")))
    else if not (is_nil (field_text source "url"))
    then some (field_text source "url")
    else none

abbrev pub image_parts : Option Fields → List ContentPart
image_parts none = []
image_parts (some source) = elim (image_url source) [ none ↦ [] | some url ↦ image_part url ∷ [] ]

abbrev pub text_parts_of : Option Text → List ContentPart
text_parts_of none = []
text_parts_of (some t) = text_part t ∷ []

-- The variables of the loop over the blocks of a user's message.
pub record Gathered : Type 0 where
  pub parts : List ContentPart
  pub results : List Message

abbrev pub add_parts : List ContentPart → Gathered → Gathered
add_parts ps g = record g { parts = g.parts ++ ps }

-- `c2oConvertThinkingToReasoningEffort`
abbrev pub effort_of_budget : Option ℤ → String
effort_of_budget none = "medium"
effort_of_budget (some b) =
    if leb_ℤ b (pos 2048) then "low" else if leb_ℤ b (pos 16384) then "medium" else "high"

abbrev pub effort_of : Option ClaudeThinking → String
effort_of none = ""
effort_of (some t) = if str_eq t.kind "enabled" then effort_of_budget t.budget_tokens else ""

abbrev pub function_named : Text → Value
function_named name = object (
    field (codes "type") (text (codes "function"))
      (field (codes "function") (object (field (codes "name") (text name) end)) end))

-- `c2oConvertToolChoice`
unfoldable pub claude_tool_choice : Value → Value
unfolding member_of
claude_tool_choice (Value.object fs) =
    let kind = member_of fs (codes "type") in
    if is_text kind "auto"
    then text (codes "auto")
    else if is_text kind "any"
    then text (codes "required")
    else if is_text kind "none"
    then text (codes "none")
    else if is_text kind "tool"
    then if is_nil (field_text fs "name")
      then text (codes "required")
      else function_named (field_text fs "name")
    else object fs
claude_tool_choice (Value.text t) = text t
claude_tool_choice (Value.null) = null
claude_tool_choice (Value.boolean b) = boolean b
claude_tool_choice (Value.number n) = Value.number n
claude_tool_choice (Value.array xs) = array xs

abbrev pub openai_tool : ClaudeTool → Tool
openai_tool t = record {
  kind = "function";
  function = record { name = t.name; description = t.description; parameters = t.input_schema };
}

unfoldable pub texts_value : List Text → Items
texts_value [] = nil
texts_value (t ∷ ts) = cons (text t) (texts_value ts)

abbrev pub system_messages : Text → List Message
system_messages [] = []
system_messages (c ∷ t) = bare_message "system" (text (c ∷ t)) ∷ []
