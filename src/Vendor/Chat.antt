-- ===== src/Vendor/Chat.antt =====
-- server/internal/relay/dto/openai.go: the messages of OpenAI's chat, with the fields that the adaptors read. Texts
-- are bytes, a type or a role is a name, `any` is decoded JSON, a float is its JSON text.
use token_flux.Base.{
  ℕ, zero, suc, ℤ, pos, negsuc, Bool, true, false, String, Option, none, some, List, [], ◌∷◌,
}
use token_flux.Bytes.{Text}
use token_flux.Json.{Value}
use token_flux.Cost.{TokenDetails, Usage}

pub record FunctionCall : Type 0 where
  pub name : Text
  pub arguments : Text

pub record ToolCall : Type 0 where
  pub index : ℤ
  pub id : Text
  pub kind : String
  pub function : FunctionCall

-- What JSON has of a call (`omitempty`): an index of 0 is left out.
pub record WireCall : Type 0 where
  pub index : Option ℤ
  pub id : Text
  pub kind : String
  pub name : Text
  pub arguments : Text

abbrev pub wire_index : ℤ → Option ℤ
wire_index (pos zero) = none
wire_index (pos (suc n)) = some (pos (suc n))
wire_index (negsuc n) = some (negsuc n)

abbrev pub on_wire : ToolCall → WireCall
on_wire c = record {
  index = wire_index c.index;
  id = c.id;
  kind = c.kind;
  name = c.function.name;
  arguments = c.function.arguments;
}

pub record Message : Type 0 where
  pub role : String
  pub content : Value
  pub reasoning_content : Option Text
  pub tool_calls : List ToolCall
  pub tool_call_id : Text

pub record FunctionDef : Type 0 where
  pub name : Text
  pub description : Text
  pub parameters : Value

pub record Tool : Type 0 where
  pub kind : String
  pub function : FunctionDef

pub record ChatRequest : Type 0 where
  pub model : Text
  pub messages : List Message
  pub max_tokens : Option ℤ
  pub max_completion_tokens : Option ℤ
  pub temperature : Option Text
  pub top_p : Option Text
  pub top_k : Option ℤ
  pub stop : Value
  pub stream : Option Bool
  pub tools : List Tool
  pub tool_choice : Value
  pub parallel_tool_calls : Option Bool
  pub reasoning_effort : String

-- `UsageWithDetails`; its details have the fields of those in server/internal/relay/common.
pub record UsageWithDetails : Type 0 where
  pub prompt_tokens : ℤ
  pub completion_tokens : ℤ
  pub total_tokens : ℤ
  pub prompt_tokens_details : Option TokenDetails
  pub completion_tokens_details : Option TokenDetails

pub record Choice : Type 0 where
  pub index : ℤ
  pub message : Message
  pub finish_reason : String

pub record ChatCompletionResponse : Type 0 where
  pub id : Text
  pub model : Text
  pub created : ℕ
  pub choices : List Choice
  pub usage : UsageWithDetails

pub record StreamChoice : Type 0 where
  pub index : ℤ
  pub delta : Message
  pub finish_reason : Option String

pub record StreamResponse : Type 0 where
  pub id : Text
  pub created : ℕ
  pub model : Text
  pub choices : List StreamChoice
  pub usage : Option UsageWithDetails

-- What the adaptors know of a request: `RelayInfo`, with its channel.
pub record RelayInfo : Type 0 where
  pub request_id : Text
  pub origin_model_name : Text
  pub upstream_model_name : Text
  pub is_model_mapped : Bool

abbrev pub is_nil {ℓ} : {A : Type ℓ} → List A → Bool
is_nil [] = true
is_nil (a ∷ s) = false

abbrev pub text_or_empty : Option Text → Text
text_or_empty none = []
text_or_empty (some t) = t

-- `content.(string)`, none when it is no text.
abbrev pub text_of : Value → Option Text
text_of (Value.text t) = some t
text_of (Value.null) = none
text_of (Value.boolean b) = none
text_of (Value.number n) = none
text_of (Value.array xs) = none
text_of (Value.object fs) = none

-- `&common.Usage{}`
abbrev pub no_usage : Usage
no_usage = record {
  prompt_tokens = pos 0;
  completion_tokens = pos 0;
  total_tokens = pos 0;
  cache_creation_tokens = pos 0;
  prompt_tokens_details = none;
  completion_token_details = none;
  cache_included_in_prompt = false;
}
