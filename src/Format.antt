-- ===== src/Format.antt =====
-- server/internal/relay/helper/detect_format.go, thinking.go and normalize.go: the format of a request, the protocol
-- of a channel that fits it, the suffixes of a model's name, and the total of a usage.
use token_flux.Base.{
  pos, ◌+ℤ◌, int64, eq_ℤ, Bool, true, false, not, ◌&&◌, ◌||◌, none, some, String, List, [], ◌∷◌,
  ◌-◌, length, if◌then◌else◌,
}
use token_flux.Bytes.{Text, Map, codes, text_eq, take, has_suffix, get_key}
use token_flux.Json.{Value, cons, Fields, Codec, find_field, has_field}
use token_flux.Body.Prompt.{as_text, as_items, as_objects, as_fields, or_no_fields}
use token_flux.Cost.{Usage}

pub data RelayFormat : Type 0 where
  openai claude gemini responses : RelayFormat

-- Whether the content of a message is a list of blocks that is not empty.
unfoldable pub has_blocks : Value → Bool
has_blocks v = elim (as_text v) [
  | some s ↦ false
  | none ↦ elim (as_items v) [ some (cons x xs) ↦ true | _ ↦ false ]
]

-- The first of a list of messages.
unfoldable pub is_claude_message : Fields → Value → Bool
is_claude_message obj first =
    if has_field (codes "system") obj
    then true
    else elim (find_field (codes "content") (or_no_fields (as_fields first))) [
      | none ↦ false
      | some content ↦ has_blocks content
    ]

unfoldable pub looks_like_claude : Fields → Bool
looks_like_claude obj = elim (find_field (codes "messages") obj) [
  | none ↦ false
  | some raw ↦ elim (as_objects raw) [ some (cons m ms) ↦ is_claude_message obj m | _ ↦ false ]
]

unfoldable pub format_of_fields : Fields → RelayFormat
format_of_fields obj =
    if has_field (codes "contents") obj
    then gemini
    else if has_field (codes "input") obj && not (has_field (codes "messages") obj)
    then responses
    else if has_field (codes "anthropic_version") obj
    then claude
    else if looks_like_claude obj
    then claude
    else openai

-- `DetectInboundFormat`; an empty body is not JSON.
unfoldable pub detect_inbound_format : (C : Codec) → C.Body → RelayFormat
detect_inbound_format C body = elim (C.decode body) [
  | none ↦ openai
  | some obj ↦ format_of_fields obj
]

-- `DetectFormatFromPath`
unfoldable pub detect_format_from_path : Text → RelayFormat × Bool
detect_format_from_path path =
    if text_eq path (codes "/v1/messages")
    then (claude, true)
    else if text_eq path (codes "/v1/chat/completions")
        || (text_eq path (codes "/v1/completions") || text_eq path (codes "/v1/embeddings"))
    then (openai, true)
    else if text_eq path (codes "/v1/responses") || text_eq path (codes "/v1/responses/compact")
    then (responses, true)
    else (openai, false)

unfoldable pub preferred_key : RelayFormat → Text
preferred_key openai = codes "openai-compatible"
preferred_key claude = codes "anthropic-compatible"
preferred_key gemini = codes "gemini-compatible"
preferred_key responses = codes "openai-compatible"

abbrev pub base_url_of : Map Text → Text
base_url_of entry = elim (get_key (codes "base_url") entry) [ none ↦ [] | some url ↦ url ]

-- `BestProtocolMatch`; without the preferred protocol it is the one that Go's loop meets first.
unfoldable pub best_protocol_match : Map (Map Text) → RelayFormat → Text × Text
best_protocol_match [] inbound = ([], [])
best_protocol_match ((k, e) ∷ protocols) inbound =
    elim (get_key (preferred_key inbound) ((k, e) ∷ protocols)) [
      | some entry ↦ (preferred_key inbound, base_url_of entry)
      | none ↦ (k, base_url_of e)
    ]

pub record ThinkingInfo : Type 0 where
  pub base_model : Text
  pub is_thinking : Bool
  pub effort_level : Text
  pub is_no_thinking : Bool

abbrev pub effort_suffixes : List (String × String)
effort_suffixes =
    ("-minimal", "minimal")
    ∷ ("-medium", "medium")
    ∷ ("-xhigh", "xhigh")
    ∷ ("-high", "high")
    ∷ ("-low", "low")
    ∷ ("-max", "max")
    ∷ []

abbrev pub cut_suffix : Text → Text → Text
cut_suffix s suffix = take (length s - length suffix) s

unfoldable pub parse_effort : Text → List (String × String) → ThinkingInfo
parse_effort model_name [] = record {
  base_model = model_name;
  is_thinking = false;
  effort_level = [];
  is_no_thinking = false;
}
parse_effort model_name ((suffix, level) ∷ rest) =
    if has_suffix model_name (codes suffix)
    then record {
      base_model = cut_suffix model_name (codes suffix);
      is_thinking = false;
      effort_level = codes level;
      is_no_thinking = false;
    }
    else parse_effort model_name rest

abbrev pub marked : Text → Text → Bool → ThinkingInfo
marked model_name suffix thinking = record {
  base_model = cut_suffix model_name suffix;
  is_thinking = thinking;
  effort_level = [];
  is_no_thinking = not thinking;
}

-- `ParseThinkingSuffix`
unfoldable pub parse_thinking_suffix : Text → ThinkingInfo
parse_thinking_suffix model_name =
    if has_suffix model_name (codes "-thinking")
    then marked model_name (codes "-thinking") true
    else if has_suffix model_name (codes "-nothinking")
    then marked model_name (codes "-nothinking") false
    else if has_suffix model_name (codes "-none")
    then marked model_name (codes "-none") false
    else parse_effort model_name effort_suffixes

-- `NormalizeUsage`, of a usage that is there.
unfoldable pub normalize_usage : Usage → Usage
normalize_usage u =
    if eq_ℤ u.total_tokens (pos 0)
    then record u { total_tokens = int64 (u.prompt_tokens +ℤ u.completion_tokens) }
    else u
