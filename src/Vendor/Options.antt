-- ===== src/Vendor/Options.antt =====
-- server/internal/relay/channel/claude/converter.go: the limits, tools and choices of a request.
use token_flux.Base.{
  ℕ, ℤ, pos, residue, ltb, Bool, true, false, not, String, Option, none, some, List, [], ◌∷◌,
  str_eq, if◌then◌else◌,
}
use token_flux.Bytes.{Text, codes}
use token_flux.Json.{
  Value, null, boolean, text, array, object, Items, nil, cons, end, field, member_of,
}
use token_flux.Vendor.Chat.{Tool, text_of}
use token_flux.Vendor.Claude.{ClaudeThinking, ClaudeTool}
use token_flux.Vendor.Parts.{is_text, with_text, fields_of}

-- `o2cConvertReasoningEffort`
abbrev pub budget_of : String → ℤ
budget_of effort =
    if str_eq effort "low"
    then pos 1024
    else if str_eq effort "medium"
    then pos 8192
    else if str_eq effort "high"
    then pos 32768
    else pos 8192

abbrev pub thinking_of : String → Option ClaudeThinking
thinking_of effort =
    if str_eq effort ""
    then none
    else some (record { kind = "enabled"; budget_tokens = some (budget_of effort) })

-- `uint` of the limit, or the default.
abbrev pub limit_of : Option ℤ → Option ℤ → ℕ
limit_of (some n) other = residue n
limit_of none (some n) = residue n
limit_of none none = 4096

abbrev pub limit_for : String → ℕ → ℕ
limit_for effort limit =
    if str_eq effort "" then limit else if ltb limit 16384 then 16384 else limit

unfoldable pub stop_texts : Items → List Text
stop_texts nil = []
stop_texts (cons v vs) = with_text (text_of v) (stop_texts vs)

abbrev pub stops_of : Value → List Text
stops_of (Value.array xs) = stop_texts xs
stops_of (Value.text t) = t ∷ []
stops_of (Value.null) = []
stops_of (Value.boolean b) = []
stops_of (Value.number n) = []
stops_of (Value.object fs) = []

unfoldable pub convert_tools : List Tool → List ClaudeTool
convert_tools [] = []
convert_tools (t ∷ ts) =
    let rest = convert_tools ts in
    if str_eq t.kind "function"
    then record {
      name = t.function.name;
      description = t.function.description;
      input_schema = t.function.parameters;
    }
      ∷ rest
    else rest

abbrev pub typed : String → Value
typed name = object (field (codes "type") (text (codes name)) end)

abbrev pub tool_named : Option Text → Value → Value
tool_named none given = given
tool_named (some name) given =
    object (field (codes "type") (text (codes "tool")) (field (codes "name") (text name) end))

abbrev pub name_in : Value → Option Text
name_in v = elim (fields_of v) [ none ↦ none | some fs ↦ text_of (member_of fs (codes "name")) ]

abbrev pub is_off : Option Bool → Bool
is_off none = false
is_off (some b) = not b

-- `o2cConvertToolChoice`
unfoldable pub convert_tool_choice : Value → Option Bool → Value
unfolding member_of
convert_tool_choice (Value.null) parallel =
    if is_off parallel
    then object (
        field (codes "type") (text (codes "auto"))
          (field (codes "disable_parallel_tool_use") (boolean true) end))
    else null
convert_tool_choice (Value.text t) parallel =
    if is_text (text t) "auto"
    then typed "auto"
    else if is_text (text t) "none"
    then null
    else if is_text (text t) "required"
    then typed "any"
    else text t
convert_tool_choice (Value.object fs) parallel =
    if is_text (member_of fs (codes "type")) "function"
    then tool_named (name_in (member_of fs (codes "function"))) (object fs)
    else object fs
convert_tool_choice (Value.boolean b) parallel = boolean b
convert_tool_choice (Value.number n) parallel = Value.number n
convert_tool_choice (Value.array xs) parallel = array xs
