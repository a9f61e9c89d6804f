-- ===== src/Body/Prompt.antt =====
-- server/internal/relay/helper/system_prompt.go: the system prompt of a channel is put into a body that has the
-- upstream's own form. The body is not the JSON null, on which Go would assign to a nil map.
use token_flux.Base.{ℕ, ◌==◌, Bool, true, false, Option, none, some, [], ◌++◌, if◌then◌else◌}
use token_flux.Bytes.{Text, codes, text_eq}
use token_flux.Json.{
  Value, null, text, array, object, Items, nil, cons, Fields, end, field, Codec, find_field,
  set_field,
}

-- `json.Unmarshal` into a slice of raw messages, into a string, and into a slice of objects, none for an
-- error. A JSON null is accepted and leaves the zero value.
unfoldable pub as_items : Value → Option Items
as_items (array xs) = some xs
as_items null = some nil
as_items v = none

unfoldable pub as_text : Value → Option Text
as_text (text s) = some s
as_text null = some []
as_text v = none

unfoldable pub all_objects : Items → Bool
all_objects nil = true
all_objects (cons (object fs) xs) = all_objects xs
all_objects (cons null xs) = all_objects xs
all_objects (cons v xs) = false

unfoldable pub as_objects : Value → Option Items
as_objects (array xs) = if all_objects xs then some xs else none
as_objects null = some nil
as_objects v = none

unfoldable pub as_fields : Value → Option Fields
as_fields (object fs) = some fs
as_fields null = some end
as_fields v = none

abbrev pub or_no_fields : Option Fields → Fields
or_no_fields none = end
or_no_fields (some fs) = fs

abbrev pub or_no_text : Option Text → Text
or_no_text none = []
or_no_text (some s) = s

abbrev pub system_message : Text → Value
system_message prompt =
    object
      (field (codes "role") (text (codes "system")) (field (codes "content") (text prompt) end))

-- The new content of a system message: only a string is kept.
unfoldable pub joined_content : Text → Option Value → Text
joined_content prompt (some (text old)) = prompt ++ codes "\n" ++ old
joined_content prompt content = prompt

abbrev pub role_of : Fields → Option Text
role_of first = elim (find_field (codes "role") first) [
  | none ↦ none
  | some v ↦ some (or_no_text (as_text v))
]

abbrev pub is_system : Option Text → Bool
is_system none = false
is_system (some role) = text_eq role (codes "system")

-- The messages after `injectSystemPromptOpenAI`.
unfoldable pub with_system_message : Text → Bool → Items → Items
with_system_message prompt override nil = cons (system_message prompt) nil
with_system_message prompt override (cons m ms) =
    let first = or_no_fields (as_fields m) in
    if is_system (role_of first)
    then cons
        (if override
          then system_message prompt
          else object (
              set_field (codes "content")
                (text (joined_content prompt (find_field (codes "content") first))) first))
        ms
    else cons (system_message prompt) (cons m ms)

-- `injectSystemPromptOpenAI` on the decoded body, none when the body is left alone.
unfoldable pub inject_openai : Text → Bool → Fields → Option Fields
inject_openai prompt override req = elim (find_field (codes "messages") req) [
  | none ↦ none
  | some raw ↦ elim (as_items raw) [
    | none ↦ none
    | some messages ↦
        some
          (set_field (codes "messages") (array (with_system_message prompt override messages)) req)
  ]
]

-- `prependClaudeSystem`
unfoldable pub prepend_claude_system : Value → Text → Value
prepend_claude_system raw prompt = elim (as_text raw) [
  | some old ↦ text (prompt ++ codes "\n" ++ old)
  | none ↦ elim (as_objects raw) [
    | some blocks ↦ array (
        cons
          (object (
            field (codes "type") (text (codes "text"))
              (field (codes "text") (text (prompt ++ codes "\n")) end)))
          blocks)
    | none ↦ text prompt
  ]
]

unfoldable pub inject_claude : Text → Bool → Fields → Fields
inject_claude prompt override req = elim (find_field (codes "system") req) [
  | none ↦ set_field (codes "system") (text prompt) req
  | some raw ↦
      set_field (codes "system")
        (if override then text prompt else prepend_claude_system raw prompt) req
]

abbrev pub gemini_instruction : Text → Value
gemini_instruction prompt =
    object (
      field (codes "parts") (array (cons (object (field (codes "text") (text prompt) end)) nil))
        end)

-- `prependGeminiSystemInstruction`
unfoldable pub prepend_gemini_instruction : Value → Text → Value
prepend_gemini_instruction raw prompt = elim (as_fields raw) [
  | none ↦ gemini_instruction prompt
  | some instr ↦ elim (find_field (codes "parts") instr) [
    | none ↦ gemini_instruction prompt
    | some parts_raw ↦ elim (as_objects parts_raw) [
      | none ↦ gemini_instruction prompt
      | some parts ↦ object (
          set_field (codes "parts")
            (array (cons (object (field (codes "text") (text (prompt ++ codes "\n")) end)) parts))
            instr)
    ]
  ]
]

unfoldable pub inject_gemini : Text → Bool → Fields → Fields
inject_gemini prompt override req = elim (find_field (codes "systemInstruction") req) [
  | none ↦ set_field (codes "systemInstruction") (gemini_instruction prompt) req
  | some raw ↦
      set_field (codes "systemInstruction")
        (if override then gemini_instruction prompt else prepend_gemini_instruction raw prompt) req
]

pub data NativeFormat : Type 0 where
  openai_format claude_format gemini_format : NativeFormat

-- `providerNativeFormat`, of the numbers of `constant.ProviderType`.
unfoldable pub provider_native_format : ℕ → NativeFormat
provider_native_format type =
    if type == 2 then claude_format else if type == 3 then gemini_format else openai_format

unfoldable pub inject_into : NativeFormat → Text → Bool → Fields → Option Fields
inject_into claude_format prompt override req = some (inject_claude prompt override req)
inject_into gemini_format prompt override req = some (inject_gemini prompt override req)
inject_into openai_format prompt override req = inject_openai prompt override req

-- `InjectSystemPrompt`
unfoldable pub inject_system_prompt : (C : Codec) → ℕ → Text → Bool → C.Body → C.Body
inject_system_prompt C type prompt override body =
    if text_eq prompt [] then body else elim (C.decode body) [
      | none ↦ body
      | some req ↦ elim (inject_into (provider_native_format type) prompt override req) [
        | none ↦ body
        | some result ↦ C.encode result
      ]
    ]
