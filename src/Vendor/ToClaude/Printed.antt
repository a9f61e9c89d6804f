-- ===== src/Vendor/ToClaude/Printed.antt =====
-- Where server/internal/relay/channel/claude/converter.go prints a value in place of a text, and the budgets it sets.
use token_flux.Base.{
  ℕ, pos, ◌<◌, false, String, none, some, List, [], ◌∷◌, map, str_eq, eq_iff, Bool-cases, ◌⊎◌, inl,
  inr, ◌↔◌, ◌≡◌, ◌≢◌, refl, sym, subst, true, arith, if◌then◌else◌,
}
use token_flux.Bytes.{Text, codes, has_prefix}
use token_flux.Json.{null, text}
use token_flux.Vendor.Chat.{ToolCall, Message, ChatRequest, RelayInfo}
use token_flux.Vendor.Claude.{text_block}
use token_flux.Vendor.Parts.{plain, blocks, content_of_blocks}
use token_flux.Vendor.Options.{limit_of, limit_for, thinking_of}
use token_flux.Vendor.ToClaude.{
  Printing, printed_pointer, extract_text_content, convert_assistant_message, tool_use_of,
  merge_contents, content_to_blocks, merge_last, add_message, add_messages,
  convert_openai_to_claude,
}

abbrev pub says : String → Text → Message
says role t = record {
  role = role;
  content = text t;
  reasoning_content = none;
  tool_calls = [];
  tool_call_id = [];
}

abbrev budget : String → ℕ
budget effort =
    if str_eq effort "low"
    then 1024
    else if str_eq effort "medium"
    then 8192
    else if str_eq effort "high"
    then 32768
    else 8192

thinking-budget :
    (effort : String)
    → str_eq effort "" ≡ false
    → thinking_of effort
      ≡ some (record { kind = "enabled"; budget_tokens = some (pos (budget effort)) })
thinking-budget effort h = elim (Bool-cases (str_eq effort "low")) [
  | inl l ↦ rw (h, l) refl
  | inr l ↦ elim (Bool-cases (str_eq effort "medium")) [
    | inl m ↦ rw (h, l, m) refl
    | inr m ↦ elim (Bool-cases (str_eq effort "high")) [
      | inl k ↦ rw (h, l, m, k) refl
      | inr k ↦ rw (h, l, m, k) refl
    ]
  ]
]

budget-limit :
    (effort : String) (limit : ℕ)
    → str_eq effort "" ≡ false
    → (budget effort < limit_for effort limit) ↔ ((str_eq effort "high" ≡ false) ⊎ (32768 < limit))
budget-limit effort limit h = elim (Bool-cases (str_eq effort "high")) [
  | inl k ↦ let high : effort ≡ "high" = (eq_iff effort "high").0 k in rw high (ground arith)
  | inr k ↦ ground (arith, h, k)
]

module _ (P : Printing) where
  printed_pointer-other : (t u : Text) → has_prefix u (codes "0x") ≡ false → printed_pointer P t ≢ u
  unfolding has_prefix
  printed_pointer-other t u h e =
      let k : true ≡ false = subst (λ x. has_prefix x (codes "0x") ≡ false) (sym e) h in
      absurd (cc k)

  -- When the messages are two of the assistant with texts that are not empty, without reasoning and without tool calls,
  -- 0x and an address stand in the place of each text, after a blank message of the user; so a text that does not
  -- begin with 0x is not in what is sent for the assistant.
  pub convert_openai_to_claude-prints :
      (info : RelayInfo) (r : ChatRequest) (c d : ℕ) (s t : Text)
      → r.messages ≡ says "assistant" (c ∷ s) ∷ says "assistant" (d ∷ t) ∷ []
      → ((convert_openai_to_claude P info r).messages
          ≡ record { role = "user"; content = plain (codes " ") }
            ∷ record {
              role = "assistant";
              content = blocks (
                  text_block (printed_pointer P (c ∷ s))
                  ∷ text_block (printed_pointer P (d ∷ t))
                  ∷ []);
            }
            ∷ [])
        × ((u : Text)
            → has_prefix u (codes "0x") ≡ false
            → (printed_pointer P (c ∷ s) ≢ u) × (printed_pointer P (d ∷ t) ≢ u))
  unfolding convert_openai_to_claude add_messages add_message convert_assistant_message
      extract_text_content content_of_blocks merge_last merge_contents content_to_blocks
  convert_openai_to_claude-prints info r c d s t h =
      (rw h refl, λ u o. (printed_pointer-other (c ∷ s) u o, printed_pointer-other (d ∷ t) u o))

  -- An assistant's message that only calls tools, whose content is null, gets a text block with what is printed for
  -- null, when that is not empty.
  pub convert_assistant_message-null :
      (m : Message) (call : ToolCall) (calls : List ToolCall) (c : ℕ) (printed : Text)
      → m.content ≡ null
      → m.reasoning_content ≡ none
      → m.tool_calls ≡ call ∷ calls
      → P.of_value null ≡ c ∷ printed
      → convert_assistant_message P m
        ≡ blocks (text_block (c ∷ printed) ∷ tool_use_of P call ∷ map (tool_use_of P) calls)
  unfolding convert_assistant_message extract_text_content content_of_blocks
  convert_assistant_message-null m call calls c printed content reasoning tools null_text =
      rw (content, reasoning, tools, null_text) refl

  -- A reasoning effort sets a budget for thinking. It stays below the limit of the answer's tokens, as Claude
  -- demands, exactly when the effort is not "high" or the request's own limit is above 32768.
  pub convert_openai_to_claude-budget :
      (info : RelayInfo) (r : ChatRequest)
      → str_eq r.reasoning_effort "" ≡ false
      → (b : ℕ) × ((convert_openai_to_claude P info r).thinking
          ≡ some (record { kind = "enabled"; budget_tokens = some (pos b) }))
        × ((b < (convert_openai_to_claude P info r).max_tokens) ↔ (
            (str_eq r.reasoning_effort "high" ≡ false)
            ⊎ (32768 < limit_of r.max_tokens r.max_completion_tokens)))
  unfolding convert_openai_to_claude
  convert_openai_to_claude-budget info r h = (
    budget r.reasoning_effort,
    thinking-budget r.reasoning_effort h,
    budget-limit r.reasoning_effort (limit_of r.max_tokens r.max_completion_tokens) h,
  )
