-- ===== src/Vendor/ClaudeEvents/Blocks.antt =====
-- The order of the events that server/internal/relay/channel/openai/claude_response.go sends, as an automaton that
-- reads them: one message, in it one block after the other, numbered from 0, each with parts of its own type. Parts of
-- a tool's arguments are read anywhere, if they bear the number of the block that is open or comes next.
use token_flux.Base.{
  ◌==◌, true, ◌&&◌, ◌||◌, String, Option, none, some, List, [], ◌∷◌, str_eq, Bool-cases, inl, inr,
  ◌≡◌, refl, arith,
}
use token_flux.Bytes.{Text}
use token_flux.Vendor.Chat.{
  ToolCall, StreamChoice, StreamResponse, UsageWithDetails, RelayInfo, is_nil, text_or_empty,
  text_of,
}
use token_flux.Vendor.Claude.{text_block, thinking_block}
use token_flux.Vendor.ClaudeEvents.{
  text_delta, thinking_delta, input_json_delta, ClaudeStream, on_text, on_thinking, on_tool_name,
  on_tool_arguments, on_tool_calls, on_finish, on_choices, on_usage, on_start, on_chunk, on_decoded,
  on_done, on_cut, is_unexpected,
}
use token_flux.Vendor.ClaudeEvents.Phases.{
  reads, phase_after, IsOrderly, IsRunning, write_delta-IsOrderly, write_part-IsRunning, stopped,
}

on_text-IsRunning : (t : Text) (s : ClaudeStream) → IsRunning s → IsRunning (on_text t s)
unfolding on_text
on_text-IsRunning [] s h = h
on_text-IsRunning (c ∷ t) s h =
    write_part-IsRunning (text_delta (c ∷ t)) (text_block []) s refl refl h

on_thinking-IsRunning : (t : Text) (s : ClaudeStream) → IsRunning s → IsRunning (on_thinking t s)
unfolding on_thinking
on_thinking-IsRunning [] s h = h
on_thinking-IsRunning (c ∷ t) s h =
    write_part-IsRunning (thinking_delta (c ∷ t)) (thinking_block []) s refl refl h

on_tool_name-IsRunning :
    (c : ToolCall) (s : ClaudeStream) → IsRunning s → IsRunning (on_tool_name c s)
unfolding on_tool_name phase_after reads
on_tool_name-IsRunning c s (start, h) = elim (Bool-cases (is_nil c.function.name)) [
  | inl e ↦ rw e (start, h)
  | inr e ↦ elim (Bool-cases (str_eq s.current_block_type "")) [
    | inl d ↦ rw (e, d) (ground (arith, h, start, d))
    | inr d ↦ rw (e, d) (ground (arith, h, start, d))
  ]
]

on_tool_arguments-IsRunning :
    (c : ToolCall) (s : ClaudeStream) → IsRunning s → IsRunning (on_tool_arguments c s)
unfolding on_tool_arguments
on_tool_arguments-IsRunning c s (start, h) = elim (Bool-cases (is_nil c.function.arguments)) [
  | inl e ↦ rw e (start, h)
  | inr e ↦
      rw e (start, write_delta-IsOrderly (input_json_delta c.function.arguments) s start refl h)
]

on_tool_calls-IsRunning :
    (cs : List ToolCall) (s : ClaudeStream) → IsRunning s → IsRunning (on_tool_calls cs s)
unfolding on_tool_calls
on_tool_calls-IsRunning [] s h = h
on_tool_calls-IsRunning (c ∷ cs) s h =
    on_tool_calls-IsRunning cs (on_tool_arguments c (on_tool_name c s))
      (on_tool_arguments-IsRunning c (on_tool_name c s) (on_tool_name-IsRunning c s h))

on_finish-IsRunning :
    (r : Option String) (s : ClaudeStream) → IsRunning s → IsRunning (on_finish r s)
on_finish-IsRunning none s h = h
on_finish-IsRunning (some r) s h = h

on_choices-IsRunning :
    (cs : List StreamChoice) (s : ClaudeStream) → IsRunning s → IsRunning (on_choices cs s)
unfolding on_choices
on_choices-IsRunning [] s h = h
on_choices-IsRunning (c ∷ cs) s h =
    let text : Text = text_or_empty (text_of c.delta.content) in
    let thinking : Text = text_or_empty c.delta.reasoning_content in
    let t = on_thinking thinking (on_text text s) in
    on_choices-IsRunning cs (on_finish c.finish_reason (on_tool_calls c.delta.tool_calls t)) (
      on_finish-IsRunning c.finish_reason (on_tool_calls c.delta.tool_calls t) (
        on_tool_calls-IsRunning c.delta.tool_calls t
          (on_thinking-IsRunning thinking (on_text text s) (on_text-IsRunning text s h))))

-- Before the first chunk nothing was sent and no block is open.
abbrev pub IsWell : ClaudeStream → Type 0
IsWell s =
    IsOrderly s × ((s.start_sent || str_eq s.current_block_type "" && s.content_index == 0) ≡ true)

on_usage-IsWell :
    (u : Option UsageWithDetails) (s : ClaudeStream) → IsWell s → IsWell (on_usage u s)
on_usage-IsWell none s h = h
on_usage-IsWell (some u) s h = h

on_start-IsRunning : (info : RelayInfo) (s : ClaudeStream) → IsWell s → IsRunning (on_start info s)
unfolding phase_after reads
on_start-IsRunning info s (h, fresh) = elim (Bool-cases s.start_sent) [
  | inl e ↦ rw e (ground (arith, h, e))
  | inr e ↦ rw e (ground (arith, h, e, fresh))
]

on_chunk-IsRunning :
    (info : RelayInfo) (r : StreamResponse) (s : ClaudeStream)
    → IsWell s
    → IsRunning (on_chunk info r s)
unfolding on_chunk
on_chunk-IsRunning info r s h =
    on_choices-IsRunning r.choices (on_start info (on_usage r.usage s))
      (on_start-IsRunning info (on_usage r.usage s) (on_usage-IsWell r.usage s h))

pub on_decoded-IsWell :
    (info : RelayInfo) (r : Option StreamResponse) (s : ClaudeStream)
    → IsWell s
    → IsWell (on_decoded info r s)
on_decoded-IsWell info none s h = h
on_decoded-IsWell info (some r) s h =
    let running = on_chunk-IsRunning info r s h in (running.1, rw running.0 refl)

-- A message that has started is closed by what is sent at the end mark.
pub on_done-stops :
    (s : ClaudeStream)
    → IsRunning s
    → (phase_after (on_done s).sent ≡ some stopped) × ((on_done s).start_sent ≡ true)
unfolding on_done phase_after reads
on_done-stops s (start, h) = elim (Bool-cases (str_eq s.current_block_type "")) [
  | inl e ↦ rw e (ground (arith, h, e, start))
  | inr e ↦ rw e (ground (arith, h, e, start))
]

-- So it is by what is sent at the end of a stream without the end mark.
pub on_cut-stops :
    (s : ClaudeStream)
    → is_unexpected s.status ≡ true
    → IsRunning s
    → phase_after (on_cut s).sent ≡ some stopped
unfolding on_cut phase_after reads
on_cut-stops s cut (start, h) = elim (Bool-cases (str_eq s.current_block_type "")) [
  | inl e ↦ rw (cut, e) (ground (arith, h, e, start))
  | inr e ↦ rw (cut, e) (ground (arith, h, e, start))
]
