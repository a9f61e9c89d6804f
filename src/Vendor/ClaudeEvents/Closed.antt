-- ===== src/Vendor/ClaudeEvents/Closed.antt =====
-- How the streams of server/internal/relay/channel/openai/claude_response.go end.
use token_flux.Base.{
  ℕ, suc, Bool, true, false, String, Option, none, some, List, [], ◌∷◌, Bool-cases, Option-cases,
  ◌⊎◌, inl, inr, ◌≡◌, refl, sym, ◌∙◌, arith,
}
use token_flux.Bytes.{Text}
use token_flux.StreamStatus.{StreamStatus, set_end_reason}
use token_flux.Vendor.Chat.{
  ToolCall, StreamChoice, StreamResponse, RelayInfo, text_or_empty, text_of,
}
use token_flux.Vendor.Sse.{extract_sse_data, is_done}
use token_flux.Vendor.ClaudeEvents.{
  ClaudeStream, on_text, on_thinking, on_tool_name, on_tool_arguments, on_tool_calls, on_finish,
  on_choices, on_usage, on_start, on_chunk, on_decoded, on_done, on_cut, is_unexpected, Left,
  finished, interrupted, new_claude_stream, scan_lines, after_lines, stop_last,
  handle_claude_inbound_stream,
}
use token_flux.Vendor.ClaudeEvents.Blocks.{IsWell, on_decoded-IsWell, on_done-stops, on_cut-stops}
use token_flux.Vendor.ClaudeEvents.Phases.{stopped, phase_after}

on_tool_calls-status :
    (cs : List ToolCall) (s : ClaudeStream) → (on_tool_calls cs s).status ≡ s.status
unfolding on_tool_calls on_tool_name on_tool_arguments
on_tool_calls-status [] s = refl
on_tool_calls-status (c ∷ cs) s =
    let rest = on_tool_calls-status cs (on_tool_arguments c (on_tool_name c s)) in
    ground (arith, rest)

on_choices-status :
    (cs : List StreamChoice) (s : ClaudeStream) → (on_choices cs s).status ≡ s.status
unfolding on_choices on_text on_thinking
on_choices-status [] s = refl
on_choices-status (c ∷ cs) s =
    let t : ClaudeStream =
      on_thinking (text_or_empty c.delta.reasoning_content)
        (on_text (text_or_empty (text_of c.delta.content)) s) in
    let parts : t.status ≡ s.status = ground arith in
    let calls = on_tool_calls-status c.delta.tool_calls t in
    let u : ClaudeStream = on_finish c.finish_reason (on_tool_calls c.delta.tool_calls t) in
    let finish : u.status ≡ (on_tool_calls c.delta.tool_calls t).status = ground arith in
    on_choices-status cs u ∙ finish ∙ calls ∙ parts

on_decoded-status :
    (info : RelayInfo) (r : Option StreamResponse) (s : ClaudeStream)
    → (on_decoded info r s).status ≡ s.status
unfolding on_chunk
on_decoded-status info none s = refl
on_decoded-status info (some r) s =
    let start : (on_start info (on_usage r.usage s)).status ≡ s.status = ground arith in
    on_choices-status r.choices (on_start info (on_usage r.usage s)) ∙ start

-- What the loop leaves: a stream that waits for its end, or one that the end mark has closed.
abbrev Waits : ClaudeStream → Type 0
Waits s = IsWell s × (is_unexpected s.status ≡ true) × (s.status.ended ≡ false)

abbrev Closed : ClaudeStream → Type 0
Closed s =
    (is_unexpected s.status ≡ false)
    × ((s.start_sent ≡ false) ⊎ (phase_after s.sent ≡ some stopped))

abbrev IsLeft : Left × ClaudeStream → Type 0
IsLeft (finished, s) = Waits s ⊎ Closed s
IsLeft (interrupted, s) = Unit

on_done-Closed : (s : ClaudeStream) → Waits s → Closed (on_done s)
unfolding on_done set_end_reason
on_done-Closed s (well, _, fresh) =
    let start : (stop_last s).start_sent ≡ s.start_sent = ground arith in
    let status : (stop_last s).status ≡ s.status = ground arith in
    (
      rw (status, fresh) refl,
      elim (Bool-cases s.start_sent) [
        | inl e ↦ inr (on_done-stops s (e, well.0)).0
        | inr e ↦ inl (start ∙ e)
      ],
    )

on_decoded-Waits :
    (info : RelayInfo) (r : Option StreamResponse) (s : ClaudeStream)
    → Waits s
    → Waits (on_decoded info r s)
on_decoded-Waits info r s (well, open_, fresh) =
    let same = on_decoded-status info r s in
    (on_decoded-IsWell info r s well, rw same open_, rw same fresh)

on_cut-Closed :
    (s : ClaudeStream)
    → s.start_sent ≡ true
    → Waits s ⊎ Closed s
    → phase_after (on_cut s).sent ≡ some stopped
unfolding on_cut
on_cut-Closed s start (inl (well, open_, fresh)) = on_cut-stops s open_ (start, well.0)
on_cut-Closed s start (inr (closed, inl none_sent)) = ground (arith, start, none_sent)
on_cut-Closed s start (inr (closed, inr all)) = rw closed all

on_cut-start_sent : (s : ClaudeStream) → (on_cut s).start_sent ≡ s.start_sent
unfolding on_cut
on_cut-start_sent s = ground arith

module _ (trim : Text → Text) (decode : Text → Option StreamResponse) (info : RelayInfo)
    (gone : ℕ → Bool) where
  scan_lines-IsLeft :
      (n : ℕ) (lines : List Text) (s : ClaudeStream)
      → Waits s
      → IsLeft (scan_lines trim decode info gone n lines s)
  unfolding scan_lines
  scan_lines-IsLeft n [] s h = inl h
  scan_lines-IsLeft n (line ∷ lines) s h = elim (Bool-cases (gone n)) [
    | inl e ↦ rw (e, IsLeft, scan_lines) tt
    | inr e ↦
        rw (e, IsLeft, scan_lines)
          (elim (Option-cases (extract_sse_data trim line)) [
            | inl none_there ↦
                rw (none_there, IsLeft, scan_lines) (scan_lines-IsLeft (suc n) lines s h)
            | inr (payload, there) ↦
                rw (there, IsLeft, scan_lines)
                  (elim (Bool-cases (is_done payload)) [
                    | inl d ↦ rw (d, IsLeft, scan_lines) (inr (on_done-Closed s h))
                    | inr d ↦
                        rw (d, IsLeft, scan_lines)
                          (scan_lines-IsLeft (suc n) lines (on_decoded info (decode payload) s)
                            (on_decoded-Waits info (decode payload) s h))
                  ])
          ])
  ]

  after_lines-stopped :
      (failure : Option String) (left : Left × ClaudeStream)
      → IsLeft left
      → (after_lines trim decode info gone failure left).0 ≡ none
      → (after_lines trim decode info gone failure left).2.start_sent ≡ true
      → phase_after (after_lines trim decode info gone failure left).2.sent ≡ some stopped
  after_lines-stopped failure (interrupted, s) h e start = ground (arith, e)
  after_lines-stopped (some x) (finished, s) h e start = ground (arith, e)
  after_lines-stopped none (finished, s) h e start =
      on_cut-Closed s (sym (on_cut-start_sent s) ∙ start) h

  -- When a stream is relayed without an error and a chunk of it could be read, the events that the client gets are
  -- one whole message: its blocks are opened and closed one after the other, numbered from 0, every part of a text or
  -- a thought stands in an open block of its type, and the message is closed.
  pub handle_claude_inbound_stream-stopped :
      (failure : Option String) (lines : List Text) (st : StreamStatus)
      → is_unexpected st ≡ true
      → st.ended ≡ false
      → (handle_claude_inbound_stream trim decode info gone failure lines st).0 ≡ none
      → (handle_claude_inbound_stream trim decode info gone failure lines st).2.start_sent ≡ true
      → phase_after (handle_claude_inbound_stream trim decode info gone failure lines st).2.sent
        ≡ some stopped
  unfolding handle_claude_inbound_stream phase_after
  handle_claude_inbound_stream-stopped failure lines st open_ fresh =
      after_lines-stopped failure (scan_lines trim decode info gone 0 lines (new_claude_stream st))
        (scan_lines-IsLeft 0 lines (new_claude_stream st) ((refl, refl), open_, fresh))
