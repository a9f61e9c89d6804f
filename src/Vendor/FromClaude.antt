-- ===== src/Vendor/FromClaude.antt =====
-- server/internal/relay/channel/claude/response.go: an answer of Claude becomes an answer of OpenAI's chat, whole or as
-- a stream. A writer is the list of what was sent, the newest first; JSON, `strings.TrimSpace`, the client's presence
-- and the scanner's error are parameters. Pings, headers and the time of the first answer are left out.
pub mod Tools
pub mod Texts
use Prim.Native.String.{◌++◌ as str_append}
use token_flux.Base.{
  ℕ, suc, ◌/◌, ℤ, pos, ◌+ℤ◌, ◌-ℤ◌, int64, ltb, ltb_ℤ, eq_ℤ, Bool, true, false, not, ◌&&◌, String,
  Option, none, some, List, [], ◌∷◌, ◌++◌, length, str_eq, if◌then◌else◌,
}
use token_flux.Bytes.{Text, codes, has_prefix}
use token_flux.Json.{Value, null, text}
use token_flux.Cost.{TokenDetails, Usage}
use token_flux.ReasonMap.{claude_stop_reason_to_openai}
use token_flux.StreamStatus.{StreamStatus, set_end_reason}
use token_flux.Vendor.Chat.{
  no_usage, FunctionCall, ToolCall, Message, UsageWithDetails, Choice, ChatCompletionResponse,
  StreamChoice, StreamResponse, RelayInfo, is_nil, text_or_empty,
}
use token_flux.Vendor.Claude.{ClaudeContentBlock, ClaudeCacheUsage, ClaudeUsage}
use token_flux.Vendor.Parts.{join_lines}
use token_flux.Vendor.Sse.{extract_sse_data}
use token_flux.Vendor.ChatStream.{
  with_ttl, no_details, claude_usage_to_token_details, build_usage_from_claude, no_claude_usage,
  MessageInfo, Delta, Event, Sent, chunk, done, ChatStream, bare_delta, content_delta, role_delta,
  tool_delta, opened_call, arguments_call, or_else, merge_usage, ended, usage_of, reason_or_stop,
  new_chat_stream,
}

module _ (info : RelayInfo) (now : ℕ) where
  abbrev pub chunk_of : ChatStream → StreamChoice → Option UsageWithDetails → StreamResponse
  chunk_of s c u = record {
    id = codes "chatcmpl-" ++ info.request_id;
    created = now;
    model = or_else s.model_name info.origin_model_name;
    choices = c ∷ [];
    usage = u;
  }

  -- `writeStreamChunk(writer, newChunk(delta))`
  abbrev pub write_delta : Message → ChatStream → ChatStream
  write_delta d s = record s {
    sent =
        chunk (chunk_of s (record { index = pos 0; delta = d; finish_reason = none }) none)
        ∷ s.sent;
  }

  abbrev pub on_message : Option MessageInfo → ChatStream → ChatStream
  on_message none s = s
  on_message (some m) s = record s {
    model_name = or_else m.model info.origin_model_name;
    usage = elim m.usage [ none ↦ s.usage | some u ↦ u ];
  }

  abbrev pub write_role : ChatStream → ChatStream
  write_role s =
      if s.role_chunk_sent then s else record (write_delta role_delta s) { role_chunk_sent = true }

  unfoldable pub on_block_start : Option ClaudeContentBlock → ChatStream → ChatStream
  on_block_start none s = s
  on_block_start (some b) s =
      if str_eq b.kind "tool_use"
      then record (write_delta (tool_delta (opened_call b)) s) {
        tool_call_idx = suc s.tool_call_idx;
      }
      else s

  abbrev pub on_text_delta : Text → ChatStream → ChatStream
  on_text_delta [] s = s
  on_text_delta (c ∷ t) s = record (write_delta (content_delta (c ∷ t)) s) {
    response_text = s.response_text ++ c ∷ t;
  }

  abbrev pub on_thinking_delta : Text → ChatStream → ChatStream
  on_thinking_delta [] s = s
  on_thinking_delta (c ∷ t) s =
      write_delta (record bare_delta { reasoning_content = some (c ∷ t) }) s

  abbrev pub on_json_delta : Text → ChatStream → ChatStream
  on_json_delta [] s = s
  on_json_delta (c ∷ t) s = write_delta (tool_delta (arguments_call s.tool_call_idx (c ∷ t))) s

  unfoldable pub on_delta : Option Delta → ChatStream → ChatStream
  on_delta none s = s
  on_delta (some d) s =
      if str_eq d.kind "text_delta"
      then on_text_delta (text_or_empty d.text) s
      else if str_eq d.kind "thinking_delta"
      then on_thinking_delta (text_or_empty d.thinking) s
      else if str_eq d.kind "input_json_delta"
      then on_json_delta (text_or_empty d.partial_json) s
      else s

  abbrev pub stop_reason_of : Option Delta → Option String
  stop_reason_of none = none
  stop_reason_of (some d) = d.stop_reason

  abbrev pub on_stop_reason : Option String → ChatStream → ChatStream
  on_stop_reason none s = s
  on_stop_reason (some r) s = record s { finish_reason = claude_stop_reason_to_openai r }

  -- The last chunk, with the reason and the usage, and the end mark.
  unfoldable pub finish_stream : ChatStream → ChatStream
  unfolding usage_of
  finish_stream s =
      let last : StreamChoice = record {
        index = pos 0;
        delta = bare_delta;
        finish_reason = some (reason_or_stop s.finish_reason);
      } in
      ended "done" none
        (record s { sent = done ∷ chunk (chunk_of s last (some (usage_of s))) ∷ s.sent })

  abbrev pub stream_error_text : Option String → String
  stream_error_text none = "claude stream error"
  stream_error_text (some e) = str_append "claude stream error: " e

  -- One decoded event.
  unfoldable pub on_event : Event → ChatStream → ChatStream
  unfolding on_block_start on_delta merge_usage finish_stream
  on_event e s =
      if str_eq e.kind "message_start"
      then write_role (on_message e.message s)
      else if str_eq e.kind "content_block_start"
      then on_block_start e.content_block s
      else if str_eq e.kind "content_block_delta"
      then on_delta e.delta s
      else if str_eq e.kind "error"
      then ended "error" (some (stream_error_text e.error)) s
      else if str_eq e.kind "message_delta"
      then record (on_stop_reason (stop_reason_of e.delta) s) {
        usage = merge_usage e.usage s.usage;
      }
      else if str_eq e.kind "message_stop"
      then finish_stream s
      else s

  abbrev pub on_payload : Option Event → ChatStream → ChatStream
  on_payload none s = s
  on_payload (some e) s = on_event e s

  -- The loop over the lines, of which `n` have been read; it reads on after the end of the message.
  unfoldable pub scan_events :
      (Text → Text)
      → (Text → Option Event)
      → (ℕ → Bool)
      → ℕ
      → List Text
      → ChatStream
      → Bool × ChatStream
  unfolding on_event
  scan_events trim decode gone n [] s = (true, s)
  scan_events trim decode gone n (line ∷ lines) s = elim (gone n) [
    | true ↦ (false, ended "client_gone" (some "context canceled") s)
    | false ↦ elim (extract_sse_data trim line) [
      | none ↦ scan_events trim decode gone (suc n) lines s
      | some payload ↦ scan_events trim decode gone (suc n) lines (on_payload (decode payload) s)
    ]
  ]

  unfoldable pub on_end : ChatStream → ChatStream
  unfolding finish_stream
  on_end s = if str_eq s.status.reason "" then finish_stream s else s

  abbrev pub after_events : Option String → Bool × ChatStream → Option String × Usage × ChatStream
  after_events failure (false, s) =
      (some "stream interrupted by client disconnect", build_usage_from_claude s.usage, s)
  after_events (some e) (true, s) = (some e, no_usage, ended "error" (some e) s)
  after_events none (true, s) = let t = on_end s in (none, build_usage_from_claude t.usage, t)

  -- `handleStreamToOpenAI` of an answer with status 200; `failure` is an error of the scanner other than EOF while
  -- the client is there.
  unfoldable pub handle_stream_to_openai :
      (Text → Text)
      → (Text → Option Event)
      → (ℕ → Bool)
      → Option String
      → List Text
      → StreamStatus
      → Option String × Usage × ChatStream
  unfolding scan_events on_end build_usage_from_claude
  handle_stream_to_openai trim decode gone failure lines st =
      after_events failure (scan_events trim decode gone 0 lines (new_chat_stream st))
