-- ===== src/Vendor/ClaudeEvents.antt =====
-- server/internal/relay/channel/openai/claude_response.go: an OpenAI stream becomes a stream of Claude's events. A
-- writer is the list of the events sent, the newest first; JSON, `strings.TrimSpace`, the client's presence and the
-- scanner's error are parameters. Pings, headers and the time of the first answer are left out.
pub mod Phases
pub mod Blocks
pub mod Closed
use token_flux.Base.{
  ℕ, suc, ℤ, pos, ◌+ℤ◌, int64, Bool, true, false, not, ◌&&◌, ◌||◌, String, Option, none, some, List,
  [], ◌∷◌, ◌++◌, str_eq, if◌then◌else◌,
}
use token_flux.Bytes.{Text, codes, has_prefix}
use token_flux.Cost.{Usage}
use token_flux.ReasonMap.{openai_finish_reason_to_claude}
use token_flux.StreamStatus.{StreamStatus, set_end_reason}
use token_flux.Vendor.Chat.{
  no_usage, ToolCall, Message, UsageWithDetails, StreamChoice, StreamResponse, RelayInfo, is_nil,
  text_or_empty, text_of,
}
use token_flux.Vendor.Claude.{ClaudeContentBlock, text_block, thinking_block, tool_use_block}
use token_flux.Vendor.Sse.{extract_sse_data, is_done}
use token_flux.Json.{Value, object, end}

pub data ClaudeDelta : Type 0 where
  text_delta thinking_delta input_json_delta : Text → ClaudeDelta

-- `ClaudeResponse` as the stream uses it; `message_start` carries the identifier, the model and the input tokens.
pub data ClaudeEvent : Type 0 where
  message_start : Text → Text → ℤ → ClaudeEvent
  content_block_start : ℕ → ClaudeContentBlock → ClaudeEvent
  content_block_delta : ℕ → ClaudeDelta → ClaudeEvent
  content_block_stop : ℕ → ClaudeEvent
  message_delta : String → ℤ → ClaudeEvent
  message_stop : ClaudeEvent

-- The variables of the loop, with what was written and the status of the stream.
pub record ClaudeStream : Type 0 where
  pub start_sent : Bool
  pub finish_reason : String
  pub content_index : ℕ
  pub input_tokens : ℤ
  pub output_tokens : ℤ
  pub current_block_type : String
  pub sent : List ClaudeEvent
  pub status : StreamStatus

abbrev pub write_claude_sse : ClaudeEvent → ClaudeStream → ClaudeStream
write_claude_sse e s = record s { sent = e ∷ s.sent }

abbrev pub stop_block : ClaudeStream → ClaudeStream
stop_block s = record s {
  sent = content_block_stop s.content_index ∷ s.sent;
  content_index = suc s.content_index;
}

abbrev pub start_block : ClaudeContentBlock → ClaudeStream → ClaudeStream
start_block b s = record s {
  sent = content_block_start s.content_index b ∷ s.sent;
  current_block_type = b.kind;
}

-- Another block that is open is stopped.
abbrev pub stop_other : String → ClaudeStream → ClaudeStream
stop_other kind s =
    if not (str_eq s.current_block_type "") && not (str_eq s.current_block_type kind)
    then stop_block s
    else s

abbrev pub start_new : ClaudeContentBlock → ClaudeStream → ClaudeStream
start_new b s = if not (str_eq s.current_block_type b.kind) then start_block b s else s

abbrev pub write_delta : ClaudeDelta → ClaudeStream → ClaudeStream
write_delta d s = write_claude_sse (content_block_delta s.content_index d) s

unfoldable pub on_text : Text → ClaudeStream → ClaudeStream
on_text t s =
    if is_nil t
    then s
    else write_delta (text_delta t) (start_new (text_block []) (stop_other "text" s))

unfoldable pub on_thinking : Text → ClaudeStream → ClaudeStream
on_thinking t s =
    if is_nil t
    then s
    else write_delta (thinking_delta t) (start_new (thinking_block []) (stop_other "thinking" s))

abbrev pub stop_open : ClaudeStream → ClaudeStream
stop_open s = if not (str_eq s.current_block_type "") then stop_block s else s

unfoldable pub on_tool_name : ToolCall → ClaudeStream → ClaudeStream
on_tool_name c s =
    if is_nil c.function.name
    then s
    else start_block (tool_use_block c.id c.function.name (object end)) (stop_open s)

unfoldable pub on_tool_arguments : ToolCall → ClaudeStream → ClaudeStream
on_tool_arguments c s =
    if is_nil c.function.arguments then s else write_delta (input_json_delta c.function.arguments) s

unfoldable pub on_tool_calls : List ToolCall → ClaudeStream → ClaudeStream
unfolding on_tool_name on_tool_arguments
on_tool_calls [] s = s
on_tool_calls (c ∷ cs) s = on_tool_calls cs (on_tool_arguments c (on_tool_name c s))

abbrev pub on_finish : Option String → ClaudeStream → ClaudeStream
on_finish none s = s
on_finish (some r) s = record s { finish_reason = r }

unfoldable pub on_choices : List StreamChoice → ClaudeStream → ClaudeStream
unfolding on_text on_thinking on_tool_calls
on_choices [] s = s
on_choices (c ∷ cs) s = on_choices cs (
    on_finish c.finish_reason (
      on_tool_calls c.delta.tool_calls (
        on_thinking (text_or_empty c.delta.reasoning_content)
          (on_text (text_or_empty (text_of c.delta.content)) s))))

abbrev pub on_usage : Option UsageWithDetails → ClaudeStream → ClaudeStream
on_usage none s = s
on_usage (some u) s = record s {
  input_tokens = u.prompt_tokens;
  output_tokens = u.completion_tokens;
}

abbrev pub stream_model : RelayInfo → Text
stream_model info =
    if info.is_model_mapped then info.upstream_model_name else info.origin_model_name

abbrev pub on_start : RelayInfo → ClaudeStream → ClaudeStream
on_start info s = if s.start_sent then s else record s {
  start_sent = true;
  sent =
      message_start (codes "msg_" ++ info.request_id) (stream_model info) s.input_tokens ∷ s.sent;
}

-- A chunk that could be decoded.
unfoldable pub on_chunk : RelayInfo → StreamResponse → ClaudeStream → ClaudeStream
unfolding on_choices
on_chunk info r s = on_choices r.choices (on_start info (on_usage r.usage s))

abbrev pub stop_last : ClaudeStream → ClaudeStream
stop_last s =
    if not (str_eq s.current_block_type "")
    then record (stop_block s) { current_block_type = "" }
    else s

abbrev pub ended : String → Option String → ClaudeStream → ClaudeStream
ended reason err s = record s { status = set_end_reason reason err s.status }

-- At the end mark of OpenAI's streams.
unfoldable pub on_done : ClaudeStream → ClaudeStream
on_done s =
    let t = stop_last s in
    ended "done" none (
      write_claude_sse message_stop (
        write_claude_sse
          (message_delta (openai_finish_reason_to_claude t.finish_reason) t.output_tokens) t))

-- How the loop is left: at the end of the stream, or because the client has gone.
pub data Left : Type 0 where
  finished interrupted : Left

abbrev pub on_decoded : RelayInfo → Option StreamResponse → ClaudeStream → ClaudeStream
on_decoded info none s = s
on_decoded info (some r) s = on_chunk info r s

abbrev pub is_unexpected : StreamStatus → Bool
is_unexpected st = str_eq st.reason ""

-- The events that end a stream which sent no the end mark.
unfoldable pub on_cut : ClaudeStream → ClaudeStream
on_cut s =
    if is_unexpected s.status
    then ended "done" none (write_claude_sse message_stop (stop_open s))
    else s

abbrev pub claude_usage : ClaudeStream → Usage
claude_usage s = record {
  prompt_tokens = s.input_tokens;
  completion_tokens = s.output_tokens;
  total_tokens = int64 (s.input_tokens +ℤ s.output_tokens);
  cache_creation_tokens = pos 0;
  prompt_tokens_details = none;
  completion_token_details = none;
  cache_included_in_prompt = true;
}

abbrev pub new_claude_stream : StreamStatus → ClaudeStream
new_claude_stream st = record {
  start_sent = false;
  finish_reason = "";
  content_index = 0;
  input_tokens = pos 0;
  output_tokens = pos 0;
  current_block_type = "";
  sent = [];
  status = st;
}

module _ (trim : Text → Text) (decode : Text → Option StreamResponse) (info : RelayInfo)
    (gone : ℕ → Bool) where
  -- The loop over the lines, of which `n` have been read.
  unfoldable pub scan_lines : ℕ → List Text → ClaudeStream → Left × ClaudeStream
  unfolding on_chunk on_done
  scan_lines n [] s = (finished, s)
  scan_lines n (line ∷ lines) s = elim (gone n) [
    | true ↦ (interrupted, ended "client_gone" (some "context canceled") s)
    | false ↦ elim (extract_sse_data trim line) [
      | none ↦ scan_lines (suc n) lines s
      | some payload ↦ elim (is_done payload) [
        | true ↦ (finished, on_done s)
        | false ↦ scan_lines (suc n) lines (on_decoded info (decode payload) s)
      ]
    ]
  ]

  abbrev pub after_lines :
      Option String → Left × ClaudeStream → Option String × Usage × ClaudeStream
  after_lines failure (interrupted, s) =
      (some "stream interrupted by client disconnect", no_usage, s)
  after_lines (some e) (finished, s) = (some e, no_usage, ended "error" (some e) s)
  after_lines none (finished, s) = let t = on_cut s in (none, claude_usage t, t)

  -- `handleClaudeInboundStream` of an answer with status 200; `failure` is an error of the scanner other than EOF
  -- while the client is there.
  unfoldable pub handle_claude_inbound_stream :
      Option String → List Text → StreamStatus → Option String × Usage × ClaudeStream
  unfolding scan_lines on_cut
  handle_claude_inbound_stream failure lines st =
      after_lines failure (scan_lines 0 lines (new_claude_stream st))
