-- ===== src/Vendor/ChatStream.antt =====
-- server/internal/relay/channel/claude/response.go: the events that Claude sends, the usage they report, and the
-- variables of the loop that turns them into a stream of OpenAI's chat. A writer is the list of what was sent, the
-- newest first.
use token_flux.Base.{
  ℕ, ◌/◌, ℤ, pos, ◌+ℤ◌, ◌-ℤ◌, int64, ltb_ℤ, eq_ℤ, Bool, false, String, Option, none, some, List, [],
  ◌∷◌, length, str_eq, if◌then◌else◌,
}
use token_flux.Bytes.{Text}
use token_flux.Json.{null, text}
use token_flux.Cost.{TokenDetails, Usage}
use token_flux.StreamStatus.{StreamStatus, set_end_reason}
use token_flux.Vendor.Chat.{ToolCall, Message, UsageWithDetails, StreamResponse, is_nil}
use token_flux.Vendor.Claude.{ClaudeContentBlock, ClaudeCacheUsage, ClaudeUsage}

abbrev pub with_ttl : Option ClaudeCacheUsage → TokenDetails → TokenDetails
with_ttl none d = d
with_ttl (some c) d = record d {
  cached_creation_5m_tokens = c.ephemeral_5m_input_tokens;
  cached_creation_1h_tokens = c.ephemeral_1h_input_tokens;
}

abbrev pub no_details : TokenDetails
no_details = record {
  cached_tokens = pos 0;
  cached_creation_tokens = pos 0;
  cached_creation_5m_tokens = pos 0;
  cached_creation_1h_tokens = pos 0;
  audio_tokens = pos 0;
  text_tokens = pos 0;
  image_tokens = pos 0;
  reasoning_tokens = pos 0;
  accepted_prediction_tokens = pos 0;
  rejected_prediction_tokens = pos 0;
}

-- `claudeUsageToTokenDetails`, of a usage that is there.
unfoldable pub claude_usage_to_token_details : ClaudeUsage → TokenDetails
claude_usage_to_token_details u = with_ttl u.cache_creation (record no_details {
  cached_tokens = u.cache_read_input_tokens;
  cached_creation_tokens = u.cache_creation_input_tokens;
})

-- `buildUsageFromClaude`
unfoldable pub build_usage_from_claude : ClaudeUsage → Usage
unfolding claude_usage_to_token_details
build_usage_from_claude u = record {
  prompt_tokens = u.input_tokens;
  completion_tokens = u.output_tokens;
  total_tokens = int64 (u.input_tokens +ℤ u.output_tokens);
  cache_creation_tokens = u.cache_creation_input_tokens;
  prompt_tokens_details = some (claude_usage_to_token_details u);
  completion_token_details = none;
  cache_included_in_prompt = false;
}

abbrev pub no_claude_usage : ClaudeUsage
no_claude_usage = record {
  input_tokens = pos 0;
  output_tokens = pos 0;
  cache_creation_input_tokens = pos 0;
  cache_read_input_tokens = pos 0;
  cache_creation = none;
}

-- The parts of a `ClaudeResponse` that the stream reads, as decoded; `error` is what JSON writes for it.
pub record MessageInfo : Type 0 where
  pub model : Text
  pub usage : Option ClaudeUsage

pub record Delta : Type 0 where
  pub kind : String
  pub text : Option Text
  pub thinking : Option Text
  pub partial_json : Option Text
  pub stop_reason : Option String

pub record Event : Type 0 where
  pub kind : String
  pub message : Option MessageInfo
  pub content_block : Option ClaudeContentBlock
  pub delta : Option Delta
  pub usage : Option ClaudeUsage
  pub error : Option String

pub data Sent : Type 0 where
  chunk : StreamResponse → Sent
  done : Sent

-- The variables of the loop, with what was written and the status of the stream.
pub record ChatStream : Type 0 where
  pub usage : ClaudeUsage
  pub model_name : Text
  pub finish_reason : String
  pub tool_call_idx : ℕ
  pub role_chunk_sent : Bool
  pub response_text : Text
  pub sent : List Sent
  pub status : StreamStatus

abbrev pub bare_delta : Message
bare_delta = record {
  role = "";
  content = null;
  reasoning_content = none;
  tool_calls = [];
  tool_call_id = [];
}

abbrev pub content_delta : Text → Message
content_delta t = record bare_delta { content = text t }

abbrev pub role_delta : Message
role_delta = record bare_delta { role = "assistant"; content = text [] }

abbrev pub tool_delta : ToolCall → Message
tool_delta c = record bare_delta { tool_calls = c ∷ [] }

-- The call that a tool's block opens. The source sets no index: it is 0, which JSON leaves out (`on_wire`).
abbrev pub opened_call : ClaudeContentBlock → ToolCall
opened_call b = record {
  index = pos 0;
  id = b.id;
  kind = "function";
  function = record { name = b.name; arguments = [] };
}

-- A part of the arguments of the last tool that was opened.
abbrev pub arguments_call : ℕ → Text → ToolCall
arguments_call idx t = record {
  index = pos idx -ℤ pos 1;
  id = [];
  kind = "";
  function = record { name = []; arguments = t };
}

abbrev pub or_else : Text → Text → Text
or_else s t = if is_nil s then t else s

abbrev pub keep_positive : ℤ → ℤ → ℤ
keep_positive new old = if ltb_ℤ (pos 0) new then new else old

abbrev pub keep_some {ℓ} : {A : Type ℓ} → Option A → Option A → Option A
keep_some none old = old
keep_some (some a) old = some a

-- What a `message_delta` adds to the usage.
unfoldable pub merge_usage : Option ClaudeUsage → ClaudeUsage → ClaudeUsage
merge_usage none u = u
merge_usage (some n) u = record {
  input_tokens = keep_positive n.input_tokens u.input_tokens;
  output_tokens = n.output_tokens;
  cache_creation_input_tokens =
      keep_positive n.cache_creation_input_tokens u.cache_creation_input_tokens;
  cache_read_input_tokens = keep_positive n.cache_read_input_tokens u.cache_read_input_tokens;
  cache_creation = keep_some n.cache_creation u.cache_creation;
}

abbrev pub ended : String → Option String → ChatStream → ChatStream
ended reason err s = record s { status = set_end_reason reason err s.status }

-- The output tokens, or a quarter of the text's bytes when none were reported.
abbrev pub reported_or_estimated : ChatStream → ℤ
reported_or_estimated s =
    if eq_ℤ s.usage.output_tokens (pos 0)
    then pos (length s.response_text / 4)
    else s.usage.output_tokens

unfoldable pub usage_of : ChatStream → UsageWithDetails
unfolding claude_usage_to_token_details
usage_of s = record {
  prompt_tokens = s.usage.input_tokens;
  completion_tokens = reported_or_estimated s;
  total_tokens = int64 (s.usage.input_tokens +ℤ reported_or_estimated s);
  prompt_tokens_details = some (claude_usage_to_token_details s.usage);
  completion_tokens_details = none;
}

abbrev pub reason_or_stop : String → String
reason_or_stop r = if str_eq r "" then "stop" else r

abbrev pub new_chat_stream : StreamStatus → ChatStream
new_chat_stream st = record {
  usage = no_claude_usage;
  model_name = [];
  finish_reason = "";
  tool_call_idx = 0;
  role_chunk_sent = false;
  response_text = [];
  sent = [];
  status = st;
}
