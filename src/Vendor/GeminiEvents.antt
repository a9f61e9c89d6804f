-- ===== src/Vendor/GeminiEvents.antt =====
-- `handleGeminiInboundStream` of server/internal/relay/channel/openai/gemini_response.go: a stream of OpenAI's chat
-- becomes one of Gemini's. A writer is the list of what was sent, the newest first; JSON, `strings.TrimSpace`, the
-- client's presence and the scanner's error are parameters. Pings, headers and the time of the first answer are left
-- out.
pub mod Relayed
use token_flux.Base.{
  ℕ, suc, ℤ, pos, ltb_ℤ, Bool, true, false, not, ◌&&◌, ◌||◌, String, Option, none, some, List, [],
  ◌∷◌, ◌++◌, map, str_eq, if◌then◌else◌,
}
use token_flux.Bytes.{Text}
use token_flux.Cost.{TokenDetails, Usage}
use token_flux.Json.{Value, null, object, end}
use token_flux.ReasonMap.{openai_finish_reason_to_gemini}
use token_flux.StreamStatus.{StreamStatus, set_end_reason}
use token_flux.Vendor.Chat.{
  ToolCall, Message, UsageWithDetails, Choice, ChatCompletionResponse, StreamChoice, StreamResponse,
  no_usage, is_nil, text_or_empty, text_of,
}
use token_flux.Vendor.Sse.{extract_sse_data, is_done}
use token_flux.Vendor.GeminiParts.{
  GeminiCandidate, GeminiUsage, GeminiResponse, gemini_usage, build_gemini_parts_from_delta,
}

abbrev pub without_reason : Option String → Bool
without_reason none = true
without_reason (some r) = false

module _ (parse : Text → Option Value) where
  -- The candidates of a chunk; a choice without parts and without a reason has none.
  unfoldable pub candidates_of : List StreamChoice → List GeminiCandidate
  unfolding build_gemini_parts_from_delta
  candidates_of [] = []
  candidates_of (c ∷ cs) =
      let rest = candidates_of cs in
      let parts = build_gemini_parts_from_delta parse c.delta in
      if is_nil parts && without_reason c.finish_reason
      then rest
      else record { index = c.index; parts = parts; finish_reason = "" } ∷ rest

pub data GeminiSent : Type 0 where
  chunk : GeminiResponse → GeminiSent
  done : GeminiSent

-- The variables of the loop, with what was written and the status of the stream.
pub record GeminiStream : Type 0 where
  pub usage : Usage
  pub finish_reason : String
  pub sent : List GeminiSent
  pub status : StreamStatus

abbrev pub take_reason : Option String → String → String
take_reason none old = old
take_reason (some r) old = if str_eq r "" then old else r

unfoldable pub last_reason : List StreamChoice → String → String
last_reason [] old = old
last_reason (c ∷ cs) old = last_reason cs (take_reason c.finish_reason old)

abbrev pub take_usage : Option UsageWithDetails → Usage → Usage
take_usage none old = old
take_usage (some u) old = record old {
  prompt_tokens = u.prompt_tokens;
  completion_tokens = u.completion_tokens;
  total_tokens = u.total_tokens;
  prompt_tokens_details = u.prompt_tokens_details;
  completion_token_details = u.completion_tokens_details;
  cache_included_in_prompt = true;
}

abbrev pub unless_none : List GeminiCandidate → List GeminiSent → List GeminiSent
unless_none [] sent = sent
unless_none (c ∷ cs) sent = chunk (record { candidates = c ∷ cs; usage_metadata = none }) ∷ sent

abbrev pub reported : Usage → Option GeminiUsage
reported u =
    if ltb_ℤ (pos 0) u.prompt_tokens || ltb_ℤ (pos 0) u.completion_tokens
    then some (
        gemini_usage u.prompt_tokens u.completion_tokens u.total_tokens u.prompt_tokens_details
          u.completion_token_details)
    else none

-- The last chunk, with the reason and the usage, and the end mark.
unfoldable pub finish_gemini : GeminiStream → GeminiStream
finish_gemini s =
    let last : GeminiResponse = record {
      candidates =
          record {
            index = pos 0;
            parts = [];
            finish_reason = openai_finish_reason_to_gemini s.finish_reason;
          }
          ∷ [];
      usage_metadata = reported s.usage;
    } in
    record s { sent = done ∷ chunk last ∷ s.sent; status = set_end_reason "done" none s.status }

abbrev pub new_gemini_stream : StreamStatus → GeminiStream
new_gemini_stream st = record { usage = no_usage; finish_reason = ""; sent = []; status = st }

-- After the loop; an error of the scanner comes after the end of the stream.
abbrev pub after_gemini : Option String → Bool × GeminiStream → Option String × GeminiStream
after_gemini failure (false, s) = (some "stream interrupted by client disconnect", s)
after_gemini none (true, s) = (none, finish_gemini s)
after_gemini (some e) (true, s) =
    let t = finish_gemini s in
    (some e, record t { status = set_end_reason "error" (some e) t.status })

module _ (parse : Text → Option Value) (trim : Text → Text) (decode : Text → Option StreamResponse)
    (gone : ℕ → Bool) where
  -- A chunk that could be decoded.
  unfoldable pub on_gemini_chunk : Option StreamResponse → GeminiStream → GeminiStream
  unfolding candidates_of last_reason
  on_gemini_chunk none s = s
  on_gemini_chunk (some r) s = record s {
    usage = take_usage r.usage s.usage;
    finish_reason = last_reason r.choices s.finish_reason;
    sent = unless_none (candidates_of parse r.choices) s.sent;
  }

  -- The loop over the lines, of which `n` have been read; true when the client is there at its end.
  unfoldable pub scan_gemini : ℕ → List Text → GeminiStream → Bool × GeminiStream
  unfolding on_gemini_chunk
  scan_gemini n [] s = (true, s)
  scan_gemini n (line ∷ lines) s = elim (gone n) [
    | true ↦ (
      false,
      record s { status = set_end_reason "client_gone" (some "context canceled") s.status },
    )
    | false ↦ elim (extract_sse_data trim line) [
      | none ↦ scan_gemini (suc n) lines s
      | some payload ↦ elim (is_done payload) [
        | true ↦ (true, s)
        | false ↦ scan_gemini (suc n) lines (on_gemini_chunk (decode payload) s)
      ]
    ]
  ]

  -- `handleGeminiInboundStream` of an answer with status 200: its error, and the stream whose `usage` it returns;
  -- `failure` is an error of the scanner other than EOF while the client is there.
  unfoldable pub handle_gemini_inbound_stream :
      Option String → List Text → StreamStatus → Option String × GeminiStream
  unfolding scan_gemini finish_gemini
  handle_gemini_inbound_stream failure lines st =
      after_gemini failure (scan_gemini 0 lines (new_gemini_stream st))
