-- ===== src/Vendor/FromClaude/Tools.antt =====
-- The tool calls that server/internal/relay/channel/claude/response.go relays.
use token_flux.Base.{
  ℕ, zero, suc, ℤ, pos, negsuc, ◌-ℤ◌, Bool, true, false, String, Option, none, some, List, [], ◌∷◌,
  ◌++◌, map, str_eq, eq_iff, Bool-cases, Option-cases, inl, inr, ◌≡◌, refl, sym, ap, ◌∙◌, arith,
  if◌then◌else◌,
}
use mathlib.Core.List.{append_assoc, append-nil}
use token_flux.Bytes.{Text}
use token_flux.StreamStatus.{StreamStatus}
use token_flux.Vendor.Chat.{WireCall, on_wire, StreamChoice, RelayInfo, text_or_empty}
use token_flux.Vendor.Claude.{ClaudeContentBlock}
use token_flux.Vendor.Sse.{extract_sse_data}
use token_flux.Vendor.ChatStream.{
  MessageInfo, Delta, Event, Sent, chunk, done, ChatStream, new_chat_stream, arguments_call,
}
use token_flux.Vendor.FromClaude.{
  on_message, write_role, on_block_start, on_text_delta, on_thinking_delta, on_json_delta, on_delta,
  on_stop_reason, stop_reason_of, finish_stream, on_event, scan_events, on_end, after_events,
  handle_stream_to_openai,
}

abbrev pub choices_calls : List StreamChoice → List WireCall
choices_calls [] = []
choices_calls (c ∷ cs) = map on_wire c.delta.tool_calls ++ choices_calls cs

-- The tool calls in what was sent, as JSON has them; what was sent has the newest first.
unfoldable pub sent_calls : List Sent → List WireCall
sent_calls [] = []
sent_calls (chunk r ∷ xs) = sent_calls xs ++ choices_calls r.choices
sent_calls (done ∷ xs) = sent_calls xs

-- The number that a fragment of arguments carries when `n` tools were opened; the first tool's is left out.
abbrev pub number_of : ℕ → Option ℤ
number_of zero = some (negsuc 0)
number_of (suc zero) = none
number_of (suc (suc n)) = some (pos (suc n))

abbrev pub opening : Option ClaudeContentBlock → List WireCall
opening none = []
opening (some b) =
    if str_eq b.kind "tool_use"
    then record { index = none; id = b.id; kind = "function"; name = b.name; arguments = [] } ∷ []
    else []

abbrev pub fragment : ℕ → Text → List WireCall
fragment n [] = []
fragment n (c ∷ t) =
    record { index = number_of n; id = []; kind = ""; name = []; arguments = c ∷ t } ∷ []

abbrev pub fragments : ℕ → Option Delta → List WireCall
fragments n none = []
fragments n (some d) =
    if str_eq d.kind "input_json_delta" then fragment n (text_or_empty d.partial_json) else []

-- The calls of one event of Claude's, when `n` tools were opened before, and how many are opened after it.
abbrev pub event_calls : ℕ → Event → List WireCall
event_calls n e =
    if str_eq e.kind "content_block_start"
    then opening e.content_block
    else if str_eq e.kind "content_block_delta"
    then fragments n e.delta
    else []

abbrev pub opened_by : Option ClaudeContentBlock → ℕ → ℕ
opened_by none n = n
opened_by (some b) n = if str_eq b.kind "tool_use" then suc n else n

abbrev pub opened_after : ℕ → Event → ℕ
opened_after n e = if str_eq e.kind "content_block_start" then opened_by e.content_block n else n

unfoldable pub calls_of : ℕ → List Event → List WireCall
calls_of n [] = []
calls_of n (e ∷ es) = event_calls n e ++ calls_of (opened_after n e) es

number_of-pred : (n : ℕ) (t : Text) → (on_wire (arguments_call n t)).index ≡ number_of n
unfolding ◌-ℤ◌
number_of-pred zero t = refl
number_of-pred (suc zero) t = refl
number_of-pred (suc (suc n)) t = ground arith

module _ (info : RelayInfo) (now : ℕ) where
  -- A step sends these calls, and leaves this number of tools opened.
  abbrev Sends : ChatStream → ChatStream → List WireCall → ℕ → Type 0
  Sends s s' cs n = (sent_calls s'.sent ≡ sent_calls s.sent ++ cs) × (s'.tool_call_idx ≡ n)

  abbrev SendsNone : ChatStream → ChatStream → Type 0
  SendsNone s s' = Sends s s' [] s.tool_call_idx

  stays : (s : ChatStream) → SendsNone s s
  stays s = (sym (append-nil _), refl)

  on_message-SendsNone :
      (m : Option MessageInfo) (s : ChatStream)
      → SendsNone s (write_role info now (on_message info now m s))
  unfolding sent_calls
  on_message-SendsNone none s = elim (Bool-cases s.role_chunk_sent) [
    | inl e ↦ simp e (stays s)
    | inr e ↦ simp e (refl, refl)
  ]
  on_message-SendsNone (some m) s = elim (Bool-cases s.role_chunk_sent) [
    | inl e ↦ simp e (stays s)
    | inr e ↦ simp e (refl, refl)
  ]

  on_block_start-Sends :
      (b : Option ClaudeContentBlock) (s : ChatStream)
      → Sends s (on_block_start info now b s) (opening b) (opened_by b s.tool_call_idx)
  unfolding sent_calls on_block_start
  on_block_start-Sends none s = stays s
  on_block_start-Sends (some b) s = elim (Bool-cases (str_eq b.kind "tool_use")) [
    | inl e ↦ rw e (refl, refl)
    | inr e ↦ rw e (stays s)
  ]

  on_text_delta-SendsNone : (t : Text) (s : ChatStream) → SendsNone s (on_text_delta info now t s)
  unfolding sent_calls
  on_text_delta-SendsNone [] s = stays s
  on_text_delta-SendsNone (c ∷ t) s = (refl, refl)

  on_thinking_delta-SendsNone :
      (t : Text) (s : ChatStream) → SendsNone s (on_thinking_delta info now t s)
  unfolding sent_calls
  on_thinking_delta-SendsNone [] s = stays s
  on_thinking_delta-SendsNone (c ∷ t) s = (refl, refl)

  on_json_delta-Sends :
      (t : Text) (s : ChatStream)
      → Sends s (on_json_delta info now t s) (fragment s.tool_call_idx t) s.tool_call_idx
  unfolding sent_calls
  on_json_delta-Sends [] s = stays s
  on_json_delta-Sends (c ∷ t) s = (
    ap
        (λ i.
          sent_calls s.sent
          ++ record { index = i; id = []; kind = ""; name = []; arguments = c ∷ t } ∷ [])
        (number_of-pred s.tool_call_idx (c ∷ t)),
    refl,
  )

  on_delta-Sends :
      (d : Option Delta) (s : ChatStream)
      → Sends s (on_delta info now d s) (fragments s.tool_call_idx d) s.tool_call_idx
  unfolding on_delta
  on_delta-Sends none s = stays s
  on_delta-Sends (some d) s = elim (Bool-cases (str_eq d.kind "text_delta")) [
    | inl e ↦
        let k = (eq_iff d.kind "text_delta").0 e in
        rw k (on_text_delta-SendsNone (text_or_empty d.text) s)
    | inr e ↦ elim (Bool-cases (str_eq d.kind "thinking_delta")) [
      | inl f ↦
          let k = (eq_iff d.kind "thinking_delta").0 f in
          rw k (on_thinking_delta-SendsNone (text_or_empty d.thinking) s)
      | inr f ↦ elim (Bool-cases (str_eq d.kind "input_json_delta")) [
        | inl g ↦ rw (e, f, g) (on_json_delta-Sends (text_or_empty d.partial_json) s)
        | inr g ↦ rw (e, f, g) (stays s)
      ]
    ]
  ]

  finish_stream-SendsNone : (s : ChatStream) → SendsNone s (finish_stream info now s)
  unfolding sent_calls finish_stream
  finish_stream-SendsNone s = (refl, refl)

  on_stop_reason-SendsNone :
      (r : Option String) (s : ChatStream) → SendsNone s (on_stop_reason info now r s)
  on_stop_reason-SendsNone none s = stays s
  on_stop_reason-SendsNone (some r) s = stays s

  on_event-Sends :
      (e : Event) (s : ChatStream)
      → Sends s
          (on_event info now e s)
          (event_calls s.tool_call_idx e)
          (opened_after s.tool_call_idx e)
  unfolding on_event
  on_event-Sends e s = elim (Bool-cases (str_eq e.kind "message_start")) [
    | inl a ↦ let k = (eq_iff e.kind "message_start").0 a in rw k (on_message-SendsNone e.message s)
    | inr a ↦ elim (Bool-cases (str_eq e.kind "content_block_start")) [
      | inl b ↦
          let k = (eq_iff e.kind "content_block_start").0 b in
          rw k (on_block_start-Sends e.content_block s)
      | inr b ↦ elim (Bool-cases (str_eq e.kind "content_block_delta")) [
        | inl c ↦ rw (a, b, c) (on_delta-Sends e.delta s)
        | inr c ↦ elim (Bool-cases (str_eq e.kind "error")) [
          | inl d ↦ rw (a, b, c, d) (stays s)
          | inr d ↦ elim (Bool-cases (str_eq e.kind "message_delta")) [
            | inl f ↦
                rw (a, b, c, d, f) (on_stop_reason-SendsNone (stop_reason_of info now e.delta) s)
            | inr f ↦ elim (Bool-cases (str_eq e.kind "message_stop")) [
              | inl g ↦ rw (a, b, c, d, f, g) (finish_stream-SendsNone s)
              | inr g ↦ rw (a, b, c, d, f, g) (stays s)
            ]
          ]
        ]
      ]
    ]
  ]

  abbrev to_list : Option Event → List Event
  to_list none = []
  to_list (some e) = e ∷ []

  module _ (trim : Text → Text) (decode : Text → Option Event) (gone : ℕ → Bool) where
    abbrev pub event_in : Option Text → List Event
    event_in none = []
    event_in (some payload) = to_list (decode payload)

    -- The events of the lines that can be decoded.
    unfoldable pub events_in : List Text → List Event
    events_in [] = []
    events_in (line ∷ lines) = event_in (extract_sse_data trim line) ++ events_in lines

    abbrev IsRead : ChatStream → List Text → Bool × ChatStream → Type 0
    IsRead s lines (left, t) =
        (left ≡ true)
        × (sent_calls t.sent ≡ sent_calls s.sent ++ calls_of s.tool_call_idx (events_in lines))

    scan_events-IsRead :
        (n : ℕ) (lines : List Text) (s : ChatStream)
        → ((k : ℕ) → gone k ≡ false)
        → IsRead s lines (scan_events info now trim decode gone n lines s)
    unfolding scan_events events_in calls_of
    scan_events-IsRead n [] s here = (refl, sym (append-nil _))
    scan_events-IsRead n (line ∷ lines) s here =
        rw (here n, scan_events)
          (elim (Option-cases (extract_sse_data trim line)) [
            | inl e ↦ rw (e, scan_events) (scan_events-IsRead (suc n) lines s here)
            | inr (payload, e) ↦ elim (Option-cases (decode payload)) [
              | inl f ↦ rw (e, event_in, f, scan_events) (scan_events-IsRead (suc n) lines s here)
              | inr (x, f) ↦
                  let t : ChatStream = on_event info now x s in
                  let rest = scan_events-IsRead (suc n) lines t here in
                  let step = on_event-Sends x s in
                  rw (e, event_in, f, scan_events, calls_of)
                    (rest.0, rest.1 ∙ rw (step.0, step.1) (append_assoc (sent_calls s.sent) _ _))
            ]
          ])

    on_end-calls : (s : ChatStream) → sent_calls (on_end info now s).sent ≡ sent_calls s.sent
    unfolding on_end
    on_end-calls s = elim (Bool-cases (str_eq s.status.reason "")) [
      | inl e ↦ rw e ((finish_stream-SendsNone s).0 ∙ append-nil _)
      | inr e ↦ rw e refl
    ]

    after_events-calls :
        (s : ChatStream) (lines : List Text) (failure : Option String) (r : Bool × ChatStream)
        → IsRead s lines r
        → sent_calls (after_events info now failure r).2.sent
          ≡ sent_calls s.sent ++ calls_of s.tool_call_idx (events_in lines)
    after_events-calls s lines failure (false, t) (e, h) = absurd (ground (arith, e))
    after_events-calls s lines (some x) (true, t) (e, h) = h
    after_events-calls s lines none (true, t) (e, h) = on_end-calls t ∙ h

    -- When the client stays, the tool calls that it gets are those of the stream's events, in order: for every tool that
    -- is opened one with its identifier and its name, without an index; and for every fragment of arguments one with the
    -- fragment alone, whose index is one less than the number of tools opened so far, and is left out where that is 0.
    pub sent_calls-handle_stream_to_openai :
        (failure : Option String) (lines : List Text) (st : StreamStatus)
        → ((k : ℕ) → gone k ≡ false)
        → sent_calls (handle_stream_to_openai info now trim decode gone failure lines st).2.sent
          ≡ calls_of 0 (events_in lines)
    unfolding handle_stream_to_openai sent_calls
    sent_calls-handle_stream_to_openai failure lines st here =
        after_events-calls (new_chat_stream st) lines failure
          (scan_events info now trim decode gone 0 lines (new_chat_stream st))
          (scan_events-IsRead 0 lines (new_chat_stream st) here)
