-- ===== src/Vendor/FromClaude/Texts.antt =====
-- The text that server/internal/relay/channel/claude/response.go relays.
use token_flux.Base.{
  ℕ, suc, Bool, true, false, String, Option, none, some, List, [], ◌∷◌, ◌++◌, str_eq, eq_iff,
  Bool-cases, Option-cases, inl, inr, ◌≡◌, refl, sym, ◌∙◌, ap, arith, if◌then◌else◌,
}
use mathlib.Core.List.{append_assoc, append-nil}
use token_flux.Bytes.{Text}
use token_flux.StreamStatus.{StreamStatus}
use token_flux.Vendor.Chat.{StreamChoice, RelayInfo, text_or_empty, text_of}
use token_flux.Vendor.Claude.{ClaudeContentBlock}
use token_flux.Vendor.Sse.{extract_sse_data}
use token_flux.Vendor.ChatStream.{
  MessageInfo, Delta, Event, Sent, chunk, done, ChatStream, new_chat_stream,
}
use token_flux.Vendor.FromClaude.{
  on_message, write_role, on_block_start, on_text_delta, on_thinking_delta, on_json_delta, on_delta,
  on_stop_reason, stop_reason_of, finish_stream, on_event, on_payload, scan_events, on_end,
  after_events, handle_stream_to_openai,
}

abbrev pub choices_text : List StreamChoice → Text
choices_text [] = []
choices_text (c ∷ cs) = text_or_empty (text_of c.delta.content) ++ choices_text cs

-- The text in what was sent, the newest first.
unfoldable pub sent_text : List Sent → Text
sent_text [] = []
sent_text (chunk r ∷ xs) = sent_text xs ++ choices_text r.choices
sent_text (done ∷ xs) = sent_text xs

abbrev pub delta_text : Option Delta → Text
delta_text none = []
delta_text (some d) = if str_eq d.kind "text_delta" then text_or_empty d.text else []

-- The text in an event of Claude's.
abbrev pub event_text : Event → Text
event_text e = if str_eq e.kind "content_block_delta" then delta_text e.delta else []

abbrev pub payload_text : Option Event → Text
payload_text none = []
payload_text (some e) = event_text e

module _ (info : RelayInfo) (now : ℕ) where
  -- A step sends this text.
  abbrev Adds : ChatStream → ChatStream → Text → Type 0
  Adds s s' t = sent_text s'.sent ≡ sent_text s.sent ++ t

  on_message-sent :
      (m : Option MessageInfo) (s : ChatStream) → (on_message info now m s).sent ≡ s.sent
  on_message-sent none s = refl
  on_message-sent (some m) s = refl

  write_role-Adds : (s : ChatStream) → Adds s (write_role info now s) []
  unfolding sent_text
  write_role-Adds s = elim (Bool-cases s.role_chunk_sent) [
    | inl e ↦ simp e (sym (append-nil _))
    | inr e ↦ simp e refl
  ]

  on_message-Adds :
      (m : Option MessageInfo) (s : ChatStream)
      → Adds s (write_role info now (on_message info now m s)) []
  on_message-Adds m s =
      write_role-Adds (on_message info now m s) ∙ ap (λ l. sent_text l ++ []) (on_message-sent m s)

  on_block_start-Adds :
      (b : Option ClaudeContentBlock) (s : ChatStream) → Adds s (on_block_start info now b s) []
  unfolding sent_text on_block_start
  on_block_start-Adds none s = sym (append-nil _)
  on_block_start-Adds (some b) s = elim (Bool-cases (str_eq b.kind "tool_use")) [
    | inl e ↦ rw e refl
    | inr e ↦ rw e (sym (append-nil _))
  ]

  on_text_delta-Adds : (t : Text) (s : ChatStream) → Adds s (on_text_delta info now t s) t
  unfolding sent_text
  on_text_delta-Adds [] s = sym (append-nil _)
  on_text_delta-Adds (c ∷ t) s = ap (λ l. sent_text s.sent ++ l) (append-nil (c ∷ t))

  on_thinking_delta-Adds : (t : Text) (s : ChatStream) → Adds s (on_thinking_delta info now t s) []
  unfolding sent_text
  on_thinking_delta-Adds [] s = sym (append-nil _)
  on_thinking_delta-Adds (c ∷ t) s = refl

  on_json_delta-Adds : (t : Text) (s : ChatStream) → Adds s (on_json_delta info now t s) []
  unfolding sent_text
  on_json_delta-Adds [] s = sym (append-nil _)
  on_json_delta-Adds (c ∷ t) s = refl

  on_delta-Adds :
      (d : Option Delta) (s : ChatStream) → Adds s (on_delta info now d s) (delta_text d)
  unfolding on_delta
  on_delta-Adds none s = sym (append-nil _)
  on_delta-Adds (some d) s = elim (Bool-cases (str_eq d.kind "text_delta")) [
    | inl e ↦ rw e (on_text_delta-Adds (text_or_empty d.text) s)
    | inr e ↦ elim (Bool-cases (str_eq d.kind "thinking_delta")) [
      | inl f ↦ rw (e, f) (on_thinking_delta-Adds (text_or_empty d.thinking) s)
      | inr f ↦ elim (Bool-cases (str_eq d.kind "input_json_delta")) [
        | inl g ↦ rw (e, f, g) (on_json_delta-Adds (text_or_empty d.partial_json) s)
        | inr g ↦ rw (e, f, g) (sym (append-nil _))
      ]
    ]
  ]

  finish_stream-Adds : (s : ChatStream) → Adds s (finish_stream info now s) []
  unfolding sent_text finish_stream
  finish_stream-Adds s = refl

  on_stop_reason-Adds :
      (r : Option String) (s : ChatStream) → Adds s (on_stop_reason info now r s) []
  unfolding sent_text
  on_stop_reason-Adds none s = sym (append-nil _)
  on_stop_reason-Adds (some r) s = sym (append-nil _)

  on_event-Adds : (e : Event) (s : ChatStream) → Adds s (on_event info now e s) (event_text e)
  unfolding on_event
  on_event-Adds e s = elim (Bool-cases (str_eq e.kind "message_start")) [
    | inl a ↦ let k = (eq_iff e.kind "message_start").0 a in rw k (on_message-Adds e.message s)
    | inr a ↦ elim (Bool-cases (str_eq e.kind "content_block_start")) [
      | inl b ↦
          let k = (eq_iff e.kind "content_block_start").0 b in
          rw k (on_block_start-Adds e.content_block s)
      | inr b ↦ elim (Bool-cases (str_eq e.kind "content_block_delta")) [
        | inl c ↦ rw (a, b, c) (on_delta-Adds e.delta s)
        | inr c ↦ elim (Bool-cases (str_eq e.kind "error")) [
          | inl d ↦ rw (a, b, c, d) (sym (append-nil _))
          | inr d ↦ elim (Bool-cases (str_eq e.kind "message_delta")) [
            | inl f ↦ rw (a, b, c, d, f) (on_stop_reason-Adds (stop_reason_of info now e.delta) s)
            | inr f ↦ elim (Bool-cases (str_eq e.kind "message_stop")) [
              | inl g ↦ rw (a, b, c, d, f, g) (finish_stream-Adds s)
              | inr g ↦ rw (a, b, c, d, f, g) (sym (append-nil _))
            ]
          ]
        ]
      ]
    ]
  ]

  on_payload-Adds :
      (e : Option Event) (s : ChatStream) → Adds s (on_payload info now e s) (payload_text e)
  on_payload-Adds none s = sym (append-nil _)
  on_payload-Adds (some e) s = on_event-Adds e s

  module _ (trim : Text → Text) (decode : Text → Option Event) (gone : ℕ → Bool) where
    abbrev pub line_text : Option Text → Text
    line_text none = []
    line_text (some payload) = payload_text (decode payload)

    unfoldable pub lines_text : List Text → Text
    lines_text [] = []
    lines_text (line ∷ lines) = line_text (extract_sse_data trim line) ++ lines_text lines

    -- All lines are read, and their text is sent.
    abbrev IsRead : ChatStream → List Text → Bool × ChatStream → Type 0
    IsRead s lines (left, t) = (left ≡ true) × Adds s t (lines_text lines)

    scan_events-IsRead :
        (n : ℕ) (lines : List Text) (s : ChatStream)
        → ((k : ℕ) → gone k ≡ false)
        → IsRead s lines (scan_events info now trim decode gone n lines s)
    unfolding scan_events lines_text
    scan_events-IsRead n [] s here = (refl, sym (append-nil _))
    scan_events-IsRead n (line ∷ lines) s here =
        rw (here n, scan_events)
          (elim (Option-cases (extract_sse_data trim line)) [
            | inl e ↦ rw (e, scan_events) (scan_events-IsRead (suc n) lines s here)
            | inr (payload, e) ↦
                let t : ChatStream = on_payload info now (decode payload) s in
                let rest = scan_events-IsRead (suc n) lines t here in
                rw (e, scan_events)
                  (
                    rest.0,
                    rest.1
                        ∙ rw (on_payload-Adds (decode payload) s)
                            (append_assoc (sent_text s.sent) _ _),
                  )
          ])

    on_end-Adds : (s : ChatStream) → Adds s (on_end info now s) []
    unfolding on_end
    on_end-Adds s = elim (Bool-cases (str_eq s.status.reason "")) [
      | inl e ↦ rw e (finish_stream-Adds s)
      | inr e ↦ rw e (sym (append-nil _))
    ]

    after_events-text :
        (s : ChatStream) (lines : List Text) (failure : Option String) (r : Bool × ChatStream)
        → IsRead s lines r
        → Adds s (after_events info now failure r).2 (lines_text lines)
    after_events-text s lines failure (false, t) (e, h) = absurd (ground (arith, e))
    after_events-text s lines (some x) (true, t) (e, h) = h
    after_events-text s lines none (true, t) (e, h) = on_end-Adds t ∙ append-nil _ ∙ h

    -- When the client stays, the text of the chunks that it gets is the text of all the events of the stream, in
    -- order, with nothing lost, repeated or added, also where the scanner fails at the end.
    pub sent_text-handle_stream_to_openai :
        (failure : Option String) (lines : List Text) (st : StreamStatus)
        → ((k : ℕ) → gone k ≡ false)
        → sent_text (handle_stream_to_openai info now trim decode gone failure lines st).2.sent
          ≡ lines_text lines
    unfolding handle_stream_to_openai sent_text
    sent_text-handle_stream_to_openai failure lines st here =
        after_events-text (new_chat_stream st) lines failure
          (scan_events info now trim decode gone 0 lines (new_chat_stream st))
          (scan_events-IsRead 0 lines (new_chat_stream st) here)
