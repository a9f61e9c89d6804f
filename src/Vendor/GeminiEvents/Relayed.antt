-- ===== src/Vendor/GeminiEvents/Relayed.antt =====
-- The text that `handleGeminiInboundStream` of server/internal/relay/channel/openai/gemini_response.go relays.
use token_flux.Base.{
  ℕ, suc, Bool, true, false, ◌&&◌, String, Option, none, some, List, [], ◌∷◌, ◌++◌, map, Bool-cases,
  Option-cases, inl, inr, ◌≡◌, refl, sym, ◌∙◌, ap, arith,
}
use mathlib.Core.List.{append_assoc, append-nil}
use token_flux.Bytes.{Text}
use token_flux.Json.{Value}
use token_flux.StreamStatus.{StreamStatus}
use token_flux.Vendor.Chat.{
  ToolCall, Message, StreamChoice, StreamResponse, is_nil, text_or_empty, text_of,
}
use token_flux.Vendor.Sse.{extract_sse_data, is_done}
use token_flux.Vendor.FromClaude.Texts.{choices_text}
use token_flux.Vendor.GeminiParts.{
  GeminiPart, thought, spoken, function_call, GeminiCandidate, unless_nil, delta_call,
  build_gemini_parts_from_delta,
}
use token_flux.Vendor.GeminiEvents.{
  GeminiSent, chunk, done, GeminiStream, new_gemini_stream, without_reason, candidates_of,
  unless_none, on_gemini_chunk, scan_gemini, finish_gemini, after_gemini,
  handle_gemini_inbound_stream,
}

unfoldable pub parts_text : List GeminiPart → Text
parts_text [] = []
parts_text (thought t ∷ ps) = parts_text ps
parts_text (spoken t ∷ ps) = t ++ parts_text ps
parts_text (function_call i n a ∷ ps) = parts_text ps

unfoldable pub candidates_speech : List GeminiCandidate → Text
unfolding parts_text
candidates_speech [] = []
candidates_speech (c ∷ cs) = parts_text c.parts ++ candidates_speech cs

-- The text in what was sent, the newest first, without thoughts.
unfoldable pub spoken_text : List GeminiSent → Text
spoken_text [] = []
spoken_text (chunk r ∷ xs) = spoken_text xs ++ candidates_speech r.candidates
spoken_text (done ∷ xs) = spoken_text xs

unless_nil-thought :
    (t : Text) (ps : List GeminiPart) → parts_text (unless_nil thought t ++ ps) ≡ parts_text ps
unfolding parts_text
unless_nil-thought [] ps = refl
unless_nil-thought (c ∷ t) ps = refl

unless_nil-spoken :
    (t : Text) (ps : List GeminiPart) → parts_text (unless_nil spoken t ++ ps) ≡ t ++ parts_text ps
unfolding parts_text
unless_nil-spoken [] ps = refl
unless_nil-spoken (c ∷ t) ps = refl

module _ (parse : Text → Option Value) where
  parts_text-calls : (cs : List ToolCall) → parts_text (map (delta_call parse) cs) ≡ []
  unfolding parts_text
  parts_text-calls [] = refl
  parts_text-calls (c ∷ cs) = parts_text-calls cs

  parts_text-delta :
      (m : Message)
      → parts_text (build_gemini_parts_from_delta parse m) ≡ text_or_empty (text_of m.content)
  unfolding build_gemini_parts_from_delta
  parts_text-delta m =
      unless_nil-thought (text_or_empty m.reasoning_content) _
      ∙ unless_nil-spoken (text_or_empty (text_of m.content)) _
      ∙ ap (λ l. text_or_empty (text_of m.content) ++ l) (parts_text-calls m.tool_calls)
      ∙ append-nil _

  -- A choice that is left out has no text.
  is_nil-text : (ps : List GeminiPart) (b : Bool) → (is_nil ps && b) ≡ true → parts_text ps ≡ []
  unfolding parts_text
  is_nil-text [] b h = refl
  is_nil-text (p ∷ ps) b h = absurd (ground (arith, h))

  candidates_speech-of :
      (cs : List StreamChoice) → candidates_speech (candidates_of parse cs) ≡ choices_text cs
  unfolding candidates_speech candidates_of
  candidates_speech-of [] = refl
  candidates_speech-of (c ∷ cs) =
      let ps : List GeminiPart = build_gemini_parts_from_delta parse c.delta in
      let rest = candidates_speech-of cs in
      elim (Bool-cases (is_nil ps && without_reason c.finish_reason)) [
        | inl e ↦
            let h : text_or_empty (text_of c.delta.content) ≡ [] =
              sym (parts_text-delta c.delta) ∙ is_nil-text ps (without_reason c.finish_reason) e in
            rw (e, h) rest
        | inr e ↦
            rw (e, candidates_speech, parts_text-delta c.delta)
              (ap (λ l. text_or_empty (text_of c.delta.content) ++ l) rest)
      ]

  unless_none-text :
      (cs : List GeminiCandidate) (sent : List GeminiSent)
      → spoken_text (unless_none cs sent) ≡ spoken_text sent ++ candidates_speech cs
  unfolding spoken_text candidates_speech
  unless_none-text [] sent = sym (append-nil _)
  unless_none-text (c ∷ cs) sent = refl

  abbrev pub chunk_text : Option StreamResponse → Text
  chunk_text none = []
  chunk_text (some r) = choices_text r.choices

  on_gemini_chunk-text :
      (trim : Text → Text) (decode : Text → Option StreamResponse) (gone : ℕ → Bool)
      → (r : Option StreamResponse) (s : GeminiStream)
      → spoken_text (on_gemini_chunk parse trim decode gone r s).sent
        ≡ spoken_text s.sent ++ chunk_text r
  unfolding on_gemini_chunk
  on_gemini_chunk-text trim decode gone none s = sym (append-nil _)
  on_gemini_chunk-text trim decode gone (some r) s =
      unless_none-text (candidates_of parse r.choices) s.sent
      ∙ ap (λ l. spoken_text s.sent ++ l) (candidates_speech-of r.choices)

module _ (parse : Text → Option Value) (trim : Text → Text) (decode : Text → Option StreamResponse)
    (gone : ℕ → Bool) where
  -- The text of the chunks up to the end mark.
  unfoldable pub answer_text : List Text → Text
  answer_text [] = []
  answer_text (line ∷ lines) = elim (extract_sse_data trim line) [
    | none ↦ answer_text lines
    | some payload ↦ elim (is_done payload) [
      | true ↦ []
      | false ↦ chunk_text parse (decode payload) ++ answer_text lines
    ]
  ]

  -- The client is there at the end, and the lines are sent.
  abbrev IsSent : GeminiStream → List Text → Bool × GeminiStream → Type 0
  IsSent s lines (left, t) =
      (left ≡ true) × (spoken_text t.sent ≡ spoken_text s.sent ++ answer_text lines)

  scan_gemini-IsSent :
      (n : ℕ) (lines : List Text) (s : GeminiStream)
      → ((k : ℕ) → gone k ≡ false)
      → IsSent s lines (scan_gemini parse trim decode gone n lines s)
  unfolding scan_gemini answer_text
  scan_gemini-IsSent n [] s here = (refl, sym (append-nil _))
  scan_gemini-IsSent n (line ∷ lines) s here =
      rw (here n, scan_gemini)
        (elim (Option-cases (extract_sse_data trim line)) [
          | inl e ↦ rw (e, scan_gemini, answer_text) (scan_gemini-IsSent (suc n) lines s here)
          | inr (payload, e) ↦ elim (Bool-cases (is_done payload)) [
            | inl f ↦ rw (e, f, scan_gemini, answer_text) (refl, sym (append-nil _))
            | inr f ↦
                let t : GeminiStream = on_gemini_chunk parse trim decode gone (decode payload) s in
                let rest = scan_gemini-IsSent (suc n) lines t here in
                rw (e, f, scan_gemini, answer_text)
                  (
                    rest.0,
                    rest.1
                        ∙ rw (on_gemini_chunk-text parse trim decode gone (decode payload) s)
                            (append_assoc (spoken_text s.sent) _ _),
                  )
          ]
        ])

  finish_gemini-text : (s : GeminiStream) → spoken_text (finish_gemini s).sent ≡ spoken_text s.sent
  unfolding finish_gemini spoken_text candidates_speech parts_text
  finish_gemini-text s = append-nil _

  after_gemini-text :
      (s : GeminiStream) (lines : List Text) (failure : Option String) (r : Bool × GeminiStream)
      → IsSent s lines r
      → spoken_text (after_gemini failure r).1.sent ≡ spoken_text s.sent ++ answer_text lines
  after_gemini-text s lines failure (false, t) (e, h) = absurd (ground (arith, e))
  after_gemini-text s lines none (true, t) (e, h) = finish_gemini-text t ∙ h
  after_gemini-text s lines (some x) (true, t) (e, h) = finish_gemini-text t ∙ h

  -- When the client stays, the text that it gets besides thoughts is the text of the chunks up to the end mark that
  -- can be decoded, in order, with nothing lost, repeated or added, also where the scanner fails at the end.
  pub spoken_text-handle_gemini_inbound_stream :
      (failure : Option String) (lines : List Text) (st : StreamStatus)
      → ((k : ℕ) → gone k ≡ false)
      → spoken_text (handle_gemini_inbound_stream parse trim decode gone failure lines st).1.sent
        ≡ answer_text lines
  unfolding handle_gemini_inbound_stream spoken_text
  spoken_text-handle_gemini_inbound_stream failure lines st here =
      after_gemini-text (new_gemini_stream st) lines failure
        (scan_gemini parse trim decode gone 0 lines (new_gemini_stream st))
        (scan_gemini-IsSent 0 lines (new_gemini_stream st) here)
