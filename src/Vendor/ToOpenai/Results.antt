-- ===== src/Vendor/ToOpenai/Results.antt =====
-- The results of tools in server/internal/relay/channel/openai/converter.go.
use token_flux.Base.{
  true, false, Option, none, some, List, [], ◌∷◌, ◌++◌, str_eq, Bool-cases, inl, inr, ◌≡◌, refl, ap,
  ◌∙◌, sym, if◌then◌else◌,
}
use mathlib.Core.List.{append_assoc, append-nil}
use token_flux.Bytes.{Text, codes, text_eq}
use token_flux.Bytes.Laws.{text_eq_sound}
use token_flux.Json.{Value, array, Items, nil, cons, Fields, member_of}
use token_flux.Vendor.Chat.{Message}
use token_flux.Vendor.Parts.{is_text, fields_of}
use token_flux.Vendor.OpenaiParts.{Writing, ContentPart, Gathered, flush, field_text}
use token_flux.Vendor.ToOpenai.{
  result_text, tool_message, add_block, gather, or_blank, convert_claude_user_message,
}

-- The results that the messages of a chat carry: the call and the text of each, in order.
unfoldable pub tool_results : List Message → List (Text × Value)
tool_results [] = []
tool_results (m ∷ ms) =
    let rest = tool_results ms in
    if str_eq m.role "tool" then (m.tool_call_id, m.content) ∷ rest else rest

text-tool_result : (v : Value) → is_text v "text" ≡ true → is_text v "tool_result" ≡ false
unfolding text_eq
text-tool_result (Value.text t) h = rw (text_eq_sound t (codes "text") h) refl
text-tool_result (Value.null) h = refl
text-tool_result (Value.boolean b) h = refl
text-tool_result (Value.number n) h = refl
text-tool_result (Value.array xs) h = refl
text-tool_result (Value.object fs) h = refl

module _ (W : Writing) where
  -- What the content of a result should become: a text is itself, an object is its JSON, and the rest, lists of blocks
  -- among it, is nothing.
  abbrev pub said : Value → Text
  said (Value.text t) = t
  said (Value.object fs) = W.marshal (Value.object fs)
  said v = []

  result_text-said : (v : Value) → result_text W v ≡ said v
  unfolding result_text
  result_text-said (Value.text t) = refl
  result_text-said (Value.object fs) = refl
  result_text-said (Value.array xs) = refl
  result_text-said (Value.null) = refl
  result_text-said (Value.boolean b) = refl
  result_text-said (Value.number n) = refl

  abbrev pub result_in : Option Fields → List (Text × Value)
  result_in none = []
  result_in (some fs) =
      if is_text (member_of fs (codes "type")) "tool_result"
      then (field_text fs "tool_use_id", Value.text (said (member_of fs (codes "content")))) ∷ []
      else []

  -- The results that the blocks of a user's message for Claude carry.
  unfoldable pub results_in : Items → List (Text × Value)
  results_in nil = []
  results_in (cons v vs) = result_in (fields_of v) ++ results_in vs

  tool_results-append :
      (ms ns : List Message) → tool_results (ms ++ ns) ≡ tool_results ms ++ tool_results ns
  unfolding tool_results
  tool_results-append [] ns = refl
  tool_results-append (m ∷ ms) ns = elim (Bool-cases (str_eq m.role "tool")) [
    | inl e ↦ rw (e, tool_results-append ms ns) refl
    | inr e ↦ rw (e, tool_results-append ms ns) refl
  ]

  tool_results-flush : (ps : List ContentPart) → tool_results (flush ps) ≡ []
  unfolding tool_results flush
  tool_results-flush [] = refl
  tool_results-flush (p ∷ ps) = refl

  tool_results-or_blank : (ms : List Message) → tool_results (or_blank W ms) ≡ tool_results ms
  unfolding tool_results
  tool_results-or_blank [] = refl
  tool_results-or_blank (m ∷ ms) = refl

  tool_results-add_block :
      (f : Option Fields) (g : Gathered)
      → tool_results (add_block W f g).results ≡ tool_results g.results ++ result_in f
  unfolding tool_results
  tool_results-add_block none g = sym (append-nil (tool_results g.results))
  tool_results-add_block (some fs) g =
      elim (Bool-cases (is_text (member_of fs (codes "type")) "text")) [
        | inl t ↦
            rw (t, text-tool_result (member_of fs (codes "type")) t)
              (sym (append-nil (tool_results g.results)))
        | inr t ↦ elim (Bool-cases (is_text (member_of fs (codes "type")) "tool_result")) [
          | inl r ↦
              rw (t, r)
                (rw (← result_text-said (member_of fs (codes "content"))) (
                  tool_results-append g.results (flush g.parts ++ tool_message W fs ∷ [])
                  ∙ ap (λ l. tool_results g.results ++ l)
                      (tool_results-append (flush g.parts) (tool_message W fs ∷ [])
                        ∙ ap (λ l. l ++ tool_results (tool_message W fs ∷ []))
                            (tool_results-flush g.parts))))
          | inr r ↦ elim (Bool-cases (is_text (member_of fs (codes "type")) "image")) [
            | inl i ↦ rw (t, r, i) (sym (append-nil (tool_results g.results)))
            | inr i ↦ rw (t, r, i) (sym (append-nil (tool_results g.results)))
          ]
        ]
      ]

  tool_results-gather :
      (xs : Items) (g : Gathered)
      → tool_results (gather W xs g).results ≡ tool_results g.results ++ results_in xs
  unfolding gather results_in
  tool_results-gather nil g = sym (append-nil (tool_results g.results))
  tool_results-gather (cons v vs) g =
      tool_results-gather vs (add_block W (fields_of v) g)
      ∙ rw (tool_results-add_block (fields_of v) g) (append_assoc (tool_results g.results) _ _)

  -- Every result of a tool in a user's message for Claude that is a list becomes one message of the chat, in order, for
  -- the same call: with the text of a result that is a text, with the JSON of one that is an object, and with the empty
  -- text for any other, a list of blocks among them. No other message of a tool is made.
  pub tool_results-convert :
      (xs : Items) → tool_results (convert_claude_user_message W (array xs)) ≡ results_in xs
  unfolding convert_claude_user_message tool_results
  tool_results-convert xs =
      let g : Gathered = gather W xs (record { parts = []; results = [] }) in
      tool_results-or_blank (g.results ++ flush g.parts)
      ∙ tool_results-append g.results (flush g.parts)
      ∙ rw (tool_results-flush g.parts) (append-nil (tool_results g.results))
      ∙ tool_results-gather xs (record { parts = []; results = [] })
