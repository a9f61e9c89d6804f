-- ===== src/Tests/Vendors.antt =====
-- Requests, streams and bodies on their way between the vendors' forms.
use token_flux.Base.{
  ℕ, pos, ◌<◌, Bool, true, false, String, Option, none, some, List, [], ◌∷◌, ◌++◌, str_eq, ◌⊎◌, ◌↔◌,
  ◌≡◌, ◌≢◌, refl,
}
use token_flux.Bytes.{Text, codes, text_eq, drop, has_prefix, index_of_str}
use token_flux.Bytes.Laws.{Absent}
use token_flux.Json.{null, text, array, object, Items, nil, cons, Fields, end, field, member_of}
use token_flux.StreamStatus.{set_end_reason, new_stream_status}
use token_flux.Vendor.Chat.{ChatRequest, StreamResponse, RelayInfo}
use token_flux.Vendor.Claude.{ClaudeContentBlock, bare_block, text_block, tool_use_block}
use token_flux.Vendor.Sse.{extract_sse_data}
use token_flux.Vendor.Parts.{plain, blocks, image_block}
use token_flux.Vendor.Options.{limit_of}
use token_flux.Vendor.OpenaiParts.{Writing, image_url}
use token_flux.Vendor.ClaudeEvents.{handle_claude_inbound_stream}
use token_flux.Vendor.ClaudeEvents.Phases.{stopped, phase_after}
use token_flux.Vendor.ClaudeEvents.Closed.{handle_claude_inbound_stream-stopped}
use token_flux.Vendor.ToClaude.{Printing, convert_openai_to_claude}
use token_flux.Vendor.ToClaude.Turns.{
  alternates, begins_with_user, convert_openai_to_claude-alternates,
}
use token_flux.Vendor.ToClaude.Printed.{
  says, convert_openai_to_claude-prints, convert_openai_to_claude-budget,
}
use token_flux.Vendor.ToOpenai.{convert_claude_user_message}
use token_flux.Vendor.ToOpenai.Results.{tool_results, results_in, tool_results-convert}
use token_flux.Vendor.ToOpenai.Roundtrip.{image_block-image_url}
use token_flux.Vendor.ChatStream.{Delta, Event}
use token_flux.Vendor.FromClaude.{handle_stream_to_openai}
use token_flux.Vendor.FromClaude.Texts.{sent_text, lines_text, sent_text-handle_stream_to_openai}
use token_flux.Vendor.FromClaude.Tools.{
  sent_calls, calls_of, events_in, sent_calls-handle_stream_to_openai,
}
use token_flux.Vendor.ModelName.{marker, quote, replace_model_name, replace_claude_model_name}
use token_flux.Vendor.ModelName.Replaced.{replace_model_name-once}

abbrev some_info : RelayInfo
some_info = record {
  request_id = codes "r1";
  origin_model_name = codes "gpt";
  upstream_model_name = codes "claude";
  is_model_mapped = false;
}

abbrev two_lines : List Text
two_lines = codes "data: x" ∷ codes "data:[DONE]" ∷ []

abbrev hello : StreamResponse
hello = record {
  id = [];
  created = 0;
  model = codes "gpt";
  choices = record { index = pos 0; delta = says "" (codes "hi"); finish_reason = none } ∷ [];
  usage = none;
}

abbrev present : ℕ → Bool
present n = false

handle_claude_inbound_stream-stopped_example :
    phase_after
      (handle_claude_inbound_stream
        (λ s. s)
        (λ s. some hello)
        some_info
        present
        none
        two_lines
        new_stream_status).2.sent
    ≡ some stopped
unfolding handle_claude_inbound_stream text_eq extract_sse_data has_prefix drop set_end_reason
handle_claude_inbound_stream-stopped_example =
    handle_claude_inbound_stream-stopped (λ s. s) (λ s. some hello) some_info present none two_lines
      new_stream_status refl refl refl refl

abbrev plain_printing : Printing
plain_printing = record {
  of_value = λ v. codes "<nil>";
  hex = λ n. codes "c000";
  address = λ t. 0;
  parse = λ t. none;
}

abbrev some_request : ChatRequest
some_request = record {
  model = codes "gpt";
  messages = says "assistant" (codes "a") ∷ says "assistant" (codes "b") ∷ [];
  max_tokens = some (pos 20000);
  max_completion_tokens = none;
  temperature = none;
  top_p = none;
  top_k = none;
  stop = null;
  stream = none;
  tools = [];
  tool_choice = null;
  parallel_tool_calls = none;
  reasoning_effort = "high";
}

convert_openai_to_claude-alternates_example :
    (alternates (convert_openai_to_claude plain_printing some_info some_request).messages ≡ true)
    × (begins_with_user (convert_openai_to_claude plain_printing some_info some_request).messages
        ≡ true)
convert_openai_to_claude-alternates_example =
    convert_openai_to_claude-alternates plain_printing some_info some_request

convert_openai_to_claude-prints_example :
    ((convert_openai_to_claude plain_printing some_info some_request).messages
      ≡ record { role = "user"; content = plain (codes " ") }
        ∷ record {
          role = "assistant";
          content = blocks (text_block (codes "0xc000") ∷ text_block (codes "0xc000") ∷ []);
        }
        ∷ [])
    × ((u : Text) → has_prefix u (codes "0x") ≡ false → (codes "0xc000" ≢ u) × (codes "0xc000" ≢ u))
convert_openai_to_claude-prints_example =
    convert_openai_to_claude-prints plain_printing some_info some_request b'a' b'b' [] [] refl

convert_openai_to_claude-budget_example :
    (b : ℕ) × ((convert_openai_to_claude plain_printing some_info some_request).thinking
      ≡ some (record { kind = "enabled"; budget_tokens = some (pos b) }))
    × ((b < (convert_openai_to_claude plain_printing some_info some_request).max_tokens)
        ↔ ((str_eq "high" "high" ≡ false) ⊎ (32768 < limit_of (some (pos 20000)) none)))
convert_openai_to_claude-budget_example =
    convert_openai_to_claude-budget plain_printing some_info some_request refl

abbrev picture : Fields
picture =
    field (codes "media_type") (text (codes "a/b")) (field (codes "data") (text (codes "iVBO")) end)

image_block-image_url_example :
    (url : Text) × (image_url picture ≡ some url)
    × (image_block url ≡ record (bare_block "image") {
      source = some (record {
        kind = codes "base64";
        media_type = codes "a/b";
        data_text = codes "iVBO";
        url = [];
      });
    })
unfolding member_of text_eq Absent
image_block-image_url_example =
    image_block-image_url picture b'a' b'i' (codes "/b") (codes "VBO") refl refl
      (refl, (refl, (refl, tt)))

abbrev plain_writing : Writing
plain_writing = record { marshal = λ v. codes "{}"; of_value = λ v. codes "<nil>" }

abbrev one_result : Items
one_result =
    cons
      (object (
        field (codes "type") (text (codes "tool_result")) (
          field (codes "tool_use_id") (text (codes "t1"))
            (field (codes "content") (text (codes "42")) end))))
      nil

tool_results-convert_example :
    tool_results (convert_claude_user_message plain_writing (array one_result))
    ≡ (codes "t1", text (codes "42")) ∷ []
unfolding results_in member_of text_eq
tool_results-convert_example = tool_results-convert plain_writing one_result

abbrev bare_event : String → Event
bare_event kind = record {
  kind = kind;
  message = none;
  content_block = none;
  delta = none;
  usage = none;
  error = none;
}

abbrev hi_delta : Delta
hi_delta = record {
  kind = "text_delta";
  text = some (codes "hi");
  thinking = none;
  partial_json = none;
  stop_reason = none;
}

abbrev hi_event : Event
hi_event = record (bare_event "content_block_delta") { delta = some hi_delta }

sent_text-handle_stream_to_openai_example :
    sent_text
      (handle_stream_to_openai some_info 100
        (λ s. s)
        (λ s. some hi_event)
        present
        none
        two_lines
        new_stream_status).2.sent
    ≡ codes "hihi"
unfolding lines_text extract_sse_data has_prefix drop
sent_text-handle_stream_to_openai_example =
    sent_text-handle_stream_to_openai some_info 100 (λ s. s) (λ s. some hi_event) present none
      two_lines new_stream_status (λ k. refl)

abbrev json_delta : Delta
json_delta = record {
  kind = "input_json_delta";
  text = none;
  thinking = none;
  partial_json = some (codes "{}");
  stop_reason = none;
}

abbrev weather : ClaudeContentBlock
weather = tool_use_block (codes "t2") (codes "weather") null

abbrev start_event : Event
start_event = record (bare_event "content_block_start") { content_block = some weather }

abbrev part_event : Event
part_event = record (bare_event "content_block_delta") { delta = some json_delta }

-- One line opens a tool, and the next one has its arguments.
abbrev tool_lines : List Text
tool_lines = codes "data:" ∷ codes "data:x" ∷ []

abbrev tool_event : Text → Option Event
tool_event [] = some start_event
tool_event (c ∷ t) = some part_event

sent_calls-handle_stream_to_openai_example :
    sent_calls
      (handle_stream_to_openai some_info 100
        (λ s. s)
        tool_event
        present
        none
        tool_lines
        new_stream_status).2.sent
    ≡ record {
      index = none;
      id = codes "t2";
      kind = "function";
      name = codes "weather";
      arguments = [];
    }
      ∷ record { index = none; id = []; kind = ""; name = []; arguments = codes "{}" }
      ∷ []
unfolding events_in calls_of extract_sse_data has_prefix drop
sent_calls-handle_stream_to_openai_example =
    sent_calls-handle_stream_to_openai some_info 100 (λ s. s) tool_event present none tool_lines
      new_stream_status (λ k. refl)

replace_model_name-once_example :
    (replace_model_name (codes "{" ++ (marker ++ (codes "old" ++ b'"' ∷ codes "}"))) (codes "new")
      ≡ codes "{" ++ (marker ++ ((codes "new" ++ quote) ++ codes "}")))
    × (replace_claude_model_name
          (codes "{" ++ (marker ++ (codes "old" ++ b'"' ∷ codes "}")))
          (codes "new")
        ≡ codes "{" ++ (marker ++ ((marker ++ (codes "new" ++ quote)) ++ codes "}")))
unfolding index_of_str has_prefix Absent
replace_model_name-once_example =
    replace_model_name-once (codes "new") (codes "{") (codes "old") (codes "}") refl
      (refl, (refl, (refl, tt))) refl
