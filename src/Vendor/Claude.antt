-- ===== src/Vendor/Claude.antt =====
-- server/internal/relay/dto/claude.go: the messages of Claude, with the fields that the adaptors read.
use token_flux.Base.{ℤ, String, Option, none, some, []}
use token_flux.Bytes.{Text}
use token_flux.Json.{Value, null}

pub record ClaudeSource : Type 0 where
  pub kind : Text
  pub media_type : Text
  pub data_text : Text
  pub url : Text

pub record ClaudeContentBlock : Type 0 where
  pub kind : String
  pub text : Option Text
  pub thinking : Option Text
  pub id : Text
  pub name : Text
  pub input : Value
  pub tool_use_id : Text
  pub content : Value
  pub source : Option ClaudeSource

-- The struct with a type alone.
abbrev pub bare_block : String → ClaudeContentBlock
bare_block kind = record {
  kind = kind;
  text = none;
  thinking = none;
  id = [];
  name = [];
  input = null;
  tool_use_id = [];
  content = null;
  source = none;
}

abbrev pub text_block : Text → ClaudeContentBlock
text_block t = record (bare_block "text") { text = some t }

abbrev pub thinking_block : Text → ClaudeContentBlock
thinking_block t = record (bare_block "thinking") { thinking = some t }

abbrev pub tool_use_block : Text → Text → Value → ClaudeContentBlock
tool_use_block id name input = record (bare_block "tool_use") {
  id = id;
  name = name;
  input = input;
}

pub record ClaudeThinking : Type 0 where
  pub kind : String
  pub budget_tokens : Option ℤ

pub record ClaudeTool : Type 0 where
  pub name : Text
  pub description : Text
  pub input_schema : Value

pub record ClaudeCacheUsage : Type 0 where
  pub ephemeral_5m_input_tokens : ℤ
  pub ephemeral_1h_input_tokens : ℤ

pub record ClaudeUsage : Type 0 where
  pub input_tokens : ℤ
  pub output_tokens : ℤ
  pub cache_creation_input_tokens : ℤ
  pub cache_read_input_tokens : ℤ
  pub cache_creation : Option ClaudeCacheUsage
