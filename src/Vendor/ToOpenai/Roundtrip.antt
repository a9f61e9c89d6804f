-- ===== src/Vendor/ToOpenai/Roundtrip.antt =====
-- What survives the way from OpenAI's form to Claude's and back, and from Claude's to OpenAI's and back: the two
-- converters of server/internal/relay/channel together.
use token_flux.Base.{
  ℕ, suc, ◌+◌, ltb, Bool, true, false, ◌||◌, String, Option, some, [], ◌∷◌, ◌++◌, length, str_eq,
  eq_iff, Bool-cases, inl, inr, ◌≡◌, refl, arith, length-append, if◌then◌else◌,
}
use token_flux.Bytes.{Text, codes, text_eq, drop, has_prefix}
use token_flux.Bytes.Laws.{take-append, index_of_str-first, Absent}
use token_flux.Json.{null, text, Fields, member_of}
use token_flux.Vendor.Claude.{ClaudeSource, bare_block}
use token_flux.Vendor.Parts.{kind_of_source, parse_data_url, source_of, image_block}
use token_flux.Vendor.Options.{thinking_of, convert_tool_choice}
use token_flux.Vendor.OpenaiParts.{
  effort_of, claude_tool_choice, function_named, field_text, image_url,
}

-- Reasoning efforts are kept; one that is none of the three becomes "medium".
pub effort_of-thinking_of :
    (effort : String)
    → effort_of (thinking_of effort) ≡ (
        if str_eq effort ""
          || (str_eq effort "low" || (str_eq effort "medium" || str_eq effort "high"))
        then effort
        else "medium")
effort_of-thinking_of effort = elim (Bool-cases (str_eq effort "")) [
  | inl e ↦ rw e (ground (arith, eq_iff effort "", e))
  | inr e ↦ elim (Bool-cases (str_eq effort "low")) [
    | inl l ↦ rw (e, l) (ground (arith, eq_iff effort "low", l))
    | inr l ↦ elim (Bool-cases (str_eq effort "medium")) [
      | inl m ↦ rw (e, l, m) (ground (arith, eq_iff effort "medium", m))
      | inr m ↦ elim (Bool-cases (str_eq effort "high")) [
        | inl k ↦ rw (e, l, m, k) (ground (arith, eq_iff effort "high", k))
        | inr k ↦ rw (e, l, m, k) refl
      ]
    ]
  ]
]

-- The choice of a tool is kept: "auto", "required" and the name of a function, which is not empty. "none" is lost.
pub claude_tool_choice-convert :
    (c : ℕ) (name : Text) (parallel : Option Bool)
    → (claude_tool_choice (convert_tool_choice (text (codes "auto")) parallel)
        ≡ text (codes "auto"))
      × (claude_tool_choice (convert_tool_choice (text (codes "required")) parallel)
          ≡ text (codes "required"))
      × (claude_tool_choice (convert_tool_choice (function_named (c ∷ name)) parallel)
          ≡ function_named (c ∷ name))
      × (claude_tool_choice (convert_tool_choice (text (codes "none")) parallel) ≡ null)
unfolding claude_tool_choice convert_tool_choice member_of text_eq
claude_tool_choice-convert c name parallel = (refl, refl, refl, refl)

abbrev pub data_url : Text → Text → Text
data_url media bytes = codes "data:" ++ (media ++ (codes ";base64," ++ bytes))

drop-suc_append : (s : Text) (c : ℕ) (t : Text) → drop (suc (length s)) (s ++ c ∷ t) ≡ t
unfolding drop
drop-suc_append [] c t = refl
drop-suc_append (b ∷ s) c t = drop-suc_append s c t

abbrev image_source : Text → Text → ClaudeSource
image_source media bytes = record {
  kind = codes "base64";
  media_type = media;
  data_text = bytes;
  url = [];
}

source_of-data_url :
    (media bytes : Text)
    → Absent b';' media
    → source_of (media ++ b';' ∷ (codes "base64," ++ bytes)) (some (length media))
      ≡ some (image_source media bytes)
unfolding drop has_prefix
source_of-data_url media bytes h =
    let rest : Text = codes "base64," ++ bytes in
    rw (drop-suc_append media b';' rest, take-append media (b';' ∷ rest)) refl

length-data_url :
    (media bytes : Text) → length (data_url media bytes) ≡ 13 + (length media + length bytes)
length-data_url media bytes = omega (arith, length-append media (codes ";base64," ++ bytes))

parse_data_url-data_url :
    (media bytes : Text)
    → Absent b';' media
    → parse_data_url (data_url media bytes)
      ≡ some
          (record (bare_block (kind_of_source media)) { source = some (image_source media bytes) })
unfolding parse_data_url drop
parse_data_url-data_url media bytes h =
    let long : ltb (length (data_url media bytes)) 11 ≡ false =
      ground (arith, length-data_url media bytes) in
    rw
      (
        long,
        index_of_str-first b';' media (codes "base64," ++ bytes) h,
        source_of-data_url media bytes h,
      )
      refl

-- The image of a message for Claude comes back from the address that is made for OpenAI: the type of its bytes and
-- the bytes, when neither is empty and the type holds no semicolon.
pub image_block-image_url :
    (fs : Fields) (c d : ℕ) (media bytes : Text)
    → field_text fs "media_type" ≡ c ∷ media
    → field_text fs "data" ≡ d ∷ bytes
    → Absent b';' (c ∷ media)
    → (url : Text) × (image_url fs ≡ some url)
      × (image_block url ≡ record (bare_block (kind_of_source (c ∷ media))) {
        source = some (record {
          kind = codes "base64";
          media_type = c ∷ media;
          data_text = d ∷ bytes;
          url = [];
        });
      })
unfolding image_block has_prefix
image_block-image_url fs c d media bytes m b h =
    let long : ltb 5 (length (data_url (c ∷ media) (d ∷ bytes))) ≡ true =
      ground (arith, length-data_url (c ∷ media) (d ∷ bytes)) in
    (
      data_url (c ∷ media) (d ∷ bytes),
      rw (m, b) refl,
      rw (long, parse_data_url-data_url (c ∷ media) (d ∷ bytes) h) refl,
    )
