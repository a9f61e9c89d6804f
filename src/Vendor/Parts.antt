-- ===== src/Vendor/Parts.antt =====
-- server/internal/relay/channel/claude/converter.go: the parts of a message of OpenAI's chat as Claude's blocks.
use token_flux.Base.{
  ℕ, suc, ltb, Bool, false, ◌&&◌, ◌||◌, String, Option, none, some, List, [], ◌∷◌, ◌++◌, length,
  str_eq, if◌then◌else◌,
}
use token_flux.Bytes.{Text, codes, text_eq, take, drop, has_prefix, index_of_str}
use token_flux.Json.{Value, boolean, text, array, object, Items, nil, cons, Fields, member_of}
use token_flux.Vendor.Chat.{text_or_empty, text_of}
use token_flux.Vendor.Claude.{ClaudeSource, ClaudeContentBlock, bare_block, text_block}

-- The `any` of a message's content: a string, a pointer to a string, or blocks. JSON writes the first two alike.
pub data Content : Type 0 where
  plain pointer : Text → Content
  blocks : List ClaudeContentBlock → Content

-- `o2cJoinTextParts`
unfoldable pub join_lines : List Text → Text
join_lines [] = []
join_lines (t ∷ []) = t
join_lines (t ∷ u ∷ ts) = t ++ b'\n' ∷ join_lines (u ∷ ts)

abbrev pub is_text : Value → String → Bool
is_text (Value.text t) name = text_eq t (codes name)
is_text (Value.null) name = false
is_text (Value.boolean b) name = false
is_text (Value.number n) name = false
is_text (Value.array xs) name = false
is_text (Value.object fs) name = false

abbrev pub with_text : Option Text → List Text → List Text
with_text none ts = ts
with_text (some t) ts = t ∷ ts

abbrev pub fields_of : Value → Option Fields
fields_of (Value.object fs) = some fs
fields_of (Value.text t) = none
fields_of (Value.null) = none
fields_of (Value.boolean b) = none
fields_of (Value.number n) = none
fields_of (Value.array xs) = none

-- The text of a part of type "text".
abbrev part_of : Option Fields → Option Text
part_of none = none
part_of (some fs) =
    if is_text (member_of fs (codes "type")) "text"
    then text_of (member_of fs (codes "text"))
    else none

unfoldable pub text_parts : Items → List Text
unfolding member_of
text_parts nil = []
text_parts (cons v vs) = with_text (part_of (fields_of v)) (text_parts vs)

-- `len(dataURL) < 11`, the media type up to the first semicolon, and what follows `base64,`.
abbrev pub source_of : Text → Option ℕ → Option ClaudeSource
source_of rest none = none
source_of rest (some i) =
    if has_prefix (drop (suc i) rest) (codes "base64,")
    then some (record {
      kind = codes "base64";
      media_type = take i rest;
      data_text = drop 7 (drop (suc i) rest);
      url = [];
    })
    else none

abbrev pub kind_of_source : Text → String
kind_of_source media = if text_eq media (codes "application/pdf") then "document" else "image"

abbrev pub with_source : Option ClaudeSource → Option ClaudeContentBlock
with_source none = none
with_source (some s) = some (record (bare_block (kind_of_source s.media_type)) { source = some s })

-- `o2cParseDataURL`
unfoldable pub parse_data_url : Text → Option ClaudeContentBlock
parse_data_url url =
    if ltb (length url) 11
    then none
    else with_source (source_of (drop 5 url) (index_of_str (drop 5 url) (codes ";")))

abbrev url_source : Text → ClaudeSource
url_source url = record { kind = codes "url"; media_type = []; data_text = []; url = url }

abbrev linked_block : Text → ClaudeContentBlock
linked_block url =
    if has_prefix url (codes "http://") || has_prefix url (codes "https://")
    then record (bare_block "image") { source = some (url_source url) }
    else text_block url

abbrev block_or : Option ClaudeContentBlock → ClaudeContentBlock → ClaudeContentBlock
block_or none b = b
block_or (some c) b = c

-- The block of an image's address.
unfoldable pub image_block : Text → ClaudeContentBlock
unfolding parse_data_url
image_block url =
    if ltb 5 (length url) && has_prefix url (codes "data:")
    then block_or (parse_data_url url) (linked_block url)
    else linked_block url

abbrev with_block : Option ClaudeContentBlock → List ClaudeContentBlock → List ClaudeContentBlock
with_block none bs = bs
with_block (some b) bs = b ∷ bs

abbrev text_part : Option Text → Option ClaudeContentBlock
text_part none = none
text_part (some t) = some (text_block t)

abbrev image_part : Option Text → Option ClaudeContentBlock
image_part none = none
image_part (some url) = some (image_block url)

abbrev url_of : Option Fields → Option Text
url_of none = none
url_of (some fs) = text_of (member_of fs (codes "url"))

abbrev user_part : Option Fields → Option ClaudeContentBlock
user_part none = none
user_part (some fs) =
    if is_text (member_of fs (codes "type")) "text"
    then text_part (text_of (member_of fs (codes "text")))
    else if is_text (member_of fs (codes "type")) "image_url"
    then image_part (url_of (fields_of (member_of fs (codes "image_url"))))
    else none

unfoldable pub user_blocks : Items → List ClaudeContentBlock
unfolding member_of image_block
user_blocks nil = []
user_blocks (cons v vs) = with_block (user_part (fields_of v)) (user_blocks vs)

abbrev pub blank : Content
blank = blocks (text_block (codes " ") ∷ [])

-- A single text block is passed on as a pointer to its text.
abbrev pub alone : ClaudeContentBlock → Content
alone b = if str_eq b.kind "text" then pointer (text_or_empty b.text) else blocks (b ∷ [])

unfoldable pub content_of_blocks : List ClaudeContentBlock → Content
content_of_blocks [] = blank
content_of_blocks (b ∷ []) = alone b
content_of_blocks (b ∷ c ∷ bs) = blocks (b ∷ c ∷ bs)

abbrev pub or_empty_text : Value → Value
or_empty_text (Value.null) = text []
or_empty_text (Value.text t) = text t
or_empty_text (Value.boolean b) = boolean b
or_empty_text (Value.number n) = Value.number n
or_empty_text (Value.array xs) = array xs
or_empty_text (Value.object fs) = object fs
