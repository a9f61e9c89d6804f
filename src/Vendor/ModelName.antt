-- ===== src/Vendor/ModelName.antt =====
-- `replaceModelName` of server/internal/relay/channel/openai/adaptor.go and of
-- server/internal/relay/channel/claude/response.go: the name that a body has for its model is replaced. The rounds of
-- the loops are a parameter; each round takes the marker off the body.
pub mod Replaced
use token_flux.Base.{ℕ, zero, suc, ◌+◌, ◌-◌, Option, none, some, List, [], ◌∷◌, ◌++◌, length}
use token_flux.Bytes.{Text, codes, text_eq, take, drop, has_prefix, index_of_str}

-- `"model":"` and `"`, as bytes.
abbrev pub quote : Text
quote = b'"' ∷ []

abbrev pub marker : Text
marker = b'"' ∷ (codes "model" ++ b'"' ∷ b':' ∷ b'"' ∷ [])

-- What stands up to the next quote is replaced; `again` goes on behind it.
abbrev pub replace_value : Text → (Text → Text) → Text → Option ℕ → Text
replace_value inserted again rest none = rest
replace_value inserted again rest (some i) = inserted ++ again (drop (suc i) rest)

abbrev pub at_marker : Text → (Text → Text) → Text → Option ℕ → Text
at_marker inserted again body none = body
at_marker inserted again body (some i) =
    let rest = drop (i + length marker) body in
    take (i + length marker) body ++ replace_value inserted again rest (index_of_str rest quote)

-- The loop; `inserted` stands for a value and its closing quote.
unfoldable pub replace_values : ℕ → Text → Text → Text
replace_values zero inserted body = body
replace_values (suc fuel) inserted body =
    at_marker inserted (replace_values fuel inserted) body (index_of_str body marker)

-- `replaceModelName` of the adaptor for OpenAI.
unfoldable pub replace_model_name : Text → Text → Text
unfolding replace_values
replace_model_name body name = replace_values (length body) (name ++ quote) body

-- `replaceModelName` of the adaptor for Claude, where the replacement holds the marker again.
unfoldable pub replace_claude_model_name : Text → Text → Text
unfolding replace_values
replace_claude_model_name body name = replace_values (length body) (marker ++ (name ++ quote)) body
