-- ===== src/Vendor/Sse.antt =====
-- server/internal/relay/helper/stream.go: the lines of an event stream. `strings.TrimSpace` is a parameter.
use token_flux.Base.{Bool, Option, none, some, [], ◌∷◌, ◌==◌, if◌then◌else◌}
use token_flux.Bytes.{Text, codes, text_eq, drop, has_prefix}

-- At most one space after the colon is skipped.
abbrev pub skip_space : Text → Text
skip_space [] = []
skip_space (c ∷ s) = if c == b' ' then s else c ∷ s

-- `ExtractSSEData`
unfoldable pub extract_sse_data : (Text → Text) → Text → Option Text
extract_sse_data trim line =
    if has_prefix line (codes "data:") then some (trim (skip_space (drop 5 line))) else none

abbrev pub is_done : Text → Bool
is_done payload = text_eq payload (codes "[DONE]")
