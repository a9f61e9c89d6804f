-- ===== src/Override/Text.antt =====
-- The helpers that server/internal/relay/override/override.go writes out: search, replacement, lower case
-- and whole numbers.
use token_flux.Base.{
  ℕ, zero, suc, ◌+◌, ◌-◌, ℤ, pos, ◌+ℤ◌, ◌*ℤ◌, int64, leb, ◌==◌, Bool, ◌&&◌, ◌||◌, Option, none,
  some, List, [], ◌∷◌, ◌++◌, map, length, if◌then◌else◌,
}
unfoldable pub use token_flux.Bytes.{
  Text, codes, text_eq, text_ltb, take, drop, has_prefix, has_suffix, trim_prefix, trim_suffix,
  next, index_of_str, member, Map, get_key, put_key, delete_key,
}

abbrev pub get_or : Text → Option Text → Text
get_or d none = d
get_or d (some t) = t

unfoldable pub contains_str_impl : Text → Text → Bool
contains_str_impl [] p = has_prefix [] p
contains_str_impl (c ∷ s) p = has_prefix (c ∷ s) p || contains_str_impl s p

unfoldable pub contains_str : Text → Text → Bool
contains_str s p = leb (length p) (length s) && (length p == 0 || contains_str_impl s p)

abbrev pub prepend : Text → Option Text → Option Text
prepend s none = none
prepend s (some t) = some (s ++ t)

-- The loop of `replaceAllStr`, `none` when the rounds are used up.
unfoldable pub replace_loop : ℕ → Text → Text → Text → Option Text
replace_loop zero s old new = none
replace_loop (suc fuel) s old new = elim (index_of_str s old) [
  | none ↦ some s
  | some i ↦ prepend (take i s ++ new) (replace_loop fuel (drop (i + length old) s) old new)
]

-- `replaceAllStr`: a round for each byte, and one, are enough when `old` is not empty.
unfoldable pub replace_all_str : Text → Text → Text → Text
replace_all_str s old new = get_or s (replace_loop (suc (length s)) s old new)

abbrev pub is_digit : ℕ → Bool
is_digit c = leb b'0' c && leb c b'9'

-- The loop of `parseIntDefault`; an int has 64 bits.
unfoldable pub parse_int_from : ℤ → ℤ → Text → ℤ
parse_int_from def n [] = n
parse_int_from def n (c ∷ s) =
    if is_digit c then parse_int_from def (int64 (n *ℤ pos 10 +ℤ pos (c - b'0'))) s else def

unfoldable pub parse_int_default : Text → ℤ → ℤ
parse_int_default [] def = def
parse_int_default (c ∷ s) def = parse_int_from def (pos 0) (c ∷ s)

unfoldable pub to_lower_byte : ℕ → ℕ
to_lower_byte c = if leb b'A' c && leb c b'Z' then c + 32 else c

-- `toLowerStr` on a name without bytes above 127, which is all that HTTP allows.
unfoldable pub to_lower_str : Text → Text
to_lower_str s = map to_lower_byte s

abbrev pub unsafe_headers : List Text
unsafe_headers =
    codes "connection"
    ∷ codes "keep-alive"
    ∷ codes "proxy-authenticate"
    ∷ codes "proxy-authorization"
    ∷ codes "te"
    ∷ codes "trailer"
    ∷ codes "transfer-encoding"
    ∷ codes "upgrade"
    ∷ codes "cookie"
    ∷ codes "host"
    ∷ codes "content-length"
    ∷ codes "accept-encoding"
    ∷ codes "authorization"
    ∷ codes "x-api-key"
    ∷ codes "x-goog-api-key"
    ∷ []

unfoldable pub is_unsafe_header : Text → Bool
is_unsafe_header key = member (to_lower_str key) unsafe_headers
