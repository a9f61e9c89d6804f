-- ===== src/Override/Headers.antt =====
-- The header maps of server/internal/relay/override: the operations of override.go on the runtime
-- headers, and header.go, which gathers the headers to set on the upstream request.
use token_flux.Base.{
  ℕ, zero, suc, Bool, true, ◌||◌, not, Option, none, some, List, [], ◌∷◌, ◌++◌, length,
  if◌then◌else◌,
}
use token_flux.Override.Text.{
  Text, Map, codes, text_eq, take, drop, has_prefix, index_of_str, replace_all_str,
  is_unsafe_header, get_key, put_key, delete_key,
}
use token_flux.Override.Value.{Value, Headers, Entry, headers, Context, Library, RelayInfo}
use token_flux.Override.Operations.{to_string}

-- Assigns every entry of the first map to the second.
unfoldable pub put_all : Headers → Headers → Headers
put_all [] m = m
put_all ((k, v) ∷ new) m = put_all new (put_key k v m)

abbrev pub headers_of : Option Entry → Headers
headers_of (some (headers h)) = h
headers_of _ = []

-- `getRuntimeHeaders`: the map it returns is the one in the context, so a change is stored there.
unfoldable pub get_runtime_headers : Context → Headers
get_runtime_headers ctx = headers_of (get_key (codes "header_override") ctx)

unfoldable pub with_headers : (Headers → Headers) → Context → Context
with_headers f ctx = put_key (codes "header_override") (headers (f (get_runtime_headers ctx))) ctx

unfoldable pub copy_entry : Text → Text → Headers → Headers
copy_entry from to h = elim (get_key from h) [ none ↦ h | some v ↦ put_key to v h ]

unfoldable pub move_entry : Text → Text → Headers → Headers
move_entry from to h = elim (get_key from h) [
  | none ↦ h
  | some v ↦ delete_key from (put_key to v h)
]

-- The loop of `opPassHeaders`.
unfoldable pub pass_safe : Headers → Headers → Headers
pass_safe [] h = h
pass_safe ((k, v) ∷ req) h = pass_safe req (if is_unsafe_header k then h else put_key k v h)

unfoldable pub op_delete_header : Text → Context → Context
unfolding with_headers
op_delete_header key ctx = with_headers (delete_key key) ctx

unfoldable pub op_copy_header : Text → Text → Context → Context
unfolding with_headers
op_copy_header from to ctx = with_headers (copy_entry from to) ctx

unfoldable pub op_move_header : Text → Text → Context → Context
unfolding with_headers
op_move_header from to ctx = with_headers (move_entry from to) ctx

unfoldable pub op_pass_headers : Context → Context
unfolding with_headers
op_pass_headers ctx =
    with_headers (pass_safe (headers_of (get_key (codes "request_headers") ctx))) ctx

abbrev pub client_header_mark : Text
client_header_mark = codes "{client_header:"

-- `header.Values(name)` on a canonical name, and the first value or the empty text.
abbrev pub first_value : Option (List Text) → Text
first_value (some (v ∷ vs)) = v
first_value _ = []

abbrev pub values_of : Option (Map (List Text)) → Text → Option (List Text)
values_of none name = none
values_of (some h) name = get_key name h

-- A round of the loop of `resolveHeaderPlaceholder`, given what a client header holds: the text up to the
-- mark, the value, and the text after the closing brace. There is none when the loop ends.
unfoldable pub fill : (Text → Text) → Text → ℕ → Option ℕ → Option Text
fill value result start none = none
fill value result start (some end) =
    let tail = drop start result in
    let name = drop (length client_header_mark) (take end tail) in
    some (take start result ++ value name ++ drop (suc end) tail)

unfoldable pub fill_from : (Text → Text) → Text → Option ℕ → Option Text
fill_from value result none = none
fill_from value result (some start) =
    fill value result start (index_of_str (drop start result) (codes "}"))

unfoldable pub next_placeholder : (Text → Text) → Text → Option Text
next_placeholder value result = fill_from value result (index_of_str result client_header_mark)

-- The loop of `resolveHeaderPlaceholder`, `none` when the rounds are used up.
unfoldable pub resolve_client_headers : ℕ → (Text → Text) → Text → Option Text
resolve_client_headers zero value result = none
resolve_client_headers (suc fuel) value result = elim (next_placeholder value result) [
  | none ↦ some result
  | some next ↦ resolve_client_headers fuel value next
]

abbrev pub nonempty_first : List Text → Option Text
nonempty_first [] = none
nonempty_first (v ∷ vs) = if text_eq v [] then none else some v

-- A loop of `ApplyHeaderOverride` over the client's headers: the safe ones that pass the test.
unfoldable pub pass_matching : (Text → Bool) → Map (List Text) → Headers → Headers
pass_matching matches [] result = result
pass_matching matches ((h, vals) ∷ req) result = pass_matching matches req (
    if is_unsafe_header h || not (matches h)
    then result
    else elim (nonempty_first vals) [ none ↦ result | some v ↦ put_key h v result ])

abbrev pub pass_from : (Text → Bool) → Option (Map (List Text)) → Headers → Headers
pass_from matches none result = result
pass_from matches (some req) result = pass_matching matches req result

module _ (L : Library) where
  unfoldable pub op_set_header : Text → Value → Context → Context
  unfolding with_headers
  op_set_header key value ctx = with_headers (put_key key (L.sprint value)) ctx

  -- `resolveHeaderPlaceholder`; the first number bounds the rounds.
  unfoldable pub resolve_header_placeholder : ℕ → Text → RelayInfo → Option Text
  resolve_header_placeholder fuel template info =
      resolve_client_headers fuel
        (λ name. first_value (values_of info.request_headers (L.canonical name)))
        (replace_all_str template (codes "{api_key}") info.api_key)

  abbrev pub pattern_of : Text → Text
  pattern_of key = if has_prefix key (codes "regex:") then drop 6 key else drop 3 key

  -- The body of the first loop of `ApplyHeaderOverride`.
  unfoldable pub override_one : ℕ → RelayInfo → Text → Value → Headers → Option Headers
  override_one fuel info key value result =
      if text_eq key (codes "*")
      then some (pass_from (λ h. true) info.request_headers result)
      else if has_prefix key (codes "re:") || has_prefix key (codes "regex:")
      then elim (L.compile (pattern_of key)) [
        | none ↦ some result
        | some re ↦ some (pass_from re.match_string info.request_headers result)
      ]
      else elim (resolve_header_placeholder fuel (to_string L value) info) [
        | none ↦ none
        | some resolved ↦ some (put_key key resolved result)
      ]

  unfoldable pub override_all : ℕ → RelayInfo → Map Value → Headers → Option Headers
  override_all fuel info [] result = some result
  override_all fuel info ((key, value) ∷ rules) result =
      elim (override_one fuel info key value result) [
        | none ↦ none
        | some next ↦ override_all fuel info rules next
      ]

  abbrev pub with_runtime : Option Headers → Option Headers → Option Headers
  with_runtime runtime none = none
  with_runtime none (some result) = some result
  with_runtime (some h) (some result) = some (put_all h result)

  -- `ApplyHeaderOverride`; it never returns an error. A nil map reads as the empty one.
  unfoldable pub apply_header_override : ℕ → RelayInfo → Option Headers
  apply_header_override fuel info =
      with_runtime info.runtime_headers_override (override_all fuel info info.header_override [])

  -- `MergeHeaderOverrides`: `header.Set` puts one value under the canonical name.
  unfoldable pub merge_header_overrides : Map (List Text) → Headers → Map (List Text)
  merge_header_overrides header [] = header
  merge_header_overrides header ((k, v) ∷ overrides) =
      merge_header_overrides (put_key (L.canonical k) (v ∷ []) header) overrides
