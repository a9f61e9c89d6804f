-- ===== src/Json.antt =====
-- Decoded JSON (`any`, `map[string]any` and `[]any`), and Go's operations on it. An object has each key
-- once, in the order in which a loop over Go's map meets them.
use token_flux.Base.{Bool, true, false, Option, none, some, if◌then◌else◌}
use token_flux.Bytes.{Text, text_eq}

mutual
  pub data Value : Type 0 where
    null : Value
    boolean : Bool → Value
    -- A number, as it is printed.
    number : Text → Value
    text : Text → Value
    array : Items → Value
    object : Fields → Value

  pub data Items : Type 0 where
    nil : Items
    cons : Value → Items → Items

  pub data Fields : Type 0 where
    end : Fields
    field : Text → Value → Fields → Fields

-- Go's `m[name]` on a JSON object: nil when the name is missing.
unfoldable pub member_of : Fields → Text → Value
member_of end name = null
member_of (field k v fs) name = if text_eq k name then v else member_of fs name

unfoldable pub append_item : Items → Value → Items
append_item nil v = cons v nil
append_item (cons x xs) v = cons x (append_item xs v)

-- Go's `_, ok := m[name]`, `m[name]` with its second result, `m[name] = v` and `delete(m, name)`.
unfoldable pub find_field : Text → Fields → Option Value
find_field name end = none
find_field name (field k v fs) = if text_eq k name then some v else find_field name fs

abbrev pub is_some : Option Value → Bool
is_some none = false
is_some (some v) = true

unfoldable pub has_field : Text → Fields → Bool
unfolding find_field
has_field name fs = is_some (find_field name fs)

unfoldable pub set_field : Text → Value → Fields → Fields
set_field name v end = field name v end
set_field name v (field k w fs) =
    if text_eq k name then field k v fs else field k w (set_field name v fs)

unfoldable pub delete_field : Text → Fields → Fields
delete_field name end = end
delete_field name (field k v fs) =
    if text_eq k name then delete_field name fs else field k v (delete_field name fs)

-- `encoding/json`, which is not part of the repository: `json.Unmarshal` into a map, none for an error, and
-- `json.Marshal` of a map, which cannot fail on decoded values.
pub record Codec : Type 1 where
  pub Body : Type 0
  pub decode : Body → Option Fields
  pub encode : Fields → Body
