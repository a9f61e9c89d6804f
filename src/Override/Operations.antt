-- ===== src/Override/Operations.antt =====
-- server/internal/relay/override/operations.go: what each rule does to the body of a request. A path that
-- cannot be written is ignored, or is an error, as the Go function has it.
use token_flux.Base.{Bool, true, false, ◌&&◌, Option, none, some, [], ◌++◌, if◌then◌else◌}
use token_flux.Override.Text.{
  Text, codes, text_eq, has_prefix, has_suffix, trim_prefix, trim_suffix, replace_all_str,
}
use token_flux.Json.{member_of, append_item}
use token_flux.Override.Value.{
  Value, null, boolean, number, text, array, object, nil, cons, Library, Outcome, done, failed,
  not_written, invalid_pattern,
}

unfoldable pub exists : Option Value → Bool
exists none = false
exists (some v) = true

-- `gjson.Result.Str`, which is empty for what is not a string.
unfoldable pub str_of : Value → Text
str_of (text s) = s
str_of v = []

abbrev pub pair_of : Value → Value → Value
pair_of a b = array (cons a (cons b nil))

-- The body that an ignored error leaves, and the result of a returned one.
unfoldable pub or_same : {A : Type 0} → A → Option A → Outcome A
or_same body none = done body
or_same body (some result) = done result

unfoldable pub written : {A : Type 0} → Option A → Outcome A
written none = failed not_written
written (some result) = done result

unfoldable pub ensured_prefix : Text → Text → Text
ensured_prefix prefix s = if has_prefix s prefix then s else prefix ++ s

unfoldable pub ensured_suffix : Text → Text → Text
ensured_suffix suffix s = if has_suffix s suffix then s else s ++ suffix

module _ (L : Library) where
  -- `toString` and `toBool`
  unfoldable pub to_string : Value → Text
  to_string null = []
  to_string (text s) = s
  to_string v = L.sprint v

  unfoldable pub to_bool : Value → Bool
  to_bool (boolean b) = b
  to_bool v = false

  -- A decoded value always has its JSON, so `valueToJSON` never falls back to null.
  unfoldable pub op_set : L.Doc → Text → Value → Bool → Outcome L.Doc
  unfolding exists or_same
  op_set body path value keep_origin =
      if keep_origin && exists (L.get body path)
      then done body
      else or_same body (L.set body path value)

  unfoldable pub op_delete : L.Doc → Text → Outcome L.Doc
  unfolding or_same
  op_delete body path = or_same body (L.delete body path)

  unfoldable pub op_move : L.Doc → Text → Text → Outcome L.Doc
  unfolding or_same
  op_move body from to = elim (L.get body from) [
    | none ↦ done body
    | some val ↦ elim (L.delete body from) [
      | none ↦ done body
      | some result ↦ or_same body (L.set result to val)
    ]
  ]

  unfoldable pub op_copy : L.Doc → Text → Text → Outcome L.Doc
  unfolding or_same
  op_copy body from to = elim (L.get body from) [
    | none ↦ done body
    | some val ↦ or_same body (L.set body to val)
  ]

  -- The switch of `opAppend` on the type of what is there.
  unfoldable pub append_to : L.Doc → Text → Value → Value → Outcome L.Doc
  unfolding written
  append_to body path value (text s) = written (L.set body path (text (s ++ L.sprint value)))
  append_to body path value (array xs) = written (L.set body path (array (append_item xs value)))
  append_to body path value (object fs) = done body
  append_to body path value (number n) = done body
  append_to body path value null = written (L.set body path (pair_of null value))
  append_to body path value (boolean b) = written (L.set body path (pair_of (boolean b) value))

  unfoldable pub op_append : L.Doc → Text → Value → Bool → Outcome L.Doc
  unfolding exists
  op_append body path value keep_origin =
      if keep_origin && exists (L.get body path) then done body else elim (L.get body path) [
        | none ↦ op_set body path value false
        | some existing ↦ append_to body path value existing
      ]

  unfoldable pub prepend_to : L.Doc → Text → Value → Value → Outcome L.Doc
  unfolding written
  prepend_to body path value (text s) = written (L.set body path (text (L.sprint value ++ s)))
  prepend_to body path value (array xs) = written (L.set body path (array (cons value xs)))
  prepend_to body path value (object fs) = done body
  prepend_to body path value (number n) = written (L.set body path (pair_of value (number n)))
  prepend_to body path value null = written (L.set body path (pair_of value null))
  prepend_to body path value (boolean b) = written (L.set body path (pair_of value (boolean b)))

  unfoldable pub op_prepend : L.Doc → Text → Value → Bool → Outcome L.Doc
  unfolding exists
  op_prepend body path value keep_origin =
      if keep_origin && exists (L.get body path) then done body else elim (L.get body path) [
        | none ↦ op_set body path value false
        | some existing ↦ prepend_to body path value existing
      ]

  unfoldable pub replace_in : L.Doc → Text → Text → Text → Outcome L.Doc
  unfolding written
  replace_in body path old_str new_str =
      if text_eq old_str [] then done body else elim (L.get body path) [
        | none ↦ done body
        | some target ↦
            written (L.set body path (text (replace_all_str (str_of target) old_str new_str)))
      ]

  unfoldable pub op_replace : L.Doc → Text → Value → Outcome L.Doc
  unfolding replace_in
  op_replace body path (object m) =
      replace_in body path (to_string (member_of m (codes "old")))
        (to_string (member_of m (codes "new")))
  op_replace body path value = done body

  unfoldable pub regex_replace_in : L.Doc → Text → Text → Text → Outcome L.Doc
  unfolding written
  regex_replace_in body path pattern replacement =
      if text_eq pattern [] then done body else elim (L.compile pattern) [
        | none ↦ failed (invalid_pattern pattern)
        | some re ↦ elim (L.get body path) [
          | none ↦ done body
          | some target ↦
              written (L.set body path (text (re.replace_all_string (str_of target) replacement)))
        ]
      ]

  unfoldable pub op_regex_replace : L.Doc → Text → Value → Outcome L.Doc
  unfolding regex_replace_in
  op_regex_replace body path (object m) =
      regex_replace_in body path (to_string (member_of m (codes "pattern")))
        (to_string (member_of m (codes "replacement")))
  op_regex_replace body path value = done body

  -- What the next seven share: a string at the path is rewritten, anything else stays.
  unfoldable pub on_string : (Text → Text) → L.Doc → Text → Outcome L.Doc
  unfolding written
  on_string f body path = elim (L.get body path) [
    | some (text s) ↦ written (L.set body path (text (f s)))
    | _ ↦ done body
  ]

  unfoldable pub op_to_lower : L.Doc → Text → Outcome L.Doc
  op_to_lower body path = on_string L.to_lower body path

  unfoldable pub op_to_upper : L.Doc → Text → Outcome L.Doc
  op_to_upper body path = on_string L.to_upper body path

  unfoldable pub op_trim_prefix : L.Doc → Text → Value → Outcome L.Doc
  op_trim_prefix body path value = on_string (λ s. trim_prefix s (L.sprint value)) body path

  unfoldable pub op_trim_suffix : L.Doc → Text → Value → Outcome L.Doc
  op_trim_suffix body path value = on_string (λ s. trim_suffix s (L.sprint value)) body path

  unfoldable pub op_ensure_prefix : L.Doc → Text → Value → Outcome L.Doc
  op_ensure_prefix body path value = on_string (ensured_prefix (L.sprint value)) body path

  unfoldable pub op_ensure_suffix : L.Doc → Text → Value → Outcome L.Doc
  op_ensure_suffix body path value = on_string (ensured_suffix (L.sprint value)) body path

  unfoldable pub op_trim_space : L.Doc → Text → Outcome L.Doc
  op_trim_space body path = on_string L.trim_space body path
