-- ===== src/Override/Rules.antt =====
-- server/internal/relay/override/override.go: reading the rules of a channel, and the context variables.
-- A decoded object has each key once, in the order in which Go's loop meets them.
use token_flux.Base.{pos, ltb, false, Option, none, some, List, [], ◌∷◌, if◌then◌else◌}
use token_flux.Override.Text.{Text, Map, codes, text_eq, parse_int_default, put_key}
use token_flux.Override.Value.{
  Value, boolean, number, text, array, object, Items, nil, cons, Fields, end, field, Headers, plain,
  headers, Context, Condition, Operation, ReturnError, OverrideError, blocked, RelayInfo, Library,
}
use token_flux.Json.{member_of}
use token_flux.Override.Operations.{to_string, to_bool}

-- `ReturnError.Error` and `AsReturnError`
unfoldable pub error_text : ReturnError → Text
error_text e = if text_eq e.message [] then codes "request blocked by param override" else e.message

unfoldable pub as_return_error : OverrideError → Option ReturnError
as_return_error (blocked e) = some e
as_return_error e = none

-- The first value of a client header that is not empty.
unfoldable pub first_nonempty : List Text → Option Text
first_nonempty [] = none
first_nonempty (v ∷ vs) = if text_eq v [] then first_nonempty vs else some v

unfoldable pub flat_headers : Map (List Text) → Headers → Headers
flat_headers [] h = h
flat_headers ((k, vs) ∷ req) h =
    flat_headers req (elim (first_nonempty vs) [ none ↦ h | some v ↦ put_key k v h ])

abbrev pub with_request_headers : Option (Map (List Text)) → Context → Context
with_request_headers none ctx = ctx
with_request_headers (some req) ctx =
    put_key (codes "request_headers") (headers (flat_headers req [])) ctx

abbrev pub with_header_override : Option Headers → Context → Context
with_header_override none ctx = ctx
with_header_override (some h) ctx = put_key (codes "header_override") (headers h) ctx

-- `applyLegacy` leaves the rule list out.
unfoldable pub without_operations : Fields → Fields
without_operations end = end
without_operations (field k v fs) =
    if text_eq k (codes "operations")
    then without_operations fs
    else field k v (without_operations fs)

module _ (L : Library) where
  -- `BuildOverrideContext`
  unfoldable pub build_override_context : RelayInfo → Context
  build_override_context info = with_header_override info.runtime_headers_override (
      with_request_headers info.request_headers (
        (codes "model", plain (text info.origin_model_name))
        ∷ (codes "original_model", plain (text info.origin_model_name))
        ∷ (codes "upstream_model", plain (text info.upstream_model_name))
        ∷ (codes "request_path", plain (text info.request_url_path))
        ∷ (codes "is_retry", plain (boolean (ltb 0 info.retry_index)))
        ∷ (codes "retry_index", plain (number (L.sprint_int info.retry_index)))
        ∷ []))

  unfoldable pub parse_condition : Fields → Condition
  parse_condition m = record {
    path = to_string L (member_of m (codes "path"));
    mode = to_string L (member_of m (codes "mode"));
    value = member_of m (codes "value");
    invert = to_bool L (member_of m (codes "invert"));
    pass_missing_key = to_bool L (member_of m (codes "pass_missing_key"));
  }

  unfoldable pub parse_conditions : Items → List Condition
  parse_conditions nil = []
  parse_conditions (cons (object m) xs) = parse_condition m ∷ parse_conditions xs
  parse_conditions (cons x xs) = parse_conditions xs

  abbrev pub conditions_of : Value → List Condition
  conditions_of (array xs) = parse_conditions xs
  conditions_of v = []

  unfoldable pub parse_operation : Fields → Operation
  parse_operation m = record {
    path = to_string L (member_of m (codes "path"));
    mode = to_string L (member_of m (codes "mode"));
    value = member_of m (codes "value");
    keep_origin = to_bool L (member_of m (codes "keep_origin"));
    from = to_string L (member_of m (codes "from"));
    to = to_string L (member_of m (codes "to"));
    conditions = conditions_of (member_of m (codes "conditions"));
    logic = to_string L (member_of m (codes "logic"));
  }

  unfoldable pub parse_operations : Items → List Operation
  parse_operations nil = []
  parse_operations (cons (object m) xs) =
      let rest = parse_operations xs in
      let op = parse_operation m in if text_eq op.mode [] then rest else op ∷ rest
  parse_operations (cons x xs) = parse_operations xs

  -- `tryParseOperations`: the rules, none when there is no list or no rule in it.
  unfoldable pub try_parse_operations : Fields → List Operation
  try_parse_operations param_override = elim (member_of param_override (codes "operations")) [
    | array xs ↦ parse_operations xs
    | _ ↦ []
  ]

  unfoldable pub op_return_error : Value → ReturnError
  op_return_error (object m) = record {
    message = to_string L (member_of m (codes "message"));
    status_code = parse_int_default (to_string L (member_of m (codes "status_code"))) (pos 400);
    code = to_string L (member_of m (codes "code"));
    type = to_string L (member_of m (codes "type"));
    skip_retry = to_bool L (member_of m (codes "skip_retry"));
  }
  op_return_error v = record {
    message = codes "request blocked";
    status_code = pos 400;
    code = [];
    type = [];
    skip_retry = false;
  }

  -- The loop of `applyLegacy`.
  unfoldable pub apply_fields : L.Doc → Fields → L.Doc
  apply_fields body end = body
  apply_fields body (field path value fs) =
      apply_fields (elim (L.set body path value) [ none ↦ body | some result ↦ result ]) fs

  unfoldable pub apply_legacy : L.Doc → Fields → L.Doc
  apply_legacy body param_override = apply_fields body (without_operations param_override)
