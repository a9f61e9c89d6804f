-- ===== src/Tests/Rules.antt =====
-- Concrete rules of a channel, on bodies that are flat maps.
use token_flux.Base.{
  ℕ, suc, ◌+◌, ◌*◌, ◌/◌, ltb, true, false, none, some, List, [], ◌∷◌, ◌≡◌, refl, arith, Bool-cases,
  inl, inr, if◌then◌else◌,
}
use token_flux.Override.Text.{
  Text, Map, codes, has_prefix, has_suffix, take, drop, contains_str, contains_str_impl,
  index_of_str, replace_loop, replace_all_str, to_lower_str, text_eq, get_key, put_key, delete_key,
  is_unsafe_header,
}
use token_flux.Bytes.Laws.{Absent}
use token_flux.Override.Value.{
  Value, null, boolean, number, text, array, object, end, plain, headers, Context, Condition,
  Operation, Library, RelayInfo,
}
use token_flux.Override.Operations.{to_string}
use token_flux.Override.Conditions.{
  is_and, check_each, check_one, condition_target, condition_matched, evaluate_condition,
  compare_by, resolve_context_path, resolve_names, entry_to_string, sprint_entry, check_conditions,
}
use token_flux.Override.Headers.{
  get_runtime_headers, op_pass_headers, pass_from, client_header_mark, resolve_client_headers,
  next_placeholder, fill_from, fill, resolve_header_placeholder,
}
use token_flux.Override.Replace.{replace_all_str-ends}
use token_flux.Override.Logic.{all_match, any_matches, check_conditions-reference}
use token_flux.Override.Passing.{pass_headers-safe}
use token_flux.Override.Placeholders.{
  braces, client_value, resolve_header_placeholder-ends, resolve_client_headers-spins,
}

abbrev print : Value → Text
print null = codes "<nil>"
print (boolean true) = codes "true"
print (boolean false) = codes "false"
print (number n) = n
print (text s) = s
print (array xs) = codes "[]"
print (object fs) = codes "map[]"

abbrev flat : Library
flat = record {
  Doc = Map Value;
  get = λ d k. get_key k d;
  set = λ d k v. some (put_key k v d);
  delete = λ d k. some (delete_key k d);
  sprint = print;
  sprint_headers = λ h. codes "map[]";
  sprint_int = λ n. codes "0";
  compile =
      λ p. some (record { match_string = λ s. has_prefix s p; replace_all_string = λ s r. s });
  to_lower = to_lower_str;
  to_upper = λ s. s;
  trim_space = λ s. s;
  canonical = λ s. s;
  Float = ℕ;
  of_int = λ n. n;
  add = λ a b. a + b;
  mul = λ a b. a * b;
  div = λ a b. a / b;
  less = ltb;
}

abbrev chat_body : Map Value
chat_body = (codes "model", text (codes "gpt-4o")) ∷ (codes "stream", boolean true) ∷ []

abbrev chat_context : Context
chat_context =
    (codes "model", plain (text (codes "gpt-4o")))
    ∷ (
      codes "request_headers",
      headers ((codes "Cookie", codes "id=1") ∷ (codes "X-Trace", codes "7") ∷ []),
    )
    ∷ []

abbrev chat_headers : Map (List Text)
chat_headers = (codes "Cookie", codes "id=1" ∷ []) ∷ (codes "X-Trace", codes "7" ∷ []) ∷ []

abbrev is_gpt : Condition
is_gpt = record {
  path = codes "model";
  mode = codes "prefix";
  value = text (codes "gpt");
  invert = false;
  pass_missing_key = false;
}

abbrev is_streamed : Condition
is_streamed = record {
  path = codes "stream";
  mode = codes "full";
  value = boolean true;
  invert = true;
  pass_missing_key = true;
}

abbrev rule : Text → Text → Value → Operation
rule mode path value = record {
  path = path;
  mode = mode;
  value = value;
  keep_origin = false;
  from = [];
  to = [];
  conditions = is_gpt ∷ [];
  logic = codes "AND";
}

abbrev chat_info : RelayInfo
chat_info = record {
  param_override = end;
  header_override = [];
  api_key = codes "k1";
  upstream_model_name = codes "gpt-4o";
  origin_model_name = codes "gpt-4o";
  request_url_path = codes "/v1";
  retry_index = 0;
  request_headers = some chat_headers;
  runtime_headers_override = none;
}

replace_all_str-ends_example :
    (replace_loop 10 (codes "a{m}b{m}c") (codes "{m}") (codes "gpt")
      ≡ some (replace_all_str (codes "a{m}b{m}c") (codes "{m}") (codes "gpt")))
    × (replace_all_str (codes "a{m}b{m}c") (codes "{m}") (codes "{m}") ≡ codes "a{m}b{m}c")
replace_all_str-ends_example =
    replace_all_str-ends (codes "a{m}b{m}c") (codes "{m}") (codes "gpt") (omega arith)

replaced : replace_all_str (codes "a{m}b{m}c") (codes "{m}") (codes "gpt") ≡ codes "agptbgptc"
unfolding replace_all_str replace_loop token_flux.Override.Text.index_of_str has_prefix
    token_flux.Override.Text.drop token_flux.Override.Text.take
replaced = refl

check_conditions-reference_example :
    check_conditions flat chat_body chat_context (is_gpt ∷ is_streamed ∷ []) (codes "AND") ≡ (
      if is_and (codes "AND")
      then all_match flat chat_body chat_context (is_gpt ∷ is_streamed ∷ [])
      else any_matches flat chat_body chat_context (is_gpt ∷ is_streamed ∷ []))
check_conditions-reference_example =
    check_conditions-reference flat chat_body chat_context (is_gpt ∷ is_streamed ∷ []) (codes "AND")

conditions_fail :
    check_conditions flat chat_body chat_context (is_gpt ∷ is_streamed ∷ []) (codes "AND") ≡ false
unfolding check_conditions check_each check_one condition_target condition_matched
    evaluate_condition compare_by get_key resolve_context_path resolve_names contains_str
    contains_str_impl replace_all_str replace_loop has_prefix has_suffix text_eq take drop
    entry_to_string sprint_entry to_string is_and
conditions_fail = refl

pass_headers-safe_example :
    (get_key (codes "Cookie") (get_runtime_headers (op_pass_headers chat_context))
      ≡ get_key (codes "Cookie") (get_runtime_headers chat_context))
    × (get_key (codes "Cookie") (pass_from (λ h. true) (some chat_headers) [])
        ≡ get_key {V = Text} (codes "Cookie") [])
unfolding is_unsafe_header token_flux.Override.Text.member text_eq to_lower_str
    token_flux.Override.Text.to_lower_byte
pass_headers-safe_example =
    pass_headers-safe (codes "Cookie") chat_context (λ h. true) (some chat_headers) [] refl

trace_passed :
    get_key (codes "X-Trace") (get_runtime_headers (op_pass_headers chat_context))
    ≡ some (codes "7")
unfolding get_key get_runtime_headers op_pass_headers put_key text_eq
    token_flux.Override.Headers.pass_safe is_unsafe_header token_flux.Override.Text.member
    to_lower_str token_flux.Override.Text.to_lower_byte
trace_passed = refl

no_braces : (name : Text) → braces (client_value flat chat_info name) ≡ 0
unfolding braces get_key
no_braces name = elim (Bool-cases (text_eq (codes "Cookie") name)) [
  | inl e ↦ rw e refl
  | inr e ↦ elim (Bool-cases (text_eq (codes "X-Trace") name)) [
    | inl f ↦ rw (e, f) refl
    | inr f ↦ rw (e, f) refl
  ]
]

resolve_header_placeholder-ends_example :
    (result : Text) × (resolve_header_placeholder flat
        (suc (
          braces
            (replace_all_str (codes "t-{client_header:X-Trace}") (codes "{api_key}") (codes "k1"))))
        (codes "t-{client_header:X-Trace}")
        chat_info
      ≡ some result)
resolve_header_placeholder-ends_example =
    resolve_header_placeholder-ends flat (codes "t-{client_header:X-Trace}") chat_info no_braces

resolved :
    resolve_header_placeholder flat 2 (codes "t-{client_header:X-Trace}") chat_info
    ≡ some (codes "t-7")
unfolding resolve_header_placeholder resolve_client_headers next_placeholder fill_from fill
    index_of_str replace_all_str replace_loop has_prefix take drop text_eq get_key
resolved = refl

resolve_client_headers-spins_example :
    resolve_client_headers 100
      (λ name. codes "{client_header:X-Trace}")
      (codes "{client_header:X-Trace}")
    ≡ none
unfolding Absent
resolve_client_headers-spins_example =
    resolve_client_headers-spins 100 (λ name. codes "{client_header:X-Trace}") (codes "X-Trace")
      (refl, (refl, (refl, (refl, (refl, (refl, (refl, tt))))))) refl
