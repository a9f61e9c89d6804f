-- ===== src/Override/Value.antt =====
-- The rules and errors of server/internal/relay/override (override.go), and the libraries that
-- it calls. What the context holds is decoded JSON
-- or a header map.
use token_flux.Base.{ℤ, ℕ, Bool, Option, List}
use token_flux.Override.Text.{Text, Map}
pub use token_flux.Json.{
  Value, null, boolean, number, text, array, object, Items, nil, cons, Fields, end, field,
}

abbrev pub Headers : Type 0
Headers = Map Text

-- What the context maps a name to.
pub data Entry : Type 0 where
  plain : Value → Entry
  headers : Headers → Entry

abbrev pub Context : Type 0
Context = Map Entry

pub record Condition : Type 0 where
  pub path : Text
  pub mode : Text
  pub value : Value
  pub invert : Bool
  pub pass_missing_key : Bool

pub record Operation : Type 0 where
  pub path : Text
  pub mode : Text
  pub value : Value
  pub keep_origin : Bool
  pub from : Text
  pub to : Text
  pub conditions : List Condition
  pub logic : Text

pub record ReturnError : Type 0 where
  pub message : Text
  pub status_code : ℤ
  pub code : Text
  pub type : Text
  pub skip_retry : Bool

pub data OverrideError : Type 0 where
  blocked : ReturnError → OverrideError
  unknown_mode : Text → OverrideError
  invalid_pattern : Text → OverrideError
  not_written : OverrideError

pub data Outcome (A : Type 0) : Type 0 where
  done : A → Outcome A
  failed : OverrideError → Outcome A

-- The parts of `common.RelayInfo` that the package reads, with its `ChannelMeta`; a nil map is `none`.
pub record RelayInfo : Type 0 where
  pub param_override : Fields
  pub header_override : Map Value
  pub api_key : Text
  pub upstream_model_name : Text
  pub origin_model_name : Text
  pub request_url_path : Text
  pub retry_index : ℕ
  pub request_headers : Option (Map (List Text))
  pub runtime_headers_override : Option Headers

-- A compiled `regexp`: `MatchString` and `ReplaceAllString`.
pub record Pattern : Type 0 where
  pub match_string : Text → Bool
  pub replace_all_string : Text → Text → Text

-- What the package takes from elsewhere. `get` is `gjson.GetBytes`, `none` when nothing is there;
-- `set` and `delete` are `sjson.SetRawBytes` with the JSON of the value (or `SetBytes`) and
-- `sjson.DeleteBytes`, `none` for an error. `sprint` is `fmt.Sprintf("%v", v)`.
pub record Library : Type 1 where
  pub Doc : Type 0
  pub get : Doc → Text → Option Value
  pub set : Doc → Text → Value → Option Doc
  pub delete : Doc → Text → Option Doc
  pub sprint : Value → Text
  pub sprint_headers : Headers → Text
  pub sprint_int : ℕ → Text
  pub compile : Text → Option Pattern
  pub to_lower : Text → Text
  pub to_upper : Text → Text
  pub trim_space : Text → Text
  -- `textproto.CanonicalMIMEHeaderKey`
  pub canonical : Text → Text
  -- `float64`: a small integer, sum, product, quotient and the order.
  pub Float : Type 0
  pub of_int : ℕ → Float
  pub add : Float → Float → Float
  pub mul : Float → Float → Float
  pub div : Float → Float → Float
  pub less : Float → Float → Bool
