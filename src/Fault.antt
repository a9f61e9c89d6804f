-- ===== src/Fault.antt =====
-- server/internal/relay/constant/errors.go and error_category.go, and the remapping of statuses in
-- server/internal/relay/helper/status_code.go: the errors of the relay and their categories.
use token_flux.Base.{
  ℤ, pos, eq_ℤ, ltb_ℤ, Bool, false, ◌||◌, Option, none, some, String, List, [], ◌∷◌, ◌++◌,
  if◌then◌else◌,
}
use token_flux.Bytes.{Text, codes, text_eq, contains}
use token_flux.Json.{Value, text, number, Fields, find_field}

pub record RelayError : Type 0 where
  pub status_code : ℤ
  pub message : Text
  pub type : Text
  pub cause : Option Text

-- A Go error as `errors.As` and a type assertion see it: a relay error, one that another error wraps, or an
-- error of another type with its text.
pub data Fault : Type 0 where
  relay : RelayError → Fault
  wrapped : Text → RelayError → Fault
  raw : Text → Fault

unfoldable pub as_relay_error : Fault → Option RelayError
as_relay_error (relay e) = some e
as_relay_error (wrapped msg e) = some e
as_relay_error (raw msg) = none

abbrev pub relay_error : ℤ → Text → String → Option Text → RelayError
relay_error status message type cause = record {
  status_code = status;
  message = message;
  type = codes type;
  cause = cause;
}

-- The constructors of errors.go.
unfoldable pub new_upstream_error : ℤ → Text → Option Text → RelayError
new_upstream_error status message cause = relay_error status message "upstream_error" cause

unfoldable pub new_channel_error : Text → Option Text → RelayError
new_channel_error message cause = relay_error (pos 503) message "channel_error" cause

unfoldable pub new_auth_error : Text → RelayError
new_auth_error message = relay_error (pos 401) message "auth_error" none

unfoldable pub new_request_error : Text → Option Text → RelayError
new_request_error message cause = relay_error (pos 400) message "request_error" cause

unfoldable pub new_quota_error : Text → Option Text → RelayError
new_quota_error message cause = relay_error (pos 402) message "insufficient_quota" cause

unfoldable pub new_rate_limit_error : Text → RelayError
new_rate_limit_error message = relay_error (pos 429) message "rate_limit_error" none

unfoldable pub new_model_gone_error : Text → Text → RelayError
new_model_gone_error model_name sunset_date =
    relay_error (pos 410)
      (codes "model '" ++ model_name ++ codes "' has been sunset since " ++ sunset_date)
      "model_gone" none

-- `RelayError.Error`
unfoldable pub error_message : RelayError → Text
error_message e = elim e.cause [ none ↦ e.message | some cause ↦ e.message ++ codes ": " ++ cause ]

unfoldable pub status_in : ℤ → List ℤ → Bool
status_in s [] = false
status_in s (t ∷ ts) = eq_ℤ s t || status_in s ts

-- `constant.IsRetryable`
unfoldable pub is_retryable_fault : Option Fault → Bool
is_retryable_fault none = false
is_retryable_fault (some f) = elim (as_relay_error f) [
  | none ↦ false
  | some e ↦ status_in e.status_code (pos 429 ∷ pos 500 ∷ pos 502 ∷ pos 503 ∷ pos 504 ∷ [])
]

pub data ErrorCategory : Type 0 where
  rate_limit auth_error timeout upstream_error server_error network_error unknown_error :
      ErrorCategory

unfoldable pub classify_by_type : Text → ErrorCategory
classify_by_type type =
    if text_eq type (codes "rate_limit_error")
    then rate_limit
    else if text_eq type (codes "auth_error")
    then auth_error
    else if text_eq type (codes "insufficient_quota")
    then upstream_error
    else if text_eq type (codes "model_gone")
    then upstream_error
    else if text_eq type (codes "channel_error")
    then server_error
    else if text_eq type (codes "upstream_error")
    then upstream_error
    else if text_eq type (codes "request_error")
    then upstream_error
    else unknown_error

unfoldable pub classify_relay_error : RelayError → ErrorCategory
classify_relay_error e =
    if eq_ℤ e.status_code (pos 429)
    then rate_limit
    else if status_in e.status_code (pos 401 ∷ pos 403 ∷ [])
    then auth_error
    else if eq_ℤ e.status_code (pos 504)
    then timeout
    else if status_in e.status_code (pos 500 ∷ pos 502 ∷ pos 503 ∷ [])
    then server_error
    else if status_in e.status_code (pos 400 ∷ pos 422 ∷ [])
    then upstream_error
    else classify_by_type e.type

unfoldable pub contains_one : Text → List String → Bool
contains_one msg [] = false
contains_one msg (p ∷ ps) = contains msg (codes p) || contains_one msg ps

unfoldable pub classify_raw_error : Text → ErrorCategory
classify_raw_error msg =
    if contains_one msg ("deadline exceeded" ∷ "context deadline" ∷ [])
    then timeout
    else if contains_one msg (
        "connection refused" ∷ "connection reset" ∷ "DNS" ∷ "no such host" ∷ "TLS handshake"
        ∷ "certificate" ∷ [])
    then network_error
    else if contains_one msg ("timeout" ∷ "i/o timeout" ∷ [])
    then timeout
    else unknown_error

-- `ClassifyError`
unfoldable pub classify_error : Option Fault → ErrorCategory
classify_error none = unknown_error
classify_error (some (relay e)) = classify_relay_error e
classify_error (some (wrapped msg e)) = classify_relay_error e
classify_error (some (raw msg)) = classify_raw_error msg

-- What `RemapStatusCode` takes from `encoding/json`, `strconv` and the conversion of a float64: the object that
-- a text holds, an int in decimal, the number that `Atoi` returns beside its error, and the int of a float64.
pub record Numbers : Type 0 where
  pub unmarshal : Text → Option Fields
  pub itoa : ℤ → Text
  pub atoi : Text → ℤ
  pub int_of : Text → ℤ

-- `parseMappingValue`, on a decoded value.
unfoldable pub parse_mapping_value : Numbers → Value → ℤ
parse_mapping_value n (text s) = n.atoi s
parse_mapping_value n (number d) = n.int_of d
parse_mapping_value n v = pos 0

unfoldable pub remapped : Numbers → Fields → RelayError → RelayError
remapped n mapping e = elim (find_field (n.itoa e.status_code) mapping) [
  | none ↦ e
  | some v ↦
      let new_code = parse_mapping_value n v in
      if ltb_ℤ (pos 0) new_code then record e { status_code = new_code } else e
]

unfoldable pub remap_relay : Numbers → Text → RelayError → RelayError
remap_relay n mapping_json e =
    if eq_ℤ e.status_code (pos 0) || eq_ℤ e.status_code (pos 200)
    then e
    else elim (n.unmarshal mapping_json) [ none ↦ e | some mapping ↦ remapped n mapping e ]

-- `RemapStatusCode`: only an error that is itself a relay error is changed.
unfoldable pub remap_status_code : Numbers → Option Fault → Text → Option Fault
remap_status_code n (some (relay e)) mapping_json =
    if text_eq mapping_json [] || text_eq mapping_json (codes "{}")
    then some (relay e)
    else some (relay (remap_relay n mapping_json e))
remap_status_code n err mapping_json = err
