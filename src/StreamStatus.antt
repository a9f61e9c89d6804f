-- ===== src/StreamStatus.antt =====
-- server/internal/relay/common/stream_status.go: how a stream ended and what went wrong on the way. The
-- mutex and the `sync.Once` serialise the calls, so each is a function on the status. An error is its text.
pub mod Record
use token_flux.Base.{
  ℕ, suc, ltb, Bool, true, false, String, Option, none, some, List, [], ◌∷◌, ◌++◌, ◌&&◌, ◌||◌,
  str_eq, length, if◌then◌else◌,
}

abbrev pub max_stream_errors : ℕ
max_stream_errors = 20

-- `ended` says whether `endOnce` has run.
pub record StreamStatus : Type 0 where
  pub ended : Bool
  pub reason : String
  pub err : Option String
  pub errors : List String
  pub err_count : ℕ

-- `NewStreamStatus`
abbrev pub new_stream_status : StreamStatus
new_stream_status = record { ended = false; reason = ""; err = none; errors = []; err_count = 0 }

-- `SetEndReason`
unfoldable pub set_end_reason : String → Option String → StreamStatus → StreamStatus
set_end_reason reason err s =
    if s.ended then s else record s { ended = true; reason = reason; err = err }

-- `RecordError`
unfoldable pub record_error : String → StreamStatus → StreamStatus
record_error msg s = record s {
  err_count = suc s.err_count;
  errors = if ltb (length s.errors) max_stream_errors then s.errors ++ msg ∷ [] else s.errors;
}

unfoldable pub is_partial_stream_end : StreamStatus → Bool
is_partial_stream_end s =
    str_eq s.reason "client_gone"
    || (str_eq s.reason "scanner_err" || (str_eq s.reason "timeout" || str_eq s.reason "ping_fail"))

unfoldable pub is_normal_end : StreamStatus → Bool
is_normal_end s = str_eq s.reason "done" || (str_eq s.reason "handler_stop" || str_eq s.reason "")

unfoldable pub has_errors : StreamStatus → Bool
has_errors s = str_eq s.reason "error" || (str_eq s.reason "panic" || ltb 0 s.err_count)
