-- ===== src/Retry.antt =====
-- server/internal/relay/scheduler/retry.go and the rounds of the retry loop of `Handle` in
-- server/internal/relay/handler/handler.go, for a request that does not stream. The tests that
-- `IsRetryable` makes of an error (its Go type, and the texts it contains in lower case) are the fields
-- of `Failure`. A request to the upstream is a function of the attempt. Of a round the model keeps the
-- decision to go on and the calls on the affinity store; reading an answer, and the settlement and the
-- quotas of an answer, are not part of it.
pub mod Attempts
use token_flux.Base.{
  ℕ, zero, suc, ◌+◌, ◌<◌, ℤ, pos, pos_part, leb_ℤ, ltb, leb, Bool, true, false, not, Option, none,
  some, List, [], ◌∷◌, ◌&&◌, ◌||◌, if◌then◌else◌,
}
use token_flux.Affinity.{AffinityKey, Entries, delete, set}

pub record Failure : Type 0 where
  pub is_net_error : Bool
  pub is_url_error : Bool
  pub no_such_host : Bool
  pub connection_refused : Bool
  pub connection_reset : Bool
  pub broken_pipe : Bool
  pub timeout : Bool
  pub tls_handshake : Bool

abbrev pub default_max_retries : ℤ
default_max_retries = pos 3

-- `GetMaxRetries`, of the number read from system_configs, if it could be read.
unfoldable pub get_max_retries : Option ℤ → ℤ
get_max_retries none = default_max_retries
get_max_retries (some n) = if leb_ℤ n (pos 0) then default_max_retries else n

-- `IsRetryable`; no error is not retried.
unfoldable pub is_retryable : Option Failure → Bool
is_retryable none = false
is_retryable (some e) =
    if e.is_net_error
    then true
    else if e.no_such_host
        || (e.connection_refused
            || (e.connection_reset || (e.broken_pipe || (e.timeout || e.tls_handshake))))
    then true
    else e.is_url_error

-- `ShouldRetry`
unfoldable pub should_retry : Option Failure → ℕ → ℕ → Bool
should_retry e retry_count max_retries =
    if leb max_retries retry_count then false else is_retryable e

-- What an attempt returns, and how the loop ends: an answer, an upstream error that is not retried, or
-- the last error after the loop, which is nil when no attempt failed.
pub data Reply : Type 0 where
  answered : ℕ → Reply
  failed : Failure → Reply

pub data Ending : Type 0 where
  response : ℕ → Ending
  upstream_failed : Failure → Ending
  last_error : Option Failure → Ending

-- The loop from `attempt` on with `rounds` rounds left: a retried failure deletes the affinity, an
-- answer sets it. The result counts the requests sent.
unfoldable pub attempt_loop :
    (ℕ → Reply) → ℕ → AffinityKey → ℕ → ℕ → ℕ → ℕ → Option Failure → Entries → Ending × Entries × ℕ
attempt_loop send max_retries k channel now zero attempt last es = (last_error last, es, attempt)
attempt_loop send max_retries k channel now (suc rounds) attempt last es = elim (send attempt) [
  | answered body ↦ (response body, set now k channel es, suc attempt)
  | failed e ↦
      let again =
        attempt_loop send max_retries k channel now rounds (suc attempt) (some e) (delete k es) in
      if should_retry (some e) attempt max_retries
      then again
      else (upstream_failed e, es, suc attempt)
]

-- `for attempt := 0; attempt <= maxRetries; attempt++`
unfoldable pub relay : (ℕ → Reply) → ℕ → AffinityKey → ℕ → ℕ → Entries → Ending × Entries × ℕ
relay send max_retries k channel now es =
    attempt_loop send max_retries k channel now (suc max_retries) 0 none es
