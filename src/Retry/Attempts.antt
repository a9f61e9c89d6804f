-- ===== src/Retry/Attempts.antt =====
-- How often the upstream is asked, and how the loop ends.
use token_flux.Base.{
  ℕ, zero, suc, ◌+◌, ◌≤◌, ◌<◌, ◌≡◌, true, Option, none, some, arith, Bool-cases, inl, inr,
  if◌then◌else◌, ℤ, pos, ◌≤ℤ◌,
}
use token_flux.Affinity.{AffinityKey, Entries, delete, set}
use token_flux.Retry.{
  Failure, should_retry, Reply, answered, failed, Ending, response, upstream_failed, last_error,
  attempt_loop, relay, get_max_retries,
}

-- The loop never runs out of rounds: it ends with an answer, or with an error that is reported.
abbrev pub IsSettled : Ending → Type 0
IsSettled (response body) = Unit {0}
IsSettled (upstream_failed e) = Unit {0}
IsSettled (last_error e) = ⊥

-- The loop ended so, and sent no more requests than allowed.
abbrev pub IsBounded : ℕ → Ending × Entries × ℕ → Type 0
IsBounded max_retries r = IsSettled r.0 × (r.2 ≤ suc max_retries)

retry_room :
    (e : Failure) (attempt max_retries : ℕ)
    → should_retry (some e) attempt max_retries ≡ true
    → attempt < max_retries
unfolding should_retry
retry_room e attempt max_retries h = ground arith

module _ (send : ℕ → Reply) (max_retries : ℕ) (k : AffinityKey) (channel now : ℕ) where
  loop_bound :
      (rounds attempt : ℕ) (last : Option Failure) (es : Entries)
      → attempt + rounds ≡ suc max_retries
      → 0 < rounds
      → IsBounded max_retries (attempt_loop send max_retries k channel now rounds attempt last es)
  unfolding attempt_loop
  loop_bound zero attempt last es h p = absurd (omega arith)
  loop_bound (suc rounds) attempt last es h p =
      go (send attempt)
        (λ e q. loop_bound rounds (suc attempt) (some e) (delete k es) (omega arith) q)
    where
      go :
          (r : Reply)
          → ((e : Failure)
              → 0 < rounds
              → IsBounded max_retries (
                  attempt_loop send max_retries k channel now rounds
                    (suc attempt)
                    (some e)
                    (delete k es)))
          → IsBounded max_retries (elim r [
            | answered body ↦ (response body, set now k channel es, suc attempt)
            | failed e ↦
                if should_retry (some e) attempt max_retries
                then attempt_loop send max_retries k channel now rounds
                    (suc attempt)
                    (some e)
                    (delete k es)
                else (upstream_failed e, es, suc attempt)
          ])
      go (answered body) ih = (tt, omega arith)
      go (failed e) ih = elim (Bool-cases (should_retry (some e) attempt max_retries)) [
        | inl q ↦ let room = retry_room e attempt max_retries q in rw q (ih e (omega arith))
        | inr q ↦ rw q (tt, omega arith)
      ]

  -- At most one request more than the allowed retries is sent, and the loop always ends with an answer
  -- or with the upstream's error: it never falls out of its last round.
  pub relay-IsBounded :
      (es : Entries) → IsBounded max_retries (relay send max_retries k channel now es)
  unfolding relay
  relay-IsBounded es = loop_bound (suc max_retries) 0 none es (omega arith) (omega arith)

-- The number of retries in force is positive, whatever is configured.
pub get_max_retries-pos : (n : Option ℤ) → pos 1 ≤ℤ get_max_retries n
unfolding get_max_retries
get_max_retries-pos none = omega arith
get_max_retries-pos (some n) = ground arith
