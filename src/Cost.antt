-- ===== src/Cost.antt =====
-- The price of a request and the provider's share: `TokenDetails` and `Usage` of
-- server/internal/relay/common/usage.go, `computeCost` and `healthScore` of
-- server/internal/relay/handler/handler.go, `calcRevenue` of server/internal/relay/handler/queue.go.
pub mod Bounds
pub mod Share
use token_flux.Base.{
  ℕ, ℤ, pos, ◌+ℤ◌, ◌-ℤ◌, ◌*ℤ◌, quot_ℤ, int64, ltb_ℤ, leb_ℤ, eq_ℤ, Bool, Option, none, some, ◌&&◌,
  if◌then◌else◌,
}
use token_flux.Candidate.{ChannelCandidate}

pub record TokenDetails : Type 0 where
  pub cached_tokens : ℤ
  pub cached_creation_tokens : ℤ
  pub cached_creation_5m_tokens : ℤ
  pub cached_creation_1h_tokens : ℤ
  pub audio_tokens : ℤ
  pub text_tokens : ℤ
  pub image_tokens : ℤ
  pub reasoning_tokens : ℤ
  pub accepted_prediction_tokens : ℤ
  pub rejected_prediction_tokens : ℤ

pub record Usage : Type 0 where
  pub prompt_tokens : ℤ
  pub completion_tokens : ℤ
  pub total_tokens : ℤ
  pub cache_creation_tokens : ℤ
  pub prompt_tokens_details : Option TokenDetails
  pub completion_token_details : Option TokenDetails
  pub cache_included_in_prompt : Bool

-- The cached tokens that the upstream reported, when they are positive.
unfoldable pub reported_hits : Option TokenDetails → ℤ
reported_hits none = pos 0
reported_hits (some d) = if ltb_ℤ (pos 0) d.cached_tokens then d.cached_tokens else pos 0

-- Prompt tokens split into cache hits and misses; hits that exceed the prompt are ignored.
unfoldable pub split_tokens : Usage → ℤ × ℤ
split_tokens u =
    let hits = reported_hits u.prompt_tokens_details in
    let misses = int64 (u.prompt_tokens -ℤ hits) in
    if ltb_ℤ misses (pos 0) then (pos 0, u.prompt_tokens) else (hits, misses)

-- `price * tokens / 1000`, added only when both are positive.
unfoldable pub priced : ℤ → ℤ → ℤ
priced price tokens =
    if ltb_ℤ (pos 0) price && ltb_ℤ (pos 0) tokens
    then quot_ℤ (int64 (price *ℤ tokens)) 1000
    else pos 0

-- All three prices are zero: the service is free.
abbrev pub is_free : ChannelCandidate → Bool
is_free c =
    eq_ℤ c.cache_hit_price_per_1k (pos 0)
    && (eq_ℤ c.cache_miss_price_per_1k (pos 0) && eq_ℤ c.output_price_per_1k (pos 0))

unfoldable pub cost_of : Usage → ChannelCandidate → ℤ
cost_of u c =
    let (hits, misses) = split_tokens u in
    let first_two =
      int64 (priced c.cache_hit_price_per_1k hits +ℤ priced c.cache_miss_price_per_1k misses) in
    if is_free c
    then pos 0
    else int64 (first_two +ℤ priced c.output_price_per_1k u.completion_tokens)

-- `computeCost`: a usage or a candidate that is absent costs nothing.
unfoldable pub compute_cost : Option Usage → Option ChannelCandidate → ℤ
compute_cost none picked = pos 0
compute_cost (some u) none = pos 0
compute_cost (some u) (some c) = cost_of u c

-- `calcRevenue`: the provider's share in basis points, 80% when none is set.
unfoldable pub calc_revenue : ℤ → ℤ → ℤ
calc_revenue cost share_bps =
    if leb_ℤ share_bps (pos 0)
    then quot_ℤ (int64 (cost *ℤ pos 8000)) 10000
    else quot_ℤ (int64 (cost *ℤ share_bps)) 10000

-- `healthScore`, of a binding's consecutive failures.
unfoldable pub health_score_of : ℤ → ℕ
health_score_of fails =
    if eq_ℤ fails (pos 0)
    then 100
    else if eq_ℤ fails (pos 1)
    then 80
    else if eq_ℤ fails (pos 2)
    then 60
    else if eq_ℤ fails (pos 3)
    then 40
    else if eq_ℤ fails (pos 4)
    then 20
    else 10
