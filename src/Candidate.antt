-- ===== src/Candidate.antt =====
-- `ChannelCandidate` of server/internal/relay/common/candidate.go: the channel and key binding that
-- the scheduler chooses from. The health score is a float64 in the source; the program only ever
-- assigns whole numbers to it (`healthScore` of server/internal/relay/handler/handler.go), so it is a
-- natural number here.
pub mod Build
use token_flux.Base.{ℕ, ℤ, Bool, String}
use token_flux.Bytes.{Text}

pub record ChannelCandidate : Type 0 where
  pub channel_id : ℕ
  pub channel_name : String
  pub base_url : Text
  pub priority : ℤ
  pub weight : ℤ
  pub health_score : ℕ
  pub model_key_id : ℕ
  pub key_model_id : ℕ
  pub upstream_model_name : String
  pub is_model_mapped : Bool
  pub api_key : String
  pub provider_user_id : ℕ
  pub model_spec_id : ℕ
  pub protocol_key : Text
  pub protocols_json : String
  pub provider_share_bps : ℤ
  pub cache_hit_price_per_1k : ℤ
  pub cache_miss_price_per_1k : ℤ
  pub output_price_per_1k : ℤ
