-- ===== src/Store/Rows.antt =====
-- The rows of the tables of server/migrations that the modelled code reads and writes. Identifiers
-- are only compared, so they are naturals; amounts are Go's int64, read as integers.
use token_flux.Base.{ℕ, ℤ, Bool, String, Option, List}

-- Why an operation failed. The texts that the code builds are one constructor each; `db` is an error
-- that the database driver returned.
pub data Error : Type 0 where
  db empty_entries imbalance conflict insufficient not_positive : Error
  record_not_found transaction_not_found no_transaction : Error
  order_not_found account_not_found unsupported_channel channel_not_found : Error
  bad_request model_not_found no_key no_base_url upstream_failed : Error
  already_exists malformed_key key_expired : Error
  code_not_found wrong_code wrong_password not_activated crypto_failed not_pending no_user : Error

pub record Account : Type 0 where
  pub id : ℕ
  pub owner_type : String
  pub owner_id : ℕ
  pub asset : String
  pub balance_micro : ℤ
  pub version : ℕ

pub record Transaction : Type 0 where
  pub id : ℕ
  pub tx_type : String
  pub ref_type : String
  pub ref_id : ℕ

pub record TransactionEntry : Type 0 where
  pub id : ℕ
  pub tx_id : ℕ
  pub account_id : ℕ
  pub delta_micro : ℤ
  pub balance_after_micro : ℤ

pub record SettlementRecord : Type 0 where
  pub id : ℕ
  pub product_type : String
  pub ref_type : String
  pub ref_id : ℕ
  pub consumer_user_id : ℕ
  pub provider_user_id : ℕ
  pub cost_credits : ℤ
  pub provider_revenue_credits : ℤ
  pub commission_credits : ℤ
  pub points_to_consumer : ℤ
  pub points_to_provider : ℤ
  pub transaction_id : ℕ
  pub status : String
  pub error_message : Option Error
  pub settle_at : Option ℕ
  pub settled_at : Option ℕ

-- `status` is 1 for an enabled key; `deleted` is `deleted_at IS NOT NULL`.
pub record ApiKey : Type 0 where
  pub id : ℕ
  pub user_id : ℕ
  pub status : ℕ
  pub disabled_reason : String
  pub deleted : Bool

pub record PaymentOrder : Type 0 where
  pub id : ℕ
  pub order_no : String
  pub user_id : ℕ
  pub amount_credits : ℤ
  pub trade_no : String
  pub notify_raw : String
  pub status : String
  pub paid_at : Option ℕ
  pub credited_at : Option ℕ

-- A row of llm_model_keys or llm_model_key_models, as far as its quota goes.
pub record Quota : Type 0 where
  pub id : ℕ
  pub quota_used_credits : ℤ
  pub quota_limit_credits : ℤ

pub record UsageRecord : Type 0 where
  pub id : ℕ
  pub consumer_user_id : ℕ
  pub virtual_key_id : ℕ
  pub model_spec_id : ℕ
  pub model_key_id : ℕ
  pub key_model_id : ℕ
  pub provider_user_id : ℕ
  pub channel_id : ℕ
  pub request_id : String
  pub capability : String
  pub is_stream : Bool
  pub input_tokens : ℤ
  pub cache_hit_tokens : ℤ
  pub cache_miss_tokens : ℤ
  pub output_tokens : ℤ
  pub total_tokens : ℤ
  pub cost_credits : ℤ
  pub provider_revenue_credits : ℤ
  pub commission_credits : ℤ
  pub status : String

-- The texts of a request and its answer are opaque.
pub record ChatLog : Type 0 where
  pub id : ℕ
  pub user_id : ℕ
  pub api_key_id : ℕ
  pub model_spec_id : ℕ
  pub request_id : String
  pub capability : String
  pub is_stream : Bool
  pub request_body : String
  pub response_body : String
  pub prompt_tokens : ℤ
  pub completion_tokens : ℤ
  pub total_tokens : ℤ
  pub cost_credits : ℤ

pub record Tables : Type 0 where
  pub accounts : List Account
  pub transactions : List Transaction
  pub entries : List TransactionEntry
  pub records : List SettlementRecord
  pub api_keys : List ApiKey
  pub orders : List PaymentOrder
  pub model_keys : List Quota
  pub key_models : List Quota
  pub usage_records : List UsageRecord
  pub chat_logs : List ChatLog
