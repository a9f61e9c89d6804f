-- ===== src/Queue.antt =====
-- server/internal/relay/handler/queue.go: the task of one relayed request, its settlement by a worker,
-- and the payout of the providers. The queue's backend (Redis) and the tokenizer are services: a worker's
-- step returns the task that it hands to `EnqueueSettlement`, if any, and the tokenizer is an argument.
-- The texts of a request and its answer are opaque. The timeout of a task is a statement that fails.
pub mod Worker
pub mod Payout
pub mod Retry
pub mod Passes
pub mod Drain
use token_flux.Base.{
  ℕ, suc, ◌+◌, ℤ, pos, ◌-ℤ◌, ◌*ℤ◌, quot_ℤ, int64, ltb, ltb_ℤ, leb_ℤ, eq_ℤ, Bool, true, false, not,
  String, Option, none, some, List, [], ◌∷◌, ◌&&◌, ◌||◌, str_eq, keep, if◌then◌else◌,
}
use token_flux.Store.{
  World, State, Tables, SettlementRecord, UsageRecord, ChatLog, Result, ok, err, Action, ◌>>=◌,
  ◌>>◌, pure, attempt, query, update, insert, clock, in_tx,
}
use token_flux.Ledger.Post.{asset_credits, owner_type_user, no_clash}
use token_flux.Billing.{AccountIn, TransactionInfo, credit_account, debit_account}
use token_flux.Settlement.{has_ref, add_record, set_record}
use token_flux.Recharge.{disable_overdraft_keys}
use token_flux.Candidate.{ChannelCandidate}
use token_flux.Cost.{Usage, TokenDetails, compute_cost, calc_revenue}
use token_flux.Quota.{update_quota_sync}

pub record SettlementTask : Type 0 where
  pub user_id : ℕ
  pub api_key_id : ℕ
  pub model_key_id : ℕ
  pub key_model_id : ℕ
  pub provider_user_id : ℕ
  pub channel_id : ℕ
  pub model_spec_id : ℕ
  pub request_id : String
  pub capability : String
  pub is_stream : Bool
  pub usage : Option Usage
  pub cost : ℤ
  pub provider_share_bps : ℤ
  pub retry_count : ℕ
  pub request_body : String
  pub response_body : String
  pub response_text : String
  pub model_name : String
  pub output_price_per_1k : ℤ
  pub cache_hit_price_per_1k : ℤ
  pub cache_miss_price_per_1k : ℤ

-- Seconds in the seven days before a provider is paid.
abbrev pub settlement_cycle : ℕ
settlement_cycle = 604800

abbrev pub max_settlement_retries : ℕ
max_settlement_retries = 3

-- The request that a task is made from, as far as `enqueueSettlement` reads it.
pub record RelayRequest : Type 0 where
  pub user_id : ℕ
  pub api_key_id : ℕ
  pub request_id : String
  pub capability : String
  pub is_stream : Bool

abbrev pub total_of : Option Usage → ℤ
total_of none = pos 0
total_of (some u) = u.total_tokens

abbrev pub is_blank : String → Bool
is_blank s = str_eq s ""

abbrev pub task_of :
    RelayRequest → ChannelCandidate → Option Usage → String → String → SettlementTask
task_of req picked usage raw_body resp_body = record {
  user_id = req.user_id;
  api_key_id = req.api_key_id;
  model_key_id = picked.model_key_id;
  key_model_id = picked.key_model_id;
  provider_user_id = picked.provider_user_id;
  channel_id = picked.channel_id;
  model_spec_id = picked.model_spec_id;
  request_id = req.request_id;
  capability = req.capability;
  is_stream = req.is_stream;
  usage = usage;
  cost = pos 0;
  provider_share_bps = picked.provider_share_bps;
  retry_count = 0;
  request_body = raw_body;
  response_body = resp_body;
  response_text = "";
  model_name = "";
  output_price_per_1k = pos 0;
  cache_hit_price_per_1k = pos 0;
  cache_miss_price_per_1k = pos 0;
}

-- `enqueueSettlement`: the task that is sent, if any, and the cost returned. `model` is the text that
-- `encoding/json` finds in the request's body, empty when there is none.
unfoldable pub enqueue_settlement :
    (String → String)
    → RelayRequest
    → ChannelCandidate
    → Option Usage
    → String
    → String
    → String
    → Option SettlementTask × ℤ
enqueue_settlement model req picked usage raw_body resp_body response_text =
    let task = task_of req picked usage raw_body resp_body in
    let cost = compute_cost usage (some picked) in
    if ltb_ℤ (pos 0) (total_of usage)
    then (some (record task { cost = cost }), cost)
    else if is_blank response_text
    then (none, pos 0)
    else (
      some (record task {
        response_text = response_text;
        output_price_per_1k = picked.output_price_per_1k;
        cache_hit_price_per_1k = picked.cache_hit_price_per_1k;
        cache_miss_price_per_1k = picked.cache_miss_price_per_1k;
        model_name = model raw_body;
      }),
      pos 0,
    )

-- A failed task is sent again, up to the limit.
unfoldable pub retry_task : SettlementTask → Option SettlementTask
retry_task task =
    if ltb task.retry_count max_settlement_retries
    then some (record task { retry_count = suc task.retry_count })
    else none

abbrev pub counted_usage : ℤ → Usage
counted_usage tokens = record {
  prompt_tokens = pos 0;
  completion_tokens = tokens;
  total_tokens = tokens;
  cache_creation_tokens = pos 0;
  prompt_tokens_details = none;
  completion_token_details = none;
  cache_included_in_prompt = false;
}

-- The global tokenizer: absent, or a function of the model and the text that may fail.
abbrev pub Tokenizer : Type 0
Tokenizer = Option (String → String → Option ℤ)

abbrev pub count_tokens : Tokenizer → String → String → Option ℤ
count_tokens none model text = none
count_tokens (some f) model text = f model text

abbrev pub counted : SettlementTask → Option ℤ → Option SettlementTask
counted task none = none
counted task (some tokens) = some (record task {
  usage = some (counted_usage tokens);
  cost = quot_ℤ (int64 (task.output_price_per_1k *ℤ tokens)) 1000;
})

-- The task with its tokens counted, when the upstream did not report them.
unfoldable pub lazy_tokenize : Tokenizer → SettlementTask → Option SettlementTask
lazy_tokenize tokenizer task =
    if eq_ℤ (total_of task.usage) (pos 0) && not (is_blank task.response_text)
    then counted task (count_tokens tokenizer task.model_name task.response_text)
    else some task
