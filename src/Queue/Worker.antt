-- ===== src/Queue/Worker.antt =====
-- `processSettlement` of server/internal/relay/handler/queue.go: what a worker does with one task.
use token_flux.Base.{ℕ, ◌+◌, ℤ, pos, ◌-ℤ◌, int64, ltb_ℤ, Option, none, some, ◌∷◌, if◌then◌else◌}
use token_flux.Store.{
  World, State, Tables, SettlementRecord, UsageRecord, ChatLog, Result, ok, err, Action, ◌>>=◌,
  ◌>>◌, pure, attempt, insert, clock, in_tx,
}
use token_flux.Ledger.Post.{asset_credits, owner_type_user, no_clash}
use token_flux.Billing.{AccountIn, TransactionInfo, debit_account}
use token_flux.Settlement.{has_ref, add_record}
use token_flux.Recharge.{disable_overdraft_keys}
use token_flux.Cost.{Usage, TokenDetails, calc_revenue}
use token_flux.Quota.{update_quota_sync}
use token_flux.Queue.{
  SettlementTask, settlement_cycle, is_blank, total_of, Tokenizer, lazy_tokenize, retry_task,
}

abbrev pub prompt_of : Option Usage → ℤ
prompt_of none = pos 0
prompt_of (some u) = u.prompt_tokens

abbrev pub completion_of : Option Usage → ℤ
completion_of none = pos 0
completion_of (some u) = u.completion_tokens

abbrev cached_of : Option TokenDetails → ℤ
cached_of none = pos 0
cached_of (some d) = d.cached_tokens

-- The cache hits and misses that the usage record gets.
abbrev pub recorded_split : Option Usage → ℤ × ℤ
recorded_split none = (pos 0, pos 0)
recorded_split (some u) =
    let hits = cached_of u.prompt_tokens_details in
    let misses = int64 (u.prompt_tokens -ℤ hits) in
    if ltb_ℤ misses (pos 0) then (pos 0, u.prompt_tokens) else (hits, misses)

abbrev pub revenue_of : SettlementTask → ℤ
revenue_of t = calc_revenue t.cost t.provider_share_bps

abbrev pub commission_of : SettlementTask → ℤ
commission_of t = int64 (t.cost -ℤ revenue_of t)

abbrev pub usage_record : SettlementTask → ℕ → UsageRecord
usage_record t id = record {
  id = id;
  consumer_user_id = t.user_id;
  virtual_key_id = t.api_key_id;
  model_spec_id = t.model_spec_id;
  model_key_id = t.model_key_id;
  key_model_id = t.key_model_id;
  provider_user_id = t.provider_user_id;
  channel_id = t.channel_id;
  request_id = t.request_id;
  capability = t.capability;
  is_stream = t.is_stream;
  input_tokens = prompt_of t.usage;
  cache_hit_tokens = (recorded_split t.usage).0;
  cache_miss_tokens = (recorded_split t.usage).1;
  output_tokens = completion_of t.usage;
  total_tokens = total_of t.usage;
  cost_credits = t.cost;
  provider_revenue_credits = revenue_of t;
  commission_credits = commission_of t;
  status = "success";
}

abbrev pub pending_record : SettlementTask → ℕ → ℕ → ℕ → SettlementRecord
pending_record t usage_id settle_at id = record {
  id = id;
  product_type = "llm";
  ref_type = "llm_usage_record";
  ref_id = usage_id;
  consumer_user_id = t.user_id;
  provider_user_id = t.provider_user_id;
  cost_credits = t.cost;
  provider_revenue_credits = revenue_of t;
  commission_credits = commission_of t;
  points_to_consumer = pos 0;
  points_to_provider = pos 0;
  transaction_id = 0;
  status = "pending";
  error_message = none;
  settle_at = some settle_at;
  settled_at = none;
}

abbrev pub add_usage : SettlementTask → ℕ → Tables → Tables
add_usage t id b = record b { usage_records = usage_record t id ∷ b.usage_records }

abbrev pub chat_log : SettlementTask → ℕ → ChatLog
chat_log t id = record {
  id = id;
  user_id = t.user_id;
  api_key_id = t.api_key_id;
  model_spec_id = t.model_spec_id;
  request_id = t.request_id;
  capability = t.capability;
  is_stream = t.is_stream;
  request_body = t.request_body;
  response_body = if is_blank t.response_body then "{}" else t.response_body;
  prompt_tokens = prompt_of t.usage;
  completion_tokens = completion_of t.usage;
  total_tokens = total_of t.usage;
  cost_credits = t.cost;
}

abbrev pub usage_debit : SettlementTask → ℕ → AccountIn
usage_debit t usage_id = record {
  owner_type = owner_type_user;
  owner_id = t.user_id;
  asset = asset_credits;
  amount_micro = t.cost;
  ref_type = "llm_usage";
  ref_id = usage_id;
}

module _ (w : World) where
  -- The transaction: the usage record and the pending settlement record.
  abbrev pub record_body : SettlementTask → Action ℕ
  record_body t = do
    now ← clock w
    usage_id ← insert w no_clash (add_usage t)
    insert w (has_ref "llm_usage_record" usage_id)
        (add_record (pending_record t usage_id (now + settlement_cycle)))
    pure usage_id

  unfoldable pub record_usage : SettlementTask → Action ℕ
  record_usage t = in_tx w (record_body t)

  -- A debit that failed disables the user's keys.
  abbrev pub after_debit : SettlementTask → Result TransactionInfo → Action (Unit {0})
  after_debit t (ok i) = pure tt
  after_debit t (err e) = disable_overdraft_keys w t.user_id

  abbrev pub sync_quota : SettlementTask → Action (Unit {0})
  sync_quota t =
      if is_blank t.response_text
      then pure tt
      else update_quota_sync w t.model_key_id t.key_model_id t.cost

  unfoldable pub debit_consumer : SettlementTask → ℕ → Action (Unit {0})
  debit_consumer t usage_id =
      if ltb_ℤ (pos 0) t.cost
      then (attempt (debit_account w (usage_debit t usage_id)) >>= λ r.
          after_debit t r >> sync_quota t)
      else pure tt

  -- The chat log is best effort.
  unfoldable pub save_chat_log : SettlementTask → Action (Unit {0})
  save_chat_log t =
      if is_blank t.request_body
      then pure tt
      else attempt
          (insert w no_clash (λ id b. record b { chat_logs = chat_log t id ∷ b.chat_logs }))
        >> pure tt

  -- What follows the transaction: the task that is sent again, if any.
  unfoldable pub after_record :
      SettlementTask → State → Result ℕ → Result (Option SettlementTask) × State
  after_record t s (err e) = (ok (retry_task t), s)
  after_record t s (ok usage_id) = (debit_consumer t usage_id >> save_chat_log t >> pure none) s

  unfoldable pub settle_task : SettlementTask → Action (Option SettlementTask)
  settle_task t = attempt (record_usage t) >>= λ r s. after_record t s r

  abbrev pub prepared : SettlementTask → Option SettlementTask → Action (Option SettlementTask)
  prepared task none = pure (retry_task task)
  prepared task (some t) = settle_task t

  -- `processSettlement`
  unfoldable pub process_settlement : Tokenizer → SettlementTask → Action (Option SettlementTask)
  process_settlement tokenizer task = prepared task (lazy_tokenize tokenizer task)
