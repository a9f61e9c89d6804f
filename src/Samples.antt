-- ===== src/Samples.antt =====
-- Concrete worlds, states and rows for the tests.
use token_flux.Base.{
  ℕ, ℤ, pos, negsuc, residue, refl, arith, Bool, true, false, String, Option, none, some, List, [],
  ◌∷◌,
}
use token_flux.Bytes.{codes}
use token_flux.Store.{
  World, State, Account, TransactionEntry, SettlementRecord, ApiKey, PaymentOrder, Quota,
}
use token_flux.Ledger.Totals.{entry_sum}
use token_flux.Ledger.Post.{EntryDelta}
use token_flux.Ledger.Audit.{IsValid}
use token_flux.Billing.{AccountIn}
use token_flux.Cost.{Usage}
use token_flux.Queue.{SettlementTask}
use token_flux.Candidate.{ChannelCandidate}
use token_flux.Affinity.{AffinityKey}

-- A world in which no statement fails.
abbrev pub calm_world : World
calm_world = record {
  fails = λ n. false;
  now = λ n. 1000;
  empty_is_error = false;
  config = λ key. none;
}

-- A world in which every statement fails.
abbrev pub dead_world : World
dead_world = record {
  fails = λ n. true;
  now = λ n. 1000;
  empty_is_error = false;
  config = λ key. none;
}

abbrev pub pending_settlement : SettlementRecord
pending_settlement = record {
  id = 5;
  product_type = "llm";
  ref_type = "recharge_order";
  ref_id = 9;
  consumer_user_id = 7;
  provider_user_id = 8;
  cost_credits = pos 40;
  provider_revenue_credits = pos 32;
  commission_credits = pos 8;
  points_to_consumer = pos 0;
  points_to_provider = pos 0;
  transaction_id = 0;
  status = "pending";
  error_message = none;
  settle_at = some 500;
  settled_at = none;
}

abbrev pub settled_settlement : SettlementRecord
settled_settlement = record pending_settlement {
  id = 6;
  status = "settled";
  transaction_id = 3;
  ref_id = 10;
}

abbrev pub live_key : ApiKey
live_key = record { id = 1; user_id = 7; status = 1; disabled_reason = ""; deleted = false }

abbrev pub paid_order : PaymentOrder
paid_order = record {
  id = 2;
  order_no = "A1";
  user_id = 7;
  amount_credits = pos 500;
  trade_no = "T1";
  notify_raw = "{}";
  status = "paid";
  paid_at = some 900;
  credited_at = none;
}

abbrev pub limited_quota : Quota
limited_quota = record { id = 3; quota_used_credits = pos 10; quota_limit_credits = pos 50 }

abbrev pub start : State
start = record {
  tables = record {
    accounts = [];
    transactions = [];
    entries = [];
    records = pending_settlement ∷ settled_settlement ∷ [];
    api_keys = live_key ∷ [];
    orders = paid_order ∷ [];
    model_keys = limited_quota ∷ [];
    key_models = limited_quota ∷ [];
    usage_records = [];
    chat_logs = [];
  };
  next_id = 20;
  calls = 0;
}

pub start-IsValid : IsValid start
start-IsValid = record { fresh = tt; known = tt; audited = tt }

-- A user with a balance of 100, from one entry.
abbrev pub funded_account : Account
funded_account = record {
  id = 10;
  owner_type = "user";
  owner_id = 7;
  asset = "credits";
  balance_micro = pos 100;
  version = 1;
}

abbrev pub funding_entry : TransactionEntry
funding_entry = record {
  id = 11;
  tx_id = 9;
  account_id = 10;
  delta_micro = pos 100;
  balance_after_micro = pos 100;
}

abbrev pub funded : State
funded = record start {
  tables = record start.tables { accounts = funded_account ∷ []; entries = funding_entry ∷ [] };
}

pub funded-IsValid : IsValid funded
unfolding residue entry_sum token_flux.Base.◌+ℤ◌
funded-IsValid = record {
  fresh = (omega arith, tt);
  known = (omega arith, tt);
  audited = (refl, tt);
}

-- The user pays 30 credits to another one.
abbrev pub transfer : List EntryDelta
transfer =
    record { owner_type = "user"; owner_id = 7; asset = "credits"; delta = negsuc 29 }
    ∷ record { owner_type = "user"; owner_id = 8; asset = "credits"; delta = pos 30 }
    ∷ []

abbrev pub small_debit : AccountIn
small_debit = record {
  owner_type = "user";
  owner_id = 7;
  asset = "credits";
  amount_micro = pos 30;
  ref_type = "test";
  ref_id = 2;
}

abbrev pub small_credit : AccountIn
small_credit = record {
  owner_type = "user";
  owner_id = 7;
  asset = "credits";
  amount_micro = pos 100;
  ref_type = "test";
  ref_id = 1;
}

abbrev pub first_channel : ChannelCandidate
first_channel = record {
  channel_id = 1;
  channel_name = "one";
  base_url = codes "";
  priority = pos 1;
  weight = pos 3;
  health_score = 100;
  model_key_id = 3;
  key_model_id = 3;
  upstream_model_name = "";
  is_model_mapped = false;
  api_key = "";
  provider_user_id = 8;
  model_spec_id = 1;
  protocol_key = codes "openai";
  protocols_json = "[]";
  provider_share_bps = pos 7000;
  cache_hit_price_per_1k = pos 100;
  cache_miss_price_per_1k = pos 1000;
  output_price_per_1k = pos 2000;
}

abbrev pub second_channel : ChannelCandidate
second_channel = record first_channel { channel_id = 2; priority = pos 2; weight = pos 5 }

abbrev pub sample_usage : Usage
sample_usage = record {
  prompt_tokens = pos 1500;
  completion_tokens = pos 200;
  total_tokens = pos 1700;
  cache_creation_tokens = pos 0;
  prompt_tokens_details = some (record {
    cached_tokens = pos 500;
    cached_creation_tokens = pos 0;
    cached_creation_5m_tokens = pos 0;
    cached_creation_1h_tokens = pos 0;
    audio_tokens = pos 0;
    text_tokens = pos 0;
    image_tokens = pos 0;
    reasoning_tokens = pos 0;
    accepted_prediction_tokens = pos 0;
    rejected_prediction_tokens = pos 0;
  });
  completion_token_details = none;
  cache_included_in_prompt = false;
}

abbrev pub some_key : AffinityKey
some_key = record { user_id = 7; model_name = "m" }

abbrev pub other_key : AffinityKey
other_key = record { user_id = 8; model_name = "m" }

abbrev pub sample_task : SettlementTask
sample_task = record {
  user_id = 7;
  api_key_id = 1;
  model_key_id = 3;
  key_model_id = 3;
  provider_user_id = 8;
  channel_id = 1;
  model_spec_id = 1;
  request_id = "r";
  capability = "chat";
  is_stream = false;
  usage = some sample_usage;
  cost = pos 40;
  provider_share_bps = pos 7000;
  retry_count = 1;
  request_body = "";
  response_body = "";
  response_text = "";
  model_name = "";
  output_price_per_1k = pos 0;
  cache_hit_price_per_1k = pos 0;
  cache_miss_price_per_1k = pos 0;
}
