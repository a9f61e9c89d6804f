-- ===== src/Proxy/Run.antt =====
-- `proxyOpenAI` of server/internal/logic/llm/runtime.go: the credit check, the call of the upstream, the usage
-- record, the settlement, the quotas and the overdraft guard. The tables of models, keys and prices are
-- only read here, and what their rows are is a parameter, as the upstream and the JSON library are.
use token_flux.Base.{
  ℕ, ℤ, pos, ltb_ℤ, leb_ℤ, Bool, false, String, Option, none, some, ◌∷◌, if◌then◌else◌,
}
use token_flux.Bytes.{Text}
use token_flux.Json.{Codec}
use token_flux.Store.{
  World, UsageRecord, Account, db, bad_request, model_not_found, no_key, no_base_url,
  upstream_failed, Result, ok, err, Action, ◌>>=◌, ◌>>◌, pure, raise, or_raise, attempt, query,
  update, insert,
}
use token_flux.Ledger.Accounts.{find_account}
use token_flux.Ledger.Post.{asset_credits, owner_type_user, no_clash}
use token_flux.Settlement.{SettlementSubmitIn, submit_and_settle}
use token_flux.Billing.{TransactionInfo}
use token_flux.Quota.{check_balance}
use token_flux.Proxy.Request.{
  disable_live_keys, ProxyRequest, Prices, UpstreamReply, call_failed, replied, Outside, Prepared,
  and_then_option, shares_of, no_price, no_usage, bump, mark_usage, answer_of,
}
use token_flux.Proxy.{
  extract_requested_model, replace_request_model, NormalizedUsage, normalize_openai_usage,
  extract_base_url, KeyRow, load_candidates, pick_one,
}

module _ (w : World) (C : Codec) (o : Outside C) (i : ProxyRequest C)
    (path capability : String) where
  abbrev pub usage_row : Prepared C → NormalizedUsage → ℤ × ℤ × ℤ → String → ℕ → UsageRecord
  usage_row p u (cost, revenue, commission) status id = record {
    id = id;
    consumer_user_id = i.user_id;
    virtual_key_id = i.api_key_id;
    model_spec_id = p.model_spec_id;
    model_key_id = (p.row).model_key_id;
    key_model_id = (p.row).key_model_id;
    provider_user_id = (p.row).provider_user_id;
    channel_id = (p.row).channel_id;
    request_id = i.request_id;
    capability = capability;
    is_stream = i.is_stream;
    input_tokens = u.input_tokens;
    cache_hit_tokens = u.cache_hit_tokens;
    cache_miss_tokens = u.cache_miss_tokens;
    output_tokens = u.output_tokens;
    total_tokens = u.total_tokens;
    cost_credits = cost;
    provider_revenue_credits = revenue;
    commission_credits = commission;
    status = status;
  }

  -- INSERT INTO llm_usage_records
  unfoldable pub insert_usage : Prepared C → NormalizedUsage → ℤ × ℤ × ℤ → String → Action ℕ
  insert_usage p u shares status =
      insert w no_clash
        (λ id t. record t { usage_records = usage_row p u shares status id ∷ t.usage_records })

  -- `pickRandomKeyModel`: the model and the row that was picked.
  unfoldable pub pick_random_key_model : Text → Action (ℕ × KeyRow)
  pick_random_key_model model_code = do
    found ← query w (λ t. o.spec_of model_code)
    spec ← or_raise found model_not_found
    rows ← query w (λ t. load_candidates (o.rows_of spec))
    row ← or_raise (pick_one o.rand rows) no_key
    pure (spec, row)

  -- Steps 4 to 6.
  unfoldable pub address : ℕ × KeyRow → Action (Prepared C)
  address (spec, row) = do
    api_key ← or_raise (o.decrypt row.key_encrypted) no_key
    base_url ←
        or_raise (and_then_option (o.unmarshal row.protocols_json) extract_base_url) no_base_url
    fields ← or_raise (C.decode i.raw_body) bad_request
    pure (record {
      model_spec_id = spec;
      row = row;
      api_key = api_key;
      base_url = base_url;
      new_body = C.encode (replace_request_model fields row.upstream_model_name);
    })

  abbrev pub requested_model : Option Text
  requested_model = and_then_option (C.decode i.raw_body) extract_requested_model

  -- Steps 1 to 6.
  unfoldable pub prepare : Action (Prepared C)
  prepare = do
    check_balance w i.user_id
    model_code ← or_raise requested_model bad_request
    picked ← pick_random_key_model model_code
    address picked

  -- Step 8: the failed record is best effort.
  unfoldable pub log_failure : Prepared C → UpstreamReply C → Action (UpstreamReply C)
  log_failure p reply =
      attempt (insert_usage p no_usage (pos 0, pos 0, pos 0) "failed")
      >> or_raise (answer_of reply) upstream_failed

  abbrev pub submission : Prepared C → ℤ × ℤ × ℤ → ℕ → SettlementSubmitIn
  submission p (cost, revenue, commission) usage_id = record {
    product_type = "llm";
    ref_type = "llm_usage_record";
    ref_id = usage_id;
    consumer_user_id = i.user_id;
    provider_user_id = (p.row).provider_user_id;
    cost_credits = cost;
    provider_revenue_credits = revenue;
    commission_credits = commission;
    points_to_consumer = pos 0;
    points_to_provider = pos 0;
  }

  -- Step 12, tried whether the settlement went through or not.
  unfoldable pub bump_quotas : Prepared C → ℤ → Action (Unit {0})
  bump_quotas p cost =
      if ltb_ℤ (pos 0) cost
      then attempt (
          update w (λ t. tt)
            (λ t. record t { model_keys = bump (p.row).model_key_id cost t.model_keys }))
        >> attempt (
            update w (λ t. tt)
              (λ t. record t { key_models = bump (p.row).key_model_id cost t.key_models }))
        >> pure tt
      else pure tt

  -- Step 11 when the settlement failed, and step 13 when it did not.
  abbrev pub mark_pending : ℕ → Action (Unit {0})
  mark_pending usage_id =
      attempt
        (update w (λ t. tt) (λ t. record t { usage_records = mark_usage usage_id t.usage_records }))
      >> pure tt

  abbrev pub overdrawn : Result (Option Account) → Bool
  overdrawn (ok (some a)) = ltb_ℤ a.balance_micro (pos 0)
  overdrawn r = false

  -- An error is only logged.
  abbrev pub disable_keys_of_user : Action (Unit {0})
  disable_keys_of_user =
      attempt
        (update w (λ t. tt) (λ t. record t { api_keys = disable_live_keys i.user_id t.api_keys }))
      >> pure tt

  unfoldable pub guard_overdraft : Action (Unit {0})
  guard_overdraft = do
    r ← attempt (query w (λ t. find_account owner_type_user i.user_id asset_credits t.accounts))
    if overdrawn r then disable_keys_of_user else pure tt

  unfoldable pub after_settlement : Prepared C → ℤ → ℕ → Result TransactionInfo → Action (Unit {0})
  after_settlement p cost usage_id (ok info) = bump_quotas p cost >> guard_overdraft
  after_settlement p cost usage_id (err e) = mark_pending usage_id >> bump_quotas p cost

  -- The scan of no row leaves zeros, or is an error.
  abbrev pub price_or_zero : Option Prices → Action Prices
  price_or_zero none = if w.empty_is_error then raise db else pure no_price
  price_or_zero (some p) = pure p

  -- Steps 9 to 13.
  unfoldable pub settle_usage : Prepared C → C.Body → Action (Unit {0})
  settle_usage p body = do
    found ← query w (λ t. o.price_of p.model_spec_id capability)
    price ← price_or_zero found
    let u = normalize_openai_usage (o.usage_in body)
    let shares = shares_of price (p.row).provider_share_bps u
    usage_id ← insert_usage p u shares "success"
    r ← attempt (submit_and_settle w (submission p shares usage_id))
    after_settlement p shares.0 usage_id r

  unfoldable pub on_reply : Prepared C → UpstreamReply C → Action (UpstreamReply C)
  on_reply p call_failed = log_failure p call_failed
  on_reply p (replied status body) =
      if leb_ℤ (pos 400) status
      then log_failure p (replied status body)
      else settle_usage p body >> pure (replied status body)

  -- `proxyOpenAI`
  unfoldable pub proxy_openai : Action (UpstreamReply C)
  proxy_openai = do p ← prepare; on_reply p (o.call p.base_url p.api_key path p.new_body)
