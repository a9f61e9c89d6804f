-- ===== src/Recharge.antt =====
-- `CreateRecharge` and `RestoreOverdraftKeys` of server/internal/logic/settlement/settlement.go,
-- `disableOverdraftKeys` of server/internal/relay/handler/queue.go, and `RechargeCredits` of
-- server/internal/logic/billing/billing.go.
pub mod Keys
pub mod Once
pub mod Credit
use token_flux.Base.{
  ℕ, ℤ, pos, leb_ℤ, ltb_ℤ, Bool, true, false, not, String, Option, none, some, List, [], ◌∷◌, ◌&&◌,
  ◌==◌, str_eq, if◌then◌else◌,
}
use token_flux.Store.{
  World, State, Tables, Account, SettlementRecord, ApiKey, Error, db, Result, ok, err, Action,
  ◌>>=◌, ◌>>◌, pure, raise, raise_if, attempt, query, update, insert, clock, in_tx, no_transaction,
  not_positive,
}
use token_flux.Ledger.Accounts.{find_account}
use token_flux.Ledger.Post.{
  post_ledger, asset_credits, owner_type_user, tx_type_recharge, EntryDelta,
}
use token_flux.Billing.{TransactionInfo}
use token_flux.Settlement.{
  RechargeSettlementIn, get_record_by_ref, get_transaction, has_ref, add_record, set_record,
  user_delta, posted_info,
}

abbrev pub recharge_record : RechargeSettlementIn → ℕ → ℕ → SettlementRecord
recharge_record i now id = record {
  id = id;
  product_type = "recharge";
  ref_type = i.ref_type;
  ref_id = i.ref_id;
  consumer_user_id = i.user_id;
  provider_user_id = 0;
  cost_credits = pos 0;
  provider_revenue_credits = pos 0;
  commission_credits = pos 0;
  points_to_consumer = pos 0;
  points_to_provider = pos 0;
  transaction_id = 0;
  status = "settled";
  error_message = none;
  settle_at = none;
  settled_at = some now;
}

abbrev pub link_transaction : ℕ → SettlementRecord → SettlementRecord
link_transaction tx_id r = record r { transaction_id = tx_id }

abbrev pub recharge_entries : RechargeSettlementIn → List EntryDelta
recharge_entries i = user_delta i.user_id asset_credits i.recharge_credits ∷ []

-- The keys of a user that an overdraft disabled, and the update that enables them again.
abbrev pub is_overdraft_key : ℕ → ApiKey → Bool
is_overdraft_key user k =
    k.user_id == user && (k.status == 0 && (str_eq k.disabled_reason "overdraft" && not k.deleted))

unfoldable pub enable_keys : ℕ → List ApiKey → List ApiKey
enable_keys user [] = []
enable_keys user (k ∷ ks) =
    (if is_overdraft_key user k then record k { status = 1; disabled_reason = "" } else k)
    ∷ enable_keys user ks

unfoldable pub disable_keys : ℕ → List ApiKey → List ApiKey
disable_keys user [] = []
disable_keys user (k ∷ ks) =
    (if k.user_id == user && k.status == 1
      then record k { status = 0; disabled_reason = "overdraft" }
      else k)
    ∷ disable_keys user ks

module _ (w : World) where
  -- The record exists: its transaction is the answer.
  unfoldable pub recharged_before :
      Error → State → Option SettlementRecord → Result TransactionInfo × State
  recharged_before e s none = (err e, s)
  recharged_before e s (some r) =
      if r.transaction_id == 0 then (err e, s) else get_transaction w r.transaction_id s

  -- The insert went through: the single credit is posted and linked to the record.
  unfoldable pub recharge_post : RechargeSettlementIn → ℕ → Action TransactionInfo
  recharge_post i id = do
    posted ← post_ledger w tx_type_recharge "settlement_record" id (recharge_entries i)
    update w (λ t. tt) (set_record id (link_transaction posted.0))
    pure (posted_info tx_type_recharge id posted.0 posted.1)

  unfoldable pub recharge_inserted :
      RechargeSettlementIn → State → Result ℕ → Result TransactionInfo × State
  recharge_inserted i s (ok id) = recharge_post i id s
  recharge_inserted i s (err e) =
      (get_record_by_ref w i.ref_type i.ref_id >>= λ existing t. recharged_before e t existing) s

  unfoldable pub recharge_body : RechargeSettlementIn → Action TransactionInfo
  recharge_body i = do
    now ← clock w
    r ← attempt (insert w (has_ref i.ref_type i.ref_id) (add_record (recharge_record i now)))
    λ s. recharge_inserted i s r

  unfoldable pub recharge_found :
      RechargeSettlementIn → State → Option SettlementRecord → Result TransactionInfo × State
  recharge_found i s none = in_tx w (recharge_body i) s
  recharge_found i s (some r) = recharged_before no_transaction s (some r)

  -- `CreateRecharge`
  unfoldable pub create_recharge : RechargeSettlementIn → Action TransactionInfo
  create_recharge i = do
    existing ← get_record_by_ref w i.ref_type i.ref_id
    λ s. recharge_found i s existing

  unfoldable pub restore_with : ℕ → State → Option Account → Result (Unit {0}) × State
  restore_with user s none =
      if w.empty_is_error
      then (err db, s)
      else update w (λ t. tt) (λ t. record t { api_keys = enable_keys user t.api_keys }) s
  restore_with user s (some a) =
      if ltb_ℤ a.balance_micro (pos 0)
      then (ok tt, s)
      else update w (λ t. tt) (λ t. record t { api_keys = enable_keys user t.api_keys }) s

  -- `RestoreOverdraftKeys`
  unfoldable pub restore_overdraft_keys : ℕ → Action (Unit {0})
  restore_overdraft_keys user = do
    acc ← query w (λ t. find_account owner_type_user user asset_credits t.accounts)
    λ s. restore_with user s acc

  -- `disableOverdraftKeys`: an error is only logged.
  unfoldable pub disable_overdraft_keys : ℕ → Action (Unit {0})
  disable_overdraft_keys user =
      attempt (update w (λ t. tt) (λ t. record t { api_keys = disable_keys user t.api_keys }))
      >> pure tt

  -- `RechargeCredits`: a restore that fails does not fail the recharge.
  unfoldable pub recharge_credits : ℕ → ℤ → String → ℕ → Action TransactionInfo
  recharge_credits user amount ref_type ref_id = do
    raise_if (leb_ℤ amount (pos 0)) not_positive
    t ←
        create_recharge (record {
          user_id = user;
          ref_type = ref_type;
          ref_id = ref_id;
          recharge_credits = amount;
        })
    attempt (restore_overdraft_keys user)
    pure t
