-- ===== src/Settlement.antt =====
-- server/internal/logic/settlement/settlement.go: settlement records and their double-entry posting.
pub mod Effects
pub mod Outcome
pub mod Growing
pub mod Conserving
pub mod Paid
use token_flux.Base.{
  ℕ, suc, ℤ, pos, ◌+ℤ◌, ◌-ℤ◌, ◌*ℤ◌, int64, ltb_ℤ, eq_ℤ, Bool, true, false, not, String, Option,
  none, some, List, [], ◌∷◌, ◌++◌, ◌&&◌, ◌==◌, str_eq, if◌then◌else◌, first, keep, map, reverse,
}
use token_flux.Store.{
  World, State, Tables, Account, Transaction, TransactionEntry, SettlementRecord, ApiKey, Error,
  Result, ok, err, Action, ◌>>=◌, ◌>>◌, pure, raise, or_raise, raise_if, attempt, query, update,
  insert, get_int, clock, in_tx, record_not_found, transaction_not_found, no_transaction,
}
use token_flux.Ledger.Accounts.{find_account}
use token_flux.Ledger.Post.{
  EntryDelta, TransactionEntryInfo, post_ledger, asset_credits, asset_points, owner_type_user,
  owner_type_platform, tx_type_settle, tx_type_recharge,
}
use token_flux.Billing.{TransactionInfo}

pub record SettlementSubmitIn : Type 0 where
  pub product_type : String
  pub ref_type : String
  pub ref_id : ℕ
  pub consumer_user_id : ℕ
  pub provider_user_id : ℕ
  pub cost_credits : ℤ
  pub provider_revenue_credits : ℤ
  pub commission_credits : ℤ
  pub points_to_consumer : ℤ
  pub points_to_provider : ℤ

pub record RechargeSettlementIn : Type 0 where
  pub user_id : ℕ
  pub ref_type : String
  pub ref_id : ℕ
  pub recharge_credits : ℤ

unfoldable pub find_record : ℕ → List SettlementRecord → Option SettlementRecord
find_record id = first (λ r. r.id == id)

-- WHERE ref_type = ? AND ref_id = ?
abbrev pub is_ref : String → ℕ → SettlementRecord → Bool
is_ref ref_type ref_id r = str_eq r.ref_type ref_type && r.ref_id == ref_id

unfoldable pub find_by_ref : String → ℕ → List SettlementRecord → Option SettlementRecord
find_by_ref ref_type ref_id = first (is_ref ref_type ref_id)

-- UPDATE settlement_records SET … WHERE id = ?
unfoldable pub update_record :
    ℕ → (SettlementRecord → SettlementRecord) → List SettlementRecord → List SettlementRecord
update_record id f [] = []
update_record id f (r ∷ rows) = (if r.id == id then f r else r) ∷ update_record id f rows

abbrev pub set_record : ℕ → (SettlementRecord → SettlementRecord) → Tables → Tables
set_record id f t = record t { records = update_record id f t.records }

abbrev pub entry_info : TransactionEntry → TransactionEntryInfo
entry_info e = record {
  id = e.id;
  account_id = e.account_id;
  delta_micro = e.delta_micro;
  balance_after_micro = e.balance_after_micro;
}

-- The entries of a transaction, `ORDER BY id ASC`: the table holds the newest row first.
abbrev pub entries_of : ℕ → List TransactionEntry → List TransactionEntryInfo
entries_of tx_id es = map entry_info (reverse (keep (λ e. e.tx_id == tx_id) es))

abbrev pub transaction_info : Transaction → List TransactionEntryInfo → TransactionInfo
transaction_info t es = record {
  id = t.id;
  tx_type = t.tx_type;
  ref_type = t.ref_type;
  ref_id = t.ref_id;
  entries = es;
}

module _ (w : World) where
  unfoldable pub get_record : ℕ → Action SettlementRecord
  get_record id = do or_raise (← query w (λ t. find_record id t.records)) record_not_found

  unfoldable pub get_record_by_ref : String → ℕ → Action (Option SettlementRecord)
  get_record_by_ref ref_type ref_id = query w (λ t. find_by_ref ref_type ref_id t.records)

  unfoldable pub get_transaction : ℕ → Action TransactionInfo
  get_transaction tx_id = do
    tx ← or_raise (← query w (λ t. first (λ r. r.id == tx_id) t.transactions)) transaction_not_found
    es ← query w (λ t. entries_of tx_id t.entries)
    pure (transaction_info tx es)

-- UNIQUE (ref_type, ref_id)
abbrev pub has_ref : String → ℕ → Tables → Bool
has_ref ref_type ref_id t = elim (find_by_ref ref_type ref_id t.records) [
  | none ↦ false
  | some _ ↦ true
]

abbrev pub add_record : (ℕ → SettlementRecord) → ℕ → Tables → Tables
add_record r id t = record t { records = r id ∷ t.records }

abbrev pub submitted_record : SettlementSubmitIn → ℕ → SettlementRecord
submitted_record i id = record {
  id = id;
  product_type = i.product_type;
  ref_type = i.ref_type;
  ref_id = i.ref_id;
  consumer_user_id = i.consumer_user_id;
  provider_user_id = i.provider_user_id;
  cost_credits = i.cost_credits;
  provider_revenue_credits = i.provider_revenue_credits;
  commission_credits = i.commission_credits;
  points_to_consumer = i.points_to_consumer;
  points_to_provider = i.points_to_provider;
  transaction_id = 0;
  status = "pending";
  error_message = none;
  settle_at = none;
  settled_at = none;
}

abbrev pub user_delta : ℕ → String → ℤ → EntryDelta
user_delta user asset delta = record {
  owner_type = owner_type_user;
  owner_id = user;
  asset = asset;
  delta = delta;
}

-- An entry that is appended only if its points are not 0.
abbrev pub points_entry : ℕ → ℤ → List EntryDelta
points_entry user points =
    if eq_ℤ points (pos 0) then [] else user_delta user asset_points points ∷ []

unfoldable pub settle_entries : SettlementRecord → ℤ → ℤ → List EntryDelta
settle_entries r to_consumer to_provider =
    user_delta r.consumer_user_id asset_credits (int64 (pos 0 -ℤ r.cost_credits))
    ∷ user_delta r.provider_user_id asset_credits r.provider_revenue_credits
    ∷ record {
      owner_type = owner_type_platform;
      owner_id = 0;
      asset = asset_credits;
      delta = r.commission_credits;
    }
    ∷ (points_entry r.consumer_user_id to_consumer ++ points_entry r.provider_user_id to_provider)

abbrev pub mark_settled : ℕ → ℕ → ℤ → ℤ → SettlementRecord → SettlementRecord
mark_settled now tx_id to_consumer to_provider r = record r {
  status = "settled";
  settled_at = some now;
  transaction_id = tx_id;
  points_to_consumer = to_consumer;
  points_to_provider = to_provider;
}

abbrev pub mark_failed : Error → SettlementRecord → SettlementRecord
mark_failed e r = record r { status = "failed"; error_message = some e }

abbrev pub posted_info : String → ℕ → ℕ → List TransactionEntryInfo → TransactionInfo
posted_info tx_type record_id tx_id es = record {
  id = tx_id;
  tx_type = tx_type;
  ref_type = "settlement_record";
  ref_id = record_id;
  entries = es;
}

module _ (w : World) where
  abbrev pub submitted : SettlementSubmitIn → State → Result ℕ → Result SettlementRecord × State
  submitted i s (ok id) = get_record w id s
  submitted i s (err e) =
      (get_record_by_ref w i.ref_type i.ref_id >>= λ existing. or_raise existing e) s

  -- `Submit`
  unfoldable pub submit : SettlementSubmitIn → Action SettlementRecord
  submit i = do
    r ← attempt (insert w (has_ref i.ref_type i.ref_id) (add_record (submitted_record i)))
    λ s. submitted i s r

  -- The body of the transaction that `Settle` opens.
  unfoldable pub settle_body : SettlementRecord → ℤ → ℤ → Action TransactionInfo
  settle_body r to_consumer to_provider = do
    posted ←
        post_ledger w tx_type_settle "settlement_record" r.id
          (settle_entries r to_consumer to_provider)
    now ← clock w
    update w (λ t. tt) (set_record r.id (mark_settled now posted.0 to_consumer to_provider))
    pure (posted_info tx_type_settle r.id posted.0 posted.1)

  -- After the transaction: a failure is noted on the record, outside of it.
  unfoldable pub settle_result :
      SettlementRecord → State → Result TransactionInfo → Result TransactionInfo × State
  settle_result r s (ok t) = (ok t, s)
  settle_result r s (err e) =
      (attempt (update w (λ t. tt) (set_record r.id (mark_failed e))) >> raise e) s

  abbrev pub settle_tx : SettlementRecord → ℤ → ℤ → Action TransactionInfo
  settle_tx r to_consumer to_provider s =
      let (res, s') = in_tx w (settle_body r to_consumer to_provider) s in settle_result r s' res

  unfoldable pub settle_pending : SettlementRecord → Action TransactionInfo
  settle_pending r = do
    per_consumer ← get_int w "billing.points_per_credit_consumer" (pos 1)
    per_provider ← get_int w "billing.points_per_credit_provider" (pos 1)
    settle_tx r (int64 (r.cost_credits *ℤ per_consumer))
        (int64 (r.provider_revenue_credits *ℤ per_provider))

  -- `Settle`
  unfoldable pub settle : ℕ → Action TransactionInfo
  settle record_id = do
    r ← get_record w record_id
    λ s.
        if str_eq r.status "settled"
        then get_transaction w r.transaction_id s
        else settle_pending r s

  -- `SubmitAndSettle`
  unfoldable pub submit_and_settle : SettlementSubmitIn → Action TransactionInfo
  submit_and_settle i = do r ← submit i; settle r.id
