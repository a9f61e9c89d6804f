-- ===== src/Quota.antt =====
-- The quotas of keys and bindings: `updateQuotaSync` and the filter of `loadActiveCandidates` of
-- server/internal/relay/handler/handler.go, and `checkBalance` of the same file.
pub mod Limits
use token_flux.Base.{
  ℕ, ℤ, pos, ◌+ℤ◌, ltb_ℤ, leb_ℤ, eq_ℤ, Bool, true, false, not, String, Option, none, some, List, [],
  ◌∷◌, ◌&&◌, ◌||◌, ◌==◌, str_eq, keep, if◌then◌else◌,
}
use token_flux.Store.{
  World, State, Tables, Account, Quota, Error, db, insufficient, Result, ok, err, Action, ◌>>=◌,
  ◌>>◌, pure, attempt, query, update,
}
use token_flux.Ledger.Accounts.{find_account}
use token_flux.Ledger.Post.{asset_credits, owner_type_user}

-- WHERE id = ? AND (quota_limit_credits = 0 OR quota_used_credits + ? <= quota_limit_credits)
abbrev pub has_room : ℤ → Quota → Bool
has_room cost q =
    eq_ℤ q.quota_limit_credits (pos 0) || leb_ℤ (q.quota_used_credits +ℤ cost) q.quota_limit_credits

abbrev pub charged : ℕ → ℤ → Quota → Quota
charged id cost q =
    if q.id == id && has_room cost q
    then record q { quota_used_credits = q.quota_used_credits +ℤ cost }
    else q

unfoldable pub charge : ℕ → ℤ → List Quota → List Quota
charge id cost [] = []
charge id cost (q ∷ qs) = charged id cost q ∷ charge id cost qs

-- A row of the join that `loadActiveCandidates` runs.
pub record CandidateRow : Type 0 where
  pub key_model_id : ℕ
  pub model_key_id : ℕ
  pub model_spec_id : ℕ
  pub channel_id : ℕ
  pub channel_name : String
  pub provider_user_id : ℕ
  pub priority : ℤ
  pub weight : ℤ
  pub upstream_model_name : String
  pub key_encrypted : String
  pub protocols_json : String
  pub provider_share_bps : ℤ
  pub cache_hit_price_per_1k : ℤ
  pub cache_miss_price_per_1k : ℤ
  pub output_price_per_1k : ℤ
  pub km_quota_used : ℤ
  pub km_quota_limit : ℤ
  pub mk_quota_used : ℤ
  pub mk_quota_limit : ℤ
  pub consecutive_fails : ℤ

abbrev pub is_spent : ℤ → ℤ → Bool
is_spent used limit = ltb_ℤ (pos 0) limit && leb_ℤ limit used

-- The `continue`s of the loop.
abbrev pub is_offered : CandidateRow → Bool
is_offered r =
    not (is_spent r.mk_quota_used r.mk_quota_limit)
    && (not (is_spent r.km_quota_used r.km_quota_limit) && not (str_eq r.protocols_json ""))

-- `loadActiveCandidates`, of the rows that the join returned.
unfoldable pub load_active_candidates : List CandidateRow → List CandidateRow
load_active_candidates rows = keep is_offered rows

module _ (w : World) where
  -- `updateQuotaSync`: both updates are tried, an error is only logged.
  unfoldable pub update_quota_sync : ℕ → ℕ → ℤ → Action (Unit {0})
  update_quota_sync model_key key_model cost =
      if leb_ℤ cost (pos 0)
      then pure tt
      else attempt
          (update w (λ t. tt) (λ t. record t { model_keys = charge model_key cost t.model_keys }))
        >> attempt
            (update w (λ t. tt) (λ t. record t { key_models = charge key_model cost t.key_models }))
        >> pure tt

  -- The scan of no row leaves a zero balance, or is an error.
  unfoldable pub checked : State → Option Account → Result (Unit {0}) × State
  checked s none = if w.empty_is_error then (err db, s) else (err insufficient, s)
  checked s (some a) = if leb_ℤ a.balance_micro (pos 0) then (err insufficient, s) else (ok tt, s)

  -- `checkBalance`
  unfoldable pub check_balance : ℕ → Action (Unit {0})
  check_balance user = do
    acc ← query w (λ t. find_account owner_type_user user asset_credits t.accounts)
    λ s. checked s acc
