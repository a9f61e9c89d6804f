-- ===== src/Proxy/Request.antt =====
-- What `proxyOpenAI` of server/internal/logic/llm/runtime.go works on: the request, what it takes from elsewhere,
-- the shares of a cost, and the updates of quotas, usage records and keys.
use token_flux.Base.{
  not, ℕ, ℤ, pos, ◌+ℤ◌, ◌-ℤ◌, ◌*ℤ◌, quot_ℤ, int64, leb_ℤ, eq_ℤ, ◌==◌, Bool, true, ◌&&◌, String,
  Option, none, some, List, [], ◌∷◌, if◌then◌else◌,
}
use token_flux.Bytes.{Text}
use token_flux.Json.{Fields, Codec}
use token_flux.Store.{UsageRecord, Quota, ApiKey}
use token_flux.Proxy.{ReportedUsage, NormalizedUsage, KeyRow}

pub record ProxyRequest (C : Codec) : Type 0 where
  pub user_id : ℕ
  pub api_key_id : ℕ
  pub request_id : String
  pub is_stream : Bool
  pub raw_body : C.Body

-- A row of `llm_model_prices`.
pub record Prices : Type 0 where
  pub cache_hit_price_per_1k : ℤ
  pub cache_miss_price_per_1k : ℤ
  pub output_price_per_1k : ℤ

-- What the upstream does: no answer, or a status and a body.
pub data UpstreamReply (C : Codec) : Type 0 where
  call_failed : UpstreamReply C
  replied : ℤ → C.Body → UpstreamReply C

pub record Outside (C : Codec) : Type 0 where
  -- The rows that `pickRandomKeyModel` reads, `rand.Intn`, and the price of a model.
  pub spec_of : Text → Option ℕ
  pub rows_of : ℕ → List KeyRow
  pub rand : ℕ → ℕ
  pub price_of : ℕ → String → Option Prices
  pub decrypt : Text → Option Text
  -- `json.Unmarshal` of a text into a map, and of the usage in a body.
  pub unmarshal : Text → Option Fields
  pub usage_in : C.Body → ReportedUsage
  pub call : Text → Text → String → C.Body → UpstreamReply C

-- A request that is ready to be sent: the model, the key that serves it, and what is sent.
pub record Prepared (C : Codec) : Type 0 where
  pub model_spec_id : ℕ
  pub row : KeyRow
  pub api_key : Text
  pub base_url : Text
  pub new_body : C.Body

abbrev pub and_then_option {ℓ} : {A B : Type ℓ} → Option A → (A → Option B) → Option B
and_then_option none f = none
and_then_option (some a) f = f a

-- Cost, revenue and commission of a usage.
unfoldable pub shares_of : Prices → ℤ → NormalizedUsage → ℤ × ℤ × ℤ
shares_of p share_bps u =
    if eq_ℤ p.cache_hit_price_per_1k (pos 0)
      && (eq_ℤ p.cache_miss_price_per_1k (pos 0) && eq_ℤ p.output_price_per_1k (pos 0))
    then (pos 0, pos 0, pos 0)
    else let cost = int64 (
        quot_ℤ (int64 (p.cache_hit_price_per_1k *ℤ u.cache_hit_tokens)) 1000
        +ℤ quot_ℤ (int64 (p.cache_miss_price_per_1k *ℤ u.cache_miss_tokens)) 1000
        +ℤ quot_ℤ (int64 (p.output_price_per_1k *ℤ u.output_tokens)) 1000) in
      let revenue = quot_ℤ (int64 (cost *ℤ share_bps)) 10000 in
      (cost, revenue, int64 (cost -ℤ revenue))

abbrev pub no_price : Prices
no_price = record {
  cache_hit_price_per_1k = pos 0;
  cache_miss_price_per_1k = pos 0;
  output_price_per_1k = pos 0;
}

abbrev pub no_usage : NormalizedUsage
no_usage = record {
  input_tokens = pos 0;
  cache_hit_tokens = pos 0;
  cache_miss_tokens = pos 0;
  output_tokens = pos 0;
  total_tokens = pos 0;
}

-- UPDATE … SET quota_used_credits = quota_used_credits + cost WHERE id = ?, without a look at the limit.
unfoldable pub bump : ℕ → ℤ → List Quota → List Quota
bump id cost [] = []
bump id cost (q ∷ qs) =
    (if q.id == id then record q { quota_used_credits = q.quota_used_credits +ℤ cost } else q)
    ∷ bump id cost qs

unfoldable pub mark_usage : ℕ → List UsageRecord → List UsageRecord
mark_usage id [] = []
mark_usage id (r ∷ rs) =
    (if r.id == id then record r { status = "settlement_pending" } else r) ∷ mark_usage id rs

-- UPDATE api_keys … WHERE user_id = ? AND status = 1 AND deleted_at IS NULL
unfoldable pub disable_live_keys : ℕ → List ApiKey → List ApiKey
disable_live_keys user [] = []
disable_live_keys user (k ∷ ks) =
    (if k.user_id == user && (k.status == 1 && not k.deleted)
      then record k { status = 0; disabled_reason = "overdraft" }
      else k)
    ∷ disable_live_keys user ks

abbrev pub answer_of : {C : Codec} → UpstreamReply C → Option (UpstreamReply C)
answer_of call_failed = none
answer_of (replied status body) = some (replied status body)

abbrev pub is_failure : {C : Codec} → UpstreamReply C → Bool
is_failure call_failed = true
is_failure (replied status body) = leb_ℤ (pos 400) status
