-- ===== src/Tests/Proxying.antt =====
-- A proxied request that the upstream does not serve, and one that it does.
use token_flux.Base.{residue, pos, false, none, some, [], ◌∷◌, ◌≡◌, refl}
use token_flux.Bytes.{codes}
use token_flux.Json.{text, Fields, end, field, Codec}
use token_flux.Proxy.{KeyRow}
use token_flux.Proxy.Request.{ProxyRequest, replied, Outside}
use token_flux.Proxy.Run.{proxy_openai}
use token_flux.Proxy.Free.{besides_usage, proxy_openai-free}
use token_flux.Ledger.Totals.{total}
use token_flux.Ledger.Audit.{IsValid}
use token_flux.Ledger.Post.{asset_credits}
use token_flux.Proxy.Conserving.{proxy_openai-conserves}
use token_flux.Samples.{calm_world, funded, funded-IsValid}

abbrev json_codec : Codec
json_codec = record { Body = Fields; decode = λ b. some b; encode = λ b. b }

abbrev key_row : KeyRow
key_row = record {
  key_model_id = 1;
  model_key_id = 2;
  channel_id = 3;
  provider_user_id = 4;
  upstream_model_name = codes "up";
  key_encrypted = codes "k";
  protocols_json = codes "p";
  provider_share_bps = pos 8000;
  km_quota_used = pos 0;
  km_quota_limit = pos 0;
  mk_quota_used = pos 0;
  mk_quota_limit = pos 0;
}

abbrev busy_upstream : Outside json_codec
busy_upstream = record {
  spec_of = λ code. some 1;
  rows_of = λ spec. key_row ∷ [];
  rand = λ n. 0;
  price_of = λ spec capability. none;
  decrypt = λ k. some k;
  unmarshal = λ s. some (field (codes "base_url") (text (codes "https://up")) end);
  usage_in = λ b. record {
    prompt_tokens = pos 0;
    completion_tokens = pos 0;
    total_tokens = pos 0;
    prompt_cache_hit_tokens = pos 0;
    prompt_cache_miss_tokens = pos 0;
    cached_tokens = pos 0;
  };
  call = λ url key path b. replied (pos 503) b;
}

abbrev chat_request : ProxyRequest json_codec
chat_request = record {
  user_id = 7;
  api_key_id = 5;
  request_id = "r";
  is_stream = false;
  raw_body = field (codes "model") (text (codes "m")) end;
}

proxy_openai-free_example :
    besides_usage
      (proxy_openai calm_world json_codec busy_upstream chat_request "/v1/chat/completions" "chat"
        funded).1.tables
    ≡ besides_usage funded.tables
proxy_openai-free_example =
    proxy_openai-free calm_world json_codec busy_upstream chat_request "/v1/chat/completions" "chat"
      funded λ p t e. refl

-- 20 credits for 20 tokens.
abbrev serving_upstream : Outside json_codec
serving_upstream = record busy_upstream {
  price_of = λ spec capability. some (record {
    cache_hit_price_per_1k = pos 0;
    cache_miss_price_per_1k = pos 0;
    output_price_per_1k = pos 1000;
  });
  usage_in = λ b. record {
    prompt_tokens = pos 0;
    completion_tokens = pos 20;
    total_tokens = pos 20;
    prompt_cache_hit_tokens = pos 0;
    prompt_cache_miss_tokens = pos 0;
    cached_tokens = pos 0;
  };
  call = λ url key path b. replied (pos 200) b;
}

proxy_openai-conserves_example :
    IsValid
      (proxy_openai calm_world json_codec serving_upstream chat_request "/v1/chat/completions"
        "chat" funded).1
    × (residue (
          total asset_credits
            (proxy_openai calm_world json_codec serving_upstream chat_request "/v1/chat/completions"
              "chat" funded).1.tables.accounts)
        ≡ residue (total asset_credits funded.tables.accounts))
proxy_openai-conserves_example =
    proxy_openai-conserves calm_world json_codec serving_upstream chat_request
      "/v1/chat/completions" "chat" funded funded-IsValid
