-- ===== src/Proxy/Prepared.antt =====
-- The calls of `proxyOpenAI` before the upstream's (server/internal/logic/llm/runtime.go) only read: a relation of states
-- that allows such statements relates the state before them to the one after them, however they end.
use token_flux.Base.{ℕ, pos, leb_ℤ, String, Option, none, some, List, Bool-cases, inl, inr}
use token_flux.Bytes.{Text}
use token_flux.Json.{Codec, Fields}
use token_flux.Proxy.{KeyRow, load_candidates, pick_one, extract_base_url, replace_request_model}
use token_flux.Store.{
  Account, bad_request, model_not_found, no_key, no_base_url, World, Tables, Action, ◌>>=◌, pure,
  or_raise, query,
}
use token_flux.Store.Runs.{Tracking, Runs, >>=-Runs, raised-Runs, query-Runs}
use token_flux.Ledger.Accounts.{find_account}
use token_flux.Ledger.Post.{asset_credits, owner_type_user}
use token_flux.Quota.{check_balance, checked}
use token_flux.Proxy.Request.{ProxyRequest, Outside, Prepared, and_then_option}
use token_flux.Proxy.Run.{prepare, pick_random_key_model, address, requested_model}

module _ (p : Tracking) (w : World) where
  checked-Runs : (o : Option Account) → Runs p (λ s. checked w s o)
  unfolding checked
  checked-Runs none s = elim (Bool-cases w.empty_is_error) [
    | inl e ↦ rw e (p.here s)
    | inr e ↦ rw e (p.here s)
  ]
  checked-Runs (some a) s = elim (Bool-cases (leb_ℤ a.balance_micro (pos 0))) [
    | inl e ↦ rw e (p.here s)
    | inr e ↦ rw e (p.here s)
  ]

  check_balance-Runs : (user : ℕ) → Runs p (check_balance w user)
  unfolding check_balance
  check_balance-Runs user =
      let found : Tables → Option Account =
        λ t. find_account owner_type_user user asset_credits t.accounts in
      >>=-Runs p (query w found) (λ acc s. checked w s acc) (query-Runs p w found) checked-Runs

module _ (p : Tracking) (w : World) (C : Codec) (o : Outside C) (i : ProxyRequest C)
    (path capability : String) where
  pick_random_key_model-Runs :
      (code : Text) → Runs p (pick_random_key_model w C o i path capability code)
  unfolding pick_random_key_model
  pick_random_key_model-Runs code =
      let finish = λ (spec : ℕ) (row : KeyRow). pure (spec, row) in
      let pick =
        λ (spec : ℕ) (rows : List KeyRow). or_raise (pick_one o.rand rows) no_key >>= finish spec in
      let load = λ (spec : ℕ). query w (λ t. load_candidates (o.rows_of spec)) >>= pick spec in
      let find = λ (found : Option ℕ). or_raise found model_not_found >>= load in
      >>=-Runs p (query w (λ t. o.spec_of code)) find (query-Runs p w (λ t. o.spec_of code))
        λ found. raised-Runs p found model_not_found load λ spec.
          >>=-Runs p (query w (λ t. load_candidates (o.rows_of spec))) (pick spec)
            (query-Runs p w (λ t. load_candidates (o.rows_of spec)))
            λ rows. raised-Runs p (pick_one o.rand rows) no_key (finish spec) λ row s. p.here s

  address-Runs : (x : ℕ × KeyRow) → Runs p (address w C o i path capability x)
  unfolding address
  address-Runs (spec, row) =
      let last : Text → Text → Fields → Action (Prepared C) = λ api_key base_url fields.
        pure (record {
          model_spec_id = spec;
          row = row;
          api_key = api_key;
          base_url = base_url;
          new_body = C.encode (replace_request_model fields row.upstream_model_name);
        }) in
      let parse = λ (api_key base_url : Text).
        or_raise (C.decode i.raw_body) bad_request >>= last api_key base_url in
      let url = and_then_option (o.unmarshal row.protocols_json) extract_base_url in
      let find = λ (api_key : Text). or_raise url no_base_url >>= parse api_key in
      raised-Runs p (o.decrypt row.key_encrypted) no_key find λ api_key.
        raised-Runs p url no_base_url (parse api_key) λ base_url.
          raised-Runs p (C.decode i.raw_body) bad_request (last api_key base_url)
            λ fields s. p.here s

  pub prepare-Runs : Runs p (prepare w C o i path capability)
  unfolding prepare
  prepare-Runs =
      let pick = pick_random_key_model w C o i path capability in
      let ready = λ (code : Text). pick code >>= address w C o i path capability in
      let ask = λ (u : Unit {0}).
        or_raise (requested_model w C o i path capability) bad_request >>= ready in
      >>=-Runs p (check_balance w i.user_id) ask (check_balance-Runs p w i.user_id) λ u.
        raised-Runs p (requested_model w C o i path capability) bad_request ready λ code.
          >>=-Runs p (pick code) (address w C o i path capability) (pick_random_key_model-Runs code)
            address-Runs
