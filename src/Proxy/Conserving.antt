-- ===== src/Proxy/Conserving.antt =====
-- A proxied request as a whole keeps the ledger of credits (server/internal/logic/llm/runtime.go).
use token_flux.Base.{
  ℕ, ℤ, pos, ltb_ℤ, leb_ℤ, String, Option, none, some, ◌∷◌, ◌≡◌, refl, arith, Bool-cases, inl, inr,
  residue, if◌then◌else◌,
}
use token_flux.Json.{Codec}
use token_flux.Proxy.{NormalizedUsage, normalize_openai_usage}
use token_flux.Store.{
  World, State, Tables, Account, Result, ok, err, Action, upstream_failed, ◌>>=◌, ◌>>◌, pure,
  or_raise, attempt, query, update,
}
use token_flux.Store.Steps.{updated, inserted}
use token_flux.Store.Runs.{
  Runs, >>=-Runs, attempt-Runs, or_raise-Runs, query-Runs, update-Runs, insert-Runs,
}
use token_flux.Ledger.Accounts.{find_account}
use token_flux.Ledger.Totals.{total}
use token_flux.Ledger.Audit.{IsValid}
use token_flux.Ledger.Post.{asset_credits, owner_type_user, no_clash}
use token_flux.Billing.{TransactionInfo}
use token_flux.Settlement.{submit_and_settle}
use token_flux.Settlement.Conserving.{conserving, aside-Conserved, submit_and_settle-conserving}
use token_flux.Proxy.Request.{
  disable_live_keys, ProxyRequest, Prices, UpstreamReply, call_failed, replied, Outside, Prepared,
  answer_of, no_usage, bump, mark_usage, shares_of,
}
use token_flux.Proxy.Run.{
  usage_row, insert_usage, prepare, log_failure, submission, bump_quotas, mark_pending, overdrawn,
  disable_keys_of_user, guard_overdraft, after_settlement, price_or_zero, settle_usage, on_reply,
  proxy_openai,
}
use token_flux.Proxy.Prepared.{prepare-Runs}

module _ (w : World) where
  -- An update of a table that is not the ledger's, whose error is ignored.
  tried_aside :
      (g : Tables → Tables)
      → ((t : Tables) → ((g t).accounts ≡ t.accounts) × ((g t).entries ≡ t.entries))
      → Runs conserving (attempt (update w (λ t. tt) g) >> pure tt)
  tried_aside g h =
      >>=-Runs conserving (attempt (update w (λ t. tt) g)) (λ r. pure tt)
        (attempt-Runs conserving (update w (λ t. tt) g) (
          update-Runs conserving w (λ t. tt) g
            λ s. let e = h s.tables in aside-Conserved s (updated g s) (omega arith) e.0 e.1))
        λ r s v. (v, refl)

module _ (w : World) (C : Codec) (o : Outside C) (i : ProxyRequest C)
    (path capability : String) where
  insert_usage-conserving :
      (p : Prepared C) (u : NormalizedUsage) (shares : ℤ × ℤ × ℤ) (status : String)
      → Runs conserving (insert_usage w C o i path capability p u shares status)
  unfolding insert_usage
  insert_usage-conserving p u shares status =
      let row : ℕ → Tables → Tables = λ id t. record t {
        usage_records = usage_row w C o i path capability p u shares status id ∷ t.usage_records;
      } in
      insert-Runs conserving w no_clash row
        λ s. aside-Conserved s (inserted row s) (omega arith) refl refl

  log_failure-conserving :
      (p : Prepared C) (reply : UpstreamReply C)
      → Runs conserving (log_failure w C o i path capability p reply)
  unfolding log_failure
  log_failure-conserving p reply =
      let logged = insert_usage w C o i path capability p no_usage (pos 0, pos 0, pos 0) "failed" in
      let answer = λ (r : Result ℕ). or_raise (answer_of reply) upstream_failed in
      >>=-Runs conserving (attempt logged) answer
        (attempt-Runs conserving logged
          (insert_usage-conserving p no_usage (pos 0, pos 0, pos 0) "failed"))
        λ r. or_raise-Runs conserving (answer_of reply) upstream_failed

  mark_pending-conserving : (id : ℕ) → Runs conserving (mark_pending w C o i path capability id)
  mark_pending-conserving id =
      tried_aside w (λ t. record t { usage_records = mark_usage id t.usage_records })
        λ t. (refl, refl)

  bump_quotas-conserving :
      (p : Prepared C) (cost : ℤ) → Runs conserving (bump_quotas w C o i path capability p cost)
  unfolding bump_quotas
  bump_quotas-conserving p cost s = elim (Bool-cases (ltb_ℤ (pos 0) cost)) [
    | inl e ↦
        let keys : Tables → Tables =
          λ t. record t { model_keys = bump (p.row).model_key_id cost t.model_keys } in
        let models : Tables → Tables =
          λ t. record t { key_models = bump (p.row).key_model_id cost t.key_models } in
        let first : Action (Result (Unit {0})) = attempt (update w (λ t. tt) keys) in
        let second : Action (Unit {0}) = attempt (update w (λ t. tt) models) >> pure tt in
        rw e (
          >>=-Runs conserving first (λ r. second)
            (attempt-Runs conserving (update w (λ t. tt) keys) (
              update-Runs conserving w (λ t. tt) keys
                λ s. aside-Conserved s (updated keys s) (omega arith) refl refl))
            (λ r. tried_aside w models λ t. (refl, refl)) s)
    | inr e ↦ rw e (λ v. (v, refl))
  ]

  disable_keys_of_user-conserving : Runs conserving (disable_keys_of_user w C o i path capability)
  disable_keys_of_user-conserving =
      tried_aside w (λ t. record t { api_keys = disable_live_keys i.user_id t.api_keys })
        λ t. (refl, refl)

  guard_overdraft-conserving : Runs conserving (guard_overdraft w C o i path capability)
  unfolding guard_overdraft
  guard_overdraft-conserving =
      let look : Tables → Option Account =
        λ t. find_account owner_type_user i.user_id asset_credits t.accounts in
      >>=-Runs conserving (attempt (query w look))
        (λ r.
          if overdrawn w C o i path capability r
          then disable_keys_of_user w C o i path capability
          else pure tt)
        (attempt-Runs conserving (query w look) (query-Runs conserving w look))
        λ r s. elim (Bool-cases (overdrawn w C o i path capability r)) [
          | inl e ↦ rw e (disable_keys_of_user-conserving s)
          | inr e ↦ rw e (λ v. (v, refl))
        ]

  after_settlement-conserving :
      (p : Prepared C) (cost : ℤ) (id : ℕ) (r : Result TransactionInfo)
      → Runs conserving (after_settlement w C o i path capability p cost id r)
  unfolding after_settlement
  after_settlement-conserving p cost id (ok info) s =
      >>=-Runs conserving (bump_quotas w C o i path capability p cost)
        (λ u. guard_overdraft w C o i path capability) (bump_quotas-conserving p cost)
        (λ u. guard_overdraft-conserving) s
  after_settlement-conserving p cost id (err e) s =
      >>=-Runs conserving (mark_pending w C o i path capability id)
        (λ u. bump_quotas w C o i path capability p cost) (mark_pending-conserving id)
        (λ u. bump_quotas-conserving p cost) s

  price_or_zero-conserving :
      (found : Option Prices) → Runs conserving (price_or_zero w C o i path capability found)
  price_or_zero-conserving none s = elim (Bool-cases w.empty_is_error) [
    | inl e ↦ rw e (λ v. (v, refl))
    | inr e ↦ rw e (λ v. (v, refl))
  ]
  price_or_zero-conserving (some p) s = λ v. (v, refl)

  settle_usage-conserving :
      (p : Prepared C) (body : C.Body)
      → Runs conserving (settle_usage w C o i path capability p body)
  unfolding settle_usage
  settle_usage-conserving p body =
      let look : Tables → Option Prices = λ t. o.price_of p.model_spec_id capability in
      let u = normalize_openai_usage (o.usage_in body) in
      let shares : Prices → ℤ × ℤ × ℤ = λ price. shares_of price (p.row).provider_share_bps u in
      let settled : Prices → ℕ → Action TransactionInfo =
        λ price id. submit_and_settle w (submission w C o i path capability p (shares price) id) in
      let last : Prices → ℕ → Action (Unit {0}) = λ price id. attempt (settled price id) >>= λ r.
      after_settlement w C o i path capability p (shares price).0 id r in
      let record_usage : Prices → Action (Unit {0}) =
        λ price. insert_usage w C o i path capability p u (shares price) "success" >>= last price in
      >>=-Runs conserving (query w look)
        (λ found. price_or_zero w C o i path capability found >>= record_usage)
        (query-Runs conserving w look)
        λ found.
          >>=-Runs conserving (price_or_zero w C o i path capability found) record_usage
            (price_or_zero-conserving found)
            λ price.
              >>=-Runs conserving
                (insert_usage w C o i path capability p u (shares price) "success") (last price)
                (insert_usage-conserving p u (shares price) "success")
                λ id.
                  >>=-Runs conserving (attempt (settled price id))
                    (λ r. after_settlement w C o i path capability p (shares price).0 id r)
                    (attempt-Runs conserving (settled price id) (
                      submit_and_settle-conserving w
                        (submission w C o i path capability p (shares price) id)))
                    (after_settlement-conserving p (shares price).0 id)

  on_reply-conserving :
      (p : Prepared C) (reply : UpstreamReply C)
      → Runs conserving (on_reply w C o i path capability p reply)
  unfolding on_reply
  on_reply-conserving p call_failed s = log_failure-conserving p call_failed s
  on_reply-conserving p (replied status body) s = elim (Bool-cases (leb_ℤ (pos 400) status)) [
    | inl e ↦ rw e (log_failure-conserving p (replied status body) s)
    | inr e ↦
        let answer : Unit {0} → Action (UpstreamReply C) = λ u. pure (replied status body) in
        rw e (
          >>=-Runs conserving (settle_usage w C o i path capability p body) answer
            (settle_usage-conserving p body) (λ u t v. (v, refl)) s)
  ]

  -- However a proxied request ends, whatever the upstream answers and whichever statement fails, a valid ledger stays
  -- valid and the total of the credit balances stays the same modulo 2^64.
  pub proxy_openai-conserves :
      (s : State)
      → IsValid s
      → IsValid (proxy_openai w C o i path capability s).1
        × (residue (total asset_credits (proxy_openai w C o i path capability s).1.tables.accounts)
            ≡ residue (total asset_credits s.tables.accounts))
  unfolding proxy_openai
  proxy_openai-conserves =
      let send = λ (p : Prepared C).
        on_reply w C o i path capability p (o.call p.base_url p.api_key path p.new_body) in
      >>=-Runs conserving (prepare w C o i path capability) send
        (prepare-Runs conserving w C o i path capability)
        λ p. on_reply-conserving p (o.call p.base_url p.api_key path p.new_body)
