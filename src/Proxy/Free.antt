-- ===== src/Proxy/Free.antt =====
-- A proxied request that is refused, or that the upstream does not serve, moves no money
-- (server/internal/logic/llm/runtime.go).
use token_flux.Base.{subst, ℕ, ℤ, pos, true, String, [], ◌∷◌, ◌≡◌, refl, ◌∙◌}
use token_flux.Json.{Codec}
use token_flux.Proxy.{NormalizedUsage}
use token_flux.Store.{World, State, Tables, Result, ok, err, upstream_failed, or_raise, attempt}
use token_flux.Store.Steps.{>>=-cases}
use token_flux.Store.Runs.{Tracking, Runs, >>=-Runs, attempt-Runs, or_raise-Runs, insert-Runs}
use token_flux.Ledger.Post.{no_clash}
use token_flux.Proxy.Request.{
  ProxyRequest, UpstreamReply, call_failed, replied, Outside, Prepared, is_failure, answer_of,
  no_usage,
}
use token_flux.Proxy.Run.{usage_row, insert_usage, prepare, log_failure, on_reply, proxy_openai}
use token_flux.Proxy.Prepared.{prepare-Runs}

-- The tables but for the log of the usage.
abbrev pub besides_usage : Tables → Tables
besides_usage t = record t { usage_records = [] }

abbrev free : Tracking
free = record {
  Relates = λ s t. besides_usage t.tables ≡ besides_usage s.tables;
  here = λ s. refl;
  join = λ s t u h k. k ∙ h;
  ticks = λ s. refl;
}

module _ (w : World) (C : Codec) (o : Outside C) (i : ProxyRequest C)
    (path capability : String) where
  insert_usage-IsFree :
      (p : Prepared C) (u : NormalizedUsage) (shares : ℤ × ℤ × ℤ) (status : String)
      → Runs free (insert_usage w C o i path capability p u shares status)
  unfolding insert_usage
  insert_usage-IsFree p u shares status =
      insert-Runs free w no_clash
        (λ id t. record t {
          usage_records = usage_row w C o i path capability p u shares status id ∷ t.usage_records;
        })
        λ s. refl

  log_failure-IsFree :
      (p : Prepared C) (reply : UpstreamReply C)
      → Runs free (log_failure w C o i path capability p reply)
  unfolding log_failure
  log_failure-IsFree p reply =
      let logged = insert_usage w C o i path capability p no_usage (pos 0, pos 0, pos 0) "failed" in
      let answer = λ (r : Result ℕ). or_raise (answer_of reply) upstream_failed in
      >>=-Runs free (attempt logged) answer
        (attempt-Runs free logged (insert_usage-IsFree p no_usage (pos 0, pos 0, pos 0) "failed"))
        λ r. or_raise-Runs free (answer_of reply) upstream_failed

  on_reply-IsFree :
      (p : Prepared C) (reply : UpstreamReply C)
      → is_failure reply ≡ true
      → Runs free (on_reply w C o i path capability p reply)
  unfolding on_reply
  on_reply-IsFree p call_failed h s = log_failure-IsFree p call_failed s
  on_reply-IsFree p (replied status body) h s = rw h (log_failure-IsFree p (replied status body) s)

  -- When the request is refused before the call of the upstream, or the upstream fails the call that is prepared for it
  -- or answers that call with a status of 400 or more, a proxied request changes no table but the log of the usage,
  -- however it ends: no balance, no settlement, no quota and no key.
  pub proxy_openai-free :
      (s : State)
      → ((p : Prepared C) (t : State)
          → prepare w C o i path capability s ≡ (ok p, t)
          → is_failure (o.call p.base_url p.api_key path p.new_body) ≡ true)
      → besides_usage (proxy_openai w C o i path capability s).1.tables ≡ besides_usage s.tables
  unfolding proxy_openai
  proxy_openai-free s h =
      let send = λ (p : Prepared C).
        on_reply w C o i path capability p (o.call p.base_url p.api_key path p.new_body) in
      let before : (r : Result (Prepared C)) (t : State)
          → prepare w C o i path capability s ≡ (r, t)
          → besides_usage t.tables ≡ besides_usage s.tables =
        λ r t e.
          subst
            (λ (x : Result (Prepared C) × State). besides_usage x.1.tables ≡ besides_usage s.tables)
            e (prepare-Runs free w C o i path capability s) in
      >>=-cases (λ x. besides_usage x.1.tables ≡ besides_usage s.tables)
        (prepare w C o i path capability) send s
        (λ p t e.
          on_reply-IsFree p (o.call p.base_url p.api_key path p.new_body) (h p t e) t
          ∙ before (ok p) t e)
        (λ x t e. before (err x) t e)
