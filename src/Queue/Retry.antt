-- ===== src/Queue/Retry.antt =====
-- A task that fails is sent again a bounded number of times, and has left no trace.
use token_flux.Base.{
  ℤ, pos, eq_ℤ, leb_ℤ, ltb_ℤ, not, ◌&&◌, ◌⊎◌, ◌∙◌, ap, ℕ, suc, ◌≤◌, ◌≡◌, refl, Bool, true, false,
  Option, none, some, arith, inl, inr, if◌then◌else◌, Option-cases,
}
use token_flux.Store.{World, State, Error, Result, ok, err, attempt, pure, ◌>>=◌, ◌>>◌, in_tx}
use token_flux.Store.Steps.{>>=-runs}
use token_flux.Store.Commits.{in_tx-err}
use token_flux.Store.Outcomes.{IsTotal, >>=-IsTotal, pure-IsTotal, attempt-IsTotal, if-IsTotal}
use token_flux.Billing.{TransactionInfo, debit_account}
use token_flux.Recharge.{disable_overdraft_keys}
use token_flux.Quota.{update_quota_sync}
use token_flux.Queue.{
  SettlementTask, Tokenizer, lazy_tokenize, retry_task, total_of, is_blank, count_tokens, counted,
  max_settlement_retries,
}
use token_flux.Queue.Worker.{
  process_settlement, settle_task, after_record, record_usage, record_body, debit_consumer,
  save_chat_log, after_debit, sync_quota, usage_debit,
}

retry_task-suc :
    (t u : SettlementTask)
    → retry_task t ≡ some u
    → (u.retry_count ≡ suc t.retry_count) × (u.retry_count ≤ max_settlement_retries)
unfolding retry_task
retry_task-suc t u h = ground arith

lazy_tokenize-retry_count :
    (tokenizer : Tokenizer) (t u : SettlementTask)
    → lazy_tokenize tokenizer t ≡ some u
    → u.retry_count ≡ t.retry_count
unfolding lazy_tokenize
lazy_tokenize-retry_count tokenizer t u h =
    go (eq_ℤ (total_of t.usage) (pos 0) && not (is_blank t.response_text))
      (count_tokens tokenizer t.model_name t.response_text) h
  where
    go :
        (b : Bool) (n : Option ℤ)
        → (if b then counted t n else some t) ≡ some u
        → u.retry_count ≡ t.retry_count
    go true none e = ground arith
    go true (some n) e = ground arith
    go false n e = ground arith

module _ (w : World) where
  update_quota_sync-IsTotal :
      (key binding : ℕ) (cost : ℤ) → IsTotal (update_quota_sync w key binding cost)
  unfolding update_quota_sync
  update_quota_sync-IsTotal key binding cost s =
      if-IsTotal (leb_ℤ cost (pos 0)) _ _ (pure-IsTotal tt) (λ s'. (tt, _, refl)) s

  disable_overdraft_keys-IsTotal : (user : ℕ) → IsTotal (disable_overdraft_keys w user)
  unfolding disable_overdraft_keys
  disable_overdraft_keys-IsTotal user s = (tt, _, refl)

  after_debit-IsTotal :
      (t : SettlementTask) (r : Result TransactionInfo) → IsTotal (after_debit w t r)
  after_debit-IsTotal t (ok i) = pure-IsTotal tt
  after_debit-IsTotal t (err e) = disable_overdraft_keys-IsTotal t.user_id

  sync_quota-IsTotal : (t : SettlementTask) → IsTotal (sync_quota w t)
  sync_quota-IsTotal t =
      if-IsTotal (is_blank t.response_text) (pure tt)
        (update_quota_sync w t.model_key_id t.key_model_id t.cost) (pure-IsTotal tt)
        (update_quota_sync-IsTotal t.model_key_id t.key_model_id t.cost)

  debit_consumer-IsTotal : (t : SettlementTask) (id : ℕ) → IsTotal (debit_consumer w t id)
  unfolding debit_consumer
  debit_consumer-IsTotal t id =
      let next = λ (r : Result TransactionInfo). after_debit w t r >> sync_quota w t in
      if-IsTotal (ltb_ℤ (pos 0) t.cost) (attempt (debit_account w (usage_debit t id)) >>= next)
        (pure tt)
        (>>=-IsTotal (attempt (debit_account w (usage_debit t id))) next (attempt-IsTotal _) λ r.
          >>=-IsTotal (after_debit w t r) (λ _. sync_quota w t) (after_debit-IsTotal t r)
            λ _. sync_quota-IsTotal t)
        (pure-IsTotal tt)

  save_chat_log-IsTotal : (t : SettlementTask) → IsTotal (save_chat_log w t)
  unfolding save_chat_log
  save_chat_log-IsTotal t s =
      if-IsTotal (is_blank t.request_body) _ _ (pure-IsTotal tt) (λ s'. (tt, _, refl)) s

  -- After the transaction nothing is sent again.
  after_record-ok :
      (t : SettlementTask) (id : ℕ) (s : State)
      → (s' : State) × (after_record w t s (ok id) ≡ (ok none, s'))
  unfolding after_record
  after_record-ok t id s =
      let (a, u, e) = debit_consumer-IsTotal t id s in
      let (b, v, k) = save_chat_log-IsTotal t u in
      let then_log = λ (_ : Unit {0}). save_chat_log w t in
      (
        v,
        >>=-runs (debit_consumer w t id >>= then_log) (λ _. pure none) s
            (>>=-runs (debit_consumer w t id) then_log s e ∙ k),
      )

  -- What a task leaves behind: it was recorded and is not sent again, or it is sent again or dropped,
  -- and no table has changed.
  abbrev pub Outcome : SettlementTask → State → Option SettlementTask → State → Type 0
  Outcome t s o s' =
      (o ≡ none)
      ⊎ ((u : SettlementTask) × (o ≡ some u)
          × (u.retry_count ≡ suc t.retry_count)
          × (u.retry_count ≤ max_settlement_retries)
          × (s'.tables ≡ s.tables))

  retry_task-Outcome :
      (t : SettlementTask) (s u : State) → u.tables ≡ s.tables → Outcome t s (retry_task t) u
  retry_task-Outcome t s u h = elim (Option-cases (retry_task t)) [
    | inl e ↦ inl e
    | inr (v, e) ↦ let (n, b) = retry_task-suc t v e in inr (v, e, n, b, h)
  ]

  after_record-Outcome :
      (t : SettlementTask) (s u : State) (r : Result ℕ)
      → ((e : Error) → r ≡ err e → u.tables ≡ s.tables)
      → (o : Option SettlementTask) × (s' : State) × (after_record w t u r ≡ (ok o, s'))
        × Outcome t s o s'
  unfolding after_record
  after_record-Outcome t s u (ok id) h =
      let (s', e) = after_record-ok t id u in (none, s', e, inl refl)
  after_record-Outcome t s u (err x) h =
      (retry_task t, u, refl, retry_task-Outcome t s u (h x refl))

  record_usage-err :
      (t : SettlementTask) (s : State) (e : Error)
      → (record_usage w t s).0 ≡ err e
      → (record_usage w t s).1.tables ≡ s.tables
  unfolding record_usage
  record_usage-err t s e h =
      let res = in_tx w (record_body w t) s in
      in_tx-err w (record_body w t) s {e = e} {s' = res.1} (λ j. (h j, res.1))

  settle_task-Outcome :
      (t : SettlementTask) (s : State)
      → (o : Option SettlementTask) × (s' : State) × (settle_task w t s ≡ (ok o, s'))
        × Outcome t s o s'
  unfolding settle_task
  settle_task-Outcome t s =
      after_record-Outcome t s (record_usage w t s).1 (record_usage w t s).0 (record_usage-err t s)

  same_count :
      (t u : SettlementTask) (s s' : State) (o : Option SettlementTask)
      → u.retry_count ≡ t.retry_count
      → Outcome u s o s'
      → Outcome t s o s'
  same_count t u s s' o h (inl e) = inl e
  same_count t u s s' o h (inr (v, e, n, b, k)) = inr (v, e, n ∙ ap suc h, b, k)

  -- A worker's step always comes to an end with one of two outcomes: the task is not sent again, or it
  -- is sent again with its count of retries one higher and at most three, and no table has changed.
  pub process_settlement-Outcome :
      (tokenizer : Tokenizer) (task : SettlementTask) (s : State)
      → (o : Option SettlementTask) × (s' : State) × (process_settlement w tokenizer task s
          ≡ (ok o, s'))
        × Outcome task s o s'
  unfolding process_settlement
  process_settlement-Outcome tokenizer task s = elim (Option-cases (lazy_tokenize tokenizer task)) [
    | inl e ↦ (retry_task task, s, rw e refl, retry_task-Outcome task s s refl)
    | inr (t, e) ↦
        let (o, s', run, out) = settle_task-Outcome t s in
        (
          o,
          s',
          rw e run,
          same_count task t s s' o (lazy_tokenize-retry_count tokenizer task t e) out,
        )
  ]
