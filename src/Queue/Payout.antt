-- ===== src/Queue/Payout.antt =====
-- `ProcessSettlements` of server/internal/relay/handler/queue.go: the providers of due records are paid.
use token_flux.Base.{
  ℕ, suc, pos, ltb_ℤ, leb, Bool, false, Option, none, some, List, [], ◌∷◌, ◌&&◌, str_eq, keep,
  if◌then◌else◌,
}
use token_flux.Store.{
  World, SettlementRecord, Result, ok, err, Action, ◌>>=◌, ◌>>◌, pure, attempt, query, update,
  clock,
}
use token_flux.Ledger.Post.{owner_type_user}
use token_flux.Billing.{AccountIn, credit_account}
use token_flux.Settlement.{set_record}

-- WHERE status = 'pending' AND settle_at <= now
abbrev pub due_by : ℕ → Option ℕ → Bool
due_by now none = false
due_by now (some t) = leb t now

abbrev pub is_due : ℕ → SettlementRecord → Bool
is_due now r = str_eq r.status "pending" && due_by now r.settle_at

abbrev pub earnings_credit : SettlementRecord → AccountIn
earnings_credit r = record {
  owner_type = owner_type_user;
  owner_id = r.provider_user_id;
  asset = "earnings";
  amount_micro = r.provider_revenue_credits;
  ref_type = "settlement";
  ref_id = r.id;
}

abbrev pub paid_out : ℕ → SettlementRecord → SettlementRecord
paid_out now r = record r { status = "settled"; settled_at = some now }

module _ (w : World) where
  abbrev pub credit_provider : SettlementRecord → Action (Unit {0})
  credit_provider r =
      if ltb_ℤ (pos 0) r.provider_revenue_credits
      then credit_account w (earnings_credit r) >> pure tt
      else pure tt

  -- The body of the loop: an error is logged, and the next record follows.
  unfoldable pub pay_provider : SettlementRecord → Action (Unit {0})
  pay_provider r = do
    credit_provider r
    now ← clock w
    update w (λ t. tt) (set_record r.id (paid_out now))

  abbrev pub settled_count : ℕ → Result (Unit {0}) → ℕ
  settled_count n (ok u) = suc n
  settled_count n (err e) = n

  unfoldable pub pay_providers : ℕ → List SettlementRecord → Action ℕ
  pay_providers settled [] = pure settled
  pay_providers settled (r ∷ rs) = do
    p ← attempt (pay_provider r)
    pay_providers (settled_count settled p) rs

  -- `ProcessSettlements`
  unfoldable pub process_settlements : Action ℕ
  process_settlements = do
    now ← clock w
    rows ← query w (λ t. keep (is_due now) t.records)
    pay_providers 0 rows
