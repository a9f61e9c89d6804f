-- ===== src/Tests/Money.antt =====
-- The theorems on the ledger, billing and settlements at concrete inputs.
use token_flux.Base.{
  ◌⊎◌, ltb_ℤ, length, keep, ℕ, ◌≤◌, ℕ, ℤ, pos, ◌+ℤ◌, ◌-ℤ◌, int64, residue, ◌≡◌, refl, Bool, true,
  false, String, eq_iff, Option, none, some, All, arith, List, [], ◌∷◌, inl, inr, ◌≢◌, ◌≤ℤ◌,
}
use token_flux.Store.{insufficient, World, State, Result, ok, err, db}
use token_flux.Store.Runs.{Same}
use token_flux.Ledger.Audit.{IsValid}
use token_flux.Ledger.Totals.{total}
use token_flux.Ledger.Post.{
  EntryDelta, post_ledger, asset_credits, TransactionEntryInfo, tx_type_recharge,
}
use token_flux.Ledger.Moves.{Moved}
use token_flux.Ledger.Balance.{post_ledger-conserves}
use token_flux.Ledger.Progress.{post_ledger_total, IsCalm}
use token_flux.Ledger.Balances.{balance}
use token_flux.Billing.{TransactionInfo, credit_account, debit_account}
use token_flux.Billing.Decided.{debit_account-decides}
use token_flux.Billing.Effects.{Sets, credit_account-Sets, debit_account-covers}
use token_flux.Settlement.{settle, RechargeSettlementIn, find_by_ref}
use token_flux.Settlement.Effects.{settle_again}
use token_flux.Settlement.Paid.{paid, settle-pays}
use token_flux.Settlement.Outcome.{settle-conserves, settle-fails, SameLedger}
use token_flux.Recharge.{create_recharge, enable_keys, disable_keys}
use token_flux.Recharge.Credit.{create_recharge-Moved}
use token_flux.Recharge.Once.{create_recharge_again}
use token_flux.Payment.{confirm_order, find_order}
use token_flux.Payment.Once.{confirm_order_again}
use token_flux.Queue.{SettlementTask}
use token_flux.Queue.Worker.{process_settlement}
use token_flux.Queue.Retry.{process_settlement-Outcome, Outcome}
use token_flux.Samples.{
  calm_world, dead_world, start, start-IsValid, small_credit, small_debit, funded, funded-IsValid,
  transfer, settled_settlement, pending_settlement, paid_order, sample_task,
}

settle_tag : "settle" ≢ tx_type_recharge
settle_tag e = cc ((eq_iff "settle" tx_type_recharge).1 e)

calm : IsCalm calm_world
calm n = refl

abbrev repeated_recharge : RechargeSettlementIn
repeated_recharge = record {
  user_id = 7;
  ref_type = "recharge_order";
  ref_id = 9;
  recharge_credits = pos 40;
}

credit_account-Sets_example :
    IsValid (credit_account calm_world small_credit start).1
    × Sets small_credit
        (int64 (balance "user" 7 "credits" start +ℤ pos 100))
        start
        (credit_account calm_world small_credit start).1
unfolding credit_account token_flux.Store.in_tx token_flux.Ledger.Post.account_or_new
    token_flux.Ledger.Accounts.find_account token_flux.Ledger.Post.move_balance
    token_flux.Ledger.Accounts.affected
credit_account-Sets_example = credit_account-Sets calm_world small_credit start start-IsValid refl

debit_account-covers_example :
    (balance "user" 7 "credits" (debit_account calm_world small_debit funded).1 +ℤ pos 30
      ≡ balance "user" 7 "credits" funded)
    × (pos 0 ≤ℤ balance "user" 7 "credits" (debit_account calm_world small_debit funded).1)
unfolding debit_account balance token_flux.Ledger.Accounts.find_account token_flux.Store.in_tx
    token_flux.Ledger.Post.account_or_new token_flux.Ledger.Post.move_balance
    token_flux.Ledger.Accounts.affected
debit_account-covers_example =
    debit_account-covers calm_world small_debit funded funded-IsValid (omega arith, omega arith)
      (omega arith) refl

debit_account-decides_example :
    ((ltb_ℤ (balance "user" 7 "credits" funded) (pos 30) ≡ false)
      × ((r : TransactionInfo) × (s' : State) × (debit_account calm_world small_debit funded
            ≡ (ok r, s'))))
    ⊎ ((ltb_ℤ (balance "user" 7 "credits" funded) (pos 30) ≡ true)
        × ((s' : State) × (debit_account calm_world small_debit funded ≡ (err insufficient, s'))
            × (s'.tables ≡ funded.tables)))
debit_account-decides_example =
    debit_account-decides calm_world calm small_debit funded funded-IsValid

post_ledger-conserves_example :
    Moved asset_credits (pos 0) funded (post_ledger calm_world "settle" "test" 1 transfer funded).1
unfolding post_ledger int64 ◌+ℤ◌ token_flux.Ledger.Post.post_entries
    token_flux.Ledger.Post.post_entry token_flux.Ledger.Post.account_or_new
    token_flux.Ledger.Accounts.find_account token_flux.Ledger.Post.move_balance
    token_flux.Ledger.Accounts.affected token_flux.Ledger.Accounts.set_balance
post_ledger-conserves_example =
    post_ledger-conserves calm_world "settle" "test" 1 transfer funded funded-IsValid settle_tag
      refl

post_ledger_total_example :
    (is : List TransactionEntryInfo) × (s' : State) × (post_ledger calm_world "settle" "test" 1
        transfer funded
      ≡ (ok (20, is), s'))
unfolding post_ledger int64 ◌+ℤ◌
post_ledger_total_example =
    post_ledger_total calm_world calm "settle" "test" 1 transfer funded funded-IsValid refl refl

settle-conserves_example :
    IsValid (settle calm_world 5 funded).1
    × (residue (total asset_credits (settle calm_world 5 funded).1.tables.accounts)
        ≡ residue (total asset_credits funded.tables.accounts))
unfolding settle token_flux.Settlement.get_record token_flux.Settlement.find_record
    token_flux.Settlement.settle_pending token_flux.Settlement.settle_result token_flux.Store.in_tx
    token_flux.Settlement.settle_body post_ledger token_flux.Settlement.settle_entries int64
    token_flux.Base.◌*ℤ◌ ◌+ℤ◌ ◌-ℤ◌ token_flux.Ledger.Post.post_entries
    token_flux.Ledger.Post.post_entry token_flux.Ledger.Post.account_or_new
    token_flux.Ledger.Accounts.find_account token_flux.Ledger.Post.move_balance residue
    token_flux.Ledger.Accounts.affected token_flux.Ledger.Accounts.set_balance
    token_flux.Ledger.Post.credits_sum token_flux.Ledger.Post.found_or_insert
    token_flux.Ledger.Post.insert_account token_flux.Settlement.get_transaction
    token_flux.Settlement.update_record token_flux.Base.quot_ℤ
settle-conserves_example = settle-conserves calm_world 5 funded funded-IsValid refl

settle-pays_example :
    IsValid (settle calm_world 5 funded).1
    × (residue (balance "user" 7 asset_credits (settle calm_world 5 funded).1)
        ≡ residue (balance "user" 7 asset_credits funded +ℤ paid pending_settlement "user" 7))
unfolding settle token_flux.Settlement.get_record token_flux.Settlement.find_record
    token_flux.Settlement.settle_pending token_flux.Settlement.settle_result token_flux.Store.in_tx
    token_flux.Settlement.settle_body post_ledger token_flux.Settlement.settle_entries int64
    token_flux.Base.◌*ℤ◌ ◌+ℤ◌ ◌-ℤ◌ token_flux.Ledger.Post.post_entries
    token_flux.Ledger.Post.post_entry token_flux.Ledger.Post.account_or_new
    token_flux.Ledger.Accounts.find_account token_flux.Ledger.Post.move_balance residue
    token_flux.Ledger.Accounts.affected token_flux.Ledger.Accounts.set_balance
    token_flux.Ledger.Post.credits_sum token_flux.Ledger.Post.found_or_insert
    token_flux.Ledger.Post.insert_account token_flux.Settlement.get_transaction
    token_flux.Settlement.update_record token_flux.Base.quot_ℤ
settle-pays_example =
    settle-pays calm_world "user" 7 5 pending_settlement funded funded-IsValid refl refl refl

settle-fails_example : SameLedger funded (settle dead_world 5 funded).1
unfolding settle token_flux.Settlement.get_record
settle-fails_example = settle-fails dead_world 5 funded refl

settle_again_example : Same start (settle calm_world 6 start).1
unfolding settle token_flux.Settlement.find_record
settle_again_example = settle_again calm_world 6 start settled_settlement refl refl

create_recharge_again_example :
    (create_recharge calm_world repeated_recharge start).1.tables ≡ start.tables
unfolding find_by_ref
create_recharge_again_example =
    create_recharge_again calm_world repeated_recharge start pending_settlement refl

confirm_order_again_example :
    ((confirm_order calm_world "A1" "T2" "alipay" "{}" start).1.tables ≡ start.tables)
    × (calm_world.fails 0 ≡ false
        → (confirm_order calm_world "A1" "T2" "alipay" "{}" start).0 ≡ ok tt)
unfolding find_order
confirm_order_again_example =
    confirm_order_again calm_world "A1" "T2" "alipay" "{}" start paid_order (refl, refl)

process_settlement-Outcome_example :
    (o : Option SettlementTask) × (s' : State) × (process_settlement dead_world none sample_task
        start
      ≡ (ok o, s'))
    × Outcome dead_world sample_task start o s'
process_settlement-Outcome_example = process_settlement-Outcome dead_world none sample_task start

abbrev new_recharge : RechargeSettlementIn
new_recharge = record repeated_recharge { ref_id = 77 }

create_recharge-Moved_example :
    Moved asset_credits (pos 40) start (create_recharge calm_world new_recharge start).1
unfolding create_recharge find_by_ref token_flux.Settlement.get_record_by_ref
    token_flux.Recharge.recharge_found token_flux.Store.in_tx token_flux.Recharge.recharge_body
    token_flux.Recharge.recharge_inserted token_flux.Recharge.recharge_post post_ledger
    token_flux.Ledger.Post.post_entries token_flux.Ledger.Post.post_entry
    token_flux.Ledger.Post.account_or_new token_flux.Ledger.Accounts.find_account
    token_flux.Ledger.Post.move_balance token_flux.Ledger.Accounts.affected
create_recharge-Moved_example =
    create_recharge-Moved calm_world new_recharge start start-IsValid refl refl
