-- ===== src/Billing/Ensured.antt =====
-- `EnsureAccount` of server/internal/logic/billing/billing.go changes no balance.
use token_flux.Base.{ℕ, ◌≡◌, sym, ap, ◌∙◌, String, none, some, arith, inl, inr, ◌⊎◌}
use token_flux.Store.{World, State, Account, ok}
use token_flux.Store.Steps.{tick}
use token_flux.Ledger.Accounts.{find_account}
use token_flux.Ledger.Balances.{balance, balance_of, created-balance}
use token_flux.Ledger.Moves.{created}
use token_flux.Billing.{query_account, ensured, ensure_account}

ensure_account-ok :
    (w : World) (ot : String) (oi : ℕ) (k : String) (s s' : State) (acc : Account)
    → ensure_account w ot oi k s ≡ (ok acc, s')
    → ((find_account ot oi k s.tables.accounts ≡ some acc) × (s' ≡ tick s))
      ⊎ ((find_account ot oi k s.tables.accounts ≡ none)
          × (s' ≡ tick (created ot oi k (tick s)))
          × (find_account ot oi k s'.tables.accounts ≡ some acc))
unfolding ensure_account ensured query_account
ensure_account-ok w ot oi k s s' acc h = ground arith

-- An account that is ensured has the balance that its owner had, 0 if there was no account, and the
-- balance of every account stays what it was.
pub ensure_account-balance :
    (w : World) (ot : String) (oi : ℕ) (k : String) (ot' : String) (oi' : ℕ) (k' : String)
    (s s' : State) (acc : Account)
    → ensure_account w ot oi k s ≡ (ok acc, s')
    → (acc.balance_micro ≡ balance ot oi k s) × (balance ot' oi' k' s' ≡ balance ot' oi' k' s)
unfolding balance
ensure_account-balance w ot oi k ot' oi' k' s s' acc h =
    elim (ensure_account-ok w ot oi k s s' acc h) [
      | inl (e, es) ↦ (sym (ap balance_of e), ap (balance ot' oi' k') es)
      | inr (e, es, f) ↦
          let kept =
            λ (a : String) (b : ℕ) (c : String). created-balance ot oi k a b c (tick s) e in
          (
            sym (ap balance_of f) ∙ ap (balance ot oi k) es ∙ kept ot oi k,
            ap (balance ot' oi' k') es ∙ kept ot' oi' k',
          )
    ]
