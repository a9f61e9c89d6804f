-- ===== src/Recharge/Once.antt =====
-- A recharge is credited once for each reference.
use token_flux.Base.{◌≡◌, refl, sym, subst, ap, ◌∙◌, Option, some, ◌==◌, Bool-cases, inl, inr}
use token_flux.Store.{World, State, Tables, SettlementRecord, Error, Result, query, no_transaction}
use token_flux.Store.Steps.{>>=-cases}
use token_flux.Store.Runs.{Same, query-Runs, keeping}
use token_flux.Store.Outcomes.{query-found}
use token_flux.Billing.{TransactionInfo}
use token_flux.Settlement.{RechargeSettlementIn, find_by_ref, get_record_by_ref}
use token_flux.Settlement.Effects.{get_transaction-Keeps}
use token_flux.Recharge.{create_recharge, recharge_found, recharged_before}

recharged_before-Keeps :
    (w : World) (e : Error) (r : SettlementRecord) (s : State)
    → Same s (recharged_before w e s (some r)).1
unfolding recharged_before
recharged_before-Keeps w e r s = elim (Bool-cases (r.transaction_id == 0)) [
  | inl h ↦ rw h (refl, refl)
  | inr h ↦ rw h (get_transaction-Keeps w r.transaction_id s)
]

module _ (w : World) (i : RechargeSettlementIn) (s : State) (r : SettlementRecord) where
  -- Once there is a record for the reference, creating the recharge again changes no table: nothing is
  -- credited twice, whichever statement fails.
  pub create_recharge_again :
      find_by_ref i.ref_type i.ref_id s.tables.records ≡ some r
      → (create_recharge w i s).1.tables ≡ s.tables
  unfolding create_recharge recharge_found get_record_by_ref
  create_recharge_again h =
      let look = λ (t : Tables). find_by_ref i.ref_type i.ref_id t.records in
      >>=-cases (λ (x : Result TransactionInfo × State). x.1.tables ≡ s.tables) (query w look)
        (λ existing t. recharge_found w i t existing) s
        (λ a t e.
          let (fa, ft) = query-found w look s e in
          subst (λ (o : Option SettlementRecord). (recharge_found w i t o).1.tables ≡ s.tables)
            (sym (fa ∙ h))
            ((recharged_before-Keeps w no_transaction r t).0 ∙ ap (λ (u : State). u.tables) ft))
        (λ x t e.
          subst (λ (v : Result _ × State). v.1.tables ≡ s.tables) e (query-Runs keeping w look s).0)
