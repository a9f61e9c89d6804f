-- ===== src/Settlement/Conserving.antt =====
-- `SubmitAndSettle` as a step that keeps the ledger and the total of the credits, whatever its result.
use token_flux.Base.{ℕ, ◌≤◌, ◌≡◌, refl, ap, subst, ◌∙◌, Option, arith, residue}
use token_flux.Store.{
  World, State, Tables, SettlementRecord, Result, ok, err, Action, or_raise, attempt, insert,
}
use token_flux.Store.Steps.{inserted}
use token_flux.Store.Runs.{
  Keeps, Tracking, Runs, >>=-Runs, attempt-Runs, or_raise-Runs, query-Runs, insert-Runs,
}
use token_flux.Ledger.Totals.{total, Below-mono}
use token_flux.Ledger.Audit.{IsValid, Known-mono, tick-IsValid}
use token_flux.Ledger.Post.{asset_credits}
use token_flux.Billing.{TransactionInfo}
use token_flux.Settlement.{
  find_by_ref, SettlementSubmitIn, settle, get_record, get_record_by_ref, has_ref, add_record,
  submitted_record, submitted, submit, submit_and_settle,
}
use token_flux.Settlement.Effects.{get_record-Keeps}
use token_flux.Settlement.Outcome.{settle-conserves, settle-fails}
use token_flux.Settlement.Growing.{settle-growing}

-- The ledger stays valid, and the total of the credit balances stays modulo 2^64.
abbrev pub Conserved : State → State → Type 0
Conserved s t =
    IsValid s
    → IsValid t
      × (residue (total asset_credits t.tables.accounts)
          ≡ residue (total asset_credits s.tables.accounts))

abbrev pub conserving : Tracking
conserving = record {
  Relates = Conserved;
  here = λ s v. (v, refl);
  join = λ s t u h k v. let a = h v in let b = k a.0 in (b.0, b.1 ∙ a.1);
  ticks = λ s v. (tick-IsValid s v, refl);
}

-- A step that leaves the accounts and the entries alone.
pub aside-Conserved :
    (s t : State)
    → s.next_id ≤ t.next_id
    → t.tables.accounts ≡ s.tables.accounts
    → t.tables.entries ≡ s.tables.entries
    → Conserved s t
aside-Conserved s t n a e v = (
  record {
    fresh = rw a (Below-mono s.next_id t.next_id s.tables.accounts n v.fresh);
    known = rw e (Known-mono s.next_id t.next_id s.tables.entries n v.known);
    audited = rw (a, e) v.audited;
  },
  ap (λ rows. residue (total asset_credits rows)) a,
)

pub Keeps-conserving : {A : Type 0} (m : Action A) → Keeps m → Runs conserving m
Keeps-conserving m h s =
    let same = h s in
    aside-Conserved s (m s).1 (omega (arith, same.1)) (ap (λ (t : Tables). t.accounts) same.0)
      (ap (λ (t : Tables). t.entries) same.0)

module _ (w : World) where
  settle-conserving : (id : ℕ) → Runs conserving (settle w id)
  settle-conserving id s = cases (settle w id s) refl
    where
      cases : (r : Result TransactionInfo × State) → settle w id s ≡ r → Conserved s r.1
      cases (ok t, s') e u = settle-conserves w id s u e
      cases (err x, s') e u =
          let same = settle-fails w id s e in
          let n : s.next_id ≤ s'.next_id =
            subst (λ (r : Result TransactionInfo × State). s.next_id ≤ r.1.next_id) e
              (settle-growing w id s) in
          aside-Conserved s s' n same.0 same.2 u

  submitted-conserving :
      (i : SettlementSubmitIn) (r : Result ℕ) → Runs conserving (λ s. submitted w i s r)
  unfolding get_record_by_ref
  submitted-conserving i (ok id) s = Keeps-conserving (get_record w id) (get_record-Keeps w id) s
  submitted-conserving i (err e) s =
      let by_ref : Tables → Option SettlementRecord =
        λ t. find_by_ref i.ref_type i.ref_id t.records in
      >>=-Runs conserving (get_record_by_ref w i.ref_type i.ref_id) (λ o. or_raise o e)
        (query-Runs conserving w by_ref) (λ o. or_raise-Runs conserving o e) s

  submit-conserving : (i : SettlementSubmitIn) → Runs conserving (submit w i)
  unfolding submit
  submit-conserving i =
      let new = add_record (submitted_record i) in
      let clash = has_ref i.ref_type i.ref_id in
      >>=-Runs conserving (attempt (insert w clash new)) (λ r s. submitted w i s r)
        (attempt-Runs conserving (insert w clash new) (
          insert-Runs conserving w clash new
            λ s. aside-Conserved s (inserted new s) (omega arith) refl refl))
        (submitted-conserving i)

  -- Submitting a settlement and settling it keeps the ledger valid and the total of the credits, whatever fails.
  pub submit_and_settle-conserving :
      (i : SettlementSubmitIn) → Runs conserving (submit_and_settle w i)
  unfolding submit_and_settle
  submit_and_settle-conserving i =
      >>=-Runs conserving (submit w i) (λ r. settle w r.id) (submit-conserving i)
        λ r. settle-conserving r.id
