-- ===== src/Settlement/Paid.antt =====
-- What `Settle` of server/internal/logic/settlement/settlement.go pays to whom.
use token_flux.Base.{
  ℕ, ℤ, pos, ◌+ℤ◌, ◌-ℤ◌, ◌*ℤ◌, int64, eq_ℤ, ◌≡◌, refl, ap, sym, subst, ◌∙◌, true, false, String,
  some, Bool, List, [], ◌∷◌, ◌++◌, ◌&&◌, ◌==◌, str_eq, if◌then◌else◌, Bool-cases, inl, inr, arith,
  residue, int_laws,
}
use token_flux.Store.{
  World, State, SettlementRecord, Result, ok, ◌>>=◌, ◌>>◌, pure, clock, update, in_tx, get_int,
}
use token_flux.Store.Steps.{>>=-ok, ok_inj, tick, update-ok}
use token_flux.Store.Runs.{Same}
use token_flux.Store.Commits.{in_tx-ok}
use token_flux.Ledger.Post.{
  asset_points, owner_type_user, owner_type_platform, EntryDelta, post_ledger, tx_type_settle,
  asset_credits,
}
use token_flux.Ledger.Audit.{IsValid, tick-IsValid}
use token_flux.Ledger.Balances.{balance}
use token_flux.Ledger.Owners.{is_for, share, shares, Adds, post_ledger-Adds}
use token_flux.Billing.{TransactionInfo}
use token_flux.Settlement.{
  user_delta, find_record, set_record, settle_entries, points_entry, mark_settled, posted_info,
  settle_body, settle_tx, settle_pending, settle, get_record, get_transaction,
}
use token_flux.Settlement.Effects.{get_record-found, get_int-Keeps, settle_result-ok, Same-IsValid}

add_assoc : (a b c : ℤ) → a +ℤ (b +ℤ c) ≡ (a +ℤ b) +ℤ c
add_assoc a b c = omega int_laws

plus_zero : (a : ℤ) → a +ℤ pos 0 ≡ a
plus_zero a = omega int_laws

zero_twice : pos 0 +ℤ pos 0 ≡ pos 0
zero_twice = omega int_laws

-- An addition of nothing.
add_zero : {a b z : ℤ} → a ≡ b → z ≡ pos 0 → a +ℤ z ≡ b
add_zero {a} {b} {z} e f = (λ j. e j +ℤ f j) ∙ plus_zero b

and_true : (a b : Bool) → (a && (b && true)) ≡ (a && b)
and_true true true = refl
and_true true false = refl
and_true false b = refl

and_false : (a b : Bool) → (a && (b && false)) ≡ false
and_false true true = refl
and_false true false = refl
and_false false b = refl

shares-++ :
    (ot : String) (oi : ℕ) (k : String) (xs ys : List EntryDelta)
    → shares ot oi k (xs ++ ys) ≡ shares ot oi k xs +ℤ shares ot oi k ys
unfolding shares
shares-++ ot oi k [] ys = omega int_laws
shares-++ ot oi k (x ∷ xs) ys =
    ap (λ z. share ot oi k x +ℤ z) (shares-++ ot oi k xs ys)
    ∙ add_assoc (share ot oi k x) (shares ot oi k xs) (shares ot oi k ys)

-- Points are no credits.
points_entry-shares :
    (ot : String) (oi user : ℕ) (p : ℤ) → shares ot oi asset_credits (points_entry user p) ≡ pos 0
unfolding shares
points_entry-shares ot oi user p = elim (Bool-cases (eq_ℤ p (pos 0))) [
  | inl e ↦ rw e refl
  | inr e ↦
      let no : is_for ot oi asset_credits (user_delta user asset_points p) ≡ false =
        and_false (str_eq owner_type_user ot) (user == oi) in
      rw (e, no) zero_twice
]

abbrev pub only_for : Bool → ℤ → ℤ
only_for b d = if b then d else pos 0

-- The credits that settling a record adds to a balance: the cost is taken from the consumer, the revenue goes to the
-- provider and the commission to the platform.
abbrev pub paid : SettlementRecord → String → ℕ → ℤ
paid r ot oi =
    only_for (str_eq owner_type_user ot && r.consumer_user_id == oi)
      (int64 (pos 0 -ℤ r.cost_credits))
    +ℤ (only_for (str_eq owner_type_user ot && r.provider_user_id == oi) r.provider_revenue_credits
        +ℤ only_for (str_eq owner_type_platform ot && 0 == oi) r.commission_credits)

share-credits :
    (ot : String) (oi : ℕ) (owner : String) (id : ℕ) (d : ℤ)
    → share ot oi asset_credits
        (record { owner_type = owner; owner_id = id; asset = asset_credits; delta = d })
      ≡ only_for (str_eq owner ot && id == oi) d
share-credits ot oi owner id d = ap (λ b. only_for b d) (and_true (str_eq owner ot) (id == oi))

-- With the points left out, the entries of a settlement are these three.
settle_entries-shares :
    (r : SettlementRecord) (pc pp : ℤ) (ot : String) (oi : ℕ)
    → shares ot oi asset_credits (settle_entries r pc pp) ≡ paid r ot oi
unfolding settle_entries shares
settle_entries-shares r pc pp ot oi =
    let no_points =
      shares-++ ot oi asset_credits (points_entry r.consumer_user_id pc)
        (points_entry r.provider_user_id pp)
      ∙ (λ j.
          points_entry-shares ot oi r.consumer_user_id pc j
          +ℤ points_entry-shares ot oi r.provider_user_id pp j)
      ∙ zero_twice in
    λ j.
      share-credits ot oi owner_type_user r.consumer_user_id (int64 (pos 0 -ℤ r.cost_credits)) j
      +ℤ (share-credits ot oi owner_type_user r.provider_user_id r.provider_revenue_credits j
          +ℤ add_zero (share-credits ot oi owner_type_platform 0 r.commission_credits) no_points j)

module _ (w : World) (ot : String) (oi : ℕ) where
  abbrev Pays : SettlementRecord → State → State → Type 0
  Pays r s s' = Adds w ot oi asset_credits (paid r ot oi) s s'

  settle_body-Pays :
      (r : SettlementRecord) (pc pp : ℤ) (s : State) {t : TransactionInfo} {s' : State}
      → IsValid s
      → settle_body w r pc pp s ≡ (ok t, s')
      → Pays r s s'
  unfolding settle_body balance
  settle_body-Pays r pc pp s {t} {s'} v h =
      let ((tx, is), u, hl, hr) =
        >>=-ok (post_ledger w tx_type_settle "settlement_record" r.id (settle_entries r pc pp))
          (λ posted. clock w >>= λ now.
            update w (λ t. tt) (set_record r.id (mark_settled now posted.0 pc pp))
            >> pure (posted_info tx_type_settle r.id posted.0 posted.1))
          s h in
      let m =
        post_ledger-Adds w ot oi asset_credits tx_type_settle "settlement_record" r.id
          (settle_entries r pc pp) s v hl in
      let (_, es) = ok_inj (
        update-ok w (λ t. tt) (set_record r.id (mark_settled (w.now u.calls) tx pc pp))
          (λ _. pure (posted_info tx_type_settle r.id tx is)) u hr) in
      (
        subst IsValid es (record { fresh = m.0.fresh; known = m.0.known; audited = m.0.audited }),
        ap (λ z. residue (balance ot oi asset_credits z)) (sym es)
            ∙ m.1
            ∙ ap (λ d. residue (balance ot oi asset_credits s +ℤ d))
                (settle_entries-shares r pc pp ot oi),
      )

  settle_tx-Pays :
      (r : SettlementRecord) (pc pp : ℤ) (s : State) {t : TransactionInfo} {s' : State}
      → IsValid s
      → settle_tx w r pc pp s ≡ (ok t, s')
      → Pays r s s'
  unfolding balance
  settle_tx-Pays r pc pp s {t} {s'} v h =
      let (res, u) = in_tx w (settle_body w r pc pp) s in
      let (er, eu) = settle_result-ok w r res u h in
      let run : in_tx w (settle_body w r pc pp) s ≡ (ok t, s') = λ j. (er j, eu j) in
      let (b, hb, eb) = in_tx-ok w (settle_body w r pc pp) s run in
      let m = settle_body-Pays r pc pp (tick s) (tick-IsValid s v) hb in
      (
        subst IsValid (sym eb) (tick-IsValid b m.0),
        ap (λ z. residue (balance ot oi asset_credits z)) eb ∙ m.1,
      )

  -- What is paid from a state with the same tables is paid from this one.
  Same-Pays : (r : SettlementRecord) (s u s' : State) → Same s u → Pays r u s' → Pays r s s'
  unfolding balance
  Same-Pays r s u s' same (v, e) = (v, rw (← same.0) e)

  settle_pending-Pays :
      (r : SettlementRecord) (s : State) {t : TransactionInfo} {s' : State}
      → IsValid s
      → settle_pending w r s ≡ (ok t, s')
      → Pays r s s'
  unfolding settle_pending
  settle_pending-Pays r s {t} {s'} v h =
      let next = λ (a b : ℤ).
        settle_tx w r (int64 (r.cost_credits *ℤ a)) (int64 (r.provider_revenue_credits *ℤ b)) in
      let rest = λ (a : ℤ). get_int w "billing.points_per_credit_provider" (pos 1) >>= next a in
      let (a, u, ha, hr) =
        >>=-ok (get_int w "billing.points_per_credit_consumer" (pos 1)) rest s h in
      let (b, z, hb, hz) =
        >>=-ok (get_int w "billing.points_per_credit_provider" (pos 1)) (next a) u hr in
      let su = subst (λ (r : Result _ × State). Same s r.1) ha (get_int-Keeps w _ (pos 1) s) in
      let uz = subst (λ (r : Result _ × State). Same u r.1) hb (get_int-Keeps w _ (pos 1) u) in
      let sz : Same s z = (uz.0 ∙ su.0, uz.1 ∙ su.1) in
      Same-Pays r s z s' sz (settle_tx-Pays r _ _ z (Same-IsValid s z sz v) hz)

  -- Settling a record that is not settled yet, when it returns a transaction, keeps a valid ledger valid and moves the
  -- credits of every owner, modulo 2^64, by the sum of what the record has for it: minus the cost for the consumer, the
  -- revenue for the provider, the commission for the platform, and nothing for anybody else.
  pub settle-pays :
      (id : ℕ) (r : SettlementRecord) (s : State) {t : TransactionInfo} {s' : State}
      → IsValid s
      → find_record id s.tables.records ≡ some r
      → str_eq r.status "settled" ≡ false
      → settle w id s ≡ (ok t, s')
      → IsValid s'
        × (residue (balance ot oi asset_credits s')
            ≡ residue (balance ot oi asset_credits s +ℤ paid r ot oi))
  unfolding settle
  settle-pays id r s {t} {s'} v found new h =
      let next = λ (r : SettlementRecord) (z : State).
        if str_eq r.status "settled"
        then get_transaction w r.transaction_id z
        else settle_pending w r z in
      let (a, u, ha, hn) = >>=-ok (get_record w id) next s h in
      let (fa, eu) = get_record-found w id s ha in
      let e : a ≡ r = ground arith in
      let hr : settle_pending w r (tick s) ≡ (ok t, s') = rw (e, eu, new) at hn in
      Same-Pays r s (tick s) s' (refl, refl) (settle_pending-Pays r (tick s) (tick-IsValid s v) hr)
