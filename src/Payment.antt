-- ===== src/Payment.antt =====
-- `confirmOrder` of server/internal/logic/payment/payment.go: a payment channel's verified notification
-- marks the order paid, credits the account, and marks the order credited.
pub mod Once
use Prim.Native.String.{◌++◌ as str_append}
use token_flux.Base.{
  ℕ, ℤ, Bool, true, false, String, Option, none, some, List, [], ◌∷◌, ◌==◌, str_eq, first,
  if◌then◌else◌,
}
use token_flux.Store.{
  World, State, Tables, PaymentOrder, Error, db, order_not_found, Result, ok, err, Action, ◌>>=◌,
  ◌>>◌, pure, query, update, clock,
}
use token_flux.Recharge.{recharge_credits}

unfoldable pub find_order : String → List PaymentOrder → Option PaymentOrder
find_order order_no = first (λ o. str_eq o.order_no order_no)

-- UPDATE payment_orders SET … WHERE id = ?
unfoldable pub update_order :
    ℕ → (PaymentOrder → PaymentOrder) → List PaymentOrder → List PaymentOrder
update_order id f [] = []
update_order id f (o ∷ os) = (if o.id == id then f o else o) ∷ update_order id f os

abbrev pub set_order : ℕ → (PaymentOrder → PaymentOrder) → Tables → Tables
set_order id f t = record t { orders = update_order id f t.orders }

abbrev pub mark_paid : String → String → ℕ → PaymentOrder → PaymentOrder
mark_paid trade_no notify_raw now o = record o {
  status = "paid";
  trade_no = trade_no;
  notify_raw = notify_raw;
  paid_at = some now;
}

abbrev pub mark_credited : ℕ → PaymentOrder → PaymentOrder
mark_credited now o = record o { status = "credited"; credited_at = some now }

-- `fmt.Sprintf("payment:%s", channel)`
abbrev pub ref_of : String → String
ref_of channel = str_append "payment:" channel

module _ (w : World) where
  abbrev pub credit_order : String → String → String → PaymentOrder → Action (Unit {0})
  credit_order trade_no channel notify_raw o = do
    now ← clock w
    update w (λ t. tt) (set_order o.id (mark_paid trade_no notify_raw now))
    recharge_credits w o.user_id o.amount_credits (ref_of channel) o.id
    later ← clock w
    update w (λ t. tt) (set_order o.id (mark_credited later))

  unfoldable pub confirm_found :
      String → String → String → State → Option PaymentOrder → Result (Unit {0}) × State
  confirm_found trade_no channel notify_raw s none =
      if w.empty_is_error then (err db, s) else (err order_not_found, s)
  confirm_found trade_no channel notify_raw s (some o) =
      if str_eq o.status "pending" then credit_order trade_no channel notify_raw o s else (ok tt, s)

  -- `confirmOrder`
  unfoldable pub confirm_order : String → String → String → String → Action (Unit {0})
  confirm_order order_no trade_no channel notify_raw = do
    o ← query w (λ t. find_order order_no t.orders)
    λ s. confirm_found trade_no channel notify_raw s o
