-- ===== src/Invoice.antt =====
-- server/internal/logic/invoice/invoice.go: the invoices of the users. Times are seconds.
use token_flux.Base.{
  ℕ, ◌%◌, ◌==◌, ℤ, Bool, false, String, Option, none, some, str_eq, if◌then◌else◌, ◌≡◌, arith,
}
use token_flux.Store.{ok, record_not_found}
use token_flux.Table.{
  Table, TableAction, ◌>>=◌, found_or, refuse_if, select_one, insert_row, update_rows,
}

pub record InvoiceRow : Type 0 where
  pub id : ℕ
  pub user_id : ℕ
  pub amount_credits : ℤ
  pub ref_type : String
  pub ref_id : ℕ
  pub invoice_number : String
  pub status : String
  pub notes : String
  pub issued_at : Option ℕ
  pub created_at : ℕ

pub record CreateInvoiceIn : Type 0 where
  pub user_id : ℕ
  pub amount_credits : ℤ
  pub ref_type : String
  pub ref_id : ℕ
  pub notes : String

abbrev pub invoice_of : CreateInvoiceIn → String → ℕ → ℕ → InvoiceRow
invoice_of i number now id = record {
  id = id;
  user_id = i.user_id;
  amount_credits = i.amount_credits;
  ref_type = i.ref_type;
  ref_id = i.ref_id;
  invoice_number = number;
  status = "pending";
  notes = i.notes;
  issued_at = none;
  created_at = now;
}

-- The columns that `UpdateStatus` sets.
abbrev pub restated : ℕ → String → String → InvoiceRow → InvoiceRow
restated now status notes r = record r {
  status = status;
  issued_at = if str_eq status "issued" then some now else r.issued_at;
  notes = if str_eq notes "" then r.notes else notes;
}

module _ (fails : ℕ → Bool) where
  -- `Get`; identifiers start at 1.
  unfoldable pub get_invoice : ℕ → TableAction InvoiceRow InvoiceRow
  get_invoice id = select_one fails (λ r. r.id == id) >>= λ row. found_or row record_not_found

  -- `Create`: `number` prints the second and the user modulo 100000.
  unfoldable pub create_invoice :
      (ℕ → ℕ → String) → ℕ → CreateInvoiceIn → TableAction InvoiceRow InvoiceRow
  unfolding get_invoice
  create_invoice number now i =
      insert_row fails (λ r. false) (invoice_of i (number now (i.user_id % 100000)) now)
      >>= get_invoice

  -- `UpdateStatus`
  unfoldable pub update_invoice_status : ℕ → ℕ → String → String → TableAction InvoiceRow (Unit {0})
  update_invoice_status now id status notes =
      update_rows fails (λ r. r.id == id) (restated now status notes) >>= λ affected.
      refuse_if (affected == 0) record_not_found

  -- What is created is what is read back: a pending invoice with the data given.
  pub create_invoice-returns :
      (number : ℕ → ℕ → String) (now : ℕ) (i : CreateInvoiceIn) (t t' : Table InvoiceRow)
      (r : InvoiceRow)
      → create_invoice number now i t ≡ (ok r, t')
      → r ≡ invoice_of i (number now (i.user_id % 100000)) now t.next_id
  unfolding create_invoice get_invoice
  create_invoice-returns number now i t t' r h = ground arith
