-- ===== src/Sales/Receipts.antt =====
-- Customer payments: `SalesPaymentSerializer` of apps/sales/serializers.py, the payment actions and
-- `void` of an invoice in apps/sales/views.py. Amounts are hundredths of a dirham; a request's are
-- integers, since the checks refuse those that are not positive. The entries in the general ledger
-- (`post_sales_payment` and `reverse_sales_invoice` of apps/finance/accounting.py) are parameters here
-- and stand in the modules of that app. The row that a request makes or edits has its number `pk`.
use ghazatech_inventory_be.Prelude.{
  ℕ, ◌+◌, ◌-◌, Bool, true, false, not, ◌&&◌, Option, none, some, List, [], ◌∷◌, ◌++◌, map, find,
  put, select, length, ltb, ◌==◌, if◌then◌else◌,
}
use ghazatech_inventory_be.Prelude.Int.{ℤ, pos, pos_part, ltb_ℤ}
use ghazatech_inventory_be.Prelude.Result.{Result, ok, raise_if, or_raise, ◌>>=◌, ◌>>◌}
use ghazatech_inventory_be.Numbering.{Suffix, is_taken}

pub data InvoiceStatus : Type 0 where
  unpaid partially_paid paid overdue void : InvoiceStatus

pub record SalesInvoice : Type 0 where
  pub pk : ℕ
  pub total_amount : ℕ
  pub paid_amount : ℕ
  pub balance_due : ℕ
  pub payment_status : InvoiceStatus

pub data PaymentStatus : Type 0 where
  draft pending cleared failed reversed : PaymentStatus

pub data PaymentMethod : Type 0 where
  cash bank_transfer card cheque other : PaymentMethod

pub record SalesPayment : Type 0 where
  pub pk : ℕ
  pub payment_number : Suffix
  pub invoice : ℕ
  pub amount : ℕ
  pub payment_method : Option PaymentMethod
  pub bank_account : Option ℕ
  pub cash_register : Option ℕ
  pub status : Option PaymentStatus

-- The fields of a request, or the stored payment's where the request has none.
pub record ReceiptRequest : Type 0 where
  pub invoice : Option ℕ
  pub amount : ℤ
  pub payment_method : Option PaymentMethod
  pub bank_account : Option ℕ
  pub cash_register : Option ℕ
  pub status : Option PaymentStatus

pub data ReceiptError : Type 0 where
  no_invoice amount_not_positive void_invoice exceeds_balance : ReceiptError
  no_cash_register no_bank_account no_money_source duplicate_number : ReceiptError
  cleared_payment missing_payment paid_invoice not_posted : ReceiptError

pub record Receipts (B : Type 0) : Type 0 where
  pub invoices : List SalesInvoice
  pub payments : List SalesPayment
  pub books : B

abbrev pub is_invoice : ℕ → SalesInvoice → Bool
is_invoice pk i = i.pk == pk

abbrev pub is_payment : ℕ → SalesPayment → Bool
is_payment pk p = p.pk == pk

abbrev pub is_void : InvoiceStatus → Bool
is_void InvoiceStatus.void = true
is_void _ = false

abbrev pub is_cleared : Option PaymentStatus → Bool
is_cleared (some PaymentStatus.cleared) = true
is_cleared _ = false

abbrev is_missing : Option ℕ → Bool
is_missing none = true
is_missing (some _) = false

-- The source of money that the method needs.
abbrev pub check_method :
    Option PaymentMethod → Option ℕ → Option ℕ → Result ReceiptError (Unit {0})
check_method none bank register = ok tt
check_method (some PaymentMethod.cash) bank register =
    raise_if (is_missing register) ReceiptError.no_cash_register
check_method (some PaymentMethod.other) bank register =
    raise_if (is_missing bank && is_missing register) ReceiptError.no_money_source
check_method (some _) bank register = raise_if (is_missing bank) ReceiptError.no_bank_account

abbrev kept_bank : Option PaymentMethod → Option ℕ → Option ℕ
kept_bank (some PaymentMethod.cash) bank = none
kept_bank _ bank = bank

abbrev kept_register : Option PaymentMethod → Option ℕ → Option ℕ
kept_register (some PaymentMethod.bank_transfer) register = none
kept_register (some PaymentMethod.card) register = none
kept_register (some PaymentMethod.cheque) register = none
kept_register _ register = register

-- `validate`: the invoice that the payment is for.
unfoldable pub validate_receipt :
    List SalesInvoice → ReceiptRequest → Result ReceiptError SalesInvoice
validate_receipt invoices r = or_raise r.invoice ReceiptError.no_invoice >>= λ pk.
    or_raise (find (is_invoice pk) invoices) ReceiptError.no_invoice >>= λ i.
    raise_if (not (ltb_ℤ (pos 0) r.amount)) ReceiptError.amount_not_positive
    >> raise_if (is_void i.payment_status) ReceiptError.void_invoice
    >> raise_if (ltb_ℤ (pos i.balance_due) r.amount) ReceiptError.exceeds_balance
    >> check_method r.payment_method r.bank_account r.cash_register
    >> ok i

-- What the validated request writes.
abbrev pub with_request : ReceiptRequest → SalesInvoice → ℕ → Suffix → SalesPayment
with_request r i pk number = record {
  pk = pk;
  payment_number = number;
  invoice = i.pk;
  amount = pos_part r.amount;
  payment_method = r.payment_method;
  bank_account = kept_bank r.payment_method r.bank_account;
  cash_register = kept_register r.payment_method r.cash_register;
  status = r.status;
}

-- The sum of the invoice's cleared payments.
abbrev pub total_paid : ℕ → List SalesPayment → ℕ
total_paid pk [] = 0
total_paid pk (p ∷ payments) =
    let rest = total_paid pk payments in
    if (p.invoice == pk) && is_cleared p.status then p.amount + rest else rest

-- `_update_invoice`
abbrev pub recounted : List SalesPayment → SalesInvoice → SalesInvoice
recounted payments i =
    let paid_amount = total_paid i.pk payments in
    let balance_due = i.total_amount - paid_amount in
    record i {
      paid_amount = paid_amount;
      balance_due = balance_due;
      payment_status =
          if balance_due == 0
          then InvoiceStatus.paid
          else if ltb 0 paid_amount
          then InvoiceStatus.partially_paid
          else InvoiceStatus.unpaid;
    }

-- `_generate_number`: the month's payments and one.
abbrev pub month_numbers : List SalesPayment → List Suffix
month_numbers payments = select (λ n. n.in_month) (map (λ p. p.payment_number) payments)

abbrev pub next_number : List SalesPayment → Suffix
next_number payments = record {
  value = some (length (month_numbers payments) + 1);
  padded = true;
  in_month = true;
}

module _ {B : Type 0} (post : SalesPayment → B → Result ReceiptError B) where
  abbrev pub post_cleared : SalesPayment → B → Result ReceiptError B
  post_cleared p books = if is_cleared p.status then post p books else ok books

  -- `perform_create`; a number that is taken violates the table's constraint.
  unfoldable pub create_receipt : ℕ → ReceiptRequest → Receipts B → Result ReceiptError (Receipts B)
  create_receipt pk r s = validate_receipt s.invoices r >>= λ i.
      raise_if (is_taken (length (month_numbers s.payments) + 1) (month_numbers s.payments))
        ReceiptError.duplicate_number
      >> let p = with_request r i pk (next_number s.payments) in
        let payments = s.payments ++ p ∷ [] in
        post_cleared p s.books >>= λ books. ok (record {
          invoices =
              if is_cleared r.status
              then put (is_invoice i.pk) (recounted payments i) s.invoices
              else s.invoices;
          payments = payments;
          books = books;
        })

  -- `perform_update`: the serializer's own `update` writes the fields and nothing else.
  unfoldable pub update_receipt : ℕ → ReceiptRequest → Receipts B → Result ReceiptError (Receipts B)
  update_receipt pk r s =
      or_raise (find (is_payment pk) s.payments) ReceiptError.missing_payment >>= λ old.
      raise_if (is_cleared old.status) ReceiptError.cleared_payment
      >> validate_receipt s.invoices r
      >>= λ i.
          let p = with_request r i pk old.payment_number in
          post_cleared p s.books >>= λ books.
          ok (record s { payments = put (is_payment pk) p s.payments; books = books })

-- `destroy`
unfoldable pub delete_receipt : {B : Type 0} → ℕ → Receipts B → Result ReceiptError (Receipts B)
delete_receipt pk s =
    or_raise (find (is_payment pk) s.payments) ReceiptError.missing_payment >>= λ old.
    raise_if (is_cleared old.status) ReceiptError.cleared_payment
    >> ok (record s { payments = select (λ p. not (is_payment pk p)) s.payments })

-- `void` of an invoice, with the reversal of its entry in the general ledger.
unfoldable pub void_sales_invoice :
    {B : Type 0}
    → (SalesInvoice → B → Result ReceiptError B)
    → SalesInvoice
    → Receipts B
    → Result ReceiptError (Receipts B)
void_sales_invoice reverse i s =
    raise_if (ltb 0 i.paid_amount) ReceiptError.paid_invoice
    >> let voided = record i { payment_status = InvoiceStatus.void; balance_due = 0 } in
      reverse voided s.books >>= λ books.
      ok (record s { invoices = put (is_invoice i.pk) voided s.invoices; books = books })
