-- ===== src/Tests/PayableRuns.antt =====
-- The theorems on supplier bills, payments and credits at a bill for ten drills.
use ghazatech_inventory_be.Prelude.{
  ℕ, ◌+◌, ◌≡◌, refl, arith, true, false, Option, none, some, List, [], ◌∷◌, length,
}
use ghazatech_inventory_be.Prelude.Decimal.{round_half_up}
use ghazatech_inventory_be.Prelude.Int.{pos, ◌*ℤ◌}
use ghazatech_inventory_be.Prelude.Result.{ok, err}
use ghazatech_inventory_be.Numbering.{Suffix, first_sequence, next_free, next_sequence}
use ghazatech_inventory_be.Numbering.Free.{IsFirstFree, next_sequence_ends}
use ghazatech_inventory_be.Payables.{
  BillStatus, PaymentMethod, SupplierBill, SupplierPayment, Ledger,
}
use ghazatech_inventory_be.Payables.BillCheck.{
  OrderRef, GrnItemRef, GrnRef, ItemRequest, BillRequest, item_errors, bill_errors,
}
use ghazatech_inventory_be.Payables.Bill.{create_bill, save_items, new_bill}
use ghazatech_inventory_be.Payables.Approval.{approve_bill}
use ghazatech_inventory_be.Payables.Billed.{AllBillable, approve_bill-effect}
use ghazatech_inventory_be.Payables.Payment.{
  PaymentRequest, check_allocation, check_allocations, create_payment, new_payment, payment_errors,
  settle, validate_allocations, issued,
}
use ghazatech_inventory_be.Payables.Outstanding.{AllReconciled, outstanding}
use ghazatech_inventory_be.Payables.Paid.{create_payment-effect, share_total}
use ghazatech_inventory_be.Payables.Accepted.{create_payment_succeeds}
use ghazatech_inventory_be.Payables.Credit.{CreditStatus, CreditError, VendorCredit}
use ghazatech_inventory_be.Payables.CreditActions.{
  Answer, Reply, apply_shares, post, update_status, void_credit,
}
use ghazatech_inventory_be.Payables.Credited.{post-effect, post_once}
use ghazatech_inventory_be.Payables.Steps.{run-AllReconciled, Run, Step}
use ghazatech_inventory_be.Tests.TransferData.{result_or}

abbrev suffix : ℕ → Suffix
suffix n = record { value = some n; padded = true; in_month = true }

abbrev first_row : List Suffix → Option Suffix
first_row [] = none
first_row (row ∷ rows) = some row

abbrev three_rows : List Suffix
three_rows = suffix 1 ∷ suffix 2 ∷ suffix 3 ∷ []

-- The fourth number is the first free one, although the row listed first is the first.
next_sequence_ends_example :
    (n : ℕ) × (next_sequence first_row three_rows ≡ some n) × IsFirstFree 2 three_rows n
next_sequence_ends_example = next_sequence_ends first_row three_rows

abbrev order : OrderRef
order = record { pk = 4; supplier = 7; branch = 2; allowed = true }

abbrev drills : GrnItemRef
drills = record {
  pk = 3;
  grn = 5;
  product = 1;
  variant = none;
  accepted_quantity = 10;
  received_quantity = 10;
  qc_passed = true;
}

abbrev note : GrnRef
note = record {
  pk = 5;
  purchase_order = order;
  supplier = 7;
  branch = 2;
  confirmed = true;
  items = drills ∷ [];
}

abbrev bill_request : BillRequest
bill_request = record {
  status = BillStatus.draft;
  purchase_order = some order;
  grn = some note;
  supplier = none;
  branch = none;
  supplier_invoice_number = some 88;
  bill_date = some 100;
  due_date = some 130;
  discount_amount = pos 0;
}

-- Ten drills at ten dirhams with five percent of tax.
abbrev line_request : ItemRequest
line_request = record {
  grn_item = drills;
  product = 1;
  variant = none;
  bill_quantity = 10;
  unit_cost = pos 1_000;
  discount_amount = pos 0;
  vat_percentage = pos 500;
}

abbrev drafted : SupplierBill
unfolding round_half_up save_items
drafted =
    result_or (save_items (new_bill 1 1 7 2 bill_request) (line_request ∷ []))
      (new_bill 1 1 7 2 bill_request)

abbrev grn_items : ℕ → GrnItemRef
grn_items _ = drills

abbrev approved : SupplierBill
approved =
    result_or (approve_bill (some order) (some note) grn_items (drafted ∷ []) drafted) drafted

created_run : create_bill first_row 1 bill_request (line_request ∷ []) [] ≡ ok (drafted ∷ [])
unfolding create_bill save_items item_errors bill_errors next_sequence next_free round_half_up ◌*ℤ◌
    drafted
created_run = refl

approved_amounts : (approved.total_amount ≡ 10_500) × (approved.balance_due ≡ 10_500)
unfolding approve_bill round_half_up drafted approved save_items
approved_amounts = (refl, refl)

approve_bill-effect_example :
    AllBillable grn_items (drafted ∷ []) drafted drafted.items
    × (approved.paid_amount ≡ drafted.paid_amount)
    × (approved.paid_amount + approved.balance_due ≡ approved.total_amount)
unfolding approve_bill round_half_up drafted approved save_items
approve_bill-effect_example =
    approve_bill-effect (some order) (some note) grn_items (drafted ∷ []) drafted {out = approved}
      refl refl

-- Forty of the hundred and five dirhams by bank transfer.
abbrev payment_request : PaymentRequest
payment_request = record {
  supplier = some (record { pk = 7; branch = some 2 });
  branch = some 2;
  payment_method = some PaymentMethod.bank_transfer;
  bank_account = some 9;
  cash_register = none;
  amount = pos 4_000;
  cheque_number = none;
  cheque_date = none;
  allocations = record { bill = 1; amount = pos 4_000 } ∷ [];
}

-- A bill of 105 dirhams that is approved.
abbrev owed : SupplierBill
owed = record {
  pk = 1;
  bill_number = suffix 1;
  supplier_invoice_number = some 88;
  supplier = 7;
  branch = 2;
  purchase_order = some 4;
  grn = some 5;
  items = [];
  subtotal = 10_000;
  discount_amount = pos 0;
  vat_amount = 500;
  total_amount = 10_500;
  paid_amount = 0;
  balance_due = 10_500;
  status = BillStatus.unpaid;
  matched = true;
  approved = true;
}

abbrev books : Ledger
books = record { bills = owed ∷ []; payments = [] }

abbrev paid_part : SupplierPayment × Ledger
unfolding create_payment payment_errors validate_allocations check_allocations check_allocation
    settle next_sequence next_free
paid_part =
    result_or (create_payment first_row payment_request books)
      (new_payment payment_request 7 2 1 [], books)

create_payment-effect_example :
    (share_total paid_part.0.allocations ≡ paid_part.0.amount)
    × (outstanding paid_part.1.bills + paid_part.0.amount ≡ outstanding books.bills)
    × AllReconciled paid_part.1.bills
unfolding create_payment payment_errors validate_allocations check_allocations check_allocation
    settle next_sequence next_free paid_part
create_payment-effect_example =
    create_payment-effect first_row payment_request books {payment = paid_part.0}
      {ledger' = paid_part.1} (refl, tt) refl

create_payment_succeeds_example :
    (payment : SupplierPayment) × (ledger' : Ledger) × (n : ℕ) × (create_payment first_row
        payment_request books
      ≡ ok (payment, ledger'))
    × (payment.payment_number.value ≡ some n)
    × IsFirstFree
        (first_sequence (first_row (issued 2 books.payments)) (length (issued 2 books.payments)))
        (issued 2 books.payments)
        n
unfolding payment_errors
create_payment_succeeds_example =
    create_payment_succeeds first_row payment_request books (record { pk = 7; branch = some 2 }) 2
      refl refl refl refl refl ((owed, refl, refl, refl, refl, refl, ground arith), tt) refl

-- A credit of 63 dirhams, planned on the bill.
abbrev credit : VendorCredit
credit = record {
  pk = 6;
  credit_number = suffix 1;
  supplier_return = none;
  supplier = 7;
  branch = 2;
  purchase_order = some 4;
  return_lines = none;
  items = record { net = 600_000; tax_amount = 300 } ∷ [];
  applications = record { bill = 1; amount = 6_300 } ∷ [];
  subtotal = 6_000;
  tax_amount = 300;
  total_amount = 6_300;
  applied_amount = 0;
  remaining_amount = 6_300;
  status = CreditStatus.approved;
  posted = false;
}

abbrev posted : VendorCredit × List SupplierBill
unfolding post apply_shares round_half_up
posted = result_or (post credit (owed ∷ [])) (credit, [])

post-effect_example :
    (outstanding posted.1 + posted.0.applied_amount ≡ 10_500)
    × AllReconciled posted.1
    × (posted.0.applied_amount + posted.0.remaining_amount ≡ 6_300)
unfolding post apply_shares round_half_up posted
post-effect_example = post-effect credit (owed ∷ []) {out = posted} (refl, tt) (ground arith) refl

-- The request to open the posted credit again.
abbrev answered : Answer
unfolding post apply_shares round_half_up posted update_status
answered =
    result_or (update_status (λ bills. bills) (some CreditStatus.opened) posted.0 posted.1)
      (Reply.accepted, credit, [])

post_once_example :
    (post posted.0 posted.1 ≡ err CreditError.not_approved)
    × (void_credit posted.0 ≡ err CreditError.already_applied)
    × (answered.2 ≡ posted.1)
unfolding post apply_shares round_half_up posted update_status answered
post_once_example =
    post_once credit (owed ∷ []) {out = posted} (λ bills. bills) (some CreditStatus.opened) posted.1
      {answer = answered} refl refl refl

-- The bill is created and approved, and the payment made on it.
abbrev paid_books : SupplierPayment × Ledger
unfolding create_payment payment_errors validate_allocations check_allocations check_allocation
    settle next_sequence next_free drafted approved approve_bill save_items round_half_up
paid_books =
    result_or
      (create_payment first_row payment_request (record { bills = approved ∷ []; payments = [] }))
      (new_payment payment_request 7 2 1 [], books)

-- The bill is created, approved and paid in part.
run-AllReconciled_example : AllReconciled paid_books.1.bills
unfolding create_bill save_items item_errors bill_errors next_sequence next_free round_half_up ◌*ℤ◌
    drafted approved approve_bill paid_books create_payment payment_errors validate_allocations
    check_allocations check_allocation settle
run-AllReconciled_example = run-AllReconciled (
    Run.then
      (Run.then
        (Run.then Run.start (Step.created first_row 1 bill_request (line_request ∷ []) refl))
        (Step.approved 1 drafted approved (some order) (some note) grn_items refl refl))
      (Step.paid first_row payment_request (record { bills = approved ∷ []; payments = [] })
        paid_books.1 paid_books.0 refl))
