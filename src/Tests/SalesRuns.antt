-- ===== src/Tests/SalesRuns.antt =====
-- The theorems on customer payments, sales returns and point-of-sale sales at an invoice of a hundred
-- dirhams, an order item of ten units and a shop with ten drills.
use ghazatech_inventory_be.Prelude.{
  false, ℕ, ◌+◌, ◌≡◌, ◌≤◌, ◌<◌, refl, arith, true, none, some, List, [], ◌∷◌, inr, find,
}
use ghazatech_inventory_be.Prelude.Decimal.{round_half_up}
use ghazatech_inventory_be.Prelude.Int.{pos, ◌+ℤ◌, ◌*ℤ◌}
use ghazatech_inventory_be.Prelude.Result.{Result, ok}
use ghazatech_inventory_be.Tax.{calculate_inventory_tax}
use ghazatech_inventory_be.Inventory.Adjust.{
  adjust_stock, normalize_tax, revalued, weighted_cost, movement_of,
}
use ghazatech_inventory_be.Inventory.Shelf.{Shelf, adjust_at, empty_stock, stock_at}
use ghazatech_inventory_be.Transfer.Store.{StockKey}
use ghazatech_inventory_be.Sales.TaxLine.{
  Treatment, validate_tax_treatment, normalize_tax_treatment,
}
use ghazatech_inventory_be.Sales.PointOfSale.{
  Sale, SaleItem, SaleStatus, complete_sale, deduct_stock, return_stock, void_sale,
}
use ghazatech_inventory_be.Sales.Voided.{complete_sale-void_sale}
use ghazatech_inventory_be.Numbering.{Suffix}
use ghazatech_inventory_be.Sales.Receipts.{
  InvoiceStatus, PaymentMethod, PaymentStatus, ReceiptError, ReceiptRequest, Receipts, SalesInvoice,
  SalesPayment, create_receipt, is_invoice, total_paid, update_receipt, validate_receipt,
}
use ghazatech_inventory_be.Sales.Counted.{
  AllCounted, create_receipt-AllCounted, update_receipt_uncounted,
}
use ghazatech_inventory_be.Sales.Returns.{
  LineRequest, OrderItem, ReturnItem, ReturnRequest, ReturnStatus, SalesReturn, already_returned,
  check_lines, create_return, validate_return, quantity_of,
}
use ghazatech_inventory_be.Sales.ReturnActions.{submit}
use ghazatech_inventory_be.Sales.Returned.{create_return-within, submit_again}
use ghazatech_inventory_be.Tests.TransferData.{result_or}

-- The entries of the general ledger, as the numbers of the payments that were posted.
abbrev enter : SalesPayment → List ℕ → Result ReceiptError (List ℕ)
enter p books = ok (p.pk ∷ books)

abbrev invoice : SalesInvoice
invoice = record {
  pk = 1;
  total_amount = 10_000;
  paid_amount = 0;
  balance_due = 10_000;
  payment_status = InvoiceStatus.unpaid;
}

abbrev receipts : Receipts (List ℕ)
receipts = record { invoices = invoice ∷ []; payments = []; books = [] }

abbrev request : PaymentStatus → ReceiptRequest
request status = record {
  invoice = some 1;
  amount = pos 10_000;
  payment_method = some PaymentMethod.cash;
  bank_account = none;
  cash_register = some 3;
  status = some status;
}

abbrev received : Receipts (List ℕ)
unfolding create_receipt validate_receipt
received = result_or (create_receipt enter 5 (request PaymentStatus.cleared) receipts) receipts

create_receipt-AllCounted_example : AllCounted received.payments received.invoices
unfolding create_receipt validate_receipt received
create_receipt-AllCounted_example =
    create_receipt-AllCounted enter 5 (request PaymentStatus.cleared) receipts {s' = received}
      (refl, tt) ((refl, inr refl), tt) refl

-- The same payment, pending first.
abbrev waiting : Receipts (List ℕ)
unfolding create_receipt validate_receipt
waiting = result_or (create_receipt enter 5 (request PaymentStatus.pending) receipts) receipts

abbrev cleared_late : Receipts (List ℕ)
unfolding create_receipt validate_receipt update_receipt waiting
cleared_late = result_or (update_receipt enter 5 (request PaymentStatus.cleared) waiting) waiting

update_receipt_uncounted_example :
    (i : SalesInvoice) × (find (is_invoice i.pk) cleared_late.invoices ≡ some i)
    × (i.paid_amount < total_paid i.pk cleared_late.payments)
unfolding create_receipt validate_receipt update_receipt waiting cleared_late
update_receipt_uncounted_example =
    update_receipt_uncounted enter 5 (request PaymentStatus.cleared) waiting {s' = cleared_late}
      ((refl, inr refl), tt) refl refl

abbrev suffix : ℕ → Suffix
suffix n = record { value = some n; padded = true; in_month = true }

abbrev item : OrderItem
item = record { pk = 4; sales_order = 2; quantity = 1_000 }

abbrev six_units : ReturnItem
six_units = record {
  sales_order_item = 4;
  returned_quantity = 600;
  unit_price = 1_000;
  line_total = 6_000;
}

abbrev return_of : ℕ → ReturnStatus → SalesReturn
return_of pk status = record {
  pk = pk;
  return_number = suffix pk;
  sales_order = 2;
  status = status;
  items = six_units ∷ [];
  subtotal = 6_000;
  vat_amount = 300;
  total_amount = 6_300;
}

abbrev four_units : List LineRequest
four_units =
    record { sales_order_item = some item; returned_quantity = pos 400; unit_price = 1_000 } ∷ []

abbrev return_request : ReturnRequest
return_request = record {
  sales_order = some 2;
  status = ReturnStatus.draft;
  items = some four_units;
}

abbrev one_return : List SalesReturn
one_return = return_of 1 ReturnStatus.approved ∷ []

abbrev two_returns : List SalesReturn
unfolding create_return validate_return check_lines round_half_up
two_returns = result_or (create_return 2 return_request one_return) []

create_return-within_example : already_returned none 4 two_returns ≤ 1_000
unfolding create_return validate_return check_lines round_half_up two_returns
create_return-within_example =
    create_return-within item 2 return_request four_units one_return {returns' = two_returns}
      (ground arith) refl (inr refl, tt) refl refl

-- Six units were rejected, then six were returned by another return.
abbrev after_rejection : List SalesReturn
after_rejection = return_of 1 ReturnStatus.rejected ∷ return_of 2 ReturnStatus.approved ∷ []

abbrev resubmitted : List SalesReturn
unfolding submit
resubmitted = result_or (submit 1 after_rejection) []

submit_again_example :
    already_returned none 4 resubmitted
    ≡ already_returned none 4 after_rejection + quantity_of 4 (six_units ∷ [])
unfolding submit resubmitted
submit_again_example =
    submit_again 1 4 (return_of 1 ReturnStatus.rejected) after_rejection {returns' = resubmitted}
      refl refl refl

-- Twelve units of the ten that were sold.
resubmitted_run : already_returned none 4 resubmitted ≡ 1_200
unfolding submit resubmitted
resubmitted_run = refl

-- Ten drills in the shop, of which three are sold.
abbrev drill_key : StockKey
drill_key = record { branch_id = 1; product_id = 1; variant_id = none; warehouse = 0 }

abbrev shop : Shelf
shop = record {
  rows = record { key = drill_key; stock = record (empty_stock 4) { current_stock = 10 } } ∷ [];
  movements = [];
}

abbrev three_drills : SaleItem
three_drills = record {
  key = drill_key;
  quantity = 300;
  tax_treatment = some Treatment.vat;
  has_reason = false;
  variant_belongs = true;
  product_tax_treatment = none;
  product_vat_inclusive = false;
  product_reorder_level = 4;
}

abbrev completed : Sale × Shelf
unfolding complete_sale deduct_stock adjust_at adjust_stock normalize_tax revalued movement_of
    weighted_cost calculate_inventory_tax round_half_up ◌+ℤ◌ ◌*ℤ◌ validate_tax_treatment
    normalize_tax_treatment
completed =
    result_or (complete_sale false (three_drills ∷ []) shop)
      (record { status = SaleStatus.draft; items = [] }, shop)

abbrev voided : Sale × Shelf
unfolding complete_sale deduct_stock adjust_at adjust_stock normalize_tax revalued movement_of
    weighted_cost calculate_inventory_tax round_half_up ◌+ℤ◌ ◌*ℤ◌ validate_tax_treatment
    normalize_tax_treatment void_sale return_stock completed
voided = result_or (void_sale completed.0 completed.1) completed

seven_left : stock_at drill_key completed.1 ≡ 7
unfolding complete_sale deduct_stock adjust_at adjust_stock normalize_tax revalued movement_of
    weighted_cost calculate_inventory_tax round_half_up ◌+ℤ◌ ◌*ℤ◌ validate_tax_treatment
    normalize_tax_treatment completed
seven_left = refl

complete_sale-void_sale_example : stock_at drill_key voided.1 ≡ 10
unfolding complete_sale deduct_stock adjust_at adjust_stock normalize_tax revalued movement_of
    weighted_cost calculate_inventory_tax round_half_up ◌+ℤ◌ ◌*ℤ◌ validate_tax_treatment
    normalize_tax_treatment void_sale return_stock completed voided
complete_sale-void_sale_example =
    complete_sale-void_sale false (three_drills ∷ []) shop drill_key {out = completed}
      {back = voided} refl refl
