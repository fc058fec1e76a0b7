-- ===== src/Payables/Approval.antt =====
-- Approving a supplier bill (apps/purchases/views.py).
use ghazatech_inventory_be.Prelude.{
  ℕ, ◌-◌, ◌*◌, Bool, true, not, ◌||◌, Option, none, some, List, [], ◌∷◌, ◌++◌, map, any, ltb, ◌==◌,
  if◌then◌else◌, is_empty, option_eq,
}
use ghazatech_inventory_be.Prelude.Decimal.{round_half_up}
use ghazatech_inventory_be.Prelude.Result.{Result, ok, raise_if, ◌>>◌}
use ghazatech_inventory_be.Payables.{BillStatus, BillItem, SupplierBill}
use ghazatech_inventory_be.Payables.BillCheck.{
  OrderRef, GrnItemRef, GrnRef, BillField, BillError, flag, accepted_of, available,
}
use ghazatech_inventory_be.Payables.Bill.{
  with_values, exact_bill, exact_vat, taxable, sum_items, discount_checks,
}

-- What `approve` holds against a line: the first of its checks that fails.
abbrev pub line_problem : (ℕ → GrnItemRef) → List SupplierBill → SupplierBill → BillItem → Bool
line_problem grn_items bills bill i =
    let g = grn_items i.grn_item in
    not (option_eq (some g.grn) bill.grn)
    || not (g.product == i.product)
    || not (option_eq g.variant i.variant)
    || (i.bill_quantity == 0)
    || ltb (available (some bill.pk) g bills) i.bill_quantity
    || ltb (i.bill_quantity * i.unit_cost) i.discount_amount

abbrev is_other : OrderRef → GrnRef → Bool
is_other o g = not (g.purchase_order.pk == o.pk)

abbrev pub linked_errors : SupplierBill → Option OrderRef → Option GrnRef → List BillField
linked_errors bill none none = BillField.order_field ∷ BillField.grn_field ∷ []
linked_errors bill none (some g) =
    BillField.order_field ∷ flag (not g.confirmed) BillField.grn_field
linked_errors bill (some o) none =
    BillField.grn_field ∷ flag (not (o.supplier == bill.supplier)) BillField.supplier_field
    ++ flag (not (o.branch == bill.branch)) BillField.branch_field
linked_errors bill (some o) (some g) =
    flag (not g.confirmed || is_other o g) BillField.grn_field
    ++ flag (not (o.supplier == bill.supplier)) BillField.supplier_field
    ++ flag (not (o.branch == bill.branch)) BillField.branch_field

-- A line with the accepted quantity and its amounts.
abbrev approved_line : (ℕ → GrnItemRef) → BillItem → BillItem
approved_line grn_items i =
    with_values (record i { received_quantity = accepted_of (grn_items i.grn_item) })

-- The bill with the exact total, once every check passed.
abbrev pub with_approval : (ℕ → GrnItemRef) → SupplierBill → SupplierBill
with_approval grn_items bill =
    let total = exact_bill bill bill.items in
    let balance = total - 10000 * bill.paid_amount in
    record bill {
      items = map (approved_line grn_items) bill.items;
      subtotal = sum_items taxable bill.items;
      vat_amount = round_half_up (sum_items exact_vat bill.items) 10000;
      total_amount = round_half_up total 10000;
      balance_due = round_half_up balance 10000;
      matched = true;
      status =
          if balance == 0
          then BillStatus.paid
          else if ltb 0 bill.paid_amount
          then BillStatus.partially_paid
          else BillStatus.unpaid;
      approved = true;
    }

-- The checks of `approve`, which returns its first complaints together. It also asks for amounts that
-- are not negative, and the lines hold none that are.
abbrev pub approval_checks :
    Option OrderRef
    → Option GrnRef
    → (ℕ → GrnItemRef)
    → List SupplierBill
    → SupplierBill
    → Result BillError (Unit {0})
approval_checks order grn grn_items bills bill =
    raise_if (not (is_empty (linked_errors bill order grn)))
      (BillError.invalid (linked_errors bill order grn))
    >> raise_if (is_empty bill.items) BillError.no_items
    >> raise_if (any (line_problem grn_items bills bill) bill.items) BillError.invalid_item
    >> discount_checks bill bill.items
    >> raise_if (ltb (exact_bill bill bill.items) (10000 * bill.paid_amount)) BillError.overpaid

-- `approve`, with the purchase order and the note that the bill is linked to; an approved bill is
-- returned as it is.
unfoldable pub approve_bill :
    Option OrderRef
    → Option GrnRef
    → (ℕ → GrnItemRef)
    → List SupplierBill
    → SupplierBill
    → Result BillError SupplierBill
approve_bill order grn grn_items bills bill =
    let checked =
      approval_checks order grn grn_items bills bill >> ok (with_approval grn_items bill) in
    if bill.approved then ok bill else checked
