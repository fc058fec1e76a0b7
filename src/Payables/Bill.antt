-- ===== src/Payables/Bill.antt =====
-- The supplier bill's amounts, its creation and editing (`SupplierBillSerializer` of
-- apps/purchases/serializers.py). The number of a new row
-- and the row that the database lists first among the month's bill numbers are parameters.
use ghazatech_inventory_be.Prelude.{
  ℕ, ◌+◌, ◌-◌, ◌*◌, Bool, true, false, not, Option, none, some, List, [], ◌∷◌, ◌++◌, map, any,
  select, ltb, is_empty, or_default,
}
use ghazatech_inventory_be.Prelude.Decimal.{round_half_up}
use ghazatech_inventory_be.Prelude.Int.{pos, pos_part, ltb_ℤ}
use ghazatech_inventory_be.Prelude.Result.{Result, ok, raise_if, or_raise, ◌>>=◌, ◌>>◌}
use ghazatech_inventory_be.Numbering.{Suffix, next_sequence}
use ghazatech_inventory_be.Payables.{BillItem, SupplierBill}
use ghazatech_inventory_be.Payables.BillCheck.{
  GrnRef, ItemRequest, BillRequest, BillError, accepted_of, item_errors, bill_errors, supplier_of,
  branch_of, map_order,
}

-- `_calculate_item_values`: what is taxed, and its exact tax in ten-thousandths.
abbrev pub taxable : BillItem → ℕ
taxable i = i.bill_quantity * i.unit_cost - i.discount_amount

abbrev pub exact_vat : BillItem → ℕ
exact_vat i = taxable i * i.vat_percentage

abbrev pub exact_line : BillItem → ℕ
exact_line i = 10000 * taxable i + exact_vat i

abbrev pub sum_items : (BillItem → ℕ) → List BillItem → ℕ
sum_items f [] = 0
sum_items f (i ∷ items) = f i + sum_items f items

-- The amounts as the columns keep them.
abbrev pub with_values : BillItem → BillItem
with_values i = record i {
  vat_amount = round_half_up (exact_vat i) 10000;
  line_total = round_half_up (exact_line i) 10000;
}

abbrev pub item_of : ItemRequest → BillItem
item_of r = record {
  grn_item = r.grn_item.pk;
  product = r.product;
  variant = r.variant;
  received_quantity = accepted_of r.grn_item;
  bill_quantity = r.bill_quantity;
  unit_cost = pos_part r.unit_cost;
  discount_amount = pos_part r.discount_amount;
  vat_percentage = pos_part r.vat_percentage;
  vat_amount = 0;
  line_total = 0;
}

-- The exact total of the lines less the header's discount.
abbrev pub exact_bill : SupplierBill → List BillItem → ℕ
exact_bill bill items = sum_items exact_line items - 10000 * pos_part bill.discount_amount

-- The header's discount is neither negative nor more than the lines.
abbrev pub discount_checks : SupplierBill → List BillItem → Result BillError (Unit {0})
discount_checks bill items =
    raise_if (ltb_ℤ bill.discount_amount (pos 0)) BillError.negative_discount
    >> raise_if (ltb (sum_items exact_line items) (10000 * pos_part bill.discount_amount))
        BillError.excessive_discount

-- The bill with new items: all of it is due.
abbrev pub with_items : List BillItem → SupplierBill → SupplierBill
with_items items bill =
    let total_amount = round_half_up (exact_bill bill items) 10000 in
    record bill {
      items = map with_values items;
      subtotal = sum_items taxable items;
      vat_amount = round_half_up (sum_items exact_vat items) 10000;
      total_amount = total_amount;
      paid_amount = 0;
      balance_due = total_amount;
      matched = false;
    }

-- `_save_items`
unfoldable pub save_items : SupplierBill → List ItemRequest → Result BillError SupplierBill
save_items bill requests =
    let items = map (λ r. item_of r) requests in
    discount_checks bill items >> ok (with_items items bill)

-- The numbers of the month's bills.
abbrev pub month_numbers : List SupplierBill → List Suffix
month_numbers bills = select (λ n. n.in_month) (map (λ b. b.bill_number) bills)

abbrev map_grn : Option GrnRef → Option ℕ
map_grn none = none
map_grn (some g) = some g.pk

-- The row before its items are saved.
abbrev pub new_bill : ℕ → ℕ → ℕ → ℕ → BillRequest → SupplierBill
new_bill pk sequence supplier branch r = record {
  pk = pk;
  bill_number = record { value = some sequence; padded = true; in_month = true };
  supplier_invoice_number = r.supplier_invoice_number;
  supplier = supplier;
  branch = branch;
  purchase_order = map_order (λ o. o.pk) r.purchase_order;
  grn = map_grn r.grn;
  items = [];
  subtotal = 0;
  discount_amount = r.discount_amount;
  vat_amount = 0;
  total_amount = 0;
  paid_amount = 0;
  balance_due = 0;
  status = r.status;
  matched = false;
  approved = false;
}

abbrev is_refused : Option ℕ → List SupplierBill → ItemRequest → Bool
is_refused own bills r = not (is_empty (item_errors own bills r))

-- The checks that run before a bill is saved.
abbrev pub validate_bill :
    Option ℕ → List SupplierBill → BillRequest → List ItemRequest → Result BillError (Unit {0})
validate_bill own bills r requests =
    raise_if (any (is_refused own bills) requests) BillError.invalid_item
    >> raise_if (not (is_empty (bill_errors own bills r)))
        (BillError.invalid (bill_errors own bills r))

-- `create`; past the checks the supplier and the branch are there.
unfoldable pub create_bill :
    (List Suffix → Option Suffix)
    → ℕ
    → BillRequest
    → List ItemRequest
    → List SupplierBill
    → Result BillError (List SupplierBill)
create_bill latest pk r requests bills =
    validate_bill none bills r requests
    >> raise_if (is_empty requests) BillError.no_items
    >> or_raise (next_sequence latest (month_numbers bills)) BillError.no_number
    >>= λ sequence. or_raise (supplier_of r) BillError.missing >>= λ supplier.
        or_raise (branch_of r) BillError.missing >>= λ branch.
        save_items (new_bill pk sequence supplier branch r) requests >>= λ bill.
        ok (bills ++ bill ∷ [])

-- The fields that an edit writes.
abbrev pub edited : BillRequest → SupplierBill → SupplierBill
edited r bill = record bill {
  supplier_invoice_number = r.supplier_invoice_number;
  supplier = or_default (supplier_of r) bill.supplier;
  branch = or_default (branch_of r) bill.branch;
  purchase_order = map_order (λ o. o.pk) r.purchase_order;
  grn = map_grn r.grn;
  discount_amount = r.discount_amount;
  status = r.status;
}

-- `update`: with items, or without (`none`) when the request leaves them out.
unfoldable pub update_bill :
    BillRequest
    → Option (List ItemRequest)
    → List SupplierBill
    → SupplierBill
    → Result BillError SupplierBill
update_bill r none bills bill =
    raise_if bill.approved BillError.approved_bill
    >> validate_bill (some bill.pk) bills r []
    >> ok (edited r bill)
update_bill r (some requests) bills bill =
    raise_if bill.approved BillError.approved_bill
    >> validate_bill (some bill.pk) bills r requests
    >> raise_if (is_empty requests) BillError.no_items
    >> save_items (edited r bill) requests
