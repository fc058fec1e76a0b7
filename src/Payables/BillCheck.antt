-- ===== src/Payables/BillCheck.antt =====
-- The supplier bill's serializers in apps/purchases/serializers.py: the checks of a bill and of its
-- items against the goods received note. Fields are those of the
-- request, or the stored bill's where the request has none.
use ghazatech_inventory_be.Prelude.{
  ℕ, ◌+◌, ◌-◌, Bool, true, false, not, ◌&&◌, ◌||◌, Option, none, some, List, [], ◌∷◌, ◌++◌, any,
  ltb, ◌==◌, if◌then◌else◌, option_eq,
}
use ghazatech_inventory_be.Prelude.Int.{ℤ, pos, ltb_ℤ, ◌*ℤ◌}
use ghazatech_inventory_be.Payables.{BillStatus, BillItem, SupplierBill, is_cancelled}

-- An order in a status that may be billed is `allowed`.
pub record OrderRef : Type 0 where
  pub pk : ℕ
  pub supplier : ℕ
  pub branch : ℕ
  pub allowed : Bool

pub record GrnItemRef : Type 0 where
  pub pk : ℕ
  pub grn : ℕ
  pub product : ℕ
  pub variant : Option ℕ
  pub accepted_quantity : ℕ
  pub received_quantity : ℕ
  pub qc_passed : Bool

pub record GrnRef : Type 0 where
  pub pk : ℕ
  pub purchase_order : OrderRef
  pub supplier : ℕ
  pub branch : ℕ
  pub confirmed : Bool
  pub items : List GrnItemRef

pub record ItemRequest : Type 0 where
  pub grn_item : GrnItemRef
  pub product : ℕ
  pub variant : Option ℕ
  pub bill_quantity : ℕ
  pub unit_cost : ℤ
  pub discount_amount : ℤ
  pub vat_percentage : ℤ

pub record BillRequest : Type 0 where
  pub status : BillStatus
  pub purchase_order : Option OrderRef
  pub grn : Option GrnRef
  pub supplier : Option ℕ
  pub branch : Option ℕ
  pub supplier_invoice_number : Option ℕ
  pub bill_date : Option ℕ
  pub due_date : Option ℕ
  pub discount_amount : ℤ

pub data BillField : Type 0 where
  status_field order_field grn_field supplier_field branch_field invoice_field : BillField
  due_date_field product_field variant_field quantity_field cost_field : BillField
  discount_field vat_field : BillField

pub data BillError : Type 0 where
  invalid : List BillField → BillError
  invalid_item no_items negative_discount excessive_discount : BillError
  approved_bill overpaid no_number missing : BillError

abbrev pub flag : Bool → BillField → List BillField
flag true field = field ∷ []
flag false field = []

-- `int(accepted_quantity or received_quantity or 0)`
abbrev pub accepted_of : GrnItemRef → ℕ
accepted_of i = if i.accepted_quantity == 0 then i.received_quantity else i.accepted_quantity

abbrev pub item_quantity : ℕ → List BillItem → ℕ
item_quantity grn_item [] = 0
item_quantity grn_item (i ∷ items) =
    (if i.grn_item == grn_item then i.bill_quantity else 0) + item_quantity grn_item items

-- `_already_billed_quantity`: what the other bills, less the cancelled ones, bill of the item.
abbrev pub billed_elsewhere : Option ℕ → ℕ → List SupplierBill → ℕ
billed_elsewhere own grn_item [] = 0
billed_elsewhere own grn_item (b ∷ bills) =
    (if is_cancelled b.status || option_eq own (some b.pk)
      then 0
      else item_quantity grn_item b.items)
    + billed_elsewhere own grn_item bills

abbrev pub available : Option ℕ → GrnItemRef → List SupplierBill → ℕ
available own i bills = accepted_of i - billed_elsewhere own i.pk bills

abbrev gross_of : ItemRequest → ℤ
gross_of r = pos r.bill_quantity *ℤ r.unit_cost

-- `SupplierBillItemSerializer.validate`.
unfoldable pub item_errors : Option ℕ → List SupplierBill → ItemRequest → List BillField
item_errors own bills r =
    flag (not (r.grn_item.product == r.product)) BillField.product_field
    ++ flag (not (option_eq r.grn_item.variant r.variant)) BillField.variant_field
    ++ flag ((r.bill_quantity == 0) || ltb (available own r.grn_item bills) r.bill_quantity)
        BillField.quantity_field
    ++ flag (ltb_ℤ r.unit_cost (pos 0)) BillField.cost_field
    ++ flag (ltb_ℤ r.discount_amount (pos 0) || ltb_ℤ (gross_of r) r.discount_amount)
        BillField.discount_field
    ++ flag (ltb_ℤ r.vat_percentage (pos 0)) BillField.vat_field

abbrev is_editable : BillStatus → Bool
is_editable BillStatus.draft = true
is_editable BillStatus.unmatched = true
is_editable _ = false

abbrev is_missing {ℓ} : {A : Type ℓ} → Option A → Bool
is_missing none = true
is_missing (some a) = false

-- Two fields that are both there and differ.
abbrev pub differ : Option ℕ → ℕ → Bool
differ none n = false
differ (some m) n = not (m == n)

-- A field of the purchase order, if there is one.
abbrev pub map_order : (OrderRef → ℕ) → Option OrderRef → Option ℕ
map_order f none = none
map_order f (some o) = some (f o)

-- The supplier and the branch, taken over from the purchase order where the request has none.
abbrev pub supplier_of : BillRequest → Option ℕ
supplier_of r =
    if is_missing r.supplier then map_order (λ o. o.supplier) r.purchase_order else r.supplier

abbrev pub branch_of : BillRequest → Option ℕ
branch_of r = if is_missing r.branch then map_order (λ o. o.branch) r.purchase_order else r.branch

abbrev order_errors : BillRequest → Option OrderRef → List BillField
order_errors r none = flag true BillField.order_field
order_errors r (some o) =
    flag (differ (supplier_of r) o.supplier) BillField.supplier_field
    ++ flag (differ (branch_of r) o.branch) BillField.branch_field

abbrev is_unpassed : GrnItemRef → Bool
is_unpassed i = ltb 0 i.accepted_quantity && not i.qc_passed

abbrev grn_errors : BillRequest → Option GrnRef → List BillField
grn_errors r none = flag true BillField.grn_field
grn_errors r (some g) =
    flag
      (not g.confirmed
        || not g.purchase_order.allowed
        || any is_unpassed g.items
        || differ (map_order (λ o. o.pk) r.purchase_order) g.purchase_order.pk)
      BillField.grn_field
    ++ flag (differ (supplier_of r) g.supplier) BillField.supplier_field
    ++ flag (differ (branch_of r) g.branch) BillField.branch_field

-- Another bill of the supplier has the invoice number.
abbrev is_duplicate : Option ℕ → Option ℕ → Option ℕ → SupplierBill → Bool
is_duplicate own supplier invoice b =
    option_eq (some b.supplier) supplier
    && option_eq b.supplier_invoice_number invoice
    && not (option_eq own (some b.pk))

abbrev is_before : Option ℕ → Option ℕ → Bool
is_before (some due) (some day) = ltb due day
is_before _ _ = false

-- `SupplierBillSerializer.validate` of a bill that is not approved.
unfoldable pub bill_errors : Option ℕ → List SupplierBill → BillRequest → List BillField
bill_errors own bills r =
    flag (not (is_editable r.status)) BillField.status_field
    ++ order_errors r r.purchase_order
    ++ grn_errors r r.grn
    ++ flag
        (is_missing r.supplier_invoice_number
          || any (is_duplicate own (supplier_of r) r.supplier_invoice_number) bills)
        BillField.invoice_field
    ++ flag (is_before r.due_date r.bill_date) BillField.due_date_field
