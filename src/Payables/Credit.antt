-- ===== src/Payables/Credit.antt =====
-- Vendor credits (apps/purchases/models.py) and the content that they take over from the supplier
-- return (apps/purchases/views.py). Exact amounts, before a save rounds them to a column, are ten-thousandths of a dirham. The
-- database's order of the bills by due date is a parameter.
use ghazatech_inventory_be.Prelude.{
  ℕ, ◌+◌, ◌-◌, ◌*◌, Bool, true, false, not, ◌&&◌, Option, none, some, List, [], ◌∷◌, map, select,
  ltb, ◌==◌, if◌then◌else◌, is_empty, option_eq, smaller,
}
use ghazatech_inventory_be.Prelude.Decimal.{round_half_up}
use ghazatech_inventory_be.Prelude.Result.{Result, ok, raise_if, ◌>>◌}
use ghazatech_inventory_be.Numbering.{Suffix}
use ghazatech_inventory_be.Payables.{BillStatus, SupplierBill, Share}

pub data CreditStatus : Type 0 where
  draft pending approved opened partially_applied fully_applied void : CreditStatus

-- The spellings that `_normalize_tax_treatment` tells apart from the standard rate.
pub data TaxText : Type 0 where
  zero_vat zero_rated zero_hyphen_rated non_vat non_hyphen_vat out_of_scope : TaxText
  exempt vat_exempt non_taxable any_other : TaxText

-- A line of the supplier return: whole units, a price, and a rate in hundredths of a percent.
pub record ReturnLine : Type 0 where
  pub quantity : ℕ
  pub unit_price : ℕ
  pub tax_treatment : TaxText
  pub vat_percentage : ℕ

-- A line of the credit: its exact quantity times price, and its saved tax.
pub record CreditLine : Type 0 where
  pub net : ℕ
  pub tax_amount : ℕ

pub record VendorCredit : Type 0 where
  pub pk : ℕ
  pub credit_number : Suffix
  pub supplier_return : Option ℕ
  pub supplier : ℕ
  pub branch : ℕ
  pub purchase_order : Option ℕ
  pub return_lines : Option (List ReturnLine)
  pub items : List CreditLine
  pub applications : List Share
  pub subtotal : ℕ
  pub tax_amount : ℕ
  pub total_amount : ℕ
  pub applied_amount : ℕ
  pub remaining_amount : ℕ
  pub status : CreditStatus
  pub posted : Bool

pub data CreditError : Type 0 where
  no_return_lines not_approvable already_posted no_items no_total not_approved : CreditError
  bill_missing invalid_status already_applied calculated_status not_open : CreditError

abbrev pub is_standard : TaxText → Bool
is_standard any_other = true
is_standard _ = false

abbrev pub line_of : ReturnLine → CreditLine
line_of l =
    let rate = if is_standard l.tax_treatment then l.vat_percentage else 0 in
    record {
      net = l.quantity * l.unit_price * 100;
      tax_amount = round_half_up (l.quantity * l.unit_price * rate) 10000;
    }

abbrev pub net_total : List CreditLine → ℕ
net_total [] = 0
net_total (l ∷ lines) = l.net + net_total lines

abbrev pub tax_total : List CreditLine → ℕ
tax_total [] = 0
tax_total (l ∷ lines) = l.tax_amount + tax_total lines

-- The loop over the bills, each with what is left to plan; the amounts are exact.
unfoldable pub plan : ℕ → List SupplierBill → List Share
plan remaining [] = []
plan remaining (bill ∷ bills) =
    let amount = smaller remaining (100 * bill.balance_due) in
    let rest = plan (remaining - amount) bills in
    let skipped = plan remaining bills in
    if remaining == 0
    then []
    else if amount == 0
    then skipped
    else record { bill = bill.pk; amount = amount } ∷ rest

abbrev pub is_due : BillStatus → Bool
is_due BillStatus.draft = false
is_due BillStatus.cancelled = false
is_due BillStatus.paid = false
is_due _ = true

abbrev pub is_candidate : VendorCredit → SupplierBill → Bool
is_candidate credit bill =
    (bill.supplier == credit.supplier)
    && (bill.branch == credit.branch)
    && ltb 0 bill.balance_due
    && is_due bill.status

abbrev of_order : VendorCredit → List SupplierBill → List SupplierBill
of_order credit bills = select (λ b. option_eq b.purchase_order credit.purchase_order) bills

abbrev has_order : Option ℕ → Bool
has_order none = false
has_order (some order) = true

-- The bills that the credit may settle: those of its purchase order, if there are any.
abbrev pub candidates : VendorCredit → List SupplierBill → List SupplierBill
candidates credit bills =
    let open_bills = select (is_candidate credit) bills in
    let matching = of_order credit open_bills in
    if has_order credit.purchase_order && not (is_empty matching) then matching else open_bills

abbrev pub save_share : Share → Share
save_share s = record s { amount = round_half_up s.amount 100 }

-- The exact total of a credit's lines.
abbrev pub exact_total : List CreditLine → ℕ
exact_total lines = net_total lines + 100 * tax_total lines

-- `_sync_return_credit_content`; the exact total stays with the instance in memory.
unfoldable pub sync_return_credit_content :
    (List SupplierBill → List SupplierBill)
    → List SupplierBill
    → VendorCredit
    → List ReturnLine
    → Result CreditError (VendorCredit × ℕ)
sync_return_credit_content by_due_date bills credit return_lines =
    raise_if (is_empty return_lines) CreditError.no_return_lines
    >> let lines = if is_empty credit.items then map line_of return_lines else credit.items in
      let total = exact_total lines in
      let planned = map save_share (plan total (by_due_date (candidates credit bills))) in
      let total_amount = round_half_up total 100 in
      ok (
        (record credit {
          items = lines;
          applications = if is_empty credit.applications then planned else credit.applications;
          subtotal = round_half_up (net_total lines) 100;
          tax_amount = tax_total lines;
          total_amount = total_amount;
          applied_amount = if credit.posted then credit.applied_amount else 0;
          remaining_amount = if credit.posted then credit.remaining_amount else total_amount;
        }),
        total,
      )

-- The content is brought in line when the credit belongs to a return.
abbrev pub synced :
    (List SupplierBill → List SupplierBill)
    → List SupplierBill
    → VendorCredit
    → Option (List ReturnLine)
    → Result CreditError (VendorCredit × ℕ)
synced by_due_date bills credit none = ok (credit, 100 * credit.total_amount)
synced by_due_date bills credit (some lines) =
    sync_return_credit_content by_due_date bills credit lines
