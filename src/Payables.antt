-- ===== src/Payables.antt =====
-- What the branches owe their suppliers: the bills, and the rows that settle them, of
-- apps/purchases/models.py. Amounts are numbers of the columns' last place, hundredths of a dirham;
-- texts, dates and users are left out, except whether a bill is approved and a credit posted.
-- A VAT rate is a number of hundredths of a percent.
pub mod Payment
pub mod BillCheck
pub mod Bill
pub mod Approval
pub mod Credit
pub mod CreditCheck
pub mod CreditForm
pub mod CreditActions
pub mod Answered
pub mod Credited
pub mod Formed
pub mod Planned
pub mod Billed
pub mod Steps
pub mod Outstanding
pub mod Paid
pub mod Accepted
use ghazatech_inventory_be.Prelude.{
  ℕ, ◌+◌, ◌-◌, ◌≡◌, Bool, true, false, ◌&&◌, Option, List, [], ◌∷◌, length, any, map, select, ◌==◌,
  if◌then◌else◌,
}
use ghazatech_inventory_be.Prelude.Int.{ℤ}
use ghazatech_inventory_be.Numbering.{Suffix}

pub data BillStatus : Type 0 where
  draft unmatched unpaid partially_paid paid cancelled : BillStatus

-- A line of a bill; the checks of the serializer leave no negative amount in one.
pub record BillItem : Type 0 where
  pub grn_item : ℕ
  pub product : ℕ
  pub variant : Option ℕ
  pub received_quantity : ℕ
  pub bill_quantity : ℕ
  pub unit_cost : ℕ
  pub discount_amount : ℕ
  pub vat_percentage : ℕ
  pub vat_amount : ℕ
  pub line_total : ℕ

-- A supplier's invoice number is compared without case, and an empty one is `none`.
pub record SupplierBill : Type 0 where
  pub pk : ℕ
  pub bill_number : Suffix
  pub supplier_invoice_number : Option ℕ
  pub supplier : ℕ
  pub branch : ℕ
  pub purchase_order : Option ℕ
  pub grn : Option ℕ
  pub items : List BillItem
  pub subtotal : ℕ
  pub discount_amount : ℤ
  pub vat_amount : ℕ
  pub total_amount : ℕ
  pub paid_amount : ℕ
  pub balance_due : ℕ
  pub status : BillStatus
  pub matched : Bool
  pub approved : Bool

-- An allocation of a payment, and a credit's application to a bill.
pub record Share : Type 0 where
  pub bill : ℕ
  pub amount : ℕ

pub data PaymentMethod : Type 0 where
  bank_transfer cheque cash card online other : PaymentMethod

pub record SupplierPayment : Type 0 where
  pub payment_number : Suffix
  pub supplier : ℕ
  pub branch : ℕ
  pub payment_method : Option PaymentMethod
  pub bank_account : Option ℕ
  pub cash_register : Option ℕ
  pub amount : ℕ
  pub allocations : List Share

pub record Ledger : Type 0 where
  pub bills : List SupplierBill
  pub payments : List SupplierPayment

abbrev pub is_bill : ℕ → SupplierBill → Bool
is_bill pk bill = bill.pk == pk

abbrev pub is_cancelled : BillStatus → Bool
is_cancelled BillStatus.cancelled = true
is_cancelled _ = false

-- `len(bill_ids) != len(set(bill_ids))`
abbrev pub has_repeats : List ℕ → Bool
has_repeats [] = false
has_repeats (n ∷ ns) = if any (λ m. m == n) ns then true else has_repeats ns
