-- ===== src/Payables/CreditCheck.antt =====
-- What `VendorCreditSerializer` of apps/purchases/serializers.py checks of a credit, of its lines and of
-- its planned applications. Exact amounts of lines are hundred-millionths of a dirham; fields are
-- those of the request, or the stored credit's where the request has none.
use ghazatech_inventory_be.Prelude.{
  ℕ, ◌+◌, ◌*◌, Bool, true, false, not, ◌&&◌, ◌||◌, Option, none, some, List, [], ◌∷◌, ◌++◌, any,
  ltb, ◌==◌, if◌then◌else◌, option_eq,
}
use ghazatech_inventory_be.Prelude.Decimal.{round_half_up}
use ghazatech_inventory_be.Prelude.Int.{ℤ, pos, pos_part, ltb_ℤ}
use ghazatech_inventory_be.Prelude.Result.{Result, ok, raise_if, or_raise, ◌>>=◌, ◌>>◌}
use ghazatech_inventory_be.Payables.{SupplierBill}
use ghazatech_inventory_be.Payables.BillCheck.{OrderRef, differ, map_order}
use ghazatech_inventory_be.Payables.Credit.{CreditLine, ReturnLine, TaxText, VendorCredit}

-- A supplier return in a status that may be credited is `ready`.
pub record ReturnRef : Type 0 where
  pub pk : ℕ
  pub supplier : ℕ
  pub branch : ℕ
  pub purchase_order : OrderRef
  pub ready : Bool
  pub lines : List ReturnLine

pub record CreditItemRequest : Type 0 where
  pub quantity : ℤ
  pub unit_price : ℤ
  pub tax_treatment : TaxText
  pub tax_percentage : ℤ

pub record ApplicationRequest : Type 0 where
  pub bill : Option SupplierBill
  pub amount : ℤ

pub record CreditRequest : Type 0 where
  pub supplier : Option ℕ
  pub supplier_return : Option ReturnRef
  pub purchase_order : Option OrderRef
  pub supplier_bill : Option SupplierBill
  pub branch : Option ℕ

pub data CreditField : Type 0 where
  return_field supplier_field order_field bill_field branch_field : CreditField

pub data FormError : Type 0 where
  invalid : List CreditField → FormError
  no_items quantity_not_positive negative_price negative_tax no_bill repeated_bill : FormError
  other_supplier negative_amount exceeds_balance exceeds_credit not_draft no_number : FormError

abbrev raised : Bool → CreditField → List CreditField
raised true field = field ∷ []
raised false field = []

abbrev pub is_there {ℓ} : {A : Type ℓ} → Option A → Bool
is_there none = false
is_there (some _) = true

abbrev pub field_of {ℓ} : {A : Type ℓ} → (A → ℕ) → Option A → Option ℕ
field_of f none = none
field_of f (some a) = some (f a)

-- The supplier, the branch and the order, taken over from the return where the request has none.
abbrev pub credit_supplier : CreditRequest → Option ℕ
credit_supplier r =
    if is_there r.supplier then r.supplier else field_of (λ t. t.supplier) r.supplier_return

abbrev pub credit_branch : CreditRequest → Option ℕ
credit_branch r = if is_there r.branch then r.branch else field_of (λ t. t.branch) r.supplier_return

abbrev order_of_return : Option ReturnRef → Option OrderRef
order_of_return none = none
order_of_return (some t) = some t.purchase_order

abbrev pub credit_order : CreditRequest → Option OrderRef
credit_order r =
    if is_there r.purchase_order then r.purchase_order else order_of_return r.supplier_return

-- Another credit, less the one that is edited, is of the return.
abbrev is_credited : Option ℕ → Option ReturnRef → List VendorCredit → Bool
is_credited own none credits = false
is_credited own (some t) credits =
    any (λ c. option_eq c.supplier_return (some t.pk) && not (option_eq own (some c.pk))) credits

abbrev is_unready : Option ReturnRef → Bool
is_unready none = true
is_unready (some t) = not t.ready

-- Two parties that are both there and differ.
abbrev mismatch : Option ℕ → Option ℕ → Bool
mismatch first none = false
mismatch first (some n) = differ first n

-- `validate`
unfoldable pub credit_errors : Option ℕ → List VendorCredit → CreditRequest → List CreditField
credit_errors own credits r =
    let supplier = credit_supplier r in
    let branch = credit_branch r in
    let order = credit_order r in
    raised
      (is_unready r.supplier_return
        || is_credited own r.supplier_return credits
        || mismatch (field_of (λ t. t.supplier) r.supplier_return) supplier)
      CreditField.return_field
    ++ raised (not (is_there supplier)) CreditField.supplier_field
    ++ raised (mismatch (map_order (λ o. o.supplier) order) supplier) CreditField.order_field
    ++ raised (mismatch (field_of (λ b. b.supplier) r.supplier_bill) supplier)
        CreditField.bill_field
    ++ raised
        (mismatch (field_of (λ t. t.branch) r.supplier_return) branch
          || mismatch (map_order (λ o. o.branch) order) branch
          || mismatch (field_of (λ b. b.branch) r.supplier_bill) branch)
        CreditField.branch_field

-- The exact price of a line, and with its tax.
abbrev pub exact_net : CreditItemRequest → ℕ
exact_net i = pos_part i.quantity * pos_part i.unit_price

-- The serializer's spellings of a treatment without tax are fewer.
abbrev is_taxed : TaxText → Bool
is_taxed TaxText.zero_vat = false
is_taxed TaxText.zero_rated = false
is_taxed TaxText.non_vat = false
is_taxed TaxText.out_of_scope = false
is_taxed TaxText.exempt = false
is_taxed TaxText.non_taxable = false
is_taxed _ = true

abbrev pub rate_of : CreditItemRequest → ℕ
rate_of i = if is_taxed i.tax_treatment then pos_part i.tax_percentage else 0

abbrev pub exact_total_of : CreditItemRequest → ℕ
exact_total_of i = 10000 * exact_net i + exact_net i * rate_of i

-- `_calculate_item`: the exact total and the row. The rate of a treatment without tax is not checked.
abbrev pub calculate_item : CreditItemRequest → Result FormError (ℕ × CreditLine)
calculate_item i =
    raise_if (not (ltb_ℤ (pos 0) i.quantity)) FormError.quantity_not_positive
    >> raise_if (ltb_ℤ i.unit_price (pos 0)) FormError.negative_price
    >> raise_if (is_taxed i.tax_treatment && ltb_ℤ i.tax_percentage (pos 0)) FormError.negative_tax
    >> ok (
      exact_total_of i,
      record { net = exact_net i; tax_amount = round_half_up (exact_net i * rate_of i) 1000000 },
    )

-- `_calculate_totals` and `_save_items`
unfoldable pub calculate_items : List CreditItemRequest → Result FormError (ℕ × List CreditLine)
calculate_items [] = ok (0, [])
calculate_items (i ∷ items) = calculate_item i >>= λ row.
    calculate_items items >>= λ rest. ok (row.0 + rest.0, row.1 ∷ rest.1)

-- `_validate_applications`, with the bills seen so far: what is to be applied.
unfoldable pub check_applications : Option ℕ → List ℕ → List ApplicationRequest → Result FormError ℕ
check_applications supplier seen [] = ok 0
check_applications supplier seen (a ∷ applications) = or_raise a.bill FormError.no_bill >>= λ bill.
    raise_if (any (λ n. n == bill.pk) seen) FormError.repeated_bill
    >> raise_if (differ supplier bill.supplier) FormError.other_supplier
    >> raise_if (ltb_ℤ a.amount (pos 0)) FormError.negative_amount
    >> raise_if (ltb_ℤ (pos bill.balance_due) a.amount) FormError.exceeds_balance
    >> check_applications supplier (bill.pk ∷ seen) applications
    >>= λ rest. ok (pos_part a.amount + rest)

abbrev pub validate_applications :
    Option ℕ → List ApplicationRequest → ℕ → Result FormError (Unit {0})
validate_applications supplier applications total =
    check_applications supplier [] applications >>= λ applied.
    raise_if (ltb total (1000000 * applied)) FormError.exceeds_credit
