-- ===== src/Payables/Payment.antt =====
-- `SupplierPaymentSerializer` of apps/purchases/serializers.py: the checks of a payment and of its
-- allocations, and the settling of the bills. The row that the database lists first among the
-- numbers of a branch and month is a parameter. A request's amounts are integers, since the checks
-- refuse those that are not positive.
use ghazatech_inventory_be.Prelude.{
  ℕ, ◌+◌, ◌-◌, Bool, true, false, not, ◌&&◌, Option, none, some, List, [], ◌∷◌, ◌++◌, map, find,
  put, select, ltb, ◌==◌, if◌then◌else◌, is_empty, option_eq,
}
use ghazatech_inventory_be.Prelude.Int.{ℤ, pos, pos_part, ltb_ℤ}
use ghazatech_inventory_be.Prelude.Result.{Result, ok, raise_if, or_raise, ◌>>=◌, ◌>>◌}
use ghazatech_inventory_be.Numbering.{Suffix, next_sequence}
use ghazatech_inventory_be.Payables.{
  BillStatus, SupplierBill, Share, PaymentMethod, SupplierPayment, Ledger, is_bill, is_cancelled,
  has_repeats,
}

pub record SupplierRef : Type 0 where
  pub pk : ℕ
  pub branch : Option ℕ

pub record Allocation : Type 0 where
  pub bill : ℕ
  pub amount : ℤ

-- What a client sends for a new payment; an empty cheque number is `none`.
pub record PaymentRequest : Type 0 where
  pub supplier : Option SupplierRef
  pub branch : Option ℕ
  pub payment_method : Option PaymentMethod
  pub bank_account : Option ℕ
  pub cash_register : Option ℕ
  pub amount : ℤ
  pub cheque_number : Option ℕ
  pub cheque_date : Option ℕ
  pub allocations : List Allocation

pub data Field : Type 0 where
  supplier_field branch_field amount_field cash_register_field bank_account_field : Field
  cheque_number_field cheque_date_field : Field

pub data PaymentError : Type 0 where
  invalid : List Field → PaymentError
  no_allocations repeated_bill bill_not_found other_supplier other_branch : PaymentError
  bill_cancelled amount_not_positive exceeds_balance exceeds_payment : PaymentError
  not_fully_allocated no_number : PaymentError

abbrev pub is_none {ℓ} : {A : Type ℓ} → Option A → Bool
is_none none = true
is_none (some a) = false

-- `errors[field] = …` under a condition
abbrev pub report : Bool → Field → List Field
report true field = field ∷ []
report false field = []

abbrev pub other_home : Option SupplierRef → Option ℕ → Bool
other_home none branch = false
other_home (some s) none = false
other_home (some s) (some b) = if is_none s.branch then false else not (option_eq s.branch (some b))

abbrev pub is_positive : ℤ → Bool
is_positive amount = ltb_ℤ (pos 0) amount

-- The sources of money that a method needs.
abbrev pub method_errors : Option PaymentMethod → PaymentRequest → List Field
method_errors none r = []
method_errors (some PaymentMethod.cash) r =
    report (is_none r.cash_register) Field.cash_register_field
method_errors (some PaymentMethod.bank_transfer) r =
    report (is_none r.bank_account) Field.bank_account_field
method_errors (some PaymentMethod.cheque) r =
    report (is_none r.bank_account) Field.bank_account_field
    ++ report (is_none r.cheque_number) Field.cheque_number_field
    ++ report (is_none r.cheque_date) Field.cheque_date_field
method_errors (some PaymentMethod.card) r = report (is_none r.bank_account) Field.bank_account_field
method_errors (some PaymentMethod.online) r =
    report (is_none r.bank_account) Field.bank_account_field
method_errors (some PaymentMethod.other) r = []

unfoldable pub payment_errors : PaymentRequest → List Field
payment_errors r =
    report (is_none r.supplier) Field.supplier_field
    ++ report (is_none r.branch) Field.branch_field
    ++ report (other_home r.supplier r.branch) Field.supplier_field
    ++ report (not (is_positive r.amount)) Field.amount_field
    ++ method_errors r.payment_method r

-- A cash payment keeps no bank account, a bank's payment no cash register.
abbrev pub kept_bank : Option PaymentMethod → Option ℕ → Option ℕ
kept_bank (some PaymentMethod.cash) bank = none
kept_bank _ bank = bank

abbrev pub kept_register : Option PaymentMethod → Option ℕ → Option ℕ
kept_register none register = register
kept_register (some PaymentMethod.cash) register = register
kept_register (some PaymentMethod.other) register = register
kept_register (some _) register = none

-- A locked bill and the amount that it is to receive.
pub record Prepared : Type 0 where
  pub bill : SupplierBill
  pub amount : ℕ

unfoldable pub check_allocation :
    ℕ → ℕ → List SupplierBill → Allocation → Result PaymentError Prepared
check_allocation supplier branch bills a =
    or_raise (find (is_bill a.bill) bills) PaymentError.bill_not_found >>= λ bill.
    raise_if (not (bill.supplier == supplier)) PaymentError.other_supplier
    >> raise_if (not (bill.branch == branch)) PaymentError.other_branch
    >> raise_if (is_cancelled bill.status) PaymentError.bill_cancelled
    >> raise_if (not (is_positive a.amount)) PaymentError.amount_not_positive
    >> raise_if (ltb_ℤ (pos bill.balance_due) a.amount) PaymentError.exceeds_balance
    >> ok (record { bill = bill; amount = pos_part a.amount })

-- The loop over the allocations.
unfoldable pub check_allocations :
    ℕ → ℕ → List SupplierBill → List Allocation → Result PaymentError (List Prepared)
check_allocations supplier branch bills [] = ok []
check_allocations supplier branch bills (a ∷ allocations) =
    check_allocation supplier branch bills a >>= λ p.
    check_allocations supplier branch bills allocations >>= λ prepared. ok (p ∷ prepared)

abbrev pub allocated_total : List Prepared → ℕ
allocated_total [] = 0
allocated_total (p ∷ prepared) = p.amount + allocated_total prepared

abbrev pub bill_ids : List Allocation → List ℕ
bill_ids allocations = map (λ a. a.bill) allocations

unfoldable pub validate_allocations :
    ℕ → ℕ → ℕ → List SupplierBill → List Allocation → Result PaymentError (List Prepared)
validate_allocations supplier branch payment_amount bills allocations =
    raise_if (is_empty allocations) PaymentError.no_allocations
    >> raise_if (has_repeats (bill_ids allocations)) PaymentError.repeated_bill
    >> check_allocations supplier branch bills allocations
    >>= λ prepared.
        raise_if (ltb payment_amount (allocated_total prepared)) PaymentError.exceeds_payment
        >> raise_if (not (allocated_total prepared == payment_amount))
            PaymentError.not_fully_allocated
        >> ok prepared

-- The bill after it received an amount; the balance does not fall below nothing.
abbrev pub pay_bill : ℕ → SupplierBill → SupplierBill
pay_bill amount bill =
    let paid_amount = bill.paid_amount + amount in
    let balance_due = bill.total_amount - paid_amount in
    record bill {
      paid_amount = paid_amount;
      balance_due = balance_due;
      status = if balance_due == 0 then BillStatus.paid else BillStatus.partially_paid;
    }

-- The loop that saves the bills.
unfoldable pub settle : List Prepared → List SupplierBill → List SupplierBill
settle [] bills = bills
settle (p ∷ prepared) bills =
    settle prepared (put (is_bill p.bill.pk) (pay_bill p.amount p.bill) bills)

abbrev pub share_of : Prepared → Share
share_of p = record { bill = p.bill.pk; amount = p.amount }

-- The numbers of the branch's payments in the month.
abbrev pub issued : ℕ → List SupplierPayment → List Suffix
issued branch payments =
    map (λ p. p.payment_number)
      (select (λ p. (p.branch == branch) && p.payment_number.in_month) payments)

abbrev pub new_payment : PaymentRequest → ℕ → ℕ → ℕ → List Prepared → SupplierPayment
new_payment r supplier branch sequence prepared = record {
  payment_number = record { value = some sequence; padded = true; in_month = true };
  supplier = supplier;
  branch = branch;
  payment_method = r.payment_method;
  bank_account = kept_bank r.payment_method r.bank_account;
  cash_register = kept_register r.payment_method r.cash_register;
  amount = pos_part r.amount;
  allocations = map share_of prepared;
}

-- `validate`, then `create`; past the first check the supplier and the branch are there.
unfoldable pub create_payment :
    (List Suffix → Option Suffix)
    → PaymentRequest
    → Ledger
    → Result PaymentError (SupplierPayment × Ledger)
create_payment latest r ledger =
    raise_if (not (is_empty (payment_errors r))) (PaymentError.invalid (payment_errors r))
    >> or_raise r.supplier (PaymentError.invalid (payment_errors r))
    >>= λ supplier. or_raise r.branch (PaymentError.invalid (payment_errors r)) >>= λ branch.
        validate_allocations supplier.pk branch (pos_part r.amount) ledger.bills r.allocations
        >>= λ prepared.
            or_raise (next_sequence latest (issued branch ledger.payments)) PaymentError.no_number
            >>= λ sequence.
                let payment = new_payment r supplier.pk branch sequence prepared in
                ok (
                  payment,
                  (record {
                    bills = settle prepared ledger.bills;
                    payments = ledger.payments ++ payment ∷ [];
                  }),
                )
