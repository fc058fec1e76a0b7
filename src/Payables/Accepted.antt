-- ===== src/Payables/Accepted.antt =====
-- Which supplier payments are accepted (apps/purchases/serializers.py).
use ghazatech_inventory_be.Prelude.{
  ℕ, ◌+◌, ◌≡◌, refl, true, false, some, Option, List, [], ◌∷◌, find, ==_refl, ltb, arith, is_empty,
  length, ◌∙◌, ◌++◌,
}
use ghazatech_inventory_be.Prelude.Int.{pos, pos_part, ltb_ℤ, ◌≤ℤ◌}
use ghazatech_inventory_be.Prelude.Result.{ok}
use ghazatech_inventory_be.Numbering.{Suffix, first_sequence}
use ghazatech_inventory_be.Numbering.Free.{IsFirstFree, next_sequence_ends}
use ghazatech_inventory_be.Payables.{
  SupplierBill, is_bill, has_repeats, is_cancelled, Ledger, SupplierPayment,
}
use ghazatech_inventory_be.Payables.Payment.{
  Allocation, Prepared, PaymentRequest, SupplierRef, check_allocation, check_allocations,
  allocated_total, bill_ids, payment_errors, issued, validate_allocations, create_payment,
  is_positive, new_payment, settle,
}

-- The allocation can be paid: a bill of the supplier and the branch that is not cancelled, and a
-- positive amount within its balance.
abbrev pub IsPayable : ℕ → ℕ → List SupplierBill → Allocation → Type 0
IsPayable supplier branch bills a =
    (bill : SupplierBill) × (find (is_bill a.bill) bills ≡ some bill)
    × (bill.supplier ≡ supplier)
    × (bill.branch ≡ branch)
    × (is_cancelled bill.status ≡ false)
    × (is_positive a.amount ≡ true)
    × (a.amount ≤ℤ pos bill.balance_due)

abbrev pub AllPayable : ℕ → ℕ → List SupplierBill → List Allocation → Type 0
AllPayable supplier branch bills [] = Unit
AllPayable supplier branch bills (a ∷ allocations) =
    IsPayable supplier branch bills a × AllPayable supplier branch bills allocations

-- What the request allocates.
abbrev pub requested_total : List Allocation → ℕ
requested_total [] = 0
requested_total (a ∷ allocations) = pos_part a.amount + requested_total allocations

check_allocation-payable :
    (supplier branch : ℕ) (bills : List SupplierBill) (a : Allocation)
    → IsPayable supplier branch bills a
    → (p : Prepared) × (check_allocation supplier branch bills a ≡ ok p)
      × (p.amount ≡ pos_part a.amount)
unfolding check_allocation
check_allocation-payable supplier branch bills a (bill, found, s, b, active, positive, low) =
    let within : ltb_ℤ (pos bill.balance_due) a.amount ≡ false = ground arith in
    (
      (record { bill = bill; amount = pos_part a.amount }),
      (rw (found, s, b, ==_refl supplier, ==_refl branch, active, positive, within)),
      refl,
    )

check_allocations-payable :
    (supplier branch : ℕ) (bills : List SupplierBill) (allocations : List Allocation)
    → AllPayable supplier branch bills allocations
    → (prepared : List Prepared) × (check_allocations supplier branch bills allocations
        ≡ ok prepared)
      × (allocated_total prepared ≡ requested_total allocations)
unfolding check_allocations
check_allocations-payable supplier branch bills [] all = ([], refl, refl)
check_allocations-payable supplier branch bills (a ∷ allocations) (here, all) =
    let (p, first, same) = check_allocation-payable supplier branch bills a here in
    let (prepared, others, sums) =
      check_allocations-payable supplier branch bills allocations all in
    ((p ∷ prepared), rw (first, others), rw (same, sums))

-- A request whose fields pass the checks, with at least one allocation, none of a bill twice, every
-- one payable and their amounts adding up to the payment's, is accepted; its number is the first
-- free one of the branch's payments.
pub create_payment_succeeds :
    (latest : List Suffix → Option Suffix) (r : PaymentRequest) (ledger : Ledger)
    (supplier : SupplierRef) (branch : ℕ)
    → payment_errors r ≡ []
    → r.supplier ≡ some supplier
    → r.branch ≡ some branch
    → is_empty r.allocations ≡ false
    → has_repeats (bill_ids r.allocations) ≡ false
    → AllPayable supplier.pk branch ledger.bills r.allocations
    → requested_total r.allocations ≡ pos_part r.amount
    → (payment : SupplierPayment) × (ledger' : Ledger) × (n : ℕ) × (create_payment latest r ledger
        ≡ ok (payment, ledger'))
      × (payment.payment_number.value ≡ some n)
      × IsFirstFree
          (first_sequence
            (latest (issued branch ledger.payments))
            (length (issued branch ledger.payments)))
          (issued branch ledger.payments)
          n
unfolding create_payment validate_allocations
create_payment_succeeds latest r ledger supplier branch valid s b present distinct all sums =
    let (prepared, checked, total) =
      check_allocations-payable supplier.pk branch ledger.bills r.allocations all in
    let (n, found, free) = next_sequence_ends latest (issued branch ledger.payments) in
    let same : allocated_total prepared ≡ pos_part r.amount = total ∙ sums in
    let low : ltb (pos_part r.amount) (allocated_total prepared) ≡ false = ground arith in
    let payment = new_payment r supplier.pk branch n prepared in
    (
      payment,
      (record { bills = settle prepared ledger.bills; payments = ledger.payments ++ payment ∷ [] }),
      n,
      (rw (valid, s, b, present, distinct, checked, low, same, ==_refl (pos_part r.amount), found)),
      refl,
      free,
    )
