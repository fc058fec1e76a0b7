-- ===== src/Payables/Paid.antt =====
-- What a supplier payment does to the bills (apps/purchases/serializers.py).
use mathlib.Core.Path.{subst}
use ghazatech_inventory_be.Prelude.{
  ℕ, ◌+◌, ◌∙◌, ◌≤◌, ◌≡◌, sym, refl, false, not, some, Option, List, [], ◌∷◌, map, find, put, any,
  ◌==◌, ==_iff, ltb, arith, find-passes, find-put_other, is_empty,
}
use ghazatech_inventory_be.Prelude.Int.{pos, pos_part, ltb_ℤ}
use ghazatech_inventory_be.Prelude.Result.{
  ok, raise_if, or_raise, ◌>>◌, >>=-eq-ok, ok_injective, >>-eq-ok, or_raise-eq-ok,
}
use ghazatech_inventory_be.Payables.{
  SupplierBill, is_bill, has_repeats, is_cancelled, Ledger, SupplierPayment,
}
use ghazatech_inventory_be.Numbering.{Suffix, next_sequence}
use ghazatech_inventory_be.Payables.{Share}
use ghazatech_inventory_be.Payables.Payment.{
  Allocation, Prepared, PaymentError, check_allocation, check_allocations, allocated_total,
  bill_ids, payment_errors, PaymentRequest, issued, pay_bill, settle, validate_allocations,
  create_payment, is_positive, share_of,
}
use ghazatech_inventory_be.Payables.Outstanding.{
  outstanding, AllReconciled, outstanding-put, find-IsReconciled, put-AllReconciled,
}

-- The bills are the stored ones, and their balances cover the amounts.
abbrev AllCovered : List Prepared → List SupplierBill → Type 0
AllCovered [] bills = Unit
AllCovered (p ∷ prepared) bills =
    (find (is_bill p.bill.pk) bills ≡ some p.bill)
    × (p.amount ≤ p.bill.balance_due)
    × AllCovered prepared bills

abbrev paid_bills : List Prepared → List ℕ
paid_bills prepared = map (λ p. p.bill.pk) prepared

check_allocation-covered :
    (supplier branch : ℕ) (bills : List SupplierBill) (a : Allocation) {p : Prepared}
    → check_allocation supplier branch bills a ≡ ok p
    → (find (is_bill p.bill.pk) bills ≡ some p.bill)
      × (p.amount ≤ p.bill.balance_due)
      × (p.bill.pk ≡ a.bill)
unfolding check_allocation
check_allocation-covered supplier branch bills a {p} h =
    let (bill, found, h0) = or_raise-eq-ok (find (is_bill a.bill) bills) _ _ h in
    let checks =
      raise_if (not (bill.supplier == supplier)) PaymentError.other_supplier
      >> raise_if (not (bill.branch == branch)) PaymentError.other_branch
      >> raise_if (is_cancelled bill.status) PaymentError.bill_cancelled in
    let positive_check = raise_if (not (is_positive a.amount)) PaymentError.amount_not_positive in
    let too_much = ltb_ℤ (pos bill.balance_due) a.amount in
    let (_, passed, made') =
      >>=-eq-ok (checks >> positive_check >> raise_if too_much PaymentError.exceeds_balance) _ h0 in
    let made = ok_injective made' in
    let (earlier, enough) = >>-eq-ok (checks >> positive_check) too_much _ passed in
    let (_, positive) = >>-eq-ok checks (not (is_positive a.amount)) _ earlier in
    let same = (==_iff bill.pk a.bill).0 (find-passes (is_bill a.bill) bills found) in
    rw (sym made) ((rw same found), (ground (arith, enough, positive)), same)

check_allocations-AllCovered :
    (supplier branch : ℕ) (bills : List SupplierBill) (allocations : List Allocation)
    {prepared : List Prepared}
    → check_allocations supplier branch bills allocations ≡ ok prepared
    → AllCovered prepared bills × (paid_bills prepared ≡ bill_ids allocations)
unfolding check_allocations
check_allocations-AllCovered supplier branch bills [] h = rw (sym (ok_injective h)) (tt, refl)
check_allocations-AllCovered supplier branch bills (a ∷ allocations) h =
    let (p, first, h0) = >>=-eq-ok (check_allocation supplier branch bills a) _ h in
    let (rest, others, h1) = >>=-eq-ok (check_allocations supplier branch bills allocations) _ h0 in
    let (found, enough, same) = check_allocation-covered supplier branch bills a first in
    let (covered, ids) = check_allocations-AllCovered supplier branch bills allocations others in
    rw (sym (ok_injective h1)) ((found, enough, covered), rw (same, ids))

-- Saving another bill leaves the prepared ones covered.
put-AllCovered :
    (pk : ℕ) (saved : SupplierBill) (prepared : List Prepared) (bills : List SupplierBill)
    → saved.pk ≡ pk
    → any (λ m. m == pk) (paid_bills prepared) ≡ false
    → AllCovered prepared bills
    → AllCovered prepared (put (is_bill pk) saved bills)
put-AllCovered pk saved [] bills same other c = tt
put-AllCovered pk saved (p ∷ prepared) bills same other (found, enough, c) =
    let kept =
      find-put_other (is_bill pk) (is_bill p.bill.pk) saved bills (λ b is_pk. ground (arith, other))
        (ground (arith, other)) in
    ((rw kept found), enough, put-AllCovered pk saved prepared bills same (ground (arith, other)) c)

settle-effect :
    (prepared : List Prepared) (bills : List SupplierBill)
    → AllCovered prepared bills
    → AllReconciled bills
    → has_repeats (paid_bills prepared) ≡ false
    → (outstanding (settle prepared bills) + allocated_total prepared ≡ outstanding bills)
      × AllReconciled (settle prepared bills)
unfolding settle
settle-effect [] bills c all distinct = (ground arith, all)
settle-effect (p ∷ prepared) bills (found, enough, c) all distinct =
    let saved = pay_bill p.amount p.bill in
    let bills' = put (is_bill p.bill.pk) saved bills in
    let sound = find-IsReconciled (is_bill p.bill.pk) bills all found in
    let covered = put-AllCovered p.bill.pk saved prepared bills refl (ground (arith, distinct)) c in
    let (left, sound') =
      settle-effect prepared bills' covered
        (put-AllReconciled (is_bill p.bill.pk) saved bills all (ground (arith, sound, enough)))
        (ground (arith, distinct)) in
    let changed = outstanding-put (is_bill p.bill.pk) saved bills found in
    (ground (arith, left, changed, sound, enough), sound')

validate_allocations-AllCovered :
    (supplier branch payment_amount : ℕ) (bills : List SupplierBill) (allocations : List Allocation)
    {prepared : List Prepared}
    → validate_allocations supplier branch payment_amount bills allocations ≡ ok prepared
    → AllCovered prepared bills
      × (has_repeats (paid_bills prepared) ≡ false)
      × (allocated_total prepared ≡ payment_amount)
unfolding validate_allocations
validate_allocations-AllCovered supplier branch payment_amount bills allocations {prepared} h =
    let some_bill = raise_if (is_empty allocations) PaymentError.no_allocations in
    let repeats = has_repeats (bill_ids allocations) in
    let checked = check_allocations supplier branch bills allocations in
    let unused = raise_if repeats PaymentError.repeated_bill in
    let (rows, h0, h1) = >>=-eq-ok (some_bill >> unused >> checked) _ h in
    let (_, passed, h2) = >>=-eq-ok (some_bill >> unused) _ h0 in
    let (_, distinct) = >>-eq-ok some_bill repeats _ passed in
    let (covered, ids) = check_allocations-AllCovered supplier branch bills allocations h2 in
    let low = raise_if (ltb payment_amount (allocated_total rows)) PaymentError.exceeds_payment in
    let unequal = not (allocated_total rows == payment_amount) in
    let (_, sums, h3) = >>=-eq-ok (low >> raise_if unequal PaymentError.not_fully_allocated) _ h1 in
    let (_, equal) = >>-eq-ok low unequal _ sums in
    rw (sym (ok_injective h3)) (covered, (rw ids distinct), (ground (arith, equal)))

abbrev pub share_total : List Share → ℕ
share_total [] = 0
share_total (s ∷ shares) = s.amount + share_total shares

share_total-map :
    (prepared : List Prepared) → share_total (map share_of prepared) ≡ allocated_total prepared
share_total-map [] = refl
share_total-map (p ∷ prepared) = rw (share_total-map prepared)

-- A supplier payment that is created from bills whose paid and due amounts make up their totals is
-- allocated in full, lowers what the bills owe by its amount, and leaves every bill's paid and due
-- amounts making up its total.
pub create_payment-effect :
    (latest : List Suffix → Option Suffix) (r : PaymentRequest) (ledger : Ledger)
    {payment : SupplierPayment} {ledger' : Ledger}
    → AllReconciled ledger.bills
    → create_payment latest r ledger ≡ ok (payment, ledger')
    → (share_total payment.allocations ≡ payment.amount)
      × (outstanding ledger'.bills + payment.amount ≡ outstanding ledger.bills)
      × AllReconciled ledger'.bills
unfolding create_payment
create_payment-effect latest r ledger {payment} {ledger'} all h =
    let valid =
      raise_if (not (is_empty (payment_errors r))) (PaymentError.invalid (payment_errors r)) in
    let named = or_raise r.supplier (PaymentError.invalid (payment_errors r)) in
    let (supplier, _, h0) = >>=-eq-ok (valid >> named) _ h in
    let (branch, _, h1) = or_raise-eq-ok r.branch _ _ h0 in
    let (prepared, checked, h2) =
      >>=-eq-ok
        (validate_allocations supplier.pk branch (pos_part r.amount) ledger.bills r.allocations) _
        h1 in
    let (sequence, _, h3) =
      or_raise-eq-ok (next_sequence latest (issued branch ledger.payments)) _ _ h2 in
    let (covered, distinct, full) =
      validate_allocations-AllCovered supplier.pk branch (pos_part r.amount) ledger.bills
        r.allocations checked in
    let (left, sound) = settle-effect prepared ledger.bills covered all distinct in
    subst
      (λ o.
        (share_total o.0.allocations ≡ o.0.amount)
        × (outstanding o.1.bills + o.0.amount ≡ outstanding ledger.bills)
        × AllReconciled o.1.bills)
      (ok_injective h3) ((share_total-map prepared ∙ full), (ground (arith, left, full)), sound)
