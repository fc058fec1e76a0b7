-- ===== src/Payables/Steps.antt =====
-- The bills through every action that writes them (apps/purchases).
use ghazatech_inventory_be.Prelude.{ℕ, ◌≡◌, some, Option, List, [], put, find}
use ghazatech_inventory_be.Prelude.Result.{ok}
use ghazatech_inventory_be.Numbering.{Suffix}
use ghazatech_inventory_be.Payables.{SupplierBill, SupplierPayment, Ledger, is_bill}
use ghazatech_inventory_be.Payables.BillCheck.{
  BillRequest, GrnItemRef, GrnRef, ItemRequest, OrderRef,
}
use ghazatech_inventory_be.Payables.Bill.{create_bill, update_bill}
use ghazatech_inventory_be.Payables.Approval.{approve_bill}
use ghazatech_inventory_be.Payables.Payment.{PaymentRequest, create_payment}
use ghazatech_inventory_be.Payables.Credit.{CreditStatus, VendorCredit}
use ghazatech_inventory_be.Payables.CreditActions.{Answer, post, update_status}
use ghazatech_inventory_be.Payables.Outstanding.{
  AllReconciled, find-IsReconciled, put-AllReconciled,
}
use ghazatech_inventory_be.Payables.Paid.{create_payment-effect}
use ghazatech_inventory_be.Payables.Credited.{post-AllReconciled, update_status-AllReconciled}
use ghazatech_inventory_be.Payables.Billed.{
  approve_bill-IsReconciled, create_bill-AllReconciled, update_bill-IsReconciled,
}

-- One request that returned.
pub data Step : List SupplierBill → List SupplierBill → Type 0 where
  created :
      {bills bills' : List SupplierBill} (latest : List Suffix → Option Suffix) (pk : ℕ)
      (r : BillRequest) (requests : List ItemRequest)
      → create_bill latest pk r requests bills ≡ ok bills'
      → Step bills bills'
  edited :
      {bills : List SupplierBill} (pk : ℕ) (bill out : SupplierBill) (r : BillRequest)
      (requests : Option (List ItemRequest))
      → find (is_bill pk) bills ≡ some bill
      → update_bill r requests bills bill ≡ ok out
      → Step bills (put (is_bill pk) out bills)
  approved :
      {bills : List SupplierBill} (pk : ℕ) (bill out : SupplierBill) (order : Option OrderRef)
      (grn : Option GrnRef) (grn_items : ℕ → GrnItemRef)
      → find (is_bill pk) bills ≡ some bill
      → approve_bill order grn grn_items bills bill ≡ ok out
      → Step bills (put (is_bill pk) out bills)
  paid :
      (latest : List Suffix → Option Suffix) (r : PaymentRequest) (ledger ledger' : Ledger)
      (payment : SupplierPayment)
      → create_payment latest r ledger ≡ ok (payment, ledger')
      → Step ledger.bills ledger'.bills
  credited :
      {bills bills' : List SupplierBill} (credit credit' : VendorCredit)
      → post credit bills ≡ ok (credit', bills')
      → Step bills bills'
  requested :
      {bills : List SupplierBill} (by_due_date : List SupplierBill → List SupplierBill)
      (status : Option CreditStatus) (credit : VendorCredit) (answer : Answer)
      → update_status by_due_date status credit bills ≡ ok answer
      → Step bills answer.2

-- Any number of requests, from the bills on the left.
pub data Run : List SupplierBill → List SupplierBill → Type 0 where
  start : {bills : List SupplierBill} → Run bills bills
  then :
      {first between last : List SupplierBill}
      → Run first between
      → Step between last
      → Run first last

step-AllReconciled :
    {bills bills' : List SupplierBill}
    → Step bills bills'
    → AllReconciled bills
    → AllReconciled bills'
step-AllReconciled (created {bills} latest pk r requests h) all =
    create_bill-AllReconciled latest pk r requests bills all h
step-AllReconciled (edited {bills} pk bill out r requests found h) all =
    let sound = find-IsReconciled (is_bill pk) bills all found in
    put-AllReconciled (is_bill pk) out bills all
      (update_bill-IsReconciled r requests bills bill sound h)
step-AllReconciled (approved {bills} pk bill out order grn grn_items found h) all =
    let sound = find-IsReconciled (is_bill pk) bills all found in
    put-AllReconciled (is_bill pk) out bills all
      (approve_bill-IsReconciled order grn grn_items bills bill sound h)
step-AllReconciled (paid latest r ledger ledger' payment h) all =
    (create_payment-effect latest r ledger all h).2
step-AllReconciled (credited {bills} credit credit' h) all = post-AllReconciled credit bills all h
step-AllReconciled (requested {bills} by_due_date status credit answer h) all =
    update_status-AllReconciled by_due_date status credit bills all h

-- However bills are created, edited, approved, paid and credited, starting from none, the paid and
-- the due amount of every bill make up its total.
pub run-AllReconciled : {bills : List SupplierBill} → Run [] bills → AllReconciled bills
run-AllReconciled start = tt
run-AllReconciled (then r step) = step-AllReconciled step (run-AllReconciled r)
