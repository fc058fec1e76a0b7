-- ===== src/Payables/Billed.antt =====
-- What creating, editing and approving a supplier bill do to its amounts (apps/purchases).
use mathlib.Core.Path.{subst}
use ghazatech_inventory_be.Prelude.{
  Bool-cases, inl, inr, ℕ, ◌+◌, ◌-◌, ◌*◌, ◌==◌, option_eq, ◌≤◌, ◌<◌, ◌≡◌, refl, Bool, true, false,
  not, ◌||◌, none, some, Option, List, [], ◌∷◌, ◌++◌, map, any, ltb, arith, is_empty,
}
use ghazatech_inventory_be.Prelude.Decimal.{round_half_up}
use ghazatech_inventory_be.Prelude.Result.{
  ok, raise_if, or_raise, ◌>>◌, >>=-eq-ok, >>-eq-ok, ok_injective, or_raise-eq-ok,
}
use ghazatech_inventory_be.Numbering.{Suffix, next_sequence}
use ghazatech_inventory_be.Payables.{SupplierBill, BillItem}
use ghazatech_inventory_be.Payables.BillCheck.{
  BillError, BillRequest, supplier_of, branch_of, GrnItemRef, GrnRef, ItemRequest, OrderRef,
  available,
}
use ghazatech_inventory_be.Payables.Bill.{
  create_bill, month_numbers, new_bill, discount_checks, edited, item_of, exact_bill, save_items,
  update_bill, validate_bill,
}
use ghazatech_inventory_be.Payables.Approval.{
  approval_checks, approve_bill, line_problem, linked_errors, with_approval,
}
use ghazatech_inventory_be.Payables.Outstanding.{IsReconciled, AllReconciled}
use ghazatech_inventory_be.Payables.Payment.{pay_bill}

-- Saving the items leaves nothing paid and the whole total due.
save_items-unpaid :
    (bill : SupplierBill) (requests : List ItemRequest) {out : SupplierBill}
    → save_items bill requests ≡ ok out
    → (out.paid_amount ≡ 0) × (out.balance_due ≡ out.total_amount)
unfolding save_items
save_items-unpaid bill requests h =
    let (_, _, made) = >>=-eq-ok (discount_checks bill (map (λ r. item_of r) requests)) _ h in
    subst (λ b. (b.paid_amount ≡ 0) × (b.balance_due ≡ b.total_amount)) (ok_injective made)
      (refl, refl)

-- Editing the items of a bill that a payment has settled in part or in full leaves nothing of the
-- payment: the whole of the new total is due.
pub update_bill_after_payment :
    (r : BillRequest) (requests : List ItemRequest) (bills : List SupplierBill)
    (bill : SupplierBill) (amount : ℕ) {out : SupplierBill}
    → update_bill r (some requests) bills (pay_bill amount bill) ≡ ok out
    → (out.paid_amount ≡ 0) × (out.balance_due ≡ out.total_amount)
unfolding update_bill
update_bill_after_payment r requests bills bill amount h =
    let unapproved = raise_if bill.approved BillError.approved_bill in
    let valid = validate_bill (some bill.pk) bills r requests in
    let present = raise_if (is_empty requests) BillError.no_items in
    let (_, _, saved) = >>=-eq-ok (unapproved >> valid >> present) _ h in
    save_items-unpaid (edited r (pay_bill amount bill)) requests saved

-- Rounded halves go up, so the rounding of a rest and the units that were taken off make the rounding
-- of the whole.
rounded_difference :
    (total paid : ℕ)
    → 10000 * paid ≤ total
    → paid + round_half_up (total - 10000 * paid) 10000 ≡ round_half_up total 10000
unfolding round_half_up
rounded_difference total paid low = ground arith

-- The line bills a positive quantity of what the other bills leave of the accepted goods, and its
-- discount is within its price.
abbrev pub IsBillable : (ℕ → GrnItemRef) → List SupplierBill → SupplierBill → BillItem → Type 0
IsBillable grn_items bills bill i =
    (0 < i.bill_quantity)
    × (i.bill_quantity ≤ available (some bill.pk) (grn_items i.grn_item) bills)
    × (i.discount_amount ≤ i.bill_quantity * i.unit_cost)

abbrev pub AllBillable :
    (ℕ → GrnItemRef) → List SupplierBill → SupplierBill → List BillItem → Type 0
AllBillable grn_items bills bill [] = Unit
AllBillable grn_items bills bill (i ∷ items) =
    IsBillable grn_items bills bill i × AllBillable grn_items bills bill items

-- A test made of tests that all failed.
or-false : (a b : Bool) → (a || b) ≡ false → (a ≡ false) × (b ≡ false)
or-false true b h = cc
or-false false b h = (refl, h)

line_problem-IsBillable :
    (grn_items : ℕ → GrnItemRef) (bills : List SupplierBill) (bill : SupplierBill) (i : BillItem)
    → line_problem grn_items bills bill i ≡ false
    → IsBillable grn_items bills bill i
line_problem-IsBillable grn_items bills bill i h =
    let g = grn_items i.grn_item in
    let other_note = not (option_eq (some g.grn) bill.grn) in
    let other_product = not (g.product == i.product) in
    let other_variant = not (option_eq g.variant i.variant) in
    let none_billed = i.bill_quantity == 0 in
    let too_many = ltb (available (some bill.pk) g bills) i.bill_quantity in
    let goods = other_note || other_product || other_variant in
    let (h1, discount) =
      or-false (goods || none_billed || too_many)
        (ltb (i.bill_quantity * i.unit_cost) i.discount_amount) h in
    let (h2, enough) = or-false (goods || none_billed) too_many h1 in
    let (_, positive) = or-false goods none_billed h2 in
    (ground (arith, positive), ground (arith, enough), ground (arith, discount))

AllBillable-lines :
    (grn_items : ℕ → GrnItemRef) (bills : List SupplierBill) (bill : SupplierBill)
    (items : List BillItem)
    → any (line_problem grn_items bills bill) items ≡ false
    → AllBillable grn_items bills bill items
AllBillable-lines grn_items bills bill [] h = tt
AllBillable-lines grn_items bills bill (i ∷ items) h =
    let (here, rest) =
      or-false (line_problem grn_items bills bill i) (any (line_problem grn_items bills bill) items)
        h in
    (
      line_problem-IsBillable grn_items bills bill i here,
      AllBillable-lines grn_items bills bill items rest,
    )

approve_bill-made :
    (order : Option OrderRef) (grn : Option GrnRef) (grn_items : ℕ → GrnItemRef)
    (bills : List SupplierBill) (bill : SupplierBill) {out : SupplierBill}
    → bill.approved ≡ false
    → approve_bill order grn grn_items bills bill ≡ ok out
    → (approval_checks order grn grn_items bills bill ≡ ok tt)
      × (with_approval grn_items bill ≡ out)
unfolding approve_bill
approve_bill-made order grn grn_items bills bill fresh h =
    let checks = approval_checks order grn grn_items bills bill in
    let (_, passed, made) = >>=-eq-ok checks _ (rw fresh at h) in (passed, ok_injective made)

approval_checks-passed :
    (order : Option OrderRef) (grn : Option GrnRef) (grn_items : ℕ → GrnItemRef)
    (bills : List SupplierBill) (bill : SupplierBill)
    → approval_checks order grn grn_items bills bill ≡ ok tt
    → AllBillable grn_items bills bill bill.items
      × (10000 * bill.paid_amount ≤ exact_bill bill bill.items)
approval_checks-passed order grn grn_items bills bill h =
    let linked =
      raise_if (not (is_empty (linked_errors bill order grn)))
        (BillError.invalid (linked_errors bill order grn))
      >> raise_if (is_empty bill.items) BillError.no_items in
    let problem = any (line_problem grn_items bills bill) bill.items in
    let lines = linked >> raise_if problem BillError.invalid_item in
    let over = ltb (exact_bill bill bill.items) (10000 * bill.paid_amount) in
    let (h1, enough) = >>-eq-ok (lines >> discount_checks bill bill.items) over _ h in
    let (_, h2, _) = >>=-eq-ok lines _ h1 in
    let (_, billable) = >>-eq-ok linked problem _ h2 in
    (AllBillable-lines grn_items bills bill bill.items billable, ground (arith, enough))

-- Approving a bill that was not approved: each of its lines bills no more than the other bills leave
-- of the accepted goods, what was paid stays, and the paid and the due amount make up the total.
pub approve_bill-effect :
    (order : Option OrderRef) (grn : Option GrnRef) (grn_items : ℕ → GrnItemRef)
    (bills : List SupplierBill) (bill : SupplierBill) {out : SupplierBill}
    → bill.approved ≡ false
    → approve_bill order grn grn_items bills bill ≡ ok out
    → AllBillable grn_items bills bill bill.items
      × (out.paid_amount ≡ bill.paid_amount)
      × (out.paid_amount + out.balance_due ≡ out.total_amount)
approve_bill-effect order grn grn_items bills bill {out} fresh h =
    let (passed, made) = approve_bill-made order grn grn_items bills bill fresh h in
    let (billable, low) = approval_checks-passed order grn grn_items bills bill passed in
    let whole = rounded_difference (exact_bill bill bill.items) bill.paid_amount low in
    subst
      (λ b.
        AllBillable grn_items bills bill bill.items
        × (b.paid_amount ≡ bill.paid_amount)
        × (b.paid_amount + b.balance_due ≡ b.total_amount))
      made (billable, refl, whole)

-- An approved bill is returned as it is.
pub approve_bill-IsReconciled :
    (order : Option OrderRef) (grn : Option GrnRef) (grn_items : ℕ → GrnItemRef)
    (bills : List SupplierBill) (bill : SupplierBill) {out : SupplierBill}
    → IsReconciled bill
    → approve_bill order grn grn_items bills bill ≡ ok out
    → IsReconciled out
unfolding approve_bill
approve_bill-IsReconciled order grn grn_items bills bill {out} sound h =
    elim (Bool-cases bill.approved) [
      | inl done ↦ subst IsReconciled (ok_injective (rw done at h)) sound
      | inr fresh ↦ (approve_bill-effect order grn grn_items bills bill fresh h).2
    ]

AllReconciled-append :
    (bills : List SupplierBill) (bill : SupplierBill)
    → AllReconciled bills
    → IsReconciled bill
    → AllReconciled (bills ++ bill ∷ [])
AllReconciled-append [] bill all new = (new, tt)
AllReconciled-append (b ∷ bills) bill (here, all) new =
    (here, AllReconciled-append bills bill all new)

-- A new bill is wholly due.
pub create_bill-AllReconciled :
    (latest : List Suffix → Option Suffix) (pk : ℕ) (r : BillRequest) (requests : List ItemRequest)
    (bills : List SupplierBill) {bills' : List SupplierBill}
    → AllReconciled bills
    → create_bill latest pk r requests bills ≡ ok bills'
    → AllReconciled bills'
unfolding create_bill
create_bill-AllReconciled latest pk r requests bills {bills'} all h =
    let valid = validate_bill none bills r requests in
    let present = raise_if (is_empty requests) BillError.no_items in
    let numbered = or_raise (next_sequence latest (month_numbers bills)) BillError.no_number in
    let (sequence, _, h1) = >>=-eq-ok (valid >> present >> numbered) _ h in
    let (supplier, _, h2) = or_raise-eq-ok (supplier_of r) _ _ h1 in
    let (branch, _, h3) = or_raise-eq-ok (branch_of r) _ _ h2 in
    let (bill, saved, h4) =
      >>=-eq-ok (save_items (new_bill pk sequence supplier branch r) requests) _ h3 in
    let (unpaid, due) = save_items-unpaid (new_bill pk sequence supplier branch r) requests saved in
    subst AllReconciled (ok_injective h4)
      (AllReconciled-append bills bill all (ground (arith, unpaid, due)))

-- An edited bill is reconciled if it was before.
pub update_bill-IsReconciled :
    (r : BillRequest) (requests : Option (List ItemRequest)) (bills : List SupplierBill)
    (bill : SupplierBill) {out : SupplierBill}
    → IsReconciled bill
    → update_bill r requests bills bill ≡ ok out
    → IsReconciled out
unfolding update_bill
update_bill-IsReconciled r none bills bill sound h =
    let unapproved = raise_if bill.approved BillError.approved_bill in
    let (_, _, made) = >>=-eq-ok (unapproved >> validate_bill (some bill.pk) bills r []) _ h in
    subst IsReconciled (ok_injective made) sound
update_bill-IsReconciled r (some requests) bills bill sound h =
    let unapproved = raise_if bill.approved BillError.approved_bill in
    let valid = validate_bill (some bill.pk) bills r requests in
    let present = raise_if (is_empty requests) BillError.no_items in
    let (_, _, saved) = >>=-eq-ok (unapproved >> valid >> present) _ h in
    let (unpaid, due) = save_items-unpaid (edited r bill) requests saved in
    ground (arith, unpaid, due)
