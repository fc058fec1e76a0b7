-- ===== src/Payables/Formed.antt =====
-- What a new vendor credit plans (apps/purchases/serializers.py).
use mathlib.Core.Path.{subst}
use ghazatech_inventory_be.Prelude.{
  ℕ, ◌+◌, ◌*◌, ◌≤◌, ◌≡◌, not, none, Option, List, [], ◌∷◌, any, ltb, ◌==◌, arith, Bool-cases, inl,
  inr, is_empty,
}
use ghazatech_inventory_be.Prelude.Decimal.{round_half_up}
use ghazatech_inventory_be.Prelude.Int.{pos, ltb_ℤ}
use ghazatech_inventory_be.Prelude.Result.{
  ok, raise_if, or_raise, ◌>>◌, >>=-eq-ok, ok_injective, or_raise-eq-ok, raise_if_passed,
}
use ghazatech_inventory_be.Numbering.{Suffix, next_sequence}
use ghazatech_inventory_be.Payables.BillCheck.{differ}
use ghazatech_inventory_be.Payables.Credit.{VendorCredit}
use ghazatech_inventory_be.Payables.CreditCheck.{
  ApplicationRequest, CreditItemRequest, CreditRequest, FormError, calculate_items,
  check_applications, credit_errors, credit_supplier, credit_branch, validate_applications,
}
use ghazatech_inventory_be.Payables.CreditForm.{month_numbers, create_credit, planned_shares}
use ghazatech_inventory_be.Payables.Paid.{share_total}

-- What is checked is what is planned.
check_applications-total :
    (supplier : Option ℕ) (seen : List ℕ) (applications : List ApplicationRequest) {total : ℕ}
    → check_applications supplier seen applications ≡ ok total
    → share_total (planned_shares applications) ≡ total
unfolding check_applications
check_applications-total supplier seen [] h = ok_injective h
check_applications-total supplier seen (a ∷ applications) {total} h =
    let (bill, named, h1) = or_raise-eq-ok a.bill _ _ h in
    let checks =
      raise_if (any (λ n. n == bill.pk) seen) FormError.repeated_bill
      >> raise_if (differ supplier bill.supplier) FormError.other_supplier
      >> raise_if (ltb_ℤ a.amount (pos 0)) FormError.negative_amount
      >> raise_if (ltb_ℤ (pos bill.balance_due) a.amount) FormError.exceeds_balance in
    let (rest, h2, made) =
      >>=-eq-ok (checks >> check_applications supplier (bill.pk ∷ seen) applications) _ h1 in
    let (_, _, h3) = >>=-eq-ok checks _ h2 in
    let more = check_applications-total supplier (bill.pk ∷ seen) applications h3 in
    elim (Bool-cases (ltb_ℤ (pos 0) a.amount)) [
      | inl positive ↦ rw (named, positive) (ground (arith, more, ok_injective made))
      | inr nothing ↦ rw (named, nothing) (ground (arith, more, nothing, ok_injective made))
    ]

rounded_up : (total applied : ℕ) → 1000000 * applied ≤ total → applied ≤ round_half_up total 1000000
unfolding round_half_up
rounded_up total applied h = ground arith

-- A credit that is created plans no more than its total, and all of that total remains.
pub create_credit-within :
    (latest : List Suffix → Option Suffix) (pk : ℕ) (r : CreditRequest)
    (items : List CreditItemRequest) (applications : List ApplicationRequest)
    (credits : List VendorCredit) {credit : VendorCredit}
    → create_credit latest pk r items applications credits ≡ ok credit
    → (share_total credit.applications ≤ credit.total_amount)
      × (credit.applied_amount + credit.remaining_amount ≡ credit.total_amount)
unfolding create_credit
create_credit-within latest pk r items applications credits {credit} h =
    let errors = credit_errors none credits r in
    let valid = raise_if (not (is_empty errors)) (FormError.invalid errors) in
    let present = raise_if (is_empty items) FormError.no_items in
    let (rows, _, h1) = >>=-eq-ok (valid >> present >> calculate_items items) _ h in
    let (_, checked, h2) =
      >>=-eq-ok (validate_applications (credit_supplier r) applications rows.0) _ h1 in
    let (sequence, _, h3) =
      >>=-eq-ok (or_raise (next_sequence latest (month_numbers credits)) _) _ h2 in
    let (supplier, _, h4) = or_raise-eq-ok (credit_supplier r) _ _ h3 in
    let (branch, _, made) = or_raise-eq-ok (credit_branch r) _ _ h4 in
    let (applied, h5, h6) =
      >>=-eq-ok (check_applications (credit_supplier r) [] applications) _ checked in
    let low = raise_if_passed (ltb rows.0 (1000000 * applied)) _ h6 in
    let total = check_applications-total (credit_supplier r) [] applications h5 in
    subst
      (λ c.
        (share_total c.applications ≤ c.total_amount)
        × (c.applied_amount + c.remaining_amount ≡ c.total_amount))
      (ok_injective made)
      ((rw total (rounded_up rows.0 applied (ground (arith, low)))), (ground arith))
