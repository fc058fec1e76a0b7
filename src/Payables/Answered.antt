-- ===== src/Payables/Answered.antt =====
-- What answering a status request for a vendor credit leaves of the bills (apps/purchases/views.py).
use ghazatech_inventory_be.Prelude.{
  ℕ, ◌≡◌, ◌∙◌, ◌&&◌, ◌⊎◌, sym, refl, ap, true, false, not, none, some, Option, List, ltb, is_empty,
  Bool-cases, inl, inr,
}
use ghazatech_inventory_be.Prelude.Result.{ok, >>=-eq-ok, ok_injective, if-eq-ok, raise_if-eq-ok}
use ghazatech_inventory_be.Payables.{SupplierBill}
use ghazatech_inventory_be.Payables.Credit.{
  CreditStatus, ReturnLine, VendorCredit, synced, sync_return_credit_content,
}
use ghazatech_inventory_be.Payables.CreditActions.{
  apply_shares, is_openable, status_eq, is_opened, void_request, open_request, Answer,
  answer_request,
}

void_request-bills :
    (credit : VendorCredit) (bills : List SupplierBill) → (void_request credit bills).2 ≡ bills
void_request-bills credit bills = elim (Bool-cases (ltb 0 credit.applied_amount)) [
  | inl b ↦ rw b refl
  | inr b ↦ rw b refl
]

-- The bills after a request: as they were, or with the credit's applications.
abbrev pub Requested : VendorCredit → List SupplierBill → List SupplierBill → Type 0
Requested credit bills bills' =
    (bills' ≡ bills)
    ⊎ ((is_openable credit.status ≡ true)
        × (out : ℕ × List SupplierBill) × (apply_shares credit.applications bills ≡ ok out)
        × (out.1 ≡ bills'))

open_request-cases :
    (credit : VendorCredit) (total : ℕ) (bills : List SupplierBill) {answer : Answer}
    → open_request credit total bills ≡ ok answer
    → Requested credit bills answer.2
open_request-cases credit total bills {answer} h = elim (Bool-cases (is_openable credit.status)) [
  | inl openable ↦
      let (out, applied, made) =
        >>=-eq-ok (apply_shares credit.applications bills) _ (rw openable at h) in
      inr (openable, out, applied, ap (λ a. a.2) (ok_injective made))
  | inr shut ↦ inl (sym (ap (λ a. a.2) (ok_injective (rw shut at h))))
]

pub answer_request-cases :
    (requested : Option CreditStatus) (credit : VendorCredit) (total : ℕ)
    (bills : List SupplierBill) {answer : Answer}
    → answer_request requested (credit, total) bills ≡ ok answer
    → Requested credit bills answer.2
answer_request-cases none credit total bills h = inl (sym (ap (λ a. a.2) (ok_injective h)))
answer_request-cases (some requested) credit total bills {answer} h =
    let as_is =
      status_eq requested credit.status && not (is_opened requested && not credit.posted) in
    elim (if-eq-ok as_is _ _ h) [
      | inl e ↦ inl (sym (ap (λ a. a.2) (ok_injective e)))
      | inr (_, h1) ↦ elim (if-eq-ok (status_eq requested CreditStatus.void) _ _ h1) [
        | inl e ↦ inl (sym (ap (λ a. a.2) (ok_injective e)) ∙ void_request-bills credit bills)
        | inr (_, h2) ↦ elim (if-eq-ok (is_opened requested) _ _ h2) [
          | inl e ↦ open_request-cases credit total bills e
          | inr (_, e) ↦ inl (sym (ap (λ a. a.2) (ok_injective e)))
        ]
      ]
    ]

-- A request for a credit that may not be opened leaves the bills as they are.
pub answer_request-bills :
    (requested : Option CreditStatus) (credit : VendorCredit) (total : ℕ)
    (bills : List SupplierBill) {answer : Answer}
    → is_openable credit.status ≡ false
    → answer_request requested (credit, total) bills ≡ ok answer
    → answer.2 ≡ bills
answer_request-bills requested credit total bills shut h =
    elim (answer_request-cases requested credit total bills h) [
      | inl same ↦ same
      | inr (openable, _, _, _) ↦ absurd (cc)
    ]

-- Bringing the content in line changes neither the status nor a posted credit's amounts.
pub synced-status :
    (by_due_date : List SupplierBill → List SupplierBill) (bills : List SupplierBill)
    (credit : VendorCredit) (lines : Option (List ReturnLine)) {out : VendorCredit × ℕ}
    → synced by_due_date bills credit lines ≡ ok out
    → out.0.status ≡ credit.status
unfolding sync_return_credit_content
synced-status by_due_date bills credit none h = sym (ap (λ o. o.0.status) (ok_injective h))
synced-status by_due_date bills credit (some lines) h =
    let (_, made) = raise_if-eq-ok (is_empty lines) _ _ h in
    sym (ap (λ o. o.0.status) (ok_injective made))
