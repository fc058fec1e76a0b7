-- ===== src/Payables/Credited.antt =====
-- What a vendor credit does to the bills (apps/purchases/views.py).
use mathlib.Core.Path.{subst}
use ghazatech_inventory_be.Prelude.{
  ℕ, ◌+◌, ◌-◌, ◌*◌, ◌≤◌, ◌≡◌, ◌∙◌, sym, refl, ap, true, false, not, some, Option, List, [], ◌∷◌,
  find, ltb, ◌==◌, arith, Bool-cases, inl, inr,
}
use ghazatech_inventory_be.Prelude.Decimal.{round_half_up}
use ghazatech_inventory_be.Prelude.Result.{
  ok, err, raise_if, ◌>>◌, >>=-eq-ok, ok_injective, raise_if-eq-ok, or_raise-eq-ok,
}
use ghazatech_inventory_be.Payables.{SupplierBill, Share, is_bill}
use ghazatech_inventory_be.Payables.Credit.{CreditError, CreditStatus, VendorCredit, synced}
use ghazatech_inventory_be.Payables.CreditActions.{
  credit_bill, taken, apply_share, apply_shares, settled_credit, post, void_credit, is_approvable,
  is_openable, Answer, update_status,
}
use ghazatech_inventory_be.Payables.Answered.{
  answer_request-cases, answer_request-bills, synced-status,
}
use ghazatech_inventory_be.Payables.Outstanding.{
  outstanding, AllReconciled, outstanding-put, find-IsReconciled, put-AllReconciled,
}
use ghazatech_inventory_be.Payables.Paid.{share_total}

apply_share-effect :
    (s : Share) (bill : SupplierBill) (bills : List SupplierBill)
    → AllReconciled bills
    → find (is_bill s.bill) bills ≡ some bill
    → (outstanding (apply_share s bill bills) + taken s bill ≡ outstanding bills)
      × AllReconciled (apply_share s bill bills)
apply_share-effect s bill bills all found = elim (Bool-cases (taken s bill == 0)) [
  | inl nothing ↦ rw nothing (ground arith, all)
  | inr something ↦
      let saved = credit_bill (taken s bill) bill in
      let sound = find-IsReconciled (is_bill s.bill) bills all found in
      let changed = outstanding-put (is_bill s.bill) saved bills found in
      rw something (
        ground (arith, changed),
        put-AllReconciled (is_bill s.bill) saved bills all (ground (arith, sound)),
      )
]

-- The applications lower what the bills owe by what was applied, which is no more than was planned.
apply_shares-effect :
    (shares : List Share) (bills : List SupplierBill) {out : ℕ × List SupplierBill}
    → AllReconciled bills
    → apply_shares shares bills ≡ ok out
    → (outstanding out.1 + out.0 ≡ outstanding bills)
      × AllReconciled out.1
      × (out.0 ≤ share_total shares)
unfolding apply_shares
apply_shares-effect [] bills all h =
    subst (λ o. (outstanding o.1 + o.0 ≡ outstanding bills) × AllReconciled o.1 × (o.0 ≤ 0))
      (ok_injective h) (ground arith, all, ground arith)
apply_shares-effect (s ∷ shares) bills {out} all h =
    let (bill, found, h0) = or_raise-eq-ok (find (is_bill s.bill) bills) _ _ h in
    let (rest, others, h1) = >>=-eq-ok (apply_shares shares (apply_share s bill bills)) _ h0 in
    let (once, sound) = apply_share-effect s bill bills all found in
    let (more, sound', low) = apply_shares-effect shares (apply_share s bill bills) sound others in
    subst
      (λ o.
        (outstanding o.1 + o.0 ≡ outstanding bills)
        × AllReconciled o.1
        × (o.0 ≤ share_total (s ∷ shares)))
      (ok_injective h1) (ground (arith, once, more), sound', ground (arith, low))

rounded_units : (n : ℕ) → round_half_up (100 * n) 100 ≡ n
unfolding round_half_up
rounded_units n = ground arith

settled-remaining :
    (total applied : ℕ) (credit : VendorCredit)
    → applied ≤ total
    → applied + (settled_credit (100 * total) applied credit).remaining_amount ≡ total
settled-remaining total applied credit low =
    let left : 100 * total - 100 * applied ≡ 100 * (total - applied) = ground arith in
    rw (left, rounded_units (total - applied)) (ground arith)

-- Posting a credit whose applications plan no more than its total, against bills whose paid and due
-- amounts make up their totals, lowers what the bills owe by the amount applied, keeps every bill's
-- paid and due amounts making up its total, and leaves the credit's applied and remaining amounts
-- making up its total.
pub post-effect :
    (credit : VendorCredit) (bills : List SupplierBill) {out : VendorCredit × List SupplierBill}
    → AllReconciled bills
    → share_total credit.applications ≤ credit.total_amount
    → post credit bills ≡ ok out
    → (outstanding out.1 + out.0.applied_amount ≡ outstanding bills)
      × AllReconciled out.1
      × (out.0.applied_amount + out.0.remaining_amount ≡ credit.total_amount)
unfolding post
post-effect credit bills {out} all within h =
    let checked = raise_if (not (is_approvable credit.status)) CreditError.not_approved in
    let (applied, done, h0) = >>=-eq-ok (checked >> apply_shares credit.applications bills) _ h in
    let (_, h1) = raise_if-eq-ok (not (is_approvable credit.status)) _ _ done in
    let (owed, sound, low) = apply_shares-effect credit.applications bills all h1 in
    subst
      (λ o.
        (outstanding o.1 + o.0.applied_amount ≡ outstanding bills)
        × AllReconciled o.1
        × (o.0.applied_amount + o.0.remaining_amount ≡ credit.total_amount))
      (ok_injective h0)
      (
        owed,
        sound,
        settled-remaining credit.total_amount applied.0 credit (ground (arith, low, within)),
      )

settled-IsClosed :
    (total applied : ℕ) (credit : VendorCredit)
    → ltb 0 applied ≡ true
    → (is_approvable (settled_credit total applied credit).status ≡ false)
      × (is_openable (settled_credit total applied credit).status ≡ false)
settled-IsClosed total applied credit some_applied =
    elim (Bool-cases (total - 100 * applied == 0)) [
      | inl full ↦ rw full (refl, refl)
      | inr left ↦ rw (left, some_applied) (refl, refl)
    ]

post-IsClosed :
    (credit : VendorCredit) (bills : List SupplierBill) {out : VendorCredit × List SupplierBill}
    → post credit bills ≡ ok out
    → ltb 0 out.0.applied_amount ≡ true
    → (is_approvable out.0.status ≡ false) × (is_openable out.0.status ≡ false)
unfolding post
post-IsClosed credit bills {out} h some_applied =
    let checked = raise_if (not (is_approvable credit.status)) CreditError.not_approved in
    let (applied, _, h0) = >>=-eq-ok (checked >> apply_shares credit.applications bills) _ h in
    let made = ok_injective h0 in
    let amount : ltb 0 applied.0 ≡ true = ap (λ o. ltb 0 o.0.applied_amount) made ∙ some_applied in
    subst (λ o. (is_approvable o.0.status ≡ false) × (is_openable o.0.status ≡ false)) made
      (settled-IsClosed (100 * credit.total_amount) applied.0 credit amount)

post-refused :
    (credit : VendorCredit) (bills : List SupplierBill)
    → is_approvable credit.status ≡ false
    → post credit bills ≡ err CreditError.not_approved
unfolding post
post-refused credit bills h = rw h refl

void_credit-refused :
    (credit : VendorCredit)
    → ltb 0 credit.applied_amount ≡ true
    → void_credit credit ≡ err CreditError.already_applied
unfolding void_credit
void_credit-refused credit h = rw h refl

-- A credit that posting applied in part or in full can be neither posted again nor voided, and no
-- status request that is answered changes a bill through it.
pub post_once :
    (credit : VendorCredit) (bills : List SupplierBill) {out : VendorCredit × List SupplierBill}
    (by_due_date : List SupplierBill → List SupplierBill) (requested : Option CreditStatus)
    (later_bills : List SupplierBill) {answer : Answer}
    → post credit bills ≡ ok out
    → ltb 0 out.0.applied_amount ≡ true
    → update_status by_due_date requested out.0 later_bills ≡ ok answer
    → (post out.0 later_bills ≡ err CreditError.not_approved)
      × (void_credit out.0 ≡ err CreditError.already_applied)
      × (answer.2 ≡ later_bills)
unfolding update_status
post_once credit bills {out} by_due_date requested later_bills {answer} h some_applied h' =
    let (closed, shut) = post-IsClosed credit bills h some_applied in
    let (content, h0, h1) =
      >>=-eq-ok (synced by_due_date later_bills out.0 out.0.return_lines) _ h' in
    let same = synced-status by_due_date later_bills out.0 out.0.return_lines h0 in
    (
      post-refused out.0 later_bills closed,
      void_credit-refused out.0 some_applied,
      answer_request-bills requested content.0 content.1 later_bills (ap is_openable same ∙ shut)
          h1,
    )

-- Posting a credit and answering a status request keep every bill's amounts making up its total.
pub post-AllReconciled :
    (credit : VendorCredit) (bills : List SupplierBill) {out : VendorCredit × List SupplierBill}
    → AllReconciled bills
    → post credit bills ≡ ok out
    → AllReconciled out.1
unfolding post
post-AllReconciled credit bills all h =
    let checked = raise_if (not (is_approvable credit.status)) CreditError.not_approved in
    let (_, done, h0) = >>=-eq-ok (checked >> apply_shares credit.applications bills) _ h in
    let (_, h1) = raise_if-eq-ok (not (is_approvable credit.status)) _ _ done in
    let (_, sound, _) = apply_shares-effect credit.applications bills all h1 in
    subst (λ o. AllReconciled o.1) (ok_injective h0) sound

pub update_status-AllReconciled :
    (by_due_date : List SupplierBill → List SupplierBill) (requested : Option CreditStatus)
    (credit : VendorCredit) (bills : List SupplierBill) {answer : Answer}
    → AllReconciled bills
    → update_status by_due_date requested credit bills ≡ ok answer
    → AllReconciled answer.2
unfolding update_status
update_status-AllReconciled by_due_date requested credit bills {answer} all h =
    let (content, _, h1) = >>=-eq-ok (synced by_due_date bills credit credit.return_lines) _ h in
    elim (answer_request-cases requested content.0 content.1 bills h1) [
      | inl same ↦ subst AllReconciled (sym same) all
      | inr (_, out, applied, same) ↦
          let (_, sound, _) = apply_shares-effect content.0.applications bills all applied in
          subst AllReconciled same sound
    ]
