-- ===== src/Sales/Counted.antt =====
-- What customer payments do to the invoices (apps/sales/serializers.py, apps/sales/views.py).
use mathlib.Core.Path.{subst}
use ghazatech_inventory_be.Prelude.{
  ℕ, ◌+◌, ◌≤◌, ◌<◌, ◌≡◌, ◌⊎◌, refl, true, false, not, ◌&&◌, some, List, [], ◌∷◌, ◌++◌, any, find,
  put, length, ◌==◌, ==_refl, ==_iff, arith, Bool-cases, inl, inr, if◌then◌else◌, find-passes,
}
use ghazatech_inventory_be.Prelude.Int.{pos, pos_part, ltb_ℤ}
use ghazatech_inventory_be.Prelude.Result.{
  Result, ok, raise_if, ◌>>◌, >>=-eq-ok, >>-eq-ok, ok_injective, raise_if-eq-ok, raise_if_passed,
  or_raise-eq-ok,
}
use ghazatech_inventory_be.Numbering.{is_taken}
use ghazatech_inventory_be.Sales.Receipts.{
  SalesInvoice, SalesPayment, ReceiptRequest, ReceiptError, Receipts, is_invoice, is_payment,
  is_void, is_cleared, check_method, validate_receipt, with_request, total_paid, recounted,
  create_receipt, update_receipt, month_numbers, next_number, post_cleared,
}

-- The invoice's paid amount is the sum of its cleared payments, and with its balance makes up its
-- total unless it is void.
abbrev pub IsCounted : List SalesPayment → SalesInvoice → Type 0
IsCounted payments i =
    (i.paid_amount ≡ total_paid i.pk payments)
    × ((is_void i.payment_status ≡ true) ⊎ (i.paid_amount + i.balance_due ≡ i.total_amount))

abbrev pub AllCounted : List SalesPayment → List SalesInvoice → Type 0
AllCounted payments [] = Unit
AllCounted payments (i ∷ invoices) = IsCounted payments i × AllCounted payments invoices

-- Every invoice has a number of its own.
abbrev pub AllApart : List SalesInvoice → Type 0
AllApart [] = Unit
AllApart (i ∷ invoices) = (any (is_invoice i.pk) invoices ≡ false) × AllApart invoices

total_paid-append :
    (pk : ℕ) (payments : List SalesPayment) (p : SalesPayment)
    → total_paid pk (payments ++ p ∷ [])
      ≡ total_paid pk payments + (if (p.invoice == pk) && is_cleared p.status then p.amount else 0)
total_paid-append pk [] p = ground arith
total_paid-append pk (q ∷ payments) p = ground (arith, total_paid-append pk payments p)

find-IsCounted :
    (payments : List SalesPayment) (pk : ℕ) (invoices : List SalesInvoice) {i : SalesInvoice}
    → AllCounted payments invoices
    → find (is_invoice pk) invoices ≡ some i
    → IsCounted payments i
find-IsCounted payments pk [] all h = cc
find-IsCounted payments pk (j ∷ invoices) {i} (here, rest) h = elim (Bool-cases (is_invoice pk j)) [
  | inl found ↦
      let e = rw found at h in let same : j ≡ i = cc in subst (IsCounted payments) same here
  | inr other ↦ find-IsCounted payments pk invoices {i = i} rest (rw other at h)
]

-- A payment that does not count for an invoice leaves it counted.
append-IsCounted :
    (payments : List SalesPayment) (p : SalesPayment) (i : SalesInvoice)
    → ((p.invoice == i.pk) && is_cleared p.status) ≡ false
    → IsCounted payments i
    → IsCounted (payments ++ p ∷ []) i
append-IsCounted payments p i apart (counts, sums) =
    (rw (total_paid-append i.pk payments p, apart) (ground (arith, counts)), sums)

append-AllCounted :
    (payments : List SalesPayment) (p : SalesPayment) (invoices : List SalesInvoice)
    → is_cleared p.status ≡ false
    → AllCounted payments invoices
    → AllCounted (payments ++ p ∷ []) invoices
append-AllCounted payments p [] open_payment all = tt
append-AllCounted payments p (i ∷ invoices) open_payment (here, rest) = (
  append-IsCounted payments p i (ground (arith, open_payment)) here,
  append-AllCounted payments p invoices open_payment rest,
)

others-AllCounted :
    (payments : List SalesPayment) (p : SalesPayment) (invoices : List SalesInvoice)
    → any (is_invoice p.invoice) invoices ≡ false
    → AllCounted payments invoices
    → AllCounted (payments ++ p ∷ []) invoices
others-AllCounted payments p [] apart all = tt
others-AllCounted payments p (i ∷ invoices) apart (here, rest) = (
  append-IsCounted payments p i (ground (arith, apart)) here,
  others-AllCounted payments p invoices (ground (arith, apart)) rest,
)

put-AllCounted :
    (payments : List SalesPayment) (p : SalesPayment) (saved : SalesInvoice)
    (invoices : List SalesInvoice)
    → AllApart invoices
    → AllCounted payments invoices
    → IsCounted (payments ++ p ∷ []) saved
    → AllCounted (payments ++ p ∷ []) (put (is_invoice p.invoice) saved invoices)
put-AllCounted payments p saved [] apart all new = (new, tt)
put-AllCounted payments p saved (i ∷ invoices) (alone, apart) (here, rest) new =
    elim (Bool-cases (is_invoice p.invoice i)) [
      | inl found ↦
          let same = (==_iff i.pk p.invoice).0 found in
          rw found (new, others-AllCounted payments p invoices (rw same at alone) rest)
      | inr other ↦ rw other (
        append-IsCounted payments p i (ground (arith, other)) here,
        put-AllCounted payments p saved invoices apart rest new,
      )
    ]

validate_receipt-passed :
    (invoices : List SalesInvoice) (r : ReceiptRequest) {i : SalesInvoice}
    → validate_receipt invoices r ≡ ok i
    → (find (is_invoice i.pk) invoices ≡ some i)
      × (is_void i.payment_status ≡ false)
      × (pos_part r.amount ≤ i.balance_due)
      × (0 < pos_part r.amount)
unfolding validate_receipt
validate_receipt-passed invoices r {i} h =
    let (pk, _, h1) = or_raise-eq-ok r.invoice _ _ h in
    let (j, found, h2) = or_raise-eq-ok (find (is_invoice pk) invoices) _ _ h1 in
    let positive = raise_if (not (ltb_ℤ (pos 0) r.amount)) ReceiptError.amount_not_positive in
    let void_check = raise_if (is_void j.payment_status) ReceiptError.void_invoice in
    let over = ltb_ℤ (pos j.balance_due) r.amount in
    let within = raise_if over ReceiptError.exceeds_balance in
    let method = check_method r.payment_method r.bank_account r.cash_register in
    let (_, h3, made) = >>=-eq-ok (positive >> void_check >> within >> method) _ h2 in
    let (_, h4, _) = >>=-eq-ok (positive >> void_check >> within) _ h3 in
    let (h5, low) = >>-eq-ok (positive >> void_check) over _ h4 in
    let (h6, active) = >>-eq-ok positive (is_void j.payment_status) _ h5 in
    let more = raise_if_passed (not (ltb_ℤ (pos 0) r.amount)) _ h6 in
    let same = (==_iff j.pk pk).0 (find-passes (is_invoice pk) invoices found) in
    subst
      (λ k.
        (find (is_invoice k.pk) invoices ≡ some k)
        × (is_void k.payment_status ≡ false)
        × (pos_part r.amount ≤ k.balance_due)
        × (0 < pos_part r.amount))
      (ok_injective made) ((rw same found), active, (ground (arith, low)), (ground (arith, more)))

recounted-IsCounted :
    (payments : List SalesPayment) (p : SalesPayment) (i : SalesInvoice)
    → IsCounted payments i
    → is_void i.payment_status ≡ false
    → p.invoice ≡ i.pk
    → p.amount ≤ i.balance_due
    → IsCounted (payments ++ p ∷ []) (recounted (payments ++ p ∷ []) i)
recounted-IsCounted payments p i (counts, inl void) active same low = absurd (cc)
recounted-IsCounted payments p i (counts, inr sums) active same low =
    let added = total_paid-append i.pk payments p in
    (refl, inr (ground (arith, added, counts, sums, low)))

-- Saving a cleared payment over one that was not adds its amount.
total_paid-put :
    (pk : ℕ) (p : SalesPayment) (payments : List SalesPayment) {old : SalesPayment}
    → find (is_payment pk) payments ≡ some old
    → is_cleared old.status ≡ false
    → is_cleared p.status ≡ true
    → total_paid p.invoice (put (is_payment pk) p payments)
      ≡ total_paid p.invoice payments + p.amount
total_paid-put pk p [] found open_payment clear = cc
total_paid-put pk p (q ∷ payments) {old} found open_payment clear =
    elim (Bool-cases (is_payment pk q)) [
      | inl here ↦
          let e = rw here at found in
          let same : q ≡ old = cc in
          let shut : is_cleared q.status ≡ false = rw same open_payment in
          rw (here, ==_refl p.invoice, clear) (ground (arith, shut))
      | inr other ↦
          let rest = total_paid-put pk p payments (rw other at found) open_payment clear in
          rw other (ground (arith, rest))
    ]

module _ {B : Type 0} (post : SalesPayment → B → Result ReceiptError B) where
  -- Where every invoice has a number of its own, its paid amount is the sum of its cleared payments,
  -- and its paid amount and balance make up its total unless it is void, all of this but the first
  -- holds again after a payment was created.
  pub create_receipt-AllCounted :
      (pk : ℕ) (r : ReceiptRequest) (s : Receipts B) {s' : Receipts B}
      → AllApart s.invoices
      → AllCounted s.payments s.invoices
      → create_receipt post pk r s ≡ ok s'
      → AllCounted s'.payments s'.invoices
  unfolding create_receipt
  create_receipt-AllCounted pk r s {s'} apart all h =
      let (i, valid, h1) = >>=-eq-ok (validate_receipt s.invoices r) _ h in
      let (_, h2) =
        raise_if-eq-ok (is_taken (length (month_numbers s.payments) + 1) (month_numbers s.payments))
          _ _ h1 in
      let p = with_request r i pk (next_number s.payments) in
      let (books, _, made) = >>=-eq-ok (post_cleared post p s.books) _ h2 in
      let (found, active, low, _) = validate_receipt-passed s.invoices r valid in
      let counted = find-IsCounted s.payments i.pk s.invoices all found in
      let saved = recounted (s.payments ++ p ∷ []) i in
      subst (λ t. AllCounted t.payments t.invoices) (ok_injective made)
        (elim (Bool-cases (is_cleared r.status)) [
          | inl clear ↦ rw clear (
              put-AllCounted s.payments p saved s.invoices apart all
                (recounted-IsCounted s.payments p i counted active refl low))
          | inr waiting ↦ rw waiting (append-AllCounted s.payments p s.invoices waiting all)
        ])

  -- Where every invoice is counted, an edit that clears a payment leaves an invoice whose paid amount
  -- is less than the sum of its cleared payments.
  pub update_receipt_uncounted :
      (pk : ℕ) (r : ReceiptRequest) (s : Receipts B) {s' : Receipts B}
      → AllCounted s.payments s.invoices
      → is_cleared r.status ≡ true
      → update_receipt post pk r s ≡ ok s'
      → (i : SalesInvoice) × (find (is_invoice i.pk) s'.invoices ≡ some i)
        × (i.paid_amount < total_paid i.pk s'.payments)
  unfolding update_receipt
  update_receipt_uncounted pk r s {s'} all clear h =
      let (old, stored, h1) = or_raise-eq-ok (find (is_payment pk) s.payments) _ _ h in
      let cleared_check = raise_if (is_cleared old.status) ReceiptError.cleared_payment in
      let (i, h2, h3) = >>=-eq-ok (cleared_check >> validate_receipt s.invoices r) _ h1 in
      let (open_payment, valid) = raise_if-eq-ok (is_cleared old.status) _ _ h2 in
      let p = with_request r i pk old.payment_number in
      let (books, _, made) = >>=-eq-ok (post_cleared post p s.books) _ h3 in
      let (found, _, _, positive) = validate_receipt-passed s.invoices r valid in
      let (counts, _) = find-IsCounted s.payments i.pk s.invoices all found in
      let more = total_paid-put pk p s.payments stored open_payment clear in
      subst
        (λ t.
          (j : SalesInvoice) × (find (is_invoice j.pk) t.invoices ≡ some j)
          × (j.paid_amount < total_paid j.pk t.payments))
        (ok_injective made) (i, found, (ground (arith, counts, more, positive)))
