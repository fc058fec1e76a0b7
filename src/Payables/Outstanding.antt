-- ===== src/Payables/Outstanding.antt =====
-- What the bills of apps/purchases/models.py still owe, and how saving one bill changes it.
use ghazatech_inventory_be.Prelude.{
  ℕ, ◌+◌, ◌≡◌, Bool, some, List, [], ◌∷◌, find, put, arith, Bool-cases, inl, inr,
}
use ghazatech_inventory_be.Payables.{SupplierBill}

-- The sum of the balances due.
abbrev pub outstanding : List SupplierBill → ℕ
outstanding [] = 0
outstanding (bill ∷ bills) = bill.balance_due + outstanding bills

abbrev pub IsReconciled : SupplierBill → Type 0
IsReconciled bill = bill.paid_amount + bill.balance_due ≡ bill.total_amount

abbrev pub AllReconciled : List SupplierBill → Type 0
AllReconciled [] = Unit
AllReconciled (bill ∷ bills) = IsReconciled bill × AllReconciled bills

pub outstanding-put :
    (p : SupplierBill → Bool) (saved : SupplierBill) (bills : List SupplierBill)
    {bill : SupplierBill}
    → find p bills ≡ some bill
    → outstanding (put p saved bills) + bill.balance_due ≡ outstanding bills + saved.balance_due
outstanding-put p saved [] h = cc
outstanding-put p saved (b ∷ bills) {bill} h =
    ground (arith, outstanding-put p saved bills {bill = bill})

pub find-IsReconciled :
    (p : SupplierBill → Bool) (bills : List SupplierBill) {bill : SupplierBill}
    → AllReconciled bills
    → find p bills ≡ some bill
    → IsReconciled bill
find-IsReconciled p [] all h = cc
find-IsReconciled p (b ∷ bills) {bill} (here, rest) h = elim (Bool-cases (p b)) [
  | inl found ↦ ground (arith, here)
  | inr other ↦ find-IsReconciled p bills {bill = bill} rest (cc)
]

pub put-AllReconciled :
    (p : SupplierBill → Bool) (saved : SupplierBill) (bills : List SupplierBill)
    → AllReconciled bills
    → IsReconciled saved
    → AllReconciled (put p saved bills)
put-AllReconciled p saved [] all new = (new, tt)
put-AllReconciled p saved (b ∷ bills) (here, rest) new = elim (Bool-cases (p b)) [
  | inl found ↦ rw found (new, rest)
  | inr other ↦ rw other (here, put-AllReconciled p saved bills rest new)
]
