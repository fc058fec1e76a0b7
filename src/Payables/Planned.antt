-- ===== src/Payables/Planned.antt =====
-- How a vendor credit is spread over the open bills (apps/purchases/views.py).
use ghazatech_inventory_be.Prelude.{
  ℕ, ◌-◌, ◌*◌, ◌≡◌, List, [], ◌∷◌, ◌==◌, arith, Bool-cases, inl, inr, smaller,
}
use ghazatech_inventory_be.Payables.{SupplierBill}
use ghazatech_inventory_be.Payables.Credit.{plan}
use ghazatech_inventory_be.Payables.Outstanding.{outstanding}
use ghazatech_inventory_be.Payables.Paid.{share_total}

-- The exact amounts planned for a credit add up to its total or to all that the bills owe,
-- whichever is less.
pub plan_total :
    (remaining : ℕ) (bills : List SupplierBill)
    → share_total (plan remaining bills) ≡ smaller remaining (100 * outstanding bills)
unfolding plan
plan_total remaining [] = ground arith
plan_total remaining (bill ∷ bills) =
    let amount = smaller remaining (100 * bill.balance_due) in
    elim (Bool-cases (remaining == 0)) [
      | inl nothing ↦ rw nothing (ground arith)
      | inr something ↦ elim (Bool-cases (amount == 0)) [
        | inl skipped ↦ rw (something, skipped) (ground (arith, plan_total remaining bills))
        | inr planned ↦
            rw (something, planned) (ground (arith, plan_total (remaining - amount) bills))
      ]
    ]
