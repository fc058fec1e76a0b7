-- ===== src/Finance/Money.antt =====
-- The sources of money and the account of a payment: `_payment_account` and `_update_money_source`
-- of apps/finance/accounting.py.
use ghazatech_inventory_be.Prelude.{ℕ, not, Option, none, some, if◌then◌else◌}
use ghazatech_inventory_be.Prelude.Int.{ℤ, pos, neg, ◌+ℤ◌, ◌-ℤ◌, ltb_ℤ}
use ghazatech_inventory_be.Prelude.Result.{Result, ok, err}
use ghazatech_inventory_be.Finance.Accounts.{
  Account, Chart, PostingError, cash_register_required, bank_account_required, source_required,
  account_for,
}

-- `BankAccount`; `chart_account` is the account object that it holds.
pub record BankAccount : Type 0 where
  pub chart_account : Option Account
  pub current_balance : ℤ

pub record CashRegister : Type 0 where
  pub opening_balance : ℤ
  pub total_cash_sales : ℤ
  pub total_cash_expenses : ℤ
  pub closing_balance : ℤ

pub data PaymentMethod : Type 0 where
  cash petty_cash bank_transfer cheque card other_method : PaymentMethod

pub data Direction : Type 0 where
  incoming outgoing : Direction

pub data CashBucket : Type 0 where
  sales_bucket expense_bucket : CashBucket

-- A payment or an expense, with the sources of its money.
pub record Payment : Type 0 where
  pub pk : ℕ
  pub branch : ℕ
  pub amount : ℤ
  pub payment_method : PaymentMethod
  pub bank_account : Option BankAccount
  pub cash_register : Option CashRegister

abbrev cash_account :
    ℕ → Option CashRegister → PostingError → Chart → Result PostingError (Account × Chart)
cash_account branch none e chart = err e
cash_account branch (some _) e chart = account_for branch 10000 chart

-- The account of a bank, or the bank control account.
abbrev bank_control : ℕ → Option Account → Chart → Result PostingError (Account × Chart)
bank_control branch (some a) chart = ok (a, chart)
bank_control branch none chart = account_for branch 10100 chart

abbrev bank_side : ℕ → Option BankAccount → Chart → Result PostingError (Account × Chart)
bank_side branch none chart = err bank_account_required
bank_side branch (some b) chart = bank_control branch b.chart_account chart

abbrev either_side :
    ℕ → Option BankAccount → Option CashRegister → Chart → Result PostingError (Account × Chart)
either_side branch (some b) register chart = bank_control branch b.chart_account chart
either_side branch none register chart = cash_account branch register source_required chart

unfoldable pub payment_account :
    ℕ
    → PaymentMethod
    → Option BankAccount
    → Option CashRegister
    → Chart
    → Result PostingError (Account × Chart)
payment_account branch cash b register chart =
    cash_account branch register cash_register_required chart
payment_account branch petty_cash b register chart =
    cash_account branch register cash_register_required chart
payment_account branch bank_transfer b register chart = bank_side branch b chart
payment_account branch cheque b register chart = bank_side branch b chart
payment_account branch card b register chart = bank_side branch b chart
payment_account branch other_method b register chart = either_side branch b register chart

abbrev moved_bank : Direction → ℤ → BankAccount → BankAccount
moved_bank direction amount b = record b {
  current_balance =
      b.current_balance +ℤ elim direction [ incoming ↦ amount | outgoing ↦ neg amount ];
}

abbrev closed : CashRegister → CashRegister
closed r = record r {
  closing_balance = r.opening_balance +ℤ r.total_cash_sales -ℤ r.total_cash_expenses;
}

abbrev filled : CashBucket → ℤ → CashRegister → CashRegister
filled sales_bucket amount r = closed (record r { total_cash_sales = r.total_cash_sales +ℤ amount })
filled expense_bucket amount r =
    closed (record r { total_cash_expenses = r.total_cash_expenses +ℤ amount })

abbrev on_some {ℓ} : {A : Type ℓ} → (A → A) → Option A → Option A
on_some f none = none
on_some f (some a) = some (f a)

-- An amount that is not positive moves nothing.
unfoldable pub update_money_source : Direction → CashBucket → Payment → Payment
update_money_source direction bucket p = if not (ltb_ℤ (pos 0) p.amount) then p else (record p {
  bank_account = on_some (moved_bank direction p.amount) p.bank_account;
  cash_register = on_some (filled bucket p.amount) p.cash_register;
})
