-- ===== src/Tests/FinanceRuns.antt =====
-- The theorems on the ledger at a payment of 150.00 to a supplier.
use mathlib.Core.List.{Mem}
use ghazatech_inventory_be.Prelude.{
  ℕ, ◌≡◌, refl, true, false, Option, none, some, List, [], ◌∷◌, inr,
}
use ghazatech_inventory_be.Prelude.Int.{pos, negsuc, ◌+ℤ◌, ◌-ℤ◌}
use ghazatech_inventory_be.Prelude.Result.{ok, err}
use ghazatech_inventory_be.Finance.Accounts.{
  Account, asset, liability, SubType, NormalBalance, not_applicable, Definition, Chart,
  not_balanced, ensure_core_accounts, account_for,
}
use ghazatech_inventory_be.Finance.Choice.{is_open_global, account_for-global}
use ghazatech_inventory_be.Finance.Journal.{
  Books, JournalEntry, JournalStatus, document, supplier_payment, post_system_journal, post_lines,
  move_account, SourceLine,
}
use ghazatech_inventory_be.Finance.Fresh.{row, trial_balance}
use ghazatech_inventory_be.Finance.Balance.{post_system_journal-trial_balance}
use ghazatech_inventory_be.Finance.Money.{
  Payment, PaymentMethod, outgoing, expense_bucket, update_money_source,
}
use ghazatech_inventory_be.Finance.Documents.{debit_line, credit_line, three_objects, post_payment}
use ghazatech_inventory_be.Finance.Reversal.{reverse_reference}
use ghazatech_inventory_be.Finance.Payments.{post_payment_lost_update}
use ghazatech_inventory_be.Tests.TransferData.{result_or}

abbrev account : ℕ → Option ℕ → Definition → Account
account pk branch definition = record {
  pk = pk;
  branch = branch;
  definition = definition;
  current_balance = pos 0;
  is_active = true;
  lock_from_posting = false;
}

abbrev bank_definition : Definition
bank_definition = record {
  code = 10100;
  account_type = asset;
  sub_type = SubType.bank;
  normal_balance = NormalBalance.debit;
  tax_treatment = not_applicable;
}

abbrev payable : Account
payable = account 1 none (record {
  code = 20000;
  account_type = liability;
  sub_type = SubType.accounts_payable;
  normal_balance = NormalBalance.credit;
  tax_treatment = not_applicable;
})

abbrev bank : Account
bank = account 2 none bank_definition

abbrev own_bank : Account
own_bank = account 3 (some 1) bank_definition

abbrev chart : Chart
chart = record { accounts = payable ∷ bank ∷ own_bank ∷ []; next_pk = 4 }

abbrev books : Books
books = record { chart = chart; journals = []; ledger = []; next_journal = 1 }

abbrev payment : Payment
payment = record {
  pk = 5;
  branch = 1;
  amount = pos 15_000;
  payment_method = PaymentMethod.bank_transfer;
  bank_account = some (record { chart_account = some bank; current_balance = pos 100_000 });
  cash_register = none;
}

abbrev no_journal : JournalEntry
no_journal = record {
  pk = 0;
  branch = 0;
  is_system = false;
  reference = document supplier_payment 0;
  status = JournalStatus.draft;
  lines = [];
}

abbrev lines : List SourceLine
lines = debit_line 0 (pos 15_000) ∷ credit_line 1 (pos 15_000) ∷ []

-- The payment posted against a debited and a credited account.
abbrev paid : Account → Account → JournalEntry × Payment × Books
unfolding post_payment
paid a b =
    result_or (post_payment supplier_payment outgoing expense_bucket payment a b books)
      (no_journal, payment, books)

unfoldable posting : Unit {0}
unfolding post_payment post_system_journal post_lines move_account update_money_source ◌+ℤ◌ ◌-ℤ◌
    trial_balance
posting = tt

balance_run : trial_balance (paid payable bank).2.chart.accounts ≡ pos 0
unfolding posting
balance_run = refl

lost_run : trial_balance (paid bank bank).2.chart.accounts ≡ negsuc 14_999
unfolding posting
lost_run = refl

-- A line without its counterpart is refused.
unbalanced_run :
    post_system_journal 1
      (document supplier_payment 5)
      (debit_line 0 (pos 15_000) ∷ [])
      (three_objects payable bank bank)
      books
    ≡ err not_balanced
unfolding posting
unbalanced_run = refl

post_system_journal-trial_balance_example :
    trial_balance (paid payable bank).2.chart.accounts ≡ trial_balance books.chart.accounts
unfolding posting
post_system_journal-trial_balance_example =
    post_system_journal-trial_balance 1 (document supplier_payment 5) lines
      (three_objects payable bank bank) books {j = (paid payable bank).0}
      {books' = (paid payable bank).2} (refl, (inr refl, tt), (refl, tt, tt)) refl

post_payment_lost_update_example :
    trial_balance (paid bank bank).2.chart.accounts
    ≡ trial_balance books.chart.accounts -ℤ payment.amount
unfolding posting
post_payment_lost_update_example =
    post_payment_lost_update supplier_payment outgoing expense_bucket payment bank books
      {j = (paid bank bank).0} {p' = (paid bank bank).1} {books' = (paid bank bank).2} refl refl
      refl

account_for-global_example :
    (a : Account) × (account_for 1 10100 chart ≡ ok (a, ensure_core_accounts chart))
    × Mem a (ensure_core_accounts chart).accounts
    × (is_open_global 10100 a ≡ true)
unfolding ensure_core_accounts
account_for-global_example = account_for-global 1 10100 chart refl

own_bank_run : account_for 1 10100 chart ≡ ok (bank, ensure_core_accounts chart)
unfolding account_for ensure_core_accounts
own_bank_run = refl

-- The payment's journal reversed.
abbrev undone : Option JournalEntry × Books
unfolding reverse_reference post_payment
undone =
    result_or (reverse_reference payable (document supplier_payment 5) (paid payable bank).2)
      (none, books)

undone_run : row 1 undone.1.chart.accounts ≡ some payable
unfolding posting reverse_reference
undone_run = refl
