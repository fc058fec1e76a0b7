-- ===== src/Finance/Documents.antt =====
-- The documents that post journals (apps/finance/accounting.py).
use ghazatech_inventory_be.Prelude.{
  ℕ, Bool, true, false, Option, none, some, [], ◌∷◌, ◌==◌, if◌then◌else◌,
}
use ghazatech_inventory_be.Prelude.Int.{ℤ, pos, ◌-ℤ◌, ltb_ℤ}
use ghazatech_inventory_be.Prelude.Result.{Result, ok, ◌>>=◌}
use ghazatech_inventory_be.Finance.Accounts.{Account, Chart, PostingError, account_for}
use ghazatech_inventory_be.Finance.Journal.{
  DocumentKind, supplier_bill, supplier_payment, sales_invoice, sales_payment, purchase_expense,
  document, JournalEntry, Books, Objects, SourceLine, posted_journal, post_system_journal,
}
use ghazatech_inventory_be.Finance.Money.{
  Direction, CashBucket, Payment, payment_account, update_money_source, incoming, outgoing,
  sales_bucket, expense_bucket,
}

-- A bill or an invoice.
pub record Invoice : Type 0 where
  pub pk : ℕ
  pub branch : ℕ
  pub total_amount : ℤ
  pub vat_amount : ℤ

abbrev pub with_chart : Books → Chart → Books
with_chart books chart = record books { chart = chart }

abbrev pub debit_line : ℕ → ℤ → SourceLine
debit_line account amount = record { account = account; debit = amount; credit = pos 0 }

abbrev pub credit_line : ℕ → ℤ → SourceLine
credit_line account amount = record { account = account; debit = pos 0; credit = amount }

-- `a` and `b` are the objects of the handles 0 and 1, and `c` that of 2.
abbrev pub three_objects : Account → Account → Account → Objects
three_objects a b c h = if h == 0 then a else if h == 1 then b else c

-- Input VAT has a line of its own, where there is any.
unfoldable pub post_supplier_bill : Invoice → Books → Result PostingError (JournalEntry × Books)
post_supplier_bill bill books =
    let net = bill.total_amount -ℤ bill.vat_amount in
    do
      (inventory, chart) ← account_for bill.branch 12000 books.chart
      (ap, chart) ← account_for bill.branch 20000 chart
      (vat, chart, lines) ←
          (if ltb_ℤ (pos 0) bill.vat_amount
            then (do
              (vat, chart) ← account_for bill.branch 13000 chart
              ok (
                vat,
                chart,
                debit_line 0 net
                    ∷ debit_line 2 bill.vat_amount
                    ∷ credit_line 1 bill.total_amount
                    ∷ [],
              ))
            else ok (ap, chart, debit_line 0 net ∷ credit_line 1 bill.total_amount ∷ []))
      post_system_journal bill.branch (document supplier_bill bill.pk) lines
          (three_objects inventory ap vat) (with_chart books chart)

unfoldable pub post_sales_invoice : Invoice → Books → Result PostingError (JournalEntry × Books)
post_sales_invoice invoice books =
    let revenue = invoice.total_amount -ℤ invoice.vat_amount in
    do
      (ar, chart) ← account_for invoice.branch 11000 books.chart
      (sales, chart) ← account_for invoice.branch 40000 chart
      (vat, chart, lines) ←
          (if ltb_ℤ (pos 0) invoice.vat_amount
            then (do
              (vat, chart) ← account_for invoice.branch 21000 chart
              ok (
                vat,
                chart,
                debit_line 0 invoice.total_amount
                    ∷ credit_line 1 revenue
                    ∷ credit_line 2 invoice.vat_amount
                    ∷ [],
              ))
            else ok (sales, chart, debit_line 0 invoice.total_amount ∷ credit_line 1 revenue ∷ []))
      post_system_journal invoice.branch (document sales_invoice invoice.pk) lines
          (three_objects ar sales vat) (with_chart books chart)

abbrev pub is_some {ℓ} : {A : Type ℓ} → Option A → Bool
is_some none = false
is_some (some _) = true

-- Debits the object 0 and credits the object 1 with the amount, and moves the money the first time.
unfoldable pub post_payment :
    DocumentKind
    → Direction
    → CashBucket
    → Payment
    → Account
    → Account
    → Books
    → Result PostingError (JournalEntry × Payment × Books)
unfolding update_money_source
post_payment kind direction bucket p debited credited books =
    let reference = document kind p.pk in
    do
      (journal, books') ←
          post_system_journal p.branch reference
            (debit_line 0 p.amount ∷ credit_line 1 p.amount ∷ [])
            (three_objects debited credited credited) books
      ok (
        journal,
        if is_some (posted_journal reference books)
            then p
            else update_money_source direction bucket p,
        books',
      )

unfoldable pub post_supplier_payment :
    Payment → Books → Result PostingError (JournalEntry × Payment × Books)
unfolding post_payment payment_account
post_supplier_payment p books = do
  (ap, chart) ← account_for p.branch 20000 books.chart
  (money, chart) ← payment_account p.branch p.payment_method p.bank_account p.cash_register chart
  post_payment supplier_payment outgoing expense_bucket p ap money (with_chart books chart)

unfoldable pub post_sales_payment :
    Payment → Books → Result PostingError (JournalEntry × Payment × Books)
unfolding post_payment payment_account
post_sales_payment p books = do
  (money, chart) ←
      payment_account p.branch p.payment_method p.bank_account p.cash_register books.chart
  (ar, chart) ← account_for p.branch 11000 chart
  post_payment sales_payment incoming sales_bucket p money ar (with_chart books chart)

unfoldable pub post_purchase_expense :
    Payment → Books → Result PostingError (JournalEntry × Payment × Books)
unfolding post_payment payment_account
post_purchase_expense p books = do
  (expense, chart) ← account_for p.branch 51000 books.chart
  (money, chart) ← payment_account p.branch p.payment_method p.bank_account p.cash_register chart
  post_payment purchase_expense outgoing expense_bucket p expense money (with_chart books chart)
