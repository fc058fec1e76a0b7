-- ===== src/Finance/Voucher/Posting.antt =====
-- `_post_journal` of apps/finance/views.py. The query of the lines makes an account object for each
-- line before the loop starts, so two lines of one account have two objects of one row.
use ghazatech_inventory_be.Prelude.{ℕ, ◌+◌, Bool, not, ◌||◌, some, List, [], ◌∷◌, any}
use ghazatech_inventory_be.Prelude.Result.{Result, ok, raise_if, ◌>>◌}
use ghazatech_inventory_be.Finance.Accounts.{Account}
use ghazatech_inventory_be.Finance.Journal.{
  JournalStatus, JournalLine, LedgerEntry, moved_account, save_balance, ledger_entry,
}
use ghazatech_inventory_be.Finance.Reversal.{row_object}
use ghazatech_inventory_be.Finance.Voucher.{
  Voucher, Register, VoucherError, wrong_status, not_balanced, posting_blocked, is_approved,
  is_balanced, save_voucher,
}

-- `read` holds the rows as the query read them; `missing` stands for the account of a line that has no
-- row, which the foreign key rules out.
unfoldable pub post_voucher_lines :
    Account
    → List Account
    → ℕ
    → ℕ
    → List JournalLine
    → List Account
    → List LedgerEntry
    → List Account × List LedgerEntry
post_voucher_lines missing read journal index [] rows ledger = (rows, ledger)
post_voucher_lines missing read journal index (l ∷ lines) rows ledger =
    let a = moved_account (row_object read missing l.account) l.debit l.credit in
    let entry =
      ledger_entry journal index a
        (record { account = l.account; debit = l.debit; credit = l.credit }) in
    post_voucher_lines missing read journal (index + 1) lines (save_balance a rows) (entry ∷ ledger)

abbrev is_restricted : Account → Bool
is_restricted a = not a.is_active || a.lock_from_posting

abbrev pub has_restricted : Account → List Account → List JournalLine → Bool
has_restricted missing rows lines =
    any (λ l. is_restricted (row_object rows missing l.account)) lines

-- The part below the guards.
unfoldable pub posted_register : Account → ℕ → Voucher → Register → Register
posted_register missing user v r =
    let (rows, ledger) = post_voucher_lines missing r.accounts v.pk 1 v.lines r.accounts r.ledger in
    save_voucher (record v { status = JournalStatus.posted; posted_by = some user })
      (record r { accounts = rows; ledger = ledger })

unfoldable pub post_voucher : Account → ℕ → Voucher → Register → Result VoucherError Register
unfolding posted_register
post_voucher missing user v r = do
  raise_if (not (is_approved v.status)) wrong_status
  raise_if (not (is_balanced v.lines)) not_balanced
  raise_if (has_restricted missing r.accounts v.lines) posting_blocked
  ok (posted_register missing user v r)
