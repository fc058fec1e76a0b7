-- ===== src/Finance/Voucher/LostLine.antt =====
-- Two lines of one account in a journal that is posted (`_post_journal` of apps/finance/views.py).
use ghazatech_inventory_be.Prelude.{
  ℕ, ◌+◌, ◌≡◌, ◌∙◌, refl, sym, ap, List, [], ◌∷◌, map, ◌==◌, Bool-cases, inl, inr,
}
use ghazatech_inventory_be.Prelude.Result.{ok}
use ghazatech_inventory_be.Finance.Accounts.{Account}
use ghazatech_inventory_be.Finance.Journal.{JournalLine, LedgerEntry, save_balance, moved_account}
use ghazatech_inventory_be.Finance.Reversal.{row_object}
use ghazatech_inventory_be.Finance.Voucher.{Voucher, Register}
use ghazatech_inventory_be.Finance.Voucher.Posting.{
  post_voucher_lines, post_voucher, posted_register,
}
use ghazatech_inventory_be.Finance.Voucher.Posted.{
  AllUnique, AllApart, AllFound, AllSame-refl, with_added, post_voucher_lines-added,
}
use ghazatech_inventory_be.Finance.Voucher.Balanced.{post_voucher-eq-ok}

-- Two saves of one row leave the second.
save_balance_twice :
    (a b : Account) (rows : List Account)
    → a.pk ≡ b.pk
    → save_balance b (save_balance a rows) ≡ save_balance b rows
save_balance_twice a b [] same = refl
save_balance_twice a b (r ∷ rows) same = elim (Bool-cases (r.pk == b.pk)) [
  | inl hit ↦ rw (same, hit, hit)
  | inr miss ↦ rw (same, miss, miss, save_balance_twice a b rows same)
]

-- The rows do not depend on the ledger.
rows-same :
    (missing : Account) (read : List Account) (journal i k : ℕ) (lines : List JournalLine)
    (rows : List Account) (ledger other : List LedgerEntry)
    → (post_voucher_lines missing read journal i lines rows ledger).0
      ≡ (post_voucher_lines missing read journal k lines rows other).0
unfolding post_voucher_lines
rows-same missing read journal i k [] rows ledger other = refl
rows-same missing read journal i k (l ∷ lines) rows ledger other =
    rows-same missing read journal (i + 1) (k + 1) lines
      (save_balance (moved_account (row_object read missing l.account) l.debit l.credit) rows) _ _

lost_first :
    (missing : Account) (read : List Account) (journal : ℕ) (l m : JournalLine)
    (lines : List JournalLine) (rows : List Account) (ledger : List LedgerEntry)
    → l.account ≡ m.account
    → (post_voucher_lines missing read journal 1 (l ∷ m ∷ lines) rows ledger).0
      ≡ (post_voucher_lines missing read journal 1 (m ∷ lines) rows ledger).0
unfolding post_voucher_lines
lost_first missing read journal l m lines rows ledger same =
    let a = moved_account (row_object read missing l.account) l.debit l.credit in
    let b = moved_account (row_object read missing m.account) m.debit m.credit in
    let one_row : a.pk ≡ b.pk = ap (λ (k : ℕ). (row_object read missing k).pk) same in
    rows-same missing read journal 3 2 lines (save_balance b (save_balance a rows)) _ ledger
    ∙ ap (λ (rs : List Account). (post_voucher_lines missing read journal 2 lines rs ledger).0)
        (save_balance_twice a b rows one_row)
    ∙ rows-same missing read journal 2 2 lines (save_balance b rows) ledger _

-- A journal whose first two lines are on one account, and whose others are on accounts of their
-- own, is posted as if the first line were not there: the accounts get what the other lines say,
-- where accounts have numbers of their own and every line's account has a row.
pub post_voucher_loses_line :
    (missing : Account) (user : ℕ) (l m : JournalLine) (lines : List JournalLine) (v : Voucher)
    (r : Register) {r' : Register}
    → v.lines ≡ l ∷ m ∷ lines
    → l.account ≡ m.account
    → AllUnique r.accounts
    → AllFound r.accounts (m ∷ lines)
    → AllApart (m ∷ lines)
    → post_voucher missing user v r ≡ ok r'
    → r'.accounts ≡ map (with_added (m ∷ lines)) r.accounts
unfolding posted_register
post_voucher_loses_line missing user l m lines v r has same unique found apart h =
    let (_, _, _, made) = post_voucher-eq-ok missing user v r h in
    ap (λ (q : Register). q.accounts) (sym made)
    ∙ ap
        (λ (ls : List JournalLine).
          (post_voucher_lines missing r.accounts v.pk 1 ls r.accounts r.ledger).0)
        has
    ∙ lost_first missing r.accounts v.pk l m lines r.accounts r.ledger same
    ∙ post_voucher_lines-added missing r.accounts v.pk 1 (m ∷ lines) r.accounts r.ledger unique
        found (AllSame-refl r.accounts (m ∷ lines)) apart
