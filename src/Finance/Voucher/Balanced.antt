-- ===== src/Finance/Voucher/Balanced.antt =====
-- The trial balance while journals that are entered by hand are posted (apps/finance/views.py).
use ghazatech_inventory_be.Prelude.{
  ℕ, ◌+◌, ◌≡◌, ◌∙◌, refl, sym, ap, true, false, not, Option, none, some, List, [], ◌∷◌, arith,
}
use ghazatech_inventory_be.Prelude.Int.{ℤ, ◌+ℤ◌, eqb_ℤ_iff, pos_part, neg_part, int_laws}
use ghazatech_inventory_be.Prelude.Result.{ok, raise_if, >>=-eq-ok, ok_injective}
use ghazatech_inventory_be.Finance.Accounts.{Account}
use ghazatech_inventory_be.Finance.Journal.{
  JournalLine, LedgerEntry, SourceLine, moved_account, save_balance, ledger_entry,
}
use ghazatech_inventory_be.Finance.Reversal.{row_object}
use ghazatech_inventory_be.Finance.Reversed.{row-pk}
use ghazatech_inventory_be.Finance.Fresh.{row, trial_balance, save-trial_balance}
use ghazatech_inventory_be.Finance.Voucher.{
  Voucher, Register, is_approved, wrong_status, is_balanced, not_balanced, posting_blocked,
  debit_of, credit_of,
}
use ghazatech_inventory_be.Finance.Voucher.Posting.{
  post_voucher_lines, post_voucher, posted_register, has_restricted,
}
use ghazatech_inventory_be.Finance.Voucher.Posted.{
  AllApart, AllFound, AllSame, AllSame-save, AllSame-refl,
}

object_at :
    (missing : Account) (read : List Account) (k : ℕ) {a : Account}
    → row k read ≡ some a
    → row_object read missing k ≡ a
object_at missing read k at =
    ap (λ (o : Option Account). elim o as (λ _. Account) [ none ↦ missing | some b ↦ b ]) at

post_voucher_lines-trial_balance :
    (missing : Account) (read : List Account) (journal index : ℕ) (lines : List JournalLine)
    (rows : List Account) (ledger : List LedgerEntry)
    → AllFound read lines
    → AllSame read rows lines
    → AllApart lines
    → trial_balance (post_voucher_lines missing read journal index lines rows ledger).0
        +ℤ credit_of lines
      ≡ trial_balance rows +ℤ debit_of lines
unfolding post_voucher_lines
post_voucher_lines-trial_balance missing read journal index [] rows ledger found same apart = refl
post_voucher_lines-trial_balance missing read journal index (l ∷ lines) rows ledger ((a, at), found)
      (now, same) (unused, apart) =
    let key : a.pk ≡ l.account = row-pk l.account read at in
    let moved = moved_account a l.debit l.credit in
    let source : SourceLine = record { account = l.account; debit = l.debit; credit = l.credit } in
    let go_on : Account → ℤ = λ b.
      trial_balance
        (post_voucher_lines missing read journal (index + 1) lines (save_balance b rows)
          (ledger_entry journal index b source ∷ ledger)).0 in
    let opened : go_on (moved_account (row_object read missing l.account) l.debit l.credit)
        ≡ go_on moved =
      ap (λ (b : Account). go_on (moved_account b l.debit l.credit))
        (object_at missing read l.account at) in
    let ih =
      post_voucher_lines-trial_balance missing read journal (index + 1) lines
        (save_balance moved rows) (ledger_entry journal index moved source ∷ ledger) found
        (AllSame-save read rows moved lines (rw key unused) same) apart in
    let fresh : row a.pk rows ≡ some a = ap (λ (n : ℕ). row n rows) key ∙ now ∙ at in
    let saved = save-trial_balance a l.debit l.credit rows fresh in
    omega (
      int_laws,
      ap pos_part opened,
      ap neg_part opened,
      ap pos_part ih,
      ap neg_part ih,
      ap pos_part saved,
      ap neg_part saved,
    )

-- A journal that is posted has passed the checks.
pub post_voucher-eq-ok :
    (missing : Account) (user : ℕ) (v : Voucher) (r : Register) {r' : Register}
    → post_voucher missing user v r ≡ ok r'
    → (is_approved v.status ≡ true)
      × (is_balanced v.lines ≡ true)
      × (has_restricted missing r.accounts v.lines ≡ false)
      × (posted_register missing user v r ≡ r')
unfolding post_voucher
post_voucher-eq-ok missing user v r h =
    let (_, e1, h1) = >>=-eq-ok (raise_if (not (is_approved v.status)) wrong_status) _ h in
    let (_, e2, h2) = >>=-eq-ok (raise_if (not (is_balanced v.lines)) not_balanced) _ h1 in
    let (_, e3, h3) =
      >>=-eq-ok (raise_if (has_restricted missing r.accounts v.lines) posting_blocked) _ h2 in
    (ground arith, ground arith, ground arith, ok_injective h3)

-- A journal on different accounts, each with a row, keeps the trial balance when it is posted.
pub post_voucher-trial_balance :
    (missing : Account) (user : ℕ) (v : Voucher) (r : Register) {r' : Register}
    → AllFound r.accounts v.lines
    → AllApart v.lines
    → post_voucher missing user v r ≡ ok r'
    → trial_balance r'.accounts ≡ trial_balance r.accounts
unfolding posted_register
post_voucher-trial_balance missing user v r found apart h =
    let (_, balanced, _, made) = post_voucher-eq-ok missing user v r h in
    let sums =
      post_voucher_lines-trial_balance missing r.accounts v.pk 1 v.lines r.accounts r.ledger found
        (AllSame-refl r.accounts v.lines) apart in
    let equal : debit_of v.lines ≡ credit_of v.lines =
      ground (arith, eqb_ℤ_iff (debit_of v.lines) (credit_of v.lines)) in
    ap (λ (q : Register). trial_balance q.accounts) (sym made)
    ∙ omega (int_laws, ap pos_part sums, ap neg_part sums, ap pos_part equal, ap neg_part equal)
