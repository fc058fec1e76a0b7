-- ===== src/Finance/Balance.antt =====
-- The trial balance while journals are posted (apps/finance/accounting.py).
use ghazatech_inventory_be.Prelude.{
  ℕ, ◌+◌, ◌≡◌, ◌⊎◌, inl, inr, refl, sym, ap, Option, none, some, List, [], ◌∷◌, arith,
}
use ghazatech_inventory_be.Prelude.Int.{pos, ◌+ℤ◌, eqb_ℤ_iff, int_laws, ◌≤ℤ◌, pos_part, neg_part}
use ghazatech_inventory_be.Prelude.Result.{ok, raise_if, >>=-eq-ok, ok_injective}
use ghazatech_inventory_be.Finance.Accounts.{Account, not_balanced}
use ghazatech_inventory_be.Finance.Journal.{
  Reference, JournalEntry, Books, Objects, SourceLine, LedgerEntry, post_lines, total_debit,
  total_credit, posted_journal, create_journal, post_unless, is_unbalanced, post_system_journal,
  ledger_entry,
}
use ghazatech_inventory_be.Finance.Fresh.{
  trial_balance, save-trial_balance, AllFresh, objects', rows', step-AllFresh,
}

-- The loop over the lines moves the trial balance by their debits less their credits.
post_lines-trial_balance :
    (journal index : ℕ) (lines : List SourceLine) (objects : Objects) (rows : List Account)
    (ledger : List LedgerEntry)
    → AllFresh objects rows lines
    → trial_balance (post_lines journal index lines objects rows ledger).0 +ℤ total_credit lines
      ≡ trial_balance rows +ℤ total_debit lines
unfolding post_lines
post_lines-trial_balance journal index [] objects rows ledger f = refl
post_lines-trial_balance journal index (l ∷ lines) objects rows ledger (fl, apart, rest) =
    let h = l.account in
    let ih =
      post_lines-trial_balance journal (index + 1) lines (objects' h l.debit l.credit objects rows)
        (rows' h l.debit l.credit objects rows)
        (ledger_entry journal index (objects' h l.debit l.credit objects rows h) l ∷ ledger)
        (step-AllFresh h l.debit l.credit objects rows lines fl apart rest) in
    let saved = save-trial_balance (objects h) l.debit l.credit rows fl in
    omega (int_laws, ap pos_part ih, ap neg_part ih, ap pos_part saved, ap neg_part saved)

-- A successful call returns the journal that is there, or posts balanced lines.
post_unless-cases :
    (old : Option JournalEntry) (branch : ℕ) (reference : Reference) (lines : List SourceLine)
    (objects : Objects) (books : Books) {j : JournalEntry} {books' : Books}
    → post_unless old branch reference lines objects books ≡ ok (j, books')
    → ((old ≡ some j) × (books' ≡ books))
      ⊎ ((old ≡ none)
          × (total_debit lines ≡ total_credit lines)
          × (pos 1 ≤ℤ total_debit lines)
          × (create_journal branch reference lines objects books ≡ (j, books')))
post_unless-cases (some old) branch reference lines objects books h =
    let e = ok_injective h in
    inl (
      ap (λ (p : JournalEntry × Books). some p.0) e,
      sym (ap (λ (p : JournalEntry × Books). p.1) e),
    )
post_unless-cases none branch reference lines objects books h =
    let (_, balanced, made) = >>=-eq-ok (raise_if (is_unbalanced lines) not_balanced) _ h in
    inr (
      refl,
      ground (arith, eqb_ℤ_iff (total_debit lines) (total_credit lines)),
      ground arith,
      ok_injective made,
    )

pub post_system_journal-cases :
    (branch : ℕ) (reference : Reference) (lines : List SourceLine) (objects : Objects)
    (books : Books) {j : JournalEntry} {books' : Books}
    → post_system_journal branch reference lines objects books ≡ ok (j, books')
    → ((posted_journal reference books ≡ some j) × (books' ≡ books))
      ⊎ ((posted_journal reference books ≡ none)
          × (total_debit lines ≡ total_credit lines)
          × (pos 1 ≤ℤ total_debit lines)
          × (create_journal branch reference lines objects books ≡ (j, books')))
unfolding post_system_journal
post_system_journal-cases branch reference lines objects books h =
    post_unless-cases (posted_journal reference books) branch reference lines objects books h

-- A system journal that is returned, posted now or earlier, leaves the trial balance of the chart as it
-- was, if every line's account object is fresh and no two objects stand for one row.
pub post_system_journal-trial_balance :
    (branch : ℕ) (reference : Reference) (lines : List SourceLine) (objects : Objects)
    (books : Books) {j : JournalEntry} {books' : Books}
    → AllFresh objects books.chart.accounts lines
    → post_system_journal branch reference lines objects books ≡ ok (j, books')
    → trial_balance books'.chart.accounts ≡ trial_balance books.chart.accounts
post_system_journal-trial_balance branch reference lines objects books {j} {books'} f h =
    elim (post_system_journal-cases branch reference lines objects books h) [
      | inl (_, same) ↦ rw same
      | inr (_, balanced, _, made) ↦
          let moved =
            post_lines-trial_balance books.next_journal 1 lines objects books.chart.accounts
              books.ledger f in
          let e : books'.chart.accounts
              ≡ (post_lines books.next_journal 1 lines objects books.chart.accounts
                  books.ledger).0 =
            ap (λ (p : JournalEntry × Books). p.1.chart.accounts) (sym made) in
          rw e (
            omega (
              int_laws,
              ap pos_part moved,
              ap neg_part moved,
              ap pos_part balanced,
              ap neg_part balanced,
            ))
    ]
