-- ===== src/Finance/Payments.antt =====
-- What a payment does to the books and to its sources of money (apps/finance/accounting.py).
use mathlib.Core.Path.{ap₂, subst}
use ghazatech_inventory_be.Prelude.{
  ℕ, ◌≡◌, inl, inr, refl, sym, ap, ◌∙◌, true, false, none, some, List, [], ◌∷◌, ◌==◌, arith,
}
use ghazatech_inventory_be.Prelude.Int.{pos, ◌-ℤ◌, int_laws}
use ghazatech_inventory_be.Prelude.Result.{ok, >>=-eq-ok, ok_injective}
use ghazatech_inventory_be.Finance.Accounts.{Account}
use ghazatech_inventory_be.Finance.Journal.{
  save_balance, moved_account, DocumentKind, document, Reference, reference_eq, JournalEntry, Books,
  Objects, posted_journal, post_system_journal, create_journal, post_lines, SourceLine,
}
use ghazatech_inventory_be.Finance.Fresh.{save-trial_balance, trial_balance, row}
use ghazatech_inventory_be.Finance.Balance.{
  post_system_journal-trial_balance, post_system_journal-cases,
}
use ghazatech_inventory_be.Finance.Money.{Payment, Direction, CashBucket}
use ghazatech_inventory_be.Finance.Documents.{debit_line, credit_line, three_objects, post_payment}

pub reference_eq_refl : (r : Reference) → reference_eq r r ≡ true
reference_eq_refl (Reference.document k n) = ground arith
reference_eq_refl (Reference.reversal r n) = ground (arith, reference_eq_refl r)

-- Posting leaves the reference posted by the journal that is returned.
pub posted_after :
    (branch : ℕ) (reference : Reference) (lines : List SourceLine) (objects : Objects)
    (books : Books) {j : JournalEntry} {books' : Books}
    → post_system_journal branch reference lines objects books ≡ ok (j, books')
    → posted_journal reference books' ≡ some j
posted_after branch reference lines objects books {j} {books'} h =
    elim (post_system_journal-cases branch reference lines objects books h) [
      | inl (there, same) ↦ rw same there
      | inr (_, _, _, made) ↦
          let e : posted_journal reference (create_journal branch reference lines objects books).1
              ≡ some (create_journal branch reference lines objects books).0 =
            rw (reference_eq_refl reference) in
          subst (λ (q : JournalEntry × Books). posted_journal reference q.1 ≡ some q.0) made e
    ]

-- The parts of a payment's posting.
post_payment-eq-ok :
    (kind : DocumentKind) (direction : Direction) (bucket : CashBucket) (p : Payment)
    (debited credited : Account) (books : Books) {j : JournalEntry} {p' : Payment} {books' : Books}
    → post_payment kind direction bucket p debited credited books ≡ ok (j, p', books')
    → (post_system_journal p.branch
          (document kind p.pk)
          (debit_line 0 p.amount ∷ credit_line 1 p.amount ∷ [])
          (three_objects debited credited credited)
          books
        ≡ ok (j, books'))
      × (p'.pk ≡ p.pk)
      × (p'.branch ≡ p.branch)
unfolding post_payment
post_payment-eq-ok kind direction bucket p debited credited books {j} {p'} {books'} h =
    let ((j0, books0), posted, e) =
      >>=-eq-ok
        (post_system_journal p.branch (document kind p.pk)
          (debit_line 0 p.amount ∷ credit_line 1 p.amount ∷ [])
          (three_objects debited credited credited) books)
        _ h in
    let same : j0 ≡ j = ap (λ (t : JournalEntry × Payment × Books). t.0) (ok_injective e) in
    let same' : books0 ≡ books' =
      ap (λ (t : JournalEntry × Payment × Books). t.2) (ok_injective e) in
    let paid = sym (ap (λ (t : JournalEntry × Payment × Books). t.1) (ok_injective e)) in
    (
      posted ∙ ap₂ (λ (x : JournalEntry) (y : Books). ok (x, y)) same same',
      ap (λ (q : Payment). q.pk) paid ∙ ground arith,
      ap (λ (q : Payment). q.branch) paid ∙ ground arith,
    )

-- A payment whose two accounts are different rows, read afresh, keeps the trial balance.
pub post_payment-trial_balance :
    (kind : DocumentKind) (direction : Direction) (bucket : CashBucket) (p : Payment)
    (debited credited : Account) (books : Books) {j : JournalEntry} {p' : Payment} {books' : Books}
    → row debited.pk books.chart.accounts ≡ some debited
    → row credited.pk books.chart.accounts ≡ some credited
    → (debited.pk == credited.pk) ≡ false
    → post_payment kind direction bucket p debited credited books ≡ ok (j, p', books')
    → trial_balance books'.chart.accounts ≡ trial_balance books.chart.accounts
post_payment-trial_balance kind direction bucket p debited credited books fd fc apart h =
    let (posted, _, _) = post_payment-eq-ok kind direction bucket p debited credited books h in
    post_system_journal-trial_balance p.branch (document kind p.pk)
      (debit_line 0 p.amount ∷ credit_line 1 p.amount ∷ [])
      (three_objects debited credited credited) books (fd, (inr apart, tt), (fc, tt, tt)) posted

-- The second posting of a payment leaves the books and the money as the first left them.
pub post_payment_again :
    (kind : DocumentKind) (direction : Direction) (bucket : CashBucket) (p : Payment)
    (debited credited : Account) (books : Books) {j : JournalEntry} {p' : Payment} {books' : Books}
    → post_payment kind direction bucket p debited credited books ≡ ok (j, p', books')
    → post_payment kind direction bucket p' debited credited books' ≡ ok (j, p', books')
unfolding post_payment post_system_journal
post_payment_again kind direction bucket p debited credited books {j} {p'} {books'} h =
    let (posted, same_pk, _) =
      post_payment-eq-ok kind direction bucket p debited credited books h in
    let found : posted_journal (document kind p'.pk) books' ≡ some j = rw same_pk (
      posted_after p.branch (document kind p.pk)
        (debit_line 0 p.amount ∷ credit_line 1 p.amount ∷ [])
        (three_objects debited credited credited) books posted) in
    rw found

-- A second save of one row leaves nothing of the first.
save_again :
    (a b : Account) (rows : List Account)
    → b.pk ≡ a.pk
    → save_balance a (save_balance b rows) ≡ save_balance a rows
save_again a b [] e = refl
save_again a b (r ∷ rows) e = ground (arith, save_again a b rows e)

-- A payment whose two accounts are two objects of one row loses an update: the row keeps only the
-- credit, and the trial balance is off by the amount.
pub post_payment_lost_update :
    (kind : DocumentKind) (direction : Direction) (bucket : CashBucket) (p : Payment) (a : Account)
    (books : Books) {j : JournalEntry} {p' : Payment} {books' : Books}
    → row a.pk books.chart.accounts ≡ some a
    → posted_journal (document kind p.pk) books ≡ none
    → post_payment kind direction bucket p a a books ≡ ok (j, p', books')
    → trial_balance books'.chart.accounts ≡ trial_balance books.chart.accounts -ℤ p.amount
unfolding post_lines
post_payment_lost_update kind direction bucket p a books {j} {p'} {books'} fresh unposted h =
    let lines = debit_line 0 p.amount ∷ credit_line 1 p.amount ∷ [] in
    let (posted, _, _) = post_payment-eq-ok kind direction bucket p a a books h in
    elim (post_system_journal-cases p.branch (document kind p.pk) lines (three_objects a a a) books
      posted) [
        | inl (there, _) ↦ let e = unposted in cc
        | inr (_, _, _, made) ↦
            let rows = books.chart.accounts in
            let e : books'.chart.accounts
                ≡ save_balance (moved_account a (pos 0) p.amount)
                    (save_balance (moved_account a p.amount (pos 0)) rows) =
              ap (λ (q : JournalEntry × Books). q.1.chart.accounts) (sym made) in
            let saved = save-trial_balance a (pos 0) p.amount rows fresh in
            rw
              (
                e,
                save_again (moved_account a (pos 0) p.amount) (moved_account a p.amount (pos 0))
                    rows refl,
                saved,
              )
              (omega int_laws)
      ]
