-- ===== src/Finance/Reversed.antt =====
-- What a reversal does to the books (apps/finance/accounting.py).
use ghazatech_inventory_be.Prelude.{
  ℕ, ◌≡◌, ◌∙◌, inl, inr, sym, ap, true, Option, none, some, List, [], ◌∷◌, ◌==◌, ==_iff, map, arith,
  Bool-cases, Option-cases,
}
use ghazatech_inventory_be.Prelude.Result.{Result, ok, >>=-eq-ok, ok_injective}
use ghazatech_inventory_be.Finance.Accounts.{Account, PostingError}
use ghazatech_inventory_be.Finance.Journal.{
  Reference, reversal, JournalLine, JournalEntry, Books, posted_journal, post_system_journal,
}
use ghazatech_inventory_be.Finance.Fresh.{trial_balance, row, AllFresh, AllApart, IsFresh, IsApart}
use ghazatech_inventory_be.Finance.Balance.{post_system_journal-trial_balance}
use ghazatech_inventory_be.Finance.Documents.{is_some}
use ghazatech_inventory_be.Finance.Reversal.{
  row_object, reversed_line, reverse_journal, reverse_reference,
}

-- Every line's account has a row.
abbrev pub AllKnown : List Account → List JournalLine → Type 0
AllKnown rows [] = Unit
AllKnown rows (l ∷ lines) = (is_some (row l.account rows) ≡ true) × AllKnown rows lines

pub row-pk : (k : ℕ) (rows : List Account) {a : Account} → row k rows ≡ some a → a.pk ≡ k
row-pk k [] h = cc
row-pk k (r ∷ rows) {a} h = elim (Bool-cases (r.pk == k)) [
  | inl hit ↦ let e : some r ≡ some a = rw hit at h in let p = (==_iff r.pk k).0 hit in cc
  | inr miss ↦ row-pk k rows (rw miss at h)
]

module _ (rows : List Account) (missing : Account) where
  object_known :
      (k : ℕ)
      → is_some (row k rows) ≡ true
      → ((row_object rows missing k).pk ≡ k) × IsFresh (row_object rows missing) rows k
  object_known k h = elim (Option-cases (row k rows)) [
    | inl empty ↦ let e = h in absurd (ground arith)
    | inr (a, found) ↦
        let p = row-pk k rows found in
        let e : row_object rows missing k ≡ a =
          ap (λ (o : Option Account). elim o as (λ _. Account) [ none ↦ missing | some b ↦ b ])
            found in
        rw e (p, ap (λ n. row n rows) p ∙ found)
  ]

  object-IsApart :
      (h k : ℕ)
      → is_some (row h rows) ≡ true
      → is_some (row k rows) ≡ true
      → IsApart (row_object rows missing) h k
  object-IsApart h k a b = elim (Bool-cases (h == k)) [
    | inl same ↦ inl (sym ((==_iff h k).0 same))
    | inr differ ↦ inr (rw ((object_known h a).0, (object_known k b).0) differ)
  ]

  known-AllApart :
      (h : ℕ) (lines : List JournalLine)
      → is_some (row h rows) ≡ true
      → AllKnown rows lines
      → AllApart (row_object rows missing) h (map reversed_line lines)
  known-AllApart h [] a c = tt
  known-AllApart h (l ∷ lines) a (b, c) =
      (object-IsApart h l.account a b, known-AllApart h lines a c)

  known-AllFresh :
      (lines : List JournalLine)
      → AllKnown rows lines
      → AllFresh (row_object rows missing) rows (map reversed_line lines)
  known-AllFresh [] c = tt
  known-AllFresh (l ∷ lines) (b, c) =
      ((object_known l.account b).1, known-AllApart l.account lines b c, known-AllFresh lines c)

reverse_journal-trial_balance :
    (missing : Account) (reference : Reference) (j : JournalEntry) (books : Books)
    {r : Option JournalEntry} {books' : Books}
    → AllKnown books.chart.accounts j.lines
    → reverse_journal missing reference j books ≡ ok (r, books')
    → trial_balance books'.chart.accounts ≡ trial_balance books.chart.accounts
reverse_journal-trial_balance missing reference j books {r} {books'} known h =
    elim (Bool-cases (is_some (posted_journal (reversal reference j.pk) books))) [
      | inl done ↦
          let e = ok_injective (rw done at h) in
          ap (λ (q : Option JournalEntry × Books). trial_balance q.1.chart.accounts) (sym e)
      | inr fresh ↦
          let ((i, between), posted, made) =
            >>=-eq-ok
              (post_system_journal j.branch (reversal reference j.pk) (map reversed_line j.lines)
                (row_object books.chart.accounts missing) books)
              _ (rw fresh at h) in
          let e = ok_injective made in
          ap (λ (q : Option JournalEntry × Books). trial_balance q.1.chart.accounts) (sym e)
          ∙ post_system_journal-trial_balance j.branch (reversal reference j.pk)
              (map reversed_line j.lines) (row_object books.chart.accounts missing) books
              (known-AllFresh books.chart.accounts missing j.lines known) posted
    ]

-- The reversal of a posted reference leaves the trial balance as it was, where every line of the
-- journal names an account with a row.
pub reverse_reference-trial_balance :
    (missing : Account) (reference : Reference) (j : JournalEntry) (books : Books)
    {r : Option JournalEntry} {books' : Books}
    → posted_journal reference books ≡ some j
    → AllKnown books.chart.accounts j.lines
    → reverse_reference missing reference books ≡ ok (r, books')
    → trial_balance books'.chart.accounts ≡ trial_balance books.chart.accounts
unfolding reverse_reference
reverse_reference-trial_balance missing reference j books found known h =
    let e : reverse_reference missing reference books ≡ reverse_journal missing reference j books =
      ap
        (λ (o : Option JournalEntry).
          elim o as (λ _. Result PostingError (Option JournalEntry × Books)) [
            | none ↦ ok (none, books)
            | some i ↦ reverse_journal missing reference i books
          ])
        found in
    reverse_journal-trial_balance missing reference j books known (sym e ∙ h)
