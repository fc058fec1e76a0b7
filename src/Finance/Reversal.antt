-- ===== src/Finance/Reversal.antt =====
-- `_reverse_reference` of apps/finance/accounting.py, and the invoices that are reversed and posted
-- again.
use ghazatech_inventory_be.Prelude.{Option, none, some, List, map, ◌==◌, if◌then◌else◌, find, put}
use ghazatech_inventory_be.Prelude.Result.{Result, ok, ◌>>=◌}
use ghazatech_inventory_be.Finance.Accounts.{Account, PostingError}
use ghazatech_inventory_be.Finance.Journal.{
  sales_invoice, Reference, document, reversal, reversed, JournalLine, JournalEntry, Books, Objects,
  SourceLine, posted_journal, post_system_journal,
}
use ghazatech_inventory_be.Finance.Documents.{Invoice, is_some, post_sales_invoice}

-- The object of a row, as the lines' prefetch loads it: one object for each row.
abbrev pub row_object : List Account → Account → Objects
row_object rows missing pk = elim (find (λ r. r.pk == pk) rows) [ none ↦ missing | some a ↦ a ]

abbrev pub reversed_line : JournalLine → SourceLine
reversed_line l = record { account = l.account; debit = l.credit; credit = l.debit }

abbrev pub mark_reversed : JournalEntry → Books → Books
mark_reversed j books = record books {
  journals = put (λ i. i.pk == j.pk) (record j { status = reversed }) books.journals;
}

-- `missing` stands for the account of a line that has no row, which the foreign key rules out.
abbrev pub reverse_journal :
    Account → Reference → JournalEntry → Books → Result PostingError (Option JournalEntry × Books)
reverse_journal missing reference j books =
    if is_some (posted_journal (reversal reference j.pk) books) then ok (none, books) else (do
      (r, books) ←
          post_system_journal j.branch (reversal reference j.pk) (map reversed_line j.lines)
            (row_object books.chart.accounts missing) books
      ok (some r, mark_reversed j books))

unfoldable pub reverse_reference :
    Account → Reference → Books → Result PostingError (Option JournalEntry × Books)
reverse_reference missing reference books = elim (posted_journal reference books) [
  | none ↦ ok (none, books)
  | some j ↦ reverse_journal missing reference j books
]

unfoldable pub reverse_sales_invoice :
    Account → Invoice → Books → Result PostingError (Option JournalEntry × Books)
unfolding reverse_reference
reverse_sales_invoice missing invoice books =
    reverse_reference missing (document sales_invoice invoice.pk) books

unfoldable pub repost_sales_invoice :
    Account → Invoice → Books → Result PostingError (JournalEntry × Books)
unfolding reverse_reference post_sales_invoice
repost_sales_invoice missing invoice books = do
  (_, books) ← reverse_reference missing (document sales_invoice invoice.pk) books
  post_sales_invoice invoice books
