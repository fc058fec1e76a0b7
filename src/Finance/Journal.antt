-- ===== src/Finance/Journal.antt =====
-- `_move_account` and `_post_system_journal` of apps/finance/accounting.py.
-- A journal line holds an account object, which may be read before the line is posted: objects are
-- kept apart from rows, and `_move_account` writes the object's balance over the row's. Descriptions,
-- dates, users and the entry's printed number are left out.
use ghazatech_inventory_be.Prelude.{
  ℕ, ◌+◌, Bool, true, false, not, ◌&&◌, ◌||◌, Option, none, some, List, [], ◌∷◌, map, ◌==◌,
  if◌then◌else◌, find,
}
use ghazatech_inventory_be.Prelude.Int.{ℤ, pos, ◌+ℤ◌, ◌-ℤ◌, ltb_ℤ, eqb_ℤ}
use ghazatech_inventory_be.Prelude.Result.{Result, ok, raise_if, ◌>>◌}
use ghazatech_inventory_be.Finance.Accounts.{
  NormalBalance, Account, AccountType, Chart, PostingError, not_balanced,
}

-- The documents that post journals; `f"{KIND}:{pk}"`.
pub data DocumentKind : Type 0 where
  supplier_bill supplier_payment sales_invoice sales_payment purchase_expense other_document :
      DocumentKind

-- `f"{reference}:REV:{pk}"` for a reversal. Equal texts come from equal parts.
pub data Reference : Type 0 where
  document : DocumentKind → ℕ → Reference
  reversal : Reference → ℕ → Reference

abbrev pub kind_code : DocumentKind → ℕ
kind_code supplier_bill = 0
kind_code supplier_payment = 1
kind_code sales_invoice = 2
kind_code sales_payment = 3
kind_code purchase_expense = 4
kind_code other_document = 5

abbrev pub reference_eq : Reference → Reference → Bool
reference_eq (document k m) (document l n) = (kind_code k == kind_code l) && (m == n)
reference_eq (reversal r m) (reversal s n) = reference_eq r s && (m == n)
reference_eq (document _ _) (reversal _ _) = false
reference_eq (reversal _ _) (document _ _) = false

pub data JournalStatus : Type 0 where
  draft pending_approval approved rejected posted reversed : JournalStatus

pub record JournalLine : Type 0 where
  pub account : ℕ
  pub debit : ℤ
  pub credit : ℤ

pub record JournalEntry : Type 0 where
  pub pk : ℕ
  pub branch : ℕ
  pub is_system : Bool
  pub reference : Reference
  pub status : JournalStatus
  pub lines : List JournalLine

pub record LedgerEntry : Type 0 where
  pub journal : ℕ
  pub index : ℕ
  pub account : ℕ
  pub ledger_type : AccountType
  pub debit_amount : ℤ
  pub credit_amount : ℤ
  pub balance : ℤ

-- The tables of the general ledger; journals newest first.
pub record Books : Type 0 where
  pub chart : Chart
  pub journals : List JournalEntry
  pub ledger : List LedgerEntry
  pub next_journal : ℕ

-- The account objects in memory, by handle.
abbrev pub Objects : Type 0
Objects = ℕ → Account

-- A line to post: `account` is a handle.
pub record SourceLine : Type 0 where
  pub account : ℕ
  pub debit : ℤ
  pub credit : ℤ

abbrev pub movement : NormalBalance → ℤ → ℤ → ℤ
movement NormalBalance.debit d c = d -ℤ c
movement NormalBalance.credit d c = c -ℤ d

abbrev pub moved_account : Account → ℤ → ℤ → Account
moved_account a d c = record a {
  current_balance = a.current_balance +ℤ movement a.definition.normal_balance d c;
}

-- `save(update_fields=["current_balance", …])`: the row of the object's key takes its balance.
abbrev pub save_balance : Account → List Account → List Account
save_balance a [] = []
save_balance a (r ∷ rows) =
    let rest = save_balance a rows in
    if r.pk == a.pk then record r { current_balance = a.current_balance } ∷ rows else r ∷ rest

abbrev pub set_object : Objects → ℕ → Account → Objects
set_object objects h a k = if k == h then a else objects k

unfoldable pub move_account : ℕ → ℤ → ℤ → Objects → List Account → Objects × List Account
move_account h d c objects rows =
    let a = moved_account (objects h) d c in (set_object objects h a, save_balance a rows)

abbrev pub ledger_entry : ℕ → ℕ → Account → SourceLine → LedgerEntry
ledger_entry journal index a l = record {
  journal = journal;
  index = index;
  account = a.pk;
  ledger_type = a.definition.account_type;
  debit_amount = l.debit;
  credit_amount = l.credit;
  balance = a.current_balance;
}

-- The loop over the lines: the rows, and the ledger entries that are added.
unfoldable pub post_lines :
    ℕ
    → ℕ
    → List SourceLine
    → Objects
    → List Account
    → List LedgerEntry
    → List Account × List LedgerEntry
unfolding move_account
post_lines journal index [] objects rows ledger = (rows, ledger)
post_lines journal index (l ∷ lines) objects rows ledger =
    let (objects', rows') = move_account l.account l.debit l.credit objects rows in
    post_lines journal (index + 1) lines objects' rows'
      (ledger_entry journal index (objects' l.account) l ∷ ledger)

abbrev pub total_debit : List SourceLine → ℤ
total_debit [] = pos 0
total_debit (l ∷ lines) = l.debit +ℤ total_debit lines

abbrev pub total_credit : List SourceLine → ℤ
total_credit [] = pos 0
total_credit (l ∷ lines) = l.credit +ℤ total_credit lines

abbrev is_status_posted : JournalStatus → Bool
is_status_posted posted = true
is_status_posted _ = false

-- `.filter(source="SYSTEM", reference=reference, status="POSTED")`
abbrev pub is_posted : Reference → JournalEntry → Bool
is_posted r j = j.is_system && reference_eq r j.reference && is_status_posted j.status

abbrev pub posted_journal : Reference → Books → Option JournalEntry
posted_journal r books = find (is_posted r) books.journals

abbrev pub journal_line : Objects → SourceLine → JournalLine
journal_line objects l = record {
  account = (objects l.account).pk;
  debit = l.debit;
  credit = l.credit;
}

-- The journal is created and its lines are posted; account keys do not change on the way.
abbrev pub create_journal : ℕ → Reference → List SourceLine → Objects → Books → JournalEntry × Books
create_journal branch reference lines objects books =
    let j : JournalEntry = record {
      pk = books.next_journal;
      branch = branch;
      is_system = true;
      reference = reference;
      status = posted;
      lines = map (journal_line objects) lines;
    } in
    let (rows, ledger) =
      post_lines books.next_journal 1 lines objects books.chart.accounts books.ledger in
    (
      j,
      record books {
        chart = record books.chart { accounts = rows };
        journals = j ∷ books.journals;
        ledger = ledger;
        next_journal = books.next_journal + 1;
      },
    )

abbrev pub is_unbalanced : List SourceLine → Bool
is_unbalanced lines =
    not (ltb_ℤ (pos 0) (total_debit lines)) || not (eqb_ℤ (total_debit lines) (total_credit lines))

abbrev pub post_unless :
    Option JournalEntry
    → ℕ
    → Reference
    → List SourceLine
    → Objects
    → Books
    → Result PostingError (JournalEntry × Books)
post_unless (some existing) branch reference lines objects books = ok (existing, books)
post_unless none branch reference lines objects books = do
  raise_if (is_unbalanced lines) not_balanced
  ok (create_journal branch reference lines objects books)

unfoldable pub post_system_journal :
    ℕ → Reference → List SourceLine → Objects → Books → Result PostingError (JournalEntry × Books)
post_system_journal branch reference lines objects books =
    post_unless (posted_journal reference books) branch reference lines objects books
