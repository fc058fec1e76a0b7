-- ===== src/Finance/Voucher.antt =====
-- Journals that are entered by hand: `JournalEntry` of apps/finance/models.py as `JournalEntryViewSet`
-- of apps/finance/views.py and `JournalEntrySerializer` of apps/finance/serializers.py read it.
-- Users are numbers, and so are texts, 0 being the empty one; dates and copied texts are left out.
use ghazatech_inventory_be.Prelude.{
  ℕ, ◌+◌, Bool, true, false, not, ◌&&◌, ◌||◌, Option, none, some, List, [], ◌∷◌, ltb, ◌==◌, length,
  if◌then◌else◌, any, select, put, option_eq,
}
use ghazatech_inventory_be.Prelude.Int.{ℤ, pos, ◌+ℤ◌, ltb_ℤ, eqb_ℤ}
use ghazatech_inventory_be.Prelude.Result.{Result, ok, raise_if, ◌>>◌}
use ghazatech_inventory_be.Finance.Accounts.{Account}
use ghazatech_inventory_be.Finance.Journal.{JournalStatus, JournalLine, LedgerEntry}
pub mod Posting
pub mod Views
pub mod Reverse
pub mod Posted
pub mod RoundTrip
pub mod Restored
pub mod Balanced
pub mod LostLine
pub mod Settled
pub mod Kept
pub mod Lifecycle
pub mod Numbers

-- `f"JV-{month}-{serial}"`, or a number that the system gives.
pub data EntryNumber : Type 0 where
  numbered : ℕ → ℕ → EntryNumber
  system_number : ℕ → EntryNumber

pub data VoucherType : Type 0 where
  manual adjustment opening_balance accrual year_end reversing : VoucherType

pub record Voucher : Type 0 where
  pub pk : ℕ
  pub entry_number : EntryNumber
  pub branch : ℕ
  pub voucher_type : VoucherType
  pub is_system : Bool
  pub status : JournalStatus
  pub approved_by : Option ℕ
  pub rejected_by : Option ℕ
  pub rejection_reason : ℕ
  pub posted_by : Option ℕ
  pub reversed_from : Option ℕ
  pub created_by : ℕ
  pub lines : List JournalLine

-- The tables that the view set reads and writes.
pub record Register : Type 0 where
  pub accounts : List Account
  pub vouchers : List Voucher
  pub ledger : List LedgerEntry
  pub next_pk : ℕ

pub data VoucherError : Type 0 where
  not_found wrong_status not_balanced reason_required posting_blocked : VoucherError
  already_reversed duplicate_number cannot_be_edited cannot_be_deleted : VoucherError
  two_lines_required total_not_positive debit_and_credit no_amount negative_amount : VoucherError
  account_of_other_branch account_inactive : VoucherError

abbrev pub is_draft_or_rejected : JournalStatus → Bool
is_draft_or_rejected JournalStatus.draft = true
is_draft_or_rejected JournalStatus.rejected = true
is_draft_or_rejected _ = false

abbrev pub is_pending : JournalStatus → Bool
is_pending JournalStatus.pending_approval = true
is_pending _ = false

abbrev pub is_approved : JournalStatus → Bool
is_approved JournalStatus.approved = true
is_approved _ = false

abbrev pub is_status_posted : JournalStatus → Bool
is_status_posted JournalStatus.posted = true
is_status_posted _ = false

abbrev pub debit_of : List JournalLine → ℤ
debit_of [] = pos 0
debit_of (l ∷ lines) = l.debit +ℤ debit_of lines

abbrev pub credit_of : List JournalLine → ℤ
credit_of [] = pos 0
credit_of (l ∷ lines) = l.credit +ℤ credit_of lines

abbrev pub is_balanced : List JournalLine → Bool
is_balanced lines = ltb_ℤ (pos 0) (debit_of lines) && eqb_ℤ (debit_of lines) (credit_of lines)

abbrev pub has_voucher_pk : ℕ → Voucher → Bool
has_voucher_pk pk v = v.pk == pk

abbrev pub save_voucher : Voucher → Register → Register
save_voucher v r = record r { vouchers = put (has_voucher_pk v.pk) v r.vouchers }

abbrev pub is_of_month : ℕ → Voucher → Bool
is_of_month month v = elim v.entry_number [ numbered m _ ↦ m == month | system_number _ ↦ false ]

abbrev pub has_number : ℕ → ℕ → Voucher → Bool
has_number month serial v = elim v.entry_number [
  | numbered m s ↦ (m == month) && (s == serial)
  | system_number _ ↦ false
]

-- `count + 1`
abbrev pub next_serial : ℕ → List Voucher → ℕ
next_serial month vouchers = length (select (is_of_month month) vouchers) + 1

-- The row is created unless its number, which is unique, is taken.
unfoldable pub create_voucher :
    ℕ → (EntryNumber → Voucher) → Register → Result VoucherError Register
create_voucher month make r =
    let serial = next_serial month r.vouchers in
    let v : Voucher = record (make (numbered month serial)) { pk = r.next_pk } in
    do
      raise_if (any (has_number month serial) r.vouchers) duplicate_number
      ok (record r { vouchers = v ∷ r.vouchers; next_pk = r.next_pk + 1 })
