-- ===== src/Finance/Voucher/Views.antt =====
-- The actions on a journal that is entered by hand: `JournalEntryViewSet` of apps/finance/views.py, and
-- `validate`, `create` and `update` of `JournalEntrySerializer` (apps/finance/serializers.py). The
-- checks of the exchange rate and of recurring and reversing journals are left out.
use ghazatech_inventory_be.Prelude.{
  ℕ, Bool, false, not, ◌&&◌, ◌||◌, none, some, List, [], ◌∷◌, ltb, ◌==◌, length, find, any, select,
  option_eq,
}
use ghazatech_inventory_be.Prelude.Int.{pos, ltb_ℤ, eqb_ℤ}
use ghazatech_inventory_be.Prelude.Result.{Result, ok, raise_if, or_raise, ◌>>◌, ◌>>=◌}
use ghazatech_inventory_be.Finance.Accounts.{Account}
use ghazatech_inventory_be.Finance.Journal.{JournalStatus, JournalLine}
use ghazatech_inventory_be.Finance.Voucher.{
  EntryNumber, VoucherType, Voucher, Register, VoucherError, not_found, wrong_status, not_balanced,
  reason_required, cannot_be_edited, cannot_be_deleted, two_lines_required, total_not_positive,
  debit_and_credit, no_amount, negative_amount, account_of_other_branch, account_inactive,
  is_draft_or_rejected, is_pending, debit_of, credit_of, is_balanced, has_voucher_pk, save_voucher,
  create_voucher,
}
use ghazatech_inventory_be.Finance.Voucher.Posting.{post_voucher}

-- The fields of a request that the model keeps.
pub record VoucherData : Type 0 where
  pub branch : ℕ
  pub voucher_type : VoucherType
  pub is_system : Bool
  pub lines : List JournalLine

-- `JournalLineSerializer.validate`, for every line.
unfoldable pub validate_lines : List JournalLine → Result VoucherError (Unit {0})
validate_lines [] = ok tt
validate_lines (l ∷ lines) = do
  raise_if (ltb_ℤ l.debit (pos 0) || ltb_ℤ l.credit (pos 0)) negative_amount
  raise_if (ltb_ℤ (pos 0) l.debit && ltb_ℤ (pos 0) l.credit) debit_and_credit
  raise_if (eqb_ℤ l.debit (pos 0) && eqb_ℤ l.credit (pos 0)) no_amount
  validate_lines lines

abbrev validate_amounts : List JournalLine → Result VoucherError (Unit {0})
validate_amounts [] = ok tt
validate_amounts (l ∷ lines) = do
  raise_if (ltb_ℤ (pos 0) l.debit && ltb_ℤ (pos 0) l.credit) debit_and_credit
  raise_if (eqb_ℤ l.debit (pos 0) && eqb_ℤ l.credit (pos 0)) no_amount
  validate_amounts lines

-- `ChartOfAccount.objects.filter(pk__in=account_ids)`
abbrev accounts_of : List JournalLine → List Account → List Account
accounts_of lines accounts = select (λ a. any (λ l. l.account == a.pk) lines) accounts

abbrev validate_accounts : ℕ → List Account → Result VoucherError (Unit {0})
validate_accounts branch [] = ok tt
validate_accounts branch (a ∷ accounts) = do
  raise_if (not (option_eq a.branch none || option_eq a.branch (some branch)))
      account_of_other_branch
  raise_if (not a.is_active) account_inactive
  validate_accounts branch accounts

unfoldable pub validate : VoucherData → Register → Result VoucherError (Unit {0})
validate d r = do
  raise_if (ltb (length d.lines) 2) two_lines_required
  raise_if (not (ltb_ℤ (pos 0) (debit_of d.lines))) total_not_positive
  raise_if (not (eqb_ℤ (debit_of d.lines) (credit_of d.lines))) not_balanced
  validate_amounts d.lines
  validate_accounts d.branch (accounts_of d.lines r.accounts)

abbrev pub draft_voucher : ℕ → VoucherData → EntryNumber → Voucher
draft_voucher user d number = record {
  pk = 0;
  entry_number = number;
  branch = d.branch;
  voucher_type = d.voucher_type;
  is_system = d.is_system;
  status = JournalStatus.draft;
  approved_by = none;
  rejected_by = none;
  rejection_reason = 0;
  posted_by = none;
  reversed_from = none;
  created_by = user;
  lines = d.lines;
}

unfoldable pub create : ℕ → ℕ → VoucherData → Register → Result VoucherError Register
create month user d r = do
  validate_lines d.lines
  validate d r
  create_voucher month (draft_voucher user d) r

abbrev pub voucher_at : ℕ → Register → Result VoucherError Voucher
voucher_at pk r = or_raise (find (has_voucher_pk pk) r.vouchers) not_found

unfoldable pub update : ℕ → VoucherData → Register → Result VoucherError Register
update pk d r = do
  v ← voucher_at pk r
  validate_lines d.lines
  raise_if (not (is_draft_or_rejected v.status)) cannot_be_edited
  validate d r
  ok (
      save_voucher
        (record v {
          branch = d.branch;
          voucher_type = d.voucher_type;
          is_system = d.is_system;
          lines = d.lines;
        })
        r)

abbrev pub without_voucher : ℕ → Register → Register
without_voucher pk r = record r { vouchers = select (λ v. not (v.pk == pk)) r.vouchers }

unfoldable pub destroy : ℕ → Register → Result VoucherError Register
destroy pk r = do
  v ← voucher_at pk r
  raise_if (not (is_draft_or_rejected v.status)) cannot_be_deleted
  ok (without_voucher pk r)

abbrev pub submitted : Voucher → Voucher
submitted v = record v {
  status = JournalStatus.pending_approval;
  rejected_by = none;
  rejection_reason = 0;
}

unfoldable pub submit : ℕ → Register → Result VoucherError Register
submit pk r = do
  v ← voucher_at pk r
  raise_if (not (is_draft_or_rejected v.status)) wrong_status
  raise_if (not (is_balanced v.lines)) not_balanced
  ok (save_voucher (submitted v) r)

abbrev pub approved_voucher : ℕ → Voucher → Voucher
approved_voucher user v = record v { status = JournalStatus.approved; approved_by = some user }

unfoldable pub approve : ℕ → ℕ → Register → Result VoucherError Register
approve pk user r = do
  v ← voucher_at pk r
  raise_if (not (is_pending v.status)) wrong_status
  ok (save_voucher (approved_voucher user v) r)

abbrev pub rejected_voucher : ℕ → ℕ → Voucher → Voucher
rejected_voucher user reason v = record v {
  status = JournalStatus.rejected;
  rejected_by = some user;
  rejection_reason = reason;
  approved_by = none;
}

unfoldable pub reject : ℕ → ℕ → ℕ → Register → Result VoucherError Register
reject pk user reason r = do
  v ← voucher_at pk r
  raise_if (not (is_pending v.status)) wrong_status
  raise_if (reason == 0) reason_required
  ok (save_voucher (rejected_voucher user reason v) r)

unfoldable pub post : Account → ℕ → ℕ → Register → Result VoucherError Register
unfolding post_voucher
post missing pk user r = do v ← voucher_at pk r; post_voucher missing user v r

abbrev pub copied_voucher : ℕ → Voucher → EntryNumber → Voucher
copied_voucher user v number =
    draft_voucher user
      (record {
        branch = v.branch;
        voucher_type = v.voucher_type;
        is_system = false;
        lines = v.lines;
      })
      number

unfoldable pub duplicate : ℕ → ℕ → ℕ → Register → Result VoucherError Register
unfolding create_voucher
duplicate month pk user r = do v ← voucher_at pk r; create_voucher month (copied_voucher user v) r
