-- ===== src/Finance/Voucher/Reverse.antt =====
-- `reverse` of apps/finance/views.py.
use ghazatech_inventory_be.Prelude.{ℕ, Bool, true, not, ◌&&◌, none, some, map, any, option_eq}
use ghazatech_inventory_be.Prelude.Result.{Result, ok, raise_if, ◌>>◌, ◌>>=◌}
use ghazatech_inventory_be.Finance.Accounts.{Account}
use ghazatech_inventory_be.Finance.Journal.{JournalStatus, JournalLine}
use ghazatech_inventory_be.Finance.Voucher.{
  EntryNumber, reversing, Voucher, Register, VoucherError, wrong_status, already_reversed,
  is_status_posted, save_voucher, create_voucher,
}
use ghazatech_inventory_be.Finance.Voucher.Posting.{post_voucher}
use ghazatech_inventory_be.Finance.Voucher.Views.{voucher_at}

abbrev pub swapped_line : JournalLine → JournalLine
swapped_line l = record { account = l.account; debit = l.credit; credit = l.debit }

abbrev pub reversal_voucher : ℕ → Voucher → EntryNumber → Voucher
reversal_voucher user v number = record {
  pk = 0;
  entry_number = number;
  branch = v.branch;
  voucher_type = reversing;
  is_system = true;
  status = JournalStatus.approved;
  approved_by = some user;
  rejected_by = none;
  rejection_reason = 0;
  posted_by = none;
  reversed_from = some v.pk;
  created_by = user;
  lines = map swapped_line v.lines;
}

abbrev pub is_posted_reversal : ℕ → Voucher → Bool
is_posted_reversal pk v = option_eq v.reversed_from (some pk) && is_status_posted v.status

abbrev pub reversed_voucher : Voucher → Voucher
reversed_voucher v = record v { status = JournalStatus.reversed }

-- A journal that cannot be posted raises, which undoes its creation.
unfoldable pub reverse : Account → ℕ → ℕ → ℕ → Register → Result VoucherError Register
unfolding create_voucher post_voucher
reverse missing month pk user r = do
  v ← voucher_at pk r
  raise_if (not (is_status_posted v.status)) wrong_status
  raise_if (any (is_posted_reversal v.pk) r.vouchers) already_reversed
  made ← create_voucher month (reversal_voucher user v) r
  reversal ← voucher_at r.next_pk made
  posted ← post_voucher missing user reversal made
  ok (save_voucher (reversed_voucher v) posted)
