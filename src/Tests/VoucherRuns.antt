-- ===== src/Tests/VoucherRuns.antt =====
-- The theorems on journals entered by hand, at a journal of rent paid from the bank.
use ghazatech_inventory_be.Prelude.{ℕ, ◌≡◌, refl, true, false, none, some, List, [], ◌∷◌, map}
use ghazatech_inventory_be.Prelude.Int.{ℤ, pos, ◌+ℤ◌, ◌-ℤ◌}
use ghazatech_inventory_be.Prelude.Result.{err}
use ghazatech_inventory_be.Finance.Accounts.{
  Account, asset, expense, SubType, NormalBalance, not_applicable, Definition,
}
use ghazatech_inventory_be.Finance.Journal.{JournalStatus, JournalLine}
use ghazatech_inventory_be.Finance.Voucher.{
  numbered, VoucherType, Voucher, Register, duplicate_number, create_voucher,
}
use ghazatech_inventory_be.Finance.Voucher.Posting.{
  post_voucher, posted_register, post_voucher_lines,
}
use ghazatech_inventory_be.Finance.Voucher.Views.{VoucherData, post, destroy, draft_voucher}
use ghazatech_inventory_be.Finance.Voucher.Reverse.{reverse}
use ghazatech_inventory_be.Finance.Voucher.Posted.{with_added}
use ghazatech_inventory_be.Finance.Voucher.Restored.{post-reverse}
use ghazatech_inventory_be.Finance.Voucher.LostLine.{post_voucher_loses_line}
use ghazatech_inventory_be.Finance.Voucher.Settled.{IsSettled}
use ghazatech_inventory_be.Finance.Voucher.Lifecycle.{here, next, reversed_one, posted_stays}
use ghazatech_inventory_be.Finance.Voucher.Numbers.{destroy_blocks_numbers}
use ghazatech_inventory_be.Tests.TransferData.{result_or}

abbrev account : ℕ → Definition → ℤ → Account
account pk definition balance = record {
  pk = pk;
  branch = none;
  definition = definition;
  current_balance = balance;
  is_active = true;
  lock_from_posting = false;
}

abbrev bank : Account
bank =
    account 1
      (record {
        code = 10100;
        account_type = asset;
        sub_type = SubType.bank;
        normal_balance = NormalBalance.debit;
        tax_treatment = not_applicable;
      })
      (pos 90_000)

abbrev rent : Account
rent =
    account 2
      (record {
        code = 51000;
        account_type = expense;
        sub_type = SubType.other_expense;
        normal_balance = NormalBalance.debit;
        tax_treatment = not_applicable;
      })
      (pos 0)

abbrev rent_line : ℕ → JournalLine
rent_line amount = record { account = 2; debit = pos amount; credit = pos 0 }

abbrev bank_line : ℕ → JournalLine
bank_line amount = record { account = 1; debit = pos 0; credit = pos amount }

abbrev voucher : ℕ → ℕ → JournalStatus → List JournalLine → Voucher
voucher pk serial status lines = record {
  pk = pk;
  entry_number = numbered 11 serial;
  branch = 1;
  voucher_type = VoucherType.manual;
  is_system = false;
  status = status;
  approved_by = none;
  rejected_by = none;
  rejection_reason = 0;
  posted_by = none;
  reversed_from = none;
  created_by = 4;
  lines = lines;
}

abbrev rent_lines : List JournalLine
rent_lines = rent_line 30_000 ∷ bank_line 30_000 ∷ []

abbrev register : List JournalLine → Register
register lines = record {
  accounts = bank ∷ rent ∷ [];
  vouchers = voucher 1 1 JournalStatus.approved lines ∷ [];
  ledger = [];
  next_pk = 2;
}

abbrev books : Register
books = register rent_lines

abbrev posted : Register
posted = result_or (post bank 1 5 books) books

abbrev reversed : Register
reversed = result_or (reverse bank 11 1 5 posted) books

-- The bank pays the rent, and gets it back.
rent_paid :
    (map (λ a. a.current_balance) posted.accounts ≡ pos 60_000 ∷ pos 30_000 ∷ [])
    × (map (λ v. v.pk) reversed.vouchers ≡ 2 ∷ 1 ∷ [])
unfolding post post_voucher posted_register post_voucher_lines reverse create_voucher ◌+ℤ◌ ◌-ℤ◌
rent_paid = (refl, refl)

post-reverse_example : reversed.accounts ≡ bank ∷ rent ∷ []
unfolding post post_voucher posted_register post_voucher_lines reverse create_voucher ◌+ℤ◌ ◌-ℤ◌
post-reverse_example =
    post-reverse bank 11 1 5 5 (voucher 1 1 JournalStatus.approved rent_lines) books {r1 = posted}
      {r2 = reversed} refl ((refl, tt), (tt, tt)) ((rent, refl), ((bank, refl), tt))
      ((refl, tt), (tt, tt)) refl refl

-- The rent of two months in two lines.
abbrev two_months : List JournalLine
two_months = rent_line 10_000 ∷ rent_line 20_000 ∷ bank_line 30_000 ∷ []

abbrev two_posted : Register
two_posted = result_or (post bank 1 5 (register two_months)) books

-- The bank is 300.00 down and the rent 200.00 up.
two_months_posted : map (λ a. a.current_balance) two_posted.accounts ≡ pos 60_000 ∷ pos 20_000 ∷ []
unfolding post post_voucher posted_register post_voucher_lines ◌+ℤ◌ ◌-ℤ◌
two_months_posted = refl

post_voucher_loses_line_example :
    two_posted.accounts
    ≡ map (with_added (rent_line 20_000 ∷ bank_line 30_000 ∷ [])) (bank ∷ rent ∷ [])
unfolding post post_voucher posted_register post_voucher_lines ◌+ℤ◌ ◌-ℤ◌
post_voucher_loses_line_example =
    post_voucher_loses_line bank 5 (rent_line 10_000) (rent_line 20_000) (bank_line 30_000 ∷ [])
      (voucher 1 1 JournalStatus.approved two_months) (register two_months) {r' = two_posted} refl
      refl ((refl, tt), (tt, tt)) ((rent, refl), ((bank, refl), tt)) ((refl, tt), (tt, tt)) refl

posted-IsSettled : IsSettled 1 rent_lines posted
unfolding post post_voucher posted_register post_voucher_lines ◌+ℤ◌ ◌-ℤ◌
posted-IsSettled = record {
  voucher = record (voucher 1 1 JournalStatus.posted rent_lines) { posted_by = some 5 };
  found = refl;
  same_lines = refl;
  settled = refl;
  numbered = refl;
}

posted_stays_example : IsSettled 1 rent_lines reversed
unfolding post post_voucher posted_register post_voucher_lines reverse create_voucher ◌+ℤ◌ ◌-ℤ◌
posted_stays_example =
    posted_stays bank 1 rent_lines posted {r' = reversed} posted-IsSettled
      (next here (reversed_one 11 1 5 refl))

-- Two drafts, of which the older one is deleted.
abbrev drafts : Register
drafts = record books {
  vouchers =
      voucher 2 2 JournalStatus.draft rent_lines ∷ voucher 1 1 JournalStatus.draft rent_lines ∷ [];
  next_pk = 3;
}

abbrev one_left : Register
one_left = result_or (destroy 1 drafts) books

abbrev rent_data : VoucherData
rent_data = record {
  branch = 1;
  voucher_type = VoucherType.manual;
  is_system = false;
  lines = rent_lines;
}

destroy_blocks_numbers_example :
    create_voucher 11 (draft_voucher 4 rent_data) one_left ≡ err duplicate_number
unfolding destroy
destroy_blocks_numbers_example =
    destroy_blocks_numbers 11 1 (voucher 1 1 JournalStatus.draft rent_lines)
      (voucher 2 2 JournalStatus.draft rent_lines) drafts {r' = one_left}
      (draft_voucher 4 rent_data) ((refl, tt), (tt, tt)) refl refl refl refl refl
