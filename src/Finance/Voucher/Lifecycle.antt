-- ===== src/Finance/Voucher/Lifecycle.antt =====
-- A posted journal under the actions of apps/finance/views.py and apps/finance/serializers.py.
use ghazatech_inventory_be.Prelude.{ℕ, ◌≡◌, List}
use ghazatech_inventory_be.Prelude.Result.{ok}
use ghazatech_inventory_be.Finance.Accounts.{Account}
use ghazatech_inventory_be.Finance.Journal.{JournalLine}
use ghazatech_inventory_be.Finance.Voucher.{Register}
use ghazatech_inventory_be.Finance.Voucher.Views.{
  VoucherData, create, update, destroy, submit, approve, reject, post, duplicate,
}
use ghazatech_inventory_be.Finance.Voucher.Reverse.{reverse}
use ghazatech_inventory_be.Finance.Voucher.Settled.{IsSettled}
use ghazatech_inventory_be.Finance.Voucher.Kept.{
  create-IsSettled, update-IsSettled, destroy-IsSettled, submit-IsSettled, approve-IsSettled,
  reject-IsSettled, post-IsSettled, duplicate-IsSettled, reverse-IsSettled,
}

module _ (missing : Account) where
  -- One successful action on any journal of the register.
  pub data Step (r r' : Register) : Type 0 where
    created : (month user : ℕ) (d : VoucherData) → create month user d r ≡ ok r' → Step r r'
    updated : (k : ℕ) (d : VoucherData) → update k d r ≡ ok r' → Step r r'
    destroyed : (k : ℕ) → destroy k r ≡ ok r' → Step r r'
    submitted_one : (k : ℕ) → submit k r ≡ ok r' → Step r r'
    approved_one : (k user : ℕ) → approve k user r ≡ ok r' → Step r r'
    rejected_one : (k user reason : ℕ) → reject k user reason r ≡ ok r' → Step r r'
    posted_one : (k user : ℕ) → post missing k user r ≡ ok r' → Step r r'
    duplicated : (month k user : ℕ) → duplicate month k user r ≡ ok r' → Step r r'
    reversed_one : (month k user : ℕ) → reverse missing month k user r ≡ ok r' → Step r r'

  pub data Reach (r : Register) : Register → Type 0 where
    here : Reach r r
    next : {s t : Register} → Reach r s → Step s t → Reach r t

module _ (missing : Account) (pk : ℕ) (lines : List JournalLine) where
  step-IsSettled :
      {r r' : Register} → Step missing r r' → IsSettled pk lines r → IsSettled pk lines r'
  step-IsSettled {r} (created month user d h) s = create-IsSettled pk lines month user d r h s
  step-IsSettled {r} (updated k d h) s = update-IsSettled pk lines k d r h s
  step-IsSettled {r} (destroyed k h) s = destroy-IsSettled pk lines k r h s
  step-IsSettled {r} (submitted_one k h) s = submit-IsSettled pk lines k r h s
  step-IsSettled {r} (approved_one k user h) s = approve-IsSettled pk lines k user r h s
  step-IsSettled {r} (rejected_one k user reason h) s =
      reject-IsSettled pk lines k user reason r h s
  step-IsSettled {r} (posted_one k user h) s = post-IsSettled pk lines missing k user r h s
  step-IsSettled {r} (duplicated month k user h) s = duplicate-IsSettled pk lines month k user r h s
  step-IsSettled {r} (reversed_one month k user h) s =
      reverse-IsSettled pk lines missing month k user r h s

-- A journal that is posted, its key below the next free one, stays posted, or posted and reversed,
-- with the lines it was posted with, whatever actions are taken on the journals of the register.
pub posted_stays :
    (missing : Account) (pk : ℕ) (lines : List JournalLine) (r : Register) {r' : Register}
    → IsSettled pk lines r
    → Reach missing r r'
    → IsSettled pk lines r'
posted_stays missing pk lines r s here = s
posted_stays missing pk lines r s (next before step) =
    step-IsSettled missing pk lines step (posted_stays missing pk lines r s before)
