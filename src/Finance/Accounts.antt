-- ===== src/Finance/Accounts.antt =====
-- The chart of accounts and the choice of an account (apps/finance/accounting.py, models.py).
-- Amounts are numbers of cents; account codes are numbers; names and dates are left out.
use ghazatech_inventory_be.Prelude.{
  ℕ, ◌+◌, Bool, true, false, not, ◌&&◌, ◌||◌, Option, none, some, List, [], ◌∷◌, ◌++◌, leb, ◌==◌,
  if◌then◌else◌, find, select, option_eq,
}
use ghazatech_inventory_be.Prelude.Int.{ℤ, pos}
use ghazatech_inventory_be.Prelude.Result.{Result, ok, or_raise, ◌>>=◌}

pub data NormalBalance : Type 0 where
  debit credit : NormalBalance

pub data AccountType : Type 0 where
  asset liability equity income expense : AccountType

-- The sub types of the core accounts, and the others by number.
pub data SubType : Type 0 where
  cash bank accounts_receivable inventory current_asset accounts_payable vat_payable : SubType
  owner_equity retained_earnings sales_revenue cost_of_goods_sold other_expense : SubType
  other_sub_type : ℕ → SubType

pub data AccountTax : Type 0 where
  not_applicable vat_input vat_output other_tax : AccountTax

-- An entry of `CORE_ACCOUNTS`.
pub record Definition : Type 0 where
  pub code : ℕ
  pub account_type : AccountType
  pub sub_type : SubType
  pub normal_balance : NormalBalance
  pub tax_treatment : AccountTax

abbrev core : ℕ → AccountType → SubType → NormalBalance → AccountTax → Definition
core code account_type sub_type normal_balance tax_treatment = record {
  code = code;
  account_type = account_type;
  sub_type = sub_type;
  normal_balance = normal_balance;
  tax_treatment = tax_treatment;
}

unfoldable pub core_accounts : List Definition
core_accounts =
    core 10000 asset cash debit not_applicable
    ∷ core 10100 asset bank debit not_applicable
    ∷ core 11000 asset accounts_receivable debit not_applicable
    ∷ core 12000 asset inventory debit not_applicable
    ∷ core 13000 asset current_asset debit vat_input
    ∷ core 20000 liability accounts_payable credit not_applicable
    ∷ core 21000 liability vat_payable credit vat_output
    ∷ core 30000 equity owner_equity credit not_applicable
    ∷ core 31000 equity retained_earnings credit not_applicable
    ∷ core 40000 income sales_revenue credit not_applicable
    ∷ core 50000 expense cost_of_goods_sold debit not_applicable
    ∷ core 51000 expense other_expense debit not_applicable
    ∷ []

-- `ChartOfAccount`, of one branch or of all.
pub record Account : Type 0 where
  pub pk : ℕ
  pub branch : Option ℕ
  pub definition : Definition
  pub current_balance : ℤ
  pub is_active : Bool
  pub lock_from_posting : Bool

-- The table, and the next free number.
pub record Chart : Type 0 where
  pub accounts : List Account
  pub next_pk : ℕ

abbrev pub is_global_code : ℕ → Account → Bool
is_global_code code a = option_eq a.branch none && (a.definition.code == code)

-- `get_or_create(branch=None, code=code, defaults=defaults)`
abbrev pub existing_or_created : Option Account → Definition → Chart → Chart
existing_or_created (some _) d chart = chart
existing_or_created none d chart = record {
  accounts =
      chart.accounts
      ++ record {
        pk = chart.next_pk;
        branch = none;
        definition = d;
        current_balance = pos 0;
        is_active = true;
        lock_from_posting = false;
      }
        ∷ [];
  next_pk = chart.next_pk + 1;
}

abbrev pub ensure_account : Definition → Chart → Chart
ensure_account d chart = existing_or_created (find (is_global_code d.code) chart.accounts) d chart

unfoldable pub ensure_accounts : List Definition → Chart → Chart
ensure_accounts [] chart = chart
ensure_accounts (d ∷ ds) chart = ensure_accounts ds (ensure_account d chart)

unfoldable pub ensure_core_accounts : Chart → Chart
unfolding ensure_accounts core_accounts
ensure_core_accounts chart = ensure_accounts core_accounts chart

-- `Q(branch=branch) | Q(branch__isnull=True)`, active and open to posting, with the code.
abbrev pub is_candidate : ℕ → ℕ → Account → Bool
is_candidate branch code a =
    (option_eq a.branch (some branch) || option_eq a.branch none)
    && a.is_active
    && not a.lock_from_posting
    && (a.definition.code == code)

-- `order_by("-branch_id", "code")`: PostgreSQL puts a null first in a descending order.
abbrev pub precedes : Account → Account → Bool
precedes a b = elim a.branch [
  | none ↦ elim b.branch [ none ↦ leb a.definition.code b.definition.code | some _ ↦ true ]
  | some _ ↦ elim b.branch [ none ↦ false | some _ ↦ leb a.definition.code b.definition.code ]
]

abbrev pub first_of_two : Account → Option Account → Account
first_of_two a none = a
first_of_two a (some b) = if precedes a b then a else b

unfoldable pub first_account : List Account → Option Account
first_account [] = none
first_account (a ∷ accounts) = some (first_of_two a (first_account accounts))

pub data PostingError : Type 0 where
  not_configured : ℕ → PostingError
  cash_register_required bank_account_required source_required not_balanced : PostingError

-- `_account(branch, code=code)`: the chart with the core accounts, and the account.
unfoldable pub account_for : ℕ → ℕ → Chart → Result PostingError (Account × Chart)
unfolding first_account
account_for branch code chart =
    let chart' = ensure_core_accounts chart in
    do
      a ←
          or_raise (first_account (select (is_candidate branch code) chart'.accounts))
            (not_configured code)
      ok (a, chart')
