-- ===== src/Finance/Voucher/Posted.antt =====
-- What posting a journal does to the accounts (`_post_journal` of apps/finance/views.py).
use ghazatech_inventory_be.Prelude.{
  ℕ, ◌+◌, ◌≡◌, ◌∙◌, refl, sym, ap, false, Option, none, some, List, [], ◌∷◌, map, ◌==◌, ==_refl,
  ==_iff, Bool-cases, inl, inr, if◌then◌else◌,
}
use ghazatech_inventory_be.Prelude.Int.{ℤ, pos, ◌+ℤ◌, int_laws}
use ghazatech_inventory_be.Finance.Accounts.{Account}
use ghazatech_inventory_be.Finance.Journal.{
  JournalLine, LedgerEntry, SourceLine, movement, moved_account, save_balance, ledger_entry,
}
use ghazatech_inventory_be.Finance.Reversal.{row_object}
use ghazatech_inventory_be.Finance.Reversed.{row-pk}
use ghazatech_inventory_be.Finance.Fresh.{row, row-save_other}
use ghazatech_inventory_be.Finance.Voucher.Posting.{post_voucher_lines}

-- No row has the number.
abbrev pub IsAbsent : ℕ → List Account → Type 0
IsAbsent k [] = Unit
IsAbsent k (r ∷ rows) = ((r.pk == k) ≡ false) × IsAbsent k rows

-- The table has one row for each number.
abbrev pub AllUnique : List Account → Type 0
AllUnique [] = Unit
AllUnique (r ∷ rows) = IsAbsent r.pk rows × AllUnique rows

-- No line is on the account.
abbrev pub IsUnused : ℕ → List JournalLine → Type 0
IsUnused k [] = Unit
IsUnused k (l ∷ lines) = ((k == l.account) ≡ false) × IsUnused k lines

-- No two lines are on one account.
abbrev pub AllApart : List JournalLine → Type 0
AllApart [] = Unit
AllApart (l ∷ lines) = IsUnused l.account lines × AllApart lines

-- Every line's account has a row.
abbrev pub AllFound : List Account → List JournalLine → Type 0
AllFound rows [] = Unit
AllFound rows (l ∷ lines) = ((a : Account) × (row l.account rows ≡ some a)) × AllFound rows lines

-- What the lines add to the balance of an account.
unfoldable pub added : List JournalLine → Account → ℤ
added [] a = pos 0
added (l ∷ lines) a =
    (if a.pk == l.account then movement a.definition.normal_balance l.debit l.credit else pos 0)
    +ℤ added lines a

abbrev pub with_added : List JournalLine → Account → Account
with_added lines a = record a { current_balance = a.current_balance +ℤ added lines a }

with_added-nil : (rows : List Account) → map (with_added []) rows ≡ rows
unfolding added
with_added-nil [] = refl
with_added-nil (a ∷ rows) =
    let zero_sum : a.current_balance +ℤ pos 0 ≡ a.current_balance = omega int_laws in
    let first : with_added [] a ≡ a = ap (λ b. record a { current_balance = b }) zero_sum in
    rw (first, with_added-nil rows)

pub added-same :
    (lines : List JournalLine) (a : Account) (b : ℤ)
    → added lines (record a { current_balance = b }) ≡ added lines a
unfolding added
added-same [] a b = refl
added-same (l ∷ lines) a b = rw (added-same lines a b)

with_added-cons :
    (l : JournalLine) (lines : List JournalLine) (rows : List Account)
    → map (with_added lines) (map (with_added (l ∷ [])) rows) ≡ map (with_added (l ∷ lines)) rows
unfolding added
with_added-cons l lines [] = refl
with_added-cons l lines (a ∷ rows) =
    let m : ℤ =
      if a.pk == l.account then movement a.definition.normal_balance l.debit l.credit else pos 0 in
    let same = added-same lines a (a.current_balance +ℤ (m +ℤ pos 0)) in
    let sums : a.current_balance +ℤ (m +ℤ pos 0) +ℤ added lines a
        ≡ a.current_balance +ℤ (m +ℤ added lines a) =
      omega int_laws in
    let first : with_added lines (with_added (l ∷ []) a) ≡ with_added (l ∷ lines) a =
      ap (λ (b : ℤ). record a { current_balance = b })
        (ap (λ (n : ℤ). a.current_balance +ℤ (m +ℤ pos 0) +ℤ n) same ∙ sums) in
    rw (first, with_added-cons l lines rows)

with_added-absent :
    (l : JournalLine) (rows : List Account)
    → IsAbsent l.account rows
    → map (with_added (l ∷ [])) rows ≡ rows
unfolding added
with_added-absent l [] absent = refl
with_added-absent l (r ∷ rows) (differ, absent) =
    let zero_sum : r.current_balance +ℤ (pos 0 +ℤ pos 0) ≡ r.current_balance = omega int_laws in
    let first : with_added (l ∷ []) r ≡ r =
      rw differ (ap (λ (b : ℤ). record r { current_balance = b }) zero_sum) in
    rw (first, with_added-absent l rows absent)

-- One line: saving the object of its account is adding its movement to the row.
save_balance-added :
    (l : JournalLine) (a : Account) (rows : List Account)
    → AllUnique rows
    → row l.account rows ≡ some a
    → save_balance (moved_account a l.debit l.credit) rows ≡ map (with_added (l ∷ [])) rows
unfolding added
save_balance-added l a [] unique h = cc
save_balance-added l a (r ∷ rows) (absent, unique) h = elim (Bool-cases (r.pk == l.account)) [
  | inl hit ↦
      let found : some r ≡ some a = rw hit at h in
      let same : r ≡ a = cc in
      let key : r.pk ≡ l.account = (==_iff r.pk l.account).0 hit in
      let absent' : IsAbsent l.account rows = rw key at absent in
      let others = with_added-absent l rows absent' in
      let m = movement r.definition.normal_balance l.debit l.credit in
      let sums : r.current_balance +ℤ m ≡ r.current_balance +ℤ (m +ℤ pos 0) = omega int_laws in
      let first : record r { current_balance = r.current_balance +ℤ m } ≡ with_added (l ∷ []) r =
        rw hit (ap (λ (b : ℤ). record r { current_balance = b }) sums) in
      rw (← same, ==_refl r.pk, others, ← first)
  | inr miss ↦
      let key : a.pk ≡ l.account = row-pk l.account rows (rw miss at h) in
      let ih = save_balance-added l a rows unique (rw miss at h) in
      let zero_sum : r.current_balance ≡ r.current_balance +ℤ (pos 0 +ℤ pos 0) = omega int_laws in
      let first : r ≡ with_added (l ∷ []) r =
        rw miss (ap (λ (b : ℤ). record r { current_balance = b }) zero_sum) in
      let differ : (r.pk == a.pk) ≡ false = rw key miss in
      let kept : save_balance (moved_account a l.debit l.credit) (r ∷ rows)
          ≡ r ∷ save_balance (moved_account a l.debit l.credit) rows =
        rw differ in
      kept
      ∙ ap (λ (rs : List Account). r ∷ rs) ih
      ∙ ap (λ (s : Account). s ∷ map (with_added (l ∷ [])) rows) first
]

IsAbsent-map :
    (k : ℕ) (lines : List JournalLine) (rows : List Account)
    → IsAbsent k rows
    → IsAbsent k (map (with_added lines) rows)
IsAbsent-map k lines [] absent = tt
IsAbsent-map k lines (r ∷ rows) (differ, absent) = (differ, IsAbsent-map k lines rows absent)

pub with_added-AllUnique :
    (lines : List JournalLine) (rows : List Account)
    → AllUnique rows
    → AllUnique (map (with_added lines) rows)
with_added-AllUnique lines [] unique = tt
with_added-AllUnique lines (r ∷ rows) (absent, unique) =
    (IsAbsent-map r.pk lines rows absent, with_added-AllUnique lines rows unique)

-- The rows of the lines' accounts are as they were read.
abbrev pub AllSame : List Account → List Account → List JournalLine → Type 0
AllSame read rows [] = Unit
AllSame read rows (l ∷ lines) = (row l.account rows ≡ row l.account read) × AllSame read rows lines

pub AllSame-save :
    (read rows : List Account) (a : Account) (lines : List JournalLine)
    → IsUnused a.pk lines
    → AllSame read rows lines
    → AllSame read (save_balance a rows) lines
AllSame-save read rows a [] unused same = tt
AllSame-save read rows a (l ∷ lines) (differ, unused) (h, same) =
    (row-save_other l.account a rows differ ∙ h, AllSame-save read rows a lines unused same)

pub AllSame-refl : (rows : List Account) (lines : List JournalLine) → AllSame rows rows lines
AllSame-refl rows [] = tt
AllSame-refl rows (l ∷ lines) = (refl, AllSame-refl rows lines)

-- The loop over lines on different accounts adds to each account what the lines say.
pub post_voucher_lines-added :
    (missing : Account) (read : List Account) (journal index : ℕ) (lines : List JournalLine)
    (rows : List Account) (ledger : List LedgerEntry)
    → AllUnique rows
    → AllFound read lines
    → AllSame read rows lines
    → AllApart lines
    → (post_voucher_lines missing read journal index lines rows ledger).0
      ≡ map (with_added lines) rows
unfolding post_voucher_lines
post_voucher_lines-added missing read journal index [] rows ledger unique found same apart =
    sym (with_added-nil rows)
post_voucher_lines-added missing read journal index (l ∷ lines) rows ledger unique ((a, at), found)
      (now, same) (unused, apart) =
    let key : a.pk ≡ l.account = row-pk l.account read at in
    let object : row_object read missing l.account ≡ a =
      ap (λ (o : Option Account). elim o as (λ _. Account) [ none ↦ missing | some b ↦ b ]) at in
    let saved = save_balance-added l a rows unique (now ∙ at) in
    let moved = moved_account a l.debit l.credit in
    let unique' : AllUnique (save_balance moved rows) =
      rw saved (with_added-AllUnique (l ∷ []) rows unique) in
    let same' = AllSame-save read rows moved lines (rw key unused) same in
    let source : SourceLine = record { account = l.account; debit = l.debit; credit = l.credit } in
    let go_on : Account → List Account = λ b.
      (post_voucher_lines missing read journal (index + 1) lines (save_balance b rows)
        (ledger_entry journal index b source ∷ ledger)).0 in
    ap (λ (b : Account). go_on (moved_account b l.debit l.credit)) object
    ∙ post_voucher_lines-added missing read journal (index + 1) lines (save_balance moved rows)
        (ledger_entry journal index moved source ∷ ledger) unique' found same' apart
    ∙ ap (map (with_added lines)) saved
    ∙ with_added-cons l lines rows
