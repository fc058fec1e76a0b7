-- ===== src/Finance/Fresh.antt =====
-- Account objects and their rows while lines are posted (apps/finance/accounting.py).
use ghazatech_inventory_be.Prelude.{
  ℕ, ◌≡◌, ◌⊎◌, inl, inr, refl, ◌∙◌, true, false, Option, some, List, [], ◌∷◌, ◌==◌, ==_refl, ==_iff,
  find, arith, Bool-cases,
}
use ghazatech_inventory_be.Prelude.Int.{ℤ, pos, ◌+ℤ◌, ◌-ℤ◌, int_laws}
use ghazatech_inventory_be.Finance.Accounts.{NormalBalance, Account}
use ghazatech_inventory_be.Finance.Journal.{
  Objects, SourceLine, movement, moved_account, save_balance, set_object,
}

-- A balance as a debit.
abbrev pub signed : Account → ℤ
signed a = elim a.definition.normal_balance [
  | NormalBalance.debit ↦ a.current_balance
  | NormalBalance.credit ↦ pos 0 -ℤ a.current_balance
]

unfoldable pub trial_balance : List Account → ℤ
trial_balance [] = pos 0
trial_balance (a ∷ rows) = signed a +ℤ trial_balance rows

abbrev pub row : ℕ → List Account → Option Account
row pk rows = find (λ r. r.pk == pk) rows

signed-moved : (a : Account) (d c : ℤ) → signed (moved_account a d c) ≡ signed a +ℤ (d -ℤ c)
signed-moved a d c = signed_cases a.definition.normal_balance
  where
    signed_cases :
        (n : NormalBalance)
        → elim n as (λ _. ℤ) [
          | NormalBalance.debit ↦ a.current_balance +ℤ movement n d c
          | NormalBalance.credit ↦ pos 0 -ℤ (a.current_balance +ℤ movement n d c)
        ]
          ≡ elim n as (λ _. ℤ) [
            | NormalBalance.debit ↦ a.current_balance
            | NormalBalance.credit ↦ pos 0 -ℤ a.current_balance
          ]
            +ℤ (d -ℤ c)
    signed_cases NormalBalance.debit = omega int_laws
    signed_cases NormalBalance.credit = omega int_laws

row_hit :
    (a r : Account) (rows : List Account)
    → row a.pk (r ∷ rows) ≡ some a
    → (r.pk == a.pk) ≡ true
    → r ≡ a
row_hit a r rows h hit = let found : some r ≡ some a = rw hit at h in cc

-- Saving a fresh account after a movement.
pub save-trial_balance :
    (a : Account) (d c : ℤ) (rows : List Account)
    → row a.pk rows ≡ some a
    → trial_balance (save_balance (moved_account a d c) rows) ≡ trial_balance rows +ℤ (d -ℤ c)
unfolding trial_balance
save-trial_balance a d c [] h = cc
save-trial_balance a d c (r ∷ rows) h = elim (Bool-cases (r.pk == a.pk)) [
  | inl hit ↦
      let e : r ≡ a = row_hit a r rows h hit in
      rw (e, ==_refl a.pk, signed-moved a d c) (omega int_laws)
  | inr miss ↦ rw (miss, save-trial_balance a d c rows (rw miss at h)) (omega int_laws)
]

pub row-save_self :
    (a : Account) (d c : ℤ) (rows : List Account)
    → row a.pk rows ≡ some a
    → row a.pk (save_balance (moved_account a d c) rows) ≡ some (moved_account a d c)
row-save_self a d c [] h = cc
row-save_self a d c (r ∷ rows) h = elim (Bool-cases (r.pk == a.pk)) [
  | inl hit ↦ let e : r ≡ a = row_hit a r rows h hit in rw (e, ==_refl a.pk, ==_refl a.pk)
  | inr miss ↦ rw (miss, miss) (row-save_self a d c rows (rw miss at h))
]

pub row-save_other :
    (pk : ℕ) (a : Account) (rows : List Account)
    → (a.pk == pk) ≡ false
    → row pk (save_balance a rows) ≡ row pk rows
row-save_other pk a [] h = refl
row-save_other pk a (r ∷ rows) h = ground (arith, row-save_other pk a rows h)

-- The object of a handle is its row as it stands.
abbrev pub IsFresh : Objects → List Account → ℕ → Type 0
IsFresh objects rows h = row (objects h).pk rows ≡ some (objects h)

-- Two handles are one, or stand for different rows.
abbrev pub IsApart : Objects → ℕ → ℕ → Type 0
IsApart objects h k = (k ≡ h) ⊎ (((objects h).pk == (objects k).pk) ≡ false)

abbrev pub AllApart : Objects → ℕ → List SourceLine → Type 0
AllApart objects h [] = Unit
AllApart objects h (l ∷ lines) = IsApart objects h l.account × AllApart objects h lines

-- Every line's object is fresh, and apart from those of later lines.
abbrev pub AllFresh : Objects → List Account → List SourceLine → Type 0
AllFresh objects rows [] = Unit
AllFresh objects rows (l ∷ lines) =
    IsFresh objects rows l.account × AllApart objects l.account lines × AllFresh objects rows lines

module _ (h : ℕ) (d c : ℤ) (objects : Objects) (rows : List Account) where
  abbrev pub objects' : Objects
  objects' = set_object objects h (moved_account (objects h) d c)

  abbrev pub rows' : List Account
  rows' = save_balance (moved_account (objects h) d c) rows

  same_pk : (k : ℕ) → (objects' k).pk ≡ (objects k).pk
  same_pk k = elim (Bool-cases (k == h)) [
    | inl same ↦ rw ((==_iff k h).0 same, ==_refl h)
    | inr differ ↦ rw differ
  ]

  differ_absurd : (k : ℕ) → k ≡ h → (k == h) ≡ false → ⊥
  differ_absurd k e n = let yes_eq = (==_iff k h).1 e in cc

  step-IsFresh :
      (k : ℕ)
      → IsFresh objects rows h
      → IsApart objects h k
      → IsFresh objects rows k
      → IsFresh objects' rows' k
  step-IsFresh k fh apart fk = elim (Bool-cases (k == h)) [
    | inl same ↦ rw ((==_iff k h).0 same, ==_refl h) (row-save_self (objects h) d c rows fh)
    | inr differ ↦ elim apart [
      | inl e ↦ absurd (differ_absurd k e differ)
      | inr n ↦
          rw differ (row-save_other (objects k).pk (moved_account (objects h) d c) rows n ∙ fk)
    ]
  ]

  step-AllApart :
      (k : ℕ) (lines : List SourceLine) → AllApart objects k lines → AllApart objects' k lines
  step-AllApart k [] a = tt
  step-AllApart k (l ∷ lines) (inl e, rest) = (inl e, step-AllApart k lines rest)
  step-AllApart k (l ∷ lines) (inr n, rest) =
      (inr (rw (same_pk k, same_pk l.account) n), step-AllApart k lines rest)

  pub step-AllFresh :
      (lines : List SourceLine)
      → IsFresh objects rows h
      → AllApart objects h lines
      → AllFresh objects rows lines
      → AllFresh objects' rows' lines
  step-AllFresh [] fh apart f = tt
  step-AllFresh (l ∷ lines) fh (a, apart) (fl, al, rest) = (
    step-IsFresh l.account fh a fl,
    step-AllApart l.account lines al,
    step-AllFresh lines fh apart rest,
  )
