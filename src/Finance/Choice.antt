-- ===== src/Finance/Choice.antt =====
-- Which account `_account` chooses (apps/finance/accounting.py), with the order that PostgreSQL gives
-- to nulls.
use mathlib.Core.List.{Mem, Memᴰ}
use ghazatech_inventory_be.Prelude.{
  ℕ, ◌≡◌, refl, Option-cases, ◌⊎◌, inl, inr, Bool, true, false, none, some, List, [], ◌∷◌, any,
  select, option_eq, arith, Bool-cases, not, ◌&&◌, ◌==◌,
}
use ghazatech_inventory_be.Prelude.Result.{ok}
use ghazatech_inventory_be.Finance.Accounts.{
  Account, Chart, is_candidate, precedes, first_account, first_of_two, ensure_core_accounts,
  account_for,
}

abbrev pub is_global : Account → Bool
is_global a = option_eq a.branch none

-- Between two accounts, a global one is taken over a branch's own.
first_of_two-global :
    (a b : Account)
    → (is_global a ≡ true) ⊎ (is_global b ≡ true)
    → is_global (first_of_two a (some b)) ≡ true
first_of_two-global a b h = ground arith

first_account-none : (rows : List Account) → first_account rows ≡ none → any is_global rows ≡ false
unfolding first_account
first_account-none [] h = refl
first_account-none (r ∷ rows) h = cc

first_account-cons :
    (r a : Account) (rows : List Account)
    → first_account (r ∷ rows) ≡ some a
    → a ≡ first_of_two r (first_account rows)
unfolding first_account
first_account-cons r a rows h = cc

first_account-global :
    (rows : List Account) {a : Account}
    → any is_global rows ≡ true
    → first_account rows ≡ some a
    → is_global a ≡ true
unfolding first_account
first_account-global [] h e = cc
first_account-global (r ∷ rows) {a} h e = elim (Option-cases (first_account rows)) [
  | inl empty ↦
      rw (first_account-cons r a rows e, empty) (ground (arith, first_account-none rows empty))
  | inr (b, found) ↦
      rw (first_account-cons r a rows e, found)
        (first_of_two-global r b
          (global_cases r b rows h (λ t. first_account-global rows {a = b} t found)))
]
  where
    global_cases :
        (r b : Account) (rows : List Account)
        → any is_global (r ∷ rows) ≡ true
        → (any is_global rows ≡ true → is_global b ≡ true)
        → (is_global r ≡ true) ⊎ (is_global b ≡ true)
    global_cases r b rows h f = elim (Bool-cases (is_global r)) [
      | inl yes_r ↦ inl yes_r
      | inr no_r ↦ inr (f (rw no_r at h))
    ]

-- A row of the table that the choice can return.
Memᴰ-first :
    (p : Account → Bool) (rows : List Account) {a : Account}
    → first_account (select p rows) ≡ some a
    → Memᴰ a rows × (p a ≡ true)
unfolding first_account
Memᴰ-first p [] h = cc
Memᴰ-first p (r ∷ rows) {a} h = elim (Bool-cases (p r)) [
  | inr refused ↦
      let (there, passes) = Memᴰ-first p rows {a = a} (rw refused at h) in (Memᴰ.tail there, passes)
  | inl passes ↦
      let chosen = first_account-cons r a (select p rows) (rw passes at h) in
      elim (Option-cases (first_account (select p rows))) [
        | inl empty ↦ let e : a ≡ r = rw empty at chosen in (Memᴰ.head e, rw e passes)
        | inr (b, found) ↦
            let (there, passes_b) = Memᴰ-first p rows {a = b} found in
            elim (Bool-cases (precedes r b)) [
              | inl first ↦
                  let e : a ≡ r = rw (found, first) at chosen in (Memᴰ.head e, rw e passes)
              | inr later ↦
                  let e : a ≡ b = rw (found, later) at chosen in
                  (rw e (Memᴰ.tail there), rw e passes_b)
            ]
      ]
]

-- An account of all branches, active and open to posting, with the code.
abbrev pub is_open_global : ℕ → Account → Bool
is_open_global code a =
    is_global a && a.is_active && not a.lock_from_posting && (a.definition.code == code)

open_candidate :
    (branch code : ℕ) (rows : List Account)
    → any (is_open_global code) rows ≡ true
    → any is_global (select (is_candidate branch code) rows) ≡ true
open_candidate branch code [] h = cc
open_candidate branch code (r ∷ rows) h = elim (Bool-cases (is_open_global code r)) [
  | inl here ↦ ground (arith, here)
  | inr other ↦ ground (arith, open_candidate branch code rows (rw other at h))
]

-- Where the table with the core accounts has an active account of all branches that is open to
-- posting and has the code, `_account` returns such an account of that table, whatever account of its
-- own the branch has.
pub account_for-global :
    (branch code : ℕ) (chart : Chart)
    → any (is_open_global code) (ensure_core_accounts chart).accounts ≡ true
    → (a : Account) × (account_for branch code chart ≡ ok (a, ensure_core_accounts chart))
      × Mem a (ensure_core_accounts chart).accounts
      × (is_open_global code a ≡ true)
unfolding account_for
account_for-global branch code chart h =
    let table = (ensure_core_accounts chart).accounts in
    let rows = select (is_candidate branch code) table in
    let some_global = open_candidate branch code table h in
    elim (Option-cases (first_account rows)) [
      | inl empty ↦ let missing = first_account-none rows empty in cc
      | inr (a, found) ↦
          let (there, passes) = Memᴰ-first (is_candidate branch code) table {a = a} found in
          let global = first_account-global rows {a = a} some_global found in
          (a, rw found refl, ∣ there ∣₁, ground (arith, passes, global))
    ]
