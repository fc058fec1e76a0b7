-- ===== src/Finance/Core.antt =====
-- The core accounts of the chart (apps/finance/accounting.py).
use ghazatech_inventory_be.Prelude.{
  ℕ, ◌≡◌, refl, inl, inr, Bool, true, false, ◌||◌, none, some, List, [], ◌∷◌, ◌++◌, ==_refl, find,
  any, arith, Option-cases,
}
use ghazatech_inventory_be.Finance.Accounts.{
  Account, Definition, Chart, core_accounts, is_global_code, ensure_account, ensure_accounts,
  ensure_core_accounts,
}

-- An account of all branches has the code.
abbrev pub is_configured : ℕ → Chart → Bool
is_configured code chart = any (is_global_code code) chart.accounts

abbrev pub AllConfigured : List Definition → Chart → Type 0
AllConfigured [] chart = Unit
AllConfigured (d ∷ ds) chart = (is_configured d.code chart ≡ true) × AllConfigured ds chart

find-none :
    (code : ℕ) (rows : List Account)
    → find (is_global_code code) rows ≡ none
    → any (is_global_code code) rows ≡ false
find-none code [] h = refl
find-none code (r ∷ rows) h = ground (arith, find-none code rows)

find-some :
    (code : ℕ) (rows : List Account) {a : Account}
    → find (is_global_code code) rows ≡ some a
    → any (is_global_code code) rows ≡ true
find-some code [] h = cc
find-some code (r ∷ rows) {a} h = ground (arith, find-some code rows {a = a})

any_append :
    (code : ℕ) (rows more : List Account)
    → any (is_global_code code) (rows ++ more)
      ≡ (any (is_global_code code) rows || any (is_global_code code) more)
any_append code [] more = refl
any_append code (r ∷ rows) more = ground (arith, any_append code rows more)

ensure_account-same :
    (d : Definition) (chart : Chart)
    → is_configured d.code chart ≡ true
    → ensure_account d chart ≡ chart
ensure_account-same d chart h = elim (Option-cases (find (is_global_code d.code) chart.accounts)) [
  | inl empty ↦ let e = find-none d.code chart.accounts empty in absurd (ground arith)
  | inr (a, found) ↦ rw found
]

ensure_account-keeps :
    (d : Definition) (chart : Chart) (code : ℕ)
    → is_configured code chart ≡ true
    → is_configured code (ensure_account d chart) ≡ true
ensure_account-keeps d chart code h =
    elim (Option-cases (find (is_global_code d.code) chart.accounts)) [
      | inl empty ↦ rw (empty, any_append code chart.accounts, h)
      | inr (a, found) ↦ rw found h
    ]

ensure_account-configures :
    (d : Definition) (chart : Chart) → is_configured d.code (ensure_account d chart) ≡ true
ensure_account-configures d chart =
    elim (Option-cases (find (is_global_code d.code) chart.accounts)) [
      | inl empty ↦ rw (
        empty,
        any_append d.code chart.accounts,
        find-none d.code chart.accounts empty,
        ==_refl d.code,
      )
      | inr (a, found) ↦ rw found (find-some d.code chart.accounts found)
    ]

ensure_accounts-keeps :
    (ds : List Definition) (chart : Chart) (code : ℕ)
    → is_configured code chart ≡ true
    → is_configured code (ensure_accounts ds chart) ≡ true
unfolding ensure_accounts
ensure_accounts-keeps [] chart code h = h
ensure_accounts-keeps (d ∷ ds) chart code h =
    ensure_accounts-keeps ds (ensure_account d chart) code (ensure_account-keeps d chart code h)

ensure_accounts-AllConfigured :
    (ds : List Definition) (chart : Chart) → AllConfigured ds (ensure_accounts ds chart)
unfolding ensure_accounts
ensure_accounts-AllConfigured [] chart = tt
ensure_accounts-AllConfigured (d ∷ ds) chart = (
  ensure_accounts-keeps ds (ensure_account d chart) d.code (ensure_account-configures d chart),
  ensure_accounts-AllConfigured ds (ensure_account d chart),
)

ensure_accounts-same :
    (ds : List Definition) (chart : Chart)
    → AllConfigured ds chart
    → ensure_accounts ds chart ≡ chart
unfolding ensure_accounts
ensure_accounts-same [] chart c = refl
ensure_accounts-same (d ∷ ds) chart (h, c) =
    rw (ensure_account-same d chart h) (ensure_accounts-same ds chart c)

-- After a run every core account is configured for all branches, and a second run changes nothing.
pub ensure_core_accounts_twice :
    (chart : Chart)
    → AllConfigured core_accounts (ensure_core_accounts chart)
      × (ensure_core_accounts (ensure_core_accounts chart) ≡ ensure_core_accounts chart)
unfolding ensure_core_accounts
ensure_core_accounts_twice chart =
    let all = ensure_accounts-AllConfigured core_accounts chart in
    (all, ensure_accounts-same core_accounts (ensure_accounts core_accounts chart) all)
