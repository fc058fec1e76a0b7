-- ===== src/Finance/Voucher/RoundTrip.antt =====
-- Posting a journal and reversing it (apps/finance/views.py).
use ghazatech_inventory_be.Prelude.{
  ℕ, ◌≡◌, ◌∙◌, refl, sym, ap, not, some, List, [], ◌∷◌, map, ◌==◌, Bool-cases, inl, inr,
}
use ghazatech_inventory_be.Prelude.Int.{ℤ, pos, ◌+ℤ◌, ◌-ℤ◌, pos_part, neg_part, int_laws}
use ghazatech_inventory_be.Prelude.Result.{ok, raise_if, >>=-eq-ok, ok_injective}
use ghazatech_inventory_be.Finance.Accounts.{NormalBalance, Account}
use ghazatech_inventory_be.Finance.Journal.{JournalLine, movement}
use ghazatech_inventory_be.Finance.Fresh.{row}
use ghazatech_inventory_be.Finance.Voucher.{
  Voucher, Register, is_approved, wrong_status, is_balanced, not_balanced, posting_blocked,
}
use ghazatech_inventory_be.Finance.Voucher.Posting.{post_voucher, posted_register, has_restricted}
use ghazatech_inventory_be.Finance.Voucher.Reverse.{swapped_line}
use ghazatech_inventory_be.Finance.Voucher.Posted.{
  AllUnique, IsUnused, AllApart, AllFound, AllSame-refl, added, added-same, with_added,
  post_voucher_lines-added,
}

movement-swapped : (n : NormalBalance) (d c : ℤ) → movement n c d ≡ pos 0 -ℤ movement n d c
movement-swapped NormalBalance.debit d c = omega int_laws
movement-swapped NormalBalance.credit d c = omega int_laws

added-swapped :
    (lines : List JournalLine) (a : Account)
    → added (map swapped_line lines) a +ℤ added lines a ≡ pos 0
unfolding added
added-swapped [] a = omega int_laws
added-swapped (l ∷ lines) a =
    let m = movement-swapped a.definition.normal_balance l.debit l.credit in
    let ih = added-swapped lines a in
    elim (Bool-cases (a.pk == l.account)) [
      | inl hit ↦ rw (hit, m) (omega (int_laws, ap pos_part ih, ap neg_part ih))
      | inr miss ↦ rw miss (omega (int_laws, ap pos_part ih, ap neg_part ih))
    ]

pub with_added-swapped :
    (lines : List JournalLine) (rows : List Account)
    → map (with_added (map swapped_line lines)) (map (with_added lines) rows) ≡ rows
with_added-swapped lines [] = refl
with_added-swapped lines (a ∷ rows) =
    let sum = added-swapped lines a in
    let same = added-same (map swapped_line lines) a (a.current_balance +ℤ added lines a) in
    let first : with_added (map swapped_line lines) (with_added lines a) ≡ a =
      ap (λ (b : ℤ). record a { current_balance = b })
        (ap (λ (n : ℤ). a.current_balance +ℤ added lines a +ℤ n) same
          ∙ omega (int_laws, ap pos_part sum, ap neg_part sum)) in
    rw (first, with_added-swapped lines rows)

IsUnused-swapped :
    (k : ℕ) (lines : List JournalLine) → IsUnused k lines → IsUnused k (map swapped_line lines)
IsUnused-swapped k [] u = tt
IsUnused-swapped k (l ∷ lines) (d, u) = (d, IsUnused-swapped k lines u)

pub swapped-AllApart :
    (lines : List JournalLine) → AllApart lines → AllApart (map swapped_line lines)
swapped-AllApart [] a = tt
swapped-AllApart (l ∷ lines) (u, a) = (IsUnused-swapped l.account lines u, swapped-AllApart lines a)

row-added :
    (k : ℕ) (lines : List JournalLine) (rows : List Account) {a : Account}
    → row k rows ≡ some a
    → row k (map (with_added lines) rows) ≡ some (with_added lines a)
row-added k lines [] h = cc
row-added k lines (r ∷ rows) {a} h = elim (Bool-cases (r.pk == k)) [
  | inl hit ↦ let e : some r ≡ some a = rw hit at h in let s : r ≡ a = cc in rw (hit, s)
  | inr miss ↦ rw miss (row-added k lines rows (rw miss at h))
]

pub found-swapped :
    (all lines : List JournalLine) (rows : List Account)
    → AllFound rows lines
    → AllFound (map (with_added all) rows) (map swapped_line lines)
found-swapped all [] rows f = tt
found-swapped all (l ∷ lines) rows ((a, at), f) =
    ((with_added all a, row-added l.account all rows at), found-swapped all lines rows f)

-- A journal that was posted has its lines added to the accounts.
pub posted-accounts :
    (missing : Account) (user : ℕ) (v : Voucher) (r : Register) {r' : Register}
    → AllUnique r.accounts
    → AllFound r.accounts v.lines
    → AllApart v.lines
    → post_voucher missing user v r ≡ ok r'
    → r'.accounts ≡ map (with_added v.lines) r.accounts
unfolding post_voucher posted_register
posted-accounts missing user v r {r'} unique found apart h =
    let (_, _, h1) = >>=-eq-ok (raise_if (not (is_approved v.status)) wrong_status) _ h in
    let (_, _, h2) = >>=-eq-ok (raise_if (not (is_balanced v.lines)) not_balanced) _ h1 in
    let (_, _, h3) =
      >>=-eq-ok (raise_if (has_restricted missing r.accounts v.lines) posting_blocked) _ h2 in
    let made = ok_injective h3 in
    ap (λ (q : Register). q.accounts) (sym made)
    ∙ post_voucher_lines-added missing r.accounts v.pk 1 v.lines r.accounts r.ledger unique found
        (AllSame-refl r.accounts v.lines) apart
