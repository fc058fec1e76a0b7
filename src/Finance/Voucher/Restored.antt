-- ===== src/Finance/Voucher/Restored.antt =====
-- A journal that is posted and then reversed (`post` and `reverse` of apps/finance/views.py).
use ghazatech_inventory_be.Prelude.{
  ℕ, ◌≡◌, ◌∙◌, refl, sym, ap, not, some, List, map, ==_refl, ==_iff, find, find-put_self,
  find-passes, any,
}
use ghazatech_inventory_be.Prelude.Result.{ok, raise_if, >>=-eq-ok, ok_injective}
use ghazatech_inventory_be.Finance.Accounts.{Account}
use ghazatech_inventory_be.Finance.Journal.{JournalStatus, JournalLine}
use ghazatech_inventory_be.Finance.Voucher.{
  EntryNumber, Voucher, Register, wrong_status, already_reversed, duplicate_number, not_balanced,
  posting_blocked, is_approved, is_balanced, is_status_posted, has_voucher_pk, has_number,
  next_serial, create_voucher,
}
use ghazatech_inventory_be.Finance.Voucher.Posting.{post_voucher, posted_register, has_restricted}
use ghazatech_inventory_be.Finance.Voucher.Views.{post}
use ghazatech_inventory_be.Finance.Voucher.Reverse.{
  reverse, swapped_line, reversal_voucher, is_posted_reversal,
}
use ghazatech_inventory_be.Finance.Voucher.Posted.{
  AllUnique, AllApart, AllFound, with_added, with_added-AllUnique,
}
use ghazatech_inventory_be.Finance.Voucher.RoundTrip.{
  with_added-swapped, swapped-AllApart, found-swapped, posted-accounts,
}

-- A row that is created keeps the accounts and is found under its number.
created_voucher :
    (month : ℕ) (make : EntryNumber → Voucher) (r : Register) {r' : Register}
    → create_voucher month make r ≡ ok r'
    → (r'.accounts ≡ r.accounts)
      × ((number : EntryNumber) × (find (has_voucher_pk r.next_pk) r'.vouchers
            ≡ some (record (make number) { pk = r.next_pk })))
unfolding create_voucher
created_voucher month make r h =
    let serial = next_serial month r.vouchers in
    let (_, _, made) =
      >>=-eq-ok (raise_if (any (has_number month serial) r.vouchers) duplicate_number) _ h in
    let same = ok_injective made in
    (
      ap (λ (q : Register). q.accounts) (sym same),
      (
        EntryNumber.numbered month serial,
        ap (λ (q : Register). find (has_voucher_pk r.next_pk) q.vouchers) (sym same)
            ∙ rw (==_refl r.next_pk),
      ),
    )

reverse-accounts :
    (missing : Account) (month pk user : ℕ) (v : Voucher) (r : Register) {r' : Register}
    → find (has_voucher_pk pk) r.vouchers ≡ some v
    → AllUnique r.accounts
    → AllFound r.accounts (map swapped_line v.lines)
    → AllApart v.lines
    → reverse missing month pk user r ≡ ok r'
    → r'.accounts ≡ map (with_added (map swapped_line v.lines)) r.accounts
unfolding reverse
reverse-accounts missing month pk user v r {r'} at unique found apart h =
    let h0 = rw at at h in
    let (_, _, h1) = >>=-eq-ok (raise_if (not (is_status_posted v.status)) wrong_status) _ h0 in
    let (_, _, h2) =
      >>=-eq-ok (raise_if (any (is_posted_reversal v.pk) r.vouchers) already_reversed) _ h1 in
    let (made, created, h3) = >>=-eq-ok (create_voucher month (reversal_voucher user v) r) _ h2 in
    let (accounts, (number, new)) = created_voucher month (reversal_voucher user v) r created in
    let w : Voucher = record (reversal_voucher user v number) { pk = r.next_pk } in
    let h4 = rw new at h3 in
    let (posted, done, h5) = >>=-eq-ok (post_voucher missing user w made) _ h4 in
    let last = ok_injective h5 in
    ap (λ (q : Register). q.accounts) (sym last)
    ∙ posted-accounts missing user w made (rw accounts unique) (rw accounts found)
        (swapped-AllApart v.lines apart) done
    ∙ ap (map (with_added (map swapped_line v.lines))) accounts

post-kept :
    (missing : Account) (pk user : ℕ) (v : Voucher) (r : Register) {r' : Register}
    → find (has_voucher_pk pk) r.vouchers ≡ some v
    → post missing pk user r ≡ ok r'
    → post_voucher missing user v r ≡ ok r'
unfolding post
post-kept missing pk user v r at h = rw at at h

posted_row :
    (missing : Account) (user : ℕ) (v : Voucher) (r : Register) {r' : Register}
    → post_voucher missing user v r ≡ ok r'
    → (v' : Voucher) × (v'.lines ≡ v.lines) × (find (has_voucher_pk v.pk) r'.vouchers ≡ some v')
unfolding post_voucher posted_register
posted_row missing user v r h =
    let (_, _, h1) = >>=-eq-ok (raise_if (not (is_approved v.status)) wrong_status) _ h in
    let (_, _, h2) = >>=-eq-ok (raise_if (not (is_balanced v.lines)) not_balanced) _ h1 in
    let (_, _, h3) =
      >>=-eq-ok (raise_if (has_restricted missing r.accounts v.lines) posting_blocked) _ h2 in
    let v' : Voucher = record v { status = JournalStatus.posted; posted_by = some user } in
    (
      v',
      refl,
      ap (λ (q : Register). find (has_voucher_pk v.pk) q.vouchers) (sym (ok_injective h3))
          ∙ find-put_self (has_voucher_pk v.pk) v' r.vouchers (==_refl v.pk),
    )

-- A journal on different accounts, posted and then reversed, leaves every account as it was, where
-- accounts have numbers of their own and every line's account has a row.
pub post-reverse :
    (missing : Account) (month pk poster user : ℕ) (v : Voucher) (r : Register) {r1 r2 : Register}
    → find (has_voucher_pk pk) r.vouchers ≡ some v
    → AllUnique r.accounts
    → AllFound r.accounts v.lines
    → AllApart v.lines
    → post missing pk poster r ≡ ok r1
    → reverse missing month pk user r1 ≡ ok r2
    → r2.accounts ≡ r.accounts
post-reverse missing month pk poster user v r {r1} {r2} at unique found apart h1 h2 =
    let done = post-kept missing pk poster v r at h1 in
    let accounts = posted-accounts missing poster v r unique found apart done in
    let key : v.pk ≡ pk = (==_iff v.pk pk).0 (find-passes (has_voucher_pk pk) r.vouchers at) in
    let (v', lines, at') = posted_row missing poster v r done in
    let back =
      reverse-accounts missing month pk user v' r1
        (ap (λ (k : ℕ). find (has_voucher_pk k) r1.vouchers) (sym key) ∙ at')
        (rw accounts (with_added-AllUnique v.lines r.accounts unique))
        (rw (accounts, lines) (found-swapped v.lines v.lines r.accounts found)) (rw lines apart)
        h2 in
    back
    ∙ ap (λ (ls : List JournalLine). map (with_added (map swapped_line ls)) r1.accounts) lines
    ∙ ap (map (with_added (map swapped_line v.lines))) accounts
    ∙ with_added-swapped v.lines r.accounts
