-- ===== src/Finance/Voucher/Kept.antt =====
-- What the actions of apps/finance/views.py and apps/finance/serializers.py leave of a posted journal.
use ghazatech_inventory_be.Prelude.{
  ℕ, ◌≡◌, ◌∙◌, refl, sym, ap, not, some, List, ◌==◌, ==_refl, ==_iff, find, find-put_self,
  find-passes, any, arith, Bool-cases, inl, inr,
}
use ghazatech_inventory_be.Prelude.Result.{ok, raise_if, >>=-eq-ok, ok_injective}
use ghazatech_inventory_be.Finance.Accounts.{Account}
use ghazatech_inventory_be.Finance.Journal.{JournalStatus, JournalLine}
use ghazatech_inventory_be.Finance.Voucher.{
  Voucher, Register, wrong_status, not_balanced, reason_required, already_reversed,
  cannot_be_edited, cannot_be_deleted, is_draft_or_rejected, is_pending, is_status_posted,
  is_balanced, has_voucher_pk, save_voucher, create_voucher,
}
use ghazatech_inventory_be.Finance.Voucher.Posting.{
  post_voucher_lines, post_voucher, posted_register,
}
use ghazatech_inventory_be.Finance.Voucher.Views.{
  VoucherData, create, update, destroy, submit, approve, reject, post, duplicate, voucher_at,
  validate, validate_lines, submitted, approved_voucher, rejected_voucher, draft_voucher,
  copied_voucher,
}
use ghazatech_inventory_be.Finance.Voucher.Reverse.{
  reverse, reversal_voucher, is_posted_reversal, reversed_voucher,
}
use ghazatech_inventory_be.Finance.Voucher.Settled.{
  IsSettled, save-IsSettled, other, create_voucher-IsSettled, without-IsSettled, saved-IsSettled,
  voucher_at-eq-ok, draft_open, pending_open, approved_open,
}
use ghazatech_inventory_be.Finance.Voucher.Balanced.{post_voucher-eq-ok}

module _ (pk : ℕ) (lines : List JournalLine) where
  pub submit-IsSettled :
      (k : ℕ) (r : Register) {r' : Register}
      → submit k r ≡ ok r'
      → IsSettled pk lines r
      → IsSettled pk lines r'
  unfolding submit
  submit-IsSettled k r h s =
      let (w, at, h1) = >>=-eq-ok (voucher_at k r) _ h in
      let (_, e, h2) =
        >>=-eq-ok (raise_if (not (is_draft_or_rejected w.status)) wrong_status) _ h1 in
      let (_, _, h3) = >>=-eq-ok (raise_if (not (is_balanced w.lines)) not_balanced) _ h2 in
      saved-IsSettled pk lines k w (submitted w) r at (draft_open w.status (ground arith)) refl
        (ok_injective h3) s

  pub update-IsSettled :
      (k : ℕ) (d : VoucherData) (r : Register) {r' : Register}
      → update k d r ≡ ok r'
      → IsSettled pk lines r
      → IsSettled pk lines r'
  unfolding update
  update-IsSettled k d r h s =
      let (w, at, h1) = >>=-eq-ok (voucher_at k r) _ h in
      let (_, _, h2) = >>=-eq-ok (validate_lines d.lines) _ h1 in
      let (_, e, h3) =
        >>=-eq-ok (raise_if (not (is_draft_or_rejected w.status)) cannot_be_edited) _ h2 in
      let (_, _, h4) = >>=-eq-ok (validate d r) _ h3 in
      saved-IsSettled pk lines k w _ r at (draft_open w.status (ground arith)) refl
        (ok_injective h4) s

  pub approve-IsSettled :
      (k user : ℕ) (r : Register) {r' : Register}
      → approve k user r ≡ ok r'
      → IsSettled pk lines r
      → IsSettled pk lines r'
  unfolding approve
  approve-IsSettled k user r h s =
      let (w, at, h1) = >>=-eq-ok (voucher_at k r) _ h in
      let (_, e, h2) = >>=-eq-ok (raise_if (not (is_pending w.status)) wrong_status) _ h1 in
      saved-IsSettled pk lines k w (approved_voucher user w) r at
        (pending_open w.status (ground arith)) refl (ok_injective h2) s

  pub reject-IsSettled :
      (k user reason : ℕ) (r : Register) {r' : Register}
      → reject k user reason r ≡ ok r'
      → IsSettled pk lines r
      → IsSettled pk lines r'
  unfolding reject
  reject-IsSettled k user reason r h s =
      let (w, at, h1) = >>=-eq-ok (voucher_at k r) _ h in
      let (_, e, h2) = >>=-eq-ok (raise_if (not (is_pending w.status)) wrong_status) _ h1 in
      let (_, _, h3) = >>=-eq-ok (raise_if (reason == 0) reason_required) _ h2 in
      saved-IsSettled pk lines k w (rejected_voucher user reason w) r at
        (pending_open w.status (ground arith)) refl (ok_injective h3) s

  pub destroy-IsSettled :
      (k : ℕ) (r : Register) {r' : Register}
      → destroy k r ≡ ok r'
      → IsSettled pk lines r
      → IsSettled pk lines r'
  unfolding destroy
  destroy-IsSettled k r h s =
      let (w, at, h1) = >>=-eq-ok (voucher_at k r) _ h in
      let (_, e, h2) =
        >>=-eq-ok (raise_if (not (is_draft_or_rejected w.status)) cannot_be_deleted) _ h1 in
      let found = voucher_at-eq-ok k r at in
      let key : w.pk ≡ k = (==_iff w.pk k).0 (find-passes (has_voucher_pk k) r.vouchers found) in
      let apart = other pk lines k w r found (draft_open w.status (ground arith)) s in
      rw (← ok_injective h2) (without-IsSettled pk lines k r (rw (← key) apart) s)

  post_voucher-IsSettled :
      (missing : Account) (user k : ℕ) (w : Voucher) (r : Register) {r' : Register}
      → voucher_at k r ≡ ok w
      → post_voucher missing user w r ≡ ok r'
      → IsSettled pk lines r
      → IsSettled pk lines r'
  unfolding posted_register
  post_voucher-IsSettled missing user k w r at h s =
      let (approved, _, _, made) = post_voucher-eq-ok missing user w r h in
      let w' : Voucher = record w { status = JournalStatus.posted; posted_by = some user } in
      let (rows, ledger) =
        post_voucher_lines missing r.accounts w.pk 1 w.lines r.accounts r.ledger in
      let moved : Register = record r { accounts = rows; ledger = ledger } in
      let s' : IsSettled pk lines moved = record {
        voucher = s.voucher;
        found = s.found;
        same_lines = s.same_lines;
        settled = s.settled;
        numbered = s.numbered;
      } in
      saved-IsSettled pk lines k w w' moved at (approved_open w.status approved) refl made s'

  pub post-IsSettled :
      (missing : Account) (k user : ℕ) (r : Register) {r' : Register}
      → post missing k user r ≡ ok r'
      → IsSettled pk lines r
      → IsSettled pk lines r'
  unfolding post
  post-IsSettled missing k user r h s =
      let (w, at, h1) = >>=-eq-ok (voucher_at k r) _ h in
      post_voucher-IsSettled missing user k w r at h1 s

  -- The journal that is reversed is this one or another.
  reversed-IsSettled :
      (k : ℕ) (v : Voucher) (r q : Register)
      → voucher_at k r ≡ ok v
      → IsSettled pk lines r
      → IsSettled pk lines q
      → IsSettled pk lines (save_voucher (reversed_voucher v) q)
  reversed-IsSettled k v r q at s t = elim (Bool-cases (v.pk == pk)) [
    | inr apart ↦ save-IsSettled pk lines (reversed_voucher v) q apart t
    | inl same ↦
        let found = voucher_at-eq-ok k r at in
        let key : v.pk ≡ k = (==_iff v.pk k).0 (find-passes (has_voucher_pk k) r.vouchers found) in
        let this : v.pk ≡ pk = (==_iff v.pk pk).0 same in
        let one : some v ≡ some s.voucher =
          sym found ∙ ap (λ n. find (has_voucher_pk n) r.vouchers) (sym key ∙ this) ∙ s.found in
        let both : v ≡ s.voucher = cc in
        record {
          voucher = reversed_voucher v;
          found =
              ap (λ n. find (has_voucher_pk n) (save_voucher (reversed_voucher v) q).vouchers)
                (sym this)
              ∙ find-put_self (has_voucher_pk v.pk) (reversed_voucher v) q.vouchers (==_refl v.pk);
          same_lines = ap (λ (w : Voucher). w.lines) both ∙ s.same_lines;
          settled = refl;
          numbered = t.numbered;
        }
  ]

  pub reverse-IsSettled :
      (missing : Account) (month k user : ℕ) (r : Register) {r' : Register}
      → reverse missing month k user r ≡ ok r'
      → IsSettled pk lines r
      → IsSettled pk lines r'
  unfolding reverse
  reverse-IsSettled missing month k user r h s =
      let (v, at, h1) = >>=-eq-ok (voucher_at k r) _ h in
      let (_, _, h2) = >>=-eq-ok (raise_if (not (is_status_posted v.status)) wrong_status) _ h1 in
      let (_, _, h3) =
        >>=-eq-ok (raise_if (any (is_posted_reversal v.pk) r.vouchers) already_reversed) _ h2 in
      let (made, made_eq, h4) = >>=-eq-ok (create_voucher month (reversal_voucher user v) r) _ h3 in
      let (w, w_at, h5) = >>=-eq-ok (voucher_at r.next_pk made) _ h4 in
      let (q, done, h6) = >>=-eq-ok (post_voucher missing user w made) _ h5 in
      let s1 = create_voucher-IsSettled pk lines month (reversal_voucher user v) r made_eq s in
      let s2 = post_voucher-IsSettled missing user r.next_pk w made w_at done s1 in
      rw (← ok_injective h6) (reversed-IsSettled k v r q at s s2)

  pub create-IsSettled :
      (month user : ℕ) (d : VoucherData) (r : Register) {r' : Register}
      → create month user d r ≡ ok r'
      → IsSettled pk lines r
      → IsSettled pk lines r'
  unfolding create
  create-IsSettled month user d r h s =
      let (_, _, h1) = >>=-eq-ok (validate_lines d.lines) _ h in
      let (_, _, h2) = >>=-eq-ok (validate d r) _ h1 in
      create_voucher-IsSettled pk lines month (draft_voucher user d) r h2 s

  pub duplicate-IsSettled :
      (month k user : ℕ) (r : Register) {r' : Register}
      → duplicate month k user r ≡ ok r'
      → IsSettled pk lines r
      → IsSettled pk lines r'
  unfolding duplicate
  duplicate-IsSettled month k user r h s =
      let (v, _, h1) = >>=-eq-ok (voucher_at k r) _ h in
      create_voucher-IsSettled pk lines month (copied_voucher user v) r h1 s
