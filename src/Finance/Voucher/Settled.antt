-- ===== src/Finance/Voucher/Settled.antt =====
-- Journals that have been posted, in a register that changes (apps/finance/views.py).
use ghazatech_inventory_be.Prelude.{
  ℕ, ◌+◌, ◌≡◌, ◌∙◌, refl, sym, ap, Bool, true, false, not, some, List, [], ◌∷◌, ltb, ◌==◌, ==_iff,
  find, find-put_other, find-passes, select, any, arith, Bool-cases, inl, inr,
}
use ghazatech_inventory_be.Prelude.Result.{ok, raise_if, >>=-eq-ok, ok_injective}
use ghazatech_inventory_be.Finance.Journal.{JournalStatus, JournalLine}
use ghazatech_inventory_be.Finance.Voucher.{
  EntryNumber, Voucher, Register, duplicate_number, is_draft_or_rejected, is_pending, is_approved,
  has_voucher_pk, has_number, next_serial, save_voucher, create_voucher,
}
use ghazatech_inventory_be.Finance.Voucher.Views.{voucher_at, without_voucher}

-- Posted, or posted and reversed since.
abbrev pub is_settled : JournalStatus → Bool
is_settled JournalStatus.posted = true
is_settled JournalStatus.reversed = true
is_settled _ = false

-- The journal of the number has been posted with these lines, and new ones get other numbers.
pub record IsSettled (pk : ℕ) (lines : List JournalLine) (r : Register) : Type 0 where
  pub voucher : Voucher
  pub found : find (has_voucher_pk pk) r.vouchers ≡ some voucher
  pub same_lines : voucher.lines ≡ lines
  pub settled : is_settled voucher.status ≡ true
  pub numbered : ltb pk r.next_pk ≡ true

module _ (pk : ℕ) (lines : List JournalLine) where
  -- Saving another journal.
  pub save-IsSettled :
      (w : Voucher) (r : Register)
      → (w.pk == pk) ≡ false
      → IsSettled pk lines r
      → IsSettled pk lines (save_voucher w r)
  save-IsSettled w r apart s = record {
    voucher = s.voucher;
    found =
        find-put_other (has_voucher_pk w.pk) (has_voucher_pk pk) w r.vouchers
          (λ x hit. rw ((==_iff x.pk w.pk).0 hit) apart) apart
        ∙ s.found;
    same_lines = s.same_lines;
    settled = s.settled;
    numbered = s.numbered;
  }

  -- A journal that is found and is not settled is another one.
  pub other :
      (k : ℕ) (w : Voucher) (r : Register)
      → find (has_voucher_pk k) r.vouchers ≡ some w
      → is_settled w.status ≡ false
      → IsSettled pk lines r
      → (w.pk == pk) ≡ false
  other k w r at open_status s = elim (Bool-cases (w.pk == pk)) [
    | inr apart ↦ apart
    | inl same ↦
        let key : w.pk ≡ k = (==_iff w.pk k).0 (find-passes (has_voucher_pk k) r.vouchers at) in
        let e : k ≡ pk = sym key ∙ (==_iff w.pk pk).0 same in
        let one : some w ≡ some s.voucher =
          sym at ∙ ap (λ n. find (has_voucher_pk n) r.vouchers) e ∙ s.found in
        let both : w ≡ s.voucher = cc in
        let settled : is_settled w.status ≡ true =
          ap (λ (v : Voucher). is_settled v.status) both ∙ s.settled in
        cc
  ]

  pub create_voucher-IsSettled :
      (month : ℕ) (make : EntryNumber → Voucher) (r : Register) {r' : Register}
      → create_voucher month make r ≡ ok r'
      → IsSettled pk lines r
      → IsSettled pk lines r'
  unfolding create_voucher
  create_voucher-IsSettled month make r {r'} h s =
      let serial = next_serial month r.vouchers in
      let (_, _, made) =
        >>=-eq-ok (raise_if (any (has_number month serial) r.vouchers) duplicate_number) _ h in
      let same = ok_injective made in
      let differ : (r.next_pk == pk) ≡ false = let n = s.numbered in ground arith in
      let v : Voucher = record (make (EntryNumber.numbered month serial)) { pk = r.next_pk } in
      let now : IsSettled pk lines
          (record r { vouchers = v ∷ r.vouchers; next_pk = r.next_pk + 1 }) =
        record {
          voucher = s.voucher;
          found = rw differ s.found;
          same_lines = s.same_lines;
          settled = s.settled;
          numbered = let n = s.numbered in ground arith;
        } in
      rw (← same) now

  pub without-IsSettled :
      (k : ℕ) (r : Register)
      → (k == pk) ≡ false
      → IsSettled pk lines r
      → IsSettled pk lines (without_voucher k r)
  without-IsSettled k r apart s = record {
    voucher = s.voucher;
    found = kept r.vouchers ∙ s.found;
    same_lines = s.same_lines;
    settled = s.settled;
    numbered = s.numbered;
  }
    where
      kept :
          (vouchers : List Voucher)
          → find (has_voucher_pk pk) (select (λ v. not (v.pk == k)) vouchers)
            ≡ find (has_voucher_pk pk) vouchers
      kept [] = refl
      kept (v ∷ vouchers) = ground (arith, kept vouchers)

pub voucher_at-eq-ok :
    (k : ℕ) (r : Register) {w : Voucher}
    → voucher_at k r ≡ ok w
    → find (has_voucher_pk k) r.vouchers ≡ some w
voucher_at-eq-ok k r h = ground arith

pub draft_open : (s : JournalStatus) → is_draft_or_rejected s ≡ true → is_settled s ≡ false
draft_open JournalStatus.draft h = refl
draft_open JournalStatus.rejected h = refl
draft_open _ h = ground arith

pub pending_open : (s : JournalStatus) → is_pending s ≡ true → is_settled s ≡ false
pending_open JournalStatus.pending_approval h = refl
pending_open _ h = ground arith

pub approved_open : (s : JournalStatus) → is_approved s ≡ true → is_settled s ≡ false
approved_open JournalStatus.approved h = refl
approved_open _ h = ground arith

module _ (pk : ℕ) (lines : List JournalLine) where
  -- A journal that is not settled is saved in its place.
  pub saved-IsSettled :
      (k : ℕ) (w w' : Voucher) (r : Register) {r' : Register}
      → voucher_at k r ≡ ok w
      → is_settled w.status ≡ false
      → w'.pk ≡ w.pk
      → save_voucher w' r ≡ r'
      → IsSettled pk lines r
      → IsSettled pk lines r'
  saved-IsSettled k w w' r at open_status same made s =
      let apart = other pk lines k w r (voucher_at-eq-ok k r at) open_status s in
      rw (← made) (save-IsSettled pk lines w' r (ap (λ (n : ℕ). n == pk) same ∙ apart) s)
