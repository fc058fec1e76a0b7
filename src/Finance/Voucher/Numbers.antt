-- ===== src/Finance/Voucher/Numbers.antt =====
-- The printed numbers of journals (`_generate_number` of apps/finance/serializers.py, `duplicate` and
-- `reverse` of apps/finance/views.py), which count the month's journals.
use ghazatech_inventory_be.Prelude.{
  ℕ, ◌+◌, ◌≡◌, ◌∙◌, refl, ap, true, false, not, some, List, [], ◌∷◌, ◌==◌, ==_iff, find, select,
  any, length, arith, Bool-cases, inl, inr,
}
use ghazatech_inventory_be.Prelude.Result.{ok, err, raise_if, >>=-eq-ok, ok_injective}
use ghazatech_inventory_be.Finance.Voucher.{
  EntryNumber, Voucher, Register, is_draft_or_rejected, cannot_be_deleted, duplicate_number,
  has_voucher_pk, is_of_month, has_number, next_serial, create_voucher,
}
use ghazatech_inventory_be.Finance.Voucher.Views.{destroy, without_voucher, voucher_at}

-- No row has the key.
abbrev pub IsFree : ℕ → List Voucher → Type 0
IsFree k [] = Unit
IsFree k (v ∷ vouchers) = ((v.pk == k) ≡ false) × IsFree k vouchers

-- Each row has a key of its own.
abbrev pub AllKeyed : List Voucher → Type 0
AllKeyed [] = Unit
AllKeyed (v ∷ vouchers) = IsFree v.pk vouchers × AllKeyed vouchers

abbrev others : ℕ → List Voucher → List Voucher
others k vouchers = select (λ v. not (v.pk == k)) vouchers

others-free : (k : ℕ) (vouchers : List Voucher) → IsFree k vouchers → others k vouchers ≡ vouchers
others-free k [] free = refl
others-free k (v ∷ vouchers) (differ, free) = rw (differ, others-free k vouchers free)

-- One journal of the month less.
count-others :
    (month k : ℕ) (vouchers : List Voucher) {v : Voucher}
    → AllKeyed vouchers
    → find (has_voucher_pk k) vouchers ≡ some v
    → is_of_month month v ≡ true
    → length (select (is_of_month month) (others k vouchers)) + 1
      ≡ length (select (is_of_month month) vouchers)
count-others month k [] keyed at of_month = cc
count-others month k (w ∷ vouchers) {v} (free, keyed) at of_month = elim (Bool-cases (w.pk == k)) [
  | inl hit ↦
      let e : some w ≡ some v = rw hit at at in
      let same : w ≡ v = cc in
      let this : is_of_month month w ≡ true = ap (is_of_month month) same ∙ of_month in
      let key : w.pk ≡ k = (==_iff w.pk k).0 hit in
      let rest = others-free k vouchers (rw key at free) in rw (hit, rest, this) (omega arith)
  | inr miss ↦
      let ih = count-others month k vouchers {v = v} keyed (rw miss at at) of_month in
      rw miss (elim (Bool-cases (is_of_month month w)) [
        | inl counted ↦ rw counted (omega (arith, ih))
        | inr left_out ↦ rw left_out (omega (arith, ih))
      ])
]

any-others :
    (month serial k : ℕ) (vouchers : List Voucher) {last : Voucher}
    → find (has_number month serial) vouchers ≡ some last
    → (last.pk == k) ≡ false
    → any (has_number month serial) (others k vouchers) ≡ true
any-others month serial k [] at differ = cc
any-others month serial k (w ∷ vouchers) {last} at differ =
    elim (Bool-cases (has_number month serial w)) [
      | inl hit ↦
          let e : some w ≡ some last = rw hit at at in
          let same : w ≡ last = cc in
          let kept : (w.pk == k) ≡ false = ap (λ (v : Voucher). v.pk == k) same ∙ differ in
          rw (kept, hit)
      | inr miss ↦
          let ih = any-others month serial k vouchers (rw miss at at) differ in
          elim (Bool-cases (w.pk == k)) [ inl gone ↦ rw gone ih | inr kept ↦ rw (kept, miss) ih ]
    ]

-- Where journals have keys of their own and the month's are numbered up to their count, the
-- deletion of one of them but the last leaves a register in which no journal of the month can be
-- created: its number is taken.
pub destroy_blocks_numbers :
    (month k : ℕ) (v last : Voucher) (r : Register) {r' : Register} (make : EntryNumber → Voucher)
    → AllKeyed r.vouchers
    → find (has_voucher_pk k) r.vouchers ≡ some v
    → is_of_month month v ≡ true
    → find (has_number month (length (select (is_of_month month) r.vouchers))) r.vouchers
      ≡ some last
    → (last.pk == k) ≡ false
    → destroy k r ≡ ok r'
    → create_voucher month make r' ≡ err duplicate_number
unfolding destroy create_voucher
destroy_blocks_numbers month k v last r {r'} make keyed at of_month numbered differ h =
    let (w, _, h1) = >>=-eq-ok (voucher_at k r) _ h in
    let (_, _, h2) =
      >>=-eq-ok (raise_if (not (is_draft_or_rejected w.status)) cannot_be_deleted) _ h1 in
    let made : without_voucher k r ≡ r' = ok_injective h2 in
    let count = count-others month k r.vouchers keyed at of_month in
    let taken : any (has_number month (next_serial month (others k r.vouchers)))
          (others k r.vouchers)
        ≡ true =
      rw count (
        any-others month (length (select (is_of_month month) r.vouchers)) k r.vouchers numbered
          differ) in
    rw (← made, taken)
