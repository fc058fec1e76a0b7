-- ===== src/Inventory/AdjustLaws.antt =====
-- What a stock adjustment does to its row (apps/inventory/services.py).
use ghazatech_inventory_be.Prelude.{
  ℕ, ◌-◌, ◌≤◌, ◌≡◌, ◌↔◌, sym, ap, Bool, true, false, not, ◌&&◌, arith, ltb,
}
use ghazatech_inventory_be.Prelude.Int.{ℤ, pos, pos_part, ◌+ℤ◌, ◌≤ℤ◌, ltb_ℤ, eqb_ℤ}
use ghazatech_inventory_be.Prelude.Result.{ok, raise_if, >>=-eq-ok, ok_injective}
use ghazatech_inventory_be.Tax.{Valuation}
use ghazatech_inventory_be.Inventory.Adjust.{
  Stock, Movement, AdjustArgs, Treatment, variant_mismatch, zero_quantity, insufficient_stock,
  insufficient_available, integrity_error, normalize_tax, revalued, valuation_of, movement_of,
  is_low, adjust_stock,
}

revalued-reserved :
    (a : AdjustArgs) (t : Treatment) (v : Valuation) (s : Stock)
    → (revalued a t v s).reserved_stock ≡ s.reserved_stock
unfolding revalued
revalued-reserved a t v s = ground arith

-- The row as it is saved.
abbrev saved : AdjustArgs → Treatment → Stock → Stock
saved a t s = record (revalued a t (valuation_of a t s) s) {
  current_stock = pos_part (pos s.current_stock +ℤ a.quantity);
  reorder_level = a.product_reorder_level;
}

covered_of : (z : ℤ) (r : ℕ) → ltb_ℤ z (pos 0) ≡ false → ltb (pos_part z) r ≡ false → pos r ≤ℤ z
covered_of z r h k = ground arith

-- The guards of an adjustment, and its result.
adjust_stock-eq-ok :
    (a : AdjustArgs) (s s' : Stock) (m : Movement) (low : Bool)
    → adjust_stock a s ≡ ok (s', m, low)
    → (t : Treatment) × (normalize_tax a.product_tax_treatment a.vat_treatment ≡ ok t)
      × (a.variant_belongs ≡ true)
      × (eqb_ℤ a.quantity (pos 0) ≡ false)
      × (pos s.reserved_stock ≤ℤ pos s.current_stock +ℤ a.quantity)
      × (s' ≡ saved a t s)
      × (m ≡ movement_of a t (valuation_of a t s) s.current_stock (saved a t s))
      × (low ≡ is_low (saved a t s))
unfolding adjust_stock
adjust_stock-eq-ok a s s' m low h =
    let after = pos s.current_stock +ℤ a.quantity in
    let (_, belongs, h1) = >>=-eq-ok (raise_if (not a.variant_belongs) variant_mismatch) _ h in
    let (_, nonzero, h2) = >>=-eq-ok (raise_if (eqb_ℤ a.quantity (pos 0)) zero_quantity) _ h1 in
    let (_, enough, h3) = >>=-eq-ok (raise_if (ltb_ℤ after (pos 0)) insufficient_stock) _ h2 in
    let (_, free, h4) =
      >>=-eq-ok
        (raise_if (ltb_ℤ after (pos s.reserved_stock) && not a.allow_negative)
          insufficient_available)
        _ h3 in
    let (t, taxed, h5) = >>=-eq-ok (normalize_tax a.product_tax_treatment a.vat_treatment) _ h4 in
    let (_, checked, h6) =
      >>=-eq-ok
        (raise_if (ltb (saved a t s).current_stock (saved a t s).reserved_stock) integrity_error) _
        h5 in
    let e = ok_injective h6 in
    (
      t,
      taxed,
      ground arith,
      ground arith,
      covered_of after s.reserved_stock (ground arith)
          (ground (arith, revalued-reserved a t (valuation_of a t s) s)),
      sym (ap (λ (q : Stock × Movement × Bool). q.0) e),
      sym (ap (λ (q : Stock × Movement × Bool). q.1) e),
      sym (ap (λ (q : Stock × Movement × Bool). q.2) e),
    )

covered_lem : (z : ℤ) (r : ℕ) → pos r ≤ℤ z → (pos (pos_part z) ≡ z) × (r ≤ pos_part z)
covered_lem z r h = ground arith

covered_tests :
    (z : ℤ) (r : ℕ) (allow : Bool)
    → pos r ≤ℤ z
    → (ltb_ℤ z (pos 0) ≡ false)
      × ((ltb_ℤ z (pos r) && not allow) ≡ false)
      × (ltb (pos_part z) r ≡ false)
covered_tests z r allow h = ground arith

-- A successful adjustment changes the stock by its quantity, keeps the reservation and leaves it
-- covered, and its movement records the quantity, the stock before and the stock after.
pub adjust_stock-effect :
    (a : AdjustArgs) (s s' : Stock) (m : Movement) (low : Bool)
    → adjust_stock a s ≡ ok (s', m, low)
    → (pos s'.current_stock ≡ pos s.current_stock +ℤ a.quantity)
      × (s'.reserved_stock ≡ s.reserved_stock)
      × (s'.reserved_stock ≤ s'.current_stock)
      × (m.quantity ≡ a.quantity)
      × (m.previous_stock ≡ s.current_stock)
      × (m.new_stock ≡ s'.current_stock)
      × (low ≡ ltb (s'.current_stock - s'.reserved_stock) 10)
unfolding movement_of
adjust_stock-effect a s s' m low h =
    let (t, _, _, _, covered, es, em, el) = adjust_stock-eq-ok a s s' m low h in
    let reserved = revalued-reserved a t (valuation_of a t s) s in
    let exact = covered_lem (pos s.current_stock +ℤ a.quantity) s.reserved_stock covered in
    (
      rw es exact.0,
      rw es reserved,
      rw (es, reserved) exact.1,
      rw em,
      rw em,
      rw (em, es),
      rw (el, es),
    )

-- An adjustment succeeds exactly when the variant belongs to the product, the quantity is not zero,
-- what is left covers the reservation and the tax treatment is known: `allow_negative` has no say.
pub adjust_stock_ok_iff :
    (a : AdjustArgs) (s : Stock)
    → ((r : Stock × Movement × Bool) × (adjust_stock a s ≡ ok r)) ↔ (
        (a.variant_belongs ≡ true)
        × (eqb_ℤ a.quantity (pos 0) ≡ false)
        × (pos s.reserved_stock ≤ℤ pos s.current_stock +ℤ a.quantity)
        × ((t : Treatment) × (normalize_tax a.product_tax_treatment a.vat_treatment ≡ ok t)))
unfolding adjust_stock
adjust_stock_ok_iff a s = (
  λ (r, h).
      let (t, taxed, belongs, nonzero, covered, _, _, _) = adjust_stock-eq-ok a s r.0 r.1 r.2 h in
      (belongs, nonzero, covered, (t, taxed)),
  λ (belongs, nonzero, covered, (t, taxed)).
      let after = pos s.current_stock +ℤ a.quantity in
      let (not_negative, free, kept) =
        covered_tests after s.reserved_stock a.allow_negative covered in
      (
        (
          saved a t s,
          movement_of a t (valuation_of a t s) s.current_stock (saved a t s),
          is_low (saved a t s),
        ),
        rw (
          belongs,
          nonzero,
          not_negative,
          free,
          taxed,
          revalued-reserved a t (valuation_of a t s) s,
          kept,
        ),
      ),
)
