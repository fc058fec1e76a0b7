-- ===== src/Inventory/TenantAdjusted.antt =====
-- What a tenant's adjustment does to its tables (apps/inventory/tenant_adjustments.py).
use ghazatech_inventory_be.Prelude.{
  ℕ, ◌+◌, ◌-◌, ◌*◌, ◌≤◌, ◌<◌, ◌≡◌, ◌∙◌, refl, sym, ap, ◌&&◌, ◌||◌, Option, some, ◌∷◌, ltb, ◌==◌,
  find, find-put_self, arith,
}
use ghazatech_inventory_be.Prelude.Decimal.{round_half_up}
use ghazatech_inventory_be.Prelude.Int.{ℤ, pos, pos_part, negsuc, ◌+ℤ◌, ltb_ℤ}
use ghazatech_inventory_be.Prelude.Result.{ok, raise_if, or_raise, >>=-eq-ok, ok_injective}
use ghazatech_inventory_be.Inventory.Adjust.{Stock}
use ghazatech_inventory_be.Inventory.Shelf.{StockRow, is_row, stock_or_new}
use ghazatech_inventory_be.Transfer.Store.{StockKey}
use ghazatech_inventory_be.Transfer.Keys.{key_eq_refl}
use ghazatech_inventory_be.Inventory.TenantAdjust.{
  AdjustmentRequest, TenantProduct, TenantTables, StockAdjustment, AdjustmentMovement,
  signed_quantity, value_of, adjustment_key, adjust_stock_row, recorded, create_tenant_adjustment,
  not_available, insufficient_unreserved, is_deduction, not_positive, reason_required,
  reason_too_long, no_product, is_tenant_product, validate_variant,
}

-- What the second guard leaves.
covered_after :
    (z : ℤ) (r : ℕ)
    → raise_if (ltb_ℤ z (pos 0) || ltb_ℤ z (pos r)) insufficient_unreserved ≡ ok tt
    → (pos (pos_part z) ≡ z) × (r ≤ pos_part z)
covered_after (pos n) r h = (refl, ground arith)
covered_after (negsuc n) r h = (ground arith, ground arith)

-- One row of a table that is written.
adjust_stock_row-effect :
    (k : StockKey) (q : AdjustmentRequest) (s : Stock) (t : TenantTables) {t' : TenantTables}
    → adjust_stock_row k q s t ≡ ok t'
    → (recorded k q s t ≡ t')
      × (pos (pos_part (pos s.current_stock +ℤ signed_quantity q))
          ≡ pos s.current_stock +ℤ signed_quantity q)
      × (s.reserved_stock ≤ pos_part (pos s.current_stock +ℤ signed_quantity q))
adjust_stock_row-effect k q s t h =
    let after = pos s.current_stock +ℤ signed_quantity q in
    let (_, _, h1) =
      >>=-eq-ok
        (raise_if
          (is_deduction q.adjustment_type && ltb (s.current_stock - s.reserved_stock) q.quantity)
          not_available)
        _ h in
    let (_, enough, h2) =
      >>=-eq-ok
        (raise_if (ltb_ℤ after (pos 0) || ltb_ℤ after (pos s.reserved_stock))
          insufficient_unreserved)
        _ h1 in
    let (exact, covered) = covered_after after s.reserved_stock enough in
    (ok_injective h2, exact, covered)

found_product :
    (o : Option TenantProduct) {p : TenantProduct} → or_raise o no_product ≡ ok p → o ≡ some p
found_product o h = ground arith

-- The number of hundredths that is nearest to a number of ten-thousandths, the upper one at a tie.
abbrev pub IsValue : ℕ → ℕ → Type 0
IsValue value exact = (100 * value ≤ exact + 50) × (exact + 50 < 100 * value + 100)

value_of-IsValue : (n : ℕ) → IsValue (value_of n) n
unfolding value_of round_half_up
value_of-IsValue n = (ground arith, ground arith)

-- A successful adjustment finds an active product of the branch and changes the stock of its key by the
-- signed quantity, leaving what is reserved covered; the adjustment and the movement that it adds
-- record the stock before and after, the movement names the adjustment, and the recorded values are
-- those stocks at the average cost, each rounded to the nearest hundredth.
pub create_tenant_adjustment-effect :
    (branch : ℕ) (q : AdjustmentRequest) (t : TenantTables) {t' : TenantTables}
    → create_tenant_adjustment branch q t ≡ ok t'
    → (p : TenantProduct) × (a : StockAdjustment) × (m : AdjustmentMovement) × (let k =
          adjustment_key branch q p in
        let before = stock_or_new p.reorder_level (find (is_row k) t.rows) in
        let after = a.actual_quantity_counted in
        (find (is_tenant_product branch q.product) t.products ≡ some p)
        × (find (is_row k) t'.rows
            ≡ some (record { key = k; stock = record before { current_stock = after } }))
        × (pos after ≡ pos before.current_stock +ℤ signed_quantity q)
        × (before.reserved_stock ≤ after)
        × (t'.adjustments ≡ a ∷ t.adjustments)
        × (t'.movements ≡ m ∷ t.movements)
        × (m.reference_id ≡ a.pk)
        × (a.current_quantity ≡ before.current_stock)
        × (m.previous_stock ≡ before.current_stock)
        × (m.new_stock ≡ after)
        × IsValue a.value_before (before.average_unit_cost * before.current_stock)
        × IsValue a.value_after (before.average_unit_cost * after)
        × IsValue m.running_stock_value (before.average_unit_cost * after))
unfolding create_tenant_adjustment recorded
create_tenant_adjustment-effect branch q t {t'} h =
    let (_, _, h1) = >>=-eq-ok (raise_if (q.quantity == 0) not_positive) _ h in
    let (_, _, h2) = >>=-eq-ok (raise_if (q.reason_length == 0) reason_required) _ h1 in
    let (_, _, h3) = >>=-eq-ok (raise_if (ltb 120 q.reason_length) reason_too_long) _ h2 in
    let (p, product, h4) =
      >>=-eq-ok (or_raise (find (is_tenant_product branch q.product) t.products) no_product) _ h3 in
    let (_, _, h5) = >>=-eq-ok (validate_variant q.variant p t) _ h4 in
    let k = adjustment_key branch q p in
    let s = stock_or_new p.reorder_level (find (is_row k) t.rows) in
    let (made, exact, covered) = adjust_stock_row-effect k q s t h5 in
    let after = pos_part (pos s.current_stock +ℤ signed_quantity q) in
    let r : StockRow = record { key = k; stock = record s { current_stock = after } } in
    let value_before = value_of-IsValue (s.average_unit_cost * s.current_stock) in
    let value_after = value_of-IsValue (s.average_unit_cost * after) in
    (
      p,
      _,
      _,
      (
        found_product (find (is_tenant_product branch q.product) t.products) product,
        ap (λ (u : TenantTables). find (is_row k) u.rows) (sym made)
            ∙ find-put_self (is_row k) r t.rows (key_eq_refl k),
        exact,
        covered,
        ap (λ (u : TenantTables). u.adjustments) (sym made),
        ap (λ (u : TenantTables). u.movements) (sym made),
        refl,
        refl,
        refl,
        refl,
        value_before,
        value_after,
        value_after,
      ),
    )
