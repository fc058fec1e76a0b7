-- ===== src/Tests/StockRuns.antt =====
-- The theorems on stock adjustments, costs, taxes and sales lines at small numbers.
use ghazatech_inventory_be.Prelude.{
  ◌+◌, ◌*◌, ◌-◌, ◌≤◌, ◌≡◌, ◌↔◌, ◌⊎◌, refl, Bool, true, false, if◌then◌else◌, none, some, arith, ltb,
}
use ghazatech_inventory_be.Prelude.Int.{ℤ, pos, negsuc, ◌+ℤ◌, ◌-ℤ◌, ◌*ℤ◌, ◌≤ℤ◌, eqb_ℤ}
use ghazatech_inventory_be.Prelude.Result.{Result, ok, err}
use ghazatech_inventory_be.Tax.{standard_vat, calculate_inventory_tax}
use ghazatech_inventory_be.Tax.Split.{inclusive-partition}
use ghazatech_inventory_be.Sales.TaxLine
use ghazatech_inventory_be.Sales.TaxLine.{
  calculate_sales_line, line_gross, quantized, normalize_tax_treatment, is_listed, is_vat,
  validate_tax_treatment, no_permission,
}
use ghazatech_inventory_be.Sales.Totals.{IsNear, IsCents, IsFivePercent, calculate_sales_line-total}
use ghazatech_inventory_be.Inventory.Adjust.{
  Treatment, valid, Stock, Movement, StockError, AdjustArgs, adjust_stock, normalize_tax,
  weighted_cost, integrity_error,
}
use ghazatech_inventory_be.Inventory.AdjustLaws.{adjust_stock-effect, adjust_stock_ok_iff}
use ghazatech_inventory_be.Inventory.Valuation.{weighted_cost_conserves}

-- Ten pieces at 2.00, three of them reserved.
abbrev shelf : Stock
shelf = record {
  current_stock = 10;
  reserved_stock = 3;
  reorder_level = 2;
  average_unit_cost = 20_000;
  average_unit_cost_excluding_vat = 20_000;
  recoverable_vat_per_unit = 0;
  capitalized_vat_per_unit = 0;
  last_purchase_cost_excluding_vat = 20_000;
  last_purchase_cost = 20_000;
  last_tax_treatment = Treatment.non_vat;
  last_vat_percentage = 0;
}

-- Five more pieces at 2.10 with VAT.
abbrev receipt : AdjustArgs
receipt = record {
  variant_belongs = true;
  quantity = pos 5;
  allow_negative = false;
  unit_cost = some 21_000;
  vat_treatment = some (valid Treatment.vat);
  vat_inclusive = some true;
  vat_recoverable = false;
  product_tax_treatment = none;
  product_vat_inclusive = false;
  product_reorder_level = 4;
}

abbrev issue_of : ℤ → Bool → AdjustArgs
issue_of quantity allow_negative = record receipt {
  quantity = quantity;
  allow_negative = allow_negative;
  unit_cost = none;
}

abbrev outcome : Result StockError (Stock × Movement × Bool) → Stock × Movement × Bool
outcome (ok r) = r
outcome (err _) = (
  shelf,
  record {
    quantity = pos 0;
    previous_stock = 0;
    new_stock = 0;
    unit_cost_excluding_vat = 0;
    vat_treatment = Treatment.vat;
    vat_percentage = 0;
    recoverable_vat_amount = 0;
    non_recoverable_vat_amount = 0;
    capitalized_unit_cost = 0;
    net_value_change = pos 0;
    gross_value_change = pos 0;
    running_stock_value = 0;
    is_vat_relevant = false;
  },
  false,
)

abbrev received : Stock × Movement × Bool
unfolding adjust_stock
received = outcome (adjust_stock receipt shelf)

average_run : received.0.average_unit_cost ≡ 20_333
unfolding adjust_stock ◌+ℤ◌ ◌*ℤ◌ calculate_inventory_tax
average_run = refl

-- An issue of eight pieces is refused though `allow_negative` is given.
allow_negative_run : adjust_stock (issue_of (negsuc 7) true) shelf ≡ err integrity_error
unfolding adjust_stock ◌+ℤ◌ ◌*ℤ◌
allow_negative_run = refl

adjust_stock-effect_example :
    let (s', m, low) = received in
    (pos s'.current_stock ≡ pos shelf.current_stock +ℤ receipt.quantity)
    × (s'.reserved_stock ≡ shelf.reserved_stock)
    × (s'.reserved_stock ≤ s'.current_stock)
    × (m.quantity ≡ receipt.quantity)
    × (m.previous_stock ≡ shelf.current_stock)
    × (m.new_stock ≡ s'.current_stock)
    × (low ≡ ltb (s'.current_stock - s'.reserved_stock) 10)
unfolding adjust_stock ◌+ℤ◌ ◌*ℤ◌
adjust_stock-effect_example =
    adjust_stock-effect receipt shelf received.0 received.1 received.2 refl

adjust_stock_ok_iff_example :
    ((r : Stock × Movement × Bool) × (adjust_stock receipt shelf ≡ ok r)) ↔ (
      (true ≡ true)
      × (eqb_ℤ (pos 5) (pos 0) ≡ false)
      × (pos 3 ≤ℤ pos 10 +ℤ pos 5)
      × ((t : Treatment) × (normalize_tax none (some (valid Treatment.vat)) ≡ ok t)))
adjust_stock_ok_iff_example = adjust_stock_ok_iff receipt shelf

weighted_cost_conserves_example :
    let value = (10 + 5) * weighted_cost 10 20_000 5 21_000 in
    (2 * value ≤ 2 * (10 * 20_000 + 5 * 21_000) + (10 + 5))
    × (2 * (10 * 20_000 + 5 * 21_000) ≤ 2 * value + (10 + 5))
weighted_cost_conserves_example = weighted_cost_conserves 10 20_000 5 21_000 (omega arith)

inclusive-partition_example :
    let v = calculate_inventory_tax 10_000 standard_vat true true in
    v.unit_cost_excluding_vat + v.vat_per_unit ≡ 10_000
inclusive-partition_example = inclusive-partition 10_000 standard_vat true

-- One and a half at 3.33, where the parts are a cent above the total.
calculate_sales_line-total_example :
    let l = calculate_sales_line (pos 150) (pos 333) (pos 0) (some TaxLine.Treatment.vat) false in
    let rated = is_vat (normalize_tax_treatment (some TaxLine.Treatment.vat)) in
    IsNear (l.taxable_amount +ℤ l.tax_amount) l.line_total
    × IsCents
        (if false then l.line_total else l.taxable_amount)
        (line_gross (pos 150) (pos 333) (pos 0))
    × (((rated ≡ true) × IsFivePercent l.tax_amount l.taxable_amount)
        ⊎ ((rated ≡ false) × (l.tax_amount ≡ pos 0) × (l.line_total ≡ l.taxable_amount)))
calculate_sales_line-total_example =
    calculate_sales_line-total (pos 150) (pos 333) (pos 0) (some TaxLine.Treatment.vat) false

one_cent_run :
    calculate_sales_line (pos 150) (pos 333) (pos 0) (some TaxLine.Treatment.vat) false
    ≡ record { taxable_amount = pos 500; tax_amount = pos 25; line_total = pos 524 }
unfolding calculate_sales_line quantized ◌-ℤ◌ ◌*ℤ◌
one_cent_run = refl

exempt_run : validate_tax_treatment false (some TaxLine.Treatment.exempt) true ≡ err no_permission
unfolding validate_tax_treatment
exempt_run = refl
