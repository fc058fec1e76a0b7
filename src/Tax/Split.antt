-- ===== src/Tax/Split.antt =====
-- The parts of a unit cost that VAT is split off (apps/common/tax.py).
use ghazatech_inventory_be.Prelude.{ℕ, ◌+◌, ◌≡◌, Bool, true, false, arith}
use ghazatech_inventory_be.Tax.{TaxTreatment, calculate_inventory_tax}

module _ (unit_cost : ℕ) (tax_treatment : TaxTreatment) (recoverable : Bool) where
  -- Of an inclusive cost, the base and the VAT add up to the cost entered, in spite of the two
  -- roundings.
  pub inclusive-partition :
      let v = calculate_inventory_tax unit_cost tax_treatment true recoverable in
      v.unit_cost_excluding_vat + v.vat_per_unit ≡ unit_cost
  unfolding calculate_inventory_tax
  inclusive-partition = ground arith

-- The VAT is recoverable or capitalized, and the carrying cost is the base with the capitalized part.
pub vat-partition :
    (unit_cost : ℕ) (tax_treatment : TaxTreatment) (vat_inclusive recoverable : Bool)
    → let v = calculate_inventory_tax unit_cost tax_treatment vat_inclusive recoverable in
      (v.recoverable_vat_per_unit + v.capitalized_vat_per_unit ≡ v.vat_per_unit)
      × (v.capitalized_unit_cost ≡ v.unit_cost_excluding_vat + v.capitalized_vat_per_unit)
unfolding calculate_inventory_tax
vat-partition c t true true = ground arith
vat-partition c t true false = ground arith
vat-partition c t false true = ground arith
vat-partition c t false false = ground arith
