-- ===== src/Inventory/Adjust.antt =====
-- `normalize_tax` and `_adjust_stock_locked` of apps/inventory/services.py, on the locked row of one
-- product, branch, variant and warehouse. Costs are numbers of ten-thousandths, amounts of money are
-- numbers of cents. The mirroring of catalogue rows and users, texts and dates are left out.
use ghazatech_inventory_be.Prelude.{
  ℕ, ◌+◌, ◌-◌, ◌*◌, Bool, true, false, not, ◌&&◌, Option, none, some, ltb, ◌==◌, if◌then◌else◌,
  or_default,
}
use ghazatech_inventory_be.Prelude.Int.{ℤ, pos, pos_part, neg_part, ◌+ℤ◌, ◌*ℤ◌, ltb_ℤ, eqb_ℤ}
use ghazatech_inventory_be.Prelude.Decimal.{round_half_up, on_magnitude}
use ghazatech_inventory_be.Prelude.Result.{Result, ok, err, raise_if, ◌>>◌, ◌>>=◌}
use ghazatech_inventory_be.Tax
use ghazatech_inventory_be.Tax.{TaxTreatment, Valuation, quantize_unit, calculate_inventory_tax}

-- `VALID_TAX_TREATMENTS`
pub data Treatment : Type 0 where
  vat zero_vat non_vat : Treatment

-- The text of a treatment, stripped and in capitals.
pub data TreatmentText : Type 0 where
  valid : Treatment → TreatmentText
  standard_vat zero_rated out_of_scope non_taxable exempt : TreatmentText
  unlisted : ℕ → TreatmentText

pub data StockError : Type 0 where
  variant_mismatch zero_quantity insufficient_stock insufficient_available : StockError
  invalid_treatment integrity_error : StockError

abbrev alias_of : TreatmentText → Result StockError Treatment
alias_of (valid t) = ok t
alias_of standard_vat = ok vat
alias_of zero_rated = ok zero_vat
alias_of out_of_scope = ok non_vat
alias_of non_taxable = ok non_vat
alias_of exempt = ok non_vat
alias_of (unlisted _) = err invalid_treatment

-- `vat_treatment or product.tax_treatment or NON_VAT`; the rate is 5 for VAT and 0 otherwise.
unfoldable pub normalize_tax :
    Option TreatmentText → Option TreatmentText → Result StockError Treatment
normalize_tax _ (some t) = alias_of t
normalize_tax (some t) none = alias_of t
normalize_tax none none = ok non_vat

abbrev pub percentage_of : Treatment → ℕ
percentage_of vat = 5
percentage_of zero_vat = 0
percentage_of non_vat = 0

-- `_common_tax_treatment`
abbrev pub common_tax_treatment : Treatment → TaxTreatment
common_tax_treatment vat = TaxTreatment.standard_vat
common_tax_treatment zero_vat = TaxTreatment.zero_rated
common_tax_treatment non_vat = TaxTreatment.out_of_scope

abbrev pub is_vat : Treatment → Bool
is_vat vat = true
is_vat _ = false

-- A `ProductStock` row.
pub record Stock : Type 0 where
  pub current_stock : ℕ
  pub reserved_stock : ℕ
  pub reorder_level : ℕ
  pub average_unit_cost : ℕ
  pub average_unit_cost_excluding_vat : ℕ
  pub recoverable_vat_per_unit : ℕ
  pub capitalized_vat_per_unit : ℕ
  pub last_purchase_cost_excluding_vat : ℕ
  pub last_purchase_cost : ℕ
  pub last_tax_treatment : Treatment
  pub last_vat_percentage : ℕ

-- A `StockMovement` row.
pub record Movement : Type 0 where
  pub quantity : ℤ
  pub previous_stock : ℕ
  pub new_stock : ℕ
  pub unit_cost_excluding_vat : ℕ
  pub vat_treatment : Treatment
  pub vat_percentage : ℕ
  pub recoverable_vat_amount : ℕ
  pub non_recoverable_vat_amount : ℕ
  pub capitalized_unit_cost : ℕ
  pub net_value_change : ℤ
  pub gross_value_change : ℤ
  pub running_stock_value : ℕ
  pub is_vat_relevant : Bool

-- The arguments, and the product's columns that the function reads.
pub record AdjustArgs : Type 0 where
  pub variant_belongs : Bool
  pub quantity : ℤ
  pub allow_negative : Bool
  pub unit_cost : Option ℕ
  pub vat_treatment : Option TreatmentText
  pub vat_inclusive : Option Bool
  pub vat_recoverable : Bool
  pub product_tax_treatment : Option TreatmentText
  pub product_vat_inclusive : Bool
  pub product_reorder_level : ℕ

abbrev pub valuation_of : AdjustArgs → Treatment → Stock → Valuation
valuation_of a treatment s =
    calculate_inventory_tax (or_default a.unit_cost s.average_unit_cost_excluding_vat)
      (common_tax_treatment treatment)
      (is_vat treatment && or_default a.vat_inclusive a.product_vat_inclusive)
      (is_vat treatment && a.vat_recoverable)

-- The weighted average of what is there and what comes in; no stock takes the new cost.
unfoldable pub weighted_cost : ℕ → ℕ → ℕ → ℕ → ℕ
unfolding round_half_up
weighted_cost before average quantity cost =
    let total = before + quantity in
    if total == 0
    then quantize_unit cost 1
    else quantize_unit (before * average + quantity * cost) total

-- Only a receipt with a cost of its own changes the carrying cost.
unfoldable pub revalued : AdjustArgs → Treatment → Valuation → Stock → Stock
unfolding weighted_cost
revalued a treatment v s = elim a.unit_cost [
  | none ↦ s
  | some _ ↦
      if ltb_ℤ (pos 0) a.quantity
      then (record s {
        average_unit_cost =
            weighted_cost s.current_stock s.average_unit_cost (pos_part a.quantity)
              v.capitalized_unit_cost;
        average_unit_cost_excluding_vat = v.unit_cost_excluding_vat;
        recoverable_vat_per_unit = v.recoverable_vat_per_unit;
        capitalized_vat_per_unit = v.capitalized_vat_per_unit;
        last_purchase_cost_excluding_vat = v.unit_cost_excluding_vat;
        last_purchase_cost = quantize_unit (v.unit_cost_excluding_vat + v.vat_per_unit) 1;
        last_tax_treatment = treatment;
        last_vat_percentage = percentage_of treatment;
      })
      else s
]

abbrev pub quantize_money_ℤ : ℤ → ℤ
quantize_money_ℤ = on_magnitude Tax.quantize_money

abbrev pub magnitude : ℤ → ℕ
magnitude q = pos_part q + neg_part q

unfoldable pub movement_of : AdjustArgs → Treatment → Valuation → ℕ → Stock → Movement
unfolding round_half_up ◌*ℤ◌
movement_of a treatment v before s = record {
  quantity = a.quantity;
  previous_stock = before;
  new_stock = s.current_stock;
  unit_cost_excluding_vat = v.unit_cost_excluding_vat;
  vat_treatment = treatment;
  vat_percentage = percentage_of treatment;
  recoverable_vat_amount = Tax.quantize_money (magnitude a.quantity * v.recoverable_vat_per_unit);
  non_recoverable_vat_amount =
      Tax.quantize_money (magnitude a.quantity * v.capitalized_vat_per_unit);
  capitalized_unit_cost = s.average_unit_cost;
  net_value_change = quantize_money_ℤ (a.quantity *ℤ pos s.average_unit_cost);
  gross_value_change =
      quantize_money_ℤ (a.quantity *ℤ pos (v.unit_cost_excluding_vat + v.vat_per_unit));
  running_stock_value = Tax.quantize_money (s.current_stock * s.average_unit_cost);
  is_vat_relevant = elim treatment [
    | Treatment.vat ↦ true
    | Treatment.zero_vat ↦ true
    | Treatment.non_vat ↦ false
  ];
}

-- Whether the branch is told of low stock.
abbrev pub is_low : Stock → Bool
is_low s = ltb (s.current_stock - s.reserved_stock) 10

-- The row, its movement, and whether the branch is told. Saving meets the row's check constraint
-- `reserved_stock_not_above_current_stock`.
unfoldable pub adjust_stock : AdjustArgs → Stock → Result StockError (Stock × Movement × Bool)
unfolding normalize_tax revalued movement_of
adjust_stock a s =
    let after = pos s.current_stock +ℤ a.quantity in
    do
      raise_if (not a.variant_belongs) variant_mismatch
      raise_if (eqb_ℤ a.quantity (pos 0)) zero_quantity
      raise_if (ltb_ℤ after (pos 0)) insufficient_stock
      raise_if (ltb_ℤ after (pos s.reserved_stock) && not a.allow_negative) insufficient_available
      treatment ← normalize_tax a.product_tax_treatment a.vat_treatment
      let v = valuation_of a treatment s
      let s' : Stock = record (revalued a treatment v s) {
        current_stock = pos_part after;
        reorder_level = a.product_reorder_level;
      }
      raise_if (ltb s'.current_stock s'.reserved_stock) integrity_error
      ok (s', movement_of a treatment v s.current_stock s', is_low s')
