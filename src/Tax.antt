-- ===== src/Tax.antt =====
-- apps/common/tax.py: the VAT split of a unit cost. Unit costs are numbers of ten-thousandths
-- (`FOUR_DP`), which is what the cost columns hold; they are not negative.
pub mod Split
use ghazatech_inventory_be.Prelude.{ℕ, ◌+◌, ◌-◌, ◌*◌, Bool, true, false, if◌then◌else◌}
use ghazatech_inventory_be.Prelude.Decimal.{round_half_up}

-- `TAX_TREATMENTS`
pub data TaxTreatment : Type 0 where
  standard_vat zero_rated exempt out_of_scope reverse_charge : TaxTreatment

-- The treatments of the set literal in `calculate_inventory_tax`.
abbrev pub is_rated : TaxTreatment → Bool
is_rated TaxTreatment.standard_vat = true
is_rated TaxTreatment.reverse_charge = true
is_rated TaxTreatment.zero_rated = false
is_rated TaxTreatment.exempt = false
is_rated TaxTreatment.out_of_scope = false

-- `DEFAULT_VAT_PERCENTAGE`, in whole percent.
abbrev pub default_vat_percentage : ℕ
default_vat_percentage = 5

-- `quantize_unit` of a quotient of numbers of ten-thousandths.
abbrev pub quantize_unit : ℕ → ℕ → ℕ
quantize_unit n d = round_half_up n d

-- `quantize_money` takes ten-thousandths to hundredths.
abbrev pub quantize_money : ℕ → ℕ
quantize_money n = round_half_up n 100

-- The dictionary that `calculate_inventory_tax` returns.
pub record Valuation : Type 0 where
  pub unit_cost_excluding_vat : ℕ
  pub vat_per_unit : ℕ
  pub recoverable_vat_per_unit : ℕ
  pub capitalized_vat_per_unit : ℕ
  pub capitalized_unit_cost : ℕ

-- The part of the function below the early return, on `base` and `vat` as multiples of 1 / d.
abbrev pub split_vat : ℕ → ℕ → ℕ → Bool → Valuation
split_vat base vat d recoverable = record {
  unit_cost_excluding_vat = quantize_unit base d;
  vat_per_unit = quantize_unit vat d;
  recoverable_vat_per_unit = quantize_unit (if recoverable then vat else 0) d;
  capitalized_vat_per_unit = quantize_unit (if recoverable then 0 else vat) d;
  capitalized_unit_cost = quantize_unit (base + (if recoverable then 0 else vat)) d;
}

-- With the rate r = 5 an inclusive cost c holds the base c / (1 + r / 100), which is 100 c / 105,
-- and the VAT c - base, which is 5 c / 105. An exclusive cost bears c * r / 100.
unfoldable pub calculate_inventory_tax : ℕ → TaxTreatment → Bool → Bool → Valuation
unfolding round_half_up
calculate_inventory_tax unit_cost tax_treatment vat_inclusive recoverable =
    let r = default_vat_percentage in
    if is_rated tax_treatment
    then (if vat_inclusive
        then split_vat (100 * unit_cost) ((100 + r) * unit_cost - 100 * unit_cost) (100 + r)
            recoverable
        else split_vat (100 * unit_cost) (r * unit_cost) 100 recoverable)
    else (record {
      unit_cost_excluding_vat = quantize_unit unit_cost 1;
      vat_per_unit = 0;
      recoverable_vat_per_unit = 0;
      capitalized_vat_per_unit = 0;
      capitalized_unit_cost = quantize_unit unit_cost 1;
    })
