-- ===== src/Sales/TaxLine.antt =====
-- apps/sales/tax_stock_services.py: tax treatments of a sale and the amounts of a sales line.
-- Quantities are numbers of hundredths of a unit and amounts of cents, as their columns keep them; a
-- discount above the price makes an amount negative. A gross, which is not rounded, is a number of
-- ten-thousandths.
use ghazatech_inventory_be.Prelude.{
  ℕ, ◌*◌, Bool, true, false, not, ◌&&◌, Option, none, some, if◌then◌else◌,
}
use ghazatech_inventory_be.Prelude.Int.{ℤ, pos, ◌-ℤ◌, ◌*ℤ◌}
use ghazatech_inventory_be.Prelude.Decimal.{round_half_even, on_magnitude}
use ghazatech_inventory_be.Prelude.Result.{Result, ok, raise_if, ◌>>◌}

-- The text of a treatment, stripped and in capitals: a member of `TAX_TREATMENTS`, or any other.
pub data Treatment : Type 0 where
  vat zero_vat non_vat standard_vat zero_rated exempt out_of_scope reverse_charge : Treatment
  unlisted : ℕ → Treatment

-- `treatment in TAX_TREATMENTS`
abbrev pub is_listed : Treatment → Bool
is_listed (Treatment.unlisted _) = false
is_listed Treatment.vat = true
is_listed _ = true

-- `value or "VAT"`, and the legacy names.
unfoldable pub normalize_tax_treatment : Option Treatment → Treatment
normalize_tax_treatment none = Treatment.vat
normalize_tax_treatment (some Treatment.standard_vat) = Treatment.vat
normalize_tax_treatment (some Treatment.zero_rated) = Treatment.zero_vat
normalize_tax_treatment (some Treatment.exempt) = Treatment.non_vat
normalize_tax_treatment (some Treatment.out_of_scope) = Treatment.non_vat
normalize_tax_treatment (some Treatment.reverse_charge) = Treatment.non_vat
normalize_tax_treatment (some treatment) = treatment

abbrev pub is_vat : Treatment → Bool
is_vat Treatment.vat = true
is_vat _ = false

pub record SalesLine : Type 0 where
  pub taxable_amount : ℤ
  pub tax_amount : ℤ
  pub line_total : ℤ

-- `(gross * k / d).quantize(Decimal("0.01"))` of a gross in ten-thousandths, to cents.
unfoldable pub quantized : ℕ → ℕ → ℤ → ℤ
unfolding round_half_even
quantized k d = on_magnitude (λ n. round_half_even (k * n) (100 * d))

-- `quantity * unit_price - discount`, of hundredths of a unit, of cents and of cents.
unfoldable pub line_gross : ℤ → ℤ → ℤ → ℤ
line_gross quantity unit_price discount = quantity *ℤ unit_price -ℤ pos 100 *ℤ discount

-- An inclusive gross holds the taxable amount gross / (1 + 5 / 100) and the rest as tax, which is
-- gross - 100 gross / 105; the tax on an exclusive one is 5 / 100 of it, and its total is 105 / 100.
unfoldable pub calculate_sales_line : ℤ → ℤ → ℤ → Option Treatment → Bool → SalesLine
unfolding normalize_tax_treatment line_gross
calculate_sales_line quantity unit_price discount tax_treatment tax_inclusive =
    let gross = line_gross quantity unit_price discount in
    if is_vat (normalize_tax_treatment tax_treatment)
    then (if tax_inclusive
        then (record {
          taxable_amount = quantized 100 105 gross;
          tax_amount = quantized 5 105 gross;
          line_total = quantized 1 1 gross;
        })
        else (record {
          taxable_amount = quantized 1 1 gross;
          tax_amount = quantized 5 100 gross;
          line_total = quantized 105 100 gross;
        }))
    else (record {
      taxable_amount = quantized 1 1 gross;
      tax_amount = quantized 0 100 gross;
      line_total = quantized 1 1 gross;
    })

pub data TaxError : Type 0 where
  invalid_treatment : TaxError
  no_permission : TaxError
  reason_required : TaxError

-- `permitted` is `has_sensitive_permission(user, "create_non_standard_tax_sale")`, and `reason` says
-- whether the stripped reason is not empty.
unfoldable pub validate_tax_treatment : Bool → Option Treatment → Bool → Result TaxError Treatment
unfolding normalize_tax_treatment
validate_tax_treatment permitted tax_treatment reason =
    let treatment = elim tax_treatment as (λ _. Treatment) [ none ↦ Treatment.vat | some t ↦ t ] in
    let normalized = normalize_tax_treatment (some treatment) in
    let non_standard = not (is_vat normalized) in
    do
      raise_if (not (is_listed treatment)) invalid_treatment
      raise_if (non_standard && not permitted) no_permission
      raise_if (non_standard && not reason) reason_required
      ok normalized
