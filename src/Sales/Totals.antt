-- ===== src/Sales/Totals.antt =====
-- The amounts and the treatment of a sales line (apps/sales/tax_stock_services.py).
use ghazatech_inventory_be.Prelude.{
  ℕ, suc, ◌+◌, ◌*◌, ◌≤◌, ◌≡◌, ◌↔◌, ◌⊎◌, Bool, true, false, if◌then◌else◌, Option, some, arith,
  Bool-cases, inl, inr, refl,
}
use ghazatech_inventory_be.Prelude.Int.{
  ℤ, pos, negsuc, pos_part, neg_part, sub_ℕ, ◌+ℤ◌, ◌≤ℤ◌, int_laws,
}
use ghazatech_inventory_be.Prelude.Decimal.{round_half_even}
use ghazatech_inventory_be.Prelude.Result.{ok}
use ghazatech_inventory_be.Sales.TaxLine.{
  Treatment, is_listed, is_vat, normalize_tax_treatment, quantized, line_gross,
  calculate_sales_line, validate_tax_treatment,
}

-- Two amounts that differ by one unit at most.
abbrev pub IsNear : ℤ → ℤ → Type 0
IsNear a b = (a ≤ℤ b +ℤ pos 1) × (b ≤ℤ a +ℤ pos 1)

-- An amount of cents that is half a cent away at most from one of ten-thousandths.
abbrev pub IsCents : ℤ → ℤ → Type 0
IsCents c g =
    (2 * (100 * pos_part c + neg_part g) ≤ 2 * (pos_part g + 100 * neg_part c) + 100)
    × (2 * (pos_part g + 100 * neg_part c) ≤ 2 * (100 * pos_part c + neg_part g) + 100)

quantized-zero : (g : ℤ) → quantized 0 100 g ≡ pos 0
unfolding quantized
quantized-zero (pos n) = ground arith
quantized-zero (negsuc n) = ground arith

half_cent :
    (n : ℕ)
    → (2 * (100 * round_half_even (1 * n) 100) ≤ 2 * n + 100)
      × (2 * n ≤ 2 * (100 * round_half_even (1 * n) 100) + 100)
unfolding round_half_even
half_cent n = (ground arith, ground arith)

quantized-IsCents : (g : ℤ) → IsCents (quantized 1 1 g) g
unfolding quantized
quantized-IsCents (pos n) = let (a, b) = half_cent n in (ground (arith, a), ground (arith, b))
quantized-IsCents (negsuc n) =
    let (a, b) = half_cent (suc n) in (ground (arith, a), ground (arith, b))

inclusive_near :
    (n : ℕ)
    → let parts = round_half_even (100 * n) 10500 + round_half_even (5 * n) 10500 in
      (parts ≤ round_half_even (1 * n) 100 + 1) × (round_half_even (1 * n) 100 ≤ parts + 1)
unfolding round_half_even
inclusive_near n = (ground arith, ground arith)

exclusive_near :
    (n : ℕ)
    → let parts = round_half_even (1 * n) 100 + round_half_even (5 * n) 10000 in
      (parts ≤ round_half_even (105 * n) 10000 + 1) × (round_half_even (105 * n) 10000 ≤ parts + 1)
unfolding round_half_even
exclusive_near n = (ground arith, ground arith)

IsNear-parts : (a b c : ℕ) → (a + b ≤ c + 1) × (c ≤ a + b + 1) → IsNear (pos a +ℤ pos b) (pos c)
IsNear-parts a b c (h, k) = (omega (int_laws, h, k), omega (int_laws, h, k))

opposite : (n : ℕ) → (pos_part (sub_ℕ 0 n) ≡ 0) × (neg_part (sub_ℕ 0 n) ≡ n)
opposite n = (ground arith, ground arith)

IsNear-opposites :
    (a b c : ℕ) → (a + b ≤ c + 1) × (c ≤ a + b + 1) → IsNear (sub_ℕ 0 a +ℤ sub_ℕ 0 b) (sub_ℕ 0 c)
IsNear-opposites a b c (h, k) =
    let (a0, a1) = opposite a in
    let (b0, b1) = opposite b in
    let (c0, c1) = opposite c in near (sub_ℕ 0 a) (sub_ℕ 0 b) (sub_ℕ 0 c) a0 a1 b0 b1 c0 c1
  where
    near :
        (x y z : ℤ)
        → pos_part x ≡ 0
        → neg_part x ≡ a
        → pos_part y ≡ 0
        → neg_part y ≡ b
        → pos_part z ≡ 0
        → neg_part z ≡ c
        → IsNear (x +ℤ y) z
    near x y z x0 x1 y0 y1 z0 z1 = (
      omega (int_laws, h, k, x0, x1, y0, y1, z0, z1),
      omega (int_laws, h, k, x0, x1, y0, y1, z0, z1),
    )

inclusive-IsNear : (g : ℤ) → IsNear (quantized 100 105 g +ℤ quantized 5 105 g) (quantized 1 1 g)
unfolding quantized
inclusive-IsNear (pos n) = IsNear-parts _ _ _ (inclusive_near n)
inclusive-IsNear (negsuc n) = IsNear-opposites _ _ _ (inclusive_near (suc n))

exclusive-IsNear : (g : ℤ) → IsNear (quantized 1 1 g +ℤ quantized 5 100 g) (quantized 105 100 g)
unfolding quantized
exclusive-IsNear (pos n) = IsNear-parts _ _ _ (exclusive_near n)
exclusive-IsNear (negsuc n) = IsNear-opposites _ _ _ (exclusive_near (suc n))

untaxed-IsNear : (a : ℤ) → IsNear (a +ℤ pos 0) a
untaxed-IsNear a = (omega int_laws, omega int_laws)

-- A tax that is five percent of the taxable amount, up to the roundings of both.
abbrev pub IsFivePercent : ℤ → ℤ → Type 0
IsFivePercent tax taxable =
    (20 * pos_part tax + neg_part taxable ≤ pos_part taxable + 20 * neg_part tax + 10)
    × (pos_part taxable + 20 * neg_part tax ≤ 20 * pos_part tax + neg_part taxable + 10)

inclusive_rate :
    (n : ℕ)
    → (20 * round_half_even (5 * n) 10500 ≤ round_half_even (100 * n) 10500 + 10)
      × (round_half_even (100 * n) 10500 ≤ 20 * round_half_even (5 * n) 10500 + 10)
unfolding round_half_even
inclusive_rate n = (ground arith, ground arith)

exclusive_rate :
    (n : ℕ)
    → (20 * round_half_even (5 * n) 10000 ≤ round_half_even (1 * n) 100 + 10)
      × (round_half_even (1 * n) 100 ≤ 20 * round_half_even (5 * n) 10000 + 10)
unfolding round_half_even
exclusive_rate n = (ground arith, ground arith)

IsFivePercent-parts :
    (x y : ℕ)
    → (20 * x ≤ y + 10) × (y ≤ 20 * x + 10)
    → IsFivePercent (pos x) (pos y) × IsFivePercent (sub_ℕ 0 x) (sub_ℕ 0 y)
IsFivePercent-parts x y (h, k) =
    let (x0, x1) = opposite x in
    let (y0, y1) = opposite y in
    (
      (omega (arith, h), omega (arith, k)),
      (rw (x0, x1, y0, y1) (omega (arith, k)), rw (x0, x1, y0, y1) (omega (arith, h))),
    )

inclusive-IsFivePercent : (g : ℤ) → IsFivePercent (quantized 5 105 g) (quantized 100 105 g)
unfolding quantized
inclusive-IsFivePercent (pos n) = (IsFivePercent-parts _ _ (inclusive_rate n)).0
inclusive-IsFivePercent (negsuc n) = (IsFivePercent-parts _ _ (inclusive_rate (suc n))).1

exclusive-IsFivePercent : (g : ℤ) → IsFivePercent (quantized 5 100 g) (quantized 1 1 g)
unfolding quantized
exclusive-IsFivePercent (pos n) = (IsFivePercent-parts _ _ (exclusive_rate n)).0
exclusive-IsFivePercent (negsuc n) = (IsFivePercent-parts _ _ (exclusive_rate (suc n))).1

-- On every branch the taxable amount and the tax, each rounded by itself, differ from the rounded
-- total by one cent at most; the total where tax is included, and else the taxable amount, is within
-- half a cent of the gross; the tax of a VAT sale is five percent of its taxable amount up to the
-- roundings of both; and a sale that is not VAT bears no tax and its total is its taxable amount.
pub calculate_sales_line-total :
    (quantity unit_price discount : ℤ) (tax_treatment : Option Treatment) (tax_inclusive : Bool)
    → let l = calculate_sales_line quantity unit_price discount tax_treatment tax_inclusive in
      let gross = line_gross quantity unit_price discount in
      let rated = is_vat (normalize_tax_treatment tax_treatment) in
      IsNear (l.taxable_amount +ℤ l.tax_amount) l.line_total
      × IsCents (if tax_inclusive then l.line_total else l.taxable_amount) gross
      × (((rated ≡ true) × IsFivePercent l.tax_amount l.taxable_amount)
          ⊎ ((rated ≡ false) × (l.tax_amount ≡ pos 0) × (l.line_total ≡ l.taxable_amount)))
unfolding calculate_sales_line
calculate_sales_line-total q p d t inclusive =
    let g = line_gross q p d in
    let near = untaxed-IsNear (quantized 1 1 g) in
    elim (Bool-cases (is_vat (normalize_tax_treatment t))) [
      | inl rated ↦ elim (Bool-cases inclusive) [
        | inl included ↦
            rw (rated, included)
              (inclusive-IsNear g, quantized-IsCents g, inl (refl, inclusive-IsFivePercent g))
        | inr added ↦
            rw (rated, added)
              (exclusive-IsNear g, quantized-IsCents g, inl (refl, exclusive-IsFivePercent g))
      ]
      | inr unrated ↦ elim (Bool-cases inclusive) [
        | inl included ↦
            rw (unrated, included, quantized-zero g)
              (near, quantized-IsCents g, inr (refl, refl, refl))
        | inr added ↦
            rw (unrated, added, quantized-zero g)
              (near, quantized-IsCents g, inr (refl, refl, refl))
      ]
    ]

abbrev pub IsNormal : Treatment → Type 0
IsNormal t = (t ≡ Treatment.vat) ⊎ (t ≡ Treatment.zero_vat) ⊎ (t ≡ Treatment.non_vat)

-- A treatment passes validation exactly when it is listed and either is standard VAT or comes with
-- the permission and a reason; a listed one becomes VAT, ZERO_VAT or NON_VAT.
pub validate_tax_treatment_iff :
    (permitted : Bool) (t : Treatment) (reason : Bool)
    → ((validate_tax_treatment permitted (some t) reason ≡ ok (normalize_tax_treatment (some t)))
        ↔ ((is_listed t ≡ true)
            × ((is_vat (normalize_tax_treatment (some t)) ≡ true)
                ⊎ ((permitted ≡ true) × (reason ≡ true)))))
      × ((is_listed t ≡ false) ⊎ IsNormal (normalize_tax_treatment (some t)))
unfolding validate_tax_treatment
validate_tax_treatment_iff permitted Treatment.vat reason = ground arith
validate_tax_treatment_iff permitted _ reason = ground arith
