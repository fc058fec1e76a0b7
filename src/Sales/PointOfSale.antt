-- ===== src/Sales/PointOfSale.antt =====
-- The stock of point-of-sale sales: `_deduct_stock` and `update` of `POSSaleSerializer`
-- (apps/sales/serializers.py), `deduct_sales_item` (apps/sales/tax_stock_services.py) and `void` of a
-- sale (apps/sales/views.py), over the table of stock rows. Quantities are hundredths. The audit record,
-- texts and dates are left out. A sale has neither a unit cost nor a warehouse of its own.
use ghazatech_inventory_be.Prelude.{
  ℕ, ◌/◌, Bool, true, false, Option, none, some, List, [], ◌∷◌, if◌then◌else◌,
}
use ghazatech_inventory_be.Prelude.Int.{pos, neg}
use ghazatech_inventory_be.Prelude.Result.{Result, ok, err, ◌>>=◌}
use ghazatech_inventory_be.Inventory.Adjust
use ghazatech_inventory_be.Inventory.Adjust.{AdjustArgs, StockError, TreatmentText}
use ghazatech_inventory_be.Inventory.Shelf.{Shelf, adjust_at}
use ghazatech_inventory_be.Transfer.Store.{StockKey}
use ghazatech_inventory_be.Sales.TaxLine
use ghazatech_inventory_be.Sales.TaxLine.{TaxError, validate_tax_treatment}

pub data SaleStatus : Type 0 where
  draft paid void : SaleStatus

-- A line of the sale, with the columns of its product that the stock service reads and whether a tax
-- reason is given.
pub record SaleItem : Type 0 where
  pub key : StockKey
  pub quantity : ℕ
  pub tax_treatment : Option TaxLine.Treatment
  pub has_reason : Bool
  pub variant_belongs : Bool
  pub product_tax_treatment : Option TreatmentText
  pub product_vat_inclusive : Bool
  pub product_reorder_level : ℕ

pub record Sale : Type 0 where
  pub status : SaleStatus
  pub items : List SaleItem

pub data SaleError : Type 0 where
  tax : TaxError → SaleError
  stock : StockError → SaleError

-- An error of a called function.
abbrev pub lift {ℓ κ ι} : {E : Type ℓ} {F : Type κ} {A : Type ι} → (E → F) → Result E A → Result F A
lift f (ok a) = ok a
lift f (err e) = err (f e)

-- `int(item.quantity)`
abbrev pub units : SaleItem → ℕ
units i = i.quantity / 100

-- The treatment that validation returns, as the stock service reads it.
abbrev stock_treatment : TaxLine.Treatment → TreatmentText
stock_treatment TaxLine.Treatment.vat = TreatmentText.valid Adjust.Treatment.vat
stock_treatment TaxLine.Treatment.zero_vat = TreatmentText.valid Adjust.Treatment.zero_vat
stock_treatment _ = TreatmentText.valid Adjust.Treatment.non_vat

abbrev pub sale_args : SaleItem → TaxLine.Treatment → AdjustArgs
sale_args i treatment = record {
  variant_belongs = i.variant_belongs;
  quantity = neg (pos (units i));
  allow_negative = false;
  unit_cost = none;
  vat_treatment = some (stock_treatment treatment);
  vat_inclusive = some false;
  vat_recoverable = false;
  product_tax_treatment = i.product_tax_treatment;
  product_vat_inclusive = i.product_vat_inclusive;
  product_reorder_level = i.product_reorder_level;
}

-- `deduct_sales_item`, with whether the cashier may sell without the standard tax
abbrev pub deduct_sales_item : Bool → SaleItem → Shelf → Result SaleError Shelf
deduct_sales_item permitted i shelf =
    lift SaleError.tax (validate_tax_treatment permitted i.tax_treatment i.has_reason)
    >>= λ treatment. lift SaleError.stock (adjust_at i.key (sale_args i treatment) shelf)

-- `_deduct_stock`
unfoldable pub deduct_stock : Bool → List SaleItem → Shelf → Result SaleError Shelf
deduct_stock permitted [] shelf = ok shelf
deduct_stock permitted (i ∷ items) shelf =
    deduct_sales_item permitted i shelf >>= λ shelf'. deduct_stock permitted items shelf'

abbrev pub void_args : SaleItem → AdjustArgs
void_args i = record {
  variant_belongs = i.variant_belongs;
  quantity = pos (units i);
  allow_negative = false;
  unit_cost = none;
  vat_treatment = none;
  vat_inclusive = none;
  vat_recoverable = true;
  product_tax_treatment = i.product_tax_treatment;
  product_vat_inclusive = i.product_vat_inclusive;
  product_reorder_level = i.product_reorder_level;
}

-- The loop of `void`.
unfoldable pub return_stock : List SaleItem → Shelf → Result SaleError Shelf
return_stock [] shelf = ok shelf
return_stock (i ∷ items) shelf =
    lift SaleError.stock (adjust_at i.key (void_args i) shelf) >>= λ shelf'.
    return_stock items shelf'

abbrev pub is_void : SaleStatus → Bool
is_void SaleStatus.void = true
is_void _ = false

-- The end of `create`: the sale is paid, and its stock is taken.
unfoldable pub complete_sale : Bool → List SaleItem → Shelf → Result SaleError (Sale × Shelf)
complete_sale permitted items shelf = deduct_stock permitted items shelf >>= λ shelf'.
    ok (record { status = SaleStatus.paid; items = items }, shelf')

-- `void`; a sale that is void is returned as it is.
unfoldable pub void_sale : Sale → Shelf → Result SaleError (Sale × Shelf)
void_sale sale shelf =
    let voided = return_stock sale.items shelf >>= λ shelf'.
    ok (record sale { status = SaleStatus.void }, shelf') in
    if is_void sale.status then ok (sale, shelf) else voided
