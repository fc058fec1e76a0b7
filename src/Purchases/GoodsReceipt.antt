-- ===== src/Purchases/GoodsReceipt.antt =====
-- `confirm_grn` of apps/purchases/services.py, with the rows of apps/purchases/models.py that it reads
-- and writes. The mirroring of catalogue rows in the branch's database (`Catalog`) is a parameter. Unit
-- prices are numbers of cents; the audit record, texts and dates are left out.
use ghazatech_inventory_be.Prelude.{
  ℕ, ◌+◌, ◌-◌, ◌*◌, Bool, true, false, not, ◌&&◌, Option, none, some, List, [], ◌∷◌, ltb, leb, ◌==◌,
  if◌then◌else◌, find, any, all, option_eq, smaller, is_empty,
}
use ghazatech_inventory_be.Prelude.Int.{pos}
use ghazatech_inventory_be.Prelude.Result.{Result, ok, ◌>>=◌}
use ghazatech_inventory_be.Inventory.Adjust.{AdjustArgs, StockError, TreatmentText}
use ghazatech_inventory_be.Inventory.Shelf.{Shelf, adjust_at}
use ghazatech_inventory_be.Transfer.Store.{StockKey}

pub data OrderStatus : Type 0 where
  draft pending_approval approved partially_received received cancelled : OrderStatus

pub record PurchaseOrderItem : Type 0 where
  pub pk : ℕ
  pub product : ℕ
  pub variant : Option ℕ
  pub quantity : ℕ
  pub received_quantity : ℕ
  pub unit_price : ℕ
  pub tax_treatment : TreatmentText

pub record PurchaseOrder : Type 0 where
  pub status : OrderStatus
  pub items : List PurchaseOrderItem

pub data GrnStatus : Type 0 where
  draft confirmed cancelled : GrnStatus

pub record GoodsReceivedItem : Type 0 where
  pub product : ℕ
  pub variant : Option ℕ
  pub received_quantity : ℕ
  pub damaged_quantity : ℕ
  pub accepted_quantity : ℕ
  pub rejected_quantity : ℕ

pub record GoodsReceivedNote : Type 0 where
  pub branch : ℕ
  pub warehouse_location : ℕ
  pub status : GrnStatus
  pub is_confirmed : Bool
  pub items : List GoodsReceivedItem

-- A row of the branch's own catalogue.
pub record CatalogProduct : Type 0 where
  pub pk : ℕ
  pub tax_treatment : Option TreatmentText
  pub vat_inclusive : Bool
  pub reorder_level : ℕ

-- `ensure_product_catalog_in_database` and `resolve_variant_in_physical_database`, and the treatment
-- of a shared product.
pub record Catalog : Type 0 where
  pub product : ℕ → CatalogProduct
  pub variant : Option ℕ → ℕ → Option ℕ
  pub shared_treatment : ℕ → Option TreatmentText

-- What one confirmation reads and writes.
pub record Receiving : Type 0 where
  pub grn : GoodsReceivedNote
  pub order : PurchaseOrder
  pub shelf : Shelf

-- `max(0, received - damaged - rejected)` where nothing is accepted.
abbrev pub quantity_of : GoodsReceivedItem → ℕ
quantity_of i =
    if ltb 0 i.accepted_quantity
    then i.accepted_quantity
    else i.received_quantity - i.damaged_quantity - i.rejected_quantity

abbrev pub is_item_of : GoodsReceivedItem → PurchaseOrderItem → Bool
is_item_of i p = (p.product == i.product) && option_eq p.variant i.variant

abbrev price_of : Option PurchaseOrderItem → Option ℕ
price_of none = none
price_of (some p) = some (p.unit_price * 100)

abbrev treatment_of : Catalog → ℕ → Option PurchaseOrderItem → Option TreatmentText
treatment_of catalog product none = catalog.shared_treatment product
treatment_of catalog product (some p) = some p.tax_treatment

abbrev pub key_of : Catalog → GoodsReceivedNote → GoodsReceivedItem → StockKey
key_of catalog grn i = record {
  branch_id = grn.branch;
  product_id = (catalog.product i.product).pk;
  variant_id = catalog.variant i.variant (catalog.product i.product).pk;
  warehouse = grn.warehouse_location;
}

-- The call of `adjust_stock`; a variant that is resolved belongs to its product.
abbrev pub adjust_args : Catalog → GoodsReceivedItem → Option PurchaseOrderItem → AdjustArgs
adjust_args catalog i line =
    let local = catalog.product i.product in
    record {
      variant_belongs = true;
      quantity = pos (quantity_of i);
      allow_negative = false;
      unit_cost = price_of line;
      vat_treatment = treatment_of catalog i.product line;
      vat_inclusive = some false;
      vat_recoverable = true;
      product_tax_treatment = local.tax_treatment;
      product_vat_inclusive = local.vat_inclusive;
      product_reorder_level = local.reorder_level;
    }

abbrev pub with_received : ℕ → PurchaseOrderItem → PurchaseOrderItem
with_received n p = record p { received_quantity = smaller p.quantity (p.received_quantity + n) }

-- The first line of the order with the product and the variant takes the quantity.
unfoldable pub receive_line : GoodsReceivedItem → List PurchaseOrderItem → List PurchaseOrderItem
receive_line i [] = []
receive_line i (p ∷ items) =
    let rest = receive_line i items in
    if is_item_of i p then with_received (quantity_of i) p ∷ items else p ∷ rest

abbrev pub stock_item :
    Catalog
    → GoodsReceivedNote
    → List PurchaseOrderItem
    → GoodsReceivedItem
    → Shelf
    → Result StockError Shelf
stock_item catalog grn items i shelf =
    if ltb 0 (quantity_of i)
    then adjust_at (key_of catalog grn i) (adjust_args catalog i (find (is_item_of i) items)) shelf
    else ok shelf

-- The loop over the items.
unfoldable pub receive_items :
    Catalog
    → GoodsReceivedNote
    → List GoodsReceivedItem
    → List PurchaseOrderItem
    → Shelf
    → Result StockError (List PurchaseOrderItem × Shelf)
unfolding receive_line
receive_items catalog grn [] items shelf = ok (items, shelf)
receive_items catalog grn (i ∷ rest) items shelf =
    stock_item catalog grn items i shelf >>= λ shelf'.
    receive_items catalog grn rest (receive_line i items) shelf'

abbrev pub is_complete : PurchaseOrderItem → Bool
is_complete p = leb p.quantity p.received_quantity

abbrev pub is_started : PurchaseOrderItem → Bool
is_started p = ltb 0 p.received_quantity

abbrev pub order_status : OrderStatus → List PurchaseOrderItem → OrderStatus
order_status status items =
    if not (is_empty items) && all is_complete items
    then OrderStatus.received
    else if any is_started items
    then OrderStatus.partially_received
    else status

unfoldable pub confirm_grn : Catalog → Receiving → Result StockError Receiving
unfolding receive_items
confirm_grn catalog r = if r.grn.is_confirmed then ok r else (do
  (items, shelf) ← receive_items catalog r.grn r.grn.items r.order.items r.shelf
  ok (record {
    grn = record r.grn { is_confirmed = true; status = GrnStatus.confirmed };
    order = record { status = order_status r.order.status items; items = items };
    shelf = shelf;
  }))
