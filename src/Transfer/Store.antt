-- ===== src/Transfer/Store.antt =====
-- The tables of one tenant database that a transfer reads and writes (apps/inventory/models.py).
-- Names that the code only compares (a SKU without case, a warehouse, a barcode, an image) are
-- numbers, 0 being the empty one; dates are left out. Costs are numbers of ten-thousandths.
use ghazatech_inventory_be.Prelude.{
  ℕ, ◌-◌, Bool, true, false, ◌&&◌, Option, List, ◌==◌, option_eq, find, select,
}
use ghazatech_inventory_be.Prelude.Int.{ℤ}

pub data TaxMode : Type 0 where
  vat non_vat : TaxMode

-- The fields of `Product` that transfers use. `details` stands for the descriptive columns that are
-- copied together (name, models, condition, unit, description, warranty, has_variants).
pub record Product : Type 0 where
  pub pk : ℕ
  pub branch_id : ℕ
  pub sku : ℕ
  pub barcode : ℕ
  pub brand_id : ℕ
  pub category_id : ℕ
  pub details : ℕ
  pub product_image : ℕ
  pub tax_treatment : TaxMode
  pub vat_inclusive : Bool
  pub vat_rate : ℕ
  pub reorder_level : ℕ
  pub is_active : Bool
  pub is_deleted : Bool

pub record Variant : Type 0 where
  pub pk : ℕ
  pub product_id : ℕ
  pub attributes : ℕ
  pub prices : ℕ
  pub is_base : Bool
  pub is_active : Bool

-- A `Brand` or a `Category`.
pub record Named : Type 0 where
  pub pk : ℕ
  pub name : ℕ

-- What the two unique constraints of `ProductStock` make a key of.
pub record StockKey : Type 0 where
  pub branch_id : ℕ
  pub product_id : ℕ
  pub variant_id : Option ℕ
  pub warehouse : ℕ

pub record ProductStock : Type 0 where
  pub key : StockKey
  pub current_stock : ℕ
  pub reserved_stock : ℕ
  pub reorder_level : ℕ
  pub average_unit_cost : ℕ
  pub average_unit_cost_excluding_vat : ℕ
  pub last_purchase_cost_excluding_vat : ℕ
  pub last_purchase_cost : ℕ
  pub last_tax_treatment : TaxMode
  pub last_vat_percentage : ℕ

-- The property `available_stock`: `max(0, current - reserved)`.
abbrev pub available_stock : ProductStock → ℕ
available_stock s = s.current_stock - s.reserved_stock

pub data Direction : Type 0 where
  outward inward : Direction

-- `reference_type` with `reference_id`: `_key` prints a transfer, an item and a direction, with
-- colons between, so equal texts come from equal parts; other references are numbered.
pub data Reference : Type 0 where
  xfer : ℕ → ℕ → Direction → Reference
  other : ℕ → Reference

pub data MovementType : Type 0 where
  transfer_out transfer_in other_movement : MovementType

pub record StockMovement : Type 0 where
  pub key : StockKey
  pub movement_type : MovementType
  pub quantity : ℤ
  pub quantity_before : ℕ
  pub quantity_after : ℕ
  pub reference : Reference
  pub transfer_number : ℕ
  pub actor_id : ℕ
  pub unit_cost_excluding_vat : ℕ
  pub net_value_change : ℤ
  pub running_stock_value : ℕ

-- `movements` is in the order of `Meta.ordering`, newest first. `next_pk` stands for the sequences
-- that number new rows.
pub record TenantDb : Type 0 where
  pub products : List Product
  pub variants : List Variant
  pub brands : List Named
  pub categories : List Named
  pub stocks : List ProductStock
  pub movements : List StockMovement
  pub next_pk : ℕ

abbrev pub key_eq : StockKey → StockKey → Bool
key_eq a b =
    (a.branch_id == b.branch_id)
    && (a.product_id == b.product_id)
    && option_eq a.variant_id b.variant_id
    && (a.warehouse == b.warehouse)

abbrev pub direction_eq : Direction → Direction → Bool
direction_eq outward outward = true
direction_eq inward inward = true
direction_eq outward inward = false
direction_eq inward outward = false

abbrev pub reference_eq : Reference → Reference → Bool
reference_eq (xfer t i d) (xfer u j e) = (t == u) && (i == j) && direction_eq d e
reference_eq (other m) (other n) = m == n
reference_eq (xfer _ _ _) (other _) = false
reference_eq (other _) (xfer _ _ _) = false

abbrev pub movement_type_eq : MovementType → MovementType → Bool
movement_type_eq transfer_out transfer_out = true
movement_type_eq transfer_in transfer_in = true
movement_type_eq other_movement other_movement = true
movement_type_eq _ _ = false

-- `.filter(reference_type="Transfer", reference_id=key, movement_type=movement_type)`
abbrev pub is_movement : Reference → MovementType → StockMovement → Bool
is_movement r t m = reference_eq r m.reference && movement_type_eq t m.movement_type

abbrev pub matching : Reference → MovementType → TenantDb → List StockMovement
matching r t db = select (is_movement r t) db.movements

abbrev pub has_key : StockKey → ProductStock → Bool
has_key k s = key_eq k s.key

abbrev pub find_stock : StockKey → TenantDb → Option ProductStock
find_stock k db = find (has_key k) db.stocks
