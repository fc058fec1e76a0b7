-- ===== src/Transfer/Dispatch.antt =====
-- `_ensure_source` and `dispatch` of apps/transfers/services.py.
use ghazatech_inventory_be.Prelude.{
  ℕ, Bool, true, false, not, ◌&&◌, Option, none, some, List, [], ◌∷◌, map, leb, ◌==◌, if◌then◌else◌,
  find, select, option_eq, is_empty,
}
use ghazatech_inventory_be.Prelude.Int.{pos, neg}
use ghazatech_inventory_be.Prelude.Result.{Result, ok, err, raise_if, or_raise, ◌>>◌, ◌>>=◌}
use ghazatech_inventory_be.Transfer.Store.{
  Product, Variant, ProductStock, available_stock, Direction, outward, Reference, xfer,
  transfer_out, StockMovement, TenantDb, matching,
}
use ghazatech_inventory_be.Transfer.Move.{
  TransferError, bad_status, no_items, source_unavailable, variant_not_found, quantity_not_positive,
  insufficient_single_warehouse, dispatch_movement_missing, stock_variant, MoveArgs, move,
}
use ghazatech_inventory_be.Transfer.World.{
  Status, in_transit, StockTransfer, StockTransferItem, alias_of, Tenants, update, World,
}

-- Python's `or` on numbers: 0 and None give way.
abbrev pub or_ℕ : ℕ → ℕ → ℕ
or_ℕ a b = if a == 0 then b else a

abbrev pub or_option : Option ℕ → Option ℕ → Option ℕ
or_option none b = b
or_option (some a) b = if a == 0 then b else some a

abbrev is_pk : Option ℕ → ℕ → Bool
is_pk none k = false
is_pk (some a) k = a == k

abbrev source_product : StockTransfer → StockTransferItem → List Product → Option Product
source_product t item products =
    find
      (λ p.
        is_pk (or_option item.source_product_id item.product_id) p.pk
        && (p.branch_id == t.from_branch.pk)
        && p.is_active
        && not p.is_deleted)
      products

abbrev source_variant : Option ℕ → Product → List Variant → Result TransferError (Option Variant)
source_variant none product variants = ok none
source_variant (some vpk) product variants = if vpk == 0 then ok none else (do
  v ←
      or_raise (find (λ v. (v.pk == vpk) && (v.product_id == product.pk)) variants)
        variant_not_found
  ok (some v))

unfoldable pub ensure_source :
    StockTransfer → StockTransferItem → TenantDb → Result TransferError (Product × Option Variant)
ensure_source t item db = do
  product ← or_raise (source_product t item db.products) source_unavailable
  variant ← source_variant (or_option item.source_variant_id item.variant_id) product db.variants
  ok (product, variant)

abbrev pub item_key : StockTransfer → StockTransferItem → Direction → Reference
item_key t item direction = xfer t.pk item.pk direction

-- `int(item.dispatched_quantity or item.requested_quantity or 0)`
abbrev pub quantity_of : StockTransferItem → ℕ
quantity_of item = or_ℕ item.dispatched_quantity item.requested_quantity

-- The rows of the product in the source branch, by warehouse, from which one is taken that has enough.
abbrev is_row : StockTransfer → Product → Option Variant → ProductStock → Bool
is_row t product variant s =
    (s.key.branch_id == t.from_branch.pk)
    && (s.key.product_id == product.pk)
    && option_eq s.key.variant_id (stock_variant variant)

abbrev earlier : ℕ → Option ℕ → Option ℕ
earlier w none = some w
earlier w (some v) = if leb w v then some w else some v

pub first_warehouse : List ProductStock → Option ℕ
first_warehouse [] = none
first_warehouse (s ∷ rows) = earlier s.key.warehouse (first_warehouse rows)

unfoldable pub eligible_warehouse :
    StockTransfer → Product → Option Variant → ℕ → TenantDb → Option ℕ
unfolding first_warehouse
eligible_warehouse t product variant qty db =
    first_warehouse
      (select (λ s. leb qty (available_stock s)) (select (is_row t product variant) db.stocks))

-- `.get(…)` wants exactly one row.
abbrev pub recorded_warehouse : List StockMovement → Result TransferError ℕ
recorded_warehouse (m ∷ []) = ok m.key.warehouse
recorded_warehouse _ = err dispatch_movement_missing

-- The warehouse to take from: an eligible one, or that of an earlier dispatch of the item.
abbrev pub choose_warehouse : Option ℕ → List StockMovement → Result TransferError ℕ
choose_warehouse (some w) _ = ok w
choose_warehouse none [] = err insufficient_single_warehouse
choose_warehouse none (m ∷ ms) = recorded_warehouse (m ∷ ms)

abbrev pub dispatch_args :
    StockTransfer → ℕ → StockTransferItem → Product → Option Variant → ℕ → MoveArgs
dispatch_args t user item source variant warehouse = record {
  branch_id = t.from_branch.pk;
  product = source;
  variant = variant;
  quantity = neg (pos (quantity_of item));
  movement_type = transfer_out;
  warehouse = warehouse;
  key = item_key t item outward;
  transfer_number = t.transfer_number;
  unit_cost = item.transfer_unit_cost;
  actor_id = user;
}

-- One round of the loop over the items, in the transaction of the source tenant.
unfoldable pub dispatch_item :
    StockTransfer → ℕ → StockTransferItem → TenantDb → Result TransferError TenantDb
unfolding ensure_source
dispatch_item t user item db = do
  (source, variant) ← ensure_source t item db
  raise_if (quantity_of item == 0) quantity_not_positive
  warehouse ←
      choose_warehouse (eligible_warehouse t source variant (quantity_of item) db)
        (matching (item_key t item outward) transfer_out db)
  move (dispatch_args t user item source variant warehouse) db

unfoldable pub dispatch_items :
    StockTransfer → ℕ → List StockTransferItem → TenantDb → Result TransferError TenantDb
dispatch_items t user [] db = ok db
dispatch_items t user (item ∷ items) db =
    dispatch_item t user item db >>= dispatch_items t user items

abbrev pub can_dispatch : Status → Bool
can_dispatch Status.approved = true
can_dispatch Status.in_transit = true
can_dispatch _ = false

-- The part of `dispatch` that the source tenant's transaction commits.
unfoldable pub dispatch_tenant : ℕ → World → Result TransferError Tenants
unfolding dispatch_items
dispatch_tenant user w = do
  raise_if (not (can_dispatch w.transfer.status)) bad_status
  alias ← alias_of w.transfer.from_branch
  raise_if (is_empty w.items) no_items
  db ← dispatch_items w.transfer user w.items (w.tenants alias)
  ok (update w.tenants alias db)

abbrev pub dispatched_item : StockTransferItem → StockTransferItem
dispatched_item item = record item { dispatched_quantity = quantity_of item }

unfoldable pub dispatch : ℕ → World → Result TransferError World
unfolding dispatch_tenant
dispatch user w = do
  tenants ← dispatch_tenant user w
  ok (record {
    transfer = record w.transfer { status = in_transit; dispatched_by = some user };
    items = map dispatched_item w.items;
    tenants = tenants;
  })
