-- ===== src/Tests/TransferData.antt =====
-- A transfer of four pieces from branch 1 to branch 2 (apps/transfers).
use ghazatech_inventory_be.Prelude.{ℕ, Bool, true, false, none, some, [], ◌∷◌, ◌==◌, if◌then◌else◌}
use ghazatech_inventory_be.Prelude.Int.{pos, negsuc, ◌+ℤ◌, ◌-ℤ◌, ◌*ℤ◌}
use ghazatech_inventory_be.Prelude.Result.{Result, ok, err}
use ghazatech_inventory_be.Transfer.Store.{
  TaxMode, Product, StockKey, ProductStock, TenantDb, transfer_out, xfer, outward,
}
use ghazatech_inventory_be.Transfer.Move.{MoveArgs, move, stock_or_new, moved_stock, movement_of}
use ghazatech_inventory_be.Transfer.World.{
  Branch, approved, pending, StockTransferItem, Tenants, World, alias_of,
}
use ghazatech_inventory_be.Transfer.Dispatch.{
  dispatch_item, dispatch_tenant, dispatch, eligible_warehouse,
}
use ghazatech_inventory_be.Transfer.Receive.{receive_item, receive_tenant, receive}
use ghazatech_inventory_be.Transfer.Views.{
  User, cancel_transfer, dispatch_transfer, receive_transfer, is_physical_branch, is_admin_user,
  require_physical_branch,
}

abbrev pub result_or {ℓ κ} : {E : Type ℓ} {A : Type κ} → Result E A → A → A
result_or (ok a) d = a
result_or (err _) d = d

abbrev pub drill : Product
drill = record {
  pk = 1;
  branch_id = 1;
  sku = 7;
  barcode = 0;
  brand_id = 1;
  category_id = 2;
  details = 5;
  product_image = 0;
  tax_treatment = TaxMode.vat;
  vat_inclusive = false;
  vat_rate = 5;
  reorder_level = 2;
  is_active = true;
  is_deleted = false;
}

abbrev pub drill_key : StockKey
drill_key = record { branch_id = 1; product_id = 1; variant_id = none; warehouse = 0 }

-- Ten pieces, of which three are reserved.
abbrev drill_stock : ProductStock
drill_stock = record {
  key = drill_key;
  current_stock = 10;
  reserved_stock = 3;
  reorder_level = 2;
  average_unit_cost = 20_000;
  average_unit_cost_excluding_vat = 20_000;
  last_purchase_cost_excluding_vat = 20_000;
  last_purchase_cost = 20_000;
  last_tax_treatment = TaxMode.non_vat;
  last_vat_percentage = 0;
}

abbrev pub source_db : TenantDb
source_db = record {
  products = drill ∷ [];
  variants = [];
  brands = record { pk = 1; name = 11 } ∷ [];
  categories = record { pk = 2; name = 22 } ∷ [];
  stocks = drill_stock ∷ [];
  movements = [];
  next_pk = 3;
}

abbrev pub empty_db : TenantDb
empty_db = record {
  products = [];
  variants = [];
  brands = [];
  categories = [];
  stocks = [];
  movements = [];
  next_pk = 1;
}

abbrev pub issue : MoveArgs
issue = record {
  branch_id = 1;
  product = drill;
  variant = none;
  quantity = negsuc 3;
  movement_type = transfer_out;
  warehouse = 0;
  key = xfer 1 1 outward;
  transfer_number = 100;
  unit_cost = 20_000;
  actor_id = 9;
}

abbrev branch : ℕ → TaxMode → Branch
branch pk mode = record { pk = pk; tax_mode = some mode; is_active = true; is_consolidated = false }

abbrev pub item : StockTransferItem
item = record {
  pk = 1;
  product_id = none;
  variant_id = none;
  source_product_id = some 1;
  source_variant_id = none;
  requested_quantity = 4;
  dispatched_quantity = 0;
  received_quantity = 0;
  transfer_unit_cost = 20_000;
  source_value = 800;
  destination_value = 0;
  value_difference = pos 0;
}

abbrev pub start : World
start = record {
  transfer = record {
    pk = 1;
    transfer_number = 100;
    from_branch = branch 1 TaxMode.vat;
    to_branch = branch 2 TaxMode.non_vat;
    status = approved;
    approved_by = some 9;
    dispatched_by = none;
    received_by = none;
    source_stock_value = 800;
    destination_stock_value = 0;
    value_difference = pos 0;
    reconciliation_status = pending;
  };
  items = item ∷ [];
  tenants = λ a. if a.branch_id == 1 then source_db else empty_db;
}

abbrev pub no_files : ℕ → Bool
no_files _ = false

abbrev pub admin : User
admin = record { pk = 9; is_authenticated = true; is_superuser = true; has_admin_role = false }

-- The tenant after the issue, and the states after the dispatch and the receipt.
abbrev pub issued_db : TenantDb
unfolding move
issued_db = result_or (move issue source_db) source_db

abbrev pub sent_tenants : Tenants
unfolding dispatch_tenant
sent_tenants = result_or (dispatch_tenant 9 start) start.tenants

abbrev pub sent : World
unfolding dispatch
sent = result_or (dispatch 9 start) start

abbrev pub delivered : World
unfolding dispatch receive
delivered = result_or (receive no_files 9 sent) sent

-- Opens what a run of a transfer computes with.
unfoldable pub running : Unit {0}
unfolding move stock_or_new moved_stock movement_of alias_of eligible_warehouse dispatch_item
    dispatch_tenant dispatch receive_item receive_tenant receive ◌+ℤ◌ ◌-ℤ◌ ◌*ℤ◌ cancel_transfer
    dispatch_transfer receive_transfer is_physical_branch is_admin_user require_physical_branch
running = tt
