-- ===== src/Tests/AdjustmentRuns.antt =====
-- The theorem on tenant adjustments at three drills that are written off.
use ghazatech_inventory_be.Prelude.{◌*◌, ◌≤◌, ◌≡◌, refl, true, false, none, some, [], ◌∷◌, find}
use ghazatech_inventory_be.Prelude.Int.{pos, ◌+ℤ◌, ◌-ℤ◌}
use ghazatech_inventory_be.Inventory.Adjust.{Stock}
use ghazatech_inventory_be.Inventory.Shelf.{is_row, empty_stock, stock_or_new}
use ghazatech_inventory_be.Inventory.TenantAdjust.{
  AdjustmentType, AdjustmentRequest, TenantProduct, TenantTables, StockAdjustment,
  AdjustmentMovement, is_tenant_product, adjustment_key, signed_quantity, recorded,
  create_tenant_adjustment,
}
use ghazatech_inventory_be.Inventory.TenantAdjusted.{IsValue, create_tenant_adjustment-effect}
use ghazatech_inventory_be.Transfer.Store.{StockKey}
use ghazatech_inventory_be.Tests.TransferData.{result_or}

abbrev drill : TenantProduct
drill = record {
  pk = 1;
  branch = 2;
  is_active = true;
  is_deleted = false;
  has_variants = false;
  reorder_level = 4;
}

abbrev drill_key : StockKey
drill_key = record { branch_id = 2; product_id = 1; variant_id = none; warehouse = 0 }

-- Ten drills at 2.00, of which six are reserved.
abbrev ten_drills : Stock
ten_drills = record (empty_stock 4) {
  current_stock = 10;
  reserved_stock = 6;
  average_unit_cost = 20_000;
}

abbrev tables : TenantTables
tables = record {
  products = drill ∷ [];
  variants = [];
  rows = record { key = drill_key; stock = ten_drills } ∷ [];
  adjustments = [];
  movements = [];
  next_pk = 5;
}

abbrev write_off : AdjustmentRequest
write_off = record {
  product = 1;
  variant = none;
  adjustment_type = AdjustmentType.deduct;
  quantity = 3;
  reason_length = 7;
}

abbrev written_off : TenantTables
written_off = result_or (create_tenant_adjustment 2 write_off tables) tables

create_tenant_adjustment-effect_example :
    (p : TenantProduct) × (a : StockAdjustment) × (m : AdjustmentMovement) × (let k =
        adjustment_key 2 write_off p in
      let before = stock_or_new p.reorder_level (find (is_row k) tables.rows) in
      let after = a.actual_quantity_counted in
      (find (is_tenant_product 2 1) tables.products ≡ some p)
      × (find (is_row k) written_off.rows
          ≡ some (record { key = k; stock = record before { current_stock = after } }))
      × (pos after ≡ pos before.current_stock +ℤ signed_quantity write_off)
      × (before.reserved_stock ≤ after)
      × (written_off.adjustments ≡ a ∷ [])
      × (written_off.movements ≡ m ∷ [])
      × (m.reference_id ≡ a.pk)
      × (a.current_quantity ≡ before.current_stock)
      × (m.previous_stock ≡ before.current_stock)
      × (m.new_stock ≡ after)
      × IsValue a.value_before (before.average_unit_cost * before.current_stock)
      × IsValue a.value_after (before.average_unit_cost * after)
      × IsValue m.running_stock_value (before.average_unit_cost * after))
unfolding create_tenant_adjustment recorded ◌+ℤ◌ ◌-ℤ◌
create_tenant_adjustment-effect_example =
    create_tenant_adjustment-effect 2 write_off tables {t' = written_off} refl
