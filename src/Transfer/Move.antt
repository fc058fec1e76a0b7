-- ===== src/Transfer/Move.antt =====
-- `_move` of apps/transfers/services.py: one stock row of a tenant is changed and the change is
-- recorded, once for each key.
use ghazatech_inventory_be.Prelude.{
  ℕ, ◌+◌, ◌*◌, not, ◌||◌, Option, none, some, List, [], ◌∷◌, ◌==◌, if◌then◌else◌, put,
}
use ghazatech_inventory_be.Prelude.Int.{ℤ, pos, pos_part, ◌+ℤ◌, ◌*ℤ◌, ltb_ℤ, eqb_ℤ}
use ghazatech_inventory_be.Prelude.Decimal.{cents, round_half_even, round_half_up}
use ghazatech_inventory_be.Prelude.Result.{Result, ok, err, raise_if, ◌>>◌}
use ghazatech_inventory_be.Transfer.Store.{
  TaxMode, Product, Variant, StockKey, ProductStock, Reference, MovementType, StockMovement,
  TenantDb, matching, has_key, find_stock,
}

-- Why a transfer is refused.
pub data TransferError : Type 0 where
  bad_status no_items source_unavailable variant_not_found quantity_not_positive : TransferError
  insufficient_single_warehouse key_conflict insufficient_unreserved insufficient_stock :
      TransferError
  not_dispatched dispatch_movement_missing destination_inactive name_missing : TransferError
  invalid_tax_mode invalid_branch_id not_admin wrong_branch not_physical : TransferError

-- Base variants are recorded in stock with no variant.
abbrev pub stock_variant : Option Variant → Option ℕ
stock_variant none = none
stock_variant (some v) = if v.is_base then none else some v.pk

-- The keyword arguments of `_move`.
pub record MoveArgs : Type 0 where
  pub branch_id : ℕ
  pub product : Product
  pub variant : Option Variant
  pub quantity : ℤ
  pub movement_type : MovementType
  pub warehouse : ℕ
  pub key : Reference
  pub transfer_number : ℕ
  pub unit_cost : ℕ
  pub actor_id : ℕ

abbrev pub stock_key : MoveArgs → StockKey
stock_key a = record {
  branch_id = a.branch_id;
  product_id = a.product.pk;
  variant_id = stock_variant a.variant;
  warehouse = a.warehouse;
}

-- `get_or_create`, whose defaults leave the costs at 0.
unfoldable pub stock_or_new : StockKey → ℕ → Option ProductStock → ProductStock
stock_or_new k reorder_level (some s) = s
stock_or_new k reorder_level none = record {
  key = k;
  current_stock = 0;
  reserved_stock = 0;
  reorder_level = reorder_level;
  average_unit_cost = 0;
  average_unit_cost_excluding_vat = 0;
  last_purchase_cost_excluding_vat = 0;
  last_purchase_cost = 0;
  last_tax_treatment = TaxMode.non_vat;
  last_vat_percentage = 0;
}

-- A receipt sets the weighted average cost and the last costs; an issue keeps them.
unfoldable pub revalued : ProductStock → ℤ → ℕ → ℕ → ProductStock
unfolding round_half_even
revalued s quantity after cost =
    if ltb_ℤ (pos 0) quantity
    then (record s {
      average_unit_cost =
          if after == 0
          then cost
          else round_half_even (s.current_stock * s.average_unit_cost + pos_part quantity * cost)
              after;
      average_unit_cost_excluding_vat = cost;
      last_purchase_cost_excluding_vat = cost;
      last_purchase_cost = cost;
      last_tax_treatment = TaxMode.non_vat;
      last_vat_percentage = 0;
    })
    else s

-- The row as it is saved, and the movement that records it.
unfoldable pub moved_stock : MoveArgs → ProductStock → ProductStock
unfolding revalued
moved_stock a s =
    let after = pos_part (pos s.current_stock +ℤ a.quantity) in
    record (revalued s a.quantity after a.unit_cost) { current_stock = after }

unfoldable pub movement_of : MoveArgs → ProductStock → StockMovement
unfolding moved_stock cents round_half_up
movement_of a s =
    let after = pos_part (pos s.current_stock +ℤ a.quantity) in
    record {
      key = stock_key a;
      movement_type = a.movement_type;
      quantity = a.quantity;
      quantity_before = s.current_stock;
      quantity_after = after;
      reference = a.key;
      transfer_number = a.transfer_number;
      actor_id = a.actor_id;
      unit_cost_excluding_vat = a.unit_cost;
      net_value_change = cents (a.quantity *ℤ pos a.unit_cost);
      running_stock_value = round_half_up (after * (moved_stock a s).average_unit_cost) 100;
    }

-- An existing movement of the key must be the same one.
abbrev pub replay : MoveArgs → StockMovement → TenantDb → Result TransferError TenantDb
replay a m db =
    if not (m.key.product_id == a.product.pk)
      || not (m.key.branch_id == a.branch_id)
      || not (eqb_ℤ m.quantity a.quantity)
    then err key_conflict
    else ok db

abbrev pub apply_move : MoveArgs → ProductStock → TenantDb → Result TransferError TenantDb
apply_move a s db =
    let after = pos s.current_stock +ℤ a.quantity in
    do
      raise_if (ltb_ℤ after (pos s.reserved_stock)) insufficient_unreserved
      raise_if (ltb_ℤ after (pos 0)) insufficient_stock
      ok (record db {
        stocks = put (has_key (stock_key a)) (moved_stock a s) db.stocks;
        movements = movement_of a s ∷ db.movements;
      })

abbrev pub move_on :
    MoveArgs → List StockMovement → Option ProductStock → TenantDb → Result TransferError TenantDb
move_on a (m ∷ _) row db = replay a m db
move_on a [] row db = apply_move a (stock_or_new (stock_key a) a.product.reorder_level row) db

unfoldable pub move : MoveArgs → TenantDb → Result TransferError TenantDb
move a db = move_on a (matching a.key a.movement_type db) (find_stock (stock_key a) db) db
