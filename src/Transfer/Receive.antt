-- ===== src/Transfer/Receive.antt =====
-- `receive` of apps/transfers/services.py.
use ghazatech_inventory_be.Prelude.{
  ℕ, ◌+◌, ◌*◌, Bool, true, false, not, Option, some, List, [], ◌∷◌, map, ◌==◌, if◌then◌else◌, any,
}
use ghazatech_inventory_be.Prelude.Decimal.{round_half_up, cents}
use ghazatech_inventory_be.Prelude.Int.{pos, neg, ◌-ℤ◌, eqb_ℤ}
use ghazatech_inventory_be.Prelude.Result.{Result, ok, raise_if, ◌>>◌, ◌>>=◌}
use ghazatech_inventory_be.Transfer.Store.{
  Product, Variant, outward, inward, transfer_out, transfer_in, TenantDb, matching,
}
use ghazatech_inventory_be.Transfer.Move.{
  TransferError, bad_status, not_dispatched, dispatch_movement_missing, MoveArgs, move,
}
use ghazatech_inventory_be.Transfer.World.{
  Status, received, matched, variance, StockTransfer, StockTransferItem, Alias, alias_of, Tenants,
  update, World,
}
use ghazatech_inventory_be.Transfer.Dispatch.{ensure_source, item_key}
use ghazatech_inventory_be.Transfer.Destination.{destination_product, destination_variant}

abbrev pub receive_args :
    StockTransfer → ℕ → StockTransferItem → Product → Option Variant → MoveArgs
receive_args t user item product variant = record {
  branch_id = t.to_branch.pk;
  product = product;
  variant = variant;
  quantity = pos item.dispatched_quantity;
  movement_type = transfer_in;
  warehouse = 0;
  key = item_key t item inward;
  transfer_number = t.transfer_number;
  unit_cost = item.transfer_unit_cost;
  actor_id = user;
}

-- The source tenant records the dispatch of the quantity.
abbrev pub is_sent : StockTransfer → StockTransferItem → TenantDb → Bool
is_sent t item db =
    any (λ m. eqb_ℤ m.quantity (neg (pos item.dispatched_quantity)))
      (matching (item_key t item outward) transfer_out db)

module _ (stored : ℕ → Bool) where
  -- One round of the loop over the items, in the transaction of the destination tenant.
  unfoldable pub receive_item :
      StockTransfer → ℕ → Alias → Alias → StockTransferItem → Tenants → Result TransferError Tenants
  unfolding ensure_source destination_product destination_variant
  receive_item t user src dst item tenants = do
    raise_if (item.dispatched_quantity == 0) not_dispatched
    raise_if (not (is_sent t item (tenants src))) dispatch_movement_missing
    (source, variant) ← ensure_source t item (tenants src)
    (product, db) ← destination_product stored source t.to_branch (tenants src) (tenants dst)
    let (variant', db') = destination_variant variant product db
    moved ← move (receive_args t user item product variant') db'
    ok (update tenants dst moved)

  unfoldable pub receive_items :
      StockTransfer
      → ℕ
      → Alias
      → Alias
      → List StockTransferItem
      → Tenants
      → Result TransferError Tenants
  receive_items t user src dst [] tenants = ok tenants
  receive_items t user src dst (item ∷ items) tenants =
      receive_item t user src dst item tenants >>= receive_items t user src dst items

abbrev pub can_receive : Status → Bool
can_receive Status.in_transit = true
can_receive Status.received = true
can_receive _ = false

-- Quantities at unit costs are in ten-thousandths, and their columns keep cents.
unfoldable pub received_item : StockTransferItem → StockTransferItem
unfolding cents round_half_up
received_item item =
    let value = item.dispatched_quantity * item.transfer_unit_cost in
    record item {
      received_quantity = item.dispatched_quantity;
      destination_value = round_half_up value 100;
      value_difference = cents (pos value -ℤ pos (100 * item.source_value));
    }

abbrev pub total_value : List StockTransferItem → ℕ
total_value [] = 0
total_value (item ∷ items) = item.dispatched_quantity * item.transfer_unit_cost + total_value items

-- The status goes by the difference before it is rounded.
unfoldable pub received_transfer : StockTransfer → ℕ → ℕ → StockTransfer
unfolding cents round_half_up
received_transfer t user total =
    let difference = pos total -ℤ pos (100 * t.source_stock_value) in
    record t {
      status = received;
      received_by = some user;
      destination_stock_value = round_half_up total 100;
      value_difference = cents difference;
      reconciliation_status = if eqb_ℤ difference (pos 0) then matched else variance;
    }

-- The part up to the commit of the destination tenant's transaction.
unfoldable pub receive_tenant : (ℕ → Bool) → ℕ → World → Result TransferError Tenants
unfolding receive_items
receive_tenant stored user w = do
  raise_if (not (can_receive w.transfer.status)) bad_status
  src ← alias_of w.transfer.from_branch
  dst ← alias_of w.transfer.to_branch
  receive_items stored w.transfer user src dst w.items w.tenants

unfoldable pub receive : (ℕ → Bool) → ℕ → World → Result TransferError World
unfolding receive_tenant received_transfer received_item
receive stored user w = do
  tenants ← receive_tenant stored user w
  ok (record {
    transfer = received_transfer w.transfer user (total_value w.items);
    items = map received_item w.items;
    tenants = tenants;
  })
