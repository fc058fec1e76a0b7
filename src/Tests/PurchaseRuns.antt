-- ===== src/Tests/PurchaseRuns.antt =====
-- The theorems on goods receipts at an order of ten drills.
use ghazatech_inventory_be.Prelude.{ℕ, ◌≡◌, ◌≢◌, ◌+◌, refl, arith, false, none, List, [], ◌∷◌}
use ghazatech_inventory_be.Prelude.Decimal.{round_half_up}
use ghazatech_inventory_be.Prelude.Int.{◌+ℤ◌, ◌*ℤ◌}
use ghazatech_inventory_be.Prelude.Result.{ok}
use ghazatech_inventory_be.Tax.{calculate_inventory_tax}
use ghazatech_inventory_be.Inventory.Adjust.{
  standard_vat, adjust_stock, normalize_tax, revalued, weighted_cost, movement_of,
}
use ghazatech_inventory_be.Inventory.Shelf.{adjust_at, stock_at}
use ghazatech_inventory_be.Transfer.Store.{StockKey}
use ghazatech_inventory_be.Purchases.GoodsReceipt.{
  OrderStatus, PurchaseOrderItem, GrnStatus, GoodsReceivedItem, Catalog, Receiving, receive_line,
  receive_items, confirm_grn,
}
use ghazatech_inventory_be.Purchases.Received.{AllWithin, brought, confirm_grn-receives}
use ghazatech_inventory_be.Purchases.MissedLine.{Shadows, confirm_grn_misses_line}
use ghazatech_inventory_be.Tests.TransferData.{result_or}

-- The branch's rows have the shared numbers and a hundred.
abbrev catalog : Catalog
catalog = record {
  product =
      λ n. record { pk = n + 100; tax_treatment = none; vat_inclusive = false; reorder_level = 4 };
  variant = λ v _. v;
  shared_treatment = λ _. none;
}

abbrev line : ℕ → ℕ → PurchaseOrderItem
line pk quantity = record {
  pk = pk;
  product = 1;
  variant = none;
  quantity = quantity;
  received_quantity = 0;
  unit_price = 2_000;
  tax_treatment = standard_vat;
}

-- Seven drills of which one is damaged.
abbrev drills : GoodsReceivedItem
drills = record {
  product = 1;
  variant = none;
  received_quantity = 7;
  damaged_quantity = 1;
  accepted_quantity = 0;
  rejected_quantity = 0;
}

abbrev receiving : List PurchaseOrderItem → Receiving
receiving items = record {
  grn = record {
    branch = 1;
    warehouse_location = 0;
    status = GrnStatus.draft;
    is_confirmed = false;
    items = drills ∷ [];
  };
  order = record { status = OrderStatus.approved; items = items };
  shelf = record { rows = []; movements = [] };
}

abbrev key : StockKey
key = record { branch_id = 1; product_id = 101; variant_id = none; warehouse = 0 }

abbrev open_note : Receiving
open_note = receiving (line 1 10 ∷ [])

abbrev confirmed : Receiving
confirmed = result_or (confirm_grn catalog open_note) open_note

-- Six drills are on the shelf, and the order is received in part.
six_drills :
    (stock_at key confirmed.shelf ≡ 6) × (confirmed.order.status ≡ OrderStatus.partially_received)
unfolding confirm_grn receive_items receive_line adjust_at adjust_stock normalize_tax revalued
    movement_of weighted_cost calculate_inventory_tax round_half_up ◌+ℤ◌ ◌*ℤ◌
six_drills = (refl, refl)

confirm_grn-receives_example :
    (stock_at key confirmed.shelf ≡ 0 + brought catalog open_note.grn key (drills ∷ []))
    × AllWithin confirmed.order.items
    × (confirm_grn catalog confirmed ≡ ok confirmed)
unfolding confirm_grn receive_items receive_line adjust_at adjust_stock normalize_tax revalued
    movement_of weighted_cost calculate_inventory_tax round_half_up ◌+ℤ◌ ◌*ℤ◌
confirm_grn-receives_example =
    confirm_grn-receives catalog open_note key {r' = confirmed} refl (omega arith, tt) refl

-- Six drills in two lines.
abbrev two_lines : Receiving
two_lines = receiving (line 1 3 ∷ line 2 3 ∷ [])

abbrev both : Receiving
both = result_or (confirm_grn catalog two_lines) two_lines

confirm_grn_misses_line_example :
    Shadows (line 1 3) (line 2 3) both.order.items × (both.order.status ≢ OrderStatus.received)
unfolding confirm_grn receive_items receive_line adjust_at adjust_stock normalize_tax revalued
    movement_of weighted_cost calculate_inventory_tax round_half_up ◌+ℤ◌ ◌*ℤ◌
confirm_grn_misses_line_example =
    confirm_grn_misses_line catalog two_lines (line 1 3) (line 2 3) [] {r' = both} refl refl refl
      refl (λ e. cc) refl refl
