-- ===== src/Transfer/Matched.antt =====
-- What the reconciliation of a received transfer says of the goods (apps/transfers/services.py).
use ghazatech_inventory_be.Prelude.{
  ℕ, ◌+◌, ◌*◌, ◌≡◌, ◌↔◌, ap, Bool, List, [], ◌∷◌, arith, if◌then◌else◌,
}
use ghazatech_inventory_be.Prelude.Int.{ℤ, pos, pos_part, ◌+ℤ◌, ◌-ℤ◌, ◌*ℤ◌, eqb_ℤ}
use ghazatech_inventory_be.Prelude.Result.{ok}
use ghazatech_inventory_be.Transfer.Store.{inward, transfer_in, StockMovement, TenantDb, matching}
use ghazatech_inventory_be.Transfer.World.{
  StockTransfer, StockTransferItem, Alias, alias_of, Tenants, World, matched, variance,
}
use ghazatech_inventory_be.Transfer.Dispatch.{item_key}
use ghazatech_inventory_be.Transfer.Receive.{receive, total_value, received_transfer}
use ghazatech_inventory_be.Transfer.Receipt.{receive-eq-ok}
use ghazatech_inventory_be.Transfer.Delivered.{AllDelivered, receive-delivers}

abbrev pub first_quantity : List StockMovement → ℤ
first_quantity [] = pos 0
first_quantity (m ∷ ms) = m.quantity

-- The quantities that a tenant recorded as received of the items, at the items' unit costs.
abbrev pub recorded_value : StockTransfer → List StockTransferItem → TenantDb → ℤ
recorded_value t [] db = pos 0
recorded_value t (item ∷ items) db =
    first_quantity (matching (item_key t item inward) transfer_in db) *ℤ pos item.transfer_unit_cost
    +ℤ recorded_value t items db

pos_sum : (n c rest : ℕ) → pos n *ℤ pos c +ℤ pos rest ≡ pos (n * c + rest)
unfolding ◌+ℤ◌ ◌*ℤ◌
pos_sum n c rest = ground arith

-- What was delivered is worth the total that the receipt computes.
recorded_value-total :
    (t : StockTransfer) (stored : ℕ → Bool) (user : ℕ) (src dst : Alias)
    (items : List StockTransferItem) (tenants : Tenants)
    → AllDelivered t stored user src dst items tenants
    → recorded_value t items (tenants dst) ≡ pos (total_value items)
recorded_value-total t stored user src dst [] tenants all = ground arith
recorded_value-total t stored user src dst (item ∷ items) tenants ((_, got), all) =
    rw (got.recorded, got.quantity, recorded_value-total t stored user src dst items tenants all)
      (pos_sum item.dispatched_quantity item.transfer_unit_cost (total_value items))

difference_iff :
    (a b : ℕ) → ((if eqb_ℤ (pos a -ℤ pos b) (pos 0) then matched else variance) ≡ matched) ↔ (a ≡ b)
unfolding ◌-ℤ◌
difference_iff a b = ground arith

-- After a successful receipt the transfer is marked as matched exactly when the quantities that the
-- destination recorded as received of its items, at the transfer's unit costs in ten-thousandths,
-- are worth the recorded source value to the last digit.
pub receive_matched_iff :
    (stored : ℕ → Bool) (user : ℕ) (w w' : World)
    → receive stored user w ≡ ok w'
    → (dst : Alias) × (alias_of w.transfer.to_branch ≡ ok dst)
      × ((w'.transfer.reconciliation_status ≡ matched) ↔ (
          recorded_value w.transfer w.items (w'.tenants dst)
          ≡ pos (100 * w.transfer.source_stock_value)))
unfolding received_transfer
receive_matched_iff stored user w w' h =
    let (_, _, _, _, _, _, e) = receive-eq-ok stored user w h in
    let (src, dst, _, to, all) = receive-delivers stored user w w' h in
    let total = recorded_value-total w.transfer stored user src dst w.items w'.tenants all in
    let (there, back) =
      difference_iff (total_value w.items) (100 * w.transfer.source_stock_value) in
    (dst, to, rw (e, total) (λ m. ap pos (there m), λ v. back (ap pos_part v)))
