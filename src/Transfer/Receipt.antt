-- ===== src/Transfer/Receipt.antt =====
-- `receive` of apps/transfers/services.py, taken apart: its rounds and its accounting.
use ghazatech_inventory_be.Prelude.{
  ℕ, ◌≡◌, refl, sym, ap, ◌∙◌, Bool, true, not, Option, none, some, List, [], ◌∷◌, arith, ◌==◌,
}
use ghazatech_inventory_be.Prelude.Result.{ok, raise_if, >>=-eq-ok}
use ghazatech_inventory_be.Transfer.Store.{Product, Variant, TenantDb}
use ghazatech_inventory_be.Transfer.Move.{
  bad_status, not_dispatched, dispatch_movement_missing, move,
}
use ghazatech_inventory_be.Transfer.Accounted.{
  Accounted, Accounted-refl, Accounted-trans, move-Accounted, same_stock, update-Accounted,
}
use ghazatech_inventory_be.Transfer.MoveLaws.{moved}
use ghazatech_inventory_be.Transfer.World.{
  Branch, StockTransfer, StockTransferItem, Alias, alias_of, Tenants, update, World,
}
use ghazatech_inventory_be.Transfer.Dispatch.{ensure_source}
use ghazatech_inventory_be.Transfer.Destination.{destination_product, destination_variant}
use ghazatech_inventory_be.Transfer.Receive.{
  receive_args, is_sent, receive_item, receive_items, receive_tenant, receive, can_receive,
  received_transfer, total_value,
}

-- The destination's catalogue is written without touching stock or movements.
destination_product-stock :
    (stored : ℕ → Bool) (source : Product) (branch : Branch) (source_db db : TenantDb) {p : Product}
    {db' : TenantDb}
    → destination_product stored source branch source_db db ≡ ok (p, db')
    → (db'.stocks ≡ db.stocks) × (db'.movements ≡ db.movements)
unfolding destination_product
destination_product-stock stored source branch source_db db h = ground arith

destination_variant-stock :
    (source : Option Variant) (p : Product) (db : TenantDb)
    → ((destination_variant source p db).1.stocks ≡ db.stocks)
      × ((destination_variant source p db).1.movements ≡ db.movements)
unfolding destination_variant
destination_variant-stock none p db = (refl, refl)
destination_variant-stock (some source) p db = ground arith

-- The parts of a successful round of `receive`.
pub receive_item-eq-ok :
    (stored : ℕ → Bool) (t : StockTransfer) (user : ℕ) (src dst : Alias) (item : StockTransferItem)
    (tenants : Tenants) {tenants' : Tenants}
    → receive_item stored t user src dst item tenants ≡ ok tenants'
    → (product : Product) × (variant : Option Variant) × (db db' : TenantDb) × (is_sent t item
          (tenants src)
        ≡ true)
      × (db.stocks ≡ (tenants dst).stocks)
      × (db.movements ≡ (tenants dst).movements)
      × (move (receive_args t user item product variant) db ≡ ok db')
      × (tenants' ≡ update tenants dst db')
unfolding receive_item
receive_item-eq-ok stored t user src dst item tenants h =
    let (_, _, h1) = >>=-eq-ok (raise_if (item.dispatched_quantity == 0) not_dispatched) _ h in
    let (_, sent, h2) =
      >>=-eq-ok (raise_if (not (is_sent t item (tenants src))) dispatch_movement_missing) _ h1 in
    let ((source, variant), _, h3) = >>=-eq-ok (ensure_source t item (tenants src)) _ h2 in
    let ((product, db), made, h4) =
      >>=-eq-ok (destination_product stored source t.to_branch (tenants src) (tenants dst)) _ h3 in
    let (variant', db1) = destination_variant variant product db in
    let (db2, moved, h5) = >>=-eq-ok (move (receive_args t user item product variant') db1) _ h4 in
    let (s1, m1) =
      destination_product-stock stored source t.to_branch (tenants src) (tenants dst) made in
    let (s2, m2) = destination_variant-stock variant product db in
    (product, variant', db1, db2, ground arith, s2 ∙ s1, m2 ∙ m1, moved, ground arith)

receive_items-Accounted :
    (stored : ℕ → Bool) (t : StockTransfer) (user : ℕ) (src dst : Alias)
    (items : List StockTransferItem) (tenants : Tenants) {tenants' : Tenants}
    → receive_items stored t user src dst items tenants ≡ ok tenants'
    → (b : Alias) → Accounted (tenants b) (tenants' b)
unfolding receive_items
receive_items-Accounted stored t user src dst [] tenants {tenants'} h b =
    let e : tenants ≡ tenants' = cc in rw (← e) (Accounted-refl (tenants b))
receive_items-Accounted stored t user src dst (item ∷ items) tenants h b =
    let (mid, first, rest) = >>=-eq-ok (receive_item stored t user src dst item tenants) _ h in
    let (product, variant, db, db', _, s, m, moved, written) =
      receive_item-eq-ok stored t user src dst item tenants first in
    let step =
      Accounted-trans (same_stock (tenants dst) db s m)
        (move-Accounted (receive_args t user item product variant) db moved) in
    let here : Accounted (tenants b) (mid b) =
      rw written (update-Accounted tenants dst db' step b) in
    Accounted-trans here (receive_items-Accounted stored t user src dst items mid rest b)

pub receive_tenant-eq-ok :
    (stored : ℕ → Bool) (user : ℕ) (w : World) {tenants : Tenants}
    → receive_tenant stored user w ≡ ok tenants
    → (src dst : Alias) × (alias_of w.transfer.from_branch ≡ ok src)
      × (alias_of w.transfer.to_branch ≡ ok dst)
      × (can_receive w.transfer.status ≡ true)
      × (receive_items stored w.transfer user src dst w.items w.tenants ≡ ok tenants)
unfolding receive_tenant
receive_tenant-eq-ok stored user w h =
    let (_, open_status, h1) =
      >>=-eq-ok (raise_if (not (can_receive w.transfer.status)) bad_status) _ h in
    let (src, from, h2) = >>=-eq-ok (alias_of w.transfer.from_branch) _ h1 in
    let (dst, to, h3) = >>=-eq-ok (alias_of w.transfer.to_branch) _ h2 in
    (src, dst, from, to, ground arith, h3)

pub receive-eq-ok :
    (stored : ℕ → Bool) (user : ℕ) (w : World) {w' : World}
    → receive stored user w ≡ ok w'
    → (src dst : Alias) × (alias_of w.transfer.from_branch ≡ ok src)
      × (alias_of w.transfer.to_branch ≡ ok dst)
      × (can_receive w.transfer.status ≡ true)
      × (receive_items stored w.transfer user src dst w.items w.tenants ≡ ok w'.tenants)
      × (w'.transfer ≡ received_transfer w.transfer user (total_value w.items))
unfolding receive
receive-eq-ok stored user w {w'} h =
    let (tenants, part, made) = >>=-eq-ok (receive_tenant stored user w) _ h in
    let (src, dst, from, to, open_status, looped) = receive_tenant-eq-ok stored user w part in
    let e : w'.tenants ≡ tenants = ground arith in
    (src, dst, from, to, open_status, looped ∙ ap ok (sym e), ground arith)

-- Once the destination tenant's transaction is committed, every tenant's balances changed by the
-- movements recorded there.
pub receive_tenant-Accounted :
    (stored : ℕ → Bool) (user : ℕ) (w : World) {tenants : Tenants}
    → receive_tenant stored user w ≡ ok tenants
    → (b : Alias) → Accounted (w.tenants b) (tenants b)
receive_tenant-Accounted stored user w h b =
    let (src, dst, _, _, _, looped) = receive_tenant-eq-ok stored user w h in
    receive_items-Accounted stored w.transfer user src dst w.items w.tenants looped b

-- After a successful receipt every tenant's balances changed by the movements recorded there.
pub receive-Accounted :
    (stored : ℕ → Bool) (user : ℕ) (w : World) {w' : World}
    → receive stored user w ≡ ok w'
    → (b : Alias) → Accounted (w.tenants b) (w'.tenants b)
receive-Accounted stored user w h b =
    let (src, dst, _, _, _, looped, _) = receive-eq-ok stored user w h in
    receive_items-Accounted stored w.transfer user src dst w.items w.tenants looped b
