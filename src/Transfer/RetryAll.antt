-- ===== src/Transfer/RetryAll.antt =====
-- The loop of `dispatch` over all items, and a dispatch that is repeated (apps/transfers/services.py).
use mathlib.Core.Path.{fun_ext}
use ghazatech_inventory_be.Prelude.{ℕ, ◌≡◌, refl, true, false, not, List, [], ◌∷◌, arith, is_empty}
use ghazatech_inventory_be.Prelude.Result.{ok, raise_if, >>=-eq-ok}
use ghazatech_inventory_be.Transfer.Store.{TenantDb}
use ghazatech_inventory_be.Transfer.Move.{bad_status, no_items}
use ghazatech_inventory_be.Transfer.Retry.{
  IsUnique, IsDispatched, dispatch_item_again, dispatch_item-IsDispatched, dispatch_item-keeps,
}
use ghazatech_inventory_be.Transfer.World.{
  update_self, StockTransfer, StockTransferItem, World, Tenants, Alias, alias_of, update,
}
use ghazatech_inventory_be.Transfer.Dispatch.{
  dispatch_item, dispatch_items, dispatch_tenant, dispatch, can_dispatch,
}

module _ (t : StockTransfer) (user : ℕ) where
  abbrev pub AllUnique : List StockTransferItem → TenantDb → Type 0
  AllUnique [] db = Unit
  AllUnique (item ∷ items) db = IsUnique t user item db × AllUnique items db

  abbrev pub AllDispatched : List StockTransferItem → TenantDb → Type 0
  AllDispatched [] db = Unit
  AllDispatched (item ∷ items) db = IsDispatched t user item db × AllDispatched items db

  AllUnique-kept :
      (items : List StockTransferItem) (other : StockTransferItem) (db db' : TenantDb)
      → dispatch_item t user other db ≡ ok db'
      → AllUnique items db
      → AllUnique items db'
  AllUnique-kept [] other db db' h u = tt
  AllUnique-kept (item ∷ items) other db db' h (u, us) =
      ((dispatch_item-keeps t user item other h).1 u, AllUnique-kept items other db db' h us)

  dispatch_items-keeps :
      (item : StockTransferItem) (items : List StockTransferItem) {db db' : TenantDb}
      → dispatch_items t user items db ≡ ok db'
      → IsDispatched t user item db
      → IsDispatched t user item db'
  unfolding dispatch_items
  dispatch_items-keeps item [] {db} {db'} h d = let e : db ≡ db' = cc in rw e at d
  dispatch_items-keeps item (other ∷ items) {db} h d =
      let (mid, first, rest) = >>=-eq-ok (dispatch_item t user other db) _ h in
      dispatch_items-keeps item items rest ((dispatch_item-keeps t user item other first).0 d)

  -- A successful dispatch records every item.
  pub dispatch_items-AllDispatched :
      (items : List StockTransferItem) (db : TenantDb) {db' : TenantDb}
      → AllUnique items db
      → dispatch_items t user items db ≡ ok db'
      → AllDispatched items db'
  unfolding dispatch_items
  dispatch_items-AllDispatched [] db u h = tt
  dispatch_items-AllDispatched (item ∷ items) db (u, us) h =
      let (mid, first, rest) = >>=-eq-ok (dispatch_item t user item db) _ h in
      (
        dispatch_items-keeps item items rest (dispatch_item-IsDispatched t user item db u first),
        dispatch_items-AllDispatched items mid (AllUnique-kept items item db mid first us) rest,
      )

  -- Where every item is recorded, the loop succeeds and changes nothing.
  pub dispatch_items_again :
      (items : List StockTransferItem) (db : TenantDb)
      → AllDispatched items db
      → dispatch_items t user items db ≡ ok db
  unfolding dispatch_items
  dispatch_items_again [] db d = refl
  dispatch_items_again (item ∷ items) db (d, ds) =
      rw (dispatch_item_again t user item db d) (dispatch_items_again items db ds)

pub dispatch_tenant-eq-ok :
    (user : ℕ) (w : World) {tenants : Tenants}
    → dispatch_tenant user w ≡ ok tenants
    → (a : Alias) × (db : TenantDb) × (can_dispatch w.transfer.status ≡ true)
      × (alias_of w.transfer.from_branch ≡ ok a)
      × (is_empty w.items ≡ false)
      × (dispatch_items w.transfer user w.items (w.tenants a) ≡ ok db)
      × (tenants ≡ update w.tenants a db)
unfolding dispatch_tenant
dispatch_tenant-eq-ok user w h =
    let (_, open_status, h1) =
      >>=-eq-ok (raise_if (not (can_dispatch w.transfer.status)) bad_status) _ h in
    let (a, named, h2) = >>=-eq-ok (alias_of w.transfer.from_branch) _ h1 in
    let (_, some_items, h3) = >>=-eq-ok (raise_if (is_empty w.items) no_items) _ h2 in
    let (db, looped, h4) = >>=-eq-ok (dispatch_items w.transfer user w.items (w.tenants a)) _ h3 in
    (a, db, ground arith, named, ground arith, looped, ground arith)

-- Writing the same tenant a second time changes nothing.
update_again :
    (tenants : Tenants) (a : Alias) (db : TenantDb)
    → update (update tenants a db) a db ≡ update tenants a db
update_again tenants a db = fun_ext (λ b. ground arith)

-- Dispatching again once the tenant holds the movements of every item writes nothing new there.
dispatch_tenant_again :
    (user : ℕ) (w : World) (a : Alias) (db : TenantDb)
    → can_dispatch w.transfer.status ≡ true
    → alias_of w.transfer.from_branch ≡ ok a
    → is_empty w.items ≡ false
    → AllDispatched w.transfer user w.items db
    → dispatch_tenant user (record w { tenants = update w.tenants a db })
      ≡ ok (update w.tenants a db)
unfolding dispatch_tenant
dispatch_tenant_again user w a db open_status named some_items done = rw (
  open_status,
  named,
  some_items,
  update_self w.tenants a db,
  dispatch_items_again w.transfer user w.items db done,
  update_again w.tenants a db,
)

-- Where a dispatch's tenant transaction succeeds, and no tenant records an item's key more than once,
-- the dispatch that is run on the tenants it left behind does what an uninterrupted dispatch does.
pub dispatch_retry :
    (user : ℕ) (w : World) {tenants : Tenants}
    → ((a : Alias) → AllUnique w.transfer user w.items (w.tenants a))
    → dispatch_tenant user w ≡ ok tenants
    → dispatch user (record w { tenants = tenants }) ≡ dispatch user w
unfolding dispatch
dispatch_retry user w unique h =
    let (a, db, open_status, named, some_items, looped, written) = dispatch_tenant-eq-ok user w h in
    let done =
      dispatch_items-AllDispatched w.transfer user w.items (w.tenants a) (unique a) looped in
    rw (h, written, dispatch_tenant_again user w a db open_status named some_items done)
