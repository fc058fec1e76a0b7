-- ===== src/Transfer/Retry.antt =====
-- One round of a dispatch that is repeated (apps/transfers/services.py).
use ghazatech_inventory_be.Prelude.{
  ℕ, ◌≤◌, ◌≡◌, refl, ap, ◌∙◌, false, Option, none, some, List, [], ◌∷◌, length, arith, ◌==◌,
}
use ghazatech_inventory_be.Prelude.Result.{ok, raise_if, >>=-eq-ok}
use ghazatech_inventory_be.Transfer.Store.{
  Product, Variant, outward, Reference, MovementType, transfer_out, StockMovement, TenantDb,
  matching,
}
use ghazatech_inventory_be.Transfer.Move.{quantity_not_positive, MoveArgs, move}
use ghazatech_inventory_be.Transfer.MoveOnce.{
  Records, move_again, move-IsDone, SameCatalog, Grown, kept, added, move-Grown,
}
use ghazatech_inventory_be.Transfer.World.{StockTransfer, StockTransferItem}
use ghazatech_inventory_be.Transfer.Dispatch.{
  ensure_source, item_key, quantity_of, eligible_warehouse, choose_warehouse, dispatch_args,
  dispatch_item,
}

singleton_of :
    (ms : List StockMovement) (m : StockMovement) (rest : List StockMovement)
    → ms ≡ m ∷ rest
    → length ms ≤ 1
    → ms ≡ m ∷ []
singleton_of ms m [] e h = e
singleton_of ms m (r ∷ rest) e h = absurd (omega (arith, ap {B = ℕ} length e))

-- A call of `_move` keeps a key unique, and the one movement of a key where it is.
Grown-unique :
    (a : MoveArgs) (r : Reference) (k : MovementType) {db db' : TenantDb}
    → length (matching r k db) ≤ 1
    → Grown a r k db db'
    → length (matching r k db') ≤ 1
Grown-unique a r k h (kept e) = rw e h
Grown-unique a r k h (added m _ _ _ e) = rw e (omega arith)

Grown-recorded :
    (a : MoveArgs) (r : Reference) (k : MovementType) {db db' : TenantDb} (m : StockMovement)
    → matching r k db ≡ m ∷ []
    → Grown a r k db db'
    → matching r k db' ≡ m ∷ []
Grown-recorded a r k m h (kept e) = e ∙ h
Grown-recorded a r k m h (added _ _ _ was_empty _) = cc

module _ (t : StockTransfer) (user : ℕ) where
  -- At most one dispatch of the item is recorded.
  abbrev pub IsUnique : StockTransferItem → TenantDb → Type 0
  IsUnique item db = length (matching (item_key t item outward) transfer_out db) ≤ 1

  -- The dispatch of the item is recorded, once, for the product and quantity that it now has.
  pub record IsDispatched (item : StockTransferItem) (db : TenantDb) : Type 0 where
    pub source : Product
    pub variant : Option Variant
    pub resolved : ensure_source t item db ≡ ok (source, variant)
    pub positive : (quantity_of item == 0) ≡ false
    pub movement : StockMovement
    pub recorded : matching (item_key t item outward) transfer_out db ≡ movement ∷ []
    pub same : Records (dispatch_args t user item source variant 0) movement

  -- The parts of a successful round.
  pub dispatch_item-eq-ok :
      (item : StockTransferItem) (db : TenantDb) {db' : TenantDb}
      → dispatch_item t user item db ≡ ok db'
      → (source : Product) × (variant : Option Variant) × (warehouse : ℕ) × (ensure_source t item db
          ≡ ok (source, variant))
        × ((quantity_of item == 0) ≡ false)
        × (move (dispatch_args t user item source variant warehouse) db ≡ ok db')
  unfolding dispatch_item
  dispatch_item-eq-ok item db h =
      let ((source, variant), resolved, h') = >>=-eq-ok (ensure_source t item db) _ h in
      let (_, guarded, h'') =
        >>=-eq-ok (raise_if (quantity_of item == 0) quantity_not_positive) _ h' in
      let (warehouse, _, moved) =
        >>=-eq-ok
          (choose_warehouse (eligible_warehouse t source variant (quantity_of item) db)
            (matching (item_key t item outward) transfer_out db))
          _ h'' in
      (source, variant, warehouse, resolved, ground arith, moved)

  ensure_source-SameCatalog :
      (item : StockTransferItem) {db db' : TenantDb}
      → SameCatalog db db'
      → ensure_source t item db' ≡ ensure_source t item db
  unfolding ensure_source
  ensure_source-SameCatalog item c = rw (c.products, c.variants)

  choose_warehouse_one :
      (w : Option ℕ) (m : StockMovement) → (v : ℕ) × (choose_warehouse w (m ∷ []) ≡ ok v)
  choose_warehouse_one none m = (m.key.warehouse, refl)
  choose_warehouse_one (some w) m = (w, refl)

  -- A round whose movement is recorded succeeds and changes nothing.
  pub dispatch_item_again :
      (item : StockTransferItem) (db : TenantDb)
      → IsDispatched item db
      → dispatch_item t user item db ≡ ok db
  unfolding dispatch_item
  dispatch_item_again item db d =
      let (w, chosen) =
        choose_warehouse_one (eligible_warehouse t d.source d.variant (quantity_of item) db)
          d.movement in
      rw (d.resolved, d.positive, d.recorded, chosen)
        (move_again (dispatch_args t user item d.source d.variant w) db (record {
          first = d.movement;
          rest = [];
          found = d.recorded;
          same = record {
            product = d.same.product;
            branch = d.same.branch;
            quantity = d.same.quantity;
          };
        }))

  -- After a successful round the dispatch of the item is recorded.
  pub dispatch_item-IsDispatched :
      (item : StockTransferItem) (db : TenantDb) {db' : TenantDb}
      → IsUnique item db
      → dispatch_item t user item db ≡ ok db'
      → IsDispatched item db'
  dispatch_item-IsDispatched item db unique h =
      let (source, variant, w, resolved, positive, moved) = dispatch_item-eq-ok item db h in
      let args = dispatch_args t user item source variant w in
      let (done, catalog) = move-IsDone args db moved in
      record {
        source = source;
        variant = variant;
        resolved = ensure_source-SameCatalog item catalog ∙ resolved;
        positive = positive;
        movement = done.first;
        recorded = singleton_of _ done.first done.rest done.found (
            Grown-unique args (item_key t item outward) transfer_out unique
              (move-Grown args db moved (item_key t item outward) transfer_out));
        same = record {
          product = done.same.product;
          branch = done.same.branch;
          quantity = done.same.quantity;
        };
      }

  -- A later round keeps what is recorded and keeps keys unique.
  pub dispatch_item-keeps :
      (item other : StockTransferItem) {db db' : TenantDb}
      → dispatch_item t user other db ≡ ok db'
      → (IsDispatched item db → IsDispatched item db') × (IsUnique item db → IsUnique item db')
  dispatch_item-keeps item other {db} h =
      let (source, variant, w, _, _, moved) = dispatch_item-eq-ok other db h in
      let args = dispatch_args t user other source variant w in
      let (_, catalog) = move-IsDone args db moved in
      let grown = move-Grown args db moved (item_key t item outward) transfer_out in
      (
        λ d. record {
          source = d.source;
          variant = d.variant;
          resolved = ensure_source-SameCatalog item catalog ∙ d.resolved;
          positive = d.positive;
          movement = d.movement;
          recorded =
              Grown-recorded args (item_key t item outward) transfer_out d.movement d.recorded
                grown;
          same = d.same;
        },
        λ unique. Grown-unique args (item_key t item outward) transfer_out unique grown,
      )
