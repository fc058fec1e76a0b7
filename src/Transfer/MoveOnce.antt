-- ===== src/Transfer/MoveOnce.antt =====
-- The idempotency key of `_move` (apps/transfers/services.py).
use ghazatech_inventory_be.Prelude.{◌≡◌, refl, inl, inr, true, List, [], ◌∷◌, arith, Bool-cases}
use ghazatech_inventory_be.Prelude.Int.{eqb_ℤ_iff}
use ghazatech_inventory_be.Prelude.Result.{ok}
use ghazatech_inventory_be.Transfer.Store.{
  ProductStock, Reference, MovementType, StockMovement, TenantDb, matching, is_movement, find_stock,
}
use ghazatech_inventory_be.Transfer.Move.{
  MoveArgs, stock_key, stock_or_new, movement_of, move_on, replay, apply_move, move,
}
use ghazatech_inventory_be.Transfer.Keys.{reference_eq_iff, movement_type_eq_iff}

-- A movement is the one that a call asks for.
pub record Records (a : MoveArgs) (m : StockMovement) : Type 0 where
  pub product : m.key.product_id ≡ a.product.pk
  pub branch : m.key.branch_id ≡ a.branch_id
  pub quantity : m.quantity ≡ a.quantity

-- The first movement under the key of a call is the one that it asks for.
pub record IsDone (a : MoveArgs) (db : TenantDb) : Type 0 where
  pub first : StockMovement
  pub rest : List StockMovement
  pub found : matching a.key a.movement_type db ≡ first ∷ rest
  pub same : Records a first

-- A call whose movement is recorded already succeeds and changes nothing.
pub move_again : (a : MoveArgs) (db : TenantDb) → IsDone a db → move a db ≡ ok db
unfolding move
move_again a db d = rw d.found (ground (arith, eqb_ℤ_iff d.first.quantity a.quantity))

replay-eq-ok :
    (a : MoveArgs) (m : StockMovement) (db : TenantDb) {db' : TenantDb}
    → replay a m db ≡ ok db'
    → (db' ≡ db) × Records a m
replay-eq-ok a m db h = (
  ground arith,
  record {
    product = ground arith;
    branch = ground arith;
    quantity = ground (arith, eqb_ℤ_iff m.quantity a.quantity);
  },
)

-- The tables other than the stock and the movements, which `_move` leaves alone.
pub record SameCatalog (db db' : TenantDb) : Type 0 where
  pub products : db'.products ≡ db.products
  pub variants : db'.variants ≡ db.variants
  pub brands : db'.brands ≡ db.brands
  pub categories : db'.categories ≡ db.categories
  pub next_pk : db'.next_pk ≡ db.next_pk

-- What a successful application writes.
apply_move-writes :
    (a : MoveArgs) (s : ProductStock) (db : TenantDb) {db' : TenantDb}
    → apply_move a s db ≡ ok db'
    → (db'.movements ≡ movement_of a s ∷ db.movements) × SameCatalog db db'
apply_move-writes a s db h = (
  ground arith,
  record {
    products = ground arith;
    variants = ground arith;
    brands = ground arith;
    categories = ground arith;
    next_pk = ground arith;
  },
)

is_movement_self :
    (a : MoveArgs) (s : ProductStock) → is_movement a.key a.movement_type (movement_of a s) ≡ true
unfolding movement_of
is_movement_self a s =
    ground
      (arith, reference_eq_iff a.key a.key, movement_type_eq_iff a.movement_type a.movement_type)

move_on-IsDone :
    (a : MoveArgs) (db : TenantDb) (ms : List StockMovement) {db' : TenantDb}
    → matching a.key a.movement_type db ≡ ms
    → move_on a ms (find_stock (stock_key a) db) db ≡ ok db'
    → IsDone a db' × SameCatalog db db'
unfolding movement_of
move_on-IsDone a db (m ∷ ms) e h =
    let (same_db, same) = replay-eq-ok a m db h in
    rw same_db (
      record { first = m; rest = ms; found = e; same = same },
      record { products = refl; variants = refl; brands = refl; categories = refl; next_pk = refl },
    )
move_on-IsDone a db [] {db'} e h =
    let s = stock_or_new (stock_key a) a.product.reorder_level (find_stock (stock_key a) db) in
    let (written, same) = apply_move-writes a s db h in
    (
      record {
        first = movement_of a s;
        rest = [];
        found = rw (written, is_movement_self a s, e);
        same = record { product = refl; branch = refl; quantity = refl };
      },
      same,
    )

-- A successful call leaves its movement recorded and the catalogue alone.
pub move-IsDone :
    (a : MoveArgs) (db : TenantDb) {db' : TenantDb}
    → move a db ≡ ok db'
    → IsDone a db' × SameCatalog db db'
unfolding move
move-IsDone a db h = move_on-IsDone a db (matching a.key a.movement_type db) refl h

-- The movements under any key and type, after a call: as before, or one new movement where there
-- was none, under the key and type of the call.
pub data Grown (a : MoveArgs) (r : Reference) (t : MovementType) (db db' : TenantDb) : Type 0 where
  kept : matching r t db' ≡ matching r t db → Grown a r t db db'
  added :
      (m : StockMovement)
      → r ≡ a.key
      → t ≡ a.movement_type
      → matching r t db ≡ []
      → matching r t db' ≡ m ∷ []
      → Grown a r t db db'

is_movement-eq :
    (a : MoveArgs) (s : ProductStock) (r : Reference) (t : MovementType)
    → is_movement r t (movement_of a s) ≡ true
    → (r ≡ a.key) × (t ≡ a.movement_type)
unfolding movement_of
is_movement-eq a s r t h = (
  ground (arith, reference_eq_iff r a.key),
  ground (arith, movement_type_eq_iff t a.movement_type),
)

move_on-Grown :
    (a : MoveArgs) (db : TenantDb) (ms : List StockMovement) {db' : TenantDb}
    → matching a.key a.movement_type db ≡ ms
    → move_on a ms (find_stock (stock_key a) db) db ≡ ok db'
    → (r : Reference) (t : MovementType) → Grown a r t db db'
move_on-Grown a db (m ∷ ms) e h r t = kept (rw (replay-eq-ok a m db h).0)
move_on-Grown a db [] e h r t =
    let s = stock_or_new (stock_key a) a.product.reorder_level (find_stock (stock_key a) db) in
    let (written, _) = apply_move-writes a s db h in
    elim (Bool-cases (is_movement r t (movement_of a s))) [
      | inl hit ↦
          let (same_key, same_type) = is_movement-eq a s r t hit in
          let was_empty : matching r t db ≡ [] = rw (same_key, same_type) e in
          added (movement_of a s) same_key same_type was_empty (rw (written, hit, was_empty))
      | inr miss ↦ kept (rw (written, miss))
    ]

pub move-Grown :
    (a : MoveArgs) (db : TenantDb) {db' : TenantDb}
    → move a db ≡ ok db'
    → (r : Reference) (t : MovementType) → Grown a r t db db'
unfolding move
move-Grown a db h r t = move_on-Grown a db (matching a.key a.movement_type db) refl h r t

-- A call that succeeded can be made again: it succeeds and changes nothing.
pub move_twice :
    (a : MoveArgs) (db : TenantDb) {db' : TenantDb} → move a db ≡ ok db' → move a db' ≡ ok db'
move_twice a db {db'} h = move_again a db' (move-IsDone a db h).0
