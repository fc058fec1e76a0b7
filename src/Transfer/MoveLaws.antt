-- ===== src/Transfer/MoveLaws.antt =====
-- What `_move` does to a tenant's balances and reservations (apps/transfers/services.py).
use ghazatech_inventory_be.Prelude.{
  ℕ, ◌≤◌, ◌≡◌, ap, sym, ◌∙◌, find-passes, ◌⊎◌, inl, inr, refl, Bool, false, Option, none, some,
  List, [], ◌∷◌, find, put, find-put_self, find-put_other, if◌then◌else◌, arith, Bool-cases,
}
use ghazatech_inventory_be.Prelude.Int.{ℤ, pos, ◌+ℤ◌, pos_part, int_laws, ◌≤ℤ◌}
use ghazatech_inventory_be.Prelude.Result.{ok}
use ghazatech_inventory_be.Transfer.Store.{
  StockKey, ProductStock, StockMovement, TenantDb, matching, has_key, key_eq, find_stock,
}
use ghazatech_inventory_be.Transfer.Move.{
  MoveArgs, stock_key, stock_or_new, moved_stock, movement_of, apply_move, move_on, move,
}
use ghazatech_inventory_be.Transfer.Keys.{key_eq_iff, key_eq_refl}

-- The balance of a key, 0 where it has no row.
abbrev current_of : Option ProductStock → ℕ
current_of none = 0
current_of (some s) = s.current_stock

abbrev pub balance : StockKey → TenantDb → ℤ
balance k db = pos (current_of (find_stock k db))

-- The sum of the quantities recorded for a key.
pub moved : StockKey → List StockMovement → ℤ
moved k [] = pos 0
moved k (m ∷ ms) = let rest = moved k ms in if key_eq k m.key then m.quantity +ℤ rest else rest

-- A successful application, with its parts named.
apply_move-eq-ok :
    (a : MoveArgs) (s : ProductStock) (db : TenantDb) {db' : TenantDb}
    → apply_move a s db ≡ ok db'
    → (db' ≡ record db {
      stocks = put (has_key (stock_key a)) (moved_stock a s) db.stocks;
      movements = movement_of a s ∷ db.movements;
    })
      × (pos s.reserved_stock ≤ℤ pos s.current_stock +ℤ a.quantity)
apply_move-eq-ok a s db h = ground arith

moved_stock-key : (a : MoveArgs) (s : ProductStock) → (moved_stock a s).key ≡ s.key
unfolding moved_stock
moved_stock-key a s = ground arith

moved_stock-current :
    (a : MoveArgs) (s : ProductStock)
    → (moved_stock a s).current_stock ≡ pos_part (pos s.current_stock +ℤ a.quantity)
unfolding moved_stock
moved_stock-current a s = refl

moved_stock-reserved :
    (a : MoveArgs) (s : ProductStock) → (moved_stock a s).reserved_stock ≡ s.reserved_stock
unfolding moved_stock
moved_stock-reserved a s = ground arith

movement_of-parts :
    (a : MoveArgs) (s : ProductStock)
    → let m = movement_of a s in
      (m.key ≡ stock_key a)
      × (m.quantity ≡ a.quantity)
      × (m.reference ≡ a.key)
      × (m.movement_type ≡ a.movement_type)
unfolding movement_of
movement_of-parts a s = (refl, refl, refl, refl)

-- The stock that `get_or_create` yields has the key and the balance.
stock_or_new-lem :
    (k : StockKey) (reorder : ℕ) (row : Option ProductStock)
    → ((s : ProductStock) → row ≡ some s → s.key ≡ k)
    → ((stock_or_new k reorder row).key ≡ k)
      × ((stock_or_new k reorder row).current_stock ≡ current_of row)
unfolding stock_or_new
stock_or_new-lem k reorder none h = (refl, refl)
stock_or_new-lem k reorder (some s) h = (h s refl, refl)

find_stock-key :
    (k : StockKey) (db : TenantDb) (s : ProductStock) → find_stock k db ≡ some s → s.key ≡ k
find_stock-key k db s h = sym ((key_eq_iff k s.key).0 (find-passes (has_key k) db.stocks h))

balance-put_self :
    (k : StockKey) (s : ProductStock) (db : TenantDb)
    → s.key ≡ k
    → current_of (find (has_key k) (put (has_key k) s db.stocks)) ≡ s.current_stock
balance-put_self k s db e =
    ap current_of (find-put_self (has_key k) s db.stocks (rw e (key_eq_refl k)))

balance-put_other :
    (k j : StockKey) (s : ProductStock) (db : TenantDb)
    → s.key ≡ k
    → key_eq j k ≡ false
    → find (has_key j) (put (has_key k) s db.stocks) ≡ find (has_key j) db.stocks
balance-put_other k j s db e ne =
    find-put_other (has_key k) (has_key j) s db.stocks (λ x p. rw (← (key_eq_iff k x.key).0 p) ne)
      (rw e ne)

-- A balance that covers a reservation is not negative.
covered_lem : (z : ℤ) (r : ℕ) → pos r ≤ℤ z → pos (pos_part z) ≡ z
covered_lem z r h = ground arith

moved-cons_self :
    (k : StockKey) (m : StockMovement) (ms : List StockMovement)
    → m.key ≡ k
    → moved k (m ∷ ms) ≡ m.quantity +ℤ moved k ms
unfolding moved
moved-cons_self k m ms e = rw (e, key_eq_refl k)

moved-cons_other :
    (k : StockKey) (m : StockMovement) (ms : List StockMovement)
    → key_eq k m.key ≡ false
    → moved k (m ∷ ms) ≡ moved k ms
unfolding moved
moved-cons_other k m ms e = rw e

-- One applied movement changes the balance of its key by its quantity, and no other.
apply_move_ledger :
    (a : MoveArgs) (s : ProductStock) (db : TenantDb) {db' : TenantDb}
    → s.key ≡ stock_key a
    → s.current_stock ≡ current_of (find_stock (stock_key a) db)
    → apply_move a s db ≡ ok db'
    → (k : StockKey) → balance k db' +ℤ moved k db.movements ≡ balance k db +ℤ moved k db'.movements
apply_move_ledger a s db sk sb h k =
    let (e, covered) = apply_move-eq-ok a s db h in
    let (mk, mq, _, _) = movement_of-parts a s in
    let key' = moved_stock-key a s ∙ sk in
    elim (Bool-cases (key_eq k (stock_key a))) [
      | inl same ↦
          let k_eq = (key_eq_iff k (stock_key a)).0 same in
          rw
            (
              e,
              k_eq,
              moved-cons_self (stock_key a) (movement_of a s) db.movements mk,
              mq,
              balance-put_self (stock_key a) (moved_stock a s) db key',
              moved_stock-current a s,
              covered_lem _ s.reserved_stock covered,
              ← sb,
            )
            (omega int_laws)
      | inr differ ↦ rw (
        e,
        moved-cons_other k (movement_of a s) db.movements (rw mk differ),
        balance-put_other (stock_key a) k (moved_stock a s) db key' differ,
      )
    ]

-- A successful call changes nothing, or applies the movement to the row of its key.
pub move-cases :
    (a : MoveArgs) (db : TenantDb) {db' : TenantDb}
    → move a db ≡ ok db'
    → (db' ≡ db)
      ⊎ ((s : ProductStock) × (s.key ≡ stock_key a)
          × (s.current_stock ≡ current_of (find_stock (stock_key a) db))
          × (apply_move a s db ≡ ok db'))
unfolding move
move-cases a db h = go (matching a.key a.movement_type db) h
  where
    go :
        (ms : List StockMovement) {db' : TenantDb}
        → move_on a ms (find_stock (stock_key a) db) db ≡ ok db'
        → (db' ≡ db)
          ⊎ ((s : ProductStock) × (s.key ≡ stock_key a)
              × (s.current_stock ≡ current_of (find_stock (stock_key a) db))
              × (apply_move a s db ≡ ok db'))
    go (m ∷ _) h = inl (ground arith)
    go [] h =
        let (k, c) =
          stock_or_new-lem (stock_key a) a.product.reorder_level (find_stock (stock_key a) db)
            (find_stock-key (stock_key a) db) in
        inr (
          stock_or_new (stock_key a) a.product.reorder_level (find_stock (stock_key a) db),
          k,
          c,
          h,
        )

-- Whatever a successful call does, at every key the balance and the recorded movements change by
-- the same amount.
pub move_ledger :
    (a : MoveArgs) (db : TenantDb) {db' : TenantDb}
    → move a db ≡ ok db'
    → (k : StockKey) → balance k db' +ℤ moved k db.movements ≡ balance k db +ℤ moved k db'.movements
move_ledger a db h k = elim (move-cases a db h) [
  | inl same ↦ rw same
  | inr (s, sk, sb, applied) ↦ apply_move_ledger a s db sk sb applied k
]

-- No row of a tenant reserves more than it holds.
abbrev pub AllCovered : List ProductStock → Type 0
AllCovered [] = Unit
AllCovered (s ∷ rows) = (s.reserved_stock ≤ s.current_stock) × AllCovered rows

put-AllCovered :
    (p : ProductStock → Bool) (s : ProductStock) (rows : List ProductStock)
    → s.reserved_stock ≤ s.current_stock
    → AllCovered rows
    → AllCovered (put p s rows)
put-AllCovered p s [] h c = (h, tt)
put-AllCovered p s (r ∷ rows) h c = ground (arith, put-AllCovered p s rows h c.1)

-- A successful call leaves every row covering its reservation.
pub move-AllCovered :
    (a : MoveArgs) (db : TenantDb) {db' : TenantDb}
    → move a db ≡ ok db'
    → AllCovered db.stocks
    → AllCovered db'.stocks
move-AllCovered a db h c = elim (move-cases a db h) [
  | inl same ↦ rw same c
  | inr (s, sk, sb, applied) ↦
      let (e, covered) = apply_move-eq-ok a s db applied in
      rw e (
        put-AllCovered (has_key (stock_key a)) (moved_stock a s) db.stocks
          (rw (moved_stock-current a s, moved_stock-reserved a s) (ground arith)) c)
]
