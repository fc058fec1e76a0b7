-- ===== src/Transfer/Accounted.antt =====
-- Stock accounting over whole operations of apps/transfers/services.py.
use ghazatech_inventory_be.Prelude.{ℕ, ◌≡◌, refl, ap, inl, inr, List, [], ◌∷◌, arith, Bool-cases}
use ghazatech_inventory_be.Prelude.Int.{ℤ, pos_part, neg_part, ◌+ℤ◌, int_laws}
use ghazatech_inventory_be.Prelude.Result.{ok, >>=-eq-ok}
use ghazatech_inventory_be.Transfer.Store.{StockKey, TenantDb}
use ghazatech_inventory_be.Transfer.Move.{MoveArgs, move}
use ghazatech_inventory_be.Transfer.MoveLaws.{
  balance, moved, move_ledger, AllCovered, move-AllCovered,
}
use ghazatech_inventory_be.Transfer.World.{
  StockTransfer, StockTransferItem, Alias, alias_eq, alias_eq_iff, Tenants, update, World,
}
use ghazatech_inventory_be.Transfer.Dispatch.{
  dispatch_items, dispatch_tenant, dispatch_item, dispatch_args, dispatch,
}
use ghazatech_inventory_be.Transfer.Retry.{dispatch_item-eq-ok}
use ghazatech_inventory_be.Transfer.RetryAll.{dispatch_tenant-eq-ok}

-- Between two states of a tenant, every balance changed by what the movements that were added say,
-- and rows that cover their reservations still do.
pub record Accounted (db db' : TenantDb) : Type 0 where
  pub ledger :
      (k : StockKey) → balance k db' +ℤ moved k db.movements ≡ balance k db +ℤ moved k db'.movements
  pub covered : AllCovered db.stocks → AllCovered db'.stocks

pub Accounted-refl : (db : TenantDb) → Accounted db db
Accounted-refl db = record { ledger = λ k. refl; covered = λ c. c }

ledger_trans : (a b c x y z : ℤ) → b +ℤ x ≡ a +ℤ y → c +ℤ y ≡ b +ℤ z → c +ℤ x ≡ a +ℤ z
ledger_trans a b c x y z h k =
    omega (int_laws, ap pos_part h, ap neg_part h, ap pos_part k, ap neg_part k)

pub Accounted-trans : {a b c : TenantDb} → Accounted a b → Accounted b c → Accounted a c
Accounted-trans {a} {b} {c} h k = record {
  ledger = λ q.
      ledger_trans (balance q a) (balance q b) (balance q c) (moved q a.movements)
        (moved q b.movements) (moved q c.movements) (h.ledger q) (k.ledger q);
  covered = λ x. k.covered (h.covered x);
}

pub move-Accounted :
    (a : MoveArgs) (db : TenantDb) {db' : TenantDb} → move a db ≡ ok db' → Accounted db db'
move-Accounted a db h = record {
  ledger = λ k. move_ledger a db h k;
  covered = λ c. move-AllCovered a db h c;
}

-- A change of the catalogue alone.
pub same_stock :
    (db db' : TenantDb) → db'.stocks ≡ db.stocks → db'.movements ≡ db.movements → Accounted db db'
same_stock db db' s m = record { ledger = λ k. rw (s, m); covered = λ c. rw s c }

dispatch_items-Accounted :
    (t : StockTransfer) (user : ℕ) (items : List StockTransferItem) (db : TenantDb) {db' : TenantDb}
    → dispatch_items t user items db ≡ ok db'
    → Accounted db db'
unfolding dispatch_items
dispatch_items-Accounted t user [] db {db'} h =
    let e : db ≡ db' = cc in rw (← e) (Accounted-refl db)
dispatch_items-Accounted t user (item ∷ items) db h =
    let (mid, first, rest) = >>=-eq-ok (dispatch_item t user item db) _ h in
    let (source, variant, w, _, _, moved) = dispatch_item-eq-ok t user item db first in
    Accounted-trans (move-Accounted (dispatch_args t user item source variant w) db moved)
      (dispatch_items-Accounted t user items mid rest)

pub update-Accounted :
    (tenants : Tenants) (a : Alias) (db : TenantDb)
    → Accounted (tenants a) db
    → (b : Alias) → Accounted (tenants b) (update tenants a db b)
update-Accounted tenants a db h b = elim (Bool-cases (alias_eq b a)) [
  | inl same ↦ rw (same, (alias_eq_iff b a).0 same) h
  | inr differ ↦ rw differ (Accounted-refl (tenants b))
]

-- After a successful dispatch every tenant's balances changed by the movements recorded there.
pub dispatch-Accounted :
    (user : ℕ) (w : World) {w' : World}
    → dispatch user w ≡ ok w'
    → (b : Alias) → Accounted (w.tenants b) (w'.tenants b)
unfolding dispatch
dispatch-Accounted user w {w'} h b =
    let (tenants, sent, built) = >>=-eq-ok (dispatch_tenant user w) _ h in
    let (a, db, _, _, _, looped, written) = dispatch_tenant-eq-ok user w sent in
    let e : w'.tenants ≡ tenants = ground arith in
    rw (e, written)
      (update-Accounted w.tenants a db
        (dispatch_items-Accounted w.transfer user w.items (w.tenants a) looped) b)
