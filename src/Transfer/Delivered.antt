-- ===== src/Transfer/Delivered.antt =====
-- The goods of a received transfer (apps/transfers/services.py).
use ghazatech_inventory_be.Prelude.{
  ℕ, ◌≡◌, sym, ap, ◌∙◌, inl, inr, Bool, true, false, List, [], ◌∷◌, Bool-cases,
}
use ghazatech_inventory_be.Prelude.Int.{pos}
use ghazatech_inventory_be.Prelude.Result.{ok, >>=-eq-ok}
use ghazatech_inventory_be.Transfer.Store.{
  inward, outward, transfer_in, transfer_out, Reference, MovementType, StockMovement, TenantDb,
  matching,
}
use ghazatech_inventory_be.Transfer.Move.{MoveArgs}
use ghazatech_inventory_be.Transfer.MoveOnce.{move-IsDone, Grown, kept, added, move-Grown}
use ghazatech_inventory_be.Transfer.World.{
  update_self, StockTransfer, StockTransferItem, Alias, alias_of, alias_eq, alias_eq_iff, Tenants,
  World,
}
use ghazatech_inventory_be.Transfer.Dispatch.{item_key}
use ghazatech_inventory_be.Transfer.Receive.{
  receive_args, is_sent, receive_item, receive_items, receive,
}
use ghazatech_inventory_be.Transfer.Receipt.{receive_item-eq-ok, receive-eq-ok}

module _ (t : StockTransfer) where
  -- The receipt of the item is recorded in the quantity dispatched.
  pub record IsReceived (item : StockTransferItem) (db : TenantDb) : Type 0 where
    pub movement : StockMovement
    pub rest : List StockMovement
    pub recorded : matching (item_key t item inward) transfer_in db ≡ movement ∷ rest
    pub branch : movement.key.branch_id ≡ t.to_branch.pk
    pub quantity : movement.quantity ≡ pos item.dispatched_quantity

  -- A call of `_move` keeps what is recorded of an item.
  IsReceived-kept :
      (item : StockTransferItem) (a : MoveArgs) {db db' : TenantDb}
      → Grown a (item_key t item inward) transfer_in db db'
      → IsReceived item db
      → IsReceived item db'
  IsReceived-kept item a (kept e) d = record {
    movement = d.movement;
    rest = d.rest;
    recorded = e ∙ d.recorded;
    branch = d.branch;
    quantity = d.quantity;
  }
  IsReceived-kept item a (added m _ _ was_empty _) d = let e = d.recorded in cc

  is_sent-kept :
      (item : StockTransferItem) (a : MoveArgs) {db db' : TenantDb}
      → Grown a (item_key t item outward) transfer_out db db'
      → is_sent t item db ≡ true
      → is_sent t item db' ≡ true
  is_sent-kept item a (kept e) h = rw e h
  is_sent-kept item a (added m _ _ was_empty _) h = let no : false ≡ true = rw was_empty at h in cc

  same_movements :
      (r : Reference) (k : MovementType) (db db' : TenantDb)
      → db.movements ≡ db'.movements
      → matching r k db ≡ matching r k db'
  same_movements r k db db' e = rw e

  Grown-from :
      (a : MoveArgs) (r : Reference) (k : MovementType) (before db db' : TenantDb)
      → db.movements ≡ before.movements
      → Grown a r k db db'
      → Grown a r k before db'
  Grown-from a r k before db db' e (kept g) = kept (g ∙ same_movements r k db before e)
  Grown-from a r k before db db' e (added m i j was_empty g) =
      added m i j (sym (same_movements r k db before e) ∙ was_empty) g

  module _ (stored : ℕ → Bool) (user : ℕ) (src dst : Alias) where
    -- A round receives its item, and keeps what other rounds did.
    receive_item-delivers :
        (item : StockTransferItem) (tenants tenants' : Tenants)
        → receive_item stored t user src dst item tenants ≡ ok tenants'
        → IsReceived item (tenants' dst)
          × ((other : StockTransferItem)
              → IsReceived other (tenants dst)
              → IsReceived other (tenants' dst))
          × ((other : StockTransferItem)
              → is_sent t other (tenants src) ≡ true
              → is_sent t other (tenants' src) ≡ true)
    receive_item-delivers item tenants tenants' h =
        let (product, variant, db, db', sent, _, m, moved, written) =
          receive_item-eq-ok stored t user src dst item tenants h in
        let a = receive_args t user item product variant in
        let (done, _) = move-IsDone a db moved in
        let at_dst : tenants' dst ≡ db' =
          ap (λ (f : Tenants). f dst) written ∙ update_self tenants dst db' in
        let grown = λ (r : Reference) (k : MovementType).
          Grown-from a r k (tenants dst) db db' m (move-Grown a db moved r k) in
        let other_sent : (other : StockTransferItem)
            → is_sent t other (tenants src) ≡ true
            → is_sent t other (tenants' src) ≡ true =
          λ other s. elim (Bool-cases (alias_eq src dst)) [
            | inl same ↦
                let e = (alias_eq_iff src dst).0 same in
                rw (e, at_dst)
                  (is_sent-kept other a (grown (item_key t other outward) transfer_out) (rw e at s))
            | inr differ ↦ rw (written, differ) s
          ] in
        (
          rw at_dst (record {
            movement = done.first;
            rest = done.rest;
            recorded = done.found;
            branch = done.same.branch;
            quantity = done.same.quantity;
          }),
          λ other d.
              rw at_dst (IsReceived-kept other a (grown (item_key t other inward) transfer_in) d),
          other_sent,
        )

    -- The item has left the source and reached the destination.
    abbrev pub IsDelivered : StockTransferItem → Tenants → Type 0
    IsDelivered item tenants = (is_sent t item (tenants src) ≡ true) × IsReceived item (tenants dst)

    abbrev pub AllDelivered : List StockTransferItem → Tenants → Type 0
    AllDelivered [] tenants = Unit
    AllDelivered (item ∷ items) tenants = IsDelivered item tenants × AllDelivered items tenants

    receive_items-delivers :
        (items : List StockTransferItem) (tenants tenants' : Tenants)
        → receive_items stored t user src dst items tenants ≡ ok tenants'
        → AllDelivered items tenants'
          × ((other : StockTransferItem)
              → IsReceived other (tenants dst)
              → IsReceived other (tenants' dst))
          × ((other : StockTransferItem)
              → is_sent t other (tenants src) ≡ true
              → is_sent t other (tenants' src) ≡ true)
    unfolding receive_items
    receive_items-delivers [] tenants tenants' h =
        let e : tenants ≡ tenants' = cc in (tt, λ other d. rw e at d, λ other s. rw e at s)
    receive_items-delivers (item ∷ items) tenants tenants' h =
        let (mid, first, rest) = >>=-eq-ok (receive_item stored t user src dst item tenants) _ h in
        let (_, _, _, _, sent, _, _, _, _) =
          receive_item-eq-ok stored t user src dst item tenants first in
        let (got, keep, keep_sent) = receive_item-delivers item tenants mid first in
        let (all, keep', keep_sent') = receive_items-delivers items mid tenants' rest in
        (
          ((keep_sent' item (keep_sent item sent), keep' item got), all),
          λ other d. keep' other (keep other d),
          λ other s. keep_sent' other (keep_sent other s),
        )

-- After a successful receipt every item is recorded as sent by the source and as received by the
-- destination branch, in the one quantity that was dispatched.
pub receive-delivers :
    (stored : ℕ → Bool) (user : ℕ) (w w' : World)
    → receive stored user w ≡ ok w'
    → (src dst : Alias) × (alias_of w.transfer.from_branch ≡ ok src)
      × (alias_of w.transfer.to_branch ≡ ok dst)
      × AllDelivered w.transfer stored user src dst w.items w'.tenants
receive-delivers stored user w w' h =
    let (src, dst, from, to, _, looped, _) = receive-eq-ok stored user w h in
    (
      src,
      dst,
      from,
      to,
      (receive_items-delivers w.transfer stored user src dst w.items w.tenants w'.tenants looped).0,
    )
