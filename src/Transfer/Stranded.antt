-- ===== src/Transfer/Stranded.antt =====
-- A transfer that is cancelled after an interrupted dispatch (apps/transfers/views.py, services.py):
-- its goods have left the source, and no later action moves any stock for it.
use ghazatech_inventory_be.Prelude.{
  ℕ, ◌≡◌, ◌≢◌, ◌∙◌, ◌⊎◌, ◌&&◌, inl, inr, refl, ap, Bool, true, false, not, List, [], ◌∷◌, ◌==◌,
  Bool-cases,
}
use ghazatech_inventory_be.Prelude.Int.{pos, neg, ◌+ℤ◌}
use ghazatech_inventory_be.Prelude.Result.{ok, raise_if, >>=-eq-ok}
use ghazatech_inventory_be.Transfer.Store.{
  outward, transfer_out, StockKey, StockMovement, TenantDb, matching,
}
use ghazatech_inventory_be.Transfer.Move.{wrong_branch}
use ghazatech_inventory_be.Transfer.MoveLaws.{balance, moved}
use ghazatech_inventory_be.Transfer.World.{
  Status, approved, cancelled, StockTransfer, StockTransferItem, Alias, alias_of, alias_eq, Tenants,
  update, update_self, World,
}
use ghazatech_inventory_be.Transfer.Dispatch.{
  can_dispatch, dispatch, dispatch_tenant, item_key, quantity_of,
}
use ghazatech_inventory_be.Transfer.Receive.{can_receive, receive_tenant}
use ghazatech_inventory_be.Transfer.RetryAll.{
  AllUnique, AllDispatched, dispatch_items-AllDispatched, dispatch_tenant-eq-ok,
}
use ghazatech_inventory_be.Transfer.Receipt.{receive-eq-ok, receive_tenant-eq-ok}
use ghazatech_inventory_be.Transfer.Views.{
  dispatch_transfer, receive_transfer, cancel_transfer, require_physical_branch, is_admin_user,
  is_destination,
}
use ghazatech_inventory_be.Transfer.Lifecycle.{
  Step, approve, dispatch_all, receive_all, cancel, interrupted, interrupted_receipt, Reach, here,
  next, Edge, stay, approve_request, send, arrive, drop, approve-Edge, cancel-Edge, Step-Edge,
  interrupted-Accounted,
}

-- The quantity of the item left the tenant, on record.
abbrev pub IsTaken : StockTransfer → StockTransferItem → TenantDb → Type 0
IsTaken t item db =
    ((quantity_of item == 0) ≡ false)
    × (m : StockMovement) × (matching (item_key t item outward) transfer_out db ≡ m ∷ [])
    × (m.quantity ≡ neg (pos (quantity_of item)))

abbrev pub AllTaken : StockTransfer → List StockTransferItem → TenantDb → Type 0
AllTaken t [] db = Unit
AllTaken t (item ∷ items) db = IsTaken t item db × AllTaken t items db

AllDispatched-AllTaken :
    (t : StockTransfer) (user : ℕ) (items : List StockTransferItem) (db : TenantDb)
    → AllDispatched t user items db
    → AllTaken t items db
AllDispatched-AllTaken t user [] db done = tt
AllDispatched-AllTaken t user (item ∷ items) db (d, ds) = (
  (d.positive, d.movement, d.recorded, d.same.quantity),
  AllDispatched-AllTaken t user items db ds,
)

Edge-cancelled : {s s' : Status} → Edge s s' → s ≡ cancelled → s' ≡ cancelled
Edge-cancelled (stay s) e = e
Edge-cancelled approve_request e = cc
Edge-cancelled send e = cc
Edge-cancelled arrive e = cc
Edge-cancelled (drop s a b c) e = refl

no_dispatch :
    (user : ℕ) (w : World) {tenants : Tenants}
    → w.transfer.status ≡ cancelled
    → dispatch_tenant user w ≢ ok tenants
no_dispatch user w closed h =
    let (_, _, open_status, _, _, _, _) = dispatch_tenant-eq-ok user w h in
    let shut : can_dispatch w.transfer.status ≡ false = ap can_dispatch closed in cc

no_receipt :
    (stored : ℕ → Bool) (user : ℕ) (w : World) {tenants : Tenants}
    → w.transfer.status ≡ cancelled
    → receive_tenant stored user w ≢ ok tenants
no_receipt stored user w closed h =
    let (_, _, _, _, open_status, _) = receive_tenant-eq-ok stored user w h in
    let shut : can_receive w.transfer.status ≡ false = ap can_receive closed in cc

-- An action on a cancelled transfer moves no stock.
Step-still :
    (stored : ℕ → Bool) {w w' : World}
    → Step stored w w'
    → w.transfer.status ≡ cancelled
    → w'.tenants ≡ w.tenants
unfolding dispatch_transfer dispatch receive_transfer
Step-still stored {w} {w'} (approve user h) closed = (approve-Edge user w w' h).1
Step-still stored {w} {w'} (cancel h) closed = (cancel-Edge w w' h).1
Step-still stored {w} {w'} (dispatch_all user h) closed =
    let (_, _, sent) = >>=-eq-ok (require_physical_branch w.transfer.from_branch) _ h in
    let (tenants, part, _) = >>=-eq-ok (dispatch_tenant user.pk w) _ sent in
    absurd (no_dispatch user.pk w closed part)
Step-still stored {w} {w'} (receive_all user active h) closed =
    let (_, _, h1) = >>=-eq-ok (require_physical_branch w.transfer.to_branch) _ h in
    let (_, _, got) =
      >>=-eq-ok
        (raise_if (not (is_admin_user user) && not (is_destination active w.transfer)) wrong_branch)
        _ h1 in
    let (_, _, _, _, open_status, _, _) = receive-eq-ok stored user.pk w got in
    let shut : can_receive w.transfer.status ≡ false = ap can_receive closed in cc
Step-still stored {w} {w'} (interrupted user tenants h e) closed =
    absurd (no_dispatch user w closed h)
Step-still stored {w} {w'} (interrupted_receipt user tenants h e) closed =
    absurd (no_receipt stored user w closed h)

-- A cancelled transfer stays cancelled, and moves no stock.
Reach-still :
    (stored : ℕ → Bool) {w w' : World}
    → Reach stored w w'
    → w.transfer.status ≡ cancelled
    → (w'.transfer.status ≡ cancelled) × (w'.tenants ≡ w.tenants)
Reach-still stored here closed = (closed, refl)
Reach-still stored (next r st) closed =
    let (still, same) = Reach-still stored r closed in
    (Edge-cancelled (Step-Edge stored st).0 still, Step-still stored st still ∙ same)

-- The transfer after the tenant's part of a dispatch and a cancellation.
abbrev pub stranded : World → Tenants → World
stranded w tenants = record w {
  transfer = record w.transfer { status = cancelled };
  tenants = tenants;
}

update_other :
    (tenants : Tenants) (a : Alias) (db : TenantDb) (b : Alias)
    → (alias_eq b a ≡ true) ⊎ (update tenants a db b ≡ tenants b)
update_other tenants a db b = elim (Bool-cases (alias_eq b a)) [
  | inl same ↦ inl same
  | inr differ ↦ inr (rw differ refl)
]

-- Where the dispatch of an approved transfer is interrupted after the tenant's commit, and no tenant
-- recorded an item's key before more than once, the transfer can be cancelled. Whatever is done to it
-- after that, it stays cancelled; the source tenant has recorded the quantity of every item as sent
-- and its balances have changed by exactly what it recorded since; and no other tenant has changed.
pub interrupted_cancel :
    (stored : ℕ → Bool) (user : ℕ) (w : World) {tenants : Tenants} {later : World}
    → w.transfer.status ≡ approved
    → ((a : Alias) → AllUnique w.transfer user w.items (w.tenants a))
    → dispatch_tenant user w ≡ ok tenants
    → Reach stored (stranded w tenants) later
    → (src : Alias) × (alias_of w.transfer.from_branch ≡ ok src)
      × (cancel_transfer (record w { tenants = tenants }) ≡ ok (stranded w tenants))
      × (later.transfer.status ≡ cancelled)
      × AllTaken w.transfer w.items (later.tenants src)
      × ((k : StockKey)
          → balance k (later.tenants src) +ℤ moved k (w.tenants src).movements
            ≡ balance k (w.tenants src) +ℤ moved k (later.tenants src).movements)
      × ((b : Alias) → (alias_eq b src ≡ true) ⊎ (later.tenants b ≡ w.tenants b))
unfolding cancel_transfer
interrupted_cancel stored user w {tenants} {later} fresh unique h r =
    let (src, db, _, named, _, looped, written) = dispatch_tenant-eq-ok user w h in
    let (still, same) = Reach-still stored r refl in
    let after = same ∙ written in
    let at_src : later.tenants src ≡ db =
      ap (λ (f : Tenants). f src) after ∙ update_self w.tenants src db in
    let done =
      dispatch_items-AllDispatched w.transfer user w.items (w.tenants src) (unique src) looped in
    (
      src,
      named,
      rw fresh refl,
      still,
      rw at_src (AllDispatched-AllTaken w.transfer user w.items db done),
      λ k. rw same ((interrupted-Accounted user w tenants h src).ledger k),
      λ b. rw after (update_other w.tenants src db b),
    )
