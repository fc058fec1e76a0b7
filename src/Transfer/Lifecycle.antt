-- ===== src/Transfer/Lifecycle.antt =====
-- The life of a transfer under any sequence of actions (apps/transfers/views.py, services.py), with
-- dispatches and receipts whose shared transaction is lost after the tenant's was committed.
use ghazatech_inventory_be.Prelude.{
  ℕ, ◌≡◌, ◌≢◌, map, ◌&&◌, ◌≤◌, Bool, true, not, Option, some, arith,
}
use ghazatech_inventory_be.Prelude.Result.{ok, raise_if, >>=-eq-ok}
use ghazatech_inventory_be.Transfer.Move.{wrong_branch}
use ghazatech_inventory_be.Transfer.World.{
  Branch, Status, requested, approved, in_transit, received, cancelled, dispatched, Alias, Tenants,
  World,
}
use ghazatech_inventory_be.Transfer.Dispatch.{
  dispatched_item, can_dispatch, dispatch_tenant, dispatch,
}
use ghazatech_inventory_be.Transfer.Receive.{can_receive, receive_tenant, received_transfer}
use ghazatech_inventory_be.Transfer.RetryAll.{dispatch_tenant-eq-ok}
use ghazatech_inventory_be.Transfer.Receipt.{
  receive-eq-ok, receive-Accounted, receive_tenant-Accounted,
}
use ghazatech_inventory_be.Transfer.Accounted.{
  Accounted, Accounted-refl, Accounted-trans, dispatch-Accounted,
}
use ghazatech_inventory_be.Transfer.MoveLaws.{balance, moved, AllCovered}
use ghazatech_inventory_be.Transfer.Store.{StockKey}
use ghazatech_inventory_be.Prelude.Int.{◌+ℤ◌}
use ghazatech_inventory_be.Transfer.Views.{
  User, approve_transfer, dispatch_transfer, receive_transfer, cancel_transfer,
  require_physical_branch, is_admin_user, is_destination,
}

module _ (stored : ℕ → Bool) where
  -- One successful action on a transfer.
  pub data Step (w w' : World) : Type 0 where
    approve : (user : User) → approve_transfer user w ≡ ok w' → Step w w'
    dispatch_all : (user : User) → dispatch_transfer user w ≡ ok w' → Step w w'
    receive_all :
        (user : User) (active : Option Branch)
        → receive_transfer stored user active w ≡ ok w'
        → Step w w'
    cancel : cancel_transfer w ≡ ok w' → Step w w'
    -- The tenant's part of a dispatch is committed, the rest is lost.
    interrupted :
        (user : ℕ) (tenants : Tenants)
        → dispatch_tenant user w ≡ ok tenants
        → w' ≡ record w { tenants = tenants }
        → Step w w'
    -- The same of a receipt.
    interrupted_receipt :
        (user : ℕ) (tenants : Tenants)
        → receive_tenant stored user w ≡ ok tenants
        → w' ≡ record w { tenants = tenants }
        → Step w w'

  pub data Reach (w : World) : World → Type 0 where
    here : Reach w w
    next : {u v : World} → Reach w u → Step u v → Reach w v

-- The edges of the state diagram, and staying.
pub data Edge : Status → Status → Type 0 where
  stay : (s : Status) → Edge s s
  approve_request : Edge requested approved
  send : Edge approved in_transit
  arrive : Edge in_transit received
  drop : (s : Status) → s ≢ in_transit → s ≢ dispatched → s ≢ received → Edge s cancelled

ruleset edges = (stay, approve_request, send, arrive, drop)

pub approve-Edge :
    (user : User) (w w' : World)
    → approve_transfer user w ≡ ok w'
    → Edge w.transfer.status w'.transfer.status × (w'.tenants ≡ w.tenants)
unfolding approve_transfer
approve-Edge user w w' h = (grind (arith, edges), ground arith)

pub cancel-Edge :
    (w w' : World)
    → cancel_transfer w ≡ ok w'
    → Edge w.transfer.status w'.transfer.status × (w'.tenants ≡ w.tenants)
unfolding cancel_transfer
cancel-Edge w w' h = (grind (arith, edges), ground arith)

send-Edge : (s : Status) → can_dispatch s ≡ true → Edge s in_transit
send-Edge s h = grind (arith, edges)

arrive-Edge : (s : Status) → can_receive s ≡ true → Edge s received
arrive-Edge s h = grind (arith, edges)

dispatch-Edge :
    (user : User) (w w' : World)
    → dispatch_transfer user w ≡ ok w'
    → Edge w.transfer.status w'.transfer.status
      × ((b : Alias) → Accounted (w.tenants b) (w'.tenants b))
unfolding dispatch_transfer
dispatch-Edge user w w' h =
    let (_, _, sent) = >>=-eq-ok (require_physical_branch w.transfer.from_branch) _ h in
    let (tenants, part, built) = >>=-eq-ok (dispatch_tenant user.pk w) _ sent in
    let (_, _, open_status, _, _, _, _) = dispatch_tenant-eq-ok user.pk w part in
    let e : w'.transfer.status ≡ in_transit = ground arith in
    (rw e (send-Edge w.transfer.status open_status), λ b. dispatch-Accounted user.pk w sent b)

receive-Edge :
    (stored : ℕ → Bool) (user : User) (active : Option Branch) (w w' : World)
    → receive_transfer stored user active w ≡ ok w'
    → Edge w.transfer.status w'.transfer.status
      × ((b : Alias) → Accounted (w.tenants b) (w'.tenants b))
unfolding receive_transfer received_transfer
receive-Edge stored user active w w' h =
    let (_, _, h1) = >>=-eq-ok (require_physical_branch w.transfer.to_branch) _ h in
    let (_, _, got) =
      >>=-eq-ok
        (raise_if (not (is_admin_user user) && not (is_destination active w.transfer)) wrong_branch)
        _ h1 in
    let (_, _, _, _, open_status, _, e) = receive-eq-ok stored user.pk w got in
    (
      rw e (arrive-Edge w.transfer.status open_status),
      λ b. receive-Accounted stored user.pk w got b,
    )

pub interrupted-Accounted :
    (user : ℕ) (w : World) (tenants : Tenants)
    → dispatch_tenant user w ≡ ok tenants
    → (b : Alias) → Accounted (w.tenants b) (tenants b)
unfolding dispatch
interrupted-Accounted user w tenants h b =
    dispatch-Accounted user w
      {w' = record {
        transfer = record w.transfer { status = in_transit; dispatched_by = some user };
        items = map dispatched_item w.items;
        tenants = tenants;
      }}
      (rw h) b

pub Step-Edge :
    (stored : ℕ → Bool) {w w' : World}
    → Step stored w w'
    → Edge w.transfer.status w'.transfer.status
      × ((b : Alias) → Accounted (w.tenants b) (w'.tenants b))
Step-Edge stored {w} {w'} (approve user h) =
    let (e, same) = approve-Edge user w w' h in (e, λ b. rw same (Accounted-refl (w.tenants b)))
Step-Edge stored {w} {w'} (dispatch_all user h) = dispatch-Edge user w w' h
Step-Edge stored {w} {w'} (receive_all user active h) = receive-Edge stored user active w w' h
Step-Edge stored {w} {w'} (cancel h) =
    let (e, same) = cancel-Edge w w' h in (e, λ b. rw same (Accounted-refl (w.tenants b)))
Step-Edge stored {w} {w'} (interrupted user tenants h e) =
    rw e (stay w.transfer.status, λ b. interrupted-Accounted user w tenants h b)
Step-Edge stored {w} {w'} (interrupted_receipt user tenants h e) =
    rw e (stay w.transfer.status, λ b. receive_tenant-Accounted stored user w h b)

Reach-Accounted :
    (stored : ℕ → Bool) {w w' : World}
    → Reach stored w w'
    → (b : Alias) → Accounted (w.tenants b) (w'.tenants b)
Reach-Accounted stored {w} here b = Accounted-refl (w.tenants b)
Reach-Accounted stored (next r st) b =
    Accounted-trans (Reach-Accounted stored r b) ((Step-Edge stored st).1 b)

-- Whatever actions and interruptions a transfer goes through, in every tenant each balance has changed
-- by exactly the movements recorded since.
pub Reach-ledger :
    (stored : ℕ → Bool) {w w' : World}
    → Reach stored w w'
    → (b : Alias) (k : StockKey)
    → balance k (w'.tenants b) +ℤ moved k (w.tenants b).movements
      ≡ balance k (w.tenants b) +ℤ moved k (w'.tenants b).movements
Reach-ledger stored r b k = (Reach-Accounted stored r b).ledger k

-- Where every stock row of a tenant covers its reservation, it still does after any actions and
-- interruptions of a transfer.
pub Reach-AllCovered :
    (stored : ℕ → Bool) {w w' : World}
    → Reach stored w w'
    → (b : Alias) → AllCovered (w.tenants b).stocks
    → AllCovered (w'.tenants b).stocks
Reach-AllCovered stored r b c = (Reach-Accounted stored r b).covered c

-- How far a transfer has come.
abbrev pub rank : Status → ℕ
rank Status.in_transit = 1
rank Status.dispatched = 1
rank Status.received = 2
rank _ = 0

Edge-rank : {s s' : Status} → Edge s s' → rank s ≤ rank s'
Edge-rank (stay s) = omega arith
Edge-rank approve_request = omega arith
Edge-rank send = omega arith
Edge-rank arrive = omega arith
Edge-rank (drop s a b c) = ground arith

-- The rank of a transfer's status (0 before the goods left, 1 while they are on the way, 2 once they
-- are received) never falls, whatever actions and interruptions it goes through.
pub Reach-rank :
    (stored : ℕ → Bool) {w w' : World}
    → Reach stored w w'
    → rank w.transfer.status ≤ rank w'.transfer.status
Reach-rank stored here = omega arith
Reach-rank stored (next {u} {v} r st) =
    omega (arith, Reach-rank stored r, Edge-rank (Step-Edge stored st).0)
