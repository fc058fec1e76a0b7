-- ===== src/Transfer/Shipped.antt =====
-- What holds of a transfer once its goods have left (apps/transfers/views.py).
use ghazatech_inventory_be.Prelude.{
  ℕ, ◌≤◌, ◌≡◌, ◌∙◌, refl, ap, Bool, true, not, ◌&&◌, Option, arith,
}
use ghazatech_inventory_be.Prelude.Result.{ok, raise_if, >>=-eq-ok}
use ghazatech_inventory_be.Transfer.Move.{wrong_branch}
use ghazatech_inventory_be.Transfer.World.{Branch, StockTransfer, World}
use ghazatech_inventory_be.Transfer.Dispatch.{dispatch, dispatch_tenant}
use ghazatech_inventory_be.Transfer.Receive.{received_transfer}
use ghazatech_inventory_be.Transfer.Receipt.{receive-eq-ok}
use ghazatech_inventory_be.Transfer.Views.{
  User, is_admin_user, is_destination, require_physical_branch, approve_transfer, dispatch_transfer,
  receive_transfer, cancel_transfer, is_visible,
}
use ghazatech_inventory_be.Transfer.Lifecycle.{
  Step, approve, dispatch_all, receive_all, cancel, interrupted, interrupted_receipt, Reach, here,
  next, rank, Reach-rank,
}

-- The branches of a transfer.
abbrev branches : World → Branch × Branch
branches w = (w.transfer.from_branch, w.transfer.to_branch)

approve-branches :
    (user : User) (w w' : World) → approve_transfer user w ≡ ok w' → branches w' ≡ branches w
unfolding approve_transfer
approve-branches user w w' h = ground arith

cancel-branches : (w w' : World) → cancel_transfer w ≡ ok w' → branches w' ≡ branches w
unfolding cancel_transfer
cancel-branches w w' h = ground arith

dispatch-branches :
    (user : User) (w w' : World) → dispatch_transfer user w ≡ ok w' → branches w' ≡ branches w
unfolding dispatch_transfer dispatch
dispatch-branches user w w' h =
    let (_, _, sent) = >>=-eq-ok (require_physical_branch w.transfer.from_branch) _ h in
    let (tenants, _, built) = >>=-eq-ok (dispatch_tenant user.pk w) _ sent in ground arith

receive-branches :
    (stored : ℕ → Bool) (user : User) (active : Option Branch) (w w' : World)
    → receive_transfer stored user active w ≡ ok w'
    → branches w' ≡ branches w
unfolding receive_transfer received_transfer
receive-branches stored user active w w' h =
    let (_, _, h1) = >>=-eq-ok (require_physical_branch w.transfer.to_branch) _ h in
    let (_, _, got) =
      >>=-eq-ok
        (raise_if (not (is_admin_user user) && not (is_destination active w.transfer)) wrong_branch)
        _ h1 in
    let (_, _, _, _, _, _, e) = receive-eq-ok stored user.pk w got in rw e

Step-branches : (stored : ℕ → Bool) {w w' : World} → Step stored w w' → branches w' ≡ branches w
Step-branches stored {w} {w'} (approve user h) = approve-branches user w w' h
Step-branches stored {w} {w'} (dispatch_all user h) = dispatch-branches user w w' h
Step-branches stored {w} {w'} (receive_all user active h) =
    receive-branches stored user active w w' h
Step-branches stored {w} {w'} (cancel h) = cancel-branches w w' h
Step-branches stored {w} {w'} (interrupted user tenants h e) = rw e
Step-branches stored {w} {w'} (interrupted_receipt user tenants h e) = rw e

Reach-branches : (stored : ℕ → Bool) {w w' : World} → Reach stored w w' → branches w' ≡ branches w
Reach-branches stored here = refl
Reach-branches stored (next r st) = Step-branches stored st ∙ Reach-branches stored r

visible_shipped :
    (b from to : Branch) (t t' : StockTransfer)
    → (t'.from_branch ≡ t.from_branch)
    → (t'.to_branch ≡ t.to_branch)
    → rank t.status ≤ rank t'.status
    → is_visible b t ≡ true
    → is_visible b t' ≡ true
visible_shipped b from to t t' f g h v = rw (f, g) (ground arith)

-- A branch that sees a transfer goes on seeing it, whatever happens to the transfer.
pub visible_stays :
    (stored : ℕ → Bool) (b : Branch) {w w' : World}
    → is_visible b w.transfer ≡ true
    → Reach stored w w'
    → is_visible b w'.transfer ≡ true
visible_stays stored b {w} {w'} v r =
    let e = Reach-branches stored r in
    visible_shipped b w.transfer.from_branch w.transfer.to_branch w.transfer w'.transfer
      (ap (λ (q : Branch × Branch). q.0) e) (ap (λ (q : Branch × Branch). q.1) e)
      (Reach-rank stored r) v
