-- ===== src/Transfer/Views.antt =====
-- The actions of apps/transfers/views.py, and which transfers a branch sees; `is_admin_user` of
-- apps/transfers/serializers.py reads the columns of the user.
use ghazatech_inventory_be.Prelude.{
  ℕ, Bool, true, false, not, ◌&&◌, ◌||◌, Option, none, some, List, ◌==◌, if◌then◌else◌, select,
}
use ghazatech_inventory_be.Prelude.Result.{Result, ok, err, raise_if, ◌>>◌}
use ghazatech_inventory_be.Transfer.Move.{
  TransferError, bad_status, not_admin, wrong_branch, not_physical,
}
use ghazatech_inventory_be.Transfer.World.{
  Branch, Status, approved, cancelled, StockTransfer, World,
}
use ghazatech_inventory_be.Transfer.Dispatch.{dispatch}
use ghazatech_inventory_be.Transfer.Receive.{receive}

pub record User : Type 0 where
  pub pk : ℕ
  pub is_authenticated : Bool
  pub is_superuser : Bool
  pub has_admin_role : Bool

unfoldable pub is_admin_user : User → Bool
is_admin_user u = u.is_authenticated && (u.is_superuser || u.has_admin_role)

abbrev has_tax_mode : Branch → Bool
has_tax_mode b = elim b.tax_mode [ none ↦ false | some _ ↦ true ]

-- apps/branch_data/physical.py
unfoldable pub is_physical_branch : Branch → Bool
is_physical_branch b = b.is_active && has_tax_mode b && not b.is_consolidated

unfoldable pub require_physical_branch : Branch → Result TransferError (Unit {0})
unfolding is_physical_branch
require_physical_branch b = raise_if (not (is_physical_branch b)) not_physical

-- `Only requested transfers can be approved`; an approved one stays as it is.
unfoldable pub approve_transfer : User → World → Result TransferError World
unfolding is_admin_user
approve_transfer user w = do
  raise_if (not (is_admin_user user)) not_admin
  elim w.transfer.status [
    | Status.approved ↦ ok w
    | Status.requested ↦ ok (record w {
      transfer = record w.transfer { status = approved; approved_by = some user.pk };
    })
    | _ ↦ err bad_status
  ]

unfoldable pub dispatch_transfer : User → World → Result TransferError World
unfolding dispatch require_physical_branch
dispatch_transfer user w = do require_physical_branch w.transfer.from_branch; dispatch user.pk w

-- `active` is the branch that the request selects.
abbrev pub is_destination : Option Branch → StockTransfer → Bool
is_destination none t = false
is_destination (some b) t = is_physical_branch b && (b.pk == t.to_branch.pk)

unfoldable pub receive_transfer :
    (ℕ → Bool) → User → Option Branch → World → Result TransferError World
unfolding receive require_physical_branch is_admin_user
receive_transfer stored user active w = do
  require_physical_branch w.transfer.to_branch
  raise_if (not (is_admin_user user) && not (is_destination active w.transfer)) wrong_branch
  receive stored user.pk w

abbrev pub is_shipped : Status → Bool
is_shipped Status.in_transit = true
is_shipped Status.dispatched = true
is_shipped Status.received = true
is_shipped _ = false

unfoldable pub cancel_transfer : World → Result TransferError World
cancel_transfer w = do
  raise_if (is_shipped w.transfer.status) bad_status
  ok (record w { transfer = record w.transfer { status = cancelled } })

abbrev can_delete : Status → Bool
can_delete Status.draft = true
can_delete Status.requested = true
can_delete Status.approved = true
can_delete Status.cancelled = true
can_delete _ = false

-- Whether `destroy` deletes the transfer.
unfoldable pub destroy : User → World → Result TransferError (Unit {0})
unfolding is_admin_user require_physical_branch
destroy user w = do
  raise_if (not (is_admin_user user)) not_admin
  require_physical_branch w.transfer.from_branch
  require_physical_branch w.transfer.to_branch
  raise_if (not (can_delete w.transfer.status)) bad_status

-- `get_queryset`: the transfers that a selected physical branch sees; any other selection sees all.
abbrev pub is_visible : Branch → StockTransfer → Bool
is_visible b t = (t.from_branch.pk == b.pk) || (t.to_branch.pk == b.pk) && is_shipped t.status

unfoldable pub visible_transfers : Option Branch → List StockTransfer → List StockTransfer
unfolding is_physical_branch
visible_transfers none ts = ts
visible_transfers (some b) ts = if is_physical_branch b then select (is_visible b) ts else ts
