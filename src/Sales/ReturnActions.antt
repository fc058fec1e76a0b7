-- ===== src/Sales/ReturnActions.antt =====
-- The workflow actions of `SalesReturnViewSet` (apps/sales/views.py) on a stored sales return.
use ghazatech_inventory_be.Prelude.{ℕ, Bool, true, false, not, List, find, put, is_empty}
use ghazatech_inventory_be.Prelude.Result.{Result, ok, raise_if, or_raise, ◌>>=◌, ◌>>◌}
use ghazatech_inventory_be.Sales.Returns.{
  ReturnError, ReturnStatus, SalesReturn, is_draft, is_return,
}

abbrev on_stored :
    (SalesReturn → Result ReturnError SalesReturn)
    → ℕ
    → List SalesReturn
    → Result ReturnError (List SalesReturn)
on_stored action pk returns =
    or_raise (find (is_return pk) returns) ReturnError.missing >>= λ stored.
    action stored >>= λ saved. ok (put (is_return pk) saved returns)

abbrev is_pending : ReturnStatus → Bool
is_pending ReturnStatus.pending_approval = true
is_pending _ = false

abbrev is_approved : ReturnStatus → Bool
is_approved ReturnStatus.approved = true
is_approved _ = false

abbrev is_closed : ReturnStatus → Bool
is_closed ReturnStatus.completed = true
is_closed ReturnStatus.cancelled = true
is_closed _ = false

abbrev pub submitted : SalesReturn → Result ReturnError SalesReturn
submitted r =
    raise_if (not (is_draft r.status)) ReturnError.not_submittable
    >> raise_if (is_empty r.items) ReturnError.no_items
    >> ok (record r { status = ReturnStatus.pending_approval })

-- `submit`
unfoldable pub submit : ℕ → List SalesReturn → Result ReturnError (List SalesReturn)
submit pk returns = on_stored submitted pk returns

-- `approve`
unfoldable pub approve : ℕ → List SalesReturn → Result ReturnError (List SalesReturn)
approve = on_stored λ r.
    raise_if (not (is_pending r.status)) ReturnError.not_pending
    >> ok (record r { status = ReturnStatus.approved })

-- `reject`, with whether the request gives a reason
unfoldable pub reject : Bool → ℕ → List SalesReturn → Result ReturnError (List SalesReturn)
reject has_reason = on_stored λ r.
    raise_if (not (is_pending r.status)) ReturnError.not_pending
    >> raise_if (not has_reason) ReturnError.no_reason
    >> ok (record r { status = ReturnStatus.rejected })

-- `complete`
unfoldable pub complete : ℕ → List SalesReturn → Result ReturnError (List SalesReturn)
complete = on_stored λ r.
    raise_if (not (is_approved r.status)) ReturnError.not_approved
    >> ok (record r { status = ReturnStatus.completed })

-- `cancel`
unfoldable pub cancel : ℕ → List SalesReturn → Result ReturnError (List SalesReturn)
cancel = on_stored λ r.
    raise_if (is_closed r.status) ReturnError.not_cancellable
    >> ok (record r { status = ReturnStatus.cancelled })
