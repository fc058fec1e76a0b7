-- ===== src/Tests/TransferRuns.antt =====
-- The theorems on transfers at the transfer of TransferData.
use ghazatech_inventory_be.Prelude.{◌*◌, ◌≤◌, ◌≡◌, ◌⊎◌, ◌↔◌, true, refl, none, arith}
use ghazatech_inventory_be.Prelude.Int.{pos, ◌+ℤ◌}
use ghazatech_inventory_be.Prelude.Result.{ok}
use ghazatech_inventory_be.Transfer.Store.{StockKey, vat}
use ghazatech_inventory_be.Transfer.MoveLaws.{balance, moved, AllCovered}
use ghazatech_inventory_be.Transfer.World.{Alias, alias_eq, cancelled, matched, alias_of}
use ghazatech_inventory_be.Transfer.Dispatch.{dispatch}
use ghazatech_inventory_be.Transfer.RetryAll.{dispatch_retry}
use ghazatech_inventory_be.Transfer.Delivered.{AllDelivered, receive-delivers}
use ghazatech_inventory_be.Transfer.Matched.{recorded_value, receive_matched_iff}
use ghazatech_inventory_be.Transfer.Lifecycle.{
  Reach, here, next, dispatch_all, receive_all, rank, Reach-ledger, Reach-AllCovered, Reach-rank,
  cancel,
}
use ghazatech_inventory_be.Transfer.Stranded.{AllTaken, stranded, interrupted_cancel}
use ghazatech_inventory_be.Transfer.Views.{cancel_transfer}
use ghazatech_inventory_be.Tests.TransferData.{
  running, drill_key, issued_db, start, no_files, admin, sent_tenants, sent, delivered,
}

issue_run : balance drill_key issued_db ≡ pos 6
unfolding running
issue_run = refl

dispatch_retry_example : dispatch 9 (record start { tenants = sent_tenants }) ≡ dispatch 9 start
unfolding running
dispatch_retry_example = dispatch_retry 9 start {tenants = sent_tenants} (λ a. ground arith) refl

delivered_run : balance drill_key (sent.tenants (record { base = vat; branch_id = 1 })) ≡ pos 6
unfolding running
delivered_run = refl

receive-delivers_example :
    (src dst : Alias) × (alias_of sent.transfer.from_branch ≡ ok src)
    × (alias_of sent.transfer.to_branch ≡ ok dst)
    × AllDelivered sent.transfer no_files 9 src dst sent.items delivered.tenants
unfolding running
receive-delivers_example = receive-delivers no_files 9 sent delivered refl

receive_matched_iff_example :
    (dst : Alias) × (alias_of sent.transfer.to_branch ≡ ok dst)
    × ((delivered.transfer.reconciliation_status ≡ matched) ↔ (
        recorded_value sent.transfer sent.items (delivered.tenants dst)
        ≡ pos (100 * sent.transfer.source_stock_value)))
unfolding running
receive_matched_iff_example = receive_matched_iff no_files 9 sent delivered refl

start-sent : Reach no_files start sent
unfolding running
start-sent = next here (dispatch_all admin refl)

start-delivered : Reach no_files start delivered
unfolding running
start-delivered = next start-sent (receive_all admin none refl)

sent-delivered : Reach no_files sent delivered
unfolding running
sent-delivered = next here (receive_all admin none refl)

Reach-ledger_example :
    let b : Alias = record { base = vat; branch_id = 1 } in
    balance drill_key (delivered.tenants b) +ℤ moved drill_key (start.tenants b).movements
    ≡ balance drill_key (start.tenants b) +ℤ moved drill_key (delivered.tenants b).movements
Reach-ledger_example =
    Reach-ledger no_files start-delivered (record { base = vat; branch_id = 1 }) drill_key

Reach-AllCovered_example :
    AllCovered (delivered.tenants (record { base = vat; branch_id = 1 })).stocks
unfolding running
Reach-AllCovered_example =
    Reach-AllCovered no_files start-delivered (record { base = vat; branch_id = 1 }) (omega arith)

Reach-rank_example : rank sent.transfer.status ≤ rank delivered.transfer.status
Reach-rank_example = Reach-rank no_files {w = sent} {w' = delivered} sent-delivered

interrupted_cancel_example :
    (src : Alias) × (alias_of start.transfer.from_branch ≡ ok src)
    × (cancel_transfer (record start { tenants = sent_tenants }) ≡ ok (stranded start sent_tenants))
    × ((stranded start sent_tenants).transfer.status ≡ cancelled)
    × AllTaken start.transfer start.items (sent_tenants src)
    × ((k : StockKey)
        → balance k (sent_tenants src) +ℤ moved k (start.tenants src).movements
          ≡ balance k (start.tenants src) +ℤ moved k (sent_tenants src).movements)
    × ((b : Alias) → (alias_eq b src ≡ true) ⊎ (sent_tenants b ≡ start.tenants b))
unfolding running
interrupted_cancel_example =
    interrupted_cancel no_files 9 start {tenants = sent_tenants}
      {later = stranded start sent_tenants} refl (λ a. ground arith) refl (next here (cancel refl))
