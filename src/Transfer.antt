-- ===== src/Transfer.antt =====
-- Stock transfers between branches (apps/transfers): the tenant tables, the movement of stock in
-- one tenant, and the workflow of a transfer over two.
pub mod Store
pub mod Move
pub mod Keys
pub mod MoveLaws
pub mod MoveOnce
pub mod World
pub mod Dispatch
pub mod Retry
pub mod RetryAll
pub mod Destination
pub mod Receive
pub mod Accounted
pub mod Receipt
pub mod Delivered
pub mod Matched
pub mod Views
pub mod Lifecycle
pub mod Shipped
pub mod Stranded
