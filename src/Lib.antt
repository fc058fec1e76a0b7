-- ===== src/Lib.antt =====
-- The stock, transfer, tax, ledger, payment and payroll rules of an inventory back end (Django,
-- one database for each physical branch and a shared one).
--
-- Parts and how they interact. A transfer moves goods from one branch to another: its actions
-- (apps/transfers/views.py) check the user, the branch and the status and call the service
-- (apps/transfers/services.py), which changes the stock of the source tenant at the dispatch and
-- of the destination tenant at the receipt, one stock row and one movement for each item. The
-- stock service (apps/inventory/services.py) changes a row for purchases, sales and adjustments,
-- and values it with the tax rules of apps/common/tax.py. A goods receipt
-- (apps/purchases/services.py) brings goods to stock through it and marks the lines of its order.
-- Sales lines take their amounts from apps/sales/tax_stock_services.py. Bills, invoices and
-- payments post journals to the general ledger (apps/finance/accounting.py), which move the
-- balances of accounts and the sources of money; users enter other journals by hand, which are
-- approved, posted and reversed (apps/finance/views.py). Suppliers' bills, made from receipts, are
-- settled by payments and vendor credits (apps/purchases), customers' invoices by customer
-- payments, and goods come back by sales returns (apps/sales). Payroll (apps/hrms/views.py) makes
-- the salary entries of a month and, as they are paid, settles loans. A consolidated branch lists
-- the rows of several tenants in one order (apps/branch_data/combined_views.py).
--
-- Files and what they model:
--   Prelude          shared names, Boolean tests, lists, integers, rounding, error results
--   Tax              apps/common/tax.py; Tax/Split has its laws
--   Sales/TaxLine    normalize_tax_treatment, calculate_sales_line and validate_tax_treatment of
--                    apps/sales/tax_stock_services.py; Sales/Totals has their laws
--   Inventory/Adjust normalize_tax and _adjust_stock_locked of apps/inventory/services.py; AdjustLaws
--                    and Valuation have their laws
--   Inventory/Shelf  adjust_stock on the table of stock rows, with its law
--   Inventory/TenantAdjust
--                    create_tenant_adjustment of apps/inventory/tenant_adjustments.py;
--                    TenantAdjusted has its law
--   Purchases/GoodsReceipt
--                    confirm_grn of apps/purchases/services.py and the rows of its models.py;
--                    Received and MissedLine have its laws
--   Transfer/Store   rows of Product, ProductVariant, ProductStock and StockMovement
--                    (apps/inventory/models.py) and the tables of one tenant
--   Transfer/Move    _move of apps/transfers/services.py (move); MoveLaws and MoveOnce have its laws
--   Transfer/World   StockTransfer and its items (apps/transfers/models.py), the aliases of tenants
--                    (branch_alias of apps/branch_data/schema_routing.py, _alias)
--   Transfer/Dispatch, Transfer/Destination, Transfer/Receive
--                    dispatch; _destination_product and _destination_variant; receive. Retry and
--                    RetryAll, Receipt, Delivered and Matched, and Accounted have their laws
--   Transfer/Views   the actions of apps/transfers/views.py, is_admin_user, is_physical_branch
--   Transfer/Lifecycle
--                    the steps of one transfer, with interruptions, and what they keep; Shipped has
--                    what holds once the goods have left, Stranded what a cancelled transfer leaves
--   Finance/Accounts CORE_ACCOUNTS, ensure_core_accounts and _account; Finance/Core and
--                    Finance/Choice have their laws
--   Finance/Journal  _move_account and _post_system_journal (post_system_journal); Finance/Fresh and
--                    Finance/Balance have their laws
--   Finance/Money    _payment_account and _update_money_source
--   Finance/Documents
--                    the functions of accounting.py that post a document; Finance/Payments has laws
--   Finance/Reversal _reverse_reference, reverse_sales_invoice and repost_sales_invoice;
--                    Finance/Reversed has a law
--   Finance/Voucher  journals entered by hand: JournalEntry of apps/finance/models.py and its numbers
--                    (create_voucher). Voucher/Posting has _post_journal, Voucher/Views the other
--                    actions of JournalEntryViewSet (apps/finance/views.py) and the serializer's
--                    validate, create and update, Voucher/Reverse has reverse. Posted, Balanced,
--                    LostLine, RoundTrip and Restored are about posting, Settled, Kept and Lifecycle
--                    about what stays, Numbers about numbers
--   Numbering        the search for the next number of a document: _next_system_number of
--                    apps/finance/accounting.py, and the same in apps/purchases/serializers.py;
--                    Numbering/Free has its law
--   Payables         SupplierBill, SupplierPayment and their lines (apps/purchases/models.py)
--   Payables/BillCheck, Payables/Bill, Payables/Approval
--                    the checks of SupplierBillSerializer and its items (apps/purchases/serializers.py);
--                    its amounts, create and update; approve of apps/purchases/views.py. Billed has
--                    their laws
--   Payables/Payment SupplierPaymentSerializer; Paid and Accepted have its laws
--   Payables/Credit, Payables/CreditCheck, Payables/CreditForm, Payables/CreditActions
--                    VendorCredit and _sync_return_credit_content of apps/purchases/views.py;
--                    the checks of VendorCreditSerializer (serializers.py), its create and update;
--                    approve, post, update_status and void of a credit. Planned, Formed, Answered
--                    and Credited have their laws
--   Payables/Outstanding, Payables/Steps
--                    what the bills owe, and the bills through all of these actions
--   Sales/Receipts   SalesPaymentSerializer (apps/sales/serializers.py), the actions on a payment and
--                    void of an invoice (apps/sales/views.py); Counted has their laws
--   Sales/Returns, Sales/ReturnActions
--                    SalesReturnSerializer and the workflow of a sales return; Returned has their laws
--   Sales/PointOfSale
--                    deduct_sales_item, and the stock of a sale that is completed and voided; Voided
--                    has their law
--   Tenancy/Combined the list of CombinedPhysicalBranchListMixin (apps/branch_data/combined_views.py)
--                    with add_source_metadata (combined.py); Ordered and Pages have their laws
--   Payroll/Records  the rows of payroll (apps/hrms/models.py)
--   Payroll/Loans    _employee_loan_deduction, _calculate_employee_loan_deduction,
--                    _settle_employee_loans and _settle_employee_loan_deduction of apps/hrms/views.py,
--                    two pairs that do the same; LoanLaws has their laws
--   Payroll/Status   _ensure_employee_loan_deduction, update_status and mark_paid; Settled and Stale
--                    have their laws
--   Payroll/Staff    what generate reads, and _approved_unpaid_leave_days
--   Payroll/Generate generate; Generated and Totals have its laws
--   Tests            runs and instances of the theorems
--
-- State. A tenant is a record of lists of rows (TenantDb); a World is one transfer, its items and
-- the function from aliases to tenants. A function that writes takes a state and returns a state,
-- or the error that rolls its transaction back; the generation of a payroll run returns a reply
-- and the tables, since what it refuses late is not rolled back. A dispatch or a receipt commits
-- the tenant's transaction before the shared one: dispatch_tenant and receive_tenant are the first
-- of them, and Lifecycle has steps in which the second is lost. The ledger (Books) has the chart,
-- the journals and the ledger entries, and Register is the same for journals entered by hand;
-- account objects in memory (Objects) are apart from the rows, since two of them may stand for one
-- row. What suppliers are owed is a list of bills (in Ledger with the payments), and what
-- customers owe is in Receipts, whose books are those of the ledger.
--
-- Numbers. A unit cost is a number of ten-thousandths and an amount a number of cents, as in the
-- columns, and quotients are rounded as the code rounds them: half up in apps/common/tax.py, half
-- even where quantize names no rounding, and half up where a value with more places is saved, since
-- Django hands it to PostgreSQL as it is and a numeric column rounds so. Quotients are exact before they are rounded, where the
-- code keeps 28 digits. Quantities of stock are natural numbers, changes are integers. Column
-- sizes bound none of them. Only the search for a free document number needs fuel: one turn more
-- than there are rows, after which a free one was met. The other loops run over the rows.
--
-- Not modelled. Dates, users and texts that are only copied; texts that are compared are numbers
-- or data, with letters already in capitals. The media storage is a parameter (which files it
-- holds). Goods receipts take the mirrored rows of the catalogue as a parameter (Catalog). Locks:
-- a function runs alone, as select_for_update and the transaction make it. The numbers that system
-- journals and movements carry. The mirroring of catalogue rows between databases, the other
-- serializers and the other apps.
pub mod Finance
pub mod Inventory
pub mod Numbering
pub mod Payables
pub mod Payroll
pub mod Prelude
pub mod Purchases
pub mod Sales
pub mod Tax
pub mod Tenancy
pub mod Tests
pub mod Transfer
