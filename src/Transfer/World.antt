-- ===== src/Transfer/World.antt =====
-- A transfer with its items in the shared database, and the tenant databases
-- (apps/transfers/models.py, apps/branch_data/schema_routing.py).
use ghazatech_inventory_be.Prelude.{
  ℕ, ◌≡◌, Bool, true, false, not, ◌&&◌, Option, none, some, List, ltb, ◌==◌, if◌then◌else◌, ◌↔◌,
  arith,
}
use ghazatech_inventory_be.Prelude.Int.{ℤ}
use ghazatech_inventory_be.Prelude.Result.{Result, ok, err, raise_if, ◌>>◌}
use ghazatech_inventory_be.Transfer.Store.{TaxMode, TenantDb}
use ghazatech_inventory_be.Transfer.Move.{TransferError, invalid_tax_mode, invalid_branch_id}

-- `tax_mode` is neither "VAT" nor "NON_VAT" for the consolidated branch.
pub record Branch : Type 0 where
  pub pk : ℕ
  pub tax_mode : Option TaxMode
  pub is_active : Bool
  pub is_consolidated : Bool

pub data Status : Type 0 where
  draft requested approved in_transit dispatched received cancelled : Status

pub data Reconciliation : Type 0 where
  pending matched variance : Reconciliation

-- Values are in cents, unit costs in ten-thousandths.
pub record StockTransfer : Type 0 where
  pub pk : ℕ
  pub transfer_number : ℕ
  pub from_branch : Branch
  pub to_branch : Branch
  pub status : Status
  pub approved_by : Option ℕ
  pub dispatched_by : Option ℕ
  pub received_by : Option ℕ
  pub source_stock_value : ℕ
  pub destination_stock_value : ℕ
  pub value_difference : ℤ
  pub reconciliation_status : Reconciliation

pub record StockTransferItem : Type 0 where
  pub pk : ℕ
  pub product_id : Option ℕ
  pub variant_id : Option ℕ
  pub source_product_id : Option ℕ
  pub source_variant_id : Option ℕ
  pub requested_quantity : ℕ
  pub dispatched_quantity : ℕ
  pub received_quantity : ℕ
  pub transfer_unit_cost : ℕ
  pub source_value : ℕ
  pub destination_value : ℕ
  pub value_difference : ℤ

-- The connection `tenant_{base}_{branch_id}`.
pub record Alias : Type 0 where
  pub base : TaxMode
  pub branch_id : ℕ

abbrev tax_mode_eq : TaxMode → TaxMode → Bool
tax_mode_eq TaxMode.vat TaxMode.vat = true
tax_mode_eq TaxMode.non_vat TaxMode.non_vat = true
tax_mode_eq TaxMode.vat TaxMode.non_vat = false
tax_mode_eq TaxMode.non_vat TaxMode.vat = false

abbrev pub alias_eq : Alias → Alias → Bool
alias_eq a b = tax_mode_eq a.base b.base && (a.branch_id == b.branch_id)

pub alias_eq_iff : (a b : Alias) → (alias_eq a b ≡ true) ↔ (a ≡ b)
alias_eq_iff a b = ground arith

-- `branch_alias`: a branch number that the eight digits of a schema name hold.
unfoldable pub branch_alias : ℕ → Option TaxMode → Result TransferError Alias
branch_alias branch_id none = err invalid_tax_mode
branch_alias branch_id (some mode) = do
  raise_if (branch_id == 0) invalid_branch_id
  raise_if (not (ltb branch_id 100_000_000)) invalid_branch_id
  ok (record { base = mode; branch_id = branch_id })

-- `_alias`
unfoldable pub alias_of : Branch → Result TransferError Alias
unfolding branch_alias
alias_of b = branch_alias b.pk b.tax_mode

abbrev pub Tenants : Type 0
Tenants = Alias → TenantDb

abbrev pub update : Tenants → Alias → TenantDb → Tenants
update tenants a db b = if alias_eq b a then db else tenants b

pub update_self : (tenants : Tenants) (a : Alias) (db : TenantDb) → update tenants a db a ≡ db
update_self tenants a db = ground (arith, alias_eq_iff a a)

pub record World : Type 0 where
  pub transfer : StockTransfer
  pub items : List StockTransferItem
  pub tenants : Tenants
