-- ===== src/Inventory/TenantAdjust.antt =====
-- `create_tenant_adjustment` of apps/inventory/tenant_adjustments.py, in the tables of one tenant. Unit
-- costs are numbers of ten-thousandths and values of hundredths, as their columns keep them; numbers,
-- remarks, dates, the fields with a constant and the choice of the tenant are left out.
use ghazatech_inventory_be.Prelude.{
  ℕ, ◌+◌, ◌-◌, ◌*◌, Bool, true, false, not, ◌&&◌, ◌||◌, Option, none, some, List, ◌∷◌, ltb, ◌==◌,
  find, put,
}
use ghazatech_inventory_be.Prelude.Decimal.{round_half_up}
use ghazatech_inventory_be.Prelude.Int.{ℤ, pos, neg, pos_part, ◌+ℤ◌, ◌-ℤ◌, ltb_ℤ}
use ghazatech_inventory_be.Prelude.Result.{Result, ok, raise_if, or_raise, ◌>>◌, ◌>>=◌}
use ghazatech_inventory_be.Inventory.Adjust.{Stock}
use ghazatech_inventory_be.Inventory.Shelf.{StockRow, is_row, stock_or_new}
use ghazatech_inventory_be.Transfer.Store.{StockKey}

pub data AdjustmentType : Type 0 where
  add deduct : AdjustmentType

-- The columns of a product and of a variant that the function reads.
pub record TenantProduct : Type 0 where
  pub pk : ℕ
  pub branch : ℕ
  pub is_active : Bool
  pub is_deleted : Bool
  pub has_variants : Bool
  pub reorder_level : ℕ

pub record TenantVariant : Type 0 where
  pub pk : ℕ
  pub product : ℕ
  pub is_active : Bool

pub record StockAdjustment : Type 0 where
  pub pk : ℕ
  pub key : StockKey
  pub adjustment_type : AdjustmentType
  pub quantity : ℕ
  pub current_quantity : ℕ
  pub actual_quantity_counted : ℕ
  pub quantity_difference : ℤ
  pub unit_cost_excluding_vat : ℕ
  pub value_before : ℕ
  pub value_after : ℕ
  pub capitalized_adjustment_value : ℕ

pub record AdjustmentMovement : Type 0 where
  pub key : StockKey
  pub quantity : ℤ
  pub previous_stock : ℕ
  pub new_stock : ℕ
  pub quantity_before : ℕ
  pub quantity_after : ℕ
  pub reference_id : ℕ
  pub unit_cost_excluding_vat : ℕ
  pub capitalized_unit_cost : ℕ
  pub net_value_change : ℤ
  pub gross_value_change : ℤ
  pub running_stock_value : ℕ

pub record TenantTables : Type 0 where
  pub products : List TenantProduct
  pub variants : List TenantVariant
  pub rows : List StockRow
  pub adjustments : List StockAdjustment
  pub movements : List AdjustmentMovement
  pub next_pk : ℕ

pub data AdjustmentError : Type 0 where
  not_positive reason_required reason_too_long no_product no_variant : AdjustmentError
  variant_required not_available insufficient_unreserved : AdjustmentError

-- The request, with the length of its reason.
pub record AdjustmentRequest : Type 0 where
  pub product : ℕ
  pub variant : Option ℕ
  pub adjustment_type : AdjustmentType
  pub quantity : ℕ
  pub reason_length : ℕ

abbrev pub is_tenant_product : ℕ → ℕ → TenantProduct → Bool
is_tenant_product branch pk p =
    (p.pk == pk) && (p.branch == branch) && p.is_active && not p.is_deleted

abbrev is_tenant_variant : ℕ → ℕ → TenantVariant → Bool
is_tenant_variant product pk v = (v.pk == pk) && (v.product == product) && v.is_active

-- The variant that is named must be one of the product's; a product with variants needs one.
abbrev pub validate_variant :
    Option ℕ → TenantProduct → TenantTables → Result AdjustmentError (Unit {0})
validate_variant none p t = raise_if p.has_variants variant_required
validate_variant (some pk) p t =
    or_raise (find (is_tenant_variant p.pk pk) t.variants) no_variant >>= λ _. ok tt

abbrev pub signed_quantity : AdjustmentRequest → ℤ
signed_quantity q = elim q.adjustment_type [
  | AdjustmentType.add ↦ pos q.quantity
  | AdjustmentType.deduct ↦ pos 0 -ℤ pos q.quantity
]

abbrev pub is_deduction : AdjustmentType → Bool
is_deduction AdjustmentType.add = false
is_deduction AdjustmentType.deduct = true

abbrev pub adjustment_key : ℕ → AdjustmentRequest → TenantProduct → StockKey
adjustment_key branch q p = record {
  branch_id = branch;
  product_id = p.pk;
  variant_id = q.variant;
  warehouse = 0;
}

-- What a column with two places keeps of a value in ten-thousandths.
unfoldable pub value_of : ℕ → ℕ
unfolding round_half_up
value_of n = round_half_up n 100

-- `cost * signed`, as such a column keeps it.
abbrev signed_value : AdjustmentType → ℕ → ℤ
signed_value AdjustmentType.add value = pos value
signed_value AdjustmentType.deduct value = neg (pos value)

-- The row, the adjustment and the movement that are written.
unfoldable pub recorded : StockKey → AdjustmentRequest → Stock → TenantTables → TenantTables
unfolding value_of
recorded k q s t =
    let after = pos_part (pos s.current_stock +ℤ signed_quantity q) in
    let change = value_of (s.average_unit_cost * q.quantity) in
    record t {
      rows = put (is_row k) (record { key = k; stock = record s { current_stock = after } }) t.rows;
      adjustments =
          record {
            pk = t.next_pk;
            key = k;
            adjustment_type = q.adjustment_type;
            quantity = q.quantity;
            current_quantity = s.current_stock;
            actual_quantity_counted = after;
            quantity_difference = signed_quantity q;
            unit_cost_excluding_vat = s.average_unit_cost_excluding_vat;
            value_before = value_of (s.average_unit_cost * s.current_stock);
            value_after = value_of (s.average_unit_cost * after);
            capitalized_adjustment_value = change;
          }
          ∷ t.adjustments;
      movements =
          record {
            key = k;
            quantity = signed_quantity q;
            previous_stock = s.current_stock;
            new_stock = after;
            quantity_before = s.current_stock;
            quantity_after = after;
            reference_id = t.next_pk;
            unit_cost_excluding_vat = s.average_unit_cost_excluding_vat;
            capitalized_unit_cost = s.average_unit_cost;
            net_value_change = signed_value q.adjustment_type change;
            gross_value_change = signed_value q.adjustment_type change;
            running_stock_value = value_of (s.average_unit_cost * after);
          }
          ∷ t.movements;
      next_pk = t.next_pk + 1;
    }

abbrev pub adjust_stock_row :
    StockKey → AdjustmentRequest → Stock → TenantTables → Result AdjustmentError TenantTables
adjust_stock_row k q s t =
    let after = pos s.current_stock +ℤ signed_quantity q in
    do
      raise_if
          (is_deduction q.adjustment_type && ltb (s.current_stock - s.reserved_stock) q.quantity)
          not_available
      raise_if (ltb_ℤ after (pos 0) || ltb_ℤ after (pos s.reserved_stock)) insufficient_unreserved
      ok (recorded k q s t)

unfoldable pub create_tenant_adjustment :
    ℕ → AdjustmentRequest → TenantTables → Result AdjustmentError TenantTables
create_tenant_adjustment branch q t = do
  raise_if (q.quantity == 0) not_positive
  raise_if (q.reason_length == 0) reason_required
  raise_if (ltb 120 q.reason_length) reason_too_long
  p ← or_raise (find (is_tenant_product branch q.product) t.products) no_product
  validate_variant q.variant p t
  adjust_stock_row (adjustment_key branch q p) q
      (stock_or_new p.reorder_level (find (is_row (adjustment_key branch q p)) t.rows)) t
