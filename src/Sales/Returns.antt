-- ===== src/Sales/Returns.antt =====
-- Sales returns: `SalesReturnSerializer` of apps/sales/serializers.py. Quantities and amounts are
-- hundredths. Dates, users, texts, the customer and the invoice are left out, except whether a
-- reason for a rejection is given. The row that a request makes or edits has its number `pk`.
use ghazatech_inventory_be.Prelude.{
  ℕ, ◌+◌, ◌-◌, ◌*◌, Bool, true, false, not, ◌&&◌, Option, none, some, List, [], ◌∷◌, ◌++◌, map,
  find, put, select, length, ◌==◌, if◌then◌else◌, is_empty, option_eq,
}
use ghazatech_inventory_be.Prelude.Decimal.{round_half_up}
use ghazatech_inventory_be.Prelude.Int.{ℤ, pos, pos_part, ltb_ℤ}
use ghazatech_inventory_be.Prelude.Result.{Result, ok, raise_if, or_raise, ◌>>=◌, ◌>>◌}
use ghazatech_inventory_be.Numbering.{Suffix, is_taken}

pub data ReturnStatus : Type 0 where
  draft pending_approval approved completed rejected cancelled : ReturnStatus

pub record OrderItem : Type 0 where
  pub pk : ℕ
  pub sales_order : ℕ
  pub quantity : ℕ

pub record ReturnItem : Type 0 where
  pub sales_order_item : ℕ
  pub returned_quantity : ℕ
  pub unit_price : ℕ
  pub line_total : ℕ

pub record SalesReturn : Type 0 where
  pub pk : ℕ
  pub return_number : Suffix
  pub sales_order : ℕ
  pub status : ReturnStatus
  pub items : List ReturnItem
  pub subtotal : ℕ
  pub vat_amount : ℕ
  pub total_amount : ℕ

pub record LineRequest : Type 0 where
  pub sales_order_item : Option OrderItem
  pub returned_quantity : ℤ
  pub unit_price : ℕ

-- The order and the status are the stored return's where the request has none; without items the
-- request leaves the stored ones.
pub record ReturnRequest : Type 0 where
  pub sales_order : Option ℕ
  pub status : ReturnStatus
  pub items : Option (List LineRequest)

pub data ReturnError : Type 0 where
  no_order not_editable no_items no_order_item other_order : ReturnError
  quantity_not_positive exceeds_remaining duplicate_number : ReturnError
  not_submittable not_pending no_reason not_approved not_cancellable missing : ReturnError

abbrev pub is_return : ℕ → SalesReturn → Bool
is_return pk r = r.pk == pk

-- The return's quantities count: it is neither rejected nor cancelled.
abbrev pub is_active : ReturnStatus → Bool
is_active ReturnStatus.rejected = false
is_active ReturnStatus.cancelled = false
is_active _ = true

abbrev pub quantity_of : ℕ → List ReturnItem → ℕ
quantity_of order_item [] = 0
quantity_of order_item (i ∷ items) =
    (if i.sales_order_item == order_item then i.returned_quantity else 0)
    + quantity_of order_item items

-- What the active returns, less the one that is edited, return of the order's item.
abbrev pub already_returned : Option ℕ → ℕ → List SalesReturn → ℕ
already_returned own order_item [] = 0
already_returned own order_item (r ∷ returns) =
    (if is_active r.status && not (option_eq own (some r.pk))
      then quantity_of order_item r.items
      else 0)
    + already_returned own order_item returns

-- One turn of the loop over the lines.
abbrev pub check_line :
    Option ℕ → List SalesReturn → ℕ → LineRequest → Result ReturnError ReturnItem
check_line own returns order l = or_raise l.sales_order_item ReturnError.no_order_item >>= λ item.
    let remaining = item.quantity - already_returned own item.pk returns in
    raise_if (not (item.sales_order == order)) ReturnError.other_order
    >> raise_if (not (ltb_ℤ (pos 0) l.returned_quantity)) ReturnError.quantity_not_positive
    >> raise_if (ltb_ℤ (pos remaining) l.returned_quantity) ReturnError.exceeds_remaining
    >> ok (record {
      sales_order_item = item.pk;
      returned_quantity = pos_part l.returned_quantity;
      unit_price = l.unit_price;
      line_total = round_half_up (pos_part l.returned_quantity * l.unit_price) 100;
    })

unfoldable pub check_lines :
    Option ℕ → List SalesReturn → ℕ → List LineRequest → Result ReturnError (List ReturnItem)
check_lines own returns order [] = ok []
check_lines own returns order (l ∷ lines) = check_line own returns order l >>= λ item.
    check_lines own returns order lines >>= λ items. ok (item ∷ items)

-- Draft or rejected.
abbrev pub is_draft : ReturnStatus → Bool
is_draft ReturnStatus.draft = true
is_draft ReturnStatus.rejected = true
is_draft _ = false

abbrev is_editable : Option SalesReturn → Bool
is_editable none = true
is_editable (some r) = is_draft r.status

abbrev own_pk : Option SalesReturn → Option ℕ
own_pk none = none
own_pk (some r) = some r.pk

-- The lines of a request that has any, of a return that may be edited.
abbrev pub checked_items :
    Option SalesReturn
    → List SalesReturn
    → ℕ
    → Option (List LineRequest)
    → Result ReturnError (Option (List ReturnItem))
checked_items stored returns order none = ok none
checked_items stored returns order (some lines) =
    raise_if (not (is_editable stored)) ReturnError.not_editable
    >> raise_if (is_empty lines) ReturnError.no_items
    >> check_lines (own_pk stored) returns order lines
    >>= λ items. ok (some items)

-- `validate`, of a new return or of a stored one: the order, and the checked lines if there are any.
unfoldable pub validate_return :
    Option SalesReturn
    → List SalesReturn
    → ReturnRequest
    → Result ReturnError (ℕ × Option (List ReturnItem))
validate_return stored returns r = or_raise r.sales_order ReturnError.no_order >>= λ order.
    checked_items stored returns order r.items >>= λ items. ok (order, items)

-- The exact sum of the lines.
abbrev pub exact_subtotal : List ReturnItem → ℕ
exact_subtotal [] = 0
exact_subtotal (i ∷ items) = i.returned_quantity * i.unit_price + exact_subtotal items

-- `_recalculate_totals`
abbrev pub with_totals : SalesReturn → SalesReturn
with_totals r =
    let subtotal = exact_subtotal r.items in
    record r {
      subtotal = round_half_up subtotal 100;
      vat_amount = round_half_up (5 * subtotal) 10000;
      total_amount = round_half_up (105 * subtotal) 10000;
    }

abbrev pub month_numbers : List SalesReturn → List Suffix
month_numbers returns = select (λ n. n.in_month) (map (λ r. r.return_number) returns)

abbrev pub items_or : Option (List ReturnItem) → List ReturnItem → List ReturnItem
items_or none items = items
items_or (some items) _ = items

-- The row that `create` makes.
abbrev pub new_return : ℕ → ℕ → ℕ → ReturnStatus → List ReturnItem → SalesReturn
new_return pk count order status items = with_totals (record {
  pk = pk;
  return_number = record { value = some (count + 1); padded = true; in_month = true };
  sales_order = order;
  status = status;
  items = items;
  subtotal = 0;
  vat_amount = 0;
  total_amount = 0;
})

-- `create`; a number that is taken violates the table's constraint.
unfoldable pub create_return :
    ℕ → ReturnRequest → List SalesReturn → Result ReturnError (List SalesReturn)
create_return pk r returns =
    let count = length (month_numbers returns) in
    validate_return none returns r >>= λ valid.
    raise_if (is_taken (count + 1) (month_numbers returns)) ReturnError.duplicate_number
    >> ok (returns ++ new_return pk count valid.0 r.status (items_or valid.1 []) ∷ [])

-- `update`
unfoldable pub update_return :
    ℕ → ReturnRequest → List SalesReturn → Result ReturnError (List SalesReturn)
update_return pk r returns =
    or_raise (find (is_return pk) returns) ReturnError.missing >>= λ stored.
    validate_return (some stored) returns r >>= λ valid.
    let saved = record stored {
      sales_order = valid.0;
      status = r.status;
      items = items_or valid.1 stored.items;
    } in
    ok (put (is_return pk) (with_totals saved) returns)
