-- ===== src/Sales/Returned.antt =====
-- How much of an order's items the sales returns take back (apps/sales/serializers.py, apps/sales/views.py).
use mathlib.Core.Path.{subst}
use ghazatech_inventory_be.Prelude.{
  ℕ, ◌+◌, ◌-◌, ◌≤◌, ◌≡◌, ◌⊎◌, sym, refl, ap, ◌∙◌, true, false, not, none, some, Option, List, [],
  ◌∷◌, ◌++◌, any, find, put, length, ◌==◌, ==_refl, ==_iff, arith, Bool-cases, inl, inr,
  if◌then◌else◌, is_empty,
}
use ghazatech_inventory_be.Prelude.Int.{pos, ltb_ℤ}
use ghazatech_inventory_be.Prelude.Result.{
  ok, raise_if, ◌>>◌, >>=-eq-ok, >>-eq-ok, ok_injective, raise_if-eq-ok, or_raise-eq-ok,
}
use ghazatech_inventory_be.Numbering.{is_taken}
use ghazatech_inventory_be.Payables.{has_repeats}
use ghazatech_inventory_be.Sales.Returns.{
  LineRequest, OrderItem, ReturnError, ReturnItem, ReturnRequest, ReturnStatus, SalesReturn,
  already_returned, check_line, check_lines, checked_items, create_return, is_active, is_draft,
  is_return, month_numbers, new_return, items_or, quantity_of, validate_return,
}
use ghazatech_inventory_be.Sales.ReturnActions.{submitted, submit}

abbrev pub id_before : Option OrderItem → List ℕ → List ℕ
id_before none ids = ids
id_before (some item) ids = item.pk ∷ ids

-- The order items that the lines name.
abbrev pub line_ids : List LineRequest → List ℕ
line_ids [] = []
line_ids (l ∷ lines) = id_before l.sales_order_item (line_ids lines)

-- Another item, or one with the same quantity.
abbrev pub IsOf : OrderItem → Option OrderItem → Type 0
IsOf o none = Unit
IsOf o (some item) = ((item.pk == o.pk) ≡ false) ⊎ (item.quantity ≡ o.quantity)

-- The lines on the order item have its quantity.
abbrev pub AllOf : OrderItem → List LineRequest → Type 0
AllOf o [] = Unit
AllOf o (l ∷ lines) = IsOf o l.sales_order_item × AllOf o lines

IsOf-quantity :
    (o item : OrderItem)
    → IsOf o (some item)
    → (item.pk == o.pk) ≡ true
    → item.quantity ≡ o.quantity
IsOf-quantity o item (inl other) here = absurd (cc)
IsOf-quantity o item (inr same) here = same

check_line-passed :
    (own : Option ℕ) (returns : List SalesReturn) (order : ℕ) (l : LineRequest) {i : ReturnItem}
    → check_line own returns order l ≡ ok i
    → (item : OrderItem) × (l.sales_order_item ≡ some item)
      × (i.sales_order_item ≡ item.pk)
      × (i.returned_quantity ≤ item.quantity - already_returned own item.pk returns)
check_line-passed own returns order l h =
    let (item, named, h1) = or_raise-eq-ok l.sales_order_item _ _ h in
    let remaining = item.quantity - already_returned own item.pk returns in
    let of_order = raise_if (not (item.sales_order == order)) ReturnError.other_order in
    let positive = not (ltb_ℤ (pos 0) l.returned_quantity) in
    let counted = raise_if positive ReturnError.quantity_not_positive in
    let over = ltb_ℤ (pos remaining) l.returned_quantity in
    let (_, passed, made) =
      >>=-eq-ok (of_order >> counted >> raise_if over ReturnError.exceeds_remaining) _ h1 in
    let (_, within) = >>-eq-ok (of_order >> counted) over _ passed in
    subst
      (λ k.
        (t : OrderItem) × (l.sales_order_item ≡ some t)
        × (k.sales_order_item ≡ t.pk)
        × (k.returned_quantity ≤ t.quantity - already_returned own t.pk returns))
      (ok_injective made) (item, named, refl, (ground (arith, within)))

-- Nothing is returned of an item that no line names.
check_lines-unnamed :
    (own : Option ℕ) (returns : List SalesReturn) (order : ℕ) (lines : List LineRequest) (k : ℕ)
    {items : List ReturnItem}
    → check_lines own returns order lines ≡ ok items
    → any (λ n. n == k) (line_ids lines) ≡ false
    → quantity_of k items ≡ 0
unfolding check_lines
check_lines-unnamed own returns order [] k h apart =
    subst (λ items. quantity_of k items ≡ 0) (ok_injective h) refl
check_lines-unnamed own returns order (l ∷ lines) k h apart =
    let (i, first, h1) = >>=-eq-ok (check_line own returns order l) _ h in
    let (items, others, made) = >>=-eq-ok (check_lines own returns order lines) _ h1 in
    let (item, named, same, _) = check_line-passed own returns order l first in
    let apart' = rw named at apart in
    let none_more = check_lines-unnamed own returns order lines k others (ground (arith, apart')) in
    let other : (i.sales_order_item == k) ≡ false = rw same (ground (arith, apart')) in
    subst (λ rows. quantity_of k rows ≡ 0) (ok_injective made)
      (rw other (ground (arith, none_more)))

check_lines-within :
    (returns : List SalesReturn) (order : ℕ) (lines : List LineRequest) (o : OrderItem)
    {items : List ReturnItem}
    → check_lines none returns order lines ≡ ok items
    → AllOf o lines
    → has_repeats (line_ids lines) ≡ false
    → quantity_of o.pk items ≤ o.quantity - already_returned none o.pk returns
unfolding check_lines
check_lines-within returns order [] o h all apart =
    subst (λ items. quantity_of o.pk items ≤ o.quantity - already_returned none o.pk returns)
      (ok_injective h) (ground arith)
check_lines-within returns order (l ∷ lines) o h (of_item, all) apart =
    let (i, first, h1) = >>=-eq-ok (check_line none returns order l) _ h in
    let (items, others, made) = >>=-eq-ok (check_lines none returns order lines) _ h1 in
    let (item, named, same, low) = check_line-passed none returns order l first in
    let apart' = rw named at apart in
    let of_item' = rw named at of_item in
    let rest = check_lines-within returns order lines o others all (ground (arith, apart')) in
    subst (λ rows. quantity_of o.pk rows ≤ o.quantity - already_returned none o.pk returns)
      (ok_injective made)
      (elim (Bool-cases (item.pk == o.pk)) [
        | inl here ↦
            let same_pk = (==_iff item.pk o.pk).0 here in
            let low' = rw same_pk at low in
            let alone =
              check_lines-unnamed none returns order lines o.pk others
                (ground (arith, rw same_pk at apart')) in
            let quantity = IsOf-quantity o item of_item' here in
            rw (same, same_pk, ==_refl o.pk) (ground (arith, alone, low', quantity))
        | inr elsewhere ↦ rw (same, elsewhere) (ground (arith, rest))
      ])

already_returned-append :
    (k : ℕ) (returns : List SalesReturn) (r : SalesReturn)
    → already_returned none k (returns ++ r ∷ [])
      ≡ already_returned none k returns + (if is_active r.status then quantity_of k r.items else 0)
already_returned-append k [] r = ground arith
already_returned-append k (q ∷ returns) r = ground (arith, already_returned-append k returns r)

validate_return-lines :
    (r : ReturnRequest) (lines : List LineRequest) (returns : List SalesReturn)
    {valid : ℕ × Option (List ReturnItem)}
    → r.items ≡ some lines
    → validate_return none returns r ≡ ok valid
    → (order : ℕ) × (items : List ReturnItem) × (check_lines none returns order lines ≡ ok items)
      × (valid.1 ≡ some items)
unfolding validate_return
validate_return-lines r lines returns {valid} given h =
    let (order, _, h1) = or_raise-eq-ok r.sales_order _ _ h in
    let (rows, h2, made) = >>=-eq-ok (checked_items none returns order r.items) _ h1 in
    let h3 : checked_items none returns order (some lines) ≡ ok rows = rw given at h2 in
    let present = raise_if (is_empty lines) ReturnError.no_items in
    let (items, h4, made') =
      >>=-eq-ok (ok tt >> present >> check_lines none returns order lines) _ h3 in
    let (_, h5) = raise_if-eq-ok (is_empty lines) _ _ h4 in
    (order, items, h5, (sym (ap (λ v. v.1) (ok_injective made)) ∙ sym (ok_injective made')))

-- Creating a return of several lines, each on another item of the order, keeps what is returned of
-- any item within its quantity, where it was so before and the lines on the item have its quantity.
pub create_return-within :
    (o : OrderItem) (pk : ℕ) (r : ReturnRequest) (lines : List LineRequest)
    (returns : List SalesReturn) {returns' : List SalesReturn}
    → already_returned none o.pk returns ≤ o.quantity
    → r.items ≡ some lines
    → AllOf o lines
    → has_repeats (line_ids lines) ≡ false
    → create_return pk r returns ≡ ok returns'
    → already_returned none o.pk returns' ≤ o.quantity
unfolding create_return validate_return
create_return-within o pk r lines returns within given all apart h =
    let (valid, checked, h1) = >>=-eq-ok (validate_return none returns r) _ h in
    let (_, made) =
      raise_if-eq-ok (is_taken (length (month_numbers returns) + 1) (month_numbers returns)) _ _
        h1 in
    let (order, items, h2, same) = validate_return-lines r lines returns given checked in
    let low = check_lines-within returns order lines o h2 all apart in
    let new =
      new_return pk (length (month_numbers returns)) valid.0 r.status (items_or valid.1 []) in
    let total = already_returned-append o.pk returns new in
    subst (λ rows. already_returned none o.pk rows ≤ o.quantity) (ok_injective made)
      (rw (total, same) (ground (arith, within, low)))

already_returned-put :
    (pk k : ℕ) (saved : SalesReturn) (returns : List SalesReturn) {r : SalesReturn}
    → find (is_return pk) returns ≡ some r
    → already_returned none k (put (is_return pk) saved returns)
        + (if is_active r.status then quantity_of k r.items else 0)
      ≡ already_returned none k returns
        + (if is_active saved.status then quantity_of k saved.items else 0)
already_returned-put pk k saved [] found = cc
already_returned-put pk k saved (q ∷ returns) {r} found = elim (Bool-cases (is_return pk q)) [
  | inl here ↦ let e = rw here at found in let same : q ≡ r = cc in rw (here, same) (ground arith)
  | inr other ↦
      let rest = already_returned-put pk k saved returns (rw other at found) in
      rw other (ground (arith, rest))
]

submitted-made :
    (r : SalesReturn) {saved : SalesReturn}
    → submitted r ≡ ok saved
    → record r { status = ReturnStatus.pending_approval } ≡ saved
submitted-made r h =
    let allowed = raise_if (not (is_draft r.status)) ReturnError.not_submittable in
    let (_, _, made) =
      >>=-eq-ok (allowed >> raise_if (is_empty r.items) ReturnError.no_items) _ h in
    ok_injective made

-- Submitting a rejected return counts its quantities again, whatever was returned in the meantime.
pub submit_again :
    (pk k : ℕ) (r : SalesReturn) (returns : List SalesReturn) {returns' : List SalesReturn}
    → find (is_return pk) returns ≡ some r
    → r.status ≡ ReturnStatus.rejected
    → submit pk returns ≡ ok returns'
    → already_returned none k returns' ≡ already_returned none k returns + quantity_of k r.items
unfolding submit
submit_again pk k r returns found status h =
    let (r', stored, h1) = or_raise-eq-ok (find (is_return pk) returns) _ _ h in
    let (saved, acted, made) = >>=-eq-ok (submitted r') _ h1 in
    let e = sym found ∙ stored in
    let same : r ≡ r' = cc in
    let counted =
      already_returned-put pk k (record r' { status = ReturnStatus.pending_approval }) returns
        stored in
    let inactive : is_active r'.status ≡ false =
      ap (λ t. is_active t.status) (sym same) ∙ ap is_active status in
    let items : quantity_of k r'.items ≡ quantity_of k r.items =
      ap (λ t. quantity_of k t.items) (sym same) in
    subst
      (λ rows.
        already_returned none k rows ≡ already_returned none k returns + quantity_of k r.items)
      (ap (λ t. put (is_return pk) t returns) (submitted-made r' acted) ∙ ok_injective made)
      (ground (arith, counted, inactive, items))
