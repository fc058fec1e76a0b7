-- ===== src/Sales/Voided.antt =====
-- A point-of-sale sale that is voided gives back its stock (apps/sales).
use ghazatech_inventory_be.Prelude.{
  ℕ, ◌+◌, ◌≡◌, refl, sym, ap, Bool, false, List, [], ◌∷◌, arith, Bool-cases, inl, inr,
  if◌then◌else◌,
}
use ghazatech_inventory_be.Prelude.Int.{pos, neg, ◌+ℤ◌}
use ghazatech_inventory_be.Prelude.Result.{Result, ok, err, >>=-eq-ok, ok_injective}
use ghazatech_inventory_be.Inventory.Adjust.{AdjustArgs}
use ghazatech_inventory_be.Inventory.Shelf.{Shelf, adjust_at, stock_at, adjust_at-effect}
use ghazatech_inventory_be.Transfer.Store.{StockKey, key_eq}
use ghazatech_inventory_be.Transfer.Keys.{key_eq_iff}
use ghazatech_inventory_be.Sales.TaxLine.{validate_tax_treatment}
use ghazatech_inventory_be.Sales.PointOfSale.{
  Sale, SaleError, SaleItem, complete_sale, deduct_sales_item, deduct_stock, is_void, lift,
  return_stock, sale_args, units, void_args, void_sale,
}

-- The units of the key that the items sell.
abbrev pub sold : StockKey → List SaleItem → ℕ
sold k [] = 0
sold k (i ∷ items) = (if key_eq i.key k then units i else 0) + sold k items

lift-eq-ok {ℓ κ ι} :
    {E : Type ℓ} {F : Type κ} {A : Type ι} (f : E → F) (call : Result E A) {a : A}
    → lift f call ≡ ok a
    → call ≡ ok a
lift-eq-ok f (ok b) h = cc
lift-eq-ok f (err e) h = cc

taken_from : (a b u : ℕ) → pos a ≡ pos b +ℤ neg (pos u) → a + u ≡ b
unfolding ◌+ℤ◌
taken_from a b u h = ground arith

given_to : (a b u : ℕ) → pos a ≡ pos b +ℤ pos u → a ≡ b + u
unfolding ◌+ℤ◌
given_to a b u h = ground arith

-- One adjustment at a key, seen at any key.
deducted :
    (i : SaleItem) (a : AdjustArgs) (k : StockKey) (shelf : Shelf) {shelf' : Shelf}
    → a.quantity ≡ neg (pos (units i))
    → adjust_at i.key a shelf ≡ ok shelf'
    → stock_at k shelf' + (if key_eq i.key k then units i else 0) ≡ stock_at k shelf
deducted i a k shelf {shelf'} quantity h =
    let (here, elsewhere) = adjust_at-effect i.key k a shelf h in
    elim (Bool-cases (key_eq i.key k)) [
      | inl hit ↦
          let same = (key_eq_iff i.key k).0 hit in
          let at = rw (same, quantity) at here in
          rw hit (taken_from (stock_at k shelf') (stock_at k shelf) (units i) at)
      | inr miss ↦ rw miss (ground (arith, elsewhere miss))
    ]

returned :
    (i : SaleItem) (a : AdjustArgs) (k : StockKey) (shelf : Shelf) {shelf' : Shelf}
    → a.quantity ≡ pos (units i)
    → adjust_at i.key a shelf ≡ ok shelf'
    → stock_at k shelf' ≡ stock_at k shelf + (if key_eq i.key k then units i else 0)
returned i a k shelf {shelf'} quantity h =
    let (here, elsewhere) = adjust_at-effect i.key k a shelf h in
    elim (Bool-cases (key_eq i.key k)) [
      | inl hit ↦
          let same = (key_eq_iff i.key k).0 hit in
          let at = rw (same, quantity) at here in
          rw hit (given_to (stock_at k shelf') (stock_at k shelf) (units i) at)
      | inr miss ↦ rw miss (ground (arith, elsewhere miss))
    ]

deduct_stock-sold :
    (permitted : Bool) (items : List SaleItem) (k : StockKey) (shelf : Shelf) {shelf' : Shelf}
    → deduct_stock permitted items shelf ≡ ok shelf'
    → stock_at k shelf' + sold k items ≡ stock_at k shelf
unfolding deduct_stock
deduct_stock-sold permitted [] k shelf {shelf'} h =
    let same : shelf ≡ shelf' = ok_injective h in ground (arith, ap (stock_at k) same)
deduct_stock-sold permitted (i ∷ items) k shelf h =
    let (between, first, h1) = >>=-eq-ok (deduct_sales_item permitted i shelf) _ h in
    let (treatment, _, h2) =
      >>=-eq-ok (lift SaleError.tax (validate_tax_treatment permitted i.tax_treatment i.has_reason))
        _ first in
    let moved =
      deducted i (sale_args i treatment) k shelf refl
        (lift-eq-ok SaleError.stock (adjust_at i.key (sale_args i treatment) shelf) h2) in
    let rest = deduct_stock-sold permitted items k between h1 in ground (arith, moved, rest)

return_stock-sold :
    (items : List SaleItem) (k : StockKey) (shelf : Shelf) {shelf' : Shelf}
    → return_stock items shelf ≡ ok shelf'
    → stock_at k shelf' ≡ stock_at k shelf + sold k items
unfolding return_stock
return_stock-sold [] k shelf {shelf'} h =
    let same : shelf ≡ shelf' = ok_injective h in ground (arith, ap (stock_at k) same)
return_stock-sold (i ∷ items) k shelf h =
    let (between, first, h1) =
      >>=-eq-ok (lift SaleError.stock (adjust_at i.key (void_args i) shelf)) _ h in
    let moved =
      returned i (void_args i) k shelf refl
        (lift-eq-ok SaleError.stock (adjust_at i.key (void_args i) shelf) first) in
    let rest = return_stock-sold items k between h1 in ground (arith, moved, rest)

-- A sale that is completed and then voided leaves the stock of every key as it was.
pub complete_sale-void_sale :
    (permitted : Bool) (items : List SaleItem) (shelf : Shelf) (k : StockKey) {out : Sale × Shelf}
    {back : Sale × Shelf}
    → complete_sale permitted items shelf ≡ ok out
    → void_sale out.0 out.1 ≡ ok back
    → stock_at k back.1 ≡ stock_at k shelf
unfolding complete_sale void_sale
complete_sale-void_sale permitted items shelf k {out} {back} h h' =
    let (shelf1, taken, made) = >>=-eq-ok (deduct_stock permitted items shelf) _ h in
    let e = ok_injective made in
    let items_same : items ≡ out.0.items = ap (λ (o : Sale × Shelf). o.0.items) e in
    let shelf_same : shelf1 ≡ out.1 = ap (λ (o : Sale × Shelf). o.1) e in
    let paid : is_void out.0.status ≡ false =
      sym (ap (λ (o : Sale × Shelf). is_void o.0.status) e) in
    let (shelf2, given, made') = >>=-eq-ok (return_stock out.0.items out.1) _ (rw paid at h') in
    let back_same : shelf2 ≡ back.1 = ap (λ (o : Sale × Shelf). o.1) (ok_injective made') in
    let first = deduct_stock-sold permitted items k shelf taken in
    let second = return_stock-sold out.0.items k out.1 given in
    ground (
      arith,
      first,
      second,
      ap (stock_at k) shelf_same,
      ap (stock_at k) back_same,
      ap (sold k) items_same,
    )
