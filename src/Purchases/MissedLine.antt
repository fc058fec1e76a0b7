-- ===== src/Purchases/MissedLine.antt =====
-- Orders with two lines for one product (apps/purchases/services.py).
use ghazatech_inventory_be.Prelude.{
  ◌≡◌, ◌≢◌, ◌∙◌, refl, sym, ap, inl, inr, false, List, [], ◌∷◌, all, arith, Bool-cases,
}
use ghazatech_inventory_be.Prelude.Result.{ok, >>=-eq-ok, ok_injective}
use ghazatech_inventory_be.Inventory.Shelf.{Shelf}
use ghazatech_inventory_be.Purchases.GoodsReceipt.{
  OrderStatus, PurchaseOrderItem, GoodsReceivedItem, GoodsReceivedNote, Catalog, Receiving,
  quantity_of, is_item_of, with_received, receive_line, stock_item, receive_items, is_complete,
  order_status, confirm_grn,
}
use ghazatech_inventory_be.Purchases.Received.{confirm_grn-eq-ok}

-- The first two lines, where the second is what it was.
abbrev pub Shadows : PurchaseOrderItem → PurchaseOrderItem → List PurchaseOrderItem → Type 0
Shadows p q items =
    (p' : PurchaseOrderItem) × (rest : List PurchaseOrderItem) × (items ≡ p' ∷ q ∷ rest)
    × (p'.product ≡ p.product)
    × (p'.variant ≡ p.variant)

receive_line-Shadows :
    (i : GoodsReceivedItem) (p q : PurchaseOrderItem) (rest : List PurchaseOrderItem)
    → q.product ≡ p.product
    → q.variant ≡ p.variant
    → Shadows p q (receive_line i (p ∷ q ∷ rest))
unfolding receive_line
receive_line-Shadows i p q rest same_product same_variant = elim (Bool-cases (is_item_of i p)) [
  | inl hit ↦ (with_received (quantity_of i) p, rest, rw hit, refl, refl)
  | inr miss ↦
      let also : is_item_of i q ≡ false = rw (same_product, same_variant) miss in
      (p, receive_line i rest, rw (miss, also), refl, refl)
]

receive_items-Shadows :
    (catalog : Catalog) (grn : GoodsReceivedNote) (todo : List GoodsReceivedItem)
    (p q : PurchaseOrderItem) (rest : List PurchaseOrderItem) (shelf : Shelf)
    {items' : List PurchaseOrderItem} {shelf' : Shelf}
    → q.product ≡ p.product
    → q.variant ≡ p.variant
    → receive_items catalog grn todo (p ∷ q ∷ rest) shelf ≡ ok (items', shelf')
    → Shadows p q items'
unfolding receive_items
receive_items-Shadows catalog grn [] p q rest shelf same_product same_variant h =
    (p, rest, ap (λ (o : List PurchaseOrderItem × Shelf). o.0) (sym (ok_injective h)), refl, refl)
receive_items-Shadows catalog grn (i ∷ todo) p q rest shelf same_product same_variant h =
    let (between, _, h1) = >>=-eq-ok (stock_item catalog grn (p ∷ q ∷ rest) i shelf) _ h in
    let (p', rest', now, product', variant') =
      receive_line-Shadows i p q rest same_product same_variant in
    let (p'', rest'', last, product'', variant'') =
      receive_items-Shadows catalog grn todo p' q rest' between (same_product ∙ sym product')
        (same_variant ∙ sym variant') (rw now at h1) in
    (p'', rest'', last, product'' ∙ product', variant'' ∙ variant')

not_received :
    (s : OrderStatus)
    → s ≢ OrderStatus.received
    → (items : List PurchaseOrderItem) → all is_complete items ≡ false
    → order_status s items ≢ OrderStatus.received
not_received s open_order items h = λ e. ground arith

-- Of two lines of an order for one product and variant, the first ones of the order, the
-- confirmation of an open note does not change the second: an order that is not received does not
-- become it while that line is incomplete.
pub confirm_grn_misses_line :
    (catalog : Catalog) (r : Receiving) (p q : PurchaseOrderItem) (rest : List PurchaseOrderItem)
    {r' : Receiving}
    → r.order.items ≡ p ∷ q ∷ rest
    → q.product ≡ p.product
    → q.variant ≡ p.variant
    → is_complete q ≡ false
    → r.order.status ≢ OrderStatus.received
    → r.grn.is_confirmed ≡ false
    → confirm_grn catalog r ≡ ok r'
    → Shadows p q r'.order.items × (r'.order.status ≢ OrderStatus.received)
confirm_grn_misses_line catalog r p q rest {r'} has same_product same_variant incomplete open_order
      open_note h =
    let (done, _, status) = confirm_grn-eq-ok catalog r open_note h in
    let s =
      receive_items-Shadows catalog r.grn r.grn.items p q rest r.shelf same_product same_variant
        (rw has at done) in
    let (p', rest', last, _, _) = s in
    let unfinished : all is_complete r'.order.items ≡ false =
      rw (last, incomplete) (ground arith) in
    (s, λ e. not_received r.order.status open_order r'.order.items unfinished (sym status ∙ e))
