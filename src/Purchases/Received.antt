-- ===== src/Purchases/Received.antt =====
-- What a confirmed goods receipt does to the stock and to its order (apps/purchases/services.py).
use ghazatech_inventory_be.Prelude.{
  ℕ, ◌+◌, ◌≤◌, ◌≡◌, ◌∙◌, refl, sym, ap, inl, inr, true, false, List, [], ◌∷◌, ltb, if◌then◌else◌,
  find, arith, Bool-cases,
}
use ghazatech_inventory_be.Prelude.Int.{pos, pos_part, ◌+ℤ◌}
use ghazatech_inventory_be.Prelude.Result.{ok, >>=-eq-ok, ok_injective}
use ghazatech_inventory_be.Inventory.Shelf.{Shelf, adjust_at-effect, stock_at}
use ghazatech_inventory_be.Transfer.Store.{StockKey, key_eq}
use ghazatech_inventory_be.Transfer.Keys.{key_eq_iff}
use ghazatech_inventory_be.Purchases.GoodsReceipt.{
  PurchaseOrderItem, GoodsReceivedItem, GoodsReceivedNote, Catalog, Receiving, quantity_of,
  is_item_of, key_of, adjust_args, receive_line, stock_item, receive_items, order_status,
  confirm_grn,
}

-- What the items bring to a key.
unfoldable pub brought : Catalog → GoodsReceivedNote → StockKey → List GoodsReceivedItem → ℕ
brought catalog grn k [] = 0
brought catalog grn k (i ∷ items) =
    (if key_eq (key_of catalog grn i) k then quantity_of i else 0) + brought catalog grn k items

pos-sum : (a b c : ℕ) → pos a ≡ pos b +ℤ pos c → a ≡ b + c
unfolding ◌+ℤ◌
pos-sum a b c h = let e = ap pos_part h in ground arith

stock_item-stock :
    (catalog : Catalog) (grn : GoodsReceivedNote) (items : List PurchaseOrderItem)
    (i : GoodsReceivedItem) (k : StockKey) (shelf : Shelf) {shelf' : Shelf}
    → stock_item catalog grn items i shelf ≡ ok shelf'
    → stock_at k shelf'
      ≡ stock_at k shelf + (if key_eq (key_of catalog grn i) k then quantity_of i else 0)
stock_item-stock catalog grn items i k shelf {shelf'} h =
    elim (Bool-cases (ltb 0 (quantity_of i))) [
      | inr none_left ↦
          let same : shelf ≡ shelf' = ok_injective (rw none_left at h) in
          let zero : quantity_of i ≡ 0 = ground arith in
          ap (stock_at k) (sym same) ∙ elim (Bool-cases (key_eq (key_of catalog grn i) k)) [
            | inl hit ↦ rw (hit, zero) (omega arith)
            | inr miss ↦ rw miss (omega arith)
          ]
      | inl some_left ↦
          let key = key_of catalog grn i in
          let (here, elsewhere) =
            adjust_at-effect key k (adjust_args catalog i (find (is_item_of i) items)) shelf
              (rw some_left at h) in
          elim (Bool-cases (key_eq key k)) [
            | inl hit ↦
                let e : key ≡ k = (key_eq_iff key k).0 hit in
                let q = quantity_of i in
                rw hit (
                  ap (λ (j : StockKey). stock_at j shelf') (sym e)
                  ∙ pos-sum (stock_at key shelf') (stock_at key shelf) q here
                  ∙ ap (λ (j : StockKey). stock_at j shelf + q) e)
            | inr miss ↦ rw miss (elsewhere miss ∙ ground arith)
          ]
    ]

receive_items-stock :
    (catalog : Catalog) (grn : GoodsReceivedNote) (k : StockKey) (rest : List GoodsReceivedItem)
    (items : List PurchaseOrderItem) (shelf : Shelf) {items' : List PurchaseOrderItem}
    {shelf' : Shelf}
    → receive_items catalog grn rest items shelf ≡ ok (items', shelf')
    → stock_at k shelf' ≡ stock_at k shelf + brought catalog grn k rest
unfolding receive_items brought
receive_items-stock catalog grn k [] items shelf {items'} {shelf'} h =
    let same : shelf ≡ shelf' = ap (λ (q : List PurchaseOrderItem × Shelf). q.1) (ok_injective h) in
    ap (stock_at k) (sym same) ∙ ground arith
receive_items-stock catalog grn k (i ∷ rest) items shelf h =
    let (between, done, h1) = >>=-eq-ok (stock_item catalog grn items i shelf) _ h in
    let first = stock_item-stock catalog grn items i k shelf done in
    let ih = receive_items-stock catalog grn k rest (receive_line i items) between h1 in
    omega (arith, first, ih)

-- No line of the order has received more than was ordered.
abbrev pub AllWithin : List PurchaseOrderItem → Type 0
AllWithin [] = Unit
AllWithin (p ∷ items) = (p.received_quantity ≤ p.quantity) × AllWithin items

receive_line-AllWithin :
    (i : GoodsReceivedItem) (items : List PurchaseOrderItem)
    → AllWithin items
    → AllWithin (receive_line i items)
unfolding receive_line
receive_line-AllWithin i [] w = tt
receive_line-AllWithin i (p ∷ items) (h, w) = elim (Bool-cases (is_item_of i p)) [
  | inl hit ↦ rw hit (ground arith, w)
  | inr miss ↦ rw miss (h, receive_line-AllWithin i items w)
]

receive_items-AllWithin :
    (catalog : Catalog) (grn : GoodsReceivedNote) (rest : List GoodsReceivedItem)
    (items : List PurchaseOrderItem) (shelf : Shelf) {items' : List PurchaseOrderItem}
    {shelf' : Shelf}
    → receive_items catalog grn rest items shelf ≡ ok (items', shelf')
    → AllWithin items
    → AllWithin items'
unfolding receive_items
receive_items-AllWithin catalog grn [] items shelf {items'} h w =
    let same : items ≡ items' = ap (λ (q : List PurchaseOrderItem × Shelf). q.0) (ok_injective h) in
    rw (← same) w
receive_items-AllWithin catalog grn (i ∷ rest) items shelf h w =
    let (between, _, h1) = >>=-eq-ok (stock_item catalog grn items i shelf) _ h in
    receive_items-AllWithin catalog grn rest (receive_line i items) between h1
      (receive_line-AllWithin i items w)

-- The confirmation of a note that is not confirmed.
pub confirm_grn-eq-ok :
    (catalog : Catalog) (r : Receiving) {r' : Receiving}
    → r.grn.is_confirmed ≡ false
    → confirm_grn catalog r ≡ ok r'
    → (receive_items catalog r.grn r.grn.items r.order.items r.shelf
        ≡ ok (r'.order.items, r'.shelf))
      × (r'.grn.is_confirmed ≡ true)
      × (r'.order.status ≡ order_status r.order.status r'.order.items)
unfolding confirm_grn
confirm_grn-eq-ok catalog r {r'} open_note h =
    let h0 = rw open_note at h in
    let ((items, shelf), done, h1) =
      >>=-eq-ok (receive_items catalog r.grn r.grn.items r.order.items r.shelf) _ h0 in
    let made = ok_injective h1 in
    (
      done ∙ ap (λ (q : Receiving). ok (q.order.items, q.shelf)) made,
      ap (λ (q : Receiving). q.grn.is_confirmed) (sym made),
      rw (← made) refl,
    )

-- The successful confirmation of an open note brings to every key what the note's items say, keeps
-- the order's lines within their quantities, where they were before, and can be made again without
-- effect.
pub confirm_grn-receives :
    (catalog : Catalog) (r : Receiving) (k : StockKey) {r' : Receiving}
    → r.grn.is_confirmed ≡ false
    → AllWithin r.order.items
    → confirm_grn catalog r ≡ ok r'
    → (stock_at k r'.shelf ≡ stock_at k r.shelf + brought catalog r.grn k r.grn.items)
      × AllWithin r'.order.items
      × (confirm_grn catalog r' ≡ ok r')
unfolding confirm_grn
confirm_grn-receives catalog r k {r'} open_note within h =
    let (done, confirmed, _) = confirm_grn-eq-ok catalog r open_note h in
    (
      receive_items-stock catalog r.grn k r.grn.items r.order.items r.shelf done,
      receive_items-AllWithin catalog r.grn r.grn.items r.order.items r.shelf done within,
      rw confirmed,
    )
