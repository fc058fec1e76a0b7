-- ===== src/Inventory/Shelf.antt =====
-- The table of stock rows under `_adjust_stock_locked` (apps/inventory/services.py): the row of a key is
-- taken or created, changed, and its movement is recorded.
use ghazatech_inventory_be.Prelude.{
  ℕ, ◌≡◌, ◌∙◌, refl, inl, inr, sym, ap, true, false, Bool, Option, none, some, List, ◌∷◌, find,
  find-put_self, find-put_other, put, Bool-cases,
}
use ghazatech_inventory_be.Prelude.Int.{pos, ◌+ℤ◌}
use ghazatech_inventory_be.Prelude.Result.{Result, ok, >>=-eq-ok, ok_injective, ◌>>=◌}
use ghazatech_inventory_be.Inventory.Adjust.{
  Stock, Movement, AdjustArgs, StockError, Treatment, adjust_stock,
}
use ghazatech_inventory_be.Inventory.AdjustLaws.{adjust_stock-effect}
use ghazatech_inventory_be.Transfer.Store.{StockKey, key_eq}
use ghazatech_inventory_be.Transfer.Keys.{key_eq_iff, key_eq_refl}

pub record StockRow : Type 0 where
  pub key : StockKey
  pub stock : Stock

pub record Shelf : Type 0 where
  pub rows : List StockRow
  pub movements : List (StockKey × Movement)

abbrev pub is_row : StockKey → StockRow → Bool
is_row k r = key_eq k r.key

-- The defaults of `get_or_create`.
abbrev pub empty_stock : ℕ → Stock
empty_stock reorder_level = record {
  current_stock = 0;
  reserved_stock = 0;
  reorder_level = reorder_level;
  average_unit_cost = 0;
  average_unit_cost_excluding_vat = 0;
  recoverable_vat_per_unit = 0;
  capitalized_vat_per_unit = 0;
  last_purchase_cost_excluding_vat = 0;
  last_purchase_cost = 0;
  last_tax_treatment = Treatment.non_vat;
  last_vat_percentage = 0;
}

abbrev pub stock_or_new : ℕ → Option StockRow → Stock
stock_or_new reorder_level none = empty_stock reorder_level
stock_or_new reorder_level (some r) = r.stock

unfoldable pub adjust_at : StockKey → AdjustArgs → Shelf → Result StockError Shelf
adjust_at k a shelf = do
  (s, m, _) ← adjust_stock a (stock_or_new a.product_reorder_level (find (is_row k) shelf.rows))
  ok (record {
    rows = put (is_row k) (record { key = k; stock = s }) shelf.rows;
    movements = (k, m) ∷ shelf.movements;
  })

-- The stock of a key; a key without a row has none.
abbrev pub count_of : Option StockRow → ℕ
count_of none = 0
count_of (some r) = r.stock.current_stock

abbrev pub stock_at : StockKey → Shelf → ℕ
stock_at k shelf = count_of (find (is_row k) shelf.rows)

new_or_there : (level : ℕ) (o : Option StockRow) → (stock_or_new level o).current_stock ≡ count_of o
new_or_there level none = refl
new_or_there level (some r) = refl

apart_keys :
    (k j : StockKey)
    → key_eq k j ≡ false
    → (r : StockRow) → key_eq k r.key ≡ true
    → key_eq j r.key ≡ false
apart_keys k j differ r hit =
    let e : k ≡ r.key = (key_eq_iff k r.key).0 hit in
    elim (Bool-cases (key_eq j r.key)) [
      | inr apart ↦ apart
      | inl same ↦
          let f : j ≡ r.key = (key_eq_iff j r.key).0 same in
          let g : key_eq k j ≡ true = (key_eq_iff k j).1 (e ∙ sym f) in cc
    ]

-- A successful adjustment changes the stock of its key by its quantity, and no other.
pub adjust_at-effect :
    (k j : StockKey) (a : AdjustArgs) (shelf : Shelf) {shelf' : Shelf}
    → adjust_at k a shelf ≡ ok shelf'
    → (pos (stock_at k shelf') ≡ pos (stock_at k shelf) +ℤ a.quantity)
      × (key_eq k j ≡ false → stock_at j shelf' ≡ stock_at j shelf)
unfolding adjust_at
adjust_at-effect k j a shelf {shelf'} h =
    let before = find (is_row k) shelf.rows in
    let ((s, m, low), done, h1) =
      >>=-eq-ok (adjust_stock a (stock_or_new a.product_reorder_level before)) _ h in
    let r : StockRow = record { key = k; stock = s } in
    let rows : put (is_row k) r shelf.rows ≡ shelf'.rows =
      ap (λ (q : Shelf). q.rows) (ok_injective h1) in
    let (moved, _, _, _, _, _, _) = adjust_stock-effect a _ s m low done in
    (
      ap (λ (rs : List StockRow). pos (count_of (find (is_row k) rs))) (sym rows)
          ∙ ap (λ (o : Option StockRow). pos (count_of o))
              (find-put_self (is_row k) r shelf.rows (key_eq_refl k))
          ∙ moved
          ∙ ap (λ (n : ℕ). pos n +ℤ a.quantity) (new_or_there a.product_reorder_level before),
      λ differ.
          ap (λ (rs : List StockRow). count_of (find (is_row j) rs)) (sym rows)
          ∙ ap count_of (
              find-put_other (is_row k) (is_row j) r shelf.rows (apart_keys k j differ)
                (apart_keys k j differ r (key_eq_refl k))),
    )
