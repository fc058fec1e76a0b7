-- ===== src/Transfer/Destination.antt =====
-- `_destination_product` and `_destination_variant` of apps/transfers/services.py: the catalogue rows
-- of the destination tenant, found or created.
use ghazatech_inventory_be.Prelude.{
  ℕ, ◌+◌, Bool, true, false, not, ◌&&◌, Option, none, some, List, [], ◌∷◌, ◌++◌, ◌==◌,
  if◌then◌else◌, find, any, put,
}
use ghazatech_inventory_be.Prelude.Result.{Result, ok, raise_if, or_raise, ◌>>◌, ◌>>=◌}
use ghazatech_inventory_be.Transfer.Store.{TaxMode, Product, Variant, Named, TenantDb}
use ghazatech_inventory_be.Transfer.Move.{TransferError, destination_inactive, name_missing}
use ghazatech_inventory_be.Transfer.World.{Branch}

-- `.get(pk=…).name`
abbrev pub name_of : ℕ → List Named → Result TransferError ℕ
name_of pk rows = do row ← or_raise (find (λ r. r.pk == pk) rows) name_missing; ok row.name

-- `.get_or_create(name=…)`: the row's number, and the table with the next free number.
abbrev pub get_or_create : ℕ → List Named → ℕ → ℕ × List Named × ℕ
get_or_create name rows next = elim (find (λ r. r.name == name) rows) [
  | some row ↦ (row.pk, rows, next)
  | none ↦ (next, rows ++ record { pk = next; name = name } ∷ [], next + 1)
]

-- `destination_branch.tax_mode == "VAT"`
abbrev pub is_vat_branch : Branch → Bool
is_vat_branch b = elim b.tax_mode [ some TaxMode.vat ↦ true | _ ↦ false ]

abbrev same_sku : Branch → Product → Product → Bool
same_sku branch source p = (p.branch_id == branch.pk) && (p.sku == source.sku) && not p.is_deleted

-- A barcode that the destination branch uses already is not copied.
abbrev free_barcode : Branch → Product → TenantDb → ℕ
free_barcode branch source db =
    if not (source.barcode == 0)
      && any (λ p. (p.branch_id == branch.pk) && (p.barcode == source.barcode)) db.products
    then 0
    else source.barcode

-- A missing image of the product that is found is filled in.
abbrev found_product : Product → ℕ → TenantDb → Result TransferError (Product × TenantDb)
found_product p image db =
    let filled = record p { product_image = image } in
    do
      raise_if (not p.is_active) destination_inactive
      ok (
          if not (image == 0) && (p.product_image == 0)
          then (filled, record db { products = put (λ q. q.pk == p.pk) filled db.products })
          else (p, db))

abbrev cloned : Branch → Product → ℕ → ℕ → ℕ → ℕ → ℕ → Product
cloned branch source image barcode brand category pk = record {
  pk = pk;
  branch_id = branch.pk;
  sku = source.sku;
  barcode = barcode;
  brand_id = brand;
  category_id = category;
  details = source.details;
  product_image = image;
  tax_treatment = if is_vat_branch branch then TaxMode.vat else TaxMode.non_vat;
  vat_inclusive = is_vat_branch branch;
  vat_rate = if is_vat_branch branch then 5 else 0;
  reorder_level = source.reorder_level;
  is_active = true;
  is_deleted = false;
}

abbrev create_product :
    Branch → Product → ℕ → TenantDb → TenantDb → Result TransferError (Product × TenantDb)
create_product branch source image source_db db = do
  brand_name ← name_of source.brand_id source_db.brands
  category_name ← name_of source.category_id source_db.categories
  let (brand, brands, n) = get_or_create brand_name db.brands db.next_pk
  let (category, categories, m) = get_or_create category_name db.categories n
  let product = cloned branch source image (free_barcode branch source db) brand category m
  ok (
    product,
    record db {
      products = db.products ++ product ∷ [];
      brands = brands;
      categories = categories;
      next_pk = m + 1;
    },
  )

-- `stored` says whether the media storage holds a file.
unfoldable pub destination_product :
    (ℕ → Bool) → Product → Branch → TenantDb → TenantDb → Result TransferError (Product × TenantDb)
destination_product stored source branch source_db db =
    let image : ℕ = if stored source.product_image then source.product_image else 0 in
    elim (find (same_sku branch source) db.products) [
      | some p ↦ found_product p image db
      | none ↦ create_product branch source image source_db db
    ]

abbrev same_variant : Variant → Product → Variant → Bool
same_variant source product v =
    (v.product_id == product.pk)
    && (v.attributes == source.attributes)
    && (if v.is_base then source.is_base else not source.is_base)

unfoldable pub destination_variant : Option Variant → Product → TenantDb → Option Variant × TenantDb
destination_variant none product db = (none, db)
destination_variant (some source) product db =
    elim (find (same_variant source product) db.variants) [
      | some v ↦ (some v, db)
      | none ↦
          let v : Variant = record {
            pk = db.next_pk;
            product_id = product.pk;
            attributes = source.attributes;
            prices = source.prices;
            is_base = source.is_base;
            is_active = true;
          } in
          (some v, record db { variants = db.variants ++ v ∷ []; next_pk = db.next_pk + 1 })
    ]
