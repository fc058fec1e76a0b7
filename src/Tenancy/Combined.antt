-- ===== src/Tenancy/Combined.antt =====
-- `list` of `CombinedPhysicalBranchListMixin` (apps/branch_data/combined_views.py) for the consolidated
-- branch: the rows of the tenants, ordered and cut into pages. The query of a tenant, with its filters
-- and its serializer, is a parameter.
use ghazatech_inventory_be.Prelude.{
  ℕ, zero, suc, ◌+◌, ◌-◌, ◌*◌, Bool, true, false, not, Option, none, some, List, [], ◌∷◌, ◌++◌, map,
  ltb, ◌==◌, if◌then◌else◌, any, select, length, smaller,
}
use ghazatech_inventory_be.Prelude.Int.{ℤ, pos, negsuc}
use ghazatech_inventory_be.Prelude.Result.{Result, ok, raise_if, ◌>>◌}

-- An active branch with a schema of its own; `code` stands for its code in capitals, which no two
-- branches share.
pub record PhysicalBranch : Type 0 where
  pub pk : ℕ
  pub code : ℕ
  pub is_vat : Bool

-- `source_branch` of the request.
pub data SourceFilter : Type 0 where
  all_sources vat_sources non_vat_sources : SourceFilter
  one_source : ℕ → SourceFilter

-- A serialized row: its id, and the field that the request orders by, whose values are numbers in
-- their order.
pub record Row : Type 0 where
  pub id : ℕ
  pub field : Option ℕ

-- `add_source_metadata`
pub record SourceRow : Type 0 where
  pub row : Row
  pub source_branch : ℕ
  pub source_branch_id : ℕ

pub data ListError : Type 0 where
  unknown_source : ListError

pub record Page : Type 0 where
  pub count : ℕ
  pub results : List SourceRow

abbrev pub is_wanted : SourceFilter → PhysicalBranch → Bool
is_wanted all_sources b = true
is_wanted vat_sources b = b.is_vat
is_wanted non_vat_sources b = not b.is_vat
is_wanted (one_source code) b = b.code == code

abbrev pub is_known : SourceFilter → List PhysicalBranch → Bool
is_known (one_source code) branches = any (λ b. b.code == code) branches
is_known _ branches = true

abbrev pub with_source : PhysicalBranch → Row → SourceRow
with_source b r = record { row = r; source_branch = b.code; source_branch_id = b.pk }

abbrev pub source_rows : (PhysicalBranch → List Row) → List PhysicalBranch → List SourceRow
source_rows query [] = []
source_rows query (b ∷ branches) = map (with_source b) (query b) ++ source_rows query branches

-- `(r.get(key) is not None, r.get(key))`, a missing value before every other.
abbrev pub sort_key : SourceRow → ℕ
sort_key r = elim r.row.field [ none ↦ 0 | some n ↦ n + 1 ]

abbrev pub comes_before : Bool → SourceRow → SourceRow → Bool
comes_before true a b = ltb (sort_key b) (sort_key a)
comes_before false a b = ltb (sort_key a) (sort_key b)

-- A row goes before the first that does not come before it.
unfoldable pub insert : Bool → SourceRow → List SourceRow → List SourceRow
insert reverse a [] = a ∷ []
insert reverse a (b ∷ rows) =
    let rest = insert reverse a rows in if comes_before reverse b a then b ∷ rest else a ∷ b ∷ rows

-- `rows.sort(key=…, reverse=…)`: rows with one key keep their order, in either direction.
unfoldable pub sort : Bool → List SourceRow → List SourceRow
unfolding insert
sort reverse [] = []
sort reverse (a ∷ rows) = insert reverse a (sort reverse rows)

unfoldable pub take {ℓ} : {A : Type ℓ} → ℕ → List A → List A
take zero xs = []
take (suc n) [] = []
take (suc n) (x ∷ xs) = x ∷ take n xs

unfoldable pub drop {ℓ} : {A : Type ℓ} → ℕ → List A → List A
drop zero xs = xs
drop (suc n) [] = []
drop (suc n) (x ∷ xs) = drop n xs

-- `max(1, min(page_size, 500))`, 20 for a text that is no number.
abbrev pub size_of : Option ℤ → ℕ
size_of none = 20
size_of (some (pos zero)) = 1
size_of (some (pos n)) = smaller n 500
size_of (some (negsuc _)) = 1

abbrev pub page_of : Option ℤ → ℕ
page_of none = 1
page_of (some (pos zero)) = 1
page_of (some (pos n)) = n
page_of (some (negsuc _)) = 1

-- `rows[start:end]`
abbrev pub results : ℕ → ℕ → List SourceRow → List SourceRow
results page size rows = take size (drop ((page - 1) * size) rows)

abbrev pub ordered_rows :
    (PhysicalBranch → List Row) → List PhysicalBranch → SourceFilter → Bool → List SourceRow
ordered_rows query branches filter reverse =
    sort reverse (source_rows query (select (is_wanted filter) branches))

unfoldable pub combined_list :
    (PhysicalBranch → List Row)
    → List PhysicalBranch
    → SourceFilter
    → Bool
    → Option ℤ
    → Option ℤ
    → Result ListError Page
unfolding sort take drop
combined_list query branches filter reverse page page_size =
    let rows = ordered_rows query branches filter reverse in
    do
      raise_if (not (is_known filter branches)) unknown_source
      ok (record { count = length rows; results = results (page_of page) (size_of page_size) rows })
