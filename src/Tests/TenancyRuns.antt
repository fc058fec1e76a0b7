-- ===== src/Tests/TenancyRuns.antt =====
-- The theorems on combined lists at two branches with three rows.
use ghazatech_inventory_be.Prelude.{
  ℕ, suc, ◌≡◌, ◌≤◌, refl, true, false, Bool, Option, none, some, List, [], ◌∷◌, map, length, select,
  arith,
}
use ghazatech_inventory_be.Prelude.Int.{pos}
use ghazatech_inventory_be.Tenancy.Combined.{
  PhysicalBranch, all_sources, Row, SourceRow, Page, is_wanted, source_rows, insert, sort, take,
  drop, results, ordered_rows, combined_list,
}
use ghazatech_inventory_be.Tenancy.Ordered.{AllOrdered, count}
use ghazatech_inventory_be.Tenancy.Pages.{first_pages, combined_list-pages}

abbrev branch : ℕ → Bool → PhysicalBranch
branch pk is_vat = record { pk = pk; code = pk; is_vat = is_vat }

abbrev row : ℕ → Option ℕ → Row
row id field = record { id = id; field = field }

abbrev branches : List PhysicalBranch
branches = branch 1 true ∷ branch 2 false ∷ []

abbrev rows_of_tax : Bool → List Row
rows_of_tax true = row 4 (some 70) ∷ row 5 none ∷ []
rows_of_tax false = row 4 (some 90) ∷ []

abbrev query : PhysicalBranch → List Row
query b = rows_of_tax b.is_vat

abbrev two_each : ℕ → Page
two_each k = record {
  count = length (ordered_rows query branches all_sources true);
  results = results (suc k) 2 (ordered_rows query branches all_sources true);
}

-- The second branch's row, then the two of the first, the missing value last.
three_rows : map (λ r. r.source_branch_id) (first_pages two_each 2) ≡ 2 ∷ 1 ∷ 1 ∷ []
unfolding sort insert take drop
three_rows = refl

combined_list-pages_example :
    AllOrdered true (first_pages two_each 2)
    × ((p : SourceRow → Bool)
        → count p (first_pages two_each 2)
          ≡ count p (source_rows query (select (is_wanted all_sources) branches)))
    × ((k : ℕ) → (two_each k).count ≡ length (first_pages two_each 2))
    × ((k : ℕ) → length (two_each k).results ≤ 500)
unfolding combined_list sort insert
combined_list-pages_example =
    combined_list-pages query branches all_sources true (some (pos 2)) two_each 2 (λ k. refl)
      (omega arith)
