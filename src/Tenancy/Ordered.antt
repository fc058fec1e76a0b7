-- ===== src/Tenancy/Ordered.antt =====
-- The order of a combined list (apps/branch_data/combined_views.py).
use ghazatech_inventory_be.Prelude.{
  ℕ, ◌≡◌, ◌∙◌, refl, Bool, true, false, List, [], ◌∷◌, select, length, arith, Bool-cases, inl, inr,
}
use ghazatech_inventory_be.Tenancy.Combined.{
  PhysicalBranch, SourceFilter, Row, SourceRow, is_wanted, source_rows, comes_before, insert, sort,
  ordered_rows,
}

-- No row comes before an earlier one.
abbrev pub IsFirst : Bool → SourceRow → List SourceRow → Type 0
IsFirst reverse a [] = Unit
IsFirst reverse a (b ∷ rows) = (comes_before reverse b a ≡ false) × IsFirst reverse a rows

abbrev pub AllOrdered : Bool → List SourceRow → Type 0
AllOrdered reverse [] = Unit
AllOrdered reverse (a ∷ rows) = IsFirst reverse a rows × AllOrdered reverse rows

-- How many rows pass a test.
abbrev pub count : (SourceRow → Bool) → List SourceRow → ℕ
count p rows = length (select p rows)

before_not_after :
    (reverse : Bool) (a b : SourceRow)
    → comes_before reverse b a ≡ true
    → comes_before reverse a b ≡ false
before_not_after true a b h = ground arith
before_not_after false a b h = ground arith

not_before_trans :
    (reverse : Bool) (a b c : SourceRow)
    → comes_before reverse b a ≡ false
    → comes_before reverse c b ≡ false
    → comes_before reverse c a ≡ false
not_before_trans true a b c h k = ground arith
not_before_trans false a b c h k = ground arith

IsFirst-trans :
    (reverse : Bool) (a b : SourceRow) (rows : List SourceRow)
    → comes_before reverse b a ≡ false
    → IsFirst reverse b rows
    → IsFirst reverse a rows
IsFirst-trans reverse a b [] h f = tt
IsFirst-trans reverse a b (c ∷ rows) h (k, f) =
    (not_before_trans reverse a b c h k, IsFirst-trans reverse a b rows h f)

insert-IsFirst :
    (reverse : Bool) (a b : SourceRow) (rows : List SourceRow)
    → comes_before reverse a b ≡ false
    → IsFirst reverse b rows
    → IsFirst reverse b (insert reverse a rows)
unfolding insert
insert-IsFirst reverse a b [] h f = (h, tt)
insert-IsFirst reverse a b (c ∷ rows) h (k, f) = elim (Bool-cases (comes_before reverse c a)) [
  | inl yes_before ↦ rw yes_before (k, insert-IsFirst reverse a b rows h f)
  | inr not_before ↦ rw not_before (h, (k, f))
]

insert-AllOrdered :
    (reverse : Bool) (a : SourceRow) (rows : List SourceRow)
    → AllOrdered reverse rows
    → AllOrdered reverse (insert reverse a rows)
unfolding insert
insert-AllOrdered reverse a [] o = (tt, tt)
insert-AllOrdered reverse a (b ∷ rows) (f, o) = elim (Bool-cases (comes_before reverse b a)) [
  | inl yes_before ↦ rw yes_before (
    insert-IsFirst reverse a b rows (before_not_after reverse a b yes_before) f,
    insert-AllOrdered reverse a rows o,
  )
  | inr not_before ↦
      rw not_before ((not_before, IsFirst-trans reverse a b rows not_before f), (f, o))
]

sort-AllOrdered : (reverse : Bool) (rows : List SourceRow) → AllOrdered reverse (sort reverse rows)
unfolding sort
sort-AllOrdered reverse [] = tt
sort-AllOrdered reverse (a ∷ rows) =
    insert-AllOrdered reverse a (sort reverse rows) (sort-AllOrdered reverse rows)

count-insert :
    (p : SourceRow → Bool) (reverse : Bool) (a : SourceRow) (rows : List SourceRow)
    → count p (insert reverse a rows) ≡ count p (a ∷ rows)
unfolding insert
count-insert p reverse a [] = refl
count-insert p reverse a (b ∷ rows) = ground (arith, count-insert p reverse a rows)

count-sort :
    (p : SourceRow → Bool) (reverse : Bool) (rows : List SourceRow)
    → count p (sort reverse rows) ≡ count p rows
unfolding sort
count-sort p reverse [] = refl
count-sort p reverse (a ∷ rows) =
    count-insert p reverse a (sort reverse rows) ∙ ground (arith, count-sort p reverse rows)

-- The rows of a combined list stand in the order asked for, and are those of the wanted branches: as
-- many pass any test.
pub ordered_rows-AllOrdered :
    (query : PhysicalBranch → List Row) (branches : List PhysicalBranch) (filter : SourceFilter)
    (reverse : Bool) (p : SourceRow → Bool)
    → AllOrdered reverse (ordered_rows query branches filter reverse)
      × (count p (ordered_rows query branches filter reverse)
          ≡ count p (source_rows query (select (is_wanted filter) branches)))
ordered_rows-AllOrdered query branches filter reverse p =
    let rows = source_rows query (select (is_wanted filter) branches) in
    (sort-AllOrdered reverse rows, count-sort p reverse rows)
