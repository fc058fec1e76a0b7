-- ===== src/Tenancy/Pages.antt =====
-- The pages of a combined list (apps/branch_data/combined_views.py).
use ghazatech_inventory_be.Prelude.{
  ℕ, zero, suc, ◌+◌, ◌-◌, ◌*◌, ◌≤◌, ◌≡◌, ◌∙◌, refl, sym, ap, Bool, true, select, not, Option, none,
  some, List, [], ◌∷◌, ◌++◌, length, arith,
}
use ghazatech_inventory_be.Prelude.Int.{ℤ, pos, negsuc}
use ghazatech_inventory_be.Prelude.Result.{ok, raise_if, >>=-eq-ok, ok_injective}
use ghazatech_inventory_be.Tenancy.Ordered.{AllOrdered, count, ordered_rows-AllOrdered}
use ghazatech_inventory_be.Tenancy.Combined.{
  is_wanted, source_rows, PhysicalBranch, SourceFilter, Row, SourceRow, Page, take, drop, size_of,
  ordered_rows, combined_list, is_known, unknown_source,
}

take-nil {ℓ} : {A : Type ℓ} (n : ℕ) → take {A = A} n [] ≡ []
unfolding take
take-nil zero = refl
take-nil (suc n) = refl

take-drop {ℓ} :
    {A : Type ℓ} (s m : ℕ) (xs : List A) → take s xs ++ take m (drop s xs) ≡ take (s + m) xs
unfolding take drop
take-drop zero m xs = let e : zero + m ≡ m = omega arith in rw e
take-drop (suc s) m [] = take-nil m ∙ sym (take-nil (suc s + m))
take-drop (suc s) m (x ∷ xs) =
    let e : suc s + m ≡ suc (s + m) = omega arith in rw (e, take-drop s m xs)

take-all {ℓ} : {A : Type ℓ} (n : ℕ) (xs : List A) → length xs ≤ n → take n xs ≡ xs
unfolding take
take-all zero [] h = refl
take-all zero (x ∷ xs) h = absurd (omega (arith, h))
take-all (suc n) [] h = refl
take-all (suc n) (x ∷ xs) h = rw (take-all n xs (omega (arith, h)))

length-take {ℓ} : {A : Type ℓ} (n : ℕ) (xs : List A) → length (take n xs) ≤ n
unfolding take
length-take zero xs = omega arith
length-take (suc n) [] = omega arith
length-take (suc n) (x ∷ xs) = omega (arith, length-take n xs)

-- The pages 1 to n of a list.
abbrev pub first_pages : (ℕ → Page) → ℕ → List SourceRow
first_pages page zero = []
first_pages page (suc n) = first_pages page n ++ (page n).results

module _ (query : PhysicalBranch → List Row) (branches : List PhysicalBranch)
    (filter : SourceFilter) (reverse : Bool) (page_size : Option ℤ) (page : ℕ → Page)
    (listed : (k : ℕ)
      → combined_list query branches filter reverse (some (pos (suc k))) page_size
        ≡ ok (page k)) where
  page-results :
      (k : ℕ)
      → ((page k).results
          ≡ take
              (size_of page_size)
              (drop (k * size_of page_size) (ordered_rows query branches filter reverse)))
        × ((page k).count ≡ length (ordered_rows query branches filter reverse))
  unfolding combined_list
  page-results k =
      let (_, _, made) =
        >>=-eq-ok (raise_if (not (is_known filter branches)) unknown_source) _ (listed k) in
      let e : suc k - 1 ≡ k = omega arith in
      let same = ok_injective made in
      (
        ap (λ (p : Page). p.results) (sym same)
            ∙ ap
                (λ (n : ℕ).
                  take (size_of page_size)
                    (drop (n * size_of page_size) (ordered_rows query branches filter reverse)))
                e,
        ap (λ (p : Page). p.count) (sym same),
      )

  first_pages-take :
      (n : ℕ)
      → first_pages page n
        ≡ take (n * size_of page_size) (ordered_rows query branches filter reverse)
  unfolding take
  first_pages-take zero = let e : zero * size_of page_size ≡ zero = omega arith in rw e
  first_pages-take (suc n) =
      let size = size_of page_size in
      let all_rows = ordered_rows query branches filter reverse in
      let e : n * size + size ≡ suc n * size = ground arith in
      ap (λ (rs : List SourceRow). rs ++ (page n).results) (first_pages-take n)
      ∙ ap (λ (rs : List SourceRow). take (n * size) all_rows ++ rs) (page-results n).0
      ∙ take-drop (n * size) size all_rows
      ∙ ap (λ (m : ℕ). take m all_rows) e

size_bound : (page_size : Option ℤ) → size_of page_size ≤ 500
size_bound none = omega arith
size_bound (some (pos zero)) = omega arith
size_bound (some (pos (suc n))) = ground arith
size_bound (some (negsuc n)) = omega arith

-- The first pages of a combined list, as many as hold its count, make together a list in the order
-- asked for with the rows of the wanted branches, as many as pass any test; each page gives their
-- number and has five hundred rows at most.
pub combined_list-pages :
    (query : PhysicalBranch → List Row) (branches : List PhysicalBranch) (filter : SourceFilter)
    (reverse : Bool) (page_size : Option ℤ) (page : ℕ → Page) (n : ℕ)
    → ((k : ℕ)
        → combined_list query branches filter reverse (some (pos (suc k))) page_size ≡ ok (page k))
    → (page 0).count ≤ n * size_of page_size
    → AllOrdered reverse (first_pages page n)
      × ((p : SourceRow → Bool)
          → count p (first_pages page n)
            ≡ count p (source_rows query (select (is_wanted filter) branches)))
      × ((k : ℕ) → (page k).count ≡ length (first_pages page n))
      × ((k : ℕ) → length (page k).results ≤ 500)
combined_list-pages query branches filter reverse page_size page n listed enough =
    let all_rows = ordered_rows query branches filter reverse in
    let at = page-results query branches filter reverse page_size page listed in
    let whole =
      first_pages-take query branches filter reverse page_size page listed n
      ∙ take-all (n * size_of page_size) all_rows (rw (at 0).1 at enough) in
    let law = ordered_rows-AllOrdered query branches filter reverse in
    (
      rw whole (law (λ _. true)).0,
      λ p. ap (count p) whole ∙ (law p).1,
      λ k. (at k).1 ∙ ap length (sym whole),
      λ k. rw (at k).0 (
          omega (
            arith,
            length-take (size_of page_size) (drop (k * size_of page_size) all_rows),
            size_bound page_size,
          )),
    )
