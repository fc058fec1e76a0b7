-- ===== src/Prelude/Lists.antt =====
-- Tables as lists of rows: queries by a Boolean test, and an update that inserts or replaces.
use Prim.Native.Nat.{ℕ, suc}
use mathlib.Core.Path.{◌≡◌}
use mathlib.Core.Bool.{Bool, true, false, ◌&&◌, ◌||◌}
use mathlib.Core.List.{List, [], ◌∷◌}
use mathlib.Core.Option.{Option, none, some}
use native.Mathlib.Omega.{arith}
use ghazatech_inventory_be.Prelude.Tests.{if◌then◌else◌}

module _ {ℓ} {A : Type ℓ} where
  abbrev pub length : List A → ℕ
  length [] = 0
  length (x ∷ xs) = suc (length xs)

  abbrev pub is_empty : List A → Bool
  is_empty [] = true
  is_empty (x ∷ xs) = false

  -- `.filter(…).first()`
  abbrev pub find : (A → Bool) → List A → Option A
  find p [] = none
  find p (x ∷ xs) = if p x then some x else find p xs

  -- `.filter(…)`
  abbrev pub select : (A → Bool) → List A → List A
  select p [] = []
  select p (x ∷ xs) = let rest = select p xs in if p x then x ∷ rest else rest

  -- `.filter(…).exists()`, and Python's `any`
  abbrev pub any : (A → Bool) → List A → Bool
  any p [] = false
  any p (x ∷ xs) = p x || any p xs

  -- Python's `all`
  abbrev pub all : (A → Bool) → List A → Bool
  all p [] = true
  all p (x ∷ xs) = p x && all p xs

  -- Saves a row over the first one that the test names, or appends it.
  abbrev pub put : (A → Bool) → A → List A → List A
  put p a [] = a ∷ []
  put p a (x ∷ xs) = let rest = put p a xs in if p x then a ∷ xs else x ∷ rest

  pub find-put_self :
      (p : A → Bool) (a : A) (xs : List A) → p a ≡ true → find p (put p a xs) ≡ some a
  find-put_self p a [] h = ground arith
  find-put_self p a (x ∷ xs) h = ground (arith, find-put_self p a xs h)

  pub find-put_other :
      (p q : A → Bool) (a : A) (xs : List A)
      → ((x : A) → p x ≡ true → q x ≡ false)
      → q a ≡ false
      → find q (put p a xs) ≡ find q xs
  find-put_other p q a [] apart h = ground arith
  find-put_other p q a (x ∷ xs) apart h = ground (arith, apart x, find-put_other p q a xs apart h)

  -- The row that a query returns passes the test.
  pub find-passes : (p : A → Bool) (xs : List A) {a : A} → find p xs ≡ some a → p a ≡ true
  find-passes p [] h = ground arith
  find-passes p (x ∷ xs) {a} h = ground (arith, find-passes p xs {a = a})
