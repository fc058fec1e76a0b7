-- ===== src/Numbering/Free.antt =====
-- The search for a free document number ends (apps/finance/accounting.py).
use ghazatech_inventory_be.Prelude.{
  ℕ, zero, suc, ◌≤◌, ◌<◌, ◌≡◌, Bool, true, false, ◌&&◌, Option, none, some, List, [], ◌∷◌, length,
  leb, if◌then◌else◌, arith, Bool-cases, inl, inr, option_eq,
}
use ghazatech_inventory_be.Numbering.{
  Suffix, is_candidate, is_taken, first_sequence, next_free, next_sequence,
}

abbrev is_from : ℕ → Option ℕ → Bool
is_from n none = false
is_from n (some m) = leb n m

-- How many rows hold the number or a later one.
abbrev count_from : ℕ → List Suffix → ℕ
count_from n [] = 0
count_from n (row ∷ rows) =
    let rest = count_from n rows in if is_from n row.value then suc rest else rest

count_from_bound : (n : ℕ) (rows : List Suffix) → count_from n rows ≤ length rows
count_from_bound n [] = ground arith
count_from_bound n (row ∷ rows) = ground (arith, count_from_bound n rows)

is_from_step : (n : ℕ) (o : Option ℕ) → is_from (suc n) o ≡ true → is_from n o ≡ true
is_from_step n none h = h
is_from_step n (some m) h = ground arith

candidate-is_from :
    (n : ℕ) (p : Bool) (o : Option ℕ)
    → (p && option_eq o (some n)) ≡ true
    → (is_from n o ≡ true) × (is_from (suc n) o ≡ false)
candidate-is_from n false o h = cc
candidate-is_from n true none h = cc
candidate-is_from n true (some m) h = (ground arith, ground arith)

count_from_step : (n : ℕ) (rows : List Suffix) → count_from (suc n) rows ≤ count_from n rows
count_from_step n [] = ground arith
count_from_step n (row ∷ rows) = ground (arith, count_from_step n rows, is_from_step n row.value)

-- A taken number is counted once more than the numbers after it.
count_from_taken :
    (n : ℕ) (rows : List Suffix)
    → is_taken n rows ≡ true
    → count_from (suc n) rows < count_from n rows
count_from_taken n [] h = cc
count_from_taken n (row ∷ rows) h = elim (Bool-cases (is_candidate n row)) [
  | inl here ↦
      let (at, after) = candidate-is_from n row.padded row.value here in
      ground (arith, count_from_step n rows, at, after)
  | inr elsewhere ↦ ground (arith, count_from_taken n rows, is_from_step n row.value, elsewhere)
]

past_taken :
    (start m : ℕ) (rows : List Suffix)
    → start ≤ m
    → is_taken start rows ≡ true
    → is_taken m rows ≡ false
    → suc start ≤ m
past_taken start m rows low taken free = elim (Bool-cases (leb (suc start) m)) [
  | inl above ↦ ground arith
  | inr below ↦ let same : start ≡ m = ground arith in absurd (cc)
]

-- The number is the first free one from `start`.
abbrev pub IsFirstFree : ℕ → List Suffix → ℕ → Type 0
IsFirstFree start rows n =
    (start ≤ n) × (is_taken n rows ≡ false) × ((m : ℕ) → start ≤ m → m < n → is_taken m rows ≡ true)

next_free-IsFirstFree :
    (fuel : ℕ) (rows : List Suffix) (start : ℕ)
    → count_from start rows < fuel
    → (n : ℕ) × (next_free fuel rows start ≡ some n) × IsFirstFree start rows n
unfolding next_free
next_free-IsFirstFree zero rows start h = absurd (ground arith)
next_free-IsFirstFree (suc fuel) rows start h = elim (Bool-cases (is_taken start rows)) [
  | inr free ↦ (start, (rw free), (ground arith, free, λ m from below. absurd (ground arith)))
  | inl taken ↦
      let (n, found, (from, free, passed)) =
        next_free-IsFirstFree fuel rows (suc start)
          (ground (arith, count_from_taken start rows taken)) in
      (
        n,
        (rw taken found),
        (
          ground arith,
          free,
          λ m low below. elim (Bool-cases (is_taken m rows)) [
            | inl held ↦ held
            | inr unused ↦ passed m (past_taken start m rows low taken unused) below
          ],
        ),
      )
]

-- Whatever row the database lists first, the search for a document number ends: it returns the
-- first free number from where it begins.
pub next_sequence_ends :
    (latest : List Suffix → Option Suffix) (rows : List Suffix)
    → (n : ℕ) × (next_sequence latest rows ≡ some n)
      × IsFirstFree (first_sequence (latest rows) (length rows)) rows n
unfolding next_sequence
next_sequence_ends latest rows =
    let start = first_sequence (latest rows) (length rows) in
    next_free-IsFirstFree (suc (length rows)) rows start
      (ground (arith, count_from_bound start rows))
