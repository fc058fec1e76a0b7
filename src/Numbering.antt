-- ===== src/Numbering.antt =====
-- The next free document number of a month: `_next_system_number` of apps/finance/accounting.py,
-- which the document generators of apps/purchases/serializers.py repeat with their own prefix.
pub mod Free
use ghazatech_inventory_be.Prelude.{
  ℕ, zero, suc, ◌+◌, ◌≡◌, Bool, true, false, ◌&&◌, Option, none, some, List, length, any, option_eq,
  or_default, if◌then◌else◌,
}

-- The rest of a stored number after the month's prefix: what Python's `int` reads from it, if
-- it reads a number, whether it is that number's zero-padded form, and whether the prefix is that of
-- the current month.
pub record Suffix : Type 0 where
  pub value : Option ℕ
  pub padded : Bool
  pub in_month : Bool

-- The stored text is the candidate `f"{prefix}{sequence:05d}"`.
abbrev pub is_candidate : ℕ → Suffix → Bool
is_candidate sequence row = row.padded && option_eq row.value (some sequence)

-- `queryset.filter(entry_number=candidate).exists()`
abbrev pub is_taken : ℕ → List Suffix → Bool
is_taken sequence rows = any (is_candidate sequence) rows

-- Where the search begins, from the row that the database lists first and the number of rows.
abbrev pub first_sequence : Option Suffix → ℕ → ℕ
first_sequence none count = 1
first_sequence (some row) count = or_default row.value count + 1

-- The `while` loop, on fuel.
unfoldable pub next_free : ℕ → List Suffix → ℕ → Option ℕ
next_free zero rows sequence = none
next_free (suc fuel) rows sequence =
    let rest = next_free fuel rows (suc sequence) in
    if is_taken sequence rows then rest else some sequence

-- One more turn than there are rows, which is enough.
unfoldable pub next_sequence : (List Suffix → Option Suffix) → List Suffix → Option ℕ
next_sequence latest rows =
    next_free (suc (length rows)) rows (first_sequence (latest rows) (length rows))
