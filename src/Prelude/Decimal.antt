-- ===== src/Prelude/Decimal.antt =====
-- Python's `Decimal.quantize` on a quotient of whole numbers. A decimal with a fixed number of
-- places is the number of its last place's units, so `round_half_up n d` is n / d rounded to the
-- unit. The source divides at 28 significant digits before it rounds; at the columns' sizes
-- (14 to 16 digits) that division is exact at a tie and too fine to move any other quotient over
-- one, so both ways round to the same unit.
use Prim.Native.Nat.{ℕ, suc, ◌+◌, ◌*◌, ◌/◌, ◌%◌}
use ghazatech_inventory_be.Prelude.Tests.{ltb, ◌==◌, if◌then◌else◌}
use ghazatech_inventory_be.Prelude.Int.{ℤ, pos, negsuc, sub_ℕ}

-- `ROUND_HALF_UP`. PostgreSQL rounds so when a `numeric` column has fewer places than what is saved,
-- and Django hands it such a value as it is.
unfoldable pub round_half_up : ℕ → ℕ → ℕ
round_half_up n d = if ltb (2 * (n % d)) d then n / d else n / d + 1

-- `ROUND_HALF_EVEN`, which is the default.
unfoldable pub round_half_even : ℕ → ℕ → ℕ
round_half_even n d =
    if ltb (2 * (n % d)) d
    then n / d
    else if ltb d (2 * (n % d))
    then n / d + 1
    else if n / d % 2 == 0
    then n / d
    else n / d + 1

-- Both modes round the magnitude and keep the sign.
abbrev pub on_magnitude : (ℕ → ℕ) → ℤ → ℤ
on_magnitude f (pos n) = pos (f n)
on_magnitude f (negsuc n) = sub_ℕ 0 (f (suc n))

-- What a column with two places keeps of a value in ten-thousandths.
unfoldable pub cents : ℤ → ℤ
unfolding round_half_up
cents = on_magnitude (λ n. round_half_up n 100)
