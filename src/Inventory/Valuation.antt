-- ===== src/Inventory/Valuation.antt =====
-- The weighted average cost of a receipt (apps/inventory/services.py).
use ghazatech_inventory_be.Prelude.{ℕ, ◌+◌, ◌*◌, ◌≤◌, ◌<◌, arith}
use native.Mathlib.Decide.{dec_lt}
use ghazatech_inventory_be.Prelude.Decimal.{round_half_up}
use ghazatech_inventory_be.Inventory.Adjust.{weighted_cost}

-- A rounded quotient is off by half a unit at most.
round_half_up-close :
    (n d : ℕ)
    → 0 < d
    → (2 * (d * round_half_up n d) ≤ 2 * n + d) × (2 * n ≤ 2 * (d * round_half_up n d) + d)
unfolding round_half_up
round_half_up-close n d h = grind arith

-- After a receipt, the stock at its new average cost is worth what it was worth and what came in, up
-- to half a unit of the last place for each piece.
pub weighted_cost_conserves :
    (before average quantity cost : ℕ)
    → 0 < before + quantity
    → let value = (before + quantity) * weighted_cost before average quantity cost in
      (2 * value ≤ 2 * (before * average + quantity * cost) + (before + quantity))
      × (2 * (before * average + quantity * cost) ≤ 2 * value + (before + quantity))
unfolding weighted_cost
weighted_cost_conserves before average quantity cost h =
    grind (arith, round_half_up-close (before * average + quantity * cost) (before + quantity))

weighted_sum_bounds :
    (before average quantity cost lo hi : ℕ)
    → lo ≤ average
    → lo ≤ cost
    → average ≤ hi
    → cost ≤ hi
    → ((before + quantity) * lo ≤ before * average + quantity * cost)
      × (before * average + quantity * cost ≤ (before + quantity) * hi)
weighted_sum_bounds before average quantity cost lo hi la lc ah ch = grind arith

-- A quotient between two whole numbers rounds to one between them.
round_half_up-le : (n d hi : ℕ) → 0 < d → n ≤ d * hi → round_half_up n d ≤ hi
round_half_up-le n d hi h b = elim (dec_lt hi (round_half_up n d)) [
  | yes over ↦
      let step : d * (hi + 1) ≤ d * round_half_up n d = grind arith in
      absurd (omega (arith, round_half_up-close n d h))
  | no fits ↦ omega arith
]

round_half_up-ge : (n d lo : ℕ) → 0 < d → d * lo ≤ n → lo ≤ round_half_up n d
round_half_up-ge n d lo h b = elim (dec_lt (round_half_up n d) lo) [
  | yes under ↦
      let step : d * (round_half_up n d + 1) ≤ d * lo = grind arith in
      absurd (omega (arith, round_half_up-close n d h))
  | no fits ↦ omega arith
]

-- The new average lies between any bounds of the old average and the incoming cost.
pub weighted_cost_bounds :
    (before average quantity cost lo hi : ℕ)
    → 0 < before + quantity
    → lo ≤ average
    → lo ≤ cost
    → average ≤ hi
    → cost ≤ hi
    → (lo ≤ weighted_cost before average quantity cost)
      × (weighted_cost before average quantity cost ≤ hi)
unfolding weighted_cost
weighted_cost_bounds before average quantity cost lo hi h la lc ah ch =
    let (below, above) = weighted_sum_bounds before average quantity cost lo hi la lc ah ch in
    let n = before * average + quantity * cost in
    let r1 = round_half_up-ge n (before + quantity) lo h below in
    let r2 = round_half_up-le n (before + quantity) hi h above in ground arith
