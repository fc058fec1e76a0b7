-- ===== src/Transfer/Keys.antt =====
-- The tests on stock keys and references.
use ghazatech_inventory_be.Prelude.{◌≡◌, ◌↔◌, refl, true, option_eq_iff, arith}
use ghazatech_inventory_be.Transfer.Store.{
  StockKey, key_eq, Reference, reference_eq, Direction, direction_eq, MovementType,
  movement_type_eq,
}

pub key_eq_iff : (a b : StockKey) → (key_eq a b ≡ true) ↔ (a ≡ b)
key_eq_iff a b = ground (arith, option_eq_iff a.variant_id b.variant_id)

pub key_eq_refl : (a : StockKey) → key_eq a a ≡ true
key_eq_refl a = (key_eq_iff a a).1 refl

direction_eq_iff : (a b : Direction) → (direction_eq a b ≡ true) ↔ (a ≡ b)
direction_eq_iff a b = ground arith

pub reference_eq_iff : (a b : Reference) → (reference_eq a b ≡ true) ↔ (a ≡ b)
reference_eq_iff a b = ground arith

pub movement_type_eq_iff : (a b : MovementType) → (movement_type_eq a b ≡ true) ↔ (a ≡ b)
movement_type_eq_iff a b = ground arith
