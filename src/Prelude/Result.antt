-- ===== src/Prelude/Result.antt =====
-- A call that may raise: an exception discards what the surrounding transaction wrote, so an
-- error carries no state.
use mathlib.Core.Path.{◌≡◌, refl}
use mathlib.Core.Bool.{Bool, true, false}
use mathlib.Core.Logic.{◌⊎◌, inl, inr}
use ghazatech_inventory_be.Prelude.Tests.{if◌then◌else◌}
use mathlib.Core.Option.{Option, none, some}

pub data Result {ℓ κ} (E : Type ℓ) (A : Type κ) : Type (ℓ ⊔ κ) where
  ok : A → Result E A
  err : E → Result E A

infixl 5 ◌>>=◌ ◌>>◌
abbrev pub ◌>>=◌ {ℓ κ ι} :
    {E : Type ℓ} {X : Type κ} {Y : Type ι} → Result E X → (X → Result E Y) → Result E Y
ok value >>= rest = rest value
err raised >>= rest = err raised

abbrev pub ◌>>◌ {ℓ ι} : {E : Type ℓ} {Y : Type ι} → Result E (Unit {0}) → Result E Y → Result E Y
check >> rest = check >>= λ _. rest

-- `if b: raise e`
abbrev pub raise_if {ℓ} : {E : Type ℓ} → Bool → E → Result E (Unit {0})
raise_if true e = err e
raise_if false e = ok tt

abbrev pub or_raise {ℓ κ} : {E : Type ℓ} {A : Type κ} → Option A → E → Result E A
or_raise none e = err e
or_raise (some a) e = ok a

-- A sequence that returned has returned from both of its parts.
pub >>=-eq-ok {ℓ κ ι} :
    {E : Type ℓ} {X : Type κ} {Y : Type ι} (call : Result E X) (rest : X → Result E Y) {out : Y}
    → (call >>= rest) ≡ ok out
    → (value : X) × (call ≡ ok value) × (rest value ≡ ok out)
>>=-eq-ok (ok value) rest returned = (value, refl, returned)
>>=-eq-ok (err raised) rest returned = cc

pub ok_injective {ℓ κ} :
    {E : Type ℓ} {A : Type κ} {a b : A} → ◌≡◌ {A = Result E A} (ok a) (ok b) → a ≡ b
ok_injective h = cc

-- A sequence that returned has passed its first check.
pub raise_if-eq-ok {ℓ ι} :
    {E : Type ℓ} {Y : Type ι} (b : Bool) (e : E) (rest : Result E Y) {out : Y}
    → (raise_if b e >> rest) ≡ ok out
    → (b ≡ false) × (rest ≡ ok out)
raise_if-eq-ok true e rest returned = cc
raise_if-eq-ok false e rest returned = (refl, returned)

pub or_raise-eq-ok {ℓ κ ι} :
    {E : Type ℓ} {X : Type κ} {Y : Type ι} (o : Option X) (e : E) (rest : X → Result E Y) {out : Y}
    → (or_raise o e >>= rest) ≡ ok out
    → (x : X) × (o ≡ some x) × (rest x ≡ ok out)
or_raise-eq-ok none e rest returned = cc
or_raise-eq-ok (some x) e rest returned = (x, refl, returned)

-- Checks that all passed, from the last one on.
pub >>-eq-ok {ℓ} :
    {E : Type ℓ} (first : Result E (Unit {0})) (b : Bool) (e : E) {u : Unit {0}}
    → (first >> raise_if b e) ≡ ok u
    → (first ≡ ok tt) × (b ≡ false)
>>-eq-ok (ok _) true e passed = cc
>>-eq-ok (ok _) false e passed = (refl, refl)
>>-eq-ok (err _) b e passed = cc

-- A conditional returned from one of its branches.
pub if-eq-ok {ℓ ι} :
    {E : Type ℓ} {Y : Type ι} (b : Bool) (first second : Result E Y) {out : Y}
    → (if b then first else second) ≡ ok out
    → (first ≡ ok out) ⊎ ((b ≡ false) × (second ≡ ok out))
if-eq-ok true first second returned = inl returned
if-eq-ok false first second returned = inr (refl, returned)

pub raise_if_passed {ℓ} :
    {E : Type ℓ} (b : Bool) (e : E) {u : Unit {0}} → raise_if b e ≡ ok u → b ≡ false
raise_if_passed true e passed = cc
raise_if_passed false e passed = refl
