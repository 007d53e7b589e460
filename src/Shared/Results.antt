-- ===== src/Shared/Results.antt =====
-- A call that returns or throws. The errors are those of the module that throws them.
use mathlib.Core.Path.{◌≡◌, refl}
use mathlib.Core.Bool.{Bool, true, false}

pub data Result {ℓ} (E : Type 0) (A : Type ℓ) : Type ℓ where
  ok : A → Result E A
  err : E → Result E A

abbrev pub is_ok {ℓ} : {E : Type 0} {A : Type ℓ} → Result E A → Bool
is_ok (ok _) = true
is_ok (err _) = false

-- `if (!b) throw thrown`
abbrev pub guard : {E : Type 0} (b : Bool) → E → Result E (Unit {0})
guard false thrown = err thrown
guard true thrown = ok tt

-- `if (b) throw thrown`
abbrev pub throw_if : {E : Type 0} (b : Bool) → E → Result E (Unit {0})
throw_if false thrown = ok tt
throw_if true thrown = err thrown

infixl 5 ◌>>=◌ ◌>>◌
abbrev pub ◌>>=◌ {ℓ κ} :
    {E : Type 0} {X : Type ℓ} {Y : Type κ} (call : Result E X) → (X → Result E Y) → Result E Y
err thrown >>= next = err thrown
ok x >>= next = next x

-- A call made for what it throws.
abbrev pub ◌>>◌ {ℓ} : {E : Type 0} {Y : Type ℓ} → Result E (Unit {0}) → Result E Y → Result E Y
err thrown >> next = err thrown
ok _ >> next = next

-- Inversion of a successful bind.
pub >>=-eq-ok {ℓ κ} :
    {E : Type 0} {X : Type ℓ} {Y : Type κ} (call : Result E X) (next : X → Result E Y) {y : Y}
    → (call >>= next) ≡ ok y
    → (x : X) × (call ≡ ok x) × (next x ≡ ok y)
>>=-eq-ok (err thrown) next h = cc
>>=-eq-ok (ok x) next h = (x, refl, h)
