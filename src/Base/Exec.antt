-- ===== src/Base/Exec.antt =====
-- Running C code: a value, or a fault where the C program reads through NULL or out of bounds.
use mathlib.Core.Path.{◌≡◌, refl}

infixl 5 ◌>>=◌
pub data Exec {ℓ} (X : Type ℓ) : Type ℓ where
  fault : Exec X
  ok : X → Exec X

abbrev pub ◌>>=◌ {ℓ κ} : {X : Type ℓ} {Y : Type κ} (run : Exec X) (next : X → Exec Y) → Exec Y
fault >>= next = fault
ok x >>= next = next x

-- Inversion of a bind that returns.
pub >>=-eq-ok {ℓ κ} :
    {X : Type ℓ} {Y : Type κ} (run : Exec X) (next : X → Exec Y) {y : Y}
    → (run >>= next) ≡ ok y
    → (x : X) × (run ≡ ok x) × (next x ≡ ok y)
>>=-eq-ok fault next h = cc
>>=-eq-ok (ok x) next h = (x, refl, h)

pub >>=-ok {ℓ} : {X : Type ℓ} (run : Exec X) → (run >>= ok) ≡ run
>>=-ok fault = refl
>>=-ok (ok x) = refl

pub ok-injective {ℓ} : {X : Type ℓ} {x y : X} → ◌≡◌ {A = Exec X} (ok x) (ok y) → x ≡ y
ok-injective e = cc
