-- ===== src/Prelude/Results.antt =====
-- A value or a raised error, with `do` blocks.
use mathlib.Core.Path.{◌≡◌, refl}
use native.Mathlib.Omega.{arith}
use mathlib.Core.Bool.{Bool, true, false}

pub data Result {ℓ κ} (E : Type ℓ) (A : Type κ) : Type (ℓ ⊔ κ) where
  ok : A → Result E A
  err : E → Result E A

-- The checks of a validator raise or return nothing.
abbrev pub Check {ℓ} : Type ℓ → Type ℓ
Check E = Result E (Unit {0})

module _ {ℓ κ} {E : Type ℓ} where
  infixl 5 ◌>>=◌
  abbrev pub ◌>>=◌ {ι} : {A : Type κ} {B : Type ι} → Result E A → (A → Result E B) → Result E B
  ok a >>= f = f a
  err e >>= f = err e

module _ {ℓ κ} {E : Type ℓ} where
  infixl 5 ◌>>◌
  abbrev pub ◌>>◌ : {B : Type κ} → Check E → Result E B → Result E B
  ok _ >> k = k
  err e >> k = err e

module _ {ℓ} {E : Type ℓ} where
  -- `if test: raise error`
  abbrev pub raise_if : Bool → E → Check E
  raise_if true e = err e
  raise_if false e = ok tt

  -- `try: m except E as e: raise f(e)`
  abbrev pub map_err {ι κ} : {F : Type ι} {A : Type κ} → (E → F) → Result E A → Result F A
  map_err f (ok a) = ok a
  map_err f (err e) = err (f e)

abbrev pub is_ok {ℓ κ} : {E : Type ℓ} {A : Type κ} → Result E A → Bool
is_ok (ok a) = true
is_ok (err e) = false

-- A `do` block that returns got through its first step.
pub bind_ok :
    {E A B : Type 0} (r : Result E A) (f : A → Result E B) (b : B)
    → (r >>= f) ≡ ok b
    → (a : A) × (r ≡ ok a) × (f a ≡ ok b)
bind_ok (ok a) f b h = (a, refl, h)
bind_ok (err e) f b h = absurd (ground arith)

pub ok_same : {E A : Type 0} (a b : A) → ◌≡◌ {A = Result E A} (ok a) (ok b) → a ≡ b
ok_same a b h = ground arith
