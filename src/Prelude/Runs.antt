-- ===== src/Prelude/Runs.antt =====
-- Calls that may panic: whether they return.
use mathlib.Core.Path.{◌≡◌, refl}
use mathlib.Core.Bool.{Bool, true, false, ◌&&◌}
use ro_proxy.Prelude.Tests.{Run, ok, panic, ◌>>=◌}

module _ {ℓ} {A : Type ℓ} where
  abbrev pub does_return : Run A → Bool
  does_return (ok a) = true
  does_return panic = false

  pub does_return_ok : (r : Run A) → does_return r ≡ true → (a : A) × (r ≡ ok a)
  does_return_ok (ok a) h = (a, refl)
  does_return_ok panic h = cc

pub does_return-bind {ℓ κ} :
    {A : Type ℓ} {B : Type κ} (r : Run A) (f : A → Run B)
    → does_return r ≡ true
    → ((a : A) → does_return (f a) ≡ true)
    → does_return (r >>= f) ≡ true
does_return-bind (ok a) f h k = k a
does_return-bind panic f h k = cc

-- A call followed by one that returns or panics whatever it is given.
pub does_return-then {ℓ κ} :
    {A : Type ℓ} {B : Type κ} (r : Run A) (f : A → Run B) (b : Bool)
    → ((a : A) → does_return (f a) ≡ b)
    → does_return (r >>= f) ≡ (does_return r && b)
does_return-then (ok a) f b h = h a
does_return-then panic f b h = refl
