-- ===== src/Prelude/Outcome.antt =====
-- Results of code that C++ may leave undefined, and the monad that chains them.
use mathlib.Core.Path.{◌≡◌, refl, ap}

-- Why a run has no result: an access through a null pointer, a signed overflow, a division by
-- zero, a container accessed where it has no element, or fuel that ran out.
pub data Fault : Type 0 where
  null_access overflow division_by_zero no_element out_of_fuel : Fault

pub data Result {ℓ} (V : Type ℓ) : Type ℓ where
  fault : Fault → Result V
  ok : V → Result V

infixl 5 ◌>>=◌
-- What follows a fault is not run.
abbrev pub ◌>>=◌ {ℓ κ} :
    {V : Type ℓ} → {W : Type κ} → (r : Result V) (next : V → Result W) → Result W
r >>= next = elim r [ fault why ↦ fault why | ok v ↦ next v ]

-- Where a chain of two runs ends with a value, both do.
pub >>=-eq-ok {ℓ κ} :
    {V : Type ℓ} {W : Type κ} (r : Result V) (next : V → Result W) {w : W}
    → (r >>= next) ≡ ok w
    → (v : V) × (r ≡ ok v) × (next v ≡ ok w)
>>=-eq-ok (ok v) next e = (v, refl, e)
>>=-eq-ok (fault why) next e = cc

pub ok-injective {ℓ} : {V : Type ℓ} {v w : V} → ok v ≡ ok w → v ≡ w
ok-injective {v = v} h = ap (λ r. elim r [ ok z ↦ z | fault why ↦ v ]) h
