-- ===== src/Prelude/Outcome.antt =====
-- Code that may throw: a value or the error that was thrown.
use Prim.Native.String.{String}
use mathlib.Core.Path.{◌≡◌, refl}
use mathlib.Core.Bool.{Bool}
use mathlib.Core.Option.{Option, none, some}
use indra.Prelude.Tests.{if◌then◌else◌}

pub data Result {ℓ} (V : Type ℓ) : Type ℓ where
  err : (message : String) → Result V
  ok : (value : V) → Result V

module _ {ℓ κ} {V : Type ℓ} {W : Type κ} where
  infixl 5 ◌>>=◌
  abbrev pub ◌>>=◌ : Result V → (V → Result W) → Result W
  ◌>>=◌ outcome next = elim outcome [ err message ↦ err message | ok value ↦ next value ]

  -- A block that returned: its first part returned a value, from which the rest returned.
  pub >>=-eq-ok :
      (outcome : Result V) (next : V → Result W) {w : W}
      → (outcome >>= next) ≡ ok w
      → (value : V) × (outcome ≡ ok value) × (next value ≡ ok w)
  >>=-eq-ok (err message) next returned = cc
  >>=-eq-ok (ok value) next returned = (value, refl, returned)

module _ {ℓ} {V : Type ℓ} where
  pub ok-injective : {v w : V} → ok v ≡ ok w → v ≡ w
  ok-injective same = cc

  infixl 5 ◌>>◌
  abbrev pub ◌>>◌ : Result (Unit {0}) → Result V → Result V
  ◌>>◌ check rest = elim check [ err message ↦ err message | ok _ ↦ rest ]

  -- `if (absent) throw new Error(message)`
  abbrev pub or_throw : Option V → String → Result V
  or_throw (some value) message = ok value
  or_throw none message = err message

  pub or_throw-ok :
      (o : Option V) (message : String) {v : V} → or_throw o message ≡ ok v → o ≡ some v
  or_throw-ok (some value) message returned = cc
  or_throw-ok none message returned = cc

-- `if (bad) throw new Error(message)`
abbrev pub throw_if : Bool → String → Result (Unit {0})
throw_if bad message = if bad then err message else ok tt
