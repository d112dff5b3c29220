-- ===== src/Prelude/Yields.antt =====
-- Results that keep a predicate.
use mathlib.Core.Bool.{Bool, true, false}
use lame.Prelude.Tests.{if◌then◌else◌}
use lame.Prelude.Memory.{Outcome, ok, fault, no_fuel, ◌>>=◌}

-- `Yields P m`: a result of `m`, if there is one, satisfies `P`.
module _ {ℓ κ} {A : Type ℓ} (P : A → Type κ) where
  abbrev pub Yields : Outcome A → Type κ
  Yields (ok a) = P a
  Yields fault = Unit
  Yields no_fuel = Unit

  pub Yields-if : (b : Bool) (x y : Outcome A) → Yields x → Yields y → Yields (if b then x else y)
  Yields-if true x y left right = left
  Yields-if false x y left right = right

pub Yields-bind {ℓ κ μ ν} :
    {A : Type ℓ} {B : Type κ} (P : A → Type μ) (Q : B → Type ν) (m : Outcome A) (k : A → Outcome B)
    → Yields P m
    → ((a : A) → P a → Yields Q (k a))
    → Yields Q (m >>= k)
Yields-bind P Q (ok a) k yields next = next a yields
Yields-bind P Q fault k yields next = tt
Yields-bind P Q no_fuel k yields next = tt

-- Any result will do.
abbrev pub Any : {A : Type 0} → A → Type 0
Any a = Unit

pub Yields-Any : {A : Type 0} (m : Outcome A) → Yields Any m
Yields-Any (ok a) = tt
Yields-Any fault = tt
Yields-Any no_fuel = tt
