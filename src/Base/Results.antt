-- ===== src/Base/Results.antt =====
-- A call that throws an error with a code, or returns.
use mathlib.Core.Path.{◌≡◌, refl}
use mathlib.Core.Bool.{Bool, true, false}
use mathlib.Core.Option.{Option, none, some}
use uppity.Base.Tests.{if◌then◌else◌}

pub data Result {ℓ κ} (E : Type ℓ) (A : Type κ) : Type (ℓ ⊔ κ) where
  threw : E → Result E A
  returned : A → Result E A

-- `if (!x) throw e`
abbrev pub or_threw {ℓ κ μ} :
    {E : Type ℓ} {A : Type κ} {B : Type μ} → Option A → E → (A → Result E B) → Result E B
or_threw none e f = threw e
or_threw (some a) e f = f a

pub or_threw-returned {ℓ κ μ} :
    {E : Type ℓ} {A : Type κ} {B : Type μ} (o : Option A) (e : E) (f : A → Result E B) {b : B}
    → or_threw o e f ≡ returned b
    → (a : A) × (o ≡ some a) × (f a ≡ returned b)
or_threw-returned none e f h = cc
or_threw-returned (some a) e f h = (a, refl, h)

module _ {ℓ κ} {E : Type ℓ} {A : Type κ} where
  -- A call that returns has passed its guard.
  pub passed :
      (t : Bool) (e : E) (r : Result E A) {a : A}
      → (if t then threw e else r) ≡ returned a
      → (t ≡ false) × (r ≡ returned a)
  passed true e r h = cc
  passed false e r h = (refl, h)

  pub allowed :
      (t : Bool) (e : E) (r : Result E A) {a : A}
      → (if t then r else threw e) ≡ returned a
      → (t ≡ true) × (r ≡ returned a)
  allowed true e r h = (refl, h)
  allowed false e r h = cc

  pub returned-injective : {a b : A} → ◌≡◌ {A = Result E A} (returned a) (returned b) → a ≡ b
  returned-injective h = cc

-- A check that throws its error, before the value.
abbrev pub unless {ℓ κ} : {E : Type ℓ} {A : Type κ} → Option E → A → Result E A
unless none a = returned a
unless (some e) a = threw e

pub unless-returned {ℓ κ} :
    {E : Type ℓ} {A : Type κ} (o : Option E) (a : A) {b : A}
    → unless o a ≡ returned b
    → (o ≡ none) × (a ≡ b)
unless-returned none a h = (refl, returned-injective h)
unless-returned (some e) a h = cc
