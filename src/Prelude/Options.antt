-- ===== src/Prelude/Options.antt =====
-- Results that may be missing: their chaining, and what a chain that gives a value has computed.
use mathlib.Core.Path.{◌≡◌, refl, subst, ap}
use mathlib.Core.Bool.{Bool, true, false}
use tasks_service.Prelude.Tests.{if◌then◌else◌}
use mathlib.Core.Option.{Option, none, some}

infixl 5 ◌>>=◌
abbrev pub ◌>>=◌ {ℓ κ} : {A : Type ℓ} {B : Type κ} → Option A → (A → Option B) → Option B
none >>= f = none
some a >>= f = f a

pub >>=-eq-some {ℓ κ} :
    {A : Type ℓ} {B : Type κ} (m : Option A) (f : A → Option B) {b : B}
    → (m >>= f) ≡ some b
    → (a : A) × (m ≡ some a) × (f a ≡ some b)
>>=-eq-some none f h = cc
>>=-eq-some (some a) f h = (a, refl, h)

pub of_some {ℓ} : {A : Type ℓ} {x y : A} → some x ≡ some y → x ≡ y
of_some h = cc

-- A statement behind a check of its values.
pub if-eq-some {ℓ} :
    {A : Type ℓ} (b : Bool) (x : A) {y : A}
    → (if b then some x else none) ≡ some y
    → (b ≡ true) × (x ≡ y)
if-eq-some true x h = (refl, of_some h)
if-eq-some false x h = cc

-- What holds of the tables that a statement wrote.
pub subst_tables {ℓ κ μ} :
    {A : Type ℓ} {T : Type κ} (P : T → Type μ) {a b : A} {s t : T}
    → ◌≡◌ {A = A × T} (a, s) (b, t)
    → P s
    → P t
subst_tables P h = subst P (ap (λ p. p.1) h)
