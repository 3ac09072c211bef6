-- ===== src/Base/Errors.antt =====
-- Code that may raise: a value, or what was raised.
use mathlib.Core.Path.{◌≡◌, refl, subst}
use mathlib.Core.Bool.{Bool, true, false}
use mathlib.Core.Option.{Option, none, some}
use networkops_ai_agent.Base.Tests.{if◌then◌else◌}

pub data Result {ℓ κ} (E : Type ℓ) (A : Type κ) : Type (ℓ ⊔ κ) where
  ok : A → Result E A
  err : E → Result E A

infixl 5 ◌>>=◌ ◌>>◌
abbrev pub ◌>>=◌ {ℓ κ μ} :
    {E : Type ℓ} {A : Type κ} {B : Type μ} → Result E A → (A → Result E B) → Result E B
err raised >>= next = err raised
ok value >>= next = next value

abbrev pub ◌>>◌ {ℓ κ} : {E : Type ℓ} {B : Type κ} → Result E (Unit {0}) → Result E B → Result E B
check >> next = check >>= λ passed. next

-- `if bad: raise e`
abbrev pub raise_if {ℓ} : {E : Type ℓ} → Bool → E → Result E (Unit {0})
raise_if true e = err e
raise_if false e = ok tt

-- `value = table.get(key)`, with what is raised where it is None.
abbrev pub or_raise {ℓ κ} : {E : Type ℓ} {A : Type κ} → Option A → E → Result E A
or_raise none e = err e
or_raise (some a) e = ok a

pub >>=-eq-ok {ℓ κ μ} :
    {E : Type ℓ} {A : Type κ} {B : Type μ} (step : Result E A) (next : A → Result E B) {result : B}
    → (step >>= next) ≡ ok result
    → (value : A) × (step ≡ ok value) × (next value ≡ ok result)
>>=-eq-ok (err raised) next made = cc
>>=-eq-ok (ok value) next made = (value, refl, made)

pub >>=-ap {ℓ κ μ} :
    {E : Type ℓ} {A : Type κ} {B : Type μ} (step : Result E A) (f g : A → Result E B)
    → ((value : A) → f value ≡ g value)
    → (step >>= f) ≡ (step >>= g)
>>=-ap (err raised) f g same = refl
>>=-ap (ok value) f g same = same value

pub >>=-assoc {ℓ κ μ ν} :
    {E : Type ℓ} {A : Type κ} {B : Type μ} {C : Type ν} (step : Result E A) (f : A → Result E B)
    (g : B → Result E C)
    → (step >>= f >>= g) ≡ (step >>= λ value. f value >>= g)
>>=-assoc (err raised) f g = refl
>>=-assoc (ok value) f g = refl

pub ok_injective {ℓ κ} :
    {E : Type ℓ} {A : Type κ} {a b : A} → ◌≡◌ {A = Result E A} (ok a) (ok b) → a ≡ b
ok_injective h = cc

-- What follows a check that passed.
pub raise_if-eq-ok {ℓ κ} :
    {E : Type ℓ} {A : Type κ} (bad : Bool) (e : E) (next : Result E A) {result : A}
    → (raise_if bad e >> next) ≡ ok result
    → (bad ≡ false) × (next ≡ ok result)
raise_if-eq-ok true e next h = cc
raise_if-eq-ok false e next h = (refl, h)

-- What holds of each value that is returned.
pub record Returns {ℓ κ μ} {E : Type ℓ} {A : Type κ} (P : A → Type μ) (step : Result E A)
    : Type (ℓ ⊔ κ ⊔ μ) where
  pub at : (a : A) → step ≡ ok a → P a

module _ {ℓ κ μ} {E : Type ℓ} {A : Type κ} {P : A → Type μ} where
  pub Returns-ok : {a : A} → P a → Returns {E = E} P (ok a)
  Returns-ok {a} p = record { at = λ b h. subst P (ok_injective h) p }

  pub Returns-err : (e : E) → Returns {A = A} P (err e)
  Returns-err e = record { at = λ b h. cc }

  pub Returns-if :
      (b : Bool) (step other : Result E A)
      → (b ≡ true → Returns P step)
      → (b ≡ false → Returns P other)
      → Returns P (if b then step else other)
  Returns-if true step other p q = p refl
  Returns-if false step other p q = q refl

-- What follows a step may use what the step returns.
pub Returns-bind {ℓ κ μ ν π} :
    {E : Type ℓ} {A : Type κ} {B : Type μ} {Q : A → Type ν} {P : B → Type π} (step : Result E A)
    (next : A → Result E B)
    → Returns Q step
    → ((a : A) → Q a → Returns P (next a))
    → Returns P (step >>= next)
Returns-bind (err e) next q p = Returns-err e
Returns-bind (ok a) next q p = p a (q.at a refl)

-- The same of a step of which nothing is known.
pub Returns-after {ℓ κ μ π} :
    {E : Type ℓ} {A : Type κ} {B : Type μ} {P : B → Type π} (step : Result E A)
    (next : A → Result E B)
    → ((a : A) → Returns P (next a))
    → Returns P (step >>= next)
Returns-after (err e) next p = Returns-err e
Returns-after (ok a) next p = p a

pub ruleset returns_rules = (Returns-ok, Returns-err, Returns-after)
