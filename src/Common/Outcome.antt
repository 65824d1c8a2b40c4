-- ===== src/Common/Outcome.antt =====
-- What a Go function returns: a value, an error, or nothing because it panics or, in the model of
-- a loop that takes fuel, because the fuel ran out.
use mathlib.Core.Path.{◌≡◌, refl}
use mathlib.Core.Bool.{Bool, true, false}
use workflow_manager.Common.Tests.{if◌then◌else◌}
use mathlib.Core.Logic.{◌⊎◌, inl, inr}

pub data Result {ℓ} (E A : Type ℓ) : Type ℓ where
  ok : A → Result E A
  err : E → Result E A
  panic : Result E A
  out_of_fuel : Result E A

infixl 5 ◌>>=◌
abbrev pub ◌>>=◌ {ℓ} : {E A B : Type ℓ} → Result E A → (A → Result E B) → Result E B
panic >>= next = panic
out_of_fuel >>= next = out_of_fuel
err e >>= next = err e
ok a >>= next = next a

-- A bind that succeeds comes from a first part that succeeds.
pub >>=-eq-ok {ℓ} :
    {E A B : Type ℓ} (first : Result E A) (next : A → Result E B) {last : B}
    → (first >>= next) ≡ ok last
    → (a : A) × (first ≡ ok a) × (next a ≡ ok last)
>>=-eq-ok panic next h = cc
>>=-eq-ok out_of_fuel next h = cc
>>=-eq-ok (err e) next h = cc
>>=-eq-ok (ok a) next h = (a, refl, h)

-- A bind runs out of fuel only if a part of it does.
pub >>=-eq-out_of_fuel {ℓ} :
    {E A B : Type ℓ} (m : Result E A) (f : A → Result E B)
    → (m >>= f) ≡ out_of_fuel
    → (m ≡ out_of_fuel) ⊎ ((a : A) × (m ≡ ok a) × (f a ≡ out_of_fuel))
>>=-eq-out_of_fuel (ok a) f h = inr (a, refl, h)
>>=-eq-out_of_fuel (err e) f h = cc
>>=-eq-out_of_fuel panic f h = cc
>>=-eq-out_of_fuel out_of_fuel f h = inl refl

-- A guard that a successful run has passed.
pub guard-eq-ok {ℓ} :
    {E A : Type ℓ} (c : Bool) (e : E) (rest : Result E A) {last : A}
    → (if c then err e else rest) ≡ ok last
    → (c ≡ false) × (rest ≡ ok last)
guard-eq-ok true e rest h = cc
guard-eq-ok false e rest h = (refl, h)

pub ok-injective {ℓ} : {E A : Type ℓ} {a b : A} → ◌≡◌ {A = Result E A} (ok a) (ok b) → a ≡ b
ok-injective h = cc

-- A function returns, and what it returns satisfies the predicate.
abbrev pub Returns {ℓ} : {E A : Type ℓ} → (A → Type 0) → Result E A → Type 0
Returns P (ok a) = P a
Returns P (err e) = ⊥
Returns P panic = ⊥
Returns P out_of_fuel = ⊥

pub Returns->>= {ℓ} :
    {E A B : Type ℓ} (P : A → Type 0) (Q : B → Type 0) (m : Result E A) (f : A → Result E B)
    → Returns P m
    → ((a : A) → P a → Returns Q (f a))
    → Returns Q (m >>= f)
Returns->>= P Q (ok a) f h k = k a h
Returns->>= P Q (err e) f h k = elim h [ ]
Returns->>= P Q panic f h k = elim h [ ]
Returns->>= P Q out_of_fuel f h k = elim h [ ]

pub Returns-ok {ℓ} :
    {E A : Type ℓ} (P : A → Type 0) (m : Result E A) → Returns P m → (a : A) × (m ≡ ok a) × P a
Returns-ok P (ok a) h = (a, refl, h)
Returns-ok P (err e) h = elim h [ ]
Returns-ok P panic h = elim h [ ]
Returns-ok P out_of_fuel h = elim h [ ]
