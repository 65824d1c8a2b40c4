-- ===== src/Common/Run.antt =====
-- Code that changes a state and may fail: what it returns, and the state after it, also after an
-- error.
use mathlib.Core.Path.{◌≡◌, refl}
use workflow_manager.Common.Outcome.{Result, ok, err, panic, out_of_fuel}
use mathlib.Core.Bool.{Bool, true, false}
use workflow_manager.Common.Tests.{if◌then◌else◌}

abbrev pub Run : Type 0 → Type 0 → Type 0 → Type 0
Run S E A = S → Result E A × S

abbrev pub pure : {S E A : Type 0} → A → Run S E A
pure a s = (ok a, s)

abbrev pub fail : {S E A : Type 0} → E → Run S E A
fail e s = (err e, s)

-- A part that reads nothing of the state and leaves it.
abbrev pub lift : {S E A : Type 0} → Result E A → Run S E A
lift m s = (m, s)

abbrev pub continue : {S E A B : Type 0} → Result E A × S → (A → Run S E B) → Result E B × S
continue (ok a, s) next = next a s
continue (err e, s) next = (err e, s)
continue (panic, s) next = (panic, s)
continue (out_of_fuel, s) next = (out_of_fuel, s)

infixl 5 ◌>>=◌ ◌>>◌
abbrev pub ◌>>=◌ : {S E A B : Type 0} → Run S E A → (A → Run S E B) → Run S E B
◌>>=◌ m next s = continue (m s) next

abbrev pub ◌>>◌ : {S E A B : Type 0} → Run S E A → Run S E B → Run S E B
m >> next = m >>= λ _. next

-- A run that succeeds comes from a first part that succeeds.
pub continue-eq-ok :
    {S E A B : Type 0} (first : Result E A × S) (next : A → Run S E B) {last : B} {s' : S}
    → continue first next ≡ (ok last, s')
    → (a : A) × (s : S) × (first ≡ (ok a, s)) × (next a s ≡ (ok last, s'))
continue-eq-ok (ok a, s) next h = (a, s, refl, h)
continue-eq-ok (err e, s) next h = cc
continue-eq-ok (panic, s) next h = cc
continue-eq-ok (out_of_fuel, s) next h = cc

-- Two continuations that agree on what a first part gives.
pub continue-cong :
    {S E A B : Type 0} (first : Result E A × S) (f g : A → Run S E B)
    → ((a : A) (s : S) → first ≡ (ok a, s) → f a s ≡ g a s)
    → continue first f ≡ continue first g
continue-cong (ok a, s) f g h = h a s refl
continue-cong (err e, s) f g h = refl
continue-cong (panic, s) f g h = refl
continue-cong (out_of_fuel, s) f g h = refl

-- A guard that a successful run has passed.
pub continue-guard :
    {S E B : Type 0} (stop : Bool) (e : E) (s : S) (next : Unit {0} → Run S E B) {last : B} {s' : S}
    → continue ((if stop then fail e else pure tt) s) next ≡ (ok last, s')
    → (stop ≡ false) × (next tt s ≡ (ok last, s'))
continue-guard true e s next h = cc
continue-guard false e s next h = (refl, h)
