-- ===== src/Common/Outcome.antt =====
-- The outcome of C code: a value, or the undefined behaviour that it runs into.
use mathlib.Core.Path.{◌≡◌, refl, subst}

pub data Fault : Type 0 where
  null_pointer use_after_free out_of_bounds uninitialised : Fault
  division_by_zero out_of_fuel : Fault

-- Undefined behaviour is not recovered from: a fault ends the run.
pub data Run {ℓ} (R : Type ℓ) : Type ℓ where
  fault : Fault → Run R
  ok : R → Run R

infixl 5 ◌>>=◌
abbrev pub ◌>>=◌ {μ ν} : {R : Type μ} {S : Type ν} → Run R → (R → Run S) → Run S
fault why >>= next = fault why
ok result >>= next = next result

pub >>=-assoc {ℓ κ μ} :
    {A : Type ℓ} {B : Type κ} {C : Type μ} (m : Run A) (f : A → Run B) (g : B → Run C)
    → (m >>= f) >>= g ≡ m >>= (λ a. f a >>= g)
>>=-assoc (fault why) f g = refl
>>=-assoc (ok a) f g = refl

-- What a run gives, if it gives a value, has the property.
abbrev pub Gives {ℓ} : {R : Type ℓ} → (R → Type 0) → Run R → Type 0
Gives good (fault why) = Unit
Gives good (ok result) = good result

pub Gives->>= {ℓ κ} :
    {A : Type ℓ} {B : Type κ} (good : A → Type 0) (fine : B → Type 0) (m : Run A) (f : A → Run B)
    → Gives good m
    → ((a : A) → good a → Gives fine (f a))
    → Gives fine (m >>= f)
Gives->>= good fine (fault why) f g h = g
Gives->>= good fine (ok a) f g h = h a g

pub Gives-ok {ℓ} :
    {A : Type ℓ} (good : A → Type 0) (m : Run A) (a : A) → m ≡ ok a → Gives good m → good a
Gives-ok good m a e g = subst (λ r. Gives good r) e g
