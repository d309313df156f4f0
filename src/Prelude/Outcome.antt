-- ===== src/Prelude/Outcome.antt =====
-- The result of C code that can stop the process: by a failed `assert`, by following a NULL
-- pointer, by a call of `exit`, by the use of a closed file, by an access outside an array, by a
-- division by zero, or by a format with directives and no arguments.
use c_computer_networking.Prelude.{◌≡◌, refl, ◌⊎◌, inl, inr, Bool, true, false}

pub data Fault : Type 0 where
  assertion null_pointer exit_failure closed_file out_of_bounds division_by_zero bad_format : Fault

pub data Outcome {ℓ} (A : Type ℓ) : Type ℓ where
  ok : A → Outcome A
  fault : Fault → Outcome A

infixl 5 ◌>>=◌ ◌>>◌
abbrev pub ◌>>=◌ {ℓ κ} : {A : Type ℓ} {B : Type κ} → Outcome A → (A → Outcome B) → Outcome B
ok a >>= f = f a
fault e >>= f = fault e

abbrev pub ◌>>◌ {ℓ} : {B : Type ℓ} → Outcome (Unit {0}) → Outcome B → Outcome B
m >> k = m >>= λ _. k

-- `assert(b)`
abbrev pub assert : Bool → Outcome (Unit {0})
assert true = ok tt
assert false = fault assertion

-- A chain that returns has returned at each step.
pub >>=-eq-ok {ℓ κ} :
    {A : Type ℓ} {B : Type κ} (m : Outcome A) (f : A → Outcome B) (b : B)
    → (m >>= f) ≡ ok b
    → (a : A) × (m ≡ ok a) × (f a ≡ ok b)
>>=-eq-ok (ok a) f b h = (a, refl, h)
>>=-eq-ok (fault e) f b h = cc

-- To split on a computed outcome and keep the equation.
pub Outcome-cases {ℓ} :
    {A : Type ℓ} (o : Outcome A) → ((a : A) × (o ≡ ok a)) ⊎ ((e : Fault) × (o ≡ fault e))
Outcome-cases (ok a) = inl (a, refl)
Outcome-cases (fault e) = inr (e, refl)
