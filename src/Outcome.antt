-- ===== src/Outcome.antt =====
-- How a call of the program ends.
use winsock_tut.Base.{Option, none, some, ◌≡◌, ◌≢◌, refl, ap}

-- A call ends with a result, with a read through a null or dangling pointer, with a CHECK or
-- a handler of the runtime that ends the program, or out of the model's fuel.
pub data Outcome {ℓ} (A : Type ℓ) : Type ℓ where
  ok : A → Outcome A
  bad_pointer check_failed out_of_fuel : Outcome A

infixl 5 ◌>>=◌
abbrev pub ◌>>=◌ {ℓ κ} : {A : Type ℓ} {B : Type κ} → Outcome A → (A → Outcome B) → Outcome B
ok a >>= f = f a
bad_pointer >>= f = bad_pointer
check_failed >>= f = check_failed
out_of_fuel >>= f = out_of_fuel

-- The result of UpdateTimer, without the entries that it has fired.
abbrev pub ticked {ℓ κ} : {A : Type ℓ} {B : Type κ} → Option (A × B) → Outcome A
ticked none = out_of_fuel
ticked (some (a, fired)) = ok a

-- A call that ends with a result has got one from its first part.
pub bind_ok :
    {A B : Type 0} (o : Outcome A) (f : A → Outcome B) (b : B)
    → (o >>= f) ≡ ok b
    → (a : A) × (o ≡ ok a) × (f a ≡ ok b)
bind_ok (ok a) f b e = (a, refl, e)
bind_ok bad_pointer f b e = cc
bind_ok check_failed f b e = cc
bind_ok out_of_fuel f b e = cc

pub ok_eq : {A : Type 0} (a b : A) → ok a ≡ ok b → a ≡ b
ok_eq a b e = ap (λ o. elim o [ ok x ↦ x | bad_pointer ↦ a | check_failed ↦ a | out_of_fuel ↦ a ]) e

-- A call that ends with a result or with a bad pointer.
abbrev pub Ends : {A : Type 0} → Outcome A → Type 0
Ends (ok a) = Unit {0}
Ends bad_pointer = Unit {0}
Ends check_failed = ⊥
Ends out_of_fuel = ⊥

pub bind-Ends :
    {A B : Type 0} (o : Outcome A) (f : A → Outcome B)
    → Ends o
    → ((a : A) → o ≡ ok a → Ends (f a))
    → Ends (o >>= f)
bind-Ends (ok a) f h k = k a refl
bind-Ends bad_pointer f h k = tt
bind-Ends check_failed f h k = absurd h
bind-Ends out_of_fuel f h k = absurd h

pub Ends-bad_pointer :
    {A : Type 0} (o : Outcome A) → Ends o → ((a : A) → o ≢ ok a) → o ≡ bad_pointer
Ends-bad_pointer (ok a) h k = absurd (k a refl)
Ends-bad_pointer bad_pointer h k = refl
Ends-bad_pointer check_failed h k = absurd h
Ends-bad_pointer out_of_fuel h k = absurd h
