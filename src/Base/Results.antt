-- ===== src/Base/Results.antt =====
-- The ways in which a call of the source can end: a return value, a wait on a semaphore that is
-- taken, or undefined behaviour. And the status codes that the calls return.

use mathlib.Core.Bool.{Bool, true, false}
use mathlib.Core.Logic.{inl, inr, ◌⊎◌}
use mathlib.Core.Path.{◌≡◌, refl}
use libtrs.Base.Tests.{if◌then◌else◌}

-- `-EINVAL`, `-ENOMEM`, `-EIO`, and a `-errno` whose value the C library chose.
pub data Errno : Type 0 where
  einval enomem eio other : Errno

-- An `int` status: 0, or a negative error code.
pub data Status : Type 0 where
  ok : Status
  err : Errno → Status

pub Status-cases : (st : Status) → (st ≡ ok) ⊎ ((e : Errno) × (st ≡ err e))
Status-cases ok = inl refl
Status-cases (err e) = inr (e, refl)

-- `blocked`: the thread waits for a semaphore at 0. `fault`: undefined behaviour.
pub data Outcome {ℓ} (A : Type ℓ) : Type ℓ where
  done : A → Outcome A
  blocked : Outcome A
  fault : Outcome A

infixl 5 ◌>>=◌
abbrev pub ◌>>=◌ {ℓ κ} : {A : Type ℓ} {B : Type κ} → Outcome A → (A → Outcome B) → Outcome B
done a >>= f = f a
blocked >>= f = blocked
fault >>= f = fault

-- The call returns, and its result has the property.
abbrev pub Returns {ℓ} : {A : Type ℓ} → Outcome A → (A → Type 0) → Type 0
Returns (done a) P = P a
Returns blocked P = ⊥
Returns fault P = ⊥

pub Returns-if {ℓ} :
    {A : Type ℓ} (P : A → Type 0) (b : Bool) (x y : Outcome A)
    → (b ≡ true → Returns x P)
    → (b ≡ false → Returns y P)
    → Returns (if b then x else y) P
Returns-if P true x y t f = t refl
Returns-if P false x y t f = f refl

pub Returns-and {ℓ} :
    {A : Type ℓ} (P Q : A → Type 0) (m : Outcome A)
    → Returns m P
    → Returns m Q
    → Returns m (λ a. P a × Q a)
Returns-and P Q (done a) p q = (p, q)
Returns-and P Q blocked p q = p
Returns-and P Q fault p q = p

pub Returns-bind {ℓ κ} :
    {A : Type ℓ} {B : Type κ} (P : A → Type 0) (Q : B → Type 0) (m : Outcome A) (f : A → Outcome B)
    → Returns m P
    → ((a : A) → P a → Returns (f a) Q)
    → Returns (m >>= f) Q
Returns-bind P Q (done a) f p k = k a p
Returns-bind P Q blocked f p k = p
Returns-bind P Q fault f p k = p

pub Returns-imp {ℓ} :
    {A : Type ℓ} (P Q : A → Type 0) (m : Outcome A)
    → ((a : A) → P a → Q a)
    → Returns m P
    → Returns m Q
Returns-imp P Q (done a) k p = k a p
Returns-imp P Q blocked k p = p
Returns-imp P Q fault k p = p
