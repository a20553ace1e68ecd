-- ===== src/Base/Sums.antt =====
-- Sums over the elements of a list: how many threads are in some state.
use Prim.Native.Nat.{ℕ, zero, suc, ◌+◌, ◌≤◌, ◌<◌}
use mathlib.Core.Path.{◌≡◌, refl, subst}
use mathlib.Core.Logic.{◌≢◌, inl, inr}
use mathlib.Core.List.{List, [], ◌∷◌}
use mathlib.Core.Option.{some}
use mathlib.Core.Bool.{Bool, true, false}
use native.Mathlib.Omega.{arith}
use libtrs.Base.Tests.{lt_cases, ◌==◌}
use libtrs.Base.Lists.{length, get_elem?, set}

abbrev pub bit : Bool → ℕ
bit true = 1
bit false = 0

-- How often a number stands in a list.
abbrev pub times : ℕ → List ℕ → ℕ
times i [] = 0
times i (j ∷ js) = bit (j == i) + times i js

module _ {ℓ} {A : Type ℓ} where
  abbrev pub total : (A → ℕ) → List A → ℕ
  total f [] = 0
  total f (t ∷ ts) = f t + total f ts

  pub total-set :
      (f : A → ℕ) (ts : List A) (k : ℕ) (t t' : A)
      → get_elem? ts k ≡ some t
      → total f (set ts k t') + f t ≡ total f ts + f t'
  total-set f [] k t t' h = absurd cc
  total-set f (x ∷ ts) zero t t' h = let e : x ≡ t = cc in rw e (omega arith)
  total-set f (x ∷ ts) (suc k) t t' h = omega (arith, total-set f ts k t t' h)

  pub le-total :
      (f : A → ℕ) (ts : List A) (k : ℕ) (t : A) → get_elem? ts k ≡ some t → f t ≤ total f ts
  le-total f [] k t h = absurd cc
  le-total f (x ∷ ts) zero t h = let e : x ≡ t = cc in rw e (omega arith)
  le-total f (x ∷ ts) (suc k) t h = omega (arith, le-total f ts k t h)

  -- If a sum is positive, so is it at some element.
  pub lt-total :
      (f : A → ℕ) (ts : List A)
      → 0 < total f ts
      → (k : ℕ) × (t : A) × (get_elem? ts k ≡ some t) × (0 < f t)
  lt-total f [] h = absurd (omega arith)
  lt-total f (x ∷ ts) h = elim (lt_cases 0 (f x)) [
    | inl p ↦ (0, x, refl, p)
    | inr z ↦ let (k, t, e, p) = lt-total f ts (omega (arith, h, z)) in (suc k, t, e, p)
  ]

  -- If a sum of ones and zeros is below the length, it has a zero.
  pub total-lt_length :
      (f : A → ℕ) (ts : List A)
      → total f ts < length ts
      → (k : ℕ) × (t : A) × (get_elem? ts k ≡ some t) × (f t ≡ 0)
  total-lt_length f [] h = absurd (omega arith)
  total-lt_length f (x ∷ ts) h = elim (lt_cases 0 (f x)) [
    | inl p ↦ let (k, t, e, z) = total-lt_length f ts (omega (arith, h, p)) in (suc k, t, e, z)
    | inr z ↦ (0, x, refl, omega (arith, z))
  ]

  -- Where each element has at most one of two sums, the two have at most the length.
  pub total-add_le :
      (f g : A → ℕ) (ts : List A)
      → ((k : ℕ) (t : A) → get_elem? ts k ≡ some t → f t + g t ≤ 1)
      → total f ts + total g ts ≤ length ts
  total-add_le f g [] h = omega arith
  total-add_le f g (x ∷ ts) h =
      omega (arith, h 0 x refl, total-add_le f g ts (λ k t e. h (suc k) t e))

-- A property of every element, after one of them is changed.
pub get_elem?-set_all {ℓ κ} :
    {A : Type ℓ} (P : ℕ → A → Type κ) (ts : List A) (k : ℕ) (t : A)
    → P k t
    → ((j : ℕ) (u : A) → k ≢ j → get_elem? ts j ≡ some u → P j u)
    → (j : ℕ) (u : A) → get_elem? (set ts k t) j ≡ some u
    → P j u
get_elem?-set_all P [] k t p all j u e = absurd cc
get_elem?-set_all P (x ∷ ts) zero t p all zero u e = let q : t ≡ u = cc in subst (P 0) q p
get_elem?-set_all P (x ∷ ts) zero t p all (suc j) u e =
    all (suc j) u (λ z. absurd (omega (arith, z))) e
get_elem?-set_all P (x ∷ ts) (suc k) t p all zero u e =
    all zero u (λ z. absurd (omega (arith, z))) e
get_elem?-set_all P (x ∷ ts) (suc k) t p all (suc j) u e =
    get_elem?-set_all (λ i. P (suc i)) ts k t p (λ i v n. all (suc i) v (λ z. n (omega (arith, z))))
      j u e
