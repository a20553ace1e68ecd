-- ===== src/Base/Bytes.antt =====
-- Bytes: checks of a property for every value below a bound, exclusive or, and arrays of 16 bytes.
use Prim.Native.Nat.{ℕ, zero, suc, ◌<◌, bit_xor}
use mathlib.Core.Path.{◌≡◌, refl, ap}
use mathlib.Core.Logic.{inl, inr}
use mathlib.Core.List.{List, [], ◌∷◌}
use mathlib.Core.Bool.{Bool, true, false, ◌&&◌}
use native.Mathlib.Omega.{arith}
use libtrs.Base.Tests.{◌==◌, ==_iff, lt_cases}
use libtrs.Base.Lists.{length, get_or}

unfoldable pub all_below : (ℕ → Bool) → ℕ → Bool
all_below p zero = true
all_below p (suc n) = p n && all_below p n

pub and_true : (b c : Bool) → (b && c) ≡ true → (b ≡ true) × (c ≡ true)
and_true true c h = (refl, h)
and_true false c h = absurd cc

pub all_below-true : (p : ℕ → Bool) (n i : ℕ) → all_below p n ≡ true → i < n → p i ≡ true
unfolding all_below
all_below-true p zero i h k = absurd (omega arith)
all_below-true p (suc n) i h k =
    let (here, rest) = and_true (p n) (all_below p n) h in
    elim (lt_cases i n) [
      | inl l ↦ all_below-true p n i rest l
      | inr g ↦ let e : i ≡ n = omega arith in rw (e, here)
    ]

pub xor_cancel : (a b : ℕ) → a < 256 → b < 256 → bit_xor (bit_xor a b) b ≡ a
unfolding all_below
xor_cancel a b ha hb = (==_iff (bit_xor (bit_xor a b) b) a).0 (
    all_below-true (λ b. bit_xor (bit_xor a b) b == a) 256 b
      (all_below-true (λ a. all_below (λ b. bit_xor (bit_xor a b) b == a) 256) 256 a refl ha) hb)

-- `for(i = from; i < from + count; i++)` over a state.
abbrev pub for_range {ℓ} : {S : Type ℓ} → ℕ → ℕ → (ℕ → S → S) → S → S
for_range from zero f s = s
for_range from (suc count) f s = for_range (suc from) count f (f from s)

-- The array of the first `n` values of a function.
abbrev pub tabulate {ℓ} : {A : Type ℓ} → ℕ → (ℕ → A) → List A
tabulate zero g = []
tabulate (suc n) g = g 0 ∷ tabulate n (λ i. g (suc i))

pub tabulate-get_or : (s : List ℕ) (n : ℕ) → length s ≡ n → tabulate n (λ i. get_or s i 0) ≡ s
tabulate-get_or [] zero h = refl
tabulate-get_or [] (suc n) h = absurd (omega arith)
tabulate-get_or (x ∷ s) zero h = absurd (omega arith)
tabulate-get_or (x ∷ s) (suc n) h = ap (◌∷◌ x) (tabulate-get_or s n (omega arith))

pub get_or-tabulate : (g : ℕ → ℕ) (n i : ℕ) → i < n → get_or (tabulate n g) i 0 ≡ g i
get_or-tabulate g zero i h = absurd (omega arith)
get_or-tabulate g (suc n) zero h = refl
get_or-tabulate g (suc n) (suc i) h = get_or-tabulate (λ i. g (suc i)) n i (omega arith)
