-- ===== src/Trs/Demo.antt =====
-- A set with two traces of two samples of one byte, for examples.
use native.Mathlib.Nat.{mod-lt}
use libtrs.Base.{ℕ, zero, suc, ◌*◌, ◌%◌, ◌^◌, ◌<◌, ◌≡◌, refl, [], ◌∷◌, inl, arith}
use libtrs.Headers.{Info}
use libtrs.Headers.Defaults.{Fits}
use libtrs.Trs.{convert, expand, Floats}
use libtrs.Trs.States.{Content, IsContent, IsMachine}

-- Floats that are all whole numbers.
abbrev pub floats : Floats
floats = record {
  div = λ x y. x % 256 ^ 4;
  mul = λ y x. x;
  to_int = λ w x. x % 256 ^ w;
  of_int = λ w x. x;
}

pow_pos : (w : ℕ) → 0 < 256 ^ w
pow_pos zero = omega arith
pow_pos (suc w) = let e : 256 ^ suc w ≡ 256 * 256 ^ w = omega arith in omega (arith, e, pow_pos w)

pub floats-IsMachine : IsMachine floats
floats-IsMachine = record { to_int = λ w x. mod-lt x (pow_pos w); div = λ x y. omega arith }

abbrev pub info : Info
info = record {
  num_traces = 0;
  num_samples = 2;
  title_size = 1;
  data_size = 1;
  datatype = 1;
  xoffs = 0;
  xscale = 0;
  yscale = 0x3F800000;
}

pub info-Fits : Fits info
info-Fits = record {
  traces = inl (omega arith);
  samples = omega arith;
  title = omega arith;
  bytes = omega arith;
  coding = omega arith;
  xoffs = omega arith;
  xscale = omega arith;
  yscale = omega arith;
}

abbrev pub first : Content
first = record { title = 65 ∷ []; bytes = 1 ∷ []; samples = 10 ∷ 20 ∷ [] }

abbrev pub second : Content
second = record { title = 66 ∷ []; bytes = 2 ∷ []; samples = 30 ∷ 40 ∷ [] }

pub first-IsContent : IsContent floats info first
unfolding convert expand
first-IsContent = record { title = refl; bytes = refl; samples = refl; exact = refl }

pub second-IsContent : IsContent floats info second
unfolding convert expand
second-IsContent = record { title = refl; bytes = refl; samples = refl; exact = refl }
