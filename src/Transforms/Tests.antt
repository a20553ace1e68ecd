-- ===== src/Transforms/Tests.antt =====
-- The theorems about the transformations, over an uncached set of three traces of two samples.
use libtrs.Base.{
  ℕ, ◌≡◌, ◌≤◌, ◌<◌, refl, arith, if◌then◌else◌, ◌==◌, true, false, Option, none, some, [], ◌∷◌,
  length, inl, inr, enomem, eio, Bool-cases, ok, err, done, fault, Returns,
}
use libtrs.Traces.{Buffers, Fetch}
use libtrs.Traces.Uncached.{uncached, promised, uncached-IsLawful}
use libtrs.Transforms.{Memory, Geometry, Source, passthrough, passthrough_free}
use libtrs.Transforms.Kinds.{
  Narrow, empty, nop_init, nop_get, narrow_init, narrow_get, append_init, append_get,
  split_tvla_init, split_tvla_get, get_trace_type, begins_with, str_fixed, verify_init, verify_get,
}
use libtrs.Transforms.Copies.{HasSize, IsSized, IsLawful, Passed}
use libtrs.Transforms.Gets.{nop_get-Passed, passthrough_double_free}
use libtrs.Transforms.Filters.{IsEmptied, split_tvla_get-Splits, verify_get-Verifies}
use libtrs.Transforms.Ranges.{append_get-Passed, narrow_get-Passed, narrowed}

abbrev demo_geometry : Geometry
demo_geometry = record {
  num_samples = 2;
  num_traces = 3;
  title_size = 14;
  data_size = 1;
  datatype = 20;
  yscale = 0;
}

-- Trace 2 cannot be read.
abbrev demo_buffers : ℕ → Buffers
demo_buffers i = record {
  title = some str_fixed;
  bytes = if i == 1 then none else some (i ∷ []);
  samples = some (i ∷ i ∷ []);
}

abbrev demo_fetch : Fetch
demo_fetch i = (if i == 2 then err eio else ok, demo_buffers i)

abbrev demo : Source ℕ
demo = uncached demo_fetch demo_geometry

demo_bytes : (i : ℕ) → HasSize 1 ((demo_buffers i).bytes)
demo_bytes i = elim (Bool-cases (i == 1)) [ inl y ↦ rw y tt | inr n ↦ rw n refl ]

demo-IsSized : (i : ℕ) → IsSized demo_geometry (demo_buffers i)
demo-IsSized i = record { title = refl; bytes = demo_bytes i; samples = refl }

abbrev demo-IsLawful : IsLawful demo
demo-IsLawful = uncached-IsLawful demo_fetch demo_geometry demo-IsSized

abbrev demo_promise : ℕ → Option Buffers
demo_promise = promised demo_fetch demo_geometry

-- Memory for a title and for samples, and none for data.
abbrev short : Memory
short = record { for_title = true; for_bytes = false; for_samples = true }

nop_get-Passed_example :
    Returns
      (nop_get demo (nop_init demo_geometry) short 5 2 empty)
      (λ w. (Unit {0} × (w.state ≡ 5)) × Passed short none w.status w.target)
nop_get-Passed_example = nop_get-Passed demo demo-IsLawful short 5 2 tt

passthrough_double_free_example :
    Returns
      (passthrough demo (nop_init demo_geometry) short 5 0 empty)
      (λ w. (w.status ≡ err enomem) × (passthrough_free w.target ≡ fault))
passthrough_double_free_example =
    passthrough_double_free demo demo-IsLawful short 5 0 (demo_buffers 0) str_fixed (0 ∷ []) tt refl
      refl refl refl refl

abbrev demo_narrow : Narrow
demo_narrow = record { first_trace = 1; num_traces = 1; first_sample = 1; num_samples = 1 }

narrow_get-Passed_example :
    Returns
      (narrow_get demo (narrow_init demo_narrow demo_geometry) short demo_narrow 5 0 empty)
      (λ w.
        (Unit {0} × (w.state ≡ 5))
        × Passed short (some (narrowed demo_narrow (demo_buffers 1))) w.status w.target)
narrow_get-Passed_example =
    narrow_get-Passed demo demo-IsLawful short demo_narrow 5 0 tt (omega arith)

abbrev joined : Geometry
joined = record {
  num_samples = 2;
  num_traces = 6;
  title_size = 14;
  data_size = 1;
  datatype = 20;
  yscale = 0;
}

joined_lem : append_init (inr demo_geometry) demo_geometry ≡ inr joined
unfolding append_init
joined_lem = refl

append_get-Passed_example :
    (4 < 3
      → Unit {0}
      → Returns
          (append_get demo demo joined short 5 4 empty)
          (λ w. (Unit {0} × (w.state ≡ 5)) × Passed short (demo_promise 4) w.status w.target))
    × (3 ≤ 4
        → Unit {0}
        → Returns
            (append_get demo demo joined short 5 4 empty)
            (λ w. (Unit {0} × (w.state ≡ 5)) × Passed short (demo_promise 1) w.status w.target))
append_get-Passed_example =
    append_get-Passed demo demo demo-IsLawful demo-IsLawful short joined 5 4 joined_lem

type_of_fixed : get_trace_type (some str_fixed) true ≡ done (inr true)
unfolding get_trace_type begins_with
type_of_fixed = refl

split_tvla_get-Splits_example :
    Returns
      (split_tvla_get demo (split_tvla_init demo_geometry) short false 5 0 empty)
      (λ w. Unit {0} × (w.state ≡ 5) × IsEmptied w.status w.target)
split_tvla_get-Splits_example =
    split_tvla_get-Splits demo demo-IsLawful short false 5 0 (demo_buffers 0) (inr true) tt refl
      type_of_fixed

verify_get-Verifies_example :
    Returns
      (verify_get demo (λ bytes. length bytes == 3) (verify_init demo_geometry) short 5 0 empty)
      (λ w. Unit {0} × (w.state ≡ 5) × IsEmptied w.status w.target)
verify_get-Verifies_example =
    verify_get-Verifies demo demo-IsLawful short (λ bytes. length bytes == 3) 5 0 (demo_buffers 0)
      (0 ∷ []) tt refl refl

-- The title is copied, and freed again.
abbrev no_samples : Memory
no_samples = record { for_title = true; for_bytes = true; for_samples = false }
