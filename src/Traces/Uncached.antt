-- ===== src/Traces/Uncached.antt =====
-- A trace set without a cache, as the set before a transformation: `trace_get` and `trace_free` of
-- lib/trace/trace.c give traces that the caller owns. The state is the number of those in use.
use libtrs.Base.{
  Status-cases, ℕ, ◌+◌, ◌-◌, ◌≡◌, refl, ltb, Bool-cases, if◌then◌else◌, Bool, true, false, Option,
  none, some, length, ◌⊎◌, inl, inr, Errno, eio, Status, ok, err, done, ◌>>=◌, Returns, arith,
}
use mathlib.Core.Path.{subst}
use libtrs.Types.{Trace}
use libtrs.Traces.{
  Buffers, Fetch, TraceSet, Got, make_trace, keep, fetch_trace, trace_get, trace_free,
}
use libtrs.Transforms.{Geometry, Source, contents}
use libtrs.Transforms.Copies.{IsLawful, IsSized}

abbrev bare : Geometry → TraceSet
bare g = record { set_id = 0; num_traces = g.num_traces; cache = none }

abbrev answer : ℕ → Got → ℕ × (Errno ⊎ Trace)
answer live g = elim g.trace [
  | some t ↦ (live + 1, inr t)
  | none ↦ (live, inl (elim g.status [ ok ↦ eio | err e ↦ e ]))
]

-- The traces get the addresses 0, 1, and so on.
abbrev pub uncached : Fetch → Geometry → Source ℕ
uncached fetch g = record {
  geometry = g;
  get = λ live i. trace_get fetch false false (some live) (bare g) i >>= λ r. done (answer live r);
  release = λ live t. trace_free (bare g) t >>= λ r. done (live - length r.freed);
}

abbrev pub promised : Fetch → Geometry → ℕ → Option Buffers
promised fetch g i =
    if ltb i g.num_traces
    then elim ((fetch i).0) [ ok ↦ some ((fetch i).1) | err e ↦ none ]
    else none

pub promised_is :
    (c : Bool) (s : Status) (x b : Buffers)
    → (if c then elim s [ ok ↦ some x | err e ↦ none ] else none) ≡ some b
    → x ≡ b
promised_is true ok x b h = cc
promised_is true (err e) x b h = absurd cc
promised_is false s x b h = absurd cc

module _ (fetch : Fetch) (g : Geometry) (all_sized : (i : ℕ) → IsSized g ((fetch i).1)) where
  pub uncached-get :
      (live i : ℕ)
      → Unit {0}
      → Returns ((uncached fetch g).get live i) (λ r.
        Unit {0}
        × (((t : Trace) × (r.1 ≡ inr t)
              × (promised fetch g i ≡ some (contents t))
              × (r.0 ≡ live + 1))
            ⊎ ((e : Errno) × (r.1 ≡ inl e) × (promised fetch g i ≡ none) × (r.0 ≡ live))))
  unfolding trace_get fetch_trace keep make_trace
  uncached-get live i u = elim (Bool-cases (ltb i g.num_traces)) [
    | inr n ↦ rw n (tt, inr (_, refl, refl, refl))
    | inl y ↦ elim (Status-cases ((fetch i).0)) [
      | inl k ↦ rw (y, fetch_trace, k) (tt, inl (_, refl, refl, refl))
      | inr (e, k) ↦ rw (y, fetch_trace, k) (tt, inr (_, refl, refl, refl))
    ]
  ]

  pub uncached-release :
      (live : ℕ) (t : Trace) (n : ℕ)
      → Unit {0}
      → live ≡ n + 1
      → Returns ((uncached fetch g).release live t) (λ z. Unit {0} × (z ≡ n))
  unfolding trace_free
  uncached-release live t n u e = (tt, omega arith)

  abbrev pub uncached-IsLawful : IsLawful (uncached fetch g)
  uncached-IsLawful = record {
    IsGood = λ live. Unit {0};
    users = λ live. live;
    promise = promised fetch g;
    sized = λ i b h.
        subst (IsSized g) (promised_is (ltb i g.num_traces) ((fetch i).0) ((fetch i).1) b h)
          (all_sized i);
    get_law = uncached-get;
    release_law = uncached-release;
  }
