-- ===== src/Cache/Tests.antt =====
-- Runs of the cache, and its theorems at concrete inputs.
use libtrs.Base.{fault, ◌^◌, done, ℕ, ◌≡◌, refl, arith, true, false, Returns, none}
use libtrs.Types.{Trace}
use libtrs.Cache.{lookup, store}
use libtrs.Cache.Demo.{used_cache, trace_5, used_cache-IsValid, used_cache-IsFree}
use libtrs.Cache.Invariant.{resident_at}
use libtrs.Cache.Lookup.{Looked, lookup-Looked}
use libtrs.Cache.Store.{Stored, CanStore, store-Stored}
use libtrs.Cache.Sizing.{as_int, fit_traces, grow, Layout, set_size, find_num_traces}
use libtrs.Cache.Sizing.Extent.{Fits, find_num_traces-Fits}

used_cache-CanStore : CanStore used_cache 7 true
used_cache-CanStore = record { cache_free = omega arith; set_free = λ s e i k. absurd (cc) }

lookup-Looked_example : Returns (lookup false used_cache 5 true) (Looked (resident_at used_cache) 5)
lookup-Looked_example =
    lookup-Looked used_cache 5 true used_cache-IsValid (used_cache-IsFree 5 refl)

abbrev trace_7 : Trace
trace_7 = record trace_5 { addr = 200; index = 7 }

resident_7 : resident_at used_cache 7 ≡ none
unfolding libtrs.Ways.Slots.resident
resident_7 = refl

store-Stored_example :
    Returns (store false used_cache 7 trace_7 true) (Stored (resident_at used_cache) trace_7)
store-Stored_example =
    store-Stored used_cache trace_7 true used_cache-IsValid used_cache-CanStore resident_7

abbrev demo_layout : Layout
demo_layout = record { trace_cache = 88; tc_set = 56; pointer = 8 }

find_num_traces-Fits_example :
    (n : ℕ) × (find_num_traces demo_layout 100 300 2 ≡ done n) × Fits demo_layout 2 100 300 n
unfolding set_size
find_num_traces-Fits_example =
    find_num_traces-Fits demo_layout 2 100 300 (omega arith) (omega arith) (omega arith)
      (omega arith)

-- An associativity of 2^32 is the `int` 0, by which the loop divides.
find_num_traces_wide : find_num_traces demo_layout 100 300 (2 ^ 32) ≡ fault
unfolding find_num_traces fit_traces as_int grow set_size
find_num_traces_wide = refl
