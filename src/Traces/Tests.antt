-- ===== src/Traces/Tests.antt =====
-- `trace_get` at concrete inputs.
use libtrs.Base.{
  ℕ, ◌≡◌, ◌%◌, ◌<◌, refl, arith, false, Returns, Option, none, some, ok, err, eio, Bool, [], ◌∷◌,
  blocked, if◌then◌else◌, ◌==◌,
}
use libtrs.Cache.Demo.{empty_cache, empty_cache-made}
use libtrs.Cache.Fresh.{cache_manual-IsValid}
use libtrs.Cache.Locks.{cache_manual-lock_at}
use libtrs.Traces.{Fetch, TraceSet, trace_get}
use libtrs.Traces.Transparent.{IsReady, Ends, trace_get-Ends, failed_get_blocks}

-- Trace 4 cannot be read.
abbrev demo_fetch : Fetch
demo_fetch index = (
  if index == 4 then err eio else ok,
  record { title = none; bytes = some (index ∷ []); samples = none },
)

abbrev demo_set : TraceSet
demo_set = record { set_id = 7; num_traces = 10; cache = some empty_cache }

empty_cache-IsReady : IsReady demo_fetch empty_cache
empty_cache-IsReady =
    let new = cache_manual-IsValid false false false 7 2 2 (omega arith) empty_cache-made in
    let locks = cache_manual-lock_at false false false 7 2 2 (omega arith) empty_cache-made in
    record {
      valid = new.0;
      faithful = λ j t e. absurd (cc ((new.1 j).1, e));
      cache_free = locks.0;
      sets_free = locks.1;
    }

trace_get-Ends_example :
    Returns (trace_get demo_fetch false false (some 300) demo_set 5) (Ends demo_fetch 5)
trace_get-Ends_example =
    trace_get-Ends demo_fetch demo_set empty_cache 300 5 refl empty_cache-IsReady (omega arith)

failed_get_blocks_example : Returns (trace_get demo_fetch false false (some 300) demo_set 4) (λ g.
    (g.status ≡ err eio)
    × ((fetch' : Fetch) (oom oom' : Bool) (alloc : Option ℕ) (j : ℕ)
        → j < 10
        → j % 2 ≡ 4 % 2
        → trace_get fetch' oom oom' alloc g.set j ≡ blocked))
failed_get_blocks_example =
    failed_get_blocks demo_fetch demo_set empty_cache 300 4 refl empty_cache-IsReady (omega arith)
      (((cache_manual-IsValid false false false 7 2 2 (omega arith) empty_cache-made).1 4).1) refl
