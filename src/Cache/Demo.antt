-- ===== src/Cache/Demo.antt =====
-- Test data: a cache of two sets of two ways, empty and with one trace.
use libtrs.Base.{ℕ, ◌≡◌, refl, true, false, none, some, [], ◌∷◌, ok, done, arith}
use libtrs.Types.{Trace}
use libtrs.Cache.{TcSet, TraceCache, store, cache_manual}
use libtrs.Cache.Invariant.{IsValid}
use libtrs.Cache.Lookup.{IsFree}
use libtrs.Cache.Locks.{IsFree-of_lock_at, lock_at}
use libtrs.Cache.Fresh.{cache_manual-IsValid}
use libtrs.Cache.Store.{store-Stored, Stored-IsValid, CanStore}

abbrev pub blank_set : TcSet
blank_set = record { initialized = false; set_lock = 0; ways = [] }

abbrev pub empty_cache : TraceCache
empty_cache = record {
  cache_id = 7;
  cache_lock = 1;
  nsets = 2;
  nways = 2;
  sets = blank_set ∷ blank_set ∷ [];
  hits = 0;
  misses = 0;
  accesses = 0;
  stores = 0;
  evictions = 0;
}

pub empty_cache-made : cache_manual false false false 7 2 2 ≡ (ok, some empty_cache)
unfolding cache_manual
empty_cache-made = refl

abbrev pub trace_5 : Trace
trace_5 = record {
  addr = 100;
  owner = some 7;
  index = 5;
  title = none;
  bytes = some (1 ∷ 2 ∷ []);
  samples = some (9 ∷ []);
}

abbrev pub used_set : TcSet
used_set = record {
  initialized = true;
  set_lock = 1;
  ways =
      record { valid = true; lru = 0; refcount = 1; trace = some trace_5 }
      ∷ record { valid = false; lru = 1; refcount = 0; trace = none }
      ∷ [];
}

-- The empty cache after a store of that trace.
abbrev pub used_cache : TraceCache
used_cache = record empty_cache { sets = blank_set ∷ used_set ∷ []; stores = 1 }

pub empty_cache-IsValid : IsValid empty_cache
empty_cache-IsValid =
    (cache_manual-IsValid false false false 7 2 2 (omega arith) empty_cache-made).0

empty_cache-CanStore : CanStore empty_cache 5 false
empty_cache-CanStore = record {
  cache_free = omega arith;
  set_free = λ s e i k. let same : blank_set ≡ s = cc in absurd (ground (arith, same, i));
}

store-run :
    store false empty_cache 5 trace_5 false
    ≡ done (record { status = ok; trace = none; freed = []; cache = used_cache })
unfolding store
store-run = refl

pub used_cache-IsValid : IsValid used_cache
unfolding store
used_cache-IsValid = Stored-IsValid (
    store-Stored empty_cache trace_5 false empty_cache-IsValid empty_cache-CanStore
      ((cache_manual-IsValid false false false 7 2 2 (omega arith) empty_cache-made).1 5).1)

pub used_cache-IsFree : (index : ℕ) → lock_at used_cache index ≡ 1 → IsFree used_cache index
used_cache-IsFree index h = IsFree-of_lock_at used_cache index (omega arith) h
