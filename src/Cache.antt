-- ===== src/Cache.antt =====
-- lib/trace/cache.c: the set-associative cache of traces.
-- A semaphore is its count:
-- `sem_acquire` at 0 blocks the caller. `size_t` and `uint8_t` counters wrap. `oom` is true where
-- one of the allocations of `__initialize_set` fails. A call returns its status, the trace that it
-- passes out, the traces that it gave to `trace_free_memory`, and the cache. A NULL cache or trace
-- argument, whose call returns `-EINVAL` at once, has no counterpart.
pub mod Invariant
pub mod Lookup
pub mod Store
pub mod Users
pub mod Deref
pub mod Fresh
pub mod Locks
pub mod Sizing
pub mod Demo
mod Tests
use libtrs.Base.{
  ℕ, zero, suc, ◌+◌, ◌%◌, ◌==◌, if◌then◌else◌, Bool, true, false, Option, none, some, List, [], ◌∷◌,
  ◌++◌, get_elem?, set, modify, find_index, replicate, inc_u8, dec_u8, inc_size, einval, enomem,
  other, Status, ok, err, Outcome, done, blocked, fault, ◌>>=◌,
}
use libtrs.Types.{Trace}
use libtrs.Ways.{Way, update_lru, fresh_ways, holds, choose_way}

-- `struct tc_set`.
pub record TcSet : Type 0 where
  pub initialized : Bool
  pub set_lock : ℕ
  pub ways : List Way

-- `struct trace_cache`.
pub record TraceCache : Type 0 where
  pub cache_id : ℕ
  pub cache_lock : ℕ
  pub nsets : ℕ
  pub nways : ℕ
  pub sets : List TcSet
  pub hits : ℕ
  pub misses : ℕ
  pub accesses : ℕ
  pub stores : ℕ
  pub evictions : ℕ

-- What a call leaves: its status, `*trace`, the traces freed, and the cache.
pub record Reply : Type 0 where
  pub status : Status
  pub trace : Option Trace
  pub freed : List Trace
  pub cache : TraceCache

-- The set that `__initialize_set` leaves when its allocations succeed.
pub fresh_set : ℕ → TcSet
unfolding fresh_ways
fresh_set nways = record { initialized = true; set_lock = 1; ways = fresh_ways nways }

-- `&cache->sets[index % cache->nsets]`; a division by zero is undefined.
pub locate : TraceCache → ℕ → Outcome TcSet
locate c index =
    if c.nsets == 0
    then fault
    else elim (get_elem? c.sets (index % c.nsets)) [ none ↦ fault | some s ↦ done s ]

-- `sem_acquire`: the count that it leaves.
pub take_lock : ℕ → Outcome ℕ
take_lock zero = blocked
take_lock (suc n) = done n

-- `cache` with `s` for the set of `index`.
abbrev pub put_set : TraceCache → ℕ → TcSet → TraceCache
put_set c index s = record c { sets = set c.sets (index % c.nsets) s }

add_ref : Way → Way
add_ref w = record w { refcount = inc_u8 w.refcount }

pub drop_ref : Way → Way
drop_ref w = record w { refcount = dec_u8 w.refcount }

-- `tc_lookup` from the scan on, with the set's lock at `s.set_lock` now.
lookup_in : TraceCache → TcSet → ℕ → Bool → Reply
unfolding holds update_lru add_ref
lookup_in c s index keep_lock = elim (find_index (holds index) s.ways) [
  | some i ↦
      let ways = modify i add_ref (update_lru s.ways i true) in
      record {
        status = ok;
        trace = elim (get_elem? s.ways i) [ none ↦ none | some w ↦ w.trace ];
        freed = [];
        cache = record (put_set c index (record s { set_lock = s.set_lock + 1; ways = ways })) {
          hits = inc_size c.hits;
        };
      }
  | none ↦
      let lock = if keep_lock then s.set_lock else s.set_lock + 1 in
      record {
        status = ok;
        trace = none;
        freed = [];
        cache = record (put_set c index (record s { set_lock = lock })) {
          misses = inc_size c.misses;
        };
      }
]

-- `tc_lookup` at a set that is not initialized, with the cache lock at `n` now.
lookup_new : Bool → TraceCache → ℕ → ℕ → Bool → Reply
unfolding fresh_set
lookup_new oom c n index keep_lock =
    if oom
    then record {
      status = err other;
      trace = none;
      freed = [];
      cache = record c { cache_lock = n };
    }
    else record {
      status = ok;
      trace = none;
      freed = [];
      cache =
          record (put_set c index
            (record (fresh_set c.nways) { set_lock = if keep_lock then 0 else 1 })) {
              misses = inc_size c.misses;
            };
    }

-- `tc_lookup`.
pub lookup : Bool → TraceCache → ℕ → Bool → Outcome Reply
unfolding locate take_lock lookup_in lookup_new
lookup oom c index keep_lock = do
  s ← locate c index
  n ← take_lock c.cache_lock
  let c' = record c { accesses = inc_size c.accesses }
  if s.initialized
      then (do
        m ← take_lock s.set_lock
        done (lookup_in c' (record s { set_lock = m }) index keep_lock))
      else done (lookup_new oom c' n index keep_lock)

-- The three assignments of `tc_store` to the way that it takes.
fill : Trace → Way → Way
fill t w = record w { valid = true; refcount = 1; trace = some t }

-- What `tc_store` evicts from a way.
evicted : List Way → ℕ → List Trace
evicted ws way = elim (get_elem? ws way) [
  | none ↦ []
  | some w ↦ if w.valid then elim w.trace [ none ↦ [] | some t ↦ t ∷ [] ] else []
]

-- Whether it evicts at all.
occupied : List Way → ℕ → Bool
occupied ws way = elim (get_elem? ws way) [ none ↦ false | some w ↦ w.valid ]

-- `tc_store` from its first pass on, with the set's lock at `s.set_lock` now.
store_in : TraceCache → TcSet → ℕ → Trace → Reply
unfolding choose_way update_lru fill evicted occupied
store_in c s index t = elim (choose_way s.ways) [
  | none ↦ record {
    status = err einval;
    trace = none;
    freed = [];
    cache = put_set c index (record s { set_lock = s.set_lock + 1 });
  }
  | some (way, _) ↦
      let ways = update_lru (modify way (fill t) s.ways) way false in
      record {
        status = ok;
        trace = none;
        freed = evicted s.ways way;
        cache = record (put_set c index (record s { set_lock = s.set_lock + 1; ways = ways })) {
          stores = inc_size c.stores;
          evictions = if occupied s.ways way then inc_size c.evictions else c.evictions;
        };
      }
]

-- `tc_store`.
pub store : Bool → TraceCache → ℕ → Trace → Bool → Outcome Reply
unfolding locate take_lock store_in fresh_set
store oom c index t keep_lock = do
  s ← locate c index
  n ← take_lock c.cache_lock
  if s.initialized
      then (if keep_lock
          then done (store_in c s index t)
          else (do m ← take_lock s.set_lock; done (store_in c (record s { set_lock = m }) index t)))
      else if oom
      then done (record {
        status = err other;
        trace = none;
        freed = [];
        cache = record c { cache_lock = n };
      })
      else done (store_in c (record (fresh_set c.nways) { set_lock = 0 }) index t)

-- The way that `tc_deref` finds: whether it holds the very trace that is given back.
same_trace : List Way → ℕ → Trace → Bool
same_trace ws i t = elim (get_elem? ws i) [
  | none ↦ false
  | some w ↦ elim w.trace [ none ↦ false | some t' ↦ t'.addr == t.addr ]
]

-- `tc_deref` from the scan on.
deref_in : TraceCache → TcSet → ℕ → Trace → Reply
unfolding holds drop_ref same_trace
deref_in c s index t = elim (find_index (holds index) s.ways) [
  | none ↦ record { status = ok; trace = none; freed = []; cache = c }
  | some i ↦
      if same_trace s.ways i t
      then record {
        status = ok;
        trace = none;
        freed = [];
        cache = put_set c index (record s { ways = modify i drop_ref s.ways });
      }
      else record { status = err einval; trace = none; freed = t ∷ []; cache = c }
]

-- `tc_deref`, with `COHESIVE_CACHES` at 1 as include/trace.h sets it. It takes the set's lock and
-- gives it back on every path.
pub deref : TraceCache → ℕ → Trace → Outcome Reply
unfolding locate take_lock deref_in
deref c index t = do
  s ← locate c index
  if s.initialized
      then (do m ← take_lock s.set_lock; done (deref_in c s index t))
      else done (record { status = err einval; trace = none; freed = t ∷ []; cache = c })

-- The traces of the valid ways of a set, in order.
held : List Way → List Trace
held [] = []
held (w ∷ ws) = (if w.valid then elim w.trace [ none ↦ [] | some t ↦ t ∷ [] ] else []) ++ held ws

-- The loop of `tc_free` over the sets: what it frees.
free_sets : List TcSet → Outcome (List Trace)
unfolding take_lock held
free_sets [] = done []
free_sets (s ∷ ss) =
    let rest = free_sets ss in
    if s.initialized
    then (do m ← take_lock s.set_lock; ts ← rest; done (held s.ways ++ ts))
    else rest

-- `tc_free`: the cache is gone, and its traces are freed.
pub free : TraceCache → Outcome (List Trace)
unfolding free_sets
free c = do n ← take_lock c.cache_lock; free_sets c.sets

abbrev empty_set : TcSet
empty_set = record { initialized = false; set_lock = 0; ways = [] }

-- The cache that `tc_cache_manual` builds.
new_cache : ℕ → ℕ → ℕ → TraceCache
new_cache id nsets nways = record {
  cache_id = id;
  cache_lock = 1;
  nsets = nsets;
  nways = nways;
  sets = replicate nsets empty_set;
  hits = 0;
  misses = 0;
  accesses = 0;
  stores = 0;
  evictions = 0;
}

-- `tc_cache_manual`. The Booleans: the allocation of the cache fails, the creation of its lock
-- fails, the allocation of its sets fails.
pub cache_manual : Bool → Bool → Bool → ℕ → ℕ → ℕ → Status × Option TraceCache
unfolding new_cache
cache_manual oom_cache oom_lock oom_sets id nsets nways =
    if oom_cache
    then (err enomem, none)
    else if oom_lock
    then (err other, none)
    else if oom_sets
    then (err enomem, none)
    else (ok, some (new_cache id nsets nways))
