-- ===== src/Traces.antt =====
-- lib/trace/trace.c: `trace_get` and `trace_free`, over the cache of a trace set.
-- `ts->tfm->get` and `ts->backend->read`, function pointers that write the three buffers of a
-- trace, are one argument `fetch`, of the trace's index: `trace_get` calls the one or the other as
-- the set has a transformation or not. `COHESIVE_CACHES` is 1, as in include/trace.h, so that both
-- calls of the cache keep the lock. `alloc` is the address that `calloc` returns, `none` for NULL;
-- a NULL set or result pointer, whose call returns `-EINVAL` at once, has no counterpart.
pub mod Transparent
pub mod Uncached
mod Tests
use libtrs.Base.{
  ℕ, ltb, if◌then◌else◌, Bool, true, false, Option, none, some, List, [], ◌∷◌, ◌++◌, Errno, einval,
  enomem, Status, ok, err, Outcome, done, ◌>>=◌,
}
use libtrs.Types.{Trace}
use libtrs.Cache
use libtrs.Cache.{TraceCache, Reply}

-- The buffers of a trace.
pub record Buffers : Type 0 where
  pub title : Option (List ℕ)
  pub bytes : Option (List ℕ)
  pub samples : Option (List ℕ)

-- What is fetched for an index: a status, and the buffers then.
abbrev pub Fetch : Type 0
Fetch = ℕ → Status × Buffers

-- The fields of `struct trace_set` that are read here.
pub record TraceSet : Type 0 where
  pub set_id : ℕ
  pub num_traces : ℕ
  pub cache : Option TraceCache

-- `*t`, the traces freed, and the set.
pub record Got : Type 0 where
  pub status : Status
  pub trace : Option Trace
  pub freed : List Trace
  pub set : TraceSet

-- The trace that `calloc` returns, with the buffers that are then written.
make_trace : ℕ → TraceSet → ℕ → Buffers → Trace
make_trace addr ts index b = record {
  addr = addr;
  owner = some ts.set_id;
  index = index;
  title = b.title;
  bytes = b.bytes;
  samples = b.samples;
}

-- `trace_get` once the fetch has succeeded: the store, if the cache missed.
keep : Bool → TraceSet → Trace → Outcome Got
keep oom ts t = elim ts.cache [
  | none ↦ done (record { status = ok; trace = some t; freed = []; set = ts })
  | some c ↦ Cache.store oom c t.index t true >>= λ r. done (elim r.status [
    | ok ↦ record {
      status = ok;
      trace = some t;
      freed = r.freed;
      set = record ts { cache = some r.cache };
    }
    | err e ↦ record {
      status = err e;
      trace = none;
      freed = r.freed ++ (t ∷ []);
      set = record ts { cache = some r.cache };
    }
  ])
]

-- `trace_get` from the allocation on, at a set whose cache, if any, missed.
fetch_trace : Fetch → Bool → Option ℕ → TraceSet → ℕ → Outcome Got
unfolding make_trace keep
fetch_trace fetch oom alloc ts index = elim alloc [
  | none ↦ done (record { status = err enomem; trace = none; freed = []; set = ts })
  | some addr ↦
      let (status, b) = fetch index in
      let t = make_trace addr ts index b in
      elim status [
        | ok ↦ keep oom ts t
        | err e ↦ done (record { status = err e; trace = none; freed = t ∷ []; set = ts })
      ]
]

-- `trace_get`. The first Boolean: `tc_lookup` runs out of memory; the second: `tc_store` does.
pub trace_get : Fetch → Bool → Bool → Option ℕ → TraceSet → ℕ → Outcome Got
unfolding fetch_trace
trace_get fetch oom oom' alloc ts index =
    if ltb index ts.num_traces
    then elim ts.cache [
      | none ↦ fetch_trace fetch oom' alloc ts index
      | some c ↦ Cache.lookup oom c index true >>= λ r.
          let ts' = record ts { cache = some r.cache } in
          elim r.status [
            | err e ↦ done (record { status = err e; trace = none; freed = r.freed; set = ts' })
            | ok ↦ elim r.trace [
              | some t ↦ done (record { status = ok; trace = some t; freed = r.freed; set = ts' })
              | none ↦ fetch_trace fetch oom' alloc ts' index
            ]
          ]
    ]
    else done (record { status = err einval; trace = none; freed = []; set = ts })

-- `trace_free`: the trace is given back to the cache of its owner `ts`, or freed.
pub trace_free : TraceSet → Trace → Outcome Got
trace_free ts t = elim ts.cache [
  | some c ↦ Cache.deref c t.index t >>= λ r. done (record {
    status = r.status;
    trace = none;
    freed = r.freed;
    set = record ts { cache = some r.cache };
  })
  | none ↦ done (record { status = ok; trace = none; freed = t ∷ []; set = ts })
]
