-- ===== src/Traces/Transparent.antt =====
-- `trace_get` against the fetch that it caches.
use libtrs.Base.{
  ℕ, ◌%◌, ◌<◌, ◌≡◌, refl, ◌≢◌, Bool, true, false, Option, none, some, List, [], ◌∷◌, ◌++◌, arith,
  sym, ◌∙◌, blocked, Option-cases, inl, inr, Status, ok, err, Errno, einval, Returns, Returns-and,
  Returns-bind, ap, lt→ltb,
}
use native.Mathlib.Decide.{ℕ_discrete}
use mathlib.Core.Path.{subst}
use libtrs.Types.{Trace}
use libtrs.Cache
use libtrs.Cache.{TraceCache, Reply}
use libtrs.Cache.Invariant.{IsValid, resident_at}
use libtrs.Cache.Lookup.{Looked, lookup-Looked}
use libtrs.Cache.Store.{Evicts, keeps_all, evicts, Stored, full, placed, store-Stored}
use libtrs.Cache.Locks.{
  lock_at, lock_after, LockIs, lookup-LockIs, store-LockIs, IsFree-of_lock_at, CanStore-keep,
  lookup_blocked,
}
use libtrs.Traces.{Buffers, Fetch, TraceSet, Got, make_trace, keep, fetch_trace, trace_get}

abbrev pub buffers : Trace → Buffers
buffers t = record { title = t.title; bytes = t.bytes; samples = t.samples }

-- What the cache holds is what would be fetched.
abbrev pub IsFaithful : Fetch → (ℕ → Option Trace) → Type 0
IsFaithful fetch held =
    (j : ℕ) (t : Trace) → held j ≡ some t → (t.index ≡ j) × (fetch j ≡ (ok, buffers t))

-- A cache between two calls: valid, faithful, every lock at 1.
pub record IsReady (fetch : Fetch) (c : TraceCache) : Type 0 where
  pub valid : IsValid c
  pub faithful : IsFaithful fetch (resident_at c)
  pub cache_free : c.cache_lock ≡ 1
  pub sets_free : (j : ℕ) → lock_at c j ≡ 1

-- How `trace_get` can end at an index of the set: with the trace that is fetched, from wherever it
-- comes; with the error of the fetch; or with a trace that is fetched and refused by the cache.
pub data Ends (fetch : Fetch) (index : ℕ) (g : Got) : Type 0 where
  served :
      (t : Trace) (c : TraceCache)
      → g.status ≡ ok
      → g.trace ≡ some t
      → t.index ≡ index
      → fetch index ≡ (ok, buffers t)
      → g.set.cache ≡ some c
      → IsReady fetch c
      → Ends fetch index g
  failed :
      (e : Errno) → g.status ≡ err e → g.trace ≡ none → (fetch index).0 ≡ err e → Ends fetch index g
  refused :
      (c : TraceCache)
      → g.status ≡ err einval
      → g.trace ≡ none
      → (fetch index).0 ≡ ok
      → g.set.cache ≡ some c
      → IsReady fetch c
      → Ends fetch index g

IsFaithful-Evicts :
    (fetch : Fetch) (held now : ℕ → Option Trace) (t : Trace) (freed : List Trace)
    → IsFaithful fetch held
    → fetch t.index ≡ (ok, buffers t)
    → now t.index ≡ some t
    → Evicts held t now freed
    → IsFaithful fetch now
IsFaithful-Evicts fetch held now t freed f got has ev = λ j u e. elim (ℕ_discrete j t.index) [
  | yes p ↦
      let e' : now t.index ≡ some u = subst (λ (k : ℕ). now k ≡ some u) p e in
      let same : t ≡ u = cc in
      subst (λ (x : Trace). (x.index ≡ j) × (fetch j ≡ (ok, buffers x))) same
        (sym p, ap fetch p ∙ got)
  | no p ↦ f j u (kept j u p e ev)
]
  where
    kept :
        (j : ℕ) (u : Trace)
        → j ≢ t.index
        → now j ≡ some u
        → {l : List Trace} → Evicts held t now l
        → held j ≡ some u
    kept j u p e (keeps_all k) = sym (k j p) ∙ e
    kept j u p e (evicts x a b k) = elim (ℕ_discrete j x.index) [
      | yes q ↦ absurd (cc (subst (λ (i : ℕ). now i ≡ some u) q e, b))
      | no q ↦ sym (k j p q) ∙ e
    ]

-- The cache while `trace_get` holds the lock of the index's set.
record IsHeld (fetch : Fetch) (index : ℕ) (c : TraceCache) : Type 0 where
  valid : IsValid c
  faithful : IsFaithful fetch (resident_at c)
  absent : resident_at c index ≡ none
  cache_free : c.cache_lock ≡ 1
  here : (j : ℕ) → j % c.nsets ≡ index % c.nsets → lock_at c j ≡ 0
  elsewhere : (j : ℕ) → j % c.nsets ≢ index % c.nsets → lock_at c j ≡ 1

IsReady-LockIs :
    (fetch : Fetch) (index : ℕ) (c r : TraceCache)
    → IsHeld fetch index c
    → IsValid r
    → IsFaithful fetch (resident_at r)
    → LockIs c index 1 r
    → IsReady fetch r
IsReady-LockIs fetch index c r h v f l = record {
  valid = v;
  faithful = f;
  cache_free = l.cache_same ∙ h.cache_free;
  sets_free = λ j. elim (ℕ_discrete (j % c.nsets) (index % c.nsets)) [
    | yes p ↦ l.here j p
    | no p ↦ l.elsewhere j p ∙ h.elsewhere j p
  ];
}

keep-Ends :
    (fetch : Fetch) (ts : TraceSet) (c : TraceCache) (t : Trace)
    → ts.cache ≡ some c
    → IsHeld fetch t.index c
    → fetch t.index ≡ (ok, buffers t)
    → Returns (keep false ts t) (Ends fetch t.index)
unfolding keep
keep-Ends fetch ts c t e h got =
    let pos : 0 < c.cache_lock = let q = h.cache_free in omega arith in
    let can = CanStore-keep c t.index pos in
    let P = λ (r : Reply).
      Stored (resident_at c) t r × (lock_at c t.index ≡ 0 → LockIs c t.index 1 r.cache) in
    let stored =
      Returns-and (Stored (resident_at c) t)
        (λ r. lock_at c t.index ≡ 0 → LockIs c t.index 1 r.cache)
        (Cache.store false c t.index t true) (store-Stored c t true h.valid can h.absent)
        (store-LockIs c t h.valid can) in
    rw e (
      Returns-bind P (Ends fetch t.index) (Cache.store false c t.index t true) _ stored
        (λ r p. finish r p.0 (p.1 (h.here t.index refl))))
  where
    finish :
        (r : Reply)
        → Stored (resident_at c) t r
        → LockIs c t.index 1 r.cache
        → Ends fetch t.index (elim r.status [
          | ok ↦ record {
            status = ok;
            trace = some t;
            freed = r.freed;
            set = record ts { cache = some r.cache };
          }
          | err e ↦ record {
            status = err e;
            trace = none;
            freed = r.freed ++ (t ∷ []);
            set = record ts { cache = some r.cache };
          }
        ])
    finish r (full st fr kept v) l = rw st (
        refused r.cache refl refl (ap (λ (x : Status × Buffers). x.0) got) refl (
          IsReady-LockIs fetch t.index c r.cache h v (λ j u q. h.faithful j u (sym (kept j) ∙ q))
            l))
    finish r (placed st has ev v) l = rw st (
        served t r.cache refl refl refl got refl (
          IsReady-LockIs fetch t.index c r.cache h v
            (IsFaithful-Evicts fetch (resident_at c) (resident_at r.cache) t r.freed h.faithful got
              has ev)
            l))

-- The lock of the index's set stays with `trace_get` when `tc_lookup` misses.
missed :
    (fetch : Fetch) (c : TraceCache) (index : ℕ) (r : Reply)
    → IsReady fetch c
    → Looked (resident_at c) index r
    → LockIs c index (lock_after true r.trace (lock_at c index)) r.cache
    → r.trace ≡ none
    → IsHeld fetch index r.cache
missed fetch c index r h l k miss =
    let zero_here : lock_after true r.trace (lock_at c index) ≡ 0 =
      rw (miss, h.sets_free index) refl in
    record {
      valid = l.valid;
      faithful = λ j u q. h.faithful j u (sym (l.kept j) ∙ q);
      absent = l.kept index ∙ sym l.trace ∙ miss;
      cache_free = k.cache_same ∙ h.cache_free;
      here = λ j p. k.here j (subst (λ (n : ℕ). j % n ≡ index % n) k.nsets_same p) ∙ zero_here;
      elsewhere = λ j p.
          k.elsewhere j (λ q. p (subst (λ (n : ℕ). j % n ≡ index % n) (sym k.nsets_same) q))
          ∙ h.sets_free j;
    }

found :
    (fetch : Fetch) (c : TraceCache) (index : ℕ) (r : Reply) (t : Trace)
    → IsReady fetch c
    → Looked (resident_at c) index r
    → LockIs c index (lock_after true r.trace (lock_at c index)) r.cache
    → r.trace ≡ some t
    → IsReady fetch r.cache
found fetch c index r t h l k hit = record {
  valid = l.valid;
  faithful = λ j u q. h.faithful j u (sym (l.kept j) ∙ q);
  cache_free = k.cache_same ∙ h.cache_free;
  sets_free = λ j. elim (ℕ_discrete (j % c.nsets) (index % c.nsets)) [
    | yes p ↦ k.here j p ∙ rw hit (h.sets_free index)
    | no p ↦ k.elsewhere j p ∙ h.sets_free j
  ];
}

fetch_trace-Ends :
    (fetch : Fetch) (ts : TraceSet) (c : TraceCache) (addr index : ℕ)
    → ts.cache ≡ some c
    → IsHeld fetch index c
    → Returns (fetch_trace fetch false (some addr) ts index) (Ends fetch index)
unfolding fetch_trace make_trace
fetch_trace-Ends fetch ts c addr index e h = go (fetch index).0 (fetch index).1 refl refl
  where
    go :
        (s : Status) (b : Buffers)
        → (fetch index).0 ≡ s
        → (fetch index).1 ≡ b
        → Returns (fetch_trace fetch false (some addr) ts index) (Ends fetch index)
    go (err x) b p q = rw (p, fetch_trace) (failed x refl refl p)
    go ok b p q =
        rw (p, fetch_trace)
          (keep-Ends fetch ts c (make_trace addr ts index (fetch index).1) e h
            (λ i. (p i, (fetch index).1)))

-- Between calls, that is with a cache that is valid, holds only what a fetch gives and has every
-- lock at 1, and with memory at hand, trace_get of an index of the set returns. If it succeeds, the
-- trace passed out has the index asked for and the buffers that the fetch gives, cached or not; it
-- fails only with the error of the fetch, or with EINVAL where the cache refuses what was fetched.
-- On success and on refusal the cache is again valid and faithful, with every lock at 1.
pub trace_get-Ends :
    (fetch : Fetch) (ts : TraceSet) (c : TraceCache) (addr index : ℕ)
    → ts.cache ≡ some c
    → IsReady fetch c
    → index < ts.num_traces
    → Returns (trace_get fetch false false (some addr) ts index) (Ends fetch index)
unfolding trace_get
trace_get-Ends fetch ts c addr index e h lt =
    let free =
      IsFree-of_lock_at c index (let q = h.cache_free in omega arith) (h.sets_free index) in
    let P = λ (r : Reply).
      Looked (resident_at c) index r
      × LockIs c index (lock_after true r.trace (lock_at c index)) r.cache in
    let looked =
      Returns-and (Looked (resident_at c) index)
        (λ r. LockIs c index (lock_after true r.trace (lock_at c index)) r.cache)
        (Cache.lookup false c index true) (lookup-Looked c index true h.valid free)
        (lookup-LockIs c index true h.valid free) in
    rw (lt→ltb index ts.num_traces lt, e)
      (Returns-bind P (Ends fetch index) (Cache.lookup false c index true) _ looked (λ r p.
        elim (Option-cases r.trace) [
          | inl miss ↦
              rw (p.0.status, miss)
                (fetch_trace-Ends fetch (record ts { cache = some r.cache }) r.cache addr index refl
                  (missed fetch c index r h p.0 p.1 miss))
          | inr (t, hit) ↦
              let f = h.faithful index t (sym p.0.trace ∙ hit) in
              rw (p.0.status, hit)
                (served t r.cache refl refl f.0 f.1 refl (found fetch c index r t h p.0 p.1 hit))
        ]))

-- Between calls and with memory at hand, a trace_get of an index that is not cached, whose fetch
-- fails, returns the error of the fetch, and leaves the lock of the set of that index taken: every
-- later trace_get of an index of that set waits for ever.
pub failed_get_blocks :
    (fetch : Fetch) (ts : TraceSet) (c : TraceCache) (addr index : ℕ) {e : Errno}
    → ts.cache ≡ some c
    → IsReady fetch c
    → index < ts.num_traces
    → resident_at c index ≡ none
    → (fetch index).0 ≡ err e
    → Returns (trace_get fetch false false (some addr) ts index) (λ g.
      (g.status ≡ err e)
      × ((fetch' : Fetch) (oom oom' : Bool) (alloc : Option ℕ) (j : ℕ)
          → j < ts.num_traces
          → j % c.nsets ≡ index % c.nsets
          → trace_get fetch' oom oom' alloc g.set j ≡ blocked))
unfolding trace_get fetch_trace
failed_get_blocks fetch ts c addr index {e} has h lt absent bad =
    let free =
      IsFree-of_lock_at c index (let q = h.cache_free in omega arith) (h.sets_free index) in
    let P = λ (r : Reply).
      Looked (resident_at c) index r
      × LockIs c index (lock_after true r.trace (lock_at c index)) r.cache in
    let looked =
      Returns-and (Looked (resident_at c) index)
        (λ r. LockIs c index (lock_after true r.trace (lock_at c index)) r.cache)
        (Cache.lookup false c index true) (lookup-Looked c index true h.valid free)
        (lookup-LockIs c index true h.valid free) in
    rw (lt→ltb index ts.num_traces lt, has)
      (Returns-bind P _ (Cache.lookup false c index true) _ looked (λ r p.
        let miss : r.trace ≡ none = p.0.trace ∙ absent in
        let held = missed fetch c index r h p.0 p.1 miss in
        rw (p.0.status, miss, fetch_trace, bad)
          (
            refl,
            λ fetch' oom oom' alloc j ltj same.
                rw
                  (
                    lt→ltb j ts.num_traces ltj,
                    lookup_blocked oom r.cache j true held.valid (
                        held.here j
                          (subst (λ (n : ℕ). j % n ≡ index % n) (sym p.1.nsets_same) same)),
                  )
                  refl,
          )))
