-- ===== src/Cache/Locks.antt =====
-- The semaphores of a cache: which calls give back what they take, and which keep a set's lock.
use libtrs.Base.{
  ℕ, zero, suc, ◌+◌, ◌-◌, ◌%◌, ◌<◌, ◌≡◌, refl, ◌≢◌, Bool, true, false, Option, none, some,
  get_elem?, set, arith, sym, ◌∙◌, done, blocked, if◌then◌else◌, Option-cases, ◌⊎◌, Bool-cases, inl,
  inr, find_index, modify, Returns, Returns-if, inc_size, ok, get_elem?-some, replicate,
  length-replicate, get_elem?-replicate, get_elem?-set_self, get_elem?-set_ne,
  lt-length_of_get_elem?,
}
use mathlib.Core.Path.{subst}
use libtrs.Types.{Trace}
use libtrs.Ways.{update_lru, holds, choose_way}
use libtrs.Ways.Slots.{find_index_hit, holds-some}
use libtrs.Cache.{
  TcSet, TraceCache, Reply, fresh_set, lookup_in, lookup_new, lookup, store_in, store, take_lock,
  add_ref, fill, cache_manual, new_cache, empty_set,
}
use libtrs.Cache.Invariant.{IsValid, located}
use libtrs.Cache.Lookup.{IsFree, take_lock_pos}
use libtrs.Cache.Store.{CanStore}

-- The count of a set's lock, which a set not yet initialized has at 1 when it is created.
abbrev lock_of : Option TcSet → ℕ
lock_of none = 0
lock_of (some s) = if s.initialized then s.set_lock else 1

abbrev pub lock_at : TraceCache → ℕ → ℕ
lock_at c index = lock_of (get_elem? c.sets (index % c.nsets))

-- The locks of `r` are those of `c`, but for that of the index's set, which is `n`.
pub record LockIs (c : TraceCache) (index n : ℕ) (r : TraceCache) : Type 0 where
  pub cache_same : r.cache_lock ≡ c.cache_lock
  pub nsets_same : r.nsets ≡ c.nsets
  pub here : (j : ℕ) → j % c.nsets ≡ index % c.nsets → lock_at r j ≡ n
  pub elsewhere : (j : ℕ) → j % c.nsets ≢ index % c.nsets → lock_at r j ≡ lock_at c j

put_set-LockIs :
    (c c' : TraceCache) (s s' : TcSet) (index n : ℕ)
    → get_elem? c.sets (index % c.nsets) ≡ some s
    → s'.initialized ≡ true
    → s'.set_lock ≡ n
    → c'.cache_lock ≡ c.cache_lock
    → c'.nsets ≡ c.nsets
    → c'.sets ≡ set c.sets (index % c.nsets) s'
    → LockIs c index n c'
put_set-LockIs c c' s s' index n e init lock l ns ss = record {
  cache_same = l;
  nsets_same = ns;
  here = λ j q.
      let at =
        get_elem?-set_self c.sets (index % c.nsets) s'
          (lt-length_of_get_elem? c.sets (index % c.nsets) e) in
      rw (ns, ss, q, at, init) lock;
  elsewhere = λ j q. rw (ns, ss, get_elem?-set_ne c.sets s' (λ p. q (sym p))) refl;
}

-- The count that `tc_lookup` leaves.
abbrev pub lock_after : Bool → Option Trace → ℕ → ℕ
lock_after keep_lock none n = if keep_lock then n - 1 else n
lock_after keep_lock (some _) n = n

module _ (c : TraceCache) (s : TcSet) (index : ℕ)
    (e : get_elem? c.sets (index % c.nsets) ≡ some s) where
  lock_at_old : (n : ℕ) → s.initialized ≡ true → s.set_lock ≡ n → lock_at c index ≡ n
  lock_at_old n init lock = rw (e, init) lock

  lock_at_new : s.initialized ≡ false → lock_at c index ≡ 1
  lock_at_new new = rw (e, new) refl

  lookup_in-LockIs :
      (keep_lock : Bool) (m : ℕ)
      → s.initialized ≡ true
      → s.set_lock ≡ suc m
      → let r = lookup_in c (record s { set_lock = m }) index keep_lock in
        LockIs c index (lock_after keep_lock r.trace (lock_at c index)) r.cache
  unfolding lookup_in
  lookup_in-LockIs keep_lock m init lock = elim (Option-cases (find_index (holds index) s.ways)) [
    | inl miss ↦
        rw (miss, lookup_in)
          (put_set-LockIs c _ s (record s { set_lock = if keep_lock then m else m + 1 }) index _ e
            init (rw (lock_at_old (suc m) init lock) (ground arith)) refl refl refl)
    | inr (i, hit) ↦
        let (w, a, b, d) = find_index_hit index s.ways i hit in
        let (t, q, _) = holds-some index w b in
        rw (hit, lookup_in, a, q)
          (put_set-LockIs c _ s
            (record s { set_lock = m + 1; ways = modify i add_ref (update_lru s.ways i true) })
            index _ e init (rw (lock_at_old (suc m) init lock) (omega arith)) refl refl refl)
  ]

  lookup_new-LockIs :
      (keep_lock : Bool) (n : ℕ)
      → s.initialized ≡ false
      → let r = lookup_new false c n index keep_lock in
        LockIs c index (lock_after keep_lock r.trace (lock_at c index)) r.cache
  unfolding lookup_new fresh_set
  lookup_new-LockIs keep_lock n new =
      put_set-LockIs c _ s (record (fresh_set c.nways) { set_lock = if keep_lock then 0 else 1 })
        index _ e refl (rw (lock_at_new new) (ground arith)) refl refl refl

store_in-LockIs :
    (c : TraceCache) (s s0 : TcSet) (index : ℕ) (t : Trace) (m : ℕ)
    → get_elem? c.sets (index % c.nsets) ≡ some s0
    → s.initialized ≡ true
    → s.set_lock ≡ m
    → LockIs c index (m + 1) (store_in c s index t).cache
unfolding store_in
store_in-LockIs c s s0 index t m e init lock = elim (Option-cases (choose_way s.ways)) [
  | inl n ↦
      rw (n, store_in)
        (put_set-LockIs c _ s0 (record s { set_lock = s.set_lock + 1 }) index (m + 1) e init
          (rw lock refl) refl refl refl)
  | inr ((way, h), q) ↦
      let ways = update_lru (modify way (fill t) s.ways) way false in
      rw (q, store_in)
        (put_set-LockIs c _ s0 (record s { set_lock = s.set_lock + 1; ways = ways }) index (m + 1) e
          init (rw lock refl) refl refl refl)
]

-- With a valid cache, the cache lock and the lock of the set of the index free, and memory for a
-- new set, tc_lookup returns with the cache lock and the locks of the other sets as they were; the
-- lock of the set of the index is kept exactly when the call passes out NULL and was asked to keep
-- it.
pub lookup-LockIs :
    (c : TraceCache) (index : ℕ) (keep_lock : Bool)
    → IsValid c
    → IsFree c index
    → Returns
        (lookup false c index keep_lock)
        (λ r. LockIs c index (lock_after keep_lock r.trace (lock_at c index)) r.cache)
unfolding lookup
lookup-LockIs c index keep_lock v free =
    let (s, e, q, w) = located c index v in
    let (n, l, _) = take_lock_pos c.cache_lock free.cache_free in
    let c' : TraceCache = record c { accesses = inc_size c.accesses } in
    let P =
      λ (r : Reply). LockIs c index (lock_after keep_lock r.trace (lock_at c index)) r.cache in
    rw (q, l)
      (Returns-if P s.initialized _ _
        (λ old.
          let (m, k, p) = take_lock_pos s.set_lock (free.set_free s e old) in
          rw k (unframe (lookup_in-LockIs c' s index e keep_lock m old p)))
        (λ new. unframe (lookup_new-LockIs c' s index e keep_lock n new)))
  where
    unframe :
        {n : ℕ} {r : TraceCache}
        → LockIs (record c { accesses = inc_size c.accesses }) index n r
        → LockIs c index n r
    unframe x = record {
      cache_same = x.cache_same;
      nsets_same = x.nsets_same;
      here = x.here;
      elsewhere = x.elsewhere;
    }

-- `tc_store` with `keep_lock` gives back the lock that its caller holds, whether it takes the
-- trace or not.
pub store-LockIs :
    (c : TraceCache) (t : Trace)
    → IsValid c
    → CanStore c t.index true
    → Returns
        (store false c t.index t true)
        (λ r. (lock_at c t.index ≡ 0) → LockIs c t.index 1 r.cache)
unfolding store
store-LockIs c t v free =
    let (s, e, q, w) = located c t.index v in
    let (n, l, _) = take_lock_pos c.cache_lock free.cache_free in
    let P = λ (r : Reply). (lock_at c t.index ≡ 0) → LockIs c t.index 1 r.cache in
    rw (q, l)
      (Returns-if P s.initialized _ _
        (λ old held.
          store_in-LockIs c s s t.index t 0 e old
            (sym (lock_at_old c s t.index e s.set_lock old refl) ∙ held))
        (λ new held. absurd (cc (lock_at_new c s t.index e new, held))))

take_lock_cases : (n : ℕ) → (take_lock n ≡ blocked) ⊎ ((m : ℕ) × (take_lock n ≡ done m))
unfolding take_lock
take_lock_cases zero = inl refl
take_lock_cases (suc n) = inr (n, refl)

-- A thread waits at a set whose lock is held.
pub lookup_blocked :
    (oom : Bool) (c : TraceCache) (index : ℕ) (keep_lock : Bool)
    → IsValid c
    → lock_at c index ≡ 0
    → lookup oom c index keep_lock ≡ blocked
unfolding lookup take_lock
lookup_blocked oom c index keep_lock v held =
    let (s, e, q, w) = located c index v in
    elim (Bool-cases s.initialized) [
      | inr new ↦ absurd (cc (lock_at_new c s index e new, held))
      | inl old ↦
          let z : s.set_lock ≡ 0 = sym (lock_at_old c s index e s.set_lock old refl) ∙ held in
          elim (take_lock_cases c.cache_lock) [
            | inl p ↦ rw (q, lookup, p) refl
            | inr (m, p) ↦ rw (q, lookup, p, old, z) refl
          ]
    ]

pub IsFree-of_lock_at :
    (c : TraceCache) (index : ℕ) → 0 < c.cache_lock → lock_at c index ≡ 1 → IsFree c index
IsFree-of_lock_at c index h l = record {
  cache_free = h;
  set_free = λ s e init.
      let q : s.set_lock ≡ 1 = sym (lock_at_old c s index e s.set_lock init refl) ∙ l in
      omega arith;
}

pub CanStore-keep : (c : TraceCache) (index : ℕ) → 0 < c.cache_lock → CanStore c index true
CanStore-keep c index h = record { cache_free = h; set_free = λ s e i k. absurd (cc) }

-- A new cache has every lock at 1.
pub cache_manual-lock_at :
    (oom_cache oom_lock oom_sets : Bool) (id nsets nways : ℕ) {c : TraceCache}
    → 0 < nsets
    → cache_manual oom_cache oom_lock oom_sets id nsets nways ≡ (ok, some c)
    → (c.cache_lock ≡ 1) × ((j : ℕ) → lock_at c j ≡ 1)
unfolding cache_manual
cache_manual-lock_at oom_cache oom_lock oom_sets id nsets nways {c} h e =
    let same : new_cache id nsets nways ≡ c = ground (arith, e) in
    subst (λ (x : TraceCache). (x.cache_lock ≡ 1) × ((j : ℕ) → lock_at x j ≡ 1)) same
      (
        refl,
        λ j.
            let (s, at) =
              get_elem?-some (replicate nsets empty_set) (j % nsets)
                (rw (length-replicate nsets empty_set) (omega arith)) in
            let same = get_elem?-replicate nsets (j % nsets) empty_set s at in rw (at, same) refl,
      )
