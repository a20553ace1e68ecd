-- ===== src/Cache/Lookup.antt =====
-- `tc_lookup` against what the cache holds.
use libtrs.Base.{
  ℕ, zero, suc, ◌+◌, ◌%◌, ◌<◌, ◌≡◌, refl, Bool, true, false, Option, none, some, List, [], length,
  get_elem?, arith, sym, ◌∙◌, done, if◌then◌else◌, Option-cases, inl, inr, ok, find_index, modify,
  Returns, Returns-if, inc_size, length-modify,
}
use libtrs.Types.{Trace}
use libtrs.Ways.{Way, update_lru, holds}
use libtrs.Ways.Lru.{length-update_lru, length-fresh_ways}
use libtrs.Ways.Slots.{
  slots, resident-nil, slots-update_lru, slots-modify_same, find_index_miss, resident-fresh_ways,
  fresh_ways-IsCoherent, find_index_hit,
}
use native.Mathlib.Decide.{ℕ_discrete}
use libtrs.Cache.{
  TcSet, TraceCache, Reply, put_set, fresh_set, lookup_in, lookup_new, lookup, take_lock, add_ref,
}
use libtrs.Cache.Invariant.{
  SetIsValid, IsValid, resident_at, located, set-AreValid, resident-set_same, resident-set_self,
  resident-set_ne,
}

-- Nobody holds the cache lock or the lock of the index's set.
pub record IsFree (c : TraceCache) (index : ℕ) : Type 0 where
  pub cache_free : 0 < c.cache_lock
  pub set_free :
      (s : TcSet)
      → get_elem? c.sets (index % c.nsets) ≡ some s
      → s.initialized ≡ true
      → 0 < s.set_lock

-- What `tc_lookup` promises of a cache that holds `held`.
pub record Looked (held : ℕ → Option Trace) (index : ℕ) (r : Reply) : Type 0 where
  pub status : r.status ≡ ok
  pub trace : r.trace ≡ held index
  pub freed : r.freed ≡ []
  pub kept : (j : ℕ) → resident_at r.cache j ≡ held j
  pub valid : IsValid r.cache

-- A set whose ways hold the same traces, in the same number, is as valid.
pub SetIsValid-same :
    {nsets nways k : ℕ} (s r : TcSet)
    → SetIsValid nsets nways k s
    → s.initialized ≡ true
    → r.initialized ≡ true
    → slots r.ways ≡ slots s.ways
    → length r.ways ≡ length s.ways
    → SetIsValid nsets nways k r
SetIsValid-same s r v init init' same len = record {
  blank = λ e. absurd (cc);
  size = λ _. len ∙ v.size init;
  coherent = rw same v.coherent;
}

slots-hit : (ws : List Way) (i : ℕ) → slots (modify i add_ref (update_lru ws i true)) ≡ slots ws
unfolding add_ref
slots-hit ws i =
    slots-modify_same add_ref (λ w. refl) i (update_lru ws i true) ∙ slots-update_lru ws i true

length-hit : (ws : List Way) (i : ℕ) → length (modify i add_ref (update_lru ws i true)) ≡ length ws
length-hit ws i = length-modify i add_ref (update_lru ws i true) ∙ length-update_lru ws i true

lookup_in-Looked :
    (c : TraceCache) (s : TcSet) (index m : ℕ) (keep_lock : Bool)
    → IsValid c
    → get_elem? c.sets (index % c.nsets) ≡ some s
    → s.initialized ≡ true
    → Looked (resident_at c) index (lookup_in c (record s { set_lock = m }) index keep_lock)
unfolding lookup_in
lookup_in-Looked c s index m keep_lock v e init =
    elim (Option-cases (find_index (holds index) s.ways)) [
      | inl miss ↦
          let lock = if keep_lock then m else m + 1 in
          let s' : TcSet = record s { set_lock = lock } in
          rw (miss, lookup_in)
            (record {
              status = refl;
              trace = rw e (sym (find_index_miss index s.ways miss));
              freed = refl;
              kept = resident-set_same v index s s' e refl;
              valid =
                  set-AreValid v index s' (SetIsValid-same s s' (v.each _ s e) init init refl refl);
            })
      | inr (i, hit) ↦
          let s' : TcSet = record s {
            set_lock = m + 1;
            ways = modify i add_ref (update_lru s.ways i true);
          } in
          let (w, a, b, d) = find_index_hit index s.ways i hit in
          rw (hit, lookup_in)
            (record {
              status = refl;
              trace = rw (a, e) (sym d);
              freed = refl;
              kept = resident-set_same v index s s' e (slots-hit s.ways i);
              valid = set-AreValid v index s' (
                  SetIsValid-same s s' (v.each _ s e) init init (slots-hit s.ways i)
                    (length-hit s.ways i));
            })
    ]

pub fresh_set-SetIsValid :
    (nsets nways k lock : ℕ)
    → SetIsValid nsets nways k (record (fresh_set nways) { set_lock = lock })
unfolding fresh_set
fresh_set-SetIsValid nsets nways k lock = record {
  blank = λ e. absurd (cc);
  size = λ _. length-fresh_ways nways;
  coherent = fresh_ways-IsCoherent nsets k nways;
}

-- A set not yet initialized holds nothing, and neither does a new one.
pub resident_blank :
    (c : TraceCache) (s : TcSet) (index : ℕ)
    → IsValid c
    → get_elem? c.sets (index % c.nsets) ≡ some s
    → s.initialized ≡ false
    → (j : ℕ) → j % c.nsets ≡ index % c.nsets
    → resident_at c j ≡ none
resident_blank c s index v e new j same =
    let b : s.ways ≡ [] = (v.each _ s e).blank new in rw (same, e, b) (resident-nil j)

pub resident-fresh_set :
    (c : TraceCache) (s : TcSet) (index lock : ℕ)
    → IsValid c
    → get_elem? c.sets (index % c.nsets) ≡ some s
    → s.initialized ≡ false
    → (j : ℕ)
    → resident_at (put_set c index (record (fresh_set c.nways) { set_lock = lock })) j
      ≡ resident_at c j
unfolding fresh_set
resident-fresh_set c s index lock v e new j =
    let s' : TcSet = record (fresh_set c.nways) { set_lock = lock } in
    elim (ℕ_discrete (index % c.nsets) (j % c.nsets)) [
      | yes p ↦
          resident-set_self v index j s' (sym p)
          ∙ resident-fresh_ways j c.nways
          ∙ sym (resident_blank c s index v e new j (sym p))
      | no p ↦ resident-set_ne v index j s' p
    ]

lookup_new-Looked :
    (c : TraceCache) (s : TcSet) (n index : ℕ) (keep_lock : Bool)
    → IsValid c
    → get_elem? c.sets (index % c.nsets) ≡ some s
    → s.initialized ≡ false
    → Looked (resident_at c) index (lookup_new false c n index keep_lock)
unfolding lookup_new
lookup_new-Looked c s n index keep_lock v e new =
    let lock : ℕ = if keep_lock then 0 else 1 in
    record {
      status = refl;
      trace = sym (resident_blank c s index v e new index refl);
      freed = refl;
      kept = resident-fresh_set c s index lock v e new;
      valid =
          set-AreValid v index (record (fresh_set c.nways) { set_lock = lock })
            (fresh_set-SetIsValid c.nsets c.nways (index % c.nsets) lock);
    }

pub take_lock_pos : (n : ℕ) → 0 < n → (m : ℕ) × (take_lock n ≡ done m) × (n ≡ suc m)
unfolding take_lock
take_lock_pos zero h = absurd (omega arith)
take_lock_pos (suc n) h = (n, refl, refl)

-- With a valid cache, the cache lock and the lock of the set of the index free, and memory for a
-- new set, tc_lookup returns 0 and passes out the trace that the cache holds for the index, or NULL
-- if it holds none. It frees nothing, what the cache holds for any index stays the same, and the
-- cache is valid again.
pub lookup-Looked :
    (c : TraceCache) (index : ℕ) (keep_lock : Bool)
    → IsValid c
    → IsFree c index
    → Returns (lookup false c index keep_lock) (Looked (resident_at c) index)
unfolding lookup
lookup-Looked c index keep_lock v free =
    let (s, e, q, w) = located c index v in
    let (n, l, _) = take_lock_pos c.cache_lock free.cache_free in
    let c' : TraceCache = record c { accesses = inc_size c.accesses } in
    rw (q, l)
      (Returns-if (Looked (resident_at c) index) s.initialized _ _
        (λ old.
          let (m, k, _) = take_lock_pos s.set_lock (free.set_free s e old) in
          rw k (lookup_in-Looked c' s index m keep_lock v e old))
        (λ new. lookup_new-Looked c' s n index keep_lock v e new))
