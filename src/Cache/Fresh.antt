-- ===== src/Cache/Fresh.antt =====
-- `tc_cache_manual` against what the cache holds.
use libtrs.Base.{
  ℕ, ◌%◌, ◌<◌, ◌≡◌, refl, Bool, false, none, some, get_elem?, arith, sym, Option-cases, inl, inr,
  ok, replicate, length-replicate, get_elem?-replicate,
}
use mathlib.Core.Path.{subst}
use libtrs.Ways.Slots.{resident-nil}
use libtrs.Cache.{TcSet, TraceCache, empty_set, cache_manual, new_cache}
use libtrs.Cache.Invariant.{SetIsValid, IsValid, resident_at}
use libtrs.Cache.Lookup.{IsFree}

empty_set-SetIsValid : (nsets nways k : ℕ) → SetIsValid nsets nways k empty_set
empty_set-SetIsValid nsets nways k = record {
  blank = λ _. refl;
  size = λ e. absurd (cc);
  coherent = record {
    present = λ j s e _. absurd (cc);
    unique = λ index i j r s e _ _ _. absurd (cc);
  };
}

-- Each set of a new cache is empty.
new_sets :
    (id nsets nways k : ℕ) (s : TcSet)
    → get_elem? (new_cache id nsets nways).sets k ≡ some s
    → empty_set ≡ s
unfolding new_cache
new_sets id nsets nways k s e = sym (get_elem?-replicate nsets k empty_set s e)

Fresh : TraceCache → Type 0
Fresh c = IsValid c × ((index : ℕ) → IsFree c index × (resident_at c index ≡ none))

new_cache-Fresh : (id nsets nways : ℕ) → 0 < nsets → Fresh (new_cache id nsets nways)
unfolding Fresh new_cache
new_cache-Fresh id nsets nways h = (
  record {
    some_sets = h;
    count = length-replicate nsets empty_set;
    each = λ k s e.
        subst (SetIsValid nsets nways k) (new_sets id nsets nways k s e)
          (empty_set-SetIsValid nsets nways k);
  },
  λ index. (
    record {
      cache_free = omega arith;
      set_free = λ s e q. absurd (
          cc
            (subst (λ (u : TcSet). u.initialized ≡ false) (new_sets id nsets nways _ s e) refl, q));
    },
    elim (Option-cases (get_elem? (replicate nsets empty_set) (index % nsets))) [
      | inl n ↦ rw n refl
      | inr (s, e) ↦
          let same = new_sets id nsets nways (index % nsets) s e in
          rw (e, ← same) (resident-nil index)
    ],
  ),
)

-- A cache that `tc_cache_manual` returns, of at least one set, is valid, holds nothing, and has
-- its locks free.
pub cache_manual-IsValid :
    (oom_cache oom_lock oom_sets : Bool) (id nsets nways : ℕ) {c : TraceCache}
    → 0 < nsets
    → cache_manual oom_cache oom_lock oom_sets id nsets nways ≡ (ok, some c)
    → IsValid c × ((index : ℕ) → IsFree c index × (resident_at c index ≡ none))
unfolding cache_manual Fresh
cache_manual-IsValid oom_cache oom_lock oom_sets id nsets nways {c} h e =
    let same : new_cache id nsets nways ≡ c = ground (arith, e) in
    subst Fresh same (new_cache-Fresh id nsets nways h)
