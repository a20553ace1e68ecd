-- ===== src/Cache/Sizing/Extent.antt =====
-- How many traces a cache of a given size is made for.
use libtrs.Base.{
  ℕ, zero, suc, ◌+◌, ◌-◌, ◌/◌, ◌%◌, ◌^◌, ◌≤◌, ◌<◌, ◌≡◌, refl, ap, ◌∙◌, ltb, ltb→lt, ◌==◌,
  if◌then◌else◌, Bool, true, false, Bool-cases, lt_cases, some, done, inl, inr, ok, fault, inc_size,
  arith,
}
use mathlib.Core.Path.{subst}
use native.Mathlib.Nat
use libtrs.Cache.{TraceCache, cache_manual, new_cache, lookup, locate}
use libtrs.Cache.Sizing.{Layout, as_int, set_size, grow, fit_traces, find_num_traces, create_cache}

module _ (l : Layout) (assoc trace_size : ℕ) where
  -- The memory for `n` traces: the cache, a set before every `assoc` of them, and the traces.
  unfoldable pub cost : ℕ → ℕ
  cost zero = l.trace_cache
  cost (suc n) = (if n % assoc == 0 then cost n + set_size l assoc else cost n) + trace_size

  -- The number `n` of traces is the least whose memory is not below `size_bytes`.
  pub record Fits (size_bytes n : ℕ) : Type 0 where
    pub reaches : size_bytes ≤ cost n
    pub least : (k : ℕ) → k < n → cost k < size_bytes

  cost-suc : (n : ℕ) → cost n + trace_size ≤ cost (suc n)
  unfolding cost
  cost-suc n = ground arith

  cost-suc_le : (n : ℕ) → cost (suc n) ≤ cost n + (set_size l assoc + trace_size)
  unfolding cost
  cost-suc_le n = ground arith

  grow-cost :
      (n : ℕ)
      → cost n + (set_size l assoc + trace_size) < 2 ^ 64
      → grow l assoc trace_size n (cost n) ≡ cost (suc n)
  unfolding grow cost
  grow-cost n h = ground arith

  one_turn :
      (fuel size_bytes n m : ℕ)
      → ltb (cost n) size_bytes ≡ true
      → (assoc == 0) ≡ false
      → grow l assoc trace_size n (cost n) ≡ cost (suc n)
      → inc_size n ≡ suc n
      → fit_traces fuel l assoc trace_size size_bytes (cost (suc n)) (suc n) ≡ done m
      → fit_traces (suc fuel) l assoc trace_size size_bytes (cost n) n ≡ done m
  unfolding fit_traces
  one_turn fuel size_bytes n m go z g i e =
      rw (go, z)
        (ap (λ c. fit_traces fuel l assoc trace_size size_bytes c (inc_size n)) g
          ∙ ap (fit_traces fuel l assoc trace_size size_bytes (cost (suc n))) i
          ∙ e)

  fit_traces-Fits :
      (fuel size_bytes n : ℕ)
      → 0 < assoc
      → 0 < trace_size
      → size_bytes + (set_size l assoc + trace_size) < 2 ^ 64
      → n ≤ cost n
      → size_bytes ≤ fuel + cost n
      → ((k : ℕ) → k < n → cost k < size_bytes)
      → (m : ℕ) × (fit_traces fuel l assoc trace_size size_bytes (cost n) n ≡ done m)
        × Fits size_bytes m
  unfolding fit_traces
  fit_traces-Fits zero size_bytes n a t b c f below =
      let stop : ltb (cost n) size_bytes ≡ false = ground arith in
      (n, rw stop, record { reaches = omega arith; least = below })
  fit_traces-Fits (suc fuel) size_bytes n a t b c f below =
      elim (Bool-cases (ltb (cost n) size_bytes)) [
        | inr stop ↦ (n, rw stop, record { reaches = ground arith; least = below })
        | inl go ↦
            let lt = ltb→lt (cost n) size_bytes go in
            let up = cost-suc n in
            let g = grow-cost n (omega arith) in
            let i : inc_size n ≡ suc n = omega arith in
            let (m, e, fits) =
              fit_traces-Fits fuel size_bytes (suc n) a t b (omega arith) (omega arith) (λ k h.
                elim (lt_cases k n) [
                  | inl lt_n ↦ below k lt_n
                  | inr ge_n ↦
                      let e : n ≡ k = omega arith in subst (λ (j : ℕ). cost j < size_bytes) e lt
                ]) in
            let z : (assoc == 0) ≡ false = ground (arith, a) in
            (m, one_turn fuel size_bytes n m go z g i e, fits)
      ]

  as_int_lem : assoc < 2 ^ 31 → as_int assoc ≡ assoc
  unfolding as_int
  as_int_lem h =
      let low : assoc % 2 ^ 32 ≡ assoc = omega (arith, h) in
      let q : ltb assoc (2 ^ 31) ≡ true = ground (arith, h) in rw (low, q) refl

  -- With an associativity from 1 to 2^31 - 1, traces of at least one byte, and sizes that stay in a
  -- size_t, the loop of __find_num_traces ends within as many turns as the size has bytes, with the
  -- least number of traces whose memory, that of the control structures included, is not below the
  -- size.
  pub find_num_traces-Fits :
      (size_bytes : ℕ)
      → 0 < assoc
      → assoc < 2 ^ 31
      → 0 < trace_size
      → size_bytes + (set_size l assoc + trace_size) < 2 ^ 64
      → (n : ℕ) × (find_num_traces l trace_size size_bytes assoc ≡ done n) × Fits size_bytes n
  unfolding find_num_traces cost
  find_num_traces-Fits size_bytes a small t b = rw (as_int_lem small) (
      fit_traces-Fits size_bytes size_bytes 0 a t b (omega arith) (omega arith)
        (λ k h. absurd (omega arith)))

sets_none : (n k : ℕ) → n < k → (n - n % k) / k ≡ 0
sets_none n k h =
    let e : n - n % k ≡ 0 = let r = Nat.mod-eq_of_lt h in omega arith in
    ap (λ z. z / k) e ∙ Nat.zero-div k

module _ (l : Layout) (id assoc trace_size size_bytes : ℕ) where
  -- A cache whose size is at least one trace, but not above that of a cache with one trace less
  -- than a full set, is made with no set, and every lookup in it divides by zero.
  pub create_cache_no_sets :
      0 < assoc
      → assoc < 2 ^ 31
      → 0 < trace_size
      → size_bytes + (set_size l assoc + trace_size) < 2 ^ 64
      → trace_size ≤ size_bytes
      → size_bytes ≤ cost l assoc trace_size (assoc - 1)
      → (c : TraceCache) × (create_cache false false false l id trace_size size_bytes assoc
          ≡ done (ok, some c))
        × ((oom keep_lock : Bool) (index : ℕ) → lookup oom c index keep_lock ≡ fault)
  unfolding create_cache cache_manual new_cache lookup locate
  create_cache_no_sets a int t b one short =
      let (n, e, fits) = find_num_traces-Fits l assoc trace_size size_bytes a int t b in
      let z : (assoc == 0) ≡ false = ground (arith, a) in
      let go : ltb size_bytes trace_size ≡ false = ground arith in
      let small : n < assoc = elim (lt_cases n assoc) [
        | inl g ↦ g
        | inr g ↦ let r = fits.least (assoc - 1) (omega arith) in absurd (omega arith)
      ] in
      let none_left = sets_none n assoc small in
      (new_cache id 0 assoc, rw (go, e, z, none_left), λ oom keep_lock index. refl)
