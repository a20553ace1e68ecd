-- ===== src/Cache/Sizing.antt =====
-- lib/trace/cache.c: the size of a cache, `__find_num_traces` and `ts_create_cache`. The sizes of
-- the C structures are those of the platform. `fuel` bounds the turns of the loop.
pub mod Extent
use libtrs.Base.{
  ℕ, zero, suc, ◌+◌, ◌-◌, ◌*◌, ◌/◌, ◌%◌, ◌^◌, ◌≤◌, ◌<◌, ◌≡◌, refl, ap, sym, ◌∙◌, ltb, lt→ltb, ◌==◌,
  if◌then◌else◌, Bool, true, false, Bool-cases, lt_cases, Option, none, some, ◌⊎◌, inl, inr, Errno,
  einval, Status, ok, err, Outcome, done, blocked, fault, ◌>>=◌, inc_size, arith,
}
use libtrs.Cache.{TraceCache, cache_manual, lookup, locate}
use libtrs.Cache.Invariant.{IsValid, resident_at}

pub record Layout : Type 0 where
  pub trace_cache : ℕ
  pub tc_set : ℕ
  pub pointer : ℕ

-- The `size_t` that the `int` parameter `assoc` of `__find_num_traces` counts as, for the `size_t` that
-- the call is given: the low 32 bits, with the sign extended.
unfoldable pub as_int : ℕ → ℕ
as_int assoc = let low = assoc % 2 ^ 32 in if ltb low (2 ^ 31) then low else low + (2 ^ 64 - 2 ^ 32)

-- The control structures of one set: a `bool`, two `uint8_t` and a pointer for each way.
unfoldable pub set_size : Layout → ℕ → ℕ
set_size l assoc = l.tc_set + assoc * 1 + assoc * 1 + assoc * 1 + assoc * l.pointer

-- What a turn of the loop makes of `mem_used`.
unfoldable pub grow : Layout → ℕ → ℕ → ℕ → ℕ → ℕ
grow l assoc trace_size ntraces mem_used =
    ((if ntraces % assoc == 0 then (mem_used + set_size l assoc) % 2 ^ 64 else mem_used)
      + trace_size)
    % 2 ^ 64

-- The loop of `__find_num_traces`, which divides by `assoc` in every turn; it is left waiting when the
-- fuel does not last.
unfoldable pub fit_traces : ℕ → Layout → ℕ → ℕ → ℕ → ℕ → ℕ → Outcome ℕ
fit_traces zero l assoc trace_size size_bytes mem_used ntraces =
    if ltb mem_used size_bytes then blocked else done ntraces
fit_traces (suc fuel) l assoc trace_size size_bytes mem_used ntraces =
    let rest =
      fit_traces fuel l assoc trace_size size_bytes (grow l assoc trace_size ntraces mem_used)
        (inc_size ntraces) in
    if ltb mem_used size_bytes then (if assoc == 0 then fault else rest) else done ntraces

-- A turn adds at least one byte, so as many turns as there are bytes are enough.
unfoldable pub find_num_traces : Layout → ℕ → ℕ → ℕ → Outcome ℕ
find_num_traces l trace_size size_bytes assoc =
    fit_traces size_bytes l (as_int assoc) trace_size size_bytes l.trace_cache 0

-- `ts_create_cache` of a set whose traces have `trace_size` bytes on average; the Booleans are those
-- of `tc_cache_manual`.
unfoldable pub create_cache :
    Bool → Bool → Bool → Layout → ℕ → ℕ → ℕ → ℕ → Outcome (Status × Option TraceCache)
create_cache oom_cache oom_lock oom_sets l id trace_size size_bytes assoc =
    if ltb size_bytes trace_size
    then done (err einval, none)
    else find_num_traces l trace_size size_bytes assoc >>= λ ntraces.
        if assoc == 0
        then fault
        else done (
            cache_manual oom_cache oom_lock oom_sets id ((ntraces - ntraces % assoc) / assoc) assoc)
