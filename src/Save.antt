-- ===== src/Save.antt =====
-- transform/system/tfm_save.c: the queue of traces that a thread of its own writes to a trace file, in
-- the order of their indices in the set before. The parts between two operations on `list_lock` are
-- one operation each. `alloc` says whether the allocations of a write succeed.
pub mod Commits
pub mod Exit
mod Tests
use libtrs.Base.{
  ℕ, ◌+◌, ◌-◌, ◌^◌, ltb, ◌==◌, if◌then◌else◌, Bool, true, false, Option, none, some, List, [], ◌∷◌,
  length, inc_size, Errno, einval, Status, ok, err, Outcome, done, blocked, fault,
}
use libtrs.Types.{Trace}
use libtrs.Trs.{Trs, Floats, backend_trs_write}

abbrev pub sentinel_index : ℕ
sentinel_index = 2 ^ 64 - 1

-- `struct __commit_queue_entry`.
pub record CommitEntry : Type 0 where
  pub trace : Option Trace
  pub prev_index : ℕ

-- `struct __commit_queue`, with the set that it writes, the set's identity, and `num_traces_written` of
-- `struct tfm_save_state`.
pub record CommitQueue : Type 0 where
  pub ts : ℕ
  pub set : Trs
  pub sentinel : ℕ
  pub entries : List CommitEntry
  pub written : ℕ
  pub sentinel_seen : Bool
  pub num_traces_written : ℕ

-- The place that `__list_create_entry` gives to a new entry.
unfoldable pub create_entry : ℕ → List CommitEntry → List CommitEntry
create_entry prev_index [] = record { trace = none; prev_index = prev_index } ∷ []
create_entry prev_index (e ∷ es) =
    if ltb prev_index e.prev_index
    then record { trace = none; prev_index = prev_index } ∷ e ∷ es
    else e ∷ create_entry prev_index es

-- The entries that the commit thread takes: up to the first that has no trace yet.
abbrev pub is_complete : CommitEntry → Bool
is_complete e = elim e.trace [ none ↦ e.prev_index == sentinel_index | some _ ↦ true ]

unfoldable pub cut : List CommitEntry → List CommitEntry × List CommitEntry
cut [] = ([], [])
cut (e ∷ es) = if is_complete e then (e ∷ (cut es).0, (cut es).1) else ([], e ∷ es)

-- At a sentinel, the number of traces is known.
unfoldable pub see_sentinel : CommitQueue → CommitQueue
see_sentinel q =
    let p = q.set.parsed in
    record q {
      sentinel_seen = true;
      sentinel = q.sentinel + 1;
      set = record q.set { parsed = record p { info = record p.info { num_traces = q.written } } };
    }

-- After the write of a trace.
abbrev pub after_commit : CommitQueue → Outcome (Trs × Status) → Outcome (CommitQueue × Status)
after_commit q (done (s, ok)) = done (record q { set = s; written = inc_size q.written }, ok)
after_commit q (done (s, err e)) = done (record q { set = s }, err e)
after_commit q blocked = blocked
after_commit q fault = fault

abbrev pub is_owner : Option ℕ → ℕ → Bool
is_owner none ts = false
is_owner (some o) ts = o == ts

unfoldable pub commit_trace :
    Floats → Bool → Option Trace → CommitQueue → Outcome (CommitQueue × Status)
commit_trace fl alloc none q = fault
commit_trace fl alloc (some t) q =
    if is_owner t.owner q.ts
    then after_commit q (backend_trs_write fl alloc (record t { index = q.written }) q.set)
    else done (q, err einval)

-- The rest of the batch, if the trace was written.
abbrev pub then_commit :
    Outcome (CommitQueue × Status)
    → (CommitQueue → Outcome (CommitQueue × Status))
    → Outcome (CommitQueue × Status)
then_commit (done (q, ok)) k = k q
then_commit (done (q, err e)) k = done (q, err e)
then_commit blocked k = blocked
then_commit fault k = fault

-- `__commit_traces`.
unfoldable pub commit_traces :
    Floats → Bool → List CommitEntry → CommitQueue → Outcome (CommitQueue × Status)
commit_traces fl alloc [] q = done (q, ok)
commit_traces fl alloc (e ∷ es) q =
    if e.prev_index == sentinel_index
    then commit_traces fl alloc es (see_sentinel q)
    else if q.sentinel_seen
    then done (q, err einval)
    else then_commit (commit_trace fl alloc e.trace q) (commit_traces fl alloc es)

-- The update of the counter after a batch of `count` entries.
abbrev pub count_batch : ℕ → Outcome (CommitQueue × Status) → Outcome (CommitQueue × Status)
count_batch count (done (q, ok)) =
    done (record q { num_traces_written = q.num_traces_written + count }, ok)
count_batch count (done (q, err e)) = done (q, err e)
count_batch count blocked = blocked
count_batch count fault = fault

-- One turn of `__commit_thread`.
unfoldable pub commit_turn : Floats → Bool → CommitQueue → Outcome (CommitQueue × Status)
commit_turn fl alloc q =
    let batch = cut q.entries in
    count_batch (length (batch.0))
      (commit_traces fl alloc (batch.0) (record q { entries = batch.1 }))
