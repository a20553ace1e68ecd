-- ===== src/Sync.antt =====
-- transform/system/tfm_synchronize.c: threads that ask for a trace too far ahead of the requests that
-- are being served wait until one of those ends.
-- The source's threads hold `list_lock` from each `sem_acquire` to the next `sem_release` or return, so
-- that each such part is one operation here; a part that returns without releasing the lock leaves it
-- taken. `alloc` and `sem` say whether a `calloc` and the creation of a semaphore succeed.
pub mod Entries
pub mod Threads
pub mod Counts
pub mod Waiting
pub mod Invariant
pub mod Safety
pub mod Stuck
mod Tests
use libtrs.Base.{
  ℕ, zero, suc, ◌+◌, ◌-◌, ◌%◌, ◌^◌, ltb, leb, ◌==◌, if◌then◌else◌, Bool, true, false, ◌&&◌, ◌||◌,
  not, Option, none, some, List, [], ◌∷◌, map, Errno, einval, enomem, other, Status, ok, err,
  Outcome, done, blocked, fault,
}

-- `struct __tfm_synchronize_entry`.
pub record Entry : Type 0 where
  pub index : ℕ
  pub count : ℕ
  pub signalled : Bool
  pub signal : ℕ

-- `struct tfm_synchronize`. The distance is an `int`, converted to a `size_t` where it is used.
pub record Sync : Type 0 where
  pub list_lock : ℕ
  pub max_distance : ℕ
  pub requests : List Entry
  pub waiting : List Entry

-- What a part of a call leads to: to wait for the signal, to go on with the trace, or to return.
pub data Progress : Type 0 where
  stalls enters : Progress
  returns : Status → Progress

abbrev pub new_entry : ℕ → Entry
new_entry index = record { index = index; count = 1; signalled = false; signal = 0 }

-- The entry of an index that a list has; the lists are only searched for one that stands in them.
unfoldable pub find_entry : ℕ → List Entry → Option Entry
find_entry index [] = none
find_entry index (e ∷ es) = if e.index == index then some e else find_entry index es

-- The search for an entry or for the place of a new one, the new one, and `curr->count++`.
unfoldable pub add_entry : ℕ → List Entry → List Entry
add_entry index [] = new_entry index ∷ []
add_entry index (e ∷ es) =
    if ltb e.index index
    then e ∷ add_entry index es
    else if e.index == index
    then record e { count = e.count + 1 } ∷ es
    else new_entry index ∷ e ∷ es

-- Whether that search finds an entry.
unfoldable pub has_entry : ℕ → List Entry → Bool
has_entry index [] = false
has_entry index (e ∷ es) = if ltb e.index index then has_entry index es else e.index == index

-- The entry of an index changed, or taken out.
unfoldable pub update : ℕ → (Entry → Option Entry) → List Entry → List Entry
update index f [] = []
update index f (e ∷ es) =
    if e.index == index then elim (f e) [ none ↦ es | some e' ↦ e' ∷ es ] else e ∷ update index f es

-- `curr->count--`, and `list_del` at 0.
unfoldable pub release_entry : Entry → Option Entry
release_entry e = if e.count - 1 == 0 then none else some (record e { count = e.count - 1 })

-- The test for a request that is too far behind.
unfoldable pub too_far : ℕ → ℕ → List Entry → Bool
too_far max_distance index [] = false
too_far max_distance index (e ∷ es) =
    ltb ((e.index + max_distance) % 2 ^ 64) index || too_far max_distance index es

-- The second half of `__synchronize`: the entry among the requests.
unfoldable pub request : Bool → ℕ → Sync → Sync × Progress
request alloc index s =
    if not (has_entry index s.requests) && not alloc
    then (s, returns (err enomem))
    else (record s { list_lock = s.list_lock + 1; requests = add_entry index s.requests }, enters)

-- `__stall` up to the release of the lock. `__synchronize` returns the negated `errno` when it fails.
unfoldable pub stall : Bool → Bool → ℕ → Sync → Sync × Progress
stall alloc sem index s =
    if not (has_entry index s.waiting) && not (alloc && sem)
    then (s, returns (err (if alloc then other else enomem)))
    else (record s { list_lock = s.list_lock + 1; waiting = add_entry index s.waiting }, stalls)

abbrev pub take_lock : Sync → Sync
take_lock s = record s { list_lock = s.list_lock - 1 }

-- `__synchronize`, up to the wait for the signal if it stalls.
unfoldable pub synchronize : Bool → Bool → ℕ → Sync → Outcome (Sync × Progress)
synchronize alloc sem index s =
    if s.list_lock == 0
    then blocked
    else if too_far s.max_distance index s.requests
    then done (stall alloc sem index (take_lock s))
    else done (request alloc index (take_lock s))

abbrev pub take_signal : Entry → Option Entry
take_signal e = some (record e { signal = e.signal - 1 })

-- `sem_acquire(&curr->signal)`.
unfoldable pub acquire_signal : ℕ → Sync → Outcome Sync
acquire_signal index s = elim (find_entry index s.waiting) [
  | none ↦ fault
  | some e ↦
      if e.signal == 0
      then blocked
      else done (record s { waiting = update index take_signal s.waiting })
]

-- The entry after a thread that waited has woken up with the flag set.
unfoldable pub unsignal : Entry → Option Entry
unsignal e = release_entry (record e { signalled = false })

-- The rest of `__stall` and of `__synchronize`, after the signal. The test for requests that are too
-- far behind is not made again.
unfoldable pub resume : Bool → ℕ → Sync → Outcome (Sync × Progress)
resume alloc index s = if s.list_lock == 0 then blocked else elim (find_entry index s.waiting) [
  | none ↦ fault
  | some e ↦
      if e.signalled
      then done
          (request alloc index (record (take_lock s) { waiting = update index unsignal s.waiting }))
      else done (
        record (take_lock s) {
          waiting = update index (λ e. some (record e { count = e.count - 1 })) s.waiting;
        },
        returns (err other),
      )
]

-- The signal to one entry that waits, when request `index` ends.
unfoldable pub notify : ℕ → ℕ → Entry → Entry
notify max_distance index e =
    if leb e.index ((index + max_distance) % 2 ^ 64) && not e.signalled
    then record e { signalled = true; signal = e.signal + 1 }
    else e

-- `__sync_finalize`.
unfoldable pub sync_finalize : ℕ → Sync → Outcome (Sync × Progress)
sync_finalize index s =
    if s.list_lock == 0
    then blocked
    else (let waiting = map (notify s.max_distance index) s.waiting in
        elim (find_entry index s.requests) [
          | none ↦ done (record (take_lock s) { waiting = waiting }, returns (err einval))
          | some _ ↦ done (
            record s { waiting = waiting; requests = update index release_entry s.requests },
            returns ok,
          )
        ])

-- `tfm_synchronize`.
abbrev pub new_sync : ℕ → Sync
new_sync max_distance = record {
  list_lock = 1;
  max_distance = max_distance;
  requests = [];
  waiting = [];
}
