-- ===== src/Sync/Threads.antt =====
-- Threads that call __tfm_synchronize_get of one transformation, in any order and number.
use libtrs.Base.{
  ℕ, ◌≡◌, if◌then◌else◌, Bool, List, [], ◌∷◌, some, get_elem?, set, Status, Outcome, done, blocked,
  fault,
}
use libtrs.Sync.{
  Sync, Progress, stalls, enters, returns, synchronize, acquire_signal, resume, sync_finalize,
  new_sync,
}

-- Where a thread is in `__tfm_synchronize_get`, with its index. `left`: its passthrough has failed, and
-- the call has returned without `__sync_finalize`.
pub data Thread : Type 0 where
  ready stalled woken inside left : ℕ → Thread
  ended : Status → Thread

-- What the system gives to a thread: memory, semaphores, and a trace from the set before.
pub record Luck : Type 0 where
  pub alloc : Bool
  pub sem : Bool
  pub passes : Bool

abbrev pub goes : ℕ → Progress → Thread
goes i stalls = stalled i
goes i enters = inside i
goes i (returns st) = ended st

abbrev pub moves : ℕ → Outcome (Sync × Progress) → Outcome (Sync × Thread)
moves i (done (s, p)) = done (s, goes i p)
moves i blocked = blocked
moves i fault = fault

abbrev pub wakes : ℕ → Outcome Sync → Outcome (Sync × Thread)
wakes i (done s) = done (s, woken i)
wakes i blocked = blocked
wakes i fault = fault

-- The next part of `__tfm_synchronize_get`.
unfoldable pub advance : Luck → Thread → Sync → Outcome (Sync × Thread)
advance l (ready i) s = moves i (synchronize l.alloc l.sem i s)
advance l (stalled i) s = wakes i (acquire_signal i s)
advance l (woken i) s = moves i (resume l.alloc i s)
advance l (inside i) s = if l.passes then moves i (sync_finalize i s) else done (s, left i)
advance l (left i) s = blocked
advance l (ended st) s = blocked

pub record System : Type 0 where
  pub sync : Sync
  pub threads : List Thread

-- One thread makes one part of its call.
pub data Step : System → System → Type 0 where
  runs :
      (y : System) (k : ℕ) (l : Luck) (t t' : Thread) (s : Sync)
      → get_elem? y.threads k ≡ some t
      → advance l t y.sync ≡ done (s, t')
      → Step y (record { sync = s; threads = set y.threads k t' })

-- The states that threads with these indices can reach.
abbrev pub all_ready : List ℕ → List Thread
all_ready [] = []
all_ready (i ∷ is) = ready i ∷ all_ready is

pub data Reaches (max_distance : ℕ) (is : List ℕ) : System → Type 0 where
  start : Reaches max_distance is (record { sync = new_sync max_distance; threads = all_ready is })
  then_step : (y z : System) → Reaches max_distance is y → Step y z → Reaches max_distance is z
