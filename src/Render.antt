-- ===== src/Render.antt =====
-- lib/trace/frontend/render.c: a controller that hands the indices of a set to worker threads. Each
-- part between two operations on a semaphore is one operation here. The accumulator and the printing of
-- a worker are left out, and so is the setup of the controller, which has no thread yet.
pub mod Shapes
pub mod Invariant
pub mod Search
pub mod Ending
pub mod Control
pub mod Work
pub mod Reach
pub mod Ends
pub mod Turns
mod Tests
use libtrs.Base.{
  ℕ, zero, suc, ◌+◌, ◌-◌, ◌≡◌, ltb, ◌==◌, if◌then◌else◌, Bool, true, false, Option, none, some,
  List, [], ◌∷◌, ◌++◌, length, get_elem?, set, Errno, Status, ok, err, Outcome, done, blocked,
  fault,
}

-- The field `ret` of `struct __ts_render_arg`: 1, 0, or the error of a `trace_get`.
pub data Ret : Type 0 where
  idle busy : Ret
  failed : Errno → Ret

-- Where a worker is: before `sem_acquire(&arg->thread_signal)`, in `trace_get` of an index, between
-- writing `ret` and `sem_release(arg->done_signal)`, with whether it returns after that, or returned.
pub data Phase : Type 0 where
  asleep : Phase
  fetching : ℕ → Phase
  telling : Bool → Phase
  stopped : Phase

-- `struct __ts_render_arg` with its thread. `ts_null`: the controller has set `ts` to NULL.
pub record Worker : Type 0 where
  pub phase : Phase
  pub ret : Ret
  pub trace_index : ℕ
  pub thread_signal : ℕ
  pub ts_null : Bool

-- Where the controller is: in the loop over the indices, in the one that waits for so many workers,
-- before the end of a worker, in the join of one, or at its end.
pub data Controller : Type 0 where
  dispatches : Controller
  waits : ℕ → Controller
  kills joins : ℕ → Status → Controller
  ended : Status → Controller

-- The threads, with `done_signal`, the controller's `curr_index`, the number of traces of the set, and
-- the indices of which the workers have got or asked for the trace, the last call first.
pub record Render : Type 0 where
  pub controller : Controller
  pub curr_index : ℕ
  pub num_traces : ℕ
  pub done_signal : ℕ
  pub workers : List Worker
  pub got : List ℕ

-- What a part of a worker does besides: nothing, the call of `trace_get`, or `sem_release` of the signal
-- that it shares with the controller.
pub data Effect : Type 0 where
  nothing releases : Effect
  gets : ℕ → Effect

-- The error that `trace_get` returns, if it does.
abbrev pub after_get : Option Errno → Worker → Worker
after_get none w = record w { ret = idle; phase = telling false }
after_get (some e) w = record w { ret = failed e; phase = telling true }

-- The wake-up of `__ts_render_func`.
unfoldable pub wake : Worker → Outcome (Worker × Effect)
wake w =
    if w.thread_signal == 0
    then blocked
    else if w.ts_null
    then done
        (record w { thread_signal = w.thread_signal - 1; ret = busy; phase = stopped }, nothing)
    else done (
      record w { thread_signal = w.thread_signal - 1; phase = fetching w.trace_index },
      gets w.trace_index,
    )

abbrev pub after_tell : Bool → Phase
after_tell true = stopped
after_tell false = asleep

-- The next part of `__ts_render_func`.
abbrev pub worker_part : Option Errno → Phase → Worker → Outcome (Worker × Effect)
worker_part r asleep w = wake w
worker_part r (fetching i) w = done (after_get r w, nothing)
worker_part r (telling b) w = done (record w { phase = after_tell b }, releases)
worker_part r stopped w = blocked

-- The search for a worker to give an index to.
pub data Pick : Type 0 where
  free : ℕ → Pick
  error : Errno → Pick
  nobody : Pick

abbrev pub next_picked : Pick → Pick
next_picked (free k) = free (suc k)
next_picked (error e) = error e
next_picked nobody = nobody

abbrev pub picked : Ret → Pick → Pick
picked idle rest = free 0
picked busy rest = next_picked rest
picked (failed e) rest = error e

unfoldable pub search : List Worker → Pick
search [] = nobody
search (w ∷ ws) = picked w.ret (search ws)

-- What the controller does with a worker.
abbrev pub give : ℕ → Worker → Worker
give i w = record w { trace_index = i; ret = busy; thread_signal = w.thread_signal + 1 }

abbrev pub kill : Worker → Worker
kill w = record w { ts_null = true; thread_signal = w.thread_signal + 1 }

abbrev pub change : ℕ → (Worker → Worker) → List Worker → List Worker
change k f ws = elim (get_elem? ws k) [ none ↦ ws | some w ↦ set ws k (f w) ]

-- The body of the loop over the indices, after the wait for `done_signal`.
abbrev pub dispatch : Pick → Render → Render
dispatch (free k) y = record y {
  workers = change k (give y.curr_index) y.workers;
  curr_index = y.curr_index + 1;
}
dispatch (error e) y = record y { controller = kills 0 (err e) }
dispatch nobody y = y

abbrev pub take_done : Render → Render
take_done y = record y { done_signal = y.done_signal - 1 }

abbrev pub is_stopped : Phase → Bool
is_stopped asleep = false
is_stopped (fetching i) = false
is_stopped (telling b) = false
is_stopped stopped = true

-- `p_thread_join` of the worker `k`.
abbrev pub join : ℕ → Status → Option Worker → Render → Outcome Render
join k st none y = fault
join k st (some w) y =
    if is_stopped w.phase then done (record y { controller = kills (suc k) st }) else blocked

-- The next part of `__ts_render_controller`.
abbrev pub controller_part : Controller → Render → Outcome Render
controller_part dispatches y =
    if ltb y.curr_index y.num_traces
    then (if y.done_signal == 0 then blocked else done (dispatch (search y.workers) (take_done y)))
    else done (record y { controller = waits (length y.workers) })
controller_part (waits zero) y = done (record y { controller = kills 0 ok })
controller_part (waits (suc k)) y =
    if y.done_signal == 0 then blocked else done (record (take_done y) { controller = waits k })
controller_part (kills k st) y =
    if ltb k (length y.workers)
    then done (record y { workers = change k kill y.workers; controller = joins k st })
    else done (record y { controller = ended st })
controller_part (joins k st) y = join k st (get_elem? y.workers k) y
controller_part (ended st) y = blocked

abbrev pub new_worker : Worker
new_worker = record {
  phase = asleep;
  ret = idle;
  trace_index = 0;
  thread_signal = 0;
  ts_null = false;
}

abbrev pub new_workers : ℕ → List Worker
new_workers zero = []
new_workers (suc n) = new_worker ∷ new_workers n

-- The state before the loop over the indices.
abbrev pub new_render : ℕ → ℕ → Render
new_render nthreads num_traces = record {
  controller = dispatches;
  curr_index = 0;
  num_traces = num_traces;
  done_signal = nthreads;
  workers = new_workers nthreads;
  got = [];
}

-- The effect of a worker on what the threads share.
abbrev pub perform : Effect → Render → Render
perform nothing y = y
perform releases y = record y { done_signal = y.done_signal + 1 }
perform (gets i) y = record y { got = i ∷ y.got }

-- One thread makes one part; a `trace_get` ends in any way.
pub data RenderStep : Render → Render → Type 0 where
  works :
      (y : Render) (k : ℕ) (r : Option Errno) (w w' : Worker) (e : Effect)
      → get_elem? y.workers k ≡ some w
      → worker_part r w.phase w ≡ done (w', e)
      → RenderStep y (perform e (record y { workers = set y.workers k w' }))
  controls : (y z : Render) → controller_part y.controller y ≡ done z → RenderStep y z

-- The states that a call with so many threads and traces can reach.
pub data Rendering (nthreads num_traces : ℕ) : Render → Type 0 where
  begin : Rendering nthreads num_traces (new_render nthreads num_traces)
  later :
      (y z : Render)
      → Rendering nthreads num_traces y
      → RenderStep y z
      → Rendering nthreads num_traces z
