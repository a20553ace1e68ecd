-- ===== src/Render/Work.antt =====
-- How much work is left to the threads: each part of one of them makes it less.
use mathlib.Core.Path.{subst}
use libtrs.Base.{
  ℕ, zero, suc, ◌+◌, ◌-◌, ◌*◌, ◌<◌, ◌≡◌, refl, ap, ◌∙◌, ltb, ◌==◌, Bool-cases, true, false, Option,
  none, some, List, length, length-set, get_elem?, get_elem?-some, set, inl, inr, total, total-set,
  Errno, Status, Outcome, done, blocked, fault, arith,
}
use libtrs.Render.{
  idle, failed, Worker, Phase, asleep, fetching, telling, stopped, Effect, wake, worker_part, give,
  kill, change, Controller, dispatches, waits, kills, joins, ended, Render, Pick, free, error,
  nobody, search, dispatch, take_done, is_stopped, join, controller_part, perform, RenderStep,
  works, controls,
}
use libtrs.Render.Shapes.{Moves}
use libtrs.Render.Invariant.{Counts, Joined, IsRender, from_Moves, perform-Performed}
use libtrs.Render.Search.{Sought, search-Sought, change_lem}

abbrev phase_work : Phase → ℕ
phase_work asleep = 0
phase_work (fetching i) = 2
phase_work (telling b) = 1
phase_work stopped = 0

-- The parts that a worker can still make for the signals that were posted.
abbrev pub worker_work : Worker → ℕ
worker_work w = 3 * w.thread_signal + phase_work w.phase

-- The parts of the controller to come, and those of the workers for the signals that it will post.
abbrev pub controller_work : Controller → Render → ℕ
controller_work dispatches y = 4 * (y.num_traces - y.curr_index) + 6 * length y.workers + 6
controller_work (waits n) y = n + 5 * length y.workers + 3
controller_work (kills k st) y = 5 * (length y.workers - k) + 1
controller_work (joins k st) y = 5 * (length y.workers - suc k) + 2
controller_work (ended st) y = 0

abbrev pub work : Render → ℕ
work y = controller_work y.controller y + total worker_work y.workers

pub record Advance (y z : Render) : Type 0 where
  pub size : length z.workers ≡ length y.workers
  pub num : z.num_traces ≡ y.num_traces
  pub less : work z < work y

abbrev Advances : Render → Outcome Render → Type 0
Advances y (done z) = Advance y z
Advances y blocked = Unit {0}
Advances y fault = Unit {0}

controller_work-size :
    (c : Controller) (y z : Render)
    → length z.workers ≡ length y.workers
    → z.num_traces ≡ y.num_traces
    → z.curr_index ≡ y.curr_index
    → controller_work c z ≡ controller_work c y
controller_work-size dispatches y z e f g = omega (arith, e, f, g)
controller_work-size (waits n) y z e f g = omega (arith, e)
controller_work-size (kills k st) y z e f g = omega (arith, e)
controller_work-size (joins k st) y z e f g = omega (arith, e)
controller_work-size (ended st) y z e f g = refl

wake_less : (w : Worker) → w.phase ≡ asleep → Moves (wake w) (λ v e. worker_work v < worker_work w)
unfolding wake
wake_less w h = elim (Bool-cases (w.thread_signal == 0)) [
  | inl z ↦ rw z tt
  | inr z ↦
      let pos : 0 < w.thread_signal = ground (arith, z) in
      elim (Bool-cases w.ts_null) [
        | inl n ↦ rw (z, n) (omega (arith, pos, ap phase_work h))
        | inr n ↦ rw (z, n) (omega (arith, pos, ap phase_work h))
      ]
]

worker_less :
    (r : Option Errno) (p : Phase) (w v : Worker) (e : Effect)
    → w.phase ≡ p
    → worker_part r p w ≡ done (v, e)
    → worker_work v < worker_work w
worker_less r asleep w v e h q =
    from_Moves (λ u _. worker_work u < worker_work w) (wake w) v e (wake_less w h) q
worker_less none (fetching i) w v e h q =
    let x : record w { ret = idle; phase = telling false } ≡ v = cc in
    omega (arith, ap worker_work x, ap phase_work h)
worker_less (some y) (fetching i) w v e h q =
    let x : record w { ret = failed y; phase = telling true } ≡ v = cc in
    omega (arith, ap worker_work x, ap phase_work h)
worker_less r (telling true) w v e h q =
    let x : record w { phase = stopped } ≡ v = cc in
    omega (arith, ap worker_work x, ap phase_work h)
worker_less r (telling false) w v e h q =
    let x : record w { phase = asleep } ≡ v = cc in omega (arith, ap worker_work x, ap phase_work h)
worker_less r stopped w v e h q = absurd cc

change_work :
    (k a : ℕ) (f : Worker → Worker) (ws : List Worker) (w : Worker)
    → get_elem? ws k ≡ some w
    → worker_work (f w) ≡ worker_work w + a
    → (total worker_work (change k f ws) ≡ total worker_work ws + a)
      × (length (change k f ws) ≡ length ws)
change_work k a f ws w at e =
    let q = change_lem k f ws w at in
    (
      omega (arith, ap (total worker_work) q, total-set worker_work ws k w (f w) at, e),
      ap length q ∙ length-set ws k (f w),
    )

from_place :
    (c : Controller) (y : Render)
    → y.controller ≡ c
    → work y ≡ controller_work c y + total worker_work y.workers
from_place c y e = ap (λ d. controller_work d y + total worker_work y.workers) e

dispatch-Advance :
    (f : Pick) (y : Render)
    → y.controller ≡ dispatches
    → Counts dispatches y
    → y.curr_index < y.num_traces
    → 0 < y.done_signal
    → Sought y.workers f
    → Advance y (dispatch f (take_done y))
dispatch-Advance (free k) y e c lt pos (w, at, i) =
    let (q, size) = change_work k 3 (give y.curr_index) y.workers w at (omega arith) in
    let z = dispatch (free k) (take_done y) in
    record {
      size = size;
      num = refl;
      less = omega (arith, from_place dispatches y e, from_place dispatches z e, q, size, lt);
    }
dispatch-Advance (error x) y e c lt pos s = record {
  size = refl;
  num = refl;
  less = omega (arith, from_place dispatches y e);
}
dispatch-Advance nobody y e c lt pos s = absurd (omega (arith, pos, s, c.0))

dispatches-Advance :
    (y : Render)
    → y.controller ≡ dispatches
    → Counts dispatches y
    → Advances y (controller_part dispatches y)
dispatches-Advance y e c = elim (Bool-cases (ltb y.curr_index y.num_traces)) [
  | inl q ↦ elim (Bool-cases (y.done_signal == 0)) [
    | inl z ↦ rw (q, z) tt
    | inr z ↦
        rw (q, z)
          (dispatch-Advance (search y.workers) y e c (ground (arith, q)) (ground (arith, z))
            (search-Sought y.workers))
  ]
  | inr q ↦
      rw q (record { size = refl; num = refl; less = omega (arith, from_place dispatches y e) })
]

join-Advance :
    (y : Render) (k : ℕ) (st : Status) (o : Option Worker)
    → y.controller ≡ joins k st
    → k < length y.workers
    → Advances y (join k st o y)
join-Advance y k st none e lt = tt
join-Advance y k st (some w) e lt = elim (Bool-cases (is_stopped w.phase)) [
  | inl q ↦
      rw q
        (record { size = refl; num = refl; less = omega (arith, from_place (joins k st) y e, lt) })
  | inr q ↦ rw q tt
]

part-Advance :
    (c : Controller) (y : Render)
    → y.controller ≡ c
    → Counts c y
    → Joined c (length y.workers)
    → Advances y (controller_part c y)
part-Advance dispatches y e c j = dispatches-Advance y e c
part-Advance (waits zero) y e c j = record {
  size = refl;
  num = refl;
  less = omega (arith, from_place (waits zero) y e);
}
part-Advance (waits (suc n)) y e c j = elim (Bool-cases (y.done_signal == 0)) [
  | inl z ↦ rw z tt
  | inr z ↦
      rw z
        (record { size = refl; num = refl; less = omega (arith, from_place (waits (suc n)) y e) })
]
part-Advance (kills k st) y e c j = elim (Bool-cases (ltb k (length y.workers))) [
  | inl q ↦
      let lt : k < length y.workers = ground (arith, q) in
      let (w, at) = get_elem?-some y.workers k lt in
      let (t, size) = change_work k 3 kill y.workers w at (omega arith) in
      rw q (record {
        size = size;
        num = refl;
        less = omega (arith, from_place (kills k st) y e, t, size, lt);
      })
  | inr q ↦
      rw q (record { size = refl; num = refl; less = omega (arith, from_place (kills k st) y e) })
]
part-Advance (joins k st) y e c j = join-Advance y k st (get_elem? y.workers k) e j
part-Advance (ended st) y e c j = tt

works-Advance :
    (y : Render) (k : ℕ) (w w' : Worker) (e : Effect)
    → get_elem? y.workers k ≡ some w
    → worker_work w' < worker_work w
    → Advance y (perform e (record y { workers = set y.workers k w' }))
works-Advance y k w w' e at lt =
    let x = record y { workers = set y.workers k w' } in
    let z = perform e x in
    let p = perform-Performed e x in
    let size : length z.workers ≡ length y.workers =
      ap length p.workers ∙ length-set y.workers k w' in
    let c : controller_work z.controller z ≡ controller_work y.controller y =
      ap (λ d. controller_work d z) p.controller
      ∙ controller_work-size y.controller y z size p.num p.curr in
    let t : total worker_work z.workers + worker_work w
        ≡ total worker_work y.workers + worker_work w' =
      ap (λ ws. total worker_work ws + worker_work w) p.workers
      ∙ total-set worker_work y.workers k w w' at in
    record { size = size; num = p.num; less = omega (arith, c, t, lt) }

pub RenderStep-Advance : (y z : Render) → RenderStep y z → IsRender y → Advance y z
RenderStep-Advance y _ (works _ k r w w' e at q) h =
    works-Advance y k w w' e at (worker_less r w.phase w w' e refl q)
RenderStep-Advance y z (controls _ _ q) h =
    subst (Advances y) q (part-Advance y.controller y refl h.counts h.joined)
