-- ===== src/Render/Ends.antt =====
-- A call of `ts_render` ends, and what it has done then.
use mathlib.Core.Path.{subst}
use libtrs.Base.{
  times, ℕ, zero, suc, ◌+◌, ◌*◌, ◌<◌, ◌≤◌, ◌≡◌, ◌⊎◌, refl, ap, ◌∙◌, ltb, ◌==◌, Bool-cases, lt_cases,
  true, none, some, length, get_elem?, get_elem?-some, inl, inr, bit, total, lt-total,
  total-lt_length, Status, ok, done, arith,
}
use libtrs.Render.{
  kill, Worker, Effect, worker_part, change, Controller, dispatches, waits, kills, joins, ended,
  Render, search, dispatch, take_done, is_stopped, controller_part, new_workers, new_render,
  RenderStep, works, controls, Rendering, begin, later,
}
use libtrs.Render.Shapes.{tells_in, free_in, busy_moves, telling_moves, Doomed-next}
use libtrs.Render.Invariant.{Shape, Counts}
use libtrs.Render.Ending.{stage_self, Shapes, At, IsRender-At}
use libtrs.Render.Work.{work, worker_work, RenderStep-Advance}
use libtrs.Render.Reach.{Rendering-IsRender, Rendering-size}

-- However the controller of ts_render and any number of workers take turns, and however each
-- trace_get ends: if the controller ends with 0, then trace_get was called once for each index of
-- the set, and for no other.
pub ended_lem :
    (nthreads num_traces : ℕ) (y : Render)
    → Rendering nthreads num_traces y
    → y.controller ≡ ended ok
    → (i : ℕ) → times i y.got ≡ bit (ltb i num_traces)
ended_lem n m y r e i =
    let (c, l) = subst (λ d. Counts d y) e ((Rendering-IsRender n m y r).counts) in
    let (a, b) = l i in
    let x : times i y.got ≡ bit (ltb i y.curr_index) = omega (arith, a, b) in
    x ∙ ap (λ j. bit (ltb i j)) (c ∙ (Rendering-size n m y r).1)

-- The number of parts that the threads have made.
abbrev pub steps : {n m : ℕ} {y : Render} → Rendering n m y → ℕ
steps begin = 0
steps (later y z r s) = suc (steps r)

new_workers-work : (n : ℕ) → total worker_work (new_workers n) ≡ 0
new_workers-work zero = refl
new_workers-work (suc n) = omega (arith, new_workers-work n)

steps-work : (n m : ℕ) (y : Render) (r : Rendering n m y) → steps r + work y ≤ 4 * m + 6 * n + 6
steps-work n m _ begin =
    omega (arith, new_workers-work n, (Rendering-size n m (new_render n m) begin).0)
steps-work n m _ (later y z r s) =
    let a = RenderStep-Advance y z s (Rendering-IsRender n m y r) in
    omega (arith, a.less, steps-work n m y r)

==-zero : {a : ℕ} → (a == 0) ≡ true → a ≡ 0
==-zero h = ground (arith, h)

-- Some worker can make a part.
abbrev Moving : Render → Type 0
Moving y =
    (k : ℕ) × (w : Worker) × (v : Worker) × (e : Effect) × (get_elem? y.workers k ≡ some w)
    × (worker_part none w.phase w ≡ done (v, e))

Moving-step : (y : Render) → Moving y → (z : Render) × RenderStep y z
Moving-step y (k, w, v, e, at, q) = (_, works y k none w v e at q)

-- With the signal at 0 and a worker that is busy or still to release it, a worker can go on.
Live-Moving :
    (y : Render)
    → Shapes dispatches y.workers
    → (0 < total tells_in y.workers) ⊎ (total free_in y.workers < length y.workers)
    → Moving y
Live-Moving y h (inl p) =
    let (k, w, at, lt) = lt-total tells_in y.workers p in
    let (v, e, q) = telling_moves w (h k w at) lt in (k, w, v, e, at, q)
Live-Moving y h (inr p) =
    let (k, w, at, z) = total-lt_length free_in y.workers p in
    let (v, e, q) = busy_moves w (h k w at) z in (k, w, v, e, at, q)

can_go :
    (c : Controller) (y : Render)
    → At c y
    → 0 < length y.workers
    → ((st : Status) × (c ≡ ended st)) ⊎ ((z : Render) × (controller_part c y ≡ done z)) ⊎ Moving y
can_go dispatches y h pos = elim (Bool-cases (ltb y.curr_index y.num_traces)) [
  | inl q ↦ elim (Bool-cases (y.done_signal == 0)) [
    | inl z ↦ inr (
        inr (
          Live-Moving y h.shapes (elim (lt_cases 0 (total tells_in y.workers)) [
            | inl p ↦ inl p
            | inr p ↦ inr (omega (arith, p, pos, h.counts.0, ==-zero z))
          ])))
    | inr z ↦ inr (inl (dispatch (search y.workers) (take_done y), rw (q, z) refl))
  ]
  | inr q ↦ inr (inl (record y { controller = waits (length y.workers) }, rw q refl))
]
can_go (waits zero) y h pos = inr (inl (_, refl))
can_go (waits (suc n)) y h pos = elim (Bool-cases (y.done_signal == 0)) [
  | inl z ↦ inr (
      inr (
        Live-Moving y h.shapes (elim (lt_cases 0 (total tells_in y.workers)) [
          | inl p ↦ inl p
          | inr p ↦ inr (omega (arith, p, h.counts.0, ==-zero z))
        ])))
  | inr z ↦ inr (inl (record (take_done y) { controller = waits n }, rw z refl))
]
can_go (kills k st) y h pos = elim (Bool-cases (ltb k (length y.workers))) [
  | inl q ↦
      inr (inl (record y { workers = change k kill y.workers; controller = joins k st }, rw q refl))
  | inr q ↦ inr (inl (record y { controller = ended st }, rw q refl))
]
can_go (joins k st) y h pos =
    let (w, at) = get_elem?-some y.workers k h.joined in
    elim (Bool-cases (is_stopped w.phase)) [
      | inl q ↦ inr (inl (record y { controller = kills (suc k) st }, rw (at, q) refl))
      | inr q ↦
          let (v, e, p) =
            Doomed-next w.phase w refl (subst (λ s. Shape s w) (stage_self st k) (h.shapes k w at))
              q in
          inr (inr (k, w, v, e, at, p))
    ]
can_go (ended st) y h pos = inl (st, refl)

-- With at least one thread, and however the controller of ts_render and the workers take turns and
-- each trace_get ends: the parts that they have made are at most 4 for each trace, 6 for each
-- thread and 6 more, and unless the controller has ended, one of them can make a part. So every run
-- ends.
pub Rendering-ends :
    (nthreads num_traces : ℕ) (y : Render) (r : Rendering nthreads num_traces y)
    → 0 < nthreads
    → (steps r ≤ 4 * num_traces + 6 * nthreads + 6)
      × (((st : Status) × (y.controller ≡ ended st)) ⊎ ((z : Render) × RenderStep y z))
Rendering-ends n m y r pos =
    let at = IsRender-At y.controller y refl (Rendering-IsRender n m y r) in
    let some_worker : 0 < length y.workers = omega (arith, pos, (Rendering-size n m y r).0) in
    let bound : steps r ≤ 4 * m + 6 * n + 6 = omega (arith, steps-work n m y r) in
    (
      bound,
      elim (can_go y.controller y at some_worker) [
        | inl e ↦ inl e
        | inr (inl (z, q)) ↦ inr (z, controls y z q)
        | inr (inr v) ↦ inr (Moving-step y v)
      ],
    )
