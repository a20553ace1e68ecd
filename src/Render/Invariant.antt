-- ===== src/Render/Invariant.antt =====
-- What holds in every state that the controller and the workers can reach.
use mathlib.Core.Path.{subst}
use libtrs.Base.{
  times, ℕ, ◌+◌, ◌<◌, ◌≤◌, ◌≡◌, refl, sym, ap, ◌∙◌, ltb, ◌==◌, if◌then◌else◌, Option, some, length,
  length-set, get_elem?, set, bit, total, total-set, get_elem?-set_all, Errno, ok, err, Outcome,
  done, blocked, fault, arith,
}
use libtrs.Render.{
  stopped, Worker, Effect, nothing, releases, gets, worker_part, Controller, dispatches, waits,
  kills, joins, ended, Render, perform,
}
use libtrs.Render.Shapes.{
  Live, Doomed, tells_in, free_in, calls_in, released, got_at, Moves, LiveMove, Live-moves,
  DoomedMove, Doomed-moves,
}

-- How far the controller has come with a worker.
pub data Stage : Type 0 where
  in_use to_end over : Stage

abbrev pub stage : Controller → ℕ → Stage
stage dispatches k = in_use
stage (waits n) k = in_use
stage (kills j st) k = if ltb k j then over else in_use
stage (joins j st) k = if ltb k j then over else if k == j then to_end else in_use
stage (ended st) k = over

abbrev pub Shape : Stage → Worker → Type 0
Shape in_use w = Live w
Shape to_end w = Doomed w
Shape over w = w.phase ≡ stopped

-- Each index below `curr_index` was given to one worker: it was got, or is still to be got.
abbrev pub Logged : Render → ℕ → Type 0
Logged y i = times i y.got + total (calls_in i) y.workers ≡ bit (ltb i y.curr_index)

-- The counts while the controller is at some place.
abbrev pub Counts : Controller → Render → Type 0
Counts dispatches y =
    (y.done_signal + total tells_in y.workers ≡ total free_in y.workers)
    × (y.curr_index ≤ y.num_traces)
    × ((i : ℕ) → Logged y i)
Counts (waits n) y =
    (y.done_signal + total tells_in y.workers + length y.workers ≡ total free_in y.workers + n)
    × (y.curr_index ≡ y.num_traces)
    × ((i : ℕ) → Logged y i)
Counts (kills j ok) y =
    (y.curr_index ≡ y.num_traces) × ((i : ℕ) → Logged y i × (total (calls_in i) y.workers ≡ 0))
Counts (joins j ok) y =
    (y.curr_index ≡ y.num_traces) × ((i : ℕ) → Logged y i × (total (calls_in i) y.workers ≡ 0))
Counts (ended ok) y =
    (y.curr_index ≡ y.num_traces) × ((i : ℕ) → Logged y i × (total (calls_in i) y.workers ≡ 0))
Counts (kills j (err e)) y = Unit {0}
Counts (joins j (err e)) y = Unit {0}
Counts (ended (err e)) y = Unit {0}

-- The worker that the controller joins is one of the workers.
abbrev pub Joined : Controller → ℕ → Type 0
Joined dispatches n = Unit {0}
Joined (waits k) n = Unit {0}
Joined (kills k st) n = Unit {0}
Joined (joins k st) n = k < n
Joined (ended st) n = Unit {0}

pub record IsRender (y : Render) : Type 0 where
  pub shapes :
      (k : ℕ) (w : Worker) → get_elem? y.workers k ≡ some w → Shape (stage y.controller k) w
  pub counts : Counts y.controller y
  pub joined : Joined y.controller (length y.workers)

abbrev Tokens : Stage → Worker → Worker → Effect → Type 0
Tokens in_use w w' e = released e + tells_in w' + free_in w ≡ tells_in w + free_in w'
Tokens to_end w w' e = Unit {0}
Tokens over w w' e = Unit {0}

abbrev WorkerKept : Stage → Worker → Worker → Effect → Type 0
WorkerKept s w w' e =
    Shape s w' × Tokens s w w' e × ((i : ℕ) → got_at i e + calls_in i w' ≡ calls_in i w)

Moves-imp :
    (P Q : Worker → Effect → Type 0) (m : Outcome (Worker × Effect))
    → ((w : Worker) (e : Effect) → P w e → Q w e)
    → Moves m P
    → Moves m Q
Moves-imp P Q (done (w, e)) k h = k w e h
Moves-imp P Q blocked k h = tt
Moves-imp P Q fault k h = h

worker_kept :
    (s : Stage) (r : Option Errno) (w : Worker)
    → Shape s w
    → Moves (worker_part r w.phase w) (WorkerKept s w)
worker_kept in_use r w h =
    Moves-imp (LiveMove w) (WorkerKept in_use w) (worker_part r w.phase w)
      (λ w' e m. (m.live, m.tokens, m.log)) (Live-moves r w h)
worker_kept to_end r w h =
    Moves-imp (DoomedMove w) (WorkerKept to_end w) (worker_part r w.phase w)
      (λ w' e m. (m.doomed, tt, λ i. omega (arith, (m.log i).0, (m.log i).1))) (Doomed-moves r w h)
worker_kept over r w h = rw h tt

pub from_Moves :
    (P : Worker → Effect → Type 0) (m : Outcome (Worker × Effect)) (w : Worker) (e : Effect)
    → Moves m P
    → m ≡ done (w, e)
    → P w e
from_Moves P m w e h q = subst (λ o. Moves o P) q h

-- What a step changes, as far as the counts read it.
record Change (y z : Render) : Type 0 where
  curr : z.curr_index ≡ y.curr_index
  num : z.num_traces ≡ y.num_traces
  size : length z.workers ≡ length y.workers
  log :
      (i : ℕ)
      → times i z.got + total (calls_in i) z.workers ≡ times i y.got + total (calls_in i) y.workers
  calls : (i : ℕ) → total (calls_in i) z.workers ≤ total (calls_in i) y.workers

Logged-kept : (y z : Render) → Change y z → (i : ℕ) → Logged y i → Logged z i
Logged-kept y z h i l = h.log i ∙ l ∙ ap (λ c. bit (ltb i c)) (sym h.curr)

done_kept :
    (y z : Render)
    → Change y z
    → (y.curr_index ≡ y.num_traces) × ((i : ℕ) → Logged y i × (total (calls_in i) y.workers ≡ 0))
    → (z.curr_index ≡ z.num_traces) × ((i : ℕ) → Logged z i × (total (calls_in i) z.workers ≡ 0))
done_kept y z h (e, l) = (
  h.curr ∙ e ∙ sym h.num,
  λ i. (Logged-kept y z h i ((l i).0), omega (arith, h.calls i, (l i).1)),
)

Counts-kept :
    (c : Controller) (k : ℕ) (y z : Render) (w w' : Worker) (e : Effect)
    → Change y z
    → Tokens (stage c k) w w' e
    → z.done_signal ≡ y.done_signal + released e
    → total tells_in z.workers + tells_in w ≡ total tells_in y.workers + tells_in w'
    → total free_in z.workers + free_in w ≡ total free_in y.workers + free_in w'
    → Counts c y
    → Counts c z
Counts-kept dispatches k y z w w' e h t d a b (p, q, l) =
    (omega (arith, t, d, a, b, p), omega (arith, h.curr, h.num, q), λ i. Logged-kept y z h i (l i))
Counts-kept (waits n) k y z w w' e h t d a b (p, q, l) =
    (omega (arith, t, d, a, b, p, h.size), h.curr ∙ q ∙ sym h.num, λ i. Logged-kept y z h i (l i))
Counts-kept (kills j ok) k y z w w' e h t d a b c = done_kept y z h c
Counts-kept (joins j ok) k y z w w' e h t d a b c = done_kept y z h c
Counts-kept (ended ok) k y z w w' e h t d a b c = done_kept y z h c
Counts-kept (kills j (err x)) k y z w w' e h t d a b c = tt
Counts-kept (joins j (err x)) k y z w w' e h t d a b c = tt
Counts-kept (ended (err x)) k y z w w' e h t d a b c = tt

-- The fields after the effect of a worker.
pub record Performed (e : Effect) (y z : Render) : Type 0 where
  pub controller : z.controller ≡ y.controller
  pub workers : z.workers ≡ y.workers
  pub curr : z.curr_index ≡ y.curr_index
  pub num : z.num_traces ≡ y.num_traces
  pub signal : z.done_signal ≡ y.done_signal + released e
  pub got : (i : ℕ) → times i z.got ≡ got_at i e + times i y.got

pub perform-Performed : (e : Effect) (y : Render) → Performed e y (perform e y)
perform-Performed nothing y = record {
  controller = refl;
  workers = refl;
  curr = refl;
  num = refl;
  signal = omega arith;
  got = λ i. omega arith;
}
perform-Performed releases y = record {
  controller = refl;
  workers = refl;
  curr = refl;
  num = refl;
  signal = refl;
  got = λ i. omega arith;
}
perform-Performed (gets j) y = record {
  controller = refl;
  workers = refl;
  curr = refl;
  num = refl;
  signal = omega arith;
  got = λ i. refl;
}

works_kept :
    (y : Render) (k : ℕ) (w w' : Worker) (e : Effect)
    → IsRender y
    → get_elem? y.workers k ≡ some w
    → WorkerKept (stage y.controller k) w w' e
    → IsRender (perform e (record y { workers = set y.workers k w' }))
works_kept y k w w' e h at (s, t, l) =
    let z = record y { workers = set y.workers k w' } in
    let p = perform-Performed e z in
    let x = perform e z in
    let tot : (f : Worker → ℕ) → total f x.workers + f w ≡ total f y.workers + f w' =
      λ f. ap (λ ws. total f ws + f w) p.workers ∙ total-set f y.workers k w w' at in
    let shapes =
      get_elem?-set_all (λ j v. Shape (stage y.controller j) v) y.workers k w' s
        (λ j u _ q. h.shapes j u q) in
    let ch : Change y x = record {
      curr = p.curr;
      num = p.num;
      size = ap length p.workers ∙ length-set y.workers k w';
      log = λ i. omega (arith, p.got i, tot (calls_in i), l i);
      calls = λ i. omega (arith, tot (calls_in i), l i);
    } in
    record {
      shapes = λ j u q.
          subst (λ c. Shape (stage c j) u) (sym p.controller)
            (shapes j u (ap (λ ws. get_elem? ws j) (sym p.workers) ∙ q));
      counts =
          subst (λ c. Counts c x) (sym p.controller)
            (Counts-kept y.controller k y x w w' e ch t p.signal (tot tells_in) (tot free_in)
              h.counts);
      joined =
          subst (λ c. Joined c (length x.workers)) (sym p.controller)
            (subst (Joined y.controller) (sym ch.size) h.joined);
    }

-- The parts of the workers keep what holds.
pub step_kept :
    (y : Render) (k : ℕ) (r : Option Errno) (w w' : Worker) (e : Effect)
    → IsRender y
    → get_elem? y.workers k ≡ some w
    → worker_part r w.phase w ≡ done (w', e)
    → IsRender (perform e (record y { workers = set y.workers k w' }))
step_kept y k r w w' e h at q =
    let s = stage y.controller k in
    works_kept y k w w' e h at (
      from_Moves (WorkerKept s w) (worker_part r w.phase w) w' e
        (worker_kept s r w (h.shapes k w at)) q)
