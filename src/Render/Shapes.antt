-- ===== src/Render/Shapes.antt =====
-- The shapes that a worker can have, and what its next part does to the counts.
use libtrs.Base.{
  ℕ, zero, suc, ◌+◌, ◌-◌, ◌<◌, ◌≤◌, ◌≡◌, ◌⊎◌, refl, sym, ap, ◌∙◌, ◌==◌, Bool, Bool-cases, true,
  false, Option, none, some, inl, inr, bit, Errno, Outcome, done, blocked, fault, arith,
}
use libtrs.Render.{
  Ret, idle, busy, failed, Phase, asleep, fetching, telling, stopped, Worker, Effect, nothing,
  releases, gets, wake, worker_part, give, kill, is_stopped,
}

-- A worker that is not yet to end: its signal is posted exactly when it has an index and has not woken
-- up for it.
pub data Live : Worker → Type 0 where
  rests :
      (i : ℕ)
      → Live (record {
        phase = asleep;
        ret = idle;
        trace_index = i;
        thread_signal = 0;
        ts_null = false;
      })
  called :
      (i : ℕ)
      → Live (record {
        phase = asleep;
        ret = busy;
        trace_index = i;
        thread_signal = 1;
        ts_null = false;
      })
  fetches :
      (i : ℕ)
      → Live (record {
        phase = fetching i;
        ret = busy;
        trace_index = i;
        thread_signal = 0;
        ts_null = false;
      })
  tells :
      (i : ℕ)
      → Live (record {
        phase = telling false;
        ret = idle;
        trace_index = i;
        thread_signal = 0;
        ts_null = false;
      })
  called_early :
      (i : ℕ)
      → Live (record {
        phase = telling false;
        ret = busy;
        trace_index = i;
        thread_signal = 1;
        ts_null = false;
      })
  gives_up :
      (i : ℕ) (e : Errno)
      → Live (record {
        phase = telling true;
        ret = failed e;
        trace_index = i;
        thread_signal = 0;
        ts_null = false;
      })
  gone :
      (i : ℕ) (e : Errno)
      → Live (record {
        phase = stopped;
        ret = failed e;
        trace_index = i;
        thread_signal = 0;
        ts_null = false;
      })

-- A worker that is to end: it has returned, or its signal is posted.
pub record Doomed (w : Worker) : Type 0 where
  pub null : w.ts_null ≡ true
  pub ends : (w.phase ≡ stopped) ⊎ (0 < w.thread_signal)

abbrev pub tells_at : Phase → ℕ
tells_at asleep = 0
tells_at (fetching i) = 0
tells_at (telling b) = 1
tells_at stopped = 0

abbrev pub free_at : Ret → ℕ
free_at idle = 1
free_at busy = 0
free_at (failed e) = 1

abbrev pub calls_at : ℕ → Bool → ℕ → ℕ → ℕ
calls_at i true s j = 0
calls_at i false zero j = 0
calls_at i false (suc s) j = bit (j == i)

-- Whether a worker has written `ret` and not released the signal; is not busy; has an index to get.
abbrev pub tells_in : Worker → ℕ
tells_in w = tells_at w.phase

abbrev pub free_in : Worker → ℕ
free_in w = free_at w.ret

abbrev pub calls_in : ℕ → Worker → ℕ
calls_in i w = calls_at i w.ts_null w.thread_signal w.trace_index

abbrev pub released : Effect → ℕ
released nothing = 0
released releases = 1
released (gets i) = 0

abbrev pub got_at : ℕ → Effect → ℕ
got_at i nothing = 0
got_at i releases = 0
got_at i (gets j) = bit (j == i)

-- The part, if it can be made, has the property; and it has no fault.
abbrev pub Moves : Outcome (Worker × Effect) → (Worker → Effect → Type 0) → Type 0
Moves (done (w, e)) P = P w e
Moves blocked P = Unit {0}
Moves fault P = ⊥

-- From one shape to another: the released signals and those to come are as many as the workers that
-- are not busy, and an index that a worker has is got.
pub record LiveMove (w w' : Worker) (e : Effect) : Type 0 where
  pub live : Live w'
  pub tokens : released e + tells_in w' + free_in w ≡ tells_in w + free_in w'
  pub log : (i : ℕ) → got_at i e + calls_in i w' ≡ calls_in i w

pub Live-moves :
    (r : Option Errno) (w : Worker) → Live w → Moves (worker_part r w.phase w) (LiveMove w)
unfolding wake
Live-moves r _ (rests i) = tt
Live-moves r _ (called i) = record {
  live = fetches i;
  tokens = omega arith;
  log = λ j. omega arith;
}
Live-moves none _ (fetches i) = record {
  live = tells i;
  tokens = omega arith;
  log = λ j. omega arith;
}
Live-moves (some e) _ (fetches i) = record {
  live = gives_up i e;
  tokens = omega arith;
  log = λ j. omega arith;
}
Live-moves r _ (tells i) = record { live = rests i; tokens = omega arith; log = λ j. omega arith }
Live-moves r _ (called_early i) = record {
  live = called i;
  tokens = omega arith;
  log = λ j. omega arith;
}
Live-moves r _ (gives_up i e) = record {
  live = gone i e;
  tokens = omega arith;
  log = λ j. omega arith;
}
Live-moves r _ (gone i e) = tt

pub record DoomedMove (w w' : Worker) (e : Effect) : Type 0 where
  pub doomed : Doomed w'
  pub log : (i : ℕ) → (got_at i e ≡ 0) × (calls_in i w' ≡ calls_in i w)

posted :
    (w : Worker) (p : Phase) → w.phase ≡ p → is_stopped p ≡ false → Doomed w → 0 < w.thread_signal
posted w p e n h = elim h.ends [
  | inl s ↦ let x : is_stopped p ≡ true = ap is_stopped (sym e ∙ s) in absurd cc
  | inr q ↦ q
]

part-Doomed :
    (r : Option Errno) (p : Phase) (w : Worker)
    → w.phase ≡ p
    → Doomed w
    → Moves (worker_part r p w) (DoomedMove w)
unfolding wake
part-Doomed r asleep w e h = elim (Bool-cases (w.thread_signal == 0)) [
  | inl z ↦ rw z tt
  | inr z ↦
      rw (z, h.null)
        (record { doomed = record { null = refl; ends = inl refl }; log = λ i. (refl, refl) })
]
part-Doomed none (fetching i) w e h = record {
  doomed = record { null = h.null; ends = inr (posted w (fetching i) e refl h) };
  log = λ i. (refl, refl);
}
part-Doomed (some x) (fetching i) w e h = record {
  doomed = record { null = h.null; ends = inr (posted w (fetching i) e refl h) };
  log = λ i. (refl, refl);
}
part-Doomed r (telling b) w e h = record {
  doomed = record { null = h.null; ends = inr (posted w (telling b) e refl h) };
  log = λ i. (refl, refl);
}
part-Doomed r stopped w e h = tt

pub Doomed-moves :
    (r : Option Errno) (w : Worker) → Doomed w → Moves (worker_part r w.phase w) (DoomedMove w)
Doomed-moves r w h = part-Doomed r w.phase w refl h

-- What the controller does with a worker.
pub give-Live : (i : ℕ) (w : Worker) → Live w → w.ret ≡ idle → Live (give i w)
give-Live i _ (rests j) e = called i
give-Live i _ (called j) e = absurd cc
give-Live i _ (fetches j) e = absurd cc
give-Live i _ (tells j) e = called_early i
give-Live i _ (called_early j) e = absurd cc
give-Live i _ (gives_up j x) e = absurd cc
give-Live i _ (gone j x) e = absurd cc

-- An idle worker has no index to get; once it is given one, it has that one.
pub idle_calls :
    (i : ℕ) (w : Worker)
    → Live w
    → w.ret ≡ idle
    → (j : ℕ) → (calls_in j w ≡ 0) × (calls_in j (give i w) ≡ bit (i == j))
idle_calls i _ (rests k) e j = (refl, refl)
idle_calls i _ (called k) e j = absurd cc
idle_calls i _ (fetches k) e j = absurd cc
idle_calls i _ (tells k) e j = (refl, refl)
idle_calls i _ (called_early k) e j = absurd cc
idle_calls i _ (gives_up k x) e j = absurd cc
idle_calls i _ (gone k x) e j = absurd cc

pub kill-Doomed : (w : Worker) → Doomed (kill w)
kill-Doomed w = record { null = refl; ends = inr (omega arith) }

bit_le : (b : Bool) → bit b ≤ 1
bit_le true = omega arith
bit_le false = omega arith

-- A worker that has an index to get is busy.
pub calls_or_free : (i : ℕ) (w : Worker) → Live w → calls_in i w + free_in w ≤ 1
calls_or_free i _ (rests j) = omega arith
calls_or_free i _ (called j) = omega (arith, bit_le (j == i))
calls_or_free i _ (fetches j) = omega arith
calls_or_free i _ (tells j) = omega arith
calls_or_free i _ (called_early j) = omega (arith, bit_le (j == i))
calls_or_free i _ (gives_up j x) = omega arith
calls_or_free i _ (gone j x) = omega arith

-- A busy worker, and one that has a signal to release, can go on; so can one that is to end, unless it
-- has returned.
pub busy_moves :
    (w : Worker)
    → Live w
    → free_in w ≡ 0
    → (v : Worker) × (e : Effect) × (worker_part none w.phase w ≡ done (v, e))
unfolding wake
busy_moves _ (rests i) z = absurd (omega (arith, z))
busy_moves _ (called i) z = (_, _, refl)
busy_moves _ (fetches i) z = (_, _, refl)
busy_moves _ (tells i) z = (_, _, refl)
busy_moves _ (called_early i) z = (_, _, refl)
busy_moves _ (gives_up i x) z = (_, _, refl)
busy_moves _ (gone i x) z = absurd (omega (arith, z))

pub telling_moves :
    (w : Worker)
    → Live w
    → 0 < tells_in w
    → (v : Worker) × (e : Effect) × (worker_part none w.phase w ≡ done (v, e))
telling_moves _ (rests i) z = absurd (omega (arith, z))
telling_moves _ (called i) z = absurd (omega (arith, z))
telling_moves _ (fetches i) z = absurd (omega (arith, z))
telling_moves _ (tells i) z = (_, _, refl)
telling_moves _ (called_early i) z = (_, _, refl)
telling_moves _ (gives_up i x) z = (_, _, refl)
telling_moves _ (gone i x) z = absurd (omega (arith, z))

pub Doomed-next :
    (p : Phase) (w : Worker)
    → w.phase ≡ p
    → Doomed w
    → is_stopped p ≡ false
    → (v : Worker) × (e : Effect) × (worker_part none p w ≡ done (v, e))
unfolding wake
Doomed-next asleep w e h n =
    let p = posted w asleep e refl h in
    let z : (w.thread_signal == 0) ≡ false = ground (arith, p) in
    (
      record w { thread_signal = w.thread_signal - 1; ret = busy; phase = stopped },
      nothing,
      rw (z, h.null),
    )
Doomed-next (fetching i) w e h n = (_, _, refl)
Doomed-next (telling b) w e h n = (_, _, refl)
Doomed-next stopped w e h n = absurd cc
