-- ===== src/Render/Control.antt =====
-- The parts of the controller keep what holds of the workers, and none of them has a fault.
use mathlib.Core.Path.{subst}
use libtrs.Base.{
  ℕ, zero, suc, ◌+◌, ◌<◌, ◌≡◌, refl, sym, ap, ◌∙◌, ltb, ◌==◌, Bool-cases, false, some, List, length,
  get_elem?, get_elem?-some, set, inl, inr, total, total-set, total-add_le, get_elem?-set_all,
  Status, ok, err, Outcome, done, blocked, fault, arith,
}
use libtrs.Render.{
  idle, Worker, give, Controller, dispatches, waits, kills, joins, ended, Render, Pick, free, error,
  nobody, search, dispatch, take_done, is_stopped, join, controller_part,
}
use libtrs.Render.Shapes.{
  Live, tells_in, free_in, free_at, calls_in, give-Live, idle_calls, calls_or_free,
}
use libtrs.Render.Invariant.{in_use, stage, Shape, IsRender}
use libtrs.Render.Search.{Sought, search-Sought, change_lem, bit-ltb_suc}
use libtrs.Render.Ending.{Shapes, At, At-IsRender, IsRender-At, kill_kept, end_kept, join_kept}

abbrev pub Keeps : Outcome Render → Type 0
Keeps (done z) = IsRender z
Keeps blocked = Unit {0}
Keeps fault = ⊥

kills_in_use : (st : Status) (k : ℕ) → stage (kills 0 st) k ≡ in_use
kills_in_use st k = let r : ltb k 0 ≡ false = ground arith in rw (stage, r) refl

all_in_use : (st : Status) (ws : List Worker) → Shapes dispatches ws → Shapes (kills 0 st) ws
all_in_use st ws h k w e = subst (λ s. Shape s w) (sym (kills_in_use st k)) (h k w e)

dispatch-free :
    (y : Render) (k : ℕ) (w : Worker)
    → At dispatches y
    → y.curr_index < y.num_traces
    → 0 < y.done_signal
    → get_elem? y.workers k ≡ some w
    → w.ret ≡ idle
    → IsRender (dispatch (free k) (take_done y))
dispatch-free y k w h lt pos at e =
    let i = y.curr_index in
    let z = dispatch (free k) (take_done y) in
    let ws : z.workers ≡ set y.workers k (give i w) = change_lem k (give i) y.workers w at in
    let tot : (f : Worker → ℕ) → total f z.workers + f w ≡ total f y.workers + f (give i w) =
      λ f. ap (λ vs. total f vs + f w) ws ∙ total-set f y.workers k w (give i w) at in
    let live = h.shapes k w at in
    let one : free_in w ≡ 1 = ap free_at e in
    let (p, q, l) = h.counts in
    At-IsRender dispatches z (record {
      place = h.place;
      shapes = λ j u g.
          get_elem?-set_all (λ n v. Live v) y.workers k (give i w) (give-Live i w live e)
            (λ n v _ r. h.shapes n v r) j u (ap (λ vs. get_elem? vs j) (sym ws) ∙ g);
      counts = (
        omega (arith, p, pos, tot tells_in, tot free_in, one),
        omega (arith, lt),
        λ j. omega (
          arith,
          l j,
          tot (calls_in j),
          (idle_calls i w live e j).0,
          (idle_calls i w live e j).1,
          bit-ltb_suc j i,
        ),
      );
      joined = tt;
    })

dispatch_kept :
    (f : Pick) (y : Render)
    → At dispatches y
    → y.curr_index < y.num_traces
    → 0 < y.done_signal
    → Sought y.workers f
    → IsRender (dispatch f (take_done y))
dispatch_kept (free k) y h lt pos (w, at, e) = dispatch-free y k w h lt pos at e
dispatch_kept (error x) y h lt pos s =
    At-IsRender (kills 0 (err x)) (dispatch (error x) (take_done y)) (record {
      place = refl;
      shapes = all_in_use (err x) y.workers h.shapes;
      counts = tt;
      joined = tt;
    })
dispatch_kept nobody y h lt pos s = absurd (omega (arith, pos, s, h.counts.0))

no_calls : (y : Render) → At (waits 0) y → (i : ℕ) → total (calls_in i) y.workers ≡ 0
no_calls y h i =
    let le =
      total-add_le (calls_in i) free_in y.workers (λ k w e. calls_or_free i w (h.shapes k w e)) in
    omega (arith, h.counts.0, le)

join_option :
    (y : Render) (k : ℕ) (st : Status) (w : Worker)
    → At (joins k st) y
    → get_elem? y.workers k ≡ some w
    → Keeps (join k st (some w) y)
join_option y k st w h at = elim (Bool-cases (is_stopped w.phase)) [
  | inl q ↦ rw q (join_kept y k st w h at q)
  | inr q ↦ rw q tt
]

dispatches_kept : (y : Render) → At dispatches y → Keeps (controller_part dispatches y)
dispatches_kept y h = elim (Bool-cases (ltb y.curr_index y.num_traces)) [
  | inl q ↦
      let lt : y.curr_index < y.num_traces = ground (arith, q) in
      elim (Bool-cases (y.done_signal == 0)) [
        | inl z ↦ rw (q, z) tt
        | inr z ↦
            rw (q, z)
              (dispatch_kept (search y.workers) y h lt (ground (arith, z))
                (search-Sought y.workers))
      ]
  | inr q ↦
      let (p, le, l) = h.counts in
      rw q (
        At-IsRender (waits (length y.workers)) (record y { controller = waits (length y.workers) })
          (record {
            place = refl;
            shapes = h.shapes;
            counts = (omega (arith, p), ground (arith, q, le), l);
            joined = tt;
          }))
]

part_kept : (c : Controller) (y : Render) → At c y → Keeps (controller_part c y)
part_kept dispatches y h = dispatches_kept y h
part_kept (waits zero) y h =
    At-IsRender (kills 0 ok) (record y { controller = kills 0 ok })
      (record {
        place = refl;
        shapes = all_in_use ok y.workers h.shapes;
        counts = (h.counts.1, λ i. (h.counts.2 i, no_calls y h i));
        joined = tt;
      })
part_kept (waits (suc n)) y h = elim (Bool-cases (y.done_signal == 0)) [
  | inl z ↦ rw z tt
  | inr z ↦
      let pos : 0 < y.done_signal = ground (arith, z) in
      rw z (
        At-IsRender (waits n) (record (take_done y) { controller = waits n })
          (record {
            place = refl;
            shapes = h.shapes;
            counts = (omega (arith, pos, h.counts.0), h.counts.1, h.counts.2);
            joined = tt;
          }))
]
part_kept (kills k st) y h = elim (Bool-cases (ltb k (length y.workers))) [
  | inl q ↦
      let (w, at) = get_elem?-some y.workers k (ground (arith, q)) in rw q (kill_kept y k st w h at)
  | inr q ↦ rw q (end_kept y k st h q)
]
part_kept (joins k st) y h =
    let (w, at) = get_elem?-some y.workers k h.joined in
    subst (λ o. Keeps (join k st o y)) (sym at) (join_option y k st w h at)
part_kept (ended st) y h = tt

-- The controller keeps what holds, and never joins a worker that is not there.
pub controls_kept : (y : Render) → IsRender y → Keeps (controller_part y.controller y)
controls_kept y h = part_kept y.controller y (IsRender-At y.controller y refl h)
