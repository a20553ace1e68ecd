-- ===== src/Render/Reach.antt =====
-- Every state that a call of `ts_render` reaches satisfies the invariant.
use mathlib.Core.Path.{subst}
use libtrs.Base.{ℕ, zero, suc, ◌≡◌, refl, ◌∙◌, ltb, false, some, length, get_elem?, total, arith}
use libtrs.Render.{
  Worker, Render, new_worker, new_workers, new_render, RenderStep, works, controls, Rendering,
  begin, later,
}
use libtrs.Render.Shapes.{Live, rests, tells_in, free_in, calls_in}
use libtrs.Render.Invariant.{IsRender, step_kept}
use libtrs.Render.Control.{Keeps, controls_kept}
use libtrs.Render.Work.{RenderStep-Advance}

new_workers-Live : (n k : ℕ) (w : Worker) → get_elem? (new_workers n) k ≡ some w → Live w
new_workers-Live zero k w e = absurd cc
new_workers-Live (suc n) zero w e = let q : new_worker ≡ w = cc in subst Live q (rests 0)
new_workers-Live (suc n) (suc k) w e = new_workers-Live n k w e

total-new_workers :
    (n i : ℕ)
    → (total tells_in (new_workers n) ≡ 0)
      × (total free_in (new_workers n) ≡ n)
      × (total (calls_in i) (new_workers n) ≡ 0)
      × (length (new_workers n) ≡ n)
total-new_workers zero i = (refl, refl, refl, refl)
total-new_workers (suc n) i =
    let (a, b, c, d) = total-new_workers n i in
    (omega (arith, a), omega (arith, b), omega (arith, c), omega (arith, d))

new_render-IsRender : (nthreads num_traces : ℕ) → IsRender (new_render nthreads num_traces)
new_render-IsRender n m =
    let t = total-new_workers n in
    record {
      shapes = λ k w e. new_workers-Live n k w e;
      counts = (
        omega (arith, (t 0).0, (t 0).1),
        omega arith,
        λ i. let q : ltb i 0 ≡ false = ground arith in rw (q, (t i).2) refl,
      );
      joined = tt;
    }

RenderStep-IsRender : (y z : Render) → RenderStep y z → IsRender y → IsRender z
RenderStep-IsRender y z (works _ k r w w' e at q) h = step_kept y k r w w' e h at q
RenderStep-IsRender y z (controls _ _ q) h = subst Keeps q (controls_kept y h)

pub Rendering-IsRender :
    (nthreads num_traces : ℕ) (y : Render) → Rendering nthreads num_traces y → IsRender y
Rendering-IsRender n m _ begin = new_render-IsRender n m
Rendering-IsRender n m _ (later y z r s) = RenderStep-IsRender y z s (Rendering-IsRender n m y r)

pub Rendering-size :
    (nthreads num_traces : ℕ) (y : Render)
    → Rendering nthreads num_traces y
    → (length y.workers ≡ nthreads) × (y.num_traces ≡ num_traces)
Rendering-size n m _ begin = ((total-new_workers n 0).3, refl)
Rendering-size n m _ (later y z r s) =
    let a = RenderStep-Advance y z s (Rendering-IsRender n m y r) in
    let (p, q) = Rendering-size n m y r in (a.size ∙ p, a.num ∙ q)
