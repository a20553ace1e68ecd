-- ===== src/Render/Turns.antt =====
-- Runs of the threads from a list of turns: an interleaving that is given, not one that is chosen.
use mathlib.Core.Path.{subst}
use libtrs.Base.{
  ℕ, ◌≡◌, ◌⊎◌, inl, inr, ap, ◌∙◌, refl, sym, Option, none, some, List, [], ◌∷◌, get_elem?, set,
  Errno, Outcome, done, blocked, fault,
}
use libtrs.Render.{
  Worker, Effect, worker_part, Render, controller_part, perform, RenderStep, works, controls,
  Rendering, later,
}

-- Who makes the next part: the controller, or a worker with the error of its `trace_get`.
pub data Turn : Type 0 where
  controller : Turn
  worker : ℕ → Option Errno → Turn

abbrev took : Render → ℕ → Outcome (Worker × Effect) → Outcome Render
took y k (done (v, e)) = done (perform e (record y { workers = set y.workers k v }))
took y k blocked = blocked
took y k fault = fault

abbrev pick : Render → ℕ → Option Errno → Option Worker → Outcome Render
pick y k r none = fault
pick y k r (some w) = took y k (worker_part r w.phase w)

unfoldable pub turn : Turn → Render → Outcome Render
turn controller y = controller_part y.controller y
turn (worker k r) y = pick y k r (get_elem? y.workers k)

abbrev then_play : (Render → Outcome Render) → Outcome Render → Outcome Render
then_play f (done y) = f y
then_play f blocked = blocked
then_play f fault = fault

unfoldable pub play : List Turn → Render → Outcome Render
play [] y = done y
play (t ∷ ts) y = then_play (play ts) (turn t y)

took-RenderStep :
    (y z : Render) (k : ℕ) (r : Option Errno) (w : Worker) (o : Outcome (Worker × Effect))
    → get_elem? y.workers k ≡ some w
    → worker_part r w.phase w ≡ o
    → took y k o ≡ done z
    → RenderStep y z
took-RenderStep y z k r w (done (v, e)) at p q =
    let eq : perform e (record y { workers = set y.workers k v }) ≡ z = cc in
    subst (RenderStep y) eq (works y k r w v e at p)
took-RenderStep y z k r w blocked at p q = absurd cc
took-RenderStep y z k r w fault at p q = absurd cc

pick-RenderStep :
    (y z : Render) (k : ℕ) (r : Option Errno) (o : Option Worker)
    → get_elem? y.workers k ≡ o
    → pick y k r o ≡ done z
    → RenderStep y z
pick-RenderStep y z k r none at q = absurd cc
pick-RenderStep y z k r (some w) at q =
    took-RenderStep y z k r w (worker_part r w.phase w) at refl q

turn_cases :
    (o : Outcome Render)
    → ((x : Render) × (o ≡ done x))
      ⊎ ((f : Render → Outcome Render) (z : Render) → ¬ (then_play f o ≡ done z))
turn_cases (done x) = inl (x, refl)
turn_cases blocked = inr (λ f z e. cc)
turn_cases fault = inr (λ f z e. cc)

turn-RenderStep : (t : Turn) (y z : Render) → turn t y ≡ done z → RenderStep y z
unfolding turn
turn-RenderStep controller y z q = controls y z q
turn-RenderStep (worker k r) y z q = pick-RenderStep y z k r (get_elem? y.workers k) refl q

pub play-Rendering :
    {n m : ℕ} (ts : List Turn) (y z : Render)
    → Rendering n m y
    → play ts y ≡ done z
    → Rendering n m z
unfolding play
play-Rendering {n} {m} [] y z r q = let e : y ≡ z = cc in subst (Rendering n m) e r
play-Rendering {n} {m} (t ∷ ts) y z r q = elim (turn_cases (turn t y)) [
  | inl (x, e) ↦
      play-Rendering ts x z (later y x r (turn-RenderStep t y x e))
        (sym (ap (then_play (play ts)) e) ∙ q)
  | inr n ↦ absurd (n (play ts) z q)
]
