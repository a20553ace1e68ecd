-- ===== src/Render/Search.antt =====
-- What the search for a worker finds, and the list of workers after a change of one.
use libtrs.Base.{
  ℕ, ◌+◌, ◌≡◌, refl, ap, ltb, ◌==◌, some, List, [], ◌∷◌, get_elem?, set, bit, total, arith,
}
use libtrs.Render.{
  Ret, idle, busy, failed, Worker, Pick, free, error, nobody, next_picked, picked, search, change,
}
use libtrs.Render.Shapes.{free_at, free_in}

-- What the answer says of the workers.
abbrev pub Sought : List Worker → Pick → Type 0
Sought ws (free k) = (w : Worker) × (get_elem? ws k ≡ some w) × (w.ret ≡ idle)
Sought ws (error e) = Unit {0}
Sought ws nobody = total free_in ws ≡ 0

Sought-next_picked :
    (w : Worker) (ws : List Worker) (f : Pick)
    → free_in w ≡ 0
    → Sought ws f
    → Sought (w ∷ ws) (next_picked f)
Sought-next_picked w ws (free k) z h = h
Sought-next_picked w ws (error e) z h = tt
Sought-next_picked w ws nobody z h = omega (arith, z, h)

Sought-picked :
    (r : Ret) (w : Worker) (ws : List Worker) (f : Pick)
    → w.ret ≡ r
    → Sought ws f
    → Sought (w ∷ ws) (picked r f)
Sought-picked idle w ws f e h = (w, refl, e)
Sought-picked busy w ws f e h = Sought-next_picked w ws f (ap free_at e) h
Sought-picked (failed x) w ws f e h = tt

pub search-Sought : (ws : List Worker) → Sought ws (search ws)
unfolding search
search-Sought [] = refl
search-Sought (w ∷ ws) = Sought-picked w.ret w ws (search ws) refl (search-Sought ws)

pub change_lem :
    (k : ℕ) (f : Worker → Worker) (ws : List Worker) (w : Worker)
    → get_elem? ws k ≡ some w
    → change k f ws ≡ set ws k (f w)
change_lem k f ws w e = rw (change, e) refl

-- One index more is below the next bound.
pub bit-ltb_suc : (i c : ℕ) → bit (ltb i c) + bit (c == i) ≡ bit (ltb i (c + 1))
bit-ltb_suc i c = ground arith
