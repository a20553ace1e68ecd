-- ===== src/Render/Ending.antt =====
-- The end of the workers: the controller sets `ts` to NULL, wakes a worker and joins it.
use mathlib.Core.Path.{subst}
use libtrs.Base.{
  ℕ, suc, ◌+◌, ◌<◌, ◌≡◌, ◌≢◌, refl, sym, ap, ◌∙◌, ltb, ◌==◌, eq_cases, true, false, some, List,
  length, length-set, get_elem?, lt-length_of_get_elem?, set, inl, inr, total, total-set,
  get_elem?-set_all, Status, ok, err, arith,
}
use libtrs.Render.{
  Worker, Phase, asleep, fetching, telling, stopped, kill, change, Controller, kills, joins, ended,
  Render, is_stopped,
}
use libtrs.Render.Shapes.{calls_in, kill-Doomed}
use libtrs.Render.Invariant.{to_end, over, stage, Shape, Counts, Joined, IsRender}
use libtrs.Render.Search.{change_lem}

-- What is known with the controller at a place.
abbrev pub Shapes : Controller → List Worker → Type 0
Shapes c ws = (k : ℕ) (w : Worker) → get_elem? ws k ≡ some w → Shape (stage c k) w

pub record At (c : Controller) (y : Render) : Type 0 where
  pub place : y.controller ≡ c
  pub shapes : Shapes c y.workers
  pub counts : Counts c y
  pub joined : Joined c (length y.workers)

pub At-IsRender : (c : Controller) (y : Render) → At c y → IsRender y
At-IsRender c y h = record {
  shapes = subst (λ d. Shapes d y.workers) (sym h.place) h.shapes;
  counts = subst (λ d. Counts d y) (sym h.place) h.counts;
  joined = subst (λ d. Joined d (length y.workers)) (sym h.place) h.joined;
}

pub IsRender-At : (c : Controller) (y : Render) → y.controller ≡ c → IsRender y → At c y
IsRender-At c y e h = record {
  place = e;
  shapes = subst (λ d. Shapes d y.workers) e h.shapes;
  counts = subst (λ d. Counts d y) e h.counts;
  joined = subst (λ d. Joined d (length y.workers)) e h.joined;
}

-- The places of the other workers while the controller ends one.
stage_kills : (st : Status) (k j : ℕ) → k ≢ j → stage (joins k st) j ≡ stage (kills k st) j
stage_kills st k j n = let q : (j == k) ≡ false = ground (arith, n) in rw (stage, q) refl

stage_joins : (st : Status) (k j : ℕ) → k ≢ j → stage (kills (suc k) st) j ≡ stage (joins k st) j
stage_joins st k j n =
    let q : (j == k) ≡ false = ground (arith, n) in
    let r : ltb j (suc k) ≡ ltb j k = ground (arith, n) in rw (stage, q, r) refl

pub stage_self : (st : Status) (k : ℕ) → stage (joins k st) k ≡ to_end
stage_self st k =
    let q : (k == k) ≡ true = ground arith in
    let r : ltb k k ≡ false = ground arith in rw (stage, q, r) refl

stage_past : (st : Status) (k j : ℕ) → j < k → stage (kills k st) j ≡ over
stage_past st k j h = let r : ltb j k ≡ true = ground (arith, h) in rw (stage, r) refl

kill-Counts :
    (y z : Render) (k : ℕ) (st : Status) (w : Worker)
    → get_elem? y.workers k ≡ some w
    → z.workers ≡ set y.workers k (kill w)
    → Counts (kills k st) y
    → Counts (joins k st) (record y { workers = z.workers; controller = joins k st })
kill-Counts y z k ok w at ws (e, l) =
    let tot : (i : ℕ)
        → total (calls_in i) z.workers + calls_in i w
          ≡ total (calls_in i) y.workers + calls_in i (kill w) =
      λ i.
        ap (λ vs. total (calls_in i) vs + calls_in i w) ws
        ∙ total-set (calls_in i) y.workers k w (kill w) at in
    (e, λ i. (omega (arith, (l i).0, (l i).1, tot i), omega (arith, (l i).1, tot i)))
kill-Counts y z k (err x) w at ws c = tt

end-Counts :
    (y : Render) (st : Status) (k : ℕ)
    → Counts (kills k st) y
    → Counts (ended st) (record y { controller = ended st })
end-Counts y ok k c = c
end-Counts y (err x) k c = tt

join-Counts :
    (y : Render) (st : Status) (k : ℕ)
    → Counts (joins k st) y
    → Counts (kills (suc k) st) (record y { controller = kills (suc k) st })
join-Counts y ok k c = c
join-Counts y (err x) k c = tt

pub kill_kept :
    (y : Render) (k : ℕ) (st : Status) (w : Worker)
    → At (kills k st) y
    → get_elem? y.workers k ≡ some w
    → IsRender (record y { workers = change k kill y.workers; controller = joins k st })
kill_kept y k st w h at =
    let z = record y { workers = change k kill y.workers; controller = joins k st } in
    let ws : z.workers ≡ set y.workers k (kill w) = change_lem k kill y.workers w at in
    let size : length z.workers ≡ length y.workers =
      ap length ws ∙ length-set y.workers k (kill w) in
    let shapes =
      get_elem?-set_all (λ j v. Shape (stage (joins k st) j) v) y.workers k (kill w)
        (subst (λ s. Shape s (kill w)) (sym (stage_self st k)) (kill-Doomed w))
        (λ j u n r. subst (λ s. Shape s u) (sym (stage_kills st k j n)) (h.shapes j u r)) in
    At-IsRender (joins k st) z (record {
      place = refl;
      shapes = λ j u g. shapes j u (ap (λ vs. get_elem? vs j) (sym ws) ∙ g);
      counts = kill-Counts y z k st w at ws h.counts;
      joined = omega (arith, size, lt-length_of_get_elem? y.workers k at);
    })

pub end_kept :
    (y : Render) (k : ℕ) (st : Status)
    → At (kills k st) y
    → ltb k (length y.workers) ≡ false
    → IsRender (record y { controller = ended st })
end_kept y k st h q =
    At-IsRender (ended st) (record y { controller = ended st })
      (record {
        place = refl;
        shapes = λ j u g.
            let lt = lt-length_of_get_elem? y.workers j g in
            let jk : j < k = ground (arith, q, lt) in
            subst (λ s. Shape s u) (stage_past st k j jk) (h.shapes j u g);
        counts = end-Counts y st k h.counts;
        joined = tt;
      })

is_stopped_lem : (p : Phase) → is_stopped p ≡ true → p ≡ stopped
is_stopped_lem asleep e = absurd cc
is_stopped_lem (fetching i) e = absurd cc
is_stopped_lem (telling b) e = absurd cc
is_stopped_lem stopped e = refl

pub join_kept :
    (y : Render) (k : ℕ) (st : Status) (w : Worker)
    → At (joins k st) y
    → get_elem? y.workers k ≡ some w
    → is_stopped w.phase ≡ true
    → IsRender (record y { controller = kills (suc k) st })
join_kept y k st w h at q =
    At-IsRender (kills (suc k) st) (record y { controller = kills (suc k) st })
      (record {
        place = refl;
        shapes = λ j u g. elim (eq_cases j k) [
          | inl e ↦
              let jk : j < suc k = omega (arith, e) in
              let same : u ≡ w = cc in
              subst (λ s. Shape s u) (sym (stage_past st (suc k) j jk))
                (ap (λ v. v.phase) same ∙ is_stopped_lem w.phase q)
          | inr n ↦
              let ne : k ≢ j =
                λ e. elim n [ inl a ↦ omega (arith, a, e) | inr a ↦ omega (arith, a, e) ] in
              subst (λ s. Shape s u) (sym (stage_joins st k j ne)) (h.shapes j u g)
        ];
        counts = join-Counts y st k h.counts;
        joined = tt;
      })
