-- ===== src/Ways/Lru.antt =====
-- `__update_lru`: the ranks of the ways of a set, 0 for the way used last.
use libtrs.Base.{
  ℕ, zero, suc, ◌+◌, ◌≤◌, ◌<◌, ◌≡◌, refl, ◌≢◌, ◌↔◌, ltb, ◌==◌, if◌then◌else◌, Bool, true, false,
  none, some, List, [], ◌∷◌, length, get_elem?, arith, inl, inr, ◌⊎◌, ap, Option-cases, ◌∙◌,
}
use mathlib.Core.Option
use mathlib.Core.Path.{subst}
use libtrs.Ways.{Way, age, update_lru_from, update_lru, fresh_ways}

-- The way that the loop leaves at index `k`.
abbrev pub touched : ℕ → ℕ → ℕ → Bool → Way → Way
touched k way thresh hit w = record w { lru = if k == way then 0 else age hit thresh w.lru }

get_elem?-update_lru_from :
    (i way thresh : ℕ) (hit : Bool) (ws : List Way) (j k : ℕ)
    → k ≡ i + j
    → get_elem? (update_lru_from i way thresh hit ws) j
      ≡ Option.map (touched k way thresh hit) (get_elem? ws j)
unfolding update_lru_from
get_elem?-update_lru_from i way thresh hit [] j k e = refl
get_elem?-update_lru_from i way thresh hit (w ∷ ws) zero k e =
    let e' : i ≡ k = omega arith in rw e' refl
get_elem?-update_lru_from i way thresh hit (w ∷ ws) (suc j) k e =
    get_elem?-update_lru_from (i + 1) way thresh hit ws j k (omega arith)

pub length-update_lru_from :
    (i way thresh : ℕ) (hit : Bool) (ws : List Way)
    → length (update_lru_from i way thresh hit ws) ≡ length ws
unfolding update_lru_from
length-update_lru_from i way thresh hit [] = refl
length-update_lru_from i way thresh hit (w ∷ ws) =
    omega (arith, length-update_lru_from (i + 1) way thresh hit ws)

pub length-update_lru :
    (ws : List Way) (way : ℕ) (hit : Bool) → length (update_lru ws way hit) ≡ length ws
unfolding update_lru
length-update_lru ws way hit = elim (Option-cases (get_elem? ws way)) [
  | inl e ↦ rw (e, update_lru) refl
  | inr (w, e) ↦ rw (e, update_lru) (length-update_lru_from 0 way w.lru hit ws)
]

-- What `__update_lru` leaves at each index.
pub get_elem?-update_lru :
    (ws : List Way) (way : ℕ) (hit : Bool) {v : Way} (j : ℕ)
    → get_elem? ws way ≡ some v
    → get_elem? (update_lru ws way hit) j ≡ Option.map (touched j way v.lru hit) (get_elem? ws j)
unfolding update_lru
get_elem?-update_lru ws way hit {v} j h =
    rw (h, update_lru) (get_elem?-update_lru_from 0 way v.lru hit ws j j (omega arith))

-- The ranks are a permutation of `0 .. nways - 1`.
pub record IsRanking (ws : List Way) : Type 0 where
  pub fits : length ws ≤ 256
  pub small : (i : ℕ) (w : Way) → get_elem? ws i ≡ some w → w.lru < length ws
  pub distinct :
      (i j : ℕ) (v w : Way)
      → get_elem? ws i ≡ some v
      → get_elem? ws j ≡ some w
      → v.lru ≡ w.lru
      → i ≡ j

get_elem?-update_lru_inv :
    (ws : List Way) (way : ℕ) (hit : Bool) {v w' : Way} (j : ℕ)
    → get_elem? ws way ≡ some v
    → get_elem? (update_lru ws way hit) j ≡ some w'
    → (w : Way) × (get_elem? ws j ≡ some w) × (w' ≡ touched j way v.lru hit w)
get_elem?-update_lru_inv ws way hit {v} {w'} j h e = elim (Option-cases (get_elem? ws j)) [
  | inl n ↦
      absurd (cc (get_elem?-update_lru ws way hit j h, ap (Option.map (touched j way v.lru hit)) n))
  | inr (w, e') ↦ (
    w,
    e',
    cc (get_elem?-update_lru ws way hit j h, ap (Option.map (touched j way v.lru hit)) e'),
  )
]

-- Away from the way touched: the rank moves up by one exactly below the old rank of that way.
age_lem :
    (hit : Bool) (n thresh l : ℕ)
    → n ≤ 256
    → l < n
    → thresh < n
    → l ≢ thresh
    → (hit ≡ true) ⊎ (thresh + 1 ≡ n)
    → age hit thresh l ≡ (if ltb l thresh then l + 1 else l)
unfolding age
age_lem hit n thresh l h a b c d = ground arith

-- How the rank of the way at `j` comes out, with the way touched at `way`.
record RankStep (n way old j before after : ℕ) : Type 0 where
  old_small : old < n
  before_small : before < n
  apart : before ≡ old → j ≡ way
  after_eq : after ≡ (if j == way then 0 else if ltb before old then before + 1 else before)

RankStep-ne :
    {n way old j x x' : ℕ}
    → RankStep n way old j x x'
    → j ≢ way
    → (x ≢ old) × (x' ≡ (if ltb x old then x + 1 else x))
RankStep-ne r ne = (λ e. ne (r.apart e), ground (arith, r.after_eq))

rank_order :
    (old x y x' y' : ℕ)
    → x ≢ old
    → y ≢ old
    → x' ≡ (if ltb x old then x + 1 else x)
    → y' ≡ (if ltb y old then y + 1 else y)
    → (0 < x') × ((x' < y') ↔ (x < y))
rank_order old x y x' y' a b c d = ground arith

module _ (ws : List Way) (way : ℕ) (hit : Bool) {v : Way} (r : IsRanking ws)
    (h : get_elem? ws way ≡ some v) (top : (hit ≡ true) ⊎ (v.lru + 1 ≡ length ws)) where
  rank_step :
      (j : ℕ) (w' : Way)
      → get_elem? (update_lru ws way hit) j ≡ some w'
      → (w : Way) × (get_elem? ws j ≡ some w) × RankStep (length ws) way v.lru j w.lru w'.lru
  rank_step j w' e =
      let (w, e', q) = get_elem?-update_lru_inv ws way hit j h e in
      let a : v.lru < length ws = r.small way v h in
      let b : w.lru < length ws = r.small j w e' in
      (
        w,
        e',
        record {
          old_small = a;
          before_small = b;
          apart = r.distinct j way w v e' h;
          after_eq =
              ground (
                arith,
                q,
                age_lem hit (length ws) v.lru w.lru r.fits b a,
                r.distinct j way w v e' h,
              );
        },
      )

  -- If the ranks of at most 256 ways are a permutation of 0 .. nways - 1, they are one again after
  -- __update_lru for a hit, or for a store into the way of highest rank.
  pub update_lru-IsRanking : IsRanking (update_lru ws way hit)
  update_lru-IsRanking = record {
    fits = rw (length-update_lru ws way hit) r.fits;
    small = λ i w' e.
        let (w, e', q) = rank_step i w' e in rw (length-update_lru ws way hit) ground (arith, q);
    distinct = λ i j x' y' ex ey same.
        let (x, ex', qx) = rank_step i x' ex in
        let (y, ey', qy) = rank_step j y' ey in ground (arith, qx, qy, r.distinct i j x y ex' ey');
  }

  RankStep-at :
      (j : ℕ) (w w' : Way)
      → get_elem? ws j ≡ some w
      → get_elem? (update_lru ws way hit) j ≡ some w'
      → RankStep (length ws) way v.lru j w.lru w'.lru
  RankStep-at j w w' e e' =
      let (w1, e1, q) = rank_step j w' e' in
      let same : w1 ≡ w = cc in
      subst (λ (u : Way). RankStep (length ws) way v.lru j u.lru w'.lru) same q

  -- If the ranks of at most 256 ways are a permutation of 0 .. nways - 1, then after __update_lru
  -- for a hit, or for a store into the way of highest rank, the ways other than the one touched
  -- have positive ranks, and any two of them stand in the order in which they stood.
  pub update_lru_order :
      (i j : ℕ) {x y x' y' : Way}
      → get_elem? ws i ≡ some x
      → get_elem? ws j ≡ some y
      → get_elem? (update_lru ws way hit) i ≡ some x'
      → get_elem? (update_lru ws way hit) j ≡ some y'
      → i ≢ way
      → j ≢ way
      → (0 < x'.lru) × ((x'.lru < y'.lru) ↔ (x.lru < y.lru))
  update_lru_order i j {x} {y} {x'} {y'} ex ey ex' ey' hi hj =
      let p = RankStep-ne (RankStep-at i x x' ex ex') hi in
      let q = RankStep-ne (RankStep-at j y y' ey ey') hj in
      rank_order v.lru x.lru y.lru x'.lru y'.lru p.0 q.0 p.1 q.1

-- The way touched has rank 0 afterwards.
pub update_lru_self :
    (ws : List Way) (way : ℕ) (hit : Bool) {v : Way}
    → get_elem? ws way ≡ some v
    → get_elem? (update_lru ws way hit) way ≡ some (record v { lru = 0 })
update_lru_self ws way hit {v} h = ground (arith, get_elem?-update_lru ws way hit way h, h)

-- If the ranks of fewer than 256 ways are a permutation of 0 .. nways - 1, a store into a way that
-- is not the one of highest rank leaves ranks that are no such permutation.
pub update_lru_pinned :
    (ws : List Way) (way top : ℕ) {v w : Way}
    → IsRanking ws
    → length ws < 256
    → get_elem? ws way ≡ some v
    → get_elem? ws top ≡ some w
    → w.lru + 1 ≡ length ws
    → way ≢ top
    → ¬ IsRanking (update_lru ws way false)
unfolding age
update_lru_pinned ws way top {v} {w} r short h e high ne = λ r'.
    let e' : get_elem? (update_lru ws way false) top ≡ some (touched top way v.lru false w) =
      get_elem?-update_lru ws way false top h ∙ ap (Option.map (touched top way v.lru false)) e in
    let small = r'.small top (touched top way v.lru false w) e' in
    ground (arith, small, length-update_lru ws way false)

get_elem?-fresh_ways :
    (n i : ℕ) {w : Way}
    → n ≤ 256
    → get_elem? (fresh_ways n) i ≡ some w
    → (w.lru + i + 1 ≡ n) × (w ≡ record { valid = false; lru = w.lru; refcount = 0; trace = none })
unfolding fresh_ways
get_elem?-fresh_ways zero i b h = absurd (cc)
get_elem?-fresh_ways (suc n) zero b h = ground arith
get_elem?-fresh_ways (suc n) (suc i) b h =
    let ih = get_elem?-fresh_ways n i (omega arith) h in (omega arith, ih.1)

pub length-fresh_ways : (n : ℕ) → length (fresh_ways n) ≡ n
unfolding fresh_ways
length-fresh_ways zero = refl
length-fresh_ways (suc n) = ap suc (length-fresh_ways n)

-- The ranks of a new set are a ranking.
pub fresh_ways-IsRanking : (n : ℕ) → n ≤ 256 → IsRanking (fresh_ways n)
fresh_ways-IsRanking n b = record {
  fits = rw (length-fresh_ways n) b;
  small =
      λ i w e. let q = (get_elem?-fresh_ways n i b e).0 in rw (length-fresh_ways n) (omega arith);
  distinct = λ i j v w ev ew same.
      let p = (get_elem?-fresh_ways n i b ev).0 in
      let q = (get_elem?-fresh_ways n j b ew).0 in omega arith;
}
