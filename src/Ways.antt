-- ===== src/Ways.antt =====
-- lib/trace/cache.c: the ways of one cache set, and the loops over them.
-- The four parallel arrays of length `nways` are one list of ways. `lru` and `refcount` are
-- `uint8_t` and wrap.
pub mod Lru
pub mod Choice
pub mod Slots
mod Tests
use libtrs.Base.{
  ℕ, zero, suc, ◌+◌, ◌%◌, ltb, ◌==◌, if◌then◌else◌, Bool, true, false, not, ◌&&◌, Option, none,
  some, List, [], ◌∷◌, get_elem?, inc_u8,
}
use libtrs.Types.{Trace}

-- One way of a set: `valid[i]`, `lru[i]`, `refcount[i]`, `traces[i]`.
pub record Way : Type 0 where
  pub valid : Bool
  pub lru : ℕ
  pub refcount : ℕ
  pub trace : Option Trace

-- The body of the loop of `__update_lru` at a way other than the one touched.
unfoldable pub age : Bool → ℕ → ℕ → ℕ
age hit thresh l = if hit then (if ltb l thresh then inc_u8 l else l) else inc_u8 l

-- The loop of `__update_lru`, from way `i` on.
unfoldable pub update_lru_from : ℕ → ℕ → ℕ → Bool → List Way → List Way
unfolding age
update_lru_from i way thresh hit [] = []
update_lru_from i way thresh hit (w ∷ ws) =
    record w { lru = if i == way then 0 else age hit thresh w.lru }
    ∷ update_lru_from (i + 1) way thresh hit ws

-- `__update_lru`. A way out of range, which no caller passes, changes nothing.
unfoldable pub update_lru : List Way → ℕ → Bool → List Way
unfolding update_lru_from
update_lru ws way hit = elim (get_elem? ws way) [
  | none ↦ ws
  | some w ↦ update_lru_from 0 way w.lru hit ws
]

-- `lru[i] = nways - i - 1`, for the last `n` ways of a new set.
unfoldable pub fresh_ways : ℕ → List Way
fresh_ways zero = []
fresh_ways (suc n) =
    record { valid = false; lru = n % 256; refcount = 0; trace = none } ∷ fresh_ways n

-- The test of the loops of `tc_lookup` and `tc_deref`: `valid[i] && TRACE_IDX(traces[i]) == index`.
unfoldable pub holds : ℕ → Way → Bool
holds index w = w.valid && elim w.trace [ none ↦ false | some t ↦ t.index == index ]

-- `highest_lru` and `way` of `tc_store`, `none` for -1.
abbrev pub Best : Type 0
Best = Option (ℕ × ℕ)

unfoldable pub above : ℕ → Best → Bool
above l none = true
above l (some (_, h)) = ltb h l

-- A pass of `tc_store` over the ways from `i` on: the way of highest `lru` that passes the test.
unfoldable pub pass_from : (Way → Bool) → ℕ → List Way → Best → Best
pass_from p i [] best = best
pass_from p i (w ∷ ws) best =
    pass_from p (i + 1) ws (if p w && above w.lru best then some (i, w.lru) else best)

unfoldable pub is_empty : Way → Bool
is_empty w = not w.valid

unfoldable pub is_idle : Way → Bool
is_idle w = w.refcount == 0

-- The two passes.
unfoldable pub choose_way : List Way → Best
unfolding pass_from is_empty is_idle above
choose_way ws = elim (pass_from is_empty 0 ws none) [
  | none ↦ pass_from is_idle 0 ws none
  | some b ↦ some b
]
