-- ===== src/Cache/Deref.antt =====
-- `tc_deref` against what the cache holds.
use libtrs.Base.{
  ℕ, ◌%◌, ◌≡◌, Bool, true, false, Option, none, some, [], ◌∷◌, get_elem?, ok, err, einval, modify,
  ◌==◌, ◌&&◌, not, if◌then◌else◌, dec_u8, find_index,
}
use mathlib.Core.Option
use libtrs.Cache.Users.{users_at}
use libtrs.Types.{Trace}
use libtrs.Ways.{holds}
use libtrs.Cache.{TcSet, TraceCache, Reply, drop_ref}
use libtrs.Cache.Invariant.{IsValid, resident_at}

-- Whether the set of an index has its ways.
abbrev pub is_ready : TraceCache → ℕ → Bool
is_ready c index = elim (get_elem? c.sets (index % c.nsets)) [
  | none ↦ false
  | some s ↦ s.initialized
]

-- Whether the trace that is held is the very one that is given back.
abbrev pub is_same : Option Trace → Trace → Bool
is_same none t = false
is_same (some u) t = u.addr == t.addr

abbrev pub is_other : Option Trace → Trace → Bool
is_other none t = false
is_other (some u) t = not (u.addr == t.addr)

-- Whether `tc_deref` refuses a trace: its set has no ways, or another trace is in its place.
abbrev pub is_refused : TraceCache → ℕ → Trace → Bool
is_refused c index t = if is_ready c index then is_other (resident_at c index) t else true

-- What `tc_deref` promises: it frees a trace that it refuses; it takes one from the count of a trace
-- that is held; and it changes nothing else that the cache holds or counts.
pub record Dereffed (c : TraceCache) (index : ℕ) (t : Trace) (r : Reply) : Type 0 where
  pub status : r.status ≡ (if is_refused c index t then err einval else ok)
  pub freed : r.freed ≡ (if is_refused c index t then t ∷ [] else [])
  pub counts :
      (j : ℕ)
      → users_at r.cache j ≡ (
          if index == j && is_same (resident_at c index) t
          then Option.map dec_u8 (users_at c j)
          else users_at c j)
  pub kept : (j : ℕ) → resident_at r.cache j ≡ resident_at c j
  pub valid : IsValid r.cache

module _ (c : TraceCache) (s : TcSet) (index : ℕ) (v : IsValid c)
    (e : get_elem? c.sets (index % c.nsets) ≡ some s) (i : ℕ)
    (hit : find_index (holds index) s.ways ≡ some i) where
  s_dropped : TcSet
  s_dropped = record s { ways = modify i drop_ref s.ways }
