-- ===== src/Cache/Invariant.antt =====
-- The invariant of a cache, and what it holds.
use libtrs.Base.{
  ℕ, ◌%◌, ◌<◌, ◌≡◌, refl, ◌≢◌, true, false, Option, none, some, List, [], length, get_elem?, set,
  arith, sym, ◌∙◌, length-set, get_elem?-set_self, get_elem?-set_ne, get_elem?-some, done,
}
use libtrs.Types.{Trace}
use libtrs.Ways.Slots.{slots, resident, IsCoherent}
use libtrs.Cache.{TcSet, TraceCache, locate}
use native.Mathlib.Decide.{ℕ_discrete}
use mathlib.Core.Path.{subst}

-- Set `k`: it has no ways before `__initialize_set`, `nways` coherent ones afterwards.
pub record SetIsValid (nsets nways k : ℕ) (s : TcSet) : Type 0 where
  pub blank : s.initialized ≡ false → s.ways ≡ []
  pub size : s.initialized ≡ true → length s.ways ≡ nways
  pub coherent : IsCoherent nsets k (slots s.ways)

pub record AreValid (nsets nways : ℕ) (sets : List TcSet) : Type 0 where
  pub some_sets : 0 < nsets
  pub count : length sets ≡ nsets
  pub each : (k : ℕ) (s : TcSet) → get_elem? sets k ≡ some s → SetIsValid nsets nways k s

abbrev pub IsValid : TraceCache → Type 0
IsValid c = AreValid c.nsets c.nways c.sets

abbrev resident_in_set : ℕ → Option TcSet → Option Trace
resident_in_set index none = none
resident_in_set index (some s) = resident index (slots s.ways)

-- The trace that the sets hold for an index.
abbrev pub resident_in_sets : ℕ → List TcSet → ℕ → Option Trace
resident_in_sets nsets sets index = resident_in_set index (get_elem? sets (index % nsets))

abbrev pub resident_at : TraceCache → ℕ → Option Trace
resident_at c = resident_in_sets c.nsets c.sets

mod-lt_pos : (i n : ℕ) → 0 < n → i % n < n
mod-lt_pos i n h = omega arith

-- Under the invariant the set of an index is there.
pub located :
    (c : TraceCache) (index : ℕ)
    → IsValid c
    → (s : TcSet) × (get_elem? c.sets (index % c.nsets) ≡ some s)
      × (locate c index ≡ done s)
      × SetIsValid c.nsets c.nways (index % c.nsets) s
unfolding locate
located c index v =
    let pos = v.some_sets in
    let (s, e) =
      get_elem?-some c.sets (index % c.nsets) (rw v.count (mod-lt_pos index c.nsets pos)) in
    (s, e, ground (arith, e), v.each (index % c.nsets) s e)

module _ {nsets nways : ℕ} {sets : List TcSet} (v : AreValid nsets nways sets) where
  in_range : (index : ℕ) → index % nsets < length sets
  in_range index = let pos = v.some_sets in rw v.count (mod-lt_pos index nsets pos)

  pub set-AreValid :
      (index : ℕ) (s : TcSet)
      → SetIsValid nsets nways (index % nsets) s
      → AreValid nsets nways (set sets (index % nsets) s)
  set-AreValid index s w = record {
    some_sets = v.some_sets;
    count = length-set sets (index % nsets) s ∙ v.count;
    each = λ k u e. elim (ℕ_discrete (index % nsets) k) [
      | yes p ↦
          let at : get_elem? (set sets (index % nsets) s) k ≡ some s =
            subst (λ (j : ℕ). get_elem? (set sets (index % nsets) s) j ≡ some s) p
              (get_elem?-set_self sets (index % nsets) s (in_range index)) in
          let same : s ≡ u = cc in
          subst (λ (u : TcSet). SetIsValid nsets nways k u) same
            (subst (λ (j : ℕ). SetIsValid nsets nways j s) p w)
      | no p ↦ v.each k u (sym (get_elem?-set_ne sets s p) ∙ e)
    ];
  }

  -- What the sets hold after the set of `index` is replaced by `s`.
  pub resident-set_self :
      (index j : ℕ) (s : TcSet)
      → j % nsets ≡ index % nsets
      → resident_in_sets nsets (set sets (index % nsets) s) j ≡ resident j (slots s.ways)
  resident-set_self index j s e =
      rw (e, get_elem?-set_self sets (index % nsets) s (in_range index)) refl

  pub resident-set_ne :
      (index j : ℕ) (s : TcSet)
      → index % nsets ≢ j % nsets
      → resident_in_sets nsets (set sets (index % nsets) s) j ≡ resident_in_sets nsets sets j
  resident-set_ne index j s ne = rw (get_elem?-set_ne sets s ne) refl

  -- A set that holds the same traces makes no difference.
  pub resident-set_same :
      (index : ℕ) (r s : TcSet)
      → get_elem? sets (index % nsets) ≡ some r
      → slots s.ways ≡ slots r.ways
      → (j : ℕ)
      → resident_in_sets nsets (set sets (index % nsets) s) j ≡ resident_in_sets nsets sets j
  resident-set_same index r s e same j = elim (ℕ_discrete (index % nsets) (j % nsets)) [
    | yes p ↦ resident-set_self index j s (sym p) ∙ rw (same, ← p, e) refl
    | no p ↦ resident-set_ne index j s p
  ]
