-- ===== src/Cache/Users.antt =====
-- The reference count that a cache has for an index, and `refcount[i]--` of `tc_deref`.
use libtrs.Base.{
  ℕ, zero, suc, ◌%◌, ◌≡◌, ◌≢◌, refl, ap, if◌then◌else◌, Bool-cases, inl, inr, true, false, Option,
  none, some, List, [], ◌∷◌, get_elem?, set, modify, find_index, dec_u8, get_elem?-set_self,
  get_elem?-set_ne, lt-length_of_get_elem?, arith,
}
use mathlib.Core.Option
use libtrs.Ways.{Way, holds}
use libtrs.Ways.Slots.{holds-some}
use libtrs.Cache.{TcSet, TraceCache, drop_ref}

-- The count of the way that holds an index.
unfoldable pub users : ℕ → List Way → Option ℕ
users index [] = none
users index (w ∷ ws) = if holds index w then some w.refcount else users index ws

abbrev pub users_in_set : ℕ → Option TcSet → Option ℕ
users_in_set index none = none
users_in_set index (some s) = users index s.ways

abbrev pub users_at : TraceCache → ℕ → Option ℕ
users_at c j = users_in_set j (get_elem? c.sets (j % c.nsets))

holds-drop_ref : (j : ℕ) (w : Way) → holds j (drop_ref w) ≡ holds j w
unfolding holds drop_ref
holds-drop_ref j w = refl

pub users-drop_ref :
    (index : ℕ) (ws : List Way) (i : ℕ)
    → find_index (holds index) ws ≡ some i
    → users index (modify i drop_ref ws) ≡ Option.map dec_u8 (users index ws)
unfolding users drop_ref
users-drop_ref index [] i e = absurd cc
users-drop_ref index (w ∷ ws) zero e = elim (Bool-cases (holds index w)) [
  | inl h ↦ rw (holds-drop_ref index w, h) refl
  | inr h ↦ absurd (ground (arith, e, h))
]
users-drop_ref index (w ∷ ws) (suc i) e = elim (Bool-cases (holds index w)) [
  | inl h ↦ absurd (ground (arith, e, h))
  | inr h ↦ rw h (users-drop_ref index ws i (ground (arith, e, h)))
]

-- A way does not hold two indices.
other_index : (index j : ℕ) (w : Way) → holds index w ≡ true → index ≢ j → holds j w ≡ false
other_index index j w h n = elim (Bool-cases (holds j w)) [
  | inr f ↦ f
  | inl t ↦
      let (x, a, b) = holds-some index w h in
      let (y, c, d) = holds-some j w t in absurd (n (cc (a, b, c, d)))
]

pub users-drop_ref_ne :
    (index j : ℕ) (ws : List Way) (i : ℕ)
    → find_index (holds index) ws ≡ some i
    → index ≢ j
    → users j (modify i drop_ref ws) ≡ users j ws
unfolding users drop_ref
users-drop_ref_ne index j [] i e n = refl
users-drop_ref_ne index j (w ∷ ws) zero e n = elim (Bool-cases (holds index w)) [
  | inl h ↦ let o = other_index index j w h n in rw (holds-drop_ref j w, o) refl
  | inr h ↦ absurd (ground (arith, e, h))
]
users-drop_ref_ne index j (w ∷ ws) (suc i) e n = elim (Bool-cases (holds index w)) [
  | inl h ↦ absurd (ground (arith, e, h))
  | inr h ↦
      ap (λ o. if holds j w then some w.refcount else o)
        (users-drop_ref_ne index j ws i (ground (arith, e, h)) n)
]

module _ (nsets : ℕ) (sets : List TcSet) (index : ℕ) (r s : TcSet)
    (e : get_elem? sets (index % nsets) ≡ some r) where
  -- After the set of an index is replaced.
  pub users-set_self :
      (j : ℕ)
      → j % nsets ≡ index % nsets
      → users_in_set j (get_elem? (set sets (index % nsets) s) (j % nsets)) ≡ users j s.ways
  users-set_self j same =
      rw
        (
          same,
          get_elem?-set_self sets (index % nsets) s (lt-length_of_get_elem? sets (index % nsets) e),
        )
        refl

  pub users-set_ne :
      (j : ℕ)
      → index % nsets ≢ j % nsets
      → users_in_set j (get_elem? (set sets (index % nsets) s) (j % nsets))
        ≡ users_in_set j (get_elem? sets (j % nsets))
  users-set_ne j n = rw (get_elem?-set_ne sets s n) refl
