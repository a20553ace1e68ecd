-- ===== src/Ways/Slots.antt =====
-- What the ways of a set hold, with ranks and reference counts forgotten.
use libtrs.Base.{
  ℕ, zero, suc, ◌+◌, ◌%◌, ◌<◌, ◌≡◌, refl, ◌≢◌, ◌==◌, if◌then◌else◌, Bool, true, false, ◌&&◌, Option,
  none, some, List, [], ◌∷◌, length, get_elem?, modify, find_index, arith, ap, Bool-cases,
  Option-cases, map, inl, inr, get_elem?-modify_ne, sym, ◌∙◌, ◌⊎◌,
}
use libtrs.Types.{Trace}
use libtrs.Ways.{Way, update_lru_from, update_lru, fresh_ways, holds}
use native.Mathlib.Decide.{ℕ_discrete}
use mathlib.Core.Path.{subst}
use mathlib.Core.Option

abbrev pub Slot : Type 0
Slot = Bool × Option Trace

abbrev pub slot : Way → Slot
slot w = (w.valid, w.trace)

abbrev pub slots : List Way → List Slot
slots = map slot

-- `holds`, of a slot.
abbrev pub slot_holds : ℕ → Slot → Bool
slot_holds index (valid, trace) = valid && elim trace [ none ↦ false | some t ↦ t.index == index ]

-- The trace that a set holds for an index, if it holds one: what `tc_lookup` promises to find.
unfoldable pub resident : ℕ → List Slot → Option Trace
resident index [] = none
resident index (s ∷ sl) = if slot_holds index s then s.1 else resident index sl

pub resident-nil : (index : ℕ) → resident index [] ≡ none
unfolding resident
resident-nil index = refl

slots-update_lru_from :
    (i way thresh : ℕ) (hit : Bool) (ws : List Way)
    → slots (update_lru_from i way thresh hit ws) ≡ slots ws
unfolding update_lru_from
slots-update_lru_from i way thresh hit [] = refl
slots-update_lru_from i way thresh hit (w ∷ ws) =
    ap (◌∷◌ (slot w)) (slots-update_lru_from (i + 1) way thresh hit ws)

-- Ranks are all that `__update_lru` changes.
pub slots-update_lru :
    (ws : List Way) (way : ℕ) (hit : Bool) → slots (update_lru ws way hit) ≡ slots ws
unfolding update_lru
slots-update_lru ws way hit = elim (Option-cases (get_elem? ws way)) [
  | inl e ↦ rw (e, update_lru) refl
  | inr (w, e) ↦ rw (e, update_lru) (slots-update_lru_from 0 way w.lru hit ws)
]

pub slots-modify :
    (f : Way → Way) (g : Slot → Slot)
    → ((w : Way) → slot (f w) ≡ g (slot w))
    → (i : ℕ) (ws : List Way) → slots (modify i f ws) ≡ modify i g (slots ws)
slots-modify f g same i [] = refl
slots-modify f g same zero (w ∷ ws) = ap (λ (s : Slot). s ∷ slots ws) (same w)
slots-modify f g same (suc i) (w ∷ ws) = ap (◌∷◌ (slot w)) (slots-modify f g same i ws)

pub slots-modify_same :
    (f : Way → Way)
    → ((w : Way) → slot (f w) ≡ slot w)
    → (i : ℕ) (ws : List Way) → slots (modify i f ws) ≡ slots ws
slots-modify_same f same i [] = refl
slots-modify_same f same zero (w ∷ ws) = ap (λ (s : Slot). s ∷ slots ws) (same w)
slots-modify_same f same (suc i) (w ∷ ws) = ap (◌∷◌ (slot w)) (slots-modify_same f same i ws)

pub get_elem?-slots :
    (ws : List Way) (i : ℕ) → get_elem? (slots ws) i ≡ Option.map slot (get_elem? ws i)
get_elem?-slots [] i = refl
get_elem?-slots (w ∷ ws) zero = refl
get_elem?-slots (w ∷ ws) (suc i) = get_elem?-slots ws i

pub length-slots : (ws : List Way) → length (slots ws) ≡ length ws
length-slots [] = refl
length-slots (w ∷ ws) = ap suc (length-slots ws)

-- The scan of `tc_lookup` and `tc_deref` misses when nothing is resident, ...
pub find_index_miss :
    (index : ℕ) (ws : List Way)
    → find_index (holds index) ws ≡ none
    → resident index (slots ws) ≡ none
unfolding resident holds
find_index_miss index [] e = refl
find_index_miss index (w ∷ ws) e = elim (Bool-cases (holds index w)) [
  | inl t ↦ absurd (ground (arith, e, t))
  | inr f ↦ ground (arith, e, f, find_index_miss index ws)
]

-- ... and otherwise stops at the way of the resident trace.
pub find_index_hit :
    (index : ℕ) (ws : List Way) (i : ℕ)
    → find_index (holds index) ws ≡ some i
    → (w : Way) × (get_elem? ws i ≡ some w)
      × (holds index w ≡ true)
      × (resident index (slots ws) ≡ w.trace)
unfolding resident holds
find_index_hit index [] i e = absurd (cc)
find_index_hit index (w ∷ ws) zero e = elim (Bool-cases (holds index w)) [
  | inl t ↦ (w, refl, t, ground (arith, t))
  | inr f ↦ absurd (ground (arith, e, f))
]
find_index_hit index (w ∷ ws) (suc i) e = elim (Bool-cases (holds index w)) [
  | inl t ↦ absurd (ground (arith, e, t))
  | inr f ↦
      let (v, a, b, c) = find_index_hit index ws i (ground (arith, e, f)) in
      (v, a, b, ground (arith, f, c))
]

pub holds-some :
    (index : ℕ) (w : Way)
    → holds index w ≡ true
    → (t : Trace) × (w.trace ≡ some t) × (t.index ≡ index)
unfolding holds
holds-some index w h = ground arith

-- Set `k` of `nsets`: a valid way has a trace, whose index belongs to the set, and no index is
-- held twice.
pub record IsCoherent (nsets k : ℕ) (sl : List Slot) : Type 0 where
  pub present :
      (j : ℕ) (s : Slot)
      → get_elem? sl j ≡ some s
      → s.0 ≡ true
      → (t : Trace) × (s.1 ≡ some t) × (t.index % nsets ≡ k)
  pub unique :
      (index i j : ℕ) (r s : Slot)
      → get_elem? sl i ≡ some r
      → get_elem? sl j ≡ some s
      → slot_holds index r ≡ true
      → slot_holds index s ≡ true
      → i ≡ j

pub resident-none :
    (index : ℕ) (sl : List Slot)
    → ((j : ℕ) (s : Slot) → get_elem? sl j ≡ some s → slot_holds index s ≡ false)
    → resident index sl ≡ none
unfolding resident
resident-none index [] all = refl
resident-none index (s ∷ sl) all =
    rw (all 0 s refl) (resident-none index sl (λ j u e. all (suc j) u e))

held_none :
    (index : ℕ) (b : Bool) (o rest : Option Trace)
    → (if slot_holds index (b, o) then o else rest) ≡ none
    → (slot_holds index (b, o) ≡ false) × (rest ≡ none)
held_none index false o rest e = (refl, e)
held_none index true none rest e = (refl, e)
held_none index true (some t) rest e = ground arith

pub not_held :
    (index : ℕ) (sl : List Slot) (j : ℕ) (s : Slot)
    → resident index sl ≡ none
    → get_elem? sl j ≡ some s
    → slot_holds index s ≡ false
unfolding resident
not_held index [] j s e g = absurd (cc)
not_held index ((b, o) ∷ sl) zero s e g =
    let same : (b, o) ≡ s = cc in
    subst (λ (u : Slot). slot_holds index u ≡ false) same
      (held_none index b o (resident index sl) e).0
not_held index ((b, o) ∷ sl) (suc j) s e g =
    not_held index sl j s (held_none index b o (resident index sl) e).1 g

-- A trace is found only where a slot holds it.
pub resident-some :
    (index : ℕ) (sl : List Slot) {t : Trace}
    → resident index sl ≡ some t
    → (j : ℕ) × (s : Slot) × (get_elem? sl j ≡ some s)
      × (slot_holds index s ≡ true)
      × (s.1 ≡ some t)
unfolding resident
resident-some index [] e = absurd (cc)
resident-some index (s ∷ sl) e = elim (Bool-cases (slot_holds index s)) [
  | inl h ↦ (0, s, refl, h, rw h at e)
  | inr h ↦ let (j, u, a, b, c) = resident-some index sl (rw h at e) in (suc j, u, a, b, c)
]

-- Under the invariant the trace of a slot that holds an index is the one found.
pub resident_held :
    (nsets k index way : ℕ) (sl : List Slot) (s : Slot)
    → IsCoherent nsets k sl
    → get_elem? sl way ≡ some s
    → slot_holds index s ≡ true
    → resident index sl ≡ s.1
resident_held nsets k index way sl s c e h = elim (Option-cases (resident index sl)) [
  | inl n ↦ absurd (cc (not_held index sl way s n e, h))
  | inr (t, q) ↦
      let (j, r, a, b, d) = resident-some index sl q in
      let same : j ≡ way = c.unique index j way r s a e b h in
      let at : get_elem? sl way ≡ some r = subst (λ (i : ℕ). get_elem? sl i ≡ some r) same a in
      let same' : r ≡ s = cc in q ∙ sym (subst (λ (u : Slot). u.1 ≡ some t) same' d)
]

pub resident_index :
    (index : ℕ) (sl : List Slot) {t : Trace} → resident index sl ≡ some t → t.index ≡ index
resident_index index sl e = let (j, s, a, b, d) = resident-some index sl e in ground (arith, b, d)

-- The slot after `tc_store` has written `t` into it.
abbrev pub taken : Trace → Slot → Slot
taken t _ = (true, some t)

module _ (t : Trace) where
  pub resident-taken_self :
      (way : ℕ) (sl : List Slot)
      → way < length sl
      → resident t.index sl ≡ none
      → resident t.index (modify way (taken t) sl) ≡ some t
  unfolding resident
  resident-taken_self way [] h e = absurd (omega arith)
  resident-taken_self zero (s ∷ sl) h e = ground arith
  resident-taken_self (suc way) ((b, o) ∷ sl) h e =
      let p = held_none t.index b o (resident t.index sl) e in
      rw p.0 (resident-taken_self way sl (omega arith) p.1)

  pub resident-taken_ne :
      (index way : ℕ) (sl : List Slot) (s : Slot)
      → index ≢ t.index
      → get_elem? sl way ≡ some s
      → slot_holds index s ≡ false
      → resident index (modify way (taken t) sl) ≡ resident index sl
  unfolding resident
  resident-taken_ne index way [] s ne e h = refl
  resident-taken_ne index zero (r ∷ sl) s ne e h =
      let same : s ≡ r = cc in
      let h' : slot_holds index r ≡ false =
        subst (λ (u : Slot). slot_holds index u ≡ false) same h in
      rw h' (ground arith)
  resident-taken_ne index (suc way) (r ∷ sl) s ne e h = rw (resident-taken_ne index way sl s ne e h)

  written :
      (way : ℕ) (sl : List Slot) (s : Slot)
      → get_elem? (modify way (taken t) sl) way ≡ some s
      → s ≡ (true, some t)
  written way [] s e = absurd (cc)
  written zero (r ∷ sl) s e = cc
  written (suc way) (r ∷ sl) s e = written way sl s e

  clash :
      (index : ℕ) (r s : Slot)
      → r ≡ (true, some t)
      → slot_holds index r ≡ true
      → slot_holds index s ≡ true
      → slot_holds t.index s ≡ false
      → ⊥
  clash index r s e hr hs absent =
      let hr' : slot_holds index (true, some t) ≡ true =
        subst (λ (u : Slot). slot_holds index u ≡ true) e hr in
      let same : t.index ≡ index = ground (arith, hr') in
      let hs' : slot_holds t.index s ≡ true =
        subst (λ (k : ℕ). slot_holds k s ≡ true) (sym same) hs in
      cc (hs', absent)

  get_elem?-taken :
      (way j : ℕ) (sl : List Slot) (s : Slot)
      → get_elem? (modify way (taken t) sl) j ≡ some s
      → ((j ≡ way) × (s ≡ (true, some t))) ⊎ ((j ≢ way) × (get_elem? sl j ≡ some s))
  get_elem?-taken way j sl s e = elim (ℕ_discrete way j) [
    | yes p ↦
        let at : get_elem? (modify way (taken t) sl) way ≡ some s =
          subst (λ (k : ℕ). get_elem? (modify way (taken t) sl) k ≡ some s) (sym p) e in
        inl (sym p, written way sl s at)
    | no p ↦ inr ((λ q. p (sym q)), sym (get_elem?-modify_ne way j (taken t) sl p) ∙ e)
  ]

  pub resident-taken_evicted :
      (index way : ℕ) (sl : List Slot) (s : Slot)
      → index ≢ t.index
      → get_elem? sl way ≡ some s
      → slot_holds index s ≡ true
      → ((j : ℕ) (u : Slot) → get_elem? sl j ≡ some u → slot_holds index u ≡ true → j ≡ way)
      → resident index (modify way (taken t) sl) ≡ none
  resident-taken_evicted index way sl s ne e h once =
      resident-none index (modify way (taken t) sl) (λ j u g. elim (get_elem?-taken way j sl u g) [
        | inl (a, b) ↦ ground (arith, b)
        | inr (a, b) ↦ elim (Bool-cases (slot_holds index u)) [
          | inl c ↦ absurd (a (once j u b c))
          | inr c ↦ c
        ]
      ])

  pub taken-IsCoherent :
      (nsets k way : ℕ) (sl : List Slot)
      → IsCoherent nsets k sl
      → t.index % nsets ≡ k
      → resident t.index sl ≡ none
      → IsCoherent nsets k (modify way (taken t) sl)
  taken-IsCoherent nsets k way sl c home absent = record {
    present = λ j s g v. elim (get_elem?-taken way j sl s g) [
      | inl (a, b) ↦ (t, ap (λ (u : Slot). u.1) b, home)
      | inr (a, b) ↦ c.present j s b v
    ];
    unique = λ index i j r s gr gs hr hs. elim (get_elem?-taken way i sl r gr) [
      | inl (a, b) ↦ elim (get_elem?-taken way j sl s gs) [
        | inl (a', b') ↦ omega arith
        | inr (a', b') ↦ absurd (clash index r s b hr hs (not_held t.index sl j s absent b'))
      ]
      | inr (a, b) ↦ elim (get_elem?-taken way j sl s gs) [
        | inl (a', b') ↦ absurd (clash index s r b' hs hr (not_held t.index sl i r absent b))
        | inr (a', b') ↦ c.unique index i j r s b b' hr hs
      ]
    ];
  }

-- A new set holds nothing.
pub resident-fresh_ways : (index n : ℕ) → resident index (slots (fresh_ways n)) ≡ none
unfolding resident fresh_ways
resident-fresh_ways index zero = refl
resident-fresh_ways index (suc n) = resident-fresh_ways index n

empty-fresh_ways : (n j : ℕ) (s : Slot) → get_elem? (slots (fresh_ways n)) j ≡ some s → s.0 ≡ false
unfolding fresh_ways
empty-fresh_ways zero j s e = absurd (cc)
empty-fresh_ways (suc n) zero s e =
    let same : (false, none) ≡ s = cc in sym (ap (λ (u : Slot). u.0) same)
empty-fresh_ways (suc n) (suc j) s e = empty-fresh_ways n j s e

pub fresh_ways-IsCoherent : (nsets k n : ℕ) → IsCoherent nsets k (slots (fresh_ways n))
fresh_ways-IsCoherent nsets k n = record {
  present = λ j s e v. absurd (cc (empty-fresh_ways n j s e, v));
  unique = λ index i j r s er es hr hs. absurd (ground (arith, empty-fresh_ways n i r er, hr));
}
