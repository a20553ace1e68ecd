-- ===== src/Cache/Store.antt =====
-- `tc_store` against what the cache holds.
use libtrs.Base.{
  ℕ, ◌+◌, ◌%◌, ◌<◌, ◌≡◌, refl, ◌≢◌, Bool, true, false, Option, none, some, List, [], ◌∷◌, length,
  get_elem?, arith, sym, ◌∙◌, Option-cases, Bool-cases, inl, inr, ok, err, einval, modify, Returns,
  Returns-if, length-modify, ap, lt-length_of_get_elem?,
}
use native.Mathlib.Decide.{ℕ_discrete}
use mathlib.Core.Path.{subst}
use libtrs.Types.{Trace}
use libtrs.Ways.{Way, update_lru, choose_way}
use libtrs.Ways.Lru.{length-update_lru}
use libtrs.Ways.Choice.{choose_way-some}
use libtrs.Ways.Slots.{
  slots, slot, slot_holds, resident, not_held, resident_held, resident-fresh_ways, taken,
  slots-update_lru, slots-modify, length-slots, get_elem?-slots, resident-taken_self,
  resident-taken_ne, resident-taken_evicted, taken-IsCoherent,
}
use libtrs.Cache.{TcSet, TraceCache, Reply, put_set, fresh_set, fill, evicted, store_in, store}
use libtrs.Cache.Invariant.{
  SetIsValid, IsValid, resident_at, located, set-AreValid, resident-set_self, resident-set_ne,
}
use libtrs.Cache.Lookup.{take_lock_pos, fresh_set-SetIsValid, resident_blank, SetIsValid-same}

-- What `tc_store` frees, and what the cache holds afterwards, for a trace that it has taken:
-- either nothing is lost, or exactly the trace that it frees.
pub data Evicts (held : ℕ → Option Trace) (t : Trace) (now : ℕ → Option Trace)
    : List Trace → Type 0 where
  keeps_all : ((j : ℕ) → j ≢ t.index → now j ≡ held j) → Evicts held t now []
  evicts :
      (u : Trace)
      → held u.index ≡ some u
      → now u.index ≡ none
      → ((j : ℕ) → j ≢ t.index → j ≢ u.index → now j ≡ held j)
      → Evicts held t now (u ∷ [])

-- What `tc_store` promises of a cache that holds `held`.
pub data Stored (held : ℕ → Option Trace) (t : Trace) (r : Reply) : Type 0 where
  full :
      r.status ≡ err einval
      → r.freed ≡ []
      → ((j : ℕ) → resident_at r.cache j ≡ held j)
      → IsValid r.cache
      → Stored held t r
  placed :
      r.status ≡ ok
      → resident_at r.cache t.index ≡ some t
      → Evicts held t (resident_at r.cache) r.freed
      → IsValid r.cache
      → Stored held t r

filled : Trace → ℕ → List Way → List Way
filled t way ws = update_lru (modify way (fill t) ws) way false

slots-filled :
    (t : Trace) (way : ℕ) (ws : List Way)
    → slots (filled t way ws) ≡ modify way (taken t) (slots ws)
unfolding filled fill
slots-filled t way ws =
    slots-update_lru (modify way (fill t) ws) way false
    ∙ slots-modify (fill t) (taken t) (λ w. refl) way ws

length-filled : (t : Trace) (way : ℕ) (ws : List Way) → length (filled t way ws) ≡ length ws
unfolding filled
length-filled t way ws =
    length-update_lru (modify way (fill t) ws) way false ∙ length-modify way (fill t) ws

-- The set that `tc_store` writes into: it holds what the cache holds of its indices, and not the
-- new trace's index.
module _ (c : TraceCache) (s : TcSet) (t : Trace) (v : IsValid c)
    (w : SetIsValid c.nsets c.nways (t.index % c.nsets) s) (init : s.initialized ≡ true)
    (agree : (j : ℕ)
      → j % c.nsets ≡ t.index % c.nsets
      → resident j (slots s.ways) ≡ resident_at c j)
    (absent : resident_at c t.index ≡ none) where
  abbrev after : ℕ → TcSet
  after way = record s { set_lock = s.set_lock + 1; ways = filled t way s.ways }

  absent_here : resident t.index (slots s.ways) ≡ none
  absent_here = agree t.index refl ∙ absent

  after-SetIsValid : (way : ℕ) → SetIsValid c.nsets c.nways (t.index % c.nsets) (after way)
  after-SetIsValid way = record {
    blank = λ e. absurd (cc);
    size = λ _. length-filled t way s.ways ∙ w.size init;
    coherent = rw (slots-filled t way s.ways) (
        taken-IsCoherent t c.nsets (t.index % c.nsets) way (slots s.ways) w.coherent refl
          absent_here);
  }

  -- What the cache holds after the write, at an index of the set and elsewhere.
  after_here :
      (way j : ℕ)
      → j % c.nsets ≡ t.index % c.nsets
      → resident_at (put_set c t.index (after way)) j
        ≡ resident j (modify way (taken t) (slots s.ways))
  after_here way j e =
      resident-set_self v t.index j (after way) e ∙ ap (resident j) (slots-filled t way s.ways)

  after_self :
      (way : ℕ) → way < length s.ways → resident_at (put_set c t.index (after way)) t.index ≡ some t
  after_self way h =
      after_here way t.index refl
      ∙ resident-taken_self t way (slots s.ways) (rw (length-slots s.ways) h) absent_here

  after_kept :
      (way j : ℕ) {u : Way}
      → get_elem? s.ways way ≡ some u
      → j ≢ t.index
      → slot_holds j (slot u) ≡ false
      → resident_at (put_set c t.index (after way)) j ≡ resident_at c j
  after_kept way j {u} e ne h = elim (ℕ_discrete (t.index % c.nsets) (j % c.nsets)) [
    | yes p ↦
        after_here way j (sym p)
        ∙ resident-taken_ne t j way (slots s.ways) (slot u) ne
            (get_elem?-slots s.ways way ∙ rw e refl) h
        ∙ agree j (sym p)
    | no p ↦ resident-set_ne v t.index j (after way) p
  ]

  Evicts-empty :
      (way : ℕ) (u : Way)
      → get_elem? s.ways way ≡ some u
      → u.valid ≡ false
      → Evicts (resident_at c) t (resident_at (put_set c t.index (after way))) (evicted s.ways way)
  unfolding evicted
  Evicts-empty way u e empty =
      rw (e, evicted, empty) (keeps_all (λ j ne. after_kept way j e ne (ground (arith, empty))))

  Evicts-valid :
      (way : ℕ) (u : Way)
      → get_elem? s.ways way ≡ some u
      → u.valid ≡ true
      → Evicts (resident_at c) t (resident_at (put_set c t.index (after way))) (evicted s.ways way)
  unfolding evicted
  Evicts-valid way u e busy =
      let at : get_elem? (slots s.ways) way ≡ some (slot u) =
        get_elem?-slots s.ways way ∙ rw e refl in
      let (x, has, home) = w.coherent.present way (slot u) at busy in
      let holds_x : slot_holds x.index (slot u) ≡ true = ground (arith, busy, has) in
      let found =
        resident_held c.nsets (t.index % c.nsets) x.index way (slots s.ways) (slot u) w.coherent at
          holds_x in
      let ne : x.index ≢ t.index = λ p. cc (
        not_held t.index (slots s.ways) way (slot u) absent_here at,
        subst (λ (i : ℕ). slot_holds i (slot u) ≡ true) p holds_x,
      ) in
      rw (e, evicted, busy, has)
        (evicts x (sym (agree x.index home) ∙ found ∙ has)
          (after_here way x.index home
            ∙ resident-taken_evicted t x.index way (slots s.ways) (slot u) ne at holds_x
                (λ j r g h. w.coherent.unique x.index j way r (slot u) g at h holds_x))
          (λ j a b. after_kept way j e a (ground (arith, has, busy, b))))

  same_after :
      (s' : TcSet)
      → slots s'.ways ≡ slots s.ways
      → (j : ℕ) → resident_at (put_set c t.index s') j ≡ resident_at c j
  same_after s' same j = elim (ℕ_discrete (t.index % c.nsets) (j % c.nsets)) [
    | yes p ↦ resident-set_self v t.index j s' (sym p) ∙ ap (resident j) same ∙ agree j (sym p)
    | no p ↦ resident-set_ne v t.index j s' p
  ]

  store_in-Stored : Stored (resident_at c) t (store_in c s t.index t)
  unfolding store_in filled
  store_in-Stored = elim (Option-cases (choose_way s.ways)) [
    | inl n ↦
        let s' : TcSet = record s { set_lock = s.set_lock + 1 } in
        rw (n, store_in)
          (full refl refl (same_after s' refl)
            (set-AreValid v t.index s' (SetIsValid-same s s' w init init refl refl)))
    | inr ((way, h), q) ↦
        let (u, ch) = choose_way-some s.ways way h q in
        rw (q, store_in)
          (placed refl (after_self way (lt-length_of_get_elem? s.ways way ch.stands))
            (elim (Bool-cases u.valid) [
              | inl busy ↦ Evicts-valid way u ch.stands busy
              | inr empty ↦ Evicts-empty way u ch.stands empty
            ])
            (set-AreValid v t.index (after way) (after-SetIsValid way)))
  ]

-- The locks that `tc_store` takes are free: the cache lock, and the lock of the index's set, which
-- a caller with `keep_lock` already holds.
pub record CanStore (c : TraceCache) (index : ℕ) (keep_lock : Bool) : Type 0 where
  pub cache_free : 0 < c.cache_lock
  pub set_free :
      (s : TcSet)
      → get_elem? c.sets (index % c.nsets) ≡ some s
      → s.initialized ≡ true
      → keep_lock ≡ false
      → 0 < s.set_lock

-- With the locks that it takes free, memory for a new set, a valid cache and nothing held for the
-- index of the trace, tc_store returns. Either it refuses with EINVAL, frees nothing, and the cache
-- holds what it held; or the cache holds the trace for its index, and for every other index what it
-- held, but for the one trace that it frees, if it frees one. The cache is valid again.
pub store-Stored :
    (c : TraceCache) (t : Trace) (keep_lock : Bool)
    → IsValid c
    → CanStore c t.index keep_lock
    → resident_at c t.index ≡ none
    → Returns (store false c t.index t keep_lock) (Stored (resident_at c) t)
unfolding store
store-Stored c t keep_lock v free absent =
    let (s, e, q, w) = located c t.index v in
    let (n, l, _) = take_lock_pos c.cache_lock free.cache_free in
    let P = Stored (resident_at c) t in
    rw (q, l)
      (Returns-if P s.initialized _ _
        (λ old.
          Returns-if P keep_lock _ _
            (λ keep. store_in-Stored c s t v w old (λ j p. rw (p, e) refl) absent)
            (λ drop.
              let (m, k, _) = take_lock_pos s.set_lock (free.set_free s e old drop) in
              rw k (
                store_in-Stored c (record s { set_lock = m }) t v
                  (SetIsValid-same s (record s { set_lock = m }) w old old refl refl) old
                  (λ j p. rw (p, e) refl) absent)))
        (λ new.
          store_in-Stored c (record (fresh_set c.nways) { set_lock = 0 }) t v
            (fresh_set-SetIsValid c.nsets c.nways (t.index % c.nsets) 0) refl
            (λ j p. resident-fresh_ways j c.nways ∙ sym (resident_blank c s t.index v e new j p))
            absent))

pub Stored-IsValid :
    {held : ℕ → Option Trace} {t : Trace} {r : Reply} → Stored held t r → IsValid r.cache
Stored-IsValid (full a b k v) = v
Stored-IsValid (placed a h e v) = v
