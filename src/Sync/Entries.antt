-- ===== src/Sync/Entries.antt =====
-- The lists of entries: sorted by index, and what they hold for an index.
use libtrs.Base.{
  ℕ, ◌+◌, ◌<◌, ◌≤◌, ◌≡◌, ◌⊎◌, refl, ◌∙◌, ltb, ◌==◌, ==_iff, ==_refl, Bool-cases, eq_cases, true,
  false, Option, none, some, List, [], ◌∷◌, map, inl, inr, arith,
}
use libtrs.Sync.{Entry, new_entry, find_entry, add_entry, update}

-- Strictly increasing from `b` on.
abbrev pub SortedFrom : ℕ → List Entry → Type 0
SortedFrom b [] = Unit {0}
SortedFrom b (e ∷ es) = (b ≤ e.index) × SortedFrom (e.index + 1) es

pub SortedFrom-le : (a b : ℕ) (es : List Entry) → a ≤ b → SortedFrom b es → SortedFrom a es
SortedFrom-le a b [] h s = tt
SortedFrom-le a b (e ∷ es) h (l, s) = (omega (arith, h, l), s)

find_entry_below : (i b : ℕ) (es : List Entry) → i < b → SortedFrom b es → find_entry i es ≡ none
unfolding find_entry
find_entry_below i b [] h s = refl
find_entry_below i b (e ∷ es) h (l, s) =
    let n : (e.index == i) ≡ false = ground (arith, h, l) in
    rw (n, find_entry_below i (e.index + 1) es (omega (arith, h, l)) s)

-- One more user of an index.
abbrev pub bump : ℕ → Option Entry → Entry
bump i none = new_entry i
bump i (some e) = record e { count = e.count + 1 }

pub find_entry-add_entry :
    (i b : ℕ) (es : List Entry)
    → SortedFrom b es
    → find_entry i (add_entry i es) ≡ some (bump i (find_entry i es))
unfolding find_entry add_entry
find_entry-add_entry i b [] s = rw (==_refl i)
find_entry-add_entry i b (e ∷ es) (l, s) = elim (eq_cases e.index i) [
  | inl q ↦
      let lt : ltb e.index i ≡ false = ground (arith, q) in
      let eq : (e.index == i) ≡ true = ground (arith, q) in rw (lt, eq, eq)
  | inr (inl q) ↦
      let lt : ltb e.index i ≡ true = ground (arith, q) in
      let eq : (e.index == i) ≡ false = ground (arith, q) in
      rw (lt, eq) (find_entry-add_entry i (e.index + 1) es s)
  | inr (inr q) ↦
      let lt : ltb e.index i ≡ false = ground (arith, q) in
      let eq : (e.index == i) ≡ false = ground (arith, q) in
      rw (lt, eq, ==_refl i, find_entry_below i (e.index + 1) es (omega (arith, q)) s)
]

pub find_entry-add_entry_ne :
    (i j : ℕ) (es : List Entry) → (i == j) ≡ false → find_entry j (add_entry i es) ≡ find_entry j es
unfolding find_entry add_entry
find_entry-add_entry_ne i j [] n = rw n
find_entry-add_entry_ne i j (e ∷ es) n = elim (eq_cases e.index i) [
  | inl q ↦
      let lt : ltb e.index i ≡ false = ground (arith, q) in
      let eq : (e.index == i) ≡ true = ground (arith, q) in
      let ne : (e.index == j) ≡ false = ground (arith, q, n) in rw (lt, eq, ne)
  | inr (inl q) ↦
      let lt : ltb e.index i ≡ true = ground (arith, q) in rw (lt, find_entry-add_entry_ne i j es n)
  | inr (inr q) ↦
      let lt : ltb e.index i ≡ false = ground (arith, q) in
      let eq : (e.index == i) ≡ false = ground (arith, q) in rw (lt, eq, n)
]

pub add_entry-SortedFrom :
    (i b : ℕ) (es : List Entry) → b ≤ i → SortedFrom b es → SortedFrom b (add_entry i es)
unfolding add_entry
add_entry-SortedFrom i b [] h s = (h, tt)
add_entry-SortedFrom i b (e ∷ es) h (l, s) = elim (eq_cases e.index i) [
  | inl q ↦
      let lt : ltb e.index i ≡ false = ground (arith, q) in
      let eq : (e.index == i) ≡ true = ground (arith, q) in rw (lt, eq) (l, s)
  | inr (inl q) ↦
      let lt : ltb e.index i ≡ true = ground (arith, q) in
      rw lt (l, add_entry-SortedFrom i (e.index + 1) es (omega (arith, q)) s)
  | inr (inr q) ↦
      let lt : ltb e.index i ≡ false = ground (arith, q) in
      let eq : (e.index == i) ≡ false = ground (arith, q) in rw (lt, eq) (h, (omega (arith, q), s))
]

-- The change keeps the index of an entry.
abbrev pub KeepsIndex : (Entry → Option Entry) → Type 0
KeepsIndex f = (e : Entry) → (f e ≡ none) ⊎ ((e' : Entry) × (f e ≡ some e') × (e'.index ≡ e.index))

abbrev pub and_then : {A : Type 0} → Option A → (A → Option A) → Option A
and_then none f = none
and_then (some a) f = f a

pub find_entry-update :
    (i b : ℕ) (f : Entry → Option Entry) (es : List Entry)
    → KeepsIndex f
    → SortedFrom b es
    → find_entry i (update i f es) ≡ and_then (find_entry i es) f
unfolding find_entry update
find_entry-update i b f [] k s = refl
find_entry-update i b f (e ∷ es) k (l, s) = elim (Bool-cases (e.index == i)) [
  | inl q ↦
      let eq : e.index ≡ i = (==_iff (e.index) i).0 q in
      elim (k e) [
        | inl z ↦ rw (q, z, find_entry_below i (e.index + 1) es (omega (arith, eq)) s)
        | inr (e', z, m) ↦
            let q' : (e'.index == i) ≡ true = (==_iff (e'.index) i).1 (m ∙ eq) in rw (q, z, q')
      ]
  | inr q ↦ rw (q, q, find_entry-update i (e.index + 1) f es k s)
]

pub find_entry-update_ne :
    (i j : ℕ) (f : Entry → Option Entry) (es : List Entry)
    → KeepsIndex f
    → (i == j) ≡ false
    → find_entry j (update i f es) ≡ find_entry j es
unfolding find_entry update
find_entry-update_ne i j f [] k n = refl
find_entry-update_ne i j f (e ∷ es) k n = elim (Bool-cases (e.index == i)) [
  | inl q ↦
      let ne : (e.index == j) ≡ false = ground (arith, q, n) in
      elim (k e) [
        | inl z ↦ rw (q, z, ne)
        | inr (e', z, m) ↦ let ne' : (e'.index == j) ≡ false = rw m ne in rw (q, z, ne, ne')
      ]
  | inr q ↦ rw (q, find_entry-update_ne i j f es k n)
]

pub update-SortedFrom :
    (i b : ℕ) (f : Entry → Option Entry) (es : List Entry)
    → KeepsIndex f
    → SortedFrom b es
    → SortedFrom b (update i f es)
unfolding update
update-SortedFrom i b f [] k s = s
update-SortedFrom i b f (e ∷ es) k (l, s) = elim (Bool-cases (e.index == i)) [
  | inl q ↦ elim (k e) [
    | inl z ↦ rw (q, z) (SortedFrom-le b (e.index + 1) es (omega (arith, l)) s)
    | inr (e', z, m) ↦ rw (q, z, m) (l, s)
  ]
  | inr q ↦ rw q (l, update-SortedFrom i (e.index + 1) f es k s)
]

-- The same change of all entries.
pub find_entry-map :
    (g : Entry → Entry) (i : ℕ) (es : List Entry)
    → ((e : Entry) → (g e).index ≡ e.index)
    → find_entry i (map g es) ≡ and_then (find_entry i es) (λ e. some (g e))
unfolding find_entry
find_entry-map g i [] k = refl
find_entry-map g i (e ∷ es) k = elim (Bool-cases (e.index == i)) [
  | inl q ↦ let q' : ((g e).index == i) ≡ true = rw (k e) q in rw (q, q')
  | inr q ↦ let q' : ((g e).index == i) ≡ false = rw (k e) q in rw (q, q', find_entry-map g i es k)
]

pub map-SortedFrom :
    (g : Entry → Entry) (b : ℕ) (es : List Entry)
    → ((e : Entry) → (g e).index ≡ e.index)
    → SortedFrom b es
    → SortedFrom b (map g es)
map-SortedFrom g b [] k s = s
map-SortedFrom g b (e ∷ es) k (l, s) = rw (k e) (l, map-SortedFrom g (e.index + 1) es k s)
