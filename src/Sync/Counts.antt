-- ===== src/Sync/Counts.antt =====
-- How many threads are at an index, and what the entries of the lists say of it.
use mathlib.Core.Path.{subst}
use libtrs.Base.{
  ℕ, ◌+◌, ◌-◌, ◌<◌, ◌≡◌, refl, sym, ap, ◌∙◌, ◌==◌, ==_refl, ==_iff, Bool-cases, Option, none, some,
  List, inl, inr, arith, bit,
}
use libtrs.Sync.{Entry, find_entry, add_entry, update, release_entry}
use libtrs.Sync.Entries.{
  SortedFrom, bump, KeepsIndex, find_entry-add_entry, find_entry-add_entry_ne, add_entry-SortedFrom,
  find_entry-update, find_entry-update_ne, update-SortedFrom,
}
use libtrs.Sync.Threads.{Thread, ready, stalled, woken, inside, left, ended}

-- Requests that are not ended, for ever if the passthrough has failed.
abbrev pub holds : ℕ → Thread → ℕ
holds j (inside i) = bit (i == j)
holds j (left i) = bit (i == j)
holds j (ready i) = 0
holds j (stalled i) = 0
holds j (woken i) = 0
holds j (ended st) = 0

-- Threads in `__stall`.
abbrev pub waits : ℕ → Thread → ℕ
waits j (stalled i) = bit (i == j)
waits j (woken i) = bit (i == j)
waits j (ready i) = 0
waits j (inside i) = 0
waits j (left i) = 0
waits j (ended st) = 0

-- Those that have taken the signal, and not the lock yet.
abbrev pub wakeful : ℕ → Thread → ℕ
wakeful j (woken i) = bit (i == j)
wakeful j (stalled i) = 0
wakeful j (ready i) = 0
wakeful j (inside i) = 0
wakeful j (left i) = 0
wakeful j (ended st) = 0

-- The entry of an index counts the threads.
abbrev pub Tally : Option Entry → ℕ → Type 0
Tally none n = n ≡ 0
Tally (some e) n = (e.count ≡ n) × (0 < n)

-- The flag is set exactly when one signal is out: posted, or taken by a thread that has not the lock.
abbrev pub Signals : Option Entry → ℕ → Type 0
Signals none n = n ≡ 0
Signals (some e) n = e.signal + n ≡ bit e.signalled

-- A list of requests with `n j` threads at each index `j`.
pub record Requests (es : List Entry) (n : ℕ → ℕ) : Type 0 where
  pub sorted : SortedFrom 0 es
  pub tally : (j : ℕ) → Tally (find_entry j es) (n j)

-- A list of stalled threads, of which `w j` are awake.
pub record Waiting (es : List Entry) (n w : ℕ → ℕ) : Type 0 where
  pub sorted : SortedFrom 0 es
  pub tally : (j : ℕ) → Tally (find_entry j es) (n j)
  pub signals : (j : ℕ) → Signals (find_entry j es) (w j)

pub Tally-bump : (i n m : ℕ) (o : Option Entry) → Tally o n → m ≡ n + 1 → Tally (some (bump i o)) m
Tally-bump i n m none h e = (omega (arith, h, e), omega (arith, e))
Tally-bump i n m (some x) (h, p) e = (omega (arith, h, e), omega (arith, e))

pub Tally-release_entry :
    (n m : ℕ) (x : Entry) → Tally (some x) n → m + 1 ≡ n → Tally (release_entry x) m
unfolding release_entry
Tally-release_entry n m x (h, p) e = elim (Bool-cases (x.count - 1 == 0)) [
  | inl z ↦ rw z (ground (arith, h, e, z))
  | inr z ↦ rw z (omega (arith, h, e), ground (arith, h, e, z))
]

pub release_entry-KeepsIndex : KeepsIndex release_entry
unfolding release_entry
release_entry-KeepsIndex x = elim (Bool-cases (x.count - 1 == 0)) [
  | inl z ↦ inl (rw z)
  | inr z ↦ inr (record x { count = x.count - 1 }, rw z, refl)
]

pub add_entry-Requests :
    (i : ℕ) (es : List Entry) (n m : ℕ → ℕ)
    → Requests es n
    → ((j : ℕ) → m j ≡ n j + bit (i == j))
    → Requests (add_entry i es) m
add_entry-Requests i es n m r h = record {
  sorted = add_entry-SortedFrom i 0 es (omega arith) r.sorted;
  tally = λ j. elim (Bool-cases (i == j)) [
    | inl q ↦
        let e : i ≡ j = (==_iff i j).0 q in
        let s : m i ≡ n i + 1 = h i ∙ rw (==_refl i) in
        rw (sym e, find_entry-add_entry i 0 es r.sorted)
          (Tally-bump i (n i) (m i) (find_entry i es) (r.tally i) s)
    | inr q ↦
        let s : m j ≡ n j = h j ∙ rw q (omega arith) in
        rw (find_entry-add_entry_ne i j es q, s) (r.tally j)
  ];
}

pub release_entry-Requests :
    (i : ℕ) (es : List Entry) (n m : ℕ → ℕ) (x : Entry)
    → Requests es n
    → find_entry i es ≡ some x
    → ((j : ℕ) → m j + bit (i == j) ≡ n j)
    → Requests (update i release_entry es) m
release_entry-Requests i es n m x r f h = record {
  sorted = update-SortedFrom i 0 release_entry es release_entry-KeepsIndex r.sorted;
  tally = λ j. elim (Bool-cases (i == j)) [
    | inl q ↦
        let e : i ≡ j = (==_iff i j).0 q in
        let t : Tally (some x) (n i) = subst (λ o. Tally o (n i)) f (r.tally i) in
        let s : m i + 1 ≡ n i = ap (λ b. m i + bit b) (sym (==_refl i)) ∙ h i in
        rw (sym e, find_entry-update i 0 release_entry es release_entry-KeepsIndex r.sorted, f)
          (Tally-release_entry (n i) (m i) x t s)
    | inr q ↦
        let s : m j ≡ n j = omega (arith, ap (λ b. m j + bit b) (sym q) ∙ h j) in
        rw (find_entry-update_ne i j release_entry es release_entry-KeepsIndex q, s) (r.tally j)
  ];
}
