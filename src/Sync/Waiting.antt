-- ===== src/Sync/Waiting.antt =====
-- The list of those that wait: what each operation on it does to the counts and the signals.
use mathlib.Core.Path.{subst}
use libtrs.Base.{
  bit, ℕ, ◌+◌, ◌-◌, ◌<◌, ◌≤◌, ◌≡◌, refl, sym, ap, ◌∙◌, ◌==◌, ==_refl, ==_iff, Bool-cases, and_true,
  map, not, ◌&&◌, leb, ◌^◌, ◌%◌, Bool, true, false, Option, none, some, List, inl, inr, arith,
}
use libtrs.Sync.{Entry, find_entry, add_entry, update, release_entry, unsignal, notify, take_signal}
use libtrs.Sync.Entries.{
  SortedFrom, bump, KeepsIndex, and_then, find_entry-add_entry, find_entry-add_entry_ne,
  add_entry-SortedFrom, find_entry-update, find_entry-update_ne, update-SortedFrom, find_entry-map,
  map-SortedFrom,
}
use libtrs.Sync.Counts.{Tally, Signals, Waiting, Tally-bump, Tally-release_entry}

Signals-bump : (i w : ℕ) (o : Option Entry) → Signals o w → Signals (some (bump i o)) w
Signals-bump i w none h = omega (arith, h)
Signals-bump i w (some x) h = h

-- A change of the entry of one index, with the counts of the other indices as they were.
change-Waiting :
    (i : ℕ) (es es' : List Entry) (n n' w w' : ℕ → ℕ) (o : Option Entry)
    → Waiting es n w
    → SortedFrom 0 es'
    → find_entry i es' ≡ o
    → ((j : ℕ) → (i == j) ≡ false → find_entry j es' ≡ find_entry j es)
    → ((j : ℕ) → (i == j) ≡ false → (n' j ≡ n j) × (w' j ≡ w j))
    → Tally o (n' i)
    → Signals o (w' i)
    → Waiting es' n' w'
change-Waiting i es es' n n' w w' o r s f other counts t g = record {
  sorted = s;
  tally = λ j. elim (Bool-cases (i == j)) [
    | inl q ↦ rw (sym ((==_iff i j).0 q), f) t
    | inr q ↦ rw (other j q, (counts j q).0) (r.tally j)
  ];
  signals = λ j. elim (Bool-cases (i == j)) [
    | inl q ↦ rw (sym ((==_iff i j).0 q), f) g
    | inr q ↦ rw (other j q, (counts j q).1) (r.signals j)
  ];
}

more_same : (i j n m : ℕ) → m ≡ n + bit (i == j) → (i == j) ≡ false → m ≡ n
more_same i j n m h q = h ∙ rw q (omega arith)

less_same : (i j n m : ℕ) → m + bit (i == j) ≡ n → (i == j) ≡ false → m ≡ n
less_same i j n m h q = omega (arith, ap (λ b. m + bit b) (sym q) ∙ h)

pub more_self : (i n m : ℕ) → m ≡ n + bit (i == i) → m ≡ n + 1
more_self i n m h = h ∙ rw (==_refl i)

pub less_self : (i n m : ℕ) → m + bit (i == i) ≡ n → m + 1 ≡ n
less_self i n m h = ap (λ b. m + bit b) (sym (==_refl i)) ∙ h

pub add_entry-Waiting :
    (i : ℕ) (es : List Entry) (n m w : ℕ → ℕ)
    → Waiting es n w
    → ((j : ℕ) → m j ≡ n j + bit (i == j))
    → Waiting (add_entry i es) m w
add_entry-Waiting i es n m w r h =
    change-Waiting i es (add_entry i es) n m w w (some (bump i (find_entry i es))) r
      (add_entry-SortedFrom i 0 es (omega arith) r.sorted) (find_entry-add_entry i 0 es r.sorted)
      (λ j q. find_entry-add_entry_ne i j es q) (λ j q. (more_same i j (n j) (m j) (h j) q, refl))
      (Tally-bump i (n i) (m i) (find_entry i es) (r.tally i) (more_self i (n i) (m i) (h i)))
      (Signals-bump i (w i) (find_entry i es) (r.signals i))

-- The change of the entry that there is, by a function that keeps the index.
update-Waiting :
    (i : ℕ) (f : Entry → Option Entry) (es : List Entry) (n n' w w' : ℕ → ℕ) (x : Entry)
    → KeepsIndex f
    → Waiting es n w
    → find_entry i es ≡ some x
    → ((j : ℕ) → (i == j) ≡ false → (n' j ≡ n j) × (w' j ≡ w j))
    → Tally (f x) (n' i)
    → Signals (f x) (w' i)
    → Waiting (update i f es) n' w'
update-Waiting i f es n n' w w' x k r e counts t g =
    change-Waiting i es (update i f es) n n' w w' (f x) r (update-SortedFrom i 0 f es k r.sorted)
      (find_entry-update i 0 f es k r.sorted ∙ ap (λ o. and_then o f) e)
      (λ j q. find_entry-update_ne i j f es k q) counts t g

pub take_signal-Waiting :
    (i : ℕ) (es : List Entry) (n w w' : ℕ → ℕ) (x : Entry)
    → Waiting es n w
    → find_entry i es ≡ some x
    → (x.signal == 0) ≡ false
    → ((j : ℕ) → w' j ≡ w j + bit (i == j))
    → Waiting (update i take_signal es) n w'
take_signal-Waiting i es n w w' x r e z h =
    let t : Tally (some x) (n i) = subst (λ o. Tally o (n i)) e (r.tally i) in
    let g : Signals (some x) (w i) = subst (λ o. Signals o (w i)) e (r.signals i) in
    let s = more_self i (w i) (w' i) (h i) in
    let p : 0 < x.signal = ground (arith, z) in
    update-Waiting i take_signal es n n w w' x
      (λ u. inr (record u { signal = u.signal - 1 }, refl, refl)) r e
      (λ j q. (refl, more_same i j (w j) (w' j) (h j) q)) t (omega (arith, g, s, p))

unsignal-KeepsIndex : KeepsIndex unsignal
unfolding unsignal release_entry
unsignal-KeepsIndex x = elim (Bool-cases (x.count - 1 == 0)) [
  | inl z ↦ inl (rw z)
  | inr z ↦ inr (record x { count = x.count - 1; signalled = false }, rw z, refl)
]

bit_le : (b : Bool) → bit b ≤ 1
bit_le true = omega arith
bit_le false = omega arith

Signals-unsignal :
    (w w' : ℕ) (x : Entry) → Signals (some x) w → w' + 1 ≡ w → Signals (unsignal x) w'
unfolding unsignal release_entry
Signals-unsignal w w' x g h =
    let b = bit_le x.signalled in
    elim (Bool-cases (x.count - 1 == 0)) [
      | inl z ↦ rw z (omega (arith, g, h, b))
      | inr z ↦ rw z (omega (arith, g, h, b))
    ]

Tally-unsignal : (n n' : ℕ) (x : Entry) → Tally (some x) n → n' + 1 ≡ n → Tally (unsignal x) n'
unfolding unsignal
Tally-unsignal n n' x t h = Tally-release_entry n n' (record x { signalled = false }) t h

pub unsignal-Waiting :
    (i : ℕ) (es : List Entry) (n n' w w' : ℕ → ℕ) (x : Entry)
    → Waiting es n w
    → find_entry i es ≡ some x
    → ((j : ℕ) → n' j + bit (i == j) ≡ n j)
    → ((j : ℕ) → w' j + bit (i == j) ≡ w j)
    → Waiting (update i unsignal es) n' w'
unsignal-Waiting i es n n' w w' x r e hn hw =
    let t : Tally (some x) (n i) = subst (λ o. Tally o (n i)) e (r.tally i) in
    let g : Signals (some x) (w i) = subst (λ o. Signals o (w i)) e (r.signals i) in
    update-Waiting i unsignal es n n' w w' x unsignal-KeepsIndex r e
      (λ j q. (less_same i j (n j) (n' j) (hn j) q, less_same i j (w j) (w' j) (hw j) q))
      (Tally-unsignal (n i) (n' i) x t (less_self i (n i) (n' i) (hn i)))
      (Signals-unsignal (w i) (w' i) x g (less_self i (w i) (w' i) (hw i)))

notify_index : (d i : ℕ) (e : Entry) → (notify d i e).index ≡ e.index
unfolding notify
notify_index d i e = elim (Bool-cases (leb e.index ((i + d) % 2 ^ 64) && not e.signalled)) [
  | inl z ↦ rw z
  | inr z ↦ rw z
]

notify-Tally :
    (d i n : ℕ) (o : Option Entry) → Tally o n → Tally (and_then o (λ e. some (notify d i e))) n
unfolding notify
notify-Tally d i n none t = t
notify-Tally d i n (some e) t =
    elim (Bool-cases (leb e.index ((i + d) % 2 ^ 64) && not e.signalled)) [
      | inl z ↦ rw z t
      | inr z ↦ rw z t
    ]

raise : (s n : ℕ) (b : Bool) → s + n ≡ bit b → not b ≡ true → s + 1 + n ≡ 1
raise s n true h e = absurd cc
raise s n false h e = omega (arith, h)

notify-Signals :
    (d i n : ℕ) (o : Option Entry) → Signals o n → Signals (and_then o (λ e. some (notify d i e))) n
unfolding notify
notify-Signals d i n none g = g
notify-Signals d i n (some e) g =
    elim (Bool-cases (leb e.index ((i + d) % 2 ^ 64) && not e.signalled)) [
      | inl z ↦
          let s =
            raise e.signal n e.signalled g
              ((and_true (leb e.index ((i + d) % 2 ^ 64)) (not e.signalled) z).1) in
          rw z s
      | inr z ↦ rw z g
    ]

pub notify-Waiting :
    (d i : ℕ) (es : List Entry) (n w : ℕ → ℕ) → Waiting es n w → Waiting (map (notify d i) es) n w
notify-Waiting d i es n w r =
    let f : (j : ℕ)
        → find_entry j (map (notify d i) es)
          ≡ and_then (find_entry j es) (λ e. some (notify d i e)) =
      λ j. find_entry-map (notify d i) j es (notify_index d i) in
    record {
      sorted = map-SortedFrom (notify d i) 0 es (notify_index d i) r.sorted;
      tally = λ j. rw (f j) (notify-Tally d i (n j) (find_entry j es) (r.tally j));
      signals = λ j. rw (f j) (notify-Signals d i (w j) (find_entry j es) (r.signals j));
    }
