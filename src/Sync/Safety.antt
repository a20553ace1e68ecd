-- ===== src/Sync/Safety.antt =====
-- The invariant of the waiting and requesting threads in every state that they can reach, and what it
-- is worth.
use mathlib.Core.Path.{subst}
use libtrs.Base.{
  total, ℕ, ◌≡◌, refl, Bool-cases, some, List, [], ◌∷◌, get_elem?, inl, inr, Outcome, done, blocked,
  fault, arith,
}
use libtrs.Sync.{Sync, find_entry, new_sync}
use libtrs.Sync.Threads.{
  Thread, ready, stalled, woken, inside, left, ended, Luck, advance, System, runs, all_ready,
  Reaches, start, then_step,
}
use libtrs.Sync.Counts.{holds, waits, wakeful}
use libtrs.Sync.Invariant.{
  IsSync, Safe, Expected, Keeps, synchronize_kept, acquire_signal_kept, resume_kept,
  sync_finalize_kept, leave_kept,
}

advance_kept :
    (s : Sync) (ts : List Thread) (k : ℕ) (l : Luck) (t : Thread) (at : get_elem? ts k ≡ some t)
    (y : IsSync s ts)
    → Safe (advance l t s) (Keeps s ts k t at y)
unfolding advance
advance_kept s ts k l (ready i) at y = synchronize_kept s ts k (ready i) at y l.alloc l.sem i refl
advance_kept s ts k l (stalled i) at y = acquire_signal_kept s ts k (stalled i) at y i refl
advance_kept s ts k l (woken i) at y = resume_kept s ts k (woken i) at y l.alloc i refl
advance_kept s ts k l (inside i) at y = elim (Bool-cases l.passes) [
  | inl q ↦ rw q (sync_finalize_kept s ts k (inside i) at y i refl)
  | inr q ↦ rw q (leave_kept s ts k (inside i) at y i refl)
]
advance_kept s ts k l (left i) at y = tt
advance_kept s ts k l (ended st) at y = tt

none_at : (f : Thread → ℕ) (is : List ℕ) → ((i : ℕ) → f (ready i) ≡ 0) → total f (all_ready is) ≡ 0
none_at f [] h = refl
none_at f (i ∷ is) h = omega (arith, h i, none_at f is h)

new_sync-IsSync : (d : ℕ) (is : List ℕ) → IsSync (new_sync d) (all_ready is)
unfolding find_entry
new_sync-IsSync d is = record {
  requests = record { sorted = tt; tally = λ j. none_at (holds j) is (λ i. refl) };
  waiting = record {
    sorted = tt;
    tally = λ j. none_at (waits j) is (λ i. refl);
    signals = λ j. none_at (wakeful j) is (λ i. refl);
  };
}

from_Safe :
    (P : Sync → Thread → Type 0) (m : Outcome (Sync × Thread)) (s : Sync) (t : Thread)
    → Safe m P
    → m ≡ done (s, t)
    → P s t
from_Safe P m s t h e = subst (λ o. Safe o P) e h

-- However threads take turns in tfm_synchronize, whatever memory and semaphores they get and
-- whether or not their passthrough works: both lists are sorted by index, the entry of an index
-- among the requests counts the threads that are served at it or whose passthrough has failed, the
-- entry of an index that waits counts the threads in __stall at it, and its flag is set exactly
-- while one signal is posted, or taken by a thread that has not got the lock back.
pub Reaches-IsSync : (d : ℕ) (is : List ℕ) (y : System) → Reaches d is y → IsSync y.sync y.threads
Reaches-IsSync d is _ start = new_sync-IsSync d is
Reaches-IsSync d is _ (then_step y _ r (runs _ k l t t' s at e)) =
    let h = Reaches-IsSync d is y r in
    (from_Safe (Keeps y.sync y.threads k t at h) (advance l t y.sync) s t'
      (advance_kept y.sync y.threads k l t at h) e).0

Safe-imp :
    (P Q : Sync → Thread → Type 0) (m : Outcome (Sync × Thread))
    → ((s : Sync) (t : Thread) → P s t → Q s t)
    → Safe m P
    → Safe m Q
Safe-imp P Q (done (s, t)) k h = k s t h
Safe-imp P Q blocked k h = tt
Safe-imp P Q fault k h = h

-- However threads take turns in tfm_synchronize, the next part of any of them touches no entry that
-- is freed; a thread that wakes up finds its flag set, and goes on with its trace or runs out of
-- memory; and one that ends its request finds it in the list.
pub advance-Expected :
    (d : ℕ) (is : List ℕ) (y : System) (k : ℕ) (l : Luck) (t : Thread)
    → Reaches d is y
    → get_elem? y.threads k ≡ some t
    → Safe (advance l t y.sync) (λ _ u. Expected t u)
advance-Expected d is y k l t r at =
    let h = Reaches-IsSync d is y r in
    Safe-imp (Keeps y.sync y.threads k t at h) (λ _ u. Expected t u) (advance l t y.sync)
      (λ _ _ p. p.1) (advance_kept y.sync y.threads k l t at h)
