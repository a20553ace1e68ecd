-- ===== src/Sync/Stuck.antt =====
-- A thread that nobody wakes.
use libtrs.Base.{
  ℕ, zero, suc, ◌+◌, ◌%◌, ◌^◌, ◌<◌, ◌≡◌, refl, sym, ap, ◌∙◌, ltb, leb, ==_refl, true, false, some,
  [], ◌∷◌, get_elem?, ok, Outcome, done, blocked, arith,
}
use libtrs.Sync.{
  new_entry, Sync, find_entry, has_entry, add_entry, update, release_entry, too_far, request, stall,
  notify, new_sync, synchronize, acquire_signal, sync_finalize,
}
use libtrs.Sync.Threads.{
  Thread, ready, stalled, inside, ended, Luck, advance, System, Step, runs, Reaches, start,
  then_step,
}

abbrev pub lucky : Luck
lucky = record { alloc = true; sem = true; passes = true }

-- The lists after the first thread is served, after the second has stalled, and after the first has ended.
abbrev served : ℕ → Sync
served d = record { list_lock = 1; max_distance = d; requests = new_entry 0 ∷ []; waiting = [] }

abbrev behind : ℕ → ℕ → Sync
behind d i = record {
  list_lock = 1;
  max_distance = d;
  requests = new_entry 0 ∷ [];
  waiting = new_entry i ∷ [];
}

abbrev pub stuck : ℕ → ℕ → System
stuck d i = record {
  sync = record { list_lock = 1; max_distance = d; requests = []; waiting = new_entry i ∷ [] };
  threads = ended ok ∷ stalled i ∷ [];
}

first_enters : (d : ℕ) → advance lucky (ready 0) (new_sync d) ≡ done (served d, inside 0)
unfolding advance synchronize too_far request has_entry add_entry
first_enters d = refl

second_stalls :
    (d i : ℕ)
    → d < i
    → i < 2 ^ 64
    → advance lucky (ready i) (served d) ≡ done (behind d i, stalled i)
unfolding advance synchronize too_far stall has_entry add_entry
second_stalls d i h k = let far : ltb ((0 + d) % 2 ^ 64) i ≡ true = ground (arith, h, k) in rw far

first_ends :
    (d i : ℕ)
    → d < i
    → i < 2 ^ 64
    → advance lucky (inside 0) (behind d i) ≡ done ((stuck d i).sync, ended ok)
unfolding advance sync_finalize notify find_entry update release_entry
first_ends d i h k = let far : leb i ((0 + d) % 2 ^ 64) ≡ false = ground (arith, h, k) in rw far

pub stuck-Reaches : (d i : ℕ) → d < i → i < 2 ^ 64 → Reaches d (0 ∷ i ∷ []) (stuck d i)
stuck-Reaches d i h k =
    then_step _ _
      (then_step _ _
        (then_step _ _ start (runs _ 0 lucky (ready 0) (inside 0) (served d) refl (first_enters d)))
        (runs _ 1 lucky (ready i) (stalled i) (behind d i) refl (second_stalls d i h k)))
      (runs _ 0 lucky (inside 0) (ended ok) ((stuck d i).sync) refl (first_ends d i h k))

entry_found : (i : ℕ) → find_entry i (new_entry i ∷ []) ≡ some (new_entry i)
unfolding find_entry
entry_found i = rw (==_refl i)

waits_for_ever : (d i : ℕ) (l : Luck) → advance l (stalled i) ((stuck d i).sync) ≡ blocked
unfolding advance acquire_signal
waits_for_ever d i l = rw (entry_found i, advance, acquire_signal)

-- No thread of the state makes a step.
all_blocked :
    (d i k : ℕ) (l : Luck) (t : Thread)
    → get_elem? ((stuck d i).threads) k ≡ some t
    → advance l t ((stuck d i).sync) ≡ blocked
unfolding advance
all_blocked d i zero l t at =
    let e : ended ok ≡ t = cc in ap (λ u. advance l u ((stuck d i).sync)) (sym e)
all_blocked d i (suc zero) l t at =
    let e : stalled i ≡ t = cc in
    ap (λ u. advance l u ((stuck d i).sync)) (sym e) ∙ waits_for_ever d i l
all_blocked d i (suc (suc k)) l t at = absurd cc

not_done : {A : Type 0} (m : Outcome A) (a : A) → m ≡ blocked → m ≡ done a → ⊥
not_done m a b e = cc

ends_here : (d i : ℕ) (z : System) → Step (stuck d i) z → ⊥
ends_here d i _ (runs _ k l t t' s at e) =
    not_done (advance l t ((stuck d i).sync)) (s, t') (all_blocked d i k l t at) e

-- With a distance of less than an index below 2^64, two threads at index 0 and at that index can
-- come to a state in which the first has ended well and nothing can happen any more, with the
-- second still waiting in __stall: nobody is served, but no end of a request near enough has come
-- after it began to wait.
pub stuck_lem :
    (d i : ℕ)
    → d < i
    → i < 2 ^ 64
    → Reaches d (0 ∷ i ∷ []) (stuck d i) × ((z : System) → Step (stuck d i) z → ⊥)
stuck_lem d i h k = (stuck-Reaches d i h k, ends_here d i)
