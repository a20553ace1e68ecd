-- ===== src/Sync/Tests.antt =====
-- Runs and examples of tfm_synchronize.c.
use libtrs.Base.{refl, true, false, [], ◌∷◌, ok, arith}
use libtrs.Sync.{
  Sync, synchronize, too_far, request, stall, has_entry, add_entry, find_entry, update,
  release_entry, notify, acquire_signal, sync_finalize,
}
use libtrs.Sync.Threads.{
  ready, stalled, woken, inside, ended, advance, System, Step, runs, Reaches, start, then_step,
}
use libtrs.Sync.Invariant.{IsSync, Safe, Expected}
use libtrs.Sync.Safety.{Reaches-IsSync, advance-Expected}
use libtrs.Sync.Stuck.{lucky, stuck, stuck_lem}

-- Threads at 0, 1 and 3, at a distance of at most 2: the third stalls, and is awake after the second
-- has ended.
abbrev first_state : Sync
first_state = record {
  list_lock = 1;
  max_distance = 2;
  requests = record { index = 0; count = 1; signalled = false; signal = 0 } ∷ [];
  waiting = [];
}

abbrev second_state : Sync
second_state = record first_state {
  requests =
      record { index = 0; count = 1; signalled = false; signal = 0 }
      ∷ record { index = 1; count = 1; signalled = false; signal = 0 }
      ∷ [];
}

abbrev third_state : Sync
third_state = record second_state {
  waiting = record { index = 3; count = 1; signalled = false; signal = 0 } ∷ [];
}

abbrev fourth_state : Sync
fourth_state = record first_state {
  waiting = record { index = 3; count = 1; signalled = true; signal = 1 } ∷ [];
}

abbrev fifth_state : Sync
fifth_state = record first_state {
  waiting = record { index = 3; count = 1; signalled = true; signal = 0 } ∷ [];
}

abbrev awake : System
awake = record { sync = fifth_state; threads = inside 0 ∷ ended ok ∷ woken 3 ∷ [] }

awake_lem : Reaches 2 (0 ∷ 1 ∷ 3 ∷ []) awake
unfolding advance synchronize too_far request stall has_entry add_entry find_entry update
    release_entry notify acquire_signal sync_finalize
awake_lem =
    then_step _ _
      (then_step _ _
        (then_step _ _
          (then_step _ _
            (then_step _ _ start (runs _ 0 lucky (ready 0) (inside 0) first_state refl refl))
            (runs _ 1 lucky (ready 1) (inside 1) second_state refl refl))
          (runs _ 2 lucky (ready 3) (stalled 3) third_state refl refl))
        (runs _ 1 lucky (inside 1) (ended ok) fourth_state refl refl))
      (runs _ 2 lucky (stalled 3) (woken 3) fifth_state refl refl)

Reaches-IsSync_example : IsSync fifth_state (inside 0 ∷ ended ok ∷ woken 3 ∷ [])
Reaches-IsSync_example = Reaches-IsSync 2 (0 ∷ 1 ∷ 3 ∷ []) awake awake_lem

advance-Expected_example : Safe (advance lucky (woken 3) fifth_state) (λ _ u. Expected (woken 3) u)
advance-Expected_example =
    advance-Expected 2 (0 ∷ 1 ∷ 3 ∷ []) awake 2 lucky (woken 3) awake_lem refl

stuck_lem_example : Reaches 2 (0 ∷ 3 ∷ []) (stuck 2 3) × ((z : System) → Step (stuck 2 3) z → ⊥)
stuck_lem_example = stuck_lem 2 3 (omega arith) (omega arith)
