-- ===== src/Save/Exit.antt =====
-- The end of tfm_save: __tfm_save_exit and the commit thread, which share `list_lock` and `queue->ts`.
-- What else takes the lock gives it back in the same part, so that it is left out; the queue is empty
-- or not at any time, and a turn of the commit thread has something to write or not. The owner of a
-- trace that was queued is the set itself, so that it differs from `queue->ts` exactly when that is
-- NULL.
use mathlib.Core.Path.{subst}
use libtrs.Base.{◌≡◌, refl, sym, ◌⊎◌, inl, inr, Bool, true, false}

-- With what the commit thread returned: it saw `queue->ts` as NULL, a write had failed, or an entry
-- was refused, of another owner or after the sentinel.
pub data EndCause : Type 0 where
  clean write_failed refused : EndCause

-- `idle`: before `sem_acquire` at the head of the loop. `examines`: with the lock. `commits`: at the
-- head of the loop of `__commit_traces`. `agrees`: the owner of the entry was compared. `in_write`: in
-- `backend->write`. `counts`: before it takes the lock for the counter. `crashed`: it read through
-- `queue->ts` when that was NULL.
pub data CommitPhase : Type 0 where
  idle examines commits agrees in_write counts crashed : CommitPhase
  returned : EndCause → CommitPhase

-- `drains`: in the loop that waits for the list to be empty. `joins`: in `p_thread_join`. `joined`:
-- after it.
pub data ExitPhase : Type 0 where
  before drains joins joined : ExitPhase

pub record Ending : Type 0 where
  pub lock_free : Bool
  pub ts_null : Bool
  pub commit : CommitPhase
  pub exit : ExitPhase

pub data EndStep : Ending → Ending → Type 0 where
  takes :
      (y : Ending)
      → y.commit ≡ idle
      → y.lock_free ≡ true
      → EndStep y (record y { lock_free = false; commit = examines })
  returns :
      (y : Ending)
      → y.commit ≡ examines
      → y.ts_null ≡ true
      → EndStep y (record y { commit = returned clean })
  finds_nothing :
      (y : Ending)
      → y.commit ≡ examines
      → y.ts_null ≡ false
      → EndStep y (record y { lock_free = true; commit = idle })
  cuts :
      (y : Ending)
      → y.commit ≡ examines
      → y.ts_null ≡ false
      → EndStep y (record y { lock_free = true; commit = commits })
  refuses_late :
      (y : Ending) → y.commit ≡ commits → EndStep y (record y { commit = returned refused })
  refuses_owner :
      (y : Ending)
      → y.commit ≡ commits
      → y.ts_null ≡ true
      → EndStep y (record y { commit = returned refused })
  compares :
      (y : Ending)
      → y.commit ≡ commits
      → y.ts_null ≡ false
      → EndStep y (record y { commit = agrees })
  sets_number :
      (y : Ending) → y.commit ≡ commits → y.lock_free ≡ true → y.ts_null ≡ false → EndStep y y
  sets_null :
      (y : Ending)
      → y.commit ≡ commits
      → y.lock_free ≡ true
      → y.ts_null ≡ true
      → EndStep y (record y { lock_free = false; commit = crashed })
  calls_write :
      (y : Ending)
      → y.commit ≡ agrees
      → y.ts_null ≡ false
      → EndStep y (record y { commit = in_write })
  calls_null :
      (y : Ending)
      → y.commit ≡ agrees
      → y.ts_null ≡ true
      → EndStep y (record y { commit = crashed })
  writes : (y : Ending) → y.commit ≡ in_write → EndStep y (record y { commit = commits })
  fails :
      (y : Ending) → y.commit ≡ in_write → EndStep y (record y { commit = returned write_failed })
  ends_batch : (y : Ending) → y.commit ≡ commits → EndStep y (record y { commit = counts })
  adds :
      (y : Ending) → y.commit ≡ counts → y.lock_free ≡ true → EndStep y (record y { commit = idle })
  calls : (y : Ending) → y.exit ≡ before → EndStep y (record y { exit = drains })
  looks_again : (y : Ending) → y.exit ≡ drains → y.lock_free ≡ true → EndStep y y
  drained :
      (y : Ending)
      → y.exit ≡ drains
      → y.lock_free ≡ true
      → EndStep y (record y { lock_free = false; ts_null = true; exit = joins })
  is_joined :
      (y : Ending) (cause : EndCause)
      → y.exit ≡ joins
      → y.commit ≡ returned cause
      → EndStep y (record y { exit = joined })

abbrev pub both_run : Ending
both_run = record { lock_free = true; ts_null = false; commit = idle; exit = before }

pub data Ends : Ending → Type 0 where
  begin : Ends both_run
  more : (y z : Ending) → Ends y → EndStep y z → Ends z

-- Who has the lock before __tfm_save_exit has drained the queue.
abbrev Shared : CommitPhase → Bool → Type 0
Shared examines free = free ≡ false
Shared idle free = free ≡ true
Shared commits free = free ≡ true
Shared agrees free = free ≡ true
Shared in_write free = free ≡ true
Shared counts free = free ≡ true
Shared crashed free = free ≡ true
Shared (returned clean) free = ⊥
Shared (returned write_failed) free = free ≡ true
Shared (returned refused) free = free ≡ true

-- Where the commit thread can be once __tfm_save_exit keeps the lock.
abbrev Kept : CommitPhase → Type 0
Kept examines = ⊥
Kept idle = Unit {0}
Kept commits = Unit {0}
Kept agrees = Unit {0}
Kept in_write = Unit {0}
Kept counts = Unit {0}
Kept crashed = Unit {0}
Kept (returned clean) = ⊥
Kept (returned write_failed) = Unit {0}
Kept (returned refused) = Unit {0}

abbrev pub IsError : CommitPhase → Type 0
IsError c = (c ≡ returned write_failed) ⊎ (c ≡ returned refused)

abbrev Holds : ExitPhase → CommitPhase → Bool → Bool → Type 0
Holds before c free null = (null ≡ false) × Shared c free
Holds drains c free null = (null ≡ false) × Shared c free
Holds joins c free null = (free ≡ false) × Kept c
Holds joined c free null = IsError c

abbrev HoldsAt : Ending → Type 0
HoldsAt y = Holds y.exit y.commit y.lock_free y.ts_null

-- The phases in which the commit thread has not returned.
abbrev Runs : CommitPhase → Type 0
Runs idle = Unit {0}
Runs examines = Unit {0}
Runs commits = Unit {0}
Runs agrees = Unit {0}
Runs in_write = Unit {0}
Runs counts = Unit {0}
Runs crashed = Unit {0}
Runs (returned cause) = ⊥

not_error : (c : CommitPhase) → Runs c → IsError c → ⊥
not_error c r h = elim h [ inl e ↦ subst Runs e r | inr e ↦ subst Runs e r ]

takes-Holds : (x : ExitPhase) (n : Bool) → Holds x idle true n → Holds x examines false n
takes-Holds before n (a, _) = (a, refl)
takes-Holds drains n (a, _) = (a, refl)
takes-Holds joins n (a, _) = absurd cc
takes-Holds joined n h = elim h [ inl e ↦ absurd cc | inr e ↦ absurd cc ]

returns-Holds :
    (x : ExitPhase) (f : Bool) → Holds x examines f true → Holds x (returned clean) f true
returns-Holds before f (a, _) = absurd cc
returns-Holds drains f (a, _) = absurd cc
returns-Holds joins f (_, k) = absurd k
returns-Holds joined f h = elim h [ inl e ↦ absurd cc | inr e ↦ absurd cc ]

finds_nothing-Holds :
    (x : ExitPhase) (f : Bool) → Holds x examines f false → Holds x idle true false
finds_nothing-Holds before f h = (refl, refl)
finds_nothing-Holds drains f h = (refl, refl)
finds_nothing-Holds joins f (_, k) = absurd k
finds_nothing-Holds joined f h = elim h [ inl e ↦ absurd cc | inr e ↦ absurd cc ]

-- With the queue drained the lock is not free.
sets_null-Holds : (x : ExitPhase) → Holds x commits true true → Holds x crashed false true
sets_null-Holds before (a, _) = absurd cc
sets_null-Holds drains (a, _) = absurd cc
sets_null-Holds joins (a, _) = absurd cc
sets_null-Holds joined h = absurd (not_error commits tt h)

-- From a phase of the batch to one in which it has not the lock either.
moves-Holds :
    (x : ExitPhase) (a b : CommitPhase) (f n : Bool)
    → (Shared a f → Shared b f)
    → Kept b
    → Runs a
    → Holds x a f n
    → Holds x b f n
moves-Holds before a b f n s k r h = (h.0, s h.1)
moves-Holds drains a b f n s k r h = (h.0, s h.1)
moves-Holds joins a b f n s k r h = (h.0, k)
moves-Holds joined a b f n s k r h = absurd (not_error a r h)

drained-Kept : (c : CommitPhase) → Shared c true → Kept c
drained-Kept idle h = tt
drained-Kept examines h = absurd cc
drained-Kept commits h = tt
drained-Kept agrees h = tt
drained-Kept in_write h = tt
drained-Kept counts h = tt
drained-Kept crashed h = tt
drained-Kept (returned clean) h = h
drained-Kept (returned write_failed) h = tt
drained-Kept (returned refused) h = tt

joined-Kept : (c : CommitPhase) (b : EndCause) → c ≡ returned b → Kept (returned b) → IsError c
joined-Kept c clean e h = absurd h
joined-Kept c write_failed e h = inl e
joined-Kept c refused e h = inr e

cuts-Holds : (x : ExitPhase) → Holds x idle true false → Holds x commits true false
cuts-Holds x h = moves-Holds x idle commits true false (λ s. s) tt tt h

module _ (y : Ending) (h : HoldsAt y) where
  at_phase : (c : CommitPhase) → y.commit ≡ c → Holds y.exit c y.lock_free y.ts_null
  at_phase c e = subst (λ c. Holds y.exit c y.lock_free y.ts_null) e h

  at_lock :
      (c : CommitPhase) (b : Bool) → y.commit ≡ c → y.lock_free ≡ b → Holds y.exit c b y.ts_null
  at_lock c b e l = subst (λ f. Holds y.exit c f y.ts_null) l (at_phase c e)

  at_null :
      (c : CommitPhase) (b : Bool) → y.commit ≡ c → y.ts_null ≡ b → Holds y.exit c y.lock_free b
  at_null c b e n = subst (λ m. Holds y.exit c y.lock_free m) n (at_phase c e)

  at_exit : (x : ExitPhase) → y.exit ≡ x → Holds x y.commit y.lock_free y.ts_null
  at_exit x e = subst (λ x. Holds x y.commit y.lock_free y.ts_null) e h

  leaves :
      (a b : CommitPhase)
      → y.commit ≡ a
      → (Shared a y.lock_free → Shared b y.lock_free)
      → Kept b
      → Runs a
      → Holds y.exit b y.lock_free y.ts_null
  leaves a b e s k r = moves-Holds y.exit a b y.lock_free y.ts_null s k r (at_phase a e)

step-Holds : (y z : Ending) → HoldsAt y → EndStep y z → HoldsAt z
step-Holds y _ h (takes _ c l) = takes-Holds y.exit y.ts_null (at_lock y h idle true c l)
step-Holds y _ h (returns _ c n) =
    subst (λ m. Holds y.exit (returned clean) y.lock_free m) (sym n)
      (returns-Holds y.exit y.lock_free (at_null y h examines true c n))
step-Holds y _ h (finds_nothing _ c n) =
    subst (λ m. Holds y.exit idle true m) (sym n)
      (finds_nothing-Holds y.exit y.lock_free (at_null y h examines false c n))
step-Holds y _ h (cuts _ c n) =
    subst (λ m. Holds y.exit commits true m) (sym n)
      (cuts-Holds y.exit (finds_nothing-Holds y.exit y.lock_free (at_null y h examines false c n)))
step-Holds y _ h (refuses_late _ c) = leaves y h commits (returned refused) c (λ s. s) tt tt
step-Holds y _ h (refuses_owner _ c n) = leaves y h commits (returned refused) c (λ s. s) tt tt
step-Holds y _ h (compares _ c n) = leaves y h commits agrees c (λ s. s) tt tt
step-Holds y _ h (sets_number _ c l n) = h
step-Holds y _ h (sets_null _ c l n) =
    subst (λ m. Holds y.exit crashed false m) (sym n)
      (sets_null-Holds y.exit
        (subst (λ m. Holds y.exit commits true m) n (at_lock y h commits true c l)))
step-Holds y _ h (calls_write _ c n) = leaves y h agrees in_write c (λ s. s) tt tt
step-Holds y _ h (calls_null _ c n) = leaves y h agrees crashed c (λ s. s) tt tt
step-Holds y _ h (writes _ c) = leaves y h in_write commits c (λ s. s) tt tt
step-Holds y _ h (fails _ c) = leaves y h in_write (returned write_failed) c (λ s. s) tt tt
step-Holds y _ h (ends_batch _ c) = leaves y h commits counts c (λ s. s) tt tt
step-Holds y _ h (adds _ c l) = leaves y h counts idle c (λ s. s) tt tt
step-Holds y _ h (calls _ x) = at_exit y h before x
step-Holds y _ h (looks_again _ x l) = h
step-Holds y _ h (drained _ x l) =
    (refl, drained-Kept y.commit (subst (Shared y.commit) l ((at_exit y h drains x).1)))
step-Holds y _ h (is_joined _ b x c) =
    let k : Kept (returned b) = subst Kept c ((at_exit y h joins x).1) in joined-Kept y.commit b c k

Ends-HoldsAt : (y : Ending) → Ends y → HoldsAt y
Ends-HoldsAt _ begin = (refl, refl)
Ends-HoldsAt _ (more y z e s) = step-Holds y z (Ends-HoldsAt y e) s

-- __tfm_save_exit keeps list_lock when the queue is empty, and then joins the commit thread, which
-- needs it to see that it is to end: however the two take turns, the join comes back only if
-- __commit_traces has returned an error to the commit thread, for a write that failed or an entry
-- that it refused.
pub joined_lem : (y : Ending) → Ends y → y.exit ≡ joined → IsError y.commit
joined_lem y e x = subst (λ x. Holds x y.commit y.lock_free y.ts_null) x (Ends-HoldsAt y e)
