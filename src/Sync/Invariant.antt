-- ===== src/Sync/Invariant.antt =====
-- The entries of the two lists count the threads, in every state that threads can reach.
use mathlib.Core.Path.{subst}
use libtrs.Base.{
  bit, total, total-set, le-total, ℕ, ◌+◌, ◌<◌, ◌≡◌, ◌⊎◌, refl, sym, ap, ◌∙◌, ◌==◌, ==_refl,
  Bool-cases, Option-cases, not, ◌&&◌, map, if◌then◌else◌, Bool, true, none, some, List, get_elem?,
  set, inl, inr, enomem, other, ok, err, Outcome, done, blocked, fault, arith,
}
use libtrs.Sync.{
  Entry, Sync, find_entry, has_entry, update, unsignal, notify, take_lock, too_far, request, stall,
  synchronize, acquire_signal, resume, sync_finalize,
}
use libtrs.Sync.Threads.{Thread, ready, stalled, woken, inside, left, ended, goes, moves, wakes}
use libtrs.Sync.Counts.{
  holds, waits, wakeful, Tally, Signals, Requests, Waiting, add_entry-Requests,
  release_entry-Requests,
}
use libtrs.Sync.Waiting.{add_entry-Waiting, take_signal-Waiting, unsignal-Waiting, notify-Waiting}

-- The requests count the threads that have not ended theirs, the entries that wait those in `__stall`,
-- and a flag is set exactly while its signal is out.
pub record IsSync (s : Sync) (ts : List Thread) : Type 0 where
  pub requests : Requests s.requests (λ j. total (holds j) ts)
  pub waiting : Waiting s.waiting (λ j. total (waits j) ts) (λ j. total (wakeful j) ts)

-- If the part returns, the property holds of what it gives; and it has no fault.
abbrev pub Safe : Outcome (Sync × Thread) → (Sync → Thread → Type 0) → Type 0
Safe (done (s, t)) P = P s t
Safe blocked P = Unit {0}
Safe fault P = ⊥

-- What a part of a call can lead to: never to the error for a flag that is not set, or for a request
-- that is not in the list.
abbrev pub Expected : Thread → Thread → Type 0
Expected (woken i) u = (u ≡ inside i) ⊎ (u ≡ ended (err enomem))
Expected (inside i) u = (u ≡ ended ok) ⊎ (u ≡ left i)
Expected (ready i) u = Unit {0}
Expected (stalled i) u = u ≡ woken i
Expected (left i) u = ⊥
Expected (ended st) u = ⊥

module _ (s : Sync) (ts : List Thread) (k : ℕ) (t : Thread) (at : get_elem? ts k ≡ some t)
    (y : IsSync s ts) where
  -- The counts after the thread has gone on to `u`.
  abbrev pub after : (ℕ → Thread → ℕ) → Thread → ℕ → ℕ
  after f u j = total (f j) (set ts k u)

  count : (f : ℕ → Thread → ℕ) (u : Thread) (j : ℕ) → after f u j + f j t ≡ total (f j) ts + f j u
  count f u j = total-set (f j) ts k t u at

  same_count :
      (f : ℕ → Thread → ℕ) (u : Thread)
      → ((j : ℕ) → f j u ≡ f j t)
      → (j : ℕ) → after f u j ≡ total (f j) ts
  same_count f u h j = omega (arith, count f u j, h j)

  unmoved :
      (es : List Entry) (u : Thread)
      → Waiting es (λ j. total (waits j) ts) (λ j. total (wakeful j) ts)
      → ((j : ℕ) → waits j u ≡ waits j t)
      → ((j : ℕ) → wakeful j u ≡ wakeful j t)
      → Waiting es (after waits u) (after wakeful u)
  unmoved es u w h g = record {
    sorted = w.sorted;
    tally = λ j. rw (same_count waits u h j) (w.tally j);
    signals = λ j. rw (same_count wakeful u g j) (w.signals j);
  }

  unasked : (u : Thread) → ((j : ℕ) → holds j u ≡ holds j t) → Requests s.requests (after holds u)
  unasked u h = record {
    sorted = y.requests.sorted;
    tally = λ j. rw (same_count holds u h j) (y.requests.tally j);
  }

  -- Where the second half of `__synchronize` leads to.
  request_kept :
      (alloc : Bool) (i : ℕ) (s' : Sync)
      → s'.requests ≡ s.requests
      → ((j : ℕ) → holds j t ≡ 0)
      → Waiting s'.waiting (after waits (inside i)) (after wakeful (inside i))
      → Waiting s'.waiting (after waits (ended (err enomem))) (after wakeful (ended (err enomem)))
      → IsSync ((request alloc i s').0) (set ts k (goes i ((request alloc i s').1)))
        × ((goes i ((request alloc i s').1) ≡ inside i)
            ⊎ (goes i ((request alloc i s').1) ≡ ended (err enomem)))
  unfolding request
  request_kept alloc i s' e z w1 w2 =
      elim (Bool-cases (not (has_entry i s'.requests) && not alloc)) [
        | inl q ↦ rw q (
          record { requests = rw e (unasked (ended (err enomem)) (λ j. sym (z j))); waiting = w2 },
          inr refl,
        )
        | inr q ↦
            let more : (j : ℕ) → after holds (inside i) j ≡ total (holds j) ts + bit (i == j) =
              λ j. omega (arith, count holds (inside i) j, z j) in
            rw q (
              record {
                requests = rw e (
                    add_entry-Requests i s.requests (λ j. total (holds j) ts)
                      (after holds (inside i)) y.requests more);
                waiting = w1;
              },
              inl refl,
            )
      ]

  stall_kept :
      (alloc sem : Bool) (i : ℕ)
      → t ≡ ready i
      → IsSync
          ((stall alloc sem i (take_lock s)).0)
          (set ts k (goes i ((stall alloc sem i (take_lock s)).1)))
  unfolding stall
  stall_kept alloc sem i e = elim (Bool-cases (not (has_entry i s.waiting) && not (alloc && sem))) [
    | inl q ↦
        let u : Thread = ended (err (if alloc then other else enomem)) in
        rw q (record {
          requests = unasked u (λ j. rw e);
          waiting = unmoved s.waiting u y.waiting (λ j. rw e) (λ j. rw e);
        })
    | inr q ↦
        let u : Thread = stalled i in
        let zw : (j : ℕ) → wakeful j t ≡ 0 = λ j. rw e in
        let zn : (j : ℕ) → waits j t ≡ 0 = λ j. rw e in
        let more : (j : ℕ) → after waits u j ≡ total (waits j) ts + bit (i == j) =
          λ j. omega (arith, count waits u j, zn j) in
        let added =
          add_entry-Waiting i s.waiting (λ j. total (waits j) ts) (after waits u)
            (λ j. total (wakeful j) ts) y.waiting more in
        rw q (record {
          requests = unasked u (λ j. rw e);
          waiting = record {
            sorted = added.sorted;
            tally = added.tally;
            signals = λ j. rw (same_count wakeful u (λ j. sym (zw j)) j) (added.signals j);
          };
        })
  ]

  -- A part of a call keeps the invariant, and leads to what is expected.
  abbrev pub Keeps : Sync → Thread → Type 0
  Keeps s' u = IsSync s' (set ts k u) × Expected t u

  pub synchronize_kept :
      (alloc sem : Bool) (i : ℕ) → t ≡ ready i → Safe (moves i (synchronize alloc sem i s)) Keeps
  unfolding synchronize
  synchronize_kept alloc sem i e = elim (Bool-cases (s.list_lock == 0)) [
    | inl q ↦ rw q tt
    | inr q ↦ elim (Bool-cases (too_far s.max_distance i s.requests)) [
      | inl r ↦ rw (q, r) (stall_kept alloc sem i e, rw e tt)
      | inr r ↦
          let z : (u : Thread)
              → ((j : ℕ) → waits j u ≡ 0)
              → ((j : ℕ) → wakeful j u ≡ 0)
              → Waiting s.waiting (after waits u) (after wakeful u) =
            λ u a b. unmoved s.waiting u y.waiting (λ j. rw e (a j)) (λ j. rw e (b j)) in
          let kept =
            request_kept alloc i (take_lock s) refl (λ j. rw e)
              (z (inside i) (λ j. refl) (λ j. refl))
              (z (ended (err enomem)) (λ j. refl) (λ j. refl)) in
          rw (q, r) (kept.0, rw e tt)
    ]
  ]

  -- A thread in `__stall` has its entry, and one that is awake its flag.
  stalled_entry : (i : ℕ) → 0 < total (waits i) ts → (x : Entry) × (find_entry i s.waiting ≡ some x)
  stalled_entry i p = elim (Option-cases (find_entry i s.waiting)) [
    | inl n ↦
        let z : Tally none (total (waits i) ts) =
          subst (λ o. Tally o (total (waits i) ts)) n (y.waiting.tally i) in
        absurd (omega (arith, z, p))
    | inr h ↦ h
  ]

  requested_entry :
      (i : ℕ) → 0 < total (holds i) ts → (x : Entry) × (find_entry i s.requests ≡ some x)
  requested_entry i p = elim (Option-cases (find_entry i s.requests)) [
    | inl n ↦
        let z : Tally none (total (holds i) ts) =
          subst (λ o. Tally o (total (holds i) ts)) n (y.requests.tally i) in
        absurd (omega (arith, z, p))
    | inr h ↦ h
  ]

  present : (f : ℕ → Thread → ℕ) (i : ℕ) → f i t ≡ 1 → 0 < total (f i) ts
  present f i h = omega (arith, le-total (f i) ts k t at, h)

  pub acquire_signal_kept : (i : ℕ) → t ≡ stalled i → Safe (wakes i (acquire_signal i s)) Keeps
  unfolding acquire_signal
  acquire_signal_kept i e =
      let (x, f) = stalled_entry i (present waits i (rw (e, ==_refl i))) in
      elim (Bool-cases (x.signal == 0)) [
        | inl q ↦ rw (f, acquire_signal, q) tt
        | inr q ↦
            let u : Thread = woken i in
            let asleep : (j : ℕ) → wakeful j t ≡ 0 = λ j. rw e in
            let more : (j : ℕ) → after wakeful u j ≡ total (wakeful j) ts + bit (i == j) =
              λ j. omega (arith, count wakeful u j, asleep j) in
            let taken =
              take_signal-Waiting i s.waiting (λ j. total (waits j) ts) (λ j. total (wakeful j) ts)
                (after wakeful u) x y.waiting f q more in
            rw (f, acquire_signal, q)
              (
                record {
                  requests = unasked u (λ j. rw e);
                  waiting = record {
                    sorted = taken.sorted;
                    tally = λ j. rw (same_count waits u (λ j. rw e) j) (taken.tally j);
                    signals = taken.signals;
                  };
                },
                rw e,
              )
      ]

  flag_set :
      (i : ℕ) (x : Entry)
      → find_entry i s.waiting ≡ some x
      → 0 < total (wakeful i) ts
      → x.signalled ≡ true
  flag_set i x f p =
      let g : Signals (some x) (total (wakeful i) ts) =
        subst (λ o. Signals o (total (wakeful i) ts)) f (y.waiting.signals i) in
      elim (Bool-cases x.signalled) [ inl q ↦ q | inr q ↦ absurd (omega (arith, g ∙ ap bit q, p)) ]

  pub resume_kept : (alloc : Bool) (i : ℕ) → t ≡ woken i → Safe (moves i (resume alloc i s)) Keeps
  unfolding resume
  resume_kept alloc i e = elim (Bool-cases (s.list_lock == 0)) [
    | inl q ↦ rw q tt
    | inr q ↦
        let (x, f) = stalled_entry i (present waits i (rw (e, ==_refl i))) in
        let flag = flag_set i x f (present wakeful i (rw (e, ==_refl i))) in
        let z : (u : Thread)
            → ((j : ℕ) → waits j u ≡ 0)
            → ((j : ℕ) → wakeful j u ≡ 0)
            → Waiting (update i unsignal s.waiting) (after waits u) (after wakeful u) =
          λ u a b.
            unsignal-Waiting i s.waiting (λ j. total (waits j) ts) (after waits u)
              (λ j. total (wakeful j) ts) (after wakeful u) x y.waiting f
              (λ j. omega (arith, count waits u j, a j, ap (waits j) e))
              (λ j. omega (arith, count wakeful u j, b j, ap (wakeful j) e)) in
        let kept =
          request_kept alloc i (record (take_lock s) { waiting = update i unsignal s.waiting }) refl
            (λ j. rw e) (z (inside i) (λ j. refl) (λ j. refl))
            (z (ended (err enomem)) (λ j. refl) (λ j. refl)) in
        rw (q, f, resume, flag) (kept.0, rw e (kept.1))
  ]

  pub sync_finalize_kept : (i : ℕ) → t ≡ inside i → Safe (moves i (sync_finalize i s)) Keeps
  unfolding sync_finalize
  sync_finalize_kept i e = elim (Bool-cases (s.list_lock == 0)) [
    | inl q ↦ rw q tt
    | inr q ↦
        let (x, f) = requested_entry i (present holds i (rw (e, ==_refl i))) in
        let u : Thread = ended ok in
        let less : (j : ℕ) → after holds u j + bit (i == j) ≡ total (holds j) ts =
          λ j. omega (arith, count holds u j, ap (holds j) e) in
        rw (q, f, sync_finalize)
          (
            record {
              requests =
                  release_entry-Requests i s.requests (λ j. total (holds j) ts) (after holds u) x
                    y.requests f less;
              waiting =
                  unmoved (map (notify s.max_distance i) s.waiting) u
                    (notify-Waiting s.max_distance i s.waiting (λ j. total (waits j) ts)
                      (λ j. total (wakeful j) ts) y.waiting)
                    (λ j. rw e) (λ j. rw e);
            },
            rw e (inl refl),
          )
  ]

  pub leave_kept : (i : ℕ) → t ≡ inside i → Keeps s (left i)
  leave_kept i e = (
    record {
      requests = unasked (left i) (λ j. rw e);
      waiting = unmoved s.waiting (left i) y.waiting (λ j. rw e) (λ j. rw e);
    },
    rw e (inr refl),
  )
