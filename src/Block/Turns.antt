-- ===== src/Block/Turns.antt =====
-- The loop of `__tfm_block_get`: what one turn changes, and when the calls return.
use libtrs.Base.{
  ℕ, zero, suc, ◌+◌, ◌<◌, ◌≤◌, ◌≡◌, ◌⊎◌, refl, ltb, ◌==◌, Bool, Bool-cases, lt_cases, inl, inr,
  true, false, Option, none, some, List, [], ◌∷◌, Errno, Status, ok, err, Outcome, Returns,
  Returns-bind, arith,
}
use libtrs.Block.{
  Criteria, done_listlen, done_singular, Given, Consumer, MetaBlock, BlockState, with_lock,
  accumulate_into, behind_block, start_block, new_block, append, mark_head, add_block, create_block,
  joined_or_new, after_start, accumulate_as,
}
use libtrs.Block.Gets.{block_finalize, then_get, take_index, fetched, get_turn, block_get}

-- A part of the loop leaves the lock free and the count of the traces asked for; and with two blocks in
-- the list, none is done by their number.
pub record Collected {K : Type 0} (cr : Criteria) (s z : BlockState K) : Type 0 where
  pub unlocked : z.lock ≡ 1
  pub next : z.next_index ≡ s.next_index
  pub full : cr ≡ done_listlen → 2 ≤ s.nblocks → (2 ≤ z.nblocks) × (z.done_index ≡ s.done_index)

abbrev Collects : {K A : Type 0} → Criteria → BlockState K → Outcome (BlockState K × A) → Type 0
Collects cr s m = Returns m (λ x. Collected cr s (x.0))

module _ {K : Type 0} where
  unchanged : (cr : Criteria) (s : BlockState K) → s.lock ≡ 1 → Collected cr s s
  unchanged cr s u = record { unlocked = u; next = refl; full = λ _ h. (h, refl) }

  with_lock-Collects :
      {A : Type 0} (cr : Criteria) (s z : BlockState K) (r : A)
      → s.lock ≡ 1
      → Collected cr s z
      → Collects cr s (with_lock s (z, r))
  with_lock-Collects cr s z r u h = let q : (s.lock == 0) ≡ false = rw u refl in rw q h

  mark_listlen :
      (bs : List (MetaBlock K)) (s z : BlockState K)
      → s.lock ≡ 1
      → z.next_index ≡ s.next_index
      → z.lock ≡ 1
      → s.nblocks ≤ 1
      → Collected done_listlen s (mark_head bs z)
  mark_listlen [] s z u n v le = record {
    unlocked = v;
    next = n;
    full = λ _ h. absurd (omega (arith, h, le));
  }
  mark_listlen (b ∷ bs) s z u n v le = elim (Bool-cases b.is_done) [
    | inl q ↦ rw q (record { unlocked = v; next = n; full = λ _ h. absurd (omega (arith, h, le)) })
    | inr q ↦ rw q (record { unlocked = v; next = n; full = λ _ h. absurd (omega (arith, h, le)) })
  ]

  add_listlen :
      (index : ℕ) (k : K) (s : BlockState K)
      → s.lock ≡ 1
      → Collected done_listlen s (add_block done_listlen index k s)
  add_listlen index k s u =
      let z = append (new_block index k) s in
      elim (Bool-cases (z.nblocks == 2)) [
        | inl q ↦
            let two : s.nblocks + 1 ≡ 2 = ground (arith, q) in
            rw q (mark_listlen z.blocks s z u refl u (omega (arith, two)))
        | inr q ↦
            rw q (record { unlocked = u; next = refl; full = λ _ h. (omega (arith, h), refl) })
      ]

  create_listlen :
      (index : ℕ) (r : Errno ⊎ K) (s : BlockState K)
      → s.lock ≡ 1
      → Collected done_listlen s ((create_block done_listlen index r s).0)
  create_listlen index (inl e) s u = unchanged done_listlen s u
  create_listlen index (inr k) s u = add_listlen index k s u

  start_singular :
      (index : ℕ) (r : Errno ⊎ K) (s : BlockState K)
      → s.lock ≡ 1
      → Collects done_singular s (after_start index r s)
  start_singular index (inl e) s u = unchanged done_singular s u
  start_singular index (inr k) s u =
      with_lock-Collects done_singular s (add_block done_singular index k s) ok u
        (record { unlocked = u; next = refl; full = λ e h. absurd cc })

module _ {T K R : Type 0} (c : Consumer T K R) where
  join_listlen :
      (alloc : Bool) (index : ℕ) (t : T) (o : Option (Status × List (MetaBlock K)))
      (s : BlockState K)
      → s.lock ≡ 1
      → Collected done_listlen s ((joined_or_new c alloc index t o s).0)
  join_listlen alloc index t none s u = create_listlen index (start_block c t alloc) s u
  join_listlen alloc index t (some (st, bs)) s u = record {
    unlocked = u;
    next = refl;
    full = λ _ h. (h, refl);
  }

  accumulate_as-Collects :
      (cr : Criteria) (alloc : Bool) (index : ℕ) (t : T) (s : BlockState K)
      → s.lock ≡ 1
      → Collects cr s (accumulate_as cr c alloc index t s)
  accumulate_as-Collects done_singular alloc index t s u =
      start_singular index (start_block c t alloc) s u
  accumulate_as-Collects done_listlen alloc index t s u =
      let x = joined_or_new c alloc index t (accumulate_into c t s.blocks) s in
      with_lock-Collects done_listlen s (x.0) (x.1) u
        (join_listlen alloc index t (accumulate_into c t s.blocks) s u)

  pub fetched-Collects :
      (alloc : Bool) (index : ℕ) (r : Errno ⊎ T) (s : BlockState K)
      → s.lock ≡ 1
      → Collects c.criteria s (fetched c alloc index r s)
  fetched-Collects alloc index (inl e) s u = unchanged c.criteria s u
  fetched-Collects alloc index (inr t) s u = elim (Bool-cases (c.trace_interesting t)) [
    | inl q ↦ rw q (accumulate_as-Collects c.criteria alloc index t s u)
    | inr q ↦ rw q (unchanged c.criteria s u)
  ]

  pub get_turn_lem :
      (fetch : ℕ → Errno ⊎ T) (alloc : Bool) (s : BlockState K)
      → s.lock ≡ 1
      → get_turn c fetch alloc s ≡ fetched c alloc s.next_index (fetch s.next_index) (take_index s)
  get_turn_lem fetch alloc s u = let q : (s.lock == 0) ≡ false = rw u refl in rw q refl

  then_lem :
      (Q : BlockState K × (Errno ⊎ Given R) → Type 0)
      (f : BlockState K → Outcome (BlockState K × (Errno ⊎ Given R)))
      → (x : BlockState K × Status) → ((e : Errno) → Q (x.0, inl e))
      → Returns (f (x.0)) Q
      → Returns (then_get f x) Q
  then_lem Q f (s, ok) fail h = h
  then_lem Q f (s, err e) fail h = fail e

  -- The loop returns what keeps to Q, if a turn keeps Inv and the calls after it keep to Q. It ends since
  -- the set before has no trace from `total` on.
  pub loop_lem :
      (Inv : BlockState K → Type 0) (Q : BlockState K × (Errno ⊎ Given R) → Type 0)
      (fetch : ℕ → Errno ⊎ T) (mem : ℕ → Bool) (alloc : Bool) (i total : ℕ)
      → ((j : ℕ) → total ≤ j → (e : Errno) × (fetch j ≡ inl e))
      → ((s : BlockState K) → Inv s → s.lock ≡ 1)
      → ((s z : BlockState K) → Inv s → Collected c.criteria (take_index s) z → Inv z)
      → ((s : BlockState K) → Inv s → i < s.done_index → Returns (block_finalize c alloc i s) Q)
      → ((s : BlockState K) (e : Errno) → s.lock ≡ 1 → Q (s, inl e))
      → (n : ℕ) (s : BlockState K) → Inv s
      → 0 < n
      → total < n + s.next_index
      → Returns (block_get c fetch mem alloc n i s) Q
  unfolding block_get
  loop_lem Inv Q fetch mem alloc i total none_left free keep final fail zero s h pos lt =
      absurd (omega (arith, pos))
  loop_lem Inv Q fetch mem alloc i total none_left free keep final fail (suc n) s h pos lt =
      let u = free s h in
      elim (Bool-cases (ltb i s.done_index)) [
        | inl q ↦ rw q (final s h (ground (arith, q)))
        | inr q ↦
            rw (q, get_turn_lem fetch (mem s.next_index) s u)
              (elim (lt_cases s.next_index total) [
                | inr le ↦ let (e, f) = none_left s.next_index le in rw f (fail (take_index s) e u)
                | inl more_left ↦
                    Returns-bind (λ x. Collected c.criteria (take_index s) (x.0)) Q
                      (fetched c (mem s.next_index) s.next_index (fetch s.next_index)
                        (take_index s))
                      (then_get (block_get c fetch mem alloc n i))
                      (fetched-Collects (mem s.next_index) s.next_index (fetch s.next_index)
                        (take_index s) u)
                      (λ x k.
                        then_lem Q (block_get c fetch mem alloc n i) x
                          (λ e. fail (x.0) e k.unlocked)
                          (loop_lem Inv Q fetch mem alloc i total none_left free keep final fail n
                            (x.0) (keep s (x.0) h k) (omega (arith, more_left, lt))
                            (omega (arith, lt, k.next))))
              ])
      ]

-- A consumer that makes a block of each trace and adds each to it, with memory at hand.
pub record Accepts {T K R : Type 0} (c : Consumer T K R) : Type 0 where
  pub starts : (t : T) → (k : K) × (start_block c t true ≡ inr k)
  pub adds : (t : T) (k : K) → (c.accumulate t k).0 ≡ ok

-- What the search does to the status.
abbrev Added : {K : Type 0} → Option (Status × List (MetaBlock K)) → Type 0
Added none = Unit {0}
Added (some (st, bs)) = st ≡ ok

module _ {T K R : Type 0} (c : Consumer T K R) (a : Accepts c) where
  behind_block-Added :
      (b : MetaBlock K) (o : Option (Status × List (MetaBlock K)))
      → Added o
      → Added (behind_block b o)
  behind_block-Added b none h = h
  behind_block-Added b (some (st, bs)) h = h

  accumulate_into-Added : (t : T) (bs : List (MetaBlock K)) → Added (accumulate_into c t bs)
  unfolding accumulate_into
  accumulate_into-Added t [] = tt
  accumulate_into-Added t (b ∷ bs) = elim (Bool-cases (c.trace_matches t b.block)) [
    | inl q ↦ rw q (a.adds t b.block)
    | inr q ↦ rw q (behind_block-Added b (accumulate_into c t bs) (accumulate_into-Added t bs))
  ]

  joined_or_new-ok :
      (index : ℕ) (t : T) (o : Option (Status × List (MetaBlock K))) (s : BlockState K)
      → Added o
      → (joined_or_new c true index t o s).1 ≡ ok
  joined_or_new-ok index t none s h = let (k, e) = a.starts t in rw e refl
  joined_or_new-ok index t (some (st, bs)) s h = h

  -- A turn that gets a trace goes well.
  pub fetched-ok :
      (index : ℕ) (t : T) (s : BlockState K)
      → c.criteria ≡ done_listlen
      → s.lock ≡ 1
      → Returns (fetched c true index (inr t) s) (λ x. x.1 ≡ ok)
  unfolding accumulate_into
  fetched-ok index t s l u =
      let q : (s.lock == 0) ≡ false = rw u refl in
      elim (Bool-cases (c.trace_interesting t)) [
        | inl p ↦
            rw (p, l, q)
              (joined_or_new-ok index t (accumulate_into c t s.blocks) s
                (accumulate_into-Added t s.blocks))
        | inr p ↦ rw p refl
      ]
