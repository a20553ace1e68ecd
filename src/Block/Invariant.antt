-- ===== src/Block/Invariant.antt =====
-- What holds of the list of blocks, and that `__block_accumulate` keeps it.
use libtrs.Base.{
  ℕ, ◌+◌, ◌≡◌, ◌⊎◌, refl, sym, ap, ◌∙◌, ltb, ◌==◌, Bool, Bool-cases, inl, inr, Option, none, some,
  List, [], ◌∷◌, length, bit, total, times, Errno, Status, ok, Outcome, done, blocked, fault, arith,
}
use libtrs.Block.{
  Criteria, done_listlen, done_singular, Consumer, MetaBlock, BlockState, with_lock,
  accumulate_into, start_block, new_block, append, mark, mark_head, add_block, create_block,
  joined_or_new, after_start, accumulate_as,
}
use libtrs.Block.Lists.{results, Joins, accumulate_into-Joins, total-append, length-append}

-- `nblocks` is the length of the list, the lock is free, and each index below `done_index` was taken or
-- is that of one entry that is done.
pub record IsBlocks {K : Type 0} (s : BlockState K) (g : List ℕ) : Type 0 where
  pub size : s.nblocks ≡ length s.blocks
  pub unlocked : s.lock ≡ 1
  pub once : (i : ℕ) → times i g + total (results i) s.blocks ≡ bit (ltb i s.done_index)

-- The call leaves the lists as they should be, with other indices taken.
abbrev pub Kept : {K A : Type 0} → (A → List ℕ) → Outcome (BlockState K × A) → Type 0
Kept g (done (s, r)) = IsBlocks s (g r)
Kept g blocked = Unit {0}
Kept g fault = Unit {0}

pub with_lock-Kept :
    {K A : Type 0} (g : A → List ℕ) (s : BlockState K) (x : BlockState K × A)
    → IsBlocks (x.0) (g (x.1))
    → Kept g (with_lock s x)
with_lock-Kept g s (z, r) h = elim (Bool-cases (s.lock == 0)) [ inl q ↦ rw q tt | inr q ↦ rw q h ]

-- One index more is done.
pub bit_suc : (i d : ℕ) → bit (ltb i (d + 1)) ≡ bit (ltb i d) + bit (d == i)
bit_suc i d = ground arith

module _ {K : Type 0} where
  mark_head-IsBlocks :
      (bs : List (MetaBlock K)) (s : BlockState K) (g : List ℕ)
      → s.blocks ≡ bs
      → IsBlocks s g
      → IsBlocks (mark_head bs s) g
  mark_head-IsBlocks [] s g e h = h
  mark_head-IsBlocks (b ∷ bs) s g e h = elim (Bool-cases b.is_done) [
    | inl q ↦ rw q h
    | inr q ↦ rw q (record {
      size = h.size ∙ ap length e;
      unlocked = h.unlocked;
      once = λ i.
          let z : results i b ≡ 0 = rw q refl in
          omega (arith, h.once i, ap (total (results i)) e, z, bit_suc i s.done_index);
    })
  ]

  append-IsBlocks :
      (index : ℕ) (k : K) (s : BlockState K) (g : List ℕ)
      → IsBlocks s g
      → IsBlocks (append (new_block index k) s) g
  append-IsBlocks index k s g h = record {
    size = omega (arith, h.size, length-append s.blocks (new_block index k));
    unlocked = h.unlocked;
    once = λ i. omega (arith, h.once i, total-append (results i) s.blocks (new_block index k));
  }

  add_block-IsBlocks :
      (cr : Criteria) (index : ℕ) (k : K) (s : BlockState K) (g : List ℕ)
      → IsBlocks s g
      → IsBlocks (add_block cr index k s) g
  add_block-IsBlocks done_singular index k s g h =
      let b = mark s.done_index (new_block index k) in
      record {
        size = omega (arith, h.size, length-append s.blocks b);
        unlocked = h.unlocked;
        once = λ i.
            omega (arith, h.once i, total-append (results i) s.blocks b, bit_suc i s.done_index);
      }
  add_block-IsBlocks done_listlen index k s g h =
      let z = append (new_block index k) s in
      let p = append-IsBlocks index k s g h in
      elim (Bool-cases (z.nblocks == 2)) [
        | inl q ↦ rw q (mark_head-IsBlocks z.blocks z g refl p)
        | inr q ↦ rw q p
      ]

  create_block-IsBlocks :
      (cr : Criteria) (index : ℕ) (r : Errno ⊎ K) (s : BlockState K) (g : List ℕ)
      → IsBlocks s g
      → IsBlocks ((create_block cr index r s).0) g
  create_block-IsBlocks cr index (inl e) s g h = h
  create_block-IsBlocks cr index (inr k) s g h = add_block-IsBlocks cr index k s g h

  after_start-Kept :
      (index : ℕ) (r : Errno ⊎ K) (s : BlockState K) (g : List ℕ)
      → IsBlocks s g
      → Kept (λ _. g) (after_start index r s)
  after_start-Kept index (inl e) s g h = h
  after_start-Kept index (inr k) s g h =
      with_lock-Kept (λ _. g) s (add_block done_singular index k s, ok)
        (add_block-IsBlocks done_singular index k s g h)

module _ {T K R : Type 0} (c : Consumer T K R) (alloc : Bool) where
  joined_or_new-IsBlocks :
      (index : ℕ) (t : T) (o : Option (Status × List (MetaBlock K))) (s : BlockState K) (g : List ℕ)
      → IsBlocks s g
      → Joins s.blocks o
      → IsBlocks ((joined_or_new c alloc index t o s).0) g
  joined_or_new-IsBlocks index t none s g h j =
      create_block-IsBlocks done_listlen index (start_block c t alloc) s g h
  joined_or_new-IsBlocks index t (some (st, bs)) s g h j = record {
    size = h.size ∙ sym j.size;
    unlocked = h.unlocked;
    once = λ i. omega (arith, h.once i, j.sums i);
  }

  pub accumulate_as-Kept :
      (cr : Criteria) (index : ℕ) (t : T) (s : BlockState K) (g : List ℕ)
      → IsBlocks s g
      → Kept (λ _. g) (accumulate_as cr c alloc index t s)
  accumulate_as-Kept done_singular index t s g h =
      after_start-Kept index (start_block c t alloc) s g h
  accumulate_as-Kept done_listlen index t s g h =
      with_lock-Kept (λ _. g) s (joined_or_new c alloc index t (accumulate_into c t s.blocks) s)
        (joined_or_new-IsBlocks index t (accumulate_into c t s.blocks) s g h
          (accumulate_into-Joins c t s.blocks))
