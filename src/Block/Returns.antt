-- ===== src/Block/Returns.antt =====
-- Calls of `__tfm_block_get` return, and calls that are out of order can fail.
use libtrs.Base.{
  ℕ, ◌+◌, ◌≤◌, ◌≡◌, ◌⊎◌, refl, ◌∙◌, leb, ◌==◌, Bool, Bool-cases, inl, inr, false, Option, none,
  some, List, Errno, Returns, arith,
}
use libtrs.Block.{Final, refuses, more, last, Given, Consumer, MetaBlock, BlockState}
use libtrs.Block.Gets.{
  find_result, name_block, remove, finish_block, finish_found, block_finalize, block_get, Reached,
}
use libtrs.Block.Finals.{Reached-IsBlocks}
use libtrs.Block.Turns.{loop_lem}

remove-lock :
    {K R : Type 0} (i : ℕ) (s : BlockState K) (r : Errno ⊎ Given R) → (remove i s r).0.lock ≡ s.lock
remove-lock i s (inl e) = refl
remove-lock i s (inr r) = refl

module _ {T K R : Type 0} (c : Consumer T K R) (alloc : Bool) where
  finish_block-lock :
      (i : ℕ) (b : MetaBlock K) (f : Final R K) (s : BlockState K)
      → (finish_block c alloc i b f s).0.lock ≡ s.lock
  finish_block-lock i b (refuses e k) s = refl
  finish_block-lock i b (more r k) s = refl
  finish_block-lock i b (last r k) s = remove-lock i _ (name_block alloc r (c.title_len r) b)

  finish_found-lock :
      (i : ℕ) (o : Option (MetaBlock K)) (s : BlockState K)
      → (finish_found c alloc i o s).0.lock ≡ s.lock
  finish_found-lock i none s = refl
  finish_found-lock i (some b) s = finish_block-lock i b (c.finalize b.block) s

  block_finalize-lock :
      (i : ℕ) (s : BlockState K)
      → s.lock ≡ 1
      → Returns (block_finalize c alloc i s) (λ x. (x.0).lock ≡ 1)
  block_finalize-lock i s u =
      let q : (s.lock == 0) ≡ false = rw u refl in
      elim (Bool-cases (leb s.done_index i)) [
        | inl p ↦ rw p u
        | inr p ↦ rw (p, q) (finish_found-lock i (find_result i s.blocks) s ∙ u)
      ]

  module _ (fetch : ℕ → Errno ⊎ T) (mem : ℕ → Bool) (i total : ℕ) where
    -- From every state that calls of tfm_block lead to: if the set before has no trace from some
    -- index on, __tfm_block_get returns within one turn more than that index, with the lock free.
    pub block_get-Returns :
        (s : BlockState K) (g : List ℕ) (n : ℕ)
        → ((j : ℕ) → total ≤ j → (e : Errno) × (fetch j ≡ inl e))
        → Reached c s g
        → total + 1 ≤ n
        → Returns (block_get c fetch mem alloc n i s) (λ x. (x.0).lock ≡ 1)
    block_get-Returns s g n none_left r le =
        loop_lem c (λ z. z.lock ≡ 1) (λ x. (x.0).lock ≡ 1) fetch mem alloc i total none_left
          (λ z h. h) (λ y z _ k. k.unlocked) (λ z h _. block_finalize-lock i z h) (λ z e u. u) n s
          ((Reached-IsBlocks c s g r).unlocked) (omega (arith, le)) (omega (arith, le))
