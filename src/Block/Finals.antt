-- ===== src/Block/Finals.antt =====
-- `__block_finalize` keeps what holds of the list, so that it holds in every state that calls lead to.
use mathlib.Core.Path.{subst}
use libtrs.Base.{
  ℕ, ◌+◌, ◌<◌, ◌≡◌, ◌⊎◌, refl, sym, ap, ◌∙◌, ltb, leb, ◌==◌, if◌then◌else◌, Bool, Bool-cases,
  Option-cases, inl, inr, true, false, Option, none, some, List, ◌∷◌, bit, times, Errno, einval,
  done, arith,
}
use libtrs.Block.{Final, refuses, more, last, Given, Consumer, MetaBlock, BlockState}
use libtrs.Block.Gets.{
  is_result, find_result, set_result, name_block, remove, finish_block, finish_found,
  block_finalize, is_taken, spend, Reached, begin, counts, collects, gives,
}
use libtrs.Block.Lists.{results, find_result-Located, find_result-set_result, find_result-some}
use libtrs.Block.Invariant.{IsBlocks, Kept, with_lock-Kept, bit_suc, accumulate_as-Kept}

module _ {T K R : Type 0} (c : Consumer T K R) (alloc : Bool) where
  -- The entry after `finalize`, with the index that it had.
  set-IsBlocks :
      (i : ℕ) (b : MetaBlock K) (k : K) (s : BlockState K) (g : List ℕ)
      → IsBlocks s g
      → find_result i s.blocks ≡ some b
      → IsBlocks (record s { blocks = set_result i (record b { block = k }) s.blocks }) g
  set-IsBlocks i b k s g h e =
      let l = find_result-Located i s.blocks b e in
      let b' = record b { block = k } in
      record {
        size = h.size ∙ sym (l.set_size b');
        unlocked = h.unlocked;
        once = λ j. omega (arith, h.once j, l.set_sums (results j) b');
      }

  result_index :
      (i : ℕ) (b : MetaBlock K) → is_result i b ≡ true → (j : ℕ) → results j b ≡ bit (i == j)
  result_index i b h j = ground (arith, h)

  remove-IsBlocks :
      (i : ℕ) (b : MetaBlock K) (s : BlockState K) (g : List ℕ) (x : R) (k : K)
      (r : Errno ⊎ Given R)
      → IsBlocks s g
      → find_result i s.blocks ≡ some b
      → IsBlocks ((remove i s r).0) (if is_taken (last x k) ((remove i s r).1) then i ∷ g else g)
  remove-IsBlocks i b s g x k (inl e) h f = h
  remove-IsBlocks i b s g x k (inr y) h f =
      let l = find_result-Located i s.blocks b f in
      record {
        size = omega (arith, h.size, l.del_size);
        unlocked = h.unlocked;
        once = λ j. omega (arith, h.once j, l.del_sums (results j), result_index i b l.fits j);
      }

  finish_block-IsBlocks :
      (i : ℕ) (b : MetaBlock K) (f : Final R K) (s : BlockState K) (g : List ℕ)
      → IsBlocks s g
      → find_result i s.blocks ≡ some b
      → IsBlocks
          ((finish_block c alloc i b f s).0)
          (if is_taken f ((finish_block c alloc i b f s).1) then i ∷ g else g)
  finish_block-IsBlocks i b (refuses x k) s g h e = set-IsBlocks i b k s g h e
  finish_block-IsBlocks i b (more r k) s g h e =
      let l = find_result-Located i s.blocks b e in
      let b' = record b { block = k; res_index = s.done_index; num_out = b.num_out + 1 } in
      let marked : b.is_done ≡ true = ground (arith, l.fits) in
      let last_index : (j : ℕ) → results j b' ≡ bit (s.done_index == j) = λ j. rw marked refl in
      record {
        size = h.size ∙ sym (l.set_size b');
        unlocked = h.unlocked;
        once = λ j. omega (
          arith,
          h.once j,
          l.set_sums (results j) b',
          last_index j,
          result_index i b l.fits j,
          bit_suc j s.done_index,
        );
      }
  finish_block-IsBlocks i b (last r k) s g h e =
      let b' = record b { block = k } in
      let l = find_result-Located i s.blocks b e in
      remove-IsBlocks i b' (record s { blocks = set_result i b' s.blocks }) g r k
        (name_block alloc r (c.title_len r) b) (set-IsBlocks i b k s g h e)
        (find_result-set_result i s.blocks b b' e l.fits)

  finish_found-IsBlocks :
      (i : ℕ) (o : Option (MetaBlock K)) (s : BlockState K) (g : List ℕ)
      → IsBlocks s g
      → find_result i s.blocks ≡ o
      → IsBlocks ((finish_found c alloc i o s).0) (spend c i o ((finish_found c alloc i o s).1) g)
  finish_found-IsBlocks i none s g h e = h
  finish_found-IsBlocks i (some b) s g h e = finish_block-IsBlocks i b (c.finalize b.block) s g h e

  -- No entry has an index that was not given out.
  find_result-none :
      (i : ℕ) (s : BlockState K) (g : List ℕ)
      → IsBlocks s g
      → ltb i s.done_index ≡ false
      → find_result i s.blocks ≡ none
  find_result-none i s g h q = elim (Option-cases (find_result i s.blocks)) [
    | inl e ↦ e
    | inr (b, e) ↦
        let l = find_result-Located i s.blocks b e in
        let one : results i b ≡ 1 = ap bit l.fits in
        absurd (omega (arith, h.once i, l.del_sums (results i), one, ap bit q))
  ]

  block_finalize-Kept :
      (i : ℕ) (s : BlockState K) (g : List ℕ)
      → IsBlocks s g
      → Kept (λ r. spend c i (find_result i s.blocks) r g) (block_finalize c alloc i s)
  block_finalize-Kept i s g h = elim (Bool-cases (leb s.done_index i)) [
    | inl q ↦ rw q (
        subst (λ o. IsBlocks s (spend c i o (inl einval) g))
          (sym (find_result-none i s g h (ground (arith, q)))) h)
    | inr q ↦ rw q (
        with_lock-Kept (λ r. spend c i (find_result i s.blocks) r g) s
          (finish_found c alloc i (find_result i s.blocks) s)
          (finish_found-IsBlocks i (find_result i s.blocks) s g h refl))
  ]

pub Reached-IsBlocks :
    {T K R : Type 0} (c : Consumer T K R) (s : BlockState K) (g : List ℕ)
    → Reached c s g
    → IsBlocks s g
Reached-IsBlocks c _ _ begin = record {
  size = refl;
  unlocked = refl;
  once = λ i. let q : ltb i 0 ≡ false = ground arith in rw q refl;
}
Reached-IsBlocks c _ _ (counts s g r) =
    let h = Reached-IsBlocks c s g r in
    record { size = h.size; unlocked = h.unlocked; once = h.once }
Reached-IsBlocks c _ _ (collects s z g alloc index t st r e) =
    subst (Kept (λ _. g)) e
      (accumulate_as-Kept c alloc c.criteria index t s g (Reached-IsBlocks c s g r))
Reached-IsBlocks c _ _ (gives s z g alloc i x r e) =
    subst (Kept (λ y. spend c i (find_result i s.blocks) y g)) e
      (block_finalize-Kept c alloc i s g (Reached-IsBlocks c s g r))

-- However calls of tfm_block take turns, whatever memory they get and whatever the consumer
-- returns: an index below done_index that no call has taken is that of a block which is done, and
-- __block_finalize finds it, and ends as the consumer's finalize of that block says.
pub block_finalize_found :
    {T K R : Type 0} (c : Consumer T K R) (alloc : Bool) (i : ℕ) (s : BlockState K) (g : List ℕ)
    → Reached c s g
    → i < s.done_index
    → times i g ≡ 0
    → (b : MetaBlock K) × (b.is_done ≡ true)
      × (b.res_index ≡ i)
      × (block_finalize c alloc i s ≡ done (finish_block c alloc i b (c.finalize b.block) s))
block_finalize_found c alloc i s g r lt z =
    let h = Reached-IsBlocks c s g r in
    let q : ltb i s.done_index ≡ true = ground (arith, lt) in
    let (b, e) = find_result-some i s.blocks (omega (arith, h.once i, z, ap bit q)) in
    let l = find_result-Located i s.blocks b e in
    let le : leb s.done_index i ≡ false = ground (arith, lt) in
    let free : (s.lock == 0) ≡ false = rw h.unlocked refl in
    (b, ground (arith, l.fits), ground (arith, l.fits), rw (le, free, e) refl)
