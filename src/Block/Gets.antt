-- ===== src/Block/Gets.antt =====
-- `__block_finalize` and `__tfm_block_get` of transform/tfm_block.c, and the states that calls lead to.
use libtrs.Base.{
  ℕ, zero, suc, ◌+◌, ◌-◌, ◌≡◌, ◌⊎◌, inl, inr, ltb, leb, ◌==◌, ◌&&◌, if◌then◌else◌, Bool, true,
  false, Option, none, some, List, [], ◌∷◌, Errno, einval, enomem, Status, ok, err, Outcome, done,
  blocked, ◌>>=◌,
}
use libtrs.Block.{
  Final, Consumer, MetaBlock, BlockState, Given, new_state, with_lock, block_accumulate, refuses,
  more, last, titled, named,
}

abbrev pub is_result : {K : Type 0} → ℕ → MetaBlock K → Bool
is_result i b = b.is_done && b.res_index == i

-- The search of `__block_finalize`.
unfoldable pub find_result : {K : Type 0} → ℕ → List (MetaBlock K) → Option (MetaBlock K)
find_result i [] = none
find_result i (b ∷ bs) = if is_result i b then some b else find_result i bs

-- A change of the entry that the search finds, and its `list_del`.
unfoldable pub set_result : {K : Type 0} → ℕ → MetaBlock K → List (MetaBlock K) → List (MetaBlock K)
set_result i b' [] = []
set_result i b' (b ∷ bs) = if is_result i b then b' ∷ bs else b ∷ set_result i b' bs

unfoldable pub delete_result : {K : Type 0} → ℕ → List (MetaBlock K) → List (MetaBlock K)
delete_result i [] = []
delete_result i (b ∷ bs) = if is_result i b then bs else b ∷ delete_result i bs

-- The title, with whether its `calloc` succeeds.
abbrev pub name_block : {K R : Type 0} → Bool → R → Option ℕ → MetaBlock K → Errno ⊎ Given R
name_block alloc r (some n) b = if leb 128 n then inl einval else inr (titled r)
name_block alloc r none b = if alloc then inr (named r b.src_index b.num_out) else inl enomem

abbrev pub remove :
    {K R : Type 0} → ℕ → BlockState K → Errno ⊎ Given R → BlockState K × (Errno ⊎ Given R)
remove i s (inl e) = (s, inl e)
remove i s (inr r) =
    (record s { blocks = delete_result i s.blocks; nblocks = s.nblocks - 1 }, inr r)

abbrev pub finish_block :
    {T K R : Type 0}
    → Consumer T K R
    → Bool
    → ℕ
    → MetaBlock K
    → Final R K
    → BlockState K
    → BlockState K × (Errno ⊎ Given R)
finish_block c alloc i b (refuses e k) s =
    (record s { blocks = set_result i (record b { block = k }) s.blocks }, inl e)
finish_block c alloc i b (more r k) s =
    let b' = record b { block = k; res_index = s.done_index; num_out = b.num_out + 1 } in
    (
      record s { blocks = set_result i b' s.blocks; done_index = s.done_index + 1 },
      name_block alloc r (c.title_len r) b',
    )
finish_block c alloc i b (last r k) s =
    remove i (record s { blocks = set_result i (record b { block = k }) s.blocks })
      (name_block alloc r (c.title_len r) b)

abbrev pub finish_found :
    {T K R : Type 0}
    → Consumer T K R
    → Bool
    → ℕ
    → Option (MetaBlock K)
    → BlockState K
    → BlockState K × (Errno ⊎ Given R)
finish_found c alloc i none s = (s, inl einval)
finish_found c alloc i (some b) s = finish_block c alloc i b (c.finalize b.block) s

-- `__block_finalize`.
abbrev pub block_finalize :
    {T K R : Type 0}
    → Consumer T K R
    → Bool
    → ℕ
    → BlockState K
    → Outcome (BlockState K × (Errno ⊎ Given R))
block_finalize c alloc i s =
    if leb s.done_index i
    then done (s, inl einval)
    else with_lock s (finish_found c alloc i (find_result i s.blocks) s)

abbrev pub then_get :
    {K R : Type 0}
    → (BlockState K → Outcome (BlockState K × (Errno ⊎ Given R)))
    → BlockState K × Status
    → Outcome (BlockState K × (Errno ⊎ Given R))
then_get f (s, ok) = f s
then_get f (s, err e) = done (s, inl e)

abbrev pub take_index : {K : Type 0} → BlockState K → BlockState K
take_index s = record s { next_index = s.next_index + 1 }

abbrev pub accumulate_if :
    {T K R : Type 0}
    → Consumer T K R
    → Bool
    → ℕ
    → T
    → BlockState K
    → Outcome (BlockState K × Status)
accumulate_if c alloc index t s =
    if c.trace_interesting t then block_accumulate c alloc index t s else done (s, ok)

abbrev pub fetched :
    {T K R : Type 0}
    → Consumer T K R
    → Bool
    → ℕ
    → Errno ⊎ T
    → BlockState K
    → Outcome (BlockState K × Status)
fetched c alloc index (inl e) s = done (s, err e)
fetched c alloc index (inr t) s = accumulate_if c alloc index t s

-- One turn of the loop of `__tfm_block_get`; `fetch` is `trace_get` of the set before.
abbrev pub get_turn :
    {T K R : Type 0}
    → Consumer T K R
    → (ℕ → Errno ⊎ T)
    → Bool
    → BlockState K
    → Outcome (BlockState K × Status)
get_turn c fetch alloc s =
    if s.lock == 0
    then blocked
    else fetched c alloc s.next_index (fetch s.next_index) (take_index s)

-- `__tfm_block_get`. A call that has not returned after so many turns is left waiting.
unfoldable pub block_get :
    {T K R : Type 0}
    → Consumer T K R
    → (ℕ → Errno ⊎ T)
    → (ℕ → Bool)
    → Bool
    → ℕ
    → ℕ
    → BlockState K
    → Outcome (BlockState K × (Errno ⊎ Given R))
block_get c fetch mem alloc zero i s = blocked
block_get c fetch mem alloc (suc n) i s =
    if ltb i s.done_index
    then block_finalize c alloc i s
    else get_turn c fetch (mem s.next_index) s >>= then_get (block_get c fetch mem alloc n i)

-- Whether a call takes its index away from the block: it gives a trace, or the block goes on to another.
abbrev pub is_taken : {K R : Type 0} → Final R K → Errno ⊎ Given R → Bool
is_taken (refuses e k) r = false
is_taken (more x k) r = true
is_taken (last x k) (inl e) = false
is_taken (last x k) (inr y) = true

abbrev pub spend :
    {T K R : Type 0} → Consumer T K R → ℕ → Option (MetaBlock K) → Errno ⊎ Given R → List ℕ → List ℕ
spend c i none r g = g
spend c i (some b) r g = if is_taken (c.finalize b.block) r then i ∷ g else g

-- The states that calls lead to, however they take turns, with the indices that were taken.
pub data Reached {T K R : Type 0} (c : Consumer T K R) : BlockState K → List ℕ → Type 0 where
  begin : Reached c new_state []
  counts : (s : BlockState K) (g : List ℕ) → Reached c s g → Reached c (take_index s) g
  collects :
      (s z : BlockState K) (g : List ℕ) (alloc : Bool) (index : ℕ) (t : T) (st : Status)
      → Reached c s g
      → block_accumulate c alloc index t s ≡ done (z, st)
      → Reached c z g
  gives :
      (s z : BlockState K) (g : List ℕ) (alloc : Bool) (i : ℕ) (r : Errno ⊎ Given R)
      → Reached c s g
      → block_finalize c alloc i s ≡ done (z, r)
      → Reached c z (spend c i (find_result i s.blocks) r g)
