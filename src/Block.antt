-- ===== src/Block.antt =====
-- transform/tfm_block.c: traces of the set before are collected in blocks, and a block that is done
-- gives one or more traces of the new set. What a consumer does with a block is the record Consumer,
-- the pointers of `struct block_args`. What stands between `sem_acquire` and `sem_release` is one
-- operation here. The counters count traces and allocations, and stay below 2^64. The result trace is
-- what `finalize` writes into it.
pub mod Gets
pub mod Lists
pub mod Invariant
pub mod Finals
pub mod Turns
pub mod Returns
pub mod Singles
mod Tests
use libtrs.Base.{
  ℕ, zero, suc, ◌+◌, ◌-◌, ◌≡◌, ◌⊎◌, inl, inr, ltb, leb, ◌==◌, ◌&&◌, if◌then◌else◌, Bool, true,
  false, Option, none, some, List, [], ◌∷◌, ◌++◌, Errno, einval, enomem, Status, ok, err, Outcome,
  done, blocked, ◌>>=◌,
}

pub data Criteria : Type 0 where
  done_listlen done_singular : Criteria

-- The return of `finalize`: negative, 1, or another, with what it wrote and the block that it leaves.
pub data Final (R K : Type 0) : Type 0 where
  refuses : Errno → K → Final R K
  more last : R → K → Final R K

-- `struct block_args`. `title_len`: the length of the title that `finalize` has set, if it has.
pub record Consumer (T K R : Type 0) : Type 0 where
  pub criteria : Criteria
  pub trace_interesting : T → Bool
  pub trace_matches : T → K → Bool
  pub initialize : T → Errno ⊎ K
  pub accumulate : T → K → Status × K
  pub finalize : K → Final R K
  pub title_len : R → Option ℕ

-- `struct __tfm_block_block`.
pub record MetaBlock (K : Type 0) : Type 0 where
  pub is_done : Bool
  pub src_index : ℕ
  pub res_index : ℕ
  pub num_out : ℕ
  pub block : K

-- `struct tfm_block_state`.
pub record BlockState (K : Type 0) : Type 0 where
  pub next_index : ℕ
  pub done_index : ℕ
  pub nblocks : ℕ
  pub lock : ℕ
  pub blocks : List (MetaBlock K)

-- The trace that a call gives. `named`: its title is "Block src.n", with n the number less 1.
pub data Given (R : Type 0) : Type 0 where
  titled : R → Given R
  named : R → ℕ → ℕ → Given R

-- The state that `__tfm_block_init` makes.
abbrev pub new_state : {K : Type 0} → BlockState K
new_state = record { next_index = 0; done_index = 0; nblocks = 0; lock = 1; blocks = [] }

-- Between `sem_acquire` and `sem_release`, which every way through the part reaches.
abbrev pub with_lock : {K A : Type 0} → BlockState K → A → Outcome A
with_lock s x = if s.lock == 0 then blocked else done x

abbrev pub accumulated :
    {K : Type 0} → MetaBlock K → List (MetaBlock K) → Status × K → Status × List (MetaBlock K)
accumulated b bs (st, k) = (st, record b { block = k } ∷ bs)

abbrev pub behind_block :
    {K : Type 0}
    → MetaBlock K
    → Option (Status × List (MetaBlock K))
    → Option (Status × List (MetaBlock K))
behind_block b none = none
behind_block b (some (st, bs)) = some (st, b ∷ bs)

-- The search for a block that the trace matches, and its `accumulate`.
unfoldable pub accumulate_into :
    {T K R : Type 0}
    → Consumer T K R
    → T
    → List (MetaBlock K)
    → Option (Status × List (MetaBlock K))
accumulate_into c t [] = none
accumulate_into c t (b ∷ bs) =
    if c.trace_matches t b.block
    then some (accumulated b bs (c.accumulate t b.block))
    else behind_block b (accumulate_into c t bs)

abbrev pub started : {K : Type 0} → Status × K → Errno ⊎ K
started (ok, k) = inr k
started (err e, k) = inl e

abbrev pub begin_with : {T K R : Type 0} → Consumer T K R → T → Errno ⊎ K → Errno ⊎ K
begin_with c t (inl e) = inl e
begin_with c t (inr k) = started (c.accumulate t k)

-- The block of a new entry.
abbrev pub start_block : {T K R : Type 0} → Consumer T K R → T → Bool → Errno ⊎ K
start_block c t alloc = if alloc then begin_with c t (c.initialize t) else inl enomem

abbrev pub new_block : {K : Type 0} → ℕ → K → MetaBlock K
new_block index k = record {
  is_done = false;
  src_index = index;
  res_index = index;
  num_out = 0;
  block = k;
}

abbrev pub append : {K : Type 0} → MetaBlock K → BlockState K → BlockState K
append b s = record s { blocks = s.blocks ++ (b ∷ []); nblocks = s.nblocks + 1 }

abbrev pub mark : {K : Type 0} → ℕ → MetaBlock K → MetaBlock K
mark i b = record b { is_done = true; res_index = i }

abbrev pub mark_head : {K : Type 0} → List (MetaBlock K) → BlockState K → BlockState K
mark_head [] s = s
mark_head (b ∷ bs) s =
    if b.is_done
    then s
    else record s { blocks = mark s.done_index b ∷ bs; done_index = s.done_index + 1 }

-- The new entry at the end of the list, and what is done by that.
abbrev pub add_block : {K : Type 0} → Criteria → ℕ → K → BlockState K → BlockState K
add_block done_singular index k s = record (append (mark s.done_index (new_block index k)) s) {
  done_index = s.done_index + 1;
}
add_block done_listlen index k s =
    let s' = append (new_block index k) s in if s'.nblocks == 2 then mark_head s'.blocks s' else s'

abbrev pub create_block :
    {K : Type 0} → Criteria → ℕ → Errno ⊎ K → BlockState K → BlockState K × Status
create_block cr index (inl e) s = (s, err e)
create_block cr index (inr k) s = (add_block cr index k s, ok)

abbrev pub joined_or_new :
    {T K R : Type 0}
    → Consumer T K R
    → Bool
    → ℕ
    → T
    → Option (Status × List (MetaBlock K))
    → BlockState K
    → BlockState K × Status
joined_or_new c alloc index t (some (st, bs)) s = (record s { blocks = bs }, st)
joined_or_new c alloc index t none s = create_block done_listlen index (start_block c t alloc) s

abbrev pub after_start :
    {K : Type 0} → ℕ → Errno ⊎ K → BlockState K → Outcome (BlockState K × Status)
after_start index (inl e) s = done (s, err e)
after_start index (inr k) s = with_lock s (add_block done_singular index k s, ok)

-- `__block_accumulate`: with DONE_SINGULAR only the entry in the list needs the lock.
abbrev pub accumulate_as :
    {T K R : Type 0}
    → Criteria
    → Consumer T K R
    → Bool
    → ℕ
    → T
    → BlockState K
    → Outcome (BlockState K × Status)
accumulate_as done_singular c alloc index t s = after_start index (start_block c t alloc) s
accumulate_as done_listlen c alloc index t s =
    with_lock s (joined_or_new c alloc index t (accumulate_into c t s.blocks) s)

abbrev pub block_accumulate :
    {T K R : Type 0}
    → Consumer T K R
    → Bool
    → ℕ
    → T
    → BlockState K
    → Outcome (BlockState K × Status)
block_accumulate c alloc index t s = accumulate_as c.criteria c alloc index t s
