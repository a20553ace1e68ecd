-- ===== src/Block/Singles.antt =====
-- A block for each trace: the traces that are asked for in order are made of the interesting traces of
-- the set before, one of each.
use mathlib.Core.Path.{subst}
use libtrs.Base.{
  fault, Returns, take, ℕ, zero, suc, ◌+◌, ◌<◌, ◌≡◌, ◌⊎◌, refl, sym, ap, ◌∙◌, ltb, leb, ◌==◌,
  if◌then◌else◌, Bool-cases, inl, inr, true, false, List, [], ◌∷◌, length, Errno, einval, ok,
  Outcome, done, blocked, ◌>>=◌, arith,
}
use libtrs.Block.{
  done_singular, last, Given, Consumer, BlockState, new_state, start_block, new_block, mark,
}
use libtrs.Block.Gets.{
  fetched, find_result, set_result, delete_result, name_block, block_finalize, take_index,
  block_get,
}

-- A consumer that makes a block of each trace, and gives one trace of each block.
pub record Single {T K R : Type 0} (c : Consumer T K R) : Type 0 where
  pub made : T → K
  pub given : T → ℕ → Given R
  pub singular : c.criteria ≡ done_singular
  pub starts : (t : T) → start_block c t true ≡ inr (made t)
  pub out : T → R
  pub rest : T → K
  pub ends : (t : T) → c.finalize (made t) ≡ last (out t) (rest t)
  pub names :
      (t : T) (d j : ℕ)
      → name_block true (out t) (c.title_len (out t)) (mark d (new_block j (made t)))
        ≡ inr (given t j)

-- `trace_get` of a set that holds a list of traces.
abbrev pub trace_at : {T : Type 0} → List T → ℕ → Errno ⊎ T
trace_at [] i = inl einval
trace_at (t ∷ ts) zero = inr t
trace_at (t ∷ ts) (suc i) = trace_at ts i

-- Between the calls no block is left.
abbrev pub ready : {K : Type 0} → ℕ → ℕ → BlockState K
ready next done_index = record {
  next_index = next;
  done_index = done_index;
  nblocks = 0;
  lock = 1;
  blocks = [];
}

abbrev one_block : {K : Type 0} → ℕ → ℕ → K → BlockState K
one_block j i k = record {
  next_index = j + 1;
  done_index = i + 1;
  nblocks = 0 + 1;
  lock = 1;
  blocks = mark i (new_block j k) ∷ [];
}

module _ {T K R : Type 0} (c : Consumer T K R) (h : Single c) where
  turn_single :
      (j i : ℕ) (t : T)
      → c.trace_interesting t ≡ true
      → fetched c true j (inr t) (take_index (ready j i)) ≡ done (one_block j i (h.made t), ok)
  turn_single j i t q = rw (q, h.singular, h.starts t) refl

  finalize_single :
      (j i : ℕ) (t : T)
      → block_finalize c true i (one_block j i (h.made t))
        ≡ done (ready (j + 1) (i + 1), inr (h.given t j))
  unfolding find_result set_result delete_result
  finalize_single j i t =
      let p : leb (i + 1) i ≡ false = ground arith in
      let q : (i == i) ≡ true = ground arith in rw (p, q, h.ends t, h.names t i j) (rw (q, q) refl)

  -- What the traces from an index on give, one after the other.
  abbrev pub outputs : ℕ → List T → List (Given R)
  outputs j [] = []
  outputs j (t ∷ ts) =
      let rest = outputs (j + 1) ts in if c.trace_interesting t then h.given t j ∷ rest else rest

  -- The next call, where the traces from `j` on are `us`: what it gives, and the traces left.
  abbrev Next : Type 0
  Next = (ℕ × List T) × (Errno ⊎ Given R)

  abbrev next_output : ℕ → List T → Next
  next_output j [] = ((j + 1, []), inl einval)
  next_output j (t ∷ us) =
      let rest = next_output (j + 1) us in
      if c.trace_interesting t then ((j + 1, us), inr (h.given t j)) else rest

  abbrev left_by : ℕ → Next → BlockState K × (Errno ⊎ Given R)
  left_by i ((j, us), inl e) = (ready j i, inl e)
  left_by i ((j, us), inr r) = (ready j (i + 1), inr r)

  -- The call after a turn that made a block.
  get_made :
      (fetch : ℕ → Errno ⊎ T) (j i n : ℕ) (t : T)
      → 0 < n
      → block_get c fetch (λ _. true) true n i (one_block j i (h.made t))
        ≡ done (ready (j + 1) (i + 1), inr (h.given t j))
  unfolding block_get
  get_made fetch j i zero t pos = absurd (omega (arith, pos))
  get_made fetch j i (suc n) t pos =
      let q : ltb i (i + 1) ≡ true = ground arith in rw q (finalize_single j i t)

  get_single :
      (us : List T) (fetch : ℕ → Errno ⊎ T) (j i n : ℕ)
      → ((k : ℕ) → fetch (j + k) ≡ trace_at us k)
      → length us < n
      → block_get c fetch (λ _. true) true n i (ready j i) ≡ done (left_by i (next_output j us))
  unfolding block_get
  get_single us fetch j i zero f lt = absurd (omega (arith, lt))
  get_single [] fetch j i (suc n) f lt =
      let q : ltb i i ≡ false = ground arith in
      let g : fetch j ≡ inl einval = ap fetch (omega arith) ∙ f 0 in rw (q, g) refl
  get_single (t ∷ us) fetch j i (suc n) f lt =
      let q : ltb i i ≡ false = ground arith in
      let g : fetch j ≡ inr t = ap fetch (omega arith) ∙ f 0 in
      elim (Bool-cases (c.trace_interesting t)) [
        | inl p ↦ rw (q, g, turn_single j i t p) (rw p (get_made fetch j i n t (omega (arith, lt))))
        | inr p ↦
            rw (q, g, p)
              (get_single us fetch (j + 1) i n (λ k. ap fetch (omega arith) ∙ f (suc k))
                (omega (arith, lt)))
      ]

  -- What the next call leaves of the outputs.
  Follows : (ℕ → Errno ⊎ T) → ℕ → List (Given R) → Next → Type 0
  Follows fetch n l (x, inl e) = l ≡ []
  Follows fetch n l ((j, us), inr r) =
      (l ≡ r ∷ outputs j us) × ((k : ℕ) → fetch (j + k) ≡ trace_at us k) × (length us < n)

  next_output-Follows :
      (us : List T) (fetch : ℕ → Errno ⊎ T) (j n : ℕ)
      → ((k : ℕ) → fetch (j + k) ≡ trace_at us k)
      → length us < n
      → Follows fetch n (outputs j us) (next_output j us)
  unfolding Follows
  next_output-Follows [] fetch j n f lt = refl
  next_output-Follows (t ∷ us) fetch j n f lt =
      let g : (k : ℕ) → fetch ((j + 1) + k) ≡ trace_at us k =
        λ k. ap fetch (omega arith) ∙ f (suc k) in
      elim (Bool-cases (c.trace_interesting t)) [
        | inl p ↦ rw p (refl, g, omega (arith, lt))
        | inr p ↦ rw p (next_output-Follows us fetch (j + 1) n g (omega (arith, lt)))
      ]

-- A caller that asks for so many traces in order from an index, as long as it gets them.
abbrev and_more :
    {K R : Type 0}
    → (BlockState K → Outcome (BlockState K × List (Given R)))
    → BlockState K × (Errno ⊎ Given R)
    → Outcome (BlockState K × List (Given R))
and_more f (s, inl e) = done (s, [])
and_more f (s, inr r) = f s >>= λ x. done (x.0, r ∷ x.1)

unfoldable pub gets :
    {T K R : Type 0}
    → Consumer T K R
    → (ℕ → Errno ⊎ T)
    → ℕ
    → ℕ
    → ℕ
    → BlockState K
    → Outcome (BlockState K × List (Given R))
gets c fetch n zero i s = done (s, [])
gets c fetch n (suc m) i s =
    block_get c fetch (λ _. true) true n i s >>= and_more (gets c fetch n m (i + 1))

module _ {T K R : Type 0} (c : Consumer T K R) (h : Single c) where
  abbrev Gives : ℕ → List (Given R) → Outcome (BlockState K × List (Given R)) → Type 0
  Gives m l o = Returns o (λ x. x.1 ≡ take m l)

  and_more-Gives :
      (m : ℕ) (l : List (Given R)) (r : Given R) (o : Outcome (BlockState K × List (Given R)))
      → Gives m l o
      → Gives (suc m) (r ∷ l) (o >>= λ x. done (x.0, r ∷ x.1))
  and_more-Gives m l r (done (z, rs)) e = ap (λ xs. r ∷ xs) e
  and_more-Gives m l r blocked e = e
  and_more-Gives m l r fault e = e

  gets_next :
      (m i n : ℕ) (fetch : ℕ → Errno ⊎ T) (l : List (Given R)) (o : Next c h)
      → ((j : ℕ) (us : List T)
          → ((k : ℕ) → fetch (j + k) ≡ trace_at us k)
          → length us < n
          → Gives m (outputs c h j us) (gets c fetch n m (i + 1) (ready j (i + 1))))
      → Follows c h fetch n l o
      → Gives (suc m) l (and_more (gets c fetch n m (i + 1)) (left_by c h i o))
  unfolding Follows
  gets_next m i n fetch l ((j, us), inl e) next q = sym (ap (take (suc m)) q)
  gets_next m i n fetch l ((j, us), inr r) next (q, f, lt) =
      subst
        (λ x.
          Gives (suc m) x (gets c fetch n m (i + 1) (ready j (i + 1)) >>= λ y. done (y.0, r ∷ y.1)))
        (sym q)
        (and_more-Gives m (outputs c h j us) r (gets c fetch n m (i + 1) (ready j (i + 1)))
          (next j us f lt))

  gets_from :
      (m : ℕ) (us : List T) (fetch : ℕ → Errno ⊎ T) (j i n : ℕ)
      → ((k : ℕ) → fetch (j + k) ≡ trace_at us k)
      → length us < n
      → Gives m (outputs c h j us) (gets c fetch n m i (ready j i))
  unfolding gets
  gets_from zero us fetch j i n f lt = refl
  gets_from (suc m) us fetch j i n f lt = rw (get_single c h us fetch j i n f lt) (
      gets_next m i n fetch (outputs c h j us) (next_output c h j us)
        (λ j' us' f' lt'. gets_from m us' fetch j' (i + 1) n f' lt')
        (next_output-Follows c h us fetch j n f lt))

  -- Of a consumer that with DONE_SINGULAR and with memory at hand makes a block of each trace, and
  -- of each block one trace whose title is allowed, whoever asks tfm_block for the traces 0, 1 and
  -- so on gets what the interesting traces of the set before make, one of each and in their order,
  -- and an error after the last.
  pub gets-outputs :
      (m n : ℕ) (ts : List T)
      → length ts < n
      → Returns (gets c (trace_at ts) n m 0 new_state) (λ x. x.1 ≡ take m (outputs c h 0 ts))
  gets-outputs m n ts lt =
      gets_from m ts (trace_at ts) 0 0 n (λ k. ap (trace_at ts) (omega arith)) lt
